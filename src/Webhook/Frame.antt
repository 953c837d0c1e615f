-- ===== src/Webhook/Frame.antt =====
-- What defaultPod leaves as it was.
use mathlib.Core.List.{append-nil, append_assoc}
use kube_image_keeper.Prelude.{
  ◌≡◌, refl, sym, ap, ◌∙◌, ℕ, zero, suc, Bool, not, List, [], ◌∷◌, ◌++◌, map, Option, none, some,
  contains_func, Bool-cases, Option-cases, inl, inr,
}
use kube_image_keeper.Text.{Text, text_eq}
use kube_image_keeper.Effects.{pure, ◌>>=◌}
use kube_image_keeper.Effects.Laws.{Returns, pure-Returns, >>=-Returns, then-Returns}
use kube_image_keeper.Pods.{Container as PodContainer, PullPolicy, Pod}
use kube_image_keeper.Resources.{ImageSetMirror, ReplicatedImageSet}
use kube_image_keeper.Webhook.Alternatives.{Secret, AlternativeImage, Container}
use kube_image_keeper.Webhook.Rewrite.{Cluster, Routing, ensure_secret}
use kube_image_keeper.Webhook.Defaulting.{
  set_image_at, set_image, inject_secret, Libraries, find_best_alternative_cached, reroute,
  reroute_all, read_inputs, default_containers, default_eligible,
}

-- What a container is besides its image.
abbrev pub fixed : PodContainer → Text × PullPolicy
fixed c = (c.name, c.image_pull_policy)

-- The later pod differs from the earlier one in the images of its containers, in further pull secrets
-- behind those that it had, and nowhere else.
pub record IsRerouted (p q : Pod) : Type 0 where
  pub name : q.name ≡ p.name
  pub namespace : q.namespace ≡ p.namespace
  pub labels : q.labels ≡ p.labels
  pub annotations : q.annotations ≡ p.annotations
  pub containers : map fixed q.containers ≡ map fixed p.containers
  pub init_containers : map fixed q.init_containers ≡ map fixed p.init_containers
  pub pull_secrets : (added : List Text) × (q.image_pull_secrets ≡ p.image_pull_secrets ++ added)

IsRerouted-refl : (p : Pod) → IsRerouted p p
IsRerouted-refl p = record {
  name = refl;
  namespace = refl;
  labels = refl;
  annotations = refl;
  containers = refl;
  init_containers = refl;
  pull_secrets = ([], sym (append-nil p.image_pull_secrets));
}

IsRerouted-trans : {p q r : Pod} → IsRerouted p q → IsRerouted q r → IsRerouted p r
IsRerouted-trans h k = record {
  name = k.name ∙ h.name;
  namespace = k.namespace ∙ h.namespace;
  labels = k.labels ∙ h.labels;
  annotations = k.annotations ∙ h.annotations;
  containers = k.containers ∙ h.containers;
  init_containers = k.init_containers ∙ h.init_containers;
  pull_secrets = (
    h.pull_secrets.0 ++ k.pull_secrets.0,
    k.pull_secrets.1
        ∙ ap (λ s. s ++ k.pull_secrets.0) h.pull_secrets.1
        ∙ append_assoc _ h.pull_secrets.0 k.pull_secrets.0,
  );
}

fixed-set_image_at :
    (i : ℕ) (reference : Text) (cs : List PodContainer)
    → map fixed (set_image_at i reference cs) ≡ map fixed cs
unfolding set_image_at
fixed-set_image_at i reference [] = refl
fixed-set_image_at zero reference (c ∷ cs) = refl
fixed-set_image_at (suc i) reference (c ∷ cs) =
    ap (λ t. fixed c ∷ t) (fixed-set_image_at i reference cs)

images-IsRerouted :
    (p : Pod) (cs is : List PodContainer)
    → map fixed cs ≡ map fixed p.containers
    → map fixed is ≡ map fixed p.init_containers
    → IsRerouted p (record p { containers = cs; init_containers = is })
images-IsRerouted p cs is h k = record {
  name = refl;
  namespace = refl;
  labels = refl;
  annotations = refl;
  containers = h;
  init_containers = k;
  pull_secrets = ([], sym (append-nil p.image_pull_secrets));
}

set_image-IsRerouted :
    (c : Container) (reference : Text) (p : Pod) → IsRerouted p (set_image c reference p)
unfolding set_image
set_image-IsRerouted c reference p = elim (Bool-cases c.is_init) [
  | inl q ↦ rw q (
      images-IsRerouted p p.containers (set_image_at c.index reference p.init_containers) refl
        (fixed-set_image_at c.index reference p.init_containers))
  | inr q ↦ rw q (
      images-IsRerouted p (set_image_at c.index reference p.containers) p.init_containers
        (fixed-set_image_at c.index reference p.containers) refl)
]

inject_secret-IsRerouted : (name : Text) (p : Pod) → IsRerouted p (inject_secret name p)
unfolding inject_secret
inject_secret-IsRerouted name p =
    elim (Bool-cases (contains_func p.image_pull_secrets (λ n. text_eq n name))) [
      | inl q ↦ rw q (IsRerouted-refl p)
      | inr q ↦ rw q (record {
        name = refl;
        namespace = refl;
        labels = refl;
        annotations = refl;
        containers = refl;
        init_containers = refl;
        pull_secrets = (name ∷ [], refl);
      })
    ]

module _ {W : Type 0} (libs : Libraries) (cluster : Cluster W) (routing : Routing) where
  reroute-IsRerouted :
      (dry_run : Bool) (c : Container) (best : Option AlternativeImage) (p : Pod)
      → Returns (IsRerouted p) (reroute libs cluster routing dry_run c best p)
  unfolding reroute
  reroute-IsRerouted dry_run c none p = pure-Returns (IsRerouted p) (IsRerouted-refl p)
  reroute-IsRerouted dry_run c (some image) p =
      let q = set_image c image.reference p in
      elim (Bool-cases (text_eq c.normalized_image image.reference)) [
        | inl h ↦ rw h (pure-Returns (IsRerouted p) (IsRerouted-refl p))
        | inr h ↦ rw h (elim (Option-cases image.image_pull_secret) [
          | inl k ↦ rw k (pure-Returns (IsRerouted p) (set_image-IsRerouted c image.reference p))
          | inr (s, k) ↦ rw k (
              then-Returns (IsRerouted p)
                (ensure_secret cluster libs.hash p.namespace s image.secret_owner (not dry_run))
                (λ target. pure (inject_secret target.name q))
                (λ target. pure-Returns (IsRerouted p) (
                  IsRerouted-trans (set_image-IsRerouted c image.reference p)
                    (inject_secret-IsRerouted target.name q))))
        ])
      ]

  module _ (mirrors : List ImageSetMirror) (replicated : List ReplicatedImageSet)
      (pull_secrets : List Secret) (dry_run : Bool) where
    reroute_all-IsRerouted :
        (cs : List Container) (p : Pod)
        → Returns
            (IsRerouted p)
            (reroute_all libs cluster routing mirrors replicated pull_secrets dry_run cs p)
    unfolding reroute_all
    reroute_all-IsRerouted [] p = pure-Returns (IsRerouted p) (IsRerouted-refl p)
    reroute_all-IsRerouted (c ∷ cs) p =
        then-Returns (IsRerouted p)
          (find_best_alternative_cached libs cluster routing mirrors replicated c pull_secrets)
          (λ best.
            reroute libs cluster routing dry_run c best.alternative_image p
            >>= reroute_all libs cluster routing mirrors replicated pull_secrets dry_run cs)
          (λ best.
            >>=-Returns (IsRerouted p) (IsRerouted p)
              (reroute libs cluster routing dry_run c best.alternative_image p)
              (reroute_all libs cluster routing mirrors replicated pull_secrets dry_run cs)
              (reroute-IsRerouted dry_run c best.alternative_image p)
              (λ q h w r e. IsRerouted-trans h (reroute_all-IsRerouted cs q w r e)))

  pub default_eligible-IsRerouted :
      (dry_run : Bool) (cs : List Container) (p : Pod)
      → Returns (IsRerouted p) (default_eligible libs cluster routing dry_run cs p)
  unfolding default_eligible default_containers
  default_eligible-IsRerouted dry_run [] p = pure-Returns (IsRerouted p) (IsRerouted-refl p)
  default_eligible-IsRerouted dry_run (c ∷ cs) p =
      then-Returns (IsRerouted p) (read_inputs libs cluster routing p)
        (λ i. reroute_all libs cluster routing i.0 i.1 i.2 dry_run (c ∷ cs) p)
        (λ i. reroute_all-IsRerouted i.0 i.1 i.2 dry_run (c ∷ cs) p)
