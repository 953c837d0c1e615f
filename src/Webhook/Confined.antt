-- ===== src/Webhook/Confined.antt =====
-- What defaultPod does to a pod as a whole, and to a pod that it has already been at.
use mathlib.Core.List.{append-nil}
use kube_image_keeper.Prelude.{
  ◌≡◌, refl, sym, ap, ◌∙◌, ◌⊎◌, inl, inr, Bool, true, false, List, [], ◌++◌, map, Option, is_some,
  Bool-cases, subst,
}
use kube_image_keeper.Text.{Text, text_eq}
use kube_image_keeper.Errors.{ok, Result-cases, ok-injective}
use kube_image_keeper.Effects.Laws.{Returns}
use kube_image_keeper.Pods.{StringMap, lookup, insert, Pod}
use kube_image_keeper.Pods.Laws.{lookup-insert_same, lookup-insert_other, insert-insert_same}
use kube_image_keeper.Filters.{match_pod}
use kube_image_keeper.Webhook.Alternatives.{Container}
use kube_image_keeper.Webhook.Admission.{
  mirror_pod_annotation, original_images_annotation, read_annotation, original_images, collect_all,
  eligible,
}
use kube_image_keeper.Webhook.Rewrite.{Cluster, Routing}
use kube_image_keeper.Webhook.Defaulting.{Libraries, default_eligible, annotated, default_pod}
use kube_image_keeper.Webhook.Collected.{no_containers, collect_again}
use kube_image_keeper.Webhook.Frame.{fixed, IsRerouted, default_eligible-IsRerouted}

-- The later pod differs from the earlier one in the images of its containers, in further pull secrets
-- behind those that it had, in the annotation of its original images, and nowhere else.
pub record IsConfined (p q : Pod) : Type 0 where
  pub name : q.name ≡ p.name
  pub namespace : q.namespace ≡ p.namespace
  pub labels : q.labels ≡ p.labels
  pub annotations :
      (k : Text)
      → text_eq original_images_annotation k ≡ false
      → lookup k q.annotations ≡ lookup k p.annotations
  pub containers : map fixed q.containers ≡ map fixed p.containers
  pub init_containers : map fixed q.init_containers ≡ map fixed p.init_containers
  pub pull_secrets : (added : List Text) × (q.image_pull_secrets ≡ p.image_pull_secrets ++ added)

IsConfined-refl : (p : Pod) → IsConfined p p
IsConfined-refl p = record {
  name = refl;
  namespace = refl;
  labels = refl;
  annotations = λ k h. refl;
  containers = refl;
  init_containers = refl;
  pull_secrets = ([], sym (append-nil p.image_pull_secrets));
}

module _ {W : Type 0} (libs : Libraries) (cluster : Cluster W) (routing : Routing) where
  -- The pod is admitted as it is, and nothing is done.
  abbrev pub IsSkipped : Pod → Type 0
  IsSkipped p = (dry_run : Bool) (w : W) → default_pod libs cluster routing p dry_run w ≡ (ok p, w)

  mirror_pod-IsSkipped :
      (p : Pod) → is_some (lookup mirror_pod_annotation p.annotations) ≡ true → IsSkipped p
  unfolding default_pod
  mirror_pod-IsSkipped p h dry_run w = rw h refl

  other_pod-IsSkipped :
      (p : Pod)
      → is_some (lookup mirror_pod_annotation p.annotations) ≡ false
      → match_pod routing.global_pod_filter p ≡ false
      → IsSkipped p
  unfolding default_pod
  other_pod-IsSkipped p h k dry_run w = rw (h, k) refl

  -- The pod is as it was, or its containers were collected and it was rerouted.
  abbrev pub IsProcessed : Pod → Pod → Type 0
  IsProcessed p q =
      ((q ≡ p) × IsSkipped p)
      ⊎ ((cs : List Container) × (originals : Option (StringMap Text)) × (collect_all p
              (original_images libs.json p)
            ≡ ok (cs, originals))
          × IsRerouted (annotated libs cluster routing originals p) q)

  collected-IsRerouted :
      (p : Pod) (dry_run : Bool) (w : W) (q : Pod)
      → is_some (lookup mirror_pod_annotation p.annotations) ≡ false
      → match_pod routing.global_pod_filter p ≡ true
      → (default_pod libs cluster routing p dry_run w).0 ≡ ok q
      → (cs : List Container) × (originals : Option (StringMap Text)) × (collect_all p
            (original_images libs.json p)
          ≡ ok (cs, originals))
        × IsRerouted (annotated libs cluster routing originals p) q
  unfolding default_pod
  collected-IsRerouted p dry_run w q h k =
      rw (h, k)
        (elim (Result-cases (collect_all p (original_images libs.json p))) [
          | inr (x, l) ↦ rw l (λ e. cc)
          | inl ((cs, originals), l) ↦ rw l (λ e. (
            cs,
            originals,
            refl,
            default_eligible-IsRerouted libs cluster routing dry_run _ _ w q e,
          ))
        ])

  skipped-same :
      (p : Pod) (dry_run : Bool) (w : W) (q : Pod)
      → IsSkipped p
      → (default_pod libs cluster routing p dry_run w).0 ≡ ok q
      → q ≡ p
  skipped-same p dry_run w q s e = sym (ok-injective (ap (λ x. x.0) (sym (s dry_run w)) ∙ e))

  pub default_pod-IsProcessed :
      (p : Pod) (dry_run : Bool)
      → Returns (IsProcessed p) (default_pod libs cluster routing p dry_run)
  default_pod-IsProcessed p dry_run w q e =
      elim (Bool-cases (is_some (lookup mirror_pod_annotation p.annotations))) [
        | inl h ↦ let s = mirror_pod-IsSkipped p h in inl (skipped-same p dry_run w q s e, s)
        | inr h ↦ elim (Bool-cases (match_pod routing.global_pod_filter p)) [
          | inr k ↦ let s = other_pod-IsSkipped p h k in inl (skipped-same p dry_run w q s e, s)
          | inl k ↦ inr (collected-IsRerouted p dry_run w q h k e)
        ]
      ]

  processed-IsConfined : (p q : Pod) → IsProcessed p q → IsConfined p q
  processed-IsConfined p q (inl (e, skipped)) =
      subst (λ r. IsConfined p r) (sym e) (IsConfined-refl p)
  processed-IsConfined p q (inr (cs, originals, e, h)) = record {
    name = h.name;
    namespace = h.namespace;
    labels = h.labels;
    annotations = λ k other.
        ap (lookup k) h.annotations
        ∙ lookup-insert_other original_images_annotation k (libs.json.marshal originals)
            p.annotations other;
    containers = h.containers;
    init_containers = h.init_containers;
    pull_secrets = h.pull_secrets;
  }

  -- A pod that is admitted without an error differs from the pod that was sent in the images of its
  -- containers, in pull secrets added behind its own, and in the annotation of its original images;
  -- its names, labels, other annotations, and the names and pull policies of its containers are kept.
  pub default_pod-IsConfined :
      (p : Pod) (dry_run : Bool) (w : W) (q : Pod)
      → (default_pod libs cluster routing p dry_run w).0 ≡ ok q
      → IsConfined p q
  default_pod-IsConfined p dry_run w q e =
      processed-IsConfined p q (default_pod-IsProcessed p dry_run w q e)

  -- The annotation of a pod that was rerouted is read back.
  pub original_images-again :
      ((o : Option (StringMap Text)) → libs.json.unmarshal (libs.json.marshal o) ≡ o)
      → (p q : Pod) (originals : Option (StringMap Text))
      → IsRerouted (annotated libs cluster routing originals p) q
      → original_images libs.json q ≡ originals
  unfolding original_images read_annotation
  original_images-again round_trip p q originals r =
      ap (read_annotation libs.json) (
        ap (lookup original_images_annotation) r.annotations
        ∙ lookup-insert_same original_images_annotation (libs.json.marshal originals) p.annotations)
      ∙ round_trip originals

  annotated-again :
      (p q : Pod) (originals : Option (StringMap Text))
      → IsRerouted (annotated libs cluster routing originals p) q
      → annotated libs cluster routing originals q ≡ q
  annotated-again p q originals r =
      let k = original_images_annotation in
      let v = libs.json.marshal originals in
      ap (λ a. record q { annotations = a })
        (ap (insert k v) r.annotations ∙ insert-insert_same k v p.annotations ∙ sym r.annotations)

  processed-again :
      ((o : Option (StringMap Text)) → libs.json.unmarshal (libs.json.marshal o) ≡ o)
      → (p q : Pod) (cs : List Container) (originals : Option (StringMap Text))
      → p.init_containers ≡ []
      → collect_all p (original_images libs.json p) ≡ ok (cs, originals)
      → IsRerouted (annotated libs cluster routing originals p) q
      → IsSkipped q
  unfolding default_pod default_eligible eligible
  processed-again round_trip p q cs originals no_init h r dry_run v =
      let collected =
        collect_again p q (original_images libs.json p) originals cs r.containers
          (no_containers q.init_containers (r.init_containers ∙ ap (map fixed) no_init)) h in
      elim (Bool-cases (is_some (lookup mirror_pod_annotation q.annotations))) [
        | inl k ↦ mirror_pod-IsSkipped q k dry_run v
        | inr k ↦ elim (Bool-cases (match_pod routing.global_pod_filter q)) [
          | inr l ↦ other_pod-IsSkipped q k l dry_run v
          | inl l ↦
              rw
                (
                  k,
                  l,
                  original_images-again round_trip p q originals r,
                  collected,
                  annotated-again p q originals r,
                )
                refl
        ]
      ]

  -- Where what json writes is read back: a pod that is admitted and has no init containers is admitted
  -- again as it is, and nothing is done.
  pub default_pod-again :
      ((o : Option (StringMap Text)) → libs.json.unmarshal (libs.json.marshal o) ≡ o)
      → (p : Pod) (dry_run : Bool) (w : W) (q : Pod) → p.init_containers ≡ []
      → (default_pod libs cluster routing p dry_run w).0 ≡ ok q
      → IsSkipped q
  default_pod-again round_trip p dry_run w q no_init e =
      elim (default_pod-IsProcessed p dry_run w q e) [
        | inl (same, skipped) ↦ subst (λ r. IsSkipped r) (sym same) skipped
        | inr (cs, originals, h, r) ↦ processed-again round_trip p q cs originals no_init h r
      ]
