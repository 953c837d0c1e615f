-- ===== src/Webhook/DryRun.antt =====
-- A dry run of defaultPod writes no secret.
use kube_image_keeper.Prelude.{
  true, false, length, List, [], ◌∷◌, Option, none, some, is_some, Bool-cases, Option-cases, inl,
  inr,
}
use kube_image_keeper.Text.{text_eq}
use kube_image_keeper.Errors.{Result-cases}
use kube_image_keeper.Effects.{pure, lift, ◌>>=◌}
use kube_image_keeper.Effects.Laws.{Preserves, >>=-Preserves}
use kube_image_keeper.Pods.{lookup, Pod}
use kube_image_keeper.Filters.{match_pod}
use kube_image_keeper.Resources.{ImageSetMirror, ReplicatedImageSet}
use kube_image_keeper.Webhook.Alternatives.{Secret, AlternativeImage, Container}
use kube_image_keeper.Webhook.Candidates.{build_alternatives_list}
use kube_image_keeper.Webhook.Admission.{
  mirror_pod_annotation, original_images, collect_all, image_set_mirrors, replicated_image_sets,
}
use kube_image_keeper.Webhook.Rewrite.{
  Cluster, Routing, load_alternatives_secrets, pod_pull_secrets, ensure_secret,
}
use kube_image_keeper.Webhook.Defaulting.{
  set_image, inject_secret, Libraries, check_built, search_best, find_best_alternative_cached,
  reroute, reroute_all, read_mirrors, read_replicated, read_inputs, default_containers,
  default_eligible, default_pod,
}
use kube_image_keeper.Webhook.Preserved.{
  ReadsKeep, load-Preserves, pull_secrets-Preserves, ensure_secret-Preserves,
}

module _ {W : Type 0} (cluster : Cluster W) (I : W → Type 0) (reads : ReadsKeep cluster I) where
  module _ (libs : Libraries) (routing : Routing) where
    check_built-Preserves :
        (c built : Container) (pull_secrets : List Secret) (images : List AlternativeImage)
        → Preserves I (check_built libs cluster routing c built pull_secrets images)
    unfolding check_built
    check_built-Preserves c built pull_secrets images w i =
        reads.set_cached c.normalized_image _ (cluster.run_checks (length images) w).1
          (reads.run_checks (length images) w i)

    module _ (mirrors : List ImageSetMirror) (replicated : List ReplicatedImageSet)
        (pull_secrets : List Secret) where
      search-Preserves :
          (c : Container)
          → Preserves I (search_best libs cluster routing mirrors replicated c pull_secrets)
      unfolding search_best
      search-Preserves c =
          >>=-Preserves I
            (lift (
              build_alternatives_list libs.parse_normalized libs.compile libs.parse_selector mirrors
                replicated routing.honor_priorities_on_always_image_pull_policy c))
            (λ built.
              load_alternatives_secrets cluster built.images
              >>= check_built libs cluster routing c built pull_secrets)
            (λ w i. i)
            (λ built.
              >>=-Preserves I (load_alternatives_secrets cluster built.images)
                (check_built libs cluster routing c built pull_secrets)
                (load-Preserves cluster I reads built.images)
                (check_built-Preserves c built pull_secrets))

      cached-Preserves :
          (c : Container)
          → Preserves I
              (find_best_alternative_cached libs cluster routing mirrors replicated c pull_secrets)
      unfolding find_best_alternative_cached
      cached-Preserves c w i = elim (Option-cases (cluster.get_cached c.normalized_image w).0) [
        | inl q ↦
            rw (q, find_best_alternative_cached)
              (search-Preserves c (cluster.get_cached c.normalized_image w).1
                (reads.get_cached c.normalized_image w i))
        | inr (b, q) ↦
            rw (q, find_best_alternative_cached) (reads.get_cached c.normalized_image w i)
      ]

    reroute-Preserves :
        (c : Container) (best : Option AlternativeImage) (p : Pod)
        → Preserves I (reroute libs cluster routing true c best p)
    unfolding reroute
    reroute-Preserves c none p w i = i
    reroute-Preserves c (some image) p w i =
        elim (Bool-cases (text_eq c.normalized_image image.reference)) [
          | inl h ↦ rw h i
          | inr h ↦ rw h (elim (Option-cases image.image_pull_secret) [
            | inl k ↦ rw k i
            | inr (s, k) ↦ rw k (
                >>=-Preserves I
                  (ensure_secret cluster libs.hash p.namespace s image.secret_owner false)
                  (λ target. pure (inject_secret target.name (set_image c image.reference p)))
                  (ensure_secret-Preserves cluster I reads libs.hash p.namespace s
                    image.secret_owner)
                  (λ target w i. i) w i)
          ])
        ]

    module _ (mirrors : List ImageSetMirror) (replicated : List ReplicatedImageSet)
        (pull_secrets : List Secret) where
      reroute_all-Preserves :
          (cs : List Container) (p : Pod)
          → Preserves I (reroute_all libs cluster routing mirrors replicated pull_secrets true cs p)
      unfolding reroute_all
      reroute_all-Preserves [] p = λ w i. i
      reroute_all-Preserves (c ∷ cs) p =
          >>=-Preserves I
            (find_best_alternative_cached libs cluster routing mirrors replicated c pull_secrets)
            (λ best.
              reroute libs cluster routing true c best.alternative_image p
              >>= reroute_all libs cluster routing mirrors replicated pull_secrets true cs)
            (cached-Preserves mirrors replicated pull_secrets c)
            (λ best.
              >>=-Preserves I (reroute libs cluster routing true c best.alternative_image p)
                (reroute_all libs cluster routing mirrors replicated pull_secrets true cs)
                (reroute-Preserves c best.alternative_image p) (reroute_all-Preserves cs))

    read_mirrors-Preserves : (p : Pod) → Preserves I (read_mirrors libs cluster routing p)
    unfolding read_mirrors
    read_mirrors-Preserves p =
        >>=-Preserves I cluster.list_cluster_image_set_mirrors
          (λ cisms. cluster.list_image_set_mirrors p.namespace >>= λ isms.
            pure (image_set_mirrors libs.compile libs.parse_selector p cisms isms))
          reads.list_cisms
          (λ cisms.
            >>=-Preserves I (cluster.list_image_set_mirrors p.namespace)
              (λ isms. pure (image_set_mirrors libs.compile libs.parse_selector p cisms isms))
              (reads.list_isms p.namespace) (λ isms w i. i))

    read_replicated-Preserves : (p : Pod) → Preserves I (read_replicated libs cluster routing p)
    unfolding read_replicated
    read_replicated-Preserves p =
        >>=-Preserves I cluster.list_cluster_replicated_image_sets
          (λ criss. cluster.list_replicated_image_sets p.namespace >>= λ riss.
            pure (replicated_image_sets libs.compile libs.parse_selector p criss riss))
          reads.list_criss
          (λ criss.
            >>=-Preserves I (cluster.list_replicated_image_sets p.namespace)
              (λ riss. pure (replicated_image_sets libs.compile libs.parse_selector p criss riss))
              (reads.list_riss p.namespace) (λ riss w i. i))

    read_inputs-Preserves : (p : Pod) → Preserves I (read_inputs libs cluster routing p)
    unfolding read_inputs
    read_inputs-Preserves p =
        >>=-Preserves I (read_mirrors libs cluster routing p)
          (λ mirrors. read_replicated libs cluster routing p >>= λ replicated.
            pod_pull_secrets cluster p.namespace p.image_pull_secrets >>= λ secrets.
            pure (mirrors, replicated, secrets))
          (read_mirrors-Preserves p)
          (λ mirrors.
            >>=-Preserves I (read_replicated libs cluster routing p)
              (λ replicated.
                pod_pull_secrets cluster p.namespace p.image_pull_secrets >>= λ secrets.
                pure (mirrors, replicated, secrets))
              (read_replicated-Preserves p)
              (λ replicated.
                >>=-Preserves I (pod_pull_secrets cluster p.namespace p.image_pull_secrets)
                  (λ secrets. pure (mirrors, replicated, secrets))
                  (pull_secrets-Preserves cluster I reads p.namespace p.image_pull_secrets)
                  (λ secrets w i. i)))

    eligible-Preserves :
        (cs : List Container) (p : Pod)
        → Preserves I (default_eligible libs cluster routing true cs p)
    unfolding default_eligible default_containers
    eligible-Preserves [] p = λ w i. i
    eligible-Preserves (c ∷ cs) p =
        >>=-Preserves I (read_inputs libs cluster routing p)
          (λ x. reroute_all libs cluster routing x.0 x.1 x.2 true (c ∷ cs) p)
          (read_inputs-Preserves p) (λ x. reroute_all-Preserves x.0 x.1 x.2 (c ∷ cs) p)

    -- A dry run writes no secret: what every call of the cluster but create_or_update_secret keeps of the
    -- world, the admission of a pod in a dry run keeps. The other calls may write: the checks of images and
    -- the cache of their results run as they do in any admission.
    pub default_pod-dry_run : (p : Pod) → Preserves I (default_pod libs cluster routing p true)
    unfolding default_pod
    default_pod-dry_run p w i =
        elim (Bool-cases (is_some (lookup mirror_pod_annotation p.annotations))) [
          | inl h ↦ rw h i
          | inr h ↦ elim (Bool-cases (match_pod routing.global_pod_filter p)) [
            | inr k ↦ rw (h, k) i
            | inl k ↦
                rw (h, k)
                  (elim (Result-cases (collect_all p (original_images libs.json p))) [
                    | inr (x, l) ↦ rw l i
                    | inl (x, l) ↦ rw l (eligible-Preserves _ _ w i)
                  ])
          ]
        ]
