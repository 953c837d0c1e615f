-- ===== src/Webhook/Defaulting.antt =====
-- findBestAlternativeCached and defaultPod.
use kube_image_keeper.Prelude.{
  ℕ, zero, suc, Bool, not, List, [], ◌∷◌, ◌++◌, Option, none, some, length, contains_func, is_some,
  if◌then◌else◌,
}
use kube_image_keeper.Text.{Text, codes, text_eq}
use kube_image_keeper.Errors.{Result, ok, message}
use kube_image_keeper.Effects.{Eff, pure, raise, lift, ◌>>=◌}
use kube_image_keeper.Pods.{StringMap, lookup, insert, Container as PodContainer, Pod}
use kube_image_keeper.Filters.{Regexp, Selector, match_pod}
use kube_image_keeper.Resources.{ImageSetMirror, ReplicatedImageSet}
use kube_image_keeper.References.{Named}
use kube_image_keeper.Webhook.Alternatives.{Secret, AlternativeImage, Container}
use kube_image_keeper.Webhook.Candidates.{build_alternatives_list}
use kube_image_keeper.Webhook.Best.{find_best_alternative}
use kube_image_keeper.Webhook.Admission.{
  mirror_pod_annotation, original_images_annotation, Json, original_images, collect_all, eligible,
  image_set_mirrors, replicated_image_sets,
}
use kube_image_keeper.Webhook.Rewrite.{
  Cluster, Routing, CachedAlternativeImage, load_alternatives_secrets, pod_pull_secrets,
  ensure_secret,
}

-- container.Image = reference, through the pointer
unfoldable pub set_image_at : ℕ → Text → List PodContainer → List PodContainer
set_image_at i reference [] = []
set_image_at zero reference (c ∷ cs) = record c { image = reference } ∷ cs
set_image_at (suc i) reference (c ∷ cs) = c ∷ set_image_at i reference cs

unfoldable pub set_image : Container → Text → Pod → Pod
unfolding set_image_at
set_image c reference pod =
    if c.is_init
    then record pod { init_containers = set_image_at c.index reference pod.init_containers }
    else record pod { containers = set_image_at c.index reference pod.containers }

-- The name of a pull secret, if it is not there yet.
unfoldable pub inject_secret : Text → Pod → Pod
unfolding text_eq
inject_secret name pod =
    if contains_func pod.image_pull_secrets (λ n. text_eq n name)
    then pod
    else record pod { image_pull_secrets = pod.image_pull_secrets ++ name ∷ [] }

-- What the program takes from the libraries.
pub record Libraries : Type 0 where
  pub parse_normalized : Text → Result Named
  pub compile : Text → Result Regexp
  pub parse_selector : Text → Result Selector
  pub json : Json
  pub hash : Text → Text

module _ {W : Type 0} (libs : Libraries) (cluster : Cluster W) (routing : Routing) where
  -- The checks of the images, and the write of what they found to the cache.
  unfoldable pub check_built :
      Container → Container → List Secret → List AlternativeImage → Eff W CachedAlternativeImage
  unfolding find_best_alternative
  check_built container built pull_secrets images w =
      let (checks, w') = cluster.run_checks (length images) w in
      let found =
        find_best_alternative checks.check checks.schedule (record built { images = images })
          pull_secrets in
      let result : CachedAlternativeImage = record {
        alternative_image = found.0;
        alternatives_count = length built.alternatives;
      } in
      (ok result, cluster.set_cached container.normalized_image result w')

  -- The search that a cache miss starts.
  unfoldable pub search_best :
      List ImageSetMirror
      → List ReplicatedImageSet
      → Container
      → List Secret
      → Eff W CachedAlternativeImage
  unfolding build_alternatives_list load_alternatives_secrets check_built
  search_best mirrors replicated container pull_secrets = do
    built ← lift (
        build_alternatives_list libs.parse_normalized libs.compile libs.parse_selector mirrors
          replicated routing.honor_priorities_on_always_image_pull_policy container)
    images ← load_alternatives_secrets cluster built.images
    check_built container built pull_secrets images

  unfoldable pub find_best_alternative_cached :
      List ImageSetMirror
      → List ReplicatedImageSet
      → Container
      → List Secret
      → Eff W CachedAlternativeImage
  unfolding search_best
  find_best_alternative_cached mirrors replicated container pull_secrets w =
      let (cached, w') = cluster.get_cached container.normalized_image w in
      elim cached [
        | some c ↦ (ok c, w')
        | none ↦ search_best mirrors replicated container pull_secrets w'
      ]

  -- The change to the pod for one container, given the image that was found.
  unfoldable pub reroute : Bool → Container → Option AlternativeImage → Pod → Eff W Pod
  unfolding set_image inject_secret ensure_secret text_eq
  reroute dry_run container none pod = pure pod
  reroute dry_run container (some image) pod =
      if text_eq container.normalized_image image.reference
      then pure pod
      else (let rerouted = set_image container image.reference pod in
          elim image.image_pull_secret [
            | none ↦ pure rerouted
            | some secret ↦ (do
              target ←
                  ensure_secret cluster libs.hash pod.namespace secret image.secret_owner
                    (not dry_run)
              pure (inject_secret target.name rerouted))
          ])

  -- The loop over the containers.
  unfoldable pub reroute_all :
      List ImageSetMirror
      → List ReplicatedImageSet
      → List Secret
      → Bool
      → List Container
      → Pod
      → Eff W Pod
  unfolding find_best_alternative_cached reroute
  reroute_all mirrors replicated pull_secrets dry_run [] pod = pure pod
  reroute_all mirrors replicated pull_secrets dry_run (c ∷ cs) pod = do
    best ← find_best_alternative_cached mirrors replicated c pull_secrets
    pod' ← reroute dry_run c best.alternative_image pod
    reroute_all mirrors replicated pull_secrets dry_run cs pod'

  unfoldable pub read_mirrors : Pod → Eff W (List ImageSetMirror)
  unfolding image_set_mirrors
  read_mirrors pod = do
    cism_list ← cluster.list_cluster_image_set_mirrors
    ism_list ← cluster.list_image_set_mirrors pod.namespace
    pure (image_set_mirrors libs.compile libs.parse_selector pod cism_list ism_list)

  unfoldable pub read_replicated : Pod → Eff W (List ReplicatedImageSet)
  unfolding replicated_image_sets
  read_replicated pod = do
    cris_list ← cluster.list_cluster_replicated_image_sets
    ris_list ← cluster.list_replicated_image_sets pod.namespace
    pure (replicated_image_sets libs.compile libs.parse_selector pod cris_list ris_list)

  -- The resources that apply to the pod, and its pull secrets.
  unfoldable pub read_inputs :
      Pod → Eff W (List ImageSetMirror × List ReplicatedImageSet × List Secret)
  unfolding read_mirrors read_replicated pod_pull_secrets
  read_inputs pod = do
    mirrors ← read_mirrors pod
    replicated ← read_replicated pod
    pull_secrets ← pod_pull_secrets cluster pod.namespace pod.image_pull_secrets
    pure (mirrors, replicated, pull_secrets)

  -- The part of defaultPod that follows the choice of the containers.
  unfoldable pub default_containers : Bool → List Container → Pod → Eff W Pod
  unfolding read_inputs reroute_all
  default_containers dry_run containers pod = do
    inputs ← read_inputs pod
    reroute_all inputs.0 inputs.1 inputs.2 dry_run containers pod

  -- The pod with the annotation of its original images.
  abbrev pub annotated : Option (StringMap Text) → Pod → Pod
  annotated originals pod = record pod {
    annotations = insert original_images_annotation (libs.json.marshal originals) pod.annotations;
  }

  -- An empty list of containers ends the function.
  unfoldable pub default_eligible : Bool → List Container → Pod → Eff W Pod
  unfolding default_containers
  default_eligible dry_run [] pod = pure pod
  default_eligible dry_run (c ∷ cs) pod = default_containers dry_run (c ∷ cs) pod

  unfoldable pub default_pod : Pod → Bool → Eff W Pod
  unfolding lookup match_pod original_images collect_all eligible default_eligible
  default_pod pod dry_run =
      if is_some (lookup mirror_pod_annotation pod.annotations)
      then pure pod
      else if not (match_pod routing.global_pod_filter pod)
      then pure pod
      else (do
        (containers, originals) ← lift (collect_all pod (original_images libs.json pod))
        default_eligible dry_run
            (eligible libs.parse_normalized routing.rewrite_on_never_image_pull_policy containers)
            (annotated originals pod))

  -- Default; a request without the field dryRun panics.
  unfoldable pub default : Option Bool → Pod → Eff W Pod
  unfolding default_pod
  default none pod =
      raise (message (codes "panic: invalid memory address or nil pointer dereference"))
  default (some dry_run) pod = default_pod pod dry_run
