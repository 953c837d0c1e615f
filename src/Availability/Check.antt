-- ===== src/Availability/Check.antt =====
-- The checks of the monitored images: resolveCredentials, performCheck, checkNextForRegistry, Reconcile.
use kube_image_keeper.Prelude.{
  ℕ, zero, suc, Bool, true, false, ◌&&◌, List, [], ◌∷◌, ◌++◌, Option, none, some, get_elem?,
  contains_func, if◌then◌else◌,
}
use kube_image_keeper.Prelude.Int.{ℤ, pos, ltb_ℤ}
use kube_image_keeper.Text.{Text, codes, text_eq}
use kube_image_keeper.Errors.{Error, Result, ok, err, wrap, error_text, join_errors}
use kube_image_keeper.Effects.{Eff, pure, raise, lift, attempt, ◌>>=◌, ◌>>◌}
use kube_image_keeper.Pods.{StringMap, keys, Pod}
use kube_image_keeper.Filters.{Regexp, Selector, PodFilter}
use kube_image_keeper.Resources.{Time, CredentialSecret}
use kube_image_keeper.References.{Named}
use kube_image_keeper.Webhook.Alternatives.{Secret}
use kube_image_keeper.Webhook.Admission.{Json}
use kube_image_keeper.Mirroring.Names.{normalized_image_names_map_from_annotated_pod}
use kube_image_keeper.Mirroring.Clock.{delete_after}
use kube_image_keeper.Registry.Client.{Remote}
use kube_image_keeper.Registry.Probe.{
  ImageAvailabilityStatus, unavailable_secret, invalid_auth, check_image_availability,
}
use kube_image_keeper.Availability.Monitored.{
  MonitoredImage, ClusterImageSetAvailability, RegistryMonitoring, Registries,
  resolve_digest_enabled, registry_config, quotient,
}
use kube_image_keeper.Availability.Candidates.{MonitoringCandidate}

-- The API server and the clock, as this reconciler calls them.
pub record Monitor (W : Type 0) : Type 0 where
  pub get_secret : Text → Text → Eff W Secret
  pub now : W → Time × W
  pub get_object : Eff W ClusterImageSetAvailability
  pub list_objects : Eff W (List ClusterImageSetAvailability)
  pub list_pods : Eff W (List Pod)
  pub patch_status : ClusterImageSetAvailability → ClusterImageSetAvailability → Eff W (Unit {0})

pub record Settings : Type 0 where
  pub parse_normalized : Text → Result Named
  pub compile : Text → Result Regexp
  pub parse_selector : Text → Result Selector
  pub json : Json
  pub range_images : List (Text × Bool) → List (Text × Bool)
  pub range_candidates : StringMap MonitoringCandidate → StringMap MonitoringCandidate
  pub global_pod_filter : PodFilter
  pub registries : Registries

abbrev pub set_verdict : MonitoredImage → ImageAvailabilityStatus → Option Error → MonitoredImage
set_verdict image result e = record image {
  status = result;
  last_error = elim e [ none ↦ [] | some x ↦ error_text x ];
}

-- InvalidAuth, given the status that there was: UnavailableSecret takes precedence.
unfoldable pub settle_invalid :
    MonitoredImage → ImageAvailabilityStatus → Option Error → MonitoredImage
settle_invalid image unavailable_secret e = image
settle_invalid image _ e = set_verdict image invalid_auth e

-- The status and the error of an image after a check.
unfoldable pub settle : MonitoredImage → ImageAvailabilityStatus × Option Error → MonitoredImage
unfolding settle_invalid
settle image (invalid_auth, e) = settle_invalid image image.status e
settle image (result, e) = set_verdict image result e

-- The image after its credentials could not be read.
unfoldable pub without_secret : MonitoredImage → Error → MonitoredImage
without_secret image e = record image { status = unavailable_secret; last_error = error_text e }

-- findMonitoredImage: the first entry with the name
unfoldable pub find_monitored_image : List MonitoredImage → Text → Option MonitoredImage
unfolding text_eq
find_monitored_image [] name = none
find_monitored_image (i ∷ is) name =
    if text_eq i.image name then some i else find_monitored_image is name

-- The write through the pointer that findMonitoredImage returns.
unfoldable pub write_monitored_image :
    Text → MonitoredImage → List MonitoredImage → List MonitoredImage
unfolding text_eq
write_monitored_image name new [] = []
write_monitored_image name new (i ∷ is) =
    if text_eq i.image name then new ∷ is else i ∷ write_monitored_image name new is

set_at : {A : Type 0} → ℕ → A → List A → List A
set_at i a [] = []
set_at zero a (x ∷ xs) = a ∷ xs
set_at (suc i) a (x ∷ xs) = x ∷ set_at i a xs

module _ {W K D : Type 0} (settings : Settings) (remote : Remote W K D) (monitor : Monitor W) where
  abbrev pub clock : Eff W Time
  clock w = let (t, w') = monitor.now w in (ok t, w')

  -- internal.GetPullSecretsFromPod
  unfoldable pub get_pull_secrets_from_pod : Text → List Text → Eff W (List Secret)
  get_pull_secrets_from_pod namespace [] = pure []
  get_pull_secrets_from_pod namespace (name ∷ names) = do
    secret ← monitor.get_secret namespace name
    rest ← get_pull_secrets_from_pod namespace names
    pure (secret ∷ rest)

  -- The credentials where no pod gave them.
  unfoldable pub fallback_credentials : Option CredentialSecret → List Error → Eff W (List Secret)
  unfolding join_errors
  fallback_credentials none errs = elim (join_errors errs) [
    | none ↦ pure []
    | some e ↦ raise (wrap (codes "unavailable secret") e)
  ]
  fallback_credentials (some s) errs = attempt (monitor.get_secret s.namespace s.name) λ r. elim r [
    | ok secret ↦ pure (secret ∷ [])
    | err e ↦ raise (
        wrap
          (codes "fallback credential secret "
            ++ s.namespace
            ++ b'/' ∷ s.name
            ++ codes " not found")
          e)
  ]

  abbrev pub uses_image : Text → Pod → Bool
  uses_image full_ref pod =
      contains_func
        (keys (
          normalized_image_names_map_from_annotated_pod settings.parse_normalized settings.json
            pod))
        (λ n. text_eq n full_ref)

  has_pull_secrets : Pod → Bool
  has_pull_secrets pod = elim pod.image_pull_secrets [ [] ↦ false | _ ∷ _ ↦ true ]

  -- resolveCredentials: the loop over the pods, with the errors so far
  unfoldable pub resolve_credentials :
      Text → Option CredentialSecret → List Error → List Pod → Eff W (List Secret)
  unfolding fallback_credentials get_pull_secrets_from_pod has_pull_secrets
      normalized_image_names_map_from_annotated_pod keys text_eq
  resolve_credentials full_ref fallback errs [] = fallback_credentials fallback errs
  resolve_credentials full_ref fallback errs (pod ∷ pods) =
      if has_pull_secrets pod && uses_image full_ref pod
      then attempt (get_pull_secrets_from_pod pod.namespace pod.image_pull_secrets) (λ r. elim r [
        | ok secrets ↦ pure secrets
        | err e ↦ resolve_credentials full_ref fallback (errs ++ e ∷ []) pods
      ])
      else resolve_credentials full_ref fallback errs pods

  unfoldable pub check_with :
      RegistryMonitoring → Time → MonitoredImage → List Secret → W → MonitoredImage × W
  unfolding check_image_availability settle
  check_with config now image pull_secrets w =
      let (verdict, w') =
        check_image_availability remote config.method image.image pull_secrets
          (resolve_digest_enabled config) w in
      (settle (record image { last_monitor = some now }) verdict, w')

  -- The check, with the credentials or with the error of their read.
  unfoldable pub check_resolved :
      RegistryMonitoring → Time → MonitoredImage → Result (List Secret) × W → MonitoredImage × W
  unfolding check_with without_secret
  check_resolved config now image (ok secrets, w) = check_with config now image secrets w
  check_resolved config now image (err e, w) = check_with config now (without_secret image e) [] w

  -- performCheck
  unfoldable pub perform_check :
      RegistryMonitoring → List Pod → MonitoredImage → W → MonitoredImage × W
  unfolding resolve_credentials check_resolved
  perform_check config pods image w =
      let (now, w') = monitor.now w in
      check_resolved config now image
        (resolve_credentials image.image config.fallback_credential_secret [] pods w')

  -- The check of the candidate's image, and the write of its object.
  check_image :
      RegistryMonitoring
      → List Pod
      → ℕ
      → List ClusterImageSetAvailability
      → ClusterImageSetAvailability
      → MonitoredImage
      → Eff W (List ClusterImageSetAvailability)
  unfolding perform_check write_monitored_image set_at
  check_image config pods index cisas cisa image = do
    checked ← λ w. let (i, w') = perform_check config pods image w in (ok i, w')
    let written : ClusterImageSetAvailability = record cisa {
      images = write_monitored_image image.image checked cisa.images;
    }
    monitor.patch_status cisa written
    pure (set_at index written cisas)

  -- The candidate's image, in the object that its pointer leads to.
  candidate_image :
      List ClusterImageSetAvailability
      → MonitoringCandidate
      → Option (ClusterImageSetAvailability × MonitoredImage)
  unfolding find_monitored_image
  candidate_image cisas candidate = elim (get_elem? cisas candidate.cisa) [
    | none ↦ none
    | some cisa ↦ elim (find_monitored_image cisa.images candidate.image_name) [
      | none ↦ none
      | some image ↦ some (cisa, image)
    ]
  ]

  -- checkNextForRegistry: the time to wait, and the objects after it
  unfoldable pub check_next_for_registry :
      List Pod
      → List ClusterImageSetAvailability
      → Text
      → MonitoringCandidate
      → Eff W (ℤ × List ClusterImageSetAvailability)
  unfolding registry_config quotient delete_after check_image candidate_image
  check_next_for_registry pods cisas registry candidate = do
    let config = registry_config settings.registries registry
    tick_duration ← lift (quotient config.interval config.max_per_interval)
    now ← clock
    let time_until_due = delete_after tick_duration now candidate.registry_last_monitor
    (if ltb_ℤ (pos 0) time_until_due
        then pure (time_until_due, cisas)
        else (elim (candidate_image cisas candidate) [
          | none ↦ pure (pos 0, cisas)
          | some (cisa, image) ↦ (do
            cisas' ← check_image config pods candidate.cisa cisas cisa image
            pure (tick_duration, cisas'))
        ]))

  abbrev pub sooner_of : ℤ → ℤ → ℤ
  sooner_of least wait =
      if ltb_ℤ (pos 0) wait then (if ltb_ℤ wait least then wait else least) else least

  -- The loop over the candidates: minRequeueAfter.
  unfoldable pub check_registries :
      List Pod → List ClusterImageSetAvailability → ℤ → StringMap MonitoringCandidate → Eff W ℤ
  unfolding check_next_for_registry
  check_registries pods cisas least [] = pure least
  check_registries pods cisas least ((registry, candidate) ∷ candidates) = do
    (wait, cisas') ← check_next_for_registry pods cisas registry candidate
    check_registries pods cisas' (sooner_of least wait) candidates
