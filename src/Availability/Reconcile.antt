-- ===== src/Availability/Reconcile.antt =====
-- Reconcile of the ClusterImageSetAvailability controller. Events and logs are left out.
use kube_image_keeper.Prelude.{ℕ, ltb, Bool, true, false, List, [], length, if◌then◌else◌}
use kube_image_keeper.Prelude.Int.{ℤ, pos, ltb_ℤ, max_int}
use kube_image_keeper.Errors.{ok, err, is_not_found}
use kube_image_keeper.Effects.{Eff, pure, raise, attempt, ◌>>=◌, ◌>>◌}
use kube_image_keeper.Pods.{Pod}
use kube_image_keeper.Mirroring.Reconcile.{selected_pods}
use kube_image_keeper.Registry.Client.{Remote}
use kube_image_keeper.Availability.Monitored.{
  ClusterImageSetAvailability, availability_pod_matcher, availability_image_filter,
}
use kube_image_keeper.Availability.Sync.{current_images, sync_image_list}
use kube_image_keeper.Availability.Candidates.{monitoring_candidates_by_registry}
use kube_image_keeper.Availability.Check.{Monitor, Settings, clock, check_registries}

-- ctrl.Result
pub record Outcome : Type 0 where
  pub requeue : Bool
  pub requeue_after : ℤ

abbrev pub settled : Outcome
settled = record { requeue = false; requeue_after = pos 0 }

-- The result, where this many images are monitored.
unfoldable pub outcome : ℕ → ℤ → Outcome
outcome count least =
    if ltb_ℤ least max_int
    then record { requeue = false; requeue_after = least }
    else if ltb 0 count
    then record { requeue = true; requeue_after = pos 0 }
    else settled

module _ {W K D : Type 0} (settings : Settings) (remote : Remote W K D) (monitor : Monitor W) where
  -- syncImageList, with the change to the object; a filter that does not compile changes nothing.
  unfoldable pub synced :
      ClusterImageSetAvailability → List Pod → Eff W (ClusterImageSetAvailability × Bool)
  unfolding availability_image_filter sync_image_list current_images
  synced cisa pods = do
    now ← clock settings remote monitor
    elim (availability_image_filter settings.compile settings.parse_selector cisa) [
      | err _ ↦ pure (cisa, false)
      | ok f ↦
          let (images, changed) =
            sync_image_list settings.range_images now cisa.unused_image_expiry f
              (current_images settings.parse_normalized settings.json f pods []) cisa.images in
          pure (record cisa { images = images; image_count = length images }, changed)
    ]

  patch_if_changed :
      ClusterImageSetAvailability → ClusterImageSetAvailability × Bool → Eff W (Unit {0})
  patch_if_changed original (cisa, changed) =
      if changed then monitor.patch_status original cisa else pure tt

  reconcile_matching : ClusterImageSetAvailability → List Pod → Eff W Outcome
  unfolding synced patch_if_changed monitoring_candidates_by_registry check_registries outcome
  reconcile_matching cisa pods = do
    result ← synced cisa pods
    patch_if_changed cisa result
    cisas ← monitor.list_objects
    least ← check_registries settings remote monitor pods cisas max_int (
        settings.range_candidates (
          monitoring_candidates_by_registry settings.parse_normalized settings.compile
            settings.parse_selector 0 cisas []))
    pure (outcome (length result.0.images) least)

  unfoldable pub reconcile : Eff W Outcome
  unfolding availability_pod_matcher selected_pods reconcile_matching
  reconcile = attempt monitor.get_object λ r. elim r [
    | err e ↦ if is_not_found e then pure settled else raise e
    | ok cisa ↦ (do
      pods ← monitor.list_pods
      elim (availability_pod_matcher settings.compile settings.parse_selector cisa) [
        | err _ ↦ pure settled
        | ok matcher ↦
            reconcile_matching cisa (selected_pods settings.global_pod_filter matcher pods)
      ])
  ]
