-- ===== src/Availability/Pacing.antt =====
-- When the next image of a registry is not checked yet.
use kube_image_keeper.Prelude.{
  ◌≡◌, refl, ◌+◌, ◌^◌, ◌≤◌, ◌<◌, ℕ, true, List, [], some, Any, All-at, subst, arith,
}
use kube_image_keeper.Prelude.Int.{ℤ, pos, ltb_ℤ, sub_int, ◌-ℤ◌}
use kube_image_keeper.Text.{Text}
use kube_image_keeper.Errors.{Result, ok}
use kube_image_keeper.Pods.{lookup, Pod}
use kube_image_keeper.Resources.{Time}
use kube_image_keeper.Mirroring.Clock.{saturate, since, delete_after}
use kube_image_keeper.Registry.Client.{Remote}
use kube_image_keeper.Availability.Monitored.{
  MonitoredImage, ClusterImageSetAvailability, registry_config, quotient,
}
use kube_image_keeper.Availability.Candidates.{
  MonitoringCandidate, monitoring_candidates_by_registry,
}
use kube_image_keeper.Availability.Fairness.{
  time_or_zero, IsDueBefore, Leads, monitored_images, monitoring_candidates_by_registry-Leads,
}
use kube_image_keeper.Availability.Check.{Monitor, Settings, check_next_for_registry}

-- A time is left, where the tick of the registry is not over.
time_left :
    (tick : ℕ) (now last checked : Time)
    → checked ≤ last
    → last ≤ now
    → now < checked + tick
    → tick < 2 ^ 63
    → ltb_ℤ (pos 0) (delete_after (pos tick) now last) ≡ true
unfolding delete_after since saturate sub_int ◌-ℤ◌
time_left tick now last checked h k l m = ground arith

module _ {W K D : Type 0} (settings : Settings) (remote : Remote W K D) (monitor : Monitor W) where
  -- Nothing was done but to read the clock, and there is a time to wait.
  abbrev pub IsWaiting :
      List ClusterImageSetAvailability
      → Result (ℤ × List ClusterImageSetAvailability) × W
      → W
      → Type 0
  IsWaiting cisas r w =
      (wait : ℤ) × (r ≡ (ok (wait, cisas), (monitor.now w).1)) × (ltb_ℤ (pos 0) wait ≡ true)

  waits :
      (pods : List Pod) (cisas : List ClusterImageSetAvailability) (registry : Text)
      (c : MonitoringCandidate) (w : W) (tick : ℤ)
      → quotient
          (registry_config settings.registries registry).interval
          (registry_config settings.registries registry).max_per_interval
        ≡ ok tick
      → ltb_ℤ (pos 0) (delete_after tick (monitor.now w).0 c.registry_last_monitor) ≡ true
      → IsWaiting cisas (check_next_for_registry settings remote monitor pods cisas registry c w) w
  unfolding check_next_for_registry
  waits pods cisas registry c w tick h k =
      (delete_after tick (monitor.now w).0 c.registry_last_monitor, rw (h, k) refl, k)

  -- An image of the registry that an object monitors, with the time of its last check.
  abbrev pub WasChecked : List ClusterImageSetAvailability → Text → MonitoredImage → Time → Type 0
  WasChecked cisas registry image checked =
      Any (λ i. i ≡ image)
        (monitored_images settings.parse_normalized registry settings.compile
          settings.parse_selector cisas [])
      × (image.last_monitor ≡ some checked)

  -- Where an image of a registry was checked less than a tick ago, the check of the next image of that
  -- registry does nothing but read the clock and return a time to wait, for a tick of less than 2^63 ns
  -- and a last check that is not in the future.
  pub check_next_for_registry-IsWaiting :
      (pods : List Pod) (cisas : List ClusterImageSetAvailability) (registry : Text)
      (c : MonitoringCandidate) (image : MonitoredImage) (checked : Time) (w : W) (tick : ℕ)
      → lookup registry (
          monitoring_candidates_by_registry settings.parse_normalized settings.compile
            settings.parse_selector 0 cisas [])
        ≡ some c
      → WasChecked cisas registry image checked
      → quotient
          (registry_config settings.registries registry).interval
          (registry_config settings.registries registry).max_per_interval
        ≡ ok (pos tick)
      → tick < 2 ^ 63
      → c.registry_last_monitor ≤ (monitor.now w).0
      → (monitor.now w).0 < checked + tick
      → IsWaiting cisas (check_next_for_registry settings remote monitor pods cisas registry c w) w
  check_next_for_registry-IsWaiting pods cisas registry c image checked w tick h (there, e) q m n
        l =
      let leads =
        subst
          (λ o. Leads o (
            monitored_images settings.parse_normalized registry settings.compile
              settings.parse_selector cisas []))
          h
          (monitoring_candidates_by_registry-Leads settings.parse_normalized registry
            settings.compile settings.parse_selector cisas) in
      let due = All-at (IsDueBefore c) _ leads.0 there in
      waits pods cisas registry c w (pos tick) q (
        time_left tick (monitor.now w).0 c.registry_last_monitor checked
          (subst (λ o. time_or_zero o ≤ c.registry_last_monitor) e due.1) n l m)
