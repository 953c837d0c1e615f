-- ===== src/Reporting/Counts.antt =====
-- The values of the metrics on monitored images: the loops of collector.go.
use kube_image_keeper.Prelude.{
  ℕ, suc, Bool, true, false, not, ◌&&◌, List, [], ◌∷◌, ◌++◌, Option, none, some, if◌then◌else◌,
}
use kube_image_keeper.Prelude.Int.{ℤ}
use kube_image_keeper.Mirroring.Clock.{since}
use kube_image_keeper.Text.{Text, text_eq}
use kube_image_keeper.Errors.{Result, ok, err}
use kube_image_keeper.Resources.{Time}
use kube_image_keeper.References.{Named, registry_and_path_from_reference}
use kube_image_keeper.Mirroring.Merge.{is_zero}
use kube_image_keeper.Registry.Probe.{ImageAvailabilityStatus}
use kube_image_keeper.Availability.Monitored.{MonitoredImage, ClusterImageSetAvailability}
use kube_image_keeper.Reporting.{status_text}

-- The labels of the metric `images`: counterKey
pub record CounterKey : Type 0 where
  pub name : Text
  pub registry : Text
  pub status : ImageAvailabilityStatus
  pub used : Bool
  pub original : Bool

abbrev pub bool_eq : Bool → Bool → Bool
bool_eq true b = b
bool_eq false b = not b

unfoldable pub key_eq : CounterKey → CounterKey → Bool
unfolding text_eq status_text
key_eq a b =
    text_eq a.name b.name
    && text_eq a.registry b.registry
    && text_eq (status_text a.status) (status_text b.status)
    && bool_eq a.used b.used
    && bool_eq a.original b.original

-- counts[key]++
unfoldable pub increment : CounterKey → List (CounterKey × ℕ) → List (CounterKey × ℕ)
unfolding key_eq
increment k [] = (k, 1) ∷ []
increment k ((j, n) ∷ counts) =
    if key_eq j k then (j, suc n) ∷ counts else (j, n) ∷ increment k counts

module _ (parse_normalized : Text → Result Named) where
  -- The ages of the last checks that the histogram `image_last_monitor_age_minutes` observes, with its
  -- labels. The histogram itself and the division to minutes are the metrics library's.
  observe_images : Time → Text → List MonitoredImage → List ((Text × Text) × ℤ)
  unfolding registry_and_path_from_reference since
  observe_images now cisa [] = []
  observe_images now cisa (i ∷ is) =
      let rest = observe_images now cisa is in
      elim i.last_monitor [
        | none ↦ rest
        | some t ↦
            if is_zero (some t)
            then rest
            else elim (registry_and_path_from_reference parse_normalized i.image) [
              | err _ ↦ rest
              | ok (registry, _) ↦ ((cisa, registry), since now t) ∷ rest
            ]
      ]

  unfoldable pub observe_objects :
      Time → List ClusterImageSetAvailability → List ((Text × Text) × ℤ)
  unfolding observe_images
  observe_objects now [] = []
  observe_objects now (o ∷ os) = observe_images now o.meta.name o.images ++ observe_objects now os

  -- The key of an image, where its reference parses.
  unfoldable pub counter_key : Text → MonitoredImage → Option CounterKey
  unfolding registry_and_path_from_reference
  counter_key cisa i = elim (registry_and_path_from_reference parse_normalized i.image) [
    | err _ ↦ none
    | ok (registry, _) ↦ some (record {
      name = cisa;
      registry = registry;
      status = i.status;
      used = is_zero i.unused_since;
      original = i.original;
    })
  ]

  abbrev increment_optional : Option CounterKey → List (CounterKey × ℕ) → List (CounterKey × ℕ)
  increment_optional none counts = counts
  increment_optional (some k) counts = increment k counts

  unfoldable pub count_images :
      Text → List MonitoredImage → List (CounterKey × ℕ) → List (CounterKey × ℕ)
  unfolding counter_key increment
  count_images cisa [] counts = counts
  count_images cisa (i ∷ is) counts =
      count_images cisa is (increment_optional (counter_key cisa i) counts)

  -- The values of the metric `images`.
  unfoldable pub count_objects :
      List ClusterImageSetAvailability → List (CounterKey × ℕ) → List (CounterKey × ℕ)
  unfolding count_images
  count_objects [] counts = counts
  count_objects (o ∷ os) counts = count_objects os (count_images o.meta.name o.images counts)
