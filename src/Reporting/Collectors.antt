-- ===== src/Reporting/Collectors.antt =====
-- internal/controller/collector.go: the collectors that are registered, and what they collect. The metrics
-- library adds the namespace to the names, makes the histogram and encodes the samples.
use kube_image_keeper.Prelude.{
  ℕ, Bool, true, false, List, [], ◌∷◌, Option, none, some, map, if◌then◌else◌,
}
use kube_image_keeper.Prelude.Int.{ℤ}
use kube_image_keeper.Text.{Text, codes}
use kube_image_keeper.Errors.{Error, Result, ok, err, ◌>>=◌}
use kube_image_keeper.Resources.{Time}
use kube_image_keeper.References.{Named}
use kube_image_keeper.Availability.Monitored.{ClusterImageSetAvailability}
use kube_image_keeper.Histogram.{Floats, buckets}
use kube_image_keeper.Configuration.{HistogramConfig, Config}
use kube_image_keeper.Reporting.{status_text}
use kube_image_keeper.Reporting.Counts.{CounterKey, count_objects, observe_objects}

-- prometheus.HistogramOpts
pub record HistogramOpts (F : Type 0) : Type 0 where
  pub bucket_factor : F
  pub zero_threshold : F
  pub max_bucket_number : ℕ
  pub buckets : List F

-- The collectors, in the order of their registration.
pub data Collector (F : Type 0) : Type 0 where
  build_info is_leader up images : Collector F
  image_last_monitor_age_minutes : HistogramOpts F → Collector F

abbrev pub subsystem_manager : Text
subsystem_manager = codes "manager"

abbrev pub subsystem_monitoring : Text
subsystem_monitoring = codes "monitoring"

module _ {F : Type 0} where
  -- The subsystem and the name.
  unfoldable pub metric_name : Collector F → Text × Text
  metric_name build_info = (subsystem_manager, codes "build_info")
  metric_name is_leader = (subsystem_manager, codes "is_leader")
  metric_name up = (subsystem_manager, codes "up")
  metric_name images = (subsystem_monitoring, codes "images")
  metric_name (image_last_monitor_age_minutes opts) =
      (subsystem_monitoring, codes "image_last_monitor_age_minutes")

  -- The names of the variable labels.
  unfoldable pub label_names : Collector F → List Text
  label_names images =
      codes "name" ∷ codes "registry" ∷ codes "status" ∷ codes "used" ∷ codes "original" ∷ []
  label_names (image_last_monitor_age_minutes opts) = codes "name" ∷ codes "registry" ∷ []
  label_names _ = []

  unfoldable pub histogram_opts : HistogramConfig F → List F → HistogramOpts F
  histogram_opts c bounds = record {
    bucket_factor = c.bucket_factor;
    zero_threshold = c.zero_threshold;
    max_bucket_number = c.max_bucket_number;
    buckets = bounds;
  }

  -- Register: what is registered; the buckets are made once.
  unfoldable pub register_metrics : Floats F → Config F → Result (List (Collector F))
  unfolding buckets histogram_opts
  register_metrics floats cfg = do
    bounds ← buckets floats cfg.image_last_monitor_age_minutes.legacy
    ok (
        build_info
        ∷ is_leader
        ∷ up
        ∷ images
        ∷ image_last_monitor_age_minutes (histogram_opts cfg.image_last_monitor_age_minutes bounds)
        ∷ [])

-- The functions of the gauges: whether the channel of the election is closed, and the result of the ping
unfoldable pub leader_value : Bool → ℕ
leader_value elected = if elected then 1 else 0

unfoldable pub up_value : Option Error → ℕ
up_value none = 1
up_value (some e) = 0

-- MustNewConstMetric: a value and the values of the variable labels
pub record Sample : Type 0 where
  pub value : ℕ
  pub labels : List Text

-- strconv.FormatBool
unfoldable pub format_bool : Bool → Text
format_bool true = codes "true"
format_bool false = codes "false"

unfoldable pub key_labels : CounterKey → List Text
unfolding status_text format_bool
key_labels k =
    k.name ∷ k.registry ∷ status_text k.status ∷ format_bool k.used ∷ format_bool k.original ∷ []

unfoldable pub sample : CounterKey × ℕ → Sample
unfolding key_labels
sample (k, n) = record { value = n; labels = key_labels k }

module _ (parse_normalized : Text → Result Named)
    (range_counts : List (CounterKey × ℕ) → List (CounterKey × ℕ)) where
  -- The callback of the metric `images`, for the result of the list.
  unfoldable pub collect_images_metric : Result (List ClusterImageSetAvailability) → List Sample
  unfolding count_objects sample
  collect_images_metric (err e) = []
  collect_images_metric (ok cisas) =
      map sample (range_counts (count_objects parse_normalized cisas []))

  -- The callback of the histogram, up to its collection: what it observes.
  unfoldable pub collect_ages :
      Time → Result (List ClusterImageSetAvailability) → List ((Text × Text) × ℤ)
  unfolding observe_objects
  collect_ages now (err e) = []
  collect_ages now (ok cisas) = observe_objects parse_normalized now cisas
