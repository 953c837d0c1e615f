-- ===== src/Configuration.antt =====
-- internal/config/config.go: the configuration and its default. Its files are read and decoded by libraries.
use kube_image_keeper.Prelude.{
  ◌≡◌, refl, inl, inr, ℕ, ◌*◌, ◌^◌, Bool, false, List, [], ◌∷◌, none, Bool-cases, if◌then◌else◌,
}
use kube_image_keeper.Prelude.Int.{ℤ, pos}
use kube_image_keeper.Text.{Text, codes, text_eq}
use kube_image_keeper.Errors.{Result, ok}
use kube_image_keeper.Pods.{lookup}
use kube_image_keeper.Filters.{Selector, PodFilter, compile_pod_filter}
use kube_image_keeper.Registry.Client.{head}
use kube_image_keeper.Availability.Monitored.{Registries, registry_config, quotient}
use kube_image_keeper.Histogram.{LegacyHistogramConfig}

pub record StaleMirrorCleanup : Type 0 where
  pub max_concurrent : ℤ
  pub timeout : ℤ

pub record ActiveCheck : Type 0 where
  pub timeout : ℤ
  pub resolve_digest : Bool
  pub stale_mirror_cleanup : StaleMirrorCleanup

pub record Routing : Type 0 where
  pub active_check : ActiveCheck
  pub rewrite_on_never_image_pull_policy : Bool
  pub honor_priorities_on_always_image_pull_policy : Bool

pub record Platform : Type 0 where
  pub os : Text
  pub architecture : Text
  pub variant : Text

-- F is float64.
pub record HistogramConfig (F : Type 0) : Type 0 where
  pub bucket_factor : F
  pub zero_threshold : F
  pub max_bucket_number : ℕ
  pub legacy : LegacyHistogramConfig F

pub record Config (F : Type 0) : Type 0 where
  pub skip_labels : List Text
  pub skip_annotations : List Text
  pub routing : Routing
  pub platforms : List Platform
  pub registries : Registries
  pub image_last_monitor_age_minutes : HistogramConfig F

-- time.Second and time.Hour
abbrev second : ℕ
second = 10 ^ 9

abbrev hour : ℕ
hour = 3600 * 10 ^ 9

unfoldable pub default_registries : Registries
default_registries = record {
  default = record {
    method = head;
    interval = pos (3 * hour);
    max_per_interval = pos 25;
    resolve_digest = none;
    fallback_credential_secret = none;
  };
  items =
      (
        codes "docker.io",
        record {
          method = none;
          interval = pos hour;
          max_per_interval = pos 6;
          resolve_digest = none;
          fallback_credential_secret = none;
        },
      )
      ∷ [];
}

-- defaultConfig; `decimal n k` is the float64 nearest to n / 10 ^ k.
unfoldable pub default_config : {F : Type 0} → (ℕ → ℕ → F) → Config F
unfolding default_registries
default_config decimal = record {
  skip_labels = [];
  skip_annotations = [];
  routing = record {
    active_check = record {
      timeout = pos second;
      resolve_digest = false;
      stale_mirror_cleanup = record { max_concurrent = pos 10; timeout = pos (5 * second) };
    };
    rewrite_on_never_image_pull_policy = false;
    honor_priorities_on_always_image_pull_policy = false;
  };
  platforms = record { os = []; architecture = codes "amd64"; variant = [] } ∷ [];
  registries = default_registries;
  image_last_monitor_age_minutes = record {
    bucket_factor = decimal 11 1;
    zero_threshold = decimal 1 0;
    max_bucket_number = 20;
    legacy = record {
      bucket_type = [];
      count = pos 12;
      start = decimal 1 0;
      factor = decimal 194 2;
      min = decimal 1 0;
      max = decimal 1440 0;
      custom =
          decimal 1 0
          ∷ decimal 5 0
          ∷ decimal 10 0
          ∷ decimal 30 0
          ∷ decimal 60 0
          ∷ decimal 120 0
          ∷ decimal 180 0
          ∷ decimal 360 0
          ∷ decimal 720 0
          ∷ decimal 1440 0
          ∷ [];
    };
  };
}

-- compileGlobalPodFilter
unfoldable pub compile_global_pod_filter :
    {F : Type 0} → (Text → Result Selector) → Config F → Result PodFilter
unfolding compile_pod_filter
compile_global_pod_filter parse cfg =
    compile_pod_filter parse [] cfg.skip_labels [] cfg.skip_annotations

-- The time between two checks of a registry.
unfoldable pub tick_duration : Registries → Text → Result ℤ
unfolding registry_config quotient
tick_duration registries registry =
    let config = registry_config registries registry in
    quotient config.interval config.max_per_interval

-- With the default configuration a registry is checked every ten minutes if it is docker.io, and else
-- every 432 seconds; the division does not panic.
tick_duration-default_config :
    {F : Type 0} (decimal : ℕ → ℕ → F) (registry : Text)
    → tick_duration (default_config decimal).registries registry ≡ (
        if text_eq (codes "docker.io") registry
        then ok (pos (600 * 10 ^ 9))
        else ok (pos (432 * 10 ^ 9)))
unfolding tick_duration default_config lookup
tick_duration-default_config decimal registry =
    elim (Bool-cases (text_eq (codes "docker.io") registry)) [
      | inl q ↦ rw q refl
      | inr q ↦ rw q refl
    ]
