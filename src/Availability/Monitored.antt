-- ===== src/Availability/Monitored.antt =====
-- api/kuik/v1alpha1/clusterimagesetavailability_types.go, and the configuration of the monitoring of a
-- registry in internal/config.
use kube_image_keeper.Prelude.{ℕ, zero, suc, ◌/◌, Bool, false, List, Option, none, some}
use kube_image_keeper.Prelude.Int.{ℤ, pos, negsuc, sub_ℕ}
use kube_image_keeper.Text.{Text, codes}
use kube_image_keeper.Errors.{Result, ok, err, message}
use kube_image_keeper.Pods.{StringMap, lookup, Pod}
use kube_image_keeper.Filters.{Regexp, Selector, Filter}
use kube_image_keeper.Selection.{
  ClusterFilter, cluster_filter_selector, pod_matcher, image_filter as choose_image_filter,
  ImageFilterDefinition, build,
}
use kube_image_keeper.Resources.{Time, ObjectMeta, CredentialSecret}
use kube_image_keeper.Registry.Client.{HttpMethod}
use kube_image_keeper.Registry.Probe.{ImageAvailabilityStatus}

pub record MonitoredImage : Type 0 where
  pub image : Text
  pub status : ImageAvailabilityStatus
  pub unused_since : Option Time
  pub last_error : Text
  pub last_monitor : Option Time
  pub original : Bool

pub record ClusterImageSetAvailability : Type 0 where
  pub meta : ObjectMeta
  pub unused_image_expiry : ℤ
  pub image_filter : ImageFilterDefinition
  pub filter : ClusterFilter
  pub image_count : ℕ
  pub images : List MonitoredImage

module _ (compile : Text → Result Regexp) (parse : Text → Result Selector) where
  unfoldable pub availability_pod_matcher : ClusterImageSetAvailability → Result (Pod → Bool)
  unfolding pod_matcher cluster_filter_selector
  availability_pod_matcher c = pod_matcher (cluster_filter_selector compile parse c.filter)

  unfoldable pub availability_image_filter : ClusterImageSetAvailability → Result Filter
  unfolding choose_image_filter cluster_filter_selector build
  availability_image_filter c =
      choose_image_filter (cluster_filter_selector compile parse c.filter)
        (build compile c.image_filter)

-- RegistryMonitoring; in an override, a zero value stands for one that is not set.
pub record RegistryMonitoring : Type 0 where
  pub method : HttpMethod
  pub interval : ℤ
  pub max_per_interval : ℤ
  pub resolve_digest : Option Bool
  pub fallback_credential_secret : Option CredentialSecret

pub record Override : Type 0 where
  pub method : Option HttpMethod
  pub interval : ℤ
  pub max_per_interval : ℤ
  pub resolve_digest : Option Bool
  pub fallback_credential_secret : Option CredentialSecret

pub record Registries : Type 0 where
  pub default : RegistryMonitoring
  pub items : StringMap Override

-- ResolveDigestEnabled
abbrev pub resolve_digest_enabled : RegistryMonitoring → Bool
resolve_digest_enabled r = elim r.resolve_digest [ none ↦ false | some b ↦ b ]

or_default : {A : Type 0} → Option A → A → A
or_default none d = d
or_default (some a) d = a

or_else_option : {A : Type 0} → Option A → Option A → Option A
or_else_option none d = d
or_else_option (some a) d = some a

-- The value of an override, where it is not zero.
unless_zero : ℤ → ℤ → ℤ
unless_zero (pos zero) d = d
unless_zero v d = v

-- registryConfig
unfoldable pub registry_config : Registries → Text → RegistryMonitoring
unfolding lookup or_default or_else_option unless_zero
registry_config registries registry = elim (lookup registry registries.items) [
  | none ↦ registries.default
  | some o ↦ record {
    method = or_default o.method registries.default.method;
    interval = unless_zero o.interval registries.default.interval;
    max_per_interval = unless_zero o.max_per_interval registries.default.max_per_interval;
    resolve_digest = or_else_option o.resolve_digest registries.default.resolve_digest;
    fallback_credential_secret =
        or_else_option o.fallback_credential_secret registries.default.fallback_credential_secret;
  }
]

-- The quotient of two integers, rounded towards zero; a division by zero panics.
unfoldable pub quotient : ℤ → ℤ → Result ℤ
quotient a (pos zero) = err (message (codes "panic: integer divide by zero"))
quotient (pos a) (pos (suc b)) = ok (pos (a / suc b))
quotient (pos a) (negsuc b) = ok (sub_ℕ 0 (a / suc b))
quotient (negsuc a) (pos (suc b)) = ok (sub_ℕ 0 (suc a / suc b))
quotient (negsuc a) (negsuc b) = ok (pos (suc a / suc b))
