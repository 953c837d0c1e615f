-- ===== src/Reporting.antt =====
-- internal/controller: the handler of the status page (status.go); its children are about the metrics
-- (collector.go).
pub mod Totals
pub mod Counts
pub mod Metrics
pub mod Collectors
pub mod Samples
use kube_image_keeper.Prelude.{
  ℕ, suc, Bool, true, false, not, ◌&&◌, List, [], ◌∷◌, ◌++◌, Option, none, some, if◌then◌else◌,
  ◌==◌,
}
use kube_image_keeper.Prelude.Int.{ℤ}
use kube_image_keeper.Mirroring.Clock.{since}
use kube_image_keeper.Text.{Text, codes, text_eq, is_empty}
use kube_image_keeper.Errors.{Result, ok, err, error_text}
use kube_image_keeper.Pods.{StringMap, lookup, insert}
use kube_image_keeper.Resources.{Time}
use kube_image_keeper.References.{Named, registry_and_path_from_reference}
use kube_image_keeper.Mirroring.Merge.{is_zero}
use kube_image_keeper.Registry.Probe.{
  ImageAvailabilityStatus, scheduled, available, image_not_found, unreachable, invalid_auth,
  unavailable_secret, quota_exceeded,
}
use kube_image_keeper.Availability.Monitored.{MonitoredImage, ClusterImageSetAvailability}

-- string(status)
unfoldable pub status_text : ImageAvailabilityStatus → Text
status_text scheduled = codes "Scheduled"
status_text available = codes "Available"
status_text image_not_found = codes "NotFound"
status_text unreachable = codes "Unreachable"
status_text invalid_auth = codes "InvalidAuth"
status_text unavailable_secret = codes "UnavailableSecret"
status_text quota_exceeded = codes "QuotaExceeded"

pub record StatusImage : Type 0 where
  pub cisa : Text
  pub image : Text
  pub registry : Text
  pub status : Text
  pub unused_since : Option Text
  pub last_error : Text
  pub last_monitor : Option Text

-- The query parameter `groupBy`.
pub data GroupBy : Type 0 where
  no_group by_cisa by_registry : GroupBy

unfoldable pub parse_group_by : Text → Option GroupBy
unfolding text_eq
parse_group_by t =
    if is_empty t
    then some no_group
    else if text_eq t (codes "cisa")
    then some by_cisa
    else if text_eq t (codes "registry")
    then some by_registry
    else none

-- The body of an answer.
pub data Body : Type 0 where
  failure : Text → Body
  grouped : Text → StringMap (List StatusImage) → ℕ → Body
  listed : List StatusImage → ℕ → Body

pub record Collected : Type 0 where
  pub groups : StringMap (List StatusImage)
  pub items : List StatusImage
  pub total : ℕ

-- The key of an entry, and the entry without the field that its group has.
unfoldable pub group_key : GroupBy → StatusImage → Text
group_key no_group s = []
group_key by_cisa s = s.cisa
group_key by_registry s = s.registry

unfoldable pub ungrouped : GroupBy → StatusImage → StatusImage
ungrouped no_group s = s
ungrouped by_cisa s = record s { cisa = [] }
ungrouped by_registry s = record s { registry = [] }

abbrev pub members : Option (List StatusImage) → List StatusImage
members none = []
members (some xs) = xs

-- The end of the body of the loop.
unfoldable pub add_entry : GroupBy → StatusImage → Collected → Collected
unfolding group_key ungrouped lookup insert
add_entry no_group s c = record c { items = c.items ++ s ∷ []; total = suc c.total }
add_entry g s c = record c {
  groups =
      insert (group_key g s) (members (lookup (group_key g s) c.groups) ++ ungrouped g s ∷ [])
        c.groups;
  total = suc c.total;
}

module _ (parse_normalized : Text → Result Named) (format_rfc3339 : Time → Text) where
  format_time : Option Time → Option Text
  format_time none = none
  format_time (some t) = if is_zero (some t) then none else some (format_rfc3339 t)

  -- The entry of an image, where its reference parses.
  unfoldable pub status_image : Text → MonitoredImage → Option StatusImage
  unfolding registry_and_path_from_reference status_text format_time
  status_image cisa i = elim (registry_and_path_from_reference parse_normalized i.image) [
    | err _ ↦ none
    | ok (registry, _) ↦ some (record {
      cisa = cisa;
      image = i.image;
      registry = registry;
      status = status_text i.status;
      unused_since = format_time i.unused_since;
      last_error = i.last_error;
      last_monitor = format_time i.last_monitor;
    })
  ]

  abbrev add_optional : GroupBy → Option StatusImage → Collected → Collected
  add_optional g none c = c
  add_optional g (some s) c = add_entry g s c

  unfoldable pub collect_images : GroupBy → Text → List MonitoredImage → Collected → Collected
  unfolding status_image add_entry
  collect_images g cisa [] c = c
  collect_images g cisa (i ∷ is) c =
      collect_images g cisa is (add_optional g (status_image cisa i) c)

  unfoldable pub collect_objects :
      GroupBy → List ClusterImageSetAvailability → Collected → Collected
  unfolding collect_images
  collect_objects g [] c = c
  collect_objects g (o ∷ os) c = collect_objects g os (collect_images g o.meta.name o.images c)

  nothing_collected : Collected
  nothing_collected = record { groups = []; items = []; total = 0 }

  answer : Text → GroupBy → Collected → Body
  answer text no_group c = listed c.items c.total
  answer text g c = grouped text c.groups c.total

  -- The answer for a parameter that was looked at: the code and the body.
  unfoldable pub respond :
      Text → Option GroupBy → Result (List ClusterImageSetAvailability) → ℕ × Body
  unfolding collect_objects nothing_collected answer error_text
  respond group_by none listing = (400, failure (codes "groupBy must be \"cisa\" or \"registry\""))
  respond group_by (some g) (err e) = (
    500,
    failure (codes "failed to list ClusterImageSetAvailability resources: " ++ error_text e),
  )
  respond group_by (some g) (ok cisas) =
      (200, answer group_by g (collect_objects g cisas nothing_collected))

  -- ServeHTTP, for the parameter `groupBy` and the result of the list
  unfoldable pub serve_http : Text → Result (List ClusterImageSetAvailability) → ℕ × Body
  unfolding parse_group_by respond
  serve_http group_by listing = respond group_by (parse_group_by group_by) listing
