-- ===== src/Availability/Sync.antt =====
-- syncImageList: the monitored images brought into line with the pods. The clock is read once, and
-- `range_order` is the order in which the map of the images in use is iterated.
use kube_image_keeper.Prelude.{
  Bool, true, false, not, ◌||◌, List, [], ◌∷◌, ◌++◌, Option, none, some, contains_func, delete_func,
  is_some, if◌then◌else◌, ◌==◌,
}
use kube_image_keeper.Prelude.Int.{ℤ, pos, ltb_ℤ}
use kube_image_keeper.Text.{Text, text_eq}
use kube_image_keeper.Errors.{Result}
use kube_image_keeper.Pods.{StringMap, lookup, insert, Pod}
use kube_image_keeper.Filters.{Filter, match}
use kube_image_keeper.Resources.{Time}
use kube_image_keeper.References.{Named}
use kube_image_keeper.Webhook.Admission.{Json}
use kube_image_keeper.Mirroring.Names.{normalized_image_names_map_from_annotated_pod}
use kube_image_keeper.Mirroring.Merge.{instant_expiry_marker}
use kube_image_keeper.Mirroring.Clock.{since}
use kube_image_keeper.Registry.Probe.{ImageAvailabilityStatus, scheduled}
use kube_image_keeper.Availability.Monitored.{MonitoredImage}

-- The images of one pod that the filter matches, put with those found so far.
unfoldable pub add_current : Filter → StringMap Bool → StringMap Bool → StringMap Bool
unfolding match insert
add_current f [] found = found
add_current f ((name, original) ∷ names) found =
    add_current f names (if match f name then insert name original found else found)

-- currentImages
unfoldable pub current_images :
    (Text → Result Named) → Json → Filter → List Pod → StringMap Bool → StringMap Bool
unfolding add_current normalized_image_names_map_from_annotated_pod
current_images parse json f [] found = found
current_images parse json f (pod ∷ pods) found =
    current_images parse json f pods
      (add_current f (normalized_image_names_map_from_annotated_pod parse json pod) found)

abbrev pub is_scheduled : ImageAvailabilityStatus → Bool
is_scheduled scheduled = true
is_scheduled _ = false

abbrev pub is_marked : Option Time → Bool
is_marked none = false
is_marked (some t) = t == instant_expiry_marker

-- The new unusedSince of a monitored image, and whether its pointer changes.
unfoldable pub sync_unused : Time → Bool → Bool → MonitoredImage → Option Time × Bool
sync_unused now matches in_use image =
    if not matches
    then (if is_marked image.unused_since
        then (image.unused_since, false)
        else (some instant_expiry_marker, true))
    else if in_use
    then (none, is_some image.unused_since)
    else if is_scheduled image.status
    then (some instant_expiry_marker, true)
    else if is_some image.unused_since
    then (image.unused_since, false)
    else (some now, true)

-- The first loop over the status.
unfoldable pub sync_all :
    Time → Filter → StringMap Bool → List MonitoredImage → List MonitoredImage × Bool
unfolding sync_unused match lookup
sync_all now f current [] = ([], false)
sync_all now f current (i ∷ is) =
    let (unused, changed) =
      sync_unused now (match f i.image) (is_some (lookup i.image current)) i in
    let (rest, changed') = sync_all now f current is in
    (record i { unused_since = unused } ∷ rest, changed || changed')

-- An image whose time has passed.
unfoldable pub is_expired : Time → ℤ → MonitoredImage → Bool
unfolding since
is_expired now expiry image = elim image.unused_since [
  | none ↦ false
  | some t ↦ not (ltb_ℤ (since now t) expiry)
]

abbrev pub tracked : List MonitoredImage → Text → Bool
tracked images name = contains_func images (λ i. text_eq i.image name)

-- The images that no entry of the list tracks.
unfoldable pub discovered : List MonitoredImage → List (Text × Bool) → List MonitoredImage
unfolding text_eq
discovered existing [] = []
discovered existing ((name, original) ∷ current) =
    let rest = discovered existing current in
    if tracked existing name
    then rest
    else record {
      image = name;
      status = scheduled;
      unused_since = none;
      last_error = [];
      last_monitor = none;
      original = original;
    }
      ∷ rest

-- The removal of the images whose time has passed, and whether it reports a change.
unfoldable pub expire : Time → ℤ → List MonitoredImage → List MonitoredImage × Bool
unfolding is_expired
expire now expiry images =
    if ltb_ℤ (pos 0) expiry
    then (
      delete_func images (λ i. is_expired now expiry i),
      contains_func images
          (λ i. if is_expired now expiry i then not (is_marked i.unused_since) else false),
    )
    else (images, false)

-- The new images and whether something changed, given the images in use.
unfoldable pub sync_image_list :
    (List (Text × Bool) → List (Text × Bool))
    → Time
    → ℤ
    → Filter
    → StringMap Bool
    → List MonitoredImage
    → List MonitoredImage × Bool
unfolding sync_all expire discovered
sync_image_list range_order now expiry f current images =
    let (synced, changed) = sync_all now f current images in
    let (kept, removed) = expire now expiry synced in
    let added = discovered kept (range_order current) in
    (kept ++ added, changed || removed || elim added [ [] ↦ false | _ ∷ _ ↦ true ])
