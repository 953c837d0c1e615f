-- ===== src/Availability/Backfill.antt =====
-- internal/controller/kuik/backfill_original.go: the field Original of statuses from before it was there.
use kube_image_keeper.Prelude.{
  Bool, true, false, not, ◌&&◌, ◌||◌, List, [], ◌∷◌, Option, none, some, contains_func,
  if◌then◌else◌,
}
use kube_image_keeper.Text.{Text, text_eq}
use kube_image_keeper.Errors.{Result}
use kube_image_keeper.Effects.{Eff, pure, attempt, ◌>>=◌}
use kube_image_keeper.Pods.{StringMap, lookup, insert, Pod}
use kube_image_keeper.References.{Named}
use kube_image_keeper.Webhook.Admission.{Json}
use kube_image_keeper.Mirroring.Names.{normalized_image_names_map_from_annotated_pod}
use kube_image_keeper.Availability.Monitored.{MonitoredImage, ClusterImageSetAvailability}

-- needsBackfill
needs_backfill : List MonitoredImage → Text → Bool
unfolding text_eq
needs_backfill images name = contains_func images (λ i. not i.original && text_eq i.image name)

abbrev pub or_false : Option Bool → Bool
or_false none = false
or_false (some b) = b

-- The names of one pod that need it.
add_needed : List MonitoredImage → StringMap Bool → StringMap Bool → StringMap Bool
unfolding needs_backfill lookup insert
add_needed images [] found = found
add_needed images ((name, original) ∷ names) found = add_needed images names (
    if needs_backfill images name
    then insert name (or_false (lookup name found) || original) found
    else found)

module _ (parse_normalized : Text → Result Named) (json : Json) where
  unfoldable pub backfill_images : List MonitoredImage → List Pod → StringMap Bool → StringMap Bool
  unfolding add_needed normalized_image_names_map_from_annotated_pod
  backfill_images images [] found = found
  backfill_images images (pod ∷ pods) found = backfill_images images pods (
      add_needed images (normalized_image_names_map_from_annotated_pod parse_normalized json pod)
        found)

-- The loop over the status, and `changed`.
unfoldable pub backfill_status : StringMap Bool → List MonitoredImage → List MonitoredImage × Bool
unfolding lookup
backfill_status found [] = ([], false)
backfill_status found (i ∷ is) =
    let (rest, changed) = backfill_status found is in
    if not i.original && or_false (lookup i.image found)
    then (record i { original = true } ∷ rest, true)
    else (i ∷ rest, changed)

-- The API server, as this runs against it at startup.
pub record Backfiller (W : Type 0) : Type 0 where
  pub list_objects : Eff W (List ClusterImageSetAvailability)
  pub list_pods : Eff W (List Pod)
  pub patch_status : ClusterImageSetAvailability → ClusterImageSetAvailability → Eff W (Unit {0})

module _ {W : Type 0} (parse_normalized : Text → Result Named) (json : Json)
    (api : Backfiller W) where
  -- One object; an object that needs nothing gets no change.
  backfill_object : List Pod → ClusterImageSetAvailability → ClusterImageSetAvailability × Bool
  unfolding backfill_images backfill_status
  backfill_object pods cisa =
      let (images, changed) =
        backfill_status (backfill_images parse_normalized json cisa.images pods []) cisa.images in
      (record cisa { images = images }, changed)

  -- The loop over the objects; an object that cannot be written is passed over.
  unfoldable pub backfill_objects : List Pod → List ClusterImageSetAvailability → Eff W (Unit {0})
  unfolding backfill_object
  backfill_objects pods [] = pure tt
  backfill_objects pods (c ∷ cs) =
      let (c', changed) = backfill_object pods c in
      if changed
      then attempt (api.patch_status c c') (λ _. backfill_objects pods cs)
      else backfill_objects pods cs

  unfoldable pub backfill_original_field : Eff W (Unit {0})
  unfolding backfill_objects
  backfill_original_field = do
    cisas ← api.list_objects
    elim cisas [ [] ↦ pure tt | c ∷ cs ↦ (do pods ← api.list_pods; backfill_objects pods (c ∷ cs)) ]
