-- ===== src/Availability/Restored.antt =====
-- What the backfill of the field Original changes in a status.
use kube_image_keeper.Prelude.{◌≡◌, refl, Bool, false, ◌||◌, List, [], ◌∷◌, map, arith}
use kube_image_keeper.Pods.{StringMap, lookup}
use kube_image_keeper.Availability.Monitored.{MonitoredImage}
use kube_image_keeper.Availability.Backfill.{or_false, backfill_status}

-- An image that is original if it was, or if it was found to be.
unfoldable restored : StringMap Bool → MonitoredImage → MonitoredImage
unfolding lookup
restored found i = record i { original = i.original || or_false (lookup i.image found) }

-- The backfill sets Original of exactly the images that were found to be original, takes it from none and
-- changes nothing else; it reports a change if and only if Original of an image was set.
backfill_status-restored :
    (found : StringMap Bool) (is : List MonitoredImage)
    → ((backfill_status found is).0 ≡ map (restored found) is)
      × ((backfill_status found is).1 ≡ false → (backfill_status found is).0 ≡ is)
unfolding backfill_status restored
backfill_status-restored found [] = (refl, λ h. refl)
backfill_status-restored found (i ∷ is) = ground (arith, backfill_status-restored found is)
