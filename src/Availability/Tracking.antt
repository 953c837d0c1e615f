-- ===== src/Availability/Tracking.antt =====
-- Which images syncImageList leaves in the status.
use kube_image_keeper.Prelude.{
  ◌≡◌, refl, ◌∙◌, Any, Bool, true, List, [], ◌∷◌, ◌++◌, ◌||◌, inl, inr, arith,
}
use kube_image_keeper.Prelude.Int.{ℤ}
use kube_image_keeper.Text.{Text}
use kube_image_keeper.Text.Laws.{text_eq_refl}
use kube_image_keeper.Pods.{StringMap}
use kube_image_keeper.Filters.{Filter}
use kube_image_keeper.Resources.{Time}
use kube_image_keeper.Availability.Monitored.{MonitoredImage}
use kube_image_keeper.Availability.Sync.{sync_all, expire, tracked, discovered, sync_image_list}

pub tracked-append :
    (xs ys : List MonitoredImage) (name : Text)
    → tracked (xs ++ ys) name ≡ (tracked xs name || tracked ys name)
tracked-append [] ys name = refl
tracked-append (x ∷ xs) ys name = ground (arith, tracked-append xs ys name)

-- Each name is there already, or among the new images.
discovered-tracked :
    (existing : List MonitoredImage) (current : List (Text × Bool)) (name : Text)
    → Any (λ p. p.0 ≡ name) current
    → (tracked existing name || tracked (discovered existing current) name) ≡ true
unfolding discovered
discovered-tracked existing [] name h = absurd h
discovered-tracked existing ((n, original) ∷ current) name (inl e) =
    ground (arith, e, text_eq_refl n, text_eq_refl name)
discovered-tracked existing ((n, original) ∷ current) name (inr h) =
    ground (arith, discovered-tracked existing current name h)

-- Every image that is in use and that the filter matches is tracked after the status was brought into
-- line with the pods, whatever was expired, if the iteration over the map yields its entry.
sync_image_list-tracked :
    (range_order : List (Text × Bool) → List (Text × Bool)) (now : Time) (expiry : ℤ) (f : Filter)
    (current : StringMap Bool) (images : List MonitoredImage) (name : Text)
    → Any (λ p. p.0 ≡ name) (range_order current)
    → tracked (sync_image_list range_order now expiry f current images).0 name ≡ true
unfolding sync_image_list
sync_image_list-tracked range_order now expiry f current images name h =
    let kept = (expire now expiry (sync_all now f current images).0).0 in
    tracked-append kept (discovered kept (range_order current)) name
    ∙ discovered-tracked kept (range_order current) name h
