-- ===== src/Availability/Distinct.antt =====
-- The names of the monitored images of a status.
use kube_image_keeper.Prelude.{
  ◌≡◌, refl, sym, ap, ◌∙◌, ◌||◌, Bool, true, false, List, [], ◌∷◌, ◌++◌, All, All-imp, delete_func,
  contains_func, Bool-cases, inl, inr, arith,
}
use kube_image_keeper.Prelude.Int.{ℤ, pos, ltb_ℤ}
use kube_image_keeper.Text.{Text, text_eq}
use kube_image_keeper.Text.Laws.{text_eq_refl, text_eq_sound}
use kube_image_keeper.Pods.{StringMap}
use kube_image_keeper.Filters.{Filter}
use kube_image_keeper.Resources.{Time}
use kube_image_keeper.Availability.Monitored.{MonitoredImage}
use kube_image_keeper.Availability.Sync.{
  sync_all, is_expired, expire, tracked, discovered, sync_image_list,
}
use kube_image_keeper.Availability.Tracking.{tracked-append}

-- No two entries have the same image.
abbrev pub IsDistinct : List MonitoredImage → Type 0
IsDistinct [] = Unit
IsDistinct (i ∷ is) = (tracked is i.image ≡ false) × IsDistinct is

-- No two entries of a map have the same key.
abbrev pub HasDistinctKeys : List (Text × Bool) → Type 0
HasDistinctKeys [] = Unit
HasDistinctKeys ((k, b) ∷ m) = (contains_func m (λ p. text_eq p.0 k) ≡ false) × HasDistinctKeys m

tracked-sync_all :
    (now : Time) (f : Filter) (current : StringMap Bool) (is : List MonitoredImage) (name : Text)
    → tracked (sync_all now f current is).0 name ≡ tracked is name
unfolding sync_all
tracked-sync_all now f current [] name = refl
tracked-sync_all now f current (i ∷ is) name =
    ap (λ b. text_eq i.image name || b) (tracked-sync_all now f current is name)

sync_all-IsDistinct :
    (now : Time) (f : Filter) (current : StringMap Bool) (is : List MonitoredImage)
    → IsDistinct is
    → IsDistinct (sync_all now f current is).0
unfolding sync_all
sync_all-IsDistinct now f current [] h = tt
sync_all-IsDistinct now f current (i ∷ is) h =
    (tracked-sync_all now f current is i.image ∙ h.0, sync_all-IsDistinct now f current is h.1)

tracked-delete :
    (p : MonitoredImage → Bool) (is : List MonitoredImage) (name : Text)
    → tracked is name ≡ false
    → tracked (delete_func is p) name ≡ false
tracked-delete p [] name h = refl
tracked-delete p (i ∷ is) name h = ground (arith, tracked-delete p is name)

delete-IsDistinct :
    (p : MonitoredImage → Bool) (is : List MonitoredImage)
    → IsDistinct is
    → IsDistinct (delete_func is p)
delete-IsDistinct p [] h = tt
delete-IsDistinct p (i ∷ is) h = elim (Bool-cases (p i)) [
  | inl q ↦ rw q (delete-IsDistinct p is h.1)
  | inr q ↦ rw q (tracked-delete p is i.image h.0, delete-IsDistinct p is h.1)
]

expire-IsDistinct :
    (now : Time) (expiry : ℤ) (is : List MonitoredImage)
    → IsDistinct is
    → IsDistinct (expire now expiry is).0
unfolding expire
expire-IsDistinct now expiry is h = elim (Bool-cases (ltb_ℤ (pos 0) expiry)) [
  | inl q ↦ rw q (delete-IsDistinct (is_expired now expiry) is h)
  | inr q ↦ rw q h
]

text_eq-false_sym : (s t : Text) → text_eq s t ≡ false → text_eq t s ≡ false
text_eq-false_sym s t h = elim (Bool-cases (text_eq t s)) [
  | inl q ↦
      let e : true ≡ false =
        sym (text_eq_refl s) ∙ ap (text_eq s) (sym (text_eq_sound t s q)) ∙ h in
      cc
  | inr q ↦ q
]

-- An image that the list does not track.
abbrev IsNew : List MonitoredImage → MonitoredImage → Type 0
IsNew existing i = tracked existing i.image ≡ false

discovered-IsNew :
    (existing : List MonitoredImage) (current : List (Text × Bool))
    → All (IsNew existing) (discovered existing current)
unfolding discovered
discovered-IsNew existing [] = tt
discovered-IsNew existing ((n, b) ∷ current) = elim (Bool-cases (tracked existing n)) [
  | inl q ↦ rw q (discovered-IsNew existing current)
  | inr q ↦ rw q (q, discovered-IsNew existing current)
]

tracked-discovered :
    (existing : List MonitoredImage) (current : List (Text × Bool)) (name : Text)
    → contains_func current (λ p. text_eq p.0 name) ≡ false
    → tracked (discovered existing current) name ≡ false
unfolding discovered
tracked-discovered existing [] name h = refl
tracked-discovered existing ((n, b) ∷ current) name h =
    ground (arith, tracked-discovered existing current name)

discovered-IsDistinct :
    (existing : List MonitoredImage) (current : List (Text × Bool))
    → HasDistinctKeys current
    → IsDistinct (discovered existing current)
unfolding discovered
discovered-IsDistinct existing [] h = tt
discovered-IsDistinct existing ((n, b) ∷ current) h = elim (Bool-cases (tracked existing n)) [
  | inl q ↦ rw q (discovered-IsDistinct existing current h.1)
  | inr q ↦
      rw q (tracked-discovered existing current n h.0, discovered-IsDistinct existing current h.1)
]

not_tracked :
    (i : MonitoredImage) (xs ys : List MonitoredImage)
    → All (IsNew (i ∷ xs)) ys
    → tracked ys i.image ≡ false
not_tracked i xs [] h = refl
not_tracked i xs (y ∷ ys) h = ground (arith, not_tracked i xs ys, text_eq-false_sym i.image y.image)

append-IsDistinct :
    (xs ys : List MonitoredImage)
    → IsDistinct xs
    → IsDistinct ys
    → All (IsNew xs) ys
    → IsDistinct (xs ++ ys)
append-IsDistinct [] ys h k n = k
append-IsDistinct (x ∷ xs) ys h k n = (
  tracked-append xs ys x.image ∙ ground (arith, h.0, not_tracked x xs ys n),
  append-IsDistinct xs ys h.1 k (All-imp (IsNew (x ∷ xs)) (λ y z. ground (arith, z)) ys n),
)

-- Where no two entries of a status are about the same image, none are after it was brought into line with
-- the pods, if the iteration over the map of the images in use yields each key once.
pub sync_image_list-IsDistinct :
    (range_order : List (Text × Bool) → List (Text × Bool)) (now : Time) (expiry : ℤ) (f : Filter)
    (current : StringMap Bool) (images : List MonitoredImage)
    → HasDistinctKeys (range_order current)
    → IsDistinct images
    → IsDistinct (sync_image_list range_order now expiry f current images).0
unfolding sync_image_list
sync_image_list-IsDistinct range_order now expiry f current images k h =
    let kept = (expire now expiry (sync_all now f current images).0).0 in
    append-IsDistinct kept (discovered kept (range_order current))
      (expire-IsDistinct now expiry (sync_all now f current images).0
        (sync_all-IsDistinct now f current images h))
      (discovered-IsDistinct kept (range_order current) k)
      (discovered-IsNew kept (range_order current))
