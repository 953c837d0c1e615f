-- ===== src/Mirroring/Remembered.antt =====
-- What the merge of the status keeps of the status before.
use kube_image_keeper.Prelude.{
  ◌≡◌, refl, subst, sym, ◌⊎◌, inl, inr, true, false, not, List, [], ◌∷◌, keep, All, All-imp, Any,
  Any-append_left, Any-append_right, Option, Bool-cases,
}
use kube_image_keeper.Text.{Text, text_eq}
use kube_image_keeper.Text.Laws.{text_eq_sound}
use kube_image_keeper.Errors.{Result, ok, >>=-eq-ok, ok-injective}
use kube_image_keeper.Pods.{StringMap, lookup, insert, keys, Pod}
use kube_image_keeper.Pods.Laws.{lookup-insert_same, lookup-insert_other}
use kube_image_keeper.Filters.{Filter}
use kube_image_keeper.References.{Named, named_text, normalize_and_match}
use kube_image_keeper.Resources.{Time, Mirror, MirrorStatus, MatchingImage}
use kube_image_keeper.Mirroring.Merge.{
  has_image, merge_mirrors, mirrors_of, expected_images, map_values, update_unused_since,
  merge_previous_and_current_matching_images,
}

-- With the one time of each mirror that the status before has.
module _ (time : Text → Option Time) where
  -- A mirror of that name with its time.
  abbrev pub HasDated : List MirrorStatus → Text → Type 0
  HasDated ms n = Any (λ (m : MirrorStatus). (m.image ≡ n) × (m.mirrored_at ≡ time n)) ms

  abbrev pub AllDated : List MirrorStatus → Type 0
  AllDated ms = All (λ m. m.mirrored_at ≡ time m.image) ms

  dated_here :
      (ms : List MirrorStatus) (n : Text) → AllDated ms → has_image ms n ≡ true → HasDated ms n
  dated_here [] n d h = cc
  dated_here (m ∷ ms) n d h = elim (Bool-cases (text_eq m.image n)) [
    | inl q ↦
        let e = text_eq_sound m.image n q in inl (e, subst (λ k. m.mirrored_at ≡ time k) e d.0)
    | inr q ↦ inr (dated_here ms n d.1 (rw q at h))
  ]

  dated_new :
      (current expected : List MirrorStatus) (n : Text)
      → has_image current n ≡ false
      → HasDated expected n
      → HasDated (keep (λ m. not (has_image current m.image)) expected) n
  dated_new current [] n new h = absurd h
  dated_new current (m ∷ expected) n new (inl (e, q)) =
      let new' : has_image current m.image ≡ false =
        subst (λ t. has_image current t ≡ false) (sym e) new in
      rw new' (inl (e, q))
  dated_new current (m ∷ expected) n new (inr h) =
      let rest = dated_new current expected n new h in
      elim (Bool-cases (has_image current m.image)) [ inl k ↦ rw k rest | inr k ↦ rw k (inr rest) ]

  -- The mirrors of both lists are in the merged list, those of the first with the time they have there.
  dated_merge :
      (current expected : List MirrorStatus) (n : Text)
      → AllDated current
      → (has_image current n ≡ true) ⊎ HasDated expected n
      → HasDated (merge_mirrors current expected) n
  unfolding merge_mirrors
  dated_merge current expected n d h = elim (Bool-cases (has_image current n)) [
    | inl q ↦
        Any-append_left (λ (m : MirrorStatus). (m.image ≡ n) × (m.mirrored_at ≡ time n)) current _
          (dated_here current n d q)
    | inr q ↦ elim h [
      | inl k ↦ cc
      | inr k ↦
          Any-append_right (λ (m : MirrorStatus). (m.image ≡ n) × (m.mirrored_at ≡ time n)) current
            _ (dated_new current expected n q k)
    ]
  ]

  -- The entry of the key has the mirror with its time.
  abbrev Knows : StringMap MatchingImage → Text → Text → Type 0
  Knows m key n = HasDated (mirrors_of (lookup key m)) n

  Knows-insert :
      (m : StringMap MatchingImage) (key other n : Text) (img : MatchingImage)
      (old : List MirrorStatus)
      → AllDated old
      → img.mirrors ≡ merge_mirrors old (mirrors_of (lookup key m))
      → Knows m other n
      → Knows (insert key img m) other n
  Knows-insert m key other n img old d e h = elim (Bool-cases (text_eq key other)) [
    | inl q ↦
        let here = subst (λ k. Knows m k n) (sym (text_eq_sound key other q)) h in
        subst (λ k. Knows (insert key img m) k n) (text_eq_sound key other q)
          (rw (lookup-insert_same key img m)
            (rw e (dated_merge old (mirrors_of (lookup key m)) n d (inr here))))
    | inr q ↦ rw (lookup-insert_other key other img m q) h
  ]

  abbrev pub AllImagesDated : List MatchingImage → Type 0
  AllImagesDated status = All (λ (i : MatchingImage). AllDated i.mirrors) status

  module _ (parse_normalized : Text → Result Named) (now : Time) (in_use : StringMap (Unit {0}))
      (f : Filter) where
    Knows-update :
        (imgs : List MatchingImage) (m out : StringMap MatchingImage) (key n : Text)
        → AllImagesDated imgs
        → update_unused_since parse_normalized now in_use f imgs m ≡ ok out
        → Knows m key n
        → Knows out key n
    unfolding update_unused_since
    Knows-update [] m out key n d e h = subst (λ o. Knows o key n) (ok-injective e) h
    Knows-update (img ∷ imgs) m out key n d e h =
        let ((named, matches), q, rest) =
          >>=-eq-ok (normalize_and_match parse_normalized f img.image) e in
        Knows-update imgs _ out key n d.1 rest
          (Knows-insert m (named_text named) key n _ img.mirrors d.0 refl h)

    abbrev KnownIn : StringMap MatchingImage → MatchingImage → Type 0
    KnownIn out img = (key : Text) × ((n : Text) → has_image img.mirrors n ≡ true → Knows out key n)

    update_unused_since-KnownIn :
        (imgs : List MatchingImage) (m out : StringMap MatchingImage)
        → AllImagesDated imgs
        → update_unused_since parse_normalized now in_use f imgs m ≡ ok out
        → All (KnownIn out) imgs
    unfolding update_unused_since
    update_unused_since-KnownIn [] m out d e = tt
    update_unused_since-KnownIn (img ∷ imgs) m out d e =
        let ((named, matches), q, rest) =
          >>=-eq-ok (normalize_and_match parse_normalized f img.image) e in
        let key = named_text named in
        (
          (
            key,
            λ n h. Knows-update imgs _ out key n d.1 rest (
                rw (lookup-insert_same key _ m)
                  (dated_merge img.mirrors (mirrors_of (lookup key m)) n d.0 (inl h))),
          ),
          update_unused_since-KnownIn imgs _ out d.1 rest,
        )

  Knows-map_values :
      (m : StringMap MatchingImage) (key n : Text)
      → Knows m key n
      → Any (λ i. HasDated i.mirrors n) (map_values m)
  unfolding lookup
  Knows-map_values [] key n h = absurd h
  Knows-map_values ((j, i) ∷ m) key n h = elim (Bool-cases (text_eq j key)) [
    | inl q ↦ inl (rw q at h)
    | inr q ↦ inr (Knows-map_values m key n (rw q at h))
  ]

  -- For each mirror of the image the list has an image with a mirror of that name and with its time.
  abbrev pub IsRemembered : List MatchingImage → MatchingImage → Type 0
  IsRemembered out img =
      (n : Text)
      → has_image img.mirrors n ≡ true
      → Any (λ (i : MatchingImage). HasDated i.mirrors n) out

  -- Where the iteration over the map leaves out none of its values, and the mirrors of the status before
  -- that have the same name have the same time of writing, no mirror of the status before is forgotten:
  -- each one stands in the merged status with its time of writing, in use or not, so that the clean-up
  -- still knows that it was written.
  pub merge_previous_and_current_matching_images-IsRemembered :
      (parse_normalized : Text → Result Named)
      (range_order : List MatchingImage → List MatchingImage) (now : Time)
      (in_use : StringMap (Unit {0})) (f : Filter) (mirrors : List Mirror)
      (by_image : StringMap Pod) (status out : List MatchingImage)
      → ((P : MatchingImage → Type 0) (is : List MatchingImage) → Any P is → Any P (range_order is))
      → AllImagesDated status
      → merge_previous_and_current_matching_images parse_normalized range_order now in_use f mirrors
          by_image status
        ≡ ok out
      → All (IsRemembered out) status
  unfolding merge_previous_and_current_matching_images
  merge_previous_and_current_matching_images-IsRemembered pn range_order now in_use f mirrors
        by_image status out yields dated e =
      let (m, q, last) =
        >>=-eq-ok
          (update_unused_since pn now in_use f status (expected_images mirrors (keys by_image) []))
          e in
      All-imp (KnownIn pn now in_use f m) {Q = IsRemembered out}
        (λ img (key, knows) n h.
          subst (λ o. Any (λ (i : MatchingImage). HasDated i.mirrors n) o) (ok-injective last)
            (yields (λ i. HasDated i.mirrors n) (map_values m)
              (Knows-map_values m key n (knows n h))))
        status (update_unused_since-KnownIn pn now in_use f status _ m dated q)
