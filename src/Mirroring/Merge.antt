-- ===== src/Mirroring/Merge.antt =====
-- mergePreviousAndCurrentMatchingImages: the status that the pods ask for, merged with the one before.
use kube_image_keeper.Prelude.{
  ◌*◌, ◌^◌, Bool, true, not, List, [], ◌∷◌, ◌++◌, map, Option, none, some, contains_func, keep,
  is_some, if◌then◌else◌, ◌==◌,
}
use kube_image_keeper.Text.{Text, text_eq, slash, split_first, path_join}
use kube_image_keeper.Errors.{Result, ok, ◌>>=◌}
use kube_image_keeper.Pods.{StringMap, lookup, insert, keys, Pod}
use kube_image_keeper.Filters.{Filter}
use kube_image_keeper.Resources.{Time, Mirror, MirrorStatus, MatchingImage}
use kube_image_keeper.References.{Named, named_text, normalize_and_match}

abbrev pub has_image : List MirrorStatus → Text → Bool
has_image mirrors image = contains_func mirrors (λ m. text_eq m.image image)

-- mergeMirrors: the set of current images is not extended in the loop.
unfoldable pub merge_mirrors : List MirrorStatus → List MirrorStatus → List MirrorStatus
unfolding text_eq
merge_mirrors current expected = current ++ keep (λ m. not (has_image current m.image)) expected

-- time.Time{}.Add(time.Hour)
abbrev pub instant_expiry_marker : Time
instant_expiry_marker = 3600 * 10 ^ 9

-- t.IsZero(): nil or the zero time
abbrev pub is_zero : Option Time → Bool
is_zero none = true
is_zero (some t) = t == 0

-- The new unusedSince of an image.
unfoldable pub unused_since : Time → Bool → Bool → Option Time → Option Time
unused_since now matches in_use since =
    if not matches
    then some instant_expiry_marker
    else if in_use
    then none
    else if is_zero since
    then some now
    else since

abbrev pub mirrors_of : Option MatchingImage → List MirrorStatus
mirrors_of none = []
mirrors_of (some m) = m.mirrors

-- The part of a normalised reference behind its first slash; there is one.
after_slash : Text → Text
unfolding split_first
after_slash t = elim (split_first slash t).1 [ none ↦ [] | some rest ↦ rest ]

-- What a new matching image looks like.
unfoldable pub expected_image : List Mirror → Text → MatchingImage
unfolding after_slash path_join
expected_image mirrors image = record {
  image = image;
  mirrors =
      map
        (λ (m : Mirror). record {
          image = path_join (m.registry ∷ m.path ∷ after_slash image ∷ []);
          mirrored_at = none;
          last_error = [];
        })
        mirrors;
  unused_since = none;
}

unfoldable pub expected_images :
    List Mirror → List Text → StringMap MatchingImage → StringMap MatchingImage
unfolding expected_image insert
expected_images mirrors [] m = m
expected_images mirrors (i ∷ is) m =
    expected_images mirrors is (insert i (expected_image mirrors i) m)

abbrev pub map_values {ℓ} : {V : Type ℓ} → StringMap V → List V
map_values [] = []
map_values ((k, v) ∷ m) = v ∷ map_values m

module _ (parse_normalized : Text → Result Named) where
  -- updateUnusedSince; the clock is read once.
  unfoldable pub update_unused_since :
      Time
      → StringMap (Unit {0})
      → Filter
      → List MatchingImage
      → StringMap MatchingImage
      → Result (StringMap MatchingImage)
  unfolding normalize_and_match lookup insert merge_mirrors unused_since
  update_unused_since now in_use f [] m = ok m
  update_unused_since now in_use f (img ∷ imgs) m = do
    (named, matches) ← normalize_and_match parse_normalized f img.image
    let key = named_text named
    let img' = record img {
      unused_since = unused_since now matches (is_some (lookup key in_use)) img.unused_since;
      mirrors = merge_mirrors img.mirrors (mirrors_of (lookup key m));
    }
    update_unused_since now in_use f imgs (insert key img' m)

  -- The new status images; `range_order` is the order in which the map is iterated.
  unfoldable pub merge_previous_and_current_matching_images :
      (List MatchingImage → List MatchingImage)
      → Time
      → StringMap (Unit {0})
      → Filter
      → List Mirror
      → StringMap Pod
      → List MatchingImage
      → Result (List MatchingImage)
  unfolding update_unused_since expected_images keys
  merge_previous_and_current_matching_images range_order now in_use f mirrors pods_by_image status =
      do
        m ←
            update_unused_since now in_use f status
              (expected_images mirrors (keys pods_by_image) [])
        ok (range_order (map_values m))
