-- ===== src/Mirroring/Wanted.antt =====
-- Which images podsByNormalizedMatchingImages asks to be mirrored.
use kube_image_keeper.Prelude.{
  ◌≡◌, true, false, List, [], ◌∷◌, All, Bool-cases, inl, inr, subst, sym,
}
use kube_image_keeper.Text.{Text, text_eq}
use kube_image_keeper.Text.Laws.{text_eq_sound}
use kube_image_keeper.Errors.{Result}
use kube_image_keeper.Pods.{StringMap, insert, Pod}
use kube_image_keeper.Filters.{Filter, match}
use kube_image_keeper.References.{Named}
use kube_image_keeper.Mirroring.Names.{
  normalized_image_names_from_pod, is_mirrored, match_names, pods_by_normalized_matching_images,
}

-- An entry that is written to a map leaves what holds of the others.
All-insert :
    {V : Type 0} (P : Text × V → Type 0) (k : Text) (v : V) (m : StringMap V)
    → P (k, v)
    → All P m
    → All P (insert k v m)
unfolding insert
All-insert P k v [] p h = (p, tt)
All-insert P k v ((j, u) ∷ m) p h = elim (Bool-cases (text_eq j k)) [
  | inl q ↦ rw q (subst (λ t. P (t, v)) (sym (text_eq_sound j k q)) p, h.1)
  | inr q ↦ rw q (h.0, All-insert P k v m p h.1)
]

module _ (parse_normalized : Text → Result Named) (f : Filter)
    (prefixes : StringMap (List Text)) where
  -- The filter matches the image, and no mirror that is relevant to the namespace holds it.
  abbrev pub IsWanted : Text × Pod → Type 0
  IsWanted (image, pod) =
      (match f image ≡ true) × (is_mirrored parse_normalized prefixes pod.namespace image ≡ false)

  match_names-IsWanted :
      (pod : Pod) (names : List Text) (found : StringMap Pod)
      → All IsWanted found
      → All IsWanted (match_names parse_normalized f prefixes pod names found)
  unfolding match_names
  match_names-IsWanted pod [] found h = h
  match_names-IsWanted pod (n ∷ ns) found h =
      elim (Bool-cases (is_mirrored parse_normalized prefixes pod.namespace n)) [
        | inl q ↦ rw q (match_names-IsWanted pod ns found h)
        | inr q ↦ elim (Bool-cases (match f n)) [
          | inl k ↦
              rw (q, k)
                (match_names-IsWanted pod ns (insert n pod found)
                  (All-insert IsWanted n pod found (k, q) h))
          | inr k ↦ rw (q, k) (match_names-IsWanted pod ns found h)
        ]
      ]

  IsWanted-from :
      (pods : List Pod) (found : StringMap Pod)
      → All IsWanted found
      → All IsWanted (pods_by_normalized_matching_images parse_normalized f prefixes pods found)
  unfolding pods_by_normalized_matching_images
  IsWanted-from [] found h = h
  IsWanted-from (pod ∷ pods) found h =
      IsWanted-from pods
        (match_names parse_normalized f prefixes pod
          (normalized_image_names_from_pod parse_normalized pod) found)
        (match_names-IsWanted pod (normalized_image_names_from_pod parse_normalized pod) found h)

  -- Each image that is asked to be mirrored is one that the filter matches, and lies under no prefix of a
  -- mirror that is relevant to the namespace of the pod it is asked for: mirrors are not mirrored.
  pub pods_by_normalized_matching_images-IsWanted :
      (pods : List Pod)
      → All IsWanted (pods_by_normalized_matching_images parse_normalized f prefixes pods [])
  pods_by_normalized_matching_images-IsWanted pods = IsWanted-from pods [] tt
