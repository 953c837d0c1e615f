-- ===== src/Webhook/Ranking.antt =====
-- The images of a container, as the code ranks them.
use mathlib.Core.List.{Perm}
use kube_image_keeper.Prelude.{
  ◌≡◌, refl, sym, ap, subst, ◌∙◌, inl, inr, Bool, true, false, List, [], ◌∷◌, ◌++◌, map, keep,
  Bool-cases,
}
use mathlib.Core.List.{append-nil, append_assoc}
use kube_image_keeper.Text.{Text}
use kube_image_keeper.Errors.{Result, ok, >>=-eq-ok, ok-injective}
use kube_image_keeper.Filters.{Regexp, Selector}
use kube_image_keeper.Resources.{ImageSetMirror, ReplicatedImageSet}
use kube_image_keeper.References.{Named}
use kube_image_keeper.Sorting.{not_after, sort_stable}
use kube_image_keeper.Sorting.Laws.{
  IsSorted, sort_stable-IsSorted, sort_stable-perm, sort_stable-keep,
}
use kube_image_keeper.Sorting.Orders.{
  IsOrder, by_ℕ-IsOrder, by_ℤ-IsOrder, or_else-IsOrder, IsOrder-IsTotal,
}
use kube_image_keeper.Webhook.Alternatives.{
  Container, AlternativeImage, PrioritizedAlternative, type_rank, compare_alternatives,
  has_reference, add_alternative, add_alternatives,
}
use kube_image_keeper.Webhook.Candidates.{candidates, build_alternatives_list}

pub compare_alternatives-IsOrder : IsOrder compare_alternatives
unfolding compare_alternatives
compare_alternatives-IsOrder =
    or_else-IsOrder (by_ℤ-IsOrder (λ (a : PrioritizedAlternative). a.cr_priority)) (
      or_else-IsOrder (by_ℕ-IsOrder (λ (a : PrioritizedAlternative). type_rank a.type_order)) (
        or_else-IsOrder (by_ℕ-IsOrder (λ (a : PrioritizedAlternative). a.intra_priority))
          (by_ℕ-IsOrder (λ (a : PrioritizedAlternative). a.declaration_order))))

-- The references that are not among those seen, each at its first place.
abbrev pub distinct : List Text → List Text → List Text
distinct seen [] = []
distinct seen (r ∷ rs) = elim (has_reference seen r) [
  | true ↦ distinct seen rs
  | false ↦ r ∷ distinct (r ∷ seen) rs
]

abbrev pub references : List AlternativeImage → List Text
references = map (λ a. a.reference)

references-append :
    (xs : List AlternativeImage) (a : AlternativeImage)
    → references (xs ++ a ∷ []) ≡ references xs ++ a.reference ∷ []
references-append [] a = refl
references-append (x ∷ xs) a = rw (references-append xs a)

module _ (c : Container) (a : PrioritizedAlternative) where
  abbrev added : Container
  added = add_alternative c a.reference a.credential_secret a.secret_owner

  added_seen : has_reference c.alternatives a.reference ≡ true → added ≡ c
  unfolding add_alternative
  added_seen e = rw (e, add_alternative)

  images-added_new :
      has_reference c.alternatives a.reference ≡ false
      → references added.images ≡ references c.images ++ a.reference ∷ []
  unfolding add_alternative
  images-added_new e = rw (e, add_alternative) (references-append c.images _)

  alternatives-added_new :
      has_reference c.alternatives a.reference ≡ false
      → added.alternatives ≡ a.reference ∷ c.alternatives
  unfolding add_alternative
  alternatives-added_new e = rw (e, add_alternative)

pub references-add_alternatives :
    (as' : List PrioritizedAlternative) (c : Container)
    → references (add_alternatives c as').images
      ≡ references c.images ++ distinct c.alternatives (map (λ a. a.reference) as')
unfolding add_alternatives
references-add_alternatives [] c = sym (append-nil _)
references-add_alternatives (a ∷ as') c =
    elim (Bool-cases (has_reference c.alternatives a.reference)) [
      | inl seen ↦
          rw (seen, distinct)
            (ap (λ d. references (add_alternatives d as').images) (added_seen c a seen)
              ∙ references-add_alternatives as' c)
      | inr new ↦
          rw (new, distinct)
            (references-add_alternatives as' (added c a)
              ∙ rw (images-added_new c a new, alternatives-added_new c a new)
                  (append_assoc (references c.images) (a.reference ∷ []) _))
    ]

-- No reference of `distinct` is among those seen, and none stands in it twice.
abbrev pub Fresh : List Text → List Text → Type 0
Fresh seen [] = Unit
Fresh seen (r ∷ rs) = (has_reference seen r ≡ false) × Fresh (r ∷ seen) rs

pub distinct-Fresh : (seen rs : List Text) → Fresh seen (distinct seen rs)
distinct-Fresh seen [] = tt
distinct-Fresh seen (r ∷ rs) = elim (Bool-cases (has_reference seen r)) [
  | inl h ↦ rw (h, distinct) (distinct-Fresh seen rs)
  | inr h ↦ rw (h, distinct) (h, distinct-Fresh (r ∷ seen) rs)
]

module _ (parse_normalized : Text → Result Named) (compile : Text → Result Regexp)
    (parse : Text → Result Selector) where
  -- The images of the built container are the candidates in ascending order of their key.
  abbrev pub IsRanked :
      List ImageSetMirror → List ReplicatedImageSet → Bool → Container → Container → Type 0
  IsRanked mirrors replicated honor c built =
      (found ranked : List PrioritizedAlternative) × (candidates parse_normalized compile parse
          mirrors replicated honor c.container c.normalized_image
        ≡ ok found)
      × Perm ranked found
      × IsSorted compare_alternatives ranked
      × ((same : PrioritizedAlternative → Bool)
          → ((x y : PrioritizedAlternative)
              → same x ≡ true
              → same y ≡ true
              → not_after compare_alternatives x y ≡ true)
          → keep same ranked ≡ keep same found)
      × (references built.images ≡ distinct [] (map (λ a. a.reference) ranked))
      × Fresh [] (references built.images)

  -- For a container with no images yet: where the list of its alternatives is built, its images refer
  -- to the candidates in ascending order of (CR priority, type, priority in the CR, declaration), each
  -- reference at its first place only, and candidates with equal keys stay in the order found.
  pub build_alternatives_list-IsRanked :
      (mirrors : List ImageSetMirror) (replicated : List ReplicatedImageSet) (honor : Bool)
      (c built : Container)
      → c.images ≡ []
      → c.alternatives ≡ []
      → build_alternatives_list parse_normalized compile parse mirrors replicated honor c ≡ ok built
      → IsRanked mirrors replicated honor c built
  unfolding build_alternatives_list
  build_alternatives_list-IsRanked mirrors replicated honor c built no_images none_seen h =
      let (found, e, last) =
        >>=-eq-ok
          (candidates parse_normalized compile parse mirrors replicated honor c.container
            c.normalized_image)
          h in
      let ranked = sort_stable compare_alternatives found in
      let refs =
        subst (λ (b : Container). references b.images ≡ distinct [] (map (λ a. a.reference) ranked))
          (ok-injective last) (references-add_alternatives ranked c ∙ rw (no_images, none_seen)) in
      (
        found,
        ranked,
        e,
        sort_stable-perm compare_alternatives found,
        sort_stable-IsSorted compare_alternatives (IsOrder-IsTotal compare_alternatives-IsOrder)
            found,
        (λ same eq. sort_stable-keep compare_alternatives same eq found),
        refs,
        rw refs (distinct-Fresh [] (map (λ a. a.reference) ranked)),
      )
