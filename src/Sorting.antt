-- ===== src/Sorting.antt =====
-- slices.SortStableFunc by its contract: the stable sort by a comparison.
pub mod Laws
pub mod Orders
use kube_image_keeper.Prelude.{List, [], ◌∷◌, Ordering, Bool, true, false, if◌then◌else◌}

-- a comes before b, or they compare equal.
abbrev pub not_after {ℓ} : {A : Type ℓ} → (A → A → Ordering) → A → A → Bool
not_after compare a b = elim (compare a b) [ Ordering.gt ↦ false | _ ↦ true ]

module _ {A : Type 0} (compare : A → A → Ordering) where
  unfoldable pub insert_sorted : A → List A → List A
  insert_sorted x [] = x ∷ []
  insert_sorted x (y ∷ ys) = if not_after compare x y then x ∷ y ∷ ys else y ∷ insert_sorted x ys

  unfoldable pub sort_stable : List A → List A
  unfolding insert_sorted
  sort_stable [] = []
  sort_stable (x ∷ xs) = insert_sorted x (sort_stable xs)
