-- ===== src/Sorting/Laws.antt =====
-- The result is sorted, is a permutation, and keeps the order of elements that compare equal.
use mathlib.Core.List.{Perm}
use mathlib.Core.List.Perm
use kube_image_keeper.Prelude.{
  ◌⊎◌, Any, ◌≡◌, refl, ◌∙◌, List, [], ◌∷◌, Ordering, Bool, true, false, arith, All, keep,
  Bool-cases, inl, inr,
}
use kube_image_keeper.Sorting.{not_after, insert_sorted, sort_stable}

-- What the sort needs of the comparison.
pub record IsTotal {A : Type 0} (compare : A → A → Ordering) : Type 0 where
  pub trans :
      (a b c : A)
      → not_after compare a b ≡ true
      → not_after compare b c ≡ true
      → not_after compare a c ≡ true
  pub total : (a b : A) → not_after compare a b ≡ false → not_after compare b a ≡ true

module _ {A : Type 0} (compare : A → A → Ordering) where
  -- Each element is not after any of those behind it.
  abbrev pub IsSorted : List A → Type 0
  IsSorted [] = Unit
  IsSorted (x ∷ xs) = All (λ y. not_after compare x y ≡ true) xs × IsSorted xs

module _ {A : Type 0} (P : A → Type 0) (compare : A → A → Ordering) where
  All-insert_sorted : (x : A) (ys : List A) → P x → All P ys → All P (insert_sorted compare x ys)
  unfolding insert_sorted
  All-insert_sorted x [] p h = (p, tt)
  All-insert_sorted x (y ∷ ys) p h = ground (arith, All-insert_sorted x ys p h.1)

  pub All-sort_stable : (xs : List A) → All P xs → All P (sort_stable compare xs)
  unfolding sort_stable
  All-sort_stable [] h = tt
  All-sort_stable (x ∷ xs) h =
      All-insert_sorted x (sort_stable compare xs) h.0 (All-sort_stable xs h.1)

module _ {A : Type 0} (compare : A → A → Ordering) (t : IsTotal compare) where
  All-trans :
      (x y : A) (ys : List A)
      → not_after compare x y ≡ true
      → All (λ z. not_after compare y z ≡ true) ys
      → All (λ z. not_after compare x z ≡ true) ys
  All-trans x y [] h k = tt
  All-trans x y (z ∷ ys) h k = (t.trans x y z h k.0, All-trans x y ys h k.1)

  insert_sorted-IsSorted :
      (x : A) (ys : List A) → IsSorted compare ys → IsSorted compare (insert_sorted compare x ys)
  unfolding insert_sorted
  insert_sorted-IsSorted x [] s = (tt, tt)
  insert_sorted-IsSorted x (y ∷ ys) s = elim (Bool-cases (not_after compare x y)) [
    | inl h ↦ rw h ((h, All-trans x y ys h s.0), s)
    | inr h ↦ rw h (
      All-insert_sorted (λ z. not_after compare y z ≡ true) compare x ys (t.total x y h) s.0,
      insert_sorted-IsSorted x ys s.1,
    )
  ]

  pub sort_stable-IsSorted : (xs : List A) → IsSorted compare (sort_stable compare xs)
  unfolding sort_stable
  sort_stable-IsSorted [] = tt
  sort_stable-IsSorted (x ∷ xs) =
      insert_sorted-IsSorted x (sort_stable compare xs) (sort_stable-IsSorted xs)

module _ {A : Type 0} (compare : A → A → Ordering) where
  insert_sorted-perm : (x : A) (ys : List A) → Perm (insert_sorted compare x ys) (x ∷ ys)
  unfolding insert_sorted
  insert_sorted-perm x [] = Perm.refl (x ∷ [])
  insert_sorted-perm x (y ∷ ys) = elim (Bool-cases (not_after compare x y)) [
    | inl h ↦ rw h (Perm.refl (x ∷ y ∷ ys))
    | inr h ↦ rw h (Perm.trans (Perm.cons y (insert_sorted-perm x ys)) (Perm.swap x y ys))
  ]

  pub sort_stable-perm : (xs : List A) → Perm (sort_stable compare xs) xs
  unfolding sort_stable
  sort_stable-perm [] = Perm.refl []
  sort_stable-perm (x ∷ xs) =
      Perm.trans (insert_sorted-perm x (sort_stable compare xs)) (Perm.cons x (sort_stable-perm xs))

  -- A class of elements that never come strictly after one another keeps its order.
  insert_sorted-keep :
      (same : A → Bool) (x : A)
      → ((y : A) → same x ≡ true → same y ≡ true → not_after compare x y ≡ true)
      → (ys : List A) → keep same (insert_sorted compare x ys) ≡ keep same (x ∷ ys)
  unfolding insert_sorted
  insert_sorted-keep same x h [] = refl
  insert_sorted-keep same x h (y ∷ ys) = ground (arith, insert_sorted-keep same x h ys, h y)

  pub sort_stable-keep :
      (same : A → Bool)
      → ((x y : A) → same x ≡ true → same y ≡ true → not_after compare x y ≡ true)
      → (xs : List A) → keep same (sort_stable compare xs) ≡ keep same xs
  unfolding sort_stable
  sort_stable-keep same h [] = refl
  sort_stable-keep same h (x ∷ xs) =
      insert_sorted-keep same x (h x) (sort_stable compare xs)
      ∙ ground (arith, sort_stable-keep same h xs)

Any-insert_sorted :
    {A : Type 0} (P : A → Type 0) (c : A → A → Ordering) (x : A) (ys : List A)
    → P x ⊎ Any P ys
    → Any P (insert_sorted c x ys)
unfolding insert_sorted
Any-insert_sorted P c x [] h = h
Any-insert_sorted P c x (y ∷ ys) h = elim (Bool-cases (not_after c x y)) [
  | inl e ↦ rw e h
  | inr e ↦ rw e (elim h [
    | inl p ↦ inr (Any-insert_sorted P c x ys (inl p))
    | inr (inl p) ↦ inl p
    | inr (inr p) ↦ inr (Any-insert_sorted P c x ys (inr p))
  ])
]

pub Any-sort_stable :
    {A : Type 0} (P : A → Type 0) (c : A → A → Ordering) (xs : List A)
    → Any P xs
    → Any P (sort_stable c xs)
unfolding sort_stable
Any-sort_stable P c [] h = h
Any-sort_stable P c (x ∷ xs) (inl p) = Any-insert_sorted P c x (sort_stable c xs) (inl p)
Any-sort_stable P c (x ∷ xs) (inr p) =
    Any-insert_sorted P c x (sort_stable c xs) (inr (Any-sort_stable P c xs p))
