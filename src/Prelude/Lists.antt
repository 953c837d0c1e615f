-- ===== src/Prelude/Lists.antt =====
-- Lists measured by native numbers, and Go's `slices` functions that take a Boolean test.
use Prim.Native.Nat.{ℕ, zero, suc, ◌+◌}
use mathlib.Core.Path.{◌≡◌, refl, sym, ap, ◌∙◌, subst}
use mathlib.Core.Bool.{Bool, true, false, ◌||◌}
use mathlib.Core.List.{List, [], ◌∷◌, ◌++◌, map}
use mathlib.Core.Option.{Option, none, some}
use mathlib.Core.Logic.{◌⊎◌, inl, inr}
use native.Mathlib.Omega.{arith}
use kube_image_keeper.Prelude.Tests.{if◌then◌else◌, Bool-cases}

module _ {ℓ} {A : Type ℓ} where
  abbrev pub length : List A → ℕ
  length [] = 0
  length (x ∷ xs) = suc (length xs)

  abbrev pub get_elem? : List A → ℕ → Option A
  get_elem? [] i = none
  get_elem? (x ∷ xs) zero = some x
  get_elem? (x ∷ xs) (suc i) = get_elem? xs i

  -- slices.ContainsFunc
  abbrev pub contains_func : List A → (A → Bool) → Bool
  contains_func [] p = false
  contains_func (x ∷ xs) p = p x || contains_func xs p

  -- The elements that pass the test, in order.
  abbrev pub keep : (A → Bool) → List A → List A
  keep p [] = []
  keep p (x ∷ xs) = let rest = keep p xs in if p x then x ∷ rest else rest

  -- slices.DeleteFunc
  abbrev pub delete_func : List A → (A → Bool) → List A
  delete_func [] p = []
  delete_func (x ∷ xs) p = let rest = delete_func xs p in if p x then rest else x ∷ rest

  -- Every element satisfies the predicate.
  abbrev pub All {κ} : (A → Type κ) → List A → Type κ
  All P [] = Unit
  All P (x ∷ xs) = P x × All P xs

  -- Some element satisfies the predicate, and which one.
  abbrev pub Any : (A → Type 0) → List A → Type 0
  Any P [] = ⊥
  Any P (x ∷ xs) = P x ⊎ Any P xs

  pub length-append : (xs ys : List A) → length (xs ++ ys) ≡ length xs + length ys
  length-append [] ys = omega arith
  length-append (x ∷ xs) ys = omega (arith, length-append xs ys)

  pub keep-append : (p : A → Bool) (xs ys : List A) → keep p (xs ++ ys) ≡ keep p xs ++ keep p ys
  keep-append p [] ys = refl
  keep-append p (x ∷ xs) ys = ground (arith, keep-append p xs ys)

module _ {A : Type 0} (P : A → Type 0) where
  pub All-append : (xs ys : List A) → All P xs → All P ys → All P (xs ++ ys)
  All-append [] ys h k = k
  All-append (x ∷ xs) ys h k = (h.0, All-append xs ys h.1 k)

  pub Any-append_right : (xs ys : List A) → Any P ys → Any P (xs ++ ys)
  Any-append_right [] ys h = h
  Any-append_right (x ∷ xs) ys h = inr (Any-append_right xs ys h)

  pub Any-append_left : (xs ys : List A) → Any P xs → Any P (xs ++ ys)
  Any-append_left [] ys h = absurd h
  Any-append_left (x ∷ xs) ys (inl h) = inl h
  Any-append_left (x ∷ xs) ys (inr h) = inr (Any-append_left xs ys h)

  pub All-imp : {Q : A → Type 0} → ((a : A) → P a → Q a) → (xs : List A) → All P xs → All Q xs
  All-imp f [] h = tt
  All-imp {Q = Q} f (x ∷ xs) h = (f x h.0, All-imp {Q = Q} f xs h.1)

  -- What holds of all elements holds of one of them.
  pub All-at : {a : A} (xs : List A) → All P xs → Any (λ x. x ≡ a) xs → P a
  All-at [] h m = absurd m
  All-at (x ∷ xs) h (inl e) = subst P e h.0
  All-at (x ∷ xs) h (inr m) = All-at xs h.1 m

pub length-map {ℓ κ} :
    {A : Type ℓ} {B : Type κ} (f : A → B) (xs : List A) → length (map f xs) ≡ length xs
length-map f [] = refl
length-map f (x ∷ xs) = ap suc (length-map f xs)

module _ {A : Type 0} (p : A → Bool) where
  pub delete_func-append :
      (xs ys : List A) → delete_func (xs ++ ys) p ≡ delete_func xs p ++ delete_func ys p
  delete_func-append [] ys = refl
  delete_func-append (x ∷ xs) ys = elim (Bool-cases (p x)) [
    | inl q ↦ rw q (delete_func-append xs ys)
    | inr q ↦ rw q (ap (λ l. x ∷ l) (delete_func-append xs ys))
  ]

  -- An element that fails the test stays.
  pub Any-delete_func :
      (a : A) (xs : List A)
      → p a ≡ false
      → Any (λ x. x ≡ a) xs
      → Any (λ x. x ≡ a) (delete_func xs p)
  Any-delete_func a [] h m = absurd m
  Any-delete_func a (x ∷ xs) h (inl e) = let stays : p x ≡ false = ap p e ∙ h in rw stays (inl e)
  Any-delete_func a (x ∷ xs) h (inr m) = elim (Bool-cases (p x)) [
    | inl q ↦ rw q (Any-delete_func a xs h m)
    | inr q ↦ rw q (inr (Any-delete_func a xs h m))
  ]

  -- An element that passes it does not count.
  pub delete_func-dropped :
      (before after : List A) (a : A)
      → p a ≡ true
      → delete_func (before ++ a ∷ after) p ≡ delete_func (before ++ after) p
  delete_func-dropped before after a h =
      delete_func-append before (a ∷ after) ∙ rw h (sym (delete_func-append before after))

  pub delete_func-kept :
      (before after : List A) (a : A)
      → p a ≡ false
      → delete_func (before ++ a ∷ after) p ≡ delete_func before p ++ a ∷ delete_func after p
  delete_func-kept before after a h = delete_func-append before (a ∷ after) ∙ rw h refl
