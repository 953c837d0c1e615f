-- ===== src/Sorting/Orders.antt =====
-- Comparisons built with cmp.Compare and cmp.Or.
use Prim.Native.Nat.{compare as compare_ℕ}
use kube_image_keeper.Prelude.{◌≡◌, refl, ℕ, Ordering, arith}
use kube_image_keeper.Prelude.Int.{ℤ, compare_ℤ}
use kube_image_keeper.Sorting.Laws.{IsTotal}

abbrev pub flip : Ordering → Ordering
flip Ordering.lt = Ordering.gt
flip Ordering.eq = Ordering.eq
flip Ordering.gt = Ordering.lt

-- cmp.Or of two comparisons: the first that is not 0.
abbrev pub or_else : Ordering → Ordering → Ordering
or_else Ordering.eq d = d
or_else Ordering.lt d = Ordering.lt
or_else Ordering.gt d = Ordering.gt

-- The result of comparing a with c, from those of a with b and of b with c, where these decide it.
abbrev pub Composes : Ordering → Ordering → Ordering → Type 0
Composes Ordering.gt _ r = Unit
Composes Ordering.lt Ordering.gt r = Unit
Composes Ordering.lt _ r = r ≡ Ordering.lt
Composes Ordering.eq q r = r ≡ q

pub record IsOrder {A : Type 0} (c : A → A → Ordering) : Type 0 where
  pub flips : (a b : A) → c b a ≡ flip (c a b)
  pub composes : (x y z : A) → Composes (c x y) (c y z) (c x z)

flip_ℕ : (a b : ℕ) → compare_ℕ b a ≡ flip (compare_ℕ a b)
flip_ℕ a b = ground arith

Composes-ℕ : (a b d : ℕ) → Composes (compare_ℕ a b) (compare_ℕ b d) (compare_ℕ a d)
Composes-ℕ a b d = ground arith

flip_ℤ : (a b : ℤ) → compare_ℤ b a ≡ flip (compare_ℤ a b)
flip_ℤ a b = ground arith

Composes-ℤ : (a b d : ℤ) → Composes (compare_ℤ a b) (compare_ℤ b d) (compare_ℤ a d)
Composes-ℤ a b d = ground arith

module _ {A : Type 0} where
  pub by_ℕ-IsOrder : (f : A → ℕ) → IsOrder (λ (a b : A). compare_ℕ (f a) (f b))
  by_ℕ-IsOrder f = record {
    flips = λ a b. flip_ℕ (f a) (f b);
    composes = λ x y z. Composes-ℕ (f x) (f y) (f z);
  }

  pub by_ℤ-IsOrder : (f : A → ℤ) → IsOrder (λ (a b : A). compare_ℤ (f a) (f b))
  by_ℤ-IsOrder f = record {
    flips = λ a b. flip_ℤ (f a) (f b);
    composes = λ x y z. Composes-ℤ (f x) (f y) (f z);
  }

flip-or_else : (p q : Ordering) → or_else (flip p) (flip q) ≡ flip (or_else p q)
flip-or_else Ordering.lt q = refl
flip-or_else Ordering.eq q = refl
flip-or_else Ordering.gt q = refl

decided : (p' q q' r' : Ordering) → Composes p' q' r' → Composes p' (or_else q q') (or_else q r')
decided p' Ordering.eq q' r' k = k
decided Ordering.lt Ordering.lt q' r' k = refl
decided Ordering.eq Ordering.lt q' r' k = refl
decided Ordering.gt Ordering.lt q' r' k = tt
decided Ordering.lt Ordering.gt q' r' k = tt
decided Ordering.eq Ordering.gt q' r' k = refl
decided Ordering.gt Ordering.gt q' r' k = tt

Composes-or_else :
    (p p' q q' r r' : Ordering)
    → Composes p q r
    → Composes p' q' r'
    → Composes (or_else p p') (or_else q q') (or_else r r')
Composes-or_else Ordering.gt p' q q' r r' h k = tt
Composes-or_else Ordering.lt p' Ordering.gt q' r r' h k = tt
Composes-or_else Ordering.lt p' Ordering.lt q' r r' h k = rw h
Composes-or_else Ordering.lt p' Ordering.eq Ordering.gt r r' h k = tt
Composes-or_else Ordering.lt p' Ordering.eq Ordering.lt r r' h k = rw h
Composes-or_else Ordering.lt p' Ordering.eq Ordering.eq r r' h k = rw h
Composes-or_else Ordering.eq p' q q' r r' h k = rw h (decided p' q q' r' k)

module _ {A : Type 0} {c d : A → A → Ordering} where
  pub or_else-IsOrder : IsOrder c → IsOrder d → IsOrder (λ (a b : A). or_else (c a b) (d a b))
  or_else-IsOrder m n = record {
    flips = λ a b. rw (m.flips a b, n.flips a b) (flip-or_else (c a b) (d a b));
    composes = λ x y z.
        Composes-or_else (c x y) (d x y) (c y z) (d y z) (c x z) (d x z) (m.composes x y z)
          (n.composes x y z);
  }

module _ {A : Type 0} {c : A → A → Ordering} where
  pub IsOrder-IsTotal : IsOrder c → IsTotal c
  IsOrder-IsTotal m = record {
    trans = λ x y z h k. ground (arith, m.composes x y z);
    total = λ a b h. ground (arith, m.flips a b);
  }
