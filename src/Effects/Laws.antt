-- ===== src/Effects/Laws.antt =====
-- What an action returns, and what it leaves as it was, from what its steps do.
use kube_image_keeper.Prelude.{◌≡◌, refl, subst, inl, inr, List, [], ◌∷◌, All}
use kube_image_keeper.Errors.{Result, ok, Result-cases, ok-injective}
use kube_image_keeper.Effects.{Eff, pure, attempt, ◌>>=◌, run_all}

module _ {W A : Type 0} where
  -- Each value that the action ends with satisfies the predicate.
  abbrev pub Returns : (A → Type 0) → Eff W A → Type 0
  Returns P m = (w : W) (a : A) → (m w).0 ≡ ok a → P a

  pub pure-Returns : (P : A → Type 0) {a : A} → P a → Returns P (pure a)
  pure-Returns P p w b h = subst P (ok-injective h) p

  -- The action takes worlds that satisfy the predicate to such worlds.
  abbrev pub Preserves : (W → Type 0) → Eff W A → Type 0
  Preserves I m = (w : W) → I w → I (m w).1

  -- The action ends with a value in every world.
  abbrev pub Succeeds : Eff W A → Type 0
  Succeeds m = (w : W) → (a : A) × ((m w).0 ≡ ok a)

  pub pure-Succeeds : (a : A) → Succeeds (pure a)
  pure-Succeeds a w = (a, refl)

module _ {W A B : Type 0} where
  pub >>=-Succeeds :
      (m : Eff W A) (f : A → Eff W B) → Succeeds m → ((a : A) → Succeeds (f a)) → Succeeds (m >>= f)
  >>=-Succeeds m f h k w = let (a, q) = h w in rw q (k a (m w).1)

  pub >>=-Returns :
      (P : A → Type 0) (Q : B → Type 0) (m : Eff W A) (f : A → Eff W B)
      → Returns P m
      → ((a : A) → P a → Returns Q (f a))
      → Returns Q (m >>= f)
  >>=-Returns P Q m f p q w = elim (Result-cases (m w).0) [
    | inl (a, h) ↦ rw h (q a (p w a h) (m w).1)
    | inr (e, h) ↦ rw h (λ b k. cc)
  ]

  -- Where the rest does not look at the value.
  pub then-Returns :
      (Q : B → Type 0) (m : Eff W A) (f : A → Eff W B)
      → ((a : A) → Returns Q (f a))
      → Returns Q (m >>= f)
  then-Returns Q m f q = >>=-Returns (λ _. Unit {0}) Q m f (λ w a h. tt) (λ a u. q a)

  -- A sequence that ends with a value has a first step that does, and a rest that does.
  pub >>=-ok :
      (m : Eff W A) (f : A → Eff W B) (w : W) (b : B)
      → ((m >>= f) w).0 ≡ ok b
      → (a : A) × ((m w).0 ≡ ok a) × ((f a (m w).1).0 ≡ ok b)
  >>=-ok m f w b = elim (Result-cases (m w).0) [
    | inl (a, q) ↦ rw q (λ h. (a, refl, h))
    | inr (e, q) ↦ rw q (λ h. cc)
  ]

  pub >>=-Preserves :
      (I : W → Type 0) (m : Eff W A) (f : A → Eff W B)
      → Preserves I m
      → ((a : A) → Preserves I (f a))
      → Preserves I (m >>= f)
  >>=-Preserves I m f p q w i = elim (Result-cases (m w).0) [
    | inl (a, h) ↦ rw h (q a (m w).1 (p w i))
    | inr (e, h) ↦ rw h (p w i)
  ]

  pub attempt-Preserves :
      (I : W → Type 0) (m : Eff W A) (f : Result A → Eff W B)
      → Preserves I m
      → ((r : Result A) → Preserves I (f r))
      → Preserves I (attempt m f)
  attempt-Preserves I m f p q w i = q (m w).0 (m w).1 (p w i)

-- Where all actions of a sequence are run, each has ended with a value in some world.
pub run_all-ok :
    {W : Type 0} (ms : List (Eff W (Unit {0}))) (w : W)
    → (run_all ms w).0 ≡ ok tt
    → All (λ m. (v : W) × ((m v).0 ≡ ok tt)) ms
unfolding run_all
run_all-ok [] w h = tt
run_all-ok (m ∷ ms) w h =
    let (u, q, rest) = >>=-ok m (λ _. run_all ms) w tt h in ((w, q), run_all-ok ms (m w).1 rest)
