-- ===== src/Effects.antt =====
-- Actions on a world that may fail: the API server, the registries and the clock are what the
-- world is, and each call may change it.
pub mod Laws
use kube_image_keeper.Prelude.{List, [], ◌∷◌}
use kube_image_keeper.Errors.{Error, Result, ok, err}

abbrev pub Eff : Type 0 → Type 0 → Type 0
Eff W A = W → Result A × W

module _ {W A : Type 0} where
  abbrev pub pure : A → Eff W A
  pure a w = (ok a, w)

  abbrev pub raise : Error → Eff W A
  raise e w = (err e, w)

  abbrev pub lift : Result A → Eff W A
  lift r w = (r, w)

module _ {W A B : Type 0} where
  abbrev pub continue : Result A → (A → Eff W B) → Eff W B
  continue (ok a) f w = f a w
  continue (err e) f w = (err e, w)

  infixl 5 ◌>>=◌ ◌>>◌
  abbrev pub ◌>>=◌ : Eff W A → (A → Eff W B) → Eff W B
  ◌>>=◌ m f w = let (r, w') = m w in continue r f w'

  abbrev pub ◌>>◌ : Eff W A → Eff W B → Eff W B
  m >> n = m >>= λ _. n

  -- The result as a value, for code that looks at the error.
  abbrev pub attempt : Eff W A → (Result A → Eff W B) → Eff W B
  attempt m f w = let (r, w') = m w in f r w'

-- Actions one after the other, up to the first that fails.
unfoldable pub run_all : {W : Type 0} → List (Eff W (Unit {0})) → Eff W (Unit {0})
run_all [] = pure tt
run_all (m ∷ ms) = m >> run_all ms
