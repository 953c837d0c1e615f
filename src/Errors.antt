-- ===== src/Errors.antt =====
-- Go errors as far as the program looks at them: their text, the status code that `errors.As` finds in
-- a registry transport error, and the two API errors that are told apart.
use kube_image_keeper.Prelude.{
  ◌≡◌, refl, ◌⊎◌, inl, inr, ℕ, Bool, true, false, List, [], ◌∷◌, ◌++◌, Option, none, some,
}
use kube_image_keeper.Text.{Text, codes}

pub data Error : Type 0 where
  message not_found conflict : Text → Error
  transport : ℕ → Text → Error
  -- fmt.Errorf("text: %w", err)
  wrap : Text → Error → Error
  -- errors.Join of two or more errors
  joined : Error → Error → Error

pub data Result {ℓ} (A : Type ℓ) : Type ℓ where
  ok : A → Result A
  err : Error → Result A

infixl 5 ◌>>=◌
abbrev pub ◌>>=◌ {ℓ κ} : {A : Type ℓ} {B : Type κ} → Result A → (A → Result B) → Result B
ok a >>= f = f a
err e >>= f = err e

-- err.Error()
unfoldable pub error_text : Error → Text
error_text (message t) = t
error_text (not_found t) = t
error_text (conflict t) = t
error_text (transport n t) = t
error_text (wrap t e) = t ++ codes ": " ++ error_text e
error_text (joined e f) = error_text e ++ 10 ∷ error_text f

-- errors.Join: nil where there is no error
unfoldable pub join_errors : List Error → Option Error
join_errors [] = none
join_errors (e ∷ []) = some e
join_errors (e ∷ f ∷ es) = elim (join_errors (f ∷ es)) [
  | none ↦ some e
  | some j ↦ some (joined e j)
]

-- apierrors.IsNotFound
abbrev pub is_not_found : Error → Bool
is_not_found (not_found _) = true
is_not_found (wrap _ e) = is_not_found e
is_not_found _ = false

-- A chain that succeeds has a first step that succeeds, and a rest that does.
pub >>=-eq-ok {ℓ κ} :
    {A : Type ℓ} {B : Type κ} {b : B} {rest : A → Result B} (first : Result A)
    → (first >>= rest) ≡ ok b
    → (a : A) × (first ≡ ok a) × (rest a ≡ ok b)
>>=-eq-ok (err e) whole = cc
>>=-eq-ok (ok a) whole = (a, refl, whole)

pub Result-cases {ℓ} :
    {A : Type ℓ} (r : Result A) → ((a : A) × (r ≡ ok a)) ⊎ ((e : Error) × (r ≡ err e))
Result-cases (ok a) = inl (a, refl)
Result-cases (err e) = inr (e, refl)

pub ok-injective {ℓ} : {A : Type ℓ} {a b : A} → ok a ≡ ok b → a ≡ b
ok-injective h = cc
