-- ===== src/Registry/Attempts.antt =====
-- Which keychains a request tries, and what its error says.
use mathlib.Core.List.{append_assoc}
use kube_image_keeper.Prelude.{
  ◌≡◌, refl, sym, ap, ◌∙◌, ◌⊎◌, ℕ, List, [], ◌∷◌, ◌++◌, Option, none, some, Option-cases, inl, inr,
  subst,
}
use kube_image_keeper.Text.{Text}
use kube_image_keeper.Errors.{Error, Result, ok, err, Result-cases}
use kube_image_keeper.Effects.{Eff}
use kube_image_keeper.Webhook.Alternatives.{Secret}
use kube_image_keeper.Registry.Client.{
  as_transport, Reference, Remote, join_with, try_keychains, get_keychains, with_keychains, execute,
}

-- The first code of two.
abbrev pub first_of : Option ℕ → Option ℕ → Option ℕ
first_of none m = m
first_of (some n) m = some n

pub first_code : List Error → Option ℕ
unfolding as_transport
first_code [] = none
first_code (e ∷ es) = first_of (as_transport e) (first_code es)

as_transport-join_with :
    (es : List Error) (e : Error) → as_transport (join_with es e) ≡ first_code (es ++ e ∷ [])
unfolding join_with first_code as_transport
as_transport-join_with [] e = elim (Option-cases (as_transport e)) [
  | inl q ↦ rw q refl
  | inr (n, q) ↦ rw q refl
]
as_transport-join_with (x ∷ xs) e = elim (Option-cases (as_transport x)) [
  | inl q ↦ rw q (as_transport-join_with xs e)
  | inr (n, q) ↦ rw q refl
]

module _ {W K A : Type 0} (action : K → Eff W A) where
  -- Each keychain fails, in the world that the ones before it leave, with these errors.
  abbrev pub Fails : List K → List Error → W → Type 0
  Fails [] [] w = Unit
  Fails [] (e ∷ es) w = ⊥
  Fails (k ∷ ks) [] w = ⊥
  Fails (k ∷ ks) (e ∷ es) w = ((action k w).0 ≡ err e) × Fails ks es (action k w).1

  -- The first keychain that does not fail ends with this value.
  abbrev pub Succeeds : List K → A → W → Type 0
  Succeeds [] a w = ⊥
  Succeeds (k ∷ ks) a w =
      ((action k w).0 ≡ ok a)
      ⊎ ((e : Error) × ((action k w).0 ≡ err e) × Succeeds ks a (action k w).1)

  -- What a result says of the keychains.
  abbrev pub Reflects : List K → W → Result A → Type 0
  Reflects ks w (ok a) = Succeeds ks a w
  Reflects ks w (err e) = (es : List Error) × Fails ks es w × (as_transport e ≡ first_code es)

  -- The same, for errors that were there before.
  abbrev ReflectsAfter : List Error → List K → W → Result A → Type 0
  ReflectsAfter errs ks w (ok a) = Succeeds ks a w
  ReflectsAfter errs ks w (err e) =
      (es : List Error) × Fails ks es w × (as_transport e ≡ first_code (errs ++ es))

  after_failure :
      (errs : List Error) (x : Error) (k : K) (ks : List K) (w : W) (r : Result A)
      → (action k w).0 ≡ err x
      → ReflectsAfter (errs ++ x ∷ []) ks (action k w).1 r
      → ReflectsAfter errs (k ∷ ks) w r
  after_failure errs x k ks w (ok a) h s = inr (x, h, s)
  after_failure errs x k ks w (err e) h (es, f, c) =
      (x ∷ es, (h, f), c ∙ ap first_code (append_assoc errs (x ∷ []) es))

  try_keychains-ok :
      (errs : List Error) (k : K) (ks : List K) (w : W) (a : A)
      → (action k w).0 ≡ ok a
      → (try_keychains action errs k ks w).0 ≡ ok a
  unfolding try_keychains
  try_keychains-ok errs k [] w a h = rw h refl
  try_keychains-ok errs k (k' ∷ ks) w a h = rw h refl

  try_keychains-last :
      (errs : List Error) (k : K) (w : W) (e : Error)
      → (action k w).0 ≡ err e
      → (try_keychains action errs k [] w).0 ≡ err (join_with errs e)
  unfolding try_keychains
  try_keychains-last errs k w e h = rw h refl

  try_keychains-next :
      (errs : List Error) (k k' : K) (ks : List K) (w : W) (e : Error)
      → (action k w).0 ≡ err e
      → try_keychains action errs k (k' ∷ ks) w
        ≡ try_keychains action (errs ++ e ∷ []) k' ks (action k w).1
  unfolding try_keychains
  try_keychains-next errs k k' ks w e h = rw h refl

  try_keychains-ReflectsAfter :
      (errs : List Error) (k : K) (ks : List K) (w : W)
      → ReflectsAfter errs (k ∷ ks) w (try_keychains action errs k ks w).0
  try_keychains-ReflectsAfter errs k [] w = elim (Result-cases (action k w).0) [
    | inl (a, q) ↦
        subst (λ r. ReflectsAfter errs (k ∷ []) w r) (sym (try_keychains-ok errs k [] w a q))
          (inl q)
    | inr (e, q) ↦
        subst (λ r. ReflectsAfter errs (k ∷ []) w r) (sym (try_keychains-last errs k w e q))
          (e ∷ [], (q, tt), as_transport-join_with errs e)
  ]
  try_keychains-ReflectsAfter errs k (k' ∷ ks) w = elim (Result-cases (action k w).0) [
    | inl (a, q) ↦
        subst (λ r. ReflectsAfter errs (k ∷ k' ∷ ks) w r)
          (sym (try_keychains-ok errs k (k' ∷ ks) w a q)) (inl q)
    | inr (e, q) ↦
        let w' = (action k w).1 in
        subst (λ r. ReflectsAfter errs (k ∷ k' ∷ ks) w r.0)
          (sym (try_keychains-next errs k k' ks w e q))
          (after_failure errs e k (k' ∷ ks) w (try_keychains action (errs ++ e ∷ []) k' ks w').0 q
            (try_keychains-ReflectsAfter (errs ++ e ∷ []) k' ks w'))
  ]

  ReflectsAfter-none :
      (ks : List K) (w : W) (r : Result A) → ReflectsAfter [] ks w r → Reflects ks w r
  ReflectsAfter-none ks w (ok a) h = h
  ReflectsAfter-none ks w (err e) h = h

module _ {W K D A : Type 0} (remote : Remote W K D) (action : Reference → K → Eff W A) where
  -- The keychains of a request, the default one where there is no other.
  abbrev pub tried : List K → List K
  tried [] = remote.default_keychain ∷ []
  tried (k ∷ ks) = k ∷ ks

  with_keychains-Reflects :
      (ref : Reference) (w : W) (ks : List K)
      → Reflects (action ref) (tried ks) w (with_keychains remote (action ref) ks w).0
  unfolding with_keychains
  with_keychains-Reflects ref w [] =
      ReflectsAfter-none (action ref) (remote.default_keychain ∷ []) w _
        (try_keychains-ReflectsAfter (action ref) [] remote.default_keychain [] w)
  with_keychains-Reflects ref w (k ∷ ks) =
      ReflectsAfter-none (action ref) (k ∷ ks) w _
        (try_keychains-ReflectsAfter (action ref) [] k ks w)

  -- A request whose name parses and whose keychains are found tries the keychains in order, the default
  -- one where there is no other, each in the world that the ones before leave. It ends with the value of
  -- the first that does not fail; where all fail, with an error that has the code of the first of their
  -- errors that has one.
  pub execute-Reflects :
      (name : Text) (secrets : List Secret) (w : W) (ks : List K) (ref : Reference)
      → get_keychains remote name secrets ≡ ok ks
      → remote.parse_reference name ≡ ok ref
      → Reflects (action ref) (tried ks) w (execute remote name secrets action w).0
  unfolding execute
  execute-Reflects name secrets w ks ref h k = rw (h, k) (with_keychains-Reflects ref w ks)
