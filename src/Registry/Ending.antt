-- ===== src/Registry/Ending.antt =====
-- How a request with several keychains ends, and what it keeps of the world.
use kube_image_keeper.Prelude.{◌≡◌, refl, ◌∙◌, ap, inl, inr, List, [], ◌∷◌, ◌++◌}
use kube_image_keeper.Text.{Text}
use kube_image_keeper.Errors.{Error, Result, ok, err, Result-cases}
use kube_image_keeper.Effects.{Eff, lift, raise}
use kube_image_keeper.Effects.Laws.{>>=-ok, Preserves, >>=-Preserves, attempt-Preserves}
use kube_image_keeper.Webhook.Alternatives.{Secret}
use kube_image_keeper.Registry.Client.{
  Reference, Remote, or_next, join_with, try_keychains, get_keychains, with_keychains, execute,
}

-- The keychain with which the action ends with the value, in the world in which the loop ends.
abbrev pub EndsWith : {W K A : Type 0} → (K → Eff W A) → A → W → Type 0
EndsWith {W = W} {K = K} action a w' = (k : K) × (v : W) × (action k v ≡ (ok a, w'))

module _ {W K A : Type 0} (action : K → Eff W A) where
  try_keychains-ends :
      (errs : List Error) (k : K) (ks : List K) (w : W) (a : A)
      → (try_keychains action errs k ks w).0 ≡ ok a
      → EndsWith action a (try_keychains action errs k ks w).1
  unfolding try_keychains or_next
  try_keychains-ends errs k [] w a h = elim (Result-cases (action k w).0) [
    | inl (b, q) ↦ let e = rw q at h in rw q (k, w, ap (λ r. (r, (action k w).1)) (q ∙ e))
    | inr (x, q) ↦ let refused = rw q at h in cc
  ]
  try_keychains-ends errs k (k' ∷ ks) w a h = elim (Result-cases (action k w).0) [
    | inl (b, q) ↦ let e = rw q at h in rw q (k, w, ap (λ r. (r, (action k w).1)) (q ∙ e))
    | inr (x, q) ↦ rw q (try_keychains-ends (errs ++ x ∷ []) k' ks (action k w).1 a (rw q at h))
  ]

  or_next-Preserves :
      (I : W → Type 0) (next : Error → Eff W A)
      → ((e : Error) → Preserves I (next e))
      → (r : Result A) → Preserves I (or_next next r)
  unfolding or_next
  or_next-Preserves I next h (ok a) w i = i
  or_next-Preserves I next h (err e) w i = h e w i

  try_keychains-Preserves :
      (I : W → Type 0) (errs : List Error) (k : K) (ks : List K)
      → ((k : K) → Preserves I (action k))
      → Preserves I (try_keychains action errs k ks)
  unfolding try_keychains
  try_keychains-Preserves I errs k [] h =
      attempt-Preserves I (action k) (or_next (λ e. raise (join_with errs e))) (h k)
        (or_next-Preserves I _ (λ e w i. i))
  try_keychains-Preserves I errs k (k' ∷ ks) h =
      attempt-Preserves I (action k) (or_next (λ e. try_keychains action (errs ++ e ∷ []) k' ks))
        (h k) (or_next-Preserves I _ (λ e. try_keychains-Preserves I (errs ++ e ∷ []) k' ks h))

module _ {W K D A : Type 0} (remote : Remote W K D) where
  with_keychains-ends :
      (action : K → Eff W A) (ks : List K) (w : W) (a : A)
      → (with_keychains remote action ks w).0 ≡ ok a
      → EndsWith action a (with_keychains remote action ks w).1
  unfolding with_keychains
  with_keychains-ends action [] w a h =
      try_keychains-ends action [] remote.default_keychain [] w a h
  with_keychains-ends action (k ∷ ks) w a h = try_keychains-ends action [] k ks w a h

  with_keychains-Preserves :
      (I : W → Type 0) (action : K → Eff W A) (ks : List K)
      → ((k : K) → Preserves I (action k))
      → Preserves I (with_keychains remote action ks)
  unfolding with_keychains
  with_keychains-Preserves I action [] h =
      try_keychains-Preserves action I [] remote.default_keychain [] h
  with_keychains-Preserves I action (k ∷ ks) h = try_keychains-Preserves action I [] k ks h

  module _ (image : Text) (secrets : List Secret) (action : Reference → K → Eff W A) where
    -- A request that ends with a value has a reference, and a keychain with which it ends so.
    pub execute-ends :
        (w : W) (a : A)
        → (execute remote image secrets action w).0 ≡ ok a
        → (ref : Reference) × (remote.parse_reference image ≡ ok ref)
          × EndsWith (action ref) a (execute remote image secrets action w).1
    unfolding execute
    execute-ends w a h =
        let (ks, q, rest) = >>=-ok (lift (get_keychains remote image secrets)) _ w a h in
        let (ref, q', last) = >>=-ok (lift (remote.parse_reference image)) _ w a rest in
        rw (q, q') (ref, refl, with_keychains-ends (action ref) ks w a last)

    pub execute-Preserves :
        (I : W → Type 0)
        → ((ref : Reference) (k : K) → Preserves I (action ref k))
        → Preserves I (execute remote image secrets action)
    unfolding execute
    execute-Preserves I h =
        >>=-Preserves I (lift (get_keychains remote image secrets)) _ (λ w i. i)
          λ ks.
            >>=-Preserves I (lift (remote.parse_reference image)) _ (λ w i. i)
              λ ref. with_keychains-Preserves I (action ref) ks (h ref)
