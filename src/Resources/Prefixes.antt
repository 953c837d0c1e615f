-- ===== src/Resources/Prefixes.antt =====
-- Which mirror's secret GetCredentialSecretForImage chooses.
use kube_image_keeper.Prelude.{
  ◌≡◌, refl, ℕ, ◌≤◌, ◌<◌, true, List, [], ◌∷◌, Option, none, length, ltb, ◌&&◌, ◌⊎◌, inl, inr, Any,
  All, Bool-cases, arith,
}
use kube_image_keeper.Text.{Text, has_prefix}
use kube_image_keeper.Resources.{
  CredentialSecret, Mirror, prefix, credential_loop, get_credential_secret_for_image,
}

abbrev pub Covers : Text → Mirror → Type 0
Covers image m = has_prefix image (prefix m) ≡ true

-- No mirror of the list that covers the image has a prefix longer than this.
abbrev pub AtMost : Text → ℕ → List Mirror → Type 0
AtMost image n ms = All (λ m. Covers image m → length (prefix m) ≤ n) ms

-- A mirror of the list that covers the image, with the longest prefix of these.
pub record IsLongest (image : Text) (ms : List Mirror) (m : Mirror) : Type 0 where
  pub listed : Any (λ k. k ≡ m) ms
  pub covers : Covers image m
  pub longest : AtMost image (length (prefix m)) ms

AtMost-mono :
    (image : Text) (n k : ℕ) (ms : List Mirror) → n ≤ k → AtMost image n ms → AtMost image k ms
AtMost-mono image n k [] h a = tt
AtMost-mono image n k (m ∷ ms) h a =
    ((λ c. let q = a.0 c in omega arith), AtMost-mono image n k ms h a.1)

-- The loop keeps what it has, or finds a longest prefix that is longer.
abbrev pub LoopResult :
    Text → List Mirror → Option CredentialSecret → ℕ → Option CredentialSecret → Type 0
LoopResult image ms cred n r =
    (AtMost image n ms × (r ≡ cred))
    ⊎ ((m : Mirror) × IsLongest image ms m × (n < length (prefix m)) × (r ≡ m.credential_secret))

credential_loop-LoopResult :
    (ms : List Mirror) (image : Text) (cred : Option CredentialSecret) (n : ℕ)
    → LoopResult image ms cred n (credential_loop ms image cred n)
unfolding credential_loop
credential_loop-LoopResult [] image cred n = inl (tt, refl)
credential_loop-LoopResult (m ∷ ms) image cred n =
    elim (Bool-cases (has_prefix image (prefix m) && ltb n (length (prefix m)))) [
      | inl q ↦
          let c : Covers image m = ground (arith, q) in
          let l : n < length (prefix m) = ground (arith, q) in
          rw q (elim (credential_loop-LoopResult ms image m.credential_secret (length (prefix m))) [
            | inl (a, e) ↦ inr (
              m,
              record { listed = inl refl; covers = c; longest = ((λ z. omega arith), a) },
              l,
              e,
            )
            | inr (k, b, l', e) ↦ inr (
              k,
              record {
                listed = inr b.listed;
                covers = b.covers;
                longest = ((λ z. omega (arith, l')), b.longest);
              },
              omega (arith, l, l'),
              e,
            )
          ])
      | inr q ↦
          let short : Covers image m → length (prefix m) ≤ n = λ c. ground (arith, q, c) in
          rw q (elim (credential_loop-LoopResult ms image cred n) [
            | inl (a, e) ↦ inl ((short, a), e)
            | inr (k, b, l', e) ↦ inr (
              k,
              record {
                listed = inr b.listed;
                covers = b.covers;
                longest = ((λ z. let s = short z in omega (arith, l')), b.longest);
              },
              l',
              e,
            )
          ])
    ]

-- The secret is that of a mirror which covers the image with the longest prefix; there is none where
-- no mirror with a prefix that is not empty covers it.
pub get_credential_secret_for_image-IsLongest :
    (ms : List Mirror) (image : Text)
    → (AtMost image 0 ms × (get_credential_secret_for_image ms image ≡ none))
      ⊎ ((m : Mirror) × IsLongest image ms m
          × (get_credential_secret_for_image ms image ≡ m.credential_secret))
unfolding get_credential_secret_for_image
get_credential_secret_for_image-IsLongest ms image =
    elim (credential_loop-LoopResult ms image none 0) [
      | inl h ↦ inl h
      | inr (m, b, l, e) ↦ inr (m, b, e)
    ]
