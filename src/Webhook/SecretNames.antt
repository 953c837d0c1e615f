-- ===== src/Webhook/SecretNames.antt =====
-- The names of the secrets that the webhook copies.
use Prim.Native.Nat.{min}
use kube_image_keeper.Prelude.{
  ◌≡◌, refl, ap, ℕ, zero, suc, ◌+◌, ◌-◌, ◌≤◌, [], ◌∷◌, ◌++◌, length, length-append, arith,
}
use kube_image_keeper.Text.{Text}
use kube_image_keeper.Webhook.Rewrite.{take_bytes, make_secret_name}

length-take_bytes : (n : ℕ) (t : Text) → length (take_bytes n t) ≤ n
unfolding take_bytes
length-take_bytes zero t = omega arith
length-take_bytes (suc n) [] = omega arith
length-take_bytes (suc n) (x ∷ xs) = omega (arith, length-take_bytes n xs)

take_bytes-all : (n : ℕ) (t : Text) → length t ≤ n → take_bytes n t ≡ t
unfolding take_bytes
take_bytes-all zero [] h = refl
take_bytes-all zero (x ∷ xs) h = absurd (omega (arith, h))
take_bytes-all (suc n) [] h = refl
take_bytes-all (suc n) (x ∷ xs) h = ap (λ t. x ∷ t) (take_bytes-all n xs (omega (arith, h)))

-- Where the hash has 16 bytes and the prefix at most 235, the name of a copied secret has at most the 253
-- bytes of a Kubernetes name, and it holds the whole name of the secret where that fits.
pub make_secret_name-length :
    (hash : Text → Text) (prefix name input : Text)
    → length (hash input) ≡ 16
    → length prefix ≤ 235
    → (length (make_secret_name hash prefix name input) ≤ 253)
      × (length prefix + length name ≤ 235
          → make_secret_name hash prefix name input ≡ prefix ++ b'-' ∷ (name ++ b'-' ∷ hash input))
unfolding make_secret_name
make_secret_name-length hash prefix name input h k =
    let n = min (253 - length prefix - 16 - 2) (length name) in
    (
      omega (
        arith,
        length-append prefix (b'-' ∷ (take_bytes n name ++ b'-' ∷ hash input)),
        length-append (take_bytes n name) (b'-' ∷ hash input),
        length-take_bytes n name,
      ),
      λ short.
          ap (λ t. prefix ++ b'-' ∷ (t ++ b'-' ∷ hash input))
            (take_bytes-all n name (omega (arith, short))),
    )
