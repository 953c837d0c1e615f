-- ===== src/Mirroring/Removal.antt =====
-- What cleanupMirror asks of the registry, told by what it returns.
use kube_image_keeper.Prelude.{
  ◌≡◌, refl, sym, ap, subst, ◌⊎◌, inl, inr, Bool, true, false, List, [], ◌∷◌, Option, none, some,
  Option-cases, if◌then◌else◌,
}
use kube_image_keeper.Text.{Text, is_empty}
use kube_image_keeper.Errors.{Error, Result, ok, err}
use kube_image_keeper.Resources.{CredentialSecret, Mirror, get_credential_secret_for_image}
use kube_image_keeper.Webhook.Alternatives.{Secret}
use kube_image_keeper.Mirroring.Images.{
  Kube, get_image_secret_from_mirrors, succeeds, cleanup_mirror,
}

module _ {W D : Type 0} (kube : Kube W D) (namespace : Text) (mirrors : List Mirror) where
  -- The secret that the credentials name, in the namespace of the object if it has one.
  abbrev pub read_secret : CredentialSecret → W → Result Secret × W
  read_secret cred =
      kube.get_secret (if is_empty namespace then cred.namespace else namespace) cred.name

  -- From the first world to the second the registry has deleted the image with the secret of its mirror;
  -- or no mirror that covers the image has a secret, so that nothing is asked of the registry.
  abbrev pub IsRemoved : Text → W → W → Type 0
  IsRemoved image w w' =
      ((get_credential_secret_for_image mirrors image ≡ none) × (w' ≡ w))
      ⊎ ((cred : CredentialSecret) × (secret : Secret) × (v : W) × (get_credential_secret_for_image
              mirrors image
            ≡ some cred)
          × (read_secret cred w ≡ (ok secret, v))
          × (kube.delete_image (secret ∷ []) image v ≡ (ok tt, w')))

  -- The secret could not be read, or the registry has refused to delete the image.
  abbrev pub IsRefused : Text → W → W → Type 0
  IsRefused image w w' =
      (cred : CredentialSecret) × (e : Error) × (get_credential_secret_for_image mirrors image
        ≡ some cred)
      × ((read_secret cred w ≡ (err e, w'))
          ⊎ ((secret : Secret) × (v : W) × (read_secret cred w ≡ (ok secret, v))
              × (kube.delete_image (secret ∷ []) image v ≡ (err e, w'))))

  abbrev answered : Result (Unit {0}) × W → Bool × W
  answered (r, w) = elim r [ ok _ ↦ (true, w) | err _ ↦ (false, w) ]

  -- What a result of cleanupMirror stands for.
  abbrev pub Tells : Text → W → Bool × W → Type 0
  Tells image w (deleted, w') =
      ((deleted ≡ true) × IsRemoved image w w') ⊎ ((deleted ≡ false) × IsRefused image w w')

  -- The end of cleanupMirror.
  abbrev concluded : Text → Result (Option Secret) × W → Bool × W
  concluded image (r, w) = elim r [
    | err _ ↦ (false, w)
    | ok none ↦ (true, w)
    | ok (some secret) ↦ succeeds kube (kube.delete_image (secret ∷ []) image) w
  ]

  no_secret :
      (image : Text) (w : W)
      → get_credential_secret_for_image mirrors image ≡ none
      → get_image_secret_from_mirrors kube image namespace mirrors w ≡ (ok none, w)
  unfolding get_image_secret_from_mirrors
  no_secret image w h = rw (h, get_image_secret_from_mirrors) refl

  without_secret :
      (image : Text) (w : W)
      → get_credential_secret_for_image mirrors image ≡ none
      → cleanup_mirror kube image namespace mirrors w ≡ (true, w)
  unfolding cleanup_mirror
  without_secret image w h = ap (concluded image) (no_secret image w h)

  module _ (image : Text) (w v : W) (cred : CredentialSecret)
      (h : get_credential_secret_for_image mirrors image ≡ some cred) where
    image_secret_unread :
        (e : Error)
        → read_secret cred w ≡ (err e, v)
        → get_image_secret_from_mirrors kube image namespace mirrors w ≡ (err e, v)
    unfolding get_image_secret_from_mirrors
    image_secret_unread e k = rw (h, k, get_image_secret_from_mirrors) refl

    image_secret_read :
        (secret : Secret)
        → read_secret cred w ≡ (ok secret, v)
        → get_image_secret_from_mirrors kube image namespace mirrors w ≡ (ok (some secret), v)
    unfolding get_image_secret_from_mirrors
    image_secret_read secret k = rw (h, k, get_image_secret_from_mirrors) refl

    unread :
        (e : Error)
        → read_secret cred w ≡ (err e, v)
        → cleanup_mirror kube image namespace mirrors w ≡ (false, v)
    unfolding cleanup_mirror
    unread e k = ap (concluded image) (image_secret_unread e k)

    with_secret :
        (secret : Secret)
        → read_secret cred w ≡ (ok secret, v)
        → cleanup_mirror kube image namespace mirrors w
          ≡ succeeds kube (kube.delete_image (secret ∷ []) image) v
    unfolding cleanup_mirror
    with_secret secret k = ap (concluded image) (image_secret_read secret k)

    deleted-Tells :
        (secret : Secret)
        → read_secret cred w ≡ (ok secret, v)
        → (p : Result (Unit {0}) × W) → kube.delete_image (secret ∷ []) image v ≡ p
        → Tells image w (answered p)
    deleted-Tells secret k (ok u, w') q = inl (refl, inr (cred, secret, v, h, k, q))
    deleted-Tells secret k (err e, w') q = inr (refl, (cred, e, h, inr (secret, v, k, q)))

  read-Tells :
      (image : Text) (w : W) (cred : CredentialSecret)
      → get_credential_secret_for_image mirrors image ≡ some cred
      → (p : Result Secret × W) → read_secret cred w ≡ p
      → Tells image w (cleanup_mirror kube image namespace mirrors w)
  unfolding succeeds
  read-Tells image w cred h (err e, v) k =
      subst (Tells image w) (sym (unread image w v cred h e k)) (inr (refl, (cred, e, h, inl k)))
  read-Tells image w cred h (ok secret, v) k =
      subst (Tells image w) (sym (with_secret image w v cred h secret k))
        (deleted-Tells image w v cred h secret k _ refl)

  -- The image is removed where cleanupMirror returns true, and refused where it returns false.
  pub cleanup_mirror-Tells :
      (image : Text) (w : W) → Tells image w (cleanup_mirror kube image namespace mirrors w)
  cleanup_mirror-Tells image w =
      elim (Option-cases (get_credential_secret_for_image mirrors image)) [
        | inl q ↦ subst (Tells image w) (sym (without_secret image w q)) (inl (refl, inl (q, refl)))
        | inr (cred, q) ↦ read-Tells image w cred q _ refl
      ]
