-- ===== src/Mirroring/Working.antt =====
-- The operations on one image where every call succeeds.
use kube_image_keeper.Prelude.{◌≡◌, refl, true, List, [], ◌∷◌, none, some, Option-cases, inl, inr}
use kube_image_keeper.Text.{Text}
use kube_image_keeper.Effects.{pure, attempt}
use kube_image_keeper.Effects.Laws.{Succeeds, pure-Succeeds, >>=-Succeeds}
use kube_image_keeper.Pods.{StringMap, lookup, Pod}
use kube_image_keeper.Webhook.Alternatives.{Secret}
use kube_image_keeper.Resources.{Mirror, MirrorStatus, get_credential_secret_for_image}
use kube_image_keeper.Mirroring.Images.{
  MirrorObject, Kube, clock, read_secrets, get_pull_secrets_from_pods,
  get_image_secret_from_mirrors, dest_secrets, copy_step, deferred, mirror_image, succeeds,
  cleanup_mirror,
}

-- Each call of the part of a reconciliation that writes the status, cleans up and mirrors ends with a
-- value.
pub record Works {W D : Type 0} (kube : Kube W D) : Type 0 where
  pub get_secret : (namespace name : Text) → Succeeds (kube.get_secret namespace name)
  pub get_descriptor :
      (secrets : List Secret) (image : Text) → Succeeds (kube.get_descriptor secrets image)
  pub copy_image :
      (descriptor : D) (dest : List Secret) (image : Text)
      → Succeeds (kube.copy_image descriptor dest image)
  pub delete_image :
      (secrets : List Secret) (image : Text) → Succeeds (kube.delete_image secrets image)
  pub patch_status : (before after : MirrorObject) → Succeeds (kube.patch_status before after)

module _ {W D : Type 0} (kube : Kube W D) (works : Works kube) where
  clock-Succeeds : Succeeds (clock kube)
  clock-Succeeds w = ((kube.now w).0, refl)

  read_secrets-Succeeds :
      (namespace : Text) (names : List Text) → Succeeds (read_secrets kube namespace names)
  unfolding read_secrets
  read_secrets-Succeeds namespace [] = pure-Succeeds []
  read_secrets-Succeeds namespace (name ∷ names) =
      >>=-Succeeds (kube.get_secret namespace name) _ (works.get_secret namespace name) (λ secret.
        >>=-Succeeds (read_secrets kube namespace names) _ (read_secrets-Succeeds namespace names)
          (λ rest. pure-Succeeds (secret ∷ rest)))

  pull_secrets-Succeeds :
      (pods : StringMap Pod) (image : Text) → Succeeds (get_pull_secrets_from_pods kube pods image)
  unfolding get_pull_secrets_from_pods
  pull_secrets-Succeeds pods image = elim (Option-cases (lookup image pods)) [
    | inl q ↦ rw (q, get_pull_secrets_from_pods) (pure-Succeeds [])
    | inr (pod, q) ↦
        rw (q, get_pull_secrets_from_pods)
          (read_secrets-Succeeds pod.namespace pod.image_pull_secrets)
  ]

  module _ (namespace : Text) (mirrors : List Mirror) where
    image_secret-Succeeds :
        (image : Text) → Succeeds (get_image_secret_from_mirrors kube image namespace mirrors)
    unfolding get_image_secret_from_mirrors
    image_secret-Succeeds image =
        elim (Option-cases (get_credential_secret_for_image mirrors image)) [
          | inl q ↦ rw (q, get_image_secret_from_mirrors) (pure-Succeeds none)
          | inr (cred, q) ↦
              rw (q, get_image_secret_from_mirrors)
                (>>=-Succeeds (kube.get_secret _ cred.name) _ (works.get_secret _ cred.name)
                  (λ secret. pure-Succeeds (some secret)))
        ]

    copy_step-Succeeds :
        (src dest : List Secret) (source : Text) (to : MirrorStatus)
        → Succeeds (copy_step kube src dest source to)
    unfolding copy_step
    copy_step-Succeeds src dest source to =
        >>=-Succeeds (kube.get_descriptor src source) _ (works.get_descriptor src source) (λ d.
          >>=-Succeeds (kube.copy_image d dest to.image) _ (works.copy_image d dest to.image) (λ _.
            >>=-Succeeds (clock kube) (λ t. pure (record to { mirrored_at = some t }))
              clock-Succeeds (λ t. pure-Succeeds (record to { mirrored_at = some t }))))

    copied-Succeeds :
        (src dest : List Secret) (source : Text) (to : MirrorStatus)
        → Succeeds (attempt (copy_step kube src dest source to) (deferred kube dest to))
    unfolding deferred
    copied-Succeeds src dest source to w =
        let (done, q) = copy_step-Succeeds src dest source to w in rw (q, deferred) (done, refl)

    pub mirror_image-Succeeds :
        (pods : StringMap Pod) (source : Text) (to : MirrorStatus)
        → Succeeds (mirror_image kube namespace mirrors pods source to)
    unfolding mirror_image
    mirror_image-Succeeds pods source to =
        >>=-Succeeds (get_pull_secrets_from_pods kube pods source) _
          (pull_secrets-Succeeds pods source)
          (λ src.
            >>=-Succeeds (get_image_secret_from_mirrors kube to.image namespace mirrors) _
              (image_secret-Succeeds to.image)
              (λ secret. copied-Succeeds src (dest_secrets secret) source to))

    pub cleanup_mirror-true :
        (image : Text) (w : W) → (cleanup_mirror kube image namespace mirrors w).0 ≡ true
    unfolding cleanup_mirror succeeds
    cleanup_mirror-true image w =
        let (secret, q) = image_secret-Succeeds image w in
        let w' = (get_image_secret_from_mirrors kube image namespace mirrors w).1 in
        elim (Option-cases secret) [
          | inl n ↦ rw (q, cleanup_mirror, n) refl
          | inr (s, n) ↦
              let (u, deleted) = works.delete_image (s ∷ []) image w' in
              rw (q, cleanup_mirror, n) (rw (deleted, succeeds) refl)
        ]
