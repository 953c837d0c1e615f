-- ===== src/Mirroring/Kept.antt =====
-- What the mirroring of images keeps of the world, from what its calls keep.
use kube_image_keeper.Prelude.{
  ◌≡◌, refl, sym, subst, Bool, List, [], ◌∷◌, some, is_some, Bool-cases, Option-cases, inl, inr,
  if◌then◌else◌,
}
use kube_image_keeper.Text.{Text, is_empty}
use kube_image_keeper.Errors.{Error, Result, ok, err}
use kube_image_keeper.Effects.{Eff, pure, raise, attempt, ◌>>=◌}
use kube_image_keeper.Effects.Laws.{Preserves, >>=-Preserves, attempt-Preserves}
use kube_image_keeper.Pods.{StringMap, Pod, lookup}
use kube_image_keeper.Resources.{Mirror, MirrorStatus, get_credential_secret_for_image}
use kube_image_keeper.Webhook.Alternatives.{Secret}
use kube_image_keeper.Mirroring.Images.{
  Kube, MirrorObject, clock, read_secrets, get_pull_secrets_from_pods,
  get_image_secret_from_mirrors, dest_secrets, copy_step, deferred, mirror_image,
}
use kube_image_keeper.Mirroring.Loops.{mirror_one, mirror_each}

-- The calls that mirror an image and write the status keep this of the world.
pub record CallsKeep {W D : Type 0} (kube : Kube W D) (I : W → Type 0) : Type 0 where
  pub get_secret : (ns name : Text) → Preserves I (kube.get_secret ns name)
  pub get_descriptor :
      (secrets : List Secret) (image : Text) → Preserves I (kube.get_descriptor secrets image)
  pub copy_image :
      (d : D) (secrets : List Secret) (image : Text) → Preserves I (kube.copy_image d secrets image)
  pub now : (w : W) → I w → I (kube.now w).1
  pub patch_status : (a b : MirrorObject) → Preserves I (kube.patch_status a b)

-- The rest of the deferred function behind an error.
abbrev answered : {W D : Type 0} → Kube W D → MirrorStatus → Error → Result D → Eff W MirrorStatus
answered kube to e r = elim r [
  | ok _ ↦ (do t ← clock kube; pure (record to { mirrored_at = some t }))
  | err _ ↦ raise e
]

-- How the deferred function ends behind an error, by the answer of the registry.
pub deferred-by :
    {W D : Type 0} (kube : Kube W D) (dest : List Secret) (to : MirrorStatus) (e : Error) (w : W)
    (p : Result D × W)
    → kube.get_descriptor dest to.image w ≡ p
    → (Q : Result MirrorStatus × W → Type 0)
    → ((d : D) (v : W)
        → p ≡ (ok d, v)
        → Q (ok (record to { mirrored_at = some (kube.now v).0 }), (kube.now v).1))
    → ((f : Error) (v : W) → p ≡ (err f, v) → Q (err e, v))
    → Q (deferred kube dest to (err e) w)
unfolding deferred
deferred-by kube dest to e w (ok d, v) h Q served failed =
    subst (λ p. Q (attempt (λ _. p) (answered kube to e) w)) (sym h) (served d v refl)
deferred-by kube dest to e w (err f, v) h Q served failed =
    subst (λ p. Q (attempt (λ _. p) (answered kube to e) w)) (sym h) (failed f v refl)

module _ {W D : Type 0} (kube : Kube W D) (I : W → Type 0) (calls : CallsKeep kube I) where
  read_secrets-Preserves :
      (namespace : Text) (names : List Text) → Preserves I (read_secrets kube namespace names)
  unfolding read_secrets
  read_secrets-Preserves namespace [] = λ w i. i
  read_secrets-Preserves namespace (name ∷ names) =
      >>=-Preserves I (kube.get_secret namespace name) _ (calls.get_secret namespace name) λ secret.
        >>=-Preserves I (read_secrets kube namespace names) _
          (read_secrets-Preserves namespace names) λ rest w i. i

  pub pull_secrets-Preserves :
      (pods : StringMap Pod) (image : Text)
      → Preserves I (get_pull_secrets_from_pods kube pods image)
  unfolding get_pull_secrets_from_pods
  pull_secrets-Preserves pods image w i = elim (Option-cases (lookup image pods)) [
    | inl q ↦ rw (q, get_pull_secrets_from_pods) i
    | inr (pod, q) ↦
        rw (q, get_pull_secrets_from_pods)
          (read_secrets-Preserves pod.namespace pod.image_pull_secrets w i)
  ]

  pub image_secret-Preserves :
      (image namespace : Text) (mirrors : List Mirror)
      → Preserves I (get_image_secret_from_mirrors kube image namespace mirrors)
  unfolding get_image_secret_from_mirrors
  image_secret-Preserves image namespace mirrors w i =
      elim (Option-cases (get_credential_secret_for_image mirrors image)) [
        | inl q ↦ rw (q, get_image_secret_from_mirrors) i
        | inr (cred, q) ↦
            let ns = if is_empty namespace then cred.namespace else namespace in
            rw (q, get_image_secret_from_mirrors)
              (>>=-Preserves I (kube.get_secret ns cred.name) (λ s. pure (some s))
                (calls.get_secret ns cred.name) (λ s v j. j) w i)
      ]

  pub copy_step-Preserves :
      (src dest : List Secret) (source : Text) (to : MirrorStatus)
      → Preserves I (copy_step kube src dest source to)
  unfolding copy_step
  copy_step-Preserves src dest source to =
      >>=-Preserves I (kube.get_descriptor src source) _ (calls.get_descriptor src source) λ d.
        >>=-Preserves I (kube.copy_image d dest to.image) _ (calls.copy_image d dest to.image)
          λ u w i. calls.now w i

  pub deferred-Preserves :
      (dest : List Secret) (to : MirrorStatus) (r : Result MirrorStatus)
      → Preserves I (deferred kube dest to r)
  unfolding deferred
  deferred-Preserves dest to (ok done) = λ w i. i
  deferred-Preserves dest to (err e) = λ w i.
      let kept : I (kube.get_descriptor dest to.image w).1 =
        calls.get_descriptor dest to.image w i in
      deferred-by kube dest to e w _ refl (λ r. I r.1)
        (λ d v q. calls.now v (subst (λ p. I p.1) q kept)) (λ f v q. subst (λ p. I p.1) q kept)

  mirror_image-Preserves :
      (namespace : Text) (mirrors : List Mirror) (pods : StringMap Pod) (source : Text)
      (to : MirrorStatus)
      → Preserves I (mirror_image kube namespace mirrors pods source to)
  unfolding mirror_image
  mirror_image-Preserves namespace mirrors pods source to =
      >>=-Preserves I (get_pull_secrets_from_pods kube pods source) _
        (pull_secrets-Preserves pods source)
        λ src.
          >>=-Preserves I (get_image_secret_from_mirrors kube to.image namespace mirrors) _
            (image_secret-Preserves to.image namespace mirrors)
            λ secret.
              attempt-Preserves I (copy_step kube src (dest_secrets secret) source to)
                (deferred kube (dest_secrets secret) to)
                (copy_step-Preserves src (dest_secrets secret) source to)
                (deferred-Preserves (dest_secrets secret) to)

  module _ (namespace : Text) (mirrors : List Mirror) (pods : StringMap Pod) (source : Text) where
    pub mirror_one-keeps :
        (failed : Bool) (m : MirrorStatus) (w : W)
        → I w
        → I (mirror_one kube namespace mirrors pods source failed m w).1
    unfolding mirror_one
    mirror_one-keeps failed m w i = elim (Bool-cases (is_some m.mirrored_at)) [
      | inl q ↦ rw q i
      | inr q ↦ rw q (mirror_image-Preserves namespace mirrors pods source m w i)
    ]

    pub mirror_each-keeps :
        (failed : Bool) (ms : List MirrorStatus) (w : W)
        → I w
        → I (mirror_each kube namespace mirrors pods source failed ms w).1
    unfolding mirror_each
    mirror_each-keeps failed [] w i = i
    mirror_each-keeps failed (m ∷ ms) w i =
        let ((m', failed'), v) = mirror_one kube namespace mirrors pods source failed m w in
        mirror_each-keeps failed' ms v (mirror_one-keeps failed m w i)
