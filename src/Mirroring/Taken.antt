-- ===== src/Mirroring/Taken.antt =====
-- Where mirrorImage succeeds, the registry has the image.
use kube_image_keeper.Prelude.{◌≡◌, refl, sym, ap, ◌∙◌, inl, inr, subst, List}
use kube_image_keeper.Text.{Text}
use kube_image_keeper.Errors.{Error, ok, err, Result-cases, ok-injective}
use kube_image_keeper.Effects.{attempt}
use kube_image_keeper.Effects.Laws.{>>=-ok, Preserves}
use kube_image_keeper.Pods.{StringMap, Pod}
use kube_image_keeper.Resources.{Mirror, MirrorStatus}
use kube_image_keeper.Webhook.Alternatives.{Secret}
use kube_image_keeper.Registry.Client.{Reference, Remote}
use kube_image_keeper.Registry.Platforms.{Source}
use kube_image_keeper.Registry.Copy.{ImageStore}
use kube_image_keeper.Registry.Present.{
  IsPresent, KeepsImages, get_descriptor-served, get_descriptor-Preserves, copy_image-IsPresent,
  copy_image-Preserves,
}
use kube_image_keeper.Mirroring.Images.{
  Kube, MirrorObject, get_pull_secrets_from_pods, get_image_secret_from_mirrors, dest_secrets,
  copy_step, deferred, mirror_image,
}
use kube_image_keeper.Mirroring.Remote.{with_registry}
use kube_image_keeper.Mirroring.Kept.{CallsKeep, deferred-by}

module _ {W K D P M : Type 0} (remote : Remote W K D) (store : ImageStore W K D P M)
    (platforms : List P) (Describes : D → Reference → Type 0)
    (Content : Source P M → Reference → Type 0) (Holds : W → Reference → Reference → Type 0)
    (Answers : W → Reference → Type 0)
    (laws : KeepsImages remote store platforms Describes Content Holds Answers)
    (api : Kube W D) where
  abbrev pub kube : Kube W D
  kube = with_registry remote store platforms api

  -- The registry of the image has it, as a manifest of the source or as one that it answers with.
  abbrev pub Has : Text → Text → W → Type 0
  Has source image = IsPresent remote store platforms Describes Content Holds Answers source image

  -- Neither the clock nor the API server makes an image of a registry disappear.
  pub record ApiKeeps : Type 0 where
    pub get_secret :
        (source image ns name : Text) → Preserves (Has source image) (api.get_secret ns name)
    pub now : (source image : Text) (w : W) → Has source image w → Has source image (api.now w).1
    pub patch_status :
        (source image : Text) (a b : MirrorObject)
        → Preserves (Has source image) (api.patch_status a b)

  module _ (keeps : ApiKeeps) where
    pub calls : (source image : Text) → CallsKeep kube (Has source image)
    unfolding with_registry
    calls source image = record {
      get_secret = keeps.get_secret source image;
      get_descriptor = λ secrets asked.
          get_descriptor-Preserves remote store platforms Describes Content Holds Answers laws
            source image asked secrets;
      copy_image = λ d secrets asked.
          copy_image-Preserves remote store platforms Describes Content Holds Answers laws source
            image asked d secrets;
      now = keeps.now source image;
      patch_status = keeps.patch_status source image;
    }

    copy_step-Has :
        (src dest : List Secret) (source : Text) (to done : MirrorStatus) (w : W)
        → (copy_step kube src dest source to w).0 ≡ ok done
        → (done.image ≡ to.image) × Has source to.image (copy_step kube src dest source to w).1
    unfolding copy_step with_registry
    copy_step-Has src dest source to done w h =
        let (d, q, rest) = >>=-ok (kube.get_descriptor src source) _ w done h in
        let v = (kube.get_descriptor src source w).1 in
        let (u, q', last) = >>=-ok (kube.copy_image d dest to.image) _ v done rest in
        let described =
          (get_descriptor-served remote store platforms Describes Content Holds Answers laws source
            src w d q).0 in
        rw (q, q')
          (
            ap (λ (m : MirrorStatus). m.image) (sym (ok-injective last)),
            keeps.now source to.image (kube.copy_image d dest to.image v).1 (
                copy_image-IsPresent remote store platforms Describes Content Holds Answers laws d
                  source to.image dest v described q'),
          )

    deferred-Has :
        (dest : List Secret) (source : Text) (to done : MirrorStatus) (e : Error) (w : W)
        → (deferred kube dest to (err e) w).0 ≡ ok done
        → (done.image ≡ to.image) × Has source to.image (deferred kube dest to (err e) w).1
    unfolding deferred with_registry
    deferred-Has dest source to done e w h =
        deferred-by kube dest to e w _ refl
          (λ r. r.0 ≡ ok done → (done.image ≡ to.image) × Has source to.image r.1)
          (λ d v q k. (
            ap (λ (m : MirrorStatus). m.image) (sym (ok-injective k)),
            keeps.now source to.image v (
                subst (λ p. Has source to.image p.1) q
                  ((get_descriptor-served remote store platforms Describes Content Holds Answers
                      laws to.image dest w d (ap (λ p. p.0) q)).1
                    source)),
          ))
          (λ f v q k. cc) h

    attempt-Has :
        (src dest : List Secret) (source : Text) (to done : MirrorStatus) (w : W)
        → (attempt (copy_step kube src dest source to) (deferred kube dest to) w).0 ≡ ok done
        → (done.image ≡ to.image)
          × Has source to.image
              (attempt (copy_step kube src dest source to) (deferred kube dest to) w).1
    unfolding deferred
    attempt-Has src dest source to done w =
        let copied_to = copy_step kube src dest source to w in
        elim (Result-cases copied_to.0) [
          | inl (m, q) ↦ rw q (λ h. copy_step-Has src dest source to done w (q ∙ h))
          | inr (e, q) ↦ rw q (deferred-Has dest source to done e copied_to.1)
        ]

    -- Where mirrorImage succeeds, the mirror keeps its reference, and the registry has the image.
    pub mirror_image-Has :
        (namespace : Text) (mirrors : List Mirror) (pods : StringMap Pod) (source : Text)
        (to done : MirrorStatus) (w : W)
        → (mirror_image kube namespace mirrors pods source to w).0 ≡ ok done
        → (done.image ≡ to.image)
          × Has source to.image (mirror_image kube namespace mirrors pods source to w).1
    unfolding mirror_image
    mirror_image-Has namespace mirrors pods source to done w h =
        let (src, q, rest) = >>=-ok (get_pull_secrets_from_pods kube pods source) _ w done h in
        let v = (get_pull_secrets_from_pods kube pods source w).1 in
        let secret_of = get_image_secret_from_mirrors kube to.image namespace mirrors in
        let (secret, q', last) = >>=-ok secret_of _ v done rest in
        rw (q, q') (attempt-Has src (dest_secrets secret) source to done (secret_of v).1 last)
