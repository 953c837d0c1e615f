-- ===== src/Mirroring/Success.antt =====
-- A reconciliation of mirrors in which every call succeeds.
use kube_image_keeper.Prelude.{
  ◌≡◌, refl, Bool, false, List, [], ◌∷◌, ◌++◌, ◌∙◌, ap, none, some, Bool-cases, Option-cases, inl,
  inr, arith,
}
use kube_image_keeper.Prelude.Int.{pos, ltb_ℤ}
use kube_image_keeper.Text.{Text}
use kube_image_keeper.Errors.{ok}
use kube_image_keeper.Pods.{StringMap, Pod}
use kube_image_keeper.Resources.{Time, Cleanup, Mirror, MirrorStatus, MatchingImage}
use kube_image_keeper.Mirroring.Images.{MirrorObject, object_meta, mirror_spec, with_status, Kube}
use kube_image_keeper.Mirroring.Loops.{
  Progress, mirror_outcome, mirror_one, mirror_each, mirror_images, expire_mirror, clean_mirror,
  clean_mirrors, clean_images,
}
use kube_image_keeper.Mirroring.Reconcile.{Settings, Outcome, settled, conclude, apply_status}
use kube_image_keeper.Mirroring.Outcome.{IsSettled, apply_status-IsSettled}
use kube_image_keeper.Mirroring.Working.{Works, mirror_image-Succeeds, cleanup_mirror-true}

module _ {W D : Type 0} (kube : Kube W D) (works : Works kube) where
  module _ (namespace : Text) (mirrors : List Mirror) where
    clean_mirror-works :
        (cleanup : Cleanup) (unused : Time) (p : Progress) (m : MirrorStatus) (w : W)
        → (clean_mirror kube namespace mirrors cleanup unused p m w).0.1.some_deletion_failed
          ≡ p.some_deletion_failed
    unfolding clean_mirror expire_mirror
    clean_mirror-works cleanup unused p m w =
        ground (arith, cleanup_mirror-true kube works namespace mirrors m.image (kube.now w).1)

    clean_mirrors-works :
        (cleanup : Cleanup) (unused : Time) (p : Progress) (ms : List MirrorStatus) (w : W)
        → (clean_mirrors kube namespace mirrors cleanup unused p ms w).0.1.some_deletion_failed
          ≡ p.some_deletion_failed
    unfolding clean_mirrors
    clean_mirrors-works cleanup unused p [] w = refl
    clean_mirrors-works cleanup unused p (m ∷ ms) w =
        let step = clean_mirror kube namespace mirrors cleanup unused p m w in
        clean_mirrors-works cleanup unused step.0.1 ms step.1
        ∙ clean_mirror-works cleanup unused p m w

    clean_images-works :
        (cleanup : Cleanup) (p : Progress) (images : List MatchingImage) (w : W)
        → (clean_images kube namespace mirrors cleanup p images w).0.1.some_deletion_failed
          ≡ p.some_deletion_failed
    unfolding clean_images
    clean_images-works cleanup p [] w = refl
    clean_images-works cleanup p (m ∷ images) w = elim (Option-cases m.unused_since) [
      | inl q ↦ rw q (clean_images-works cleanup p images w)
      | inr (t, q) ↦
          let inner = clean_mirrors kube namespace mirrors cleanup t p m.mirrors w in
          rw q (
            clean_images-works cleanup inner.0.1 images inner.1
            ∙ clean_mirrors-works cleanup t p m.mirrors w)
    ]

    module _ (pods : StringMap Pod) (source : Text) where
      mirror_one-works :
          (failed : Bool) (m : MirrorStatus) (w : W)
          → (mirror_one kube namespace mirrors pods source failed m w).0.1 ≡ failed
      unfolding mirror_one mirror_outcome
      mirror_one-works failed m w =
          let (done, q) = mirror_image-Succeeds kube works namespace mirrors pods source m w in
          ground (arith, q)

      mirror_each-works :
          (failed : Bool) (ms : List MirrorStatus) (w : W)
          → (mirror_each kube namespace mirrors pods source failed ms w).0.1 ≡ failed
      unfolding mirror_each
      mirror_each-works failed [] w = refl
      mirror_each-works failed (m ∷ ms) w =
          let step = mirror_one kube namespace mirrors pods source failed m w in
          mirror_each-works step.0.1 ms step.1 ∙ mirror_one-works failed m w

    mirror_images-works :
        (obj : MirrorObject) (pods : StringMap Pod) (done : List MatchingImage) (failed : Bool)
        (ms : List MatchingImage) (w : W)
        → (out : List MatchingImage) × ((mirror_images kube namespace mirrors obj pods done failed
              ms w).0
            ≡ ok (out, failed))
    unfolding mirror_images
    mirror_images-works obj pods done failed [] w = (done, refl)
    mirror_images-works obj pods done failed (m ∷ ms) w =
        let each = mirror_each kube namespace mirrors pods m.image failed m.mirrors w in
        let used : MatchingImage = record m { unused_since = none } in
        let mirrored : MatchingImage = record used { mirrors = each.0.0 } in
        let before = with_status (done ++ used ∷ ms) obj in
        let after = with_status (done ++ mirrored ∷ ms) obj in
        let (u, q) = works.patch_status before after each.1 in
        elim (Option-cases m.unused_since) [
          | inl n ↦
              let (out, h) =
                mirror_images-works obj pods (done ++ mirrored ∷ []) each.0.1 ms
                  (kube.patch_status before after each.1).1 in
              rw (n, q)
                (out, h ∙ ap (λ b. ok (out, b)) (mirror_each-works pods m.image failed m.mirrors w))
          | inr (t, n) ↦ rw n (
              mirror_images-works obj pods (done ++ record m { unused_since = some t } ∷ []) failed
                ms w)
        ]

conclude-settles :
    (p : Progress) → p.some_deletion_failed ≡ false → (o : Outcome) × (conclude p false ≡ ok o)
unfolding conclude
conclude-settles p h = elim (Bool-cases (ltb_ℤ (pos 0) p.requeue_after)) [
  | inl q ↦ (record { requeue_after = p.requeue_after }, rw (h, q) refl)
  | inr q ↦ (settled, rw (h, q) refl)
]

-- Where every call succeeds, the part of a reconciliation that writes the status, cleans up and mirrors
-- ends without an error: no deletion is refused, the mirrors that are due are gone, and every mirror of
-- every image in use is mirrored in the status that it leaves.
pub apply_status-Works :
    {W D : Type 0} (settings : Settings) (kube : Kube W D) (obj : MirrorObject)
    (images : List MatchingImage) (by_image : StringMap Pod) (w : W)
    → Works kube
    → (o : Outcome) × ((apply_status settings kube obj (images, by_image) w).0 ≡ ok o)
      × IsSettled settings kube obj images by_image w
unfolding apply_status
apply_status-Works settings kube obj images by_image w works =
    let ns = (object_meta obj).namespace in
    let ms = (mirror_spec obj).mirrors in
    let none_yet : Progress = record { requeue_after = pos 0; some_deletion_failed = false } in
    let (u, q) = works.patch_status obj (with_status images obj) w in
    let w₁ = (kube.patch_status obj (with_status images obj) w).1 in
    let out = clean_images kube ns ms (mirror_spec obj).cleanup none_yet images w₁ in
    let (v, q') = works.patch_status (with_status images obj) (with_status out.0.0 obj) out.1 in
    let w₂ = (kube.patch_status (with_status images obj) (with_status out.0.0 obj) out.1).1 in
    let (left, q'') =
      mirror_images-works kube works ns ms (with_status out.0.0 obj) by_image [] false out.0.0 w₂ in
    let (o, h) =
      conclude-settles out.0.1
        (clean_images-works kube works ns ms (mirror_spec obj).cleanup none_yet images w₁) in
    let ends : (apply_status settings kube obj (images, by_image) w).0 ≡ ok o = rw (q, q', q'') h in
    (o, ends, apply_status-IsSettled settings kube obj images by_image w o ends)
