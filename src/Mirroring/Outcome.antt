-- ===== src/Mirroring/Outcome.antt =====
-- What a reconciliation of mirrors that ends without an error has done.
use kube_image_keeper.Prelude.{
  ◌≡◌, refl, ap, subst, ◌∙◌, Bool, false, List, [], All, Bool-cases, inl, inr,
}
use kube_image_keeper.Prelude.Int.{pos}
use kube_image_keeper.Errors.{Result, ok}
use kube_image_keeper.Effects.Laws.{>>=-ok}
use kube_image_keeper.Pods.{StringMap, Pod}
use kube_image_keeper.Resources.{MatchingImage}
use kube_image_keeper.Mirroring.Images.{MirrorObject, object_meta, mirror_spec, with_status, Kube}
use kube_image_keeper.Mirroring.Loops.{Progress, clean_images, mirror_images}
use kube_image_keeper.Mirroring.Retention.{Accounted, clean_images-Accounted}
use kube_image_keeper.Mirroring.Completion.{IsComplete, mirror_images-IsComplete}
use kube_image_keeper.Mirroring.Reconcile.{Settings, Outcome, conclude, apply_status}

-- An end without an error: no deletion and no copy has failed.
conclude-ok :
    (p : Progress) (failed : Bool) (o : Outcome)
    → conclude p failed ≡ ok o
    → (p.some_deletion_failed ≡ false) × (failed ≡ false)
unfolding conclude
conclude-ok p failed o = elim (Bool-cases p.some_deletion_failed) [
  | inl q ↦ rw q (λ h. cc)
  | inr q ↦ elim (Bool-cases failed) [
    | inl k ↦ rw (q, k) (λ h. cc)
    | inr k ↦ rw (q, k) (λ h. (refl, refl))
  ]
]

module _ {W D : Type 0} (settings : Settings) (kube : Kube W D) (obj : MirrorObject)
    (images : List MatchingImage) (by_image : StringMap Pod) (w : W) where
  -- The clean-up, in the world behind the first write.
  abbrev pub cleaned : (List MatchingImage × Progress) × W
  cleaned =
      clean_images kube (object_meta obj).namespace (mirror_spec obj).mirrors
        (mirror_spec obj).cleanup (record { requeue_after = pos 0; some_deletion_failed = false })
        images (kube.patch_status obj (with_status images obj) w).1

  -- The copies, in the world behind the second write.
  abbrev pub after_copies : Result (List MatchingImage × Bool) × W
  after_copies =
      mirror_images kube (object_meta obj).namespace (mirror_spec obj).mirrors
        (with_status cleaned.0.0 obj) by_image [] false cleaned.0.0
        (kube.patch_status (with_status images obj) (with_status cleaned.0.0 obj) cleaned.1).1

  -- No deletion was refused, each mirror that was due is gone, and every mirror of every image in use is
  -- mirrored in the last status.
  abbrev pub IsSettled : Type 0
  IsSettled =
      Accounted kube (object_meta obj).namespace (mirror_spec obj).mirrors (mirror_spec obj).cleanup
        false images (kube.patch_status obj (with_status images obj) w).1 cleaned.0.0 cleaned.1
      × ((out : List MatchingImage) × (after_copies.0 ≡ ok (out, false))
          × All (IsComplete kube (object_meta obj).namespace (mirror_spec obj).mirrors) out)

  -- Where the part of a reconciliation that writes the status, cleans up and mirrors ends without an
  -- error, the clean-up has met no refusal: the images in use are kept as they are, and of an unused
  -- image the mirrors that are not due; those that are due are gone, each never written, deleted by its
  -- registry with the secret of its mirror, or left there where no secret is configured. In the status
  -- that it leaves every mirror of every image that is in use is mirrored.
  pub apply_status-IsSettled :
      (o : Outcome) → (apply_status settings kube obj (images, by_image) w).0 ≡ ok o → IsSettled
  unfolding apply_status
  apply_status-IsSettled o h =
      let (u, h₀, h₁) = >>=-ok (kube.patch_status obj (with_status images obj)) _ w o h in
      let (v, h₂, h₃) =
        >>=-ok (kube.patch_status (with_status images obj) (with_status cleaned.0.0 obj)) _
          cleaned.1 o h₁ in
      let ((out, failed), h₄, h₅) =
        >>=-ok
          (mirror_images kube (object_meta obj).namespace (mirror_spec obj).mirrors
            (with_status cleaned.0.0 obj) by_image [] false cleaned.0.0)
          _ (kube.patch_status (with_status images obj) (with_status cleaned.0.0 obj) cleaned.1).1 o
          h₃ in
      let (kept, done) = conclude-ok cleaned.0.1 failed o h₅ in
      let all_done : after_copies.0 ≡ ok (out, false) = h₄ ∙ ap (λ b. ok (out, b)) done in
      (
        subst
            (λ b.
              Accounted kube (object_meta obj).namespace (mirror_spec obj).mirrors
                (mirror_spec obj).cleanup b images
                (kube.patch_status obj (with_status images obj) w).1 cleaned.0.0 cleaned.1)
            kept
            (clean_images-Accounted kube (object_meta obj).namespace (mirror_spec obj).mirrors
              (mirror_spec obj).cleanup
              (record { requeue_after = pos 0; some_deletion_failed = false }) images
              (kube.patch_status obj (with_status images obj) w).1),
        (
          out,
          all_done,
          mirror_images-IsComplete kube (object_meta obj).namespace (mirror_spec obj).mirrors
              (with_status cleaned.0.0 obj) by_image cleaned.0.0 out _ all_done,
        ),
      )
