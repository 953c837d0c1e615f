-- ===== src/Mirroring/Loops.antt =====
-- The loops of the reconciler over the images of a status: those that delete and the one that mirrors.
use kube_image_keeper.Prelude.{
  zero, Bool, true, false, not, List, [], ◌∷◌, ◌++◌, none, some, is_some, if◌then◌else◌,
}
use kube_image_keeper.Prelude.Int.{ℤ, pos, ltb_ℤ}
use kube_image_keeper.Text.{Text, codes}
use kube_image_keeper.Errors.{Result, ok, err, message, error_text}
use kube_image_keeper.Effects.{Eff, pure, ◌>>◌}
use kube_image_keeper.Pods.{StringMap, Pod}
use kube_image_keeper.Resources.{Time, Cleanup, Mirror, MirrorStatus, MatchingImage}
use kube_image_keeper.Mirroring.Merge.{is_zero}
use kube_image_keeper.Mirroring.Clock.{delete_after}
use kube_image_keeper.Mirroring.Images.{
  MirrorObject, with_status, Kube, mirror_image, cleanup_mirror,
}

-- What the deletion of unused images has found so far.
pub record Progress : Type 0 where
  pub requeue_after : ℤ
  pub some_deletion_failed : Bool

abbrev pub is_zero_duration : ℤ → Bool
is_zero_duration (pos zero) = true
is_zero_duration _ = false

-- requeueAfter, lowered to the time that is left of one more image
unfoldable pub sooner : ℤ → ℤ → ℤ
sooner requeue_after left =
    if is_zero_duration requeue_after
    then left
    else if ltb_ℤ left requeue_after
    then left
    else requeue_after

module _ {W D : Type 0} (kube : Kube W D) (namespace : Text) (mirrors : List Mirror) where
  -- The deletions of an object that is being deleted; the first that fails ends the loop.
  unfoldable pub delete_mirrors : List MirrorStatus → Eff W (Unit {0})
  unfolding cleanup_mirror
  delete_mirrors [] = pure tt
  delete_mirrors (m ∷ ms) = if is_zero m.mirrored_at then delete_mirrors ms else (λ w.
      let (deleted, w') = cleanup_mirror kube m.image namespace mirrors w in
      if deleted
      then delete_mirrors ms w'
      else (err (message (codes "could not cleanup mirrors")), w'))

  unfoldable pub delete_all : List MatchingImage → Eff W (Unit {0})
  unfolding delete_mirrors
  delete_all [] = pure tt
  delete_all (m ∷ ms) = do delete_mirrors m.mirrors; delete_all ms

  -- An image whose retention has passed: is it kept, and what is known then.
  unfoldable pub expire_mirror : Progress → MirrorStatus → W → (Bool × Progress) × W
  unfolding cleanup_mirror
  expire_mirror p m w =
      if is_some m.mirrored_at
      then (let (deleted, w') = cleanup_mirror kube m.image namespace mirrors w in
          if deleted
          then ((false, p), w')
          else ((true, record p { some_deletion_failed = true }), w'))
      else ((false, p), w)

  -- The body of the inner loop of the clean-up.
  unfoldable pub clean_mirror : Cleanup → Time → Progress → MirrorStatus → W → (Bool × Progress) × W
  unfolding delete_after sooner expire_mirror
  clean_mirror cleanup unused p m w =
      let (t, w') = kube.now w in
      let left = delete_after cleanup.retention t unused in
      if not cleanup.enabled
      then ((true, p), w')
      else if ltb_ℤ (pos 0) left
      then ((true, record p { requeue_after = sooner p.requeue_after left }), w')
      else expire_mirror p m w'

  -- The inner loop: the mirrors that are kept.
  unfoldable pub clean_mirrors :
      Cleanup → Time → Progress → List MirrorStatus → W → (List MirrorStatus × Progress) × W
  unfolding clean_mirror
  clean_mirrors cleanup unused p [] w = (([], p), w)
  clean_mirrors cleanup unused p (m ∷ ms) w =
      let ((kept, p'), w') = clean_mirror cleanup unused p m w in
      let ((rest, p''), w'') = clean_mirrors cleanup unused p' ms w' in
      ((if kept then m ∷ rest else rest, p''), w'')

  -- matchingImagesAfterCleanup, of an image whose kept mirrors are these
  unfoldable pub keep_image :
      MatchingImage → List MirrorStatus → List MatchingImage → List MatchingImage
  keep_image m [] rest = rest
  keep_image m (k ∷ ks) rest = record m { mirrors = k ∷ ks } ∷ rest

  -- The outer loop.
  unfoldable pub clean_images :
      Cleanup → Progress → List MatchingImage → W → (List MatchingImage × Progress) × W
  unfolding clean_mirrors keep_image
  clean_images cleanup p [] w = (([], p), w)
  clean_images cleanup p (m ∷ ms) w = elim m.unused_since [
    | none ↦ let ((rest, p'), w') = clean_images cleanup p ms w in ((m ∷ rest, p'), w')
    | some unused ↦
        let ((kept, p'), w') = clean_mirrors cleanup unused p m.mirrors w in
        let ((rest, p''), w'') = clean_images cleanup p' ms w' in
        ((keep_image m kept rest, p''), w'')
  ]

  -- One mirror after mirrorImage.
  unfoldable pub mirror_outcome : MirrorStatus → Bool → Result MirrorStatus → MirrorStatus × Bool
  mirror_outcome m failed (ok done) = (record done { last_error = [] }, failed)
  mirror_outcome m failed (err e) = (record m { last_error = error_text e }, true)

  unfoldable pub mirror_one :
      StringMap Pod → Text → Bool → MirrorStatus → W → (MirrorStatus × Bool) × W
  unfolding mirror_image mirror_outcome
  mirror_one pods source failed m w =
      if is_some m.mirrored_at
      then ((m, failed), w)
      else (let (r, w') = mirror_image kube namespace mirrors pods source m w in
          (mirror_outcome m failed r, w'))

  -- The mirrors of an image, and someMirrorFailed.
  unfoldable pub mirror_each :
      StringMap Pod → Text → Bool → List MirrorStatus → W → (List MirrorStatus × Bool) × W
  unfolding mirror_one
  mirror_each pods source failed [] w = (([], failed), w)
  mirror_each pods source failed (m ∷ ms) w =
      let ((m', failed'), w') = mirror_one pods source failed m w in
      let ((rest, failed''), w'') = mirror_each pods source failed' ms w' in
      ((m' ∷ rest, failed''), w'')

  -- The last loop: the status is written after each image that is in use.
  unfoldable pub mirror_images :
      MirrorObject
      → StringMap Pod
      → List MatchingImage
      → Bool
      → List MatchingImage
      → Eff W (List MatchingImage × Bool)
  unfolding mirror_each
  mirror_images obj pods done failed [] = pure (done, failed)
  mirror_images obj pods done failed (m ∷ ms) = elim m.unused_since [
    | some _ ↦ mirror_images obj pods (done ++ m ∷ []) failed ms
    | none ↦ (λ w.
        let ((mirrored, failed'), w') = mirror_each pods m.image failed m.mirrors w in
        let m' : MatchingImage = record m { mirrors = mirrored } in
        (do
          kube.patch_status (with_status (done ++ m ∷ ms) obj) (with_status (done ++ m' ∷ ms) obj)
          mirror_images obj pods (done ++ m' ∷ []) failed' ms)
          w')
  ]
