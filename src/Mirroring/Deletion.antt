-- ===== src/Mirroring/Deletion.antt =====
-- What the reconciliation of an object that is being deleted does before it gives the object up.
use kube_image_keeper.Prelude.{
  ◌≡◌, refl, ◌⊎◌, inl, inr, Bool, true, false, List, [], ◌∷◌, Bool-cases,
}
use kube_image_keeper.Text.{Text}
use kube_image_keeper.Errors.{Error, ok, err, Result-cases}
use kube_image_keeper.Effects.Laws.{>>=-ok}
use kube_image_keeper.Resources.{Mirror, MirrorStatus, MatchingImage}
use kube_image_keeper.Mirroring.Images.{
  MirrorObject, object_meta, mirror_spec, mirror_status, Kube, cleanup_mirror,
}
use kube_image_keeper.Mirroring.Merge.{is_zero}
use kube_image_keeper.Mirroring.Removal.{IsRemoved, Tells, cleanup_mirror-Tells}
use kube_image_keeper.Mirroring.Loops.{delete_mirrors, delete_all}
use kube_image_keeper.Mirroring.Reconcile.{Settings, contains_finalizer, reconcile_deleted}

module _ {W D : Type 0} (kube : Kube W D) (namespace : Text) (mirrors : List Mirror) where
  -- From the first world to the last, one after the other, the mirrors that have a time of writing are
  -- removed.
  abbrev pub MirrorsGone : List MirrorStatus → W → W → Type 0
  MirrorsGone [] w w' = w' ≡ w
  MirrorsGone (m ∷ ms) w w' =
      ((is_zero m.mirrored_at ≡ true) × MirrorsGone ms w w')
      ⊎ ((v : W) × (is_zero m.mirrored_at ≡ false)
          × IsRemoved kube namespace mirrors m.image w v
          × MirrorsGone ms v w')

  -- So are the mirrors of every image.
  abbrev pub AllGone : List MatchingImage → W → W → Type 0
  AllGone [] w w' = w' ≡ w
  AllGone (i ∷ images) w w' = (v : W) × MirrorsGone i.mirrors w v × AllGone images v w'

  IsRemoved-of :
      (image : Text) (w : W) (r : Bool × W)
      → r.0 ≡ true
      → Tells kube namespace mirrors image w r
      → IsRemoved kube namespace mirrors image w r.1
  IsRemoved-of image w (b, v) h (inl (_, gone)) = gone
  IsRemoved-of image w (b, v) h (inr (q, _)) = cc

  delete_mirrors-MirrorsGone :
      (ms : List MirrorStatus) (w : W)
      → (delete_mirrors kube namespace mirrors ms w).0 ≡ ok tt
      → MirrorsGone ms w (delete_mirrors kube namespace mirrors ms w).1
  unfolding delete_mirrors
  delete_mirrors-MirrorsGone [] w h = refl
  delete_mirrors-MirrorsGone (m ∷ ms) w h =
      let (deleted, w') = cleanup_mirror kube m.image namespace mirrors w in
      elim (Bool-cases (is_zero m.mirrored_at)) [
        | inl q ↦ rw q (inl (refl, delete_mirrors-MirrorsGone ms w (rw q at h)))
        | inr q ↦ elim (Bool-cases deleted) [
          | inl k ↦
              rw (q, k)
                (inr (
                  w',
                  refl,
                  IsRemoved-of m.image w _ k
                      (cleanup_mirror-Tells kube namespace mirrors m.image w),
                  delete_mirrors-MirrorsGone ms w' (rw (q, k) at h),
                ))
          | inr k ↦ let refused = rw (q, k) at h in cc
        ]
      ]

  delete_all-AllGone :
      (images : List MatchingImage) (w : W)
      → (delete_all kube namespace mirrors images w).0 ≡ ok tt
      → AllGone images w (delete_all kube namespace mirrors images w).1
  unfolding delete_all
  delete_all-AllGone [] w h = refl
  delete_all-AllGone (i ∷ images) w h =
      let (u, first, rest) =
        >>=-ok (delete_mirrors kube namespace mirrors i.mirrors)
          (λ _. delete_all kube namespace mirrors images) w tt h in
      let v = (delete_mirrors kube namespace mirrors i.mirrors w).1 in
      rw first (v, delete_mirrors-MirrorsGone i.mirrors w first, delete_all-AllGone images v rest)

-- An object that is being deleted and has the finalizer: the mirrors of its status that have a time of
-- writing are removed one after the other, each deleted by its registry with the secret of its mirror or
-- left where no secret is configured; or the reconciliation ends with an error right behind the
-- deletions, so that the finalizer stays.
pub reconcile_deleted-AllGone :
    {W D : Type 0} (settings : Settings) (kube : Kube W D) (obj : MirrorObject) (w : W)
    → contains_finalizer obj ≡ true
    → (let ns = (object_meta obj).namespace in
        let ms = (mirror_spec obj).mirrors in
        let w' = (delete_all kube ns ms (mirror_status obj) w).1 in
        AllGone kube ns ms (mirror_status obj) w w'
        ⊎ ((e : Error) × (reconcile_deleted settings kube obj w ≡ (err e, w'))))
unfolding reconcile_deleted
reconcile_deleted-AllGone settings kube obj w h =
    let ns = (object_meta obj).namespace in
    let ms = (mirror_spec obj).mirrors in
    elim (Result-cases (delete_all kube ns ms (mirror_status obj) w).0) [
      | inl (u, q) ↦ inl (delete_all-AllGone kube ns ms (mirror_status obj) w q)
      | inr (e, q) ↦ inr (e, rw (h, q) refl)
    ]
