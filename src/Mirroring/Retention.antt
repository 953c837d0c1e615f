-- ===== src/Mirroring/Retention.antt =====
-- What the clean-up of unused images does with each mirror, and what a failed deletion leaves.
use kube_image_keeper.Prelude.{
  ◌≡◌, refl, sym, subst, ◌⊎◌, inl, inr, Bool, true, false, not, ◌&&◌, List, [], ◌∷◌, none, some,
  Bool-cases, Option-cases, is_some, if◌then◌else◌,
}
use kube_image_keeper.Prelude.Int.{pos, ltb_ℤ}
use kube_image_keeper.Text.{Text}
use kube_image_keeper.Resources.{Time, Cleanup, Mirror, MirrorStatus, MatchingImage}
use kube_image_keeper.Mirroring.Clock.{delete_after}
use kube_image_keeper.Mirroring.Images.{Kube, cleanup_mirror}
use kube_image_keeper.Mirroring.Removal.{IsRemoved, IsRefused, Tells, cleanup_mirror-Tells}
use kube_image_keeper.Mirroring.Loops.{
  Progress, expire_mirror, clean_mirror, clean_mirrors, keep_image, clean_images,
}

-- The retention of an image that is unused since a time has passed, and unused images are cleaned up.
unfoldable pub is_due : Cleanup → Time → Time → Bool
unfolding delete_after
is_due cleanup unused now =
    cleanup.enabled && not (ltb_ℤ (pos 0) (delete_after cleanup.retention now unused))

module _ {W D : Type 0} (kube : Kube W D) (namespace : Text) (mirrors : List Mirror)
    (cleanup : Cleanup) where
  -- What becomes of a mirror from one world to the next: is it kept in the status. A mirror that is not
  -- due stays; one that is due goes, if it was never written or is removed; and stays, if its deletion
  -- is refused, which is possible only where the clean-up reports a failed deletion.
  pub data Fate (failed : Bool) (unused : Time) (m : MirrorStatus) (w : W) : Bool → W → Type 0 where
    stays :
        is_due cleanup unused (kube.now w).0 ≡ false → Fate failed unused m w true (kube.now w).1
    unwritten :
        is_due cleanup unused (kube.now w).0 ≡ true
        → is_some m.mirrored_at ≡ false
        → Fate failed unused m w false (kube.now w).1
    removed :
        {w' : W}
        → is_due cleanup unused (kube.now w).0 ≡ true
        → is_some m.mirrored_at ≡ true
        → IsRemoved kube namespace mirrors m.image (kube.now w).1 w'
        → Fate failed unused m w false w'
    refused :
        {w' : W}
        → is_due cleanup unused (kube.now w).0 ≡ true
        → is_some m.mirrored_at ≡ true
        → IsRefused kube namespace mirrors m.image (kube.now w).1 w'
        → failed ≡ true
        → Fate failed unused m w true w'

  -- The fates of the mirrors of an image one after the other, and those that are kept.
  abbrev pub Fates : Bool → Time → List MirrorStatus → W → List MirrorStatus → W → Type 0
  Fates failed unused [] w kept w' = (kept ≡ []) × (w' ≡ w)
  Fates failed unused (m ∷ ms) w kept w' =
      (b : Bool) × (v : W) × (rest : List MirrorStatus) × Fate failed unused m w b v
      × Fates failed unused ms v rest w'
      × (kept ≡ (if b then m ∷ rest else rest))

  -- An image in use is kept as it is; one that is unused is kept where a mirror of it is kept.
  abbrev pub Accounted : Bool → List MatchingImage → W → List MatchingImage → W → Type 0
  Accounted failed [] w out w' = (out ≡ []) × (w' ≡ w)
  Accounted failed (i ∷ images) w out w' =
      ((i.unused_since ≡ none)
        × ((rest : List MatchingImage) × Accounted failed images w rest w' × (out ≡ i ∷ rest)))
      ⊎ ((unused : Time) × (kept : List MirrorStatus) × (v : W) × (rest : List MatchingImage)
          × (i.unused_since ≡ some unused)
          × Fates failed unused i.mirrors w kept v
          × Accounted failed images v rest w'
          × (out ≡ keep_image kube namespace mirrors i kept rest))

  -- A failed deletion that was reported stays reported.
  Grows : Progress → Progress → Type 0
  Grows p q = p.some_deletion_failed ≡ true → q.some_deletion_failed ≡ true

  -- The end of an expired mirror.
  abbrev expired : Progress → MirrorStatus → Bool × W → (Bool × Progress) × W
  expired p m (deleted, w) =
      if deleted then ((false, p), w) else ((true, record p { some_deletion_failed = true }), w)

  abbrev IsFate : Bool → Time → MirrorStatus → W → Progress → (Bool × Progress) × W → Type 0
  IsFate failed unused m w p ((b, q), w') =
      Grows p q × ((q.some_deletion_failed ≡ true → failed ≡ true) → Fate failed unused m w b w')

  expired-IsFate :
      (failed : Bool) (unused : Time) (m : MirrorStatus) (w : W) (p : Progress)
      → is_due cleanup unused (kube.now w).0 ≡ true
      → is_some m.mirrored_at ≡ true
      → (r : Bool × W) → Tells kube namespace mirrors m.image (kube.now w).1 r
      → IsFate failed unused m w p (expired p m r)
  unfolding Grows
  expired-IsFate failed unused m w p due written (true, v) (inl (_, gone)) =
      ((λ h. h), λ h. removed due written gone)
  expired-IsFate failed unused m w p due written (true, v) (inr (q, _)) = cc
  expired-IsFate failed unused m w p due written (false, v) (inl (q, _)) = cc
  expired-IsFate failed unused m w p due written (false, v) (inr (_, left)) =
      ((λ h. refl), λ h. refused due written left (h refl))

  clean_mirror-IsFate :
      (failed : Bool) (unused : Time) (m : MirrorStatus) (w : W) (p : Progress)
      → IsFate failed unused m w p (clean_mirror kube namespace mirrors cleanup unused p m w)
  unfolding clean_mirror expire_mirror is_due Grows
  clean_mirror-IsFate failed unused m w p =
      let left = delete_after cleanup.retention (kube.now w).0 unused in
      elim (Bool-cases cleanup.enabled) [
        | inr q ↦ rw q ((λ h. h), λ h. stays refl)
        | inl q ↦ elim (Bool-cases (ltb_ℤ (pos 0) left)) [
          | inl k ↦ rw (q, k) ((λ h. h), λ h. stays (rw k refl))
          | inr k ↦ elim (Bool-cases (is_some m.mirrored_at)) [
            | inr l ↦ rw (q, k, l) ((λ h. h), λ h. unwritten (rw k refl) l)
            | inl l ↦
                let ends = cleanup_mirror kube m.image namespace mirrors (kube.now w).1 in
                let same : clean_mirror kube namespace mirrors cleanup unused p m w
                    ≡ expired p m ends =
                  rw (q, k, l) refl in
                subst (IsFate failed unused m w p) (sym same) (
                  expired-IsFate failed unused m w p (rw (q, k) refl) l ends
                    (cleanup_mirror-Tells kube namespace mirrors m.image (kube.now w).1))
          ]
        ]
      ]

  clean_mirrors-Fates :
      (failed : Bool) (unused : Time) (ms : List MirrorStatus) (p : Progress) (w : W)
      → let ((kept, q), w') = clean_mirrors kube namespace mirrors cleanup unused p ms w in
        Grows p q
        × ((q.some_deletion_failed ≡ true → failed ≡ true) → Fates failed unused ms w kept w')
  unfolding clean_mirrors Grows
  clean_mirrors-Fates failed unused [] p w = ((λ h. h), λ h. (refl, refl))
  clean_mirrors-Fates failed unused (m ∷ ms) p w =
      let ((b, q), v) = clean_mirror kube namespace mirrors cleanup unused p m w in
      let (first, fate) = clean_mirror-IsFate failed unused m w p in
      let (rest, fates) = clean_mirrors-Fates failed unused ms q v in
      ((λ h. rest (first h)), λ h. (b, v, _, fate (λ k. h (rest k)), fates h, refl))

  clean_images-reports :
      (failed : Bool) (images : List MatchingImage) (p : Progress) (w : W)
      → let ((out, q), w') = clean_images kube namespace mirrors cleanup p images w in
        Grows p q
        × ((q.some_deletion_failed ≡ true → failed ≡ true) → Accounted failed images w out w')
  unfolding clean_images Grows
  clean_images-reports failed [] p w = ((λ h. h), λ h. (refl, refl))
  clean_images-reports failed (i ∷ images) p w = elim (Option-cases i.unused_since) [
    | inl q ↦
        let (grows, rest) = clean_images-reports failed images p w in
        rw q (grows, λ h. inl (refl, (_, rest h, refl)))
    | inr (unused, q) ↦
        let ((kept, p'), v) = clean_mirrors kube namespace mirrors cleanup unused p i.mirrors w in
        let (first, fates) = clean_mirrors-Fates failed unused i.mirrors p w in
        let (rest, others) = clean_images-reports failed images p' v in
        rw q (
          (λ h. rest (first h)),
          λ h. inr (unused, kept, v, _, refl, fates (λ k. h (rest k)), others h, refl),
        )
  ]

  -- The images behind the clean-up are those before it without what has gone: the images in use as they
  -- are, and of an unused image the mirrors that are not due, that are due but whose deletion the registry
  -- or the API server has refused, in their order. A mirror that is due goes where it was never written,
  -- where the registry has deleted it with the secret of its mirror, or where no secret is configured; and
  -- a deletion is refused only if the clean-up reports that one has failed.
  pub clean_images-Accounted :
      (p : Progress) (images : List MatchingImage) (w : W)
      → let ((out, q), w') = clean_images kube namespace mirrors cleanup p images w in
        Accounted q.some_deletion_failed images w out w'
  clean_images-Accounted p images w = (clean_images-reports _ images p w).1 (λ h. h)
