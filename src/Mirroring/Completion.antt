-- ===== src/Mirroring/Completion.antt =====
-- When the mirroring of images reports no failure.
use kube_image_keeper.Prelude.{
  ◌≡◌, Bool, true, false, List, [], ◌∷◌, ◌++◌, none, some, is_some, All, All-append, Option-cases,
  ap, subst, inl, inr, arith,
}
use kube_image_keeper.Text.{Text}
use kube_image_keeper.Errors.{Result, ok, err, Result-cases, ok-injective}
use kube_image_keeper.Pods.{StringMap, Pod}
use kube_image_keeper.Resources.{Mirror, MirrorStatus, MatchingImage}
use kube_image_keeper.Mirroring.Images.{
  MirrorObject, with_status, Kube, mirror_image, copy_step, deferred,
}
use kube_image_keeper.Mirroring.Loops.{mirror_outcome, mirror_one, mirror_each, mirror_images}

abbrev pub IsMirrored : MirrorStatus → Type 0
IsMirrored m = is_some m.mirrored_at ≡ true

-- Where mirrorImage succeeds, the status holds the time.
abbrev Done : Result MirrorStatus → Type 0
Done (ok m) = IsMirrored m
Done (err e) = Unit

module _ {W D : Type 0} (kube : Kube W D) (namespace : Text) (mirrors : List Mirror) where
  mirror_image-Done :
      (pods : StringMap Pod) (source : Text) (to : MirrorStatus) (w : W)
      → Done (mirror_image kube namespace mirrors pods source to w).0
  unfolding mirror_image copy_step deferred
  mirror_image-Done pods source to w = ground arith

  mirror_outcome_complete :
      (m : MirrorStatus) (failed : Bool) (r : Result MirrorStatus)
      → Done r
      → (mirror_outcome kube namespace mirrors m failed r).1 ≡ false
      → (failed ≡ false) × IsMirrored (mirror_outcome kube namespace mirrors m failed r).0
  unfolding mirror_outcome
  mirror_outcome_complete m failed (ok done) d h = (h, d)
  mirror_outcome_complete m failed (err e) d h = cc

  module _ (pods : StringMap Pod) (source : Text) where
    mirror_one_complete :
        (failed : Bool) (m : MirrorStatus) (w : W)
        → (mirror_one kube namespace mirrors pods source failed m w).0.1 ≡ false
        → (failed ≡ false)
          × IsMirrored (mirror_one kube namespace mirrors pods source failed m w).0.0
    unfolding mirror_one
    mirror_one_complete failed m w h =
        let r = mirror_image kube namespace mirrors pods source m w in
        ground (arith, mirror_outcome_complete m failed r.0 (mirror_image-Done pods source m w))

    mirror_each_complete :
        (failed : Bool) (ms : List MirrorStatus) (w : W)
        → (mirror_each kube namespace mirrors pods source failed ms w).0.1 ≡ false
        → (failed ≡ false)
          × All IsMirrored (mirror_each kube namespace mirrors pods source failed ms w).0.0
    unfolding mirror_each mirror_one
    mirror_each_complete failed [] w h = (h, tt)
    mirror_each_complete failed (m ∷ ms) w h =
        let step = mirror_one kube namespace mirrors pods source failed m w in
        let (q, rest) = mirror_each_complete step.0.1 ms step.1 h in
        let (q', first) = mirror_one_complete failed m w q in (q', (first, rest))

  -- An image in use has every mirror of it mirrored.
  abbrev pub IsComplete : MatchingImage → Type 0
  IsComplete m = m.unused_since ≡ none → All IsMirrored m.mirrors

  mirror_images-IsComplete_from :
      (obj : MirrorObject) (pods : StringMap Pod) (done : List MatchingImage) (failed : Bool)
      (ms out : List MatchingImage) (w : W)
      → (mirror_images kube namespace mirrors obj pods done failed ms w).0 ≡ ok (out, false)
      → (failed ≡ false) × (All IsComplete done → All IsComplete out)
  unfolding mirror_images
  mirror_images-IsComplete_from obj pods done failed [] out w = λ h.
      let q = ok-injective h in
      (ap (λ p. p.1) q, λ a. subst (λ o. All IsComplete o) (ap (λ p. p.0) q) a)
  mirror_images-IsComplete_from obj pods done failed (m ∷ ms) out w =
      let each = mirror_each kube namespace mirrors pods m.image failed m.mirrors w in
      let used : MatchingImage = record m { unused_since = none } in
      let mirrored : MatchingImage = record used { mirrors = each.0.0 } in
      let patched =
        kube.patch_status (with_status (done ++ used ∷ ms) obj)
          (with_status (done ++ mirrored ∷ ms) obj) each.1 in
      elim (Option-cases m.unused_since) [
        | inl q ↦ elim (Result-cases patched.0) [
          | inl (u, q') ↦
              rw (q, q')
                (λ h.
                  let (q'', rest) =
                    mirror_images-IsComplete_from obj pods (done ++ mirrored ∷ []) each.0.1 ms out
                      patched.1 h in
                  let (q₀, all) = mirror_each_complete pods m.image failed m.mirrors w q'' in
                  (q₀, λ a. rest (All-append IsComplete done (mirrored ∷ []) a ((λ z. all), tt))))
          | inr (e, q') ↦ rw (q, q') (λ h. cc)
        ]
        | inr (t, q) ↦
            let idle : MatchingImage = record m { unused_since = some t } in
            rw q (λ h.
              let (q₀, rest) =
                mirror_images-IsComplete_from obj pods (done ++ idle ∷ []) failed ms out w h in
              (q₀, λ a. rest (All-append IsComplete done (idle ∷ []) a ((λ z. cc), tt))))
      ]

  -- Where the mirroring of a status ends without an error in a write and reports no failure, every
  -- mirror of every image that is in use is mirrored in the status that it leaves.
  pub mirror_images-IsComplete :
      (obj : MirrorObject) (pods : StringMap Pod) (ms out : List MatchingImage) (w : W)
      → (mirror_images kube namespace mirrors obj pods [] false ms w).0 ≡ ok (out, false)
      → All IsComplete out
  mirror_images-IsComplete obj pods ms out w h =
      (mirror_images-IsComplete_from obj pods [] false ms out w h).1 tt
