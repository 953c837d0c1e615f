-- ===== src/Mirroring/Waiting.antt =====
-- The clean-up before any retention has passed: nothing is deleted, and the object is looked at again in
-- time.
use kube_image_keeper.Prelude.{
  ◌≡◌, refl, ◌+◌, ◌-◌, ◌^◌, ◌≤◌, ◌<◌, ℕ, Bool, true, false, List, [], ◌∷◌, none, some, keep, not,
  ap, ◌∙◌, sym, if◌then◌else◌, Option, subst, All, Option-cases, inl, inr, arith,
}
use kube_image_keeper.Prelude.Int.{ℤ, pos, ◌≤ℤ◌}
use kube_image_keeper.Text.{Text}
use kube_image_keeper.Resources.{Time, Cleanup, Mirror, MirrorStatus, MatchingImage}
use kube_image_keeper.Mirroring.Images.{Kube}
use kube_image_keeper.Mirroring.Loops.{
  Progress, clean_mirror, clean_mirrors, keep_image, clean_images,
}
use kube_image_keeper.Mirroring.Due.{
  IsDueBy, sooner-nonneg, sooner-earlier, sooner-IsDueBy, delete_after-IsDueBy,
}

abbrev is_nil {ℓ} : {A : Type ℓ} → List A → Bool
is_nil [] = true
is_nil (_ ∷ _) = false

some-injective {ℓ} : {A : Type ℓ} {a b : A} → some a ≡ some b → a ≡ b
some-injective h = cc

-- In use, or with a mirror.
abbrev is_kept : Option Time → List MirrorStatus → Bool
is_kept none ms = true
is_kept (some _) ms = not (is_nil ms)

abbrev pub has_reason : MatchingImage → Bool
has_reason m = is_kept m.unused_since m.mirrors

abbrev pub active : ℕ → Cleanup
active r = record { enabled = true; retention = pos r }

-- Every unused image that still has a mirror is due by the end of its retention.
abbrev pub AllDue : ℕ → ℕ → List MatchingImage → ℤ → Type 0
AllDue start r images q =
    All
      (λ m.
        (t : Time) → m.unused_since ≡ some t → is_nil m.mirrors ≡ false → IsDueBy (t + r - start) q)
      images

module _ {W D : Type 0} (kube : Kube W D) (namespace : Text) (mirrors : List Mirror)
    (I : W → Type 0) (start r : ℕ) (reads : (w : W) → I w → I (kube.now w).1)
    (ticks : (w : W) → I w → start ≤ (kube.now w).0) (small : r < 2 ^ 63) where
  -- At every time that the clock shows, the image has been unused for less than the retention.
  abbrev pub IsEarly : Time → Type 0
  IsEarly t = (w : W) → I w → (t ≤ (kube.now w).0) × ((kube.now w).0 < t + r)

  -- The clean-up has asked for no deletion, and does not put off what is due.
  record Stays (p q : Progress) (w : W) : Type 0 where
    kept : I w
    same_failed : q.some_deletion_failed ≡ p.some_deletion_failed
    nonneg : pos 0 ≤ℤ q.requeue_after
    earlier : (b : ℕ) → IsDueBy b p.requeue_after → IsDueBy b q.requeue_after

  Stays-trans : {p q s : Progress} {v w : W} → Stays p q v → Stays q s w → Stays p s w
  Stays-trans h k = record {
    kept = k.kept;
    same_failed = k.same_failed ∙ h.same_failed;
    nonneg = k.nonneg;
    earlier = λ b d. k.earlier b (h.earlier b d);
  }

  clean_mirror-Stays :
      (t : Time) (p : Progress) (m : MirrorStatus) (w : W)
      → IsEarly t
      → I w
      → pos 0 ≤ℤ p.requeue_after
      → (let out = clean_mirror kube namespace mirrors (active r) t p m w in
          (out.0.0 ≡ true) × Stays p out.0.1 out.1 × IsDueBy (t + r - start) out.0.1.requeue_after)
  unfolding clean_mirror
  clean_mirror-Stays t p m w early i h =
      let now = (kube.now w).0 in
      let left = delete_after-IsDueBy r start now t (ticks w i) (early w i).0 (early w i).1 small in
      rw left.0 (
        refl,
        record {
          kept = reads w i;
          same_failed = refl;
          nonneg = sooner-nonneg p.requeue_after _ h left.0;
          earlier = λ b k. sooner-earlier p.requeue_after _ b left.0 k;
        },
        sooner-IsDueBy p.requeue_after _ _ h left,
      )

  clean_mirrors-Stays :
      (t : Time) (p : Progress) (ms : List MirrorStatus) (w : W)
      → IsEarly t
      → I w
      → pos 0 ≤ℤ p.requeue_after
      → (let out = clean_mirrors kube namespace mirrors (active r) t p ms w in
          (out.0.0 ≡ ms)
          × Stays p out.0.1 out.1
          × (is_nil ms ≡ false → IsDueBy (t + r - start) out.0.1.requeue_after))
  unfolding clean_mirrors
  clean_mirrors-Stays t p [] w early i h =
      (refl, record { kept = i; same_failed = refl; nonneg = h; earlier = λ b k. k }, λ q. cc)
  clean_mirrors-Stays t p (m ∷ ms) w early i h =
      let step = clean_mirror kube namespace mirrors (active r) t p m w in
      let (q, s, d) = clean_mirror-Stays t p m w early i h in
      let (q', s', d') = clean_mirrors-Stays t step.0.1 ms step.1 early s.kept s.nonneg in
      (rw (q, q') refl, Stays-trans s s', λ _. s'.earlier (t + r - start) d)

  keep-has_reason :
      (m : MatchingImage) (images rest : List MatchingImage) (u : Option Time)
      → m.unused_since ≡ u
      → rest ≡ keep has_reason images
      → (if is_kept u m.mirrors then m ∷ rest else rest) ≡ keep has_reason (m ∷ images)
  keep-has_reason m images rest u q e =
      ap (λ l. if is_kept u m.mirrors then m ∷ l else l) e
      ∙ ap (λ v. if is_kept v m.mirrors then m ∷ keep has_reason images else keep has_reason images)
          (sym q)

  keep_image_lem :
      (m : MatchingImage) (ms : List MirrorStatus) (rest : List MatchingImage)
      → keep_image kube namespace mirrors m ms rest
        ≡ (if not (is_nil ms) then record m { mirrors = ms } ∷ rest else rest)
  unfolding keep_image
  keep_image_lem m [] rest = refl
  keep_image_lem m (k ∷ ks) rest = refl

  clean_images-used :
      (p : Progress) (m : MatchingImage) (images : List MatchingImage) (w : W)
      → m.unused_since ≡ none
      → (let rest = clean_images kube namespace mirrors (active r) p images w in
          clean_images kube namespace mirrors (active r) p (m ∷ images) w
          ≡ ((m ∷ rest.0.0, rest.0.1), rest.1))
  unfolding clean_images
  clean_images-used p m images w q = simp q

  clean_images-unused :
      (p : Progress) (m : MatchingImage) (images : List MatchingImage) (w : W) (t : Time)
      → m.unused_since ≡ some t
      → (let inner = clean_mirrors kube namespace mirrors (active r) t p m.mirrors w in
          let rest = clean_images kube namespace mirrors (active r) inner.0.1 images inner.1 in
          clean_images kube namespace mirrors (active r) p (m ∷ images) w
          ≡ ((keep_image kube namespace mirrors m inner.0.0 rest.0.0, rest.0.1), rest.1))
  unfolding clean_images
  clean_images-unused p m images w t q = simp q

  -- What the clean-up ends with: the images that are in use or have a mirror, in a world that no
  -- deletion has touched, with a time for each image that waits.
  abbrev IsEarlyEnd : Progress → List MatchingImage → (List MatchingImage × Progress) × W → Type 0
  IsEarlyEnd p images out =
      (out.0.0 ≡ keep has_reason images)
      × Stays p out.0.1 out.1
      × AllDue start r images out.0.1.requeue_after

  clean_images-Stays :
      (p : Progress) (images : List MatchingImage) (w : W)
      → All (λ m. (t : Time) → m.unused_since ≡ some t → IsEarly t) images
      → I w
      → pos 0 ≤ℤ p.requeue_after
      → IsEarlyEnd p images (clean_images kube namespace mirrors (active r) p images w)
  unfolding clean_images
  clean_images-Stays p [] w early i h =
      (refl, record { kept = i; same_failed = refl; nonneg = h; earlier = λ b k. k }, tt)
  clean_images-Stays p (m ∷ images) w early i h = elim (Option-cases m.unused_since) [
    | inl q ↦
        let (e, s, d) = clean_images-Stays p images w early.1 i h in
        subst (IsEarlyEnd p (m ∷ images)) (sym (clean_images-used p m images w q))
          (keep-has_reason m images _ none q e, s, ((λ t k. let no = sym q ∙ k in cc), d))
    | inr (t, q) ↦
        let inner = clean_mirrors kube namespace mirrors (active r) t p m.mirrors w in
        let (e, s, d) = clean_mirrors-Stays t p m.mirrors w (early.0 t q) i h in
        let (e', s', d') = clean_images-Stays inner.0.1 images inner.1 early.1 s.kept s.nonneg in
        subst (IsEarlyEnd p (m ∷ images)) (sym (clean_images-unused p m images w t q)) (
          rw e (keep_image_lem m m.mirrors _ ∙ keep-has_reason m images _ (some t) q e'),
          Stays-trans s s',
          (
            (λ u k n. s'.earlier (u + r - start) (
                subst (λ v. IsDueBy (v + r - start) inner.0.1.requeue_after)
                  (some-injective (sym q ∙ k)) (d n))),
            d',
          ),
        )
  ]

  -- The clean-up that runs while no unused image has reached its retention: where the clock keeps the
  -- predicate, shows no time before the start, and shows for each unused image a time at which it has been
  -- unused for less than the retention, the predicate holds at the end, so nothing has been deleted; no
  -- deletion is reported as failed; the status keeps every image that is in use or has a mirror; and each
  -- unused image that has one is looked at again by the end of its retention.
  pub clean_images-early :
      (images : List MatchingImage) (w : W)
      → All (λ m. (t : Time) → m.unused_since ≡ some t → IsEarly t) images
      → I w
      → (let none_yet : Progress = record { requeue_after = pos 0; some_deletion_failed = false } in
          let out = clean_images kube namespace mirrors (active r) none_yet images w in
          (out.0.0 ≡ keep has_reason images)
          × I out.1
          × (out.0.1.some_deletion_failed ≡ false)
          × AllDue start r images out.0.1.requeue_after)
  clean_images-early images w early i =
      let (e, s, d) =
        clean_images-Stays (record { requeue_after = pos 0; some_deletion_failed = false }) images w
          early i (omega arith) in
      (e, s.kept, s.same_failed, d)
