-- ===== src/Webhook/Clearing.antt =====
-- What the clearing of a stale mirror status writes, and what bounds it.
use kube_image_keeper.Prelude.{
  ◌≡◌, refl, sym, ap, ◌∙◌, ◌≤◌, ℕ, List, [], ◌∷◌, ◌++◌, map, length, length-append, none, some,
  Bool-cases, Option-cases, inl, inr, if◌then◌else◌, arith,
}
use mathlib.Core.List.{append-nil, append_assoc, map-append}
use kube_image_keeper.Text.{Text, is_empty}
use kube_image_keeper.Errors.{Result, ok, err, ok-injective}
use kube_image_keeper.Resources.{Time, MirrorStatus, MatchingImage, ImageSetMirror}
use kube_image_keeper.Webhook.Alternatives.{mirror_owner, AlternativeImage}
use kube_image_keeper.Webhook.StaleStatus.{
  Cleanups, try_cleanup_stale_mirror_status, CleanupStep, requested, ended, clear_with,
  GroupVersionKind, MirrorPatch, StatusWriter, is_stale, mirror_patch, clear_mirrored_at,
  clear_mirrors, clear_matching_images, clear_stale_mirror_status,
}

-- The states that steps lead to from one with no goroutine.
pub data Reachable (n : ℕ) : Cleanups → Type 0 where
  idle : Reachable n (record { capacity = n; running = [] })
  after : {c d : Cleanups} → Reachable n c → CleanupStep c d → Reachable n d

abbrev pub IsBounded : ℕ → Cleanups → Type 0
IsBounded n c = (c.capacity ≡ n) × (length c.running ≤ n)

step-IsBounded : (n : ℕ) {c d : Cleanups} → CleanupStep c d → IsBounded n c → IsBounded n d
unfolding try_cleanup_stale_mirror_status
step-IsBounded n (requested {c = c} image) b = ground arith
step-IsBounded n (ended started image rest) b =
    ground (arith, length-append started (image ∷ rest), length-append started rest)

-- However checks ask for cleanups and goroutines end, at most as many goroutines run as the semaphore has
-- places.
pub Reachable-IsBounded : (n : ℕ) {c : Cleanups} → Reachable n c → IsBounded n c
Reachable-IsBounded n idle = ground arith
Reachable-IsBounded n (after r s) = step-IsBounded n s (Reachable-IsBounded n r)

-- A write with the time left out.
abbrev pub untimed : MirrorPatch → MirrorPatch
untimed p = record p { mirrored_at = elim p.mirrored_at [ none ↦ none | some _ ↦ some 0 ] }

-- The times that are written, without the writes that remove one.
abbrev pub written_times : List MirrorPatch → List Time
written_times [] = []
written_times (p ∷ ps) = elim p.mirrored_at [
  | none ↦ written_times ps
  | some t ↦ t ∷ written_times ps
]

written_times-append :
    (ps qs : List MirrorPatch) → written_times (ps ++ qs) ≡ written_times ps ++ written_times qs
written_times-append [] qs = refl
written_times-append (p ∷ ps) qs = elim (Option-cases p.mirrored_at) [
  | inl q ↦ rw q (written_times-append ps qs)
  | inr (t, q) ↦ rw q (ap (λ ts. t ∷ ts) (written_times-append ps qs))
]

-- The writes for the entries of one matching image: for each entry that is stale, one that sets the time
-- and one that removes it.
unfoldable pub mirror_writes :
    ImageSetMirror → GroupVersionKind → Text → Text → List MirrorStatus → List MirrorPatch
unfolding mirror_patch
mirror_writes owner gvk reference image [] = []
mirror_writes owner gvk reference image (m ∷ ms) =
    let rest = mirror_writes owner gvk reference image ms in
    if is_stale reference m
    then mirror_patch owner gvk image reference (some 0)
      ∷ mirror_patch owner gvk image reference none
      ∷ rest
    else rest

unfoldable pub status_writes :
    ImageSetMirror → GroupVersionKind → Text → List MatchingImage → List MirrorPatch
unfolding mirror_writes
status_writes owner gvk reference [] = []
status_writes owner gvk reference (m ∷ ms) =
    mirror_writes owner gvk reference m.image m.mirrors ++ status_writes owner gvk reference ms

-- A world that keeps the writes and what the clock has said, where no write fails.
module _ {W : Type 0} (writer : StatusWriter W) (log : W → List MirrorPatch)
    (succeeds : (p : MirrorPatch) (w : W) → (writer.apply_status p w).0 ≡ ok tt)
    (logs : (p : MirrorPatch) (w : W) → log (writer.apply_status p w).1 ≡ log w ++ p ∷ [])
    (reads : (w : W) → log (writer.now w).1 ≡ log w) (readings : W → List Time)
    (noted : (w : W) → readings (writer.now w).1 ≡ readings w ++ (writer.now w).0 ∷ [])
    (same_readings : (p : MirrorPatch) (w : W)
      → readings (writer.apply_status p w).1 ≡ readings w) where
  abbrev untimed_log : W → List MirrorPatch
  untimed_log w = map untimed (log w)

  -- The times that were written are those that the clock has said, in their order.
  abbrev pub IsTimed : W → Type 0
  IsTimed w = written_times (log w) ≡ readings w

  module _ (owner : ImageSetMirror) (gvk : GroupVersionKind) (reference : Text) where
    log-clear_mirrored_at :
        (image : Text) (w : W)
        → untimed_log (clear_mirrored_at writer owner gvk image reference w).1
          ≡ untimed_log w
            ++ mirror_patch owner gvk image reference (some 0)
              ∷ mirror_patch owner gvk image reference none
              ∷ []
    unfolding clear_mirrored_at mirror_patch
    log-clear_mirrored_at image w = simp (succeeds, logs, reads, map-append, append_assoc)

    clear_mirrored_at-IsTimed :
        (image : Text) (w : W)
        → IsTimed w
        → IsTimed (clear_mirrored_at writer owner gvk image reference w).1
    unfolding clear_mirrored_at mirror_patch
    clear_mirrored_at-IsTimed image w h =
        simp (succeeds, logs, reads, noted, same_readings, append_assoc, written_times-append, h)

    clear_mirrors-IsTimed :
        (image : Text) (ms : List MirrorStatus) (w : W)
        → IsTimed w
        → IsTimed (clear_mirrors writer owner gvk reference image ms w)
    unfolding clear_mirrors
    clear_mirrors-IsTimed image [] w h = h
    clear_mirrors-IsTimed image (m ∷ ms) w h = elim (Bool-cases (is_stale reference m)) [
      | inl q ↦ rw q (
          clear_mirrors-IsTimed image ms (clear_mirrored_at writer owner gvk image reference w).1
            (clear_mirrored_at-IsTimed image w h))
      | inr q ↦ rw q (clear_mirrors-IsTimed image ms w h)
    ]

    clear_matching_images-IsTimed :
        (ms : List MatchingImage) (w : W)
        → IsTimed w
        → IsTimed (clear_matching_images writer owner gvk reference ms w)
    unfolding clear_matching_images
    clear_matching_images-IsTimed [] w h = h
    clear_matching_images-IsTimed (m ∷ ms) w h =
        clear_matching_images-IsTimed ms
          (clear_mirrors writer owner gvk reference m.image m.mirrors w)
          (clear_mirrors-IsTimed m.image m.mirrors w h)

    log-clear_mirrors :
        (image : Text) (ms : List MirrorStatus) (w : W)
        → untimed_log (clear_mirrors writer owner gvk reference image ms w)
          ≡ untimed_log w ++ mirror_writes owner gvk reference image ms
    unfolding clear_mirrors mirror_writes
    log-clear_mirrors image [] w = sym (append-nil _)
    log-clear_mirrors image (m ∷ ms) w = elim (Bool-cases (is_stale reference m)) [
      | inl q ↦ rw q (
          log-clear_mirrors image ms (clear_mirrored_at writer owner gvk image reference w).1
          ∙ rw (log-clear_mirrored_at image w) (append_assoc (untimed_log w) _ _))
      | inr q ↦ rw q (log-clear_mirrors image ms w)
    ]

    log-clear_matching_images :
        (ms : List MatchingImage) (w : W)
        → untimed_log (clear_matching_images writer owner gvk reference ms w)
          ≡ untimed_log w ++ status_writes owner gvk reference ms
    unfolding clear_matching_images status_writes
    log-clear_matching_images [] w = sym (append-nil _)
    log-clear_matching_images (m ∷ ms) w =
        log-clear_matching_images ms (clear_mirrors writer owner gvk reference m.image m.mirrors w)
        ∙ rw (log-clear_mirrors m.image m.mirrors w) (append_assoc (untimed_log w) _ _)

  clear_with-cleared :
      (image : AlternativeImage) (owner : ImageSetMirror) (gvk : GroupVersionKind) (w : W)
      (g : Result GroupVersionKind)
      → g ≡ ok gvk
      → IsTimed w
      → (untimed_log (clear_with writer image.reference owner g w)
          ≡ untimed_log w ++ status_writes owner gvk image.reference owner.matching_images)
        × IsTimed (clear_with writer image.reference owner g w)
  unfolding clear_with
  clear_with-cleared image owner gvk w (err e) h timed = cc
  clear_with-cleared image owner gvk w (ok g) h timed = (
    log-clear_matching_images owner g image.reference owner.matching_images w
        ∙ rw (ok-injective h) refl,
    clear_matching_images-IsTimed owner g image.reference owner.matching_images w timed,
  )

  -- Where no write fails, the clearing for an image of a mirror set writes, for each entry of the set's
  -- status with that image and a time, a time and then no time, in the order of the status, and nothing
  -- else. The times that it writes are those that the clock has said, one reading for each entry, if the
  -- times that were written before are.
  pub log-clear_stale_mirror_status :
      (image : AlternativeImage) (owner : ImageSetMirror) (gvk : GroupVersionKind) (w : W)
      → image.secret_owner ≡ some (mirror_owner owner)
      → writer.gvk_for_object (is_empty owner.namespace) ≡ ok gvk
      → IsTimed w
      → (map untimed (log (clear_stale_mirror_status writer image w))
          ≡ map untimed (log w) ++ status_writes owner gvk image.reference owner.matching_images)
        × IsTimed (clear_stale_mirror_status writer image w)
  unfolding clear_stale_mirror_status
  log-clear_stale_mirror_status image owner gvk w h k timed = rw h (
      clear_with-cleared image owner gvk w (writer.gvk_for_object (is_empty owner.namespace)) k
        timed)
