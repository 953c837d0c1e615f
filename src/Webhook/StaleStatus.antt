-- ===== src/Webhook/StaleStatus.antt =====
-- internal/webhook/core/v1/pod_webhook.go: the cached availability check of one image, and the clearing
-- of the status of a mirror that its registry does not serve. Concurrent checks of one reference share
-- one call; this is that call.
use kube_image_keeper.Prelude.{
  ℕ, ltb, Bool, true, false, not, ◌&&◌, List, [], ◌∷◌, ◌++◌, length, Option, none, some, is_some,
  if◌then◌else◌,
}
use kube_image_keeper.Text.{Text, codes, text_eq, is_empty}
use kube_image_keeper.Errors.{Error, message, Result, ok, err}
use kube_image_keeper.Effects.{Eff, ◌>>=◌, ◌>>◌}
use kube_image_keeper.Resources.{Time, MirrorStatus, MatchingImage, ImageSetMirror}
use kube_image_keeper.Webhook.Alternatives.{
  SecretOwner, mirror_owner, replicated_owner, Secret, AlternativeImage,
}
use kube_image_keeper.Registry.Client.{head, Remote}
use kube_image_keeper.Registry.Probe.{
  ImageAvailabilityStatus, image_not_found, check_image_availability,
}

-- The goroutines that hold a place in the channel `cleanupSemaphore`.
pub record Cleanups : Type 0 where
  pub capacity : ℕ
  pub running : List AlternativeImage

-- tryCleanupStaleMirrorStatus: is a channel returned, and the goroutines then
unfoldable pub try_cleanup_stale_mirror_status : AlternativeImage → Cleanups → Bool × Cleanups
try_cleanup_stale_mirror_status image c =
    if ltb (length c.running) c.capacity
    then (true, record c { running = image ∷ c.running })
    else (false, c)

-- A check asks for a cleanup, or a goroutine ends and gives its place back.
pub data CleanupStep : Cleanups → Cleanups → Type 0 where
  requested :
      {c : Cleanups} (image : AlternativeImage)
      → CleanupStep c (try_cleanup_stale_mirror_status image c).1
  ended :
      {n : ℕ} (before : List AlternativeImage) (image : AlternativeImage)
      (after : List AlternativeImage)
      → CleanupStep
          (record { capacity = n; running = before ++ image ∷ after })
          (record { capacity = n; running = before ++ after })

-- The cache `checkCache`, whose entries expire.
pub record CheckCache (W : Type 0) : Type 0 where
  pub get_checked : Text → W → Option Bool × W
  pub set_checked : Text → Bool → W → W

abbrev pub is_not_found_status : ImageAvailabilityStatus → Bool
is_not_found_status image_not_found = true
is_not_found_status _ = false

module _ {W K D : Type 0} (remote : Remote W K D) (cache : CheckCache W)
    (resolve_digest : Bool) where
  -- The result of a check is kept, and a mirror that is not there has its status cleared.
  unfoldable pub settle_check :
      AlternativeImage
      → Cleanups
      → (ImageAvailabilityStatus × Option Error) × W
      → (Option Error × Cleanups) × W
  unfolding try_cleanup_stale_mirror_status
  settle_check image c ((status, e), w) =
      let w' = cache.set_checked image.reference (not (is_some e)) w in
      if is_not_found_status status && is_some image.secret_owner
      then ((e, (try_cleanup_stale_mirror_status image c).1), w')
      else ((e, c), w')

  -- The function that the request group runs.
  unfoldable pub check_image :
      AlternativeImage → List Secret → Cleanups → W → (Option Error × Cleanups) × W
  unfolding check_image_availability settle_check
  check_image image pull_secrets c w =
      settle_check image c
        (check_image_availability remote head image.reference pull_secrets resolve_digest w)

  -- What the cache has, or else the check.
  unfoldable pub answer :
      AlternativeImage → List Secret → Cleanups → Option Bool × W → (Option Error × Cleanups) × W
  unfolding check_image
  answer image pull_secrets c (some true, w) = ((none, c), w)
  answer image pull_secrets c (some false, w) = ((some (message (codes "cached")), c), w)
  answer image pull_secrets c (none, w) = check_image image pull_secrets c w

  -- checkImageAvailabilityCached
  unfoldable pub check_image_availability_cached :
      AlternativeImage → List Secret → Cleanups → W → (Option Error × Cleanups) × W
  unfolding answer
  check_image_availability_cached image pull_secrets c w =
      answer image pull_secrets c (cache.get_checked image.reference w)

pub record GroupVersionKind : Type 0 where
  pub group : Text
  pub version : Text
  pub kind : Text

-- The document that patchMirror applies.
pub record MirrorPatch : Type 0 where
  pub api_version : Text
  pub kind : Text
  pub name : Text
  pub namespace : Option Text
  pub matching_image : Text
  pub mirror_image : Text
  pub mirrored_at : Option Time

-- The scheme, the clock and the API server.
pub record StatusWriter (W : Type 0) : Type 0 where
  -- of a ClusterImageSetMirror, where the test holds, or of an ImageSetMirror
  pub gvk_for_object : Bool → Result GroupVersionKind
  pub now : W → Time × W
  -- server-side apply on the status, owned by kuik-webhook, with force
  pub apply_status : MirrorPatch → Eff W (Unit {0})

-- The test of the inner loop: an entry that is to be cleared.
abbrev pub is_stale : Text → MirrorStatus → Bool
is_stale reference m = text_eq m.image reference && is_some m.mirrored_at

-- The document of patchMirror, which json.Marshal accepts.
unfoldable pub mirror_patch :
    ImageSetMirror → GroupVersionKind → Text → Text → Option Time → MirrorPatch
mirror_patch owner gvk matching_image mirror_image mirrored_at = record {
  api_version = gvk.group ++ b'/' ∷ gvk.version;
  kind = gvk.kind;
  name = owner.name;
  namespace = if is_empty owner.namespace then none else some owner.namespace;
  matching_image = matching_image;
  mirror_image = mirror_image;
  mirrored_at = mirrored_at;
}

module _ {W : Type 0} (writer : StatusWriter W) where
  -- patchMirror
  unfoldable pub patch_mirror :
      ImageSetMirror → GroupVersionKind → Text → Text → Option Time → Eff W (Unit {0})
  unfolding mirror_patch
  patch_mirror owner gvk matching_image mirror_image mirrored_at =
      writer.apply_status (mirror_patch owner gvk matching_image mirror_image mirrored_at)

  -- The two writes for one entry: the time is set, to own it, and removed.
  unfoldable pub clear_mirrored_at :
      ImageSetMirror → GroupVersionKind → Text → Text → Eff W (Unit {0})
  unfolding patch_mirror
  clear_mirrored_at owner gvk matching_image reference = do
    t ← λ w. let (t, w') = writer.now w in (ok t, w')
    patch_mirror owner gvk matching_image reference (some t)
    patch_mirror owner gvk matching_image reference none

  -- The inner loop; an error passes on to the next entry.
  unfoldable pub clear_mirrors :
      ImageSetMirror → GroupVersionKind → Text → Text → List MirrorStatus → W → W
  unfolding clear_mirrored_at text_eq
  clear_mirrors owner gvk reference matching_image [] w = w
  clear_mirrors owner gvk reference matching_image (m ∷ ms) w =
      clear_mirrors owner gvk reference matching_image ms (
        if is_stale reference m
        then (clear_mirrored_at owner gvk matching_image reference w).1
        else w)

  -- The outer loop.
  unfoldable pub clear_matching_images :
      ImageSetMirror → GroupVersionKind → Text → List MatchingImage → W → W
  unfolding clear_mirrors
  clear_matching_images owner gvk reference [] w = w
  clear_matching_images owner gvk reference (m ∷ ms) w =
      clear_matching_images owner gvk reference ms
        (clear_mirrors owner gvk reference m.image m.mirrors w)

  unfoldable pub clear_with : Text → ImageSetMirror → Result GroupVersionKind → W → W
  unfolding clear_matching_images
  clear_with reference owner (err _) w = w
  clear_with reference owner (ok gvk) w =
      clear_matching_images owner gvk reference owner.matching_images w

  -- The owner may be a replicated image set, which has no status to clear.
  clear_for_owner : Text → Option SecretOwner → W → W
  unfolding clear_with
  clear_for_owner reference none w = w
  clear_for_owner reference (some (replicated_owner _)) w = w
  clear_for_owner reference (some (mirror_owner owner)) w =
      clear_with reference owner (writer.gvk_for_object (is_empty owner.namespace)) w

  -- clearStaleMirrorStatus
  unfoldable pub clear_stale_mirror_status : AlternativeImage → W → W
  unfolding clear_for_owner
  clear_stale_mirror_status image = clear_for_owner image.reference image.secret_owner
