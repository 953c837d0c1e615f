-- ===== src/Mirroring/Images.antt =====
-- The mirror objects, and the operations on one image: mirrorImage and cleanupMirror, with the
-- secrets they read.
use kube_image_keeper.Prelude.{Bool, true, false, List, [], ◌∷◌, Option, none, some, if◌then◌else◌}
use kube_image_keeper.Text.{Text, is_empty}
use kube_image_keeper.Errors.{Result, ok, err}
use kube_image_keeper.Effects.{Eff, pure, raise, attempt, ◌>>=◌, ◌>>◌}
use kube_image_keeper.Pods.{StringMap, lookup, Pod}
use kube_image_keeper.Filters.{Regexp, Selector, Filter}
use kube_image_keeper.Selection.{
  filter_selector, cluster_filter_selector, pod_matcher, image_filter, build,
}
use kube_image_keeper.Resources.{
  Time, ObjectMeta, Mirror, MirrorStatus, MatchingImage, ImageSetMirrorBase, ImageSetMirror,
  ClusterImageSetMirror, get_credential_secret_for_image,
}
use kube_image_keeper.Webhook.Alternatives.{Secret}

-- The interface MirrorObject and its two implementations.
pub data MirrorObject : Type 0 where
  namespaced : ImageSetMirror → MirrorObject
  cluster_wide : ClusterImageSetMirror → MirrorObject

abbrev pub object_meta : MirrorObject → ObjectMeta
object_meta (namespaced m) = m.meta
object_meta (cluster_wide c) = c.meta

-- MirrorSpec
abbrev pub mirror_spec : MirrorObject → ImageSetMirrorBase
mirror_spec (namespaced m) = m.base
mirror_spec (cluster_wide c) = c.base

-- MirrorStatus
abbrev pub mirror_status : MirrorObject → List MatchingImage
mirror_status (namespaced m) = m.matching_images
mirror_status (cluster_wide c) = c.matching_images

abbrev pub with_status : List MatchingImage → MirrorObject → MirrorObject
with_status images (namespaced m) = namespaced (record m { matching_images = images })
with_status images (cluster_wide c) = cluster_wide (record c { matching_images = images })

abbrev pub with_meta : ObjectMeta → MirrorObject → MirrorObject
with_meta meta (namespaced m) = namespaced (record m { meta = meta })
with_meta meta (cluster_wide c) = cluster_wide (record c { meta = meta })

module _ (compile : Text → Result Regexp) (parse : Text → Result Selector) where
  unfoldable pub object_pod_matcher : MirrorObject → Result (Pod → Bool)
  unfolding pod_matcher filter_selector cluster_filter_selector
  object_pod_matcher (namespaced m) = pod_matcher (filter_selector compile parse m.filter)
  object_pod_matcher (cluster_wide c) = pod_matcher (cluster_filter_selector compile parse c.filter)

  unfoldable pub object_image_filter : MirrorObject → Result Filter
  unfolding image_filter filter_selector cluster_filter_selector build
  object_image_filter (namespaced m) =
      image_filter (filter_selector compile parse m.filter) (build compile m.base.image_filter)
  object_image_filter (cluster_wide c) =
      image_filter (cluster_filter_selector compile parse c.filter)
        (build compile c.base.image_filter)

-- The API server, the registries and the clock, as the reconcilers of mirrors call them; D is a descriptor
-- of an image.
pub record Kube (W D : Type 0) : Type 0 where
  -- by namespace and name
  pub get_secret : Text → Text → Eff W Secret
  pub get_descriptor : List Secret → Text → Eff W D
  -- the image of a descriptor, written with the secrets
  pub copy_image : D → List Secret → Text → Eff W (Unit {0})
  pub delete_image : List Secret → Text → Eff W (Unit {0})
  pub now : W → Time × W
  pub get_object : Eff W MirrorObject
  pub update : MirrorObject → Eff W MirrorObject
  -- from the object as it was to the object as it is
  pub patch_status : MirrorObject → MirrorObject → Eff W (Unit {0})
  pub list_pods : Text → Eff W (List Pod)
  pub list_cluster_image_set_mirrors : Eff W (List ClusterImageSetMirror)
  pub list_image_set_mirrors : Eff W (List ImageSetMirror)
  pub retry_on_conflict : Eff W MirrorObject → Eff W MirrorObject

-- corev1.Secret{}
zero_secret : Secret
zero_secret = record { name = []; namespace = []; contents = [] }

-- destSecrets: one secret, which is empty where none is configured
unfoldable pub dest_secrets : Option Secret → List Secret
unfolding zero_secret
dest_secrets none = zero_secret ∷ []
dest_secrets (some s) = s ∷ []

module _ {W D : Type 0} (kube : Kube W D) where
  abbrev pub clock : Eff W Time
  clock w = let (t, w') = kube.now w in (ok t, w')

  unfoldable pub read_secrets : Text → List Text → Eff W (List Secret)
  read_secrets namespace [] = pure []
  read_secrets namespace (name ∷ names) = do
    secret ← kube.get_secret namespace name
    rest ← read_secrets namespace names
    pure (secret ∷ rest)

  unfoldable pub get_pull_secrets_from_pods : StringMap Pod → Text → Eff W (List Secret)
  unfolding lookup read_secrets
  get_pull_secrets_from_pods pods image = elim (lookup image pods) [
    | none ↦ pure []
    | some pod ↦ read_secrets pod.namespace pod.image_pull_secrets
  ]

  unfoldable pub get_image_secret_from_mirrors : Text → Text → List Mirror → Eff W (Option Secret)
  unfolding get_credential_secret_for_image
  get_image_secret_from_mirrors image namespace mirrors =
      elim (get_credential_secret_for_image mirrors image) [
        | none ↦ pure none
        | some cred ↦ (do
          secret ←
              kube.get_secret (if is_empty namespace then cred.namespace else namespace) cred.name
          pure (some secret))
      ]

  -- The body of mirrorImage between the secrets and the deferred function.
  unfoldable pub copy_step : List Secret → List Secret → Text → MirrorStatus → Eff W MirrorStatus
  copy_step src dest source to = do
    descriptor ← kube.get_descriptor src source
    kube.copy_image descriptor dest to.image
    t ← clock
    pure (record to { mirrored_at = some t })

  -- The deferred function: the image that could not be copied may be there all the same.
  unfoldable pub deferred : List Secret → MirrorStatus → Result MirrorStatus → Eff W MirrorStatus
  deferred dest to (ok done) = pure done
  deferred dest to (err e) = attempt (kube.get_descriptor dest to.image) λ r. elim r [
    | ok _ ↦ (do t ← clock; pure (record to { mirrored_at = some t }))
    | err _ ↦ raise e
  ]

  unfoldable pub mirror_image :
      Text → List Mirror → StringMap Pod → Text → MirrorStatus → Eff W MirrorStatus
  unfolding get_pull_secrets_from_pods get_image_secret_from_mirrors dest_secrets copy_step deferred
  mirror_image namespace mirrors pods source to = do
    src ← get_pull_secrets_from_pods pods source
    secret ← get_image_secret_from_mirrors to.image namespace mirrors
    attempt (copy_step src (dest_secrets secret) source to) (deferred (dest_secrets secret) to)

  -- The result of DeleteImage, as cleanupMirror returns it.
  unfoldable pub succeeds : Eff W (Unit {0}) → W → Bool × W
  succeeds m w = let (r, w') = m w in elim r [ ok _ ↦ (true, w') | err _ ↦ (false, w') ]

  unfoldable pub cleanup_mirror : Text → Text → List Mirror → W → Bool × W
  unfolding get_image_secret_from_mirrors succeeds
  cleanup_mirror image namespace mirrors w =
      let (r, w') = get_image_secret_from_mirrors image namespace mirrors w in
      elim r [
        | err _ ↦ (false, w')
        | ok none ↦ (true, w')
        | ok (some secret) ↦ succeeds (kube.delete_image (secret ∷ []) image) w'
      ]
