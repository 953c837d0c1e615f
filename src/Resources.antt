-- ===== src/Resources.antt =====
-- api/kuik/v1alpha1: the custom resources, as far as the controllers and the webhook read and write
-- them. A time is a number of nanoseconds after Go's zero time.
pub mod Prefixes
use kube_image_keeper.Prelude.{
  ℕ, Bool, List, [], ◌∷◌, Option, none, some, length, ltb, if◌then◌else◌, ◌&&◌,
}
use kube_image_keeper.Prelude.Int.{ℤ}
use kube_image_keeper.Text.{Text, has_prefix, path_join}
use kube_image_keeper.Selection.{Filter, ClusterFilter, ImageFilterDefinition}

abbrev pub Time : Type 0
Time = ℕ

pub record ObjectMeta : Type 0 where
  pub name : Text
  pub namespace : Text
  pub uid : Text
  pub deletion_timestamp : Option Time
  pub finalizers : List Text

pub record CredentialSecret : Type 0 where
  pub name : Text
  pub namespace : Text

pub record Cleanup : Type 0 where
  pub enabled : Bool
  pub retention : ℤ

pub record Mirror : Type 0 where
  pub priority : ℕ
  pub registry : Text
  pub path : Text
  pub credential_secret : Option CredentialSecret
  pub cleanup : Option Cleanup

pub record MirrorStatus : Type 0 where
  pub image : Text
  pub mirrored_at : Option Time
  pub last_error : Text

pub record MatchingImage : Type 0 where
  pub image : Text
  pub mirrors : List MirrorStatus
  pub unused_since : Option Time

pub record ImageSetMirrorBase : Type 0 where
  pub priority : ℤ
  pub image_filter : ImageFilterDefinition
  pub cleanup : Cleanup
  pub mirrors : List Mirror

pub record ImageSetMirror : Type 0 where
  pub meta : ObjectMeta
  pub open meta use {name, namespace}
  pub base : ImageSetMirrorBase
  pub open base use *
  pub filter : Filter
  pub matching_images : List MatchingImage

pub record ClusterImageSetMirror : Type 0 where
  pub meta : ObjectMeta
  pub open meta use {name, namespace}
  pub base : ImageSetMirrorBase
  pub open base use *
  pub filter : ClusterFilter
  pub matching_images : List MatchingImage

pub record ReplicatedUpstream : Type 0 where
  pub registry : Text
  pub path : Text
  pub priority : ℕ
  pub discard_alternative : Bool
  pub image_filter : ImageFilterDefinition
  pub credential_secret : Option CredentialSecret

pub record ReplicatedImageSet : Type 0 where
  pub meta : ObjectMeta
  pub open meta use {name, namespace}
  pub priority : ℤ
  pub upstreams : List ReplicatedUpstream
  pub filter : Filter

pub record ClusterReplicatedImageSet : Type 0 where
  pub meta : ObjectMeta
  pub open meta use {name, namespace}
  pub priority : ℤ
  pub upstreams : List ReplicatedUpstream
  pub filter : ClusterFilter

-- Mirror.Prefix
unfoldable pub prefix : Mirror → Text
unfolding path_join
prefix m = path_join (m.registry ∷ m.path ∷ [])

-- The loop of GetCredentialSecretForImage, with the secret found so far.
unfoldable pub credential_loop :
    List Mirror → Text → Option CredentialSecret → ℕ → Option CredentialSecret
unfolding has_prefix prefix
credential_loop [] image cred longest = cred
credential_loop (m ∷ ms) image cred longest =
    let longer = has_prefix image (prefix m) && ltb longest (length (prefix m)) in
    credential_loop ms image (if longer then m.credential_secret else cred)
      (if longer then length (prefix m) else longest)

-- Mirrors.GetCredentialSecretForImage
unfoldable pub get_credential_secret_for_image : List Mirror → Text → Option CredentialSecret
unfolding credential_loop
get_credential_secret_for_image mirrors image = credential_loop mirrors image none 0
