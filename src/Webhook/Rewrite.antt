-- ===== src/Webhook/Rewrite.antt =====
-- defaultPod as a whole: the custom resources and secrets that it reads, the cached search for the best
-- alternative, and the changes to the pod.
use Prim.Native.Nat.{min}
use kube_image_keeper.Prelude.{
  ℕ, zero, suc, ◌-◌, Bool, List, [], ◌∷◌, ◌++◌, Option, none, some, length, is_some, if◌then◌else◌,
}
use kube_image_keeper.Text.{Text, codes, text_eq}
use kube_image_keeper.Errors.{Error, Result, ok, err, is_not_found}
use kube_image_keeper.Effects.{Eff, pure, raise, attempt, ◌>>=◌, ◌>>◌}
use kube_image_keeper.Filters.{PodFilter}
use kube_image_keeper.Resources.{
  ObjectMeta, CredentialSecret, ImageSetMirror, ClusterImageSetMirror, ReplicatedImageSet,
  ClusterReplicatedImageSet,
}
use kube_image_keeper.Webhook.Alternatives.{
  SecretOwner, mirror_owner, replicated_owner, Secret, AlternativeImage,
}

-- A string of at most n bytes.
unfoldable pub take_bytes : ℕ → Text → Text
take_bytes zero t = []
take_bytes (suc n) [] = []
take_bytes (suc n) (x ∷ xs) = x ∷ take_bytes n xs

-- makeSecretName; `hash` prints xxhash in 16 hexadecimal digits. A prefix of more than 235 bytes, where the
-- slice of the source panics, leaves nothing of the name here; the only prefix is `kuik`.
unfoldable pub make_secret_name : (Text → Text) → Text → Text → Text → Text
unfolding take_bytes
make_secret_name hash prefix name hash_input =
    let name_length = min (253 - length prefix - 16 - 2) (length name) in
    prefix ++ b'-' ∷ (take_bytes name_length name ++ b'-' ∷ hash hash_input)

abbrev pub owner_meta : SecretOwner → ObjectMeta
owner_meta (mirror_owner m) = m.meta
owner_meta (replicated_owner r) = r.meta

-- The cached result of a search.
pub record CachedAlternativeImage : Type 0 where
  pub alternative_image : Option AlternativeImage
  pub alternatives_count : ℕ

-- The checks of one search: what each returns, and the order in which they end.
pub record Checks : Type 0 where
  pub check : AlternativeImage → List Secret → Option Error
  pub schedule : List ℕ

-- The API server, the caches and the registries.
pub record Cluster (W : Type 0) : Type 0 where
  pub list_cluster_image_set_mirrors : Eff W (List ClusterImageSetMirror)
  pub list_image_set_mirrors : Text → Eff W (List ImageSetMirror)
  pub list_cluster_replicated_image_sets : Eff W (List ClusterReplicatedImageSet)
  pub list_replicated_image_sets : Text → Eff W (List ReplicatedImageSet)
  -- by namespace and name
  pub get_secret : Text → Text → Eff W Secret
  -- the copy of a secret with the labels of its owner
  pub create_or_update_secret : Secret → ObjectMeta → Eff W (Unit {0})
  pub get_cached : Text → W → Option CachedAlternativeImage × W
  pub set_cached : Text → CachedAlternativeImage → W → W
  -- of so many tasks
  pub run_checks : ℕ → W → Checks × W

pub record Routing : Type 0 where
  pub global_pod_filter : PodFilter
  pub rewrite_on_never_image_pull_policy : Bool
  pub honor_priorities_on_always_image_pull_policy : Bool

module _ {W : Type 0} (cluster : Cluster W) where
  -- One image of the loop: a secret that is configured is read once.
  unfoldable pub load_secret : AlternativeImage → Option CredentialSecret → Eff W AlternativeImage
  load_secret image none = pure image
  load_secret image (some s) = if is_some image.image_pull_secret then pure image else (do
    secret ← cluster.get_secret s.namespace s.name
    pure (record image { image_pull_secret = some secret }))

  -- loadAlternativesSecrets
  unfoldable pub load_alternatives_secrets : List AlternativeImage → Eff W (List AlternativeImage)
  unfolding load_secret
  load_alternatives_secrets [] = pure []
  load_alternatives_secrets (image ∷ images) = do
    loaded ← load_secret image image.credential_secret
    rest ← load_alternatives_secrets images
    pure (loaded ∷ rest)

  -- One secret that was read, before the rest of the loop; one that is not there is passed over.
  unfoldable pub with_secret : Eff W (List Secret) → Result Secret → Eff W (List Secret)
  with_secret rest (ok secret) = do secrets ← rest; pure (secret ∷ secrets)
  with_secret rest (err e) = if is_not_found e then rest else raise e

  -- The pull secrets of the pod that exist.
  unfoldable pub pod_pull_secrets : Text → List Text → Eff W (List Secret)
  unfolding with_secret
  pod_pull_secrets namespace [] = pure []
  pod_pull_secrets namespace (name ∷ names) =
      attempt (cluster.get_secret namespace name) (with_secret (pod_pull_secrets namespace names))

  -- The secret to inject, for an image that has one; a copy is written unless this is a dry run.
  unfoldable pub ensure_secret :
      (Text → Text) → Text → Secret → Option SecretOwner → Bool → Eff W Secret
  unfolding make_secret_name text_eq
  ensure_secret hash namespace secret none write = pure secret
  ensure_secret hash namespace secret (some owner) write =
      if text_eq namespace secret.namespace
      then pure secret
      else (let target : Secret = record secret {
        name =
            make_secret_name hash (codes "kuik") secret.name
              (secret.namespace ++ b'/' ∷ (owner_meta owner).uid);
        namespace = namespace;
      } in
          if write
          then (do cluster.create_or_update_secret target (owner_meta owner); pure target)
          else pure target)
