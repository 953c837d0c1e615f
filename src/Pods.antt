-- ===== src/Pods.antt =====
-- What the program reads and writes of a Kubernetes Pod (corev1.Pod), and string maps.
pub mod Laws
use kube_image_keeper.Prelude.{List, [], ◌∷◌, Option, none, some, if◌then◌else◌}
use kube_image_keeper.Text.{Text, text_eq}

-- A Go map from strings as an association list with at most one entry for a key.
abbrev pub StringMap {ℓ} : Type ℓ → Type ℓ
StringMap V = List (Text × V)

module _ {ℓ} {V : Type ℓ} where
  -- v, ok := m[k]
  unfoldable pub lookup : Text → StringMap V → Option V
  unfolding text_eq
  lookup k [] = none
  lookup k ((j, v) ∷ m) = if text_eq j k then some v else lookup k m

  -- m[k] = v
  unfoldable pub insert : Text → V → StringMap V → StringMap V
  unfolding text_eq
  insert k v [] = (k, v) ∷ []
  insert k v ((j, w) ∷ m) = if text_eq j k then (j, v) ∷ m else (j, w) ∷ insert k v m

  -- maps.Keys
  unfoldable pub keys : StringMap V → List Text
  keys [] = []
  keys ((k, v) ∷ m) = k ∷ keys m

pub data PullPolicy : Type 0 where
  always never if_not_present : PullPolicy

pub record Container : Type 0 where
  pub name : Text
  pub image : Text
  pub image_pull_policy : PullPolicy

pub record Pod : Type 0 where
  pub name : Text
  pub namespace : Text
  pub labels : StringMap Text
  pub annotations : StringMap Text
  pub containers : List Container
  pub init_containers : List Container
  -- the names of spec.imagePullSecrets
  pub image_pull_secrets : List Text
