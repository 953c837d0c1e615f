-- ===== src/Webhook/Alternatives.antt =====
-- The alternatives of an image, their order, and the list of images of a container.
use Prim.Native.Nat.{compare}
use kube_image_keeper.Prelude.{
  ℕ, Bool, Ordering, List, [], ◌∷◌, ◌++◌, Option, none, contains_func, if◌then◌else◌,
}
use kube_image_keeper.Prelude.Int.{ℤ, compare_ℤ}
use kube_image_keeper.Text.{Text, text_eq}
use kube_image_keeper.Pods.{Container as PodContainer}
use kube_image_keeper.Resources.{CredentialSecret, ImageSetMirror, ReplicatedImageSet}
use kube_image_keeper.Sorting.Orders.{or_else}

-- The client.Object that owns the secret of an alternative.
pub data SecretOwner : Type 0 where
  mirror_owner : ImageSetMirror → SecretOwner
  replicated_owner : ReplicatedImageSet → SecretOwner

-- corev1.Secret
pub record Secret : Type 0 where
  pub name : Text
  pub namespace : Text
  pub contents : Text

pub record AlternativeImage : Type 0 where
  pub reference : Text
  pub credential_secret : Option CredentialSecret
  pub image_pull_secret : Option Secret
  pub secret_owner : Option SecretOwner

-- The embedded pointer is the place of the container in its list, with what it holds there.
pub record Container : Type 0 where
  pub container : PodContainer
  pub index : ℕ
  pub is_init : Bool
  pub normalized_image : Text
  pub images : List AlternativeImage
  pub alternatives : List Text

pub data CrTypeOrder : Type 0 where
  original cism ism cris ris : CrTypeOrder

abbrev pub type_rank : CrTypeOrder → ℕ
type_rank original = 0
type_rank cism = 1
type_rank ism = 2
type_rank cris = 3
type_rank ris = 4

pub record PrioritizedAlternative : Type 0 where
  pub reference : Text
  pub credential_secret : Option CredentialSecret
  pub secret_owner : Option SecretOwner
  pub cr_priority : ℤ
  pub intra_priority : ℕ
  pub type_order : CrTypeOrder
  pub declaration_order : ℕ

unfoldable pub compare_alternatives : PrioritizedAlternative → PrioritizedAlternative → Ordering
compare_alternatives a b = or_else (compare_ℤ a.cr_priority b.cr_priority) (
    or_else (compare (type_rank a.type_order) (type_rank b.type_order)) (
      or_else (compare a.intra_priority b.intra_priority)
        (compare a.declaration_order b.declaration_order)))

-- A reference is among the keys of the map `Alternatives`.
abbrev pub has_reference : List Text → Text → Bool
has_reference refs r = contains_func refs (λ x. text_eq x r)

unfoldable pub add_alternative :
    Container → Text → Option CredentialSecret → Option SecretOwner → Container
unfolding text_eq
add_alternative c reference credential_secret secret_owner =
    if has_reference c.alternatives reference then c else record c {
      alternatives = reference ∷ c.alternatives;
      images =
          c.images
          ++ record {
            reference = reference;
            credential_secret = credential_secret;
            image_pull_secret = none;
            secret_owner = secret_owner;
          }
            ∷ [];
    }

-- The loop that adds the sorted alternatives.
unfoldable pub add_alternatives : Container → List PrioritizedAlternative → Container
unfolding add_alternative
add_alternatives c [] = c
add_alternatives c (a ∷ as') =
    add_alternatives (add_alternative c a.reference a.credential_secret a.secret_owner) as'
