-- ===== src/Mirroring/Names.antt =====
-- The images that pods use, and the prefixes of the mirrors.
use kube_image_keeper.Prelude.{
  Bool, true, false, List, [], ◌∷◌, ◌++◌, map, Option, none, some, contains_func, if◌then◌else◌,
}
use kube_image_keeper.Text.{Text, has_prefix, contains_byte}
use kube_image_keeper.Errors.{Result, ok, err}
use kube_image_keeper.Pods.{StringMap, lookup, insert, keys, Container, Pod}
use kube_image_keeper.Filters.{Filter, match}
use kube_image_keeper.Resources.{prefix, ImageSetMirror, ClusterImageSetMirror}
use kube_image_keeper.References.{Named, named_text}
use kube_image_keeper.Webhook.Admission.{Json, original_images}

abbrev pub or_empty {ℓ} : {A : Type ℓ} → Option (List A) → List A
or_empty none = []
or_empty (some xs) = xs

module _ (parse_normalized : Text → Result Named) where
  -- imageNames[named.String()] = v, for an image that is not digest-based and that parses
  unfoldable pub add_name {ℓ} : {V : Type ℓ} → Text → V → StringMap V → StringMap V
  unfolding contains_byte insert
  add_name image v names =
      if contains_byte image b'@' then names else elim (parse_normalized image) [
        | ok named ↦ insert (named_text named) v names
        | err _ ↦ names
      ]

  unfoldable pub add_images : List Container → StringMap Bool → StringMap Bool
  unfolding add_name
  add_images [] names = names
  add_images (c ∷ cs) names = add_images cs (add_name c.image false names)

  unfoldable pub add_originals : StringMap Text → StringMap Bool → StringMap Bool
  unfolding add_name
  add_originals [] names = names
  add_originals ((_, image) ∷ originals) names = add_originals originals (add_name image true names)

  -- normalizedImageNamesFromPod
  unfoldable pub normalized_image_names_from_pod : Pod → List Text
  unfolding add_images keys
  normalized_image_names_from_pod pod = keys (add_images (pod.init_containers ++ pod.containers) [])

  -- normalizedImageNamesMapFromAnnotatedPod: the names, and whether they are original images
  unfoldable pub normalized_image_names_map_from_annotated_pod : Json → Pod → StringMap Bool
  unfolding add_images add_originals original_images
  normalized_image_names_map_from_annotated_pod json pod =
      add_originals (or_empty (original_images json pod))
        (add_images (pod.init_containers ++ pod.containers) [])

  unfoldable pub add_all : List Text → StringMap (Unit {0}) → StringMap (Unit {0})
  unfolding insert
  add_all [] set = set
  add_all (n ∷ ns) set = add_all ns (insert n tt set)

  -- podsInUseImages
  unfoldable pub pods_in_use_images : Json → List Pod → StringMap (Unit {0})
  unfolding normalized_image_names_map_from_annotated_pod add_all keys
  pods_in_use_images json [] = []
  pods_in_use_images json (pod ∷ pods) =
      add_all (keys (normalized_image_names_map_from_annotated_pod json pod))
        (pods_in_use_images json pods)

  -- An image lies under the prefix of a mirror that is relevant to the namespace.
  unfoldable pub is_mirrored : StringMap (List Text) → Text → Text → Bool
  unfolding lookup has_prefix
  is_mirrored prefixes namespace image =
      contains_func (or_empty (lookup [] prefixes) ++ or_empty (lookup namespace prefixes))
        (λ p. has_prefix image p)

  -- The loop over the names of one pod.
  unfoldable pub match_names :
      Filter → StringMap (List Text) → Pod → List Text → StringMap Pod → StringMap Pod
  unfolding is_mirrored match insert
  match_names f prefixes pod [] found = found
  match_names f prefixes pod (image ∷ images) found = match_names f prefixes pod images (
      if is_mirrored prefixes pod.namespace image
      then found
      else if match f image
      then insert image pod found
      else found)

  -- podsByNormalizedMatchingImages: the last pod that uses each matching image
  unfoldable pub pods_by_normalized_matching_images :
      Filter → StringMap (List Text) → List Pod → StringMap Pod → StringMap Pod
  unfolding match_names normalized_image_names_from_pod
  pods_by_normalized_matching_images f prefixes [] found = found
  pods_by_normalized_matching_images f prefixes (pod ∷ pods) found =
      pods_by_normalized_matching_images f prefixes pods
        (match_names f prefixes pod (normalized_image_names_from_pod pod) found)

-- The prefixes of the namespaced mirrors, put with those that are there.
unfoldable pub add_prefixes :
    Bool → List ImageSetMirror → StringMap (List Text) → StringMap (List Text)
unfolding lookup insert prefix
add_prefixes ignore_namespaces [] prefixes = prefixes
add_prefixes ignore_namespaces (m ∷ ms) prefixes =
    let ns : Text = if ignore_namespaces then [] else m.namespace in
    add_prefixes ignore_namespaces ms (elim m.mirrors [
      | [] ↦ prefixes
      | x ∷ xs ↦ insert ns (or_empty (lookup ns prefixes) ++ map prefix (x ∷ xs)) prefixes
    ])

cluster_prefixes : List ClusterImageSetMirror → List Text
unfolding prefix
cluster_prefixes [] = []
cluster_prefixes (c ∷ cs) = map prefix c.mirrors ++ cluster_prefixes cs

-- getAllMirrorPrefixes, after the two lists are read
unfoldable pub get_all_mirror_prefixes :
    Bool → List ClusterImageSetMirror → List ImageSetMirror → StringMap (List Text)
unfolding add_prefixes cluster_prefixes
get_all_mirror_prefixes ignore_namespaces cisms isms =
    add_prefixes ignore_namespaces isms (([], cluster_prefixes cisms) ∷ [])
