-- ===== src/Webhook/Admission.antt =====
-- defaultPod: which containers are looked at, and how their images are rewritten.
use kube_image_keeper.Prelude.{
  ℕ, suc, Bool, true, false, not, ◌&&◌, ◌||◌, List, [], ◌∷◌, ◌++◌, map, Option, none, some,
  delete_func, if◌then◌else◌,
}
use kube_image_keeper.Text.{Text, codes, is_empty, contains_byte}
use kube_image_keeper.Errors.{Result, ok, err, message}
use kube_image_keeper.Pods.{
  StringMap, lookup, insert, Container as PodContainer, PullPolicy, never, Pod,
}
use kube_image_keeper.Filters.{Regexp, Selector}
use kube_image_keeper.Selection.{filter_selector, cluster_filter_selector, pod_matcher, to_filter}
use kube_image_keeper.Resources.{
  CredentialSecret, Mirror, ImageSetMirror, ClusterImageSetMirror, ReplicatedUpstream,
  ReplicatedImageSet, ClusterReplicatedImageSet,
}
use kube_image_keeper.References.{Named, named_text}
use kube_image_keeper.Webhook.Alternatives.{Container}

abbrev pub mirror_pod_annotation : Text
mirror_pod_annotation = codes "kubernetes.io/config.mirror"

abbrev pub original_images_annotation : Text
original_images_annotation = codes "kuik.enix.io/original-images"

-- encoding/json on maps of strings. After Unmarshal the map is `none` where it is nil.
pub record Json : Type 0 where
  pub unmarshal : Text → Option (StringMap Text)
  pub marshal : Option (StringMap Text) → Text

unfoldable pub read_annotation : Json → Option Text → Option (StringMap Text)
read_annotation json none = some []
read_annotation json (some text) = json.unmarshal text

-- The original images that the annotation records.
unfoldable pub original_images : Json → Pod → Option (StringMap Text)
unfolding lookup read_annotation
original_images json pod = read_annotation json (lookup original_images_annotation pod.annotations)

new_container : Bool → ℕ → PodContainer → Container
new_container is_init index c = record {
  container = c;
  index = index;
  is_init = is_init;
  normalized_image = [];
  images = [];
  alternatives = [];
}

-- The loop over spec.containers: the containers that are not recorded yet, which it records.
unfoldable pub collect_containers :
    ℕ → List PodContainer → StringMap Text → List Container × StringMap Text
unfolding lookup insert new_container
collect_containers i [] originals = ([], originals)
collect_containers i (c ∷ cs) originals = elim (lookup c.name originals) [
  | some _ ↦ collect_containers (suc i) cs originals
  | none ↦
      let (rest, originals') = collect_containers (suc i) cs (insert c.name c.image originals) in
      (new_container false i c ∷ rest, originals')
]

-- The loop over spec.initContainers, which records nothing.
unfoldable pub collect_init_containers : ℕ → List PodContainer → StringMap Text → List Container
unfolding lookup new_container
collect_init_containers i [] originals = []
collect_init_containers i (c ∷ cs) originals =
    let rest = collect_init_containers (suc i) cs originals in
    elim (lookup (codes "init:" ++ c.name) originals) [
      | some _ ↦ rest
      | none ↦ new_container true i c ∷ rest
    ]

-- Writing to a nil map panics; reading one finds nothing.
unfoldable pub collect_all :
    Pod → Option (StringMap Text) → Result (List Container × Option (StringMap Text))
unfolding collect_containers collect_init_containers
collect_all pod (some originals) =
    let (cs, originals') = collect_containers 0 pod.containers originals in
    ok (cs ++ collect_init_containers 0 pod.init_containers originals', some originals')
collect_all pod none = elim pod.containers [
  | [] ↦ ok (collect_init_containers 0 pod.init_containers [], none)
  | _ ∷ _ ↦ err (message (codes "panic: assignment to entry in nil map"))
]

module _ (parse_normalized : Text → Result Named) (rewrite_never : Bool) where
  unfoldable pub normalize : Container → Container
  normalize c = elim (parse_normalized c.container.image) [
    | ok named ↦ record c { normalized_image = named_text named }
    | err _ ↦ c
  ]

  is_never : PullPolicy → Bool
  is_never never = true
  is_never _ = false

  -- The test of DeleteFunc: invalid, digest-based, or not to be rewritten.
  unfoldable pub is_ineligible : Container → Bool
  unfolding is_never contains_byte
  is_ineligible c =
      is_empty c.normalized_image
      || contains_byte c.container.image b'@'
      || (not rewrite_never && is_never c.container.image_pull_policy)

  unfoldable pub eligible : List Container → List Container
  unfolding normalize is_ineligible
  eligible cs = delete_func (map normalize cs) is_ineligible

-- The secret of a mirror or an upstream is looked up in the namespace of its resource.
abbrev pub in_namespace : Text → Option CredentialSecret → Option CredentialSecret
in_namespace ns none = none
in_namespace ns (some s) = some (record s { namespace = ns })

module _ (compile : Text → Result Regexp) (parse : Text → Result Selector) (pod : Pod) where
  applies : Result (Pod → Bool) → Bool
  applies (ok m) = m pod
  applies (err e) = false

  -- The mirror sets that apply to the pod, the cluster-wide ones first.
  unfoldable pub image_set_mirrors :
      List ClusterImageSetMirror → List ImageSetMirror → List ImageSetMirror
  unfolding applies pod_matcher filter_selector cluster_filter_selector to_filter
  image_set_mirrors [] [] = []
  image_set_mirrors [] (m ∷ ms) =
      let rest = image_set_mirrors [] ms in
      if applies (pod_matcher (filter_selector compile parse m.filter))
      then record m {
        base = record m.base {
          mirrors =
              map
                (λ (x : Mirror). record x {
                  credential_secret = in_namespace m.namespace x.credential_secret;
                })
                m.mirrors;
        };
      }
        ∷ rest
      else rest
  image_set_mirrors (c ∷ cs) ms =
      let rest = image_set_mirrors cs ms in
      if applies (pod_matcher (cluster_filter_selector compile parse c.filter))
      then record {
        meta = c.meta;
        base = c.base;
        filter = to_filter c.filter;
        matching_images = c.matching_images;
      }
        ∷ rest
      else rest

  unfoldable pub replicated_image_sets :
      List ClusterReplicatedImageSet → List ReplicatedImageSet → List ReplicatedImageSet
  unfolding applies pod_matcher filter_selector cluster_filter_selector to_filter
  replicated_image_sets [] [] = []
  replicated_image_sets [] (r ∷ rs) =
      let rest = replicated_image_sets [] rs in
      if applies (pod_matcher (filter_selector compile parse r.filter))
      then record r {
        upstreams =
            map
              (λ (x : ReplicatedUpstream). record x {
                credential_secret = in_namespace r.namespace x.credential_secret;
              })
              r.upstreams;
      }
        ∷ rest
      else rest
  replicated_image_sets (c ∷ cs) rs =
      let rest = replicated_image_sets cs rs in
      if applies (pod_matcher (cluster_filter_selector compile parse c.filter))
      then record {
        meta = c.meta;
        priority = c.priority;
        upstreams = c.upstreams;
        filter = to_filter c.filter;
      }
        ∷ rest
      else rest
