-- ===== src/Webhook/Candidates.antt =====
-- buildAlternativesList, up to the secrets: the candidates that the replicated image sets, the original
-- image and the image set mirrors give, in the order in which the code appends them.
use kube_image_keeper.Prelude.{
  ℕ, suc, Bool, true, false, not, ◌||◌, List, [], ◌∷◌, ◌++◌, Option, none, some, if◌then◌else◌,
}
use kube_image_keeper.Prelude.Int.{pos, min_int}
use kube_image_keeper.Text.{Text, is_empty, path_join, trim_prefix}
use kube_image_keeper.Errors.{Result, ok, err, ◌>>=◌}
use kube_image_keeper.Pods.{Container as PodContainer, PullPolicy, always}
use kube_image_keeper.Filters.{Regexp, Selector, Filter, match}
use kube_image_keeper.Selection.{filter_selector, image_filter, build, build_with_registry}
use kube_image_keeper.Resources.{Mirror, ImageSetMirror, ReplicatedUpstream, ReplicatedImageSet}
use kube_image_keeper.References.{Named, registry_and_path_from_reference}
use kube_image_keeper.Sorting.{sort_stable}
use kube_image_keeper.Webhook.Alternatives.{
  mirror_owner, replicated_owner, Container, CrTypeOrder, original, cism, ism, cris, ris,
  PrioritizedAlternative, compare_alternatives, add_alternatives,
}

-- The first matching upstream, and which upstreams have a filter that compiles.
unfoldable pub scan_upstreams :
    (Text → Result Regexp) → Text → List ReplicatedUpstream → Option ReplicatedUpstream × List Bool
unfolding build_with_registry match
scan_upstreams compile image [] = (none, [])
scan_upstreams compile image (u ∷ us) =
    let (later, valid) = scan_upstreams compile image us in
    elim (build_with_registry compile u.image_filter u.registry) [
      | err _ ↦ (later, false ∷ valid)
      | ok f ↦ ((if match f image then some u else later), true ∷ valid)
    ]

abbrev pub replicated_type : ReplicatedImageSet → CrTypeOrder
replicated_type r = if is_empty r.namespace then cris else ris

abbrev pub mirror_type : ImageSetMirror → CrTypeOrder
mirror_type m = if is_empty m.namespace then cism else ism

upstream_alternative : ReplicatedImageSet → Text → ReplicatedUpstream → ℕ → PrioritizedAlternative
unfolding path_join
upstream_alternative r suffix u index = record {
  reference = path_join (u.registry ∷ u.path ∷ []) ++ suffix;
  credential_secret = u.credential_secret;
  secret_owner = some (replicated_owner r);
  cr_priority = r.priority;
  intra_priority = u.priority;
  type_order = replicated_type r;
  declaration_order = index;
}

-- The loop over the upstreams of a set with a match.
unfoldable pub upstream_alternatives :
    ReplicatedImageSet
    → Text
    → ℕ
    → List ReplicatedUpstream
    → List Bool
    → List PrioritizedAlternative
unfolding upstream_alternative
upstream_alternatives r suffix index [] valid = []
upstream_alternatives r suffix index (u ∷ us) [] = []
upstream_alternatives r suffix index (u ∷ us) (v ∷ valid) =
    let rest = upstream_alternatives r suffix (suc index) us valid in
    if not v || u.discard_alternative then rest else upstream_alternative r suffix u index ∷ rest

-- One replicated image set: what it appends, and whether it discards the original image.
unfoldable pub from_replicated :
    (Text → Result Regexp) → Text → ReplicatedImageSet → List PrioritizedAlternative × Bool
unfolding scan_upstreams upstream_alternatives path_join trim_prefix
from_replicated compile image r =
    let (matched, valid) = scan_upstreams compile image r.upstreams in
    elim matched [
      | none ↦ ([], false)
      | some u ↦ (
        upstream_alternatives r (trim_prefix image (path_join (u.registry ∷ u.path ∷ []))) 0
            r.upstreams valid,
        u.discard_alternative,
      )
    ]

unfoldable pub from_all_replicated :
    (Text → Result Regexp) → Text → List ReplicatedImageSet → List PrioritizedAlternative × Bool
unfolding from_replicated
from_all_replicated compile image [] = ([], false)
from_all_replicated compile image (r ∷ rs) =
    let (here, discard) = from_replicated compile image r in
    let (rest, discards) = from_all_replicated compile image rs in
    (here ++ rest, discard || discards)

unfoldable pub pins_original : PullPolicy → Bool → Bool
pins_original always honor = not honor
pins_original _ honor = false

-- The candidate for the original image; `honor` is HonorPrioritiesOnAlwaysImagePullPolicy.
unfoldable pub original_alternative : Text → PullPolicy → Bool → PrioritizedAlternative
unfolding pins_original
original_alternative image policy honor = record {
  reference = image;
  credential_secret = none;
  secret_owner = none;
  cr_priority = if pins_original policy honor then min_int else pos 0;
  intra_priority = 0;
  type_order = original;
  declaration_order = 0;
}

mirror_alternative : ImageSetMirror → Text → Mirror → ℕ → PrioritizedAlternative
unfolding path_join
mirror_alternative m img_path mirror index = record {
  reference = path_join (mirror.registry ∷ mirror.path ∷ img_path ∷ []);
  credential_secret = mirror.credential_secret;
  secret_owner = some (mirror_owner m);
  cr_priority = m.priority;
  intra_priority = mirror.priority;
  type_order = mirror_type m;
  declaration_order = index;
}

unfoldable pub mirror_alternatives :
    ImageSetMirror → Text → ℕ → List Mirror → List PrioritizedAlternative
unfolding mirror_alternative
mirror_alternatives m img_path index [] = []
mirror_alternatives m img_path index (mirror ∷ mirrors) =
    mirror_alternative m img_path mirror index ∷ mirror_alternatives m img_path (suc index) mirrors

module _ (parse_normalized : Text → Result Named) (compile : Text → Result Regexp)
    (parse : Text → Result Selector) where
  -- The loop of one mirror set over the alternatives that were there before it.
  unfoldable pub mirrored :
      ImageSetMirror → Filter → List PrioritizedAlternative → Result (List PrioritizedAlternative)
  unfolding registry_and_path_from_reference match path_join mirror_alternatives
  mirrored m f [] = ok []
  mirrored m f (a ∷ as') = do
    (img_registry, img_path) ← registry_and_path_from_reference parse_normalized a.reference
    rest ← mirrored m f as'
    ok (
        if match f (path_join (img_registry ∷ img_path ∷ []))
        then mirror_alternatives m img_path 0 m.mirrors ++ rest
        else rest)

  -- A set whose filter does not compile is skipped.
  unfoldable pub from_mirrors :
      List ImageSetMirror → List PrioritizedAlternative → Result (List PrioritizedAlternative)
  unfolding mirrored image_filter filter_selector build
  from_mirrors [] alternatives = ok alternatives
  from_mirrors (m ∷ ms) alternatives =
      elim (image_filter (filter_selector compile parse m.filter) (build compile m.image_filter)) [
        | err _ ↦ from_mirrors ms alternatives
        | ok f ↦ mirrored m f alternatives >>= λ added. from_mirrors ms (alternatives ++ added)
      ]

  -- All candidates of a container, before they are sorted.
  unfoldable pub candidates :
      List ImageSetMirror
      → List ReplicatedImageSet
      → Bool
      → PodContainer
      → Text
      → Result (List PrioritizedAlternative)
  unfolding from_all_replicated original_alternative from_mirrors
  candidates mirrors replicated honor container image =
      let (upstreams, discard_original) = from_all_replicated compile image replicated in
      from_mirrors mirrors (
        if discard_original
        then upstreams
        else upstreams ++ original_alternative image container.image_pull_policy honor ∷ [])

  -- The candidates sorted and added to the images of the container.
  unfoldable pub build_alternatives_list :
      List ImageSetMirror → List ReplicatedImageSet → Bool → Container → Result Container
  unfolding candidates sort_stable compare_alternatives add_alternatives
  build_alternatives_list mirrors replicated honor c = do
    alternatives ← candidates mirrors replicated honor c.container c.normalized_image
    ok (add_alternatives c (sort_stable compare_alternatives alternatives))
