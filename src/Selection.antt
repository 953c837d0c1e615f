-- ===== src/Selection.antt =====
-- api/kuik/v1alpha1: the unified filter of the custom resources and the deprecated image filter, and
-- which of them a resource uses.
pub mod Scope
pub mod Laws
use kube_image_keeper.Prelude.{Bool, true, false, ◌&&◌, List, [], ◌∷◌, map, if◌then◌else◌}
use kube_image_keeper.Text.{Text, codes, is_empty}
use kube_image_keeper.Errors.{Result, ok, err, ◌>>=◌}
use kube_image_keeper.Pods.{Pod}
use kube_image_keeper.Filters.{
  Regexp, Selector, Filter as ImageFilter, compile_include_exclude_filter, add_prefix_to_filter,
  match, compile_pod_filter, match_pod,
}

pub record FilterItem : Type 0 where
  pub image : Text
  pub label : Text
  pub annotation : Text

pub record ClusterFilterItem : Type 0 where
  pub filter_item : FilterItem
  pub open filter_item use *
  pub namespace : Text

pub record Filter : Type 0 where
  pub include : List FilterItem
  pub exclude : List FilterItem

pub record ClusterFilter : Type 0 where
  pub include : List ClusterFilterItem
  pub exclude : List ClusterFilterItem

-- len(f.Include)+len(f.Exclude) == 0
unfoldable pub has_no_items {ℓ} : {A : Type ℓ} → List A → List A → Bool
has_no_items [] [] = true
has_no_items _ _ = false

-- collectStrings
unfoldable pub collect_strings {ℓ} : {A : Type ℓ} → List A → (A → Text) → List Text
collect_strings [] get = []
collect_strings (i ∷ items) get =
    let rest = collect_strings items get in if is_empty (get i) then rest else get i ∷ rest

abbrev pub match_everything : Text
match_everything = codes ".*"

unfoldable pub defaulted_to_match_all : List Text → List Text
defaulted_to_match_all [] = match_everything ∷ []
defaulted_to_match_all (p ∷ ps) = p ∷ ps

-- ToFilter drops the namespaces.
unfoldable pub to_filter : ClusterFilter → Filter
to_filter cf = record {
  include = map (λ i. i.filter_item) cf.include;
  exclude = map (λ i. i.filter_item) cf.exclude;
}

module _ (compile : Text → Result Regexp) where
  unfoldable pub build_image_filter : Filter → Result ImageFilter
  unfolding collect_strings defaulted_to_match_all
  build_image_filter f =
      compile_include_exclude_filter compile
        (defaulted_to_match_all (collect_strings f.include (λ i. i.image)))
        (collect_strings f.exclude (λ i. i.image))

  unfoldable pub cluster_build_image_filter : ClusterFilter → Result ImageFilter
  unfolding build_image_filter to_filter
  cluster_build_image_filter cf = build_image_filter (to_filter cf)

module _ (parse : Text → Result Selector) where
  unfoldable pub build_pod_matcher : Filter → Result (Pod → Bool)
  unfolding collect_strings
  build_pod_matcher f = do
    pod_filter ←
        compile_pod_filter parse (collect_strings f.include (λ i. i.label))
          (collect_strings f.exclude (λ i. i.label)) (collect_strings f.include (λ i. i.annotation))
          (collect_strings f.exclude (λ i. i.annotation))
    ok (match_pod pod_filter)

module _ (compile : Text → Result Regexp) (parse : Text → Result Selector) where
  unfoldable pub cluster_build_pod_matcher : ClusterFilter → Result (Pod → Bool)
  unfolding build_pod_matcher to_filter
  cluster_build_pod_matcher cf = do
    pod_match ← build_pod_matcher parse (to_filter cf)
    ns_filter ←
        compile_include_exclude_filter compile
          (defaulted_to_match_all (collect_strings cf.include (λ i. i.namespace)))
          (collect_strings cf.exclude (λ i. i.namespace))
    ok (λ pod. pod_match pod && match ns_filter pod.namespace)

-- The interface filterSelector.
pub record FilterSelector : Type 0 where
  pub is_unset : Bool
  pub pod_matcher_of : Result (Pod → Bool)
  pub image_filter_of : Result ImageFilter

module _ (compile : Text → Result Regexp) (parse : Text → Result Selector) where
  unfoldable pub filter_selector : Filter → FilterSelector
  unfolding has_no_items build_pod_matcher build_image_filter
  filter_selector f = record {
    is_unset = has_no_items f.include f.exclude;
    pod_matcher_of = build_pod_matcher parse f;
    image_filter_of = build_image_filter compile f;
  }

  unfoldable pub cluster_filter_selector : ClusterFilter → FilterSelector
  unfolding has_no_items cluster_build_pod_matcher cluster_build_image_filter
  cluster_filter_selector cf = record {
    is_unset = has_no_items cf.include cf.exclude;
    pod_matcher_of = cluster_build_pod_matcher compile parse cf;
    image_filter_of = cluster_build_image_filter compile cf;
  }

-- podMatcher
unfoldable pub pod_matcher : FilterSelector → Result (Pod → Bool)
pod_matcher f = if f.is_unset then ok (λ pod. true) else f.pod_matcher_of

-- imageFilter
unfoldable pub image_filter : FilterSelector → Result ImageFilter → Result ImageFilter
image_filter f legacy = if f.is_unset then legacy else f.image_filter_of

pub record ImageFilterDefinition : Type 0 where
  pub include : List Text
  pub exclude : List Text

-- The include entries that Build compiles.
build_include : List Text → List Text → List Text
build_include [] (e ∷ es) = match_everything ∷ []
build_include include _ = include

module _ (compile : Text → Result Regexp) where
  unfoldable pub build : ImageFilterDefinition → Result ImageFilter
  unfolding build_include
  build i = compile_include_exclude_filter compile (build_include i.include i.exclude) i.exclude

  unfoldable pub build_with_registry : ImageFilterDefinition → Text → Result ImageFilter
  unfolding build
  build_with_registry i registry = add_prefix_to_filter registry (build i)
