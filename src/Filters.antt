-- ===== src/Filters.antt =====
-- internal/filter: image filters from regular expressions, and pod filters from label selectors.
-- `regexp.Compile` and `labels.Parse` are parameters.
pub mod Laws
use kube_image_keeper.Prelude.{
  Bool, true, false, not, ◌&&◌, List, [], ◌∷◌, ◌++◌, none, some, contains_func, if◌then◌else◌,
}
use kube_image_keeper.Text.{Text, codes, cut_prefix}
use kube_image_keeper.Errors.{Result, ok, err, ◌>>=◌}
use kube_image_keeper.Pods.{StringMap, Pod}

-- A compiled expression, by its MatchString.
abbrev pub Regexp : Type 0
Regexp = Text → Bool

-- A parsed selector, by its Matches.
abbrev pub Selector : Type 0
Selector = StringMap Text → Bool

pub record IncludeExcludeFilter : Type 0 where
  pub include : List Regexp
  pub exclude : List Regexp

-- The implementations of the interface `filter.Filter`.
pub data Filter : Type 0 where
  include_exclude : IncludeExcludeFilter → Filter
  prefixed : Filter → Text → Filter

abbrev pub anchored : Text → Text
anchored p = codes "^(" ++ p ++ codes ")$"

-- The loops that turn each entry into a compiled one, or stop at the first that is invalid.
unfoldable pub compile_all {ℓ} : {A : Type ℓ} → (Text → Result A) → List Text → Result (List A)
compile_all compile [] = ok []
compile_all compile (p ∷ ps) = do r ← compile p; rs ← compile_all compile ps; ok (r ∷ rs)

unfoldable pub compile_include_exclude_filter :
    (Text → Result Regexp) → List Text → List Text → Result Filter
unfolding compile_all
compile_include_exclude_filter compile include exclude = do
  inc ← compile_all (λ p. compile (anchored p)) include
  exc ← compile_all (λ p. compile (anchored p)) exclude
  ok (include_exclude (record { include = inc; exclude = exc }))

unfoldable pub add_prefix_to_filter : Text → Result Filter → Result Filter
add_prefix_to_filter prefix built = do f ← built; ok (prefixed f prefix)

unfoldable pub match_include_exclude : IncludeExcludeFilter → Text → Bool
match_include_exclude f s =
    if contains_func f.include (λ r. r s) then not (contains_func f.exclude (λ r. r s)) else false

unfoldable pub match : Filter → Text → Bool
unfolding match_include_exclude cut_prefix
match (include_exclude f) s = match_include_exclude f s
match (prefixed f prefix) s = elim (cut_prefix s prefix) [
  | none ↦ false
  | some after ↦ match f after
]

pub record PodFilter : Type 0 where
  pub include_labels : List Selector
  pub exclude_labels : List Selector
  pub include_annotations : List Selector
  pub exclude_annotations : List Selector

unfoldable pub compile_pod_filter :
    (Text → Result Selector) → List Text → List Text → List Text → List Text → Result PodFilter
unfolding compile_all
compile_pod_filter parse include_labels exclude_labels include_annotations exclude_annotations = do
  il ← compile_all parse include_labels
  el ← compile_all parse exclude_labels
  ia ← compile_all parse include_annotations
  ea ← compile_all parse exclude_annotations
  ok (record {
    include_labels = il;
    exclude_labels = el;
    include_annotations = ia;
    exclude_annotations = ea;
  })

-- The loop over `include` leaves the function where nothing matched.
included : List Selector → StringMap Text → Bool
included [] set = true
included (s ∷ ss) set = contains_func (s ∷ ss) (λ sel. sel set)

unfoldable pub match_selector_sets : List Selector → List Selector → StringMap Text → Bool
unfolding included
match_selector_sets include exclude set =
    if included include set then not (contains_func exclude (λ sel. sel set)) else false

unfoldable pub match_pod : PodFilter → Pod → Bool
unfolding match_selector_sets
match_pod f pod =
    if match_selector_sets f.include_labels f.exclude_labels pod.labels
    then match_selector_sets f.include_annotations f.exclude_annotations pod.annotations
    else false
