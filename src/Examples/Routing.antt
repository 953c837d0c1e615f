-- ===== src/Examples/Routing.antt =====
-- The theorems on filters and on the webhook at concrete inputs.
use kube_image_keeper.Prelude.{
  ◌≡◌, refl, ◌↔◌, inl, inr, ◌<◌, ℕ, zero, suc, Bool, true, false, List, [], ◌∷◌, Option, none, some,
  Any, if◌then◌else◌, arith,
}
use kube_image_keeper.Text.{Text, codes, text_eq}
use kube_image_keeper.Errors.{Error, Result, ok, err, message}
use kube_image_keeper.Pods.{Pod}
use kube_image_keeper.Filters.{
  Filter as ImageFilter, include_exclude, anchored, compile_include_exclude_filter, match,
  compile_pod_filter,
}
use kube_image_keeper.Selection.{
  match_everything, FilterItem, ClusterFilterItem, ClusterFilter, filter_selector,
  cluster_filter_selector, pod_matcher, image_filter,
}
use kube_image_keeper.Selection.Scope.{InScope}
use kube_image_keeper.Selection.Laws.{image_filter-InScope, cluster_pod_matcher-InScope}
use kube_image_keeper.Parallel.{first_successful, sequential}
use kube_image_keeper.Parallel.Order.{first_successful-sequential}
use kube_image_keeper.Webhook.Alternatives.{Secret, AlternativeImage, Container}
use kube_image_keeper.Webhook.Candidates.{build_alternatives_list}
use kube_image_keeper.Webhook.Ranking.{references, IsRanked, build_alternatives_list-IsRanked}
use kube_image_keeper.Webhook.Original.{build_alternatives_list-original_first}
use kube_image_keeper.Webhook.Best.{
  find_best_alternative, first_available, find_best_alternative-first_available,
}
use kube_image_keeper.Examples.Inputs.{
  value, exact, has_key, as_named, web_image, item, web_filter, mirror_set, web_pod, container,
}

abbrev legacy : Result ImageFilter
legacy = err (message (codes "deprecated"))

unfoldable selected : ImageFilter
unfolding image_filter filter_selector compile_include_exclude_filter exact has_key as_named
selected =
    value (image_filter (filter_selector exact has_key web_filter) legacy)
      (include_exclude (record { include = []; exclude = [] }))

image_filter-InScope_example :
    (match selected web_image ≡ true)
    ↔ InScope
        (λ p. exact (anchored p))
        web_image
        (λ (i : FilterItem). i.image)
        web_filter.include
        web_filter.exclude
unfolding image_filter filter_selector compile_include_exclude_filter exact has_key as_named
    selected
image_filter-InScope_example =
    image_filter-InScope exact has_key web_filter legacy selected web_image refl refl
      (value (exact (anchored match_everything)) (λ s. false), refl, refl)

abbrev cluster_filter : ClusterFilter
cluster_filter = record {
  include = record { filter_item = item; namespace = codes "n" } ∷ [];
  exclude = [];
}

unfoldable cluster_pods : Pod → Bool
unfolding pod_matcher cluster_filter_selector compile_pod_filter compile_include_exclude_filter
    exact has_key as_named
cluster_pods =
    value (pod_matcher (cluster_filter_selector exact has_key cluster_filter)) (λ p. false)

cluster_pod_matcher-InScope_example : (cluster_pods web_pod ≡ true) ↔ (
    InScope has_key web_pod.labels (λ (i : ClusterFilterItem). i.label) cluster_filter.include []
    × InScope has_key web_pod.annotations
        (λ (i : ClusterFilterItem). i.annotation)
        cluster_filter.include
        []
    × InScope
        (λ p. exact (anchored p))
        web_pod.namespace
        (λ (i : ClusterFilterItem). i.namespace)
        cluster_filter.include
        [])
unfolding pod_matcher cluster_filter_selector compile_pod_filter compile_include_exclude_filter
    exact has_key as_named cluster_pods
cluster_pod_matcher-InScope_example =
    cluster_pod_matcher-InScope exact has_key cluster_filter cluster_pods web_pod refl
      (value (exact (anchored match_everything)) (λ s. false), refl, refl)

two_ends : (j : ℕ) → j < 2 → Any (λ i. i ≡ j) (1 ∷ 0 ∷ [])
two_ends zero h = inr (inl refl)
two_ends (suc zero) h = inl refl
two_ends (suc (suc j)) h = absurd (omega arith)

two_arrive :
    (j : ℕ) → j < 2 → Any (λ (a : ℕ × Result ℕ). a.0 ≡ j) ((1, ok 7) ∷ (0, err (message [])) ∷ [])
two_arrive zero h = inr (inl refl)
two_arrive (suc zero) h = inl refl
two_arrive (suc (suc j)) h = absurd (omega arith)

first_successful-sequential_example :
    first_successful {R = ℕ} 2 ((1, ok 7) ∷ (0, err (message [])) ∷ [])
    ≡ sequential (err (message []) ∷ ok 7 ∷ [])
first_successful-sequential_example =
    first_successful-sequential (err (message []) ∷ ok 7 ∷ [])
      ((1, ok 7) ∷ (0, err (message [])) ∷ [])
      (record { true_results = (refl, (refl, tt)); complete = two_arrive })

abbrev an_image : Text → AlternativeImage
an_image t = record {
  reference = t;
  credential_secret = none;
  image_pull_secret = none;
  secret_owner = none;
}

abbrev two_images : Container
two_images = record container { images = an_image (codes "d/gone") ∷ an_image web_image ∷ [] }

unfoldable only_web : AlternativeImage → List Secret → Option Error
unfolding text_eq
only_web image secrets = if text_eq image.reference web_image then none else some (message [])

find_best_alternative-first_available_example :
    (find_best_alternative only_web (1 ∷ 0 ∷ []) two_images []).0
    ≡ first_available only_web [] two_images.images
find_best_alternative-first_available_example =
    find_best_alternative-first_available only_web [] (1 ∷ 0 ∷ []) two_images two_ends (omega arith)

unfoldable built : Container
unfolding build_alternatives_list compile_include_exclude_filter match exact has_key as_named
built =
    value (build_alternatives_list as_named exact has_key (mirror_set ∷ []) [] false container)
      container

build_alternatives_list-IsRanked_example :
    IsRanked as_named exact has_key (mirror_set ∷ []) [] false container built
unfolding build_alternatives_list compile_include_exclude_filter match exact has_key as_named built
build_alternatives_list-IsRanked_example =
    build_alternatives_list-IsRanked as_named exact has_key (mirror_set ∷ []) [] false container
      built refl refl refl

build_alternatives_list-original_first_example :
    (rest : List Text) × (references built.images ≡ web_image ∷ rest)
unfolding build_alternatives_list compile_include_exclude_filter match exact has_key as_named built
build_alternatives_list-original_first_example =
    build_alternatives_list-original_first as_named exact has_key (mirror_set ∷ []) [] container
      built (omega arith, tt) tt refl refl refl refl refl
