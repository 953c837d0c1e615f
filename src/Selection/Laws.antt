-- ===== src/Selection/Laws.antt =====
-- Which pods and images a resource applies to.
use kube_image_keeper.Prelude.{
  ◌≡◌, refl, subst, ◌↔◌, inl, inr, Bool, true, false, List, arith, Bool-cases,
}
use kube_image_keeper.Text.{Text}
use kube_image_keeper.Errors.{Result, ok, >>=-eq-ok, ok-injective}
use kube_image_keeper.Pods.{Pod}
use kube_image_keeper.Filters.{
  Regexp, Selector, Filter as ImageFilter, anchored, compile_include_exclude_filter, match,
  compile_pod_filter,
}
use kube_image_keeper.Filters.Laws.{
  Accepts, match-compile_include_exclude_filter, match_pod-compile_pod_filter,
}
use kube_image_keeper.Selection.{
  FilterItem, ClusterFilterItem, Filter, ClusterFilter, has_no_items, collect_strings,
  match_everything, defaulted_to_match_all, to_filter, build_pod_matcher, cluster_build_pod_matcher,
  filter_selector, cluster_filter_selector, build_image_filter, pod_matcher, image_filter,
}
use kube_image_keeper.Selection.Scope.{
  InScope, collected-InScope, Any-defaulted, unset-InScope, collect_strings-map,
}

-- An image filter built with the default for an empty dimension.
defaulted-InScope :
    {I : Type 0} (compile : Text → Result Regexp) (s : Text) (field : I → Text) (inc exc : List I)
    (f : ImageFilter)
    → compile_include_exclude_filter compile
        (defaulted_to_match_all (collect_strings inc field))
        (collect_strings exc field)
      ≡ ok f
    → Accepts (λ p. compile (anchored p)) s match_everything
    → (match f s ≡ true) ↔ InScope (λ p. compile (anchored p)) s field inc exc
defaulted-InScope compile s field inc exc f h w =
    let c : (Text → Result Regexp) = λ p. compile (anchored p) in
    let m = match-compile_include_exclude_filter compile _ _ f s h in
    let d = Any-defaulted c s field w (collect_strings inc field) in
    let e = collected-InScope c s field inc exc in
    (λ t. let (a, b) = m.0 t in e.0 (d.0 a, b), λ t. let (a, b) = e.1 t in m.1 (d.1 a, b))

-- Where the filter of a resource has items and compiles, an image is selected exactly when its reference
-- is in the scope of the image items, whatever the deprecated image filter is. The expression `^(.*)$`
-- is taken to accept the reference.
pub image_filter-InScope :
    (compile : Text → Result Regexp) (parse : Text → Result Selector) (f : Filter)
    (legacy : Result ImageFilter) (g : ImageFilter) (s : Text)
    → has_no_items f.include f.exclude ≡ false
    → image_filter (filter_selector compile parse f) legacy ≡ ok g
    → Accepts (λ p. compile (anchored p)) s match_everything
    → (match g s ≡ true)
      ↔ InScope (λ p. compile (anchored p)) s (λ (i : FilterItem). i.image) f.include f.exclude
unfolding image_filter filter_selector build_image_filter
image_filter-InScope compile parse f legacy g s some_items h w =
    defaulted-InScope compile s (λ i. i.image) f.include f.exclude g (rw some_items at h) w

-- The labels and the annotations of a pod are both in the scope of the items.
abbrev pub PodInScope : (Text → Result Selector) → Pod → Filter → Type 0
PodInScope parse pod f =
    InScope parse pod.labels (λ (i : FilterItem). i.label) f.include f.exclude
    × InScope parse pod.annotations (λ (i : FilterItem). i.annotation) f.include f.exclude

build_pod_matcher-PodInScope :
    (parse : Text → Result Selector) (f : Filter) (m : Pod → Bool) (pod : Pod)
    → build_pod_matcher parse f ≡ ok m
    → (m pod ≡ true) ↔ PodInScope parse pod f
unfolding build_pod_matcher
build_pod_matcher-PodInScope parse f m pod h =
    let (pf, compiled, last) = >>=-eq-ok (compile_pod_filter parse _ _ _ _) h in
    let sel = match_pod-compile_pod_filter parse _ _ _ _ pf pod compiled in
    let l = collected-InScope parse pod.labels (λ (i : FilterItem). i.label) f.include f.exclude in
    let a =
      collected-InScope parse pod.annotations (λ (i : FilterItem). i.annotation) f.include
        f.exclude in
    rw (← ok-injective last)
      (λ t. let (x, y) = sel.0 t in (l.0 x, a.0 y), λ (x, y). sel.1 (l.1 x, a.1 y))

-- The matcher of an unset filter.
matches_all : {m : Pod → Bool} (pod : Pod) → ok (λ (p : Pod). true) ≡ ok m → m pod ≡ true
matches_all pod e = subst (λ (n : Pod → Bool). n pod ≡ true) (ok-injective e) refl

-- A namespaced resource whose filter compiles applies to a pod exactly when the pod is in the scope of
-- the label items and of the annotation items. An unset filter applies to every pod.
pod_matcher-PodInScope :
    (compile : Text → Result Regexp) (parse : Text → Result Selector) (f : Filter) (m : Pod → Bool)
    (pod : Pod)
    → pod_matcher (filter_selector compile parse f) ≡ ok m
    → (m pod ≡ true) ↔ PodInScope parse pod f
unfolding pod_matcher filter_selector
pod_matcher-PodInScope compile parse f m pod h =
    elim (Bool-cases (has_no_items f.include f.exclude)) [
      | inl unset ↦ (
        λ _. (unset-InScope parse _ _ _ _ unset, unset-InScope parse _ _ _ _ unset),
        λ _. matches_all pod (rw unset at h),
      )
      | inr set ↦ build_pod_matcher-PodInScope parse f m pod (rw set at h)
    ]

-- The matcher of the namespaced projection reads the cluster-wide items.
to_filter-InScope :
    (parse : Text → Result Selector) (cf : ClusterFilter) (m : Pod → Bool) (pod : Pod)
    → build_pod_matcher parse (to_filter cf) ≡ ok m
    → (m pod ≡ true) ↔ (
        InScope parse pod.labels (λ (i : ClusterFilterItem). i.label) cf.include cf.exclude
        × InScope parse pod.annotations
            (λ (i : ClusterFilterItem). i.annotation)
            cf.include
            cf.exclude)
unfolding build_pod_matcher to_filter
to_filter-InScope parse cf m pod h =
    let (pf, compiled, last) = >>=-eq-ok (compile_pod_filter parse _ _ _ _) h in
    let sel =
      match_pod-compile_pod_filter parse _ _ _ _ pf pod (simp collect_strings-map at compiled) in
    let l =
      collected-InScope parse pod.labels (λ (i : ClusterFilterItem). i.label) cf.include
        cf.exclude in
    let a =
      collected-InScope parse pod.annotations (λ (i : ClusterFilterItem). i.annotation) cf.include
        cf.exclude in
    rw (← ok-injective last)
      (λ t. let (x, y) = sel.0 t in (l.0 x, a.0 y), λ (x, y). sel.1 (l.1 x, a.1 y))

-- A cluster-wide resource whose filter compiles applies to a pod exactly when the pod is in the scope of
-- the label items, of the annotation items and of the namespace items. An unset filter applies to
-- every pod. The expression `^(.*)$` is taken to accept the pod's namespace.
pub cluster_pod_matcher-InScope :
    (compile : Text → Result Regexp) (parse : Text → Result Selector) (cf : ClusterFilter)
    (m : Pod → Bool) (pod : Pod)
    → pod_matcher (cluster_filter_selector compile parse cf) ≡ ok m
    → Accepts (λ p. compile (anchored p)) pod.namespace match_everything
    → (m pod ≡ true) ↔ (
        InScope parse pod.labels (λ (i : ClusterFilterItem). i.label) cf.include cf.exclude
        × InScope parse pod.annotations
            (λ (i : ClusterFilterItem). i.annotation)
            cf.include
            cf.exclude
        × InScope
            (λ p. compile (anchored p))
            pod.namespace
            (λ (i : ClusterFilterItem). i.namespace)
            cf.include
            cf.exclude)
unfolding pod_matcher cluster_filter_selector cluster_build_pod_matcher
cluster_pod_matcher-InScope compile parse cf m pod h w =
    elim (Bool-cases (has_no_items cf.include cf.exclude)) [
      | inl unset ↦ (
        λ _. (
          unset-InScope parse _ _ _ _ unset,
          unset-InScope parse _ _ _ _ unset,
          unset-InScope _ _ _ _ _ unset,
        ),
        λ _. matches_all pod (rw unset at h),
      )
      | inr set ↦
          let (pm, labelled, rest) =
            >>=-eq-ok (build_pod_matcher parse (to_filter cf)) (rw set at h) in
          let (nf, named, last) = >>=-eq-ok (compile_include_exclude_filter compile _ _) rest in
          let l = to_filter-InScope parse cf pm pod labelled in
          let n =
            defaulted-InScope compile pod.namespace (λ (i : ClusterFilterItem). i.namespace)
              cf.include cf.exclude nf named w in
          rw (← ok-injective last) (
            λ t. let (x, y) = l.0 (ground arith) in (x, y, n.0 (ground arith)),
            λ (x, y, z). ground (arith, l.1 (x, y), n.1 z),
          )
    ]
