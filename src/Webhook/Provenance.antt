-- ===== src/Webhook/Provenance.antt =====
-- Where the candidates for an image come from.
use kube_image_keeper.Prelude.{
  ◌≡◌, refl, subst, ◌⊎◌, inl, inr, ℕ, suc, ◌≤◌, Bool, true, false, not, ◌||◌, List, [], ◌∷◌, ◌++◌,
  arith, All, Any, All-append, Any-append_left, Any-append_right, All-imp, if◌then◌else◌,
  Bool-cases, Option-cases,
}
use kube_image_keeper.Prelude.Int.{◌≤ℤ◌, min_int}
use kube_image_keeper.Text.{Text}
use kube_image_keeper.Errors.{Result, ok, >>=-eq-ok, ok-injective, Result-cases}
use kube_image_keeper.Pods.{Container as PodContainer}
use kube_image_keeper.Filters.{Regexp, Selector, Filter, match}
use kube_image_keeper.Selection.{filter_selector, image_filter, build}
use kube_image_keeper.Resources.{Mirror, ImageSetMirror, ReplicatedUpstream, ReplicatedImageSet}
use kube_image_keeper.References.{Named, registry_and_path_from_reference}
use kube_image_keeper.Webhook.Alternatives.{PrioritizedAlternative, type_rank}
use kube_image_keeper.Webhook.Candidates.{
  scan_upstreams, upstream_alternatives, from_replicated, from_all_replicated, original_alternative,
  mirror_alternatives, mirrored, from_mirrors, candidates,
}

-- A candidate that a custom resource gives.
abbrev pub FromResource : PrioritizedAlternative → Type 0
FromResource a = (1 ≤ type_rank a.type_order) × (min_int ≤ℤ a.cr_priority)

upstream_alternatives-FromResource :
    (r : ReplicatedImageSet) (suffix : Text) (index : ℕ) (us : List ReplicatedUpstream)
    (valid : List Bool)
    → min_int ≤ℤ r.priority
    → All FromResource (upstream_alternatives r suffix index us valid)
unfolding upstream_alternatives
upstream_alternatives-FromResource r suffix index [] valid h = tt
upstream_alternatives-FromResource r suffix index (u ∷ us) [] h = tt
upstream_alternatives-FromResource r suffix index (u ∷ us) (v ∷ valid) h =
    elim (Bool-cases (not v || u.discard_alternative)) [
      | inl skip ↦ rw skip (upstream_alternatives-FromResource r suffix (suc index) us valid h)
      | inr use' ↦
          rw use'
            ((ground arith, h), upstream_alternatives-FromResource r suffix (suc index) us valid h)
    ]

from_replicated-FromResource :
    (compile : Text → Result Regexp) (image : Text) (r : ReplicatedImageSet)
    → min_int ≤ℤ r.priority
    → All FromResource (from_replicated compile image r).0
unfolding from_replicated
from_replicated-FromResource compile image r h =
    elim (Option-cases (scan_upstreams compile image r.upstreams).0) [
      | inl e ↦ rw (e, from_replicated) tt
      | inr (u, e) ↦
          rw (e, from_replicated) (upstream_alternatives-FromResource r _ 0 r.upstreams _ h)
    ]

from_all_replicated-FromResource :
    (compile : Text → Result Regexp) (image : Text) (rs : List ReplicatedImageSet)
    → All (λ r. min_int ≤ℤ r.priority) rs
    → All FromResource (from_all_replicated compile image rs).0
unfolding from_all_replicated
from_all_replicated-FromResource compile image [] h = tt
from_all_replicated-FromResource compile image (r ∷ rs) h =
    All-append FromResource _ _ (from_replicated-FromResource compile image r h.0)
      (from_all_replicated-FromResource compile image rs h.1)

mirror_alternatives-FromResource :
    (m : ImageSetMirror) (path : Text) (index : ℕ) (ms : List Mirror)
    → min_int ≤ℤ m.priority
    → All FromResource (mirror_alternatives m path index ms)
unfolding mirror_alternatives
mirror_alternatives-FromResource m path index [] h = tt
mirror_alternatives-FromResource m path index (x ∷ xs) h =
    ((ground arith, h), mirror_alternatives-FromResource m path (suc index) xs h)

All-taken :
    (b : Bool) (xs ys : List PrioritizedAlternative)
    → All FromResource xs
    → All FromResource ys
    → All FromResource (if b then xs ++ ys else ys)
All-taken true xs ys h k = All-append FromResource xs ys h k
All-taken false xs ys h k = k

module _ (parse_normalized : Text → Result Named) (compile : Text → Result Regexp)
    (parse : Text → Result Selector) where
  mirrored-FromResource :
      (m : ImageSetMirror) (f : Filter) (as' added : List PrioritizedAlternative)
      → min_int ≤ℤ m.priority
      → mirrored parse_normalized compile parse m f as' ≡ ok added
      → All FromResource added
  unfolding mirrored
  mirrored-FromResource m f [] added h e = subst (All FromResource) (ok-injective e) tt
  mirrored-FromResource m f (a ∷ as') added h e =
      let ((reg, path), _, rest) =
        >>=-eq-ok (registry_and_path_from_reference parse_normalized a.reference) e in
      let (more, em, last) = >>=-eq-ok (mirrored parse_normalized compile parse m f as') rest in
      subst (All FromResource) (ok-injective last) (
        All-taken (match f _) _ _ (mirror_alternatives-FromResource m path 0 m.mirrors h)
          (mirrored-FromResource m f as' more h em))

  from_mirrors-kept :
      (o : PrioritizedAlternative) (ms : List ImageSetMirror)
      (as' found : List PrioritizedAlternative)
      → All (λ m. min_int ≤ℤ m.priority) ms
      → from_mirrors parse_normalized compile parse ms as' ≡ ok found
      → All (λ a. (a ≡ o) ⊎ FromResource a) as'
      → Any (λ a. a ≡ o) as'
      → All (λ a. (a ≡ o) ⊎ FromResource a) found × Any (λ a. a ≡ o) found
  unfolding from_mirrors
  from_mirrors-kept o [] as' found h e k m =
      subst (λ f. All (λ a. (a ≡ o) ⊎ FromResource a) f × Any (λ a. a ≡ o) f) (ok-injective e)
        (k, m)
  from_mirrors-kept o (x ∷ ms) as' found h e k m =
      elim (Result-cases
        (image_filter (filter_selector compile parse x.filter) (build compile x.image_filter))) [
          | inl (f, ef) ↦
              let (added, em, rest) =
                >>=-eq-ok (mirrored parse_normalized compile parse x f as')
                  (rw (ef, from_mirrors) at e) in
              from_mirrors-kept o ms (as' ++ added) found h.1 rest
                (All-append (λ a. (a ≡ o) ⊎ FromResource a) as' added k
                  (All-imp FromResource (λ a p. inr p) added
                    (mirrored-FromResource x f as' added h.0 em)))
                (Any-append_left (λ a. a ≡ o) as' added m)
          | inr (x', ex) ↦ from_mirrors-kept o ms as' found h.1 (rw (ex, from_mirrors) at e) k m
        ]

  -- The original image is a candidate unless it is discarded, and every other candidate comes from a
  -- custom resource.
  pub candidates-kept :
      (mirrors : List ImageSetMirror) (replicated : List ReplicatedImageSet) (honor : Bool)
      (c : PodContainer) (image : Text) (found : List PrioritizedAlternative)
      → All (λ m. min_int ≤ℤ m.priority) mirrors
      → All (λ r. min_int ≤ℤ r.priority) replicated
      → (from_all_replicated compile image replicated).1 ≡ false
      → candidates parse_normalized compile parse mirrors replicated honor c image ≡ ok found
      → (let o = original_alternative image c.image_pull_policy honor in
          All (λ a. (a ≡ o) ⊎ FromResource a) found × Any (λ a. a ≡ o) found)
  unfolding candidates
  candidates-kept mirrors replicated honor c image found hm hr kept h =
      let o = original_alternative image c.image_pull_policy honor in
      let ups = (from_all_replicated compile image replicated).0 in
      from_mirrors-kept o mirrors (ups ++ o ∷ []) found hm (rw kept at h)
        (All-append (λ a. (a ≡ o) ⊎ FromResource a) ups (o ∷ [])
          (All-imp FromResource (λ a p. inr p) ups
            (from_all_replicated-FromResource compile image replicated hr))
          (inl refl, tt))
        (Any-append_right (λ a. a ≡ o) ups (o ∷ []) (inl refl))
