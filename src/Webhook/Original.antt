-- ===== src/Webhook/Original.antt =====
-- Where the original image stands among its alternatives.
use kube_image_keeper.Prelude.{
  ◌≡◌, ap, subst, ◌∙◌, ◌⊎◌, inl, inr, ◌≤◌, Bool, true, false, Ordering, List, [], ◌∷◌, map, arith,
  All, Any, All-at, All-imp,
}
use kube_image_keeper.Prelude.Int.{pos, ◌≤ℤ◌, min_int, ltb_ℤ}
use kube_image_keeper.Text.{Text}
use kube_image_keeper.Errors.{Result, ok, >>=-eq-ok, ok-injective}
use kube_image_keeper.Pods.{PullPolicy, always}
use kube_image_keeper.Filters.{Regexp, Selector}
use kube_image_keeper.Resources.{ImageSetMirror, ReplicatedImageSet}
use kube_image_keeper.References.{Named}
use kube_image_keeper.Sorting.{not_after, sort_stable}
use kube_image_keeper.Sorting.Laws.{
  Any-sort_stable, IsSorted, All-sort_stable, sort_stable-IsSorted,
}
use kube_image_keeper.Sorting.Orders.{IsOrder-IsTotal}
use kube_image_keeper.Webhook.Alternatives.{
  Container, PrioritizedAlternative, type_rank, compare_alternatives,
}
use kube_image_keeper.Webhook.Candidates.{
  pins_original, from_all_replicated, original_alternative, candidates, build_alternatives_list,
}
use kube_image_keeper.Webhook.Ranking.{
  compare_alternatives-IsOrder, distinct, references, references-add_alternatives,
}
use kube_image_keeper.Webhook.Provenance.{FromResource, candidates-kept}

-- The first element of a sorted list that holds o, where o comes before all else.
sorted_head :
    (o : PrioritizedAlternative) (xs : List PrioritizedAlternative)
    → IsSorted compare_alternatives xs
    → All (λ a. (a ≡ o) ⊎ (compare_alternatives o a ≡ Ordering.lt)) xs
    → Any (λ a. a ≡ o) xs
    → (rest : List PrioritizedAlternative) × (xs ≡ o ∷ rest)
sorted_head o [] s h m = absurd m
sorted_head o (x ∷ xs) s (inl e, h) m = (xs, rw e)
sorted_head o (x ∷ xs) s (inr l, h) (inl e) = (xs, rw e)
sorted_head o (x ∷ xs) s (inr l, h) (inr m) =
    let before = All-at (λ y. not_after compare_alternatives x y ≡ true) xs s.0 m in
    let after = compare_alternatives-IsOrder.flips o x in absurd (ground (arith, before, after))

original_first :
    (image : Text) (a : PrioritizedAlternative)
    → FromResource a
    → compare_alternatives (original_alternative image always false) a ≡ Ordering.lt
unfolding compare_alternatives original_alternative
original_first image a h = ground arith

-- The order that a CR priority asks for where the original image is not pinned: candidates of a CR with
-- priority 0 or more come strictly after the original image, those of a CR with a negative priority
-- strictly before it.
compare_alternatives-original :
    (image : Text) (policy : PullPolicy) (honor : Bool) (a : PrioritizedAlternative)
    → 1 ≤ type_rank a.type_order
    → pins_original policy honor ≡ false
    → let o = original_alternative image policy honor in
      (pos 0 ≤ℤ a.cr_priority → compare_alternatives o a ≡ Ordering.lt)
      × (ltb_ℤ a.cr_priority (pos 0) ≡ true → compare_alternatives a o ≡ Ordering.lt)
unfolding compare_alternatives original_alternative
compare_alternatives-original image policy honor a h free = rw free (ground arith, ground arith)

-- For a container that always pulls, without honorPrioritiesOnAlwaysImagePullPolicy, and with no images
-- yet: where no matching upstream discards the original image, the original image is the first to be
-- tried, whatever the priorities of the resources.
pub build_alternatives_list-original_first :
    (parse_normalized : Text → Result Named) (compile : Text → Result Regexp)
    (parse : Text → Result Selector) (mirrors : List ImageSetMirror)
    (replicated : List ReplicatedImageSet) (c built : Container)
    → All (λ m. min_int ≤ℤ m.priority) mirrors
    → All (λ r. min_int ≤ℤ r.priority) replicated
    → c.images ≡ []
    → c.alternatives ≡ []
    → c.container.image_pull_policy ≡ always
    → (from_all_replicated compile c.normalized_image replicated).1 ≡ false
    → build_alternatives_list parse_normalized compile parse mirrors replicated false c ≡ ok built
    → (rest : List Text) × (references built.images ≡ c.normalized_image ∷ rest)
unfolding build_alternatives_list
build_alternatives_list-original_first pn compile parse mirrors replicated c built hm hr no_images
      none_seen pull kept h =
    let image = c.normalized_image in
    let o = original_alternative image c.container.image_pull_policy false in
    let (found, e, last) =
      >>=-eq-ok (candidates pn compile parse mirrors replicated false c.container image) h in
    let (k, m) =
      candidates-kept pn compile parse mirrors replicated false c.container image found hm hr kept
        e in
    let ranked = sort_stable compare_alternatives found in
    let total = IsOrder-IsTotal compare_alternatives-IsOrder in
    let (rest, first) =
      sorted_head o ranked (sort_stable-IsSorted compare_alternatives total found)
        (All-sort_stable (λ a. (a ≡ o) ⊎ (compare_alternatives o a ≡ Ordering.lt))
          compare_alternatives found
          (All-imp (λ a. (a ≡ o) ⊎ FromResource a)
            (λ a. elim [ inl q ↦ inl q | inr r ↦ inr (rw pull (original_first image a r)) ]) found
            k))
        (Any-sort_stable (λ a. a ≡ o) compare_alternatives found m) in
    (
      distinct (image ∷ []) (map (λ a. a.reference) rest),
      subst
          (λ (b : Container).
            references b.images ≡ image ∷ distinct (image ∷ []) (map (λ a. a.reference) rest))
          (ok-injective last)
          (references-add_alternatives ranked c
            ∙ rw (no_images, none_seen)
                (ap (λ (l : List PrioritizedAlternative). distinct [] (map (λ a. a.reference) l))
                  first)),
    )
