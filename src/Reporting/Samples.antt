-- ===== src/Reporting/Samples.antt =====
-- The samples of the metric on monitored images: what the metrics library asks of them, and what they add
-- up to.
use mathlib.Core.Logic.{∥∥₁_elim}
use mathlib.Core.HLevel.{¬_prop}
use native.Mathlib.Nat.{ℕ_set}
use mathlib.Core.List.{
  Perm, Permᴰ, Pairwise, Mem, Memᴰ, mem-cons_self, mem-cons_of_mem, not-mem-nil,
}
use mathlib.Core.List.Perm
use mathlib.Core.List.Pairwise
use kube_image_keeper.Prelude.{
  ◌≡◌, refl, sym, ap, ◌∙◌, subst, ◌+◌, ℕ, Bool, true, false, List, [], ◌∷◌, length, map, All,
  Option-cases, Bool-cases, inl, inr, arith,
}
use kube_image_keeper.Text.{Text, codes, text_eq}
use kube_image_keeper.Text.Laws.{text_eq_iff}
use kube_image_keeper.Errors.{Result, ok}
use kube_image_keeper.Resources.{Time}
use kube_image_keeper.References.{Named}
use kube_image_keeper.Availability.Monitored.{MonitoredImage, ClusterImageSetAvailability}
use kube_image_keeper.Reporting.{status_text}
use kube_image_keeper.Reporting.Counts.{
  CounterKey, bool_eq, key_eq, increment, counter_key, count_images, count_objects,
}
use kube_image_keeper.Reporting.Totals.{entries}
use kube_image_keeper.Reporting.Metrics.{sum_counts, sum_counts-count_objects}
use kube_image_keeper.Reporting.Collectors.{
  Collector, images, label_names, Sample, format_bool, key_labels, sample, collect_images_metric,
}

format_bool-injective : (a b : Bool) → format_bool a ≡ format_bool b → bool_eq a b ≡ true
unfolding format_bool text_eq
format_bool-injective true true h = refl
format_bool-injective false false h = refl
format_bool-injective true false h =
    let clash : true ≡ false = ap (λ t. text_eq (codes "true") t) h in cc
format_bool-injective false true h =
    let clash : true ≡ false = ap (λ t. text_eq (codes "false") t) h in cc

-- Keys with the same labels are the same.
key_labels-injective : (j k : CounterKey) → key_labels j ≡ key_labels k → key_eq j k ≡ true
unfolding key_labels key_eq
key_labels-injective j k h =
    let name : text_eq j.name k.name ≡ true = (text_eq_iff j.name k.name).1 cc in
    let registry : text_eq j.registry k.registry ≡ true =
      (text_eq_iff j.registry k.registry).1 cc in
    let status : text_eq (status_text j.status) (status_text k.status) ≡ true =
      (text_eq_iff (status_text j.status) (status_text k.status)).1 cc in
    let used : bool_eq j.used k.used ≡ true = format_bool-injective j.used k.used cc in
    let original : bool_eq j.original k.original ≡ true =
      format_bool-injective j.original k.original cc in
    rw (name, registry, status, used) original

All-Mem :
    {A : Type 0} (P : A → Type 0)
    → ((a : A) → IsProp (P a))
    → (xs : List A) (a : A) → All P xs
    → Mem a xs
    → P a
All-Mem {A = A} P prop xs a h m = ∥∥₁_elim m (prop a) (go xs h)
  where
    go : (xs : List A) → All P xs → Memᴰ a xs → P a
    go [] h d = elim d [ ]
    go (x ∷ xs) h (Memᴰ.head e) = subst P (sym e) h.0
    go (x ∷ xs) h (Memᴰ.tail d) = go xs h.1 d

Mem-All : {A : Type 0} (P : A → Type 0) (xs : List A) → ((a : A) → Mem a xs → P a) → All P xs
Mem-All P [] h = tt
Mem-All P (x ∷ xs) h = (h x mem-cons_self, Mem-All P xs (λ a m. h a (mem-cons_of_mem x m)))

-- No two counts have the same labels.
abbrev Apart : CounterKey × ℕ → CounterKey × ℕ → Type 0
Apart a b = ¬ (key_labels a.0 ≡ key_labels b.0)

abbrev AllApart : List (CounterKey × ℕ) → Type 0
AllApart = Pairwise Apart

All-increment :
    (P : CounterKey → Type 0) (k : CounterKey) (counts : List (CounterKey × ℕ))
    → P k
    → All (λ c. P c.0) counts
    → All (λ c. P c.0) (increment k counts)
unfolding increment
All-increment P k [] p h = (p, tt)
All-increment P k ((j, n) ∷ counts) p h = elim (Bool-cases (key_eq j k)) [
  | inl q ↦ rw q h
  | inr q ↦ rw q (h.0, All-increment P k counts p h.1)
]

increment-AllApart :
    (k : CounterKey) (counts : List (CounterKey × ℕ))
    → AllApart counts
    → AllApart (increment k counts)
unfolding increment
increment-AllApart k [] h = Pairwise.cons (λ a m. absurd (not-mem-nil m)) Pairwise.nil
increment-AllApart k ((j, n) ∷ counts) (Pairwise.cons h hs) = elim (Bool-cases (key_eq j k)) [
  | inl q ↦ rw q (Pairwise.cons h hs)
  | inr q ↦
      let others : All (λ c. Apart (j, n) c) (increment k counts) =
        All-increment (λ i. ¬ (key_labels j ≡ key_labels i)) k counts
          (λ e. let clash : true ≡ false = sym (key_labels-injective j k e) ∙ q in cc)
          (Mem-All (λ c. Apart (j, n) c) counts h) in
      rw q (
        Pairwise.cons
          (λ c m. All-Mem (λ d. Apart (j, n) d) (λ d. ¬_prop) (increment k counts) c others m)
          (increment-AllApart k counts hs))
]

module _ (parse_normalized : Text → Result Named) where
  count_images-AllApart :
      (cisa : Text) (is : List MonitoredImage) (counts : List (CounterKey × ℕ))
      → AllApart counts
      → AllApart (count_images parse_normalized cisa is counts)
  unfolding count_images
  count_images-AllApart cisa [] counts h = h
  count_images-AllApart cisa (i ∷ is) counts h =
      elim (Option-cases (counter_key parse_normalized cisa i)) [
        | inl q ↦ rw q (count_images-AllApart cisa is counts h)
        | inr (k, q) ↦
            rw q
              (count_images-AllApart cisa is (increment k counts) (increment-AllApart k counts h))
      ]

  count_objects-AllApart :
      (cisas : List ClusterImageSetAvailability) (counts : List (CounterKey × ℕ))
      → AllApart counts
      → AllApart (count_objects parse_normalized cisas counts)
  unfolding count_objects
  count_objects-AllApart [] counts h = h
  count_objects-AllApart (o ∷ os) counts h =
      count_objects-AllApart os (count_images parse_normalized o.meta.name o.images counts)
        (count_images-AllApart o.meta.name o.images counts h)

sum_counts-Permᴰ : {xs ys : List (CounterKey × ℕ)} → Permᴰ xs ys → sum_counts xs ≡ sum_counts ys
unfolding sum_counts
sum_counts-Permᴰ Permᴰ.nil = refl
sum_counts-Permᴰ (Permᴰ.cons e d) = omega (arith, ap (λ c. c.1) e, sum_counts-Permᴰ d)
sum_counts-Permᴰ (Permᴰ.swap e e') = omega (arith, ap (λ c. c.1) e, ap (λ c. c.1) e')
sum_counts-Permᴰ (Permᴰ.trans d d') = sum_counts-Permᴰ d ∙ sum_counts-Permᴰ d'

-- The values of the samples together.
unfoldable pub sum_values : List Sample → ℕ
sum_values [] = 0
sum_values (s ∷ samples) = s.value + sum_values samples

sum_values-sample :
    (counts : List (CounterKey × ℕ)) → sum_values (map sample counts) ≡ sum_counts counts
unfolding sum_values sum_counts sample
sum_values-sample [] = refl
sum_values-sample ((k, n) ∷ counts) = ap (λ v. n + v) (sum_values-sample counts)

-- What the metrics library asks of the samples of a collector, and their sum.
pub record IsConsistent {F : Type 0} (c : Collector F) (samples : List Sample) (n : ℕ)
    : Type 0 where
  pub labelled : All (λ s. length s.labels ≡ length (label_names c)) samples
  pub distinct : Pairwise (λ (s t : Sample). ¬ (s.labels ≡ t.labels)) samples
  pub total : sum_values samples ≡ n

sample-labelled :
    (F : Type 0) (counts : List (CounterKey × ℕ))
    → All
        (λ (s : Sample). length s.labels ≡ length (label_names {F = F} images))
        (map sample counts)
unfolding sample key_labels label_names
sample-labelled F [] = tt
sample-labelled F (c ∷ counts) = (refl, sample-labelled F counts)

-- Where the iteration over the counts is a permutation of them, the samples of the metric `images` have a
-- value for each of its labels, no two have the same values, and they add up to the number of entries of the
-- status page.
pub collect_images_metric-IsConsistent :
    (F : Type 0) (parse_normalized : Text → Result Named) (format_rfc3339 : Time → Text)
    (range_counts : List (CounterKey × ℕ) → List (CounterKey × ℕ))
    (cisas : List ClusterImageSetAvailability)
    → ((counts : List (CounterKey × ℕ)) → Perm (range_counts counts) counts)
    → IsConsistent {F = F} images
        (collect_images_metric parse_normalized range_counts (ok cisas))
        (length (entries parse_normalized format_rfc3339 cisas))
unfolding collect_images_metric
collect_images_metric-IsConsistent F parse_normalized format_rfc3339 range_counts cisas order =
    let counts = count_objects parse_normalized cisas [] in
    let ranged = range_counts counts in
    record {
      labelled = sample-labelled F ranged;
      distinct =
          Pairwise.map (λ s t. ¬_prop) sample (λ a b h. h)
            (Perm.pairwise (λ a b. ¬_prop) (λ a b h e. h (sym e)) (Perm.symm (order counts))
              (count_objects-AllApart parse_normalized cisas [] Pairwise.nil));
      total =
          sum_values-sample ranged
          ∙ ∥∥₁_elim (order counts) (ℕ_set (sum_counts ranged) (sum_counts counts)) sum_counts-Permᴰ
          ∙ sum_counts-count_objects parse_normalized format_rfc3339 cisas;
    }
