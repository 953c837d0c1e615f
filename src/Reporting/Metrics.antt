-- ===== src/Reporting/Metrics.antt =====
-- The metric on monitored images against the status page.
use kube_image_keeper.Prelude.{
  ◌≡◌, refl, ◌+◌, ℕ, suc, List, [], ◌∷◌, length, length-append, Bool-cases, inl, inr, arith,
}
use kube_image_keeper.Text.{Text}
use kube_image_keeper.Errors.{Result, Result-cases}
use kube_image_keeper.Resources.{Time}
use kube_image_keeper.Mirroring.Merge.{is_zero}
use kube_image_keeper.References.{Named, registry_and_path_from_reference}
use kube_image_keeper.Availability.Monitored.{MonitoredImage, ClusterImageSetAvailability}
use kube_image_keeper.Reporting.{status_image}
use kube_image_keeper.Reporting.Counts.{
  CounterKey, key_eq, increment, counter_key, count_images, count_objects,
}
use kube_image_keeper.Reporting.Totals.{image_entries, entries}

-- The sum of the values of the metric.
unfoldable pub sum_counts : List (CounterKey × ℕ) → ℕ
sum_counts [] = 0
sum_counts ((k, n) ∷ counts) = n + sum_counts counts

sum_counts-increment :
    (k : CounterKey) (counts : List (CounterKey × ℕ))
    → sum_counts (increment k counts) ≡ suc (sum_counts counts)
unfolding sum_counts increment
sum_counts-increment k [] = refl
sum_counts-increment k ((j, n) ∷ counts) = elim (Bool-cases (key_eq j k)) [
  | inl q ↦ rw q (omega arith)
  | inr q ↦ rw q (omega (arith, sum_counts-increment k counts))
]

module _ (parse_normalized : Text → Result Named) (format_rfc3339 : Time → Text) where
  sum_counts-count_images :
      (cisa : Text) (is : List MonitoredImage) (counts : List (CounterKey × ℕ))
      → sum_counts (count_images parse_normalized cisa is counts)
        ≡ sum_counts counts + length (image_entries parse_normalized format_rfc3339 cisa is)
  unfolding count_images image_entries counter_key status_image
  sum_counts-count_images cisa [] counts = omega arith
  sum_counts-count_images cisa (i ∷ is) counts =
      elim (Result-cases (registry_and_path_from_reference parse_normalized i.image)) [
        | inl (p, q) ↦
            let k : CounterKey = record {
              name = cisa;
              registry = p.0;
              status = i.status;
              used = is_zero i.unused_since;
              original = i.original;
            } in
            rw (q, image_entries, counter_key)
              (omega (
                arith,
                sum_counts-count_images cisa is (increment k counts),
                sum_counts-increment k counts,
              ))
        | inr (e, q) ↦ rw (q, image_entries, counter_key) (sum_counts-count_images cisa is counts)
      ]

  sum_counts-count_from :
      (os : List ClusterImageSetAvailability) (counts : List (CounterKey × ℕ))
      → sum_counts (count_objects parse_normalized os counts)
        ≡ sum_counts counts + length (entries parse_normalized format_rfc3339 os)
  unfolding count_objects entries
  sum_counts-count_from [] counts = omega arith
  sum_counts-count_from (o ∷ os) counts = omega (
    arith,
    sum_counts-count_from os (count_images parse_normalized o.meta.name o.images counts),
    sum_counts-count_images o.meta.name o.images counts,
    length-append (image_entries parse_normalized format_rfc3339 o.meta.name o.images)
        (entries parse_normalized format_rfc3339 os),
  )

  -- The values of the metric add up to the number of entries of the status page.
  pub sum_counts-count_objects :
      (cisas : List ClusterImageSetAvailability)
      → sum_counts (count_objects parse_normalized cisas [])
        ≡ length (entries parse_normalized format_rfc3339 cisas)
  unfolding sum_counts
  sum_counts-count_objects cisas = omega (arith, sum_counts-count_from cisas [])
