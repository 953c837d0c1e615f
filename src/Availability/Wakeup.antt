-- ===== src/Availability/Wakeup.antt =====
-- The pod mapper against the synchronisation of the objects that it asks for.
use kube_image_keeper.Prelude.{
  ◌≡◌, refl, ap, ◌⊎◌, inl, inr, Bool, true, false, not, ◌||◌, List, [], ◌∷◌, ◌++◌, contains_func,
  length, Any, Bool-cases, delete_func, Any-delete_func, delete_func-dropped, delete_func-kept,
  delete_func-append, arith,
}
use kube_image_keeper.Text.{Text}
use kube_image_keeper.Errors.{Error, Result, ok, err, Result-cases}
use kube_image_keeper.Pods.{StringMap, keys, Pod}
use kube_image_keeper.Filters.{Filter, match, match_pod}
use kube_image_keeper.References.{Named}
use kube_image_keeper.Webhook.Admission.{Json}
use kube_image_keeper.Mirroring.Names.{normalized_image_names_map_from_annotated_pod}
use kube_image_keeper.Mirroring.Reconcile.{selected_pods}
use kube_image_keeper.Registry.Client.{Remote}
use kube_image_keeper.Availability.Monitored.{
  ClusterImageSetAvailability, availability_pod_matcher, availability_image_filter,
}
use kube_image_keeper.Availability.Sync.{add_current, current_images, sync_image_list}
use kube_image_keeper.Availability.Check.{Monitor, Settings}
use kube_image_keeper.Availability.Mapper.{selects_image, requested, map_pod}
use kube_image_keeper.Availability.Reconcile.{synced}

add_current-unmatched :
    (f : Filter) (names found : StringMap Bool)
    → contains_func (keys names) (λ n. match f n) ≡ false
    → add_current f names found ≡ found
unfolding add_current keys
add_current-unmatched f [] found h = refl
add_current-unmatched f ((n, original) ∷ names) found h = elim (Bool-cases (match f n)) [
  | inl q ↦ let clash : true ≡ false = ground (arith, h, q) in cc
  | inr q ↦ rw q (add_current-unmatched f names found (ground (arith, h, q)))
]

module _ (parse : Text → Result Named) (json : Json) (f : Filter) where
  -- A pod with no image that the filter matches adds no image in use.
  current_images-unmatched :
      (before after : List Pod) (pod : Pod) (found : StringMap Bool)
      → contains_func
          (keys (normalized_image_names_map_from_annotated_pod parse json pod))
          (λ n. match f n)
        ≡ false
      → current_images parse json f (before ++ pod ∷ after) found
        ≡ current_images parse json f (before ++ after) found
  unfolding current_images
  current_images-unmatched [] after pod found h = ap (current_images parse json f after) (
      add_current-unmatched f (normalized_image_names_map_from_annotated_pod parse json pod) found
        h)
  current_images-unmatched (p ∷ before) after pod found h =
      current_images-unmatched before after pod
        (add_current f (normalized_image_names_map_from_annotated_pod parse json p) found) h

module _ (settings : Settings) where
  -- The selection of the pods that the object looks at.
  abbrev seen : (Pod → Bool) → List Pod → List Pod
  seen matcher = selected_pods settings.global_pod_filter matcher

module _ (settings : Settings) (pod : Pod) (cisa : ClusterImageSetAvailability) where
  abbrev names : List Text
  names =
      keys
        (normalized_image_names_map_from_annotated_pod settings.parse_normalized settings.json pod)

  map_pod-requested :
      (cisas : List ClusterImageSetAvailability)
      → match_pod settings.global_pod_filter pod ≡ true
      → requested settings pod names cisa ≡ true
      → Any (λ c. c ≡ cisa) cisas
      → Any (λ c. c ≡ cisa) (map_pod settings pod (ok cisas))
  unfolding map_pod
  map_pod-requested cisas h k m =
      rw h (Any-delete_func (λ c. not (requested settings pod names c)) cisa cisas (rw k refl) m)

  seen-dropped :
      (matcher : Pod → Bool) (before after : List Pod)
      → not (matcher pod) || not (match_pod settings.global_pod_filter pod) ≡ true
      → seen settings matcher (before ++ pod ∷ after) ≡ seen settings matcher (before ++ after)
  unfolding selected_pods
  seen-dropped matcher before after h = delete_func-dropped _ before after pod h

  module _ {W K D : Type 0} (remote : Remote W K D) (monitor : Monitor W)
      (before after : List Pod) where
    synced-same :
        (f : Filter) (xs ys : List Pod) (w : W)
        → availability_image_filter settings.compile settings.parse_selector cisa ≡ ok f
        → current_images settings.parse_normalized settings.json f xs []
          ≡ current_images settings.parse_normalized settings.json f ys []
        → synced settings remote monitor cisa xs w ≡ synced settings remote monitor cisa ys w
    unfolding synced
    synced-same f xs ys w q e =
        let (now, w') = monitor.now w in
        let end : StringMap Bool → Result (ClusterImageSetAvailability × Bool) × W = λ found.
          let (images, changed) =
            sync_image_list settings.range_images now cisa.unused_image_expiry f found
              cisa.images in
          (ok (record cisa { images = images; image_count = length images }, changed), w') in
        rw q (ap end e)

    synced-uncompiled :
        (e : Error) (xs ys : List Pod) (w : W)
        → availability_image_filter settings.compile settings.parse_selector cisa ≡ err e
        → synced settings remote monitor cisa xs w ≡ synced settings remote monitor cisa ys w
    unfolding synced
    synced-uncompiled e xs ys w q = rw q refl

    -- The synchronisation of the object does the same with the pod and without it.
    abbrev pub IsIdle : (Pod → Bool) → Type 0
    IsIdle matcher =
        (w : W)
        → synced settings remote monitor cisa (seen settings matcher (before ++ pod ∷ after)) w
          ≡ synced settings remote monitor cisa (seen settings matcher (before ++ after)) w

    seen-kept :
        (matcher : Pod → Bool) (f : Filter)
        → not (matcher pod) || not (match_pod settings.global_pod_filter pod) ≡ false
        → contains_func names (λ n. match f n) ≡ false
        → current_images settings.parse_normalized settings.json f
            (seen settings matcher (before ++ pod ∷ after))
            []
          ≡ current_images settings.parse_normalized settings.json f
              (seen settings matcher (before ++ after))
              []
    unfolding selected_pods
    seen-kept matcher f h l =
        let unseen : Pod → Bool =
          λ p. not (matcher p) || not (match_pod settings.global_pod_filter p) in
        rw (delete_func-kept unseen before after pod h) (
          rw (delete_func-append unseen before after) (
            current_images-unmatched settings.parse_normalized settings.json f
              (delete_func before unseen) (delete_func after unseen) pod [] l))

    synced-unmatched :
        (matcher : Pod → Bool)
        → not (matcher pod) || not (match_pod settings.global_pod_filter pod) ≡ false
        → selects_image settings pod cisa names ≡ false
        → IsIdle matcher
    unfolding selects_image
    synced-unmatched matcher h l w =
        elim (Result-cases
          (availability_image_filter settings.compile settings.parse_selector cisa)) [
            | inr (e, q) ↦ synced-uncompiled e _ _ w q
            | inl (f, q) ↦
                synced-same f _ _ w q (seen-kept matcher f h (rw (q, selects_image) at l))
          ]

    -- A pod among those of the cluster, and an object whose pod filter compiles: the event of the pod asks
    -- for a reconciliation of the object, or the synchronisation of the object does the same with the pod
    -- and without it.
    pub map_pod-IsIdle :
        (matcher : Pod → Bool) (cisas : List ClusterImageSetAvailability)
        → availability_pod_matcher settings.compile settings.parse_selector cisa ≡ ok matcher
        → Any (λ c. c ≡ cisa) cisas
        → Any (λ c. c ≡ cisa) (map_pod settings pod (ok cisas)) ⊎ IsIdle matcher
    unfolding requested
    map_pod-IsIdle matcher cisas compiled listed =
        elim (Bool-cases (not (matcher pod) || not (match_pod settings.global_pod_filter pod))) [
          | inl unseen ↦ inr (λ w.
              ap (λ pods. synced settings remote monitor cisa pods w)
                (seen-dropped matcher before after unseen))
          | inr known ↦ elim (Bool-cases (selects_image settings pod cisa names)) [
            | inr l ↦ inr (synced-unmatched matcher known l)
            | inl l ↦ inl (
                map_pod-requested cisas (ground (arith, known))
                  (rw (compiled, requested) (ground (arith, known, l))) listed)
          ]
        ]
