-- ===== src/Webhook/Best.antt =====
-- findBestAlternative: the availability checks of the images run in parallel.
use kube_image_keeper.Prelude.{
  ◌≡◌, true, refl, sym, ap, subst, ◌∙◌, inl, inr, ℕ, zero, suc, ◌<◌, List, [], ◌∷◌, ◌++◌, map,
  Option, none, some, arith, length, length-map, get_elem?, All, Any, ltb, if◌then◌else◌,
  Option-cases,
}
use kube_image_keeper.Errors.{Error, Result, ok, err}
use kube_image_keeper.Parallel.{first_successful, sequential}
use kube_image_keeper.Parallel.Order.{IsRun, first_successful-sequential}
use kube_image_keeper.Webhook.Alternatives.{Container, AlternativeImage, Secret}

-- The secrets that a check uses: those of the pod and the one of the image.
abbrev pub check_secrets : List Secret → AlternativeImage → List Secret
check_secrets pull_secrets image = elim image.image_pull_secret [
  | none ↦ pull_secrets
  | some s ↦ pull_secrets ++ s ∷ []
]

-- One task: the image where its check returns no error. `check` is checkImageAvailabilityCached.
unfoldable pub check_task :
    (AlternativeImage → List Secret → Option Error)
    → List Secret
    → AlternativeImage
    → Result AlternativeImage
check_task check pull_secrets image = elim (check image (check_secrets pull_secrets image)) [
  | none ↦ ok image
  | some e ↦ err e
]

-- The results in the order in which the tasks end.
unfoldable pub arrivals {ℓ} : {R : Type ℓ} → List ℕ → List (Result R) → List (ℕ × Result R)
arrivals [] results = []
arrivals (i ∷ schedule) results =
    let rest = arrivals schedule results in
    elim (get_elem? results i) [ none ↦ rest | some r ↦ (i, r) ∷ rest ]

-- The image that FirstSuccessful returned, if any, with the errors.
or_nothing : Option AlternativeImage × List Error → Option AlternativeImage × List Error
or_nothing (some image, errs) = (some image, errs)
or_nothing (none, errs) = (none, [])

unfoldable pub find_best_alternative :
    (AlternativeImage → List Secret → Option Error)
    → List ℕ
    → Container
    → List Secret
    → Option AlternativeImage × List Error
unfolding check_task first_successful arrivals or_nothing
find_best_alternative check schedule container pull_secrets =
    let results = map (check_task check pull_secrets) container.images in
    if ltb 1 (length container.images)
    then or_nothing (first_successful (length results) (arrivals schedule results))
    else (none, [])

module _ {R : Type 0} where
  arrivals-true :
      (schedule : List ℕ) (results : List (Result R))
      → All (λ (a : ℕ × Result R). get_elem? results a.0 ≡ some a.1) (arrivals schedule results)
  unfolding arrivals
  arrivals-true [] results = tt
  arrivals-true (i ∷ schedule) results = elim (Option-cases (get_elem? results i)) [
    | inl e ↦ rw (e, arrivals) (arrivals-true schedule results)
    | inr (r, e) ↦ rw (e, arrivals) (e, arrivals-true schedule results)
  ]

  below_length :
      (results : List (Result R)) (i : ℕ)
      → i < length results
      → (r : Result R) × (get_elem? results i ≡ some r)
  below_length [] i h = elim h [ ]
  below_length (r ∷ rs) zero h = (r, refl)
  below_length (r ∷ rs) (suc i) h = below_length rs i (omega arith)

  arrivals_complete :
      (schedule : List ℕ) (results : List (Result R)) (j : ℕ)
      → j < length results
      → Any (λ i. i ≡ j) schedule
      → Any (λ (a : ℕ × Result R). a.0 ≡ j) (arrivals schedule results)
  unfolding arrivals
  arrivals_complete [] results j h m = m
  arrivals_complete (i ∷ schedule) results j h (inl e) =
      let (r, er) = below_length results i (subst (λ k. k < length results) (sym e) h) in
      rw (er, arrivals) (inl e)
  arrivals_complete (i ∷ schedule) results j h (inr m) = elim (Option-cases (get_elem? results i)) [
    | inl e ↦ rw (e, arrivals) (arrivals_complete schedule results j h m)
    | inr (r, e) ↦ rw (e, arrivals) (inr (arrivals_complete schedule results j h m))
  ]

-- The first image whose check returns no error, in the order of the images.
unfoldable pub first_available :
    (AlternativeImage → List Secret → Option Error)
    → List Secret
    → List AlternativeImage
    → Option AlternativeImage
first_available check pull_secrets [] = none
first_available check pull_secrets (image ∷ images) =
    elim (check image (check_secrets pull_secrets image)) [
      | none ↦ some image
      | some e ↦ first_available check pull_secrets images
    ]

module _ (check : AlternativeImage → List Secret → Option Error) (pull_secrets : List Secret) where
  sequential-first_available :
      (images : List AlternativeImage)
      → (or_nothing (sequential (map (check_task check pull_secrets) images))).0
        ≡ first_available check pull_secrets images
  unfolding sequential check_task first_available or_nothing
  sequential-first_available [] = refl
  sequential-first_available (image ∷ images) = ground (arith, sequential-first_available images)

  -- Whatever the order in which the checks end, if each of them ends: a container with at least two images
  -- gets the first image in their order whose check succeeds, and none where every check fails.
  pub find_best_alternative-first_available :
      (schedule : List ℕ) (c : Container)
      → ((j : ℕ) → j < length c.images → Any (λ i. i ≡ j) schedule)
      → 1 < length c.images
      → (find_best_alternative check schedule c pull_secrets).0
        ≡ first_available check pull_secrets c.images
  unfolding find_best_alternative
  find_best_alternative-first_available schedule c ends several =
      let enough : ltb 1 (length c.images) ≡ true = ground (arith, several) in
      rw enough (
        ap (λ (x : Option AlternativeImage × List Error). (or_nothing x).0)
          (first_successful-sequential results (arrivals schedule results) run)
        ∙ sequential-first_available c.images)
    where
      results : List (Result AlternativeImage)
      results = map (check_task check pull_secrets) c.images

      run : IsRun results (arrivals schedule results)
      run = record {
        true_results = arrivals-true schedule results;
        complete = λ j h.
            arrivals_complete schedule results j h
              (ends j (rw (length-map (check_task check pull_secrets) c.images) at h));
      }
