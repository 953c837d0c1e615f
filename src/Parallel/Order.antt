-- ===== src/Parallel/Order.antt =====
-- The order in which results arrive does not show in what FirstSuccessful returns.
use kube_image_keeper.Prelude.{
  ◌≡◌, refl, sym, subst, ap, ◌⊎◌, inl, inr, ℕ, zero, suc, ◌≤◌, ◌<◌, List, [], ◌∷◌, some, arith,
  length, get_elem?, All, Any,
}
use native.Mathlib.Decide.{dec_lt}
use kube_image_keeper.Errors.{Result}
use kube_image_keeper.Parallel.{
  Slots, no_results, record_result, Progress, waits_at, returns_at, advance, receive,
  first_successful, sequential,
}
use kube_image_keeper.Parallel.Pending.{
  Agree, FailedTo, IsOpen, Reached, IsFilled, advance-Reached, returned-sequential,
  failed-sequential, record_result-Agree, record_result-FailedTo, record_result-IsFilled,
  record_result-IsSet_self, length-record_result,
}

module _ {R : Type 0} where
  open-not_set : (ps : Slots R) (k : ℕ) → IsOpen (get_elem? ps k) → ¬ IsFilled ps k
  open-not_set ps k o (r, e) = subst IsOpen e o

  -- What the receiving loop knows between two arrivals.
  record Invariant (results : List (Result R)) (arrivals : List (ℕ × Result R)) (ps : Slots R)
      (next : ℕ) : Type 0 where
    agree : Agree ps results
    failed : FailedTo next ps
    waiting : IsOpen (get_elem? ps next)
    true_results : All (λ (a : ℕ × Result R). get_elem? results a.0 ≡ some a.1) arrivals
    complete :
        (j : ℕ) → j < length ps → IsFilled ps j ⊎ Any (λ (a : ℕ × Result R). a.0 ≡ j) arrivals

  all_known :
      (results : List (Result R)) (ps : Slots R) (next : ℕ)
      → Invariant results [] ps next
      → length ps ≤ next
  all_known results ps next v = elim (dec_lt next (length ps)) [
    | yes h ↦ elim (v.complete next h) [
      | inl s ↦ absurd (open-not_set ps next v.waiting s)
      | inr n ↦ absurd n
    ]
    | no h ↦ omega arith
  ]

  record_result_complete :
      (arrivals : List (ℕ × Result R)) (ps : Slots R) (i : ℕ) (r : Result R)
      → ((j : ℕ)
          → j < length ps
          → IsFilled ps j ⊎ Any (λ (a : ℕ × Result R). a.0 ≡ j) ((i, r) ∷ arrivals))
      → (j : ℕ) → j < length ps
      → IsFilled (record_result ps i r) j ⊎ Any (λ (a : ℕ × Result R). a.0 ≡ j) arrivals
  record_result_complete arrivals ps i r c j h = elim (c j h) [
    | inl s ↦ inl (record_result-IsFilled ps i j r s)
    | inr (inl e) ↦ inl (
        subst (IsFilled (record_result ps i r)) e
          (record_result-IsSet_self ps i r (subst (λ k. k < length ps) (sym e) h)))
    | inr (inr m) ↦ inr m
  ]

  receive-sequential :
      (results : List (Result R)) (arrivals : List (ℕ × Result R)) (ps : Slots R) (next : ℕ)
      → Invariant results arrivals ps next
      → receive arrivals ps next ≡ sequential results
  unfolding receive
  receive-sequential results [] ps next v =
      sym (failed-sequential next ps results v.agree v.failed (all_known results ps next v))
  receive-sequential results ((i, r) ∷ arrivals) ps next v =
      go (advance (length ps') ps' next) refl
        (advance-Reached (length ps') ps' next
          (record_result-FailedTo next ps results i r v.agree v.true_results.0 v.failed)
          (omega arith))
        (λ k. receive-sequential results arrivals ps' k)
    where
      ps' : Slots R
      ps' = record_result ps i r

      agree' : Agree ps' results
      agree' = record_result-Agree ps results i r v.agree v.true_results.0

      go :
          (p : Progress R)
          → advance (length ps') ps' next ≡ p
          → Reached ps' p
          → ((k : ℕ)
              → Invariant results arrivals ps' k
              → receive arrivals ps' k ≡ sequential results)
          → receive ((i, r) ∷ arrivals) ps next ≡ sequential results
      go (waits_at k) e (f, o) ih =
          rw (e, receive)
            (ih k (record {
              agree = agree';
              failed = f;
              waiting = o;
              true_results = v.true_results.1;
              complete =
                  rw (length-record_result ps i r)
                    (record_result_complete arrivals ps i r v.complete);
            }))
      go (returns_at k w) e (f, h) ih =
          rw (e, receive) (sym (returned-sequential k ps' results w agree' f h))

  -- A run of the tasks: what arrives for a task is its result, and every task's result arrives.
  pub record IsRun (results : List (Result R)) (arrivals : List (ℕ × Result R)) : Type 0 where
    pub true_results : All (λ (a : ℕ × Result R). get_elem? results a.0 ≡ some a.1) arrivals
    pub complete : (j : ℕ) → j < length results → Any (λ (a : ℕ × Result R). a.0 ≡ j) arrivals

  no_results-Agree : (rs : List (Result R)) → Agree (no_results (length rs)) rs
  unfolding no_results
  no_results-Agree [] = tt
  no_results-Agree (r ∷ rs) = no_results-Agree rs

length-no_results : (R : Type 0) (n : ℕ) → length (no_results {R = R} n) ≡ n
unfolding no_results
length-no_results R zero = refl
length-no_results R (suc n) = ap suc (length-no_results R n)

no_results-IsOpen : (R : Type 0) (n : ℕ) → IsOpen (get_elem? (no_results {R = R} n) 0)
unfolding no_results
no_results-IsOpen R zero = tt
no_results-IsOpen R (suc n) = tt

module _ {R : Type 0} where
  -- Whatever the order in which the results of the tasks arrive, FirstSuccessful returns what running
  -- the tasks one after the other returns: the first success in the order of the parameters with the
  -- errors of the tasks before it, or all errors where every task fails.
  pub first_successful-sequential :
      (results : List (Result R)) (arrivals : List (ℕ × Result R))
      → IsRun results arrivals
      → first_successful (length results) arrivals ≡ sequential results
  unfolding first_successful
  first_successful-sequential results arrivals run =
      receive-sequential results arrivals (no_results (length results)) 0 (record {
        agree = no_results-Agree results;
        failed = tt;
        waiting = no_results-IsOpen R (length results);
        true_results = run.true_results;
        complete = λ j h. inr (run.complete j (rw length-no_results at h));
      })
