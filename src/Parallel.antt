-- ===== src/Parallel.antt =====
-- internal/parallel/parallel.go: FirstSuccessful. Every task sends one result on a buffered channel, so
-- a run is the order in which the receiving loop takes the results.
pub mod Pending
pub mod Order
use kube_image_keeper.Prelude.{ℕ, zero, suc, List, [], ◌∷◌, Option, none, some, length, get_elem?}
use kube_image_keeper.Errors.{Error, Result, ok, err}

-- What the inner loop ends with: the next index to wait for, or the index of a success.
pub data Progress (R : Type 0) : Type 0 where
  waits_at : ℕ → Progress R
  returns_at : ℕ → R → Progress R

-- One slot for each task, filled when its result arrives.
abbrev pub Slots : Type 0 → Type 0
Slots R = List (Option (Result R))

module _ {R : Type 0} where
  -- make([]*Result[R], n)
  unfoldable pub no_results : ℕ → Slots R
  no_results zero = []
  no_results (suc n) = none ∷ no_results n

  -- pending[res.Index] = &res
  unfoldable pub record_result : Slots R → ℕ → Result R → Slots R
  record_result [] i r = []
  record_result (p ∷ ps) zero r = some r ∷ ps
  record_result (p ∷ ps) (suc i) r = p ∷ record_result ps i r

  -- The errors of the first n pending results.
  unfoldable pub errors_of : ℕ → Slots R → List Error
  errors_of zero ps = []
  errors_of (suc n) [] = []
  errors_of (suc n) (some (err e) ∷ ps) = e ∷ errors_of n ps
  errors_of (suc n) (p ∷ ps) = errors_of n ps

  -- The inner loop, from `next` on; the fuel counts the results that are left.
  unfoldable pub advance : ℕ → Slots R → ℕ → Progress R
  advance zero pending next = waits_at next
  advance (suc fuel) pending next = elim (get_elem? pending next) [
    | none ↦ waits_at next
    | some none ↦ waits_at next
    | some (some (ok v)) ↦ returns_at next v
    | some (some (err e)) ↦ advance fuel pending (suc next)
  ]

  -- The outer loop over the arrivals, and the errors of all tasks where none succeeds.
  unfoldable pub receive : List (ℕ × Result R) → Slots R → ℕ → Option R × List Error
  unfolding record_result errors_of advance
  receive [] pending next = (none, errors_of (length pending) pending)
  receive ((i, r) ∷ arrivals) pending next =
      let pending' = record_result pending i r in
      elim (advance (length pending') pending' next) [
        | waits_at next' ↦ receive arrivals pending' next'
        | returns_at k v ↦ (some v, errors_of k pending')
      ]

  unfoldable pub first_successful : ℕ → List (ℕ × Result R) → Option R × List Error
  unfolding no_results receive
  first_successful n arrivals = receive arrivals (no_results n) 0

  -- The specification: the tasks one after the other, up to the first success.
  unfoldable pub sequential : List (Result R) → Option R × List Error
  sequential [] = (none, [])
  sequential (ok v ∷ rs) = (some v, [])
  sequential (err e ∷ rs) = let (v, es) = sequential rs in (v, e ∷ es)
