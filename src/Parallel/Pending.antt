-- ===== src/Parallel/Pending.antt =====
-- The slots of the pending results: what is known of them, and what an arrival changes.
use kube_image_keeper.Prelude.{
  ◌≡◌, refl, sym, subst, ap, ℕ, zero, suc, ◌+◌, ◌≤◌, ◌<◌, List, [], ◌∷◌, Option, none, some, arith,
  length, get_elem?,
}
use kube_image_keeper.Errors.{Error, Result, ok, err}
use kube_image_keeper.Parallel.{
  Slots, record_result, errors_of, Progress, waits_at, returns_at, advance, sequential,
}

module _ {R : Type 0} where
  -- Each pending result is the result of its task.
  abbrev pub Agree : Slots R → List (Result R) → Type 0
  Agree [] [] = Unit
  Agree (none ∷ ps) (r ∷ rs) = Agree ps rs
  Agree (some q ∷ ps) (r ∷ rs) = (q ≡ r) × Agree ps rs
  Agree _ _ = ⊥

  -- The first k tasks are known to have failed.
  abbrev pub FailedTo : ℕ → Slots R → Type 0
  FailedTo zero ps = Unit
  FailedTo (suc k) [] = ⊥
  FailedTo (suc k) (none ∷ ps) = ⊥
  FailedTo (suc k) (some (ok v) ∷ ps) = ⊥
  FailedTo (suc k) (some (err e) ∷ ps) = FailedTo k ps

  abbrev pub IsOpen : Option (Option (Result R)) → Type 0
  IsOpen none = Unit
  IsOpen (some none) = Unit
  IsOpen (some (some r)) = ⊥

  abbrev pub Reached : Slots R → Progress R → Type 0
  Reached ps (waits_at k) = FailedTo k ps × IsOpen (get_elem? ps k)
  Reached ps (returns_at k v) = FailedTo k ps × (get_elem? ps k ≡ some (some (ok v)))

  FailedTo-suc :
      (k : ℕ) (ps : Slots R) (e : Error)
      → FailedTo k ps
      → get_elem? ps k ≡ some (some (err e))
      → FailedTo (suc k) ps
  FailedTo-suc k [] e f h = cc
  FailedTo-suc zero (none ∷ ps) e f h = cc
  FailedTo-suc zero (some (ok v) ∷ ps) e f h = cc
  FailedTo-suc zero (some (err x) ∷ ps) e f h = tt
  FailedTo-suc (suc k) (none ∷ ps) e f h = f
  FailedTo-suc (suc k) (some (ok v) ∷ ps) e f h = f
  FailedTo-suc (suc k) (some (err x) ∷ ps) e f h = FailedTo-suc k ps e f h

  past_end : (ps : Slots R) (k : ℕ) → length ps ≤ k → get_elem? ps k ≡ none
  past_end [] k h = refl
  past_end (p ∷ ps) zero h = absurd (omega arith)
  past_end (p ∷ ps) (suc k) h = past_end ps k (omega arith)

  -- The inner loop stops at the first task that has not failed.
  pub advance-Reached :
      (fuel : ℕ) (ps : Slots R) (next : ℕ)
      → FailedTo next ps
      → length ps ≤ fuel + next
      → Reached ps (advance fuel ps next)
  unfolding advance
  advance-Reached zero ps next f h = (f, subst IsOpen (sym (past_end ps next (omega arith))) tt)
  advance-Reached (suc fuel) ps next f h =
      go (get_elem? ps next) refl (advance-Reached fuel ps (suc next))
    where
      go :
          (slot : Option (Option (Result R)))
          → get_elem? ps next ≡ slot
          → (FailedTo (suc next) ps
              → length ps ≤ fuel + suc next
              → Reached ps (advance fuel ps (suc next)))
          → Reached ps (advance (suc fuel) ps next)
      go none e ih = rw (e, advance) (f, rw e tt)
      go (some none) e ih = rw (e, advance) (f, rw e tt)
      go (some (some (ok v))) e ih = rw (e, advance) (f, e)
      go (some (some (err x))) e ih =
          rw (e, advance) (ih (FailedTo-suc next ps x f e) (omega arith))

  pub returned-sequential :
      (k : ℕ) (ps : Slots R) (rs : List (Result R)) (v : R)
      → Agree ps rs
      → FailedTo k ps
      → get_elem? ps k ≡ some (some (ok v))
      → sequential rs ≡ (some v, errors_of k ps)
  unfolding sequential errors_of
  returned-sequential k [] rs v a f h = cc
  returned-sequential k (none ∷ ps) [] v a f h = absurd a
  returned-sequential k (some q ∷ ps) [] v a f h = absurd a
  returned-sequential zero (none ∷ ps) (r ∷ rs) v a f h = cc
  returned-sequential zero (some q ∷ ps) (r ∷ rs) v a f h = let here : r ≡ ok v = cc in rw here
  returned-sequential (suc k) (none ∷ ps) (r ∷ rs) v a f h = absurd f
  returned-sequential (suc k) (some (ok w) ∷ ps) (r ∷ rs) v a f h = absurd f
  returned-sequential (suc k) (some (err e) ∷ ps) (r ∷ rs) v a f h =
      rw (← a.0) (rw (returned-sequential k ps rs v a.1 f h))

  pub failed-sequential :
      (k : ℕ) (ps : Slots R) (rs : List (Result R))
      → Agree ps rs
      → FailedTo k ps
      → length ps ≤ k
      → sequential rs ≡ (none, errors_of (length ps) ps)
  unfolding sequential errors_of
  failed-sequential k [] [] a f h = refl
  failed-sequential k [] (r ∷ rs) a f h = absurd a
  failed-sequential k (none ∷ ps) [] a f h = absurd a
  failed-sequential k (some q ∷ ps) [] a f h = absurd a
  failed-sequential zero (p ∷ ps) (r ∷ rs) a f h = absurd (omega arith)
  failed-sequential (suc k) (none ∷ ps) (r ∷ rs) a f h = absurd f
  failed-sequential (suc k) (some (ok w) ∷ ps) (r ∷ rs) a f h = absurd f
  failed-sequential (suc k) (some (err e) ∷ ps) (r ∷ rs) a f h =
      rw (← a.0) (rw (failed-sequential k ps rs a.1 f (omega arith)))

  pub record_result-Agree :
      (ps : Slots R) (rs : List (Result R)) (i : ℕ) (r : Result R)
      → Agree ps rs
      → get_elem? rs i ≡ some r
      → Agree (record_result ps i r) rs
  unfolding record_result
  record_result-Agree [] [] i r a h = tt
  record_result-Agree [] (q ∷ rs) i r a h = absurd a
  record_result-Agree (none ∷ ps) [] i r a h = absurd a
  record_result-Agree (some p ∷ ps) [] i r a h = absurd a
  record_result-Agree (none ∷ ps) (q ∷ rs) zero r a h = (cc, a)
  record_result-Agree (none ∷ ps) (q ∷ rs) (suc i) r a h = record_result-Agree ps rs i r a h
  record_result-Agree (some p ∷ ps) (q ∷ rs) zero r a h = (cc, a.1)
  record_result-Agree (some p ∷ ps) (q ∷ rs) (suc i) r a h =
      (a.0, record_result-Agree ps rs i r a.1 h)

  pub record_result-FailedTo :
      (k : ℕ) (ps : Slots R) (rs : List (Result R)) (i : ℕ) (r : Result R)
      → Agree ps rs
      → get_elem? rs i ≡ some r
      → FailedTo k ps
      → FailedTo k (record_result ps i r)
  unfolding record_result
  record_result-FailedTo zero ps rs i r a h f = tt
  record_result-FailedTo (suc k) [] rs i r a h f = absurd f
  record_result-FailedTo (suc k) (none ∷ ps) rs i r a h f = absurd f
  record_result-FailedTo (suc k) (some (ok v) ∷ ps) rs i r a h f = absurd f
  record_result-FailedTo (suc k) (some (err e) ∷ ps) [] i r a h f = absurd a
  record_result-FailedTo (suc k) (some (err e) ∷ ps) (q ∷ rs) zero r a h f =
      let same : err e ≡ r = cc in subst (λ x. FailedTo (suc k) (some x ∷ ps)) same f
  record_result-FailedTo (suc k) (some (err e) ∷ ps) (q ∷ rs) (suc i) r a h f =
      record_result-FailedTo k ps rs i r a.1 h f

  abbrev pub IsFilled : Slots R → ℕ → Type 0
  IsFilled ps i = (r : Result R) × (get_elem? ps i ≡ some (some r))

  pub record_result-IsFilled :
      (ps : Slots R) (i j : ℕ) (r : Result R) → IsFilled ps j → IsFilled (record_result ps i r) j
  unfolding record_result
  record_result-IsFilled [] i j r s = s
  record_result-IsFilled (p ∷ ps) zero zero r s = (r, refl)
  record_result-IsFilled (p ∷ ps) zero (suc j) r s = s
  record_result-IsFilled (p ∷ ps) (suc i) zero r s = s
  record_result-IsFilled (p ∷ ps) (suc i) (suc j) r s = record_result-IsFilled ps i j r s

  pub record_result-IsSet_self :
      (ps : Slots R) (i : ℕ) (r : Result R) → i < length ps → IsFilled (record_result ps i r) i
  unfolding record_result
  record_result-IsSet_self [] i r h = elim h [ ]
  record_result-IsSet_self (p ∷ ps) zero r h = (r, refl)
  record_result-IsSet_self (p ∷ ps) (suc i) r h = record_result-IsSet_self ps i r (omega arith)

  pub length-record_result :
      (ps : Slots R) (i : ℕ) (r : Result R) → length (record_result ps i r) ≡ length ps
  unfolding record_result
  length-record_result [] i r = refl
  length-record_result (p ∷ ps) zero r = refl
  length-record_result (p ∷ ps) (suc i) r = ap suc (length-record_result ps i r)
