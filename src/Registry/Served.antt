-- ===== src/Registry/Served.antt =====
-- When a copy of an image finds a platform, and which manifests it writes.
use mathlib.Core.List.{append_assoc}
use kube_image_keeper.Prelude.{
  ◌≡◌, refl, sym, ap, ◌∙◌, Bool, true, false, List, [], ◌∷◌, ◌++◌, subst, keep, Option, none, some,
  contains_func, delete_func, All, arith,
}
use kube_image_keeper.Text.{Text}
use kube_image_keeper.Errors.{Result, ok, err, ◌>>=◌, >>=-eq-ok, ok-injective}
use kube_image_keeper.Registry.Platforms.{
  Source, index, match_platforms, if_any, check_platforms, removes, available_in, copied,
}

abbrev pub is_ok {ℓ} : {A : Type ℓ} → Result A → Bool
is_ok (ok a) = true
is_ok (err e) = false

bind-is_ok : {A : Type 0} (r : Result (Unit {0})) (a : A) → is_ok (r >>= λ u. ok a) ≡ is_ok r
bind-is_ok (ok u) a = refl
bind-is_ok (err e) a = refl

module _ {P : Type 0} (satisfies : P → P → Bool) (platform_string : P → Text) where
  contains-middle :
      (before : List P) (p : P) (ps : List P) (t : P → Bool)
      → t p ≡ true
      → contains_func (before ++ p ∷ ps) t ≡ true
  contains-middle [] p ps t h = ground (arith, h)
  contains-middle (b ∷ bs) p ps t h = ground (arith, contains-middle bs p ps t h)

  if_any-is_ok :
      (configured ps : List P)
      → is_ok (if_any satisfies platform_string configured ps) ≡ contains_func ps (λ p. true)
  unfolding if_any
  if_any-is_ok configured [] = refl
  if_any-is_ok configured (p ∷ ps) = refl

  matched_any :
      (configured available : List P)
      → contains_func (match_platforms satisfies platform_string configured available).0 (λ p. true)
        ≡ contains_func configured (λ p. contains_func available (λ src. satisfies src p))
  unfolding match_platforms
  matched_any [] available = refl
  matched_any (p ∷ ps) available = ground (arith, matched_any ps available)

  check_platforms-is_ok :
      (configured available : List P)
      → is_ok (check_platforms satisfies platform_string configured available)
        ≡ contains_func configured (λ p. contains_func available (λ src. satisfies src p))
  unfolding check_platforms
  check_platforms-is_ok configured available =
      if_any-is_ok configured (match_platforms satisfies platform_string configured available).0
      ∙ matched_any configured available

  -- A platform of which each source that satisfies it is kept.
  abbrev IsCovered : List P → P → Type 0
  IsCovered configured p =
      (src : P) → satisfies src p ≡ true → contains_func configured (λ q. satisfies src q) ≡ true

  -- The platforms of a tail are covered by the whole.
  All-IsCovered : (before ps : List P) → All (IsCovered (before ++ ps)) ps
  All-IsCovered before [] = tt
  All-IsCovered before (p ∷ ps) = (
    λ src h. contains-middle before p ps (λ q. satisfies src q) h,
    subst (λ l. All (IsCovered l) ps) (append_assoc before (p ∷ []) ps)
        (All-IsCovered (before ++ p ∷ []) ps),
  )

  module _ {M : Type 0} where
    -- The manifest is for a platform that satisfies this one.
    abbrev pub serves : P → Option P × M → Bool
    serves p (none, m) = false
    serves p (some src, m) = satisfies src p

    available-serves :
        (configured : List P) (p : P) (ms : List (Option P × M))
        → IsCovered configured p
        → contains_func
            (available_in satisfies platform_string
              (delete_func ms (λ m. removes satisfies platform_string configured m)))
            (λ src. satisfies src p)
          ≡ contains_func ms (serves p)
    unfolding available_in removes
    available-serves configured p [] h = refl
    available-serves configured p ((none, m) ∷ ms) h = available-serves configured p ms h
    available-serves configured p ((some src, m) ∷ ms) h =
        ground (arith, available-serves configured p ms h, h src)

    any_served :
        (configured ps : List P) (ms : List (Option P × M))
        → All (IsCovered configured) ps
        → contains_func ps (λ p.
          contains_func
            (available_in satisfies platform_string
              (delete_func ms (λ m. removes satisfies platform_string configured m)))
            (λ src. satisfies src p))
          ≡ contains_func ps (λ p. contains_func ms (serves p))
    any_served configured [] ms h = refl
    any_served configured (p ∷ ps) ms h =
        rw (available-serves configured p ms h.0, any_served configured ps ms h.1) refl

    -- A manifest for a platform that satisfies one of these.
    abbrev pub is_served : List P → Option P × M → Bool
    is_served configured m = contains_func configured (λ p. serves p m)

    not_served : (ps : List P) (m : M) → is_served ps (none, m) ≡ false
    not_served [] m = refl
    not_served (p ∷ ps) m = not_served ps m

    delete-is_served :
        (configured : List P) (ms : List (Option P × M))
        → delete_func ms (λ m. removes satisfies platform_string configured m)
          ≡ keep (is_served configured) ms
    unfolding removes
    delete-is_served configured [] = refl
    delete-is_served configured ((none, m) ∷ ms) =
        rw (not_served configured m) (delete-is_served configured ms)
    delete-is_served configured ((some src, m) ∷ ms) =
        ground (arith, delete-is_served configured ms)

    -- A copy of an index is written exactly where a configured platform is one that some manifest of the
    -- index satisfies; what is written are the manifests with a platform that satisfies a configured one.
    pub copied-is_ok :
        (configured : List P) (ms : List (Option P × M))
        → (is_ok (copied satisfies platform_string configured (index ms))
            ≡ contains_func configured (λ p. contains_func ms (serves p)))
          × ((written : Source P M)
              → copied satisfies platform_string configured (index ms) ≡ ok written
              → written ≡ index (keep (is_served configured) ms))
    unfolding copied
    copied-is_ok configured ms =
        let filtered = delete_func ms (λ m. removes satisfies platform_string configured m) in
        let available = available_in satisfies platform_string filtered in
        let checked = check_platforms satisfies platform_string configured available in
        (
          bind-is_ok checked (index filtered)
              ∙ check_platforms-is_ok configured available
              ∙ any_served configured configured ms (All-IsCovered [] configured),
          λ written h.
              let (u, q, r) = >>=-eq-ok checked h in
              sym (ok-injective r) ∙ ap index (delete-is_served configured ms),
        )
