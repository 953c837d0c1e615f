-- ===== src/Filters/Laws.antt =====
-- What a compiled filter accepts, in terms of the entries that it was built from.
use kube_image_keeper.Prelude.{
  ◌≡◌, refl, sym, subst, ◌∙◌, ◌↔◌, ◌⊎◌, inl, inr, Bool, true, false, List, [], ◌∷◌, arith,
  contains_func, All, Any, Bool-cases,
}
use kube_image_keeper.Text.{Text}
use kube_image_keeper.Errors.{Result, ok, >>=-eq-ok, ok-injective}
use kube_image_keeper.Pods.{StringMap, Pod}
use kube_image_keeper.Filters.{
  Regexp, Selector, Filter, anchored, compile_all, compile_include_exclude_filter, match, PodFilter,
  compile_pod_filter, match_selector_sets, match_pod, included,
}

-- The entry compiles to a test that accepts the subject.
abbrev pub Accepts {ℓ} : {S : Type ℓ} → (Text → Result (S → Bool)) → S → Text → Type ℓ
Accepts {S} compile s p = (r : S → Bool) × (compile p ≡ ok r) × (r s ≡ true)

abbrev pub Rejects {ℓ} : {S : Type ℓ} → (Text → Result (S → Bool)) → S → Text → Type ℓ
Rejects {S} compile s p = (r : S → Bool) × (compile p ≡ ok r) × (r s ≡ false)

module _ {S : Type 0} (compile : Text → Result (S → Bool)) (s : S) where
  -- Each entry with what it compiled to.
  abbrev pub Compiled : List Text → List (S → Bool) → Type 0
  Compiled [] [] = Unit
  Compiled (p ∷ ps) (r ∷ rs) = (compile p ≡ ok r) × Compiled ps rs
  Compiled _ _ = ⊥

  pub compile_all-Compiled :
      (ps : List Text) (rs : List (S → Bool)) → compile_all compile ps ≡ ok rs → Compiled ps rs
  unfolding compile_all
  compile_all-Compiled [] [] h = tt
  compile_all-Compiled [] (r ∷ rs) h = cc
  compile_all-Compiled (p ∷ ps) rs h =
      let (r, e, rest) = >>=-eq-ok (compile p) h in
      let (qs, es, last) = >>=-eq-ok (compile_all compile ps) rest in
      subst (Compiled (p ∷ ps)) (ok-injective last) (e, compile_all-Compiled ps qs es)

  pub Any-of_contains :
      (ps : List Text) (rs : List (S → Bool))
      → Compiled ps rs
      → contains_func rs (λ r. r s) ≡ true
      → Any (Accepts compile s) ps
  Any-of_contains [] [] c h = cc
  Any-of_contains [] (r ∷ rs) c h = c
  Any-of_contains (p ∷ ps) [] c h = absurd c
  Any-of_contains (p ∷ ps) (r ∷ rs) c h = elim (Bool-cases (r s)) [
    | inl e ↦ inl (r, c.0, e)
    | inr e ↦ inr (Any-of_contains ps rs c.1 (ground arith))
  ]

  pub contains-of_Any :
      (ps : List Text) (rs : List (S → Bool))
      → Compiled ps rs
      → Any (Accepts compile s) ps
      → contains_func rs (λ r. r s) ≡ true
  contains-of_Any [] rs c h = absurd h
  contains-of_Any (p ∷ ps) [] c h = absurd c
  contains-of_Any (p ∷ ps) (r ∷ rs) c (inl (q, e, yes_q)) =
      let same : q ≡ r = ok-injective (sym e ∙ c.0) in
      let here : r s ≡ true = subst (λ (f : S → Bool). f s ≡ true) same yes_q in ground arith
  contains-of_Any (p ∷ ps) (r ∷ rs) c (inr h) = ground (arith, contains-of_Any ps rs c.1 h)

  pub All-of_not_contains :
      (ps : List Text) (rs : List (S → Bool))
      → Compiled ps rs
      → contains_func rs (λ r. r s) ≡ false
      → All (Rejects compile s) ps
  All-of_not_contains [] rs c h = tt
  All-of_not_contains (p ∷ ps) [] c h = absurd c
  All-of_not_contains (p ∷ ps) (r ∷ rs) c h =
      ((r, c.0, ground arith), All-of_not_contains ps rs c.1 (ground arith))

  pub not_contains-of_All :
      (ps : List Text) (rs : List (S → Bool))
      → Compiled ps rs
      → All (Rejects compile s) ps
      → contains_func rs (λ r. r s) ≡ false
  not_contains-of_All [] [] c h = refl
  not_contains-of_All [] (r ∷ rs) c h = absurd c
  not_contains-of_All (p ∷ ps) [] c h = absurd c
  not_contains-of_All (p ∷ ps) (r ∷ rs) c ((q, e, no_q), h) =
      let same : q ≡ r = ok-injective (sym e ∙ c.0) in
      let here : r s ≡ false = subst (λ (f : S → Bool). f s ≡ false) same no_q in
      ground (arith, not_contains-of_All ps rs c.1 h)

-- For a filter that compiles: it matches a text exactly when some include entry accepts the text and
-- every exclude entry rejects it. So nothing matches where there is no include entry.
pub match-compile_include_exclude_filter :
    (compile : Text → Result Regexp) (include exclude : List Text) (f : Filter) (s : Text)
    → compile_include_exclude_filter compile include exclude ≡ ok f
    → (match f s ≡ true) ↔ (
        Any (Accepts (λ p. compile (anchored p)) s) include
        × All (Rejects (λ p. compile (anchored p)) s) exclude)
unfolding compile_include_exclude_filter match
match-compile_include_exclude_filter compile include exclude f s h =
    let c : (Text → Result Regexp) = λ p. compile (anchored p) in
    let (inc, ei, rest) = >>=-eq-ok (compile_all c include) h in
    let (exc, ee, last) = >>=-eq-ok (compile_all c exclude) rest in
    let ci = compile_all-Compiled c s include inc ei in
    let ce = compile_all-Compiled c s exclude exc ee in
    rw (← ok-injective last) (
      λ m. (
        Any-of_contains c s include inc ci (ground arith),
        All-of_not_contains c s exclude exc ce (ground arith),
      ),
      λ (some_inc, no_exc). ground (
        arith,
        contains-of_Any c s include inc ci some_inc,
        not_contains-of_All c s exclude exc ce no_exc,
      ),
    )

-- One dimension of a pod filter: some include entry accepts the set, or there is none, and every
-- exclude entry rejects it.
abbrev pub Selected : (Text → Result Selector) → StringMap Text → List Text → List Text → Type 0
Selected parse set include exclude =
    ((include ≡ []) ⊎ Any (Accepts parse set) include) × All (Rejects parse set) exclude

module _ (parse : Text → Result Selector) (set : StringMap Text) where
  included→Any :
      (ps : List Text) (rs : List Selector)
      → Compiled parse set ps rs
      → included rs set ≡ true
      → (ps ≡ []) ⊎ Any (Accepts parse set) ps
  unfolding included
  included→Any [] rs c h = inl refl
  included→Any (p ∷ ps) [] c h = absurd c
  included→Any (p ∷ ps) (r ∷ rs) c h = inr (Any-of_contains parse set (p ∷ ps) (r ∷ rs) c h)

  Any→included :
      (ps : List Text) (rs : List Selector)
      → Compiled parse set ps rs
      → (ps ≡ []) ⊎ Any (Accepts parse set) ps
      → included rs set ≡ true
  unfolding included
  Any→included ps [] c h = refl
  Any→included [] (r ∷ rs) c h = absurd c
  Any→included (p ∷ ps) (r ∷ rs) c (inl e) = cc
  Any→included (p ∷ ps) (r ∷ rs) c (inr h) = contains-of_Any parse set (p ∷ ps) (r ∷ rs) c h

  match_selector_sets-Selected :
      (ip ep : List Text) (ir er : List Selector)
      → Compiled parse set ip ir
      → Compiled parse set ep er
      → (match_selector_sets ir er set ≡ true) ↔ Selected parse set ip ep
  unfolding match_selector_sets
  match_selector_sets-Selected ip ep ir er ci ce = (
    λ m. (
      included→Any ip ir ci (ground arith),
      All-of_not_contains parse set ep er ce (ground arith),
    ),
    λ (some_inc, no_exc).
        ground
          (arith, Any→included ip ir ci some_inc, not_contains-of_All parse set ep er ce no_exc),
  )

-- For a pod filter that compiles: a pod matches exactly when its labels are selected by the label
-- entries and its annotations by the annotation entries.
pub match_pod-compile_pod_filter :
    (parse : Text → Result Selector) (il el ia ea : List Text) (f : PodFilter) (pod : Pod)
    → compile_pod_filter parse il el ia ea ≡ ok f
    → (match_pod f pod ≡ true)
      ↔ (Selected parse pod.labels il el × Selected parse pod.annotations ia ea)
unfolding compile_pod_filter match_pod
match_pod-compile_pod_filter parse il el ia ea f pod h =
    let (a, ha, h1) = >>=-eq-ok (compile_all parse il) h in
    let (b, hb, h2) = >>=-eq-ok (compile_all parse el) h1 in
    let (c, hc, h3) = >>=-eq-ok (compile_all parse ia) h2 in
    let (d, hd, h4) = >>=-eq-ok (compile_all parse ea) h3 in
    let ls = pod.labels in
    let as' = pod.annotations in
    let l =
      match_selector_sets-Selected parse ls il el a b (compile_all-Compiled parse ls il a ha)
        (compile_all-Compiled parse ls el b hb) in
    let n =
      match_selector_sets-Selected parse as' ia ea c d (compile_all-Compiled parse as' ia c hc)
        (compile_all-Compiled parse as' ea d hd) in
    rw (← ok-injective h4)
      (λ m. (l.0 (ground arith), n.0 (ground arith)), λ (sl, sa). ground (arith, l.1 sl, n.1 sa))
