-- ===== src/Selection/Scope.antt =====
-- What the items of a filter say of one dimension, and the entries that are collected from them.
use kube_image_keeper.Prelude.{
  ◌≡◌, refl, ◌↔◌, ◌⊎◌, ◌≢◌, inl, inr, Bool, true, List, [], ◌∷◌, map, All, Any, if◌then◌else◌,
}
use kube_image_keeper.Text.{Text, is_empty}
use kube_image_keeper.Errors.{Result}
use kube_image_keeper.Filters.Laws.{Accepts, Rejects}
use kube_image_keeper.Selection.{
  has_no_items, collect_strings, match_everything, defaulted_to_match_all,
}

-- One dimension of a filter, read off its items: an item with an empty field says nothing of it.
module _ {S : Type 0} {I : Type 0} (compile : Text → Result (S → Bool)) (s : S)
    (field : I → Text) where
  abbrev Included : List I → Type 0
  Included items =
      All (λ i. field i ≡ []) items ⊎ Any (λ i. (field i ≢ []) × Accepts compile s (field i)) items

  abbrev NotExcluded : List I → Type 0
  NotExcluded items = All (λ i. (field i ≡ []) ⊎ Rejects compile s (field i)) items

  abbrev pub InScope : List I → List I → Type 0
  InScope include exclude = Included include × NotExcluded exclude

module _ (P : Text → Type 0) (rest : List Text) where
  Any-if :
      (t : Text) → Any P (if is_empty t then rest else t ∷ rest) ↔ (((t ≢ []) × P t) ⊎ Any P rest)
  Any-if [] = (inr, elim [ inl h ↦ absurd (h.0 refl) | inr h ↦ h ])
  Any-if (x ∷ t) = (
    elim [ inl h ↦ inl ((λ e. cc), h) | inr h ↦ inr h ],
    elim [ inl h ↦ inl h.1 | inr h ↦ inr h ],
  )

  All-if :
      (t : Text) → All P (if is_empty t then rest else t ∷ rest) ↔ (((t ≡ []) ⊎ P t) × All P rest)
  All-if [] = (λ h. (inl refl, h), λ h. h.1)
  All-if (x ∷ t) = (λ h. (inr h.0, h.1), λ (h, k). ((elim h [ inl e ↦ cc | inr p ↦ p ]), k))

nil-if :
    (rest : List Text) (t : Text)
    → ((if is_empty t then rest else t ∷ rest) ≡ []) ↔ ((t ≡ []) × (rest ≡ []))
nil-if rest [] = (λ e. (refl, e), λ e. e.1)
nil-if rest (x ∷ t) = (λ e. cc, λ (e, f). cc)

module _ {I : Type 0} (field : I → Text) where
  Any-collect_strings :
      (P : Text → Type 0) (items : List I)
      → Any P (collect_strings items field) ↔ Any (λ i. (field i ≢ []) × P (field i)) items
  unfolding collect_strings
  Any-collect_strings P [] = (λ h. h, λ h. h)
  Any-collect_strings P (i ∷ items) =
      let here = Any-if P (collect_strings items field) (field i) in
      let rest = Any-collect_strings P items in
      (
        λ h. elim (here.0 h) [ inl a ↦ inl a | inr b ↦ inr (rest.0 b) ],
        elim [ inl a ↦ here.1 (inl a) | inr b ↦ here.1 (inr (rest.1 b)) ],
      )

  All-collect_strings :
      (P : Text → Type 0) (items : List I)
      → All P (collect_strings items field) ↔ All (λ i. (field i ≡ []) ⊎ P (field i)) items
  unfolding collect_strings
  All-collect_strings P [] = (λ h. h, λ h. h)
  All-collect_strings P (i ∷ items) =
      let here = All-if P (collect_strings items field) (field i) in
      let rest = All-collect_strings P items in
      (λ h. ((here.0 h).0, rest.0 (here.0 h).1), λ (h, k). here.1 (h, rest.1 k))

  nil-collect_strings :
      (items : List I) → (collect_strings items field ≡ []) ↔ All (λ i. field i ≡ []) items
  unfolding collect_strings
  nil-collect_strings [] = (λ e. tt, λ h. refl)
  nil-collect_strings (i ∷ items) =
      let here = nil-if (collect_strings items field) (field i) in
      let rest = nil-collect_strings items in
      (λ h. ((here.0 h).0, rest.0 (here.0 h).1), λ (h, k). here.1 (h, rest.1 k))

-- The entries collected from the items give the dimension that the items describe.
module _ {S : Type 0} {I : Type 0} (compile : Text → Result (S → Bool)) (s : S)
    (field : I → Text) where
  pub collected-InScope :
      (inc exc : List I)
      → (((collect_strings inc field ≡ []) ⊎ Any (Accepts compile s) (collect_strings inc field))
          × All (Rejects compile s) (collect_strings exc field))
        ↔ InScope compile s field inc exc
  collected-InScope inc exc =
      let none_left = nil-collect_strings field inc in
      let some_left = Any-collect_strings field (Accepts compile s) inc in
      let drops = All-collect_strings field (Rejects compile s) exc in
      (
        λ (h, k).
            ((elim h [ inl e ↦ inl (none_left.0 e) | inr a ↦ inr (some_left.0 a) ]), drops.0 k),
        λ (h, k).
            ((elim h [ inl e ↦ inl (none_left.1 e) | inr a ↦ inr (some_left.1 a) ]), drops.1 k),
      )

  pub Any-defaulted :
      Accepts compile s match_everything
      → (ps : List Text)
      → Any (Accepts compile s) (defaulted_to_match_all ps)
        ↔ ((ps ≡ []) ⊎ Any (Accepts compile s) ps)
  unfolding defaulted_to_match_all
  Any-defaulted w [] = (λ h. inl refl, λ h. inl w)
  Any-defaulted w (p ∷ ps) = (inr, elim [ inl e ↦ cc | inr h ↦ h ])

pub unset-InScope :
    {S : Type 0} {I : Type 0} (compile : Text → Result (S → Bool)) (s : S) (field : I → Text)
    (inc exc : List I)
    → has_no_items inc exc ≡ true
    → InScope compile s field inc exc
unfolding has_no_items
unset-InScope compile s field [] [] h = (inl tt, tt)
unset-InScope compile s field [] (e ∷ es) h = cc
unset-InScope compile s field (i ∷ is) es h = cc

pub collect_strings-map :
    {A B : Type 0} (g : A → B) (field : B → Text) (items : List A)
    → collect_strings (map g items) field ≡ collect_strings items (λ i. field (g i))
unfolding collect_strings
collect_strings-map g field [] = refl
collect_strings-map g field (i ∷ items) = rw (collect_strings-map g field items)
