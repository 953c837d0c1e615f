-- ===== src/Webhook/Collected.antt =====
-- The containers that are collected from a pod whose containers are recorded.
use kube_image_keeper.Prelude.{
  ◌≡◌, refl, sym, ap, ◌∙◌, inl, inr, Bool, true, false, List, [], ◌∷◌, map, Option, none, some,
  is_some, Bool-cases, Option-cases, ℕ, suc, subst, All, Any,
}
use kube_image_keeper.Text.{Text, text_eq}
use kube_image_keeper.Text.Laws.{text_eq_sound}
use kube_image_keeper.Errors.{ok, ok-injective}
use kube_image_keeper.Pods.{StringMap, lookup, insert, PullPolicy, Container as PodContainer, Pod}
use kube_image_keeper.Pods.Laws.{lookup-insert_same, lookup-insert_other}
use kube_image_keeper.Webhook.Alternatives.{Container}
use kube_image_keeper.Webhook.Admission.{collect_containers, collect_all}
use kube_image_keeper.Webhook.Frame.{fixed}

-- The name of a container is among the keys.
abbrev IsRecorded : StringMap Text → Text × PullPolicy → Type 0
IsRecorded originals f = is_some (lookup f.0 originals) ≡ true

pub recorded-insert :
    {V : Type 0} (k : Text) (v : V) (n : Text) (m : StringMap V)
    → is_some (lookup n m) ≡ true
    → is_some (lookup n (insert k v m)) ≡ true
recorded-insert k v n m h = elim (Bool-cases (text_eq k n)) [
  | inl q ↦
      subst (λ t. is_some (lookup t (insert k v m)) ≡ true) (text_eq_sound k n q)
        (ap is_some (lookup-insert_same k v m))
  | inr q ↦ ap is_some (lookup-insert_other k n v m q) ∙ h
]

recorded_before :
    (i : ℕ) (cs : List PodContainer) (m : StringMap Text) (n : Text)
    → is_some (lookup n m) ≡ true
    → is_some (lookup n (collect_containers i cs m).1) ≡ true
unfolding collect_containers
recorded_before i [] m n h = h
recorded_before i (c ∷ cs) m n h = elim (Option-cases (lookup c.name m)) [
  | inl q ↦
      rw (q, collect_containers, is_some)
        (recorded_before (suc i) cs (insert c.name c.image m) n
          (recorded-insert c.name c.image n m h))
  | inr (v, q) ↦ rw (q, collect_containers, is_some) (recorded_before (suc i) cs m n h)
]

pub collect_containers-new :
    (i : ℕ) (c : PodContainer) (cs : List PodContainer) (m : StringMap Text)
    → lookup c.name m ≡ none
    → (collect_containers i (c ∷ cs) m).1
      ≡ (collect_containers (suc i) cs (insert c.name c.image m)).1
unfolding collect_containers
collect_containers-new i c cs m q = rw (q, collect_containers) refl

pub collect_containers-old :
    (i : ℕ) (c : PodContainer) (cs : List PodContainer) (m : StringMap Text)
    → is_some (lookup c.name m) ≡ true
    → collect_containers i (c ∷ cs) m ≡ collect_containers (suc i) cs m
unfolding collect_containers
collect_containers-old i c cs m h = elim (Option-cases (lookup c.name m)) [
  | inl q ↦ let k : false ≡ true = sym (ap is_some q) ∙ h in cc
  | inr (v, q) ↦ rw (q, collect_containers) refl
]

collect_containers-IsRecorded :
    (i : ℕ) (cs : List PodContainer) (m : StringMap Text)
    → All (IsRecorded (collect_containers i cs m).1) (map fixed cs)
collect_containers-IsRecorded i [] m = tt
collect_containers-IsRecorded i (c ∷ cs) m = elim (Option-cases (lookup c.name m)) [
  | inl q ↦
      let m' = insert c.name c.image m in
      subst (λ o. All (IsRecorded o) (map fixed (c ∷ cs))) (sym (collect_containers-new i c cs m q))
        (
          recorded_before (suc i) cs m' c.name (ap is_some (lookup-insert_same c.name c.image m)),
          collect_containers-IsRecorded (suc i) cs m',
        )
  | inr (v, q) ↦
      subst (λ r. All (IsRecorded r.1) (map fixed (c ∷ cs)))
        (sym (collect_containers-old i c cs m (ap is_some q)))
        (
          recorded_before (suc i) cs m c.name (ap is_some q),
          collect_containers-IsRecorded (suc i) cs m,
        )
]

-- Containers that are recorded are not collected again.
collect_containers-none :
    (i : ℕ) (cs : List PodContainer) (m : StringMap Text)
    → All (IsRecorded m) (map fixed cs)
    → collect_containers i cs m ≡ ([], m)
unfolding collect_containers
collect_containers-none i [] m h = refl
collect_containers-none i (c ∷ cs) m h =
    collect_containers-old i c cs m h.0 ∙ collect_containers-none (suc i) cs m h.1

collect_some :
    (q : Pod) (m : StringMap Text)
    → All (IsRecorded m) (map fixed q.containers)
    → q.init_containers ≡ []
    → collect_all q (some m) ≡ ok ([], some m)
unfolding collect_all
collect_some q m h no_init = rw (collect_containers-none 0 q.containers m h, no_init) refl

collect_none :
    (p : Pod) (ps : List PodContainer) (cs : List Container) (originals : Option (StringMap Text))
    → p.containers ≡ ps
    → collect_all p none ≡ ok (cs, originals)
    → (ps ≡ []) × (originals ≡ none)
unfolding collect_all
collect_none p [] cs originals e =
    rw (e, collect_all) (λ h. (refl, sym (ap (λ x. x.1) (ok-injective h))))
collect_none p (c ∷ ps) cs originals e = rw (e, collect_all) (λ h. cc)

pub no_containers : (cs : List PodContainer) → map fixed cs ≡ [] → cs ≡ []
no_containers [] h = refl
no_containers (c ∷ cs) h = cc

-- The containers of a later pod with these names are not collected again.
pub collect_again :
    (p q : Pod) (before originals : Option (StringMap Text)) (cs : List Container)
    → map fixed q.containers ≡ map fixed p.containers
    → q.init_containers ≡ []
    → collect_all p before ≡ ok (cs, originals)
    → collect_all q originals ≡ ok ([], originals)
unfolding collect_all
collect_again p q (some m) originals cs same no_init h =
    subst (λ o. collect_all q o ≡ ok ([], o)) (ap (λ x. x.1) (ok-injective h))
      (collect_some q (collect_containers 0 p.containers m).1
        (subst (λ l. All (IsRecorded (collect_containers 0 p.containers m).1) l) (sym same)
          (collect_containers-IsRecorded 0 p.containers m))
        no_init)
collect_again p q none originals cs same no_init h =
    let (empty, none_left) = collect_none p p.containers cs originals refl h in
    let q_empty = no_containers q.containers (same ∙ ap (map fixed) empty) in
    subst (λ o. collect_all q o ≡ ok ([], o)) (sym none_left) (rw (q_empty, no_init) refl)

-- The names of the containers differ.
abbrev pub HasDistinctNames : List PodContainer → Type 0
HasDistinctNames [] = Unit
HasDistinctNames (c ∷ cs) =
    All (λ (d : PodContainer). text_eq c.name d.name ≡ false) cs × HasDistinctNames cs

-- What is recorded stays.
recorded-kept :
    (i : ℕ) (cs : List PodContainer) (m : StringMap Text) (n v : Text)
    → lookup n m ≡ some v
    → lookup n (collect_containers i cs m).1 ≡ some v
unfolding collect_containers
recorded-kept i [] m n v h = h
recorded-kept i (c ∷ cs) m n v h = elim (Option-cases (lookup c.name m)) [
  | inl q ↦
      subst (λ o. lookup n o ≡ some v) (sym (collect_containers-new i c cs m q))
        (recorded-kept (suc i) cs (insert c.name c.image m) n v (kept q (text_eq c.name n) refl))
  | inr (u, q) ↦
      subst (λ r. lookup n r.1 ≡ some v) (sym (collect_containers-old i c cs m (ap is_some q)))
        (recorded-kept (suc i) cs m n v h)
]
  where
    kept :
        lookup c.name m ≡ none
        → (b : Bool) → text_eq c.name n ≡ b
        → lookup n (insert c.name c.image m) ≡ some v
    kept q false e = lookup-insert_other c.name n c.image m e ∙ h
    kept q true e =
        let clash : none ≡ some v = sym q ∙ ap (λ k. lookup k m) (text_eq_sound c.name n e) ∙ h in
        cc

still_fresh :
    (n v : Text) (m : StringMap Text) (cs : List PodContainer)
    → All (λ (d : PodContainer). text_eq n d.name ≡ false) cs
    → All (λ (d : PodContainer). lookup d.name m ≡ none) cs
    → All (λ (d : PodContainer). lookup d.name (insert n v m) ≡ none) cs
still_fresh n v m [] h k = tt
still_fresh n v m (d ∷ ds) h k =
    (lookup-insert_other n d.name v m h.0 ∙ k.0, still_fresh n v m ds h.1 k.1)

-- Each container is recorded with its image.
pub collected_image :
    (i : ℕ) (cs : List PodContainer) (m : StringMap Text) (c : PodContainer)
    → HasDistinctNames cs
    → All (λ (d : PodContainer). lookup d.name m ≡ none) cs
    → Any (λ d. d ≡ c) cs
    → lookup c.name (collect_containers i cs m).1 ≡ some c.image
collected_image i [] m c distinct fresh h = absurd h
collected_image i (d ∷ ds) m c distinct fresh h =
    let m' = insert d.name d.image m in
    subst (λ o. lookup c.name o ≡ some c.image) (sym (collect_containers-new i d ds m fresh.0))
      (elim h [
        | inl e ↦
            subst
              (λ (x : PodContainer).
                lookup x.name (collect_containers (suc i) ds m').1 ≡ some x.image)
              e (recorded-kept (suc i) ds m' d.name d.image (lookup-insert_same d.name d.image m))
        | inr k ↦
            collected_image (suc i) ds m' c distinct.1
              (still_fresh d.name d.image m ds distinct.0 fresh.1) k
      ])
