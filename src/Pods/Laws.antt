-- ===== src/Pods/Laws.antt =====
-- Reading a string map after a write.
use kube_image_keeper.Prelude.{
  ◌≡◌, refl, ap, subst, sym, false, [], ◌∷◌, some, Bool-cases, inl, inr,
}
use kube_image_keeper.Text.{Text, text_eq}
use kube_image_keeper.Text.Laws.{text_eq_refl, text_eq_sound}
use kube_image_keeper.Pods.{StringMap, lookup, insert}

module _ {V : Type 0} where
  pub lookup-insert_same : (k : Text) (v : V) (m : StringMap V) → lookup k (insert k v m) ≡ some v
  unfolding lookup insert
  lookup-insert_same k v [] = rw (text_eq_refl k) refl
  lookup-insert_same k v ((j, u) ∷ m) = elim (Bool-cases (text_eq j k)) [
    | inl q ↦ rw (q, q) refl
    | inr q ↦ rw (q, lookup, q) (lookup-insert_same k v m)
  ]

  pub lookup-insert_other :
      (k l : Text) (v : V) (m : StringMap V)
      → text_eq k l ≡ false
      → lookup l (insert k v m) ≡ lookup l m
  unfolding lookup insert
  lookup-insert_other k l v [] h = rw h refl
  lookup-insert_other k l v ((j, u) ∷ m) h = elim (Bool-cases (text_eq j k)) [
    | inl q ↦
        let q' : text_eq j l ≡ false =
          subst (λ t. text_eq t l ≡ false) (sym (text_eq_sound j k q)) h in
        rw (q, lookup, q') refl
    | inr q ↦ rw (q, lookup, lookup-insert_other k l v m h) refl
  ]

pub insert-insert_same :
    (k v : Text) (m : StringMap Text) → insert k v (insert k v m) ≡ insert k v m
unfolding insert
insert-insert_same k v [] = rw (text_eq_refl k) refl
insert-insert_same k v ((j, u) ∷ m) = elim (Bool-cases (text_eq j k)) [
  | inl q ↦ rw (q, insert, q) refl
  | inr q ↦ rw (q, insert, q) (ap (λ t. (j, u) ∷ t) (insert-insert_same k v m))
]
