-- ===== src/SecretOwner/Finalizers.antt =====
-- The finalizer of an owner of secrets, and when it is removed.
use kube_image_keeper.Prelude.{
  ◌≡◌, refl, ap, Bool, true, false, List, [], ◌∷◌, ◌++◌, contains_func, delete_func, Bool-cases,
  inl, inr, arith,
}
use kube_image_keeper.Text.{Text, text_eq}
use kube_image_keeper.Text.Laws.{text_eq_refl}
use kube_image_keeper.Errors.{Result, ok, err, is_not_found}
use kube_image_keeper.Effects.{Eff}
use kube_image_keeper.Effects.Laws.{>>=-ok}
use kube_image_keeper.Resources.{ObjectMeta}
use kube_image_keeper.Webhook.Alternatives.{Secret}
use kube_image_keeper.SecretOwner.{
  OwnerApi, cleanup_finalizer, has_finalizer, with_finalizer, without_finalizer, after_delete,
  delete_secrets, cleanup_owned_secrets,
}

abbrev is_ours : Text → Bool
is_ours f = text_eq f cleanup_finalizer

contains-delete : (fs : List Text) → contains_func (delete_func fs is_ours) is_ours ≡ false
contains-delete [] = refl
contains-delete (f ∷ fs) = ground (arith, contains-delete fs)

contains-snoc : (fs : List Text) → contains_func (fs ++ cleanup_finalizer ∷ []) is_ours ≡ true
contains-snoc [] = ground (arith, text_eq_refl cleanup_finalizer)
contains-snoc (f ∷ fs) = ground (arith, contains-snoc fs)

delete-snoc :
    (fs : List Text)
    → contains_func fs is_ours ≡ false
    → delete_func (fs ++ cleanup_finalizer ∷ []) is_ours ≡ fs
delete-snoc [] h = ground (arith, text_eq_refl cleanup_finalizer)
delete-snoc (f ∷ fs) h = ground (arith, delete-snoc fs)

-- Adding the finalizer makes it there, removing it makes it gone, and removing it after it was added
-- to an object without it gives that object.
without_finalizer-with_finalizer :
    (m : ObjectMeta)
    → (has_finalizer (with_finalizer m) ≡ true)
      × (has_finalizer (without_finalizer m) ≡ false)
      × (has_finalizer m ≡ false → without_finalizer (with_finalizer m) ≡ m)
unfolding with_finalizer without_finalizer
without_finalizer-with_finalizer m = (
  elim (Bool-cases (contains_func m.finalizers is_ours)) [
    | inl q ↦ rw (q, contains_func) q
    | inr q ↦ rw (q, contains_func) (contains-snoc m.finalizers)
  ],
  contains-delete m.finalizers,
  λ h. rw (h, contains_func) (ap (λ fs. record m { finalizers = fs }) (delete-snoc m.finalizers h)),
)

-- The deletion of the secret has succeeded, or there was none.
abbrev pub Gone : Result (Unit {0}) → Type 0
Gone (ok u) = Unit
Gone (err e) = is_not_found e ≡ true

module _ {W : Type 0} (api : OwnerApi W) where
  -- Each of the secrets, one after the other.
  abbrev pub AllGone : List Secret → W → Type 0
  AllGone [] w = Unit
  AllGone (s ∷ ss) w = Gone (api.delete_secret s w).0 × AllGone ss (api.delete_secret s w).1

  after_delete-Gone :
      (rest : Eff W (Unit {0})) (r : Result (Unit {0})) (w : W)
      → (after_delete api rest r w).0 ≡ ok tt
      → Gone r × ((rest w).0 ≡ ok tt)
  unfolding after_delete
  after_delete-Gone rest (ok u) w = λ h. (tt, h)
  after_delete-Gone rest (err e) w = elim (Bool-cases (is_not_found e)) [
    | inl q ↦ rw (q, is_not_found) (λ h. (refl, h))
    | inr q ↦ rw (q, is_not_found) (λ h. cc)
  ]

  delete_secrets-AllGone :
      (ss : List Secret) (w : W) → (delete_secrets api ss w).0 ≡ ok tt → AllGone ss w
  unfolding delete_secrets
  delete_secrets-AllGone [] w = λ h. tt
  delete_secrets-AllGone (s ∷ ss) w = λ h.
      let (gone, rest) = after_delete-Gone (delete_secrets api ss) (api.delete_secret s w).0 _ h in
      (gone, delete_secrets-AllGone ss (api.delete_secret s w).1 rest)

  -- Where the cleanup of an owner ends without an error, its secrets were listed, and of each of them the
  -- deletion has succeeded or found none, before the finalizer is looked at.
  pub cleanup_owned_secrets-AllGone :
      (owner : ObjectMeta) (w : W)
      → (cleanup_owned_secrets api owner w).0 ≡ ok tt
      → (ss : List Secret) × ((api.list_owned owner.uid w).0 ≡ ok ss)
        × AllGone ss (api.list_owned owner.uid w).1
  unfolding cleanup_owned_secrets
  cleanup_owned_secrets-AllGone owner w h =
      let (ss, listed, rest) = >>=-ok (api.list_owned owner.uid) _ w tt h in
      let (u, gone, r) = >>=-ok (delete_secrets api ss) _ (api.list_owned owner.uid w).1 tt rest in
      (ss, listed, delete_secrets-AllGone ss (api.list_owned owner.uid w).1 gone)
