-- ===== src/SecretOwner.antt =====
-- internal/controller/kuik/secretowner_controller.go: the finalizer of an object that owns secrets, and
-- the removal of these secrets.
pub mod Finalizers
use kube_image_keeper.Prelude.{
  Bool, not, List, [], ◌∷◌, ◌++◌, contains_func, delete_func, if◌then◌else◌,
}
use kube_image_keeper.Text.{Text, codes, text_eq}
use kube_image_keeper.Errors.{Result, ok, err, is_not_found}
use kube_image_keeper.Effects.{Eff, pure, raise, attempt, ◌>>=◌, ◌>>◌}
use kube_image_keeper.Resources.{ObjectMeta}
use kube_image_keeper.Webhook.Alternatives.{Secret}
use kube_image_keeper.Mirroring.Merge.{is_zero}

-- The API server, as this reconciler calls it for its object.
pub record OwnerApi (W : Type 0) : Type 0 where
  pub get_object : Eff W ObjectMeta
  pub update : ObjectMeta → Eff W (Unit {0})
  -- the secrets with the label of the owner's uid
  pub list_owned : Text → Eff W (List Secret)
  pub delete_secret : Secret → Eff W (Unit {0})
  pub retry_on_conflict : Eff W (Unit {0}) → Eff W (Unit {0})

abbrev pub cleanup_finalizer : Text
cleanup_finalizer = codes "kuik.enix.io/secret-cleanup"

abbrev pub has_finalizer : ObjectMeta → Bool
has_finalizer m = contains_func m.finalizers (λ f. text_eq f cleanup_finalizer)

unfoldable pub with_finalizer : ObjectMeta → ObjectMeta
unfolding text_eq
with_finalizer m =
    if has_finalizer m then m else record m { finalizers = m.finalizers ++ cleanup_finalizer ∷ [] }

unfoldable pub without_finalizer : ObjectMeta → ObjectMeta
unfolding text_eq
without_finalizer m = record m {
  finalizers = delete_func m.finalizers (λ f. text_eq f cleanup_finalizer);
}

module _ {W : Type 0} (api : OwnerApi W) where
  -- What follows one deletion.
  unfoldable pub after_delete : Eff W (Unit {0}) → Result (Unit {0}) → Eff W (Unit {0})
  after_delete rest (ok _) = rest
  after_delete rest (err e) = if is_not_found e then rest else raise e

  -- The loop over the secrets; one that is gone already is no error.
  unfoldable pub delete_secrets : List Secret → Eff W (Unit {0})
  unfolding after_delete
  delete_secrets [] = pure tt
  delete_secrets (s ∷ ss) = attempt (api.delete_secret s) (after_delete (delete_secrets ss))

  unfoldable pub cleanup_owned_secrets : ObjectMeta → Eff W (Unit {0})
  unfolding delete_secrets without_finalizer
  cleanup_owned_secrets owner = do
    secrets ← api.list_owned owner.uid
    delete_secrets secrets
    api.retry_on_conflict (
        attempt api.get_object λ r. elim r [
          | ok fresh ↦ api.update (without_finalizer fresh)
          | err e ↦ if is_not_found e then pure tt else raise e
        ])

  unfoldable pub reconcile_owner : ObjectMeta → Eff W (Unit {0})
  unfolding cleanup_owned_secrets with_finalizer
  reconcile_owner owner =
      if not (is_zero owner.deletion_timestamp)
      then (if has_finalizer owner then cleanup_owned_secrets owner else pure tt)
      else if has_finalizer owner
      then pure tt
      else api.retry_on_conflict (do fresh ← api.get_object; api.update (with_finalizer fresh))

  unfoldable pub reconcile : Eff W (Unit {0})
  unfolding reconcile_owner
  reconcile = attempt api.get_object λ r. elim r [
    | ok owner ↦ reconcile_owner owner
    | err e ↦ if is_not_found e then pure tt else raise e
  ]
