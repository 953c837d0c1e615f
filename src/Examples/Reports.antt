-- ===== src/Examples/Reports.antt =====
-- The theorems on reports, configurations and owned secrets at concrete inputs.
use kube_image_keeper.Prelude.{◌≡◌, refl, ◌+◌, ℕ, leb, List, [], ◌∷◌}
use kube_image_keeper.Text.{Text, codes}
use kube_image_keeper.Errors.{ok}
use kube_image_keeper.Effects.{pure}
use kube_image_keeper.Webhook.Alternatives.{Secret}
use kube_image_keeper.SecretOwner.{OwnerApi, cleanup_owned_secrets}
use kube_image_keeper.SecretOwner.Finalizers.{AllGone, cleanup_owned_secrets-AllGone}
use kube_image_keeper.Reporting.{by_registry, parse_group_by, serve_http}
use kube_image_keeper.Reporting.Totals.{Reports, entries, serve_http-Reports}
use kube_image_keeper.Histogram.{Floats}
use kube_image_keeper.Examples.Inputs.{as_named, metadata}
use kube_image_keeper.Examples.Servers.{availability}

abbrev pub epoch_text : ℕ → Text
epoch_text t = codes "1970-01-01T00:00:00Z"

serve_http-Reports_example :
    ((serve_http as_named epoch_text (codes "registry") (ok (availability ∷ []))).0 ≡ 200)
    × Reports as_named epoch_text by_registry
        (entries as_named epoch_text (availability ∷ []))
        (serve_http as_named epoch_text (codes "registry") (ok (availability ∷ []))).1
unfolding parse_group_by
serve_http-Reports_example =
    serve_http-Reports as_named epoch_text (codes "registry") by_registry (availability ∷ []) refl

-- Natural numbers in the place of floats.
abbrev pub floats : Floats ℕ
floats = record {
  zero_float = 0;
  one_float = 1;
  at_most = leb;
  show_float = λ x. [];
  show_int = λ x. [];
  quote = λ t. t;
  exponential_buckets = λ s f c. ok (s ∷ []);
  exponential_buckets_range = λ a b c. ok (a ∷ []);
}

-- An owner of one secret, with the number of deletions.
abbrev owner_api : OwnerApi ℕ
owner_api = record {
  get_object = pure metadata;
  update = λ m. pure tt;
  list_owned = λ uid. pure (record { name = codes "s"; namespace = []; contents = [] } ∷ []);
  delete_secret = λ s w. (ok tt, w + 1);
  retry_on_conflict = λ m. m;
}

cleanup_owned_secrets-AllGone_example :
    (ss : List Secret) × ((owner_api.list_owned metadata.uid 0).0 ≡ ok ss)
    × AllGone owner_api ss (owner_api.list_owned metadata.uid 0).1
unfolding cleanup_owned_secrets
cleanup_owned_secrets-AllGone_example = cleanup_owned_secrets-AllGone owner_api metadata 0 refl
