-- ===== src/Registry/Client.antt =====
-- internal/registry/registry.go and keychain.go: requests with each keychain in turn, and deletion.
-- The transport, its time limits and the keyring of the credential provider are parameters.
use kube_image_keeper.Prelude.{
  ℕ, Bool, List, [], ◌∷◌, ◌++◌, Option, none, some, if◌then◌else◌, ◌==◌,
}
use kube_image_keeper.Text.{Text, codes}
use kube_image_keeper.Errors.{
  Error, message, not_found, conflict, transport, wrap, joined, Result, ok, err, error_text,
}
use kube_image_keeper.Effects.{Eff, pure, raise, lift, attempt, ◌>>=◌}
use kube_image_keeper.Webhook.Alternatives.{Secret}

-- errors.As(err, &transportErr): the first transport error, depth first
unfoldable pub as_transport : Error → Option ℕ
as_transport (transport n _) = some n
as_transport (wrap _ e) = as_transport e
as_transport (joined e f) = elim (as_transport e) [ some n ↦ some n | none ↦ as_transport f ]
as_transport (message _) = none
as_transport (not_found _) = none
as_transport (conflict _) = none

abbrev pub or_zero : Option ℕ → ℕ
or_zero none = 0
or_zero (some n) = n

-- TransportStatusCode
unfoldable pub transport_status_code : Error → ℕ
unfolding as_transport
transport_status_code e = or_zero (as_transport e)

-- ErrIsImageNotFound
unfoldable pub err_is_image_not_found : Error → Bool
unfolding transport_status_code
err_is_image_not_found e = transport_status_code e == 404

-- The two methods that getReader supports; it panics with any other.
pub data HttpMethod : Type 0 where
  get head : HttpMethod

-- A parsed reference: ref.Context().Name(), ref.Name(), and whether it is a name.Digest.
pub record Reference : Type 0 where
  pub repository : Text
  pub full_name : Text
  pub is_digest : Bool

-- What the client takes from the libraries: K is an authn.Keychain, D a descriptor of a manifest.
pub record Remote (W K D : Type 0) : Type 0 where
  -- reference.ParseNormalizedNamed, then Name()
  pub normalized_name : Text → Result Text
  -- secrets.MakeDockerKeyring and the Lookup of the keyring, where there is one
  pub make_docker_keyring : List Secret → Result (Option (Text → List K))
  pub default_keychain : K
  pub parse_reference : Text → Result Reference
  pub remote_head : Reference → K → Eff W D
  pub remote_get : Reference → K → Eff W D
  pub remote_delete : Text → K → Eff W (Unit {0})
  pub new_digest : Text → Result Text
  pub digest : D → Text
  -- the header `ratelimit-remaining` of the last response
  pub ratelimit_remaining : W → Text

-- errors.Join(errs...), where the last error is this one
unfoldable pub join_with : List Error → Error → Error
join_with [] e = e
join_with (x ∷ xs) e = joined x (join_with xs e)

-- The loop stops at the first success.
unfoldable pub or_next : {W A : Type 0} → (Error → Eff W A) → Result A → Eff W A
or_next next (ok a) = pure a
or_next next (err e) = next e

-- The loop of Execute over the keychains, with the errors so far.
unfoldable pub try_keychains : {W K A : Type 0} → (K → Eff W A) → List Error → K → List K → Eff W A
unfolding or_next join_with
try_keychains action errs k [] = attempt (action k) (or_next (λ e. raise (join_with errs e)))
try_keychains action errs k (k' ∷ ks) =
    attempt (action k) (or_next (λ e. try_keychains action (errs ++ e ∷ []) k' ks))

module _ {W K D : Type 0} (remote : Remote W K D) where
  -- GetKeychains
  unfoldable pub get_keychains : Text → List Secret → Result (List K)
  unfolding error_text
  get_keychains repository_name pull_secrets = elim (remote.normalized_name repository_name) [
    | err e ↦ err (message (codes "couldn't parse image name: " ++ error_text e))
    | ok name ↦ elim (remote.make_docker_keyring pull_secrets) [
      | err e ↦ err e
      | ok none ↦ ok []
      | ok (some find) ↦ ok (find name)
    ]
  ]

  -- The keychains to try, the default one where there is no other.
  unfoldable pub with_keychains : {A : Type 0} → (K → Eff W A) → List K → Eff W A
  unfolding try_keychains
  with_keychains action [] = try_keychains action [] remote.default_keychain []
  with_keychains action (k ∷ ks) = try_keychains action [] k ks

  -- Client.Execute
  unfoldable pub execute : {A : Type 0} → Text → List Secret → (Reference → K → Eff W A) → Eff W A
  unfolding get_keychains with_keychains
  execute image_name pull_secrets action = do
    keychains ← lift (get_keychains image_name pull_secrets)
    ref ← lift (remote.parse_reference image_name)
    with_keychains (action ref) keychains

  -- getReader
  get_reader : HttpMethod → Reference → K → Eff W D
  get_reader get = remote.remote_get
  get_reader head = remote.remote_head

  -- Client.ReadDescriptor; the headers of the last response are read from the world.
  unfoldable pub read_descriptor : HttpMethod → Text → List Secret → Eff W D
  unfolding execute get_reader
  read_descriptor method image_name pull_secrets =
      execute image_name pull_secrets (get_reader method)

  delete_at : Reference → K → Eff W (Unit {0})
  unfolding err_is_image_not_found
  delete_at ref k = attempt (remote.remote_head ref k) λ r. elim r [
    | err e ↦ if err_is_image_not_found e then pure tt else raise e
    | ok d ↦ (do
      target ← lift (remote.new_digest (ref.full_name ++ b'@' ∷ remote.digest d))
      remote.remote_delete target k)
  ]

  -- Client.DeleteImage
  unfoldable pub delete_image : Text → List Secret → Eff W (Unit {0})
  unfolding execute delete_at
  delete_image image_name pull_secrets = execute image_name pull_secrets delete_at
