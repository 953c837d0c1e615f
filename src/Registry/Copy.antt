-- ===== src/Registry/Copy.antt =====
-- internal/registry/registry.go: GetDescriptor and CopyImage.
use kube_image_keeper.Prelude.{Bool, List}
use kube_image_keeper.Text.{Text}
use kube_image_keeper.Effects.{Eff, lift, ◌>>=◌}
use kube_image_keeper.Webhook.Alternatives.{Secret}
use kube_image_keeper.Registry.Client.{Reference, Remote, execute}
use kube_image_keeper.Registry.Platforms.{Source, copied}

-- What CopyImage takes from the registry library: the reads of the source that a descriptor leads to, and
-- the write of an index or of an image.
pub record ImageStore (W K D P M : Type 0) : Type 0 where
  pub read_source : D → Eff W (Source P M)
  pub write_source : Reference → K → Source P M → Eff W (Unit {0})
  pub satisfies : P → P → Bool
  pub platform_string : P → Text

module _ {W K D P M : Type 0} (remote : Remote W K D) (store : ImageStore W K D P M) where
  -- Client.GetDescriptor
  unfoldable pub get_descriptor : Text → List Secret → Eff W D
  unfolding execute
  get_descriptor image_name pull_secrets = execute remote image_name pull_secrets remote.remote_get

  -- The action of CopyImage for one keychain.
  unfoldable pub copy_at : D → List P → Reference → K → Eff W (Unit {0})
  unfolding copied
  copy_at src platforms dest k = do
    source ← store.read_source src
    filtered ← lift (copied store.satisfies store.platform_string platforms source)
    store.write_source dest k filtered

  -- Client.CopyImage
  unfoldable pub copy_image : D → Text → List P → List Secret → Eff W (Unit {0})
  unfolding execute copy_at
  copy_image src dest platforms pull_secrets =
      execute remote dest pull_secrets (copy_at src platforms)
