-- ===== src/Setup/Loading.antt =====
-- Load, LoadDefault and load in internal/config/config.go. The library koanf reads structures and files and
-- decodes what was read; K is what it holds.
use kube_image_keeper.Prelude.{ℕ, Bool, Option, none, some, if◌then◌else◌}
use kube_image_keeper.Text.{Text}
use kube_image_keeper.Errors.{Error, Result, ok, err}
use kube_image_keeper.Effects.{Eff, pure, raise, lift, attempt, ◌>>=◌}
use kube_image_keeper.Configuration.{Config, default_config}

pub record Koanf (W F K : Type 0) : Type 0 where
  -- os.Stat, and errors.Is with os.ErrNotExist
  pub stat : Text → Eff W (Unit {0})
  pub is_not_exist : Error → Bool
  -- a new instance with the values of a structure, and an instance with those of a YAML file
  pub load_struct : Config F → Result K
  pub load_file : K → Text → Eff W K
  -- UnmarshalWithConf, into an empty configuration
  pub unmarshal : K → Result (Config F)

module _ {W F K : Type 0} (koanf : Koanf W F K) (decimal : ℕ → ℕ → F) where
  -- k.Load(provider, parser), where there is a provider
  unfoldable pub load_provider : Option Text → K → Eff W K
  load_provider none k = pure k
  load_provider (some path) k = koanf.load_file k path

  -- load, for the path of the file of the provider
  unfoldable pub load_from : Option Text → Eff W (Config F)
  unfolding load_provider default_config
  load_from provider = do
    defaults ← lift (koanf.load_struct (default_config decimal))
    k ← load_provider provider defaults
    lift (koanf.unmarshal k)

  -- LoadDefault
  unfoldable pub load_default : Eff W (Config F)
  unfolding load_from
  load_default = load_from none

  -- Load, behind os.Stat
  unfoldable pub load_found : Text → Result (Unit {0}) → Eff W (Config F)
  unfolding load_from load_default
  load_found path (ok _) = load_from (some path)
  load_found path (err e) = if koanf.is_not_exist e then load_default else raise e

  -- Load
  unfoldable pub load : Text → Eff W (Config F)
  unfolding load_found
  load path = attempt (koanf.stat path) (load_found path)
