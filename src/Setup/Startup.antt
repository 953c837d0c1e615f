-- ===== src/Setup/Startup.antt =====
-- cmd/main.go: from the flags to the start of the manager. Flags, certificates, the manager and the
-- environment are those of the libraries; a result that is an error is os.Exit(1).
use kube_image_keeper.Prelude.{
  ℕ, Bool, true, false, not, List, [], ◌∷◌, ◌++◌, Option, none, some, if◌then◌else◌,
}
use kube_image_keeper.Text.{Text, codes, text_eq, is_empty, path_join}
use kube_image_keeper.Errors.{Error, Result, ok, err}
use kube_image_keeper.Effects.{Eff, pure, lift, ◌>>=◌, ◌>>◌, run_all}
use kube_image_keeper.Webhook.Rewrite.{Routing}
use kube_image_keeper.Webhook.Defaulting.{Libraries}
use kube_image_keeper.Mirroring.Reconcile.{Settings as MirrorSettings}
use kube_image_keeper.Availability.Check.{Settings as MonitorSettings}
use kube_image_keeper.Histogram.{Floats, validate}
use kube_image_keeper.Configuration.{Config}
use kube_image_keeper.Reporting.Collectors.{Collector, register_metrics}
use kube_image_keeper.Setup.{
  ImagePlatform, RangeOrders, setup_pod_webhook, setup_controller, setup_with_manager,
}
use kube_image_keeper.Setup.Loading.{Koanf, load}

-- The directory, the certificate and the key.
pub record CertFlags : Type 0 where
  pub path : Text
  pub name : Text
  pub key : Text

pub record Flags : Type 0 where
  pub metrics_addr : Text
  pub probe_addr : Text
  pub enable_leader_election : Bool
  pub secure_metrics : Bool
  pub webhook_cert : CertFlags
  pub metrics_cert : CertFlags
  pub enable_http2 : Bool
  pub config_path : Text

abbrev pub default_cert : CertFlags
default_cert = record { path = []; name = codes "tls.crt"; key = codes "tls.key" }

-- The values of the flags that are not given.
unfoldable pub default_flags : Flags
default_flags = record {
  metrics_addr = codes "0";
  probe_addr = codes ":8081";
  enable_leader_election = false;
  secure_metrics = true;
  webhook_cert = default_cert;
  metrics_cert = default_cert;
  enable_http2 = false;
  config_path = codes "/etc/kube-image-keeper/config.yaml";
}

-- The functions that are applied to a TLS configuration: one that leaves HTTP/2 out, and one that takes
-- the certificate of a watcher of two files.
pub data TlsOption : Type 0 where
  disable_http2 : TlsOption
  get_certificate : Text → Text → TlsOption

pub record ManagerOptions : Type 0 where
  pub bind_address : Text
  pub secure_serving : Bool
  pub metrics_tls : List TlsOption
  -- the filter with authentication and authorisation is there
  pub filtered : Bool
  -- the paths of the handlers beside the metrics
  pub extra_handlers : List Text
  pub webhook_tls : List TlsOption
  pub health_probe_bind_address : Text
  pub leader_election : Bool
  pub leader_election_id : Text

-- What the manager runs.
pub data Component (F : Type 0) : Type 0 where
  pod_webhook : Routing → ℕ → Component F
  mirror_controller : Text → MirrorSettings → List ImagePlatform → Component F
  secret_owner : Text → Component F
  availability_controller : MonitorSettings → Component F
  backfill healthz readyz : Component F
  cert_watcher : Text → Text → Component F
  metrics : List (Collector F) → Component F

pub record Manager (W F : Type 0) : Type 0 where
  -- the validation by struct tags
  pub validate_struct : Config F → Result (Unit {0})
  pub new_cert_watcher : Text → Text → Eff W (Unit {0})
  pub new_manager : ManagerOptions → Eff W (Unit {0})
  pub getenv : Text → Text
  -- the registration of a component
  pub add : Component F → Eff W (Unit {0})
  pub start : Eff W (Unit {0})

-- An optional error as a result.
abbrev pub no_error : Option Error → Result (Unit {0})
no_error none = ok tt
no_error (some e) = err e

-- The two files, where a directory is given.
unfoldable pub cert_files : CertFlags → Option (Text × Text)
unfolding path_join
cert_files c =
    if is_empty c.path
    then none
    else some (path_join (c.path ∷ c.name ∷ []), path_join (c.path ∷ c.key ∷ []))

unfoldable pub tls_options : Flags → Option (Text × Text) → List TlsOption
tls_options flags none = if flags.enable_http2 then [] else disable_http2 ∷ []
tls_options flags (some (cert, key)) =
    (if flags.enable_http2 then [] else disable_http2 ∷ []) ++ get_certificate cert key ∷ []

unfoldable pub manager_options : Flags → ManagerOptions
unfolding cert_files tls_options
manager_options flags = record {
  bind_address = flags.metrics_addr;
  secure_serving = flags.secure_metrics;
  metrics_tls = tls_options flags (cert_files flags.metrics_cert);
  filtered = flags.secure_metrics;
  extra_handlers = codes "/status/images" ∷ [];
  webhook_tls = tls_options flags (cert_files flags.webhook_cert);
  health_probe_bind_address = flags.probe_addr;
  leader_election = flags.enable_leader_election;
  leader_election_id = codes "e69ca865.enix.io";
}

module _ {W F : Type 0} (manager : Manager W F) where
  unfoldable pub new_watcher : Option (Text × Text) → Eff W (Unit {0})
  new_watcher none = pure tt
  new_watcher (some (cert, key)) = manager.new_cert_watcher cert key

  unfoldable pub add_watcher : Option (Text × Text) → Eff W (Unit {0})
  add_watcher none = pure tt
  add_watcher (some (cert, key)) = manager.add (cert_watcher cert key)

  unfoldable pub webhooks_enabled : Bool
  unfolding text_eq
  webhooks_enabled = not (text_eq (manager.getenv (codes "ENABLE_WEBHOOKS")) (codes "false"))

-- The lines before the components: the configuration, its validation, the watchers and the manager.
module _ {W F K : Type 0} (floats : Floats F) (koanf : Koanf W F K) (decimal : ℕ → ℕ → F)
    (manager : Manager W F) where
  unfoldable pub prepare : Flags → Eff W (Config F)
  unfolding load validate cert_files new_watcher manager_options
  prepare flags = do
    cfg ← load koanf decimal flags.config_path
    lift (manager.validate_struct cfg)
    lift (no_error (validate floats cfg.image_last_monitor_age_minutes.legacy))
    new_watcher manager (cert_files flags.webhook_cert)
    new_watcher manager (cert_files flags.metrics_cert)
    manager.new_manager (manager_options flags)
    pure cfg

module _ {W F : Type 0} (libs : Libraries) (floats : Floats F) (manager : Manager W F)
    (orders : RangeOrders) (cfg : Config F) where
  unfoldable pub add_webhook : Eff W (Unit {0})
  unfolding webhooks_enabled setup_pod_webhook
  add_webhook =
      if webhooks_enabled manager
      then (do
        (routing, places) ← lift (setup_pod_webhook libs cfg)
        manager.add (pod_webhook routing places))
      else pure tt

  unfoldable pub add_mirror_controller : Text → Eff W (Unit {0})
  unfolding setup_controller
  add_mirror_controller name = do
    (mirrors, platforms) ← lift (setup_controller libs cfg orders)
    manager.add (mirror_controller name mirrors platforms)

  unfoldable pub add_availability : Eff W (Unit {0})
  unfolding setup_with_manager
  add_availability = do
    monitoring ← lift (setup_with_manager libs cfg orders)
    manager.add (availability_controller monitoring)

  unfoldable pub add_metrics : Eff W (Unit {0})
  unfolding register_metrics
  add_metrics = do collectors ← lift (register_metrics floats cfg); manager.add (metrics collectors)

  -- The lines from the webhook to the metrics.
  abbrev pub lines : Flags → List (Eff W (Unit {0}))
  lines flags =
      add_webhook
      ∷ add_mirror_controller (codes "kuik-clusterimagesetmirror")
      ∷ add_mirror_controller (codes "kuik-imagesetmirror")
      ∷ manager.add (secret_owner (codes "ClusterImageSetMirror"))
      ∷ manager.add (secret_owner (codes "ClusterReplicatedImageSet"))
      ∷ add_availability
      ∷ manager.add backfill
      ∷ add_watcher manager (cert_files flags.metrics_cert)
      ∷ add_watcher manager (cert_files flags.webhook_cert)
      ∷ manager.add healthz
      ∷ manager.add readyz
      ∷ add_metrics
      ∷ []

  unfoldable pub add_components : Flags → Eff W (Unit {0})
  unfolding add_webhook add_mirror_controller add_availability cert_files add_watcher add_metrics
      run_all
  add_components flags = run_all (lines flags)

-- main
unfoldable pub main :
    {W F K : Type 0}
    → Libraries
    → Floats F
    → Koanf W F K
    → (ℕ → ℕ → F)
    → Manager W F
    → RangeOrders
    → Flags
    → Eff W (Unit {0})
unfolding prepare add_components
main libs floats koanf decimal manager orders flags = do
  cfg ← prepare floats koanf decimal manager flags
  add_components libs floats manager orders cfg flags
  manager.start
