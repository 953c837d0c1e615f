-- ===== src/Setup/Read.antt =====
-- The configuration with which the start-up goes on.
use kube_image_keeper.Prelude.{◌≡◌, refl, subst, ℕ, Option, none, some}
use kube_image_keeper.Errors.{Error, ok, ok-injective}
use kube_image_keeper.Effects.{lift}
use kube_image_keeper.Effects.Laws.{>>=-ok}
use kube_image_keeper.Histogram.{Floats, validate}
use kube_image_keeper.Configuration.{Config}
use kube_image_keeper.Setup.Loading.{Koanf, load}
use kube_image_keeper.Setup.Startup.{
  Flags, Manager, no_error, cert_files, manager_options, new_watcher, prepare,
}

no_error-ok : (o : Option Error) → no_error o ≡ ok tt → o ≡ none
no_error-ok none h = refl
no_error-ok (some e) h = cc

-- The configuration that was read, and that has passed both validations.
abbrev pub IsRead :
    {W F K : Type 0}
    → Floats F
    → Koanf W F K
    → (ℕ → ℕ → F)
    → Manager W F
    → Flags
    → W
    → Config F
    → Type 0
IsRead floats koanf decimal manager flags w cfg =
    ((load koanf decimal flags.config_path w).0 ≡ ok cfg)
    × (manager.validate_struct cfg ≡ ok tt)
    × (validate floats cfg.image_last_monitor_age_minutes.legacy ≡ none)

module _ {W F K : Type 0} (floats : Floats F) (koanf : Koanf W F K) (decimal : ℕ → ℕ → F)
    (manager : Manager W F) where
  pub prepare-IsRead :
      (flags : Flags) (w : W) (cfg : Config F)
      → (prepare floats koanf decimal manager flags w).0 ≡ ok cfg
      → IsRead floats koanf decimal manager flags w cfg
  unfolding prepare
  prepare-IsRead flags w cfg h =
      let (read, q, r) = >>=-ok (load koanf decimal flags.config_path) _ w cfg h in
      let (_, valid, r') = >>=-ok (lift (manager.validate_struct read)) _ _ cfg r in
      let (_, sorted, r'') =
        >>=-ok (lift (no_error (validate floats read.image_last_monitor_age_minutes.legacy))) _ _
          cfg r' in
      let (_, _, s) = >>=-ok (new_watcher manager (cert_files flags.webhook_cert)) _ _ cfg r'' in
      let (_, _, s') = >>=-ok (new_watcher manager (cert_files flags.metrics_cert)) _ _ cfg s in
      let (_, _, last) = >>=-ok (manager.new_manager (manager_options flags)) _ _ cfg s' in
      subst (IsRead floats koanf decimal manager flags w) (ok-injective last)
        (q, valid, no_error-ok _ sorted)
