-- ===== src/Setup/Started.antt =====
-- What has been set up when the manager has been started.
use kube_image_keeper.Prelude.{
  ◌≡◌, refl, ap, subst, ◌∙◌, ℕ, true, false, List, [], ◌∷◌, ◌++◌, map, All,
}
use kube_image_keeper.Prelude.Int.{ℤ, pos, ltb_ℤ}
use kube_image_keeper.Errors.{ok, ok-injective, >>=-eq-ok}
use kube_image_keeper.Effects.Laws.{>>=-ok}
use kube_image_keeper.Text.{is_empty}
use kube_image_keeper.Mirroring.Reconcile.{Settings as MirrorSettings}
use kube_image_keeper.Pods.{Pod}
use kube_image_keeper.Webhook.Rewrite.{Cluster, Routing}
use kube_image_keeper.Webhook.Defaulting.{Libraries}
use kube_image_keeper.Histogram.{Floats, buckets, IsAscending, Yields, buckets-IsAscending}
use kube_image_keeper.Configuration.{Config, Platform, compile_global_pod_filter}
use kube_image_keeper.Setup.{ImagePlatform, RangeOrders, setup_platforms, setup_controller}
use kube_image_keeper.Setup.Excluded.{IsExcluded, LeavesAlone, setup-LeavesAlone}
use kube_image_keeper.Setup.Loading.{Koanf}
use kube_image_keeper.Setup.Logged.{flatten, Logs, prepare-Quiet}
use kube_image_keeper.Setup.Added.{IsSetUp, components, add_components-IsSetUp, add_components-Adds}
use kube_image_keeper.Setup.Read.{IsRead, prepare-IsRead}
use kube_image_keeper.Setup.Startup.{
  Flags, Component, pod_webhook, Manager, prepare, webhooks_enabled, add_components, main,
}

-- The tags `min=1,dive` and `required`: a platform at least, each with an architecture.
abbrev pub IsServable : {F : Type 0} → Config F → Type 0
IsServable cfg =
    (¬ (cfg.platforms ≡ [])) × All (λ (p : Platform). is_empty p.architecture ≡ false) cfg.platforms

abbrev pub HasPlatforms : List ImagePlatform → Type 0
HasPlatforms ps = (¬ (ps ≡ [])) × All (λ (p : ImagePlatform). is_empty p.architecture ≡ false) ps

abbrev image_platform : Platform → ImagePlatform
image_platform p = record { os = p.os; architecture = p.architecture; variant = p.variant }

copied_platforms :
    (ps : List Platform)
    → (¬ (ps ≡ [])) × All (λ (p : Platform). is_empty p.architecture ≡ false) ps
    → HasPlatforms (map image_platform ps)
copied_platforms [] h = absurd (h.0 refl)
copied_platforms (p ∷ ps) h = ((λ e. cc), (h.1.0, rest ps h.1.1))
  where
    rest :
        (qs : List Platform)
        → All (λ (q : Platform). is_empty q.architecture ≡ false) qs
        → All (λ (q : ImagePlatform). is_empty q.architecture ≡ false) (map image_platform qs)
    rest [] k = tt
    rest (q ∷ qs) k = (k.0, rest qs k.1)

module _ {W F K : Type 0} (libs : Libraries) (floats : Floats F) (koanf : Koanf W F K)
    (decimal : ℕ → ℕ → F) (manager : Manager W F) (orders : RangeOrders)
    (log : W → List (Component F)) where
  -- The manager runs what was set up from a configuration that is valid.
  pub record IsStarted (flags : Flags) (w : W) : Type 0 where
    pub cfg : Config F
    pub read : IsRead floats koanf decimal manager flags w cfg
    pub bounds :
        Yields floats
          (IsAscending floats)
          (buckets floats cfg.image_last_monitor_age_minutes.legacy)
    pub set_up : IsSetUp libs floats manager orders cfg
    pub platformed : HasPlatforms set_up.mirrors.1
    pub registered :
        log (main libs floats koanf decimal manager orders flags w).1
        ≡ log w
          ++ flatten
              (components flags set_up.webhook set_up.mirrors set_up.monitoring set_up.collectors)
    pub left_alone :
        (cluster : Cluster W) (pod : Pod)
        → webhooks_enabled manager ≡ true
        → IsExcluded libs.parse_selector cfg pod
        → (routing : Routing) × (places : ℕ) × (set_up.webhook ≡ pod_webhook routing places ∷ [])
          × LeavesAlone libs cfg orders cluster pod routing set_up.mirrors.0 set_up.monitoring

  setup_controller-HasPlatforms :
      (cfg : Config F) (mirrors : MirrorSettings) (platforms : List ImagePlatform)
      → setup_controller libs cfg orders ≡ ok (mirrors, platforms)
      → IsServable cfg
      → HasPlatforms platforms
  unfolding setup_controller setup_platforms
  setup_controller-HasPlatforms cfg mirrors platforms h v =
      let (f, q, last) = >>=-eq-ok (compile_global_pod_filter libs.parse_selector cfg) h in
      subst (λ (r : MirrorSettings × List ImagePlatform). HasPlatforms r.1) (ok-injective last)
        (copied_platforms cfg.platforms v)

  set_up-LeavesAlone :
      (cfg : Config F) (s : IsSetUp libs floats manager orders cfg) (cluster : Cluster W)
      (pod : Pod)
      → webhooks_enabled manager ≡ true
      → IsExcluded libs.parse_selector cfg pod
      → (routing : Routing) × (places : ℕ) × (s.webhook ≡ pod_webhook routing places ∷ [])
        × LeavesAlone libs cfg orders cluster pod routing s.mirrors.0 s.monitoring
  set_up-LeavesAlone cfg s cluster pod enabled x =
      let (routing, places, q, e) = rw enabled at s.webhook_set_up in
      (
        routing,
        places,
        e,
        setup-LeavesAlone libs cfg orders cluster pod routing places s.mirrors.0 s.mirrors.1
            s.monitoring q s.mirrors_set_up s.monitoring_set_up x,
      )

  module _ (logs : Logs koanf manager log) where
    main-registered :
        (flags : Flags) (w : W) (cfg : Config F) (s : IsSetUp libs floats manager orders cfg)
        → (prepare floats koanf decimal manager flags w).0 ≡ ok cfg
        → (let v = (prepare floats koanf decimal manager flags w).1 in
            (add_components libs floats manager orders cfg flags v).0 ≡ ok tt)
        → log (main libs floats koanf decimal manager orders flags w).1
          ≡ log w ++ flatten (components flags s.webhook s.mirrors s.monitoring s.collectors)
    unfolding main
    main-registered flags w cfg s p q =
        let v = (prepare floats koanf decimal manager flags w).1 in
        let v' = (add_components libs floats manager orders cfg flags v).1 in
        rw (p, q)
          (logs.start (log v') v' refl
            ∙ add_components-Adds libs floats koanf manager orders log logs cfg flags s v q
            ∙ ap
                (λ l. l ++ flatten (components flags s.webhook s.mirrors s.monitoring s.collectors))
                (prepare-Quiet floats koanf decimal manager log logs flags (log w) w refl))

    -- Where the library makes ascending buckets of valid arguments, the validation by tags asks for a platform
    -- and for the architecture of each, and main ends without an error: the configuration was read, it has
    -- passed both validations, and its buckets are ascending; everything that is taken from it was set up,
    -- with at least one platform, each with an architecture; the components of the program have been registered in order, each once,
    -- the webhook only where it is enabled and the watchers of certificates only where there are
    -- certificates; and with the webhook, a pod that a selector of the configuration selects is left alone.
    pub main-IsStarted :
        (makes_exponential : (start factor : F) (count : ℤ)
          → floats.at_most start floats.zero_float ≡ false
          → floats.at_most factor floats.one_float ≡ false
          → ltb_ℤ count (pos 1) ≡ false
          → Yields floats (IsAscending floats) (floats.exponential_buckets start factor count))
        (makes_range : (low high : F) (count : ℤ)
          → floats.at_most low floats.zero_float ≡ false
          → floats.at_most high low ≡ false
          → ltb_ℤ count (pos 1) ≡ false
          → Yields floats (IsAscending floats) (floats.exponential_buckets_range low high count))
        (validates : (cfg : Config F) → manager.validate_struct cfg ≡ ok tt → IsServable cfg)
        (flags : Flags) (w : W)
        → (main libs floats koanf decimal manager orders flags w).0 ≡ ok tt
        → IsStarted flags w
    unfolding main
    main-IsStarted makes_exponential makes_range validates flags w h =
        let (cfg, p, rest) = >>=-ok (prepare floats koanf decimal manager flags) _ w tt h in
        let v = (prepare floats koanf decimal manager flags w).1 in
        let (_, added, _) =
          >>=-ok (add_components libs floats manager orders cfg flags) _ v tt rest in
        let read = prepare-IsRead floats koanf decimal manager flags w cfg p in
        let s = add_components-IsSetUp libs floats manager orders cfg flags v added in
        record {
          cfg = cfg;
          read = read;
          bounds =
              buckets-IsAscending floats makes_exponential makes_range
                cfg.image_last_monitor_age_minutes.legacy read.2;
          set_up = s;
          platformed =
              setup_controller-HasPlatforms cfg s.mirrors.0 s.mirrors.1 s.mirrors_set_up
                (validates cfg read.1);
          registered = main-registered flags w cfg s p added;
          left_alone = set_up-LeavesAlone cfg s;
        }
