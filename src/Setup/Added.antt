-- ===== src/Setup/Added.antt =====
-- The components that the start-up registers, and what they are set up with.
use mathlib.Core.List.{append-nil}
use kube_image_keeper.Prelude.{
  ◌≡◌, refl, sym, ℕ, List, [], ◌∷◌, Option, none, some, Bool-cases, inl, inr, if◌then◌else◌,
}
use kube_image_keeper.Text.{Text, codes}
use kube_image_keeper.Errors.{Result, ok}
use kube_image_keeper.Effects.{Eff, lift, ◌>>=◌}
use kube_image_keeper.Effects.Laws.{>>=-ok, run_all-ok}
use kube_image_keeper.Webhook.Rewrite.{Routing}
use kube_image_keeper.Webhook.Defaulting.{Libraries}
use kube_image_keeper.Mirroring.Reconcile.{Settings as MirrorSettings}
use kube_image_keeper.Availability.Check.{Settings as MonitorSettings}
use kube_image_keeper.Histogram.{Floats}
use kube_image_keeper.Configuration.{Config}
use kube_image_keeper.Reporting.Collectors.{Collector, register_metrics}
use kube_image_keeper.Setup.{
  ImagePlatform, RangeOrders, setup_pod_webhook, setup_controller, setup_with_manager,
}
use kube_image_keeper.Setup.Loading.{Koanf}
use kube_image_keeper.Setup.Logged.{Adds, run_all-Adds, lift-Adds, flatten, Logs}
use kube_image_keeper.Setup.Startup.{
  Flags, Component, pod_webhook, mirror_controller, secret_owner, availability_controller, backfill,
  healthz, readyz, cert_watcher, metrics, Manager, cert_files, webhooks_enabled, add_webhook,
  add_mirror_controller, add_availability, add_watcher, add_metrics, add_components, lines,
}

-- The component for the two files of a watcher.
abbrev pub watcher_component : {F : Type 0} → Option (Text × Text) → List (Component F)
watcher_component none = []
watcher_component (some (cert, key)) = cert_watcher cert key ∷ []

-- The components for what was set up, by the line that adds them.
unfoldable pub components :
    {F : Type 0}
    → Flags
    → List (Component F)
    → MirrorSettings × List ImagePlatform
    → MonitorSettings
    → List (Collector F)
    → List (List (Component F))
components flags webhook (mirrors, platforms) monitoring collectors =
    webhook
    ∷ (mirror_controller (codes "kuik-clusterimagesetmirror") mirrors platforms ∷ [])
    ∷ (mirror_controller (codes "kuik-imagesetmirror") mirrors platforms ∷ [])
    ∷ (secret_owner (codes "ClusterImageSetMirror") ∷ [])
    ∷ (secret_owner (codes "ClusterReplicatedImageSet") ∷ [])
    ∷ (availability_controller monitoring ∷ [])
    ∷ (backfill ∷ [])
    ∷ watcher_component (cert_files flags.metrics_cert)
    ∷ watcher_component (cert_files flags.webhook_cert)
    ∷ (healthz ∷ [])
    ∷ (readyz ∷ [])
    ∷ (metrics collectors ∷ [])
    ∷ []

-- The component of the webhook, where it is enabled.
abbrev pub IsWebhook :
    {W F : Type 0} → Libraries → Manager W F → Config F → List (Component F) → Type 0
IsWebhook libs manager cfg webhook =
    if webhooks_enabled manager
    then ((routing : Routing) × (places : ℕ) × (setup_pod_webhook libs cfg ≡ ok (routing, places))
        × (webhook ≡ pod_webhook routing places ∷ []))
    else webhook ≡ []

-- Everything that is taken from the configuration has been set up, the webhook only where it is enabled.
pub record IsSetUp {W F : Type 0} (libs : Libraries) (floats : Floats F) (manager : Manager W F)
    (orders : RangeOrders) (cfg : Config F) : Type 0 where
  pub webhook : List (Component F)
  pub webhook_set_up : IsWebhook libs manager cfg webhook
  pub mirrors : MirrorSettings × List ImagePlatform
  pub mirrors_set_up : setup_controller libs cfg orders ≡ ok mirrors
  pub monitoring : MonitorSettings
  pub monitoring_set_up : setup_with_manager libs cfg orders ≡ ok monitoring
  pub collectors : List (Collector F)
  pub metrics_set_up : register_metrics floats cfg ≡ ok collectors

lift-ok :
    {W A : Type 0} (r : Result A) (f : A → Eff W (Unit {0})) (w : W)
    → ((lift r >>= f) w).0 ≡ ok tt
    → (a : A) × (r ≡ ok a)
lift-ok r f w h = let (a, q, rest) = >>=-ok (lift r) f w tt h in (a, q)

module _ {W F : Type 0} (libs : Libraries) (floats : Floats F) (manager : Manager W F)
    (orders : RangeOrders) (cfg : Config F) where
  add_webhook-IsWebhook :
      (w : W)
      → (add_webhook libs floats manager orders cfg w).0 ≡ ok tt
      → (webhook : List (Component F)) × IsWebhook libs manager cfg webhook
  unfolding add_webhook
  add_webhook-IsWebhook w = elim (Bool-cases (webhooks_enabled manager)) [
    | inl q ↦ rw q (λ h.
        let ((routing, places), r, rest) = >>=-ok (lift (setup_pod_webhook libs cfg)) _ w tt h in
        (pod_webhook routing places ∷ [], (routing, places, r, refl)))
    | inr q ↦ rw q (λ h. ([], refl))
  ]

  -- Where the components are added without an error, each has been set up.
  pub add_components-IsSetUp :
      (flags : Flags) (w : W)
      → (add_components libs floats manager orders cfg flags w).0 ≡ ok tt
      → IsSetUp libs floats manager orders cfg
  unfolding add_components add_mirror_controller add_availability add_metrics
  add_components-IsSetUp flags w h =
      let (hook, (mirror, (_, (_, (_, (monitor, (_, (_, (_, (_, (_, (counted, _)))))))))))) =
        run_all-ok (lines libs floats manager orders cfg flags) w h in
      let (webhook, webhook_set_up) = add_webhook-IsWebhook hook.0 hook.1 in
      let (mirrors, q) = lift-ok (setup_controller libs cfg orders) _ mirror.0 mirror.1 in
      let (monitoring, q') = lift-ok (setup_with_manager libs cfg orders) _ monitor.0 monitor.1 in
      let (collectors, q'') = lift-ok (register_metrics floats cfg) _ counted.0 counted.1 in
      record {
        webhook = webhook;
        webhook_set_up = webhook_set_up;
        mirrors = mirrors;
        mirrors_set_up = q;
        monitoring = monitoring;
        monitoring_set_up = q';
        collectors = collectors;
        metrics_set_up = q'';
      }

module _ {W F K : Type 0} (libs : Libraries) (floats : Floats F) (koanf : Koanf W F K)
    (manager : Manager W F) (orders : RangeOrders) (log : W → List (Component F))
    (logs : Logs koanf manager log) where
  add_watcher-Adds :
      (files : Option (Text × Text))
      → Adds log (add_watcher manager files) (watcher_component files)
  unfolding add_watcher
  add_watcher-Adds none w h = sym (append-nil (log w))
  add_watcher-Adds (some (cert, key)) w h = logs.adds (cert_watcher cert key) w h

  module _ (cfg : Config F) where
    add_webhook-Adds :
        (webhook : List (Component F))
        → IsWebhook libs manager cfg webhook
        → Adds log (add_webhook libs floats manager orders cfg) webhook
    unfolding add_webhook
    add_webhook-Adds webhook = elim (Bool-cases (webhooks_enabled manager)) [
      | inl q ↦ rw q (λ (routing, places, r, e). rw e (
          lift-Adds log (setup_pod_webhook libs cfg) (routing, places) _
            (pod_webhook routing places ∷ []) r (logs.adds (pod_webhook routing places))))
      | inr q ↦ rw q (λ e w h. rw e (sym (append-nil (log w))))
    ]

    add_mirror_controller-Adds :
        (name : Text) (mirrors : MirrorSettings × List ImagePlatform)
        → setup_controller libs cfg orders ≡ ok mirrors
        → Adds log
            (add_mirror_controller libs floats manager orders cfg name)
            (mirror_controller name mirrors.0 mirrors.1 ∷ [])
    unfolding add_mirror_controller
    add_mirror_controller-Adds name mirrors q =
        lift-Adds log (setup_controller libs cfg orders) mirrors _ _ q
          (logs.adds (mirror_controller name mirrors.0 mirrors.1))

    pub add_components-Adds :
        (flags : Flags) (s : IsSetUp libs floats manager orders cfg)
        → Adds log
            (add_components libs floats manager orders cfg flags)
            (flatten (components flags s.webhook s.mirrors s.monitoring s.collectors))
    unfolding add_components components add_availability add_metrics
    add_components-Adds flags s =
        run_all-Adds log (lines libs floats manager orders cfg flags)
          (components flags s.webhook s.mirrors s.monitoring s.collectors)
          (
            add_webhook-Adds s.webhook s.webhook_set_up,
            (
              add_mirror_controller-Adds _ s.mirrors s.mirrors_set_up,
              (
                add_mirror_controller-Adds _ s.mirrors s.mirrors_set_up,
                (
                  logs.adds _,
                  (
                    logs.adds _,
                    (
                      lift-Adds log (setup_with_manager libs cfg orders) s.monitoring _ _
                          s.monitoring_set_up (logs.adds (availability_controller s.monitoring)),
                      (
                        logs.adds backfill,
                        (
                          add_watcher-Adds (cert_files flags.metrics_cert),
                          (
                            add_watcher-Adds (cert_files flags.webhook_cert),
                            (
                              logs.adds healthz,
                              (
                                logs.adds readyz,
                                (
                                  lift-Adds log (register_metrics floats cfg) s.collectors _ _
                                      s.metrics_set_up (logs.adds (metrics s.collectors)),
                                  tt,
                                ),
                              ),
                            ),
                          ),
                        ),
                      ),
                    ),
                  ),
                ),
              ),
            ),
          )
