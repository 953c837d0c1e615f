-- ===== src/Setup.antt =====
-- What the components take from the configuration when they are set up: SetupPodWebhookWithManager in
-- pod_webhook.go, setupController in mirror_reconciler.go and SetupWithManager in
-- clusterimagesetavailability_controller.go. The caches and the registration are left to the libraries.
pub mod Excluded
pub mod Loading
pub mod Startup
pub mod Logged
pub mod Read
pub mod Added
pub mod Started
use kube_image_keeper.Prelude.{ℕ, Bool, List, [], map, if◌then◌else◌}
use kube_image_keeper.Prelude.Int.{ℤ, pos, ltb_ℤ, pos_part}
use kube_image_keeper.Text.{Text, codes}
use kube_image_keeper.Errors.{Result, ok, err, message, wrap, ◌>>=◌}
use kube_image_keeper.Pods.{StringMap}
use kube_image_keeper.Filters.{Regexp, Selector, compile_pod_filter}
use kube_image_keeper.References.{Named}
use kube_image_keeper.Resources.{MatchingImage}
use kube_image_keeper.Webhook.Admission.{Json}
use kube_image_keeper.Webhook.Rewrite.{Routing}
use kube_image_keeper.Webhook.Defaulting.{Libraries}
use kube_image_keeper.Mirroring.Reconcile.{Settings as MirrorSettings}
use kube_image_keeper.Availability.Candidates.{MonitoringCandidate}
use kube_image_keeper.Availability.Check.{Settings as MonitorSettings}
use kube_image_keeper.Configuration.{Config, Platform, compile_global_pod_filter}

-- v1.Platform, as far as the configuration sets it
pub record ImagePlatform : Type 0 where
  pub architecture : Text
  pub os : Text
  pub variant : Text

-- The orders in which Go iterates the maps of the reconcilers.
pub record RangeOrders : Type 0 where
  pub range_order : List MatchingImage → List MatchingImage
  pub range_images : List (Text × Bool) → List (Text × Bool)
  pub range_candidates : StringMap MonitoringCandidate → StringMap MonitoringCandidate

-- fmt.Errorf around the error of a result
wrapped : {A : Type 0} → Text → Result A → Result A
wrapped t (ok a) = ok a
wrapped t (err e) = err (wrap t e)

-- make(chan struct{}, n), by its capacity
unfoldable pub make_semaphore : ℤ → Result ℕ
make_semaphore n =
    if ltb_ℤ n (pos 0)
    then err (message (codes "panic: makechan: size out of range"))
    else ok (pos_part n)

module _ {F : Type 0} (libs : Libraries) (cfg : Config F) where
  -- SetupPodWebhookWithManager: what the webhook routes by, and the places of its semaphore
  unfoldable pub setup_pod_webhook : Result (Routing × ℕ)
  unfolding wrapped make_semaphore compile_pod_filter
  setup_pod_webhook = do
    f ←
        wrapped (codes "invalid global skip (skipLabels / skipAnnotations)")
          (compile_pod_filter libs.parse_selector [] cfg.skip_labels [] cfg.skip_annotations)
    places ← make_semaphore cfg.routing.active_check.stale_mirror_cleanup.max_concurrent
    ok (
      record {
        global_pod_filter = f;
        rewrite_on_never_image_pull_policy = cfg.routing.rewrite_on_never_image_pull_policy;
        honor_priorities_on_always_image_pull_policy =
            cfg.routing.honor_priorities_on_always_image_pull_policy;
      },
      places,
    )

  -- setupPlatforms
  unfoldable pub setup_platforms : List ImagePlatform
  setup_platforms =
      map
        (λ (p : Platform). record { os = p.os; architecture = p.architecture; variant = p.variant })
        cfg.platforms

  -- setupController, of either kind of mirror objects
  unfoldable pub setup_controller : RangeOrders → Result (MirrorSettings × List ImagePlatform)
  unfolding compile_global_pod_filter setup_platforms
  setup_controller orders = do
    f ← compile_global_pod_filter libs.parse_selector cfg
    ok (
      record {
        parse_normalized = libs.parse_normalized;
        compile = libs.compile;
        parse_selector = libs.parse_selector;
        json = libs.json;
        range_order = orders.range_order;
        global_pod_filter = f;
      },
      setup_platforms,
    )

  -- SetupWithManager of the monitoring
  unfoldable pub setup_with_manager : RangeOrders → Result MonitorSettings
  unfolding compile_global_pod_filter
  setup_with_manager orders = do
    f ← compile_global_pod_filter libs.parse_selector cfg
    ok (record {
      parse_normalized = libs.parse_normalized;
      compile = libs.compile;
      parse_selector = libs.parse_selector;
      json = libs.json;
      range_images = orders.range_images;
      range_candidates = orders.range_candidates;
      global_pod_filter = f;
      registries = cfg.registries;
    })
