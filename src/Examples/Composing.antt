-- ===== src/Examples/Composing.antt =====
-- The theorems on components that work together at concrete inputs.
use kube_image_keeper.Prelude.{
  ◌≡◌, refl, inl, inr, ◌+◌, ◌<◌, ◌≤◌, ℕ, zero, suc, false, List, [], ◌∷◌, none, some, keep, Any,
  Bool-cases, ltb, arith,
}
use kube_image_keeper.Prelude.Int.{pos}
use kube_image_keeper.Text.{codes}
use kube_image_keeper.Errors.{ok}
use kube_image_keeper.Resources.{MatchingImage}
use kube_image_keeper.Filters.{compile_pod_filter, compile_include_exclude_filter}
use kube_image_keeper.Availability.Check.{Settings}
use kube_image_keeper.Webhook.Rewrite.{Routing, CachedAlternativeImage}
use kube_image_keeper.Webhook.Defaulting.{search_best}
use kube_image_keeper.Webhook.Routed.{IsRouted, search_best-IsRouted}
use kube_image_keeper.Mirroring.Images.{namespaced, Kube}
use kube_image_keeper.Mirroring.Loops.{Progress, clean_images}
use kube_image_keeper.Mirroring.Waiting.{has_reason, AllDue, active, clean_images-early}
use kube_image_keeper.Mirroring.Outcome.{IsSettled}
use kube_image_keeper.Mirroring.Success.{apply_status-Works}
use kube_image_keeper.Mirroring.Working.{Works}
use kube_image_keeper.Mirroring.Reconcile.{Settings as MirrorSettings, Outcome, apply_status}
use kube_image_keeper.Configuration.{Config, default_config}
use kube_image_keeper.Setup.{
  ImagePlatform, RangeOrders, setup_pod_webhook, setup_controller, setup_with_manager,
}
use kube_image_keeper.Setup.Excluded.{LeavesAlone, setup-LeavesAlone}
use kube_image_keeper.Examples.Inputs.{
  value, exact, has_key, as_named, mirror, mirror_set, web_pod, container, used_image,
}
use kube_image_keeper.Examples.Servers.{kube}
use kube_image_keeper.Examples.Admitting.{libraries, cluster, routing, down_to, fails_for}
use kube_image_keeper.Examples.Monitoring.{mirror_settings, settings}

-- The clean-up: a clock that stands still, and a world that counts the deletions.
abbrev counting : Kube ℕ (Unit {0})
counting = record kube { now = λ w. (7, w); delete_image = λ s i w. (ok tt, w + 1) }

abbrev none_yet : Progress
none_yet = record { requeue_after = pos 0; some_deletion_failed = false }

abbrev idle_image : MatchingImage
idle_image = record used_image { unused_since = some 5 }

is_early : (t : ℕ) → some 5 ≡ some t → (w : ℕ) → w ≡ 0 → (t ≤ 7) × (7 < t + 10)
is_early t h w i = let q : 5 ≡ t = cc in (omega (arith, q), omega (arith, q))

clean_images-early_example :
    (let out = clean_images counting [] (mirror ∷ []) (active 10) none_yet (idle_image ∷ []) 0 in
      (out.0.0 ≡ keep has_reason (idle_image ∷ []))
      × (out.1 ≡ 0)
      × (out.0.1.some_deletion_failed ≡ false)
      × AllDue 7 10 (idle_image ∷ []) out.0.1.requeue_after)
clean_images-early_example =
    clean_images-early counting [] (mirror ∷ []) (λ w. w ≡ 0) 7 10 (λ w i. i) (λ w i. omega arith)
      (omega arith) (idle_image ∷ []) 0 (is_early, tt) refl

-- Every call of the cluster of the examples succeeds.
works : Works kube
works = record {
  get_secret = λ ns n w. (record { name = n; namespace = ns; contents = [] }, refl);
  get_descriptor = λ s i w. (tt, refl);
  copy_image = λ d s i w. (tt, refl);
  delete_image = λ s i w. (tt, refl);
  patch_status = λ a b w. (tt, refl);
}

apply_status-Works_example :
    (o : Outcome) × ((apply_status mirror_settings kube
        (namespaced mirror_set)
        (used_image ∷ [], [])
        3).0
      ≡ ok o)
    × IsSettled mirror_settings kube (namespaced mirror_set) (used_image ∷ []) [] 3
apply_status-Works_example =
    apply_status-Works mirror_settings kube (namespaced mirror_set) (used_image ∷ []) [] 3 works

-- The search for an image of a container.
all_end : (n : ℕ) → ℕ → (j : ℕ) → j < n → Any (λ i. i ≡ j) (down_to n)
all_end zero w j h = absurd (omega (arith, h))
all_end (suc n) w j h = elim (Bool-cases (ltb j n)) [
  | inl q ↦ inr (all_end n w j (ground (arith, q)))
  | inr q ↦ inl (ground (arith, q, h))
]

unfoldable best : CachedAlternativeImage
unfolding search_best exact has_key as_named compile_include_exclude_filter fails_for
best =
    value (search_best libraries cluster routing (mirror_set ∷ []) [] container [] 0).0
      (record { alternative_image = none; alternatives_count = 0 })

search_best-IsRouted_example :
    IsRouted libraries cluster routing (mirror_set ∷ []) [] container [] 0 best
unfolding search_best exact has_key as_named compile_include_exclude_filter fails_for best
search_best-IsRouted_example =
    search_best-IsRouted libraries cluster routing (mirror_set ∷ []) [] container [] 0 best refl
      refl all_end refl

-- A configuration that skips the pods with the label of the pod of the examples.
abbrev skipping : Config ℕ
skipping = record (default_config (λ m e. m)) { skip_labels = codes "app" ∷ [] }

abbrev pub orders : RangeOrders
orders = record { range_order = λ m. m; range_images = λ m. m; range_candidates = λ m. m }

unfoldable skipping_webhook : Routing × ℕ
unfolding setup_pod_webhook default_config has_key compile_pod_filter
skipping_webhook = value (setup_pod_webhook libraries skipping) (routing, 0)

unfoldable skipping_mirrors : MirrorSettings × List ImagePlatform
unfolding setup_controller default_config has_key compile_pod_filter
skipping_mirrors = value (setup_controller libraries skipping orders) (mirror_settings, [])

unfoldable skipping_monitor : Settings
unfolding setup_with_manager default_config has_key compile_pod_filter
skipping_monitor = value (setup_with_manager libraries skipping orders) settings

setup-LeavesAlone_example :
    LeavesAlone libraries skipping orders cluster web_pod skipping_webhook.0 skipping_mirrors.0
      skipping_monitor
unfolding setup_pod_webhook setup_controller setup_with_manager default_config has_key
    compile_pod_filter skipping_webhook skipping_mirrors skipping_monitor
setup-LeavesAlone_example =
    setup-LeavesAlone libraries skipping orders cluster web_pod skipping_webhook.0
      skipping_webhook.1 skipping_mirrors.0 skipping_mirrors.1 skipping_monitor refl refl refl
      (inl (inl (value (has_key (codes "app")) (λ m. false), refl, refl)))
