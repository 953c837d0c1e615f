-- ===== src/Setup/Excluded.antt =====
-- What the configuration excludes, every component leaves alone.
use kube_image_keeper.Prelude.{
  ◌≡◌, refl, sym, ap, ◌∙◌, ◌⊎◌, subst, inl, inr, ℕ, Bool, true, false, List, [], ◌∷◌, ◌++◌, Any,
  All, Bool-cases, is_some, delete_func-dropped, arith,
}
use kube_image_keeper.Text.{Text}
use kube_image_keeper.Errors.{Result, ok, err, >>=-eq-ok, ok-injective}
use kube_image_keeper.Pods.{StringMap, lookup, Pod}
use kube_image_keeper.Filters.{Selector, PodFilter, compile_pod_filter, match_pod}
use kube_image_keeper.Filters.Laws.{Accepts, Rejects, match_pod-compile_pod_filter}
use kube_image_keeper.Webhook.Admission.{mirror_pod_annotation}
use kube_image_keeper.Webhook.Rewrite.{Cluster, Routing}
use kube_image_keeper.Webhook.Defaulting.{Libraries, default_pod}
use kube_image_keeper.Mirroring.Images.{MirrorObject}
use kube_image_keeper.Mirroring.Reconcile.{
  Settings as MirrorSettings, selected_pods, enqueue_for_pod,
}
use kube_image_keeper.Availability.Monitored.{ClusterImageSetAvailability}
use kube_image_keeper.Availability.Check.{Settings as MonitorSettings}
use kube_image_keeper.Availability.Mapper.{map_pod}
use kube_image_keeper.Configuration.{Config, compile_global_pod_filter}
use kube_image_keeper.Setup.{
  ImagePlatform, RangeOrders, wrapped, make_semaphore, setup_pod_webhook, setup_controller,
  setup_with_manager,
}

-- One of the selectors of the configuration selects the labels or the annotations of the pod.
abbrev pub IsExcluded : {F : Type 0} → (Text → Result Selector) → Config F → Pod → Type 0
IsExcluded parse cfg pod =
    Any (Accepts parse pod.labels) cfg.skip_labels
    ⊎ Any (Accepts parse pod.annotations) cfg.skip_annotations

not_rejected :
    (parse : Text → Result Selector) (set : StringMap Text) (ps : List Text)
    → Any (Accepts parse set) ps
    → ¬ All (Rejects parse set) ps
not_rejected parse set [] h k = absurd h
not_rejected parse set (p ∷ ps) (inl (r, e, t)) ((q, e', f), k) =
    let same : r ≡ q = ok-injective (sym e ∙ e') in
    let clash : true ≡ false = sym t ∙ ap (λ x. x set) same ∙ f in cc
not_rejected parse set (p ∷ ps) (inr h) (k, ks) = not_rejected parse set ps h ks

-- The filter that the configuration compiles to does not match the pod.
unmatched :
    {F : Type 0} (parse : Text → Result Selector) (cfg : Config F) (f : PodFilter) (pod : Pod)
    → compile_pod_filter parse [] cfg.skip_labels [] cfg.skip_annotations ≡ ok f
    → IsExcluded parse cfg pod
    → match_pod f pod ≡ false
unmatched parse cfg f pod h x = elim (Bool-cases (match_pod f pod)) [
  | inr q ↦ q
  | inl q ↦
      let (labels, annotations) =
        (match_pod-compile_pod_filter parse [] cfg.skip_labels [] cfg.skip_annotations f pod h).0
          q in
      elim x [
        | inl l ↦ absurd (not_rejected parse pod.labels cfg.skip_labels l labels.1)
        | inr a ↦ absurd (not_rejected parse pod.annotations cfg.skip_annotations a annotations.1)
      ]
]

wrapped-ok : {A : Type 0} (t : Text) (r : Result A) (a : A) → wrapped t r ≡ ok a → r ≡ ok a
unfolding wrapped
wrapped-ok t (ok b) a h = h
wrapped-ok t (err e) a h = cc

-- The reconcilers with this filter do not look at the pod.
abbrev pub IsUnseen : PodFilter → Pod → Type 0
IsUnseen f pod =
    (matcher : Pod → Bool) (before after : List Pod)
    → selected_pods f matcher (before ++ pod ∷ after) ≡ selected_pods f matcher (before ++ after)

unmatched-IsUnseen : (f : PodFilter) (pod : Pod) → match_pod f pod ≡ false → IsUnseen f pod
unfolding selected_pods
unmatched-IsUnseen f pod h matcher before after =
    delete_func-dropped _ before after pod (ground (arith, h))

module _ {F W : Type 0} (libs : Libraries) (cfg : Config F) (orders : RangeOrders)
    (cluster : Cluster W) (pod : Pod) where
  -- The pod is admitted as it is, wakes no reconciler, and is not looked at by any.
  pub record LeavesAlone (routing : Routing) (mirrors : MirrorSettings)
      (monitoring : MonitorSettings) : Type 0 where
    pub admitted :
        (dry_run : Bool) (w : W) → default_pod libs cluster routing pod dry_run w ≡ (ok pod, w)
    pub no_mirroring : (objs : Result (List MirrorObject)) → enqueue_for_pod mirrors pod objs ≡ []
    pub no_monitoring :
        (cisas : Result (List ClusterImageSetAvailability)) → map_pod monitoring pod cisas ≡ []
    pub not_mirrored : IsUnseen mirrors.global_pod_filter pod
    pub not_monitored : IsUnseen monitoring.global_pod_filter pod

  unmatched-admitted :
      (routing : Routing) (dry_run : Bool) (w : W)
      → match_pod routing.global_pod_filter pod ≡ false
      → default_pod libs cluster routing pod dry_run w ≡ (ok pod, w)
  unfolding default_pod
  unmatched-admitted routing dry_run w h =
      elim (Bool-cases (is_some (lookup mirror_pod_annotation pod.annotations))) [
        | inl q ↦ rw q refl
        | inr q ↦ rw (q, h) refl
      ]

  unmatched-enqueue :
      (mirrors : MirrorSettings) (objs : Result (List MirrorObject))
      → match_pod mirrors.global_pod_filter pod ≡ false
      → enqueue_for_pod mirrors pod objs ≡ []
  unfolding enqueue_for_pod
  unmatched-enqueue mirrors (ok objs) h = rw h refl
  unmatched-enqueue mirrors (err e) h = refl

  unmatched-map :
      (monitoring : MonitorSettings) (cisas : Result (List ClusterImageSetAvailability))
      → match_pod monitoring.global_pod_filter pod ≡ false
      → map_pod monitoring pod cisas ≡ []
  unfolding map_pod
  unmatched-map monitoring (ok cisas) h = rw h refl
  unmatched-map monitoring (err e) h = refl

  setup_pod_webhook-unmatched :
      (routing : Routing) (places : ℕ)
      → setup_pod_webhook libs cfg ≡ ok (routing, places)
      → IsExcluded libs.parse_selector cfg pod
      → match_pod routing.global_pod_filter pod ≡ false
  unfolding setup_pod_webhook
  setup_pod_webhook-unmatched routing places h x =
      let (f, compiled, rest) = >>=-eq-ok (wrapped _ _) h in
      let (n, made, last) =
        >>=-eq-ok (make_semaphore cfg.routing.active_check.stale_mirror_cleanup.max_concurrent)
          rest in
      subst (λ (r : Routing × ℕ). match_pod r.0.global_pod_filter pod ≡ false) (ok-injective last)
        (unmatched libs.parse_selector cfg f pod (wrapped-ok _ _ f compiled) x)

  setup_controller-unmatched :
      (mirrors : MirrorSettings) (platforms : List ImagePlatform)
      → setup_controller libs cfg orders ≡ ok (mirrors, platforms)
      → IsExcluded libs.parse_selector cfg pod
      → match_pod mirrors.global_pod_filter pod ≡ false
  unfolding setup_controller compile_global_pod_filter
  setup_controller-unmatched mirrors platforms h x =
      let (f, compiled, last) = >>=-eq-ok (compile_global_pod_filter libs.parse_selector cfg) h in
      subst
        (λ (r : MirrorSettings × List ImagePlatform). match_pod r.0.global_pod_filter pod ≡ false)
        (ok-injective last) (unmatched libs.parse_selector cfg f pod compiled x)

  setup_with_manager-unmatched :
      (monitoring : MonitorSettings)
      → setup_with_manager libs cfg orders ≡ ok monitoring
      → IsExcluded libs.parse_selector cfg pod
      → match_pod monitoring.global_pod_filter pod ≡ false
  unfolding setup_with_manager compile_global_pod_filter
  setup_with_manager-unmatched monitoring h x =
      let (f, compiled, last) = >>=-eq-ok (compile_global_pod_filter libs.parse_selector cfg) h in
      subst (λ (r : MonitorSettings). match_pod r.global_pod_filter pod ≡ false) (ok-injective last)
        (unmatched libs.parse_selector cfg f pod compiled x)

  -- Where the webhook, the reconcilers of mirrors and the monitoring are set up from one configuration, a
  -- pod whose labels or annotations one of its selectors selects is left alone by all of them.
  pub setup-LeavesAlone :
      (routing : Routing) (places : ℕ) (mirrors : MirrorSettings) (platforms : List ImagePlatform)
      (monitoring : MonitorSettings)
      → setup_pod_webhook libs cfg ≡ ok (routing, places)
      → setup_controller libs cfg orders ≡ ok (mirrors, platforms)
      → setup_with_manager libs cfg orders ≡ ok monitoring
      → IsExcluded libs.parse_selector cfg pod
      → LeavesAlone routing mirrors monitoring
  setup-LeavesAlone routing places mirrors platforms monitoring h k l x =
      let q = setup_pod_webhook-unmatched routing places h x in
      let q' = setup_controller-unmatched mirrors platforms k x in
      let q'' = setup_with_manager-unmatched monitoring l x in
      record {
        admitted = λ dry_run w. unmatched-admitted routing dry_run w q;
        no_mirroring = λ objs. unmatched-enqueue mirrors objs q';
        no_monitoring = λ cisas. unmatched-map monitoring cisas q'';
        not_mirrored = unmatched-IsUnseen mirrors.global_pod_filter pod q';
        not_monitored = unmatched-IsUnseen monitoring.global_pod_filter pod q'';
      }
