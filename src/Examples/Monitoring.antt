-- ===== src/Examples/Monitoring.antt =====
-- The theorems on mirrors, registries and monitoring at concrete inputs.
use kube_image_keeper.Prelude.{
  ◌⊎◌, ◌≡◌, refl, ◌+◌, ℕ, Bool, true, false, leb, List, [], ◌∷◌, Option, none, some, All,
  contains_func, keep, inl, arith,
}
use kube_image_keeper.Prelude.Int.{pos}
use kube_image_keeper.Text.{Text, codes, text_eq}
use kube_image_keeper.Errors.{Error, Result, transport, ok, err}
use kube_image_keeper.Effects.{pure}
use kube_image_keeper.Pods.{lookup}
use kube_image_keeper.Filters.{compile_include_exclude_filter}
use kube_image_keeper.Mirroring.Images.{MirrorObject, namespaced}
use kube_image_keeper.Mirroring.Names.{pods_by_normalized_matching_images}
use kube_image_keeper.Mirroring.Wanted.{IsWanted, pods_by_normalized_matching_images-IsWanted}
use kube_image_keeper.Mirroring.Reconcile.{
  Settings as MirrorSettings, image_set_mirror_finalizer, reconcile_deleted, apply_status,
}
use kube_image_keeper.Mirroring.Loops.{delete_all}
use kube_image_keeper.Mirroring.Deletion.{AllGone, reconcile_deleted-AllGone}
use kube_image_keeper.Mirroring.Outcome.{IsSettled, apply_status-IsSettled}
use kube_image_keeper.Registry.Client.{head, Remote, Reference, get_keychains, execute}
use kube_image_keeper.Registry.Probe.{unavailable_secret}
use kube_image_keeper.Registry.Platforms.{Source, index, copied}
use kube_image_keeper.Registry.Attempts.{Reflects, execute-Reflects}
use kube_image_keeper.Registry.Served.{is_ok, serves, is_served, copied-is_ok}
use kube_image_keeper.Availability.Monitored.{
  MonitoredImage, RegistryMonitoring, registry_config, quotient,
}
use kube_image_keeper.Availability.Sync.{sync_image_list}
use kube_image_keeper.Availability.Distinct.{IsDistinct, sync_image_list-IsDistinct}
use kube_image_keeper.Availability.Candidates.{
  MonitoringCandidate, consider_images, monitoring_candidates_by_registry,
}
use kube_image_keeper.Availability.Check.{
  Monitor, Settings, write_monitored_image, perform_check, check_next_for_registry,
}
use kube_image_keeper.Availability.Fairness.{monitored_images}
use kube_image_keeper.Availability.Rounds.{
  is_of, checked, done, next, stale_count, stale_count-Checks,
}
use kube_image_keeper.Availability.Pacing.{IsWaiting, check_next_for_registry-IsWaiting}
use kube_image_keeper.Availability.Outcomes.{IsCheckOf, perform_check-IsCheckOf}
use kube_image_keeper.Examples.Inputs.{
  exact, has_key, as_named, web_image, metadata, mirror_set, web_pod, used_image,
}
use kube_image_keeper.Examples.Servers.{kube, monitored, availability, everything, remote}
use kube_image_keeper.Examples.Annotations.{json}

pods_by_normalized_matching_images-IsWanted_example :
    All (IsWanted as_named everything ((codes "n", codes "r/p" ∷ []) ∷ [])) (
      pods_by_normalized_matching_images as_named everything
        ((codes "n", codes "r/p" ∷ []) ∷ [])
        (web_pod ∷ [])
        [])
pods_by_normalized_matching_images-IsWanted_example =
    pods_by_normalized_matching_images-IsWanted as_named everything
      ((codes "n", codes "r/p" ∷ []) ∷ []) (web_pod ∷ [])

sync_image_list-IsDistinct_example :
    IsDistinct
      (sync_image_list (λ m. m) 9 (pos 0) everything ((codes "d/db", true) ∷ []) (monitored ∷ [])).0
sync_image_list-IsDistinct_example =
    sync_image_list-IsDistinct (λ m. m) 9 (pos 0) everything ((codes "d/db", true) ∷ [])
      (monitored ∷ []) (refl, tt) (refl, tt)

-- A request that fails.
abbrev denied : Reference → Bool → ℕ → Result (Unit {0}) × ℕ
denied r k w = (err (transport 401 (codes "denied")), w + 1)

execute-Reflects_example :
    Reflects
      (denied (record { repository = web_image; full_name = web_image; is_digest = false }))
      (true ∷ [])
      0
      (execute remote web_image [] denied 0).0
unfolding get_keychains
execute-Reflects_example =
    execute-Reflects remote denied web_image [] 0 []
      (record { repository = web_image; full_name = web_image; is_digest = false }) refl refl

abbrev two_manifests : List (Option ℕ × ℕ)
two_manifests = (some 1, 10) ∷ (none, 11) ∷ (some 2, 12) ∷ []

abbrev same : ℕ → ℕ → Bool
same a b = leb a b

copied-is_ok_example :
    (is_ok (copied same (λ p. []) (1 ∷ []) (index two_manifests))
      ≡ contains_func (1 ∷ []) (λ p. contains_func two_manifests (serves same (λ q. []) p)))
    × ((w : Source ℕ ℕ)
        → copied same (λ p. []) (1 ∷ []) (index two_manifests) ≡ ok w
        → w ≡ index (keep (is_served same (λ p. []) (1 ∷ [])) two_manifests))
copied-is_ok_example = copied-is_ok same (λ p. []) (1 ∷ []) two_manifests

abbrev pub mirror_settings : MirrorSettings
mirror_settings = record {
  parse_normalized = as_named;
  compile = exact;
  parse_selector = has_key;
  json = json;
  range_order = λ m. m;
  global_pod_filter = record {
    include_labels = [];
    exclude_labels = [];
    include_annotations = [];
    exclude_annotations = [];
  };
}

apply_status-IsSettled_example :
    IsSettled mirror_settings kube (namespaced mirror_set) (used_image ∷ []) [] 3
unfolding apply_status
apply_status-IsSettled_example =
    apply_status-IsSettled mirror_settings kube (namespaced mirror_set) (used_image ∷ []) [] 3
      (record { requeue_after = pos 0 }) refl

-- A mirror set that is being deleted, with one mirror that is written and one that is not.
abbrev deleted_set : MirrorObject
deleted_set = namespaced (record mirror_set {
  meta = record metadata {
    deletion_timestamp = some 7;
    finalizers = image_set_mirror_finalizer ∷ [];
  };
  matching_images = used_image ∷ [];
})

reconcile_deleted-AllGone_example :
    AllGone kube
      (codes "n")
      mirror_set.base.mirrors
      (used_image ∷ [])
      3
      (delete_all kube (codes "n") mirror_set.base.mirrors (used_image ∷ []) 3).1
    ⊎ ((e : Error) × (reconcile_deleted mirror_settings kube deleted_set 3
          ≡ (err e, (delete_all kube (codes "n") mirror_set.base.mirrors (used_image ∷ []) 3).1)))
unfolding text_eq
reconcile_deleted-AllGone_example =
    reconcile_deleted-AllGone mirror_settings kube deleted_set 3 refl

abbrev pace : RegistryMonitoring
pace = record {
  method = head;
  interval = pos 100;
  max_per_interval = pos 2;
  resolve_digest = none;
  fallback_credential_secret = none;
}

abbrev pub settings : Settings
settings = record {
  parse_normalized = as_named;
  compile = exact;
  parse_selector = has_key;
  json = json;
  range_images = λ m. m;
  range_candidates = λ m. m;
  global_pod_filter = mirror_settings.global_pod_filter;
  registries = record { default = pace; items = [] };
}

-- A clock that the world shows, and one object.
abbrev pub monitor : Monitor ℕ
monitor = record {
  get_secret = λ ns n. pure (record { name = n; namespace = ns; contents = [] });
  now = λ w. (w, w + 1);
  get_object = pure availability;
  list_objects = pure (availability ∷ []);
  list_pods = pure [];
  patch_status = λ a b. pure tt;
}

abbrev candidate : MonitoringCandidate
candidate = record {
  image_name = web_image;
  cisa = 0;
  registry_last_monitor = 3;
  last_monitor = some 3;
}

check_next_for_registry-IsWaiting_example :
    IsWaiting settings remote monitor
      (availability ∷ [])
      (check_next_for_registry settings remote monitor []
        (availability ∷ [])
        (codes "d")
        candidate
        9)
      9
unfolding monitoring_candidates_by_registry exact has_key as_named monitored_images registry_config
    quotient lookup compile_include_exclude_filter
check_next_for_registry-IsWaiting_example =
    check_next_for_registry-IsWaiting settings remote monitor [] (availability ∷ []) (codes "d")
      candidate monitored 3 9 50 refl (inl refl, refl) refl (omega arith) (omega arith)
      (omega arith)

stale_count-Checks_example :
    stale_count as_named (codes "d") 5 (
      write_monitored_image web_image (record monitored { last_monitor = some 9 }) (monitored ∷ []))
    ≡ 0
unfolding consider_images as_named is_of
stale_count-Checks_example =
    stale_count-Checks as_named (codes "d") 5
      (next
        (checked candidate (record monitored { last_monitor = some 9 }) 9 (refl, tt) refl refl
          (omega arith))
        done)
      (omega arith)

abbrev unreadable : MonitoredImage
unreadable = record monitored { status = unavailable_secret; last_error = codes "old" }

-- A registry that rejects every keychain.
abbrev closed : Remote ℕ Bool Text
closed = record remote { remote_head = λ r k w. (err (transport 401 (codes "denied")), w) }

perform_check-IsCheckOf_example :
    IsCheckOf unreadable 3 (perform_check settings closed monitor pace [] unreadable 3).0
perform_check-IsCheckOf_example =
    perform_check-IsCheckOf settings closed monitor pace [] unreadable 3
