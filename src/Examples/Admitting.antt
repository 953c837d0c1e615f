-- ===== src/Examples/Admitting.antt =====
-- The theorems on the admission of pods at concrete inputs.
use kube_image_keeper.Prelude.{
  ◌≡◌, refl, ◌+◌, ◌≤◌, ℕ, zero, suc, true, false, List, [], ◌∷◌, ◌++◌, map, Option, none, some,
  length, if◌then◌else◌, arith,
}
use kube_image_keeper.Text.{Text, codes, text_eq}
use kube_image_keeper.Errors.{Error, message, ok}
use kube_image_keeper.Effects.{pure}
use kube_image_keeper.Pods.{Pod}
use kube_image_keeper.Filters.{compile_pod_filter, compile_include_exclude_filter}
use kube_image_keeper.Resources.{ImageSetMirror}
use kube_image_keeper.Webhook.Alternatives.{mirror_owner, AlternativeImage}
use kube_image_keeper.Webhook.Rewrite.{Cluster, Routing, make_secret_name}
use kube_image_keeper.Webhook.Defaulting.{Libraries, default_pod}
use kube_image_keeper.Webhook.SecretNames.{make_secret_name-length}
use kube_image_keeper.Webhook.Confined.{IsConfined, default_pod-IsConfined, default_pod-again}
use kube_image_keeper.Webhook.Preserved.{ReadsKeep}
use kube_image_keeper.Webhook.DryRun.{default_pod-dry_run}
use kube_image_keeper.Webhook.StaleStatus.{
  try_cleanup_stale_mirror_status, requested, GroupVersionKind, MirrorPatch, StatusWriter,
  clear_stale_mirror_status,
}
use kube_image_keeper.Webhook.Clearing.{
  idle, after, IsBounded, Reachable-IsBounded, untimed, written_times, status_writes,
  log-clear_stale_mirror_status,
}
use kube_image_keeper.Examples.Inputs.{
  value, exact, has_key, as_named, web_image, mirror_set, web_pod, used_image,
}
use kube_image_keeper.Examples.Annotations.{json, unmarshal-marshal}

abbrev hash : Text → Text
hash t = codes "0123456789abcdef"

make_secret_name-length_example :
    (length (make_secret_name hash (codes "kuik") (codes "s") (codes "n/u")) ≤ 253)
    × (length (codes "kuik") + length (codes "s") ≤ 235
        → make_secret_name hash (codes "kuik") (codes "s") (codes "n/u")
          ≡ codes "kuik" ++ b'-' ∷ (codes "s" ++ b'-' ∷ hash (codes "n/u")))
make_secret_name-length_example =
    make_secret_name-length hash (codes "kuik") (codes "s") (codes "n/u") refl (omega arith)

abbrev pub libraries : Libraries
libraries = record {
  parse_normalized = as_named;
  compile = exact;
  parse_selector = has_key;
  json = json;
  hash = hash;
}

unfoldable pub fails_for : Text → AlternativeImage → Option Error
unfolding text_eq
fails_for reference i = if text_eq i.reference reference then some (message []) else none

-- The tasks, the last one first.
abbrev pub down_to : ℕ → List ℕ
down_to zero = []
down_to (suc n) = n ∷ down_to n

-- A cluster that counts the writes of secrets and has one mirror set.
abbrev pub cluster : Cluster ℕ
cluster = record {
  list_cluster_image_set_mirrors = pure [];
  list_image_set_mirrors = λ ns. pure (mirror_set ∷ []);
  list_cluster_replicated_image_sets = pure [];
  list_replicated_image_sets = λ ns. pure [];
  get_secret = λ ns n. pure (record { name = n; namespace = ns; contents = [] });
  create_or_update_secret = λ s m w. (ok tt, w + 1);
  get_cached = λ r w. (none, w);
  set_cached = λ r c w. w;
  run_checks = λ n w. (record { check = λ i s. fails_for web_image i; schedule = down_to n }, w);
}

abbrev pub routing : Routing
routing = record {
  global_pod_filter = record {
    include_labels = [];
    exclude_labels = [];
    include_annotations = [];
    exclude_annotations = [];
  };
  rewrite_on_never_image_pull_policy = false;
  honor_priorities_on_always_image_pull_policy = false;
}

unfoldable pub admitted : Pod
unfolding default_pod json exact has_key as_named compile_pod_filter compile_include_exclude_filter
    fails_for
admitted = value (default_pod libraries cluster routing web_pod false 0).0 web_pod

default_pod-IsConfined_example : IsConfined web_pod admitted
unfolding default_pod json exact has_key as_named admitted compile_pod_filter
    compile_include_exclude_filter fails_for
default_pod-IsConfined_example =
    default_pod-IsConfined libraries cluster routing web_pod false 0 admitted refl

default_pod-again_example :
    default_pod libraries cluster routing admitted false 7 ≡ (ok admitted, 7)
unfolding default_pod json exact has_key as_named admitted compile_pod_filter
    compile_include_exclude_filter fails_for
default_pod-again_example =
    default_pod-again libraries cluster routing unmarshal-marshal web_pod false 0 admitted refl refl
      false 7

abbrev NoWrite : ℕ → Type 0
NoWrite w = w ≡ 0

reads : ReadsKeep cluster NoWrite
reads = record {
  list_cisms = λ w i. i;
  list_isms = λ ns w i. i;
  list_criss = λ w i. i;
  list_riss = λ ns w i. i;
  get_secret = λ ns n w i. i;
  get_cached = λ r w i. i;
  set_cached = λ r c w i. i;
  run_checks = λ n w i. i;
}

default_pod-dry_run_example : (default_pod libraries cluster routing web_pod true 0).1 ≡ 0
default_pod-dry_run_example =
    default_pod-dry_run cluster NoWrite reads libraries routing web_pod 0 refl

admitted_images : map (λ c. c.image) admitted.containers ≡ codes "r/p/web" ∷ []
unfolding default_pod json exact has_key as_named admitted compile_pod_filter
    compile_include_exclude_filter fails_for
admitted_images = refl

-- A set that holds the status of two mirrors, one of them stale.
abbrev mirrored_set : ImageSetMirror
mirrored_set = record mirror_set { matching_images = used_image ∷ [] }

abbrev stale_image : AlternativeImage
stale_image = record {
  reference = codes "r/p/web";
  credential_secret = none;
  image_pull_secret = none;
  secret_owner = some (mirror_owner mirrored_set);
}

Reachable-IsBounded_example :
    IsBounded 2
      ((try_cleanup_stale_mirror_status stale_image (record { capacity = 2; running = [] })).1)
Reachable-IsBounded_example = Reachable-IsBounded 2 (after idle (requested stale_image))

abbrev gvk : GroupVersionKind
gvk = record {
  group = codes "kuik.enix.io";
  version = codes "v1alpha1";
  kind = codes "ImageSetMirror";
}

-- A world that is the list of the writes, and a clock that counts them.
abbrev writer : StatusWriter (List MirrorPatch × List ℕ)
writer = record {
  gvk_for_object = λ b. ok gvk;
  now = λ (log, readings). (length log, (log, readings ++ length log ∷ []));
  apply_status = λ p (log, readings). (ok tt, (log ++ p ∷ [], readings));
}

log-clear_stale_mirror_status_example :
    (map untimed (clear_stale_mirror_status writer stale_image ([], [])).0
      ≡ [] ++ status_writes mirrored_set gvk (codes "r/p/web") (used_image ∷ []))
    × (written_times (clear_stale_mirror_status writer stale_image ([], [])).0
        ≡ (clear_stale_mirror_status writer stale_image ([], [])).1)
log-clear_stale_mirror_status_example =
    log-clear_stale_mirror_status writer (λ w. w.0) (λ p w. refl) (λ p w. refl) (λ w. refl)
      (λ w. w.1) (λ w. refl) (λ p w. refl) stale_image mirrored_set gvk ([], []) refl refl refl
