-- ===== src/Examples/Servers.antt =====
-- A cluster, a registry and monitored images for the examples.
use kube_image_keeper.Prelude.{ℕ, ◌+◌, Bool, true, false, [], ◌∷◌, none, some}
use kube_image_keeper.Prelude.Int.{pos}
use kube_image_keeper.Text.{Text, codes}
use kube_image_keeper.Errors.{ok}
use kube_image_keeper.Effects.{pure}
use kube_image_keeper.Filters.{Filter, include_exclude}
use kube_image_keeper.Mirroring.Images.{namespaced, Kube}
use kube_image_keeper.Registry.Client.{Remote}
use kube_image_keeper.Registry.Probe.{available}
use kube_image_keeper.Availability.Monitored.{MonitoredImage, ClusterImageSetAvailability}
use kube_image_keeper.Examples.Inputs.{web_image, metadata, mirror_set}

-- A cluster in which every call succeeds; the world counts the seconds.
abbrev pub kube : Kube ℕ (Unit {0})
kube = record {
  get_secret = λ ns n. pure (record { name = n; namespace = ns; contents = [] });
  get_descriptor = λ s i. pure tt;
  copy_image = λ d s i. pure tt;
  delete_image = λ s i. pure tt;
  now = λ w. (w, w + 1);
  get_object = pure (namespaced mirror_set);
  update = pure;
  patch_status = λ a b. pure tt;
  list_pods = λ ns. pure [];
  list_cluster_image_set_mirrors = pure [];
  list_image_set_mirrors = pure [];
  retry_on_conflict = λ m. m;
}

abbrev pub monitored : MonitoredImage
monitored = record {
  image = web_image;
  status = available;
  unused_since = none;
  last_error = [];
  last_monitor = some 3;
  original = true;
}

abbrev pub availability : ClusterImageSetAvailability
availability = record {
  meta = metadata;
  unused_image_expiry = pos 0;
  image_filter = record { include = []; exclude = [] };
  filter = record { include = []; exclude = [] };
  image_count = 1;
  images = monitored ∷ [];
}

abbrev pub everything : Filter
everything = include_exclude (record { include = (λ s. true) ∷ []; exclude = [] })

-- A registry that serves each tag and each digest.
abbrev pub remote : Remote ℕ Bool Text
remote = record {
  normalized_name = ok;
  make_docker_keyring = λ s. ok none;
  default_keychain = true;
  parse_reference = λ t. ok (record { repository = t; full_name = t; is_digest = false });
  remote_head = λ r k. pure (codes "sha256:0");
  remote_get = λ r k. pure (codes "sha256:0");
  remote_delete = λ t k. pure tt;
  new_digest = ok;
  digest = λ d. d;
  ratelimit_remaining = λ w. codes "9;w=60";
}
