-- ===== src/Examples/Inputs.antt =====
-- Small resources, and concrete functions in the place of the libraries.
use kube_image_keeper.Prelude.{true, false, ◌||◌, [], ◌∷◌, none, some, is_some}
use kube_image_keeper.Prelude.Int.{pos}
use kube_image_keeper.Text.{Text, codes, text_eq, slash, split_first}
use kube_image_keeper.Errors.{Result, ok, err, message}
use kube_image_keeper.Pods.{lookup, Pod, Container as PodContainer, always}
use kube_image_keeper.Filters.{Regexp, Selector, anchored}
use kube_image_keeper.Selection.{match_everything, FilterItem, Filter}
use kube_image_keeper.Resources.{ObjectMeta, Mirror, MirrorStatus, MatchingImage, ImageSetMirror}
use kube_image_keeper.References.{Named}
use kube_image_keeper.Webhook.Alternatives.{Container}

abbrev pub value {ℓ} : {A : Type ℓ} → Result A → A → A
value (ok a) d = a
value (err e) d = d

-- Expressions that accept one text, or every text.
unfoldable pub exact : Text → Result Regexp
unfolding text_eq
exact p = ok (λ s. text_eq (anchored s) p || text_eq p (anchored match_everything))

-- Selectors that ask for a key.
unfoldable pub has_key : Text → Result Selector
unfolding lookup
has_key p = ok (λ set. is_some (lookup p set))

-- References that are normalised already.
unfoldable pub as_named : Text → Result Named
unfolding split_first
as_named t =
    let (domain, after) = split_first slash t in
    elim after [
      | some rest ↦ ok (record { domain = domain; remainder = rest })
      | none ↦ err (message t)
    ]

abbrev pub web_image : Text
web_image = codes "d/web"

abbrev pub metadata : ObjectMeta
metadata = record {
  name = codes "m";
  namespace = codes "n";
  uid = [];
  deletion_timestamp = none;
  finalizers = [];
}

abbrev pub item : FilterItem
item = record { image = web_image; label = codes "app"; annotation = [] }

abbrev pub web_filter : Filter
web_filter = record { include = item ∷ []; exclude = [] }

abbrev pub mirror : Mirror
mirror = record {
  priority = 0;
  registry = codes "r";
  path = codes "p";
  credential_secret = none;
  cleanup = none;
}

abbrev pub mirror_set : ImageSetMirror
mirror_set = record {
  meta = metadata;
  base = record {
    priority = pos 1;
    image_filter = record { include = []; exclude = [] };
    cleanup = record { enabled = true; retention = pos 0 };
    mirrors = mirror ∷ [];
  };
  filter = web_filter;
  matching_images = [];
}

abbrev pub web_container : PodContainer
web_container = record { name = codes "web"; image = web_image; image_pull_policy = always }

abbrev pub web_pod : Pod
web_pod = record {
  name = codes "p";
  namespace = codes "n";
  labels = (codes "app", codes "web") ∷ [];
  annotations = [];
  containers = web_container ∷ [];
  init_containers = [];
  image_pull_secrets = [];
}

abbrev pub container : Container
container = record {
  container = web_container;
  index = 0;
  is_init = false;
  normalized_image = web_image;
  images = [];
  alternatives = [];
}

abbrev pub to_write : MirrorStatus
to_write = record { image = codes "r/p/web"; mirrored_at = none; last_error = [] }

abbrev pub written : MirrorStatus
written = record { image = codes "r/p/web"; mirrored_at = some 5; last_error = [] }

abbrev pub used_image : MatchingImage
used_image = record { image = web_image; mirrors = to_write ∷ written ∷ []; unused_since = none }
