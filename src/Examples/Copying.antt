-- ===== src/Examples/Copying.antt =====
-- The theorem on what registries hold behind the mirroring, with a registry that remembers names.
use kube_image_keeper.Prelude.{
  ◌≡◌, refl, Bool, true, false, List, [], ◌∷◌, none, some, contains_func, if◌then◌else◌,
}
use kube_image_keeper.Text.{Text, codes, text_eq}
use kube_image_keeper.Errors.{Result, ok, err, transport}
use kube_image_keeper.Effects.{Eff, pure}
use kube_image_keeper.Resources.{MatchingImage}
use kube_image_keeper.Registry.Client.{Reference, Remote}
use kube_image_keeper.Registry.Platforms.{Source, index, copied}
use kube_image_keeper.Registry.Copy.{ImageStore, copy_image}
use kube_image_keeper.Mirroring.Images.{namespaced, Kube}
use kube_image_keeper.Mirroring.Loops.{mirror_images}
use kube_image_keeper.Mirroring.Remote.{with_registry}
use kube_image_keeper.Examples.Inputs.{web_image, mirror, mirror_set, to_write, used_image}

-- A world is the list of the names at which there is a manifest.
abbrev Names : Type 0
Names = List Text

unfoldable has_name : Names → Text → Bool
unfolding text_eq
has_name names n = contains_func names (λ m. text_eq m n)

unfoldable answer : Reference → Eff Names Text
unfolding has_name
answer ref names =
    (if has_name names ref.full_name then ok ref.full_name else err (transport 404 []), names)

abbrev names_remote : Remote Names Bool Text
names_remote = record {
  normalized_name = ok;
  make_docker_keyring = λ s. ok none;
  default_keychain = true;
  parse_reference = λ t. ok (record { repository = t; full_name = t; is_digest = false });
  remote_head = λ r k. answer r;
  remote_get = λ r k. answer r;
  remote_delete = λ t k. pure tt;
  new_digest = ok;
  digest = λ d. d;
  ratelimit_remaining = λ w. [];
}

-- A write adds the name.
abbrev names_store : ImageStore Names Bool Text Text Text
names_store = record {
  read_source = λ d. pure (index ((some [], d) ∷ []));
  write_source = λ ref k c names. (ok tt, ref.full_name ∷ names);
  satisfies = λ a b. true;
  platform_string = λ p. p;
}

-- A descriptor is the name that was asked for.
abbrev Describes : Text → Reference → Type 0
Describes d s = d ≡ s.full_name

abbrev Content : Source Text Text → Reference → Type 0
Content c s = Unit

abbrev Holds : Names → Reference → Reference → Type 0
Holds names ref s = has_name names ref.full_name ≡ true

abbrev Answers : Names → Reference → Type 0
Answers names ref = has_name names ref.full_name ≡ true

abbrev api : Kube Names Text
api = record {
  get_secret = λ ns n. pure (record { name = n; namespace = ns; contents = [] });
  get_descriptor = λ s i. pure [];
  copy_image = λ d s i. pure tt;
  delete_image = λ s i. pure tt;
  now = λ w. (7, w);
  get_object = pure (namespaced mirror_set);
  update = pure;
  patch_status = λ a b. pure tt;
  list_pods = λ ns. pure [];
  list_cluster_image_set_mirrors = pure [];
  list_image_set_mirrors = pure [];
  retry_on_conflict = λ m. m;
}

-- An image whose mirror is still to be written.
abbrev new_image : MatchingImage
new_image = record used_image { mirrors = to_write ∷ [] }

unfoldable mirrored : Result (List MatchingImage × Bool) × Names
unfolding mirror_images with_registry copy_image copied answer
mirrored =
    mirror_images (with_registry names_remote names_store ([] ∷ []) api) [] (mirror ∷ [])
      (namespaced mirror_set) [] [] false (new_image ∷ []) (web_image ∷ [])

mirrored_names : mirrored.1 ≡ codes "r/p/web" ∷ web_image ∷ []
unfolding mirrored
mirrored_names = refl
