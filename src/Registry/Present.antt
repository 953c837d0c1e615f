-- ===== src/Registry/Present.antt =====
-- What registries hold, as far as a copy or a request for a descriptor that has succeeded says it.
use kube_image_keeper.Prelude.{◌≡◌, refl, subst, ◌⊎◌, inl, inr, List}
use kube_image_keeper.Text.{Text}
use kube_image_keeper.Errors.{ok}
use kube_image_keeper.Effects.{lift}
use kube_image_keeper.Effects.Laws.{>>=-ok, Preserves, >>=-Preserves}
use kube_image_keeper.Webhook.Alternatives.{Secret}
use kube_image_keeper.Registry.Client.{Reference, Remote}
use kube_image_keeper.Registry.Platforms.{Source, copied}
use kube_image_keeper.Registry.Copy.{ImageStore, get_descriptor, copy_at, copy_image}
use kube_image_keeper.Registry.Ending.{execute-ends, execute-Preserves}

-- `Describes d s`: the registry has served the descriptor for the reference; `Content c s`: these
-- manifests are of the image there; `Holds w ref s`: at ref there are manifests of the image of s;
-- `Answers w ref`: the registry has a manifest at ref.
module _ {W K D P M : Type 0} (remote : Remote W K D) (store : ImageStore W K D P M)
    (platforms : List P) (Describes : D → Reference → Type 0)
    (Content : Source P M → Reference → Type 0) (Holds : W → Reference → Reference → Type 0)
    (Answers : W → Reference → Type 0) where
  -- The registry of the image has manifests of the source, or has some manifest at its reference.
  abbrev pub IsPresent : Text → Text → W → Type 0
  IsPresent source image w =
      (ref : Reference) × (remote.parse_reference image ≡ ok ref)
      × (((s : Reference) × (remote.parse_reference source ≡ ok s) × Holds w ref s) ⊎ Answers w ref)

  -- What registries do: a descriptor that is served leads to the manifests of its image, a manifest that is
  -- taken is there, and no request but a deletion makes one disappear.
  pub record KeepsImages : Type 0 where
    pub served :
        (s : Reference) (k : K) (w : W) (d : D)
        → (remote.remote_get s k w).0 ≡ ok d
        → Describes d s × Answers (remote.remote_get s k w).1 s
    pub read :
        (d : D) (s : Reference) (w : W) (c : Source P M)
        → Describes d s
        → (store.read_source d w).0 ≡ ok c
        → Content c s
    pub filtered :
        (c left : Source P M) (s : Reference)
        → Content c s
        → copied store.satisfies store.platform_string platforms c ≡ ok left
        → Content left s
    pub written :
        (ref s : Reference) (k : K) (c : Source P M) (w : W)
        → Content c s
        → (store.write_source ref k c w).0 ≡ ok tt
        → Holds (store.write_source ref k c w).1 ref s
    pub get_keeps :
        (source image : Text) (s : Reference) (k : K)
        → Preserves (IsPresent source image) (remote.remote_get s k)
    pub read_keeps :
        (source image : Text) (d : D) → Preserves (IsPresent source image) (store.read_source d)
    pub write_keeps :
        (source image : Text) (ref : Reference) (k : K) (c : Source P M)
        → Preserves (IsPresent source image) (store.write_source ref k c)

  module _ (laws : KeepsImages) where
    -- The descriptor is of the image of that name.
    abbrev pub IsDescriptorOf : Text → D → Type 0
    IsDescriptorOf source d =
        (s : Reference) × (remote.parse_reference source ≡ ok s) × Describes d s

    pub get_descriptor-served :
        (image : Text) (secrets : List Secret) (w : W) (d : D)
        → (get_descriptor remote store image secrets w).0 ≡ ok d
        → IsDescriptorOf image d
          × ((source : Text)
              → IsPresent source image (get_descriptor remote store image secrets w).1)
    unfolding get_descriptor
    get_descriptor-served image secrets w d h =
        let (s, parsed, (k, v, q)) = execute-ends remote image secrets remote.remote_get w d h in
        let (describes, answers) = laws.served s k v d (rw q refl) in
        ((s, parsed, describes), λ source. (s, parsed, inr (subst (λ r. Answers r.1 s) q answers)))

    pub get_descriptor-Preserves :
        (source image asked : Text) (secrets : List Secret)
        → Preserves (IsPresent source image) (get_descriptor remote store asked secrets)
    unfolding get_descriptor
    get_descriptor-Preserves source image asked secrets =
        execute-Preserves remote asked secrets remote.remote_get (IsPresent source image)
          (laws.get_keeps source image)

    copy_at-Holds :
        (d : D) (s ref : Reference) (k : K) (w : W)
        → Describes d s
        → (copy_at remote store d platforms ref k w).0 ≡ ok tt
        → Holds (copy_at remote store d platforms ref k w).1 ref s
    unfolding copy_at
    copy_at-Holds d s ref k w h e =
        let (c, q, rest) = >>=-ok (store.read_source d) _ w tt e in
        let v = (store.read_source d w).1 in
        let (left, q', last) =
          >>=-ok (lift (copied store.satisfies store.platform_string platforms c)) _ v tt rest in
        rw (q, q')
          (laws.written ref s k left v (laws.filtered c left s (laws.read d s w c h q) q') last)

    -- Where the descriptor is of the source, a copy that succeeds leaves the source at the image.
    pub copy_image-IsPresent :
        (d : D) (source image : Text) (secrets : List Secret) (w : W)
        → IsDescriptorOf source d
        → (copy_image remote store d image platforms secrets w).0 ≡ ok tt
        → IsPresent source image (copy_image remote store d image platforms secrets w).1
    unfolding copy_image
    copy_image-IsPresent d source image secrets w (s, parsed, h) e =
        let (ref, q, (k, v, ended)) =
          execute-ends remote image secrets (copy_at remote store d platforms) w tt e in
        let there = copy_at-Holds d s ref k v h (rw ended refl) in
        (ref, q, inl (s, parsed, subst (λ r. Holds r.1 ref s) ended there))

    copy_at-Preserves :
        (source image : Text) (d : D) (ref : Reference) (k : K)
        → Preserves (IsPresent source image) (copy_at remote store d platforms ref k)
    unfolding copy_at
    copy_at-Preserves source image d ref k =
        >>=-Preserves (IsPresent source image) (store.read_source d) _
          (laws.read_keeps source image d)
          λ c.
            >>=-Preserves (IsPresent source image)
              (lift (copied store.satisfies store.platform_string platforms c)) _ (λ w i. i)
              λ left. laws.write_keeps source image ref k left

    pub copy_image-Preserves :
        (source image asked : Text) (d : D) (secrets : List Secret)
        → Preserves (IsPresent source image) (copy_image remote store d asked platforms secrets)
    unfolding copy_image
    copy_image-Preserves source image asked d secrets =
        execute-Preserves remote asked secrets (copy_at remote store d platforms)
          (IsPresent source image) (copy_at-Preserves source image d)
