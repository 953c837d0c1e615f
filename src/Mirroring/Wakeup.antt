-- ===== src/Mirroring/Wakeup.antt =====
-- The pod mapper of the mirror objects against the images that their reconcilers ask to be mirrored.
use kube_image_keeper.Prelude.{
  ◌≡◌, refl, ap, ◌⊎◌, inl, inr, Bool, true, false, not, ◌||◌, ◌&&◌, List, [], ◌∷◌, ◌++◌,
  contains_func, Any, All, Bool-cases, delete_func, delete_func-append, Any-delete_func,
  delete_func-dropped, delete_func-kept, arith,
}
use kube_image_keeper.Text.{Text, text_eq, contains_byte}
use kube_image_keeper.Errors.{Result, ok, Result-cases}
use kube_image_keeper.Pods.{StringMap, insert, keys, Pod, Container}
use kube_image_keeper.Filters.{Filter, match, match_pod}
use kube_image_keeper.References.{Named, named_text}
use kube_image_keeper.Mirroring.Images.{MirrorObject, object_pod_matcher, object_image_filter}
use kube_image_keeper.Mirroring.Names.{
  add_name, add_images, normalized_image_names_from_pod, is_mirrored, match_names,
  pods_by_normalized_matching_images,
}
use kube_image_keeper.Mirroring.Reconcile.{
  Settings, selected_pods, selects_image, requested, enqueue_for_pod,
}

abbrev NoDigest : Text → Type 0
NoDigest t = contains_byte t b'@' ≡ false

All-keys-insert :
    {V : Type 0} (P : Text → Type 0) (k : Text) (v : V) (m : StringMap V)
    → P k
    → All P (keys m)
    → All P (keys (insert k v m))
unfolding insert keys
All-keys-insert P k v [] p h = (p, tt)
All-keys-insert P k v ((j, u) ∷ m) p h = elim (Bool-cases (text_eq j k)) [
  | inl q ↦ rw q h
  | inr q ↦ rw q (h.0, All-keys-insert P k v m p h.1)
]

module _ (parse : Text → Result Named)
    (bare : (t : Text) (n : Named) → parse t ≡ ok n → NoDigest t → NoDigest (named_text n)) where
  add_name-NoDigest :
      {V : Type 0} (image : Text) (v : V) (names : StringMap V)
      → All NoDigest (keys names)
      → All NoDigest (keys (add_name parse image v names))
  unfolding add_name
  add_name-NoDigest image v names h = elim (Bool-cases (contains_byte image b'@')) [
    | inl q ↦ rw q h
    | inr q ↦ elim (Result-cases (parse image)) [
      | inl (n, k) ↦
          rw (q, k) (All-keys-insert NoDigest (named_text n) v names (bare image n k q) h)
      | inr (e, k) ↦ rw (q, k) h
    ]
  ]

  add_images-NoDigest :
      (cs : List Container) (names : StringMap Bool)
      → All NoDigest (keys names)
      → All NoDigest (keys (add_images parse cs names))
  unfolding add_images
  add_images-NoDigest [] names h = h
  add_images-NoDigest (c ∷ cs) names h =
      add_images-NoDigest cs (add_name parse c.image false names)
        (add_name-NoDigest c.image false names h)

  pod_names-NoDigest : (pod : Pod) → All NoDigest (normalized_image_names_from_pod parse pod)
  unfolding normalized_image_names_from_pod keys
  pod_names-NoDigest pod = add_images-NoDigest (pod.init_containers ++ pod.containers) [] tt

module _ (parse : Text → Result Named) (f : Filter) (prefixes : StringMap (List Text))
    (pod : Pod) where
  match_names-unmatched :
      (names : List Text) (found : StringMap Pod)
      → All NoDigest names
      → contains_func names (λ n. not (contains_byte n b'@') && match f n) ≡ false
      → match_names parse f prefixes pod names found ≡ found
  unfolding match_names
  match_names-unmatched [] found bare h = refl
  match_names-unmatched (n ∷ names) found bare h = elim (Bool-cases (match f n)) [
    | inl q ↦ let clash : true ≡ false = ground (arith, h, q, bare.0) in cc
    | inr q ↦ elim (Bool-cases (is_mirrored parse prefixes pod.namespace n)) [
      | inl k ↦ rw k (match_names-unmatched names found bare.1 (ground (arith, h, q, bare.0)))
      | inr k ↦ rw (k, q) (match_names-unmatched names found bare.1 (ground (arith, h, q, bare.0)))
    ]
  ]

  pods_by-unmatched :
      (before after : List Pod) (found : StringMap Pod)
      → All NoDigest (normalized_image_names_from_pod parse pod)
      → contains_func
          (normalized_image_names_from_pod parse pod)
          (λ n. not (contains_byte n b'@') && match f n)
        ≡ false
      → pods_by_normalized_matching_images parse f prefixes (before ++ pod ∷ after) found
        ≡ pods_by_normalized_matching_images parse f prefixes (before ++ after) found
  unfolding pods_by_normalized_matching_images
  pods_by-unmatched [] after found bare h =
      ap (pods_by_normalized_matching_images parse f prefixes after)
        (match_names-unmatched (normalized_image_names_from_pod parse pod) found bare h)
  pods_by-unmatched (p ∷ before) after found bare h =
      pods_by-unmatched before after
        (match_names parse f prefixes p (normalized_image_names_from_pod parse p) found) bare h

module _ (settings : Settings) where
  -- The selection of the pods that the object looks at.
  abbrev pub seen : (Pod → Bool) → List Pod → List Pod
  seen matcher = selected_pods settings.global_pod_filter matcher

  -- The images that the object asks to be mirrored, and for which pods.
  abbrev pub wanted : Filter → StringMap (List Text) → List Pod → StringMap Pod
  wanted f prefixes pods =
      pods_by_normalized_matching_images settings.parse_normalized f prefixes pods []

module _ (settings : Settings) (pod : Pod) (obj : MirrorObject) where
  wanted-unmatched :
      (matcher : Pod → Bool) (f : Filter) (prefixes : StringMap (List Text))
      (before after : List Pod)
      → All NoDigest (normalized_image_names_from_pod settings.parse_normalized pod)
      → not (matcher pod) || not (match_pod settings.global_pod_filter pod) ≡ false
      → contains_func
          (normalized_image_names_from_pod settings.parse_normalized pod)
          (λ n. not (contains_byte n b'@') && match f n)
        ≡ false
      → wanted settings f prefixes (seen settings matcher (before ++ pod ∷ after))
        ≡ wanted settings f prefixes (seen settings matcher (before ++ after))
  unfolding selected_pods
  wanted-unmatched matcher f prefixes before after bare h l =
      let unseen : Pod → Bool =
        λ p. not (matcher p) || not (match_pod settings.global_pod_filter p) in
      rw (delete_func-kept unseen before after pod h) (
        rw (delete_func-append unseen before after) (
          pods_by-unmatched settings.parse_normalized f prefixes pod (delete_func before unseen)
            (delete_func after unseen) [] bare l))

  wanted-unseen :
      (matcher : Pod → Bool) (f : Filter) (prefixes : StringMap (List Text))
      (before after : List Pod)
      → not (matcher pod) || not (match_pod settings.global_pod_filter pod) ≡ true
      → wanted settings f prefixes (seen settings matcher (before ++ pod ∷ after))
        ≡ wanted settings f prefixes (seen settings matcher (before ++ after))
  unfolding selected_pods
  wanted-unseen matcher f prefixes before after h =
      ap (wanted settings f prefixes) (delete_func-dropped _ before after pod h)

  enqueue_for_pod-requested :
      (objs : List MirrorObject)
      → match_pod settings.global_pod_filter pod ≡ true
      → requested settings pod obj ≡ true
      → Any (λ o. o ≡ obj) objs
      → Any (λ o. o ≡ obj) (enqueue_for_pod settings pod (ok objs))
  unfolding enqueue_for_pod
  enqueue_for_pod-requested objs h k m =
      rw h (Any-delete_func (λ o. not (requested settings pod o)) obj objs (rw k refl) m)

  -- Where the parser adds no digest to a name, and both filters of an object compile: the event of a pod
  -- asks for a reconciliation of the object, or the object asks for the same images to be mirrored with the
  -- pod and without it, wherever the pod stands among the others. The images that are mirrored are those
  -- that the containers of the pods run; the images in use that are read from annotations are not in it.
  pub enqueue_for_pod-wanted :
      ((t : Text) (n : Named)
        → settings.parse_normalized t ≡ ok n
        → contains_byte t b'@' ≡ false
        → contains_byte (named_text n) b'@' ≡ false)
      → (matcher : Pod → Bool) (f : Filter) (prefixes : StringMap (List Text))
        (objs : List MirrorObject) (before after : List Pod)
      → object_pod_matcher settings.compile settings.parse_selector obj ≡ ok matcher
      → object_image_filter settings.compile settings.parse_selector obj ≡ ok f
      → Any (λ o. o ≡ obj) objs
      → Any (λ o. o ≡ obj) (enqueue_for_pod settings pod (ok objs))
        ⊎ (wanted settings f prefixes (seen settings matcher (before ++ pod ∷ after))
            ≡ wanted settings f prefixes (seen settings matcher (before ++ after)))
  unfolding requested selects_image
  enqueue_for_pod-wanted bare matcher f prefixes objs before after compiled filtered listed =
      elim (Bool-cases (not (matcher pod) || not (match_pod settings.global_pod_filter pod))) [
        | inl unseen ↦ inr (wanted-unseen matcher f prefixes before after unseen)
        | inr known ↦
            elim (Bool-cases (
              contains_func (normalized_image_names_from_pod settings.parse_normalized pod)
                (λ n. not (contains_byte n b'@') && match f n))) [
                  | inr l ↦ inr (
                      wanted-unmatched matcher f prefixes before after
                        (pod_names-NoDigest settings.parse_normalized bare pod) known l)
                  | inl l ↦ inl (
                      enqueue_for_pod-requested objs (ground (arith, known))
                        (rw (compiled, requested) (ground (arith, known, l, filtered))) listed)
                ]
      ]
