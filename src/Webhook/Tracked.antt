-- ===== src/Webhook/Tracked.antt =====
-- The images of a pod behind its admission: what the reconcilers still see of the images that the entries of
-- `containers` had when the pod was sent.
use mathlib.Core.Option.{some-injective}
use kube_image_keeper.Prelude.{
  ◌≡◌, refl, sym, ap, ◌∙◌, subst, inl, inr, Bool, true, false, List, [], ◌∷◌, ◌++◌, Option, none,
  some, is_some, Any, All, Any-append_right, Bool-cases,
}
use kube_image_keeper.Text.{Text, text_eq, contains_byte}
use kube_image_keeper.Errors.{Result, ok, Result-cases, ok-injective}
use kube_image_keeper.Pods.{StringMap, lookup, Container as PodContainer, Pod}
use kube_image_keeper.Pods.Laws.{lookup-insert_same}
use kube_image_keeper.References.{Named, named_text}
use kube_image_keeper.Webhook.Admission.{original_images, collect_containers, collect_all}
use kube_image_keeper.Webhook.Rewrite.{Cluster, Routing}
use kube_image_keeper.Webhook.Defaulting.{Libraries, default_pod}
use kube_image_keeper.Webhook.Collected.{recorded-insert, HasDistinctNames, collected_image}
use kube_image_keeper.Webhook.Confined.{IsProcessed, default_pod-IsProcessed, original_images-again}
use kube_image_keeper.Mirroring.Names.{
  or_empty, add_name, add_images, add_originals, normalized_image_names_map_from_annotated_pod,
}

-- The names of a pod: those that are there stay, and an image with a name is put there.
module _ (parse : Text → Result Named) where
  abbrev IsNamed : Text → StringMap Bool → Type 0
  IsNamed k names = is_some (lookup k names) ≡ true

  add_name-kept :
      (image : Text) (v : Bool) (names : StringMap Bool) (k : Text)
      → IsNamed k names
      → IsNamed k (add_name parse image v names)
  unfolding add_name
  add_name-kept image v names k h = elim (Bool-cases (contains_byte image b'@')) [
    | inl q ↦ rw q h
    | inr q ↦ elim (Result-cases (parse image)) [
      | inl (n, e) ↦ rw (q, e) (recorded-insert (named_text n) v k names h)
      | inr (e, f) ↦ rw (q, f) h
    ]
  ]

  add_name-new :
      (image : Text) (v : Bool) (names : StringMap Bool) (n : Named)
      → contains_byte image b'@' ≡ false
      → parse image ≡ ok n
      → IsNamed (named_text n) (add_name parse image v names)
  unfolding add_name
  add_name-new image v names n q e =
      rw (q, e) (ap is_some (lookup-insert_same (named_text n) v names))

  add_images-kept :
      (cs : List PodContainer) (names : StringMap Bool) (k : Text)
      → IsNamed k names
      → IsNamed k (add_images parse cs names)
  unfolding add_images
  add_images-kept [] names k h = h
  add_images-kept (c ∷ cs) names k h =
      add_images-kept cs (add_name parse c.image false names) k
        (add_name-kept c.image false names k h)

  add_originals-kept :
      (originals : StringMap Text) (names : StringMap Bool) (k : Text)
      → IsNamed k names
      → IsNamed k (add_originals parse originals names)
  unfolding add_originals
  add_originals-kept [] names k h = h
  add_originals-kept ((c, image) ∷ originals) names k h =
      add_originals-kept originals (add_name parse image true names) k
        (add_name-kept image true names k h)

  module _ (image : Text) (n : Named) (q : contains_byte image b'@' ≡ false)
      (e : parse image ≡ ok n) where
    add_images-new :
        (cs : List PodContainer) (names : StringMap Bool)
        → Any (λ (c : PodContainer). c.image ≡ image) cs
        → IsNamed (named_text n) (add_images parse cs names)
    unfolding add_images
    add_images-new [] names h = absurd h
    add_images-new (c ∷ cs) names (inl same) =
        add_images-kept cs (add_name parse c.image false names) (named_text n) (
          subst (λ t. IsNamed (named_text n) (add_name parse t false names)) (sym same)
            (add_name-new image false names n q e))
    add_images-new (c ∷ cs) names (inr h) = add_images-new cs (add_name parse c.image false names) h

    add_originals-new :
        (originals : StringMap Text) (names : StringMap Bool) (k : Text)
        → lookup k originals ≡ some image
        → IsNamed (named_text n) (add_originals parse originals names)
    unfolding add_originals lookup
    add_originals-new [] names k = λ h. cc
    add_originals-new ((c, t) ∷ originals) names k = elim (Bool-cases (text_eq c k)) [
      | inl same ↦ rw same (λ h.
          add_originals-kept originals (add_name parse t true names) (named_text n) (
            subst (λ u. IsNamed (named_text n) (add_name parse u true names))
              (sym (some-injective t image h)) (add_name-new image true names n q e)))
      | inr other ↦ rw other (add_originals-new originals (add_name parse t true names) k)
    ]

member_image :
    (c : PodContainer) (cs : List PodContainer)
    → Any (λ d. d ≡ c) cs
    → Any (λ (d : PodContainer). d.image ≡ c.image) cs
member_image c [] h = absurd h
member_image c (d ∷ ds) (inl e) = inl (ap (λ (x : PodContainer). x.image) e)
member_image c (d ∷ ds) (inr h) = inr (member_image c ds h)

nothing_recorded :
    (cs : List PodContainer) → All (λ (d : PodContainer). lookup {V = Text} d.name [] ≡ none) cs
unfolding lookup
nothing_recorded [] = tt
nothing_recorded (c ∷ cs) = (refl, nothing_recorded cs)

module _ {W : Type 0} (libs : Libraries) (cluster : Cluster W) (routing : Routing) where
  -- The name is among the names of the images of the pod.
  abbrev pub IsTracked : Pod → Named → Type 0
  IsTracked q n =
      is_some (
        lookup (named_text n)
          (normalized_image_names_map_from_annotated_pod libs.parse_normalized libs.json q))
      ≡ true

  -- The name that the parser gives to the image is.
  abbrev TracksImage : Pod → Text → Type 0
  TracksImage q image =
      (n : Named)
      → contains_byte image b'@' ≡ false
      → libs.parse_normalized image ≡ ok n
      → IsTracked q n

  same-TracksImage :
      (p : Pod) (c : PodContainer) → Any (λ d. d ≡ c) p.containers → TracksImage p c.image
  unfolding normalized_image_names_map_from_annotated_pod
  same-TracksImage p c h n q e =
      add_originals-kept libs.parse_normalized (or_empty (original_images libs.json p))
        (add_images libs.parse_normalized (p.init_containers ++ p.containers) []) (named_text n)
        (add_images-new libs.parse_normalized c.image n q e (p.init_containers ++ p.containers) [] (
          Any-append_right (λ (d : PodContainer). d.image ≡ c.image) p.init_containers p.containers
            (member_image c p.containers h)))

  processed-TracksImage :
      ((o : Option (StringMap Text)) → libs.json.unmarshal (libs.json.marshal o) ≡ o)
      → (p q : Pod) (c : PodContainer) → HasDistinctNames p.containers
      → original_images libs.json p ≡ some []
      → Any (λ d. d ≡ c) p.containers
      → IsProcessed libs cluster routing p q
      → TracksImage q c.image
  unfolding normalized_image_names_map_from_annotated_pod collect_all
  processed-TracksImage round_trip p q c distinct blank h (inl (same, skipped)) =
      subst (λ r. TracksImage r c.image) (sym same) (same-TracksImage p c h)
  processed-TracksImage round_trip p q c distinct blank h (inr (cs, originals, collected, r)) =
      let m = (collect_containers 0 p.containers []).1 in
      let recorded : some m ≡ originals =
        ap (λ x. x.1)
          (ok-injective (subst (λ o. collect_all p o ≡ ok (cs, originals)) blank collected)) in
      let again : some m ≡ original_images libs.json q =
        recorded ∙ sym (original_images-again libs cluster routing round_trip p q originals r) in
      λ n at_free parsed.
        subst
          (λ o.
            is_some (
              lookup (named_text n) (
                add_originals libs.parse_normalized (or_empty o)
                  (add_images libs.parse_normalized (q.init_containers ++ q.containers) [])))
            ≡ true)
          again
          (add_originals-new libs.parse_normalized c.image n at_free parsed m
            (add_images libs.parse_normalized (q.init_containers ++ q.containers) []) c.name
            (collected_image 0 p.containers [] c distinct (nothing_recorded p.containers) h))

  -- Where what json writes is read back: the admission of a pod whose containers have different names and
  -- whose annotation of original images is read as empty keeps track of the images of the entries of
  -- `containers`. Each of them that has no digest and parses is among the names of the images of the
  -- admitted pod, which the mirrors and the monitoring look at, even where the container now runs an
  -- alternative. It says nothing of the images of init containers.
  pub default_pod-IsTracked :
      ((o : Option (StringMap Text)) → libs.json.unmarshal (libs.json.marshal o) ≡ o)
      → (p : Pod) (dry_run : Bool) (w : W) (q : Pod) (c : PodContainer)
      → HasDistinctNames p.containers
      → original_images libs.json p ≡ some []
      → Any (λ d. d ≡ c) p.containers
      → (default_pod libs cluster routing p dry_run w).0 ≡ ok q
      → (n : Named) → contains_byte c.image b'@' ≡ false
      → libs.parse_normalized c.image ≡ ok n
      → IsTracked q n
  default_pod-IsTracked round_trip p dry_run w q c distinct blank h e =
      processed-TracksImage round_trip p q c distinct blank h
        (default_pod-IsProcessed libs cluster routing p dry_run w q e)
