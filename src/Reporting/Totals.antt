-- ===== src/Reporting/Totals.antt =====
-- What the status page and the metric on monitored images report, against the list of the images.
use mathlib.Core.List.{append-nil, append_assoc, map-append}
use kube_image_keeper.Prelude.{
  ◌≡◌, refl, sym, ap, subst, ◌∙◌, suc, List, [], ◌∷◌, ◌++◌, map, length, length-append, keep,
  keep-append, none, some, Option-cases, Bool-cases, inl, inr, if◌then◌else◌, arith,
}
use kube_image_keeper.Text.{Text, text_eq}
use kube_image_keeper.Text.Laws.{text_eq_sound, text_eq_refl}
use kube_image_keeper.Errors.{Result, ok}
use kube_image_keeper.Pods.{StringMap, lookup, insert}
use kube_image_keeper.Pods.Laws.{lookup-insert_same, lookup-insert_other}
use kube_image_keeper.Resources.{Time}
use kube_image_keeper.References.{Named}
use kube_image_keeper.Availability.Monitored.{MonitoredImage, ClusterImageSetAvailability}
use kube_image_keeper.Reporting.{
  StatusImage, GroupBy, no_group, by_cisa, by_registry, parse_group_by, Body, grouped, listed,
  Collected, group_key, ungrouped, members, add_entry, status_image, collect_images,
  collect_objects, respond, serve_http,
}

-- The entries of a group, in order.
unfoldable pub group_of : GroupBy → Text → List StatusImage → List StatusImage
unfolding group_key ungrouped text_eq
group_of g k es = map (ungrouped g) (keep (λ s. text_eq (group_key g s) k) es)

-- What is collected holds these entries.
abbrev Holds : GroupBy → List StatusImage → Collected → Type 0
Holds no_group es c = (c.items ≡ es) × (c.total ≡ length es)
Holds by_cisa es c =
    ((k : Text) → members (lookup k c.groups) ≡ group_of by_cisa k es) × (c.total ≡ length es)
Holds by_registry es c =
    ((k : Text) → members (lookup k c.groups) ≡ group_of by_registry k es) × (c.total ≡ length es)

group_of-append :
    (g : GroupBy) (k : Text) (es : List StatusImage) (s : StatusImage)
    → group_of g k (es ++ s ∷ []) ≡ group_of g k es ++ group_of g k (s ∷ [])
unfolding group_of
group_of-append g k es s = rw (keep-append (λ x. text_eq (group_key g x) k) es (s ∷ [])) (
    map-append (ungrouped g) (keep (λ x. text_eq (group_key g x) k) es)
      (keep (λ x. text_eq (group_key g x) k) (s ∷ [])))

group_of-own :
    (g : GroupBy) (k : Text) (s : StatusImage)
    → group_of g k (s ∷ []) ≡ (if text_eq (group_key g s) k then ungrouped g s ∷ [] else [])
unfolding group_of
group_of-own g k s = ground arith

group_of-snoc :
    (g : GroupBy) (k : Text) (es : List StatusImage) (s : StatusImage)
    → group_of g k (es ++ s ∷ [])
      ≡ group_of g k es ++ (if text_eq (group_key g s) k then ungrouped g s ∷ [] else [])
group_of-snoc g k es s =
    group_of-append g k es s ∙ ap (λ t. group_of g k es ++ t) (group_of-own g k s)

-- One more entry in the groups.
members-insert :
    (g : GroupBy) (m : StringMap (List StatusImage)) (es : List StatusImage) (s : StatusImage)
    → ((k : Text) → members (lookup k m) ≡ group_of g k es)
    → (k : Text)
    → members (
        lookup k
          (insert (group_key g s) (members (lookup (group_key g s) m) ++ ungrouped g s ∷ []) m))
      ≡ group_of g k (es ++ s ∷ [])
members-insert g m es s h k =
    let j = group_key g s in
    let v = members (lookup j m) ++ ungrouped g s ∷ [] in
    elim (Bool-cases (text_eq j k)) [
      | inl q ↦
          subst (λ l. members (lookup l (insert j v m)) ≡ group_of g l (es ++ s ∷ []))
            (text_eq_sound j k q)
            (ap members (lookup-insert_same j v m)
              ∙ ap (λ t. t ++ ungrouped g s ∷ []) (h j)
              ∙ sym (group_of-snoc g j es s ∙ rw (text_eq_refl j) refl))
      | inr q ↦
          ap members (lookup-insert_other j k v m q)
          ∙ h k
          ∙ sym (group_of-snoc g k es s ∙ rw q (append-nil _))
    ]

length-snoc : (es : List StatusImage) (s : StatusImage) → length (es ++ s ∷ []) ≡ suc (length es)
length-snoc es s = omega (arith, length-append es (s ∷ []))

add_entry-Holds :
    (g : GroupBy) (es : List StatusImage) (s : StatusImage) (c : Collected)
    → Holds g es c
    → Holds g (es ++ s ∷ []) (add_entry g s c)
unfolding add_entry
add_entry-Holds no_group es s c h = (ap (λ t. t ++ s ∷ []) h.0, ap suc h.1 ∙ sym (length-snoc es s))
add_entry-Holds by_cisa es s c h =
    (members-insert by_cisa c.groups es s h.0, ap suc h.1 ∙ sym (length-snoc es s))
add_entry-Holds by_registry es s c h =
    (members-insert by_registry c.groups es s h.0, ap suc h.1 ∙ sym (length-snoc es s))

module _ (parse_normalized : Text → Result Named) (format_rfc3339 : Time → Text) where
  -- The entries of the images whose references parse, object by object.
  unfoldable pub image_entries : Text → List MonitoredImage → List StatusImage
  unfolding status_image
  image_entries cisa [] = []
  image_entries cisa (i ∷ is) =
      let rest = image_entries cisa is in
      elim (status_image parse_normalized format_rfc3339 cisa i) [ none ↦ rest | some s ↦ s ∷ rest ]

  unfoldable pub entries : List ClusterImageSetAvailability → List StatusImage
  unfolding image_entries
  entries [] = []
  entries (o ∷ os) = image_entries o.meta.name o.images ++ entries os

  collect_images-Holds :
      (g : GroupBy) (cisa : Text) (is : List MonitoredImage) (es : List StatusImage) (c : Collected)
      → Holds g es c
      → Holds g
          (es ++ image_entries cisa is)
          (collect_images parse_normalized format_rfc3339 g cisa is c)
  unfolding collect_images image_entries
  collect_images-Holds g cisa [] es c h = subst (λ t. Holds g t c) (sym (append-nil es)) h
  collect_images-Holds g cisa (i ∷ is) es c h =
      elim (Option-cases (status_image parse_normalized format_rfc3339 cisa i)) [
        | inl q ↦ rw (q, image_entries) (collect_images-Holds g cisa is es c h)
        | inr (s, q) ↦
            rw (q, image_entries)
              (subst
                (λ t.
                  Holds g t
                    (collect_images parse_normalized format_rfc3339 g cisa is (add_entry g s c)))
                (append_assoc es (s ∷ []) (image_entries cisa is))
                (collect_images-Holds g cisa is (es ++ s ∷ []) (add_entry g s c)
                  (add_entry-Holds g es s c h)))
      ]

  collect_objects-Holds :
      (g : GroupBy) (os : List ClusterImageSetAvailability) (es : List StatusImage) (c : Collected)
      → Holds g es c
      → Holds g (es ++ entries os) (collect_objects parse_normalized format_rfc3339 g os c)
  unfolding collect_objects entries
  collect_objects-Holds g [] es c h = subst (λ t. Holds g t c) (sym (append-nil es)) h
  collect_objects-Holds g (o ∷ os) es c h =
      subst
        (λ t. Holds g t (
          collect_objects parse_normalized format_rfc3339 g os
            (collect_images parse_normalized format_rfc3339 g o.meta.name o.images c)))
        (append_assoc es (image_entries o.meta.name o.images) (entries os))
        (collect_objects-Holds g os _ _ (collect_images-Holds g o.meta.name o.images es c h))

  -- A body that reports these entries: in one list, or by the value of a field.
  unfoldable pub Reports : GroupBy → List StatusImage → Body → Type 0
  unfolding group_of lookup
  Reports no_group es (listed items total) = (items ≡ es) × (total ≡ length es)
  Reports no_group es b = ⊥
  Reports g es (grouped text groups total) =
      ((k : Text) → members (lookup k groups) ≡ group_of g k es) × (total ≡ length es)
  Reports g es b = ⊥

  respond-Reports :
      (text : Text) (g : GroupBy) (cisas : List ClusterImageSetAvailability)
      → let (code, body) = respond parse_normalized format_rfc3339 text (some g) (ok cisas) in
        (code ≡ 200) × Reports g (entries cisas) body
  unfolding respond Reports
  respond-Reports text no_group cisas =
      (refl, collect_objects-Holds no_group cisas [] _ (refl, refl))
  respond-Reports text by_cisa cisas =
      (refl, collect_objects-Holds by_cisa cisas [] _ ((λ k. refl), refl))
  respond-Reports text by_registry cisas =
      (refl, collect_objects-Holds by_registry cisas [] _ ((λ k. refl), refl))

  -- For a value of groupBy that is known, the page lists each image whose reference parses once, in the
  -- order of the objects and of their images: in one list, or in the group of its object or of its
  -- registry and in no other; the total is the number of these images.
  pub serve_http-Reports :
      (text : Text) (g : GroupBy) (cisas : List ClusterImageSetAvailability)
      → parse_group_by text ≡ some g
      → let (code, body) = serve_http parse_normalized format_rfc3339 text (ok cisas) in
        (code ≡ 200) × Reports g (entries cisas) body
  unfolding serve_http
  serve_http-Reports text g cisas h = rw h (respond-Reports text g cisas)
