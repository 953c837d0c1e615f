-- ===== src/Availability/Rounds.antt =====
-- Checking the image that is due next, again and again.
use kube_image_keeper.Prelude.{
  ◌≡◌, refl, sym, ap, ◌∙◌, ◌-◌, ◌≤◌, ◌⊎◌, ℕ, suc, ltb, Bool, true, false, List, [], ◌∷◌, Option,
  none, some, Any, All, Bool-cases, inl, inr, subst, if◌then◌else◌, arith,
}
use kube_image_keeper.Text.{Text, text_eq}
use kube_image_keeper.Errors.{Result, ok, err, Result-cases}
use kube_image_keeper.Pods.{lookup}
use kube_image_keeper.Resources.{Time}
use kube_image_keeper.References.{Named, registry_and_path_from_reference}
use kube_image_keeper.Availability.Monitored.{MonitoredImage}
use kube_image_keeper.Availability.Distinct.{IsDistinct}
use kube_image_keeper.Availability.Candidates.{MonitoringCandidate, consider_images}
use kube_image_keeper.Availability.Fairness.{
  Precedes, IsDueBefore, Leads, images_of, consider_images-keeps, consider-Leads,
}
use kube_image_keeper.Availability.Check.{write_monitored_image}
use kube_image_keeper.Availability.Standing.{Stands}
use kube_image_keeper.Availability.Weights.{total, total-write}

-- Not checked since the time.
abbrev pub is_stale : Time → Option Time → Bool
is_stale since none = true
is_stale since (some t) = ltb t since

module _ (parse_normalized : Text → Result Named) (registry : Text) (since : Time) where
  -- Whether the image is one of the registry.
  unfoldable pub is_of : MonitoredImage → Bool
  unfolding registry_and_path_from_reference text_eq
  is_of i = elim (registry_and_path_from_reference parse_normalized i.image) [
    | err _ ↦ false
    | ok (r, _) ↦ text_eq r registry
  ]

  abbrev weight_if : Bool → Option Time → ℕ
  weight_if of_registry t = if of_registry then (if is_stale since t then 1 else 0) else 0

  -- The number of images of the registry that were not checked since the time.
  abbrev pub stale_count : List MonitoredImage → ℕ
  stale_count is = total (λ i. weight_if (is_of i) i.last_monitor) is

  images_of-is_of :
      (i : MonitoredImage) (is seen : List MonitoredImage)
      → images_of parse_normalized registry (i ∷ is) seen
        ≡ images_of parse_normalized registry is (if is_of i then i ∷ seen else seen)
  unfolding images_of is_of
  images_of-is_of i is seen =
      elim (Result-cases (registry_and_path_from_reference parse_normalized i.image)) [
        | inl (p, q) ↦ rw (q, is_of) refl
        | inr (e, q) ↦ rw (q, is_of) refl
      ]

  All-of_none :
      (P : MonitoredImage → Type 0) (seen : List MonitoredImage)
      → All P (images_of parse_normalized registry [] seen)
      → All P seen
  unfolding images_of
  All-of_none P seen h = h

  Any-of_none :
      (P : MonitoredImage → Type 0) (seen : List MonitoredImage)
      → Any P (images_of parse_normalized registry [] seen)
      → Any P seen
  unfolding images_of
  Any-of_none P seen h = h

  All-of :
      (P : MonitoredImage → Type 0) (is seen : List MonitoredImage)
      → All P (images_of parse_normalized registry is seen)
      → All (λ i. is_of i ≡ true → P i) is × All P seen
  All-of P [] seen h = (tt, All-of_none P seen h)
  All-of P (i ∷ is) seen h =
      let (rest, before) =
        All-of P is (if is_of i then i ∷ seen else seen)
          (subst (λ l. All P l) (images_of-is_of i is seen) h) in
      elim (Bool-cases (is_of i)) [
        | inl q ↦
            let before' = subst (λ b. All P (if b then i ∷ seen else seen)) q before in
            ((λ z. before'.0, rest), before'.1)
        | inr q ↦
            let before' = subst (λ b. All P (if b then i ∷ seen else seen)) q before in
            ((λ z. let clash : true ≡ false = sym z ∙ q in cc, rest), before')
      ]

  Any-of :
      (P : MonitoredImage → Type 0) (is seen : List MonitoredImage)
      → Any P (images_of parse_normalized registry is seen)
      → Any (λ i. (is_of i ≡ true) × P i) is ⊎ Any P seen
  Any-of P [] seen h = inr (Any-of_none P seen h)
  Any-of P (i ∷ is) seen h =
      elim (Any-of P is (if is_of i then i ∷ seen else seen)
        (subst (λ l. Any P l) (images_of-is_of i is seen) h)) [
          | inl later ↦ inl (inr later)
          | inr before ↦ elim (Bool-cases (is_of i)) [
            | inl q ↦ elim (subst (λ b. Any P (if b then i ∷ seen else seen)) q before) [
              | inl here ↦ inl (inl (q, here))
              | inr earlier ↦ inr earlier
            ]
            | inr q ↦ inr (subst (λ b. Any P (if b then i ∷ seen else seen)) q before)
          ]
        ]

  weightless :
      (of_registry : Bool) (t u : Option Time)
      → is_stale since t ≡ false
      → (of_registry ≡ true → Precedes t u)
      → weight_if of_registry u ≡ 0
  weightless false t u h p = refl
  weightless true none u h p = cc
  weightless true (some t) none h p = absurd (p refl)
  weightless true (some t) (some u) h p = ground (arith, h, p refl)

  -- Where the image that is due first is not stale, none is.
  none_stale :
      (c : MonitoringCandidate) (is : List MonitoredImage)
      → is_stale since c.last_monitor ≡ false
      → All (λ i. is_of i ≡ true → IsDueBefore c i) is
      → stale_count is ≡ 0
  none_stale c [] h a = refl
  none_stale c (i ∷ is) h a = omega (
    arith,
    weightless (is_of i) c.last_monitor i.last_monitor h (λ q. (a.0 q).0),
    none_stale c is h a.1,
  )

  candidate_weight :
      (c : MonitoringCandidate) (is : List MonitoredImage)
      → Any (λ i. (is_of i ≡ true) × Stands c i) is
      → Any
          (λ i.
            (i.image ≡ c.image_name)
            × (weight_if (is_of i) i.last_monitor ≡ weight_if true c.last_monitor))
          is
  candidate_weight c [] h = absurd h
  candidate_weight c (i ∷ is) (inl (q, (e, l))) =
      inl (e, ap (λ b. weight_if b i.last_monitor) q ∙ ap (weight_if true) l)
  candidate_weight c (i ∷ is) (inr h) = inr (candidate_weight c is h)

  -- One check: the candidate that the loop chooses is checked at a time that is not before, and written.
  pub data Checked : List MonitoredImage → List MonitoredImage → Type 0 where
    checked :
        {is : List MonitoredImage} (c : MonitoringCandidate) (new : MonitoredImage) (now : Time)
        → IsDistinct is
        → lookup registry (consider_images parse_normalized 0 is []) ≡ some c
        → new.last_monitor ≡ some now
        → since ≤ now
        → Checked is (write_monitored_image c.image_name new is)

  -- So many checks, one after the other.
  pub data Checks : ℕ → List MonitoredImage → List MonitoredImage → Type 0 where
    done : {is : List MonitoredImage} → Checks 0 is is
    next :
        {n : ℕ} {is js ks : List MonitoredImage}
        → Checked is js
        → Checks n js ks
        → Checks (suc n) is ks

  weight_stale : (t : Option Time) → is_stale since t ≡ true → weight_if true t ≡ 1
  weight_stale t h = rw h refl

  fresh_weight :
      (b : Bool) (new : MonitoredImage) (now : Time)
      → new.last_monitor ≡ some now
      → since ≤ now
      → weight_if b new.last_monitor ≡ 0
  fresh_weight b new now e h = rw e (ground (arith, h))

  stale_count-Checked :
      {is js : List MonitoredImage} → Checked is js → stale_count js ≤ stale_count is - 1
  unfolding lookup
  stale_count-Checked (checked {is = is} c new now d h e t) =
      let leads =
        subst (λ o. Leads o (images_of parse_normalized registry is [])) h
          (consider_images-keeps parse_normalized registry Leads consider-Leads 0 is [] [] tt) in
      let due = (All-of (IsDueBefore c) is [] leads.0).0 in
      let among : Any (λ i. (is_of i ≡ true) × Stands c i) is =
        elim (Any-of (Stands c) is [] leads.1) [ inl m ↦ m | inr m ↦ absurd m ] in
      let g : MonitoredImage → ℕ = λ i. weight_if (is_of i) i.last_monitor in
      let written =
        total-write g c.image_name new (weight_if true c.last_monitor) is d
          (candidate_weight c is among) in
      let fresh = fresh_weight (is_of new) new now e t in
      elim (Bool-cases (is_stale since c.last_monitor)) [
        | inl q ↦ omega (arith, written, fresh, weight_stale c.last_monitor q)
        | inr q ↦ omega (arith, written, fresh, none_stale c is q due)
      ]

  -- After as many checks of the image that is due next as there are images of the registry that were not
  -- checked since a time, each of its images was checked since then.
  pub stale_count-Checks :
      {n : ℕ} {is js : List MonitoredImage}
      → Checks n is js
      → stale_count is ≤ n
      → stale_count js ≡ 0
  stale_count-Checks done h = omega (arith, h)
  stale_count-Checks (next s r) h = stale_count-Checks r (omega (arith, stale_count-Checked s, h))
