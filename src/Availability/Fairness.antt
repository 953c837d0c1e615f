-- ===== src/Availability/Fairness.antt =====
-- Which image of a registry monitoringCandidatesByRegistry chooses.
use kube_image_keeper.Prelude.{
  subst, sym, ℕ, suc, ◌≤◌, List, [], ◌∷◌, Option, none, some, All, All-imp, Any, Bool-cases, inl,
  inr, if◌then◌else◌, arith,
}
use kube_image_keeper.Text.{Text, text_eq}
use kube_image_keeper.Text.Laws.{text_eq_sound}
use kube_image_keeper.Errors.{Result, ok, err, Result-cases}
use kube_image_keeper.Pods.{StringMap, lookup, insert}
use kube_image_keeper.Pods.Laws.{lookup-insert_same, lookup-insert_other}
use kube_image_keeper.Filters.{Regexp, Selector}
use kube_image_keeper.Resources.{Time}
use kube_image_keeper.References.{Named, registry_and_path_from_reference}
use kube_image_keeper.Availability.Monitored.{
  MonitoredImage, ClusterImageSetAvailability, availability_pod_matcher, availability_image_filter,
}
use kube_image_keeper.Availability.Standing.{Stands, consider-Stands}
use kube_image_keeper.Availability.Candidates.{
  MonitoringCandidate, consider, consider_images, monitoring_candidates_by_registry,
}

-- At least as overdue: an image that was never checked is more overdue than any other.
abbrev pub Precedes : Option Time → Option Time → Type 0
Precedes none t = Unit
Precedes (some t) none = ⊥
Precedes (some t) (some u) = t ≤ u

abbrev pub time_or_zero : Option Time → Time
time_or_zero none = 0
time_or_zero (some t) = t

-- The candidate is at least as overdue as the image, and knows of its check.
abbrev pub IsDueBefore : MonitoringCandidate → MonitoredImage → Type 0
IsDueBefore c i =
    Precedes c.last_monitor i.last_monitor × (time_or_zero i.last_monitor ≤ c.registry_last_monitor)

-- A candidate is there exactly where an image is, it is one of them, and it is due before all of them.
abbrev pub Leads : Option MonitoringCandidate → List MonitoredImage → Type 0
Leads none [] = Unit
Leads none (i ∷ is) = ⊥
Leads (some c) is = All (IsDueBefore c) is × Any (Stands c) is

consider-new :
    (n : ℕ) (i : MonitoredImage) (c : Option MonitoringCandidate) → IsDueBefore (consider n i c) i
unfolding consider
consider-new n i none = ground arith
consider-new n i (some c) = ground arith

consider-old :
    (n : ℕ) (i : MonitoredImage) (c : MonitoringCandidate) (j : MonitoredImage)
    → IsDueBefore c j
    → IsDueBefore (consider n i (some c)) j
unfolding consider
consider-old n i c j h = ground arith

pub consider-Leads :
    (n : ℕ) (i : MonitoredImage) (c : Option MonitoringCandidate) (is : List MonitoredImage)
    → Leads c is
    → Leads (some (consider n i c)) (i ∷ is)
consider-Leads n i none [] h = ((consider-new n i none, tt), consider-Stands n i none [] tt)
consider-Leads n i none (j ∷ is) h = absurd h
consider-Leads n i (some c) is h = (
  (consider-new n i (some c), All-imp (IsDueBefore c) (consider-old n i c) is h.0),
  consider-Stands n i (some c) is h.1,
)

module _ (parse_normalized : Text → Result Named) (registry : Text) where
  -- The images of the registry, put before those that are there.
  unfoldable pub images_of : List MonitoredImage → List MonitoredImage → List MonitoredImage
  unfolding registry_and_path_from_reference text_eq
  images_of [] seen = seen
  images_of (i ∷ is) seen =
      images_of is (elim (registry_and_path_from_reference parse_normalized i.image) [
        | err _ ↦ seen
        | ok (r, _) ↦ if text_eq r registry then i ∷ seen else seen
      ])

  -- What each image of the registry keeps of the candidate and the images so far, the loop keeps.
  pub consider_images-keeps :
      (Q : Option MonitoringCandidate → List MonitoredImage → Type 0)
      → ((n : ℕ) (i : MonitoredImage) (c : Option MonitoringCandidate) (is : List MonitoredImage)
          → Q c is
          → Q (some (consider n i c)) (i ∷ is))
      → (n : ℕ) (is seen : List MonitoredImage) (m : StringMap MonitoringCandidate)
      → Q (lookup registry m) seen
      → Q (lookup registry (consider_images parse_normalized n is m)) (images_of is seen)
  unfolding consider_images images_of
  consider_images-keeps Q step n [] seen m h = h
  consider_images-keeps Q step n (i ∷ is) seen m h =
      elim (Result-cases (registry_and_path_from_reference parse_normalized i.image)) [
        | inr (e, q) ↦ rw q (consider_images-keeps Q step n is seen m h)
        | inl (p, q) ↦ rw q (elim (Bool-cases (text_eq p.0 registry)) [
          | inr q' ↦ rw q' (
              consider_images-keeps Q step n is seen (insert p.0 (consider n i (lookup p.0 m)) m)
                (rw (lookup-insert_other p.0 registry (consider n i (lookup p.0 m)) m q') h))
          | inl q' ↦
              let c = consider n i (lookup p.0 m) in
              let e = text_eq_sound p.0 registry q' in
              rw q' (
                consider_images-keeps Q step n is (i ∷ seen) (insert p.0 c m) (
                  subst (λ r. Q (lookup r (insert p.0 c m)) (i ∷ seen)) e
                    (rw (lookup-insert_same p.0 c m)
                      (step n i (lookup p.0 m) seen (subst (λ r. Q (lookup r m) seen) (sym e) h)))))
        ])
      ]

  module _ (compile : Text → Result Regexp) (parse : Text → Result Selector) where
    -- The images of the registry in the objects whose filters compile.
    unfoldable pub monitored_images :
        List ClusterImageSetAvailability → List MonitoredImage → List MonitoredImage
    unfolding availability_pod_matcher availability_image_filter images_of
    monitored_images [] seen = seen
    monitored_images (c ∷ cs) seen =
        monitored_images cs (elim (availability_pod_matcher compile parse c) [
          | err _ ↦ seen
          | ok _ ↦ elim (availability_image_filter compile parse c) [
            | err _ ↦ seen
            | ok _ ↦ images_of c.images seen
          ]
        ])

    candidates-Leads :
        (n : ℕ) (cs : List ClusterImageSetAvailability) (seen : List MonitoredImage)
        (m : StringMap MonitoringCandidate)
        → Leads (lookup registry m) seen
        → Leads
            (lookup registry
              (monitoring_candidates_by_registry parse_normalized compile parse n cs m))
            (monitored_images cs seen)
    unfolding monitoring_candidates_by_registry monitored_images
    candidates-Leads n [] seen m h = h
    candidates-Leads n (c ∷ cs) seen m h =
        elim (Result-cases (availability_pod_matcher compile parse c)) [
          | inr (e, q) ↦ rw q (candidates-Leads (suc n) cs seen m h)
          | inl (f, q) ↦ elim (Result-cases (availability_image_filter compile parse c)) [
            | inr (e, q') ↦ rw (q, q') (candidates-Leads (suc n) cs seen m h)
            | inl (g, q') ↦
                rw (q, q')
                  (candidates-Leads (suc n) cs (images_of c.images seen)
                    (consider_images parse_normalized n c.images m)
                    (consider_images-keeps Leads consider-Leads n c.images seen m h))
          ]
        ]

    -- A registry has a candidate exactly when an object with a filter that compiles monitors an image of
    -- it. The candidate has the name and the last check of one of these images, it is at least as overdue
    -- as each of them, one that was never checked being the most overdue, and the check it remembers for
    -- the registry is not before any of theirs.
    pub monitoring_candidates_by_registry-Leads :
        (cs : List ClusterImageSetAvailability)
        → Leads
            (lookup registry
              (monitoring_candidates_by_registry parse_normalized compile parse 0 cs []))
            (monitored_images cs [])
    unfolding lookup
    monitoring_candidates_by_registry-Leads cs = candidates-Leads 0 cs [] [] tt
