-- ===== src/Availability/Standing.antt =====
-- The candidate of a registry is one of its images.
use kube_image_keeper.Prelude.{
  ◌≡◌, refl, ◌∙◌, ◌⊎◌, ℕ, List, [], ◌∷◌, Option, none, some, Any, inl, inr, arith,
}
use kube_image_keeper.Availability.Monitored.{MonitoredImage}
use kube_image_keeper.Availability.Candidates.{MonitoringCandidate, consider}

-- The candidate is one of the images.
abbrev pub Stands : MonitoringCandidate → MonitoredImage → Type 0
Stands c i = (i.image ≡ c.image_name) × (i.last_monitor ≡ c.last_monitor)

abbrev pub StandsAmong : Option MonitoringCandidate → List MonitoredImage → Type 0
StandsAmong none is = Unit
StandsAmong (some c) is = Any (Stands c) is

consider-either :
    (n : ℕ) (i : MonitoredImage) (c : MonitoringCandidate)
    → Stands (consider n i (some c)) i
      ⊎ ((c.image_name ≡ (consider n i (some c)).image_name)
          × (c.last_monitor ≡ (consider n i (some c)).last_monitor))
unfolding consider
consider-either n i c = ground arith

same-StandsAmong :
    (c d : MonitoringCandidate) (is : List MonitoredImage)
    → c.image_name ≡ d.image_name
    → c.last_monitor ≡ d.last_monitor
    → Any (Stands c) is
    → Any (Stands d) is
same-StandsAmong c d [] h k m = absurd m
same-StandsAmong c d (i ∷ is) h k (inl (x, y)) = inl (x ∙ h, y ∙ k)
same-StandsAmong c d (i ∷ is) h k (inr m) = inr (same-StandsAmong c d is h k m)

first-Stands :
    (n : ℕ) (i : MonitoredImage) (is : List MonitoredImage)
    → Any (Stands (consider n i none)) (i ∷ is)
unfolding consider
first-Stands n i is = inl (refl, refl)

pub consider-Stands :
    (n : ℕ) (i : MonitoredImage) (c : Option MonitoringCandidate) (is : List MonitoredImage)
    → StandsAmong c is
    → StandsAmong (some (consider n i c)) (i ∷ is)
consider-Stands n i none is h = first-Stands n i is
consider-Stands n i (some c) is h = elim (consider-either n i c) [
  | inl s ↦ inl s
  | inr (x, y) ↦ inr (same-StandsAmong c (consider n i (some c)) is x y h)
]
