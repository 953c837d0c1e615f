-- ===== src/Availability/Weights.antt =====
-- Sums over the images of a status, and what a write of one image does to them.
use kube_image_keeper.Prelude.{
  ◌≡◌, sym, ◌∙◌, ◌+◌, ℕ, true, false, List, [], ◌∷◌, Any, Bool-cases, inl, inr, subst, arith,
}
use kube_image_keeper.Text.{Text, text_eq}
use kube_image_keeper.Text.Laws.{text_eq_refl, text_eq_sound}
use kube_image_keeper.Availability.Monitored.{MonitoredImage}
use kube_image_keeper.Availability.Sync.{tracked}
use kube_image_keeper.Availability.Distinct.{IsDistinct}
use kube_image_keeper.Availability.Check.{write_monitored_image}

-- The sum of the weights of the images.
abbrev pub total : (MonitoredImage → ℕ) → List MonitoredImage → ℕ
total g [] = 0
total g (i ∷ is) = g i + total g is

named_tracked :
    (g : MonitoredImage → ℕ) (name : Text) (k : ℕ) (is : List MonitoredImage)
    → Any (λ i. (i.image ≡ name) × (g i ≡ k)) is
    → tracked is name ≡ true
named_tracked g name k [] h = absurd h
named_tracked g name k (i ∷ is) (inl (e, q)) =
    ground (arith, e, text_eq_refl name, text_eq_refl i.image)
named_tracked g name k (i ∷ is) (inr h) = ground (arith, named_tracked g name k is h)

-- One image in place of the first with its name.
pub total-write :
    (g : MonitoredImage → ℕ) (name : Text) (new : MonitoredImage) (k : ℕ) (is : List MonitoredImage)
    → IsDistinct is
    → Any (λ i. (i.image ≡ name) × (g i ≡ k)) is
    → total g (write_monitored_image name new is) + k ≡ total g is + g new
unfolding write_monitored_image
total-write g name new k [] d h = absurd h
total-write g name new k (i ∷ is) d (inl (e, q)) =
    let same : text_eq i.image name ≡ true =
      subst (λ t. text_eq i.image t ≡ true) e (text_eq_refl i.image) in
    rw same (omega (arith, q))
total-write g name new k (i ∷ is) d (inr h) = elim (Bool-cases (text_eq i.image name)) [
  | inl same ↦
      let again : tracked is i.image ≡ true =
        subst (λ t. tracked is t ≡ true) (sym (text_eq_sound i.image name same))
          (named_tracked g name k is h) in
      let clash : true ≡ false = sym again ∙ d.0 in cc
  | inr other ↦ rw other (omega (arith, total-write g name new k is d.1 h))
]
