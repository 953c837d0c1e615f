-- ===== src/Mirroring/Due.antt =====
-- The time until an unused mirror is looked at again.
use kube_image_keeper.Prelude.{◌≡◌, ◌+◌, ◌-◌, ◌^◌, ◌≤◌, ◌<◌, ℕ, zero, suc, true, arith}
use kube_image_keeper.Prelude.Int.{ℤ, pos, negsuc, ◌≤ℤ◌, ltb_ℤ, sub_int, ◌-ℤ◌}
use kube_image_keeper.Mirroring.Clock.{since, delete_after}
use kube_image_keeper.Mirroring.Loops.{sooner}

-- A positive time that ends by the bound.
abbrev pub IsDueBy : ℕ → ℤ → Type 0
IsDueBy bound q = (ltb_ℤ (pos 0) q ≡ true) × (q ≤ℤ pos bound)

pub sooner-nonneg : (q left : ℤ) → pos 0 ≤ℤ q → ltb_ℤ (pos 0) left ≡ true → pos 0 ≤ℤ sooner q left
unfolding sooner
sooner-nonneg (pos zero) left h k = ground arith
sooner-nonneg (pos (suc n)) left h k = ground arith
sooner-nonneg (negsuc n) left h k = absurd (omega arith)

pub sooner-earlier :
    (q left : ℤ) (b : ℕ) → ltb_ℤ (pos 0) left ≡ true → IsDueBy b q → IsDueBy b (sooner q left)
unfolding sooner
sooner-earlier (pos zero) left b k h = ground arith
sooner-earlier (pos (suc n)) left b k h = ground arith
sooner-earlier (negsuc n) left b k h = ground arith

pub sooner-IsDueBy : (q left : ℤ) (b : ℕ) → pos 0 ≤ℤ q → IsDueBy b left → IsDueBy b (sooner q left)
unfolding sooner
sooner-IsDueBy (pos zero) left b h k = ground arith
sooner-IsDueBy (pos (suc n)) left b h k = ground arith
sooner-IsDueBy (negsuc n) left b h k = absurd (omega arith)

-- Within the retention the time that is left is positive, and ends when the retention does.
pub delete_after-IsDueBy :
    (r start now unused : ℕ)
    → start ≤ now
    → unused ≤ now
    → now < unused + r
    → r < 2 ^ 63
    → IsDueBy (unused + r - start) (delete_after (pos r) now unused)
unfolding delete_after since sub_int ◌-ℤ◌
delete_after-IsDueBy r start now unused h k l m = ground arith
