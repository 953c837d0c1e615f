-- ===== src/Prelude/Int.antt =====
-- Go's signed integers over the native numbers: `int` and `time.Duration` are 64 bits wide.
use Prim.Native.Nat.{ℕ, suc, ◌+◌, ◌-◌, ◌^◌, ◌≤◌, compare, Ordering}
use mathlib.Core.Bool.{Bool}
use kube_image_keeper.Prelude.Tests.{ltb, leb, if◌then◌else◌}

-- `negsuc n` is -(n + 1).
pub data ℤ : Type 0 where
  pos : ℕ → ℤ
  negsuc : ℕ → ℤ

abbrev pub pos_part : ℤ → ℕ
pos_part (pos n) = n
pos_part (negsuc n) = 0

abbrev pub neg_part : ℤ → ℕ
neg_part (pos n) = 0
neg_part (negsuc n) = suc n

-- a - b, as an integer.
abbrev pub sub_ℕ : ℕ → ℕ → ℤ
sub_ℕ a b = if leb b a then pos (a - b) else negsuc (b - a - 1)

infixl 65 ◌-ℤ◌
infix 50 ◌≤ℤ◌
unfoldable pub ◌-ℤ◌ : ℤ → ℤ → ℤ
a -ℤ b = sub_ℕ (pos_part a + neg_part b) (neg_part a + pos_part b)

abbrev pub ◌≤ℤ◌ : ℤ → ℤ → Type 0
a ≤ℤ b = pos_part a + neg_part b ≤ pos_part b + neg_part a

abbrev pub compare_ℤ : ℤ → ℤ → Ordering
compare_ℤ a b = compare (pos_part a + neg_part b) (pos_part b + neg_part a)

abbrev pub ltb_ℤ : ℤ → ℤ → Bool
ltb_ℤ a b = ltb (pos_part a + neg_part b) (pos_part b + neg_part a)

-- math.MinInt and math.MaxInt64
abbrev pub min_int : ℤ
min_int = negsuc (2 ^ 63 - 1)

abbrev pub max_int : ℤ
max_int = pos (2 ^ 63 - 1)

-- The 64-bit difference of two 64-bit values: it wraps around at most once.
unfoldable pub sub_int : ℤ → ℤ → ℤ
unfolding ◌-ℤ◌
sub_int a b =
    let d = a -ℤ b in
    if ltb_ℤ max_int d
    then d -ℤ pos (2 ^ 64)
    else if ltb_ℤ d min_int
    then d -ℤ negsuc (2 ^ 64 - 1)
    else d
