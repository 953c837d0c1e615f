-- ===== src/Histogram.antt =====
-- internal/config/histogram.go: the buckets of a histogram in the configuration. F is float64; its order,
-- its zero and one, its text and the functions of the metrics library that make buckets are parameters.
use kube_image_keeper.Prelude.{
  ◌≡◌, refl, ℕ, suc, Bool, false, not, ◌||◌, List, [], ◌∷◌, ◌++◌, Option, none, some, Option-cases,
  inl, inr, if◌then◌else◌, arith,
}
use kube_image_keeper.Prelude.Int.{ℤ, pos, ltb_ℤ}
use kube_image_keeper.Text.{Text, codes, text_eq, is_empty}
use kube_image_keeper.Errors.{Error, Result, ok, message}

pub record LegacyHistogramConfig (F : Type 0) : Type 0 where
  pub bucket_type : Text
  pub count : ℤ
  pub start : F
  pub factor : F
  pub min : F
  pub max : F
  pub custom : List F

-- float64 and the constructors of buckets, which panic on some arguments.
pub record Floats (F : Type 0) : Type 0 where
  pub zero_float : F
  pub one_float : F
  -- a <= b
  pub at_most : F → F → Bool
  -- %v, %d and %q
  pub show_float : F → Text
  pub show_int : ℤ → Text
  pub quote : Text → Text
  pub exponential_buckets : F → F → ℤ → Result (List F)
  pub exponential_buckets_range : F → F → ℤ → Result (List F)

-- The kinds of buckets that the switches tell apart.
pub data BucketType : Type 0 where
  disabled exponential exponential_range custom_buckets other : BucketType

unfoldable pub bucket_type_of : Text → BucketType
unfolding text_eq
bucket_type_of t =
    if text_eq t (codes "disabled")
    then disabled
    else if is_empty t || text_eq t (codes "exponential")
    then exponential
    else if text_eq t (codes "exponentialRange")
    then exponential_range
    else if text_eq t (codes "custom")
    then custom_buckets
    else other

module _ {F : Type 0} (floats : Floats F) where
  -- The loop over the custom boundaries from index i on, behind the boundary before it.
  unfoldable pub first_unsorted : ℕ → F → List F → Option (ℕ × F × F)
  first_unsorted i before [] = none
  first_unsorted i before (x ∷ xs) =
      let rest = first_unsorted (suc i) x xs in
      if floats.at_most x before then some (i, x, before) else rest

  -- An error that ends with the value.
  abbrev rejected : Text → F → Option Error
  rejected text x = some (message (text ++ codes ", got " ++ floats.show_float x))

  validate_count : LegacyHistogramConfig F → Option Error
  validate_count c =
      if ltb_ℤ c.count (pos 1)
      then some (message (codes "legacy.count must be at least 1, got " ++ floats.show_int c.count))
      else none

  validate_custom : List F → Option Error
  unfolding first_unsorted
  validate_custom [] =
      some (message (codes "legacy.custom must contain at least one bucket boundary"))
  validate_custom (x ∷ xs) = elim (first_unsorted 1 x xs) [
    | none ↦ none
    | some (i, y, before) ↦ some (
        message (
          codes "legacy.custom must be sorted in ascending order, got "
          ++ floats.show_float y
          ++ codes " at index "
          ++ floats.show_int (pos i)
          ++ codes " after "
          ++ floats.show_float before))
  ]

  validate_as : BucketType → LegacyHistogramConfig F → Option Error
  unfolding validate_count validate_custom
  validate_as disabled c = none
  validate_as exponential c =
      if floats.at_most c.start floats.zero_float
      then rejected (codes "legacy.start must be positive") c.start
      else if floats.at_most c.factor floats.one_float
      then rejected (codes "legacy.factor must be greater than 1") c.factor
      else validate_count c
  validate_as exponential_range c =
      if floats.at_most c.min floats.zero_float
      then rejected (codes "legacy.min must be positive") c.min
      else if floats.at_most c.max c.min
      then some (
          message (
            codes "legacy.max must be greater than legacy.min, got max="
            ++ floats.show_float c.max
            ++ codes " min="
            ++ floats.show_float c.min))
      else validate_count c
  validate_as custom_buckets c = validate_custom c.custom
  validate_as other c = some (
      message (
        codes
          "legacy.bucketType must be \"exponential\", \"exponentialRange\", \"custom\", or \"disabled\", got "
        ++ floats.quote c.bucket_type))

  -- LegacyHistogramConfig.Validate
  unfoldable pub validate : LegacyHistogramConfig F → Option Error
  unfolding validate_as bucket_type_of
  validate c = validate_as (bucket_type_of c.bucket_type) c

  buckets_as : BucketType → LegacyHistogramConfig F → Result (List F)
  buckets_as exponential c = floats.exponential_buckets c.start c.factor c.count
  buckets_as exponential_range c = floats.exponential_buckets_range c.min c.max c.count
  buckets_as custom_buckets c = ok c.custom
  buckets_as disabled c = ok []
  buckets_as other c = ok []

  -- LegacyHistogramConfig.Buckets
  unfoldable pub buckets : LegacyHistogramConfig F → Result (List F)
  unfolding buckets_as bucket_type_of
  buckets c = buckets_as (bucket_type_of c.bucket_type) c

  -- LegacyHistogramConfig.Enabled
  unfoldable pub enabled : LegacyHistogramConfig F → Bool
  unfolding text_eq
  enabled c = not (text_eq c.bucket_type (codes "disabled"))

  -- Each boundary is above the one before it.
  abbrev pub IsAscending : List F → Type 0
  IsAscending [] = Unit
  IsAscending (x ∷ []) = Unit
  IsAscending (x ∷ y ∷ ys) = (floats.at_most y x ≡ false) × IsAscending (y ∷ ys)

  first_unsorted-IsAscending :
      (i : ℕ) (x : F) (xs : List F) → first_unsorted i x xs ≡ none → IsAscending (x ∷ xs)
  unfolding first_unsorted
  first_unsorted-IsAscending i x [] h = tt
  first_unsorted-IsAscending i x (y ∷ ys) h =
      ground (arith, first_unsorted-IsAscending (suc i) y ys)

  validate_custom-IsAscending : (bs : List F) → validate_custom bs ≡ none → IsAscending bs
  unfolding validate_custom
  validate_custom-IsAscending [] = λ h. cc
  validate_custom-IsAscending (x ∷ xs) = elim (Option-cases (first_unsorted 1 x xs)) [
    | inl q ↦ λ h. first_unsorted-IsAscending 1 x xs q
    | inr (e, q) ↦ rw (q, validate_custom) (λ h. cc)
  ]

  -- The result is a list of this kind.
  abbrev pub Yields : (List F → Type 0) → Result (List F) → Type 0
  Yields P r = (bs : List F) × (r ≡ ok bs) × P bs

  module _
      (makes_exponential : (start factor : F) (count : ℤ)
        → floats.at_most start floats.zero_float ≡ false
        → floats.at_most factor floats.one_float ≡ false
        → ltb_ℤ count (pos 1) ≡ false
        → Yields IsAscending (floats.exponential_buckets start factor count))
      (makes_range : (low high : F) (count : ℤ)
        → floats.at_most low floats.zero_float ≡ false
        → floats.at_most high low ≡ false
        → ltb_ℤ count (pos 1) ≡ false
        → Yields IsAscending (floats.exponential_buckets_range low high count)) where
    buckets_as-IsAscending :
        (t : BucketType) (c : LegacyHistogramConfig F)
        → validate_as t c ≡ none
        → Yields IsAscending (buckets_as t c)
    unfolding validate_as buckets_as validate_count validate_custom
    buckets_as-IsAscending disabled c h = ([], refl, tt)
    buckets_as-IsAscending exponential c h =
        ground (arith, makes_exponential c.start c.factor c.count)
    buckets_as-IsAscending exponential_range c h = ground (arith, makes_range c.min c.max c.count)
    buckets_as-IsAscending custom_buckets c h =
        (c.custom, refl, validate_custom-IsAscending c.custom h)
    buckets_as-IsAscending other c h = cc

    -- Where the library makes ascending buckets of arguments that it documents as valid, a configuration
    -- that passes the validation has buckets without a panic, and they are ascending.
    pub buckets-IsAscending :
        (c : LegacyHistogramConfig F) → validate c ≡ none → Yields IsAscending (buckets c)
    unfolding validate buckets
    buckets-IsAscending c h = buckets_as-IsAscending (bucket_type_of c.bucket_type) c h
