-- ===== src/Registry/Platforms.antt =====
-- internal/registry/registry.go: the platforms of an image that is copied.
-- `satisfies` is v1.Platform.Satisfies, `platform_string` the text of a platform in an error.
use kube_image_keeper.Prelude.{
  Bool, true, not, List, [], ◌∷◌, ◌++◌, map, Option, none, some, contains_func, delete_func,
  if◌then◌else◌,
}
use kube_image_keeper.Text.{Text, codes}
use kube_image_keeper.Errors.{Error, Result, ok, err, message, ◌>>=◌}

-- The source of a copy: an index, or one image with the platform of its configuration.
pub data Source (P M : Type 0) : Type 0 where
  index : List (Option P × M) → Source P M
  image : Option P → M → Source P M

option_list : {P : Type 0} → Option P → List P
option_list none = []
option_list (some p) = p ∷ []

-- strings.Join
join_texts : Text → List Text → Text
join_texts separator [] = []
join_texts separator (t ∷ []) = t
join_texts separator (t ∷ u ∷ ts) = t ++ separator ++ join_texts separator (u ∷ ts)

module _ {P : Type 0} (satisfies : P → P → Bool) (platform_string : P → Text) where
  -- matchPlatforms: those that are available, and those that are missing
  unfoldable pub match_platforms : List P → List P → List P × List P
  match_platforms [] available = ([], [])
  match_platforms (p ∷ ps) available =
      let (matched, missing) = match_platforms ps available in
      if contains_func available (λ src. satisfies src p)
      then (p ∷ matched, missing)
      else (matched, p ∷ missing)

  -- noMatchingPlatformError
  no_matching_platform_error : List P → Error
  unfolding join_texts
  no_matching_platform_error ps = message (
      codes "none of the configured platforms are available in the source image: "
      ++ join_texts (codes ", ") (map platform_string ps))

  -- The platforms that matched are enough if there is one.
  unfoldable pub if_any : List P → List P → Result (Unit {0})
  unfolding no_matching_platform_error
  if_any configured [] = err (no_matching_platform_error configured)
  if_any configured (p ∷ ps) = ok tt

  -- checkPlatforms
  unfoldable pub check_platforms : List P → List P → Result (Unit {0})
  unfolding match_platforms if_any
  check_platforms configured available = if_any configured (match_platforms configured available).0

  module _ {M : Type 0} where
    -- The test of RemoveManifests.
    unfoldable pub removes : List P → Option P × M → Bool
    removes configured (none, _) = true
    removes configured (some src, _) = not (contains_func configured (λ p. satisfies src p))

    unfoldable pub available_in : List (Option P × M) → List P
    available_in [] = []
    available_in ((none, _) ∷ ms) = available_in ms
    available_in ((some p, _) ∷ ms) = p ∷ available_in ms

    -- What CopyImage writes, where the reads of the source succeed.
    unfoldable pub copied : List P → Source P M → Result (Source P M)
    unfolding removes available_in option_list check_platforms
    copied configured (index manifests) = do
      let filtered = delete_func manifests (λ m. removes configured m)
      _ ← check_platforms configured (available_in filtered)
      ok (index filtered)
    copied configured (image platform m) = do
      _ ← check_platforms configured (option_list platform)
      ok (image platform m)
