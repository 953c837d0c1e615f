-- ===== src/References.antt =====
-- internal/internal.go: image references. `reference.ParseNormalizedNamed` is a parameter: it returns
-- the normalised reference, split at its first slash into the domain and the rest.
use kube_image_keeper.Prelude.{Bool, ◌∷◌, ◌++◌, Option, none, some}
use kube_image_keeper.Text.{Text, codes, slash, split_first}
use kube_image_keeper.Errors.{Result, ok, err, message, ◌>>=◌}
use kube_image_keeper.Filters.{Filter, match}

pub record Named : Type 0 where
  pub domain : Text
  pub remainder : Text

-- named.String()
abbrev pub named_text : Named → Text
named_text n = n.domain ++ slash ∷ n.remainder

-- parts[0], parts[1] of a SplitN; the index 1 is out of range where there is no slash.
two_parts : Text × Option Text → Result (Text × Text)
two_parts (before, some after) = ok (before, after)
two_parts (before, none) = err (message (codes "panic: index out of range"))

module _ (parse_normalized : Text → Result Named) where
  unfoldable pub registry_and_path_from_reference : Text → Result (Text × Text)
  unfolding two_parts split_first
  registry_and_path_from_reference image = do
    named ← parse_normalized image
    two_parts (split_first slash (named_text named))

  unfoldable pub normalize_and_match : Filter → Text → Result (Named × Bool)
  unfolding match
  normalize_and_match f image = do
    named ← parse_normalized image
    ok (named, match f (named_text named))
