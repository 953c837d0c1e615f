-- ===== src/Text.antt =====
-- Go strings as lists of bytes, with what the program uses of the packages `strings` and `path`.
pub mod Laws
use kube_image_keeper.Prelude.{
  ◌≡◌, refl, ℕ, Bool, true, false, ◌&&◌, List, [], ◌∷◌, ◌++◌, foldl, reverse, Option, none, some,
  ◌==◌, if◌then◌else◌,
}
use Prim.Native.Char.{code}
use Prim.Native.String.{String}

abbrev pub Text : Type 0
Text = List ℕ

-- The bytes of an ASCII literal.
abbrev pub codes : String → Text
codes String.[] = []
codes (String.◌∷◌ c s) = code c ∷ codes s

unfoldable pub text_eq : Text → Text → Bool
text_eq [] [] = true
text_eq [] (y ∷ ys) = false
text_eq (x ∷ xs) [] = false
text_eq (x ∷ xs) (y ∷ ys) = (x == y) && text_eq xs ys

abbrev pub is_empty : Text → Bool
is_empty [] = true
is_empty (x ∷ xs) = false

-- strings.CutPrefix
unfoldable pub cut_prefix : Text → Text → Option Text
cut_prefix s [] = some s
cut_prefix [] (p ∷ ps) = none
cut_prefix (x ∷ xs) (p ∷ ps) = let rest = cut_prefix xs ps in if x == p then rest else none

-- strings.HasPrefix
unfoldable pub has_prefix : Text → Text → Bool
unfolding cut_prefix
has_prefix s p = elim (cut_prefix s p) [ some _ ↦ true | none ↦ false ]

-- strings.TrimPrefix
unfoldable pub trim_prefix : Text → Text → Text
unfolding cut_prefix
trim_prefix s p = elim (cut_prefix s p) [ some rest ↦ rest | none ↦ s ]

-- strings.Contains for a text of one byte
unfoldable pub contains_byte : Text → ℕ → Bool
contains_byte [] c = false
contains_byte (x ∷ xs) c = if x == c then true else contains_byte xs c

-- strings.SplitN(s, c, 2): the part after the separator is `none` where there is no separator.
unfoldable pub split_first : ℕ → Text → Text × Option Text
split_first c [] = ([], none)
split_first c (x ∷ xs) =
    let (before, after) = split_first c xs in if x == c then ([], some xs) else (x ∷ before, after)

-- The first part with a byte put in front.
abbrev pub onto_first : ℕ → List Text → List Text
onto_first x [] = (x ∷ []) ∷ []
onto_first x (t ∷ ts) = (x ∷ t) ∷ ts

-- strings.Split by one byte
unfoldable pub split : ℕ → Text → List Text
split c [] = [] ∷ []
split c (x ∷ xs) = let rest = split c xs in if x == c then [] ∷ rest else onto_first x rest

-- strings.Join by one byte
unfoldable pub join : ℕ → List Text → Text
join c [] = []
join c (t ∷ []) = t
join c (t ∷ u ∷ ts) = t ++ c ∷ join c (u ∷ ts)

abbrev pub slash : ℕ
slash = b'/'

abbrev pub dot_dot : Text
dot_dot = b'.' ∷ b'.' ∷ []

-- A ".." element of path.Clean, on the elements kept so far, the last one first.
unfoldable pub backtrack : Bool → List Text → List Text
unfolding text_eq
backtrack true [] = []
backtrack false [] = dot_dot ∷ []
backtrack rooted (top ∷ rest) = if text_eq top dot_dot then dot_dot ∷ top ∷ rest else rest

-- One element of path.Clean.
unfoldable pub clean_step : Bool → List Text → Text → List Text
unfolding text_eq backtrack
clean_step rooted kept e =
    if is_empty e
    then kept
    else if text_eq e (b'.' ∷ [])
    then kept
    else if text_eq e dot_dot
    then backtrack rooted kept
    else e ∷ kept

is_rooted : Text → Bool
is_rooted [] = false
is_rooted (x ∷ xs) = x == slash

or_dot : Text → Text
or_dot [] = b'.' ∷ []
or_dot (x ∷ xs) = x ∷ xs

-- path.Clean
unfoldable pub clean : Text → Text
unfolding split join clean_step is_rooted or_dot
clean p =
    let rooted = is_rooted p in
    let body = join slash (reverse (foldl (clean_step rooted) [] (split slash p))) in
    if rooted then slash ∷ body else or_dot body

non_empty : List Text → List Text
non_empty [] = []
non_empty (t ∷ ts) = let rest = non_empty ts in if is_empty t then rest else t ∷ rest

clean_joined : List Text → Text
unfolding clean join
clean_joined [] = []
clean_joined (t ∷ ts) = clean (join slash (t ∷ ts))

-- path.Join
unfoldable pub path_join : List Text → Text
unfolding clean_joined non_empty
path_join ts = clean_joined (non_empty ts)

path_join_cleans :
    path_join (codes "registry.io" ∷ codes "/mirror/" ∷ codes "library/nginx:1" ∷ [])
    ≡ codes "registry.io/mirror/library/nginx:1"
unfolding path_join
path_join_cleans = refl

path_join_backtracks : path_join (codes "a.io" ∷ [] ∷ codes "../b/./c" ∷ []) ≡ codes "b/c"
unfolding path_join
path_join_backtracks = refl
