-- ===== src/GoText.antt =====
-- What the code uses of Go's `strings` and `path/filepath`, on ASCII text (any other code point is
-- a letter that has no other case and is no space). A path separator is `/`.
pub mod Laws
use sade_safe_media_delivery.Base.{
  Bool, List, Option, Text, [], codes, contains_byte, false, if◌then◌else◌, is_empty, leb, length,
  map, none, some, str_eq, suc, true, zero, ℕ, ◌&&◌, ◌++◌, ◌+◌, ◌-◌, ◌==◌, ◌||◌, ◌∷◌,
}

-- unicode.IsSpace
unfoldable pub is_space : ℕ → Bool
is_space c = c == 32 || (leb 9 c && leb c 13) || c == 133 || c == 160

unfoldable pub trim_left : Text → Text
unfolding is_space
trim_left [] = []
trim_left (c ∷ s) = let rest = trim_left s in if is_space c then rest else c ∷ s

-- Whether a text has nothing but spaces.
unfoldable pub all_space : Text → Bool
unfolding is_space
all_space [] = true
all_space (c ∷ s) = is_space c && all_space s

unfoldable pub trim_right : Text → Text
unfolding all_space
trim_right [] = []
trim_right (c ∷ s) = let rest = trim_right s in if all_space (c ∷ s) then [] else c ∷ rest

-- strings.TrimSpace
unfoldable pub trim_space : Text → Text
unfolding trim_left trim_right
trim_space s = trim_right (trim_left s)

unfoldable pub lower : ℕ → ℕ
lower c = if leb 65 c && leb c 90 then c + 32 else c

-- strings.ToLower
unfoldable pub to_lower : Text → Text
unfolding lower
to_lower = map lower

-- strings.HasPrefix
unfoldable pub has_prefix : Text → Text → Bool
has_prefix s [] = true
has_prefix [] (p ∷ ps) = false
has_prefix (c ∷ s) (p ∷ ps) = c == p && has_prefix s ps

-- strings.Contains
unfoldable pub has_substring : Text → Text → Bool
unfolding has_prefix
has_substring [] sub = has_prefix [] sub
has_substring (c ∷ s) sub = has_prefix (c ∷ s) sub || has_substring s sub

-- strings.ReplaceAll for an `old` that is not empty: `skip` bytes of a match are still to be left out.
unfoldable pub replace_from : ℕ → Text → Text → Text → Text
unfolding has_prefix
replace_from skip old new [] = []
replace_from (suc skip) old new (c ∷ s) = replace_from skip old new s
replace_from zero old new (c ∷ s) =
    let matched = new ++ replace_from (length old - 1) old new s in
    let other = c ∷ replace_from zero old new s in if has_prefix (c ∷ s) old then matched else other

unfoldable pub replace_all : Text → Text → Text → Text
unfolding replace_from
replace_all s old new = replace_from 0 old new s

-- The bytes up to the first `sep`, and those behind it.
unfoldable pub cut : ℕ → Text → Option (Text × Text)
cut sep [] = none
cut sep (c ∷ s) =
    let rest = cut sep s in
    if c == sep then some ([], s) else elim rest [ none ↦ none | some (a, b) ↦ some (c ∷ a, b) ]

-- strings.Split by one byte.
unfoldable pub split : ℕ → Text → List Text
split sep [] = [] ∷ []
split sep (c ∷ s) =
    let rest = split sep s in
    if c == sep then [] ∷ rest else elim rest [ [] ↦ (c ∷ []) ∷ [] | x ∷ xs ↦ (c ∷ x) ∷ xs ]

-- Without the slashes at the end.
unfoldable pub trim_slashes : Text → Text
trim_slashes [] = []
trim_slashes (c ∷ s) =
    let rest = trim_slashes s in if c == b'/' && is_empty rest then [] else c ∷ rest

-- What stands behind the last slash.
unfoldable pub after_slash : Text → Text
after_slash [] = []
after_slash (c ∷ s) =
    let rest = after_slash s in
    if contains_byte b'/' s then rest else if c == b'/' then s else c ∷ s

-- filepath.Base
unfoldable pub path_base : Text → Text
unfolding trim_slashes after_slash
path_base s =
    if is_empty s
    then codes "."
    else if is_empty (trim_slashes s)
    then codes "/"
    else after_slash (trim_slashes s)

-- filepath.Ext: from the last dot of the last element on.
unfoldable pub dot_suffix : Text → Text
dot_suffix [] = []
dot_suffix (c ∷ s) =
    let rest = dot_suffix s in
    if contains_byte b'.' s then rest else if c == b'.' then c ∷ s else []

unfoldable pub path_ext : Text → Text
unfolding dot_suffix after_slash
path_ext s = dot_suffix (after_slash s)

-- strings.TrimSuffix
unfoldable pub trim_suffix : Text → Text → Text
trim_suffix [] suffix = []
trim_suffix (c ∷ s) suffix =
    let rest = c ∷ trim_suffix s suffix in
    if is_empty suffix then c ∷ s else if str_eq (c ∷ s) suffix then [] else rest
