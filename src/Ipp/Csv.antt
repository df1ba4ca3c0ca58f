-- ===== src/Ipp/Csv.antt =====
-- The comma-separated lists of main/ipp_codec.c, the comparison of names without case, and the
-- copies into fixed arrays. A `const char *` is a C string here, a list without NUL; NULL and the
-- empty string are treated alike by every function below.
pub mod Laws
use espresso.Prelude.{
  ℕ, zero, suc, ◌+◌, ◌-◌, Bool, true, false, not, ◌&&◌, ◌||◌, List, [], ◌∷◌, ◌++◌, length, take,
  drop, ltb, leb, ◌==◌, if◌then◌else◌, Bytes, to_lower, is_space, c_str,
}
use mathlib.Core.List.{reverse}

unfoldable pub equal_span : Bytes → Bytes → Bool
equal_span [] [] = true
equal_span (x ∷ xs) (y ∷ ys) = to_lower x == to_lower y && equal_span xs ys
equal_span _ _ = false

unfoldable pub skip_separators : Bytes → Bytes
skip_separators [] = []
skip_separators (c ∷ cs) = if c == b',' || is_space c then skip_separators cs else c ∷ cs

unfoldable pub before_comma : Bytes → Bytes
before_comma [] = []
before_comma (c ∷ cs) = if c == b',' then [] else c ∷ before_comma cs

unfoldable pub from_comma : Bytes → Bytes
from_comma [] = []
from_comma (c ∷ cs) = if c == b',' then c ∷ cs else from_comma cs

unfoldable pub skip_space : Bytes → Bytes
skip_space [] = []
skip_space (c ∷ cs) = if is_space c then skip_space cs else c ∷ cs

-- `while (end > start && isspace(end[-1])) --end;`
unfoldable pub trim_end : Bytes → Bytes
trim_end s = reverse (skip_space (reverse s))

-- The spans that the loop over a list stops at, in order. Each round takes a byte at least, so
-- the length of the list is enough fuel.
unfoldable pub spans : ℕ → Bytes → List Bytes
spans fuel [] = []
spans zero (c ∷ cs) = []
spans (suc fuel) (c ∷ cs) =
    let start = skip_separators (c ∷ cs) in
    let rest = spans fuel (from_comma start) in trim_end (before_comma start) ∷ rest

unfoldable pub has_span : Bytes → List Bytes → Bool
has_span value [] = false
has_span value (s ∷ ss) = equal_span s value || has_span value ss

unfoldable pub csv_contains : Bytes → Bytes → Bool
csv_contains csv value =
    if length value == 0 then false else has_span value (spans (length csv) csv)

-- `csv_add(csv, size, …)`: the array keeps its C string if the value is there or does not fit.
unfoldable pub csv_add : ℕ → Bytes → Bytes → Bytes
csv_add size value csv =
    let trimmed = trim_end (skip_space value) in
    let separator = if length csv == 0 then [] else b',' ∷ [] in
    if size == 0 || length trimmed == 0 || csv_contains csv trimmed
    then csv
    else if leb size (length csv + length separator + length trimmed)
    then csv
    else c_str (csv ++ (separator ++ trimmed))

-- The pieces between the commas, the last one included.
unfoldable pub pieces : Bytes → Bytes → List Bytes
pieces piece [] = piece ∷ []
pieces piece (c ∷ cs) = if c == b',' then piece ∷ pieces [] cs else pieces (piece ++ c ∷ []) cs

unfoldable pub csv_add_all : ℕ → List Bytes → Bytes → Bytes
csv_add_all size [] csv = csv
csv_add_all size (p ∷ ps) csv = csv_add_all size ps (csv_add size p csv)

unfoldable pub csv_add_split : ℕ → Bytes → Bytes → Bytes
unfolding csv_add_all pieces
csv_add_split size value csv = csv_add_all size (pieces [] value) csv

-- The C string that the array holds afterwards.
unfoldable pub copy_value : ℕ → Bytes → Bytes → Bytes
copy_value size value old = if size == 0 then old else c_str (take (size - 1) value)

unfoldable pub starts_with_span : Bytes → Bytes → Bool
starts_with_span needle value =
    leb (length needle) (length value) && equal_span (take (length needle) value) needle

unfoldable pub value_contains : Bytes → Bytes → Bool
value_contains needle [] = length needle == 0
value_contains needle (c ∷ cs) = starts_with_span needle (c ∷ cs) || value_contains needle cs
