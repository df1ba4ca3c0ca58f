-- ===== src/Ipp/Csv/Laws.antt =====
-- Bounds of the lists and copies, and what `csv_contains` finds.
use espresso.Prelude.{
  ℕ, ◌+◌, ◌-◌, ◌≤◌, ◌<◌, ◌≡◌, refl, arith, true, List, [], ◌∷◌, ◌++◌, length, take, Bytes, c_str,
  length-take, length-append,
}
use espresso.Ipp.Csv.{
  skip_space, trim_end, equal_span, csv_add, csv_add_all, csv_add_split, pieces, copy_value,
}

c_str-le : (s : Bytes) → length (c_str s) ≤ length s
unfolding c_str
c_str-le [] = omega arith
c_str-le (c ∷ cs) = ground (arith, c_str-le cs)

-- The copy leaves room for the NUL.
pub copy_value-lt :
    (size : ℕ) (value old : Bytes) → 0 < size → length (copy_value size value old) < size
unfolding copy_value
copy_value-lt size value old h =
    ground (arith, c_str-le (take (size - 1) value), length-take (size - 1) value)

joined-le :
    (csv separator trimmed : Bytes)
    → length (c_str (csv ++ (separator ++ trimmed)))
      ≤ length csv + length separator + length trimmed
joined-le csv separator trimmed = omega (
  arith,
  c_str-le (csv ++ (separator ++ trimmed)),
  length-append csv (separator ++ trimmed),
  length-append separator trimmed,
)

pub csv_add-lt :
    (size : ℕ) (value csv : Bytes) → length csv < size → length (csv_add size value csv) < size
unfolding csv_add
csv_add-lt size value csv h = ground (
  arith,
  joined-le csv [] (trim_end (skip_space value)),
  joined-le csv (b',' ∷ []) (trim_end (skip_space value)),
)

csv_add_all-lt :
    (size : ℕ) (ps : List Bytes) (csv : Bytes)
    → length csv < size
    → length (csv_add_all size ps csv) < size
unfolding csv_add_all
csv_add_all-lt size [] csv h = h
csv_add_all-lt size (p ∷ ps) csv h =
    csv_add_all-lt size ps (csv_add size p csv) (csv_add-lt size p csv h)

-- However many values are added to a list that fits its array, the list and its NUL stay within
-- the array.
pub csv_add_split-lt :
    (size : ℕ) (value csv : Bytes)
    → length csv < size
    → length (csv_add_split size value csv) < size
unfolding csv_add_split
csv_add_split-lt size value csv h = csv_add_all-lt size (pieces [] value) csv h

pub equal_span_refl : (s : Bytes) → equal_span s s ≡ true
unfolding equal_span
equal_span_refl [] = refl
equal_span_refl (c ∷ cs) = ground (arith, equal_span_refl cs)
