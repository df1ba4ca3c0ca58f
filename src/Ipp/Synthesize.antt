-- ===== src/Ipp/Synthesize.antt =====
-- What `append_synthesized_attributes` of main/ipp_codec.c adds to a printer's answer. Its calls of
-- the append functions are here the list of the fields that they write, in their order; nothing
-- but the order depends on the buffer, and the first call that fails ends the function.
pub mod Media
pub mod Describe
pub mod Offer
pub mod Facade
pub mod Message
pub mod WellNamed
pub mod Fields
pub mod Items
pub mod Copy
pub mod Lacking
pub mod About
pub mod Left
pub mod Normalize
pub mod Usual
pub mod Complete
pub mod Tests
use Prim.Native.Nat.{bit_and}
use espresso.Prelude.{
  ℕ, zero, suc, ◌+◌, ◌^◌, Bool, true, false, not, ◌&&◌, Option, none, some, List, [], ◌∷◌, ◌++◌,
  map, length, ◌==◌, if◌then◌else◌, Bytes, codes, ◌>>=◌,
}
use espresso.Ipp.Buffer.{Heap, Buffer, be32, append_attribute}
use espresso.Ipp.Csv.{spans}
use espresso.Ipp.Inspect.{tag_integer, tag_boolean, tag_enum}
use espresso.Ipp.Walk.{is_empty}

-- A call of `append_attribute`: a NULL name, which adds one more value to the attribute in front,
-- is the empty one.
pub record Field : Type 0 where
  pub tag : ℕ
  pub name : Bytes
  pub value : Bytes

abbrev pub field : ℕ → Bytes → Bytes → Field
field tag name value = record { tag = tag; name = name; value = value }

module _ (heap : Heap) where
  unfoldable pub append_fields : List Field → Buffer → Option Buffer
  append_fields [] b = some b
  append_fields (f ∷ fs) b = do c ← append_attribute heap f.tag f.name f.value b; append_fields fs c

-- `append_string`, and `append_i32` and `append_enum`.
abbrev pub text : ℕ → Bytes → Bytes → Field
text tag name s = field tag name s

unfoldable pub number : ℕ → Bytes → ℕ → Field
number tag name n = field tag name (be32 n)

unfoldable pub flag : Bytes → Bool → Field
flag name b = field tag_boolean name ((if b then 1 else 0) ∷ [])

-- `!(present & (1ULL << n))`, before the fields of the n-th name of `attribute_presence`.
unfoldable pub unless : ℕ → ℕ → List Field → List Field
unless present n fs = if bit_and present (2 ^ n) == 0 then fs else []

unfoldable pub when : Bool → List Field → List Field
when b fs = if b then fs else []

unfoldable pub non_empty : List Bytes → List Bytes
non_empty [] = []
non_empty (s ∷ ss) = if is_empty s then non_empty ss else s ∷ non_empty ss

-- The values of one attribute: the first call has its name.
unfoldable pub values : ℕ → Bytes → List Bytes → List Field
values tag name [] = []
values tag name (v ∷ vs) = field tag name v ∷ map (field tag []) vs

unfoldable pub list_values : Bytes → List Bytes
list_values csv = non_empty (spans (length csv) csv)

-- `append_csv_attributes`
unfoldable pub csv_fields : ℕ → Bytes → Bytes → List Field
csv_fields tag name csv = values tag name (list_values csv)
