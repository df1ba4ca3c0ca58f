-- ===== src/Ipp/Synthesize/Message.antt =====
-- Fields as the items of a message.
use espresso.Prelude.{
  ℕ, ◌<◌, ◌≡◌, refl, sym, arith, Bool, true, not, ◌&&◌, ◌||◌, some, List, [], ◌∷◌, length, ltb, leb,
  All, Bytes, equal, equal_iff, c_str, >>=-eq-some, append-nil, inl, inr,
}
use espresso.Ipp.Buffer.{Heap, Buffer, append, append_u16, append_attribute}
use espresso.Ipp.Buffer.Laws.{Writes, Writes->>=, append_attribute-Writes}
use espresso.Ipp.Synthesize.{Field, append_fields}
use espresso.Ipp.Walk.{is_empty}
use espresso.Ipp.Walk.Parse.{Item, value}
use espresso.Ipp.Walk.Format.{encode, IsAttribute, IsMessage}

-- The name that a field is read back under.
abbrev pub own_name : Bytes → Bytes → Bytes
own_name current [] = current
own_name current (c ∷ cs) = c ∷ cs

abbrev pub field_items : Bytes → List Field → List Item
field_items current [] = []
field_items current (f ∷ fs) =
    value
      (record { tag = f.tag; name_field = f.name; name = own_name current f.name; value = f.value })
    ∷ field_items (own_name current f.name) fs

pub field_items-Writes :
    (heap : Heap) (current : Bytes) (fs : List Field)
    → Writes (append_fields heap fs) (encode (field_items current fs))
unfolding append_fields
field_items-Writes heap current [] = λ b c e. ground (arith, append-nil b.bytes)
field_items-Writes heap current (f ∷ fs) =
    Writes->>= (append_attribute heap f.tag f.name f.value) (append_fields heap fs) _ _
      (append_attribute-Writes heap f.tag f.name f.value)
      (field_items-Writes heap (own_name current f.name) fs)

abbrev pub IsShort : Field → Type 0
IsShort f = length f.value < 65536

append_u16-short : (heap : Heap) (n : ℕ) (b c : Buffer) → append_u16 heap n b ≡ some c → n < 65536
unfolding append_u16
append_u16-short heap n b c e = ground arith

append_attribute-short :
    (heap : Heap) (tag : ℕ) (name v : Bytes) (b c : Buffer)
    → append_attribute heap tag name v b ≡ some c
    → length v < 65536
unfolding append_attribute
append_attribute-short heap tag name v b c e =
    let (d, _, e1) = >>=-eq-some (append heap (tag ∷ []) b) _ e in
    let (f, _, e2) = >>=-eq-some (append_u16 heap (length name) d) _ e1 in
    let (g, _, e3) = >>=-eq-some (append heap name f) _ e2 in
    let (h, wrote, _) = >>=-eq-some (append_u16 heap (length v) g) _ e3 in
    append_u16-short heap (length v) g h wrote

-- What is appended fits its length fields.
pub append_fields-IsShort :
    (heap : Heap) (fs : List Field) (b c : Buffer)
    → append_fields heap fs b ≡ some c
    → All IsShort fs
unfolding append_fields
append_fields-IsShort heap [] b c e = tt
append_fields-IsShort heap (f ∷ fs) b c e =
    let (d, made, later) = >>=-eq-some (append_attribute heap f.tag f.name f.value b) _ e in
    (
      append_attribute-short heap f.tag f.name f.value b d made,
      append_fields-IsShort heap fs d c later,
    )

-- A name as it may stand in a name field: without NUL, of at most 255 bytes.
unfoldable pub is_name : Bytes → Bool
is_name name = leb (length name) 255 && equal (c_str name) name

-- Every tag is an attribute's, and every field has a name, or an attribute in front of it; `have`
-- is whether there is one in front of the first.
unfoldable pub well_named : Bool → List Field → Bool
well_named have [] = true
well_named have (f ∷ fs) =
    let rest = well_named true fs in
    ltb 15 f.tag && is_name f.name && (have || not (is_empty f.name)) && rest

unfoldable pub has : Bytes → Bool
has name = not (is_empty name)

field-IsAttribute :
    (current name v : Bytes) (tag : ℕ)
    → 15 < tag
    → is_name name ≡ true
    → (has current || has name) ≡ true
    → length v < 65536
    → IsAttribute current
        (record { tag = tag; name_field = name; name = own_name current name; value = v })
unfolding is_name has
field-IsAttribute [] [] v tag t n h l = cc
field-IsAttribute (c ∷ cs) [] v tag t n h l = record {
  tag_above = t;
  name_fits = omega arith;
  value_fits = l;
  named = inr (refl, refl, λ e. cc);
}
field-IsAttribute current (c ∷ cs) v tag t n h l = record {
  tag_above = t;
  name_fits = ground arith;
  value_fits = l;
  named = inl (λ e. cc, sym ((equal_iff (c_str (c ∷ cs)) (c ∷ cs)).0 (ground arith)));
}

has-own_name :
    (current name : Bytes) → (has current || has name) ≡ true → has (own_name current name) ≡ true
unfolding has
has-own_name [] [] h = h
has-own_name (c ∷ cs) [] h = refl
has-own_name current (c ∷ cs) h = refl

pub field_items-IsMessage :
    (current : Bytes) (fs : List Field)
    → well_named (has current) fs ≡ true
    → All IsShort fs
    → IsMessage current (field_items current fs)
unfolding well_named has
field_items-IsMessage current [] w h = tt
field_items-IsMessage current (f ∷ fs) w (short, h) =
    let held : (has current || has f.name) ≡ true = ground arith in
    let named : is_name f.name ≡ true = ground arith in
    let rest : well_named (has (own_name current f.name)) fs ≡ true =
      rw (has-own_name current f.name held) (ground arith) in
    (
      field-IsAttribute current f.name f.value f.tag (ground arith) named held short,
      field_items-IsMessage (own_name current f.name) fs rest h,
    )
