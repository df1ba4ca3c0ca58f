-- ===== src/Ipp/Walk/Format.antt =====
-- The format that the loop reads: a message written from its items is parsed back to them, and
-- whatever is parsed was so written.
use espresso.Prelude.{
  ℕ, ◌+◌, ◌≤◌, ◌<◌, ◌≡◌, ◌≢◌, ◌⊎◌, inl, inr, refl, sym, ap, ap₂, subst, ◌∙◌, arith, false, List, [],
  ◌∷◌, ◌++◌, length, take, drop, All, IsByte, ◌==◌, if◌then◌else◌, Bytes, c_str, length-drop,
  length-append, take-append, drop-append, length-take_le, All-drop, take-append-drop, Bool-cases,
  ltb, append_assoc, nil_of_length,
}
use espresso.Ipp.{malformed}
use espresso.Ipp.Buffer.{be16, read_u16}
use espresso.Ipp.Buffer.{attribute_bytes}
use espresso.Ipp.Walk.{Attribute, Read, attribute, refused, read_attribute, read_value, is_empty}
use espresso.Ipp.Walk.Parse.{Item, group, value}

abbrev pub item_bytes : Item → Bytes
item_bytes (group g) = g ∷ []
item_bytes (value a) = attribute_bytes a.tag a.name_field a.value

abbrev pub encode : List Item → Bytes
encode [] = []
encode (i ∷ items) = item_bytes i ++ encode items

-- An attribute that may follow a name: with a name of its own, or another value of that name.
pub record IsAttribute (current : Bytes) (a : Attribute) : Type 0 where
  pub tag_above : 15 < a.tag
  pub name_fits : length a.name_field ≤ 255
  pub value_fits : length a.value < 65536
  pub named :
      ((a.name_field ≢ []) × (a.name ≡ c_str a.name_field))
      ⊎ ((a.name_field ≡ []) × (a.name ≡ current) × (current ≢ []))

abbrev pub IsMessage : Bytes → List Item → Type 0
IsMessage current [] = Unit
IsMessage current (group g ∷ items) = (g ≤ 15) × (g ≢ 3) × IsMessage [] items
IsMessage current (value a ∷ items) = IsAttribute current a × IsMessage a.name items

pub read_u16-be16 : (n : ℕ) (rest : Bytes) → n < 65536 → read_u16 (be16 n ++ rest) ≡ n
unfolding read_u16 be16
read_u16-be16 n rest h = omega arith

pub drop-be16 : (n : ℕ) (rest : Bytes) → drop 2 (be16 n ++ rest) ≡ rest
unfolding be16
drop-be16 n rest = refl

length-be16 : (n : ℕ) (rest : Bytes) → length (be16 n ++ rest) ≡ length rest + 2
unfolding be16
length-be16 n rest = omega arith

is_empty-ne-nil : (xs : Bytes) → xs ≢ [] → is_empty xs ≡ false
is_empty-ne-nil [] h = absurd (h refl)
is_empty-ne-nil (x ∷ xs) h = refl

read_value-encode :
    (tag : ℕ) (field name v rest : Bytes)
    → length v < 65536
    → read_value tag field name (be16 (length v) ++ (v ++ rest))
      ≡ attribute (record { tag = tag; name_field = field; name = name; value = v }) rest
unfolding read_value
read_value-encode tag field name v rest h =
    rw
      (
        read_u16-be16 (length v) (v ++ rest) h,
        drop-be16 (length v) (v ++ rest),
        take-append v rest,
        drop-append v rest,
      )
      (ground (arith, length-append v rest))

-- The two ways to go on behind the name.
read_attribute-name :
    (tag : ℕ) (current field rest : Bytes)
    → length field ≤ 255
    → 2 ≤ length rest
    → read_attribute tag current (be16 (length field) ++ (field ++ rest)) ≡ (
        if length field == 0
        then (if is_empty current then refused malformed else read_value tag [] current rest)
        else read_value tag field (c_str field) rest)
unfolding read_attribute
read_attribute-name tag current field rest h k =
    rw
      (
        read_u16-be16 (length field) (field ++ rest) (omega arith),
        drop-be16 (length field) (field ++ rest),
        take-append field rest,
        drop-append field rest,
      )
      (ground (
        arith,
        length-append field rest,
        length-be16 (length field) (field ++ rest),
        nil_of_length field,
      ))

pub read_attribute-encode :
    (current : Bytes) (a : Attribute) (rest : Bytes)
    → IsAttribute current a
    → read_attribute a.tag current (
        be16 (length a.name_field)
        ++ (a.name_field ++ (be16 (length a.value) ++ (a.value ++ rest))))
      ≡ attribute a rest
read_attribute-encode current a rest v =
    read_attribute-name a.tag current a.name_field (be16 (length a.value) ++ (a.value ++ rest))
      v.name_fits (omega (arith, length-be16 (length a.value) (a.value ++ rest)))
    ∙ elim v.named [
      | inl (own, name) ↦ ground (
        arith,
        nil_of_length a.name_field,
        read_value-encode a.tag a.name_field (c_str a.name_field) a.value rest v.value_fits,
      )
      | inr (none, same, ne) ↦ ground (
        arith,
        is_empty-ne-nil current ne,
        read_value-encode a.tag [] current a.value rest v.value_fits,
      )
    ]

word_split :
    (input : Bytes)
    → All IsByte input
    → 2 ≤ length input
    → (input ≡ be16 (read_u16 input) ++ drop 2 input) × (read_u16 input < 65536)
unfolding be16 read_u16
word_split [] h k = absurd (omega arith)
word_split (x ∷ []) h k = absurd (omega arith)
word_split (x ∷ y ∷ r) (hx, (hy, h)) k =
    (ap₂ (λ (s t : ℕ). s ∷ t ∷ r) (omega arith) (omega arith), omega arith)

-- A value that was read, in the bytes it was read from.
abbrev ReadsValue : ℕ → Bytes → Bytes → Bytes → Read → Type 0
ReadsValue tag field name input (refused code) = Unit
ReadsValue tag field name input (attribute a rest) =
    (input ≡ be16 (length a.value) ++ (a.value ++ rest))
    × (length a.value < 65536)
    × All IsByte rest
    × (a.tag ≡ tag)
    × (a.name_field ≡ field)
    × (a.name ≡ name)

read_value-Reads_value :
    (tag : ℕ) (field name input : Bytes)
    → All IsByte input
    → 2 ≤ length input
    → ReadsValue tag field name input (read_value tag field name input)
unfolding read_value
read_value-Reads_value tag field name input h k =
    elim (Bool-cases (ltb (length (drop 2 input)) (read_u16 input))) [
      | inl short ↦ rw short tt
      | inr long ↦
          let n = read_u16 input in
          let (split, small) = word_split input h k in
          let len = length-take_le n (drop 2 input) (ground arith) in
          let whole : input ≡ be16 n ++ (take n (drop 2 input) ++ drop n (drop 2 input)) =
            rw (take-append-drop n (drop 2 input)) split in
          rw long (
            rw len whole,
            rw len small,
            All-drop IsByte n (drop 2 input) (All-drop IsByte 2 input h),
            refl,
            refl,
            refl,
          )
    ]

-- An attribute that was read, in the bytes behind its tag.
abbrev pub Reads : ℕ → Bytes → Bytes → Read → Type 0
Reads tag current input (refused code) = Unit
Reads tag current input (attribute a rest) =
    (tag ∷ input ≡ attribute_bytes a.tag a.name_field a.value ++ rest)
    × IsAttribute current a
    × All IsByte rest

ReadsValue-Reads :
    (tag : ℕ) (current field name input : Bytes) (r : Read)
    → 15 < tag
    → length field ≤ 255
    → ((field ≢ []) × (name ≡ c_str field)) ⊎ ((field ≡ []) × (name ≡ current) × (current ≢ []))
    → ReadsValue tag field name input r
    → Reads tag current (be16 (length field) ++ (field ++ input)) r
ReadsValue-Reads tag current field name input (refused code) h k n v = tt
ReadsValue-Reads tag current field name input (attribute a rest) h k n v =
    let (written, fits, left, t, f, nm) = v in
    (
      simp (t, f, written, append_assoc),
      record {
        tag_above = simp t h;
        name_fits = simp f k;
        value_fits = fits;
        named = simp (f, nm) n;
      },
      left,
    )

read_field-Reads :
    (tag : ℕ) (current input : Bytes)
    → 15 < tag
    → All IsByte input
    → 2 ≤ length input
    → read_u16 input ≤ 255
    → read_u16 input + 2 ≤ length (drop 2 input)
    → read_u16 input ≢ 0
    → Reads tag current input (
        read_value tag
          (take (read_u16 input) (drop 2 input))
          (c_str (take (read_u16 input) (drop 2 input)))
          (drop (read_u16 input) (drop 2 input)))
read_field-Reads tag current input h bytes k small room ne =
    let n = read_u16 input in
    let field = take n (drop 2 input) in
    let behind = drop n (drop 2 input) in
    let len : length field ≡ n = length-take_le n (drop 2 input) (omega arith) in
    let own : field ≢ [] = λ e. ne (sym len ∙ ap length e) in
    let whole : be16 (length field) ++ (field ++ behind) ≡ input =
      rw (len, take-append-drop n (drop 2 input)) (sym (word_split input bytes k).0) in
    let left = All-drop IsByte n (drop 2 input) (All-drop IsByte 2 input bytes) in
    subst (λ (i : Bytes). Reads tag current i (read_value tag field (c_str field) behind)) whole
      (ReadsValue-Reads tag current field (c_str field) behind
        (read_value tag field (c_str field) behind) h (rw len small) (inl (own, refl))
        (read_value-Reads_value tag field (c_str field) behind left
          (omega (arith, length-drop n (drop 2 input)))))

read_additional-Reads :
    (tag : ℕ) (current input : Bytes)
    → 15 < tag
    → All IsByte input
    → 4 ≤ length input
    → read_u16 input ≡ 0
    → current ≢ []
    → Reads tag current input (read_value tag [] current (drop 2 input))
read_additional-Reads tag current input h bytes k zero_length ne =
    let behind = drop 2 input in
    let whole : be16 0 ++ behind ≡ input =
      rw (← zero_length) (sym (word_split input bytes (omega arith)).0) in
    subst (λ (i : Bytes). Reads tag current i (read_value tag [] current behind)) whole
      (ReadsValue-Reads tag current [] current behind (read_value tag [] current behind) h
        (omega arith) (inr (refl, refl, ne))
        (read_value-Reads_value tag [] current behind (All-drop IsByte 2 input bytes)
          (omega (arith, length-drop 2 input))))

is_empty→nil : (xs : Bytes) → is_empty xs ≡ false → xs ≢ []
is_empty→nil [] h = λ e. cc
is_empty→nil (x ∷ xs) h = λ e. cc

pub read_attribute-Reads :
    (tag : ℕ) (current input : Bytes)
    → 15 < tag
    → All IsByte input
    → Reads tag current input (read_attribute tag current input)
unfolding read_attribute
read_attribute-Reads tag current input h bytes = elim (Bool-cases (ltb (length input) 2)) [
  | inl e ↦ rw e tt
  | inr long ↦ rw long (elim (Bool-cases (ltb 255 (read_u16 input))) [
    | inl e ↦ rw e tt
    | inr small ↦ rw small (elim (Bool-cases (ltb (length (drop 2 input)) (read_u16 input + 2))) [
      | inl e ↦ rw e tt
      | inr room ↦ rw room (elim (Bool-cases (read_u16 input == 0)) [
        | inl z ↦ rw z (elim (Bool-cases (is_empty current)) [
          | inl e ↦ rw e tt
          | inr ne ↦ rw ne (
              read_additional-Reads tag current input h bytes (ground (arith, length-drop 2 input))
                (ground arith) (is_empty→nil current ne))
        ])
        | inr nz ↦ rw nz (
            read_field-Reads tag current input h bytes (ground arith) (ground arith) (ground arith)
              (ground arith))
      ])
    ])
  ])
]
