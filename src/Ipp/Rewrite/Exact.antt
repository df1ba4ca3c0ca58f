-- ===== src/Ipp/Rewrite/Exact.antt =====
-- What `ipp_codec_rewrite` writes.
use Prim.Native.Nat.{bit_or}
use espresso.Prelude.{
  ℕ, ◌-◌, ◌≡◌, refl, sym, ap, ◌∙◌, arith, ◌&&◌, Option, none, some, List, [], ◌∷◌, ◌++◌, map,
  length, take, drop, ltb, ◌==◌, if◌then◌else◌, Bytes, c_str, ◌>>=◌, >>=-eq-some, append_assoc,
  Bool-cases, Option-cases, inl, inr,
}
use espresso.Ipp.{Code, ok}
use espresso.Ipp.Buffer.{Heap, Buffer, empty, allocate, append, append_attribute}
use espresso.Ipp.Buffer.Laws.{append-bytes, append_attribute-Writes}
use espresso.Ipp.Walk.{Attribute, next, Outcome, ended, left, broken, exhausted, walk_all, tag_end}
use espresso.Ipp.Walk.Parse.{Item, group, value, Ending, parse_all, walk-run}
use espresso.Ipp.Walk.Format.{encode, item_bytes}
use espresso.Ipp.Walk.Simulate.{step, written, run-written}
use espresso.Ipp.Rewrite.{
  header_length, tag_uri, is_one_of, rewritten_uri, uri_names, Transform, new_value,
  transform_group, transform_attribute, attribute_presence, transformer, transform_end,
  transform_result, rewrite, continue,
}

module _ (printer_uri authority : Bytes) where
  -- The value of an attribute in the output.
  abbrev pub output_value : Attribute → Bytes
  output_value a =
      if a.tag == tag_uri && is_one_of a.name uri_names
      then elim (rewritten_uri a.name a.value printer_uri authority) [
        | none ↦ a.value
        | some text ↦ c_str text
      ]
      else a.value

  abbrev pub output_item : Item → Item
  output_item (group g) = group g
  output_item (value a) = value (record a { value = output_value a })

  abbrev pub account : Unit {0} → Item → Unit {0} × Bytes
  account _ i = (tt, item_bytes (output_item i))

  pub written-encode :
      (items : List Item) → written account tt items ≡ encode (map output_item items)
  written-encode [] = refl
  written-encode (i ∷ items) = ap (◌++◌ (item_bytes (output_item i))) (written-encode items)

  -- A message, and its copy with the values replaced.
  pub record IsRewritten (input output : Bytes) (n : ℕ) : Type 0 where
    pub document : Bytes
    pub reached : (parse_all (drop header_length input)).ending ≡ Ending.document document
    pub output_is :
        output
        ≡ take header_length input
          ++ (encode (map output_item (parse_all (drop header_length input)).items)
              ++ tag_end ∷ document)
    pub length_is : n ≡ length input - length document

  module _ (heap : Heap) where
    pub new_value-output_value :
        (a : Attribute) (b : Buffer) (v : Bytes) (c : Buffer)
        → new_value heap printer_uri authority none a b ≡ some (v, c)
        → (v ≡ output_value a) × (c.bytes ≡ b.bytes)
    unfolding new_value allocate
    new_value-output_value a b v c e = ground arith

    pub attribute-account :
        (a : Attribute) (b c : Buffer)
        → (new_value heap printer_uri authority none a b >>= λ (v, m).
            append_attribute heap a.tag a.name_field v m)
          ≡ some c
        → c.bytes ≡ b.bytes ++ item_bytes (output_item (value a))
    attribute-account a b c e =
        let ((v, m), made, appended) =
          >>=-eq-some (new_value heap printer_uri authority none a b)
            (λ (v, m). append_attribute heap a.tag a.name_field v m) e in
        let (same, kept) = new_value-output_value a b v m made in
        append_attribute-Writes heap a.tag a.name_field v m c appended ∙ rw (kept, same)

    continue-next :
        (s t : Transform) (o : Option Buffer)
        → continue heap printer_uri authority none s o ≡ next t
        → o ≡ some t.buffer
    continue-next s t none e = cc
    continue-next s t (some b) e = ground arith

    pub step-account :
        (s t : Transform) (i : Item)
        → step (transformer heap printer_uri authority none) s i ≡ next t
        → (t.buffer.bytes ≡ s.buffer.bytes ++ item_bytes (output_item i))
          × (◌≡◌ {A = Unit {0}} tt tt)
    unfolding transform_group transform_attribute
    step-account s t (group g) e = (
      append-bytes heap (g ∷ []) s.buffer t.buffer
          (continue-next (record s { current_group = g }) t _ e),
      refl,
    )
    step-account s t (value a) e = (
      attribute-account a s.buffer t.buffer (
          continue-next (record s { present = bit_or s.present (attribute_presence a.name) }) t _
            e),
      refl,
    )

    pub end-bytes :
        (t : Transform) (doc : Bytes) (b : Buffer)
        → transform_end heap printer_uri authority none t doc ≡ some b
        → b.bytes ≡ t.buffer.bytes ++ (tag_end ∷ doc)
    unfolding transform_end
    end-bytes t doc b e =
        let (m, first, later) =
          >>=-eq-some (append heap (tag_end ∷ []) t.buffer) (append heap doc) e in
        append-bytes heap doc m b later
        ∙ rw (append-bytes heap (tag_end ∷ []) t.buffer m first)
            (append_assoc t.buffer.bytes (tag_end ∷ []) doc)

    ended-IsRewritten :
        (input : Bytes) (b : Buffer) (t : Transform) (doc output : Bytes) (n : ℕ)
        → b.bytes ≡ take header_length input
        → walk_all
            (transformer heap printer_uri authority none)
            (record { buffer = b; current_group = 0; present = 0 })
            (drop header_length input)
          ≡ ended t doc
        → transform_result heap printer_uri authority none (length input) (ended t doc)
          ≡ ok (output, n)
        → IsRewritten input output n
    ended-IsRewritten input b t doc output n hb walked e =
        let parsed = parse_all (drop header_length input) in
        let start : Transform = record { buffer = b; current_group = 0; present = 0 } in
        let h = transformer heap printer_uri authority none in
        let (wrote, reached) =
          run-written h (λ s. s.buffer.bytes) (λ _. tt) account step-account parsed.items start t
            parsed.ending doc
            (sym
                (walk-run h (length (drop header_length input)) start [] (drop header_length input))
              ∙ walked) in
        elim (Option-cases (transform_end heap printer_uri authority none t doc)) [
          | inl fails ↦ cc (rw (fails, transform_result) at e)
          | inr (last, made) ↦
              let same : (last.bytes ≡ output) × (length input - length doc ≡ n) = ground arith in
              record {
                document = doc;
                reached = reached;
                output_is =
                    sym same.0
                    ∙ end-bytes t doc last made
                    ∙ rw (wrote, hb, written-encode parsed.items)
                        (append_assoc (take header_length input) _ (tag_end ∷ doc));
                length_is = sym same.1;
              }
        ]

    outcome-IsRewritten :
        (input : Bytes) (b : Buffer) (o : Outcome Transform Code) (output : Bytes) (n : ℕ)
        → b.bytes ≡ take header_length input
        → walk_all
            (transformer heap printer_uri authority none)
            (record { buffer = b; current_group = 0; present = 0 })
            (drop header_length input)
          ≡ o
        → transform_result heap printer_uri authority none (length input) o ≡ ok (output, n)
        → IsRewritten input output n
    outcome-IsRewritten input b (ended t doc) output n hb walked e =
        ended-IsRewritten input b t doc output n hb walked e
    outcome-IsRewritten input b (left code) output n hb walked e = cc
    outcome-IsRewritten input b (broken code) output n hb walked e = cc
    outcome-IsRewritten input b exhausted output n hb walked e = cc

    -- For every heap: a rewrite that succeeds had a complete envelope, and returns the header, the
    -- items with the values of `output_value`, the end tag and the document, and the offset of the
    -- document in the input.
    pub rewrite-IsRewritten :
        (input output : Bytes) (n : ℕ)
        → rewrite heap printer_uri authority input ≡ ok (output, n)
        → IsRewritten input output n
    unfolding rewrite
    rewrite-IsRewritten input output n e = elim (Bool-cases (ltb (length input) header_length)) [
      | inl short ↦ cc (rw short at e)
      | inr long ↦ elim (Option-cases (append heap (take header_length input) empty)) [
        | inl fails ↦ cc (rw (long, fails) at e)
        | inr (b, made) ↦
            outcome-IsRewritten input b _ output n
              (append-bytes heap (take header_length input) empty b made) refl
              (rw (long, made) at e)
      ]
    ]
