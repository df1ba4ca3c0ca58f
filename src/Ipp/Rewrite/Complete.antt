-- ===== src/Ipp/Rewrite/Complete.antt =====
-- `ipp_codec_rewrite` succeeds on every complete envelope, where the heap grants what it asks for,
-- the output fits a size_t and each value its length field.
use Prim.Native.Nat.{bit_or}
use espresso.Prelude.{
  ◌+◌, ◌-◌, ◌≤◌, ◌<◌, ◌≡◌, refl, ap, ◌∙◌, arith, none, some, ◌≢◌, true, Option-cases, inl, inr,
  List, [], ◌∷◌, ◌++◌, map, length, take, drop, le→ltb_false, All, Bytes, ◌>>=◌, length-append,
  append_assoc,
}
use espresso.Ipp.{ok}
use espresso.Ipp.Buffer.{Heap, Buffer, empty, size_max, allocate, append, append_attribute}
use espresso.Ipp.Buffer.Laws.{Grants, append-some, append-bytes, append_attribute-Sure, Sure->>=}
use espresso.Ipp.Walk.{Attribute, next, ended, walk_all, tag_end}
use espresso.Ipp.Walk.Parse.{Item, group, value, document, Ending, Parsed, run, parse_all, walk-run}
use espresso.Ipp.Walk.Format.{encode, item_bytes}
use espresso.Ipp.Walk.Simulate.{step, run-written, run-ended}
use espresso.Ipp.Rewrite.{
  header_length, Transform, new_value, transform_group, transform_attribute, attribute_presence,
  transformer, transform_end, transform_result, rewrite, rewritten_uri, uri_names, is_one_of,
}
use espresso.Ipp.Rewrite.Exact.{
  output_value, output_item, account, step-account, written-encode, end-bytes,
  new_value-output_value,
}

module _ (printer_uri authority : Bytes) (heap : Heap) (all : Grants heap) where
  abbrev pub Fits : Item → Type 0
  Fits (group g) = Unit
  Fits (value a) =
      (length a.name_field < 65536) × (length (output_value printer_uri authority a) < 65536)

  uri_names-rewritten :
      (name v : Bytes)
      → is_one_of name uri_names ≡ true
      → rewritten_uri name v printer_uri authority ≢ none
  unfolding rewritten_uri is_one_of
  uri_names-rewritten name v h = ground arith

  new_value-ne-none :
      (a : Attribute) (b : Buffer) → new_value heap printer_uri authority none a b ≢ none
  unfolding new_value allocate
  new_value-ne-none a b = elim (Option-cases (rewritten_uri a.name a.value printer_uri authority)) [
    | inl unknown ↦ ground (arith, uri_names-rewritten a.name a.value)
    | inr (text, known) ↦ ground (arith, all b.requests (length text + 1))
  ]

  pub attribute-some :
      (a : Attribute) (b : Buffer)
      → Fits (value a)
      → length b.bytes + length (item_bytes (output_item printer_uri authority (value a)))
        ≤ size_max
      → (c : Buffer) × ((new_value heap printer_uri authority none a b >>= λ (v, m).
            append_attribute heap a.tag a.name_field v m)
          ≡ some c)
  attribute-some a b (hn, hv) k =
      elim (Option-cases (new_value heap printer_uri authority none a b)) [
        | inl fails ↦ absurd (new_value-ne-none a b fails)
        | inr ((v, m), made) ↦
            let (same, kept) = new_value-output_value printer_uri authority heap a b v m made in
            let (c, e) =
              append_attribute-Sure heap all a.tag a.name_field v hn (rw same hv) m
                (rw (kept, same) k) in
            (c, rw made e)
      ]

  step-some :
      (s : Transform) (i : Item)
      → Fits i
      → length s.buffer.bytes + length (item_bytes (output_item printer_uri authority i)) ≤ size_max
      → (t : Transform) × (step (transformer heap printer_uri authority none) s i ≡ next t)
  unfolding transform_group transform_attribute
  step-some s (group g) f k =
      let (c, e) = append-some heap (g ∷ []) s.buffer all k in
      (record s { current_group = g; buffer = c }, rw e)
  step-some s (value a) f k =
      let (c, e) = attribute-some a s.buffer f k in
      (record s { present = bit_or s.present (attribute_presence a.name); buffer = c }, rw e)

  -- The copy of a message that `rewrite` is to return.
  abbrev pub copy : Bytes → List Item → Bytes → Bytes
  copy input items doc =
      take header_length input
      ++ (encode (map (output_item printer_uri authority) items) ++ tag_end ∷ doc)

  end-some :
      (t : Transform) (doc : Bytes)
      → length t.buffer.bytes + length (tag_end ∷ doc) ≤ size_max
      → (b : Buffer) × (transform_end heap printer_uri authority none t doc ≡ some b)
  unfolding transform_end
  end-some t doc k =
      Sure->>= (append heap (tag_end ∷ [])) (append heap doc) (tag_end ∷ []) doc
        (append-bytes heap (tag_end ∷ [])) (λ b. append-some heap (tag_end ∷ []) b all)
        (λ b. append-some heap doc b all) t.buffer k

  walk-some :
      (input doc : Bytes) (items : List Item) (b : Buffer)
      → parse_all (drop header_length input) ≡ record { items = items; ending = document doc }
      → All Fits items
      → length (b.bytes ++ encode (map (output_item printer_uri authority) items)) ≤ size_max
      → (t : Transform) × ((walk_all
              (transformer heap printer_uri authority none)
              (record { buffer = b; current_group = 0; present = 0 })
              (drop header_length input)
            ≡ ended t doc)
          × (t.buffer.bytes ≡ b.bytes ++ encode (map (output_item printer_uri authority) items)))
  walk-some input doc items b parsed fits small =
      let h = transformer heap printer_uri authority none in
      let start : Transform = record { buffer = b; current_group = 0; present = 0 } in
      let wr = written-encode printer_uri authority items in
      let exact = step-account printer_uri authority heap in
      let out = λ (s : Transform). s.buffer.bytes in
      let (t, ran) =
        run-ended h out (λ _. tt) (account printer_uri authority) size_max Fits exact step-some
          items start doc fits
          (omega (
            arith,
            ap length wr,
            length-append b.bytes (encode (map (output_item printer_uri authority) items)),
          )) in
      let (wrote, _) =
        run-written h out (λ _. tt) (account printer_uri authority) exact items start t
          (document doc) doc ran in
      (
        t,
        (
          walk-run h (length (drop header_length input)) start [] (drop header_length input)
              ∙ ap (λ (p : Parsed). run h start p.items p.ending) parsed
              ∙ ran,
          wrote ∙ ap (◌++◌ b.bytes) wr,
        ),
      )

  rewrite-ended :
      (input doc : Bytes) (b c : Buffer) (t : Transform)
      → header_length ≤ length input
      → append heap (take header_length input) empty ≡ some b
      → walk_all
          (transformer heap printer_uri authority none)
          (record { buffer = b; current_group = 0; present = 0 })
          (drop header_length input)
        ≡ ended t doc
      → transform_end heap printer_uri authority none t doc ≡ some c
      → rewrite heap printer_uri authority input ≡ ok (c.bytes, length input - length doc)
  unfolding rewrite
  rewrite-ended input doc b c t long made walked last =
      rw (le→ltb_false (length input) header_length long, made, walked, transform_result, last) refl

  -- On every input with a header and a complete envelope the rewrite returns the copy of its
  -- items, where the heap grants every request, each output value fits its length field and the
  -- copy a size_t.
  pub rewrite-copy :
      (input doc : Bytes)
      → header_length ≤ length input
      → (parse_all (drop header_length input)).ending ≡ document doc
      → All Fits (parse_all (drop header_length input)).items
      → length (copy input (parse_all (drop header_length input)).items doc) ≤ size_max
      → rewrite heap printer_uri authority input
        ≡ ok
            (copy input (parse_all (drop header_length input)).items doc, length input - length doc)
  rewrite-copy input doc long reached fits small =
      let items = (parse_all (drop header_length input)).items in
      let hdr = take header_length input in
      let body = encode (map (output_item printer_uri authority) items) in
      let sizes = length-append hdr (body ++ tag_end ∷ doc) in
      let tail_sizes = length-append body (tag_end ∷ doc) in
      let (b, made) = append-some heap hdr empty all (omega (arith, sizes)) in
      let hb : b.bytes ≡ hdr = append-bytes heap hdr empty b made in
      let (t, (walked, wrote)) =
        walk-some input doc items b
          (ap (λ (e : Ending). record { items = items; ending = e }) reached) fits
          (omega (arith, sizes, tail_sizes, length-append b.bytes body, ap length hb)) in
      let (c, last) = end-some t doc (
        omega
          (arith, sizes, tail_sizes, ap length wrote, ap length hb, length-append b.bytes body)) in
      let final : c.bytes ≡ copy input items doc =
        end-bytes printer_uri authority heap t doc c last
        ∙ ap (λ (s : Bytes). s ++ tag_end ∷ doc) (wrote ∙ ap (λ (s : Bytes). s ++ body) hb)
        ∙ append_assoc hdr body (tag_end ∷ doc) in
      rewrite-ended input doc b c t long made walked last
      ∙ ap (λ (o : Bytes). ok (o, length input - length doc)) final
