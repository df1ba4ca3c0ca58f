-- ===== src/Ipp/Synthesize/Complete.antt =====
-- `ipp_codec_normalize_printer_response` succeeds on every complete answer, where the heap grants
-- what it asks for, the output fits a size_t and each value its length field.
use Prim.Native.Nat.{bit_or}
use espresso.Prelude.{
  ℕ, ◌+◌, ◌-◌, ◌≤◌, ◌<◌, ◌≡◌, refl, ap, ◌∙◌, arith, Bool, true, false, some, Bool-cases, inl, inr,
  List, [], ◌∷◌, ◌++◌, length, take, drop, ◌==◌, le→ltb_false, lt→ltb, All, Bytes, ◌>>=◌,
  length-append,
}
use espresso.Ipp.{ok}
use espresso.Ipp.Buffer.{Heap, Buffer, empty, size_max, append, append_attribute}
use espresso.Ipp.Buffer.Laws.{
  Grants, append-some, append-bytes, Sure, append_attribute-Sure, append_attribute-Writes, Sure->>=,
}
use espresso.Ipp.Inspect.{message_code}
use espresso.Ipp.Rewrite.{
  header_length, Transform, Synthesize, new_value, transform_group, transform_attribute,
  attribute_presence, transformer, transform_end, transform_result, transform_message, is_one_of,
  replaced_names,
}
use espresso.Ipp.Rewrite.Complete.{Fits, attribute-some}
use espresso.Ipp.Select.{tag_printer}
use espresso.Ipp.Synthesize.{Field, append_fields}
use espresso.Ipp.Synthesize.Copy.{
  copies, copied, present_of, last_group, normalized, written-copied, viewed-of, step-normalized,
}
use espresso.Ipp.Synthesize.Facade.{synthesized, append_synthesized, normalize_printer_response}
use espresso.Ipp.Synthesize.Media.{Measure}
use espresso.Ipp.Synthesize.Message.{field_items, IsShort, is_name, well_named, own_name}
use espresso.Ipp.Synthesize.Normalize.{opened, added, append_synthesized-bytes}
use espresso.Ipp.Synthesize.Fields.{synthesized-IsNamed}
use espresso.Ipp.Target.{PrinterTarget}
use espresso.Ipp.Walk.{next, ended, walk_all, tag_end}
use espresso.Ipp.Walk.Parse.{Item, group, value, document, Ending, Parsed, run, parse_all, walk-run}
use espresso.Ipp.Walk.Format.{encode}
use espresso.Ipp.Walk.Simulate.{step, run-written, run-viewed, run-ended}

module _ (heap : Heap) (all : Grants heap) where
  append_fields-Sure :
      (have : Bool) (current : Bytes) (fs : List Field)
      → well_named have fs ≡ true
      → All IsShort fs
      → Sure (append_fields heap fs) (encode (field_items current fs))
  unfolding append_fields well_named is_name
  append_fields-Sure have current [] w short = λ b k. (b, refl)
  append_fields-Sure have current (f ∷ fs) w (fits, short) =
      Sure->>= (append_attribute heap f.tag f.name f.value) (append_fields heap fs) _ _
        (append_attribute-Writes heap f.tag f.name f.value)
        (append_attribute-Sure heap all f.tag f.name f.value (ground arith) fits)
        (append_fields-Sure true (own_name current f.name) fs (ground arith) short)

module _ (printer_uri authority : Bytes) (heap : Heap) (all : Grants heap) (f : Synthesize) where
  step-sure :
      (s : Transform) (i : Item)
      → Fits printer_uri authority heap all i
      → length s.buffer.bytes
          + length (normalized printer_uri authority (s.present, s.current_group) i).1
        ≤ size_max
      → (t : Transform) × (step (transformer heap printer_uri authority (some f)) s i ≡ next t)
  unfolding transform_group transform_attribute new_value copies
  step-sure s (group g) fits k =
      let (c, e) = append-some heap (g ∷ []) s.buffer all k in
      (record s { current_group = g; buffer = c }, rw e)
  step-sure s (value a) fits k = elim (Bool-cases (is_one_of a.name replaced_names)) [
    | inl gone ↦ (s, rw gone)
    | inr keeps ↦
        let (c, e) =
          attribute-some printer_uri authority heap all a s.buffer fits (rw keeps at k) in
        (
          record s { present = bit_or s.present (attribute_presence a.name); buffer = c },
          rw (keeps, e),
        )
  ]

module _ (measure : Measure) (printer_uri authority local_uuid : Bytes) (target : PrinterTarget)
    (heap : Heap) (all : Grants heap)
    (upper : target.resolution_low_dpi ≡ 0 → target.resolution_high_dpi ≡ 0) where
  append_synthesized-Sure :
      (present g : ℕ)
      → All IsShort (synthesized measure printer_uri local_uuid target present)
      → Sure (append_synthesized measure printer_uri local_uuid target heap present g) (
          encode (
            opened g ++ field_items [] (synthesized measure printer_uri local_uuid target present)))
  unfolding append_synthesized
  append_synthesized-Sure present g short =
      let fs = synthesized measure printer_uri local_uuid target present in
      let named = (synthesized-IsNamed measure printer_uri local_uuid target present upper).named in
      let fields = append_fields-Sure heap all false [] fs named short in
      elim (Bool-cases (g == tag_printer)) [
        | inl same ↦ rw same fields
        | inr other ↦ rw other (
            Sure->>= (append heap (tag_printer ∷ [])) (append_fields heap fs) (tag_printer ∷ []) _
              (append-bytes heap (tag_printer ∷ []))
              (λ b. append-some heap (tag_printer ∷ []) b all) fields)
      ]

  end-Sure :
      (t : Transform) (doc : Bytes)
      → All IsShort (synthesized measure printer_uri local_uuid target t.present)
      → Sure
          (λ (b : Buffer).
            append_synthesized measure printer_uri local_uuid target heap t.present t.current_group
              b
            >>= λ (c : Buffer). append heap (tag_end ∷ []) c >>= append heap doc)
          (encode (
              opened t.current_group
              ++ field_items [] (synthesized measure printer_uri local_uuid target t.present))
            ++ ((tag_end ∷ []) ++ doc))
  end-Sure t doc short =
      Sure->>=
        (append_synthesized measure printer_uri local_uuid target heap t.present t.current_group)
        (λ (c : Buffer). append heap (tag_end ∷ []) c >>= append heap doc) _ _
        (λ b c e.
          (append_synthesized-bytes measure printer_uri authority local_uuid target heap t.present
            t.current_group b c e).0)
        (append_synthesized-Sure t.present t.current_group short)
        (Sure->>= (append heap (tag_end ∷ [])) (append heap doc) (tag_end ∷ []) doc
          (append-bytes heap (tag_end ∷ [])) (λ b. append-some heap (tag_end ∷ []) b all)
          (λ b. append-some heap doc b all))

  abbrev start_with : Buffer → Transform
  start_with b = record { buffer = b; current_group = 0; present = 0 }

  -- The walk over the answer, and what it leaves for the end.
  walk-sure :
      (input doc : Bytes) (items : List Item) (b : Buffer)
      → parse_all (drop header_length input) ≡ record { items = items; ending = document doc }
      → All (Fits printer_uri authority heap all) items
      → length b.bytes + length (encode (copied printer_uri authority items)) ≤ size_max
      → (t : Transform) × ((walk_all
              (transformer heap printer_uri authority
                (some (append_synthesized measure printer_uri local_uuid target heap)))
              (start_with b)
              (drop header_length input)
            ≡ ended t doc)
          × (t.buffer.bytes ≡ b.bytes ++ encode (copied printer_uri authority items))
          × (t.present ≡ present_of 0 items)
          × (t.current_group ≡ last_group 0 items))
  walk-sure input doc items b parsed fits small =
      let f = append_synthesized measure printer_uri local_uuid target heap in
      let h = transformer heap printer_uri authority (some f) in
      let out = λ (s : Transform). s.buffer.bytes in
      let view : Transform → ℕ × ℕ = λ s. (s.present, s.current_group) in
      let account = normalized printer_uri authority in
      let exact = step-normalized printer_uri authority heap f in
      let wr = written-copied printer_uri authority items 0 0 0 in
      let (t, ran) =
        run-ended h out view account size_max (Fits printer_uri authority heap all) exact
          (step-sure printer_uri authority heap all f) items (start_with b) doc fits
          (omega (arith, ap length wr)) in
      let (wrote, _) =
        run-written h out view account exact items (start_with b) t (document doc) doc ran in
      let seen =
        run-viewed h out view account exact items (start_with b) t (document doc) doc ran
        ∙ viewed-of printer_uri authority items 0 0 in
      (
        t,
        (
          walk-run h (length (drop header_length input)) (start_with b) []
                (drop header_length input)
              ∙ ap (λ (p : Parsed). run h (start_with b) p.items p.ending) parsed
              ∙ ran,
          wrote ∙ ap (◌++◌ b.bytes) wr,
          ap (λ (v : ℕ × ℕ). v.0) seen,
          ap (λ (v : ℕ × ℕ). v.1) seen,
        ),
      )

  -- The answer that is to be returned.
  abbrev pub normal : Bytes → List Item → Bytes → Bytes
  normal input items doc =
      take header_length input
      ++ (encode (copied printer_uri authority items)
          ++ (encode (added measure printer_uri authority local_uuid target heap items)
              ++ ((tag_end ∷ []) ++ doc)))

  -- On every complete answer without an error status the normalization returns, with the offset of
  -- the answer's document, where the heap grants every request, the values to write fit their
  -- length fields, the whole output a size_t, and the target has no upper resolution without a
  -- lower one.
  pub normalize_printer_response-some :
      (input doc : Bytes)
      → header_length ≤ length input
      → message_code input < 0x400
      → (parse_all (drop header_length input)).ending ≡ document doc
      → All (Fits printer_uri authority heap all) (parse_all (drop header_length input)).items
      → All IsShort (
          synthesized measure printer_uri local_uuid target
            (present_of 0 (parse_all (drop header_length input)).items))
      → length (normal input (parse_all (drop header_length input)).items doc) ≤ size_max
      → (out : Bytes) × (normalize_printer_response measure printer_uri local_uuid target heap
            authority input
          ≡ ok (out, length input - length doc))
  unfolding normalize_printer_response transform_message transform_end
  normalize_printer_response-some input doc long good reached fits short small =
      let items = (parse_all (drop header_length input)).items in
      let hdr = take header_length input in
      let f = append_synthesized measure printer_uri local_uuid target heap in
      let body = encode (copied printer_uri authority items) in
      let tail = encode (added measure printer_uri authority local_uuid target heap items) in
      let sizes = length-append hdr (body ++ (tail ++ ((tag_end ∷ []) ++ doc))) in
      let body_sizes = length-append body (tail ++ ((tag_end ∷ []) ++ doc)) in
      let (b, made) = append-some heap hdr empty all (omega (arith, sizes)) in
      let hb : b.bytes ≡ hdr = append-bytes heap hdr empty b made in
      let (t, (walked, wrote, present, last)) =
        walk-sure input doc items b
          (ap (λ (e : Ending). record { items = items; ending = e }) reached) fits
          (omega (arith, sizes, body_sizes, ap length hb)) in
      let (c, ends) = end-Sure t doc (rw present short) t.buffer (
        rw (present, last)
          (omega (
            arith,
            sizes,
            body_sizes,
            ap length wrote,
            ap length hb,
            length-append b.bytes body,
          ))) in
      (
        c.bytes,
        rw
            (
              lt→ltb (message_code input) 0x400 good,
              le→ltb_false (length input) header_length long,
              made,
              walked,
              transform_result,
              ends,
            )
            refl,
      )
