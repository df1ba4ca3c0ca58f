-- ===== src/Ipp/Synthesize/Normalize.antt =====
-- What `ipp_codec_normalize_printer_response` returns for an answer, read again.
use espresso.Prelude.{
  ℕ, ◌<◌, ◌≤◌, ◌≡◌, refl, sym, ap, ◌∙◌, arith, some, List, [], ◌∷◌, ◌++◌, length, take, drop, ltb,
  true, ◌==◌, if◌then◌else◌, All, IsByte, Bytes, ◌>>=◌, >>=-eq-some, append-nil, append_assoc,
  Bool-cases, Option-cases, inl, inr, All-drop, length-take_le,
}
use espresso.Ipp.{Code, ok}
use espresso.Ipp.Buffer.{Heap, Buffer, empty, append}
use espresso.Ipp.Buffer.Laws.{append-bytes}
use espresso.Ipp.Inspect.{message_code}
use espresso.Ipp.Rewrite.{
  header_length, Transform, transformer, transform_end, transform_result, transform_message,
}
use espresso.Ipp.Rewrite.Reparse.{ValueFits, output_item-IsMessage}
use espresso.Ipp.Select.{tag_printer}
use espresso.Ipp.Synthesize.{append_fields}
use espresso.Ipp.Synthesize.Copy.{
  stays, present_of, last_group, copied, normalized, written-copied, viewed-of, step-normalized,
}
use espresso.Ipp.Synthesize.Items.{encode-append, rearrange, IsMessage-append, field_items-started}
use espresso.Ipp.Synthesize.Facade.{synthesized, append_synthesized, normalize_printer_response}
use espresso.Ipp.Synthesize.Lacking.{lacking, copied_names}
use espresso.Ipp.Synthesize.Left.{synthesized-Leaves}
use espresso.Ipp.Synthesize.Media.{Measure}
use espresso.Ipp.Synthesize.Message.{
  field_items, field_items-Writes, IsShort, append_fields-IsShort,
}
use espresso.Ipp.Synthesize.Fields.{synthesized-IsNamed}
use espresso.Ipp.Target.{PrinterTarget}
use espresso.Ipp.Walk.{Outcome, ended, left, broken, exhausted, walk_all, tag_end}
use espresso.Ipp.Walk.Parse.{Item, group, Parsed, Ending, parse_all, walk-run}
use espresso.Ipp.Walk.Format.{encode, IsMessage}
use espresso.Ipp.Walk.Message.{encode-parse, parse_all-copy}
use espresso.Ipp.Walk.Select.{selected-IsMessage}
use espresso.Ipp.Walk.Simulate.{run-written, run-viewed}

-- The tag that opens the printer group, if the last group is another one.
abbrev pub opened : ℕ → List Item
opened g = if g == tag_printer then [] else group tag_printer ∷ []

module _ (measure : Measure) (printer_uri authority local_uuid : Bytes) (target : PrinterTarget)
    (heap : Heap) where
  -- What is added behind the copied attributes.
  abbrev pub added : List Item → List Item
  added items =
      opened (last_group 0 items)
      ++ field_items [] (synthesized measure printer_uri local_uuid target (present_of 0 items))

  pub opened-bytes :
      (g : ℕ) (b c : Buffer)
      → (if g == tag_printer then some b else append heap (tag_printer ∷ []) b) ≡ some c
      → c.bytes ≡ b.bytes ++ encode (opened g)
  opened-bytes g b c e = elim (Bool-cases (g == tag_printer)) [
    | inl same ↦ rw same (ground (arith, append-nil b.bytes))
    | inr other ↦ rw other (append-bytes heap (tag_printer ∷ []) b c (rw other at e))
  ]

  pub append_synthesized-bytes :
      (present g : ℕ) (b c : Buffer)
      → append_synthesized measure printer_uri local_uuid target heap present g b ≡ some c
      → (c.bytes
          ≡ b.bytes
            ++ encode (
                opened g
                ++ field_items [] (synthesized measure printer_uri local_uuid target present)))
        × All IsShort (synthesized measure printer_uri local_uuid target present)
  unfolding append_synthesized
  append_synthesized-bytes present g b c e =
      let fs = synthesized measure printer_uri local_uuid target present in
      let (m, first, later) =
        >>=-eq-some (if g == tag_printer then some b else append heap (tag_printer ∷ []) b)
          (append_fields heap fs) e in
      (
        field_items-Writes heap [] fs m c later
            ∙ rw (opened-bytes g b m first, encode-append (opened g) (field_items [] fs))
                (append_assoc b.bytes _ _),
        append_fields-IsShort heap fs m c later,
      )

  pub end-normalized :
      (t : Transform) (doc : Bytes) (b : Buffer)
      → transform_end heap printer_uri authority
          (some (append_synthesized measure printer_uri local_uuid target heap))
          t
          doc
        ≡ some b
      → (b.bytes
          ≡ (t.buffer.bytes
              ++ encode (
                  opened t.current_group
                  ++ field_items [] (synthesized measure printer_uri local_uuid target t.present)))
            ++ (tag_end ∷ doc))
        × All IsShort (synthesized measure printer_uri local_uuid target t.present)
  unfolding transform_end
  end-normalized t doc b e =
      let (m, first, later) =
        >>=-eq-some
          (append_synthesized measure printer_uri local_uuid target heap t.present t.current_group
            t.buffer)
          (λ (x : Buffer). append heap (tag_end ∷ []) x >>= append heap doc) e in
      let (k, second, third) = >>=-eq-some (append heap (tag_end ∷ []) m) (append heap doc) later in
      let (wrote, short) = append_synthesized-bytes t.present t.current_group t.buffer m first in
      (
        append-bytes heap doc k b third
            ∙ rw (append-bytes heap (tag_end ∷ []) m k second, wrote)
                (append_assoc _ (tag_end ∷ []) doc),
        short,
      )

  abbrev pub items_of : Bytes → List Item
  items_of input = (parse_all (drop header_length input)).items

  -- An answer, and what it is normalized to.
  record IsNormalized (input out : Bytes) : Type 0 where
    document : Bytes
    reached : (parse_all (drop header_length input)).ending ≡ Ending.document document
    out_is :
        out
        ≡ take header_length input
          ++ (encode (copied printer_uri authority (items_of input) ++ added (items_of input))
              ++ tag_end ∷ document)
    short :
        All IsShort
          (synthesized measure printer_uri local_uuid target (present_of 0 (items_of input)))

  ended-IsNormalized :
      (input : Bytes) (b : Buffer) (t : Transform) (doc out : Bytes) (n : ℕ)
      → b.bytes ≡ take header_length input
      → walk_all
          (transformer heap printer_uri authority
            (some (append_synthesized measure printer_uri local_uuid target heap)))
          (record { buffer = b; current_group = 0; present = 0 })
          (drop header_length input)
        ≡ ended t doc
      → transform_result heap printer_uri authority
          (some (append_synthesized measure printer_uri local_uuid target heap))
          (length input)
          (ended t doc)
        ≡ ok (out, n)
      → IsNormalized input out
  ended-IsNormalized input b t doc out n hb walked e =
      let f = append_synthesized measure printer_uri local_uuid target heap in
      let parsed = parse_all (drop header_length input) in
      let start : Transform = record { buffer = b; current_group = 0; present = 0 } in
      let h = transformer heap printer_uri authority (some f) in
      let view : Transform → ℕ × ℕ = λ s. (s.present, s.current_group) in
      let account = normalized printer_uri authority in
      let exact = step-normalized printer_uri authority heap f in
      let ran =
        sym (walk-run h (length (drop header_length input)) start [] (drop header_length input))
        ∙ walked in
      let (wrote, reached) =
        run-written h (λ s. s.buffer.bytes) view account exact parsed.items start t parsed.ending
          doc ran in
      let seen =
        run-viewed h (λ s. s.buffer.bytes) view account exact parsed.items start t parsed.ending doc
          ran
        ∙ viewed-of printer_uri authority parsed.items 0 0 in
      let present : t.present ≡ present_of 0 parsed.items = ap (λ (v : ℕ × ℕ). v.0) seen in
      let group_is : t.current_group ≡ last_group 0 parsed.items = ap (λ (v : ℕ × ℕ). v.1) seen in
      elim (Option-cases (transform_end heap printer_uri authority (some f) t doc)) [
        | inl fails ↦ cc (rw (fails, transform_result) at e)
        | inr (last, made) ↦
            let same : last.bytes ≡ out = ground arith in
            let (bytes, short) = end-normalized t doc last made in
            record {
              document = doc;
              reached = reached;
              out_is =
                  sym same
                  ∙ bytes
                  ∙ rw
                      (
                        present,
                        group_is,
                        wrote,
                        hb,
                        written-copied printer_uri authority parsed.items 0 0 0,
                        encode-append (copied printer_uri authority parsed.items)
                            (added parsed.items),
                      )
                      (rearrange (take header_length input) _ _ (tag_end ∷ doc));
              short = rw present at short;
            }
      ]

  outcome-IsNormalized :
      (input : Bytes) (b : Buffer) (o : Outcome Transform Code) (out : Bytes) (n : ℕ)
      → b.bytes ≡ take header_length input
      → walk_all
          (transformer heap printer_uri authority
            (some (append_synthesized measure printer_uri local_uuid target heap)))
          (record { buffer = b; current_group = 0; present = 0 })
          (drop header_length input)
        ≡ o
      → transform_result heap printer_uri authority
          (some (append_synthesized measure printer_uri local_uuid target heap))
          (length input)
          o
        ≡ ok (out, n)
      → IsNormalized input out
  outcome-IsNormalized input b (ended t doc) out n hb walked e =
      ended-IsNormalized input b t doc out n hb walked e
  outcome-IsNormalized input b (left code) out n hb walked e = cc
  outcome-IsNormalized input b (broken code) out n hb walked e = cc
  outcome-IsNormalized input b exhausted out n hb walked e = cc

  transform-IsNormalized :
      (input out : Bytes) (n : ℕ)
      → transform_message heap printer_uri authority
          (some (append_synthesized measure printer_uri local_uuid target heap))
          input
        ≡ ok (out, n)
      → IsNormalized input out × (header_length ≤ length input)
  unfolding transform_message
  transform-IsNormalized input out n e = elim (Bool-cases (ltb (length input) header_length)) [
    | inl short ↦ cc (rw short at e)
    | inr long ↦ elim (Option-cases (append heap (take header_length input) empty)) [
      | inl fails ↦ cc (rw (long, fails) at e)
      | inr (b, made) ↦ (
        outcome-IsNormalized input b _ out n
            (append-bytes heap (take header_length input) empty b made) refl (rw (long, made) at e),
        ground arith,
      )
    ]
  ]

  added-IsMessage :
      (items : List Item) (c : Bytes)
      → (target.resolution_low_dpi ≡ 0 → target.resolution_high_dpi ≡ 0)
      → All IsShort (synthesized measure printer_uri local_uuid target (present_of 0 items))
      → IsMessage c (added items)
  added-IsMessage items c k short =
      let fs = synthesized measure printer_uri local_uuid target (present_of 0 items) in
      let named =
        (synthesized-IsNamed measure printer_uri local_uuid target (present_of 0 items) k).named in
      let m = field_items-started fs named short in
      elim (Bool-cases (last_group 0 items == tag_printer)) [
        | inl same ↦ rw same (m c)
        | inr other ↦ rw other (omega arith, omega arith, m [])
      ]

  -- What is added to an answer without attributes, less what the copied attributes have of it.
  abbrev pub added_lacking : List Item → List Item
  added_lacking items =
      opened (last_group 0 items)
      ++ field_items [] (
          lacking (copied_names printer_uri authority items) true
            (synthesized measure printer_uri local_uuid target 0))

  added-added_lacking :
      (items : List Item)
      → (target.resolution_low_dpi ≡ 0 → target.resolution_high_dpi ≡ 0)
      → added items ≡ added_lacking items
  added-added_lacking items k =
      let leaves = synthesized-Leaves measure printer_uri authority local_uuid target items k in
      rw (leaves.left true) refl

  -- For every heap and every answer of bytes without an error status, whose new values fit, and a
  -- target that has no upper resolution without a lower one: where the normalization succeeds,
  -- what it returns parses to the answer's document and to these items: the answer's with their
  -- new values, less the replaced attributes; a printer group where the last group is another
  -- one; and the attributes that are added to an answer that has none, less, with all their
  -- values, those of the names in `attribute_presence` that the copied items have.
  pub normalize_printer_response-parse_all :
      (input out : Bytes) (n : ℕ)
      → All IsByte input
      → (target.resolution_low_dpi ≡ 0 → target.resolution_high_dpi ≡ 0)
      → All (ValueFits printer_uri authority) (parse_all (drop header_length input)).items
      → message_code input < 0x400
      → normalize_printer_response measure printer_uri local_uuid target heap authority input
        ≡ ok (out, n)
      → ((parse_all (drop header_length out)).items
          ≡ copied printer_uri authority (parse_all (drop header_length input)).items
            ++ added_lacking (parse_all (drop header_length input)).items)
        × ((parse_all (drop header_length out)).ending
            ≡ (parse_all (drop header_length input)).ending)
  unfolding normalize_printer_response
  normalize_printer_response-parse_all input out n bytes k fits good e =
      let (f, long) = transform-IsNormalized input out n (ground arith) in
      let rest = drop header_length input in
      let items = (parse_all rest).items in
      let (_, m) =
        encode-parse (length rest) [] rest f.document (All-drop IsByte header_length input bytes)
          f.reached in
      let whole =
        IsMessage-append (copied printer_uri authority items) (added items) []
          (λ c. added-IsMessage items c k f.short)
          (selected-IsMessage stays _ 0 []
            (output_item-IsMessage printer_uri authority items [] fits m)) in
      let again =
        ap (λ (o : Bytes). parse_all (drop header_length o)) f.out_is
        ∙ parse_all-copy header_length (take header_length input) f.document
            (copied printer_uri authority items ++ added items)
            (length-take_le header_length input long) whole in
      (
        ap (λ (p : Parsed). p.items) again
            ∙ ap (λ (xs : List Item). copied printer_uri authority items ++ xs)
                (added-added_lacking items k),
        ap (λ (p : Parsed). p.ending) again ∙ sym f.reached,
      )
