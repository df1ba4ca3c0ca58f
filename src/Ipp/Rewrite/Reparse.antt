-- ===== src/Ipp/Rewrite/Reparse.antt =====
-- What `ipp_codec_rewrite` returns, read again.
use espresso.Prelude.{
  ℕ, ◌≤◌, ◌<◌, ◌≡◌, sym, ap, ◌∙◌, arith, List, [], ◌∷◌, map, length, take, drop, ltb, All, IsByte,
  Bytes, Bool-cases, inl, inr, All-drop, length-take_le,
}
use espresso.Ipp.{ok}
use espresso.Ipp.Buffer.{Heap}
use espresso.Ipp.Rewrite.{header_length, rewrite, transform_message}
use espresso.Ipp.Rewrite.Exact.{output_value, output_item, rewrite-IsRewritten}
use espresso.Ipp.Walk.Parse.{Item, group, value, Parsed, parse_all}
use espresso.Ipp.Walk.Format.{IsMessage}
use espresso.Ipp.Walk.Message.{encode-parse, parse_all-copy}

module _ (printer_uri authority : Bytes) where
  -- The new value of an attribute fits its length field.
  abbrev pub ValueFits : Item → Type 0
  ValueFits (group g) = Unit
  ValueFits (value a) = length (output_value printer_uri authority a) < 65536

  pub output_item-IsMessage :
      (items : List Item) (current : Bytes)
      → All ValueFits items
      → IsMessage current items
      → IsMessage current (map (output_item printer_uri authority) items)
  output_item-IsMessage [] current f m = tt
  output_item-IsMessage (group g ∷ items) current (_, f) (small, ne, m) =
      (small, ne, output_item-IsMessage items [] f m)
  output_item-IsMessage (value a ∷ items) current (fits, f) (v, m) = (
    record { tag_above = v.tag_above; name_fits = v.name_fits; value_fits = fits; named = v.named },
    output_item-IsMessage items a.name f m,
  )

  rewrite-long :
      (heap : Heap) (input output : Bytes) (n : ℕ)
      → rewrite heap printer_uri authority input ≡ ok (output, n)
      → header_length ≤ length input
  unfolding rewrite transform_message
  rewrite-long heap input output n e = elim (Bool-cases (ltb (length input) header_length)) [
    | inl short ↦ cc (rw short at e)
    | inr long ↦ ground arith
  ]

  -- For every heap and every message of bytes whose new values fit: where the rewrite succeeds, what
  -- it returns parses to the items with their new values, and the document of the input.
  pub rewrite-parse_all :
      (heap : Heap) (input output : Bytes) (n : ℕ)
      → All IsByte input
      → All ValueFits (parse_all (drop header_length input)).items
      → rewrite heap printer_uri authority input ≡ ok (output, n)
      → ((parse_all (drop header_length output)).items
          ≡ map (output_item printer_uri authority) (parse_all (drop header_length input)).items)
        × ((parse_all (drop header_length output)).ending
            ≡ (parse_all (drop header_length input)).ending)
  rewrite-parse_all heap input output n bytes fits e =
      let f = rewrite-IsRewritten printer_uri authority heap input output n e in
      let rest = drop header_length input in
      let items = map (output_item printer_uri authority) (parse_all rest).items in
      let (_, m) =
        encode-parse (length rest) [] rest f.document (All-drop IsByte header_length input bytes)
          f.reached in
      let again =
        ap (λ (o : Bytes). parse_all (drop header_length o)) f.output_is
        ∙ parse_all-copy header_length (take header_length input) f.document items
            (length-take_le header_length input (rewrite-long heap input output n e))
            (output_item-IsMessage (parse_all rest).items [] fits m) in
      (ap (λ (p : Parsed). p.items) again, ap (λ (p : Parsed). p.ending) again ∙ sym f.reached)
