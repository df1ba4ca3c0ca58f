-- ===== src/Ipp/Filter/Reparse.antt =====
-- The answer that was filtered is again a message, with the items that stay.
use espresso.Prelude.{
  ℕ, ◌≤◌, ◌≡◌, inl, inr, sym, ap, ◌∙◌, arith, List, [], length, take, drop, ltb, All, IsByte, Bytes,
  Bool-cases, length-take_le, All-drop,
}
use espresso.Ipp.{ok}
use espresso.Ipp.Buffer.{Heap}
use espresso.Ipp.Filter.{ResponseKind, included, filter_response}
use espresso.Ipp.Filter.Exact.{kept, filter_response-IsFiltered}
use espresso.Ipp.Rewrite.{header_length}
use espresso.Ipp.Walk.Parse.{Item, Parsed, parse_all}
use espresso.Ipp.Walk.Select.{selected_idem, selected-IsMessage}
use espresso.Ipp.Walk.Message.{parse_all-copy, encode-parse}

filter_response-long :
    (heap : Heap) (kind : ResponseKind) (requested input output : Bytes) (n : ℕ)
    → filter_response heap kind requested input ≡ ok (output, n)
    → header_length ≤ length input
unfolding filter_response
filter_response-long heap kind requested input output n e =
    elim (Bool-cases (ltb (length input) header_length)) [
      | inl short ↦ cc (rw short at e)
      | inr long ↦ ground arith
    ]

module _ (kind : ResponseKind) (requested : Bytes) where
  -- A second selection of items with the same attributes asked for takes nothing more away.
  kept_idem :
      (items : List Item) (g : ℕ)
      → kept kind requested g (kept kind requested g items) ≡ kept kind requested g items
  kept_idem items g = selected_idem (included kind requested) items g

module _ (heap : Heap) (kind : ResponseKind) (requested : Bytes) where
  -- For every heap and every answer of bytes: where the filter succeeds, what it returns parses to
  -- exactly the items that stay, with the document of the input.
  pub filter_response-parse_all :
      (input output : Bytes) (n : ℕ)
      → All IsByte input
      → filter_response heap kind requested input ≡ ok (output, n)
      → (parse_all (drop header_length output)).items
          ≡ kept kind requested 0 (parse_all (drop header_length input)).items
        × (parse_all (drop header_length output)).ending
          ≡ (parse_all (drop header_length input)).ending
  filter_response-parse_all input output n bytes e =
      let f = filter_response-IsFiltered kind requested heap input output n e in
      let rest = drop header_length input in
      let (_, m) =
        encode-parse (length rest) [] rest f.document (All-drop IsByte header_length input bytes)
          f.reached in
      let again =
        ap (λ (o : Bytes). parse_all (drop header_length o)) f.output_is
        ∙ parse_all-copy header_length (take header_length input) f.document
            (kept kind requested 0 (parse_all rest).items)
            (length-take_le header_length input
              (filter_response-long heap kind requested input output n e))
            (selected-IsMessage (included kind requested) (parse_all rest).items 0 [] m) in
      (ap (λ (p : Parsed). p.items) again, ap (λ (p : Parsed). p.ending) again ∙ sym f.reached)
