-- ===== src/Ipp/JobDefaults/Request.antt =====
-- A client's request on its way to the printer: both steps of `ipp_codec_rewrite_request`.
use espresso.Prelude.{
  ℕ, ◌≡◌, refl, sym, ap, ◌∙◌, arith, Option, List, ◌∷◌, ◌++◌, map, length, take, drop, All, IsByte,
  Bytes, true, ltb, ◌≤◌, subst, Bool-cases, inl, inr, drop-append, length-take_le,
}
use espresso.Ipp.{Result, ok, err}
use espresso.Ipp.Buffer.{Heap}
use espresso.Ipp.JobDefaults.{normalize, rewrite_request}
use espresso.Ipp.JobDefaults.Exact.{normalized, Accepted, normalize-IsNormalized}
use espresso.Ipp.Rewrite.{header_length, rewrite}
use espresso.Ipp.Rewrite.Exact.{output_item}
use espresso.Ipp.Rewrite.Reparse.{ValueFits, rewrite-parse_all}
use espresso.Ipp.Target.{PrinterTarget}
use espresso.Ipp.Walk.{tag_end}
use espresso.Ipp.Walk.Parse.{Item, Ending, parse_all}
use espresso.Ipp.Walk.Format.{encode}

module _ (target : PrinterTarget) (upstream : Option Bytes) (printer_uri authority : Bytes) where
  -- The items that the printer gets.
  abbrev pub sent_items : Bytes → List Item
  sent_items input =
      normalized target upstream 0 true
        (map (output_item printer_uri authority) (parse_all (drop header_length input)).items)

  normalize-long :
      (heap : Heap) (rejected_size : ℕ) (input output name : Bytes) (n : ℕ)
      → normalize heap target upstream rejected_size input ≡ (ok (output, n), name)
      → header_length ≤ length input
  unfolding normalize
  normalize-long heap rejected_size input output name n e =
      elim (Bool-cases (ltb (length input) header_length)) [
        | inl short ↦ cc (rw short at e)
        | inr long ↦ ground arith
      ]

  -- A request that is rewritten went through both steps.
  both_steps :
      (heap : Heap) (rejected_size : ℕ) (input output name : Bytes) (n : ℕ)
      → (r : Result (Bytes × ℕ)) → rewrite heap printer_uri authority input ≡ r
      → rewrite_request heap target upstream rejected_size printer_uri authority input
        ≡ (ok (output, n), name)
      → (middle : Bytes) × (k : ℕ) × (rewrite heap printer_uri authority input ≡ ok (middle, k))
        × (normalize heap target upstream rejected_size middle ≡ (ok (output, n), name))
  unfolding rewrite_request
  both_steps heap rejected_size input output name n (err code) made e =
      cc (rw (made, rewrite_request) at e)
  both_steps heap rejected_size input output name n (ok (middle, k)) made e =
      (middle, k, made, rw (made, rewrite_request) at e)

  -- For every heap and every request of bytes whose new values fit: where the request is rewritten,
  -- no job attribute was refused, and the output carries the document of the input behind the items
  -- with their URIs replaced and the job attributes normalized.
  pub rewrite_request-sent :
      (heap : Heap) (rejected_size : ℕ) (input output name : Bytes) (n : ℕ)
      → All IsByte input
      → All (ValueFits printer_uri authority) (parse_all (drop header_length input)).items
      → rewrite_request heap target upstream rejected_size printer_uri authority input
        ≡ (ok (output, n), name)
      → Accepted target upstream 0
          (map (output_item printer_uri authority) (parse_all (drop header_length input)).items)
        × ((document : Bytes) × ((parse_all (drop header_length input)).ending
              ≡ Ending.document document)
            × (drop header_length output ≡ encode (sent_items input) ++ tag_end ∷ document))
  rewrite_request-sent heap rejected_size input output name n bytes fits e =
      let (middle, k, made, done) =
        both_steps heap rejected_size input output name n (rewrite heap printer_uri authority input)
          refl e in
      let (items, ending) =
        rewrite-parse_all printer_uri authority heap input middle k bytes fits made in
      let f = normalize-IsNormalized target upstream heap rejected_size middle output name n done in
      let header_is =
        length-take_le header_length middle
          (normalize-long heap rejected_size middle output name n done) in
      (
        subst (Accepted target upstream 0) items f.accepted,
        (
          f.document,
          sym ending ∙ f.reached,
          ap (drop header_length) f.output_is
              ∙ ap
                  (λ (j : ℕ). drop j (
                    take header_length middle
                    ++ (encode (
                          normalized target upstream 0 true
                            (parse_all (drop header_length middle)).items)
                        ++ tag_end ∷ f.document)))
                  (sym header_is)
              ∙ drop-append (take header_length middle) _
              ∙ ap
                  (λ (is : List Item).
                    encode (normalized target upstream 0 true is) ++ tag_end ∷ f.document)
                  items,
        ),
      )
