-- ===== src/Ipp/Filter/Exact.antt =====
-- What `ipp_codec_filter_response` writes.
use espresso.Prelude.{
  ℕ, ◌+◌, ◌≡◌, refl, sym, ap, ap₂, ◌∙◌, arith, Option, none, some, List, [], ◌∷◌, ◌++◌, length,
  take, drop, ltb, if◌then◌else◌, Bytes, ◌>>=◌, >>=-eq-some, append-nil, append_assoc, Bool-cases,
  Option-cases, inl, inr, length-append,
}
use espresso.Ipp.{Code, ok}
use espresso.Ipp.Buffer.{Heap, Buffer, empty, append}
use espresso.Ipp.Buffer.Laws.{append-bytes}
use espresso.Ipp.Filter.{
  ResponseKind, included, Filtering, continue, filter_group, filter_attribute, filterer, filter_end,
  filter_result, filter_response,
}
use espresso.Ipp.Rewrite.{header_length}
use espresso.Ipp.Walk.{next, Outcome, ended, left, broken, exhausted, walk_all, tag_end}
use espresso.Ipp.Walk.Parse.{Item, group, value, Ending, parse_all, walk-run}
use espresso.Ipp.Walk.Format.{encode, item_bytes}
use espresso.Ipp.Walk.Select.{selected}
use espresso.Ipp.Walk.Simulate.{step, written, run-written}

module _ (kind : ResponseKind) (requested : Bytes) where
  -- The items that stay, from a group on: all group tags, and the attributes asked for.
  abbrev pub kept : ℕ → List Item → List Item
  kept g items = selected (included kind requested) g items

  abbrev pub account : ℕ → Item → ℕ × Bytes
  account g (group h) = (h, h ∷ [])
  account g (value a) = (g, (if included kind requested g a.name then item_bytes (value a) else []))

  written-kept : (g : ℕ) (items : List Item) → written account g items ≡ encode (kept g items)
  written-kept g [] = refl
  written-kept g (group h ∷ items) = ap (◌∷◌ h) (written-kept h items)
  written-kept g (value a ∷ items) = elim (Bool-cases (included kind requested g a.name)) [
    | inl e ↦ rw e (ap (◌++◌ (item_bytes (value a))) (written-kept g items))
    | inr e ↦ rw e (written-kept g items)
  ]

  -- A message, and its copy with the items that stay.
  pub record IsFiltered (input output : Bytes) (n : ℕ) : Type 0 where
    pub document : Bytes
    pub reached : (parse_all (drop header_length input)).ending ≡ Ending.document document
    pub output_is :
        output
        ≡ take header_length input
          ++ (encode (kept 0 (parse_all (drop header_length input)).items) ++ tag_end ∷ document)
    pub length_is : n + length document ≡ length output

  module _ (heap : Heap) where
    continue-next :
        (s t : Filtering) (o : Option Buffer)
        → continue heap kind requested s o ≡ next t
        → (o ≡ some t.buffer) × (t.current_group ≡ s.current_group)
    continue-next s t none e = cc
    continue-next s t (some b) e = (ground arith, ground arith)

    step-account :
        (s t : Filtering) (i : Item)
        → step (filterer heap kind requested) s i ≡ next t
        → (t.buffer.bytes ≡ s.buffer.bytes ++ (account s.current_group i).1)
          × (t.current_group ≡ (account s.current_group i).0)
    unfolding filter_group filter_attribute
    step-account s t (group g) e =
        let (made, same) = continue-next (record s { current_group = g }) t _ e in
        (append-bytes heap (g ∷ []) s.buffer t.buffer made, same)
    step-account s t (value a) e =
        elim (Bool-cases (included kind requested s.current_group a.name)) [
          | inl stays ↦
              let (made, same) = continue-next s t _ (rw stays at e) in
              rw stays (append-bytes heap (item_bytes (value a)) s.buffer t.buffer made, same)
          | inr goes ↦
              let same : s ≡ t = ground arith in
              rw goes (
                ap (λ (u : Filtering). u.buffer.bytes) (sym same) ∙ sym (append-nil s.buffer.bytes),
                ap (λ (u : Filtering). u.current_group) (sym same),
              )
        ]

    end-bytes :
        (t : Filtering) (doc o : Bytes) (n : ℕ)
        → filter_end heap kind requested t doc ≡ some (o, n)
        → (o ≡ t.buffer.bytes ++ (tag_end ∷ doc)) × (n + length doc ≡ length o)
    unfolding filter_end
    end-bytes t doc o n e =
        let (b, tagged, later) =
          >>=-eq-some (append heap (tag_end ∷ []) t.buffer)
            (λ b. append heap doc b >>= λ c. some (c.bytes, length b.bytes)) e in
        let (c, copied, last) =
          >>=-eq-some (append heap doc b) (λ c. some (c.bytes, length b.bytes)) later in
        let whole : c.bytes ≡ t.buffer.bytes ++ (tag_end ∷ doc) =
          append-bytes heap doc b c copied
          ∙ ap (λ (s : Bytes). s ++ doc) (append-bytes heap (tag_end ∷ []) t.buffer b tagged)
          ∙ append_assoc t.buffer.bytes (tag_end ∷ []) doc in
        let out : (c.bytes ≡ o) × (length b.bytes ≡ n) = ground arith in
        (
          sym out.0 ∙ whole,
          omega (
            arith,
            out.1,
            ap length out.0,
            ap length (append-bytes heap doc b c copied),
            length-append b.bytes doc,
          ),
        )

    outcome-IsFiltered :
        (input : Bytes) (b : Buffer) (w : Outcome Filtering Code) (output : Bytes) (n : ℕ)
        → b.bytes ≡ take header_length input
        → walk_all
            (filterer heap kind requested)
            (record { buffer = b; current_group = 0 })
            (drop header_length input)
          ≡ w
        → filter_result heap kind requested w ≡ ok (output, n)
        → IsFiltered input output n
    outcome-IsFiltered input b (ended t doc) output n hb walked e =
        let parsed = parse_all (drop header_length input) in
        let start : Filtering = record { buffer = b; current_group = 0 } in
        let h = filterer heap kind requested in
        let (wrote, reached) =
          run-written h (λ s. s.buffer.bytes) (λ s. s.current_group) account step-account
            parsed.items start t parsed.ending doc
            (sym
                (walk-run h (length (drop header_length input)) start [] (drop header_length input))
              ∙ walked) in
        elim (Option-cases (filter_end heap kind requested t doc)) [
          | inl fails ↦ cc (rw (fails, filter_result) at e)
          | inr ((o, k), made) ↦
              let same : (o ≡ output) × (k ≡ n) = ground arith in
              let (whole, lengths) = end-bytes t doc o k made in
              record {
                document = doc;
                reached = reached;
                output_is =
                    sym same.0
                    ∙ whole
                    ∙ ap (λ (s : Bytes). s ++ tag_end ∷ doc)
                        (wrote ∙ ap₂ ◌++◌ hb (written-kept 0 parsed.items))
                    ∙ append_assoc (take header_length input) _ (tag_end ∷ doc);
                length_is = omega (arith, lengths, same.1, ap length same.0);
              }
        ]
    outcome-IsFiltered input b (left code) output n hb walked e = cc
    outcome-IsFiltered input b (broken code) output n hb walked e = cc
    outcome-IsFiltered input b exhausted output n hb walked e = cc

    -- For every heap: where the filter succeeds, the answer had a complete envelope, and the output
    -- is its header, the items that stay, the end tag and the document, whose place is the length
    -- that is returned.
    pub filter_response-IsFiltered :
        (input output : Bytes) (n : ℕ)
        → filter_response heap kind requested input ≡ ok (output, n)
        → IsFiltered input output n
    unfolding filter_response
    filter_response-IsFiltered input output n e =
        elim (Bool-cases (ltb (length input) header_length)) [
          | inl short ↦ cc (rw short at e)
          | inr long ↦ elim (Option-cases (append heap (take header_length input) empty)) [
            | inl fails ↦ cc (rw (long, fails) at e)
            | inr (b, made) ↦
                outcome-IsFiltered input b _ output n
                  (append-bytes heap (take header_length input) empty b made) refl
                  (rw (long, made) at e)
          ]
        ]
