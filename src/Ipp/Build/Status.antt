-- ===== src/Ipp/Build/Status.antt =====
-- The built status response, parsed.
use espresso.Prelude.{
  ℕ, ◌<◌, ◌≡◌, refl, sym, ap, ◌∙◌, arith, not, List, [], ◌∷◌, ◌++◌, length, drop, ◌==◌, Bytes,
  codes, c_str, >>=-eq-some, append_assoc, append-nil, Bool-cases, inl, inr,
}
use espresso.Ipp.{ok}
use espresso.Ipp.Buffer.{Heap, empty, be16, be32, read_u16, append, append_string, attribute_bytes}
use espresso.Ipp.Buffer.Laws.{Writes, Writes->>=, append-bytes, append_attribute-Writes}
use espresso.Ipp.Build.{message_header, when, append_leading, append_status, build_status_response}
use espresso.Ipp.Build.Laws.{
  named, leading_items, when_bytes, leading-Writes, when-Writes, named-IsAttribute, built-some,
  header_size,
}
use espresso.Ipp.Inspect.{tag_charset, tag_language, tag_text, message_code}
use espresso.Ipp.Rewrite.{header_length}
use espresso.Ipp.Select.{tag_operation}
use espresso.Ipp.Walk.{tag_end, is_empty}
use espresso.Ipp.Walk.Parse.{Item, document, parse_all}
use espresso.Ipp.Walk.Format.{encode, IsMessage}
use espresso.Ipp.Walk.Message.{parse_all-copy}

abbrev pub status_end : Bytes → List Item
status_end [] = []
status_end (c ∷ cs) = named tag_text (codes "status-message") (c ∷ cs) ∷ []

abbrev pub status_items : Bytes → List Item
status_items message = leading_items (status_end message)

status_shape :
    (a b : Bytes) (message t : Bytes)
    → (a ++ b)
        ++ (when_bytes
              (not (is_empty message))
              (attribute_bytes tag_text (codes "status-message") message)
            ++ t)
      ≡ (a ++ (b ++ encode (status_end message))) ++ t
status_shape a b [] t = simp (append_assoc, append-nil)
status_shape a b (c ∷ cs) t = simp (append_assoc, append-nil)

status_items-IsMessage :
    (message : Bytes) → length message < 65536 → IsMessage [] (status_items message)
unfolding c_str
status_items-IsMessage [] h = (
  omega arith,
  omega arith,
  (
    named-IsAttribute tag_charset _ _ _ [] (omega arith) (omega arith) (omega arith) refl,
    (named-IsAttribute tag_language _ _ _ _ (omega arith) (omega arith) (omega arith) refl, tt),
  ),
)
status_items-IsMessage (c ∷ cs) h = (
  omega arith,
  omega arith,
  (
    named-IsAttribute tag_charset _ _ _ [] (omega arith) (omega arith) (omega arith) refl,
    (
      named-IsAttribute tag_language _ _ _ _ (omega arith) (omega arith) (omega arith) refl,
      (named-IsAttribute tag_text _ _ (c ∷ cs) _ (omega arith) (omega arith) h refl, tt),
    ),
  ),
)

header-code :
    (major minor code id : ℕ) (rest : Bytes)
    → code < 65536
    → message_code (message_header major minor code id ++ rest) ≡ code
unfolding message_code be16 be32 read_u16
header-code major minor code id rest h = ground arith

module _ (heap : Heap) where
  status-Writes :
      (message : Bytes)
      → Writes (append_status heap message) (encode (drop 1 (status_items message)) ++ tag_end ∷ [])
  unfolding append_status
  status-Writes message b c e =
      let text = append_string heap tag_text (codes "status-message") message in
      let w = Writes->>= (append_leading heap) _ _ _ (leading-Writes heap) (
        Writes->>= (when (not (is_empty message)) text) _ _ _
          (when-Writes heap (not (is_empty message)) text _
            (append_attribute-Writes heap tag_text (codes "status-message") message))
          (append-bytes heap (tag_end ∷ []))) in
      w b c e
      ∙ ap (λ (s : Bytes). b.bytes ++ s)
          (status_shape (attribute_bytes tag_charset (codes "attributes-charset") (codes "utf-8"))
            (attribute_bytes tag_language (codes "attributes-natural-language") (codes "en"))
            message (tag_end ∷ []))

  status-bytes :
      (major minor code id : ℕ) (message output : Bytes)
      → build_status_response heap major minor code id message ≡ ok output
      → output
        ≡ message_header major minor code id ++ (encode (status_items message) ++ tag_end ∷ [])
  unfolding build_status_response
  status-bytes major minor code id message output e = elim (Bool-cases (major == 0)) [
    | inl zero ↦ cc (rw zero at e)
    | inr other ↦
        let head = message_header major minor code id in
        let (c, done, same) = built-some _ output (rw other at e) in
        let (b, made, later) =
          >>=-eq-some (append heap (head ++ tag_operation ∷ []) empty) (append_status heap message)
            done in
        sym same
        ∙ status-Writes message b c later
        ∙ ap (λ (s : Bytes). s ++ (encode (drop 1 (status_items message)) ++ tag_end ∷ []))
            (append-bytes heap (head ++ tag_operation ∷ []) empty b made)
        ∙ append_assoc head (tag_operation ∷ []) _
  ]

  -- For every heap, a status of 16 bits and a message that fits its length field: a status response
  -- that is built carries that status and parses to charset, language and, unless it is empty, the
  -- message, with no document behind them.
  pub build_status_response-parse_all :
      (major minor code id : ℕ) (message output : Bytes)
      → code < 65536
      → length message < 65536
      → build_status_response heap major minor code id message ≡ ok output
      → (message_code output ≡ code)
        × (parse_all (drop header_length output)
            ≡ record { items = status_items message; ending = document [] })
  build_status_response-parse_all major minor code id message output hc hm e =
      let whole = status-bytes major minor code id message output e in
      (
        ap message_code whole ∙ header-code major minor code id _ hc,
        ap (λ (o : Bytes). parse_all (drop header_length o)) whole
            ∙ parse_all-copy header_length (message_header major minor code id) []
                (status_items message) (header_size major minor code id)
                (status_items-IsMessage message hm),
      )
