-- ===== src/Ipp/Build/Laws.antt =====
-- The built messages, parsed.
use espresso.Prelude.{
  ℕ, ◌<◌, ◌≡◌, refl, sym, ap, ◌∙◌, arith, Bool, true, false, not, Option, none, some, List, [], ◌∷◌,
  ◌++◌, length, drop, ◌==◌, equal, Bytes, codes, c_str, >>=-eq-some, append_assoc, append-nil,
  Bool-cases, inl, inr,
}
use espresso.Ipp.{ok}
use espresso.Ipp.Buffer.{Heap, Buffer, empty, be16, be32, append, append_string, attribute_bytes}
use espresso.Ipp.Buffer.Laws.{Writes, Writes->>=, append-bytes, append_attribute-Writes}
use espresso.Ipp.Build.{
  message_header, when, built, append_leading, append_query, build_get_printer_attributes,
}
use espresso.Ipp.Inspect.{
  tag_charset, tag_language, tag_keyword, tag_mimetype, is_charset, is_language,
}
use espresso.Ipp.Inspect.Order.{ordered, leading, tail_ordered}
use espresso.Ipp.Rewrite.{header_length, tag_uri}
use espresso.Ipp.Select.{tag_operation}
use espresso.Ipp.Walk.{tag_end, is_empty}
use espresso.Ipp.Walk.Parse.{Item, group, value, document, Parsed, parse_all}
use espresso.Ipp.Walk.Format.{encode, item_bytes, IsAttribute, IsMessage}
use espresso.Ipp.Walk.Message.{parse_all-copy}

abbrev pub named : ℕ → Bytes → Bytes → Item
named tag name v = value (record { tag = tag; name_field = name; name = name; value = v })

-- Another value of an attribute.
abbrev pub more : ℕ → Bytes → Bytes → Item
more tag name v = value (record { tag = tag; name_field = []; name = name; value = v })

abbrev pub leading_items : List Item → List Item
leading_items items =
    group tag_operation
    ∷ named tag_charset (codes "attributes-charset") (codes "utf-8")
    ∷ named tag_language (codes "attributes-natural-language") (codes "en")
    ∷ items

-- The format, and the database as one more value of the attribute in front of it.
abbrev pub query_end : Bytes → Bool → List Item
query_end [] false = []
query_end [] true =
    more tag_keyword (codes "requested-attributes") (codes "media-col-database") ∷ []
query_end (c ∷ cs) false = named tag_mimetype (codes "document-format") (c ∷ cs) ∷ []
query_end (c ∷ cs) true =
    named tag_mimetype (codes "document-format") (c ∷ cs)
    ∷ more tag_keyword (codes "document-format") (codes "media-col-database")
    ∷ []

abbrev pub query_items : Bytes → Bytes → Bool → List Item
query_items printer_uri format media = leading_items (
    named tag_uri (codes "printer-uri") printer_uri
    ∷ named tag_keyword (codes "requested-attributes") (codes "all")
    ∷ query_end format media)

abbrev charset_bytes : Bytes
charset_bytes = attribute_bytes tag_charset (codes "attributes-charset") (codes "utf-8")

abbrev language_bytes : Bytes
language_bytes = attribute_bytes tag_language (codes "attributes-natural-language") (codes "en")

abbrev all_bytes : Bytes
all_bytes = attribute_bytes tag_keyword (codes "requested-attributes") (codes "all")

abbrev pub when_bytes : Bool → Bytes → Bytes
when_bytes true d = d
when_bytes false d = []

leading_shape :
    (a b c d q t : Bytes) → (a ++ b) ++ (c ++ (d ++ (q ++ t))) ≡ (a ++ (b ++ (c ++ (d ++ q)))) ++ t
leading_shape a b c d q t = simp append_assoc

query_end_bytes :
    (format : Bytes) (media : Bool) (t : Bytes)
    → when_bytes
          (not (is_empty format))
          (attribute_bytes tag_mimetype (codes "document-format") format)
        ++ (when_bytes media (attribute_bytes tag_keyword [] (codes "media-col-database")) ++ t)
      ≡ encode (query_end format media) ++ t
query_end_bytes [] false t = refl
query_end_bytes [] true t = rw append-nil refl
query_end_bytes (c ∷ cs) false t = rw append-nil refl
query_end_bytes (c ∷ cs) true t = simp (append_assoc, append-nil)

module _ (heap : Heap) where
  pub leading-Writes : Writes (append_leading heap) (
      attribute_bytes tag_charset (codes "attributes-charset") (codes "utf-8")
      ++ attribute_bytes tag_language (codes "attributes-natural-language") (codes "en"))
  unfolding append_leading
  leading-Writes =
      Writes->>= (append_string heap tag_charset (codes "attributes-charset") (codes "utf-8"))
        (append_string heap tag_language (codes "attributes-natural-language") (codes "en")) _ _
        (append_attribute-Writes heap tag_charset (codes "attributes-charset") (codes "utf-8"))
        (append_attribute-Writes heap tag_language (codes "attributes-natural-language")
          (codes "en"))

  pub when-Writes :
      (t : Bool) (f : Buffer → Option Buffer) (d : Bytes)
      → Writes f d
      → Writes (when t f) (when_bytes t d)
  when-Writes true f d w = w
  when-Writes false f d w = λ b c e. ground (arith, append-nil b.bytes)

  query-Writes :
      (uri format : Bytes) (media : Bool)
      → Writes
          (append_query heap uri format media)
          (encode (drop 1 (query_items uri format media)) ++ tag_end ∷ [])
  unfolding append_query
  query-Writes uri format media b c e =
      let w = Writes->>= (append_leading heap) _ _ _ leading-Writes (
        Writes->>= (append_string heap tag_uri (codes "printer-uri") uri) _ _ _
          (append_attribute-Writes heap tag_uri (codes "printer-uri") uri)
          (Writes->>= (append_string heap tag_keyword (codes "requested-attributes") (codes "all"))
            _ _ _
            (append_attribute-Writes heap tag_keyword (codes "requested-attributes") (codes "all"))
            (Writes->>=
              (when (not (is_empty format))
                (append_string heap tag_mimetype (codes "document-format") format))
              _ _ _
              (when-Writes (not (is_empty format)) _ _
                (append_attribute-Writes heap tag_mimetype (codes "document-format") format))
              (Writes->>=
                (when media (append_string heap tag_keyword [] (codes "media-col-database"))) _ _ _
                (when-Writes media _ _
                  (append_attribute-Writes heap tag_keyword [] (codes "media-col-database")))
                (append-bytes heap (tag_end ∷ [])))))) in
      w b c e
      ∙ ap (λ (s : Bytes). b.bytes ++ s)
          (ap
              (λ (q : Bytes).
                (charset_bytes ++ language_bytes)
                ++ (item_bytes (named tag_uri (codes "printer-uri") uri) ++ (all_bytes ++ q)))
              (query_end_bytes format media (tag_end ∷ []))
            ∙ leading_shape charset_bytes language_bytes
                (item_bytes (named tag_uri (codes "printer-uri") uri)) all_bytes
                (encode (query_end format media)) (tag_end ∷ []))

pub named-IsAttribute :
    (tag c : ℕ) (name v current : Bytes)
    → 15 < tag
    → length name < 255
    → length v < 65536
    → c ∷ name ≡ c_str (c ∷ name)
    → IsAttribute current (record { tag = tag; name_field = c ∷ name; name = c ∷ name; value = v })
named-IsAttribute tag c name v current t n l e = record {
  tag_above = t;
  name_fits = omega arith;
  value_fits = l;
  named = inl (λ d. cc, e);
}

more-IsAttribute :
    (tag c : ℕ) (name v : Bytes)
    → 15 < tag
    → length v < 65536
    → IsAttribute (c ∷ name) (record { tag = tag; name_field = []; name = c ∷ name; value = v })
more-IsAttribute tag c name v t l = record {
  tag_above = t;
  name_fits = omega arith;
  value_fits = l;
  named = inr (refl, refl, λ d. cc);
}

query_end-IsMessage :
    (format : Bytes) (media : Bool)
    → length format < 65536
    → IsMessage (codes "requested-attributes") (query_end format media)
unfolding c_str
query_end-IsMessage [] false h = tt
query_end-IsMessage [] true h = (more-IsAttribute tag_keyword _ _ _ (omega arith) (omega arith), tt)
query_end-IsMessage (c ∷ cs) false h =
    (named-IsAttribute tag_mimetype _ _ (c ∷ cs) _ (omega arith) (omega arith) h refl, tt)
query_end-IsMessage (c ∷ cs) true h = (
  named-IsAttribute tag_mimetype _ _ (c ∷ cs) _ (omega arith) (omega arith) h refl,
  (more-IsAttribute tag_keyword _ _ _ (omega arith) (omega arith), tt),
)

query_items-IsMessage :
    (uri format : Bytes) (media : Bool)
    → length uri < 65536
    → length format < 65536
    → IsMessage [] (query_items uri format media)
unfolding c_str
query_items-IsMessage uri format media hu hf = (
  omega arith,
  omega arith,
  (
    named-IsAttribute tag_charset _ _ _ [] (omega arith) (omega arith) (omega arith) refl,
    (
      named-IsAttribute tag_language _ _ _ _ (omega arith) (omega arith) (omega arith) refl,
      (
        named-IsAttribute tag_uri _ _ uri _ (omega arith) (omega arith) hu refl,
        (
          named-IsAttribute tag_keyword _ _ _ _ (omega arith) (omega arith) (omega arith) refl,
          query_end-IsMessage format media hf,
        ),
      ),
    ),
  ),
)

query_items-ordered :
    (uri format : Bytes) (media : Bool) → ordered (query_items uri format media) ≡ true
unfolding ordered leading tail_ordered is_charset is_language equal
query_items-ordered uri [] false = refl
query_items-ordered uri [] true = refl
query_items-ordered uri (c ∷ cs) false = refl
query_items-ordered uri (c ∷ cs) true = refl

pub header_size :
    (major minor code id : ℕ) → length (message_header major minor code id) ≡ header_length
unfolding be16 be32
header_size major minor code id = refl

pub built-some :
    (o : Option Buffer) (output : Bytes)
    → built o ≡ ok output
    → (b : Buffer) × (o ≡ some b) × (b.bytes ≡ output)
built-some none output e = cc
built-some (some b) output e = (b, refl, ground arith)

module _ (heap : Heap) where
  query-bytes :
      (major minor id : ℕ) (uri format output : Bytes) (media : Bool)
      → build_get_printer_attributes heap major minor id uri media format ≡ ok output
      → output
        ≡ message_header major minor 11 id
          ++ (encode (query_items uri format media) ++ tag_end ∷ [])
  unfolding build_get_printer_attributes
  query-bytes major minor id uri format output media e = elim (Bool-cases (major == 0)) [
    | inl zero ↦ cc (rw zero at e)
    | inr other ↦
        let head = message_header major minor 11 id in
        let (c, done, same) = built-some _ output (rw other at e) in
        let (b, made, later) =
          >>=-eq-some (append heap (head ++ tag_operation ∷ []) empty)
            (append_query heap uri format media) done in
        sym same
        ∙ query-Writes heap uri format media b c later
        ∙ ap (λ (s : Bytes). s ++ (encode (drop 1 (query_items uri format media)) ++ tag_end ∷ []))
            (append-bytes heap (head ++ tag_operation ∷ []) empty b made)
        ∙ append_assoc head (tag_operation ∷ []) _
  ]

  -- For every heap, a URI and a format that fit a length field: a Get-Printer-Attributes request
  -- that is built parses to charset, language, URI, requested attributes and the format unless it
  -- is empty, and is ordered as an inspected request has to be. Where `media-col-database` is
  -- asked for, it is one more value of `document-format` if there is a format, and of `requested-
  -- attributes` if not.
  pub build_get_printer_attributes-parse_all :
      (major minor id : ℕ) (uri format output : Bytes) (media : Bool)
      → length uri < 65536
      → length format < 65536
      → build_get_printer_attributes heap major minor id uri media format ≡ ok output
      → (parse_all (drop header_length output)
          ≡ record { items = query_items uri format media; ending = document [] })
        × (ordered (parse_all (drop header_length output)).items ≡ true)
  build_get_printer_attributes-parse_all major minor id uri format output media hu hf e =
      let parsed =
        ap (λ (o : Bytes). parse_all (drop header_length o))
          (query-bytes major minor id uri format output media e)
        ∙ parse_all-copy header_length (message_header major minor 11 id) []
            (query_items uri format media) (header_size major minor 11 id)
            (query_items-IsMessage uri format media hu hf) in
      (parsed, ap (λ (p : Parsed). ordered p.items) parsed ∙ query_items-ordered uri format media)
