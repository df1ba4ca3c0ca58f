-- ===== src/Ipp/Build/Tests.antt =====
-- Runs of the builders.
use espresso.Prelude.{◌≡◌, refl, arith, true, [], ◌∷◌, ◌++◌, drop, Bytes, codes}
use espresso.Ipp.{ok}
use espresso.Ipp.Buffer.{
  Heap, be16, be32, attribute_bytes, append, append_u16, append_attribute, extend, allocate, grow,
  new_capacity,
}
use espresso.Ipp.Build.{
  message_header, append_leading, append_query, build_get_printer_attributes, append_status,
  build_status_response,
}
use espresso.Ipp.Build.Laws.{query_items, build_get_printer_attributes-parse_all}
use espresso.Ipp.Build.Status.{status_items, build_status_response-parse_all}
use espresso.Ipp.Inspect.{message_code}
use espresso.Ipp.Inspect.Order.{ordered}
use espresso.Ipp.Rewrite.{header_length}
use espresso.Ipp.Walk.{tag_end}
use espresso.Ipp.Walk.Parse.{document, parse_all}
use espresso.Ipp.Walk.Format.{encode}

abbrev roomy : Heap
roomy n size = true

abbrev query : Bytes
unfolding be16 be32 attribute_bytes
query =
    message_header 2 0 11 7
    ++ (encode (query_items (codes "ipp://a/") (codes "image/urf") true) ++ tag_end ∷ [])

query_built :
    build_get_printer_attributes roomy 2 0 7 (codes "ipp://a/") true (codes "image/urf") ≡ ok query
unfolding query be16 be32 attribute_bytes append append_u16 append_attribute extend allocate grow
    new_capacity append_leading append_query build_get_printer_attributes
query_built = refl

build_get_printer_attributes-parse_all_example :
    (parse_all (drop header_length query) ≡ record {
      items = query_items (codes "ipp://a/") (codes "image/urf") true;
      ending = document [];
    })
    × (ordered (parse_all (drop header_length query)).items ≡ true)
build_get_printer_attributes-parse_all_example =
    build_get_printer_attributes-parse_all roomy 2 0 7 (codes "ipp://a/") (codes "image/urf") query
      true (omega arith) (omega arith) query_built

abbrev refusal : Bytes
unfolding be16 be32 attribute_bytes
refusal = message_header 2 0 1283 7 ++ (encode (status_items (codes "no")) ++ tag_end ∷ [])

refusal_built : build_status_response roomy 2 0 1283 7 (codes "no") ≡ ok refusal
unfolding refusal be16 be32 attribute_bytes append append_u16 append_attribute extend allocate grow
    new_capacity append_leading append_status build_status_response
refusal_built = refl

build_status_response-parse_all_example :
    (message_code refusal ≡ 1283)
    × (parse_all (drop header_length refusal)
        ≡ record { items = status_items (codes "no"); ending = document [] })
build_status_response-parse_all_example =
    build_status_response-parse_all roomy 2 0 1283 7 (codes "no") refusal (omega arith)
      (omega arith) refusal_built
