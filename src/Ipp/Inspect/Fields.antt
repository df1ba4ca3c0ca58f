-- ===== src/Ipp/Inspect/Fields.antt =====
-- The texts that a request brings fit the arrays of `ipp_request_info_t`, whatever the client sent.
use espresso.Prelude.{
  ℕ, ◌<◌, ◌≡◌, refl, sym, ◌∙◌, arith, Bool, List, [], ◌∷◌, length, drop, ltb, Bytes, Bool-cases,
  inl, inr,
}
use espresso.Ipp.{Code, ok}
use espresso.Ipp.Csv.Laws.{copy_value-lt, csv_add_split-lt}
use espresso.Ipp.Inspect.{
  RequestInfo, Inspecting, inspect_group, pick, inspect_attribute, inspector, initial_info, start,
  inspect_end, inspect_result, inspect_request, attributes_charset_max, document_format_max,
  job_name_max, requested_attributes_max,
}
use espresso.Ipp.Rewrite.{header_length}
use espresso.Ipp.Walk.{Attribute, Outcome, ended, broken, exhausted, left, walk_all}
use espresso.Ipp.Walk.Parse.{
  Item, group, value, Ending, document, bad, cut, parse_all, run, walk-run,
}

pub record IsBounded (info : RequestInfo) : Type 0 where
  pub charset_fits : length info.attributes_charset < attributes_charset_max
  pub format_fits : length info.document_format < document_format_max
  pub name_fits : length info.job_name < job_name_max
  pub requested_fits : length info.requested_attributes < requested_attributes_max

pick-IsBounded :
    (b : Bool) (a : Attribute) (info : RequestInfo) → IsBounded info → IsBounded (pick b a info)
unfolding pick
pick-IsBounded b a info v = ground (
  arith,
  copy_value-lt attributes_charset_max a.value info.attributes_charset,
  copy_value-lt document_format_max a.value info.document_format,
  copy_value-lt job_name_max a.value info.job_name,
  csv_add_split-lt requested_attributes_max a.value info.requested_attributes,
)

attribute-IsBounded :
    (s : Inspecting) (a : Attribute) → IsBounded s.info → IsBounded (inspect_attribute s a).info
unfolding inspect_attribute
attribute-IsBounded s a v = pick-IsBounded _ a _ (ground arith)

group-IsBounded : (s : Inspecting) (g : ℕ) → IsBounded s.info → IsBounded (inspect_group s g).info
unfolding inspect_group
group-IsBounded s g v = ground arith

run-IsBounded :
    (items : List Item) (s : Inspecting) (e : Ending) (t : Inspecting) (d : Bytes)
    → IsBounded s.info
    → run inspector s items e ≡ ended t d
    → IsBounded t.info × (e ≡ document d)
unfolding run
run-IsBounded [] s (document x) t d v e = (ground arith, ground arith)
run-IsBounded [] s (bad c) t d v e = cc
run-IsBounded [] s cut t d v e = cc
run-IsBounded (group g ∷ items) s x t d v e =
    run-IsBounded items (inspect_group s g) x t d (group-IsBounded s g v) e
run-IsBounded (value a ∷ items) s x t d v e =
    run-IsBounded items (inspect_attribute s a) x t d (attribute-IsBounded s a v) e

outcome-IsBounded :
    (input : Bytes) (w : Outcome Inspecting Code) {info : RequestInfo}
    → walk_all inspector (start input) (drop header_length input) ≡ w
    → inspect_result (length input) w ≡ ok info
    → IsBounded info
unfolding inspect_end initial_info
outcome-IsBounded input (ended t d) walked e =
    let parsed = parse_all (drop header_length input) in
    let (bounded, _) =
      run-IsBounded parsed.items (start input) parsed.ending t d
        (record {
          charset_fits = omega arith;
          format_fits = omega arith;
          name_fits = omega arith;
          requested_fits = omega arith;
        })
        (sym (
            walk-run inspector (length (drop header_length input)) (start input) []
              (drop header_length input))
          ∙ walked) in
    ground arith
outcome-IsBounded input (left c) walked e = cc
outcome-IsBounded input (broken c) walked e = cc
outcome-IsBounded input exhausted walked e = cc

-- For every input that is inspected, of any length: the charset, the format, the job's name and
-- the list of requested attributes stay below the sizes of their arrays, so the NUL fits too.
pub inspect_request-IsBounded :
    (input : Bytes) {info : RequestInfo} → inspect_request input ≡ ok info → IsBounded info
unfolding inspect_request
inspect_request-IsBounded input e = elim (Bool-cases (ltb (length input) header_length)) [
  | inl short ↦ cc (rw short at e)
  | inr long ↦ outcome-IsBounded input _ refl (rw long at e)
]
