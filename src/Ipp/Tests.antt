-- ===== src/Ipp/Tests.antt =====
-- Runs of the IPP codec on a small request.
use espresso.Prelude.{
  ℕ, ◌≡◌, ◌≢◌, none, refl, ap, arith, Bool, true, false, List, [], ◌∷◌, ◌++◌, length, drop, Bytes,
  ◌&&◌, ltb, codes, IsByte, All, All-drop, c_str, inl, equal, to_lower, is_space, ◌<◌, ◌≤◌, ◌-◌,
}
use espresso.Ipp.{ok}
use espresso.Ipp.Buffer.{
  Heap, append, extend, allocate, grow, new_capacity, append_u16, append_attribute, attribute_bytes,
  be16, read_u16, read_u32, size_max,
}
use espresso.Ipp.Buffer.Laws.{Grants}
use espresso.Ipp.Csv.{csv_add_split, copy_value}
use espresso.Ipp.Csv.Laws.{csv_add_split-lt}
use espresso.Ipp.Inspect.{
  tag_charset, tag_language, tag_name, tag_text, RequestInfo, inspect_request, inspect_group,
  inspect_attribute, check_order, misplaced, pick, is_charset, is_language, initial_info,
  inspect_end, tag_keyword,
}
use espresso.Ipp.JobDefaults.{
  normalize, normalize_end, emit, emit_group, group_action, job_action, table_action, is_neutral,
  is_output_mode, output_name, format_value, encoded_u32_equals,
}
use espresso.Ipp.JobDefaults.Exact.{IsNormalized, normalize-IsNormalized}
use espresso.Ipp.Target.{plain_target}
use espresso.Ipp.Inspect.Order.{ordered, inspect_request-ordered}
use espresso.Ipp.Inspect.Fields.{IsBounded, inspect_request-IsBounded}
use espresso.Ipp.Filter.{
  ResponseKind, filter_response, filter_group, filter_attribute, filter_end, included,
  filtered_group,
}
use espresso.Ipp.Filter.Exact.{kept, IsFiltered, filter_response-IsFiltered}
use espresso.Ipp.Filter.Reparse.{filter_response-parse_all}
use espresso.Ipp.Walk.Format.{encode, IsAttribute, IsMessage}
use espresso.Ipp.Walk.Message.{parse-encode, encode-parse}
use espresso.Ipp.Csv.{
  csv_contains, has_span, spans, skip_separators, before_comma, from_comma, trim_end, skip_space,
  equal_span,
}
use espresso.Ipp.Select.{
  classify_response_attribute, requested_group_mask, is_job_template_attribute,
  is_explicit_only_printer_attribute, any_template, any_name_equals, attribute_name_equals,
  matches_template,
}
use espresso.Ipp.Rewrite.{header_length, tag_uri, rewrite, rewritten_uri, is_one_of}
use espresso.Ipp.Rewrite.Complete.{copy, rewrite-copy, Fits}
use espresso.Ipp.Rewrite.Exact.{IsRewritten, rewrite-IsRewritten, output_value}
use espresso.Ipp.Walk.{tag_end, read_attribute, read_value, walk}
use espresso.Ipp.Walk.Parse.{
  Item, group, value, document, Parsed, parse, parse_all, Ending, parse-ne-cut,
}

abbrev granting : Heap
granting n size = true

granting-Grants : Grants granting
granting-Grants n size = refl

abbrev attribute_of : ℕ → Bytes → Bytes → Item
attribute_of tag name v = value (record { tag = tag; name_field = name; name = name; value = v })

abbrev sample_items : List Item
sample_items =
    group 1
    ∷ attribute_of tag_charset (codes "attributes-charset") (codes "utf-8")
    ∷ attribute_of tag_language (codes "attributes-natural-language") (codes "en")
    ∷ attribute_of tag_uri (codes "printer-uri") (codes "ipp://a/b")
    ∷ []

abbrev sample_head : Bytes
sample_head = 1 ∷ 1 ∷ 0 ∷ 11 ∷ 0 ∷ 0 ∷ 0 ∷ 1 ∷ []

-- A Get-Printer-Attributes request with one byte of a document behind it.
abbrev sample : Bytes
unfolding attribute_bytes be16
sample =
    sample_head
    ++ (1 ∷ [])
    ++ attribute_bytes tag_charset (codes "attributes-charset") (codes "utf-8")
    ++ attribute_bytes tag_language (codes "attributes-natural-language") (codes "en")
    ++ attribute_bytes tag_uri (codes "printer-uri") (codes "ipp://a/b")
    ++ tag_end ∷ 7 ∷ []

parse_sample :
    parse_all (drop header_length sample)
    ≡ record { items = sample_items; ending = document (7 ∷ []) }
unfolding parse read_attribute read_value read_u16 c_str sample attribute_bytes be16
parse_sample = refl

abbrev printer : Bytes
printer = codes "http://p/"

abbrev authority : Bytes
authority = codes "http://p"

sample_long : header_length ≤ length sample
unfolding sample attribute_bytes be16
sample_long = omega arith

sample-Fits :
    All
      (Fits printer authority granting granting-Grants)
      (parse_all (drop header_length sample)).items
unfolding output_value rewritten_uri is_one_of equal c_str
sample-Fits = rw parse_sample (
  tt,
  ((omega arith, omega arith), ((omega arith, omega arith), ((omega arith, omega arith), tt))),
)

copy_small :
    length (
      copy printer authority granting granting-Grants sample
        (parse_all (drop header_length sample)).items
        (7 ∷ []))
    ≤ size_max
unfolding output_value rewritten_uri is_one_of equal sample attribute_bytes be16 copy c_str
copy_small = rw parse_sample (omega arith)

rewrite-copy_example :
    rewrite granting printer authority sample
    ≡ ok (
      copy printer authority granting granting-Grants sample
          (parse_all (drop header_length sample)).items
          (7 ∷ []),
      length sample - 1,
    )
rewrite-copy_example =
    rewrite-copy printer authority granting granting-Grants sample (7 ∷ []) sample_long
      (ap (λ (p : Parsed). p.ending) parse_sample) sample-Fits copy_small

rewrite-IsRewritten_example :
    IsRewritten printer authority sample
      (copy printer authority granting granting-Grants sample
        (parse_all (drop header_length sample)).items
        (7 ∷ []))
      (length sample - 1)
rewrite-IsRewritten_example =
    rewrite-IsRewritten printer authority granting sample
      (copy printer authority granting granting-Grants sample
        (parse_all (drop header_length sample)).items (7 ∷ []))
      (length sample - 1)
      (rewrite-copy printer authority granting granting-Grants sample (7 ∷ []) sample_long
        (ap (λ (p : Parsed). p.ending) parse_sample) sample-Fits copy_small)

-- An answer with the printer's name and its location; only the name was asked for.
abbrev answer : Bytes
unfolding attribute_bytes be16
answer =
    sample_head
    ++ (4 ∷ [])
    ++ attribute_bytes tag_name (codes "printer-name") (codes "p")
    ++ attribute_bytes tag_text (codes "printer-location") (codes "hall")
    ++ tag_end ∷ 7 ∷ []

abbrev answer_named : Bytes
unfolding attribute_bytes be16
answer_named =
    sample_head
    ++ (4 ∷ [])
    ++ attribute_bytes tag_name (codes "printer-name") (codes "p")
    ++ tag_end ∷ 7 ∷ []

filter_answer :
    filter_response granting ResponseKind.printer (codes "printer-name") answer
    ≡ ok (answer_named, 28)
unfolding answer answer_named attribute_bytes be16 filter_response filter_group filter_attribute
    filter_end included filtered_group append extend allocate grow new_capacity walk read_attribute
    read_value read_u16 c_str csv_contains has_span spans skip_separators before_comma from_comma
    trim_end skip_space equal_span to_lower is_space classify_response_attribute
    requested_group_mask is_job_template_attribute is_explicit_only_printer_attribute any_template
    any_name_equals attribute_name_equals matches_template
filter_answer = refl

abbrev all_bytes : Bytes → Bool
all_bytes [] = true
all_bytes (b ∷ bs) = ltb b 256 && all_bytes bs

all_bytes-All : (bs : Bytes) → all_bytes bs ≡ true → All IsByte bs
all_bytes-All [] e = tt
all_bytes-All (b ∷ bs) e = (ground arith, all_bytes-All bs (ground arith))

answer-All : All IsByte answer
unfolding answer attribute_bytes be16
answer-All = all_bytes-All answer refl

filter_response-IsFiltered_example :
    IsFiltered ResponseKind.printer (codes "printer-name") answer answer_named 28
filter_response-IsFiltered_example =
    filter_response-IsFiltered ResponseKind.printer (codes "printer-name") granting answer
      answer_named 28 filter_answer

filter_response-parse_all_example :
    ((parse_all (drop header_length answer_named)).items
      ≡ kept ResponseKind.printer
          (codes "printer-name")
          0
          (parse_all (drop header_length answer)).items)
    × ((parse_all (drop header_length answer_named)).ending
        ≡ (parse_all (drop header_length answer)).ending)
filter_response-parse_all_example =
    filter_response-parse_all granting ResponseKind.printer (codes "printer-name") answer
      answer_named 28 answer-All filter_answer

named-IsAttribute :
    (tag : ℕ) (c : ℕ) (name v current : Bytes)
    → 15 < tag
    → length name < 255
    → length v < 65536
    → c ∷ name ≡ c_str (c ∷ name)
    → IsAttribute current (record { tag = tag; name_field = c ∷ name; name = c ∷ name; value = v })
named-IsAttribute tag c name v current t n l e = record {
  tag_above = t;
  name_fits = omega arith;
  value_fits = l;
  named = inl (λ d. cc, e);
}

sample-IsMessage : IsMessage [] sample_items
unfolding c_str
sample-IsMessage = (
  omega arith,
  omega arith,
  (
    named-IsAttribute tag_charset _ _ _ [] (omega arith) (omega arith) (omega arith) refl,
    (
      named-IsAttribute tag_language _ _ _ _ (omega arith) (omega arith) (omega arith) refl,
      (named-IsAttribute tag_uri _ _ _ _ (omega arith) (omega arith) (omega arith) refl, tt),
    ),
  ),
)

sample_short : length (encode sample_items) < 1000
unfolding attribute_bytes be16
sample_short = omega arith

parse_answer : (parse_all (drop header_length answer)).ending ≡ document (7 ∷ [])
unfolding parse read_attribute read_value read_u16 c_str answer attribute_bytes be16
parse_answer = refl

abbrev sample_info : RequestInfo
sample_info = record {
  major = 1;
  minor = 1;
  operation_id = 11;
  request_id = 1;
  attributes_length = 97;
  has_document = true;
  has_attributes_charset = true;
  has_natural_language = true;
  has_target_uri = true;
  has_job_id = false;
  has_last_document = false;
  last_document = false;
  job_id = 0;
  operation_attributes_valid = true;
  attributes_charset = codes "utf-8";
  document_format = [];
  job_name = [];
  requested_attributes = [];
}

parse-encode_example :
    parse 1000 [] (encode sample_items ++ tag_end ∷ 7 ∷ [])
    ≡ record { items = sample_items; ending = document (7 ∷ []) }
parse-encode_example = parse-encode 1000 sample_items [] (7 ∷ []) sample-IsMessage sample_short

encode-parse_example :
    (encode (parse_all (drop header_length answer)).items ++ tag_end ∷ 7 ∷ []
      ≡ drop header_length answer)
    × IsMessage [] (parse_all (drop header_length answer)).items
encode-parse_example =
    encode-parse (length (drop header_length answer)) [] (drop header_length answer) (7 ∷ [])
      (All-drop IsByte header_length answer answer-All) parse_answer

parse-ne-cut_example : (parse (length sample) [] sample).ending ≢ Ending.cut
parse-ne-cut_example = parse-ne-cut (length sample) [] sample (omega arith)

inspect_sample : inspect_request sample ≡ ok sample_info
unfolding sample attribute_bytes be16 inspect_request inspect_group inspect_attribute check_order
    misplaced pick is_charset is_language initial_info inspect_end csv_add_split copy_value equal
    walk read_attribute read_value read_u16 read_u32 c_str
inspect_sample = refl

inspect_request-ordered_example : true ≡ ordered (parse_all (drop header_length sample)).items
inspect_request-ordered_example = inspect_request-ordered sample inspect_sample

inspect_request-IsBounded_example : IsBounded sample_info
inspect_request-IsBounded_example = inspect_request-IsBounded sample inspect_sample

csv_add_split-lt_example : length (csv_add_split 8 (codes "ab,cdefgh,i") []) < 8
csv_add_split-lt_example = csv_add_split-lt 8 (codes "ab,cdefgh,i") [] (omega arith)

-- A Print-Job request whose one job attribute is the default that the facade added.
abbrev job : Bytes
unfolding attribute_bytes be16
job =
    sample_head
    ++ (1 ∷ [])
    ++ attribute_bytes tag_charset (codes "attributes-charset") (codes "utf-8")
    ++ (2 ∷ [])
    ++ attribute_bytes tag_keyword (codes "sides") (codes "one-sided")
    ++ tag_end ∷ 7 ∷ []

abbrev job_normalized : Bytes
unfolding attribute_bytes be16
job_normalized =
    sample_head
    ++ (1 ∷ [])
    ++ attribute_bytes tag_charset (codes "attributes-charset") (codes "utf-8")
    ++ tag_end ∷ 7 ∷ []

normalize-job : normalize granting plain_target none 64 job ≡ (ok (job_normalized, 38), [])
unfolding job job_normalized attribute_bytes be16 normalize normalize_end emit emit_group
    group_action job_action table_action is_neutral is_output_mode output_name format_value
    encoded_u32_equals equal_span to_lower append append_u16 append_attribute extend allocate grow
    new_capacity walk read_attribute read_value read_u16 c_str equal
normalize-job = refl

normalize-IsNormalized_example : IsNormalized plain_target none job job_normalized 38
normalize-IsNormalized_example =
    normalize-IsNormalized plain_target none granting 64 job job_normalized [] 38 normalize-job
