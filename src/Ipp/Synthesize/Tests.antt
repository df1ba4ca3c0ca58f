-- ===== src/Ipp/Synthesize/Tests.antt =====
-- A run of `ipp_codec_normalize_printer_response` on a small answer.
use espresso.Prelude.{
  ℕ, take, ◌-◌, length-take, length-append, ◌≡◌, refl, ap, arith, Bool, true, none, List, [], ◌∷◌,
  ◌++◌, drop, ltb, ◌&&◌, All, IsByte, Bytes, codes, c_str, equal, ◌<◌, ◌≤◌, length, leb→le, leb,
}
use espresso.Ipp.{ok}
use espresso.Ipp.Buffer.{Heap, attribute_bytes, be16, be32, read_u16}
use espresso.Ipp.Csv.{csv_contains, has_span, spans}
use espresso.Ipp.Csv.{value_contains}
use espresso.Ipp.Inspect.{tag_text, tag_name, message_code}
use espresso.Ipp.Rewrite.{header_length, is_one_of, attribute_presence, presence_flag}
use espresso.Ipp.Rewrite.Reparse.{ValueFits}
use espresso.Ipp.Synthesize.{
  Field, number, flag, unless, when, values, csv_fields, list_values, non_empty,
}
use espresso.Ipp.Synthesize.Describe.{
  protocol_fields, name_fields, format_fields, added_raster, default_format, operations_from, label,
  uuid_urn,
}
use espresso.Ipp.Synthesize.Facade.{
  synthesized, normalize_printer_response, job_fields, timeout_fields, raster_fields, raster_types,
}
use espresso.Ipp.Synthesize.Media.{
  Measure, collections, media_database, media_sizes, media_default_fields,
}
use espresso.Ipp.Synthesize.Copy.{copied, copies, present_of, last_group}
use espresso.Ipp.Walk.Format.{encode}
use espresso.Ipp.Synthesize.Normalize.{added_lacking, normalize_printer_response-parse_all}
use espresso.Ipp.Synthesize.Offer.{
  sides_fields, media_fields, tray_fields, color_fields, finishing_fields, state_fields,
  creation_fields, resolution, with_media, with_default,
}
use espresso.Ipp.Synthesize.Usual.{HasName, usual_names, normalize_printer_response-HasName}
use espresso.Ipp.Target.{plain_target}
use espresso.Ipp.Walk.{tag_end, read_attribute, read_value}
use espresso.Ipp.Walk.Parse.{Item, group, value, document, Parsed, parse, parse_all}
use espresso.Ipp.Synthesize.Complete.{normal, normalize_printer_response-some}
use espresso.Ipp.Buffer.{size_max}
use espresso.Ipp.Buffer.Laws.{Grants}
use espresso.Ipp.Rewrite.Complete.{Fits}
use espresso.Ipp.Rewrite.Exact.{output_value}
use espresso.Ipp.Synthesize.Message.{IsShort, field_items}
use espresso.Proxy.{relay_operations, has_bit, mask}

abbrev granting : Heap
granting n size = true

-- No text is a length.
abbrev unmeasured : Measure
unmeasured text factor = none

abbrev printer : Bytes
printer = codes "ipp://e/p"

abbrev authority : Bytes
authority = codes "ipp://e"

-- An answer with the printer's name, and its location outside of the printer group.
abbrev answer : Bytes
unfolding attribute_bytes be16
answer =
    (1 ∷ 1 ∷ 0 ∷ 0 ∷ 0 ∷ 0 ∷ 0 ∷ 1 ∷ 4 ∷ [])
    ++ attribute_bytes tag_name (codes "printer-name") (codes "p")
    ++ (2 ∷ [])
    ++ attribute_bytes tag_text (codes "printer-location") (codes "hall")
    ++ tag_end ∷ 7 ∷ []

abbrev attribute_of : ℕ → Bytes → Bytes → Item
attribute_of tag name v = value (record { tag = tag; name_field = name; name = name; value = v })

parse_answer : parse_all (drop header_length answer) ≡ record {
  items =
      group 4
      ∷ attribute_of tag_name (codes "printer-name") (codes "p")
      ∷ group 2
      ∷ attribute_of tag_text (codes "printer-location") (codes "hall")
      ∷ [];
  ending = document (7 ∷ []);
}
unfolding parse read_attribute read_value read_u16 c_str answer attribute_bytes be16
parse_answer = refl

granting-Grants : Grants granting
granting-Grants n size = refl

answer-Fits :
    All
      (Fits printer authority granting granting-Grants)
      (parse_all (drop header_length answer)).items
unfolding output_value
answer-Fits =
    rw parse_answer (tt, ((omega arith, omega arith), (tt, ((omega arith, omega arith), tt))))

abbrev all_short : List Field → Bool
all_short [] = true
all_short (f ∷ fs) = ltb (length f.value) 65536 && all_short fs

all_short-All : (fs : List Field) → all_short fs ≡ true → All IsShort fs
all_short-All [] e = tt
all_short-All (f ∷ fs) e = (ground arith, all_short-All fs (ground arith))

-- What is added when the name and the location are there.
abbrev fields : List Field
fields = synthesized unmeasured printer [] plain_target 576

fields_short : all_short fields ≡ true
unfolding synthesized protocol_fields name_fields format_fields added_raster default_format
    operations_from label uuid_urn job_fields timeout_fields raster_fields raster_types sides_fields
    media_fields tray_fields color_fields finishing_fields state_fields creation_fields resolution
    with_media with_default collections media_database media_sizes media_default_fields number flag
    unless when values csv_fields list_values non_empty csv_contains has_span spans value_contains
    relay_operations has_bit mask equal be32 be16
fields_short = refl

fields_small : leb (length (encode (field_items [] fields))) 9000 ≡ true
unfolding synthesized protocol_fields name_fields format_fields added_raster default_format
    operations_from label uuid_urn job_fields timeout_fields raster_fields raster_types sides_fields
    media_fields tray_fields color_fields finishing_fields state_fields creation_fields resolution
    with_media with_default collections media_database media_sizes media_default_fields number flag
    unless when values csv_fields list_values non_empty csv_contains has_span spans value_contains
    relay_operations has_bit mask equal be32 be16 attribute_bytes
fields_small = refl

answer_present : present_of 0 (parse_all (drop header_length answer)).items ≡ 576
unfolding copies is_one_of equal attribute_presence presence_flag
answer_present = rw parse_answer refl

answer_group : last_group 0 (parse_all (drop header_length answer)).items ≡ 2
answer_group = rw parse_answer refl

answer_fields : All IsShort (
    synthesized unmeasured printer [] plain_target
      (present_of 0 (parse_all (drop header_length answer)).items))
answer_fields = rw answer_present (all_short-All fields fields_short)

answer-copied :
    length (encode (copied printer authority (parse_all (drop header_length answer)).items)) < 1000
unfolding output_value attribute_bytes copies is_one_of equal be16
answer-copied = rw parse_answer (omega arith)

-- The output's parts, each below its bound.
normal_small :
    length (
      normal unmeasured printer authority [] plain_target granting granting-Grants
        (λ _. refl)
        answer
        (parse_all (drop header_length answer)).items
        (7 ∷ []))
    ≤ size_max
normal_small =
    let items = (parse_all (drop header_length answer)).items in
    let head = take header_length answer in
    let body = encode (copied printer authority items) in
    let tail = encode (group 4 ∷ field_items [] fields) in
    rw (answer_present, answer_group)
      (omega (
        arith,
        length-append head (body ++ (tail ++ ((tag_end ∷ []) ++ (7 ∷ [])))),
        length-append body (tail ++ ((tag_end ∷ []) ++ (7 ∷ []))),
        length-append tail ((tag_end ∷ []) ++ (7 ∷ [])),
        length-take header_length answer,
        answer-copied,
        leb→le (length (encode (field_items [] fields))) 9000 fields_small,
      ))

normalize_printer_response-some_example :
    (out : Bytes) × (normalize_printer_response unmeasured printer [] plain_target granting
        authority answer
      ≡ ok (out, length answer - 1))
unfolding answer attribute_bytes be16 message_code read_u16
normalize_printer_response-some_example =
    normalize_printer_response-some unmeasured printer authority [] plain_target granting
      granting-Grants (λ _. refl) answer (7 ∷ []) (omega arith) (omega arith)
      (ap (λ (p : Parsed). p.ending) parse_answer) answer-Fits answer_fields normal_small

answer_runs :
    (out : Bytes) × (normalize_printer_response unmeasured printer [] plain_target granting
        authority answer
      ≡ ok (out, length answer - 1))
unfolding answer attribute_bytes be16 message_code read_u16
answer_runs =
    normalize_printer_response-some unmeasured printer authority [] plain_target granting
      granting-Grants (λ _. refl) answer (7 ∷ []) (omega arith) (omega arith)
      (ap (λ (p : Parsed). p.ending) parse_answer) answer-Fits answer_fields normal_small

abbrev all_bytes : Bytes → Bool
all_bytes [] = true
all_bytes (b ∷ bs) = ltb b 256 && all_bytes bs

all_bytes-All : (bs : Bytes) → all_bytes bs ≡ true → All IsByte bs
all_bytes-All [] e = tt
all_bytes-All (b ∷ bs) e = (ground arith, all_bytes-All bs (ground arith))

answer-All : All IsByte answer
unfolding answer attribute_bytes be16
answer-All = all_bytes-All answer refl

answer-ValueFits : All (ValueFits printer authority) (parse_all (drop header_length answer)).items
unfolding output_value
answer-ValueFits = rw parse_answer (tt, (omega arith, (tt, (omega arith, tt))))

answer_good : message_code answer < 0x400
unfolding answer attribute_bytes be16 message_code read_u16
answer_good = omega arith

normalize_printer_response-parse_all_example :
    ((parse_all (drop header_length answer_runs.0)).items
      ≡ copied printer authority (parse_all (drop header_length answer)).items
        ++ added_lacking unmeasured printer authority [] plain_target granting
            (parse_all (drop header_length answer)).items)
    × ((parse_all (drop header_length answer_runs.0)).ending
        ≡ (parse_all (drop header_length answer)).ending)
normalize_printer_response-parse_all_example =
    normalize_printer_response-parse_all unmeasured printer authority [] plain_target granting
      answer answer_runs.0 (length answer - 1) answer-All (λ _. refl) answer-ValueFits answer_good
      answer_runs.1

normalize_printer_response-HasName_example :
    All
      (λ (name : Bytes). HasName name (parse_all (drop header_length answer_runs.0)).items)
      usual_names
normalize_printer_response-HasName_example =
    normalize_printer_response-HasName unmeasured printer authority [] plain_target granting answer
      answer_runs.0 (length answer - 1) answer-All (λ _. refl) answer-ValueFits answer_good
      answer_runs.1
