-- ===== src/Ipp/Inspect.antt =====
-- `ipp_codec_inspect_request`, `ipp_codec_get_u32_attribute` and `ipp_codec_message_code` of
-- main/ipp_codec.c. A `char` array is the C string that it holds; `memset` empties them all.
pub mod Order
pub mod Fields
use espresso.Prelude.{
  ℕ, ◌+◌, ◌-◌, Bool, true, false, not, ◌&&◌, ◌||◌, Option, none, some, List, [], ◌∷◌, length, drop,
  get_or, ltb, ◌==◌, if◌then◌else◌, Bytes, codes, equal,
}
use espresso.Ipp.{Code, incomplete, Result, ok, err}
use espresso.Ipp.Buffer.{read_u16, read_u32}
use espresso.Ipp.Csv.{csv_add_split, copy_value}
use espresso.Ipp.Rewrite.{header_length, tag_uri}
use espresso.Ipp.Select.{tag_operation}
use espresso.Ipp.Walk.{
  Attribute, Turn, next, leave, Outcome, ended, left, broken, exhausted, Handler, walk_all,
}

abbrev pub tag_integer : ℕ
tag_integer = 0x21

abbrev pub tag_boolean : ℕ
tag_boolean = 0x22

abbrev pub tag_enum : ℕ
tag_enum = 0x23

abbrev pub tag_text : ℕ
tag_text = 0x41

abbrev pub tag_name : ℕ
tag_name = 0x42

abbrev pub tag_keyword : ℕ
tag_keyword = 0x44

abbrev pub tag_charset : ℕ
tag_charset = 0x47

abbrev pub tag_language : ℕ
tag_language = 0x48

abbrev pub tag_mimetype : ℕ
tag_mimetype = 0x49

abbrev pub attributes_charset_max : ℕ
attributes_charset_max = 32

abbrev pub document_format_max : ℕ
document_format_max = 64

abbrev pub job_name_max : ℕ
job_name_max = 64

abbrev pub requested_attributes_max : ℕ
requested_attributes_max = 1536

pub record RequestInfo : Type 0 where
  pub major : ℕ
  pub minor : ℕ
  pub operation_id : ℕ
  pub request_id : ℕ
  pub attributes_length : ℕ
  pub has_document : Bool
  pub has_attributes_charset : Bool
  pub has_natural_language : Bool
  pub has_target_uri : Bool
  pub has_job_id : Bool
  pub has_last_document : Bool
  pub last_document : Bool
  pub job_id : ℕ
  pub operation_attributes_valid : Bool
  pub attributes_charset : Bytes
  pub document_format : Bytes
  pub job_name : Bytes
  pub requested_attributes : Bytes

pub record Inspecting : Type 0 where
  pub info : RequestInfo
  pub current_group : ℕ
  pub index : ℕ
  pub saw_group : Bool
  pub saw_operation_group : Bool

unfoldable pub is_charset : Attribute → Bool
is_charset a = equal a.name (codes "attributes-charset") && a.tag == tag_charset

unfoldable pub is_language : Attribute → Bool
is_language a = equal a.name (codes "attributes-natural-language") && a.tag == tag_language

abbrev pub invalidate : Bool → RequestInfo → RequestInfo
invalidate wrong info = record info {
  operation_attributes_valid = not wrong && info.operation_attributes_valid;
}

unfoldable pub inspect_group : Inspecting → ℕ → Inspecting
inspect_group s tag = record {
  info =
      invalidate (tag == tag_operation && s.saw_operation_group)
        (invalidate (not s.saw_group && not (tag == tag_operation)) s.info);
  current_group = tag;
  index = s.index;
  saw_group = true;
  saw_operation_group = tag == tag_operation || s.saw_operation_group;
}

-- The place of an attribute in the operation group.
unfoldable pub misplaced : ℕ → Attribute → Bool
misplaced index a =
    (index == 0 && not (is_charset a))
    || (index == 1 && not (is_language a))
    || (ltb 1 index && (is_charset a || is_language a))

unfoldable pub check_order : Inspecting → Attribute → Inspecting
check_order s a =
    if s.current_group == tag_operation
    then record s { info = invalidate (misplaced s.index a) s.info; index = s.index + 1 }
    else s

-- The chain of `else if` that picks the values up; `operation` is the test of the group.
unfoldable pub pick : Bool → Attribute → RequestInfo → RequestInfo
pick operation a info =
    if operation && equal a.name (codes "document-format") && a.tag == tag_mimetype
    then record info {
      document_format = copy_value document_format_max a.value info.document_format;
    }
    else if operation && is_charset a
    then record info {
      has_attributes_charset = true;
      attributes_charset = copy_value attributes_charset_max a.value info.attributes_charset;
    }
    else if operation && is_language a
    then record info { has_natural_language = true }
    else if operation
        && (equal a.name (codes "printer-uri") || equal a.name (codes "job-uri"))
        && a.tag == tag_uri
    then record info { has_target_uri = true }
    else if operation && equal a.name (codes "requested-attributes") && a.tag == tag_keyword
    then record info {
      requested_attributes =
          csv_add_split requested_attributes_max a.value info.requested_attributes;
    }
    else if equal a.name (codes "job-name") && (a.tag == tag_name || a.tag == tag_text)
    then record info { job_name = copy_value job_name_max a.value info.job_name }
    else if operation
        && equal a.name (codes "job-id")
        && a.tag == tag_integer
        && length a.value == 4
    then record info { has_job_id = true; job_id = read_u32 a.value }
    else if operation
        && equal a.name (codes "last-document")
        && a.tag == tag_boolean
        && length a.value == 1
    then record info { has_last_document = true; last_document = not (get_or a.value 0 0 == 0) }
    else info

unfoldable pub inspect_attribute : Inspecting → Attribute → Inspecting
unfolding check_order
inspect_attribute s a =
    let t = check_order s a in record t { info = pick (t.current_group == tag_operation) a t.info }

abbrev pub inspector : Handler Inspecting Code
inspector = record {
  on_group = λ s tag. next (inspect_group s tag);
  on_attribute = λ s a. next (inspect_attribute s a);
}

-- `memset`, then the fields of the header.
unfoldable pub initial_info : Bytes → RequestInfo
initial_info input = record {
  major = get_or input 0 0;
  minor = get_or input 1 0;
  operation_id = read_u16 (drop 2 input);
  request_id = read_u32 (drop 4 input);
  attributes_length = 0;
  has_document = false;
  has_attributes_charset = false;
  has_natural_language = false;
  has_target_uri = false;
  has_job_id = false;
  has_last_document = false;
  last_document = false;
  job_id = 0;
  operation_attributes_valid = true;
  attributes_charset = [];
  document_format = [];
  job_name = [];
  requested_attributes = [];
}

abbrev pub start : Bytes → Inspecting
start input = record {
  info = initial_info input;
  current_group = 0;
  index = 0;
  saw_group = false;
  saw_operation_group = false;
}

-- At the end tag.
unfoldable pub inspect_end : ℕ → Inspecting → Bytes → RequestInfo
inspect_end input_length s document =
    record (invalidate (not s.saw_operation_group || ltb s.index 2) s.info) {
      attributes_length = input_length - length document;
      has_document = ltb 0 (length document);
    }

abbrev pub inspect_result : ℕ → Outcome Inspecting Code → Result RequestInfo
inspect_result input_length (ended s document) = ok (inspect_end input_length s document)
inspect_result input_length (left code) = err code
inspect_result input_length (broken code) = err code
inspect_result input_length exhausted = err incomplete

unfoldable pub inspect_request : Bytes → Result RequestInfo
inspect_request input =
    if ltb (length input) header_length
    then err incomplete
    else inspect_result (length input) (walk_all inspector (start input) (drop header_length input))

-- `ipp_codec_get_u32_attribute`; `none` is the return value false.
abbrev pub finder : Bytes → Handler (Unit {0}) ℕ
finder name = record {
  on_group = λ s tag. next tt;
  on_attribute = λ s a.
      if (a.tag == tag_integer || a.tag == tag_enum) && length a.value == 4 && equal a.name name
      then leave (read_u32 a.value)
      else next tt;
}

abbrev pub found : Outcome (Unit {0}) ℕ → Option ℕ
found (left v) = some v
found _ = none

unfoldable pub get_u32_attribute : Bytes → Bytes → Option ℕ
get_u32_attribute input name =
    if ltb (length input) header_length
    then none
    else found (walk_all (finder name) tt (drop header_length input))

unfoldable pub message_code : Bytes → ℕ
message_code input = if ltb (length input) 4 then 65535 else read_u16 (drop 2 input)
