-- ===== src/Ipp/Select.antt =====
-- Which attributes of an answer a client asked for: the tables and tests of main/ipp_codec.c from
-- `REQUESTED_GROUP_SELECTORS` to `requested_group_mask`.
use Prim.Native.Nat.{bit_or}
use espresso.Prelude.{
  ℕ, Bool, true, false, ◌&&◌, ◌||◌, List, [], ◌∷◌, length, take, drop, ltb, ◌==◌, if◌then◌else◌,
  Bytes, codes,
}
use espresso.Ipp.Csv.{equal_span, csv_contains}

abbrev pub tag_operation : ℕ
tag_operation = 1

abbrev pub tag_job : ℕ
tag_job = 2

abbrev pub tag_printer : ℕ
tag_printer = 4

abbrev pub group_job_template : ℕ
group_job_template = 1

abbrev pub group_job_description : ℕ
group_job_description = 2

abbrev pub group_printer_description : ℕ
group_printer_description = 4

abbrev pub job_template_attributes : List Bytes
job_template_attributes =
    codes "copies"
    ∷ codes "finishings"
    ∷ codes "finishings-col"
    ∷ codes "finishing-template"
    ∷ codes "job-account-id"
    ∷ codes "job-accounting-user-id"
    ∷ codes "job-hold-until"
    ∷ codes "job-priority"
    ∷ codes "job-sheets"
    ∷ codes "job-sheets-col"
    ∷ codes "media"
    ∷ codes "media-col"
    ∷ codes "multiple-document-handling"
    ∷ codes "number-up"
    ∷ codes "orientation-requested"
    ∷ codes "output-bin"
    ∷ codes "page-ranges"
    ∷ codes "pages-ranges"
    ∷ codes "print-color-mode"
    ∷ codes "print-content-optimize"
    ∷ codes "print-quality"
    ∷ codes "print-rendering-intent"
    ∷ codes "printer-resolution"
    ∷ codes "sheet-collate"
    ∷ codes "sides"
    ∷ []

abbrev pub printer_job_template_suffixes : List Bytes
printer_job_template_suffixes = codes "-default" ∷ codes "-supported" ∷ codes "-ready" ∷ []

abbrev pub explicit_only_printer_attributes : List Bytes
explicit_only_printer_attributes = codes "media-col-database" ∷ []

unfoldable pub attribute_name_equals : Bytes → Bytes → Bool
attribute_name_equals name expected = equal_span name expected

unfoldable pub any_name_equals : Bytes → List Bytes → Bool
unfolding attribute_name_equals
any_name_equals name [] = false
any_name_equals name (n ∷ ns) = attribute_name_equals name n || any_name_equals name ns

-- One round over a base name: the job attribute itself, or the printer's with a suffix.
unfoldable pub matches_template : ℕ → Bytes → Bytes → Bool
unfolding attribute_name_equals any_name_equals
matches_template delimiter_tag name base =
    if delimiter_tag == tag_job && attribute_name_equals name base
    then true
    else delimiter_tag == tag_printer
      && ltb (length base) (length name)
      && equal_span (take (length base) name) base
      && any_name_equals (drop (length base) name) printer_job_template_suffixes

unfoldable pub any_template : ℕ → Bytes → List Bytes → Bool
unfolding matches_template
any_template delimiter_tag name [] = false
any_template delimiter_tag name (b ∷ bs) =
    matches_template delimiter_tag name b || any_template delimiter_tag name bs

unfoldable pub is_job_template_attribute : ℕ → Bytes → Bool
unfolding any_template
is_job_template_attribute delimiter_tag name =
    any_template delimiter_tag name job_template_attributes

unfoldable pub is_explicit_only_printer_attribute : Bytes → Bool
unfolding any_name_equals
is_explicit_only_printer_attribute name = any_name_equals name explicit_only_printer_attributes

unfoldable pub classify_response_attribute : ℕ → Bytes → ℕ
unfolding is_job_template_attribute is_explicit_only_printer_attribute
classify_response_attribute delimiter_tag name =
    if delimiter_tag == tag_printer
    then (if is_explicit_only_printer_attribute name
        then 0
        else if is_job_template_attribute delimiter_tag name
        then group_job_template
        else group_printer_description)
    else if delimiter_tag == tag_job
    then (if is_job_template_attribute delimiter_tag name
        then group_job_template
        else group_job_description)
    else 0

unfoldable pub requested_group_mask : Bytes → ℕ
requested_group_mask requested =
    bit_or
      (bit_or (if csv_contains requested (codes "job-template") then group_job_template else 0)
        (if csv_contains requested (codes "job-description") then group_job_description else 0))
      (if csv_contains requested (codes "printer-description")
        then group_printer_description
        else 0)
