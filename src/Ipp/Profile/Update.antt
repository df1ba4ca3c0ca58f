-- ===== src/Ipp/Profile/Update.antt =====
-- `ipp_codec_apply_printer_attributes`: the chain of `else if` over the attributes, in four parts.
use Prim.Native.Nat.{bit_and, bit_or}
use espresso.Prelude.{
  ℕ, ◌^◌, min, Bool, true, false, not, ◌&&◌, ◌||◌, Option, none, some, List, [], ◌∷◌, length, take,
  drop, get_or, ltb, leb, ◌==◌, if◌then◌else◌, Bytes, codes, equal,
}
use espresso.Ipp.{Code, incomplete}
use espresso.Ipp.Buffer.{read_u32}
use espresso.Ipp.Csv.{equal_span, csv_add_split, copy_value, value_contains}
use espresso.Ipp.Inspect.{tag_boolean, tag_enum, tag_keyword, tag_mimetype}
use espresso.Ipp.Profile.{any_contains, rgb_names, finalize_profile}
use espresso.Ipp.Rewrite.{header_length, tag_uri, is_one_of}
use espresso.Ipp.Target.{
  PrinterTarget, profile_schema, pdl_max, urf_max, media_max, media_name_max, label_max,
  location_max, uuid_max, ipp_versions_max, state_reasons_max, admin_url_max, cap_copies,
  cap_finishings, cap_orientation, cap_output_bin, cap_print_quality, cap_sides,
  cap_print_color_mode,
}
use espresso.Ipp.Walk.{Attribute, is_empty}
use espresso.Ipp.Walk.Parse.{Item, group, value, Ending, document, bad, cut, parse_all}

abbrev pub tag_range : ℕ
tag_range = 0x33

-- `value_length == n`, a Boolean attribute and a 32-bit enum.
unfoldable pub is_boolean : Attribute → Bool
is_boolean a = a.tag == tag_boolean && length a.value == 1

unfoldable pub is_enum : Attribute → Bool
is_enum a = a.tag == tag_enum && length a.value == 4

unfoldable pub first_byte_set : Attribute → Bool
first_byte_set a = not (get_or a.value 0 0 == 0)

unfoldable pub starts_with : Bytes → Bytes → Bool
starts_with prefix v = ltb (length prefix) (length v) && equal (take (length prefix) v) prefix

unfoldable pub no_control : Bytes → Bool
no_control [] = true
no_control (c ∷ cs) = not (ltb c 32 || c == 127) && no_control cs

unfoldable pub web_url_value : Bytes → Bool
web_url_value v =
    (starts_with (codes "http://") v || starts_with (codes "https://") v) && no_control v

abbrev pub color_names : List Bytes
color_names = codes "color" ∷ codes "rgb" ∷ codes "cmyk" ∷ []

abbrev pub gray_names : List Bytes
gray_names = codes "monochrome" ∷ codes "gray" ∷ codes "bi-level" ∷ []

unfoldable pub without_urn : Bytes → Bytes
without_urn v = if starts_with (codes "urn:uuid:") v then drop 9 v else v

-- The name that is stored for the default mode; none for a value that it does not know.
unfoldable pub color_mode : Bytes → Bytes → Bytes
color_mode v old =
    if any_contains gray_names v
    then codes "monochrome"
    else if any_contains color_names v
    then codes "color"
    else if value_contains (codes "auto") v
    then codes "auto"
    else old

unfoldable pub with_capability : ℕ → PrinterTarget → PrinterTarget
with_capability cap t = record t {
  job_template_capabilities = bit_or t.job_template_capabilities cap;
}

unfoldable pub color_if : Bool → PrinterTarget → PrinterTarget
color_if found t = if found then record t { color = true } else t

-- The lists and the texts, first part of the chain; `none` where no test holds.
unfoldable pub apply_list : Attribute → PrinterTarget → Option PrinterTarget
apply_list a t =
    if equal a.name (codes "document-format-supported") && a.tag == tag_mimetype
    then some (record t { pdl = csv_add_split pdl_max a.value t.pdl })
    else if equal a.name (codes "urf-supported") && a.tag == tag_keyword
    then some (
        color_if (any_contains rgb_names a.value)
          (record t { urf = csv_add_split urf_max a.value t.urf }))
    else if equal a.name (codes "media-supported")
    then some (record t { media = csv_add_split media_max a.value t.media })
    else if equal a.name (codes "media-default")
    then some (record t { media_default = copy_value media_name_max a.value t.media_default })
    else if equal a.name (codes "ipp-versions-supported") && a.tag == tag_keyword
    then some (record t { ipp_versions = csv_add_split ipp_versions_max a.value t.ipp_versions })
    else if equal a.name (codes "page-ranges-supported") && is_boolean a
    then some (record t { page_ranges_supported = first_byte_set a })
    else none

unfoldable pub apply_override : Bytes → PrinterTarget → PrinterTarget
apply_override v t =
    if equal_span v (codes "document-number")
    then record t { overrides_document_number = true }
    else if equal_span v (codes "pages")
    then record t { overrides_pages = true }
    else t

unfoldable pub apply_text : Attribute → PrinterTarget → Option PrinterTarget
apply_text a t =
    if equal a.name (codes "overrides-supported") && a.tag == tag_keyword
    then some (apply_override a.value t)
    else if equal a.name (codes "ipp-features-supported")
        && a.tag == tag_keyword
        && equal_span a.value (codes "ipp-everywhere")
    then some (record t { ipp_everywhere = true })
    else if equal a.name (codes "printer-make-and-model")
    then some (record t { label = copy_value label_max a.value t.label })
    else if equal a.name (codes "printer-info") && is_empty t.label
    then some (record t { label = copy_value label_max a.value t.label })
    else if equal a.name (codes "printer-location")
    then some (record t { location = copy_value location_max a.value t.location })
    else if equal a.name (codes "printer-more-info")
        && a.tag == tag_uri
        && ltb (length a.value) admin_url_max
        && web_url_value a.value
    then some (record t { admin_url = copy_value admin_url_max a.value t.admin_url })
    else if equal a.name (codes "printer-uuid")
    then some (record t { uuid = copy_value uuid_max (without_urn a.value) t.uuid })
    else none

unfoldable pub apply_mode : Attribute → PrinterTarget → Option PrinterTarget
apply_mode a t =
    if equal a.name (codes "color-supported") && is_boolean a
    then some (record t { color = first_byte_set a })
    else if is_one_of a.name (codes "print-color-mode-default" ∷ codes "output-mode-default" ∷ [])
    then some (record t { color_mode_default = color_mode a.value t.color_mode_default })
    else if equal a.name (codes "print-color-mode-supported")
    then some (
        color_if (any_contains color_names a.value)
          (record (with_capability cap_print_color_mode t) { legacy_output_mode = false }))
    else if equal a.name (codes "output-mode-supported")
    then some (
        color_if (any_contains color_names a.value) (
          if bit_and t.job_template_capabilities cap_print_color_mode == 0
          then record t { legacy_output_mode = true }
          else t))
    else if equal a.name (codes "sides-supported")
    then some (
        if value_contains (codes "two-sided") a.value
        then record (with_capability cap_sides t) { duplex = true }
        else with_capability cap_sides t)
    else none

unfoldable pub apply_copies : ℕ → PrinterTarget → PrinterTarget
apply_copies upper t = record (with_capability cap_copies t) {
  copies_upper = min upper 65535;
  copies = ltb 1 (min upper 65535);
}

unfoldable pub apply_capability : Attribute → PrinterTarget → Option PrinterTarget
apply_capability a t =
    if equal a.name (codes "copies-supported") && a.tag == tag_range && length a.value == 8
    then some (apply_copies (read_u32 (drop 4 a.value)) t)
    else if equal a.name (codes "finishings-supported")
    then some (with_capability cap_finishings t)
    else if equal a.name (codes "orientation-requested-supported")
    then some (with_capability cap_orientation t)
    else if equal a.name (codes "output-bin-supported")
    then some (with_capability cap_output_bin t)
    else if equal a.name (codes "print-quality-supported")
    then some (with_capability cap_print_quality t)
    else if is_one_of a.name
          (codes "sheet-collate-supported" ∷ codes "multiple-document-handling-supported" ∷ [])
        && value_contains (codes "collated") a.value
        && not (value_contains (codes "uncollated") a.value)
    then some (record t { collate = true })
    else none

unfoldable pub apply_operation : ℕ → PrinterTarget → PrinterTarget
apply_operation operation t =
    if ltb operation 64
    then record t { operations_supported = bit_or t.operations_supported (2 ^ operation) }
    else t

unfoldable pub apply_printer_state : ℕ → PrinterTarget → PrinterTarget
apply_printer_state state t = if leb state 255 then record t { printer_state = state } else t

unfoldable pub apply_state : Attribute → PrinterTarget → Option PrinterTarget
apply_state a t =
    if equal a.name (codes "operations-supported") && is_enum a
    then some (apply_operation (read_u32 a.value) t)
    else if equal a.name (codes "printer-state") && is_enum a
    then some (apply_printer_state (read_u32 a.value) t)
    else if equal a.name (codes "printer-is-accepting-jobs") && is_boolean a
    then some (record t { accepting_jobs = first_byte_set a; accepting_jobs_known = true })
    else if equal a.name (codes "printer-state-reasons") && a.tag == tag_keyword
    then some (record t { state_reasons = csv_add_split state_reasons_max a.value t.state_reasons })
    else none

infixr 4 ◌orelse◌
abbrev pub ◌orelse◌ : Option PrinterTarget → PrinterTarget → PrinterTarget
none orelse t = t
some u orelse t = u

unfoldable pub apply_attribute : Attribute → PrinterTarget → PrinterTarget
apply_attribute a t =
    apply_list a t
    orelse apply_text a t
    orelse apply_mode a t
    orelse apply_capability a t
    orelse apply_state a t
    orelse t

-- The loop over the envelope, on its items: a group tag changes nothing but the current name.
unfoldable pub apply_items : List Item → PrinterTarget → PrinterTarget
apply_items [] t = t
apply_items (group g ∷ items) t = apply_items items t
apply_items (value a ∷ items) t = apply_items items (apply_attribute a t)

-- Behind the loop: the profile is finalized at the end tag only; `none` is IPP_CODEC_OK.
abbrev pub apply_ending : Ending → PrinterTarget → PrinterTarget × Option Code
apply_ending (document rest) t = (finalize_profile t, none)
apply_ending (bad code) t = (t, some code)
apply_ending cut t = (t, some incomplete)

-- `ipp_codec_apply_printer_attributes`. On an error the profile keeps what was read before it.
unfoldable pub apply_printer_attributes : Bytes → PrinterTarget → PrinterTarget × Option Code
apply_printer_attributes input t =
    if ltb (length input) header_length
    then (t, some incomplete)
    else let parsed = parse_all (drop header_length input) in
      apply_ending parsed.ending (
        apply_items parsed.items (record t {
          schema = profile_schema;
          upstream_ipp_major = get_or input 0 0;
          upstream_ipp_minor = get_or input 1 0;
        }))
