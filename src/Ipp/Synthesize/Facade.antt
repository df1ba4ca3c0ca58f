-- ===== src/Ipp/Synthesize/Facade.antt =====
-- `append_synthesized_attributes`, last part: what the facade adds in any case, and the whole.
use espresso.Prelude.{
  ℕ, true, false, not, Option, some, List, [], ◌∷◌, ◌++◌, ltb, ◌==◌, if◌then◌else◌, Bytes, codes,
  ◌>>=◌,
}
use espresso.Ipp.{Result}
use espresso.Ipp.Buffer.{Heap, Buffer, append}
use espresso.Ipp.Csv.{csv_contains, value_contains}
use espresso.Ipp.Inspect.{tag_integer, tag_keyword, tag_text, message_code}
use espresso.Ipp.Rewrite.{tag_uri, rewrite, transform_message}
use espresso.Ipp.Select.{tag_printer}
use espresso.Ipp.Synthesize.{Field, field, text, number, flag, when, values, append_fields}
use espresso.Ipp.Synthesize.Describe.{protocol_fields, name_fields, format_fields}
use espresso.Ipp.Synthesize.Media.{Measure}
use espresso.Ipp.Synthesize.Offer.{
  tag_octet_string, resolution, sides_fields, media_fields, tray_fields, color_fields,
  finishing_fields, state_fields, creation_fields,
}
use espresso.Ipp.Target.{PrinterTarget}
use espresso.Ipp.Walk.{is_empty}
use espresso.Proxy.{has_bit, create_job}

abbrev pub tag_datetime : ℕ
tag_datetime = 0x31

abbrev pub tag_unknown : ℕ
tag_unknown = 0x12

abbrev pub epoch : Bytes
epoch = 0x07 ∷ 0xb2 ∷ 1 ∷ 1 ∷ 0 ∷ 0 ∷ 0 ∷ 0 ∷ b'+' ∷ 0 ∷ 0 ∷ []

module _ (target : PrinterTarget) where
  unfoldable pub job_fields : List Field
  job_fields =
      flag (codes "job-ids-supported") true
      ∷ flag (codes "preferred-attributes-supported") false
      ∷ number tag_integer (codes "media-bottom-margin-supported") 0
      ∷ number tag_integer (codes "media-left-margin-supported") 0
      ∷ number tag_integer (codes "media-right-margin-supported") 0
      ∷ number tag_integer (codes "media-top-margin-supported") 0
      ∷ (when (not (is_empty target.media_default))
            (text tag_keyword (codes "media-ready") target.media_default ∷ [])
          ++ (text tag_keyword (codes "print-content-optimize-default") (codes "auto")
              ∷ text tag_keyword (codes "print-content-optimize-supported") (codes "auto")
              ∷ text tag_keyword (codes "print-rendering-intent-default") (codes "auto")
              ∷ text tag_keyword (codes "print-rendering-intent-supported") (codes "auto")
              ∷ []))

  abbrev pub device_fields : List Field
  device_fields =
      field tag_datetime (codes "printer-config-change-date-time") epoch
      ∷ number tag_integer (codes "printer-config-change-time") 0
      ∷ text tag_text (codes "printer-device-id")
          (codes "MFG:ESPresso;MDL:Legacy AirPrint Bridge;CMD:URF,PWG;")
      ∷ field tag_unknown (codes "printer-geo-location") []
      ∷ text tag_keyword (codes "printer-get-attributes-supported") (codes "document-format")
      ∷ text tag_uri (codes "printer-icons") (codes "http://espresso.local/favicon.svg")
      ∷ text tag_text (codes "printer-organization") []
      ∷ text tag_text (codes "printer-organizational-unit") []
      ∷ field tag_datetime (codes "printer-state-change-date-time") epoch
      ∷ number tag_integer (codes "printer-state-change-time") 0
      ∷ text tag_octet_string (codes "printer-supply") (
          codes
            "index=1;class=supplyThatIsConsumed;type=unknown;unit=unknown;maxcapacity=-2;level=-2;colorantname=unknown")
      ∷ text tag_text (codes "printer-supply-description") (codes "Legacy printer supply")
      ∷ text tag_uri (codes "printer-supply-info-uri") (codes "http://espresso.local/")
      ∷ values tag_keyword (codes "which-jobs-supported")
          (codes "completed" ∷ codes "not-completed" ∷ codes "all" ∷ [])

  unfoldable pub timeout_fields : List Field
  timeout_fields = when (has_bit target.operations_supported create_job) (
      number tag_integer (codes "multiple-operation-time-out") 60
      ∷ text tag_keyword (codes "multiple-operation-time-out-action") (codes "abort-job")
      ∷ [])

  -- The types, of which the first has the name.
  unfoldable pub raster_types : List Bytes
  raster_types =
      (if value_contains (codes "w8") target.urf then codes "sgray_8" ∷ [] else [])
      ++ (if value_contains (codes "srgb24") target.urf then codes "srgb_8" ∷ [] else [])

  unfoldable pub raster_fields : List Field
  raster_fields = when (csv_contains target.pdl (codes "image/urf")) (
      when (not (target.resolution_low_dpi == 0)) (
        resolution (codes "pwg-raster-document-resolution-supported") target.resolution_low_dpi
        ∷ [])
      ++ when (ltb target.resolution_low_dpi target.resolution_high_dpi)
          (resolution [] target.resolution_high_dpi ∷ [])
      ++ (text tag_keyword (codes "pwg-raster-document-sheet-back") (codes "normal") ∷ [])
      ++ values tag_keyword (codes "pwg-raster-document-type-supported") raster_types)

module _ (measure : Measure) (printer_uri local_uuid : Bytes) (target : PrinterTarget) where
  unfoldable pub synthesized : ℕ → List Field
  synthesized present =
      protocol_fields present printer_uri local_uuid target
      ++ name_fields present printer_uri local_uuid target
      ++ format_fields present printer_uri local_uuid target
      ++ sides_fields measure present target
      ++ media_fields measure present target
      ++ tray_fields measure present target
      ++ color_fields measure present target
      ++ finishing_fields measure present target
      ++ state_fields measure present target
      ++ creation_fields measure present target
      ++ job_fields target
      ++ device_fields target
      ++ timeout_fields target
      ++ raster_fields target

  -- `append_synthesized_attributes`: in the printer group, which is opened if another one is.
  unfoldable pub append_synthesized : Heap → ℕ → ℕ → Buffer → Option Buffer
  append_synthesized heap present current_group b = do
    c ← if current_group == tag_printer then some b else append heap (tag_printer ∷ []) b
    append_fields heap (synthesized present) c

  -- `ipp_codec_normalize_printer_response`: an answer that reports an error is rewritten only.
  unfoldable pub normalize_printer_response : Heap → Bytes → Bytes → Result (Bytes × ℕ)
  normalize_printer_response heap authority input =
      if ltb (message_code input) 0x400
      then transform_message heap printer_uri authority (some (append_synthesized heap)) input
      else rewrite heap printer_uri authority input
