-- ===== src/Ipp/Synthesize/Describe.antt =====
-- `append_synthesized_attributes`, first part: who the printer is, and what it speaks.
use espresso.Prelude.{
  ℕ, zero, suc, not, ◌&&◌, List, [], ◌∷◌, ◌++◌, map, take, if◌then◌else◌, Bytes, codes, equal,
}
use espresso.Ipp.Buffer.{be32}
use espresso.Ipp.Csv.{csv_contains}
use espresso.Ipp.Inspect.{
  tag_integer, tag_enum, tag_keyword, tag_charset, tag_language, tag_mimetype, tag_text, tag_name,
}
use espresso.Ipp.Profile.Update.{starts_with}
use espresso.Ipp.Rewrite.{tag_uri}
use espresso.Ipp.Synthesize.{Field, text, number, unless, when, values, csv_fields}
use espresso.Ipp.Target.{PrinterTarget, uuid_max}
use espresso.Ipp.Walk.{is_empty}
use espresso.Proxy.{relay_operations, has_bit}

abbrev pub tag_uri_scheme : ℕ
tag_uri_scheme = 0x46

-- The operations whose bit is set, from `n` on.
unfoldable pub operations_from : ℕ → ℕ → ℕ → List ℕ
operations_from operations n zero = []
operations_from operations n (suc left) =
    let rest = operations_from operations (suc n) left in
    if has_bit operations n then n ∷ rest else rest

-- `urn`, an array of `uuid_max + 10` bytes.
unfoldable pub uuid_urn : Bytes → Bytes
uuid_urn uuid =
    if starts_with (codes "urn:uuid:") uuid then uuid else codes "urn:uuid:" ++ take uuid_max uuid

module _ (present : ℕ) (printer_uri local_uuid : Bytes) (target : PrinterTarget) where
  unfoldable pub protocol_fields : List Field
  protocol_fields =
      unless present 0
        (values tag_keyword (codes "ipp-versions-supported") (codes "1.1" ∷ codes "2.0" ∷ []))
      ++ unless present 1 (
          values tag_enum (codes "operations-supported")
            (map be32 (operations_from (relay_operations target.operations_supported) 0 64)))
      ++ unless present 2 (text tag_uri (codes "printer-uri-supported") printer_uri ∷ [])
      ++ unless present 3
          (text tag_keyword (codes "uri-authentication-supported") (codes "none") ∷ [])
      ++ unless present 4 (
          text tag_keyword (codes "uri-security-supported")
            (if equal (take 7 printer_uri) (codes "ipps://") then codes "tls" else codes "none")
          ∷ [])
      ++ unless present 60
          (text tag_uri_scheme (codes "reference-uri-schemes-supported") (codes "ftp") ∷ [])
      ++ unless present 5 (
          when (not (is_empty local_uuid))
            (text tag_uri (codes "printer-uuid") (uuid_urn local_uuid) ∷ []))

  unfoldable pub label : Bytes
  label = if is_empty target.label then target.instance_name else target.label

  unfoldable pub name_fields : List Field
  name_fields =
      unless present 6 (text tag_name (codes "printer-name") label ∷ [])
      ++ unless present 7 (text tag_text (codes "printer-info") label ∷ [])
      ++ unless present 8 (text tag_text (codes "printer-make-and-model") label ∷ [])
      -- Both tests of the location, the empty one too.
      ++ unless present 9 (text tag_text (codes "printer-location") target.location ∷ [])
      ++ unless present 29 (text tag_charset (codes "charset-configured") (codes "utf-8") ∷ [])
      ++ unless present 30 (text tag_charset (codes "charset-supported") (codes "utf-8") ∷ [])
      ++ unless present 31
          (text tag_language (codes "natural-language-configured") (codes "en") ∷ [])
      ++ unless present 32
          (text tag_language (codes "generated-natural-language-supported") (codes "en") ∷ [])
      ++ unless present 33
          (text tag_uri (codes "printer-more-info") (codes "http://espresso.local/") ∷ [])
      ++ unless present 34 (number tag_integer (codes "printer-up-time") 1 ∷ [])
      ++ unless present 35
          (text tag_keyword (codes "pdl-override-supported") (codes "not-attempted") ∷ [])
      ++ unless present 36 (number tag_integer (codes "queued-job-count") 0 ∷ [])

  -- PWG raster is converted for a printer that takes URF.
  unfoldable pub added_raster : List Field
  added_raster =
      when
        (csv_contains target.pdl (codes "image/urf")
          && not (csv_contains target.pdl (codes "image/pwg-raster")))
        (text tag_mimetype [] (codes "image/pwg-raster") ∷ [])

  unfoldable pub default_format : List Field
  default_format =
      if csv_contains target.pdl (codes "application/pdf")
      then text tag_mimetype (codes "document-format-default") (codes "application/pdf") ∷ []
      else if csv_contains target.pdl (codes "image/urf")
      then text tag_mimetype (codes "document-format-default") (codes "image/urf") ∷ []
      else []

  unfoldable pub format_fields : List Field
  format_fields =
      unless present 10 (
        when (not (is_empty target.pdl))
          (csv_fields tag_mimetype (codes "document-format-supported") target.pdl ++ added_raster))
      ++ unless present 11 default_format
      ++ unless present 59 (
          when (csv_contains target.pdl (codes "application/pdf"))
            (number tag_integer (codes "document-password-supported") 1023 ∷ []))
      ++ unless present 12 (
          when (not (is_empty target.urf))
            (csv_fields tag_keyword (codes "urf-supported") target.urf))
