-- ===== src/Ipp/Synthesize/Offer.antt =====
-- `append_synthesized_attributes`, second part: what the printer offers for a job, and its state.
use espresso.Prelude.{ℕ, false, not, List, [], ◌∷◌, ◌++◌, ltb, ◌==◌, if◌then◌else◌, Bytes, codes}
use espresso.Ipp.Buffer.{be16, be32}
use espresso.Ipp.Inspect.{tag_integer, tag_enum, tag_keyword}
use espresso.Ipp.Profile.Update.{tag_range}
use espresso.Ipp.Synthesize.{Field, field, text, number, flag, unless, when, values, csv_fields}
use espresso.Ipp.Synthesize.Media.{Measure, media_database, media_sizes, media_default_fields}
use espresso.Ipp.Target.{PrinterTarget}
use espresso.Ipp.Walk.{is_empty}

abbrev pub tag_octet_string : ℕ
tag_octet_string = 0x30

abbrev pub tag_resolution : ℕ
tag_resolution = 0x32

-- `append_resolution`: dots per inch, both ways.
unfoldable pub resolution : Bytes → ℕ → Field
resolution name dpi =
    field tag_resolution name (0 ∷ 0 ∷ (be16 dpi ++ (0 ∷ 0 ∷ (be16 dpi ++ (3 ∷ [])))))

abbrev pub media_members : List Bytes
media_members =
    codes "media-bottom-margin"
    ∷ codes "media-key"
    ∷ codes "media-left-margin"
    ∷ codes "media-right-margin"
    ∷ codes "media-size"
    ∷ codes "media-size-name"
    ∷ codes "media-source"
    ∷ codes "media-top-margin"
    ∷ codes "media-type"
    ∷ []

module _ (measure : Measure) (present : ℕ) (target : PrinterTarget) where
  unfoldable pub sides_fields : List Field
  sides_fields =
      unless present 13 (flag (codes "color-supported") target.color ∷ [])
      ++ unless present 14 (
          values tag_keyword (codes "sides-supported") (
            if target.duplex
            then codes "one-sided" ∷ codes "two-sided-long-edge" ∷ codes "two-sided-short-edge" ∷ []
            else codes "one-sided" ∷ []))
      ++ unless present 15 (
          when (not (target.copies_upper == 0))
            (field tag_range (codes "copies-supported") (be32 1 ++ be32 target.copies_upper) ∷ []))
      ++ unless present 37 (
          when (not (target.copies_upper == 0))
            (number tag_integer (codes "copies-default") 1 ∷ []))

  unfoldable pub with_media : List Field → List Field
  with_media fs = when (not (is_empty target.media)) fs

  unfoldable pub with_default : List Field → List Field
  with_default fs = when (not (is_empty target.media_default)) fs

  unfoldable pub media_fields : List Field
  media_fields =
      unless present 16 (with_media (csv_fields tag_keyword (codes "media-supported") target.media))
      ++ unless present 61
          (with_media (csv_fields tag_keyword (codes "media-key-supported") target.media))
      ++ unless present 62 (with_media (media_sizes measure target.media))
      ++ unless present 38
          (with_default (text tag_keyword (codes "media-default") target.media_default ∷ []))
      ++ unless present 19 (with_media (media_database measure target.media))
      ++ unless present 20 (
          with_default
            (media_default_fields measure (codes "media-col-default") target.media_default))
      ++ unless present 50
          (with_media (values tag_keyword (codes "media-col-supported") media_members))
      ++ unless present 51 (
          with_default
            (media_default_fields measure (codes "media-col-ready") target.media_default))

  unfoldable pub tray_fields : List Field
  tray_fields =
      unless present 52
        (values tag_keyword (codes "media-source-supported") (codes "auto" ∷ codes "main" ∷ []))
      ++ unless present 53
          (text tag_keyword (codes "media-type-supported") (codes "stationery") ∷ [])
      ++ unless present 54 (
          values tag_octet_string (codes "printer-input-tray") (
            codes
              "type=sheetFeedAutoRemovableTray;mediafeed=0;mediaxfeed=0;maxcapacity=-2;level=-2;status=0;name=auto"
            ∷ codes
                "type=sheetFeedAutoRemovableTray;mediafeed=0;mediaxfeed=0;maxcapacity=250;level=100;status=0;name=main"
            ∷ []))

  unfoldable pub color_fields : List Field
  color_fields =
      unless present 21 (
        values tag_keyword (codes "print-color-mode-supported") (
          if target.color
          then codes "monochrome" ∷ codes "color" ∷ []
          else codes "monochrome" ∷ []))
      ++ unless present 22 (
          when (not (is_empty target.color_mode_default))
            (text tag_keyword (codes "print-color-mode-default") target.color_mode_default ∷ []))
      ++ unless present 23 (
          when (not (target.resolution_low_dpi == 0)) (
            resolution (codes "printer-resolution-supported") target.resolution_low_dpi
            ∷ when (ltb target.resolution_low_dpi target.resolution_high_dpi)
                (resolution [] target.resolution_high_dpi ∷ [])))
      ++ unless present 24 (
          when (not (target.resolution_low_dpi == 0))
            (resolution (codes "printer-resolution-default") target.resolution_low_dpi ∷ []))

  unfoldable pub finishing_fields : List Field
  finishing_fields =
      unless present 39 (number tag_enum (codes "finishings-default") 3 ∷ [])
      ++ unless present 40 (number tag_enum (codes "finishings-supported") 3 ∷ [])
      ++ unless present 41 (number tag_enum (codes "orientation-requested-default") 3 ∷ [])
      ++ unless present 42 (number tag_enum (codes "orientation-requested-supported") 3 ∷ [])
      ++ unless present 43 (text tag_keyword (codes "output-bin-default") (codes "face-down") ∷ [])
      ++ unless present 44
          (text tag_keyword (codes "output-bin-supported") (codes "face-down") ∷ [])
      ++ unless present 45 (number tag_enum (codes "print-quality-default") 4 ∷ [])
      ++ unless present 46 (number tag_enum (codes "print-quality-supported") 4 ∷ [])
      ++ unless present 47 (text tag_keyword (codes "sides-default") (codes "one-sided") ∷ [])
      ++ unless present 48 (number tag_integer (codes "pages-per-minute") 0 ∷ [])
      ++ unless present 49
          (when target.color (number tag_integer (codes "pages-per-minute-color") 0 ∷ []))
      ++ unless present 17 (text tag_keyword (codes "compression-supported") (codes "none") ∷ [])
      ++ unless present 18 (flag (codes "multiple-document-jobs-supported") false ∷ [])

  unfoldable pub state_fields : List Field
  state_fields =
      unless present 26 (
        when (not (target.printer_state == 0))
          (number tag_enum (codes "printer-state") target.printer_state ∷ []))
      ++ unless present 27 (
          when (not (target.printer_state == 0)) (
            csv_fields tag_keyword (codes "printer-state-reasons")
              (if is_empty target.state_reasons then codes "none" else target.state_reasons)))
      ++ unless present 28 (
          when target.accepting_jobs_known
            (flag (codes "printer-is-accepting-jobs") target.accepting_jobs ∷ []))

  -- One more value of the attribute in front.
  abbrev pub keyword : Bytes → Field
  keyword v = text tag_keyword [] v

  unfoldable pub creation_fields : List Field
  creation_fields = unless present 25 (
      text tag_keyword (codes "job-creation-attributes-supported") (codes "job-name")
      ∷ keyword (codes "document-format")
      ∷ (when (ltb 1 target.copies_upper) (keyword (codes "copies") ∷ [])
          ++ when (not (is_empty target.media))
              (keyword (codes "media") ∷ keyword (codes "media-col") ∷ [])
          ++ (keyword (codes "sides")
              ∷ keyword (codes "print-color-mode")
              ∷ (when (not (target.resolution_low_dpi == 0))
                    (keyword (codes "printer-resolution") ∷ [])
                  ++ (keyword (codes "print-content-optimize")
                      ∷ keyword (codes "print-rendering-intent")
                      ∷ [])))))
