-- ===== src/Ipp/Profile/Fits.antt =====
-- The sizes of a profile's texts and numbers, kept by every answer.
use espresso.Prelude.{◌^◌, ◌≤◌, ◌<◌, ◌≡◌, Bool, true, false, Option, none, some, length}
use espresso.Ipp.Profile.Update.{color_if}
use espresso.Ipp.Target.{
  PrinterTarget, pdl_max, urf_max, media_max, media_name_max, label_max, location_max, uuid_max,
  ipp_versions_max, color_mode_max, state_reasons_max, admin_url_max,
}

-- The texts that an answer sets end within their arrays, all numbers fit their integers, and a
-- profile without a lower resolution has no upper one.
abbrev pub IsFitting : PrinterTarget → Type 0
IsFitting t =
    (length t.pdl < pdl_max)
    × (length t.urf < urf_max)
    × (length t.media < media_max)
    × (length t.media_default < media_name_max)
    × (length t.label < label_max)
    × (length t.location < location_max)
    × (length t.uuid < uuid_max)
    × (length t.ipp_versions < ipp_versions_max)
    × (length t.color_mode_default < color_mode_max)
    × (length t.state_reasons < state_reasons_max)
    × (length t.admin_url < admin_url_max)
    × (t.copies_upper ≤ 65535)
    × (t.printer_state ≤ 255)
    × (t.schema < 2 ^ 32)
    × (t.port < 2 ^ 16)
    × (t.operations_supported < 2 ^ 64)
    × (t.job_template_capabilities < 2 ^ 32)
    × (t.upstream_ipp_major ≤ 255)
    × (t.upstream_ipp_minor ≤ 255)
    × (t.resolution_low_dpi ≤ 65535)
    × (t.resolution_high_dpi ≤ 65535)
    × (t.resolution_low_dpi ≡ 0 → t.resolution_high_dpi ≡ 0)

abbrev Fits : Option PrinterTarget → Type 0
Fits none = Unit
Fits (some t) = IsFitting t

color_if-IsFitting : (b : Bool) (t : PrinterTarget) → IsFitting t → IsFitting (color_if b t)
unfolding color_if
color_if-IsFitting true t v = v
color_if-IsFitting false t v = v
