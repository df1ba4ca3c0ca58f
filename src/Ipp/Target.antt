-- ===== src/Ipp/Target.antt =====
-- main/printer_types.h: the profile of the selected printer. A `char` array is the C string that
-- it holds.
use espresso.Prelude.{ℕ, Bool, false, [], Bytes}

abbrev pub profile_schema : ℕ
profile_schema = 7

-- The sizes of the arrays that the codec writes to.
abbrev pub pdl_max : ℕ
pdl_max = 256

abbrev pub urf_max : ℕ
urf_max = 160

abbrev pub media_max : ℕ
media_max = 384

abbrev pub media_name_max : ℕ
media_name_max = 64

abbrev pub label_max : ℕ
label_max = 96

abbrev pub location_max : ℕ
location_max = 96

abbrev pub uuid_max : ℕ
uuid_max = 64

abbrev pub ipp_versions_max : ℕ
ipp_versions_max = 32

abbrev pub color_mode_max : ℕ
color_mode_max = 16

abbrev pub state_reasons_max : ℕ
state_reasons_max = 192

abbrev pub admin_url_max : ℕ
admin_url_max = 256

-- The bits of `job_template_capabilities`.
abbrev pub cap_copies : ℕ
cap_copies = 1

abbrev pub cap_finishings : ℕ
cap_finishings = 2

abbrev pub cap_orientation : ℕ
cap_orientation = 4

abbrev pub cap_output_bin : ℕ
cap_output_bin = 8

abbrev pub cap_print_quality : ℕ
cap_print_quality = 16

abbrev pub cap_sides : ℕ
cap_sides = 32

abbrev pub cap_print_color_mode : ℕ
cap_print_color_mode = 64

pub record PrinterTarget : Type 0 where
  pub schema : ℕ
  pub instance_name : Bytes
  pub hostname : Bytes
  pub address : Bytes
  pub port : ℕ
  pub resource_path : Bytes
  pub pdl : Bytes
  pub urf : Bytes
  pub media : Bytes
  pub media_default : Bytes
  pub label : Bytes
  pub location : Bytes
  pub uuid : Bytes
  pub ipp_versions : Bytes
  pub color_mode_default : Bytes
  pub state_reasons : Bytes
  pub operations_supported : ℕ
  pub job_template_capabilities : ℕ
  pub copies_upper : ℕ
  pub resolution_low_dpi : ℕ
  pub resolution_high_dpi : ℕ
  pub upstream_ipp_major : ℕ
  pub upstream_ipp_minor : ℕ
  pub printer_state : ℕ
  pub capability_queried : Bool
  pub accepting_jobs : Bool
  pub accepting_jobs_known : Bool
  pub color : Bool
  pub duplex : Bool
  pub copies : Bool
  pub collate : Bool
  pub legacy_output_mode : Bool
  pub admin_url : Bytes
  pub secure_transport : Bool
  pub page_ranges_supported : Bool
  pub overrides_document_number : Bool
  pub overrides_pages : Bool
  pub ipp_everywhere : Bool

-- `memset` of a profile to 0.
abbrev pub plain_target : PrinterTarget
plain_target = record {
  schema = 0;
  instance_name = [];
  hostname = [];
  address = [];
  port = 0;
  resource_path = [];
  pdl = [];
  urf = [];
  media = [];
  media_default = [];
  label = [];
  location = [];
  uuid = [];
  ipp_versions = [];
  color_mode_default = [];
  state_reasons = [];
  operations_supported = 0;
  job_template_capabilities = 0;
  copies_upper = 0;
  resolution_low_dpi = 0;
  resolution_high_dpi = 0;
  upstream_ipp_major = 0;
  upstream_ipp_minor = 0;
  printer_state = 0;
  capability_queried = false;
  accepting_jobs = false;
  accepting_jobs_known = false;
  color = false;
  duplex = false;
  copies = false;
  collate = false;
  legacy_output_mode = false;
  admin_url = [];
  secure_transport = false;
  page_ranges_supported = false;
  overrides_document_number = false;
  overrides_pages = false;
  ipp_everywhere = false;
}
