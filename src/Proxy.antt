-- ===== src/Proxy.antt =====
-- main/ipp_proxy_core.c and main/ipp_proxy_core.h, with `ipp_codec_relay_operations` and
-- `ipp_codec_format_supported` of main/ipp_codec.c: what becomes of a request, decided before any
-- byte of it goes to the printer.
pub mod Laws
mod Tests
use Prim.Native.Nat.{bit_and, bit_or}
use espresso.Prelude.{
  ℕ, ◌+◌, ◌*◌, ◌^◌, Bool, true, false, not, ◌&&◌, ◌||◌, Option, none, some, List, [], ◌∷◌, length,
  ltb, leb, ◌==◌, if◌then◌else◌, Bytes, codes,
}
use espresso.Ipp.Csv.{equal_span, csv_contains}
use espresso.Ipp.Inspect.{RequestInfo}
use espresso.Ipp.Target.{PrinterTarget}
use espresso.Ipp.Walk.{is_empty}

abbrev pub print_job : ℕ
print_job = 2

abbrev pub print_uri : ℕ
print_uri = 3

abbrev pub validate_job : ℕ
validate_job = 4

abbrev pub create_job : ℕ
create_job = 5

abbrev pub send_document : ℕ
send_document = 6

abbrev pub send_uri : ℕ
send_uri = 7

abbrev pub cancel_job : ℕ
cancel_job = 8

abbrev pub get_job_attributes : ℕ
get_job_attributes = 9

abbrev pub get_jobs : ℕ
get_jobs = 10

abbrev pub get_printer_attributes : ℕ
get_printer_attributes = 11

abbrev pub cancel_my_jobs : ℕ
cancel_my_jobs = 0x39

abbrev pub close_job : ℕ
close_job = 0x3b

abbrev pub identify_printer : ℕ
identify_printer = 0x3c

unfoldable pub mask : List ℕ → ℕ
mask [] = 0
mask (op ∷ ops) = bit_or (2 ^ op) (mask ops)

abbrev pub individually_safe : List ℕ
individually_safe =
    print_job ∷ print_uri ∷ validate_job ∷ send_uri ∷ cancel_job ∷ get_job_attributes ∷ get_jobs
    ∷ get_printer_attributes ∷ cancel_my_jobs ∷ close_job ∷ identify_printer ∷ []

unfoldable pub has_bit : ℕ → ℕ → Bool
has_bit operations op = not (bit_and operations (2 ^ op) == 0)

-- `ipp_codec_relay_operations`
unfoldable pub relay_operations : ℕ → ℕ
relay_operations upstream =
    let relay = bit_or (bit_and upstream (mask individually_safe)) (2 ^ get_printer_attributes) in
    if has_bit upstream create_job && has_bit upstream send_document
    then bit_or relay (mask (create_job ∷ send_document ∷ []))
    else relay

-- `ipp_codec_format_supported`; an empty format stands for NULL too.
unfoldable pub format_supported : PrinterTarget → Bytes → Bool
format_supported target format = not (is_empty format) && csv_contains target.pdl format

pub data Action : Type 0 where
  relay : Action
  local_status : Action

pub data DocumentTransform : Type 0 where
  passthrough : DocumentTransform
  pwg_to_urf : DocumentTransform

pub record Plan : Type 0 where
  pub action : Action
  pub document_operation : Bool
  pub document_transform : DocumentTransform
  pub upstream_document_format : Option Bytes
  pub response_major : ℕ
  pub response_minor : ℕ
  pub upstream_major : ℕ
  pub upstream_minor : ℕ
  pub status_code : ℕ
  pub status_message : Bytes

unfoldable pub version_supported : RequestInfo → Bool
version_supported r = (r.major == 1 && r.minor == 1) || (r.major == 2 && r.minor == 0)

unfoldable pub is_complete : RequestInfo → Bool
is_complete r =
    not (r.request_id == 0)
    && r.operation_attributes_valid
    && r.has_attributes_charset
    && r.has_natural_language
    && r.has_target_uri

unfoldable pub is_document_operation : ℕ → Bool
is_document_operation op = op == print_job || op == send_document

unfoldable pub is_relayed : PrinterTarget → ℕ → Bool
is_relayed target op = ltb op 64 && has_bit (relay_operations target.operations_supported) op

-- PWG raster for a printer that takes URF is converted on the way.
unfoldable pub is_converted : RequestInfo → PrinterTarget → Bool
is_converted r target =
    equal_span r.document_format (codes "image/pwg-raster")
    && format_supported target (codes "image/urf")

-- `format_must_be_relayable` and a format that is not.
unfoldable pub format_refused : RequestInfo → PrinterTarget → Bool
format_refused r target =
    (r.operation_id == print_job
      || r.operation_id == validate_job
      || r.operation_id == create_job
      || r.operation_id == send_document)
    && not (is_empty r.document_format)
    && not (format_supported target r.document_format)
    && not (is_converted r target)

abbrev pub bad_request : ℕ
bad_request = 0x400

-- A test that a request may fail, with the status and the message if it does.
abbrev pub Test : Type 0
Test = Bool × (ℕ × Bytes)

-- The tests in their order, each with a return of its own in the source but the last.
unfoldable pub tests : RequestInfo → PrinterTarget → ℕ → List Test
tests r target content_length =
    (not (version_supported r), (0x503, codes "ESPresso supports IPP/1.1 and IPP/2.0"))
    ∷ (not (is_complete r), (bad_request, codes "Missing required IPP operation attribute"))
    ∷ (
      not (equal_span r.attributes_charset (codes "utf-8")),
      (0x40d, codes "Only utf-8 IPP attributes are supported"),
    )
    ∷ (
      not (is_relayed target r.operation_id),
      (0x501, codes "Operation is not supported by the selected printer"),
    )
    ∷ (
      ltb content_length r.attributes_length,
      (bad_request, codes "IPP attributes exceed the request body"),
    )
    ∷ (
      r.operation_id == print_job && content_length == r.attributes_length,
      (bad_request, codes "Print-Job requires document data"),
    )
    ∷ (
      not (is_document_operation r.operation_id) && not (content_length == r.attributes_length),
      (bad_request, codes "This operation cannot contain document data"),
    )
    ∷ (
      format_refused r target,
      (0x40a, codes "Document format cannot be relayed to the selected printer"),
    )
    ∷ []

unfoldable pub first_failed : List Test → Option (ℕ × Bytes)
first_failed [] = none
first_failed ((fails, status) ∷ rest) = if fails then some status else first_failed rest

unfoldable pub upstream_version : PrinterTarget → ℕ × ℕ
upstream_version target =
    if target.capability_queried && leb 2 target.upstream_ipp_major
    then (target.upstream_ipp_major, target.upstream_ipp_minor)
    else (1, 1)

abbrev pub judged : Plan → Option (ℕ × Bytes) → Plan
judged plan none = plan
judged plan (some (code, message)) = record plan {
  action = local_status;
  status_code = code;
  status_message = message;
}

-- `ipp_proxy_plan_request`
unfoldable pub plan_request : RequestInfo → PrinterTarget → ℕ → Plan
plan_request r target content_length =
    let converted = is_converted r target in
    let supported = version_supported r in
    judged
      (record {
        action = relay;
        document_operation = is_document_operation r.operation_id;
        document_transform = if converted then pwg_to_urf else passthrough;
        upstream_document_format = if converted then some (codes "image/urf") else none;
        response_major = if supported then r.major else 2;
        response_minor = if supported then r.minor else 0;
        upstream_major = (upstream_version target).0;
        upstream_minor = (upstream_version target).1;
        status_code = 0;
        status_message = [];
      })
      (first_failed (tests r target content_length))

pub data Fault : Type 0 where
  upstream_timeout upstream_disconnect response_too_large invalid_response : Fault

pub record FaultPolicy : Type 0 where
  pub http_status : Bytes
  pub message : Bytes
  pub retry_allowed : Bool

unfoldable pub may_retry : Fault → Bool
may_retry upstream_timeout = true
may_retry upstream_disconnect = true
may_retry response_too_large = false
may_retry invalid_response = false

abbrev pub fault_text : Fault → Bytes × Bytes
fault_text upstream_timeout = (codes "504 Gateway Timeout", codes "Legacy printer timed out")
fault_text response_too_large =
    (codes "502 Bad Gateway", codes "Legacy printer response exceeded the safety limit")
fault_text invalid_response =
    (codes "502 Bad Gateway", codes "Legacy printer returned an invalid IPP response")
fault_text upstream_disconnect =
    (codes "502 Bad Gateway", codes "Legacy printer disconnected during the request")

-- `ipp_proxy_plan_fault`
unfoldable pub plan_fault : Fault → Bool → FaultPolicy
plan_fault fault document_operation = record {
  http_status = (fault_text fault).0;
  message = (fault_text fault).1;
  retry_allowed = not document_operation && may_retry fault;
}
