-- ===== src/Proxy/Tests.antt =====
-- Runs of the proxy's plan.
use espresso.Prelude.{[], ◌≡◌, refl, true, false, codes, to_lower}
use espresso.Ipp.Csv.{equal_span}
use espresso.Ipp.Inspect.{RequestInfo}
use espresso.Ipp.Target.{plain_target}
use espresso.Proxy.{
  relay, plan_request, tests, first_failed, version_supported, is_complete, is_document_operation,
  is_relayed, is_converted, format_refused, has_bit, relay_operations, mask,
}
use espresso.Proxy.Laws.{IsRelayable, plan_request-IsRelayable, IsRelayable-relay}

-- A Get-Printer-Attributes request without a document.
abbrev query : RequestInfo
query = record {
  major = 2;
  minor = 0;
  operation_id = 11;
  request_id = 1;
  attributes_length = 97;
  has_document = false;
  has_attributes_charset = true;
  has_natural_language = true;
  has_target_uri = true;
  has_job_id = false;
  has_last_document = false;
  last_document = false;
  job_id = 0;
  operation_attributes_valid = true;
  attributes_charset = codes "UTF-8";
  document_format = [];
  job_name = [];
  requested_attributes = [];
}

query-relay : (plan_request query plain_target 97).action ≡ relay
unfolding plan_request tests first_failed version_supported is_complete is_document_operation
    is_relayed is_converted format_refused has_bit relay_operations mask equal_span to_lower
query-relay = refl

plan_request-IsRelayable_example : IsRelayable query plain_target 97
plan_request-IsRelayable_example = plan_request-IsRelayable query plain_target 97 query-relay

IsRelayable-relay_example : (plan_request query plain_target 97).action ≡ relay
IsRelayable-relay_example =
    IsRelayable-relay query plain_target 97
      (plan_request-IsRelayable query plain_target 97 query-relay)
