-- ===== src/Proxy/Laws.antt =====
-- Which requests `ipp_proxy_plan_request` relays.
use espresso.Prelude.{
  ℕ, ◌≤◌, ◌<◌, ◌≡◌, ◌≢◌, ◌⊎◌, refl, arith, true, false, Option, none, some, List, [], ◌∷◌, All,
  Bytes, codes,
}
use espresso.Ipp.Csv.{equal_span}
use espresso.Ipp.Inspect.{RequestInfo}
use espresso.Ipp.Target.{PrinterTarget}
use espresso.Proxy.{
  relay, print_job, send_document, has_bit, relay_operations, format_refused, version_supported,
  is_complete, is_document_operation, is_relayed, Test, tests, first_failed, judged, Plan,
  plan_request,
}

-- What a request has to be for the selected printer to see it.
pub record IsRelayable (r : RequestInfo) (target : PrinterTarget) (content_length : ℕ)
    : Type 0 where
  pub version : ((r.major ≡ 1) × (r.minor ≡ 1)) ⊎ ((r.major ≡ 2) × (r.minor ≡ 0))
  pub identified : r.request_id ≢ 0
  pub attributes_valid : r.operation_attributes_valid ≡ true
  pub charset_given : r.has_attributes_charset ≡ true
  pub language_given : r.has_natural_language ≡ true
  pub target_given : r.has_target_uri ≡ true
  pub charset : equal_span r.attributes_charset (codes "utf-8") ≡ true
  pub operation_small : r.operation_id < 64
  pub operation : has_bit (relay_operations target.operations_supported) r.operation_id ≡ true
  pub envelope : r.attributes_length ≤ content_length
  pub print_job_document : r.operation_id ≡ print_job → r.attributes_length < content_length
  pub no_document :
      r.operation_id ≢ print_job
      → r.operation_id ≢ send_document
      → content_length ≡ r.attributes_length
  pub format : format_refused r target ≡ false

abbrev Passed : Test → Type 0
Passed t = t.0 ≡ false

first_failed-none : (ts : List Test) → first_failed ts ≡ none → All Passed ts
unfolding first_failed
first_failed-none [] e = tt
first_failed-none ((true, x) ∷ ts) e = cc
first_failed-none ((false, x) ∷ ts) e = (refl, first_failed-none ts e)

judged-relay : (plan : Plan) (o : Option (ℕ × Bytes)) → (judged plan o).action ≡ relay → o ≡ none
judged-relay plan none e = refl
judged-relay plan (some x) e = cc

-- A request that is relayed meets the conditions of `IsRelayable`: on its version, its request id
-- and operation attributes, the charset, the operation, the lengths and the document format.
pub plan_request-IsRelayable :
    (r : RequestInfo) (target : PrinterTarget) (content_length : ℕ)
    → (plan_request r target content_length).action ≡ relay
    → IsRelayable r target content_length
unfolding plan_request tests version_supported is_complete is_document_operation is_relayed
plan_request-IsRelayable r target n e =
    let (g1, (g2, (g3, (g4, (g5, (g6, (g7, (g8, _)))))))) =
      first_failed-none (tests r target n) (judged-relay _ (first_failed (tests r target n)) e) in
    record {
      version = ground arith;
      identified = ground arith;
      attributes_valid = ground arith;
      charset_given = ground arith;
      language_given = ground arith;
      target_given = ground arith;
      charset = ground arith;
      operation_small = ground arith;
      operation = ground arith;
      envelope = ground arith;
      print_job_document = λ p. ground arith;
      no_document = λ p s. ground arith;
      format = g8;
    }

first_failed-Passed : (ts : List Test) → All Passed ts → first_failed ts ≡ none
unfolding first_failed
first_failed-Passed [] h = refl
first_failed-Passed ((true, x) ∷ ts) (e, h) = cc
first_failed-Passed ((false, x) ∷ ts) (e, h) = first_failed-Passed ts h

-- Every request that meets the conditions of `IsRelayable` is relayed.
pub IsRelayable-relay :
    (r : RequestInfo) (target : PrinterTarget) (content_length : ℕ)
    → IsRelayable r target content_length
    → (plan_request r target content_length).action ≡ relay
unfolding plan_request tests version_supported is_complete is_document_operation is_relayed
IsRelayable-relay r target n v =
    let passed : All Passed (tests r target n) = (
      ground (arith, v.version, v.print_job_document, v.no_document),
      (
        ground (arith, v.version, v.print_job_document, v.no_document),
        (
          ground (arith, v.version, v.print_job_document, v.no_document),
          (
            ground (arith, v.version, v.print_job_document, v.no_document),
            (
              ground (arith, v.version, v.print_job_document, v.no_document),
              (
                ground (arith, v.version, v.print_job_document, v.no_document),
                (ground (arith, v.version, v.print_job_document, v.no_document), (v.format, tt)),
              ),
            ),
          ),
        ),
      ),
    ) in
    rw (first_failed-Passed (tests r target n) passed) refl
