-- ===== src/Gen3/Ingress.antt =====
-- src/dger/relay_protocol_ingress.py: `_validate_request`, `_validate_ready` and
-- `validate_moh_envelope`.
use dropbox_governed_executi.Prelude.{ℕ, String, Bool, ◌&&◌, List, [], ◌∷◌, length}
use dropbox_governed_executi.Prelude.Int.{pos}
use dropbox_governed_executi.Result.{Result, ok, require, require_with, ◌>>◌}
use dropbox_governed_executi.Json.{Value, num, str, obj, Fields, get, has_keys, is_str, py_eq}
use dropbox_governed_executi.Platform.{Bytes, Python, sha256, canonical_digest}
use dropbox_governed_executi.Primitives.Patterns.{
  is_id, is_handoff_id, is_hex40, is_hex64, matching,
}
use dropbox_governed_executi.Primitives.Payload.{PayloadEntry}
use dropbox_governed_executi.Guard.{is_text}
use dropbox_governed_executi.Runtime.Answers.{without}
use dropbox_governed_executi.Gen3.Payload.{moh_closure_digest}

abbrev pub execution_request_schema : String
execution_request_schema = "dger-execution-request/v1"

abbrev pub ready_schema_v1 : String
ready_schema_v1 = "dger-ready/v1"

abbrev pub moh_envelope_schema : String
moh_envelope_schema = "moh-execution-envelope/v1"

unfoldable pub validate_execution_request : Fields → String → Result (Unit {0})
unfolding matching is_id is_handoff_id
validate_execution_request request execution_id = do
  require
      (has_keys request ("schema" ∷ "execution_id" ∷ "logical_handoff_id" ∷ "dger_request_id" ∷ [])
        && is_str (get request "schema") execution_request_schema)
      "MALFORMED_REQUEST"
  require (is_str (get request "execution_id") execution_id && is_id execution_id)
      "INVALID_EXECUTION_ID"
  matching is_handoff_id (get request "logical_handoff_id") "INVALID_LOGICAL_HANDOFF_ID"
  matching is_id (get request "dger_request_id") "INVALID_DGER_REQUEST_ID"
  ok tt

-- The loop over `checks`.
unfoldable pub matches_all : Fields → List (String × Value) → Result (Unit {0})
unfolding py_eq
matches_all ready [] = ok tt
matches_all ready ((key, actual) ∷ checks) = do
  require_with (py_eq (get ready key) actual) "INGRESS_INTEGRITY_MISMATCH" key
  matches_all ready checks

abbrev pub ready_keys : List String
ready_keys =
    "schema" ∷ "execution_id" ∷ "request_sha256" ∷ "request_size" ∷ "envelope_sha256"
    ∷ "envelope_size" ∷ "payload_manifest_sha256" ∷ "payload_total_bytes" ∷ "payload_file_count"
    ∷ []

abbrev pub envelope_keys : List String
envelope_keys =
    "schema" ∷ "execution_id" ∷ "upstream_correlation_id" ∷ "tool_id" ∷ "repository_id"
    ∷ "authority_selector" ∷ "authority_commit" ∷ "authority_tree" ∷ "operation_id"
    ∷ "operation_contract_digest" ∷ "closure_digest" ∷ "parameters" ∷ "parameters_digest"
    ∷ "effect_class" ∷ "launch_context" ∷ "retry_policy" ∷ "request_digest" ∷ []

-- A loop over keys whose texts must have the form of a pattern.
unfoldable pub each_matching : (String → Bool) → Fields → List String → String → Result (Unit {0})
each_matching p fs [] code = ok tt
each_matching p fs (key ∷ ks) code = do
  require_with (is_matched p (get fs key)) code key
  each_matching p fs ks code
  where
    is_matched : (String → Bool) → Value → Bool
    is_matched p (str s) = p s
    is_matched p _ = Bool.false

module _ ⦃py : Python⦄ where
  unfoldable pub validate_ready_record :
      Fields → String → Bytes → Bytes → List PayloadEntry → ℕ → String → Result (Unit {0})
  unfolding matches_all
  validate_ready_record ready execution_id request_raw envelope_raw entries total manifest_digest =
      do
        require
            (has_keys ready ready_keys
              && is_str (get ready "schema") ready_schema_v1
              && is_str (get ready "execution_id") execution_id)
            "MALFORMED_READY"
        matches_all ready (
            ("request_sha256", str (sha256 request_raw))
            ∷ ("request_size", num (pos (length request_raw)))
            ∷ ("envelope_sha256", str (sha256 envelope_raw))
            ∷ ("envelope_size", num (pos (length envelope_raw)))
            ∷ ("payload_manifest_sha256", str manifest_digest)
            ∷ ("payload_total_bytes", num (pos total))
            ∷ ("payload_file_count", num (pos (length entries)))
            ∷ [])

  unfoldable pub validate_moh_envelope : Fields → String → List PayloadEntry → Result (Unit {0})
  unfolding is_text each_matching is_hex40 is_hex64 moh_closure_digest canonical_digest without
  validate_moh_envelope envelope execution_id entries = do
    require (has_keys envelope envelope_keys && is_str (get envelope "schema") moh_envelope_schema)
        "INVALID_MOH_ENVELOPE"
    require (is_str (get envelope "execution_id") execution_id) "MOH_EXECUTION_ID_MISMATCH"
    require (is_str (get envelope "authority_selector") "refs/heads/main")
        "UNSUPPORTED_AUTHORITY_SELECTOR"
    require (is_text (get envelope "tool_id")) "INVALID_CONSUMER_TOOL_ID"
    require (is_text (get envelope "operation_id")) "INVALID_OPERATION_ID"
    each_matching is_hex40 envelope ("authority_commit" ∷ "authority_tree" ∷ [])
        "INVALID_CONSUMER_BINDING"
    each_matching is_hex64 envelope
        ("operation_contract_digest" ∷ "closure_digest" ∷ "parameters_digest" ∷ "request_digest"
          ∷ [])
        "INVALID_MOH_DIGEST"
    require (is_str (get envelope "closure_digest") (moh_closure_digest entries))
        "MOH_CLOSURE_DIGEST_MISMATCH"
    require
        (is_str (get envelope "request_digest")
          (canonical_digest (obj (without "request_digest" envelope))))
        "MOH_REQUEST_DIGEST_MISMATCH"
