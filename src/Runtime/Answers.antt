-- ===== src/Runtime/Answers.antt =====
-- What the runtime peers of src/dger/gen4_runtime_peers.py ask of an answer: `_validate_ahc`,
-- `_moh_observation`, and the checks of `chm_publish_terminal`.
use Prim.Native.String.{◌++◌}
use dropbox_governed_executi.Prelude.{
  ℕ, String, Bool, true, false, not, ◌&&◌, none, List, [], ◌∷◌, ◌==◌, elem, leb, length,
  if◌then◌else◌,
}
use dropbox_governed_executi.Prelude.Int.{ℤ, int_eq, at_least}
use dropbox_governed_executi.Result.{
  Result, ok, err, other, dger, raise, require, some_or, ◌>>=◌, ◌>>◌,
}
use dropbox_governed_executi.Json.{
  Value, null, bool, num, str, obj, arr, Fields, end, field, dict, get, has_keys, as_int, is_str,
  is_true, is_false, is_null, py_eq,
}
use dropbox_governed_executi.Platform.{
  Python, encode, canonical_digest, canonical_file_bytes, sha256,
}
use dropbox_governed_executi.Primitives.Patterns.{is_hex64, is_context_digest, matching, safe_id}
use dropbox_governed_executi.Primitives.Parsing.{json_object_no_duplicates}
use dropbox_governed_executi.Contract.Types.{
  InvocationEvidence, ServiceIdentity, TrustedCorrelation, MohObservation, evidence,
}
use dropbox_governed_executi.Contract.Observations.{max_peer_observation_bytes}
use dropbox_governed_executi.Delegation.{DelegatedServiceContext}
use dropbox_governed_executi.Gep14.Reads.{mapping}

abbrev pub ahc_projection_keys : List String
ahc_projection_keys =
    "ok" ∷ "code" ∷ "effect_id" ∷ "execution_claim_id" ∷ "effect_class" ∷ "status" ∷ "workstream_id"
    ∷ "workstream_revision" ∷ "provisioned_fleet_epoch" ∷ "origin_context_digest"
    ∷ "origin_invocation_id" ∷ "gep_execution_id" ∷ "gep_request_digest" ∷ "reconciliation_mode"
    ∷ "terminal_evidence_digest" ∷ "replayed" ∷ []

abbrev pub ahc_note_keys : List String
ahc_note_keys = "moh_observation_digest" ∷ "state_revision" ∷ ahc_projection_keys

abbrev pub ahc_terminal_keys : List String
ahc_terminal_keys =
    "terminal_digest" ∷ "result_ref" ∷ "result_sha256" ∷ "terminal_acceptance" ∷ "state_revision"
    ∷ ahc_projection_keys

abbrev pub chm_publish_keys : List String
chm_publish_keys =
    "ok" ∷ "code" ∷ "handoff_id" ∷ "status" ∷ "namespace_binding" ∷ "project_binding"
    ∷ "target_role" ∷ "review_episode_id" ∷ "external_execution" ∷ "terminal_result"
    ∷ "execution_authority" ∷ "authorizes_moh_execution" ∷ "ahc_effect_truth"
    ∷ "gep_execution_admission" ∷ "reused" ∷ []

abbrev pub chm_terminal_keys : List String
chm_terminal_keys =
    "schema" ∷ "ahc_effect_id" ∷ "gep_execution_id" ∷ "result_digest" ∷ "result"
    ∷ "relay_service_id" ∷ "relay_service_deployment_id" ∷ "relay_context_digest"
    ∷ "relay_delegation_invocation_id" ∷ []

abbrev pub moh_wrapper_keys : List String
moh_wrapper_keys = "ok" ∷ "state" ∷ "response_json" ∷ []

abbrev pub moh_allowed : List String
moh_allowed =
    "NOT_FOUND" ∷ "ADMITTED" ∷ "START_INTENT_COMMITTED" ∷ "RUNNING" ∷ "SUCCEEDED" ∷ "FAILED"
    ∷ "REJECTED_PRECONDITION" ∷ "REJECTED_DUPLICATE_MISMATCH" ∷ "IN_DOUBT" ∷ []

abbrev pub moh_false_ok : List String
moh_false_ok = "FAILED" ∷ "IN_DOUBT" ∷ "REJECTED_PRECONDITION" ∷ "REJECTED_DUPLICATE_MISMATCH" ∷ []

-- `if value not in {...}: raise ...`: a dictionary or a list has no hash.
unfoldable pub one_of : Value → List String → String → Result String
one_of (str s) allowed code = do require (elem s allowed) code; ok s
one_of (obj fs) allowed code = err (other "TypeError" "unhashable type: 'dict'")
one_of (arr vs) allowed code = err (other "TypeError" "unhashable type: 'list'")
one_of _ allowed code = raise code

-- A whole number that is at least `low`; a Boolean is none.
unfoldable pub whole_from : ℕ → Value → String → Result ℤ
whole_from low value code = do
  n ← some_or (as_int value) (dger code "")
  require (at_least low n) code
  ok n

-- `isinstance(value, bool)`
abbrev pub is_bool : Value → Bool
is_bool (bool b) = true
is_bool _ = false

-- `value is flag`, for a Boolean `flag`.
abbrev pub is_flag : Value → Bool → Bool
is_flag v true = is_true v
is_flag v false = is_false v

abbrev pub same_flag : Bool → Bool → Bool
same_flag true b = b
same_flag false b = not b

unfoldable pub terminal_evidence : Value → Result (Unit {0})
unfolding is_context_digest
terminal_evidence null = ok tt
terminal_evidence (str s) = require (is_context_digest s) "AHC_RELAY_RESULT_INVALID"
terminal_evidence _ = raise "AHC_RELAY_RESULT_INVALID"

-- `body.pop("receipt_digest")`
unfoldable pub without : String → Fields → Fields
without k end = end
without k (field j v fs) = let rest = without k fs in if j == k then rest else field j v rest

module _ ⦃py : Python⦄ where
  open py use {str_of}

  -- The loop over `checks`.
  unfoldable pub ahc_relay_matches :
      Fields → TrustedCorrelation → DelegatedServiceContext → ℤ → ℤ → Result (Unit {0})
  ahc_relay_matches result c context revision epoch = do
    require (is_str (get result "effect_id") c.ahc_effect_reservation_id) "AHC_EFFECT_MISMATCH"
    require (is_str (get result "execution_claim_id") c.ahc_execution_claim_id) "AHC_CLAIM_MISMATCH"
    require (str_of (num revision) == c.ahc_work_revision) "AHC_WORK_REVISION_MISMATCH"
    require (int_eq epoch c.origin.fleet_epoch) "AHC_FLEET_EPOCH_MISMATCH"
    require (is_str (get result "origin_context_digest") c.origin.context_digest)
        "AHC_ORIGIN_CONTEXT_MISMATCH"
    require (is_str (get result "origin_invocation_id") c.origin.originating_invocation_id)
        "AHC_ORIGIN_CONTEXT_MISMATCH"
    require (is_str (get result "gep_execution_id") c.gep_execution_id) "GEP_EXECUTION_MISMATCH"
    require (is_str (get result "gep_request_digest") c.gep_request_digest)
        "GEP_REQUEST_DIGEST_MISMATCH"
    require (context.origin_context_digest == c.origin.context_digest) "AHC_ORIGIN_CONTEXT_MISMATCH"

  -- `_validate_ahc`
  unfoldable pub validate_ahc_relay :
      Fields
      → TrustedCorrelation
      → DelegatedServiceContext
      → List String
      → List String
      → Result (Unit {0})
  unfolding one_of whole_from terminal_evidence ahc_relay_matches safe_id
  validate_ahc_relay result c context keys codes = do
    require (has_keys result keys && is_true (get result "ok")) "AHC_RELAY_RESULT_INVALID"
    one_of (get result "code") codes "AHC_RELAY_RESULT_INVALID"
    revision ← whole_from 0 (get result "workstream_revision") "AHC_RELAY_RESULT_INVALID"
    epoch ← whole_from 1 (get result "provisioned_fleet_epoch") "AHC_RELAY_RESULT_INVALID"
    safe_id (get result "effect_class") "AHC_RELAY_RESULT_INVALID"
    safe_id (get result "workstream_id") "AHC_RELAY_RESULT_INVALID"
    require
        (is_str (get result "reconciliation_mode") "INDEPENDENT" && is_bool (get result "replayed"))
        "AHC_RELAY_RESULT_INVALID"
    terminal_evidence (get result "terminal_evidence_digest")
    ahc_relay_matches result c context revision epoch

  -- The digest of MOH's own record: the receipt it carries, if that is the digest of the rest.
  unfoldable pub moh_digest : Fields → Result String
  unfolding matching is_hex64 without canonical_digest
  moh_digest inner =
      if is_null (get inner "receipt_digest") then ok (canonical_digest (obj inner)) else (do
        receipt ← matching is_hex64 (get inner "receipt_digest") "MOH_RECEIPT_DIGEST_INVALID"
        require (canonical_digest (obj (without "receipt_digest" inner)) == receipt)
            "MOH_RECEIPT_DIGEST_MISMATCH"
        ok receipt)

  unfoldable pub moh_payload : Value → Result Value
  moh_payload null = ok null
  moh_payload (obj fs) = ok (obj fs)
  moh_payload _ = raise "MOH_RESULT_INVALID"

  -- `_moh_observation`
  unfoldable pub moh_observation :
      TrustedCorrelation → Fields → InvocationEvidence → Result MohObservation
  unfolding one_of json_object_no_duplicates moh_digest moh_payload
  moh_observation c result e = do
    require (has_keys result moh_wrapper_keys) "MOH_WRAPPER_INVALID"
    raw ←
        matching (λ s. leb (length (encode s)) max_peer_observation_bytes)
          (get result "response_json") "MOH_WRAPPER_INVALID"
    inner ← json_object_no_duplicates (encode raw)
    state ← one_of (get result "state") moh_allowed "MOH_STATE_INVALID"
    require (is_str (get inner "state") state) "MOH_STATE_INVALID"
    require (is_str (get inner "execution_id") c.gep_execution_id) "MOH_EXECUTION_MISMATCH"
    one_of (get inner "schema") ("moh-status/v1" ∷ "moh-execute/v1" ∷ [])
        "MOH_RESPONSE_SCHEMA_INVALID"
    require (is_flag (get result "ok") (not (elem state moh_false_ok))) "MOH_WRAPPER_OK_MISMATCH"
    digest ← moh_digest inner
    payload ← moh_payload (get inner "result")
    ok (record {
      gep_execution_id = c.gep_execution_id;
      state = state;
      record_id = none;
      evidence_digest = digest;
      result = payload;
      invocation_evidence = evidence e;
    })

  -- The checks of `chm_publish_terminal` on the answer.
  unfoldable pub chm_publication :
      ServiceIdentity
      → TrustedCorrelation
      → Value
      → Fields
      → DelegatedServiceContext
      → Result (Unit {0})
  unfolding py_eq canonical_file_bytes
  chm_publication service c descriptor result context = do
    require
        (has_keys result chm_publish_keys
          && is_true (get result "ok")
          && is_str (get result "code") "HANDOFF_FOUND")
        "CHM_TERMINAL_RESULT_INVALID"
    require
        (py_eq (get result "handoff_id") c.chm_handoff_id
          && py_eq (get result "namespace_binding") (
              dict (
                ("tenant_id", str c.origin.tenant_id)
                ∷ ("principal_id", str c.origin.principal_id)
                ∷ ("deployment_id", str c.origin.deployment_id)
                ∷ []))
          && py_eq (get result "external_execution") (
              dict (
                ("ahc_effect_id", str c.ahc_effect_reservation_id)
                ∷ ("gep_execution_id", str c.gep_execution_id)
                ∷ []))
          && is_str (get result "execution_authority") "NOT_CHM"
          && is_false (get result "authorizes_moh_execution")
          && is_str (get result "ahc_effect_truth") "NOT_CHM"
          && is_str (get result "gep_execution_admission") "NOT_CHM"
          && is_str (get result "status") "TERMINAL_RESULT"
          && is_bool (get result "reused"))
        "CHM_TERMINAL_RESULT_INVALID"
    terminal ← mapping (get result "terminal_result") "CHM_TERMINAL_RESULT_INVALID"
    require (has_keys terminal chm_terminal_keys) "CHM_TERMINAL_RESULT_INVALID"
    let expected = "sha256:" ++ sha256 (canonical_file_bytes (dict (("result", descriptor) ∷ [])))
    require
        (is_str (get terminal "schema") "chm-terminal-transport-result/v1"
          && is_str (get terminal "ahc_effect_id") c.ahc_effect_reservation_id
          && is_str (get terminal "gep_execution_id") c.gep_execution_id
          && is_str (get terminal "result_digest") expected
          && py_eq (get terminal "result") descriptor
          && is_str (get terminal "relay_service_id") service.service_principal_id
          && is_str (get terminal "relay_service_deployment_id") service.service_deployment_id
          && is_str (get terminal "relay_context_digest") context.context_digest
          && is_str (get terminal "relay_delegation_invocation_id")
              context.delegation_invocation_id)
        "CHM_TERMINAL_RESULT_INVALID"
