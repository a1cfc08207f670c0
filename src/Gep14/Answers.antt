-- ===== src/Gep14/Answers.antt =====
-- What the correlation port of src/dger/gen4_gep14_correlation.py asks of each owner's answer:
-- `_gep`, `_ahc` and `_chm`.
use Prim.Native.Char.{code}
use dropbox_governed_executi.Prelude.{
  ℕ, String, ◌&&◌, Option, none, some, List, [], ◌∷◌, nat_eq, if◌then◌else◌,
}
use dropbox_governed_executi.Prelude.Int.{ℤ, int_eq, at_least}
use dropbox_governed_executi.Result.{Result, ok, other, require, some_or, dger, ◌>>=◌, ◌>>◌}
use dropbox_governed_executi.Json.{
  Value, num, str, obj, Fields, dict, get, has_keys, as_int, is_str, is_false, is_null, optional,
  py_eq,
}
use dropbox_governed_executi.Platform.{Python}
use dropbox_governed_executi.Primitives.Patterns.{is_hex64, matching, safe_id}
use dropbox_governed_executi.Contract.Types.{ServiceIdentity, TrustedOrigin}
use dropbox_governed_executi.Delegation.{DelegatedServiceContext}
use dropbox_governed_executi.Gep14.Reads.{RequestIds, mapping, same_origin_service}

abbrev pub gep_result_keys : List String
gep_result_keys =
    "ok" ∷ "code" ∷ "launch_capability" ∷ "origin" ∷ "service_deployment_id"
    ∷ "ahc_execution_claim_id" ∷ "ahc_effect_reservation_id" ∷ "ahc_work_revision"
    ∷ "gep_execution_id" ∷ "gep_request_digest" ∷ "gep_admission_sha256" ∷ "origin_envelope_sha256"
    ∷ "trusted_binding_digest" ∷ "result_binding" ∷ []

abbrev pub gep_origin_keys : List String
gep_origin_keys =
    "tenant_id" ∷ "principal_id" ∷ "deployment_id" ∷ "fleet_epoch" ∷ "originating_invocation_id"
    ∷ "context_digest" ∷ []

abbrev pub ahc_result_keys : List String
ahc_result_keys =
    "ok" ∷ "code" ∷ "effect_id" ∷ "execution_claim_id" ∷ "effect_class" ∷ "status" ∷ "workstream_id"
    ∷ "workstream_revision" ∷ "provisioned_fleet_epoch" ∷ "origin_context_digest"
    ∷ "origin_invocation_id" ∷ "gep_execution_id" ∷ "gep_request_digest" ∷ "reconciliation_mode"
    ∷ "terminal_evidence_digest" ∷ "replayed" ∷ []

abbrev pub chm_result_keys : List String
chm_result_keys =
    "ok" ∷ "code" ∷ "handoff_id" ∷ "namespace_binding" ∷ "project_binding" ∷ "external_execution"
    ∷ "terminal_result" ∷ "execution_authority" ∷ "authorizes_moh_execution" ∷ "ahc_effect_truth"
    ∷ "gep_execution_admission" ∷ []

-- `text.split(":", 1)[1]`
unfoldable pub after_colon : String → Option String
after_colon String.[] = none
after_colon (String.◌∷◌ c s) = if nat_eq (code c) 58 then some s else after_colon s

unfoldable pub expected_origin : DelegatedServiceContext → String → Value
expected_origin context digest = dict (
    ("tenant_id", str context.tenant_id)
    ∷ ("principal_id", str context.principal_id)
    ∷ ("deployment_id", str context.deployment_id)
    ∷ ("fleet_epoch", num context.provisioned_fleet_epoch)
    ∷ ("originating_invocation_id", str context.origin_invocation_id)
    ∷ ("context_digest", str digest)
    ∷ [])

-- What `_gep` returns.
pub record GepFacts : Type 0 where
  pub origin : TrustedOrigin
  pub claim_id : String
  pub work_revision : String
  pub request_digest : String

unfoldable pub gep_origin : Fields → DelegatedServiceContext → Result (Unit {0})
unfolding after_colon expected_origin py_eq
gep_origin result context = do
  origin ← mapping (get result "origin") "GEP_CORRELATION_ORIGIN_INVALID"
  require (has_keys origin gep_origin_keys) "GEP_CORRELATION_ORIGIN_INVALID"
  digest ←
      some_or (after_colon context.origin_context_digest)
        (other "IndexError" "list index out of range")
  require (py_eq (obj origin) (expected_origin context digest)) "GEP_ORIGIN_CONTEXT_MISMATCH"

-- `_gep`
unfoldable pub gep_facts :
    Fields → DelegatedServiceContext → ServiceIdentity → RequestIds → String → Result GepFacts
unfolding gep_origin matching safe_id is_hex64
gep_facts result context service ids admission_sha256 = do
  require (has_keys result gep_result_keys) "GEP_CORRELATION_RESULT_INVALID"
  require
      (is_str (get result "code") "GEP_TRUSTED_CORRELATION_READ"
        && is_false (get result "launch_capability"))
      "GEP_CORRELATION_RESULT_INVALID"
  require (is_null (get result "result_binding")) "GEP_RESULT_ALREADY_BOUND"
  gep_origin result context
  require (is_str (get result "service_deployment_id") service.service_deployment_id)
      "GEP_SERVICE_DEPLOYMENT_MISMATCH"
  require (is_str (get result "gep_execution_id") ids.execution_id) "GEP_EXECUTION_MISMATCH"
  require (is_str (get result "ahc_effect_reservation_id") ids.effect_id) "AHC_EFFECT_MISMATCH"
  require (is_str (get result "gep_admission_sha256") admission_sha256) "GEP_ADMISSION_MISMATCH"
  request_digest ←
      matching is_hex64 (get result "gep_request_digest") "TRUSTED_GEP_REQUEST_DIGEST_INVALID"
  matching is_hex64 (get result "gep_admission_sha256") "TRUSTED_ADMISSION_DIGEST_INVALID"
  matching is_hex64 (get result "origin_envelope_sha256") "GEP_ORIGIN_ENVELOPE_DIGEST_INVALID"
  matching is_hex64 (get result "trusted_binding_digest") "GEP_TRUSTED_BINDING_DIGEST_INVALID"
  claim ← safe_id (get result "ahc_execution_claim_id") "TRUSTED_AHC_CLAIM_INVALID"
  revision ← safe_id (get result "ahc_work_revision") "TRUSTED_AHC_REVISION_INVALID"
  ok (record {
    origin = record {
      tenant_id = context.tenant_id;
      principal_id = context.principal_id;
      deployment_id = context.deployment_id;
      actor_role = context.origin_actor_role;
      fleet_epoch = context.provisioned_fleet_epoch;
      originating_invocation_id = context.origin_invocation_id;
      context_digest = context.origin_context_digest;
    };
    claim_id = claim;
    work_revision = revision;
    request_digest = request_digest;
  })

-- A whole number that is at least `low`; a Boolean is none.
unfoldable pub int_from : ℕ → Value → Result ℤ
int_from low value = do
  n ← some_or (as_int value) (dger "AHC_EFFECT_READ_RESULT_INVALID" "")
  require (at_least low n) "AHC_EFFECT_READ_RESULT_INVALID"
  ok n

module _ ⦃py : Python⦄ where
  open py use {str_of}

  -- The loop over `checks`.
  unfoldable pub ahc_matches :
      Fields → DelegatedServiceContext → RequestIds → GepFacts → ℤ → ℤ → Result (Unit {0})
  ahc_matches result gep_context ids gep revision epoch = do
    require (is_str (get result "effect_id") ids.effect_id) "AHC_EFFECT_MISMATCH"
    require (is_str (get result "execution_claim_id") gep.claim_id) "AHC_CLAIM_MISMATCH"
    require (is_str (str (str_of (num revision))) gep.work_revision) "AHC_WORK_REVISION_MISMATCH"
    require (int_eq epoch gep_context.provisioned_fleet_epoch) "AHC_FLEET_EPOCH_MISMATCH"
    require (is_str (get result "origin_context_digest") gep_context.origin_context_digest)
        "AHC_ORIGIN_CONTEXT_MISMATCH"
    require (is_str (get result "origin_invocation_id") gep_context.origin_invocation_id)
        "AHC_ORIGIN_CONTEXT_MISMATCH"
    require (is_str (get result "gep_execution_id") ids.execution_id) "GEP_EXECUTION_MISMATCH"
    require (is_str (get result "gep_request_digest") gep.request_digest)
        "GEP_REQUEST_DIGEST_MISMATCH"

  -- `_ahc`
  unfoldable pub ahc_answer :
      Fields
      → DelegatedServiceContext
      → DelegatedServiceContext
      → RequestIds
      → GepFacts
      → Result (Unit {0})
  unfolding int_from safe_id same_origin_service ahc_matches
  ahc_answer result context gep_context ids gep = do
    require (same_origin_service context gep_context) "AHC_ORIGIN_CONTEXT_MISMATCH"
    require (has_keys result ahc_result_keys && is_str (get result "code") "AHC_EFFECT_READ")
        "AHC_EFFECT_READ_RESULT_INVALID"
    require
        (is_str (get result "status") "RESERVED"
          && is_str (get result "reconciliation_mode") "INDEPENDENT")
        "AHC_EFFECT_STALE_OR_SUPERSEDED"
    revision ← int_from 0 (get result "workstream_revision")
    epoch ← int_from 1 (get result "provisioned_fleet_epoch")
    require (is_null (get result "terminal_evidence_digest") && is_false (get result "replayed"))
        "AHC_EFFECT_READ_RESULT_INVALID"
    safe_id (get result "effect_class") "AHC_EFFECT_READ_RESULT_INVALID"
    safe_id (get result "workstream_id") "AHC_EFFECT_READ_RESULT_INVALID"
    ahc_matches result gep_context ids gep revision epoch

-- `_chm`
unfoldable pub chm_answer :
    Fields
    → DelegatedServiceContext
    → DelegatedServiceContext
    → RequestIds
    → String
    → Result (Unit {0})
unfolding py_eq same_origin_service
chm_answer result context gep_context ids handoff_id = do
  require (same_origin_service context gep_context) "CHM_ORIGIN_CONTEXT_MISMATCH"
  require (has_keys result chm_result_keys && is_str (get result "code") "HANDOFF_FOUND")
      "CHM_HANDOFF_READ_RESULT_INVALID"
  require
      (py_eq (get result "namespace_binding") (
          dict (
            ("tenant_id", str gep_context.tenant_id)
            ∷ ("principal_id", str gep_context.principal_id)
            ∷ ("deployment_id", str gep_context.deployment_id)
            ∷ []))
        && py_eq (get result "project_binding") (optional gep_context.project_binding))
      "CHM_ORIGIN_CONTEXT_MISMATCH"
  require (is_str (get result "handoff_id") handoff_id) "CHM_HANDOFF_CORRELATION_MISMATCH"
  require
      (py_eq (get result "external_execution") (
        dict
          (("ahc_effect_id", str ids.effect_id) ∷ ("gep_execution_id", str ids.execution_id) ∷ [])))
      "CHM_EXTERNAL_EXECUTION_MISMATCH"
  require
      (is_str (get result "execution_authority") "NOT_CHM"
        && is_false (get result "authorizes_moh_execution")
        && is_str (get result "ahc_effect_truth") "NOT_CHM"
        && is_str (get result "gep_execution_admission") "NOT_CHM")
      "CHM_AUTHORITY_CLAIM_INVALID"
