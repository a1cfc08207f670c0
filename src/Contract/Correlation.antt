-- ===== src/Contract/Correlation.antt =====
-- The trusted correlation: `_evidence_list`, `_correlation_to_dict`, `_correlation_from_dict` and
-- `_validate_correlation` of src/dger/gen4_contract.py.
use dropbox_governed_executi.Prelude.{
  String, Bool, ◌&&◌, none, List, [], ◌∷◌, map, ◌==◌, any, all, no_repeats, if◌then◌else◌,
}
use dropbox_governed_executi.Prelude.Int.{at_least}
use dropbox_governed_executi.Result.{Result, ok, other, require, some_or, dger, ◌>>=◌, ◌>>◌}
use dropbox_governed_executi.Json.{
  Value, str, arr, Items, nil, cons, Fields, items, fields, dict, find, get, has_keys, as_obj,
  as_arr, is_str, is_null, py_eq,
}
use dropbox_governed_executi.Platform.{Python, canonical_digest}
use dropbox_governed_executi.Primitives.Patterns.{
  is_hex64, is_gtg_invocation_id, is_gtg_delegation_id, is_context_digest, safe_id,
}
use dropbox_governed_executi.Contract.Types.{
  gep_tool_id, ahc_tool_id, chm_tool_id, InvocationEvidence, evidence, value, ServiceIdentity,
  TrustedOrigin, TrustedCorrelation,
}
use dropbox_governed_executi.Contract.Dicts.{evidence_asdict, origin_asdict}
use dropbox_governed_executi.Contract.Evidence.{
  invocation_evidence_from_any, validate_invocation_evidence,
}

abbrev pub trusted_correlation_schema : String
trusted_correlation_schema = "dger-trusted-correlation/v1"

-- `value[key]`
abbrev pub index : Fields → String → Result Value
index fs k = some_or (find k fs) (other "KeyError" k)

abbrev pub correlation_keys : List String
correlation_keys =
    "schema" ∷ "origin" ∷ "service_principal_id" ∷ "service_deployment_id" ∷ "service_role"
    ∷ "delegation_invocation_id" ∷ "delegated_context_digest" ∷ "ahc_execution_claim_id"
    ∷ "ahc_effect_reservation_id" ∷ "ahc_work_revision" ∷ "gep_execution_id" ∷ "gep_request_digest"
    ∷ "gep_admission_sha256" ∷ "chm_handoff_id" ∷ "correlation_digest" ∷ "provider_evidence" ∷ []

abbrev pub origin_keys : List String
origin_keys =
    "tenant_id" ∷ "principal_id" ∷ "deployment_id" ∷ "actor_role" ∷ "fleet_epoch"
    ∷ "originating_invocation_id" ∷ "context_digest" ∷ []

-- A set of pairs of texts, by membership.
abbrev pub same_pair : String × String → String × String → Bool
same_pair (a, b) (c, d) = a == c && b == d

abbrev pub same_pairs : List (String × String) → List (String × String) → Bool
same_pairs xs ys = all (λ x. any (same_pair x) ys) xs && all (λ y. any (same_pair y) xs) ys

-- The three owners of a correlation; the last only with a handoff.
unfoldable pub required_pairs : Value → List (String × String)
required_pairs handoff =
    (gep_tool_id, "correlation_read")
    ∷ (ahc_tool_id, "effect_read")
    ∷ (if is_null handoff then [] else (chm_tool_id, "handoff_read") ∷ [])

module _ ⦃py : Python⦄ where
  open py use {str_of, int_of}

  unfoldable pub evidence_all : List InvocationEvidence → Result (List InvocationEvidence)
  unfolding validate_invocation_evidence
  evidence_all [] = ok []
  evidence_all (item ∷ rest) = do
    e ← validate_invocation_evidence (evidence item) none none
    es ← evidence_all rest
    ok (e ∷ es)

  unfoldable pub evidence_list : TrustedCorrelation → Result (List InvocationEvidence)
  unfolding evidence_all
  evidence_list c = evidence_all c.provider_evidence

  unfoldable pub correlation_to_dict : TrustedCorrelation → Result Fields
  unfolding evidence_list origin_asdict evidence_asdict
  correlation_to_dict c = do
    es ← evidence_list c
    ok (
        fields (
          ("schema", str trusted_correlation_schema)
          ∷ ("origin", origin_asdict c.origin)
          ∷ ("service_principal_id", str c.service_principal_id)
          ∷ ("service_deployment_id", str c.service_deployment_id)
          ∷ ("service_role", str c.service_role)
          ∷ ("delegation_invocation_id", str c.delegation_invocation_id)
          ∷ ("delegated_context_digest", str c.delegated_context_digest)
          ∷ ("ahc_execution_claim_id", str c.ahc_execution_claim_id)
          ∷ ("ahc_effect_reservation_id", str c.ahc_effect_reservation_id)
          ∷ ("ahc_work_revision", str c.ahc_work_revision)
          ∷ ("gep_execution_id", str c.gep_execution_id)
          ∷ ("gep_request_digest", str c.gep_request_digest)
          ∷ ("gep_admission_sha256", str c.gep_admission_sha256)
          ∷ ("chm_handoff_id", c.chm_handoff_id)
          ∷ ("correlation_digest", str c.correlation_digest)
          ∷ ("provider_evidence", arr (items (map evidence_asdict es)))
          ∷ []))

  unfoldable pub evidence_items : Items → Result (List InvocationEvidence)
  unfolding invocation_evidence_from_any
  evidence_items nil = ok []
  evidence_items (cons v vs) = do
    e ← invocation_evidence_from_any (value v)
    es ← evidence_items vs
    ok (e ∷ es)

  unfoldable pub origin_of_fields : Fields → Result TrustedOrigin
  origin_of_fields o = do
    epoch ← int_of (get o "fleet_epoch")
    ok (record {
      tenant_id = str_of (get o "tenant_id");
      principal_id = str_of (get o "principal_id");
      deployment_id = str_of (get o "deployment_id");
      actor_role = str_of (get o "actor_role");
      fleet_epoch = epoch;
      originating_invocation_id = str_of (get o "originating_invocation_id");
      context_digest = str_of (get o "context_digest");
    })

  unfoldable pub correlation_from_dict : Fields → Result TrustedCorrelation
  unfolding evidence_items origin_of_fields
  correlation_from_dict v = do
    require (has_keys v correlation_keys && is_str (get v "schema") trusted_correlation_schema)
        "TRUSTED_CORRELATION_STATE_INVALID"
    o ← some_or (as_obj (get v "origin")) (dger "TRUSTED_CORRELATION_STATE_INVALID" "")
    require (has_keys o origin_keys) "TRUSTED_ORIGIN_STATE_INVALID"
    raw_evidence ←
        some_or (as_arr (get v "provider_evidence"))
          (dger "TRUSTED_PROVIDER_EVIDENCE_STATE_INVALID" "")
    origin ← origin_of_fields o
    es ← evidence_items raw_evidence
    ok (record {
      origin = origin;
      service_principal_id = str_of (get v "service_principal_id");
      service_deployment_id = str_of (get v "service_deployment_id");
      service_role = str_of (get v "service_role");
      delegation_invocation_id = str_of (get v "delegation_invocation_id");
      delegated_context_digest = str_of (get v "delegated_context_digest");
      ahc_execution_claim_id = str_of (get v "ahc_execution_claim_id");
      ahc_effect_reservation_id = str_of (get v "ahc_effect_reservation_id");
      ahc_work_revision = str_of (get v "ahc_work_revision");
      gep_execution_id = str_of (get v "gep_execution_id");
      gep_request_digest = str_of (get v "gep_request_digest");
      gep_admission_sha256 = str_of (get v "gep_admission_sha256");
      chm_handoff_id = get v "chm_handoff_id";
      correlation_digest = str_of (get v "correlation_digest");
      provider_evidence = es;
    })

  -- The digest over every correlated field, the payload manifest and the evidence.
  unfoldable pub expected_correlation_digest :
      TrustedCorrelation → String → List InvocationEvidence → String
  unfolding canonical_digest origin_asdict evidence_asdict
  expected_correlation_digest c payload_manifest_sha256 es = canonical_digest (
      dict (
        ("origin", origin_asdict c.origin)
        ∷ ("service_principal_id", str c.service_principal_id)
        ∷ ("service_deployment_id", str c.service_deployment_id)
        ∷ ("service_role", str c.service_role)
        ∷ ("delegation_invocation_id", str c.delegation_invocation_id)
        ∷ ("delegated_context_digest", str c.delegated_context_digest)
        ∷ ("ahc_execution_claim_id", str c.ahc_execution_claim_id)
        ∷ ("ahc_effect_reservation_id", str c.ahc_effect_reservation_id)
        ∷ ("ahc_work_revision", str c.ahc_work_revision)
        ∷ ("gep_execution_id", str c.gep_execution_id)
        ∷ ("gep_request_digest", str c.gep_request_digest)
        ∷ ("gep_admission_sha256", str c.gep_admission_sha256)
        ∷ ("payload_manifest_sha256", str payload_manifest_sha256)
        ∷ ("chm_handoff_id", c.chm_handoff_id)
        ∷ ("provider_evidence", arr (items (map evidence_asdict es)))
        ∷ []))

  -- The identifiers of the first loop, and the origin that may ask for an effect.
  unfoldable pub validate_trusted_ids : TrustedCorrelation → Result (Unit {0})
  validate_trusted_ids c = do
    safe_id (str c.origin.tenant_id) "TRUSTED_TENANT_INVALID"
    safe_id (str c.origin.principal_id) "TRUSTED_PRINCIPAL_INVALID"
    safe_id (str c.origin.deployment_id) "TRUSTED_ORIGIN_DEPLOYMENT_INVALID"
    safe_id (str c.service_principal_id) "TRUSTED_SERVICE_ID_INVALID"
    safe_id (str c.ahc_execution_claim_id) "TRUSTED_AHC_CLAIM_INVALID"
    safe_id (str c.ahc_effect_reservation_id) "TRUSTED_AHC_EFFECT_INVALID"
    safe_id (str c.ahc_work_revision) "TRUSTED_AHC_REVISION_INVALID"
    safe_id (str c.gep_execution_id) "TRUSTED_GEP_EXECUTION_INVALID"
    require (c.origin.actor_role == "BUILDER") "TRUSTED_ORIGIN_ROLE_INVALID"
    require (is_gtg_invocation_id c.origin.originating_invocation_id) "TRUSTED_INVOCATION_INVALID"
    require (at_least 1 c.origin.fleet_epoch) "TRUSTED_FLEET_EPOCH_INVALID"
    require (is_context_digest c.origin.context_digest) "TRUSTED_CONTEXT_DIGEST_INVALID"

  -- The service that the correlation names is the relay's own.
  unfoldable pub validate_trusted_service : TrustedCorrelation → ServiceIdentity → Result (Unit {0})
  validate_trusted_service c service = do
    require (c.service_role == "EXECUTION_RELAY" && service.actor_role == "EXECUTION_RELAY")
        "SERVICE_ROLE_INVALID"
    require (c.service_principal_id == service.service_principal_id) "WRONG_DGER_SERVICE_ID"
    require (c.service_deployment_id == service.service_deployment_id)
        "WRONG_DGER_SERVICE_DEPLOYMENT"
    require (is_gtg_delegation_id c.delegation_invocation_id)
        "TRUSTED_DELEGATION_INVOCATION_INVALID"
    require (is_context_digest c.delegated_context_digest)
        "TRUSTED_DELEGATED_CONTEXT_DIGEST_INVALID"

  -- The digests are well formed, and the correlation is about this request.
  unfoldable pub validate_trusted_request : TrustedCorrelation → Fields → String → Result (Unit {0})
  validate_trusted_request c request admission_sha256 = do
    require (is_hex64 c.gep_request_digest) "TRUSTED_GEP_REQUEST_DIGEST_INVALID"
    require (is_hex64 c.gep_admission_sha256) "TRUSTED_ADMISSION_DIGEST_INVALID"
    require (is_hex64 c.correlation_digest) "TRUSTED_CORRELATION_DIGEST_INVALID"
    execution ← index request "gep_execution_id"
    require (is_str execution c.gep_execution_id) "GEP_EXECUTION_MISMATCH"
    effect ← index request "ahc_effect_reservation_id"
    require (is_str effect c.ahc_effect_reservation_id) "AHC_EFFECT_MISMATCH"
    require (py_eq c.chm_handoff_id (get request "chm_handoff_id"))
        "CHM_HANDOFF_CORRELATION_MISMATCH"
    require (c.gep_admission_sha256 == admission_sha256) "GEP_ADMISSION_MISMATCH"

  -- The evidence: distinct invocations of exactly the required operations, under the digest.
  unfoldable pub validate_trusted_evidence : TrustedCorrelation → String → Result (Unit {0})
  validate_trusted_evidence c payload_manifest_sha256 = do
    es ← evidence_list c
    require (no_repeats (map (λ e. e.invocation_id) es)) "GTG_INVOCATION_EVIDENCE_DUPLICATE"
    require (same_pairs (map (λ e. (e.tool_id, e.operation)) es) (required_pairs c.chm_handoff_id))
        "TRUSTED_CORRELATION_PROVIDER_SET_INVALID"
    require (c.correlation_digest == expected_correlation_digest c payload_manifest_sha256 es)
        "TRUSTED_CORRELATION_DIGEST_MISMATCH"

  unfoldable pub validate_correlation :
      TrustedCorrelation → Fields → String → String → ServiceIdentity → Result (Unit {0})
  validate_correlation c request admission_sha256 payload_manifest_sha256 service = do
    validate_trusted_ids c
    validate_trusted_service c service
    validate_trusted_request c request admission_sha256
    validate_trusted_evidence c payload_manifest_sha256
