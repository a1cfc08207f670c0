-- ===== src/Gep14/Reads.antt =====
-- `AuthenticatedPeerRead`, the reader, `_read`, `_request` and `_same_origin_service` of
-- src/dger/gen4_gep14_correlation.py.
use Prim.Native.String.{◌++◌}
use dropbox_governed_executi.Prelude.{
  String, Bool, true, false, ◌&&◌, Option, none, some, ◌==◌, elem,
}
use dropbox_governed_executi.Prelude.Int.{int_eq}
use dropbox_governed_executi.Result.{Result, ok, require, require_with, some_or, dger, ◌>>=◌, ◌>>◌}
use dropbox_governed_executi.Json.{
  Value, null, Fields, obj, get, has_keys, as_obj, as_str, is_str, is_true,
}
use dropbox_governed_executi.Platform.{Python}
use dropbox_governed_executi.Primitives.Patterns.{
  is_hex64, is_execution_id, is_effect_id, is_handoff_id, matching, safe_id,
}
use dropbox_governed_executi.Primitives.Package.{request_schema, request_keys}
use dropbox_governed_executi.Contract.Types.{InvocationEvidence, AnyEvidence, ServiceIdentity}
use dropbox_governed_executi.Contract.Evidence.{validate_invocation_evidence}
use dropbox_governed_executi.Delegation.{
  DelegatedServiceContext, parse_delegated_service_context, require_protected_service_match,
}
use dropbox_governed_executi.Relay.History.{History}

pub record AuthenticatedPeerRead : Type 0 where
  pub result : Value
  pub delegated_context : Value
  pub invocation_evidence : AnyEvidence

-- `invoke_read`, from all that has happened: an object of another type is `none`.
abbrev pub Reader : Type 0
Reader =
    History → String → String → Fields → ServiceIdentity → Result (Option AuthenticatedPeerRead)

-- What `_read` hands on.
pub record PeerRead : Type 0 where
  pub result : Fields
  pub context : DelegatedServiceContext
  pub evidence : InvocationEvidence

-- `_mapping`
abbrev pub mapping : Value → String → Result Fields
mapping value code = some_or (as_obj value) (dger code "")

abbrev pub same_optional : Option String → Option String → Bool
same_optional none none = true
same_optional (some a) (some b) = a == b
same_optional _ _ = false

unfoldable pub same_origin_service : DelegatedServiceContext → DelegatedServiceContext → Bool
same_origin_service a b =
    a.tenant_id == b.tenant_id
    && a.principal_id == b.principal_id
    && a.deployment_id == b.deployment_id
    && a.origin_actor_role == b.origin_actor_role
    && int_eq a.provisioned_fleet_epoch b.provisioned_fleet_epoch
    && a.origin_context_digest == b.origin_context_digest
    && a.origin_invocation_id == b.origin_invocation_id
    && a.service_role == b.service_role
    && a.service_id == b.service_id
    && a.service_deployment_id == b.service_deployment_id
    && same_optional a.project_binding b.project_binding

-- `result.get("code")` where it is a text.
unfoldable pub failure_detail : Fields → String
failure_detail result = elim (as_str (get result "code")) [ none ↦ "" | some code ↦ code ]

module _ ⦃py : Python⦄ where
  -- The checks of an answer, in the order of the source.
  unfoldable pub checked_read :
      String → String → ServiceIdentity → Option AuthenticatedPeerRead → Result PeerRead
  unfolding failure_detail
  checked_read tool_id operation service answer = do
    observed ← some_or answer (dger "AUTHENTICATED_PEER_READ_INVALID" "")
    raw_context ← mapping observed.delegated_context "DELEGATED_CONTEXT_INVALID"
    context ← parse_delegated_service_context (obj raw_context)
    require_protected_service_match context service
    require (elem "READ" context.authorized_capability_classes)
        "DELEGATED_CONTEXT_READ_NOT_AUTHORIZED"
    let exact = "tool:" ++ tool_id ++ ":" ++ operation
    require_with (elem exact context.authorized_operations)
        "DELEGATED_CONTEXT_OPERATION_NOT_AUTHORIZED" exact
    evidence ←
        validate_invocation_evidence observed.invocation_evidence (some tool_id) (some operation)
    result ← mapping observed.result "PEER_READ_RESULT_INVALID"
    require_with (is_true (get result "ok")) "PEER_READ_FAILED" (failure_detail result)
    ok (record { result = result; context = context; evidence = evidence })

  -- `_read`
  unfoldable pub read :
      Reader → History → String → String → Fields → ServiceIdentity → Result PeerRead
  unfolding checked_read
  read reader h tool_id operation arguments service = do
    answer ← reader h tool_id operation arguments service
    checked_read tool_id operation service answer

-- The identifiers of the three owners.
pub record RequestIds : Type 0 where
  pub execution_id : String
  pub effect_id : String
  pub handoff_id : Option String

unfoldable pub handoff_of : Value → Result (Option String)
unfolding matching is_handoff_id
handoff_of null = ok none
handoff_of value = do
  handoff ← matching is_handoff_id value "INVALID_CHM_HANDOFF_ID"
  ok (some handoff)

-- `_request`
unfoldable pub request_ids : Fields → String → String → Result RequestIds
unfolding matching safe_id is_execution_id is_effect_id handoff_of is_hex64
request_ids request admission_sha256 payload_manifest_sha256 = do
  require (has_keys request request_keys && is_str (get request "schema") request_schema)
      "MALFORMED_REQUEST"
  safe_id (get request "dger_request_id") "INVALID_DGER_REQUEST_ID"
  execution ← matching is_execution_id (get request "gep_execution_id") "INVALID_GEP_EXECUTION_ID"
  effect ← matching is_effect_id (get request "ahc_effect_reservation_id") "INVALID_AHC_EFFECT_ID"
  handoff ← handoff_of (get request "chm_handoff_id")
  require (is_hex64 admission_sha256) "GEP_ADMISSION_DIGEST_INVALID"
  require (is_hex64 payload_manifest_sha256) "PAYLOAD_MANIFEST_DIGEST_INVALID"
  ok (record { execution_id = execution; effect_id = effect; handoff_id = handoff })
