-- ===== src/Runtime/Calls.antt =====
-- `AuthenticatedPeerInvocation`, the invoker, `InvokerCorrelationReader`, `_context_for_call` and
-- `_invoke` of src/dger/gen4_runtime_peers.py.
use Prim.Native.String.{◌++◌}
use dropbox_governed_executi.Prelude.{String, ◌&&◌, some, List, ◌∷◌, ◌==◌, elem}
use dropbox_governed_executi.Prelude.Int.{int_eq}
use dropbox_governed_executi.Result.{Result, ok, require, ◌>>=◌, ◌>>◌}
use dropbox_governed_executi.Json.{Value, obj, str, Fields, fields}
use dropbox_governed_executi.Platform.{Python}
use dropbox_governed_executi.Contract.Types.{
  InvocationEvidence, AnyEvidence, ServiceIdentity, TrustedCorrelation,
}
use dropbox_governed_executi.Contract.Evidence.{validate_invocation_evidence}
use dropbox_governed_executi.Delegation.{
  DelegatedServiceContext, parse_delegated_service_context, require_protected_service_match,
}
use dropbox_governed_executi.Relay.History.{History}
use dropbox_governed_executi.Gep14.Reads.{Reader, mapping}

-- `result` is tested to be a mapping, `delegated_context` is one.
pub record AuthenticatedPeerInvocation : Type 0 where
  pub result : Value
  pub delegated_context : Fields
  pub invocation_evidence : AnyEvidence

-- `invoke`, from all that has happened: tool, operation, authority class, arguments, service.
abbrev pub Invoker : Type 0
Invoker =
    History
    → String
    → String
    → String
    → Fields
    → ServiceIdentity
    → Result AuthenticatedPeerInvocation

-- `InvokerCorrelationReader`
unfoldable pub invoke_read : Invoker → Reader
invoke_read invoker h tool_id operation arguments service = do
  row ← invoker h tool_id operation "READ" arguments service
  ok (
      some (record {
        result = row.result;
        delegated_context = obj row.delegated_context;
        invocation_evidence = row.invocation_evidence;
      }))

-- `_ahc_arguments`, and what a caller adds to it.
abbrev pub ahc_call_arguments : TrustedCorrelation → List (String × Value) → Fields
ahc_call_arguments c more = fields (
    ("execution_claim_id", str c.ahc_execution_claim_id)
    ∷ ("effect_id", str c.ahc_effect_reservation_id)
    ∷ ("gep_execution_id", str c.gep_execution_id)
    ∷ ("gep_request_digest", str c.gep_request_digest)
    ∷ more)

-- What `_invoke` returns.
pub record Invoked : Type 0 where
  pub result : Fields
  pub context : DelegatedServiceContext
  pub evidence : InvocationEvidence

module _ ⦃py : Python⦄ where
  unfoldable pub context_for_call :
      Fields
      → TrustedCorrelation
      → ServiceIdentity
      → String
      → String
      → String
      → Result DelegatedServiceContext
  context_for_call raw c service tool_id operation authority_class = do
    context ← parse_delegated_service_context (obj raw)
    require_protected_service_match context service
    require (elem ("tool:" ++ tool_id ++ ":" ++ operation) context.authorized_operations)
        "DELEGATED_CONTEXT_OPERATION_NOT_AUTHORIZED"
    require (elem authority_class context.authorized_capability_classes)
        "DELEGATED_CONTEXT_CAPABILITY_NOT_AUTHORIZED"
    require
        (context.tenant_id == c.origin.tenant_id
          && context.principal_id == c.origin.principal_id
          && context.deployment_id == c.origin.deployment_id
          && context.origin_actor_role == c.origin.actor_role
          && int_eq context.provisioned_fleet_epoch c.origin.fleet_epoch
          && context.origin_context_digest == c.origin.context_digest
          && context.origin_invocation_id == c.origin.originating_invocation_id)
        "PEER_ORIGIN_CONTEXT_MISMATCH"
    ok context

  -- `_invoke`
  unfoldable pub invoke :
      Invoker
      → ServiceIdentity
      → History
      → TrustedCorrelation
      → String
      → String
      → String
      → Fields
      → Result Invoked
  unfolding context_for_call
  invoke invoker service h c tool_id operation authority_class arguments = do
    require
        (c.service_principal_id == service.service_principal_id
          && c.service_deployment_id == service.service_deployment_id
          && c.service_role == service.actor_role)
        "WRONG_DGER_SERVICE_DEPLOYMENT"
    row ← invoker h tool_id operation authority_class arguments service
    result ← mapping row.result "PEER_RESULT_INVALID"
    context ← context_for_call row.delegated_context c service tool_id operation authority_class
    evidence ← validate_invocation_evidence row.invocation_evidence (some tool_id) (some operation)
    ok (record { result = result; context = context; evidence = evidence })
