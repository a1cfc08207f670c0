-- ===== src/Examples/Gep14.antt =====
-- The correlation port at a reader that knows one execution.
use dropbox_governed_executi.Prelude.{String, ◌≡◌, refl, none, some, [], ◌∷◌, ◌==◌, if◌then◌else◌}
use dropbox_governed_executi.Prelude.{Bool}
use dropbox_governed_executi.Prelude.Int.{pos}
use dropbox_governed_executi.Result.{ok, err, other}
use dropbox_governed_executi.Json.{
  Value, num, str, arr, bool, null, obj, find, Fields, fields, items, dict,
}
use dropbox_governed_executi.Platform.{Python}
use dropbox_governed_executi.Contract.Types.{
  evidence, InvocationEvidence, ServiceIdentity, TrustedCorrelation,
}
use dropbox_governed_executi.Primitives.Patterns.{
  is_context_digest, is_gtg_invocation_id, is_gtg_delegation_id, is_hex40,
}
use dropbox_governed_executi.Delegation.Printed.{
  parse_delegated_service_context-delegated_service_context_to_dict,
}
use dropbox_governed_executi.Delegation.{
  DelegatedServiceContext, delegated_service_context_to_dict, parse_delegated_service_context,
  require_protected_service_match,
}
use dropbox_governed_executi.Contract.Evidence.{validate_invocation_evidence}
use dropbox_governed_executi.Contract.Correlation.{
  validate_correlation, validate_trusted_ids, validate_trusted_service, validate_trusted_request,
  validate_trusted_evidence, evidence_list, required_pairs, expected_correlation_digest,
}
use dropbox_governed_executi.Gep14.Reads.{Reader, AuthenticatedPeerRead}
use dropbox_governed_executi.Gep14.Peers.{establish_correlation}
use dropbox_governed_executi.Gep14.Bound.{
  IsConfirmed, establish_correlation-IsConfirmed, establish_correlation-IsBound,
}
use dropbox_governed_executi.Contract.Binding.{IsBound}

abbrev pub digest : String
digest = "aaaaaaaaaaaaaaaaaaaaaaaaaaaaaaaaaaaaaaaaaaaaaaaaaaaaaaaaaaaaaaaa"

abbrev commit : String
commit = "bbbbbbbbbbbbbbbbbbbbbbbbbbbbbbbbbbbbbbbb"

abbrev pub execution : String
execution = "execution_aaaaaaaaaaaaaaaaaaaaaaaaaaaaaaaaaaaaaaaaaaaaaaaaaaaaaaaaaaaaaaaa"

abbrev pub effect : String
effect = "effect-bbbbbbbbbbbbbbbbbbbbbbbbbbbbbbbbbbbbbbbb"

abbrev pub context_digest : String
context_digest = "sha256:aaaaaaaaaaaaaaaaaaaaaaaaaaaaaaaaaaaaaaaaaaaaaaaaaaaaaaaaaaaaaaaa"

abbrev pub gtg_inv : String
gtg_inv = "gtg_inv_aaaaaaaaaaaaaaaaaaaaaaaaaaaaaaaaaaaaaaaaaaaaaaaaaaaaaaaaaaaaaaaa"

abbrev gtg_inv_two : String
gtg_inv_two = "gtg_inv_bbbbbbbbbbbbbbbbbbbbbbbbbbbbbbbbbbbbbbbbbbbbbbbbbbbbbbbbbbbbbbbb"

abbrev pub gtg_del : String
gtg_del = "gtg_del_aaaaaaaaaaaaaaaaaaaaaaaaaaaaaaaaaaaaaaaaaaaaaaaaaaaaaaaaaaaaaaaa"

-- A Python whose digests are all one text, and whose integers all print as 7.
abbrev pub text_of : Value → String
text_of (str s) = s
text_of (num z) = "7"
text_of _ = ""

instance abbrev port_python : Python
port_python = record {
  sha256 = λ raw. digest;
  dumps = λ value. [];
  loads = λ hook raw. err (other "JSONDecodeError" "");
  encode = λ text. [];
  str_of = text_of;
  int_of = λ value. ok (pos 7);
}

abbrev pub relay_service : ServiceIdentity
relay_service = record {
  service_principal_id = "dger";
  service_deployment_id = "mac";
  actor_role = "EXECUTION_RELAY";
  identity_digest = digest;
}

abbrev context_value : Value
context_value = dict (
    ("schema", str "governed-delegated-service-context/v1")
    ∷ ("issuer", str "governed-tool-gateway")
    ∷ ("tenant_id", str "tenant")
    ∷ ("principal_id", str "builder")
    ∷ ("deployment_id", str "cloud")
    ∷ ("origin_actor_role", str "BUILDER")
    ∷ ("provisioned_fleet_epoch", num (pos 1))
    ∷ ("origin_context_digest", str context_digest)
    ∷ ("origin_invocation_id", str gtg_inv)
    ∷ ("service_role", str "EXECUTION_RELAY")
    ∷ ("service_id", str "dger")
    ∷ ("service_deployment_id", str "mac")
    ∷ ("delegation_invocation_id", str gtg_del)
    ∷ (
      "authorized_operations",
      arr (
          items (
            str "tool:autonomous-handoff-coordinator:effect_read"
            ∷ str "tool:governed-execution-platform:correlation_read"
            ∷ [])),
    )
    ∷ ("authorized_capability_classes", arr (items (str "READ" ∷ [])))
    ∷ ("project_binding", null)
    ∷ ("context_digest", str context_digest)
    ∷ [])

abbrev pub evidence_of : String → String → String → InvocationEvidence
evidence_of tool operation invocation = record {
  tool_id = tool;
  operation = operation;
  invocation_id = invocation;
  tool_identity = commit;
  tool_tree = commit;
  gtg_identity = commit;
  registry_identity = commit;
}

abbrev gep_read : AuthenticatedPeerRead
gep_read = record {
  result = dict (
      ("ok", bool Bool.true)
      ∷ ("code", str "GEP_TRUSTED_CORRELATION_READ")
      ∷ ("launch_capability", bool Bool.false)
      ∷ (
        "origin",
        dict (
            ("tenant_id", str "tenant")
            ∷ ("principal_id", str "builder")
            ∷ ("deployment_id", str "cloud")
            ∷ ("fleet_epoch", num (pos 1))
            ∷ ("originating_invocation_id", str gtg_inv)
            ∷ ("context_digest", str digest)
            ∷ []),
      )
      ∷ ("service_deployment_id", str "mac")
      ∷ ("ahc_execution_claim_id", str "claim")
      ∷ ("ahc_effect_reservation_id", str effect)
      ∷ ("ahc_work_revision", str "7")
      ∷ ("gep_execution_id", str execution)
      ∷ ("gep_request_digest", str digest)
      ∷ ("gep_admission_sha256", str digest)
      ∷ ("origin_envelope_sha256", str digest)
      ∷ ("trusted_binding_digest", str digest)
      ∷ ("result_binding", null)
      ∷ []);
  delegated_context = context_value;
  invocation_evidence =
      evidence (evidence_of "governed-execution-platform" "correlation_read" gtg_inv);
}

abbrev ahc_read : AuthenticatedPeerRead
ahc_read = record {
  result = dict (
      ("ok", bool Bool.true)
      ∷ ("code", str "AHC_EFFECT_READ")
      ∷ ("effect_id", str effect)
      ∷ ("execution_claim_id", str "claim")
      ∷ ("effect_class", str "external")
      ∷ ("status", str "RESERVED")
      ∷ ("workstream_id", str "work")
      ∷ ("workstream_revision", num (pos 7))
      ∷ ("provisioned_fleet_epoch", num (pos 1))
      ∷ ("origin_context_digest", str context_digest)
      ∷ ("origin_invocation_id", str gtg_inv)
      ∷ ("gep_execution_id", str execution)
      ∷ ("gep_request_digest", str digest)
      ∷ ("reconciliation_mode", str "INDEPENDENT")
      ∷ ("terminal_evidence_digest", null)
      ∷ ("replayed", bool Bool.false)
      ∷ []);
  delegated_context = context_value;
  invocation_evidence =
      evidence (evidence_of "autonomous-handoff-coordinator" "effect_read" gtg_inv_two);
}

-- It answers the reads of GEP and AHC.
abbrev sample_reader : Reader
sample_reader h tool operation arguments service =
    if tool == "governed-execution-platform"
    then ok (some gep_read)
    else (if tool == "autonomous-handoff-coordinator" then ok (some ahc_read) else ok none)

abbrev port_request : Fields
port_request = fields (
    ("schema", str "dger-execution-relay-request/v2")
    ∷ ("dger_request_id", str "r1")
    ∷ ("gep_execution_id", str execution)
    ∷ ("ahc_effect_reservation_id", str effect)
    ∷ ("chm_handoff_id", null)
    ∷ [])

abbrev pub established : TrustedCorrelation
established = record {
  origin = record {
    tenant_id = "tenant";
    principal_id = "builder";
    deployment_id = "cloud";
    actor_role = "BUILDER";
    fleet_epoch = pos 1;
    originating_invocation_id = gtg_inv;
    context_digest = context_digest;
  };
  service_principal_id = "dger";
  service_deployment_id = "mac";
  service_role = "EXECUTION_RELAY";
  delegation_invocation_id = gtg_del;
  delegated_context_digest = context_digest;
  ahc_execution_claim_id = "claim";
  ahc_effect_reservation_id = effect;
  ahc_work_revision = "7";
  gep_execution_id = execution;
  gep_request_digest = digest;
  gep_admission_sha256 = digest;
  chm_handoff_id = null;
  correlation_digest = digest;
  provider_evidence =
      evidence_of "governed-execution-platform" "correlation_read" gtg_inv
      ∷ evidence_of "autonomous-handoff-coordinator" "effect_read" gtg_inv_two
      ∷ [];
}

establish_correlation-eq-established :
    establish_correlation sample_reader [] port_request digest digest relay_service ≡ ok established
unfolding establish_correlation parse_delegated_service_context is_context_digest
    is_gtg_invocation_id is_gtg_delegation_id require_protected_service_match
    validate_invocation_evidence is_hex40 validate_correlation validate_trusted_ids
    validate_trusted_service validate_trusted_request validate_trusted_evidence evidence_list
    required_pairs expected_correlation_digest
establish_correlation-eq-established = refl

establish_correlation-IsConfirmed_example :
    IsConfirmed sample_reader [] port_request digest digest relay_service established
establish_correlation-IsConfirmed_example =
    establish_correlation-IsConfirmed sample_reader [] port_request digest digest relay_service
      established establish_correlation-eq-established

establish_correlation-IsBound_example : IsBound established digest digest relay_service
establish_correlation-IsBound_example =
    establish_correlation-IsBound sample_reader [] port_request digest digest relay_service
      established establish_correlation-eq-established

abbrev parsed_context : DelegatedServiceContext
parsed_context = record {
  schema = "governed-delegated-service-context/v1";
  issuer = "governed-tool-gateway";
  tenant_id = "tenant";
  principal_id = "builder";
  deployment_id = "cloud";
  origin_actor_role = "BUILDER";
  provisioned_fleet_epoch = pos 1;
  origin_context_digest = context_digest;
  origin_invocation_id = gtg_inv;
  service_role = "EXECUTION_RELAY";
  service_id = "dger";
  service_deployment_id = "mac";
  delegation_invocation_id = gtg_del;
  authorized_operations =
      "tool:autonomous-handoff-coordinator:effect_read"
      ∷ "tool:governed-execution-platform:correlation_read" ∷ [];
  authorized_capability_classes = "READ" ∷ [];
  project_binding = none;
  context_digest = context_digest;
}

parse_delegated_service_context-eq-parsed :
    parse_delegated_service_context context_value ≡ ok parsed_context
unfolding parse_delegated_service_context is_context_digest is_gtg_invocation_id
    is_gtg_delegation_id find
parse_delegated_service_context-eq-parsed = refl

parse_delegated_service_context-delegated_service_context_to_dict_example :
    parse_delegated_service_context (obj (delegated_service_context_to_dict parsed_context))
    ≡ ok parsed_context
parse_delegated_service_context-delegated_service_context_to_dict_example =
    parse_delegated_service_context-delegated_service_context_to_dict context_value parsed_context
      parse_delegated_service_context-eq-parsed
