-- ===== src/Examples/Runtime.antt =====
-- The runtime peers at an invoker that answers each operation.
use dropbox_governed_executi.Prelude.{
  String, Bool, ◌≡◌, refl, true, false, none, List, [], ◌∷◌, leb, length,
}
use dropbox_governed_executi.Prelude.Int.{pos}
use dropbox_governed_executi.Result.{ok, require}
use dropbox_governed_executi.Json.{
  Value, num, str, arr, bool, null, obj, Fields, fields, items, dict, find, number_eq,
}
use dropbox_governed_executi.Platform.{Bytes, Python, sha256, canonical_bytes}
use dropbox_governed_executi.Primitives.Patterns.{
  is_context_digest, is_gtg_invocation_id, is_gtg_delegation_id, is_hex40, is_hex64, is_id,
  is_id_char,
}
use dropbox_governed_executi.Primitives.Parsing.{repeated_key}
use dropbox_governed_executi.Contract.Types.{
  evidence, InvocationEvidence, TrustedCorrelation, AhcObservation, MohObservation, Ack,
}
use dropbox_governed_executi.Contract.Dicts.{moh_asdict}
use dropbox_governed_executi.Contract.Evidence.{validate_invocation_evidence, validate_ack}
use dropbox_governed_executi.Contract.Observations.{validate_moh, max_peer_observation_bytes}
use dropbox_governed_executi.Delegation.{
  parse_delegated_service_context, require_protected_service_match,
}
use dropbox_governed_executi.Runtime.Calls.{Invoker}
use dropbox_governed_executi.Runtime.Answers.{moh_observation}
use dropbox_governed_executi.Runtime.Peers.{
  runtime_moh_execute, runtime_ahc_accept_terminal, runtime_chm_publish_terminal,
}
use dropbox_governed_executi.Runtime.Accepted.{
  validate_ack-runtime_ahc_accept_terminal, validate_ack-runtime_chm_publish_terminal,
}
use dropbox_governed_executi.Runtime.Observed.{
  IsObserved, moh_observation-IsObserved, validate_moh-runtime_moh_execute,
}
use dropbox_governed_executi.Primitives.Files.{regular}
use dropbox_governed_executi.Primitives.Payload.{tree}
use dropbox_governed_executi.Runtime.Stage.{Place, Inbox, FrozenStage, runtime_stage_moh}
use dropbox_governed_executi.Runtime.Staged.{IsStaged, runtime_stage_moh-IsStaged}
use dropbox_governed_executi.Contract.Types.{StageReceipt}
use dropbox_governed_executi.Examples.Gep14.{
  digest, execution, effect, context_digest, gtg_inv, gtg_del, text_of, relay_service, evidence_of,
  established,
}

-- The record that the host wraps, as the text `{}`.
abbrev inner : Fields
inner = fields (
    ("schema", str "moh-execute/v1")
    ∷ ("execution_id", str execution)
    ∷ ("state", str "SUCCEEDED")
    ∷ ("receipt_digest", str digest)
    ∷ [])

instance abbrev invoker_python : Python
invoker_python = record {
  sha256 = λ raw. digest;
  dumps = λ value. [];
  loads = λ hook raw. hook inner;
  encode = λ text. [];
  str_of = text_of;
  int_of = λ value. ok (pos 7);
}

abbrev relay_context : Fields
relay_context = fields (
    ("schema", str "governed-delegated-service-context/v1")
    ∷ ("issuer", str "governed-tool-gateway")
    ∷ ("tenant_id", str "tenant")
    ∷ ("principal_id", str "builder")
    ∷ ("deployment_id", str "cloud")
    ∷ ("origin_actor_role", str "BUILDER")
    ∷ ("provisioned_fleet_epoch", num (pos 1))
    ∷ ("origin_context_digest", str context_digest)
    ∷ ("origin_invocation_id", str gtg_inv)
    ∷ ("service_role", str "EXECUTION_RELAY")
    ∷ ("service_id", str "dger")
    ∷ ("service_deployment_id", str "mac")
    ∷ ("delegation_invocation_id", str gtg_del)
    ∷ (
      "authorized_operations",
      arr (
          items (
            str "tool:autonomous-handoff-coordinator:accept_terminal_effect"
            ∷ str "tool:autonomous-handoff-coordinator:begin_effect"
            ∷ str "tool:autonomous-handoff-coordinator:effect_status"
            ∷ str "tool:common-handoff-manager:publish_terminal_result"
            ∷ str "tool:mac-operation-host:execute"
            ∷ [])),
    )
    ∷ ("authorized_capability_classes", arr (items (str "EFFECT" ∷ str "READ" ∷ [])))
    ∷ ("project_binding", null)
    ∷ ("context_digest", str context_digest)
    ∷ [])

-- What AHC says in every answer.
abbrev projection : String → String → List (String × Value) → Value
projection code status more = dict (
    ("ok", bool Bool.true)
    ∷ ("code", str code)
    ∷ ("effect_id", str effect)
    ∷ ("execution_claim_id", str "claim")
    ∷ ("effect_class", str "external")
    ∷ ("status", str status)
    ∷ ("workstream_id", str "work")
    ∷ ("workstream_revision", num (pos 7))
    ∷ ("provisioned_fleet_epoch", num (pos 1))
    ∷ ("origin_context_digest", str context_digest)
    ∷ ("origin_invocation_id", str gtg_inv)
    ∷ ("gep_execution_id", str execution)
    ∷ ("gep_request_digest", str digest)
    ∷ ("reconciliation_mode", str "INDEPENDENT")
    ∷ ("terminal_evidence_digest", null)
    ∷ ("replayed", bool Bool.false)
    ∷ more)

abbrev wrapper : Fields
wrapper =
    fields (("ok", bool Bool.true) ∷ ("state", str "SUCCEEDED") ∷ ("response_json", str "{}") ∷ [])

abbrev descriptor : Value
descriptor = dict (("result_ref", str "ref") ∷ ("result_sha256", str digest) ∷ [])

abbrev publication : Value
publication = dict (
    ("ok", bool Bool.true)
    ∷ ("code", str "HANDOFF_FOUND")
    ∷ ("handoff_id", str "handoff")
    ∷ ("status", str "TERMINAL_RESULT")
    ∷ (
      "namespace_binding",
      dict (
          ("tenant_id", str "tenant")
          ∷ ("principal_id", str "builder")
          ∷ ("deployment_id", str "cloud")
          ∷ []),
    )
    ∷ ("project_binding", null)
    ∷ ("target_role", str "BUILDER")
    ∷ ("review_episode_id", null)
    ∷ (
      "external_execution",
      dict (("ahc_effect_id", str effect) ∷ ("gep_execution_id", str execution) ∷ []),
    )
    ∷ (
      "terminal_result",
      dict (
          ("schema", str "chm-terminal-transport-result/v1")
          ∷ ("ahc_effect_id", str effect)
          ∷ ("gep_execution_id", str execution)
          ∷ ("result_digest", str context_digest)
          ∷ ("result", descriptor)
          ∷ ("relay_service_id", str "dger")
          ∷ ("relay_service_deployment_id", str "mac")
          ∷ ("relay_context_digest", str context_digest)
          ∷ ("relay_delegation_invocation_id", str gtg_del)
          ∷ []),
    )
    ∷ ("execution_authority", str "NOT_CHM")
    ∷ ("authorizes_moh_execution", bool Bool.false)
    ∷ ("ahc_effect_truth", str "NOT_CHM")
    ∷ ("gep_execution_admission", str "NOT_CHM")
    ∷ ("reused", bool Bool.false)
    ∷ [])

-- An invoker that answers every call with one result.
abbrev answering : Value → Invoker
answering result h tool operation authority arguments service = ok (record {
  result = result;
  delegated_context = relay_context;
  invocation_evidence = evidence (evidence_of tool operation gtg_inv);
})

abbrev begun : AhcObservation
begun = record {
  effect_reservation_id = effect;
  gep_execution_id = execution;
  state = "IN_DOUBT";
  observation_digest = digest;
  invocation_evidence =
      evidence (evidence_of "autonomous-handoff-coordinator" "begin_effect" gtg_inv);
}

abbrev seen : MohObservation
seen = record {
  gep_execution_id = execution;
  state = "SUCCEEDED";
  record_id = none;
  evidence_digest = digest;
  result = null;
  invocation_evidence = evidence (evidence_of "mac-operation-host" "execute" gtg_inv);
}

abbrev accepted_by : String → String → Ack
accepted_by tool operation = record {
  is_ok = true;
  digest = digest;
  invocation_evidence = evidence (evidence_of tool operation gtg_inv);
}

abbrev with_handoff : TrustedCorrelation
with_handoff = record established { chm_handoff_id = str "handoff" }

hex : (raw : Bytes) → is_hex64 (sha256 raw) ≡ true
unfolding is_hex64
hex raw = refl

abbrev begin_invoker : Invoker
begin_invoker = answering (projection "AHC_EFFECT_IN_DOUBT" "IN_DOUBT" [])

abbrev terminal_invoker : Invoker
terminal_invoker = answering (
    projection "AHC_TERMINAL_EFFECT_ACCEPTED" "SUCCEEDED" (
      ("terminal_digest", str digest)
      ∷ ("result_ref", str "ref")
      ∷ ("result_sha256", str digest)
      ∷ ("terminal_acceptance", str "RECONCILIATION_COMPLETE")
      ∷ ("state_revision", num (pos 2))
      ∷ []))

executed : runtime_moh_execute (answering (obj wrapper)) relay_service [] established ≡ ok seen
unfolding runtime_moh_execute parse_delegated_service_context is_context_digest is_gtg_invocation_id
    is_gtg_delegation_id require_protected_service_match validate_invocation_evidence is_hex40 find
    repeated_key is_hex64 is_id is_id_char number_eq
executed = refl

observed :
    moh_observation established wrapper (evidence_of "mac-operation-host" "execute" gtg_inv)
    ≡ ok seen
unfolding moh_observation find repeated_key is_hex64
observed = refl

accepted :
    runtime_ahc_accept_terminal terminal_invoker relay_service [] established digest "ref" digest
    ≡ ok (accepted_by "autonomous-handoff-coordinator" "accept_terminal_effect")
unfolding runtime_ahc_accept_terminal parse_delegated_service_context is_context_digest
    is_gtg_invocation_id is_gtg_delegation_id require_protected_service_match
    validate_invocation_evidence is_hex40 find repeated_key is_hex64 is_id is_id_char number_eq
accepted = refl

handed_on :
    runtime_chm_publish_terminal (answering publication) relay_service [] with_handoff "ref" digest
    ≡ ok (accepted_by "common-handoff-manager" "publish_terminal_result")
unfolding runtime_chm_publish_terminal parse_delegated_service_context is_context_digest
    is_gtg_invocation_id is_gtg_delegation_id require_protected_service_match
    validate_invocation_evidence is_hex40 find repeated_key is_hex64 is_id is_id_char number_eq
handed_on = refl

moh_observation-IsObserved_example :
    IsObserved established wrapper (evidence_of "mac-operation-host" "execute" gtg_inv) seen
moh_observation-IsObserved_example =
    moh_observation-IsObserved established wrapper
      (evidence_of "mac-operation-host" "execute" gtg_inv) observed

validate_moh-runtime_moh_execute_example :
    validate_moh seen established "execute"
    ≡ require
        (leb (length (canonical_bytes (moh_asdict seen))) max_peer_observation_bytes)
        "MOH_OBSERVATION_TOO_LARGE"
validate_moh-runtime_moh_execute_example =
    validate_moh-runtime_moh_execute hex (answering (obj wrapper)) relay_service [] established
      executed

validate_ack-runtime_ahc_accept_terminal_example :
    (e : InvocationEvidence) × (validate_ack
        (accepted_by "autonomous-handoff-coordinator" "accept_terminal_effect")
        "autonomous-handoff-coordinator"
        "accept_terminal_effect"
      ≡ ok e)
validate_ack-runtime_ahc_accept_terminal_example =
    validate_ack-runtime_ahc_accept_terminal hex terminal_invoker relay_service [] established
      digest "ref" digest accepted

validate_ack-runtime_chm_publish_terminal_example :
    (e : InvocationEvidence) × (validate_ack
        (accepted_by "common-handoff-manager" "publish_terminal_result")
        "common-handoff-manager"
        "publish_terminal_result"
      ≡ ok e)
validate_ack-runtime_chm_publish_terminal_example =
    validate_ack-runtime_chm_publish_terminal hex (answering publication) relay_service []
      with_handoff "ref" digest handed_on

-- An inbox with a left-over directory, and nothing under the name of the execution.
abbrev inbox : Inbox
inbox = record {
  is_symlink = false;
  no_dir = false;
  swapped = false;
  orphans = true ∷ [];
  final = Place.nothing;
  placed = Place.nothing;
}

abbrev frozen : FrozenStage
frozen = record { admission = regular 0o600 1 (3 ∷ []); payload = tree [] }

abbrev receipt : StageReceipt
receipt = record {
  gep_execution_id = execution;
  admission_sha256 = digest;
  payload_manifest_sha256 = digest;
  stage_digest = digest;
  stage_kind = "LOCAL_MATERIALIZATION";
}

abbrev in_place : Place
in_place = Place.stage (regular 0o600 1 (3 ∷ [])) (tree [])

put_in_place : runtime_stage_moh inbox established frozen digest ≡ ok (receipt, in_place)
unfolding runtime_stage_moh
put_in_place = refl

runtime_stage_moh-IsStaged_example : IsStaged established digest receipt in_place
runtime_stage_moh-IsStaged_example =
    runtime_stage_moh-IsStaged inbox established frozen digest put_in_place

-- The same inbox later.
abbrev staged_inbox : Inbox
staged_inbox = record inbox { orphans = []; final = in_place }

left_in_place : runtime_stage_moh staged_inbox established frozen digest ≡ ok (receipt, in_place)
unfolding runtime_stage_moh
left_in_place = refl
