-- ===== src/Examples.antt =====
-- The theorems at concrete inputs: a Python whose digests are all one text, a correlation that
-- passes its checks, and the dictionary of a request.
use dropbox_governed_executi.Prelude.{
  String, ◌≡◌, ◌↔◌, refl, Bool, true, false, Option, none, some, List, [], ◌∷◌, arith,
}
use dropbox_governed_executi.Prelude.Int.{ℤ, pos}
use dropbox_governed_executi.Result.{Result, ok, err, other, raise}
use dropbox_governed_executi.Json.{Value, num, str, null, Fields, fields, find, py_eq}
use dropbox_governed_executi.Platform.{Python}
use dropbox_governed_executi.Primitives.Patterns.{
  is_hex40, is_hex64, is_gtg_invocation_id, is_gtg_delegation_id, is_context_digest, safe_id,
}
use dropbox_governed_executi.Primitives.Parsing.{hook}
use dropbox_governed_executi.Primitives.Files.{Entry, absent, regular, directory, read_regular}
use dropbox_governed_executi.Primitives.Payload.{
  PayloadEntry, safe_rel, payload_manifest, posix_path, is_unsafe_part, manifest_digest, is_empty,
}
use dropbox_governed_executi.Primitives.Bounds.{Fits, payload_manifest_bounds}
use dropbox_governed_executi.Primitives.Resolve.{IsSafePath, safe_rel-IsSafePath}
use dropbox_governed_executi.Contract.Types.{
  MohObservation, value, InvocationEvidence, ServiceIdentity, TrustedCorrelation,
}
use dropbox_governed_executi.Contract.Observations.{validate_moh}
use dropbox_governed_executi.Contract.Binding.{IsBound, validate_correlation-IsBound}
use dropbox_governed_executi.Contract.Correlation.{
  validate_correlation, validate_trusted_ids, validate_trusted_service, validate_trusted_request,
  validate_trusted_evidence, evidence_list, required_pairs, expected_correlation_digest,
  correlation_to_dict,
}
use dropbox_governed_executi.Delegation.{
  DelegatedServiceContext, delegated_schema, delegated_issuer, is_operation, is_canonical,
  require_protected_service_match,
}
use dropbox_governed_executi.Guard.{assert_legacy_allowed, assert_legacy_allowed_iff}
use dropbox_governed_executi.Relay.State.{State, ahc_in_doubt, moh_in_doubt, done}
use dropbox_governed_executi.Relay.History.{
  moh_replied, moh_execute, saved, indexed, last_saved, last_indexed,
}
use dropbox_governed_executi.Relay.Exec.{emit, ◌>>=◌, get_state, Peers, Relay, Mem}
use dropbox_governed_executi.Relay.Current.{current_correlation}
use dropbox_governed_executi.Relay.Effect.Moh.{execute_moh, execute_answer, handle_moh}
use dropbox_governed_executi.Relay.Effect.Publish.{same_bytes}
use dropbox_governed_executi.Relay.Ingress.{index_gep, index_record}
use dropbox_governed_executi.Relay.Driver.{advance, advance_rounds, is_resting, reload, loaded}
use dropbox_governed_executi.Relay.Wal.{execute_answer-invalid}
use dropbox_governed_executi.Relay.Outcome.{Outcome}
use dropbox_governed_executi.Relay.Driver.{advance}
use dropbox_governed_executi.Relay.Index.{index_gep_agrees}
use dropbox_governed_executi.Relay.Unchanged.{index_gep-created_empty}
mod Gen3
mod Gep14
mod God
mod Runs
mod Runtime
mod Stored

-- 64 and 40 hexadecimal digits.
abbrev digest : String
digest = "aaaaaaaaaaaaaaaaaaaaaaaaaaaaaaaaaaaaaaaaaaaaaaaaaaaaaaaaaaaaaaaa"

abbrev commit : String
commit = "bbbbbbbbbbbbbbbbbbbbbbbbbbbbbbbbbbbbbbbb"

abbrev text_of : Value → String
text_of (str s) = s
text_of _ = ""

abbrev int_value : Value → Result ℤ
int_value (num z) = ok z
int_value _ = err (other "ValueError" "")

instance abbrev sample_python : Python
sample_python = record {
  sha256 = λ raw. digest;
  dumps = λ value. [];
  loads = λ hook raw. err (other "JSONDecodeError" "");
  encode = λ text. [];
  str_of = text_of;
  int_of = int_value;
}

abbrev service : ServiceIdentity
service = record {
  service_principal_id = "dger";
  service_deployment_id = "mac";
  actor_role = "EXECUTION_RELAY";
  identity_digest = digest;
}

abbrev gep_evidence : InvocationEvidence
gep_evidence = record {
  tool_id = "governed-execution-platform";
  operation = "correlation_read";
  invocation_id = "gtg_inv_aaaaaaaaaaaaaaaaaaaaaaaaaaaaaaaaaaaaaaaaaaaaaaaaaaaaaaaaaaaaaaaa";
  tool_identity = commit;
  tool_tree = commit;
  gtg_identity = commit;
  registry_identity = commit;
}

abbrev ahc_evidence : InvocationEvidence
ahc_evidence = record gep_evidence {
  tool_id = "autonomous-handoff-coordinator";
  operation = "effect_read";
  invocation_id = "gtg_inv_bbbbbbbbbbbbbbbbbbbbbbbbbbbbbbbbbbbbbbbbbbbbbbbbbbbbbbbbbbbbbbbb";
}

abbrev sample_correlation : TrustedCorrelation
sample_correlation = record {
  origin = record {
    tenant_id = "tenant";
    principal_id = "builder";
    deployment_id = "cloud";
    actor_role = "BUILDER";
    fleet_epoch = pos 1;
    originating_invocation_id =
        "gtg_inv_aaaaaaaaaaaaaaaaaaaaaaaaaaaaaaaaaaaaaaaaaaaaaaaaaaaaaaaaaaaaaaaa";
    context_digest = "sha256:aaaaaaaaaaaaaaaaaaaaaaaaaaaaaaaaaaaaaaaaaaaaaaaaaaaaaaaaaaaaaaaa";
  };
  service_principal_id = "dger";
  service_deployment_id = "mac";
  service_role = "EXECUTION_RELAY";
  delegation_invocation_id =
      "gtg_del_aaaaaaaaaaaaaaaaaaaaaaaaaaaaaaaaaaaaaaaaaaaaaaaaaaaaaaaaaaaaaaaa";
  delegated_context_digest =
      "sha256:aaaaaaaaaaaaaaaaaaaaaaaaaaaaaaaaaaaaaaaaaaaaaaaaaaaaaaaaaaaaaaaa";
  ahc_execution_claim_id = "claim";
  ahc_effect_reservation_id = "effect";
  ahc_work_revision = "7";
  gep_execution_id = "execution";
  gep_request_digest = digest;
  gep_admission_sha256 = digest;
  chm_handoff_id = null;
  correlation_digest = digest;
  provider_evidence = gep_evidence ∷ ahc_evidence ∷ [];
}

abbrev sample_request : Fields
sample_request = fields (
    ("schema", str "dger-execution-relay-request/v2")
    ∷ ("dger_request_id", str "r1")
    ∷ ("gep_execution_id", str "execution")
    ∷ ("ahc_effect_reservation_id", str "effect")
    ∷ ("chm_handoff_id", null)
    ∷ [])

-- From the directory `c`.
safe_rel-IsSafePath_example : IsSafePath "a/b" (posix_path "a/b") ((99 ∷ []) ∷ [])
unfolding safe_rel posix_path is_unsafe_part is_empty
safe_rel-IsSafePath_example = safe_rel-IsSafePath "a/b" (posix_path "a/b") ((99 ∷ []) ∷ []) refl

abbrev sample_listing : List (String × Entry)
sample_listing = ("a", directory) ∷ ("a/b", regular 0o600 2 (104 ∷ 105 ∷ [])) ∷ []

abbrev sample_entries : List PayloadEntry
sample_entries = record { path = "a/b"; size = 2; digest = digest } ∷ []

payload_manifest_bounds_example :
    Fits 0 0 sample_entries 2
    × (manifest_digest sample_entries 2 ≡ manifest_digest sample_entries 2)
unfolding payload_manifest safe_rel posix_path is_unsafe_part is_empty
payload_manifest_bounds_example =
    payload_manifest_bounds sample_listing {entries = sample_entries} {total = 2} refl

validate_correlation-IsBound_example : IsBound sample_correlation digest digest service
unfolding validate_correlation validate_trusted_ids validate_trusted_service
    validate_trusted_request validate_trusted_evidence evidence_list required_pairs
    expected_correlation_digest safe_id find is_gtg_invocation_id is_gtg_delegation_id
    is_context_digest is_hex64 py_eq is_hex40
validate_correlation-IsBound_example =
    validate_correlation-IsBound sample_correlation sample_request digest digest service refl

abbrev correlation_dict : Result Fields → Option Fields
correlation_dict (ok fs) = some fs
correlation_dict (err e) = none

-- The dictionary of a correlated request, with the latch and the proof as given.
abbrev state_with : Bool → Option Bool → State
state_with latch required = record {
  phase = ahc_in_doubt;
  dger_request_id = "r1";
  request = sample_request;
  transport_intent_digest = digest;
  request_sha256 = digest;
  admission_sha256 = digest;
  payload_manifest_sha256 = digest;
  ready_sha256 = digest;
  frozen_stage = "frozen/r1";
  service_identity_digest = digest;
  execute_reconciliation_required = true;
  moh_execute_call_may_have_happened = latch;
  moh_execute_calls = 1;
  moh_status_calls = 1;
  moh_in_doubt_ever = latch;
  ahc_terminal_calls = 0;
  chm_publish_calls = 0;
  error_generation = 0;
  last_error = none;
  trusted_correlation = correlation_dict (correlation_to_dict sample_correlation);
  moh_stage_receipt = none;
  ahc_begin_response_ambiguous = false;
  ahc_begin_observation = none;
  last_ahc_status = none;
  pre_execute_status_required = required;
  last_moh_observation = none;
  last_moh_observed_via = none;
  moh_in_doubt_source = none;
  moh_in_doubt_observation = none;
  moh_terminal_observation = none;
  moh_terminal_digest = none;
  last_safe_moh_status = none;
  moh_execute_response_invalid = false;
  ahc_in_doubt_report_digest = none;
  ahc_in_doubt_report_ack = none;
  result_ref = none;
  result_sha256 = none;
  ahc_terminal_ack = none;
  chm_terminal_ack = none;
  times = record {
    accepted_at_utc = "t";
    correlated_at_utc = none;
    moh_stage_at_utc = none;
    pre_ahc_execute_wal_at_utc = none;
    ahc_in_doubt_at_utc = none;
    last_safe_moh_status_at_utc = none;
    moh_execute_call_wal_at_utc = none;
    moh_terminal_at_utc = none;
  };
}

-- Peers that never answer.
abbrev silent : Peers
silent = record {
  establish_correlation = λ h r a p s. err (other "TimeoutError" "");
  stage_moh = λ h c f p. err (other "TimeoutError" "");
  ahc_begin = λ h c. err (other "TimeoutError" "");
  ahc_status = λ h c. err (other "TimeoutError" "");
  moh_execute = λ h c. err (other "TimeoutError" "");
  moh_status = λ h c. err (other "TimeoutError" "");
  ahc_note_in_doubt = λ h c d. err (other "TimeoutError" "");
  ahc_accept_terminal = λ h c d r s. err (other "TimeoutError" "");
  chm_publish_terminal = λ h c r s. err (other "TimeoutError" "");
}

abbrev sample_relay : Relay
sample_relay = record {
  service = service;
  peers = silent;
  utc = λ h. "t";
  frozen_dir = λ rid. rid;
  result_dir_unsafe = λ h rid. false;
  result_at = λ h rid. absent;
}

abbrev memory : State → Mem
memory s = record { state = s; history = [] }

abbrev finished : State
finished = record (state_with false none) { phase = done }

abbrev at_rest : Mem
at_rest = record { state = state_with false none; history = saved "r1" finished ∷ [] }

-- A marker that holds no JSON.
assert_legacy_allowed_iff_example :
    (assert_legacy_allowed true (regular 0o600 1 (7 ∷ [])) ≡ ok tt) ↔ (true ≡ false)
assert_legacy_allowed_iff_example = assert_legacy_allowed_iff true (regular 0o600 1 (7 ∷ []))

index_gep-created_empty_example :
    index_gep sample_correlation (record { state = finished; history = indexed digest [] ∷ [] }) ≡ (
      raise "GEP_EXECUTION_INTENT_CONFLICT",
      record { state = finished; history = indexed digest [] ∷ [] },
    )
unfolding last_indexed
index_gep-created_empty_example =
    index_gep-created_empty (record { state = finished; history = indexed digest [] ∷ [] })
      sample_correlation refl

-- The dictionary has gone on between the two calls.
abbrev indexed_memory : State → Mem
indexed_memory s = record {
  state = s;
  history = indexed digest (index_record sample_correlation finished) ∷ indexed digest [] ∷ [];
}

abbrev doubted_later : State
doubted_later = record finished { phase = moh_in_doubt }

index_gep_agrees_example :
    index_record sample_correlation finished ≡ index_record sample_correlation doubted_later
unfolding index_gep index_record same_bytes last_indexed ◌>>=◌ read_regular emit
index_gep_agrees_example =
    index_gep_agrees sample_correlation sample_correlation (memory finished)
      (indexed_memory finished) (indexed_memory doubted_later) (indexed_memory doubted_later) refl
      refl refl refl

-- An observation of the peer, with evidence that nothing attests.
abbrev not_found : MohObservation
not_found = record {
  gep_execution_id = "execution";
  state = "NOT_FOUND";
  record_id = none;
  evidence_digest = digest;
  invocation_evidence = value null;
  result = null;
}

-- A request with its proof, which may be executed.
abbrev proven_memory : Mem
proven_memory =
    memory (record (state_with false (some false)) { last_safe_moh_status = some not_found })

execute_answer-invalid_example :
    let z = (execute_answer sample_relay (ok not_found) proven_memory).1 in
    (z.state.moh_in_doubt_ever ≡ true) × (last_saved "r1" z.history ≡ some z.state)
unfolding handle_moh ◌>>=◌ get_state validate_moh current_correlation correlation_to_dict
    evidence_list safe_id find validate_trusted_ids validate_trusted_service
    validate_trusted_request validate_trusted_evidence required_pairs expected_correlation_digest
    is_gtg_invocation_id is_gtg_delegation_id is_context_digest is_hex64 py_eq is_hex40
execute_answer-invalid_example =
    execute_answer-invalid sample_relay proven_memory proven_memory not_found
      "GTG_INVOCATION_EVIDENCE_REQUIRED" "" refl

operation_accepted : is_operation "tool:mac-operation-host:execute" ≡ true
unfolding is_operation
operation_accepted = refl

repeated_rejected : is_canonical ("READ" ∷ "READ" ∷ []) ≡ false
unfolding is_canonical
repeated_rejected = refl
