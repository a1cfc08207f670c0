-- ===== src/Examples/Runs.antt =====
-- One run from an arrived package to the published result: the first call of `execute` is lost, MOH
-- says that it does not know the execution, and the second one succeeds.
use dropbox_governed_executi.Prelude.{
  ℕ, zero, suc, ◌+◌, String, ◌≡◌, ◌≢◌, refl, ap, subst, eq_iff, &&-true, ◌&&◌, nat_eq, arith,
  Bool-cases, inl, inr, Bool, true, false, none, some, [], ◌∷◌, ◌++◌, ◌==◌, if◌then◌else◌, is_alnum,
  is_hex, after, is_digit, is_lower, is_upper,
}
use dropbox_governed_executi.Prelude.Int.{pos}
use dropbox_governed_executi.Result.{Result, ok, err, other}
use dropbox_governed_executi.Json.{Value, num, str, null, Fields, fields, find, number_eq, py_eq}
use dropbox_governed_executi.Platform.{
  Bytes, Python, canonical_bytes, canonical_file_bytes, canonical_digest,
}
use dropbox_governed_executi.Contract.Types.{evidence, InvocationEvidence, MohObservation, Ack}
use dropbox_governed_executi.Primitives.Files.{absent, regular, read_regular}
use dropbox_governed_executi.Primitives.Payload.{
  tree, posix_path, is_unsafe_part, is_empty, safe_rel, sort_paths, read_payload, payload_entry,
  manifest_loop, manifest_digest, payload_manifest, entry_at, copy_loop, copy_payload_verified,
}
use dropbox_governed_executi.Relay.State.{State, first_chars, exc_text, error_code, record_error}
use dropbox_governed_executi.Relay.History.{
  Call, status_written, Event, History, called, published, last_saved, last_frozen, last_indexed,
}
use dropbox_governed_executi.Relay.Exec.{
  Peers, Relay, ◌>>=◌, get_state, modify, emit, save, publish_status, status, now, fault_point, ask,
  in_memory,
}
use dropbox_governed_executi.Relay.Ingress.{
  Package, read_intake, read_frozen, freeze_digest, transport_intent, same_frozen, record_event,
  freeze_onto, freeze, accepted_state, record_accepted, accept_onto, intake_of, accept_frozen,
  index_record, index_onto, index_gep, correlate_answer, correlate,
}
use dropbox_governed_executi.Relay.Safety.Trace.{latched, is_execute, IsWal}
use dropbox_governed_executi.Contract.Observations.{moh_safe, moh_terminal as terminal_states}
use dropbox_governed_executi.Relay.Safety.Reach.{Reach, start, ran, process, run}
use dropbox_governed_executi.Relay.Promises.{
  HasMohAnswer, HasAhcAnswer, no_blind_repeat, execute_justified, latched_never_executes,
  published_after_terminal, tells_end, told_after_terminal, latch_permanent,
}
use dropbox_governed_executi.Primitives.Patterns.{
  is_id_char, is_id, is_hex64, is_hex40, is_gtg_invocation_id, is_gtg_delegation_id,
  is_context_digest, is_execution_id, is_effect_id, is_handoff_id, matching, safe_id,
}
use dropbox_governed_executi.Primitives.Parsing.{
  repeated_key, hook, object_of, json_object_no_duplicates,
}
use dropbox_governed_executi.Primitives.Package.{
  validate_request, make_ready_record, validate_ready,
}
use dropbox_governed_executi.Contract.Dicts.{evidence_asdict, any_asdict, origin_asdict, moh_asdict}
use dropbox_governed_executi.Contract.Evidence.{
  invocation_evidence_from_any, validate_invocation_evidence, validate_ack,
}
use dropbox_governed_executi.Contract.Observations.{validate_ahc, validate_moh}
use dropbox_governed_executi.Contract.Correlation.{
  required_pairs, evidence_list, correlation_to_dict, correlation_from_dict,
  expected_correlation_digest, validate_trusted_ids, validate_trusted_service,
  validate_trusted_request, validate_trusted_evidence, validate_correlation,
}
use dropbox_governed_executi.Relay.Current.{current_correlation}
use dropbox_governed_executi.Relay.Effect.Ahc.{
  blocked, receipt_matches, stage_answer, stage, write_pre_ahc_wal, begin_answer, begin_ahc,
  reconciled_ahc, reconcile_ahc_answer, reconcile_ahc_begin,
}
use dropbox_governed_executi.Relay.Effect.Moh.{
  in_doubt_observed, terminal_observed, nonterminal_observed, safe_observed, handle_observed,
  handle_moh, count_status_call, status_before_answer, status_before_execute,
  latch_invalid_response, recover_execute, execute_answer, execute_call_wal, proven_execute,
  execute_moh, reconciled_safe, reconcile_moh_answer, reconcile_moh, report_answer, observed_via,
  report_moh_in_doubt,
}
use dropbox_governed_executi.Relay.Effect.Publish.{
  same_bytes, result_record, compare_result, place_result, terminal_of, publish_terminal,
  stored_key, phase_after_ahc, accept_answer, accept_call, terminal_arguments, accept_ahc_terminal,
  chm_acknowledged, chm_answer, chm_call, result_arguments, publish_chm,
}
use dropbox_governed_executi.Relay.Driver.{
  phase_text, is_resting, loaded, reload, is_blocked, transition, advance_rounds, advance,
  record_rejection, reject, recover, intake_and_advance, process_one,
}
use dropbox_governed_executi.Examples.{
  digest, text_of, int_value, service, gep_evidence, sample_correlation, sample_request,
}

abbrev ready_fields : Fields
ready_fields = fields (
    ("schema", str "dger-execution-relay-ready/v2")
    ∷ ("dger_request_id", str "r1")
    ∷ ("request_sha256", str digest)
    ∷ ("request_size", num (pos 1))
    ∷ ("admission_sha256", str digest)
    ∷ ("admission_size", num (pos 1))
    ∷ ("payload_manifest_sha256", str digest)
    ∷ ("payload_total_bytes", num (pos 0))
    ∷ ("payload_file_count", num (pos 0))
    ∷ [])

-- The byte 1 stands for the request's text, 2 for READY's.
abbrev small_loads : (Fields → Result Value) → Bytes → Result Value
small_loads hook (suc zero ∷ []) = hook sample_request
small_loads hook (suc (suc zero) ∷ []) = hook ready_fields
small_loads hook raw = err (other "JSONDecodeError" "")

instance abbrev run_python : Python
run_python = record {
  sha256 = λ raw. digest;
  dumps = λ value. [];
  loads = small_loads;
  encode = λ text. [];
  str_of = text_of;
  int_of = int_value;
}

abbrev evidence_for : String → String → InvocationEvidence
evidence_for tool operation = record gep_evidence { tool_id = tool; operation = operation }

abbrev moh_says : String → String → MohObservation
moh_says state operation = record {
  gep_execution_id = "execution";
  state = state;
  record_id = none;
  evidence_digest = digest;
  result = null;
  invocation_evidence = evidence (evidence_for "mac-operation-host" operation);
}

abbrev ack_of : String → String → Ack
ack_of tool operation = record {
  is_ok = true;
  digest = digest;
  invocation_evidence = evidence (evidence_for tool operation);
}

abbrev executions : History → ℕ
executions [] = 0
executions (called rid Call.moh_execute ∷ h) = executions h + 1
executions (e ∷ h) = executions h

-- A history up to the newest event of a kind, and from there.
abbrev since : (Event → Bool) → History → History
since p [] = []
since p (e ∷ h) = let rest = since p h in if p e then [] else e ∷ rest

abbrev until : (Event → Bool) → History → History
until p [] = []
until p (e ∷ h) = let rest = until p h in if p e then h else rest

abbrev is_call : (Call → Bool) → Event → Bool
is_call p (called rid op) = p op
is_call p e = false

-- The newest event of a kind is one of the request.
abbrev newest : (Event → Bool) → (Event → Bool) → History → Bool
newest p q [] = false
newest p q (e ∷ h) = let rest = newest p q h in if p e then q e else rest

-- What `q` fixes of an event fixes a history there.
split_at :
    (p q : Event → Bool) (f : Event)
    → ((e : Event) → q e ≡ true → e ≡ f)
    → (h : History) → newest p q h ≡ true
    → h ≡ since p h ++ f ∷ until p h
split_at p q f sound [] n = cc
split_at p q f sound (e ∷ h) n = elim (Bool-cases (p e)) [
  | inl t ↦ rw t (ap (λ g. g ∷ h) (sound e (rw t at n)))
  | inr t ↦ rw t (ap (λ g. e ∷ g) (split_at p q f sound h (rw t at n)))
]

abbrev is_execution : Event → Bool
is_execution = is_call is_execute

abbrev is_own_execution : Event → Bool
is_own_execution (called rid Call.moh_execute) = rid == "r1"
is_own_execution e = false

own_execution : (e : Event) → is_own_execution e ≡ true → e ≡ called "r1" Call.moh_execute
own_execution (called rid Call.moh_execute) h = rw ((eq_iff rid "r1").0 h)
own_execution e h = cc

abbrev is_end : Event → Bool
is_end (called rid op) = tells_end op
is_end e = false

abbrev is_own_acceptance : Event → Bool
is_own_acceptance (called rid Call.ahc_accept_terminal) = rid == "r1"
is_own_acceptance e = false

own_acceptance : (e : Event) → is_own_acceptance e ≡ true → e ≡ called "r1" Call.ahc_accept_terminal
own_acceptance (called rid Call.ahc_accept_terminal) h = rw ((eq_iff rid "r1").0 h)
own_acceptance e h = cc

abbrev is_status : Event → Bool
is_status (status_written rid code t extra) = true
is_status e = false

-- A history up to its newest status record, that record included.
abbrev since_status : History → History
since_status [] = []
since_status (e ∷ h) = let rest = since_status h in if is_status e then e ∷ [] else e ∷ rest

split_status : (h : History) → h ≡ since_status h ++ until is_status h
split_status [] = refl
split_status (e ∷ h) = elim (Bool-cases (is_status e)) [
  | inl t ↦ rw t
  | inr t ↦ rw t (ap (λ g. e ∷ g) (split_status h))
]

abbrev is_publication : Event → Bool
is_publication (published rid raw) = true
is_publication e = false

-- The result's bytes are a lone line feed where every value is dumped as no bytes.
abbrev is_line : Bytes → Bool
is_line (b ∷ []) = nat_eq b 10
is_line raw = false

abbrev is_own_publication : Event → Bool
is_own_publication (published rid raw) = rid == "r1" && is_line raw
is_own_publication e = false

line_lem : (raw : Bytes) → is_line raw ≡ true → raw ≡ 10 ∷ []
line_lem [] h = cc
line_lem (b ∷ []) h = ground arith
line_lem (b ∷ c ∷ raw) h = cc

own_publication : (e : Event) → is_own_publication e ≡ true → e ≡ published "r1" (10 ∷ [])
own_publication (published rid raw) h =
    let both = &&-true (rid == "r1") (is_line raw) h in
    rw ((eq_iff rid "r1").0 both.0, line_lem raw both.1)
own_publication e h = cc

abbrev one_loss : Peers
one_loss = record {
  establish_correlation = λ h r a p s. ok sample_correlation;
  stage_moh = λ h c f p. ok (record {
    gep_execution_id = "execution";
    admission_sha256 = digest;
    payload_manifest_sha256 = digest;
    stage_digest = digest;
    stage_kind = "LOCAL_MATERIALIZATION";
  });
  ahc_begin = λ h c. ok (record {
    effect_reservation_id = "effect";
    gep_execution_id = "execution";
    state = "IN_DOUBT";
    observation_digest = digest;
    invocation_evidence = evidence (evidence_for "autonomous-handoff-coordinator" "begin_effect");
  });
  ahc_status = λ h c. err (other "TimeoutError" "");
  moh_execute = λ h c. elim (executions h) [
    | suc zero ↦ err (other "TimeoutError" "")
    | _ ↦ ok (moh_says "SUCCEEDED" "execute")
  ];
  moh_status = λ h c. ok (moh_says "NOT_FOUND" "status");
  ahc_note_in_doubt = λ h c d. err (other "TimeoutError" "");
  ahc_accept_terminal =
      λ h c d r s. ok (ack_of "autonomous-handoff-coordinator" "accept_terminal_effect");
  chm_publish_terminal = λ h c r s. err (other "TimeoutError" "");
}

abbrev one_loss_relay : Relay
one_loss_relay = record {
  service = service;
  peers = one_loss;
  utc = λ h. "t";
  frozen_dir = λ rid. rid;
  result_dir_unsafe = λ h rid. false;
  result_at = λ h rid. absent;
}

abbrev arrived : Package
arrived = record {
  name = "r1";
  is_symlink = false;
  is_dir = true;
  ready_exists = true;
  request = regular 0o644 1 (1 ∷ []);
  admission = regular 0o644 1 (3 ∷ []);
  ready = regular 0o644 1 (2 ∷ []);
  payload = tree [];
}

-- Peers whose answer to `execute` is no known state.
abbrev confused_relay : Relay
confused_relay = record one_loss_relay {
  peers = record one_loss { moh_execute = λ h c. ok (moh_says "BOGUS" "execute") };
}

-- What a relay does with the package, from the start.
unfoldable history_of : Relay → History
unfolding find number_eq py_eq canonical_bytes canonical_file_bytes canonical_digest is_id_char
    is_id is_hex64 is_hex40 is_gtg_invocation_id is_gtg_delegation_id is_context_digest
    is_execution_id is_effect_id is_handoff_id matching safe_id repeated_key hook object_of
    json_object_no_duplicates read_regular posix_path is_unsafe_part is_empty safe_rel sort_paths
    read_payload payload_entry manifest_loop manifest_digest payload_manifest entry_at copy_loop
    copy_payload_verified validate_request make_ready_record validate_ready evidence_asdict
    any_asdict origin_asdict moh_asdict invocation_evidence_from_any validate_invocation_evidence
    validate_ack validate_ahc validate_moh required_pairs evidence_list correlation_to_dict
    correlation_from_dict expected_correlation_digest validate_trusted_ids validate_trusted_service
    validate_trusted_request validate_trusted_evidence validate_correlation first_chars exc_text
    error_code record_error last_saved last_frozen last_indexed ◌>>=◌ get_state modify emit save
    publish_status status now fault_point ask in_memory current_correlation blocked receipt_matches
    stage_answer stage write_pre_ahc_wal begin_answer begin_ahc reconciled_ahc reconcile_ahc_answer
    reconcile_ahc_begin in_doubt_observed terminal_observed nonterminal_observed safe_observed
    handle_observed handle_moh count_status_call status_before_answer status_before_execute
    latch_invalid_response recover_execute execute_answer execute_call_wal proven_execute
    execute_moh reconciled_safe reconcile_moh_answer reconcile_moh report_answer observed_via
    report_moh_in_doubt same_bytes result_record compare_result place_result terminal_of
    publish_terminal stored_key phase_after_ahc accept_answer accept_call terminal_arguments
    accept_ahc_terminal chm_acknowledged chm_answer chm_call result_arguments publish_chm
    read_intake read_frozen freeze_digest transport_intent same_frozen record_event freeze_onto
    freeze accepted_state record_accepted accept_onto intake_of accept_frozen index_record
    index_onto index_gep correlate_answer correlate phase_text is_resting loaded reload is_blocked
    transition advance_rounds advance record_rejection reject recover intake_and_advance process_one
    run is_alnum is_hex after is_digit is_lower is_upper
history_of self = run self (process arrived) []

abbrev final : History
final = history_of one_loss_relay

abbrev doubtful : History
doubtful = history_of confused_relay

final-Reach : Reach final
unfolding history_of
final-Reach = ran start one_loss_relay (process arrived) refl

doubtful-Reach : Reach doubtful
unfolding history_of
doubtful-Reach = ran start confused_relay (process arrived) refl

-- Where the run executes, publishes and tells AHC of the end.
executed : newest is_execution is_own_execution final ≡ true
unfolding history_of
executed = refl

executed_before : newest is_execution is_own_execution (until is_execution final) ≡ true
unfolding history_of
executed_before = refl

publication : newest is_publication is_own_publication final ≡ true
unfolding history_of
publication = refl

acceptance : newest is_end is_own_acceptance final ≡ true
unfolding history_of
acceptance = refl

first_latched : latched "r1" (until is_status doubtful) ≡ true
unfolding history_of latched last_saved find
first_latched = refl

once : Reach (since is_execution final ++ called "r1" Call.moh_execute ∷ until is_execution final)
once =
    subst (λ h. Reach h) (split_at is_execution is_own_execution _ own_execution final executed)
      final-Reach

twice : Reach (
    since is_execution final
    ++ (called "r1" Call.moh_execute
        ∷ (since is_execution (until is_execution final)
            ++ (called "r1" Call.moh_execute ∷ until is_execution (until is_execution final)))))
twice =
    subst (λ h. Reach (since is_execution final ++ called "r1" Call.moh_execute ∷ h))
      (split_at is_execution is_own_execution _ own_execution (until is_execution final)
        executed_before)
      once

no_blind_repeat_example : HasMohAnswer moh_safe "r1" (since is_execution (until is_execution final))
no_blind_repeat_example =
    no_blind_repeat "r1" (since is_execution final) (since is_execution (until is_execution final))
      (until is_execution (until is_execution final)) twice

execute_justified_example :
    ((s : State) × (last_saved "r1" (until is_execution final) ≡ some s) × IsWal s)
    × HasAhcAnswer "r1" (until is_execution final)
execute_justified_example =
    execute_justified "r1" (since is_execution final) (until is_execution final) once

latched_never_executes_example : latched "r1" (until is_execution final) ≢ true
latched_never_executes_example =
    latched_never_executes "r1" (since is_execution final) [] (until is_execution final) once

published_after_terminal_example : HasMohAnswer terminal_states "r1" (until is_publication final)
published_after_terminal_example =
    published_after_terminal "r1" (10 ∷ []) (since is_publication final)
      (until is_publication final)
      (subst (λ h. Reach h)
        (split_at is_publication is_own_publication _ own_publication final publication)
        final-Reach)

told_after_terminal_example : HasMohAnswer terminal_states "r1" (until is_end final)
told_after_terminal_example =
    told_after_terminal "r1" Call.ahc_accept_terminal (since is_end final) (until is_end final) refl
      (subst (λ h. Reach h) (split_at is_end is_own_acceptance _ own_acceptance final acceptance)
        final-Reach)

latch_permanent_example : latched "r1" (since_status doubtful ++ until is_status doubtful) ≡ true
latch_permanent_example =
    latch_permanent "r1" (since_status doubtful) (until is_status doubtful)
      (subst (λ h. Reach h) (split_status doubtful) doubtful-Reach) first_latched
