-- ===== src/Examples/Gen3.antt =====
-- One execution of the first relay from an arrived package to the resolved handoff: the answer of the
-- first `execute` is lost, `status` says that MOH does not have the execution, and the second `execute`
-- succeeds.
use dropbox_governed_executi.Prelude.{
  ℕ, String, ◌≡◌, refl, sym, ap, subst, Bool, true, false, ◌&&◌, some, List, [], ◌∷◌, ◌++◌, any,
  nat_eq, ◌==◌, Bool-cases, inl, inr, if◌then◌else◌, is_hex, is_alnum, is_digit, is_lower, is_upper,
  after,
}
use dropbox_governed_executi.Prelude.Int.{pos}
use dropbox_governed_executi.Result.{Result, ok, err, other}
use dropbox_governed_executi.Json.{
  Value, get, is_true, bool, num, str, obj, Fields, end, fields, dict, find, number_eq, py_eq,
}
use dropbox_governed_executi.Platform.{
  Bytes, Python, canonical_bytes, canonical_file_bytes, canonical_digest,
}
use dropbox_governed_executi.Primitives.Files.{absent, regular}
use dropbox_governed_executi.Gen3.Values.{StrictJson}
use dropbox_governed_executi.Gen3.Files.{plain}
use dropbox_governed_executi.Gen3.Payload.{Tree, file, walked}
use dropbox_governed_executi.Gen3.Stage.{StagePlace, nothing_there, directory_at, IngressPackage}
use dropbox_governed_executi.Gen3.State.{execute, status, RelayState}
use dropbox_governed_executi.Gen3.Exec.{
  moh_call, handoff_get, handoff_attach_result, handoff_resolve, RelayEvent, state_saved,
  status_put, ingress_frozen, stage_materialized, result_put, invoked, answered, Events, RelayV1,
}
use dropbox_governed_executi.Gen3.Safe.Trace.{
  is_execute_call, executed, doubted, reports, reports_absence, IsIntent,
}
use dropbox_governed_executi.Gen3.Safe.Promises.{
  HasAnswer, no_blind_execute, execute_intended, doubted_never_executes, tells_end,
  end_before_telling, doubt_permanent,
}
use dropbox_governed_executi.Guard.{assert_legacy_allowed}
use dropbox_governed_executi.Gen3.Scan.{Executions, named, entries_of, scan_executions}
use dropbox_governed_executi.Gen3.Scan.Own.{scan_executions-own}
use dropbox_governed_executi.Gen3.Start.{start_relay}
use dropbox_governed_executi.Primitives.Payload.{PayloadEntry}
use dropbox_governed_executi.Gen3.Bounds.{IsBounded, walked_manifest_bounds}
use dropbox_governed_executi.Gtg.Client.{require_success_attestation}
use dropbox_governed_executi.Gtg.Attested.{
  is_ok, invocation_attestation-require_success_attestation,
}
use dropbox_governed_executi.Gen3.Safe.Reach.{Task, RunsTo, begins, carried, process, resume}
use dropbox_governed_executi.Gen3.Accept.{
  initial_state, preflight_answer, preflight_handoff, resolve_operations, resolve_tool_binding,
  resolve_bindings, ask_handoff, freeze_package, begin_acceptance, accept_new, assert_same_intent,
  accepted_or_rejected, same_or_rejected, process_found, process_package,
}
use dropbox_governed_executi.Gen3.Advance.{
  is_finished, asks_moh, is_terminal, current_state, load_again, blocked_reconcile, try_reconcile,
  publish_phases, reconcile_and_publish, advance_locked, with_state, advance_true, resume_found,
  resume_execution,
}
use dropbox_governed_executi.Gen3.Moh.{
  count_moh_call, remembered, keep_invocation, keep_attestation, picked, provider_evidence,
  relay_result_record, stored_terminal, keep_terminal, put_result, publish_result,
  resume_terminal_publication, handle_moh_response, write_moh_intent, ambiguous_call,
  attested_answer, moh_answer, invoke_moh, handle_if_known, complete_stage, check_stage,
  execute_first, reconciled_status, reconcile_if_known, ask_status, reconcile_phase,
}
use dropbox_governed_executi.Gen3.Stage.{
  is_link, is_there, clear_temp_stages, make_moh_inbox, digest_of_stage, stage_digest,
  stage_digest_at, same_stage, rename_temp_stage, materialize_new, materialize_moh_stage,
  read_ingress, settle_frozen, freeze_ingress,
}
use dropbox_governed_executi.Gen3.Chm.{
  chm_result, no_other_digest, keep_chm_invocation, code_of, chm_answer, refused_attach,
  attach_result, resolve_handoff, publish_to_chm, publication_failed, caught_publication,
  try_publication, fixed_result, publish_digested, publish_handoff,
}
use dropbox_governed_executi.Gen3.Binding.{
  binding_value, same_projection, binding_projection, resolve_next, validate_consumer_binding,
  intent_digest,
}
use dropbox_governed_executi.Gen3.Payload.{
  files_of, insert_entry, sort_entries, safe_payload_path, walked_entry, walk_loop, schema_digest,
  walked_manifest, moh_closure_digest, copy_entries, copy_walked_verified,
}
use dropbox_governed_executi.Gen3.Response.{
  terminal_publishable, unwrapped_result, unwrapped_invocation, validate_moh_response, moh_response,
  kept_keys, stream_evidence, compact_moh_evidence,
}
use dropbox_governed_executi.Gen3.Parsing.{
  strict_object, bounded_json_object, walk, walk_items, walk_fields,
}
use dropbox_governed_executi.Gen3.Attestation.{
  attestation_value, attested_identity, invocation_attestation,
}
use dropbox_governed_executi.Gen3.Files.{read_lstat_regular, read_json_regular, safe_execution_dir}
use dropbox_governed_executi.Gen3.Ingress.{
  validate_execution_request, matches_all, each_matching, validate_ready_record,
  validate_moh_envelope,
}
use dropbox_governed_executi.Gen3.Values.{truthy}
use dropbox_governed_executi.Gen3.Exec.{
  last_state, read_state, update, put_event, save_state, observe, announce, clock, run_directory,
  put_status, invoke_tool,
}
use dropbox_governed_executi.Gen3.Safe.Reach.{carry_out}
use dropbox_governed_executi.Primitives.Payload.{posix_path, is_unsafe_part, is_empty, entry_at}
use dropbox_governed_executi.Primitives.Parsing.{repeated_key, hook}
use dropbox_governed_executi.Primitives.Patterns.{
  is_id_char, is_id, is_hex64, is_hex40, is_handoff_id, is_invocation_id, matching,
}
use dropbox_governed_executi.Relay.Exec.{◌>>=◌}
use dropbox_governed_executi.Relay.State.{first_chars, exc_text}
use dropbox_governed_executi.Relay.Effect.Publish.{same_bytes}
use dropbox_governed_executi.Runtime.Answers.{one_of, without}
use dropbox_governed_executi.Guard.{is_text}

abbrev digest : String
digest = "aaaaaaaaaaaaaaaaaaaaaaaaaaaaaaaaaaaaaaaaaaaaaaaaaaaaaaaaaaaaaaaa"

abbrev commit : String
commit = "bbbbbbbbbbbbbbbbbbbbbbbbbbbbbbbbbbbbbbbb"

abbrev handoff_id : String
handoff_id = "hnd_aaaaaaaaaaaaaaaaaaaaaaaaaaaaaaaaaaaaaaaaaaaaaaaaaaaaaaaaaaaaaaaa"

abbrev text_of : Value → String
text_of (str s) = s
text_of _ = ""

abbrev request : Fields
request = fields (
    ("schema", str "dger-execution-request/v1")
    ∷ ("execution_id", str "e1")
    ∷ ("logical_handoff_id", str handoff_id)
    ∷ ("dger_request_id", str "r1")
    ∷ [])

abbrev envelope : Fields
envelope = fields (
    ("schema", str "moh-execution-envelope/v1")
    ∷ ("execution_id", str "e1")
    ∷ ("upstream_correlation_id", str "u")
    ∷ ("tool_id", str "tool")
    ∷ ("repository_id", str "")
    ∷ ("authority_selector", str "refs/heads/main")
    ∷ ("authority_commit", str commit)
    ∷ ("authority_tree", str commit)
    ∷ ("operation_id", str "run")
    ∷ ("operation_contract_digest", str digest)
    ∷ ("closure_digest", str digest)
    ∷ ("parameters", obj end)
    ∷ ("parameters_digest", str digest)
    ∷ ("effect_class", str "c")
    ∷ ("launch_context", str "l")
    ∷ ("retry_policy", str "p")
    ∷ ("request_digest", str digest)
    ∷ [])

abbrev ready : Fields
ready = fields (
    ("schema", str "dger-ready/v1")
    ∷ ("execution_id", str "e1")
    ∷ ("request_sha256", str digest)
    ∷ ("request_size", num (pos 1))
    ∷ ("envelope_sha256", str digest)
    ∷ ("envelope_size", num (pos 1))
    ∷ ("payload_manifest_sha256", str digest)
    ∷ ("payload_total_bytes", num (pos 2))
    ∷ ("payload_file_count", num (pos 1))
    ∷ [])

abbrev response : String → Fields
response moh_state = fields (("execution_id", str "e1") ∷ ("state", str moh_state) ∷ [])

-- The texts that MOH answers with are single bytes here.
abbrev encoded : String → Bytes
encoded text = if text == "absent" then 5 ∷ [] else if text == "doubt" then 6 ∷ [] else 4 ∷ []

abbrev parsed : Bytes → Result Value
parsed [] = err (other "JSONDecodeError" "")
parsed (b ∷ raw) = ok (
    obj (
      if nat_eq b 1
      then request
      else if nat_eq b 2
      then envelope
      else if nat_eq b 3
      then ready
      else if nat_eq b 4
      then response "SUCCEEDED"
      else if nat_eq b 5
      then response "NOT_FOUND"
      else response "IN_DOUBT"))

instance abbrev run_python : Python
run_python = record {
  sha256 = λ raw. digest;
  dumps = λ value. [];
  loads = λ hook raw. err (other "JSONDecodeError" "");
  encode = encoded;
  str_of = text_of;
  int_of = λ v. err (other "ValueError" "");
}

instance abbrev run_json : StrictJson
run_json = record { loads_strict = λ hook constant raw. parsed raw }

-- A successful answer of GTG, with its attestation.
abbrev attested : String → Fields → Fields
attested tool result = fields (
    ("ok", bool true)
    ∷ ("result", obj result)
    ∷ ("invocation_id", str "inv_aaaaaaaaaaaaaaaaaaaaaaaaaaaaaaaa")
    ∷ (
      "identity_attestation",
      dict (
          ("tool_identity", str commit)
          ∷ ("tool_tree", str commit)
          ∷ ("gtg_identity", str commit)
          ∷ []),
    )
    ∷ (
      "evidence",
      dict (
          ("tool_id", str tool)
          ∷ ("tool_identity", str commit)
          ∷ ("registry_identity", str commit)
          ∷ []),
    )
    ∷ [])

abbrev doctor_answer : Fields
doctor_answer = fields (
    ("schema", str "gtg-doctor/v2")
    ∷ ("ok", bool true)
    ∷ ("callability_state", str "READY")
    ∷ ("authoritative_binding", obj end)
    ∷ (
      "delivered_binding",
      dict (
          ("tool_identity", str commit)
          ∷ ("tool_tree", str commit)
          ∷ ("registry_identity", str commit)
          ∷ []),
    )
    ∷ [])

abbrev handoff : Fields
handoff =
    fields (("ok", bool true) ∷ ("handoff_id", str handoff_id) ∷ ("state", str "STARTED") ∷ [])

-- The answer of the first `execute` is lost.
abbrev answer_of : Events → String → Result Fields
answer_of (invoked (moh_call execute) ∷ h) tool =
    if executed h
    then ok (attested tool (fields (("response_json", str "terminal") ∷ [])))
    else err (other "TimeoutError" "")
answer_of (invoked (moh_call status) ∷ h) tool =
    ok (attested tool (fields (("response_json", str "absent") ∷ [])))
answer_of h tool = ok (attested tool handoff)

abbrev doubtful_answer : Events → String → Result Fields
doubtful_answer h tool = ok (attested tool (fields (("response_json", str "doubt") ∷ [])))

abbrev payload : Tree
payload = walked (file "a" (regular 0o600 2 (104 ∷ 105 ∷ [])) ∷ [])

abbrev staged_place : StagePlace
staged_place = directory_at (regular 0o600 1 (1 ∷ [])) (regular 0o600 1 (2 ∷ [])) payload

abbrev frozen_place : Events → StagePlace
frozen_place [] = nothing_there
frozen_place (e ∷ h) = staged_place

abbrev run_relay : RelayV1
run_relay = record {
  gateway = record {
    doctor = λ h tool operation. ok doctor_answer;
    invoke = λ h tool operation arguments. answer_of h tool;
  };
  utc = λ h. "t";
  state_root = "state";
  runs = "runs";
  runs_is_symlink = λ h. false;
  run_dir = λ h. plain;
  result_at = λ h. absent;
  inbox = λ h. record {
    path = "inbox";
    is_symlink = false;
    no_dir = false;
    orphans = [];
    final = nothing_there;
    placed = nothing_there;
    rename_error = "";
  };
  stage_at = λ h. staged_place;
  frozen_root_is_symlink = λ h. false;
  frozen_at = frozen_place;
}

abbrev arrived : IngressPackage
arrived = record {
  name = "e1";
  is_directory = true;
  ready_exists = true;
  path = "ingress/e1";
  request = regular 0o644 1 (1 ∷ []);
  envelope = regular 0o644 1 (2 ∷ []);
  ready = regular 0o644 1 (3 ∷ []);
  payload = payload;
}

-- What is left of the execution after a task.
unfoldable after_task : RelayV1 → Task → Events → Events
unfolding initial_state preflight_answer preflight_handoff resolve_operations resolve_tool_binding
    resolve_bindings ask_handoff freeze_package begin_acceptance accept_new assert_same_intent
    accepted_or_rejected same_or_rejected process_found process_package is_finished asks_moh
    is_terminal current_state load_again blocked_reconcile try_reconcile publish_phases
    reconcile_and_publish advance_locked with_state advance_true resume_found resume_execution
    count_moh_call remembered keep_invocation keep_attestation picked provider_evidence
    relay_result_record stored_terminal keep_terminal put_result publish_result
    resume_terminal_publication handle_moh_response write_moh_intent ambiguous_call attested_answer
    moh_answer invoke_moh handle_if_known complete_stage check_stage execute_first reconciled_status
    reconcile_if_known ask_status reconcile_phase is_link is_there clear_temp_stages make_moh_inbox
    digest_of_stage stage_digest stage_digest_at same_stage rename_temp_stage materialize_new
    materialize_moh_stage read_ingress settle_frozen freeze_ingress chm_result no_other_digest
    keep_chm_invocation code_of chm_answer refused_attach attach_result resolve_handoff
    publish_to_chm publication_failed caught_publication try_publication fixed_result
    publish_digested publish_handoff binding_value same_projection binding_projection resolve_next
    validate_consumer_binding intent_digest files_of insert_entry sort_entries safe_payload_path
    walked_entry walk_loop schema_digest walked_manifest moh_closure_digest copy_entries
    copy_walked_verified unwrapped_result unwrapped_invocation validate_moh_response moh_response
    kept_keys stream_evidence compact_moh_evidence strict_object bounded_json_object walk walk_items
    walk_fields attestation_value attested_identity invocation_attestation read_lstat_regular
    read_json_regular safe_execution_dir validate_execution_request matches_all each_matching
    validate_ready_record validate_moh_envelope truthy last_state read_state update put_event
    save_state observe announce clock run_directory put_status invoke_tool carry_out posix_path
    is_unsafe_part is_empty entry_at repeated_key hook is_id_char is_id is_hex64 is_hex40
    is_handoff_id is_invocation_id matching ◌>>=◌ first_chars exc_text same_bytes one_of without
    is_text find number_eq py_eq canonical_bytes canonical_file_bytes canonical_digest executed
    is_hex is_alnum is_digit is_lower is_upper after
after_task self t h = carry_out self "e1" t h

abbrev lost : Events
lost = after_task run_relay (process arrived) []

abbrev final : Events
final = after_task run_relay resume lost

-- A run whose `status` is answered that the execution is in doubt.
abbrev doubtful_relay : RelayV1
doubtful_relay = record run_relay {
  gateway = record {
    doctor = λ h tool operation. ok doctor_answer;
    invoke = λ h tool operation arguments. doubtful_answer h tool;
  };
}

abbrev doubtful : Events
doubtful = after_task doubtful_relay resume lost

final-RunsTo : RunsTo "e1" final
unfolding after_task
final-RunsTo =
    carried (carried begins run_relay (process arrived) refl refl) run_relay resume tt refl

doubtful-RunsTo : RunsTo "e1" doubtful
unfolding after_task
doubtful-RunsTo =
    carried (carried begins run_relay (process arrived) refl refl) doubtful_relay resume tt refl

-- A history, cut at the newest event of a kind.
abbrev since : (RelayEvent → Bool) → Events → Events
since p [] = []
since p (e ∷ h) = if p e then [] else e ∷ since p h

abbrev until : (RelayEvent → Bool) → Events → Events
until p [] = []
until p (e ∷ h) = if p e then h else until p h

abbrev newest : (RelayEvent → Bool) → RelayEvent → Events → RelayEvent
newest p other_event [] = other_event
newest p other_event (e ∷ h) = if p e then e else newest p other_event h

split_at :
    (p : RelayEvent → Bool) (none_found : RelayEvent) (h : Events)
    → any p h ≡ true
    → (since p h ++ newest p none_found h ∷ until p h) ≡ h
split_at p none_found [] a = cc
split_at p none_found (e ∷ h) a = elim (Bool-cases (p e)) [
  | inl q ↦ rw q refl
  | inr q ↦ rw q (ap (λ t. e ∷ t) (split_at p none_found h (rw q at a)))
]

abbrev is_execution : RelayEvent → Bool
is_execution (invoked call) = is_execute_call call
is_execution _ = false

own_execution :
    (h : Events)
    → any is_execution h ≡ true
    → newest is_execution (invoked (moh_call execute)) h ≡ invoked (moh_call execute)
own_execution [] a = refl
own_execution (invoked (moh_call execute) ∷ h) a = refl
own_execution (invoked (moh_call status) ∷ h) a = own_execution h a
own_execution (invoked handoff_get ∷ h) a = own_execution h a
own_execution (invoked handoff_attach_result ∷ h) a = own_execution h a
own_execution (invoked handoff_resolve ∷ h) a = own_execution h a
own_execution (state_saved s ∷ h) a = own_execution h a
own_execution (status_put code time extra ∷ h) a = own_execution h a
own_execution (ingress_frozen i place ∷ h) a = own_execution h a
own_execution (stage_materialized place ∷ h) a = own_execution h a
own_execution (result_put raw ∷ h) a = own_execution h a
own_execution (answered call r ∷ h) a = own_execution h a

split_execution :
    (h : Events)
    → any is_execution h ≡ true
    → (since is_execution h ++ invoked (moh_call execute) ∷ until is_execution h) ≡ h
split_execution h a =
    subst (λ e. (since is_execution h ++ e ∷ until is_execution h) ≡ h) (own_execution h a)
      (split_at is_execution (invoked (moh_call execute)) h a)

executed_last : any is_execution final ≡ true
unfolding after_task
executed_last = refl

executed_first : any is_execution (until is_execution final) ≡ true
unfolding after_task
executed_first = refl

once :
    RunsTo "e1"
      (since is_execution final ++ (invoked (moh_call execute) ∷ until is_execution final))
once = subst (λ h. RunsTo "e1" h) (sym (split_execution final executed_last)) final-RunsTo

twice : RunsTo "e1" (
    since is_execution final
    ++ (invoked (moh_call execute)
        ∷ (since is_execution (until is_execution final)
            ++ (invoked (moh_call execute) ∷ until is_execution (until is_execution final)))))
twice =
    subst (λ h. RunsTo "e1" (since is_execution final ++ (invoked (moh_call execute) ∷ h)))
      (sym (split_execution (until is_execution final) executed_first)) once

no_blind_execute_example :
    HasAnswer (reports_absence "e1") (since is_execution (until is_execution final))
no_blind_execute_example =
    no_blind_execute (since is_execution final) (since is_execution (until is_execution final))
      (until is_execution (until is_execution final)) twice

execute_intended_example :
    (s : RelayState) × (last_state (until is_execution final) ≡ some s) × IsIntent s
execute_intended_example =
    execute_intended (since is_execution final) (until is_execution final) once

doubted_never_executes_example : doubted (until is_execution final) ≡ false
doubted_never_executes_example =
    doubted_never_executes (since is_execution final) [] (until is_execution final) once

-- The event of the publication, or of a call that changes the handoff.
abbrev end_event : RelayEvent
end_event = newest tells_end (result_put []) final

told : any tells_end final ≡ true
unfolding after_task
told = refl

told_end : tells_end end_event ≡ true
unfolding after_task
told_end = refl

end_before_telling_example : HasAnswer (reports terminal_publishable "e1") (until tells_end final)
end_before_telling_example =
    end_before_telling (since tells_end final) (until tells_end final) end_event
      (subst (λ h. RunsTo "e1" h) (sym (split_at tells_end (result_put []) final told))
        final-RunsTo)
      told_end

abbrev is_saved_doubt : RelayEvent → Bool
is_saved_doubt (state_saved s) = s.moh_in_doubt_ever
is_saved_doubt _ = false

saved_doubt : any is_saved_doubt doubtful ≡ true
unfolding after_task
saved_doubt = refl

abbrev doubt_saved : Events
doubt_saved = newest is_saved_doubt (result_put []) doubtful ∷ until is_saved_doubt doubtful

first_doubt : doubted doubt_saved ≡ true
unfolding after_task doubted last_state
first_doubt = refl

doubt_permanent_example : doubted (since is_saved_doubt doubtful ++ doubt_saved) ≡ true
doubt_permanent_example =
    doubt_permanent (since is_saved_doubt doubtful) doubt_saved
      (subst (λ h. RunsTo "e1" h)
        (sym (split_at is_saved_doubt (result_put []) doubtful saved_doubt)) doubtful-RunsTo)
      first_doubt

invocation_attestation-require_success_attestation_example :
    is_ok (invocation_attestation (attested "tool" end) "tool" "execute") ≡ (
      is_true (get (attested "tool" end) "ok")
      && is_ok (require_success_attestation (attested "tool" end) "tool"))
invocation_attestation-require_success_attestation_example =
    invocation_attestation-require_success_attestation (attested "tool" end) "tool" "execute"

abbrev payload_entries : List PayloadEntry
payload_entries = record { path = "a"; size = 2; digest = digest } ∷ []

walked_manifest_bounds_example : IsBounded payload_entries 2 digest
unfolding walked_manifest walk_loop walked_entry safe_payload_path posix_path is_unsafe_part
    is_empty sort_entries insert_entry schema_digest canonical_digest
walked_manifest_bounds_example =
    walked_manifest_bounds "p" (file "a" (regular 0o600 2 (104 ∷ 105 ∷ [])) ∷ []) refl

-- A root that is a link to nothing does not keep the relay from its start; one that leads somewhere does.
start_dangling :
    start_relay false absent
      (record { exists = false; is_symlink = true })
      (record { exists = true; is_symlink = false })
      (record { exists = true; is_symlink = false })
      (("runs", false) ∷ [])
    ≡ ok tt
unfolding start_relay assert_legacy_allowed
start_dangling = refl

-- One package is scanned, and one execution is found in the state directory.
abbrev scan_once_each : Executions → (Bool × ℕ) × Executions
scan_once_each =
    scan_executions (λ execution_id. run_relay) (arrived ∷ [])
      (λ w. entries_of (named "e1" ".json" true ∷ []))

-- Its package is processed, and then it is resumed once.
scan_executions-own_example :
    (scan_once_each (λ execution_id. [])).1 "e1"
    ≡ (resume_execution run_relay "e1" (process_package run_relay arrived []).1).1
unfolding is_id
scan_executions-own_example =
    scan_executions-own (λ execution_id. run_relay) (arrived ∷ [])
      (λ w. entries_of (named "e1" ".json" true ∷ [])) (λ execution_id. []) "e1" (λ v. refl)
