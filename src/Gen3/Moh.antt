-- ===== src/Gen3/Moh.antt =====
-- The calls of MOH by the first relay: `_invoke_moh` and `_handle_moh_response` of
-- src/dger/relay_moh_invoke.py, with `_resume_terminal_publication`, `_publish_result` of
-- src/dger/relay_runtime.py and `_result_record` of src/dger/relay_state_result.py; `_reconcile_moh`
-- of src/dger/relay_moh.py.
use Prim.Native.String.{◌++◌}
use dropbox_governed_executi.Prelude.{
  ℕ, ◌+◌, ◌*◌, String, true, Option, none, some, List, [], ◌∷◌, ◌==◌, elem, leb, length,
  if◌then◌else◌,
}
use dropbox_governed_executi.Result.{
  Exc, dger, other, Result, ok, err, raise, require, some_or, ◌>>=◌ as ◌>>=ᵣ◌,
}
use dropbox_governed_executi.Json.{Value, null, str, obj, Fields, fields, find, get, dict, optional}
use dropbox_governed_executi.Platform.{Bytes, Python, sha256, canonical_file_bytes}
use dropbox_governed_executi.Primitives.Files.{Entry, absent}
use dropbox_governed_executi.Contract.Types.{moh_tool_id}
use dropbox_governed_executi.Runtime.Answers.{one_of}
use dropbox_governed_executi.Relay.State.{first_chars, exc_text}
use dropbox_governed_executi.Relay.Effect.Publish.{same_bytes}
use dropbox_governed_executi.Relay.Exec.{pure, lift, ◌>>=◌, ◌>>◌}
use dropbox_governed_executi.Gen3.Values.{StrictJson}
use dropbox_governed_executi.Gen3.Files.{read_lstat_regular}
use dropbox_governed_executi.Gen3.Attestation.{
  Attestation, attestation_value, invocation_attestation,
}
use dropbox_governed_executi.Gen3.Binding.{binding_value}
use dropbox_governed_executi.Gen3.Payload.{unsafe_root}
use dropbox_governed_executi.Gen3.Stage.{
  directory_at, is_link, stage_digest_at, materialize_moh_stage,
}
use dropbox_governed_executi.Gen3.Response.{
  terminal_publishable, moh_unresolved, unwrapped_result, unwrapped_invocation, moh_response,
  kept_keys, compact_moh_evidence,
}
use dropbox_governed_executi.Gen3.State.{
  Stage, accepted, stage_complete, reconcile, in_doubt, terminal, publish_pending, Operation,
  execute, status, MohKeys, RelayState,
}
use dropbox_governed_executi.Gen3.Exec.{
  Memory, moh_call, stage_materialized, result_put, RelayV1, Method, read_state, update, put_event,
  save_state, observe, clock, run_directory, put_status, invoke_tool,
}

abbrev pub execution_protocol : String
execution_protocol = "DGER_EXECUTION_V1"

abbrev pub max_result_record_bytes : ℕ
max_result_record_bytes = 512 * 1024

abbrev pub operation_text : Operation → String
operation_text execute = "execute"
operation_text status = "status"

unfoldable pub count_moh_call : Operation → RelayState → RelayState
count_moh_call execute s = record s { moh_execute_calls = s.moh_execute_calls + 1 }
count_moh_call status s = record s { moh_status_calls = s.moh_status_calls + 1 }

-- The phase after a call whose end is not known.
abbrev pub after_ambiguity : RelayState → Stage
after_ambiguity s = if s.moh_in_doubt_ever then in_doubt else reconcile

-- `if invocation_id:`
unfoldable pub remembered : Option String → Option String → Option String
remembered none old = old
remembered (some new) old = if new == "" then old else some new

unfoldable pub keep_invocation : Fields → RelayState → RelayState
unfolding remembered unwrapped_invocation
keep_invocation wrapped s = record s {
  moh = record s.moh {
    last_invocation_id = remembered (unwrapped_invocation wrapped) s.moh.last_invocation_id;
  };
}

unfoldable pub keep_attestation : Operation → Attestation → RelayState → RelayState
keep_attestation execute a s = record s {
  moh = record s.moh {
    last_attestation = some a;
    last_operation = some execute;
    execute_attestation = some a;
  };
}
keep_attestation status a s = record s {
  moh = record s.moh {
    last_attestation = some a;
    last_operation = some status;
    status_attestation = some a;
  };
}

-- `str(KeyError(key))` has quotes.
abbrev pub key_error : String → Exc
key_error key = other "KeyError" ("'" ++ key ++ "'")

-- `mapping[key]` for each of the keys.
unfoldable pub picked : Fields → List String → Result (List (String × Value))
unfolding find
picked fs [] = ok []
picked fs (key ∷ ks) =
    some_or (find key fs) (key_error key) >>=ᵣ λ v. picked fs ks >>=ᵣ λ rest. ok ((key, v) ∷ rest)

-- `state[key]` for a key that may be absent.
abbrev pub state_key : Option String → String → Result String
state_key v key = some_or v (key_error key)

abbrev pub attestation_or_null : Option Attestation → Value
attestation_or_null none = null
attestation_or_null (some a) = attestation_value a

abbrev pub operation_or_null : Option Operation → Value
operation_or_null none = null
operation_or_null (some op) = str (operation_text op)

unfoldable pub provider_evidence : RelayState → Value
unfolding binding_value attestation_value
provider_evidence s = dict (
    ("acceptance_doctor_observation", binding_value s.acceptance.moh_binding)
    ∷ ("execute_invocation_attestation", attestation_or_null s.moh.execute_attestation)
    ∷ ("terminal_invocation_attestation", attestation_or_null s.ending.terminal_attestation)
    ∷ ("terminal_observed_via", operation_or_null s.ending.terminal_observed_via)
    ∷ [])

-- `_result_record`
unfoldable pub relay_result_record : RelayState → Fields → String → Result Value
unfolding picked provider_evidence compact_moh_evidence
relay_result_record s response evidence_ref =
    picked s.acceptance.envelope (
      "tool_id" ∷ "repository_id" ∷ "authority_selector" ∷ "authority_commit" ∷ "authority_tree"
      ∷ "operation_id" ∷ "operation_contract_digest" ∷ "closure_digest" ∷ [])
    >>=ᵣ λ consumer. state_key s.ending.terminal_at_utc "moh_terminal_at_utc" >>=ᵣ λ completed. ok (
        dict (
          ("schema", str execution_protocol)
          ∷ ("execution_id", str s.acceptance.execution_id)
          ∷ ("dger_request_id", str s.acceptance.dger_request_id)
          ∷ ("logical_handoff_id", str s.acceptance.logical_handoff_id)
          ∷ ("terminal_disposition", get response "state")
          ∷ ("consumer_binding", dict consumer)
          ∷ ("moh_provider_evidence", provider_evidence s)
          ∷ ("moh_execution", obj (compact_moh_evidence response))
          ∷ ("bounded_result_reference", str evidence_ref)
          ∷ ("completed_at_utc", str completed)
          ∷ []))

-- The test in front of `_resume_terminal_publication`.
unfoldable pub stored_terminal : RelayState → Result Fields
unfolding one_of
stored_terminal s =
    some_or s.ending.terminal_response (dger "MOH_TERMINAL_STATE_INVALID" "") >>=ᵣ λ response.
    one_of (get response "state") terminal_publishable "MOH_TERMINAL_STATE_INVALID" >>=ᵣ λ _.
    ok response

-- What becomes of the dictionary when MOH reports the end.
unfoldable pub keep_terminal : Fields → String → String → RelayState → RelayState
keep_terminal response moh_state time s = record s {
  phase = terminal;
  ending = record s.ending {
    terminal_state = some moh_state;
    terminal_response = some response;
    terminal_at_utc = some time;
    terminal_attestation = s.moh.last_attestation;
    terminal_observed_via = s.moh.last_operation;
  };
}

module _ ⦃py : Python⦄ (self : RelayV1) where
  -- A result that is there must hold the same bytes.
  unfoldable pub put_result : String → Entry → Bytes → Method (Unit {0})
  unfolding put_event read_lstat_regular same_bytes
  put_result path absent raw = put_event (result_put raw)
  put_result path entry raw = do
    existing ← lift (read_lstat_regular entry path max_result_record_bytes)
    lift (require (same_bytes existing raw) "RESULT_RECORD_CONFLICT")

  -- `_result_path`
  abbrev pub result_path : Memory → String
  result_path x = self.runs ++ "/" ++ x.state.acceptance.execution_id ++ "/result.json"

  -- `_publish_result`: the digest of what is published.
  unfoldable pub publish_result : Value → Method String
  unfolding canonical_file_bytes run_directory put_result
  publish_result value = do
    let raw = canonical_file_bytes value
    lift (require (leb (length raw) max_result_record_bytes) "RESULT_RECORD_TOO_LARGE")
    run_directory self
    λ x. put_result (result_path x) (self.result_at x.events) raw x
    pure (sha256 raw)

  unfoldable pub resume_terminal_publication : Method (Unit {0})
  unfolding stored_terminal relay_result_record publish_result save_state put_status
  resume_terminal_publication = do
    s ← read_state
    response ← lift (stored_terminal s)
    let ref = "Runs/" ++ s.acceptance.execution_id ++ "/result.json"
    value ← lift (relay_result_record s response ref)
    result_sha ← publish_result value
    update (λ s. record s {
      phase = publish_pending;
      ending = record s.ending { result_sha256 = some result_sha; result_ref = some ref };
    })
    save_state
    disposition ← lift (state_key s.ending.terminal_state "moh_terminal_state")
    put_status self "CHM_PENDING"
        (("terminal_disposition", str disposition) ∷ ("result_sha256", str result_sha) ∷ [])

  -- `_handle_moh_response`, on a response with its state.
  unfoldable pub handle_moh_response : Fields × String → Method (Unit {0})
  unfolding keep_terminal save_state resume_terminal_publication put_status
  handle_moh_response (response, moh_state) = do
    update (λ s. record s { moh = record s.moh { last_response = some response } })
    if elem moh_state terminal_publishable
        then (do
          time ← clock self
          update (keep_terminal response moh_state time)
          save_state
          resume_terminal_publication)
        else if elem moh_state moh_unresolved
        then (do
          update (λ s. record s {
            phase = in_doubt;
            moh_in_doubt_ever = true;
            moh = record s.moh { in_doubt_response = some response };
          })
          save_state
          put_status self "MOH_IN_DOUBT" (("failure_code", get response "failure_code") ∷ []))
        else (do
          update (λ s. record s { phase = reconcile })
          save_state
          put_status self ("MOH_" ++ moh_state) [])

  -- The write-ahead record of a call.
  unfoldable pub write_moh_intent : Operation → Method (Unit {0})
  unfolding clock update
  write_moh_intent execute = do
    time ← clock self
    update (λ s. record s {
      phase = reconcile;
      moh_execute_may_have_happened = true;
      moh = record s.moh { execute_intent_at_utc = some time };
    })
  write_moh_intent status = pure tt

  -- A call whose end is not known.
  unfoldable pub ambiguous_call :
      (MohKeys → MohKeys) → String → List (String × Value) → Method (Option (Fields × String))
  unfolding save_state put_status
  ambiguous_call keep code extra = do
    update (λ s. record s { phase = after_ambiguity s; moh = keep s.moh })
    save_state
    put_status self code extra
    pure none

  module _ ⦃sj : StrictJson⦄ where
    unfoldable pub attested_answer :
        Operation → Fields → Result Attestation → Method (Option (Fields × String))
    unfolding ambiguous_call keep_attestation save_state moh_response
    attested_answer op result (err (dger code detail)) =
        ambiguous_call
          (λ keys. record keys { last_attestation_error = some (code, first_chars 512 detail) })
          "MOH_ATTESTATION_UNAVAILABLE"
          (("operation", str (operation_text op)) ∷ ("code", str code) ∷ [])
    attested_answer op result (err (other name text)) = lift (err (other name text))
    attested_answer op result (ok a) = do
      update (keep_attestation op a)
      save_state
      s ← read_state
      found ← lift (moh_response result s.acceptance.execution_id)
      pure (some found)

    -- What `_invoke_moh` makes of the answer: the response with its state, if it is known.
    unfoldable pub moh_answer : Operation → Result Fields → Method (Option (Fields × String))
    unfolding ambiguous_call keep_invocation unwrapped_result unwrapped_invocation kept_keys
        attested_answer invocation_attestation
    moh_answer op (err exc) =
        ambiguous_call
          (λ keys. record keys { last_transport_error = some (first_chars 512 (exc_text exc)) })
          "MOH_RESPONSE_AMBIGUOUS" (("operation", str (operation_text op)) ∷ [])
    moh_answer op (ok wrapped) = do
      update (keep_invocation wrapped)
      elim (unwrapped_result wrapped) [
        | none ↦
            ambiguous_call
              (λ keys. record keys {
                last_gateway_response = some (
                    kept_keys ("code" ∷ "status" ∷ "execution_may_have_completed" ∷ "message" ∷ [])
                      wrapped);
              })
              "MOH_RESPONSE_AMBIGUOUS"
              (("operation", str (operation_text op))
                ∷ ("invocation_id", optional (unwrapped_invocation wrapped))
                ∷ [])
        | some result ↦
            attested_answer op result
              (invocation_attestation wrapped moh_tool_id (operation_text op))
      ]

    unfoldable pub invoke_moh : Operation → Method (Option (Fields × String))
    unfolding count_moh_call write_moh_intent save_state invoke_tool moh_answer
    invoke_moh op = do
      update (count_moh_call op)
      write_moh_intent op
      save_state
      s ← read_state
      answer ←
          invoke_tool self (moh_call op) moh_tool_id (operation_text op)
            (fields (("execution_id", str s.acceptance.execution_id) ∷ []))
      moh_answer op answer

    unfoldable pub handle_if_known : Option (Fields × String) → Method (Unit {0})
    unfolding handle_moh_response
    handle_if_known none = pure tt
    handle_if_known (some found) = handle_moh_response found

    -- The first part of `_reconcile_moh`.
    unfoldable pub complete_stage : Method (Unit {0})
    unfolding materialize_moh_stage put_event save_state put_status observe
    complete_stage = do
      final ← observe λ x.
          let a = x.state.acceptance in
          elim (self.frozen_at x.events) [
            | directory_at request envelope payload ↦
                materialize_moh_stage (self.inbox x.events) a.frozen_stage envelope payload
                  a.execution_id a.frozen_stage_digest
            | _ ↦
                materialize_moh_stage (self.inbox x.events) a.frozen_stage absent unsafe_root
                  a.execution_id a.frozen_stage_digest
          ]
      put_event (stage_materialized final)
      time ← clock self
      update (λ s. record s {
        phase = stage_complete;
        moh = record s.moh { stage_completed_at_utc = some time };
      })
      save_state
      put_status self "MOH_STAGE_COMPLETE" []

    -- The stage is read again in front of the first call.
    unfoldable pub check_stage : Method (Unit {0})
    unfolding observe is_link stage_digest_at
    check_stage = observe λ x.
        let place = self.stage_at x.events in
        if is_link place
        then raise "MOH_STAGE_SUBSTITUTED"
        else (stage_digest_at ((self.inbox x.events).path ++ "/" ++ x.state.acceptance.execution_id)
              place
            >>=ᵣ λ digest.
                require (digest == x.state.acceptance.frozen_stage_digest) "MOH_STAGE_SUBSTITUTED")

    unfoldable pub execute_first : Method (Unit {0})
    unfolding check_stage invoke_moh handle_if_known
    execute_first = do check_stage; answer ← invoke_moh execute; handle_if_known answer

    -- What follows an answer of `status`.
    unfoldable pub reconciled_status : Fields × String → Method (Unit {0})
    unfolding save_state put_status invoke_moh handle_if_known handle_moh_response
    reconciled_status (response, moh_state) = do
      s ← read_state
      if moh_state == "NOT_FOUND"
          then (if s.moh_in_doubt_ever
              then (do
                update (λ s. record s {
                  phase = in_doubt;
                  moh = record s.moh { last_response = some response };
                })
                save_state
                put_status self "MOH_IN_DOUBT"
                    (("failure_code", str "PRIOR_IN_DOUBT_NOT_FOUND") ∷ []))
              else (do answer ← invoke_moh execute; handle_if_known answer))
          else handle_moh_response (response, moh_state)

    unfoldable pub reconcile_if_known : Option (Fields × String) → Method (Unit {0})
    unfolding reconciled_status
    reconcile_if_known none = pure tt
    reconcile_if_known (some found) = reconciled_status found

    unfoldable pub ask_status : Method (Unit {0})
    unfolding invoke_moh reconcile_if_known
    ask_status = do answer ← invoke_moh status; reconcile_if_known answer

    -- `_reconcile_moh`
    unfoldable pub reconcile_phase : Stage → Method (Unit {0})
    unfolding complete_stage execute_first ask_status
    reconcile_phase accepted = do complete_stage; execute_first
    reconcile_phase stage_complete = execute_first
    reconcile_phase reconcile = ask_status
    reconcile_phase in_doubt = ask_status
    reconcile_phase _ = pure tt
