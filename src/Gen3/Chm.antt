-- ===== src/Gen3/Chm.antt =====
-- The publication to CHM by the first relay: `_publish_chm` of src/dger/relay_chm.py, and
-- `_chm_result` of src/dger/relay_state_result.py.
use dropbox_governed_executi.Prelude.{
  ◌+◌, String, Bool, true, false, ◌||◌, Option, none, some, [], ◌∷◌, ◌==◌, if◌then◌else◌,
}
use dropbox_governed_executi.Result.{
  Exc, dger, other, Result, ok, err, raise, require, some_or, ◌>>=◌ as ◌>>=ᵣ◌,
}
use dropbox_governed_executi.Json.{str, obj, Fields, fields, find, get, dict, is_true}
use dropbox_governed_executi.Platform.{Python, canonical_digest}
use dropbox_governed_executi.Contract.Types.{chm_tool_id}
use dropbox_governed_executi.Relay.State.{first_chars, exc_text}
use dropbox_governed_executi.Relay.Exec.{pure, lift, ◌>>=◌, ◌>>◌}
use dropbox_governed_executi.Gen3.Values.{get_or_empty}
use dropbox_governed_executi.Gen3.Attestation.{Attestation, invocation_attestation}
use dropbox_governed_executi.Gen3.Response.{unwrapped_result, unwrapped_invocation}
use dropbox_governed_executi.Gen3.State.{
  Stage, publish_pending, attached, conflict, done, EndKeys, RelayState,
}
use dropbox_governed_executi.Gen3.Exec.{
  handoff_attach_result, handoff_resolve, RelayV1, Method, read_state, update, save_state, clock,
  put_status, invoke_tool,
}
use dropbox_governed_executi.Gen3.Moh.{
  remembered, key_error, picked, state_key, attestation_or_null, operation_or_null,
}

abbrev pub chm_result_schema : String
chm_result_schema = "dger-chm-completion/v1"

-- `_chm_result`
unfoldable pub chm_result : RelayState → String → String → Result Fields
unfolding picked
chm_result s result_sha evidence_ref =
    let e = s.ending in
    state_key e.terminal_state "moh_terminal_state" >>=ᵣ λ disposition.
    picked s.acceptance.envelope
      ("tool_id" ∷ "operation_id" ∷ "repository_id" ∷ "authority_commit" ∷ "authority_tree" ∷ [])
    >>=ᵣ λ binding. some_or e.terminal_response (key_error "moh_terminal_response") >>=ᵣ λ response.
        state_key e.terminal_at_utc "moh_terminal_at_utc" >>=ᵣ λ time. ok (
          fields (
            ("schema", str chm_result_schema)
            ∷ ("logical_handoff_id", str s.acceptance.logical_handoff_id)
            ∷ ("execution_id", str s.acceptance.execution_id)
            ∷ ("terminal_disposition", str disposition)
            ∷ ("tool_binding", dict binding)
            ∷ (
              "moh_execution_identity",
              dict (
                  ("request_digest", get response "request_digest")
                  ∷ ("receipt_digest", get response "receipt_digest")
                  ∷ ("result_digest", get response "result_digest")
                  ∷ (
                    "execute_invocation_attestation",
                    attestation_or_null s.moh.execute_attestation,
                  )
                  ∷ ("terminal_invocation_attestation", attestation_or_null e.terminal_attestation)
                  ∷ ("terminal_observed_via", operation_or_null e.terminal_observed_via)
                  ∷ []),
            )
            ∷ ("result_evidence_digest", str result_sha)
            ∷ ("bounded_result_reference", str evidence_ref)
            ∷ ("completion_time_utc", str time)
            ∷ ("completion_time_basis", str "DGER_OBSERVED_MOH_TERMINAL")
            ∷ ("dger_request_identity", str s.acceptance.dger_request_id)
            ∷ []))

abbrev pub is_publish_pending : Stage → Bool
is_publish_pending publish_pending = true
is_publish_pending _ = false

abbrev pub is_attached : Stage → Bool
is_attached attached = true
is_attached _ = false

abbrev pub is_conflict : Stage → Bool
is_conflict conflict = true
is_conflict _ = false

-- `"chm_result_digest" in state and state["chm_result_digest"] != chm_digest`
unfoldable pub no_other_digest : Option String → String → Bool
no_other_digest none digest = true
no_other_digest (some stored) digest = stored == digest

-- A change of the keys of the end.
abbrev pub with_ending : (EndKeys → EndKeys) → RelayState → RelayState
with_ending f s = record s { ending = f s.ending }

unfoldable pub keep_chm_invocation : Fields → RelayState → RelayState
unfolding remembered unwrapped_invocation
keep_chm_invocation wrapped = with_ending λ e. record e {
  last_chm_invocation_id = remembered (unwrapped_invocation wrapped) e.last_chm_invocation_id;
}

module _ ⦃py : Python⦄ (self : RelayV1) where
  open py use {str_of}

  -- `str(wrapped.get("code", ""))`
  unfoldable pub code_of : Fields → String
  code_of wrapped = str_of (get_or_empty wrapped "code")

  -- An answer of CHM with its attestation.
  unfoldable pub chm_answer : Result Fields → String → String → Method (Fields × Attestation)
  unfolding keep_chm_invocation unwrapped_result invocation_attestation code_of
  chm_answer answer operation ambiguous = do
    wrapped ← lift answer
    update (keep_chm_invocation wrapped)
    result ← lift (some_or (unwrapped_result wrapped) (dger ambiguous (code_of wrapped)))
    a ← lift (invocation_attestation wrapped chm_tool_id operation)
    pure (result, a)

  -- `result.get("code", "CHM_ATTACH_FAILED")` of an answer that is not `ok`: whether to go on.
  unfoldable pub refused_attach : String → Method Bool
  unfolding save_state put_status
  refused_attach code =
      if code == "HANDOFF_RESULT_CONFLICT"
      then (do
        update (λ s. record s { phase = conflict })
        save_state
        put_status self "CHM_RESULT_CONFLICT" []
        pure false)
      else lift (raise code)

  unfoldable pub attach_result : String → Fields → Method Bool
  unfolding save_state invoke_tool chm_answer refused_attach clock put_status find
  attach_result handoff_id result_fields = do
    update (λ s. record s { chm_publish_calls = s.chm_publish_calls + 1 })
    save_state
    answer ←
        invoke_tool self handoff_attach_result chm_tool_id "handoff_attach_result"
          (fields (("handoff_id", str handoff_id) ∷ ("result", obj result_fields) ∷ []))
    (result, a) ← chm_answer answer "handoff_attach_result" "CHM_ATTACH_AMBIGUOUS"
    update (with_ending λ e. record e { chm_attach_attestation = some a })
    save_state
    if is_true (get result "ok")
        then (do
          time ← clock self
          update (λ s. record s {
            phase = attached;
            ending = record s.ending { chm_attached_at_utc = some time };
          })
          save_state
          put_status self "CHM_RESULT_ATTACHED" []
          pure true)
        else refused_attach
            (str_of (elim (find "code" result) [ none ↦ str "CHM_ATTACH_FAILED" | some v ↦ v ]))

  unfoldable pub resolve_handoff : String → Method (Unit {0})
  unfolding invoke_tool chm_answer save_state clock put_status code_of
  resolve_handoff handoff_id = do
    answer ←
        invoke_tool self handoff_resolve chm_tool_id "handoff_resolve"
          (fields (("handoff_id", str handoff_id) ∷ []))
    (result, a) ← chm_answer answer "handoff_resolve" "CHM_RESOLVE_AMBIGUOUS"
    update (with_ending λ e. record e { chm_resolve_attestation = some a })
    save_state
    if is_true (get result "ok")
        then (do
          time ← clock self
          update (λ s. record s {
            phase = done;
            ending = record s.ending { completed_at_utc = some time };
          })
          save_state
          s ← read_state
          disposition ← lift (state_key s.ending.terminal_state "moh_terminal_state")
          sha ← lift (state_key s.ending.result_sha256 "result_sha256")
          put_status self "DONE"
              (("terminal_disposition", str disposition) ∷ ("result_sha256", str sha) ∷ []))
        else lift (err (dger "CHM_RESOLVE_AMBIGUOUS" (code_of result)))

  -- The body of the `try`.
  unfoldable pub publish_to_chm : String → Fields → Method (Unit {0})
  unfolding attach_result resolve_handoff
  publish_to_chm handoff_id result_fields = do
    s ← read_state
    go_on ← if is_publish_pending s.phase then attach_result handoff_id result_fields else pure true
    if go_on then resolve_handoff handoff_id else pure tt

  -- The two `except` clauses.
  unfoldable pub publication_failed : Exc → Method (Unit {0})
  unfolding save_state put_status
  publication_failed (dger code detail) = do
    s ← read_state
    if is_conflict s.phase then pure tt else (do
      update (
          with_ending
            λ e. record e { last_chm_error = some (first_chars 512 (exc_text (dger code detail))) })
      save_state
      put_status self "CHM_PUBLICATION_PENDING" (("detail", str code) ∷ []))
  publication_failed (other name text) = do
    update (with_ending λ e. record e { last_chm_error = some (first_chars 512 text) })
    save_state
    put_status self "CHM_PUBLICATION_PENDING" (("detail", str "CHM_TRANSPORT_ERROR") ∷ [])

  unfoldable pub caught_publication : Result (Unit {0}) → Method (Unit {0})
  unfolding publication_failed
  caught_publication (ok u) = pure tt
  caught_publication (err exc) = publication_failed exc

  unfoldable pub try_publication : String → Fields → Method (Unit {0})
  unfolding publish_to_chm caught_publication
  try_publication handoff_id result_fields x =
      let (r, y) = publish_to_chm handoff_id result_fields x in caught_publication r y

  -- The result for CHM, if it is not another than before.
  unfoldable pub fixed_result : RelayState → Result Fields
  unfolding chm_result no_other_digest canonical_digest
  fixed_result s = state_key s.ending.result_sha256 "result_sha256" >>=ᵣ λ sha.
      state_key s.ending.result_ref "result_ref" >>=ᵣ λ ref.
      chm_result s sha ref >>=ᵣ λ result_fields.
      require (no_other_digest s.ending.chm_result_digest (canonical_digest (obj result_fields)))
        "CHM_LOCAL_RESULT_CONFLICT"
      >>=ᵣ λ _. ok result_fields

  -- The digest is saved before the first call.
  unfoldable pub publish_digested : Method (Unit {0})
  publish_digested = do
    s ← read_state
    result_fields ← lift (fixed_result s)
    update (
        with_ending
          λ e. record e { chm_result_digest = some (canonical_digest (obj result_fields)) })
    save_state
    try_publication s.acceptance.logical_handoff_id result_fields

  -- `_publish_chm`
  unfoldable pub publish_handoff : Method (Unit {0})
  unfolding publish_digested
  publish_handoff = do
    s ← read_state
    if is_publish_pending s.phase || is_attached s.phase then publish_digested else pure tt
