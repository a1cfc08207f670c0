-- ===== src/Gen3/Accept.antt =====
-- `_accept_new` and `_assert_same_intent` of src/dger/relay_accept.py, `resolve_tool_binding` of
-- src/dger/relay_protocol_binding.py, and `process_one` of src/dger/relay_v1.py.
use Prim.Native.String.{◌++◌}
use dropbox_governed_executi.Prelude.{
  String, Bool, true, false, ◌&&◌, Option, none, some, List, [], ◌∷◌, ◌==◌, if◌then◌else◌,
}
use dropbox_governed_executi.Result.{
  dger, other, Result, ok, err, raise_with, require, require_with, some_or, ◌>>=◌ as ◌>>=ᵣ◌,
}
use dropbox_governed_executi.Json.{str, Fields, fields, get, as_str, is_str, is_true, is_null}
use dropbox_governed_executi.Platform.{Python, sha256}
use dropbox_governed_executi.Primitives.Patterns.{is_id}
use dropbox_governed_executi.Contract.Types.{moh_tool_id, chm_tool_id}
use dropbox_governed_executi.Relay.State.{first_chars, exc_text}
use dropbox_governed_executi.Relay.Exec.{Action, pure, lift, ◌>>=◌, ◌>>◌}
use dropbox_governed_executi.Gen3.Values.{StrictJson, get_or_empty}
use dropbox_governed_executi.Gen3.Parsing.{bounded_json_object}
use dropbox_governed_executi.Gen3.Attestation.{Attestation, invocation_attestation}
use dropbox_governed_executi.Gen3.Binding.{
  Projection, ToolBinding, binding_projection, resolve_next, validate_consumer_binding,
  intent_digest,
}
use dropbox_governed_executi.Gen3.Stage.{
  StagePlace, IngressPackage, FrozenIngress, read_ingress, freeze_ingress, stage_digest_at,
}
use dropbox_governed_executi.Gen3.Response.{unwrapped_result}
use dropbox_governed_executi.Gen3.State.{accepted, Accepted, RelayState}
use dropbox_governed_executi.Gen3.Exec.{
  handoff_get, state_saved, ingress_frozen, invoked, answered, Events, last_state, RelayV1,
  announce,
}
use dropbox_governed_executi.Gen3.Moh.{key_error}
use dropbox_governed_executi.Gen3.Advance.{advance_true}

-- The dictionary as `_accept_new` begins it.
unfoldable pub initial_state : Accepted → RelayState
initial_state a = record {
  phase = accepted;
  acceptance = a;
  moh_execute_calls = 0;
  moh_status_calls = 0;
  chm_publish_calls = 0;
  moh_execute_may_have_happened = false;
  moh_in_doubt_ever = false;
  moh = record {
    stage_completed_at_utc = none;
    execute_intent_at_utc = none;
    last_transport_error = none;
    last_invocation_id = none;
    last_gateway_response = none;
    last_attestation_error = none;
    last_attestation = none;
    last_operation = none;
    execute_attestation = none;
    status_attestation = none;
    last_response = none;
    in_doubt_response = none;
    last_reconcile_error = none;
  };
  ending = record {
    terminal_state = none;
    terminal_response = none;
    terminal_at_utc = none;
    terminal_attestation = none;
    terminal_observed_via = none;
    result_sha256 = none;
    result_ref = none;
    chm_result_digest = none;
    last_chm_invocation_id = none;
    chm_attach_attestation = none;
    chm_attached_at_utc = none;
    chm_resolve_attestation = none;
    completed_at_utc = none;
    last_chm_error = none;
  };
}

-- `fs[key]`, where a text was checked to be.
abbrev pub text_at : Fields → String → Result String
text_at fs key = some_or (as_str (get fs key)) (key_error key)

-- The three bindings that GTG has resolved.
pub record Bindings : Type 0 where
  pub moh_binding : ToolBinding
  pub chm_binding : ToolBinding
  pub consumer_binding : ToolBinding

-- `except Exception as exc: raise DgerError("CHM_HANDOFF_PREFLIGHT_TRANSPORT", ...)`
unfoldable pub preflight_answer : Result Fields → Result Fields
preflight_answer (ok wrapped) = ok wrapped
preflight_answer (err exc) =
    raise_with "CHM_HANDOFF_PREFLIGHT_TRANSPORT" (first_chars 512 (exc_text exc))

module _ ⦃py : Python⦄ where
  open py use {str_of}

  -- What the handoff must be before anything is visible to MOH.
  unfoldable pub preflight_handoff : Fields → String → Result Attestation
  unfolding unwrapped_result invocation_attestation
  preflight_handoff wrapped handoff_id =
      let failed = dger "CHM_HANDOFF_PREFLIGHT_FAILED" (str_of (get_or_empty wrapped "code")) in
      some_or (unwrapped_result wrapped) failed >>=ᵣ λ handoff.
      require_with (is_true (get handoff "ok")) "CHM_HANDOFF_PREFLIGHT_FAILED"
        (str_of (get_or_empty wrapped "code"))
      >>=ᵣ λ _. invocation_attestation wrapped chm_tool_id "handoff_get" >>=ᵣ λ attestation.
          require (is_str (get handoff "handoff_id") handoff_id) "CHM_HANDOFF_ID_MISMATCH" >>=ᵣ λ _.
          require_with (is_str (get handoff "state") "STARTED" && is_null (get handoff "result"))
            "CHM_HANDOFF_NOT_EXECUTION_READY" (str_of (get_or_empty handoff "state"))
          >>=ᵣ λ _. ok attestation

  module _ (self : RelayV1) where
    -- The loop of `resolve_tool_binding`.
    unfoldable pub resolve_operations :
        String → List String → Option Projection → Action Events (Option Projection)
    unfolding binding_projection resolve_next
    resolve_operations tool_id [] resolved = pure resolved
    resolve_operations tool_id (operation ∷ operations) resolved = do
      projection ← λ h. (self.gateway.doctor h tool_id operation >>=ᵣ binding_projection, h)
      next ← lift (resolve_next tool_id resolved projection)
      resolve_operations tool_id operations next

    unfoldable pub resolve_tool_binding : String → List String → Action Events ToolBinding
    unfolding resolve_operations
    resolve_tool_binding tool_id operations = do
      found ← resolve_operations tool_id operations none
      resolved ← lift (some_or found (other "AssertionError" ""))
      pure (record { tool_id = tool_id; operations = operations; resolved = resolved })

    unfoldable pub resolve_bindings : Fields → Action Events Bindings
    unfolding resolve_tool_binding validate_consumer_binding
    resolve_bindings envelope = do
      moh ← resolve_tool_binding moh_tool_id ("execute" ∷ "status" ∷ [])
      chm ←
          resolve_tool_binding chm_tool_id
            ("handoff_get" ∷ "handoff_attach_result" ∷ "handoff_resolve" ∷ [])
      tool_id ← lift (text_at envelope "tool_id")
      operation ← lift (text_at envelope "operation_id")
      consumer ← resolve_tool_binding tool_id (operation ∷ [])
      lift (validate_consumer_binding envelope consumer)
      pure (record { moh_binding = moh; chm_binding = chm; consumer_binding = consumer })

    unfoldable pub ask_handoff : String → Action Events (Result Fields)
    ask_handoff handoff_id h =
        let asked = invoked handoff_get ∷ h in
        let r =
          self.gateway.invoke asked chm_tool_id "handoff_get"
            (fields (("handoff_id", str handoff_id) ∷ [])) in
        (ok r, answered handoff_get r ∷ asked)

    module _ ⦃sj : StrictJson⦄ where
      unfoldable pub freeze_package : IngressPackage → Action Events (FrozenIngress × StagePlace)
      unfolding freeze_ingress
      freeze_package pack h = (
        freeze_ingress pack (self.state_root ++ "/frozen/" ++ pack.name)
            (self.frozen_root_is_symlink h) (self.frozen_at h) pack.name,
        h,
      )

      -- `_accept_new`, to where the dictionary is made.
      unfoldable pub begin_acceptance : IngressPackage → Action Events Accepted
      begin_acceptance pack = do
        (i, place) ← freeze_package pack
        λ h. (ok tt, ingress_frozen i place ∷ h)
        request ← lift (bounded_json_object i.request_raw)
        envelope ← lift (bounded_json_object i.envelope_raw)
        bindings ← resolve_bindings envelope
        handoff_id ← lift (text_at request "logical_handoff_id")
        answer ← ask_handoff handoff_id
        attestation ←
            lift (preflight_answer answer >>=ᵣ λ wrapped. preflight_handoff wrapped handoff_id)
        let frozen = self.state_root ++ "/frozen/" ++ pack.name
        stage_digest ← lift (stage_digest_at frozen place)
        request_id ← lift (text_at request "dger_request_id")
        time ← λ h. (ok (self.utc h), h)
        pure (record {
          execution_id = pack.name;
          dger_request_id = request_id;
          logical_handoff_id = handoff_id;
          intent_digest =
              intent_digest i.request_raw i.envelope_raw i.manifest_digest bindings.moh_binding
                bindings.chm_binding bindings.consumer_binding;
          request_sha256 = sha256 i.request_raw;
          envelope_sha256 = sha256 i.envelope_raw;
          payload_manifest_sha256 = i.manifest_digest;
          frozen_stage_digest = stage_digest;
          frozen_stage = frozen;
          envelope = envelope;
          moh_binding = bindings.moh_binding;
          chm_binding = bindings.chm_binding;
          consumer_binding = bindings.consumer_binding;
          chm_preflight_attestation = attestation;
          accepted_at_utc = time;
        })

      unfoldable pub accept_new : IngressPackage → Action Events RelayState
      accept_new pack = do
        a ← begin_acceptance pack
        λ h. (ok tt, state_saved (initial_state a) ∷ h)
        announce self pack.name "ACCEPTED" []
        pure (initial_state a)

      unfoldable pub assert_same_intent : IngressPackage → RelayState → Result (Unit {0})
      unfolding read_ingress intent_digest
      assert_same_intent pack current =
          let a = current.acceptance in
          read_ingress pack a.execution_id >>=ᵣ λ i.
          require
            (intent_digest i.request_raw i.envelope_raw i.manifest_digest a.moh_binding
                a.chm_binding a.consumer_binding
              == a.intent_digest)
            "EXECUTION_ID_INTENT_CONFLICT"

      -- The `try` around `_accept_new`, and what follows.
      unfoldable pub accepted_or_rejected : String → Result RelayState → Action Events Bool
      accepted_or_rejected execution_id (ok s) = advance_true self s
      accepted_or_rejected execution_id (err (dger code detail)) = do
        announce self execution_id "REJECTED" (("code", str code) ∷ ("detail", str detail) ∷ [])
        pure true
      accepted_or_rejected execution_id (err (other name text)) = lift (err (other name text))

      -- The `try` around `_assert_same_intent`, and what follows.
      unfoldable pub same_or_rejected : String → RelayState → Result (Unit {0}) → Action Events Bool
      same_or_rejected execution_id s (ok u) = advance_true self s
      same_or_rejected execution_id s (err (dger code detail)) =
          if code == "EXECUTION_ID_INTENT_CONFLICT"
          then (do
            announce self execution_id "IDENTITY_INTENT_CONFLICT" (("code", str code) ∷ [])
            pure true)
          else (do
            announce self execution_id "REJECTED_REPLAY"
                (("code", str code) ∷ ("detail", str detail) ∷ [])
            pure true)
      same_or_rejected execution_id s (err (other name text)) = lift (err (other name text))

      unfoldable pub process_found : Option RelayState → IngressPackage → Action Events Bool
      process_found none pack h =
          let (r, after) = accept_new pack h in accepted_or_rejected pack.name r after
      process_found (some s) pack h = same_or_rejected pack.name s (assert_same_intent pack s) h

      -- `process_one`
      unfoldable pub process_package : IngressPackage → Action Events Bool
      unfolding is_id last_state
      process_package pack h =
          if is_id pack.name && pack.is_directory && pack.ready_exists
          then process_found (last_state h) pack h
          else (ok false, h)
