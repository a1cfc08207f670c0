-- ===== src/Runtime/Accepted.antt =====
-- What the runtime peers of src/dger/gen4_runtime_peers.py answer is what the validators of
-- src/dger/gen4_contract.py accept.
use dropbox_governed_executi.Prelude.{String, ◌≡◌, refl, subst, true, not, ◌&&◌, some, [], ◌∷◌}
use dropbox_governed_executi.Result.{ok, >>=-eq-ok, require-eq-ok, ok-injective}
use dropbox_governed_executi.Json.{Value, str, obj, fields, dict, get, is_str, is_null}
use dropbox_governed_executi.Platform.{Bytes, Python, sha256, canonical_digest, canonical_bytes}
use dropbox_governed_executi.Primitives.Patterns.{is_hex64}
use dropbox_governed_executi.Contract.Types.{
  ahc_tool_id, chm_tool_id, InvocationEvidence, evidence, ServiceIdentity, TrustedCorrelation,
  AhcObservation, Ack,
}
use dropbox_governed_executi.Contract.Evidence.{validate_ack, validate_invocation_evidence}
use dropbox_governed_executi.Contract.Observations.{ahc_states, validate_ahc}
use dropbox_governed_executi.Relay.History.{History}
use dropbox_governed_executi.Runtime.Calls.{Invoker, Invoked, invoke, ahc_call_arguments}
use dropbox_governed_executi.Runtime.Answers.{
  ahc_projection_keys, ahc_note_keys, ahc_terminal_keys, one_of, whole_from, validate_ahc_relay,
  chm_publication,
}
use dropbox_governed_executi.Runtime.Peers.{
  runtime_ahc_status, runtime_ahc_note_in_doubt, runtime_ahc_accept_terminal,
  runtime_chm_publish_terminal,
}
use dropbox_governed_executi.Runtime.Evidence.{
  invoke-attested, one_of-eq-ok, validate_ahc-built, validate_ack-built,
}

-- SHA-256 is printed as 64 hexadecimal digits.
module _ ⦃py : Python⦄ (hex : (raw : Bytes) → is_hex64 (sha256 raw) ≡ true) where
  canonical_digest-hex : (v : Value) → is_hex64 (canonical_digest v) ≡ true
  unfolding canonical_digest
  canonical_digest-hex v = hex (canonical_bytes v)

  module _ (invoker : Invoker) (service : ServiceIdentity) (h : History)
      (c : TrustedCorrelation) where
    -- An answer of the runtime `ahc_status` is accepted too, in each of its four states.
    pub validate_ahc-runtime_ahc_status :
        {obs : AhcObservation}
        → runtime_ahc_status invoker service h c ≡ ok obs
        → validate_ahc obs c "effect_status" ≡ ok tt
    unfolding runtime_ahc_status
    validate_ahc-runtime_ahc_status {obs} e =
        let arguments = ahc_call_arguments c [] in
        let (row, called, e₁) =
          >>=-eq-ok (invoke invoker service h c ahc_tool_id "effect_status" "READ" arguments) _ e in
        let (_, _, e₂) =
          >>=-eq-ok
            (validate_ahc_relay row.result c row.context ahc_projection_keys
              ("AHC_EFFECT_STATUS" ∷ []))
            _ e₁ in
        let (state, known, e₃) =
          >>=-eq-ok (one_of (get row.result "status") ahc_states "AHC_RELAY_RESULT_INVALID") _ e₂ in
        subst (λ x. validate_ahc x c "effect_status" ≡ ok tt) (ok-injective e₃)
          (validate_ahc-built c _ "effect_status" row.evidence refl refl
            (one_of-eq-ok (get row.result "status") ahc_states _ known)
            (canonical_digest-hex (obj row.result))
            (invoke-attested invoker service h c ahc_tool_id "effect_status" "READ" arguments
              called))

    -- An acknowledgement that a call has built.
    acknowledged :
        (tool operation : String) (row : Invoked) {ack : Ack}
        → ok (record {
          is_ok = true;
          digest = canonical_digest (obj row.result);
          invocation_evidence = evidence row.evidence;
        })
          ≡ ok ack
        → validate_invocation_evidence (evidence row.evidence) (some tool) (some operation)
          ≡ ok row.evidence
        → (e : InvocationEvidence) × (validate_ack ack tool operation ≡ ok e)
    acknowledged tool operation row built valid =
        subst (λ x. (e : InvocationEvidence) × (validate_ack x tool operation ≡ ok e))
          (ok-injective built)
          (
            row.evidence,
            validate_ack-built (canonical_digest (obj row.result)) tool operation row.evidence
                (canonical_digest-hex (obj row.result)) valid,
          )

    -- An acknowledgement of the runtime `ahc_note_in_doubt` passes the validator.
    pub validate_ack-runtime_ahc_note_in_doubt :
        (d : String) {ack : Ack}
        → runtime_ahc_note_in_doubt invoker service h c d ≡ ok ack
        → (e : InvocationEvidence) × (validate_ack ack ahc_tool_id "note_moh_in_doubt" ≡ ok e)
    unfolding runtime_ahc_note_in_doubt
    validate_ack-runtime_ahc_note_in_doubt d e =
        let arguments = ahc_call_arguments c (("moh_observation_digest", str d) ∷ []) in
        let e₁ = (require-eq-ok (is_hex64 d) "MOH_OBSERVATION_DIGEST_INVALID" _ e).1 in
        let (row, called, e₂) =
          >>=-eq-ok (invoke invoker service h c ahc_tool_id "note_moh_in_doubt" "EFFECT" arguments)
            _ e₁ in
        let (_, _, e₃) =
          >>=-eq-ok
            (validate_ahc_relay row.result c row.context ahc_note_keys
              ("AHC_MOH_IN_DOUBT_NOTED" ∷ []))
            _ e₂ in
        let e₄ =
          (require-eq-ok
            (is_str (get row.result "status") "IN_DOUBT"
              && is_str (get row.result "moh_observation_digest") d)
            _ _ e₃).1 in
        let (_, _, e₅) =
          >>=-eq-ok
            (whole_from 1 (get row.result "state_revision") "AHC_MOH_IN_DOUBT_RESULT_INVALID") _
            e₄ in
        acknowledged ahc_tool_id "note_moh_in_doubt" row e₅ (
          invoke-attested invoker service h c ahc_tool_id "note_moh_in_doubt" "EFFECT" arguments
            called)

    -- If SHA-256 is printed as 64 hexadecimal digits, an acknowledgement of the runtime
    -- `ahc_accept_terminal` passes the contract's validator.
    pub validate_ack-runtime_ahc_accept_terminal :
        (d ref sha : String) {ack : Ack}
        → runtime_ahc_accept_terminal invoker service h c d ref sha ≡ ok ack
        → (e : InvocationEvidence) × (validate_ack ack ahc_tool_id "accept_terminal_effect" ≡ ok e)
    unfolding runtime_ahc_accept_terminal
    validate_ack-runtime_ahc_accept_terminal d ref sha e =
        let arguments = ahc_call_arguments c (
          ("terminal_digest", str d) ∷ ("result_ref", str ref) ∷ ("result_sha256", str sha) ∷ []) in
        let e₁ = (require-eq-ok (is_hex64 d && is_hex64 sha) "AHC_TERMINAL_RESULT_INVALID" _ e).1 in
        let (row, called, e₂) =
          >>=-eq-ok
            (invoke invoker service h c ahc_tool_id "accept_terminal_effect" "EFFECT" arguments) _
            e₁ in
        let (_, _, e₃) =
          >>=-eq-ok
            (validate_ahc_relay row.result c row.context ahc_terminal_keys
              ("AHC_TERMINAL_EFFECT_ACCEPTED" ∷ []))
            _ e₂ in
        let e₄ =
          (require-eq-ok
            (is_str (get row.result "status") "SUCCEEDED"
              && is_str (get row.result "terminal_digest") d
              && is_str (get row.result "result_ref") ref
              && is_str (get row.result "result_sha256") sha
              && is_str (get row.result "terminal_acceptance") "RECONCILIATION_COMPLETE")
            _ _ e₃).1 in
        let (_, _, e₅) =
          >>=-eq-ok (whole_from 1 (get row.result "state_revision") "AHC_TERMINAL_RESULT_INVALID") _
            e₄ in
        acknowledged ahc_tool_id "accept_terminal_effect" row e₅ (
          invoke-attested invoker service h c ahc_tool_id "accept_terminal_effect" "EFFECT"
            arguments called)

    -- If SHA-256 is printed as 64 hexadecimal digits, an acknowledgement of the runtime
    -- `chm_publish_terminal` passes the contract's validator.
    pub validate_ack-runtime_chm_publish_terminal :
        (ref sha : String) {ack : Ack}
        → runtime_chm_publish_terminal invoker service h c ref sha ≡ ok ack
        → (e : InvocationEvidence) × (validate_ack ack chm_tool_id "publish_terminal_result" ≡ ok e)
    unfolding runtime_chm_publish_terminal
    validate_ack-runtime_chm_publish_terminal ref sha e =
        let descriptor = dict (("result_ref", str ref) ∷ ("result_sha256", str sha) ∷ []) in
        let arguments = fields (
          ("handoff_id", c.chm_handoff_id)
          ∷ ("ahc_effect_id", str c.ahc_effect_reservation_id)
          ∷ ("gep_execution_id", str c.gep_execution_id)
          ∷ ("result", descriptor)
          ∷ []) in
        let e₁ =
          (require-eq-ok (not (is_null c.chm_handoff_id) && is_hex64 sha)
            "CHM_TERMINAL_RESULT_INVALID" _ e).1 in
        let (row, called, e₂) =
          >>=-eq-ok
            (invoke invoker service h c chm_tool_id "publish_terminal_result" "EFFECT" arguments) _
            e₁ in
        let (_, _, e₃) =
          >>=-eq-ok (chm_publication service c descriptor row.result row.context) _ e₂ in
        acknowledged chm_tool_id "publish_terminal_result" row e₃ (
          invoke-attested invoker service h c chm_tool_id "publish_terminal_result" "EFFECT"
            arguments called)
