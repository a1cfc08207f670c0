-- ===== src/Runtime/Peers.antt =====
-- The calls of `Gen4RuntimePeers` in src/dger/gen4_runtime_peers.py.
use dropbox_governed_executi.Prelude.{String, true, ◌&&◌, not, [], ◌∷◌}
use dropbox_governed_executi.Result.{Result, ok, require, ◌>>=◌, ◌>>◌}
use dropbox_governed_executi.Json.{str, obj, fields, dict, get, is_str, is_true, is_false, is_null}
use dropbox_governed_executi.Platform.{Python, canonical_digest}
use dropbox_governed_executi.Primitives.Patterns.{is_hex64}
use dropbox_governed_executi.Contract.Types.{
  ahc_tool_id, moh_tool_id, chm_tool_id, ServiceIdentity, TrustedCorrelation, AhcObservation,
  MohObservation, Ack, evidence,
}
use dropbox_governed_executi.Contract.Observations.{ahc_states}
use dropbox_governed_executi.Relay.History.{History}
use dropbox_governed_executi.Runtime.Calls.{Invoker, ahc_call_arguments, invoke}
use dropbox_governed_executi.Runtime.Answers.{
  ahc_projection_keys, ahc_note_keys, ahc_terminal_keys, one_of, whole_from, same_flag,
  validate_ahc_relay, moh_observation, chm_publication,
}

module _ ⦃py : Python⦄ (invoker : Invoker) (service : ServiceIdentity) where
  unfoldable pub runtime_ahc_begin : History → TrustedCorrelation → Result AhcObservation
  unfolding invoke validate_ahc_relay canonical_digest
  runtime_ahc_begin h c = do
    row ← invoke invoker service h c ahc_tool_id "begin_effect" "EFFECT" (ahc_call_arguments c [])
    validate_ahc_relay row.result c row.context ahc_projection_keys
        ("AHC_EFFECT_IN_DOUBT" ∷ "AHC_EFFECT_ALREADY_IN_DOUBT" ∷ [])
    require (is_str (get row.result "status") "IN_DOUBT") "AHC_BEGIN_DID_NOT_ESTABLISH_IN_DOUBT"
    require
        (same_flag (is_str (get row.result "code") "AHC_EFFECT_IN_DOUBT")
          (is_false (get row.result "replayed")))
        "AHC_RELAY_RESULT_INVALID"
    require
        (same_flag (is_str (get row.result "code") "AHC_EFFECT_ALREADY_IN_DOUBT")
          (is_true (get row.result "replayed")))
        "AHC_RELAY_RESULT_INVALID"
    ok (record {
      effect_reservation_id = c.ahc_effect_reservation_id;
      gep_execution_id = c.gep_execution_id;
      state = "IN_DOUBT";
      observation_digest = canonical_digest (obj row.result);
      invocation_evidence = evidence row.evidence;
    })

  unfoldable pub runtime_ahc_status : History → TrustedCorrelation → Result AhcObservation
  unfolding invoke validate_ahc_relay one_of canonical_digest
  runtime_ahc_status h c = do
    row ← invoke invoker service h c ahc_tool_id "effect_status" "READ" (ahc_call_arguments c [])
    validate_ahc_relay row.result c row.context ahc_projection_keys ("AHC_EFFECT_STATUS" ∷ [])
    state ← one_of (get row.result "status") ahc_states "AHC_RELAY_RESULT_INVALID"
    ok (record {
      effect_reservation_id = c.ahc_effect_reservation_id;
      gep_execution_id = c.gep_execution_id;
      state = state;
      observation_digest = canonical_digest (obj row.result);
      invocation_evidence = evidence row.evidence;
    })

  unfoldable pub runtime_moh_execute : History → TrustedCorrelation → Result MohObservation
  unfolding invoke moh_observation
  runtime_moh_execute h c = do
    row ←
        invoke invoker service h c moh_tool_id "execute" "EFFECT"
          (fields (("execution_id", str c.gep_execution_id) ∷ []))
    moh_observation c row.result row.evidence

  unfoldable pub runtime_moh_status : History → TrustedCorrelation → Result MohObservation
  unfolding invoke moh_observation
  runtime_moh_status h c = do
    row ←
        invoke invoker service h c moh_tool_id "status" "EFFECT"
          (fields (("execution_id", str c.gep_execution_id) ∷ []))
    moh_observation c row.result row.evidence

  unfoldable pub runtime_ahc_note_in_doubt : History → TrustedCorrelation → String → Result Ack
  unfolding is_hex64 invoke validate_ahc_relay whole_from canonical_digest
  runtime_ahc_note_in_doubt h c digest = do
    require (is_hex64 digest) "MOH_OBSERVATION_DIGEST_INVALID"
    row ←
        invoke invoker service h c ahc_tool_id "note_moh_in_doubt" "EFFECT"
          (ahc_call_arguments c (("moh_observation_digest", str digest) ∷ []))
    validate_ahc_relay row.result c row.context ahc_note_keys ("AHC_MOH_IN_DOUBT_NOTED" ∷ [])
    require
        (is_str (get row.result "status") "IN_DOUBT"
          && is_str (get row.result "moh_observation_digest") digest)
        "AHC_MOH_IN_DOUBT_RESULT_INVALID"
    whole_from 1 (get row.result "state_revision") "AHC_MOH_IN_DOUBT_RESULT_INVALID"
    ok (record {
      is_ok = true;
      digest = canonical_digest (obj row.result);
      invocation_evidence = evidence row.evidence;
    })

  unfoldable pub runtime_ahc_accept_terminal :
      History → TrustedCorrelation → String → String → String → Result Ack
  unfolding is_hex64 invoke validate_ahc_relay whole_from canonical_digest
  runtime_ahc_accept_terminal h c terminal_digest result_ref result_sha256 = do
    require (is_hex64 terminal_digest && is_hex64 result_sha256) "AHC_TERMINAL_RESULT_INVALID"
    row ← invoke invoker service h c ahc_tool_id "accept_terminal_effect" "EFFECT" (
        ahc_call_arguments c (
          ("terminal_digest", str terminal_digest)
          ∷ ("result_ref", str result_ref)
          ∷ ("result_sha256", str result_sha256)
          ∷ []))
    validate_ahc_relay row.result c row.context ahc_terminal_keys
        ("AHC_TERMINAL_EFFECT_ACCEPTED" ∷ [])
    require
        (is_str (get row.result "status") "SUCCEEDED"
          && is_str (get row.result "terminal_digest") terminal_digest
          && is_str (get row.result "result_ref") result_ref
          && is_str (get row.result "result_sha256") result_sha256
          && is_str (get row.result "terminal_acceptance") "RECONCILIATION_COMPLETE")
        "AHC_TERMINAL_RESULT_INVALID"
    whole_from 1 (get row.result "state_revision") "AHC_TERMINAL_RESULT_INVALID"
    ok (record {
      is_ok = true;
      digest = canonical_digest (obj row.result);
      invocation_evidence = evidence row.evidence;
    })

  unfoldable pub runtime_chm_publish_terminal :
      History → TrustedCorrelation → String → String → Result Ack
  unfolding is_hex64 invoke chm_publication canonical_digest
  runtime_chm_publish_terminal h c result_ref result_sha256 = do
    require (not (is_null c.chm_handoff_id) && is_hex64 result_sha256) "CHM_TERMINAL_RESULT_INVALID"
    let descriptor =
        dict (("result_ref", str result_ref) ∷ ("result_sha256", str result_sha256) ∷ [])
    row ← invoke invoker service h c chm_tool_id "publish_terminal_result" "EFFECT" (
        fields (
          ("handoff_id", c.chm_handoff_id)
          ∷ ("ahc_effect_id", str c.ahc_effect_reservation_id)
          ∷ ("gep_execution_id", str c.gep_execution_id)
          ∷ ("result", descriptor)
          ∷ []))
    chm_publication service c descriptor row.result row.context
    ok (record {
      is_ok = true;
      digest = canonical_digest (obj row.result);
      invocation_evidence = evidence row.evidence;
    })
