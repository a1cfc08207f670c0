-- ===== src/Relay/Effect/Ahc.antt =====
-- The staging and the AHC part of src/dger/gen4_effect.py: `_stage`, `_write_pre_ahc_wal`,
-- `_begin_ahc` and `_reconcile_ahc_begin`.
use dropbox_governed_executi.Prelude.{String, Bool, true, ◌&&◌, some, [], ◌∷◌, ◌==◌, if◌then◌else◌}
use dropbox_governed_executi.Result.{Exc, Result, ok, err, raise_with, require}
use dropbox_governed_executi.Json.{str}
use dropbox_governed_executi.Platform.{Python}
use dropbox_governed_executi.Primitives.Patterns.{is_hex64}
use dropbox_governed_executi.Contract.Types.{TrustedCorrelation, StageReceipt, AhcObservation}
use dropbox_governed_executi.Contract.Observations.{validate_ahc}
use dropbox_governed_executi.Relay.State.{
  State, moh_staged, pre_ahc_execute_wal, ahc_begin_reconcile, ahc_in_doubt, stored_ahc, error_code,
  record_error,
}
use dropbox_governed_executi.Relay.History.{
  stage_moh, ahc_begin, ahc_status, stage_replied, ahc_replied,
}
use dropbox_governed_executi.Relay.Exec.{
  Relay, Exec, lift, ◌>>=◌, ◌>>◌, get_state, modify, save, status, now, fault_point, ask,
}
use dropbox_governed_executi.Relay.Current.{current_correlation}

module _ (self : Relay) where
  -- The common `except Exception` of the peer calls: record, save, publish.
  unfoldable pub blocked : String → String → Exc → Exec (Unit {0})
  blocked place code exc = do
    modify (record_error place exc)
    save
    status self code (("code", str (error_code exc)) ∷ [])

module _ ⦃py : Python⦄ (self : Relay) where
  -- The receipt names this execution, these bytes and a local materialization.
  unfoldable pub receipt_matches : StageReceipt → TrustedCorrelation → State → Bool
  receipt_matches receipt c s =
      receipt.gep_execution_id == c.gep_execution_id
      && receipt.admission_sha256 == s.admission_sha256
      && receipt.payload_manifest_sha256 == s.payload_manifest_sha256
      && is_hex64 receipt.stage_digest
      && receipt.stage_kind == "LOCAL_MATERIALIZATION"

  unfoldable pub stage_answer : TrustedCorrelation → Result StageReceipt → Exec (Unit {0})
  stage_answer c (err exc) = blocked self "stage_moh" "MOH_STAGE_BLOCKED" exc
  stage_answer c (ok receipt) = do
    s ← get_state
    lift (require (receipt_matches receipt c s) "MOH_STAGE_RECEIPT_MISMATCH")
    t ← now self
    modify (λ s. record s {
      moh_stage_receipt = some receipt;
      phase = moh_staged;
      times = record s.times { moh_stage_at_utc = some t };
    })
    save
    status self "MOH_STAGED" []
    fault_point self "after_moh_stage"

  unfoldable pub stage : Exec (Unit {0})
  unfolding stage_answer
  stage = do
    s ← get_state
    c ← lift (current_correlation self.service s)
    r ←
        ask stage_moh (λ h. self.peers.stage_moh h c s.frozen_stage s.payload_manifest_sha256)
          stage_replied
    stage_answer c r

  unfoldable pub write_pre_ahc_wal : Exec (Unit {0})
  write_pre_ahc_wal = do
    t ← now self
    modify (λ s. record s {
      execute_reconciliation_required = true;
      phase = pre_ahc_execute_wal;
      times = record s.times { pre_ahc_execute_wal_at_utc = some t };
    })
    save
    status self "PRE_AHC_EXECUTE_WAL" []
    fault_point self "after_pre_ahc_wal"

  unfoldable pub begin_answer : TrustedCorrelation → Result AhcObservation → Exec (Unit {0})
  begin_answer c (err exc) = do
    modify (record_error "ahc_begin" exc)
    modify (λ s. record s { phase = ahc_begin_reconcile; ahc_begin_response_ambiguous = true })
    save
    status self "AHC_BEGIN_AMBIGUOUS" (("code", str (error_code exc)) ∷ [])
  begin_answer c (ok obs) = do
    lift (validate_ahc obs c "begin_effect")
    lift (
        if obs.state == "IN_DOUBT"
        then ok tt
        else raise_with "AHC_BEGIN_DID_NOT_ESTABLISH_IN_DOUBT" obs.state)
    t ← now self
    modify (λ s. record s {
      ahc_begin_observation = some (stored_ahc obs);
      phase = ahc_in_doubt;
      times = record s.times { ahc_in_doubt_at_utc = some t };
      pre_execute_status_required = some true;
    })
    save
    status self "AHC_IN_DOUBT" []
    fault_point self "after_ahc_in_doubt"

  unfoldable pub begin_ahc : Exec (Unit {0})
  unfolding begin_answer
  begin_ahc = do
    s ← get_state
    c ← lift (current_correlation self.service s)
    r ← ask ahc_begin (λ h. self.peers.ahc_begin h c) (λ rid. ahc_replied rid ahc_begin)
    begin_answer c r

  -- The three ways to go on from a valid AHC status.
  unfoldable pub reconciled_ahc : AhcObservation → Exec (Unit {0})
  reconciled_ahc obs =
      if obs.state == "RESERVED"
      then (do modify (λ s. record s { phase = pre_ahc_execute_wal }); save)
      else (if obs.state == "IN_DOUBT"
          then (do
            modify (λ s. record s { phase = ahc_in_doubt; pre_execute_status_required = some true })
            save
            status self "AHC_IN_DOUBT_RECONCILED" [])
          else lift (raise_with "AHC_EFFECT_ALREADY_TERMINAL_CONFLICT" obs.state))

  unfoldable pub reconcile_ahc_answer : TrustedCorrelation → Result AhcObservation → Exec (Unit {0})
  unfolding reconciled_ahc
  reconcile_ahc_answer c (err exc) = blocked self "ahc_status" "AHC_RECONCILIATION_BLOCKED" exc
  reconcile_ahc_answer c (ok obs) = do
    lift (validate_ahc obs c "effect_status")
    modify (λ s. record s { last_ahc_status = some (stored_ahc obs) })
    reconciled_ahc obs

  unfoldable pub reconcile_ahc_begin : Exec (Unit {0})
  unfolding reconcile_ahc_answer
  reconcile_ahc_begin = do
    s ← get_state
    c ← lift (current_correlation self.service s)
    r ← ask ahc_status (λ h. self.peers.ahc_status h c) (λ rid. ahc_replied rid ahc_status)
    reconcile_ahc_answer c r
