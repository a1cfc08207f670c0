-- ===== src/Relay/Effect/Moh.antt =====
-- The MOH part of src/dger/gen4_effect.py: `_handle_moh`, `_status_before_execute`,
-- `_execute_moh`, `_reconcile_moh` and `_report_moh_in_doubt`.
use Prim.Native.String.{◌++◌}
use dropbox_governed_executi.Prelude.{
  ◌+◌, String, true, false, ◌&&◌, none, some, [], ◌∷◌, ◌==◌, elem, if◌then◌else◌,
}
use dropbox_governed_executi.Result.{Exc, dger, other, Result, ok, err, raise, require, some_or}
use dropbox_governed_executi.Json.{str}
use dropbox_governed_executi.Platform.{Python, canonical_digest}
use dropbox_governed_executi.Contract.Types.{ahc_tool_id, TrustedCorrelation, MohObservation, Ack}
use dropbox_governed_executi.Contract.Dicts.{moh_asdict}
use dropbox_governed_executi.Contract.Evidence.{validate_ack}
use dropbox_governed_executi.Contract.Observations.{
  moh_safe, moh_nonterminal, moh_terminal as terminal_states, validate_moh,
}
use dropbox_governed_executi.Relay.State.{
  State, ahc_in_doubt, moh_reconcile, moh_in_doubt_ahc_pending, moh_in_doubt, moh_terminal,
  stored_moh, stored_ack, error_code, record_error, is_some_false, is_some,
}
use dropbox_governed_executi.Relay.History.{
  moh_execute, moh_status, ahc_note_in_doubt, moh_replied, ack_replied,
}
use dropbox_governed_executi.Relay.Exec.{
  Relay, Exec, Mem, lift, ◌>>=◌, ◌>>◌, get_state, modify, save, status, now, fault_point, ask,
}
use dropbox_governed_executi.Relay.Current.{current_correlation}
use dropbox_governed_executi.Relay.Effect.Ahc.{blocked}

module _ ⦃py : Python⦄ (self : Relay) where
  -- The four ways to go on from a valid observation, once it is recorded.
  unfoldable pub in_doubt_observed : MohObservation → Exec (Unit {0})
  in_doubt_observed obs = do
    modify (λ s. record s {
      moh_in_doubt_ever = true;
      moh_in_doubt_source = some "MOH_OBSERVATION";
      phase = moh_in_doubt_ahc_pending;
      moh_in_doubt_observation = some (stored_moh obs);
    })
    save
    status self "MOH_IN_DOUBT_AHC_PENDING" []

  unfoldable pub terminal_observed : MohObservation → Exec (Unit {0})
  terminal_observed obs = do
    t ← now self
    modify (λ s. record s {
      moh_terminal_observation = some (stored_moh obs);
      moh_terminal_digest = some (canonical_digest (moh_asdict (stored_moh obs)));
      phase = moh_terminal;
      times = record s.times { moh_terminal_at_utc = some t };
    })
    save
    status self "MOH_TERMINAL" (("terminal_state", str obs.state) ∷ [])
    fault_point self "after_moh_terminal"

  unfoldable pub nonterminal_observed : MohObservation → Exec (Unit {0})
  nonterminal_observed obs = do
    modify (λ s. record s { phase = moh_reconcile })
    save
    status self ("MOH_" ++ obs.state) []

  unfoldable pub safe_observed : MohObservation → Exec (Unit {0})
  safe_observed obs = do
    modify (λ s. record s {
      last_safe_moh_status = some (stored_moh obs);
      phase = ahc_in_doubt;
      pre_execute_status_required = some false;
    })
    save

  unfoldable pub handle_observed : MohObservation → Exec (Unit {0})
  unfolding in_doubt_observed terminal_observed nonterminal_observed safe_observed
  handle_observed obs =
      if obs.state == "IN_DOUBT"
      then in_doubt_observed obs
      else (if elem obs.state terminal_states
          then terminal_observed obs
          else (if elem obs.state moh_nonterminal
              then nonterminal_observed obs
              else safe_observed obs))

  -- `_handle_moh`
  unfoldable pub handle_moh : MohObservation → String → Exec (Unit {0})
  unfolding handle_observed
  handle_moh obs via = do
    s ← get_state
    c ← lift (current_correlation self.service s)
    lift (require (elem via ("status" ∷ "execute" ∷ [])) "MOH_OBSERVATION_SOURCE_INVALID")
    lift (validate_moh obs c via)
    modify (λ s. record s {
      last_moh_observation = some (stored_moh obs);
      last_moh_observed_via = some via;
    })
    handle_observed obs

  -- A status call that succeeded is counted, and its answer must be valid.
  unfoldable pub count_status_call : Exec (Unit {0})
  count_status_call = modify (λ s. record s { moh_status_calls = s.moh_status_calls + 1 })

  unfoldable pub status_before_answer : TrustedCorrelation → Result MohObservation → Exec (Unit {0})
  unfolding count_status_call
  status_before_answer c (err exc) = blocked self "moh_status" "MOH_STATUS_BLOCKED" exc
  status_before_answer c (ok obs) = do
    count_status_call
    lift (validate_moh obs c "status")
    if elem obs.state moh_safe
        then (do
          t ← now self
          modify (λ s. record s {
            last_safe_moh_status = some (stored_moh obs);
            times = record s.times { last_safe_moh_status_at_utc = some t };
            pre_execute_status_required = some false;
            phase = ahc_in_doubt;
          })
          save
          status self ("MOH_" ++ obs.state ++ "_SAFE_PROOF") [])
        else handle_moh obs "status"

  unfoldable pub status_before_execute : Exec (Unit {0})
  unfolding status_before_answer
  status_before_execute = do
    s ← get_state
    c ← lift (current_correlation self.service s)
    r ← ask moh_status (λ h. self.peers.moh_status h c) (λ rid. moh_replied rid moh_status)
    status_before_answer c r

  -- `except DgerGen4Error` around `_handle_moh`: the no-repeat latch.
  unfoldable pub latch_invalid_response : Exc → Exec (Unit {0})
  latch_invalid_response exc = do
    modify (record_error "moh_execute_response" exc)
    modify (λ s. record s {
      moh_in_doubt_ever = true;
      moh_in_doubt_source = some "INVALID_EXECUTE_RESPONSE";
      moh_execute_response_invalid = true;
    })
    save
    status self "MOH_EXECUTE_RESPONSE_INVALID" (("code", str (error_code exc)) ∷ [])

  unfoldable pub recover_execute : Result (Unit {0}) × Mem → Result (Unit {0}) × Mem
  unfolding latch_invalid_response
  recover_execute (ok u, x) = (ok u, x)
  recover_execute (err (dger code detail), x) = latch_invalid_response (dger code detail) x
  recover_execute (err (other name text), x) = (err (other name text), x)

  unfoldable pub execute_answer : Result MohObservation → Exec (Unit {0})
  unfolding recover_execute
  execute_answer (err exc) x = blocked self "moh_execute" "MOH_EXECUTE_AMBIGUOUS" exc x
  execute_answer (ok obs) x = recover_execute (handle_moh obs "execute" x)

  -- What is durable before the call can leave the relay.
  unfoldable pub execute_call_wal : Exec (Unit {0})
  execute_call_wal = do
    t ← now self
    modify (λ s. record s {
      moh_execute_call_may_have_happened = true;
      moh_execute_calls = s.moh_execute_calls + 1;
      phase = moh_reconcile;
      times = record s.times { moh_execute_call_wal_at_utc = some t };
      pre_execute_status_required = some true;
    })
    save
    status self "MOH_EXECUTE_CALL_WAL" []
    fault_point self "after_moh_execute_wal"

  unfoldable pub proven_execute : TrustedCorrelation → State → Exec (Unit {0})
  unfolding execute_call_wal execute_answer
  proven_execute c s = do
    lift (
        require (is_some_false s.pre_execute_status_required && is_some s.last_safe_moh_status)
          "MOH_STATUS_PROOF_REQUIRED")
    execute_call_wal
    r ← ask moh_execute (λ h. self.peers.moh_execute h c) (λ rid. moh_replied rid moh_execute)
    execute_answer r

  unfoldable pub execute_moh : Exec (Unit {0})
  unfolding proven_execute
  execute_moh = do
    s ← get_state
    c ← lift (current_correlation self.service s)
    if s.moh_in_doubt_ever
        then (do modify (λ s. record s { phase = moh_in_doubt }); save)
        else proven_execute c s

  unfoldable pub reconciled_safe : MohObservation → State → Exec (Unit {0})
  reconciled_safe obs s =
      if s.moh_in_doubt_ever
      then (do modify (λ s. record s { phase = moh_in_doubt }); save; status self "MOH_IN_DOUBT" [])
      else (do
        modify (λ s. record s {
          last_safe_moh_status = some (stored_moh obs);
          pre_execute_status_required = some false;
          phase = ahc_in_doubt;
        })
        save
        status self ("MOH_" ++ obs.state ++ "_RECONCILED_SAFE") [])

  unfoldable pub reconcile_moh_answer : TrustedCorrelation → Result MohObservation → Exec (Unit {0})
  unfolding count_status_call reconciled_safe
  reconcile_moh_answer c (err exc) = blocked self "moh_status" "MOH_RECONCILIATION_BLOCKED" exc
  reconcile_moh_answer c (ok obs) = do
    count_status_call
    lift (validate_moh obs c "status")
    s ← get_state
    if elem obs.state moh_safe then reconciled_safe obs s else handle_moh obs "status"

  unfoldable pub reconcile_moh : Exec (Unit {0})
  unfolding reconcile_moh_answer
  reconcile_moh = do
    s ← get_state
    c ← lift (current_correlation self.service s)
    r ← ask moh_status (λ h. self.peers.moh_status h c) (λ rid. moh_replied rid moh_status)
    reconcile_moh_answer c r

  unfoldable pub report_answer : String → Result Ack → Exec (Unit {0})
  report_answer digest (err exc) =
      blocked self "ahc_note_in_doubt" "AHC_IN_DOUBT_REPORT_BLOCKED" exc
  report_answer digest (ok ack) = do
    lift (validate_ack ack ahc_tool_id "note_moh_in_doubt")
    modify (λ s. record s {
      ahc_in_doubt_report_digest = some digest;
      ahc_in_doubt_report_ack = some (stored_ack ack);
      phase = moh_in_doubt;
      last_error = none;
    })
    save
    status self "MOH_IN_DOUBT" []

  -- `via not in {"status", "execute"}`, for a key that may be absent.
  unfoldable pub observed_via : State → Result String
  observed_via s = elim s.last_moh_observed_via [
    | none ↦ raise "MOH_OBSERVATION_SOURCE_INVALID"
    | some via ↦
        if elem via ("status" ∷ "execute" ∷ [])
        then ok via
        else raise "MOH_OBSERVATION_SOURCE_INVALID"
  ]

  unfoldable pub report_moh_in_doubt : Exec (Unit {0})
  unfolding report_answer observed_via
  report_moh_in_doubt = do
    s ← get_state
    c ← lift (current_correlation self.service s)
    lift (require s.moh_in_doubt_ever "MOH_IN_DOUBT_LATCH_MISSING")
    obs ← lift (some_or s.moh_in_doubt_observation (dger "MOH_IN_DOUBT_OBSERVATION_MISSING" ""))
    via ← lift (observed_via s)
    lift (validate_moh obs c via)
    let digest = canonical_digest (moh_asdict obs)
    r ←
        ask ahc_note_in_doubt (λ h. self.peers.ahc_note_in_doubt h c digest)
          (λ rid. ack_replied rid ahc_note_in_doubt)
    report_answer digest r
