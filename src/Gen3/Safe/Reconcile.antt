-- ===== src/Gen3/Safe/Reconcile.antt =====
-- `_reconcile_moh` of src/dger/relay_moh.py keeps the invariant.
use dropbox_governed_executi.Prelude.{
  String, ◌≡◌, refl, true, false, Option, none, some, List, ◌==◌, Bool-cases, inl, inr,
}
use dropbox_governed_executi.Result.{ok}
use dropbox_governed_executi.Json.{Value, Fields}
use dropbox_governed_executi.Platform.{Python}
use dropbox_governed_executi.Relay.Exec.{◌>>=◌}
use dropbox_governed_executi.Relay.Safety.Rules.{never}
use dropbox_governed_executi.Gen3.Values.{StrictJson}
use dropbox_governed_executi.Gen3.Stage.{StagePlace}
use dropbox_governed_executi.Gen3.State.{
  Stage, accepted, stage_complete, reconcile, in_doubt, terminal, publish_pending, attached,
  conflict, done, Operation, execute, status,
}
use dropbox_governed_executi.Gen3.Exec.{
  stage_materialized, last_state, RelayV1, Memory, put_event, save_state, observe, run_directory,
  put_status,
}
use dropbox_governed_executi.Gen3.Moh.{
  invoke_moh, handle_if_known, execute_first, reconciled_status, reconcile_if_known, ask_status,
  complete_stage, check_stage, reconcile_phase,
}
use dropbox_governed_executi.Gen3.Safe.Trace.{
  is_first, absent_since, reported_end, executed, doubted,
}
use dropbox_governed_executi.Gen3.Safe.Rules.{
  Outcome, after_both, after_read, after_update, after_clock, Holds, HoldsAfter, then_Holds,
  state-Holds, save_state-Holds, status_put-Holds, put_status-Holds,
}
use dropbox_governed_executi.Gen3.Safe.Terminal.{handle_moh_response-Holds}
use dropbox_governed_executi.Gen3.Safe.Answer.{IsReported, IsInvoked, Reported}
use dropbox_governed_executi.Gen3.Safe.Invoke.{invoke_execute-IsInvoked, invoke_status-IsInvoked}

-- The invariant, in front of the first call of `execute`.
abbrev HoldsFirst : ⦃py : Python⦄ ⦃sj : StrictJson⦄ {A : Type 0} → String → Outcome A → Type 0
HoldsFirst execution_id p = Holds execution_id p.1 × (is_first p.1.state.phase ≡ true)

module _ ⦃py : Python⦄ ⦃sj : StrictJson⦄ {execution_id : String} (self : RelayV1) where
  handle_if_known-Holds :
      (op : Operation) (found : Option (Fields × String)) (x : Memory)
      → Holds execution_id x
      → Reported execution_id op (ok found) x.events
      → HoldsAfter execution_id (handle_if_known self found x)
  unfolding handle_if_known
  handle_if_known-Holds op none x i r = i
  handle_if_known-Holds op (some (response, moh_state)) x i r =
      handle_moh_response-Holds self response moh_state x i r.ended

  execute_and_handle-Holds :
      (x : Memory)
      → Holds execution_id x
      → x.state.moh_in_doubt_ever ≡ false
      → (executed x.events ≡ true → absent_since execution_id x.events ≡ true)
      → HoldsAfter execution_id ((invoke_moh self execute >>= handle_if_known self) x)
  execute_and_handle-Holds x i u proof =
      after_both (IsInvoked execution_id execute) (HoldsAfter execution_id)
        (invoke_moh self execute) _ x (invoke_execute-IsInvoked self x i u proof) (λ e z q. q.0.0)
        λ found z q. handle_if_known-Holds execute found z q.0.0 q.1

  -- The first call: `execute` has not been called.
  execute_first-Holds :
      (x : Memory)
      → Holds execution_id x
      → is_first x.state.phase ≡ true
      → HoldsAfter execution_id (execute_first self x)
  unfolding execute_first check_stage observe
  execute_first-Holds x i f =
      after_both (HoldsFirst execution_id) (HoldsAfter execution_id) (check_stage self) _ x (i, f)
        (λ e z q. q.0)
        λ _ z q.
          execute_and_handle-Holds z q.0 (q.0.mem.fresh q.1) λ e. never _ (q.0.mem.past e) q.1

  reconciled_status-Holds :
      (response : Fields) (moh_state : String) (x : Memory)
      → Holds execution_id x
      → IsReported execution_id status moh_state x.events
      → HoldsAfter execution_id (reconciled_status self (response, moh_state) x)
  unfolding reconciled_status
  reconciled_status-Holds response moh_state x i r =
      after_read (HoldsAfter execution_id) _ x (elim (Bool-cases (moh_state == "NOT_FOUND")) [
        | inr n ↦ rw n (handle_moh_response-Holds self response moh_state x i r.ended)
        | inl a ↦ rw a (elim (Bool-cases x.state.moh_in_doubt_ever) [
          | inl d ↦ simp (d) (
              after_update (HoldsAfter execution_id) _ _ x (
                then_Holds save_state _ _
                  (save_state-Holds _ (
                    state-Holds _ x i refl (λ p. p) (λ _. refl) i.mem.recorded (never _ refl)
                      (never _ refl)))
                  λ _ z j. put_status-Holds self _ _ z j))
          | inr d ↦ simp (d) (execute_and_handle-Holds x i d λ _. r.absent a)
        ])
      ])

  reconcile_if_known-Holds :
      (found : Option (Fields × String)) (x : Memory)
      → Holds execution_id x
      → Reported execution_id status (ok found) x.events
      → HoldsAfter execution_id (reconcile_if_known self found x)
  unfolding reconcile_if_known
  reconcile_if_known-Holds none x i r = i
  reconcile_if_known-Holds (some (response, moh_state)) x i r =
      reconciled_status-Holds response moh_state x i r

  ask_status-Holds :
      (x : Memory)
      → Holds execution_id x
      → is_first x.state.phase ≡ false
      → HoldsAfter execution_id (ask_status self x)
  unfolding ask_status
  ask_status-Holds x i f =
      after_both (IsInvoked execution_id status) (HoldsAfter execution_id) (invoke_moh self status)
        _ x (invoke_status-IsInvoked self x i f) (λ e z q. q.0.0)
        λ found z q. reconcile_if_known-Holds found z q.0.0 q.1

  materialized-First :
      (place : StagePlace) (x : Memory)
      → Holds execution_id x
      → is_first x.state.phase ≡ true
      → HoldsFirst execution_id (put_event (stage_materialized place) x)
  unfolding put_event absent_since reported_end executed doubted last_state
  materialized-First place x i f = (
    record {
      justified = (tt, i.justified);
      mem = record {
        own = i.mem.own;
        latch = i.mem.latch;
        past = i.mem.past;
        recorded = i.mem.recorded;
        fresh = i.mem.fresh;
        after_end = i.mem.after_end;
      };
    },
    f,
  )

  put_status-First :
      (code : String) (extra : List (String × Value)) (x : Memory)
      → Holds execution_id x
      → is_first x.state.phase ≡ true
      → HoldsFirst execution_id (put_status self code extra x)
  unfolding put_status put_event
  put_status-First code extra x i f =
      after_both (HoldsFirst execution_id) (HoldsFirst execution_id) (run_directory self) _ x (i, f)
        (λ e z q. q) λ a z q. (status_put-Holds code _ extra z q.0, q.1)

  complete_stage-First :
      (x : Memory)
      → Holds execution_id x
      → is_first x.state.phase ≡ true
      → HoldsFirst execution_id (complete_stage self x)
  unfolding complete_stage observe
  complete_stage-First x i f =
      after_both (HoldsFirst execution_id) (HoldsFirst execution_id) (observe _) _ x (i, f)
        (λ e z q. q)
        λ final z q.
          after_both (HoldsFirst execution_id) (HoldsFirst execution_id)
            (put_event (stage_materialized final)) _ z (materialized-First final z q.0 q.1)
            (λ e w r. r)
            λ _ w r. after_clock (HoldsFirst execution_id) self _ w λ time.
              after_update (HoldsFirst execution_id) _ _ w (
                after_both (HoldsFirst execution_id) (HoldsFirst execution_id) save_state _ _
                  (
                    save_state-Holds _ (
                        state-Holds _ w r.0 refl (λ p. p) (λ p. never _ (r.0.mem.past p) r.1)
                          r.0.mem.recorded (λ _. r.0.mem.fresh r.1) (never _ refl)),
                    refl,
                  )
                  (λ e v s. s) λ _ v s. put_status-First _ _ v s.0 s.1)

  -- `_reconcile_moh`, from the phase that the dictionary has.
  pub reconcile_phase-Holds :
      (phase : Stage) (x : Memory)
      → x.state.phase ≡ phase
      → Holds execution_id x
      → HoldsAfter execution_id (reconcile_phase self phase x)
  unfolding reconcile_phase
  reconcile_phase-Holds accepted x e i =
      after_both (HoldsFirst execution_id) (HoldsAfter execution_id) (complete_stage self) _ x
        (complete_stage-First x i (rw e refl)) (λ e z q. q.0) λ _ z q. execute_first-Holds z q.0 q.1
  reconcile_phase-Holds stage_complete x e i = execute_first-Holds x i (rw e refl)
  reconcile_phase-Holds reconcile x e i = ask_status-Holds x i (rw e refl)
  reconcile_phase-Holds in_doubt x e i = ask_status-Holds x i (rw e refl)
  reconcile_phase-Holds terminal x e i = i
  reconcile_phase-Holds publish_pending x e i = i
  reconcile_phase-Holds attached x e i = i
  reconcile_phase-Holds conflict x e i = i
  reconcile_phase-Holds done x e i = i
