-- ===== src/Gen3/Safe/Advance.antt =====
-- `_advance_locked` and `resume_one` of src/dger/relay_v1.py keep the history justified.
use dropbox_governed_executi.Prelude.{
  String, ◌≡◌, refl, sym, ◌∙◌, true, false, some, [], ◌∷◌, Bool-cases, Option-cases, inl, inr,
  arith, if◌then◌else◌,
}
use dropbox_governed_executi.Result.{dger, other, Result, ok, err}
use dropbox_governed_executi.Platform.{Python}
use dropbox_governed_executi.Relay.Exec.{pure, ◌>>=◌}
use dropbox_governed_executi.Relay.Safety.Rules.{stays_true}
use dropbox_governed_executi.Gen3.Values.{StrictJson}
use dropbox_governed_executi.Gen3.State.{Stage, execute, status, RelayState}
use dropbox_governed_executi.Gen3.Exec.{
  GtgCall, moh_call, handoff_get, handoff_attach_result, handoff_resolve, state_saved, status_put,
  ingress_frozen, stage_materialized, result_put, invoked, answered, Events, last_state, RelayV1,
  Memory,
}
use dropbox_governed_executi.Gen3.Moh.{resume_terminal_publication}
use dropbox_governed_executi.Gen3.Advance.{
  is_finished, asks_moh, is_terminal, current_state, load_again, blocked_reconcile, try_reconcile,
  publish_phases, reconcile_and_publish, advance_locked,
}
use dropbox_governed_executi.Gen3.Safe.Trace.{
  is_first, is_after_end, is_execute_call, absent_since, reported_end, executed, doubted, IsTrue,
  MayCall, AllJustified,
}
use dropbox_governed_executi.Gen3.Safe.Rules.{
  after_read, after_update, Holds, HoldsAfter, then_Holds, same-Holds, saved_status-Holds,
}
use dropbox_governed_executi.Gen3.Safe.Terminal.{resume_terminal_publication-Holds}
use dropbox_governed_executi.Gen3.Safe.Reconcile.{reconcile_phase-Holds}
use dropbox_governed_executi.Gen3.Safe.Chm.{publish_handoff-Holds}

some-injective : {a b : RelayState} → some a ≡ some b → a ≡ b
some-injective h = cc

terminal_after_end : (p : Stage) → is_terminal p ≡ true → is_after_end p ≡ true
unfolding is_terminal
terminal_after_end p e = ground arith

module _ ⦃py : Python⦄ ⦃sj : StrictJson⦄ where
  -- A call of `execute` finds a durable dictionary that is past the first phases.
  call_past :
      (execution_id : String) (call : GtgCall) (s : RelayState) (h : Events)
      → MayCall execution_id call h
      → last_state h ≡ some s
      → is_execute_call call ≡ true
      → (is_first s.phase ≡ false) × (s.moh_execute_may_have_happened ≡ true)
  call_past execution_id (moh_call execute) s h m l e =
      let (t, durable, intent) = m.intent in
      let same : t ≡ s = some-injective (sym durable ∙ l) in
      rw (← same) (intent.past, intent.recorded)
  call_past execution_id (moh_call status) s h m l e = cc
  call_past execution_id handoff_get s h m l e = cc
  call_past execution_id handoff_attach_result s h m l e = cc
  call_past execution_id handoff_resolve s h m l e = cc

  -- What the durable dictionary says holds after every justified history.
  pub last_state-IsTrue :
      (execution_id : String) (s : RelayState) (h : Events)
      → AllJustified execution_id h
      → last_state h ≡ some s
      → IsTrue execution_id s h
  unfolding absent_since reported_end executed doubted last_state
  last_state-IsTrue execution_id s [] j l = cc
  last_state-IsTrue execution_id s (state_saved t ∷ h) j l =
      let same : t ≡ s = some-injective l in
      let i = j.0 in
      rw (← same) (record {
        own = i.own;
        latch = λ p. p;
        past = i.past;
        recorded = i.recorded;
        fresh = i.fresh;
        after_end = i.after_end;
      })
  last_state-IsTrue execution_id s (invoked call ∷ h) j l =
      let i = last_state-IsTrue execution_id s h j.1 l in
      elim (Bool-cases (is_execute_call call)) [
        | inl e ↦
            let p = call_past execution_id call s h j.0 l e in
            record {
              own = i.own;
              latch = i.latch;
              past = λ _. p.0;
              recorded = λ _. p.1;
              fresh = i.fresh;
              after_end = i.after_end;
            }
        | inr e ↦ record {
          own = i.own;
          latch = i.latch;
          past = λ p. i.past (rw e at p);
          recorded = λ p. i.recorded (rw e at p);
          fresh = i.fresh;
          after_end = i.after_end;
        }
      ]
  last_state-IsTrue execution_id s (answered call r ∷ h) j l =
      let i = last_state-IsTrue execution_id s h j.1 l in
      record {
        own = i.own;
        latch = i.latch;
        past = i.past;
        recorded = i.recorded;
        fresh = i.fresh;
        after_end = λ e. stays_true _ _ (i.after_end e);
      }
  last_state-IsTrue execution_id s (status_put code time extra ∷ h) j l =
      let i = last_state-IsTrue execution_id s h j.1 l in
      record {
        own = i.own;
        latch = i.latch;
        past = i.past;
        recorded = i.recorded;
        fresh = i.fresh;
        after_end = i.after_end;
      }
  last_state-IsTrue execution_id s (ingress_frozen i place ∷ h) j l =
      let i = last_state-IsTrue execution_id s h j.1 l in
      record {
        own = i.own;
        latch = i.latch;
        past = i.past;
        recorded = i.recorded;
        fresh = i.fresh;
        after_end = i.after_end;
      }
  last_state-IsTrue execution_id s (stage_materialized place ∷ h) j l =
      let i = last_state-IsTrue execution_id s h j.1 l in
      record {
        own = i.own;
        latch = i.latch;
        past = i.past;
        recorded = i.recorded;
        fresh = i.fresh;
        after_end = i.after_end;
      }
  last_state-IsTrue execution_id s (result_put raw ∷ h) j l =
      let i = last_state-IsTrue execution_id s h j.1 l in
      record {
        own = i.own;
        latch = i.latch;
        past = i.past;
        recorded = i.recorded;
        fresh = i.fresh;
        after_end = i.after_end;
      }

module _ ⦃py : Python⦄ ⦃sj : StrictJson⦄ {execution_id : String} (self : RelayV1) where
  -- The dictionary as it is on disk.
  current_state-IsTrue :
      (x : Memory) → Holds execution_id x → IsTrue execution_id (current_state x) x.events
  unfolding current_state
  current_state-IsTrue x i = elim (Option-cases (last_state x.events)) [
    | inl n ↦ rw n i.mem
    | inr (s, e) ↦ rw e (last_state-IsTrue execution_id s x.events i.justified e)
  ]

  load_again-Holds : (x : Memory) → Holds execution_id x → HoldsAfter execution_id (load_again x)
  unfolding load_again
  load_again-Holds x i = record { justified = i.justified; mem = current_state-IsTrue x i }

  blocked_reconcile-Holds :
      (found : Result (Unit {0})) (x : Memory)
      → Holds execution_id x
      → HoldsAfter execution_id (blocked_reconcile self found x)
  unfolding blocked_reconcile
  blocked_reconcile-Holds (ok u) x i = i
  blocked_reconcile-Holds (err (other name text)) x i = i
  blocked_reconcile-Holds (err (dger code detail)) x i =
      after_update (HoldsAfter execution_id) _ _ x
        (saved_status-Holds self _ _ _ _ (same-Holds _ x i refl refl refl refl) λ z j. j)

  try_reconcile-Holds :
      (x : Memory) → Holds execution_id x → HoldsAfter execution_id (try_reconcile self x)
  unfolding try_reconcile
  try_reconcile-Holds x i =
      blocked_reconcile-Holds _ _ (reconcile_phase-Holds self x.state.phase x refl i)

  resume_and_load-Holds :
      (x : Memory)
      → Holds execution_id x
      → is_after_end x.state.phase ≡ true
      → HoldsAfter execution_id ((resume_terminal_publication self >>= λ _. load_again) x)
  resume_and_load-Holds x i t =
      then_Holds (resume_terminal_publication self) _ x
        (resume_terminal_publication-Holds self x i t) λ _ z j. load_again-Holds z j

  publish_phases-Holds :
      (x : Memory) → Holds execution_id x → HoldsAfter execution_id (publish_phases self x)
  unfolding publish_phases
  publish_phases-Holds x i =
      after_read (HoldsAfter execution_id) _ x (elim (Bool-cases (is_terminal x.state.phase)) [
        | inl e ↦ simp (e) (
            then_Holds _ _ x (resume_and_load-Holds x i (terminal_after_end x.state.phase e))
              λ _ z j. publish_handoff-Holds self z j)
        | inr e ↦ simp (e) (then_Holds (pure tt) _ x i λ _ z j. publish_handoff-Holds self z j)
      ])

  reconcile_and_publish-Holds :
      (x : Memory) → Holds execution_id x → HoldsAfter execution_id (reconcile_and_publish self x)
  unfolding reconcile_and_publish
  reconcile_and_publish-Holds x i =
      then_Holds (try_reconcile self) _ x (try_reconcile-Holds x i) λ blocked z j.
        elim blocked
          as (λ b.
            HoldsAfter execution_id
              ((if b then pure tt else (load_again >>= λ _. publish_phases self)) z)) [
                | true ↦ j
                | false ↦
                    then_Holds load_again _ z (load_again-Holds z j)
                      λ _ w k. publish_phases-Holds w k
              ]

  pub advance_locked-Holds :
      (x : Memory) → Holds execution_id x → HoldsAfter execution_id (advance_locked self x)
  unfolding advance_locked
  advance_locked-Holds x i =
      after_read (HoldsAfter execution_id) _ x (elim (Bool-cases (is_finished x.state.phase)) [
        | inl e ↦ simp (e) i
        | inr e ↦ simp (e) (elim (Bool-cases (asks_moh x.state.phase)) [
          | inl a ↦ simp (a) (reconcile_and_publish-Holds x i)
          | inr a ↦ simp (a) (publish_phases-Holds x i)
        ])
      ])
