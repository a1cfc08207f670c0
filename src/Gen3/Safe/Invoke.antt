-- ===== src/Gen3/Safe/Invoke.antt =====
-- `_invoke_moh` of src/dger/relay_moh_invoke.py and `_reconcile_moh` of src/dger/relay_moh.py keep the
-- invariant: `execute` leaves the relay only after a write-ahead record, and not twice without an
-- answer of `status` between.
use dropbox_governed_executi.Prelude.{String, ◌≡◌, refl, true, false, Option, some, ◌∷◌}
use dropbox_governed_executi.Result.{Result, ok}
use dropbox_governed_executi.Json.{Fields}
use dropbox_governed_executi.Platform.{Python}
use dropbox_governed_executi.Relay.Safety.Rules.{never, stays_true}
use dropbox_governed_executi.Gen3.Values.{StrictJson}
use dropbox_governed_executi.Gen3.State.{Operation, execute, status}
use dropbox_governed_executi.Gen3.Exec.{
  moh_call, invoked, answered, Events, last_state, RelayV1, Memory, put_event, update, save_state,
}
use dropbox_governed_executi.Gen3.Moh.{count_moh_call, write_moh_intent, invoke_moh}
use dropbox_governed_executi.Gen3.Safe.Trace.{
  is_first, absent_since, reported_end, executed, doubted, attested_response, IsIntent,
}
use dropbox_governed_executi.Gen3.Safe.Rules.{
  Outcome, after_both, after_read, after_update, after_clock, after_invoke, Holds, state-Holds,
  same-Holds, save_state-Holds,
}
use dropbox_governed_executi.Gen3.Safe.Answer.{HoldsPast, IsReported, IsInvoked, moh_answer-Invoked}

-- Ready to call `execute`, once the dictionary is saved.
record IsIntended ⦃py : Python⦄ ⦃sj : StrictJson⦄ (execution_id : String) (x : Memory)
    : Type 0 where
  holds : Holds execution_id x
  intent : IsIntent x.state
  proof : executed x.events ≡ true → absent_since execution_id x.events ≡ true

-- Ready to call `execute`.
record IsReady ⦃py : Python⦄ ⦃sj : StrictJson⦄ (execution_id : String) (x : Memory) : Type 0 where
  intended : IsIntended execution_id x
  durable : last_state x.events ≡ some x.state

module _ ⦃py : Python⦄ ⦃sj : StrictJson⦄ {execution_id : String} where
  -- The write-ahead record.
  save_state-IsReady :
      (x : Memory) → IsIntended execution_id x → IsReady execution_id (save_state x).1
  unfolding save_state put_event last_state executed absent_since
  save_state-IsReady x i = record {
    intended = record { holds = save_state-Holds x i.holds; intent = i.intent; proof = i.proof };
    durable = refl;
  }

  -- What a call of `execute` leaves, whatever is answered.
  executed-Holds :
      (answer : Result Fields) (x : Memory)
      → IsReady execution_id x
      → Holds execution_id (record x {
        events = answered (moh_call execute) answer ∷ invoked (moh_call execute) ∷ x.events;
      })
  unfolding executed doubted last_state absent_since reported_end
  executed-Holds answer x r =
      let i = r.intended.holds in
      record {
        justified = (
          tt,
          (
            record { intent = (x.state, r.durable, r.intended.intent); proof = r.intended.proof },
            i.justified,
          ),
        );
        mem = record {
          own = i.mem.own;
          latch = i.mem.latch;
          past = λ _. r.intended.intent.past;
          recorded = λ _. r.intended.intent.recorded;
          fresh = never _ r.intended.intent.past;
          after_end = λ e. stays_true _ _ (i.mem.after_end e);
        };
      }

  asked-Holds :
      (answer : Result Fields) (x : Memory)
      → Holds execution_id x
      → Holds execution_id (record x {
        events = answered (moh_call status) answer ∷ invoked (moh_call status) ∷ x.events;
      })
  unfolding executed doubted last_state absent_since reported_end
  asked-Holds answer x i = record {
    justified = (tt, (tt, i.justified));
    mem = record {
      own = i.mem.own;
      latch = i.mem.latch;
      past = i.mem.past;
      recorded = i.mem.recorded;
      fresh = i.mem.fresh;
      after_end = λ e. stays_true _ _ (i.mem.after_end e);
    };
  }

  -- What an answer tells of its response.
  answered-IsReported :
      (op : Operation) (answer : Result Fields) (response : Fields) (moh_state : String)
      (h : Events)
      → attested_response execution_id op answer ≡ ok (response, moh_state)
      → IsReported execution_id op moh_state (answered (moh_call op) answer ∷ h)
  unfolding absent_since reported_end
  answered-IsReported execute answer response moh_state h e = record {
    ended = λ t. rw (e, t);
    absent = λ _. tt;
  }
  answered-IsReported status answer response moh_state h e = record {
    ended = λ t. rw (e, t);
    absent = λ t. rw (e, t);
  }

module _ ⦃py : Python⦄ ⦃sj : StrictJson⦄ {execution_id : String} (self : RelayV1) where
  write_moh_intent-IsIntended :
      (x : Memory)
      → Holds execution_id x
      → x.state.moh_in_doubt_ever ≡ false
      → (executed x.events ≡ true → absent_since execution_id x.events ≡ true)
      → IsIntended execution_id (write_moh_intent self execute x).1
  unfolding write_moh_intent update
  write_moh_intent-IsIntended x i u proof =
      after_clock (λ (p : Outcome (Unit {0})). IsIntended execution_id p.1) self _ x
        λ time. record {
          holds =
              state-Holds _ x i refl (λ p. p) (λ _. refl) (λ _. refl) (never _ refl) (never _ refl);
          intent = record { past = refl; recorded = refl; undoubted = u };
          proof = proof;
        }

  -- `execute` is called only from a dictionary without the latch, and again only after an answer
  -- that the execution is not found.
  pub invoke_execute-IsInvoked :
      (x : Memory)
      → Holds execution_id x
      → x.state.moh_in_doubt_ever ≡ false
      → (executed x.events ≡ true → absent_since execution_id x.events ≡ true)
      → IsInvoked execution_id execute (invoke_moh self execute x)
  unfolding invoke_moh count_moh_call
  invoke_execute-IsInvoked x i u proof =
      let Q : Outcome (Option (Fields × String)) → Type 0 = IsInvoked execution_id execute in
      after_update Q _ _ x (
        after_both (λ p. IsIntended execution_id p.1) Q (write_moh_intent self execute) _ _
          (write_moh_intent-IsIntended _ (same-Holds _ x i refl refl refl refl) u proof)
          (λ e z q. ((q.holds, q.intent.past), tt))
          λ _ z q.
            after_both (λ p. IsReady execution_id p.1) Q save_state _ z (save_state-IsReady z q)
              (λ e w r. ((r.intended.holds, r.intended.intent.past), tt))
              λ _ w r. after_read Q _ w (
                after_invoke Q self _ _ _ _ _ w λ answer.
                  moh_answer-Invoked self execute answer _ (executed-Holds answer w r)
                    r.intended.intent.past
                    (λ response moh_state e.
                      answered-IsReported execute answer response moh_state _ e)))

  pub invoke_status-IsInvoked :
      (x : Memory)
      → Holds execution_id x
      → is_first x.state.phase ≡ false
      → IsInvoked execution_id status (invoke_moh self status x)
  unfolding invoke_moh count_moh_call write_moh_intent
  invoke_status-IsInvoked x i f =
      let Q : Outcome (Option (Fields × String)) → Type 0 = IsInvoked execution_id status in
      after_update Q _ _ x (
        after_both (HoldsPast execution_id) Q (λ y. (ok tt, y)) _ _
          (same-Holds _ x i refl refl refl refl, f) (λ e z q. (q, tt))
          λ _ z q.
            after_both (HoldsPast execution_id) Q save_state _ z (save_state-Holds z q.0, q.1)
              (λ e w r. (r, tt))
              λ _ w r. after_read Q _ w (
                after_invoke Q self _ _ _ _ _ w λ answer.
                  moh_answer-Invoked self status answer _ (asked-Holds answer w r.0) r.1
                    (λ response moh_state e.
                      answered-IsReported status answer response moh_state _ e)))
