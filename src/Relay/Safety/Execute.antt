-- ===== src/Relay/Safety/Execute.antt =====
-- `_execute_moh` keeps the invariant: the call leaves the relay only with its record durable, a
-- safe status behind it, and the latch clear.
use dropbox_governed_executi.Prelude.{
  String, ◌≡◌, refl, true, false, some, List, [], ◌∷◌, &&-true, eq_refl, Bool-cases, inl, inr,
}
use dropbox_governed_executi.Result.{Exc, dger, other, Result, ok, err, require-true}
use dropbox_governed_executi.Json.{Value}
use dropbox_governed_executi.Platform.{Python}
use dropbox_governed_executi.Contract.Types.{TrustedCorrelation, MohObservation}
use dropbox_governed_executi.Relay.State.{State, record_error, is_some_false}
use dropbox_governed_executi.Relay.History.{
  Call, status_written, fault, called, moh_replied, last_saved,
}
use dropbox_governed_executi.Relay.Exec.{Relay, Mem, save, status, fault_point}
use dropbox_governed_executi.Relay.Effect.Moh.{
  latch_invalid_response, recover_execute, execute_answer, execute_call_wal, proven_execute,
  execute_moh,
}
use dropbox_governed_executi.Relay.Safety.Trace.{may_execute, proven, begun, ended, latched}
use dropbox_governed_executi.Relay.Safety.Rules.{
  after_get, after_check, after_now, after_modify, after_ask, never, Keeps, Inv, Keeps-blocked,
  Keeps-saved_status, Keeps-save, state-Inv, moh_replied-Inv, Quiet-Inv, status_written-Quiet,
  fault-Quiet, after_run, Keeps-bind,
}
use dropbox_governed_executi.Relay.Safety.Moh.{IsKnown, handle_moh-Inv, answered_IsKnown}

-- The record of the call is durable, and all that the call needs is known.
pub record IsLogged ⦃py : Python⦄ (x : Mem) : Type 0 where
  pub inv : Inv x
  pub durable : last_saved x.state.dger_request_id x.history ≡ some x.state
  pub recorded : x.state.moh_execute_call_may_have_happened ≡ true
  pub unproven : may_execute x.state ≡ false
  pub unlatched : x.state.moh_in_doubt_ever ≡ false
  pub proof : proven x.state.dger_request_id x.history ≡ true
  pub after_ahc : begun x.state.dger_request_id x.history ≡ true

module _ ⦃py : Python⦄ where
  status_written-IsLogged :
      (x : Mem) (j code t : String) (extra : List (String × Value))
      → IsLogged x
      → IsLogged (record x { history = status_written j code t extra ∷ x.history })
  unfolding last_saved proven begun
  status_written-IsLogged x j code t extra l = record {
    inv = Quiet-Inv _ (status_written-Quiet j code t extra) x l.inv;
    durable = l.durable;
    recorded = l.recorded;
    unproven = l.unproven;
    unlatched = l.unlatched;
    proof = l.proof;
    after_ahc = l.after_ahc;
  }

  fault-IsLogged :
      (x : Mem) (name : String)
      → IsLogged x
      → IsLogged (record x { history = fault name ∷ x.history })
  unfolding last_saved proven begun
  fault-IsLogged x name l = record {
    inv = Quiet-Inv _ (fault-Quiet name) x l.inv;
    durable = l.durable;
    recorded = l.recorded;
    unproven = l.unproven;
    unlatched = l.unlatched;
    proof = l.proof;
    after_ahc = l.after_ahc;
  }

  -- Saving makes the dictionary in memory the durable one.
  saved-IsLogged :
      (x : Mem)
      → Inv x
      → x.state.moh_execute_call_may_have_happened ≡ true
      → may_execute x.state ≡ false
      → x.state.moh_in_doubt_ever ≡ false
      → proven x.state.dger_request_id x.history ≡ true
      → begun x.state.dger_request_id x.history ≡ true
      → IsLogged (save x).1
  unfolding save last_saved proven begun
  saved-IsLogged x i r u l p b = record {
    inv = Keeps-save x i;
    durable = rw eq_refl;
    recorded = r;
    unproven = u;
    unlatched = l;
    proof = p;
    after_ahc = b;
  }

  -- The call of `execute`, and its answer.
  asked_execute-Inv :
      (x : Mem) (r : Result MohObservation)
      → IsLogged x
      → Inv (record x {
        history =
            moh_replied x.state.dger_request_id Call.moh_execute r
            ∷ called x.state.dger_request_id Call.moh_execute
            ∷ x.history;
      })
  unfolding proven begun ended latched last_saved
  asked_execute-Inv x r l =
      moh_replied-Inv
        (record x { history = called x.state.dger_request_id Call.moh_execute ∷ x.history })
        (record {
          safe = (
            record {
              wal = (
                x.state,
                l.durable,
                record { recorded = l.recorded; unproven = l.unproven; unlatched = l.unlatched },
              );
              proof = l.proof;
              after_ahc = l.after_ahc;
            },
            l.inv.safe,
          );
          mem = record {
            own = refl;
            latch = l.inv.mem.latch;
            proof = never _ l.unproven;
            after_ahc = l.inv.mem.after_ahc;
            after_end = l.inv.mem.after_end;
          };
        })
        x.state.dger_request_id Call.moh_execute r

module _ ⦃py : Python⦄ (self : Relay) where
  Keeps-status-IsLogged :
      (code : String) (extra : List (String × Value)) → Keeps IsLogged (status self code extra)
  unfolding status
  Keeps-status-IsLogged code extra x l =
      elim (Bool-cases (self.result_dir_unsafe x.history x.state.dger_request_id)) [
        | inl u ↦ rw u l
        | inr u ↦ rw u (status_written-IsLogged x _ _ _ _ l)
      ]

  Keeps-fault_point-IsLogged : (name : String) → Keeps IsLogged (fault_point self name)
  unfolding fault_point
  Keeps-fault_point-IsLogged name x l = fault-IsLogged x name l

  -- The record of the call, whether it can be published or not.
  execute_call_wal-IsLogged :
      (x : Mem)
      → Inv x
      → x.state.moh_in_doubt_ever ≡ false
      → proven x.state.dger_request_id x.history ≡ true
      → begun x.state.dger_request_id x.history ≡ true
      → IsLogged (execute_call_wal self x).1
  unfolding execute_call_wal
  execute_call_wal-IsLogged x i l p b = after_now IsLogged x self _ λ t.
      after_modify IsLogged x _ _ (
        after_run save _ _ (λ y l. l)
          (saved-IsLogged _ (state-Inv _ x i refl (λ q. q) (never _ refl) (λ _. b) (never _ refl))
            refl refl l p b)
          λ _.
            Keeps-bind _ _ (Keeps-status-IsLogged "MOH_EXECUTE_CALL_WAL" [])
              (λ _. Keeps-fault_point-IsLogged "after_moh_execute_wal"))

  latch_invalid_response-Inv : (exc : Exc) → Keeps Inv (latch_invalid_response self exc)
  unfolding latch_invalid_response record_error
  latch_invalid_response-Inv exc x i =
      let y : Mem = record x { state = record_error "moh_execute_response" exc x.state } in
      after_modify Inv x _ _ (
        after_modify Inv y _ _ (
          Keeps-saved_status self _ _ _
            (state-Inv _ x i refl (λ _. refl) i.mem.proof i.mem.after_ahc i.mem.after_end)))

  recover_execute-Inv :
      (r : Result (Unit {0})) (x : Mem) → Inv x → Inv (recover_execute self (r, x)).1
  unfolding recover_execute
  recover_execute-Inv (ok u) x i = i
  recover_execute-Inv (err (dger code detail)) x i =
      latch_invalid_response-Inv (dger code detail) x i
  recover_execute-Inv (err (other name text)) x i = i

  execute_answer-Inv :
      (r : Result MohObservation) (x : Mem)
      → Inv x
      → ((obs : MohObservation) → r ≡ ok obs → IsKnown Call.moh_execute obs x)
      → Inv (execute_answer self r x).1
  unfolding execute_answer
  execute_answer-Inv (err exc) x i k = Keeps-blocked self _ _ exc x i
  execute_answer-Inv (ok obs) x i k =
      recover_execute-Inv _ _ (handle_moh-Inv self Call.moh_execute obs x i (k obs refl))

  asked_execute_IsKnown :
      (x : Mem) (r : Result MohObservation)
      → begun x.state.dger_request_id x.history ≡ true
      → (obs : MohObservation) → r ≡ ok obs
      → IsKnown Call.moh_execute obs (record x {
        history =
            moh_replied x.state.dger_request_id Call.moh_execute r
            ∷ called x.state.dger_request_id Call.moh_execute
            ∷ x.history;
      })
  unfolding begun
  asked_execute_IsKnown x r b obs e = rw e (
      answered_IsKnown self Call.moh_execute obs
        (record x { history = called x.state.dger_request_id Call.moh_execute ∷ x.history }) b)

  proven_execute-Inv :
      (c : TrustedCorrelation) (s : State) (x : Mem)
      → Inv x
      → x.state.moh_in_doubt_ever ≡ false
      → (is_some_false s.pre_execute_status_required ≡ true
          → proven x.state.dger_request_id x.history ≡ true)
      → begun x.state.dger_request_id x.history ≡ true
      → Inv (proven_execute self c s x).1
  unfolding proven_execute
  proven_execute-Inv c s x i l p b = after_check Inv x _ _ i λ _ h.
      let l' = execute_call_wal-IsLogged x i l (p (&&-true _ _ (require-true _ _ h)).0) b in
      after_run (execute_call_wal self) _ x (λ y ly. ly.inv) l'
        λ _ y ly. after_ask Inv y _ _ _ _ λ r.
          execute_answer-Inv r _ (asked_execute-Inv y r ly) (asked_execute_IsKnown y r ly.after_ahc)

  pub execute_moh-Inv :
      (x : Mem)
      → Inv x
      → (is_some_false x.state.pre_execute_status_required ≡ true
          → proven x.state.dger_request_id x.history ≡ true)
      → begun x.state.dger_request_id x.history ≡ true
      → Inv (execute_moh self x).1
  unfolding execute_moh
  execute_moh-Inv x i p b = after_get Inv x _ (
      after_check Inv x _ _ i λ c _. elim (Bool-cases x.state.moh_in_doubt_ever) [
        | inl l ↦ simp (l) (
            after_modify Inv x _ _
              (Keeps-save _ (state-Inv _ x i refl (λ q. q) (never _ refl) (λ _. b) (never _ refl))))
        | inr l ↦ simp (l) (proven_execute-Inv c x.state x i l p b)
      ])
