-- ===== src/Relay/Safety/Publish.antt =====
-- The methods after the end of an execution keep the invariant.
use dropbox_governed_executi.Prelude.{
  ◌+◌, String, ◌≡◌, refl, true, false, some, ◌∷◌, Bool-cases, inl, inr,
}
use dropbox_governed_executi.Result.{dger, other, Result, ok, err}
use dropbox_governed_executi.Json.{is_null}
use dropbox_governed_executi.Platform.{Bytes, Python}
use dropbox_governed_executi.Primitives.Files.{Entry, absent}
use dropbox_governed_executi.Contract.Types.{TrustedCorrelation, Ack}
use dropbox_governed_executi.Relay.State.{State, result_conflict, chm_result_conflict, stored_ack}
use dropbox_governed_executi.Relay.History.{ack_replied, called, Call, published, last_saved}
use dropbox_governed_executi.Relay.Exec.{Relay, Mem, emit, save}
use dropbox_governed_executi.Relay.Effect.Publish.{
  same_bytes, compare_result, place_result, publish_terminal, accept_answer, accept_call,
  accept_ahc_terminal, phase_after_ahc, chm_acknowledged, chm_answer, chm_call, publish_chm,
}
use dropbox_governed_executi.Relay.Safety.Trace.{
  may_execute, proven, begun, ended, latched, is_execute, CallOk,
}
use dropbox_governed_executi.Relay.Safety.Rules.{
  after_get, after_check, after_modify, after_ask, after_run, never, Keeps, Inv, Keeps-blocked,
  Keeps-saved_status, Keeps-saved_status_fault, Keeps-save, state-Inv, asked_ack,
}

-- The execution has ended, as the history knows.
pub record IsEnded ⦃py : Python⦄ (x : Mem) : Type 0 where
  pub inv : Inv x
  pub after_ahc : begun x.state.dger_request_id x.history ≡ true
  pub after_end : ended x.state.dger_request_id x.history ≡ true

module _ ⦃py : Python⦄ where
  -- A result may be published once the execution has ended.
  published-IsEnded :
      (x : Mem) (raw : Bytes)
      → IsEnded x
      → IsEnded (emit (published x.state.dger_request_id raw) x).1
  unfolding emit proven begun ended latched last_saved
  published-IsEnded x raw e = record {
    inv = record {
      safe = (e.after_end, e.inv.safe);
      mem = record {
        own = refl;
        latch = e.inv.mem.latch;
        proof = e.inv.mem.proof;
        after_ahc = e.inv.mem.after_ahc;
        after_end = e.inv.mem.after_end;
      };
    };
    after_ahc = e.after_ahc;
    after_end = e.after_end;
  }

  -- A dictionary in a phase after the end, with the latch as it was.
  phase-IsEnded :
      (t : State) (x : Mem)
      → IsEnded x
      → t.dger_request_id ≡ x.state.dger_request_id
      → (x.state.moh_in_doubt_ever ≡ true → t.moh_in_doubt_ever ≡ true)
      → may_execute t ≡ false
      → Inv (record x { state = t })
  phase-IsEnded t x e own latch still =
      state-Inv t x e.inv own latch (never _ still) (λ _. e.after_ahc) (λ _. e.after_end)

  save-IsEnded : Keeps IsEnded save
  unfolding save emit begun ended
  save-IsEnded x e = record {
    inv = Keeps-save x e.inv;
    after_ahc = e.after_ahc;
    after_end = e.after_end;
  }

module _ ⦃py : Python⦄ (self : Relay) where
  compare_result-IsEnded :
      (existing : Result Bytes) (raw : Bytes) → Keeps IsEnded (compare_result self existing raw)
  unfolding compare_result
  compare_result-IsEnded existing raw x e = after_check IsEnded x _ _ e λ found _.
      elim (Bool-cases (same_bytes found raw)) [
        | inl s ↦ rw s e
        | inr s ↦ rw s (
            let t : State = record x.state { phase = result_conflict } in
            after_modify IsEnded x _ _ (
              after_run {P = IsEnded} {Q = IsEnded} save _ (record x { state = t }) (λ y z. z)
                (save-IsEnded _ (record {
                  inv = phase-IsEnded t x e refl (λ p. p) refl;
                  after_ahc = e.after_ahc;
                  after_end = e.after_end;
                }))
                λ _ y z. z))
      ]

  place_result-IsEnded :
      (entry : Entry) (raw : Bytes) (x : Mem)
      → IsEnded x
      → IsEnded (place_result self entry x.state.dger_request_id raw x).1
  unfolding place_result
  place_result-IsEnded absent raw x e = published-IsEnded x raw e
  place_result-IsEnded Entry.link raw x e = compare_result-IsEnded _ raw x e
  place_result-IsEnded Entry.directory raw x e = compare_result-IsEnded _ raw x e
  place_result-IsEnded Entry.special raw x e = compare_result-IsEnded _ raw x e
  place_result-IsEnded (Entry.regular mode size found) raw x e = compare_result-IsEnded _ raw x e

  pub publish_terminal-Inv : (x : Mem) → IsEnded x → Inv (publish_terminal self x).1
  unfolding publish_terminal
  publish_terminal-Inv x e = after_get Inv x _ (
      after_check Inv x _ _ e.inv λ c _. after_check Inv x _ _ e.inv λ t _.
        after_check Inv x _ _ e.inv λ _ _.
          after_run {P = IsEnded} {Q = Inv} _ _ x (λ y z. z.inv) (place_result-IsEnded _ _ x e)
            λ _ y z.
              after_modify Inv y _ _
                (Keeps-saved_status_fault self _ _ _ _ (phase-IsEnded _ y z refl (λ p. p) refl)))

  -- The phase after the acknowledgement of AHC is one after the end.
  phase_after_ahc-may_execute :
      (c : TrustedCorrelation) (s : State)
      → may_execute (record s { phase = phase_after_ahc self c }) ≡ false
  unfolding phase_after_ahc
  phase_after_ahc-may_execute c s = elim (Bool-cases (is_null c.chm_handoff_id)) [
    | inl n ↦ rw n
    | inr n ↦ rw n
  ]

  accept_answer-Inv :
      (c : TrustedCorrelation) (r : Result Ack) (x : Mem)
      → IsEnded x
      → Inv (accept_answer self c r x).1
  unfolding accept_answer
  accept_answer-Inv c (err exc) x e = Keeps-blocked self _ _ exc x e.inv
  accept_answer-Inv c (ok ack) x e = after_check Inv x _ _ e.inv λ _ _. after_modify Inv x _ _ (
      Keeps-saved_status_fault self _ _ _ _ (
        phase-IsEnded _ x e refl (λ p. p)
          (phase_after_ahc-may_execute c
            (record x.state { ahc_terminal_ack = some (stored_ack ack) }))))

  -- A call whose answer proves nothing here, made after the end.
  asked_ack-IsEnded :
      (x : Mem) (op : Call) (r : Result Ack)
      → IsEnded x
      → is_execute op ≡ false
      → CallOk x.state.dger_request_id op x.history
      → IsEnded (record x {
        history =
            ack_replied x.state.dger_request_id op r
            ∷ called x.state.dger_request_id op
            ∷ x.history;
      })
  unfolding begun ended
  asked_ack-IsEnded x op r e n c = record {
    inv = asked_ack x e.inv op r n c;
    after_ahc = e.after_ahc;
    after_end = e.after_end;
  }

  accept_call-Inv :
      (c : TrustedCorrelation) (r : Result (String × String × String)) (x : Mem)
      → IsEnded x
      → Inv (accept_call self c r x).1
  unfolding accept_call
  accept_call-Inv c (err exc) x e = Keeps-blocked self _ _ exc x e.inv
  accept_call-Inv c (ok (digest, ref, sha)) x e = after_ask Inv x _ _ _ _ λ r.
      accept_answer-Inv c r _ (asked_ack-IsEnded x Call.ahc_accept_terminal r e refl e.after_end)

  -- A counter was raised and saved.
  count-IsEnded :
      (t : State) (x : Mem)
      → IsEnded x
      → t.dger_request_id ≡ x.state.dger_request_id
      → (x.state.moh_in_doubt_ever ≡ true → t.moh_in_doubt_ever ≡ true)
      → may_execute t ≡ false
      → IsEnded (record x { state = t })
  count-IsEnded t x e own latch still = record {
    inv = phase-IsEnded t x e own latch still;
    after_ahc = rw own e.after_ahc;
    after_end = rw own e.after_end;
  }

  pub accept_ahc_terminal-Inv :
      (x : Mem) → IsEnded x → may_execute x.state ≡ false → Inv (accept_ahc_terminal self x).1
  unfolding accept_ahc_terminal
  accept_ahc_terminal-Inv x e still =
      let t : State = record x.state { ahc_terminal_calls = x.state.ahc_terminal_calls + 1 } in
      after_get Inv x _ (
        after_check Inv x _ _ e.inv λ c _. after_modify Inv x _ _ (
          after_run {P = IsEnded} {Q = Inv} save _ (record x { state = t }) (λ y z. z.inv)
            (save-IsEnded _ (count-IsEnded t x e refl (λ p. p) still))
            λ _ y z. accept_call-Inv c _ y z))

  chm_acknowledged-Inv :
      (ack : Ack) (r : Result (Unit {0})) (x : Mem)
      → IsEnded x
      → Inv (chm_acknowledged self ack r x).1
  unfolding chm_acknowledged
  chm_acknowledged-Inv ack (err (other name text)) x e = e.inv
  chm_acknowledged-Inv ack (err (dger code detail)) x e = after_modify Inv x _ _ (
      after_run {P = Inv} {Q = Inv} save _ _ (λ y z. z)
        (Keeps-save _
          (phase-IsEnded (record x.state { phase = chm_result_conflict }) x e refl (λ p. p) refl))
        λ _ y z. z)
  chm_acknowledged-Inv ack (ok u) x e =
      after_modify Inv x _ _
        (Keeps-saved_status self _ _ _ (phase-IsEnded _ x e refl (λ p. p) refl))

  chm_answer-Inv : (r : Result Ack) (x : Mem) → IsEnded x → Inv (chm_answer self r x).1
  unfolding chm_answer
  chm_answer-Inv (err exc) x e = Keeps-blocked self _ _ exc x e.inv
  chm_answer-Inv (ok ack) x e = chm_acknowledged-Inv ack _ x e

  chm_call-Inv :
      (c : TrustedCorrelation) (r : Result (String × String × String)) (x : Mem)
      → IsEnded x
      → Inv (chm_call self c r x).1
  unfolding chm_call
  chm_call-Inv c (err exc) x e = Keeps-blocked self _ _ exc x e.inv
  chm_call-Inv c (ok (digest, ref, sha)) x e =
      after_ask Inv x _ _ _ _
        λ r. chm_answer-Inv r _ (asked_ack-IsEnded x Call.chm_publish_terminal r e refl e.after_end)

  pub publish_chm-Inv :
      (x : Mem) → IsEnded x → may_execute x.state ≡ false → Inv (publish_chm self x).1
  unfolding publish_chm
  publish_chm-Inv x e still =
      let t : State = record x.state { chm_publish_calls = x.state.chm_publish_calls + 1 } in
      after_get Inv x _ (
        after_check Inv x _ _ e.inv λ c _. elim (Bool-cases (is_null c.chm_handoff_id)) [
          | inl n ↦
              rw n (after_modify Inv x _ _ (Keeps-save _ (phase-IsEnded _ x e refl (λ p. p) refl)))
          | inr n ↦ rw n (
              after_modify Inv x _ _ (
                after_run {P = IsEnded} {Q = Inv} save _ (record x { state = t }) (λ y z. z.inv)
                  (save-IsEnded _ (count-IsEnded t x e refl (λ p. p) still))
                  λ _ y z. chm_call-Inv c _ y z))
        ])
