-- ===== src/Relay/Safety/Moh.antt =====
-- The MOH methods keep the invariant.
use dropbox_governed_executi.Prelude.{
  ◌+◌, String, ◌≡◌, refl, true, false, some, ◌∷◌, elem, arith, eq_refl, Bool-cases, inl, inr, ◌==◌,
}
use dropbox_governed_executi.Result.{Result, ok, err, require-eq-ok, >>=-eq-ok}
use dropbox_governed_executi.Platform.{Python}
use dropbox_governed_executi.Primitives.Patterns.{is_hex64}
use dropbox_governed_executi.Contract.Types.{TrustedCorrelation, MohObservation, Ack, moh_tool_id}
use dropbox_governed_executi.Contract.Evidence.{validate_invocation_evidence}
use dropbox_governed_executi.Contract.Observations.{
  validate_moh, is_moh_state, optional_record_id, moh_safe, moh_nonterminal,
  moh_terminal as terminal_states,
}
use dropbox_governed_executi.Relay.State.{State}
use dropbox_governed_executi.Relay.History.{Call, called, moh_replied}
use dropbox_governed_executi.Relay.Exec.{Relay, Mem}
use dropbox_governed_executi.Relay.Effect.Moh.{
  in_doubt_observed, terminal_observed, nonterminal_observed, safe_observed, handle_observed,
  handle_moh, count_status_call, status_before_answer, status_before_execute, reconciled_safe,
  reconcile_moh_answer, reconcile_moh, report_answer, report_moh_in_doubt,
}
use dropbox_governed_executi.Relay.Safety.Trace.{
  proven, begun, ended, is_attested, moh_answers, operation, is_ok,
}
use dropbox_governed_executi.Relay.Safety.Rules.{
  after_get, after_check, after_now, after_modify, after_ask, never, Inv, Keeps-blocked,
  Keeps-saved_status, Keeps-saved_status_fault, Keeps-save, state-Inv, asked_moh, asked_ack,
}

module _ ⦃py : Python⦄ where
  is_ok-of-ok : {A : Type 0} (r : Result A) {b : A} → r ≡ ok b → is_ok r ≡ true
  is_ok-of-ok (ok a) h = refl
  is_ok-of-ok (err e) h = cc

  -- An observation that passed its check has a known state and is attested.
  pub validate_moh-IsAttested :
      (obs : MohObservation) (c : TrustedCorrelation) (op : Call)
      → validate_moh obs c (operation op) ≡ ok tt
      → (is_moh_state obs.state ≡ true)
        × (is_attested obs.invocation_evidence moh_tool_id op ≡ true)
  unfolding validate_moh is_attested
  validate_moh-IsAttested obs c op h =
      let h₁ =
        (require-eq-ok (obs.gep_execution_id == c.gep_execution_id) "MOH_EXECUTION_MISMATCH" _
          h).1 in
      let r = require-eq-ok (is_moh_state obs.state) "MOH_STATE_INVALID" _ h₁ in
      let (_, _, h₂) = >>=-eq-ok (optional_record_id obs.record_id) _ r.1 in
      let h₃ =
        (require-eq-ok (is_hex64 obs.evidence_digest) "MOH_EVIDENCE_DIGEST_INVALID" _ h₂).1 in
      let (e, valid, _) =
        >>=-eq-ok
          (validate_invocation_evidence obs.invocation_evidence (some moh_tool_id)
            (some (operation op)))
          _ h₃ in
      (r.0, is_ok-of-ok _ valid)

-- What the history must know before an observation is handled.
pub record IsKnown ⦃py : Python⦄ (op : Call) (obs : MohObservation) (x : Mem) : Type 0 where
  pub begun_before : begun x.state.dger_request_id x.history ≡ true
  pub safe_proves :
      moh_answers moh_safe op (ok obs) ≡ true → proven x.state.dger_request_id x.history ≡ true
  pub terminal_ends :
      moh_answers terminal_states op (ok obs) ≡ true
      → ended x.state.dger_request_id x.history ≡ true

-- A known state that is none of the others is a safe one.
safe_state :
    (s : String)
    → is_moh_state s ≡ true
    → (s == "IN_DOUBT") ≡ false
    → elem s terminal_states ≡ false
    → elem s moh_nonterminal ≡ false
    → elem s moh_safe ≡ true
safe_state s k d t n = ground arith

module _ ⦃py : Python⦄ (self : Relay) where
  handle_observed-Inv :
      (op : Call) (obs : MohObservation) (x : Mem)
      → Inv x
      → IsKnown op obs x
      → is_moh_state obs.state ≡ true
      → is_attested obs.invocation_evidence moh_tool_id op ≡ true
      → Inv (handle_observed self obs x).1
  unfolding handle_observed in_doubt_observed terminal_observed nonterminal_observed safe_observed
  handle_observed-Inv op obs x i k known att = elim (Bool-cases (obs.state == "IN_DOUBT")) [
    | inl d ↦ rw d (
        after_modify Inv x _ _ (
          Keeps-saved_status self _ _ _
            (state-Inv _ x i refl (λ _. refl) (never _ refl) (λ _. k.begun_before) (never _ refl))))
    | inr d ↦ rw d (elim (Bool-cases (elem obs.state terminal_states)) [
      | inl t ↦ rw t (
          after_now Inv x self _ λ _. after_modify Inv x _ _ (
            Keeps-saved_status_fault self _ _ _ _ (
              state-Inv _ x i refl (λ p. p) (never _ refl) (λ _. k.begun_before)
                (λ _. k.terminal_ends (rw (t, att))))))
      | inr t ↦ rw t (elim (Bool-cases (elem obs.state moh_nonterminal)) [
        | inl n ↦ rw n (
            after_modify Inv x _ _ (
              Keeps-saved_status self _ _ _ (
                state-Inv _ x i refl (λ p. p) (never _ refl) (λ _. k.begun_before) (never _ refl))))
        | inr n ↦ rw n (
            after_modify Inv x _ _ (
              Keeps-save _ (
                state-Inv _ x i refl (λ p. p)
                  (λ _. k.safe_proves (rw (safe_state obs.state known d t n, att)))
                  (λ _. k.begun_before) (never _ refl))))
      ])
    ])
  ]

  pub handle_moh-Inv :
      (op : Call) (obs : MohObservation) (x : Mem)
      → Inv x
      → IsKnown op obs x
      → Inv (handle_moh self obs (operation op) x).1
  unfolding handle_moh
  handle_moh-Inv op obs x i k = after_get Inv x _ (
      after_check Inv x _ _ i λ c _. after_check Inv x _ _ i λ _ _. after_check Inv x _ _ i λ _ v.
        after_modify Inv x _ _ (
          let (known, att) = validate_moh-IsAttested obs c op v in
          handle_observed-Inv op obs _
            (state-Inv _ x i refl (λ p. p) i.mem.proof i.mem.after_ahc i.mem.after_end)
            (record {
              begun_before = k.begun_before;
              safe_proves = k.safe_proves;
              terminal_ends = k.terminal_ends;
            })
            known att))

  -- What an answer leaves in the history, known or not.
  pub answered_IsKnown :
      (op : Call) (obs : MohObservation) (y : Mem)
      → begun y.state.dger_request_id y.history ≡ true
      → IsKnown op obs
          (record y { history = moh_replied y.state.dger_request_id op (ok obs) ∷ y.history })
  unfolding proven begun ended
  answered_IsKnown op obs y b = record {
    begun_before = b;
    safe_proves = λ a. rw (eq_refl, a);
    terminal_ends = λ a. rw (eq_refl, a);
  }

  -- `status_before_execute` and `reconcile_moh` go on from a counted call.
  counted-Inv :
      (x : Mem)
      → Inv x
      → Inv
          (record x { state = record x.state { moh_status_calls = x.state.moh_status_calls + 1 } })
  counted-Inv x i = state-Inv _ x i refl (λ p. p) i.mem.proof i.mem.after_ahc i.mem.after_end

  status_before_answer-Inv :
      (c : TrustedCorrelation) (r : Result MohObservation) (x : Mem)
      → Inv x
      → ((obs : MohObservation) → r ≡ ok obs → IsKnown Call.moh_status obs x)
      → Inv (status_before_answer self c r x).1
  unfolding status_before_answer count_status_call
  status_before_answer-Inv c (err exc) x i k = Keeps-blocked self _ _ exc x i
  status_before_answer-Inv c (ok obs) x i k =
      let j = counted-Inv x i in
      let known = k obs refl in
      after_modify Inv x _ _ (
        after_check Inv _ _ _ j λ _ v. elim (Bool-cases (elem obs.state moh_safe)) [
          | inl s ↦ rw s (
              after_now Inv _ self _ λ _. after_modify Inv _ _ _ (
                Keeps-saved_status self _ _ _ (
                  state-Inv _ x i refl (λ p. p)
                    (λ _.
                      known.safe_proves
                        (rw (s, (validate_moh-IsAttested obs c Call.moh_status v).1)))
                    (λ _. known.begun_before) (never _ refl))))
          | inr s ↦ rw s (
              handle_moh-Inv Call.moh_status obs _ j (record {
                begun_before = known.begun_before;
                safe_proves = known.safe_proves;
                terminal_ends = known.terminal_ends;
              }))
        ])

  -- What `ask` leaves of an answer of MOH to a status call.
  asked_status_IsKnown :
      (x : Mem) (r : Result MohObservation)
      → begun x.state.dger_request_id x.history ≡ true
      → (obs : MohObservation) → r ≡ ok obs
      → IsKnown Call.moh_status obs (record x {
        history =
            moh_replied x.state.dger_request_id Call.moh_status r
            ∷ called x.state.dger_request_id Call.moh_status
            ∷ x.history;
      })
  unfolding begun
  asked_status_IsKnown x r b obs e = rw e (
      answered_IsKnown Call.moh_status obs
        (record x { history = called x.state.dger_request_id Call.moh_status ∷ x.history }) b)

  pub status_before_execute-Inv :
      (x : Mem)
      → Inv x
      → begun x.state.dger_request_id x.history ≡ true
      → Inv (status_before_execute self x).1
  unfolding status_before_execute
  status_before_execute-Inv x i b = after_get Inv x _ (
      after_check Inv x _ _ i λ c _. after_ask Inv x _ _ _ _ λ r.
        status_before_answer-Inv c r _ (asked_moh x i Call.moh_status r refl tt)
          (asked_status_IsKnown x r b))

  reconciled_safe-Inv :
      (obs : MohObservation) (s : State) (x : Mem)
      → Inv x
      → s.moh_in_doubt_ever ≡ x.state.moh_in_doubt_ever
      → begun x.state.dger_request_id x.history ≡ true
      → proven x.state.dger_request_id x.history ≡ true
      → Inv (reconciled_safe self obs s x).1
  unfolding reconciled_safe
  reconciled_safe-Inv obs s x i e b p = elim (Bool-cases s.moh_in_doubt_ever) [
    | inl l ↦ rw l (
        after_modify Inv x _ _ (
          Keeps-saved_status self _ _ _
            (state-Inv _ x i refl (λ p. p) (never _ refl) (λ _. b) (never _ refl))))
    | inr l ↦ rw l (
        after_modify Inv x _ _ (
          Keeps-saved_status self _ _ _
            (state-Inv _ x i refl (λ p. p) (λ _. p) (λ _. b) (never _ refl))))
  ]

  reconcile_moh_answer-Inv :
      (c : TrustedCorrelation) (r : Result MohObservation) (x : Mem)
      → Inv x
      → ((obs : MohObservation) → r ≡ ok obs → IsKnown Call.moh_status obs x)
      → Inv (reconcile_moh_answer self c r x).1
  unfolding reconcile_moh_answer count_status_call
  reconcile_moh_answer-Inv c (err exc) x i k = Keeps-blocked self _ _ exc x i
  reconcile_moh_answer-Inv c (ok obs) x i k =
      let t : State = record x.state { moh_status_calls = x.state.moh_status_calls + 1 } in
      let j = counted-Inv x i in
      let known = k obs refl in
      after_modify Inv x _ _ (
        after_check Inv _ _ _ j λ _ v.
          after_get Inv _ _ (elim (Bool-cases (elem obs.state moh_safe)) [
            | inl s ↦ rw s (
                reconciled_safe-Inv obs t _ j refl known.begun_before
                  (known.safe_proves (rw (s, (validate_moh-IsAttested obs c Call.moh_status v).1))))
            | inr s ↦ rw s (
                handle_moh-Inv Call.moh_status obs _ j (record {
                  begun_before = known.begun_before;
                  safe_proves = known.safe_proves;
                  terminal_ends = known.terminal_ends;
                }))
          ]))

  pub reconcile_moh-Inv :
      (x : Mem)
      → Inv x
      → begun x.state.dger_request_id x.history ≡ true
      → Inv (reconcile_moh self x).1
  unfolding reconcile_moh
  reconcile_moh-Inv x i b = after_get Inv x _ (
      after_check Inv x _ _ i λ c _. after_ask Inv x _ _ _ _ λ r.
        reconcile_moh_answer-Inv c r _ (asked_moh x i Call.moh_status r refl tt)
          (asked_status_IsKnown x r b))

  report_answer-Inv :
      (digest : String) (r : Result Ack) (x : Mem)
      → Inv x
      → begun x.state.dger_request_id x.history ≡ true
      → Inv (report_answer self digest r x).1
  unfolding report_answer
  report_answer-Inv digest (err exc) x i b = Keeps-blocked self _ _ exc x i
  report_answer-Inv digest (ok ack) x i b = after_check Inv x _ _ i λ _ _. after_modify Inv x _ _ (
      Keeps-saved_status self _ _ _
        (state-Inv _ x i refl (λ p. p) (never _ refl) (λ _. b) (never _ refl)))

  pub report_moh_in_doubt-Inv :
      (x : Mem)
      → Inv x
      → begun x.state.dger_request_id x.history ≡ true
      → Inv (report_moh_in_doubt self x).1
  unfolding report_moh_in_doubt begun
  report_moh_in_doubt-Inv x i b = after_get Inv x _ (
      after_check Inv x _ _ i λ _ _. after_check Inv x _ _ i λ _ _. after_check Inv x _ _ i λ _ _.
        after_check Inv x _ _ i λ _ _. after_check Inv x _ _ i λ _ _.
          after_ask Inv x _ _ _ _
            λ r. report_answer-Inv _ r _ (asked_ack x i Call.ahc_note_in_doubt r refl tt) b)
