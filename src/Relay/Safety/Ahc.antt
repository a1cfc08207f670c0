-- ===== src/Relay/Safety/Ahc.antt =====
-- The staging and the AHC methods keep the invariant.
use dropbox_governed_executi.Prelude.{
  String, ◌≡◌, refl, Bool, true, false, ◌&&◌, ◌∷◌, elem, eq_refl, Bool-cases, inl, inr,
  if◌then◌else◌, ◌==◌,
}
use dropbox_governed_executi.Result.{Exc, Result, ok, err, require-eq-ok, ◌>>=◌ as ◌>>=ᵣ◌}
use dropbox_governed_executi.Platform.{Python}
use dropbox_governed_executi.Contract.Types.{
  TrustedCorrelation, StageReceipt, AhcObservation, ahc_tool_id,
}
use dropbox_governed_executi.Contract.Observations.{validate_ahc, ahc_states}
use dropbox_governed_executi.Primitives.Patterns.{is_hex64}
use dropbox_governed_executi.Relay.State.{record_error}
use dropbox_governed_executi.Relay.History.{Call, History, ahc_replied}
use dropbox_governed_executi.Relay.Exec.{Relay, Mem}
use dropbox_governed_executi.Relay.Effect.Ahc.{
  stage_answer, stage, write_pre_ahc_wal, begin_answer, begin_ahc, reconciled_ahc,
  reconcile_ahc_answer, reconcile_ahc_begin,
}
use dropbox_governed_executi.Relay.Safety.Trace.{begun, is_attested, ahc_answers, operation, is_ok}
use dropbox_governed_executi.Relay.Safety.Rules.{
  after_get, after_check, after_now, after_modify, after_ask, never, Keeps, Inv, Keeps-blocked,
  Keeps-saved_status, Keeps-saved_status_fault, Keeps-save, state-Inv, asked_stage, asked_ahc,
}

module _ ⦃py : Python⦄ where
  is_ok-of-ok : {A B : Type 0} (r : Result A) {b : B} → (r >>=ᵣ λ _. ok b) ≡ ok b → is_ok r ≡ true
  is_ok-of-ok (ok a) h = refl
  is_ok-of-ok (err e) h = cc

  -- An observation that passed its check is attested.
  validate_ahc-IsAttested :
      (obs : AhcObservation) (c : TrustedCorrelation) (op : Call)
      → validate_ahc obs c (operation op) ≡ ok tt
      → is_attested obs.invocation_evidence ahc_tool_id op ≡ true
  unfolding validate_ahc is_attested
  validate_ahc-IsAttested obs c op h =
      let h₁ =
        (require-eq-ok
          (obs.effect_reservation_id == c.ahc_effect_reservation_id
            && obs.gep_execution_id == c.gep_execution_id)
          "AHC_OBSERVATION_CORRELATION_MISMATCH" _ h).1 in
      let h₂ = (require-eq-ok (elem obs.state ahc_states) "AHC_OBSERVATION_STATE_INVALID" _ h₁).1 in
      is_ok-of-ok _
        (require-eq-ok (is_hex64 obs.observation_digest) "AHC_OBSERVATION_DIGEST_INVALID" _ h₂).1

module _ ⦃py : Python⦄ (self : Relay) where
  stage_answer-Inv :
      (c : TrustedCorrelation) (r : Result StageReceipt) → Keeps Inv (stage_answer self c r)
  unfolding stage_answer
  stage_answer-Inv c (err exc) x i = Keeps-blocked self _ _ exc x i
  stage_answer-Inv c (ok receipt) x i = after_get Inv x _ (
      after_check Inv x _ _ i λ _ _. after_now Inv x self _ λ t. after_modify Inv x _ _ (
        Keeps-saved_status_fault self _ _ _ _
          (state-Inv _ x i refl (λ p. p) (never _ refl) (never _ refl) (never _ refl))))

  pub stage-Inv : Keeps Inv (stage self)
  unfolding stage
  stage-Inv x i = after_get Inv x _ (
      after_check Inv x _ _ i
        λ c _. after_ask Inv x _ _ _ _ λ r. stage_answer-Inv c r _ (asked_stage x i r))

  pub write_pre_ahc_wal-Inv : Keeps Inv (write_pre_ahc_wal self)
  unfolding write_pre_ahc_wal
  write_pre_ahc_wal-Inv x i = after_now Inv x self _ λ t. after_modify Inv x _ _ (
      Keeps-saved_status_fault self _ _ _ _
        (state-Inv _ x i refl (λ p. p) (never _ refl) (never _ refl) (never _ refl)))

  begun-replied :
      (rid : String) (op : Call) (r : Result AhcObservation) (h : History)
      → ahc_answers op r ≡ true
      → begun rid (ahc_replied rid op r ∷ h) ≡ true
  unfolding begun
  begun-replied rid op r h a = rw (eq_refl, a)

  answers_in_doubt :
      (obs : AhcObservation) (c : TrustedCorrelation) (op : Call)
      → validate_ahc obs c (operation op) ≡ ok tt
      → (obs.state == "IN_DOUBT") ≡ true
      → ahc_answers op (ok obs) ≡ true
  answers_in_doubt obs c op v e = rw (e, validate_ahc-IsAttested obs c op v)

  passed : (b : Bool) (e : Exc) → (if b then ok (tt {0}) else err e) ≡ ok tt → b ≡ true
  passed true e h = refl
  passed false e h = cc

  begin_answer-Inv :
      (c : TrustedCorrelation) (r : Result AhcObservation) (x : Mem)
      → Inv x
      → (ahc_answers Call.ahc_begin r ≡ true → begun x.state.dger_request_id x.history ≡ true)
      → Inv (begin_answer self c r x).1
  unfolding begin_answer record_error
  begin_answer-Inv c (err exc) x i a =
      let y : Mem = record x { state = record_error "ahc_begin" exc x.state } in
      after_modify Inv x _ _ (
        after_modify Inv y _ _ (
          Keeps-saved_status self _ _ _
            (state-Inv _ x i refl (λ p. p) (never _ refl) (never _ refl) (never _ refl))))
  begin_answer-Inv c (ok obs) x i a = after_check Inv x _ _ i λ _ v. after_check Inv x _ _ i λ _ d.
      after_now Inv x self _ λ t. after_modify Inv x _ _ (
        Keeps-saved_status_fault self _ _ _ _ (
          state-Inv _ x i refl (λ p. p) (never _ refl)
            (λ _. a (answers_in_doubt obs c Call.ahc_begin v (passed _ _ d))) (never _ refl)))

  pub begin_ahc-Inv : Keeps Inv (begin_ahc self)
  unfolding begin_ahc
  begin_ahc-Inv x i = after_get Inv x _ (
      after_check Inv x _ _ i λ c _. after_ask Inv x _ _ _ _ λ r.
        begin_answer-Inv c r _ (asked_ahc x i Call.ahc_begin r refl tt)
          (begun-replied _ Call.ahc_begin r _))

  reconciled_ahc-Inv :
      (obs : AhcObservation) (x : Mem)
      → Inv x
      → ((obs.state == "IN_DOUBT") ≡ true → begun x.state.dger_request_id x.history ≡ true)
      → Inv (reconciled_ahc self obs x).1
  unfolding reconciled_ahc
  reconciled_ahc-Inv obs x i a = elim (Bool-cases (obs.state == "RESERVED")) [
    | inl e ↦ rw e (
        after_modify Inv x _ _ (
          Keeps-save _
            (state-Inv _ x i refl (λ p. p) (never _ refl) (never _ refl) (never _ refl))))
    | inr n ↦ rw n (elim (Bool-cases (obs.state == "IN_DOUBT")) [
      | inl e ↦ rw e (
          after_modify Inv x _ _ (
            Keeps-saved_status self _ _ _
              (state-Inv _ x i refl (λ p. p) (never _ refl) (λ _. a e) (never _ refl))))
      | inr e ↦ rw e i
    ])
  ]

  reconcile_ahc_answer-Inv :
      (c : TrustedCorrelation) (r : Result AhcObservation) (x : Mem)
      → Inv x
      → (ahc_answers Call.ahc_status r ≡ true → begun x.state.dger_request_id x.history ≡ true)
      → Inv (reconcile_ahc_answer self c r x).1
  unfolding reconcile_ahc_answer
  reconcile_ahc_answer-Inv c (err exc) x i a = Keeps-blocked self _ _ exc x i
  reconcile_ahc_answer-Inv c (ok obs) x i a = after_check Inv x _ _ i λ _ v.
      after_modify Inv x _ _ (
        reconciled_ahc-Inv obs _
          (state-Inv _ x i refl (λ p. p) i.mem.proof i.mem.after_ahc i.mem.after_end)
          (λ e. a (answers_in_doubt obs c Call.ahc_status v e)))

  pub reconcile_ahc_begin-Inv : Keeps Inv (reconcile_ahc_begin self)
  unfolding reconcile_ahc_begin
  reconcile_ahc_begin-Inv x i = after_get Inv x _ (
      after_check Inv x _ _ i λ c _. after_ask Inv x _ _ _ _ λ r.
        reconcile_ahc_answer-Inv c r _ (asked_ahc x i Call.ahc_status r refl tt)
          (begun-replied _ Call.ahc_status r _))
