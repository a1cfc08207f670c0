-- ===== src/Relay/Safety/Disk.antt =====
-- What a durable dictionary says is so at any later time, and so a relay may go on from it.
use dropbox_governed_executi.Prelude.{
  String, ◌≡◌, refl, sym, subst, ◌∙◌, true, false, ◌&&◌, &&-true, some, [], ◌∷◌, ◌==◌, eq_iff,
  Bool-cases, inl, inr,
}
use dropbox_governed_executi.Platform.{Python}
use dropbox_governed_executi.Relay.State.{State}
use dropbox_governed_executi.Relay.History.{
  Call, History, saved, status_written, fault, froze, indexed, published, called,
  correlation_replied, stage_replied, ahc_replied, moh_replied, ack_replied, last_saved,
}
use dropbox_governed_executi.Relay.Safety.Trace.{
  may_execute, is_execute, proven, begun, ended, latched, SaveOk, CallOk, IsSafe,
}
use dropbox_governed_executi.Relay.Safety.Rules.{
  latched-saved, stays_true, never, Quiet-SaveOk, status_written-Quiet, fault-Quiet, indexed-Quiet,
  correlation_replied-Quiet, stage_replied-Quiet, ack_replied-Quiet,
}

some-injective : {a b : State} → some a ≡ some b → a ≡ b
some-injective h = cc

absurd_test {ℓ} : {A : Type ℓ} (a b : String) → (a == b && false) ≡ true → A
absurd_test a b e = absurd (never _ refl (&&-true (a == b) false e).1)

module _ ⦃py : Python⦄ where
  -- A call of `execute` finds a durable dictionary that does not go on to another.
  execute-may_execute :
      (rid j : String) (op : Call) (s : State) (h : History)
      → CallOk j op h
      → last_saved rid h ≡ some s
      → (j == rid && is_execute op) ≡ true
      → may_execute s ≡ false
  execute-may_execute rid j Call.moh_execute s h c l e =
      let (t, durable, wal) = c.wal in
      let same : j ≡ rid = (eq_iff j rid).0 (&&-true _ _ e).0 in
      let at_rid : last_saved rid h ≡ some t = rw (← same) durable in
      let t-is-s : t ≡ s = some-injective (sym at_rid ∙ l) in rw (← t-is-s) wal.unproven
  execute-may_execute rid j Call.establish_correlation s h c l e = absurd_test j rid e
  execute-may_execute rid j Call.stage_moh s h c l e = absurd_test j rid e
  execute-may_execute rid j Call.ahc_begin s h c l e = absurd_test j rid e
  execute-may_execute rid j Call.ahc_status s h c l e = absurd_test j rid e
  execute-may_execute rid j Call.moh_status s h c l e = absurd_test j rid e
  execute-may_execute rid j Call.ahc_note_in_doubt s h c l e = absurd_test j rid e
  execute-may_execute rid j Call.ahc_accept_terminal s h c l e = absurd_test j rid e
  execute-may_execute rid j Call.chm_publish_terminal s h c l e = absurd_test j rid e

  saved_self :
      (rid : String) (t : State) (h : History) → SaveOk rid t h → SaveOk rid t (saved rid t ∷ h)
  unfolding proven begun ended
  saved_self rid t h o = record {
    own = o.own;
    latch = λ p. sym (latched-saved rid t h) ∙ p;
    proof = o.proof;
    after_ahc = o.after_ahc;
    after_end = o.after_end;
  }

  -- What the durable dictionary of a request says holds after every safe history.
  pub last_saved-SaveOk :
      (rid : String) (s : State) (h : History)
      → IsSafe h
      → last_saved rid h ≡ some s
      → SaveOk rid s h
  unfolding proven begun ended latched last_saved
  last_saved-SaveOk rid s [] f l = cc
  last_saved-SaveOk rid s (saved j t ∷ h) f l = elim (Bool-cases (j == rid)) [
    | inl e ↦
        let same : j ≡ rid = (eq_iff j rid).0 e in
        let t-is-s : t ≡ s = some-injective (rw e at l) in
        subst (λ k. SaveOk rid s (saved k t ∷ h)) (sym same)
          (subst (λ r. SaveOk rid r (saved rid t ∷ h)) t-is-s
            (saved_self rid t h (subst (λ k. SaveOk k t h) same f.0)))
    | inr e ↦
        let o = last_saved-SaveOk rid s h f.1 (rw e at l) in
        record {
          own = o.own;
          latch = λ p. o.latch (rw e at p);
          proof = o.proof;
          after_ahc = o.after_ahc;
          after_end = o.after_end;
        }
  ]
  last_saved-SaveOk rid s (status_written j code t extra ∷ h) f l =
      Quiet-SaveOk _ (status_written-Quiet j code t extra) rid s h (last_saved-SaveOk rid s h f.1 l)
  last_saved-SaveOk rid s (fault name ∷ h) f l =
      Quiet-SaveOk _ (fault-Quiet name) rid s h (last_saved-SaveOk rid s h f.1 l)
  last_saved-SaveOk rid s (froze j z ∷ h) f l =
      let o = last_saved-SaveOk rid s h f.1 l in
      record {
        own = o.own;
        latch = o.latch;
        proof = o.proof;
        after_ahc = o.after_ahc;
        after_end = o.after_end;
      }
  last_saved-SaveOk rid s (indexed name raw ∷ h) f l =
      Quiet-SaveOk _ (indexed-Quiet name raw) rid s h (last_saved-SaveOk rid s h f.1 l)
  last_saved-SaveOk rid s (published j raw ∷ h) f l =
      let o = last_saved-SaveOk rid s h f.1 l in
      record {
        own = o.own;
        latch = o.latch;
        proof = o.proof;
        after_ahc = o.after_ahc;
        after_end = o.after_end;
      }
  last_saved-SaveOk rid s (called j op ∷ h) f l =
      let o = last_saved-SaveOk rid s h f.1 l in
      record {
        own = o.own;
        latch = o.latch;
        proof = λ p. elim (Bool-cases (j == rid && is_execute op)) [
          | inl e ↦ never _ (execute-may_execute rid j op s h f.0 l e) p
          | inr e ↦ rw e (o.proof p)
        ];
        after_ahc = o.after_ahc;
        after_end = o.after_end;
      }
  last_saved-SaveOk rid s (correlation_replied j r ∷ h) f l =
      Quiet-SaveOk _ (correlation_replied-Quiet j r) rid s h (last_saved-SaveOk rid s h f.1 l)
  last_saved-SaveOk rid s (stage_replied j r ∷ h) f l =
      Quiet-SaveOk _ (stage_replied-Quiet j r) rid s h (last_saved-SaveOk rid s h f.1 l)
  last_saved-SaveOk rid s (ahc_replied j op r ∷ h) f l =
      let o = last_saved-SaveOk rid s h f.1 l in
      record {
        own = o.own;
        latch = o.latch;
        proof = o.proof;
        after_ahc = λ p. stays_true _ _ (o.after_ahc p);
        after_end = o.after_end;
      }
  last_saved-SaveOk rid s (moh_replied j op r ∷ h) f l =
      let o = last_saved-SaveOk rid s h f.1 l in
      record {
        own = o.own;
        latch = o.latch;
        proof = λ p. stays_true _ _ (o.proof p);
        after_ahc = o.after_ahc;
        after_end = λ p. stays_true _ _ (o.after_end p);
      }
  last_saved-SaveOk rid s (ack_replied j op r ∷ h) f l =
      Quiet-SaveOk _ (ack_replied-Quiet j op r) rid s h (last_saved-SaveOk rid s h f.1 l)
