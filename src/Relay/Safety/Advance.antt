-- ===== src/Relay/Safety/Advance.antt =====
-- `_advance` keeps the invariant: each phase hands its method what that method needs.
use dropbox_governed_executi.Prelude.{
  ℕ, zero, suc, String, ◌≡◌, refl, sym, subst, ap, ◌∙◌, true, some, Bool-cases, Option-cases, inl,
  inr,
}
use dropbox_governed_executi.Platform.{Python}
use dropbox_governed_executi.Relay.State.{State, Phase, is_some_false}
use dropbox_governed_executi.Relay.History.{History, last_saved}
use dropbox_governed_executi.Relay.Exec.{Relay, Mem}
use dropbox_governed_executi.Relay.Driver.{
  is_resting, loaded, reload, is_blocked, transition, advance_rounds, advance,
}
use dropbox_governed_executi.Relay.Safety.Trace.{
  may_execute, needs_ahc, needs_terminal, begun, SaveOk, IsSafe,
}
use dropbox_governed_executi.Relay.Safety.Rules.{after_get, after_run, Keeps, Inv}
use dropbox_governed_executi.Relay.Safety.Ahc.{
  stage-Inv, write_pre_ahc_wal-Inv, begin_ahc-Inv, reconcile_ahc_begin-Inv,
}
use dropbox_governed_executi.Relay.Safety.Moh.{
  status_before_execute-Inv, reconcile_moh-Inv, report_moh_in_doubt-Inv,
}
use dropbox_governed_executi.Relay.Safety.Execute.{execute_moh-Inv}
use dropbox_governed_executi.Relay.Safety.Publish.{
  IsEnded, publish_terminal-Inv, accept_ahc_terminal-Inv, publish_chm-Inv,
}
use dropbox_governed_executi.Relay.Safety.Correlate.{correlate-Inv}
use dropbox_governed_executi.Relay.Safety.Disk.{last_saved-SaveOk}

module _ ⦃py : Python⦄ where
  -- What the phase of a dictionary says of the history.
  begun_in :
      (x : Mem) (p : Phase)
      → Inv x
      → x.state.phase ≡ p
      → needs_ahc p ≡ true
      → begun x.state.dger_request_id x.history ≡ true
  begun_in x p i e n = i.mem.after_ahc (ap needs_ahc e ∙ n)

  IsEnded-in :
      (x : Mem) (p : Phase)
      → Inv x
      → x.state.phase ≡ p
      → needs_ahc p ≡ true
      → needs_terminal p ≡ true
      → IsEnded x
  IsEnded-in x p i e n t = record {
    inv = i;
    after_ahc = begun_in x p i e n;
    after_end = i.mem.after_end (ap needs_terminal e ∙ t);
  }

  may_execute_in :
      (s : State) (p : Phase) → s.phase ≡ p → may_execute s ≡ may_execute (record s { phase = p })
  may_execute_in s p e = ap (λ (q : Phase). may_execute (record s { phase = q })) e

  -- A relay may go on from a durable dictionary.
  pub durable-Inv :
      (rid : String) (s : State) (h : History)
      → IsSafe h
      → last_saved rid h ≡ some s
      → Inv (record { state = s; history = h })
  durable-Inv rid s h f l =
      let o = last_saved-SaveOk rid s h f l in
      record { safe = f; mem = subst (λ k. SaveOk k s h) (sym o.own) o }

  -- A dictionary that is read back is in order.
  loaded-Inv : (x : Mem) → Inv x → Inv (record x { state = loaded x })
  unfolding loaded
  loaded-Inv x i = elim (Option-cases (last_saved x.state.dger_request_id x.history)) [
    | inl e ↦ rw (e, loaded) i
    | inr (s, e) ↦ rw (e, loaded) (durable-Inv x.state.dger_request_id s x.history i.safe e)
  ]

module _ ⦃py : Python⦄ (self : Relay) where
  transition-Inv :
      (p : Phase) (x : Mem) → Inv x → x.state.phase ≡ p → Inv (transition self x.state p x).1
  unfolding transition
  transition-Inv Phase.ingress_frozen x i e = correlate-Inv self x i
  transition-Inv Phase.correlated x i e = stage-Inv self x i
  transition-Inv Phase.moh_staged x i e = write_pre_ahc_wal-Inv self x i
  transition-Inv Phase.pre_ahc_execute_wal x i e = begin_ahc-Inv self x i
  transition-Inv Phase.ahc_begin_reconcile x i e = reconcile_ahc_begin-Inv self x i
  transition-Inv Phase.ahc_in_doubt x i e =
      let b = begun_in x Phase.ahc_in_doubt i e refl in
      elim (Bool-cases (is_some_false x.state.pre_execute_status_required)) [
        | inl q ↦ simp (q) (
            execute_moh-Inv self x i
              (λ r. i.mem.proof (may_execute_in x.state Phase.ahc_in_doubt e ∙ r)) b)
        | inr q ↦ simp (q) (status_before_execute-Inv self x i b)
      ]
  transition-Inv Phase.moh_reconcile x i e =
      reconcile_moh-Inv self x i (begun_in x Phase.moh_reconcile i e refl)
  transition-Inv Phase.moh_in_doubt_ahc_pending x i e =
      report_moh_in_doubt-Inv self x i (begun_in x Phase.moh_in_doubt_ahc_pending i e refl)
  transition-Inv Phase.moh_terminal x i e =
      publish_terminal-Inv self x (IsEnded-in x Phase.moh_terminal i e refl refl)
  transition-Inv Phase.ahc_terminal_pending x i e =
      accept_ahc_terminal-Inv self x (IsEnded-in x Phase.ahc_terminal_pending i e refl refl)
        (may_execute_in x.state Phase.ahc_terminal_pending e)
  transition-Inv Phase.chm_pending x i e =
      publish_chm-Inv self x (IsEnded-in x Phase.chm_pending i e refl refl)
        (may_execute_in x.state Phase.chm_pending e)
  transition-Inv Phase.moh_in_doubt x i e = i
  transition-Inv Phase.done x i e = i
  transition-Inv Phase.result_conflict x i e = i
  transition-Inv Phase.chm_result_conflict x i e = i
  transition-Inv (Phase.unknown text) x i e = i

  reload-Inv : Keeps Inv reload
  unfolding reload
  reload-Inv x i = loaded-Inv x i

  advance_rounds-Inv : (n : ℕ) → Keeps Inv (advance_rounds self n)
  unfolding advance_rounds
  advance_rounds-Inv zero x i = i
  advance_rounds-Inv (suc n) x i =
      after_run {P = Inv} {Q = Inv} reload _ x (λ y j. j) (reload-Inv x i)
        λ _ y j. after_get Inv y _ (elim (Bool-cases (is_resting y.state.phase)) [
          | inl r ↦ simp (r) j
          | inr r ↦ simp (r) (
              after_run {P = Inv} {Q = Inv} (transition self y.state y.state.phase) _ y (λ z k. k)
                (transition-Inv y.state.phase y j refl)
                λ _ z k.
                  after_run {P = Inv} {Q = Inv} _ _ z (λ w l. l) k
                    λ new w l. elim (Bool-cases (is_blocked y.state new)) [
                      | inl b ↦ rw b l
                      | inr b ↦ rw b (advance_rounds-Inv n w l)
                    ])
        ])

  pub advance-Inv : Keeps Inv (advance self)
  unfolding advance
  advance-Inv x i = advance_rounds-Inv 24 x i
