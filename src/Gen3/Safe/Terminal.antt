-- ===== src/Gen3/Safe/Terminal.antt =====
-- `_resume_terminal_publication` and `_handle_moh_response` of src/dger/relay_moh_invoke.py keep the
-- invariant.
use dropbox_governed_executi.Prelude.{String, ◌≡◌, refl, true, elem, Bool-cases, inl, inr}
use dropbox_governed_executi.Json.{Value, Fields}
use dropbox_governed_executi.Platform.{Bytes, Python}
use dropbox_governed_executi.Primitives.Files.{Entry, absent, link, directory, special, regular}
use dropbox_governed_executi.Relay.Exec.{lift, ◌>>=◌}
use dropbox_governed_executi.Relay.Safety.Rules.{never}
use dropbox_governed_executi.Gen3.Values.{StrictJson}
use dropbox_governed_executi.Gen3.Response.{terminal_publishable, moh_unresolved}
use dropbox_governed_executi.Gen3.Exec.{
  result_put, last_state, RelayV1, Memory, Method, save_state, put_event, run_directory,
}
use dropbox_governed_executi.Gen3.Moh.{
  result_path, put_result, publish_result, resume_terminal_publication, handle_moh_response,
  keep_terminal,
}
use dropbox_governed_executi.Gen3.Safe.Trace.{
  is_after_end, absent_since, reported_end, executed, doubted,
}
use dropbox_governed_executi.Gen3.Safe.Rules.{
  Outcome, after_both, after_lift, after_read, after_update, after_clock, Holds, HoldsAfter,
  then_Holds, state-Holds, save_state-Holds, put_status-Holds,
}

-- The invariant, and the end has been reported.
abbrev pub HoldsAtEnd : ⦃py : Python⦄ ⦃sj : StrictJson⦄ {A : Type 0} → String → Outcome A → Type 0
HoldsAtEnd execution_id p = Holds execution_id p.1 × (is_after_end p.1.state.phase ≡ true)

module _ ⦃py : Python⦄ ⦃sj : StrictJson⦄ {execution_id : String} where
  pub at_end :
      {A B : Type 0} (act : Method A) (next : A → Method B) (x : Memory)
      → HoldsAtEnd execution_id (act x)
      → ((a : A) (z : Memory)
          → Holds execution_id z
          → is_after_end z.state.phase ≡ true
          → HoldsAtEnd execution_id (next a z))
      → HoldsAtEnd execution_id ((act >>= next) x)
  at_end act next x p k =
      after_both (HoldsAtEnd execution_id) (HoldsAtEnd execution_id) act next x p (λ e z q. q)
        λ a z q. k a z q.0 q.1

  result_put-Holds :
      (raw : Bytes) (x : Memory)
      → Holds execution_id x
      → is_after_end x.state.phase ≡ true
      → Holds execution_id (put_event (result_put raw) x).1
  unfolding put_event absent_since reported_end executed doubted last_state
  result_put-Holds raw x i e = record {
    justified = (i.mem.after_end e, i.justified);
    mem = record {
      own = i.mem.own;
      latch = i.mem.latch;
      past = i.mem.past;
      recorded = i.mem.recorded;
      fresh = i.mem.fresh;
      after_end = i.mem.after_end;
    };
  }

module _ ⦃py : Python⦄ ⦃sj : StrictJson⦄ {execution_id : String} (self : RelayV1) where
  -- A result that is there is left alone.
  put_result-HoldsAtEnd :
      (path : String) (e : Entry) (raw : Bytes) (x : Memory)
      → Holds execution_id x
      → is_after_end x.state.phase ≡ true
      → HoldsAtEnd execution_id (put_result self path e raw x)
  unfolding put_result
  put_result-HoldsAtEnd path absent raw x i t = (result_put-Holds raw x i t, t)
  put_result-HoldsAtEnd path link raw x i t = at_end (lift _) _ x (i, t) λ _ z j u. (j, u)
  put_result-HoldsAtEnd path directory raw x i t = at_end (lift _) _ x (i, t) λ _ z j u. (j, u)
  put_result-HoldsAtEnd path special raw x i t = at_end (lift _) _ x (i, t) λ _ z j u. (j, u)
  put_result-HoldsAtEnd path (regular mode size found) raw x i t =
      at_end (lift _) _ x (i, t) λ _ z j u. (j, u)

  publish_result-HoldsAtEnd :
      (value : Value) (x : Memory)
      → Holds execution_id x
      → is_after_end x.state.phase ≡ true
      → HoldsAtEnd execution_id (publish_result self value x)
  unfolding publish_result
  publish_result-HoldsAtEnd value x i t =
      at_end (lift _) _ x (i, t)
        λ _ y j u.
          at_end (run_directory self) _ y (j, u)
            λ _ z k v.
              at_end (λ x. put_result self (result_path self x) (self.result_at x.events) _ x) _ z
                (put_result-HoldsAtEnd (result_path self z) (self.result_at z.events) _ z k v)
                λ _ w l q. (l, q)

  pub resume_terminal_publication-Holds :
      (x : Memory)
      → Holds execution_id x
      → is_after_end x.state.phase ≡ true
      → HoldsAfter execution_id (resume_terminal_publication self x)
  unfolding resume_terminal_publication
  resume_terminal_publication-Holds x i t = after_read (HoldsAfter execution_id) _ x (
      after_lift (HoldsAfter execution_id) _ _ x (λ e. i)
        λ response _.
          after_lift (HoldsAfter execution_id) _ _ x (λ e. i)
            λ value _.
              after_both (HoldsAtEnd execution_id) (HoldsAfter execution_id)
                (publish_result self value) _ x (publish_result-HoldsAtEnd value x i t)
                (λ e z q. q.0)
                λ sha z q. after_update (HoldsAfter execution_id) _ _ z (
                  then_Holds save_state _ _
                    (save_state-Holds _ (
                      state-Holds _ z q.0 refl (λ p. p) (λ _. refl) q.0.mem.recorded (never _ refl)
                        (λ _. q.0.mem.after_end q.1)))
                    λ _ w j.
                      after_lift (HoldsAfter execution_id) _ _ w (λ e. j)
                        λ d _. put_status-Holds self _ _ w j))

  -- What a known response leaves. Its state names the end only if the end was reported.
  pub handle_moh_response-Holds :
      (response : Fields) (moh_state : String) (x : Memory)
      → Holds execution_id x
      → (elem moh_state terminal_publishable ≡ true → reported_end execution_id x.events ≡ true)
      → HoldsAfter execution_id (handle_moh_response self (response, moh_state) x)
  unfolding handle_moh_response keep_terminal
  handle_moh_response-Holds response moh_state x i ended =
      after_update (HoldsAfter execution_id) _ _ x
        (elim (Bool-cases (elem moh_state terminal_publishable)) [
          | inl t ↦ rw t (
              after_clock (HoldsAfter execution_id) self _ _ λ time.
                after_update (HoldsAfter execution_id) _ _ _ (
                  after_both (HoldsAtEnd execution_id) (HoldsAfter execution_id) save_state _ _
                    (
                      save_state-Holds _ (
                          state-Holds _ x i refl (λ p. p) (λ _. refl) i.mem.recorded (never _ refl)
                            (λ _. ended t)),
                      refl,
                    )
                    (λ e z q. q.0) λ _ z q. resume_terminal_publication-Holds z q.0 q.1))
          | inr t ↦ rw t (elim (Bool-cases (elem moh_state moh_unresolved)) [
            | inl d ↦ rw d (
                after_update (HoldsAfter execution_id) _ _ _ (
                  then_Holds save_state _ _
                    (save_state-Holds _ (
                      state-Holds _ x i refl (λ _. refl) (λ _. refl) i.mem.recorded (never _ refl)
                        (never _ refl)))
                    λ _ z j. put_status-Holds self _ _ z j))
            | inr d ↦ rw d (
                after_update (HoldsAfter execution_id) _ _ _ (
                  then_Holds save_state _ _
                    (save_state-Holds _ (
                      state-Holds _ x i refl (λ p. p) (λ _. refl) i.mem.recorded (never _ refl)
                        (never _ refl)))
                    λ _ z j. put_status-Holds self _ _ z j))
          ])
        ])
