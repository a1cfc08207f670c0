-- ===== src/Gen3/Safe/Chm.antt =====
-- `_publish_chm` of src/dger/relay_chm.py keeps the invariant: CHM hears only of a reported end.
use dropbox_governed_executi.Prelude.{
  String, ◌≡◌, refl, ◌∙◌, Bool, true, false, ◌||◌, List, ◌∷◌, ◌==◌, Bool-cases, inl, inr, arith,
  if◌then◌else◌,
}
use dropbox_governed_executi.Result.{Exc, dger, other, Result, ok, err}
use dropbox_governed_executi.Json.{Value, Fields, get, is_true}
use dropbox_governed_executi.Platform.{Python}
use dropbox_governed_executi.Relay.Exec.{pure, lift, ◌>>=◌}
use dropbox_governed_executi.Relay.Safety.Rules.{never, stays_true}
use dropbox_governed_executi.Gen3.Values.{StrictJson}
use dropbox_governed_executi.Gen3.State.{Stage, RelayState}
use dropbox_governed_executi.Gen3.Exec.{
  GtgCall, handoff_attach_result, handoff_resolve, invoked, answered, last_state, RelayV1, Memory,
  Method, update, put_event, save_state, run_directory, put_status,
}
use dropbox_governed_executi.Gen3.Chm.{
  is_publish_pending, is_attached, is_conflict, chm_answer, keep_chm_invocation, refused_attach,
  attach_result, resolve_handoff, publish_to_chm, publication_failed, caught_publication,
  try_publication, fixed_result, publish_digested, publish_handoff,
}
use dropbox_governed_executi.Gen3.Safe.Trace.{
  is_first, is_after_end, is_execute_call, absent_since, reported_end, executed, doubted, MayCall,
}
use dropbox_governed_executi.Gen3.Safe.Rules.{
  after_read, after_update, after_clock, after_invoke, Holds, HoldsAfter, state-Holds,
  save_state-Holds, status_put-Holds,
}
use dropbox_governed_executi.Gen3.Safe.Terminal.{HoldsAtEnd, at_end}

not_first : (p : Stage) → is_after_end p ≡ true → is_first p ≡ false
not_first p e = ground arith

-- The phases that `_publish_chm` goes on from.
publishes_after_end :
    (p : Stage) → (is_publish_pending p || is_attached p) ≡ true → is_after_end p ≡ true
publishes_after_end p e = ground arith

module _ ⦃py : Python⦄ ⦃sj : StrictJson⦄ {execution_id : String} where
  -- A change of the dictionary after the end.
  ending-Holds :
      (s : RelayState) (x : Memory)
      → Holds execution_id x
      → is_after_end x.state.phase ≡ true
      → s.acceptance.execution_id ≡ x.state.acceptance.execution_id
      → s.moh_in_doubt_ever ≡ x.state.moh_in_doubt_ever
      → s.moh_execute_may_have_happened ≡ x.state.moh_execute_may_have_happened
      → is_after_end s.phase ≡ true
      → Holds execution_id (record x { state = s })
  ending-Holds s x i t own latch may e =
      state-Holds s x i own (λ p. latch ∙ p) (λ _. not_first s.phase e)
        (λ p. rw may (i.mem.recorded p)) (never _ (not_first s.phase e)) (λ _. i.mem.after_end t)

  -- A changed dictionary that is saved.
  saved_change :
      {B : Type 0} (f : RelayState → RelayState) (next : Unit {0} → Method B) (x : Memory)
      → HoldsAtEnd execution_id (save_state (record x { state = f x.state }))
      → ((z : Memory)
          → Holds execution_id z
          → is_after_end z.state.phase ≡ true
          → HoldsAtEnd execution_id (next tt z))
      → HoldsAtEnd execution_id ((update f >>= λ _. save_state >>= next) x)
  saved_change f next x p k =
      after_update (HoldsAtEnd execution_id) f _ x (at_end save_state next _ p λ _ z. k z)

  put_status-AtEnd :
      (self : RelayV1) (code : String) (extra : List (String × Value)) (x : Memory)
      → Holds execution_id x
      → is_after_end x.state.phase ≡ true
      → HoldsAtEnd execution_id (put_status self code extra x)
  unfolding put_status put_event
  put_status-AtEnd self code extra x i t =
      at_end (run_directory self) _ x (i, t) λ a z j u. (status_put-Holds code _ extra z j, u)

  save_state-AtEnd :
      (x : Memory)
      → Holds execution_id x
      → is_after_end x.state.phase ≡ true
      → HoldsAtEnd execution_id (save_state x)
  unfolding save_state put_event
  save_state-AtEnd x i t = (save_state-Holds x i, t)

  -- What a call of CHM leaves, whatever is answered.
  asked_chm-Holds :
      (call : GtgCall) (answer : Result Fields) (x : Memory)
      → Holds execution_id x
      → MayCall execution_id call x.events
      → is_execute_call call ≡ false
      → Holds execution_id (record x { events = answered call answer ∷ invoked call ∷ x.events })
  unfolding executed doubted last_state absent_since reported_end
  asked_chm-Holds call answer x i may other_call = record {
    justified = (tt, (may, i.justified));
    mem = record {
      own = i.mem.own;
      latch = i.mem.latch;
      past = λ p. i.mem.past (rw other_call at p);
      recorded = λ p. i.mem.recorded (rw other_call at p);
      fresh = i.mem.fresh;
      after_end = λ e. stays_true _ _ (i.mem.after_end e);
    };
  }

module _ ⦃py : Python⦄ ⦃sj : StrictJson⦄ {execution_id : String} (self : RelayV1) where
  chm_answer-AtEnd :
      (answer : Result Fields) (operation ambiguous : String) (x : Memory)
      → Holds execution_id x
      → is_after_end x.state.phase ≡ true
      → HoldsAtEnd execution_id (chm_answer self answer operation ambiguous x)
  unfolding chm_answer keep_chm_invocation
  chm_answer-AtEnd answer operation ambiguous x i t =
      at_end (lift answer) _ x (i, t)
        λ wrapped y j u. after_update (HoldsAtEnd execution_id) _ _ y (
          at_end (lift _) _ _ (ending-Holds _ y j u refl refl refl u, u)
            λ result z k v. at_end (lift _) _ z (k, v) λ a w l q. (l, q))

  refused_attach-AtEnd :
      (code : String) (x : Memory)
      → Holds execution_id x
      → is_after_end x.state.phase ≡ true
      → HoldsAtEnd execution_id (refused_attach self code x)
  unfolding refused_attach
  refused_attach-AtEnd code x i t = elim (Bool-cases (code == "HANDOFF_RESULT_CONFLICT")) [
    | inr e ↦ rw e (i, t)
    | inl e ↦ rw e (
        saved_change _ _ x (save_state-AtEnd _ (ending-Holds _ x i t refl refl refl refl) refl)
          λ z j u.
            at_end (put_status self _ _) _ z (put_status-AtEnd self _ _ z j u) λ _ w k v. (k, v))
  ]

  attach_result-AtEnd :
      (handoff_id : String) (result_fields : Fields) (x : Memory)
      → Holds execution_id x
      → is_after_end x.state.phase ≡ true
      → HoldsAtEnd execution_id (attach_result self handoff_id result_fields x)
  unfolding attach_result
  attach_result-AtEnd handoff_id result_fields x i t =
      saved_change _ _ x (save_state-AtEnd _ (ending-Holds _ x i t refl refl refl t) t) λ y j u.
        after_invoke (HoldsAtEnd execution_id) self _ _ _ _ _ y λ answer.
          at_end (chm_answer self answer _ _) _ _
            (chm_answer-AtEnd answer _ _ _
              (asked_chm-Holds handoff_attach_result answer y j (j.mem.after_end u) refl) u)
            λ found z k v.
              saved_change _ _ z (save_state-AtEnd _ (ending-Holds _ z k v refl refl refl v) v)
                λ w l q. elim (Bool-cases (is_true (get found.0 "ok"))) [
                  | inr e ↦ rw e (refused_attach-AtEnd _ w l q)
                  | inl e ↦ rw e (
                      after_clock (HoldsAtEnd execution_id) self _ w λ time.
                        saved_change _ _ w
                          (save_state-AtEnd _ (ending-Holds _ w l q refl refl refl refl) refl)
                          λ u' m r.
                            at_end (put_status self _ _) _ u' (put_status-AtEnd self _ _ u' m r)
                              λ _ w' n s. (n, s))
                ]

  resolve_handoff-AtEnd :
      (handoff_id : String) (x : Memory)
      → Holds execution_id x
      → is_after_end x.state.phase ≡ true
      → HoldsAtEnd execution_id (resolve_handoff self handoff_id x)
  unfolding resolve_handoff
  resolve_handoff-AtEnd handoff_id x i t =
      after_invoke (HoldsAtEnd execution_id) self _ _ _ _ _ x λ answer.
        at_end (chm_answer self answer _ _) _ _
          (chm_answer-AtEnd answer _ _ _
            (asked_chm-Holds handoff_resolve answer x i (i.mem.after_end t) refl) t)
          λ found z k v.
            saved_change _ _ z (save_state-AtEnd _ (ending-Holds _ z k v refl refl refl v) v)
              λ w l q. elim (Bool-cases (is_true (get found.0 "ok"))) [
                | inr e ↦ rw e (l, q)
                | inl e ↦ rw e (
                    after_clock (HoldsAtEnd execution_id) self _ w λ time.
                      saved_change _ _ w
                        (save_state-AtEnd _ (ending-Holds _ w l q refl refl refl refl) refl)
                        λ y m r. after_read (HoldsAtEnd execution_id) _ y (
                          at_end (lift _) _ y (m, r)
                            λ d y₁ m₁ r₁.
                              at_end (lift _) _ y₁ (m₁, r₁)
                                λ sha y₂ m₂ r₂. put_status-AtEnd self _ _ y₂ m₂ r₂))
              ]

  resolve_if-AtEnd :
      (go_on : Bool) (handoff_id : String) (x : Memory)
      → Holds execution_id x
      → is_after_end x.state.phase ≡ true
      → HoldsAtEnd execution_id ((if go_on then resolve_handoff self handoff_id else pure tt) x)
  resolve_if-AtEnd true handoff_id x i t = resolve_handoff-AtEnd handoff_id x i t
  resolve_if-AtEnd false handoff_id x i t = (i, t)

  publish_to_chm-AtEnd :
      (handoff_id : String) (result_fields : Fields) (x : Memory)
      → Holds execution_id x
      → is_after_end x.state.phase ≡ true
      → HoldsAtEnd execution_id (publish_to_chm self handoff_id result_fields x)
  unfolding publish_to_chm
  publish_to_chm-AtEnd handoff_id result_fields x i t =
      after_read (HoldsAtEnd execution_id) _ x
        (elim (Bool-cases (is_publish_pending x.state.phase)) [
          | inl e ↦ simp (e) (
              at_end (attach_result self handoff_id result_fields) _ x
                (attach_result-AtEnd handoff_id result_fields x i t)
                λ go_on z j u. resolve_if-AtEnd go_on handoff_id z j u)
          | inr e ↦
              simp (e) (
                at_end (pure true) _ x (i, t)
                  λ go_on z j u. resolve_if-AtEnd go_on handoff_id z j u)
        ])

  publication_failed-AtEnd :
      (exc : Exc) (x : Memory)
      → Holds execution_id x
      → is_after_end x.state.phase ≡ true
      → HoldsAtEnd execution_id (publication_failed self exc x)
  unfolding publication_failed
  publication_failed-AtEnd (dger code detail) x i t =
      after_read (HoldsAtEnd execution_id) _ x (elim (Bool-cases (is_conflict x.state.phase)) [
        | inl e ↦ simp (e) (i, t)
        | inr e ↦ simp (e) (
            saved_change _ _ x (save_state-AtEnd _ (ending-Holds _ x i t refl refl refl t) t)
              λ z j u. put_status-AtEnd self _ _ z j u)
      ])
  publication_failed-AtEnd (other name text) x i t =
      saved_change _ _ x (save_state-AtEnd _ (ending-Holds _ x i t refl refl refl t) t)
        λ z j u. put_status-AtEnd self _ _ z j u

  caught_publication-AtEnd :
      (found : Result (Unit {0})) (x : Memory)
      → Holds execution_id x
      → is_after_end x.state.phase ≡ true
      → HoldsAtEnd execution_id (caught_publication self found x)
  unfolding caught_publication
  caught_publication-AtEnd (ok u) x i t = (i, t)
  caught_publication-AtEnd (err exc) x i t = publication_failed-AtEnd exc x i t

  try_publication-AtEnd :
      (handoff_id : String) (result_fields : Fields) (x : Memory)
      → Holds execution_id x
      → is_after_end x.state.phase ≡ true
      → HoldsAtEnd execution_id (try_publication self handoff_id result_fields x)
  unfolding try_publication
  try_publication-AtEnd handoff_id result_fields x i t =
      let q = publish_to_chm-AtEnd handoff_id result_fields x i t in
      caught_publication-AtEnd _ _ q.0 q.1

  publish_digested-AtEnd :
      (x : Memory)
      → Holds execution_id x
      → is_after_end x.state.phase ≡ true
      → HoldsAtEnd execution_id (publish_digested self x)
  unfolding publish_digested
  publish_digested-AtEnd x i t = after_read (HoldsAtEnd execution_id) _ x (
      at_end (lift (fixed_result self x.state)) _ x (i, t)
        λ result_fields y j u.
          saved_change _ _ y (save_state-AtEnd _ (ending-Holds _ y j u refl refl refl u) u)
            λ z k v. try_publication-AtEnd _ result_fields z k v)

  pub publish_handoff-Holds :
      (x : Memory) → Holds execution_id x → HoldsAfter execution_id (publish_handoff self x)
  unfolding publish_handoff
  publish_handoff-Holds x i =
      after_read (HoldsAfter execution_id) _ x
        (elim (Bool-cases (is_publish_pending x.state.phase || is_attached x.state.phase)) [
          | inr e ↦ simp (e) i
          | inl e ↦ simp (e) (publish_digested-AtEnd x i (publishes_after_end x.state.phase e)).0
        ])
