-- ===== src/Gen3/Safe/Answer.antt =====
-- What `_invoke_moh` of src/dger/relay_moh_invoke.py makes of an answer keeps the invariant.
use dropbox_governed_executi.Prelude.{
  String, ◌≡◌, refl, subst, true, false, Option, some, List, ◌∷◌, ◌==◌, elem, Bool-cases,
  Option-cases, inl, inr,
}
use dropbox_governed_executi.Result.{Exc, dger, other, Result, ok, err}
use dropbox_governed_executi.Json.{Value, Fields}
use dropbox_governed_executi.Platform.{Python}
use dropbox_governed_executi.Contract.Types.{moh_tool_id}
use dropbox_governed_executi.Relay.Exec.{◌>>=◌}
use dropbox_governed_executi.Relay.Safety.Rules.{never}
use dropbox_governed_executi.Gen3.Values.{StrictJson}
use dropbox_governed_executi.Gen3.Attestation.{Attestation, invocation_attestation}
use dropbox_governed_executi.Gen3.Response.{terminal_publishable, unwrapped_result, moh_response}
use dropbox_governed_executi.Gen3.State.{Operation, execute, status, MohKeys, RelayState}
use dropbox_governed_executi.Gen3.Exec.{
  Events, state_saved, RelayV1, Memory, Method, put_event, save_state, run_directory, put_status,
}
use dropbox_governed_executi.Gen3.Moh.{
  operation_text, after_ambiguity, keep_attestation, keep_invocation, ambiguous_call,
  attested_answer, moh_answer,
}
use dropbox_governed_executi.Gen3.Safe.Trace.{
  is_first, is_after_end, absent_since, reported_end, attested_response,
}
use dropbox_governed_executi.Gen3.Safe.Rules.{
  Outcome, after_both, after_lift, after_read, after_update, Holds, state-Holds, same-Holds,
  save_state-Holds, status_put-Holds,
}

-- The invariant, and the first call of `execute` lies behind.
abbrev pub HoldsPast : ⦃py : Python⦄ ⦃sj : StrictJson⦄ {A : Type 0} → String → Outcome A → Type 0
HoldsPast execution_id p = Holds execution_id p.1 × (is_first p.1.state.phase ≡ false)

-- The answer that the execution is not found came from `status`, after the last `execute`.
abbrev pub IsAbsent : ⦃py : Python⦄ ⦃sj : StrictJson⦄ → String → Operation → Events → Type 0
IsAbsent execution_id execute h = Unit
IsAbsent execution_id status h = absent_since execution_id h ≡ true

-- What the history knows of a response.
pub record IsReported ⦃py : Python⦄ ⦃sj : StrictJson⦄ (execution_id : String) (op : Operation)
    (moh_state : String) (h : Events) : Type 0 where
  pub ended : elem moh_state terminal_publishable ≡ true → reported_end execution_id h ≡ true
  pub absent : (moh_state == "NOT_FOUND") ≡ true → IsAbsent execution_id op h

abbrev pub Reported :
    ⦃py : Python⦄ ⦃sj : StrictJson⦄
    → String
    → Operation
    → Result (Option (Fields × String))
    → Events
    → Type 0
Reported execution_id op (ok (some (response, moh_state))) h =
    IsReported execution_id op moh_state h
Reported execution_id op _ h = Unit

-- What a call of MOH leaves.
abbrev pub IsInvoked :
    ⦃py : Python⦄ ⦃sj : StrictJson⦄
    → String
    → Operation
    → Outcome (Option (Fields × String))
    → Type 0
IsInvoked execution_id op p = HoldsPast execution_id p × Reported execution_id op p.0 p.1.events

after_ambiguity-first : (s : RelayState) → is_first (after_ambiguity s) ≡ false
after_ambiguity-first s = elim (Bool-cases s.moh_in_doubt_ever) [
  | inl e ↦ simp (e)
  | inr e ↦ simp (e)
]

after_ambiguity-after_end : (s : RelayState) → is_after_end (after_ambiguity s) ≡ false
after_ambiguity-after_end s = elim (Bool-cases s.moh_in_doubt_ever) [
  | inl e ↦ simp (e)
  | inr e ↦ simp (e)
]

-- The parts of an attested response, put together.
module _ ⦃py : Python⦄ ⦃sj : StrictJson⦄ where
  attested_response-of-ok :
      (execution_id : String) (op : Operation) (wrapped : Fields) {result : Fields}
      {a : Attestation} {found : Fields × String}
      → unwrapped_result wrapped ≡ some result
      → invocation_attestation wrapped moh_tool_id (operation_text op) ≡ ok a
      → moh_response result execution_id ≡ ok found
      → attested_response execution_id op (ok wrapped) ≡ ok found
  unfolding attested_response
  attested_response-of-ok execution_id op wrapped r e m = rw (r, e) m

module _ ⦃py : Python⦄ ⦃sj : StrictJson⦄ {execution_id : String} where
  pub then_Past :
      {A B : Type 0} (Q : Outcome B → Type 0) (act : Method A) (next : A → Method B) (x : Memory)
      → HoldsPast execution_id (act x)
      → ((e : Exc) (z : Memory)
          → Holds execution_id z
          → is_first z.state.phase ≡ false
          → Q (err e, z))
      → ((a : A) (z : Memory)
          → Holds execution_id z
          → is_first z.state.phase ≡ false
          → Q (next a z))
      → Q ((act >>= next) x)
  then_Past Q act next x p raised returned =
      after_both (HoldsPast execution_id) Q act next x p (λ e z q. raised e z q.0 q.1)
        λ a z q. returned a z q.0 q.1

  put_status-Past :
      (self : RelayV1) (code : String) (extra : List (String × Value)) (x : Memory)
      → Holds execution_id x
      → is_first x.state.phase ≡ false
      → HoldsPast execution_id (put_status self code extra x)
  unfolding put_status put_event
  put_status-Past self code extra x i f =
      then_Past (HoldsPast execution_id) (run_directory self) _ x (i, f) (λ e z j g. (j, g))
        λ a z j g. (status_put-Holds code _ extra z j, g)

  ambiguous_call-Invoked :
      (self : RelayV1) (op : Operation) (keep : MohKeys → MohKeys) (code : String)
      (extra : List (String × Value)) (x : Memory)
      → Holds execution_id x
      → IsInvoked execution_id op (ambiguous_call self keep code extra x)
  unfolding ambiguous_call
  ambiguous_call-Invoked self op keep code extra x i =
      after_update (IsInvoked execution_id op) _ _ x (
        then_Past (IsInvoked execution_id op) save_state _ _
          (
            save_state-Holds _ (
                state-Holds _ x i refl (λ p. p) (λ _. after_ambiguity-first x.state) i.mem.recorded
                  (never _ (after_ambiguity-first x.state))
                  (never _ (after_ambiguity-after_end x.state))),
            after_ambiguity-first x.state,
          )
          (λ e z j f. ((j, f), tt))
          λ _ z j f.
            then_Past (IsInvoked execution_id op) (put_status self code extra) _ z
              (put_status-Past self code extra z j f) (λ e w k g. ((k, g), tt))
              λ _ w k g. ((k, g), tt))

  -- A saved dictionary tells nothing of the answers.
  saved_Reported :
      (op : Operation) (moh_state : String) (s : RelayState) (h : Events)
      → IsReported execution_id op moh_state h
      → IsReported execution_id op moh_state (state_saved s ∷ h)
  unfolding absent_since reported_end
  saved_Reported execute moh_state s h r = record { ended = r.ended; absent = r.absent }
  saved_Reported status moh_state s h r = record { ended = r.ended; absent = r.absent }

  keep_attestation-Past :
      (op : Operation) (a : Attestation) (x : Memory)
      → Holds execution_id x
      → is_first x.state.phase ≡ false
      → HoldsPast execution_id (save_state (record x { state = keep_attestation op a x.state }))
  unfolding keep_attestation save_state put_event
  keep_attestation-Past execute a x i f =
      (save_state-Holds _ (same-Holds _ x i refl refl refl refl), f)
  keep_attestation-Past status a x i f =
      (save_state-Holds _ (same-Holds _ x i refl refl refl refl), f)

  -- A response that is known was reported by the answer.
  attested_answer-Invoked :
      (self : RelayV1) (op : Operation) (result : Fields) (found : Result Attestation) (x : Memory)
      → Holds execution_id x
      → is_first x.state.phase ≡ false
      → ((a : Attestation) (response : Fields) (moh_state : String)
          → found ≡ ok a
          → moh_response result execution_id ≡ ok (response, moh_state)
          → IsReported execution_id op moh_state x.events)
      → IsInvoked execution_id op (attested_answer self op result found x)
  unfolding attested_answer
  attested_answer-Invoked self op result (err (dger code detail)) x i f known =
      ambiguous_call-Invoked self op _ _ _ x i
  attested_answer-Invoked self op result (err (other name text)) x i f known = ((i, f), tt)
  attested_answer-Invoked self op result (ok a) x i f known =
      after_update (IsInvoked execution_id op) _ _ x (
        after_both
          (λ p.
            HoldsPast execution_id p
            × ((response : Fields) (moh_state : String)
                → moh_response result execution_id ≡ ok (response, moh_state)
                → IsReported execution_id op moh_state p.1.events))
          (IsInvoked execution_id op) save_state _ _
          (
            keep_attestation-Past op a x i f,
            λ response moh_state m.
                saved_Reported op moh_state _ _ (known a response moh_state refl m),
          )
          (λ e z q. (q.0, tt))
          λ _ z q. after_read (IsInvoked execution_id op) _ z (
            after_lift (IsInvoked execution_id op) _ _ z (λ e. (q.0, tt))
              λ found m. (
                q.0,
                q.1 found.0 found.1 (subst (λ r. moh_response result r ≡ ok found) q.0.0.mem.own m),
              )))

  pub moh_answer-Invoked :
      (self : RelayV1) (op : Operation) (answer : Result Fields) (x : Memory)
      → Holds execution_id x
      → is_first x.state.phase ≡ false
      → ((response : Fields) (moh_state : String)
          → attested_response execution_id op answer ≡ ok (response, moh_state)
          → IsReported execution_id op moh_state x.events)
      → IsInvoked execution_id op (moh_answer self op answer x)
  unfolding moh_answer keep_invocation
  moh_answer-Invoked self op (err exc) x i f known = ambiguous_call-Invoked self op _ _ _ x i
  moh_answer-Invoked self op (ok wrapped) x i f known =
      after_update (IsInvoked execution_id op) _ _ x
        (elim (Option-cases (unwrapped_result wrapped)) [
          | inl n ↦
              rw n (ambiguous_call-Invoked self op _ _ _ _ (same-Holds _ x i refl refl refl refl))
          | inr (result, r) ↦ rw r (
              attested_answer-Invoked self op result _ _ (same-Holds _ x i refl refl refl refl) f
                λ a response moh_state e m.
                  known response moh_state (attested_response-of-ok _ op wrapped r e m))
        ])
