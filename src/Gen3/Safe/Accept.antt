-- ===== src/Gen3/Safe/Accept.antt =====
-- `_accept_new` of src/dger/relay_accept.py and `process_one` of src/dger/relay_v1.py keep the history
-- justified.
use dropbox_governed_executi.Prelude.{
  String, ◌≡◌, refl, true, false, ◌&&◌, Option, none, some, List, [], ◌∷◌, ◌==◌, Bool-cases, inl,
  inr,
}
use dropbox_governed_executi.Result.{dger, other, Result, ok, err}
use dropbox_governed_executi.Json.{Value, Fields}
use dropbox_governed_executi.Platform.{Python}
use dropbox_governed_executi.Primitives.Patterns.{is_id}
use dropbox_governed_executi.Relay.Exec.{Action, pure, lift, ◌>>=◌}
use dropbox_governed_executi.Relay.Safety.Rules.{never}
use dropbox_governed_executi.Gen3.Values.{StrictJson}
use dropbox_governed_executi.Gen3.Binding.{Projection}
use dropbox_governed_executi.Gen3.Stage.{IngressPackage}
use dropbox_governed_executi.Gen3.State.{execute, status, Accepted, RelayState}
use dropbox_governed_executi.Gen3.Exec.{
  GtgCall, moh_call, handoff_get, handoff_attach_result, handoff_resolve, state_saved, status_put,
  ingress_frozen, stage_materialized, result_put, invoked, answered, Events, last_state, RelayV1,
  put_event, save_state, announce,
}
use dropbox_governed_executi.Gen3.Advance.{
  advance_locked, with_state, advance_true, resume_found, resume_execution,
}
use dropbox_governed_executi.Gen3.Accept.{
  initial_state, resolve_operations, resolve_tool_binding, resolve_bindings, ask_handoff,
  freeze_package, begin_acceptance, accept_new, accepted_or_rejected, same_or_rejected,
  process_found, process_package,
}
use dropbox_governed_executi.Gen3.Safe.Trace.{
  is_execute_call, executed, doubted, IsTrue, MayCall, AllJustified,
}
use dropbox_governed_executi.Gen3.Safe.Rules.{after_both, Holds, save_state-Holds, status_put-Holds}
use dropbox_governed_executi.Gen3.Safe.Advance.{last_state-IsTrue, advance_locked-Holds}

-- Nothing is saved yet.
abbrev IsFresh : ⦃py : Python⦄ ⦃sj : StrictJson⦄ {A : Type 0} → String → Result A × Events → Type 0
IsFresh execution_id p = AllJustified execution_id p.1 × (last_state p.1 ≡ none)

-- Nothing is saved yet, and what is to be saved carries the name of the execution.
abbrev HasName : String → Result Accepted → Type 0
HasName execution_id (ok a) = a.execution_id ≡ execution_id
HasName execution_id (err e) = Unit

abbrev IsAccepted : ⦃py : Python⦄ ⦃sj : StrictJson⦄ → String → Result Accepted × Events → Type 0
IsAccepted execution_id p = IsFresh execution_id p × HasName execution_id p.0

-- The invariant, of a dictionary and a history.
abbrev HoldsWith :
    ⦃py : Python⦄ ⦃sj : StrictJson⦄ {A : Type 0} → String → RelayState → Result A × Events → Type 0
HoldsWith execution_id s p = Holds execution_id (record { state = s; events = p.1 })

abbrev IsBegun : ⦃py : Python⦄ ⦃sj : StrictJson⦄ → String → Result RelayState × Events → Type 0
IsBegun execution_id (ok s, h) = Holds execution_id (record { state = s; events = h })
IsBegun execution_id (err e, h) = AllJustified execution_id h

-- The history is justified.
abbrev pub IsJustifiedAfter :
    ⦃py : Python⦄ ⦃sj : StrictJson⦄ {A : Type 0} → String → Result A × Events → Type 0
IsJustifiedAfter execution_id p = AllJustified execution_id p.1

module _ ⦃py : Python⦄ ⦃sj : StrictJson⦄ where
  -- Before anything is saved, `execute` is not called.
  unsaved_call :
      (execution_id : String) (call : GtgCall) (h : Events)
      → MayCall execution_id call h
      → last_state h ≡ none
      → is_execute_call call ≡ false
  unsaved_call execution_id (moh_call execute) h m n = let (t, durable, intent) = m.intent in cc
  unsaved_call execution_id (moh_call status) h m n = refl
  unsaved_call execution_id handoff_get h m n = refl
  unsaved_call execution_id handoff_attach_result h m n = refl
  unsaved_call execution_id handoff_resolve h m n = refl

  fresh-executed :
      (execution_id : String) (h : Events)
      → AllJustified execution_id h
      → last_state h ≡ none
      → executed h ≡ false
  unfolding executed last_state
  fresh-executed execution_id [] j n = refl
  fresh-executed execution_id (state_saved s ∷ h) j n = cc
  fresh-executed execution_id (invoked call ∷ h) j n =
      rw (unsaved_call execution_id call h j.0 n) (fresh-executed execution_id h j.1 n)
  fresh-executed execution_id (answered call r ∷ h) j n = fresh-executed execution_id h j.1 n
  fresh-executed execution_id (status_put code time extra ∷ h) j n =
      fresh-executed execution_id h j.1 n
  fresh-executed execution_id (ingress_frozen i place ∷ h) j n = fresh-executed execution_id h j.1 n
  fresh-executed execution_id (stage_materialized place ∷ h) j n =
      fresh-executed execution_id h j.1 n
  fresh-executed execution_id (result_put raw ∷ h) j n = fresh-executed execution_id h j.1 n

module _ ⦃py : Python⦄ ⦃sj : StrictJson⦄ {execution_id : String} where
  -- The first dictionary of an execution.
  initial_state-IsTrue :
      (a : Accepted) (h : Events)
      → AllJustified execution_id h
      → last_state h ≡ none
      → a.execution_id ≡ execution_id
      → IsTrue execution_id (initial_state a) h
  unfolding initial_state doubted
  initial_state-IsTrue a h j n own =
      let e = fresh-executed execution_id h j n in
      record {
        own = own;
        latch = λ p. never _ (rw n refl) p;
        past = λ p. never _ e p;
        recorded = λ p. never _ e p;
        fresh = λ _. refl;
        after_end = never _ refl;
      }

  fresh_then :
      {A : Type 0} (act : Action Events A) (next : A → Action Events Accepted) (h : Events)
      → IsFresh execution_id (act h)
      → ((a : A) (g : Events)
          → AllJustified execution_id g
          → last_state g ≡ none
          → IsAccepted execution_id (next a g))
      → IsAccepted execution_id ((act >>= next) h)
  fresh_then act next h p k =
      after_both (IsFresh execution_id) (IsAccepted execution_id) act next h p (λ e g q. (q, tt))
        λ a g q. k a g q.0 q.1

  still-IsFresh :
      {A B : Type 0} (act : Action Events A) (next : A → Action Events B) (h : Events)
      → IsFresh execution_id (act h)
      → ((a : A) (g : Events)
          → AllJustified execution_id g
          → last_state g ≡ none
          → IsFresh execution_id (next a g))
      → IsFresh execution_id ((act >>= next) h)
  still-IsFresh act next h p k =
      after_both (IsFresh execution_id) (IsFresh execution_id) act next h p (λ e g q. q)
        λ a g q. k a g q.0 q.1

module _ ⦃py : Python⦄ ⦃sj : StrictJson⦄ (execution_id : String) (self : RelayV1) where
  resolve_operations-Fresh :
      (tool_id : String) (operations : List String) (resolved : Option Projection) (h : Events)
      → AllJustified execution_id h
      → last_state h ≡ none
      → IsFresh execution_id (resolve_operations self tool_id operations resolved h)
  unfolding resolve_operations
  resolve_operations-Fresh tool_id [] resolved h j n = (j, n)
  resolve_operations-Fresh tool_id (operation ∷ operations) resolved h j n =
      still-IsFresh _ _ h (j, n)
        λ projection g k m.
          still-IsFresh (lift _) _ g (k, m)
            λ next f i l. resolve_operations-Fresh tool_id operations next f i l

  resolve_tool_binding-Fresh :
      (tool_id : String) (operations : List String) (h : Events)
      → AllJustified execution_id h
      → last_state h ≡ none
      → IsFresh execution_id (resolve_tool_binding self tool_id operations h)
  unfolding resolve_tool_binding
  resolve_tool_binding-Fresh tool_id operations h j n =
      still-IsFresh (resolve_operations self tool_id operations none) _ h
        (resolve_operations-Fresh tool_id operations none h j n)
        λ found g k m. still-IsFresh (lift _) _ g (k, m) λ _ f i l. (i, l)

  resolve_bindings-Fresh :
      (envelope : Fields) (h : Events)
      → AllJustified execution_id h
      → last_state h ≡ none
      → IsFresh execution_id (resolve_bindings self envelope h)
  unfolding resolve_bindings
  resolve_bindings-Fresh envelope h j n =
      still-IsFresh (resolve_tool_binding self _ _) _ h (resolve_tool_binding-Fresh _ _ h j n)
        λ moh h₁ j₁ n₁.
          still-IsFresh (resolve_tool_binding self _ _) _ h₁
            (resolve_tool_binding-Fresh _ _ h₁ j₁ n₁)
            λ chm h₂ j₂ n₂.
              still-IsFresh (lift _) _ h₂ (j₂, n₂)
                λ tool_id h₃ j₃ n₃.
                  still-IsFresh (lift _) _ h₃ (j₃, n₃)
                    λ operation h₄ j₄ n₄.
                      still-IsFresh (resolve_tool_binding self _ _) _ h₄
                        (resolve_tool_binding-Fresh _ _ h₄ j₄ n₄)
                        λ consumer h₅ j₅ n₅.
                          still-IsFresh (lift _) _ h₅ (j₅, n₅) λ _ h₆ j₆ n₆. (j₆, n₆)

  ask_handoff-Fresh :
      (handoff_id : String) (h : Events)
      → AllJustified execution_id h
      → last_state h ≡ none
      → IsFresh execution_id (ask_handoff self handoff_id h)
  unfolding ask_handoff last_state
  ask_handoff-Fresh handoff_id h j n = ((tt, (tt, j)), n)

  begin_acceptance-IsAccepted :
      (pack : IngressPackage) (h : Events)
      → AllJustified execution_id h
      → last_state h ≡ none
      → pack.name ≡ execution_id
      → IsAccepted execution_id (begin_acceptance self pack h)
  unfolding begin_acceptance freeze_package last_state
  begin_acceptance-IsAccepted pack h j n own =
      fresh_then (freeze_package self pack) _ h (j, n)
        λ found h₁ j₁ n₁.
          fresh_then _ _ h₁ ((tt, j₁), n₁)
            λ _ h₂ j₂ n₂.
              fresh_then (lift _) _ h₂ (j₂, n₂)
                λ request h₃ j₃ n₃.
                  fresh_then (lift _) _ h₃ (j₃, n₃)
                    λ envelope h₄ j₄ n₄.
                      fresh_then (resolve_bindings self envelope) _ h₄
                        (resolve_bindings-Fresh envelope h₄ j₄ n₄)
                        λ bindings h₅ j₅ n₅.
                          fresh_then (lift _) _ h₅ (j₅, n₅)
                            λ handoff_id h₆ j₆ n₆.
                              fresh_then (ask_handoff self handoff_id) _ h₆
                                (ask_handoff-Fresh handoff_id h₆ j₆ n₆)
                                λ answer h₇ j₇ n₇.
                                  fresh_then (lift _) _ h₇ (j₇, n₇)
                                    λ attestation h₈ j₈ n₈.
                                      fresh_then (lift _) _ h₈ (j₈, n₈)
                                        λ digest h₉ j₉ n₉.
                                          fresh_then (lift _) _ h₉ (j₉, n₉)
                                            λ request_id g k m.
                                              fresh_then (λ h. (ok (self.utc h), h)) _ g (k, m)
                                                λ time f i l. ((i, l), own)

  -- An announcement keeps what is known of any dictionary.
  announce-Holds :
      (s : RelayState) (name code : String) (extra : List (String × Value)) (h : Events)
      → Holds execution_id (record { state = s; events = h })
      → Holds execution_id (record { state = s; events = (announce self name code extra h).1 })
  unfolding announce
  announce-Holds s name code extra h i =
      after_both (HoldsWith execution_id s) (HoldsWith execution_id s) _ _ h i (λ e g q. q)
        λ _ g q. status_put-Holds code _ extra (record { state = s; events = g }) q

  announce-IsJustifiedAfter :
      (name code : String) (extra : List (String × Value)) (h : Events)
      → AllJustified execution_id h
      → IsJustifiedAfter execution_id (announce self name code extra h)
  unfolding announce
  announce-IsJustifiedAfter name code extra h j =
      after_both (IsJustifiedAfter execution_id) (IsJustifiedAfter execution_id) _ _ h j
        (λ e g q. q) λ _ g q. (tt, q)

  saved_initial :
      (a : Accepted) (g : Events)
      → AllJustified execution_id g
      → IsTrue execution_id (initial_state a) g
      → Holds execution_id
          (record { state = initial_state a; events = state_saved (initial_state a) ∷ g })
  unfolding save_state put_event
  saved_initial a g j i =
      save_state-Holds (record { state = initial_state a; events = g })
        (record { justified = j; mem = i })

  accept_new-IsBegun :
      (pack : IngressPackage) (h : Events)
      → AllJustified execution_id h
      → last_state h ≡ none
      → pack.name ≡ execution_id
      → IsBegun execution_id (accept_new self pack h)
  unfolding accept_new
  accept_new-IsBegun pack h j n own =
      after_both (IsAccepted execution_id) (IsBegun execution_id) (begin_acceptance self pack) _ h
        (begin_acceptance-IsAccepted pack h j n own) (λ e g q. q.0.0)
        λ a g q.
          after_both (HoldsWith execution_id (initial_state a)) (IsBegun execution_id) _ _ g
            (saved_initial a g q.0.0 (initial_state-IsTrue a g q.0.0 q.0.1 q.1))
            (λ e f i. i.justified)
            λ _ f i.
              after_both (HoldsWith execution_id (initial_state a)) (IsBegun execution_id)
                (announce self pack.name "ACCEPTED" []) _ f
                (announce-Holds (initial_state a) pack.name _ _ f i) (λ e f i. i.justified)
                λ _ f i. i

  advance_true-IsJustifiedAfter :
      (s : RelayState) (h : Events)
      → Holds execution_id (record { state = s; events = h })
      → IsJustifiedAfter execution_id (advance_true self s h)
  unfolding advance_true with_state
  advance_true-IsJustifiedAfter s h i =
      after_both (IsJustifiedAfter execution_id) (IsJustifiedAfter execution_id)
        (with_state self s (advance_locked self)) _ h
        (advance_locked-Holds self (record { state = s; events = h }) i).justified (λ e g q. q)
        λ _ g q. q

  announced-IsJustifiedAfter :
      (name code : String) (extra : List (String × Value)) (h : Events)
      → AllJustified execution_id h
      → IsJustifiedAfter execution_id ((announce self name code extra >>= λ _. pure true) h)
  announced-IsJustifiedAfter name code extra h j =
      after_both (IsJustifiedAfter execution_id) (IsJustifiedAfter execution_id)
        (announce self name code extra) _ h (announce-IsJustifiedAfter name code extra h j)
        (λ e g q. q) λ _ g q. q

  accepted_or_rejected-IsJustifiedAfter :
      (name : String) (found : Result RelayState) (h : Events)
      → IsBegun execution_id (found, h)
      → IsJustifiedAfter execution_id (accepted_or_rejected self name found h)
  unfolding accepted_or_rejected
  accepted_or_rejected-IsJustifiedAfter name (ok s) h i = advance_true-IsJustifiedAfter s h i
  accepted_or_rejected-IsJustifiedAfter name (err (other n t)) h j = j
  accepted_or_rejected-IsJustifiedAfter name (err (dger code detail)) h j =
      announced-IsJustifiedAfter name _ _ h j

  same_or_rejected-IsJustifiedAfter :
      (name : String) (s : RelayState) (found : Result (Unit {0})) (h : Events)
      → Holds execution_id (record { state = s; events = h })
      → IsJustifiedAfter execution_id (same_or_rejected self name s found h)
  unfolding same_or_rejected
  same_or_rejected-IsJustifiedAfter name s (ok u) h i = advance_true-IsJustifiedAfter s h i
  same_or_rejected-IsJustifiedAfter name s (err (other n t)) h i = i.justified
  same_or_rejected-IsJustifiedAfter name s (err (dger code detail)) h i =
      elim (Bool-cases (code == "EXECUTION_ID_INTENT_CONFLICT")) [
        | inl e ↦ rw e (announced-IsJustifiedAfter name _ _ h i.justified)
        | inr e ↦ rw e (announced-IsJustifiedAfter name _ _ h i.justified)
      ]

  durable-Holds :
      (s : RelayState) (h : Events)
      → AllJustified execution_id h
      → last_state h ≡ some s
      → Holds execution_id (record { state = s; events = h })
  durable-Holds s h j l = record { justified = j; mem = last_state-IsTrue execution_id s h j l }

  process_found-IsJustifiedAfter :
      (found : Option RelayState) (pack : IngressPackage) (h : Events)
      → AllJustified execution_id h
      → last_state h ≡ found
      → pack.name ≡ execution_id
      → IsJustifiedAfter execution_id (process_found self found pack h)
  unfolding process_found
  process_found-IsJustifiedAfter none pack h j l own =
      accepted_or_rejected-IsJustifiedAfter pack.name _ _ (accept_new-IsBegun pack h j l own)
  process_found-IsJustifiedAfter (some s) pack h j l own =
      same_or_rejected-IsJustifiedAfter pack.name s _ h (durable-Holds s h j l)

  pub process_package-IsJustifiedAfter :
      (pack : IngressPackage) (h : Events)
      → AllJustified execution_id h
      → pack.name ≡ execution_id
      → IsJustifiedAfter execution_id (process_package self pack h)
  unfolding process_package
  process_package-IsJustifiedAfter pack h j own =
      elim (Bool-cases (is_id pack.name && pack.is_directory && pack.ready_exists)) [
        | inl e ↦ rw e (process_found-IsJustifiedAfter (last_state h) pack h j refl own)
        | inr e ↦ rw e j
      ]

  resume_found-IsJustifiedAfter :
      (found : Option RelayState) (h : Events)
      → AllJustified execution_id h
      → last_state h ≡ found
      → IsJustifiedAfter execution_id (resume_found self found h)
  unfolding resume_found with_state
  resume_found-IsJustifiedAfter none h j l = j
  resume_found-IsJustifiedAfter (some s) h j l =
      advance_true-IsJustifiedAfter s h (durable-Holds s h j l)

  pub resume_execution-IsJustifiedAfter :
      (name : String) (h : Events)
      → AllJustified execution_id h
      → IsJustifiedAfter execution_id (resume_execution self name h)
  unfolding resume_execution
  resume_execution-IsJustifiedAfter name h j = elim (Bool-cases (is_id name)) [
    | inl e ↦ rw e (resume_found-IsJustifiedAfter (last_state h) h j refl)
    | inr e ↦ rw e j
  ]
