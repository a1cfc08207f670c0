-- ===== src/Relay/Safety/Runs.antt =====
-- `process_one`, `resume_one` and `scan_once` of src/dger/gen4_driver.py keep the history safe.
use dropbox_governed_executi.Prelude.{
  String, ◌≡◌, refl, subst, ap, ◌∙◌, Bool, true, false, not, ◌||◌, Option, none, some, List, [],
  ◌∷◌, ◌==◌, Bool-cases, inl, inr,
}
use dropbox_governed_executi.Result.{Exc, dger, other, Result, ok, err, ok-injective, Result-cases}
use dropbox_governed_executi.Platform.{Python}
use dropbox_governed_executi.Json.{Value}
use dropbox_governed_executi.Primitives.Patterns.{is_id}
use dropbox_governed_executi.Relay.State.{State, record_error}
use dropbox_governed_executi.Relay.History.{
  History, saved, fault, status_written, last_saved, last_frozen,
}
use dropbox_governed_executi.Relay.Exec.{
  Relay, Action, Exec, continue, ◌>>=◌, modify, emit, save, publish_status, status, fault_point,
  get_state, in_memory,
}
use dropbox_governed_executi.Relay.Ingress.{
  Package, Intake, transport_intent, record_event, freeze_onto, freeze, accepted_state,
  record_accepted, accept_onto, accept_frozen, intake_of,
}
use dropbox_governed_executi.Relay.Driver.{
  advance, record_rejection, reject, recover, intake_and_advance, process_one, resume_from,
  resume_one, process_all, resume_all, scan_once, sort_packages, durable_ids,
}
use dropbox_governed_executi.Relay.Safety.Trace.{latched, IsSafe}
use dropbox_governed_executi.Relay.Safety.Rules.{
  never, Inv, Keeps-bind, Quiet-Inv, status_written-Quiet, fault-Quiet, Keeps-save,
  Keeps-record_error,
}
use dropbox_governed_executi.Relay.Safety.Advance.{durable-Inv, advance-Inv}

-- What an action on the history keeps.
abbrev KeepsSafe : ⦃py : Python⦄ {A : Type 0} → Action History A → Type 0
KeepsSafe m = (h : History) → IsSafe h → IsSafe (m h).1

module _ ⦃py : Python⦄ {A B : Type 0} where
  continue-IsSafe :
      (r : Result A) (next : A → Action History B) (h : History)
      → IsSafe h
      → ((a : A) → r ≡ ok a → IsSafe (next a h).1)
      → IsSafe (continue r next h).1
  continue-IsSafe (ok a) next h f k = k a refl
  continue-IsSafe (err e) next h f k = f

  -- What follows a step may use what the step returned.
  then-IsSafe :
      (act : Action History A) (next : A → Action History B) (h : History)
      → IsSafe (act h).1
      → ((a : A) → (act h).0 ≡ ok a → IsSafe (next a (act h).1).1)
      → IsSafe ((act >>= next) h).1
  unfolding ◌>>=◌
  then-IsSafe act next h f k = continue-IsSafe (act h).0 next (act h).1 f k

module _ ⦃py : Python⦄ where
  -- A method that keeps the invariant keeps the history safe.
  in_memory-IsSafe :
      {A : Type 0} (s : State) (m : Exec A) (h : History)
      → Inv (m (record { state = s; history = h })).1
      → IsSafe (in_memory s m h).1
  unfolding in_memory
  in_memory-IsSafe s m h i = i.safe

  freeze_onto-IsSafe :
      (found : Option _) (pack : Package) (i : Intake) (rid : String)
      → KeepsSafe (freeze_onto found pack i rid)
  unfolding freeze_onto record_event
  freeze_onto-IsSafe (some f) pack i rid h s = then-IsSafe _ _ h s λ _ _. s
  freeze_onto-IsSafe none pack i rid h s = then-IsSafe _ _ h s λ _ _.
      then-IsSafe _ _ h (tt, s)
        λ _ _. then-IsSafe _ _ _ (tt, s) λ _ _. then-IsSafe _ _ _ (tt, s) λ _ _. (tt, (tt, s))

  freeze-IsSafe : (pack : Package) (rid : String) → KeepsSafe (freeze pack rid)
  unfolding freeze record_event
  freeze-IsSafe pack rid h s =
      then-IsSafe _ _ h (tt, s)
        λ _ _. then-IsSafe _ _ _ (tt, s) λ i _. freeze_onto-IsSafe _ pack i rid _ (tt, s)

-- What accepting a request leaves: a safe history, and a dictionary to go on from.
record IsAccepted ⦃py : Python⦄ (p : Result State × History) : Type 0 where
  pub safe : IsSafe p.1
  pub ready : (s : State) → p.0 ≡ ok s → Inv (record { state = s; history = p.1 })

module _ ⦃py : Python⦄ (self : Relay) where
  -- The first dictionary of a request says nothing that is not so.
  accepted_state-Inv :
      (i : Intake) (rid t : String) (h : History)
      → IsSafe h
      → last_saved rid h ≡ none
      → Inv (record { state = accepted_state self i rid t; history = h })
  unfolding accepted_state latched
  accepted_state-Inv i rid t h f n = record {
    safe = f;
    mem = record {
      own = refl;
      latch = λ p. never false refl (rw n at p);
      proof = never _ refl;
      after_ahc = never _ refl;
      after_end = never _ refl;
    };
  }

  record_accepted-IsAccepted :
      (s : State) (h : History)
      → Inv (record { state = s; history = h })
      → IsAccepted (in_memory s (record_accepted self) h)
  unfolding in_memory record_accepted save emit status publish_status fault_point get_state ◌>>=◌
  record_accepted-IsAccepted s h i =
      let rid = s.dger_request_id in
      let d : History = saved rid s ∷ h in
      let k : History =
        fault "after_accept_state" ∷ status_written rid "INGRESS_FROZEN" (self.utc d) [] ∷ d in
      let saved_once = Keeps-save (record { state = s; history = h }) i in
      let all : Inv (record { state = s; history = k }) =
        Quiet-Inv _ (fault-Quiet "after_accept_state") _
          (Quiet-Inv _ (status_written-Quiet rid "INGRESS_FROZEN" (self.utc d) []) _ saved_once) in
      elim (Bool-cases (self.result_dir_unsafe d rid)) [
        | inl u ↦ rw u (record { safe = saved_once.safe; ready = λ t p. cc })
        | inr u ↦ rw u (record {
          safe = all.safe;
          ready = λ t p.
              subst (λ (r : State). Inv (record { state = r; history = k })) (ok-injective p) all;
        })
      ]

  accept_onto-IsAccepted :
      (found : Option State) (i : Intake) (rid : String) (h : History)
      → IsSafe h
      → last_saved rid h ≡ found
      → IsAccepted (accept_onto self found i rid h)
  unfolding accept_onto
  accept_onto-IsAccepted none i rid h f e =
      record_accepted-IsAccepted _ h (accepted_state-Inv i rid _ h f e)
  accept_onto-IsAccepted (some s) i rid h f e =
      elim (Bool-cases (s.transport_intent_digest == transport_intent i)) [
        | inl q ↦ rw q (record {
          safe = f;
          ready = λ t p. durable-Inv rid t h f (e ∙ ap some (ok-injective p));
        })
        | inr q ↦ rw q (record { safe = f; ready = λ t p. cc })
      ]

  accept_frozen-IsAccepted :
      (rid : String) (h : History) → IsSafe h → IsAccepted (accept_frozen self rid h)
  unfolding accept_frozen ◌>>=◌
  accept_frozen-IsAccepted rid h f = elim (Result-cases (intake_of (last_frozen rid h) rid)) [
    | inl (i, e) ↦ rw (e, continue) (accept_onto-IsAccepted _ i rid h f refl)
    | inr (x, e) ↦ rw (e, continue) (record { safe = f; ready = λ t p. cc })
  ]

  advance-IsSafe :
      (s : State) (h : History)
      → Inv (record { state = s; history = h })
      → IsSafe (in_memory s (advance self) h).1
  advance-IsSafe s h i = in_memory-IsSafe s (advance self) h (advance-Inv self _ i)

  intake_and_advance-IsSafe : (pack : Package) → KeepsSafe (intake_and_advance self pack)
  unfolding intake_and_advance
  intake_and_advance-IsSafe pack h f = then-IsSafe _ _ h (freeze-IsSafe pack pack.name h f) λ _ _.
      let g = (freeze pack pack.name h).1 in
      let a = accept_frozen-IsAccepted pack.name g (freeze-IsSafe pack pack.name h f) in
      then-IsSafe (accept_frozen self pack.name) _ g a.safe λ s e. advance-IsSafe s _ (a.ready s e)

  record_rejection-IsSafe :
      (rid : String) (found : Option State) (exc : Exc) (h : History)
      → IsSafe h
      → last_saved rid h ≡ found
      → IsSafe (record_rejection self found exc h).1
  unfolding record_rejection
  record_rejection-IsSafe rid none exc h f e = f
  record_rejection-IsSafe rid (some s) exc h f e = in_memory-IsSafe s _ h (
      Keeps-bind (modify (record_error "process_one" exc)) _ (Keeps-record_error "process_one" exc)
        (λ _. Keeps-save) _ (durable-Inv rid s h f e))

  publish_status-IsSafe :
      (rid code : String) (extra : List (String × Value))
      → KeepsSafe (publish_status self rid code extra)
  unfolding publish_status
  publish_status-IsSafe rid code extra h f = elim (Bool-cases (self.result_dir_unsafe h rid)) [
    | inl u ↦ rw u f
    | inr u ↦ rw u (tt, f)
  ]

  reject-IsSafe : (rid code detail : String) → KeepsSafe (reject self rid code detail)
  unfolding reject
  reject-IsSafe rid code detail h f =
      let g = record_rejection-IsSafe rid _ (dger code detail) h f refl in
      then-IsSafe _ _ h g λ _ _. publish_status-IsSafe rid _ _ _ g

  recover-IsSafe :
      (rid : String) (r : Result (Unit {0})) (h : History)
      → IsSafe h
      → IsSafe (recover self rid (r, h)).1
  unfolding recover
  recover-IsSafe rid (ok u) h f = f
  recover-IsSafe rid (err (dger code detail)) h f =
      then-IsSafe _ _ h (reject-IsSafe rid code detail h f) λ _ _. reject-IsSafe rid code detail h f
  recover-IsSafe rid (err (other name text)) h f = f

  pub process_one-IsSafe : (pack : Package) → KeepsSafe (process_one self pack)
  unfolding process_one
  process_one-IsSafe pack h f =
      elim (Bool-cases
        (not (is_id pack.name) || pack.is_symlink || not pack.is_dir || not pack.ready_exists)) [
          | inl e ↦ rw e f
          | inr e ↦ rw e (recover-IsSafe pack.name _ _ (intake_and_advance-IsSafe pack h f))
        ]

  resume_from-IsSafe :
      (found : Option State) (frozen : Bool) (rid : String) (h : History)
      → IsSafe h
      → last_saved rid h ≡ found
      → IsSafe (resume_from self found frozen rid h).1
  unfolding resume_from
  resume_from-IsSafe none false rid h f e = f
  resume_from-IsSafe none true rid h f e =
      let a = accept_frozen-IsAccepted rid h f in
      then-IsSafe (accept_frozen self rid) _ h a.safe
        λ s q. let g = advance-IsSafe s _ (a.ready s q) in then-IsSafe _ _ _ g λ _ _. g
  resume_from-IsSafe (some s) frozen rid h f e =
      let g = advance-IsSafe s h (durable-Inv rid s h f e) in then-IsSafe _ _ h g λ _ _. g

  pub resume_one-IsSafe : (rid : String) → KeepsSafe (resume_one self rid)
  unfolding resume_one
  resume_one-IsSafe rid h f = elim (Bool-cases (not (is_id rid))) [
    | inl e ↦ rw e f
    | inr e ↦ rw e (resume_from-IsSafe _ _ rid h f refl)
  ]

  process_all-IsSafe :
      (l : List Package) (d : Bool) (h : History) → IsSafe h → IsSafe (process_all self l d h).1
  unfolding process_all
  process_all-IsSafe [] d h f = f
  process_all-IsSafe (p ∷ l) d h f = process_all-IsSafe l _ _ (process_one-IsSafe p h f)

  resume_all-IsSafe :
      (l : List String) (d : Bool) (h : History) → IsSafe h → IsSafe (resume_all self l d h).1
  unfolding resume_all
  resume_all-IsSafe [] d h f = f
  resume_all-IsSafe (rid ∷ l) d h f = resume_all-IsSafe l _ _ (resume_one-IsSafe rid h f)

  pub scan_once-IsSafe :
      (packages : List Package) (h : History) → IsSafe h → IsSafe (scan_once self packages h).1
  unfolding scan_once
  scan_once-IsSafe packages h f =
      let l = sort_packages packages in
      let p = process_all self l false h in
      resume_all-IsSafe (durable_ids p.1) p.0 p.1 (process_all-IsSafe l false h f)
