-- ===== src/Gen3/Safe/Rules.antt =====
-- The invariant of a running method of the first relay, and a rule for each primitive action of
-- src/dger/relay_runtime.py.
use dropbox_governed_executi.Prelude.{String, ◌≡◌, refl, ◌∙◌, true, false, List, ◌∷◌}
use dropbox_governed_executi.Result.{Exc, Result, ok, err}
use dropbox_governed_executi.Json.{Value, Fields}
use dropbox_governed_executi.Platform.{Python}
use dropbox_governed_executi.Relay.Exec.{Action, continue, lift, ◌>>=◌}
use dropbox_governed_executi.Gen3.Values.{StrictJson}
use dropbox_governed_executi.Gen3.State.{RelayState}
use dropbox_governed_executi.Gen3.Exec.{
  GtgCall, status_put, invoked, answered, last_state, RelayV1, Memory, Method, read_state, update,
  put_event, save_state, clock, run_directory, put_status, invoke_tool,
}
use dropbox_governed_executi.Gen3.Safe.Trace.{
  is_first, is_after_end, absent_since, reported_end, executed, doubted, IsTrue, AllJustified,
}

-- What a method comes to: what it returns, and the memory.
abbrev pub Outcome : Type 0 → Type 0
Outcome A = Result A × Memory

module _ {S A B : Type 0} where
  continue_both :
      (P : Result A × S → Type 0) (Q : Result B × S → Type 0) (r : Result A) (next : A → Action S B)
      (y : S)
      → P (r, y)
      → ((e : Exc) (z : S) → P (err e, z) → Q (err e, z))
      → ((a : A) (z : S) → P (ok a, z) → Q (next a z))
      → Q (continue r next y)
  continue_both P Q (ok a) next y p raised returned = returned a y p
  continue_both P Q (err e) next y p raised returned = raised e y p

  -- A first step, whether it returns or raises.
  pub after_both :
      (P : Result A × S → Type 0) (Q : Result B × S → Type 0) (act : Action S A)
      (next : A → Action S B) (x : S)
      → P (act x)
      → ((e : Exc) (z : S) → P (err e, z) → Q (err e, z))
      → ((a : A) (z : S) → P (ok a, z) → Q (next a z))
      → Q ((act >>= next) x)
  unfolding ◌>>=◌
  after_both P Q act next x p raised returned =
      continue_both P Q (act x).0 next (act x).1 p raised returned

module _ {A B : Type 0} where
  -- A check changes nothing, and what follows may use that it held.
  pub after_lift :
      (Q : Outcome B → Type 0) (r : Result A) (next : A → Method B) (x : Memory)
      → ((e : Exc) → Q (err e, x))
      → ((a : A) → r ≡ ok a → Q (next a x))
      → Q ((lift r >>= next) x)
  unfolding ◌>>=◌
  after_lift Q (ok a) next x raised returned = returned a refl
  after_lift Q (err e) next x raised returned = raised e

module _ {B : Type 0} (Q : Outcome B → Type 0) where
  pub after_read :
      (next : RelayState → Method B) (x : Memory) → Q (next x.state x) → Q ((read_state >>= next) x)
  unfolding ◌>>=◌ read_state
  after_read next x q = q

  pub after_update :
      (f : RelayState → RelayState) (next : Unit {0} → Method B) (x : Memory)
      → Q (next tt (record x { state = f x.state }))
      → Q ((update f >>= next) x)
  unfolding ◌>>=◌ update
  after_update f next x q = q

  pub after_clock :
      (self : RelayV1) (next : String → Method B) (x : Memory)
      → ((t : String) → Q (next t x))
      → Q ((clock self >>= next) x)
  unfolding ◌>>=◌ clock
  after_clock self next x q = q (self.utc x.events)

  -- The gateway may answer anything.
  pub after_invoke :
      (self : RelayV1) (call : GtgCall) (tool operation : String) (arguments : Fields)
      (next : Result Fields → Method B) (x : Memory)
      → ((r : Result Fields)
          → Q (next r (record x { events = answered call r ∷ invoked call ∷ x.events })))
      → Q ((invoke_tool self call tool operation arguments >>= next) x)
  unfolding ◌>>=◌ invoke_tool
  after_invoke self call tool operation arguments next x q =
      q (self.gateway.invoke (invoked call ∷ x.events) tool operation arguments)

-- Saving now would be in order, and all that has happened was.
pub record Holds ⦃py : Python⦄ ⦃sj : StrictJson⦄ (execution_id : String) (x : Memory) : Type 0 where
  pub justified : AllJustified execution_id x.events
  pub mem : IsTrue execution_id x.state x.events

-- The invariant, of an outcome.
abbrev pub HoldsAfter : ⦃py : Python⦄ ⦃sj : StrictJson⦄ {A : Type 0} → String → Outcome A → Type 0
HoldsAfter execution_id p = Holds execution_id p.1

module _ ⦃py : Python⦄ ⦃sj : StrictJson⦄ {execution_id : String} where
  -- A first step that keeps the invariant.
  pub then_Holds :
      {A B : Type 0} (act : Method A) (next : A → Method B) (x : Memory)
      → HoldsAfter execution_id (act x)
      → ((a : A) (z : Memory) → Holds execution_id z → HoldsAfter execution_id (next a z))
      → HoldsAfter execution_id ((act >>= next) x)
  then_Holds act next x p k =
      after_both (HoldsAfter execution_id) (HoldsAfter execution_id) act next x p (λ e z q. q) k

  -- A change of the dictionary in memory.
  pub state-Holds :
      (s : RelayState) (x : Memory)
      → Holds execution_id x
      → s.acceptance.execution_id ≡ x.state.acceptance.execution_id
      → (x.state.moh_in_doubt_ever ≡ true → s.moh_in_doubt_ever ≡ true)
      → (executed x.events ≡ true → is_first s.phase ≡ false)
      → (executed x.events ≡ true → s.moh_execute_may_have_happened ≡ true)
      → (is_first s.phase ≡ true → s.moh_in_doubt_ever ≡ false)
      → (is_after_end s.phase ≡ true → reported_end execution_id x.events ≡ true)
      → Holds execution_id (record x { state = s })
  state-Holds s x i same latch past recorded fresh after_end = record {
    justified = i.justified;
    mem = record {
      own = rw same i.mem.own;
      latch = λ p. latch (i.mem.latch p);
      past = past;
      recorded = recorded;
      fresh = fresh;
      after_end = after_end;
    };
  }

  -- A change that leaves the phase and the flags as they are.
  pub same-Holds :
      (s : RelayState) (x : Memory)
      → Holds execution_id x
      → s.acceptance.execution_id ≡ x.state.acceptance.execution_id
      → s.moh_in_doubt_ever ≡ x.state.moh_in_doubt_ever
      → s.phase ≡ x.state.phase
      → s.moh_execute_may_have_happened ≡ x.state.moh_execute_may_have_happened
      → Holds execution_id (record x { state = s })
  same-Holds s x i own latch phase may =
      state-Holds s x i own (λ p. latch ∙ p) (λ p. rw phase (i.mem.past p))
        (λ p. rw may (i.mem.recorded p)) (λ p. rw latch (i.mem.fresh (rw phase at p)))
        (λ p. i.mem.after_end (rw phase at p))

  -- An event that needs no reason and tells nothing.
  pub save_state-Holds :
      (x : Memory) → Holds execution_id x → HoldsAfter execution_id (save_state x)
  unfolding save_state put_event absent_since reported_end executed doubted last_state
  save_state-Holds x i = record {
    justified = (i.mem, i.justified);
    mem = record {
      own = i.mem.own;
      latch = λ p. p;
      past = i.mem.past;
      recorded = i.mem.recorded;
      fresh = i.mem.fresh;
      after_end = i.mem.after_end;
    };
  }

  pub status_put-Holds :
      (code time : String) (extra : List (String × Value)) (x : Memory)
      → Holds execution_id x
      → Holds execution_id (record x { events = status_put code time extra ∷ x.events })
  unfolding absent_since reported_end executed doubted last_state
  status_put-Holds code time extra x i = record {
    justified = (tt, i.justified);
    mem = record {
      own = i.mem.own;
      latch = i.mem.latch;
      past = i.mem.past;
      recorded = i.mem.recorded;
      fresh = i.mem.fresh;
      after_end = i.mem.after_end;
    };
  }

  pub put_status-Holds :
      (self : RelayV1) (code : String) (extra : List (String × Value)) (x : Memory)
      → Holds execution_id x
      → HoldsAfter execution_id (put_status self code extra x)
  unfolding put_status put_event
  put_status-Holds self code extra x i =
      then_Holds (run_directory self) _ x i λ a z j. status_put-Holds code _ extra z j

  -- What a saved and announced change keeps, whatever is returned then.
  pub saved_status-Holds :
      {B : Type 0} (self : RelayV1) (code : String) (extra : List (String × Value))
      (next : Unit {0} → Method B) (x : Memory)
      → Holds execution_id x
      → ((z : Memory) → Holds execution_id z → HoldsAfter execution_id (next tt z))
      → HoldsAfter execution_id ((save_state >>= λ _. put_status self code extra >>= next) x)
  saved_status-Holds self code extra next x i k =
      then_Holds save_state _ x (save_state-Holds x i) λ _ y j.
        then_Holds (put_status self code extra) next y (put_status-Holds self code extra y j)
          λ _ z. k z
