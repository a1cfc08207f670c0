-- ===== src/Gen3/Safe/Reach.antt =====
-- Runs of the first relay on one execution: `process_one` and `resume_one` of src/dger/relay_v1.py in
-- any order and with any packages of its name. Each may be cut off after any event, and between two of
-- them the gateway and the surroundings of the relay may change.
use dropbox_governed_executi.Prelude.{String, ◌≡◌, [], ◌++◌}
use dropbox_governed_executi.Platform.{Python}
use dropbox_governed_executi.Gen3.Values.{StrictJson}
use dropbox_governed_executi.Gen3.Stage.{IngressPackage}
use dropbox_governed_executi.Gen3.Exec.{Events, RelayV1}
use dropbox_governed_executi.Gen3.Advance.{resume_execution}
use dropbox_governed_executi.Gen3.Accept.{process_package}
use dropbox_governed_executi.Gen3.Safe.Trace.{AllJustified, AllJustified-tail}
use dropbox_governed_executi.Gen3.Safe.Accept.{
  process_package-IsJustifiedAfter, resume_execution-IsJustifiedAfter,
}

-- What the process does with the execution.
pub data Task : Type 0 where
  process : IngressPackage → Task
  resume : Task

-- A package belongs to the execution of its name.
abbrev pub IsOf : String → Task → Type 0
IsOf execution_id (process pack) = pack.name ≡ execution_id
IsOf execution_id resume = Unit

module _ ⦃py : Python⦄ ⦃sj : StrictJson⦄ where
  unfoldable pub carry_out : RelayV1 → String → Task → Events → Events
  unfolding process_package resume_execution
  carry_out self execution_id (process pack) h = (process_package self pack h).1
  carry_out self execution_id resume h = (resume_execution self execution_id h).1

-- The histories that an execution can come to: a task runs to its end, or the process dies, and what it
-- would have done after that, `lost`, never happens.
pub data RunsTo ⦃py : Python⦄ ⦃sj : StrictJson⦄ (execution_id : String) : Events → Type 0 where
  begins : RunsTo execution_id []
  carried :
      {h g : Events}
      → RunsTo execution_id h
      → (self : RelayV1) (t : Task) → IsOf execution_id t
      → carry_out self execution_id t h ≡ g
      → RunsTo execution_id g
  crashed :
      {h g : Events}
      → RunsTo execution_id h
      → (self : RelayV1) (t : Task) → IsOf execution_id t
      → (lost kept : Events) → carry_out self execution_id t h ≡ lost ++ g
      → g ≡ kept ++ h
      → RunsTo execution_id g

module _ ⦃py : Python⦄ ⦃sj : StrictJson⦄ where
  carry_out-AllJustified :
      (self : RelayV1) (execution_id : String) (t : Task) (h : Events)
      → IsOf execution_id t
      → AllJustified execution_id h
      → AllJustified execution_id (carry_out self execution_id t h)
  unfolding carry_out
  carry_out-AllJustified self execution_id (process pack) h own j =
      process_package-IsJustifiedAfter execution_id self pack h j own
  carry_out-AllJustified self execution_id resume h own j =
      resume_execution-IsJustifiedAfter execution_id self execution_id h j

  -- Every history that an execution can come to is justified: each of its events by those before it.
  pub RunsTo-AllJustified :
      {execution_id : String} {h : Events} → RunsTo execution_id h → AllJustified execution_id h
  RunsTo-AllJustified begins = tt
  RunsTo-AllJustified {execution_id} (carried {h} r self t own e) =
      rw (← e) (carry_out-AllJustified self execution_id t h own (RunsTo-AllJustified r))
  RunsTo-AllJustified {execution_id} (crashed {h} {g} r self t own lost kept e _) =
      AllJustified-tail execution_id lost g
        (rw (← e) (carry_out-AllJustified self execution_id t h own (RunsTo-AllJustified r)))
