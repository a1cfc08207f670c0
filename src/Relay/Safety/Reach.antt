-- ===== src/Relay/Safety/Reach.antt =====
-- Runs of the relay: `process_one`, `resume_one` and `scan_once` of src/dger/gen4_driver.py in any
-- order and with any packages. Each may be cut off after any event, and between two of them the
-- peers, the service identity and the surroundings of the relay may change.
use dropbox_governed_executi.Prelude.{String, ◌≡◌, List, [], ◌++◌}
use dropbox_governed_executi.Platform.{Python}
use dropbox_governed_executi.Relay.History.{History}
use dropbox_governed_executi.Relay.Exec.{Relay}
use dropbox_governed_executi.Relay.Ingress.{Package}
use dropbox_governed_executi.Relay.Driver.{process_one, resume_one, scan_once}
use dropbox_governed_executi.Relay.Safety.Trace.{IsSafe, IsSafe-tail}
use dropbox_governed_executi.Relay.Safety.Runs.{
  process_one-IsSafe, resume_one-IsSafe, scan_once-IsSafe,
}

-- What the process is told to do.
pub data Command : Type 0 where
  process : Package → Command
  resume : String → Command
  scan : List Package → Command

module _ ⦃py : Python⦄ where
  unfoldable pub run : Relay → Command → History → History
  unfolding process_one resume_one scan_once
  run self (process pack) h = (process_one self pack h).1
  run self (resume request_id) h = (resume_one self request_id h).1
  run self (scan packages) h = (scan_once self packages h).1

-- The histories that a relay can come to: a command runs to its end, or it dies, and what it would
-- have done after that, `lost`, never happens.
pub data Reach ⦃py : Python⦄ : History → Type 0 where
  start : Reach []
  ran : {h g : History} → Reach h → (self : Relay) (c : Command) → run self c h ≡ g → Reach g
  died :
      {h g : History}
      → Reach h
      → (self : Relay) (c : Command) (lost kept : History) → run self c h ≡ lost ++ g
      → g ≡ kept ++ h
      → Reach g

module _ ⦃py : Python⦄ where
  run-IsSafe : (self : Relay) (c : Command) (h : History) → IsSafe h → IsSafe (run self c h)
  unfolding run
  run-IsSafe self (process pack) h f = process_one-IsSafe self pack h f
  run-IsSafe self (resume rid) h f = resume_one-IsSafe self rid h f
  run-IsSafe self (scan packages) h f = scan_once-IsSafe self packages h f

  -- Every history that a relay can come to is safe: each of its events is justified by those
  -- before it.
  pub Reach-IsSafe : {h : History} → Reach h → IsSafe h
  Reach-IsSafe start = tt
  Reach-IsSafe (ran {h} r self c e) = rw (← e) (run-IsSafe self c h (Reach-IsSafe r))
  Reach-IsSafe (died {h} {g} r self c lost kept e _) =
      IsSafe-tail lost g (rw (← e) (run-IsSafe self c h (Reach-IsSafe r)))
