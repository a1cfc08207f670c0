-- ===== src/Relay/Outcome.antt =====
-- How `_advance` of src/dger/gen4_driver.py can end.
use dropbox_governed_executi.Prelude.{ℕ, ◌≡◌, true, false, ◌<◌}
use dropbox_governed_executi.Result.{Result, Exc, dger, ok, err}
use dropbox_governed_executi.Platform.{Python}
use dropbox_governed_executi.Relay.State.{State, Phase}
use dropbox_governed_executi.Relay.Exec.{Relay, Mem, Exec, pure, ◌>>=◌}
use dropbox_governed_executi.Relay.Driver.{
  loaded, is_blocked, phase_text, transition, advance_rounds,
}

-- The phases in which nothing is left to do.
pub data IsAtEnd : Phase → Type 0 where
  at_done : IsAtEnd Phase.done
  at_result_conflict : IsAtEnd Phase.result_conflict
  at_chm_result_conflict : IsAtEnd Phase.chm_result_conflict
  at_moh_in_doubt : IsAtEnd Phase.moh_in_doubt

-- The result of `_advance`, with the dictionary and the history that it leaves.
pub data Outcome ⦃py : Python⦄ (self : Relay) : Result (Unit {0}) × Mem → Type 0 where
  -- The dictionary says that there is nothing left to do.
  rested : (y : Mem) → IsAtEnd y.state.phase → Outcome self (ok tt, y)
  -- The last method left the phase as it was and recorded an error.
  blocked :
      (z y : Mem)
      → ¬ IsAtEnd z.state.phase
      → transition self z.state z.state.phase z ≡ (ok tt, y)
      → phase_text (loaded y).phase ≡ phase_text z.state.phase
      → z.state.error_generation < (loaded y).error_generation
      → Outcome self (ok tt, y)
  -- A method raised.
  raised :
      (z y : Mem) (e : Exc)
      → ¬ IsAtEnd z.state.phase
      → transition self z.state z.state.phase z ≡ (err e, y)
      → Outcome self (err e, y)
  gave_up : (y : Mem) → Outcome self (err (dger "ADVANCE_TRANSITION_LIMIT" ""), y)

module _ ⦃py : Python⦄ (self : Relay) where
  -- What follows the method of a round.
  abbrev next_round : ℕ → State → Exec (Unit {0})
  next_round n s = (λ x. (ok (loaded x), x)) >>= λ new. elim (is_blocked s new) [
    | true ↦ pure tt
    | false ↦ advance_rounds self n
  ]
