-- ===== src/Gen3/Advance.antt =====
-- `_advance_locked` and `resume_one` of src/dger/relay_v1.py. What `load_state` reads is what was
-- saved last.
use dropbox_governed_executi.Prelude.{
  String, Bool, true, false, Option, none, some, [], ◌∷◌, if◌then◌else◌,
}
use dropbox_governed_executi.Result.{dger, other, Result, ok, err}
use dropbox_governed_executi.Json.{str}
use dropbox_governed_executi.Platform.{Python}
use dropbox_governed_executi.Primitives.Patterns.{is_id}
use dropbox_governed_executi.Relay.State.{first_chars}
use dropbox_governed_executi.Relay.Exec.{Action, pure, lift, ◌>>=◌, ◌>>◌}
use dropbox_governed_executi.Gen3.Values.{StrictJson}
use dropbox_governed_executi.Gen3.State.{
  Stage, accepted, stage_complete, reconcile, in_doubt, terminal, conflict, done, RelayState,
}
use dropbox_governed_executi.Gen3.Exec.{
  Events, last_state, RelayV1, Memory, Method, read_state, update, save_state, put_status,
}
use dropbox_governed_executi.Gen3.Moh.{reconcile_phase, resume_terminal_publication}
use dropbox_governed_executi.Gen3.Chm.{publish_handoff}

-- `phase in {"DONE", "CHM_RESULT_CONFLICT"}`
unfoldable pub is_finished : Stage → Bool
is_finished done = true
is_finished conflict = true
is_finished _ = false

-- `phase in {"ACCEPTED", "MOH_STAGE_COMPLETE", "MOH_RECONCILE", "MOH_IN_DOUBT"}`
unfoldable pub asks_moh : Stage → Bool
asks_moh accepted = true
asks_moh stage_complete = true
asks_moh reconcile = true
asks_moh in_doubt = true
asks_moh _ = false

unfoldable pub is_terminal : Stage → Bool
is_terminal terminal = true
is_terminal _ = false

abbrev pub found_or : Option RelayState → RelayState → RelayState
found_or none current = current
found_or (some s) current = s

-- `load_state(self.state, execution_id) or current`
unfoldable pub current_state : Memory → RelayState
current_state x = found_or (last_state x.events) x.state

unfoldable pub load_again : Method (Unit {0})
unfolding current_state
load_again x = (ok tt, record x { state = current_state x })

module _ ⦃py : Python⦄ (self : RelayV1) where
  -- `except DgerError`: whether the reconciliation is blocked.
  unfoldable pub blocked_reconcile : Result (Unit {0}) → Method Bool
  unfolding save_state put_status
  blocked_reconcile (ok u) = pure false
  blocked_reconcile (err (dger code detail)) = do
    update (λ s. record s {
      moh = record s.moh { last_reconcile_error = some (code, first_chars 512 detail) };
    })
    save_state
    put_status self "MOH_RECONCILIATION_BLOCKED"
        (("code", str code) ∷ ("detail", str (first_chars 512 detail)) ∷ [])
    pure true
  blocked_reconcile (err (other name text)) = lift (err (other name text))

  module _ ⦃sj : StrictJson⦄ where
    unfoldable pub try_reconcile : Method Bool
    unfolding reconcile_phase blocked_reconcile
    try_reconcile x = let (r, y) = reconcile_phase self x.state.phase x in blocked_reconcile r y

    -- The rest of `_advance_locked`, after the reconciliation.
    unfoldable pub publish_phases : Method (Unit {0})
    unfolding is_terminal resume_terminal_publication load_again publish_handoff
    publish_phases = do
      s ← read_state
      if is_terminal s.phase then (do resume_terminal_publication self; load_again) else pure tt
      publish_handoff self

    unfoldable pub reconcile_and_publish : Method (Unit {0})
    unfolding try_reconcile load_again publish_phases
    reconcile_and_publish = do
      blocked ← try_reconcile
      if blocked then pure tt else (do load_again; publish_phases)

    -- `_advance_locked`
    unfoldable pub advance_locked : Method (Unit {0})
    unfolding is_finished asks_moh reconcile_and_publish publish_phases
    advance_locked = do
      s ← read_state
      if is_finished s.phase
          then pure tt
          else if asks_moh s.phase
          then reconcile_and_publish
          else publish_phases

    -- A method that is given a dictionary, run by one that has none.
    unfoldable pub with_state : {A : Type 0} → RelayState → Method A → Action Events A
    with_state s m h = let (r, x) = m (record { state = s; events = h }) in (r, x.events)

    unfoldable pub advance_true : RelayState → Action Events Bool
    unfolding with_state
    advance_true s = with_state s advance_locked >>= λ _. pure true

    unfoldable pub resume_found : Option RelayState → Action Events Bool
    unfolding advance_true
    resume_found none = pure false
    resume_found (some s) = advance_true s

    -- `resume_one`
    unfoldable pub resume_execution : String → Action Events Bool
    unfolding is_id last_state resume_found
    resume_execution execution_id h =
        if is_id execution_id then resume_found (last_state h) h else (ok false, h)
