-- ===== src/Relay/Wal.antt =====
-- What an invalid answer to `execute` leaves behind: `_execute_moh` of src/dger/gen4_effect.py.
use dropbox_governed_executi.Prelude.{
  List, eq_refl, Bool-cases, inl, inr, String, ◌≡◌, refl, true, some,
}
use dropbox_governed_executi.Result.{dger, ok, err}
use dropbox_governed_executi.Json.{Value}
use dropbox_governed_executi.Platform.{Python}
use dropbox_governed_executi.Contract.Types.{MohObservation}
use dropbox_governed_executi.Relay.State.{record_error}
use dropbox_governed_executi.Relay.History.{last_saved}
use dropbox_governed_executi.Relay.Exec.{
  Relay, Mem, ◌>>=◌, modify, emit, save, publish_status, status,
}
use dropbox_governed_executi.Relay.Effect.Moh.{
  execute_answer, handle_moh, recover_execute, latch_invalid_response,
}

module _ ⦃py : Python⦄ (self : Relay) where
  -- A status record takes back no durable latch, whether it can be written or not.
  status-latched :
      (x : Mem) (code : String) (extra : List (String × Value))
      → x.state.moh_in_doubt_ever ≡ true
      → last_saved x.state.dger_request_id x.history ≡ some x.state
      → let z = (status self code extra x).1 in
        (z.state.moh_in_doubt_ever ≡ true)
        × (last_saved x.state.dger_request_id z.history ≡ some z.state)
  unfolding status publish_status last_saved
  status-latched x code extra l d =
      elim (Bool-cases (self.result_dir_unsafe x.history x.state.dger_request_id)) [
        | inl u ↦ rw u (l, d)
        | inr u ↦ rw u (l, d)
      ]

  -- An answer to the call that is not valid: the latch is set, in memory and in the durable
  -- dictionary, also when the status record cannot be written.
  pub execute_answer-invalid :
      (x y : Mem) (obs : MohObservation) (code detail : String)
      → handle_moh self obs "execute" x ≡ (err (dger code detail), y)
      → let z = (execute_answer self (ok obs) x).1 in
        (z.state.moh_in_doubt_ever ≡ true)
        × (last_saved y.state.dger_request_id z.history ≡ some z.state)
  unfolding execute_answer recover_execute latch_invalid_response modify emit save record_error
      last_saved ◌>>=◌
  execute_answer-invalid x y obs code detail h =
      rw (h, execute_answer) (status-latched _ _ _ refl (rw eq_refl))
