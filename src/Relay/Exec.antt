-- ===== src/Relay/Exec.antt =====
-- Methods of the relay as actions: they change the dictionary `state` in place, write files, call
-- peers and may raise. What was changed or written before a raise stays so.
use dropbox_governed_executi.Prelude.{String, Bool, List, ◌∷◌, if◌then◌else◌}
use dropbox_governed_executi.Result.{dger, Result, ok, err}
use dropbox_governed_executi.Json.{Value, Fields}
use dropbox_governed_executi.Primitives.Files.{Entry}
use dropbox_governed_executi.Contract.Types.{
  ServiceIdentity, TrustedCorrelation, StageReceipt, AhcObservation, MohObservation, Ack,
}
use dropbox_governed_executi.Relay.State.{State}
use dropbox_governed_executi.Relay.History.{
  Call, Event, History, saved, status_written, fault, called,
}

-- `Gen4Peers`: an answer may depend on all that has happened before the call.
pub record Peers : Type 0 where
  pub establish_correlation :
      History → Fields → String → String → ServiceIdentity → Result TrustedCorrelation
  pub stage_moh : History → TrustedCorrelation → String → String → Result StageReceipt
  pub ahc_begin : History → TrustedCorrelation → Result AhcObservation
  pub ahc_status : History → TrustedCorrelation → Result AhcObservation
  pub moh_execute : History → TrustedCorrelation → Result MohObservation
  pub moh_status : History → TrustedCorrelation → Result MohObservation
  pub ahc_note_in_doubt : History → TrustedCorrelation → String → Result Ack
  pub ahc_accept_terminal : History → TrustedCorrelation → String → String → String → Result Ack
  pub chm_publish_terminal : History → TrustedCorrelation → String → String → Result Ack

-- The relay object and what surrounds it: the clock, whether `runs/<id>` is no plain directory,
-- and what stands at `runs/<id>/result.json`, which other programs can write too.
pub record Relay : Type 0 where
  pub service : ServiceIdentity
  pub peers : Peers
  pub utc : History → String
  pub frozen_dir : String → String
  pub result_dir_unsafe : History → String → Bool
  pub result_at : History → String → Entry

-- The dictionary in memory, and what has happened.
pub record Mem : Type 0 where
  pub state : State
  pub history : History

-- An action on what it may change.
abbrev pub Action {ℓ} : Type 0 → Type ℓ → Type ℓ
Action S A = S → Result A × S

abbrev pub Exec {ℓ} : Type ℓ → Type ℓ
Exec A = Action Mem A

module _ {ℓ} {S : Type 0} {A : Type ℓ} where
  abbrev pub pure : A → Action S A
  pure a x = (ok a, x)

  abbrev pub lift : Result A → Action S A
  lift r x = (r, x)

module _ {ℓ} {S : Type 0} {A B : Type ℓ} where
  abbrev pub continue : Result A → (A → Action S B) → Action S B
  continue (ok a) f x = f a x
  continue (err e) f x = (err e, x)

  infixl 5 ◌>>=◌ ◌>>◌
  unfoldable pub ◌>>=◌ : Action S A → (A → Action S B) → Action S B
  ◌>>=◌ m f x = let (r, y) = m x in continue r f y

  abbrev pub ◌>>◌ : Action S A → Action S B → Action S B
  m >> n = m >>= λ _. n

-- `state` as it is now.
unfoldable pub get_state : Exec State
get_state x = (ok x.state, x)

unfoldable pub modify : (State → State) → Exec (Unit {0})
modify f x = (ok tt, record x { state = f x.state })

unfoldable pub emit : Event → Exec (Unit {0})
emit e x = (ok tt, record x { history = e ∷ x.history })

-- `self._save_state(rid, state)`
unfoldable pub save : Exec (Unit {0})
unfolding emit
save x = emit (saved x.state.dger_request_id x.state) x

module _ (self : Relay) where
  -- `self._status(rid, code, **extra)`
  unfoldable pub publish_status :
      String → String → List (String × Value) → Action History (Unit {0})
  publish_status rid code extra h =
      if self.result_dir_unsafe h rid
      then (err (dger "UNSAFE_RESULT_PATH" ""), h)
      else (ok tt, status_written rid code (self.utc h) extra ∷ h)

  unfoldable pub status : String → List (String × Value) → Exec (Unit {0})
  unfolding publish_status
  status code extra x =
      let (r, h) = publish_status x.state.dger_request_id code extra x.history in
      (r, record x { history = h })

  -- `utc()`
  unfoldable pub now : Exec String
  now x = (ok (self.utc x.history), x)

  -- `self._record_error(state, ...)` is `modify (record_error ...)`; `self.fault(name)`:
  unfoldable pub fault_point : String → Exec (Unit {0})
  unfolding emit
  fault_point name = emit (fault name)

-- A call of a peer, answered from the history that ends with the call. It hands the answer over as
-- a value, for `try: ... except Exception`.
unfoldable pub ask :
    {A : Type 0} → Call → (History → Result A) → (String → Result A → Event) → Exec (Result A)
ask op answer reply x =
    let rid = x.state.dger_request_id in
    let h = called rid op ∷ x.history in
    let r = answer h in (ok r, record x { history = reply rid r ∷ h })

-- A method that is given a dictionary, run by one that has none.
unfoldable pub in_memory : {A : Type 0} → State → Exec A → Action History A
in_memory s m h = let (r, x) = m (record { state = s; history = h }) in (r, x.history)
