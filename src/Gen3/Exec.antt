-- ===== src/Gen3/Exec.antt =====
-- Methods of the first relay (src/dger/relay_runtime.py) as actions on the dictionary of one
-- execution and on what has happened to that execution: its durable writes, the calls of the gateway
-- and the answers, the newest first. A process that dies leaves the history as far as it had got.
use dropbox_governed_executi.Prelude.{String, Bool, Option, none, some, List, [], ◌∷◌}
use dropbox_governed_executi.Result.{Result, ok}
use dropbox_governed_executi.Json.{Value, Fields}
use dropbox_governed_executi.Platform.{Bytes}
use dropbox_governed_executi.Primitives.Files.{Entry}
use dropbox_governed_executi.Relay.Exec.{Action, ◌>>=◌}
use dropbox_governed_executi.Gen3.Files.{Child, safe_execution_dir}
use dropbox_governed_executi.Gen3.Stage.{MohInbox, StagePlace, FrozenIngress}
use dropbox_governed_executi.Gen3.State.{Operation, RelayState}

-- The calls of `gateway.invoke`: of MOH, and of CHM.
pub data GtgCall : Type 0 where
  moh_call : Operation → GtgCall
  handoff_get handoff_attach_result handoff_resolve : GtgCall

pub data RelayEvent : Type 0 where
  state_saved : RelayState → RelayEvent
  status_put : String → String → List (String × Value) → RelayEvent
  ingress_frozen : FrozenIngress → StagePlace → RelayEvent
  stage_materialized : StagePlace → RelayEvent
  result_put : Bytes → RelayEvent
  invoked : GtgCall → RelayEvent
  answered : GtgCall → Result Fields → RelayEvent

abbrev pub Events : Type 0
Events = List RelayEvent

-- `load_state`
unfoldable pub last_state : Events → Option RelayState
last_state [] = none
last_state (state_saved s ∷ h) = some s
last_state (_ ∷ h) = last_state h

-- `SemanticGateway`: an answer may depend on all that has happened before the call.
pub record SemanticGateway : Type 0 where
  pub doctor : Events → String → String → Result Fields
  pub invoke : Events → String → String → Fields → Result Fields

-- The relay object and what surrounds it: the clock, and what it finds at the paths of the
-- execution, which other programs can write too. A dangling link at `result.json` is `absent`.
pub record RelayV1 : Type 0 where
  pub gateway : SemanticGateway
  pub utc : Events → String
  pub state_root : String
  pub runs : String
  pub runs_is_symlink : Events → Bool
  pub run_dir : Events → Child
  pub result_at : Events → Entry
  pub inbox : Events → MohInbox
  pub stage_at : Events → StagePlace
  pub frozen_root_is_symlink : Events → Bool
  pub frozen_at : Events → StagePlace

-- The dictionary in memory, and what has happened.
pub record Memory : Type 0 where
  pub state : RelayState
  pub events : Events

abbrev pub Method {ℓ} : Type ℓ → Type ℓ
Method A = Action Memory A

unfoldable pub read_state : Method RelayState
read_state x = (ok x.state, x)

unfoldable pub update : (RelayState → RelayState) → Method (Unit {0})
update f x = (ok tt, record x { state = f x.state })

unfoldable pub put_event : RelayEvent → Method (Unit {0})
put_event e x = (ok tt, record x { events = e ∷ x.events })

-- `save_state(self.state, execution_id, state)`
unfoldable pub save_state : Method (Unit {0})
unfolding put_event
save_state x = put_event (state_saved x.state) x

-- A check that looks at what surrounds the relay.
unfoldable pub observe {ℓ} : {A : Type ℓ} → (Memory → Result A) → Method A
observe f x = (f x, x)

module _ (self : RelayV1) where
  -- `_status`, by the name of the execution.
  unfoldable pub announce : String → String → List (String × Value) → Action Events (Unit {0})
  unfolding safe_execution_dir
  announce execution_id code extra =
      (λ h.
        (safe_execution_dir self.runs (self.runs_is_symlink h) (self.run_dir h) execution_id, h))
      >>= λ _ h. (ok tt, status_put code (self.utc h) extra ∷ h)

  -- `utc()`
  unfoldable pub clock : Method String
  clock x = (ok (self.utc x.events), x)

  -- `_safe_execution_dir(self.runs, execution_id)`
  unfoldable pub run_directory : Method (Unit {0})
  unfolding observe safe_execution_dir
  run_directory = observe λ x.
      safe_execution_dir self.runs (self.runs_is_symlink x.events) (self.run_dir x.events)
        x.state.acceptance.execution_id

  -- `_status`
  unfoldable pub put_status : String → List (String × Value) → Method (Unit {0})
  unfolding put_event run_directory
  put_status code extra =
      run_directory >>= λ _ x. put_event (status_put code (self.utc x.events) extra) x

  -- A call of the gateway, answered from the history that ends with the call. It hands the answer
  -- over as a value, for `try: ... except Exception`.
  unfoldable pub invoke_tool : GtgCall → String → String → Fields → Method (Result Fields)
  invoke_tool call tool operation arguments x =
      let h = invoked call ∷ x.events in
      let r = self.gateway.invoke h tool operation arguments in
      (ok r, record x { events = answered call r ∷ h })
