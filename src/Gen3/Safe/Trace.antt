-- ===== src/Gen3/Safe/Trace.antt =====
-- A predicate on what has happened to one execution in src/dger/relay_moh_invoke.py, relay_moh.py and
-- relay_chm.py: each event is justified by those before it. It holds of each tail too, so it also
-- speaks of a relay that dies half-way.
use dropbox_governed_executi.Prelude.{
  String, ◌≡◌, Bool, true, false, Option, none, some, List, [], ◌∷◌, ◌++◌, elem, if◌then◌else◌,
}
use dropbox_governed_executi.Result.{Result, ok, err, ◌>>=◌, some_or, other}
use dropbox_governed_executi.Json.{Fields}
use dropbox_governed_executi.Platform.{Python}
use dropbox_governed_executi.Contract.Types.{moh_tool_id}
use dropbox_governed_executi.Gen3.Values.{StrictJson}
use dropbox_governed_executi.Gen3.Attestation.{invocation_attestation}
use dropbox_governed_executi.Gen3.Response.{terminal_publishable, unwrapped_result, moh_response}
use dropbox_governed_executi.Gen3.State.{
  Stage, accepted, stage_complete, terminal, publish_pending, attached, conflict, done, Operation,
  execute, status, RelayState,
}
use dropbox_governed_executi.Gen3.Exec.{
  GtgCall, moh_call, handoff_attach_result, handoff_resolve, RelayEvent, state_saved, result_put,
  invoked, answered, Events, last_state,
}
use dropbox_governed_executi.Gen3.Moh.{operation_text}

-- The phases in front of the first call of `execute`.
abbrev pub is_first : Stage → Bool
is_first accepted = true
is_first stage_complete = true
is_first _ = false

-- The phases that come after MOH has reported the end.
abbrev pub is_after_end : Stage → Bool
is_after_end terminal = true
is_after_end publish_pending = true
is_after_end attached = true
is_after_end conflict = true
is_after_end done = true
is_after_end _ = false

abbrev pub is_execute_call : GtgCall → Bool
is_execute_call (moh_call execute) = true
is_execute_call _ = false

module _ ⦃py : Python⦄ ⦃sj : StrictJson⦄ where
  -- The response of MOH in an answer of the gateway that is successful and attested.
  unfoldable pub attested_response : String → Operation → Result Fields → Result (Fields × String)
  attested_response execution_id op answer = answer >>= λ wrapped.
      some_or (unwrapped_result wrapped) (other "" "") >>= λ result.
      invocation_attestation wrapped moh_tool_id (operation_text op) >>= λ _.
      moh_response result execution_id

  abbrev pub has_state : List String → Result (Fields × String) → Bool
  has_state states (ok (response, moh_state)) = elem moh_state states
  has_state states (err e) = false

  -- An attested answer about the execution with a state of the list.
  abbrev pub reports : List String → String → GtgCall → Result Fields → Bool
  reports states execution_id (moh_call op) answer =
      has_state states (attested_response execution_id op answer)
  reports states execution_id _ answer = false

  -- An attested answer of `status` that the execution is not found.
  abbrev pub reports_absence : String → GtgCall → Result Fields → Bool
  reports_absence execution_id (moh_call status) answer =
      has_state ("NOT_FOUND" ∷ []) (attested_response execution_id status answer)
  reports_absence execution_id _ answer = false

  -- Since the last call of `execute`, `status` has answered that the execution is not found.
  unfoldable pub absent_since : String → Events → Bool
  absent_since execution_id [] = false
  absent_since execution_id (invoked call ∷ h) =
      let older = absent_since execution_id h in if is_execute_call call then false else older
  absent_since execution_id (answered call r ∷ h) =
      let older = absent_since execution_id h in
      if reports_absence execution_id call r then true else older
  absent_since execution_id (_ ∷ h) = absent_since execution_id h

  -- MOH has answered that the execution has ended.
  unfoldable pub reported_end : String → Events → Bool
  reported_end execution_id [] = false
  reported_end execution_id (answered call r ∷ h) =
      let older = reported_end execution_id h in
      if reports terminal_publishable execution_id call r then true else older
  reported_end execution_id (_ ∷ h) = reported_end execution_id h

-- `execute` has been called.
unfoldable pub executed : Events → Bool
executed [] = false
executed (invoked call ∷ h) = let older = executed h in if is_execute_call call then true else older
executed (_ ∷ h) = executed h

-- The durable no-repeat latch.
abbrev pub doubt_of : Option RelayState → Bool
doubt_of none = false
doubt_of (some s) = s.moh_in_doubt_ever

unfoldable pub doubted : Events → Bool
doubted h = doubt_of (last_state h)

module _ ⦃py : Python⦄ ⦃sj : StrictJson⦄ where
  -- What a saved dictionary says is so, and the latch is not taken back.
  pub record IsTrue (execution_id : String) (s : RelayState) (h : Events) : Type 0 where
    pub own : s.acceptance.execution_id ≡ execution_id
    pub latch : doubted h ≡ true → s.moh_in_doubt_ever ≡ true
    pub past : executed h ≡ true → is_first s.phase ≡ false
    pub recorded : executed h ≡ true → s.moh_execute_may_have_happened ≡ true
    pub fresh : is_first s.phase ≡ true → s.moh_in_doubt_ever ≡ false
    pub after_end : is_after_end s.phase ≡ true → reported_end execution_id h ≡ true

  -- What is durable when `execute` leaves the relay.
  pub record IsIntent (s : RelayState) : Type 0 where
    pub past : is_first s.phase ≡ false
    pub recorded : s.moh_execute_may_have_happened ≡ true
    pub undoubted : s.moh_in_doubt_ever ≡ false

  pub record MayExecute (execution_id : String) (h : Events) : Type 0 where
    pub intent : (s : RelayState) × (last_state h ≡ some s) × IsIntent s
    pub proof : executed h ≡ true → absent_since execution_id h ≡ true

  abbrev pub MayCall : String → GtgCall → Events → Type 0
  MayCall execution_id (moh_call execute) h = MayExecute execution_id h
  MayCall execution_id handoff_attach_result h = reported_end execution_id h ≡ true
  MayCall execution_id handoff_resolve h = reported_end execution_id h ≡ true
  MayCall execution_id _ h = Unit

  abbrev pub IsJustified : String → RelayEvent → Events → Type 0
  IsJustified execution_id (state_saved s) h = IsTrue execution_id s h
  IsJustified execution_id (invoked call) h = MayCall execution_id call h
  IsJustified execution_id (result_put raw) h = reported_end execution_id h ≡ true
  IsJustified execution_id _ h = Unit

  abbrev pub AllJustified : String → Events → Type 0
  AllJustified execution_id [] = Unit
  AllJustified execution_id (e ∷ h) = IsJustified execution_id e h × AllJustified execution_id h

  -- A run that is cut off is justified as far as it got.
  pub AllJustified-tail :
      (execution_id : String) (g h : Events)
      → AllJustified execution_id (g ++ h)
      → AllJustified execution_id h
  AllJustified-tail execution_id [] h s = s
  AllJustified-tail execution_id (e ∷ g) h s = AllJustified-tail execution_id g h s.1
