-- ===== src/Relay/Safety/Trace.antt =====
-- A predicate on histories of src/dger/gen4_effect.py and gen4_driver.py: each event is justified
-- by those before it. It holds of each tail too, so it also speaks of a relay that dies half-way.
use dropbox_governed_executi.Prelude.{
  String, ◌≡◌, Bool, true, false, ◌&&◌, Option, none, some, List, [], ◌∷◌, ◌++◌, ◌==◌, elem,
  if◌then◌else◌,
}
use dropbox_governed_executi.Result.{Result, ok, err}
use dropbox_governed_executi.Platform.{Python}
use dropbox_governed_executi.Contract.Types.{
  ahc_tool_id, moh_tool_id, AnyEvidence, AhcObservation, MohObservation,
}
use dropbox_governed_executi.Contract.Evidence.{validate_invocation_evidence}
use dropbox_governed_executi.Contract.Observations.{moh_safe, moh_terminal as terminal_states}
use dropbox_governed_executi.Relay.State.{State, Phase, is_some_false}
use dropbox_governed_executi.Relay.History.{
  Call, Event, History, saved, published, called, ahc_replied, moh_replied, last_saved,
}

-- A state from which `_advance` goes on to `_execute_moh`.
abbrev pub may_execute : State → Bool
may_execute s = is_ahc_in_doubt s.phase && is_some_false s.pre_execute_status_required
  where
    is_ahc_in_doubt : Phase → Bool
    is_ahc_in_doubt Phase.ahc_in_doubt = true
    is_ahc_in_doubt _ = false

-- The phases that come after AHC holds the effect in doubt.
abbrev pub needs_ahc : Phase → Bool
needs_ahc Phase.ingress_frozen = false
needs_ahc Phase.correlated = false
needs_ahc Phase.moh_staged = false
needs_ahc Phase.pre_ahc_execute_wal = false
needs_ahc Phase.ahc_begin_reconcile = false
needs_ahc (Phase.unknown text) = false
needs_ahc _ = true

-- The phases that come after MOH has reported the end of the execution.
abbrev pub needs_terminal : Phase → Bool
needs_terminal Phase.moh_terminal = true
needs_terminal Phase.ahc_terminal_pending = true
needs_terminal Phase.chm_pending = true
needs_terminal Phase.done = true
needs_terminal Phase.result_conflict = true
needs_terminal Phase.chm_result_conflict = true
needs_terminal _ = false

-- The operation that the evidence of an answer must name.
abbrev pub operation : Call → String
operation Call.moh_execute = "execute"
operation Call.moh_status = "status"
operation Call.ahc_begin = "begin_effect"
operation Call.ahc_status = "effect_status"
operation _ = ""

abbrev pub is_ok {ℓ} : {A : Type ℓ} → Result A → Bool
is_ok (ok a) = true
is_ok (err e) = false

abbrev pub is_execute : Call → Bool
is_execute Call.moh_execute = true
is_execute _ = false

module _ ⦃py : Python⦄ where
  -- The evidence of an answer is in order, and names the tool and the operation.
  unfoldable pub is_attested : AnyEvidence → String → Call → Bool
  is_attested e tool op = is_ok (validate_invocation_evidence e (some tool) (some (operation op)))

  -- An attested answer of MOH with a state of the list.
  abbrev pub moh_answers : List String → Call → Result MohObservation → Bool
  moh_answers states op (err e) = false
  moh_answers states op (ok obs) =
      elem obs.state states && is_attested obs.invocation_evidence moh_tool_id op

  -- An attested answer of AHC that the effect is in doubt.
  abbrev pub ahc_answers : Call → Result AhcObservation → Bool
  ahc_answers op (err e) = false
  ahc_answers op (ok obs) =
      obs.state == "IN_DOUBT" && is_attested obs.invocation_evidence ahc_tool_id op

  -- Since the last call of `moh_execute`, MOH has answered that the execution is not found or only
  -- admitted.
  unfoldable pub proven : String → History → Bool
  proven rid [] = false
  proven rid (called j op ∷ h) =
      let older = proven rid h in if j == rid && is_execute op then false else older
  proven rid (moh_replied j op r ∷ h) =
      let older = proven rid h in if j == rid && moh_answers moh_safe op r then true else older
  proven rid (_ ∷ h) = proven rid h

  -- AHC has answered that it holds the effect in doubt.
  unfoldable pub begun : String → History → Bool
  begun rid [] = false
  begun rid (ahc_replied j op r ∷ h) =
      let older = begun rid h in if j == rid && ahc_answers op r then true else older
  begun rid (_ ∷ h) = begun rid h

  -- MOH has answered that the execution has ended.
  unfoldable pub ended : String → History → Bool
  ended rid [] = false
  ended rid (moh_replied j op r ∷ h) =
      let older = ended rid h in
      if j == rid && moh_answers terminal_states op r then true else older
  ended rid (_ ∷ h) = ended rid h

-- The durable no-repeat latch.
abbrev pub latch_of : Option State → Bool
latch_of none = false
latch_of (some s) = s.moh_in_doubt_ever

unfoldable pub latched : String → History → Bool
latched rid h = latch_of (last_saved rid h)

module _ ⦃py : Python⦄ where
  -- What a saved dictionary says is so, and the latch is not taken back.
  pub record SaveOk (rid : String) (s : State) (h : History) : Type 0 where
    pub own : s.dger_request_id ≡ rid
    pub latch : latched rid h ≡ true → s.moh_in_doubt_ever ≡ true
    pub proof : may_execute s ≡ true → proven rid h ≡ true
    pub after_ahc : needs_ahc s.phase ≡ true → begun rid h ≡ true
    pub after_end : needs_terminal s.phase ≡ true → ended rid h ≡ true

  -- What is durable when `execute` leaves the relay.
  pub record IsWal (s : State) : Type 0 where
    pub recorded : s.moh_execute_call_may_have_happened ≡ true
    pub unproven : may_execute s ≡ false
    pub unlatched : s.moh_in_doubt_ever ≡ false

  pub record ExecuteOk (rid : String) (h : History) : Type 0 where
    pub wal : (s : State) × (last_saved rid h ≡ some s) × IsWal s
    pub proof : proven rid h ≡ true
    pub after_ahc : begun rid h ≡ true

  abbrev pub CallOk : String → Call → History → Type 0
  CallOk rid Call.moh_execute h = ExecuteOk rid h
  CallOk rid Call.ahc_accept_terminal h = ended rid h ≡ true
  CallOk rid Call.chm_publish_terminal h = ended rid h ≡ true
  CallOk rid _ h = Unit

  abbrev pub EventOk : Event → History → Type 0
  EventOk (saved rid s) h = SaveOk rid s h
  EventOk (called rid op) h = CallOk rid op h
  EventOk (published rid raw) h = ended rid h ≡ true
  EventOk _ h = Unit

  abbrev pub IsSafe : History → Type 0
  IsSafe [] = Unit
  IsSafe (e ∷ h) = EventOk e h × IsSafe h

  -- A run that is cut off is safe as far as it got.
  pub IsSafe-tail : (g h : History) → IsSafe (g ++ h) → IsSafe h
  IsSafe-tail [] h s = s
  IsSafe-tail (e ∷ g) h s = IsSafe-tail g h s.1
