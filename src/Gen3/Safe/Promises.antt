-- ===== src/Gen3/Safe/Promises.antt =====
-- What the first relay promises of every run, whatever the gateway answers and wherever the run is cut
-- off: the point of src/dger/relay_moh_invoke.py, relay_moh.py and relay_chm.py.
use dropbox_governed_executi.Prelude.{
  String, ◌≡◌, refl, ap, Bool, true, false, some, [], ◌∷◌, ◌++◌, Bool-cases, inl, inr,
}
use dropbox_governed_executi.Result.{Result}
use dropbox_governed_executi.Json.{Fields}
use dropbox_governed_executi.Platform.{Python}
use dropbox_governed_executi.Relay.Safety.Rules.{never}
use dropbox_governed_executi.Gen3.Values.{StrictJson}
use dropbox_governed_executi.Gen3.Response.{terminal_publishable}
use dropbox_governed_executi.Gen3.State.{execute, RelayState}
use dropbox_governed_executi.Gen3.Exec.{
  GtgCall, moh_call, handoff_get, handoff_attach_result, handoff_resolve, RelayEvent, state_saved,
  status_put, ingress_frozen, stage_materialized, result_put, invoked, answered, Events, last_state,
}
use dropbox_governed_executi.Gen3.Safe.Trace.{
  is_execute_call, reports, reports_absence, absent_since, reported_end, executed, doubted,
  IsIntent, IsJustified, AllJustified, AllJustified-tail,
}
use dropbox_governed_executi.Gen3.Safe.Reach.{RunsTo, RunsTo-AllJustified}

module _ ⦃py : Python⦄ ⦃sj : StrictJson⦄ where
  -- An answer in the history of which `says` holds.
  pub record HasAnswer (says : GtgCall → Result Fields → Bool) (h : Events) : Type 0 where
    pub newer : Events
    pub older : Events
    pub call : GtgCall
    pub answer : Result Fields
    pub there : h ≡ newer ++ answered call answer ∷ older
    pub says_so : says call answer ≡ true

  later_answer :
      {says : GtgCall → Result Fields → Bool} {h : Events} (e : RelayEvent)
      → HasAnswer says h
      → HasAnswer says (e ∷ h)
  later_answer e a = record {
    newer = e ∷ a.newer;
    older = a.older;
    call = a.call;
    answer = a.answer;
    there = ap (λ t. e ∷ t) a.there;
    says_so = a.says_so;
  }

  this_answer :
      {says : GtgCall → Result Fields → Bool} (call : GtgCall) (r : Result Fields) (h : Events)
      → says call r ≡ true
      → HasAnswer says (answered call r ∷ h)
  this_answer call r h s = record {
    newer = [];
    older = h;
    call = call;
    answer = r;
    there = refl;
    says_so = s;
  }

  reported_end-HasAnswer :
      (execution_id : String) (h : Events)
      → reported_end execution_id h ≡ true
      → HasAnswer (reports terminal_publishable execution_id) h
  unfolding reported_end
  reported_end-HasAnswer execution_id [] p = cc
  reported_end-HasAnswer execution_id (answered call r ∷ h) p =
      elim (Bool-cases (reports terminal_publishable execution_id call r)) [
        | inl q ↦ this_answer call r h q
        | inr q ↦ later_answer _ (reported_end-HasAnswer execution_id h (rw q at p))
      ]
  reported_end-HasAnswer execution_id (e ∷ h) p =
      later_answer e (reported_end-HasAnswer execution_id h p)

  -- What is known since the last call of `execute` was answered after it.
  absent_since-HasAnswer :
      (execution_id : String) (between older : Events)
      → absent_since execution_id (between ++ (invoked (moh_call execute) ∷ older)) ≡ true
      → HasAnswer (reports_absence execution_id) between
  unfolding absent_since
  absent_since-HasAnswer execution_id [] older p = cc
  absent_since-HasAnswer execution_id (answered call r ∷ h) older p =
      elim (Bool-cases (reports_absence execution_id call r)) [
        | inl q ↦ this_answer call r h q
        | inr q ↦ later_answer _ (absent_since-HasAnswer execution_id h older (rw q at p))
      ]
  absent_since-HasAnswer execution_id (invoked call ∷ h) older p =
      elim (Bool-cases (is_execute_call call)) [
        | inl q ↦ let absurd_p = rw q at p in cc
        | inr q ↦ later_answer _ (absent_since-HasAnswer execution_id h older (rw q at p))
      ]
  absent_since-HasAnswer execution_id (e ∷ h) older p =
      later_answer e (absent_since-HasAnswer execution_id h older p)

  -- An execution that was called for stays so.
  executed-append :
      (between older : Events) → executed (between ++ (invoked (moh_call execute) ∷ older)) ≡ true
  unfolding executed
  executed-append [] older = refl
  executed-append (invoked call ∷ h) older = elim (Bool-cases (is_execute_call call)) [
    | inl q ↦ rw q refl
    | inr q ↦ rw q (executed-append h older)
  ]
  executed-append (e ∷ h) older = executed-append h older

  -- In a history that the relay can come to, each call of `execute` comes after a saved dictionary, then
  -- the last one, that is past the stage phases, says that the call may have happened, and does not have
  -- the in-doubt latch.
  pub execute_intended :
      {execution_id : String} (newer older : Events)
      → RunsTo execution_id (newer ++ (invoked (moh_call execute) ∷ older))
      → (s : RelayState) × (last_state older ≡ some s) × IsIntent s
  execute_intended newer older r =
      (AllJustified-tail _ newer (invoked (moh_call execute) ∷ older)
        (RunsTo-AllJustified r)).0.intent

  -- In a history that one execution can come to, GTG has answered a call of `status` between any two
  -- calls of `execute`, with an attestation, that MOH does not have the execution.
  pub no_blind_execute :
      {execution_id : String} (newer between older : Events)
      → RunsTo execution_id (
          newer ++ (invoked (moh_call execute) ∷ (between ++ (invoked (moh_call execute) ∷ older))))
      → HasAnswer (reports_absence execution_id) between
  no_blind_execute {execution_id} newer between older r =
      let j =
        AllJustified-tail execution_id newer
          (invoked (moh_call execute) ∷ (between ++ (invoked (moh_call execute) ∷ older)))
          (RunsTo-AllJustified r) in
      absent_since-HasAnswer execution_id between older (j.0.proof (executed-append between older))

  doubted-append :
      (execution_id : String) (newer older : Events)
      → AllJustified execution_id (newer ++ older)
      → doubted older ≡ true
      → doubted (newer ++ older) ≡ true
  unfolding doubted last_state
  doubted-append execution_id [] older j d = d
  doubted-append execution_id (state_saved s ∷ h) older j d =
      j.0.latch (doubted-append execution_id h older j.1 d)
  doubted-append execution_id (e ∷ h) older j d = doubted-append execution_id h older j.1 d

  -- In a history that the relay can come to, once the dictionary saved last has the in-doubt latch, it
  -- has it at every later time.
  pub doubt_permanent :
      {execution_id : String} (newer older : Events)
      → RunsTo execution_id (newer ++ older)
      → doubted older ≡ true
      → doubted (newer ++ older) ≡ true
  doubt_permanent {execution_id} newer older r d =
      doubted-append execution_id newer older (RunsTo-AllJustified r) d

  -- At a call of `execute` the dictionary saved last has no latch.
  intent_undoubted :
      (h : Events) (s : RelayState) → last_state h ≡ some s → IsIntent s → doubted h ≡ false
  unfolding doubted
  intent_undoubted h s l i = rw l i.undoubted

  -- In a history that the relay can come to, `execute` is not called after a dictionary with the
  -- in-doubt latch was the one saved last.
  pub doubted_never_executes :
      {execution_id : String} (newer between older : Events)
      → RunsTo execution_id (newer ++ (invoked (moh_call execute) ∷ (between ++ older)))
      → doubted older ≡ false
  doubted_never_executes {execution_id} newer between older r =
      let j =
        AllJustified-tail execution_id newer (invoked (moh_call execute) ∷ (between ++ older))
          (RunsTo-AllJustified r) in
      let (s, durable, intent) = j.0.intent in
      elim (Bool-cases (doubted older)) [
        | inr d ↦ d
        | inl d ↦
            never _ (intent_undoubted _ s durable intent)
              (doubted-append execution_id between older j.1 d)
      ]

  -- The events that tell others of the end: the result file, and the calls that change the handoff.
  abbrev pub tells_end : RelayEvent → Bool
  tells_end (result_put raw) = true
  tells_end (invoked handoff_attach_result) = true
  tells_end (invoked handoff_resolve) = true
  tells_end _ = false

  told-reported_end :
      (execution_id : String) (e : RelayEvent) (h : Events)
      → IsJustified execution_id e h
      → tells_end e ≡ true
      → reported_end execution_id h ≡ true
  told-reported_end execution_id (result_put raw) h j t = j
  told-reported_end execution_id (invoked handoff_attach_result) h j t = j
  told-reported_end execution_id (invoked handoff_resolve) h j t = j
  told-reported_end execution_id (invoked handoff_get) h j t = cc
  told-reported_end execution_id (invoked (moh_call op)) h j t = cc
  told-reported_end execution_id (state_saved s) h j t = cc
  told-reported_end execution_id (status_put code time extra) h j t = cc
  told-reported_end execution_id (ingress_frozen i place) h j t = cc
  told-reported_end execution_id (stage_materialized place) h j t = cc
  told-reported_end execution_id (answered call r) h j t = cc

  -- In a history that the relay can come to, the result file is written, and the handoff is attached to
  -- or resolved, only after GTG has answered a call of MOH, with an attestation, that the execution has
  -- ended.
  pub end_before_telling :
      {execution_id : String} (newer older : Events) (e : RelayEvent)
      → RunsTo execution_id (newer ++ (e ∷ older))
      → tells_end e ≡ true
      → HasAnswer (reports terminal_publishable execution_id) older
  end_before_telling {execution_id} newer older e r t =
      let j = AllJustified-tail execution_id newer (e ∷ older) (RunsTo-AllJustified r) in
      reported_end-HasAnswer execution_id older (told-reported_end execution_id e older j.0 t)
