-- ===== src/Relay/Effect/Publish.antt =====
-- The end of src/dger/gen4_effect.py: `_publish_terminal`, `_accept_ahc_terminal` and
-- `_publish_chm`.
use Prim.Native.String.{◌++◌}
use dropbox_governed_executi.Prelude.{
  ℕ, ◌+◌, ◌*◌, String, Bool, true, false, ◌&&◌, Option, none, some, [], ◌∷◌, ◌==◌, leb, nat_eq,
  length, if◌then◌else◌,
}
use dropbox_governed_executi.Result.{
  dger, other, Result, ok, err, raise, require, some_or, ◌>>=◌ as ◌>>=ᵣ◌,
}
use dropbox_governed_executi.Json.{str, dict, optional, is_null}
use dropbox_governed_executi.Platform.{
  Bytes, Python, sha256, canonical_digest, canonical_file_bytes,
}
use dropbox_governed_executi.Primitives.Files.{Entry, absent, read_regular}
use dropbox_governed_executi.Contract.Types.{
  ahc_tool_id, chm_tool_id, TrustedCorrelation, MohObservation, Ack,
}
use dropbox_governed_executi.Contract.Dicts.{any_asdict, moh_asdict}
use dropbox_governed_executi.Contract.Evidence.{validate_ack}
use dropbox_governed_executi.Relay.State.{
  State, Phase, ahc_terminal_pending, chm_pending, done, result_conflict, chm_result_conflict,
  stored_ack,
}
use dropbox_governed_executi.Relay.History.{
  ahc_accept_terminal, chm_publish_terminal, ack_replied, published,
}
use dropbox_governed_executi.Relay.Exec.{
  Relay, Exec, pure, lift, ◌>>=◌, ◌>>◌, get_state, modify, emit, save, status, fault_point, ask,
}
use dropbox_governed_executi.Relay.Current.{current_correlation}
use dropbox_governed_executi.Relay.Effect.Ahc.{blocked}

abbrev pub result_schema : String
result_schema = "dger-external-effect-result/v2"

abbrev pub max_result_bytes : ℕ
max_result_bytes = 512 * 1024

-- Equality of two byte strings.
unfoldable pub same_bytes : Bytes → Bytes → Bool
same_bytes [] [] = true
same_bytes (x ∷ xs) (y ∷ ys) = nat_eq x y && same_bytes xs ys
same_bytes _ _ = false

module _ ⦃py : Python⦄ (self : Relay) where
  -- The bytes of `result.json`.
  unfoldable pub result_record : String → TrustedCorrelation → MohObservation → String → Bytes
  unfolding canonical_file_bytes
  result_record rid c terminal digest = canonical_file_bytes (
      dict (
        ("schema", str result_schema)
        ∷ ("dger_request_id", str rid)
        ∷ ("gep_execution_id", str c.gep_execution_id)
        ∷ ("ahc_effect_reservation_id", str c.ahc_effect_reservation_id)
        ∷ ("moh_state", str terminal.state)
        ∷ ("moh_record_id", optional terminal.record_id)
        ∷ ("moh_evidence_digest", str terminal.evidence_digest)
        ∷ ("moh_invocation_evidence", any_asdict terminal.invocation_evidence)
        ∷ ("moh_result", terminal.result)
        ∷ ("terminal_digest", str digest)
        ∷ []))

  -- A file that is there must hold the same bytes.
  unfoldable pub compare_result : Result Bytes → Bytes → Exec (Unit {0})
  compare_result existing raw = do
    found ← lift existing
    if same_bytes found raw then pure tt else (do
      modify (λ s. record s { phase = result_conflict })
      save
      lift (raise "RESULT_RECORD_CONFLICT"))

  unfoldable pub place_result : Entry → String → Bytes → Exec (Unit {0})
  unfolding compare_result
  place_result absent rid raw = emit (published rid raw)
  place_result entry rid raw =
      compare_result (read_regular entry "result.json" max_result_bytes) raw

  -- The terminal observation with its digest, if the two agree.
  unfoldable pub terminal_of : State → Result (MohObservation × String)
  terminal_of s = elim s.moh_terminal_observation [
    | none ↦ raise "MOH_TERMINAL_STATE_INVALID"
    | some terminal ↦ elim s.moh_terminal_digest [
      | none ↦ raise "MOH_TERMINAL_STATE_INVALID"
      | some digest ↦
          if digest == canonical_digest (moh_asdict terminal)
          then ok (terminal, digest)
          else raise "MOH_TERMINAL_STATE_INVALID"
    ]
  ]

  unfoldable pub publish_terminal : Exec (Unit {0})
  unfolding place_result
  publish_terminal = do
    s ← get_state
    let rid = s.dger_request_id
    c ← lift (current_correlation self.service s)
    (terminal, digest) ← lift (terminal_of s)
    let raw = result_record rid c terminal digest
    lift (require (leb (length raw) max_result_bytes) "RESULT_RECORD_TOO_LARGE")
    λ x. place_result (self.result_at x.history rid) rid raw x
    modify (λ s. record s {
      result_ref = some ("RunsV2/" ++ rid ++ "/result.json");
      result_sha256 = some (sha256 raw);
      phase = ahc_terminal_pending;
    })
    save
    status self "AHC_TERMINAL_PENDING" (("result_sha256", str (sha256 raw)) ∷ [])
    fault_point self "after_result_publication"

  -- `state[key]` for a key that may be absent.
  unfoldable pub stored_key : Option String → String → Result String
  stored_key v key = some_or v (other "KeyError" key)

  -- `CHM_PENDING if c.chm_handoff_id is not None else DONE`
  unfoldable pub phase_after_ahc : TrustedCorrelation → Phase
  phase_after_ahc c = if is_null c.chm_handoff_id then done else chm_pending

  abbrev pub text_after_ahc : TrustedCorrelation → String
  text_after_ahc c = if is_null c.chm_handoff_id then "DONE" else "CHM_PENDING"

  unfoldable pub accept_answer : TrustedCorrelation → Result Ack → Exec (Unit {0})
  unfolding phase_after_ahc
  accept_answer c (err exc) = blocked self "ahc_accept_terminal" "AHC_TERMINAL_BLOCKED" exc
  accept_answer c (ok ack) = do
    lift (validate_ack ack ahc_tool_id "accept_terminal_effect")
    modify (λ s. record s { ahc_terminal_ack = some (stored_ack ack); phase = phase_after_ahc c })
    save
    status self (text_after_ahc c) []
    fault_point self "after_ahc_terminal"

  -- The call in its `try`; a missing key is an exception of the `try` too.
  unfoldable pub accept_call :
      TrustedCorrelation → Result (String × String × String) → Exec (Unit {0})
  unfolding accept_answer
  accept_call c (err exc) = blocked self "ahc_accept_terminal" "AHC_TERMINAL_BLOCKED" exc
  accept_call c (ok (digest, ref, sha)) = do
    r ←
        ask ahc_accept_terminal (λ h. self.peers.ahc_accept_terminal h c digest ref sha)
          (λ rid. ack_replied rid ahc_accept_terminal)
    accept_answer c r

  unfoldable pub terminal_arguments : State → Result (String × String × String)
  unfolding stored_key
  terminal_arguments s = stored_key s.moh_terminal_digest "moh_terminal_digest" >>=ᵣ λ digest.
      stored_key s.result_ref "result_ref" >>=ᵣ λ ref.
      stored_key s.result_sha256 "result_sha256" >>=ᵣ λ sha. ok (digest, ref, sha)

  unfoldable pub accept_ahc_terminal : Exec (Unit {0})
  unfolding accept_call terminal_arguments
  accept_ahc_terminal = do
    s ← get_state
    c ← lift (current_correlation self.service s)
    modify (λ s. record s { ahc_terminal_calls = s.ahc_terminal_calls + 1 })
    save
    accept_call c (terminal_arguments s)

  -- A bad acknowledgement is final: the phase says so before the error goes on.
  unfoldable pub chm_acknowledged : Ack → Result (Unit {0}) → Exec (Unit {0})
  chm_acknowledged ack (err (other name text)) = lift (err (other name text))
  chm_acknowledged ack (err (dger code detail)) = do
    modify (λ s. record s { phase = chm_result_conflict })
    save
    lift (err (dger code detail))
  chm_acknowledged ack (ok _) = do
    modify (λ s. record s { chm_terminal_ack = some (stored_ack ack); phase = done })
    save
    status self "DONE" []

  unfoldable pub chm_answer : Result Ack → Exec (Unit {0})
  unfolding chm_acknowledged
  chm_answer (err exc) = blocked self "chm_publish_terminal" "CHM_PUBLICATION_BLOCKED" exc
  chm_answer (ok ack) =
      chm_acknowledged ack (validate_ack ack chm_tool_id "publish_terminal_result" >>=ᵣ λ _. ok tt)

  unfoldable pub chm_call : TrustedCorrelation → Result (String × String × String) → Exec (Unit {0})
  unfolding chm_answer
  chm_call c (err exc) = blocked self "chm_publish_terminal" "CHM_PUBLICATION_BLOCKED" exc
  chm_call c (ok (digest, ref, sha)) = do
    r ←
        ask chm_publish_terminal (λ h. self.peers.chm_publish_terminal h c ref sha)
          (λ rid. ack_replied rid chm_publish_terminal)
    chm_answer r

  unfoldable pub result_arguments : State → Result (String × String × String)
  unfolding stored_key
  result_arguments s = stored_key s.result_ref "result_ref" >>=ᵣ λ ref.
      stored_key s.result_sha256 "result_sha256" >>=ᵣ λ sha. ok ("", ref, sha)

  unfoldable pub publish_chm : Exec (Unit {0})
  unfolding chm_call result_arguments
  publish_chm = do
    s ← get_state
    c ← lift (current_correlation self.service s)
    if is_null c.chm_handoff_id then (do modify (λ s. record s { phase = done }); save) else (do
      modify (λ s. record s { chm_publish_calls = s.chm_publish_calls + 1 })
      save
      chm_call c (result_arguments s))
