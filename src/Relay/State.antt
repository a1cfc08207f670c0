-- ===== src/Relay/State.antt =====
-- The durable state of one request: the dictionary that src/dger/gen4_state.py and
-- src/dger/gen4_effect.py write to `executions/<dger_request_id>.json`, field by field. A key that
-- the code may leave out is an `Option`; a flag that it only ever sets is false while it is absent.
use Prim.Native.String.{◌++◌}
use dropbox_governed_executi.Prelude.{
  ℕ, zero, suc, ◌+◌, String, Bool, true, false, Option, none, some, ◌==◌, if◌then◌else◌,
}
use dropbox_governed_executi.Result.{Exc, dger, other}
use dropbox_governed_executi.Json.{Fields}
use dropbox_governed_executi.Contract.Types.{
  value, StageReceipt, AhcObservation, MohObservation, Ack,
}
use dropbox_governed_executi.Contract.Dicts.{any_asdict}

-- The values of `state["phase"]`; a text that is none of them is `unknown`.
pub data Phase : Type 0 where
  ingress_frozen correlated moh_staged pre_ahc_execute_wal ahc_begin_reconcile : Phase
  ahc_in_doubt moh_reconcile moh_in_doubt_ahc_pending moh_in_doubt moh_terminal : Phase
  ahc_terminal_pending chm_pending done result_conflict chm_result_conflict : Phase
  unknown : String → Phase

pub record LastError : Type 0 where
  pub place : String
  pub code : String
  pub detail : String

-- The keys that end in `_at_utc`.
pub record Times : Type 0 where
  pub accepted_at_utc : String
  pub correlated_at_utc : Option String
  pub moh_stage_at_utc : Option String
  pub pre_ahc_execute_wal_at_utc : Option String
  pub ahc_in_doubt_at_utc : Option String
  pub last_safe_moh_status_at_utc : Option String
  pub moh_execute_call_wal_at_utc : Option String
  pub moh_terminal_at_utc : Option String

pub record State : Type 0 where
  pub phase : Phase
  pub dger_request_id : String
  pub request : Fields
  pub transport_intent_digest : String
  pub request_sha256 : String
  pub admission_sha256 : String
  pub payload_manifest_sha256 : String
  pub ready_sha256 : String
  pub frozen_stage : String
  pub service_identity_digest : String
  pub execute_reconciliation_required : Bool
  pub moh_execute_call_may_have_happened : Bool
  pub moh_execute_calls : ℕ
  pub moh_status_calls : ℕ
  pub moh_in_doubt_ever : Bool
  pub ahc_terminal_calls : ℕ
  pub chm_publish_calls : ℕ
  pub error_generation : ℕ
  pub last_error : Option LastError
  pub trusted_correlation : Option Fields
  pub moh_stage_receipt : Option StageReceipt
  pub ahc_begin_response_ambiguous : Bool
  pub ahc_begin_observation : Option AhcObservation
  pub last_ahc_status : Option AhcObservation
  pub pre_execute_status_required : Option Bool
  pub last_moh_observation : Option MohObservation
  pub last_moh_observed_via : Option String
  pub moh_in_doubt_source : Option String
  pub moh_in_doubt_observation : Option MohObservation
  pub moh_terminal_observation : Option MohObservation
  pub moh_terminal_digest : Option String
  pub last_safe_moh_status : Option MohObservation
  pub moh_execute_response_invalid : Bool
  pub ahc_in_doubt_report_digest : Option String
  pub ahc_in_doubt_report_ack : Option Ack
  pub result_ref : Option String
  pub result_sha256 : Option String
  pub ahc_terminal_ack : Option Ack
  pub chm_terminal_ack : Option Ack
  pub times : Times

-- `asdict(obs)` as it is stored: the evidence becomes its dictionary.
abbrev pub stored_moh : MohObservation → MohObservation
stored_moh obs = record obs { invocation_evidence = value (any_asdict obs.invocation_evidence) }

abbrev pub stored_ahc : AhcObservation → AhcObservation
stored_ahc obs = record obs { invocation_evidence = value (any_asdict obs.invocation_evidence) }

abbrev pub stored_ack : Ack → Ack
stored_ack ack = record ack { invocation_evidence = value (any_asdict ack.invocation_evidence) }

-- `text[:n]`
unfoldable pub first_chars : ℕ → String → String
first_chars zero s = String.[]
first_chars (suc n) String.[] = String.[]
first_chars (suc n) (String.◌∷◌ c s) = String.◌∷◌ c (first_chars n s)

-- `str(exc)`
unfoldable pub exc_text : Exc → String
exc_text (dger code detail) = if detail == "" then code else code ++ ":" ++ detail
exc_text (other name text) = text

-- `_error_code`
unfoldable pub error_code : Exc → String
error_code (dger code detail) = code
error_code (other name text) = name

-- `_record_error`
unfoldable pub record_error : String → Exc → State → State
unfolding error_code exc_text first_chars
record_error place exc s = record s {
  error_generation = s.error_generation + 1;
  last_error =
      some
        (record { place = place; code = error_code exc; detail = first_chars 512 (exc_text exc) });
}

-- `state.get("pre_execute_status_required") is not False` is false.
abbrev pub is_some_false : Option Bool → Bool
is_some_false (some false) = true
is_some_false _ = false

abbrev pub is_some {ℓ} : {A : Type ℓ} → Option A → Bool
is_some none = false
is_some (some a) = true
