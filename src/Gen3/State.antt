-- ===== src/Gen3/State.antt =====
-- The durable state of one execution of the first relay: the dictionary that src/dger/relay_accept.py
-- begins and src/dger/relay_moh_invoke.py, relay_moh.py and relay_chm.py go on with. A key that may be
-- absent is an `Option`; a flag that the code only ever sets is false while it is absent.
use dropbox_governed_executi.Prelude.{ℕ, String, Bool, Option}
use dropbox_governed_executi.Json.{Fields}
use dropbox_governed_executi.Gen3.Attestation.{Attestation}
use dropbox_governed_executi.Gen3.Binding.{ToolBinding}

-- The values of `state["phase"]`.
pub data Stage : Type 0 where
  accepted stage_complete reconcile in_doubt terminal : Stage
  publish_pending attached conflict done : Stage

-- The keys that stay as they are from the acceptance on.
pub record Accepted : Type 0 where
  pub execution_id : String
  pub dger_request_id : String
  pub logical_handoff_id : String
  pub intent_digest : String
  pub request_sha256 : String
  pub envelope_sha256 : String
  pub payload_manifest_sha256 : String
  pub frozen_stage_digest : String
  pub frozen_stage : String
  pub envelope : Fields
  pub moh_binding : ToolBinding
  pub chm_binding : ToolBinding
  pub consumer_binding : ToolBinding
  pub chm_preflight_attestation : Attestation
  pub accepted_at_utc : String

-- The operations of MOH that the relay calls.
pub data Operation : Type 0 where
  execute status : Operation

-- What is known of the calls of MOH.
pub record MohKeys : Type 0 where
  pub stage_completed_at_utc : Option String
  pub execute_intent_at_utc : Option String
  pub last_transport_error : Option String
  pub last_invocation_id : Option String
  pub last_gateway_response : Option Fields
  pub last_attestation_error : Option (String × String)
  pub last_attestation : Option Attestation
  pub last_operation : Option Operation
  pub execute_attestation : Option Attestation
  pub status_attestation : Option Attestation
  pub last_response : Option Fields
  pub in_doubt_response : Option Fields
  pub last_reconcile_error : Option (String × String)

-- What the publication of the end reads and writes.
pub record EndKeys : Type 0 where
  pub terminal_state : Option String
  pub terminal_response : Option Fields
  pub terminal_at_utc : Option String
  pub terminal_attestation : Option Attestation
  pub terminal_observed_via : Option Operation
  pub result_sha256 : Option String
  pub result_ref : Option String
  pub chm_result_digest : Option String
  pub last_chm_invocation_id : Option String
  pub chm_attach_attestation : Option Attestation
  pub chm_attached_at_utc : Option String
  pub chm_resolve_attestation : Option Attestation
  pub completed_at_utc : Option String
  pub last_chm_error : Option String

pub record RelayState : Type 0 where
  pub phase : Stage
  pub acceptance : Accepted
  pub moh_execute_calls : ℕ
  pub moh_status_calls : ℕ
  pub chm_publish_calls : ℕ
  pub moh_execute_may_have_happened : Bool
  pub moh_in_doubt_ever : Bool
  pub moh : MohKeys
  pub ending : EndKeys
