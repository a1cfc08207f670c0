-- ===== src/Contract/Types.antt =====
-- The frozen data classes of src/dger/gen4_contract.py.
use dropbox_governed_executi.Prelude.{String, Bool, Option, List}
use dropbox_governed_executi.Prelude.Int.{ℤ}
use dropbox_governed_executi.Json.{Value}

abbrev pub gep_tool_id : String
gep_tool_id = "governed-execution-platform"

abbrev pub ahc_tool_id : String
ahc_tool_id = "autonomous-handoff-coordinator"

abbrev pub moh_tool_id : String
moh_tool_id = "mac-operation-host"

abbrev pub chm_tool_id : String
chm_tool_id = "common-handoff-manager"

pub record InvocationEvidence : Type 0 where
  pub tool_id : String
  pub operation : String
  pub invocation_id : String
  pub tool_identity : String
  pub tool_tree : String
  pub gtg_identity : String
  pub registry_identity : String

-- `InvocationEvidence | dict[str, Any] | None`: an instance of the class, or another value.
pub data AnyEvidence : Type 0 where
  evidence : InvocationEvidence → AnyEvidence
  value : Value → AnyEvidence

pub record ServiceIdentity : Type 0 where
  pub service_principal_id : String
  pub service_deployment_id : String
  pub actor_role : String
  pub identity_digest : String

pub record TrustedOrigin : Type 0 where
  pub tenant_id : String
  pub principal_id : String
  pub deployment_id : String
  pub actor_role : String
  pub fleet_epoch : ℤ
  pub originating_invocation_id : String
  pub context_digest : String

-- `chm_handoff_id` is taken unchecked from a stored dictionary, so it is any value.
pub record TrustedCorrelation : Type 0 where
  pub origin : TrustedOrigin
  pub service_principal_id : String
  pub service_deployment_id : String
  pub service_role : String
  pub delegation_invocation_id : String
  pub delegated_context_digest : String
  pub ahc_execution_claim_id : String
  pub ahc_effect_reservation_id : String
  pub ahc_work_revision : String
  pub gep_execution_id : String
  pub gep_request_digest : String
  pub gep_admission_sha256 : String
  pub chm_handoff_id : Value
  pub correlation_digest : String
  pub provider_evidence : List InvocationEvidence

pub record StageReceipt : Type 0 where
  pub gep_execution_id : String
  pub admission_sha256 : String
  pub payload_manifest_sha256 : String
  pub stage_digest : String
  pub stage_kind : String

pub record AhcObservation : Type 0 where
  pub effect_reservation_id : String
  pub gep_execution_id : String
  pub state : String
  pub observation_digest : String
  pub invocation_evidence : AnyEvidence

-- `result` is a dictionary or `None`.
pub record MohObservation : Type 0 where
  pub gep_execution_id : String
  pub state : String
  pub record_id : Option String
  pub evidence_digest : String
  pub result : Value
  pub invocation_evidence : AnyEvidence

pub record Ack : Type 0 where
  pub is_ok : Bool
  pub digest : String
  pub invocation_evidence : AnyEvidence
