-- ===== src/Contract/Dicts.antt =====
-- `dataclasses.asdict` on the data classes of src/dger/gen4_contract.py.
use dropbox_governed_executi.Prelude.{[], ◌∷◌}
use dropbox_governed_executi.Json.{Value, num, str, dict, optional}
use dropbox_governed_executi.Contract.Types.{
  InvocationEvidence, AnyEvidence, evidence, value, TrustedOrigin, MohObservation,
}

unfoldable pub evidence_asdict : InvocationEvidence → Value
evidence_asdict e = dict (
    ("tool_id", str e.tool_id)
    ∷ ("operation", str e.operation)
    ∷ ("invocation_id", str e.invocation_id)
    ∷ ("tool_identity", str e.tool_identity)
    ∷ ("tool_tree", str e.tool_tree)
    ∷ ("gtg_identity", str e.gtg_identity)
    ∷ ("registry_identity", str e.registry_identity)
    ∷ [])

unfoldable pub any_asdict : AnyEvidence → Value
unfolding evidence_asdict
any_asdict (evidence e) = evidence_asdict e
any_asdict (value v) = v

unfoldable pub origin_asdict : TrustedOrigin → Value
origin_asdict o = dict (
    ("tenant_id", str o.tenant_id)
    ∷ ("principal_id", str o.principal_id)
    ∷ ("deployment_id", str o.deployment_id)
    ∷ ("actor_role", str o.actor_role)
    ∷ ("fleet_epoch", num o.fleet_epoch)
    ∷ ("originating_invocation_id", str o.originating_invocation_id)
    ∷ ("context_digest", str o.context_digest)
    ∷ [])

unfoldable pub moh_asdict : MohObservation → Value
unfolding any_asdict
moh_asdict obs = dict (
    ("gep_execution_id", str obs.gep_execution_id)
    ∷ ("state", str obs.state)
    ∷ ("record_id", optional obs.record_id)
    ∷ ("evidence_digest", str obs.evidence_digest)
    ∷ ("result", obs.result)
    ∷ ("invocation_evidence", any_asdict obs.invocation_evidence)
    ∷ [])
