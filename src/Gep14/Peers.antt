-- ===== src/Gep14/Peers.antt =====
-- `Gep14CorrelationPeers` of src/dger/gen4_gep14_correlation.py.
use dropbox_governed_executi.Prelude.{String, Option, none, some, List, [], ◌∷◌, map, ◌==◌}
use dropbox_governed_executi.Result.{Result, ok, require, ◌>>=◌, ◌>>◌}
use dropbox_governed_executi.Json.{str, arr, Fields, items, fields, dict, optional}
use dropbox_governed_executi.Platform.{Python, canonical_digest}
use dropbox_governed_executi.Contract.Types.{
  gep_tool_id, ahc_tool_id, chm_tool_id, InvocationEvidence, ServiceIdentity, TrustedCorrelation,
}
use dropbox_governed_executi.Contract.Dicts.{evidence_asdict, origin_asdict}
use dropbox_governed_executi.Contract.Correlation.{validate_correlation}
use dropbox_governed_executi.Relay.History.{History}
use dropbox_governed_executi.Relay.Exec.{Peers}
use dropbox_governed_executi.Gep14.Reads.{Reader, PeerRead, RequestIds, read, request_ids}
use dropbox_governed_executi.Gep14.Answers.{GepFacts, gep_facts, ahc_answer, chm_answer}

module _ ⦃py : Python⦄ where
  -- The digest of the body of a correlation, in the order of the source.
  unfoldable pub correlation_body_digest :
      ServiceIdentity
      → RequestIds
      → PeerRead
      → GepFacts
      → String
      → String
      → List InvocationEvidence
      → String
  unfolding canonical_digest origin_asdict evidence_asdict
  correlation_body_digest service ids gep_read gep admission_sha256 manifest evidence =
      canonical_digest (
        dict (
          ("origin", origin_asdict gep.origin)
          ∷ ("service_principal_id", str service.service_principal_id)
          ∷ ("service_deployment_id", str service.service_deployment_id)
          ∷ ("service_role", str service.actor_role)
          ∷ ("delegation_invocation_id", str gep_read.context.delegation_invocation_id)
          ∷ ("delegated_context_digest", str gep_read.context.context_digest)
          ∷ ("ahc_execution_claim_id", str gep.claim_id)
          ∷ ("ahc_effect_reservation_id", str ids.effect_id)
          ∷ ("ahc_work_revision", str gep.work_revision)
          ∷ ("gep_execution_id", str ids.execution_id)
          ∷ ("gep_request_digest", str gep.request_digest)
          ∷ ("gep_admission_sha256", str admission_sha256)
          ∷ ("payload_manifest_sha256", str manifest)
          ∷ ("chm_handoff_id", optional ids.handoff_id)
          ∷ ("provider_evidence", arr (items (map evidence_asdict evidence)))
          ∷ []))

  unfoldable pub correlation_of :
      ServiceIdentity
      → RequestIds
      → PeerRead
      → GepFacts
      → String
      → String
      → List InvocationEvidence
      → TrustedCorrelation
  unfolding correlation_body_digest
  correlation_of service ids gep_read gep admission_sha256 manifest evidence = record {
    origin = gep.origin;
    service_principal_id = service.service_principal_id;
    service_deployment_id = service.service_deployment_id;
    service_role = service.actor_role;
    delegation_invocation_id = gep_read.context.delegation_invocation_id;
    delegated_context_digest = gep_read.context.context_digest;
    ahc_execution_claim_id = gep.claim_id;
    ahc_effect_reservation_id = ids.effect_id;
    ahc_work_revision = gep.work_revision;
    gep_execution_id = ids.execution_id;
    gep_request_digest = gep.request_digest;
    gep_admission_sha256 = admission_sha256;
    chm_handoff_id = optional ids.handoff_id;
    correlation_digest =
        correlation_body_digest service ids gep_read gep admission_sha256 manifest evidence;
    provider_evidence = evidence;
  }

  -- The arguments of the read of AHC.
  abbrev pub ahc_arguments : RequestIds → GepFacts → Fields
  ahc_arguments ids gep = fields (
      ("execution_claim_id", str gep.claim_id)
      ∷ ("effect_id", str ids.effect_id)
      ∷ ("gep_execution_id", str ids.execution_id)
      ∷ ("gep_request_digest", str gep.request_digest)
      ∷ [])

module _ ⦃py : Python⦄ (reader : Reader) (h : History) where
  -- The read of CHM, if there is a handoff: its evidence, or none.
  unfoldable pub handoff_evidence :
      Option String → PeerRead → RequestIds → ServiceIdentity → Result (List InvocationEvidence)
  unfolding read chm_answer
  handoff_evidence none gep_read ids service = ok []
  handoff_evidence (some handoff) gep_read ids service = do
    chm ←
        read reader h chm_tool_id "handoff_read" (fields (("handoff_id", str handoff) ∷ [])) service
    chm_answer chm.result chm.context gep_read.context ids handoff
    ok (chm.evidence ∷ [])

  unfoldable pub establish_correlation :
      Fields → String → String → ServiceIdentity → Result TrustedCorrelation
  unfolding request_ids read gep_facts ahc_answer handoff_evidence correlation_of
  establish_correlation request admission_sha256 manifest service = do
    require (service.actor_role == "EXECUTION_RELAY") "SERVICE_ROLE_INVALID"
    ids ← request_ids request admission_sha256 manifest
    gep_read ←
        read reader h gep_tool_id "correlation_read"
          (fields (("execution_id", str ids.execution_id) ∷ [])) service
    gep ← gep_facts gep_read.result gep_read.context service ids admission_sha256
    require (gep.origin.actor_role == "BUILDER") "TRUSTED_ORIGIN_ROLE_INVALID"
    ahc ← read reader h ahc_tool_id "effect_read" (ahc_arguments ids gep) service
    ahc_answer ahc.result ahc.context gep_read.context ids gep
    handoff ← handoff_evidence ids.handoff_id gep_read ids service
    let evidence = gep_read.evidence ∷ ahc.evidence ∷ handoff
    let c = correlation_of service ids gep_read gep admission_sha256 manifest evidence
    validate_correlation c request admission_sha256 manifest service
    ok c

-- The peers that supply the correlation, and delegate every other call to `base`.
module _ ⦃py : Python⦄ (base : Peers) (reader : Reader) where
  unfoldable pub gep14_peers : Peers
  unfolding establish_correlation
  gep14_peers = record {
    establish_correlation = establish_correlation reader;
    stage_moh = base.stage_moh;
    ahc_begin = base.ahc_begin;
    ahc_status = base.ahc_status;
    moh_execute = base.moh_execute;
    moh_status = base.moh_status;
    ahc_note_in_doubt = base.ahc_note_in_doubt;
    ahc_accept_terminal = base.ahc_accept_terminal;
    chm_publish_terminal = base.chm_publish_terminal;
  }
