-- ===== src/Gep14/Bound.antt =====
-- What a correlation that the port of src/dger/gen4_gep14_correlation.py returns is bound to.
use dropbox_governed_executi.Prelude.{
  String, ◌≡◌, refl, sym, ◌&&◌, &&-true, List, [], ◌∷◌, ◌==◌, arith,
}
use dropbox_governed_executi.Prelude.Int.{ℤ}
use dropbox_governed_executi.Result.{ok, >>=-eq-ok, require-eq-ok, ok-injective}
use dropbox_governed_executi.Json.{
  is_str-eq, str, Fields, fields, get, is_str, is_null, is_false, has_keys,
}
use dropbox_governed_executi.Platform.{Python}
use dropbox_governed_executi.Primitives.Patterns.{safe_id}
use dropbox_governed_executi.Contract.Types.{
  gep_tool_id, ahc_tool_id, InvocationEvidence, ServiceIdentity, TrustedCorrelation,
}
use dropbox_governed_executi.Contract.Correlation.{
  expected_correlation_digest, validate_correlation,
}
use dropbox_governed_executi.Contract.Binding.{IsBound, validate_correlation-IsBound}
use dropbox_governed_executi.Delegation.{DelegatedServiceContext}
use dropbox_governed_executi.Relay.History.{History}
use dropbox_governed_executi.Gep14.Reads.{
  Reader, PeerRead, RequestIds, read, request_ids, same_origin_service,
}
use dropbox_governed_executi.Gep14.Answers.{
  GepFacts, gep_facts, ahc_answer, ahc_matches, ahc_result_keys, int_from,
}
use dropbox_governed_executi.Gep14.Peers.{
  correlation_body_digest, correlation_of, ahc_arguments, establish_correlation, handoff_evidence,
}

-- The answer of AHC reserves the very effect, for the claim, the execution and the digest that GEP
-- has named.
pub record IsReserved (result : Fields) (ids : RequestIds) (gep : GepFacts) : Type 0 where
  pub status : get result "status" ≡ str "RESERVED"
  pub effect : get result "effect_id" ≡ str ids.effect_id
  pub claim : get result "execution_claim_id" ≡ str gep.claim_id
  pub execution : get result "gep_execution_id" ≡ str ids.execution_id
  pub digest : get result "gep_request_digest" ≡ str gep.request_digest

module _ ⦃py : Python⦄ where
  -- The body that the port digests is the one that the validator expects.
  pub correlation_body_digest-eq :
      (service : ServiceIdentity) (ids : RequestIds) (gep_read : PeerRead) (gep : GepFacts)
      (admission_sha256 manifest : String) (evidence : List InvocationEvidence)
      → let c = correlation_of service ids gep_read gep admission_sha256 manifest evidence in
        c.correlation_digest ≡ expected_correlation_digest c manifest evidence
  unfolding correlation_of correlation_body_digest expected_correlation_digest
  correlation_body_digest-eq service ids gep_read gep a m es = refl

  matches_part :
      (result : Fields) (gep_context : DelegatedServiceContext) (ids : RequestIds) (gep : GepFacts)
      (revision epoch : ℤ)
      → ahc_matches result gep_context ids gep revision epoch ≡ ok tt
      → (get result "effect_id" ≡ str ids.effect_id)
        × (get result "execution_claim_id" ≡ str gep.claim_id)
        × (get result "gep_execution_id" ≡ str ids.execution_id)
        × (get result "gep_request_digest" ≡ str gep.request_digest)
  unfolding ahc_matches
  matches_part result context ids gep revision epoch h = ground (
    arith,
    is_str-eq (get result "effect_id") ids.effect_id,
    is_str-eq (get result "execution_claim_id") gep.claim_id,
    is_str-eq (get result "gep_execution_id") ids.execution_id,
    is_str-eq (get result "gep_request_digest") gep.request_digest,
  )

  pub ahc_answer-IsReserved :
      (result : Fields) (context gep_context : DelegatedServiceContext) (ids : RequestIds)
      (gep : GepFacts)
      → ahc_answer result context gep_context ids gep ≡ ok tt
      → IsReserved result ids gep
  unfolding ahc_answer
  ahc_answer-IsReserved result context gep_context ids gep h =
      let h₁ =
        (require-eq-ok (same_origin_service context gep_context) "AHC_ORIGIN_CONTEXT_MISMATCH" _
          h).1 in
      let h₂ =
        (require-eq-ok
          (has_keys result ahc_result_keys && is_str (get result "code") "AHC_EFFECT_READ")
          "AHC_EFFECT_READ_RESULT_INVALID" _ h₁).1 in
      let r =
        require-eq-ok
          (is_str (get result "status") "RESERVED"
            && is_str (get result "reconciliation_mode") "INDEPENDENT")
          "AHC_EFFECT_STALE_OR_SUPERSEDED" _ h₂ in
      let (revision, _, h₃) = >>=-eq-ok (int_from 0 (get result "workstream_revision")) _ r.1 in
      let (epoch, _, h₄) = >>=-eq-ok (int_from 1 (get result "provisioned_fleet_epoch")) _ h₃ in
      let h₅ =
        (require-eq-ok
          (is_null (get result "terminal_evidence_digest") && is_false (get result "replayed"))
          "AHC_EFFECT_READ_RESULT_INVALID" _ h₄).1 in
      let (_, _, h₆) =
        >>=-eq-ok (safe_id (get result "effect_class") "AHC_EFFECT_READ_RESULT_INVALID") _ h₅ in
      let (_, _, h₇) =
        >>=-eq-ok (safe_id (get result "workstream_id") "AHC_EFFECT_READ_RESULT_INVALID") _ h₆ in
      let (effect, claim, execution, digest) =
        matches_part result gep_context ids gep revision epoch h₇ in
      record {
        status = is_str-eq _ _ (&&-true _ _ r.0).0;
        effect = effect;
        claim = claim;
        execution = execution;
        digest = digest;
      }

-- The reads that a correlation was built from, and what they say of it.
pub record IsConfirmed ⦃py : Python⦄ (reader : Reader) (h : History) (request : Fields)
    (admission_sha256 manifest : String) (service : ServiceIdentity) (c : TrustedCorrelation)
    : Type 0 where
  pub ids : RequestIds
  pub asked : request_ids request admission_sha256 manifest ≡ ok ids
  pub gep_read : PeerRead
  pub gep_answered :
      read reader h gep_tool_id "correlation_read"
        (fields (("execution_id", str ids.execution_id) ∷ []))
        service
      ≡ ok gep_read
  pub gep : GepFacts
  pub gep_accepted :
      gep_facts gep_read.result gep_read.context service ids admission_sha256 ≡ ok gep
  pub ahc : PeerRead
  pub ahc_answered :
      read reader h ahc_tool_id "effect_read" (ahc_arguments ids gep) service ≡ ok ahc
  pub reserved : IsReserved ahc.result ids gep
  pub handoff : List InvocationEvidence
  pub built :
      c
      ≡ correlation_of service ids gep_read gep admission_sha256 manifest
          (gep_read.evidence ∷ ahc.evidence ∷ handoff)
  pub accepted : validate_correlation c request admission_sha256 manifest service ≡ ok tt

module _ ⦃py : Python⦄ (reader : Reader) (h : History) where
  -- A correlation that the port returns is built from an answer of GEP about the request's
  -- execution and from an answer of AHC that the effect is reserved for the same claim, execution
  -- and request digest, and the contract's validator accepts it.
  pub establish_correlation-IsConfirmed :
      (request : Fields) (admission_sha256 manifest : String) (service : ServiceIdentity)
      (c : TrustedCorrelation)
      → establish_correlation reader h request admission_sha256 manifest service ≡ ok c
      → IsConfirmed reader h request admission_sha256 manifest service c
  unfolding establish_correlation
  establish_correlation-IsConfirmed request a m service c e =
      let e₁ =
        (require-eq-ok (service.actor_role == "EXECUTION_RELAY") "SERVICE_ROLE_INVALID" _ e).1 in
      let (ids, asked, e₂) = >>=-eq-ok (request_ids request a m) _ e₁ in
      let (gep_read, gep_answered, e₃) =
        >>=-eq-ok
          (read reader h gep_tool_id "correlation_read"
            (fields (("execution_id", str ids.execution_id) ∷ [])) service)
          _ e₂ in
      let (gep, gep_accepted, e₄) =
        >>=-eq-ok (gep_facts gep_read.result gep_read.context service ids a) _ e₃ in
      let e₅ =
        (require-eq-ok (gep.origin.actor_role == "BUILDER") "TRUSTED_ORIGIN_ROLE_INVALID" _ e₄).1 in
      let (ahc, ahc_answered, e₆) =
        >>=-eq-ok (read reader h ahc_tool_id "effect_read" (ahc_arguments ids gep) service) _ e₅ in
      let (_, reserved, e₇) =
        >>=-eq-ok (ahc_answer ahc.result ahc.context gep_read.context ids gep) _ e₆ in
      let (handoff, _, e₈) =
        >>=-eq-ok (handoff_evidence reader h ids.handoff_id gep_read ids service) _ e₇ in
      let built =
        correlation_of service ids gep_read gep a m (gep_read.evidence ∷ ahc.evidence ∷ handoff) in
      let (_, accepted, e₉) = >>=-eq-ok (validate_correlation built request a m service) _ e₈ in
      let same : built ≡ c = ok-injective e₉ in
      record {
        ids = ids;
        asked = asked;
        gep_read = gep_read;
        gep_answered = gep_answered;
        gep = gep;
        gep_accepted = gep_accepted;
        ahc = ahc;
        ahc_answered = ahc_answered;
        reserved = ahc_answer-IsReserved ahc.result ahc.context gep_read.context ids gep reserved;
        handoff = handoff;
        built = sym same;
        accepted = rw (← same) accepted;
      }

  -- It names the relay's own service, the Builder that GEP knows as the origin, the frozen
  -- admission, and exactly the required evidence under its digest.
  pub establish_correlation-IsBound :
      (request : Fields) (admission_sha256 manifest : String) (service : ServiceIdentity)
      (c : TrustedCorrelation)
      → establish_correlation reader h request admission_sha256 manifest service ≡ ok c
      → IsBound c admission_sha256 manifest service
  establish_correlation-IsBound request a m service c e =
      validate_correlation-IsBound c request a m service
        (establish_correlation-IsConfirmed request a m service c e).accepted
