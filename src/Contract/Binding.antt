-- ===== src/Contract/Binding.antt =====
-- What the checks of src/dger/gen4_contract.py promise of a value that passes them.
use dropbox_governed_executi.Prelude.{
  String, ◌≡◌, refl, true, List, map, arith, eq_iff, no_repeats, inl, inr,
}
use dropbox_governed_executi.Result.{Result, ok, err, Result-cases, ◌>>◌}
use dropbox_governed_executi.Json.{Fields}
use dropbox_governed_executi.Platform.{Python}
use dropbox_governed_executi.Contract.Types.{
  InvocationEvidence, ServiceIdentity, TrustedCorrelation,
}
use dropbox_governed_executi.Contract.Correlation.{
  evidence_list, required_pairs, expected_correlation_digest, validate_trusted_ids,
  validate_trusted_service, validate_trusted_request, validate_trusted_evidence,
  validate_correlation, same_pairs,
}

-- The relay's own identity, the immutable admission and the origin that may ask for an effect.
pub record IsBound ⦃py : Python⦄ (c : TrustedCorrelation)
    (admission_sha256 payload_manifest_sha256 : String) (service : ServiceIdentity) : Type 0 where
  pub principal : c.service_principal_id ≡ service.service_principal_id
  pub deployment : c.service_deployment_id ≡ service.service_deployment_id
  pub role : service.actor_role ≡ "EXECUTION_RELAY"
  pub origin_role : c.origin.actor_role ≡ "BUILDER"
  pub admission : c.gep_admission_sha256 ≡ admission_sha256
  pub attested :
      (es : List InvocationEvidence) × (evidence_list c ≡ ok es)
      × (no_repeats (map (λ e. e.invocation_id) es) ≡ true)
      × (same_pairs (map (λ e. (e.tool_id, e.operation)) es) (required_pairs c.chm_handoff_id)
          ≡ true)
      × (c.correlation_digest ≡ expected_correlation_digest c payload_manifest_sha256 es)

module _ ⦃py : Python⦄ where
  service_part :
      (c : TrustedCorrelation) (service : ServiceIdentity)
      → validate_trusted_service c service ≡ ok tt
      → (c.service_principal_id ≡ service.service_principal_id)
        × (c.service_deployment_id ≡ service.service_deployment_id)
        × (service.actor_role ≡ "EXECUTION_RELAY")
  unfolding validate_trusted_service
  service_part c service h = ground (
    arith,
    eq_iff c.service_principal_id service.service_principal_id,
    eq_iff c.service_deployment_id service.service_deployment_id,
    eq_iff service.actor_role "EXECUTION_RELAY",
  )

  -- The checks in front of the one that is read off here.
  after-check : {A : Type 0} (r : Result A) (k : Result (Unit {0})) → (r >> k) ≡ ok tt → k ≡ ok tt
  after-check (ok a) k h = h
  after-check (err e) k h = cc

  before-check : (r k : Result (Unit {0})) → (r >> k) ≡ ok tt → r ≡ ok tt
  before-check (ok u) k h = refl
  before-check (err e) k h = cc

  origin_part :
      (c : TrustedCorrelation) → validate_trusted_ids c ≡ ok tt → c.origin.actor_role ≡ "BUILDER"
  unfolding validate_trusted_ids
  origin_part c h = ground (arith, eq_iff c.origin.actor_role "BUILDER")

  request_part :
      (c : TrustedCorrelation) (request : Fields) (admission_sha256 : String)
      → validate_trusted_request c request admission_sha256 ≡ ok tt
      → c.gep_admission_sha256 ≡ admission_sha256
  unfolding validate_trusted_request
  request_part c request admission_sha256 h =
      ground (arith, eq_iff c.gep_admission_sha256 admission_sha256)

  evidence_part :
      (c : TrustedCorrelation) (m : String)
      → validate_trusted_evidence c m ≡ ok tt
      → (es : List InvocationEvidence) × (evidence_list c ≡ ok es)
        × (no_repeats (map (λ e. e.invocation_id) es) ≡ true)
        × (same_pairs (map (λ e. (e.tool_id, e.operation)) es) (required_pairs c.chm_handoff_id)
            ≡ true)
        × (c.correlation_digest ≡ expected_correlation_digest c m es)
  unfolding validate_trusted_evidence
  evidence_part c m h = elim (Result-cases (evidence_list c)) [
    | inr (x, p) ↦ cc (rw p at h)
    | inl (es, p) ↦
        let k = rw p at h in
        (
          es,
          p,
          ground arith,
          ground arith,
          ground (arith, eq_iff c.correlation_digest (expected_correlation_digest c m es)),
        )
  ]

  -- A correlation that passes `_validate_correlation` names the relay's own service, asks for the
  -- effect in the name of a Builder, is about the frozen admission, and carries exactly the
  -- required evidence, each invocation once, under the digest of all its fields.
  pub validate_correlation-IsBound :
      (c : TrustedCorrelation) (request : Fields)
      (admission_sha256 payload_manifest_sha256 : String) (service : ServiceIdentity)
      → validate_correlation c request admission_sha256 payload_manifest_sha256 service ≡ ok tt
      → IsBound c admission_sha256 payload_manifest_sha256 service
  unfolding validate_correlation
  validate_correlation-IsBound c request a m service h =
      let h₁ = after-check (validate_trusted_ids c) _ h in
      let h₂ = after-check (validate_trusted_service c service) _ h₁ in
      let h₃ = after-check (validate_trusted_request c request a) _ h₂ in
      let s = service_part c service (before-check _ _ h₁) in
      record {
        principal = s.0;
        deployment = s.1;
        role = s.2;
        origin_role = origin_part c (before-check _ _ h);
        admission = request_part c request a (before-check _ _ h₂);
        attested = evidence_part c m h₃;
      }
