-- ===== src/Runtime/Evidence.antt =====
-- The evidence of a call through `_invoke` of src/dger/gen4_runtime_peers.py, and the validators of
-- src/dger/gen4_contract.py on an answer that carries it.
use dropbox_governed_executi.Prelude.{
  String, ◌≡◌, ap, subst, true, ◌&&◌, some, List, ◌==◌, elem, eq_refl,
}
use dropbox_governed_executi.Result.{ok, >>=-eq-ok, require-eq-ok, ok-injective}
use dropbox_governed_executi.Json.{Value, str, Fields, obj}
use dropbox_governed_executi.Runtime.Answers.{one_of}
use dropbox_governed_executi.Platform.{Python}
use dropbox_governed_executi.Primitives.Patterns.{is_hex64}
use dropbox_governed_executi.Contract.Types.{
  ahc_tool_id, InvocationEvidence, AnyEvidence, evidence, ServiceIdentity, TrustedCorrelation,
  AhcObservation,
}
use dropbox_governed_executi.Contract.Evidence.{
  invocation_evidence_from_any, validate_invocation_evidence, validate_ack,
}
use dropbox_governed_executi.Contract.Observations.{ahc_states, validate_ahc}
use dropbox_governed_executi.Contract.Stored.{validate_invocation_evidence-same}
use dropbox_governed_executi.Relay.History.{History}
use dropbox_governed_executi.Gep14.Reads.{mapping}
use dropbox_governed_executi.Runtime.Calls.{Invoker, Invoked, invoke, context_for_call}

pub one_of-eq-ok :
    (v : Value) (allowed : List String) (code : String) {s : String}
    → one_of v allowed code ≡ ok s
    → elem s allowed ≡ true
unfolding one_of
one_of-eq-ok (str s) allowed code h =
    let r = require-eq-ok (elem s allowed) code _ h in
    subst (λ x. elem x allowed ≡ true) (ok-injective r.1) r.0
one_of-eq-ok Value.null allowed code h = cc
one_of-eq-ok (Value.bool b) allowed code h = cc
one_of-eq-ok (Value.num n) allowed code h = cc
one_of-eq-ok (Value.real n k) allowed code h = cc
one_of-eq-ok (obj fs) allowed code h = cc
one_of-eq-ok (Value.arr vs) allowed code h = cc

module _ ⦃py : Python⦄ where
  -- Accepted evidence is accepted again.
  pub validate_invocation_evidence-again :
      (any : AnyEvidence) (tool operation : String) {e : InvocationEvidence}
      → validate_invocation_evidence any (some tool) (some operation) ≡ ok e
      → validate_invocation_evidence (evidence e) (some tool) (some operation) ≡ ok e
  unfolding validate_invocation_evidence invocation_evidence_from_any
  validate_invocation_evidence-again any tool operation {e} h =
      let (found, _, rest) = >>=-eq-ok (invocation_evidence_from_any any) _ h in
      subst (λ x. validate_invocation_evidence (evidence x) (some tool) (some operation) ≡ ok e)
        (validate_invocation_evidence-same found (some tool) (some operation) rest) rest

  pub invoke-attested :
      (invoker : Invoker) (service : ServiceIdentity) (h : History) (c : TrustedCorrelation)
      (tool operation authority : String) (arguments : Fields) {row : Invoked}
      → invoke invoker service h c tool operation authority arguments ≡ ok row
      → validate_invocation_evidence (evidence row.evidence) (some tool) (some operation)
        ≡ ok row.evidence
  unfolding invoke
  invoke-attested invoker service h c tool operation authority arguments {row} e =
      let e₁ =
        (require-eq-ok
          (c.service_principal_id == service.service_principal_id
            && c.service_deployment_id == service.service_deployment_id
            && c.service_role == service.actor_role)
          "WRONG_DGER_SERVICE_DEPLOYMENT" _ e).1 in
      let (answer, _, e₂) = >>=-eq-ok (invoker h tool operation authority arguments service) _ e₁ in
      let (result, _, e₃) = >>=-eq-ok (mapping answer.result "PEER_RESULT_INVALID") _ e₂ in
      let (context, _, e₄) =
        >>=-eq-ok (context_for_call answer.delegated_context c service tool operation authority) _
          e₃ in
      let (found, valid, e₅) =
        >>=-eq-ok
          (validate_invocation_evidence answer.invocation_evidence (some tool) (some operation)) _
          e₄ in
      let same : found ≡ row.evidence = ap (λ r. r.evidence) (ok-injective e₅) in
      rw (← same)
        (validate_invocation_evidence-again answer.invocation_evidence tool operation valid)

  -- Each validator of an answer, from what it looks at.
  pub validate_ahc-built :
      (c : TrustedCorrelation) (obs : AhcObservation) (operation : String) (e : InvocationEvidence)
      → obs.effect_reservation_id ≡ c.ahc_effect_reservation_id
      → obs.gep_execution_id ≡ c.gep_execution_id
      → elem obs.state ahc_states ≡ true
      → is_hex64 obs.observation_digest ≡ true
      → validate_invocation_evidence obs.invocation_evidence (some ahc_tool_id) (some operation)
        ≡ ok e
      → validate_ahc obs c operation ≡ ok tt
  unfolding validate_ahc
  validate_ahc-built c obs operation e effect execution state digest v =
      simp (effect, execution, eq_refl, state, digest, v)

  pub validate_ack-built :
      (d tool operation : String) (e : InvocationEvidence)
      → is_hex64 d ≡ true
      → validate_invocation_evidence (evidence e) (some tool) (some operation) ≡ ok e
      → validate_ack
          (record { is_ok = true; digest = d; invocation_evidence = evidence e })
          tool
          operation
        ≡ ok e
  unfolding validate_ack
  validate_ack-built d tool operation e hex v = simp (hex, v)
