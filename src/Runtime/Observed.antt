-- ===== src/Runtime/Observed.antt =====
-- What `_moh_observation` of src/dger/gen4_runtime_peers.py makes of the host's wrapped record.
use dropbox_governed_executi.Prelude.{
  String, List, sym, eq_iff, ◌≡◌, inl, inr, refl, ap, subst, Bool, true, false, not, none, some, [],
  ◌∷◌, ◌==◌, elem, leb, length, arith, eq_refl, Bool-cases,
}
use dropbox_governed_executi.Result.{ok, require, >>=-eq-ok, require-eq-ok, ok-injective, ◌>>◌}
use dropbox_governed_executi.Json.{
  is_str-eq, Value, null, str, obj, Fields, has_keys, fields, get, is_str, is_null,
}
use dropbox_governed_executi.Platform.{
  Bytes, Python, encode, sha256, canonical_digest, canonical_bytes,
}
use dropbox_governed_executi.Primitives.Patterns.{is_hex64, matching, matching-eq-str}
use dropbox_governed_executi.Primitives.Parsing.{json_object_no_duplicates}
use dropbox_governed_executi.Contract.Types.{
  moh_tool_id, InvocationEvidence, ServiceIdentity, TrustedCorrelation, MohObservation, evidence,
}
use dropbox_governed_executi.Contract.Dicts.{moh_asdict}
use dropbox_governed_executi.Contract.Evidence.{validate_invocation_evidence}
use dropbox_governed_executi.Contract.Observations.{
  is_moh_state, optional_record_id, validate_moh, max_peer_observation_bytes,
}
use dropbox_governed_executi.Relay.History.{History}
use dropbox_governed_executi.Runtime.Calls.{Invoker, invoke}
use dropbox_governed_executi.Runtime.Answers.{
  moh_wrapper_keys, moh_allowed, moh_false_ok, one_of, is_flag, without, moh_digest, moh_payload,
  moh_observation,
}
use dropbox_governed_executi.Runtime.Peers.{runtime_moh_execute, runtime_moh_status}
use dropbox_governed_executi.Runtime.Evidence.{invoke-attested, one_of-eq-ok}

module _ ⦃py : Python⦄ where
  moh_payload-same : (v : Value) {w : Value} → moh_payload v ≡ ok w → v ≡ w
  unfolding moh_payload
  moh_payload-same null h = ok-injective h
  moh_payload-same (obj fs) h = ok-injective h
  moh_payload-same (Value.bool b) h = cc
  moh_payload-same (Value.num n) h = cc
  moh_payload-same (Value.real n k) h = cc
  moh_payload-same (str t) h = cc
  moh_payload-same (Value.arr vs) h = cc

-- The digest of the host's record: that of the whole record, if it has no receipt, or else the receipt,
-- which is the digest of the rest.
pub data IsDigestOf ⦃py : Python⦄ (inner : Fields) (digest : String) : Type 0 where
  of_whole :
      get inner "receipt_digest" ≡ null
      → digest ≡ canonical_digest (obj inner)
      → IsDigestOf inner digest
  of_receipt :
      get inner "receipt_digest" ≡ str digest
      → digest ≡ canonical_digest (obj (without "receipt_digest" inner))
      → IsDigestOf inner digest

is_null-eq : (v : Value) → is_null v ≡ true → v ≡ null
is_null-eq null h = refl
is_null-eq (Value.bool b) h = cc
is_null-eq (Value.num n) h = cc
is_null-eq (Value.real n k) h = cc
is_null-eq (str t) h = cc
is_null-eq (obj fs) h = cc
is_null-eq (Value.arr vs) h = cc

one_of-eq-str :
    (v : Value) (allowed : List String) (code : String) {s : String}
    → one_of v allowed code ≡ ok s
    → v ≡ str s
unfolding one_of
one_of-eq-str (str t) allowed code h = rw (ok-injective (require-eq-ok (elem t allowed) code _ h).1)
one_of-eq-str null allowed code h = cc
one_of-eq-str (Value.bool b) allowed code h = cc
one_of-eq-str (Value.num n) allowed code h = cc
one_of-eq-str (Value.real n k) allowed code h = cc
one_of-eq-str (obj fs) allowed code h = cc
one_of-eq-str (Value.arr vs) allowed code h = cc

-- The host's own record, which is the text under `response_json`, and how the observation stands to it.
pub record IsObserved ⦃py : Python⦄ (c : TrustedCorrelation) (result : Fields)
    (e : InvocationEvidence) (obs : MohObservation) : Type 0 where
  pub text : String
  pub response : get result "response_json" ≡ str text
  pub inner : Fields
  pub parsed : json_object_no_duplicates (encode text) ≡ ok inner
  pub state : get inner "state" ≡ str obs.state
  pub known : elem obs.state moh_allowed ≡ true
  pub execution : get inner "execution_id" ≡ str c.gep_execution_id
  pub flag : is_flag (get result "ok") (not (elem obs.state moh_false_ok)) ≡ true
  pub wrapper : get result "state" ≡ str obs.state
  pub digest : IsDigestOf inner obs.evidence_digest
  pub payload : get inner "result" ≡ obs.result
  pub built : obs ≡ record obs {
    gep_execution_id = c.gep_execution_id;
    record_id = none;
    invocation_evidence = evidence e;
  }

module _ ⦃py : Python⦄ where
  moh_digest-IsDigestOf :
      (inner : Fields) {d : String} → moh_digest inner ≡ ok d → IsDigestOf inner d
  unfolding moh_digest
  moh_digest-IsDigestOf inner {d} h = elim (Bool-cases (is_null (get inner "receipt_digest"))) [
    | inl q ↦ of_whole (is_null-eq _ q) (sym (ok-injective (rw q at h)))
    | inr q ↦
        let (r, found, h₁) =
          >>=-eq-ok (matching is_hex64 (get inner "receipt_digest") "MOH_RECEIPT_DIGEST_INVALID") _
            (rw q at h) in
        let rest = canonical_digest (obj (without "receipt_digest" inner)) in
        let (same, last) = require-eq-ok (rest == r) "MOH_RECEIPT_DIGEST_MISMATCH" _ h₁ in
        let here : r ≡ d = ok-injective last in
        subst (λ x. IsDigestOf inner x) here
          (of_receipt (matching-eq-str _ _ _ found) (sym ((eq_iff rest r).0 same)))
  ]

  -- An observation that the runtime peers hand on is built from the host's own record, the object under
  -- `response_json`: it is about this execution, in the state that both the record and the wrapper give,
  -- which agrees with the wrapper's flag, with the result of the record and under its digest.
  pub moh_observation-IsObserved :
      (c : TrustedCorrelation) (result : Fields) (e : InvocationEvidence) {obs : MohObservation}
      → moh_observation c result e ≡ ok obs
      → IsObserved c result e obs
  unfolding moh_observation
  moh_observation-IsObserved c result e {obs} h =
      let h₁ = (require-eq-ok (has_keys result moh_wrapper_keys) "MOH_WRAPPER_INVALID" _ h).1 in
      let (text, response, h₂) =
        >>=-eq-ok
          (matching (λ s. leb (length (encode s)) max_peer_observation_bytes)
            (get result "response_json") "MOH_WRAPPER_INVALID")
          _ h₁ in
      let (inner, parsed, h₃) = >>=-eq-ok (json_object_no_duplicates (encode text)) _ h₂ in
      let (state, known, h₄) =
        >>=-eq-ok (one_of (get result "state") moh_allowed "MOH_STATE_INVALID") _ h₃ in
      let (same_state, h₅) = require-eq-ok (is_str (get inner "state") state) _ _ h₄ in
      let (same_id, h₆) =
        require-eq-ok (is_str (get inner "execution_id") c.gep_execution_id) _ _ h₅ in
      let (_, _, h₇) =
        >>=-eq-ok
          (one_of (get inner "schema") ("moh-status/v1" ∷ "moh-execute/v1" ∷ [])
            "MOH_RESPONSE_SCHEMA_INVALID")
          _ h₆ in
      let (flag, h₈) =
        require-eq-ok (is_flag (get result "ok") (not (elem state moh_false_ok))) _ _ h₇ in
      let (digest, digested, h₉) = >>=-eq-ok (moh_digest inner) _ h₈ in
      let (payload, paid, last) = >>=-eq-ok (moh_payload (get inner "result")) _ h₉ in
      subst (λ x. IsObserved c result e x) (ok-injective last)
        (record {
          text = text;
          response = matching-eq-str _ _ _ response;
          inner = inner;
          parsed = parsed;
          state = is_str-eq (get inner "state") state same_state;
          known = one_of-eq-ok (get result "state") moh_allowed "MOH_STATE_INVALID" known;
          execution = is_str-eq (get inner "execution_id") c.gep_execution_id same_id;
          flag = flag;
          wrapper = one_of-eq-str _ _ _ known;
          digest = moh_digest-IsDigestOf inner digested;
          payload = moh_payload-same _ paid;
          built = refl;
        })

allowed-is_moh_state : (s : String) → elem s moh_allowed ≡ true → is_moh_state s ≡ true
allowed-is_moh_state s h = ground arith

require-ok : (t : Bool) (code : String) → (require t code >> ok tt) ≡ require t code
require-ok true code = refl
require-ok false code = refl

-- SHA-256 is printed as 64 hexadecimal digits.
module _ ⦃py : Python⦄ (hex : (raw : Bytes) → is_hex64 (sha256 raw) ≡ true) where
  IsDigestOf-hex : (inner : Fields) {d : String} → IsDigestOf inner d → is_hex64 d ≡ true
  unfolding canonical_digest
  IsDigestOf-hex inner (of_whole none_there e) = rw e (hex (canonical_bytes (obj inner)))
  IsDigestOf-hex inner (of_receipt there e) =
      rw e (hex (canonical_bytes (obj (without "receipt_digest" inner))))

  -- The contract's validator on an observation of the runtime peers: only its size is left to check.
  validate_moh-moh_observation :
      (c : TrustedCorrelation) (result : Fields) (e : InvocationEvidence) (operation : String)
      {obs : MohObservation}
      → moh_observation c result e ≡ ok obs
      → validate_invocation_evidence (evidence e) (some moh_tool_id) (some operation) ≡ ok e
      → validate_moh obs c operation
        ≡ require
            (leb (length (canonical_bytes (moh_asdict obs))) max_peer_observation_bytes)
            "MOH_OBSERVATION_TOO_LARGE"
  unfolding validate_moh optional_record_id
  validate_moh-moh_observation c result e operation {obs} h valid =
      let o = moh_observation-IsObserved c result e h in
      let execution : obs.gep_execution_id ≡ c.gep_execution_id =
        ap (λ x. x.gep_execution_id) o.built in
      let no_record : obs.record_id ≡ none = ap (λ x. x.record_id) o.built in
      let carried : obs.invocation_evidence ≡ evidence e =
        ap (λ x. x.invocation_evidence) o.built in
      simp (
        execution,
        eq_refl,
        allowed-is_moh_state obs.state o.known,
        no_record,
        IsDigestOf-hex o.inner o.digest,
        carried,
        valid,
        require-ok,
      )

  module _ (invoker : Invoker) (service : ServiceIdentity) (h : History)
      (c : TrustedCorrelation) where
    -- If SHA-256 is printed as 64 hexadecimal digits, and the runtime `moh_execute` returns an
    -- observation, the contract's validator refuses it for its size or not at all.
    pub validate_moh-runtime_moh_execute :
        {obs : MohObservation}
        → runtime_moh_execute invoker service h c ≡ ok obs
        → validate_moh obs c "execute"
          ≡ require
              (leb (length (canonical_bytes (moh_asdict obs))) max_peer_observation_bytes)
              "MOH_OBSERVATION_TOO_LARGE"
    unfolding runtime_moh_execute
    validate_moh-runtime_moh_execute e =
        let arguments = fields (("execution_id", str c.gep_execution_id) ∷ []) in
        let (row, called, seen) =
          >>=-eq-ok (invoke invoker service h c moh_tool_id "execute" "EFFECT" arguments) _ e in
        validate_moh-moh_observation c row.result row.evidence "execute" seen
          (invoke-attested invoker service h c moh_tool_id "execute" "EFFECT" arguments called)

    -- The same of the runtime `moh_status`.
    pub validate_moh-runtime_moh_status :
        {obs : MohObservation}
        → runtime_moh_status invoker service h c ≡ ok obs
        → validate_moh obs c "status"
          ≡ require
              (leb (length (canonical_bytes (moh_asdict obs))) max_peer_observation_bytes)
              "MOH_OBSERVATION_TOO_LARGE"
    unfolding runtime_moh_status
    validate_moh-runtime_moh_status e =
        let arguments = fields (("execution_id", str c.gep_execution_id) ∷ []) in
        let (row, called, seen) =
          >>=-eq-ok (invoke invoker service h c moh_tool_id "status" "EFFECT" arguments) _ e in
        validate_moh-moh_observation c row.result row.evidence "status" seen
          (invoke-attested invoker service h c moh_tool_id "status" "EFFECT" arguments called)
