-- ===== src/Gtg/Attested.antt =====
-- The check of an attestation by the client (`_require_success_attestation` of src/dger/gtg_http.py)
-- beside that by the relay (`_invocation_attestation` of src/dger/relay_protocol_binding.py).
use dropbox_governed_executi.Prelude.{
  String, Bool, true, false, ◌&&◌, Option, none, some, [], ◌∷◌, ◌≡◌, refl, Bool-cases, inl, arith,
  inr,
}
use dropbox_governed_executi.Result.{Exc, Result, ok, err, require, some_or, ◌>>=◌}
use dropbox_governed_executi.Json.{Value, Fields, get, has_keys, as_obj, is_str, is_true}
use dropbox_governed_executi.Platform.{Python}
use dropbox_governed_executi.Primitives.Patterns.{is_hex40, is_invocation_id, matching}
use dropbox_governed_executi.Gen3.Attestation.{attested_identity, invocation_attestation}
use dropbox_governed_executi.Gtg.Client.{
  or_http_error, some_or_http_error, text_matching, success_attestation,
  require_success_attestation,
}

-- Whether a check accepts, and what it returns when it does.
abbrev pub is_ok {ℓ} : {A : Type ℓ} → Result A → Bool
is_ok (ok a) = true
is_ok (err e) = false

abbrev accepted {ℓ} : {A : Type ℓ} → Result A → Option A
accepted (ok a) = some a
accepted (err e) = none

-- Two checks accept the same, with the same value; two checks both accept or both raise.
record Same {ℓ} {A : Type ℓ} (r s : Result A) : Type ℓ where
  equal : accepted r ≡ accepted s

record Agrees {ℓ κ} {A : Type ℓ} {B : Type κ} (r : Result A) (s : Result B) : Type 0 where
  equal : is_ok r ≡ is_ok s

-- Two chains of checks agree when their first steps accept the same, and what follows agrees.
infixr 4 ◌then◌
◌then◌ {ℓ κ μ} :
    {A : Type ℓ} {B : Type κ} {C : Type μ} {r s : Result A} {k : A → Result B} {j : A → Result C}
    → Same r s
    → ((a : A) → Agrees (k a) (j a))
    → Agrees (r >>= k) (s >>= j)
◌then◌ {r = ok a} {s = ok b} h f = record { equal = cc (h.equal, (f b).equal) }
◌then◌ {r = ok a} {s = err e} h f = record { equal = cc (h.equal) }
◌then◌ {r = err e} {s = ok a} h f = record { equal = cc (h.equal) }
◌then◌ {r = err e} {s = err d} h f = record { equal = refl }

-- The two ways to raise accept the same.
or_http_error-require : (t : Bool) (c d : String) → Same (or_http_error t c) (require t d)
or_http_error-require true c d = record { equal = refl }
or_http_error-require false c d = record { equal = refl }

some_or_http_error-some_or {ℓ} :
    {A : Type ℓ} (o : Option A) (c : String) (e : Exc) → Same (some_or_http_error o c) (some_or o e)
some_or_http_error-some_or (some a) c e = record { equal = refl }
some_or_http_error-some_or none c e = record { equal = refl }

text_matching-matching :
    (p : String → Bool) (v : Value) (c d : String) → Same (text_matching p v c) (matching p v d)
unfolding text_matching matching
text_matching-matching p v c d = record { equal = ground arith }

text_matching-attested_identity :
    (fs : Fields) (key c : String)
    → Same (text_matching is_hex40 (get fs key) c) (attested_identity fs key)
unfolding text_matching attested_identity
text_matching-attested_identity fs key c = record { equal = ground arith }

module _ ⦃py : Python⦄ where
  -- What is common to both checks.
  success_attestation-invocation_attestation :
      (value : Fields) (tool operation : String)
      → is_true (get value "ok") ≡ true
      → Agrees (success_attestation value tool) (invocation_attestation value tool operation)
  unfolding success_attestation invocation_attestation
  success_attestation-invocation_attestation value tool operation h = rw h (
      text_matching-matching is_invocation_id _ _ _ then λ invocation_id.
      some_or_http_error-some_or (as_obj (get value "identity_attestation")) _ _ then λ attestation.
      or_http_error-require
        (has_keys attestation ("tool_identity" ∷ "tool_tree" ∷ "gtg_identity" ∷ [])) _ _
      then λ _. text_matching-attested_identity _ _ _ then λ tool_identity.
          text_matching-attested_identity _ _ _ then λ tool_tree.
          text_matching-attested_identity _ _ _ then λ gtg_identity.
          some_or_http_error-some_or (as_obj (get value "evidence")) _ _ then λ evidence.
          or_http_error-require (is_str (get evidence "tool_id") tool) _ _ then λ _.
          or_http_error-require (is_str (get evidence "tool_identity") tool_identity) _ _ then λ _.
          text_matching-matching is_hex40 _ _ _ then λ registry. record { equal = refl })

  invocation_attestation-not_ok :
      (value : Fields) (tool operation : String)
      → is_true (get value "ok") ≡ false
      → is_ok (invocation_attestation value tool operation) ≡ false
  unfolding invocation_attestation
  invocation_attestation-not_ok value tool operation h = rw h refl

  -- The relay accepts the attestation of an answer exactly when the answer says `ok` and the check of
  -- the HTTP client accepts it, whatever operation the relay expects.
  pub invocation_attestation-require_success_attestation :
      (value : Fields) (tool operation : String)
      → is_ok (invocation_attestation value tool operation)
        ≡ (is_true (get value "ok") && is_ok (require_success_attestation value tool))
  unfolding require_success_attestation
  invocation_attestation-require_success_attestation value tool operation =
      elim (Bool-cases (is_true (get value "ok"))) [
        | inl e ↦
            rw (e, (success_attestation-invocation_attestation value tool operation e).equal) refl
        | inr e ↦ rw (e, invocation_attestation-not_ok value tool operation e) refl
      ]
