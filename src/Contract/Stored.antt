-- ===== src/Contract/Stored.antt =====
-- A correlation as it is stored, by `_correlation_to_dict` of src/dger/gen4_contract.py, and as it is
-- read again, by `_correlation_from_dict`.
use dropbox_governed_executi.Prelude.{
  String, ◌≡◌, refl, sym, ap, ◌∙◌, Option, none, List, [], ◌∷◌, map,
}
use dropbox_governed_executi.Prelude.Int.{ℤ}
use dropbox_governed_executi.Result.{ok, require_with, >>=-eq-ok, require-eq-ok, ok-injective}
use dropbox_governed_executi.Json.{num, str, items, Fields, find}
use dropbox_governed_executi.Platform.{Python}
use dropbox_governed_executi.Primitives.Patterns.{is_hex40, is_gtg_invocation_id, safe_id}
use dropbox_governed_executi.Contract.Types.{InvocationEvidence, evidence, TrustedCorrelation}
use dropbox_governed_executi.Contract.Dicts.{evidence_asdict, origin_asdict}
use dropbox_governed_executi.Contract.Evidence.{
  expected_is, evidence_of_fields, invocation_evidence_from_any, validate_invocation_evidence,
}
use dropbox_governed_executi.Contract.Correlation.{
  evidence_all, evidence_list, evidence_items, origin_of_fields, correlation_to_dict,
  correlation_from_dict,
}

module _ ⦃py : Python⦄ where
  -- The evidence that the checks hand back is the one they were given.
  pub validate_invocation_evidence-same :
      (e : InvocationEvidence) (tool operation : Option String) {found : InvocationEvidence}
      → validate_invocation_evidence (evidence e) tool operation ≡ ok found
      → e ≡ found
  unfolding validate_invocation_evidence invocation_evidence_from_any
  validate_invocation_evidence-same e tool operation h =
      let (_, _, h₁) = >>=-eq-ok (safe_id (str e.tool_id) "GTG_INVOCATION_TOOL_INVALID") _ h in
      let (_, _, h₂) =
        >>=-eq-ok (safe_id (str e.operation) "GTG_INVOCATION_OPERATION_INVALID") _ h₁ in
      let h₃ = (require-eq-ok (expected_is tool e.tool_id) _ _ h₂).1 in
      let h₄ = (require-eq-ok (expected_is operation e.operation) _ _ h₃).1 in
      let h₅ = (require-eq-ok (is_gtg_invocation_id e.invocation_id) _ _ h₄).1 in
      let (_, _, h₆) = >>=-eq-ok (require_with (is_hex40 e.tool_identity) _ "tool_identity") _ h₅ in
      let (_, _, h₇) = >>=-eq-ok (require_with (is_hex40 e.tool_tree) _ "tool_tree") _ h₆ in
      let (_, _, h₈) = >>=-eq-ok (require_with (is_hex40 e.gtg_identity) _ "gtg_identity") _ h₇ in
      let (_, _, h₉) =
        >>=-eq-ok (require_with (is_hex40 e.registry_identity) _ "registry_identity") _ h₈ in
      ok-injective h₉

  evidence_all-same :
      (es : List InvocationEvidence) {found : List InvocationEvidence}
      → evidence_all es ≡ ok found
      → es ≡ found
  unfolding evidence_all
  evidence_all-same [] h = ok-injective h
  evidence_all-same (item ∷ rest) h =
      let (e, valid, h₁) = >>=-eq-ok (validate_invocation_evidence (evidence item) none none) _ h in
      let (es, all, h₂) = >>=-eq-ok (evidence_all rest) _ h₁ in
      let first = validate_invocation_evidence-same item none none valid in
      let others = evidence_all-same rest all in
      let built : e ∷ es ≡ _ = ok-injective h₂ in rw (first, others) built

-- `str` of a text is the text, and `int` of a whole number is the number.
module _ ⦃py : Python⦄ (str_of-str : (s : String) → py.str_of (str s) ≡ s)
    (int_of-num : (z : ℤ) → py.int_of (num z) ≡ ok z) where
  evidence_items-map :
      (es : List InvocationEvidence) → evidence_items (items (map evidence_asdict es)) ≡ ok es
  unfolding evidence_items evidence_asdict invocation_evidence_from_any evidence_of_fields find
  evidence_items-map [] = refl
  evidence_items-map (e ∷ es) = simp (str_of-str, evidence_items-map es)

  -- A correlation that was stored is read again as it was, if `str` keeps a text and `int` a whole
  -- number.
  pub correlation_from_dict-correlation_to_dict :
      (c : TrustedCorrelation) {stored : Fields}
      → correlation_to_dict c ≡ ok stored
      → correlation_from_dict stored ≡ ok c
  unfolding correlation_to_dict evidence_list correlation_from_dict origin_of_fields origin_asdict
      find
  correlation_from_dict-correlation_to_dict c {stored} h =
      let (es, valid, h₁) = >>=-eq-ok (evidence_list c) _ h in
      let same : c.provider_evidence ≡ es = evidence_all-same c.provider_evidence valid in
      let again : correlation_from_dict stored ≡ ok (record c { provider_evidence = es }) =
        rw (← ok-injective h₁) (simp (str_of-str, int_of-num, evidence_items-map es)) in
      again ∙ ap (λ x. ok (record c { provider_evidence = x })) (sym same)
