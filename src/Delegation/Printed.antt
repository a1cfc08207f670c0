-- ===== src/Delegation/Printed.antt =====
-- A delegated service context that is written, by `delegated_service_context_to_dict` of
-- src/dger/gen4_delegation.py, and read again, by `parse_delegated_service_context`.
use dropbox_governed_executi.Prelude.{
  String, ◌≡◌, refl, sym, ◌∙◌, subst, Bool, true, ◌&&◌, Option, some, List, [], ◌∷◌, map,
  Bool-cases, Option-cases, inl, inr, leb, length, elem, all, ◌==◌,
}
use dropbox_governed_executi.Prelude.{codes}
use dropbox_governed_executi.Prelude.Int.{ℤ, at_least}
use dropbox_governed_executi.Result.{ok, >>=-eq-ok, require-eq-ok, ok-injective}
use dropbox_governed_executi.Json.{
  Value, null, bool, num, real, str, arr, obj, Items, nil, cons, Fields, items, values, get,
  has_keys, optional, is_str, is_str-eq, find,
}
use dropbox_governed_executi.Platform.{Python}
use dropbox_governed_executi.Primitives.Patterns.{
  matching, matching-eq-str, safe_id, is_context_digest, is_gtg_invocation_id, is_gtg_delegation_id,
}
use dropbox_governed_executi.Delegation.{
  delegated_schema, delegated_issuer, execution_relay_role, origin_roles, capability_classes,
  context_fields, DelegatedServiceContext, is_operation, texts, canonical_string_list, origin_role,
  fleet_epoch, binding_of, context_body_digest, parse_context_fields, is_canonical,
  parse_delegated_service_context, delegated_service_context_to_dict,
}

-- What each check accepts is the value that is printed of its result.
safe_id-eq-str : (v : Value) (code : String) {s : String} → safe_id v code ≡ ok s → v ≡ str s
unfolding safe_id
safe_id-eq-str v code h = matching-eq-str _ v code h

origin_role-eq-str : (v : Value) {s : String} → origin_role v ≡ ok s → v ≡ str s
unfolding origin_role
origin_role-eq-str (str t) h = elim (Bool-cases (elem t origin_roles)) [
  | inl q ↦ rw (ok-injective (rw q at h))
  | inr q ↦ let f = rw q at h in cc f
]
origin_role-eq-str null h = cc
origin_role-eq-str (bool b) h = cc
origin_role-eq-str (num n) h = cc
origin_role-eq-str (real n k) h = cc
origin_role-eq-str (obj fs) h = cc
origin_role-eq-str (arr vs) h = cc

fleet_epoch-eq-num : (v : Value) {n : ℤ} → fleet_epoch v ≡ ok n → v ≡ num n
unfolding fleet_epoch
fleet_epoch-eq-num (num m) h = elim (Bool-cases (at_least 1 m)) [
  | inl q ↦ rw (ok-injective (rw q at h))
  | inr q ↦ let f = rw q at h in cc f
]
fleet_epoch-eq-num null h = cc
fleet_epoch-eq-num (bool b) h = cc
fleet_epoch-eq-num (str t) h = cc
fleet_epoch-eq-num (real n k) h = cc
fleet_epoch-eq-num (obj fs) h = cc
fleet_epoch-eq-num (arr vs) h = cc

binding_of-eq-optional : (v : Value) {s : Option String} → binding_of v ≡ ok s → v ≡ optional s
unfolding binding_of
binding_of-eq-optional null h = rw (← ok-injective h) refl
binding_of-eq-optional (str t) h =
    elim (Bool-cases (leb 1 (length (codes t)) && leb (length (codes t)) 4096)) [
      | inl q ↦ rw (← ok-injective (rw q at h)) refl
      | inr q ↦ let f = rw q at h in cc f
    ]
binding_of-eq-optional (bool b) h = cc
binding_of-eq-optional (num n) h = cc
binding_of-eq-optional (real n k) h = cc
binding_of-eq-optional (obj fs) h = cc
binding_of-eq-optional (arr vs) h = cc

texts-eq-items :
    (vs : Items) {ss : List String} → texts (values vs) ≡ some ss → vs ≡ items (map str ss)
unfolding texts
texts-eq-items nil {ss} h = let same : [] ≡ ss = cc in rw (← same) refl
texts-eq-items (cons (str s) vs) {ss} h = elim (Option-cases (texts (values vs))) [
  | inl q ↦ let f = rw q at h in cc f
  | inr (rest, q) ↦
      let same : s ∷ rest ≡ ss = let g = rw q at h in cc g in rw (← same, texts-eq-items vs q) refl
]
texts-eq-items (cons null vs) h = cc
texts-eq-items (cons (bool b) vs) h = cc
texts-eq-items (cons (num n) vs) h = cc
texts-eq-items (cons (real n k) vs) h = cc
texts-eq-items (cons (obj fs) vs) h = cc
texts-eq-items (cons (arr us) vs) h = cc

canonical_string_list-eq-items :
    (v : Value) (item_ok : String → Bool) (code : String) {ss : List String}
    → canonical_string_list v item_ok code ≡ ok ss
    → v ≡ arr (items (map str ss))
unfolding canonical_string_list
canonical_string_list-eq-items (arr vs) item_ok code {ss} h =
    elim (Option-cases (texts (values vs))) [
      | inl q ↦ let f = rw q at h in cc f
      | inr (found, q) ↦
          let g = rw q at h in
          let checked = (require-eq-ok (all item_ok found) code _ g).1 in
          let same = ok-injective (require-eq-ok (is_canonical found) code _ checked).1 in
          rw (← same, texts-eq-items vs q) refl
    ]
canonical_string_list-eq-items null item_ok code h = cc
canonical_string_list-eq-items (bool b) item_ok code h = cc
canonical_string_list-eq-items (num n) item_ok code h = cc
canonical_string_list-eq-items (real n k) item_ok code h = cc
canonical_string_list-eq-items (obj fs) item_ok code h = cc
canonical_string_list-eq-items (str t) item_ok code h = cc

-- Two dictionaries that agree on every key of a context.
record IsSame (fs gs : Fields) : Type 0 where
  keys_of : has_keys fs context_fields ≡ has_keys gs context_fields
  schema : get fs "schema" ≡ get gs "schema"
  issuer : get fs "issuer" ≡ get gs "issuer"
  tenant : get fs "tenant_id" ≡ get gs "tenant_id"
  principal : get fs "principal_id" ≡ get gs "principal_id"
  deployment : get fs "deployment_id" ≡ get gs "deployment_id"
  role : get fs "origin_actor_role" ≡ get gs "origin_actor_role"
  epoch : get fs "provisioned_fleet_epoch" ≡ get gs "provisioned_fleet_epoch"
  origin_digest : get fs "origin_context_digest" ≡ get gs "origin_context_digest"
  origin_invocation : get fs "origin_invocation_id" ≡ get gs "origin_invocation_id"
  service_role : get fs "service_role" ≡ get gs "service_role"
  service : get fs "service_id" ≡ get gs "service_id"
  service_deployment : get fs "service_deployment_id" ≡ get gs "service_deployment_id"
  delegation : get fs "delegation_invocation_id" ≡ get gs "delegation_invocation_id"
  operations : get fs "authorized_operations" ≡ get gs "authorized_operations"
  classes : get fs "authorized_capability_classes" ≡ get gs "authorized_capability_classes"
  binding : get fs "project_binding" ≡ get gs "project_binding"
  digest : get fs "context_digest" ≡ get gs "context_digest"

module _ ⦃py : Python⦄ where
  context_body_digest-same :
      (fs gs : Fields) → IsSame fs gs → context_body_digest fs ≡ context_body_digest gs
  unfolding context_body_digest
  context_body_digest-same fs gs s =
      rw
        (
          s.schema, s.issuer, s.tenant, s.principal, s.deployment, s.role, s.epoch, s.origin_digest,
          s.origin_invocation, s.service_role, s.service, s.service_deployment, s.delegation,
          s.operations, s.classes, s.binding,
        )
        refl

  parse_context_fields-same :
      (fs gs : Fields) → IsSame fs gs → parse_context_fields fs ≡ parse_context_fields gs
  unfolding parse_context_fields
  parse_context_fields-same fs gs s =
      rw
        (
          context_body_digest-same fs gs s,
          s.keys_of,
          s.schema,
          s.issuer,
          s.tenant,
          s.principal,
          s.deployment,
          s.role,
          s.epoch,
          s.origin_digest,
          s.origin_invocation,
          s.service_role,
          s.service,
          s.service_deployment,
          s.delegation,
          s.operations,
          s.classes,
          s.binding,
          s.digest,
        )
        refl

  printed-has_keys :
      (c : DelegatedServiceContext)
      → has_keys (delegated_service_context_to_dict c) context_fields ≡ true
  unfolding delegated_service_context_to_dict
  printed-has_keys c = refl

  -- What the parser has found is what the printer writes.
  parse_context_fields-IsSame :
      (fs : Fields) (c : DelegatedServiceContext)
      → parse_context_fields fs ≡ ok c
      → IsSame fs (delegated_service_context_to_dict c)
  unfolding parse_context_fields delegated_service_context_to_dict find
  parse_context_fields-IsSame fs c h =
      let (keys, h₁) = require-eq-ok (has_keys fs context_fields) _ _ h in
      let (schema, h₂) = require-eq-ok (is_str (get fs "schema") delegated_schema) _ _ h₁ in
      let (issuer, h₃) = require-eq-ok (is_str (get fs "issuer") delegated_issuer) _ _ h₂ in
      let (_, tenant, h₄) = >>=-eq-ok (safe_id (get fs "tenant_id") _) _ h₃ in
      let (_, principal, h₅) = >>=-eq-ok (safe_id (get fs "principal_id") _) _ h₄ in
      let (_, deployment, h₆) = >>=-eq-ok (safe_id (get fs "deployment_id") _) _ h₅ in
      let (_, role, h₇) = >>=-eq-ok (origin_role (get fs "origin_actor_role")) _ h₆ in
      let (_, epoch, h₈) = >>=-eq-ok (fleet_epoch (get fs "provisioned_fleet_epoch")) _ h₇ in
      let (_, origin_digest, h₉) =
        >>=-eq-ok (matching is_context_digest (get fs "origin_context_digest") _) _ h₈ in
      let (_, origin_invocation, k) =
        >>=-eq-ok (matching is_gtg_invocation_id (get fs "origin_invocation_id") _) _ h₉ in
      let (relay, k₁) = require-eq-ok (is_str (get fs "service_role") execution_relay_role) _ _ k in
      let (_, service, k₂) = >>=-eq-ok (safe_id (get fs "service_id") _) _ k₁ in
      let (_, service_deployment, k₃) =
        >>=-eq-ok (safe_id (get fs "service_deployment_id") _) _ k₂ in
      let (_, delegation, k₄) =
        >>=-eq-ok (matching is_gtg_delegation_id (get fs "delegation_invocation_id") _) _ k₃ in
      let (_, operations, k₅) =
        >>=-eq-ok (canonical_string_list (get fs "authorized_operations") is_operation _) _ k₄ in
      let (_, classes, k₆) =
        >>=-eq-ok
          (canonical_string_list (get fs "authorized_capability_classes")
            (λ s. elem s capability_classes) _)
          _ k₅ in
      let (_, binding, k₇) = >>=-eq-ok (binding_of (get fs "project_binding")) _ k₆ in
      let (digest, own, k₈) =
        >>=-eq-ok (matching is_context_digest (get fs "context_digest") _) _ k₇ in
      let built = ok-injective (require-eq-ok (digest == context_body_digest fs) _ _ k₈).1 in
      subst (λ x. IsSame fs (delegated_service_context_to_dict x)) built
        (record {
          keys_of = keys;
          schema = is_str-eq _ _ schema;
          issuer = is_str-eq _ _ issuer;
          tenant = safe_id-eq-str _ _ tenant;
          principal = safe_id-eq-str _ _ principal;
          deployment = safe_id-eq-str _ _ deployment;
          role = origin_role-eq-str _ role;
          epoch = fleet_epoch-eq-num _ epoch;
          origin_digest = matching-eq-str _ _ _ origin_digest;
          origin_invocation = matching-eq-str _ _ _ origin_invocation;
          service_role = is_str-eq _ _ relay;
          service = safe_id-eq-str _ _ service;
          service_deployment = safe_id-eq-str _ _ service_deployment;
          delegation = matching-eq-str _ _ _ delegation;
          operations = canonical_string_list-eq-items _ _ _ operations;
          classes = canonical_string_list-eq-items _ _ _ classes;
          binding = binding_of-eq-optional _ binding;
          digest = matching-eq-str _ _ _ own;
        })

  -- A context that was parsed, printed and parsed again is the same context, with its digest checked
  -- anew.
  pub parse_delegated_service_context-delegated_service_context_to_dict :
      (value : Value) (context : DelegatedServiceContext)
      → parse_delegated_service_context value ≡ ok context
      → parse_delegated_service_context (obj (delegated_service_context_to_dict context))
        ≡ ok context
  unfolding parse_delegated_service_context
  parse_delegated_service_context-delegated_service_context_to_dict (obj fs) context h =
      sym (parse_context_fields-same fs _ (parse_context_fields-IsSame fs context h)) ∙ h
  parse_delegated_service_context-delegated_service_context_to_dict null context h = cc
  parse_delegated_service_context-delegated_service_context_to_dict (bool b) context h = cc
  parse_delegated_service_context-delegated_service_context_to_dict (num n) context h = cc
  parse_delegated_service_context-delegated_service_context_to_dict (real n k) context h = cc
  parse_delegated_service_context-delegated_service_context_to_dict (str t) context h = cc
  parse_delegated_service_context-delegated_service_context_to_dict (arr vs) context h = cc
