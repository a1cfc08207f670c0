-- ===== src/Delegation.antt =====
-- src/dger/gen4_delegation.py: the closed value of a delegated service context. Its checks prove the
-- form and the digest of a record, and no authority.
use Prim.Native.String.{◌++◌}
use dropbox_governed_executi.Prelude.{
  ℕ, String, Bool, true, false, ◌&&◌, ◌||◌, ◌≡◌, refl, Option, none, some, List, [], ◌∷◌, ◌==◌, map,
  elem, all, length, leb, ltb, nat_eq, if◌then◌else◌,
}
use dropbox_governed_executi.Prelude.{codes, is_digit, is_lower, after}
use dropbox_governed_executi.Prelude.Int.{ℤ, pos, at_least}
use dropbox_governed_executi.Result.{
  Result, ok, err, other, raise, require, some_or, dger, ◌>>=◌, ◌>>◌,
}
use dropbox_governed_executi.Json.{
  Value, null, num, str, arr, obj, Fields, fields, items, optional, dict, values, get, has_keys,
  as_str, as_int, is_str,
}
use dropbox_governed_executi.Platform.{Python, sha256, canonical_file_bytes}
use dropbox_governed_executi.Primitives.Patterns.{
  matching, safe_id, is_context_digest, is_gtg_invocation_id, is_gtg_delegation_id,
}
use dropbox_governed_executi.Contract.Types.{ServiceIdentity}
pub mod Printed

abbrev pub delegated_schema : String
delegated_schema = "governed-delegated-service-context/v1"

abbrev pub delegated_issuer : String
delegated_issuer = "governed-tool-gateway"

abbrev pub execution_relay_role : String
execution_relay_role = "EXECUTION_RELAY"

abbrev pub origin_roles : List String
origin_roles = "BUILDER" ∷ "REVIEWER" ∷ "V1_SERVICE" ∷ []

abbrev pub capability_classes : List String
capability_classes = "EFFECT" ∷ "READ" ∷ []

abbrev pub context_body_fields : List String
context_body_fields =
    "schema" ∷ "issuer" ∷ "tenant_id" ∷ "principal_id" ∷ "deployment_id" ∷ "origin_actor_role"
    ∷ "provisioned_fleet_epoch" ∷ "origin_context_digest" ∷ "origin_invocation_id" ∷ "service_role"
    ∷ "service_id" ∷ "service_deployment_id" ∷ "delegation_invocation_id" ∷ "authorized_operations"
    ∷ "authorized_capability_classes" ∷ "project_binding" ∷ []

abbrev pub context_fields : List String
context_fields = "context_digest" ∷ context_body_fields

pub record DelegatedServiceContext : Type 0 where
  pub schema : String
  pub issuer : String
  pub tenant_id : String
  pub principal_id : String
  pub deployment_id : String
  pub origin_actor_role : String
  pub provisioned_fleet_epoch : ℤ
  pub origin_context_digest : String
  pub origin_invocation_id : String
  pub service_role : String
  pub service_id : String
  pub service_deployment_id : String
  pub delegation_invocation_id : String
  pub authorized_operations : List String
  pub authorized_capability_classes : List String
  pub project_binding : Option String
  pub context_digest : String

-- `[a-z0-9-]`, up to the first colon, and what follows the colon.
unfoldable pub at_colon : List ℕ → Option (List ℕ × List ℕ)
at_colon [] = none
at_colon (c ∷ cs) =
    let rest = at_colon cs in
    if nat_eq c 58
    then some ([], cs)
    else elim rest [ none ↦ none | some (name, tail) ↦ some (c ∷ name, tail) ]

-- `[a-z0-9][a-z0-9-]{0,63}`
unfoldable pub is_tool_name : List ℕ → Bool
unfolding is_lower is_digit
is_tool_name [] = false
is_tool_name (c ∷ cs) =
    (is_lower c || is_digit c)
    && all (λ d. is_lower d || is_digit d || nat_eq d 45) cs
    && leb (length cs) 63

-- `[a-z][a-z0-9_.:-]{0,127}`
unfoldable pub is_operation_name : List ℕ → Bool
unfolding is_lower is_digit
is_operation_name [] = false
is_operation_name (c ∷ cs) =
    is_lower c
    && all
        (λ d. is_lower d || is_digit d || nat_eq d 95 || nat_eq d 46 || nat_eq d 58 || nat_eq d 45)
        cs
    && leb (length cs) 127

-- `^tool:[a-z0-9][a-z0-9-]{0,63}:[a-z][a-z0-9_.:-]{0,127}$`
unfoldable pub is_operation : String → Bool
unfolding after at_colon is_tool_name is_operation_name
is_operation s = elim (after (codes "tool:") (codes s)) [
  | none ↦ false
  | some cs ↦ elim (at_colon cs) [
    | none ↦ false
    | some (tool, operation) ↦ is_tool_name tool && is_operation_name operation
  ]
]

-- The order of Python's strings, by code points.
unfoldable pub before : List ℕ → List ℕ → Bool
before [] [] = false
before [] (d ∷ ds) = true
before (c ∷ cs) [] = false
before (c ∷ cs) (d ∷ ds) = ltb c d || (nat_eq c d && before cs ds)

-- `value == sorted(set(value))`: each text is less than the next.
unfoldable pub is_canonical : List String → Bool
unfolding before
is_canonical [] = true
is_canonical (s ∷ []) = true
is_canonical (s ∷ t ∷ ts) = before (codes s) (codes t) && is_canonical (t ∷ ts)

-- The texts of a list, if it holds nothing else.
unfoldable pub texts : List Value → Option (List String)
texts [] = some []
texts (v ∷ vs) =
    let rest = texts vs in
    elim (as_str v) [ none ↦ none | some s ↦ elim rest [ none ↦ none | some ss ↦ some (s ∷ ss) ] ]

abbrev pub list_texts : Value → Option (List String)
list_texts (arr vs) = texts (values vs)
list_texts _ = none

-- `_require_canonical_string_list`, with one test for `item_re` and `allowed`.
unfoldable pub canonical_string_list : Value → (String → Bool) → String → Result (List String)
unfolding texts is_canonical
canonical_string_list value item_ok code = do
  ss ← some_or (list_texts value) (dger code "")
  require (all item_ok ss) code
  require (is_canonical ss) code
  ok ss

-- `origin_actor_role not in _ORIGIN_ROLES`, which wants a hashable value.
unfoldable pub origin_role : Value → Result String
origin_role (arr vs) = err (other "TypeError" "unhashable type: 'list'")
origin_role (obj fs) = err (other "TypeError" "unhashable type: 'dict'")
origin_role (str s) =
    if elem s origin_roles then ok s else raise "DELEGATED_CONTEXT_ORIGIN_ROLE_INVALID"
origin_role _ = raise "DELEGATED_CONTEXT_ORIGIN_ROLE_INVALID"

unfoldable pub fleet_epoch : Value → Result ℤ
fleet_epoch value = elim (as_int value) [
  | none ↦ raise "DELEGATED_CONTEXT_FLEET_EPOCH_INVALID"
  | some n ↦ if at_least 1 n then ok n else raise "DELEGATED_CONTEXT_FLEET_EPOCH_INVALID"
]

unfoldable pub binding_of : Value → Result (Option String)
binding_of null = ok none
binding_of (str s) =
    if leb 1 (length (codes s)) && leb (length (codes s)) 4096
    then ok (some s)
    else raise "DELEGATED_CONTEXT_PROJECT_BINDING_INVALID"
binding_of _ = raise "DELEGATED_CONTEXT_PROJECT_BINDING_INVALID"

module _ ⦃py : Python⦄ where
  -- The digest of the record without its own digest.
  unfoldable pub context_body_digest : Fields → String
  context_body_digest fs =
      "sha256:"
      ++ sha256 (canonical_file_bytes (dict (map (λ k. (k, get fs k)) context_body_fields)))

  unfoldable pub parse_context_fields : Fields → Result DelegatedServiceContext
  parse_context_fields fs = do
    require (has_keys fs context_fields) "DELEGATED_CONTEXT_INVALID"
    require (is_str (get fs "schema") delegated_schema) "DELEGATED_CONTEXT_SCHEMA_INVALID"
    require (is_str (get fs "issuer") delegated_issuer) "DELEGATED_CONTEXT_ISSUER_INVALID"
    tenant ← safe_id (get fs "tenant_id") "DELEGATED_CONTEXT_TENANT_INVALID"
    principal ← safe_id (get fs "principal_id") "DELEGATED_CONTEXT_PRINCIPAL_INVALID"
    deployment ← safe_id (get fs "deployment_id") "DELEGATED_CONTEXT_DEPLOYMENT_INVALID"
    role ← origin_role (get fs "origin_actor_role")
    epoch ← fleet_epoch (get fs "provisioned_fleet_epoch")
    origin_digest ←
        matching is_context_digest (get fs "origin_context_digest")
          "DELEGATED_CONTEXT_ORIGIN_DIGEST_INVALID"
    origin_invocation ←
        matching is_gtg_invocation_id (get fs "origin_invocation_id")
          "DELEGATED_CONTEXT_ORIGIN_INVOCATION_INVALID"
    require (is_str (get fs "service_role") execution_relay_role)
        "DELEGATED_CONTEXT_SERVICE_ROLE_INVALID"
    service ← safe_id (get fs "service_id") "DELEGATED_CONTEXT_SERVICE_ID_INVALID"
    service_deployment ←
        safe_id (get fs "service_deployment_id") "DELEGATED_CONTEXT_SERVICE_DEPLOYMENT_INVALID"
    delegation ←
        matching is_gtg_delegation_id (get fs "delegation_invocation_id")
          "DELEGATED_CONTEXT_INVOCATION_INVALID"
    operations ←
        canonical_string_list (get fs "authorized_operations") is_operation
          "DELEGATED_CONTEXT_OPERATIONS_INVALID"
    classes ←
        canonical_string_list (get fs "authorized_capability_classes")
          (λ s. elem s capability_classes) "DELEGATED_CONTEXT_CAPABILITIES_INVALID"
    binding ← binding_of (get fs "project_binding")
    digest ← matching is_context_digest (get fs "context_digest") "DELEGATED_CONTEXT_DIGEST_INVALID"
    require (digest == context_body_digest fs) "DELEGATED_CONTEXT_DIGEST_MISMATCH"
    ok (record {
      schema = delegated_schema;
      issuer = delegated_issuer;
      tenant_id = tenant;
      principal_id = principal;
      deployment_id = deployment;
      origin_actor_role = role;
      provisioned_fleet_epoch = epoch;
      origin_context_digest = origin_digest;
      origin_invocation_id = origin_invocation;
      service_role = execution_relay_role;
      service_id = service;
      service_deployment_id = service_deployment;
      delegation_invocation_id = delegation;
      authorized_operations = operations;
      authorized_capability_classes = classes;
      project_binding = binding;
      context_digest = digest;
    })

  unfoldable pub parse_delegated_service_context : Value → Result DelegatedServiceContext
  unfolding parse_context_fields canonical_string_list origin_role fleet_epoch binding_of
      is_operation safe_id matching context_body_digest canonical_file_bytes
  parse_delegated_service_context (obj fs) = parse_context_fields fs
  parse_delegated_service_context _ = raise "DELEGATED_CONTEXT_INVALID"

-- `dataclasses.asdict`, with the two tuples as lists.
unfoldable pub delegated_service_context_to_dict : DelegatedServiceContext → Fields
delegated_service_context_to_dict context = fields (
    ("schema", str context.schema)
    ∷ ("issuer", str context.issuer)
    ∷ ("tenant_id", str context.tenant_id)
    ∷ ("principal_id", str context.principal_id)
    ∷ ("deployment_id", str context.deployment_id)
    ∷ ("origin_actor_role", str context.origin_actor_role)
    ∷ ("provisioned_fleet_epoch", num context.provisioned_fleet_epoch)
    ∷ ("origin_context_digest", str context.origin_context_digest)
    ∷ ("origin_invocation_id", str context.origin_invocation_id)
    ∷ ("service_role", str context.service_role)
    ∷ ("service_id", str context.service_id)
    ∷ ("service_deployment_id", str context.service_deployment_id)
    ∷ ("delegation_invocation_id", str context.delegation_invocation_id)
    ∷ ("authorized_operations", arr (items (map str context.authorized_operations)))
    ∷ ("authorized_capability_classes", arr (items (map str context.authorized_capability_classes)))
    ∷ ("project_binding", optional context.project_binding)
    ∷ ("context_digest", str context.context_digest)
    ∷ [])

-- Bind a validated value to the protected identity of the service.
unfoldable pub require_protected_service_match :
    DelegatedServiceContext → ServiceIdentity → Result (Unit {0})
require_protected_service_match context service = do
  require
      (service.actor_role == execution_relay_role && context.service_role == execution_relay_role)
      "SERVICE_ROLE_INVALID"
  require (context.service_id == service.service_principal_id) "WRONG_DGER_SERVICE_ID"
  require (context.service_deployment_id == service.service_deployment_id)
      "WRONG_DGER_SERVICE_DEPLOYMENT"
