-- ===== src/Contract/Identity.antt =====
-- `load_service_identity` of src/dger/gen4_contract.py.
use dropbox_governed_executi.Prelude.{String, ◌&&◌, List, [], ◌∷◌}
use dropbox_governed_executi.Result.{Result, ok, require, ◌>>=◌, ◌>>◌}
use dropbox_governed_executi.Json.{str, dict, get, has_keys, is_str}
use dropbox_governed_executi.Platform.{Python, canonical_digest}
use dropbox_governed_executi.Primitives.Patterns.{safe_id}
use dropbox_governed_executi.Primitives.Parsing.{json_object_no_duplicates}
use dropbox_governed_executi.Primitives.Files.{Entry, read_protected_regular}
use dropbox_governed_executi.Contract.Types.{ServiceIdentity}

abbrev pub service_identity_schema : String
service_identity_schema = "dger-execution-relay-service-identity/v1"

abbrev pub identity_keys : List String
identity_keys =
    "schema" ∷ "service_principal_id" ∷ "service_deployment_id" ∷ "actor_role" ∷ "identity_digest"
    ∷ []

module _ ⦃py : Python⦄ where
  -- The digest of the four fields of the identity.
  unfoldable pub identity_body_digest : String → String → String
  unfolding canonical_digest
  identity_body_digest principal deployment = canonical_digest (
      dict (
        ("schema", str service_identity_schema)
        ∷ ("service_principal_id", str principal)
        ∷ ("service_deployment_id", str deployment)
        ∷ ("actor_role", str "EXECUTION_RELAY")
        ∷ []))

  unfoldable pub load_service_identity : Entry → String → Result ServiceIdentity
  unfolding read_protected_regular json_object_no_duplicates safe_id
  load_service_identity path name = do
    raw ← read_protected_regular path name 16_384
    value ← json_object_no_duplicates raw
    require (has_keys value identity_keys && is_str (get value "schema") service_identity_schema)
        "SERVICE_IDENTITY_INVALID"
    principal ← safe_id (get value "service_principal_id") "SERVICE_IDENTITY_INVALID"
    deployment ← safe_id (get value "service_deployment_id") "SERVICE_IDENTITY_INVALID"
    require (is_str (get value "actor_role") "EXECUTION_RELAY") "SERVICE_ROLE_INVALID"
    require (is_str (get value "identity_digest") (identity_body_digest principal deployment))
        "SERVICE_IDENTITY_DIGEST_MISMATCH"
    ok (record {
      service_principal_id = principal;
      service_deployment_id = deployment;
      actor_role = "EXECUTION_RELAY";
      identity_digest = identity_body_digest principal deployment;
    })
