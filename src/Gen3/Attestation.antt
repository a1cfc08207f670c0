-- ===== src/Gen3/Attestation.antt =====
-- `_invocation_attestation` of src/dger/relay_protocol_binding.py.
use dropbox_governed_executi.Prelude.{String, none, some, [], ◌∷◌}
use dropbox_governed_executi.Result.{
  Result, ok, dger, require_with, some_or, require, raise_with, ◌>>=◌, ◌>>◌,
}
use dropbox_governed_executi.Json.{
  Value, str, Fields, get, has_keys, as_obj, as_str, is_str, is_true, dict,
}
use dropbox_governed_executi.Platform.{Python}
use dropbox_governed_executi.Primitives.Patterns.{is_hex40, is_invocation_id, matching}
use dropbox_governed_executi.Gen3.Values.{get_or_empty}

-- What it returns.
pub record Attestation : Type 0 where
  pub tool_id : String
  pub operation : String
  pub invocation_id : String
  pub tool_identity : String
  pub tool_tree : String
  pub gtg_identity : String
  pub registry_identity : String

unfoldable pub attestation_value : Attestation → Value
attestation_value a = dict (
    ("tool_id", str a.tool_id)
    ∷ ("operation", str a.operation)
    ∷ ("invocation_id", str a.invocation_id)
    ∷ ("tool_identity", str a.tool_identity)
    ∷ ("tool_tree", str a.tool_tree)
    ∷ ("gtg_identity", str a.gtg_identity)
    ∷ ("registry_identity", str a.registry_identity)
    ∷ [])

-- One round of the loop over the three identities.
unfoldable pub attested_identity : Fields → String → Result String
unfolding is_hex40
attested_identity attestation key = elim (as_str (get attestation key)) [
  | none ↦ raise_with "GTG_IDENTITY_ATTESTATION_INVALID" key
  | some s ↦ do require_with (is_hex40 s) "GTG_IDENTITY_ATTESTATION_INVALID" key; ok s
]

module _ ⦃py : Python⦄ where
  open py use {str_of}

  unfoldable pub invocation_attestation : Fields → String → String → Result Attestation
  invocation_attestation value expected_tool expected_operation = do
    require_with (is_true (get value "ok")) "GTG_INVOCATION_NOT_SUCCESSFUL"
        (str_of (get_or_empty value "code"))
    invocation_id ←
        matching is_invocation_id (get value "invocation_id") "GTG_INVOCATION_ID_INVALID"
    attestation ←
        some_or (as_obj (get value "identity_attestation"))
          (dger "GTG_IDENTITY_ATTESTATION_REQUIRED" "")
    require (has_keys attestation ("tool_identity" ∷ "tool_tree" ∷ "gtg_identity" ∷ []))
        "GTG_IDENTITY_ATTESTATION_REQUIRED"
    tool_identity ← attested_identity attestation "tool_identity"
    tool_tree ← attested_identity attestation "tool_tree"
    gtg_identity ← attested_identity attestation "gtg_identity"
    evidence ← some_or (as_obj (get value "evidence")) (dger "GTG_INVOCATION_EVIDENCE_MISSING" "")
    require (is_str (get evidence "tool_id") expected_tool) "GTG_INVOCATION_TOOL_MISMATCH"
    require (is_str (get evidence "tool_identity") tool_identity) "GTG_INVOCATION_IDENTITY_MISMATCH"
    registry ←
        matching is_hex40 (get evidence "registry_identity")
          "GTG_INVOCATION_REGISTRY_IDENTITY_INVALID"
    ok (record {
      tool_id = expected_tool;
      operation = expected_operation;
      invocation_id = invocation_id;
      tool_identity = tool_identity;
      tool_tree = tool_tree;
      gtg_identity = gtg_identity;
      registry_identity = registry;
    })
