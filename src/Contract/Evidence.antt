-- ===== src/Contract/Evidence.antt =====
-- The invocation evidence: `_invocation_evidence_from_any`, `_validate_invocation_evidence` and
-- `_validate_ack` of src/dger/gen4_contract.py.
use dropbox_governed_executi.Prelude.{
  String, Bool, true, ◌&&◌, Option, none, some, List, [], ◌∷◌, ◌==◌,
}
use dropbox_governed_executi.Result.{Result, ok, raise, require, require_with, ◌>>=◌, ◌>>◌}
use dropbox_governed_executi.Json.{str, obj, Fields, get, has_keys}
use dropbox_governed_executi.Platform.{Python}
use dropbox_governed_executi.Primitives.Patterns.{is_hex40, is_hex64, is_gtg_invocation_id, safe_id}
use dropbox_governed_executi.Contract.Types.{InvocationEvidence, AnyEvidence, evidence, value, Ack}

abbrev pub evidence_keys : List String
evidence_keys =
    "tool_id" ∷ "operation" ∷ "invocation_id" ∷ "tool_identity" ∷ "tool_tree" ∷ "gtg_identity"
    ∷ "registry_identity" ∷ []

-- `expected is not None and observed != expected` is false.
abbrev pub expected_is : Option String → String → Bool
expected_is none observed = true
expected_is (some e) observed = observed == e

module _ ⦃py : Python⦄ where
  open py use {str_of}

  unfoldable pub evidence_of_fields : Fields → InvocationEvidence
  evidence_of_fields fs = record {
    tool_id = str_of (get fs "tool_id");
    operation = str_of (get fs "operation");
    invocation_id = str_of (get fs "invocation_id");
    tool_identity = str_of (get fs "tool_identity");
    tool_tree = str_of (get fs "tool_tree");
    gtg_identity = str_of (get fs "gtg_identity");
    registry_identity = str_of (get fs "registry_identity");
  }

  unfoldable pub invocation_evidence_from_any : AnyEvidence → Result InvocationEvidence
  unfolding evidence_of_fields
  invocation_evidence_from_any (evidence e) = ok e
  invocation_evidence_from_any (value (obj fs)) = do
    require (has_keys fs evidence_keys) "GTG_INVOCATION_EVIDENCE_INVALID"
    ok (evidence_of_fields fs)
  invocation_evidence_from_any (value _) = raise "GTG_INVOCATION_EVIDENCE_REQUIRED"

  unfoldable pub validate_invocation_evidence :
      AnyEvidence → Option String → Option String → Result InvocationEvidence
  unfolding invocation_evidence_from_any safe_id
  validate_invocation_evidence any expected_tool expected_operation = do
    e ← invocation_evidence_from_any any
    safe_id (str e.tool_id) "GTG_INVOCATION_TOOL_INVALID"
    safe_id (str e.operation) "GTG_INVOCATION_OPERATION_INVALID"
    require (expected_is expected_tool e.tool_id) "GTG_INVOCATION_TOOL_MISMATCH"
    require (expected_is expected_operation e.operation) "GTG_INVOCATION_OPERATION_MISMATCH"
    require (is_gtg_invocation_id e.invocation_id) "GTG_INVOCATION_ID_INVALID"
    require_with (is_hex40 e.tool_identity) "GTG_INVOCATION_IDENTITY_INVALID" "tool_identity"
    require_with (is_hex40 e.tool_tree) "GTG_INVOCATION_IDENTITY_INVALID" "tool_tree"
    require_with (is_hex40 e.gtg_identity) "GTG_INVOCATION_IDENTITY_INVALID" "gtg_identity"
    require_with (is_hex40 e.registry_identity) "GTG_INVOCATION_IDENTITY_INVALID"
        "registry_identity"
    ok e

  unfoldable pub validate_ack : Ack → String → String → Result InvocationEvidence
  unfolding validate_invocation_evidence
  validate_ack ack expected_tool expected_operation = do
    require_with (ack.is_ok && is_hex64 ack.digest) "PEER_ACK_INVALID" expected_tool
    validate_invocation_evidence ack.invocation_evidence (some expected_tool)
        (some expected_operation)
