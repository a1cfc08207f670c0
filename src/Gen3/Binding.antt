-- ===== src/Gen3/Binding.antt =====
-- Bindings of tools by GTG: `_binding_projection`, `resolve_tool_binding`,
-- `_validate_consumer_binding` and `_intent_digest` of src/dger/relay_protocol_binding.py.
use dropbox_governed_executi.Prelude.{
  String, Bool, ◌&&◌, ◌||◌, Option, none, some, List, [], ◌∷◌, map, ◌==◌, if◌then◌else◌,
}
use dropbox_governed_executi.Result.{Result, ok, dger, require, require_with, some_or, ◌>>=◌, ◌>>◌}
use dropbox_governed_executi.Json.{
  Value, str, obj, arr, Fields, items, get, as_obj, is_str, is_true, is_null, py_eq, dict,
}
use dropbox_governed_executi.Platform.{Bytes, Python, sha256, canonical_digest}
use dropbox_governed_executi.Primitives.Patterns.{is_hex40, matching}
use dropbox_governed_executi.Gen3.Values.{truthy, get_or_empty}

-- What `_binding_projection` returns.
pub record Projection : Type 0 where
  pub authoritative_binding : Fields
  pub tool_identity : String
  pub tool_tree : String
  pub registry_identity : String

pub record ToolBinding : Type 0 where
  pub tool_id : String
  pub operations : List String
  pub resolved : Projection

unfoldable pub binding_value : ToolBinding → Value
binding_value b = dict (
    ("tool_id", str b.tool_id)
    ∷ ("operations", arr (items (map (λ o. str o) b.operations)))
    ∷ ("authoritative_binding", obj b.resolved.authoritative_binding)
    ∷ ("tool_identity", str b.resolved.tool_identity)
    ∷ ("tool_tree", str b.resolved.tool_tree)
    ∷ ("registry_identity", str b.resolved.registry_identity)
    ∷ [])

-- `a or b`
abbrev pub either : Value → Value → Value
either a b = if truthy a then a else b

unfoldable pub same_projection : Projection → Projection → Bool
unfolding py_eq
same_projection a b =
    py_eq (obj a.authoritative_binding) (obj b.authoritative_binding)
    && a.tool_identity == b.tool_identity
    && a.tool_tree == b.tool_tree
    && a.registry_identity == b.registry_identity

module _ ⦃py : Python⦄ where
  open py use {str_of}

  unfoldable pub binding_projection : Fields → Result Projection
  unfolding matching is_hex40 truthy
  binding_projection doctor = do
    require (is_str (get doctor "schema") "gtg-doctor/v2" && is_true (get doctor "ok"))
        "GTG_DOCTOR_INVALID"
    require_with (is_str (get doctor "callability_state") "READY") "GTG_CAPABILITY_UNAVAILABLE"
        (str_of (get_or_empty doctor "reason"))
    authority ←
        some_or (as_obj (get doctor "authoritative_binding")) (dger "GTG_BINDING_MISSING" "")
    delivered ← some_or (as_obj (get doctor "delivered_binding")) (dger "GTG_BINDING_MISSING" "")
    tool_identity ← matching is_hex40 (get delivered "tool_identity") "GTG_TOOL_IDENTITY_INVALID"
    tool_tree ← matching is_hex40 (get delivered "tool_tree") "GTG_TOOL_TREE_INVALID"
    registry ←
        matching is_hex40
          (either (get delivered "registry_identity") (get doctor "registry_identity"))
          "GTG_REGISTRY_IDENTITY_INVALID"
    ok (record {
      authoritative_binding = authority;
      tool_identity = tool_identity;
      tool_tree = tool_tree;
      registry_identity = registry;
    })

  -- The body of the loop of `resolve_tool_binding`, with what is resolved so far.
  unfoldable pub resolve_next : String → Option Projection → Projection → Result (Option Projection)
  unfolding same_projection
  resolve_next tool_id none projection = ok (some projection)
  resolve_next tool_id (some resolved) projection = do
    require_with (same_projection projection resolved) "GTG_BINDING_CHANGED_DURING_ACCEPTANCE"
        tool_id
    ok (some resolved)

  unfoldable pub validate_consumer_binding : Fields → ToolBinding → Result (Unit {0})
  unfolding py_eq
  validate_consumer_binding envelope binding = do
    require
        (is_str (get envelope "authority_commit") binding.resolved.tool_identity
          && is_str (get envelope "authority_tree") binding.resolved.tool_tree)
        "CONSUMER_BINDING_NOT_CURRENT_COMPATIBLE"
    let authority = binding.resolved.authoritative_binding
    require (str_of (get authority "repository_id") == str_of (get envelope "repository_id"))
        "CONSUMER_REPOSITORY_ID_MISMATCH"
    require
        (is_null (get authority "selector")
          || py_eq (get authority "selector") (get envelope "authority_selector"))
        "CONSUMER_SELECTOR_MISMATCH"

  unfoldable pub intent_digest :
      Bytes → Bytes → String → ToolBinding → ToolBinding → ToolBinding → String
  unfolding canonical_digest binding_value
  intent_digest request_raw envelope_raw manifest moh chm consumer = canonical_digest (
      dict (
        ("request_sha256", str (sha256 request_raw))
        ∷ ("envelope_sha256", str (sha256 envelope_raw))
        ∷ ("payload_manifest_sha256", str manifest)
        ∷ ("moh_binding", binding_value moh)
        ∷ ("chm_binding", binding_value chm)
        ∷ ("consumer_binding", binding_value consumer)
        ∷ []))
