-- ===== src/Gen3/Response.antt =====
-- `_unwrap_gtg_result`, `_validate_moh_response` and `_compact_moh_evidence` of
-- src/dger/relay_state_result.py: what the relay takes from an answer of the gateway.
use dropbox_governed_executi.Prelude.{
  ℕ, ◌*◌, String, Option, none, some, List, [], ◌∷◌, elem, leb, length, ◌||◌, if◌then◌else◌,
}
use dropbox_governed_executi.Result.{dger, Result, ok, require, require_with, some_or, ◌>>=◌, ◌>>◌}
use dropbox_governed_executi.Json.{
  obj, Fields, end, field, find, get, as_obj, as_str, is_str, is_true,
}
use dropbox_governed_executi.Platform.{Python, encode, canonical_bytes}
use dropbox_governed_executi.Gen3.Values.{StrictJson}
use dropbox_governed_executi.Gen3.Parsing.{bounded_json_object}

abbrev pub max_moh_response_bytes : ℕ
max_moh_response_bytes = 256 * 1024

abbrev pub terminal_publishable : List String
terminal_publishable =
    "SUCCEEDED" ∷ "FAILED" ∷ "REJECTED_PRECONDITION" ∷ "REJECTED_DUPLICATE_MISMATCH" ∷ []

abbrev pub moh_unresolved : List String
moh_unresolved = "IN_DOUBT" ∷ []

abbrev pub moh_not_ended : List String
moh_not_ended = "NOT_FOUND" ∷ "ADMITTED" ∷ "START_INTENT_COMMITTED" ∷ "RUNNING" ∷ []

-- `_unwrap_gtg_result`, the result and the invocation.
unfoldable pub unwrapped_result : Fields → Option Fields
unwrapped_result value = if is_true (get value "ok") then as_obj (get value "result") else none

unfoldable pub unwrapped_invocation : Fields → Option String
unwrapped_invocation value = as_str (get value "invocation_id")

module _ ⦃py : Python⦄ where
  -- It returns the state.
  unfoldable pub validate_moh_response : Fields → String → Result String
  unfolding canonical_bytes
  validate_moh_response response execution_id = do
    require (is_str (get response "execution_id") execution_id) "MOH_RESPONSE_EXECUTION_ID_MISMATCH"
    state ← some_or (as_str (get response "state")) (dger "MOH_RESPONSE_STATE_MISSING" "")
    require_with
        (elem state terminal_publishable || elem state moh_unresolved || elem state moh_not_ended)
        "MOH_RESPONSE_STATE_UNKNOWN" state
    require (leb (length (canonical_bytes (obj response))) max_moh_response_bytes)
        "MOH_RESPONSE_TOO_LARGE"
    ok state

  -- The end of `_invoke_moh`: the response, and its state.
  unfoldable pub moh_response : ⦃sj : StrictJson⦄ → Fields → String → Result (Fields × String)
  unfolding bounded_json_object validate_moh_response
  moh_response result execution_id = do
    text ← some_or (as_str (get result "response_json")) (dger "MOH_GATEWAY_RESULT_INVALID" "")
    require (leb (length (encode text)) max_moh_response_bytes) "MOH_GATEWAY_RESULT_INVALID"
    response ← bounded_json_object (encode text)
    state ← validate_moh_response response execution_id
    ok (response, state)

-- `{key: value.get(key) for key in keys if key in value}`
unfoldable pub kept_keys : List String → Fields → Fields
unfolding find
kept_keys [] value = end
kept_keys (key ∷ ks) value =
    let rest = kept_keys ks value in
    elim (find key value) [ none ↦ rest | some v ↦ field key v rest ]

-- One round of the loop over the two streams.
unfoldable pub stream_evidence : Fields → String → Fields → Fields
unfolding kept_keys
stream_evidence response stream rest = elim (as_obj (get response stream)) [
  | none ↦ rest
  | some value ↦
      field stream
        (obj (
          kept_keys
            ("digest" ∷ "total_bytes" ∷ "retained_bytes" ∷ "truncated" ∷ "evidence_ref" ∷ [])
            value))
        rest
]

unfoldable pub compact_moh_evidence : Fields → Fields
unfolding stream_evidence
compact_moh_evidence response = field "state" (get response "state") (
    field "request_digest" (get response "request_digest") (
      field "receipt_digest" (get response "receipt_digest") (
        field "result_digest" (get response "result_digest") (
          field "failure_code" (get response "failure_code") (
            field "exit_status" (get response "exit_status")
              (stream_evidence response "stdout" (stream_evidence response "stderr" end)))))))
