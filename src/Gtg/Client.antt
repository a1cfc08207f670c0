-- ===== src/Gtg/Client.antt =====
-- `_read_secret`, `_require_success_attestation` and `GTGHttpGateway` of src/dger/gtg_http.py. The
-- HTTP and URL libraries are parameters.
use Prim.Native.Nat.{bit_and}
use Prim.Native.String.{◌++◌}
use dropbox_governed_executi.Prelude.{
  ℕ, zero, suc, ◌*◌, ◌+◌, String, Bool, true, false, not, ◌&&◌, ◌||◌, Option, none, some, List, [],
  ◌∷◌, ◌==◌, nat_eq, leb, length, codes, elem, if◌then◌else◌,
}
use dropbox_governed_executi.Result.{other, Result, ok, err, ◌>>=◌, ◌>>◌}
use dropbox_governed_executi.Json.{
  Value, str, obj, arr, Fields, fields, cons, dict, find, get, has_keys, as_obj, as_str, is_str,
  is_true,
}
use dropbox_governed_executi.Platform.{Bytes, Python, encode}
use dropbox_governed_executi.Primitives.Files.{Entry, absent, link, directory, special, regular}
use dropbox_governed_executi.Primitives.Patterns.{is_hex40, is_invocation_id}
use dropbox_governed_executi.Guard.{last_wins}

abbrev pub max_gtg_response_bytes : ℕ
max_gtg_response_bytes = 1024 * 1024

abbrev pub max_token_bytes : ℕ
max_token_bytes = 4096

-- `raise GTGHttpError(code)`, with and without a test in front.
abbrev pub http_error {ℓ} : {A : Type ℓ} → String → Result A
http_error code = err (other "GTGHttpError" code)

abbrev pub or_http_error : Bool → String → Result (Unit {0})
or_http_error true code = ok tt
or_http_error false code = http_error code

abbrev pub some_or_http_error {ℓ} : {A : Type ℓ} → Option A → String → Result A
some_or_http_error (some a) code = ok a
some_or_http_error none code = http_error code

-- A request of `urlopen`: the body is JSON.
pub record HttpRequest : Type 0 where
  pub url : String
  pub body : Value
  pub headers : List (String × String)

-- `urlparse(endpoint).scheme` and `.hostname`; `raw.decode("utf-8", errors="strict")`, `str.strip`;
-- what `urlopen` gives to read, or raises.
pub record Web : Type 0 where
  pub scheme : String → String
  pub hostname : String → Option String
  pub decode : Bytes → Option String
  pub strip : String → String
  pub urlopen : HttpRequest → Result Bytes

-- `_read_secret`
unfoldable pub read_secret : ⦃web : Web⦄ → Entry → Result String
read_secret absent = http_error "GTG_TOKEN_FILE_UNSAFE"
read_secret link = http_error "GTG_TOKEN_FILE_UNSAFE"
read_secret directory = http_error "GTG_TOKEN_FILE_UNSAFE"
read_secret special = http_error "GTG_TOKEN_FILE_UNSAFE"
read_secret ⦃web⦄ (regular mode size raw) = do
  or_http_error (nat_eq (bit_and mode 0o077) 0) "GTG_TOKEN_FILE_PERMISSIONS"
  or_http_error (leb size max_token_bytes) "GTG_TOKEN_FILE_TOO_LARGE"
  or_http_error (nat_eq (length raw) size) "GTG_TOKEN_FILE_CHANGED"
  text ← some_or_http_error (web.decode raw) "GTG_TOKEN_INVALID"
  or_http_error (leb 32 (length (codes (web.strip text)))) "GTG_TOKEN_INVALID"
  ok (web.strip text)

-- `GTGHttpGateway.__init__`
pub record Gateway : Type 0 where
  pub endpoint : String
  pub token : String

unfoldable pub is_local : String → Bool
is_local host = elem host ("127.0.0.1" ∷ "::1" ∷ "localhost" ∷ [])

unfoldable pub make_gateway : ⦃web : Web⦄ → String → Entry → Bool → Result Gateway
unfolding read_secret is_local
make_gateway ⦃web⦄ endpoint token_file allow_insecure_localhost = do
  or_http_error (elem (web.scheme endpoint) ("https" ∷ "http" ∷ [])) "GTG_ENDPOINT_INVALID"
  host ← some_or_http_error (web.hostname endpoint) "GTG_ENDPOINT_INVALID"
  or_http_error (not (host == "")) "GTG_ENDPOINT_INVALID"
  or_http_error (web.scheme endpoint == "https" || (allow_insecure_localhost && is_local host))
      "GTG_ENDPOINT_REQUIRES_HTTPS"
  token ← read_secret token_file
  ok (record { endpoint = endpoint; token = token })

-- A text under a key that must have the form of a pattern.
unfoldable pub text_matching : (String → Bool) → Value → String → Result String
text_matching p v code = elim (as_str v) [
  | none ↦ http_error code
  | some s ↦ do or_http_error (p s) code; ok s
]

-- The checks of `_require_success_attestation` on a value that says `ok`.
unfoldable pub success_attestation : Fields → String → Result (Unit {0})
success_attestation value tool_id = do
  text_matching is_invocation_id (get value "invocation_id") "GTG_INVOCATION_ID_INVALID"
  attestation ←
      some_or_http_error (as_obj (get value "identity_attestation"))
        "GTG_IDENTITY_ATTESTATION_REQUIRED"
  or_http_error (has_keys attestation ("tool_identity" ∷ "tool_tree" ∷ "gtg_identity" ∷ []))
      "GTG_IDENTITY_ATTESTATION_REQUIRED"
  tool_identity ←
      text_matching is_hex40 (get attestation "tool_identity") "GTG_IDENTITY_ATTESTATION_INVALID"
  text_matching is_hex40 (get attestation "tool_tree") "GTG_IDENTITY_ATTESTATION_INVALID"
  text_matching is_hex40 (get attestation "gtg_identity") "GTG_IDENTITY_ATTESTATION_INVALID"
  evidence ← some_or_http_error (as_obj (get value "evidence")) "GTG_INVOCATION_EVIDENCE_INVALID"
  or_http_error (is_str (get evidence "tool_id") tool_id) "GTG_INVOCATION_EVIDENCE_INVALID"
  or_http_error (is_str (get evidence "tool_identity") tool_identity)
      "GTG_INVOCATION_EVIDENCE_INVALID"
  text_matching is_hex40 (get evidence "registry_identity") "GTG_INVOCATION_EVIDENCE_INVALID"
  ok tt

unfoldable pub require_success_attestation : Fields → String → Result (Unit {0})
unfolding success_attestation
require_success_attestation value tool_id =
    if is_true (get value "ok") then success_attestation value tool_id else ok tt

-- `response.read(n)`
unfoldable pub read_at_most : ℕ → Bytes → Bytes
read_at_most zero raw = []
read_at_most (suc n) [] = []
read_at_most (suc n) (b ∷ raw) = b ∷ read_at_most n raw

-- `except (UnicodeDecodeError, json.JSONDecodeError)`
unfoldable pub bad_json : List String → String → Result Value → Result Value
bad_json names code (err (other name text)) =
    if elem name names then http_error code else err (other name text)
bad_json names code r = r

unfoldable pub transport_failure : Result Bytes → Result Bytes
transport_failure (err exc) = http_error "GTG_TRANSPORT_FAILURE"
transport_failure (ok raw) = ok raw

module _ ⦃py : Python⦄ where
  -- `json.loads` without a hook.
  unfoldable pub plain_loads : Bytes → Result Value
  unfolding last_wins
  plain_loads raw = py.loads (λ pairs. ok (obj (last_wins pairs))) raw

  -- The text of the first part of the content.
  unfoldable pub first_text : Value → Option String
  first_text (arr (cons (obj part) vs)) = as_str (get part "text")
  first_text _ = none

  unfoldable pub parsed_text : Option String → Result Fields
  unfolding plain_loads bad_json
  parsed_text none = http_error "GTG_RESULT_UNSTRUCTURED"
  parsed_text (some text) = do
    v ← bad_json ("JSONDecodeError" ∷ []) "GTG_RESULT_UNSTRUCTURED" (plain_loads (encode text))
    some_or_http_error (as_obj v) "GTG_RESULT_UNSTRUCTURED"

  unfoldable pub result_of : Fields → Result Fields
  unfolding first_text parsed_text
  result_of result = elim (as_obj (get result "structuredContent")) [
    | some structured ↦ ok structured
    | none ↦ parsed_text (first_text (get result "content"))
  ]

  unfoldable pub response_of : String → Bytes → Result Fields
  unfolding plain_loads bad_json result_of find
  response_of request_id raw = do
    or_http_error (leb (length raw) max_gtg_response_bytes) "GTG_RESPONSE_TOO_LARGE"
    v ←
        bad_json ("UnicodeDecodeError" ∷ "JSONDecodeError" ∷ []) "GTG_INVALID_RESPONSE"
          (plain_loads raw)
    payload ← some_or_http_error (as_obj v) "GTG_INVALID_RESPONSE"
    or_http_error (is_str (get payload "id") request_id) "GTG_INVALID_RESPONSE"
    or_http_error (elim (find "error" payload) [ none ↦ true | some e ↦ false ]) "GTG_RPC_ERROR"
    result ← some_or_http_error (as_obj (get payload "result")) "GTG_INVALID_RESULT"
    result_of result

  module _ ⦃web : Web⦄ (self : Gateway) where
    unfoldable pub call_request : String → String → Fields → HttpRequest
    call_request request_id name arguments = record {
      url = self.endpoint;
      body = dict (
          ("jsonrpc", str "2.0")
          ∷ ("id", str request_id)
          ∷ ("method", str "tools/call")
          ∷ (
            "params",
            dict (
                ("name", str name)
                ∷ ("arguments", obj arguments)
                ∷ (
                  "_meta",
                  dict (
                      (
                        "io.modelcontextprotocol/clientInfo",
                        dict (("name", str "dger") ∷ ("version", str "1.0") ∷ []),
                      )
                      ∷ []),
                )
                ∷ []),
          )
          ∷ []);
      headers =
          ("Authorization", "Bearer " ++ self.token)
          ∷ ("Content-Type", "application/json")
          ∷ ("Accept", "application/json, text/event-stream")
          ∷ ("MCP-Protocol-Version", "2026-07-28")
          ∷ ("Mcp-Method", "tools/call")
          ∷ ("Mcp-Name", name)
          ∷ [];
    }

    -- `_call`, with the fresh `request_id`.
    unfoldable pub gateway_call : String → String → Fields → Result Fields
    unfolding call_request transport_failure read_at_most response_of
    gateway_call request_id name arguments = do
      raw ← transport_failure (web.urlopen (call_request request_id name arguments))
      response_of request_id (read_at_most (max_gtg_response_bytes + 1) raw)

    unfoldable pub gateway_doctor : String → String → String → Result Fields
    unfolding gateway_call
    gateway_doctor request_id tool_id operation = gateway_call request_id "doctor" (
        fields (
          ("environment", str "current")
          ∷ ("tool_id", str tool_id)
          ∷ ("operation", str operation)
          ∷ []))

    unfoldable pub gateway_invoke : String → String → String → Fields → Result Fields
    unfolding gateway_call require_success_attestation
    gateway_invoke request_id tool_id operation arguments = do
      value ← gateway_call request_id "invoke_tool" (
          fields (
            ("tool_id", str tool_id)
            ∷ ("operation", str operation)
            ∷ ("arguments", obj arguments)
            ∷ []))
      require_success_attestation value tool_id
      ok value

    unfoldable pub gateway_get_invocation : String → String → Result Fields
    unfolding gateway_call
    gateway_get_invocation request_id invocation_id =
        gateway_call request_id "get_invocation"
          (fields (("invocation_id", str invocation_id) ∷ []))
