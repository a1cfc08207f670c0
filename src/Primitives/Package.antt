-- ===== src/Primitives/Package.antt =====
-- `_validate_request`, `make_ready_record` and `_validate_ready` of src/dger/gen4_primitives.py.
use dropbox_governed_executi.Prelude.{String, ◌&&◌, List, [], ◌∷◌, length, ◌==◌}
use dropbox_governed_executi.Prelude.Int.{pos}
use dropbox_governed_executi.Result.{Result, ok, require, ◌>>=◌, ◌>>◌}
use dropbox_governed_executi.Json.{
  Value, num, str, obj, Fields, keys, fields, get, has_keys, is_str, py_eq,
}
use dropbox_governed_executi.Platform.{Bytes, Python, sha256}
use dropbox_governed_executi.Primitives.Patterns.{safe_id}
use dropbox_governed_executi.Primitives.Payload.{Listing, payload_manifest}

abbrev pub request_schema : String
request_schema = "dger-execution-relay-request/v2"

abbrev pub ready_schema : String
ready_schema = "dger-execution-relay-ready/v2"

abbrev pub request_keys : List String
request_keys =
    "schema" ∷ "dger_request_id" ∷ "gep_execution_id" ∷ "ahc_effect_reservation_id"
    ∷ "chm_handoff_id" ∷ []

-- The handoff is checked unless it is `None`.
optional_id : Value → Result (Unit {0})
optional_id Value.null = ok tt
optional_id handoff = do safe_id handoff "INVALID_CHM_HANDOFF_ID"; ok tt

unfoldable pub validate_request : Fields → String → Result (Unit {0})
unfolding optional_id safe_id
validate_request value package_id = do
  require (has_keys value request_keys && is_str (get value "schema") request_schema)
      "MALFORMED_REQUEST"
  request_id ← safe_id (get value "dger_request_id") "INVALID_DGER_REQUEST_ID"
  require (request_id == package_id) "DGER_REQUEST_ID_DIRECTORY_MISMATCH"
  safe_id (get value "gep_execution_id") "INVALID_GEP_EXECUTION_ID"
  safe_id (get value "ahc_effect_reservation_id") "INVALID_AHC_EFFECT_ID"
  optional_id (get value "chm_handoff_id")

module _ ⦃py : Python⦄ where
  unfoldable pub make_ready_record : Bytes → Bytes → Listing → String → Result Fields
  unfolding payload_manifest
  make_ready_record request_raw admission_raw payload_root dger_request_id = do
    (entries, total, manifest_digest) ← payload_manifest payload_root
    ok (
        fields (
          ("schema", str ready_schema)
          ∷ ("dger_request_id", str dger_request_id)
          ∷ ("request_sha256", str (sha256 request_raw))
          ∷ ("request_size", num (pos (length request_raw)))
          ∷ ("admission_sha256", str (sha256 admission_raw))
          ∷ ("admission_size", num (pos (length admission_raw)))
          ∷ ("payload_manifest_sha256", str manifest_digest)
          ∷ ("payload_total_bytes", num (pos total))
          ∷ ("payload_file_count", num (pos (length entries)))
          ∷ []))

  unfoldable pub validate_ready : Fields → Fields → Result (Unit {0})
  validate_ready value expected =
      require (has_keys value (keys expected) && py_eq (obj value) (obj expected))
        "INGRESS_INTEGRITY_MISMATCH"
