-- ===== src/Relay/Ingress.antt =====
-- The intake of src/dger/gen4_state.py: `_read_frozen`, `_freeze`, `_accept_frozen`, `_index_gep`
-- and `_correlate`. A frozen directory appears by one rename, so it is one event; an index file is
-- created empty before it is written, so it is two.
use Prim.Native.String.{◌++◌}
use dropbox_governed_executi.Prelude.{
  ℕ, ◌*◌, String, Bool, false, Option, none, some, List, [], ◌∷◌, map, ◌==◌, length, if◌then◌else◌,
}
use dropbox_governed_executi.Result.{Result, ok, err, raise, raise_with, require, ◌>>=◌ as ◌>>=ᵣ◌}
use dropbox_governed_executi.Json.{Fields, str, arr, items, dict}
use dropbox_governed_executi.Platform.{
  Bytes, Python, sha256, encode, canonical_digest, canonical_file_bytes,
}
use dropbox_governed_executi.Primitives.Parsing.{json_object_no_duplicates}
use dropbox_governed_executi.Primitives.Files.{Entry, regular, read_regular}
use dropbox_governed_executi.Primitives.Payload.{
  Listing, unsafe, tree, PayloadEntry, entry_value, payload_manifest, copy_payload_verified,
}
use dropbox_governed_executi.Primitives.Package.{
  validate_request, make_ready_record, validate_ready,
}
use dropbox_governed_executi.Contract.Types.{TrustedCorrelation}
use dropbox_governed_executi.Contract.Correlation.{correlation_to_dict, validate_correlation}
use dropbox_governed_executi.Relay.State.{State, ingress_frozen, correlated}
use dropbox_governed_executi.Relay.History.{
  Event, History, Frozen, froze, indexed, fault, establish_correlation, correlation_replied,
  last_saved, last_frozen, last_indexed,
}
use dropbox_governed_executi.Relay.Exec.{
  Relay, Action, Exec, lift, ◌>>=◌, ◌>>◌, get_state, modify, emit, save, status, now, fault_point,
  ask, in_memory,
}
use dropbox_governed_executi.Relay.Effect.Ahc.{blocked}
use dropbox_governed_executi.Relay.Effect.Publish.{same_bytes}

abbrev pub max_request_bytes : ℕ
max_request_bytes = 32_768

abbrev pub max_admission_bytes : ℕ
max_admission_bytes = 128 * 1024

-- A directory under `IngressV2`, as it is found.
pub record Package : Type 0 where
  pub name : String
  pub is_symlink : Bool
  pub is_dir : Bool
  pub ready_exists : Bool
  pub request : Entry
  pub admission : Entry
  pub ready : Entry
  pub payload : Listing

-- A request that was read and checked: the tuple of `_read_frozen`.
pub record Intake : Type 0 where
  pub request : Fields
  pub request_raw : Bytes
  pub admission_raw : Bytes
  pub entries : List PayloadEntry
  pub manifest_digest : String
  pub ready_raw : Bytes

-- A file that the relay wrote.
abbrev pub own_file : Bytes → Entry
own_file raw = regular 0o600 (length raw) raw

abbrev pub listed : Listing → List (String × Entry)
listed unsafe = []
listed (tree l) = l

module _ ⦃py : Python⦄ where
  -- The common part of `_read_frozen` and `_freeze`: three reads, the request, the payload, READY.
  unfoldable pub read_intake : Entry → Entry → Entry → Listing → String → Result Intake
  unfolding read_regular json_object_no_duplicates validate_request payload_manifest
      make_ready_record validate_ready
  read_intake request_file admission_file ready_file payload request_id =
      read_regular request_file "request.json" max_request_bytes >>=ᵣ λ request_raw.
      read_regular admission_file "admission.bin" max_admission_bytes >>=ᵣ λ admission_raw.
      read_regular ready_file "READY.json" max_request_bytes >>=ᵣ λ ready_raw.
      json_object_no_duplicates request_raw >>=ᵣ λ request.
      validate_request request request_id >>=ᵣ λ _.
      payload_manifest payload >>=ᵣ λ (entries, total, manifest_digest).
      json_object_no_duplicates ready_raw >>=ᵣ λ ready.
      make_ready_record request_raw admission_raw payload request_id >>=ᵣ λ expected.
      validate_ready ready expected >>=ᵣ λ _. ok (record {
        request = request;
        request_raw = request_raw;
        admission_raw = admission_raw;
        entries = entries;
        manifest_digest = manifest_digest;
        ready_raw = ready_raw;
      })

  -- `_read_frozen`
  unfoldable pub read_frozen : Frozen → String → Result Intake
  unfolding read_intake
  read_frozen f request_id =
      read_intake (own_file f.request_raw) (own_file f.admission_raw) (own_file f.ready_raw)
        (tree f.payload) request_id

  -- The digest of the four parts, by which `_freeze` compares.
  unfoldable pub freeze_digest : Intake → String
  unfolding canonical_digest
  freeze_digest i = canonical_digest (
      dict (
        ("request_sha256", str (sha256 i.request_raw))
        ∷ ("admission_sha256", str (sha256 i.admission_raw))
        ∷ ("payload_manifest_sha256", str i.manifest_digest)
        ∷ ("ready_sha256", str (sha256 i.ready_raw))
        ∷ []))

  -- `transport_intent` of `_accept_frozen`: the same four parts and the files.
  unfoldable pub transport_intent : Intake → String
  unfolding canonical_digest
  transport_intent i = canonical_digest (
      dict (
        ("request_sha256", str (sha256 i.request_raw))
        ∷ ("admission_sha256", str (sha256 i.admission_raw))
        ∷ ("payload_manifest_sha256", str i.manifest_digest)
        ∷ ("ready_sha256", str (sha256 i.ready_raw))
        ∷ ("files", arr (items (map entry_value i.entries)))
        ∷ []))

  unfoldable pub same_frozen : String → Intake → String → Result (Unit {0})
  unfolding freeze_digest
  same_frozen expected existing code = require (freeze_digest existing == expected) code

  unfoldable pub record_event : Event → Action History (Unit {0})
  record_event e h = (ok tt, e ∷ h)

  -- What `_freeze` does when `frozen/<id>` is there, and when it is not.
  unfoldable pub freeze_onto : Option Frozen → Package → Intake → String → Action History (Unit {0})
  unfolding same_frozen read_frozen copy_payload_verified record_event freeze_digest
  freeze_onto (some f) pack i request_id = do
    existing ← lift (read_frozen f request_id)
    lift (same_frozen (freeze_digest i) existing "FROZEN_STAGE_CONFLICT")
  freeze_onto none pack i request_id = do
    copied ← lift (copy_payload_verified (listed pack.payload) i.entries)
    let f : Frozen = record {
      request_raw = i.request_raw;
      admission_raw = i.admission_raw;
      ready_raw = i.ready_raw;
      payload = copied;
    }
    record_event (froze request_id f)
    observed ← lift (read_frozen f request_id)
    lift (same_frozen (freeze_digest i) observed "FROZEN_STAGE_READBACK_MISMATCH")
    record_event (fault "after_ingress_freeze")

  unfoldable pub freeze : Package → String → Action History (Unit {0})
  unfolding freeze_onto read_intake record_event
  freeze pack request_id = do
    record_event (fault "before_ingress_freeze")
    i ← lift (read_intake pack.request pack.admission pack.ready pack.payload request_id)
    λ h. freeze_onto (last_frozen request_id h) pack i request_id h

  -- The dictionary of an accepted request.
  unfoldable pub accepted_state : Relay → Intake → String → String → State
  unfolding transport_intent
  accepted_state self i request_id t = record {
    phase = ingress_frozen;
    dger_request_id = request_id;
    request = i.request;
    transport_intent_digest = transport_intent i;
    request_sha256 = sha256 i.request_raw;
    admission_sha256 = sha256 i.admission_raw;
    payload_manifest_sha256 = i.manifest_digest;
    ready_sha256 = sha256 i.ready_raw;
    frozen_stage = self.frozen_dir request_id;
    service_identity_digest = self.service.identity_digest;
    execute_reconciliation_required = false;
    moh_execute_call_may_have_happened = false;
    moh_execute_calls = 0;
    moh_status_calls = 0;
    moh_in_doubt_ever = false;
    ahc_terminal_calls = 0;
    chm_publish_calls = 0;
    error_generation = 0;
    last_error = none;
    trusted_correlation = none;
    moh_stage_receipt = none;
    ahc_begin_response_ambiguous = false;
    ahc_begin_observation = none;
    last_ahc_status = none;
    pre_execute_status_required = none;
    last_moh_observation = none;
    last_moh_observed_via = none;
    moh_in_doubt_source = none;
    moh_in_doubt_observation = none;
    moh_terminal_observation = none;
    moh_terminal_digest = none;
    last_safe_moh_status = none;
    moh_execute_response_invalid = false;
    ahc_in_doubt_report_digest = none;
    ahc_in_doubt_report_ack = none;
    result_ref = none;
    result_sha256 = none;
    ahc_terminal_ack = none;
    chm_terminal_ack = none;
    times = record {
      accepted_at_utc = t;
      correlated_at_utc = none;
      moh_stage_at_utc = none;
      pre_ahc_execute_wal_at_utc = none;
      ahc_in_doubt_at_utc = none;
      last_safe_moh_status_at_utc = none;
      moh_execute_call_wal_at_utc = none;
      moh_terminal_at_utc = none;
    };
  }

  -- The new dictionary is saved and published.
  unfoldable pub record_accepted : Relay → Exec State
  record_accepted self = do
    save
    status self "INGRESS_FROZEN" []
    fault_point self "after_accept_state"
    get_state

  unfoldable pub accept_onto : Relay → Option State → Intake → String → Action History State
  unfolding record_accepted accepted_state transport_intent
  accept_onto self (some current) i request_id h =
      if current.transport_intent_digest == transport_intent i
      then (ok current, h)
      else (raise "DGER_REQUEST_INTENT_CONFLICT", h)
  accept_onto self none i request_id h =
      in_memory (accepted_state self i request_id (self.utc h)) (record_accepted self) h

  unfoldable pub intake_of : Option Frozen → String → Result Intake
  unfolding read_frozen
  intake_of none request_id = raise_with "UNSAFE_OR_MISSING_FILE" "request.json"
  intake_of (some f) request_id = read_frozen f request_id

  unfoldable pub accept_frozen : Relay → String → Action History State
  unfolding intake_of accept_onto
  accept_frozen self request_id = do
    i ← λ h. lift (intake_of (last_frozen request_id h) request_id) h
    λ h. accept_onto self (last_saved request_id h) i request_id h

  -- The bytes of the index file of an execution.
  unfoldable pub index_record : TrustedCorrelation → State → Bytes
  unfolding canonical_file_bytes
  index_record c s = canonical_file_bytes (
      dict (
        ("schema", str "dger-gep-execution-index/v1")
        ∷ ("gep_execution_id", str c.gep_execution_id)
        ∷ ("dger_request_id", str s.dger_request_id)
        ∷ ("transport_intent_digest", str s.transport_intent_digest)
        ∷ ("correlation_digest", str c.correlation_digest)
        ∷ []))

  -- The outcome of `os.open(..., O_CREAT | O_EXCL)`: the file that was there, or none.
  unfoldable pub index_onto : Option Bytes → String → Bytes → Exec (Unit {0})
  unfolding read_regular
  index_onto (some old) name raw = do
    existing ← lift (read_regular (own_file old) (name ++ ".json") 32_768)
    lift (require (same_bytes existing raw) "GEP_EXECUTION_INTENT_CONFLICT")
  index_onto none name raw = do emit (indexed name []); emit (indexed name raw)

  unfoldable pub index_gep : TrustedCorrelation → Exec (Unit {0})
  unfolding index_onto index_record
  index_gep c x =
      let name = sha256 (encode c.gep_execution_id) in
      index_onto (last_indexed name x.history) name (index_record c x.state) x

  unfoldable pub correlate_answer : Relay → Result TrustedCorrelation → Exec (Unit {0})
  unfolding index_gep correlation_to_dict validate_correlation
  correlate_answer self (err exc) = blocked self "correlation" "PEER_CORRELATION_BLOCKED" exc
  correlate_answer self (ok c) = do
    s ← get_state
    lift
        (validate_correlation c s.request s.admission_sha256 s.payload_manifest_sha256 self.service)
    index_gep c
    value ← lift (correlation_to_dict c)
    t ← now self
    modify (λ s. record s {
      trusted_correlation = some value;
      phase = correlated;
      times = record s.times { correlated_at_utc = some t };
    })
    save
    status self "CORRELATED" []
    fault_point self "after_correlation"

  unfoldable pub correlate : Relay → Exec (Unit {0})
  unfolding correlate_answer
  correlate self = do
    s ← get_state
    lift (
        require (s.service_identity_digest == self.service.identity_digest)
          "DGER_SERVICE_IDENTITY_CHANGED")
    r ←
        ask establish_correlation
          (λ h.
            self.peers.establish_correlation h s.request s.admission_sha256
              s.payload_manifest_sha256 self.service)
          correlation_replied
    correlate_answer self r
