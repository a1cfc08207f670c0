-- ===== src/Gen3/Stage.antt =====
-- `_stage_digest` of src/dger/relay_state_store.py; `freeze_ingress` and `materialize_moh_stage` of
-- src/dger/relay_state_stage.py. Temporary names end in random digits and are taken to be fresh;
-- writes to them succeed, and what is written is what is read back.
use Prim.Native.String.{◌++◌}
use dropbox_governed_executi.Prelude.{
  ℕ, String, Bool, true, false, not, List, [], ◌∷◌, ◌==◌, length, if◌then◌else◌,
}
use dropbox_governed_executi.Result.{
  Result, ok, err, other, raise, raise_with, require, ◌>>=◌, ◌>>◌,
}
use dropbox_governed_executi.Json.{str, arr, items, dict}
use dropbox_governed_executi.Prelude.{map}
use dropbox_governed_executi.Platform.{Bytes, Python, sha256, canonical_digest}
use dropbox_governed_executi.Primitives.Files.{Entry, regular}
use dropbox_governed_executi.Primitives.Payload.{PayloadEntry, entry_value}
use dropbox_governed_executi.Relay.Effect.Publish.{same_bytes}
use dropbox_governed_executi.Gen3.Values.{StrictJson}
use dropbox_governed_executi.Gen3.Parsing.{bounded_json_object}
use dropbox_governed_executi.Gen3.Files.{read_lstat_regular, read_json_regular}
use dropbox_governed_executi.Gen3.Payload.{Tree, walked_manifest, copy_walked_verified}
use dropbox_governed_executi.Gen3.Ingress.{
  validate_execution_request, validate_ready_record, validate_moh_envelope,
}

abbrev pub max_envelope_bytes : ℕ
max_envelope_bytes = 32768

abbrev pub max_request_bytes_v1 : ℕ
max_request_bytes_v1 = 32768

-- What stands at the path of a stage. `no_directory` is a file; a `directory_at` has its
-- `request.json` (of a frozen one), its `envelope.json` and its payload.
pub data StagePlace : Type 0 where
  nothing_there dangling_link link_there no_directory : StagePlace
  directory_at : Entry → Entry → Tree → StagePlace

-- `path.is_symlink()` and `path.exists()`
unfoldable pub is_link : StagePlace → Bool
is_link dangling_link = true
is_link link_there = true
is_link _ = false

unfoldable pub is_there : StagePlace → Bool
is_there nothing_there = false
is_there dangling_link = false
is_there _ = true

-- The inbox of the host: `no_dir` when something else stands at its path, and `mkdir` fails;
-- `orphans` says of each left-over temporary name whether it is a plain directory; `placed` is what
-- stands at the final name when the temporary one is renamed, and `rename_error` the exception if
-- that is not empty.
pub record MohInbox : Type 0 where
  pub path : String
  pub is_symlink : Bool
  pub no_dir : Bool
  pub orphans : List (String × Bool)
  pub final : StagePlace
  pub placed : StagePlace
  pub rename_error : String

-- The loop over the left-over temporary names.
unfoldable pub clear_temp_stages : List (String × Bool) → Result (Unit {0})
clear_temp_stages [] = ok tt
clear_temp_stages ((orphan, true) ∷ l) = clear_temp_stages l
clear_temp_stages ((orphan, false) ∷ l) = raise_with "MOH_TEMP_STAGE_UNSAFE" orphan

-- `moh_inbox.mkdir(parents=True, exist_ok=True)`
unfoldable pub make_moh_inbox : MohInbox → Result (Unit {0})
make_moh_inbox inbox = if inbox.no_dir then err (other "FileExistsError" inbox.path) else ok tt

-- The package of the sender: its name, whether it is a plain directory, whether its `READY.json`
-- exists, and what it holds.
pub record IngressPackage : Type 0 where
  pub name : String
  pub is_directory : Bool
  pub ready_exists : Bool
  pub path : String
  pub request : Entry
  pub envelope : Entry
  pub ready : Entry
  pub payload : Tree

-- What `freeze_ingress` returns beside the path.
pub record FrozenIngress : Type 0 where
  pub request_raw : Bytes
  pub envelope_raw : Bytes
  pub entries : List PayloadEntry
  pub manifest_digest : String

module _ ⦃py : Python⦄ where
  unfoldable pub digest_of_stage : Bytes → String → List PayloadEntry → String
  unfolding canonical_digest
  digest_of_stage envelope manifest entries = canonical_digest (
      dict (
        ("envelope_sha256", str (sha256 envelope))
        ∷ ("payload_manifest_sha256", str manifest)
        ∷ ("files", arr (items (map entry_value entries)))
        ∷ []))

  -- `_stage_digest` of a directory.
  unfoldable pub stage_digest : String → Entry → Tree → Result String
  unfolding read_lstat_regular walked_manifest digest_of_stage
  stage_digest path envelope payload = do
    raw ← read_lstat_regular envelope (path ++ "/envelope.json") max_envelope_bytes
    (entries, total, manifest) ← walked_manifest (path ++ "/payload") payload
    ok (digest_of_stage raw manifest entries)

  -- `_stage_digest` of a path.
  unfoldable pub stage_digest_at : String → StagePlace → Result String
  unfolding stage_digest
  stage_digest_at path (directory_at request envelope payload) = stage_digest path envelope payload
  stage_digest_at path no_directory = err (other "NotADirectoryError" (path ++ "/envelope.json"))
  stage_digest_at path _ = err (other "FileNotFoundError" (path ++ "/envelope.json"))

  -- A stage that is there is compared and left alone.
  unfoldable pub same_stage : String → StagePlace → String → String → Result (Unit {0})
  unfolding stage_digest_at
  same_stage path place expected code = do
    digest ← stage_digest_at path place
    require (digest == expected) code

  -- `os.rename(tmp, final)` and its `except FileExistsError`.
  unfoldable pub rename_temp_stage : MohInbox → String → StagePlace → String → Result StagePlace
  unfolding same_stage
  rename_temp_stage inbox path new expected = elim inbox.placed [
    | nothing_there ↦ ok new
    | _ ↦
        if inbox.rename_error == "FileExistsError"
        then (do same_stage path inbox.placed expected "MOH_STAGE_CONFLICT"; ok inbox.placed)
        else err (other inbox.rename_error path)
  ]

  -- A new stage is written beside the final name, read back, and renamed.
  unfoldable pub materialize_new :
      MohInbox → String → String → Entry → Tree → String → Result StagePlace
  unfolding read_lstat_regular walked_manifest copy_walked_verified same_stage rename_temp_stage
  materialize_new inbox frozen path envelope payload expected = do
    raw ← read_lstat_regular envelope (frozen ++ "/envelope.json") max_envelope_bytes
    (entries, total, manifest) ← walked_manifest (frozen ++ "/payload") payload
    copied ← copy_walked_verified (frozen ++ "/payload") payload (path ++ "/payload") entries
    let new = directory_at Entry.absent (regular 0o600 (length raw) raw) copied
    same_stage path new expected "MOH_STAGE_READBACK_MISMATCH"
    final ← rename_temp_stage inbox path new expected
    same_stage path final expected "MOH_STAGE_READBACK_MISMATCH"
    ok final

  -- What then stands at the final name.
  unfoldable pub materialize_moh_stage :
      MohInbox → String → Entry → Tree → String → String → Result StagePlace
  unfolding make_moh_inbox clear_temp_stages is_there same_stage materialize_new
  materialize_moh_stage inbox frozen envelope payload execution_id expected = do
    require (not inbox.is_symlink) "UNSAFE_MOH_INBOX"
    make_moh_inbox inbox
    clear_temp_stages inbox.orphans
    let path = inbox.path ++ "/" ++ execution_id
    if is_there inbox.final
        then elim inbox.final [
          | directory_at r e p ↦ do
            same_stage path inbox.final expected "MOH_STAGE_CONFLICT"
            ok inbox.final
          | _ ↦ raise "MOH_STAGE_CONFLICT"
        ]
        else materialize_new inbox frozen path envelope payload expected

  module _ ⦃sj : StrictJson⦄ where
    -- What `freeze_ingress` and `_assert_same_intent` check of a package.
    unfoldable pub read_ingress : IngressPackage → String → Result FrozenIngress
    unfolding read_lstat_regular bounded_json_object validate_execution_request walked_manifest
        validate_moh_envelope read_json_regular validate_ready_record
    read_ingress pack execution_id = do
      request_raw ←
          read_lstat_regular pack.request (pack.path ++ "/request.json") max_request_bytes_v1
      envelope_raw ←
          read_lstat_regular pack.envelope (pack.path ++ "/envelope.json") max_envelope_bytes
      request ← bounded_json_object request_raw
      envelope ← bounded_json_object envelope_raw
      validate_execution_request request execution_id
      (entries, total, manifest) ← walked_manifest (pack.path ++ "/payload") pack.payload
      validate_moh_envelope envelope execution_id entries
      (ready, ready_raw) ←
          read_json_regular pack.ready (pack.path ++ "/READY.json") max_request_bytes_v1
      validate_ready_record ready execution_id request_raw envelope_raw entries total manifest
      ok (record {
        request_raw = request_raw;
        envelope_raw = envelope_raw;
        entries = entries;
        manifest_digest = manifest;
      })

    -- A frozen stage that is there is compared and left alone.
    unfoldable pub settle_frozen :
        String → FrozenIngress → IngressPackage → StagePlace → Result StagePlace
    unfolding is_there is_link same_stage read_lstat_regular same_bytes copy_walked_verified
    settle_frozen path i pack (directory_at request envelope payload) = do
      let expected = digest_of_stage i.envelope_raw i.manifest_digest i.entries
      same_stage path (directory_at request envelope payload) expected "FROZEN_STAGE_CONFLICT"
      existing ← read_lstat_regular request (path ++ "/request.json") max_request_bytes_v1
      require (same_bytes existing i.request_raw) "FROZEN_REQUEST_CONFLICT"
      ok (directory_at request envelope payload)
    settle_frozen path i pack link_there = raise "FROZEN_STAGE_CONFLICT"
    settle_frozen path i pack no_directory =
        err (other "NotADirectoryError" (path ++ "/envelope.json"))
    settle_frozen path i pack place = do
      let expected = digest_of_stage i.envelope_raw i.manifest_digest i.entries
      copied ←
          copy_walked_verified (pack.path ++ "/payload") pack.payload (path ++ "/payload") i.entries
      let request = regular 0o600 (length i.request_raw) i.request_raw
      let new = directory_at request (regular 0o600 (length i.envelope_raw) i.envelope_raw) copied
      existing ← read_lstat_regular request (path ++ "/request.json") max_request_bytes_v1
      require (same_bytes existing i.request_raw) "FROZEN_STAGE_READBACK_MISMATCH"
      same_stage path new expected "FROZEN_STAGE_READBACK_MISMATCH"
      if is_link place then err (other "NotADirectoryError" path) else ok new

    -- `parent_is_symlink` is said of `frozen`, `frozen` of `frozen/<execution_id>`.
    unfoldable pub freeze_ingress :
        IngressPackage → String → Bool → StagePlace → String → Result (FrozenIngress × StagePlace)
    unfolding read_ingress settle_frozen
    freeze_ingress pack path parent_is_symlink frozen execution_id = do
      i ← read_ingress pack execution_id
      require (not parent_is_symlink) "UNSAFE_FROZEN_ROOT"
      place ← settle_frozen path i pack frozen
      ok (i, place)
