-- ===== src/God/Snapshot.antt =====
-- `_snapshot`, `_restore` and `_atomic` of deployment/dger_god_adapter.py. What base64 and chmod do is
-- a parameter, and the texts of the errors are without the paths. Nothing else changes the path while one of the functions runs.
use dropbox_governed_executi.Prelude.{
  ℕ, String, ◌≡◌, Bool, true, false, not, ◌&&◌, Option, none, some, List, [], ◌∷◌, ◌==◌, leb,
  length, if◌then◌else◌,
}
use dropbox_governed_executi.Prelude.Int.{ℤ, pos}
use dropbox_governed_executi.Result.{Result, ok, err, other, some_or, ◌>>=◌, ◌>>◌}
use dropbox_governed_executi.Json.{Value, num, bool, str, Fields, fields, get, is_str, as_str}
use dropbox_governed_executi.Platform.{Bytes, Python, sha256}
use dropbox_governed_executi.Primitives.Files.{Entry, absent, link, directory, special, regular}

abbrev pub max_snapshot_bytes : ℕ
max_snapshot_bytes = 131_072

-- `if not test: raise RuntimeError(text)`
abbrev pub or_runtime_error : Bool → String → Result (Unit {0})
or_runtime_error true text = ok tt
or_runtime_error false text = err (other "RuntimeError" text)

-- base64 of Python's library, with the encoding of the text as ASCII, and the mode that a file has after
-- `os.chmod`.
pub record Host : Type 0 where
  pub encode_base64 : Bytes → String
  pub decode_base64 : String → Result Bytes
  pub chmod : ℤ → Result ℕ

-- A directory above the path: one that is not there (a dangling link is not), a plain one, or something
-- else.
pub data Parent : Type 0 where
  no_parent plain_parent unsafe_parent : Parent

-- `_require_safe_parent_chain`
unfoldable pub safe_parent_chain : List Parent → Result (Unit {0})
safe_parent_chain [] = ok tt
safe_parent_chain (unsafe_parent ∷ l) = err (other "RuntimeError" "unsafe path component")
safe_parent_chain (_ ∷ l) = safe_parent_chain l

-- The path, when something is put there: the directories above before and after they are made, whether
-- a link at the path leads to a file, whether the temporary name is taken, and how the writing ends.
pub record Target : Type 0 where
  pub entry : Entry
  pub leads : Bool
  pub parents : List Parent
  pub made : List Parent
  pub temp_taken : Bool
  pub write : Result (Unit {0})

-- `path.exists() and (path.is_symlink() or not path.is_file())`
unfoldable pub is_unsafe_target : Entry → Bool → Bool
is_unsafe_target absent leads = false
is_unsafe_target link leads = leads
is_unsafe_target directory leads = true
is_unsafe_target special leads = true
is_unsafe_target (regular mode size raw) leads = false

-- `isinstance(mode, int)`, which is so of a Boolean too.
unfoldable pub mode_of : Value → Option ℤ
mode_of (num z) = some z
mode_of (bool true) = some (pos 1)
mode_of (bool false) = some (pos 0)
mode_of _ = none

-- `_restore` where nothing was: the path afterwards.
unfoldable pub restore_missing : Entry → Result Entry
restore_missing absent = ok absent
restore_missing (regular mode size raw) = ok absent
restore_missing _ = err (other "RuntimeError" "rollback target unsafe")

module _ ⦃py : Python⦄ (host : Host) where
  unfoldable pub snapshot : Entry → Result Fields
  snapshot absent = ok (fields (("status", str "MISSING") ∷ []))
  snapshot (regular mode size raw) = do
    or_runtime_error (leb (length raw) max_snapshot_bytes) "snapshot target too large"
    ok (
        fields (
          ("status", str "PRESENT")
          ∷ ("mode", num (pos mode))
          ∷ ("sha256", str (sha256 raw))
          ∷ ("base64", str (host.encode_base64 raw))
          ∷ []))
  snapshot _ = err (other "RuntimeError" "snapshot target unsafe")

  -- `_atomic`: the file that stands at the path afterwards.
  unfoldable pub put_atomic : Target → Bytes → ℤ → Result Entry
  unfolding safe_parent_chain is_unsafe_target
  put_atomic target raw mode = do
    safe_parent_chain target.parents
    safe_parent_chain target.made
    or_runtime_error (not (is_unsafe_target target.entry target.leads)) "unsafe destination"
    or_runtime_error (not target.temp_taken) "temporary collision"
    target.write
    changed ← host.chmod mode
    ok (regular changed (length raw) raw)

  -- `_restore` of a file.
  unfoldable pub restore_present : Target → Fields → Result Entry
  unfolding mode_of put_atomic
  restore_present target saved = do
    encoded ←
        some_or (as_str (get saved "base64")) (other "RuntimeError" "invalid rollback snapshot")
    expected ←
        some_or (as_str (get saved "sha256")) (other "RuntimeError" "invalid rollback snapshot")
    mode ← some_or (mode_of (get saved "mode")) (other "RuntimeError" "invalid rollback snapshot")
    raw ← host.decode_base64 encoded
    or_runtime_error (leb (length raw) max_snapshot_bytes && sha256 raw == expected)
        "rollback snapshot integrity mismatch"
    put_atomic target raw mode

  unfoldable pub restore : Target → Fields → Result Entry
  unfolding restore_missing restore_present
  restore target saved =
      if is_str (get saved "status") "MISSING"
      then restore_missing target.entry
      else if is_str (get saved "status") "PRESENT"
      then restore_present target saved
      else err (other "RuntimeError" "invalid rollback snapshot status")

-- What was there, with the size that is the length of its bytes.
abbrev pub as_it_was : Entry → Entry
as_it_was (regular mode size raw) = regular mode (length raw) raw
as_it_was entry = entry

abbrev pub mode_bits : Entry → ℕ
mode_bits (regular mode size raw) = mode
mode_bits entry = 0

-- Nothing above the path is unsafe, nothing stands in the way, and the writing succeeds.
pub record IsWritable (target : Target) : Type 0 where
  pub parents : safe_parent_chain target.parents ≡ ok tt
  pub made : safe_parent_chain target.made ≡ ok tt
  pub free : target.temp_taken ≡ false
  pub write : target.write ≡ ok tt
  pub plain : restore_missing target.entry ≡ ok absent

abbrev pub bytes_of : Entry → Bytes
bytes_of (regular mode size raw) = raw
bytes_of entry = []
