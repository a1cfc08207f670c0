-- ===== src/Gen3/Files.antt =====
-- `read_regular` and `read_json_regular` of src/dger/relay_protocol_fs.py, and `_safe_execution_dir`
-- of src/dger/relay_state_store.py.
use Prim.Native.String.{◌++◌}
use dropbox_governed_executi.Prelude.{ℕ, String, Bool, not, leb, nat_eq, length}
use dropbox_governed_executi.Result.{
  Result, ok, err, other, raise_with, require, require_with, ◌>>=◌, ◌>>◌,
}
use dropbox_governed_executi.Json.{Fields}
use dropbox_governed_executi.Platform.{Bytes}
use dropbox_governed_executi.Primitives.Files.{Entry, absent, regular}
use dropbox_governed_executi.Primitives.Patterns.{is_id}
use dropbox_governed_executi.Gen3.Values.{StrictJson}
use dropbox_governed_executi.Gen3.Parsing.{bounded_json_object}

-- `path.lstat()` looks at a link and not at what it names.
unfoldable pub read_lstat_regular : Entry → String → ℕ → Result Bytes
read_lstat_regular absent path max_bytes = err (other "FileNotFoundError" path)
read_lstat_regular (regular mode size raw) path max_bytes = do
  require_with (leb size max_bytes) "FILE_TOO_LARGE" path
  require_with (nat_eq (length raw) size) "FILE_CHANGED_DURING_READ" path
  ok raw
read_lstat_regular _ path max_bytes = raise_with "UNSAFE_FILE_TYPE" path

unfoldable pub read_json_regular : ⦃sj : StrictJson⦄ → Entry → String → ℕ → Result (Fields × Bytes)
unfolding read_lstat_regular bounded_json_object
read_json_regular e path max_bytes = do
  raw ← read_lstat_regular e path max_bytes
  value ← bounded_json_object raw
  ok (value, raw)

-- `parent / execution_id`: `link` names something, `dangling` nothing; `no_directory` is any other
-- file.
pub data Child : Type 0 where
  missing dangling no_directory linked plain : Child

-- `_safe_execution_dir` with `create=True`: the parent, whether it is a link, and what stands at the
-- path.
unfoldable pub safe_execution_dir : String → Bool → Child → String → Result (Unit {0})
unfolding is_id
safe_execution_dir parent parent_is_symlink child execution_id = do
  require (is_id execution_id) "INVALID_EXECUTION_ID"
  require_with (not parent_is_symlink) "UNSAFE_PARENT" parent
  let path = parent ++ "/" ++ execution_id
  elim child [
    | missing ↦ ok tt
    | plain ↦ ok tt
    | linked ↦ raise_with "UNSAFE_EXECUTION_PATH" path
    | dangling ↦ err (other "FileExistsError" path)
    | no_directory ↦ err (other "FileExistsError" path)
  ]
