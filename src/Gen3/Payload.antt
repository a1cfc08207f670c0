-- ===== src/Gen3/Payload.antt =====
-- `_safe_rel`, `payload_manifest` and `moh_closure_digest` of src/dger/relay_protocol_fs.py, and
-- `_copy_payload_verified` of src/dger/relay_state_store.py. The limits and the form of an entry are
-- those of src/dger/gen4_primitives.py.
use Prim.Native.Nat.{Ordering}
use Prim.Native.String.{◌++◌, compare}
use dropbox_governed_executi.Prelude.{
  ℕ, ◌+◌, String, not, ◌&&◌, ◌||◌, List, [], ◌∷◌, map, leb, nat_eq, length, any, ◌==◌,
}
use dropbox_governed_executi.Result.{
  Result, ok, err, other, raise, raise_with, require, require_with, ◌>>=◌, ◌>>◌,
}
use dropbox_governed_executi.Json.{str, arr, items, dict}
use dropbox_governed_executi.Platform.{Python, encode, sha256, canonical_digest}
use dropbox_governed_executi.Primitives.Files.{Entry, absent, regular}
use dropbox_governed_executi.Primitives.Payload.{
  PayloadEntry, entry_value, entry_at, posix_path, is_unsafe_part, is_empty, same_entries,
  max_files, max_file_bytes, max_total_bytes, max_path_bytes,
}
use dropbox_governed_executi.Gen3.Files.{read_lstat_regular}

abbrev pub payload_manifest_schema : String
payload_manifest_schema = "dger-payload-manifest/v1"

abbrev pub moh_closure_schema : String
moh_closure_schema = "moh-closure-manifest/v1"

-- What `os.walk` comes to, in its order: a link to a directory, or a file, with its path relative to
-- the root. Directories themselves ask for nothing.
pub data Walked : Type 0 where
  directory_link : String → Walked
  file : String → Entry → Walked

-- `unsafe_root` is a link or no directory.
pub data Tree : Type 0 where
  unsafe_root : Tree
  walked : List Walked → Tree

-- The files of a tree, by their paths.
unfoldable pub files_of : List Walked → List (String × Entry)
files_of [] = []
files_of (directory_link rel ∷ l) = files_of l
files_of (file rel e ∷ l) = (rel, e) ∷ files_of l

-- `entries.sort(key=lambda item: item["path"])`
unfoldable pub insert_entry : PayloadEntry → List PayloadEntry → List PayloadEntry
insert_entry e [] = e ∷ []
insert_entry e (f ∷ l) =
    let rest = insert_entry e l in
    elim (compare f.path e.path) [ Ordering.gt ↦ e ∷ f ∷ l | _ ↦ f ∷ rest ]

unfoldable pub sort_entries : List PayloadEntry → List PayloadEntry
unfolding insert_entry
sort_entries [] = []
sort_entries (e ∷ l) = insert_entry e (sort_entries l)

module _ ⦃py : Python⦄ where
  -- `_safe_rel`
  unfoldable pub safe_payload_path : String → Result (Unit {0})
  unfolding posix_path is_empty is_unsafe_part
  safe_payload_path path = do
    let p = posix_path path
    require_with (not (p.absolute || is_empty p.parts || any is_unsafe_part p.parts))
        "UNSAFE_PAYLOAD_PATH" path
    require_with (leb (length (encode path)) max_path_bytes) "PAYLOAD_PATH_TOO_LONG" path

  -- The body of the loop over the files, with the total so far, to where the entry is made.
  unfoldable pub walked_entry : String → ℕ → String → Entry → Result PayloadEntry
  unfolding safe_payload_path
  walked_entry root total rel absent = err (other "FileNotFoundError" (root ++ "/" ++ rel))
  walked_entry root total rel (regular mode size raw) = do
    safe_payload_path rel
    require_with (leb size max_file_bytes) "PAYLOAD_FILE_TOO_LARGE" rel
    require (leb (total + size) max_total_bytes) "PAYLOAD_TOO_LARGE"
    require_with (nat_eq (length raw) size) "PAYLOAD_CHANGED_DURING_READ" rel
    ok (record { path = rel; size = size; digest = sha256 raw })
  walked_entry root total rel _ = raise_with "PAYLOAD_REGULAR_FILES_ONLY" (root ++ "/" ++ rel)

  -- The loops, with the number of entries and the bytes so far.
  unfoldable pub walk_loop : String → ℕ → ℕ → List Walked → Result (List PayloadEntry × ℕ)
  unfolding walked_entry
  walk_loop root count total [] = ok ([], total)
  walk_loop root count total (directory_link rel ∷ l) =
      raise_with "PAYLOAD_SYMLINK_FORBIDDEN" (root ++ "/" ++ rel)
  walk_loop root count total (file rel e ∷ l) = do
    entry ← walked_entry root total rel e
    require (leb (count + 1) max_files) "PAYLOAD_TOO_MANY_FILES"
    (entries, final) ← walk_loop root (count + 1) (total + entry.size) l
    ok (entry ∷ entries, final)

  unfoldable pub schema_digest : String → List PayloadEntry → String
  unfolding canonical_digest
  schema_digest schema entries =
      canonical_digest
        (dict (("schema", str schema) ∷ ("files", arr (items (map entry_value entries))) ∷ []))

  unfoldable pub walked_manifest : String → Tree → Result (List PayloadEntry × ℕ × String)
  unfolding walk_loop sort_entries schema_digest
  walked_manifest root unsafe_root = raise "PAYLOAD_MISSING_OR_UNSAFE"
  walked_manifest root (walked l) = do
    (found, total) ← walk_loop root 0 0 l
    let entries = sort_entries found
    require (not (nat_eq (length entries) 0)) "EMPTY_PAYLOAD"
    ok (entries, total, schema_digest payload_manifest_schema entries)

  unfoldable pub moh_closure_digest : List PayloadEntry → String
  unfolding schema_digest
  moh_closure_digest entries = schema_digest moh_closure_schema entries

  -- The loop of `_copy_payload_verified`: the files that it writes, with the mode 0o600.
  unfoldable pub copy_entries :
      String → List (String × Entry) → List PayloadEntry → Result (List Walked)
  unfolding entry_at posix_path read_lstat_regular
  copy_entries root source [] = ok []
  copy_entries root source (item ∷ entries) = do
    raw ←
        read_lstat_regular (entry_at (posix_path item.path).parts source) (root ++ "/" ++ item.path)
          max_file_bytes
    require_with (nat_eq (length raw) item.size && sha256 raw == item.digest)
        "PAYLOAD_CHANGED_DURING_COPY" item.path
    copied ← copy_entries root source entries
    ok (file item.path (regular 0o600 (length raw) raw) ∷ copied)

  abbrev pub listed_files : Tree → List (String × Entry)
  listed_files unsafe_root = []
  listed_files (walked l) = files_of l

  -- The target is a new directory; its content after the copy is read back.
  unfoldable pub copy_walked_verified : String → Tree → String → List PayloadEntry → Result Tree
  unfolding copy_entries walked_manifest files_of
  copy_walked_verified root source target entries = do
    copied ← copy_entries root (listed_files source) entries
    (actual, total, digest) ← walked_manifest target (walked copied)
    require (same_entries actual entries) "PAYLOAD_COPY_VERIFY_FAILED"
    ok (walked copied)
