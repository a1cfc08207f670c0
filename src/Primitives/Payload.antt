-- ===== src/Primitives/Payload.antt =====
-- `_safe_rel`, `payload_manifest` and `_copy_payload_verified` of src/dger/gen4_primitives.py.
use Prim.Native.Nat.{Ordering}
use Prim.Native.Char.{code}
use Prim.Native.String.{len, compare}
use dropbox_governed_executi.Prelude.{
  ℕ, ◌+◌, ◌*◌, String, Option, none, some, Bool, true, false, not, ◌&&◌, ◌||◌, List, [], ◌∷◌, map,
  leb, ltb, nat_eq, length, any, codes, ◌==◌, if◌then◌else◌,
}
use dropbox_governed_executi.Prelude.Int.{pos}
use dropbox_governed_executi.Result.{
  Result, ok, raise, raise_with, require, require_with, ◌>>=◌, ◌>>◌,
}
use dropbox_governed_executi.Json.{Value, num, str, arr, items, dict}
use dropbox_governed_executi.Platform.{Bytes, Python, sha256, canonical_digest}
use dropbox_governed_executi.Primitives.Files.{
  Entry, absent, link, directory, special, regular, read_regular,
}

abbrev pub max_files : ℕ
max_files = 64

abbrev pub max_file_bytes : ℕ
max_file_bytes = 256 * 1024

abbrev pub max_total_bytes : ℕ
max_total_bytes = 2 * 1024 * 1024

abbrev pub max_path_bytes : ℕ
max_path_bytes = 240

-- `PurePosixPath(value)`: the parts between slashes, without those that are empty or `.`.
pub record PosixPath : Type 0 where
  pub absolute : Bool
  pub parts : List (List ℕ)

abbrev pub same_codes : List ℕ → List ℕ → Bool
same_codes [] [] = true
same_codes (x ∷ xs) (y ∷ ys) = nat_eq x y && same_codes xs ys
same_codes _ _ = false

abbrev same_parts : List (List ℕ) → List (List ℕ) → Bool
same_parts [] [] = true
same_parts (x ∷ xs) (y ∷ ys) = same_codes x y && same_parts xs ys
same_parts _ _ = false

-- A part is kept unless it is empty or a single dot.
unfoldable pub keep_part : List ℕ → List (List ℕ) → List (List ℕ)
keep_part part rest =
    if same_codes part [] || same_codes part (b'.' ∷ []) then rest else part ∷ rest

-- The part that is being read stands reversed in front.
unfoldable pub reverse_onto : List ℕ → List ℕ → List ℕ
reverse_onto [] ys = ys
reverse_onto (x ∷ xs) ys = reverse_onto xs (x ∷ ys)

unfoldable pub split_parts : List ℕ → List ℕ → List (List ℕ)
unfolding keep_part reverse_onto
split_parts part [] = keep_part (reverse_onto part []) []
split_parts part (c ∷ cs) = elim (nat_eq c b'/') [
  | true ↦ keep_part (reverse_onto part []) (split_parts [] cs)
  | false ↦ split_parts (c ∷ part) cs
]

unfoldable pub starts_with_slash : List ℕ → Bool
starts_with_slash [] = false
starts_with_slash (c ∷ cs) = nat_eq c b'/'

unfoldable pub posix_path : String → PosixPath
unfolding split_parts starts_with_slash
posix_path s = record { absolute = starts_with_slash (codes s); parts = split_parts [] (codes s) }

-- `part in {"", ".", ".."}`
unfoldable pub is_unsafe_part : List ℕ → Bool
is_unsafe_part part =
    same_codes part [] || same_codes part (b'.' ∷ []) || same_codes part (b'.' ∷ b'.' ∷ [])

unfoldable pub is_empty : List (List ℕ) → Bool
is_empty [] = true
is_empty (x ∷ xs) = false

unfoldable pub safe_rel : String → Result PosixPath
safe_rel value = do
  require (leb (len value) max_path_bytes) "PAYLOAD_PATH_TOO_LONG"
  let p = posix_path value
  require_with (not (p.absolute || is_empty p.parts || any is_unsafe_part p.parts))
      "UNSAFE_PAYLOAD_PATH" value
  ok p

-- `root.rglob("*")`, each path relative to the root with what `lstat` and `open` find there;
-- `unsafe` is a root that is a symbolic link or no directory.
pub data Listing : Type 0 where
  unsafe : Listing
  tree : List (String × Entry) → Listing

pub record PayloadEntry : Type 0 where
  pub path : String
  pub size : ℕ
  pub digest : String

-- `sorted(..., key=lambda p: p.as_posix())`: texts in the order of their code points.
insert_path : String × Entry → List (String × Entry) → List (String × Entry)
insert_path (k, e) [] = (k, e) ∷ []
insert_path (k, e) ((j, f) ∷ l) =
    let rest = insert_path (k, e) l in
    elim (compare j k) [ Ordering.gt ↦ (k, e) ∷ (j, f) ∷ l | _ ↦ (j, f) ∷ rest ]

unfoldable pub sort_paths : List (String × Entry) → List (String × Entry)
unfolding insert_path
sort_paths [] = []
sort_paths (x ∷ l) = insert_path x (sort_paths l)

abbrev pub entry_value : PayloadEntry → Value
entry_value e =
    dict (("path", str e.path) ∷ ("size", num (pos e.size)) ∷ ("sha256", str e.digest) ∷ [])

-- `path.name`: what follows the last slash.
unfoldable pub after_slash : String → Option String
after_slash String.[] = none
after_slash (String.◌∷◌ c s) =
    let rest = after_slash s in
    elim rest [ some name ↦ some name | none ↦ if nat_eq (code c) b'/' then some s else none ]

unfoldable pub file_name : String → String
unfolding after_slash
file_name path = elim (after_slash path) [ some name ↦ name | none ↦ path ]

-- What the loop body reads of one path: `none` is `continue`.
unfoldable pub read_payload : ℕ → String → Entry → Result (Option Bytes)
unfolding read_regular file_name
read_payload count rel absent = raise_with "PAYLOAD_STAT_FAILED" rel
read_payload count rel directory = ok none
read_payload count rel link = raise_with "PAYLOAD_NONREGULAR_FORBIDDEN" rel
read_payload count rel special = raise_with "PAYLOAD_NONREGULAR_FORBIDDEN" rel
read_payload count rel (regular mode size content) = do
  require (ltb count max_files) "PAYLOAD_FILE_LIMIT"
  raw ← read_regular (regular mode size content) (file_name rel) max_file_bytes
  ok (some raw)

module _ ⦃py : Python⦄ where
  unfoldable pub payload_entry : String → Bytes → PayloadEntry
  payload_entry rel raw = record { path = rel; size = length raw; digest = sha256 raw }

  -- The loop, with the number of entries and the bytes so far: the entries that follow, and the
  -- total at the end.
  unfoldable pub manifest_loop : ℕ → ℕ → List (String × Entry) → Result (List PayloadEntry × ℕ)
  unfolding payload_entry
  manifest_loop count total [] = ok ([], total)
  manifest_loop count total ((rel, e) ∷ l) = do
    safe_rel rel
    found ← read_payload count rel e
    elim found [
      | none ↦ manifest_loop count total l
      | some raw ↦ do
        require (leb (total + length raw) max_total_bytes) "PAYLOAD_TOTAL_LIMIT"
        (entries, final) ← manifest_loop (count + 1) (total + length raw) l
        ok (payload_entry rel raw ∷ entries, final)
    ]

  unfoldable pub manifest_digest : List PayloadEntry → ℕ → String
  manifest_digest entries total = canonical_digest (
      dict
        (("files", arr (items (map entry_value entries))) ∷ ("total_bytes", num (pos total)) ∷ []))

  unfoldable pub payload_manifest : Listing → Result (List PayloadEntry × ℕ × String)
  unfolding manifest_loop read_payload safe_rel sort_paths manifest_digest
  payload_manifest unsafe = raise "PAYLOAD_ROOT_UNSAFE"
  payload_manifest (tree l) = do
    (entries, total) ← manifest_loop 0 0 (sort_paths l)
    ok (entries, total, manifest_digest entries total)

  -- `source.joinpath(*rel.parts)`: the path is found by its parts.
  unfoldable pub entry_at : List (List ℕ) → List (String × Entry) → Entry
  unfolding posix_path
  entry_at parts [] = absent
  entry_at parts ((k, e) ∷ l) =
      let rest = entry_at parts l in if same_parts (posix_path k).parts parts then e else rest

  -- The loop of `_copy_payload_verified`: the files that it writes, with the mode 0o600.
  unfoldable pub copy_loop :
      List (String × Entry) → List PayloadEntry → Result (List (String × Entry))
  unfolding entry_at
  copy_loop source [] = ok []
  copy_loop source (item ∷ entries) = do
    rel ← safe_rel item.path
    raw ← read_regular (entry_at rel.parts source) (file_name item.path) max_file_bytes
    require_with (nat_eq (length raw) item.size && sha256 raw == item.digest)
        "PAYLOAD_CHANGED_DURING_COPY" item.path
    copied ← copy_loop source entries
    ok ((item.path, regular 0o600 (length raw) raw) ∷ copied)

  abbrev same_entry : PayloadEntry → PayloadEntry → Bool
  same_entry a b = a.path == b.path && nat_eq a.size b.size && a.digest == b.digest

  abbrev pub same_entries : List PayloadEntry → List PayloadEntry → Bool
  same_entries [] [] = true
  same_entries (a ∷ as') (b ∷ bs) = same_entry a b && same_entries as' bs
  same_entries _ _ = false

  -- The target is a new directory; its content after the copy is read back.
  unfoldable pub copy_payload_verified :
      List (String × Entry) → List PayloadEntry → Result (List (String × Entry))
  unfolding copy_loop safe_rel read_regular payload_manifest
  copy_payload_verified source entries = do
    copied ← copy_loop source entries
    (observed, total, digest) ← payload_manifest (tree copied)
    require (same_entries observed entries) "PAYLOAD_COPY_READBACK_MISMATCH"
    ok copied
