-- ===== src/Primitives/Files.antt =====
-- `read_regular` and `read_protected_regular` of src/dger/gen4_primitives.py, on what stands at a
-- path when it is opened.
use Prim.Native.Nat.{bit_and}
use dropbox_governed_executi.Prelude.{ℕ, String, leb, nat_eq, length}
use dropbox_governed_executi.Result.{Result, ok, raise_with, require_with, ◌>>◌}
use dropbox_governed_executi.Platform.{Bytes}

-- `regular mode size raw`: the permission bits and the size that `fstat` gives, and what
-- `os.read(fd, size + 1)` returns. Without a race `raw` has the length `size`.
pub data Entry : Type 0 where
  absent link directory special : Entry
  regular : ℕ → ℕ → Bytes → Entry

-- O_NOFOLLOW refuses a symbolic link.
unfoldable pub read_regular : Entry → String → ℕ → Result Bytes
read_regular absent name limit = raise_with "UNSAFE_OR_MISSING_FILE" name
read_regular link name limit = raise_with "UNSAFE_OR_MISSING_FILE" name
read_regular directory name limit = raise_with "UNSAFE_FILE_TYPE" name
read_regular special name limit = raise_with "UNSAFE_FILE_TYPE" name
read_regular (regular mode size raw) name limit = do
  require_with (leb size limit) "FILE_TOO_LARGE" name
  require_with (nat_eq (length raw) size) "FILE_CHANGED_DURING_READ" name
  ok raw

unfoldable pub read_protected_regular : Entry → String → ℕ → Result Bytes
read_protected_regular absent name limit = raise_with "PROTECTED_FILE_UNSAFE_OR_MISSING" name
read_protected_regular link name limit = raise_with "PROTECTED_FILE_UNSAFE_OR_MISSING" name
read_protected_regular directory name limit = raise_with "PROTECTED_FILE_PERMISSIONS" name
read_protected_regular special name limit = raise_with "PROTECTED_FILE_PERMISSIONS" name
read_protected_regular (regular mode size raw) name limit = do
  require_with (nat_eq (bit_and mode 0o077) 0) "PROTECTED_FILE_PERMISSIONS" name
  require_with (leb size limit) "PROTECTED_FILE_TOO_LARGE" name
  require_with (nat_eq (length raw) size) "PROTECTED_FILE_CHANGED" name
  ok raw
