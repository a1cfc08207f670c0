-- ===== src/Platform.antt =====
-- What the program takes from Python's `json` and `hashlib`, as an instance argument, and the
-- canonical encodings of src/dger/gen4_primitives.py built on it.
use dropbox_governed_executi.Prelude.{ℕ, String, List, [], ◌∷◌, ◌++◌}
use dropbox_governed_executi.Prelude.Int.{ℤ}
use dropbox_governed_executi.Result.{Result}
use dropbox_governed_executi.Json.{Value, Fields}

-- A byte is a number below 256.
abbrev pub Bytes : Type 0
Bytes = List ℕ

pub record Python : Type 0 where
  -- `hashlib.sha256(data).hexdigest()`
  pub sha256 : Bytes → String
  -- `json.dumps(value, sort_keys=True, separators=(",", ":"), ensure_ascii=False).encode("utf-8")`
  pub dumps : Value → Bytes
  -- `json.loads(raw.decode("utf-8", errors="strict"), object_pairs_hook=hook)`
  pub loads : (Fields → Result Value) → Bytes → Result Value
  -- `text.encode("utf-8")`
  pub encode : String → Bytes
  -- `str(value)` and `int(value)`
  pub str_of : Value → String
  pub int_of : Value → Result ℤ

module _ ⦃py : Python⦄ where
  open py use {sha256 as sha256_py, dumps, encode as encode_py}

  abbrev pub sha256 : Bytes → String
  sha256 = sha256_py

  abbrev pub encode : String → Bytes
  encode = encode_py

  unfoldable pub canonical_bytes : Value → Bytes
  canonical_bytes value = dumps value

  unfoldable pub canonical_file_bytes : Value → Bytes
  unfolding canonical_bytes
  canonical_file_bytes value = canonical_bytes value ++ 10 ∷ []

  unfoldable pub canonical_digest : Value → String
  unfolding canonical_bytes
  canonical_digest value = sha256 (canonical_bytes value)
