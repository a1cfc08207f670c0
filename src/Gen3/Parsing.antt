-- ===== src/Gen3/Parsing.antt =====
-- `_json_object_no_duplicates` of src/dger/relay_protocol_fs.py: the bounds on what is parsed.
use Prim.Native.String.{len}
use dropbox_governed_executi.Prelude.{ℕ, ◌+◌, String, leb, length}
use dropbox_governed_executi.Result.{
  dger, other, Result, ok, err, raise, raise_with, require, ◌>>=◌, ◌>>◌,
}
use dropbox_governed_executi.Json.{
  Value, str, obj, arr, Fields, end, field, Items, nil, cons, size, values,
}
use dropbox_governed_executi.Platform.{Bytes}
use dropbox_governed_executi.Primitives.Parsing.{hook}
use dropbox_governed_executi.Gen3.Values.{StrictJson}

-- `walk`. The depth of a child is one more.
unfoldable mutual
  pub walk : ℕ → Value → Result (Unit {0})
  walk depth (str s) = do
    require (leb depth 12) "JSON_TOO_DEEP"
    require (leb (len s) 8192) "JSON_STRING_TOO_LONG"
  walk depth (arr vs) = do
    require (leb depth 12) "JSON_TOO_DEEP"
    require (leb (length (values vs)) 128) "JSON_ARRAY_TOO_LONG"
    walk_items (depth + 1) vs
  walk depth (obj fs) = do
    require (leb depth 12) "JSON_TOO_DEEP"
    require (leb (size fs) 64) "JSON_OBJECT_TOO_LARGE"
    walk_fields (depth + 1) fs
  walk depth _ = require (leb depth 12) "JSON_TOO_DEEP"

  pub walk_items : ℕ → Items → Result (Unit {0})
  walk_items depth nil = ok tt
  walk_items depth (cons v vs) = do walk depth v; walk_items depth vs

  pub walk_fields : ℕ → Fields → Result (Unit {0})
  walk_fields depth end = ok tt
  walk_fields depth (field k v fs) = do
    require (leb (len k) 8192) "JSON_KEY_TOO_LONG"
    walk depth v
    walk_fields depth fs

-- `reject_constant`
abbrev pub reject_constant : String → Result Value
reject_constant text = raise_with "INVALID_JSON_NUMBER" text

-- The two `except` clauses, and the test that the value is a dictionary.
unfoldable pub strict_object : Result Value → Result Fields
strict_object (err (dger code detail)) = err (dger code detail)
strict_object (err (other name text)) = raise_with "INVALID_JSON" text
strict_object (ok (obj fs)) = ok fs
strict_object (ok _) = raise "JSON_OBJECT_REQUIRED"

unfoldable pub bounded_json_object : ⦃sj : StrictJson⦄ → Bytes → Result Fields
unfolding strict_object hook walk walk_items walk_fields
bounded_json_object ⦃sj⦄ raw = do
  fs ← strict_object (sj.loads_strict hook reject_constant raw)
  walk 0 (obj fs)
  ok fs
