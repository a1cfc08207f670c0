-- ===== src/Primitives/Parsing.antt =====
-- `_json_object_no_duplicates` of src/dger/gen4_primitives.py.
use dropbox_governed_executi.Prelude.{
  String, Option, none, some, List, [], ◌∷◌, elem, if◌then◌else◌,
}
use dropbox_governed_executi.Result.{dger, other, Result, ok, err, raise, raise_with}
use dropbox_governed_executi.Json.{Value, obj, Fields, end, field}
use dropbox_governed_executi.Platform.{Bytes, Python}

-- The first key that an earlier pair has; `seen` holds the keys of `out`.
unfoldable pub repeated_key : List String → Fields → Option String
repeated_key seen end = none
repeated_key seen (field k v fs) =
    let later = repeated_key (k ∷ seen) fs in if elem k seen then some k else later

-- The `object_pairs_hook`: `out` holds the pairs as they came.
unfoldable pub hook : Fields → Result Value
hook pairs = elim (repeated_key [] pairs) [
  | none ↦ ok (obj pairs)
  | some key ↦ raise_with "DUPLICATE_JSON_KEY" key
]

-- The two `except` clauses, and the test that the value is a dictionary.
unfoldable pub object_of : Result Value → Result Fields
object_of (err (dger code detail)) = err (dger code detail)
object_of (err (other name text)) = raise "INVALID_JSON"
object_of (ok (obj fs)) = ok fs
object_of (ok _) = raise "JSON_OBJECT_REQUIRED"

unfoldable pub json_object_no_duplicates : ⦃py : Python⦄ → Bytes → Result Fields
unfolding object_of hook
json_object_no_duplicates ⦃py⦄ raw = object_of (py.loads hook raw)
