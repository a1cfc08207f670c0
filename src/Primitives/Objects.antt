-- ===== src/Primitives/Objects.antt =====
-- What `_json_object_no_duplicates` promises.
use dropbox_governed_executi.Prelude.{String, Bool, true, false, List, ◌∷◌, elem, if◌then◌else◌}
use dropbox_governed_executi.Json.{Fields, end, field}

-- No key of the pairs is repeated, or is one of those seen before.
abbrev pub is_new : List String → Fields → Bool
is_new seen end = true
is_new seen (field k v fs) = if elem k seen then false else is_new (k ∷ seen) fs
