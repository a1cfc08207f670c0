-- ===== src/Gen3/Values.antt =====
-- Python's truth value, and the part of `json.loads` that only the first relay asks for
-- (src/dger/relay_protocol_fs.py, src/dger/relay_protocol_binding.py).
use dropbox_governed_executi.Prelude.{zero, String, Bool, true, false, not, none, some, ◌==◌}
use dropbox_governed_executi.Prelude.Int.{ℤ, pos}
use dropbox_governed_executi.Result.{Result}
use dropbox_governed_executi.Json.{
  Value, null, bool, num, real, str, obj, arr, Fields, end, nil, find,
}
use dropbox_governed_executi.Platform.{Bytes}

-- `json.loads(data.decode("utf-8"), object_pairs_hook=hook, parse_constant=constant)`. The second
-- function is given `NaN`, `Infinity` or `-Infinity`. A float of the result is finite.
pub record StrictJson : Type 0 where
  pub loads_strict : (Fields → Result Value) → (String → Result Value) → Bytes → Result Value

abbrev is_zero : ℤ → Bool
is_zero (pos zero) = true
is_zero _ = false

-- `bool(v)`
unfoldable pub truthy : Value → Bool
truthy null = false
truthy (bool b) = b
truthy (num z) = not (is_zero z)
truthy (real m k) = not (is_zero m)
truthy (str s) = not (s == "")
truthy (obj end) = false
truthy (arr nil) = false
truthy _ = true

-- `value.get(k, "")`
abbrev pub get_or_empty : Fields → String → Value
get_or_empty fs k = elim (find k fs) [ none ↦ str "" | some v ↦ v ]
