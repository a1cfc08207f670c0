-- ===== src/Json.antt =====
-- The JSON values that the program handles, as Python sees them after `json.loads`, and Python's
-- operations on them: `dict.get`, `set(d)`, `==`, `isinstance`.
use dropbox_governed_executi.Prelude.{
  ℕ, suc, String, Bool, true, false, ◌&&◌, Option, none, some, List, [], ◌∷◌, ◌==◌, nat_eq,
  same_set, if◌then◌else◌, ◌≡◌, eq_iff,
}
use dropbox_governed_executi.Prelude.Int.{ℤ, pos, int_eq, scale}

-- `real m k` is the float m / 2 ** k.
mutual
  pub data Value : Type 0 where
    null : Value
    bool : Bool → Value
    num : ℤ → Value
    real : ℤ → ℕ → Value
    str : String → Value
    obj : Fields → Value
    arr : Items → Value

  pub data Fields : Type 0 where
    end : Fields
    field : String → Value → Fields → Fields

  pub data Items : Type 0 where
    nil : Items
    cons : Value → Items → Items

abbrev pub items : List Value → Items
items [] = nil
items (v ∷ vs) = cons v (items vs)

abbrev pub fields : List (String × Value) → Fields
fields [] = end
fields ((k, v) ∷ kvs) = field k v (fields kvs)

-- A dictionary literal.
abbrev pub dict : List (String × Value) → Value
dict kvs = obj (fields kvs)

abbrev pub values : Items → List Value
values nil = []
values (cons v vs) = v ∷ values vs

abbrev pub keys : Fields → List String
keys end = []
keys (field k v fs) = k ∷ keys fs

unfoldable pub find : String → Fields → Option Value
find k end = none
find k (field j v fs) = if j == k then some v else find k fs

-- `value.get(k)`, with Python's `None` for a missing key.
abbrev pub or_null : Option Value → Value
or_null none = null
or_null (some v) = v

abbrev pub get : Fields → String → Value
get fs k = or_null (find k fs)

-- `set(value) == expected`
abbrev pub has_keys : Fields → List String → Bool
has_keys fs ks = same_set (keys fs) ks

-- `isinstance(v, str)`, with the text.
abbrev pub as_str : Value → Option String
as_str (str s) = some s
as_str _ = none

abbrev pub as_obj : Value → Option Fields
as_obj (obj fs) = some fs
as_obj _ = none

abbrev pub as_arr : Value → Option Items
as_arr (arr vs) = some vs
as_arr _ = none

-- `isinstance(v, int) and not isinstance(v, bool)`
abbrev pub as_int : Value → Option ℤ
as_int (num z) = some z
as_int _ = none

-- `v == "text"`
abbrev pub is_str : Value → String → Bool
is_str (str s) t = s == t
is_str _ t = false

pub is_str-eq : (v : Value) (t : String) → is_str v t ≡ true → v ≡ str t
is_str-eq (str s) t h = rw ((eq_iff s t).0 h)
is_str-eq null t h = cc
is_str-eq (bool b) t h = cc
is_str-eq (num z) t h = cc
is_str-eq (real m k) t h = cc
is_str-eq (obj fs) t h = cc
is_str-eq (arr vs) t h = cc

-- `v is True`, `v is False`, `v is None`
abbrev pub is_true : Value → Bool
is_true (bool b) = b
is_true _ = false

abbrev pub is_false : Value → Bool
is_false (bool true) = false
is_false (bool false) = true
is_false _ = false

abbrev pub is_null : Value → Bool
is_null null = true
is_null _ = false

-- `None` or a text, as a value.
abbrev pub optional : Option String → Value
optional none = null
optional (some s) = str s

-- Python compares `True`, 1 and 1.0 as equal numbers.
abbrev pub number : Value → Option (ℤ × ℕ)
number (bool true) = some (pos 1, 0)
number (bool false) = some (pos 0, 0)
number (num z) = some (z, 0)
number (real m k) = some (m, k)
number _ = none

unfoldable pub number_eq : Option (ℤ × ℕ) → Option (ℤ × ℕ) → Bool
unfolding scale
number_eq (some (m, j)) (some (n, k)) = int_eq (scale m k) (scale n j)
number_eq _ _ = false

abbrev pub size : Fields → ℕ
size end = 0
size (field k v fs) = suc (size fs)

-- Python's `==` on these values; dictionaries compare without regard to order.
unfoldable mutual
  unfolding number_eq find

  pub py_eq : Value → Value → Bool
  py_eq null w = is_null w
  py_eq (bool b) w = number_eq (number (bool b)) (number w)
  py_eq (num z) w = number_eq (number (num z)) (number w)
  py_eq (real m k) w = number_eq (number (real m k)) (number w)
  py_eq (str s) w = is_str w s
  py_eq (arr vs) w = py_eq_items vs (as_arr w)
  py_eq (obj fs) w = elim (as_obj w) [
    | none ↦ false
    | some gs ↦ nat_eq (size fs) (size gs) && py_eq_fields fs gs
  ]

  pub py_eq_items : Items → Option Items → Bool
  py_eq_items nil w = elim w [ some nil ↦ true | _ ↦ false ]
  py_eq_items (cons v vs) w = elim w [
    | some (cons u us) ↦ py_eq v u && py_eq_items vs (some us)
    | _ ↦ false
  ]

  pub py_eq_fields : Fields → Fields → Bool
  py_eq_fields end gs = true
  py_eq_fields (field k v fs) gs = elim (find k gs) [
    | none ↦ false
    | some w ↦ py_eq v w && py_eq_fields fs gs
  ]
