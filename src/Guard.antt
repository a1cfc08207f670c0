-- ===== src/Guard.antt =====
-- src/dger/legacy_guard.py: the guard in front of the first generation's entry points.
use Prim.Native.Nat.{bit_and}
use dropbox_governed_executi.Prelude.{
  String, ◌≡◌, ◌≢◌, refl, ◌↔◌, Bool, true, false, ◌&&◌, not, [], ◌∷◌, ◌==◌, elem, leb, nat_eq,
  length, if◌then◌else◌,
}
use dropbox_governed_executi.Result.{other, Result, ok, err, ◌>>=◌, ◌>>◌}
use dropbox_governed_executi.Json.{Value, obj, str, Fields, end, field, keys, get, has_keys, is_str}
use dropbox_governed_executi.Platform.{Python}
use dropbox_governed_executi.Primitives.Files.{Entry, absent, link, directory, special, regular}

abbrev pub activation_schema : String
activation_schema = "dger-gen4-activation/v1"

abbrev pub activation_mode : String
activation_mode = "GEN4_REQUIRED"

-- `raise LegacySurfaceRetired(code)`, with and without a test in front.
abbrev pub retired {ℓ} : {A : Type ℓ} → String → Result A
retired code = err (other "LegacySurfaceRetired" code)

abbrev pub or_retired : Bool → String → Result (Unit {0})
or_retired true code = ok tt
or_retired false code = retired code

-- An object as `json.loads` builds it: the last value of a key counts.
unfoldable pub last_wins : Fields → Fields
last_wins end = end
last_wins (field k v fs) =
    let rest = last_wins fs in if elem k (keys fs) then rest else field k v rest

-- `except Exception`, and the test that the value is a dictionary.
unfoldable pub activation_object : Result Value → Result Fields
activation_object (ok (obj fs)) = ok fs
activation_object _ = retired "GEN4_ACTIVATION_STATE_INVALID"

-- `not isinstance(item, str) or not item`
unfoldable pub is_text : Value → Bool
is_text (str s) = not (s == "")
is_text _ = false

unfoldable pub is_marked : Fields → Bool
is_marked value =
    has_keys value
      ("schema" ∷ "mode" ∷ "activation_id" ∷ "peer_tuple_digest" ∷ "service_identity_digest" ∷ [])
    && is_str (get value "schema") activation_schema
    && is_str (get value "mode") activation_mode

unfoldable pub is_identified : Fields → Bool
unfolding is_text
is_identified value =
    is_text (get value "activation_id")
    && is_text (get value "peer_tuple_digest")
    && is_text (get value "service_identity_digest")

module _ ⦃py : Python⦄ where
  -- O_NOFOLLOW refuses a symbolic link.
  unfoldable pub read_activation : Entry → Result Fields
  unfolding last_wins activation_object
  read_activation absent = retired "GEN4_ACTIVATION_STATE_UNREADABLE"
  read_activation link = retired "GEN4_ACTIVATION_STATE_UNREADABLE"
  read_activation directory = retired "GEN4_ACTIVATION_STATE_UNSAFE"
  read_activation special = retired "GEN4_ACTIVATION_STATE_UNSAFE"
  read_activation (regular mode size raw) = do
    or_retired (leb size 16_384 && nat_eq (bit_and mode 0o022) 0) "GEN4_ACTIVATION_STATE_UNSAFE"
    or_retired (nat_eq (length raw) size) "GEN4_ACTIVATION_STATE_CHANGED"
    activation_object (py.loads (λ pairs. ok (obj (last_wins pairs))) raw)

  -- The checks of a marker that could be read; all end in a refusal.
  unfoldable pub check_activation : Fields → Result (Unit {0})
  unfolding is_marked is_identified
  check_activation value = do
    or_retired (is_marked value) "GEN4_ACTIVATION_STATE_INVALID"
    or_retired (is_identified value) "GEN4_ACTIVATION_STATE_INVALID"
    retired "GEN3_SURFACE_RETIRED"

  -- `marker.exists()` follows links, so it is given beside what stands at the path.
  unfoldable pub assert_legacy_allowed : Bool → Entry → Result (Unit {0})
  unfolding read_activation check_activation
  assert_legacy_allowed marker_exists marker =
      if marker_exists then read_activation marker >>= check_activation else ok tt

  refused :
      (a b : Bool) (c d e : String)
      → (or_retired a c >> (or_retired b d >> retired {0} {A = Unit {0}} e)) ≢ ok tt
  refused true true c d e h = cc
  refused true false c d e h = cc
  refused false b c d e h = cc

  check_activation-refused : (v : Fields) → check_activation v ≢ ok tt
  unfolding check_activation
  check_activation-refused v h =
      refused (is_marked v) (is_identified v) "GEN4_ACTIVATION_STATE_INVALID"
        "GEN4_ACTIVATION_STATE_INVALID" "GEN3_SURFACE_RETIRED" h

  marker-refused : (r : Result Fields) → (r >>= check_activation) ≢ ok tt
  marker-refused (ok v) h = check_activation-refused v h
  marker-refused (err e) h = cc

  -- The guard fails closed: it lets the first generation run exactly if there is no marker, whatever
  -- a marker holds and however it can be read.
  pub assert_legacy_allowed_iff :
      (marker_exists : Bool) (marker : Entry)
      → (assert_legacy_allowed marker_exists marker ≡ ok tt) ↔ (marker_exists ≡ false)
  unfolding assert_legacy_allowed
  assert_legacy_allowed_iff false marker = (λ _. refl, λ _. refl)
  assert_legacy_allowed_iff true marker =
      (λ h. elim (marker-refused (read_activation marker) h) [ ], λ h. cc h)
