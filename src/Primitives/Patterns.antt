-- ===== src/Primitives/Patterns.antt =====
-- The regular expressions of src/dger/gen4_primitives.py and src/dger/gen4_contract.py, each as
-- the test `PATTERN.fullmatch(s) is not None` on the code points of the text.
use dropbox_governed_executi.Prelude.{
  ℕ, String, ◌≡◌, Bool-cases, inl, inr, Bool, true, false, ◌&&◌, ◌||◌, none, some, List, [], ◌∷◌,
  leb, nat_eq, length, all, codes, is_hex, is_alnum, after,
}
use dropbox_governed_executi.Result.{Result, ok, raise, ok-injective}
use dropbox_governed_executi.Json.{Value, null, bool, num, real, str, obj, arr, as_str}

-- `[A-Za-z0-9._:-]`
unfoldable pub is_id_char : ℕ → Bool
unfolding is_alnum
is_id_char c = is_alnum c || nat_eq c b'.' || nat_eq c b'_' || nat_eq c b':' || nat_eq c b'-'

id_codes : List ℕ → Bool
id_codes [] = false
id_codes (c ∷ cs) = is_alnum c && all is_id_char cs && leb (length cs) 127

-- `^[A-Za-z0-9][A-Za-z0-9._:-]{0,127}$`
unfoldable pub is_id : String → Bool
unfolding id_codes is_id_char is_alnum
is_id s = id_codes (codes s)

hex_codes : ℕ → List ℕ → Bool
hex_codes n cs = all is_hex cs && nat_eq (length cs) n

-- `^[0-9a-f]{64}$`
unfoldable pub is_hex64 : String → Bool
unfolding hex_codes is_hex
is_hex64 s = hex_codes 64 (codes s)

-- `^[0-9a-f]{40}$`
unfoldable pub is_hex40 : String → Bool
unfolding hex_codes is_hex
is_hex40 s = hex_codes 40 (codes s)

-- A fixed text, and then a number of hexadecimal digits.
prefixed_hex : String → ℕ → String → Bool
unfolding hex_codes is_hex after
prefixed_hex p n s = elim (after (codes p) (codes s)) [ none ↦ false | some cs ↦ hex_codes n cs ]

-- `^gtg_inv_[0-9a-f]{64}$`
unfoldable pub is_gtg_invocation_id : String → Bool
unfolding prefixed_hex
is_gtg_invocation_id s = prefixed_hex "gtg_inv_" 64 s

-- `^gtg_del_[0-9a-f]{64}$`
unfoldable pub is_gtg_delegation_id : String → Bool
unfolding prefixed_hex
is_gtg_delegation_id s = prefixed_hex "gtg_del_" 64 s

-- `^sha256:[0-9a-f]{64}$`
unfoldable pub is_context_digest : String → Bool
unfolding prefixed_hex
is_context_digest s = prefixed_hex "sha256:" 64 s

-- `^execution_[0-9a-f]{64}$`, `^effect-[0-9a-f]{40}$`, `^hnd_[0-9a-f]{64}$`
unfoldable pub is_execution_id : String → Bool
unfolding prefixed_hex
is_execution_id s = prefixed_hex "execution_" 64 s

unfoldable pub is_effect_id : String → Bool
unfolding prefixed_hex
is_effect_id s = prefixed_hex "effect-" 40 s

unfoldable pub is_handoff_id : String → Bool
unfolding prefixed_hex
is_handoff_id s = prefixed_hex "hnd_" 64 s

-- `if not isinstance(value, str) or PATTERN.fullmatch(value) is None: raise ...; return value`
unfoldable pub matching : (String → Bool) → Value → String → Result String
matching p value code = elim (as_str value) [
  | none ↦ raise code
  | some s ↦ elim (p s) [ true ↦ ok s | false ↦ raise code ]
]

-- A value that was matched is the text that was found.
pub matching-eq-str :
    (p : String → Bool) (v : Value) (code : String) {s : String}
    → matching p v code ≡ ok s
    → v ≡ str s
unfolding matching
matching-eq-str p (str t) code h = elim (Bool-cases (p t)) [
  | inl q ↦ rw (ok-injective (rw q at h))
  | inr q ↦ let f = rw q at h in cc f
]
matching-eq-str p null code h = cc
matching-eq-str p (bool b) code h = cc
matching-eq-str p (num n) code h = cc
matching-eq-str p (real n k) code h = cc
matching-eq-str p (obj fs) code h = cc
matching-eq-str p (arr vs) code h = cc

-- `_safe_id`
unfoldable pub safe_id : Value → String → Result String
unfolding matching is_id
safe_id value code = matching is_id value code

-- `^inv_[0-9a-f]{32}$`
unfoldable pub is_invocation_id : String → Bool
unfolding prefixed_hex
is_invocation_id s = prefixed_hex "inv_" 32 s
