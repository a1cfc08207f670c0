-- ===== src/Result.antt =====
-- Exceptions: `DgerGen4Error` of src/dger/gen4_primitives.py, `DgerError` of
-- src/dger/relay_protocol_base.py, and the exceptions of other types that the code also catches.
use dropbox_governed_executi.Prelude.{
  String, ◌≡◌, ◌⊎◌, inl, inr, refl, Bool, true, false, Option, none, some,
}

-- `dger code detail` is the program's own error; `other name text` is an exception of the type
-- `name` with `str(exc) == text`.
pub data Exc : Type 0 where
  dger : String → String → Exc
  other : String → String → Exc

pub data Result {ℓ} (A : Type ℓ) : Type ℓ where
  ok : A → Result A
  err : Exc → Result A

-- `raise DgerGen4Error(code)`, with and without a detail.
abbrev pub raise {ℓ} : {A : Type ℓ} → String → Result A
raise code = err (dger code "")

abbrev pub raise_with {ℓ} : {A : Type ℓ} → String → String → Result A
raise_with code detail = err (dger code detail)

-- `if not test: raise DgerGen4Error(code)`
abbrev pub require : Bool → String → Result (Unit {0})
require true code = ok tt
require false code = raise code

abbrev pub require_with : Bool → String → String → Result (Unit {0})
require_with true code detail = ok tt
require_with false code detail = raise_with code detail

-- A chain of checks stops at the first that raises.
infixl 5 ◌>>=◌ ◌>>◌
abbrev pub ◌>>=◌ {ℓ κ} : {B : Type κ} {A : Type ℓ} → Result A → (A → Result B) → Result B
err exc >>= next = err exc
ok value >>= next = next value

abbrev pub ◌>>◌ {ℓ κ} : {A : Type ℓ} {B : Type κ} → Result A → Result B → Result B
first >> second = first >>= λ _. second

-- The value that an optional stands for, or an exception.
abbrev pub some_or {ℓ} : {A : Type ℓ} → Option A → Exc → Result A
some_or (some a) e = ok a
some_or none e = err e

-- A step of a successful chain succeeded.
pub >>=-eq-ok {ℓ κ} :
    {A : Type ℓ} {B : Type κ} (step : Result A) (next : A → Result B) {last : B}
    → (step >>= next) ≡ ok last
    → (value : A) × (step ≡ ok value) × (next value ≡ ok last)
>>=-eq-ok (err exc) next h = cc
>>=-eq-ok (ok value) next h = (value, refl, h)

-- A guard of a successful chain held, and the chain goes on.
pub require-eq-ok {ℓ} :
    {B : Type ℓ} (t : Bool) (code : String) (k : Result B) {b : B}
    → (require t code >> k) ≡ ok b
    → (t ≡ true) × (k ≡ ok b)
require-eq-ok true code k h = (refl, h)
require-eq-ok false code k h = cc

-- To split on what a call returned and keep the equation.
pub Result-cases {ℓ} :
    {A : Type ℓ} (r : Result A) → ((a : A) × (r ≡ ok a)) ⊎ ((e : Exc) × (r ≡ err e))
Result-cases (ok a) = inl (a, refl)
Result-cases (err e) = inr (e, refl)

pub ok-injective {ℓ} : {A : Type ℓ} {a b : A} → ok a ≡ ok b → a ≡ b
ok-injective h = cc

pub require-true : (t : Bool) (code : String) {u : Unit {0}} → require t code ≡ ok u → t ≡ true
require-true true code h = refl
require-true false code h = cc
