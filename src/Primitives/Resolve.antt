-- ===== src/Primitives/Resolve.antt =====
-- Where a path that `_safe_rel` of src/dger/gen4_primitives.py accepts leads to, as the operating system
-- resolves it.
use Prim.Native.String.{len}
use dropbox_governed_executi.Prelude.{
  ℕ, String, ◌≡◌, ◌≢◌, ◌≤◌, refl, sym, ap, subst, leb, leb→le, ◌∙◌, Bool, true, false, not, ◌&&◌,
  ◌||◌, List, [], ◌∷◌, any, codes, nat_eq, arith, Bool-cases, inl, inr, if◌then◌else◌,
}
use dropbox_governed_executi.Result.{ok, require_with, require-eq-ok, >>=-eq-ok, ok-injective}
use dropbox_governed_executi.Primitives.Payload.{
  max_path_bytes, PosixPath, safe_rel, posix_path, is_unsafe_part, is_empty, keep_part,
  reverse_onto, split_parts, same_codes,
}

-- One component of a path, from the directory that is reached by the names `dirs`, the innermost first:
-- an empty component and `.` stay, `..` goes up, and any other goes down.
unfoldable enter : List (List ℕ) → List ℕ → List (List ℕ)
enter dirs [] = dirs
enter dirs (c ∷ []) = if nat_eq c b'.' then dirs else (c ∷ []) ∷ dirs
enter [] (c ∷ d ∷ []) = if nat_eq c b'.' && nat_eq d b'.' then [] else (c ∷ d ∷ []) ∷ []
enter (up ∷ dirs) (c ∷ d ∷ []) =
    if nat_eq c b'.' && nat_eq d b'.' then dirs else (c ∷ d ∷ []) ∷ up ∷ dirs
enter dirs (c ∷ d ∷ e ∷ part) = (c ∷ d ∷ e ∷ part) ∷ dirs

-- The components are what stands between the slashes, the one being read reversed in front.
unfoldable resolve_from : List (List ℕ) → List ℕ → List ℕ → List (List ℕ)
unfolding enter reverse_onto
resolve_from dirs part [] = enter dirs (reverse_onto part [])
resolve_from dirs part (c ∷ cs) =
    let here = resolve_from (enter dirs (reverse_onto part [])) [] cs in
    let further = resolve_from dirs (c ∷ part) cs in if nat_eq c b'/' then here else further

-- The directory that a relative path leads to.
unfoldable pub resolve : List (List ℕ) → String → List (List ℕ)
unfolding resolve_from
resolve dirs path = resolve_from dirs [] (codes path)

unfoldable pub below : List (List ℕ) → List (List ℕ) → List (List ℕ)
below dirs [] = dirs
below dirs (part ∷ parts) = below (part ∷ dirs) parts

-- A path that `safe_rel` accepts: it is short, it does not begin at the root, it has a part, and it leads
-- down its parts, from whatever directory.
pub record IsSafePath (value : String) (p : PosixPath) (dirs : List (List ℕ)) : Type 0 where
  pub short : len value ≤ max_path_bytes
  pub relative : p.absolute ≡ false
  pub parts_there : p.parts ≢ []
  pub inside : resolve dirs value ≡ below dirs p.parts

or-false : (a b : Bool) → (a || b) ≡ false → (a ≡ false) × (b ≡ false)
or-false a b h = ground arith

safe-enter :
    (dirs : List (List ℕ)) (part : List ℕ)
    → is_unsafe_part part ≡ false
    → enter dirs part ≡ part ∷ dirs
unfolding enter is_unsafe_part
safe-enter dirs [] h = cc
safe-enter dirs (c ∷ []) h = ground arith
safe-enter [] (c ∷ d ∷ []) h = ground arith
safe-enter (up ∷ dirs) (c ∷ d ∷ []) h = ground arith
safe-enter dirs (c ∷ d ∷ e ∷ part) h = refl

dropped-enter :
    (dirs : List (List ℕ)) (part : List ℕ)
    → (same_codes part [] || same_codes part (b'.' ∷ [])) ≡ true
    → enter dirs part ≡ dirs
unfolding enter
dropped-enter dirs [] h = refl
dropped-enter dirs (c ∷ []) h = ground arith
dropped-enter dirs (c ∷ d ∷ part) h = ground arith

-- A component that is kept is safe, and one that is dropped leads nowhere.
below-keep_part :
    (dirs : List (List ℕ)) (part : List ℕ) (rest : List (List ℕ))
    → any is_unsafe_part (keep_part part rest) ≡ false
    → (below dirs (keep_part part rest) ≡ below (enter dirs part) rest)
      × (any is_unsafe_part rest ≡ false)
unfolding keep_part below
below-keep_part dirs part rest h =
    elim (Bool-cases (same_codes part [] || same_codes part (b'.' ∷ []))) [
      | inl q ↦ rw q (ap (λ x. below x rest) (sym (dropped-enter dirs part q)), (rw q at h))
      | inr q ↦
          let g = rw q at h in
          let (safe, others) = or-false (is_unsafe_part part) (any is_unsafe_part rest) g in
          rw q (ap (λ x. below x rest) (sym (safe-enter dirs part safe)), others)
    ]

split_parts-slash :
    (part : List ℕ) (c : ℕ) (cs : List ℕ)
    → nat_eq c b'/' ≡ true
    → split_parts part (c ∷ cs) ≡ keep_part (reverse_onto part []) (split_parts [] cs)
unfolding split_parts
split_parts-slash part c cs q = rw (q, split_parts) refl

split_parts-other :
    (part : List ℕ) (c : ℕ) (cs : List ℕ)
    → nat_eq c b'/' ≡ false
    → split_parts part (c ∷ cs) ≡ split_parts (c ∷ part) cs
unfolding split_parts
split_parts-other part c cs q = rw (q, split_parts) refl

resolve_from-split_parts :
    (dirs : List (List ℕ)) (part cs : List ℕ)
    → any is_unsafe_part (split_parts part cs) ≡ false
    → resolve_from dirs part cs ≡ below dirs (split_parts part cs)
unfolding resolve_from below keep_part split_parts
resolve_from-split_parts dirs part [] h = sym (below-keep_part dirs (reverse_onto part []) [] h).0
resolve_from-split_parts dirs part (c ∷ cs) h = elim (Bool-cases (nat_eq c b'/')) [
  | inl q ↦
      let e = split_parts-slash part c cs q in
      let (down, others) =
        below-keep_part dirs (reverse_onto part []) (split_parts [] cs)
          (subst (λ x. any is_unsafe_part x ≡ false) e h) in
      rw (e, q)
        (resolve_from-split_parts (enter dirs (reverse_onto part [])) [] cs others ∙ sym down)
  | inr q ↦
      let e = split_parts-other part c cs q in
      rw (e, q)
        (resolve_from-split_parts dirs (c ∷ part) cs
          (subst (λ x. any is_unsafe_part x ≡ false) e h))
]

resolve-posix_path :
    (dirs : List (List ℕ)) (value : String)
    → any is_unsafe_part (posix_path value).parts ≡ false
    → resolve dirs value ≡ below dirs (posix_path value).parts
unfolding resolve posix_path
resolve-posix_path dirs value h = resolve_from-split_parts dirs [] (codes value) h

safe-parts :
    (a b c : Bool) (code detail : String) {u : Unit {0}}
    → require_with (not (a || b || c)) code detail ≡ ok u
    → (a ≡ false) × (b ≡ false) × (c ≡ false)
safe-parts true b c code detail h = cc
safe-parts false true c code detail h = cc
safe-parts false false true code detail h = cc
safe-parts false false false code detail h = (refl, refl, refl)

is_empty-ne : (parts : List (List ℕ)) → is_empty parts ≡ false → parts ≢ []
unfolding is_empty
is_empty-ne [] h = cc
is_empty-ne (part ∷ parts) h = cc

-- A path that `safe_rel` accepts is at most 240 bytes long and relative, has at least one part, and leads
-- from any directory straight down its parts: the directories above are never entered.
pub safe_rel-IsSafePath :
    (value : String) (p : PosixPath) (dirs : List (List ℕ))
    → safe_rel value ≡ ok p
    → IsSafePath value p dirs
unfolding safe_rel
safe_rel-IsSafePath value p dirs h =
    let q = posix_path value in
    let (short, h₁) = require-eq-ok (leb (len value) max_path_bytes) _ _ h in
    let (_, ok_parts, h₂) =
      >>=-eq-ok
        (require_with (not (q.absolute || is_empty q.parts || any is_unsafe_part q.parts))
          "UNSAFE_PAYLOAD_PATH" value)
        _ h₁ in
    let same : q ≡ p = ok-injective h₂ in
    let (relative, there, safe) =
      safe-parts q.absolute (is_empty q.parts) (any is_unsafe_part q.parts) "UNSAFE_PAYLOAD_PATH"
        value ok_parts in
    subst (λ x. IsSafePath value x dirs) same
      (record {
        short = leb→le (len value) max_path_bytes short;
        relative = relative;
        parts_there = is_empty-ne q.parts there;
        inside = resolve-posix_path dirs value safe;
      })
