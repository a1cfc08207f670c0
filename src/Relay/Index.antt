-- ===== src/Relay/Index.antt =====
-- `_index_gep` of src/dger/gen4_state.py, called twice for one execution.
use Prim.Native.String.{◌++◌}
use dropbox_governed_executi.Prelude.{
  String, ◌≡◌, refl, sym, ap, subst, ◌∙◌, true, Option, none, some, [], ◌∷◌, Bool-cases, inl, inr,
  eq_refl, arith, length,
}
use dropbox_governed_executi.Result.{Result-cases, ok}
use dropbox_governed_executi.Platform.{Bytes, Python, sha256, encode}
use dropbox_governed_executi.Contract.Types.{TrustedCorrelation}
use dropbox_governed_executi.Primitives.Files.{read_regular}
use dropbox_governed_executi.Primitives.Bounds.{read_regular-eq-ok}
use dropbox_governed_executi.Relay.History.{last_indexed}
use dropbox_governed_executi.Relay.Exec.{Mem, ◌>>=◌, emit}
use dropbox_governed_executi.Relay.Effect.Publish.{same_bytes}
use dropbox_governed_executi.Relay.Ingress.{own_file, index_gep, index_onto, index_record}

same_bytes-eq : (a b : Bytes) → same_bytes a b ≡ true → a ≡ b
unfolding same_bytes
same_bytes-eq [] [] h = refl
same_bytes-eq [] (y ∷ b) h = cc
same_bytes-eq (x ∷ a) [] h = cc
same_bytes-eq (x ∷ a) (y ∷ b) h = grind (arith, same_bytes-eq a b)

module _ ⦃py : Python⦄ where
  index_onto-eq-ok :
      (old : Bytes) (name : String) (raw : Bytes) (x y : Mem)
      → index_onto (some old) name raw x ≡ (ok tt, y)
      → (old ≡ raw) × (x ≡ y)
  unfolding index_onto ◌>>=◌
  index_onto-eq-ok old name raw x y h =
      elim (Result-cases (read_regular (own_file old) (name ++ ".json") 32_768)) [
        | inr (e, q) ↦ let f = rw q at h in cc f
        | inl (found, q) ↦
            let (whole, _, _) = read_regular-eq-ok 0o600 (length old) 32_768 old found _ q in
            elim (Bool-cases (same_bytes found raw)) [
              | inr d ↦ let f = rw (q, d) at h in cc f
              | inl d ↦
                  let g = rw (q, d) at h in
                  let kept : x ≡ y = ap (λ r. r.1) g in
                  (sym whole ∙ same_bytes-eq found raw d, kept)
            ]
      ]

  written_index :
      (name : String) (raw : Bytes) (x y : Mem)
      → index_onto none name raw x ≡ (ok tt, y)
      → last_indexed name y.history ≡ some raw
  unfolding index_onto emit last_indexed ◌>>=◌
  written_index name raw x y h = let kept = ap (λ r. r.1) h in rw (← kept) (simp (eq_refl) refl)

  index_onto-last_indexed :
      (found : Option Bytes) (name : String) (raw : Bytes) (x y : Mem)
      → last_indexed name x.history ≡ found
      → index_onto found name raw x ≡ (ok tt, y)
      → last_indexed name y.history ≡ some raw
  index_onto-last_indexed (some old) name raw x y q h =
      let (same, kept) = index_onto-eq-ok old name raw x y h in
      ap (λ z. last_indexed name z.history) (sym kept) ∙ q ∙ ap (λ b. some b) same
  index_onto-last_indexed none name raw x y q h = written_index name raw x y h

  -- What is indexed after a call that succeeds.
  index_gep-last_indexed :
      (c : TrustedCorrelation) (x y : Mem)
      → index_gep c x ≡ (ok tt, y)
      → last_indexed (sha256 (encode c.gep_execution_id)) y.history ≡ some (index_record c x.state)
  unfolding index_gep
  index_gep-last_indexed c x y h = index_onto-last_indexed _ _ _ x y refl h

  index_onto_agrees :
      (found : Option Bytes) (name : String) (raw old : Bytes) (z u : Mem)
      → found ≡ some old
      → index_onto found name raw z ≡ (ok tt, u)
      → old ≡ raw
  index_onto_agrees none name raw old z u f h = cc
  index_onto_agrees (some now) name raw old z u f h =
      let same : now ≡ old = cc in sym same ∙ (index_onto-eq-ok now name raw z u h).0

  -- An execution is indexed once and for all: if `_index_gep` succeeds for an execution, and later, with
  -- the index file of that execution as it was left, for the same execution again, then both calls are for
  -- the same record, that is for the same request, intent and correlation as they are written.
  pub index_gep_agrees :
      (c d : TrustedCorrelation) (x y z u : Mem)
      → index_gep c x ≡ (ok tt, y)
      → c.gep_execution_id ≡ d.gep_execution_id
      → last_indexed (sha256 (encode c.gep_execution_id)) z.history
        ≡ last_indexed (sha256 (encode c.gep_execution_id)) y.history
      → index_gep d z ≡ (ok tt, u)
      → index_record c x.state ≡ index_record d z.state
  unfolding index_gep
  index_gep_agrees c d x y z u first same left second =
      let at_d =
        subst (λ k. last_indexed (sha256 (encode k)) z.history ≡ some (index_record c x.state)) same
          (left ∙ index_gep-last_indexed c x y first) in
      index_onto_agrees _ _ _ (index_record c x.state) z u at_d second
