-- ===== src/Runtime/Staged.antt =====
-- What a receipt of `stage_moh` in src/dger/gen4_runtime_peers.py promises.
use dropbox_governed_executi.Prelude.{
  ℕ, String, ◌≡◌, refl, ap, subst, Bool, true, false, not, ◌&&◌, List, [], ◌∷◌, ◌==◌, length,
  eq_iff, Bool-cases, inl, inr,
}
use dropbox_governed_executi.Result.{
  Result, ok, err, dger, other, >>=-eq-ok, require-eq-ok, ok-injective,
}
use dropbox_governed_executi.Platform.{Bytes, Python, sha256, canonical_digest}
use dropbox_governed_executi.Primitives.Files.{
  Entry, absent, link, directory, special, regular, read_regular,
}
use dropbox_governed_executi.Primitives.Bounds.{read_regular-eq-ok}
use dropbox_governed_executi.Json.{str, dict}
use dropbox_governed_executi.Primitives.Payload.{
  Listing, tree, PayloadEntry, payload_manifest, copy_payload_verified,
}
use dropbox_governed_executi.Contract.Types.{TrustedCorrelation, StageReceipt}
use dropbox_governed_executi.Relay.Ingress.{max_admission_bytes, listed}
use dropbox_governed_executi.Runtime.Stage.{
  Place, stage, nothing, dangling, strange, empty_dir, or_false, Inbox, FrozenStage, exists,
  make_inbox, at_rename, clear_orphans, stage_matches, rename_stage, stage_new, settle_stage,
  runtime_stage_moh,
}

-- What stands in the inbox is a directory with a plain envelope and a payload that the manifest was made
-- of.
pub record IsStageOf ⦃py : Python⦄ (admission_sha manifest : String) (final : Place) : Type 0 where
  pub mode : ℕ
  pub envelope : Bytes
  pub payload : Listing
  pub entries : List PayloadEntry
  pub total : ℕ
  pub stands : final ≡ stage (regular mode (length envelope) envelope) payload
  pub admission : sha256 envelope ≡ admission_sha
  pub manifested : payload_manifest payload ≡ ok (entries, total, manifest)

-- The receipt is about this execution and this admission and payload, and what stands in the inbox
-- has exactly that admission and that payload.
pub record IsStaged ⦃py : Python⦄ (c : TrustedCorrelation) (payload_manifest_sha256 : String)
    (receipt : StageReceipt) (final : Place) : Type 0 where
  pub execution : receipt.gep_execution_id ≡ c.gep_execution_id
  pub admission : receipt.admission_sha256 ≡ c.gep_admission_sha256
  pub payload : receipt.payload_manifest_sha256 ≡ payload_manifest_sha256
  pub kind : receipt.stage_kind ≡ "LOCAL_MATERIALIZATION"
  pub digest :
      receipt.stage_digest
      ≡ canonical_digest (
          dict (
            ("gep_execution_id", str c.gep_execution_id)
            ∷ ("admission_sha256", str c.gep_admission_sha256)
            ∷ ("payload_manifest_sha256", str payload_manifest_sha256)
            ∷ []))
  pub staged : IsStageOf c.gep_admission_sha256 payload_manifest_sha256 final

-- What the checks of `stage_moh` give.
record IsSettled ⦃py : Python⦄ (inbox : Inbox) (c : TrustedCorrelation) (frozen : FrozenStage)
    (m : String) (receipt : StageReceipt) (final : Place) : Type 0 where
  admission : Bytes
  entries : List PayloadEntry
  execution : receipt.gep_execution_id ≡ c.gep_execution_id
  admission_sha : receipt.admission_sha256 ≡ c.gep_admission_sha256
  payload : receipt.payload_manifest_sha256 ≡ m
  kind : receipt.stage_kind ≡ "LOCAL_MATERIALIZATION"
  digest :
      receipt.stage_digest
      ≡ canonical_digest (
          dict (
            ("gep_execution_id", str receipt.gep_execution_id)
            ∷ ("admission_sha256", str receipt.admission_sha256)
            ∷ ("payload_manifest_sha256", str receipt.payload_manifest_sha256)
            ∷ []))
  settled :
      settle_stage receipt.admission_sha256 receipt.payload_manifest_sha256 admission frozen.payload
        entries inbox
      ≡ ok final

-- What was read is the content of a plain file of that length.
read_regular-plain :
    (e : Entry) (name : String) (limit : ℕ) {raw : Bytes}
    → read_regular e name limit ≡ ok raw
    → (mode : ℕ) × (e ≡ regular mode (length raw) raw)
unfolding read_regular
read_regular-plain (regular mode size content) name limit {raw} h =
    let (same, size_same, _) = read_regular-eq-ok mode size limit content raw name h in
    (mode, rw (← size_same, ← same) refl)
read_regular-plain absent name limit h = cc
read_regular-plain link name limit h = cc
read_regular-plain directory name limit h = cc
read_regular-plain special name limit h = cc

both-true : (s t : Bool) → (s && t) ≡ true → (s ≡ true) × (t ≡ true)
both-true true t h = (refl, h)
both-true false t h = cc

module _ ⦃py : Python⦄ where
  stage_new-matches :
      (a m : String) (admission : Bytes) (payload : Listing) (entries : List PayloadEntry)
      (placed : Place) {final : Place}
      → stage_new a m admission payload entries placed ≡ ok final
      → stage_matches a m final ≡ ok true
  unfolding stage_new
  stage_new-matches a m admission payload entries placed h =
      let (copied, _, h₁) = >>=-eq-ok (copy_payload_verified (listed payload) entries) _ h in
      let new = stage (regular 0o600 (length admission) admission) (tree copied) in
      let (good, _, h₂) = >>=-eq-ok (stage_matches a m new) _ h₁ in
      let h₃ = (require-eq-ok good "MOH_STAGE_READBACK_MISMATCH" _ h₂).1 in
      let (found, _, h₄) = >>=-eq-ok (rename_stage a m new placed) _ h₃ in
      let (still, seen, h₅) = >>=-eq-ok (stage_matches a m found) _ h₄ in
      let (yes_still, h₆) = require-eq-ok still "MOH_STAGE_READBACK_MISMATCH" _ h₅ in
      let same : found ≡ _ = ok-injective h₆ in rw (← same) (rw yes_still at seen)

  settle_stage-matches :
      (a m : String) (admission : Bytes) (payload : Listing) (entries : List PayloadEntry)
      (inbox : Inbox) {final : Place}
      → settle_stage a m admission payload entries inbox ≡ ok final
      → stage_matches a m final ≡ ok true
  unfolding settle_stage
  settle_stage-matches a m admission payload entries inbox h =
      elim (Bool-cases (exists inbox.final)) [
        | inl q ↦
            let (good, seen, h₁) = >>=-eq-ok (stage_matches a m inbox.final) _ (rw q at h) in
            let (is_good, h₂) = require-eq-ok good "MOH_STAGE_CONFLICT" _ h₁ in
            let same : inbox.final ≡ _ = ok-injective h₂ in rw (← same) (rw is_good at seen)
        | inr q ↦ stage_new-matches a m admission payload entries (at_rename inbox) (rw q at h)
      ]

  or_false-eq-true : (r : Result Bool) → or_false r ≡ ok true → r ≡ ok true
  unfolding or_false
  or_false-eq-true (ok b) h = h
  or_false-eq-true (err (dger code detail)) h = cc
  or_false-eq-true (err (other name text)) h = cc

  read_stage :
      (a m : String) (envelope : Entry) (payload : Listing)
      → stage_matches a m (stage envelope payload) ≡ ok true
      → IsStageOf a m (stage envelope payload)
  unfolding stage_matches
  read_stage a m envelope payload h =
      let (raw, readable, h₁) =
        >>=-eq-ok (read_regular envelope "envelope.json" max_admission_bytes) _
          (or_false-eq-true _ h) in
      let ((entries, total, manifest), manifested, h₂) =
        >>=-eq-ok (payload_manifest payload) _ h₁ in
      let (same_a, same_m) = both-true (sha256 raw == a) (manifest == m) (ok-injective h₂) in
      let (mode, plain) = read_regular-plain envelope _ _ readable in
      record {
        mode = mode;
        envelope = raw;
        payload = payload;
        entries = entries;
        total = total;
        stands = ap (λ x. stage x payload) plain;
        admission = (eq_iff (sha256 raw) a).0 same_a;
        manifested = rw (← (eq_iff manifest m).0 same_m) manifested;
      }

  stage_matches-IsStageOf :
      (a m : String) (final : Place) → stage_matches a m final ≡ ok true → IsStageOf a m final
  unfolding stage_matches
  stage_matches-IsStageOf a m (stage envelope payload) h = read_stage a m envelope payload h
  stage_matches-IsStageOf a m nothing h = cc
  stage_matches-IsStageOf a m dangling h = cc
  stage_matches-IsStageOf a m strange h = cc
  stage_matches-IsStageOf a m empty_dir h = cc

  -- With equal names of the admission and the payload.
  settled_for :
      (a m : String) (admission : Bytes) (payload : Listing) (entries : List PayloadEntry)
      (inbox : Inbox) {final : Place} {a' m' : String}
      → a ≡ a'
      → m ≡ m'
      → settle_stage a m admission payload entries inbox ≡ ok final
      → stage_matches a' m' final ≡ ok true
  settled_for a m admission payload entries inbox p q h =
      rw (← p, ← q) (settle_stage-matches a m admission payload entries inbox h)

  runtime_stage_moh-IsSettled :
      (inbox : Inbox) (c : TrustedCorrelation) (frozen : FrozenStage) (m : String)
      {receipt : StageReceipt} {final : Place}
      → runtime_stage_moh inbox c frozen m ≡ ok (receipt, final)
      → IsSettled inbox c frozen m receipt final
  unfolding runtime_stage_moh
  runtime_stage_moh-IsSettled inbox c frozen m {receipt} {final} h =
      let (admission, _, h₁) =
        >>=-eq-ok (read_regular frozen.admission "admission.bin" max_admission_bytes) _ h in
      let ((entries, total, manifest), _, h₂) = >>=-eq-ok (payload_manifest frozen.payload) _ h₁ in
      let (same_manifest, h₃) =
        require-eq-ok (manifest == m) "PAYLOAD_MANIFEST_DIGEST_MISMATCH" _ h₂ in
      let (same_admission, h₄) =
        require-eq-ok (sha256 admission == c.gep_admission_sha256) "GEP_ADMISSION_MISMATCH" _ h₃ in
      let h₅ = (require-eq-ok (not inbox.is_symlink) "UNSAFE_MOH_INBOX" _ h₄).1 in
      let (_, _, h₆) = >>=-eq-ok (make_inbox inbox) _ h₅ in
      let h₇ = (require-eq-ok (not inbox.swapped) "UNSAFE_MOH_INBOX" _ h₆).1 in
      let (_, _, h₈) = >>=-eq-ok (clear_orphans inbox.orphans) _ h₇ in
      let (found, settled, h₉) =
        >>=-eq-ok (settle_stage (sha256 admission) manifest admission frozen.payload entries inbox)
          _ h₈ in
      let a = (eq_iff (sha256 admission) c.gep_admission_sha256).0 same_admission in
      let p = (eq_iff manifest m).0 same_manifest in
      subst (λ x. IsSettled inbox c frozen m x.0 x.1) (ok-injective h₉)
        (record {
          admission = admission;
          entries = entries;
          execution = refl;
          admission_sha = a;
          payload = p;
          kind = refl;
          digest = refl;
          settled = settled;
        })

  -- If `stage_moh` gives a receipt, it names this execution, the admission that GEP has admitted and the
  -- payload that the relay has frozen, with the digest of the three. Under its name in the inbox stands a
  -- directory whose envelope is a plain file with the digest of the admission, and of whose payload the
  -- named manifest is made.
  pub runtime_stage_moh-IsStaged :
      (inbox : Inbox) (c : TrustedCorrelation) (frozen : FrozenStage) (m : String)
      {receipt : StageReceipt} {final : Place}
      → runtime_stage_moh inbox c frozen m ≡ ok (receipt, final)
      → IsStaged c m receipt final
  runtime_stage_moh-IsStaged inbox c frozen m {receipt} {final} h =
      let s = runtime_stage_moh-IsSettled inbox c frozen m h in
      record {
        execution = s.execution;
        admission = s.admission_sha;
        payload = s.payload;
        kind = s.kind;
        digest = rw (← s.execution, ← s.admission_sha, ← s.payload) s.digest;
        staged = stage_matches-IsStageOf _ _ final (
            settled_for receipt.admission_sha256 receipt.payload_manifest_sha256 s.admission
              frozen.payload s.entries inbox s.admission_sha s.payload s.settled);
      }
