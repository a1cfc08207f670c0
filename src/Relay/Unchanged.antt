-- ===== src/Relay/Unchanged.antt =====
-- What the intake of src/dger/gen4_state.py leaves alone.
use dropbox_governed_executi.Prelude.{
  ℕ, String, ◌≡◌, refl, false, some, [], ◌∷◌, ◌++◌, ◌≤◌, length, ◌==◌, arith, if◌then◌else◌,
}
use dropbox_governed_executi.Result.{ok, raise}
use dropbox_governed_executi.Platform.{Bytes, Python, sha256, encode, canonical_file_bytes}
use dropbox_governed_executi.Contract.Types.{TrustedCorrelation}
use dropbox_governed_executi.Primitives.Files.{read_regular}
use dropbox_governed_executi.Relay.State.{State}
use dropbox_governed_executi.Relay.History.{History, last_saved, last_frozen, last_indexed, Frozen}
use dropbox_governed_executi.Relay.Exec.{Relay, Mem, ◌>>=◌}
use dropbox_governed_executi.Relay.Effect.Publish.{same_bytes}
use dropbox_governed_executi.Relay.Ingress.{
  Intake, own_file, read_frozen, transport_intent, accept_frozen, intake_of, accept_onto, index_gep,
  index_onto, index_record,
}

-- What an intake says to a request that is already accepted.
module _ ⦃py : Python⦄ (self : Relay) where
  -- A replay of an accepted request with the same bytes changes nothing and returns the durable
  -- dictionary; with other bytes it is refused, and nothing changes either.
  pub accept_frozen-replay :
      (rid : String) (h : History) (f : Frozen) (i : Intake) (current : State)
      → last_frozen rid h ≡ some f
      → read_frozen f rid ≡ ok i
      → last_saved rid h ≡ some current
      → accept_frozen self rid h ≡ (
          if current.transport_intent_digest == transport_intent i
          then (ok current, h)
          else (raise "DGER_REQUEST_INTENT_CONFLICT", h))
  unfolding accept_frozen intake_of accept_onto ◌>>=◌
  accept_frozen-replay rid h f i current lf rf ls = rw (lf, intake_of) (rw (rf, ls, accept_onto))

-- What the index of executions refuses.
module _ ⦃py : Python⦄ where
  own_file-read :
      (raw : Bytes) (name : String) (limit : ℕ)
      → length raw ≤ limit
      → read_regular (own_file raw) name limit ≡ ok raw
  unfolding read_regular
  own_file-read raw name limit h = ground arith

  -- An index file that holds other bytes, as after an execution id was used by another request:
  -- the correlation is refused, and nothing changes.
  index_gep-conflict :
      (x : Mem) (c : TrustedCorrelation) (old : Bytes)
      → last_indexed (sha256 (encode c.gep_execution_id)) x.history ≡ some old
      → length old ≤ 32_768
      → same_bytes old (index_record c x.state) ≡ false
      → index_gep c x ≡ (raise "GEP_EXECUTION_INTENT_CONFLICT", x)
  unfolding index_gep index_onto ◌>>=◌
  index_gep-conflict x c old l n d =
      rw (l, index_onto) (rw (own_file-read old _ 32_768 n, index_onto) (rw d))

  empty-ne-line : (b : Bytes) → same_bytes [] (b ++ 10 ∷ []) ≡ false
  unfolding same_bytes
  empty-ne-line [] = refl
  empty-ne-line (x ∷ b) = refl

  -- A process that dies between the creation of an index file and its write leaves it empty. From
  -- then on every correlation for that execution is refused, that of the same request too.
  pub index_gep-created_empty :
      (x : Mem) (c : TrustedCorrelation)
      → last_indexed (sha256 (encode c.gep_execution_id)) x.history ≡ some []
      → index_gep c x ≡ (raise "GEP_EXECUTION_INTENT_CONFLICT", x)
  unfolding index_record canonical_file_bytes
  index_gep-created_empty x c l = index_gep-conflict x c [] l (omega arith) (empty-ne-line _)
