-- ===== src/Runtime/Stage.antt =====
-- `stage_moh` of `Gen4RuntimePeers` in src/dger/gen4_runtime_peers.py: the frozen admission and
-- payload are put into the inbox of the host under the name of the execution. The temporary name
-- ends in random digits and is taken to be fresh; writes to it succeed.
use dropbox_governed_executi.Prelude.{
  String, Bool, true, false, not, ◌&&◌, List, [], ◌∷◌, ◌==◌, length, if◌then◌else◌,
}
use dropbox_governed_executi.Result.{Result, ok, err, dger, other, raise, require, ◌>>=◌, ◌>>◌}
use dropbox_governed_executi.Json.{str, dict}
use dropbox_governed_executi.Platform.{Bytes, Python, sha256, canonical_digest}
use dropbox_governed_executi.Primitives.Files.{Entry, regular, read_regular}
use dropbox_governed_executi.Primitives.Payload.{
  Listing, tree, PayloadEntry, payload_manifest, copy_payload_verified,
}
use dropbox_governed_executi.Contract.Types.{TrustedCorrelation, StageReceipt}
use dropbox_governed_executi.Relay.Ingress.{max_admission_bytes, listed}

-- What stands at a path: `dangling` is a link to nothing, `strange` a link to something or no
-- directory, `empty_dir` an empty directory, and `stage` any other one with its `envelope.json` and
-- `payload`.
pub data Place : Type 0 where
  nothing dangling strange empty_dir : Place
  stage : Entry → Listing → Place

-- The inbox of the host. `no_dir`: something else stands at its path, and `mkdir` fails; `swapped`:
-- after `mkdir` it is no plain directory. `orphans` says of each left-over temporary name whether it is a plain
-- directory; `placed` is what another program has put at the final name when this one renames.
pub record Inbox : Type 0 where
  pub is_symlink : Bool
  pub no_dir : Bool
  pub swapped : Bool
  pub orphans : List Bool
  pub final : Place
  pub placed : Place

-- `frozen/<id>`, as it is read.
pub record FrozenStage : Type 0 where
  pub admission : Entry
  pub payload : Listing

unfoldable pub exists : Place → Bool
exists (stage envelope payload) = true
exists strange = true
exists empty_dir = true
exists _ = false

-- `except DgerGen4Error: return False`
unfoldable pub or_false : Result Bool → Result Bool
or_false (err (dger code detail)) = ok false
or_false r = r

-- `inbox.mkdir(parents=True, exist_ok=True)`
unfoldable pub make_inbox : Inbox → Result (Unit {0})
make_inbox inbox = if inbox.no_dir then err (other "FileExistsError" "") else ok tt

-- What the rename finds at the final name, where nothing was to be seen before.
unfoldable pub at_rename : Inbox → Place
at_rename inbox = elim inbox.final [ dangling ↦ dangling | _ ↦ inbox.placed ]

-- The loop over the left-over temporary names.
unfoldable pub clear_orphans : List Bool → Result (Unit {0})
clear_orphans [] = ok tt
clear_orphans (plain ∷ l) =
    let rest = clear_orphans l in if plain then rest else raise "MOH_TEMP_STAGE_UNSAFE"

module _ ⦃py : Python⦄ where
  unfoldable pub stage_matches : String → String → Place → Result Bool
  unfolding or_false
  stage_matches admission_sha manifest (stage envelope payload) = or_false (do
    observed_admission ← read_regular envelope "envelope.json" max_admission_bytes
    (entries, total, observed_payload) ← payload_manifest payload
    ok (sha256 observed_admission == admission_sha && observed_payload == manifest))
  stage_matches admission_sha manifest _ = ok false

  -- `os.rename(tmp, final)`: it replaces an empty directory, and fails if anything else stands there,
  -- which is then looked at.
  unfoldable pub rename_stage : String → String → Place → Place → Result Place
  unfolding stage_matches exists
  rename_stage admission_sha manifest new nothing = ok new
  rename_stage admission_sha manifest new empty_dir = ok new
  rename_stage admission_sha manifest new dangling = err (other "OSError" "")
  rename_stage admission_sha manifest new there = do
    good ← stage_matches admission_sha manifest there
    if good then ok there else err (other "OSError" "")

  -- A new stage is written beside the final name, read back, and renamed.
  unfoldable pub stage_new :
      String → String → Bytes → Listing → List PayloadEntry → Place → Result Place
  unfolding stage_matches rename_stage copy_payload_verified
  stage_new admission_sha manifest admission payload entries placed = do
    copied ← copy_payload_verified (listed payload) entries
    let new = stage (regular 0o600 (length admission) admission) (tree copied)
    good ← stage_matches admission_sha manifest new
    require good "MOH_STAGE_READBACK_MISMATCH"
    final ← rename_stage admission_sha manifest new placed
    still ← stage_matches admission_sha manifest final
    require still "MOH_STAGE_READBACK_MISMATCH"
    ok final

  -- A stage that is there is compared and left alone.
  unfoldable pub settle_stage :
      String → String → Bytes → Listing → List PayloadEntry → Inbox → Result Place
  unfolding exists stage_matches stage_new at_rename
  settle_stage admission_sha manifest admission payload entries inbox =
      if exists inbox.final
      then (do
        good ← stage_matches admission_sha manifest inbox.final
        require good "MOH_STAGE_CONFLICT"
        ok inbox.final)
      else stage_new admission_sha manifest admission payload entries (at_rename inbox)

  -- The receipt, and what then stands at the final name.
  unfoldable pub runtime_stage_moh :
      Inbox → TrustedCorrelation → FrozenStage → String → Result (StageReceipt × Place)
  unfolding make_inbox clear_orphans settle_stage read_regular payload_manifest canonical_digest
  runtime_stage_moh inbox c frozen payload_manifest_sha256 = do
    admission ← read_regular frozen.admission "admission.bin" max_admission_bytes
    (entries, total, manifest) ← payload_manifest frozen.payload
    require (manifest == payload_manifest_sha256) "PAYLOAD_MANIFEST_DIGEST_MISMATCH"
    require (sha256 admission == c.gep_admission_sha256) "GEP_ADMISSION_MISMATCH"
    require (not inbox.is_symlink) "UNSAFE_MOH_INBOX"
    make_inbox inbox
    require (not inbox.swapped) "UNSAFE_MOH_INBOX"
    clear_orphans inbox.orphans
    final ← settle_stage (sha256 admission) manifest admission frozen.payload entries inbox
    ok (
      record {
        gep_execution_id = c.gep_execution_id;
        admission_sha256 = sha256 admission;
        payload_manifest_sha256 = manifest;
        stage_digest = canonical_digest (
            dict (
              ("gep_execution_id", str c.gep_execution_id)
              ∷ ("admission_sha256", str (sha256 admission))
              ∷ ("payload_manifest_sha256", str manifest)
              ∷ []));
        stage_kind = "LOCAL_MATERIALIZATION";
      },
      final,
    )
