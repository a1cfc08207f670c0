-- ===== src/Gen3/Scan.antt =====
-- `scan_once` of src/dger/relay_v1.py, on the histories of all executions. What surrounds the relay may
-- be another for each execution.
use Prim.Native.Nat.{Ordering}
use Prim.Native.String.{compare}
use dropbox_governed_executi.Prelude.{
  ℕ, String, refl, subst, sym, Bool, true, false, ◌&&◌, ◌||◌, List, [], ◌∷◌, ◌==◌, length, eq_iff,
  Bool-cases, inl, inr, if◌then◌else◌,
}
use dropbox_governed_executi.Platform.{Python}
use dropbox_governed_executi.Primitives.Patterns.{is_id}
use dropbox_governed_executi.Relay.Driver.{insert_name, failed}
use dropbox_governed_executi.Gen3.Values.{StrictJson}
use dropbox_governed_executi.Gen3.Stage.{IngressPackage}
use dropbox_governed_executi.Gen3.Exec.{Events, RelayV1}
use dropbox_governed_executi.Gen3.Advance.{resume_execution}
use dropbox_governed_executi.Gen3.Accept.{process_package}
use dropbox_governed_executi.Gen3.Safe.Reach.{RunsTo, carried, process, resume, carry_out}
pub mod Own

-- The history of each execution.
abbrev pub Executions : Type 0
Executions = String → Events

unfoldable pub with_history : Executions → String → Events → Executions
with_history w execution_id h j = if j == execution_id then h else w j

-- What stands in `executions`: a file that cannot be looked at, or a name with its suffix, and whether
-- it is a plain file.
pub data StateFile : Type 0 where
  unreadable : StateFile
  named : String → String → Bool → StateFile

-- `executions` itself: `unsafe_dir` is a link or no directory.
pub data StateDirectory : Type 0 where
  no_executions unsafe_dir : StateDirectory
  entries_of : List StateFile → StateDirectory

-- `sorted(packages, key=lambda p: p.name)`
unfoldable pub insert_by_name : IngressPackage → List IngressPackage → List IngressPackage
insert_by_name p [] = p ∷ []
insert_by_name p (q ∷ l) =
    let rest = insert_by_name p l in
    elim (compare q.name p.name) [ Ordering.lt ↦ q ∷ rest | _ ↦ p ∷ q ∷ l ]

-- The plain directories under `Ingress`, in the order of their names.
unfoldable pub scanned_packages : List IngressPackage → List IngressPackage
unfolding insert_by_name
scanned_packages [] = []
scanned_packages (p ∷ l) =
    let rest = scanned_packages l in if p.is_directory then insert_by_name p rest else rest

-- The identifiers among the names of the state files, each once and in order, and whether a file could
-- not be looked at.
unfoldable pub state_ids : List StateFile → List String × Bool
unfolding insert_name is_id
state_ids [] = ([], false)
state_ids (unreadable ∷ l) = ((state_ids l).0, true)
state_ids (named stem suffix is_file ∷ l) =
    let (ids, degraded) = state_ids l in
    (if is_file && suffix == ".json" && is_id stem then insert_name stem ids else ids, degraded)

unfoldable pub directory_ids : StateDirectory → List String × Bool
unfolding state_ids
directory_ids no_executions = ([], false)
directory_ids unsafe_dir = ([], true)
directory_ids (entries_of files) = state_ids files

module _ ⦃py : Python⦄ ⦃sj : StrictJson⦄ (relay : String → RelayV1) where
  -- The two loops: whether one of the calls raised.
  unfoldable pub process_each : List IngressPackage → Bool → Executions → Bool × Executions
  unfolding failed with_history
  process_each [] degraded w = (degraded, w)
  process_each (p ∷ l) degraded w =
      let (r, h) = process_package (relay p.name) p (w p.name) in
      process_each l (degraded || failed r) (with_history w p.name h)

  unfoldable pub resume_each : List String → Bool → Executions → Bool × Executions
  unfolding failed with_history
  resume_each [] degraded w = (degraded, w)
  resume_each (execution_id ∷ l) degraded w =
      let (r, h) = resume_execution (relay execution_id) execution_id (w execution_id) in
      resume_each l (degraded || failed r) (with_history w execution_id h)

  -- The result is what the health file says: whether the relay is degraded, and the number of accepted
  -- executions. The directory is read after the packages are processed.
  unfoldable pub scan_executions :
      List IngressPackage → (Executions → StateDirectory) → Executions → (Bool × ℕ) × Executions
  unfolding scanned_packages process_each directory_ids resume_each
  scan_executions packages directory w =
      let (d, v) = process_each (scanned_packages packages) false w in
      let (ids, unread) = directory_ids (directory v) in
      let (degraded, u) = resume_each ids (d || unread) v in ((degraded, length ids), u)
