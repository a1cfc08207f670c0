-- ===== src/Relay/Driver.antt =====
-- src/dger/gen4_driver.py: `_advance`, `process_one`, `resume_one` and `scan_once`.
use Prim.Native.Nat.{Ordering}
use Prim.Native.String.{compare}
use dropbox_governed_executi.Prelude.{
  ℕ, zero, suc, String, Bool, true, false, not, ◌&&◌, ◌||◌, Option, none, some, List, [], ◌∷◌, ◌==◌,
  ltb, length, if◌then◌else◌,
}
use dropbox_governed_executi.Result.{Exc, dger, other, Result, ok, err, raise, raise_with}
use dropbox_governed_executi.Json.{str}
use dropbox_governed_executi.Platform.{Python}
use dropbox_governed_executi.Primitives.Patterns.{is_id}
use dropbox_governed_executi.Relay.State
use dropbox_governed_executi.Relay.State.{State, Phase, record_error, first_chars, is_some}
use dropbox_governed_executi.Relay.History.{History, saved, froze, last_saved, last_frozen}
use dropbox_governed_executi.Relay.Exec.{
  Relay, Mem, Action, Exec, pure, lift, ◌>>=◌, ◌>>◌, get_state, modify, save, publish_status,
  in_memory,
}
use dropbox_governed_executi.Relay.Effect.Ahc.{
  stage, write_pre_ahc_wal, begin_ahc, reconcile_ahc_begin,
}
use dropbox_governed_executi.Relay.Effect.Moh.{
  status_before_execute, execute_moh, reconcile_moh, report_moh_in_doubt,
}
use dropbox_governed_executi.Relay.Effect.Publish.{
  publish_terminal, accept_ahc_terminal, publish_chm,
}
use dropbox_governed_executi.Relay.Ingress.{Package, freeze, accept_frozen, correlate}

-- The text of a phase, as the dictionary has it.
unfoldable pub phase_text : Phase → String
phase_text Phase.ingress_frozen = "INGRESS_FROZEN"
phase_text Phase.correlated = "CORRELATED"
phase_text Phase.moh_staged = "MOH_STAGED"
phase_text Phase.pre_ahc_execute_wal = "PRE_AHC_EXECUTE_WAL"
phase_text Phase.ahc_begin_reconcile = "AHC_BEGIN_RECONCILE"
phase_text Phase.ahc_in_doubt = "AHC_IN_DOUBT"
phase_text Phase.moh_reconcile = "MOH_RECONCILE"
phase_text Phase.moh_in_doubt_ahc_pending = "MOH_IN_DOUBT_AHC_PENDING"
phase_text Phase.moh_in_doubt = "MOH_IN_DOUBT"
phase_text Phase.moh_terminal = "MOH_TERMINAL"
phase_text Phase.ahc_terminal_pending = "AHC_TERMINAL_PENDING"
phase_text Phase.chm_pending = "CHM_PENDING"
phase_text Phase.done = "DONE"
phase_text Phase.result_conflict = "RESULT_CONFLICT"
phase_text Phase.chm_result_conflict = "CHM_RESULT_CONFLICT"
phase_text (Phase.unknown text) = text

-- `phase in {"DONE", "RESULT_CONFLICT", "CHM_RESULT_CONFLICT", "MOH_IN_DOUBT"}`
unfoldable pub is_resting : Phase → Bool
is_resting Phase.done = true
is_resting Phase.result_conflict = true
is_resting Phase.chm_result_conflict = true
is_resting Phase.moh_in_doubt = true
is_resting _ = false

-- `self._load_state(rid) or state`
unfoldable pub loaded : Mem → State
loaded x = elim (last_saved x.state.dger_request_id x.history) [ none ↦ x.state | some s ↦ s ]

unfoldable pub reload : Exec (Unit {0})
reload x = (ok tt, record x { state = loaded x })

-- A blocked peer call: an error was recorded and the phase did not move.
unfoldable pub is_blocked : State → State → Bool
is_blocked old new =
    phase_text new.phase == phase_text old.phase && ltb old.error_generation new.error_generation

module _ ⦃py : Python⦄ (self : Relay) where
  -- The method for a phase. Resting phases do not come here.
  unfoldable pub transition : State → Phase → Exec (Unit {0})
  unfolding phase_text
  transition s Phase.ingress_frozen = correlate self
  transition s Phase.correlated = stage self
  transition s Phase.moh_staged = write_pre_ahc_wal self
  transition s Phase.pre_ahc_execute_wal = begin_ahc self
  transition s Phase.ahc_begin_reconcile = reconcile_ahc_begin self
  transition s Phase.ahc_in_doubt =
      if State.is_some_false s.pre_execute_status_required
      then execute_moh self
      else status_before_execute self
  transition s Phase.moh_reconcile = reconcile_moh self
  transition s Phase.moh_in_doubt_ahc_pending = report_moh_in_doubt self
  transition s Phase.moh_terminal = publish_terminal self
  transition s Phase.ahc_terminal_pending = accept_ahc_terminal self
  transition s Phase.chm_pending = publish_chm self
  transition s phase = lift (raise_with "UNKNOWN_PHASE" (phase_text phase))

  -- The loop of `_advance`, with the rounds left.
  unfoldable pub advance_rounds : ℕ → Exec (Unit {0})
  advance_rounds zero = lift (raise "ADVANCE_TRANSITION_LIMIT")
  advance_rounds (suc n) = do
    reload
    s ← get_state
    if is_resting s.phase then pure tt else (do
      transition s s.phase
      new ← λ x. (ok (loaded x), x)
      elim (is_blocked s new) [ true ↦ pure tt | false ↦ advance_rounds n ])

  unfoldable pub advance : Exec (Unit {0})
  unfolding advance_rounds
  advance = advance_rounds 24

  -- The `except DgerGen4Error` of `process_one`, with the dictionary as it is on disk, if any.
  unfoldable pub record_rejection : Option State → Exc → Action History (Unit {0})
  record_rejection none exc h = (ok tt, h)
  record_rejection (some current) exc h =
      in_memory current (do modify (record_error "process_one" exc); save) h

  unfoldable pub reject : String → String → String → Action History (Unit {0})
  unfolding record_rejection
  reject request_id code detail = do
    λ h. record_rejection (last_saved request_id h) (dger code detail) h
    publish_status self request_id "REJECTED"
        (("code", str code) ∷ ("detail", str (first_chars 512 detail)) ∷ [])

  unfoldable pub recover : String → Result (Unit {0}) × History → Result Bool × History
  unfolding reject
  recover request_id (ok u, h) = (ok true, h)
  recover request_id (err (dger code detail), h) =
      (do reject request_id code detail; lift (ok true)) h
  recover request_id (err (other name text), h) = (err (other name text), h)

  -- `process_one` under its lock: freeze, accept, advance.
  unfoldable pub intake_and_advance : Package → Action History (Unit {0})
  intake_and_advance pack = do
    freeze pack pack.name
    current ← accept_frozen self pack.name
    in_memory current advance

  unfoldable pub process_one : Package → Action History Bool
  unfolding intake_and_advance recover
  process_one pack h =
      if not (is_id pack.name) || pack.is_symlink || not pack.is_dir || not pack.ready_exists
      then (ok false, h)
      else recover pack.name (intake_and_advance pack h)

  -- The dictionary of a request, accepted now if only its frozen directory is there.
  unfoldable pub resume_from : Option State → Bool → String → Action History Bool
  resume_from none false request_id = lift (ok false)
  resume_from none true request_id = do
    current ← accept_frozen self request_id
    in_memory current advance
    lift (ok true)
  resume_from (some current) frozen request_id = do in_memory current advance; lift (ok true)

  unfoldable pub resume_one : String → Action History Bool
  unfolding resume_from
  resume_one request_id h =
      if not (is_id request_id)
      then (ok false, h)
      else resume_from (last_saved request_id h) (is_some (last_frozen request_id h)) request_id h

-- A sorted set of names.
unfoldable pub insert_name : String → List String → List String
insert_name k [] = k ∷ []
insert_name k (j ∷ l) =
    let rest = insert_name k l in
    elim (compare k j) [ Ordering.lt ↦ k ∷ j ∷ l | Ordering.eq ↦ j ∷ l | Ordering.gt ↦ j ∷ rest ]

-- The names under `frozen` and `executions` that are identifiers, each once.
unfoldable pub durable_ids : History → List String
unfolding insert_name is_id
durable_ids [] = []
durable_ids (saved rid s ∷ h) =
    let ids = durable_ids h in if is_id rid then insert_name rid ids else ids
durable_ids (froze rid f ∷ h) =
    let ids = durable_ids h in if is_id rid then insert_name rid ids else ids
durable_ids (_ ∷ h) = durable_ids h

unfoldable pub insert_package : Package → List Package → List Package
insert_package p [] = p ∷ []
insert_package p (q ∷ l) =
    let rest = insert_package p l in
    elim (compare q.name p.name) [ Ordering.gt ↦ p ∷ q ∷ l | _ ↦ q ∷ rest ]

unfoldable pub sort_packages : List Package → List Package
unfolding insert_package
sort_packages [] = []
sort_packages (p ∷ l) = insert_package p (sort_packages l)

unfoldable pub failed : Result Bool → Bool
failed (ok b) = false
failed (err e) = true

module _ ⦃py : Python⦄ (self : Relay) where
  -- The two loops of `scan_once`: whether one of the calls raised.
  unfoldable pub process_all : List Package → Bool → History → Bool × History
  unfolding failed
  process_all [] degraded h = (degraded, h)
  process_all (p ∷ l) degraded h =
      let (r, g) = process_one self p h in process_all l (failed r || degraded) g

  unfoldable pub resume_all : List String → Bool → History → Bool × History
  unfolding failed
  resume_all [] degraded h = (degraded, h)
  resume_all (rid ∷ l) degraded h =
      let (r, g) = resume_one self rid h in resume_all l (failed r || degraded) g

  -- The packages are the plain directories under `IngressV2`; the result is what the health file
  -- says: whether the relay is degraded, and the number of accepted requests.
  unfoldable pub scan_once : List Package → History → (Bool × ℕ) × History
  unfolding process_all resume_all durable_ids sort_packages
  scan_once packages h =
      let (d, g) = process_all (sort_packages packages) false h in
      let ids = durable_ids g in
      let (degraded, k) = resume_all ids d g in ((degraded, length ids), k)
