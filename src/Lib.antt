-- ===== src/Lib.antt =====
-- Dropbox governed execution relay: a model of src/dger, both of its Generation 4 and of the first
-- production relay (Generation 3), which a marker of Generation 4 retires.
--
-- The relay takes a request package from a synchronised directory, freezes its bytes, has the
-- request correlated with its authorities, and drives one external effect to its end: it stages the
-- operation with the host (MOH), reserves the effect with the coordinator (AHC), executes, publishes
-- the result and hands it on (CHM). Each step is made durable before the next one.
--
-- Files and what they model:
--   Platform             the Python library as an interface: SHA-256, json, encoding, str, int
--   Json                 JSON values as Python sees them: dictionaries, lookup, equality
--   Result               DgerGen4Error and other exceptions as values
--   Primitives           src/dger/gen4_primitives.py: Patterns (identifiers), Parsing (JSON objects
--                        without repeated keys), Files (bounded reads), Payload (relative paths, the
--                        manifest, the verified copy), Package (request and READY records);
--                        Bounds, Resolve (where a path leads to) and Objects hold the lemmas
--   Contract             src/dger/gen4_contract.py: Types (the frozen data classes), Dicts (asdict),
--                        Evidence, Observations, Correlation (the validators), Identity
--                        (load_service_identity); Binding and Stored hold the lemmas
--   Delegation           src/dger/gen4_delegation.py: the parser and the printer of a delegated service
--                        context, and its match with the service identity; Printed holds the lemmas
--   Relay.State          the keys of executions/<id>.json as a record
--   Relay.History        the durable writes, calls and answers, the newest first; a file holds what
--                        was written to it last
--   Relay.Exec           methods as actions on the dictionary in memory and the history; the peers
--                        (Gen4Peers) and the surroundings of the relay object as records of functions
--   Relay.Unavailable    UnavailableGen4Peers of src/dger/gen4_contract.py
--   Relay.Current        _c of src/dger/gen4_state.py
--   Relay.Ingress        _read_frozen, _freeze, _accept_frozen, _index_gep, _correlate of
--                        src/dger/gen4_state.py
--   Relay.Effect         src/dger/gen4_effect.py: Ahc (staging, the record before AHC, ahc_begin and
--                        its reconciliation), Moh (status, execute, reconciliation, doubt), Publish
--                        (the result record, AHC and CHM acknowledgements)
--   Relay.Driver         src/dger/gen4_driver.py: _advance, process_one, resume_one, scan_once
--   Gep14                src/dger/gen4_gep14_correlation.py: Reads (an authenticated read and its
--                        checks, the request's identifiers), Answers (what is asked of each owner's
--                        answer), Peers (establish_correlation, and the peers that delegate all
--                        other calls); Bound holds the lemmas
--   Runtime              src/dger/gen4_runtime_peers.py: Calls (the invoker, _invoke and the context
--                        of a call), Answers (_validate_ahc, _moh_observation, the checks of CHM's
--                        publication), Peers (the calls), Stage (stage_moh), Compose (the peers of
--                        the relay); Evidence, Accepted, Observed and Staged hold the lemmas
--   Relay.Safety         Trace says when each event of a history is justified by those before it;
--                        Rules, Ahc, Moh, Execute, Publish, Correlate, Disk, Advance and Runs carry
--                        that through every handler and the driver; Reach has the runs: the three
--                        commands in any order, each cut off after any event, with the peers and
--                        the surroundings of the relay free to change in between
--   Guard                src/dger/legacy_guard.py
--   Relay.Promises       what follows for every run; Relay.Outcome how _advance ends; Relay.Wal,
--                        Relay.Unchanged and Relay.Index hold lemmas on single handlers, Examples the concrete inputs and runs
--
-- The first relay does the same work with the host (MOH) and the coordinator (CHM) alone, which it
-- calls through a gateway (GTG). Its files, for src/dger/relay_*.py and src/dger/gtg_http.py:
--   Gen3.Values          truth values, and the json.loads that only the first relay asks for
--   Gen3.Parsing         _json_object_no_duplicates: depth, items and length of what is parsed
--   Gen3.Files           bounded reads of files that are looked at first; directories of executions
--   Gen3.Payload         the walk over a payload, its manifest, the verified copy
--   Gen3.Ingress         the validators of request, READY record and envelope
--   Gen3.Stage           freezing a package, the stage that MOH takes over, the digest of a stage
--   Gen3.Binding         the bindings of tools, and the digest of an intent
--   Gen3.Attestation     the check of an attested answer
--   Gen3.Response        what is taken from an answer of MOH
--   Gen3.State           the dictionary of an execution as a record
--   Gen3.Exec            methods as actions on that dictionary and the history of one execution
--   Gen3.Moh             relay_moh_invoke.py and relay_moh.py: the calls of MOH with the write-ahead
--                        record, what follows from an answer, and the reconciliation
--   Gen3.Chm             relay_chm.py: the handoff
--   Gen3.Accept          relay_accept.py, and process_one of relay_v1.py
--   Gen3.Advance         _advance_locked and resume_one of relay_v1.py
--   Gen3.Scan            scan_once of relay_v1.py, on the histories of all executions; Own says what it
--                        does to one of them
--   Gen3.Start           the constructor, behind the guard
--   Gen3.Safe            Trace says when an event of a history is justified by those before it; Rules,
--                        Terminal, Answer, Invoke, Reconcile, Chm, Advance and Accept carry that
--                        through every method; Reach has the runs, cut off anywhere; Promises has what
--                        follows for every run
--   Gen3.Bounds          the bounds of an accepted payload
--   Gtg                  src/dger/gtg_http.py: Client (the HTTP client), Attested (its check of an
--                        attestation beside that of the relay)
--   God.Snapshot         deployment/dger_god_adapter.py: the snapshot of a file before a deployment, its
--                        restoration, and the atomic write
-- The gateway is a function of the history of the execution and of the call, and may raise anything.
-- A scan of the first relay may meet another gateway and other surroundings for each execution.
--
-- The peers are functions of the history, the request and the arguments, and may raise anything. The
-- content of result.json and the safety of its directory are functions of the history too, since
-- other programs can change them.
--
-- Bounds and fuel: `_advance` makes at most 24 rounds in the source, and that number is the fuel of
-- `advance_rounds`. Every other loop is structural on a list. Sizes are natural numbers; the limits
-- are those of the source.
--
-- Not modelled: the limit of 1 MiB on a state file and a damaged one (loading would raise, and nothing
-- follows), the temporary files and fsync calls of atomic_bytes (a write is one event, and so
-- is a freeze or a stage), the directories that the constructor of Generation 4 makes, the file locks
-- (methods run one at a time), the endless loop `run` of the first relay, the command line and the
-- composition of the classes (src/dger/gen4.py, src/dger/relay.py, scripts/), the rest of deployment/,
-- which observes processes and the network, and tools/, which do not take part in a run.
mod Prelude
pub mod Result
pub mod Json
pub mod Platform
pub mod Primitives
pub mod Contract
pub mod Delegation
pub mod Relay
pub mod Gep14
pub mod Gen3
pub mod Guard
pub mod God
pub mod Gtg
pub mod Runtime
mod Examples
