-- ===== src/Lib.antt =====
-- A model of the core of arcmux, the daemon that runs coding agents in terminal panes and tells
-- when they work, when they are idle and when they need help.
--
-- The parts, how they interact, and where each is:
-- * Session, of internal/session/state.go: the state of one agent session. The daemon and the health
--   monitor call its setters, each under the session's lock, so the calls on one session are a
--   sequence: `call` is one of them, `calls` a sequence.
-- * Profile, of internal/profile/profile.go: what is known of one agent program.
-- * Health, of internal/health/monitor.go: `check` is Check, `hook_decision` is hookDecision,
--   `tick` is tick and `watch` of Health.Loop the loop of Run over a session that nothing else
--   calls. It reads the pane and the hook state of the session, and calls the session's setters.
--   Check and tick each take a snapshot of the session, and others may call it between them and
--   after them: `tick` takes both snapshots, and gives the calls that it makes on the session.
--   Health.Decision has the pure verdicts on the end of a turn, Health.Screens what the loop
--   records of the screens.
-- * Hooks, of internal/hooks/sessionstate.go and history_binding.go: the cached hook state of a
--   session, a file that the agents' hooks, the daemon and its summarizer write under one lock,
--   and that the health monitor and the hooks judge read. Hooks.Store has the file and its
--   locked read-modify-write, Hooks.Contract the turn contract in it, and `write` of
--   Hooks.Writes is any of the five locked writers. A file is missing, corrupt or a stored
--   state; a writer gives the next file or an error that leaves the file.
-- * Delivery, of internal/delivery/controller.go and judge.go: EnsureIngested, which watches a
--   pane after a prompt was sent until an assessment says that the agent has it, and presses
--   Enter again where that helps. The pane, the judge and the clock are an `Environment`, over a
--   world that sees every call; `deliver` is the loop after a number of turns, returned or not,
--   and `ensure_ingested` what it returned. Delivery.Heuristic is the heuristic judge,
--   Delivery.Typesafe the typesafe judge of judge_typesafe.go, and Delivery.Judges is NewJudge
--   with the hooks judge of judge_hooks.go, which reads the hook state. An assessment is given
--   with the documents that it sends to the service.
-- * Events, of internal/daemon/events.go: the bus that pushes the daemon's events to subscribers, as
--   calls on a store of channels.
-- * Pulse, of internal/manager/pulse/pulse.go: the loop that wakes the pane of a project when mail
--   came or a cadence has passed. `tick` is Tick, `ticks` the ticks of Run.
-- * Screenstitch, of internal/screenstitch/screenstitch.go: the transcript that overlapping captures
--   of a screen are stitched into. `ingest` is Merger.Ingest; Screenstitch.Lines has the functions on
--   single lines, Screenstitch.Align the vote on the scroll between two frames.
-- * Handoff, of internal/handoff and internal/daemon/handoff_outbox.go: how a session is handed to
--   another device. Handoff.Manifest and Handoff.Record have the types of manifest.go and
--   record.go, their Validate modules the validations. Handoff.Source and Handoff.Target are the
--   two sides of store.go: a method takes the clock's reading and the files of its side and gives
--   the record, whether it is a replay and the files, or an error that leaves them; Handoff.Files
--   reads and writes one file, and `run_calls` of Handoff.Source.History is any sequence of calls.
--   Handoff.Outbox is the daemon's outbox, a client of the source side: an `Action` is a method on
--   the files and the world, and a `Peer` the clock, the calls of the target, the sessions and the
--   context. Its methods hold a lock of the handoff throughout, so each is one sequence of steps.
--
-- Numbers: instants and durations are natural numbers of nanoseconds, with 0 for Go's zero time;
-- differences of instants are signed. The revision of a hook state is checked against the largest
-- uint64 as the code does; the revision and the attempts of a handoff wrap around as a uint64 and
-- a uint32 do; the other counters are unbounded, since they count calls. The float64 scores of an
-- assessment are an abstract type with a comparison. Text is a list of codes: bytes in Health and
-- in the judges, runes elsewhere.
--
-- Fuel: only the loop of EnsureIngested has fuel, one unit for each turn; with the conditions of
-- Delivery.Liveness, max_submit_attempts + ingestion_timeout + 2 units are enough. All other loops
-- are structural recursions.
--
-- Not modelled: the daemon's own table of sessions, the mesh and the stores behind it; of the
-- handoff, the building of a manifest from the registry, the repository and the history, and the
-- target's application, which runs git and launches a session; the gRPC and HTTP surfaces, tmux,
-- cmux and the typesafe client, which are input and output; configuration files, command lines
-- and generated code. `strings.ToLower`, `strings.TrimSpace` and `strings.Fields` on bytes,
-- `unicode.IsSpace`, the order in which Go iterates over a map, the answers of the typesafe
-- service and the text of a wake are parameters. The file system, the file lock and the JSON
-- encoding of the hook state and of the handoff records are taken as given: a writer's failure
-- there leaves the file as it was. SHA-256, the JSON of a manifest, `unicode.IsControl` and the
-- scan for credentials are parameters of the handoff. Whether VerifyCanonicalHistoryBinding
-- accepts a history file is an argument of the writer that calls it.
pub mod Prelude
pub mod Session
pub mod Profile
pub mod Health
pub mod Hooks
pub mod Delivery
pub mod Handoff
pub mod Events
pub mod Pulse
pub mod Screenstitch
