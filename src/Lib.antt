-- ===== src/Lib.antt =====
-- DAEMON CHOIR turns what the kernel does into sound: probes write events to ring buffers, an aggregator
-- turns the events of a window into six numbers, a mapping engine turns these into OSC parameters, and
-- a dispatcher sends them to sound engines; a control API configures and watches this, and SQLite
-- keeps a day of it; a client on the terminal shows and steers it. This library models the Rust code
-- of crates/conductor, crates/daemon-choir-common and crates/daemon-choir-tui.
--
-- The parts, in the order of the data:
--   Events      crates/daemon-choir-common/src/events.rs: the events; Events.Hash is `fnv1a_64`, and
--               Events.Wire has the structs of the BPF programs and `from_bytes` of
--               probe_manager.rs.
--   Probes      crates/conductor/src/probe_manager.rs: `new` and `start`; Probes.Pump is the loop that
--               drains a ring buffer, Probes.Poll the task around it, Probes.Simulator is
--               `run_simulator_probe`.
--   Ringbuf     crates/conductor/src/ringbuf.rs: `run` hands each event to the database and on.
--   Aggregator  crates/conductor/src/aggregator.rs: `new` and `run`; Aggregator.Window has the sums
--               and the percentile of a window, Aggregator.Measure the averages and metrics.
--   Metrics     crates/daemon-choir-common/src/metrics.rs.
--   Mapping     crates/conductor/src/mapping.rs: `run`; Mapping.Transform is `apply_transform`.
--   Osc         crates/conductor/src/osc.rs: `run`; Osc.Timetag is the time tag of a bundle,
--               Osc.Histogram is `PrometheusHistogram`.
--   Db          crates/conductor/src/db.rs: `Database`; Db.Open is `Database::new`.
--   Paths       the paths of the configuration (main.rs) and of the database (db.rs).
--   Api         crates/conductor/src/control_api.rs: a function for each handler, and `route` for the
--               router; Api.Router finds a handler by method and path, Api.Exposition is
--               `handle_metrics`. In `serve_all` and in System a handler is one step; Api.Races
--               has the single writes of the two handlers that write several locks.
--   Startup     crates/conductor/src/main.rs: the loop over the arguments.
--   System      crates/conductor/src/main.rs: System.Boot is the configuration and System.Start the
--               checks, the shared data and the channels; `System.perform` is one round of one task
--               of the program so wired, System.Safety.Reach the states that rounds lead to,
--               System.Log and System.OutLog what a run of rounds did, and System.Ending the end
--               of `main`.
--   Tui         crates/daemon-choir-tui/src/main.rs: the loop over the commands; Tui.Draw is what the
--               dashboard draws, Tui.Served connects the client to the API and to the program.
--   Config      crates/daemon-choir-common/src/config.rs.
--   Base, Float, Sync, Within: shared words, lists and texts; `f64`; locks and channels.
--   Examples    concrete inputs, at which the theorems are applied.
--
-- How it is modelled. A task is a function on its state, which has a field for each value that an
-- `Arc` shares; `tokio::select!` is a list of inputs (Aggregator.Input) and a `while let Some(..)`
-- loop is a function on the list of what is received, so loops are structural recursion; the one
-- loop over an index (Startup.read_args) has the number of arguments as fuel, which is enough. The
-- client's loops need not end, so theorems on them speak of any number of rounds, and
-- Tui.Ending.run_loop-ends says how many are enough. In the wired program which task comes next is
-- open: an action of System.Action is a round of a task with what the environment gives it. What
-- ends a loop or panics is a constructor (Flow, Next, Round, Consumed, Outcome), or `none`. A lock
-- is healthy or poisoned. Integers are natural numbers with their wrap-around at 2^64 or 2^32
-- written out, as a release build has it.
--
-- What is a parameter: `f64` (Float.F64, with IEEE 754's laws in Float.IsIeee, which the fixed-point
-- numbers of Float.Fixed meet), tokio's channels (Sync.Sender and Sync.Receiver, with their
-- documented behaviour in Sync.IsMpsc and Sync.IsFifo, which Sync.Bounded.Chan meets), rosc and the
-- UDP socket (Osc.World), rusqlite and serde_json (Db.Sqlite, with what SQLite documents of `DELETE`
-- in Db.Retention.IsSqlite), the file system (Db.Open.FileSystem), aya (Probes.Aya), the file that a
-- reload or the start reads (Api.Disk, System.Boot.ConfigFile), which sockets can be bound
-- (System.Start.Sockets), and the server that the client talks to (Tui.Peer).
--
-- What is not modelled: of main.rs the subscriber of the logs, `prctl` and the failure of the handler
-- for SIGTERM to be installed; the padding of what the client prints, and the C programs of
-- crates/ebpf-programs. `build_commit` of `StatusResponse`, which the build makes, is left out. The clock
-- is taken to be after 1970 (`duration_since(UNIX_EPOCH)` of probe_manager.rs), and standard output of
-- the client to be writable.
-- The tasks of the probes (Probes.Poll, Probes.Simulator), which can end or panic, are not part of
-- System: an action of its environment is that a probe sends an event.
-- An insertion that ringbuf.rs spawns runs at any later time, in any order.
pub mod Base
pub mod Within
pub mod Paths
pub mod Float
pub mod Metrics
pub mod Events
pub mod Sync
pub mod Aggregator
pub mod Config
pub mod Mapping
pub mod Osc
pub mod Db
pub mod Probes
pub mod Api
pub mod Ringbuf
pub mod Startup
pub mod System
pub mod Tui
pub mod Examples
