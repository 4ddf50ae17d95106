-- ===== src/Db.antt =====
-- crates/conductor/src/db.rs: persistence in SQLite, which the first failure disables.
pub mod Disabled
pub mod Retention
pub mod Open
use daemon_choir.Base.{
  ℕ, Bool, true, false, Option, none, some, String, List, [], ◌∷◌, if◌then◌else◌, saturating_sub,
  saturating_mul,
}
use daemon_choir.Events.{ProbeId, RawEvent, EventPayload, to_string}
use daemon_choir.Metrics.{StateSnapshot}

-- a bound parameter of a statement
pub data Param (F : Type 0) : Type 0 where
  text : String → Param F
  integer : ℕ → Param F
  real : F → Param F

-- The statements that the program runs, under the names of what they do.
pub data Statement : Type 0 where
  create_events create_snapshots : Statement
  insert_into_events insert_into_snapshots : Statement
  delete_events_before delete_snapshots_before : Statement
  delete_events delete_snapshots : Statement

-- What the program asks of the crates rusqlite and serde_json: `Connection::execute`, which says
-- whether it succeeded and leaves the connection in a new state, and `serde_json::to_string`.
pub record Sqlite (F Conn : Type 0) : Type 0 where
  pub execute : Conn → Statement → List (Param F) → Bool × Conn
  pub to_json : EventPayload → String

-- `conn`, without its mutex: each operation holds it from its start to its end.
pub record Database (Conn : Type 0) : Type 0 where
  pub conn : Option Conn

-- `Result<(), rusqlite::Error>`
pub data WipeResult : Type 0 where
  ok failed : WipeResult

-- `Err(e)` where the operation disabled the connection
abbrev pub result_of : {Conn : Type 0} → Option Conn → WipeResult
result_of none = failed
result_of (some c) = ok

module _ {F Conn : Type 0} (sql : Sqlite F Conn) where
  -- Runs a statement; the first failure disables the database.
  unfoldable pub run_or_disable : Conn → Statement → List (Param F) → Option Conn
  run_or_disable c s params =
      let (succeeded, c') = sql.execute c s params in if succeeded then some c' else none

  -- the loop over `migration_queries`
  unfoldable pub migrate : List Statement → Option Conn → Option Conn
  unfolding run_or_disable
  migrate [] conn = conn
  migrate (q ∷ qs) none = none
  migrate (q ∷ qs) (some c) = migrate qs (run_or_disable c q [])

  unfoldable pub init_migrations : Database Conn → Database Conn
  unfolding migrate
  init_migrations d = record { conn = migrate (create_events ∷ create_snapshots ∷ []) d.conn }

  -- `Database::new`, on what `Connection::open` gives
  unfoldable pub new : Option Conn → Database Conn
  unfolding init_migrations
  new opened = init_migrations (record { conn = opened })

  unfoldable pub insert_event : Database Conn → RawEvent → Database Conn
  unfolding run_or_disable
  insert_event d event = elim d.conn [
    | none ↦ d
    | some c ↦ record {
      conn = run_or_disable c insert_into_events (
          text (to_string event.probe)
          ∷ integer event.timestamp_ns
          ∷ text (sql.to_json event.payload)
          ∷ []);
    }
  ]

  unfoldable pub insert_snapshot : Database Conn → StateSnapshot F → Database Conn
  unfolding run_or_disable
  insert_snapshot d snapshot = elim d.conn [
    | none ↦ d
    | some c ↦ record {
      conn = run_or_disable c insert_into_snapshots (
          integer snapshot.timestamp_us
          ∷ real snapshot.metrics.cpu_sched_latency_p95
          ∷ real snapshot.metrics.cpu_sched_context_rate
          ∷ real snapshot.metrics.mem_reclaim_pressure
          ∷ real snapshot.metrics.net_tx_bytes_norm
          ∷ real snapshot.metrics.net_rx_bytes_norm
          ∷ real snapshot.metrics.proc_exec_rate
          ∷ []);
    }
  ]

  -- the second half of `purge_older_than`, after a first half that left `conn`
  unfoldable pub purge_snapshots : ℕ → Option Conn → Option Conn
  unfolding run_or_disable
  purge_snapshots cutoff_us none = none
  purge_snapshots cutoff_us (some c) =
      run_or_disable c delete_snapshots_before (integer cutoff_us ∷ [])

  -- `purge_older_than` at the time `now_us`, with both durations in microseconds
  unfoldable pub purge_older_than : Database Conn → ℕ → ℕ → Database Conn
  unfolding run_or_disable purge_snapshots
  purge_older_than d now_us retention_us = elim d.conn [
    | none ↦ d
    | some c ↦
        let cutoff_us = saturating_sub now_us retention_us in
        let cutoff_ns = saturating_mul cutoff_us 1000 in
        record {
          conn =
              purge_snapshots cutoff_us
                (run_or_disable c delete_events_before (integer cutoff_ns ∷ []));
        }
  ]

  -- the second half of `wipe`, after a first half that left `conn`
  unfoldable pub wipe_snapshots : Option Conn → Option Conn
  unfolding run_or_disable
  wipe_snapshots none = none
  wipe_snapshots (some c) = run_or_disable c delete_snapshots []

  unfoldable pub wipe : Database Conn → WipeResult × Database Conn
  unfolding run_or_disable wipe_snapshots
  wipe d = elim d.conn [
    | none ↦ (ok, d)
    | some c ↦
        let conn = wipe_snapshots (run_or_disable c delete_events []) in
        (result_of conn, record { conn = conn })
  ]
