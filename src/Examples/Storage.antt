-- ===== src/Examples/Storage.antt =====
-- The database, the control API and the arguments at concrete inputs.
use daemon_choir.Base.{
  ℕ, ◌++◌, true, ◌+◌, ◌/◌, ◌≡◌, ◌⊎◌, leb, filter, none, some, List, [], ◌∷◌, refl, arith, All,
}
use daemon_choir.Float.Fixed.{Fixed, fixed_f64}
use daemon_choir.Config.{default_config}
use daemon_choir.Sync.{RwLock}
use daemon_choir.Osc.Histogram.{empty}
use daemon_choir.Db.{
  create_events, create_snapshots, Database, purge_older_than, purge_snapshots, run_or_disable,
  wipe, wipe_snapshots,
}
use daemon_choir.Db.Disabled.{Operation, apply_all, execute_enabled, scripts}
use daemon_choir.Paths.{Variables}
use daemon_choir.Db.Open.{
  FileSystem, owner_only, restrict, with_connection, open_database, plain, open_database-scripts,
}
use daemon_choir.Db.Retention.{IsEmptied, purge_older_than-keeps}
use daemon_choir.Api.{
  AppState, HttpRequest, Disk, route, serve_all, handle_privacy_wipe, is_guarded, wipe_response,
}
use daemon_choir.Api.Consistency.{IsConsistent}
use daemon_choir.Api.Races.{Write, apply_writes, reload-settles}
use daemon_choir.Api.Guards.{
  IsPrivileged, IsUntouched, serve_all-IsUntouched, handle_privacy_wipe-empties,
}
use daemon_choir.Startup.{parse_args, parse_args-meaning}
use daemon_choir.Examples.Fixtures.{
  Tables, tables_sql, tables_laws, some_rows, first_snapshot, packet_event, backend_of,
}

abbrev pub database : Database Tables
database = record { conn = some some_rows }

abbrev operations : List (Operation Fixed)
operations = Operation.wiping ∷ Operation.event packet_event ∷ Operation.wiping ∷ []

-- a file system with the mode of the database's file as its state
abbrev modes : FileSystem ℕ Tables
modes = record {
  create_dir_all = λ path fs. (true, fs);
  open_connection = λ path fs. (some some_rows, 420);
  metadata = λ path fs. some fs;
  set_permissions = λ path mode fs. (true, mode);
}

abbrev variables : Variables
variables = record { home = some "/home/choir"; xdg_data_home = some "/data" }

open_database-scripts_example :
    (apply_all tables_sql (open_database tables_sql modes none variables 0).0 operations).conn
    ≡ execute_enabled tables_sql
        (plain tables_sql modes (create_events ∷ create_snapshots ∷ [])
          ++ scripts tables_sql operations)
        (some some_rows)
open_database-scripts_example = open_database-scripts tables_sql modes none variables 0 operations

-- the file of the database is readable by its owner only
mode-owner_only : (open_database tables_sql modes none variables 0).1 ≡ owner_only
unfolding open_database with_connection restrict
mode-owner_only = refl

-- the rows that a purge leaves at 100 ms, with a retention of 50 ms
abbrev purged : Tables
purged = record {
  events = record { timestamp_ns = 90_000_000; id = 2 } ∷ [];
  snapshots = record { timestamp_us = 95_000; id = 2 } ∷ [];
}

purge-purged : (purge_older_than tables_sql database 100_000 50_000).conn ≡ some purged
unfolding purge_older_than purge_snapshots run_or_disable filter
purge-purged = refl

purge_older_than-keeps_example :
    (purged.events ≡ filter (λ r. leb 100_000 (r.timestamp_ns / 1000 + 50_000)) some_rows.events)
    × (purged.snapshots ≡ filter (λ r. leb 100_000 (r.timestamp_us + 50_000)) some_rows.snapshots)
purge_older_than-keeps_example =
    purge_older_than-keeps tables_sql tables_laws some_rows purged 100_000 50_000 (omega arith)
      purge-purged

abbrev pub app : AppState Fixed Tables
app = record {
  current_config = RwLock.healthy default_config;
  current_snapshot = RwLock.healthy first_snapshot;
  probes_stats = [];
  mapping_rules = RwLock.healthy (default_config {F = Fixed}).mapping;
  osc_backends = RwLock.healthy (default_config {F = Fixed}).backends.osc;
  osc_metrics = record { osc_dispatch_total = 0; osc_dispatch_success_total = 0 };
  dispatch_latency_histogram = empty;
  api_response_histogram = empty;
  probe_load_errors_total = 0;
  db = database;
  shutdown_requests = 0;
}

abbrev requests : List (HttpRequest Fixed × Fixed)
requests =
    (HttpRequest.put_backends (backend_of "127.0.0.1:57130" ∷ []), 2_000_000)
    ∷ (HttpRequest.post_reload Disk.unreadable, 1_000_000)
    ∷ (HttpRequest.post_wipe none, 1_000_000)
    ∷ []

-- a change of the backends that came between the writes of a reload
abbrev overlapped : List (Write Fixed)
overlapped =
    Write.shows default_config ∷ Write.sends [] ∷ Write.shows_backends [] ∷ Write.maps [] ∷ []

reload-settles_example : IsConsistent (
    serve_all tables_sql
      (route tables_sql
        (HttpRequest.post_reload (Disk.parsed default_config))
        (apply_writes app overlapped)).1
      requests)
reload-settles_example = reload-settles tables_sql app overlapped default_config requests (
  default_config {F = Fixed},
  (default_config {F = Fixed}).mapping,
  (default_config {F = Fixed}).backends.osc,
  refl,
  refl,
  refl,
)

requests-unprivileged : All (λ r. ¬ IsPrivileged r.0) requests
requests-unprivileged = ((λ e. e), ((λ e. e), ((λ e. absurd (grind arith)), tt)))

serve_all-IsUntouched_example : IsUntouched app (serve_all tables_sql app requests)
serve_all-IsUntouched_example = serve_all-IsUntouched tables_sql app requests requests-unprivileged

wiped-code : (handle_privacy_wipe tables_sql (some "wipe") app).0.code ≡ 200
unfolding handle_privacy_wipe is_guarded wipe_response wipe wipe_snapshots run_or_disable
wiped-code = refl

handle_privacy_wipe-empties_example :
    IsEmptied tables_laws (handle_privacy_wipe tables_sql (some "wipe") app).1.db.conn
    ⊎ (((handle_privacy_wipe tables_sql (some "wipe") app).1.db.conn ≡ none) × (app.db.conn ≡ none))
handle_privacy_wipe-empties_example =
    handle_privacy_wipe-empties tables_sql tables_laws app wiped-code

parse_args-meaning_example :
    parse_args ("conductor" ∷ "-s" ∷ "--config" ∷ "a.toml" ∷ "-c" ∷ [])
    ≡ record { config_path = some "a.toml"; simulate = true }
parse_args-meaning_example =
    parse_args-meaning "conductor" ("-s" ∷ "--config" ∷ "a.toml" ∷ "-c" ∷ [])
