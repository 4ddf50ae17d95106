-- ===== src/Examples/Fixtures.antt =====
-- Small inputs: two events, a rule, an aggregator with a channel of two places, a table of rows.
use daemon_choir.Base.{ℕ, Bool, true, false, not, ltb, filter, String, List, [], ◌∷◌, refl}
use daemon_choir.Float.Fixed.{Fixed, fixed_f64}
use daemon_choir.Config.{OscBackendConfig, MappingRule, default_range}
use daemon_choir.Events.{ProbeId, RawEvent, EventPayload}
use daemon_choir.Metrics.{StateSnapshot, default_metrics}
use daemon_choir.Sync.Bounded.{Chan, chan_sender}
use daemon_choir.Db.{Param, Statement, Sqlite}
use daemon_choir.Db.Retention.{EventRow, SnapshotRow, IsSqlite}

abbrev pub switch_of : ℕ → RawEvent
switch_of latency = record {
  probe = ProbeId.cpu_sched;
  timestamp_ns = 7000;
  payload =
      EventPayload.cpu_sched
        (record { prev_comm_hash = 1; next_comm_hash = 2; latency_ns = latency; cpu_id = 0 });
}

abbrev pub packet_event : RawEvent
packet_event = record {
  probe = ProbeId.net_io;
  timestamp_ns = 9000;
  payload = EventPayload.net_io (record { bytes_tx = 100; bytes_rx = 200; dev_name_hash = 3 });
}

abbrev pub some_events : List RawEvent
some_events = switch_of 4000 ∷ packet_event ∷ switch_of 2500 ∷ []

abbrev pub chan_of : {A : Type 0} → ℕ → Chan A
chan_of n = record { items = []; room = n; shut = false }

abbrev pub first_snapshot : StateSnapshot Fixed
first_snapshot = record {
  timestamp_us = 0;
  window_ms = 50;
  stale = true;
  lost_events = 0;
  metrics = default_metrics;
}

abbrev pub two_rules : List (MappingRule Fixed)
two_rules =
    record {
      source_metric = "cpu.sched.latency_p95";
      osc_address = "/choir/cpu";
      transform = "linear";
      input_range = default_range;
      output_range = record { lo = 20_000_000; hi = 80_000_000 };
    }
    ∷ record {
      source_metric = "unheard_of";
      osc_address = "/choir/none";
      transform = "step";
      input_range = default_range;
      output_range = default_range;
    }
    ∷ []

abbrev pub backend_of : String → OscBackendConfig
backend_of address = record { name = "synth"; address = address }

-- two tables, as lists of rows
pub record Tables : Type 0 where
  pub events : List EventRow
  pub snapshots : List SnapshotRow

abbrev run_statement : Tables → Statement → List (Param Fixed) → Bool × Tables
run_statement t Statement.delete_events _ = (true, record t { events = [] })
run_statement t Statement.delete_snapshots _ = (true, record t { snapshots = [] })
run_statement t Statement.delete_events_before (Param.integer n ∷ []) =
    (true, record t { events = filter (λ r. not (ltb r.timestamp_ns n)) t.events })
run_statement t Statement.delete_snapshots_before (Param.integer n ∷ []) =
    (true, record t { snapshots = filter (λ r. not (ltb r.timestamp_us n)) t.snapshots })
run_statement t Statement.create_events _ = (true, t)
run_statement t Statement.create_snapshots _ = (true, t)
run_statement t _ _ = (false, t)

abbrev pub tables_sql : Sqlite Fixed Tables
tables_sql = record { execute = run_statement; to_json = λ p. "{}" }

abbrev pub tables_laws : IsSqlite tables_sql
tables_laws = record {
  events = λ t. t.events;
  snapshots = λ t. t.snapshots;
  delete_events_before = λ c bound e. (refl, refl);
  delete_snapshots_before = λ c bound e. (refl, refl);
  delete_events = λ c e. (refl, refl);
  delete_snapshots = λ c e. (refl, refl);
}

abbrev pub some_rows : Tables
some_rows = record {
  events =
      record { timestamp_ns = 1000; id = 1 } ∷ record { timestamp_ns = 90_000_000; id = 2 } ∷ [];
  snapshots = record { timestamp_us = 2; id = 1 } ∷ record { timestamp_us = 95_000; id = 2 } ∷ [];
}
