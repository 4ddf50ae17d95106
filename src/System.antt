-- ===== src/System.antt =====
-- crates/conductor/src/main.rs: the tasks, wired together by channels and shared state. `perform` is
-- one round of one task; which task comes next is open, so a run of the program is a list of actions.
pub mod Start
pub mod Engine
pub mod Tuning
pub mod Invariant
pub mod Tasks
pub mod Outputs
pub mod Safety
pub mod Launched
pub mod Asked
pub mod Ending
pub mod Boot
pub mod FirstStart
pub mod Log
pub mod Trace
pub mod Refinement
pub mod OutLog
pub mod Outbound
pub mod Delivery
pub mod Rounds
pub mod Progress
use daemon_choir.Base.{
  ℕ, ◌*◌, Option, none, some, String, List, [], ◌∷◌, ◌++◌, get_elem?, set, remove,
}
use daemon_choir.Float.{F64}
use daemon_choir.Events.{RawEvent}
use daemon_choir.Metrics.{StateSnapshot}
use daemon_choir.Sync.{RwLock, Sender, Receiver}
use daemon_choir.Probes.{ProbeStats}
use daemon_choir.Probes.Pump.{Counters, send_event}
use daemon_choir.Ringbuf.{RingbufConsumer, Consumed, consume}
use daemon_choir.Aggregator
use daemon_choir.Aggregator.{Aggregator, Flow, Input}
use daemon_choir.Mapping.{MappedParam, MappingEngine, Next, map_snapshot}
use daemon_choir.Osc.{World, OscDispatcher, dispatch}
use daemon_choir.Db.{Sqlite, Database, insert_event, insert_snapshot, purge_older_than}
use daemon_choir.Api.{AppState, HttpRequest, serve}

-- `raw` is the probes' channel; `consumer.aggregator_tx`, `aggregator.tx`, `aggregator.db_tx` and `params`
-- are the channels to the aggregator, the mapping engine, the database and the OSC task. What the
-- tasks share through `Arc`s is kept in `app`, and the two counters that the API does not read in
-- `aggregator`. `delivered` are the packets sent.
pub record System (F Raw Snap Par Packet Conn : Type 0) : Type 0 where
  pub raw : Raw
  pub consumer : RingbufConsumer Raw
  pub aggregator : Aggregator F Snap Snap
  pub params : Par
  pub delivered : List (String × Packet)
  pub app : AppState F Conn

-- The tasks that pass the events on and can end before the program does. The probes' own tasks, which can
-- end or panic too, are not part of the system: what they send, if they send, is an action.
pub data Task : Type 0 where
  ringbuf aggregation mapping : Task

-- What an action does: the task has nothing to do and waits, it goes on, or it ends or panics.
pub data Outcome (S : Type 0) : Type 0 where
  waits : Outcome S
  goes : S → Outcome S
  dies : Task → Outcome S

-- What the environment and the scheduler may choose.
pub data Action (F Packet : Type 0) : Type 0 where
  -- the task of the probe at this place sends an event at the time in microseconds
  probe_sends : ℕ → RawEvent → ℕ → Action F Packet
  ringbuf_receives : Action F Packet
  -- one of the spawned insertions runs: they may run in any order
  insertion_runs : ℕ → Action F Packet
  aggregator_receives : Action F Packet
  aggregator_ticks : ℕ → Action F Packet
  snapshot_stored : Action F Packet
  mapping_receives : Action F Packet
  osc_receives : World F Packet → Action F Packet
  api_serves : HttpRequest F × F → Action F Packet
  purge_runs : ℕ → Action F Packet

-- 24 hours in microseconds
abbrev pub retention_us : ℕ
retention_us = 24 * 3600 * 1_000_000

module _ {F Raw Snap Par Packet Conn : Type 0} ⦃f : F64 F⦄ ⦃raw_tx : Sender RawEvent Raw⦄
    ⦃raw_rx : Receiver RawEvent Raw⦄ ⦃snap_tx : Sender (StateSnapshot F) Snap⦄
    ⦃snap_rx : Receiver (StateSnapshot F) Snap⦄ ⦃par_tx : Sender (List (MappedParam F)) Par⦄
    ⦃par_rx : Receiver (List (MappedParam F)) Par⦄ where
  -- the counters that the task of a probe shares
  abbrev pub counters_of : System F Raw Snap Par Packet Conn → ProbeStats → Counters Raw
  counters_of s p = record {
    tx = s.raw;
    events_total = p.events_total;
    events_lost = p.events_lost;
    cumulative_lost = s.aggregator.cumulative_lost_events;
    last_event_us = p.last_event_us;
  }

  abbrev pub with_counters :
      System F Raw Snap Par Packet Conn
      → ℕ
      → ProbeStats
      → Counters Raw
      → System F Raw Snap Par Packet Conn
  with_counters s i p c = record s {
    raw = c.tx;
    aggregator = record s.aggregator { cumulative_lost_events = c.cumulative_lost };
    app = record s.app {
      probes_stats = set s.app.probes_stats i (record p {
        events_total = c.events_total;
        events_lost = c.events_lost;
        last_event_us = c.last_event_us;
      });
    };
  }

  unfoldable pub probe_sends_to :
      System F Raw Snap Par Packet Conn
      → ℕ
      → RawEvent
      → ℕ
      → Outcome (System F Raw Snap Par Packet Conn)
  probe_sends_to s i event now_us = elim (get_elem? s.app.probes_stats i) [
    | none ↦ waits
    | some p ↦ goes (with_counters s i p (send_event event now_us (counters_of s p)))
  ]

  abbrev pub after_consume :
      System F Raw Snap Par Packet Conn
      → Raw
      → Consumed Raw
      → Outcome (System F Raw Snap Par Packet Conn)
  after_consume s raw' (Consumed.next r) = goes (record s { raw = raw'; consumer = r })
  after_consume s raw' (Consumed.exited r) = dies ringbuf

  unfoldable pub ringbuf_round :
      System F Raw Snap Par Packet Conn
      → Option (RawEvent × Raw)
      → Outcome (System F Raw Snap Par Packet Conn)
  ringbuf_round s none = waits
  ringbuf_round s (some (event, raw')) = after_consume s raw' (consume s.consumer event)

  unfoldable pub insertion_round :
      Sqlite F Conn
      → System F Raw Snap Par Packet Conn
      → ℕ
      → Outcome (System F Raw Snap Par Packet Conn)
  insertion_round sql s i = elim (get_elem? s.consumer.insertions i) [
    | none ↦ waits
    | some event ↦ goes (record s {
      consumer = record s.consumer { insertions = remove s.consumer.insertions i };
      app = record s.app { db = insert_event sql s.app.db event };
    })
  ]

  -- a round of the aggregator, whose snapshot the control API reads too
  abbrev pub after_step :
      System F Raw Snap Par Packet Conn
      → Flow (Aggregator F Snap Snap)
      → Outcome (System F Raw Snap Par Packet Conn)
  after_step s (Flow.running a) =
      goes (record s { aggregator = a; app = record s.app { current_snapshot = a.shared_state } })
  after_step s (Flow.stopped a) = dies aggregation
  after_step s Flow.panicked = dies aggregation

  unfoldable pub aggregator_round :
      System F Raw Snap Par Packet Conn
      → Option (RawEvent × Raw)
      → Outcome (System F Raw Snap Par Packet Conn)
  aggregator_round s none = waits
  aggregator_round s (some (event, tx')) =
      after_step (record s { consumer = record s.consumer { aggregator_tx = tx' } })
        (Aggregator.step s.aggregator (Input.received event))

  -- the task that takes the snapshots for the database
  unfoldable pub storing_round :
      Sqlite F Conn
      → System F Raw Snap Par Packet Conn
      → Option Snap
      → Outcome (System F Raw Snap Par Packet Conn)
  storing_round sql s none = waits
  storing_round sql s (some db_tx) = elim (snap_rx.recv db_tx) [
    | none ↦ waits
    | some (snapshot, db_tx') ↦ goes (record s {
      aggregator = record s.aggregator { db_tx = some db_tx' };
      app = record s.app { db = insert_snapshot sql s.app.db snapshot };
    })
  ]

  -- the mapping engine, with the rules of the control API
  abbrev pub engine_of : System F Raw Snap Par Packet Conn → MappingEngine F Par
  engine_of s = record { tx = s.params; rules = s.app.mapping_rules }

  abbrev pub after_mapping :
      System F Raw Snap Par Packet Conn
      → Snap
      → Next (MappingEngine F Par)
      → Outcome (System F Raw Snap Par Packet Conn)
  after_mapping s tx' (Next.goes_on m) =
      goes (record s { aggregator = record s.aggregator { tx = tx' }; params = m.tx })
  after_mapping s tx' (Next.exits m) = dies mapping
  after_mapping s tx' Next.panics = dies mapping

  unfoldable pub mapping_round :
      System F Raw Snap Par Packet Conn
      → Option (StateSnapshot F × Snap)
      → Outcome (System F Raw Snap Par Packet Conn)
  mapping_round s none = waits
  mapping_round s (some (snapshot, tx')) = after_mapping s tx' (map_snapshot (engine_of s) snapshot)

  -- the OSC task, with what it shares
  abbrev pub dispatcher_of : System F Raw Snap Par Packet Conn → OscDispatcher F Packet
  dispatcher_of s = record {
    backends = s.app.osc_backends;
    metrics = s.app.osc_metrics;
    latency_histogram = s.app.dispatch_latency_histogram;
    snapshot_timestamp_us = s.aggregator.snapshot_timestamp_us;
    delivered = s.delivered;
  }

  abbrev pub with_dispatcher :
      System F Raw Snap Par Packet Conn
      → Par
      → OscDispatcher F Packet
      → System F Raw Snap Par Packet Conn
  with_dispatcher s params' d = record s {
    params = params';
    delivered = d.delivered;
    app = record s.app {
      osc_metrics = d.metrics;
      dispatch_latency_histogram = d.latency_histogram;
    };
  }

  unfoldable pub osc_round :
      System F Raw Snap Par Packet Conn
      → World F Packet
      → Option (List (MappedParam F) × Par)
      → Outcome (System F Raw Snap Par Packet Conn)
  osc_round s w none = waits
  osc_round s w (some (ps, params')) =
      goes (with_dispatcher s params' (dispatch w (dispatcher_of s) ps))

  unfoldable pub perform :
      Sqlite F Conn
      → System F Raw Snap Par Packet Conn
      → Action F Packet
      → Outcome (System F Raw Snap Par Packet Conn)
  unfolding probe_sends_to ringbuf_round insertion_round aggregator_round storing_round
      mapping_round osc_round
  perform sql s (probe_sends i event now_us) = probe_sends_to s i event now_us
  perform sql s ringbuf_receives = ringbuf_round s (raw_rx.recv s.raw)
  perform sql s (insertion_runs i) = insertion_round sql s i
  perform sql s aggregator_receives = aggregator_round s (raw_rx.recv s.consumer.aggregator_tx)
  perform sql s (aggregator_ticks now_us) =
      after_step s (Aggregator.step s.aggregator (Input.tick now_us))
  perform sql s snapshot_stored = storing_round sql s s.aggregator.db_tx
  perform sql s mapping_receives = mapping_round s (snap_rx.recv s.aggregator.tx)
  perform sql s (osc_receives w) = osc_round s w (par_rx.recv s.params)
  perform sql s (api_serves request) = goes (record s { app = (serve sql s.app request).1 })
  perform sql s (purge_runs now_us) =
      goes
        (record s { app = record s.app { db = purge_older_than sql s.app.db now_us retention_us } })
