-- ===== src/System/Start.antt =====
-- `main` of main.rs from the loaded configuration on: its checks, and the state in which the tasks start.
use daemon_choir.Base.{
  ℕ, Bool, true, ◌||◌, ◌==◌, Option, some, String, List, [], if◌then◌else◌, lowercase_eq,
}
use daemon_choir.Float.{F64}
use daemon_choir.Config.{Config}
use daemon_choir.Events.{RawEvent}
use daemon_choir.Metrics.{StateSnapshot, default_metrics}
use daemon_choir.Sync.{RwLock, Sender, Receiver}
use daemon_choir.Probes
use daemon_choir.Probes.{Aya, ProbeManager, ProbeStats, Task, start}
use daemon_choir.Probes.Started.{failed_count}
use daemon_choir.Aggregator
use daemon_choir.Mapping.{MappedParam}
use daemon_choir.Osc.Histogram.{empty}
use daemon_choir.Db
use daemon_choir.Db.{Sqlite}
use daemon_choir.System.{System}

-- `tracing::Level`
pub data Level : Type 0 where
  trace debug info warn error : Level

-- the `match` on `log_level.to_lowercase()`
unfoldable pub log_level : String → Level
log_level name =
    if lowercase_eq name "trace"
    then trace
    else if lowercase_eq name "debug"
    then debug
    else if lowercase_eq name "info"
    then info
    else if lowercase_eq name "warn"
    then warn
    else if lowercase_eq name "error"
    then error
    else info

unfoldable pub is_json : String → Bool
is_json name = lowercase_eq name "json"

-- the snapshot that the tasks share before the first window
abbrev pub first_snapshot : {F : Type 0} ⦃f : F64 F⦄ → Config F → StateSnapshot F
first_snapshot config = record {
  timestamp_us = 0;
  window_ms = config.daemon.window_ms;
  stale = true;
  lost_events = 0;
  metrics = default_metrics;
}

-- What the environment answers where a socket is bound: the UDP socket of `OscDispatcher::new`, and the API's
-- listener on a port.
pub record Sockets : Type 0 where
  pub udp : Bool
  pub tcp : ℕ → Bool

-- `std::process::exit(code)`, a panic where the configuration cannot be read or parsed, the OSC task's
-- socket cannot be bound or the API's port cannot be bound, or the running program
pub data Launch (S : Type 0) : Type 0 where
  exits : ℕ → Launch S
  config_panics osc_panics bind_panics : Launch S
  launched : S → Launch S

module _ {F Raw Bpf Program : Type 0} ⦃raw_rx : Receiver RawEvent Raw⦄ (aya : Aya Bpf Program) where
  -- the probe manager after `start`, and its tasks
  unfoldable pub started : Config F → Bool → ProbeManager Raw × List (Task Bpf)
  started config simulate = start aya (
      Probes.new config.probes.enabled (simulate || config.daemon.simulate) (raw_rx.channel 2048) 0)

module _ {F Raw Snap Par : Type 0} (Packet : Type 0) {Conn Bpf Program : Type 0} ⦃f : F64 F⦄
    ⦃raw_tx : Sender RawEvent Raw⦄ ⦃raw_rx : Receiver RawEvent Raw⦄
    ⦃snap_tx : Sender (StateSnapshot F) Snap⦄ ⦃snap_rx : Receiver (StateSnapshot F) Snap⦄
    ⦃par_tx : Sender (List (MappedParam F)) Par⦄ ⦃par_rx : Receiver (List (MappedParam F)) Par⦄
    (sql : Sqlite F Conn) (aya : Aya Bpf Program) where
  -- The shared data, the channels and the tasks, where opening the database gives `opened`.
  unfoldable pub wired : Config F → Bool → Option Conn → System F Raw Snap Par Packet Conn
  unfolding started
  wired config simulate opened =
      let manager = (started aya config simulate).0 in
      record {
        raw = manager.tx;
        consumer = record { aggregator_tx = raw_rx.channel 2048; insertions = [] };
        aggregator =
            Aggregator.new (snap_rx.channel 256) (some (snap_rx.channel 512))
              config.daemon.window_ms (RwLock.healthy (first_snapshot config)) 0
              manager.cumulative_lost_events;
        params = par_rx.channel 256;
        delivered = [];
        app = record {
          current_config = RwLock.healthy config;
          current_snapshot = RwLock.healthy (first_snapshot config);
          probes_stats = manager.probes;
          mapping_rules = RwLock.healthy config.mapping;
          osc_backends = RwLock.healthy config.backends.osc;
          osc_metrics = record { osc_dispatch_total = 0; osc_dispatch_success_total = 0 };
          dispatch_latency_histogram = empty;
          api_response_histogram = empty;
          probe_load_errors_total = failed_count manager.probes;
          db = Db.new sql opened;
          shutdown_requests = 0;
        };
      }

  -- `main`, from its checks to the tasks; the OSC task's socket is bound before the API's.
  unfoldable pub launch :
      Config F → Bool → Option Conn → Sockets → Launch (System F Raw Snap Par Packet Conn)
  unfolding wired
  launch config simulate opened bind =
      let port = config.daemon.control_api_port in
      if port == 0
      then exits 1
      else if bind.udp
      then (if bind.tcp port then launched (wired config simulate opened) else bind_panics)
      else osc_panics
