-- ===== src/Tui/Draw.antt =====
-- What the client of daemon-choir-tui draws: `draw_bar` and the frame of the dashboard.
use daemon_choir.Base.{
  ℕ, ◌-◌, Bool, Option, none, some, String, List, [], ◌∷◌, ◌++◌, if◌then◌else◌, leb, ◌>>=◌,
  replicate, map,
}
use daemon_choir.Float.{F64}
use daemon_choir.Metrics.{StateSnapshot, MetricMap}
use daemon_choir.Probes.{ProbeStats}
use daemon_choir.Api.{StatusResponse}

-- a line with a bar: its label, the characters between the brackets, and the number behind them
pub record Bar (F : Type 0) : Type 0 where
  pub label : String
  pub cells : List ℕ
  pub val : F

pub record ProbeLine : Type 0 where
  pub name : String
  pub loaded : Bool
  pub events_total : ℕ
  pub events_lost : ℕ

abbrev pub probe_line : ProbeStats → ProbeLine
probe_line probe = record {
  name = probe.name;
  loaded = probe.loaded;
  events_total = probe.events_total;
  events_lost = probe.events_lost;
}

-- the values of the dashboard, from its top to its bottom
pub record Screen (F : Type 0) : Type 0 where
  pub version : String
  pub state : String
  pub uptime_secs : ℕ
  pub backends_active : ℕ
  pub bars : List (Bar F)
  pub probe_lines : List ProbeLine

abbrev pub width : ℕ
width = 30

module _ {F : Type 0} ⦃f : F64 F⦄ where
  open f use {of_nat, mul, round, to_u64}

  abbrev pub filled : F → ℕ
  filled val = to_u64 (round (mul val (of_nat width)))

  -- `none` is the panic where `width - filled` would be negative
  unfoldable pub draw_bar : String → F → Option (Bar F)
  draw_bar label val =
      if leb (filled val) width
      then some (record {
        label = label;
        cells = replicate (filled val) b'#' ++ replicate (width - filled val) b'.';
        val = val;
      })
      else none

  unfoldable pub draw_bars : MetricMap F → Option (List (Bar F))
  unfolding draw_bar
  draw_bars m = do
    latency ← draw_bar "CPU Latency (p95) " m.cpu_sched_latency_p95
    switches ← draw_bar "CPU Context Switches" m.cpu_sched_context_rate
    memory ← draw_bar "Memory Pressure     " m.mem_reclaim_pressure
    tx ← draw_bar "Network Tx Rate     " m.net_tx_bytes_norm
    rx ← draw_bar "Network Rx Rate     " m.net_rx_bytes_norm
    exec ← draw_bar "Process Exec Rate   " m.proc_exec_rate
    some (latency ∷ switches ∷ memory ∷ tx ∷ rx ∷ exec ∷ [])

  unfoldable pub draw_dashboard :
      StatusResponse → List ProbeStats → StateSnapshot F → Option (Screen F)
  unfolding draw_bars
  draw_dashboard s p st = do
    bars ← draw_bars st.metrics
    some (record {
      version = s.version;
      state = s.state;
      uptime_secs = s.uptime_secs;
      backends_active = s.backends_active;
      bars = bars;
      probe_lines = map probe_line p;
    })
