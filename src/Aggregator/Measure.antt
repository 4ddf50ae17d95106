-- ===== src/Aggregator/Measure.antt =====
-- The tick of aggregator.rs, second half: from the sums to the six normalised metrics.
use daemon_choir.Base.{Option, some, List, ◌>>=◌}
use daemon_choir.Float.{F64, nought}
use daemon_choir.Events.{RawEvent}
use daemon_choir.Metrics.{MetricMap, compute_ema, normalize_min_max}
use daemon_choir.Aggregator.Window.{Totals, window_totals, raw_p95_latency}

-- The six moving averages, local variables of `run`.
pub record Emas (F : Type 0) : Type 0 where
  pub cpu_latency : F
  pub cpu_rate : F
  pub mem_pressure : F
  pub net_tx : F
  pub net_rx : F
  pub proc_exec : F

module _ {F : Type 0} ⦃f : F64 F⦄ where
  open f use {of_nat, lit}

  abbrev pub no_emas : Emas F
  no_emas = record {
    cpu_latency = nought;
    cpu_rate = nought;
    mem_pressure = nought;
    net_tx = nought;
    net_rx = nought;
    proc_exec = nought;
  }

  abbrev pub alpha : F
  alpha = lit 3 1

  -- the twelve lines `ema_... = compute_ema(raw_..., ema_..., alpha)`
  unfoldable pub next_emas : F → Totals → Emas F → Emas F
  next_emas p95 t e = record {
    cpu_latency = compute_ema p95 e.cpu_latency alpha;
    cpu_rate = compute_ema (of_nat t.context_switches) e.cpu_rate alpha;
    mem_pressure = compute_ema (of_nat t.pages_reclaimed) e.mem_pressure alpha;
    net_tx = compute_ema (of_nat t.bytes_tx) e.net_tx alpha;
    net_rx = compute_ema (of_nat t.bytes_rx) e.net_rx alpha;
    proc_exec = compute_ema (of_nat t.proc_execs) e.proc_exec alpha;
  }

  -- `none` is a panic of one of the six calls
  unfoldable pub normalized : Emas F → Option (MetricMap F)
  normalized e = do
    norm_cpu_latency ← normalize_min_max e.cpu_latency (of_nat 1000) (of_nat 20_000)
    norm_cpu_rate ← normalize_min_max e.cpu_rate (of_nat 0) (of_nat 80)
    norm_mem_pressure ← normalize_min_max e.mem_pressure (of_nat 0) (of_nat 500)
    norm_net_tx ← normalize_min_max e.net_tx (of_nat 0) (of_nat 30_000)
    norm_net_rx ← normalize_min_max e.net_rx (of_nat 0) (of_nat 30_000)
    norm_proc_exec ← normalize_min_max e.proc_exec (of_nat 0) (of_nat 3)
    some (record {
      cpu_sched_latency_p95 = norm_cpu_latency;
      cpu_sched_context_rate = norm_cpu_rate;
      mem_reclaim_pressure = norm_mem_pressure;
      net_tx_bytes_norm = norm_net_tx;
      net_rx_bytes_norm = norm_net_rx;
      proc_exec_rate = norm_proc_exec;
    })

  -- the averages and the metrics of a window
  unfoldable pub measure : List RawEvent → Emas F → Option (Emas F × MetricMap F)
  measure events emas = do
    let totals = window_totals events
    p95 ← raw_p95_latency totals.cpu_latencies
    let emas' = next_emas p95 totals emas
    metrics ← normalized emas'
    some (emas', metrics)
