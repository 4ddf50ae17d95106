-- ===== src/Metrics.antt =====
-- crates/daemon-choir-common/src/metrics.rs: the snapshot that a window produces, the moving average
-- and the normalisation.
pub mod Laws
use daemon_choir.Base.{ℕ, Bool, if◌then◌else◌, Option, none, some, String, str_eq, ◌>>=◌}
use daemon_choir.Float.{F64, clamp, nought, one}

pub record MetricMap (F : Type 0) : Type 0 where
  pub cpu_sched_latency_p95 : F
  pub cpu_sched_context_rate : F
  pub mem_reclaim_pressure : F
  pub net_tx_bytes_norm : F
  pub net_rx_bytes_norm : F
  pub proc_exec_rate : F

pub record StateSnapshot (F : Type 0) : Type 0 where
  pub timestamp_us : ℕ
  pub window_ms : ℕ
  pub stale : Bool
  pub lost_events : ℕ
  pub metrics : MetricMap F

module _ {F : Type 0} where
  -- `none` is `None`
  unfoldable pub get_value : MetricMap F → String → Option F
  get_value m name =
      if str_eq name "cpu.sched.latency_p95"
      then some m.cpu_sched_latency_p95
      else if str_eq name "cpu.sched.context_rate"
      then some m.cpu_sched_context_rate
      else if str_eq name "mem.reclaim.pressure"
      then some m.mem_reclaim_pressure
      else if str_eq name "net.tx.bytes_norm"
      then some m.net_tx_bytes_norm
      else if str_eq name "net.rx.bytes_norm"
      then some m.net_rx_bytes_norm
      else if str_eq name "proc.exec.rate"
      then some m.proc_exec_rate
      else none

module _ {F : Type 0} ⦃f : F64 F⦄ where
  open f use {add, sub, mul, div, le}

  -- `MetricMap::default`
  abbrev pub default_metrics : MetricMap F
  default_metrics = record {
    cpu_sched_latency_p95 = nought;
    cpu_sched_context_rate = nought;
    mem_reclaim_pressure = nought;
    net_tx_bytes_norm = nought;
    net_rx_bytes_norm = nought;
    proc_exec_rate = nought;
  }

  unfoldable pub compute_ema : F → F → F → F
  compute_ema current previous alpha = add (mul alpha current) (mul (sub one alpha) previous)

  -- `none` is the panic of `clamp`
  unfoldable pub normalize_min_max : F → F → F → Option F
  normalize_min_max val lo hi =
      if le hi lo
      then some nought
      else (clamp val lo hi >>= λ clamped. some (div (sub clamped lo) (sub hi lo)))
