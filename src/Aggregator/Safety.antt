-- ===== src/Aggregator/Safety.antt =====
-- The loop of aggregator.rs never panics, and publishes only metrics between 0 and 1.
use daemon_choir.Base.{ℕ, ◌≤◌, ◌<◌, ◌^◌, ◌≡◌, refl, some, List, [], ◌∷◌, arith}
use daemon_choir.Float.{F64, IsIeee, ◌≼◌, nought}
use daemon_choir.Events.{RawEvent}
use daemon_choir.Metrics.{MetricMap, normalize_min_max, compute_ema}
use daemon_choir.Metrics.Laws.{
  InUnit, IsNormal, IsWeight, normalize_min_max-InUnit, compute_ema-nonneg,
}
use daemon_choir.Aggregator.Window.{Totals, window_totals, raw_p95_latency}
use daemon_choir.Aggregator.Percentile.{raw_p95_rank}
use daemon_choir.Aggregator.Measure.{Emas, alpha, next_emas, normalized, measure}

module _ {F : Type 0} ⦃f : F64 F⦄ where
  open f use {of_nat}

  -- No average is negative or NaN.
  pub record IsNonneg (e : Emas F) : Type 0 where
    pub cpu_latency : nought ≼ e.cpu_latency
    pub cpu_rate : nought ≼ e.cpu_rate
    pub mem_pressure : nought ≼ e.mem_pressure
    pub net_tx : nought ≼ e.net_tx
    pub net_rx : nought ≼ e.net_rx
    pub proc_exec : nought ≼ e.proc_exec

  module _ (laws : IsIeee F) where
    open laws use {
      nat_mono, nat_lt, nat_finite, sub_finite, lit_pos, lit_lt_one, lit_finite, le_refl_right,
    }

    alpha-IsWeight : IsWeight laws alpha
    alpha-IsWeight = record {
      positive = lit_pos 3 1 (omega arith) (omega arith);
      below_one = lit_lt_one 3 1 (omega arith) (omega arith);
      finite = lit_finite 3 1 (omega arith) (omega arith);
    }

    next_emas-IsNonneg :
        (p95 : F) (t : Totals) (e : Emas F)
        → nought ≼ p95
        → IsNonneg e
        → IsNonneg (next_emas p95 t e)
    unfolding next_emas
    next_emas-IsNonneg p95 t e h v = record {
      cpu_latency = kept p95 e.cpu_latency h v.cpu_latency;
      cpu_rate = kept _ e.cpu_rate (count t.context_switches) v.cpu_rate;
      mem_pressure = kept _ e.mem_pressure (count t.pages_reclaimed) v.mem_pressure;
      net_tx = kept _ e.net_tx (count t.bytes_tx) v.net_tx;
      net_rx = kept _ e.net_rx (count t.bytes_rx) v.net_rx;
      proc_exec = kept _ e.proc_exec (count t.proc_execs) v.proc_exec;
    }
      where
        count : (n : ℕ) → nought ≼ of_nat n
        count n = nat_mono 0 n (omega arith)

        kept : (x y : F) → nought ≼ x → nought ≼ y → nought ≼ compute_ema x y alpha
        kept = compute_ema-nonneg laws alpha alpha-IsWeight

    -- Normalisation between two whole numbers.
    whole-InUnit :
        (x : F) (lo hi : ℕ)
        → nought ≼ x
        → lo < hi
        → hi ≤ 2 ^ 53
        → (r : F) × (normalize_min_max x (of_nat lo) (of_nat hi) ≡ some r) × InUnit r
    whole-InUnit x lo hi h lt small =
        let order = nat_lt lo hi lt small in
        let top = nat_finite hi (omega arith) in
        normalize_min_max-InUnit laws x (of_nat lo) (of_nat hi) (nat_finite lo (omega arith)) top
          (sub_finite (of_nat hi) (of_nat lo) (nat_mono 0 lo (omega arith)) order.0 top) order
          (le_refl_right _ _ h)

    normalized-IsNormal :
        (e : Emas F) → IsNonneg e → (m : MetricMap F) × (normalized e ≡ some m) × IsNormal m
    unfolding normalized
    normalized-IsNormal e v =
        let (a, ea, ua) =
          whole-InUnit e.cpu_latency 1000 20_000 v.cpu_latency (omega arith) (omega arith) in
        let (b, eb, ub) = whole-InUnit e.cpu_rate 0 80 v.cpu_rate (omega arith) (omega arith) in
        let (c, ec, uc) =
          whole-InUnit e.mem_pressure 0 500 v.mem_pressure (omega arith) (omega arith) in
        let (d, ed, ud) = whole-InUnit e.net_tx 0 30_000 v.net_tx (omega arith) (omega arith) in
        let (g, eg, ug) = whole-InUnit e.net_rx 0 30_000 v.net_rx (omega arith) (omega arith) in
        let (h, eh, uh) = whole-InUnit e.proc_exec 0 3 v.proc_exec (omega arith) (omega arith) in
        (
          record {
            cpu_sched_latency_p95 = a;
            cpu_sched_context_rate = b;
            mem_reclaim_pressure = c;
            net_tx_bytes_norm = d;
            net_rx_bytes_norm = g;
            proc_exec_rate = h;
          },
          rw (ea, eb, ec, ed, eg, eh),
          (ua, ub, uc, ud, ug, uh),
        )

    raw_p95-nonneg : (l : List ℕ) → (v : F) × (raw_p95_latency l ≡ some v) × (nought ≼ v)
    unfolding raw_p95_latency
    raw_p95-nonneg [] = (nought, refl, nat_mono 0 0 (omega arith))
    raw_p95-nonneg (x ∷ xs) =
        let (v, e, _, _, _) = raw_p95_rank (x ∷ xs) (omega arith) in
        (of_nat v, e, nat_mono 0 v (omega arith))

    -- For numbers that obey IEEE 754 and averages that are numbers and not negative: whatever
    -- events a window holds, the tick computes averages that are again numbers and not negative,
    -- and six metrics between 0 and 1; nothing in it panics.
    pub measure-IsNormal :
        (events : List RawEvent) (emas : Emas F)
        → IsNonneg emas
        → (emas' : Emas F) × (metrics : MetricMap F) × (measure events emas ≡ some (emas', metrics))
          × IsNonneg emas'
          × IsNormal metrics
    unfolding measure
    measure-IsNormal events emas v =
        let totals = window_totals events in
        let (p95, e, h) = raw_p95-nonneg totals.cpu_latencies in
        let v' = next_emas-IsNonneg p95 totals emas h v in
        let (m, em, normal) = normalized-IsNormal (next_emas p95 totals emas) v' in
        (next_emas p95 totals emas, m, rw (e, em), v', normal)
