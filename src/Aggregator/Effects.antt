-- ===== src/Aggregator/Effects.antt =====
-- What a tick of aggregator.rs leaves behind when the loop goes on.
use daemon_choir.Base.{ℕ, ◌≡◌, refl, some, [], arith, inl, inr, Option-cases}
use daemon_choir.Float.{F64}
use daemon_choir.Metrics.{StateSnapshot, MetricMap}
use daemon_choir.Sync.{write, Sender, TrySend}
use daemon_choir.Aggregator.Measure.{Emas, measure}
use daemon_choir.Aggregator.{
  Flow, stopped, panicked, and_then, Aggregator, running, count_empty, is_stale, tap, after_send,
  publish, handle_tick,
}

module _ {F Tx Db : Type 0} ⦃f : F64 F⦄ ⦃tx : Sender (StateSnapshot F) Tx⦄
    ⦃db : Sender (StateSnapshot F) Db⦄ where
  -- the snapshot that a tick builds
  abbrev pub built : ℕ → Aggregator F Tx Db → MetricMap F → StateSnapshot F
  built now_us a metrics = record {
    timestamp_us = now_us;
    window_ms = a.window_ms;
    stale = is_stale (count_empty a.current_window_events a.consecutive_empty_windows);
    lost_events = a.cumulative_lost_events;
    metrics = metrics;
  }

  -- The state after a tick, field by field.
  pub record Ticked (now_us : ℕ) (a b : Aggregator F Tx Db) (metrics : MetricMap F) : Type 0 where
    pub measured : measure a.current_window_events a.emas ≡ some (b.emas, metrics)
    pub shared : b.shared_state ≡ write a.shared_state (built now_us a metrics)
    pub forwarded : b.tx ≡ (tx.try_send a.tx (built now_us a metrics)).1
    pub stored : b.db_tx ≡ tap a.db_tx (built now_us a metrics)
    pub stamped : b.snapshot_timestamp_us ≡ now_us
    pub cleared : b.current_window_events ≡ []
    pub counted :
        b.consecutive_empty_windows
        ≡ count_empty a.current_window_events a.consecutive_empty_windows
    pub swapped : b.cumulative_lost_events ≡ 0
    pub window : b.window_ms ≡ a.window_ms

  pub running_after_send :
      (t : TrySend) (s : StateSnapshot F) (a b : Aggregator F Tx Db)
      → after_send t s a ≡ running b
      → b ≡ record a { db_tx = tap a.db_tx s; current_window_events = [] }
  unfolding after_send
  running_after_send TrySend.closed s a b e = cc
  running_after_send TrySend.sent s a b e = cc
  running_after_send TrySend.full s a b e = cc

  -- the state that a tick hands to `publish`
  abbrev refreshed : ℕ → Aggregator F Tx Db → Emas F → Aggregator F Tx Db
  refreshed now_us a emas' = record a {
    snapshot_timestamp_us = now_us;
    consecutive_empty_windows = count_empty a.current_window_events a.consecutive_empty_windows;
    cumulative_lost_events = 0;
    emas = emas';
  }

  running_publish :
      (now_us : ℕ) (a b : Aggregator F Tx Db) (emas' : Emas F) (metrics : MetricMap F)
      → measure a.current_window_events a.emas ≡ some (emas', metrics)
      → publish (refreshed now_us a emas') (built now_us a metrics) ≡ running b
      → Ticked now_us a b metrics
  unfolding publish
  running_publish now_us a b emas' metrics m e =
      let eq = running_after_send _ _ _ b e in
      record {
        measured = ground (arith, eq);
        shared = ground (arith, eq);
        forwarded = ground (arith, eq);
        stored = ground (arith, eq);
        stamped = ground (arith, eq);
        cleared = ground (arith, eq);
        counted = ground (arith, eq);
        swapped = ground (arith, eq);
        window = ground (arith, eq);
      }

  pub handle_tick-Ticked :
      (now_us : ℕ) (a b : Aggregator F Tx Db)
      → handle_tick now_us a ≡ running b
      → (metrics : MetricMap F) × Ticked now_us a b metrics
  unfolding handle_tick
  handle_tick-Ticked now_us a b e = elim (Option-cases (measure a.current_window_events a.emas)) [
    | inl m ↦ absurd (ground arith)
    | inr ((emas', metrics), m) ↦
        (metrics, running_publish now_us a b emas' metrics m (rw (m, handle_tick) at e))
  ]

module _ {S : Type 0} where
  pub running-injective : {a b : S} → running a ≡ running b → a ≡ b
  running-injective e = cc

  -- A loop that is still running went through every round.
  pub and_then-running :
      (r : Flow S) (k : S → Flow S) {b : S}
      → and_then r k ≡ running b
      → (c : S) × (r ≡ running c) × (k c ≡ running b)
  and_then-running (running c) k e = (c, refl, e)
  and_then-running (stopped c) k e = absurd (ground arith)
  and_then-running panicked k e = absurd (ground arith)
