-- ===== src/Aggregator.antt =====
-- crates/conductor/src/aggregator.rs: the task that turns the events of a window into a snapshot.
pub mod Window
pub mod Measure
pub mod Percentile
pub mod Order
pub mod Bags
pub mod Safety
pub mod Isolation
pub mod Loss
pub mod Staleness
pub mod Effects
pub mod Invariant
pub mod Alive
pub mod Alone
use daemon_choir.Base.{
  ℕ, ◌+◌, ◌%◌, ◌^◌, Bool, ◌&&◌, Option, none, some, List, [], ◌∷◌, ◌++◌, if◌then◌else◌, leb, ltb,
  add64,
}
use daemon_choir.Float.{F64}
use daemon_choir.Events.{RawEvent}
use daemon_choir.Metrics.{StateSnapshot}
use daemon_choir.Sync.{RwLock, write, Sender, TrySend}
use Measure.{Emas, no_emas, measure}

-- `self`, with what its `Arc`s point to, and the local variables of `run`. `consecutive_empty_windows`
-- is an `i32`, kept as its bit pattern.
pub record Aggregator (F Tx Db : Type 0) : Type 0 where
  pub tx : Tx
  pub db_tx : Option Db
  pub window_ms : ℕ
  pub shared_state : RwLock (StateSnapshot F)
  pub snapshot_timestamp_us : ℕ
  pub cumulative_lost_events : ℕ
  pub current_window_events : List RawEvent
  pub emas : Emas F
  pub consecutive_empty_windows : ℕ

-- `window_ms.clamp(10, 500)` on `u64`
unfoldable pub clamp_window : ℕ → ℕ
clamp_window w = if ltb w 10 then 10 else if ltb 500 w then 500 else w

-- The counter after one more window; `+= 1` on an `i32` wraps in a release build.
unfoldable pub count_empty : List RawEvent → ℕ → ℕ
count_empty [] n = (n + 1) % 2 ^ 32
count_empty (_ ∷ _) n = 0

-- `n >= 5` of an `i32`
unfoldable pub is_stale : ℕ → Bool
is_stale n = leb 5 n && ltb n (2 ^ 31)

-- What happens next in the loop of `run`.
pub data Flow (S : Type 0) : Type 0 where
  running : S → Flow S
  stopped : S → Flow S
  panicked : Flow S

-- the next round, unless the loop has ended
abbrev pub and_then : {S : Type 0} → Flow S → (S → Flow S) → Flow S
and_then (running a) k = k a
and_then (stopped a) k = stopped a
and_then panicked k = panicked

-- What the loop's `select!` hands over; `event_lost` is another task's `fetch_add(1)` on the shared
-- counter, which may come between any two rounds.
pub data Input : Type 0 where
  received : RawEvent → Input
  channel_closed : Input
  tick : ℕ → Input
  event_lost : Input

module _ {F Db : Type 0} ⦃db : Sender (StateSnapshot F) Db⦄ where
  -- `if let Some(db_tx) = &self.db_tx { if let Err(_) = db_tx.try_send(snapshot) {} }`
  unfoldable pub tap : Option Db → StateSnapshot F → Option Db
  tap none snapshot = none
  tap (some d) snapshot = some (db.try_send d snapshot).1

module _ {F Tx Db : Type 0} ⦃f : F64 F⦄ ⦃tx : Sender (StateSnapshot F) Tx⦄
    ⦃db : Sender (StateSnapshot F) Db⦄ where
  -- `Aggregator::new`, and the variables that `run` starts with
  unfoldable pub new : Tx → Option Db → ℕ → RwLock (StateSnapshot F) → ℕ → ℕ → Aggregator F Tx Db
  new t d window shared stamp lost = record {
    tx = t;
    db_tx = d;
    window_ms = clamp_window window;
    shared_state = shared;
    snapshot_timestamp_us = stamp;
    cumulative_lost_events = lost;
    current_window_events = [];
    emas = no_emas;
    consecutive_empty_windows = 0;
  }

  -- what `match e` does with the result of `self.tx.try_send`, and the rest of the tick
  unfoldable pub after_send :
      TrySend → StateSnapshot F → Aggregator F Tx Db → Flow (Aggregator F Tx Db)
  after_send TrySend.closed snapshot a = stopped a
  after_send _ snapshot a =
      running (record a { db_tx = tap a.db_tx snapshot; current_window_events = [] })

  -- the tick, from the writing of `shared_state` on
  unfoldable pub publish : Aggregator F Tx Db → StateSnapshot F → Flow (Aggregator F Tx Db)
  unfolding after_send
  publish a snapshot = after_send (tx.try_send a.tx snapshot).0 snapshot (record a {
    shared_state = write a.shared_state snapshot;
    tx = (tx.try_send a.tx snapshot).1;
  })

  unfoldable pub handle_tick : ℕ → Aggregator F Tx Db → Flow (Aggregator F Tx Db)
  unfolding publish
  handle_tick now_us a =
      let empty = count_empty a.current_window_events a.consecutive_empty_windows in
      elim (measure a.current_window_events a.emas) [
        | none ↦ panicked
        | some (emas', metrics) ↦
            publish
              (record a {
                snapshot_timestamp_us = now_us;
                consecutive_empty_windows = empty;
                cumulative_lost_events = 0;
                emas = emas';
              })
              (record {
                timestamp_us = now_us;
                window_ms = a.window_ms;
                stale = is_stale empty;
                lost_events = a.cumulative_lost_events;
                metrics = metrics;
              })
      ]

  -- one round of the loop of `run`
  unfoldable pub step : Aggregator F Tx Db → Input → Flow (Aggregator F Tx Db)
  step a (received e) =
      running (record a { current_window_events = a.current_window_events ++ (e ∷ []) })
  step a channel_closed = stopped a
  step a (tick now_us) = handle_tick now_us a
  step a event_lost =
      running (record a { cumulative_lost_events = add64 a.cumulative_lost_events 1 })

  -- `run`, on what `select!` hands over
  unfoldable pub run : Aggregator F Tx Db → List Input → Flow (Aggregator F Tx Db)
  unfolding step
  run a [] = running a
  run a (i ∷ is) = and_then (step a i) (λ b. run b is)
