-- ===== src/Aggregator/Isolation.antt =====
-- Persistence cannot disturb the audio path of aggregator.rs.
use daemon_choir.Base.{ℕ, ◌≡◌, refl, none, List, [], ◌∷◌, ap, ◌∙◌, inl, inr, Option-cases}
use daemon_choir.Float.{F64}
use daemon_choir.Metrics.{StateSnapshot}
use daemon_choir.Sync.{Sender, TrySend}
use daemon_choir.Aggregator.Measure.{measure}
use daemon_choir.Aggregator.{
  Aggregator, Flow, running, stopped, panicked, and_then, Input, received, channel_closed, tick,
  event_lost, tap, after_send, publish, handle_tick, step, run,
}

module _ {F Tx Db : Type 0} where
  -- The same aggregator with no database.
  abbrev pub without_db : Aggregator F Tx Db → Aggregator F Tx Db
  without_db a = record a { db_tx = none }

  abbrev pub forget_db : Flow (Aggregator F Tx Db) → Flow (Aggregator F Tx Db)
  forget_db (running a) = running (without_db a)
  forget_db (stopped a) = stopped (without_db a)
  forget_db panicked = panicked

module _ {F Tx Db : Type 0} ⦃f : F64 F⦄ ⦃tx : Sender (StateSnapshot F) Tx⦄
    ⦃db : Sender (StateSnapshot F) Db⦄ where
  after_send-without_db :
      (t : TrySend) (s : StateSnapshot F) (a : Aggregator F Tx Db)
      → forget_db (after_send t s a) ≡ after_send t s (without_db a)
  unfolding after_send tap
  after_send-without_db TrySend.closed s a = refl
  after_send-without_db _ s a = refl

  handle_tick-without_db :
      (now_us : ℕ) (a : Aggregator F Tx Db)
      → forget_db (handle_tick now_us a) ≡ handle_tick now_us (without_db a)
  unfolding handle_tick
  handle_tick-without_db now_us a = elim (Option-cases (measure a.current_window_events a.emas)) [
    | inl m ↦ rw (m, handle_tick)
    | inr ((emas', metrics), m) ↦
        rw (m, handle_tick) (unfold publish in after_send-without_db _ _ _)
  ]

  step-without_db :
      (a : Aggregator F Tx Db) (i : Input) → forget_db (step a i) ≡ step (without_db a) i
  unfolding step
  step-without_db a (received e) = refl
  step-without_db a channel_closed = refl
  step-without_db a (tick now_us) = handle_tick-without_db now_us a
  step-without_db a event_lost = refl

  and_then-forget_db :
      (r : Flow (Aggregator F Tx Db)) (k : Aggregator F Tx Db → Flow (Aggregator F Tx Db))
      → ((a : Aggregator F Tx Db) → forget_db (k a) ≡ k (without_db a))
      → forget_db (and_then r k) ≡ and_then (forget_db r) k
  and_then-forget_db (running a) k h = h a
  and_then-forget_db (stopped a) k h = refl
  and_then-forget_db panicked k h = refl

  -- Whatever the database's channel does (full, closed, or not there at all), the loop computes, writes
  -- under the lock and forwards to the mapping engine exactly what it would without a database, and
  -- goes on, stops and panics at the same points.
  pub run-without_db :
      (a : Aggregator F Tx Db) (is : List Input) → forget_db (run a is) ≡ run (without_db a) is
  unfolding run
  run-without_db a [] = refl
  run-without_db a (i ∷ is) =
      and_then-forget_db (step a i) (λ b. run b is) (λ b. run-without_db b is)
      ∙ ap (λ r. and_then r (λ b. run b is)) (step-without_db a i)
