-- ===== src/Aggregator/Alone.antt =====
-- The loop of aggregator.rs with nobody who listens: its channels take everything and keep nothing.
use daemon_choir.Base.{
  ℕ, ◌≡◌, refl, ap, sym, false, none, Option-cases, inl, inr, List, [], ◌∷◌, ◌++◌, arith,
}
use daemon_choir.Float.{F64}
use daemon_choir.Events.{RawEvent}
use daemon_choir.Metrics.{StateSnapshot}
use daemon_choir.Sync.{Sender, TrySend}
use daemon_choir.Aggregator.Measure.{measure}
use daemon_choir.Aggregator.Effects.{running_after_send, running-injective, and_then-running}
use daemon_choir.Aggregator.{
  Aggregator, running, Input, received, channel_closed, tick, event_lost, tap, after_send, publish,
  handle_tick, step, run,
}

pub data Sink : Type 0 where
  sink : Sink

instance abbrev pub sink_sender : {A : Type 0} → Sender A Sink
sink_sender = record {
  try_send = λ s a. (TrySend.sent, s);
  queued = λ s. [];
  capacity = λ s. 0;
  is_closed = λ s. false;
}

-- the same loop without its channels
abbrev pub alone : {F Tx Db : Type 0} → Aggregator F Tx Db → Aggregator F Sink Sink
alone a = record {
  tx = sink;
  db_tx = none;
  window_ms = a.window_ms;
  shared_state = a.shared_state;
  snapshot_timestamp_us = a.snapshot_timestamp_us;
  cumulative_lost_events = a.cumulative_lost_events;
  current_window_events = a.current_window_events;
  emas = a.emas;
  consecutive_empty_windows = a.consecutive_empty_windows;
}

-- the events among the inputs, in order
abbrev pub taken : List Input → List RawEvent
taken [] = []
taken (received e ∷ is) = e ∷ taken is
taken (_ ∷ is) = taken is

pub taken-append : (is js : List Input) → taken (is ++ js) ≡ taken is ++ taken js
taken-append [] js = refl
taken-append (received e ∷ is) js = ap (λ l. e ∷ l) (taken-append is js)
taken-append (channel_closed ∷ is) js = taken-append is js
taken-append (tick now_us ∷ is) js = taken-append is js
taken-append (event_lost ∷ is) js = taken-append is js

module _ {F Tx Db : Type 0} ⦃f : F64 F⦄ ⦃tx : Sender (StateSnapshot F) Tx⦄
    ⦃db : Sender (StateSnapshot F) Db⦄ where
  handle_tick-alone :
      (now_us : ℕ) (a b : Aggregator F Tx Db)
      → handle_tick now_us a ≡ running b
      → handle_tick now_us (alone a) ≡ running (alone b)
  unfolding handle_tick publish
  handle_tick-alone now_us a b e = elim (Option-cases (measure a.current_window_events a.emas)) [
    | inl m ↦ absurd (ground arith)
    | inr ((emas', metrics), m) ↦
        let sent = running_after_send _ _ _ b (rw (m, handle_tick) at e) in
        rw (m, handle_tick) (unfold after_send tap in ap (λ c. running (alone c)) (sym sent))
  ]

  -- A round after which the loop goes on does the same with and without its channels.
  pub step-alone :
      (a b : Aggregator F Tx Db) (i : Input)
      → step a i ≡ running b
      → step (alone a) i ≡ running (alone b)
  unfolding step
  step-alone a b (received e) h = ap (λ c. running (alone c)) (running-injective h)
  step-alone a b channel_closed h = absurd (ground arith)
  step-alone a b (tick now_us) h = handle_tick-alone now_us a b h
  step-alone a b event_lost h = ap (λ c. running (alone c)) (running-injective h)

  -- one more round behind others
  pub run-snoc :
      (a b c : Aggregator F Tx Db) (is : List Input) (i : Input)
      → run a is ≡ running b
      → step b i ≡ running c
      → run a (is ++ (i ∷ [])) ≡ running c
  unfolding run
  run-snoc a b c [] i h e = rw (running-injective h) (rw e refl)
  run-snoc a b c (j ∷ is) i h e =
      let (d, q, rest) = and_then-running (step a j) (λ x. run x is) h in
      rw q (run-snoc d b c is i rest e)
