-- ===== src/System/Tasks.antt =====
-- Each round of each task keeps the invariant of the wired program, and none of the three of `Task` ends.
use daemon_choir.Base.{
  ℕ, ◌≡◌, ◌≢◌, refl, ap, ◌∙◌, subst, false, Option, none, some, Option-cases, inl, inr, List, All,
  get_elem?,
}
use daemon_choir.Float.{F64, IsIeee}
use daemon_choir.Events.{RawEvent}
use daemon_choir.Metrics.{StateSnapshot}
use daemon_choir.Sync.{Sender, Receiver, IsMpsc, IsFifo, TrySend}
use daemon_choir.Sync.Bounded.{try_send-ne-closed}
use daemon_choir.Probes.Pump.{Counters, count_result, send_event}
use daemon_choir.Ringbuf.{RingbufConsumer, Consumed, after_try_send, consume}
use daemon_choir.Aggregator
use daemon_choir.Aggregator.{Aggregator, Flow, Input}
use daemon_choir.Aggregator.Invariant.{Holds, IsPublishable, IsSafe, step-IsSafe}
use daemon_choir.Aggregator.Alive.{IsOpen, step-GoesOn}
use daemon_choir.Mapping.{MappedParam}
use daemon_choir.Db.{Sqlite}
use daemon_choir.System.Invariant.{IsSound, Lives}
use daemon_choir.System.{
  System, counters_of, probe_sends_to, ringbuf_round, insertion_round, aggregator_round, after_step,
}

module _ {Tx : Type 0} ⦃tx : Sender RawEvent Tx⦄ (tx_laws : IsMpsc RawEvent Tx) where
  count_result-tx :
      (t : TrySend) (now_us : ℕ) (c : Counters Tx) → (count_result t now_us c).tx ≡ c.tx
  unfolding count_result
  count_result-tx TrySend.sent now_us c = refl
  count_result-tx TrySend.full now_us c = refl
  count_result-tx TrySend.closed now_us c = refl

  send_event-open :
      (e : RawEvent) (now_us : ℕ) (c : Counters Tx)
      → tx.is_closed c.tx ≡ false
      → tx.is_closed (send_event e now_us c).tx ≡ false
  unfolding send_event
  send_event-open e now_us c open_ =
      ap tx.is_closed (count_result-tx (tx.try_send c.tx e).0 now_us _)
      ∙ (tx_laws.send_keeps c.tx e).1
      ∙ open_

  -- the ring buffer's task goes on, with the aggregator's channel open
  after_try_send-next :
      (t : TrySend) (r : RingbufConsumer Tx)
      → t ≢ TrySend.closed
      → after_try_send t r ≡ Consumed.next r
  unfolding after_try_send
  after_try_send-next TrySend.closed r ne = absurd (ne refl)
  after_try_send-next TrySend.sent r ne = refl
  after_try_send-next TrySend.full r ne = refl

  pub consume-next :
      (r : RingbufConsumer Tx) (e : RawEvent)
      → tx.is_closed r.aggregator_tx ≡ false
      → (r' : RingbufConsumer Tx) × (consume r e ≡ Consumed.next r')
        × (tx.is_closed r'.aggregator_tx ≡ false)
  unfolding consume
  consume-next r e open_ = (
    _,
    after_try_send-next _ _ (try_send-ne-closed tx_laws r.aggregator_tx e open_),
    (tx_laws.send_keeps r.aggregator_tx e).1 ∙ open_,
  )

module _ {F Snap : Type 0} ⦃f : F64 F⦄ ⦃tx : Sender (StateSnapshot F) Snap⦄
    ⦃rx : Receiver (StateSnapshot F) Snap⦄ (fifo : IsFifo (StateSnapshot F) Snap) where
  -- what is left in a channel of snapshots after one was taken
  pub rest-IsPublishable :
      (s s' : Snap) (snapshot : StateSnapshot F)
      → rx.recv s ≡ some (snapshot, s')
      → All IsPublishable (tx.queued s)
      → IsPublishable snapshot × All IsPublishable (tx.queued s')
  rest-IsPublishable s s' snapshot e h =
      subst (All IsPublishable) (fifo.recv_first s s' snapshot e) h

module _ {F Raw Snap Par Packet Conn : Type 0} ⦃f : F64 F⦄ ⦃raw_tx : Sender RawEvent Raw⦄
    ⦃raw_rx : Receiver RawEvent Raw⦄ ⦃snap_tx : Sender (StateSnapshot F) Snap⦄
    ⦃snap_rx : Receiver (StateSnapshot F) Snap⦄ ⦃par_tx : Sender (List (MappedParam F)) Par⦄
    ⦃par_rx : Receiver (List (MappedParam F)) Par⦄ (laws : IsIeee F) (P : MappedParam F → Type 0)
    (raw_laws : IsMpsc RawEvent Raw) (snap_laws : IsMpsc (StateSnapshot F) Snap)
    (par_laws : IsMpsc (List (MappedParam F)) Par) (raw_fifo : IsFifo RawEvent Raw)
    (snap_fifo : IsFifo (StateSnapshot F) Snap) (par_fifo : IsFifo (List (MappedParam F)) Par) where
  pub probe-Lives :
      (s : System F Raw Snap Par Packet Conn) (i : ℕ) (e : RawEvent) (now_us : ℕ)
      → IsSound laws P s
      → Lives laws P (probe_sends_to s i e now_us)
  unfolding probe_sends_to
  probe-Lives s i e now_us h = elim (Option-cases (get_elem? s.app.probes_stats i)) [
    | inl q ↦ rw (q, probe_sends_to) tt
    | inr (p, q) ↦
        rw (q, probe_sends_to)
          (record {
            aggregator = record {
              averages = h.aggregator.averages;
              shared = h.aggregator.shared;
              forwarded = h.aggregator.forwarded;
              stored = h.aggregator.stored;
            };
            shown = h.shown;
            tuned = h.tuned;
            queue = h.queue;
            raw_open = send_event-open raw_laws e now_us (counters_of s p) h.raw_open;
            events_open = h.events_open;
            snapshots_open = h.snapshots_open;
            params_open = h.params_open;
          })
  ]

  pub ringbuf-Lives :
      (s : System F Raw Snap Par Packet Conn) (o : Option (RawEvent × Raw))
      → raw_rx.recv s.raw ≡ o
      → IsSound laws P s
      → Lives laws P (ringbuf_round s o)
  unfolding ringbuf_round
  ringbuf-Lives s none e h = tt
  ringbuf-Lives s (some (event, raw')) e h =
      let (r, q, open_) = consume-next raw_laws s.consumer event h.events_open in
      rw q (record {
        aggregator = h.aggregator;
        shown = h.shown;
        tuned = h.tuned;
        queue = h.queue;
        raw_open = (raw_fifo.recv_keeps s.raw raw' event e).1 ∙ h.raw_open;
        events_open = open_;
        snapshots_open = h.snapshots_open;
        params_open = h.params_open;
      })

  pub insertion-Lives :
      (sql : Sqlite F Conn) (s : System F Raw Snap Par Packet Conn) (i : ℕ)
      → IsSound laws P s
      → Lives laws P (insertion_round sql s i)
  unfolding insertion_round
  insertion-Lives sql s i h = elim (Option-cases (get_elem? s.consumer.insertions i)) [
    | inl q ↦ rw (q, insertion_round) tt
    | inr (event, q) ↦
        rw (q, insertion_round)
          (record {
            aggregator = h.aggregator;
            shown = h.shown;
            tuned = h.tuned;
            queue = h.queue;
            raw_open = h.raw_open;
            events_open = h.events_open;
            snapshots_open = h.snapshots_open;
            params_open = h.params_open;
          })
  ]

  -- a round of the aggregator's loop
  pub step-Lives :
      (s : System F Raw Snap Par Packet Conn) (i : Input)
      → IsOpen i
      → IsSound laws P s
      → Lives laws P (after_step s (Aggregator.step s.aggregator i))
  step-Lives s i o h =
      let (a, q, open_) =
        step-GoesOn laws snap_laws s.aggregator i o h.aggregator h.snapshots_open in
      let safe : IsSafe a =
        subst (Holds IsSafe) q (step-IsSafe laws snap_laws snap_laws s.aggregator i h.aggregator) in
      rw q (record {
        aggregator = safe;
        shown = refl;
        tuned = h.tuned;
        queue = h.queue;
        raw_open = h.raw_open;
        events_open = h.events_open;
        snapshots_open = open_;
        params_open = h.params_open;
      })

  pub receiving-Lives :
      (s : System F Raw Snap Par Packet Conn) (o : Option (RawEvent × Raw))
      → raw_rx.recv s.consumer.aggregator_tx ≡ o
      → IsSound laws P s
      → Lives laws P (aggregator_round s o)
  unfolding aggregator_round
  receiving-Lives s none e h = tt
  receiving-Lives s (some (event, tx')) e h =
      step-Lives (record s { consumer = record s.consumer { aggregator_tx = tx' } })
        (Input.received event) tt
        (record {
          aggregator = h.aggregator;
          shown = h.shown;
          tuned = h.tuned;
          queue = h.queue;
          raw_open = h.raw_open;
          events_open =
              (raw_fifo.recv_keeps s.consumer.aggregator_tx tx' event e).1 ∙ h.events_open;
          snapshots_open = h.snapshots_open;
          params_open = h.params_open;
        })
