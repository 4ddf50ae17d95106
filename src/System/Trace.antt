-- ===== src/System/Trace.antt =====
-- What a run of the wired program did, as its events tell it.
use mathlib.Core.List.{append_assoc, append-nil}
use daemon_choir.Base.{
  ℕ, ◌≡◌, refl, ap, ◌∙◌, sym, subst, Option, none, some, Option-cases, inl, inr, List, [], ◌∷◌,
  ◌++◌, get_elem?,
}
use daemon_choir.Float.{F64}
use daemon_choir.Events.{RawEvent}
use daemon_choir.Metrics.{StateSnapshot}
use daemon_choir.Sync.{Sender, Receiver, IsMpsc, IsFifo, TrySend}
use daemon_choir.Sync.Bounded.{Delivers, try_send-Delivers}
use daemon_choir.Probes.{ProbeStats}
use daemon_choir.Probes.Pump.{count_result, send_event}
use daemon_choir.Ringbuf.{after_try_send, consume}
use daemon_choir.Aggregator
use daemon_choir.Aggregator.{Aggregator, Flow, Input}
use daemon_choir.Aggregator.Alone.{
  Sink, sink_sender, alone, taken, taken-append, step-alone, run-snoc,
}
use daemon_choir.Mapping.{MappedParam}
use daemon_choir.Within.{IsWithin, IsWithin-keeps, IsWithin-drops}
use daemon_choir.System.Log.{
  Log, quiet, joined, sent_log, input_log, probe_log, handled_log, received_log,
}
use daemon_choir.System.{
  System, Outcome, waits, goes, dies, counters_of, with_counters, probe_sends_to, after_consume,
  ringbuf_round, after_step, aggregator_round,
}

module _ {F Raw Snap Par Packet Conn : Type 0} ⦃f : F64 F⦄ ⦃raw_tx : Sender RawEvent Raw⦄
    ⦃raw_rx : Receiver RawEvent Raw⦄ ⦃snap_tx : Sender (StateSnapshot F) Snap⦄
    ⦃snap_rx : Receiver (StateSnapshot F) Snap⦄ ⦃par_tx : Sender (List (MappedParam F)) Par⦄
    ⦃par_rx : Receiver (List (MappedParam F)) Par⦄ where
  -- From `start`, the aggregator alone gets to the aggregator of `s` on the inputs of the log; of
  -- the events that were delivered the first were handled and the others are still in the channel;
  -- what the aggregator received or is still to receive was handled before.
  pub record Traced (start : Aggregator F Sink Sink) (l : Log)
      (s : System F Raw Snap Par Packet Conn) : Type 0 where
    pub runs : Aggregator.run start l.inputs ≡ Flow.running (alone s.aggregator)
    pub shown : s.app.current_snapshot ≡ s.aggregator.shared_state
    pub in_order : l.delivered ≡ l.handled ++ raw_tx.queued s.raw
    pub forwarded : IsWithin (taken l.inputs ++ raw_tx.queued s.consumer.aggregator_tx) l.handled

  abbrev pub TracedAfter :
      Aggregator F Sink Sink → Log → Outcome (System F Raw Snap Par Packet Conn) → Type 0
  TracedAfter start l waits = Unit
  TracedAfter start l (goes s) = Traced start l s
  TracedAfter start l (dies task) = Unit

  module _ (start : Aggregator F Sink Sink) (l : Log) where
    -- where neither the aggregator nor the channels before it changed
    pub same-Traced :
        (s t : System F Raw Snap Par Packet Conn)
        → alone t.aggregator ≡ alone s.aggregator
        → t.app.current_snapshot ≡ s.app.current_snapshot
        → t.raw ≡ s.raw
        → t.consumer.aggregator_tx ≡ s.consumer.aggregator_tx
        → Traced start l s
        → Traced start (joined l quiet) t
    same-Traced s t agg snap raw events h =
        rw (append-nil l.inputs, append-nil l.delivered, append-nil l.handled)
          (record {
            runs = h.runs ∙ ap Flow.running (sym agg);
            shown = snap ∙ h.shown ∙ ap (λ a. a.shared_state) (sym agg);
            in_order = rw raw h.in_order;
            forwarded = rw events h.forwarded;
          })

    -- an event that was lost on its way into the probes' channel
    lost-Traced :
        (s : System F Raw Snap Par Packet Conn) (i : ℕ) (p : ProbeStats) (now_us : ℕ) (raw' : Raw)
        → raw_tx.queued raw' ≡ raw_tx.queued s.raw
        → Traced start l s
        → Traced start (joined l (input_log Input.event_lost)) (
            with_counters s i p
              (count_result TrySend.full now_us (record (counters_of s p) { tx = raw' })))
    unfolding count_result Aggregator.step
    lost-Traced s i p now_us raw' q h = record {
      runs = run-snoc start (alone s.aggregator) _ l.inputs Input.event_lost h.runs refl;
      shown = h.shown;
      in_order = rw (append-nil l.delivered, append-nil l.handled, q) h.in_order;
      forwarded =
          rw
            (
              append-nil l.handled,
              taken-append l.inputs (Input.event_lost ∷ []),
              append-nil (taken l.inputs),
            )
            h.forwarded;
    }

    -- what a probe's event leaves, on every result of `try_send`
    sent-Traced :
        (s : System F Raw Snap Par Packet Conn) (i : ℕ) (p : ProbeStats) (e : RawEvent) (now_us : ℕ)
        (t : TrySend) (raw' : Raw)
        → Delivers s.raw e t raw'
        → Traced start l s
        → Traced start
            (joined l (sent_log t e))
            (with_counters s i p (count_result t now_us (record (counters_of s p) { tx = raw' })))
    unfolding count_result
    sent-Traced s i p e now_us TrySend.sent raw' (q, _) h =
        rw (append-nil l.inputs, append-nil l.handled)
          (record {
            runs = h.runs;
            shown = h.shown;
            in_order = rw (q, h.in_order) (append_assoc l.handled (raw_tx.queued s.raw) (e ∷ []));
            forwarded = h.forwarded;
          })
    sent-Traced s i p e now_us TrySend.full raw' (q, _) h = lost-Traced s i p now_us raw' q h
    sent-Traced s i p e now_us TrySend.closed raw' (q, _) h = lost-Traced s i p now_us raw' q h

    pub probe-Traced :
        (raw_laws : IsMpsc RawEvent Raw) (s : System F Raw Snap Par Packet Conn) (i : ℕ)
        (e : RawEvent) (now_us : ℕ)
        → Traced start l s
        → TracedAfter start
            (joined l (probe_log (get_elem? s.app.probes_stats i) (raw_tx.try_send s.raw e).0 e))
            (probe_sends_to s i e now_us)
    unfolding probe_sends_to send_event
    probe-Traced raw_laws s i e now_us h = elim (Option-cases (get_elem? s.app.probes_stats i)) [
      | inl q ↦ rw (q, probe_sends_to) tt
      | inr (p, q) ↦
          rw (q, probe_sends_to)
            (sent-Traced s i p e now_us _ _ (try_send-Delivers raw_laws s.raw e) h)
    ]

    -- what the ring buffer's task leaves, on every result of `try_send`
    handed-Traced :
        (s : System F Raw Snap Par Packet Conn) (e : RawEvent) (raw' tx' : Raw) (t : TrySend)
        → raw_tx.queued s.raw ≡ e ∷ raw_tx.queued raw'
        → Delivers s.consumer.aggregator_tx e t tx'
        → Traced start l s
        → TracedAfter start (joined l (handled_log (some (e, raw')))) (
            after_consume s raw' (
              after_try_send t
                (record { aggregator_tx = tx'; insertions = s.consumer.insertions ++ (e ∷ []) })))
    unfolding after_try_send
    handed-Traced s e raw' tx' TrySend.closed first d h = tt
    handed-Traced s e raw' tx' TrySend.full first (q, _) h =
        rw (append-nil l.inputs, append-nil l.delivered)
          (record {
            runs = h.runs;
            shown = h.shown;
            in_order =
                h.in_order
                ∙ ap (λ r. l.handled ++ r) first
                ∙ sym (append_assoc l.handled (e ∷ []) _);
            forwarded = rw q (IsWithin-drops e h.forwarded);
          })
    handed-Traced s e raw' tx' TrySend.sent first (q, _) h =
        rw (append-nil l.inputs, append-nil l.delivered)
          (record {
            runs = h.runs;
            shown = h.shown;
            in_order =
                h.in_order
                ∙ ap (λ r. l.handled ++ r) first
                ∙ sym (append_assoc l.handled (e ∷ []) _);
            forwarded =
                rw
                  (
                    q,
                    ← append_assoc (taken l.inputs) (raw_tx.queued s.consumer.aggregator_tx)
                        (e ∷ []),
                  )
                  (IsWithin-keeps e h.forwarded);
          })

    pub ringbuf-Traced :
        (raw_laws : IsMpsc RawEvent Raw) (raw_fifo : IsFifo RawEvent Raw)
        (s : System F Raw Snap Par Packet Conn) (o : Option (RawEvent × Raw))
        → raw_rx.recv s.raw ≡ o
        → Traced start l s
        → TracedAfter start (joined l (handled_log o)) (ringbuf_round s o)
    unfolding ringbuf_round consume
    ringbuf-Traced raw_laws raw_fifo s none e h = tt
    ringbuf-Traced raw_laws raw_fifo s (some (event, raw')) e h =
        handed-Traced s event raw' _ _ (raw_fifo.recv_first s.raw raw' event e)
          (try_send-Delivers raw_laws s.consumer.aggregator_tx event) h

    -- a round of the aggregator that takes no event
    stepped-Traced :
        (s : System F Raw Snap Par Packet Conn) (i : Input) (o : Flow (Aggregator F Snap Snap))
        → Aggregator.step s.aggregator i ≡ o
        → taken (i ∷ []) ≡ []
        → Traced start l s
        → TracedAfter start (joined l (input_log i)) (after_step s o)
    stepped-Traced s i (Flow.running a) e silent h = record {
      runs =
          run-snoc start (alone s.aggregator) (alone a) l.inputs i h.runs
            (step-alone s.aggregator a i e);
      shown = refl;
      in_order = rw (append-nil l.delivered, append-nil l.handled) h.in_order;
      forwarded =
          rw
            (
              append-nil l.handled,
              taken-append l.inputs (i ∷ []),
              silent,
              append-nil (taken l.inputs),
            )
            h.forwarded;
    }
    stepped-Traced s i (Flow.stopped a) e silent h = tt
    stepped-Traced s i Flow.panicked e silent h = tt

    pub tick-Traced :
        (s : System F Raw Snap Par Packet Conn) (now_us : ℕ)
        → Traced start l s
        → TracedAfter start
            (joined l (input_log (Input.tick now_us)))
            (after_step s (Aggregator.step s.aggregator (Input.tick now_us)))
    tick-Traced s now_us h = stepped-Traced s (Input.tick now_us) _ refl refl h

    pub receiving-Traced :
        (raw_fifo : IsFifo RawEvent Raw) (s : System F Raw Snap Par Packet Conn)
        (o : Option (RawEvent × Raw))
        → raw_rx.recv s.consumer.aggregator_tx ≡ o
        → Traced start l s
        → TracedAfter start (joined l (received_log o)) (aggregator_round s o)
    unfolding aggregator_round Aggregator.step
    receiving-Traced raw_fifo s none e h = tt
    receiving-Traced raw_fifo s (some (event, tx')) e h = record {
      runs = run-snoc start (alone s.aggregator) _ l.inputs (Input.received event) h.runs refl;
      shown = refl;
      in_order = rw (append-nil l.delivered, append-nil l.handled) h.in_order;
      forwarded =
          rw
            (
              append-nil l.handled,
              taken-append l.inputs (Input.received event ∷ []),
              append_assoc (taken l.inputs) (event ∷ []) (raw_tx.queued tx'),
            )
            (subst (λ r. IsWithin (taken l.inputs ++ r) l.handled)
              (raw_fifo.recv_first s.consumer.aggregator_tx tx' event e) h.forwarded);
    }
