-- ===== src/System/Delivery.antt =====
-- From the aggregator to the OSC task, what the wired program takes is what it made, in order.
use daemon_choir.Base.{
  ℕ, ◌≡◌, refl, sym, subst, Bool, Option, none, some, Option-cases, inl, inr, List, [], ◌++◌,
  get_elem?, ◌==◌,
}
use daemon_choir.Float.{F64}
use daemon_choir.Config.{Config, MappingRule}
use daemon_choir.Events.{RawEvent}
use daemon_choir.Metrics.{StateSnapshot}
use daemon_choir.Sync.{Sender, Receiver, IsMpsc, IsFifo}
use daemon_choir.Probes
use daemon_choir.Probes.{Aya, start}
use daemon_choir.Ringbuf.{Consumed, consume}
use daemon_choir.Aggregator
use daemon_choir.Mapping.{MappedParam}
use daemon_choir.Db.{Sqlite}
use daemon_choir.Api.{serve}
use daemon_choir.System.Start.{Sockets, launched, started, wired, launch}
use daemon_choir.System.Launched.{launched-eq}
use daemon_choir.System.Safety.{performs, Reach, here, then_step}
use daemon_choir.Within.{IsWithin, done}
use daemon_choir.System.OutLog.{
  OutLog, silent, followed, snapshots_of, frames_of, out_log, run_out_log,
}
use daemon_choir.System.Outbound.{
  Conveyed, ConveyedAfter, same-Conveyed, tick-Conveyed, mapping-Conveyed, osc-Conveyed,
}
use daemon_choir.System.{
  System, Action, probe_sends, ringbuf_receives, insertion_runs, aggregator_receives,
  aggregator_ticks, snapshot_stored, mapping_receives, osc_receives, api_serves, purge_runs,
  perform, probe_sends_to, after_consume, ringbuf_round, insertion_round, aggregator_round,
  storing_round,
}

module _ {F Raw Snap Par Packet Conn : Type 0} ⦃f : F64 F⦄ ⦃raw_tx : Sender RawEvent Raw⦄
    ⦃raw_rx : Receiver RawEvent Raw⦄ ⦃snap_tx : Sender (StateSnapshot F) Snap⦄
    ⦃snap_rx : Receiver (StateSnapshot F) Snap⦄ ⦃par_tx : Sender (List (MappedParam F)) Par⦄
    ⦃par_rx : Receiver (List (MappedParam F)) Par⦄ (sql : Sqlite F Conn) where
  module _ (l : OutLog F) (s : System F Raw Snap Par Packet Conn) (h : Conveyed l s) where
    probe-Conveyed :
        (i : ℕ) (e : RawEvent) (now_us : ℕ)
        → ConveyedAfter (followed l silent) (probe_sends_to s i e now_us)
    unfolding probe_sends_to
    probe-Conveyed i e now_us = elim (Option-cases (get_elem? s.app.probes_stats i)) [
      | inl q ↦ rw (q, probe_sends_to) tt
      | inr (p, q) ↦ rw (q, probe_sends_to) (same-Conveyed l s _ refl refl h)
    ]

    consumed-Conveyed :
        (raw' : Raw) (c : Consumed Raw) → ConveyedAfter (followed l silent) (after_consume s raw' c)
    consumed-Conveyed raw' (Consumed.next c) = same-Conveyed l s _ refl refl h
    consumed-Conveyed raw' (Consumed.exited c) = tt

    ringbuf-Conveyed :
        (o : Option (RawEvent × Raw)) → ConveyedAfter (followed l silent) (ringbuf_round s o)
    unfolding ringbuf_round
    ringbuf-Conveyed none = tt
    ringbuf-Conveyed (some (event, raw')) = consumed-Conveyed raw' (consume s.consumer event)

    insertion-Conveyed : (i : ℕ) → ConveyedAfter (followed l silent) (insertion_round sql s i)
    unfolding insertion_round
    insertion-Conveyed i = elim (Option-cases (get_elem? s.consumer.insertions i)) [
      | inl q ↦ rw (q, insertion_round) tt
      | inr (event, q) ↦ rw (q, insertion_round) (same-Conveyed l s _ refl refl h)
    ]

    receiving-Conveyed :
        (o : Option (RawEvent × Raw)) → ConveyedAfter (followed l silent) (aggregator_round s o)
    unfolding aggregator_round Aggregator.step
    receiving-Conveyed none = tt
    receiving-Conveyed (some (event, tx')) = same-Conveyed l s _ refl refl h

    storing-Conveyed : (d : Option Snap) → ConveyedAfter (followed l silent) (storing_round sql s d)
    unfolding storing_round
    storing-Conveyed none = tt
    storing-Conveyed (some db_tx) = elim (Option-cases (snap_rx.recv db_tx)) [
      | inl q ↦ rw (q, storing_round) tt
      | inr ((snapshot, db_tx'), q) ↦ rw (q, storing_round) (same-Conveyed l s _ refl refl h)
    ]

  module _ (snap_laws : IsMpsc (StateSnapshot F) Snap)
      (par_laws : IsMpsc (List (MappedParam F)) Par) (snap_fifo : IsFifo (StateSnapshot F) Snap)
      (par_fifo : IsFifo (List (MappedParam F)) Par) where
    perform-Conveyed :
        (l : OutLog F) (s : System F Raw Snap Par Packet Conn) (a : Action F Packet)
        → Conveyed l s
        → ConveyedAfter (followed l (out_log s a)) (perform sql s a)
    unfolding perform serve Aggregator.step
    perform-Conveyed l s (probe_sends i e now_us) h = probe-Conveyed l s h i e now_us
    perform-Conveyed l s ringbuf_receives h = ringbuf-Conveyed l s h _
    perform-Conveyed l s (insertion_runs i) h = insertion-Conveyed l s h i
    perform-Conveyed l s aggregator_receives h = receiving-Conveyed l s h _
    perform-Conveyed l s (aggregator_ticks now_us) h = tick-Conveyed l snap_laws s now_us _ refl h
    perform-Conveyed l s snapshot_stored h = storing-Conveyed l s h _
    perform-Conveyed l s mapping_receives h = mapping-Conveyed l par_laws snap_fifo s _ refl h
    perform-Conveyed l s (osc_receives w) h = osc-Conveyed l par_fifo s w _ refl h
    perform-Conveyed l s (api_serves (request, elapsed_ms)) h = same-Conveyed l s _ refl refl h
    perform-Conveyed l s (purge_runs now_us) h = same-Conveyed l s _ refl refl h

    Reach-Conveyed :
        (Good : MappingRule F → Type 0) {s t : System F Raw Snap Par Packet Conn}
        → Conveyed silent s
        → (r : Reach sql Good s t) → Conveyed (run_out_log r) t
    Reach-Conveyed Good h here = h
    Reach-Conveyed Good h (then_step {t} r (performs a ok e)) =
        subst (ConveyedAfter (followed (run_out_log r) (out_log t a))) e
          (perform-Conveyed (run_out_log r) t a (Reach-Conveyed Good h r))

module _ {F Raw Snap Par Packet Conn Bpf Program : Type 0} ⦃f : F64 F⦄
    ⦃raw_tx : Sender RawEvent Raw⦄ ⦃raw_rx : Receiver RawEvent Raw⦄
    ⦃snap_tx : Sender (StateSnapshot F) Snap⦄ ⦃snap_rx : Receiver (StateSnapshot F) Snap⦄
    ⦃par_tx : Sender (List (MappedParam F)) Par⦄ ⦃par_rx : Receiver (List (MappedParam F)) Par⦄
    (snap_laws : IsMpsc (StateSnapshot F) Snap) (par_laws : IsMpsc (List (MappedParam F)) Par)
    (snap_fifo : IsFifo (StateSnapshot F) Snap) (par_fifo : IsFifo (List (MappedParam F)) Par)
    (sql : Sqlite F Conn) (aya : Aya Bpf Program) where
  wired-Conveyed :
      (config : Config F) (simulate : Bool) (opened : Option Conn)
      → Conveyed {Raw = Raw} {Snap = Snap} {Par = Par} silent
          (wired Packet sql aya config simulate opened)
  unfolding wired started start Probes.new Aggregator.new
  wired-Conveyed config simulate opened = record {
    to_mapping = subst (λ l. IsWithin l []) (sym (snap_fifo.channel_empty 256)) done;
    to_osc = subst (λ l. IsWithin l []) (sym (par_fifo.channel_empty 256)) done;
  }

  launched-Conveyed :
      (config : Config F) (simulate : Bool) (opened : Option Conn) (bind : Sockets)
      {s : System F Raw Snap Par Packet Conn}
      → launch Packet sql aya config simulate opened bind ≡ launched s
      → Conveyed silent s
  unfolding launch
  launched-Conveyed config simulate opened bind {s} e =
      subst (Conveyed silent)
        (launched-eq (config.daemon.control_api_port == 0) bind.udp
          (bind.tcp config.daemon.control_api_port) (wired Packet sql aya config simulate opened) s
          e)
        (wired-Conveyed config simulate opened)

  -- For channels that behave as documented: whatever the order of the tasks' rounds since the launch, the
  -- snapshots that the mapping engine took, followed by those it is still to take, are ones that ticks
  -- built, in the same order and none twice; and the frames that the OSC task took, followed by those
  -- it is still to take, are ones that the rules, as they were when the mapping engine took a snapshot,
  -- make of it, in the same order and none twice.
  pub launch-delivers :
      (Good : MappingRule F → Type 0) (config : Config F) (simulate : Bool) (opened : Option Conn)
      (bind : Sockets) {s t : System F Raw Snap Par Packet Conn}
      → launch Packet sql aya config simulate opened bind ≡ launched s
      → (r : Reach sql Good s t)
      → IsWithin
          (snapshots_of (run_out_log r).mapped ++ snap_tx.queued t.aggregator.tx)
          (run_out_log r).snapshots
        × IsWithin
            ((run_out_log r).dispatched ++ par_tx.queued t.params)
            (frames_of (run_out_log r).mapped)
  launch-delivers Good config simulate opened bind e r =
      let h =
        Reach-Conveyed sql snap_laws par_laws snap_fifo par_fifo Good
          (launched-Conveyed config simulate opened bind e) r in
      (h.to_mapping, h.to_osc)
