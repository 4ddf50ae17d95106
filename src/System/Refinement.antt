-- ===== src/System/Refinement.antt =====
-- The wired program refines its aggregator alone.
use daemon_choir.Base.{
  ◌==◌, ℕ, ◌≡◌, refl, sym, subst, Bool, Option, none, some, Option-cases, inl, inr, List, [], ◌++◌,
  get_elem?,
}
use daemon_choir.Float.{F64}
use daemon_choir.Config.{Config, MappingRule}
use daemon_choir.Events.{RawEvent}
use daemon_choir.Metrics.{StateSnapshot}
use daemon_choir.Sync.{RwLock, Sender, Receiver, IsMpsc, IsFifo}
use daemon_choir.Probes
use daemon_choir.Probes.{Aya, start}
use daemon_choir.Aggregator
use daemon_choir.Aggregator.{Aggregator, Flow, Input}
use daemon_choir.Aggregator.Alone.{Sink, sink, sink_sender, alone, taken}
use daemon_choir.Mapping.{MappedParam, MappingEngine, Next, map_snapshot}
use daemon_choir.Osc.{World}
use daemon_choir.Db.{Sqlite}
use daemon_choir.Api.{serve}
use daemon_choir.Api.Kept.{route-current_snapshot}
use daemon_choir.System.Start.{Sockets, first_snapshot, launched, started, wired, launch}
use daemon_choir.System.Launched.{launched-eq}
use daemon_choir.System.Safety.{performs, Reach, here, then_step}
use daemon_choir.System.Log.{Log, quiet, joined, round_log, run_log}
use daemon_choir.Within.{IsWithin, done}
use daemon_choir.System.Trace.{
  Traced, TracedAfter, probe-Traced, ringbuf-Traced, tick-Traced, receiving-Traced, same-Traced,
}
use daemon_choir.System.{
  System, Action, probe_sends, ringbuf_receives, insertion_runs, aggregator_receives,
  aggregator_ticks, snapshot_stored, mapping_receives, osc_receives, api_serves, purge_runs,
  perform, insertion_round, storing_round, mapping_round, after_mapping, osc_round, engine_of,
}

module _ {F Raw Snap Par Packet Conn : Type 0} ⦃f : F64 F⦄ ⦃raw_tx : Sender RawEvent Raw⦄
    ⦃raw_rx : Receiver RawEvent Raw⦄ ⦃snap_tx : Sender (StateSnapshot F) Snap⦄
    ⦃snap_rx : Receiver (StateSnapshot F) Snap⦄ ⦃par_tx : Sender (List (MappedParam F)) Par⦄
    ⦃par_rx : Receiver (List (MappedParam F)) Par⦄ (a0 : Aggregator F Sink Sink) where
  insertion-Traced :
      (l : Log) (sql : Sqlite F Conn) (s : System F Raw Snap Par Packet Conn) (i : ℕ)
      → Traced a0 l s
      → TracedAfter a0 (joined l quiet) (insertion_round sql s i)
  unfolding insertion_round
  insertion-Traced l sql s i h = elim (Option-cases (get_elem? s.consumer.insertions i)) [
    | inl q ↦ rw (q, insertion_round) tt
    | inr (event, q) ↦ rw (q, insertion_round) (same-Traced a0 l s _ refl refl refl refl h)
  ]

  storing-Traced :
      (l : Log) (sql : Sqlite F Conn) (s : System F Raw Snap Par Packet Conn) (d : Option Snap)
      → Traced a0 l s
      → TracedAfter a0 (joined l quiet) (storing_round sql s d)
  unfolding storing_round
  storing-Traced l sql s none h = tt
  storing-Traced l sql s (some db_tx) h = elim (Option-cases (snap_rx.recv db_tx)) [
    | inl q ↦ rw (q, storing_round) tt
    | inr ((snapshot, db_tx'), q) ↦
        rw (q, storing_round) (same-Traced a0 l s _ refl refl refl refl h)
  ]

  mapped-Traced :
      (l : Log) (s : System F Raw Snap Par Packet Conn) (tx' : Snap)
      (n : Next (MappingEngine F Par))
      → Traced a0 l s
      → TracedAfter a0 (joined l quiet) (after_mapping s tx' n)
  mapped-Traced l s tx' (Next.goes_on m) h = same-Traced a0 l s _ refl refl refl refl h
  mapped-Traced l s tx' (Next.exits m) h = tt
  mapped-Traced l s tx' Next.panics h = tt

  mapping-Traced :
      (l : Log) (s : System F Raw Snap Par Packet Conn) (o : Option (StateSnapshot F × Snap))
      → Traced a0 l s
      → TracedAfter a0 (joined l quiet) (mapping_round s o)
  unfolding mapping_round
  mapping-Traced l s none h = tt
  mapping-Traced l s (some (snapshot, tx')) h =
      mapped-Traced l s tx' (map_snapshot (engine_of s) snapshot) h

  osc-Traced :
      (l : Log) (s : System F Raw Snap Par Packet Conn) (w : World F Packet)
      (o : Option (List (MappedParam F) × Par))
      → Traced a0 l s
      → TracedAfter a0 (joined l quiet) (osc_round s w o)
  unfolding osc_round
  osc-Traced l s w none h = tt
  osc-Traced l s w (some (ps, params')) h = same-Traced a0 l s _ refl refl refl refl h

  module _ (raw_laws : IsMpsc RawEvent Raw) (raw_fifo : IsFifo RawEvent Raw)
      (sql : Sqlite F Conn) where
    perform-Traced :
        (l : Log) (s : System F Raw Snap Par Packet Conn) (a : Action F Packet)
        → Traced a0 l s
        → TracedAfter a0 (joined l (round_log s a)) (perform sql s a)
    unfolding perform serve
    perform-Traced l s (probe_sends i e now_us) h = probe-Traced a0 l raw_laws s i e now_us h
    perform-Traced l s ringbuf_receives h = ringbuf-Traced a0 l raw_laws raw_fifo s _ refl h
    perform-Traced l s (insertion_runs i) h = insertion-Traced l sql s i h
    perform-Traced l s aggregator_receives h = receiving-Traced a0 l raw_fifo s _ refl h
    perform-Traced l s (aggregator_ticks now_us) h = tick-Traced a0 l s now_us h
    perform-Traced l s snapshot_stored h = storing-Traced l sql s _ h
    perform-Traced l s mapping_receives h = mapping-Traced l s _ h
    perform-Traced l s (osc_receives w) h = osc-Traced l s w _ h
    perform-Traced l s (api_serves (request, elapsed_ms)) h =
        same-Traced a0 l s _ refl (route-current_snapshot sql request s.app) refl refl h
    perform-Traced l s (purge_runs now_us) h = same-Traced a0 l s _ refl refl refl refl h

    Reach-Traced :
        (Good : MappingRule F → Type 0) {s t : System F Raw Snap Par Packet Conn}
        → Traced a0 quiet s
        → (r : Reach sql Good s t) → Traced a0 (run_log r) t
    Reach-Traced Good h here = h
    Reach-Traced Good h (then_step {t} r (performs a ok e)) =
        subst (TracedAfter a0 (joined (run_log r) (round_log t a))) e
          (perform-Traced (run_log r) t a (Reach-Traced Good h r))

-- the aggregator that the configuration asks for, without its channels
abbrev pub configured : {F : Type 0} ⦃f : F64 F⦄ → Config F → Aggregator F Sink Sink
configured config =
    Aggregator.new sink none config.daemon.window_ms (RwLock.healthy (first_snapshot config)) 0 0

module _ {F Raw Snap Par Packet Conn Bpf Program : Type 0} ⦃f : F64 F⦄
    ⦃raw_tx : Sender RawEvent Raw⦄ ⦃raw_rx : Receiver RawEvent Raw⦄
    ⦃snap_tx : Sender (StateSnapshot F) Snap⦄ ⦃snap_rx : Receiver (StateSnapshot F) Snap⦄
    ⦃par_tx : Sender (List (MappedParam F)) Par⦄ ⦃par_rx : Receiver (List (MappedParam F)) Par⦄
    (raw_laws : IsMpsc RawEvent Raw) (raw_fifo : IsFifo RawEvent Raw) (sql : Sqlite F Conn)
    (aya : Aya Bpf Program) where
  wired-Traced :
      (config : Config F) (simulate : Bool) (opened : Option Conn)
      → Traced {Raw = Raw} {Snap = Snap} {Par = Par}
          (configured config)
          quiet
          (wired Packet sql aya config simulate opened)
  unfolding wired started start Probes.new Aggregator.new Aggregator.run
  wired-Traced config simulate opened = record {
    runs = refl;
    shown = refl;
    in_order = sym (raw_fifo.channel_empty 2048);
    forwarded = subst (λ l. IsWithin l []) (sym (raw_fifo.channel_empty 2048)) done;
  }

  launched-Traced :
      (config : Config F) (simulate : Bool) (opened : Option Conn) (bind : Sockets)
      {s : System F Raw Snap Par Packet Conn}
      → launch Packet sql aya config simulate opened bind ≡ launched s
      → Traced (configured config) quiet s
  unfolding launch
  launched-Traced config simulate opened bind {s} e =
      subst (Traced (configured config) quiet)
        (launched-eq (config.daemon.control_api_port == 0) bind.udp
          (bind.tcp config.daemon.control_api_port) (wired Packet sql aya config simulate opened) s
          e)
        (wired-Traced config simulate opened)

  -- For channels that behave as documented: whatever the order of the tasks' rounds since the launch, the
  -- aggregator's state but for its channels is what the aggregator of the configuration, alone, has
  -- after the ticks, the losses and the events of the run in their order, and the API shows the
  -- snapshot of that aggregator. The events that the probes got into their channel are those that
  -- the ring buffer's task took, followed by those still in it; and what the aggregator took or will
  -- take from its own channel are events that the ring buffer's task took, in the same order, none twice.
  pub launch-refines :
      (Good : MappingRule F → Type 0) (config : Config F) (simulate : Bool) (opened : Option Conn)
      (bind : Sockets) {s t : System F Raw Snap Par Packet Conn}
      → launch Packet sql aya config simulate opened bind ≡ launched s
      → (r : Reach sql Good s t)
      → (Aggregator.run (configured config) (run_log r).inputs ≡ Flow.running (alone t.aggregator))
        × (t.app.current_snapshot ≡ (alone t.aggregator).shared_state)
        × ((run_log r).delivered ≡ (run_log r).handled ++ raw_tx.queued t.raw)
        × IsWithin
            (taken (run_log r).inputs ++ raw_tx.queued t.consumer.aggregator_tx)
            (run_log r).handled
  launch-refines Good config simulate opened bind e r =
      let h =
        Reach-Traced (configured config) raw_laws raw_fifo sql Good
          (launched-Traced config simulate opened bind e) r in
      (h.runs, h.shown, h.in_order, h.forwarded)
