-- ===== src/System/Rounds.antt =====
-- Each task takes what is next in its channel.
use daemon_choir.Base.{◌≡◌, refl, ap, ◌∙◌, some, List, ◌∷◌}
use daemon_choir.Float.{F64, IsIeee}
use daemon_choir.Events.{RawEvent}
use daemon_choir.Metrics.{StateSnapshot}
use daemon_choir.Sync.{Sender, Receiver, IsMpsc, IsFifo}
use daemon_choir.Aggregator
use daemon_choir.Aggregator.{Aggregator, Input}
use daemon_choir.Mapping.{MappedParam, Next, map_snapshot}
use daemon_choir.Osc.{World}
use daemon_choir.Db.{Sqlite}
use daemon_choir.System.Engine.{map_snapshot-MapsOn}
use daemon_choir.System.Invariant.{IsSound}
use daemon_choir.System.Tasks.{consume-next, rest-IsPublishable}
use daemon_choir.System.{
  System, goes, ringbuf_receives, aggregator_receives, mapping_receives, osc_receives, perform,
  ringbuf_round, aggregator_round, mapping_round, osc_round, after_mapping, after_consume,
  engine_of,
}

-- The first of the values that wait in a channel is received, and the others are left.
module _ {A S : Type 0} ⦃c : Sender A S⦄ ⦃r : Receiver A S⦄ (fifo : IsFifo A S) where
  received :
      (s : S) (a : A) (l : List A)
      → c.queued s ≡ a ∷ l
      → (s' : S) × (r.recv s ≡ some (a, s')) × (c.queued s' ≡ l)
  received s a l e =
      let (s', q) = fifo.recv_next s a l e in let first = fifo.recv_first s s' a q in (s', q, cc)

module _ {F Raw Snap Par Packet Conn : Type 0} ⦃f : F64 F⦄ ⦃raw_tx : Sender RawEvent Raw⦄
    ⦃raw_rx : Receiver RawEvent Raw⦄ ⦃snap_tx : Sender (StateSnapshot F) Snap⦄
    ⦃snap_rx : Receiver (StateSnapshot F) Snap⦄ ⦃par_tx : Sender (List (MappedParam F)) Par⦄
    ⦃par_rx : Receiver (List (MappedParam F)) Par⦄ (laws : IsIeee F) (P : MappedParam F → Type 0)
    (raw_laws : IsMpsc RawEvent Raw) (snap_laws : IsMpsc (StateSnapshot F) Snap)
    (par_laws : IsMpsc (List (MappedParam F)) Par) (raw_fifo : IsFifo RawEvent Raw)
    (snap_fifo : IsFifo (StateSnapshot F) Snap) (par_fifo : IsFifo (List (MappedParam F)) Par)
    (sql : Sqlite F Conn) where
  pub ringbuf_goes :
      (s : System F Raw Snap Par Packet Conn) (e : RawEvent) (l : List RawEvent)
      → IsSound laws P s
      → raw_tx.queued s.raw ≡ e ∷ l
      → (t : System F Raw Snap Par Packet Conn) × (perform sql s ringbuf_receives ≡ goes t)
        × (raw_tx.queued t.raw ≡ l)
  unfolding perform ringbuf_round
  ringbuf_goes s e l h q =
      let (raw', got, rest) = received raw_fifo s.raw e l q in
      let (r, next, open_) = consume-next raw_laws s.consumer e h.events_open in
      (
        record s { raw = raw'; consumer = r },
        ap (ringbuf_round s) got ∙ ap (after_consume s raw') next,
        rest,
      )

  pub aggregator_goes :
      (s : System F Raw Snap Par Packet Conn) (e : RawEvent) (l : List RawEvent)
      → raw_tx.queued s.consumer.aggregator_tx ≡ e ∷ l
      → (t : System F Raw Snap Par Packet Conn) × (perform sql s aggregator_receives ≡ goes t)
        × (raw_tx.queued t.consumer.aggregator_tx ≡ l)
        × (t.raw ≡ s.raw)
  unfolding perform aggregator_round Aggregator.step
  aggregator_goes s e l q =
      let (tx', got, rest) = received raw_fifo s.consumer.aggregator_tx e l q in
      (_, ap (aggregator_round s) got, rest, refl)

  pub mapping_goes :
      (s : System F Raw Snap Par Packet Conn) (e : StateSnapshot F) (l : List (StateSnapshot F))
      → IsSound laws P s
      → snap_tx.queued s.aggregator.tx ≡ e ∷ l
      → (t : System F Raw Snap Par Packet Conn) × (perform sql s mapping_receives ≡ goes t)
        × (snap_tx.queued t.aggregator.tx ≡ l)
        × (t.raw ≡ s.raw)
        × (t.consumer ≡ s.consumer)
  unfolding perform mapping_round
  mapping_goes s e l h q =
      let (tx', got, rest) = received snap_fifo s.aggregator.tx e l q in
      let (first, others) =
        rest-IsPublishable snap_fifo s.aggregator.tx tx' e got h.aggregator.forwarded in
      let (m, next, on) =
        map_snapshot-MapsOn laws P par_laws h.tuned.cfg.mapping s.params e first h.tuned.good
          h.queue h.params_open in
      let goes_on : map_snapshot (engine_of s) e ≡ Next.goes_on m =
        ap (λ r. map_snapshot (record { tx = s.params; rules = r }) e) h.tuned.maps ∙ next in
      (_, ap (mapping_round s) got ∙ ap (after_mapping s tx') goes_on, rest, refl, refl)

  pub osc_goes :
      (w : World F Packet) (s : System F Raw Snap Par Packet Conn) (ps : List (MappedParam F))
      (l : List (List (MappedParam F)))
      → par_tx.queued s.params ≡ ps ∷ l
      → (t : System F Raw Snap Par Packet Conn) × (perform sql s (osc_receives w) ≡ goes t)
        × (par_tx.queued t.params ≡ l)
        × (t.raw ≡ s.raw)
        × (t.consumer ≡ s.consumer)
        × (t.aggregator ≡ s.aggregator)
  unfolding perform osc_round
  osc_goes w s ps l q =
      let (params', got, rest) = received par_fifo s.params ps l q in
      (_, ap (osc_round s w) got, rest, refl, refl, refl)
