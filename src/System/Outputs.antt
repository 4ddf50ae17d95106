-- ===== src/System/Outputs.antt =====
-- The rounds behind the aggregator: the database, the mapping engine and the OSC task.
use daemon_choir.Base.{◌≡◌, ap, ◌∙◌, subst, Option, none, some, Option-cases, inl, inr, List, All}
use daemon_choir.Float.{F64, IsIeee}
use daemon_choir.Events.{RawEvent}
use daemon_choir.Metrics.{StateSnapshot}
use daemon_choir.Sync.{Sender, Receiver, IsMpsc, IsFifo}
use daemon_choir.Aggregator.Invariant.{AllStored}
use daemon_choir.Mapping.{MappedParam, Next, map_snapshot}
use daemon_choir.Osc.{World}
use daemon_choir.Db.{Sqlite}
use daemon_choir.System.Engine.{map_snapshot-MapsOn}
use daemon_choir.System.Invariant.{IsSound, Lives}
use daemon_choir.System.{System, storing_round, mapping_round, osc_round, engine_of}
use daemon_choir.System.Tasks.{rest-IsPublishable}

module _ {F Raw Snap Par Packet Conn : Type 0} ⦃f : F64 F⦄ ⦃raw_tx : Sender RawEvent Raw⦄
    ⦃raw_rx : Receiver RawEvent Raw⦄ ⦃snap_tx : Sender (StateSnapshot F) Snap⦄
    ⦃snap_rx : Receiver (StateSnapshot F) Snap⦄ ⦃par_tx : Sender (List (MappedParam F)) Par⦄
    ⦃par_rx : Receiver (List (MappedParam F)) Par⦄ (laws : IsIeee F) (P : MappedParam F → Type 0)
    (raw_laws : IsMpsc RawEvent Raw) (snap_laws : IsMpsc (StateSnapshot F) Snap)
    (par_laws : IsMpsc (List (MappedParam F)) Par) (raw_fifo : IsFifo RawEvent Raw)
    (snap_fifo : IsFifo (StateSnapshot F) Snap) (par_fifo : IsFifo (List (MappedParam F)) Par) where
  pub storing-Lives :
      (sql : Sqlite F Conn) (s : System F Raw Snap Par Packet Conn) (d : Option Snap)
      → s.aggregator.db_tx ≡ d
      → IsSound laws P s
      → Lives laws P (storing_round sql s d)
  unfolding storing_round
  storing-Lives sql s none e h = tt
  storing-Lives sql s (some db_tx) e h = elim (Option-cases (snap_rx.recv db_tx)) [
    | inl q ↦ rw (q, storing_round) tt
    | inr ((snapshot, db_tx'), q) ↦
        let stored : AllStored F (some db_tx) = subst (AllStored F) e h.aggregator.stored in
        rw (q, storing_round)
          (record {
            aggregator = record {
              averages = h.aggregator.averages;
              shared = h.aggregator.shared;
              forwarded = h.aggregator.forwarded;
              stored = (rest-IsPublishable snap_fifo db_tx db_tx' snapshot q stored).1;
            };
            shown = h.shown;
            tuned = h.tuned;
            queue = h.queue;
            raw_open = h.raw_open;
            events_open = h.events_open;
            snapshots_open = h.snapshots_open;
            params_open = h.params_open;
          })
  ]

  pub mapping-Lives :
      (s : System F Raw Snap Par Packet Conn) (o : Option (StateSnapshot F × Snap))
      → snap_rx.recv s.aggregator.tx ≡ o
      → IsSound laws P s
      → Lives laws P (mapping_round s o)
  unfolding mapping_round
  mapping-Lives s none e h = tt
  mapping-Lives s (some (snapshot, tx')) e h =
      let (first, rest) =
        rest-IsPublishable snap_fifo s.aggregator.tx tx' snapshot e h.aggregator.forwarded in
      let (m, q, on) =
        map_snapshot-MapsOn laws P par_laws h.tuned.cfg.mapping s.params snapshot first h.tuned.good
          h.queue h.params_open in
      let goes_on : map_snapshot (engine_of s) snapshot ≡ Next.goes_on m =
        ap (λ r. map_snapshot (record { tx = s.params; rules = r }) snapshot) h.tuned.maps ∙ q in
      rw goes_on (record {
        aggregator = record {
          averages = h.aggregator.averages;
          shared = h.aggregator.shared;
          forwarded = rest;
          stored = h.aggregator.stored;
        };
        shown = h.shown;
        tuned = h.tuned;
        queue = on.queue;
        raw_open = h.raw_open;
        events_open = h.events_open;
        snapshots_open = (snap_fifo.recv_keeps s.aggregator.tx tx' snapshot e).1 ∙ h.snapshots_open;
        params_open = on.alive;
      })

  pub osc-Lives :
      (s : System F Raw Snap Par Packet Conn) (w : World F Packet)
      (o : Option (List (MappedParam F) × Par))
      → par_rx.recv s.params ≡ o
      → IsSound laws P s
      → Lives laws P (osc_round s w o)
  unfolding osc_round
  osc-Lives s w none e h = tt
  osc-Lives s w (some (ps, params')) e h = record {
    aggregator = h.aggregator;
    shown = h.shown;
    tuned = h.tuned;
    queue = (subst (All (All P)) (par_fifo.recv_first s.params params' ps e) h.queue).1;
    raw_open = h.raw_open;
    events_open = h.events_open;
    snapshots_open = h.snapshots_open;
    params_open = (par_fifo.recv_keeps s.params params' ps e).1 ∙ h.params_open;
  }
