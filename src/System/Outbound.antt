-- ===== src/System/Outbound.antt =====
-- What the mapping engine and the OSC task take of what the ticks build, followed round by round.
use mathlib.Core.List.{append_assoc, append-nil}
use daemon_choir.Base.{
  ℕ, ◌≡◌, refl, subst, Option, none, some, Option-cases, inl, inr, List, [], ◌∷◌, ◌++◌,
}
use daemon_choir.Float.{F64}
use daemon_choir.Config.{MappingRule}
use daemon_choir.Events.{RawEvent}
use daemon_choir.Metrics.{StateSnapshot}
use daemon_choir.Sync.{RwLock, Sender, Receiver, IsMpsc, IsFifo, TrySend}
use daemon_choir.Sync.Bounded.{Delivers, try_send-Delivers, try_send-queued}
use daemon_choir.Aggregator.{Aggregator, Flow, handle_tick}
use daemon_choir.Aggregator.Effects.{handle_tick-Ticked}
use daemon_choir.Mapping.{MappedParam, map_rules, after_send, map_snapshot}
use daemon_choir.System.OutLog.{
  Taken, OutLog, silent, followed, snapshots_of, snapshots_of-append, frame_of, frames_of,
  frames_of-append, tick_log, mapping_log, osc_log,
}
use daemon_choir.Within.{IsWithin, IsWithin-keeps, IsWithin-drops}
use daemon_choir.System.{
  System, Outcome, waits, goes, dies, after_step, after_mapping, mapping_round, osc_round,
}
use daemon_choir.Osc.{World}

module _ {F Raw Snap Par Packet Conn : Type 0} ⦃f : F64 F⦄ ⦃raw_tx : Sender RawEvent Raw⦄
    ⦃raw_rx : Receiver RawEvent Raw⦄ ⦃snap_tx : Sender (StateSnapshot F) Snap⦄
    ⦃snap_rx : Receiver (StateSnapshot F) Snap⦄ ⦃par_tx : Sender (List (MappedParam F)) Par⦄
    ⦃par_rx : Receiver (List (MappedParam F)) Par⦄ where
  -- What the mapping engine took or will take is among what was built, and what the OSC task took or
  -- will take is among the frames made of what the mapping engine took, in the same order.
  pub record Conveyed (l : OutLog F) (s : System F Raw Snap Par Packet Conn) : Type 0 where
    pub to_mapping : IsWithin (snapshots_of l.mapped ++ snap_tx.queued s.aggregator.tx) l.snapshots
    pub to_osc : IsWithin (l.dispatched ++ par_tx.queued s.params) (frames_of l.mapped)

  abbrev pub ConveyedAfter : OutLog F → Outcome (System F Raw Snap Par Packet Conn) → Type 0
  ConveyedAfter l waits = Unit
  ConveyedAfter l (goes s) = Conveyed l s
  ConveyedAfter l (dies task) = Unit

  module _ (l : OutLog F) where
    -- where neither channel changed
    pub same-Conveyed :
        (s t : System F Raw Snap Par Packet Conn)
        → t.aggregator.tx ≡ s.aggregator.tx
        → t.params ≡ s.params
        → Conveyed l s
        → Conveyed (followed l silent) t
    same-Conveyed s t tx params h =
        rw (append-nil l.snapshots, append-nil l.mapped, append-nil l.dispatched)
          (record { to_mapping = rw tx h.to_mapping; to_osc = rw params h.to_osc })

    -- a tick of which the loop goes on, with its snapshot sent or not
    ticked-Conveyed :
        (snap_laws : IsMpsc (StateSnapshot F) Snap) (s : System F Raw Snap Par Packet Conn)
        (x : StateSnapshot F) (a : Aggregator F Snap Snap)
        → a.tx ≡ (snap_tx.try_send s.aggregator.tx x).1
        → Conveyed l s
        → Conveyed
            (followed l (record { snapshots = x ∷ []; mapped = []; dispatched = [] }))
            (record s { aggregator = a; app = record s.app { current_snapshot = a.shared_state } })
    ticked-Conveyed snap_laws s x a e h =
        rw (append-nil l.mapped, append-nil l.dispatched)
          (record {
            to_mapping = rw e (elim (try_send-queued snap_laws s.aggregator.tx x) [
              | inl q ↦ rw q (IsWithin-drops x h.to_mapping)
              | inr q ↦
                  rw
                    (
                      q,
                      ← append_assoc (snapshots_of l.mapped) (snap_tx.queued s.aggregator.tx)
                          (x ∷ []),
                    )
                    (IsWithin-keeps x h.to_mapping)
            ]);
            to_osc = h.to_osc;
          })

    pub tick-Conveyed :
        (snap_laws : IsMpsc (StateSnapshot F) Snap) (s : System F Raw Snap Par Packet Conn)
        (now_us : ℕ) (o : Flow (Aggregator F Snap Snap))
        → handle_tick now_us s.aggregator ≡ o
        → Conveyed l s
        → ConveyedAfter (followed l (tick_log now_us s.aggregator)) (after_step s o)
    tick-Conveyed snap_laws s now_us (Flow.running a) e h =
        let (metrics, t) = handle_tick-Ticked now_us s.aggregator a e in
        rw t.measured (ticked-Conveyed snap_laws s _ a t.forwarded h)
    tick-Conveyed snap_laws s now_us (Flow.stopped a) e h = tt
    tick-Conveyed snap_laws s now_us Flow.panicked e h = tt

    pub osc-Conveyed :
        (par_fifo : IsFifo (List (MappedParam F)) Par) (s : System F Raw Snap Par Packet Conn)
        (w : World F Packet) (o : Option (List (MappedParam F) × Par))
        → par_rx.recv s.params ≡ o
        → Conveyed l s
        → ConveyedAfter (followed l (osc_log o)) (osc_round s w o)
    unfolding osc_round
    osc-Conveyed par_fifo s w none e h = tt
    osc-Conveyed par_fifo s w (some (ps, params')) e h =
        rw (append-nil l.snapshots, append-nil l.mapped)
          (record {
            to_mapping = h.to_mapping;
            to_osc = rw (append_assoc l.dispatched (ps ∷ []) (par_tx.queued params')) (
                subst (λ r. IsWithin (l.dispatched ++ r) (frames_of l.mapped))
                  (par_fifo.recv_first s.params params' ps e) h.to_osc);
          })

    -- the mapping engine took the snapshot, whatever it sent
    taken-Conveyed :
        (s : System F Raw Snap Par Packet Conn) (tx' : Snap) (params' : Par) (t : Taken F)
        → snap_tx.queued s.aggregator.tx ≡ t.0 ∷ snap_tx.queued tx'
        → IsWithin (l.dispatched ++ par_tx.queued params') (frames_of l.mapped ++ frame_of t)
        → Conveyed l s
        → Conveyed
            (followed l (record { snapshots = []; mapped = t ∷ []; dispatched = [] }))
            (record s { aggregator = record s.aggregator { tx = tx' }; params = params' })
    taken-Conveyed s tx' params' t first within h =
        rw (append-nil l.snapshots, append-nil l.dispatched)
          (record {
            to_mapping =
                rw
                  (
                    snapshots_of-append l.mapped (t ∷ []),
                    append_assoc (snapshots_of l.mapped) (t.0 ∷ []) (snap_tx.queued tx'),
                  )
                  (subst (λ r. IsWithin (snapshots_of l.mapped ++ r) l.snapshots) first
                    h.to_mapping);
            to_osc = rw (frames_of-append l.mapped t) within;
          })

    -- the frame of a snapshot, on every result of `try_send`
    sent-Conveyed :
        (s : System F Raw Snap Par Packet Conn) (tx' : Snap) (params' : Par) (t : Taken F)
        (frame : List (MappedParam F)) (r : TrySend)
        → frame_of t ≡ frame ∷ []
        → snap_tx.queued s.aggregator.tx ≡ t.0 ∷ snap_tx.queued tx'
        → Delivers s.params frame r params'
        → Conveyed l s
        → ConveyedAfter
            (followed l (record { snapshots = []; mapped = t ∷ []; dispatched = [] }))
            (after_mapping s tx' (after_send r (record { tx = params'; rules = t.1 })))
    unfolding after_send
    sent-Conveyed s tx' params' t frame TrySend.sent made first (q, _) h =
        taken-Conveyed s tx' params' t first
          (rw (made, q, ← append_assoc l.dispatched (par_tx.queued s.params) (frame ∷ []))
            (IsWithin-keeps frame h.to_osc))
          h
    sent-Conveyed s tx' params' t frame TrySend.full made first (q, _) h =
        taken-Conveyed s tx' params' t first (rw (made, q) (IsWithin-drops frame h.to_osc)) h
    sent-Conveyed s tx' params' t frame TrySend.closed made first d h = tt

    -- a snapshot, whatever the lock of the rules gives
    lock-Conveyed :
        (par_laws : IsMpsc (List (MappedParam F)) Par) (s : System F Raw Snap Par Packet Conn)
        (tx' : Snap) (snapshot : StateSnapshot F) (lock : RwLock (List (MappingRule F)))
        → snap_tx.queued s.aggregator.tx ≡ snapshot ∷ snap_tx.queued tx'
        → Conveyed l s
        → ConveyedAfter
            (followed l
              (record { snapshots = []; mapped = (snapshot, lock) ∷ []; dispatched = [] }))
            (after_mapping s tx' (map_snapshot (record { tx = s.params; rules = lock }) snapshot))
    unfolding map_snapshot
    lock-Conveyed par_laws s tx' snapshot (RwLock.healthy rules) first h =
        elim (Option-cases (map_rules snapshot.metrics rules)) [
          | inl q ↦ rw (q, map_snapshot) tt
          | inr (frame, q) ↦
              rw (q, map_snapshot)
                (sent-Conveyed s tx' _ (snapshot, RwLock.healthy rules) frame _
                  (rw (q, frame_of) refl) first (try_send-Delivers par_laws s.params frame) h)
        ]
    lock-Conveyed par_laws s tx' snapshot (RwLock.poisoned rules) first h =
        taken-Conveyed s tx' s.params (snapshot, RwLock.poisoned rules) first
          (rw (append-nil (frames_of l.mapped)) h.to_osc) h

    pub mapping-Conveyed :
        (par_laws : IsMpsc (List (MappedParam F)) Par) (snap_fifo : IsFifo (StateSnapshot F) Snap)
        (s : System F Raw Snap Par Packet Conn) (o : Option (StateSnapshot F × Snap))
        → snap_rx.recv s.aggregator.tx ≡ o
        → Conveyed l s
        → ConveyedAfter (followed l (mapping_log s.app.mapping_rules o)) (mapping_round s o)
    unfolding mapping_round
    mapping-Conveyed par_laws snap_fifo s none e h = tt
    mapping-Conveyed par_laws snap_fifo s (some (snapshot, tx')) e h =
        lock-Conveyed par_laws s tx' snapshot s.app.mapping_rules
          (snap_fifo.recv_first s.aggregator.tx tx' snapshot e) h
