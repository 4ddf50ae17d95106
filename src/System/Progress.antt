-- ===== src/System/Progress.antt =====
-- What is under way through the wired program gets through: no state is a deadlock.
use daemon_choir.Probes.{Aya}
use daemon_choir.System.Start.{Sockets, launched, launch}
use daemon_choir.System.Launched.{launched-IsSound}
use daemon_choir.Base.{Bool, All, ◌≡◌, refl, ap, ◌∙◌, subst, Option, List, [], ◌∷◌}
use daemon_choir.Float.{F64, IsIeee}
use daemon_choir.Config.{Config, MappingRule}
use daemon_choir.Events.{RawEvent}
use daemon_choir.Metrics.{StateSnapshot}
use daemon_choir.Sync.{Sender, Receiver, IsMpsc, IsFifo}
use daemon_choir.Mapping.{MappedParam}
use daemon_choir.Osc.{World}
use daemon_choir.Db.{Sqlite}
use daemon_choir.System.Engine.{IsGood}
use daemon_choir.System.Tuning.{Allowed}
use daemon_choir.System.Invariant.{IsSound, Lives}
use daemon_choir.System.Safety.{performs, Reach, here, then_step, perform-Lives, Reach-IsSound}
use daemon_choir.System.{
  System, goes, Action, ringbuf_receives, aggregator_receives, mapping_receives, osc_receives,
  perform,
}
use daemon_choir.System.Rounds.{ringbuf_goes, aggregator_goes, mapping_goes, osc_goes}

module _ {F Raw Snap Par Packet Conn : Type 0} ⦃f : F64 F⦄ ⦃raw_tx : Sender RawEvent Raw⦄
    ⦃raw_rx : Receiver RawEvent Raw⦄ ⦃snap_tx : Sender (StateSnapshot F) Snap⦄
    ⦃snap_rx : Receiver (StateSnapshot F) Snap⦄ ⦃par_tx : Sender (List (MappedParam F)) Par⦄
    ⦃par_rx : Receiver (List (MappedParam F)) Par⦄ where
  Reach-trans :
      (sql : Sqlite F Conn) (Good : MappingRule F → Type 0)
      {s t u : System F Raw Snap Par Packet Conn}
      → Reach sql Good s t
      → Reach sql Good t u
      → Reach sql Good s u
  Reach-trans sql Good r here = r
  Reach-trans sql Good r (then_step q st) = then_step (Reach-trans sql Good r q) st

module _ {F Raw Snap Par Packet Conn : Type 0} ⦃f : F64 F⦄ ⦃raw_tx : Sender RawEvent Raw⦄
    ⦃raw_rx : Receiver RawEvent Raw⦄ ⦃snap_tx : Sender (StateSnapshot F) Snap⦄
    ⦃snap_rx : Receiver (StateSnapshot F) Snap⦄ ⦃par_tx : Sender (List (MappedParam F)) Par⦄
    ⦃par_rx : Receiver (List (MappedParam F)) Par⦄ (laws : IsIeee F) (P : MappedParam F → Type 0)
    (raw_laws : IsMpsc RawEvent Raw) (snap_laws : IsMpsc (StateSnapshot F) Snap)
    (par_laws : IsMpsc (List (MappedParam F)) Par) (raw_fifo : IsFifo RawEvent Raw)
    (snap_fifo : IsFifo (StateSnapshot F) Snap) (par_fifo : IsFifo (List (MappedParam F)) Par)
    (sql : Sqlite F Conn) where
  -- a sound state that is reached from here, and of which `Q` holds
  abbrev Gets :
      System F Raw Snap Par Packet Conn → (System F Raw Snap Par Packet Conn → Type 0) → Type 0
  Gets s Q =
      (t : System F Raw Snap Par Packet Conn) × Reach sql (IsGood laws P) s t
      × IsSound laws P t
      × Q t

  -- one action first, and the rest from its result on
  first_then :
      (Q : System F Raw Snap Par Packet Conn → Type 0) (s t : System F Raw Snap Par Packet Conn)
      (a : Action F Packet)
      → Allowed (IsGood laws P) a
      → IsSound laws P s
      → perform sql s a ≡ goes t
      → (IsSound laws P t → Gets t Q)
      → Gets s Q
  first_then Q s t a ok h e more =
      let sound : IsSound laws P t = subst (Lives laws P) e (
        perform-Lives laws P raw_laws snap_laws par_laws raw_fifo snap_fifo par_fifo sql s a ok
          h) in
      let (u, r, h', q) = more sound in
      (u, Reach-trans sql (IsGood laws P) (then_step here (performs a ok e)) r, h', q)

  -- One action that takes the first value of a queue and keeps `Keep`, repeated until the queue is
  -- empty.
  drain :
      {A : Type 0} (queue : System F Raw Snap Par Packet Conn → List A)
      (Keep : System F Raw Snap Par Packet Conn → Type 0) (a : Action F Packet)
      → Allowed (IsGood laws P) a
      → ((s : System F Raw Snap Par Packet Conn) (e : A) (l : List A)
          → IsSound laws P s
          → queue s ≡ e ∷ l
          → Keep s
          → (t : System F Raw Snap Par Packet Conn) × (perform sql s a ≡ goes t)
            × (queue t ≡ l)
            × Keep t)
      → (l : List A) (s : System F Raw Snap Par Packet Conn) → IsSound laws P s
      → queue s ≡ l
      → Keep s
      → Gets s (λ t. (queue t ≡ []) × Keep t)
  drain queue Keep a ok one [] s h q k = (s, here, h, (q, k))
  drain queue Keep a ok one (e ∷ l) s h q k =
      let (t, goes_, rest, k') = one s e l h q k in
      first_then _ s t a ok h goes_ (λ h'. drain queue Keep a ok one l t h' rest k')

  -- from what is reached, on to what is reached from there
  and_then :
      (Q R : System F Raw Snap Par Packet Conn → Type 0) (s : System F Raw Snap Par Packet Conn)
      → Gets s Q
      → ((t : System F Raw Snap Par Packet Conn) → IsSound laws P t → Q t → Gets t R)
      → Gets s R
  and_then Q R s (t, r, h, q) more =
      let (u, r', h', q') = more t h q in (u, Reach-trans sql (IsGood laws P) r r', h', q')

  abbrev RawEmpty : System F Raw Snap Par Packet Conn → Type 0
  RawEmpty t = raw_tx.queued t.raw ≡ []

  abbrev EventsEmpty : System F Raw Snap Par Packet Conn → Type 0
  EventsEmpty t = (raw_tx.queued t.consumer.aggregator_tx ≡ []) × RawEmpty t

  abbrev SnapshotsEmpty : System F Raw Snap Par Packet Conn → Type 0
  SnapshotsEmpty t = (snap_tx.queued t.aggregator.tx ≡ []) × EventsEmpty t

  -- nothing is under way
  abbrev AllEmpty : System F Raw Snap Par Packet Conn → Type 0
  AllEmpty t = (par_tx.queued t.params ≡ []) × SnapshotsEmpty t

  drain_raw :
      (s : System F Raw Snap Par Packet Conn)
      → IsSound laws P s
      → Gets s (λ t. RawEmpty t × Unit {0})
  drain_raw s h =
      drain (λ u. raw_tx.queued u.raw) (λ u. Unit) ringbuf_receives tt
        (λ u e l hu q k.
          let (v, g, r) =
            ringbuf_goes laws P raw_laws snap_laws par_laws raw_fifo snap_fifo par_fifo sql u e l hu
              q in
          (v, g, r, tt))
        (raw_tx.queued s.raw) s h refl tt

  drain_events :
      (s : System F Raw Snap Par Packet Conn)
      → IsSound laws P s
      → RawEmpty s × Unit {0}
      → Gets s EventsEmpty
  drain_events s h (empty, _) =
      drain (λ u. raw_tx.queued u.consumer.aggregator_tx) RawEmpty aggregator_receives tt
        (λ u e l hu q k.
          let (v, g, r, same) =
            aggregator_goes laws P raw_laws snap_laws par_laws raw_fifo snap_fifo par_fifo sql u e l
              q in
          (v, g, r, ap raw_tx.queued same ∙ k))
        (raw_tx.queued s.consumer.aggregator_tx) s h refl empty

  drain_snapshots :
      (s : System F Raw Snap Par Packet Conn)
      → IsSound laws P s
      → EventsEmpty s
      → Gets s SnapshotsEmpty
  drain_snapshots s h empty =
      drain (λ u. snap_tx.queued u.aggregator.tx) EventsEmpty mapping_receives tt
        (λ u e l hu q k.
          let (v, g, r, same, cons) =
            mapping_goes laws P raw_laws snap_laws par_laws raw_fifo snap_fifo par_fifo sql u e l hu
              q in
          (
            v,
            g,
            r,
            (ap (λ c. raw_tx.queued c.aggregator_tx) cons ∙ k.0, ap raw_tx.queued same ∙ k.1),
          ))
        (snap_tx.queued s.aggregator.tx) s h refl empty

  drain_params :
      World F Packet
      → (s : System F Raw Snap Par Packet Conn) → IsSound laws P s
      → SnapshotsEmpty s
      → Gets s AllEmpty
  drain_params w s h empty =
      drain (λ u. par_tx.queued u.params) SnapshotsEmpty (osc_receives w) tt
        (λ u ps l hu q k.
          let (v, g, r, same, cons, agg) =
            osc_goes laws P raw_laws snap_laws par_laws raw_fifo snap_fifo par_fifo sql w u ps l
              q in
          (
            v,
            g,
            r,
            (
              ap (λ a. snap_tx.queued a.tx) agg ∙ k.0,
              (ap (λ c. raw_tx.queued c.aggregator_tx) cons ∙ k.1.0, ap raw_tx.queued same ∙ k.1.1),
            ),
          ))
        (par_tx.queued s.params) s h refl empty

  -- one channel after the other, from the probes on
  pub sound-drains :
      World F Packet → (s : System F Raw Snap Par Packet Conn) → IsSound laws P s → Gets s AllEmpty
  sound-drains w s h =
      and_then SnapshotsEmpty AllEmpty s
        (and_then EventsEmpty SnapshotsEmpty s
          (and_then (λ t. RawEmpty t × Unit {0}) EventsEmpty s (drain_raw s h) drain_events)
          drain_snapshots)
        (drain_params w)

module _ {F Raw Snap Par Packet Conn Bpf Program : Type 0} ⦃f : F64 F⦄
    ⦃raw_tx : Sender RawEvent Raw⦄ ⦃raw_rx : Receiver RawEvent Raw⦄
    ⦃snap_tx : Sender (StateSnapshot F) Snap⦄ ⦃snap_rx : Receiver (StateSnapshot F) Snap⦄
    ⦃par_tx : Sender (List (MappedParam F)) Par⦄ ⦃par_rx : Receiver (List (MappedParam F)) Par⦄
    (laws : IsIeee F) (P : MappedParam F → Type 0) (raw_laws : IsMpsc RawEvent Raw)
    (snap_laws : IsMpsc (StateSnapshot F) Snap) (par_laws : IsMpsc (List (MappedParam F)) Par)
    (raw_fifo : IsFifo RawEvent Raw) (snap_fifo : IsFifo (StateSnapshot F) Snap)
    (par_fifo : IsFifo (List (MappedParam F)) Par) (sql : Sqlite F Conn)
    (aya : Aya Bpf Program) where
  -- For numbers that obey IEEE 754, channels that behave as documented, and a configuration whose
  -- rules have comparable input bounds and acceptable parameters: from every state
  -- that the launched program reaches, in whatever order its tasks took turns and as long as every
  -- configuration that a reload found has such rules too, finitely many rounds of its tasks lead to a state in which nothing is left in
  -- the probes' channel, the aggregator's channel, the channel of snapshots or the channel of
  -- parameters, and in which the invariant of the program holds: no state is a deadlock.
  pub launch-drains :
      (config : Config F) (simulate : Bool) (opened : Option Conn) (bind : Sockets)
      (w : World F Packet) {s t : System F Raw Snap Par Packet Conn}
      → All (IsGood laws P) config.mapping
      → launch Packet sql aya config simulate opened bind ≡ launched s
      → Reach sql (IsGood laws P) s t
      → (u : System F Raw Snap Par Packet Conn) × Reach sql (IsGood laws P) t u
        × IsSound laws P u
        × (par_tx.queued u.params ≡ [])
        × (snap_tx.queued u.aggregator.tx ≡ [])
        × (raw_tx.queued u.consumer.aggregator_tx ≡ [])
        × (raw_tx.queued u.raw ≡ [])
  launch-drains config simulate opened bind w {s} {t} good e r =
      let (u, r', h, (params, (snapshots, (events, raw)))) =
        sound-drains laws P raw_laws snap_laws par_laws raw_fifo snap_fifo par_fifo sql w t (
          Reach-IsSound laws P raw_laws snap_laws par_laws raw_fifo snap_fifo par_fifo sql
            (launched-IsSound laws P raw_laws snap_laws par_laws raw_fifo snap_fifo par_fifo sql aya
              config simulate opened bind good e)
            r) in
      (u, r', h, params, snapshots, events, raw)
