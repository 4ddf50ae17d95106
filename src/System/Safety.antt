-- ===== src/System/Safety.antt =====
-- The wired program is safe in every state that any schedule reaches.
use daemon_choir.Base.{◌≡◌, refl, ◌∙◌, subst, List}
use daemon_choir.Float.{F64, IsIeee}
use daemon_choir.Config.{MappingRule}
use daemon_choir.Events.{RawEvent}
use daemon_choir.Metrics.{StateSnapshot}
use daemon_choir.Sync.{Sender, Receiver, IsMpsc, IsFifo}
use daemon_choir.Aggregator.{Input}
use daemon_choir.Mapping.{MappedParam}
use daemon_choir.Db.{Sqlite}
use daemon_choir.Api.{serve}
use daemon_choir.System.Tasks.{
  probe-Lives, ringbuf-Lives, insertion-Lives, step-Lives, receiving-Lives,
}
use daemon_choir.System.Outputs.{storing-Lives, mapping-Lives, osc-Lives}
use daemon_choir.System.Engine.{IsGood}
use daemon_choir.System.Tuning.{Allowed, route-Keeps}
use daemon_choir.System.Invariant.{IsSound, Lives}
use daemon_choir.System.{
  System, goes, Action, probe_sends, ringbuf_receives, insertion_runs, aggregator_receives,
  aggregator_ticks, snapshot_stored, mapping_receives, osc_receives, api_serves, purge_runs,
  perform,
}

-- One round of some task that may run, on a request or a reload that is acceptable.
pub data Step {F Raw Snap Par Packet Conn : Type 0} ⦃f : F64 F⦄ ⦃raw_tx : Sender RawEvent Raw⦄
    ⦃raw_rx : Receiver RawEvent Raw⦄ ⦃snap_tx : Sender (StateSnapshot F) Snap⦄
    ⦃snap_rx : Receiver (StateSnapshot F) Snap⦄ ⦃par_tx : Sender (List (MappedParam F)) Par⦄
    ⦃par_rx : Receiver (List (MappedParam F)) Par⦄ (sql : Sqlite F Conn)
    (Good : MappingRule F → Type 0) (s t : System F Raw Snap Par Packet Conn) : Type 0 where
  performs : (a : Action F Packet) → Allowed Good a → perform sql s a ≡ goes t → Step sql Good s t

-- the states after any number of rounds, in any order of the tasks
pub data Reach {F Raw Snap Par Packet Conn : Type 0} ⦃f : F64 F⦄ ⦃raw_tx : Sender RawEvent Raw⦄
    ⦃raw_rx : Receiver RawEvent Raw⦄ ⦃snap_tx : Sender (StateSnapshot F) Snap⦄
    ⦃snap_rx : Receiver (StateSnapshot F) Snap⦄ ⦃par_tx : Sender (List (MappedParam F)) Par⦄
    ⦃par_rx : Receiver (List (MappedParam F)) Par⦄ (sql : Sqlite F Conn)
    (Good : MappingRule F → Type 0) (s : System F Raw Snap Par Packet Conn)
    : System F Raw Snap Par Packet Conn → Type 0 where
  here : Reach sql Good s s
  then_step :
      {t u : System F Raw Snap Par Packet Conn}
      → Reach sql Good s t
      → Step sql Good t u
      → Reach sql Good s u

module _ {F Raw Snap Par Packet Conn : Type 0} ⦃f : F64 F⦄ ⦃raw_tx : Sender RawEvent Raw⦄
    ⦃raw_rx : Receiver RawEvent Raw⦄ ⦃snap_tx : Sender (StateSnapshot F) Snap⦄
    ⦃snap_rx : Receiver (StateSnapshot F) Snap⦄ ⦃par_tx : Sender (List (MappedParam F)) Par⦄
    ⦃par_rx : Receiver (List (MappedParam F)) Par⦄ (laws : IsIeee F) (P : MappedParam F → Type 0)
    (raw_laws : IsMpsc RawEvent Raw) (snap_laws : IsMpsc (StateSnapshot F) Snap)
    (par_laws : IsMpsc (List (MappedParam F)) Par) (raw_fifo : IsFifo RawEvent Raw)
    (snap_fifo : IsFifo (StateSnapshot F) Snap) (par_fifo : IsFifo (List (MappedParam F)) Par) where
  -- One round of any task: it waits, or it goes on and the invariant holds again; none of the three of `Task` ends.
  pub perform-Lives :
      (sql : Sqlite F Conn) (s : System F Raw Snap Par Packet Conn) (a : Action F Packet)
      → Allowed (IsGood laws P) a
      → IsSound laws P s
      → Lives laws P (perform sql s a)
  unfolding perform serve
  perform-Lives sql s (probe_sends i e now_us) ok h =
      probe-Lives laws P raw_laws snap_laws par_laws raw_fifo snap_fifo par_fifo s i e now_us h
  perform-Lives sql s ringbuf_receives ok h =
      ringbuf-Lives laws P raw_laws snap_laws par_laws raw_fifo snap_fifo par_fifo s _ refl h
  perform-Lives sql s (insertion_runs i) ok h =
      insertion-Lives laws P raw_laws snap_laws par_laws raw_fifo snap_fifo par_fifo sql s i h
  perform-Lives sql s aggregator_receives ok h =
      receiving-Lives laws P raw_laws snap_laws par_laws raw_fifo snap_fifo par_fifo s _ refl h
  perform-Lives sql s (aggregator_ticks now_us) ok h =
      step-Lives laws P raw_laws snap_laws par_laws raw_fifo snap_fifo par_fifo s
        (Input.tick now_us) tt h
  perform-Lives sql s snapshot_stored ok h =
      storing-Lives laws P raw_laws snap_laws par_laws raw_fifo snap_fifo par_fifo sql s _ refl h
  perform-Lives sql s mapping_receives ok h =
      mapping-Lives laws P raw_laws snap_laws par_laws raw_fifo snap_fifo par_fifo s _ refl h
  perform-Lives sql s (osc_receives w) ok h =
      osc-Lives laws P raw_laws snap_laws par_laws raw_fifo snap_fifo par_fifo s w _ refl h
  perform-Lives sql s (api_serves (request, elapsed_ms)) ok h =
      let (tuned, same) = route-Keeps sql (IsGood laws P) request s.app ok h.tuned in
      record {
        aggregator = h.aggregator;
        shown = same ∙ h.shown;
        tuned = tuned;
        queue = h.queue;
        raw_open = h.raw_open;
        events_open = h.events_open;
        snapshots_open = h.snapshots_open;
        params_open = h.params_open;
      }
  perform-Lives sql s (purge_runs now_us) ok h = record {
    aggregator = h.aggregator;
    shown = h.shown;
    tuned = h.tuned;
    queue = h.queue;
    raw_open = h.raw_open;
    events_open = h.events_open;
    snapshots_open = h.snapshots_open;
    params_open = h.params_open;
  }

  -- the invariant in every state reached
  pub Reach-IsSound :
      (sql : Sqlite F Conn) {s t : System F Raw Snap Par Packet Conn}
      → IsSound laws P s
      → Reach sql (IsGood laws P) s t
      → IsSound laws P t
  Reach-IsSound sql h here = h
  Reach-IsSound sql h (then_step {t} r (performs a ok e)) =
      subst (Lives laws P) e (perform-Lives sql t a ok (Reach-IsSound sql h r))
