-- ===== src/System/Launched.antt =====
-- What holds of the program from its launch on.
use daemon_choir.Base.{
  ◌≡◌, ◌≢◌, refl, sym, subst, true, false, Option, Bool, List, All, ◌==◌, if◌then◌else◌, arith,
}
use daemon_choir.Float.{F64, IsIeee, nought}
use daemon_choir.Config.{Config}
use daemon_choir.Events.{RawEvent}
use daemon_choir.Metrics.{StateSnapshot, default_metrics}
use daemon_choir.Metrics.Laws.{IsNormal, InUnit}
use daemon_choir.Sync.{Sender, Receiver, IsMpsc, IsFifo}
use daemon_choir.Probes.{Aya, start}
use daemon_choir.Probes
use daemon_choir.Aggregator
use daemon_choir.Aggregator.Measure.{no_emas}
use daemon_choir.Aggregator.Safety.{IsNonneg}
use daemon_choir.Aggregator.Invariant.{IsPublishable, content}
use daemon_choir.Mapping.{MappedParam}
use daemon_choir.Db.{Sqlite}
use daemon_choir.System.Start.{
  Sockets, exits, osc_panics, bind_panics, launched, started, wired, launch,
}
use daemon_choir.System.Engine.{IsGood}
use daemon_choir.System.Tuning.{Allowed}
use daemon_choir.System.Invariant.{IsSound, Lives}
use daemon_choir.System.Safety.{Reach, perform-Lives, Reach-IsSound}
use daemon_choir.System.{System, dies, Action, Task, perform}

module _ {F : Type 0} ⦃f : F64 F⦄ (laws : IsIeee F) where
  zero-InUnit : InUnit {F = F} nought
  zero-InUnit = (laws.nat_mono 0 0 (omega arith), laws.nat_mono 0 1 (omega arith))

  pub default_metrics-IsNormal : IsNormal {F = F} default_metrics
  default_metrics-IsNormal =
      (zero-InUnit, zero-InUnit, zero-InUnit, zero-InUnit, zero-InUnit, zero-InUnit)

  pub no_emas-IsNonneg : IsNonneg {F = F} no_emas
  no_emas-IsNonneg = record {
    cpu_latency = zero-InUnit.0;
    cpu_rate = zero-InUnit.0;
    mem_pressure = zero-InUnit.0;
    net_tx = zero-InUnit.0;
    net_rx = zero-InUnit.0;
    proc_exec = zero-InUnit.0;
  }

-- What was launched is what was wired.
pub launched-eq :
    {S : Type 0} (zero_port udp bound : Bool) (w s : S)
    → (if zero_port
        then exits 1
        else if udp
        then (if bound then launched w else bind_panics)
        else osc_panics)
      ≡ launched s
    → w ≡ s
launched-eq true udp bound w s e = cc
launched-eq false true true w s e = cc
launched-eq false true false w s e = cc
launched-eq false false bound w s e = cc

module _ {F Raw Snap Par Packet Conn Bpf Program : Type 0} ⦃f : F64 F⦄
    ⦃raw_tx : Sender RawEvent Raw⦄ ⦃raw_rx : Receiver RawEvent Raw⦄
    ⦃snap_tx : Sender (StateSnapshot F) Snap⦄ ⦃snap_rx : Receiver (StateSnapshot F) Snap⦄
    ⦃par_tx : Sender (List (MappedParam F)) Par⦄ ⦃par_rx : Receiver (List (MappedParam F)) Par⦄
    (laws : IsIeee F) (P : MappedParam F → Type 0) (raw_laws : IsMpsc RawEvent Raw)
    (snap_laws : IsMpsc (StateSnapshot F) Snap) (par_laws : IsMpsc (List (MappedParam F)) Par)
    (raw_fifo : IsFifo RawEvent Raw) (snap_fifo : IsFifo (StateSnapshot F) Snap)
    (par_fifo : IsFifo (List (MappedParam F)) Par) (sql : Sqlite F Conn)
    (aya : Aya Bpf Program) where
  wired-IsSound :
      (config : Config F) (simulate : Bool) (opened : Option Conn)
      → All (IsGood laws P) config.mapping
      → IsSound {Raw = Raw} {Snap = Snap} {Par = Par} laws P
          (wired Packet sql aya config simulate opened)
  unfolding wired started start Probes.new Aggregator.new
  wired-IsSound config simulate opened good = record {
    aggregator = record {
      averages = no_emas-IsNonneg laws;
      shared = default_metrics-IsNormal laws;
      forwarded = subst (All IsPublishable) (sym (snap_fifo.channel_empty 256)) tt;
      stored = subst (All IsPublishable) (sym (snap_fifo.channel_empty 512)) tt;
    };
    shown = refl;
    tuned = record { cfg = config; shows = refl; maps = refl; sends = refl; good = good };
    queue = subst (All (All P)) (sym (par_fifo.channel_empty 256)) tt;
    raw_open = raw_fifo.channel_open 2048;
    events_open = raw_fifo.channel_open 2048;
    snapshots_open = snap_fifo.channel_open 256;
    params_open = par_fifo.channel_open 256;
  }

  pub launched-IsSound :
      (config : Config F) (simulate : Bool) (opened : Option Conn) (bind : Sockets)
      {s : System F Raw Snap Par Packet Conn}
      → All (IsGood laws P) config.mapping
      → launch Packet sql aya config simulate opened bind ≡ launched s
      → IsSound laws P s
  unfolding launch
  launched-IsSound config simulate opened bind {s} good e =
      subst (IsSound laws P)
        (launched-eq (config.daemon.control_api_port == 0) bind.udp
          (bind.tcp config.daemon.control_api_port) (wired Packet sql aya config simulate opened) s
          e)
        (wired-IsSound config simulate opened good)

  -- For numbers that obey IEEE 754, channels that behave as documented, and any property of
  -- parameters: if the configuration at the launch has only rules whose input bounds can be compared and
  -- whose parameters have the property, as has every configuration that a reload finds, then, in
  -- whatever order the tasks take turns and whatever the environment does, in every state that is
  -- reached none of the three tasks that pass the events on, the ring buffer's, the aggregator's and
  -- the mapping engine's, ends or panics in the next round, every parameter on its way to the OSC
  -- task has the property, and the snapshot that the API shows is the aggregator's,
  -- with its metrics between 0 and 1.
  pub launch-IsSafe :
      (config : Config F) (simulate : Bool) (opened : Option Conn) (bind : Sockets)
      (a : Action F Packet) (task : Task) {s t : System F Raw Snap Par Packet Conn}
      → All (IsGood laws P) config.mapping
      → launch Packet sql aya config simulate opened bind ≡ launched s
      → Reach sql (IsGood laws P) s t
      → Allowed (IsGood laws P) a
      → (perform sql t a ≢ dies task)
        × All (All P) (par_tx.queued t.params)
        × (t.app.current_snapshot ≡ t.aggregator.shared_state)
        × IsPublishable (content t.app.current_snapshot)
  launch-IsSafe config simulate opened bind a task {s} {t} good e r ok =
      let h =
        Reach-IsSound laws P raw_laws snap_laws par_laws raw_fifo snap_fifo par_fifo sql
          (launched-IsSound config simulate opened bind good e) r in
      (
        λ died. subst (Lives laws P) died (
            perform-Lives laws P raw_laws snap_laws par_laws raw_fifo snap_fifo par_fifo sql t a ok
              h),
        h.queue,
        h.shown,
        subst (λ l. IsPublishable (content l)) (sym h.shown) h.aggregator.shared,
      )
