-- ===== src/System/Invariant.antt =====
-- The invariant of the wired program.
use daemon_choir.Base.{◌≡◌, false, List, All}
use daemon_choir.Float.{F64, IsIeee}
use daemon_choir.Events.{RawEvent}
use daemon_choir.Metrics.{StateSnapshot}
use daemon_choir.Sync.{Sender}
use daemon_choir.Aggregator.Invariant.{IsSafe}
use daemon_choir.Mapping.{MappedParam}
use daemon_choir.System.Engine.{IsGood}
use daemon_choir.System.Tuning.{IsTuned}
use daemon_choir.System.{System, Outcome, waits, goes, dies}

module _ {F Raw Snap Par Packet Conn : Type 0} ⦃f : F64 F⦄ ⦃raw_tx : Sender RawEvent Raw⦄
    ⦃snap_tx : Sender (StateSnapshot F) Snap⦄ ⦃par_tx : Sender (List (MappedParam F)) Par⦄
    (laws : IsIeee F) (P : MappedParam F → Type 0) where
  -- The state of the wired program in which no task has ended, with acceptable parameters only on the
  -- way to the OSC task.
  pub record IsSound (s : System F Raw Snap Par Packet Conn) : Type 0 where
    pub aggregator : IsSafe s.aggregator
    pub shown : s.app.current_snapshot ≡ s.aggregator.shared_state
    pub tuned : IsTuned (IsGood laws P) s.app
    pub queue : All (All P) (par_tx.queued s.params)
    pub raw_open : raw_tx.is_closed s.raw ≡ false
    pub events_open : raw_tx.is_closed s.consumer.aggregator_tx ≡ false
    pub snapshots_open : snap_tx.is_closed s.aggregator.tx ≡ false
    pub params_open : par_tx.is_closed s.params ≡ false

  -- no task dies
  abbrev pub Lives : Outcome (System F Raw Snap Par Packet Conn) → Type 0
  Lives waits = Unit
  Lives (goes s) = IsSound s
  Lives (dies t) = ⊥
