-- ===== src/Aggregator/Alive.antt =====
-- The loop of aggregator.rs goes on as long as the mapping engine takes its snapshots.
use daemon_choir.Base.{ℕ, ◌≡◌, ◌≢◌, refl, ◌∙◌, false}
use daemon_choir.Float.{F64, IsIeee}
use daemon_choir.Metrics.{StateSnapshot}
use daemon_choir.Sync.{Sender, IsMpsc, TrySend}
use daemon_choir.Sync.Bounded.{try_send-ne-closed}
use daemon_choir.Aggregator.Safety.{measure-IsNormal}
use daemon_choir.Aggregator.Invariant.{IsSafe}
use daemon_choir.Aggregator.{
  Aggregator, Flow, running, Input, received, channel_closed, tick, event_lost, after_send, publish,
  handle_tick, step,
}

-- an input that does not say that the ring buffer's task has ended
abbrev pub IsOpen : Input → Type 0
IsOpen channel_closed = ⊥
IsOpen _ = Unit

module _ {F Tx Db : Type 0} ⦃f : F64 F⦄ ⦃tx : Sender (StateSnapshot F) Tx⦄
    ⦃db : Sender (StateSnapshot F) Db⦄ where
  -- a round after which the loop is still running, with its channel open
  abbrev pub GoesOn : Flow (Aggregator F Tx Db) → Type 0
  GoesOn flow = (b : Aggregator F Tx Db) × (flow ≡ running b) × (tx.is_closed b.tx ≡ false)

  after_send-GoesOn :
      (t : TrySend) (s : StateSnapshot F) (a : Aggregator F Tx Db)
      → t ≢ TrySend.closed
      → tx.is_closed a.tx ≡ false
      → GoesOn (after_send t s a)
  unfolding after_send
  after_send-GoesOn TrySend.closed s a ne open_ = absurd (ne refl)
  after_send-GoesOn TrySend.sent s a ne open_ = (_, refl, open_)
  after_send-GoesOn TrySend.full s a ne open_ = (_, refl, open_)

  module _ (laws : IsIeee F) (tx_laws : IsMpsc (StateSnapshot F) Tx) where
    handle_tick-GoesOn :
        (now_us : ℕ) (a : Aggregator F Tx Db)
        → IsSafe a
        → tx.is_closed a.tx ≡ false
        → GoesOn (handle_tick now_us a)
    unfolding handle_tick publish
    handle_tick-GoesOn now_us a v open_ =
        let (emas', metrics, e, nonneg, normal) =
          measure-IsNormal laws a.current_window_events a.emas v.averages in
        rw (e, handle_tick)
          (after_send-GoesOn _ _ _ (try_send-ne-closed tx_laws a.tx _ open_)
            ((tx_laws.send_keeps a.tx _).1 ∙ open_))

    -- Of a safe state whose channel is open, every round but the one that finds the events' channel
    -- closed leaves a running loop, with its channel open.
    pub step-GoesOn :
        (a : Aggregator F Tx Db) (i : Input)
        → IsOpen i
        → IsSafe a
        → tx.is_closed a.tx ≡ false
        → GoesOn (step a i)
    unfolding step
    step-GoesOn a (received e) o v open_ = (_, refl, open_)
    step-GoesOn a channel_closed o v open_ = absurd o
    step-GoesOn a (tick now_us) o v open_ = handle_tick-GoesOn now_us a v open_
    step-GoesOn a event_lost o v open_ = (_, refl, open_)
