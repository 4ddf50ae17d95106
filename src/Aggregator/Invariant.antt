-- ===== src/Aggregator/Invariant.antt =====
-- The loop of `run` in aggregator.rs: it never panics, and whatever leaves it is normalised.
use daemon_choir.Base.{ℕ, Option, none, some, List, [], ◌∷◌, All}
use daemon_choir.Float.{F64, IsIeee}
use daemon_choir.Metrics.{StateSnapshot}
use daemon_choir.Metrics.Laws.{IsNormal}
use daemon_choir.Sync.{RwLock, write, Sender, IsMpsc, TrySend}
use daemon_choir.Sync.Bounded.{try_send-All}
use daemon_choir.Aggregator.Safety.{IsNonneg, measure-IsNormal}
use daemon_choir.Aggregator.{
  Aggregator, Flow, running, stopped, panicked, and_then, Input, received, channel_closed, tick,
  event_lost, tap, after_send, publish, handle_tick, step, run,
}

-- What holds where the loop goes on and where it has stopped; a panic has no excuse.
abbrev pub Holds : {S : Type 0} → (S → Type 0) → Flow S → Type 0
Holds P (running s) = P s
Holds P (stopped s) = P s
Holds P panicked = ⊥

and_then-Holds :
    {S : Type 0} (P : S → Type 0) (r : Flow S) (k : S → Flow S)
    → Holds P r
    → ((s : S) → P s → Holds P (k s))
    → Holds P (and_then r k)
and_then-Holds P (running s) k h next = next s h
and_then-Holds P (stopped s) k h next = h
and_then-Holds P panicked k h next = elim h [ ]

-- the value under a lock, poisoned or not
abbrev pub content : {A : Type 0} → RwLock A → A
content (RwLock.healthy a) = a
content (RwLock.poisoned a) = a

abbrev pub IsPublishable : {F : Type 0} ⦃f : F64 F⦄ → StateSnapshot F → Type 0
IsPublishable s = IsNormal s.metrics

-- every snapshot that waits for the database
abbrev pub AllStored :
    (F : Type 0) {Db : Type 0} ⦃f : F64 F⦄ ⦃db : Sender (StateSnapshot F) Db⦄ → Option Db → Type 0
AllStored F none = Unit
AllStored F ⦃db = db⦄ (some d) = All IsPublishable (db.queued d)

module _ {F Tx Db : Type 0} ⦃f : F64 F⦄ ⦃tx : Sender (StateSnapshot F) Tx⦄
    ⦃db : Sender (StateSnapshot F) Db⦄ where
  -- The averages are numbers and not negative, and every snapshot that other tasks can see has all its
  -- metrics between 0 and 1: under the lock, and in both channels.
  pub record IsSafe (a : Aggregator F Tx Db) : Type 0 where
    pub averages : IsNonneg a.emas
    pub shared : IsPublishable (content a.shared_state)
    pub forwarded : All IsPublishable (tx.queued a.tx)
    pub stored : AllStored F a.db_tx

  module _ (laws : IsIeee F) (tx_laws : IsMpsc (StateSnapshot F) Tx)
      (db_laws : IsMpsc (StateSnapshot F) Db) where
    tap-AllStored :
        (d : Option Db) (s : StateSnapshot F)
        → AllStored F d
        → IsPublishable s
        → AllStored F (tap d s)
    unfolding tap
    tap-AllStored none s h p = tt
    tap-AllStored (some d) s h p = try_send-All db_laws IsPublishable d s h p

    write-IsPublishable :
        (l : RwLock (StateSnapshot F)) (s : StateSnapshot F)
        → IsPublishable (content l)
        → IsPublishable s
        → IsPublishable (content (write l s))
    write-IsPublishable (RwLock.healthy _) s h p = p
    write-IsPublishable (RwLock.poisoned _) s h p = h

    after_send-IsSafe :
        (t : TrySend) (s : StateSnapshot F) (a : Aggregator F Tx Db)
        → IsSafe a
        → IsPublishable s
        → Holds IsSafe (after_send t s a)
    unfolding after_send
    after_send-IsSafe TrySend.closed s a v p = v
    after_send-IsSafe _ s a v p = record {
      averages = v.averages;
      shared = v.shared;
      forwarded = v.forwarded;
      stored = tap-AllStored a.db_tx s v.stored p;
    }

    publish-IsSafe :
        (a : Aggregator F Tx Db) (s : StateSnapshot F)
        → IsSafe a
        → IsPublishable s
        → Holds IsSafe (publish a s)
    unfolding publish
    publish-IsSafe a s v p =
        after_send-IsSafe (tx.try_send a.tx s).0 s _
          (record {
            averages = v.averages;
            shared = write-IsPublishable a.shared_state s v.shared p;
            forwarded = try_send-All tx_laws IsPublishable a.tx s v.forwarded p;
            stored = v.stored;
          })
          p

    handle_tick-IsSafe :
        (now_us : ℕ) (a : Aggregator F Tx Db) → IsSafe a → Holds IsSafe (handle_tick now_us a)
    unfolding handle_tick
    handle_tick-IsSafe now_us a v =
        let (emas', metrics, e, nonneg, normal) =
          measure-IsNormal laws a.current_window_events a.emas v.averages in
        rw (e, handle_tick)
          (publish-IsSafe _ _
            (record {
              averages = nonneg;
              shared = v.shared;
              forwarded = v.forwarded;
              stored = v.stored;
            })
            normal)

    -- One round of the loop, whatever `select!` hands over, does not panic and keeps `IsSafe`.
    pub step-IsSafe : (a : Aggregator F Tx Db) (i : Input) → IsSafe a → Holds IsSafe (step a i)
    unfolding step
    step-IsSafe a (received e) v = record {
      averages = v.averages;
      shared = v.shared;
      forwarded = v.forwarded;
      stored = v.stored;
    }
    step-IsSafe a channel_closed v = v
    step-IsSafe a (tick now_us) v = handle_tick-IsSafe now_us a v
    step-IsSafe a event_lost v = record {
      averages = v.averages;
      shared = v.shared;
      forwarded = v.forwarded;
      stored = v.stored;
    }

    -- For numbers that obey IEEE 754 and channels that behave as documented: from a safe state
    -- (averages that are numbers and not negative, metrics between 0 and 1 in every snapshot that
    -- other tasks can see) the loop does not panic, however long it runs and whatever it is
    -- handed, and its state stays safe.
    pub run-IsSafe : (a : Aggregator F Tx Db) (is : List Input) → IsSafe a → Holds IsSafe (run a is)
    unfolding run
    run-IsSafe a [] v = v
    run-IsSafe a (i ∷ is) v =
        and_then-Holds IsSafe (step a i) (λ b. run b is) (step-IsSafe a i v)
          λ b w. run-IsSafe b is w
