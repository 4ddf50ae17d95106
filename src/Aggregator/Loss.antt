-- ===== src/Aggregator/Loss.antt =====
-- Lost events are counted once: the shared counter of aggregator.rs and the deltas in its snapshots.
use daemon_choir.Base.{ℕ, ◌+◌, ◌%◌, ◌^◌, ◌≡◌, List, [], ◌∷◌, arith, subst, ap, ◌∙◌}
use daemon_choir.Float.{F64}
use daemon_choir.Metrics.{StateSnapshot}
use daemon_choir.Sync.{RwLock, write, Sender}
use daemon_choir.Aggregator.Effects.{handle_tick-Ticked, built, running-injective, and_then-running}
use daemon_choir.Aggregator.Invariant.{content}
use daemon_choir.Aggregator.{
  Aggregator, Flow, running, Input, received, channel_closed, tick, event_lost, handle_tick, step,
  run,
}

-- How many events other tasks lost.
abbrev pub lost_count : List Input → ℕ
lost_count [] = 0
lost_count (event_lost ∷ is) = 1 + lost_count is
lost_count (_ ∷ is) = lost_count is

lost_count-cons :
    (i : Input) (is : List Input) → lost_count (i ∷ is) ≡ lost_count (i ∷ []) + lost_count is
lost_count-cons (received _) is = omega arith
lost_count-cons channel_closed is = omega arith
lost_count-cons (tick _) is = omega arith
lost_count-cons event_lost is = omega arith

module _ {F Tx Db : Type 0} ⦃f : F64 F⦄ ⦃tx : Sender (StateSnapshot F) Tx⦄
    ⦃db : Sender (StateSnapshot F) Db⦄ where
  -- what a reader of the lock sees right after this input
  abbrev shown : Input → Flow (Aggregator F Tx Db) → ℕ
  shown (tick _) (running b) = (content b.shared_state).lost_events
  shown _ _ = 0

  -- The sum of the `lost_events` of all snapshots, as readers of the lock see them.
  pub reported : Aggregator F Tx Db → List Input → ℕ
  reported a [] = 0
  reported a (i ∷ is) = shown i (step a i) + (elim (step a i) [ running b ↦ reported b is | _ ↦ 0 ])

  -- the lock is not poisoned
  abbrev pub IsReadable : Aggregator F Tx Db → Type 0
  IsReadable a = (s : StateSnapshot F) × (a.shared_state ≡ RwLock.healthy s)

  tick-conserves :
      (now_us : ℕ) (a b : Aggregator F Tx Db)
      → IsReadable a
      → handle_tick now_us a ≡ running b
      → IsReadable b
        × ((content b.shared_state).lost_events ≡ a.cumulative_lost_events)
        × (b.cumulative_lost_events ≡ 0)
  tick-conserves now_us a b (s, h) e =
      let (metrics, t) = handle_tick-Ticked now_us a b e in
      let eq : b.shared_state ≡ RwLock.healthy (built now_us a metrics) =
        t.shared ∙ ap (λ l. write l (built now_us a metrics)) h in
      ((built now_us a metrics, eq), rw eq, t.swapped)

  -- One round moves lost events between the counter and the reports, and makes none up.
  step-conserves :
      (a b : Aggregator F Tx Db) (i : Input)
      → IsReadable a
      → step a i ≡ running b
      → IsReadable b
        × ((shown i (running b) + b.cumulative_lost_events) % 2 ^ 64
            ≡ (a.cumulative_lost_events + lost_count (i ∷ [])) % 2 ^ 64)
  unfolding step
  step-conserves a b (received e) h k =
      subst
        (λ (c : Aggregator F Tx Db).
          IsReadable c
          × ((0 + c.cumulative_lost_events) % 2 ^ 64 ≡ (a.cumulative_lost_events + 0) % 2 ^ 64))
        (running-injective k) (h, omega arith)
  step-conserves a b channel_closed h k = absurd (ground arith)
  step-conserves a b (tick now_us) h k =
      let (r, lost, zeroed) = tick-conserves now_us a b h k in (r, omega arith)
  step-conserves a b event_lost h k =
      subst
        (λ (c : Aggregator F Tx Db).
          IsReadable c
          × ((0 + c.cumulative_lost_events) % 2 ^ 64 ≡ (a.cumulative_lost_events + 1) % 2 ^ 64))
        (running-injective k) (h, omega arith)

  reported-cons :
      (a c : Aggregator F Tx Db) (i : Input) (is : List Input)
      → step a i ≡ running c
      → reported a (i ∷ is) ≡ shown i (running c) + reported c is
  unfolding reported
  reported-cons a c i is e = rw (e, reported)

  -- While the loop runs and the lock is not poisoned: the `lost_events` of the snapshots that were
  -- readable under the lock, with what the counter still holds, are what it held at first and the
  -- events lost since, as 64-bit sums. None is reported twice, and none is forgotten.
  pub reported_all :
      (a b : Aggregator F Tx Db) (is : List Input)
      → IsReadable a
      → run a is ≡ running b
      → (reported a is + b.cumulative_lost_events) % 2 ^ 64
        ≡ (a.cumulative_lost_events + lost_count is) % 2 ^ 64
  unfolding run reported
  reported_all a b [] h k =
      omega (arith, ap (λ (c : Aggregator F Tx Db). c.cumulative_lost_events) (running-injective k))
  reported_all a b (i ∷ is) h k =
      let (c, e, rest) = and_then-running (step a i) (λ d. run d is) k in
      let (readable, one) = step-conserves a c i h e in
      omega (
        arith,
        one,
        reported_all c b is readable rest,
        reported-cons a c i is e,
        lost_count-cons i is,
      )
