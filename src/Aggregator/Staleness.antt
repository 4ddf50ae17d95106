-- ===== src/Aggregator/Staleness.antt =====
-- When the loop of aggregator.rs marks its snapshots as stale.
use daemon_choir.Base.{
  ℕ, ◌+◌, ◌%◌, ◌^◌, ◌≤◌, ◌<◌, ◌≡◌, refl, Bool, true, false, not, List, [], ◌∷◌, ◌++◌, if◌then◌else◌,
  arith, ◌↔◌, Option, subst, ap, ◌∙◌,
}
use daemon_choir.Float.{F64}
use daemon_choir.Metrics.{StateSnapshot}
use daemon_choir.Events.{RawEvent}
use daemon_choir.Sync.{RwLock, write, Sender}
use daemon_choir.Aggregator.Effects.{handle_tick-Ticked, built, running-injective, and_then-running}
use daemon_choir.Aggregator.{
  Aggregator, running, Input, received, channel_closed, tick, event_lost, count_empty, is_stale,
  handle_tick, step, run, new,
}

-- What an observer counts from the inputs alone: whether events wait for the next tick, how many
-- windows in a row were empty (with no bound), and whether there was a tick.
pub record Silence : Type 0 where
  pub pending : Bool
  pub empty : ℕ
  pub ticked : Bool

abbrev pub observe : Silence → Input → Silence
observe o (received e) = record o { pending = true }
observe o channel_closed = o
observe o (tick _) = record {
  pending = false;
  empty = if o.pending then 0 else o.empty + 1;
  ticked = true;
}
observe o event_lost = o

abbrev pub observe_all : Silence → List Input → Silence
observe_all o [] = o
observe_all o (i ∷ is) = observe_all (observe o i) is

abbrev pub quiet : Silence
quiet = record { pending = false; empty = 0; ticked = false }

abbrev is_empty : List RawEvent → Bool
is_empty [] = true
is_empty (_ ∷ _) = false

is_empty-append : (es : List RawEvent) (e : RawEvent) → is_empty (es ++ (e ∷ [])) ≡ false
is_empty-append [] e = refl
is_empty-append (x ∷ es) e = refl

count_empty_lem :
    (es : List RawEvent) (n k : ℕ)
    → k ≡ n % 2 ^ 32
    → count_empty es k ≡ (if is_empty es then (n + 1) % 2 ^ 32 else 0)
unfolding count_empty
count_empty_lem [] n k e = omega arith
count_empty_lem (_ ∷ _) n k e = refl

-- The published snapshot, which is there since the lock is not poisoned, has the flag of the count.
abbrev Flagged : {F : Type 0} → Bool → ℕ → RwLock (StateSnapshot F) → Type 0
Flagged true n (RwLock.healthy s) = s.stale ≡ is_stale (n % 2 ^ 32)
Flagged false n (RwLock.healthy s) = Unit
Flagged _ n (RwLock.poisoned s) = ⊥

Flagged-write :
    {F : Type 0} (t : Bool) (n m : ℕ) (l : RwLock (StateSnapshot F)) (s : StateSnapshot F)
    → Flagged t n l
    → s.stale ≡ is_stale (m % 2 ^ 32)
    → Flagged true m (write l s)
Flagged-write true n m (RwLock.healthy _) s v e = e
Flagged-write false n m (RwLock.healthy _) s v e = e
Flagged-write true n m (RwLock.poisoned _) s v e = elim v [ ]
Flagged-write false n m (RwLock.poisoned _) s v e = elim v [ ]

Flagged-healthy :
    {F : Type 0} (n : ℕ) (l : RwLock (StateSnapshot F))
    → Flagged true n l
    → (s : StateSnapshot F) × (l ≡ RwLock.healthy s) × (s.stale ≡ is_stale (n % 2 ^ 32))
Flagged-healthy n (RwLock.healthy s) v = (s, refl, v)
Flagged-healthy n (RwLock.poisoned s) v = elim v [ ]

module _ {F Tx Db : Type 0} ⦃f : F64 F⦄ ⦃tx : Sender (StateSnapshot F) Tx⦄
    ⦃db : Sender (StateSnapshot F) Db⦄ where
  record Tracks (o : Silence) (a : Aggregator F Tx Db) : Type 0 where
    waits : is_empty a.current_window_events ≡ not o.pending
    counts : a.consecutive_empty_windows ≡ o.empty % 2 ^ 32
    flagged : Flagged o.ticked o.empty a.shared_state

  tick-Tracks :
      (o : Silence) (now_us : ℕ) (a b : Aggregator F Tx Db)
      → Tracks o a
      → handle_tick now_us a ≡ running b
      → Tracks (observe o (tick now_us)) b
  tick-Tracks o now_us a b v e =
      let (metrics, t) = handle_tick-Ticked now_us a b e in
      let n = if o.pending then 0 else o.empty + 1 in
      let count : count_empty a.current_window_events a.consecutive_empty_windows ≡ n % 2 ^ 32 =
        ground (
          arith,
          count_empty_lem a.current_window_events o.empty a.consecutive_empty_windows v.counts,
          v.waits,
        ) in
      record {
        waits = rw t.cleared;
        counts = t.counted ∙ count;
        flagged = rw t.shared (
            Flagged-write o.ticked o.empty n a.shared_state (built now_us a metrics) v.flagged
              (ap is_stale count));
      }

  step-Tracks :
      (o : Silence) (i : Input) (a b : Aggregator F Tx Db)
      → Tracks o a
      → step a i ≡ running b
      → Tracks (observe o i) b
  unfolding step
  step-Tracks o (received e) a b v h = subst (Tracks _) (running-injective h) (record {
    waits = is_empty-append a.current_window_events e;
    counts = v.counts;
    flagged = v.flagged;
  })
  step-Tracks o channel_closed a b v h = absurd (ground arith)
  step-Tracks o (tick now_us) a b v h = tick-Tracks o now_us a b v h
  step-Tracks o event_lost a b v h =
      subst (Tracks _) (running-injective h)
        (record { waits = v.waits; counts = v.counts; flagged = v.flagged })

  run-Tracks :
      (o : Silence) (is : List Input) (a b : Aggregator F Tx Db)
      → Tracks o a
      → run a is ≡ running b
      → Tracks (observe_all o is) b
  unfolding run
  run-Tracks o [] a b v h = subst (Tracks o) (running-injective h) v
  run-Tracks o (i ∷ is) a b v h =
      let (c, e, rest) = and_then-running (step a i) (λ d. run d is) h in
      run-Tracks (observe o i) is c b (step-Tracks o i a c v e) rest

  -- From a fresh aggregator whose lock is not poisoned, after any inputs with a tick among them
  -- after which the loop still runs: the published snapshot is stale exactly when the number of
  -- empty windows in a row, taken modulo 2^32, is at least 5 and below 2^31.
  pub stale_iff :
      (t : Tx) (d : Option Db) (window stamp lost : ℕ) (s : StateSnapshot F) (is : List Input)
      {b : Aggregator F Tx Db}
      → run (new t d window (RwLock.healthy s) stamp lost) is ≡ running b
      → (observe_all quiet is).ticked ≡ true
      → let n = (observe_all quiet is).empty % 2 ^ 32 in
        (r : StateSnapshot F) × (b.shared_state ≡ RwLock.healthy r)
        × ((r.stale ≡ true) ↔ ((5 ≤ n) × (n < 2 ^ 31)))
  unfolding new is_stale
  stale_iff t d window stamp lost s is {b} h ticks =
      let start : Tracks quiet (new t d window (RwLock.healthy s) stamp lost) = record {
        waits = refl;
        counts = refl;
        flagged = tt;
      } in
      let end = run-Tracks quiet is _ b start h in
      let n = (observe_all quiet is).empty in
      let (r, e, flag) =
        Flagged-healthy n b.shared_state
          (subst (λ k. Flagged k n b.shared_state) ticks end.flagged) in
      (r, e, ground (arith, flag))
