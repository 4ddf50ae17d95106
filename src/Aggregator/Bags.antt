-- ===== src/Aggregator/Bags.antt =====
-- The loop of aggregator.rs seen with its window as a bag: in which order the events of a window come, among
-- each other and among the losses, makes no difference.
use mathlib.Core.List.{Perm, Permᴰ, append_assoc}
use mathlib.Core.List.Perm
use mathlib.Core.Logic.{∥∥₁_elim}
use mathlib.Core.Quot
use mathlib.Core.Quot.{Quot}
use native.Mathlib.Nat.{ℕ_set}
use daemon_choir.Base.{ℕ, ◌≡◌, refl, ap, ◌∙◌, Option-cases, inl, inr, List, [], ◌∷◌, ◌++◌}
use daemon_choir.Float.{F64}
use daemon_choir.Events.{RawEvent}
use daemon_choir.Metrics.{StateSnapshot}
use daemon_choir.Sync.{Sender, TrySend}
use daemon_choir.Aggregator.Measure.{measure}
use daemon_choir.Aggregator.Order.{measure_perm}
use daemon_choir.Aggregator.{
  Aggregator, Flow, running, stopped, panicked, and_then, Input, received, channel_closed, tick,
  event_lost, count_empty, after_send, publish, handle_tick, step, run,
}

-- events, however they are ordered
abbrev pub Bag : Type 0
Bag = Quot (Perm {A = RawEvent})

-- the aggregator without its window, and the bag of the window's events
abbrev pub Seen : Type 0 → Type 0 → Type 0 → Type 0
Seen F Tx Db = Aggregator F Tx Db × Bag

abbrev pub seen : {F Tx Db : Type 0} → Aggregator F Tx Db → Seen F Tx Db
seen a = (record a { current_window_events = [] }, Quot.mk a.current_window_events)

abbrev pub seen_flow : {F Tx Db : Type 0} → Flow (Aggregator F Tx Db) → Flow (Seen F Tx Db)
seen_flow (running a) = running (seen a)
seen_flow (stopped a) = stopped (seen a)
seen_flow panicked = panicked

-- The second list of inputs is the first with neighbours swapped that are no ticks and no end.
pub data Reordered : List Input → List Input → Type 0 where
  same : (is : List Input) → Reordered is is
  keeps : {is js : List Input} (i : Input) → Reordered is js → Reordered (i ∷ is) (i ∷ js)
  swaps :
      {is : List Input} (e d : RawEvent)
      → Reordered (received e ∷ received d ∷ is) (received d ∷ received e ∷ is)
  earlier :
      {is : List Input} (e : RawEvent)
      → Reordered (received e ∷ event_lost ∷ is) (event_lost ∷ received e ∷ is)
  later :
      {is : List Input} (e : RawEvent)
      → Reordered (event_lost ∷ received e ∷ is) (received e ∷ event_lost ∷ is)
  chain : {is js ks : List Input} → Reordered is js → Reordered js ks → Reordered is ks

count_emptyᴰ : {es fs : List RawEvent} (n : ℕ) → Permᴰ es fs → count_empty es n ≡ count_empty fs n
unfolding count_empty
count_emptyᴰ n Permᴰ.nil = refl
count_emptyᴰ n (Permᴰ.cons e d) = refl
count_emptyᴰ n (Permᴰ.swap e d) = refl
count_emptyᴰ n (Permᴰ.trans d e) = count_emptyᴰ n d ∙ count_emptyᴰ n e

count_empty_perm :
    (es fs : List RawEvent) (n : ℕ) → Perm es fs → count_empty es n ≡ count_empty fs n
count_empty_perm es fs n p = ∥∥₁_elim p (ℕ_set _ _) (count_emptyᴰ n)

in_any_order :
    (es : List RawEvent) (e d : RawEvent)
    → Perm ((es ++ (e ∷ [])) ++ (d ∷ [])) ((es ++ (d ∷ [])) ++ (e ∷ []))
in_any_order es e d =
    rw (append_assoc es (e ∷ []) (d ∷ []), append_assoc es (d ∷ []) (e ∷ []))
      (Perm.append_left es (Perm.swap d e []))

module _ {F Tx Db : Type 0} ⦃f : F64 F⦄ ⦃tx : Sender (StateSnapshot F) Tx⦄
    ⦃db : Sender (StateSnapshot F) Db⦄ where
  abbrev with_window : Aggregator F Tx Db → List RawEvent → Aggregator F Tx Db
  with_window a es = record a { current_window_events = es }

  seen_perm :
      (a : Aggregator F Tx Db) (es fs : List RawEvent)
      → Perm es fs
      → seen (with_window a es) ≡ seen (with_window a fs)
  seen_perm a es fs p = ap (λ w. (with_window a [], w)) (Quot.sound p)

  -- the window when `tx` was found closed, and no difference otherwise
  after_send_perm :
      (t : TrySend) (snapshot : StateSnapshot F) (a : Aggregator F Tx Db) (es fs : List RawEvent)
      (k : Aggregator F Tx Db → Flow (Aggregator F Tx Db))
      → Perm es fs
      → seen_flow (and_then (after_send t snapshot (with_window a es)) k)
        ≡ seen_flow (and_then (after_send t snapshot (with_window a fs)) k)
  unfolding after_send
  after_send_perm TrySend.sent snapshot a es fs k p = refl
  after_send_perm TrySend.full snapshot a es fs k p = refl
  after_send_perm TrySend.closed snapshot a es fs k p = ap stopped (seen_perm a es fs p)

  handle_tick_perm :
      (now_us : ℕ) (a : Aggregator F Tx Db) (es fs : List RawEvent)
      (k : Aggregator F Tx Db → Flow (Aggregator F Tx Db))
      → Perm es fs
      → seen_flow (and_then (handle_tick now_us (with_window a es)) k)
        ≡ seen_flow (and_then (handle_tick now_us (with_window a fs)) k)
  unfolding handle_tick publish
  handle_tick_perm now_us a es fs k p = elim (Option-cases (measure fs a.emas)) [
    | inl m ↦ rw (measure_perm es fs a.emas p ∙ m, m, handle_tick) refl
    | inr ((emas', metrics), m) ↦
        rw (measure_perm es fs a.emas p ∙ m, m, handle_tick)
          (rw (count_empty_perm es fs a.consecutive_empty_windows p) (
            after_send_perm _ _
              (record a {
                tx = _;
                shared_state = _;
                snapshot_timestamp_us = now_us;
                cumulative_lost_events = 0;
                emas = emas';
                consecutive_empty_windows = _;
              })
              es fs k p))
  ]

  -- two aggregators that differ in the order of their windows' events only
  run_perm :
      (a : Aggregator F Tx Db) (es fs : List RawEvent) (is : List Input)
      → Perm es fs
      → seen_flow (run (with_window a es) is) ≡ seen_flow (run (with_window a fs) is)
  unfolding run step
  run_perm a es fs [] p = ap running (seen_perm a es fs p)
  run_perm a es fs (received e ∷ is) p =
      run_perm a (es ++ (e ∷ [])) (fs ++ (e ∷ [])) is (Perm.append_right (e ∷ []) p)
  run_perm a es fs (channel_closed ∷ is) p = ap stopped (seen_perm a es fs p)
  run_perm a es fs (tick now_us ∷ is) p = handle_tick_perm now_us a es fs (λ b. run b is) p
  run_perm a es fs (event_lost ∷ is) p =
      run_perm (record a { cumulative_lost_events = _ }) es fs is p

  and_then-seen :
      (r : Flow (Aggregator F Tx Db)) (k l : Aggregator F Tx Db → Flow (Aggregator F Tx Db))
      → ((b : Aggregator F Tx Db) → seen_flow (k b) ≡ seen_flow (l b))
      → seen_flow (and_then r k) ≡ seen_flow (and_then r l)
  and_then-seen (running b) k l h = h b
  and_then-seen (stopped b) k l h = refl
  and_then-seen panicked k l h = refl

  -- Whatever is received and lost between two ticks may come in any order: the loop goes on, stops or
  -- panics alike, and everything in its state, what it published and sent included, is the same but
  -- for the order of the events in the current window.
  pub run-Reordered :
      (a : Aggregator F Tx Db) (is js : List Input)
      → Reordered is js
      → seen_flow (run a is) ≡ seen_flow (run a js)
  unfolding run step
  run-Reordered a is js (same ks) = refl
  run-Reordered a is js (keeps {is = is'} {js = js'} i r) =
      and_then-seen (step a i) (λ b. run b is') (λ b. run b js') (λ b. run-Reordered b is' js' r)
  run-Reordered a is js (swaps {is = is'} e d) =
      run_perm a _ _ is' (in_any_order a.current_window_events e d)
  run-Reordered a is js (earlier e) = refl
  run-Reordered a is js (later e) = refl
  run-Reordered a is js (chain {js = js'} r s) = run-Reordered a is js' r ∙ run-Reordered a js' js s
