-- ===== src/Examples/Streams.antt =====
-- The aggregator and the ring buffer's task at concrete inputs.
use daemon_choir.Base.{
  ℕ, ◌+◌, ◌%◌, ◌^◌, ◌≤◌, ◌<◌, suc, some, List, [], ◌∷◌, ◌≡◌, ◌↔◌, true, refl, arith, take,
}
use daemon_choir.Float.Fixed.{Fixed, fixed_f64, Fixed-IsIeee}
use daemon_choir.Events.{RawEvent}
use daemon_choir.Metrics.{StateSnapshot}
use daemon_choir.Sync.{RwLock}
use daemon_choir.Sync.Bounded.{Chan, chan_sender, Chan-IsMpsc}
use daemon_choir.Aggregator.{
  Aggregator, running, Input, received, tick, event_lost, new, run, step, handle_tick, publish,
  after_send, tap, clamp_window, count_empty, is_stale,
}
use daemon_choir.Metrics.{compute_ema, normalize_min_max}
use daemon_choir.Aggregator.Measure.{no_emas, measure, next_emas, normalized}
use daemon_choir.Aggregator.Window.{
  raw_p95_latency, percentile_index, window_totals, add_events, add_payload, sort_unstable,
  insert_sorted,
}
use daemon_choir.Aggregator.Percentile.{count_le, count_ge, raw_p95_rank}
use daemon_choir.Aggregator.Bags.{Reordered, seen_flow, run-Reordered}
use daemon_choir.Aggregator.Safety.{IsNonneg}
use daemon_choir.Aggregator.Invariant.{Holds, IsSafe, run-IsSafe}
use daemon_choir.Aggregator.Staleness.{observe_all, quiet, stale_iff}
use daemon_choir.Aggregator.Isolation.{without_db, forget_db, run-without_db}
use daemon_choir.Aggregator.Loss.{reported, lost_count, reported_all}
use daemon_choir.Ringbuf.{RingbufConsumer, consume_all, consume_all-keeps}
use daemon_choir.Examples.Fixtures.{switch_of, packet_event, some_events, chan_of, first_snapshot}

abbrev Channel : Type 0
Channel = Chan (StateSnapshot Fixed)

abbrev fresh : Aggregator Fixed Channel Channel
fresh = new (chan_of 2) (some (chan_of 1)) 50 (RwLock.healthy first_snapshot) 0 0

abbrev inputs : List Input
inputs =
    received (switch_of 4000)
    ∷ event_lost
    ∷ received packet_event
    ∷ tick 50_000
    ∷ event_lost
    ∷ tick 100_000
    ∷ tick 150_000
    ∷ []

no_emas-IsNonneg : IsNonneg {F = Fixed} no_emas
no_emas-IsNonneg = record {
  cpu_latency = refl;
  cpu_rate = refl;
  mem_pressure = refl;
  net_tx = refl;
  net_rx = refl;
  proc_exec = refl;
}

fresh-IsSafe : IsSafe fresh
unfolding new
fresh-IsSafe = record {
  averages = no_emas-IsNonneg;
  shared = ((refl, refl), (refl, refl), (refl, refl), (refl, refl), (refl, refl), (refl, refl));
  forwarded = tt;
  stored = tt;
}

run-IsSafe_example : Holds IsSafe (run fresh inputs)
run-IsSafe_example = run-IsSafe Fixed-IsIeee Chan-IsMpsc Chan-IsMpsc fresh inputs fresh-IsSafe

-- the inputs above with the packet before the loss and both before the switch
abbrev other_order : List Input
other_order =
    received packet_event
    ∷ received (switch_of 4000)
    ∷ event_lost
    ∷ tick 50_000
    ∷ event_lost
    ∷ tick 100_000
    ∷ tick 150_000
    ∷ []

inputs-other_order : Reordered inputs other_order
inputs-other_order =
    Reordered.chain (Reordered.keeps (received (switch_of 4000)) (Reordered.later packet_event))
      (Reordered.chain (Reordered.swaps (switch_of 4000) packet_event) (Reordered.same other_order))

run-Reordered_example : seen_flow (run fresh inputs) ≡ seen_flow (run fresh other_order)
run-Reordered_example = run-Reordered fresh inputs other_order inputs-other_order

raw_p95_rank_example :
    let index = percentile_index Fixed 3 in
    (v : ℕ) × (raw_p95_latency (4000 ∷ 2500 ∷ 3000 ∷ []) ≡ some (fixed_f64.of_nat v))
    × (index < 3)
    × (suc index ≤ count_le v (4000 ∷ 2500 ∷ 3000 ∷ []))
    × (3 ≤ count_ge v (4000 ∷ 2500 ∷ 3000 ∷ []) + index)
raw_p95_rank_example = raw_p95_rank (4000 ∷ 2500 ∷ 3000 ∷ []) (omega arith)

-- the aggregator after the inputs
final : Aggregator Fixed Channel Channel
final = elim (run fresh inputs) [ running b ↦ b | _ ↦ fresh ]

run-final : run fresh inputs ≡ running final
unfolding final run step handle_tick publish after_send tap new clamp_window count_empty is_stale
    measure next_emas normalized compute_ema normalize_min_max window_totals add_events add_payload
    raw_p95_latency sort_unstable insert_sorted percentile_index
run-final = refl

stale_iff_example :
    let n = (observe_all quiet inputs).empty % 2 ^ 32 in
    (r : StateSnapshot Fixed) × (final.shared_state ≡ RwLock.healthy r)
    × ((r.stale ≡ true) ↔ ((5 ≤ n) × (n < 2 ^ 31)))
stale_iff_example =
    stale_iff (chan_of 2) (some (chan_of 1)) 50 0 0 first_snapshot inputs run-final refl

fresh-IsReadable : (s : StateSnapshot Fixed) × (fresh.shared_state ≡ RwLock.healthy s)
unfolding new
fresh-IsReadable = (first_snapshot, refl)

reported_all_example :
    (reported fresh inputs + final.cumulative_lost_events) % 2 ^ 64
    ≡ (fresh.cumulative_lost_events + lost_count inputs) % 2 ^ 64
reported_all_example = reported_all fresh final inputs fresh-IsReadable run-final

run-without_db_example : forget_db (run fresh inputs) ≡ run (without_db fresh) inputs
run-without_db_example = run-without_db fresh inputs

abbrev consumer : RingbufConsumer (Chan RawEvent)
consumer = record { aggregator_tx = chan_of 2; insertions = [] }

consume_all-keeps_example :
    ((consume_all consumer some_events).insertions ≡ some_events)
    × ((consume_all consumer some_events).aggregator_tx.items ≡ take 2 some_events)
consume_all-keeps_example = consume_all-keeps Chan-IsMpsc consumer some_events refl
