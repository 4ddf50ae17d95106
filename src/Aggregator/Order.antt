-- ===== src/Aggregator/Order.antt =====
-- The metrics of a window of aggregator.rs do not depend on the order in which its events arrived.
use mathlib.Core.List.{Perm, Permᴰ}
use mathlib.Core.Option
use mathlib.Core.Logic.{∥∥₁_elim}
use daemon_choir.Base.{
  ℕ, ◌≡◌, refl, ap, ◌∙◌, List, [], ◌∷◌, length, get_elem?, arith, Option, some, ◌>>=◌,
}
use daemon_choir.Metrics.{MetricMap}
use daemon_choir.Float.{F64}
use daemon_choir.Events.{RawEvent, EventPayload}
use daemon_choir.Aggregator.Window.{
  Totals, no_totals, push, add_payload, add_events, window_totals, insert_sorted, sort_unstable,
  percentile_index, raw_p95_latency,
}
use daemon_choir.Aggregator.Percentile.{length-sort}
use daemon_choir.Aggregator.Measure.{Emas, measure, next_emas, normalized}

insert_sorted_comm :
    (x y : ℕ) (l : List ℕ)
    → insert_sorted x (insert_sorted y l) ≡ insert_sorted y (insert_sorted x l)
unfolding insert_sorted
insert_sorted_comm x y [] = ground arith
insert_sorted_comm x y (z ∷ l) = ground (arith, insert_sorted_comm x y l)

sort-push : (l : List ℕ) (x : ℕ) → sort_unstable (push l x) ≡ insert_sorted x (sort_unstable l)
unfolding sort_unstable
sort-push [] x = refl
sort-push (y ∷ l) x =
    ap (insert_sorted y) (sort-push l x) ∙ insert_sorted_comm y x (sort_unstable l)

-- The totals with the latencies in order: all that the rest of the tick looks at.
abbrev sorted : Totals → Totals
sorted t = record t { cpu_latencies = sort_unstable t.cpu_latencies }

sorted-add_payload :
    (t u : Totals) (p : EventPayload)
    → sorted t ≡ sorted u
    → sorted (add_payload t p) ≡ sorted (add_payload u p)
unfolding add_payload
sorted-add_payload t u (EventPayload.cpu_sched e) h =
    ground (arith, sort-push t.cpu_latencies e.latency_ns, sort-push u.cpu_latencies e.latency_ns)
sorted-add_payload t u (EventPayload.mem_pressure e) h = ground arith
sorted-add_payload t u (EventPayload.net_io e) h = ground arith
sorted-add_payload t u (EventPayload.proc_lifecycle e) h = ground arith

add_payload_comm :
    (t : Totals) (p q : EventPayload)
    → sorted (add_payload (add_payload t p) q) ≡ sorted (add_payload (add_payload t q) p)
unfolding add_payload
add_payload_comm t (EventPayload.cpu_sched e) (EventPayload.cpu_sched d) = ground (
  arith,
  sort-push (push t.cpu_latencies e.latency_ns) d.latency_ns,
  sort-push (push t.cpu_latencies d.latency_ns) e.latency_ns,
  sort-push t.cpu_latencies e.latency_ns,
  sort-push t.cpu_latencies d.latency_ns,
  insert_sorted_comm e.latency_ns d.latency_ns (sort_unstable t.cpu_latencies),
)
add_payload_comm t (EventPayload.mem_pressure e) (EventPayload.mem_pressure d) = ground arith
add_payload_comm t (EventPayload.net_io e) (EventPayload.net_io d) = ground arith
add_payload_comm t p q = ground arith

sorted-add_events :
    (t u : Totals) (es : List RawEvent)
    → sorted t ≡ sorted u
    → sorted (add_events t es) ≡ sorted (add_events u es)
unfolding add_events
sorted-add_events t u [] h = h
sorted-add_events t u (e ∷ es) h =
    sorted-add_events (add_payload t e.payload) (add_payload u e.payload) es
      (sorted-add_payload t u e.payload h)

add_events_perm :
    (t : Totals) {es fs : List RawEvent}
    → Permᴰ es fs
    → sorted (add_events t es) ≡ sorted (add_events t fs)
unfolding add_events
add_events_perm t Permᴰ.nil = refl
add_events_perm t (Permᴰ.cons {a = a} {b = b} {l₁ = es} e d) =
    ap (λ x. sorted (add_events (add_payload t x.payload) es)) e
    ∙ add_events_perm (add_payload t b.payload) d
add_events_perm t (Permᴰ.swap {a = a} {b = b} {a' = a'} {b' = b'} {l = es} e d) =
    ap (λ x. sorted (add_events (add_payload (add_payload t x.payload) b.payload) es)) e
    ∙ ap (λ x. sorted (add_events (add_payload (add_payload t b'.payload) x.payload) es)) d
    ∙ sorted-add_events _ _ es (add_payload_comm t b'.payload a'.payload)
add_events_perm t (Permᴰ.trans d e) = add_events_perm t d ∙ add_events_perm t e

Totals-set : IsSet Totals
Totals-set = hlevel

-- A permutation of the events changes no total but the order of the latencies.
window_totals_perm :
    (es fs : List RawEvent) → Perm es fs → sorted (window_totals es) ≡ sorted (window_totals fs)
unfolding window_totals
window_totals_perm es fs p = ∥∥₁_elim p (Totals-set _ _) (add_events_perm no_totals)

raw_p95-sort :
    {F : Type 0} ⦃f : F64 F⦄ (l m : List ℕ)
    → sort_unstable l ≡ sort_unstable m
    → raw_p95_latency {F = F} l ≡ raw_p95_latency m
unfolding raw_p95_latency
raw_p95-sort [] [] h = refl
raw_p95-sort [] (y ∷ m) h = absurd (omega (arith, ap length h, length-sort (y ∷ m)))
raw_p95-sort (x ∷ l) [] h = absurd (omega (arith, ap length h, length-sort (x ∷ l)))
raw_p95-sort {F} ⦃f⦄ (x ∷ l) (y ∷ m) h =
    ap (λ s. Option.map f.of_nat (get_elem? s (percentile_index F (length s)))) h

-- the tick from the percentile on
abbrev finish : {F : Type 0} ⦃f : F64 F⦄ → F → Totals → Emas F → Option (Emas F × MetricMap F)
finish p95 t emas = do
  let emas' = next_emas p95 t emas
  metrics ← normalized emas'
  some (emas', metrics)

-- However the events of a window are reordered, the averages and metrics are the same.
pub measure_perm :
    {F : Type 0} ⦃f : F64 F⦄ (es fs : List RawEvent) (emas : Emas F)
    → Perm es fs
    → measure es emas ≡ measure fs emas
unfolding measure next_emas
measure_perm {F} es fs emas p =
    let same = window_totals_perm es fs p in
    let latencies = (window_totals fs).cpu_latencies in
    rw (raw_p95-sort (window_totals es).cpu_latencies latencies (ap (λ t. t.cpu_latencies) same))
      (ap (λ t. raw_p95_latency {F = F} latencies >>= λ p95. finish p95 t emas) same)
