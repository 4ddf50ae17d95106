-- ===== src/Aggregator/Window.antt =====
-- The tick of aggregator.rs, first half: the sums over the events of a window, and the 95th percentile.
use daemon_choir.Base.{
  ℕ, ◌-◌, Option, some, List, [], ◌∷◌, if◌then◌else◌, leb, length, get_elem?, add64, min, ◌++◌,
}
use mathlib.Core.Option
use daemon_choir.Float.{F64, nought}
use daemon_choir.Events.{RawEvent, EventPayload}

-- the variables that the loop over the window's events updates
pub record Totals : Type 0 where
  pub cpu_latencies : List ℕ
  pub context_switches : ℕ
  pub pages_reclaimed : ℕ
  pub bytes_tx : ℕ
  pub bytes_rx : ℕ
  pub proc_execs : ℕ

abbrev pub no_totals : Totals
no_totals = record {
  cpu_latencies = [];
  context_switches = 0;
  pages_reclaimed = 0;
  bytes_tx = 0;
  bytes_rx = 0;
  proc_execs = 0;
}

-- `push`, at the end of a vector
abbrev pub push : List ℕ → ℕ → List ℕ
push xs x = xs ++ (x ∷ [])

-- one round of the loop
unfoldable pub add_payload : Totals → EventPayload → Totals
add_payload t (EventPayload.cpu_sched e) = record t {
  cpu_latencies = push t.cpu_latencies e.latency_ns;
  context_switches = add64 t.context_switches 1;
}
add_payload t (EventPayload.mem_pressure e) = record t {
  pages_reclaimed = add64 t.pages_reclaimed e.pages_reclaimed;
}
add_payload t (EventPayload.net_io e) = record t {
  bytes_tx = add64 t.bytes_tx e.bytes_tx;
  bytes_rx = add64 t.bytes_rx e.bytes_rx;
}
add_payload t (EventPayload.proc_lifecycle e) = record t { proc_execs = add64 t.proc_execs 1 }

unfoldable pub add_events : Totals → List RawEvent → Totals
add_events t [] = t
add_events t (e ∷ es) = add_events (add_payload t e.payload) es

unfoldable pub window_totals : List RawEvent → Totals
unfolding add_events add_payload
window_totals es = add_events no_totals es

-- `sort_unstable` on numbers: a number's place among equals cannot be seen
unfoldable pub insert_sorted : ℕ → List ℕ → List ℕ
insert_sorted x [] = x ∷ []
insert_sorted x (y ∷ ys) = if leb x y then x ∷ y ∷ ys else y ∷ insert_sorted x ys

unfoldable pub sort_unstable : List ℕ → List ℕ
unfolding insert_sorted
sort_unstable [] = []
sort_unstable (x ∷ xs) = insert_sorted x (sort_unstable xs)

-- `idx_clamped`, for a vector of this length
unfoldable pub percentile_index : (F : Type 0) ⦃f : F64 F⦄ → ℕ → ℕ
percentile_index F ⦃f⦄ len = min (f.to_u64 (f.floor (f.mul (f.of_nat len) (f.lit 95 2)))) (len - 1)

-- `none` is an index out of bounds
unfoldable pub raw_p95_latency : {F : Type 0} ⦃f : F64 F⦄ → List ℕ → Option F
unfolding sort_unstable
raw_p95_latency [] = some nought
raw_p95_latency {F} ⦃f⦄ (x ∷ xs) =
    let sorted = sort_unstable (x ∷ xs) in
    Option.map f.of_nat (get_elem? sorted (percentile_index F (length sorted)))
