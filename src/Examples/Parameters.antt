-- ===== src/Examples/Parameters.antt =====
-- The mapping of metrics and the OSC task at concrete inputs.
use daemon_choir.Base.{
  ℕ, ◌+◌, ◌*◌, ◌%◌, ◌^◌, ◌≤◌, ◌<◌, ◌≡◌, ◌≢◌, ◌↔◌, none, some, List, [], ◌∷◌, true, false, refl,
  arith, map, length, All,
}
use daemon_choir.Float.{◌≼◌}
use daemon_choir.Float.Fixed.{Fixed, fixed_f64, Fixed-IsIeee}
use daemon_choir.Metrics.{default_metrics}
use daemon_choir.Sync.{RwLock}
use daemon_choir.Sync.Bounded.{Chan, chan_sender}
use daemon_choir.Mapping.{MappedParam, MappingEngine, map_rules}
use daemon_choir.Mapping.Transform.{apply_transform}
use daemon_choir.Mapping.Bounds.{IsExact, IsInterval, apply_transform_bounds}
use daemon_choir.Metrics.Laws.{IsNormal}
use daemon_choir.Config.{MappingRule}
use daemon_choir.Mapping.Frames.{IsMusical, IsFrom, map_rules-IsFrom}
use daemon_choir.Mapping.Rules.{
  IsComparable, metric_addresses, apply_transform-none_iff, map_rules_total,
}
use daemon_choir.Osc.{World, OscDispatcher, bundle, dispatch}
use daemon_choir.Osc.Timetag.{
  Duration, osc_timetag, osc_timetag-fraction, osc_timetag-ne-ntp, ntp_offset,
}
use daemon_choir.Osc.Histogram.{empty, observe_all, count_at_most, IsCumulative, observe_all-counts}
use daemon_choir.Osc.Accounting.{Dispatched, dispatch-Dispatched}
use daemon_choir.Examples.Fixtures.{two_rules, chan_of, backend_of}

two_rules-IsComparable : All IsComparable two_rules
two_rules-IsComparable = ((refl, refl), ((refl, refl), tt))

map_rules_total_example :
    (ps : List (MappedParam Fixed)) × (map_rules default_metrics two_rules ≡ some ps)
    × (map (λ p. p.osc_address) ps ≡ metric_addresses two_rules)
map_rules_total_example =
    map_rules_total Fixed-IsIeee default_metrics two_rules two_rules-IsComparable

output : IsInterval {F = Fixed} Fixed-IsIeee 20_000_000 80_000_000
output = record { order = (refl, refl); low = refl; high = refl; width = refl }

input : IsInterval {F = Fixed} Fixed-IsIeee 0 1_000_000
input = record { order = (refl, refl); low = refl; high = refl; width = refl }

exact : IsExact "linear"
exact = (refl, refl)

apply_transform_bounds_example :
    (v : Fixed) × (apply_transform 250_000 "linear" 0 1_000_000 20_000_000 80_000_000 ≡ some v)
    × (20_000_000 ≼ v)
    × (v ≼ 80_000_000)
apply_transform_bounds_example =
    apply_transform_bounds Fixed-IsIeee 20_000_000 80_000_000 output 0 1_000_000 input "linear"
      exact 250_000 refl

apply_transform-none_iff_example :
    (apply_transform {F = Fixed} 250_000 "step" 0 1_000_000 20_000_000 80_000_000 ≡ none)
    ↔ ((fixed_f64.le 1_000_000 0 ≡ false) × (fixed_f64.le 0 1_000_000 ≡ false))
apply_transform-none_iff_example =
    apply_transform-none_iff 250_000 "step" 0 1_000_000 20_000_000 80_000_000

abbrev pub cpu_rule : MappingRule Fixed
cpu_rule = record {
  source_metric = "cpu.sched.latency_p95";
  osc_address = "/choir/cpu";
  transform = "linear";
  input_range = record { lo = 0; hi = 1_000_000 };
  output_range = record { lo = 20_000_000; hi = 80_000_000 };
}

pub cpu_rule-IsMusical : IsMusical Fixed-IsIeee cpu_rule
cpu_rule-IsMusical = record { transform = exact; input = input; output = output }

pub zeros-IsNormal : IsNormal {F = Fixed} default_metrics
zeros-IsNormal =
    ((refl, refl), (refl, refl), (refl, refl), (refl, refl), (refl, refl), (refl, refl))

map_rules-IsFrom_example :
    (ps : List (MappedParam Fixed)) × (map_rules default_metrics (cpu_rule ∷ []) ≡ some ps)
    × All (IsFrom Fixed-IsIeee (cpu_rule ∷ [])) ps
map_rules-IsFrom_example =
    map_rules-IsFrom Fixed-IsIeee default_metrics (cpu_rule ∷ []) zeros-IsNormal
      (cpu_rule-IsMusical, tt)

abbrev engine : MappingEngine Fixed (Chan (List (MappedParam Fixed)))
engine = record { tx = chan_of 1; rules = RwLock.healthy two_rules }

abbrev half_past : Duration
half_past = record { as_secs = 1_700_000_000; subsec_nanos = 500_000_000 }

osc_timetag-fraction_example :
    let frac = (osc_timetag half_past).fractional in
    (frac * 1_000_000_000 ≤ 500_000_000 * 2 ^ 32)
    × (500_000_000 * 2 ^ 32 < (frac + 1) * 1_000_000_000)
    × (frac < 2 ^ 32)
osc_timetag-fraction_example = osc_timetag-fraction half_past (omega arith)

osc_timetag-ne-ntp_example : (osc_timetag half_past).seconds ≢ (1_700_000_000 + ntp_offset) % 2 ^ 32
osc_timetag-ne-ntp_example = osc_timetag-ne-ntp half_past

abbrev milliseconds : List Fixed
milliseconds = 3_000_000 ∷ 12_000_000 ∷ 30_000_000 ∷ []

observe_all-counts_example :
    ((observe_all empty milliseconds).count ≡ 3)
    × ((observe_all empty milliseconds).bucket_le_5 ≡ count_at_most 5 milliseconds)
    × ((observe_all empty milliseconds).bucket_le_10 ≡ count_at_most 10 milliseconds)
    × ((observe_all empty milliseconds).bucket_le_20 ≡ count_at_most 20 milliseconds)
    × IsCumulative (observe_all empty milliseconds)
observe_all-counts_example = observe_all-counts Fixed-IsIeee milliseconds (omega arith)

abbrev pub world : World Fixed ℕ
world = record {
  encode = λ b. some (length b.content);
  send_to = λ attempt packet address. true;
  as_f32 = λ x. x;
  now = half_past;
  later = half_past;
}

abbrev dispatcher : OscDispatcher Fixed ℕ
dispatcher = record {
  backends = RwLock.healthy (backend_of "127.0.0.1:57120" ∷ backend_of "127.0.0.1:57121" ∷ []);
  metrics = record { osc_dispatch_total = 0; osc_dispatch_success_total = 0 };
  latency_histogram = empty;
  snapshot_timestamp_us = 5;
  delivered = [];
}

abbrev cpu_param : MappedParam Fixed
cpu_param = record { osc_address = "/choir/cpu"; value = 20_000_000 }

encoded : world.encode (bundle world (cpu_param ∷ [])) ≡ some 1
unfolding bundle
encoded = refl

dispatch-Dispatched_example :
    Dispatched world 0 1
      (backend_of "127.0.0.1:57120" ∷ backend_of "127.0.0.1:57121" ∷ [])
      dispatcher
      (dispatch world dispatcher (cpu_param ∷ []))
dispatch-Dispatched_example =
    dispatch-Dispatched world dispatcher cpu_param []
      (backend_of "127.0.0.1:57120" ∷ backend_of "127.0.0.1:57121" ∷ []) 1 refl encoded
