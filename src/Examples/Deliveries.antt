-- ===== src/Examples/Deliveries.antt =====
-- A tick of the whole program, and what becomes of its snapshot.
use daemon_choir.Base.{◌≡◌, refl, true, some, ◌++◌}
use daemon_choir.Float.Fixed.{fixed_f64, Fixed-IsIeee}
use daemon_choir.Metrics.{normalize_min_max, get_value}
use daemon_choir.Sync.Bounded.{chan_sender, chan_receiver, Chan-IsMpsc, Chan-IsFifo}
use daemon_choir.Aggregator
use daemon_choir.Aggregator.{step, handle_tick}
use daemon_choir.Aggregator.Window.{raw_p95_latency, window_totals}
use daemon_choir.Aggregator.Measure.{measure, normalized}
use daemon_choir.Mapping.{map_rules, map_snapshot}
use daemon_choir.Mapping.Transform.{apply_transform}
use daemon_choir.Probes.{new, start}
use daemon_choir.System.Start.{wired, started}
use daemon_choir.System.Engine.{IsGood}
use daemon_choir.System.Safety.{performs, Reach, here, then_step}
use daemon_choir.Within.{IsWithin}
use daemon_choir.System.OutLog.{snapshots_of, frames_of, run_out_log}
use daemon_choir.System.Delivery.{launch-delivers}
use daemon_choir.System.{goes, aggregator_ticks, mapping_receives, perform}
use daemon_choir.Examples.Fixtures.{tables_sql, some_rows}
use daemon_choir.Examples.Sources.{no_kernel}
use daemon_choir.Examples.Whole.{
  IsAudible, config, Machine, machine, machine_of, all_sockets, machine-launched, all_sockets,
}

-- after a tick, and after the mapping engine took its snapshot
abbrev ticked : Machine
ticked = machine_of (perform tables_sql machine (aggregator_ticks 50_000))

abbrev mapped : Machine
mapped = machine_of (perform tables_sql ticked mapping_receives)

tick-goes : perform tables_sql machine (aggregator_ticks 50_000) ≡ goes ticked
unfolding perform wired started start new step handle_tick measure raw_p95_latency window_totals
    Aggregator.new normalized normalize_min_max
tick-goes = refl

mapping-goes : perform tables_sql ticked mapping_receives ≡ goes mapped
unfolding perform wired started start new step handle_tick measure raw_p95_latency window_totals
    Aggregator.new normalized normalize_min_max map_snapshot map_rules get_value apply_transform
mapping-goes = refl

mapped-reached : Reach tables_sql (IsGood Fixed-IsIeee IsAudible) machine mapped
mapped-reached =
    then_step (then_step here (performs (aggregator_ticks 50_000) tt tick-goes))
      (performs mapping_receives tt mapping-goes)

launch-delivers_example :
    IsWithin
      (snapshots_of (run_out_log mapped-reached).mapped ++ mapped.aggregator.tx.items)
      (run_out_log mapped-reached).snapshots
    × IsWithin
        ((run_out_log mapped-reached).dispatched ++ mapped.params.items)
        (frames_of (run_out_log mapped-reached).mapped)
launch-delivers_example =
    launch-delivers Chan-IsMpsc Chan-IsMpsc Chan-IsFifo Chan-IsFifo tables_sql no_kernel
      (IsGood Fixed-IsIeee IsAudible) config true (some some_rows) all_sockets machine-launched
      mapped-reached
