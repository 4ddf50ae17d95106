-- ===== src/Examples/Whole.antt =====
-- The whole program at a concrete configuration: simulated probes, two tables, channels of lists.
use daemon_choir.Base.{ℕ, ◌≡◌, ◌≢◌, refl, true, false, none, some, List, [], ◌∷◌, ◌++◌, All}
use daemon_choir.Float.{◌≼◌}
use daemon_choir.Float.Fixed.{Fixed, fixed_f64, Fixed-IsIeee}
use daemon_choir.Config.{Config, default_config}
use daemon_choir.Events.{RawEvent}
use daemon_choir.Metrics.{StateSnapshot}
use daemon_choir.Sync.Bounded.{Chan, chan_sender, chan_receiver, Chan-IsMpsc, Chan-IsFifo}
use daemon_choir.Mapping.{MappedParam}
use daemon_choir.Aggregator.Invariant.{IsPublishable, content}
use daemon_choir.System.Start.{Sockets, launched, wired, started, launch}
use daemon_choir.System.Engine.{IsGood, musical-IsGood}
use daemon_choir.System.Invariant.{IsSound}
use daemon_choir.System.Safety.{performs, Reach, here, then_step}
use daemon_choir.System.Launched.{launch-IsSafe}
use daemon_choir.Within.{IsWithin}
use daemon_choir.System.Refinement.{configured, launch-refines}
use daemon_choir.Aggregator
use daemon_choir.Aggregator.{Flow, Input}
use daemon_choir.Aggregator.Alone.{sink_sender, alone}
use daemon_choir.System.Ending.{stopped, await_end, launch-stops}
use daemon_choir.Api.{HttpRequest}
use daemon_choir.Paths.{Variables}
use daemon_choir.Db.Open.{FileSystem}
use daemon_choir.System.Progress.{launch-drains}
use daemon_choir.System.Boot.{default_toml}
use daemon_choir.System.{
  api_serves, System, Outcome, goes, dies, Task, probe_sends, ringbuf_receives, aggregator_receives,
  ringbuf_round, aggregator_round, perform, probe_sends_to,
}
use daemon_choir.Examples.Fixtures.{tables_sql, some_rows, switch_of, Tables}
use daemon_choir.Examples.Parameters.{cpu_rule, cpu_rule-IsMusical, world}
use daemon_choir.Examples.Sources.{no_kernel}
use daemon_choir.Probes.{ProbeManager, new, start}
use daemon_choir.Probes.Pump.{send_event}
use daemon_choir.Ringbuf.{consume}

-- no parameter may be below 20
abbrev pub IsAudible : MappedParam Fixed → Type 0
IsAudible p = 20_000_000 ≼ p.value

abbrev pub config : Config Fixed
config = record default_config { mapping = cpu_rule ∷ [] }

pub config-IsGood : All (IsGood Fixed-IsIeee IsAudible) config.mapping
config-IsGood =
    (musical-IsGood Fixed-IsIeee IsAudible cpu_rule cpu_rule-IsMusical (λ p h. h.low), tt)

abbrev pub Machine : Type 0
Machine =
    System Fixed (Chan RawEvent) (Chan (StateSnapshot Fixed)) (Chan (List (MappedParam Fixed))) ℕ
      Tables

abbrev pub machine : Machine
machine = wired ℕ tables_sql no_kernel config true (some some_rows)

-- every socket can be bound
abbrev pub all_sockets : Sockets
all_sockets = record { udp = true; tcp = λ port. true }

pub machine-launched :
    launch ℕ tables_sql no_kernel config true (some some_rows) all_sockets ≡ launched machine
unfolding launch
machine-launched = refl

abbrev sent_by_probe : Outcome Machine
sent_by_probe = perform tables_sql machine (probe_sends 0 (switch_of 4000) 5)

abbrev pub machine_of : Outcome Machine → Machine
machine_of (goes s) = s
machine_of _ = machine

-- after the first probe sent an event
abbrev sending : Machine
sending = machine_of sent_by_probe

probe-goes : sent_by_probe ≡ goes sending
unfolding perform probe_sends_to wired started start new
probe-goes = refl

sending-reached : Reach tables_sql (IsGood Fixed-IsIeee IsAudible) machine sending
sending-reached = then_step here (performs (probe_sends 0 (switch_of 4000) 5) tt probe-goes)

launch-IsSafe_example :
    (perform tables_sql sending ringbuf_receives ≢ dies Task.ringbuf)
    × All (All IsAudible) sending.params.items
    × (sending.app.current_snapshot ≡ sending.aggregator.shared_state)
    × IsPublishable (content sending.app.current_snapshot)
launch-IsSafe_example =
    launch-IsSafe Fixed-IsIeee IsAudible Chan-IsMpsc Chan-IsMpsc Chan-IsMpsc Chan-IsFifo Chan-IsFifo
      Chan-IsFifo tables_sql no_kernel config true (some some_rows) all_sockets ringbuf_receives
      Task.ringbuf config-IsGood machine-launched sending-reached tt

-- after the task of the ring buffer handed it on, and after the aggregator took it
abbrev handed : Machine
handed = machine_of (perform tables_sql sending ringbuf_receives)

abbrev counted : Machine
counted = machine_of (perform tables_sql handed aggregator_receives)

ringbuf-goes : perform tables_sql sending ringbuf_receives ≡ goes handed
unfolding perform probe_sends_to ringbuf_round wired started start new send_event consume
ringbuf-goes = refl

aggregator-goes : perform tables_sql handed aggregator_receives ≡ goes counted
unfolding perform probe_sends_to ringbuf_round aggregator_round wired started start new send_event
    consume Aggregator.step
aggregator-goes = refl

counted-reached : Reach tables_sql (IsGood Fixed-IsIeee IsAudible) machine counted
counted-reached =
    then_step (then_step sending-reached (performs ringbuf_receives tt ringbuf-goes))
      (performs aggregator_receives tt aggregator-goes)

launch-refines_example :
    (Aggregator.run (configured config) (Input.received (switch_of 4000) ∷ [])
      ≡ Flow.running (alone counted.aggregator))
    × (counted.app.current_snapshot ≡ (alone counted.aggregator).shared_state)
    × (switch_of 4000 ∷ [] ≡ (switch_of 4000 ∷ []) ++ counted.raw.items)
    × IsWithin ((switch_of 4000 ∷ []) ++ counted.consumer.aggregator_tx.items) (switch_of 4000 ∷ [])
unfolding counted-reached sending-reached Aggregator.run perform probe_sends_to ringbuf_round
    aggregator_round wired started start new send_event consume Aggregator.step
launch-refines_example =
    launch-refines Chan-IsMpsc Chan-IsFifo tables_sql no_kernel (IsGood Fixed-IsIeee IsAudible)
      config true (some some_rows) all_sockets machine-launched counted-reached

-- the client's command to shut down, served by the machine
abbrev asked_to_stop : Machine
asked_to_stop = machine_of (
    perform tables_sql machine
      (api_serves (HttpRequest.post_shutdown (some "shutdown"), 1_000_000)))

shutdown-goes :
    perform tables_sql machine (api_serves (HttpRequest.post_shutdown (some "shutdown"), 1_000_000))
    ≡ goes asked_to_stop
unfolding perform
shutdown-goes = refl

shutdown-reached : Reach tables_sql (IsGood Fixed-IsIeee IsAudible) machine asked_to_stop
shutdown-reached = then_step here (
    performs (api_serves (HttpRequest.post_shutdown (some "shutdown"), 1_000_000)) tt shutdown-goes)

abbrev running_probes : ProbeManager (Chan RawEvent)
running_probes = record {
  probes = [];
  simulate = true;
  tx = machine.raw;
  shutdown = false;
  cumulative_lost_events = 0;
}

launch-stops_example :
    await_end none asked_to_stop.app running_probes
    ≡ stopped (record running_probes { shutdown = true })
unfolding shutdown-reached wired
launch-stops_example =
    launch-stops tables_sql no_kernel (IsGood Fixed-IsIeee IsAudible) config true (some some_rows)
      all_sockets none running_probes machine-launched shutdown-reached

launch-drains_example :
    (u : Machine) × Reach tables_sql (IsGood Fixed-IsIeee IsAudible) sending u
    × IsSound Fixed-IsIeee IsAudible u
    × (u.params.items ≡ [])
    × (u.aggregator.tx.items ≡ [])
    × (u.consumer.aggregator_tx.items ≡ [])
    × (u.raw.items ≡ [])
launch-drains_example =
    launch-drains Fixed-IsIeee IsAudible Chan-IsMpsc Chan-IsMpsc Chan-IsMpsc Chan-IsFifo Chan-IsFifo
      Chan-IsFifo tables_sql no_kernel config true (some some_rows) all_sockets world config-IsGood
      machine-launched sending-reached

-- a command line without options, no file at any path, and a directory that cannot be made
abbrev no_directory : FileSystem Unit Tables
no_directory = record {
  create_dir_all = λ path fs. (false, fs);
  open_connection = λ path fs. (none, fs);
  metadata = λ path fs. none;
  set_permissions = λ path mode fs. (false, fs);
}

abbrev no_variables : Variables
no_variables = record { home = some "/home/choir"; xdg_data_home = none }

abbrev first_machine : Machine
first_machine = wired ℕ tables_sql no_kernel default_toml false none
