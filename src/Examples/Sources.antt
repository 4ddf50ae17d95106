-- ===== src/Examples/Sources.antt =====
-- The probes and the events that they read at concrete inputs.
use daemon_choir.Base.{
  All, ℕ, ◌≡◌, none, some, List, [], ◌∷◌, false, refl, arith, replicate, Bool, true,
}
use daemon_choir.Float.Fixed.{Fixed, fixed_f64}
use daemon_choir.Events.{ProbeId, RawEvent}
use daemon_choir.Events.Hash.Collisions.{fnv1a_64_one_byte}
use daemon_choir.Events.Wire.{CpuSchedBpfEvent, from_bytes, cpu_sched_layout}
use daemon_choir.Events.Wire.Laws.{cpu_sched_bytes, from_bytes-cpu_sched}
use daemon_choir.Sync.Bounded.{Chan, chan_sender, Chan-IsMpsc}
use daemon_choir.Probes.{ProbeManager, Aya, new, start}
use daemon_choir.Probes.Pump.{Counters}
use daemon_choir.Probes.Accounting.{Accounts, HasRoom, events_in}
use daemon_choir.Probes.Poll.{RingBuf, Readiness, polled, is_waiting, poll_task, poll_task-Accounts}
use daemon_choir.Probes.Simulator.{simulate, simulated_probe}
use daemon_choir.Probes.Simulated.{made, simulate-Accounts}
use daemon_choir.Probes.Started.{AllRun, failed_count, start-AllRun, failed_count-start}
use daemon_choir.Examples.Fixtures.{chan_of}

fnv1a_64_one_byte_example : ◌≡◌ {A = ℕ} 7 7
fnv1a_64_one_byte_example =
    fnv1a_64_one_byte (1 ∷ []) (2 ∷ []) 7 7 (omega arith, tt) (omega arith) (omega arith) refl

abbrev switch : CpuSchedBpfEvent
switch = record { prev_comm_hash = 11; next_comm_hash = 12; latency_ns = 4000; cpu_id = 3 }

from_bytes-cpu_sched_example :
    from_bytes cpu_sched_layout (cpu_sched_bytes switch (0 ∷ 0 ∷ 0 ∷ 0 ∷ [])) ≡ some switch
from_bytes-cpu_sched_example =
    from_bytes-cpu_sched switch (0 ∷ 0 ∷ 0 ∷ 0 ∷ []) (omega arith) (omega arith) (omega arith)
      (omega arith) (omega arith)

abbrev counting : Counters (Chan RawEvent)
counting = record {
  tx = chan_of 1;
  events_total = 0;
  events_lost = 0;
  cumulative_lost = 4;
  last_event_us = 0;
}

-- two records of a ring buffer, and one that is too short
abbrev items : List (ℕ × List ℕ)
items = (1000, replicate 16 1) ∷ (2000, 1 ∷ 2 ∷ []) ∷ (3000, replicate 16 2) ∷ []

counting-HasRoom : HasRoom 3 counting
counting-HasRoom = record {
  total_room = omega arith;
  lost_room = omega arith;
  cumulative_room = omega arith;
}

-- two rounds that drain these records, the shutdown, and what comes too late
abbrev rounds : List (Bool × Readiness)
rounds =
    (false, Readiness.guard ((1000, replicate 16 1) ∷ (2000, 1 ∷ 2 ∷ []) ∷ []))
    ∷ (false, Readiness.guard ((3000, replicate 16 2) ∷ []))
    ∷ (true, Readiness.invalid)
    ∷ (false, Readiness.guard items)
    ∷ []

poll_task-Accounts_example :
    Accounts
      (events_in ProbeId.mem_pressure items)
      counting
      (polled (poll_task ProbeId.mem_pressure RingBuf.async_fd counting rounds))
    × (is_waiting (poll_task ProbeId.mem_pressure RingBuf.async_fd counting rounds) ≡ false)
poll_task-Accounts_example =
    poll_task-Accounts Chan-IsMpsc ProbeId.mem_pressure RingBuf.async_fd counting rounds
      counting-HasRoom

named : simulated_probe "mem_pressure" ≡ some ProbeId.mem_pressure
unfolding simulated_probe
named = refl

simulate-Accounts_example :
    Accounts
      (made Fixed "mem_pressure" 0 (1000 ∷ 2000 ∷ 3000 ∷ []))
      counting
      (simulate Fixed "mem_pressure" 0 counting (1000 ∷ 2000 ∷ 3000 ∷ []))
    × All
        (λ e. e.probe ≡ ProbeId.mem_pressure)
        (made Fixed "mem_pressure" 0 (1000 ∷ 2000 ∷ 3000 ∷ []))
simulate-Accounts_example =
    simulate-Accounts Fixed Chan-IsMpsc "mem_pressure" ProbeId.mem_pressure 0 counting
      (1000 ∷ 2000 ∷ 3000 ∷ []) named counting-HasRoom

-- a kernel that has no file of any probe
abbrev pub no_kernel : Aya ℕ ℕ
no_kernel = record {
  load_file = λ name. none;
  program_mut = λ bpf name. none;
  is_trace_point = λ p. false;
  load = λ p. false;
  attach = λ p category tp. false;
}

abbrev manager : ProbeManager (Chan RawEvent)
manager = new ("cpu_sched" ∷ "net_io" ∷ []) false (chan_of 2) 0

start-AllRun_example :
    AllRun no_kernel false manager.probes
      (start no_kernel manager).0.probes
      (start no_kernel manager).1
unfolding new
start-AllRun_example = start-AllRun no_kernel manager

failed_count-start_example : failed_count (start no_kernel manager).0.probes ≡ 0
failed_count-start_example = failed_count-start no_kernel manager
