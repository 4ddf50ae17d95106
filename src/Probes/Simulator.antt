-- ===== src/Probes/Simulator.antt =====
-- `run_simulator_probe` of probe_manager.rs.
use daemon_choir.Base.{
  ℕ, ◌+◌, ◌/◌, ◌%◌, Option, none, some, String, List, [], ◌∷◌, ◌++◌, if◌then◌else◌, ◌==◌, add64,
  codes, ◌>>=◌,
}
use daemon_choir.Float.{F64}
use daemon_choir.Events.{ProbeId, RawEvent, EventPayload}
use daemon_choir.Events.Hash.{fnv1a_64}
use daemon_choir.Sync.{Sender, TrySend}
use daemon_choir.Probes.{by_name}
use daemon_choir.Probes.Pump.{Counters, count_result}

-- `format!("worker-{}", n % 4)`, as bytes
unfoldable pub worker : ℕ → List ℕ
worker n = codes "worker-" ++ ((b'0' + n % 4) ∷ [])

unfoldable pub mem_pressure_payload : ℕ → EventPayload
mem_pressure_payload counter =
    let cycle = counter % 20 in
    let pages = if cycle == 0 then 256 else if cycle == 5 then 64 else 0 in
    EventPayload.mem_pressure (record { pages_reclaimed = pages; zone = 1 })

-- the event of a command of the user 1000
abbrev user_process : String → EventPayload
user_process comm =
    EventPayload.proc_lifecycle (record { comm_hash = fnv1a_64 (codes comm); uid_hash = 1000 })

-- `none` is `continue`, where `comm.is_empty()`
unfoldable pub proc_lifecycle_payload : ℕ → Option EventPayload
proc_lifecycle_payload counter =
    let cycle = counter % 30 in
    if cycle == 15
    then some (user_process "sh")
    else if cycle == 28
    then some (user_process "cargo")
    else none

-- the `probe` of the event
unfoldable pub simulated_probe : String → Option ProbeId
simulated_probe name =
    by_name name (some ProbeId.cpu_sched) (some ProbeId.mem_pressure) (some ProbeId.net_io)
      (some ProbeId.proc_lifecycle) none

module _ (F : Type 0) ⦃f : F64 F⦄ where
  -- `match name.as_str()`, where `none` is `continue`, at the given `counter`
  unfoldable pub cpu_sched_payload : ℕ → EventPayload
  unfolding worker
  cpu_sched_payload counter =
      let load_factor =
        f.add (f.mul (f.sin (f.mul (f.of_nat counter) (f.lit 1 1))) (f.lit 5 1)) (f.lit 5 1) in
      EventPayload.cpu_sched (record {
        prev_comm_hash = fnv1a_64 (worker counter);
        next_comm_hash = fnv1a_64 (worker (add64 counter 1));
        latency_ns = f.to_u64 (f.add (f.of_nat 1000) (f.mul load_factor (f.of_nat 8000)));
        cpu_id = counter % 8;
      })

  unfoldable pub net_io_payload : ℕ → EventPayload
  net_io_payload counter =
      let sin_val = f.sin (f.mul (f.of_nat counter) (f.lit 5 2)) in
      EventPayload.net_io (record {
        bytes_tx = f.to_u64 (f.add (f.of_nat 1000) (f.mul sin_val (f.of_nat 800)));
        bytes_rx = f.to_u64 (f.add (f.of_nat 1200) (f.mul sin_val (f.of_nat 900)));
        dev_name_hash = fnv1a_64 (codes "eth0");
      })

  -- `match name.as_str()` at the given `counter`; `none` is `continue`
  unfoldable pub simulated_payload : String → ℕ → Option EventPayload
  unfolding cpu_sched_payload mem_pressure_payload net_io_payload proc_lifecycle_payload
  simulated_payload name counter =
      by_name name (some (cpu_sched_payload counter)) (some (mem_pressure_payload counter))
        (some (net_io_payload counter)) (proc_lifecycle_payload counter) none

  unfoldable pub simulated_event : String → ℕ → ℕ → Option RawEvent
  unfolding simulated_payload simulated_probe
  simulated_event name counter now_ns = do
    payload ← simulated_payload name counter
    probe ← simulated_probe name
    some (record { probe = probe; timestamp_ns = now_ns; payload = payload })

-- whether the loop of `run_simulator_probe` goes on after a round
pub data Round (Tx : Type 0) : Type 0 where
  continues : Counters Tx → Round Tx
  breaks : Counters Tx → Round Tx

abbrev pub counters : {Tx : Type 0} → Round Tx → Counters Tx
counters (continues c) = c
counters (breaks c) = c

module _ {Tx : Type 0} ⦃tx : Sender RawEvent Tx⦄ where
  -- `match tx.try_send(event)`, where a closed channel ends the loop and counts nothing
  unfoldable pub match_result : TrySend → ℕ → Counters Tx → Round Tx
  unfolding count_result
  match_result TrySend.closed now_us c = breaks c
  match_result t now_us c = continues (count_result t now_us c)

module _ (F : Type 0) ⦃f : F64 F⦄ {Tx : Type 0} ⦃tx : Sender RawEvent Tx⦄ where
  -- one round of the loop, at the counter and time given
  unfoldable pub simulate_one : String → ℕ → ℕ → Counters Tx → Round Tx
  unfolding match_result simulated_event
  simulate_one name counter now_ns c = elim (simulated_event F name counter now_ns) [
    | none ↦ continues c
    | some event ↦
        match_result (tx.try_send c.tx event).0 (now_ns / 1000)
          (record c { tx = (tx.try_send c.tx event).1 })
  ]

  -- the loop, on the times of its rounds until it sees the shutdown
  unfoldable pub simulate : String → ℕ → Counters Tx → List ℕ → Counters Tx
  unfolding simulate_one
  simulate name counter c [] = c
  simulate name counter c (now_ns ∷ rest) = elim (simulate_one name (add64 counter 1) now_ns c) [
    | continues c' ↦ simulate name (add64 counter 1) c' rest
    | breaks c' ↦ c'
  ]
