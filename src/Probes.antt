-- ===== src/Probes.antt =====
-- crates/conductor/src/probe_manager.rs: which probes run, from the kernel or simulated.
pub mod Pump
pub mod Simulator
pub mod Simulated
pub mod Accounting
pub mod Poll
pub mod Started
use daemon_choir.Base.{
  ℕ, Bool, true, false, not, ◌&&◌, Option, none, some, String, List, [], ◌∷◌, if◌then◌else◌, map,
  str_eq,
}
use daemon_choir.Events.{ProbeId}

pub record ProbeStats : Type 0 where
  pub name : String
  pub attach_point : String
  pub loaded : Bool
  pub events_total : ℕ
  pub events_lost : ℕ
  pub last_event_us : ℕ

pub record ProbeManager (Tx : Type 0) : Type 0 where
  pub probes : List ProbeStats
  pub simulate : Bool
  pub tx : Tx
  pub shutdown : Bool
  pub cumulative_lost_events : ℕ

-- `match name.as_str()` with an arm for each of the four names
abbrev pub by_name : {A : Type 0} → String → A → A → A → A → A → A
by_name name cpu mem net proc other =
    if str_eq name "cpu_sched"
    then cpu
    else if str_eq name "mem_pressure"
    then mem
    else if str_eq name "net_io"
    then net
    else if str_eq name "proc_lifecycle"
    then proc
    else other

unfoldable pub attach_point_of : String → String
attach_point_of name =
    by_name name "tracepoint/sched/sched_switch"
      "tracepoint/vmscan/mm_vmscan_shrink_inactive_to_succ" "tracepoint/net/net_dev_xmit"
      "tracepoint/sched/sched_process_exec" "unknown"

unfoldable pub new_probe : String → ProbeStats
unfolding attach_point_of
new_probe name = record {
  name = name;
  attach_point = attach_point_of name;
  loaded = false;
  events_total = 0;
  events_lost = 0;
  last_event_us = 0;
}

unfoldable pub new : {Tx : Type 0} → List String → Bool → Tx → ℕ → ProbeManager Tx
unfolding new_probe
new enabled_probes simulate tx lost = record {
  probes = map new_probe enabled_probes;
  simulate = simulate;
  tx = tx;
  shutdown = false;
  cumulative_lost_events = lost;
}

abbrev pub get_probes_info : {Tx : Type 0} → ProbeManager Tx → List ProbeStats
get_probes_info m = m.probes

unfoldable pub shutdown : {Tx : Type 0} → ProbeManager Tx → ProbeManager Tx
shutdown m = record m { shutdown = true }

-- What the program asks of the crate aya: to load a probe's file `target/bpf/{name}.bpf.o`, to find a
-- program in it, and whether the program is a tracepoint, loads, and attaches.
pub record Aya (Bpf Program : Type 0) : Type 0 where
  pub load_file : String → Option Bpf
  pub program_mut : Bpf → String → Option Program
  pub is_trace_point : Program → Bool
  pub load : Program → Bool
  pub attach : Program → String → String → Bool

-- The task that `start` spawns for a probe.
pub data Task (Bpf : Type 0) : Type 0 where
  poll : ProbeId → Bpf → Task Bpf
  simulated : String → Task Bpf

-- the `probe_id` of the task that polls
unfoldable pub probe_id_of : String → ProbeId
probe_id_of name =
    by_name name ProbeId.cpu_sched ProbeId.mem_pressure ProbeId.net_io ProbeId.proc_lifecycle
      ProbeId.cpu_sched

module _ {Bpf Program : Type 0} (aya : Aya Bpf Program) where
  -- `program_mut(name)?`, `try_into()?`, `load()?` and `attach(category, tp_name)?`
  unfoldable pub attach_program : Bpf → String → String → String → Bool
  attach_program bpf prog category tp = elim (aya.program_mut bpf prog) [
    | none ↦ false
    | some p ↦ aya.is_trace_point p && aya.load p && aya.attach p category tp
  ]

  -- `attach_and_spawn_res.is_ok()`
  unfoldable pub attach_all : Bpf → String → Bool
  unfolding attach_program
  attach_all bpf name =
      by_name name
        (attach_program bpf "handle_sched_switch" "sched" "sched_switch"
          && attach_program bpf "handle_sched_wakeup" "sched" "sched_wakeup"
          && attach_program bpf "handle_process_exit" "sched" "sched_process_exit")
        (attach_program bpf "handle_mm_vmscan" "vmscan" "mm_vmscan_shrink_inactive_to_succ")
        (attach_program bpf "handle_net_dev_xmit" "net" "net_dev_xmit")
        (attach_program bpf "handle_process_exec" "sched" "sched_process_exec")
        (attach_program bpf "" "" "")

  -- The kernel's task for a probe, in a build with the feature `ebpf`, if it can be had.
  unfoldable pub load_bpf : Bool → String → Option (Task Bpf)
  unfolding attach_all probe_id_of
  load_bpf true name = none
  load_bpf false name = elim (aya.load_file name) [
    | none ↦ none
    | some bpf ↦ if attach_all bpf name then some (poll (probe_id_of name) bpf) else none
  ]

  -- one round of the loop of `start`
  unfoldable pub start_probe : Bool → ProbeStats → ProbeStats × Task Bpf
  unfolding load_bpf
  start_probe simulate probe = elim (load_bpf simulate probe.name) [
    | none ↦ (record probe { loaded = true }, simulated probe.name)
    | some task ↦ (record probe { loaded = true }, task)
  ]

  -- the loop of `start`, with the tasks that it spawns
  unfoldable pub start_all : Bool → List ProbeStats → List (ProbeStats × Task Bpf)
  unfolding start_probe
  start_all simulate probes = map (start_probe simulate) probes

  unfoldable pub start : {Tx : Type 0} → ProbeManager Tx → ProbeManager Tx × List (Task Bpf)
  unfolding start_all
  start m =
      let started = start_all m.simulate m.probes in
      (record m { probes = map (λ s. s.0) started }, map (λ s. s.1) started)
