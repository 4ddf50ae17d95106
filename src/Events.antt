-- ===== src/Events.antt =====
-- crates/daemon-choir-common/src/events.rs: the events that travel through the pipeline.
pub mod Hash
pub mod Wire
use daemon_choir.Base.{ℕ, String}

pub data ProbeId : Type 0 where
  cpu_sched mem_pressure net_io proc_lifecycle : ProbeId

-- `impl Display for ProbeId`
unfoldable pub to_string : ProbeId → String
to_string ProbeId.cpu_sched = "cpu_sched"
to_string ProbeId.mem_pressure = "mem_pressure"
to_string ProbeId.net_io = "net_io"
to_string ProbeId.proc_lifecycle = "proc_lifecycle"

pub record CpuSchedEvent : Type 0 where
  pub prev_comm_hash : ℕ
  pub next_comm_hash : ℕ
  pub latency_ns : ℕ
  pub cpu_id : ℕ

pub record MemPressureEvent : Type 0 where
  pub pages_reclaimed : ℕ
  pub zone : ℕ

pub record NetIoEvent : Type 0 where
  pub bytes_tx : ℕ
  pub bytes_rx : ℕ
  pub dev_name_hash : ℕ

pub record ProcLifecycleEvent : Type 0 where
  pub comm_hash : ℕ
  pub uid_hash : ℕ

pub data EventPayload : Type 0 where
  cpu_sched : CpuSchedEvent → EventPayload
  mem_pressure : MemPressureEvent → EventPayload
  net_io : NetIoEvent → EventPayload
  proc_lifecycle : ProcLifecycleEvent → EventPayload

pub record RawEvent : Type 0 where
  pub probe : ProbeId
  pub timestamp_ns : ℕ
  pub payload : EventPayload
