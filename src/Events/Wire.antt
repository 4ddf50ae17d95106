-- ===== src/Events/Wire.antt =====
-- The records that the BPF programs write to the ring buffer: the `#[repr(C)]` structs of events.rs and
-- `from_bytes` of crates/conductor/src/probe_manager.rs, which reads them from bytes. Numbers are
-- little-endian, as on the machines that the program targets.
pub mod Laws
use daemon_choir.Base.{
  ℕ, zero, suc, ◌+◌, ◌*◌, Option, none, some, List, [], ◌∷◌, if◌then◌else◌, ltb, length, drop,
  ◌>>=◌,
}

pub record CpuSchedBpfEvent : Type 0 where
  pub prev_comm_hash : ℕ
  pub next_comm_hash : ℕ
  pub latency_ns : ℕ
  pub cpu_id : ℕ

pub record MemPressureBpfEvent : Type 0 where
  pub pages_reclaimed : ℕ
  pub zone : ℕ

pub record NetIoBpfEvent : Type 0 where
  pub bytes_tx : ℕ
  pub bytes_rx : ℕ
  pub dev_name_hash : ℕ

pub record ProcLifecycleBpfEvent : Type 0 where
  pub comm_hash : ℕ
  pub uid_hash : ℕ

-- An unsigned number of `n` bytes at the start of memory; `none` is a read behind its end.
unfoldable pub read_le : ℕ → List ℕ → Option ℕ
read_le zero memory = some 0
read_le (suc n) [] = none
read_le (suc n) (b ∷ memory) = read_le n memory >>= λ rest. some (b + 256 * rest)

-- `std::mem::size_of` and `std::ptr::read_unaligned` of a type.
pub record Layout (T : Type 0) : Type 0 where
  pub size_of : ℕ
  pub read_unaligned : List ℕ → Option T

-- the offsets that `#[repr(C)]` gives, with the padding at the end
abbrev pub cpu_sched_layout : Layout CpuSchedBpfEvent
cpu_sched_layout = record {
  size_of = 32;
  read_unaligned = λ m. do
    prev ← read_le 8 m
    next ← read_le 8 (drop 8 m)
    latency ← read_le 8 (drop 16 m)
    cpu ← read_le 4 (drop 24 m)
    some (record {
      prev_comm_hash = prev;
      next_comm_hash = next;
      latency_ns = latency;
      cpu_id = cpu;
    });
}

abbrev pub mem_pressure_layout : Layout MemPressureBpfEvent
mem_pressure_layout = record {
  size_of = 16;
  read_unaligned = λ m. do
    pages ← read_le 8 m
    zone ← read_le 4 (drop 8 m)
    some (record { pages_reclaimed = pages; zone = zone });
}

abbrev pub net_io_layout : Layout NetIoBpfEvent
net_io_layout = record {
  size_of = 24;
  read_unaligned = λ m. do
    tx ← read_le 8 m
    rx ← read_le 8 (drop 8 m)
    dev ← read_le 8 (drop 16 m)
    some (record { bytes_tx = tx; bytes_rx = rx; dev_name_hash = dev });
}

abbrev pub proc_lifecycle_layout : Layout ProcLifecycleBpfEvent
proc_lifecycle_layout = record {
  size_of = 16;
  read_unaligned = λ m. do
    comm ← read_le 8 m
    uid ← read_le 8 (drop 8 m)
    some (record { comm_hash = comm; uid_hash = uid });
}

unfoldable pub from_bytes : {T : Type 0} → Layout T → List ℕ → Option T
from_bytes layout slice =
    if ltb (length slice) layout.size_of then none else layout.read_unaligned slice
