-- ===== src/Events/Wire/Laws.antt =====
-- Reading what was written: `from_bytes` of probe_manager.rs over the structs of events.rs.
use native.Mathlib.Nat.{pow-suc}
use daemon_choir.Base.{
  ℕ, zero, suc, ◌+◌, ◌*◌, ◌/◌, ◌%◌, ◌^◌, ◌≤◌, ◌<◌, ◌≡◌, refl, ap, List, [], ◌∷◌, ◌++◌, some, none,
  length, drop, arith, ltb, false,
}
use daemon_choir.Events.Wire.{
  Layout, CpuSchedBpfEvent, read_le, cpu_sched_layout, mem_pressure_layout, net_io_layout,
  proc_lifecycle_layout, from_bytes,
}

-- The bytes in which a BPF program stores an unsigned number of `n` bytes.
pub write_le : ℕ → ℕ → List ℕ
write_le zero x = []
write_le (suc n) x = x % 256 ∷ write_le n (x / 256)

read_le-write_le :
    (n x : ℕ) (rest : List ℕ) → x < 256 ^ n → read_le n (write_le n x ++ rest) ≡ some x
unfolding read_le write_le
read_le-write_le zero x rest h = ground arith
read_le-write_le (suc n) x rest h =
    rw (read_le-write_le n (x / 256) rest (omega (arith, pow-suc 256 n))) (ap some (omega arith))

-- A read inside of the memory succeeds.
read_le_total :
    (n : ℕ) (memory : List ℕ) → n ≤ length memory → (x : ℕ) × (read_le n memory ≡ some x)
unfolding read_le
read_le_total zero memory h = (0, refl)
read_le_total (suc n) [] h = absurd (omega arith)
read_le_total (suc n) (b ∷ memory) h =
    let (x, e) = read_le_total n memory (omega arith) in (b + 256 * x, rw e)

length-drop : (n k : ℕ) (m : List ℕ) → n + k ≤ length m → k ≤ length (drop n m)
length-drop zero k m h = omega arith
length-drop (suc n) k [] h = omega arith
length-drop (suc n) k (b ∷ m) h = length-drop n k m (omega arith)

-- A field at an offset, of a type that is large enough.
field_total :
    (offset n : ℕ) (m : List ℕ)
    → offset + n ≤ length m
    → (x : ℕ) × (read_le n (drop offset m) ≡ some x)
field_total offset n m h = read_le_total n (drop offset m) (length-drop offset n m h)

-- The memory of a `struct cpu_sched_event`, with its four bytes of padding and what follows it.
pub cpu_sched_bytes : CpuSchedBpfEvent → List ℕ → List ℕ
cpu_sched_bytes e rest =
    write_le 8 e.prev_comm_hash
    ++ (write_le 8 e.next_comm_hash ++ (write_le 8 e.latency_ns ++ (write_le 4 e.cpu_id ++ rest)))

cpu_sched_offsets :
    (a b c d : ℕ) (rest : List ℕ)
    → let m = write_le 8 a ++ (write_le 8 b ++ (write_le 8 c ++ (write_le 4 d ++ rest))) in
      (drop 8 m ≡ write_le 8 b ++ (write_le 8 c ++ (write_le 4 d ++ rest)))
      × (drop 16 m ≡ write_le 8 c ++ (write_le 4 d ++ rest))
      × (drop 24 m ≡ write_le 4 d ++ rest)
      × (length m ≡ 28 + length rest)
unfolding write_le
cpu_sched_offsets a b c d rest = (refl, refl, refl, omega arith)

-- What a BPF program stored in a `cpu_sched_event` whose fields fit into their words, with at
-- least the 4 bytes of padding behind it, `from_bytes` reads back, whatever the padding is and
-- whatever follows.
pub from_bytes-cpu_sched :
    (e : CpuSchedBpfEvent) (rest : List ℕ)
    → e.prev_comm_hash < 2 ^ 64
    → e.next_comm_hash < 2 ^ 64
    → e.latency_ns < 2 ^ 64
    → e.cpu_id < 2 ^ 32
    → 4 ≤ length rest
    → from_bytes cpu_sched_layout (cpu_sched_bytes e rest) ≡ some e
unfolding from_bytes cpu_sched_bytes
from_bytes-cpu_sched e rest ha hb hc hd pad =
    let (at8, at16, at24, size) =
      cpu_sched_offsets e.prev_comm_hash e.next_comm_hash e.latency_ns e.cpu_id rest in
    let large : ltb (length (cpu_sched_bytes e rest)) 32 ≡ false = ground (arith, size) in
    rw (
      large,
      read_le-write_le 8 e.prev_comm_hash _ ha,
      at8,
      read_le-write_le 8 e.next_comm_hash _ hb,
      at16,
      read_le-write_le 8 e.latency_ns _ hc,
      at24,
      read_le-write_le 4 e.cpu_id rest hd,
    )

-- The size of a type is enough for every one of its fields.
abbrev pub IsCovered : {T : Type 0} → Layout T → Type 0
IsCovered {T} l = (m : List ℕ) → l.size_of ≤ length m → (e : T) × (l.read_unaligned m ≡ some e)

cpu_sched-IsCovered : IsCovered cpu_sched_layout
cpu_sched-IsCovered m h =
    let (a, ea) = field_total 0 8 m (omega arith) in
    let (b, eb) = field_total 8 8 m (omega arith) in
    let (c, ec) = field_total 16 8 m (omega arith) in
    let (d, ed) = field_total 24 4 m (omega arith) in
    (
      record { prev_comm_hash = a; next_comm_hash = b; latency_ns = c; cpu_id = d },
      rw (ea, eb, ec, ed),
    )

mem_pressure-IsCovered : IsCovered mem_pressure_layout
mem_pressure-IsCovered m h =
    let (a, ea) = field_total 0 8 m (omega arith) in
    let (b, eb) = field_total 8 4 m (omega arith) in
    (record { pages_reclaimed = a; zone = b }, rw (ea, eb))

net_io-IsCovered : IsCovered net_io_layout
net_io-IsCovered m h =
    let (a, ea) = field_total 0 8 m (omega arith) in
    let (b, eb) = field_total 8 8 m (omega arith) in
    let (c, ec) = field_total 16 8 m (omega arith) in
    (record { bytes_tx = a; bytes_rx = b; dev_name_hash = c }, rw (ea, eb, ec))

proc_lifecycle-IsCovered : IsCovered proc_lifecycle_layout
proc_lifecycle-IsCovered m h =
    let (a, ea) = field_total 0 8 m (omega arith) in
    let (b, eb) = field_total 8 8 m (omega arith) in
    (record { comm_hash = a; uid_hash = b }, rw (ea, eb))

-- `from_bytes` rejects exactly the slices that are shorter than the type.
abbrev pub IsGuarded : {T : Type 0} → Layout T → Type 0
IsGuarded {T} l =
    (m : List ℕ)
    → (length m < l.size_of → from_bytes l m ≡ none)
      × (l.size_of ≤ length m → (e : T) × (from_bytes l m ≡ some e))

covered-IsGuarded : {T : Type 0} (l : Layout T) → IsCovered l → IsGuarded l
unfolding from_bytes
covered-IsGuarded l c m = (
  λ short. ground arith,
  λ h.
      let large : ltb (length m) l.size_of ≡ false = ground arith in
      let (e, read) = c m h in (e, rw (large, read)),
)

-- For each of the four structs: a slice shorter than the struct is refused, and any other is read
-- without a read behind its end.
pub from_bytes-IsGuarded :
    IsGuarded cpu_sched_layout
    × IsGuarded mem_pressure_layout
    × IsGuarded net_io_layout
    × IsGuarded proc_lifecycle_layout
from_bytes-IsGuarded = (
  covered-IsGuarded cpu_sched_layout cpu_sched-IsCovered,
  covered-IsGuarded mem_pressure_layout mem_pressure-IsCovered,
  covered-IsGuarded net_io_layout net_io-IsCovered,
  covered-IsGuarded proc_lifecycle_layout proc_lifecycle-IsCovered,
)
