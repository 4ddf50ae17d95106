-- ===== src/Probes/Poll.antt =====
-- The task that `start` of probe_manager.rs spawns for a probe of the kernel: it waits on the file descriptor
-- of the ring buffer and drains what is there, until the shutdown.
use daemon_choir.Base.{ℕ, Bool, true, false, ◌≡◌, refl, List, [], ◌∷◌, ◌++◌, length}
use daemon_choir.Events.{ProbeId, RawEvent}
use daemon_choir.Sync.{Sender, IsMpsc}
use daemon_choir.Probes.Pump.{Counters, drain_one, drain}
use daemon_choir.Probes.Accounting.{events_in, Accounts, HasRoom, no_events, drain-Accounts}

-- What `map_mut("events_ringbuf")`, `RingBuf::try_from` and `AsyncFd::new` give.
pub data RingBuf : Type 0 where
  no_map wrong_map no_async_fd async_fd : RingBuf

-- `async_fd.readable()`, with the times and bytes of the items until there is none left, or an error
pub data Readiness : Type 0 where
  guard : List (ℕ × List ℕ) → Readiness
  invalid : Readiness

-- The task waits in its loop, has ended, or has panicked.
pub data Polling (Tx : Type 0) : Type 0 where
  waiting ended panicked : Counters Tx → Polling Tx

abbrev pub polled : {Tx : Type 0} → Polling Tx → Counters Tx
polled (Polling.waiting c) = c
polled (Polling.ended c) = c
polled (Polling.panicked c) = c

abbrev pub is_waiting : {Tx : Type 0} → Polling Tx → Bool
is_waiting (Polling.waiting c) = true
is_waiting _ = false

module _ {Tx : Type 0} ⦃tx : Sender RawEvent Tx⦄ where
  -- `while !shutdown`, on what the shutdown flag is at the start of each round and what the wait gives
  unfoldable pub poll_rounds : ProbeId → Counters Tx → List (Bool × Readiness) → Polling Tx
  unfolding drain
  poll_rounds probe c [] = Polling.waiting c
  poll_rounds probe c ((true, r) ∷ rounds) = Polling.ended c
  poll_rounds probe c ((false, invalid) ∷ rounds) = Polling.ended c
  poll_rounds probe c ((false, guard items) ∷ rounds) =
      poll_rounds probe (drain probe c items) rounds

  unfoldable pub poll_task : ProbeId → RingBuf → Counters Tx → List (Bool × Readiness) → Polling Tx
  unfolding poll_rounds
  poll_task probe RingBuf.no_map c rounds = Polling.panicked c
  poll_task probe RingBuf.wrong_map c rounds = Polling.ended c
  poll_task probe RingBuf.no_async_fd c rounds = Polling.ended c
  poll_task probe RingBuf.async_fd c rounds = poll_rounds probe c rounds

-- The items of the rounds before the first that sees the shutdown or an error.
abbrev pub seen : List (Bool × Readiness) → List (ℕ × List ℕ)
seen [] = []
seen ((true, r) ∷ rounds) = []
seen ((false, invalid) ∷ rounds) = []
seen ((false, guard items) ∷ rounds) = items ++ seen rounds

-- no round sees the shutdown or an error
abbrev pub undisturbed : List (Bool × Readiness) → Bool
undisturbed [] = true
undisturbed ((true, r) ∷ rounds) = false
undisturbed ((false, invalid) ∷ rounds) = false
undisturbed ((false, guard items) ∷ rounds) = undisturbed rounds

abbrev pub items_of : RingBuf → List (Bool × Readiness) → List (ℕ × List ℕ)
items_of RingBuf.async_fd rounds = seen rounds
items_of _ rounds = []

abbrev pub has_loop : RingBuf → List (Bool × Readiness) → Bool
has_loop RingBuf.async_fd rounds = undisturbed rounds
has_loop _ rounds = false

module _ {Tx : Type 0} ⦃tx : Sender RawEvent Tx⦄ where
  drain-append :
      (probe : ProbeId) (c : Counters Tx) (is js : List (ℕ × List ℕ))
      → drain probe c (is ++ js) ≡ drain probe (drain probe c is) js
  unfolding drain
  drain-append probe c [] js = refl
  drain-append probe c (i ∷ is) js = drain-append probe (drain_one probe c i) is js

  poll_rounds-drain :
      (probe : ProbeId) (c : Counters Tx) (rounds : List (Bool × Readiness))
      → polled (poll_rounds probe c rounds) ≡ drain probe c (seen rounds)
  unfolding poll_rounds drain
  poll_rounds-drain probe c [] = refl
  poll_rounds-drain probe c ((true, r) ∷ rounds) = refl
  poll_rounds-drain probe c ((false, invalid) ∷ rounds) = refl
  poll_rounds-drain probe c ((false, guard items) ∷ rounds) =
      rw drain-append (poll_rounds-drain probe (drain probe c items) rounds)

  poll_rounds-is_waiting :
      (probe : ProbeId) (c : Counters Tx) (rounds : List (Bool × Readiness))
      → is_waiting (poll_rounds probe c rounds) ≡ undisturbed rounds
  unfolding poll_rounds
  poll_rounds-is_waiting probe c [] = refl
  poll_rounds-is_waiting probe c ((true, r) ∷ rounds) = refl
  poll_rounds-is_waiting probe c ((false, invalid) ∷ rounds) = refl
  poll_rounds-is_waiting probe c ((false, guard items) ∷ rounds) =
      poll_rounds-is_waiting probe (drain probe c items) rounds

  -- A channel that behaves as documented, no counter near 2^64: over the whole life of a probe's task,
  -- each event that is in the bytes of an item before the first round that sees the shutdown or an
  -- error, field by field, under this probe's name and with the time of its reading, is either behind
  -- the channel's queue, in the order of the items and none twice, and in `events_total`, or in both
  -- `events_lost` and the shared counter; where the ring buffer was not had there is none. The task
  -- still waits exactly if it had the ring buffer and no round saw the shutdown or an error.
  pub poll_task-Accounts :
      IsMpsc RawEvent Tx
      → (probe : ProbeId) (ring : RingBuf) (c : Counters Tx) (rounds : List (Bool × Readiness))
      → HasRoom (length (items_of ring rounds)) c
      → Accounts (events_in probe (items_of ring rounds)) c (polled (poll_task probe ring c rounds))
        × (is_waiting (poll_task probe ring c rounds) ≡ has_loop ring rounds)
  unfolding poll_task
  poll_task-Accounts laws probe RingBuf.no_map c rounds room = (no_events c, refl)
  poll_task-Accounts laws probe RingBuf.wrong_map c rounds room = (no_events c, refl)
  poll_task-Accounts laws probe RingBuf.no_async_fd c rounds room = (no_events c, refl)
  poll_task-Accounts laws probe RingBuf.async_fd c rounds room = (
    rw poll_rounds-drain (drain-Accounts laws probe c (seen rounds) room),
    poll_rounds-is_waiting probe c rounds,
  )
