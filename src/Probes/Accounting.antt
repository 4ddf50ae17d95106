-- ===== src/Probes/Accounting.antt =====
-- Every event that a probe's task reads is delivered or counted as lost.
use daemon_choir.Base.{
  ℕ, suc, ◌+◌, ◌<◌, ◌≤◌, ◌^◌, ◌/◌, Option, none, some, List, [], ◌∷◌, ◌++◌, ◌≡◌, refl, sym, ap, ◌∙◌,
  add64, length, arith, Option-cases, inl, inr, length-append,
}
use mathlib.Core.List.{append-nil, append_assoc}
use mathlib.Core.Option
use daemon_choir.Within.{IsWithin, done, drops, keeps, IsWithin-append}
use daemon_choir.Events.{ProbeId, RawEvent, EventPayload}
use daemon_choir.Events.Wire.{
  from_bytes, cpu_sched_layout, mem_pressure_layout, net_io_layout, proc_lifecycle_layout,
}
use daemon_choir.Sync.{Sender, TrySend, IsMpsc}
use daemon_choir.Sync.Bounded.{Delivers, try_send-Delivers}
use daemon_choir.Probes.Pump.{Counters, read_payload, count_result, send_event, drain_one, drain}

-- The payload in the bytes of an item, field by field, if there are enough of them.
abbrev pub payload_in : ProbeId → List ℕ → Option EventPayload
payload_in ProbeId.cpu_sched item =
    Option.map
      (λ e. EventPayload.cpu_sched (record {
        prev_comm_hash = e.prev_comm_hash;
        next_comm_hash = e.next_comm_hash;
        latency_ns = e.latency_ns;
        cpu_id = e.cpu_id;
      }))
      (from_bytes cpu_sched_layout item)
payload_in ProbeId.mem_pressure item =
    Option.map
      (λ e.
        EventPayload.mem_pressure (record { pages_reclaimed = e.pages_reclaimed; zone = e.zone }))
      (from_bytes mem_pressure_layout item)
payload_in ProbeId.net_io item =
    Option.map
      (λ e.
        EventPayload.net_io (record {
          bytes_tx = e.bytes_tx;
          bytes_rx = e.bytes_rx;
          dev_name_hash = e.dev_name_hash;
        }))
      (from_bytes net_io_layout item)
payload_in ProbeId.proc_lifecycle item =
    Option.map
      (λ e. EventPayload.proc_lifecycle (record { comm_hash = e.comm_hash; uid_hash = e.uid_hash }))
      (from_bytes proc_lifecycle_layout item)

-- the event with this payload, if there is one
abbrev event_with : ProbeId → ℕ → Option EventPayload → List RawEvent
event_with probe now_ns none = []
event_with probe now_ns (some payload) =
    record { probe = probe; timestamp_ns = now_ns; payload = payload } ∷ []

-- The events in the items of a ring buffer, each with the time at which it was read.
abbrev pub events_in : ProbeId → List (ℕ × List ℕ) → List RawEvent
events_in probe [] = []
events_in probe ((now_ns, item) ∷ rest) =
    event_with probe now_ns (payload_in probe item) ++ events_in probe rest

read_payload_lem :
    (probe : ProbeId) (item : List ℕ) → read_payload probe item ≡ payload_in probe item
unfolding read_payload
read_payload_lem ProbeId.cpu_sched item = elim (Option-cases (from_bytes cpu_sched_layout item)) [
  | inl e ↦ rw e refl
  | inr (x, e) ↦ rw e refl
]
read_payload_lem ProbeId.mem_pressure item =
    elim (Option-cases (from_bytes mem_pressure_layout item)) [
      | inl e ↦ rw e refl
      | inr (x, e) ↦ rw e refl
    ]
read_payload_lem ProbeId.net_io item = elim (Option-cases (from_bytes net_io_layout item)) [
  | inl e ↦ rw e refl
  | inr (x, e) ↦ rw e refl
]
read_payload_lem ProbeId.proc_lifecycle item =
    elim (Option-cases (from_bytes proc_lifecycle_layout item)) [
      | inl e ↦ rw e refl
      | inr (x, e) ↦ rw e refl
    ]

event_with-le_one :
    (probe : ProbeId) (now_ns : ℕ) (o : Option EventPayload)
    → length (event_with probe now_ns o) ≤ 1
event_with-le_one probe now_ns none = omega arith
event_with-le_one probe now_ns (some payload) = omega arith

-- The counters and the channel after these events: some are behind the channel's queue, in order and
-- none twice, and in `events_total`, and each of the others is in both counters of losses.
pub record Accounts {Tx : Type 0} ⦃tx : Sender RawEvent Tx⦄ (events : List RawEvent)
    (c c' : Counters Tx) : Type 0 where
  pub delivered : List RawEvent
  pub lost : ℕ
  pub queue : tx.queued c'.tx ≡ tx.queued c.tx ++ delivered
  pub total : c'.events_total ≡ c.events_total + length delivered
  pub losses : c'.events_lost ≡ c.events_lost + lost
  pub cumulative : c'.cumulative_lost ≡ c.cumulative_lost + lost
  pub all : length delivered + lost ≡ length events
  pub among : IsWithin delivered events

-- no counter wraps within `n` events
pub record HasRoom {Tx : Type 0} (n : ℕ) (c : Counters Tx) : Type 0 where
  pub total_room : c.events_total + n < 2 ^ 64
  pub lost_room : c.events_lost + n < 2 ^ 64
  pub cumulative_room : c.cumulative_lost + n < 2 ^ 64

module _ {Tx : Type 0} ⦃tx : Sender RawEvent Tx⦄ where
  pub no_events : (c : Counters Tx) → Accounts [] c c
  no_events c = record {
    delivered = [];
    lost = 0;
    queue = sym (append-nil (tx.queued c.tx));
    total = omega arith;
    losses = omega arith;
    cumulative = omega arith;
    all = refl;
    among = done;
  }

  pub then_more :
      (es fs : List RawEvent) (a b c : Counters Tx)
      → Accounts es a b
      → Accounts fs b c
      → Accounts (es ++ fs) a c
  then_more es fs a b c p q =
      let len = length-append p.delivered q.delivered in
      let made = length-append es fs in
      record {
        delivered = p.delivered ++ q.delivered;
        lost = p.lost + q.lost;
        queue =
            q.queue
            ∙ ap (λ l. l ++ q.delivered) p.queue
            ∙ append_assoc (tx.queued a.tx) p.delivered q.delivered;
        total = omega (arith, len, p.total, q.total);
        losses = omega (arith, p.losses, q.losses);
        cumulative = omega (arith, p.cumulative, q.cumulative);
        all = omega (arith, len, made, p.all, q.all);
        among = IsWithin-append p.among q.among;
      }

  lost_event :
      (event : RawEvent) (c : Counters Tx) (s' : Tx)
      → HasRoom 1 c
      → tx.queued s' ≡ tx.queued c.tx
      → Accounts (event ∷ []) c (record c {
        tx = s';
        events_lost = add64 c.events_lost 1;
        cumulative_lost = add64 c.cumulative_lost 1;
      })
  lost_event event c s' room q = record {
    delivered = [];
    lost = 1;
    queue = q ∙ sym (append-nil (tx.queued c.tx));
    total = omega arith;
    losses = omega (arith, room.lost_room);
    cumulative = omega (arith, room.cumulative_room);
    all = refl;
    among = drops done;
  }

  pub room-le : (m n : ℕ) (c : Counters Tx) → m ≤ n → HasRoom n c → HasRoom m c
  room-le m n c le room =
      let r1 = room.total_room in
      let r2 = room.lost_room in
      let r3 = room.cumulative_room in
      record { total_room = omega arith; lost_room = omega arith; cumulative_room = omega arith }

  pub counted :
      (event : RawEvent) (now_us : ℕ) (c : Counters Tx) (t : TrySend) (s' : Tx)
      → HasRoom 1 c
      → Delivers c.tx event t s'
      → Accounts (event ∷ []) c (count_result t now_us (record c { tx = s' }))
  unfolding count_result
  counted event now_us c TrySend.sent s' room d = record {
    delivered = event ∷ [];
    lost = 0;
    queue = d.0;
    total = omega (arith, room.total_room);
    losses = omega arith;
    cumulative = omega arith;
    all = refl;
    among = keeps done;
  }
  counted event now_us c TrySend.full s' room d = lost_event event c s' room d.0
  counted event now_us c TrySend.closed s' room d = lost_event event c s' room d.0

  send_event-Accounts :
      IsMpsc RawEvent Tx
      → (event : RawEvent) (now_us : ℕ) (c : Counters Tx) → HasRoom 1 c
      → Accounts (event ∷ []) c (send_event event now_us c)
  unfolding send_event
  send_event-Accounts laws event now_us c room =
      counted event now_us c (tx.try_send c.tx event).0 (tx.try_send c.tx event).1 room
        (try_send-Delivers laws c.tx event)

  drain_one-Accounts :
      IsMpsc RawEvent Tx
      → (probe : ProbeId) (c : Counters Tx) (now_ns : ℕ) (item : List ℕ) → HasRoom 1 c
      → Accounts
          (event_with probe now_ns (payload_in probe item))
          c
          (drain_one probe c (now_ns, item))
  unfolding drain_one
  drain_one-Accounts laws probe c now_ns item room = elim (Option-cases (payload_in probe item)) [
    | inl e ↦ rw (read_payload_lem probe item ∙ e, e, drain_one) (no_events c)
    | inr (payload, e) ↦
        rw (read_payload_lem probe item ∙ e, e, drain_one)
          (send_event-Accounts laws
            (record { probe = probe; timestamp_ns = now_ns; payload = payload }) (now_ns / 1000) c
            room)
  ]

  pub room-keeps :
      (es : List RawEvent) (n : ℕ) (c c' : Counters Tx)
      → length es ≤ 1
      → HasRoom (suc n) c
      → Accounts es c c'
      → HasRoom n c'
  room-keeps es n c c' le room a =
      let e1 = a.all in
      let e2 = a.total in
      let e3 = a.losses in
      let e4 = a.cumulative in
      let r1 = room.total_room in
      let r2 = room.lost_room in
      let r3 = room.cumulative_room in
      record { total_room = omega arith; lost_room = omega arith; cumulative_room = omega arith }

  -- A channel that behaves as documented, no counter near 2^64: after draining any items, each event
  -- in them is either behind the channel's queue, in order, and in `events_total`, or in both
  -- `events_lost` and the shared counter.
  pub drain-Accounts :
      IsMpsc RawEvent Tx
      → (probe : ProbeId) (c : Counters Tx) (items : List (ℕ × List ℕ)) → HasRoom (length items) c
      → Accounts (events_in probe items) c (drain probe c items)
  unfolding drain
  drain-Accounts laws probe c [] room = no_events c
  drain-Accounts laws probe c ((now_ns, item) ∷ rest) room =
      let one : HasRoom 1 c = room-le 1 (length ((now_ns, item) ∷ rest)) c (omega arith) room in
      let first = drain_one-Accounts laws probe c now_ns item one in
      let room' =
        room-keeps _ (length rest) c _ (event_with-le_one probe now_ns (payload_in probe item)) room
          first in
      then_more _ (events_in probe rest) c _ _ first
        (drain-Accounts laws probe (drain_one probe c (now_ns, item)) rest room')
