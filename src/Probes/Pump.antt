-- ===== src/Probes/Pump.antt =====
-- The loop of probe_manager.rs that drains a ring buffer into the channel.
use daemon_choir.Base.{ℕ, ◌/◌, Option, none, some, List, [], ◌∷◌, add64, ◌>>=◌}
use daemon_choir.Events.{ProbeId, RawEvent, EventPayload}
use daemon_choir.Events.Wire.{
  from_bytes, cpu_sched_layout, mem_pressure_layout, net_io_layout, proc_lifecycle_layout,
}
use daemon_choir.Sync.{Sender, TrySend}

-- what a task of one probe shares with the others
pub record Counters (Tx : Type 0) : Type 0 where
  pub tx : Tx
  pub events_total : ℕ
  pub events_lost : ℕ
  pub cumulative_lost : ℕ
  pub last_event_us : ℕ

-- `match probe_id`; `none` is `continue`
unfoldable pub read_payload : ProbeId → List ℕ → Option EventPayload
read_payload ProbeId.cpu_sched item = do
  e ← from_bytes cpu_sched_layout item
  some (
      EventPayload.cpu_sched (record {
        prev_comm_hash = e.prev_comm_hash;
        next_comm_hash = e.next_comm_hash;
        latency_ns = e.latency_ns;
        cpu_id = e.cpu_id;
      }))
read_payload ProbeId.mem_pressure item = do
  e ← from_bytes mem_pressure_layout item
  some (EventPayload.mem_pressure (record { pages_reclaimed = e.pages_reclaimed; zone = e.zone }))
read_payload ProbeId.net_io item = do
  e ← from_bytes net_io_layout item
  some (
      EventPayload.net_io
        (record { bytes_tx = e.bytes_tx; bytes_rx = e.bytes_rx; dev_name_hash = e.dev_name_hash }))
read_payload ProbeId.proc_lifecycle item = do
  e ← from_bytes proc_lifecycle_layout item
  some (EventPayload.proc_lifecycle (record { comm_hash = e.comm_hash; uid_hash = e.uid_hash }))

module _ {Tx : Type 0} ⦃tx : Sender RawEvent Tx⦄ where
  -- `if let Ok(_) = tx_clone.try_send(event)`, with its two branches
  unfoldable pub count_result : TrySend → ℕ → Counters Tx → Counters Tx
  count_result TrySend.sent now_us c = record c {
    events_total = add64 c.events_total 1;
    last_event_us = now_us;
  }
  count_result _ now_us c = record c {
    events_lost = add64 c.events_lost 1;
    cumulative_lost = add64 c.cumulative_lost 1;
  }

  unfoldable pub send_event : RawEvent → ℕ → Counters Tx → Counters Tx
  unfolding count_result
  send_event event now_us c =
      count_result (tx.try_send c.tx event).0 now_us (record c { tx = (tx.try_send c.tx event).1 })

  -- one item of the ring buffer, read at the time `now_ns` after 1970 (the `unwrap` of an earlier time is left out)
  unfoldable pub drain_one : ProbeId → Counters Tx → ℕ × List ℕ → Counters Tx
  unfolding send_event
  drain_one probe c (now_ns, item) = elim (read_payload probe item) [
    | none ↦ c
    | some payload ↦
        send_event (record { probe = probe; timestamp_ns = now_ns; payload = payload })
          (now_ns / 1000) c
  ]

  -- `while let Some(item) = guard.get_mut().next()`
  unfoldable pub drain : ProbeId → Counters Tx → List (ℕ × List ℕ) → Counters Tx
  unfolding drain_one
  drain probe c [] = c
  drain probe c (i ∷ is) = drain probe (drain_one probe c i) is
