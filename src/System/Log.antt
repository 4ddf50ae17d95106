-- ===== src/System/Log.antt =====
-- What each round of the wired program does with an event, and so every run of it.
use daemon_choir.Base.{Option, none, some, List, [], ◌∷◌, ◌++◌, get_elem?}
use daemon_choir.Float.{F64}
use daemon_choir.Config.{MappingRule}
use daemon_choir.Events.{RawEvent}
use daemon_choir.Metrics.{StateSnapshot}
use daemon_choir.Sync.{Sender, Receiver, TrySend}
use daemon_choir.Probes.{ProbeStats}
use daemon_choir.Aggregator.{Input}
use daemon_choir.Mapping.{MappedParam}
use daemon_choir.Db.{Sqlite}
use daemon_choir.System.Safety.{performs, Reach, here, then_step}
use daemon_choir.System.{
  System, Action, probe_sends, ringbuf_receives, aggregator_receives, aggregator_ticks,
}

-- The inputs of the aggregator's loop, a lost event among them; the events that the probes got into
-- their channel; the events that the ring buffer's task took out of it.
pub record Log : Type 0 where
  pub inputs : List Input
  pub delivered : List RawEvent
  pub handled : List RawEvent

abbrev pub quiet : Log
quiet = record { inputs = []; delivered = []; handled = [] }

-- one log behind another
abbrev pub joined : Log → Log → Log
joined l m = record {
  inputs = l.inputs ++ m.inputs;
  delivered = l.delivered ++ m.delivered;
  handled = l.handled ++ m.handled;
}

-- what a probe's event is to the others, on each result of `try_send`
abbrev pub sent_log : TrySend → RawEvent → Log
sent_log TrySend.sent event = record { inputs = []; delivered = event ∷ []; handled = [] }
sent_log TrySend.full event = record {
  inputs = Input.event_lost ∷ [];
  delivered = [];
  handled = [];
}
sent_log TrySend.closed event = record {
  inputs = Input.event_lost ∷ [];
  delivered = [];
  handled = [];
}

abbrev pub input_log : Input → Log
input_log i = record { inputs = i ∷ []; delivered = []; handled = [] }

abbrev pub probe_log : Option ProbeStats → TrySend → RawEvent → Log
probe_log none t event = quiet
probe_log (some p) t event = sent_log t event

module _ {Raw : Type 0} where
  abbrev pub handled_log : Option (RawEvent × Raw) → Log
  handled_log none = quiet
  handled_log (some (event, raw)) = record { inputs = []; delivered = []; handled = event ∷ [] }

  abbrev pub received_log : Option (RawEvent × Raw) → Log
  received_log none = quiet
  received_log (some (event, raw)) = input_log (Input.received event)

module _ {F Raw Snap Par Packet Conn : Type 0} ⦃f : F64 F⦄ ⦃raw_tx : Sender RawEvent Raw⦄
    ⦃raw_rx : Receiver RawEvent Raw⦄ where
  abbrev pub round_log : System F Raw Snap Par Packet Conn → Action F Packet → Log
  round_log s (probe_sends i event now_us) =
      probe_log (get_elem? s.app.probes_stats i) (raw_tx.try_send s.raw event).0 event
  round_log s ringbuf_receives = handled_log (raw_rx.recv s.raw)
  round_log s aggregator_receives = received_log (raw_rx.recv s.consumer.aggregator_tx)
  round_log s (aggregator_ticks now_us) = input_log (Input.tick now_us)
  round_log s _ = quiet

  module _ ⦃snap_tx : Sender (StateSnapshot F) Snap⦄ ⦃snap_rx : Receiver (StateSnapshot F) Snap⦄
      ⦃par_tx : Sender (List (MappedParam F)) Par⦄
      ⦃par_rx : Receiver (List (MappedParam F)) Par⦄ where
    -- the log of a run, whatever the order of its rounds
    abbrev pub run_log :
        {sql : Sqlite F Conn} {Good : MappingRule F → Type 0}
        {s t : System F Raw Snap Par Packet Conn}
        → Reach sql Good s t
        → Log
    run_log here = quiet
    run_log (then_step {t} r (performs a ok e)) = joined (run_log r) (round_log t a)
