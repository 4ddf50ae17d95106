-- ===== src/System/OutLog.antt =====
-- What each round of the wired program does on the way out, and so every run of it: the snapshots that the ticks
-- build, those that the mapping engine takes, and the frames that the OSC task takes.
use mathlib.Core.List.{append_assoc, append-nil}
use daemon_choir.Base.{ℕ, ◌≡◌, refl, ap, ◌∙◌, sym, Option, none, some, List, [], ◌∷◌, ◌++◌}
use daemon_choir.Float.{F64}
use daemon_choir.Config.{MappingRule}
use daemon_choir.Events.{RawEvent}
use daemon_choir.Metrics.{StateSnapshot, MetricMap}
use daemon_choir.Sync.{RwLock, read, Sender, Receiver}
use daemon_choir.Aggregator.{Aggregator}
use daemon_choir.Aggregator.Measure.{Emas, measure}
use daemon_choir.Aggregator.Effects.{built}
use daemon_choir.Mapping.{MappedParam, map_rules}
use daemon_choir.Db.{Sqlite}
use daemon_choir.System.Safety.{performs, Reach, here, then_step}
use daemon_choir.System.{Action, aggregator_ticks, mapping_receives, osc_receives, System}

-- a snapshot that the mapping engine took, with the rules at that time
abbrev pub Taken : Type 0 → Type 0
Taken F = StateSnapshot F × RwLock (List (MappingRule F))

-- The snapshots that ticks built, those that were taken, and the frames that the OSC task took.
pub record OutLog (F : Type 0) : Type 0 where
  pub snapshots : List (StateSnapshot F)
  pub mapped : List (Taken F)
  pub dispatched : List (List (MappedParam F))

abbrev pub silent : {F : Type 0} → OutLog F
silent = record { snapshots = []; mapped = []; dispatched = [] }

abbrev pub followed : {F : Type 0} → OutLog F → OutLog F → OutLog F
followed l m = record {
  snapshots = l.snapshots ++ m.snapshots;
  mapped = l.mapped ++ m.mapped;
  dispatched = l.dispatched ++ m.dispatched;
}

abbrev pub snapshots_of : {F : Type 0} → List (Taken F) → List (StateSnapshot F)
snapshots_of [] = []
snapshots_of ((snapshot, rules) ∷ rest) = snapshot ∷ snapshots_of rest

pub snapshots_of-append :
    {F : Type 0} (l m : List (Taken F)) → snapshots_of (l ++ m) ≡ snapshots_of l ++ snapshots_of m
snapshots_of-append [] m = refl
snapshots_of-append ((snapshot, rules) ∷ l) m = ap (λ r. snapshot ∷ r) (snapshots_of-append l m)

module _ {F : Type 0} ⦃f : F64 F⦄ where
  -- the frame that the rules make of a snapshot, if the rules can be read
  abbrev pub frame_of : Taken F → List (List (MappedParam F))
  frame_of (snapshot, rules) = elim (read rules) [
    | none ↦ []
    | some active ↦ elim (map_rules snapshot.metrics active) [ none ↦ [] | some frame ↦ frame ∷ [] ]
  ]

  abbrev pub frames_of : List (Taken F) → List (List (MappedParam F))
  frames_of [] = []
  frames_of (t ∷ rest) = frame_of t ++ frames_of rest

  pub frames_of-append :
      (l : List (Taken F)) (t : Taken F) → frames_of (l ++ (t ∷ [])) ≡ frames_of l ++ frame_of t
  frames_of-append [] t = append-nil (frame_of t)
  frames_of-append (u ∷ l) t =
      ap (λ r. frame_of u ++ r) (frames_of-append l t)
      ∙ sym (append_assoc (frame_of u) (frames_of l) (frame_of t))

  module _ {Tx Db : Type 0} ⦃tx : Sender (StateSnapshot F) Tx⦄
      ⦃db : Sender (StateSnapshot F) Db⦄ where
    abbrev pub built_log : ℕ → Aggregator F Tx Db → Option (Emas F × MetricMap F) → OutLog F
    built_log now_us a none = silent
    built_log now_us a (some (emas', metrics)) = record {
      snapshots = built now_us a metrics ∷ [];
      mapped = [];
      dispatched = [];
    }

    -- the snapshot that a tick builds
    abbrev pub tick_log : ℕ → Aggregator F Tx Db → OutLog F
    tick_log now_us a = built_log now_us a (measure a.current_window_events a.emas)

  abbrev pub mapping_log :
      {Tx : Type 0} → RwLock (List (MappingRule F)) → Option (StateSnapshot F × Tx) → OutLog F
  mapping_log rules none = silent
  mapping_log rules (some (snapshot, tx)) = record {
    snapshots = [];
    mapped = (snapshot, rules) ∷ [];
    dispatched = [];
  }

  abbrev pub osc_log : {Tx : Type 0} → Option (List (MappedParam F) × Tx) → OutLog F
  osc_log none = silent
  osc_log (some (ps, tx)) = record { snapshots = []; mapped = []; dispatched = ps ∷ [] }

module _ {F Raw Snap Par Packet Conn : Type 0} ⦃f : F64 F⦄ ⦃raw_tx : Sender RawEvent Raw⦄
    ⦃raw_rx : Receiver RawEvent Raw⦄ ⦃snap_tx : Sender (StateSnapshot F) Snap⦄
    ⦃snap_rx : Receiver (StateSnapshot F) Snap⦄ ⦃par_tx : Sender (List (MappedParam F)) Par⦄
    ⦃par_rx : Receiver (List (MappedParam F)) Par⦄ where
  abbrev pub out_log : System F Raw Snap Par Packet Conn → Action F Packet → OutLog F
  out_log s (aggregator_ticks now_us) = tick_log now_us s.aggregator
  out_log s mapping_receives = mapping_log s.app.mapping_rules (snap_rx.recv s.aggregator.tx)
  out_log s (osc_receives w) = osc_log (par_rx.recv s.params)
  out_log s _ = silent

  -- the log of a run, whatever the order of its rounds
  abbrev pub run_out_log :
      {sql : Sqlite F Conn} {Good : MappingRule F → Type 0}
      {s t : System F Raw Snap Par Packet Conn}
      → Reach sql Good s t
      → OutLog F
  run_out_log here = silent
  run_out_log (then_step {t} r (performs a ok e)) = followed (run_out_log r) (out_log t a)
