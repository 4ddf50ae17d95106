-- ===== src/Mapping.antt =====
-- crates/conductor/src/mapping.rs: the task that turns a snapshot into OSC parameters by the
-- configured rules.
pub mod Transform
pub mod Bounds
pub mod Rules
pub mod Frames
use daemon_choir.Base.{◌++◌, Option, none, some, String, List, [], ◌∷◌, ◌>>=◌}
use daemon_choir.Float.{F64}
use daemon_choir.Config.{MappingRule}
use daemon_choir.Metrics.{MetricMap, StateSnapshot, get_value}
use daemon_choir.Sync.{RwLock, read, Sender, TrySend}
use Transform.{apply_transform}

pub record MappedParam (F : Type 0) : Type 0 where
  pub osc_address : String
  pub value : F

module _ {F : Type 0} ⦃f : F64 F⦄ where
  -- one round of the loop over the rules: what it pushes, if anything; `none` is a panic
  unfoldable pub map_rule : MetricMap F → MappingRule F → Option (List (MappedParam F))
  map_rule metrics rule = elim (get_value metrics rule.source_metric) [
    | none ↦ some []
    | some val ↦
        apply_transform val rule.transform rule.input_range.lo rule.input_range.hi
          rule.output_range.lo rule.output_range.hi
        >>= λ mapped_val. some (record { osc_address = rule.osc_address; value = mapped_val } ∷ [])
  ]

  -- the loop over the rules
  unfoldable pub map_rules : MetricMap F → List (MappingRule F) → Option (List (MappedParam F))
  unfolding map_rule
  map_rules metrics [] = some []
  map_rules metrics (rule ∷ rules) = do
    params ← map_rule metrics rule
    rest ← map_rules metrics rules
    some (params ++ rest)

-- `self`, with the rules behind its `Arc`
pub record MappingEngine (F Tx : Type 0) : Type 0 where
  pub tx : Tx
  pub rules : RwLock (List (MappingRule F))

-- What a round of `run` does: goes on, ends the task, or panics.
pub data Next (S : Type 0) : Type 0 where
  goes_on : S → Next S
  exits : S → Next S
  panics : Next S

module _ {F Tx : Type 0} ⦃f : F64 F⦄ ⦃tx : Sender (List (MappedParam F)) Tx⦄ where
  -- what `match e` does with the result of `self.tx.try_send`
  unfoldable pub after_send : TrySend → MappingEngine F Tx → Next (MappingEngine F Tx)
  after_send TrySend.closed m = exits m
  after_send _ m = goes_on m

  -- one round of the loop of `run`, for a snapshot received
  unfoldable pub map_snapshot : MappingEngine F Tx → StateSnapshot F → Next (MappingEngine F Tx)
  unfolding after_send
  map_snapshot m snapshot = elim (read m.rules) [
    | none ↦ goes_on m
    | some active_rules ↦ elim (map_rules snapshot.metrics active_rules) [
      | none ↦ panics
      | some params ↦
          after_send (tx.try_send m.tx params).0 (record m { tx = (tx.try_send m.tx params).1 })
    ]
  ]

  -- `run`, on the snapshots received until the channel is closed
  unfoldable pub run : MappingEngine F Tx → List (StateSnapshot F) → Next (MappingEngine F Tx)
  unfolding map_snapshot
  run m [] = exits m
  run m (s ∷ ss) = elim (map_snapshot m s) [
    | goes_on m' ↦ run m' ss
    | exits m' ↦ exits m'
    | panics ↦ panics
  ]
