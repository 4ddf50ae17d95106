-- ===== src/Mapping/Rules.antt =====
-- The loops of mapping.rs: which rules give a parameter, and when the task panics.
use daemon_choir.Base.{
  ◌≡◌, refl, Bool, true, false, Option, none, some, String, List, [], ◌∷◌, ◌++◌, map, All, ◌↔◌, inl,
  inr, arith, Option-cases, ap, sym, ◌∙◌, str_eq, ◌||◌, if◌then◌else◌, ◌≢◌,
}
use mathlib.Core.List.{map-append}
use daemon_choir.Float.{F64, IsIeee, ◌≼◌}
use daemon_choir.Config.{MappingRule}
use daemon_choir.Metrics.{MetricMap, StateSnapshot, get_value}
use daemon_choir.Sync.{RwLock, Sender, TrySend}
use daemon_choir.Mapping.Transform.{apply_transform}
use daemon_choir.Mapping.{
  MappedParam, MappingEngine, Next, goes_on, exits, panics, map_rule, map_rules, after_send,
  map_snapshot, run,
}

-- The six names of metrics, as docs and configuration spell them.
abbrev pub is_metric : String → Bool
is_metric name =
    str_eq name "cpu.sched.latency_p95"
    || (str_eq name "cpu.sched.context_rate"
        || (str_eq name "mem.reclaim.pressure"
            || (str_eq name "net.tx.bytes_norm"
                || (str_eq name "net.rx.bytes_norm" || str_eq name "proc.exec.rate"))))

abbrev is_some : {A : Type 0} → Option A → Bool
is_some none = false
is_some (some _) = true

-- `get_value` knows these names and no other.
get_value-is_metric :
    {F : Type 0} (m : MetricMap F) (name : String) → is_some (get_value m name) ≡ is_metric name
unfolding get_value
get_value-is_metric m name = ground arith

-- The addresses of the rules that name a metric, in the order of the rules.
abbrev pub metric_addresses : {F : Type 0} → List (MappingRule F) → List String
metric_addresses [] = []
metric_addresses (r ∷ rs) =
    if is_metric r.source_metric then r.osc_address ∷ metric_addresses rs else metric_addresses rs

rule_then :
    (b : Bool) (a : String) (l : List String)
    → (if b then a ∷ [] else []) ++ l ≡ (if b then a ∷ l else l)
rule_then true a l = refl
rule_then false a l = refl

module _ {F : Type 0} ⦃f : F64 F⦄ where
  open f use {le}

  -- The bounds of the rule's input can be compared: neither is NaN.
  abbrev pub IsComparable : MappingRule F → Type 0
  IsComparable r = (r.input_range.lo ≼ r.input_range.lo) × (r.input_range.hi ≼ r.input_range.hi)

  -- `apply_transform` panics exactly if its input bounds cannot be compared either way, as when one of
  -- them is NaN.
  pub apply_transform-none_iff :
      (x : F) (name : String) (in_min in_max out_min out_max : F)
      → (apply_transform x name in_min in_max out_min out_max ≡ none)
        ↔ ((le in_max in_min ≡ false) × (le in_min in_max ≡ false))
  unfolding apply_transform
  apply_transform-none_iff x name in_min in_max out_min out_max =
      (λ e. ground arith, λ h. ground arith)

  -- the parameters of one rule go to its address, if it names a metric
  abbrev rule_addresses : MappingRule F → List String
  rule_addresses r = if is_metric r.source_metric then r.osc_address ∷ [] else []

  module _ (laws : IsIeee F) (m : MetricMap F) where
    known :
        (r : MappingRule F) (o : Option F)
        → get_value m r.source_metric ≡ o
        → is_metric r.source_metric ≡ is_some o
    known r o e = sym (get_value-is_metric m r.source_metric) ∙ ap is_some e

    pub comparable-ne-none :
        (x : F) (r : MappingRule F)
        → IsComparable r
        → apply_transform x r.transform r.input_range.lo r.input_range.hi r.output_range.lo
            r.output_range.hi
          ≢ none
    comparable-ne-none x r (lo, hi) e =
        let both =
          (apply_transform-none_iff x r.transform r.input_range.lo r.input_range.hi _ _).0 e in
        ground (arith, both, laws.le_total r.input_range.lo r.input_range.hi lo hi)

    map_rule-known :
        (r : MappingRule F) (val : F)
        → IsComparable r
        → get_value m r.source_metric ≡ some val
        → (ps : List (MappedParam F)) × (map_rule m r ≡ some ps)
          × (map (λ p. p.osc_address) ps ≡ rule_addresses r)
    unfolding map_rule
    map_rule-known r val c e =
        elim (Option-cases (
          apply_transform val r.transform r.input_range.lo r.input_range.hi r.output_range.lo
            r.output_range.hi)) [
              | inl q ↦ absurd (comparable-ne-none val r c q)
              | inr (v, q) ↦ (
                record { osc_address = r.osc_address; value = v } ∷ [],
                rw (e, map_rule, q),
                ap (λ b. if b then r.osc_address ∷ [] else []) (sym (known r (some val) e)),
              )
            ]

    map_rule-total :
        (r : MappingRule F)
        → IsComparable r
        → (ps : List (MappedParam F)) × (map_rule m r ≡ some ps)
          × (map (λ p. p.osc_address) ps ≡ rule_addresses r)
    unfolding map_rule
    map_rule-total r c = elim (Option-cases (get_value m r.source_metric)) [
      | inl e ↦ (
        [],
        rw (e, map_rule),
        ap (λ b. if b then r.osc_address ∷ [] else []) (sym (known r none e)),
      )
      | inr (val, e) ↦ map_rule-known r val c e
    ]

    -- For numbers that obey IEEE 754: if no input bound of any rule is NaN, a frame is mapped
    -- without a panic, and its parameters go to the addresses of the rules that name a metric,
    -- one for each and in the order of the rules.
    pub map_rules_total :
        (rs : List (MappingRule F))
        → All IsComparable rs
        → (ps : List (MappedParam F)) × (map_rules m rs ≡ some ps)
          × (map (λ p. p.osc_address) ps ≡ metric_addresses rs)
    unfolding map_rules
    map_rules_total [] _ = ([], refl, refl)
    map_rules_total (r ∷ rs) (c, cs) =
        let (ps, e, same) = map_rule-total r c in
        let (qs, e', same') = map_rules_total rs cs in
        (
          ps ++ qs,
          rw (e, e'),
          map-append _ ps qs
              ∙ rw (same, same')
                  (rule_then (is_metric r.source_metric) r.osc_address (metric_addresses rs)),
        )

-- the rules under the lock are all comparable, or the lock is poisoned and nobody reads them
abbrev pub AllComparable : {F : Type 0} ⦃f : F64 F⦄ → RwLock (List (MappingRule F)) → Type 0
AllComparable (RwLock.healthy rs) = All IsComparable rs
AllComparable (RwLock.poisoned rs) = Unit

-- The task did not panic, and its rules are as they were.
abbrev pub Survives :
    {F Tx : Type 0} → RwLock (List (MappingRule F)) → Next (MappingEngine F Tx) → Type 0
Survives rules (goes_on m) = m.rules ≡ rules
Survives rules (exits m) = m.rules ≡ rules
Survives rules panics = ⊥

module _ {F Tx : Type 0} ⦃f : F64 F⦄ ⦃tx : Sender (List (MappedParam F)) Tx⦄ (laws : IsIeee F) where
  after_send-Survives : (t : TrySend) (m : MappingEngine F Tx) → Survives m.rules (after_send t m)
  unfolding after_send
  after_send-Survives TrySend.closed m = refl
  after_send-Survives _ m = refl

  map_snapshot-Survives :
      (t : Tx) (l : RwLock (List (MappingRule F))) (s : StateSnapshot F)
      → AllComparable l
      → Survives l (map_snapshot (record { tx = t; rules = l }) s)
  unfolding map_snapshot
  map_snapshot-Survives t (RwLock.poisoned rs) s c = refl
  map_snapshot-Survives t (RwLock.healthy rs) s c =
      let (ps, e, _) = map_rules_total laws s.metrics rs c in
      rw (e, map_snapshot) (after_send-Survives _ _)

  -- For numbers that obey IEEE 754: if no input bound of any rule is NaN, the task never panics,
  -- whatever snapshots it gets and whatever its channel answers, and it leaves the rules alone.
  run-Survives :
      (m : MappingEngine F Tx) (ss : List (StateSnapshot F))
      → AllComparable m.rules
      → Survives m.rules (run m ss)
  unfolding run
  run-Survives m [] c = refl
  run-Survives m (s ∷ ss) c =
      next (map_snapshot m s) (map_snapshot-Survives m.tx m.rules s c)
        λ m' e. rw (← e) (run-Survives m' ss (rw e c))
    where
      next :
          (r : Next (MappingEngine F Tx))
          → Survives m.rules r
          → ((m' : MappingEngine F Tx) → m'.rules ≡ m.rules → Survives m.rules (run m' ss))
          → Survives m.rules
              (elim r [ goes_on m' ↦ run m' ss | exits m' ↦ exits m' | panics ↦ panics ])
      next (goes_on m') e k = k m' e
      next (exits m') e k = e
      next panics e k = elim e [ ]
