-- ===== src/Mapping/Frames.antt =====
-- What the parameters of a frame are, where they come from snapshots as the aggregator publishes them.
use daemon_choir.Base.{
  arith, ap, ◌≡◌, refl, subst, Bool, true, false, ◌⊎◌, inl, inr, Option, none, some, Option-cases,
  String, List, [], ◌∷◌, ◌++◌, if◌then◌else◌, All, All-append, All-mono, str_eq,
}
use daemon_choir.Float.{F64, IsIeee, ◌≼◌, nought}
use daemon_choir.Config.{MappingRule}
use daemon_choir.Metrics.{MetricMap, get_value}
use daemon_choir.Metrics.Laws.{IsNormal}
use daemon_choir.Mapping.{MappedParam, map_rule, map_rules}
use daemon_choir.Mapping.Bounds.{IsExact, IsInterval, apply_transform_bounds}

abbrev or_else : {A : Type 0} → A → Option A → A
or_else d none = d
or_else d (some a) = a

module _ {F : Type 0} ⦃f : F64 F⦄ (laws : IsIeee F) where
  open f use {add, sub}

  -- A rule with a linear or step transform between bounds that make sense.
  pub record IsMusical (r : MappingRule F) : Type 0 where
    pub transform : IsExact r.transform
    pub input : IsInterval laws r.input_range.lo r.input_range.hi
    pub output : IsInterval laws r.output_range.lo r.output_range.hi

  -- a parameter with a rule's address, in the rule's output range
  pub record IsInRange (r : MappingRule F) (p : MappedParam F) : Type 0 where
    pub address : p.osc_address ≡ r.osc_address
    pub low : r.output_range.lo ≼ p.value
    pub high : p.value ≼ add r.output_range.lo (sub r.output_range.hi r.output_range.lo)

  -- in range for one of the rules
  abbrev pub IsFrom : List (MappingRule F) → MappedParam F → Type 0
  IsFrom [] p = ⊥
  IsFrom (r ∷ rs) p = IsInRange r p ⊎ IsFrom rs p

  pub some-injective : {x v : F} → some x ≡ some v → x ≡ v
  some-injective {x} e = ap (λ o. or_else x o) e

  -- every value that is there is a number
  abbrev pub AreNumbers : Option F → Type 0
  AreNumbers o = (v : F) → o ≡ some v → v ≼ v

  none-AreNumbers : AreNumbers none
  none-AreNumbers v e = absurd (grind arith)

  pick-AreNumbers :
      (b : Bool) (x : F) (rest : Option F)
      → x ≼ x
      → AreNumbers rest
      → AreNumbers (if b then some x else rest)
  pick-AreNumbers true x rest h hs v e = subst (λ y. y ≼ y) (some-injective e) h
  pick-AreNumbers false x rest h hs v e = hs v e

  pub get_value-AreNumbers :
      (m : MetricMap F) (name : String) → IsNormal m → AreNumbers (get_value m name)
  unfolding get_value
  get_value-AreNumbers m name (cpu, rate, mem, tx, rx, exec) =
      pick-AreNumbers (str_eq name "cpu.sched.latency_p95") _ _ (number _ cpu.0) (
        pick-AreNumbers (str_eq name "cpu.sched.context_rate") _ _ (number _ rate.0) (
          pick-AreNumbers (str_eq name "mem.reclaim.pressure") _ _ (number _ mem.0) (
            pick-AreNumbers (str_eq name "net.tx.bytes_norm") _ _ (number _ tx.0) (
              pick-AreNumbers (str_eq name "net.rx.bytes_norm") _ _ (number _ rx.0) (
                pick-AreNumbers (str_eq name "proc.exec.rate") _ _ (number _ exec.0)
                  none-AreNumbers)))))
    where
      number : (x : F) → nought ≼ x → x ≼ x
      number x h = laws.le_refl_right nought x h

  map_rule-IsInRange :
      (m : MetricMap F) (r : MappingRule F)
      → IsNormal m
      → IsMusical r
      → (ps : List (MappedParam F)) × (map_rule m r ≡ some ps) × All (IsInRange r) ps
  unfolding map_rule
  map_rule-IsInRange m r normal musical = elim (Option-cases (get_value m r.source_metric)) [
    | inl e ↦ ([], rw (e, map_rule) refl, tt)
    | inr (val, e) ↦
        let (v, q, low, high) =
          apply_transform_bounds laws r.output_range.lo r.output_range.hi musical.output
            r.input_range.lo r.input_range.hi musical.input r.transform musical.transform val
            (get_value-AreNumbers m r.source_metric normal val e) in
        (
          record { osc_address = r.osc_address; value = v } ∷ [],
          rw (e, q, map_rule) refl,
          (record { address = refl; low = low; high = high }, tt),
        )
  ]

  -- For numbers that obey IEEE 754, metrics between 0 and 1 as every published snapshot has them, and
  -- rules with a linear or step transform and with input and output bounds that are finite, in strict
  -- order and a finite distance apart: a frame is mapped without a panic, and each parameter has the
  -- address of a rule and a value in that rule's output range, up to the rounding of its upper end.
  pub map_rules-IsFrom :
      (m : MetricMap F) (rs : List (MappingRule F))
      → IsNormal m
      → All IsMusical rs
      → (ps : List (MappedParam F)) × (map_rules m rs ≡ some ps) × All (IsFrom rs) ps
  unfolding map_rules
  map_rules-IsFrom m [] normal musical = ([], refl, tt)
  map_rules-IsFrom m (r ∷ rs) normal (one, more) =
      let (ps, e, h) = map_rule-IsInRange m r normal one in
      let (qs, e', h') = map_rules-IsFrom m rs normal more in
      (
        ps ++ qs,
        rw (e, e') refl,
        All-append (IsFrom (r ∷ rs)) ps qs
            (All-mono (IsInRange r) (IsFrom (r ∷ rs)) ps (λ p i. inl i) h)
            (All-mono (IsFrom rs) (IsFrom (r ∷ rs)) qs (λ p i. inr i) h'),
      )
