-- ===== src/System/Engine.antt =====
-- The mapping engine in the wired program: what reaches the OSC task is within limits.
use daemon_choir.Base.{
  ◌≡◌, ◌≢◌, refl, sym, ◌∙◌, subst, false, some, Option-cases, inl, inr, List, [], ◌∷◌, ◌++◌, All,
  All-append,
}
use daemon_choir.Float.{F64, IsIeee, ◌≼◌}
use daemon_choir.Config.{MappingRule}
use daemon_choir.Metrics.{StateSnapshot, MetricMap, get_value}
use daemon_choir.Metrics.Laws.{IsNormal}
use daemon_choir.Sync.{RwLock, Sender, IsMpsc, TrySend}
use daemon_choir.Sync.Bounded.{try_send-All, try_send-ne-closed}
use daemon_choir.Aggregator.Invariant.{IsPublishable}
use daemon_choir.Mapping.{
  MappedParam, MappingEngine, Next, map_rule, map_rules, map_snapshot, after_send,
}
use daemon_choir.Mapping.Frames.{IsMusical, IsInRange, some-injective, get_value-AreNumbers}
use daemon_choir.Mapping.Rules.{IsComparable, comparable-ne-none}
use daemon_choir.Mapping.Bounds.{apply_transform_bounds}
use daemon_choir.Mapping.Transform.{apply_transform}

module _ {F : Type 0} ⦃f : F64 F⦄ (laws : IsIeee F) (P : MappedParam F → Type 0) where
  -- A rule whose input bounds can be compared, and which gives acceptable parameters only.
  pub record IsGood (r : MappingRule F) : Type 0 where
    pub comparable : IsComparable r
    pub within :
        (x v : F)
        → x ≼ x
        → apply_transform x r.transform r.input_range.lo r.input_range.hi r.output_range.lo
            r.output_range.hi
          ≡ some v
        → P (record { osc_address = r.osc_address; value = v })

  -- A linear or step rule between bounds that make sense is one, if its whole range is acceptable.
  pub musical-IsGood :
      (r : MappingRule F)
      → IsMusical laws r
      → ((p : MappedParam F) → IsInRange laws r p → P p)
      → IsGood r
  musical-IsGood r musical range = record {
    comparable =
        (laws.le_refl_left _ _ musical.input.order.0, laws.le_refl_right _ _ musical.input.order.0);
    within = λ x v number e.
        let (v', q, low, high) =
          apply_transform_bounds laws r.output_range.lo r.output_range.hi musical.output
            r.input_range.lo r.input_range.hi musical.input r.transform musical.transform x
            number in
        let same : v' ≡ v = some-injective laws (sym q ∙ e) in
        range (record { osc_address = r.osc_address; value = v })
          (record {
            address = refl;
            low = subst (λ z. r.output_range.lo ≼ z) same low;
            high =
                subst (λ z. z ≼ f.add r.output_range.lo (f.sub r.output_range.hi r.output_range.lo))
                  same high;
          });
  }

  rule_within :
      (m : MetricMap F) (r : MappingRule F)
      → IsNormal m
      → IsGood r
      → (ps : List (MappedParam F)) × (map_rule m r ≡ some ps) × All P ps
  unfolding map_rule
  rule_within m r normal good = elim (Option-cases (get_value m r.source_metric)) [
    | inl e ↦ ([], rw (e, map_rule) refl, tt)
    | inr (val, e) ↦
        elim (Option-cases (
          apply_transform val r.transform r.input_range.lo r.input_range.hi r.output_range.lo
            r.output_range.hi)) [
              | inl q ↦ absurd (comparable-ne-none laws m val r good.comparable q)
              | inr (v, q) ↦ (
                record { osc_address = r.osc_address; value = v } ∷ [],
                rw (e, q, map_rule) refl,
                (
                  good.within val v (get_value-AreNumbers laws m r.source_metric normal val e) q,
                  tt,
                ),
              )
            ]
  ]

  -- Every frame of a published snapshot has acceptable parameters only, and does not panic.
  frame_within :
      (m : MetricMap F) (rs : List (MappingRule F))
      → IsNormal m
      → All IsGood rs
      → (ps : List (MappedParam F)) × (map_rules m rs ≡ some ps) × All P ps
  unfolding map_rules
  frame_within m [] normal good = ([], refl, tt)
  frame_within m (r ∷ rs) normal (one, more) =
      let (ps, e, h) = rule_within m r normal one in
      let (qs, e', h') = frame_within m rs normal more in
      (ps ++ qs, rw (e, e') refl, All-append P ps qs h h')

  module _ {Par : Type 0} ⦃par : Sender (List (MappedParam F)) Par⦄
      (par_laws : IsMpsc (List (MappedParam F)) Par) where
    -- the mapping engine goes on, with acceptable parameters in its channel, which is open
    pub record MapsOn (rules : RwLock (List (MappingRule F))) (m : MappingEngine F Par)
        : Type 0 where
      pub same : m.rules ≡ rules
      pub queue : All (All P) (par.queued m.tx)
      pub alive : par.is_closed m.tx ≡ false

    after_send-MapsOn :
        (t : TrySend) (m : MappingEngine F Par)
        → t ≢ TrySend.closed
        → MapsOn m.rules m
        → (m' : MappingEngine F Par) × (after_send t m ≡ Next.goes_on m') × MapsOn m.rules m'
    unfolding after_send
    after_send-MapsOn TrySend.closed m ne h = absurd (ne refl)
    after_send-MapsOn TrySend.sent m ne h = (m, refl, h)
    after_send-MapsOn TrySend.full m ne h = (m, refl, h)

    pub map_snapshot-MapsOn :
        (rs : List (MappingRule F)) (tx : Par) (s : StateSnapshot F)
        → IsPublishable s
        → All IsGood rs
        → All (All P) (par.queued tx)
        → par.is_closed tx ≡ false
        → (m' : MappingEngine F Par) × (map_snapshot
              (record { tx = tx; rules = RwLock.healthy rs })
              s
            ≡ Next.goes_on m')
          × MapsOn (RwLock.healthy rs) m'
    unfolding map_snapshot
    map_snapshot-MapsOn rs tx s normal good queue alive =
        let (ps, e, within) = frame_within s.metrics rs normal good in
        rw (e, map_snapshot)
          (after_send-MapsOn (par.try_send tx ps).0
            (record { tx = (par.try_send tx ps).1; rules = RwLock.healthy rs })
            (try_send-ne-closed par_laws tx ps alive)
            (record {
              same = refl;
              queue = try_send-All par_laws (All P) tx ps queue within;
              alive = (par_laws.send_keeps tx ps).1 ∙ alive;
            }))
