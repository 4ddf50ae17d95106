-- ===== src/Metrics/Laws.antt =====
-- The moving average and the normalisation of metrics.rs keep a number a number and put it into the
-- unit interval.
use daemon_choir.Base.{◌≡◌, if◌then◌else◌, some, arith, subst}
use daemon_choir.Float.{F64, IsIeee, ◌≼◌, ◌≺◌, IsFinite, clamp, nought, one, lt}
use daemon_choir.Metrics.{MetricMap, compute_ema, normalize_min_max}

module _ {F : Type 0} ⦃f : F64 F⦄ where
  open f use {add, sub, mul, div, le, of_nat, lit}

  abbrev pub InUnit : F → Type 0
  InUnit x = (nought ≼ x) × (x ≼ one)

  -- The six metrics lie between 0 and 1.
  abbrev pub IsNormal : MetricMap F → Type 0
  IsNormal m =
      InUnit m.cpu_sched_latency_p95
      × InUnit m.cpu_sched_context_rate
      × InUnit m.mem_reclaim_pressure
      × InUnit m.net_tx_bytes_norm
      × InUnit m.net_rx_bytes_norm
      × InUnit m.proc_exec_rate

  module _ (laws : IsIeee F) where
    open laws use {
      le_total, le_refl_left, le_refl_right, sub_mono, sub_self, sub_pos, div_mono, div_zero,
      div_self, mul_mono, mul_zero, add_nonneg, add_mono_nonneg, sub_finite, nat_finite,
    }

    -- A clamped number lies in the interval.
    pub clamp_bounds :
        (x lo hi : F) → x ≼ x → lo ≼ hi → (c : F) × (clamp x lo hi ≡ some c) × (lo ≼ c) × (c ≼ hi)
    clamp_bounds x lo hi num h = (
      (if lt x lo then lo else if lt hi x then hi else x),
      rw h,
      ground (arith, le_total x lo num (le_refl_left _ _ h), le_refl_left _ _ h),
      ground (arith, le_total x hi num (le_refl_right _ _ h), le_refl_right _ _ h),
    )

    pub ratio-InUnit :
        (c lo hi : F)
        → IsFinite lo
        → IsFinite hi
        → IsFinite (sub hi lo)
        → lo ≺ hi
        → lo ≼ c
        → c ≼ hi
        → InUnit (div (sub c lo) (sub hi lo))
    ratio-InUnit c lo hi fl fh fd h low high = (
      subst (λ z. z ≼ div (sub c lo) (sub hi lo)) (div_zero _ (sub_pos _ _ fl fh h) fd)
          (div_mono _ _ _ (sub_pos _ _ fl fh h) fd
            (subst (λ z. z ≼ sub c lo) (sub_self lo fl) (sub_mono lo lo c fl low))),
      subst (λ z. div (sub c lo) (sub hi lo) ≼ z) (div_self _ (sub_pos _ _ fl fh h) fd)
          (div_mono _ _ _ (sub_pos _ _ fl fh h) fd (sub_mono lo c hi fl high)),
    )

    pub normalize_min_max-InUnit :
        (x lo hi : F)
        → IsFinite lo
        → IsFinite hi
        → IsFinite (sub hi lo)
        → lo ≺ hi
        → x ≼ x
        → (r : F) × (normalize_min_max x lo hi ≡ some r) × InUnit r
    unfolding normalize_min_max
    normalize_min_max-InUnit x lo hi fl fh fd h num =
        let (c, e, low, high) = clamp_bounds x lo hi num h.0 in
        (div (sub c lo) (sub hi lo), rw (h.1, e), ratio-InUnit c lo hi fl fh fd h low high)

    -- An averaging weight: 0 < alpha < 1.
    pub record IsWeight (alpha : F) : Type 0 where
      pub positive : nought ≺ alpha
      pub below_one : alpha ≺ one
      pub finite : IsFinite alpha

    module _ (alpha : F) (w : IsWeight alpha) where
      rest-pos : nought ≺ sub one alpha
      rest-pos = sub_pos alpha one w.finite (nat_finite 1 (omega arith)) w.below_one

      rest-IsFinite : IsFinite (sub one alpha)
      rest-IsFinite = sub_finite one alpha w.positive.0 w.below_one.0 (nat_finite 1 (omega arith))

      scaled-nonneg : (k x : F) → nought ≺ k → IsFinite k → nought ≼ x → nought ≼ mul k x
      scaled-nonneg k x p fin h =
          subst (λ z. z ≼ mul k x) (mul_zero k p fin) (mul_mono k nought x p fin h)

      -- The average of two numbers that are not negative is such a number too, never NaN.
      pub compute_ema-nonneg : (x y : F) → nought ≼ x → nought ≼ y → nought ≼ compute_ema x y alpha
      unfolding compute_ema
      compute_ema-nonneg x y hx hy =
          add_nonneg _ _ (scaled-nonneg alpha x w.positive w.finite hx)
            (scaled-nonneg (sub one alpha) y rest-pos rest-IsFinite hy)

      -- A larger value, or a larger history, never gives a smaller average.
      pub compute_ema-mono :
          (x x' y y' : F)
          → nought ≼ x
          → nought ≼ y
          → x ≼ x'
          → y ≼ y'
          → compute_ema x y alpha ≼ compute_ema x' y' alpha
      unfolding compute_ema
      compute_ema-mono x x' y y' hx hy px py =
          add_mono_nonneg _ _ _ _ (scaled-nonneg alpha x w.positive w.finite hx)
            (scaled-nonneg (sub one alpha) y rest-pos rest-IsFinite hy)
            (mul_mono alpha x x' w.positive w.finite px)
            (mul_mono (sub one alpha) y y' rest-pos rest-IsFinite py)
