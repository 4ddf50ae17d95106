-- ===== src/Mapping/Bounds.antt =====
-- The range and the monotonicity of `apply_transform` of mapping.rs, for the transforms whose operations
-- IEEE 754 determines: linear and step.
use daemon_choir.Base.{
  ◌≡◌, false, some, String, if◌then◌else◌, lowercase_eq, arith, subst, ap, inl, inr, sym, ◌∙◌,
  Bool-cases,
}
use daemon_choir.Float.{F64, IsIeee, ◌≼◌, ◌≺◌, IsFinite, nought, one, lt}
use daemon_choir.Metrics.Laws.{InUnit, clamp_bounds, ratio-InUnit}
use daemon_choir.Mapping.Transform.{linear, step, transform_ratio, apply_transform}

-- The names for which `apply_transform` takes neither the exponential nor the logarithmic branch.
abbrev pub IsExact : String → Type 0
IsExact name = (lowercase_eq name "exponential" ≡ false) × (lowercase_eq name "logarithmic" ≡ false)

module _ {F : Type 0} ⦃f : F64 F⦄ (laws : IsIeee F) where
  open f use {of_nat, add, sub, mul, div, le, floor}
  open laws use {
    le_trans, le_total, le_refl_left, le_refl_right, nat_mono, nat_lt, nat_finite, sub_mono,
    sub_pos, add_mono, add_zero, mul_mono, mul_zero, mul_one, mul_comm, div_mono, div_zero,
    div_self, floor_mono, floor_nat,
  }

  -- A pair of bounds between which a value is mapped: both finite, as is their distance.
  pub record IsInterval (lo hi : F) : Type 0 where
    pub order : lo ≺ hi
    pub low : IsFinite lo
    pub high : IsFinite hi
    pub width : IsFinite (sub hi lo)

  width-pos : (lo hi : F) → IsInterval lo hi → nought ≺ sub hi lo
  width-pos lo hi i = sub_pos lo hi i.low i.high i.order

  -- what `clamp` returns where its assertion holds
  abbrev clamped : F → F → F → F
  clamped x lo hi = if lt x lo then lo else if lt hi x then hi else x

  clamped_mono : (x y lo hi : F) → x ≼ y → lo ≼ hi → clamped x lo hi ≼ clamped y lo hi
  clamped_mono x y lo hi h order = ground (
    arith,
    order,
    le_total x lo (le_refl_left x y h) (le_refl_left lo hi order),
    le_total y lo (le_refl_right x y h) (le_refl_left lo hi order),
    le_total x hi (le_refl_left x y h) (le_refl_right lo hi order),
    le_total y hi (le_refl_right x y h) (le_refl_right lo hi order),
    le_trans x y lo h,
    le_trans x y hi h,
    le_trans hi x y,
    le_trans lo x y,
    le_refl_left lo hi order,
    le_refl_right lo hi order,
  )

  -- The ratio that `step` uses, in the unit interval and in order.
  abbrev stepped : F → F
  stepped r = div (floor (mul r (of_nat 5))) (of_nat 5)

  five-pos : nought ≺ of_nat 5
  five-pos = nat_lt 0 5 (omega arith) (omega arith)

  five-IsFinite : IsFinite (of_nat 5)
  five-IsFinite = nat_finite 5 (omega arith)

  stepped_mono : (r s : F) → r ≼ s → stepped r ≼ stepped s
  stepped_mono r s h = div_mono _ _ _ five-pos five-IsFinite (
      floor_mono _ _ (
        rw (mul_comm r (of_nat 5), mul_comm s (of_nat 5))
          (mul_mono _ _ _ five-pos five-IsFinite h)))

  stepped_zero : stepped nought ≡ nought
  stepped_zero =
      ap (λ z. div (floor z) (of_nat 5))
        (mul_comm nought (of_nat 5) ∙ mul_zero _ five-pos five-IsFinite)
      ∙ ap (λ z. div z (of_nat 5)) (floor_nat 0 (omega arith))
      ∙ div_zero _ five-pos five-IsFinite

  stepped-one : stepped one ≡ one
  stepped-one =
      ap (λ z. div (floor z) (of_nat 5)) (mul_comm one (of_nat 5) ∙ mul_one (of_nat 5))
      ∙ ap (λ z. div z (of_nat 5)) (floor_nat 5 (omega arith))
      ∙ div_self _ five-pos five-IsFinite

  stepped-InUnit : (r : F) → InUnit r → InUnit (stepped r)
  stepped-InUnit r (low, high) = (
    subst (λ z. z ≼ stepped r) stepped_zero (stepped_mono nought r low),
    subst (λ z. stepped r ≼ z) stepped-one (stepped_mono r one high),
  )

  module _ (out_min out_max : F) (out : IsInterval out_min out_max) where
    linear_mono : (r s : F) → r ≼ s → linear r out_min out_max ≼ linear s out_min out_max
    unfolding linear
    linear_mono r s h =
        add_mono out_min _ _ out.low (mul_mono _ r s (width-pos out_min out_max out) out.width h)

    linear_bounds :
        (r : F)
        → InUnit r
        → (out_min ≼ linear r out_min out_max)
          × (linear r out_min out_max ≼ add out_min (sub out_max out_min))
    unfolding linear
    linear_bounds r (low, high) = (
      le_trans _ _ _ (add_zero out_min out.low).1 (
          subst (λ z. add out_min z ≼ linear r out_min out_max)
            (mul_zero _ (width-pos out_min out_max out) out.width) (linear_mono nought r low)),
      subst (λ z. linear r out_min out_max ≼ add out_min z) (mul_one (sub out_max out_min))
          (linear_mono r one high),
    )

    -- the ratio with which linear mapping gives the result
    abbrev effective : String → F → F
    effective name r = if lowercase_eq name "step" then stepped r else r

    transform_ratio-linear :
        (name : String) (r : F)
        → IsExact name
        → transform_ratio name r out_min out_max ≡ linear (effective name r) out_min out_max
    unfolding transform_ratio step linear
    transform_ratio-linear name r (not_exp, not_log) =
        elim (Bool-cases (lowercase_eq name "step")) [
          | inl e ↦ rw (not_exp, not_log, e)
          | inr e ↦ rw (not_exp, not_log, e)
        ]

    effective-InUnit : (name : String) (r : F) → InUnit r → InUnit (effective name r)
    effective-InUnit name r u = elim (Bool-cases (lowercase_eq name "step")) [
      | inl e ↦ rw e (stepped-InUnit r u)
      | inr e ↦ rw e u
    ]

    effective_mono : (name : String) (r s : F) → r ≼ s → effective name r ≼ effective name s
    effective_mono name r s h = elim (Bool-cases (lowercase_eq name "step")) [
      | inl e ↦ rw e (stepped_mono r s h)
      | inr e ↦ rw e h
    ]

    module _ (in_min in_max : F) (inp : IsInterval in_min in_max) (name : String)
        (exact : IsExact name) where
      ratio : F → F
      ratio x = div (sub (clamped x in_min in_max) in_min) (sub in_max in_min)

      ratio_mono : (x y : F) → x ≼ y → ratio x ≼ ratio y
      unfolding ratio
      ratio_mono x y h =
          div_mono _ _ _ (width-pos in_min in_max inp) inp.width
            (sub_mono in_min _ _ inp.low (clamped_mono x y in_min in_max h inp.order.0))

      ratio_unit : (x : F) → x ≼ x → InUnit (ratio x)
      unfolding ratio
      ratio_unit x num =
          let (c, e, low, high) = clamp_bounds laws x in_min in_max num inp.order.0 in
          let same : clamped x in_min in_max ≡ c = ground (arith, e, inp.order.0) in
          subst (λ z. InUnit (div (sub z in_min) (sub in_max in_min))) (sym same)
            (ratio-InUnit laws c in_min in_max inp.low inp.high inp.width inp.order low high)

      apply_transform-ratio :
          (x : F)
          → apply_transform x name in_min in_max out_min out_max
            ≡ some (linear (effective name (ratio x)) out_min out_max)
      unfolding apply_transform ratio
      apply_transform-ratio x =
          rw (inp.order.1, inp.order.0) (ap some (transform_ratio-linear name (ratio x) exact))

      -- For numbers that obey IEEE 754, and input and output bounds that are finite, in strict
      -- order and a finite distance apart: of a number that is not NaN, linear and step mapping
      -- give a number from `out_min` to the sum `out_min + (out_max - out_min)` as it is rounded,
      -- wherever the number lies.
      pub apply_transform_bounds :
          (x : F)
          → x ≼ x
          → (v : F) × (apply_transform x name in_min in_max out_min out_max ≡ some v)
            × (out_min ≼ v)
            × (v ≼ add out_min (sub out_max out_min))
      apply_transform_bounds x num =
          let r = effective name (ratio x) in
          let (low, high) = linear_bounds r (effective-InUnit name (ratio x) (ratio_unit x num)) in
          (linear r out_min out_max, apply_transform-ratio x, low, high)

      -- For numbers that obey IEEE 754, and input and output bounds that are finite, in strict
      -- order and a finite distance apart: under linear and step mapping, a larger input never
      -- gives a smaller parameter.
      apply_transform_mono :
          (x y : F)
          → x ≼ y
          → (v : F) × (w : F) × (apply_transform x name in_min in_max out_min out_max ≡ some v)
            × (apply_transform y name in_min in_max out_min out_max ≡ some w)
            × (v ≼ w)
      apply_transform_mono x y h = (
        linear (effective name (ratio x)) out_min out_max,
        linear (effective name (ratio y)) out_min out_max,
        apply_transform-ratio x,
        apply_transform-ratio y,
        linear_mono _ _ (effective_mono name _ _ (ratio_mono x y h)),
      )
