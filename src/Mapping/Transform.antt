-- ===== src/Mapping/Transform.antt =====
-- `apply_transform` of mapping.rs.

use daemon_choir.Base.{◌&&◌, Option, some, String, if◌then◌else◌, lowercase_eq, ◌>>=◌}
use daemon_choir.Float.{F64, lt, nought, one, clamp}

module _ {F : Type 0} ⦃f : F64 F⦄ where
  open f use {of_nat, add, sub, mul, div, le, floor, powf, powi, ln}

  unfoldable pub exponential : F → F → F → F
  exponential ratio out_min out_max =
      if lt nought out_min && lt nought out_max
      then mul out_min (powf (div out_max out_min) ratio)
      else add out_min (mul (sub out_max out_min) (powi ratio 2))

  unfoldable pub logarithmic : F → F → F → F
  logarithmic ratio out_min out_max =
      let log_ratio = div (ln (add one (mul ratio (of_nat 9)))) (ln (of_nat 10)) in
      add out_min (mul (sub out_max out_min) log_ratio)

  unfoldable pub step : F → F → F → F
  step ratio out_min out_max =
      let steps = of_nat 5 in
      let stepped_ratio = div (floor (mul ratio steps)) steps in
      add out_min (mul (sub out_max out_min) stepped_ratio)

  unfoldable pub linear : F → F → F → F
  linear ratio out_min out_max = add out_min (mul (sub out_max out_min) ratio)

  -- the `match` on the lower-cased name
  unfoldable pub transform_ratio : String → F → F → F → F
  transform_ratio transform ratio out_min out_max =
      if lowercase_eq transform "exponential"
      then exponential ratio out_min out_max
      else if lowercase_eq transform "logarithmic"
      then logarithmic ratio out_min out_max
      else if lowercase_eq transform "step"
      then step ratio out_min out_max
      else linear ratio out_min out_max

  -- `none` is the panic of `clamp`
  unfoldable pub apply_transform : F → String → F → F → F → F → Option F
  apply_transform x transform in_min in_max out_min out_max =
      if le in_max in_min
      then some out_min
      else (clamp x in_min in_max >>= λ clamped_input. some (
          transform_ratio transform (div (sub clamped_input in_min) (sub in_max in_min)) out_min
            out_max))
