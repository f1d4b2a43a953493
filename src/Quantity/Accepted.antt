-- ===== src/Quantity/Accepted.antt =====
-- What the parsers of pkg/quantity/quantity.go accept.
use openshell_drivers_contri.Prelude.{String, ◌≡◌, inl, inr, false, some, arith, Option-cases}
use openshell_drivers_contri.Prelude.Result.{ok}
use openshell_drivers_contri.Quantity.Floats.{Floats}
use openshell_drivers_contri.Quantity.Parse.{is_refused, parse_number}

module _ (fl : Floats) where
  open fl use {Float, ratio, parse_float, mul, div}

  -- The value is a number that was read and not refused, after scaling.
  pub data Accepts (scale : Float → Float) (number : String) (v : Float) : Type 0 where
    accepts :
        (read : Float)
        → parse_float number ≡ some read
        → is_refused fl read ≡ false
        → v ≡ scale read
        → Accepts scale number v

  parse_number-Accepts :
      (s number : String) (scale : Float → Float) (v : Float)
      → parse_number fl s number scale ≡ ok v
      → Accepts scale number v
  unfolding parse_number
  parse_number-Accepts s number scale v h = elim (Option-cases (parse_float number)) [
    | inl e ↦ absurd (ground arith)
    | inr (read, e) ↦ accepts read e (ground arith) (ground arith)
  ]
