-- ===== src/Quantity/Floats.antt =====
-- Go's float64, as pkg/quantity and the drivers' instancetype.go use it.
use openshell_drivers_contri.Prelude.{ℕ, String, ◌≡◌, Bool, true, false, Option}

pub record Floats : Type 1 where
  pub Float : Type 0
  pub zero_float : Float
  -- the float nearest to the quotient, as the compiler rounds a constant
  pub ratio : ℕ → ℕ → Float
  -- strconv.ParseFloat(s, 64), `none` for an error
  pub parse_float : String → Option Float
  pub lt : Float → Float → Bool
  pub le : Float → Float → Bool
  pub is_nan : Float → Bool
  pub is_inf : Float → Bool
  pub mul : Float → Float → Float
  pub div : Float → Float → Float
  -- math.Max
  pub max : Float → Float → Float

-- IEEE 754 order, where no NaN is concerned: what is not below is at least, and math.Max is an upper
-- bound that stays a number.
pub record FloatOrder (fl : Floats) : Type 0 where
  pub le_of_not_lt :
      (a b : fl.Float)
      → fl.is_nan a ≡ false
      → fl.is_nan b ≡ false
      → fl.lt a b ≡ false
      → fl.le b a ≡ true
  pub le_of_max :
      (a b c : fl.Float)
      → fl.is_nan a ≡ false
      → fl.is_nan b ≡ false
      → fl.le (fl.max a b) c ≡ true
      → (fl.le a c ≡ true) × (fl.le b c ≡ true)
  pub zero_is_number : fl.is_nan fl.zero_float ≡ false
