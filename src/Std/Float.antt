-- ===== src/Std/Float.antt =====
-- Go's float64 and package math as an interface: the values and what the program computes with
-- them. No law is assumed here; a theorem that needs one names it as a hypothesis.
use beacon_backend.Prelude.{ℕ, Bool, if◌then◌else◌}
use beacon_backend.Prelude.Int.{ℤ, pos, negsuc}

pub record Float (F : Type 0) : Type 0 where
  pub of_int : ℤ → F
  pub lt : F → F → Bool
  pub le : F → F → Bool
  pub add : F → F → F
  pub sub : F → F → F
  pub mul : F → F → F
  pub div : F → F → F
  -- math.Round, math.Sin, math.Cos, math.Sqrt, math.Atan2, math.Pi
  pub round : F → F
  pub sin : F → F
  pub cos : F → F
  pub sqrt : F → F
  pub atan2 : F → F → F
  pub pi : F

module _ {F : Type 0} ⦃fl : Float F⦄ where
  abbrev pub of_nat : ℕ → F
  of_nat n = fl.of_int (pos n)

  -- The literal -(n + 1).
  abbrev pub of_neg : ℕ → F
  of_neg n = fl.of_int (negsuc n)

  -- math.Max on values that are no NaN.
  abbrev pub max_float : F → F → F
  max_float a b = if fl.lt a b then b else a

  -- A literal with one decimal: the nearest float64 to n/10, which is what division gives.
  abbrev pub tenths : ℕ → F
  tenths n = fl.div (of_nat n) (of_nat 10)
