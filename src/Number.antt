-- ===== src/Number.antt =====
-- The floats of the program, as far as it computes with finite prices and bids: their operations,
-- and that `<` is a strict weak order. NaN, which no comparison orders, is left out.
pub mod Whole
use bormo_stats.Base.{ℕ, ◌≡◌, Bool, true, false, not, arith, if◌then◌else◌}

pub record Number : Type 1 where
  pub Num : Type 0
  pub lt : Num → Num → Bool
  -- the float nearest to a fraction: the literal 0.5 is `ratio 1 2`
  pub ratio : ℕ → ℕ → Num
  pub add : Num → Num → Num
  pub sub : Num → Num → Num
  pub mul : Num → Num → Num
  pub div : Num → Num → Num
  pub abs : Num → Num
  -- `round(x)` and `round(x, 2)`
  pub round : Num → Num
  pub round_2 : Num → Num
  pub lt_irrefl : (a : Num) → lt a a ≡ false
  pub lt_trans : (a b c : Num) → lt a b ≡ true → lt b c ≡ true → lt a c ≡ true
  pub ge_trans : (a b c : Num) → lt a b ≡ false → lt b c ≡ false → lt a c ≡ false

module _ (N : Number) where
  open N use {Num, lt, ratio}

  -- `a <= b`
  abbrev pub le : Num → Num → Bool
  le a b = not (lt b a)

  -- Python's `max` and `min` of two values: the first one, unless the second is beyond it.
  abbrev pub max_num : Num → Num → Num
  max_num a b = if lt a b then b else a

  abbrev pub min_num : Num → Num → Num
  min_num a b = if lt b a then b else a

  -- A rounding that keeps the order.
  abbrev pub IsMonotone : (Num → Num) → Type 0
  IsMonotone f = (a b : Num) → lt b a ≡ false → lt (f b) (f a) ≡ false

  -- an integer literal or an integer read as a float
  abbrev pub int : ℕ → Num
  int n = ratio n 1

  pub lt_asymm : (a b : Num) → lt a b ≡ true → lt b a ≡ false
  lt_asymm a b h = ground (arith, N.lt_irrefl a, N.lt_trans a b a h)

  pub max_num-ge_left : (a b : Num) → lt (max_num a b) a ≡ false
  max_num-ge_left a b = ground (arith, N.lt_irrefl a, lt_asymm a b)

  pub max_num-ge_right : (a b : Num) → lt (max_num a b) b ≡ false
  max_num-ge_right a b = ground (arith, N.lt_irrefl b)

  pub min_num-le_left : (a b : Num) → lt a (min_num a b) ≡ false
  min_num-le_left a b = ground (arith, N.lt_irrefl a, lt_asymm b a)

  pub min_num-le_right : (a b : Num) → lt b (min_num a b) ≡ false
  min_num-le_right a b = ground (arith, N.lt_irrefl b)
