-- ===== src/Number/Whole.antt =====
-- Whole numbers as numbers of the interface, for runs at concrete prices: a unit is one kopeck.
use bormo_stats.Base.{ℕ, ◌+◌, ◌-◌, ◌*◌, ◌/◌, ◌≡◌, true, false, ltb, arith}
use bormo_stats.Number.{Number}

pub ltb_irrefl : (a : ℕ) → ltb a a ≡ false
ltb_irrefl a = ground arith

pub ltb_trans : (a b c : ℕ) → ltb a b ≡ true → ltb b c ≡ true → ltb a c ≡ true
ltb_trans a b c h k = ground arith

pub geb_trans : (a b c : ℕ) → ltb a b ≡ false → ltb b c ≡ false → ltb a c ≡ false
geb_trans a b c h k = ground arith

-- Values are counted in hundredths, so a product or a quotient is scaled back.
abbrev pub kopecks : Number
kopecks = record {
  Num = ℕ;
  lt = ltb;
  ratio = λ a b. 100 * a / b;
  add = λ a b. a + b;
  sub = λ a b. a - b;
  mul = λ a b. a * b / 100;
  div = λ a b. a * 100 / b;
  abs = λ a. a;
  round = λ a. (a + 50) / 100 * 100;
  round_2 = λ a. a;
  lt_irrefl = ltb_irrefl;
  lt_trans = ltb_trans;
  ge_trans = geb_trans;
}
