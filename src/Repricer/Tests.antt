-- ===== src/Repricer/Tests.antt =====
-- Plans for concrete cards, and the theorems at them. Prices are counted in kopecks.
use bormo_stats.Base.{ℕ, ◌≡◌, refl, ◌⊎◌, false, none, some, arith}
use bormo_stats.Base.Results.{ok}
use bormo_stats.Number.{IsMonotone}
use bormo_stats.Number.Whole.{kopecks}
use bormo_stats.Actions.Rows.{PlannedAction}
use bormo_stats.Repricer.Defs.{PriceRule, PriceSnapshot, desired_price, asked_price}
use bormo_stats.Repricer.Plan.{plan, plan_row}
use bormo_stats.Repricer.Bounds.{IsPriceChange, IsLimitChange, plan_within_bounds}
use bormo_stats.Repricer.Steps.{IsOneStep, plan_moves-IsOneStep}

-- "seller_price" rule: 150.00 wanted, at most 120.00.
abbrev rule : PriceRule ℕ
rule = record {
  rule_id = "r1";
  organization_id = "org";
  marketplace = "ozon";
  account_id = "a1";
  product_id = "p1";
  min_price = 8000;
  max_price = 12000;
  target_margin_percent = 0;
  dry_run = false;
  mode = "seller_price";
  target_price = 15000;
  max_step_pct = 1000;
  no_discount_fallback = "";
}

-- The card sells at 100.00; its cost is not known.
abbrev snap : PriceSnapshot ℕ
snap = record {
  product_id = "p1";
  list_price = 20000;
  seller_discount_pct = 5000;
  seller_price = 10000;
  mp_discount_pct = none;
  mp_discount_scope = "";
  mp_discount_samples = 0;
  breakeven_price = none;
  price_seen_at = 1000;
  price_limit = none;
  price_index_color = "RED";
}

abbrev planned_row : PlannedAction ℕ
planned_row = record {
  organization_id = "org";
  source = "repricer";
  rule_id = "r1";
  marketplace = "ozon";
  account_id = "a1";
  target_type = "price";
  target_id = "p1";
  before_value = some 10000;
  after_value = 11000;
  dry_run = false;
}

one_step_up : (plan kopecks rule (some snap) 2000).action ≡ some planned_row
unfolding plan plan_row
one_step_up = refl

capped : (desired_price kopecks rule snap).price ≡ some 12000
unfolding desired_price
capped = refl

asks_150 :
    asked_price kopecks rule snap ≡ ok (record { price = 15000; fallback = ""; index_guard = "" })
unfolding asked_price
asks_150 = refl

half_up-IsMonotone : IsMonotone kopecks kopecks.round
half_up-IsMonotone a b h = ground arith

plan_within_bounds_example :
    IsPriceChange kopecks rule snap planned_row ⊎ IsLimitChange kopecks rule snap planned_row
plan_within_bounds_example = plan_within_bounds kopecks rule snap 2000 planned_row one_step_up

plan_moves-IsOneStep_example : IsOneStep kopecks rule snap 11000
plan_moves-IsOneStep_example =
    plan_moves-IsOneStep kopecks rule snap 2000 planned_row half_up-IsMonotone refl one_step_up refl

-- A floor of 115.00 is further than one step of ten percent.
raised_to_floor :
    (plan kopecks (record rule { min_price = 11500 }) (some snap) 2000).action
    ≡ some (record planned_row { after_value = 11500 })
unfolding plan plan_row
raised_to_floor = refl

-- The cost is unknown and 110.00 is asked for, yet the maximum of 90.00 lowers the price.
unknown_cost_lowered :
    (desired_price kopecks
      (record rule { target_price = 11000; max_price = 9000 })
      (record snap { price_index_color = "GREEN" })).price
    ≡ some 9000
unfolding desired_price
unknown_cost_lowered = refl
