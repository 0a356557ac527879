-- ===== src/Bidder/Tests.antt =====
-- Bids of a concrete rule, and the theorems at them. Bids are counted in kopecks.
use bormo_stats.Base.{ℕ, ◌+◌, ◌*◌, ◌/◌, arith, ◌-◌, ◌≡◌, refl, true, false, some, ◌&&◌, ltb}
use bormo_stats.Number.{Number, IsMonotone}
use bormo_stats.Number.Whole.{kopecks}
use bormo_stats.Actions.Rows.{PlannedAction}
use bormo_stats.Bidder.Defs.{BidRule, wb_set_bid, plan_bid_change, bid_executor, new_cpm}
use bormo_stats.Bidder.Bids.{plan_bid_change-bounded}

abbrev rule : BidRule ℕ
rule = record {
  rule_id = "b1";
  organization_id = "org";
  campaign_id = "77";
  marketplace = "wb";
  account_id = "a1";
  target_cpm = 30000;
  max_cpm = 25000;
  product_id = "1234";
  placement = "search";
  dry_run = false;
}

abbrev planned : PlannedAction ℕ
planned = record {
  organization_id = "org";
  source = "bidder";
  rule_id = "b1";
  marketplace = "wb";
  account_id = "a1";
  target_type = "bid_cpm";
  target_id = "77:1234:search";
  before_value = some 20000;
  after_value = 25000;
  dry_run = false;
}

capped : plan_bid_change kopecks rule (some 20000) ≡ some planned
unfolding plan_bid_change
capped = refl

-- The same numbers in tenths of kopecks, where a bid is rounded to whole kopecks.
abbrev tenths : Number
tenths = record kopecks { ratio = λ a b. a * 1000 / b; round_2 = λ n. (n + 5) / 10 * 10 }

round_2-IsMonotone : IsMonotone tenths tenths.round_2
round_2-IsMonotone a b h = ground arith

-- A maximum of 10.006 plans 10.01, which is above it.
abbrev above_maximum : PlannedAction ℕ
above_maximum = record planned { before_value = some 5000; after_value = 10010 }

rounded_up :
    plan_bid_change tenths (record rule { max_cpm = 10006 }) (some 5000) ≡ some above_maximum
unfolding plan_bid_change
rounded_up = refl

plan_bid_change-bounded_example :
    (ltb 30000 10010 ≡ false)
    × (ltb 0 10006 && ltb 10010 10010 ≡ false)
    × (above_maximum.after_value ≡ 10010)
    × (ltb (10006 - 5000) 10 ≡ false)
    × (above_maximum.before_value ≡ some 5000)
    × (ltb 0 30000 ≡ true)
unfolding new_cpm
plan_bid_change-bounded_example =
    plan_bid_change-bounded tenths (record rule { max_cpm = 10006 }) 5000 above_maximum
      round_2-IsMonotone rounded_up

sent : bid_executor kopecks false true rule planned ≡ some (wb_set_bid "77" "1234" 2500000 "search")
unfolding bid_executor
sent = refl
