-- ===== src/Bidder/Bids.antt =====
-- What a planned bid satisfies, and which rules can set one.
use bormo_stats.Base.{◌≡◌, ◌⊎◌, Bool, true, false, ◌&&◌, some, arith, eq_iff}
use bormo_stats.Base.Text.{codes}
use bormo_stats.Number.{Number, int, min_num-le_left, min_num-le_right, IsMonotone}
use bormo_stats.Actions.Rows.{PlannedAction}
use bormo_stats.Bidder.Defs.{BidRule, BidCall, is_digits, new_cpm, plan_bid_change, bid_executor}

module _ (N : Number) (rule : BidRule N.Num) where
  open N use {Num, lt, ratio, sub, abs, round_2}

  new_cpm-le_target : lt rule.target_cpm (new_cpm N rule) ≡ false
  unfolding new_cpm
  new_cpm-le_target =
      ground (arith, N.lt_irrefl rule.target_cpm, min_num-le_left N rule.target_cpm rule.max_cpm)

  new_cpm-le_max : lt (int N 0) rule.max_cpm && lt rule.max_cpm (new_cpm N rule) ≡ false
  unfolding new_cpm
  new_cpm-le_max = ground (arith, min_num-le_right N rule.target_cpm rule.max_cpm)

  -- A planned bid is not above the rule's target and not above its maximum (where it has one), each
  -- rounded to two places as the bid is, and before the rounding it is at least 0.01 away from the
  -- current bid, which the plan records; the rule's target is positive. The rounding to two places
  -- must be monotone. A maximum of more than two places may be exceeded by the rounding.
  pub plan_bid_change-bounded :
      (current : Num) (a : PlannedAction Num)
      → IsMonotone N round_2
      → plan_bid_change N rule (some current) ≡ some a
      → (lt (round_2 rule.target_cpm) a.after_value ≡ false)
        × (lt (int N 0) rule.max_cpm && lt (round_2 rule.max_cpm) a.after_value ≡ false)
        × (a.after_value ≡ round_2 (new_cpm N rule))
        × (lt (abs (sub (new_cpm N rule) current)) (ratio 1 100) ≡ false)
        × (a.before_value ≡ some current)
        × (lt (int N 0) rule.target_cpm ≡ true)
  unfolding plan_bid_change
  plan_bid_change-bounded current a mono e = (
    ground (arith, mono (new_cpm N rule) rule.target_cpm new_cpm-le_target),
    ground (arith, mono (new_cpm N rule) rule.max_cpm, new_cpm-le_max),
    ground arith,
    ground arith,
    ground arith,
    ground arith,
  )

  -- A bid is sent only for a rule of Yandex Market whose client is configured, or for a rule of
  -- Wildberries whose client can set bids and whose campaign and article are numbers.
  pub bid_executor-sends :
      (configured can_set_bids : Bool) (a : PlannedAction Num) (call : BidCall Num)
      → bid_executor N configured can_set_bids rule a ≡ some call
      → ((rule.marketplace ≡ "ym") × (configured ≡ true))
        ⊎ ((rule.marketplace ≡ "wb")
            × (can_set_bids ≡ true)
            × (is_digits (codes rule.campaign_id) ≡ true)
            × (is_digits (codes rule.product_id) ≡ true))
  unfolding bid_executor
  bid_executor-sends configured can_set_bids a call e =
      ground (arith, eq_iff rule.marketplace "ym", eq_iff rule.marketplace "wb")
