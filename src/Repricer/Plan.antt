-- ===== src/Repricer/Plan.antt =====
-- `step_limited`, `_plan` and the figures that the executors send.
use bormo_stats.Base.{ℕ, ◌+◌, String, ◌&&◌, ◌||◌, Option, none, some, ltb, str_eq, if◌then◌else◌}
use bormo_stats.Number.{Number, le, max_num, min_num, int}
use bormo_stats.Actions.Rows.{PlannedAction}
use bormo_stats.Repricer.Defs.{PriceRule, PriceSnapshot, PriceDecision, desired_price, floor_of}

module _ (N : Number) where
  open N use {Num, lt, ratio, add, sub, mul, div, abs, round}

  -- `current * max(0.1, max_step_pct) / 100`
  abbrev pub step_of : Num → Num → Num
  step_of current max_step_pct = div (mul current (max_num N (ratio 1 10) max_step_pct)) (int N 100)

  unfoldable pub step_limited : Num → Num → Num → Num
  step_limited current desired max_step_pct =
      let step = step_of current max_step_pct in
      if lt (add current step) desired
      then round (add current step)
      else if lt desired (sub current step)
      then round (sub current step)
      else desired

  abbrev pub tolerance_of : PriceSnapshot Num → Num
  tolerance_of snap = max_num N (int N 1) (div (mul snap.seller_price (ratio 1 2)) (int N 100))

  unfoldable pub plan_row : PriceRule Num → String → Option Num → Num → PlannedAction Num
  plan_row rule target_type before after = record {
    organization_id = rule.organization_id;
    source = "repricer";
    rule_id = rule.rule_id;
    marketplace = rule.marketplace;
    account_id = rule.account_id;
    target_type = target_type;
    target_id = rule.product_id;
    before_value = before;
    after_value = after;
    dry_run = rule.dry_run;
  }

  -- What `_plan` returns.
  pub record Planned : Type 0 where
    pub action : Option (PlannedAction Num)
    pub reason : String
    pub decision : Option (PriceDecision Num)

  abbrev refuse : String → Option (PriceDecision Num) → Planned
  refuse reason decision = record { action = none; reason = reason; decision = decision }

  -- the branch in which the price is right already
  unfoldable pub in_tolerance :
      PriceRule Num → PriceSnapshot Num → PriceDecision Num → Option Num → Planned
  unfolding plan_row
  in_tolerance rule snap d none = refuse "in_tolerance" (some d)
  in_tolerance rule snap d (some limit) =
      if str_eq rule.marketplace "ozon" && lt (tolerance_of snap) (sub snap.seller_price limit)
      then record {
        action = some (plan_row rule "price_limit" (some limit) snap.seller_price);
        reason = "price_limit";
        decision = some d;
      }
      else refuse "in_tolerance" (some d)

  unfoldable pub change_price :
      PriceRule Num → PriceSnapshot Num → PriceDecision Num → Num → Planned
  unfolding plan_row in_tolerance
  change_price rule snap d price =
      if lt (int N 0) rule.max_price && lt rule.max_price price
      then refuse "max_below_hard_floor" (some d)
      else if le N (abs (sub price snap.seller_price)) (tolerance_of snap)
      then in_tolerance rule snap d snap.price_limit
      else record {
        action = some (plan_row rule "price" (some snap.seller_price) price);
        reason = if d.clamped_to_min then "clamped_to_min" else "planned";
        decision = some d;
      }

  -- the step limit, and the floor once more
  unfoldable pub final_price : PriceRule Num → PriceSnapshot Num → Num → Num
  unfolding step_limited
  final_price rule snap wanted =
      let price = step_limited snap.seller_price wanted rule.max_step_pct in
      if lt price (floor_of N rule snap) then floor_of N rule snap else price

  unfoldable pub plan_decided :
      PriceRule Num → PriceSnapshot Num → PriceDecision Num → Option Num → Planned
  unfolding change_price final_price
  plan_decided rule snap d none = refuse d.reason (some d)
  plan_decided rule snap d (some wanted) = change_price rule snap d (final_price rule snap wanted)

  -- `_plan`; a snapshot is too old after `MAX_SNAPSHOT_AGE`, six hours.
  unfoldable pub plan : PriceRule Num → Option (PriceSnapshot Num) → ℕ → Planned
  unfolding plan_decided desired_price
  plan rule none now = refuse "no_snapshot" none
  plan rule (some snap) now =
      if le N snap.seller_price (int N 0)
      then refuse "no_price" none
      else if ltb (snap.price_seen_at + 21600) now
      then refuse "stale_snapshot" none
      else plan_decided rule snap (desired_price N rule snap) (desired_price N rule snap).price

  -- `plan_price_change`
  unfoldable pub plan_price_change :
      PriceRule Num → Option (PriceSnapshot Num) → ℕ → Option (PlannedAction Num) × String
  unfolding plan
  plan_price_change rule snap now = let p = plan rule snap now in (p.action, p.reason)

  -- `wb_list_price`
  unfoldable pub wb_list_price : Num → Num → Num
  wb_list_price seller_price discount_pct = round (
      div seller_price
        (sub (int N 1) (div (min_num N (max_num N discount_pct (int N 0)) (int N 99)) (int N 100))))

  -- `ozon_old_price`
  unfoldable pub ozon_old_price : PriceSnapshot Num → Num → Num
  ozon_old_price snap new_price =
      if le N snap.list_price snap.seller_price || le N snap.seller_price (int N 0)
      then int N 0
      else round (div (mul new_price snap.list_price) snap.seller_price)
