-- ===== src/Bidder/Defs.antt =====
-- `BidRule`, `plan_bid_change` and `bid_executor`.
use Prim.Native.String.{◌++◌ as str_append}
use bormo_stats.Base.{
  ℕ, String, Bool, true, false, not, ◌&&◌, ◌||◌, Option, none, some, List, [], ◌∷◌, leb, str_eq,
  if◌then◌else◌,
}
use bormo_stats.Base.Text.{codes}
use bormo_stats.Number.{Number, le, min_num, int}
use bormo_stats.Actions.Rows.{PlannedAction}

pub record BidRule (Num : Type 0) : Type 0 where
  pub rule_id : String
  pub organization_id : String
  pub campaign_id : String
  pub marketplace : String
  pub account_id : String
  pub target_cpm : Num
  pub max_cpm : Num
  pub product_id : String
  pub placement : String
  pub dry_run : Bool

-- The call that an executor makes.
pub data BidCall (Num : Type 0) : Type 0 where
  ym_set_bids : String → Num → BidCall Num
  wb_set_bid : String → String → Num → String → BidCall Num

-- `str.isdigit` on ASCII texts
unfoldable pub all_digits : List ℕ → Bool
all_digits [] = true
all_digits (c ∷ s) = leb 48 c && leb c 57 && all_digits s

abbrev pub is_digits : List ℕ → Bool
is_digits [] = false
is_digits (c ∷ s) = all_digits (c ∷ s)

module _ (N : Number) where
  open N use {Num, lt, ratio, sub, mul, abs, round, round_2}

  -- `target_cpm`, not above `max_cpm` where there is one
  unfoldable pub new_cpm : BidRule Num → Num
  new_cpm rule =
      if lt (int N 0) rule.max_cpm then min_num N rule.target_cpm rule.max_cpm else rule.target_cpm

  -- `f"{campaign_id}:{product_id or '*'}:{placement}"`
  unfoldable pub target_of : BidRule Num → String
  target_of rule = str_append rule.campaign_id (
      str_append ":" (
        str_append (if str_eq rule.product_id "" then "*" else rule.product_id)
          (str_append ":" rule.placement)))

  unfoldable pub plan_bid_change : BidRule Num → Option Num → Option (PlannedAction Num)
  unfolding new_cpm target_of
  plan_bid_change rule none = none
  plan_bid_change rule (some current) =
      if le N rule.target_cpm (int N 0)
      then none
      else if lt (abs (sub (new_cpm rule) current)) (ratio 1 100)
      then none
      else some (record {
        organization_id = rule.organization_id;
        source = "bidder";
        rule_id = rule.rule_id;
        marketplace = rule.marketplace;
        account_id = rule.account_id;
        target_type = "bid_cpm";
        target_id = target_of rule;
        before_value = some current;
        after_value = round_2 (new_cpm rule);
        dry_run = rule.dry_run;
      })

  -- `bid_executor`: `configured` and `can_set_bids` are what the clients say of themselves.
  unfoldable pub bid_executor : Bool → Bool → BidRule Num → PlannedAction Num → Option (BidCall Num)
  unfolding all_digits
  bid_executor configured can_set_bids rule action =
      if str_eq rule.marketplace "ym" && configured
      then some (ym_set_bids rule.product_id action.after_value)
      else if not (str_eq rule.marketplace "wb") || not can_set_bids
      then none
      else if not (is_digits (codes rule.campaign_id) && is_digits (codes rule.product_id))
      then none
      else some (
          wb_set_bid rule.campaign_id rule.product_id (round (mul action.after_value (int N 100)))
            rule.placement)
