-- ===== src/Repricer/Bounds.antt =====
-- What every planned change satisfies.
use bormo_stats.Base.{ℕ, ◌+◌, ◌<◌, ◌≡◌, ◌⊎◌, true, false, ◌&&◌, Option, none, some, arith, eq_iff}
use bormo_stats.Number.{Number, int, max_num-ge_left, max_num-ge_right}
use bormo_stats.Actions.Rows.{PlannedAction}
use bormo_stats.Repricer.Defs.{
  PriceRule, PriceSnapshot, PriceDecision, desired_price, floor_of, or_zero,
}
use bormo_stats.Repricer.Plan.{tolerance_of, change_price, final_price, plan_decided, plan}

module _ (N : Number) (rule : PriceRule N.Num) (snap : PriceSnapshot N.Num) where
  open N use {Num, lt, ratio, add, sub, mul, div, abs, round}

  -- A new price: within the rule's bounds, not below the break-even price, and a real change.
  abbrev pub IsPriceChange : PlannedAction Num → Type 0
  IsPriceChange a =
      (a.target_type ≡ "price")
      × (lt a.after_value rule.min_price ≡ false)
      × (lt a.after_value (or_zero N snap.breakeven_price) ≡ false)
      × (lt (int N 0) rule.max_price && lt rule.max_price a.after_value ≡ false)
      × (lt (tolerance_of N snap) (abs (sub a.after_value snap.seller_price)) ≡ true)
      × (a.before_value ≡ some snap.seller_price)

  -- A new limit: on Ozon only, raised to the price that the card has.
  abbrev pub IsLimitChange : PlannedAction Num → Type 0
  IsLimitChange a =
      (a.target_type ≡ "price_limit")
      × (rule.marketplace ≡ "ozon")
      × (a.after_value ≡ snap.seller_price)
      × ((limit : Num) × (snap.price_limit ≡ some limit)
          × (lt (tolerance_of N snap) (sub snap.seller_price limit) ≡ true))

  final_price-ge_floor :
      (wanted : Num) → lt (final_price N rule snap wanted) (floor_of N rule snap) ≡ false
  unfolding final_price
  final_price-ge_floor wanted = ground (arith, N.lt_irrefl (floor_of N rule snap))

  change_price_lem :
      (d : PriceDecision Num) (price : Num) (a : PlannedAction Num)
      → lt price (floor_of N rule snap) ≡ false
      → (change_price N rule snap d price).action ≡ some a
      → IsPriceChange a ⊎ IsLimitChange a
  unfolding change_price
  change_price_lem d price a floor e = ground (
    arith,
    eq_iff rule.marketplace "ozon",
    N.ge_trans price (floor_of N rule snap) rule.min_price,
    N.ge_trans price (floor_of N rule snap) (or_zero N snap.breakeven_price),
    max_num-ge_left N rule.min_price (or_zero N snap.breakeven_price),
    max_num-ge_right N rule.min_price (or_zero N snap.breakeven_price),
  )

  decided_lem :
      (d : PriceDecision Num) (wanted : Option Num) (a : PlannedAction Num)
      → (plan_decided N rule snap d wanted).action ≡ some a
      → IsPriceChange a ⊎ IsLimitChange a
  unfolding plan_decided
  decided_lem d none a e = cc
  decided_lem d (some wanted) a e =
      change_price_lem d (final_price N rule snap wanted) a (final_price-ge_floor wanted) e

  -- Every change that is planned either sets a price that is not below the rule's minimum, not
  -- below the break-even price, not above the rule's maximum (where it has one) and further than
  -- the tolerance from the current price, which it records; or it raises an Ozon price limit, that
  -- lies further than the tolerance below the price, to the price.
  pub plan_within_bounds :
      (now : ℕ) (a : PlannedAction Num)
      → (plan N rule (some snap) now).action ≡ some a
      → IsPriceChange a ⊎ IsLimitChange a
  unfolding plan
  plan_within_bounds now a e =
      ground (arith, decided_lem (desired_price N rule snap) (desired_price N rule snap).price a)

  -- No change is planned for a card without a positive price, on a snapshot older than six hours,
  -- or for a rule whose minimum is above its maximum.
  pub plan_refuses :
      (now : ℕ)
      → (lt (int N 0) snap.seller_price ≡ false)
        ⊎ (snap.price_seen_at + 21600 < now)
        ⊎ (lt (int N 0) rule.max_price && lt rule.max_price rule.min_price ≡ true)
      → (plan N rule (some snap) now).action ≡ none
  unfolding plan desired_price plan_decided
  plan_refuses now h = ground arith
