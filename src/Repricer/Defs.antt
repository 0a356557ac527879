-- ===== src/Repricer/Defs.antt =====
-- The rule, the snapshot and `desired_price`.
use bormo_stats.Base.{
  ℕ, String, Bool, true, false, not, ◌&&◌, ◌||◌, Option, none, some, List, [], ◌∷◌, leb, str_eq,
  elem, if◌then◌else◌,
}
use bormo_stats.Base.Results.{Result, ok, err}
use bormo_stats.Number.{Number, le, max_num, min_num, int}

pub record PriceRule (Num : Type 0) : Type 0 where
  pub rule_id : String
  pub organization_id : String
  pub marketplace : String
  pub account_id : String
  pub product_id : String
  pub min_price : Num
  pub max_price : Num
  pub target_margin_percent : Num
  pub dry_run : Bool
  pub mode : String
  pub target_price : Num
  pub max_step_pct : Num
  pub no_discount_fallback : String

pub record PriceSnapshot (Num : Type 0) : Type 0 where
  pub product_id : String
  pub list_price : Num
  pub seller_discount_pct : Num
  pub seller_price : Num
  pub mp_discount_pct : Option Num
  pub mp_discount_scope : String
  pub mp_discount_samples : ℕ
  pub breakeven_price : Option Num
  pub price_seen_at : ℕ
  pub price_limit : Option Num
  pub price_index_color : String

pub record PriceDecision (Num : Type 0) : Type 0 where
  pub price : Option Num
  pub reason : String
  pub clamped_to_min : Bool
  pub fallback : String
  pub index_guard : String

-- A decision that sets no price.
abbrev pub declined : {Num : Type 0} → String → PriceDecision Num
declined reason = record {
  price = none;
  reason = reason;
  clamped_to_min = false;
  fallback = "";
  index_guard = "";
}

abbrev pub account_discount_marketplaces : List String
account_discount_marketplaces = "wb" ∷ []

abbrev pub min_account_discount_samples : ℕ
min_account_discount_samples = 10

-- `MIN_DISCOUNT_SAMPLES.get(marketplace, DEFAULT_MIN_DISCOUNT_SAMPLES)`
abbrev pub min_discount_samples : String → ℕ
min_discount_samples marketplace =
    if str_eq marketplace "wb"
    then 3
    else if str_eq marketplace "ozon"
    then 1
    else if str_eq marketplace "ym"
    then 1
    else 3

module _ (N : Number) where
  open N use {Num, lt, ratio, add, sub, mul, div, round}

  -- `0 <= discount < MAX_DISCOUNT_PCT`
  abbrev discount_in_range : Num → Bool
  discount_in_range d = le N (int N 0) d && lt d (int N 90)

  enough_samples : String → PriceSnapshot Num → Bool
  enough_samples marketplace snap =
      if str_eq snap.mp_discount_scope "product"
      then leb (min_discount_samples marketplace) snap.mp_discount_samples
      else if str_eq snap.mp_discount_scope "account"
      then elem marketplace account_discount_marketplaces
        && leb min_account_discount_samples snap.mp_discount_samples
      else false

  usable_with : String → PriceSnapshot Num → Option Num → Bool
  unfolding enough_samples
  usable_with marketplace snap none = false
  usable_with marketplace snap (some d) =
      if discount_in_range d then enough_samples marketplace snap else false

  unfoldable pub discount_usable : String → PriceSnapshot Num → Bool
  unfolding usable_with
  discount_usable marketplace snap = usable_with marketplace snap snap.mp_discount_pct

  -- `breakeven_price or 0.0`
  abbrev pub or_zero : Option Num → Num
  or_zero none = int N 0
  or_zero (some b) = b

  -- A price on its way through `desired_price`: with the fallback and the index guard.
  pub record Asked : Type 0 where
    pub price : Num
    pub fallback : String
    pub index_guard : String

  -- One step down from the current price.
  abbrev pub step_down : PriceRule Num → PriceSnapshot Num → Num
  step_down rule snap =
      mul snap.seller_price
        (sub (int N 1) (div (max_num N (ratio 1 10) rule.max_step_pct) (int N 100)))

  -- `ozon_index_guard`: the price, and the guard that held it back
  unfoldable pub ozon_index_guard : PriceRule Num → PriceSnapshot Num → Num → Num × String
  ozon_index_guard rule snap price =
      if not (str_eq rule.marketplace "ozon")
      then (price, "")
      else if str_eq snap.price_index_color "RED"
      then (min_num N price (max_num N rule.target_price (step_down rule snap)), "RED")
      else if str_eq snap.price_index_color "YELLOW" && lt snap.seller_price price
      then (snap.seller_price, "YELLOW")
      else (price, "")

  -- `target_price / (1 - discount / 100)`
  abbrev undiscounted : Num → Num → Num
  undiscounted target d = div target (sub (int N 1) (div d (int N 100)))

  -- the last two branches of a buyer-price rule, without a usable discount
  seller_fallback : PriceRule Num → Result String (Num × String)
  seller_fallback rule =
      if str_eq rule.no_discount_fallback "seller_price"
        || (str_eq rule.no_discount_fallback "account_median"
            && not (elem rule.marketplace account_discount_marketplaces))
      then ok (rule.target_price, "seller_price")
      else err "no_discount_data"

  buyer_with : PriceRule Num → PriceSnapshot Num → Option Num → Result String (Num × String)
  unfolding seller_fallback discount_usable
  buyer_with rule snap none = seller_fallback rule
  buyer_with rule snap (some d) =
      if discount_usable rule.marketplace snap
      then ok (undiscounted rule.target_price d, "")
      else if str_eq rule.no_discount_fallback "account_median"
          && (elem rule.marketplace account_discount_marketplaces && discount_in_range d)
      then ok (undiscounted rule.target_price d, "account_median")
      else seller_fallback rule

  guarded : PriceRule Num → PriceSnapshot Num → Result String (Num × String) → Result String Asked
  unfolding ozon_index_guard
  guarded rule snap (err e) = err e
  guarded rule snap (ok (p, fallback)) =
      let (price, guard) = ozon_index_guard rule snap p in
      ok (record { price = price; fallback = fallback; index_guard = guard })

  -- mode `buyer_price`
  buyer_price : PriceRule Num → PriceSnapshot Num → Result String Asked
  unfolding buyer_with guarded
  buyer_price rule snap =
      if le N rule.target_price (int N 0)
      then err "no_discount_data"
      else guarded rule snap (buyer_with rule snap snap.mp_discount_pct)

  abbrev plain : Num → Asked
  plain p = record { price = p; fallback = ""; index_guard = "" }

  abbrev is_unknown : Option Num → Bool
  is_unknown none = true
  is_unknown (some b) = false

  -- mode `seller_price`
  seller_price : PriceRule Num → PriceSnapshot Num → Result String Asked
  seller_price rule snap =
      if le N rule.target_price (int N 0)
      then err "no_target"
      else if str_eq rule.marketplace "ym" && is_unknown snap.breakeven_price
      then err "unknown_cost_auto_price_blocked"
      else ok (plain rule.target_price)

  -- mode `margin`
  margin_price : PriceRule Num → Option Num → Result String Asked
  margin_price rule none = err "no_cost"
  margin_price rule (some b) =
      if le N b (int N 0)
      then err "no_cost"
      else ok (
          plain (
            mul b
              (add (int N 1) (div (max_num N (int N 0) rule.target_margin_percent) (int N 100)))))

  -- the price of the rule's mode, or why there is none
  unfoldable pub asked_price : PriceRule Num → PriceSnapshot Num → Result String Asked
  unfolding buyer_price seller_price margin_price
  asked_price rule snap =
      if str_eq rule.mode "buyer_price"
      then buyer_price rule snap
      else if str_eq rule.mode "seller_price"
      then seller_price rule snap
      else if str_eq rule.mode "margin"
      then margin_price rule snap.breakeven_price
      else err "unknown_mode"

  -- `max(min_price, breakeven_price or 0.0)`
  abbrev pub floor_of : PriceRule Num → PriceSnapshot Num → Num
  floor_of rule snap = max_num N rule.min_price (or_zero snap.breakeven_price)

  priced : Asked → Bool → Num → PriceDecision Num
  priced a clamped p = record {
    price = some (round p);
    reason = "ok";
    clamped_to_min = clamped;
    fallback = a.fallback;
    index_guard = a.index_guard;
  }

  -- the end of `desired_price`, after the floor
  unfoldable pub cap_price : PriceRule Num → Num → Asked → Bool → Num → PriceDecision Num
  unfolding priced
  cap_price rule floor a clamped price =
      if lt (int N 0) rule.max_price && lt rule.max_price price
      then (if lt rule.max_price floor
          then declined "max_below_hard_floor"
          else priced a clamped rule.max_price)
      else priced a clamped price

  unfoldable pub clamp_price : PriceRule Num → PriceSnapshot Num → Asked → PriceDecision Num
  unfolding cap_price
  clamp_price rule snap a =
      let floor = floor_of rule snap in
      if not rule.dry_run && is_unknown snap.breakeven_price && lt a.price snap.seller_price
      then declined "unknown_cost_auto_decrease_blocked"
      else if lt (int N 0) floor && lt a.price floor
      then cap_price rule floor a true floor
      else cap_price rule floor a false a.price

  unfoldable pub decide :
      PriceRule Num → PriceSnapshot Num → Result String Asked → PriceDecision Num
  unfolding clamp_price
  decide rule snap (err reason) = declined reason
  decide rule snap (ok a) = clamp_price rule snap a

  unfoldable pub desired_price : PriceRule Num → PriceSnapshot Num → PriceDecision Num
  unfolding decide asked_price
  desired_price rule snap =
      if lt (int N 0) rule.max_price && lt rule.max_price rule.min_price
      then declined "invalid_price_bounds"
      else decide rule snap (asked_price rule snap)
