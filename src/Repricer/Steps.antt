-- ===== src/Repricer/Steps.antt =====
-- One change is limited to a step or goes to the hard floor, and the Ozon price index
-- holds a price back.
use bormo_stats.Base.{
  ℕ, sym, ◌∙◌, ap, Option, String, ◌≡◌, ◌≢◌, ◌⊎◌, true, false, none, some, str_eq, if◌then◌else◌,
  arith, eq_iff,
}
use bormo_stats.Actions.Rows.{PlannedAction}
use bormo_stats.Number.{
  Number, max_num, min_num, max_num-ge_left, max_num-ge_right, min_num-le_left, min_num-le_right,
  lt_asymm, IsMonotone,
}
use bormo_stats.Repricer.Defs.{
  PriceRule, PriceSnapshot, PriceDecision, desired_price, floor_of, ozon_index_guard, step_down,
}
use bormo_stats.Repricer.Plan.{step_of, step_limited, change_price, final_price, plan_decided, plan}

yellow_not_red : (colour : String) → str_eq colour "YELLOW" ≡ true → str_eq colour "RED" ≡ false
yellow_not_red colour h = ap (λ c. str_eq c "RED") ((eq_iff colour "YELLOW").0 h)

module _ (N : Number) where
  open N use {Num, lt, ratio, add, sub, mul, div, abs, round, ge_trans}

  abbrev limited : Num → Num → Num → Num
  limited top bottom wanted =
      if lt top wanted then round top else if lt wanted bottom then round bottom else wanted

  limited_within :
      (top bottom wanted : Num)
      → lt (round top) (round bottom) ≡ false
      → (lt (max_num N top (round top)) (limited top bottom wanted) ≡ false)
        × (lt (limited top bottom wanted) (min_num N bottom (round bottom)) ≡ false)
  limited_within top bottom wanted h =
      let most = max_num N top (round top) in
      let least = min_num N bottom (round bottom) in
      ground (
        arith,
        max_num-ge_left N top (round top),
        max_num-ge_right N top (round top),
        min_num-le_left N bottom (round bottom),
        min_num-le_right N bottom (round bottom),
        ge_trans most (round top) (round bottom),
        ge_trans most top wanted,
        ge_trans (round top) (round bottom) least,
        ge_trans wanted bottom least,
      )

  step_limited-within :
      (current wanted max_step_pct : Num)
      → IsMonotone N round
      → lt
          (add current (step_of N current max_step_pct))
          (sub current (step_of N current max_step_pct))
        ≡ false
      → let top = add current (step_of N current max_step_pct) in
        let bottom = sub current (step_of N current max_step_pct) in
        let price = step_limited N current wanted max_step_pct in
        (lt (max_num N top (round top)) price ≡ false)
        × (lt price (min_num N bottom (round bottom)) ≡ false)
  unfolding step_limited
  step_limited-within current wanted max_step_pct mono h =
      limited_within (add current (step_of N current max_step_pct))
        (sub current (step_of N current max_step_pct)) wanted
        (mono (sub current (step_of N current max_step_pct))
          (add current (step_of N current max_step_pct)) h)

  module _ (rule : PriceRule Num) (snap : PriceSnapshot Num) where
    abbrev top : Num
    top = add snap.seller_price (step_of N snap.seller_price rule.max_step_pct)

    abbrev bottom : Num
    bottom = sub snap.seller_price (step_of N snap.seller_price rule.max_step_pct)

    -- Within one step of the current price, as written or as rounded, or at the hard floor.
    abbrev pub IsOneStep : Num → Type 0
    IsOneStep price =
        ((lt (max_num N top (round top)) price ≡ false) ⊎ (price ≡ floor_of N rule snap))
        × (lt price (min_num N bottom (round bottom)) ≡ false)

    final_price-IsOneStep :
        (wanted : Num)
        → IsMonotone N round
        → lt top bottom ≡ false
        → IsOneStep (final_price N rule snap wanted)
    unfolding final_price
    final_price-IsOneStep wanted mono h =
        let price = step_limited N snap.seller_price wanted rule.max_step_pct in
        let floor = floor_of N rule snap in
        let least = min_num N bottom (round bottom) in
        ground (
          arith,
          step_limited-within snap.seller_price wanted rule.max_step_pct mono h,
          lt_asymm N price floor,
          N.ge_trans floor price least,
        )

    limit_not_price : (s : String) → s ≡ "price" → s ≢ "price_limit"
    limit_not_price s h k =
        let wrong : str_eq "price_limit" "price" ≡ true =
          (eq_iff "price_limit" "price").1 (sym k ∙ h) in
        cc

    change_price-value :
        (d : PriceDecision Num) (price : Num) (a : PlannedAction Num)
        → (change_price N rule snap d price).action ≡ some a
        → a.target_type ≡ "price"
        → a.after_value ≡ price
    unfolding change_price
    change_price-value d price a e t = ground (arith, limit_not_price a.target_type t)

    decided-IsOneStep :
        (d : PriceDecision Num) (wanted : Option Num) (a : PlannedAction Num)
        → IsMonotone N round
        → lt top bottom ≡ false
        → (plan_decided N rule snap d wanted).action ≡ some a
        → a.target_type ≡ "price"
        → IsOneStep a.after_value
    unfolding plan_decided
    decided-IsOneStep d none a mono h e t = cc
    decided-IsOneStep d (some wanted) a mono h e t =
        rw (change_price-value d (final_price N rule snap wanted) a e t)
          (final_price-IsOneStep wanted mono h)

    -- A planned price is at most one step of `max_step_pct` above the current price, as written or
    -- as rounded, unless it is the hard floor, which may lie further up; and it is never more than
    -- one such step below: where `round` is monotone and the lower end of the step is not above the
    -- upper end.
    pub plan_moves-IsOneStep :
        (now : ℕ) (a : PlannedAction Num)
        → IsMonotone N round
        → lt top bottom ≡ false
        → (plan N rule (some snap) now).action ≡ some a
        → a.target_type ≡ "price"
        → IsOneStep a.after_value
    unfolding plan
    plan_moves-IsOneStep now a mono h e t = ground (
      arith,
      decided-IsOneStep (desired_price N rule snap) (desired_price N rule snap).price a mono h,
    )

    red_guard :
        (price : Num)
        → rule.marketplace ≡ "ozon"
        → (snap.price_index_color ≢ "RED")
          ⊎ ((lt price (ozon_index_guard N rule snap price).0 ≡ false)
              × (lt
                    (max_num N rule.target_price (step_down N rule snap))
                    (ozon_index_guard N rule snap price).0
                  ≡ false))
    unfolding ozon_index_guard
    red_guard price ozon =
        let most = max_num N rule.target_price (step_down N rule snap) in
        ground (
          arith,
          eq_iff rule.marketplace "ozon",
          eq_iff snap.price_index_color "RED",
          min_num-le_left N price most,
          min_num-le_right N price most,
        )

    yellow_guard :
        (price : Num)
        → rule.marketplace ≡ "ozon"
        → (snap.price_index_color ≢ "YELLOW")
          ⊎ ((lt price (ozon_index_guard N rule snap price).0 ≡ false)
              × (lt snap.seller_price (ozon_index_guard N rule snap price).0 ≡ false))
    unfolding ozon_index_guard
    yellow_guard price ozon = ground (
      arith,
      eq_iff rule.marketplace "ozon",
      eq_iff snap.price_index_color "YELLOW",
      yellow_not_red snap.price_index_color,
      lt_asymm N snap.seller_price price,
      N.lt_irrefl snap.seller_price,
      N.lt_irrefl price,
    )

    -- Ozon's price index: for a RED card a price never goes up, and ends at or below the desired
    -- price or one step down, whichever is larger; for a YELLOW card it never goes up, and ends at
    -- or below the current price.
    pub ozon_index_guard-holds :
        (price : Num)
        → rule.marketplace ≡ "ozon"
        → ((snap.price_index_color ≢ "RED")
            ⊎ ((lt price (ozon_index_guard N rule snap price).0 ≡ false)
                × (lt
                      (max_num N rule.target_price (step_down N rule snap))
                      (ozon_index_guard N rule snap price).0
                    ≡ false)))
          × ((snap.price_index_color ≢ "YELLOW")
              ⊎ ((lt price (ozon_index_guard N rule snap price).0 ≡ false)
                  × (lt snap.seller_price (ozon_index_guard N rule snap price).0 ≡ false)))
    ozon_index_guard-holds price ozon = (red_guard price ozon, yellow_guard price ozon)
