-- ===== src/Economics/Allocation.antt =====
-- `allocate`, `bind_ad_costs`, `add_standardized_sale` and `add_wb_realization_row`. `cent` is the
-- constant CENT in the unit of the amounts.
use bormo_stats.Base.{
  ℕ, suc, String, Bool, true, false, not, ◌&&◌, ◌||◌, Option, none, some, List, [], ◌∷◌, length,
  str_eq, if◌then◌else◌,
}
use bormo_stats.Base.Int.{ℤ, pos, ◌+ℤ◌, ◌-ℤ◌, ltb_ℤ, is_zero, abs}
use bormo_stats.Base.Results.{ok, err, Exec}
use bormo_stats.Economics.Rows.{
  marketing, acquiring, logistics, Charges, no_charges, charge, Row, charge_row,
}
use bormo_stats.Economics.State.{Key, Economics, update_row, find_key, net}
use bormo_stats.Economics.Buyouts.{EconomicsError, not_reconciled, total_changed, has_key}
use bormo_stats.Economics.Accruals.{negate}

-- `self.rows["unallocated"][key] += amount` for each category of the pool
unfoldable pub add_charges : Charges → Charges → Charges
add_charges p c = record {
  delivery = c.delivery +ℤ p.delivery;
  partners = c.partners +ℤ p.partners;
  promotion = c.promotion +ℤ p.promotion;
  fbo = c.fbo +ℤ p.fbo;
  other_services = c.other_services +ℤ p.other_services;
  compensation = c.compensation +ℤ p.compensation;
  other_accruals = c.other_accruals +ℤ p.other_accruals;
  marketing = c.marketing +ℤ p.marketing;
  acquiring = c.acquiring +ℤ p.acquiring;
  logistics = c.logistics +ℤ p.logistics;
  reverse_logistics = c.reverse_logistics +ℤ p.reverse_logistics;
  storage = c.storage +ℤ p.storage;
  cross_docking = c.cross_docking +ℤ p.cross_docking;
}

abbrev pub is_reconciled : ℤ → Economics → Bool
is_reconciled cent e = not (ltb_ℤ cent (abs (net e -ℤ e.raw_total)))

unfoldable pub check_reconciled :
    {A : Type 0} → ℤ → EconomicsError → A → Exec Economics EconomicsError A
unfolding net abs
check_reconciled cent x a e = if is_reconciled cent e then (ok a, e) else (err x, e)

abbrev pub amounts : Charges → List ℤ
amounts p =
    p.delivery ∷ p.partners ∷ p.promotion ∷ p.fbo ∷ p.other_services ∷ p.compensation
    ∷ p.other_accruals ∷ p.marketing ∷ p.acquiring ∷ p.logistics ∷ p.reverse_logistics ∷ p.storage
    ∷ p.cross_docking ∷ []

unfoldable pub are_zero : List ℤ → Bool
are_zero [] = true
are_zero (a ∷ rest) = is_zero a && are_zero rest

abbrev pub all_zero : Charges → Bool
all_zero p = are_zero (amounts p)

-- the pool moves to the row "unallocated", which is made only where there is something to move
unfoldable pub empty_pool : Economics → Economics
unfolding add_charges are_zero update_row
empty_pool e = record e {
  rows =
      if all_zero e.pool
      then e.rows
      else update_row "unallocated" (λ r. record r { charges = add_charges e.pool r.charges })
          e.rows;
  pool = no_charges;
}

-- `allocate`: returns the pool as it was
unfoldable pub allocate : ℤ → Exec Economics EconomicsError Charges
unfolding empty_pool check_reconciled
allocate cent e = check_reconciled cent not_reconciled e.pool (empty_pool e)

-- A record of advertising costs: the day and the campaign, the article and the cost.
pub record AdCost : Type 0 where
  pub campaign : Key
  pub sku : String
  pub cost : ℤ

abbrev pub found : {A : Type 0} → Option A → Bool
found none = false
found (some a) = true

-- one record whose campaign was charged
unfoldable pub bind_cost : AdCost → Economics → Economics
unfolding update_row
bind_cost c e = if is_zero c.cost then e else record e {
  rows =
      update_row "unallocated" (charge_row marketing (negate c.cost))
        (update_row c.sku (charge_row marketing c.cost) e.rows);
}

-- What the loop carries: the sum and the campaigns so far, and the state.
pub record Binding : Type 0 where
  pub linked : ℤ
  pub matched : List Key
  pub state : Economics

unfoldable pub bind_one : AdCost → Binding → Binding
unfolding bind_cost find_key has_key
bind_one c b =
    if found (find_key c.campaign b.state.campaign_charges)
    then record {
      linked = b.linked +ℤ c.cost;
      matched =
          if is_zero c.cost || has_key c.campaign b.matched
          then b.matched
          else c.campaign ∷ b.matched;
      state = bind_cost c b.state;
    }
    else b

unfoldable pub bind_all : List AdCost → Binding → Binding
unfolding bind_one
bind_all [] b = b
bind_all (c ∷ cs) b = bind_all cs (bind_one c b)

-- `bind_ad_costs`: the sum that was linked, and the number of campaigns
unfoldable pub bind_ad_costs : ℤ → List AdCost → Exec Economics EconomicsError (ℤ × ℕ)
unfolding bind_all check_reconciled
bind_ad_costs cent costs e =
    let b = bind_all costs (record { linked = pos 0; matched = []; state = e }) in
    check_reconciled cent total_changed (b.linked, length b.matched) b.state

-- A normalized sale or return; an empty `sku` stands for "unallocated".
pub record Sale : Type 0 where
  pub sku : String
  pub qty : ℤ
  pub revenue : ℤ
  pub buyer_revenue : ℤ
  pub commission : ℤ
  pub acquiring : ℤ
  pub logistics : ℤ

abbrev pub or_unallocated : String → String
or_unallocated sku = if str_eq sku "" then "unallocated" else sku

unfoldable pub standardized_row : Sale → Row → Row
standardized_row s r = record r {
  sales_qty = if ltb_ℤ s.qty (pos 0) then r.sales_qty else r.sales_qty +ℤ s.qty;
  returns_qty = if ltb_ℤ s.qty (pos 0) then r.returns_qty +ℤ s.qty else r.returns_qty;
  revenue = r.revenue +ℤ s.revenue;
  revenue_rf = r.revenue_rf +ℤ s.revenue;
  buyer_revenue = r.buyer_revenue +ℤ s.buyer_revenue;
  buyer_rf = r.buyer_rf +ℤ s.buyer_revenue;
  commission = r.commission +ℤ s.commission;
  commission_rf = r.commission_rf +ℤ s.commission;
  charges = charge logistics s.logistics (charge acquiring s.acquiring r.charges);
}

-- `add_standardized_sale`
unfoldable pub add_standardized_sale : Sale → Economics → Economics
unfolding standardized_row update_row
add_standardized_sale s e = record e {
  operations = suc e.operations;
  rows = update_row (or_unallocated s.sku) (standardized_row s) e.rows;
  raw_total = e.raw_total +ℤ (s.revenue -ℤ s.commission -ℤ s.acquiring -ℤ s.logistics);
}
