-- ===== src/Economics/Accruals.antt =====
-- `fee` and `add`: one accrual operation of Ozon, read into the articles and the pool.
use bormo_stats.Base.{
  ℕ, suc, String, Bool, not, ◌&&◌, ◌||◌, Option, none, some, List, [], ◌∷◌, str_eq, ◌==◌,
  if◌then◌else◌,
}
use bormo_stats.Base.Int.{ℤ, pos, ◌+ℤ◌, ◌-ℤ◌, ◌*ℤ◌, ltb_ℤ, is_zero, abs}
use bormo_stats.Economics.Rows.{other_services, other_accruals, charge, Row, charge_row, category}
use bormo_stats.Economics.State.{Key, key_eq, Domestic, Economics, update_row, add_at}

pub record Fee : Type 0 where
  pub accrued : ℤ
  pub type_id : ℕ

-- A product of a posting; a missing text is empty, and a missing quantity is one.
pub record Product : Type 0 where
  pub sku : String
  pub sale_amount : ℤ
  pub sale_price : ℤ
  pub commission : ℤ
  pub quantity : ℤ
  pub services : List Fee
  pub total_accrued : ℤ

pub record ItemFees : Type 0 where
  pub sku : String
  pub fees : List Fee

-- The payload; `month` is the first seven characters of its date.
pub record Operation : Type 0 where
  pub total_amount : ℤ
  pub date : String
  pub month : String
  pub unit_number : String
  pub products : List Product
  pub item_fees : List ItemFees
  pub non_item_fee : Option Fee
  pub container_fees : List Fee

abbrev pub negate : ℤ → ℤ
negate a = pos 0 -ℤ a

-- `fee`; no article is the empty text
unfoldable pub add_fee : String → Fee → Economics → Economics
unfolding update_row
add_fee sku fee e =
    if str_eq sku ""
    then record e { pool = charge (category fee.type_id) (negate fee.accrued) e.pool }
    else record e {
      rows = update_row sku (charge_row (category fee.type_id) (negate fee.accrued)) e.rows;
    }

-- The loops carry what they have added, `delta`, beside the state.
unfoldable pub add_fees : String → List Fee → Economics × ℤ → Economics × ℤ
unfolding add_fee
add_fees sku [] e = e
add_fees sku (fee ∷ fees) (e, delta) = add_fees sku fees (add_fee sku fee e, delta +ℤ fee.accrued)

-- `original["quantity"] += qty` and so on
unfoldable pub add_domestic : Key → Domestic → List (Key × Domestic) → List (Key × Domestic)
add_domestic k d [] = (k, d) ∷ []
add_domestic k d ((j, b) ∷ m) =
    let rest = add_domestic k d m in
    if key_eq k j
    then (
      j,
      record {
        quantity = b.quantity +ℤ d.quantity;
        gross = b.gross +ℤ d.gross;
        receipt = b.receipt +ℤ d.receipt;
        deduction = b.deduction +ℤ d.deduction;
      },
    )
      ∷ m
    else (j, b) ∷ rest

-- the quantity with the sign of the revenue
abbrev pub signed_quantity : Product → ℤ
signed_quantity p = if ltb_ℤ p.sale_amount (pos 0) then negate p.quantity else p.quantity

-- `abs(sale_price) * signed_qty`
abbrev pub sale_value : Product → ℤ
sale_value p = abs p.sale_price *ℤ signed_quantity p

-- what a sale or a return adds to its article's row
unfoldable pub sale_row : Product → Row → Row
sale_row p r = record r {
  sales_qty = if ltb_ℤ (pos 0) p.sale_amount then r.sales_qty +ℤ signed_quantity p else r.sales_qty;
  returns_qty =
      if ltb_ℤ (pos 0) p.sale_amount then r.returns_qty else r.returns_qty +ℤ signed_quantity p;
  revenue = r.revenue +ℤ p.sale_amount;
  buyer_revenue = r.buyer_revenue +ℤ sale_value p;
  revenue_rf = r.revenue_rf +ℤ p.sale_amount;
  buyer_rf = r.buyer_rf +ℤ sale_value p;
  commission_rf = r.commission_rf -ℤ p.commission;
  commission = r.commission -ℤ p.commission;
}

abbrev pub domestic_of : Product → Domestic
domestic_of p = record {
  quantity = p.quantity;
  gross = p.sale_amount;
  receipt = abs p.sale_price *ℤ p.quantity;
  deduction = negate p.commission;
}

-- the branch `if revenue`
unfoldable pub add_sale : Operation → Product → Economics → Economics
unfolding sale_row update_row add_at add_domestic
add_sale op p e = record e {
  rows = update_row p.sku (sale_row p) e.rows;
  sale_days = add_at (p.sku, op.month) (sale_value p) e.sale_days;
  domestic_sales =
      if ltb_ℤ (pos 0) p.sale_amount && not (str_eq op.unit_number "")
      then add_domestic (op.unit_number, p.sku) (domestic_of p) e.domestic_sales
      else e.domestic_sales;
}

unfoldable pub sale_or_touch : Operation → Product → Economics × ℤ → Economics × ℤ
unfolding add_sale
sale_or_touch op p (e, delta) =
    if is_zero p.sale_amount
    then (record e { rows = update_row p.sku (λ r. r) e.rows }, delta)
    else (add_sale op p e, delta +ℤ (p.sale_amount +ℤ p.commission))

-- the sum of a list of fees
unfoldable pub fees_total : List Fee → ℤ
fees_total [] = pos 0
fees_total (f ∷ fs) = f.accrued +ℤ fees_total fs

-- what the delivery accrued beyond its services
unfoldable pub add_difference : Product → Economics × ℤ → Economics × ℤ
unfolding fees_total update_row
add_difference p (e, delta) =
    let diff = p.total_accrued -ℤ fees_total p.services in
    (
      record e { rows = update_row p.sku (charge_row other_services (negate diff)) e.rows },
      delta +ℤ diff,
    )

-- one turn of the loop over the products
unfoldable pub add_product : Operation → Product → Economics × ℤ → Economics × ℤ
unfolding sale_or_touch add_fees add_difference
add_product op p s =
    if str_eq p.sku ""
    then s
    else add_difference p (add_fees p.sku p.services (sale_or_touch op p s))

unfoldable pub add_products : Operation → List Product → Economics × ℤ → Economics × ℤ
unfolding add_product
add_products op [] s = s
add_products op (p ∷ ps) s = add_products op ps (add_product op p s)

unfoldable pub add_item_fees : List ItemFees → Economics × ℤ → Economics × ℤ
unfolding add_fees
add_item_fees [] s = s
add_item_fees (item ∷ items) s = add_item_fees items (add_fees item.sku item.fees s)

-- the types of fees that are advertising charges: `{41, 75}`
abbrev pub is_campaign : ℕ → Bool
is_campaign n = n == 41 || n == 75

unfoldable pub add_non_item_fee : Operation → Option Fee → Economics × ℤ → Economics × ℤ
unfolding add_fee add_at
add_non_item_fee op none s = s
add_non_item_fee op (some fee) (e, delta) =
    let e' = add_fee "" fee e in
    (
      if is_campaign fee.type_id
          then record e' {
            campaign_charges =
                add_at (op.date, op.unit_number) (negate fee.accrued) e'.campaign_charges;
          }
          else e',
      delta +ℤ fee.accrued,
    )

unfoldable pub attributed : Operation → Economics → Economics × ℤ
unfolding add_products add_item_fees add_non_item_fee add_fees
attributed op e = add_fees "" op.container_fees (
    add_non_item_fee op op.non_item_fee
      (add_item_fees op.item_fees (add_products op op.products (e, pos 0))))

-- the rest of the operation goes to the pool
unfoldable pub close_operation : Operation → Economics × ℤ → Economics
close_operation op (e, delta) = record e {
  pool = charge other_accruals (negate (op.total_amount -ℤ delta)) e.pool;
  running_net = e.running_net +ℤ op.total_amount;
}

-- `add`
unfoldable pub add : Operation → Economics → Economics
unfolding attributed close_operation
add op e = close_operation op (
    attributed op
      (record e { raw_total = e.raw_total +ℤ op.total_amount; operations = suc e.operations }))
