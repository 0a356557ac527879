-- ===== src/Economics/Realization.antt =====
-- `add_wb_realization_row`: one line of the realization report of Wildberries.
use bormo_stats.Base.{suc, String, Bool, not, ◌&&◌, ◌||◌, str_eq, if◌then◌else◌}
use bormo_stats.Base.Int.{ℤ, pos, ◌+ℤ◌, ◌-ℤ◌, ◌*ℤ◌, ltb_ℤ, is_zero, abs}
use bormo_stats.Base.Text.{codes, contains}
use bormo_stats.Economics.Rows.{
  Expense, acquiring, logistics, reverse_logistics, storage, cross_docking, other_services, Row,
  charge_row,
}
use bormo_stats.Economics.State.{Economics, update_row}
use bormo_stats.Economics.Accruals.{negate}

-- A line: its texts are stripped and in lower case, a missing figure is zero. `delivery` is the
-- first of the two delivery fields that is not zero.
pub record Line : Type 0 where
  pub nm_id : String
  pub doc_type : String
  pub oper_name : String
  pub quantity : ℤ
  pub retail_price : ℤ
  pub retail_amount : ℤ
  pub for_pay : ℤ
  pub delivery : ℤ
  pub storage_fee : ℤ
  pub penalty : ℤ
  pub deduction : ℤ
  pub acceptance : ℤ
  pub additional_payment : ℤ
  pub acquiring_fee : ℤ

abbrev pub has_word : String → String → Bool
has_word word text = contains (codes word) (codes text)

-- `"возврат" in doc_type or "возврат" in oper_name`
unfoldable pub is_return : Line → Bool
unfolding contains
is_return p = has_word "возврат" p.doc_type || has_word "возврат" p.oper_name

unfoldable pub is_sale : Line → Bool
unfolding contains is_return
is_sale p = (has_word "продаж" p.doc_type || has_word "продаж" p.oper_name) && not (is_return p)

abbrev pub article_of : Line → String
article_of p = if str_eq p.nm_id "" || str_eq p.nm_id "0" then "unallocated" else p.nm_id

-- `retail_price * (qty or 1)`
unfoldable pub seller_amount : Line → ℤ
seller_amount p = p.retail_price *ℤ (if is_zero p.quantity then pos 1 else p.quantity)

-- `max(ZERO, a - b)`
abbrev pub not_negative : ℤ → ℤ
not_negative a = if ltb_ℤ (pos 0) a then a else pos 0

unfoldable pub line_sale : Line → Row → Row
unfolding seller_amount
line_sale p r =
    let comm = not_negative (seller_amount p -ℤ p.for_pay) in
    record r {
      sales_qty = r.sales_qty +ℤ p.quantity;
      revenue = r.revenue +ℤ seller_amount p;
      revenue_rf = r.revenue_rf +ℤ seller_amount p;
      buyer_revenue = r.buyer_revenue +ℤ p.retail_amount;
      buyer_rf = r.buyer_rf +ℤ p.retail_amount;
      commission = r.commission +ℤ comm;
      commission_rf = r.commission_rf +ℤ comm;
    }

unfoldable pub line_return : Line → Row → Row
unfolding seller_amount abs
line_return p r =
    let comm = not_negative (abs (seller_amount p) -ℤ abs p.for_pay) in
    record r {
      returns_qty = r.returns_qty -ℤ abs p.quantity;
      revenue = r.revenue -ℤ abs (seller_amount p);
      revenue_rf = r.revenue_rf -ℤ abs (seller_amount p);
      buyer_revenue = r.buyer_revenue -ℤ abs p.retail_amount;
      buyer_rf = r.buyer_rf -ℤ abs p.retail_amount;
      commission = r.commission -ℤ comm;
      commission_rf = r.commission_rf -ℤ comm;
    }

-- A change of the row of an article, and of the total of the operations.
abbrev pub book : String → (Row → Row) → ℤ → Economics → Economics
book sku f a e = record e { rows = update_row sku f e.rows; raw_total = e.raw_total +ℤ a }

-- the sale, the return, or only the row
unfoldable pub book_goods : Line → Economics → Economics
unfolding is_sale is_return line_sale line_return update_row
book_goods p e =
    if is_sale p
    then book (article_of p) (line_sale p) p.for_pay e
    else if is_return p
    then book (article_of p) (line_return p) (negate (abs p.for_pay)) e
    else book (article_of p) (λ r. r) (pos 0) e

-- `if amount: target[category] += amount; self.raw_total -= amount`
unfoldable pub book_charge : String → Expense → ℤ → Economics → Economics
unfolding update_row
book_charge sku x a e = if is_zero a then e else book sku (charge_row x a) (negate a) e

-- `add_wb_realization_row`
unfoldable pub add_wb_realization_row : Line → Economics → Economics
unfolding book_goods book_charge abs
add_wb_realization_row p e =
    let sku = article_of p in
    let goods = book_goods p (record e { operations = suc e.operations }) in
    let acquired = book_charge sku acquiring (abs p.acquiring_fee) goods in
    let delivered =
      book_charge sku (if is_return p then reverse_logistics else logistics) (abs p.delivery)
        acquired in
    let stored = book_charge sku storage (abs p.storage_fee) delivered in
    let accepted = book_charge sku cross_docking (abs p.acceptance) stored in
    let penalized = book_charge sku other_services (abs p.penalty +ℤ abs p.deduction) accepted in
    book_charge sku other_services (negate p.additional_payment) penalized
