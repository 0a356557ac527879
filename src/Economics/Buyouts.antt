-- ===== src/Economics/Buyouts.antt =====
-- common/ozon_buyouts.py, `parse_buyouts`, and the method `add_buyouts`.
use bormo_stats.Base.{
  ℕ, suc, String, Bool, true, false, not, ◌&&◌, ◌||◌, Option, none, some, List, [], ◌∷◌, leb,
  str_eq, ◌==◌, if◌then◌else◌,
}
use bormo_stats.Base.Int.{ℤ, ◌+ℤ◌, ◌-ℤ◌, ◌*ℤ◌, is_zero}
use bormo_stats.Base.Results.{Result, ok, err, Exec}
use bormo_stats.Base.Text.{codes}
use bormo_stats.Economics.Rows.{Row}
use bormo_stats.Economics.State.{
  Key, key_eq, Domestic, Buyout, Economics, update_row, find_key, add_at,
}

-- The ValueErrors of the two modules.
pub data EconomicsError : Type 0 where
  row_without_identity : EconomicsError
  duplicate_row : EconomicsError
  missing_field : String → EconomicsError
  invalid_quantity : EconomicsError
  conflicting_rows : EconomicsError
  not_reconciled : EconomicsError
  total_changed : EconomicsError

-- A product of the report; `whole` tells whether the quantity is a whole number.
pub record RawBuyout : Type 0 where
  pub sku : String
  pub posting_number : String
  pub offer_id : String
  pub title : String
  pub quantity : Option ℤ
  pub whole : Bool
  pub seller_price_per_instance : Option ℤ
  pub amount : Option ℤ

-- `isdigit() and int(…) > 0`: digits, one of them not zero
unfoldable pub are_digits : List ℕ → Bool
are_digits [] = true
are_digits (c ∷ s) = leb 48 c && leb c 57 && are_digits s

unfoldable pub has_nonzero : List ℕ → Bool
has_nonzero [] = false
has_nonzero (c ∷ s) = not (c == 48) || has_nonzero s

abbrev pub is_positive : String → Bool
is_positive sku = are_digits (codes sku) && has_nonzero (codes sku)

unfoldable pub has_key : Key → List Key → Bool
has_key k [] = false
has_key k (j ∷ js) = key_eq k j || has_key k js

abbrev pub read_row : RawBuyout → ℤ → ℤ → ℤ → Buyout
read_row row q price amount = record {
  sku = row.sku;
  posting_number = row.posting_number;
  offer_id = row.offer_id;
  title = row.title;
  quantity = q;
  gross = price *ℤ q;
  receipt = amount;
  deduction = price *ℤ q -ℤ amount;
}

unfoldable pub read_amounts :
    RawBuyout → Option ℤ → Option ℤ → Option ℤ → Result EconomicsError Buyout
read_amounts row none price amount = err (missing_field "quantity")
read_amounts row (some q) none amount = err (missing_field "seller_price_per_instance")
read_amounts row (some q) (some price) none = err (missing_field "amount")
read_amounts row (some q) (some price) (some amount) =
    if is_zero q || not row.whole then err invalid_quantity else ok (read_row row q price amount)

-- one row, after the keys seen so far
unfoldable pub parse_buyout : List Key → RawBuyout → Result EconomicsError Buyout
unfolding are_digits has_nonzero has_key read_amounts
parse_buyout seen row =
    if not (is_positive row.sku) || str_eq row.posting_number ""
    then err row_without_identity
    else if has_key (row.posting_number, row.sku) seen
    then err duplicate_row
    else read_amounts row row.quantity row.seller_price_per_instance row.amount

unfoldable pub cons_result :
    Result EconomicsError Buyout
    → Result EconomicsError (List Buyout)
    → Result EconomicsError (List Buyout)
cons_result (err x) rest = err x
cons_result (ok b) (err x) = err x
cons_result (ok b) (ok bs) = ok (b ∷ bs)

-- `parse_buyouts`, after the keys seen so far: the first error in the order of the rows
unfoldable pub parse_buyouts : List Key → List RawBuyout → Result EconomicsError (List Buyout)
unfolding parse_buyout cons_result
parse_buyouts seen [] = ok []
parse_buyouts seen (row ∷ rows) =
    cons_result (parse_buyout seen row) (parse_buyouts ((row.posting_number, row.sku) ∷ seen) rows)

-- `==` of two records of the report
unfoldable pub buyout_eq : Buyout → Buyout → Bool
buyout_eq a b =
    str_eq a.sku b.sku
    && str_eq a.posting_number b.posting_number
    && str_eq a.offer_id b.offer_id
    && str_eq a.title b.title
    && is_zero (a.quantity -ℤ b.quantity)
    && is_zero (a.gross -ℤ b.gross)
    && is_zero (a.receipt -ℤ b.receipt)
    && is_zero (a.deduction -ℤ b.deduction)

-- a sale that was read as domestic before: its figures move to the foreign ones
unfoldable pub move_abroad : Domestic → Row → Row
move_abroad d r = record r {
  sales_qty = r.sales_qty -ℤ d.quantity;
  sales_cis = r.sales_cis +ℤ d.quantity;
  revenue_rf = r.revenue_rf -ℤ d.gross;
  revenue_cis = r.revenue_cis +ℤ d.gross;
  buyer_rf = r.buyer_rf -ℤ d.receipt;
  buyer_cis = r.buyer_cis +ℤ d.receipt;
  commission_rf = r.commission_rf -ℤ d.deduction;
  commission_cis = r.commission_cis +ℤ d.deduction;
}

unfoldable pub foreign_row : Buyout → Row → Row
foreign_row b r = record r {
  sales_cis = r.sales_cis +ℤ b.quantity;
  revenue = r.revenue +ℤ b.gross;
  revenue_cis = r.revenue_cis +ℤ b.gross;
  buyer_revenue = r.buyer_revenue +ℤ b.receipt;
  buyer_cis = r.buyer_cis +ℤ b.receipt;
  commission = r.commission +ℤ b.deduction;
  commission_cis = r.commission_cis +ℤ b.deduction;
}

abbrev pub identity : Buyout → Key
identity b = (b.posting_number, b.sku)

-- a record seen for the first time; `month` is the first seven characters of the day
unfoldable pub add_new : String → Buyout → Option Domestic → Economics → Economics
unfolding move_abroad foreign_row update_row add_at
add_new month b (some d) e = record e {
  rows = update_row b.sku (move_abroad d) e.rows;
  seen_buyouts = (identity b, b) ∷ e.seen_buyouts;
  buyout_overlap_count = suc e.buyout_overlap_count;
}
add_new month b none e = record e {
  rows = update_row b.sku (foreign_row b) e.rows;
  seen_buyouts = (identity b, b) ∷ e.seen_buyouts;
  sale_days = add_at (b.sku, month) b.receipt e.sale_days;
  cis_sale_days = add_at (b.sku, month) b.receipt e.cis_sale_days;
  buyout_receipts = e.buyout_receipts +ℤ b.receipt;
  raw_total = e.raw_total +ℤ b.receipt;
}

-- one turn of the loop: whether it went on, and the state
unfoldable pub add_buyout : String → Buyout → Option Buyout → Economics → Bool × Economics
unfolding buyout_eq add_new find_key
add_buyout month b (some seen) e =
    if buyout_eq seen b
    then (true, record e { buyout_overlap_count = suc e.buyout_overlap_count })
    else (false, e)
add_buyout month b none e = (true, add_new month b (find_key (identity b) e.domestic_sales) e)

-- a conflict stops the loop
unfoldable pub after_turn :
    Bool → Exec Economics EconomicsError Unit → Exec Economics EconomicsError Unit
after_turn true rest e = rest e
after_turn false rest e = (err conflicting_rows, e)

unfoldable pub add_buyout_list : String → List Buyout → Exec Economics EconomicsError Unit
unfolding add_buyout find_key after_turn
add_buyout_list month [] e = (ok tt, e)
add_buyout_list month (b ∷ bs) e =
    let (went_on, e') = add_buyout month b (find_key (identity b) e.seen_buyouts) e in
    after_turn went_on (add_buyout_list month bs) e'

unfoldable pub add_parsed :
    String → Result EconomicsError (List Buyout) → Exec Economics EconomicsError Unit
unfolding add_buyout_list
add_parsed month (err x) e = (err x, e)
add_parsed month (ok bs) e = add_buyout_list month bs e

-- `add_buyouts`: a row that conflicts stops the loop, and the rows before it stay added.
unfoldable pub add_buyouts : String → List RawBuyout → Exec Economics EconomicsError Unit
unfolding parse_buyouts add_parsed
add_buyouts month rows = add_parsed month (parse_buyouts [] rows)
