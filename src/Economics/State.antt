-- ===== src/Economics/State.antt =====
-- The state of AccrualEconomics, and the changes that its methods share.
use bormo_stats.Base.{
  ℕ, String, ◌≡◌, refl, Bool, true, false, ◌&&◌, Option, none, some, List, [], ◌∷◌, str_eq,
  if◌then◌else◌,
}
use bormo_stats.Base.Int.{ℤ, pos, ◌+ℤ◌, ◌-ℤ◌, int_laws}
use bormo_stats.Economics.Rows.{
  Expense, Charges, no_charges, charge, total_charges, Row, no_row, charge_row, net_row,
  total-charge,
}

-- A pair of texts as a key: a posting and an article, an article and a month, a day and a campaign.
abbrev pub Key : Type 0
Key = String × String

abbrev pub key_eq : Key → Key → Bool
key_eq (a, b) (c, d) = str_eq a c && str_eq b d

-- What a domestic sale of one article in one posting was.
pub record Domestic : Type 0 where
  pub quantity : ℤ
  pub gross : ℤ
  pub receipt : ℤ
  pub deduction : ℤ

-- A row of the buyout report, as `parse_buyouts` returns it.
pub record Buyout : Type 0 where
  pub sku : String
  pub posting_number : String
  pub offer_id : String
  pub title : String
  pub quantity : ℤ
  pub gross : ℤ
  pub receipt : ℤ
  pub deduction : ℤ

pub record Economics : Type 0 where
  pub rows : List (String × Row)
  pub pool : Charges
  pub raw_total : ℤ
  pub operations : ℕ
  pub sale_days : List (Key × ℤ)
  pub campaign_charges : List (Key × ℤ)
  pub domestic_sales : List (Key × Domestic)
  pub buyout_receipts : ℤ
  pub buyout_overlap_count : ℕ
  pub cis_sale_days : List (Key × ℤ)
  pub seen_buyouts : List (Key × Buyout)
  pub running_net : ℤ

-- `AccrualEconomics()`
abbrev pub empty : Economics
empty = record {
  rows = [];
  pool = no_charges;
  raw_total = pos 0;
  operations = 0;
  sale_days = [];
  campaign_charges = [];
  domestic_sales = [];
  buyout_receipts = pos 0;
  buyout_overlap_count = 0;
  cis_sale_days = [];
  seen_buyouts = [];
  running_net = pos 0;
}

-- A change of the row of one article, which is made if it is missing.
unfoldable pub update_row : String → (Row → Row) → List (String × Row) → List (String × Row)
update_row sku f [] = (sku, f no_row) ∷ []
update_row sku f ((s, r) ∷ rows) =
    let rest = update_row sku f rows in if str_eq sku s then (s, f r) ∷ rows else (s, r) ∷ rest

unfoldable pub find_key {ℓ} : {V : Type ℓ} → Key → List (Key × V) → Option V
find_key k [] = none
find_key k ((j, v) ∷ m) = let rest = find_key k m in if key_eq k j then some v else rest

-- `d[k] += a`
unfoldable pub add_at : Key → ℤ → List (Key × ℤ) → List (Key × ℤ)
add_at k a [] = (k, a) ∷ []
add_at k a ((j, b) ∷ m) =
    let rest = add_at k a m in if key_eq k j then (j, b +ℤ a) ∷ m else (j, b) ∷ rest

-- `sum(r["revenue"] - r["commission"] - … for r in rows.values())`
unfoldable pub net_rows : List (String × Row) → ℤ
net_rows [] = pos 0
net_rows ((s, r) ∷ rows) = net_row r +ℤ net_rows rows

-- `net`
unfoldable pub net : Economics → ℤ
unfolding net_rows
net e = net_rows e.rows -ℤ total_charges e.pool

pub net-charge_row : (x : Expense) (a : ℤ) (r : Row) → net_row (charge_row x a r) ≡ net_row r -ℤ a
unfolding net_row
net-charge_row x a r = rw (total-charge x a r.charges) (omega int_laws)

net-no_row : net_row no_row ≡ pos 0
unfolding net_row ◌+ℤ◌ ◌-ℤ◌
net-no_row = refl

-- A change of one row changes the sum of all rows by as much.
pub net_rows-update_row :
    (sku : String) (f : Row → Row) (d : ℤ) (rows : List (String × Row))
    → ((r : Row) → net_row (f r) ≡ net_row r +ℤ d)
    → net_rows (update_row sku f rows) ≡ net_rows rows +ℤ d
unfolding net_rows update_row
net_rows-update_row sku f d [] h = rw (h no_row, net-no_row) (omega int_laws)
net_rows-update_row sku f d ((s, r) ∷ rows) h =
    by_key (str_eq sku s) (net_rows-update_row sku f d rows h)
  where
    by_key :
        (found : Bool)
        → net_rows (update_row sku f rows) ≡ net_rows rows +ℤ d
        → net_rows (if found then (s, f r) ∷ rows else (s, r) ∷ update_row sku f rows)
          ≡ net_row r +ℤ net_rows rows +ℤ d
    by_key true ih = rw (h r) (omega int_laws)
    by_key false ih = rw ih (omega int_laws)

-- The sum of the rows and the pool after a change of one row, and after a charge of the pool.
pub net-update_row :
    (sku : String) (f : Row → Row) (d : ℤ) (e : Economics)
    → ((r : Row) → net_row (f r) ≡ net_row r +ℤ d)
    → net (record e { rows = update_row sku f e.rows }) ≡ net e +ℤ d
unfolding net
net-update_row sku f d e h = rw (net_rows-update_row sku f d e.rows h) (omega int_laws)

pub net-charge :
    (x : Expense) (a : ℤ) (e : Economics) → net (record e { pool = charge x a e.pool }) ≡ net e -ℤ a
unfolding net
net-charge x a e = rw (total-charge x a e.pool) (omega int_laws)
