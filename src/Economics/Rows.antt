-- ===== src/Economics/Rows.antt =====
-- The figures of one article: quantities, amounts and the charges by category (`EXPENSES`), and
-- the category of a fee's type. Amounts are whole numbers of the smallest unit.
use bormo_stats.Base.{ℕ, ◌≡◌, Bool, false, ◌||◌, List, [], ◌∷◌, ◌==◌, if◌then◌else◌}
use bormo_stats.Base.Int.{ℤ, pos, ◌+ℤ◌, ◌-ℤ◌, int_laws}

-- `EXPENSES`
pub data Expense : Type 0 where
  delivery : Expense
  partners : Expense
  promotion : Expense
  fbo : Expense
  other_services : Expense
  compensation : Expense
  other_accruals : Expense
  marketing : Expense
  acquiring : Expense
  logistics : Expense
  reverse_logistics : Expense
  storage : Expense
  cross_docking : Expense

-- The charges of a row or of the pool, zero where nothing was booked.
pub record Charges : Type 0 where
  pub delivery : ℤ
  pub partners : ℤ
  pub promotion : ℤ
  pub fbo : ℤ
  pub other_services : ℤ
  pub compensation : ℤ
  pub other_accruals : ℤ
  pub marketing : ℤ
  pub acquiring : ℤ
  pub logistics : ℤ
  pub reverse_logistics : ℤ
  pub storage : ℤ
  pub cross_docking : ℤ

abbrev pub no_charges : Charges
no_charges = record {
  delivery = pos 0;
  partners = pos 0;
  promotion = pos 0;
  fbo = pos 0;
  other_services = pos 0;
  compensation = pos 0;
  other_accruals = pos 0;
  marketing = pos 0;
  acquiring = pos 0;
  logistics = pos 0;
  reverse_logistics = pos 0;
  storage = pos 0;
  cross_docking = pos 0;
}

-- `row[category] += amount`
unfoldable pub charge : Expense → ℤ → Charges → Charges
charge delivery a c = record c { delivery = c.delivery +ℤ a }
charge partners a c = record c { partners = c.partners +ℤ a }
charge promotion a c = record c { promotion = c.promotion +ℤ a }
charge fbo a c = record c { fbo = c.fbo +ℤ a }
charge other_services a c = record c { other_services = c.other_services +ℤ a }
charge compensation a c = record c { compensation = c.compensation +ℤ a }
charge other_accruals a c = record c { other_accruals = c.other_accruals +ℤ a }
charge marketing a c = record c { marketing = c.marketing +ℤ a }
charge acquiring a c = record c { acquiring = c.acquiring +ℤ a }
charge logistics a c = record c { logistics = c.logistics +ℤ a }
charge reverse_logistics a c = record c { reverse_logistics = c.reverse_logistics +ℤ a }
charge storage a c = record c { storage = c.storage +ℤ a }
charge cross_docking a c = record c { cross_docking = c.cross_docking +ℤ a }

-- `sum(r[e] for e in EXPENSES)`
unfoldable pub total_charges : Charges → ℤ
total_charges c =
    c.delivery +ℤ c.partners +ℤ c.promotion +ℤ c.fbo +ℤ c.other_services +ℤ c.compensation
    +ℤ c.other_accruals +ℤ c.marketing +ℤ c.acquiring +ℤ c.logistics +ℤ c.reverse_logistics
    +ℤ c.storage +ℤ c.cross_docking

pub total-charge :
    (e : Expense) (a : ℤ) (c : Charges) → total_charges (charge e a c) ≡ total_charges c +ℤ a
unfolding total_charges charge
total-charge delivery a c = omega int_laws
total-charge partners a c = omega int_laws
total-charge promotion a c = omega int_laws
total-charge fbo a c = omega int_laws
total-charge other_services a c = omega int_laws
total-charge compensation a c = omega int_laws
total-charge other_accruals a c = omega int_laws
total-charge marketing a c = omega int_laws
total-charge acquiring a c = omega int_laws
total-charge logistics a c = omega int_laws
total-charge reverse_logistics a c = omega int_laws
total-charge storage a c = omega int_laws
total-charge cross_docking a c = omega int_laws

-- `defaultdict(lambda: ZERO)`: the counters of an article, all zero at first
pub record Row : Type 0 where
  pub sales_qty : ℤ
  pub returns_qty : ℤ
  pub sales_cis : ℤ
  pub revenue : ℤ
  pub buyer_revenue : ℤ
  pub commission : ℤ
  pub revenue_rf : ℤ
  pub buyer_rf : ℤ
  pub commission_rf : ℤ
  pub revenue_cis : ℤ
  pub buyer_cis : ℤ
  pub commission_cis : ℤ
  pub charges : Charges

abbrev pub no_row : Row
no_row = record {
  sales_qty = pos 0;
  returns_qty = pos 0;
  sales_cis = pos 0;
  revenue = pos 0;
  buyer_revenue = pos 0;
  commission = pos 0;
  revenue_rf = pos 0;
  buyer_rf = pos 0;
  commission_rf = pos 0;
  revenue_cis = pos 0;
  buyer_cis = pos 0;
  commission_cis = pos 0;
  charges = no_charges;
}

abbrev pub charge_row : Expense → ℤ → Row → Row
charge_row e a r = record r { charges = charge e a r.charges }

-- What a row adds to `net`.
unfoldable pub net_row : Row → ℤ
unfolding total_charges
net_row r = r.revenue -ℤ r.commission -ℤ total_charges r.charges

-- `in` one of the module's sets of type ids
unfoldable pub any_of : List ℕ → ℕ → Bool
any_of [] n = false
any_of (m ∷ ms) n = n == m || any_of ms n

abbrev pub marketing_ids : List ℕ
marketing_ids =
    3 ∷ 4 ∷ 5 ∷ 19 ∷ 23 ∷ 31 ∷ 33 ∷ 41 ∷ 47 ∷ 48 ∷ 49 ∷ 50 ∷ 54 ∷ 55 ∷ 61 ∷ 70 ∷ 75 ∷ 80 ∷ 87 ∷ 95
    ∷ 96 ∷ 116 ∷ 130 ∷ []

abbrev pub delivery_ids : List ℕ
delivery_ids =
    2 ∷ 6 ∷ 9 ∷ 28 ∷ 29 ∷ 30 ∷ 32 ∷ 40 ∷ 45 ∷ 53 ∷ 59 ∷ 62 ∷ 64 ∷ 65 ∷ 67 ∷ 71 ∷ 73 ∷ 98 ∷ 99 ∷ 100
    ∷ 110 ∷ 111 ∷ 112 ∷ 113 ∷ 114 ∷ 115 ∷ 120 ∷ 121 ∷ 124 ∷ []

abbrev pub partner_ids : List ℕ
partner_ids =
    1 ∷ 13 ∷ 16 ∷ 17 ∷ 42 ∷ 43 ∷ 44 ∷ 56 ∷ 63 ∷ 66 ∷ 68 ∷ 97 ∷ 106 ∷ 107 ∷ 108 ∷ 109 ∷ 122 ∷ 123
    ∷ []

abbrev pub fbo_ids : List ℕ
fbo_ids = 12 ∷ 21 ∷ 46 ∷ 58 ∷ 60 ∷ 77 ∷ 78 ∷ 79 ∷ 101 ∷ 102 ∷ 103 ∷ 131 ∷ 132 ∷ 133 ∷ 134 ∷ 135 ∷ []

abbrev pub compensation_ids : List ℕ
compensation_ids = 10 ∷ 25 ∷ 81 ∷ 104 ∷ []

-- `category`
unfoldable pub category : ℕ → Expense
unfolding any_of
category n =
    if any_of marketing_ids n
    then marketing
    else if any_of delivery_ids n
    then delivery
    else if any_of partner_ids n
    then partners
    else if any_of fbo_ids n
    then fbo
    else if any_of compensation_ids n
    then compensation
    else other_services
