-- ===== src/Economics/Reconciliation.antt =====
-- `allocate` and `bind_ad_costs`: the pool, the rows and the check against the total.
use bormo_stats.Base.{
  ◌≡◌, refl, ap, sym, ◌∙◌, Bool, true, false, not, ◌||◌, List, [], ◌∷◌, length, if◌then◌else◌,
  arith,
}
use bormo_stats.Base.Int.{ℤ, pos, ◌+ℤ◌, ◌-ℤ◌, is_zero, ltb_ℤ, abs, int_laws}
use bormo_stats.Base.Results.{Result, ok, err}
use bormo_stats.Economics.Rows.{
  Expense, marketing, Charges, no_charges, total_charges, charge_row, net_row, Row,
}
use bormo_stats.Economics.State.{
  find_key, Economics, update_row, net, net_rows, net_rows-update_row, net-charge_row,
}
use bormo_stats.Economics.Accruals.{negate}
use bormo_stats.Economics.Buyouts.{EconomicsError, not_reconciled, total_changed, has_key}
use bormo_stats.Economics.Allocation.{
  add_charges, is_reconciled, check_reconciled, amounts, are_zero, all_zero, empty_pool, allocate,
  AdCost, found, bind_cost, Binding, bind_one, bind_all, bind_ad_costs,
}
use bormo_stats.Economics.Balance.{IsOff}

total-add_charges :
    (p c : Charges) → total_charges (add_charges p c) ≡ total_charges c +ℤ total_charges p
unfolding total_charges add_charges
total-add_charges p c = omega int_laws

zero_is : (a : ℤ) → is_zero a ≡ true → a ≡ pos 0
zero_is a h = ground arith

unfoldable sum_of : List ℤ → ℤ
sum_of [] = pos 0
sum_of (a ∷ rest) = a +ℤ sum_of rest

sum_of-are_zero : (amts : List ℤ) → are_zero amts ≡ true → sum_of amts ≡ pos 0
unfolding sum_of are_zero
sum_of-are_zero [] h = refl
sum_of-are_zero (a ∷ rest) h =
    let z : a ≡ pos 0 = zero_is a (ground arith) in
    rw (z, sum_of-are_zero rest (ground arith)) (omega int_laws)

all_zero_total : (p : Charges) → all_zero p ≡ true → total_charges p ≡ pos 0
unfolding total_charges sum_of
all_zero_total p h =
    let same : total_charges p ≡ sum_of (amounts p) = omega int_laws in
    same ∙ sum_of-are_zero (amounts p) h

add_charges_row :
    (p : Charges) (r : Row)
    → net_row (record r { charges = add_charges p r.charges }) ≡ net_row r -ℤ total_charges p
unfolding net_row
add_charges_row p r = rw (total-add_charges p r.charges) (omega int_laws)

total-no_charges : total_charges no_charges ≡ pos 0
unfolding total_charges ◌+ℤ◌
total-no_charges = refl

pub net_rows-empty_pool : (e : Economics) → net_rows (empty_pool e).rows ≡ net e
unfolding net empty_pool
net_rows-empty_pool e = by_flag (all_zero e.pool) (all_zero_total e.pool)
  where
    by_flag :
        (nothing : Bool)
        → (nothing ≡ true → total_charges e.pool ≡ pos 0)
        → net_rows (
            if nothing
            then e.rows
            else update_row "unallocated"
                (λ r. record r { charges = add_charges e.pool r.charges })
                e.rows)
          ≡ net_rows e.rows -ℤ total_charges e.pool
    by_flag true z = rw (z refl) (omega int_laws)
    by_flag false z =
        rw
          (net_rows-update_row "unallocated"
            (λ r. record r { charges = add_charges e.pool r.charges })
            (pos 0 -ℤ total_charges e.pool) e.rows (λ r. add_charges_row e.pool r ∙ omega int_laws))
          (omega int_laws)

net-empty_pool : (e : Economics) → net (empty_pool e) ≡ net e
unfolding net empty_pool
net-empty_pool e =
    let none_left : total_charges (empty_pool e).pool ≡ pos 0 = total-no_charges in
    rw (net_rows-empty_pool e, none_left) (omega int_laws)

raw-empty_pool : (e : Economics) → e.raw_total ≡ (empty_pool e).raw_total
unfolding empty_pool
raw-empty_pool e = refl

off_by : (g raw : ℤ) → abs (raw +ℤ g -ℤ raw) ≡ abs g
off_by g raw = ap abs (omega int_laws)

reconciled_lem :
    (cent g : ℤ) (e : Economics) → IsOff g e → is_reconciled cent e ≡ not (ltb_ℤ cent (abs g))
reconciled_lem cent g e b = rw (b, off_by g e.raw_total) refl

checked :
    {A : Type 0} (cent g : ℤ) (x : EconomicsError) (a : A) (e : Economics)
    → IsOff g e
    → check_reconciled cent x a e ≡ (if ltb_ℤ cent (abs g) then err x else ok a, e)
unfolding check_reconciled net abs
checked {A} cent g x a e b = rw (reconciled_lem cent g e b) (by_flag (ltb_ℤ cent (abs g)))
  where
    by_flag :
        (over : Bool)
        → ◌≡◌ {A = Result EconomicsError A × Economics}
            (if not over then (ok a, e) else (err x, e))
            (if over then err x else ok a, e)
    by_flag true = refl
    by_flag false = refl

-- `allocate` raises just where the figures are off by more than a cent; in each case it has moved
-- the pool to the rows, which then sum to the total of the operations and what they are off by.
pub allocate_lem :
    (cent g : ℤ) (e : Economics)
    → IsOff g e
    → (allocate cent e
        ≡ (if ltb_ℤ cent (abs g) then err not_reconciled else ok e.pool, empty_pool e))
      × (net_rows (empty_pool e).rows ≡ e.raw_total +ℤ g)
unfolding allocate net
allocate_lem cent g e b =
    let off : IsOff g (empty_pool e) = net-empty_pool e ∙ b ∙ ap (λ x. x +ℤ g) (raw-empty_pool e) in
    (checked cent g not_reconciled e.pool (empty_pool e) off, net_rows-empty_pool e ∙ b)

charge_both : (r : Row) (x : Expense) (a : ℤ) → net_row (charge_row x a r) ≡ net_row r +ℤ negate a
charge_both r x a = net-charge_row x a r ∙ omega int_laws

net-bind_cost : (c : AdCost) (e : Economics) → net (bind_cost c e) ≡ net e
unfolding bind_cost net
net-bind_cost c e = by_cost (is_zero c.cost)
  where
    by_cost :
        (nothing : Bool)
        → net (
            if nothing then e else record e {
              rows =
                  update_row "unallocated"
                    (charge_row marketing (negate c.cost))
                    (update_row c.sku (charge_row marketing c.cost) e.rows);
            })
          ≡ net e
    by_cost true = refl
    by_cost false =
        rw
          (
            net_rows-update_row "unallocated" (charge_row marketing (negate c.cost))
                (negate (negate c.cost)) (update_row c.sku (charge_row marketing c.cost) e.rows)
                (λ r. charge_both r marketing (negate c.cost)),
            net_rows-update_row c.sku (charge_row marketing c.cost) (negate c.cost) e.rows
                (λ r. charge_both r marketing c.cost),
          )
          (omega int_laws)

raw-bind_cost : (c : AdCost) (e : Economics) → (bind_cost c e).raw_total ≡ e.raw_total
unfolding bind_cost
raw-bind_cost c e = ground arith

-- The figures of one state are worth as much as those of another, of the same total.
abbrev pub IsWorth : Economics → Economics → Type 0
IsWorth e d = (net d ≡ net e) × (d.raw_total ≡ e.raw_total)

one-IsWorth :
    (c : AdCost) (e : Economics) (b : Binding) → IsWorth e b.state → IsWorth e (bind_one c b).state
unfolding bind_one net
one-IsWorth c e b (n, r) = by_flag (found (find_key c.campaign b.state.campaign_charges))
  where
    by_flag :
        (charged : Bool)
        → IsWorth e
            (if charged
              then record {
                linked = b.linked +ℤ c.cost;
                matched =
                    if is_zero c.cost || has_key c.campaign b.matched
                    then b.matched
                    else c.campaign ∷ b.matched;
                state = bind_cost c b.state;
              }
              else b).state
    by_flag true = (net-bind_cost c b.state ∙ n, raw-bind_cost c b.state ∙ r)
    by_flag false = (n, r)

all-IsWorth :
    (cs : List AdCost) (e : Economics) (b : Binding)
    → IsWorth e b.state
    → IsWorth e (bind_all cs b).state
unfolding bind_all
all-IsWorth [] e b h = h
all-IsWorth (c ∷ cs) e b h = all-IsWorth cs e (bind_one c b) (one-IsWorth c e b h)

abbrev pub bound : List AdCost → Economics → Binding
bound costs e = bind_all costs (record { linked = pos 0; matched = []; state = e })

-- `bind_ad_costs` moves costs between the rows only, so it leaves what the figures are off by, and
-- it raises just where that is more than a cent.
pub bind_lem :
    (cent g : ℤ) (costs : List AdCost) (e : Economics)
    → IsOff g e
    → let b = bound costs e in
      (bind_ad_costs cent costs e ≡ (
        if ltb_ℤ cent (abs g) then err total_changed else ok (b.linked, length b.matched),
        b.state,
      ))
      × IsWorth e b.state
      × IsOff g b.state
unfolding bind_ad_costs net
bind_lem cent g costs e k =
    let b = bound costs e in
    let (n, r) =
      all-IsWorth costs e (record { linked = pos 0; matched = []; state = e }) (refl, refl) in
    let off : IsOff g b.state = n ∙ k ∙ ap (λ x. x +ℤ g) (sym r) in
    (checked cent g total_changed (b.linked, length b.matched) b.state off, (n, r), off)
