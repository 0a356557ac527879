-- ===== src/Economics/History.antt =====
-- Sequences of calls of the methods of AccrualEconomics.
use bormo_stats.Base.{String, ◌≡◌, refl, sym, List, [], ◌∷◌, length, if◌then◌else◌}
use bormo_stats.Base.Int.{ℤ, pos, ◌+ℤ◌, ◌-ℤ◌, ltb_ℤ, abs, int_laws}
use bormo_stats.Base.Results.{ok, err}
use bormo_stats.Economics.Rows.{total_charges}
use bormo_stats.Economics.State.{Economics, empty, net, net_rows}
use bormo_stats.Economics.Accruals.{Operation, add}
use bormo_stats.Economics.Buyouts.{RawBuyout, not_reconciled, total_changed, add_buyouts}
use bormo_stats.Economics.Allocation.{
  empty_pool, allocate, AdCost, bind_ad_costs, Sale, add_standardized_sale,
}
use bormo_stats.Economics.Realization.{Line, add_wb_realization_row}
use bormo_stats.Economics.Balance.{IsOff, add-IsOff, standardized-IsOff, buyouts-IsOff}
use bormo_stats.Economics.Lines.{overpaid, line-IsOff}
use bormo_stats.Economics.Reconciliation.{allocate_lem, bound, bind_lem}
use mathlib.Core.Path.{subst}

-- A call of one of the methods that change the figures.
pub data Event : Type 0 where
  accrual : Operation → Event
  buyout_report : String → List RawBuyout → Event
  standardized : Sale → Event
  realization : Line → Event
  ad_costs : List AdCost → Event

-- The state after a call, also where it raised.
unfoldable pub step : ℤ → Event → Economics → Economics
unfolding add add_buyouts add_standardized_sale add_wb_realization_row bind_ad_costs
step cent (accrual op) e = add op e
step cent (buyout_report month rows) e = (add_buyouts month rows e).1
step cent (standardized s) e = add_standardized_sale s e
step cent (realization p) e = add_wb_realization_row p e
step cent (ad_costs costs) e = (bind_ad_costs cent costs e).1

unfoldable pub run : ℤ → List Event → Economics → Economics
unfolding step
run cent [] e = e
run cent (x ∷ xs) e = run cent xs (step cent x e)

-- What a call adds to the difference: only lines that overpay do.
unfoldable pub excess : Event → ℤ
unfolding overpaid
excess (realization p) = overpaid p
excess (accrual op) = pos 0
excess (buyout_report month rows) = pos 0
excess (standardized s) = pos 0
excess (ad_costs costs) = pos 0

unfoldable pub excess_all : List Event → ℤ
unfolding excess
excess_all [] = pos 0
excess_all (x ∷ xs) = excess x +ℤ excess_all xs

plus_zero : (g : ℤ) (e : Economics) → IsOff g e → IsOff (g +ℤ pos 0) e
plus_zero g e h = let same : g ≡ g +ℤ pos 0 = omega int_laws in subst (λ d. IsOff d e) same h

step-IsOff :
    (cent g : ℤ) (x : Event) (e : Economics) → IsOff g e → IsOff (g +ℤ excess x) (step cent x e)
unfolding step excess net
step-IsOff cent g (accrual op) e h = plus_zero g (add op e) (add-IsOff g op e h)
step-IsOff cent g (buyout_report month rows) e h =
    plus_zero g (add_buyouts month rows e).1 (buyouts-IsOff g month rows e h)
step-IsOff cent g (standardized s) e h =
    plus_zero g (add_standardized_sale s e) (standardized-IsOff g s e h)
step-IsOff cent g (realization p) e h = line-IsOff g p e h
step-IsOff cent g (ad_costs costs) e h =
    let (same, _, off) = bind_lem cent g costs e h in
    subst (λ s. IsOff (g +ℤ pos 0) s.1) (sym same) (plus_zero g (bound costs e).state off)

run-IsOff :
    (cent g : ℤ) (xs : List Event) (e : Economics)
    → IsOff g e
    → IsOff (g +ℤ excess_all xs) (run cent xs e)
unfolding run excess_all
run-IsOff cent g [] e h = plus_zero g e h
run-IsOff cent g (x ∷ xs) e h =
    let same : g +ℤ excess x +ℤ excess_all xs ≡ g +ℤ (excess x +ℤ excess_all xs) = omega int_laws in
    subst (λ d. IsOff d (run cent xs (step cent x e))) same
      (run-IsOff cent (g +ℤ excess x) xs (step cent x e) (step-IsOff cent g x e h))

empty-IsOff : IsOff (pos 0) empty
unfolding net net_rows total_charges ◌+ℤ◌ ◌-ℤ◌
empty-IsOff = refl

run-empty-IsOff : (cent : ℤ) (xs : List Event) → IsOff (excess_all xs) (run cent xs empty)
run-empty-IsOff cent xs =
    let same : pos 0 +ℤ excess_all xs ≡ excess_all xs = omega int_laws in
    subst (λ d. IsOff d (run cent xs empty)) same (run-IsOff cent (pos 0) xs empty empty-IsOff)

-- After any sequence of accruals, buyout reports (also refused ones), standardized sales,
-- realization lines and advertising costs, from the empty figures: `allocate` raises exactly where
-- the lines overpaid by more than a cent in sum, and returns the pool otherwise; and the rows that
-- it leaves sum to the total of the operations and what was overpaid.
pub allocate-run :
    (cent : ℤ) (xs : List Event)
    → let e = run cent xs empty in
      (allocate cent e ≡ (
        if ltb_ℤ cent (abs (excess_all xs)) then err not_reconciled else ok e.pool,
        empty_pool e,
      ))
      × (net_rows (empty_pool e).rows ≡ e.raw_total +ℤ excess_all xs)
allocate-run cent xs =
    allocate_lem cent (excess_all xs) (run cent xs empty) (run-empty-IsOff cent xs)

-- After any such sequence of calls, `bind_ad_costs` leaves the sum of the articles and the pool and
-- the total of the operations as they are, and raises exactly where the lines overpaid by more than
-- a cent in sum; otherwise it returns what its loop linked and the number of the campaigns.
pub bind_ad_costs-run :
    (cent : ℤ) (xs : List Event) (costs : List AdCost)
    → let e = run cent xs empty in
      let b = bound costs e in
      (bind_ad_costs cent costs e ≡ (
        if ltb_ℤ cent (abs (excess_all xs))
            then err total_changed
            else ok (b.linked, length b.matched),
        b.state,
      ))
      × (net b.state ≡ net e)
      × (b.state.raw_total ≡ e.raw_total)
bind_ad_costs-run cent xs costs =
    let (result, (n, r), _) =
      bind_lem cent (excess_all xs) costs (run cent xs empty) (run-empty-IsOff cent xs) in
    (result, n, r)
