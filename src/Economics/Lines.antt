-- ===== src/Economics/Lines.antt =====
-- `add_wb_realization_row`: the net sum and the total, line by line.
use mathlib.Core.Path.{subst}
use bormo_stats.Base.{suc, String, ◌≡◌, ap, ◌∙◌, Bool, true, false, if◌then◌else◌, arith}
use bormo_stats.Base.Int.{ℤ, pos, ◌+ℤ◌, ◌-ℤ◌, is_zero, abs, int_laws}
use bormo_stats.Economics.Rows.{
  Expense, acquiring, logistics, reverse_logistics, storage, cross_docking, other_services,
  charge_row, net_row, total_charges, Row,
}
use bormo_stats.Economics.State.{Economics, net, net-charge_row}
use bormo_stats.Economics.Accruals.{negate}
use bormo_stats.Economics.Balance.{IsOff, update-IsOff}
use bormo_stats.Economics.Realization.{
  Line, is_return, is_sale, article_of, seller_amount, not_negative, line_sale, line_return, book,
  book_goods, book_charge, add_wb_realization_row,
}

-- What a line pays for a sale, or takes back for a return, beyond the price of the goods.
unfoldable pub overpaid : Line → ℤ
unfolding is_sale is_return seller_amount abs
overpaid p =
    if is_sale p
    then negate (not_negative (p.for_pay -ℤ seller_amount p))
    else if is_return p
    then not_negative (abs p.for_pay -ℤ abs (seller_amount p))
    else pos 0

-- An update of a row and of the total: the difference of the two changes is added.
book-IsOff :
    (g : ℤ) (sku : String) (f : Row → Row) (d a : ℤ) (e : Economics)
    → ((r : Row) → net_row (f r) ≡ net_row r +ℤ (a +ℤ d))
    → IsOff g e
    → IsOff (g +ℤ d) (book sku f a e)
unfolding net
book-IsOff g sku f d a e h b = update-IsOff g sku f (a +ℤ d) e h b ∙ omega int_laws

not_negative_lem : (a : ℤ) → not_negative a ≡ a +ℤ not_negative (negate a)
unfolding ◌+ℤ◌ ◌-ℤ◌
not_negative_lem a = ground arith

-- The larger of a difference and zero, from the same of the difference the other way round.
clamp : (a b : ℤ) → not_negative (a -ℤ b) ≡ a -ℤ b +ℤ not_negative (b -ℤ a)
clamp a b =
    let flipped : negate (a -ℤ b) ≡ b -ℤ a = omega int_laws in
    not_negative_lem (a -ℤ b) ∙ ap (λ x. a -ℤ b +ℤ not_negative x) flipped

sale_amounts :
    (rev comm tot s pay m n : ℤ)
    → m ≡ s -ℤ pay +ℤ n
    → rev +ℤ s -ℤ (comm +ℤ m) -ℤ tot ≡ rev -ℤ comm -ℤ tot +ℤ (pay +ℤ negate n)
sale_amounts rev comm tot s pay m n h = rw h (omega int_laws)

return_amounts :
    (rev comm tot s pay m n : ℤ)
    → m ≡ s -ℤ pay +ℤ n
    → rev -ℤ s -ℤ (comm -ℤ m) -ℤ tot ≡ rev -ℤ comm -ℤ tot +ℤ (negate pay +ℤ n)
return_amounts rev comm tot s pay m n h = rw h (omega int_laws)

net-line_sale :
    (p : Line) (r : Row)
    → net_row (line_sale p r)
      ≡ net_row r +ℤ (p.for_pay +ℤ negate (not_negative (p.for_pay -ℤ seller_amount p)))
unfolding net_row line_sale
net-line_sale p r =
    let s = seller_amount p in
    sale_amounts r.revenue r.commission (total_charges r.charges) s p.for_pay
      (not_negative (s -ℤ p.for_pay)) (not_negative (p.for_pay -ℤ s)) (clamp s p.for_pay)

net-line_return :
    (p : Line) (r : Row)
    → net_row (line_return p r)
      ≡ net_row r
        +ℤ (negate (abs p.for_pay) +ℤ not_negative (abs p.for_pay -ℤ abs (seller_amount p)))
unfolding net_row line_return
net-line_return p r =
    let s = abs (seller_amount p) in
    return_amounts r.revenue r.commission (total_charges r.charges) s (abs p.for_pay)
      (not_negative (s -ℤ abs p.for_pay)) (not_negative (abs p.for_pay -ℤ s))
      (clamp s (abs p.for_pay))

goods-IsOff :
    (g : ℤ) (p : Line) (e : Economics) → IsOff g e → IsOff (g +ℤ overpaid p) (book_goods p e)
unfolding book_goods overpaid
goods-IsOff g p e b = by_flags (is_sale p) (is_return p)
  where
    by_flags :
        (sale returned : Bool)
        → IsOff
            (g
              +ℤ (if sale
                  then negate (not_negative (p.for_pay -ℤ seller_amount p))
                  else if returned
                  then not_negative (abs p.for_pay -ℤ abs (seller_amount p))
                  else pos 0))
            (if sale
              then book (article_of p) (line_sale p) p.for_pay e
              else if returned
              then book (article_of p) (line_return p) (negate (abs p.for_pay)) e
              else book (article_of p) (λ r. r) (pos 0) e)
    by_flags true returned =
        book-IsOff g (article_of p) (line_sale p)
          (negate (not_negative (p.for_pay -ℤ seller_amount p))) p.for_pay e (net-line_sale p) b
    by_flags false true =
        book-IsOff g (article_of p) (line_return p)
          (not_negative (abs p.for_pay -ℤ abs (seller_amount p))) (negate (abs p.for_pay)) e
          (net-line_return p) b
    by_flags false false =
        book-IsOff g (article_of p) (λ r. r) (pos 0) (pos 0) e (λ r. omega int_laws) b

charge-IsOff :
    (g : ℤ) (sku : String) (x : Expense) (a : ℤ) (e : Economics)
    → IsOff g e
    → IsOff g (book_charge sku x a e)
unfolding book_charge
charge-IsOff g sku x a e b = by_flag (is_zero a)
  where
    by_flag :
        (nothing : Bool) → IsOff g (if nothing then e else book sku (charge_row x a) (negate a) e)
    by_flag true = b
    by_flag false =
        let same : g +ℤ pos 0 ≡ g = omega int_laws in
        subst (λ h. IsOff h (book sku (charge_row x a) (negate a) e)) same
          (book-IsOff g sku (charge_row x a) (pos 0) (negate a) e
            (λ r. net-charge_row x a r ∙ omega int_laws) b)

-- A line moves the figures off the total by what it overpays, and by nothing else.
pub line-IsOff :
    (g : ℤ) (p : Line) (e : Economics)
    → IsOff g e
    → IsOff (g +ℤ overpaid p) (add_wb_realization_row p e)
unfolding add_wb_realization_row net
line-IsOff g p e b =
    let sku = article_of p in
    let h = g +ℤ overpaid p in
    let start : Economics = record e { operations = suc e.operations } in
    let goods = book_goods p start in
    let acquired = book_charge sku acquiring (abs p.acquiring_fee) goods in
    let delivered =
      book_charge sku (if is_return p then reverse_logistics else logistics) (abs p.delivery)
        acquired in
    let stored = book_charge sku storage (abs p.storage_fee) delivered in
    let accepted = book_charge sku cross_docking (abs p.acceptance) stored in
    let penalized = book_charge sku other_services (abs p.penalty +ℤ abs p.deduction) accepted in
    charge-IsOff h sku other_services (negate p.additional_payment) penalized (
      charge-IsOff h sku other_services (abs p.penalty +ℤ abs p.deduction) accepted (
        charge-IsOff h sku cross_docking (abs p.acceptance) stored (
          charge-IsOff h sku storage (abs p.storage_fee) delivered (
            charge-IsOff h sku (if is_return p then reverse_logistics else logistics)
              (abs p.delivery) acquired
              (charge-IsOff h sku acquiring (abs p.acquiring_fee) goods
                (goods-IsOff g p start b))))))
