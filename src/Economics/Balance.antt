-- ===== src/Economics/Balance.antt =====
-- The net sum and the total under `add`, `add_buyouts` and `add_standardized_sale`.
use bormo_stats.Base.{
  suc, String, ◌≡◌, refl, ap, sym, ◌∙◌, Bool, true, false, not, ◌||◌, Option, none, some, List, [],
  ◌∷◌, str_eq, if◌then◌else◌, All,
}
use bormo_stats.Base.Int.{ℤ, pos, ◌+ℤ◌, ◌-ℤ◌, ◌*ℤ◌, is_zero, int_laws, +ℤ_swap}
use mathlib.Core.Path.{subst}
use bormo_stats.Base.Results.{Result, ok, err, Exec, ok_injective}
use bormo_stats.Economics.Rows.{charge, net_row, Row}
use bormo_stats.Economics.State.{
  Key, Domestic, Buyout, Economics, update_row, find_key, net, net-update_row,
}
use bormo_stats.Economics.Accruals.{Operation, add}
use bormo_stats.Economics.Buyouts.{
  EconomicsError, RawBuyout, row_without_identity, duplicate_row, invalid_quantity, read_row,
  read_amounts, parse_buyout, has_key, cons_result, parse_buyouts, buyout_eq, move_abroad,
  foreign_row, identity, add_new, add_buyout, after_turn, add_buyout_list, add_parsed, add_buyouts,
  is_positive,
}
use bormo_stats.Economics.Allocation.{Sale, or_unallocated, standardized_row, add_standardized_sale}
use bormo_stats.Economics.Attribution.{net-add}

-- The articles and the pool together are worth the sum of the operations and `g`.
abbrev pub IsOff : ℤ → Economics → Type 0
IsOff g e = net e ≡ e.raw_total +ℤ g

-- An update of one row that adds to the net sum what the total grows by.
pub update-IsOff :
    (g : ℤ) (sku : String) (f : Row → Row) (d : ℤ) (e : Economics)
    → ((r : Row) → net_row (f r) ≡ net_row r +ℤ d)
    → IsOff g e
    → net (record e { rows = update_row sku f e.rows }) ≡ e.raw_total +ℤ d +ℤ g
update-IsOff g sku f d e h b =
    net-update_row sku f d e h ∙ ap (λ x. x +ℤ d) b ∙ +ℤ_swap e.raw_total g d

pub add-IsOff : (g : ℤ) (op : Operation) (e : Economics) → IsOff g e → IsOff g (add op e)
add-IsOff g op e b =
    let (n, r) = net-add op e in
    n
    ∙ ap (λ x. x +ℤ op.total_amount) b
    ∙ +ℤ_swap e.raw_total g op.total_amount
    ∙ ap (λ x. x +ℤ g) (sym r)

net-standardized_row :
    (s : Sale) (r : Row)
    → net_row (standardized_row s r)
      ≡ net_row r +ℤ (s.revenue -ℤ s.commission -ℤ s.acquiring -ℤ s.logistics)
unfolding net_row standardized_row charge
net-standardized_row s r = omega int_laws

pub standardized-IsOff :
    (g : ℤ) (s : Sale) (e : Economics) → IsOff g e → IsOff g (add_standardized_sale s e)
unfolding add_standardized_sale net
standardized-IsOff g s e b =
    update-IsOff g (or_unallocated s.sku) (standardized_row s)
      (s.revenue -ℤ s.commission -ℤ s.acquiring -ℤ s.logistics) e (net-standardized_row s) b

-- A parsed row: what the marketplace keeps is the gross without the receipt.
abbrev pub IsConsistent : Buyout → Type 0
IsConsistent b = b.gross ≡ b.receipt +ℤ b.deduction

read-IsConsistent :
    (row : RawBuyout) (q price amount : Option ℤ) (b : Buyout)
    → read_amounts row q price amount ≡ ok b
    → IsConsistent b
unfolding read_amounts
read-IsConsistent row none price amount b h = cc
read-IsConsistent row (some q) none amount b h = cc
read-IsConsistent row (some q) (some price) none b h = cc
read-IsConsistent row (some q) (some price) (some amount) b h =
    by_flag (is_zero q || not row.whole) h
  where
    exact : price *ℤ q ≡ amount +ℤ (price *ℤ q -ℤ amount)
    exact = omega int_laws

    by_flag :
        (bad : Bool)
        → (if bad then err invalid_quantity else ok (read_row row q price amount)) ≡ ok b
        → IsConsistent b
    by_flag true e = cc
    by_flag false e = subst IsConsistent (ok_injective e) exact

parse-IsConsistent :
    (seen : List Key) (row : RawBuyout) (b : Buyout) → parse_buyout seen row ≡ ok b → IsConsistent b
unfolding parse_buyout
parse-IsConsistent seen row b h =
    by_flags (not (is_positive row.sku) || str_eq row.posting_number "")
      (has_key (row.posting_number, row.sku) seen) h
  where
    by_flags :
        (nameless again : Bool)
        → (if nameless
            then err row_without_identity
            else if again
            then err duplicate_row
            else read_amounts row row.quantity row.seller_price_per_instance row.amount)
          ≡ ok b
        → IsConsistent b
    by_flags true again e = cc
    by_flags false true e = cc
    by_flags false false e =
        read-IsConsistent row row.quantity row.seller_price_per_instance row.amount b e

cons-IsConsistent :
    (first : Result EconomicsError Buyout) (rest : Result EconomicsError (List Buyout))
    (bs : List Buyout)
    → ((b : Buyout) → first ≡ ok b → IsConsistent b)
    → ((cs : List Buyout) → rest ≡ ok cs → All IsConsistent cs)
    → cons_result first rest ≡ ok bs
    → All IsConsistent bs
unfolding cons_result
cons-IsConsistent (err x) rest bs h k e = cc
cons-IsConsistent (ok b) (err x) bs h k e = cc
cons-IsConsistent (ok b) (ok cs) bs h k e =
    subst (All IsConsistent) (ok_injective e) (h b refl, k cs refl)

-- What is parsed is consistent.
parse_buyouts-IsConsistent :
    (seen : List Key) (rows : List RawBuyout) (bs : List Buyout)
    → parse_buyouts seen rows ≡ ok bs
    → All IsConsistent bs
unfolding parse_buyouts
parse_buyouts-IsConsistent seen [] bs e = subst (All IsConsistent) (ok_injective e) tt
parse_buyouts-IsConsistent seen (row ∷ rows) bs e =
    cons-IsConsistent (parse_buyout seen row)
      (parse_buyouts ((row.posting_number, row.sku) ∷ seen) rows) bs
      (λ b h. parse-IsConsistent seen row b h)
      (λ cs h. parse_buyouts-IsConsistent ((row.posting_number, row.sku) ∷ seen) rows cs h) e

net-move_abroad : (d : Domestic) (r : Row) → net_row (move_abroad d r) ≡ net_row r +ℤ pos 0
unfolding net_row move_abroad
net-move_abroad d r = omega int_laws

net-foreign_row :
    (b : Buyout) (r : Row) → IsConsistent b → net_row (foreign_row b r) ≡ net_row r +ℤ b.receipt
unfolding net_row foreign_row
net-foreign_row b r h = rw h (omega int_laws)

add_new-IsOff :
    (g : ℤ) (month : String) (b : Buyout) (d : Option Domestic) (e : Economics)
    → IsConsistent b
    → IsOff g e
    → IsOff g (add_new month b d e)
unfolding add_new net
add_new-IsOff g month b (some d) e h k =
    update-IsOff g b.sku (move_abroad d) (pos 0) e (net-move_abroad d) k ∙ omega int_laws
add_new-IsOff g month b none e h k =
    update-IsOff g b.sku (foreign_row b) b.receipt e (λ r. net-foreign_row b r h) k

add_buyout-IsOff :
    (g : ℤ) (month : String) (b : Buyout) (seen : Option Buyout) (e : Economics)
    → IsConsistent b
    → IsOff g e
    → IsOff g (add_buyout month b seen e).1
unfolding add_buyout net
add_buyout-IsOff g month b none e h k =
    add_new-IsOff g month b (find_key (identity b) e.domestic_sales) e h k
add_buyout-IsOff g month b (some seen) e h k = by_flag (buyout_eq seen b)
  where
    by_flag :
        (same : Bool)
        → let turn : Bool × Economics =
            if same
            then (true, record e { buyout_overlap_count = suc e.buyout_overlap_count })
            else (false, e) in
          IsOff g turn.1
    by_flag true = k
    by_flag false = k

turn-IsOff :
    (g : ℤ) (went_on : Bool) (rest : Exec Economics EconomicsError Unit) (e : Economics)
    → IsOff g e
    → IsOff g (rest e).1
    → IsOff g (after_turn went_on rest e).1
unfolding after_turn
turn-IsOff g true rest e h k = k
turn-IsOff g false rest e h k = h

list-IsOff :
    (g : ℤ) (month : String) (bs : List Buyout) (e : Economics)
    → All IsConsistent bs
    → IsOff g e
    → IsOff g (add_buyout_list month bs e).1
unfolding add_buyout_list
list-IsOff g month [] e h k = k
list-IsOff g month (b ∷ bs) e h k =
    let (went_on, e') = add_buyout month b (find_key (identity b) e.seen_buyouts) e in
    let k' = add_buyout-IsOff g month b (find_key (identity b) e.seen_buyouts) e h.0 k in
    turn-IsOff g went_on (add_buyout_list month bs) e' k' (list-IsOff g month bs e' h.1 k')

parsed-IsOff :
    (g : ℤ) (month : String) (parsed : Result EconomicsError (List Buyout)) (e : Economics)
    → ((bs : List Buyout) → parsed ≡ ok bs → All IsConsistent bs)
    → IsOff g e
    → IsOff g (add_parsed month parsed e).1
unfolding add_parsed
parsed-IsOff g month (err x) e h k = k
parsed-IsOff g month (ok bs) e h k = list-IsOff g month bs e (h bs refl) k

-- Whatever the report holds, also where it is refused half-way.
pub buyouts-IsOff :
    (g : ℤ) (month : String) (rows : List RawBuyout) (e : Economics)
    → IsOff g e
    → IsOff g (add_buyouts month rows e).1
unfolding add_buyouts
buyouts-IsOff g month rows e k =
    parsed-IsOff g month (parse_buyouts [] rows) e (λ bs h. parse_buyouts-IsConsistent [] rows bs h)
      k
