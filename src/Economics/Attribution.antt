-- ===== src/Economics/Attribution.antt =====
-- `add`, `fee` and the loops over products and fees: the net sum of the articles and the pool.
use bormo_stats.Base.{
  suc, String, ◌≡◌, refl, ◌∙◌, Bool, true, false, Option, none, some, List, [], ◌∷◌, str_eq,
  if◌then◌else◌, arith,
}
use bormo_stats.Base.Int.{ℤ, pos, ◌+ℤ◌, ◌-ℤ◌, is_zero, int_laws}
use bormo_stats.Economics.Rows.{
  charge_row, net_row, category, other_accruals, other_services, charge, Row,
}
use bormo_stats.Economics.State.{
  Economics, update_row, add_at, net, net-charge_row, net-update_row, net-charge,
}
use bormo_stats.Economics.Accruals.{
  Fee, Product, ItemFees, Operation, negate, add_fee, add_fees, sale_row, add_sale, sale_or_touch,
  fees_total, add_difference, add_product, add_products, add_item_fees, is_campaign,
  add_non_item_fee, attributed, close_operation, add,
}

-- What a loop has added so far is what it says it has added, and the sum of the operations stays.
abbrev Tracks : ℤ → ℤ → Economics × ℤ → Type 0
Tracks base raw (e, delta) = (net e ≡ base +ℤ delta) × (e.raw_total ≡ raw)

unchanged :
    (sku : String) (e : Economics)
    → net (record e { rows = update_row sku (λ r. r) e.rows }) ≡ net e
unchanged sku e = rw (net-update_row sku (λ r. r) (pos 0) e (λ r. omega int_laws)) (omega int_laws)

net-add_fee :
    (sku : String) (fee : Fee) (e : Economics) → net (add_fee sku fee e) ≡ net e +ℤ fee.accrued
unfolding add_fee
net-add_fee sku fee e = by_sku (str_eq sku "")
  where
    by_sku :
        (pooled : Bool)
        → net (
            if pooled
            then record e { pool = charge (category fee.type_id) (negate fee.accrued) e.pool }
            else record e {
              rows = update_row sku (charge_row (category fee.type_id) (negate fee.accrued)) e.rows;
            })
          ≡ net e +ℤ fee.accrued
    by_sku true = rw (net-charge (category fee.type_id) (negate fee.accrued) e) (omega int_laws)
    by_sku false =
        net-update_row sku (charge_row (category fee.type_id) (negate fee.accrued)) fee.accrued e
          λ r. rw (net-charge_row (category fee.type_id) (negate fee.accrued) r) (omega int_laws)

raw-add_fee :
    (sku : String) (fee : Fee) (e : Economics) → (add_fee sku fee e).raw_total ≡ e.raw_total
unfolding add_fee
raw-add_fee sku fee e = ground arith

one_more : (a b c n : ℤ) → n ≡ a +ℤ b → n +ℤ c ≡ a +ℤ (b +ℤ c)
one_more a b c n h = rw h (omega int_laws)

fees-Tracks :
    (base raw : ℤ) (sku : String) (fees : List Fee) (s : Economics × ℤ)
    → Tracks base raw s
    → Tracks base raw (add_fees sku fees s)
unfolding add_fees
fees-Tracks base raw sku [] s h = h
fees-Tracks base raw sku (fee ∷ fees) (e, delta) (n, r) =
    fees-Tracks base raw sku fees (add_fee sku fee e, delta +ℤ fee.accrued)
      (net-add_fee sku fee e ∙ one_more base delta fee.accrued (net e) n, raw-add_fee sku fee e ∙ r)

net-sale_row :
    (p : Product) (r : Row) → net_row (sale_row p r) ≡ net_row r +ℤ (p.sale_amount +ℤ p.commission)
unfolding net_row sale_row
net-sale_row p r = omega int_laws

net-add_sale :
    (op : Operation) (p : Product) (e : Economics)
    → net (add_sale op p e) ≡ net e +ℤ (p.sale_amount +ℤ p.commission)
unfolding add_sale net
net-add_sale op p e =
    net-update_row p.sku (sale_row p) (p.sale_amount +ℤ p.commission) e (net-sale_row p)

sale-Tracks :
    (base raw : ℤ) (op : Operation) (p : Product) (s : Economics × ℤ)
    → Tracks base raw s
    → Tracks base raw (sale_or_touch op p s)
unfolding sale_or_touch add_sale
sale-Tracks base raw op p (e, delta) (n, r) = by_amount (is_zero p.sale_amount)
  where
    by_amount :
        (zero : Bool)
        → Tracks base raw (
            if zero
            then (record e { rows = update_row p.sku (λ r. r) e.rows }, delta)
            else (add_sale op p e, delta +ℤ (p.sale_amount +ℤ p.commission)))
    by_amount true = (unchanged p.sku e ∙ n, r)
    by_amount false =
        (net-add_sale op p e ∙ one_more base delta (p.sale_amount +ℤ p.commission) (net e) n, r)

difference-Tracks :
    (base raw : ℤ) (p : Product) (s : Economics × ℤ)
    → Tracks base raw s
    → Tracks base raw (add_difference p s)
unfolding add_difference
difference-Tracks base raw p (e, delta) (n, r) =
    let diff = p.total_accrued -ℤ fees_total p.services in
    (
      net-update_row p.sku (charge_row other_services (negate diff)) diff e
            (λ row. rw (net-charge_row other_services (negate diff) row) (omega int_laws))
          ∙ one_more base delta diff (net e) n,
      r,
    )

product-Tracks :
    (base raw : ℤ) (op : Operation) (p : Product) (s : Economics × ℤ)
    → Tracks base raw s
    → Tracks base raw (add_product op p s)
unfolding add_product
product-Tracks base raw op p s h = by_sku (str_eq p.sku "")
  where
    by_sku :
        (skipped : Bool)
        → Tracks base raw (
            if skipped
            then s
            else add_difference p (add_fees p.sku p.services (sale_or_touch op p s)))
    by_sku true = h
    by_sku false = difference-Tracks base raw p (add_fees p.sku p.services (sale_or_touch op p s)) (
        fees-Tracks base raw p.sku p.services (sale_or_touch op p s)
          (sale-Tracks base raw op p s h))

products-Tracks :
    (base raw : ℤ) (op : Operation) (ps : List Product) (s : Economics × ℤ)
    → Tracks base raw s
    → Tracks base raw (add_products op ps s)
unfolding add_products
products-Tracks base raw op [] s h = h
products-Tracks base raw op (p ∷ ps) s h =
    products-Tracks base raw op ps (add_product op p s) (product-Tracks base raw op p s h)

items-Tracks :
    (base raw : ℤ) (items : List ItemFees) (s : Economics × ℤ)
    → Tracks base raw s
    → Tracks base raw (add_item_fees items s)
unfolding add_item_fees
items-Tracks base raw [] s h = h
items-Tracks base raw (item ∷ items) s h =
    items-Tracks base raw items (add_fees item.sku item.fees s)
      (fees-Tracks base raw item.sku item.fees s h)

non_item-Tracks :
    (base raw : ℤ) (op : Operation) (fee : Option Fee) (s : Economics × ℤ)
    → Tracks base raw s
    → Tracks base raw (add_non_item_fee op fee s)
unfolding add_non_item_fee net
non_item-Tracks base raw op none s h = h
non_item-Tracks base raw op (some fee) (e, delta) (n, r) = by_type (is_campaign fee.type_id)
  where
    by_type :
        (campaign : Bool)
        → Tracks base raw (
          if campaign
              then record (add_fee "" fee e) {
                campaign_charges =
                    add_at
                      (op.date, op.unit_number)
                      (negate fee.accrued)
                      (add_fee "" fee e).campaign_charges;
              }
              else add_fee "" fee e,
          delta +ℤ fee.accrued,
        )
    by_type true =
        (net-add_fee "" fee e ∙ one_more base delta fee.accrued (net e) n, raw-add_fee "" fee e ∙ r)
    by_type false =
        (net-add_fee "" fee e ∙ one_more base delta fee.accrued (net e) n, raw-add_fee "" fee e ∙ r)

attributed-Tracks : (op : Operation) (e : Economics) → Tracks (net e) e.raw_total (attributed op e)
unfolding attributed
attributed-Tracks op e =
    let base = net e in
    let raw = e.raw_total in
    let products = add_products op op.products (e, pos 0) in
    let items = add_item_fees op.item_fees products in
    let non_item = add_non_item_fee op op.non_item_fee items in
    fees-Tracks base raw "" op.container_fees non_item (
      non_item-Tracks base raw op op.non_item_fee items (
        items-Tracks base raw op.item_fees products
          (products-Tracks base raw op op.products (e, pos 0) (omega int_laws, refl))))

close_lem :
    (op : Operation) (base raw : ℤ) (s : Economics × ℤ)
    → Tracks base raw s
    → (net (close_operation op s) ≡ base +ℤ op.total_amount)
      × ((close_operation op s).raw_total ≡ raw)
unfolding close_operation net
close_lem op base raw (e, delta) (n, r) =
    (net-charge other_accruals (negate (op.total_amount -ℤ delta)) e ∙ rw n (omega int_laws), r)

-- An operation adds exactly its total amount to the net sum of the articles and the pool, whatever
-- its products and fees are, and the same to the total of the operations.
pub net-add :
    (op : Operation) (e : Economics)
    → (net (add op e) ≡ net e +ℤ op.total_amount)
      × ((add op e).raw_total ≡ e.raw_total +ℤ op.total_amount)
unfolding add net
net-add op e =
    let e' = record e {
      raw_total = e.raw_total +ℤ op.total_amount;
      operations = suc e.operations;
    } in
    close_lem op (net e) (e.raw_total +ℤ op.total_amount) (attributed op e')
      (attributed-Tracks op e')
