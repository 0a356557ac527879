-- ===== src/Economics/Tests.antt =====
-- Examples of the figures: a posting with a sale and a service, an advertising charge, a report of
-- buyouts, and a line of Wildberries that pays more than its goods are worth.
use bormo_stats.Base.{◌≡◌, refl, List, [], ◌∷◌, none, some, true, ◌+◌}
use bormo_stats.Base.Int.{pos, negsuc, ◌+ℤ◌, ◌-ℤ◌, ◌*ℤ◌, abs}
use bormo_stats.Base.Results.{ok, err}
use bormo_stats.Economics.State.{empty, net, net_rows}
use bormo_stats.Economics.Accruals.{Operation, add}
use bormo_stats.Economics.Buyouts.{RawBuyout, not_reconciled, add_buyouts}
use bormo_stats.Economics.Allocation.{empty_pool, allocate, AdCost}
use bormo_stats.Economics.Realization.{Line}
use bormo_stats.Economics.Attribution.{net-add}
use bormo_stats.Economics.History.{Event, accrual, realization, run, excess_all, allocate-run}
use bormo_stats.Economics.Repeats.{add_buyouts-again}

abbrev posting : Operation
posting = record {
  total_amount = pos 700;
  date = "2026-07-01";
  month = "2026-07";
  unit_number = "P-1";
  products =
      record {
        sku = "11";
        sale_amount = pos 1000;
        sale_price = pos 900;
        commission = negsuc 199;
        quantity = pos 2;
        services = record { accrued = negsuc 49; type_id = 32 } ∷ [];
        total_accrued = negsuc 69;
      }
      ∷ [];
  item_fees = [];
  non_item_fee = none;
  container_fees = [];
}

abbrev campaign : Operation
campaign = record posting {
  total_amount = negsuc 299;
  unit_number = "C-1";
  products = [];
  non_item_fee = some (record { accrued = negsuc 299; type_id = 41 });
}

abbrev overpaying : Line
overpaying = record {
  nm_id = "77";
  doc_type = "продажа";
  oper_name = "";
  quantity = pos 1;
  retail_price = pos 100;
  retail_amount = pos 100;
  for_pay = pos 130;
  delivery = pos 20;
  storage_fee = pos 0;
  penalty = pos 0;
  deduction = pos 0;
  acceptance = pos 0;
  additional_payment = pos 0;
  acquiring_fee = pos 0;
}

abbrev events : List Event
events = accrual posting ∷ accrual campaign ∷ realization overpaying ∷ []

abbrev foreign : List RawBuyout
foreign =
    record {
      sku = "12";
      posting_number = "P-2";
      offer_id = "";
      title = "mug";
      quantity = some (pos 3);
      whole = true;
      seller_price_per_instance = some (pos 50);
      amount = some (pos 120);
    }
    ∷ []

abbrev ads : List AdCost
ads = record { campaign = ("2026-07-01", "C-1"); sku = "11"; cost = pos 200 } ∷ []

net-add_example :
    (net (add posting empty) ≡ net empty +ℤ pos 700) × ((add posting empty).raw_total ≡ pos 700)
unfolding ◌+ℤ◌
net-add_example = net-add posting empty

allocate-run_example :
    let e = run (pos 1) events empty in
    (allocate (pos 1) e ≡ (err not_reconciled, empty_pool e))
    × (net_rows (empty_pool e).rows ≡ e.raw_total +ℤ negsuc 29)
unfolding excess_all abs ◌+ℤ◌ ◌-ℤ◌ ◌*ℤ◌
allocate-run_example = allocate-run (pos 1) events

add_buyouts-again_example :
    let d = (add_buyouts "2026-07" foreign empty).1 in
    add_buyouts "2026-08" foreign d
    ≡ (ok tt, record d { buyout_overlap_count = 1 + d.buyout_overlap_count })
unfolding add_buyouts
add_buyouts-again_example = add_buyouts-again "2026-07" "2026-08" foreign empty refl
