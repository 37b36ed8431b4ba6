-- ===== src/Witnesses/Accounts.antt =====
-- Witnesses of the sales and payments services, in the office of Data with an account.
use serv_grid.Common.{
  ◌≡◌, refl, true, none, some, [], ◌∷◌, codes, arith, lookup, decimal, parse_int_from, pad_start,
}
use serv_grid.Shared.Permissions.{sales_rep}
use serv_grid.Store.Rows.{
  Company, SalesCard, SalesCardItem, draft, sale_confirmed, by_upi, collected,
}
use serv_grid.Store.Db.{Db}
use serv_grid.Store.Tx.{ok, with_transaction}
use serv_grid.Jobs.Cards.{Actor}
use serv_grid.Sales.Pricing.{stored, to_hundredths, resolve_sale_item}
use serv_grid.Sales.Repo.{Sale, update_sale_fields, find_sale, total_of}
use serv_grid.Sales.Items.{explains_price, items_of}
use serv_grid.Sales.Books.{IsBooks, IsKept}
use serv_grid.Sales.Doors.{
  SaleLine, SalePatch, patch_sale, write_patch, rewrite_items, read_sale, item_row,
}
use serv_grid.Sales.Confirm.{ConfirmOutcome, confirm_sale-ConfirmOutcome}
use serv_grid.Sales.Discounts.{resolve_sale_item-explains_price}
use serv_grid.Sales.Versions.{patch_sale-keeps_version}
use serv_grid.Sales.Frozen.Runs.{confirm_request, void_request, serve_sales, serve_sales-IsKept}
use serv_grid.Payments.{PaymentCreate}
use serv_grid.Payments.Outcome.{PaymentOutcome, create_payment-PaymentOutcome}
use serv_grid.Payments.Void.{VoidOutcome, void_payment-VoidOutcome}
use serv_grid.Witnesses.Data.{noon, the_owner, office}

abbrev anil : Actor
anil = record { id = 4; role = sales_rep }

abbrev account_8 : Company
account_8 = record { name = codes "Sun Traders"; owner_rep_id = some 4; is_active = true }

abbrev card_11 : SalesCard
card_11 = record {
  sale_number = none;
  company_id = 8;
  sales_rep_id = 4;
  sale_date = 20601;
  status = draft;
  notes = none;
  confirmed_at = none;
  voided_at = none;
  voided_by = none;
  void_reason = none;
  version = 1;
}

abbrev card_12 : SalesCard
card_12 = record card_11 {
  sale_number = some (codes "SC-2627-00001");
  status = sale_confirmed;
  confirmed_at = some 1779990000000;
  version = 2;
}

abbrev line_11 : SalesCardItem
line_11 = record {
  sales_card_id = 11;
  line_no = 1;
  product_id = none;
  product_name = codes "Panel";
  product_sku = none;
  quantity = 200;
  unit_price = 150000;
  list_price = none;
  discount_pct = none;
  serial_numbers = none;
}

abbrev shop : Db
shop = record office {
  companies = (8, account_8) ∷ [];
  sales_cards = (11, card_11) ∷ (12, card_12) ∷ [];
  sales_card_items = line_11 ∷ [];
  next_id = 20;
}

shop-IsBooks : IsBooks shop
unfolding lookup
shop-IsBooks = record {
  rows = λ id c e. record {
    numbered = ground arith;
    stamped = ground arith;
    voided = ground arith;
    justified = ground arith;
  };
  fresh = λ id h. ground arith;
}

confirm_sale_example : ConfirmOutcome noon anil 11 shop
confirm_sale_example = confirm_sale-ConfirmOutcome noon anil 11 shop shop-IsBooks

found_12 : lookup 12 shop.sales_cards ≡ some card_12
unfolding lookup
found_12 = refl

found_11 : lookup 11 shop.sales_cards ≡ some card_11
unfolding lookup
found_11 = refl

serve_sales-IsKept_example : IsKept 12 card_12 shop (
    serve_sales
      (confirm_request noon anil 12 ∷ void_request noon the_owner 12 (codes "returned") ∷ [])
      shop)
serve_sales-IsKept_example =
    serve_sales-IsKept
      (confirm_request noon anil 12 ∷ void_request noon the_owner 12 (codes "returned") ∷ []) shop
      12 card_12 shop-IsBooks found_12 refl

abbrev receipt : PaymentCreate
receipt = record {
  company_id = 8;
  sales_card_id = some 12;
  amount = 300000;
  mode = by_upi;
  reference_no = some (codes "UPI-1");
  received_at = 1779995000000;
  notes = none;
}

create_payment_example : PaymentOutcome noon anil receipt shop
unfolding lookup
create_payment_example = create_payment-PaymentOutcome noon anil receipt shop refl

abbrev till : Db
till = record shop {
  payments =
      (
        30,
        record {
          payment_number = codes "PR-2627-00001";
          company_id = 8;
          sales_card_id = some 12;
          amount = 300000;
          mode = by_upi;
          reference_no = none;
          received_by = 4;
          received_at = 1779995000000;
          status = collected;
          voided_at = none;
          voided_by = none;
          void_reason = none;
          notes = none;
          version = 1;
        },
      )
      ∷ [];
  next_id = 31;
}

void_payment_example : VoidOutcome noon the_owner 30 (codes "bounced") till
void_payment_example = void_payment-VoidOutcome noon the_owner 30 (codes "bounced") till

abbrev panel : SaleLine
panel = record {
  product_id = none;
  product_name = codes "Panel";
  product_sku = none;
  quantity = 300;
  prices = record { unit_price = some (codes "1500"); list_price = none; discount_pct = none };
  serial_numbers = none;
}

abbrev new_lines : SalePatch
new_lines = record { fields = record { sale_date = none; notes = none }; items = some (panel ∷ []) }

abbrev line_after : SalesCardItem
line_after = record line_11 { quantity = 300 }

abbrev sale_after : Sale
sale_after = record { id = 11; card = card_11; items = line_after ∷ []; total = 450000 }

patched_shop :
    patch_sale anil 11 1 new_lines shop
    ≡ (ok sale_after, record shop { sales_card_items = line_after ∷ [] })
unfolding patch_sale write_patch update_sale_fields rewrite_items read_sale find_sale items_of
    total_of lookup with_transaction parse_int_from
patched_shop = refl

patch_sale-keeps_version_example :
    (lookup 11 (record shop { sales_card_items = line_after ∷ [] }).sales_cards ≡ some card_11)
    × (card_11.version ≡ 1)
patch_sale-keeps_version_example =
    patch_sale-keeps_version anil 11 1 new_lines sale_after card_11 shop
      (record shop { sales_card_items = line_after ∷ [] }) refl refl found_11 patched_shop

abbrev discounted : SaleLine
discounted = record panel {
  prices = record {
    unit_price = none;
    list_price = some (codes "999.99");
    discount_pct = some (codes "12.5");
  };
}

discounted_price : resolve_sale_item discounted.prices ≡ stored (some (codes "874.99"))
unfolding resolve_sale_item decimal parse_int_from pad_start
discounted_price = refl

resolve_sale_item-explains_price_example :
    explains_price (item_row 11 1 discounted (to_hundredths (codes "874.99"))) ≡ true
resolve_sale_item-explains_price_example =
    resolve_sale_item-explains_price 11 1 discounted (codes "874.99") discounted_price
