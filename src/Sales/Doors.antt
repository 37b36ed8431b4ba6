-- ===== src/Sales/Doors.antt =====
-- The doors of modules/sales/service.ts: createSale, patchSale, confirmSale and voidSale.
use serv_grid.Common.{
  ℕ, suc, Bool, not, ◌&&◌, Option, none, some, List, [], ◌∷◌, ◌++◌, Text, ◌==◌, lookup, length,
}
use serv_grid.Shared.Errors.{
  not_found, out_of_scope, version_conflict, illegal_transition, validation_failed, internal,
}
use serv_grid.Shared.Sequence.{sale}
use serv_grid.Store.Rows.{SalesCard, SalesCardItem}
use serv_grid.Store.Tx.{
  M, ◌>>=◌, ◌>>◌, pure, throw, gets, modify, violate, throw_if, or_throw, with_transaction,
  refuse_if, foreign_key_violation, not_null_violation, no_constraint,
}
use serv_grid.Api.Clock.{Env}
use serv_grid.Api.Sequences.{allocate_number}
use serv_grid.Jobs.Cards.{Actor, is_sales_rep}
use serv_grid.Jobs.Complete.Stack.{is_dangling}
use serv_grid.Sales.Pricing.{SaleItemInput, stored, disagrees, resolve_sale_item, to_hundredths}
use serv_grid.Sales.Repo.{
  Sale, SalePatchFields, is_draft, is_void, update_sale_fields, insert_sale, find_sale,
  company_exists, confirm_sale_row, void_sale_row,
}
use serv_grid.Sales.Items.{items_of, delete_sale_items, item_refusal, refuse_as}

-- A line of the payload; its prices are texts.
pub record SaleLine : Type 0 where
  pub product_id : Option ℕ
  pub product_name : Text
  pub product_sku : Option Text
  pub quantity : ℕ
  pub prices : SaleItemInput
  pub serial_numbers : Option (List Text)

pub record SaleCreate : Type 0 where
  pub company_id : ℕ
  pub sale_date : ℕ
  pub notes : Option Text
  pub items : List SaleLine

pub record SalePatch : Type 0 where
  pub fields : SalePatchFields
  pub items : Option (List SaleLine)

-- resolveSaleItems: each line with the price it is stored with.
abbrev pub resolved_line : SaleLine → M (SaleLine × Option Text)
resolved_line line = elim (resolve_sale_item line.prices) [
  | stored price ↦ pure (line, price)
  | disagrees ↦ throw validation_failed
]

unfoldable pub resolve_sale_items : List SaleLine → M (List (SaleLine × Option Text))
unfolding resolve_sale_item
resolve_sale_items [] = pure []
resolve_sale_items (line ∷ lines) = do
  first ← resolved_line line
  rest ← resolve_sale_items lines
  pure (first ∷ rest)

abbrev pub hundredths : Option Text → Option ℕ
hundredths none = none
hundredths (some t) = some (to_hundredths t)

abbrev pub item_row : ℕ → ℕ → SaleLine → ℕ → SalesCardItem
item_row id line_no line price = record {
  sales_card_id = id;
  line_no = line_no;
  product_id = line.product_id;
  product_name = line.product_name;
  product_sku = line.product_sku;
  quantity = line.quantity;
  unit_price = price;
  list_price = hundredths line.prices.list_price;
  discount_pct = hundredths line.prices.discount_pct;
  serial_numbers = line.serial_numbers;
}

-- One INSERT; a line without a price is the NULL that the column refuses.
unfoldable pub insert_sale_item : ℕ → ℕ → SaleLine → Option Text → M (Unit {0})
unfolding item_refusal is_dangling
insert_sale_item id line_no line none = violate not_null_violation no_constraint
insert_sale_item id line_no line (some price) = do
  refuse_as (item_refusal (item_row id line_no line (to_hundredths price)))
  dangling ← gets (λ db. is_dangling line.product_id db.products)
  refuse_if dangling foreign_key_violation no_constraint
  modify (λ db. record db {
    sales_card_items = db.sales_card_items ++ (item_row id line_no line (to_hundredths price) ∷ []);
  })

-- insertSaleItems, from the line after `n`
unfoldable pub insert_sale_items : ℕ → ℕ → List (SaleLine × Option Text) → M (Unit {0})
unfolding insert_sale_item
insert_sale_items id n [] = pure tt
insert_sale_items id n ((line, price) ∷ lines) = do
  insert_sale_item id (suc n) line price
  insert_sale_items id (suc n) lines

-- assertInScope
abbrev pub out_of_sale_scope : Actor → SalesCard → Bool
out_of_sale_scope actor c = is_sales_rep actor.role && not (c.sales_rep_id == actor.id)

-- findSale after the write, or INTERNAL
unfoldable pub read_sale : ℕ → M Sale
unfolding find_sale
read_sale id = do row ← gets (find_sale id); or_throw row internal

unfoldable pub create_sale : Actor → SaleCreate → M Sale
unfolding company_exists insert_sale resolve_sale_items insert_sale_items read_sale
create_sale actor input = with_transaction (do
  known ← gets (company_exists input.company_id)
  throw_if (not known) validation_failed
  id ← insert_sale input.company_id actor.id input.sale_date input.notes
  items ← resolve_sale_items input.items
  insert_sale_items id 0 items
  read_sale id)

-- The lines of a draft, rewritten in full when they are sent.
unfoldable pub rewrite_items : ℕ → Option (List SaleLine) → M (Unit {0})
unfolding resolve_sale_items insert_sale_items delete_sale_items
rewrite_items id none = pure tt
rewrite_items id (some lines) = do
  delete_sale_items id
  items ← resolve_sale_items lines
  insert_sale_items id 0 items

-- The writes of a PATCH that nothing refuses, and the card.
unfoldable pub write_patch : ℕ → SalePatch → M Sale
unfolding update_sale_fields rewrite_items read_sale
write_patch id patch = do
  update_sale_fields id patch.fields
  rewrite_items id patch.items
  read_sale id

unfoldable pub patch_sale : Actor → ℕ → ℕ → SalePatch → M Sale
unfolding write_patch
patch_sale actor id if_match patch = with_transaction (do
  row ← gets (λ db. lookup id db.sales_cards)
  locked ← or_throw row not_found
  throw_if (out_of_sale_scope actor locked) out_of_scope
  throw_if (not (locked.version == if_match)) version_conflict
  throw_if (not (is_draft locked.status)) illegal_transition
  write_patch id patch)

-- The number, the stamp and the card of a confirmation that nothing refuses.
unfoldable pub number_and_stamp : Env → ℕ → M Sale
unfolding allocate_number confirm_sale_row read_sale
number_and_stamp env id = do
  number ← allocate_number env sale
  confirm_sale_row id number env.now
  read_sale id

unfoldable pub confirm_sale : Env → Actor → ℕ → M Sale
unfolding items_of number_and_stamp
confirm_sale env actor id = with_transaction (do
  row ← gets (λ db. lookup id db.sales_cards)
  locked ← or_throw row not_found
  throw_if (out_of_sale_scope actor locked) out_of_scope
  throw_if (not (is_draft locked.status)) illegal_transition
  count ← gets (λ db. length (items_of id db.sales_card_items))
  throw_if (count == 0) validation_failed
  number_and_stamp env id)

unfoldable pub void_sale : Env → Actor → ℕ → Text → M Sale
unfolding void_sale_row read_sale
void_sale env actor id reason = with_transaction (do
  row ← gets (λ db. lookup id db.sales_cards)
  locked ← or_throw row not_found
  throw_if (is_draft locked.status) illegal_transition
  throw_if (is_void locked.status) illegal_transition
  void_sale_row id actor.id env.now reason
  read_sale id)
