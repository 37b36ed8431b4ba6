-- ===== src/Sales/Items.antt =====
-- modules/sales/repo.ts: the statements on sales_card_items, with the constraints of migrations
-- 017 and 019.
use serv_grid.Common.{
  ℕ, ◌+◌, ◌-◌, ◌*◌, ◌/◌, ◌%◌, Bool, true, false, not, ◌&&◌, Option, none, some, List, [], ◌∷◌,
  is_none, ◌==◌, ltb, if◌then◌else◌,
}
use serv_grid.Store.Rows.{SalesCardItem}
use serv_grid.Store.Tx.{
  M, PgCode, Constraint, pure, modify, violate, check_violation, numeric_value_out_of_range,
  sales_card_items_quantity_positive, sales_card_items_discount_paired,
  sales_card_items_discount_pct_range, sales_card_items_discount_explains_price, no_constraint,
}
use serv_grid.Jobs.Repo.{numeric_12_2_limit}
use serv_grid.Jobs.Complete.Stack.{numeric_10_2_limit, over}

abbrev pub is_of : ℕ → SalesCardItem → Bool
is_of id i = i.sales_card_id == id

-- The lines of a card: line_no ascends in insertion order.
unfoldable pub items_of : ℕ → List SalesCardItem → List SalesCardItem
items_of id [] = []
items_of id (i ∷ l) =
    let rest = items_of id l in elim (is_of id i) [ true ↦ i ∷ rest | false ↦ rest ]

-- DELETE FROM sales_card_items WHERE sales_card_id = $1
unfoldable pub without_items : ℕ → List SalesCardItem → List SalesCardItem
without_items id [] = []
without_items id (i ∷ l) =
    let rest = without_items id l in elim (is_of id i) [ true ↦ rest | false ↦ i ∷ rest ]

unfoldable pub delete_sale_items : ℕ → M (Unit {0})
unfolding without_items
delete_sale_items id =
    modify (λ db. record db { sales_card_items = without_items id db.sales_card_items })

-- round() of numeric, of a quotient: to the nearest whole, a half up (nothing here is negative).
unfoldable pub round_quotient : ℕ → ℕ → ℕ
round_quotient n d = if ltb (2 * (n % d)) d then n / d else n / d + 1

-- unit_price = round(list_price * (100 - discount_pct) / 100, 2). In hundredths the product has
-- four places too many, a division by 10000; a percentage above 100 is refused beside it.
abbrev pub explains_price : SalesCardItem → Bool
explains_price i = elim i.list_price [
  | none ↦ true
  | some list ↦ elim i.discount_pct [
    | none ↦ true
    | some pct ↦ i.unit_price == round_quotient (list * (10000 - pct)) 10000
  ]
]

-- round(quantity * unit_price, 2), in hundredths
abbrev pub line_total : SalesCardItem → ℕ
line_total i = (i.quantity * i.unit_price + 50) / 100

-- The first value, in hundredths, that numeric(14,2) does not hold.
abbrev numeric_14_2_limit : ℕ
numeric_14_2_limit = 100000000000000

-- The CHECKs of a line and the ranges of its columns: what refuses it, if anything does.
unfoldable pub item_refusal : SalesCardItem → Option (PgCode × Constraint)
unfolding round_quotient
item_refusal i =
    if not (ltb i.quantity numeric_10_2_limit)
    then some (numeric_value_out_of_range, no_constraint)
    else if not (ltb i.unit_price numeric_12_2_limit)
    then some (numeric_value_out_of_range, no_constraint)
    else if over i.list_price numeric_12_2_limit
    then some (numeric_value_out_of_range, no_constraint)
    else if over i.discount_pct 100000
    then some (numeric_value_out_of_range, no_constraint)
    else if not (ltb (line_total i) numeric_14_2_limit)
    then some (numeric_value_out_of_range, no_constraint)
    else if i.quantity == 0
    then some (check_violation, sales_card_items_quantity_positive)
    else if is_none i.list_price && not (is_none i.discount_pct)
    then some (check_violation, sales_card_items_discount_paired)
    else if not (is_none i.list_price) && is_none i.discount_pct
    then some (check_violation, sales_card_items_discount_paired)
    else if over i.discount_pct 10001
    then some (check_violation, sales_card_items_discount_pct_range)
    else if not (explains_price i)
    then some (check_violation, sales_card_items_discount_explains_price)
    else none

abbrev pub refuse_as : Option (PgCode × Constraint) → M (Unit {0})
refuse_as none = pure tt
refuse_as (some (s, c)) = violate s c
