-- ===== src/Jobs/Complete/Stack.antt =====
-- modules/jobs/repo.ts: the statements that a completion runs on the customer's stack
-- (customer_products, migration 006) and on its lines (migrations 007 and 024).
use serv_grid.Common.{
  ℕ, suc, Bool, true, false, not, ◌&&◌, Option, none, some, List, [], ◌∷◌, Text, Table, same_text,
  lookup, update, insert, is_none, ltb, ◌==◌,
}
use serv_grid.Store.Rows.{CustomerProduct, CompletionService, CompletionPart, Customer, Product}
use serv_grid.Store.Tx.{
  M, ◌>>=◌, ◌>>◌, pure, gets, modify, refuse_if, check_violation, unique_violation,
  numeric_value_out_of_range, foreign_key_violation, customer_products_product_or_name,
  customer_products_quantity_positive, job_completion_parts_product_or_name,
  job_completion_parts_quantity_positive, no_constraint,
}
use serv_grid.Api.Clock.{business_date}
use serv_grid.Jobs.Repo.{numeric_12_2_limit}

pub record StackChangeUpsert : Type 0 where
  pub customer_id : ℕ
  pub source_job_id : ℕ
  pub installed_by : ℕ
  pub product_id : Option ℕ
  pub free_text_name : Option Text
  pub serial_number : Text
  pub quantity : ℕ
  pub installed_on : Option ℕ
  pub completed_at : ℕ
  pub warranty_expires_on : Option ℕ
  pub notes : Option Text

-- COALESCE($6::date, business_date($7::timestamptz))
unfoldable pub installed_day : StackChangeUpsert → ℕ
unfolding business_date
installed_day s = elim s.installed_on [ none ↦ business_date s.completed_at | some d ↦ d ]

-- WHERE lower(serial_number) = lower($1) AND is_active; `lower` is the database's.
abbrev pub is_unit : (Text → Text) → Text → CustomerProduct → Bool
is_unit lower serial u = same_text (lower u.serial_number) (lower serial) && u.is_active

abbrev pub pick_unit :
    Bool → ℕ × CustomerProduct → Option (ℕ × CustomerProduct) → Option (ℕ × CustomerProduct)
pick_unit true r later = some r
pick_unit false r later = later

unfoldable pub find_unit :
    (Text → Text) → Text → Table CustomerProduct → Option (ℕ × CustomerProduct)
find_unit lower serial [] = none
find_unit lower serial ((k, u) ∷ t) =
    let later = find_unit lower serial t in pick_unit (is_unit lower serial u) (k, u) later

unfoldable pub lock_active_unit_by_serial : (Text → Text) → Text → M (Option (ℕ × CustomerProduct))
unfolding find_unit
lock_active_unit_by_serial lower serial = gets (λ db. find_unit lower serial db.customer_products)

-- The first value that a column of type integer does not hold.
abbrev pub int4_limit : ℕ
int4_limit = 2147483648

-- REFERENCES products(id): a product that is named and not there.
unfoldable pub is_dangling : Option ℕ → Table Product → Bool
is_dangling none t = false
is_dangling (some k) t = is_none (lookup k t)

-- The CHECKs of customer_products and its reference on what an upsert writes.
unfoldable pub check_unit : StackChangeUpsert → M (Unit {0})
unfolding is_dangling
check_unit s = do
  refuse_if (not (ltb s.quantity int4_limit)) numeric_value_out_of_range no_constraint
  refuse_if (s.quantity == 0) check_violation customer_products_quantity_positive
  refuse_if (is_none s.product_id && is_none s.free_text_name) check_violation
      customer_products_product_or_name
  dangling ← gets (λ db. is_dangling s.product_id db.products)
  refuse_if dangling foreign_key_violation no_constraint

abbrev pub new_unit : StackChangeUpsert → CustomerProduct
new_unit s = record {
  customer_id = s.customer_id;
  product_id = s.product_id;
  free_text_name = s.free_text_name;
  serial_number = s.serial_number;
  quantity = s.quantity;
  installed_on = some (installed_day s);
  warranty_expires_on = s.warranty_expires_on;
  installed_by = some s.installed_by;
  source_job_id = some s.source_job_id;
  notes = s.notes;
  is_active = true;
}

unfoldable pub insert_stack_unit : StackChangeUpsert → M (Unit {0})
unfolding check_unit
insert_stack_unit s = do
  check_unit s
  modify (λ db. record db {
    customer_products = insert db.next_id (new_unit s) db.customer_products;
    next_id = suc db.next_id;
  })

abbrev pub refreshed_unit : StackChangeUpsert → CustomerProduct → CustomerProduct
refreshed_unit s u = record u {
  product_id = s.product_id;
  free_text_name = s.free_text_name;
  quantity = s.quantity;
  installed_on = some (installed_day s);
  warranty_expires_on = s.warranty_expires_on;
  notes = s.notes;
  installed_by = some s.installed_by;
  source_job_id = some s.source_job_id;
}

unfoldable pub update_stack_unit_from_job : ℕ → StackChangeUpsert → M (Unit {0})
unfolding check_unit
update_stack_unit_from_job id s = do
  check_unit s
  modify (λ db. record db { customer_products = update id (refreshed_unit s) db.customer_products })

-- UPDATE customers SET latitude = $2, longitude = $3 WHERE … both are NULL
abbrev pub pinned : ℕ → ℕ → Customer → Customer
pinned lat lon c = elim c.site_pin [ none ↦ record c { site_pin = some (lat, lon) } | some p ↦ c ]

unfoldable pub set_site_pin_if_absent : ℕ → ℕ → ℕ → M (Unit {0})
set_site_pin_if_absent id lat lon =
    modify (λ db. record db { customers = update id (pinned lat lon) db.customers })

-- One INSERT for all lines; the primary key is the job and the line number.
unfoldable pub insert_completion_services : ℕ → List CompletionService → M (Unit {0})
insert_completion_services id [] = pure tt
insert_completion_services id (l ∷ lines) = do
  existing ← gets (λ db. lookup id db.completion_services)
  refuse_if (not (is_none existing)) unique_violation no_constraint
  modify (λ db. record db { completion_services = insert id (l ∷ lines) db.completion_services })

-- The first value, in hundredths, that numeric(10,2) does not hold.
abbrev pub numeric_10_2_limit : ℕ
numeric_10_2_limit = 10000000000

abbrev pub over : Option ℕ → ℕ → Bool
over none limit = false
over (some n) limit = not (ltb n limit)

unfoldable pub check_part : CompletionPart → M (Unit {0})
check_part p = do
  refuse_if (not (ltb p.quantity numeric_10_2_limit)) numeric_value_out_of_range no_constraint
  refuse_if (over p.unit_cost numeric_12_2_limit) numeric_value_out_of_range no_constraint
  refuse_if (p.quantity == 0) check_violation job_completion_parts_quantity_positive
  refuse_if (is_none p.product_id && is_none p.free_text_name) check_violation
      job_completion_parts_product_or_name

unfoldable pub check_parts : List CompletionPart → M (Unit {0})
unfolding check_part
check_parts [] = pure tt
check_parts (p ∷ parts) = do check_part p; check_parts parts

-- The references are checked at the end of the statement.
unfoldable pub refer_parts : List CompletionPart → M (Unit {0})
unfolding is_dangling
refer_parts [] = pure tt
refer_parts (p ∷ parts) = do
  dangling ← gets (λ db. is_dangling p.product_id db.products)
  refuse_if dangling foreign_key_violation no_constraint
  refer_parts parts

unfoldable pub insert_completion_parts : ℕ → List CompletionPart → M (Unit {0})
unfolding check_parts refer_parts
insert_completion_parts id [] = pure tt
insert_completion_parts id (p ∷ parts) = do
  check_parts (p ∷ parts)
  existing ← gets (λ db. lookup id db.completion_parts)
  refuse_if (not (is_none existing)) unique_violation no_constraint
  refer_parts (p ∷ parts)
  modify (λ db. record db { completion_parts = insert id (p ∷ parts) db.completion_parts })
