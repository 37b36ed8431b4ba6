-- ===== src/Store/Tx.antt =====
-- apps/api/src/db/tx.ts and plugins/errors.ts: a query or a service call is an action that
-- returns a value or throws, and gives the state of the database after it.
use serv_grid.Common.{◌≡◌, ap, Bool, true, false, Option, none, some}
use serv_grid.Shared.Errors.{ErrorCode, validation_failed, duplicate_entity}
use serv_grid.Store.Db.{Db}

-- The SQLSTATE of a refused statement.
pub data PgCode : Type 0 where
  check_violation numeric_value_out_of_range string_data_right_truncation : PgCode
  unique_violation foreign_key_violation not_null_violation : PgCode

pub data Constraint : Type 0 where
  completion_discount_bounded completion_discount_justified completion_mode_coherent : Constraint
  job_completions_latlng_paired job_cancellations_other_justified : Constraint
  customer_products_product_or_name customer_products_quantity_positive : Constraint
  customer_products_active_serial_unique job_completion_parts_product_or_name : Constraint
  job_completion_parts_quantity_positive job_assignment_coherent job_closed_coherent : Constraint
  job_completions_pkey job_cancellations_pkey cash_employee_date_unique : Constraint
  job_cards_job_number_unique : Constraint
  cash_submitted_means_unanswered cash_disputed_justified sale_number_when_confirmed : Constraint
  sales_cards_confirmed_stamped sales_cards_void_coherent payments_amount_positive : Constraint
  sales_card_items_quantity_positive sales_card_items_discount_explains_price : Constraint
  sales_card_items_discount_paired sales_card_items_discount_pct_range : Constraint
  sales_cards_void_justified sales_cards_sale_number_unique payments_void_coherent : Constraint
  payments_void_justified payments_payment_number_unique : Constraint
  no_constraint : Constraint

-- What is thrown: an AppError, or the database's refusal of a statement.
pub data Failure : Type 0 where
  app : ErrorCode → Failure
  pg : PgCode → Constraint → Failure
  -- any other Error
  fault : Failure

pub data Result {ℓ} (A : Type ℓ) : Type ℓ where
  ok : A → Result A
  err : Failure → Result A

abbrev pub M : Type 0 → Type 0
M A = Db → Result A × Db

abbrev pub pure : {A : Type 0} → A → M A
pure a db = (ok a, db)

abbrev pub throw : {A : Type 0} → ErrorCode → M A
throw c db = (err (app c), db)

abbrev pub violate : {A : Type 0} → PgCode → Constraint → M A
violate s c db = (err (pg s c), db)

abbrev pub gets : {A : Type 0} → (Db → A) → M A
gets f db = (ok (f db), db)

abbrev pub modify : (Db → Db) → M (Unit {0})
modify f db = (ok tt, f db)

infixl 5 ◌>>=◌ ◌>>◌
abbrev pub ◌>>=◌ : {A B : Type 0} → M A → (A → M B) → M B
◌>>=◌ m f db = let (r, db') = m db in elim r [ ok a ↦ f a db' | err e ↦ (err e, db') ]

abbrev pub ◌>>◌ : {A B : Type 0} → M A → M B → M B
m >> k = m >>= λ _. k

-- `if (c) throw new AppError(code, …)`
abbrev pub throw_if : Bool → ErrorCode → M (Unit {0})
throw_if true c = throw c
throw_if false c = pure tt

-- `if (row === null) throw new AppError(code, …)`
abbrev pub or_throw : {A : Type 0} → Option A → ErrorCode → M A
or_throw none c = throw c
or_throw (some a) c = pure a

-- A CHECK or a UNIQUE that refuses the statement when `bad` holds.
abbrev pub refuse_if : Bool → PgCode → Constraint → M (Unit {0})
refuse_if true s c = violate s c
refuse_if false s c = pure tt

-- `withTransaction`: COMMIT (or RELEASE SAVEPOINT) when `fn` returns, ROLLBACK when it throws.
unfoldable pub with_transaction : {A : Type 0} → M A → M A
with_transaction fn db = let (r, db') = fn db in elim r [ ok a ↦ (ok a, db') | err e ↦ (err e, db) ]

-- Has `mapDbRefusal` a sentence for the constraint (CONSTRAINT_MESSAGES)?
abbrev pub is_known : Constraint → Bool
is_known completion_discount_bounded = true
is_known completion_discount_justified = true
is_known completion_mode_coherent = true
is_known job_completions_latlng_paired = true
is_known job_cancellations_other_justified = true
is_known customer_products_product_or_name = true
is_known customer_products_quantity_positive = true
is_known customer_products_active_serial_unique = true
is_known job_completion_parts_product_or_name = true
is_known job_completion_parts_quantity_positive = true
is_known _ = false

unfoldable pub map_db_refusal : Failure → Failure
map_db_refusal (app c) = app c
map_db_refusal fault = fault
map_db_refusal (pg check_violation k) = app validation_failed
map_db_refusal (pg numeric_value_out_of_range k) = app validation_failed
map_db_refusal (pg string_data_right_truncation k) = app validation_failed
map_db_refusal (pg unique_violation k) = elim (is_known k) [
  | true ↦ app validation_failed
  | false ↦ app duplicate_entity
]
map_db_refusal (pg foreign_key_violation k) = app validation_failed
map_db_refusal (pg not_null_violation k) = pg not_null_violation k

-- `try { … } catch (error) { if (error instanceof AppError) throw error; throw mapDbRefusal(error); }`
abbrev pub mapping_refusals : {A : Type 0} → M A → M A
mapping_refusals m db =
    let (r, db') = m db in elim r [ ok a ↦ (ok a, db') | err e ↦ (err (map_db_refusal e), db') ]

pub mapping_refusals_ok :
    {A : Type 0} {a : A} {db' : Db} (m : M A) (db : Db)
    → m db ≡ (ok a, db')
    → mapping_refusals m db ≡ (ok a, db')
mapping_refusals_ok {A = A} m db e =
    ap
      (λ x. elim x.0 as (λ _. Result A × Db) [
        | ok b ↦ (ok b, x.1)
        | err f ↦ (err (map_db_refusal f), x.1)
      ])
      e
