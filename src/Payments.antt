-- ===== src/Payments.antt =====
-- apps/api/src/modules/payments: createPayment and voidPayment of service.ts, and the statements
-- of repo.ts with the constraints of migration 017.
pub mod Outcome
pub mod Void
use serv_grid.Common.{
  ℕ, suc, Bool, true, false, not, ◌&&◌, ◌||◌, Option, none, some, [], ◌∷◌, Text, Table, same_text,
  lookup, update, insert, is_none, ◌==◌, ltb,
}
use serv_grid.Shared.Errors.{validation_failed, not_found, illegal_transition, internal}
use serv_grid.Shared.Sequence.{payment}
use serv_grid.Store.Rows.{
  Payment, PaymentMode, PaymentStatus, collected, payment_void, SalesCard, SaleStatus,
  sale_confirmed,
}
use serv_grid.Store.Db.{Db}
use serv_grid.Store.Tx.{
  M, ok, ◌>>=◌, ◌>>◌, pure, gets, modify, throw, throw_if, or_throw, refuse_if, with_transaction,
  check_violation, unique_violation, numeric_value_out_of_range, payments_amount_positive,
  payments_payment_number_unique, no_constraint,
}
use serv_grid.Api.Clock.{Env}
use serv_grid.Api.Sequences.{allocate_number}
use serv_grid.Jobs.Repo.{numeric_12_2_limit}
use serv_grid.Jobs.Cards.{Actor}
use serv_grid.Sales.Repo.{company_exists}

pub record PaymentCreate : Type 0 where
  pub company_id : ℕ
  pub sales_card_id : Option ℕ
  pub amount : ℕ
  pub mode : PaymentMode
  pub reference_no : Option Text
  pub received_at : ℕ
  pub notes : Option Text

-- The row, as the service answers with it.
abbrev pub PaymentRecord : Type 0
PaymentRecord = ℕ × Payment

abbrev pub is_voided : PaymentStatus → Bool
is_voided payment_void = true
is_voided collected = false

abbrev pub is_sale_confirmed : SaleStatus → Bool
is_sale_confirmed sale_confirmed = true
is_sale_confirmed _ = false

abbrev pub new_payment : Actor → PaymentCreate → Text → Payment
new_payment actor input number = record {
  payment_number = number;
  company_id = input.company_id;
  sales_card_id = input.sales_card_id;
  amount = input.amount;
  mode = input.mode;
  reference_no = input.reference_no;
  received_by = actor.id;
  received_at = input.received_at;
  status = collected;
  voided_at = none;
  voided_by = none;
  void_reason = none;
  notes = input.notes;
  version = 1;
}

-- UNIQUE (payment_number)
unfoldable pub number_in_table : Text → Table Payment → Bool
number_in_table number [] = false
number_in_table number ((k, p) ∷ t) =
    let rest = number_in_table number t in same_text p.payment_number number || rest

unfoldable pub insert_payment : Actor → PaymentCreate → Text → M ℕ
unfolding number_in_table
insert_payment actor input number = do
  refuse_if (not (ltb input.amount numeric_12_2_limit)) numeric_value_out_of_range no_constraint
  refuse_if (input.amount == 0) check_violation payments_amount_positive
  taken ← gets (λ db. number_in_table number db.payments)
  refuse_if taken unique_violation payments_payment_number_unique
  id ← gets (λ db. db.next_id)
  modify (λ db. record db {
    payments = insert db.next_id (new_payment actor input number) db.payments;
    next_id = suc db.next_id;
  })
  pure id

abbrev pub voided_payment : ℕ → ℕ → Text → Payment → Payment
voided_payment by at reason p = record p {
  status = payment_void;
  voided_at = some at;
  voided_by = some by;
  void_reason = some reason;
  version = suc p.version;
}

-- UPDATE payments SET status = 'void', … WHERE id = $1; the two CHECKs on a void hold of it.
unfoldable pub void_payment_row : ℕ → ℕ → ℕ → Text → M (Unit {0})
void_payment_row id by at reason =
    modify (λ db. record db { payments = update id (voided_payment by at reason) db.payments })

unfoldable pub find_payment : ℕ → Db → Option PaymentRecord
find_payment id db = elim (lookup id db.payments) [ none ↦ none | some p ↦ some (id, p) ]

-- The sale that the payment names is of the same account, and confirmed.
unfoldable pub check_sale : PaymentCreate → Option ℕ → M (Unit {0})
check_sale input none = pure tt
check_sale input (some sale) = do
  row ← gets (λ db. lookup sale db.sales_cards)
  card ← or_throw row validation_failed
  throw_if (not (card.company_id == input.company_id)) validation_failed
  throw_if (not (is_sale_confirmed card.status)) validation_failed

-- The number and the row of a payment that the form's checks let through.
unfoldable pub number_and_insert : Env → Actor → PaymentCreate → M PaymentRecord
unfolding allocate_number insert_payment find_payment
number_and_insert env actor input = do
  number ← allocate_number env payment
  id ← insert_payment actor input number
  row ← gets (find_payment id)
  or_throw row internal

unfoldable pub create_payment : Env → Actor → PaymentCreate → M PaymentRecord
unfolding company_exists check_sale number_and_insert
create_payment env actor input = with_transaction (do
  known ← gets (company_exists input.company_id)
  throw_if (not known) validation_failed
  check_sale input input.sales_card_id
  number_and_insert env actor input)

unfoldable pub void_payment : Env → Actor → ℕ → Text → M PaymentRecord
unfolding void_payment_row find_payment
void_payment env actor id reason = with_transaction (do
  row ← gets (λ db. lookup id db.payments)
  locked ← or_throw row not_found
  throw_if (is_voided locked.status) illegal_transition
  void_payment_row id actor.id env.now reason
  after ← gets (find_payment id)
  or_throw after internal)
