-- ===== src/Payments/Outcome.antt =====
-- What the creation of a payment answers, on every branch, and what it writes.
use serv_grid.Common.{
  ℕ, suc, ◌≤◌, ◌<◌, ◌≡◌, ◌≢◌, ltb→lt, refl, ◌⊎◌, inl, inr, true, false, ◌==◌, Option, none, some,
  Text, arith, ==_iff, Option-cases, Bool-cases, lookup, insert, lookup-insert, ltb,
}
use serv_grid.Shared.Errors.{validation_failed}
use serv_grid.Shared.Sequence.{payment, format_business_number}
use serv_grid.Store.Rows.{SalesCard, Payment, collected, sale_confirmed}
use serv_grid.Store.Db.{Db}
use serv_grid.Store.Tx.{
  Result, ok, err, app, pg, with_transaction, check_violation, unique_violation,
  numeric_value_out_of_range, payments_amount_positive, payments_payment_number_unique,
  no_constraint,
}
use serv_grid.Api.Clock.{Env, fiscal_year_for}
use serv_grid.Api.Sequences.{bump, allocate_number}
use serv_grid.Api.Sequences.Distinct.{allocate_number_lem, key_of, next_value}
use serv_grid.Jobs.Repo.{numeric_12_2_limit}
use serv_grid.Jobs.Cards.{Actor}
use serv_grid.Sales.Repo.{company_exists}
use serv_grid.Payments.{
  PaymentCreate, PaymentRecord, is_sale_confirmed, new_payment, number_in_table, insert_payment,
  find_payment, check_sale, number_and_insert, create_payment,
}

module _ (env : Env) (actor : Actor) (input : PaymentCreate) (db : Db) where
  abbrev pub create_answer : Result PaymentRecord × Db
  create_answer = create_payment env actor input db

  -- The sale that the payment names, if it names one, is of the same account and confirmed.
  abbrev pub SaleFits : Option ℕ → Type 0
  SaleFits none = Unit
  SaleFits (some sale) =
      (c : SalesCard) × (lookup sale db.sales_cards ≡ some c)
      × (c.company_id ≡ input.company_id)
      × (c.status ≡ sale_confirmed)

  -- The payment as it was sent, collected by the actor under its number.
  abbrev pub collected_row : Text → Payment
  collected_row number = record {
    payment_number = number;
    company_id = input.company_id;
    sales_card_id = input.sales_card_id;
    amount = input.amount;
    mode = input.mode;
    reference_no = input.reference_no;
    received_by = actor.id;
    received_at = input.received_at;
    status = collected;
    voided_at = none;
    voided_by = none;
    void_reason = none;
    notes = input.notes;
    version = 1;
  }

  -- The next number of the fiscal year, printed.
  abbrev pub IsNextNumber : Text → Type 0
  IsNextNumber number =
      format_business_number payment (fiscal_year_for env env.now) (next_value env payment db)
      ≡ some number

  -- The database after the payment: the counter, the row and the next id.
  abbrev pub received_db : Text → Db
  received_db number = record db {
    sequences = bump (key_of env payment) db.sequences;
    payments = insert db.next_id (collected_row number) db.payments;
    next_id = suc db.next_id;
  }

  -- How a payment can end.
  pub data PaymentOutcome : Type 0 where
    no_company :
        company_exists input.company_id db ≡ false
        → create_answer ≡ (err (app validation_failed), db)
        → PaymentOutcome
    wrong_sale :
        ¬ SaleFits input.sales_card_id
        → create_answer ≡ (err (app validation_failed), db)
        → PaymentOutcome
    too_much :
        numeric_12_2_limit ≤ input.amount
        → create_answer ≡ (err (pg numeric_value_out_of_range no_constraint), db)
        → PaymentOutcome
    nothing_paid :
        input.amount ≡ 0
        → create_answer ≡ (err (pg check_violation payments_amount_positive), db)
        → PaymentOutcome
    number_in_use :
        (number : Text)
        → IsNextNumber number
        → number_in_table number db.payments ≡ true
        → create_answer ≡ (err (pg unique_violation payments_payment_number_unique), db)
        → PaymentOutcome
    received :
        (number : Text)
        → company_exists input.company_id db ≡ true
        → SaleFits input.sales_card_id
        → input.amount ≢ 0
        → input.amount < numeric_12_2_limit
        → IsNextNumber number
        → number_in_table number db.payments ≡ false
        → create_answer ≡ (ok (db.next_id, collected_row number), received_db number)
        → PaymentOutcome

  check_sale-cases :
      (sale : Option ℕ)
      → SaleFits sale × (check_sale input sale db ≡ (ok tt, db))
        ⊎ ¬ SaleFits sale × (check_sale input sale db ≡ (err (app validation_failed), db))
  unfolding check_sale
  check_sale-cases none = inl (tt, refl)
  check_sale-cases (some sale) = elim (Option-cases (lookup sale db.sales_cards)) [
    | inl n ↦ inr (λ (c, e, p, q). ground (arith, n, e), ground (arith, n))
    | inr (c, e) ↦ elim (Bool-cases (c.company_id == input.company_id)) [
      | inr n ↦ inr (
        λ (d, f, p, q). ground (arith, e, f, p, n, ==_iff c.company_id input.company_id),
        ground (arith, e, n),
      )
      | inl y ↦ elim (Bool-cases (is_sale_confirmed c.status)) [
        | inr n ↦ inr (λ (d, f, p, q). ground (arith, e, f, q, n), ground (arith, e, y, n))
        | inl z ↦ inl (
          (c, e, (==_iff c.company_id input.company_id).0 y, ground (arith, z)),
          ground (arith, e, y, z),
        )
      ]
    ]
  ]

  -- A form that the checks let through goes on to the number and the row.
  through :
      (r : Result PaymentRecord × Db)
      → company_exists input.company_id db ≡ true
      → check_sale input input.sales_card_id db ≡ (ok tt, db)
      → number_and_insert env actor input db ≡ r
      → create_answer ≡ with_transaction (λ _. r) db
  unfolding create_payment with_transaction
  through r k s q = ground (arith, k, s, q)

  row_there :
      (number : Text)
      → lookup db.next_id db.payments ≡ none
      → find_payment db.next_id (received_db number)
        ≡ some (db.next_id, new_payment actor input number)
  unfolding find_payment
  row_there number n = ground (
    arith,
    n,
    ==_iff db.next_id db.next_id,
    lookup-insert db.next_id db.next_id (new_payment actor input number) db.payments,
  )

  paid :
      (number : Text)
      → allocate_number env payment db
        ≡ (ok number, record db { sequences = bump (key_of env payment) db.sequences })
      → lookup db.next_id db.payments ≡ none
      → ltb input.amount numeric_12_2_limit ≡ true
      → (input.amount == 0) ≡ false
      → number_in_table number db.payments ≡ false
      → number_and_insert env actor input db
        ≡ (ok (db.next_id, new_payment actor input number), received_db number)
  unfolding number_and_insert insert_payment
  paid number a n l z t = ground (arith, a, l, z, t, row_there number n)

  unpaid :
      (number : Text)
      → allocate_number env payment db
        ≡ (ok number, record db { sequences = bump (key_of env payment) db.sequences })
      → ltb input.amount numeric_12_2_limit ≡ true
      → (input.amount == 0) ≡ true
      → number_and_insert env actor input db ≡ (
        err (pg check_violation payments_amount_positive),
        record db { sequences = bump (key_of env payment) db.sequences },
      )
  unfolding number_and_insert insert_payment
  unpaid number a l z = ground (arith, a, l, z)

  received-cases :
      (number : Text)
      → allocate_number env payment db
        ≡ (ok number, record db { sequences = bump (key_of env payment) db.sequences })
      → IsNextNumber number
      → lookup db.next_id db.payments ≡ none
      → company_exists input.company_id db ≡ true
      → SaleFits input.sales_card_id
      → check_sale input input.sales_card_id db ≡ (ok tt, db)
      → PaymentOutcome
  unfolding number_and_insert insert_payment with_transaction
  received-cases number a printed n k fits s =
      let counted = record db { sequences = bump (key_of env payment) db.sequences } in
      elim (Bool-cases (ltb input.amount numeric_12_2_limit)) [
        | inr l ↦ too_much (ground (arith, l)) (
            through (err (pg numeric_value_out_of_range no_constraint), counted) k s
              (ground (arith, a, l)))
        | inl l ↦ elim (Bool-cases (input.amount == 0)) [
          | inl z ↦ nothing_paid (ground (arith, z)) (through _ k s (unpaid number a l z))
          | inr z ↦ elim (Bool-cases (number_in_table number db.payments)) [
            | inl t ↦ number_in_use number printed t (
                through (err (pg unique_violation payments_payment_number_unique), counted) k s
                  (ground (arith, a, l, z, t)))
            | inr t ↦
                received number k fits (ground (arith, z))
                  (ltb→lt input.amount numeric_12_2_limit l) printed t
                  (through _ k s (paid number a n l z t))
          ]
        ]
      ]

  -- When the next id is not in use, a payment ends in VALIDATION_FAILED for an account that is not
  -- there, or for a sale that is missing, of another account or not confirmed, in the refusal by
  -- the database of an amount of 0 or too wide or of a next number that is in use, each with the
  -- database, and so the counter of the numbers, as it was, or, for an amount and a number that are
  -- not refused, with the next number of the fiscal year and the collected row.
  pub create_payment-PaymentOutcome : lookup db.next_id db.payments ≡ none → PaymentOutcome
  unfolding create_payment with_transaction
  create_payment-PaymentOutcome n = elim (Bool-cases (company_exists input.company_id db)) [
    | inr x ↦ no_company x (ground (arith, x))
    | inl k ↦ elim (check_sale-cases input.sales_card_id) [
      | inr (misfit, s) ↦ wrong_sale misfit (ground (arith, k, s))
      | inl (fits, s) ↦
          let (number, printed, a) = allocate_number_lem env payment db in
          received-cases number a printed n k fits s
    ]
  ]
