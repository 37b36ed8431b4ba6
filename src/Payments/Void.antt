-- ===== src/Payments/Void.antt =====
-- What the void of a payment answers, on every branch, and what it writes.
use serv_grid.Common.{
  ℕ, suc, ◌≡◌, ◌≢◌, inl, inr, none, some, Text, arith, Option-cases, Bool-cases, lookup, update,
  lookup-update,
}
use serv_grid.Shared.Errors.{not_found, illegal_transition}
use serv_grid.Store.Rows.{Payment, payment_void}
use serv_grid.Store.Db.{Db}
use serv_grid.Store.Tx.{Result, ok, err, app, with_transaction}
use serv_grid.Api.Clock.{Env}
use serv_grid.Jobs.Cards.{Actor}
use serv_grid.Payments.{
  PaymentRecord, is_voided, voided_payment, void_payment_row, find_payment, void_payment,
}

module _ (env : Env) (actor : Actor) (id : ℕ) (reason : Text) (db : Db) where
  abbrev pub void_answer : Result PaymentRecord × Db
  void_answer = void_payment env actor id reason db

  -- Marked void by the actor, now, for the reason; all else is as it was.
  abbrev pub marked_void : Payment → Payment
  marked_void p = record {
    payment_number = p.payment_number;
    company_id = p.company_id;
    sales_card_id = p.sales_card_id;
    amount = p.amount;
    mode = p.mode;
    reference_no = p.reference_no;
    received_by = p.received_by;
    received_at = p.received_at;
    status = payment_void;
    voided_at = some env.now;
    voided_by = some actor.id;
    void_reason = some reason;
    notes = p.notes;
    version = suc p.version;
  }

  -- How a void can end.
  pub data VoidOutcome : Type 0 where
    no_payment :
        lookup id db.payments ≡ none → void_answer ≡ (err (app not_found), db) → VoidOutcome
    already_void :
        (p : Payment)
        → lookup id db.payments ≡ some p
        → p.status ≡ payment_void
        → void_answer ≡ (err (app illegal_transition), db)
        → VoidOutcome
    voided_it :
        (p : Payment)
        → lookup id db.payments ≡ some p
        → p.status ≢ payment_void
        → void_answer
          ≡ (ok (id, marked_void p), record db { payments = update id marked_void db.payments })
        → VoidOutcome

  -- A void ends in NOT_FOUND, in ILLEGAL_TRANSITION for a payment that is void already, both with
  -- the database as it was, or with the row marked void by the actor, now, for the reason, its
  -- number, account, amount and mode as they were.
  pub void_payment-VoidOutcome : VoidOutcome
  unfolding void_payment void_payment_row find_payment with_transaction
  void_payment-VoidOutcome = elim (Option-cases (lookup id db.payments)) [
    | inl n ↦ no_payment n (ground (arith, n))
    | inr (p, e) ↦ elim (Bool-cases (is_voided p.status)) [
      | inl v ↦ already_void p e (ground (arith, v)) (ground (arith, e, v))
      | inr v ↦ voided_it p e (ground (arith, v)) (
          ground
            (arith, e, v, lookup-update id id (voided_payment actor.id env.now reason) db.payments))
    ]
  ]
