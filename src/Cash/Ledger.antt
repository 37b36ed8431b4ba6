-- ===== src/Cash/Ledger.antt =====
-- What holds of the declarations between two requests, and the statements under it.
use serv_grid.Common.{
  ℕ, ◌≤◌, ◌≡◌, refl, true, ◌&&◌, Option, none, some, [], ◌∷◌, arith, Table, lookup, update, ltb,
  ◌==◌, Bool-cases, ==_refl, inl, inr,
}
use serv_grid.Store.Rows.{CashReconciliation, Employee}
use serv_grid.Store.Db.{Db}
use serv_grid.Store.Tx.{ok}
use serv_grid.Jobs.Repo.{numeric_12_2_limit}
use serv_grid.Cash.Repo.{answer_ok, dispute_ok, find_day, update_handover, touched_row}
use serv_grid.Cash.Queue.{QueueRow, queue_row, queue_row_for, expected_cash}

-- The CHECKs of a row, and its amount within numeric(12,2).
pub record IsHandover (r : CashReconciliation) : Type 0 where
  pub answered : answer_ok r ≡ true
  pub justified : dispute_ok r ≡ true
  pub fits : ltb r.declared_amount numeric_12_2_limit ≡ true

pub record IsLedger (db : Db) : Type 0 where
  pub rows :
      (id : ℕ) (r : CashReconciliation) → lookup id db.cash_reconciliations ≡ some r → IsHandover r
  -- the foreign key of employee_id
  pub employee_known :
      (id : ℕ) (r : CashReconciliation)
      → lookup id db.cash_reconciliations ≡ some r
      → (e : Employee) × (lookup r.employee_id db.employees ≡ some e)
  -- UNIQUE (employee_id, business_date)
  pub one_a_day :
      (id id' : ℕ) (r r' : CashReconciliation)
      → lookup id db.cash_reconciliations ≡ some r
      → lookup id' db.cash_reconciliations ≡ some r'
      → r.employee_id ≡ r'.employee_id
      → r.business_date ≡ r'.business_date
      → id ≡ id'
  pub fresh : (id : ℕ) → db.next_id ≤ id → lookup id db.cash_reconciliations ≡ none

pub update_handover_ok :
    (id : ℕ) (f : CashReconciliation → CashReconciliation) (r : CashReconciliation) (db : Db)
    → lookup id db.cash_reconciliations ≡ some r
    → IsHandover (f r)
    → update_handover id f db ≡ (
      ok (some (touched_row f r)),
      record db { cash_reconciliations = update id (touched_row f) db.cash_reconciliations },
    )
unfolding update_handover
update_handover_ok id f r db e h = rw (e, h.answered, h.justified, h.fits) refl

-- A day that has a row is found.
pub find_day-lookup :
    (id employee date : ℕ) (r : CashReconciliation) (t : Table CashReconciliation)
    → r.employee_id ≡ employee
    → r.business_date ≡ date
    → lookup id t ≡ some r
    → (k : ℕ) × (s : CashReconciliation) × (find_day employee date t ≡ some (k, s))
unfolding find_day lookup
find_day-lookup id employee date r [] p q e = ground arith
find_day-lookup id employee date r ((i, s) ∷ t) p q e =
    elim (Bool-cases ((s.employee_id == employee) && s.business_date == date)) [
      | inl y ↦ (i, s, ground arith)
      | inr n ↦
          let (k, w, f) =
            find_day-lookup id employee date r t p q
              (ground (arith, ==_refl employee, ==_refl date)) in
          (k, w, ground arith)
    ]

queue_row-some :
    (employee date : ℕ) (e : Employee) (x : Option ℕ) (p : ℕ × CashReconciliation)
    → (q : QueueRow) × (queue_row employee date e x (some p) ≡ some q)
queue_row-some employee date e none (i, r) = (_, refl)
queue_row-some employee date e (some x) (i, r) = (_, refl)

-- So the queue has a row for it.
pub queue_row_for-lookup :
    (id employee date : ℕ) (r : CashReconciliation) (e : Employee) (db : Db)
    → r.employee_id ≡ employee
    → r.business_date ≡ date
    → lookup id db.cash_reconciliations ≡ some r
    → lookup employee db.employees ≡ some e
    → (q : QueueRow) × (queue_row_for employee date db ≡ some q)
unfolding queue_row_for
queue_row_for-lookup id employee date r e db same_e same_d h k =
    let (i, s, f) = find_day-lookup id employee date r db.cash_reconciliations same_e same_d h in
    let (q, g) = queue_row-some employee date e (expected_cash employee date db) (i, s) in
    (q, ground (arith, k, f, g))
