-- ===== src/Cash/Queue.antt =====
-- The owner's reconciliation queue: the views of migration 018 and queueRowFor of
-- modules/cash/repo.ts.
use serv_grid.Common.{
  ℕ, ◌+◌, ◌-◌, Bool, true, false, ◌&&◌, Option, none, some, [], ◌∷◌, Text, Table, lookup, ◌==◌, leb,
  if◌then◌else◌,
}
use serv_grid.Shared.Permissions.{Role}
use serv_grid.Store.Rows.{
  Employee, CashReconciliation, ReconciliationStatus, JobCompletion, CollectionMode, cash, Payment,
  PaymentMode, by_cash, PaymentStatus, collected,
}
use serv_grid.Store.Db.{Db}
use serv_grid.Api.Clock.{business_date as day_of}
use serv_grid.Cash.Repo.{find_day}

-- The library's ℤ over the native numbers: `negsuc n` is -(n + 1).
pub data ℤ : Type 0 where
  pos : ℕ → ℤ
  negsuc : ℕ → ℤ

-- Which numbers differ by it.
unfoldable pub minus : ℕ → ℕ → ℤ
minus a b = elim (leb b a) [ true ↦ pos (a - b) | false ↦ negsuc (b - a - 1) ]

pub data QueueFlag : Type 0 where
  missing_submission no_expected_cash variance_found match_found : QueueFlag

pub record QueueRow : Type 0 where
  pub declaration_id : Option ℕ
  pub employee_id : ℕ
  pub employee_name : Text
  pub role : Role
  pub business_date : ℕ
  pub expected_cash : Option ℕ
  pub declared_amount : Option ℕ
  pub declared_at : Option ℕ
  pub declaration_status : Option ReconciliationStatus
  pub employee_note : Option Text
  pub variance : Option ℤ
  pub flag : QueueFlag

abbrev is_cash : CollectionMode → Bool
is_cash cash = true
is_cash _ = false

abbrev is_by_cash : PaymentMode → Bool
is_by_cash by_cash = true
is_by_cash _ = false

abbrev is_collected : PaymentStatus → Bool
is_collected collected = true
is_collected _ = false

-- SUM over a group: NULL when there is no row.
abbrev add : ℕ → Option ℕ → Option ℕ
add n none = some n
add n (some m) = some (n + m)

abbrev counts_completion : ℕ → ℕ → JobCompletion → Bool
counts_completion employee date c =
    is_cash c.collection_mode && (c.completed_by == employee) && (day_of c.completed_at == date)

abbrev counts_payment : ℕ → ℕ → Payment → Bool
counts_payment employee date p =
    is_by_cash p.mode
    && is_collected p.status
    && (p.received_by == employee)
    && (day_of p.received_at == date)

unfoldable pub completion_cash : ℕ → ℕ → Table JobCompletion → Option ℕ
completion_cash employee date [] = none
completion_cash employee date ((id, c) ∷ t) =
    let rest = completion_cash employee date t in
    if counts_completion employee date c then add (c.cost - c.discount_amount) rest else rest

unfoldable pub payment_cash : ℕ → ℕ → Table Payment → Option ℕ
payment_cash employee date [] = none
payment_cash employee date ((id, p) ∷ t) =
    let rest = payment_cash employee date t in
    if counts_payment employee date p then add p.amount rest else rest

abbrev total : Option ℕ → Option ℕ → Option ℕ
total none o = o
total (some n) o = add n o

-- v_employee_expected_cash
unfoldable pub expected_cash : ℕ → ℕ → Db → Option ℕ
unfolding completion_cash payment_cash
expected_cash employee date db =
    total (completion_cash employee date db.job_completions)
      (payment_cash employee date db.payments)

-- The variance and the flag of v_cash_reconciliation_queue
abbrev pub variance_of : Option ℕ → Option ℕ → Option ℤ
variance_of (some declared) (some expected) = some (minus declared expected)
variance_of declared expected = none

abbrev pub flag_of : Option ℕ → Option ℕ → QueueFlag
flag_of none expected = missing_submission
flag_of (some declared) none = no_expected_cash
flag_of (some declared) (some expected) = elim (declared == expected) [
  | true ↦ match_found
  | false ↦ variance_found
]

abbrev pub queue_row :
    ℕ → ℕ → Employee → Option ℕ → Option (ℕ × CashReconciliation) → Option QueueRow
queue_row employee date e none none = none
queue_row employee date e (some x) none = some (record {
  declaration_id = none;
  employee_id = employee;
  employee_name = e.full_name;
  role = e.role;
  business_date = date;
  expected_cash = some x;
  declared_amount = none;
  declared_at = none;
  declaration_status = none;
  employee_note = none;
  variance = none;
  flag = flag_of none (some x);
})
queue_row employee date e x (some (id, r)) = some (record {
  declaration_id = some id;
  employee_id = employee;
  employee_name = e.full_name;
  role = e.role;
  business_date = date;
  expected_cash = x;
  declared_amount = some r.declared_amount;
  declared_at = some r.declared_at;
  declaration_status = some r.status;
  employee_note = r.employee_note;
  variance = variance_of (some r.declared_amount) x;
  flag = flag_of (some r.declared_amount) x;
})

unfoldable pub queue_row_for : ℕ → ℕ → Db → Option QueueRow
queue_row_for employee date db = elim (lookup employee db.employees) [
  | none ↦ none
  | some e ↦
      queue_row employee date e (expected_cash employee date db)
        (find_day employee date db.cash_reconciliations)
]
