-- ===== src/Cash/Repo.antt =====
-- modules/cash/repo.ts: the statements on cash_reconciliations, with the constraints of
-- migration 010 and the touch trigger.
use serv_grid.Common.{
  ℕ, suc, Bool, true, false, not, ◌&&◌, Option, none, some, [], ◌∷◌, ◌++◌, Text, Table, lookup,
  insert, update, is_none, ◌==◌, ltb,
}
use serv_grid.Store.Rows.{CashReconciliation, ReconciliationStatus, submitted, confirmed, disputed}
use serv_grid.Store.Events.{AuditEntry}
use serv_grid.Store.Tx.{
  M, err, fault, ◌>>=◌, ◌>>◌, pure, gets, modify, refuse_if, check_violation, unique_violation,
  foreign_key_violation, numeric_value_out_of_range, no_constraint, cash_submitted_means_unanswered,
  cash_disputed_justified, cash_employee_date_unique,
}
use serv_grid.Api.Clock.{Env}
use serv_grid.Jobs.Repo.{numeric_12_2_limit}

abbrev pub is_submitted : ReconciliationStatus → Bool
is_submitted submitted = true
is_submitted _ = false

abbrev pub is_disputed : ReconciliationStatus → Bool
is_disputed disputed = true
is_disputed _ = false

-- cash_submitted_means_unanswered
abbrev pub answer_ok : CashReconciliation → Bool
answer_ok r = elim (is_submitted r.status) [
  | true ↦ is_none r.confirmed_at
  | false ↦ not (is_none r.confirmed_at)
]

-- cash_disputed_justified
abbrev pub dispute_ok : CashReconciliation → Bool
dispute_ok r = not (is_disputed r.status && is_none r.owner_note)

-- The row of an employee and a day.
unfoldable pub find_day : ℕ → ℕ → Table CashReconciliation → Option (ℕ × CashReconciliation)
find_day employee date [] = none
find_day employee date ((id, r) ∷ t) =
    elim ((r.employee_id == employee) && r.business_date == date) [
      | true ↦ some (id, r)
      | false ↦ find_day employee date t
    ]

abbrev pub new_handover : Env → ℕ → ℕ → ℕ → Option Text → CashReconciliation
new_handover env employee date amount note = record {
  employee_id = employee;
  business_date = date;
  declared_amount = amount;
  declared_at = env.now;
  employee_note = note;
  status = submitted;
  confirmed_amount = none;
  confirmed_by = none;
  confirmed_at = none;
  owner_note = none;
  reopened_at = none;
  reopened_by = none;
  reopen_reason = none;
  version = 1;
}

abbrev is_found : Option (ℕ × CashReconciliation) → Bool
is_found none = false
is_found (some r) = true

-- INSERT … RETURNING
unfoldable pub insert_declaration : Env → ℕ → ℕ → ℕ → Option Text → M (ℕ × CashReconciliation)
unfolding find_day
insert_declaration env employee date amount note = do
  refuse_if (not (ltb amount numeric_12_2_limit)) numeric_value_out_of_range no_constraint
  taken ← gets (λ db. is_found (find_day employee date db.cash_reconciliations))
  refuse_if taken unique_violation cash_employee_date_unique
  known ← gets (λ db. lookup employee db.employees)
  refuse_if (is_none known) foreign_key_violation no_constraint
  id ← gets (λ db. db.next_id)
  modify (λ db. record db {
    cash_reconciliations =
        insert id (new_handover env employee date amount note) db.cash_reconciliations;
    next_id = suc id;
  })
  pure (id, new_handover env employee date amount note)

-- SELECT … WHERE id = $1 FOR UPDATE
unfoldable pub lock_by_id : ℕ → M (Option CashReconciliation)
lock_by_id id = gets (λ db. lookup id db.cash_reconciliations)

-- The row that an UPDATE leaves: the trigger bumps the version.
abbrev pub touched_row :
    (CashReconciliation → CashReconciliation) → CashReconciliation → CashReconciliation
touched_row f r = record (f r) { version = suc r.version }

abbrev write_handover :
    ℕ
    → (CashReconciliation → CashReconciliation)
    → Option CashReconciliation
    → M (Option CashReconciliation)
write_handover id f none = pure none
write_handover id f (some r) = do
  refuse_if (not (ltb (f r).declared_amount numeric_12_2_limit)) numeric_value_out_of_range
      no_constraint
  refuse_if (not (answer_ok (f r))) check_violation cash_submitted_means_unanswered
  refuse_if (not (dispute_ok (f r))) check_violation cash_disputed_justified
  modify
      (λ db. record db { cash_reconciliations = update id (touched_row f) db.cash_reconciliations })
  pure (some (touched_row f r))

-- UPDATE cash_reconciliations SET … WHERE id = $1 RETURNING …
unfoldable pub update_handover :
    ℕ → (CashReconciliation → CashReconciliation) → M (Option CashReconciliation)
update_handover id f = do
  row ← gets (λ db. lookup id db.cash_reconciliations)
  write_handover id f row

abbrev or_old : {A : Type 0} → Option A → A → A
or_old none a = a
or_old (some b) a = b

-- An absent note is left as it is.
abbrev keep_note : Option Text → Option Text → Option Text
keep_note none old = old
keep_note (some note) old = some note

abbrev pub amended_row : Option ℕ → Option Text → CashReconciliation → CashReconciliation
amended_row amount note r = record r {
  declared_amount = or_old amount r.declared_amount;
  employee_note = keep_note note r.employee_note;
}

-- With nothing to set, the statement is not SQL.
unfoldable pub amend_row : ℕ → Option ℕ → Option Text → M (Option CashReconciliation)
unfolding update_handover
amend_row id amount note = elim (is_none amount && is_none note) [
  | true ↦ λ db. (err fault, db)
  | false ↦ update_handover id (amended_row amount note)
]

abbrev pub confirmed_row : Env → ℕ → ℕ → CashReconciliation → CashReconciliation
confirmed_row env amount actor r = record r {
  status = confirmed;
  confirmed_amount = some amount;
  confirmed_by = some actor;
  confirmed_at = some env.now;
}

-- The confirmed amount is a numeric(12,2) too.
unfoldable pub confirm_declaration : Env → ℕ → ℕ → ℕ → M (Option CashReconciliation)
unfolding update_handover
confirm_declaration env id amount actor = do
  refuse_if (not (ltb amount numeric_12_2_limit)) numeric_value_out_of_range no_constraint
  update_handover id (confirmed_row env amount actor)

abbrev pub disputed_row : Env → Text → ℕ → CashReconciliation → CashReconciliation
disputed_row env note actor r = record r {
  status = disputed;
  owner_note = some note;
  confirmed_by = some actor;
  confirmed_at = some env.now;
}

unfoldable pub dispute_declaration : Env → ℕ → Text → ℕ → M (Option CashReconciliation)
unfolding update_handover
dispute_declaration env id note actor = update_handover id (disputed_row env note actor)

abbrev pub reopened_row : Env → ℕ → Text → CashReconciliation → CashReconciliation
reopened_row env actor reason r = record r {
  status = submitted;
  confirmed_amount = none;
  confirmed_at = none;
  owner_note = none;
  reopened_at = some env.now;
  reopened_by = some actor;
  reopen_reason = some reason;
}

unfoldable pub reopen_declaration : Env → ℕ → ℕ → Text → M (Option CashReconciliation)
unfolding update_handover
reopen_declaration env id actor reason = update_handover id (reopened_row env actor reason)

unfoldable pub insert_audit : AuditEntry → M (Unit {0})
insert_audit e = modify (λ db. record db { audit_log = db.audit_log ++ (e ∷ []) })
