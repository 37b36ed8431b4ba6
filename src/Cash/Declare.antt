-- ===== src/Cash/Declare.antt =====
-- POST and PATCH of declarations: declare and amend of modules/cash/service.ts.
pub mod Outcome
use serv_grid.Common.{ℕ, ◌-◌, Bool, true, false, not, Option, none, some, Text, ◌==◌, ltb}
use serv_grid.Shared.Errors.{
  validation_failed, duplicate_entity, not_found, out_of_scope, reconciliation_confirmed,
  version_conflict, internal,
}
use serv_grid.Store.Rows.{CashReconciliation}
use serv_grid.Store.Events.{declaration_amended}
use serv_grid.Store.Tx.{
  M, ok, err, app, pg, fault, Failure, unique_violation, cash_employee_date_unique, ◌>>=◌, ◌>>◌,
  pure, throw_if, or_throw, with_transaction, Constraint, PgCode,
}
use serv_grid.Api.Clock.{Env, ist_today}
use serv_grid.Cash.Repo.{insert_declaration, lock_by_id, amend_row, insert_audit, is_submitted}

-- The row, as the services answer with it.
abbrev pub Handover : Type 0
Handover = ℕ × CashReconciliation

-- `isDuplicate(error)` of the catch: SQLSTATE and constraint
abbrev pub is_day_taken : Failure → Bool
is_day_taken (pg unique_violation cash_employee_date_unique) = true
is_day_taken _ = false

abbrev pub as_duplicate : Failure → Failure
as_duplicate e = elim (is_day_taken e) [ true ↦ app duplicate_entity | false ↦ e ]

abbrev pub catching_duplicate : {A : Type 0} → M A → M A
catching_duplicate m db =
    let (r, db') = m db in elim r [ ok a ↦ (ok a, db') | err e ↦ (err (as_duplicate e), db') ]

abbrev pub business_date_max_age_days : ℕ
business_date_max_age_days = 7

-- Day 7 is long past, so `today - 7` does not stop at 0.
unfoldable pub declare : Env → ℕ → ℕ → ℕ → Option Text → M Handover
declare env actor date amount note = do
  let today = ist_today env
  throw_if (ltb today date) validation_failed
  throw_if (ltb date (today - business_date_max_age_days)) validation_failed
  catching_duplicate (with_transaction (insert_declaration env actor date amount note))

unfoldable pub amend : Env → ℕ → ℕ → ℕ → Option ℕ → Option Text → M Handover
unfolding lock_by_id insert_audit
amend env actor id if_match amount note = with_transaction (do
  row ← lock_by_id id
  r ← or_throw row not_found
  throw_if (not (r.employee_id == actor)) out_of_scope
  throw_if (not (is_submitted r.status)) reconciliation_confirmed
  throw_if (not (r.version == if_match)) version_conflict
  after ← amend_row id amount note
  updated ← or_throw after internal
  insert_audit (declaration_amended id r.employee_id actor r.business_date r.declared_amount amount)
  pure (id, updated))
