-- ===== src/Cash/Answer.antt =====
-- The owner's answers: confirm, dispute and reopen of modules/cash/service.ts.
use serv_grid.Common.{ℕ, not, Text}
use serv_grid.Shared.Errors.{not_found, illegal_transition, internal}
use serv_grid.Store.Events.{declaration_reopened}
use serv_grid.Store.Tx.{M, ◌>>=◌, ◌>>◌, gets, throw_if, or_throw, with_transaction}
use serv_grid.Api.Clock.{Env}
use serv_grid.Cash.Repo.{
  lock_by_id, confirm_declaration, dispute_declaration, reopen_declaration, insert_audit,
  is_submitted,
}
use serv_grid.Cash.Queue.{QueueRow, queue_row_for}

unfoldable pub confirm : Env → ℕ → ℕ → ℕ → M QueueRow
unfolding lock_by_id
confirm env actor id amount = with_transaction (do
  row ← lock_by_id id
  r ← or_throw row not_found
  throw_if (not (is_submitted r.status)) illegal_transition
  confirm_declaration env id amount actor
  refreshed ← gets (queue_row_for r.employee_id r.business_date)
  or_throw refreshed internal)

unfoldable pub dispute : Env → ℕ → ℕ → Text → M QueueRow
unfolding lock_by_id
dispute env actor id note = with_transaction (do
  row ← lock_by_id id
  r ← or_throw row not_found
  throw_if (not (is_submitted r.status)) illegal_transition
  dispute_declaration env id note actor
  refreshed ← gets (queue_row_for r.employee_id r.business_date)
  or_throw refreshed internal)

unfoldable pub reopen : Env → ℕ → ℕ → Text → M QueueRow
unfolding lock_by_id insert_audit
reopen env actor id reason = with_transaction (do
  row ← lock_by_id id
  r ← or_throw row not_found
  throw_if (is_submitted r.status) illegal_transition
  reopen_declaration env id actor reason
  insert_audit (
      declaration_reopened id r.employee_id actor r.business_date r.status r.confirmed_amount
        r.owner_note reason)
  refreshed ← gets (queue_row_for r.employee_id r.business_date)
  or_throw refreshed internal)
