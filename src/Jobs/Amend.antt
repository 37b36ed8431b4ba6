-- ===== src/Jobs/Amend.antt =====
-- POST /v1/jobs/:id/completion/amend: amendCompletion of modules/jobs/service.ts, and its
-- statements in repo.ts.
pub mod Outcome
use serv_grid.Common.{
  ℕ, suc, Bool, true, false, not, ◌&&◌, Option, none, some, Text, Table, lookup, update, is_none,
}
use serv_grid.Shared.Errors.{forbidden, not_found, reconciliation_confirmed, internal}
use serv_grid.Shared.Permissions.{owner}
use serv_grid.Shared.Status.{completed}
use serv_grid.Store.Rows.{JobCompletion, CashReconciliation, ReconciliationStatus, confirmed}
use serv_grid.Store.Events.{Source, JobEvent, completion_amended, amended}
use serv_grid.Store.Db.{Db}
use serv_grid.Store.Tx.{
  M, ◌>>=◌, ◌>>◌, pure, gets, modify, throw_if, or_throw, with_transaction, mapping_refusals,
}
use serv_grid.Api.Clock.{Env, business_date}
use serv_grid.Cash.Repo.{find_day}
use serv_grid.Jobs.Repo.{check_completion, insert_job_event}
use serv_grid.Jobs.Cards.{Actor, Card, find_card}
use serv_grid.Jobs.Rules.{is_owner}

-- `reason` is why; the others are what to set.
pub record AmendInput : Type 0 where
  pub cost : Option ℕ
  pub discount_amount : Option ℕ
  pub discount_reason : Option Text
  pub reason : Text

abbrev pub or_before : Option ℕ → ℕ → ℕ
or_before none n = n
or_before (some m) n = m

abbrev pub or_reason : Option Text → Option Text → Option Text
or_reason none old = old
or_reason (some t) old = some t

-- The SET list of the statement.
abbrev pub patched : AmendInput → JobCompletion → JobCompletion
patched input c = record c {
  cost = or_before input.cost c.cost;
  discount_amount = or_before input.discount_amount c.discount_amount;
  discount_reason = or_reason input.discount_reason c.discount_reason;
}

abbrev pub sets_nothing : AmendInput → Bool
sets_nothing input =
    is_none input.cost && is_none input.discount_amount && is_none input.discount_reason

-- The row that an UPDATE leaves: the trigger bumps the version.
abbrev pub amended_completion : AmendInput → JobCompletion → JobCompletion
amended_completion input c = record (patched input c) { version = suc c.version }

abbrev write_completion : ℕ → AmendInput → Option JobCompletion → M (Unit {0})
write_completion id input none = pure tt
write_completion id input (some c) = do
  check_completion (patched input c)
  modify (λ db. record db {
    job_completions = update id (amended_completion input) db.job_completions;
  })

-- `if (sets.length === 0) return;`, or the UPDATE under the CHECKs
unfoldable pub amend_row_of : ℕ → AmendInput → M (Unit {0})
amend_row_of id input = elim (sets_nothing input) [
  | true ↦ pure tt
  | false ↦ do row ← gets (λ db. lookup id db.job_completions); write_completion id input row
]

abbrev pub is_confirmed : ReconciliationStatus → Bool
is_confirmed confirmed = true
is_confirmed _ = false

abbrev pub covers : Option (ℕ × CashReconciliation) → Bool
covers none = false
covers (some (id, r)) = is_confirmed r.status

-- lockCoveringReconciliation: is the closer's day confirmed?
unfoldable pub covering_reconciliation : JobCompletion → Db → Bool
covering_reconciliation c db =
    covers (find_day c.completed_by (business_date c.completed_at) db.cash_reconciliations)

abbrev pub amend_event : Env → Actor → ℕ → JobCompletion → AmendInput → Source → JobEvent
amend_event env actor id c input source = record {
  job_card_id = id;
  event_type = completion_amended;
  actor_id = actor.id;
  occurred_at = env.now;
  from_status = some completed;
  to_status = some completed;
  source = source;
  payload =
      amended input.reason (c.cost, or_before input.cost c.cost)
        (c.discount_amount, or_before input.discount_amount c.discount_amount)
        (c.discount_reason, or_reason input.discount_reason c.discount_reason);
}

-- The part of the transaction inside the `try`.
unfoldable pub amend_body : Env → Actor → ℕ → JobCompletion → AmendInput → Source → M (Unit {0})
unfolding amend_row_of insert_job_event
amend_body env actor id c input source = do
  amend_row_of id input
  insert_job_event (amend_event env actor id c input source)

unfoldable pub amend_completion : Env → Actor → ℕ → AmendInput → Source → M Card
amend_completion env actor id input source = do
  throw_if (not (is_owner actor.role)) forbidden
  with_transaction (do
    row ← gets (λ db. lookup id db.job_completions)
    before ← or_throw row not_found
    locked ← gets (covering_reconciliation before)
    throw_if locked reconciliation_confirmed
    mapping_refusals (amend_body env actor id before input source)
    card ← gets (find_card env owner id)
    or_throw card internal)
