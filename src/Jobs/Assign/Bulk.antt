-- ===== src/Jobs/Assign/Bulk.antt =====
-- POST /v1/jobs/bulk-assign: bulkAssign of modules/jobs/service.ts.
pub mod Outcome
pub mod Answered
use serv_grid.Common.{
  ℕ, not, Option, none, some, List, [], ◌∷◌, ◌++◌, map, Table, lookup, Text, ltb, if◌then◌else◌,
}
use serv_grid.Shared.Errors.{
  ErrorCode, forbidden, not_found, validation_failed, version_conflict, illegal_transition,
}
use serv_grid.Store.Rows.{JobCard}
use serv_grid.Store.Events.{Source}
use serv_grid.Store.Tx.{M, ◌>>=◌, ◌>>◌, pure, gets, throw_if, or_throw, with_transaction}
use serv_grid.Api.Clock.{Env}
use serv_grid.Jobs.Repo.{lock_job}
use serv_grid.Jobs.Cards.{Actor, Card}
use serv_grid.Jobs.Rules.{in_office}
use serv_grid.Jobs.Lookups.{AssignmentPush, find_active_technician}
use serv_grid.Jobs.Assign.{assignment_refusal, give_job, wake_of}

pub record BulkEntry : Type 0 where
  pub id : ℕ
  pub if_match : ℕ

-- BulkAssignOutcome: the entry's id and the job's number, with the card or the refusal.
pub data BulkAssignOutcome : Type 0 where
  given : ℕ → Text → Card → BulkAssignOutcome
  kept : ℕ → Text → ErrorCode → BulkAssignOutcome

-- [...entries].sort((a, b) => (a.id < b.id ? -1 : 1)), by insertion
unfoldable pub place : BulkEntry → List BulkEntry → List BulkEntry
place e [] = e ∷ []
place e (d ∷ l) = if ltb d.id e.id then d ∷ place e l else e ∷ d ∷ l

unfoldable pub lock_order : List BulkEntry → List BulkEntry
unfolding place
lock_order [] = []
lock_order (e ∷ l) = place e (lock_order l)

abbrev narrowed : ErrorCode → ErrorCode
narrowed illegal_transition = illegal_transition
narrowed _ = version_conflict

-- One turn of the loop on a locked job: what `outcomes.set` and `wakes.push` are given.
abbrev pub bulk_one :
    Env
    → Actor
    → ℕ
    → Source
    → BulkEntry
    → JobCard
    → Option ErrorCode
    → M (BulkAssignOutcome × List AssignmentPush)
bulk_one env actor technician source e job (some code) =
    pure (kept e.id job.job_number (narrowed code), [])
bulk_one env actor technician source e job none = do
  card ← give_job env actor e.id job technician source
  pure (given e.id job.job_number card, wake_of e.id job technician card ∷ [])

abbrev pub bulk_row :
    Env
    → Actor
    → ℕ
    → Source
    → BulkEntry
    → Option JobCard
    → M (BulkAssignOutcome × List AssignmentPush)
bulk_row env actor technician source e none = pure (kept e.id [] not_found, [])
bulk_row env actor technician source e (some job) =
    bulk_one env actor technician source e job (assignment_refusal job e.if_match)

unfoldable pub bulk_entry :
    Env → Actor → ℕ → Source → BulkEntry → M (BulkAssignOutcome × List AssignmentPush)
unfolding lock_job
bulk_entry env actor technician source e = do
  row ← lock_job e.id
  bulk_row env actor technician source e row

-- `outcomes.set` before the later turns of the loop: a later turn for the same id overwrites.
abbrev pub set_before : ℕ → BulkAssignOutcome → Table BulkAssignOutcome → Table BulkAssignOutcome
set_before id o later = elim (lookup id later) [ none ↦ (id, o) ∷ later | some p ↦ later ]

-- The loop: the outcomes by id, and the wakes.
unfoldable pub bulk_loop :
    Env → Actor → ℕ → Source → List BulkEntry → M (Table BulkAssignOutcome × List AssignmentPush)
bulk_loop env actor technician source [] = pure ([], [])
bulk_loop env actor technician source (e ∷ l) = do
  one ← bulk_entry env actor technician source e
  rest ← bulk_loop env actor technician source l
  pure (set_before e.id one.0 rest.0, one.1 ++ rest.1)

abbrev pub outcome_for : Table BulkAssignOutcome → BulkEntry → Option BulkAssignOutcome
outcome_for outcomes e = lookup e.id outcomes

-- The results in the order of the entries, and the pushes that fire after the commit.
unfoldable pub bulk_assign :
    Env
    → Actor
    → List BulkEntry
    → ℕ
    → Source
    → M (List (Option BulkAssignOutcome) × List AssignmentPush)
unfolding bulk_loop lock_order
bulk_assign env actor entries technician source = do
  throw_if (not (in_office actor.role)) forbidden
  with_transaction (do
    picked ← gets (find_active_technician technician)
    employee ← or_throw picked validation_failed
    done ← bulk_loop env actor technician source (lock_order entries)
    pure (map (outcome_for done.0) entries, done.1))
