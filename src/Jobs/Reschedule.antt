-- ===== src/Jobs/Reschedule.antt =====
-- PATCH /v1/jobs/:id of scheduled_for: rescheduleJob of modules/jobs/service.ts.
pub mod Outcome
use serv_grid.Common.{ℕ, Bool, not, Option, some, ◌==◌}
use serv_grid.Shared.Errors.{forbidden, not_found, version_conflict}
use serv_grid.Store.Rows.{JobCard}
use serv_grid.Store.Events.{Source, JobEvent, rescheduled, moved_date}
use serv_grid.Store.Tx.{M, ◌>>=◌, ◌>>◌, throw_if, or_throw, with_transaction}
use serv_grid.Api.Clock.{Env}
use serv_grid.Jobs.Repo.{lock_job, reschedule_job_card, insert_job_event}
use serv_grid.Jobs.Cards.{Actor, Card, read_back_card}
use serv_grid.Jobs.Rules.{in_office}

abbrev pub reschedule_event : Env → Actor → ℕ → JobCard → ℕ → Source → JobEvent
reschedule_event env actor id job at source = record {
  job_card_id = id;
  event_type = rescheduled;
  actor_id = actor.id;
  occurred_at = env.now;
  from_status = some job.status;
  to_status = some job.status;
  source = source;
  payload = moved_date job.scheduled_for at;
}

unfoldable pub reschedule_job : Env → Actor → ℕ → ℕ → ℕ → Source → M Card
unfolding lock_job insert_job_event
reschedule_job env actor id if_match scheduled_for source = do
  throw_if (not (in_office actor.role)) forbidden
  with_transaction (do
    row ← lock_job id
    job ← or_throw row not_found
    throw_if (not (job.version == if_match)) version_conflict
    reschedule_job_card id scheduled_for
    insert_job_event (reschedule_event env actor id job scheduled_for source)
    read_back_card env actor id)
