-- ===== src/Jobs/Status.antt =====
-- POST /v1/jobs/:id/status: changeStatus of modules/jobs/service.ts.
pub mod Outcome
use serv_grid.Common.{ℕ, Bool, not, ◌&&◌, ◌||◌, Option, some}
use serv_grid.Shared.Errors.{forbidden, not_found, out_of_scope, illegal_transition, internal}
use serv_grid.Shared.Status.{JobStatus, can_transition}
use serv_grid.Store.Events.{Source, JobEvent, status_changed}
use serv_grid.Store.Tx.{M, ◌>>=◌, ◌>>◌, gets, throw_if, or_throw, with_transaction}
use serv_grid.Api.Clock.{Env}
use serv_grid.Jobs.Repo.{lock_job, update_job_status, insert_job_event}
use serv_grid.Jobs.Cards.{Actor, Card, find_card}
use serv_grid.Jobs.Rules.{
  in_field, out_of_reach, status_moves, some_move, clamp_occurred_at, clamp_payload,
}

abbrev pub status_event : Env → Actor → ℕ → JobStatus → JobStatus → ℕ → Source → JobEvent
status_event env actor id from to occurred_at source =
    let clamp = clamp_occurred_at occurred_at env.now in
    record {
      job_card_id = id;
      event_type = status_changed;
      actor_id = actor.id;
      occurred_at = clamp.0;
      from_status = some from;
      to_status = some to;
      source = source;
      payload = clamp_payload occurred_at clamp;
    }

unfoldable pub change_status : Env → Actor → ℕ → JobStatus → ℕ → Source → M Card
unfolding lock_job insert_job_event
change_status env actor id to occurred_at source = do
  throw_if (not (in_field actor.role)) forbidden
  with_transaction (do
    row ← lock_job id
    job ← or_throw row not_found
    throw_if (out_of_reach actor job) out_of_scope
    throw_if (not (some_move status_moves job.status to) || not (can_transition job.status to))
        illegal_transition
    update_job_status id to
    insert_job_event (status_event env actor id job.status to occurred_at source)
    card ← gets (find_card env actor.role id)
    or_throw card internal)
