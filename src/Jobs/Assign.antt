-- ===== src/Jobs/Assign.antt =====
-- POST /v1/jobs/:id/assign: assignmentRefusal and assignJob of modules/jobs/service.ts.
pub mod Outcome
pub mod Bulk
pub mod Race
use serv_grid.Common.{
  ℕ, Bool, true, false, not, ◌&&◌, ◌||◌, Option, none, some, List, [], ◌∷◌, ◌==◌, is_none,
}
use serv_grid.Shared.Errors.{
  ErrorCode, forbidden, not_found, validation_failed, version_conflict, illegal_transition,
}
use serv_grid.Shared.Status.{JobStatus, assigned, in_progress, same_status}
use serv_grid.Store.Rows.{JobCard}
use serv_grid.Store.Events.{Source, JobEvent, EventType, assigned_event, reassigned_event, given_to}
use serv_grid.Store.Tx.{M, ◌>>=◌, ◌>>◌, pure, throw, gets, throw_if, or_throw, with_transaction}
use serv_grid.Api.Clock.{Env}
use serv_grid.Jobs.Repo.{is_closed, is_unassigned, lock_job, assign_job_card, insert_job_event}
use serv_grid.Jobs.Cards.{Actor, Card, priority_of, read_back_card}
use serv_grid.Jobs.Rules.{in_office}
use serv_grid.Jobs.Lookups.{
  AssignmentPush, PushKind, push_assigned, push_reassigned, find_active_technician,
}

-- assignmentRefusal: the version first, then the status.
unfoldable pub assignment_refusal : JobCard → ℕ → Option ErrorCode
assignment_refusal job if_match = elim (job.version == if_match) [
  | false ↦ some version_conflict
  | true ↦ elim (same_status job.status in_progress || is_closed job.status) [
    | true ↦ some illegal_transition
    | false ↦ none
  ]
]

abbrev pub refuse : Option ErrorCode → M (Unit {0})
refuse none = pure tt
refuse (some c) = throw c

-- from !== 'unassigned' && job.assigned_to !== null
abbrev pub previous_of : JobStatus → Option ℕ → Option ℕ
previous_of from none = none
previous_of from (some t) = elim (is_unassigned from) [ true ↦ none | false ↦ some t ]

abbrev pub event_type_of : JobStatus → EventType
event_type_of from = elim (is_unassigned from) [ true ↦ assigned_event | false ↦ reassigned_event ]

abbrev pub assign_event : Env → Actor → ℕ → JobCard → ℕ → Source → JobEvent
assign_event env actor id job technician source = record {
  job_card_id = id;
  event_type = event_type_of job.status;
  actor_id = actor.id;
  occurred_at = env.now;
  from_status = some job.status;
  to_status = some assigned;
  source = source;
  payload = given_to technician (previous_of job.status job.assigned_to);
}

abbrev recipients : ℕ → Option ℕ → List ℕ
recipients technician none = technician ∷ []
recipients technician (some previous) = technician ∷ previous ∷ []

abbrev pub wake_of : ℕ → JobCard → ℕ → Card → AssignmentPush
wake_of id job technician card = record {
  kind = elim (is_unassigned job.status) [ true ↦ push_assigned | false ↦ push_reassigned ];
  job_id = id;
  priority = priority_of card;
  recipient_ids = recipients technician (previous_of job.status job.assigned_to);
}

-- The write, the event and the card read back.
unfoldable pub give_job : Env → Actor → ℕ → JobCard → ℕ → Source → M Card
unfolding insert_job_event
give_job env actor id job technician source = do
  assign_job_card id technician actor.id env.now
  insert_job_event (assign_event env actor id job technician source)
  read_back_card env actor id

-- The card, and the pushes that fire after the commit.
unfoldable pub assign_job : Env → Actor → ℕ → ℕ → ℕ → Source → M (Card × List AssignmentPush)
unfolding lock_job
assign_job env actor id technician if_match source = do
  throw_if (not (in_office actor.role)) forbidden
  with_transaction (do
    picked ← gets (find_active_technician technician)
    employee ← or_throw picked validation_failed
    row ← lock_job id
    job ← or_throw row not_found
    refuse (assignment_refusal job if_match)
    card ← give_job env actor id job technician source
    pure (card, wake_of id job technician card ∷ []))
