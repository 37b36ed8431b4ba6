-- ===== src/Jobs/Cancel.antt =====
-- POST /v1/jobs/:id/cancel: cancelJob of modules/jobs/service.ts.
pub mod Successor
pub mod Cases
pub mod Outcome
use serv_grid.Common.{
  ℕ, Bool, true, false, not, ◌&&◌, Option, none, some, List, [], ◌∷◌, ltb, is_none, Text,
}
use serv_grid.Shared.Errors.{not_found, out_of_scope, job_already_closed, validation_failed}
use serv_grid.Shared.Status.{unassigned, cancelled}
use serv_grid.Shared.Sequence.{job}
use serv_grid.Store.Rows.{JobCard, ServiceContract, JobCancellation, CancellationReason}
use serv_grid.Store.Db.{Db}
use serv_grid.Store.Events.{Source, JobEvent, cancelled_event, replaces_job, cancelled_because}
use serv_grid.Store.Tx.{
  M, ◌>>=◌, ◌>>◌, pure, gets, throw_if, or_throw, with_transaction, mapping_refusals,
}
use serv_grid.Api.Clock.{Env, ist_today, ist_midnight}
use serv_grid.Api.Sequences.{allocate_number}
use serv_grid.Jobs.Repo.{
  is_closed, lock_job, JobCardInsert, insert_job_card, insert_job_event, insert_cancellation,
  cancel_job_card,
}
use serv_grid.Jobs.Cards.{Actor, Card, read_back_card}
use serv_grid.Jobs.Rules.{out_of_reach}
use serv_grid.Jobs.Lookups.{AssignmentPush, push_cancelled, find_contract_for_job}
use serv_grid.Jobs.Create.{created_job_event}

pub record CancelInput : Type 0 where
  pub reason_code : CancellationReason
  pub reason_note : Option Text
  -- a date
  pub reschedule_to : Option ℕ

abbrev live_on : ℕ → Option ServiceContract → Bool
live_on day none = false
live_on day (some amc) =
    is_none amc.cancelled_at && not (ltb day amc.start_date) && not (ltb amc.end_date day)

-- The successor keeps the AMC that is live on its day.
abbrev pub successor_contract : ℕ → Option ℕ → Db → Option ℕ
successor_contract day none db = none
successor_contract day (some k) db = elim (live_on day (find_contract_for_job k db)) [
  | true ↦ some k
  | false ↦ none
]

abbrev pub successor_insert : Actor → JobCard → ℕ → Option ℕ → Text → JobCardInsert
successor_insert actor j day contract number = record {
  job_number = number;
  customer_id = j.customer_id;
  service_id = j.service_id;
  customer_product_id = j.customer_product_id;
  title = j.title;
  description = j.description;
  priority = j.priority;
  scheduled_for = some (ist_midnight day);
  contact_name = j.contact_name;
  contact_phone = j.contact_phone;
  created_by = actor.id;
  contract_id = contract;
}

-- The successor's id, when the job was put off to another day.
unfoldable pub raise_successor : Env → Actor → ℕ → JobCard → Source → Option ℕ → M (Option ℕ)
unfolding insert_job_event
raise_successor env actor id j source none = pure none
raise_successor env actor id j source (some day) = do
  throw_if (ltb day (ist_today env)) validation_failed
  contract ← gets (successor_contract day j.contract_id)
  number ← allocate_number env job
  successor ← insert_job_card (successor_insert actor j day contract number)
  insert_job_event (created_job_event env actor successor source (replaces_job id))
  pure (some successor)

abbrev pub cancel_event : Env → Actor → ℕ → JobCard → CancelInput → Option ℕ → Source → JobEvent
cancel_event env actor id j input successor source = record {
  job_card_id = id;
  event_type = cancelled_event;
  actor_id = actor.id;
  occurred_at = env.now;
  from_status = some j.status;
  to_status = some cancelled;
  source = source;
  payload = cancelled_because input.reason_code input.reason_note successor;
}

abbrev pub cancellation_row : Env → Actor → CancelInput → Option ℕ → JobCancellation
cancellation_row env actor input successor = record {
  cancelled_by = actor.id;
  cancelled_at = env.now;
  reason_code = input.reason_code;
  reason_note = input.reason_note;
  replacement_job_id = successor;
}

abbrev pub cancel_wake : ℕ → JobCard → Option ℕ → List AssignmentPush
cancel_wake id j none = []
cancel_wake id j (some t) =
    record { kind = push_cancelled; job_id = id; priority = j.priority; recipient_ids = t ∷ [] }
    ∷ []

-- The part of the transaction inside the `try`: the wake.
unfoldable pub cancel_body : Env → Actor → ℕ → CancelInput → Source → M (List AssignmentPush)
unfolding lock_job insert_job_event
cancel_body env actor id input source = do
  row ← lock_job id
  j ← or_throw row not_found
  throw_if (out_of_reach actor j) out_of_scope
  throw_if (is_closed j.status) job_already_closed
  successor ← raise_successor env actor id j source input.reschedule_to
  insert_cancellation id (cancellation_row env actor input successor)
  cancel_job_card id env.now
  insert_job_event (cancel_event env actor id j input successor source)
  pure (cancel_wake id j j.assigned_to)

-- The card, and the pushes that fire after the commit.
unfoldable pub cancel_job : Env → Actor → ℕ → CancelInput → Source → M (Card × List AssignmentPush)
unfolding cancel_body
cancel_job env actor id input source = with_transaction (do
  wake ← mapping_refusals (cancel_body env actor id input source)
  card ← read_back_card env actor id
  pure (card, wake))
