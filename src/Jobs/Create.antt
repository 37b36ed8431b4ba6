-- ===== src/Jobs/Create.antt =====
-- POST /v1/jobs: createJob of modules/jobs/service.ts.
pub mod Outcome
use serv_grid.Common.{
  ℕ, Bool, true, false, not, ◌&&◌, ◌||◌, Option, none, some, ◌==◌, ltb, is_none, Text,
}
use serv_grid.Shared.Errors.{forbidden, validation_failed}
use serv_grid.Shared.Status.{unassigned}
use serv_grid.Shared.Sequence.{job}
use serv_grid.Store.Rows.{Priority, Service, ServiceContract}
use serv_grid.Store.Db.{Db}
use serv_grid.Store.Events.{Source, JobEvent, Payload, created_event, no_payload, under_contract}
use serv_grid.Store.Tx.{
  M, ◌>>=◌, ◌>>◌, pure, throw, gets, throw_if, or_throw, with_transaction, mapping_refusals,
}
use serv_grid.Api.Clock.{Env}
use serv_grid.Api.Sequences.{allocate_number}
use serv_grid.Jobs.Repo.{JobCardInsert, insert_job_card, insert_job_event}
use serv_grid.Jobs.Cards.{Actor, Card, read_back_card}
use serv_grid.Jobs.Rules.{in_office}
use serv_grid.Jobs.Lookups.{
  find_active_customer, find_active_service, unit_belongs_to, find_contract_for_job,
  business_date_of,
}

-- The body of the request. `JobCreate` of the contracts package.
pub record JobCreate : Type 0 where
  pub customer_id : ℕ
  pub service_id : ℕ
  pub customer_product_id : Option ℕ
  pub description : Option Text
  pub priority : Priority
  pub scheduled_for : Option ℕ
  pub contact_name : Option Text
  pub contact_phone : Option Text
  pub contract_id : Option ℕ

abbrev pub unit_at_site : Option ℕ → ℕ → Db → Bool
unit_at_site none customer db = true
unit_at_site (some unit) customer db = unit_belongs_to unit customer db

-- The AMC is the customer's, live, and covers the day.
abbrev pub amc_covers : Env → ℕ → Option ℕ → Option ServiceContract → Bool
amc_covers env customer at none = false
amc_covers env customer at (some amc) =
    (amc.customer_id == customer)
    && is_none amc.cancelled_at
    && not (ltb (business_date_of env at) amc.start_date)
    && not (ltb amc.end_date (business_date_of env at))

-- The three refusals have one code.
abbrev pub contract_ok : Env → ℕ → Option ℕ → Option ℕ → Db → Bool
contract_ok env customer at none db = true
contract_ok env customer at (some k) db = amc_covers env customer at (find_contract_for_job k db)

abbrev pub contract_payload : Option ℕ → Payload
contract_payload none = no_payload
contract_payload (some k) = under_contract (some k)

abbrev pub created_job_event : Env → Actor → ℕ → Source → Payload → JobEvent
created_job_event env actor id source payload = record {
  job_card_id = id;
  event_type = created_event;
  actor_id = actor.id;
  occurred_at = env.now;
  from_status = none;
  to_status = some unassigned;
  source = source;
  payload = payload;
}

abbrev pub card_insert : Actor → JobCreate → Service → Text → JobCardInsert
card_insert actor input service number = record {
  job_number = number;
  customer_id = input.customer_id;
  service_id = input.service_id;
  customer_product_id = input.customer_product_id;
  title = service.name;
  description = input.description;
  priority = input.priority;
  scheduled_for = input.scheduled_for;
  contact_name = input.contact_name;
  contact_phone = input.contact_phone;
  created_by = actor.id;
  contract_id = input.contract_id;
}

-- The number, the row, its event and the card read back.
unfoldable pub raise_job : Env → Actor → JobCreate → Service → Source → M Card
unfolding insert_job_event
raise_job env actor input service source = do
  number ← allocate_number env job
  id ← insert_job_card (card_insert actor input service number)
  insert_job_event (created_job_event env actor id source (contract_payload input.contract_id))
  read_back_card env actor id

-- The part of the transaction inside the `try`.
unfoldable pub create_body : Env → Actor → JobCreate → Source → M Card
create_body env actor input source = do
  customer ← gets (find_active_customer input.customer_id)
  found ← or_throw customer validation_failed
  offered ← gets (find_active_service input.service_id)
  service ← or_throw offered validation_failed
  at_site ← gets (unit_at_site input.customer_product_id input.customer_id)
  throw_if (not at_site) validation_failed
  covered ← gets (contract_ok env input.customer_id input.scheduled_for input.contract_id)
  throw_if (not covered) validation_failed
  raise_job env actor input service source

unfoldable pub create_job : Env → Actor → JobCreate → Source → M Card
unfolding create_body
create_job env actor input source = do
  throw_if (not (in_office actor.role)) forbidden
  with_transaction (mapping_refusals (create_body env actor input source))
