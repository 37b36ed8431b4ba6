-- ===== src/Jobs/Complete.antt =====
-- POST /v1/jobs/:id/complete: completeJob of modules/jobs/service.ts. `lower` is the database's.
pub mod Stack
pub mod Faults
pub mod Frame
pub mod Standing
pub mod Parts
pub mod Lines
pub mod Body
pub mod Outcome
use serv_grid.Common.{
  ℕ, suc, Bool, true, false, not, ◌&&◌, ◌||◌, Option, none, some, get_or, List, [], ◌∷◌, Text, ◌==◌,
  lookup,
}
use serv_grid.Shared.Errors.{
  forbidden, not_found, out_of_scope, illegal_transition, internal, job_already_closed,
  validation_failed,
}
use serv_grid.Shared.Status.{JobStatus, completed}
use serv_grid.Store.Rows.{
  JobCard, JobCompletion, CollectionMode, none_owed, Service, CompletionService, CompletionPart,
  CustomerProduct,
}
use serv_grid.Store.Events.{Source, JobEvent, completed_event}
use serv_grid.Store.Tx.{
  M, ◌>>=◌, ◌>>◌, pure, gets, throw_if, or_throw, with_transaction, mapping_refusals,
}
use serv_grid.Api.Clock.{Env}
use serv_grid.Jobs.Repo.{
  lock_job, is_closed, is_unassigned, insert_completion, complete_job_card, insert_job_event,
}
use serv_grid.Jobs.Cards.{Actor, Card, find_card}
use serv_grid.Jobs.Rules.{in_field, out_of_reach, clamp_occurred_at, clamp_payload}
use serv_grid.Jobs.Lookups.{find_active_service}
use serv_grid.Jobs.Complete.Stack.{
  StackChangeUpsert, lock_active_unit_by_serial, insert_stack_unit, update_stack_unit_from_job,
  set_site_pin_if_absent, insert_completion_services, insert_completion_parts,
}

pub record JobStackChange : Type 0 where
  pub product_id : Option ℕ
  pub free_text_name : Option Text
  pub serial_number : Text
  pub quantity : Option ℕ
  pub installed_on : Option ℕ
  pub warranty_expires_on : Option ℕ
  pub notes : Option Text

pub record JobCompletionPart : Type 0 where
  pub product_id : Option ℕ
  pub free_text_name : Option Text
  pub quantity : ℕ
  pub unit_cost : Option ℕ
  pub serial_number : Option Text
  pub from_customer_stock : Option Bool

-- Absent lists are empty: the service reads `?? []`, and no ids as no services.
pub record CompletionInput : Type 0 where
  pub completed_at : ℕ
  pub work_summary : Text
  pub service_ids : List ℕ
  pub cost : Option ℕ
  pub discount_amount : Option ℕ
  pub discount_reason : Option Text
  pub collection_mode : Option CollectionMode
  pub payment_reference : Option Text
  pub customer_signed : Option Bool
  pub stack_changes : List JobStackChange
  pub parts : List JobCompletionPart
  pub latitude : Option ℕ
  pub longitude : Option ℕ

-- [...new Set(ids)]: each id once, where it first stood.
abbrev pub without : ℕ → List ℕ → List ℕ
without k [] = []
without k (j ∷ l) = let rest = without k l in elim (j == k) [ true ↦ rest | false ↦ j ∷ rest ]

unfoldable pub distinct_ids : List ℕ → List ℕ
distinct_ids [] = []
distinct_ids (k ∷ l) = let rest = distinct_ids l in k ∷ without k rest

-- The loop over the ids: the first that the active catalogue does not have ends it.
unfoldable pub find_services : List ℕ → M (List (ℕ × Service))
find_services [] = pure []
find_services (k ∷ l) = do
  row ← gets (find_active_service k)
  service ← or_throw row validation_failed
  rest ← find_services l
  pure ((k, service) ∷ rest)

-- services.map((service, index) => …)
unfoldable pub service_lines : ℕ → List (ℕ × Service) → List CompletionService
service_lines n [] = []
service_lines n ((k, s) ∷ l) =
    record { line_no = suc n; service_id = k; charge = s.default_charge } ∷ service_lines (suc n) l

unfoldable pub part_lines : ℕ → List JobCompletionPart → List CompletionPart
part_lines n [] = []
part_lines n (p ∷ l) =
    record {
      line_no = suc n;
      product_id = p.product_id;
      free_text_name = p.free_text_name;
      quantity = p.quantity;
      unit_cost = p.unit_cost;
      serial_number = p.serial_number;
      from_customer_stock = get_or p.from_customer_stock false;
    }
    ∷ part_lines (suc n) l

unfoldable pub completion_row : Env → Actor → CompletionInput → JobCompletion
unfolding clamp_occurred_at
completion_row env actor input = record {
  completed_by = actor.id;
  completed_at = (clamp_occurred_at input.completed_at env.now).0;
  work_summary = input.work_summary;
  cost = get_or input.cost 0;
  discount_amount = get_or input.discount_amount 0;
  discount_reason = input.discount_reason;
  collection_mode = get_or input.collection_mode none_owed;
  payment_reference = input.payment_reference;
  customer_signed = get_or input.customer_signed false;
  latitude = input.latitude;
  longitude = input.longitude;
  version = 1;
}

abbrev pub completion_event : Env → Actor → ℕ → JobStatus → CompletionInput → Source → JobEvent
completion_event env actor id from input source =
    let clamp = clamp_occurred_at input.completed_at env.now in
    record {
      job_card_id = id;
      event_type = completed_event;
      actor_id = actor.id;
      occurred_at = clamp.0;
      from_status = some from;
      to_status = some completed;
      source = source;
      payload = clamp_payload input.completed_at clamp;
    }

abbrev pub upsert_of : Actor → ℕ → JobCard → ℕ → JobStackChange → StackChangeUpsert
upsert_of actor id job at change = record {
  customer_id = job.customer_id;
  source_job_id = id;
  installed_by = actor.id;
  product_id = change.product_id;
  free_text_name = change.free_text_name;
  serial_number = change.serial_number;
  quantity = get_or change.quantity 1;
  installed_on = change.installed_on;
  completed_at = at;
  warranty_expires_on = change.warranty_expires_on;
  notes = change.notes;
}

-- The unit is new, or it stands at this customer's site and is refreshed.
abbrev pub upsert_unit : StackChangeUpsert → Option (ℕ × CustomerProduct) → M (Unit {0})
upsert_unit s none = insert_stack_unit s
upsert_unit s (some (k, u)) = do
  throw_if (not (u.customer_id == s.customer_id)) validation_failed
  update_stack_unit_from_job k s

unfoldable pub apply_stack : (Text → Text) → List StackChangeUpsert → M (Unit {0})
unfolding lock_active_unit_by_serial insert_stack_unit update_stack_unit_from_job
apply_stack lower [] = pure tt
apply_stack lower (s ∷ l) = do
  existing ← lock_active_unit_by_serial lower s.serial_number
  upsert_unit s existing
  apply_stack lower l

unfoldable pub upserts : Actor → ℕ → JobCard → ℕ → List JobStackChange → List StackChangeUpsert
upserts actor id job at [] = []
upserts actor id job at (c ∷ l) = upsert_of actor id job at c ∷ upserts actor id job at l

-- if (latitude !== undefined && longitude !== undefined)
abbrev pub register_pin : ℕ → Option ℕ → Option ℕ → M (Unit {0})
register_pin customer (some lat) (some lon) = set_site_pin_if_absent customer lat lon
register_pin customer _ _ = pure tt

-- Steps 2 to 6, inside the `try`.
unfoldable pub complete_body :
    (Text → Text)
    → Env
    → Actor
    → ℕ
    → CompletionInput
    → Source
    → JobCard
    → List (ℕ × Service)
    → M (Unit {0})
unfolding insert_completion complete_job_card insert_job_event completion_row apply_stack upserts
complete_body lower env actor id input source job services = do
  insert_completion id (completion_row env actor input)
  insert_completion_services id (service_lines 0 services)
  register_pin job.customer_id input.latitude input.longitude
  complete_job_card id (clamp_occurred_at input.completed_at env.now).0
  insert_job_event (completion_event env actor id job.status input source)
  apply_stack lower
      (upserts actor id job (clamp_occurred_at input.completed_at env.now).0 input.stack_changes)
  insert_completion_parts id (part_lines 0 input.parts)

unfoldable pub complete_job : (Text → Text) → Env → Actor → ℕ → CompletionInput → Source → M Card
unfolding lock_job
complete_job lower env actor id input source = do
  throw_if (not (in_field actor.role)) forbidden
  services ← find_services (distinct_ids input.service_ids)
  with_transaction (do
    row ← lock_job id
    job ← or_throw row not_found
    throw_if (out_of_reach actor job) out_of_scope
    throw_if (is_closed job.status) job_already_closed
    throw_if (is_unassigned job.status) illegal_transition
    mapping_refusals (complete_body lower env actor id input source job services)
    card ← gets (find_card env actor.role id)
    or_throw card internal)
