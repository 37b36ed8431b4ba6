-- ===== src/Jobs/Create/Outcome.antt =====
-- What a create request answers, on every branch, and what it writes.
use serv_grid.Common.{
  suc, ◌≡◌, ◌⊎◌, inl, inr, true, false, none, some, ◌++◌, [], ◌∷◌, arith, ◌∙◌, lookup, insert,
  lookup-insert, Option-cases, Bool-cases, Text,
}
use serv_grid.Shared.Errors.{forbidden, validation_failed, duplicate_entity}
use serv_grid.Shared.Permissions.{owner, dispatcher, technician, sales_rep}
use serv_grid.Shared.Sequence.{job, format_business_number}
use serv_grid.Shared.Status.{unassigned}
use serv_grid.Store.Rows.{JobCard, Customer, Service}
use serv_grid.Store.Events.{Source}
use serv_grid.Store.Db.{Db}
use serv_grid.Store.Tx.{Result, ok, err, app, with_transaction, map_db_refusal, mapping_refusals_ok}
use serv_grid.Api.Clock.{Env, fiscal_year_for}
use serv_grid.Api.Sequences.{allocate_number, bump}
use serv_grid.Api.Sequences.Distinct.{allocate_number_lem, key_of, next_value}
use serv_grid.Jobs.Repo.{insert_job_card, new_job, job_number_taken}
use serv_grid.Jobs.Cards.{Actor, Card, project, is_sales_rep}
use serv_grid.Jobs.Rules.{in_office}
use serv_grid.Jobs.Lookups.{find_active_customer, find_active_service}
use serv_grid.Jobs.Sound.{IsSound, read_back_card_lem}
use serv_grid.Jobs.Create.{
  JobCreate, create_job, create_body, raise_job, card_insert, created_job_event, contract_payload,
  unit_at_site, contract_ok,
}

module _ (env : Env) (actor : Actor) (input : JobCreate) (source : Source) (db : Db) where
  abbrev pub create_answer : Result Card × Db
  create_answer = create_job env actor input source db

  -- One of the four things that the form names is not there to be used.
  pub data IsRefused : Type 0 where
    customer_gone : find_active_customer input.customer_id db ≡ none → IsRefused
    service_gone : find_active_service input.service_id db ≡ none → IsRefused
    unit_elsewhere : unit_at_site input.customer_product_id input.customer_id db ≡ false → IsRefused
    not_covered :
        contract_ok env input.customer_id input.scheduled_for input.contract_id db ≡ false
        → IsRefused

  -- The job as it was asked for, unassigned, under its number and the service's name.
  abbrev pub raised_row : Service → Text → JobCard
  raised_row s n = record {
    job_number = n;
    customer_id = input.customer_id;
    service_id = input.service_id;
    customer_product_id = input.customer_product_id;
    contract_id = input.contract_id;
    title = s.name;
    description = input.description;
    priority = input.priority;
    status = unassigned;
    assigned_to = none;
    assigned_by = none;
    assigned_at = none;
    scheduled_for = input.scheduled_for;
    contact_name = input.contact_name;
    contact_phone = input.contact_phone;
    created_by = actor.id;
    closed_at = none;
    version = 1;
  }

  -- The job, its event and its number.
  abbrev pub created_db : Service → Text → Db
  created_db s n = record db {
    job_cards = insert db.next_id (raised_row s n) db.job_cards;
    job_events =
        db.job_events
        ++ (created_job_event env actor db.next_id source (contract_payload input.contract_id)
            ∷ []);
    sequences = bump (key_of env job) db.sequences;
    next_id = suc db.next_id;
  }

  -- The next number of the fiscal year, printed.
  abbrev pub IsNextJob : Text → Type 0
  IsNextJob n =
      format_business_number job (fiscal_year_for env env.now) (next_value env job db) ≡ some n

  -- All that the form names can be used.
  pub record Accepted (s : Service) (c : Customer) : Type 0 where
    pub by_office : (actor.role ≡ owner) ⊎ (actor.role ≡ dispatcher)
    pub customer : find_active_customer input.customer_id db ≡ some c
    pub service : find_active_service input.service_id db ≡ some s
    pub unit : unit_at_site input.customer_product_id input.customer_id db ≡ true
    pub contract : contract_ok env input.customer_id input.scheduled_for input.contract_id db ≡ true

  -- How a request can end.
  pub data CreateOutcome : Type 0 where
    not_office :
        (actor.role ≡ technician) ⊎ (actor.role ≡ sales_rep)
        → create_answer ≡ (err (app forbidden), db)
        → CreateOutcome
    refused :
        (actor.role ≡ owner) ⊎ (actor.role ≡ dispatcher)
        → IsRefused
        → create_answer ≡ (err (app validation_failed), db)
        → CreateOutcome
    number_in_use :
        (s : Service) (c : Customer) (n : Text)
        → Accepted s c
        → IsNextJob n
        → job_number_taken n db.job_cards ≡ true
        → create_answer ≡ (err (app duplicate_entity), db)
        → CreateOutcome
    raised :
        (s : Service) (c : Customer) (n : Text)
        → Accepted s c
        → lookup input.customer_id db.customers ≡ some c
        → IsNextJob n
        → job_number_taken n db.job_cards ≡ false
        → create_answer ≡ (
          ok (project env actor.role db.next_id (created_db s n) (raised_row s n, c)),
          created_db s n,
        )
        → CreateOutcome

  abbrev raised_answer : Service → Customer → Text → Result Card × Db
  raised_answer s c n = (
    ok (
        project env actor.role db.next_id (created_db s n)
          (new_job (card_insert actor input s n), c)),
    created_db s n,
  )

  raise_job_lem :
      (s : Service) (c : Customer) (n : Text)
      → is_sales_rep actor.role ≡ false
      → lookup input.customer_id db.customers ≡ some c
      → lookup db.next_id db.job_cards ≡ none
      → allocate_number env job db
        ≡ (ok n, record db { sequences = bump (key_of env job) db.sequences })
      → job_number_taken n db.job_cards ≡ false
      → raise_job env actor input s source db ≡ raised_answer s c n
  unfolding raise_job insert_job_card
  raise_job_lem s c n f k w al free =
      let new = new_job (card_insert actor input s n) in
      ground (
        arith,
        al,
        free,
        lookup-insert db.next_id db.next_id new db.job_cards,
        read_back_card_lem env actor db.next_id new c (created_db s n) f,
      )

  raised_lem :
      (s : Service) (c : Customer) (n : Text)
      → in_office actor.role ≡ true
      → create_body env actor input source db ≡ raised_answer s c n
      → create_answer ≡ raised_answer s c n
  unfolding create_job with_transaction
  raised_lem s c n o b =
      ground (arith, o, mapping_refusals_ok (create_body env actor input source) db b)

  taken_lem :
      (s : Service) (c : Customer) (n : Text)
      → Accepted s c
      → allocate_number env job db
        ≡ (ok n, record db { sequences = bump (key_of env job) db.sequences })
      → job_number_taken n db.job_cards ≡ true
      → create_answer ≡ (err (app duplicate_entity), db)
  unfolding create_job create_body raise_job insert_job_card with_transaction map_db_refusal
  taken_lem s c n h al t =
      ground (arith, h.by_office, h.customer, h.service, h.unit, h.contract, al, t)

  -- A form that is accepted goes on to the number and the row.
  accepted_lem :
      (s : Service) (c : Customer)
      → IsSound db
      → in_office actor.role ≡ true
      → Accepted s c
      → CreateOutcome
  unfolding create_body find_active_customer
  accepted_lem s c sound office h =
      let (n, e, a) = allocate_number_lem env job db in
      let known : lookup input.customer_id db.customers ≡ some c = ground (arith, h.customer) in
      elim (Bool-cases (job_number_taken n db.job_cards)) [
        | inl t ↦ number_in_use s c n h e t (taken_lem s c n h a t)
        | inr free ↦ raised s c n h known e free (
            raised_lem s c n office (
              ground (arith, h.unit, h.contract, h.service, h.customer)
              ∙ raise_job_lem s c n (ground arith) known (sound.fresh db.next_id (ground arith)) a
                  free))
      ]

  -- In a sound database a create request ends in one of the four ways of CreateOutcome:
  -- FORBIDDEN outside the office, VALIDATION_FAILED for a form that names a customer, service,
  -- unit or AMC that cannot be used, DUPLICATE_ENTITY when the next number is in use, each with the
  -- database and so the counters as they were, or, for a form of the office whose four parts can
  -- be used, the job with the next number of the fiscal year and its event.
  pub create_job-CreateOutcome : IsSound db → CreateOutcome
  unfolding create_job create_body with_transaction find_active_customer map_db_refusal
  create_job-CreateOutcome sound = elim (Bool-cases (in_office actor.role)) [
    | inr field ↦ not_office (ground arith) (ground arith)
    | inl office ↦ elim (Option-cases (find_active_customer input.customer_id db)) [
      | inl gone ↦ refused (ground arith) (customer_gone gone) (ground arith)
      | inr (c, ce) ↦ elim (Option-cases (find_active_service input.service_id db)) [
        | inl gone ↦ refused (ground arith) (service_gone gone) (ground arith)
        | inr (s, se) ↦
            elim (Bool-cases (unit_at_site input.customer_product_id input.customer_id db)) [
              | inr u ↦ refused (ground arith) (unit_elsewhere u) (ground arith)
              | inl u ↦
                  elim (Bool-cases
                    (contract_ok env input.customer_id input.scheduled_for input.contract_id db)) [
                      | inr v ↦ refused (ground arith) (not_covered v) (ground arith)
                      | inl v ↦ accepted_lem s c sound office (record {
                        by_office = ground arith;
                        customer = ce;
                        service = se;
                        unit = u;
                        contract = v;
                      })
                    ]
            ]
      ]
    ]
  ]
