-- ===== src/Witnesses/Data.antt =====
-- A small office: an owner, two technicians, a customer and three jobs.
use serv_grid.Common.{true, none, some, [], ◌∷◌, codes, arith, lookup}
use serv_grid.Shared.Permissions.{owner, dispatcher, technician}
use serv_grid.Shared.Status.{assigned}
use serv_grid.Common.{refl}
use serv_grid.Shared.Status.{completed}
use serv_grid.Store.Rows.{JobCompletion, upi}
use serv_grid.Store.Rows.{
  Employee, Customer, Service, JobCard, normal, CashReconciliation, submitted, confirmed,
}
use serv_grid.Store.Db.{Db}
use serv_grid.Api.Clock.{Env}
use serv_grid.Jobs.Cards.{Actor}
use serv_grid.Cash.Ledger.{IsLedger}
use serv_grid.Jobs.Sound.{IsSound}

-- an instant of May 2026 (month 4, counted from 0)
abbrev pub noon : Env
noon = record { now = 1780000000000; utc_year = λ _. 2026; utc_month = λ _. 4 }

abbrev pub the_owner : Actor
the_owner = record { id = 1; role = owner }

abbrev pub desk : Actor
desk = record { id = 2; role = dispatcher }

abbrev pub ravi : Actor
ravi = record { id = 3; role = technician }

abbrev pub employee_3 : Employee
employee_3 = record { full_name = codes "Ravi"; role = technician; is_active = true }

abbrev pub customer_5 : Customer
customer_5 = record { name = codes "Meera"; is_active = true; site_pin = none }

abbrev service_6 : Service
service_6 = record { name = codes "Repair"; default_charge = some 50000; is_active = true }

abbrev pub job_7 : JobCard
job_7 = record {
  job_number = codes "JC-2627-00001";
  customer_id = 5;
  service_id = 6;
  customer_product_id = none;
  contract_id = none;
  title = codes "Repair";
  description = none;
  priority = normal;
  status = assigned;
  assigned_to = some 3;
  assigned_by = some 2;
  assigned_at = some 1779990000000;
  scheduled_for = none;
  contact_name = none;
  contact_phone = none;
  created_by = 2;
  closed_at = none;
  version = 2;
}

abbrev pub handover_9 : CashReconciliation
handover_9 = record {
  employee_id = 3;
  business_date = 20602;
  declared_amount = 120000;
  declared_at = 1779990000000;
  employee_note = none;
  status = submitted;
  confirmed_amount = none;
  confirmed_by = none;
  confirmed_at = none;
  owner_note = none;
  reopened_at = none;
  reopened_by = none;
  reopen_reason = none;
  version = 1;
}

abbrev pub office : Db
office = record {
  employees = (3, employee_3) ∷ [];
  customers = (5, customer_5) ∷ [];
  products = [];
  services = (6, service_6) ∷ [];
  customer_products = [];
  service_contracts = [];
  job_cards = (7, job_7) ∷ [];
  job_completions = [];
  completion_services = [];
  completion_parts = [];
  job_cancellations = [];
  job_events = [];
  cash_reconciliations = (9, handover_9) ∷ [];
  audit_log = [];
  companies = [];
  sales_cards = [];
  sales_card_items = [];
  payments = [];
  sequences = [];
  next_id = 10;
}

pub office-IsSound : IsSound office
unfolding lookup
office-IsSound = record {
  coherent = λ id j e. record { assignment = ground arith; closing = ground arith };
  customer_known = λ id j e. (customer_5, ground arith);
  completion_closed = λ id c e. ground arith;
  cancellation_closed = λ id c e. ground arith;
  fresh = λ id h. ground arith;
}

pub office-IsLedger : IsLedger office
unfolding lookup
office-IsLedger = record {
  rows =
      λ id r e. record { answered = ground arith; justified = ground arith; fits = ground arith };
  employee_known = λ id r e. (employee_3, ground arith);
  one_a_day = λ id id' r r' e e' p q. ground arith;
  fresh = λ id h. ground arith;
}

-- The same office after the owner confirmed the day.
abbrev pub confirmed_9 : CashReconciliation
confirmed_9 = record handover_9 {
  status = confirmed;
  confirmed_amount = some 120000;
  confirmed_by = some 1;
  confirmed_at = some 1779999000000;
  version = 2;
}

abbrev pub answered_office : Db
answered_office = record office { cash_reconciliations = (9, confirmed_9) ∷ [] }

pub answered_office-IsLedger : IsLedger answered_office
unfolding lookup
answered_office-IsLedger = record {
  rows =
      λ id r e. record { answered = ground arith; justified = ground arith; fits = ground arith };
  employee_known = λ id r e. (employee_3, ground arith);
  one_a_day = λ id id' r r' e e' p q. ground arith;
  fresh = λ id h. ground arith;
}

abbrev completion_7 : JobCompletion
completion_7 = record {
  completed_by = 3;
  completed_at = 1779999000000;
  work_summary = codes "Changed the filter";
  cost = 60000;
  discount_amount = 0;
  discount_reason = none;
  collection_mode = upi;
  payment_reference = none;
  customer_signed = true;
  latitude = none;
  longitude = none;
  version = 1;
}

-- The same office after job 7 was completed.
abbrev pub closed_office : Db
closed_office = record office {
  job_cards =
      (7, record job_7 { status = completed; closed_at = some 1779999000000; version = 3 }) ∷ [];
  job_completions = (7, completion_7) ∷ [];
}

pub closed_office-IsSound : IsSound closed_office
unfolding lookup
closed_office-IsSound = record {
  coherent = λ id j e. record { assignment = ground arith; closing = ground arith };
  customer_known = λ id j e. (customer_5, ground arith);
  completion_closed = λ id c e. (
    record job_7 { status = completed; closed_at = some 1779999000000; version = 3 },
    ground arith,
    refl,
  );
  cancellation_closed = λ id c e. ground arith;
  fresh = λ id h. ground arith;
}
