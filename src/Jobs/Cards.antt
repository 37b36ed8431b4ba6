-- ===== src/Jobs/Cards.antt =====
-- The job card in each role's projection: findCard and its columns in modules/jobs/repo.ts,
-- repo.dispatcher.ts over v_job_cards_dispatcher (migration 015), and the mappers of service.ts.
use serv_grid.Common.{
  ℕ, ◌-◌, Bool, true, false, not, ◌&&◌, Option, none, some, Text, lookup, is_none, ltb,
}
use serv_grid.Shared.Errors.{internal, forbidden}
use serv_grid.Shared.Permissions.{Role, owner, dispatcher, technician, sales_rep}
use serv_grid.Shared.Status.{JobStatus}
use serv_grid.Store.Rows.{
  JobCard, Customer, ServiceContract, JobCompletion, CollectionMode, Priority,
}
use serv_grid.Store.Db.{Db}
use serv_grid.Store.Tx.{M, ◌>>=◌, throw, gets, or_throw}
use serv_grid.Api.Clock.{Env, business_date, ist_today}
use serv_grid.Jobs.Repo.{is_closed}

pub record Actor : Type 0 where
  pub id : ℕ
  pub role : Role

pub record TechnicianCard : Type 0 where
  pub id : ℕ
  pub job_number : Text
  pub title : Text
  pub status : JobStatus
  pub priority : Priority
  pub scheduled_for : Option ℕ
  pub customer_id : ℕ
  pub contact_name : Option Text
  pub contact_phone : Option Text
  pub description : Option Text
  -- the live AMC's number and last day
  pub contract : Option (Text × ℕ)
  pub version : ℕ

pub record DispatcherCard : Type 0 where
  pub id : ℕ
  pub job_number : Text
  pub title : Text
  pub status : JobStatus
  pub priority : Priority
  pub scheduled_for : Option ℕ
  pub customer_id : ℕ
  pub customer_name : Text
  pub assigned_to : Option ℕ
  pub is_overdue : Bool
  pub is_contract_visit : Bool
  pub version : ℕ

pub record Money : Type 0 where
  pub cost : ℕ
  pub discount_amount : ℕ
  pub discount_reason : Option Text
  pub amount_collected : ℕ
  pub collection_mode : CollectionMode

-- The owner's card is the dispatcher's with the money of the completion, when there is one.
pub data Card : Type 0 where
  technician_card : TechnicianCard → Card
  dispatcher_card : DispatcherCard → Card
  owner_card : DispatcherCard → Option Money → Card

abbrev pub priority_of : Card → Priority
priority_of (technician_card c) = c.priority
priority_of (dispatcher_card c) = c.priority
priority_of (owner_card c m) = c.priority

-- OVERDUE_SQL, and the view's is_overdue under COALESCE
abbrev pub overdue : Env → JobStatus → Option ℕ → Bool
overdue env s none = false
overdue env s (some at) = not (is_closed s) && ltb (business_date at) (ist_today env)

abbrev pub dispatcher_row : Env → ℕ → JobCard → Customer → DispatcherCard
dispatcher_row env id j c = record {
  id = id;
  job_number = j.job_number;
  title = j.title;
  status = j.status;
  priority = j.priority;
  scheduled_for = j.scheduled_for;
  customer_id = j.customer_id;
  customer_name = c.name;
  assigned_to = j.assigned_to;
  is_overdue = overdue env j.status j.scheduled_for;
  is_contract_visit = not (is_none j.contract_id);
  version = j.version;
}

-- LEFT JOIN service_contracts amc ON amc.id = jc.contract_id AND amc.cancelled_at IS NULL
abbrev pub live_amc : Option ServiceContract → Option (Text × ℕ)
live_amc none = none
live_amc (some amc) = elim amc.cancelled_at [
  | none ↦ some (amc.contract_number, amc.end_date)
  | some at ↦ none
]

abbrev pub amc_of : Db → Option ℕ → Option (Text × ℕ)
amc_of db none = none
amc_of db (some k) = live_amc (lookup k db.service_contracts)

abbrev pub technician_row : Db → ℕ → JobCard → TechnicianCard
technician_row db id j = record {
  id = id;
  job_number = j.job_number;
  title = j.title;
  status = j.status;
  priority = j.priority;
  scheduled_for = j.scheduled_for;
  customer_id = j.customer_id;
  contact_name = j.contact_name;
  contact_phone = j.contact_phone;
  description = j.description;
  contract = amc_of db j.contract_id;
  version = j.version;
}

-- amount_collected is the generated column cost - discount_amount.
abbrev pub money_of : Option JobCompletion → Option Money
money_of none = none
money_of (some c) = some (record {
  cost = c.cost;
  discount_amount = c.discount_amount;
  discount_reason = c.discount_reason;
  amount_collected = c.cost - c.discount_amount;
  collection_mode = c.collection_mode;
})

-- FROM job_cards jc JOIN customers c ON c.id = jc.customer_id
abbrev join_customer : Db → Option JobCard → Option (JobCard × Customer)
join_customer db none = none
join_customer db (some j) = elim (lookup j.customer_id db.customers) [
  | none ↦ none
  | some c ↦ some (j, c)
]

abbrev pub project : Env → Role → ℕ → Db → JobCard × Customer → Card
project env dispatcher id db (j, c) = dispatcher_card (dispatcher_row env id j c)
project env owner id db (j, c) =
    owner_card (dispatcher_row env id j c) (money_of (lookup id db.job_completions))
project env technician id db (j, c) = technician_card (technician_row db id j)
project env sales_rep id db (j, c) = technician_card (technician_row db id j)

abbrev map_card : Env → Role → ℕ → Db → Option (JobCard × Customer) → Option Card
map_card env role id db none = none
map_card env role id db (some r) = some (project env role id db r)

-- findDispatcherCard or findCard, mapped; a sales rep has no variant.
unfoldable pub find_card : Env → Role → ℕ → Db → Option Card
find_card env role id db = map_card env role id db (join_customer db (lookup id db.job_cards))

abbrev pub is_sales_rep : Role → Bool
is_sales_rep sales_rep = true
is_sales_rep _ = false

unfoldable pub read_back_card : Env → Actor → ℕ → M Card
unfolding find_card
read_back_card env actor id = elim (is_sales_rep actor.role) [
  | true ↦ throw forbidden
  | false ↦ do card ← gets (find_card env actor.role id); or_throw card internal
]
