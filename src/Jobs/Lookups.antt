-- ===== src/Jobs/Lookups.antt =====
-- modules/jobs/repo.ts: the reads that the create, assign and cancel doors make of other tables,
-- and the push of the notifier (AssignmentPush of notifications/service.ts).
use serv_grid.Common.{ℕ, Bool, true, false, ◌&&◌, Option, none, some, List, lookup, ◌==◌}
use serv_grid.Store.Rows.{Employee, Customer, Service, ServiceContract, Priority}
use serv_grid.Store.Db.{Db}
use serv_grid.Api.Clock.{Env, business_date}
use serv_grid.Jobs.Rules.{is_technician}

pub data PushKind : Type 0 where
  push_assigned push_reassigned push_cancelled : PushKind

pub record AssignmentPush : Type 0 where
  pub kind : PushKind
  pub job_id : ℕ
  pub priority : Priority
  pub recipient_ids : List ℕ

-- SELECT … WHERE id = $1 AND role = 'technician' AND is_active
unfoldable pub find_active_technician : ℕ → Db → Option Employee
find_active_technician id db = elim (lookup id db.employees) [
  | none ↦ none
  | some e ↦ elim (is_technician e.role && e.is_active) [ true ↦ some e | false ↦ none ]
]

-- SELECT … FROM services WHERE id = $1 AND is_active
unfoldable pub find_active_service : ℕ → Db → Option Service
find_active_service id db = elim (lookup id db.services) [
  | none ↦ none
  | some s ↦ elim s.is_active [ true ↦ some s | false ↦ none ]
]

-- SELECT … FROM customers WHERE id = $1 AND is_active
unfoldable pub find_active_customer : ℕ → Db → Option Customer
find_active_customer id db = elim (lookup id db.customers) [
  | none ↦ none
  | some c ↦ elim c.is_active [ true ↦ some c | false ↦ none ]
]

-- SELECT 1 FROM customer_products WHERE id = $1 AND customer_id = $2 AND is_active
unfoldable pub unit_belongs_to : ℕ → ℕ → Db → Bool
unit_belongs_to unit customer db = elim (lookup unit db.customer_products) [
  | none ↦ false
  | some u ↦ (u.customer_id == customer) && u.is_active
]

unfoldable pub find_contract_for_job : ℕ → Db → Option ServiceContract
find_contract_for_job id db = lookup id db.service_contracts

-- business_date(COALESCE($1, now()))
unfoldable pub business_date_of : Env → Option ℕ → ℕ
unfolding business_date
business_date_of env none = business_date env.now
business_date_of env (some at) = business_date at
