-- ===== src/Shared/Permissions.antt =====
-- packages/shared/src/permissions.ts: the permission matrix.
pub mod Privilege

pub data Role : Type 0 where
  owner dispatcher technician sales_rep : Role

pub data Resource : Type 0 where
  job job_money job_assign customer customer_stack company contract contract_money : Resource
  sale payment cash_declare cash_confirm employee : Resource
  location_read location_health location_send : Resource

pub data Action : Type 0 where
  read create update delete : Action

pub data Scope : Type 0 where
  all own assigned none : Scope

-- One cell of the matrix: the scope of each action.
abbrev pub cell : Scope → Scope → Scope → Scope → Action → Scope
cell r c u d read = r
cell r c u d create = c
cell r c u d update = u
cell r c u d delete = d

-- MATRIX
unfoldable pub matrix : Role → Resource → Action → Scope
matrix owner job = cell all all all all
matrix owner job_money = cell all all all all
matrix owner job_assign = cell all all all all
matrix owner customer = cell all all all all
matrix owner customer_stack = cell all all all all
matrix owner company = cell all all all all
matrix owner contract = cell all all all all
matrix owner contract_money = cell all all all all
matrix owner sale = cell all all all all
matrix owner payment = cell all all all all
matrix owner cash_declare = cell all none none none
matrix owner cash_confirm = cell all all all all
matrix owner employee = cell all all all all
matrix owner location_read = cell all all all all
matrix owner location_health = cell all all all all
matrix owner location_send = cell all all all all
matrix dispatcher job = cell all all all all
matrix dispatcher job_money = cell none none none none
matrix dispatcher job_assign = cell all all all all
matrix dispatcher customer = cell all all all none
matrix dispatcher customer_stack = cell none none none none
matrix dispatcher company = cell none none none none
matrix dispatcher contract = cell all all all all
matrix dispatcher contract_money = cell all all all all
matrix dispatcher sale = cell none none none none
matrix dispatcher payment = cell none none none none
matrix dispatcher cash_declare = cell none none none none
matrix dispatcher cash_confirm = cell none none none none
matrix dispatcher employee = cell own none own none
matrix dispatcher location_read = cell none none none none
matrix dispatcher location_health = cell all none none none
matrix dispatcher location_send = cell none none none none
matrix technician job = cell own own own own
matrix technician job_money = cell none own none none
matrix technician job_assign = cell none none none none
matrix technician customer = cell assigned none none none
matrix technician customer_stack = cell none none assigned assigned
matrix technician company = cell none none none none
matrix technician contract = cell assigned none none none
matrix technician contract_money = cell none none none none
matrix technician sale = cell none none none none
matrix technician payment = cell none none none none
matrix technician cash_declare = cell own own own none
matrix technician cash_confirm = cell none none none none
matrix technician employee = cell own none own none
matrix technician location_read = cell none none none none
matrix technician location_health = cell own none none none
matrix technician location_send = cell own own none none
matrix sales_rep job = cell none none none none
matrix sales_rep job_money = cell none none none none
matrix sales_rep job_assign = cell none none none none
matrix sales_rep customer = cell none none none none
matrix sales_rep customer_stack = cell none none none none
matrix sales_rep company = cell own own own none
matrix sales_rep contract = cell none none none none
matrix sales_rep contract_money = cell none none none none
matrix sales_rep sale = cell own own own none
matrix sales_rep payment = cell own own own none
matrix sales_rep cash_declare = cell own own own none
matrix sales_rep cash_confirm = cell none none none none
matrix sales_rep employee = cell own none own none
matrix sales_rep location_read = cell none none none none
matrix sales_rep location_health = cell own none none none
matrix sales_rep location_send = cell own own none none

unfoldable pub permit : Role → Resource → Action → Scope
unfolding matrix
permit role resource action = matrix role resource action
