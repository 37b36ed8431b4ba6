-- ===== src/Store/Db.antt =====
-- The state of the database: every table that the modelled services read or write.
use serv_grid.Common.{ℕ, List, Table, Text}
use serv_grid.Store.Rows.{
  Employee, Customer, Product, Service, CustomerProduct, ServiceContract, JobCard, JobCompletion,
  CompletionService, CompletionPart, JobCancellation, CashReconciliation, Company, SalesCard,
  SalesCardItem, Payment,
}
use serv_grid.Store.Events.{JobEvent, AuditEntry}

pub record Db : Type 0 where
  pub employees : Table Employee
  pub customers : Table Customer
  pub products : Table Product
  pub services : Table Service
  pub customer_products : Table CustomerProduct
  pub service_contracts : Table ServiceContract
  pub job_cards : Table JobCard
  pub job_completions : Table JobCompletion
  pub completion_services : Table (List CompletionService)
  pub completion_parts : Table (List CompletionPart)
  pub job_cancellations : Table JobCancellation
  pub job_events : List JobEvent
  pub cash_reconciliations : Table CashReconciliation
  pub audit_log : List AuditEntry
  pub companies : Table Company
  pub sales_cards : Table SalesCard
  pub sales_card_items : List SalesCardItem
  pub payments : Table Payment
  -- scope key to the last value given out
  pub sequences : List (Text × ℕ)
  -- gen_random_uuid(): the next id that no row has
  pub next_id : ℕ
