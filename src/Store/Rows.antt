-- ===== src/Store/Rows.antt =====
-- The rows of the tables (apps/api/src/db/migrations), without `created_at` and `updated_at`.
-- Ids are numbers. Instants are milliseconds, dates are days since the epoch, and money is in
-- hundredths, so a numeric(12,2) column is exact.
use serv_grid.Common.{ℕ, Bool, Option, List, Text}
use serv_grid.Shared.Permissions.{Role}
use serv_grid.Shared.Status.{JobStatus}

pub data Priority : Type 0 where
  low normal high urgent : Priority

pub record Employee : Type 0 where
  pub full_name : Text
  pub role : Role
  pub is_active : Bool

pub record Customer : Type 0 where
  pub name : Text
  pub is_active : Bool
  -- latitude and longitude, which are set together
  pub site_pin : Option (ℕ × ℕ)

-- Of a product only that it is in the catalogue is read.
pub record Product : Type 0 where
  pub sku : Text
  pub name : Text
  pub is_active : Bool

pub record Service : Type 0 where
  pub name : Text
  pub default_charge : Option ℕ
  pub is_active : Bool

pub record CustomerProduct : Type 0 where
  pub customer_id : ℕ
  pub product_id : Option ℕ
  pub free_text_name : Option Text
  pub serial_number : Text
  pub quantity : ℕ
  pub installed_on : Option ℕ
  pub warranty_expires_on : Option ℕ
  pub installed_by : Option ℕ
  pub source_job_id : Option ℕ
  pub notes : Option Text
  pub is_active : Bool

pub record ServiceContract : Type 0 where
  pub contract_number : Text
  pub customer_id : ℕ
  pub start_date : ℕ
  pub end_date : ℕ
  pub cancelled_at : Option ℕ

pub record JobCard : Type 0 where
  pub job_number : Text
  pub customer_id : ℕ
  pub service_id : ℕ
  pub customer_product_id : Option ℕ
  pub contract_id : Option ℕ
  pub title : Text
  pub description : Option Text
  pub priority : Priority
  pub status : JobStatus
  pub assigned_to : Option ℕ
  pub assigned_by : Option ℕ
  pub assigned_at : Option ℕ
  pub scheduled_for : Option ℕ
  pub contact_name : Option Text
  pub contact_phone : Option Text
  pub created_by : ℕ
  pub closed_at : Option ℕ
  pub version : ℕ

pub data CollectionMode : Type 0 where
  cash upi card bank_transfer none_owed : CollectionMode

pub record JobCompletion : Type 0 where
  pub completed_by : ℕ
  pub completed_at : ℕ
  pub work_summary : Text
  pub cost : ℕ
  pub discount_amount : ℕ
  pub discount_reason : Option Text
  pub collection_mode : CollectionMode
  pub payment_reference : Option Text
  pub customer_signed : Bool
  pub latitude : Option ℕ
  pub longitude : Option ℕ
  pub version : ℕ

pub record CompletionService : Type 0 where
  pub line_no : ℕ
  pub service_id : ℕ
  pub charge : Option ℕ

pub record CompletionPart : Type 0 where
  pub line_no : ℕ
  pub product_id : Option ℕ
  pub free_text_name : Option Text
  pub quantity : ℕ
  pub unit_cost : Option ℕ
  pub serial_number : Option Text
  pub from_customer_stock : Bool

pub data CancellationReason : Type 0 where
  customer_unavailable customer_cancelled duplicate wrong_details no_access : CancellationReason
  parts_unavailable rescheduled_by_office contract_cancelled other : CancellationReason

pub record JobCancellation : Type 0 where
  pub cancelled_by : ℕ
  pub cancelled_at : ℕ
  pub reason_code : CancellationReason
  pub reason_note : Option Text
  pub replacement_job_id : Option ℕ

pub data ReconciliationStatus : Type 0 where
  submitted confirmed disputed : ReconciliationStatus

pub record CashReconciliation : Type 0 where
  pub employee_id : ℕ
  pub business_date : ℕ
  pub declared_amount : ℕ
  pub declared_at : ℕ
  pub employee_note : Option Text
  pub status : ReconciliationStatus
  pub confirmed_amount : Option ℕ
  pub confirmed_by : Option ℕ
  pub confirmed_at : Option ℕ
  pub owner_note : Option Text
  pub reopened_at : Option ℕ
  pub reopened_by : Option ℕ
  pub reopen_reason : Option Text
  pub version : ℕ

pub record Company : Type 0 where
  pub name : Text
  pub owner_rep_id : Option ℕ
  pub is_active : Bool

pub data SaleStatus : Type 0 where
  draft sale_confirmed sale_void : SaleStatus

pub record SalesCard : Type 0 where
  pub sale_number : Option Text
  pub company_id : ℕ
  pub sales_rep_id : ℕ
  pub sale_date : ℕ
  pub status : SaleStatus
  pub notes : Option Text
  pub confirmed_at : Option ℕ
  pub voided_at : Option ℕ
  pub voided_by : Option ℕ
  pub void_reason : Option Text
  pub version : ℕ

pub record SalesCardItem : Type 0 where
  pub sales_card_id : ℕ
  pub line_no : ℕ
  pub product_id : Option ℕ
  pub product_name : Text
  pub product_sku : Option Text
  pub quantity : ℕ
  pub unit_price : ℕ
  pub list_price : Option ℕ
  pub discount_pct : Option ℕ
  pub serial_numbers : Option (List Text)

pub data PaymentMode : Type 0 where
  by_cash by_upi by_card by_cheque by_bank_transfer : PaymentMode

pub data PaymentStatus : Type 0 where
  collected payment_void : PaymentStatus

pub record Payment : Type 0 where
  pub payment_number : Text
  pub company_id : ℕ
  pub sales_card_id : Option ℕ
  pub amount : ℕ
  pub mode : PaymentMode
  pub reference_no : Option Text
  pub received_by : ℕ
  pub received_at : ℕ
  pub status : PaymentStatus
  pub voided_at : Option ℕ
  pub voided_by : Option ℕ
  pub void_reason : Option Text
  pub notes : Option Text
  pub version : ℕ
