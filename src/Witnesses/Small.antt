-- ===== src/Witnesses/Small.antt =====
-- Witnesses of the shared rules: statuses, numbers, permissions, scopes and the clock.
use serv_grid.Common.{
  ◌+◌, Table, ◌≡◌, ◌≤◌, ◌↔◌, ◌⊎◌, true, false, none, some, [], ◌∷◌, codes, arith, Text,
}
use serv_grid.Shared.Status.{
  unassigned, assigned, completed, cancelled, can_transition, is_terminal_job_status,
}
use serv_grid.Shared.Status.Graph.{
  Move, Reaches, here, then, assign, can_transition_iff, closes_or_stuck,
}
use serv_grid.Shared.Sequence.{
  job, sale, prefix_for_scope, format_business_number, parse_business_number,
}
use serv_grid.Shared.Sequence.RoundTrip.{parse-format}
use serv_grid.Shared.Permissions.{
  Scope, technician, sales_rep, create, read, owner, dispatcher, location_read, cash_confirm,
  job_money, job_assign, contract_money, permit,
}
use serv_grid.Shared.Permissions.Privilege.{owner_only}
use serv_grid.Api.Clock.{business_date, ist_midnight, business_date-ist_midnight}
use serv_grid.Api.Sequences.Distinct.{AreDistinct, issue, issue-AreDistinct}
use serv_grid.Shared.Permissions.{Resource}
use serv_grid.Store.Rows.{SalesCard, draft, Payment, by_upi, collected, Company, JobCard}
use serv_grid.Rbac.Rows.{IsVisible, job_row, sale_row, payment_row, company_row, IsVisible-rows}
use serv_grid.Witnesses.Data.{noon, office, job_7}

can_transition_example : (can_transition assigned cancelled ≡ true) ↔ Move assigned cancelled
can_transition_example = can_transition_iff assigned cancelled

closes_or_stuck_example :
    (is_terminal_job_status unassigned ≡ true) × (assigned ≡ unassigned)
    ⊎ (is_terminal_job_status unassigned ≡ false)
      × Reaches unassigned completed
      × Reaches unassigned cancelled
closes_or_stuck_example =
    closes_or_stuck unassigned assigned
      (then ((can_transition_iff unassigned assigned).1 assign) here)

parse-format_example :
    (t : Text) × (format_business_number job 26 7 ≡ some t)
    × (parse_business_number t
        ≡ some (record { prefix = prefix_for_scope job; fiscal_year = 26; value = 7 }))
parse-format_example = parse-format job 26 7 (omega arith)

owner_only_example :
    ((permit technician location_read create ≡ Scope.none) ⊎ (technician ≡ owner))
    × ((permit technician cash_confirm create ≡ Scope.none) ⊎ (technician ≡ owner))
    × ((permit technician job_money create ≡ Scope.none)
        ⊎ (technician ≡ owner)
        ⊎ (technician ≡ technician) × (create ≡ create))
    × ((permit technician job_assign create ≡ Scope.none)
        ⊎ (technician ≡ owner)
        ⊎ (technician ≡ dispatcher))
    × ((permit technician contract_money create ≡ Scope.none)
        ⊎ (technician ≡ owner)
        ⊎ (technician ≡ dispatcher))
owner_only_example = owner_only technician create

business_date_example :
    (business_date (ist_midnight 20602) ≡ 20602)
    × ((1780000000000 + 1 ≤ ist_midnight 20602) ↔ (business_date 1780000000000 + 1 ≤ 20602))
business_date_example = business_date-ist_midnight 20602 1780000000000 (omega arith)

issue_example : AreDistinct (issue ((noon, job) ∷ (noon, sale) ∷ (noon, job) ∷ []) office)
issue_example = issue-AreDistinct ((noon, job) ∷ (noon, sale) ∷ (noon, job) ∷ []) office

abbrev own_sale : SalesCard
own_sale = record {
  sale_number = none;
  company_id = 12;
  sales_rep_id = 4;
  sale_date = 20602;
  status = draft;
  notes = none;
  confirmed_at = none;
  voided_at = none;
  voided_by = none;
  void_reason = none;
  version = 1;
}

abbrev own_payment : Payment
own_payment = record {
  payment_number = codes "PM-2627-00001";
  company_id = 12;
  sales_card_id = none;
  amount = 250000;
  mode = by_upi;
  reference_no = none;
  received_by = 4;
  received_at = 1779999000000;
  status = collected;
  voided_at = none;
  voided_by = none;
  void_reason = none;
  notes = none;
  version = 1;
}

abbrev open_company : Company
open_company = record { name = codes "Sharma Traders"; owner_rep_id = none; is_active = true }

abbrev board : Table JobCard
board = (7, job_7) ∷ []

IsVisible-rows_example :
    (IsVisible board 4 sales_rep Resource.job read (job_row job_7) ↔ (
      (sales_rep ≡ owner)
      ⊎ (sales_rep ≡ dispatcher)
      ⊎ (sales_rep ≡ technician) × (job_7.assigned_to ≡ some 4)))
    × (IsVisible board 4 sales_rep Resource.sale read (sale_row own_sale)
        ↔ ((sales_rep ≡ owner) ⊎ (sales_rep ≡ sales_rep) × (own_sale.sales_rep_id ≡ 4)))
    × (IsVisible board 4 sales_rep Resource.payment read (payment_row own_payment)
        ↔ ((sales_rep ≡ owner) ⊎ (sales_rep ≡ sales_rep) × (own_payment.received_by ≡ 4)))
    × (IsVisible board 4 sales_rep Resource.company read (company_row open_company) ↔ (
        (sales_rep ≡ owner)
        ⊎ (sales_rep ≡ sales_rep)
          × ((open_company.owner_rep_id ≡ some 4) ⊎ (open_company.owner_rep_id ≡ none))))
IsVisible-rows_example = IsVisible-rows board 4 sales_rep job_7 own_sale own_payment open_company
