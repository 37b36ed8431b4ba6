-- ===== src/Witnesses/Doors.antt =====
-- Witnesses of the outcomes of the jobs service, in the office of Data.
use serv_grid.Common.{none, some}
use serv_grid.Shared.Status.{en_route}
use serv_grid.Store.Rows.{normal, customer_unavailable}
use serv_grid.Store.Events.{mobile, web}
use serv_grid.Jobs.Status.Outcome.{Outcome, change_status-Outcome}
use serv_grid.Jobs.Assign.Outcome.{
  Verdict, assignment_refusal-Verdict, AssignOutcome, assign_job-AssignOutcome,
}
use serv_grid.Jobs.Reschedule.Outcome.{RescheduleOutcome, reschedule_job-RescheduleOutcome}
use serv_grid.Jobs.Cancel.{CancelInput}
use serv_grid.Jobs.Create.{JobCreate}
use serv_grid.Jobs.Create.Outcome.{CreateOutcome, create_job-CreateOutcome}
use serv_grid.Witnesses.Data.{noon, desk, ravi, job_7, office, office-IsSound}

change_status_example : Outcome noon ravi 7 en_route 1779999000000 mobile office
change_status_example =
    change_status-Outcome noon ravi 7 en_route 1779999000000 mobile office office-IsSound

assignment_refusal_example : Verdict job_7 2
assignment_refusal_example = assignment_refusal-Verdict job_7 2

assign_job_example : AssignOutcome noon desk 7 3 2 web office
assign_job_example = assign_job-AssignOutcome noon desk 7 3 2 web office office-IsSound

reschedule_job_example : RescheduleOutcome noon desk 7 2 1780100000000 web office
reschedule_job_example =
    reschedule_job-RescheduleOutcome noon desk 7 2 1780100000000 web office office-IsSound

abbrev put_off : CancelInput
put_off = record {
  reason_code = customer_unavailable;
  reason_note = none;
  reschedule_to = some 20610;
}

abbrev order : JobCreate
order = record {
  customer_id = 5;
  service_id = 6;
  customer_product_id = none;
  description = none;
  priority = normal;
  scheduled_for = none;
  contact_name = none;
  contact_phone = none;
  contract_id = none;
}

create_job_example : CreateOutcome noon desk order web office
create_job_example = create_job-CreateOutcome noon desk order web office office-IsSound
