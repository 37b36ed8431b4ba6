-- ===== src/Witnesses/Days.antt =====
-- Witnesses of the cash service and of the runs of requests.
use serv_grid.Common.{arith, none, some, [], ◌∷◌, codes, refl, inl, ◌⊎◌, ◌≡◌}
use serv_grid.Shared.Status.{en_route}
use serv_grid.Store.Rows.{submitted, confirmed, disputed}
use serv_grid.Store.Events.{mobile, web}
use serv_grid.Common.{List, false, lookup, update}
use serv_grid.Shared.Status.{assigned}
use serv_grid.Store.Rows.{normal}
use serv_grid.Store.Tx.{Failure, ok, err, with_transaction}
use serv_grid.Jobs.Repo.{lock_job, assign_job_card, insert_job_event, update_job}
use serv_grid.Jobs.Cards.{Card, dispatcher_card, read_back_card, find_card}
use serv_grid.Jobs.Lookups.{AssignmentPush, push_reassigned, find_active_technician}
use serv_grid.Jobs.Assign.{assign_job, assignment_refusal, give_job}
use serv_grid.Jobs.Assign.Race.{assign_job-lost_race}
use serv_grid.Jobs.Sound.{IsSound}
use serv_grid.Jobs.Invariant.Runs.{status_request, assign_request, serve_all, serve_all-IsSound}
use serv_grid.Cash.Answer.{confirm, dispute, reopen}
use serv_grid.Cash.Outcome.{
  AnswerOutcome, confirmed_db, disputed_db, reopened_db, confirm-AnswerOutcome,
  dispute-AnswerOutcome, reopen-AnswerOutcome,
}
use serv_grid.Cash.Declare.Outcome.{
  DeclareOutcome, declare-DeclareOutcome, AmendOutcome, amend-AmendOutcome,
}
use serv_grid.Cash.Invariant.Runs.{
  CashRequest, declare_request, amend_request, confirm_request, dispute_request, serve_all_cash,
}
use serv_grid.Cash.Frozen.{serve_all_cash-keeps_answered}
use serv_grid.Witnesses.Data.{
  the_owner, noon, desk, ravi, office, office-IsSound, office-IsLedger, answered_office,
  answered_office-IsLedger, confirmed_9,
}

serve_all_example : IsSound (
    serve_all
      (status_request noon ravi 7 en_route 1779999000000 mobile
        ∷ assign_request noon desk 7 3 3 web
        ∷ [])
      office)
serve_all_example =
    serve_all-IsSound
      (status_request noon ravi 7 en_route 1779999000000 mobile
        ∷ assign_request noon desk 7 3 3 web
        ∷ [])
      office office-IsSound

confirm_example :
    AnswerOutcome
      (confirm noon 1 9 120000 office)
      (λ s. s ≡ submitted)
      (λ _. confirmed_db noon 1 9 120000 office)
      9
      office
confirm_example = confirm-AnswerOutcome noon 1 9 office 120000 refl office-IsLedger

dispute_example :
    AnswerOutcome
      (dispute noon 1 9 (codes "short by 200") office)
      (λ s. s ≡ submitted)
      (λ _. disputed_db noon 1 9 (codes "short by 200") office)
      9
      office
dispute_example = dispute-AnswerOutcome noon 1 9 office (codes "short by 200") office-IsLedger

reopen_example :
    AnswerOutcome
      (reopen noon 1 9 (codes "wrong day") answered_office)
      (λ s. (s ≡ confirmed) ⊎ (s ≡ disputed))
      (reopened_db noon 1 9 answered_office (codes "wrong day"))
      9
      answered_office
reopen_example =
    reopen-AnswerOutcome noon 1 9 answered_office (codes "wrong day") answered_office-IsLedger

declare_example : DeclareOutcome noon 3 20601 90000 none office
declare_example = declare-DeclareOutcome noon 3 20601 90000 none office refl

amend_example : AmendOutcome noon 3 9 1 (some 110000) none office
amend_example =
    amend-AmendOutcome noon 3 9 1 (some 110000) none office office-IsLedger (inl refl) refl

answered_9 : lookup 9 answered_office.cash_reconciliations ≡ some confirmed_9
unfolding lookup
answered_9 = refl

abbrev later_requests : List CashRequest
later_requests =
    confirm_request noon 1 9 90000
    ∷ amend_request noon 3 9 2 (some 1) none
    ∷ declare_request noon 3 20601 90000 none
    ∷ dispute_request noon 1 9 (codes "short")
    ∷ []

serve_all_cash-keeps_answered_example :
    lookup 9 (serve_all_cash later_requests answered_office).cash_reconciliations ≡ some confirmed_9
serve_all_cash-keeps_answered_example =
    serve_all_cash-keeps_answered later_requests answered_office 9 confirmed_9
      answered_office-IsLedger answered_9 (λ e. ground (arith, e))
      ((λ h. h), ((λ h. h), ((λ h. h), ((λ h. h), tt))))

abbrev first_card : Card × List AssignmentPush
first_card = (
  dispatcher_card (record {
    id = 7;
    job_number = codes "JC-2627-00001";
    title = codes "Repair";
    status = assigned;
    priority = normal;
    scheduled_for = none;
    customer_id = 5;
    customer_name = codes "Meera";
    assigned_to = some 3;
    is_overdue = false;
    is_contract_visit = false;
    version = 3;
  }),
  record { kind = push_reassigned; job_id = 7; priority = normal; recipient_ids = 3 ∷ 3 ∷ [] } ∷ [],
)

assign_job-lost_race_example :
    (e : Failure) × (assign_job noon the_owner 7 3 2 web (assign_job noon desk 7 3 2 web office).1
      ≡ (err e, (assign_job noon desk 7 3 2 web office).1))
assign_job-lost_race_example =
    assign_job-lost_race noon noon desk the_owner 7 3 3 2 web web office first_card office-IsSound
      first_wins
  where
    first_wins : (assign_job noon desk 7 3 2 web office).0 ≡ ok first_card
    first_wins =
        unfold assign_job find_active_technician lookup lock_job assignment_refusal give_job
          assign_job_card insert_job_event read_back_card find_card with_transaction update_job
          update in
        refl
