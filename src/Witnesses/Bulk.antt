-- ===== src/Witnesses/Bulk.antt =====
-- Witnesses of the bulk assignment.
use serv_grid.Common.{[], ◌∷◌, List, lookup, refl, ◌≡◌, map, some, inr}
use serv_grid.Store.Events.{web}
use serv_grid.Store.Db.{Db}
use serv_grid.Store.Tx.{ok}
use serv_grid.Jobs.Lookups.{AssignmentPush, find_active_technician}
use serv_grid.Jobs.Assign.Bulk.{BulkEntry, BulkAssignOutcome, bulk_assign}
use serv_grid.Jobs.Assign.Bulk.Outcome.{BulkOutcome, bulk_assign-BulkOutcome}
use serv_grid.Jobs.Assign.Bulk.Answered.{id_of, bulk_assign-answers_all}
use serv_grid.Witnesses.Data.{noon, desk, office, office-IsSound, employee_3}

abbrev entry_7 : BulkEntry
entry_7 = record { id = 7; if_match = 2 }

abbrev entry_99 : BulkEntry
entry_99 = record { id = 99; if_match = 1 }

bulk_assign_example : BulkOutcome noon desk 3 web (entry_99 ∷ entry_7 ∷ []) office
bulk_assign_example =
    bulk_assign-BulkOutcome noon desk 3 web (entry_99 ∷ entry_7 ∷ []) office office-IsSound

active_3 : find_active_technician 3 office ≡ some employee_3
unfolding find_active_technician lookup
active_3 = refl

-- one id is sent twice
abbrev sent : List BulkEntry
sent = entry_99 ∷ entry_7 ∷ entry_99 ∷ []

bulk_assign-answers_all_example :
    (rs : List BulkAssignOutcome) × (w : List AssignmentPush) × (db' : Db) × (bulk_assign noon desk
        sent 3 web office
      ≡ (ok (map some rs, w), db'))
    × (map id_of rs ≡ 99 ∷ 7 ∷ 99 ∷ [])
bulk_assign-answers_all_example =
    bulk_assign-answers_all noon desk 3 web sent office employee_3 office-IsSound (inr refl)
      active_3
