-- ===== src/Jobs/Assign/Outcome.antt =====
-- What an assign request answers, on every branch, what it writes and whom it wakes.
use serv_grid.Common.{
  ℕ, suc, List, ◌≡◌, ◌≢◌, refl, ◌⊎◌, inl, inr, Bool, true, false, ◌||◌, ◌==◌, none, some, ◌++◌, [],
  ◌∷◌, arith, lookup, update, Option-cases, Bool-cases, ==_iff,
}
use serv_grid.Shared.Errors.{
  forbidden, not_found, validation_failed, version_conflict, illegal_transition,
}
use serv_grid.Shared.Permissions.{owner, dispatcher, technician, sales_rep}
use serv_grid.Shared.Status.{
  JobStatus, unassigned, assigned, en_route, in_progress, completed, cancelled, same_status,
}
use serv_grid.Store.Rows.{JobCard, Customer, Employee}
use serv_grid.Store.Events.{Source}
use serv_grid.Store.Db.{Db}
use serv_grid.Store.Tx.{Result, ok, err, app, with_transaction}
use serv_grid.Api.Clock.{Env}
use serv_grid.Jobs.Repo.{lock_job, is_closed, assign_job_card, touched}
use serv_grid.Jobs.Cards.{Actor, Card, project, read_back_card}
use serv_grid.Jobs.Rules.{in_office}
use serv_grid.Jobs.Lookups.{AssignmentPush, find_active_technician}
use serv_grid.Jobs.Sound.{IsSound, IsCoherent, update_job_ok, lookup-update_self, find_card_lem}
use serv_grid.Jobs.Assign.{assignment_refusal, give_job, assign_event, assign_job, wake_of}

-- A job that an assignment may take or move: nobody is on site, and it is open.
pub data Assignable : JobStatus → Type 0 where
  from_queue : Assignable unassigned
  from_another : Assignable assigned
  from_the_road : Assignable en_route

-- The refusal reads the version before the status.
pub data Verdict (job : JobCard) (if_match : ℕ) : Type 0 where
  stale :
      job.version ≢ if_match
      → assignment_refusal job if_match ≡ some version_conflict
      → Verdict job if_match
  on_site_or_closed :
      job.version ≡ if_match
      → ¬ Assignable job.status
      → assignment_refusal job if_match ≡ some illegal_transition
      → Verdict job if_match
  assignable :
      job.version ≡ if_match
      → Assignable job.status
      → assignment_refusal job if_match ≡ none
      → Verdict job if_match

busy : JobStatus → Bool
busy s = same_status s in_progress || is_closed s

Assignable-cases :
    (s : JobStatus) → Assignable s × (busy s ≡ false) ⊎ ¬ Assignable s × (busy s ≡ true)
unfolding busy
Assignable-cases unassigned = inl (from_queue, refl)
Assignable-cases assigned = inl (from_another, refl)
Assignable-cases en_route = inl (from_the_road, refl)
Assignable-cases in_progress = inr ((λ h. elim h [ ]), refl)
Assignable-cases completed = inr ((λ h. elim h [ ]), refl)
Assignable-cases cancelled = inr ((λ h. elim h [ ]), refl)

-- An assignment is refused with VERSION_CONFLICT exactly for another version, and at the right
-- version with ILLEGAL_TRANSITION exactly for a job that is in progress or closed.
pub assignment_refusal-Verdict : (job : JobCard) (if_match : ℕ) → Verdict job if_match
unfolding assignment_refusal busy
assignment_refusal-Verdict job if_match = elim (Bool-cases (job.version == if_match)) [
  | inr f ↦ stale (ground (arith, ==_iff job.version if_match)) (ground arith)
  | inl t ↦ elim (Assignable-cases job.status) [
    | inl (a, o) ↦ assignable (ground (arith, ==_iff job.version if_match)) a (ground arith)
    | inr (n, b) ↦ on_site_or_closed (ground (arith, ==_iff job.version if_match)) n (ground arith)
  ]
]

-- The row after the assignment is within the CHECKs.
pub Assignable-IsCoherent :
    (s : JobStatus) (j : JobCard) (t by at : ℕ)
    → Assignable s
    → j.status ≡ s
    → IsCoherent j
    → IsCoherent (record j {
      status = assigned;
      assigned_to = some t;
      assigned_by = some by;
      assigned_at = some at;
    })
Assignable-IsCoherent unassigned j t by at h e c = record {
  assignment = refl;
  closing = ground (arith, c);
}
Assignable-IsCoherent assigned j t by at h e c = record {
  assignment = refl;
  closing = ground (arith, c);
}
Assignable-IsCoherent en_route j t by at h e c = record {
  assignment = refl;
  closing = ground (arith, c);
}
Assignable-IsCoherent in_progress j t by at h e c = elim h [ ]
Assignable-IsCoherent completed j t by at h e c = elim h [ ]
Assignable-IsCoherent cancelled j t by at h e c = elim h [ ]

module _ (env : Env) (actor : Actor) (id chosen if_match : ℕ) (source : Source) (db : Db) where
  abbrev take_over : JobCard → JobCard
  take_over j = record j {
    status = assigned;
    assigned_to = some chosen;
    assigned_by = some actor.id;
    assigned_at = some env.now;
  }

  -- The database after the assignment: the row with a new version, and one event.
  abbrev pub assigned_db : JobCard → Db
  assigned_db j = record db {
    job_cards = update id (touched take_over) db.job_cards;
    job_events = db.job_events ++ (assign_event env actor id j chosen source ∷ []);
  }

  abbrev pub new_card : JobCard → Customer → Card
  new_card j c = project env actor.role id (assigned_db j) (
    record j {
      status = assigned;
      assigned_to = some chosen;
      assigned_by = some actor.id;
      assigned_at = some env.now;
      version = suc j.version;
    },
    c,
  )

  pub give_job_lem :
      (j : JobCard) (c : Customer)
      → in_office actor.role ≡ true
      → lookup id db.job_cards ≡ some j
      → Assignable j.status
      → IsCoherent j
      → lookup j.customer_id db.customers ≡ some c
      → give_job env actor id j chosen source db ≡ (ok (new_card j c), assigned_db j)
  unfolding give_job assign_job_card read_back_card
  give_job_lem j c o e a h k = ground (
    arith,
    e,
    update_job_ok id take_over j db e
        (Assignable-IsCoherent j.status j chosen actor.id env.now a refl h),
    find_card_lem env actor.role id
        (record j {
          status = assigned;
          assigned_to = some chosen;
          assigned_by = some actor.id;
          assigned_at = some env.now;
          version = suc j.version;
        })
        c (assigned_db j),
    lookup-update_self id (touched take_over) j db,
  )

  abbrev pub assign_answer : Result (Card × List AssignmentPush) × Db
  assign_answer = assign_job env actor id chosen if_match source db

  -- How a request can end.
  pub data AssignOutcome : Type 0 where
    not_office :
        (actor.role ≡ technician) ⊎ (actor.role ≡ sales_rep)
        → assign_answer ≡ (err (app forbidden), db)
        → AssignOutcome
    no_technician :
        (actor.role ≡ owner) ⊎ (actor.role ≡ dispatcher)
        → find_active_technician chosen db ≡ none
        → assign_answer ≡ (err (app validation_failed), db)
        → AssignOutcome
    no_job :
        (actor.role ≡ owner) ⊎ (actor.role ≡ dispatcher)
        → lookup id db.job_cards ≡ none
        → assign_answer ≡ (err (app not_found), db)
        → AssignOutcome
    conflict :
        (j : JobCard)
        → (actor.role ≡ owner) ⊎ (actor.role ≡ dispatcher)
        → lookup id db.job_cards ≡ some j
        → j.version ≢ if_match
        → assign_answer ≡ (err (app version_conflict), db)
        → AssignOutcome
    not_movable :
        (j : JobCard)
        → (actor.role ≡ owner) ⊎ (actor.role ≡ dispatcher)
        → lookup id db.job_cards ≡ some j
        → j.version ≡ if_match
        → ¬ Assignable j.status
        → assign_answer ≡ (err (app illegal_transition), db)
        → AssignOutcome
    given_over :
        (t : Employee) (j : JobCard) (c : Customer)
        → (actor.role ≡ owner) ⊎ (actor.role ≡ dispatcher)
        → find_active_technician chosen db ≡ some t
        → lookup id db.job_cards ≡ some j
        → j.version ≡ if_match
        → Assignable j.status
        → assign_answer
          ≡ (ok (new_card j c, wake_of id j chosen (new_card j c) ∷ []), assigned_db j)
        → AssignOutcome

  -- In a sound database an assign request ends in one of the six ways of AssignOutcome:
  -- FORBIDDEN outside the office, VALIDATION_FAILED for nobody who is an active technician,
  -- NOT_FOUND, VERSION_CONFLICT for a stale version, ILLEGAL_TRANSITION for a job on site or
  -- closed, each with the database as it was, or the assignment with its event, the card and one
  -- push.
  pub assign_job-AssignOutcome : IsSound db → AssignOutcome
  unfolding assign_job with_transaction lock_job
  assign_job-AssignOutcome sound = elim (Bool-cases (in_office actor.role)) [
    | inr field ↦ not_office (ground arith) (ground arith)
    | inl office ↦ elim (Option-cases (find_active_technician chosen db)) [
      | inl gone ↦ no_technician (ground arith) gone (ground arith)
      | inr (t, te) ↦ elim (Option-cases (lookup id db.job_cards)) [
        | inl gone ↦ no_job (ground arith) gone (ground arith)
        | inr (j, e) ↦ elim (assignment_refusal-Verdict j if_match) [
          | stale n r ↦ conflict j (ground arith) e n (ground arith)
          | on_site_or_closed v n r ↦ not_movable j (ground arith) e v n (ground arith)
          | assignable v a r ↦
              let (c, k) = sound.customer_known id j e in
              given_over t j c (ground arith) te e v a
                (ground (arith, give_job_lem j c office e a (sound.coherent id j e) k))
        ]
      ]
    ]
  ]
