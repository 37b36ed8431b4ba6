-- ===== src/Jobs/Reschedule/Outcome.antt =====
-- What a reschedule request answers, on every branch, and what it writes.
use serv_grid.Common.{
  ℕ, suc, ◌≡◌, ◌≢◌, ◌⊎◌, inl, inr, true, ◌==◌, none, some, ◌++◌, [], ◌∷◌, arith, lookup, update,
  Option-cases, Bool-cases, ==_iff,
}
use serv_grid.Shared.Errors.{forbidden, not_found, version_conflict}
use serv_grid.Shared.Permissions.{owner, dispatcher, technician, sales_rep}
use serv_grid.Store.Rows.{JobCard, Customer}
use serv_grid.Store.Events.{Source}
use serv_grid.Store.Db.{Db}
use serv_grid.Store.Tx.{Result, ok, err, app, with_transaction}
use serv_grid.Api.Clock.{Env}
use serv_grid.Jobs.Repo.{lock_job, reschedule_job_card, touched}
use serv_grid.Jobs.Cards.{Actor, Card, project, read_back_card}
use serv_grid.Jobs.Rules.{in_office}
use serv_grid.Jobs.Sound.{IsSound, IsCoherent, update_job_ok, lookup-update_self, find_card_lem}
use serv_grid.Jobs.Reschedule.{reschedule_event, reschedule_job}

module _ (env : Env) (actor : Actor) (id if_match at : ℕ) (source : Source) (db : Db) where
  abbrev put_off : JobCard → JobCard
  put_off j = record j { scheduled_for = some at }

  abbrev pub rescheduled_db : JobCard → Db
  rescheduled_db j = record db {
    job_cards = update id (touched put_off) db.job_cards;
    job_events = db.job_events ++ (reschedule_event env actor id j at source ∷ []);
  }

  abbrev pub reschedule_answer : Result Card × Db
  reschedule_answer = reschedule_job env actor id if_match at source db

  -- How a request can end.
  pub data RescheduleOutcome : Type 0 where
    not_office :
        (actor.role ≡ technician) ⊎ (actor.role ≡ sales_rep)
        → reschedule_answer ≡ (err (app forbidden), db)
        → RescheduleOutcome
    no_job :
        (actor.role ≡ owner) ⊎ (actor.role ≡ dispatcher)
        → lookup id db.job_cards ≡ none
        → reschedule_answer ≡ (err (app not_found), db)
        → RescheduleOutcome
    conflict :
        (j : JobCard)
        → (actor.role ≡ owner) ⊎ (actor.role ≡ dispatcher)
        → lookup id db.job_cards ≡ some j
        → j.version ≢ if_match
        → reschedule_answer ≡ (err (app version_conflict), db)
        → RescheduleOutcome
    moved_on :
        (j : JobCard) (c : Customer)
        → (actor.role ≡ owner) ⊎ (actor.role ≡ dispatcher)
        → lookup id db.job_cards ≡ some j
        → j.version ≡ if_match
        → reschedule_answer ≡ (
          ok (
              project env actor.role id
                (rescheduled_db j)
                (record j { scheduled_for = some at; version = suc j.version }, c)),
          rescheduled_db j,
        )
        → RescheduleOutcome

  put_off_lem :
      (j : JobCard) (c : Customer)
      → in_office actor.role ≡ true
      → lookup id db.job_cards ≡ some j
      → j.version ≡ if_match
      → IsCoherent j
      → lookup j.customer_id db.customers ≡ some c
      → reschedule_answer ≡ (
        ok (
            project env actor.role id
              (rescheduled_db j)
              (record j { scheduled_for = some at; version = suc j.version }, c)),
        rescheduled_db j,
      )
  unfolding reschedule_job with_transaction lock_job reschedule_job_card read_back_card
  put_off_lem j c o e v h k = ground (
    arith,
    e,
    ==_iff j.version if_match,
    update_job_ok id put_off j db e (record { assignment = h.assignment; closing = h.closing }),
    find_card_lem env actor.role id (record j { scheduled_for = some at; version = suc j.version })
        c (rescheduled_db j),
    lookup-update_self id (touched put_off) j db,
  )

  -- In a sound database a reschedule request ends in one of the four ways of RescheduleOutcome:
  -- FORBIDDEN outside the office, NOT_FOUND, VERSION_CONFLICT, each with the database as it was,
  -- or the new date with its event, the status unmoved.
  pub reschedule_job-RescheduleOutcome : IsSound db → RescheduleOutcome
  unfolding reschedule_job with_transaction lock_job
  reschedule_job-RescheduleOutcome sound = elim (Bool-cases (in_office actor.role)) [
    | inr field ↦ not_office (ground arith) (ground arith)
    | inl office ↦ elim (Option-cases (lookup id db.job_cards)) [
      | inl gone ↦ no_job (ground arith) gone (ground arith)
      | inr (j, e) ↦ elim (Bool-cases (j.version == if_match)) [
        | inr n ↦
            conflict j (ground arith) e (ground (arith, ==_iff j.version if_match)) (ground arith)
        | inl same ↦
            let (c, k) = sound.customer_known id j e in
            let v = (==_iff j.version if_match).0 same in
            moved_on j c (ground arith) e v (put_off_lem j c office e v (sound.coherent id j e) k)
      ]
    ]
  ]
