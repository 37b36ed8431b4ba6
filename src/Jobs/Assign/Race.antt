-- ===== src/Jobs/Assign/Race.antt =====
-- Two dispatchers who opened the same version of a job: one of them loses the race.
use serv_grid.Common.{List, ap, ℕ, suc, ◌≡◌, some, arith, lookup}
use serv_grid.Store.Rows.{JobCard}
use serv_grid.Store.Events.{Source}
use serv_grid.Store.Db.{Db}
use serv_grid.Store.Tx.{ok, err, Failure}
use serv_grid.Api.Clock.{Env}
use serv_grid.Jobs.Cards.{Actor, Card}
use serv_grid.Jobs.Lookups.{AssignmentPush}
use serv_grid.Jobs.Sound.{IsSound, lookup-update_self}
use serv_grid.Jobs.Assign.{assign_job}
use serv_grid.Jobs.Assign.Outcome.{AssignOutcome, assign_job-AssignOutcome}
use serv_grid.Jobs.Invariant.{assign_job-IsSound}

-- The version that an assignment which went through leaves.
won :
    (env : Env) (actor : Actor) (id employee if_match : ℕ) (source : Source) (db : Db)
    (card : Card × List AssignmentPush)
    → IsSound db
    → (assign_job env actor id employee if_match source db).0 ≡ ok card
    → (j : JobCard) × (lookup id (assign_job env actor id employee if_match source db).1.job_cards
        ≡ some j)
      × (j.version ≡ suc if_match)
won env actor id employee if_match source db card sound w =
    elim (assign_job-AssignOutcome env actor id employee if_match source db sound) [
      | AssignOutcome.not_office _ p ↦ absurd (ground (arith, p, w))
      | AssignOutcome.no_technician _ _ p ↦ absurd (ground (arith, p, w))
      | AssignOutcome.no_job _ _ p ↦ absurd (ground (arith, p, w))
      | AssignOutcome.conflict _ _ _ _ p ↦ absurd (ground (arith, p, w))
      | AssignOutcome.not_movable _ _ _ _ _ p ↦ absurd (ground (arith, p, w))
      | AssignOutcome.given_over _ j c _ _ found v a p ↦
          rw p (_, lookup-update_self id _ j db found, ap suc v)
    ]

-- In a sound database, after an assignment that went through, an assignment of the same job by
-- anybody, to anybody, at any instant, that names the version of the first one does not go through,
-- and it leaves the database as the first one left it.
pub assign_job-lost_race :
    (env env' : Env) (actor actor' : Actor) (id employee employee' if_match : ℕ)
    (source source' : Source) (db : Db) (card : Card × List AssignmentPush)
    → IsSound db
    → (assign_job env actor id employee if_match source db).0 ≡ ok card
    → (e : Failure) × (assign_job env' actor' id employee' if_match source'
          (assign_job env actor id employee if_match source db).1
        ≡ (err e, (assign_job env actor id employee if_match source db).1))
assign_job-lost_race env env' actor actor' id employee employee' if_match source source' db card
      sound w =
    let db' = (assign_job env actor id employee if_match source db).1 in
    let (j, found, v) = won env actor id employee if_match source db card sound w in
    elim (assign_job-AssignOutcome env' actor' id employee' if_match source' db'
      (assign_job-IsSound env actor id employee if_match source db sound)) [
        | AssignOutcome.not_office _ p ↦ (_, p)
        | AssignOutcome.no_technician _ _ p ↦ (_, p)
        | AssignOutcome.no_job _ _ p ↦ (_, p)
        | AssignOutcome.conflict _ _ _ _ p ↦ (_, p)
        | AssignOutcome.not_movable _ _ _ _ _ p ↦ (_, p)
        | AssignOutcome.given_over _ j' c _ _ found' v' a p ↦
            absurd (ground (arith, found, found', v, v'))
      ]
