-- ===== src/Jobs/Invariant.antt =====
-- Every door of the jobs service leaves a sound database sound, whatever it answers.
pub mod Amend
pub mod Complete
pub mod Runs
use serv_grid.Common.{
  ℕ, suc, ◌≡◌, refl, sym, ap, ◌∙◌, ◌⊎◌, inl, inr, true, false, Option, none, some, arith, lookup,
  update, insert, lookup-insert, Text, ◌==◌, ==_iff, Bool-cases, Option-cases,
}
use serv_grid.Shared.Status.{
  JobStatus, unassigned, assigned, en_route, in_progress, completed, cancelled,
}
use serv_grid.Store.Rows.{JobCard, Customer, JobCancellation}
use serv_grid.Store.Events.{Source}
use serv_grid.Store.Db.{Db}
use serv_grid.Api.Clock.{Env}
use serv_grid.Jobs.Repo.{touched, new_job}
use serv_grid.Jobs.Cards.{Actor}
use serv_grid.Jobs.Sound.{IsSound, IsCoherent}
use serv_grid.Jobs.Sound.Writes.{IsWrite, IsWrite-IsSound, IsInsert, IsInsert-IsSound}
use serv_grid.Jobs.Status.{change_status}
use serv_grid.Jobs.Status.Outcome.{Step, Step-IsCoherent, moved, change_status-Outcome, Outcome}
use serv_grid.Jobs.Assign.{assign_job}
use serv_grid.Jobs.Assign.Outcome.{
  Assignable, Assignable-IsCoherent, assigned_db, assign_job-AssignOutcome, AssignOutcome,
}
use serv_grid.Jobs.Reschedule.{reschedule_job}
use serv_grid.Jobs.Reschedule.Outcome.{
  rescheduled_db, RescheduleOutcome, reschedule_job-RescheduleOutcome,
}
use serv_grid.Jobs.Create.{JobCreate, create_job, card_insert}
use serv_grid.Jobs.Create.Outcome.{CreateOutcome, create_job-CreateOutcome, created_db}

Step-open :
    (s t : JobStatus) (r : JobStatus) → Step s t → (r ≡ completed) ⊎ (r ≡ cancelled) → s ≡ r → ⊥
Step-open assigned t r h c e = ground arith
Step-open en_route t r h c e = ground arith
Step-open unassigned t r h c e = absurd h
Step-open in_progress t r h c e = absurd h
Step-open completed t r h c e = absurd h
Step-open cancelled t r h c e = absurd h

Assignable-open : (s r : JobStatus) → Assignable s → (r ≡ completed) ⊎ (r ≡ cancelled) → s ≡ r → ⊥
Assignable-open unassigned r h c e = ground arith
Assignable-open assigned r h c e = ground arith
Assignable-open en_route r h c e = ground arith
Assignable-open in_progress r h c e = elim h [ ]
Assignable-open completed r h c e = elim h [ ]
Assignable-open cancelled r h c e = elim h [ ]

-- A status request leaves a sound database sound.
pub change_status-IsSound :
    (env : Env) (actor : Actor) (id : ℕ) (to : JobStatus) (at : ℕ) (source : Source) (db : Db)
    → IsSound db
    → IsSound (change_status env actor id to at source db).1
change_status-IsSound env actor id to at source db sound =
    elim (change_status-Outcome env actor id to at source db sound) [
      | Outcome.not_field _ p ↦ rw p sound
      | Outcome.missing _ p ↦ rw p sound
      | Outcome.stranger _ _ _ _ p ↦ rw p sound
      | Outcome.illegal _ _ _ p ↦ rw p sound
      | Outcome.done j c h st p ↦ rw p (
          IsWrite-IsSound {f = λ r. record r { status = to }}
            (record {
              found = h.found;
              good = Step-IsCoherent j.status to j st refl (sound.coherent id j h.found);
              same_customer = refl;
              stays_completed = λ e. absurd (Step-open j.status to completed st (inl refl) e);
              stays_cancelled = λ e. absurd (Step-open j.status to cancelled st (inr refl) e);
              cards = refl;
              customers = refl;
              next = refl;
              completions = λ i k e. inl e;
              cancellations = λ i k e. inl e;
            })
            sound)
    ]

-- The database after an assignment is sound.
pub assigned_db-IsSound :
    (env : Env) (actor : Actor) (id employee if_match : ℕ) (source : Source) (db : Db) (j : JobCard)
    → IsSound db
    → lookup id db.job_cards ≡ some j
    → Assignable j.status
    → IsSound (assigned_db env actor id employee if_match source db j)
assigned_db-IsSound env actor id employee if_match source db j sound found a =
    IsWrite-IsSound
      {f = λ r. record r {
        status = assigned;
        assigned_to = some employee;
        assigned_by = some actor.id;
        assigned_at = some env.now;
      }}
      (record {
        found = found;
        good =
            Assignable-IsCoherent j.status j employee actor.id env.now a refl
              (sound.coherent id j found);
        same_customer = refl;
        stays_completed = λ e. absurd (Assignable-open j.status completed a (inl refl) e);
        stays_cancelled = λ e. absurd (Assignable-open j.status cancelled a (inr refl) e);
        cards = refl;
        customers = refl;
        next = refl;
        completions = λ i k e. inl e;
        cancellations = λ i k e. inl e;
      })
      sound

-- An assign request leaves a sound database sound.
pub assign_job-IsSound :
    (env : Env) (actor : Actor) (id employee if_match : ℕ) (source : Source) (db : Db)
    → IsSound db
    → IsSound (assign_job env actor id employee if_match source db).1
assign_job-IsSound env actor id employee if_match source db sound =
    elim (assign_job-AssignOutcome env actor id employee if_match source db sound) [
      | AssignOutcome.not_office _ p ↦ rw p sound
      | AssignOutcome.no_technician _ _ p ↦ rw p sound
      | AssignOutcome.no_job _ _ p ↦ rw p sound
      | AssignOutcome.conflict _ _ _ _ p ↦ rw p sound
      | AssignOutcome.not_movable _ _ _ _ _ p ↦ rw p sound
      | AssignOutcome.given_over _ j c _ _ found v a p ↦
          rw p (assigned_db-IsSound env actor id employee if_match source db j sound found a)
    ]

-- A reschedule request leaves a sound database sound.
pub reschedule_job-IsSound :
    (env : Env) (actor : Actor) (id if_match at : ℕ) (source : Source) (db : Db)
    → IsSound db
    → IsSound (reschedule_job env actor id if_match at source db).1
reschedule_job-IsSound env actor id if_match at source db sound =
    elim (reschedule_job-RescheduleOutcome env actor id if_match at source db sound) [
      | RescheduleOutcome.not_office _ p ↦ rw p sound
      | RescheduleOutcome.no_job _ _ p ↦ rw p sound
      | RescheduleOutcome.conflict _ _ _ _ p ↦ rw p sound
      | RescheduleOutcome.moved_on j c _ found v p ↦
          let k = sound.coherent id j found in
          rw p (
            IsWrite-IsSound {f = λ r. record r { scheduled_for = some at }}
              (record {
                found = found;
                good = record { assignment = k.assignment; closing = k.closing };
                same_customer = refl;
                stays_completed = λ e. e;
                stays_cancelled = λ e. e;
                cards = refl;
                customers = refl;
                next = refl;
                completions = λ i d e. inl e;
                cancellations = λ i d e. inl e;
              })
              sound)
    ]

-- A create request leaves a sound database sound.
pub create_job-IsSound :
    (env : Env) (actor : Actor) (input : JobCreate) (source : Source) (db : Db)
    → IsSound db
    → IsSound (create_job env actor input source db).1
create_job-IsSound env actor input source db sound =
    elim (create_job-CreateOutcome env actor input source db sound) [
      | CreateOutcome.not_office _ p ↦ rw p sound
      | CreateOutcome.refused _ _ p ↦ rw p sound
      | CreateOutcome.number_in_use _ _ _ _ _ _ p ↦ rw p sound
      | CreateOutcome.raised s c n h k num free p ↦ rw p (
          IsInsert-IsSound {s = card_insert actor input s n} {c = c}
            (record {
              known = k;
              cards = refl;
              customers = refl;
              next = refl;
              completions = refl;
              cancellations = refl;
            })
            sound)
    ]
