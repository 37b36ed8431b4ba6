-- ===== src/Jobs/Sound.antt =====
-- What holds of the jobs tables between two requests, and the statements under it.
pub mod Writes
use serv_grid.Common.{
  ℕ, ◌≤◌, ◌≡◌, refl, true, false, none, some, arith, lookup, update, lookup-update,
}
use serv_grid.Shared.Status.{JobStatus, completed, cancelled}
use serv_grid.Store.Rows.{JobCard, JobCompletion, JobCancellation, Customer}
use serv_grid.Store.Db.{Db}
use serv_grid.Store.Tx.{ok}
use serv_grid.Jobs.Repo.{assignment_ok, closed_ok, update_job, update_job_status, touched}
use serv_grid.Jobs.Cards.{Actor, find_card, project, is_sales_rep, read_back_card}
use serv_grid.Shared.Permissions.{Role}
use serv_grid.Api.Clock.{Env}

-- The two CHECKs of job_cards.
pub record IsCoherent (j : JobCard) : Type 0 where
  pub assignment : assignment_ok j.status j.assigned_to ≡ true
  pub closing : closed_ok j.status j.closed_at ≡ true

pub record IsSound (db : Db) : Type 0 where
  pub coherent : (id : ℕ) (j : JobCard) → lookup id db.job_cards ≡ some j → IsCoherent j
  -- the foreign key of customer_id
  pub customer_known :
      (id : ℕ) (j : JobCard)
      → lookup id db.job_cards ≡ some j
      → (c : Customer) × (lookup j.customer_id db.customers ≡ some c)
  -- a closure row belongs to a job that was closed that way
  pub completion_closed :
      (id : ℕ) (c : JobCompletion)
      → lookup id db.job_completions ≡ some c
      → (j : JobCard) × (lookup id db.job_cards ≡ some j) × (j.status ≡ completed)
  pub cancellation_closed :
      (id : ℕ) (c : JobCancellation)
      → lookup id db.job_cancellations ≡ some c
      → (j : JobCard) × (lookup id db.job_cards ≡ some j) × (j.status ≡ cancelled)
  -- ids from next_id on are not in use
  pub fresh : (id : ℕ) → db.next_id ≤ id → lookup id db.job_cards ≡ none

-- An UPDATE of a row that stays within the CHECKs goes through.
pub update_job_ok :
    (id : ℕ) (f : JobCard → JobCard) (j : JobCard) (db : Db)
    → lookup id db.job_cards ≡ some j
    → IsCoherent (f j)
    → update_job id f db ≡ (ok tt, record db { job_cards = update id (touched f) db.job_cards })
unfolding update_job
update_job_ok id f j db e h = rw (e, h.assignment, h.closing) refl

pub update_job_status_ok :
    (id : ℕ) (to : JobStatus) (j : JobCard) (db : Db)
    → lookup id db.job_cards ≡ some j
    → IsCoherent (record j { status = to })
    → update_job_status id to db ≡ (
      ok tt,
      record db { job_cards = update id (touched (λ r. record r { status = to })) db.job_cards },
    )
unfolding update_job_status
update_job_status_ok id to j db e h = update_job_ok id (λ r. record r { status = to }) j db e h

-- The row that was written, and the others.
pub lookup-update_self :
    (id : ℕ) (f : JobCard → JobCard) (j : JobCard) (db : Db)
    → lookup id db.job_cards ≡ some j
    → lookup id (update id f db.job_cards) ≡ some (f j)
lookup-update_self id f j db e = ground (arith, lookup-update id id f db.job_cards)

-- A job that is there has a card in every projection.
pub find_card_lem :
    (env : Env) (role : Role) (id : ℕ) (j : JobCard) (c : Customer) (db : Db)
    → lookup id db.job_cards ≡ some j
    → lookup j.customer_id db.customers ≡ some c
    → find_card env role id db ≡ some (project env role id db (j, c))
unfolding find_card
find_card_lem env role id j c db e k = ground arith

-- The write is read back in the actor's projection; a sales rep has none.
pub read_back_card_lem :
    (env : Env) (actor : Actor) (id : ℕ) (j : JobCard) (c : Customer) (db : Db)
    → is_sales_rep actor.role ≡ false
    → lookup id db.job_cards ≡ some j
    → lookup j.customer_id db.customers ≡ some c
    → read_back_card env actor id db ≡ (ok (project env actor.role id db (j, c)), db)
unfolding read_back_card
read_back_card_lem env actor id j c db f e k =
    ground (arith, f, find_card_lem env actor.role id j c db e k)
