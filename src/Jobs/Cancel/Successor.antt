-- ===== src/Jobs/Cancel/Successor.antt =====
-- The successor of a job that was put off: its row, its number and its event.
use serv_grid.Common.{
  ℕ, suc, ◌≡◌, refl, ◌⊎◌, inl, inr, true, false, Bool-cases, Option, none, some, ◌++◌, [], ◌∷◌,
  arith, Text, lookup, insert, lookup-insert, ltb,
}
use serv_grid.Shared.Sequence.{job, format_business_number}
use serv_grid.Store.Rows.{JobCard}
use serv_grid.Store.Events.{Source, replaces_job}
use serv_grid.Store.Db.{Db}
use serv_grid.Store.Tx.{ok, err, pg, unique_violation, job_cards_job_number_unique}
use serv_grid.Api.Clock.{Env, ist_today, fiscal_year_for}
use serv_grid.Api.Sequences.{bump}
use serv_grid.Api.Sequences.Distinct.{allocate_number_lem, key_of, next_value}
use serv_grid.Jobs.Repo.{insert_job_card, new_job, job_number_taken}
use serv_grid.Jobs.Cards.{Actor}
use serv_grid.Jobs.Create.{created_job_event}
use serv_grid.Jobs.Cancel.{successor_contract, successor_insert, raise_successor}

-- A day that a successor may be raised for, when one is asked for.
abbrev pub IsAhead : Env → Option ℕ → Type 0
IsAhead env none = Unit
IsAhead env (some day) = ltb day (ist_today env) ≡ false

abbrev pub successor_id : Option ℕ → Db → Option ℕ
successor_id none db = none
successor_id (some day) db = some db.next_id

-- The next number of the jobs' sequence, when one is needed.
abbrev pub IsNextNumber : Env → Option ℕ → Text → Db → Type 0
IsNextNumber env none n db = Unit
IsNextNumber env (some day) n db =
    format_business_number job (fiscal_year_for env env.now) (next_value env job db) ≡ some n

-- Is the number in use, when one is needed?
abbrev pub IsTaken : Option ℕ → Text → Db → Type 0
IsTaken none n db = ⊥
IsTaken (some day) n db = job_number_taken n db.job_cards ≡ true

abbrev pub IsFree : Option ℕ → Text → Db → Type 0
IsFree none n db = Unit
IsFree (some day) n db = job_number_taken n db.job_cards ≡ false

abbrev pub successor_job : Actor → JobCard → ℕ → Text → Db → JobCard
successor_job actor j day n db =
    new_job (successor_insert actor j day (successor_contract day j.contract_id db) n)

-- The database with the successor, the number n given to it.
abbrev pub raised : Env → Actor → ℕ → JobCard → Source → Option ℕ → Text → Db → Db
raised env actor id j source none n db = db
raised env actor id j source (some day) n db = record db {
  job_cards = insert db.next_id (successor_job actor j day n db) db.job_cards;
  job_events =
      db.job_events ++ (created_job_event env actor db.next_id source (replaces_job id) ∷ []);
  sequences = bump (key_of env job) db.sequences;
  next_id = suc db.next_id;
}

pub raise_successor_lem :
    (env : Env) (actor : Actor) (id : ℕ) (j : JobCard) (source : Source) (o : Option ℕ) (db : Db)
    → IsAhead env o
    → (n : Text) × IsNextNumber env o n db
      × (IsFree o n db
            × (raise_successor env actor id j source o db
                ≡ (ok (successor_id o db), raised env actor id j source o n db))
          ⊎ IsTaken o n db
            × (raise_successor env actor id j source o db ≡ (
              err (pg unique_violation job_cards_job_number_unique),
              record db { sequences = bump (key_of env job) db.sequences },
            )))
unfolding raise_successor insert_job_card
raise_successor_lem env actor id j source none db h = ([], tt, inl (tt, refl))
raise_successor_lem env actor id j source (some day) db h =
    let (n, e, a) = allocate_number_lem env job db in
    (
      n,
      e,
      elim (Bool-cases (job_number_taken n db.job_cards)) [
        | inl t ↦ inr (t, ground (arith, h, a, t))
        | inr f ↦ inl (f, ground (arith, h, a, f))
      ],
    )

-- The rows of the other jobs are as they were.
pub lookup-raised :
    (env : Env) (actor : Actor) (id : ℕ) (j : JobCard) (source : Source) (o : Option ℕ) (n : Text)
    (db : Db) (i : ℕ) (k : JobCard)
    → lookup i db.job_cards ≡ some k
    → lookup i (raised env actor id j source o n db).job_cards ≡ some k
lookup-raised env actor id j source none n db i k e = e
lookup-raised env actor id j source (some day) n db i k e =
    rw (lookup-insert db.next_id i (successor_job actor j day n db) db.job_cards, e) refl

pub customers-raised :
    (env : Env) (actor : Actor) (id : ℕ) (j : JobCard) (source : Source) (o : Option ℕ) (n : Text)
    (db : Db)
    → (raised env actor id j source o n db).customers ≡ db.customers
customers-raised env actor id j source none n db = refl
customers-raised env actor id j source (some day) n db = refl

pub job_cancellations-raised :
    (env : Env) (actor : Actor) (id : ℕ) (j : JobCard) (source : Source) (o : Option ℕ) (n : Text)
    (db : Db)
    → (raised env actor id j source o n db).job_cancellations ≡ db.job_cancellations
job_cancellations-raised env actor id j source none n db = refl
job_cancellations-raised env actor id j source (some day) n db = refl
