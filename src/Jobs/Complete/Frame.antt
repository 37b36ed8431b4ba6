-- ===== src/Jobs/Complete/Frame.antt =====
-- What the stack and line statements of a completion leave alone, and how they can refuse.
use serv_grid.Common.{
  Table, List, [], ◌∷◌, ℕ, suc, ◌≤◌, ◌≡◌, ◌≢◌, refl, ◌∙◌, ◌⊎◌, inl, inr, Option, none, some, arith,
  lookup, update, insert, ◌==◌, Bool-cases, ==_iff,
}
use serv_grid.Store.Rows.{Customer, CustomerProduct}
use serv_grid.Store.Db.{Db}
use serv_grid.Shared.Errors.{validation_failed}
use serv_grid.Store.Tx.{app, Failure, map_db_refusal}
use serv_grid.Store.Steps.{Ran, went, refused}
use serv_grid.Jobs.Complete.Stack.{
  StackChangeUpsert, insert_stack_unit, update_stack_unit_from_job, new_unit, refreshed_unit,
}
use serv_grid.Jobs.Complete.Faults.{UnitFault, passed, stopped, check_unit-Checked}
use serv_grid.Jobs.Complete.{upsert_unit}

-- The tables that the invariant of the jobs tables reads.
pub record Agrees (db db' : Db) : Type 0 where
  pub cards : db'.job_cards ≡ db.job_cards
  pub completions : db'.job_completions ≡ db.job_completions
  pub cancellations : db'.job_cancellations ≡ db.job_cancellations
  pub events : db'.job_events ≡ db.job_events
  pub products : db'.products ≡ db.products
  pub next : db.next_id ≤ db'.next_id
  pub customers :
      (i : ℕ) (c : Customer)
      → lookup i db.customers ≡ some c
      → (c' : Customer) × (lookup i db'.customers ≡ some c')

pub Agrees-refl : (db : Db) → Agrees db db
Agrees-refl db = record {
  cards = refl;
  completions = refl;
  cancellations = refl;
  events = refl;
  products = refl;
  next = omega arith;
  customers = λ i c e. (c, e);
}

pub Agrees-trans : (x y z : Db) → Agrees x y → Agrees y z → Agrees x z
Agrees-trans x y z p q = record {
  cards = q.cards ∙ p.cards;
  completions = q.completions ∙ p.completions;
  cancellations = q.cancellations ∙ p.cancellations;
  events = q.events ∙ p.events;
  products = q.products ∙ p.products;
  next = omega (arith, p.next, q.next);
  customers = λ i c e. let (d, f) = p.customers i c e in q.customers i d f;
}

-- The lines of completions are as they were.
pub record KeepsLines (db db' : Db) : Type 0 where
  pub services : db'.completion_services ≡ db.completion_services
  pub parts : db'.completion_parts ≡ db.completion_parts

pub KeepsLines-refl : (db : Db) → KeepsLines db db
KeepsLines-refl db = record { services = refl; parts = refl }

pub KeepsLines-trans : (x y z : Db) → KeepsLines x y → KeepsLines y z → KeepsLines x z
KeepsLines-trans x y z p q = record {
  services = q.services ∙ p.services;
  parts = q.parts ∙ p.parts;
}

-- The table with the lines of a job, when it has any.
abbrev pub with_lines {ℓ} : {A : Type ℓ} → ℕ → List A → Table (List A) → Table (List A)
with_lines id [] t = t
with_lines id (l ∷ lines) t = insert id (l ∷ lines) t

-- Writes to other tables than these.
pub Agrees-of :
    (db db' : Db)
    → db'.job_cards ≡ db.job_cards
    → db'.job_completions ≡ db.job_completions
    → db'.job_cancellations ≡ db.job_cancellations
    → db'.job_events ≡ db.job_events
    → db'.products ≡ db.products
    → db'.customers ≡ db.customers
    → db.next_id ≤ db'.next_id
    → Agrees db db'
Agrees-of db db' cards completions cancellations events products customers next = record {
  cards = cards;
  completions = completions;
  cancellations = cancellations;
  events = events;
  products = products;
  next = next;
  customers = λ i c e. (c, rw customers e);
}

abbrev pub added : StackChangeUpsert → Db → Db
added s db = record db {
  customer_products = insert db.next_id (new_unit s) db.customer_products;
  next_id = suc db.next_id;
}

abbrev pub refreshed : StackChangeUpsert → ℕ → Db → Db
refreshed s k db = record db {
  customer_products = update k (refreshed_unit s) db.customer_products;
}

-- A new unit under the next id, or the customer's own unit refreshed.
pub data Upserted (s : StackChangeUpsert) (existing : Option (ℕ × CustomerProduct)) (db db' : Db)
    : Type 0 where
  unit_added : existing ≡ none → db' ≡ added s db → Upserted s existing db db'
  unit_refreshed :
      (k : ℕ) (u : CustomerProduct)
      → existing ≡ some (k, u)
      → u.customer_id ≡ s.customer_id
      → db' ≡ refreshed s k db
      → Upserted s existing db db'

-- A stack change is refused for its own fault, or because its unit stands elsewhere.
abbrev pub UpsertWhy : StackChangeUpsert → Option (ℕ × CustomerProduct) → Db → Failure → Type 0
UpsertWhy s existing db f =
    (f ≡ app validation_failed)
    × (UnitFault db.products s
        ⊎ (k : ℕ) × (u : CustomerProduct) × (existing ≡ some (k, u))
          × (u.customer_id ≢ s.customer_id))

pub upsert_unit-Ran :
    (s : StackChangeUpsert) (existing : Option (ℕ × CustomerProduct)) (db : Db)
    → Ran
        (upsert_unit s existing db)
        (UpsertWhy s existing db)
        (λ db'. Upserted s existing db db' × ¬ UnitFault db.products s)
unfolding insert_stack_unit update_stack_unit_from_job map_db_refusal
upsert_unit-Ran s none db = elim (check_unit-Checked s db) [
  | stopped e g q r ↦ refused e db (ground (arith, q)) (r, inl g)
  | passed n q ↦ went (added s db) (ground (arith, q)) (unit_added refl refl, n)
]
upsert_unit-Ran s (some (k, u)) db = elim (Bool-cases (u.customer_id == s.customer_id)) [
  | inr far ↦
      refused (app validation_failed) db (ground (arith, far))
        (refl, inr (k, u, refl, ground (arith, far, ==_iff u.customer_id s.customer_id)))
  | inl near ↦ elim (check_unit-Checked s db) [
    | stopped e g q r ↦ refused e db (ground (arith, q, near)) (r, inl g)
    | passed n q ↦
        went (refreshed s k db) (ground (arith, q, near)) (
          unit_refreshed k u refl (ground (arith, near, ==_iff u.customer_id s.customer_id)) refl,
          n,
        )
  ]
]
