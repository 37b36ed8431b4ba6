-- ===== src/Jobs/Complete/Parts.antt =====
-- How the statements on the lines and the pin of a completion can end.
use serv_grid.Common.{
  ℕ, ◌≡◌, refl, ◌⊎◌, inl, inr, Any, at_head, in_tail, Any-map, Option-cases, Option, none, some,
  List, [], ◌∷◌, arith, lookup, update, insert, ◌==◌, lookup-update, Bool-cases, All, Table,
}
use serv_grid.Store.Rows.{CompletionService, CompletionPart, Product}
use serv_grid.Store.Db.{Db}
use serv_grid.Store.Tx.{
  M, ok, err, app, Failure, foreign_key_violation, pg, map_db_refusal, unique_violation,
  no_constraint,
}
use serv_grid.Store.Steps.{Ran, went, refused}
use serv_grid.Jobs.Complete.Stack.{
  set_site_pin_if_absent, insert_completion_services, insert_completion_parts, check_parts,
  refer_parts, pinned,
}
use serv_grid.Shared.Errors.{validation_failed, duplicate_entity}
use serv_grid.Jobs.Complete.{register_pin}
use serv_grid.Jobs.Complete.Faults.{
  PartFault, OwnFault, OwnFault-PartFault, PartFault-cases, unknown_part, IsGone, passed, stopped,
  check_part-Checked, is_dangling-cases,
}
use serv_grid.Jobs.Complete.Frame.{Agrees, Agrees-refl, Agrees-of, with_lines}

-- The services of a job that has none are written as its lines.
pub insert_completion_services-Ran :
    (id : ℕ) (lines : List CompletionService) (db : Db)
    → Ran
        (insert_completion_services id lines db)
        (λ f.
          (f ≡ app duplicate_entity)
          × ((l : List CompletionService) × (lookup id db.completion_services ≡ some l)))
        (λ db'.
          Agrees db db'
          × (db'.customer_products ≡ db.customer_products)
          × (db'.completion_services ≡ with_lines id lines db.completion_services)
          × (db'.completion_parts ≡ db.completion_parts))
unfolding insert_completion_services map_db_refusal
insert_completion_services-Ran id [] db = went db refl (Agrees-refl db, refl, refl, refl)
insert_completion_services-Ran id (l ∷ lines) db =
    elim (Option-cases (lookup id db.completion_services)) [
      | inl a ↦
          went (record db { completion_services = insert id (l ∷ lines) db.completion_services })
            (ground (arith, a))
            (Agrees-of db _ refl refl refl refl refl refl (omega arith), refl, refl, refl)
      | inr (old, a) ↦
          refused (pg unique_violation no_constraint) db (ground (arith, a)) (refl, (old, a))
    ]

-- Parts that are checked have no fault of their own, and parts that are refused have one.
data Sieved (m : M (Unit {0})) (Fault : CompletionPart → Type 0) (parts : List CompletionPart)
    (db : Db) : Type 0 where
  all_fine : All (λ p. ¬ Fault p) parts → m db ≡ (ok tt, db) → Sieved m Fault parts db
  one_bad :
      (e : Failure)
      → Any Fault parts
      → m db ≡ (err e, db)
      → map_db_refusal e ≡ app validation_failed
      → Sieved m Fault parts db

check_parts-Sieved :
    (parts : List CompletionPart) (db : Db) → Sieved (check_parts parts) OwnFault parts db
unfolding check_parts
check_parts-Sieved [] db = all_fine tt refl
check_parts-Sieved (p ∷ parts) db = elim (check_part-Checked p db) [
  | stopped e g q r ↦ one_bad e (at_head g) (ground (arith, q)) r
  | passed n q ↦ elim (check_parts-Sieved parts db) [
    | one_bad e g u r ↦ one_bad e (in_tail g) (ground (arith, q, u)) r
    | all_fine h u ↦ all_fine (n, h) (ground (arith, q, u))
  ]
]

refer_parts-Sieved :
    (parts : List CompletionPart) (db : Db)
    → Sieved (refer_parts parts) (λ p. IsGone p.product_id db.products) parts db
unfolding refer_parts map_db_refusal
refer_parts-Sieved [] db = all_fine tt refl
refer_parts-Sieved (p ∷ parts) db = elim (is_dangling-cases p.product_id db.products) [
  | inr (d, g) ↦
      one_bad (pg foreign_key_violation no_constraint) (at_head g) (ground (arith, d)) refl
  | inl (d, n) ↦ elim (refer_parts-Sieved parts db) [
    | one_bad e g u r ↦ one_bad e (in_tail g) (ground (arith, d, u)) r
    | all_fine h u ↦ all_fine (n, h) (ground (arith, d, u))
  ]
]

no_PartFault :
    (t : Table Product) (parts : List CompletionPart)
    → All (λ p. ¬ OwnFault p) parts
    → All (λ p. ¬ IsGone p.product_id t) parts
    → All (λ p. ¬ PartFault t p) parts
no_PartFault t [] h k = tt
no_PartFault t (p ∷ parts) (n, h) (m, k) =
    (λ f. elim (PartFault-cases t p f) [ inl o ↦ n o | inr g ↦ m g ], no_PartFault t parts h k)

-- A list of parts is refused for a fault of one of them, or for the lines that are there.
abbrev pub PartsWhy : ℕ → List CompletionPart → Db → Failure → Type 0
PartsWhy id parts db f =
    (f ≡ app validation_failed) × Any (PartFault db.products) parts
    ⊎ (f ≡ app duplicate_entity)
      × ((l : List CompletionPart) × (lookup id db.completion_parts ≡ some l))

pub insert_completion_parts-Ran :
    (id : ℕ) (parts : List CompletionPart) (db : Db)
    → Ran (insert_completion_parts id parts db) (PartsWhy id parts db) (λ db'.
      Agrees db db'
      × (db'.customer_products ≡ db.customer_products)
      × (db'.completion_services ≡ db.completion_services)
      × (db'.completion_parts ≡ with_lines id parts db.completion_parts)
      × All (λ p. ¬ PartFault db.products p) parts)
unfolding insert_completion_parts map_db_refusal
insert_completion_parts-Ran id [] db = went db refl (Agrees-refl db, refl, refl, refl, tt)
insert_completion_parts-Ran id (p ∷ parts) db = elim (check_parts-Sieved (p ∷ parts) db) [
  | one_bad e g q r ↦
      refused e db (ground (arith, q)) (inl (r, Any-map (OwnFault-PartFault db.products) g))
  | all_fine h q ↦ elim (Option-cases (lookup id db.completion_parts)) [
    | inr (old, a) ↦
        refused (pg unique_violation no_constraint) db (ground (arith, a, q)) (inr (refl, (old, a)))
    | inl a ↦ elim (refer_parts-Sieved (p ∷ parts) db) [
      | one_bad e g u r ↦
          refused e db (ground (arith, a, q, u)) (inl (r, Any-map (λ p g. unknown_part g) g))
      | all_fine k u ↦
          went (record db { completion_parts = insert id (p ∷ parts) db.completion_parts })
            (ground (arith, a, q, u))
            (
              Agrees-of db _ refl refl refl refl refl refl (omega arith),
              refl,
              refl,
              refl,
              no_PartFault db.products (p ∷ parts) h k,
            )
    ]
  ]
]

pinned-Agrees :
    (k lat lon : ℕ) (db : Db)
    → Agrees db (record db { customers = update k (pinned lat lon) db.customers })
pinned-Agrees k lat lon db = record {
  cards = refl;
  completions = refl;
  cancellations = refl;
  events = refl;
  products = refl;
  next = omega arith;
  customers = λ i c e. elim (Bool-cases (k == i)) [
    | inl a ↦
        (pinned lat lon c, ground (arith, e, a, lookup-update k i (pinned lat lon) db.customers))
    | inr a ↦ (c, ground (arith, e, a, lookup-update k i (pinned lat lon) db.customers))
  ];
}

-- The lines of completions and the units are as they were.
pub record KeepsAll (db db' : Db) : Type 0 where
  pub units : db'.customer_products ≡ db.customer_products
  pub services : db'.completion_services ≡ db.completion_services
  pub parts : db'.completion_parts ≡ db.completion_parts

pub register_pin-Ran :
    (k : ℕ) (lat lon : Option ℕ) (db : Db)
    → Ran (register_pin k lat lon db) (λ f. ⊥) (λ db'. Agrees db db' × KeepsAll db db')
unfolding set_site_pin_if_absent
register_pin-Ran k (some lat) (some lon) db =
    went _ refl (pinned-Agrees k lat lon db, record { units = refl; services = refl; parts = refl })
register_pin-Ran k (some lat) none db =
    went db refl (Agrees-refl db, record { units = refl; services = refl; parts = refl })
register_pin-Ran k none lon db =
    went db refl (Agrees-refl db, record { units = refl; services = refl; parts = refl })
