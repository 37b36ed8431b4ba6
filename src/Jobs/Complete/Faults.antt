-- ===== src/Jobs/Complete/Faults.antt =====
-- Why the lines and units of a completion are refused.
use serv_grid.Common.{
  ℕ, ◌≤◌, ◌≡◌, ◌≢◌, refl, ◌⊎◌, inl, inr, true, false, Option, none, some, List, [], ◌∷◌, Text,
  arith, lookup, update, insert, ltb, is_none, ◌==◌, ◌&&◌, Table, Any, Bool-cases, Option-cases,
}
use serv_grid.Shared.Errors.{validation_failed, duplicate_entity}
use serv_grid.Store.Rows.{CustomerProduct, CompletionPart, CompletionService, Product}
use serv_grid.Store.Db.{Db}
use serv_grid.Store.Tx.{
  ok, err, app, pg, Failure, map_db_refusal, check_violation, numeric_value_out_of_range,
  foreign_key_violation, no_constraint, customer_products_quantity_positive,
  customer_products_product_or_name, job_completion_parts_product_or_name,
  job_completion_parts_quantity_positive, M,
}
use serv_grid.Jobs.Repo.{numeric_12_2_limit}
use serv_grid.Jobs.Complete.Stack.{
  StackChangeUpsert, check_unit, check_part, is_dangling, is_unit, int4_limit, numeric_10_2_limit,
  over, new_unit, refreshed_unit, find_unit,
}

-- A product that is named is not in the catalogue.
abbrev pub IsGone : Option ℕ → Table Product → Type 0
IsGone o t = (k : ℕ) × (o ≡ some k) × (lookup k t ≡ none)

-- What is wrong with a unit: its quantity does not fit an integer or is 0, nothing names it, or it
-- names a product that is not there.
pub data UnitFault (t : Table Product) (s : StackChangeUpsert) : Type 0 where
  too_many : 2147483648 ≤ s.quantity → UnitFault t s
  no_units : s.quantity ≡ 0 → UnitFault t s
  unnamed_unit : s.product_id ≡ none → s.free_text_name ≡ none → UnitFault t s
  unknown_unit : IsGone s.product_id t → UnitFault t s

-- What is wrong with a part, its quantity and cost in hundredths.
pub data PartFault (t : Table Product) (p : CompletionPart) : Type 0 where
  too_much : 10000000000 ≤ p.quantity → PartFault t p
  too_dear : (c : ℕ) → p.unit_cost ≡ some c → 1000000000000 ≤ c → PartFault t p
  no_part : p.quantity ≡ 0 → PartFault t p
  unnamed_part : p.product_id ≡ none → p.free_text_name ≡ none → PartFault t p
  unknown_part : IsGone p.product_id t → PartFault t p

-- An active unit with the serial stands at another customer's site.
pub data Elsewhere (lower : Text → Text) (serial : Text) (customer : ℕ)
    : Table CustomerProduct → Type 0 where
  stands_away :
      {k : ℕ} {u : CustomerProduct} {t : Table CustomerProduct}
      → is_unit lower serial u ≡ true
      → u.customer_id ≢ customer
      → Elsewhere lower serial customer ((k, u) ∷ t)
  further_on :
      {r : ℕ × CustomerProduct} {t : Table CustomerProduct}
      → Elsewhere lower serial customer t
      → Elsewhere lower serial customer (r ∷ t)

-- Why a completion that was not refused before is refused, and what the refusal is mapped to.
pub data Cause (lower : Text → Text) (id customer : ℕ) (units : List StackChangeUpsert)
    (parts : List CompletionPart) (db : Db) : Failure → Type 0 where
  services_there :
      (l : List CompletionService)
      → lookup id db.completion_services ≡ some l
      → Cause lower id customer units parts db (app duplicate_entity)
  parts_there :
      (l : List CompletionPart)
      → lookup id db.completion_parts ≡ some l
      → Cause lower id customer units parts db (app duplicate_entity)
  bad_unit :
      Any
        (λ s.
          UnitFault db.products s ⊎ Elsewhere lower s.serial_number customer db.customer_products)
        units
      → Cause lower id customer units parts db (app validation_failed)
  bad_part :
      Any (PartFault db.products) parts
      → Cause lower id customer units parts db (app validation_failed)

-- A check lets through what has no fault, and refuses what has one as a 422.
pub data Checked (m : M (Unit {0})) (Fault : Type 0) (db : Db) : Type 0 where
  passed : ¬ Fault → m db ≡ (ok tt, db) → Checked m Fault db
  stopped :
      (e : Failure)
      → Fault
      → m db ≡ (err e, db)
      → map_db_refusal e ≡ app validation_failed
      → Checked m Fault db

pub is_dangling-cases :
    (o : Option ℕ) (t : Table Product)
    → (is_dangling o t ≡ false) × ¬ IsGone o t ⊎ (is_dangling o t ≡ true) × IsGone o t
unfolding is_dangling
is_dangling-cases none t = inl (refl, λ (k, e, n). ground (arith, e))
is_dangling-cases (some k) t = elim (Option-cases (lookup k t)) [
  | inl n ↦ inr (ground (arith, n), (k, refl, n))
  | inr (p, e) ↦ inl (ground (arith, e), λ (i, f, n). ground (arith, e, f, n))
]

pub check_unit-Checked :
    (s : StackChangeUpsert) (db : Db) → Checked (check_unit s) (UnitFault db.products s) db
unfolding check_unit map_db_refusal
check_unit-Checked s db = elim (Bool-cases (ltb s.quantity int4_limit)) [
  | inr a ↦
      stopped (pg numeric_value_out_of_range no_constraint) (too_many (ground (arith, a)))
        (ground arith) refl
  | inl a ↦ elim (Bool-cases (s.quantity == 0)) [
    | inl b ↦
        stopped (pg check_violation customer_products_quantity_positive)
          (no_units (ground (arith, b))) (ground arith) refl
    | inr b ↦ elim (Bool-cases (is_none s.product_id && is_none s.free_text_name)) [
      | inl c ↦
          stopped (pg check_violation customer_products_product_or_name)
            (unnamed_unit (ground (arith, c)) (ground (arith, c))) (ground arith) refl
      | inr c ↦ elim (is_dangling-cases s.product_id db.products) [
        | inr (d, g) ↦
            stopped (pg foreign_key_violation no_constraint) (unknown_unit g) (ground (arith, d))
              refl
        | inl (d, g) ↦
            passed
              (λ h. elim h [
                | too_many q ↦ ground (arith, a)
                | no_units q ↦ ground (arith, b)
                | unnamed_unit q r ↦ ground (arith, c)
                | unknown_unit q ↦ g q
              ])
              (ground (arith, d))
      ]
    ]
  ]
]

-- The CHECKs alone: a dangling product is found at the end of the statement.
pub data OwnFault (p : CompletionPart) : Type 0 where
  own_much : 10000000000 ≤ p.quantity → OwnFault p
  own_dear : (c : ℕ) → p.unit_cost ≡ some c → 1000000000000 ≤ c → OwnFault p
  own_none : p.quantity ≡ 0 → OwnFault p
  own_unnamed : p.product_id ≡ none → p.free_text_name ≡ none → OwnFault p

pub OwnFault-PartFault : (t : Table Product) (p : CompletionPart) → OwnFault p → PartFault t p
OwnFault-PartFault t p (own_much q) = too_much q
OwnFault-PartFault t p (own_dear c e q) = too_dear c e q
OwnFault-PartFault t p (own_none q) = no_part q
OwnFault-PartFault t p (own_unnamed q r) = unnamed_part q r

pub PartFault-cases :
    (t : Table Product) (p : CompletionPart) → PartFault t p → OwnFault p ⊎ IsGone p.product_id t
PartFault-cases t p (too_much q) = inl (own_much q)
PartFault-cases t p (too_dear c e q) = inl (own_dear c e q)
PartFault-cases t p (no_part q) = inl (own_none q)
PartFault-cases t p (unnamed_part q r) = inl (own_unnamed q r)
PartFault-cases t p (unknown_part q) = inr q

over-cases :
    (o : Option ℕ) (n : ℕ)
    → (over o n ≡ true) × ((c : ℕ) × (o ≡ some c) × (n ≤ c))
      ⊎ (over o n ≡ false) × ¬ ((c : ℕ) × (o ≡ some c) × (n ≤ c))
over-cases none n = inr (refl, λ (c, e, h). ground (arith, e))
over-cases (some c) n = elim (Bool-cases (ltb c n)) [
  | inl a ↦ inr (ground (arith, a), λ (d, e, h). ground (arith, a, e, h))
  | inr a ↦ inl (ground (arith, a), (c, refl, ground (arith, a)))
]

pub check_part-Checked : (p : CompletionPart) (db : Db) → Checked (check_part p) (OwnFault p) db
unfolding check_part map_db_refusal
check_part-Checked p db = elim (Bool-cases (ltb p.quantity numeric_10_2_limit)) [
  | inr a ↦
      stopped (pg numeric_value_out_of_range no_constraint) (own_much (ground (arith, a)))
        (ground (arith, a)) refl
  | inl a ↦ elim (over-cases p.unit_cost numeric_12_2_limit) [
    | inl (b, (d, e, h)) ↦
        stopped (pg numeric_value_out_of_range no_constraint) (own_dear d e h)
          (ground (arith, a, b)) refl
    | inr (b, cheap) ↦ elim (Bool-cases (p.quantity == 0)) [
      | inl c ↦
          stopped (pg check_violation job_completion_parts_quantity_positive)
            (own_none (ground (arith, c))) (ground (arith, a, b, c)) refl
      | inr c ↦ elim (Bool-cases (is_none p.product_id && is_none p.free_text_name)) [
        | inl d ↦
            stopped (pg check_violation job_completion_parts_product_or_name)
              (own_unnamed (ground (arith, d)) (ground (arith, d))) (ground (arith, a, b, c, d))
              refl
        | inr d ↦
            passed
              (λ h. elim h [
                | own_much q ↦ ground (arith, a)
                | own_dear n e q ↦ cheap (n, e, q)
                | own_none q ↦ ground (arith, c)
                | own_unnamed q r ↦ ground (arith, d)
              ])
              (ground (arith, a, b, c, d))
      ]
    ]
  ]
]

module _ (lower : Text → Text) where
  -- The unit that is found is in the table.
  pub find_unit-Elsewhere :
      (serial : Text) (customer k : ℕ) (u : CustomerProduct) (t : Table CustomerProduct)
      → find_unit lower serial t ≡ some (k, u)
      → u.customer_id ≢ customer
      → Elsewhere lower serial customer t
  unfolding find_unit
  find_unit-Elsewhere serial customer k u [] h n = absurd (ground (arith, h))
  find_unit-Elsewhere serial customer k u ((j, v) ∷ t) h n =
      elim (Bool-cases (is_unit lower serial v)) [
        | inl a ↦ stands_away a (λ q. n (ground (arith, a, h, q)))
        | inr a ↦ further_on (find_unit-Elsewhere serial customer k u t (ground (arith, a, h)) n)
      ]

  -- A unit that was put at a customer's site is not away from it.
  pub Elsewhere-insert :
      (serial : Text) (k : ℕ) (s : StackChangeUpsert) (t : Table CustomerProduct)
      → Elsewhere lower serial s.customer_id (insert k (new_unit s) t)
      → Elsewhere lower serial s.customer_id t
  unfolding insert
  Elsewhere-insert serial k s [] h = absurd (not_new h)
    where
      not_new : ¬ Elsewhere lower serial s.customer_id ((k, new_unit s) ∷ [])
      not_new (stands_away a n) = n refl
      not_new (further_on r) = elim r [ ]
  Elsewhere-insert serial k s (r ∷ t) (stands_away a n) = stands_away a n
  Elsewhere-insert serial k s (r ∷ t) (further_on h) = further_on (Elsewhere-insert serial k s t h)

  -- Refreshing a row keeps its serial, its site and its being active.
  away-refreshed :
      (serial : Text) (customer j : ℕ) (s : StackChangeUpsert) (v : CustomerProduct)
      (t : Table CustomerProduct)
      → Elsewhere lower serial customer ((j, refreshed_unit s v) ∷ t)
      → Elsewhere lower serial customer ((j, v) ∷ t)
  away-refreshed serial customer j s v t (stands_away a n) = stands_away a n
  away-refreshed serial customer j s v t (further_on h) = further_on h

  away-tail :
      (serial : Text) (customer : ℕ) (r : ℕ × CustomerProduct) (t t' : Table CustomerProduct)
      → (Elsewhere lower serial customer t → Elsewhere lower serial customer t')
      → Elsewhere lower serial customer (r ∷ t)
      → Elsewhere lower serial customer (r ∷ t')
  away-tail serial customer r t t' f (stands_away a n) = stands_away a n
  away-tail serial customer r t t' f (further_on h) = further_on (f h)

  pub Elsewhere-refresh :
      (serial : Text) (customer k : ℕ) (s : StackChangeUpsert) (t : Table CustomerProduct)
      → Elsewhere lower serial customer (update k (refreshed_unit s) t)
      → Elsewhere lower serial customer t
  unfolding update
  Elsewhere-refresh serial customer k s [] h = h
  Elsewhere-refresh serial customer k s ((j, v) ∷ t) h = elim (Bool-cases (j == k)) [
    | inl b ↦ away-refreshed serial customer j s v t (rw b at h)
    | inr b ↦
        away-tail serial customer (j, v) (update k (refreshed_unit s) t) t
          (Elsewhere-refresh serial customer k s t) (rw b at h)
  ]
