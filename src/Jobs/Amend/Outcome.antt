-- ===== src/Jobs/Amend/Outcome.antt =====
-- What an amendment of a completion answers, on every branch, and what it writes.
use serv_grid.Common.{
  ℕ, suc, Option, Text, sym, ap, ◌≡◌, ◌≢◌, refl, ◌⊎◌, inl, inr, Bool, true, false, not, ◌&&◌, ◌==◌,
  none, some, ◌++◌, [], ◌∷◌, arith, lookup, update, is_none, ltb, Option-cases, Bool-cases,
}
use serv_grid.Shared.Errors.{forbidden, not_found, reconciliation_confirmed, validation_failed}
use serv_grid.Shared.Permissions.{owner}
use serv_grid.Store.Rows.{JobCard, JobCompletion, Customer}
use serv_grid.Store.Events.{Source}
use serv_grid.Store.Db.{Db}
use serv_grid.Store.Tx.{
  Result, ok, err, app, pg, Failure, with_transaction, map_db_refusal, mapping_refusals_ok,
  check_violation, numeric_value_out_of_range, no_constraint, completion_discount_bounded,
  completion_discount_justified, completion_mode_coherent, job_completions_latlng_paired,
}
use serv_grid.Api.Clock.{Env}
use serv_grid.Jobs.Repo.{check_completion, numeric_12_2_limit, is_none_owed}
use serv_grid.Jobs.Cards.{Actor, Card, project}
use serv_grid.Jobs.Rules.{is_owner}
use serv_grid.Jobs.Sound.{IsSound, find_card_lem}
use serv_grid.Jobs.Amend.{
  AmendInput, amend_completion, amend_body, amend_row_of, amend_event, patched, sets_nothing,
  amended_completion, covering_reconciliation,
}

-- The figures that the CHECKs of job_completions let through.
abbrev pub figures_ok : JobCompletion → Bool
figures_ok c =
    ltb c.cost numeric_12_2_limit
    && ltb c.discount_amount numeric_12_2_limit
    && not (ltb c.cost c.discount_amount)
    && not (not (c.discount_amount == 0) && is_none c.discount_reason)
    && not (not (c.cost == c.discount_amount) && is_none_owed c.collection_mode)
    && not (not (is_none c.latitude) && is_none c.longitude)
    && not (is_none c.latitude && not (is_none c.longitude))

pub check_completion_ok :
    (c : JobCompletion) (db : Db) → figures_ok c ≡ true → check_completion c db ≡ (ok tt, db)
unfolding check_completion
check_completion_ok c db h = ground arith

-- Every refusal of the CHECKs is a 422.
pub check_completion_err :
    (c : JobCompletion) (db : Db)
    → figures_ok c ≡ false
    → (e : Failure) × (check_completion c db ≡ (err e, db))
      × (map_db_refusal e ≡ app validation_failed)
unfolding check_completion map_db_refusal
check_completion_err c db h = elim (Bool-cases (ltb c.cost numeric_12_2_limit)) [
  | inr a0 ↦ (pg numeric_value_out_of_range no_constraint, ground arith, refl)
  | inl a0 ↦ elim (Bool-cases (ltb c.discount_amount numeric_12_2_limit)) [
    | inr a1 ↦ (pg numeric_value_out_of_range no_constraint, ground arith, refl)
    | inl a1 ↦ elim (Bool-cases (ltb c.cost c.discount_amount)) [
      | inl a2 ↦ (pg check_violation completion_discount_bounded, ground arith, refl)
      | inr a2 ↦ elim (Bool-cases (not (c.discount_amount == 0) && is_none c.discount_reason)) [
        | inl a3 ↦ (pg check_violation completion_discount_justified, ground arith, refl)
        | inr a3 ↦
            elim (Bool-cases
              (not (c.cost == c.discount_amount) && is_none_owed c.collection_mode)) [
                | inl a4 ↦ (pg check_violation completion_mode_coherent, ground arith, refl)
                | inr a4 ↦ elim (Bool-cases (not (is_none c.latitude) && is_none c.longitude)) [
                  | inl a5 ↦ (pg check_violation job_completions_latlng_paired, ground arith, refl)
                  | inr a5 ↦ elim (Bool-cases (is_none c.latitude && not (is_none c.longitude))) [
                    | inl a6 ↦
                        (pg check_violation job_completions_latlng_paired, ground arith, refl)
                    | inr a6 ↦ absurd (ground arith)
                  ]
                ]
              ]
      ]
    ]
  ]
]

-- The figures that were sent are written, one by one, and the version counts up.
abbrev set_cost : Option ℕ → JobCompletion → JobCompletion
set_cost none c = c
set_cost (some n) c = record c { cost = n }

abbrev set_discount : Option ℕ → JobCompletion → JobCompletion
set_discount none c = c
set_discount (some n) c = record c { discount_amount = n }

abbrev set_reason : Option Text → JobCompletion → JobCompletion
set_reason none c = c
set_reason (some t) c = record c { discount_reason = some t }

abbrev pub rewritten : Option ℕ → Option ℕ → Option Text → JobCompletion → JobCompletion
rewritten cost discount why c = record (set_cost cost (set_discount discount (set_reason why c))) {
  version = suc c.version;
}

patch-rewritten :
    (a b : Option ℕ) (r : Option Text) (t : Text)
    → amended_completion (record { cost = a; discount_amount = b; discount_reason = r; reason = t })
      ≡ rewritten a b r
patch-rewritten none none none t = refl
patch-rewritten none none (some r) t = refl
patch-rewritten none (some b) none t = refl
patch-rewritten none (some b) (some r) t = refl
patch-rewritten (some a) none none t = refl
patch-rewritten (some a) none (some r) t = refl
patch-rewritten (some a) (some b) none t = refl
patch-rewritten (some a) (some b) (some r) t = refl

amended_completion-rewritten :
    (input : AmendInput)
    → amended_completion input ≡ rewritten input.cost input.discount_amount input.discount_reason
amended_completion-rewritten input =
    patch-rewritten input.cost input.discount_amount input.discount_reason input.reason

module _ (env : Env) (actor : Actor) (id : ℕ) (input : AmendInput) (source : Source) (db : Db) where
  abbrev pub amend_answer : Result Card × Db
  amend_answer = amend_completion env actor id input source db

  -- The table after the patch; with nothing to set it is not written.
  abbrev table_by : (JobCompletion → JobCompletion) → Db
  table_by f = elim (sets_nothing input) [
    | true ↦ db
    | false ↦ record db { job_completions = update id f db.job_completions }
  ]

  abbrev pub amended_table_db : Db
  amended_table_db = table_by (rewritten input.cost input.discount_amount input.discount_reason)

  abbrev pub amended_db : JobCompletion → Db
  amended_db c = record amended_table_db {
    job_events = db.job_events ++ (amend_event env actor id c input source ∷ []);
  }

  -- The same with the statement's own row.
  abbrev written_db : JobCompletion → (JobCompletion → JobCompletion) → Db
  written_db c f = record (table_by f) {
    job_events = db.job_events ++ (amend_event env actor id c input source ∷ []);
  }

  written-amended : (c : JobCompletion) → written_db c (amended_completion input) ≡ amended_db c
  written-amended c = ap (written_db c) (amended_completion-rewritten input)

  -- How an amendment can end.
  pub data AmendOutcome : Type 0 where
    not_owner : actor.role ≢ owner → amend_answer ≡ (err (app forbidden), db) → AmendOutcome
    no_completion :
        actor.role ≡ owner
        → lookup id db.job_completions ≡ none
        → amend_answer ≡ (err (app not_found), db)
        → AmendOutcome
    day_confirmed :
        (c : JobCompletion)
        → actor.role ≡ owner
        → lookup id db.job_completions ≡ some c
        → covering_reconciliation c db ≡ true
        → amend_answer ≡ (err (app reconciliation_confirmed), db)
        → AmendOutcome
    bad_figures :
        (c : JobCompletion)
        → actor.role ≡ owner
        → lookup id db.job_completions ≡ some c
        → covering_reconciliation c db ≡ false
        → sets_nothing input ≡ false
        → figures_ok (patched input c) ≡ false
        → amend_answer ≡ (err (app validation_failed), db)
        → AmendOutcome
    amended_it :
        (c : JobCompletion) (j : JobCard) (k : Customer)
        → actor.role ≡ owner
        → lookup id db.job_completions ≡ some c
        → covering_reconciliation c db ≡ false
        → (sets_nothing input ≡ true) ⊎ (figures_ok (patched input c) ≡ true)
        → lookup id db.job_cards ≡ some j
        → lookup j.customer_id db.customers ≡ some k
        → amend_answer ≡ (ok (project env owner id (amended_db c) (j, k)), amended_db c)
        → AmendOutcome

  body_lem :
      (c : JobCompletion)
      → lookup id db.job_completions ≡ some c
      → (sets_nothing input ≡ true)
        ⊎ (sets_nothing input ≡ false) × (figures_ok (patched input c) ≡ true)
      → amend_body env actor id c input source db ≡ (ok tt, amended_db c)
  unfolding amend_body amend_row_of
  body_lem c e (inl n) = ground (arith, n)
  body_lem c e (inr (s, h)) =
      rw (sym (written-amended c))
        (ground (arith, s, e, check_completion_ok (patched input c) db h))

  card_lem :
      (c : JobCompletion) (j : JobCard) (k : Customer)
      → is_owner actor.role ≡ true
      → lookup id db.job_completions ≡ some c
      → covering_reconciliation c db ≡ false
      → lookup id db.job_cards ≡ some j
      → lookup j.customer_id db.customers ≡ some k
      → amend_body env actor id c input source db ≡ (ok tt, amended_db c)
      → amend_answer ≡ (ok (project env owner id (amended_db c) (j, k)), amended_db c)
  unfolding amend_completion with_transaction
  card_lem c j k o e u f g b = elim (Bool-cases (sets_nothing input)) [
    | inl n ↦ ground (
      arith,
      o,
      e,
      u,
      n,
      mapping_refusals_ok (amend_body env actor id c input source) db b,
      find_card_lem env owner id j k (amended_db c),
    )
    | inr n ↦ ground (
      arith,
      o,
      e,
      u,
      n,
      mapping_refusals_ok (amend_body env actor id c input source) db b,
      find_card_lem env owner id j k (amended_db c),
    )
  ]

  bad_lem :
      (c : JobCompletion) (e : Failure)
      → is_owner actor.role ≡ true
      → lookup id db.job_completions ≡ some c
      → covering_reconciliation c db ≡ false
      → sets_nothing input ≡ false
      → check_completion (patched input c) db ≡ (err e, db)
      → map_db_refusal e ≡ app validation_failed
      → amend_answer ≡ (err (app validation_failed), db)
  unfolding amend_completion amend_body amend_row_of with_transaction
  bad_lem c e o f u n b m = ground (arith, o, f, u, n, b, m)

  -- In a sound database an amendment of a completion ends in one of the five ways of AmendOutcome:
  -- FORBIDDEN for anybody but the owner, NOT_FOUND without a completion, RECONCILIATION_CONFIRMED
  -- when the closer's cash day is confirmed, VALIDATION_FAILED for figures that the CHECKs refuse,
  -- each with the database as it was, or the new figures with their event and the owner's card.
  pub amend_completion-AmendOutcome : IsSound db → AmendOutcome
  unfolding amend_completion with_transaction
  amend_completion-AmendOutcome sound = elim (Bool-cases (is_owner actor.role)) [
    | inr n ↦ not_owner (ground arith) (ground arith)
    | inl o ↦ elim (Option-cases (lookup id db.job_completions)) [
      | inl gone ↦ no_completion (ground arith) gone (ground arith)
      | inr (c, e) ↦ elim (Bool-cases (covering_reconciliation c db)) [
        | inl locked ↦ day_confirmed c (ground arith) e locked (ground arith)
        | inr u ↦
            let (j, row, st) = sound.completion_closed id c e in
            let (k, known) = sound.customer_known id j row in
            elim (Bool-cases (sets_nothing input)) [
              | inl s ↦
                  amended_it c j k (ground arith) e u (inl s) row known
                    (card_lem c j k o e u row known (body_lem c e (inl s)))
              | inr s ↦ elim (Bool-cases (figures_ok (patched input c))) [
                | inl h ↦
                    amended_it c j k (ground arith) e u (inr h) row known
                      (card_lem c j k o e u row known (body_lem c e (inr (s, h))))
                | inr h ↦
                    let (x, b, m) = check_completion_err (patched input c) db h in
                    bad_figures c (ground arith) e u s h (bad_lem c x o e u s b m)
              ]
            ]
      ]
    ]
  ]
