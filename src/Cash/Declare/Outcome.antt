-- ===== src/Cash/Declare/Outcome.antt =====
-- What a declaration and its amendment do, on every branch.
use serv_grid.Common.{
  ℕ, suc, ◌-◌, ◌≡◌, ◌≢◌, refl, sym, ◌≤◌, lt→ltb, ◌⊎◌, inl, inr, true, false, ◌==◌, Option, none,
  some, ◌++◌, [], ◌∷◌, arith, Text, lookup, update, insert, ltb, is_none, ◌<◌, ltb→lt, ==_iff,
  Option-cases, Bool-cases,
}
use serv_grid.Shared.Errors.{
  validation_failed, duplicate_entity, not_found, out_of_scope, reconciliation_confirmed,
  version_conflict,
}
use serv_grid.Store.Rows.{CashReconciliation, Employee, submitted}
use serv_grid.Store.Events.{declaration_amended}
use serv_grid.Store.Db.{Db}
use serv_grid.Store.Tx.{
  Result, ok, err, app, pg, foreign_key_violation, no_constraint, with_transaction,
}
use serv_grid.Api.Clock.{Env, ist_today}
use serv_grid.Jobs.Repo.{numeric_12_2_limit}
use serv_grid.Cash.Repo.{
  insert_declaration, find_day, lock_by_id, is_submitted, amend_row, amended_row, touched_row,
}
use serv_grid.Cash.Declare.{Handover, declare, amend, business_date_max_age_days}
use serv_grid.Cash.Ledger.{IsHandover, IsLedger, update_handover_ok}

-- A declaration as it is filed: submitted now, unanswered.
abbrev pub filed_row : Env → ℕ → ℕ → ℕ → Option Text → CashReconciliation
filed_row env actor date amount note = record {
  employee_id = actor;
  business_date = date;
  declared_amount = amount;
  declared_at = env.now;
  employee_note = note;
  status = submitted;
  confirmed_amount = none;
  confirmed_by = none;
  confirmed_at = none;
  owner_note = none;
  reopened_at = none;
  reopened_by = none;
  reopen_reason = none;
  version = 1;
}

module _ (env : Env) (actor date amount : ℕ) (note : Option Text) (db : Db) where
  abbrev pub declare_answer : Result Handover × Db
  declare_answer = declare env actor date amount note db

  -- How a declaration can end.
  pub data DeclareOutcome : Type 0 where
    out_of_range :
        (ist_today env < date) ⊎ (date < ist_today env - 7)
        → declare_answer ≡ (err (app validation_failed), db)
        → DeclareOutcome
    day_taken :
        (h : Handover)
        → date ≤ ist_today env
        → ist_today env - 7 ≤ date
        → find_day actor date db.cash_reconciliations ≡ some h
        → declare_answer ≡ (err (app duplicate_entity), db)
        → DeclareOutcome
    -- not met behind a session: its actor is an employee
    nobody :
        date ≤ ist_today env
        → ist_today env - 7 ≤ date
        → lookup actor db.employees ≡ none
        → declare_answer ≡ (err (pg foreign_key_violation no_constraint), db)
        → DeclareOutcome
    declared :
        (e : Employee)
        → date ≤ ist_today env
        → ist_today env - 7 ≤ date
        → lookup actor db.employees ≡ some e
        → find_day actor date db.cash_reconciliations ≡ none
        → declare_answer ≡ (
          ok (db.next_id, filed_row env actor date amount note),
          record db {
            cash_reconciliations =
                insert db.next_id (filed_row env actor date amount note) db.cash_reconciliations;
            next_id = suc db.next_id;
          },
        )
        → DeclareOutcome

  in_time : ltb (ist_today env) date ≡ false → date ≤ ist_today env
  in_time f = ground (arith, lt→ltb (ist_today env) date)

  recent : ltb date (ist_today env - 7) ≡ false → ist_today env - 7 ≤ date
  recent f = ground (arith, lt→ltb date (ist_today env - 7))

  -- For an amount that numeric(12,2) holds, a declaration answers VALIDATION_FAILED for a day after
  -- today or more than seven days back, DUPLICATE_ENTITY for a day that the employee has declared,
  -- and the refusal of the foreign key for nobody's id, each with the database as it was, or, for a
  -- day of the last seven that the employee has not declared, it files the submitted row.
  pub declare-DeclareOutcome : ltb amount numeric_12_2_limit ≡ true → DeclareOutcome
  unfolding declare with_transaction insert_declaration
  declare-DeclareOutcome small = elim (Bool-cases (ltb (ist_today env) date)) [
    | inl f ↦ out_of_range (inl (ltb→lt (ist_today env) date f)) (ground arith)
    | inr f ↦ elim (Bool-cases (ltb date (ist_today env - business_date_max_age_days))) [
      | inl o ↦
          out_of_range (inr (ltb→lt date (ist_today env - business_date_max_age_days) o))
            (ground arith)
      | inr o ↦ elim (Option-cases (find_day actor date db.cash_reconciliations)) [
        | inr (h, e) ↦ day_taken h (in_time f) (recent o) e (ground arith)
        | inl n ↦ elim (Option-cases (lookup actor db.employees)) [
          | inl gone ↦ nobody (in_time f) (recent o) gone (ground arith)
          | inr (e, known) ↦ declared e (in_time f) (recent o) known n (ground arith)
        ]
      ]
    ]
  ]

module _ (env : Env) (actor id if_match : ℕ) (amount : Option ℕ) (note : Option Text)
    (db : Db) where
  abbrev pub amend_answer : Result Handover × Db
  amend_answer = amend env actor id if_match amount note db

  -- What was sent is written, what was not stays, and the version counts up.
  abbrev pub rewrite_declaration : Option ℕ → Option Text → CashReconciliation → CashReconciliation
  rewrite_declaration none none r = record r { version = suc r.version }
  rewrite_declaration (some n) none r = record r { declared_amount = n; version = suc r.version }
  rewrite_declaration none (some t) r = record r { employee_note = some t; version = suc r.version }
  rewrite_declaration (some n) (some t) r = record r {
    declared_amount = n;
    employee_note = some t;
    version = suc r.version;
  }

  pub amended_row-rewrite :
      (a : Option ℕ) (t : Option Text) → touched_row (amended_row a t) ≡ rewrite_declaration a t
  amended_row-rewrite none none = refl
  amended_row-rewrite (some n) none = refl
  amended_row-rewrite none (some t) = refl
  amended_row-rewrite (some n) (some t) = refl

  abbrev pub amended_db : CashReconciliation → Db
  amended_db r = record db {
    cash_reconciliations = update id (rewrite_declaration amount note) db.cash_reconciliations;
    audit_log =
        db.audit_log
        ++ (declaration_amended id r.employee_id actor r.business_date r.declared_amount amount
            ∷ []);
  }

  -- How an amendment can end.
  pub data AmendOutcome : Type 0 where
    no_row :
        lookup id db.cash_reconciliations ≡ none
        → amend_answer ≡ (err (app not_found), db)
        → AmendOutcome
    stranger :
        (r : CashReconciliation)
        → lookup id db.cash_reconciliations ≡ some r
        → r.employee_id ≢ actor
        → amend_answer ≡ (err (app out_of_scope), db)
        → AmendOutcome
    answered :
        (r : CashReconciliation)
        → lookup id db.cash_reconciliations ≡ some r
        → r.employee_id ≡ actor
        → r.status ≢ submitted
        → amend_answer ≡ (err (app reconciliation_confirmed), db)
        → AmendOutcome
    conflict :
        (r : CashReconciliation)
        → lookup id db.cash_reconciliations ≡ some r
        → r.employee_id ≡ actor
        → r.status ≡ submitted
        → r.version ≢ if_match
        → amend_answer ≡ (err (app version_conflict), db)
        → AmendOutcome
    amended :
        (r : CashReconciliation)
        → lookup id db.cash_reconciliations ≡ some r
        → r.employee_id ≡ actor
        → r.status ≡ submitted
        → r.version ≡ if_match
        → amend_answer ≡ (ok (id, rewrite_declaration amount note r), amended_db r)
        → AmendOutcome

  -- An amount that is sent fits numeric(12,2).
  abbrev pub IsSmall : Option ℕ → Type 0
  IsSmall none = Unit
  IsSmall (some n) = ltb n numeric_12_2_limit ≡ true

  pub amended-IsHandover :
      (o : Option ℕ) (r : CashReconciliation)
      → IsSmall o
      → IsHandover r
      → IsHandover (amended_row o note r)
  amended-IsHandover none r s h = record {
    answered = h.answered;
    justified = h.justified;
    fits = h.fits;
  }
  amended-IsHandover (some n) r s h = record {
    answered = h.answered;
    justified = h.justified;
    fits = s;
  }

  write_lem :
      (r : CashReconciliation)
      → (is_none amount ≡ false) ⊎ (is_none note ≡ false)
      → lookup id db.cash_reconciliations ≡ some r
      → IsHandover (amended_row amount note r)
      → amend_row id amount note db ≡ (
        ok (some (rewrite_declaration amount note r)),
        record db {
          cash_reconciliations =
              update id (rewrite_declaration amount note) db.cash_reconciliations;
        },
      )
  unfolding amend_row
  write_lem r s e h =
      rw (sym (amended_row-rewrite amount note))
        (ground (arith, s, update_handover_ok id (amended_row amount note) r db e h))

  -- In a sound ledger, for a patch that sets the amount or the note, and an amount that fits, an
  -- amendment answers NOT_FOUND, OUT_OF_SCOPE for another employee's row, RECONCILIATION_CONFIRMED
  -- for an answered one, VERSION_CONFLICT for a stale version, each with the database as it was, or
  -- it writes what was sent and files the old amount in the audit log.
  pub amend-AmendOutcome :
      IsLedger db
      → (is_none amount ≡ false) ⊎ (is_none note ≡ false)
      → IsSmall amount
      → AmendOutcome
  unfolding amend with_transaction lock_by_id
  amend-AmendOutcome ledger sent small = elim (Option-cases (lookup id db.cash_reconciliations)) [
    | inl gone ↦ no_row gone (ground arith)
    | inr (r, e) ↦ elim (Bool-cases (r.employee_id == actor)) [
      | inr n ↦ stranger r e (ground (arith, ==_iff r.employee_id actor)) (ground arith)
      | inl own ↦
          let mine = (==_iff r.employee_id actor).0 own in
          elim (Bool-cases (is_submitted r.status)) [
            | inr n ↦ answered r e mine (ground arith) (ground arith)
            | inl s ↦ elim (Bool-cases (r.version == if_match)) [
              | inr n ↦
                  conflict r e mine (ground arith) (ground (arith, ==_iff r.version if_match))
                    (ground arith)
              | inl v ↦ amended r e mine (ground arith) ((==_iff r.version if_match).0 v) (
                  ground (
                    arith,
                    e,
                    own,
                    s,
                    v,
                    write_lem r sent e (amended-IsHandover amount r small (ledger.rows id r e)),
                  ))
            ]
          ]
    ]
  ]
