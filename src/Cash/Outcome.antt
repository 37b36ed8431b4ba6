-- ===== src/Cash/Outcome.antt =====
-- What the owner's answer to a declaration does, on every branch.
use serv_grid.Common.{
  ℕ, suc, ◌≡◌, refl, ◌⊎◌, inl, inr, true, none, some, ◌++◌, [], ◌∷◌, arith, Text, lookup, update,
  lookup-update, ltb, Option-cases, Bool-cases,
}
use serv_grid.Shared.Errors.{not_found, illegal_transition}
use serv_grid.Store.Rows.{CashReconciliation, ReconciliationStatus, submitted, confirmed, disputed}
use serv_grid.Store.Events.{declaration_reopened}
use serv_grid.Store.Db.{Db}
use serv_grid.Store.Tx.{Result, ok, err, app, with_transaction}
use serv_grid.Api.Clock.{Env}
use serv_grid.Jobs.Repo.{numeric_12_2_limit}
use serv_grid.Cash.Repo.{
  lock_by_id, is_submitted, confirm_declaration, dispute_declaration, reopen_declaration,
  confirmed_row, disputed_row, reopened_row, touched_row,
}
use serv_grid.Cash.Queue.{QueueRow, queue_row_for}
use serv_grid.Cash.Answer.{confirm, dispute, reopen}
use serv_grid.Cash.Ledger.{IsLedger, update_handover_ok, queue_row_for-lookup}

-- How an answer can end: `legal` says which statuses it may answer, and `after` is the database
-- with the answered row.
pub data AnswerOutcome (result : Result QueueRow × Db) (legal : ReconciliationStatus → Type 0)
    (after : CashReconciliation → Db) (id : ℕ) (db : Db) : Type 0 where
  no_row :
      lookup id db.cash_reconciliations ≡ none
      → result ≡ (err (app not_found), db)
      → AnswerOutcome result legal after id db
  not_legal :
      (r : CashReconciliation)
      → lookup id db.cash_reconciliations ≡ some r
      → ¬ legal r.status
      → result ≡ (err (app illegal_transition), db)
      → AnswerOutcome result legal after id db
  answered :
      (r : CashReconciliation) (q : QueueRow)
      → lookup id db.cash_reconciliations ≡ some r
      → legal r.status
      → queue_row_for r.employee_id r.business_date (after r) ≡ some q
      → result ≡ (ok q, after r)
      → AnswerOutcome result legal after id db

-- The database with the row rewritten.
abbrev pub rewritten : ℕ → (CashReconciliation → CashReconciliation) → Db → Db
rewritten id f db = record db { cash_reconciliations = update id f db.cash_reconciliations }

-- The confirmed row: the amount, the owner and the instant; what was declared stays.
abbrev pub confirmed_db : Env → ℕ → ℕ → ℕ → Db → Db
confirmed_db env actor id amount = rewritten id (λ r. record r {
  status = confirmed;
  confirmed_amount = some amount;
  confirmed_by = some actor;
  confirmed_at = some env.now;
  version = suc r.version;
})

-- The disputed row: the owner's note, the owner and the instant; what was declared stays.
abbrev pub disputed_db : Env → ℕ → ℕ → Text → Db → Db
disputed_db env actor id note = rewritten id (λ r. record r {
  status = disputed;
  owner_note = some note;
  confirmed_by = some actor;
  confirmed_at = some env.now;
  version = suc r.version;
})

-- The row is read back in the queue.
refreshed :
    (id : ℕ) (f : CashReconciliation → CashReconciliation) (r : CashReconciliation) (db db' : Db)
    → IsLedger db
    → lookup id db.cash_reconciliations ≡ some r
    → (f r).employee_id ≡ r.employee_id
    → (f r).business_date ≡ r.business_date
    → db'.cash_reconciliations ≡ update id (touched_row f) db.cash_reconciliations
    → db'.employees ≡ db.employees
    → (q : QueueRow) × (queue_row_for r.employee_id r.business_date db' ≡ some q)
refreshed id f r db db' ledger e same_e same_d cards emp =
    let (w, k) = ledger.employee_known id r e in
    let row : lookup id db'.cash_reconciliations ≡ some (touched_row f r) =
      rw cards (ground (arith, e, lookup-update id id (touched_row f) db.cash_reconciliations)) in
    queue_row_for-lookup id r.employee_id r.business_date (touched_row f r) w db' same_e same_d row
      (rw emp k)

module _ (env : Env) (actor id : ℕ) (db : Db) where
  -- In a sound ledger, and for an amount that numeric(12,2) holds, a confirmation answers
  -- NOT_FOUND, ILLEGAL_TRANSITION for a day that is not submitted, both with the database as it
  -- was, or it writes the amount, the owner and the instant into the row, confirmed, and gives the queue's row for the day.
  pub confirm-AnswerOutcome :
      (amount : ℕ)
      → ltb amount numeric_12_2_limit ≡ true
      → IsLedger db
      → AnswerOutcome
          (confirm env actor id amount db)
          (λ s. s ≡ submitted)
          (λ _. confirmed_db env actor id amount db)
          id
          db
  unfolding confirm with_transaction lock_by_id confirm_declaration
  confirm-AnswerOutcome amount small ledger =
      elim (Option-cases (lookup id db.cash_reconciliations)) [
        | inl gone ↦ no_row gone (ground arith)
        | inr (r, e) ↦ elim (Bool-cases (is_submitted r.status)) [
          | inr n ↦ not_legal r e (ground arith) (ground arith)
          | inl s ↦
              let h = ledger.rows id r e in
              let (q, known) =
                refreshed id (confirmed_row env amount actor) r db
                  (confirmed_db env actor id amount db) ledger e refl refl refl refl in
              answered r q e (ground arith) known (
                ground (
                  arith,
                  e,
                  s,
                  known,
                  update_handover_ok id (confirmed_row env amount actor) r db e
                      (record { answered = refl; justified = refl; fits = h.fits }),
                ))
        ]
      ]

  -- In a sound ledger a dispute answers NOT_FOUND, ILLEGAL_TRANSITION for a day that is not
  -- submitted, both with the database as it was, or it marks the row disputed with the note and
  -- gives the queue's row for the day.
  pub dispute-AnswerOutcome :
      (note : Text)
      → IsLedger db
      → AnswerOutcome
          (dispute env actor id note db)
          (λ s. s ≡ submitted)
          (λ _. disputed_db env actor id note db)
          id
          db
  unfolding dispute with_transaction lock_by_id dispute_declaration
  dispute-AnswerOutcome note ledger = elim (Option-cases (lookup id db.cash_reconciliations)) [
    | inl gone ↦ no_row gone (ground arith)
    | inr (r, e) ↦ elim (Bool-cases (is_submitted r.status)) [
      | inr n ↦ not_legal r e (ground arith) (ground arith)
      | inl s ↦
          let h = ledger.rows id r e in
          let (q, known) =
            refreshed id (disputed_row env note actor) r db (disputed_db env actor id note db)
              ledger e refl refl refl refl in
          answered r q e (ground arith) known (
            ground (
              arith,
              e,
              s,
              known,
              update_handover_ok id (disputed_row env note actor) r db e
                  (record { answered = refl; justified = refl; fits = h.fits }),
            ))
    ]
  ]

  -- The reopened row, and its audit entry.
  abbrev pub reopened_db : Text → CashReconciliation → Db
  reopened_db reason r = record db {
    cash_reconciliations =
        update id
          (λ x. record x {
            status = submitted;
            confirmed_amount = none;
            confirmed_at = none;
            owner_note = none;
            reopened_at = some env.now;
            reopened_by = some actor;
            reopen_reason = some reason;
            version = suc x.version;
          })
          db.cash_reconciliations;
    audit_log =
        db.audit_log
        ++ (declaration_reopened id r.employee_id actor r.business_date r.status r.confirmed_amount
              r.owner_note reason
            ∷ []);
  }

  -- In a sound ledger a reopening answers NOT_FOUND, ILLEGAL_TRANSITION for a day that is still
  -- submitted, both with the database as it was, or it makes the row submitted and unanswered
  -- again, files the answer that it erases in the audit log and gives the queue's row.
  pub reopen-AnswerOutcome :
      (reason : Text)
      → IsLedger db
      → AnswerOutcome
          (reopen env actor id reason db)
          (λ s. (s ≡ confirmed) ⊎ (s ≡ disputed))
          (reopened_db reason)
          id
          db
  unfolding reopen with_transaction lock_by_id reopen_declaration
  reopen-AnswerOutcome reason ledger = elim (Option-cases (lookup id db.cash_reconciliations)) [
    | inl gone ↦ no_row gone (ground arith)
    | inr (r, e) ↦ elim (Bool-cases (is_submitted r.status)) [
      | inl s ↦ not_legal r e (ground arith) (ground arith)
      | inr n ↦
          let h = ledger.rows id r e in
          let (q, known) =
            refreshed id (reopened_row env actor reason) r db (reopened_db reason r) ledger e refl
              refl refl refl in
          answered r q e (ground arith) known (
            ground (
              arith,
              e,
              n,
              known,
              update_handover_ok id (reopened_row env actor reason) r db e
                  (record { answered = refl; justified = refl; fits = h.fits }),
            ))
    ]
  ]
