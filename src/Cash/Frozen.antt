-- ===== src/Cash/Frozen.antt =====
-- An answered declaration is frozen until the owner reopens it.
use serv_grid.Common.{
  ℕ, ◌≡◌, ◌≢◌, refl, inl, inr, ◌⊎◌, false, Option, none, some, List, [], ◌∷◌, Text, arith, All,
  Table, lookup, update, lookup-update, lookup-insert, ltb, is_none, ◌==◌, ==_iff, Bool-cases,
}
use serv_grid.Store.Rows.{CashReconciliation, submitted}
use serv_grid.Store.Db.{Db}
use serv_grid.Api.Clock.{Env}
use serv_grid.Jobs.Repo.{numeric_12_2_limit}
use serv_grid.Cash.Declare.{declare, amend}
use serv_grid.Cash.Declare.Outcome.{
  DeclareOutcome, declare-DeclareOutcome, AmendOutcome, amend-AmendOutcome, IsSmall, filed_row,
  rewrite_declaration,
}
use serv_grid.Cash.Answer.{confirm, dispute, reopen}
use serv_grid.Cash.Ledger.{IsLedger}
use serv_grid.Cash.Outcome.{
  AnswerOutcome, confirm-AnswerOutcome, dispute-AnswerOutcome, reopen-AnswerOutcome,
}
use serv_grid.Cash.Invariant.Refusals.{confirm_too_large, declare_too_large, amend_refused}
use serv_grid.Cash.Invariant.Runs.{
  CashRequest, declare_request, amend_request, confirm_request, dispute_request, reopen_request,
  serve_cash, serve_all_cash, serve_cash-IsLedger,
}

-- The request is a reopening of the row.
abbrev pub Reopens : ℕ → CashRequest → Type 0
Reopens id (reopen_request env actor i said) = i ≡ id
Reopens id _ = ⊥

-- Writing another row leaves the row as it was.
update_elsewhere :
    (id i : ℕ) (f : CashReconciliation → CashReconciliation) (r : CashReconciliation)
    (t : Table CashReconciliation)
    → lookup id t ≡ some r
    → i ≢ id
    → lookup id (update i f t) ≡ some r
update_elsewhere id i f r t e n = ground (arith, e, n, ==_iff i id, lookup-update i id f t)

module _ (id : ℕ) (row : CashReconciliation) (db : Db)
    (found : lookup id db.cash_reconciliations ≡ some row) (ledger : IsLedger db) where
  -- A row that is submitted is another one.
  update_submitted :
      (i : ℕ) (f : CashReconciliation → CashReconciliation) (r : CashReconciliation)
      → row.status ≢ submitted
      → lookup i db.cash_reconciliations ≡ some r
      → r.status ≡ submitted
      → lookup id (update i f db.cash_reconciliations) ≡ some row
  update_submitted i f r answered e s = elim (Bool-cases (i == id)) [
    | inl same ↦ absurd (answered (ground (arith, found, e, s, same, ==_iff i id)))
    | inr other ↦
        update_elsewhere id i f row db.cash_reconciliations found
          (ground (arith, other, ==_iff i id))
  ]

  after_declare :
      (env : Env) (actor date amount : ℕ) (note : Option Text)
      → lookup id (declare env actor date amount note db).1.cash_reconciliations ≡ some row
  after_declare env actor date amount note = elim (Bool-cases (ltb amount numeric_12_2_limit)) [
    | inr n ↦ rw (declare_too_large env actor date amount note db n) found
    | inl small ↦ elim (declare-DeclareOutcome env actor date amount note db small) [
      | DeclareOutcome.out_of_range _ p ↦ rw p found
      | DeclareOutcome.day_taken _ _ _ _ p ↦ rw p found
      | DeclareOutcome.nobody _ _ _ p ↦ rw p found
      | DeclareOutcome.declared e _ _ known free p ↦ rw p (
          ground (
            arith,
            found,
            lookup-insert db.next_id id (filed_row env actor date amount note)
                db.cash_reconciliations,
          ))
    ]
  ]

  after_patch :
      (env : Env) (actor i if_match : ℕ) (amount : Option ℕ) (note : Option Text)
      → row.status ≢ submitted
      → (is_none amount ≡ false) ⊎ (is_none note ≡ false)
      → IsSmall env actor i if_match amount note db amount
      → lookup id (amend env actor i if_match amount note db).1.cash_reconciliations ≡ some row
  after_patch env actor i if_match amount note answered sent small =
      elim (amend-AmendOutcome env actor i if_match amount note db ledger sent small) [
        | AmendOutcome.no_row _ p ↦ rw p found
        | AmendOutcome.stranger _ _ _ p ↦ rw p found
        | AmendOutcome.answered _ _ _ _ p ↦ rw p found
        | AmendOutcome.conflict _ _ _ _ _ p ↦ rw p found
        | AmendOutcome.amended r e own st v p ↦ rw p (
            update_submitted i (rewrite_declaration env actor i if_match amount note db amount note)
              r answered e st)
      ]

  after_amend :
      (env : Env) (actor i if_match : ℕ) (amount : Option ℕ) (note : Option Text)
      → row.status ≢ submitted
      → lookup id (amend env actor i if_match amount note db).1.cash_reconciliations ≡ some row
  after_amend env actor i if_match none none answered =
      rw (amend_refused env actor i if_match none none db (inl (refl, refl))) found
  after_amend env actor i if_match none (some t) answered =
      after_patch env actor i if_match none (some t) answered (inr refl) tt
  after_amend env actor i if_match (some n) note answered =
      elim (Bool-cases (ltb n numeric_12_2_limit)) [
        | inr big ↦
            rw (amend_refused env actor i if_match (some n) note db (inr (n, refl, big))) found
        | inl small ↦ after_patch env actor i if_match (some n) note answered (inl refl) small
      ]

  after_confirm :
      (env : Env) (actor i amount : ℕ)
      → row.status ≢ submitted
      → lookup id (confirm env actor i amount db).1.cash_reconciliations ≡ some row
  after_confirm env actor i amount answered = elim (Bool-cases (ltb amount numeric_12_2_limit)) [
    | inr n ↦ rw (confirm_too_large env actor i amount db n) found
    | inl small ↦ elim (confirm-AnswerOutcome env actor i db amount small ledger) [
      | AnswerOutcome.no_row _ p ↦ rw p found
      | AnswerOutcome.not_legal _ _ _ p ↦ rw p found
      | AnswerOutcome.answered r q e st _ p ↦ rw p (update_submitted i _ r answered e st)
    ]
  ]

  after_dispute :
      (env : Env) (actor i : ℕ) (note : Text)
      → row.status ≢ submitted
      → lookup id (dispute env actor i note db).1.cash_reconciliations ≡ some row
  after_dispute env actor i note answered =
      elim (dispute-AnswerOutcome env actor i db note ledger) [
        | AnswerOutcome.no_row _ p ↦ rw p found
        | AnswerOutcome.not_legal _ _ _ p ↦ rw p found
        | AnswerOutcome.answered r q e st _ p ↦ rw p (update_submitted i _ r answered e st)
      ]

  after_reopen :
      (env : Env) (actor i : ℕ) (reason : Text)
      → i ≢ id
      → lookup id (reopen env actor i reason db).1.cash_reconciliations ≡ some row
  after_reopen env actor i reason other = elim (reopen-AnswerOutcome env actor i db reason ledger) [
    | AnswerOutcome.no_row _ p ↦ rw p found
    | AnswerOutcome.not_legal _ _ _ p ↦ rw p found
    | AnswerOutcome.answered r q e st _ p ↦
        rw p (update_elsewhere id i _ row db.cash_reconciliations found other)
  ]

  after_request :
      (r : CashRequest)
      → row.status ≢ submitted
      → ¬ Reopens id r
      → lookup id (serve_cash r db).cash_reconciliations ≡ some row
  after_request (declare_request env actor date amount note) answered n =
      after_declare env actor date amount note
  after_request (amend_request env actor i if_match amount note) answered n =
      after_amend env actor i if_match amount note answered
  after_request (confirm_request env actor i amount) answered n =
      after_confirm env actor i amount answered
  after_request (dispute_request env actor i note) answered n =
      after_dispute env actor i note answered
  after_request (reopen_request env actor i reason) answered n = after_reopen env actor i reason n

-- In a ledger, a declaration that the owner confirmed or disputed is the same row, in every column
-- and in its version, after any sequence of declarations, amendments, confirmations, disputes and
-- reopenings, by anybody, at any instants, that does not reopen it.
pub serve_all_cash-keeps_answered :
    (l : List CashRequest) (db : Db) (id : ℕ) (row : CashReconciliation)
    → IsLedger db
    → lookup id db.cash_reconciliations ≡ some row
    → row.status ≢ submitted
    → All (λ r. ¬ Reopens id r) l
    → lookup id (serve_all_cash l db).cash_reconciliations ≡ some row
unfolding serve_all_cash
serve_all_cash-keeps_answered [] db id row ledger found answered h = found
serve_all_cash-keeps_answered (r ∷ l) db id row ledger found answered (n, h) =
    serve_all_cash-keeps_answered l (serve_cash r db) id row (serve_cash-IsLedger r db ledger)
      (after_request id row db found ledger r answered n) answered h
