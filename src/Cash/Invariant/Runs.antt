-- ===== src/Cash/Invariant/Runs.antt =====
-- Every run of requests to the cash service.
use serv_grid.Common.{
  ℕ, ◌≡◌, refl, sym, ap, update, inl, inr, false, Option, none, some, List, [], ◌∷◌, Text, lookup,
  ltb, is_none, ◌⊎◌, Bool-cases,
}
use serv_grid.Store.Rows.{CashReconciliation}
use serv_grid.Store.Db.{Db}
use serv_grid.Api.Clock.{Env}
use serv_grid.Jobs.Repo.{numeric_12_2_limit}
use serv_grid.Cash.Repo.{amended_row, confirmed_row, disputed_row, reopened_row, touched_row}
use serv_grid.Cash.Declare.{declare, amend}
use serv_grid.Cash.Declare.Outcome.{
  DeclareOutcome, declare-DeclareOutcome, AmendOutcome, amend-AmendOutcome, IsSmall,
}
use serv_grid.Cash.Answer.{confirm, dispute, reopen}
use serv_grid.Cash.Ledger.{IsHandover, IsLedger}
use serv_grid.Cash.Outcome.{
  AnswerOutcome, confirm-AnswerOutcome, dispute-AnswerOutcome, reopen-AnswerOutcome, rewritten,
}
use serv_grid.Cash.Invariant.{IsRewrite-IsLedger, IsFiled-IsLedger}
use serv_grid.Cash.Declare.Outcome.{amended-IsHandover, amended_db, amended_row-rewrite}
use serv_grid.Cash.Invariant.Refusals.{confirm_too_large, declare_too_large, amend_refused}

declare-IsLedger :
    (env : Env) (actor date amount : ℕ) (remark : Option Text) (db : Db)
    → IsLedger db
    → IsLedger (declare env actor date amount remark db).1
declare-IsLedger env actor date amount remark db ledger =
    elim (Bool-cases (ltb amount numeric_12_2_limit)) [
      | inr n ↦ rw (declare_too_large env actor date amount remark db n) ledger
      | inl small ↦ elim (declare-DeclareOutcome env actor date amount remark db small) [
        | DeclareOutcome.out_of_range _ p ↦ rw p ledger
        | DeclareOutcome.day_taken _ _ _ _ p ↦ rw p ledger
        | DeclareOutcome.nobody _ _ _ p ↦ rw p ledger
        | DeclareOutcome.declared e _ _ known free p ↦ rw p (
            IsFiled-IsLedger {env = env} {employee = actor} {date = date} {amount = amount}
              {note = remark}
              (record {
                small = small;
                free = free;
                known = (e, known);
                rows = refl;
                employees = refl;
                next = refl;
              })
              ledger)
      ]
    ]

amend-IsLedger :
    (env : Env) (actor id if_match : ℕ) (amount : Option ℕ) (remark : Option Text) (db : Db)
    → IsLedger db
    → (is_none amount ≡ false) ⊎ (is_none remark ≡ false)
    → IsSmall env actor id if_match amount remark db amount
    → IsLedger (amend env actor id if_match amount remark db).1
amend-IsLedger env actor id if_match amount remark db ledger sent small =
    elim (amend-AmendOutcome env actor id if_match amount remark db ledger sent small) [
      | AmendOutcome.no_row _ p ↦ rw p ledger
      | AmendOutcome.stranger _ _ _ p ↦ rw p ledger
      | AmendOutcome.answered _ _ _ _ p ↦ rw p ledger
      | AmendOutcome.conflict _ _ _ _ _ p ↦ rw p ledger
      | AmendOutcome.amended r e own st v p ↦ rw p (
          IsRewrite-IsLedger {f = amended_row amount remark} {db = db}
            {db' = amended_db env actor id if_match amount remark db r}
            (record {
              found = e;
              good =
                  amended-IsHandover env actor id if_match amount remark db amount r small
                    (ledger.rows id r e);
              same_employee = refl;
              same_day = refl;
              rows =
                  ap (λ f. update id f db.cash_reconciliations)
                    (sym
                      (amended_row-rewrite env actor id if_match amount remark db amount remark));
              employees = refl;
              next = refl;
            })
            ledger)
    ]

-- Nothing to set, an amount that does not fit, or a patch that can be written.
amend_any-IsLedger :
    (env : Env) (actor id if_match : ℕ) (amount : Option ℕ) (remark : Option Text) (db : Db)
    → IsLedger db
    → IsLedger (amend env actor id if_match amount remark db).1
amend_any-IsLedger env actor id if_match none none db ledger =
    rw (amend_refused env actor id if_match none none db (inl (refl, refl))) ledger
amend_any-IsLedger env actor id if_match none (some t) db ledger =
    amend-IsLedger env actor id if_match none (some t) db ledger (inr refl) tt
amend_any-IsLedger env actor id if_match (some n) remark db ledger =
    elim (Bool-cases (ltb n numeric_12_2_limit)) [
      | inr big ↦
          rw (amend_refused env actor id if_match (some n) remark db (inr (n, refl, big))) ledger
      | inl small ↦ amend-IsLedger env actor id if_match (some n) remark db ledger (inl refl) small
    ]

rewritten-IsLedger :
    (id : ℕ) (f : CashReconciliation → CashReconciliation) (r : CashReconciliation) (db : Db)
    → lookup id db.cash_reconciliations ≡ some r
    → IsHandover (f r)
    → (f r).employee_id ≡ r.employee_id
    → (f r).business_date ≡ r.business_date
    → IsLedger db
    → IsLedger (rewritten id (touched_row f) db)
rewritten-IsLedger id f r db e h p q ledger =
    IsRewrite-IsLedger {f = f}
      (record {
        found = e;
        good = h;
        same_employee = p;
        same_day = q;
        rows = refl;
        employees = refl;
        next = refl;
      })
      ledger

confirm-IsLedger :
    (env : Env) (actor id amount : ℕ) (db : Db)
    → IsLedger db
    → IsLedger (confirm env actor id amount db).1
confirm-IsLedger env actor id amount db ledger = elim (Bool-cases (ltb amount numeric_12_2_limit)) [
  | inr n ↦ rw (confirm_too_large env actor id amount db n) ledger
  | inl small ↦ elim (confirm-AnswerOutcome env actor id db amount small ledger) [
    | AnswerOutcome.no_row _ p ↦ rw p ledger
    | AnswerOutcome.not_legal _ _ _ p ↦ rw p ledger
    | AnswerOutcome.answered r q e _ _ p ↦ rw p (
        rewritten-IsLedger id (confirmed_row env amount actor) r db e
          (record { answered = refl; justified = refl; fits = (ledger.rows id r e).fits }) refl refl
          ledger)
  ]
]

dispute-IsLedger :
    (env : Env) (actor id : ℕ) (said : Text) (db : Db)
    → IsLedger db
    → IsLedger (dispute env actor id said db).1
dispute-IsLedger env actor id said db ledger =
    elim (dispute-AnswerOutcome env actor id db said ledger) [
      | AnswerOutcome.no_row _ p ↦ rw p ledger
      | AnswerOutcome.not_legal _ _ _ p ↦ rw p ledger
      | AnswerOutcome.answered r q e _ _ p ↦ rw p (
          rewritten-IsLedger id (disputed_row env said actor) r db e
            (record { answered = refl; justified = refl; fits = (ledger.rows id r e).fits }) refl
            refl ledger)
    ]

reopen-IsLedger :
    (env : Env) (actor id : ℕ) (said : Text) (db : Db)
    → IsLedger db
    → IsLedger (reopen env actor id said db).1
reopen-IsLedger env actor id said db ledger =
    elim (reopen-AnswerOutcome env actor id db said ledger) [
      | AnswerOutcome.no_row _ p ↦ rw p ledger
      | AnswerOutcome.not_legal _ _ _ p ↦ rw p ledger
      | AnswerOutcome.answered r q e _ _ p ↦ rw p (
          IsRewrite-IsLedger {f = reopened_row env actor said}
            (record {
              found = e;
              good = record { answered = refl; justified = refl; fits = (ledger.rows id r e).fits };
              same_employee = refl;
              same_day = refl;
              rows = refl;
              employees = refl;
              next = refl;
            })
            ledger)
    ]

-- A request to a door of the cash service that writes.
pub data CashRequest : Type 0 where
  declare_request : Env → ℕ → ℕ → ℕ → Option Text → CashRequest
  amend_request : Env → ℕ → ℕ → ℕ → Option ℕ → Option Text → CashRequest
  confirm_request : Env → ℕ → ℕ → ℕ → CashRequest
  dispute_request : Env → ℕ → ℕ → Text → CashRequest
  reopen_request : Env → ℕ → ℕ → Text → CashRequest

-- The database after the request, whatever it answered.
abbrev pub serve_cash : CashRequest → Db → Db
serve_cash (declare_request env actor date amount said) db =
    (declare env actor date amount said db).1
serve_cash (amend_request env actor id if_match amount said) db =
    (amend env actor id if_match amount said db).1
serve_cash (confirm_request env actor id amount) db = (confirm env actor id amount db).1
serve_cash (dispute_request env actor id said) db = (dispute env actor id said db).1
serve_cash (reopen_request env actor id said) db = (reopen env actor id said db).1

unfoldable pub serve_all_cash : List CashRequest → Db → Db
serve_all_cash [] db = db
serve_all_cash (r ∷ l) db = serve_all_cash l (serve_cash r db)

pub serve_cash-IsLedger : (r : CashRequest) (db : Db) → IsLedger db → IsLedger (serve_cash r db)
serve_cash-IsLedger (declare_request env actor date amount said) db h =
    declare-IsLedger env actor date amount said db h
serve_cash-IsLedger (amend_request env actor id if_match amount said) db h =
    amend_any-IsLedger env actor id if_match amount said db h
serve_cash-IsLedger (confirm_request env actor id amount) db h =
    confirm-IsLedger env actor id amount db h
serve_cash-IsLedger (dispute_request env actor id said) db h =
    dispute-IsLedger env actor id said db h
serve_cash-IsLedger (reopen_request env actor id said) db h = reopen-IsLedger env actor id said db h
