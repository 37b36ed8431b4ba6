-- ===== src/Cash/Invariant/Refusals.antt =====
-- What a statement's refusal leaves behind: an amount that numeric(12,2) does not hold, and a
-- patch that sets nothing.
use serv_grid.Common.{
  ℕ, ◌-◌, ◌≡◌, inl, inr, true, false, Option, some, arith, Text, lookup, ltb, is_none, ◌⊎◌,
  Bool-cases, Option-cases, ◌==◌,
}
use serv_grid.Store.Db.{Db}
use serv_grid.Store.Tx.{with_transaction}
use serv_grid.Api.Clock.{Env, ist_today}
use serv_grid.Jobs.Repo.{numeric_12_2_limit}
use serv_grid.Cash.Repo.{
  insert_declaration, lock_by_id, amend_row, confirm_declaration, is_submitted, update_handover,
}
use serv_grid.Cash.Declare.{declare, amend, business_date_max_age_days}
use serv_grid.Cash.Answer.{confirm}

-- An amount that does not fit is refused.
pub confirm_too_large :
    (env : Env) (actor id amount : ℕ) (db : Db)
    → ltb amount numeric_12_2_limit ≡ false
    → (confirm env actor id amount db).1 ≡ db
unfolding confirm with_transaction lock_by_id confirm_declaration
confirm_too_large env actor id amount db n =
    elim (Option-cases (lookup id db.cash_reconciliations)) [
      | inl gone ↦ ground arith
      | inr (r, e) ↦ elim (Bool-cases (is_submitted r.status)) [
        | inr s ↦ ground arith
        | inl s ↦ ground arith
      ]
    ]

pub declare_too_large :
    (env : Env) (actor date amount : ℕ) (remark : Option Text) (db : Db)
    → ltb amount numeric_12_2_limit ≡ false
    → (declare env actor date amount remark db).1 ≡ db
unfolding declare with_transaction insert_declaration
declare_too_large env actor date amount remark db n = elim (Bool-cases (ltb (ist_today env) date)) [
  | inl f ↦ ground arith
  | inr f ↦ elim (Bool-cases (ltb date (ist_today env - business_date_max_age_days))) [
    | inl o ↦ ground arith
    | inr o ↦ ground arith
  ]
]

pub amend_refused :
    (env : Env) (actor id if_match : ℕ) (amount : Option ℕ) (remark : Option Text) (db : Db)
    → ((is_none amount ≡ true) × (is_none remark ≡ true))
      ⊎ (n : ℕ) × (amount ≡ some n) × (ltb n numeric_12_2_limit ≡ false)
    → (amend env actor id if_match amount remark db).1 ≡ db
unfolding amend with_transaction lock_by_id amend_row update_handover
amend_refused env actor id if_match amount remark db h =
    elim (Option-cases (lookup id db.cash_reconciliations)) [
      | inl gone ↦ ground arith
      | inr (r, e) ↦ elim (Bool-cases (r.employee_id == actor)) [
        | inr n ↦ ground arith
        | inl own ↦ elim (Bool-cases (is_submitted r.status)) [
          | inr n ↦ ground arith
          | inl s ↦ elim (Bool-cases (r.version == if_match)) [
            | inr n ↦ ground arith
            | inl v ↦ elim h [ inl (a, b) ↦ ground arith | inr (n, a, b) ↦ ground arith ]
          ]
        ]
      ]
    ]
