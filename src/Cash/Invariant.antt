-- ===== src/Cash/Invariant.antt =====
-- The declarations stay a ledger under the writes of the cash service.
pub mod Refusals
pub mod Runs
use serv_grid.Common.{
  ℕ, suc, ◌≤◌, ◌≡◌, refl, sym, ap, ◌∙◌, ◌⊎◌, inl, inr, true, false, Option, none, some, arith,
  lookup, update, insert, lookup-update, lookup-insert, ltb, ◌==◌, ==_iff, Bool-cases, Option-cases,
  Text,
}
use serv_grid.Store.Rows.{CashReconciliation, Employee}
use serv_grid.Store.Db.{Db}
use serv_grid.Api.Clock.{Env}
use serv_grid.Jobs.Repo.{numeric_12_2_limit}
use serv_grid.Cash.Repo.{find_day, new_handover, touched_row}
use serv_grid.Cash.Ledger.{IsHandover, IsLedger, find_day-lookup}

-- One row was rewritten, for the same employee and day.
pub record IsRewrite (id : ℕ) (f : CashReconciliation → CashReconciliation) (r : CashReconciliation)
    (db db' : Db) : Type 0 where
  pub found : lookup id db.cash_reconciliations ≡ some r
  pub good : IsHandover (f r)
  pub same_employee : (f r).employee_id ≡ r.employee_id
  pub same_day : (f r).business_date ≡ r.business_date
  pub rows : db'.cash_reconciliations ≡ update id (touched_row f) db.cash_reconciliations
  pub employees : db'.employees ≡ db.employees
  pub next : db'.next_id ≡ db.next_id

module _ {id : ℕ} {f : CashReconciliation → CashReconciliation} {r : CashReconciliation}
    {db db' : Db} (w : IsRewrite id f r db db') where
  -- Each row of the new table has a row of the old one under it, for the same employee and day.
  under :
      (i : ℕ) (s : CashReconciliation)
      → lookup i db'.cash_reconciliations ≡ some s
      → (o : CashReconciliation) × (lookup i db.cash_reconciliations ≡ some o)
        × (s.employee_id ≡ o.employee_id)
        × (s.business_date ≡ o.business_date)
        × ((s ≡ o) ⊎ (s ≡ touched_row f r))
  under i s e =
      let row : lookup i (update id (touched_row f) db.cash_reconciliations) ≡ some s =
        rw (sym w.rows) e in
      elim (Bool-cases (id == i)) [
        | inr n ↦ (
          s,
          ground (arith, n, row, lookup-update id i (touched_row f) db.cash_reconciliations),
          refl,
          refl,
          inl refl,
        )
        | inl m ↦
            let q : s ≡ touched_row f r = ground (
              arith,
              ==_iff id i,
              m,
              row,
              w.found,
              lookup-update id i (touched_row f) db.cash_reconciliations,
            ) in
            (
              r,
              ground (arith, ==_iff id i, m, w.found),
              ap (λ x. x.employee_id) q ∙ w.same_employee,
              ap (λ x. x.business_date) q ∙ w.same_day,
              inr q,
            )
      ]

  still_absent :
      (i : ℕ) → lookup i db.cash_reconciliations ≡ none → lookup i db'.cash_reconciliations ≡ none
  still_absent i e =
      rw w.rows (ground (arith, e, lookup-update id i (touched_row f) db.cash_reconciliations))

  pub IsRewrite-IsLedger : IsLedger db → IsLedger db'
  IsRewrite-IsLedger ledger = record {
    rows = λ i s e.
        let (o, k, same_e, same_d, q) = under i s e in
        elim q [
          | inl p ↦
              let h = ledger.rows i o k in
              record {
                answered = rw p h.answered;
                justified = rw p h.justified;
                fits = rw p h.fits;
              }
          | inr p ↦
              let h = w.good in
              record {
                answered = rw p h.answered;
                justified = rw p h.justified;
                fits = rw p h.fits;
              }
        ];
    employee_known = λ i s e.
        let (o, k, same_e, same_d, q) = under i s e in
        let (x, known) = ledger.employee_known i o k in (x, rw (same_e, w.employees) known);
    one_a_day = λ i i' s s' e e' p q.
        let (o, k, same_e, same_d, u) = under i s e in
        let (o', k', same_e', same_d', u') = under i' s' e' in
        ledger.one_a_day i i' o o' k k' (sym same_e ∙ (p ∙ same_e')) (sym same_d ∙ (q ∙ same_d'));
    fresh = λ i h. still_absent i (ledger.fresh i (rw (sym w.next) h));
  }

-- A day that is not found has no row.
find_day-none :
    (i employee date : ℕ) (s : CashReconciliation) (db : Db)
    → find_day employee date db.cash_reconciliations ≡ none
    → lookup i db.cash_reconciliations ≡ some s
    → s.employee_id ≡ employee
    → s.business_date ≡ date
    → ⊥
find_day-none i employee date s db n e p q =
    let (k, t, f) = find_day-lookup i employee date s db.cash_reconciliations p q e in
    ground (arith, n, f)

-- The row of a declaration that went through.
pub record IsFiled (env : Env) (employee date amount : ℕ) (note : Option Text) (db db' : Db)
    : Type 0 where
  pub small : ltb amount numeric_12_2_limit ≡ true
  pub free : find_day employee date db.cash_reconciliations ≡ none
  pub known : (e : Employee) × (lookup employee db.employees ≡ some e)
  pub rows :
      db'.cash_reconciliations
      ≡ insert db.next_id (new_handover env employee date amount note) db.cash_reconciliations
  pub employees : db'.employees ≡ db.employees
  pub next : db'.next_id ≡ suc db.next_id

module _ {env : Env} {employee date amount : ℕ} {note : Option Text} {db db' : Db}
    (w : IsFiled env employee date amount note db db') where
  abbrev new : CashReconciliation
  new = new_handover env employee date amount note

  filed-cases :
      (i : ℕ) (s : CashReconciliation)
      → lookup i db'.cash_reconciliations ≡ some s
      → (lookup i db.cash_reconciliations ≡ some s) ⊎ (i ≡ db.next_id) × (s ≡ new)
  filed-cases i s e =
      let row : lookup i (insert db.next_id new db.cash_reconciliations) ≡ some s =
        rw (sym w.rows) e in
      elim (Option-cases (lookup i db.cash_reconciliations)) [
        | inr (o, old) ↦
            inl (ground (arith, old, row, lookup-insert db.next_id i new db.cash_reconciliations))
        | inl n ↦ inr (
          ground (
            arith,
            n,
            row,
            ==_iff db.next_id i,
            lookup-insert db.next_id i new db.cash_reconciliations,
          ),
          ground (arith, n, row, lookup-insert db.next_id i new db.cash_reconciliations),
        )
      ]

  unfiled : (i : ℕ) → IsLedger db → suc db.next_id ≤ i → lookup i db'.cash_reconciliations ≡ none
  unfiled i ledger h = rw w.rows (
      ground (
        arith,
        h,
        ledger.fresh i (omega (arith, h)),
        ==_iff db.next_id i,
        lookup-insert db.next_id i new db.cash_reconciliations,
      ))

  pub IsFiled-IsLedger : IsLedger db → IsLedger db'
  IsFiled-IsLedger ledger = record {
    rows = λ i s e. elim (filed-cases i s e) [
      | inl old ↦ ledger.rows i s old
      | inr (p, q) ↦ record { answered = rw q refl; justified = rw q refl; fits = rw q w.small }
    ];
    employee_known = λ i s e. elim (filed-cases i s e) [
      | inl old ↦ let (x, known) = ledger.employee_known i s old in (x, rw w.employees known)
      | inr (p, q) ↦ (w.known.0, rw (q, w.employees) w.known.1)
    ];
    one_a_day = λ i i' s s' e e' p q. elim (filed-cases i s e) [
      | inl old ↦ elim (filed-cases i' s' e') [
        | inl old' ↦ ledger.one_a_day i i' s s' old old' p q
        | inr (j, u) ↦ absurd (
            find_day-none i employee date s db w.free old (p ∙ ap (λ x. x.employee_id) u)
              (q ∙ ap (λ x. x.business_date) u))
      ]
      | inr (j, u) ↦ elim (filed-cases i' s' e') [
        | inl old' ↦ absurd (
            find_day-none i' employee date s' db w.free old' (sym p ∙ ap (λ x. x.employee_id) u)
              (sym q ∙ ap (λ x. x.business_date) u))
        | inr (j', u') ↦ j ∙ sym j'
      ]
    ];
    fresh = λ i h. unfiled i ledger (rw (sym w.next) h);
  }
