-- ===== src/Sales/Frozen/Confirm.antt =====
-- confirmSale keeps every card that is not a draft.
use serv_grid.Common.{
  ℕ, ◌≡◌, refl, inl, inr, true, ◌==◌, some, arith, Option-cases, Bool-cases, lookup, length,
}
use serv_grid.Shared.Errors.{not_found, out_of_scope, illegal_transition, validation_failed}
use serv_grid.Shared.Sequence.{sale}
use serv_grid.Store.Rows.{SalesCard}
use serv_grid.Store.Db.{Db}
use serv_grid.Store.Tx.{app}
use serv_grid.Store.Steps.{Done, done, failed}
use serv_grid.Api.Clock.{Env}
use serv_grid.Api.Sequences.{bump}
use serv_grid.Api.Sequences.Distinct.{allocate_number_lem, key_of}
use serv_grid.Jobs.Cards.{Actor}
use serv_grid.Sales.Repo.{is_draft, confirm_sale_row, confirmed_card}
use serv_grid.Sales.Items.{items_of}
use serv_grid.Sales.Books.{IsBooks, IsStep}
use serv_grid.Sales.Doors.{confirm_sale, number_and_stamp, out_of_sale_scope}
use serv_grid.Sales.Frozen.{
  written, update_card-Done, read_sale-cases, write-IsStep, in_transaction,
}

stamp-Done :
    (env : Env) (id : ℕ) (c : SalesCard) (db : Db)
    → lookup id db.sales_cards ≡ some c
    → is_draft c.status ≡ true
    → IsBooks db
    → Done (number_and_stamp env id db) (λ s db'. IsStep db db')
unfolding number_and_stamp confirm_sale_row
stamp-Done env id c db e d h =
    let (number, printed, a) = allocate_number_lem env sale db in
    let next = record db { sequences = bump (key_of env sale) db.sequences } in
    let f = confirmed_card number env.now in
    elim (update_card-Done id f c next e) [
      | failed w db' q ↦ failed w db' (ground (arith, a, q))
      | done _ mid q (p, good) ↦ elim (read_sale-cases id mid) [
        | failed w db' r ↦ failed w db' (ground (arith, a, q, r))
        | done s db' r same ↦ done s mid (ground (arith, a, q, r, same)) (
            rw p (
              write-IsStep id f c db (written id f next) e good (λ n. absurd (ground (arith, n, d)))
                (record { cards = refl; next = refl; elsewhere = λ k n. refl }) (λ n. refl) h))
      ]
    ]

-- A confirmation keeps the books and every card that is not a draft.
pub confirm_sale-IsStep :
    (env : Env) (actor : Actor) (id : ℕ) (db : Db)
    → IsBooks db
    → IsStep db (confirm_sale env actor id db).1
unfolding confirm_sale
confirm_sale-IsStep env actor id db h =
    in_transaction _ db h (elim (Option-cases (lookup id db.sales_cards)) [
      | inl n ↦ failed (app not_found) db (ground (arith, n))
      | inr (c, e) ↦ elim (Bool-cases (out_of_sale_scope actor c)) [
        | inl o ↦ failed (app out_of_scope) db (ground (arith, e, o))
        | inr o ↦ elim (Bool-cases (is_draft c.status)) [
          | inr d ↦ failed (app illegal_transition) db (ground (arith, e, o, d))
          | inl d ↦ elim (Bool-cases (length (items_of id db.sales_card_items) == 0)) [
            | inl z ↦ failed (app validation_failed) db (ground (arith, e, o, d, z))
            | inr z ↦ elim (stamp-Done env id c db e d h) [
              | failed w db' q ↦ failed w db' (ground (arith, e, o, d, z, q))
              | done s db' q p ↦ done s db' (ground (arith, e, o, d, z, q)) p
            ]
          ]
        ]
      ]
    ])
