-- ===== src/Sales/Versions.antt =====
-- What a PATCH of a draft does to its version.
use serv_grid.Common.{
  ℕ, ◌≡◌, refl, ◌∙◌, ap, inl, inr, true, ◌&&◌, ◌==◌, none, some, arith, Bool-cases, lookup, is_none,
  ==_iff, ◌⊎◌,
}
use serv_grid.Store.Rows.{SalesCard}
use serv_grid.Store.Db.{Db}
use serv_grid.Store.Tx.{Result, Failure, ok, err, with_transaction}
use serv_grid.Store.Steps.{done, failed}
use serv_grid.Jobs.Cards.{Actor}
use serv_grid.Sales.Repo.{Sale, is_draft, update_sale_fields}
use serv_grid.Sales.Lines.{rewrite_items-Done}
use serv_grid.Sales.Frozen.{read_sale-cases}
use serv_grid.Sales.Doors.{SalePatch, patch_sale, write_patch, out_of_sale_scope}

write_items_keeps :
    (id : ℕ) (patch : SalePatch) (s : Sale) (db db' : Db)
    → (is_none patch.fields.sale_date && is_none patch.fields.notes) ≡ true
    → write_patch id patch db ≡ (ok s, db')
    → db'.sales_cards ≡ db.sales_cards
unfolding write_patch update_sale_fields
write_items_keeps id patch s db db' n e = elim (rewrite_items-Done id patch.items db) [
  | failed w x q ↦ absurd (ground (arith, n, q, e))
  | done _ mid q p ↦ elim (read_sale-cases id mid) [
    | failed w x r ↦ absurd (ground (arith, n, q, r, e))
    | done t x r same ↦
        let last : db' ≡ mid = ground (arith, n, q, r, same, e) in
        ap (λ y. y.sales_cards) last ∙ p.cards
  ]
]

run-cases :
    (r : Result Sale × Db)
    → ((s : Sale) × (db : Db) × (r ≡ (ok s, db))) ⊎ ((f : Failure) × (db : Db) × (r ≡ (err f, db)))
run-cases (ok s, db) = inl (s, db, refl)
run-cases (err f, db) = inr (f, db, refl)

-- A PATCH that went through and sent neither a date nor notes leaves the card's row as it was, its
-- version included, whatever lines it wrote: the If-Match of a PATCH that read the card before it
-- still matches.
pub patch_sale-keeps_version :
    (actor : Actor) (id if_match : ℕ) (patch : SalePatch) (s : Sale) (c : SalesCard) (db db' : Db)
    → patch.fields.sale_date ≡ none
    → patch.fields.notes ≡ none
    → lookup id db.sales_cards ≡ some c
    → patch_sale actor id if_match patch db ≡ (ok s, db')
    → (lookup id db'.sales_cards ≡ some c) × (c.version ≡ if_match)
unfolding patch_sale with_transaction
patch_sale-keeps_version actor id if_match patch s c db db' d m e h =
    elim (Bool-cases (out_of_sale_scope actor c)) [
      | inl o ↦ absurd (ground (arith, e, o, h))
      | inr o ↦ elim (Bool-cases (c.version == if_match)) [
        | inr v ↦ absurd (ground (arith, e, o, v, h))
        | inl v ↦ elim (Bool-cases (is_draft c.status)) [
          | inr x ↦ absurd (ground (arith, e, o, v, x, h))
          | inl x ↦ elim (run-cases (write_patch id patch db)) [
            | inr (f, y, q) ↦ absurd (ground (arith, e, o, v, x, q, h))
            | inl (t, y, q) ↦
                let last : db' ≡ y = ground (arith, e, o, v, x, q, h) in
                let cards = write_items_keeps id patch t db y (ground (arith, d, m)) q in
                (
                  ap (λ z. lookup id z.sales_cards) last ∙ (ap (lookup id) cards ∙ e),
                  (==_iff c.version if_match).0 v,
                )
          ]
        ]
      ]
    ]
