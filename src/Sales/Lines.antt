-- ===== src/Sales/Lines.antt =====
-- The statements on the lines of a card touch no other card's lines.
use serv_grid.Common.{
  ℕ, suc, ◌≡◌, refl, ◌∙◌, ◌⊎◌, inl, inr, false, ◌==◌, Option, none, some, List, [], ◌∷◌, ◌++◌, Text,
  arith, ==_iff, Option-cases, Bool-cases,
}
use serv_grid.Shared.Errors.{validation_failed}
use serv_grid.Store.Rows.{SalesCardItem}
use serv_grid.Store.Db.{Db}
use serv_grid.Store.Tx.{ok, err, app, pg, foreign_key_violation, not_null_violation, no_constraint}
use serv_grid.Store.Steps.{Done, done, failed}
use serv_grid.Jobs.Complete.Stack.{is_dangling}
use serv_grid.Sales.Pricing.{resolve_sale_item, stored, disagrees, to_hundredths, Resolved}
use serv_grid.Sales.Items.{items_of, without_items, delete_sale_items, item_refusal, is_of}
use serv_grid.Sales.Doors.{
  SaleLine, resolve_sale_items, insert_sale_items, insert_sale_item, item_row, rewrite_items,
}

-- The lines of the card may differ, and nothing else that the books are about.
pub record IsItemWrite (id : ℕ) (db db' : Db) : Type 0 where
  pub cards : db'.sales_cards ≡ db.sales_cards
  pub next : db'.next_id ≡ db.next_id
  pub elsewhere :
      (k : ℕ) → (id == k) ≡ false → items_of k db'.sales_card_items ≡ items_of k db.sales_card_items

pub IsItemWrite-refl : (id : ℕ) (db : Db) → IsItemWrite id db db
IsItemWrite-refl id db = record { cards = refl; next = refl; elsewhere = λ k n. refl }

pub IsItemWrite-trans :
    (id : ℕ) (x y z : Db) → IsItemWrite id x y → IsItemWrite id y z → IsItemWrite id x z
IsItemWrite-trans id x y z p q = record {
  cards = q.cards ∙ p.cards;
  next = q.next ∙ p.next;
  elsewhere = λ k n. q.elsewhere k n ∙ p.elsewhere k n;
}

items_of-snoc :
    (id k : ℕ) (i : SalesCardItem) (l : List SalesCardItem)
    → i.sales_card_id ≡ id
    → (id == k) ≡ false
    → items_of k (l ++ (i ∷ [])) ≡ items_of k l
unfolding items_of
items_of-snoc id k i [] e n = ground (arith, e, n)
items_of-snoc id k i (j ∷ l) e n = ground (arith, items_of-snoc id k i l e n)

items_of-without_items :
    (id k : ℕ) (l : List SalesCardItem)
    → (id == k) ≡ false
    → items_of k (without_items id l) ≡ items_of k l
unfolding items_of without_items
items_of-without_items id k [] n = refl
items_of-without_items id k (j ∷ l) n = elim (Bool-cases (is_of id j)) [
  | inl e ↦ ground (
    arith,
    e,
    n,
    ==_iff j.sales_card_id id,
    ==_iff j.sales_card_id k,
    ==_iff id k,
    items_of-without_items id k l n,
  )
  | inr e ↦ ground (arith, e, items_of-without_items id k l n)
]

insert_sale_item-Done :
    (id n : ℕ) (line : SaleLine) (price : Option Text) (db : Db)
    → Done (insert_sale_item id n line price db) (λ _ db'. IsItemWrite id db db')
unfolding insert_sale_item
insert_sale_item-Done id n line none db = failed (pg not_null_violation no_constraint) db refl
insert_sale_item-Done id n line (some price) db =
    let row = item_row id n line (to_hundredths price) in
    elim (Option-cases (item_refusal row)) [
      | inr ((s, c), e) ↦ failed (pg s c) db (ground (arith, e))
      | inl e ↦ elim (Bool-cases (is_dangling line.product_id db.products)) [
        | inl d ↦ failed (pg foreign_key_violation no_constraint) db (ground (arith, e, d))
        | inr d ↦
            done tt (record db { sales_card_items = db.sales_card_items ++ (row ∷ []) })
              (ground (arith, e, d))
              (record {
                cards = refl;
                next = refl;
                elsewhere = λ k m. items_of-snoc id k row db.sales_card_items refl m;
              })
      ]
    ]

pub insert_sale_items-Done :
    (id n : ℕ) (lines : List (SaleLine × Option Text)) (db : Db)
    → Done (insert_sale_items id n lines db) (λ _ db'. IsItemWrite id db db')
unfolding insert_sale_items
insert_sale_items-Done id n [] db = done tt db refl (IsItemWrite-refl id db)
insert_sale_items-Done id n ((line, price) ∷ lines) db =
    elim (insert_sale_item-Done id (suc n) line price db) [
      | failed e db' q ↦ failed e db' (ground (arith, q))
      | done _ mid q p ↦ elim (insert_sale_items-Done id (suc n) lines mid) [
        | failed e db' r ↦ failed e db' (ground (arith, q, r))
        | done _ db' r s ↦ done tt db' (ground (arith, q, r)) (IsItemWrite-trans id db mid db' p s)
      ]
    ]

Resolved-cases : (r : Resolved) → ((o : Option Text) × (r ≡ stored o)) ⊎ (r ≡ disagrees)
Resolved-cases (stored o) = inl (o, refl)
Resolved-cases disagrees = inr refl

-- Each line is resolved, or the first that disagrees is a 422; nothing is written.
pub resolve_sale_items-cases :
    (lines : List SaleLine) (db : Db)
    → ((l : List (SaleLine × Option Text)) × (resolve_sale_items lines db ≡ (ok l, db)))
      ⊎ (resolve_sale_items lines db ≡ (err (app validation_failed), db))
unfolding resolve_sale_items
resolve_sale_items-cases [] db = inl ([], refl)
resolve_sale_items-cases (line ∷ lines) db = elim (Resolved-cases (resolve_sale_item line.prices)) [
  | inr e ↦ inr (ground (arith, e))
  | inl (price, e) ↦ elim (resolve_sale_items-cases lines db) [
    | inl (l, q) ↦ inl ((line, price) ∷ l, ground (arith, e, q))
    | inr q ↦ inr (ground (arith, e, q))
  ]
]

pub rewrite_items-Done :
    (id : ℕ) (lines : Option (List SaleLine)) (db : Db)
    → Done (rewrite_items id lines db) (λ _ db'. IsItemWrite id db db')
unfolding rewrite_items delete_sale_items
rewrite_items-Done id none db = done tt db refl (IsItemWrite-refl id db)
rewrite_items-Done id (some lines) db =
    let mid = record db { sales_card_items = without_items id db.sales_card_items } in
    let gone : IsItemWrite id db mid = record {
      cards = refl;
      next = refl;
      elsewhere = λ k n. items_of-without_items id k db.sales_card_items n;
    } in
    elim (resolve_sale_items-cases lines mid) [
      | inr q ↦ failed (app validation_failed) mid (ground (arith, q))
      | inl (l, q) ↦ elim (insert_sale_items-Done id 0 l mid) [
        | failed e db' r ↦ failed e db' (ground (arith, q, r))
        | done _ db' r s ↦
            done tt db' (ground (arith, q, r)) (IsItemWrite-trans id db mid db' gone s)
      ]
    ]
