-- ===== src/Sales/Frozen/Draft.antt =====
-- createSale and patchSale keep every card that is not a draft.
use serv_grid.Common.{
  ℕ, suc, ◌≤◌, ◌≡◌, refl, sym, ◌∙◌, ap, inl, inr, true, false, ◌&&◌, ◌==◌, Option, some, Text,
  arith, ==_iff, Option-cases, Bool-cases, lookup, insert, lookup-insert, is_none,
}
use serv_grid.Shared.Errors.{
  not_found, out_of_scope, version_conflict, illegal_transition, validation_failed,
}
use serv_grid.Store.Rows.{SalesCard}
use serv_grid.Store.Db.{Db}
use serv_grid.Store.Tx.{ok, app}
use serv_grid.Store.Steps.{Done, done, failed}
use serv_grid.Jobs.Cards.{Actor}
use serv_grid.Sales.Repo.{
  SalePatchFields, is_draft, touched_card, update_sale_fields, patched_card, insert_sale, new_card,
  company_exists,
}
use serv_grid.Sales.Items.{items_of}
use serv_grid.Sales.Books.{IsCard, IsBooks, IsSameSale, IsSameSale-refl, IsStep}
use serv_grid.Sales.Lines.{
  IsItemWrite, insert_sale_items-Done, resolve_sale_items-cases, rewrite_items-Done,
}
use serv_grid.Sales.Doors.{
  SaleCreate, SalePatch, create_sale, patch_sale, write_patch, out_of_sale_scope,
}
use serv_grid.Sales.Frozen.{
  written, update_card-Done, read_sale-cases, write-IsStep, lines-IsStep, in_transaction,
}

patched-IsSameSale-none :
    (fields : SalePatchFields) (c : SalesCard)
    → is_draft c.status ≡ true
    → is_draft c.status ≡ false
    → IsSameSale c (touched_card (patched_card fields) c)
patched-IsSameSale-none fields c d n = absurd (ground (arith, n, d))

lines_after :
    (id : ℕ) (c : SalesCard) (patch : SalePatch) (db mid : Db)
    → update_sale_fields id patch.fields db ≡ (ok tt, mid)
    → ((db' : Db) → IsItemWrite id mid db' → IsStep db db')
    → Done (write_patch id patch db) (λ s db'. IsStep db db')
unfolding write_patch
lines_after id c patch db mid u step = elim (rewrite_items-Done id patch.items mid) [
  | failed w db' q ↦ failed w db' (ground (arith, u, q))
  | done _ db' q p ↦ elim (read_sale-cases id db') [
    | failed w x r ↦ failed w x (ground (arith, u, q, r))
    | done s x r same ↦ done s db' (ground (arith, u, q, r, same)) (step db' p)
  ]
]

write_patch-Done :
    (id : ℕ) (c : SalesCard) (patch : SalePatch) (db : Db)
    → lookup id db.sales_cards ≡ some c
    → is_draft c.status ≡ true
    → IsBooks db
    → Done (write_patch id patch db) (λ s db'. IsStep db db')
unfolding write_patch update_sale_fields
write_patch-Done id c patch db e d h =
    elim (Bool-cases (is_none patch.fields.sale_date && is_none patch.fields.notes)) [
      | inl n ↦
          lines_after id c patch db db (ground (arith, n))
            (λ db' p. lines-IsStep id c db db' e d p h)
      | inr n ↦ elim (update_card-Done id (patched_card patch.fields) c db e) [
        | failed w db' q ↦ failed w db' (ground (arith, n, q))
        | done _ mid q (p, good) ↦
            lines_after id c patch db (written id (patched_card patch.fields) db)
              (ground (arith, n, q, p))
              (λ db' items.
                write-IsStep id (patched_card patch.fields) c db db' e good
                  (patched-IsSameSale-none patch.fields c d) items
                  (λ m. absurd (ground (arith, m, d))) h)
      ]
    ]

-- A PATCH keeps the books and every card that is not a draft.
pub patch_sale-IsStep :
    (actor : Actor) (id if_match : ℕ) (patch : SalePatch) (db : Db)
    → IsBooks db
    → IsStep db (patch_sale actor id if_match patch db).1
unfolding patch_sale
patch_sale-IsStep actor id if_match patch db h =
    in_transaction _ db h (elim (Option-cases (lookup id db.sales_cards)) [
      | inl n ↦ failed (app not_found) db (ground (arith, n))
      | inr (c, e) ↦ elim (Bool-cases (out_of_sale_scope actor c)) [
        | inl o ↦ failed (app out_of_scope) db (ground (arith, e, o))
        | inr o ↦ elim (Bool-cases (c.version == if_match)) [
          | inr v ↦ failed (app version_conflict) db (ground (arith, e, o, v))
          | inl v ↦ elim (Bool-cases (is_draft c.status)) [
            | inr d ↦ failed (app illegal_transition) db (ground (arith, e, o, v, d))
            | inl d ↦ elim (write_patch-Done id c patch db e d h) [
              | failed w db' q ↦ failed w db' (ground (arith, e, o, v, d, q))
              | done s db' q p ↦ done s db' (ground (arith, e, o, v, d, q)) p
            ]
          ]
        ]
      ]
    ])

-- A new draft with its lines.
new-IsStep :
    (company rep date : ℕ) (notes : Option Text) (db mid db' : Db)
    → mid ≡ record db {
      sales_cards = insert db.next_id (new_card company rep date notes) db.sales_cards;
      next_id = suc db.next_id;
    }
    → IsItemWrite db.next_id mid db'
    → IsBooks db
    → IsStep db db'
new-IsStep company rep date notes db mid db' m items h =
    let fresh_card = new_card company rep date notes in
    let cards : db'.sales_cards ≡ insert db.next_id fresh_card db.sales_cards =
      items.cards ∙ ap (λ x. x.sales_cards) m in
    let next : db'.next_id ≡ suc db.next_id = items.next ∙ ap (λ x. x.next_id) m in
    let other : (k : ℕ) (c : SalesCard)
        → lookup k db.sales_cards ≡ some c
        → (db.next_id == k) ≡ false =
      λ k c e. ground (arith, e, h.fresh k, ==_iff db.next_id k) in
    let row =
      λ (k : ℕ). ap (lookup k) cards ∙ lookup-insert db.next_id k fresh_card db.sales_cards in
    let drafted : IsCard fresh_card = record {
      numbered = refl;
      stamped = refl;
      voided = refl;
      justified = refl;
    } in
    record {
      books = record {
        rows = λ k d e. elim (Option-cases (lookup k db.sales_cards)) [
          | inr (c, f) ↦ h.rows k d (ground (arith, row k, e, f))
          | inl n ↦ let q : d ≡ fresh_card = ground (arith, row k, e, n) in rw q drafted
        ];
        fresh = λ k le.
            let le' : suc db.next_id ≤ k = rw (sym next) le in
            ground (arith, row k, ==_iff db.next_id k, h.fresh k (omega (arith, le')), le');
      };
      kept = λ k c e n. record {
        after = c;
        found = ground (arith, row k, e);
        same = IsSameSale-refl c;
        lines = items.elsewhere k (other k c e) ∙ ap (λ x. items_of k x.sales_card_items) m;
      };
    }

-- A new draft keeps the books and every card that is not a draft.
pub create_sale-IsStep :
    (actor : Actor) (input : SaleCreate) (db : Db)
    → IsBooks db
    → IsStep db (create_sale actor input db).1
unfolding create_sale insert_sale
create_sale-IsStep actor input db h =
    let mid = record db {
      sales_cards =
          insert db.next_id (new_card input.company_id actor.id input.sale_date input.notes)
            db.sales_cards;
      next_id = suc db.next_id;
    } in
    in_transaction _ db h (elim (Bool-cases (company_exists input.company_id db)) [
      | inr n ↦ failed (app validation_failed) db (ground (arith, n))
      | inl y ↦ elim (resolve_sale_items-cases input.items mid) [
        | inr q ↦ failed (app validation_failed) mid (ground (arith, y, q))
        | inl (l, q) ↦ elim (insert_sale_items-Done db.next_id 0 l mid) [
          | failed w db' r ↦ failed w db' (ground (arith, y, q, r))
          | done _ db' r p ↦ elim (read_sale-cases db.next_id db') [
            | failed w x s ↦ failed w x (ground (arith, y, q, r, s))
            | done s x v same ↦ done s db' (ground (arith, y, q, r, v, same)) (
                new-IsStep input.company_id actor.id input.sale_date input.notes db mid db' refl p
                  h)
          ]
        ]
      ]
    ])
