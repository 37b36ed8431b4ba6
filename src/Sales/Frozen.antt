-- ===== src/Sales/Frozen.antt =====
-- No request of the sales service changes a card that was confirmed, but for voiding it.
pub mod Confirm
pub mod Draft
pub mod Runs
use serv_grid.Common.{
  ℕ, suc, ◌≡◌, refl, sym, ◌∙◌, ap, ◌⊎◌, inl, inr, Bool, true, false, not, ◌&&◌, ◌==◌, Option, none,
  some, List, [], ◌∷◌, ◌++◌, Text, arith, ==_iff, Option-cases, Bool-cases, lookup, update, insert,
  lookup-update, lookup-insert, lookup-insert-cases, is_none, length,
}
use serv_grid.Shared.Errors.{
  internal, not_found, out_of_scope, version_conflict, illegal_transition, validation_failed,
}
use serv_grid.Shared.Sequence.{sale}
use serv_grid.Store.Rows.{SalesCard, SalesCardItem}
use serv_grid.Store.Db.{Db}
use serv_grid.Store.Tx.{
  M, Failure, ok, err, app, pg, with_transaction, check_violation, unique_violation,
  sale_number_when_confirmed, sales_cards_confirmed_stamped, sales_cards_void_coherent,
  sales_cards_void_justified, sales_cards_sale_number_unique,
}
use serv_grid.Store.Steps.{Done, done, failed}
use serv_grid.Api.Clock.{Env}
use serv_grid.Api.Sequences.{bump}
use serv_grid.Api.Sequences.Distinct.{allocate_number_lem, key_of}
use serv_grid.Jobs.Cards.{Actor}
use serv_grid.Sales.Repo.{
  Sale, SalePatchFields, number_ok, stamp_ok, void_ok, reason_ok, is_draft, is_void, is_taken,
  touched_card, update_card, update_sale_fields, patched_card, confirm_sale_row, confirmed_card,
  void_sale_row, voided_card, insert_sale, new_card, find_sale, company_exists,
}
use serv_grid.Sales.Items.{items_of}
use serv_grid.Sales.Books.{
  IsCard, IsBooks, IsSameSale, IsSameSale-refl, IsStep, IsStep-refl, IsCardWrite,
  IsCardWrite-IsStep,
}
use serv_grid.Sales.Lines.{
  IsItemWrite, IsItemWrite-refl, insert_sale_items-Done, resolve_sale_items-cases,
  rewrite_items-Done,
}
use serv_grid.Sales.Doors.{
  SaleCreate, SalePatch, create_sale, patch_sale, confirm_sale, void_sale, read_sale,
  out_of_sale_scope, rewrite_items, resolve_sale_items, insert_sale_items,
}

abbrev pub written : ℕ → (SalesCard → SalesCard) → Db → Db
written id f db = record db { sales_cards = update id (touched_card f) db.sales_cards }

-- An UPDATE of a card that is there, within the CHECKs.
pub update_card-Done :
    (id : ℕ) (f : SalesCard → SalesCard) (c : SalesCard) (db : Db)
    → lookup id db.sales_cards ≡ some c
    → Done (update_card id f db) (λ _ db'. (db' ≡ written id f db) × IsCard (f c))
unfolding update_card
update_card-Done id f c db e = elim (Bool-cases (number_ok (f c))) [
  | inr a ↦ failed (pg check_violation sale_number_when_confirmed) db (ground (arith, e, a))
  | inl a ↦ elim (Bool-cases (stamp_ok (f c))) [
    | inr b ↦ failed (pg check_violation sales_cards_confirmed_stamped) db (ground (arith, e, a, b))
    | inl b ↦ elim (Bool-cases (void_ok (f c))) [
      | inr v ↦
          failed (pg check_violation sales_cards_void_coherent) db (ground (arith, e, a, b, v))
      | inl v ↦ elim (Bool-cases (reason_ok (f c))) [
        | inr r ↦
            failed (pg check_violation sales_cards_void_justified) db
              (ground (arith, e, a, b, v, r))
        | inl r ↦ elim (Bool-cases (is_taken id (f c).sale_number db.sales_cards)) [
          | inl t ↦
              failed (pg unique_violation sales_cards_sale_number_unique) db
                (ground (arith, e, a, b, v, r, t))
          | inr t ↦
              done tt (written id f db) (ground (arith, e, a, b, v, r, t))
                (refl, record { numbered = a; stamped = b; voided = v; justified = r })
        ]
      ]
    ]
  ]
]

pub read_sale-cases : (id : ℕ) (db : Db) → Done (read_sale id db) (λ s db'. db' ≡ db)
unfolding read_sale
read_sale-cases id db = elim (Option-cases (find_sale id db)) [
  | inl n ↦ failed (app internal) db (ground (arith, n))
  | inr (s, e) ↦ done s db (ground (arith, e)) refl
]

-- A write of the card, and then of its lines.
pub write-IsStep :
    (id : ℕ) (f : SalesCard → SalesCard) (c : SalesCard) (db db' : Db)
    → lookup id db.sales_cards ≡ some c
    → IsCard (f c)
    → (is_draft c.status ≡ false → IsSameSale c (touched_card f c))
    → IsItemWrite id (written id f db) db'
    → (is_draft c.status ≡ false
        → items_of id db'.sales_card_items ≡ items_of id db.sales_card_items)
    → IsBooks db
    → IsStep db db'
write-IsStep id f c db db' e good same items lines h =
    IsCardWrite-IsStep id c (touched_card f c) db db'
      (record {
        found = e;
        here =
            ap (lookup id) items.cards
            ∙ ground (arith, e, lookup-update id id (touched_card f) db.sales_cards);
        elsewhere = λ k n.
            ap (lookup k) items.cards
            ∙ ground (arith, n, lookup-update id k (touched_card f) db.sales_cards);
        good = record {
          numbered = good.numbered;
          stamped = good.stamped;
          voided = good.voided;
          justified = good.justified;
        };
        next = items.next;
        same = same;
        lines_here = lines;
        lines_elsewhere = λ k n. items.elsewhere k n;
      })
      h

pub lines-IsStep :
    (id : ℕ) (c : SalesCard) (db db' : Db)
    → lookup id db.sales_cards ≡ some c
    → is_draft c.status ≡ true
    → IsItemWrite id db db'
    → IsBooks db
    → IsStep db db'
lines-IsStep id c db db' e d items h =
    IsCardWrite-IsStep id c c db db'
      (record {
        found = e;
        here = ap (lookup id) items.cards ∙ e;
        elsewhere = λ k n. ap (lookup k) items.cards;
        good = h.rows id c e;
        next = items.next;
        same = λ n. IsSameSale-refl c;
        lines_here = λ n. absurd (ground (arith, n, d));
        lines_elsewhere = λ k n. items.elsewhere k n;
      })
      h

with_transaction_db :
    (m : M Sale) (s : Sale) (db db' : Db) → m db ≡ (ok s, db') → (with_transaction m db).1 ≡ db'
unfolding with_transaction
with_transaction_db m s db db' e = ground (arith, e)

with_transaction_err :
    (m : M Sale) (f : Failure) (db db' : Db) → m db ≡ (err f, db') → (with_transaction m db).1 ≡ db
unfolding with_transaction
with_transaction_err m f db db' e = ground (arith, e)

pub in_transaction :
    (m : M Sale) (db : Db)
    → IsBooks db
    → Done (m db) (λ s db'. IsStep db db')
    → IsStep db (with_transaction m db).1
in_transaction m db h (done s db' e p) = rw (with_transaction_db m s db db' e) p
in_transaction m db h (failed f db' e) = rw (with_transaction_err m f db db' e) (IsStep-refl db h)

void_draft :
    (c : SalesCard) (n : ℕ) (by : ℕ) (reason : Text)
    → IsSameSale c (touched_card (voided_card by n reason) c)
void_draft c n by reason = record {
  number = refl;
  company = refl;
  rep = refl;
  date = refl;
  notes = refl;
  stamp = refl;
  status = inr refl;
}

-- A void keeps the books and every card that is not a draft.
pub void_sale-IsStep :
    (env : Env) (actor : Actor) (id : ℕ) (reason : Text) (db : Db)
    → IsBooks db
    → IsStep db (void_sale env actor id reason db).1
unfolding void_sale void_sale_row
void_sale-IsStep env actor id reason db h =
    in_transaction _ db h (elim (Option-cases (lookup id db.sales_cards)) [
      | inl n ↦ failed (app not_found) db (ground (arith, n))
      | inr (c, e) ↦ elim (Bool-cases (is_draft c.status)) [
        | inl d ↦ failed (app illegal_transition) db (ground (arith, e, d))
        | inr d ↦ elim (Bool-cases (is_void c.status)) [
          | inl v ↦ failed (app illegal_transition) db (ground (arith, e, d, v))
          | inr v ↦ elim (update_card-Done id (voided_card actor.id env.now reason) c db e) [
            | failed f db' q ↦ failed f db' (ground (arith, e, d, v, q))
            | done _ mid q (p, good) ↦ elim (read_sale-cases id mid) [
              | failed f db' r ↦ failed f db' (ground (arith, e, d, v, q, r))
              | done s db' r same ↦ done s mid (ground (arith, e, d, v, q, r, same)) (
                  rw p (
                    write-IsStep id (voided_card actor.id env.now reason) c db
                      (written id (voided_card actor.id env.now reason) db) e good
                      (λ n. void_draft c env.now actor.id reason)
                      (IsItemWrite-refl id (written id (voided_card actor.id env.now reason) db))
                      (λ n. refl) h))
            ]
          ]
        ]
      ]
    ])
