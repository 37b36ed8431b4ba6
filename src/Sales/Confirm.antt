-- ===== src/Sales/Confirm.antt =====
-- What a confirmation answers, on every branch, and what it writes.
use serv_grid.Common.{
  ℕ, suc, ◌≡◌, ◌≢◌, refl, inl, inr, true, false, ◌==◌, none, some, List, [], ◌∷◌, Text, arith,
  ==_iff, Option-cases, Bool-cases, lookup, update, lookup-update, length,
}
use serv_grid.Shared.Errors.{not_found, out_of_scope, illegal_transition, validation_failed}
use serv_grid.Shared.Permissions.{sales_rep}
use serv_grid.Shared.Sequence.{sale, format_business_number}
use serv_grid.Store.Rows.{SalesCard, SalesCardItem, sale_confirmed}
use serv_grid.Store.Db.{Db}
use serv_grid.Store.Tx.{
  Result, ok, err, app, pg, with_transaction, unique_violation, sales_cards_sale_number_unique,
}
use serv_grid.Api.Clock.{Env, fiscal_year_for}
use serv_grid.Api.Sequences.{bump, allocate_number}
use serv_grid.Api.Sequences.Distinct.{allocate_number_lem, key_of, next_value}
use serv_grid.Jobs.Cards.{Actor}
use serv_grid.Sales.Repo.{
  Sale, is_draft, is_taken, touched_card, update_card, confirm_sale_row, confirmed_card, find_sale,
  sale_of,
}
use serv_grid.Sales.Items.{items_of}
use serv_grid.Sales.Books.{IsCard, IsBooks}
use serv_grid.Sales.Doors.{confirm_sale, number_and_stamp, read_sale, out_of_sale_scope}

-- A draft that is confirmed meets the CHECKs.
confirmed-IsCard :
    (c : SalesCard) (number : Text) (at : ℕ)
    → IsCard c
    → is_draft c.status ≡ true
    → IsCard (confirmed_card number at c)
confirmed-IsCard c number at h d = record {
  numbered = refl;
  stamped = refl;
  voided = ground (arith, h.voided, d);
  justified = refl;
}

module _ (env : Env) (actor : Actor) (id : ℕ) (db : Db) where
  abbrev pub confirm_answer : Result Sale × Db
  confirm_answer = confirm_sale env actor id db

  -- The database after the confirmation: the counter, and the card.
  abbrev pub confirmed_db : Text → Db
  confirmed_db number = record db {
    sequences = bump (key_of env sale) db.sequences;
    sales_cards =
        update id
          (λ c. record c {
            status = sale_confirmed;
            sale_number = some number;
            confirmed_at = some env.now;
            version = suc c.version;
          })
          db.sales_cards;
  }

  -- The actor may confirm the card, which is a draft with lines.
  pub record Ready (c : SalesCard) : Type 0 where
    pub found : lookup id db.sales_cards ≡ some c
    pub in_scope : out_of_sale_scope actor c ≡ false
    pub drafted : is_draft c.status ≡ true
    pub has_lines : length (items_of id db.sales_card_items) ≢ 0

  -- The next number of the fiscal year, printed.
  abbrev pub IsNextNumber : Text → Type 0
  IsNextNumber number =
      format_business_number sale (fiscal_year_for env env.now) (next_value env sale db)
      ≡ some number

  -- How a confirmation can end.
  pub data ConfirmOutcome : Type 0 where
    no_sale :
        lookup id db.sales_cards ≡ none
        → confirm_answer ≡ (err (app not_found), db)
        → ConfirmOutcome
    of_another_rep :
        (c : SalesCard)
        → lookup id db.sales_cards ≡ some c
        → actor.role ≡ sales_rep
        → c.sales_rep_id ≢ actor.id
        → confirm_answer ≡ (err (app out_of_scope), db)
        → ConfirmOutcome
    not_draft :
        (c : SalesCard)
        → lookup id db.sales_cards ≡ some c
        → out_of_sale_scope actor c ≡ false
        → is_draft c.status ≡ false
        → confirm_answer ≡ (err (app illegal_transition), db)
        → ConfirmOutcome
    no_lines :
        (c : SalesCard)
        → lookup id db.sales_cards ≡ some c
        → out_of_sale_scope actor c ≡ false
        → is_draft c.status ≡ true
        → items_of id db.sales_card_items ≡ []
        → confirm_answer ≡ (err (app validation_failed), db)
        → ConfirmOutcome
    number_in_use :
        (c : SalesCard) (number : Text)
        → Ready c
        → IsNextNumber number
        → is_taken id (some number) db.sales_cards ≡ true
        → confirm_answer ≡ (err (pg unique_violation sales_cards_sale_number_unique), db)
        → ConfirmOutcome
    confirmed_it :
        (c : SalesCard) (number : Text)
        → Ready c
        → IsNextNumber number
        → is_taken id (some number) db.sales_cards ≡ false
        → confirm_answer ≡ (
          ok (
              sale_of id (items_of id db.sales_card_items) (record c {
                status = sale_confirmed;
                sale_number = some number;
                confirmed_at = some env.now;
                version = suc c.version;
              })),
          confirmed_db number,
        )
        → ConfirmOutcome

  stamp_ok_lem :
      (c : SalesCard) (number : Text)
      → lookup id db.sales_cards ≡ some c
      → IsCard (confirmed_card number env.now c)
      → is_taken id (some number) db.sales_cards ≡ false
      → let mid = record db { sequences = bump (key_of env sale) db.sequences } in
        confirm_sale_row id number env.now mid ≡ (ok tt, confirmed_db number)
  unfolding confirm_sale_row update_card
  stamp_ok_lem c number e h t = ground (arith, e, h.voided, t)

  stamp_taken :
      (c : SalesCard) (number : Text)
      → lookup id db.sales_cards ≡ some c
      → IsCard (confirmed_card number env.now c)
      → is_taken id (some number) db.sales_cards ≡ true
      → let mid = record db { sequences = bump (key_of env sale) db.sequences } in
        confirm_sale_row id number env.now mid
        ≡ (err (pg unique_violation sales_cards_sale_number_unique), mid)
  unfolding confirm_sale_row update_card
  stamp_taken c number e h t = ground (arith, e, h.voided, t)

  read_ok :
      (c : SalesCard) (number : Text)
      → lookup id db.sales_cards ≡ some c
      → read_sale id (confirmed_db number) ≡ (
        ok (
            sale_of id
              (items_of id db.sales_card_items)
              (touched_card (confirmed_card number env.now) c)),
        confirmed_db number,
      )
  unfolding read_sale find_sale
  read_ok c number e =
      ground (
        arith,
        e,
        lookup-update id id (touched_card (confirmed_card number env.now)) db.sales_cards,
      )

  stamp_lem :
      (c : SalesCard) (number : Text)
      → lookup id db.sales_cards ≡ some c
      → IsCard (confirmed_card number env.now c)
      → is_taken id (some number) db.sales_cards ≡ false
      → (allocate_number env sale db
          ≡ (ok number, record db { sequences = bump (key_of env sale) db.sequences }))
      → number_and_stamp env id db ≡ (
        ok (
            sale_of id
              (items_of id db.sales_card_items)
              (touched_card (confirmed_card number env.now) c)),
        confirmed_db number,
      )
  unfolding number_and_stamp
  stamp_lem c number e h t a = ground (arith, a, stamp_ok_lem c number e h t, read_ok c number e)

  clash_lem :
      (c : SalesCard) (number : Text)
      → lookup id db.sales_cards ≡ some c
      → IsCard (confirmed_card number env.now c)
      → is_taken id (some number) db.sales_cards ≡ true
      → (allocate_number env sale db
          ≡ (ok number, record db { sequences = bump (key_of env sale) db.sequences }))
      → number_and_stamp env id db ≡ (
        err (pg unique_violation sales_cards_sale_number_unique),
        record db { sequences = bump (key_of env sale) db.sequences },
      )
  unfolding number_and_stamp
  clash_lem c number e h t a = ground (arith, a, stamp_taken c number e h t)

  through :
      (c : SalesCard) (r : Result Sale × Db)
      → Ready c
      → number_and_stamp env id db ≡ r
      → confirm_answer ≡ with_transaction (λ _. r) db
  unfolding confirm_sale with_transaction
  through c r h q = ground (
    arith,
    h.found,
    h.in_scope,
    h.drafted,
    ==_iff (length (items_of id db.sales_card_items)) 0,
    h.has_lines,
    q,
  )

  no_items : (l : List SalesCardItem) → (length l == 0) ≡ true → l ≡ []
  no_items [] e = refl
  no_items (i ∷ l) e = absurd (ground (arith, e))

  stamped : (c : SalesCard) → Ready c → IsBooks db → ConfirmOutcome
  unfolding with_transaction
  stamped c r h =
      let (number, printed, a) = allocate_number_lem env sale db in
      let good = confirmed-IsCard c number env.now (h.rows id c r.found) r.drafted in
      elim (Bool-cases (is_taken id (some number) db.sales_cards)) [
        | inl t ↦
            number_in_use c number r printed t (through c _ r (clash_lem c number r.found good t a))
        | inr t ↦
            confirmed_it c number r printed t (through c _ r (stamp_lem c number r.found good t a))
      ]

  -- In the books a confirmation ends in one of the six ways of ConfirmOutcome: NOT_FOUND,
  -- OUT_OF_SCOPE for another rep's card, ILLEGAL_TRANSITION for a card that is not a draft,
  -- VALIDATION_FAILED for a card without lines, the refusal of a next number that is in use, each
  -- with the database, and so the counter of the numbers, as it was, or the next number of the
  -- fiscal year, the stamp and the card.
  pub confirm_sale-ConfirmOutcome : IsBooks db → ConfirmOutcome
  unfolding confirm_sale with_transaction
  confirm_sale-ConfirmOutcome h = elim (Option-cases (lookup id db.sales_cards)) [
    | inl n ↦ no_sale n (ground (arith, n))
    | inr (c, e) ↦ elim (Bool-cases (out_of_sale_scope actor c)) [
      | inl o ↦
          of_another_rep c e (ground (arith, o)) (ground (arith, o, ==_iff c.sales_rep_id actor.id))
            (ground (arith, e, o))
      | inr o ↦ elim (Bool-cases (is_draft c.status)) [
        | inr d ↦ not_draft c e o d (ground (arith, e, o, d))
        | inl d ↦ elim (Bool-cases (length (items_of id db.sales_card_items) == 0)) [
          | inl z ↦
              no_lines c e o d (no_items (items_of id db.sales_card_items) z)
                (ground (arith, e, o, d, z))
          | inr z ↦
              stamped c
                (record {
                  found = e;
                  in_scope = o;
                  drafted = d;
                  has_lines =
                      ground (arith, z, ==_iff (length (items_of id db.sales_card_items)) 0);
                })
                h
        ]
      ]
    ]
  ]
