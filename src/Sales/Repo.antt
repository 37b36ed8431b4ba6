-- ===== src/Sales/Repo.antt =====
-- modules/sales/repo.ts: the statements on sales_cards, with the constraints of migration 017 and
-- the touch trigger, and the view of totals of migration 018.
use serv_grid.Common.{
  ℕ, suc, ◌+◌, Bool, true, false, not, ◌&&◌, ◌||◌, Option, none, some, List, [], ◌∷◌, Text, Table,
  same_text, lookup, update, insert, is_none, ◌==◌,
}
use serv_grid.Store.Rows.{SalesCard, SalesCardItem, SaleStatus, draft, sale_confirmed, sale_void}
use serv_grid.Store.Db.{Db}
use serv_grid.Store.Tx.{
  M, ok, ◌>>=◌, ◌>>◌, pure, gets, modify, refuse_if, check_violation, unique_violation,
  sale_number_when_confirmed, sales_cards_confirmed_stamped, sales_cards_void_coherent,
  sales_cards_void_justified, sales_cards_sale_number_unique,
}
use serv_grid.Sales.Items.{items_of, line_total}

abbrev pub is_draft : SaleStatus → Bool
is_draft draft = true
is_draft _ = false

abbrev pub is_void : SaleStatus → Bool
is_void sale_void = true
is_void _ = false

abbrev same_bool : Bool → Bool → Bool
same_bool true b = b
same_bool false b = not b

-- sale_number_when_confirmed, sales_cards_confirmed_stamped, sales_cards_void_coherent and
-- sales_cards_void_justified
abbrev pub number_ok : SalesCard → Bool
number_ok c = same_bool (is_draft c.status) (is_none c.sale_number)

abbrev pub stamp_ok : SalesCard → Bool
stamp_ok c = same_bool (is_draft c.status) (is_none c.confirmed_at)

abbrev pub void_ok : SalesCard → Bool
void_ok c = same_bool (is_void c.status) (not (is_none c.voided_at))

abbrev pub reason_ok : SalesCard → Bool
reason_ok c = not (is_void c.status) || not (is_none c.void_reason) && not (is_none c.voided_by)

-- UNIQUE (sale_number), of another row than `id`
abbrev pub has_number : Text → Option Text → Bool
has_number number none = false
has_number number (some n) = same_text n number

unfoldable pub number_taken : ℕ → Text → Table SalesCard → Bool
number_taken id number [] = false
number_taken id number ((k, c) ∷ t) =
    let rest = number_taken id number t in not (k == id) && has_number number c.sale_number || rest

abbrev pub is_taken : ℕ → Option Text → Table SalesCard → Bool
is_taken id none t = false
is_taken id (some number) t = number_taken id number t

abbrev pub touched_card : (SalesCard → SalesCard) → SalesCard → SalesCard
touched_card f c = record (f c) { version = suc c.version }

abbrev write_card : ℕ → (SalesCard → SalesCard) → Option SalesCard → M (Unit {0})
write_card id f none = pure tt
write_card id f (some c) = do
  refuse_if (not (number_ok (f c))) check_violation sale_number_when_confirmed
  refuse_if (not (stamp_ok (f c))) check_violation sales_cards_confirmed_stamped
  refuse_if (not (void_ok (f c))) check_violation sales_cards_void_coherent
  refuse_if (not (reason_ok (f c))) check_violation sales_cards_void_justified
  taken ← gets (λ db. is_taken id (f c).sale_number db.sales_cards)
  refuse_if taken unique_violation sales_cards_sale_number_unique
  modify (λ db. record db { sales_cards = update id (touched_card f) db.sales_cards })

-- UPDATE sales_cards SET … WHERE id = $1
unfoldable pub update_card : ℕ → (SalesCard → SalesCard) → M (Unit {0})
unfolding number_taken
update_card id f = do row ← gets (λ db. lookup id db.sales_cards); write_card id f row

-- confirmSale and voidSale
abbrev pub confirmed_card : Text → ℕ → SalesCard → SalesCard
confirmed_card number at c = record c {
  status = sale_confirmed;
  sale_number = some number;
  confirmed_at = some at;
}

abbrev pub voided_card : ℕ → ℕ → Text → SalesCard → SalesCard
voided_card by at reason c = record c {
  status = sale_void;
  voided_at = some at;
  voided_by = some by;
  void_reason = some reason;
}

unfoldable pub confirm_sale_row : ℕ → Text → ℕ → M (Unit {0})
unfolding update_card
confirm_sale_row id number at = update_card id (confirmed_card number at)

unfoldable pub void_sale_row : ℕ → ℕ → ℕ → Text → M (Unit {0})
unfolding update_card
void_sale_row id by at reason = update_card id (voided_card by at reason)

-- The columns that a PATCH sends; the notes may be sent as null.
pub record SalePatchFields : Type 0 where
  pub sale_date : Option ℕ
  pub notes : Option (Option Text)

abbrev pub or_old {ℓ} : {A : Type ℓ} → Option A → A → A
or_old none a = a
or_old (some b) a = b

abbrev pub patched_card : SalePatchFields → SalesCard → SalesCard
patched_card fields c = record c {
  sale_date = or_old fields.sale_date c.sale_date;
  notes = or_old fields.notes c.notes;
}

-- `if (sets.length === 0) return;`
unfoldable pub update_sale_fields : ℕ → SalePatchFields → M (Unit {0})
unfolding update_card
update_sale_fields id fields = elim (is_none fields.sale_date && is_none fields.notes) [
  | true ↦ pure tt
  | false ↦ update_card id (patched_card fields)
]

abbrev pub new_card : ℕ → ℕ → ℕ → Option Text → SalesCard
new_card company rep date notes = record {
  sale_number = none;
  company_id = company;
  sales_rep_id = rep;
  sale_date = date;
  status = draft;
  notes = notes;
  confirmed_at = none;
  voided_at = none;
  voided_by = none;
  void_reason = none;
  version = 1;
}

unfoldable pub insert_sale : ℕ → ℕ → ℕ → Option Text → M ℕ
insert_sale company rep date notes db = (
  ok db.next_id,
  record db {
    sales_cards = insert db.next_id (new_card company rep date notes) db.sales_cards;
    next_id = suc db.next_id;
  },
)

-- v_sales_card_totals
unfoldable pub total_of : List SalesCardItem → ℕ
total_of [] = 0
total_of (i ∷ l) = line_total i + total_of l

-- A card with its lines and its total, as the services answer with it.
pub record Sale : Type 0 where
  pub id : ℕ
  pub card : SalesCard
  pub items : List SalesCardItem
  pub total : ℕ

abbrev pub sale_of : ℕ → List SalesCardItem → SalesCard → Sale
sale_of id items c = record { id = id; card = c; items = items; total = total_of items }

unfoldable pub find_sale : ℕ → Db → Option Sale
unfolding items_of total_of
find_sale id db = elim (lookup id db.sales_cards) [
  | none ↦ none
  | some c ↦ some (sale_of id (items_of id db.sales_card_items) c)
]

-- SELECT id FROM companies WHERE id = $1 AND is_active
unfoldable pub company_exists : ℕ → Db → Bool
company_exists id db = elim (lookup id db.companies) [ none ↦ false | some c ↦ c.is_active ]
