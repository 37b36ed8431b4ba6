-- ===== src/Sales/Books.antt =====
-- What holds of the sales tables between two requests, and what no request changes.
use serv_grid.Common.{
  ℕ, ◌≤◌, ◌≡◌, refl, sym, ◌∙◌, ap, ◌⊎◌, inl, inr, true, false, ◌==◌, none, some, arith, lookup,
  Bool-cases, ==_iff,
}
use serv_grid.Store.Rows.{SalesCard, sale_void}
use serv_grid.Store.Db.{Db}
use serv_grid.Sales.Repo.{number_ok, stamp_ok, void_ok, reason_ok, is_draft}
use serv_grid.Sales.Items.{items_of}

-- The CHECKs of sales_cards.
pub record IsCard (c : SalesCard) : Type 0 where
  pub numbered : number_ok c ≡ true
  pub stamped : stamp_ok c ≡ true
  pub voided : void_ok c ≡ true
  pub justified : reason_ok c ≡ true

pub record IsBooks (db : Db) : Type 0 where
  pub rows : (id : ℕ) (c : SalesCard) → lookup id db.sales_cards ≡ some c → IsCard c
  pub fresh : (id : ℕ) → db.next_id ≤ id → lookup id db.sales_cards ≡ none

-- What a card keeps once it was confirmed; its status can only become void.
pub record IsSameSale (c c' : SalesCard) : Type 0 where
  pub number : c'.sale_number ≡ c.sale_number
  pub company : c'.company_id ≡ c.company_id
  pub rep : c'.sales_rep_id ≡ c.sales_rep_id
  pub date : c'.sale_date ≡ c.sale_date
  pub notes : c'.notes ≡ c.notes
  pub stamp : c'.confirmed_at ≡ c.confirmed_at
  pub status : (c'.status ≡ c.status) ⊎ (c'.status ≡ sale_void)

pub record IsKept (id : ℕ) (c : SalesCard) (db db' : Db) : Type 0 where
  pub after : SalesCard
  pub found : lookup id db'.sales_cards ≡ some after
  pub same : IsSameSale c after
  pub lines : items_of id db'.sales_card_items ≡ items_of id db.sales_card_items

-- A request keeps the books, and every card that is not a draft.
pub record IsStep (db db' : Db) : Type 0 where
  pub books : IsBooks db'
  pub kept :
      (id : ℕ) (c : SalesCard)
      → lookup id db.sales_cards ≡ some c
      → is_draft c.status ≡ false
      → IsKept id c db db'

pub IsSameSale-refl : (c : SalesCard) → IsSameSale c c
IsSameSale-refl c = record {
  number = refl;
  company = refl;
  rep = refl;
  date = refl;
  notes = refl;
  stamp = refl;
  status = inl refl;
}

pub IsStep-refl : (db : Db) → IsBooks db → IsStep db db
IsStep-refl db h = record {
  books = h;
  kept = λ id c e n. record { after = c; found = e; same = IsSameSale-refl c; lines = refl };
}

IsSameSale-draft :
    (c c' : SalesCard) → IsSameSale c c' → is_draft c.status ≡ false → is_draft c'.status ≡ false
IsSameSale-draft c c' s n = elim s.status [
  | inl e ↦ ground (arith, e, n)
  | inr e ↦ ground (arith, e)
]

IsSameSale-trans : (a b c : SalesCard) → IsSameSale a b → IsSameSale b c → IsSameSale a c
IsSameSale-trans a b c p q = record {
  number = q.number ∙ p.number;
  company = q.company ∙ p.company;
  rep = q.rep ∙ p.rep;
  date = q.date ∙ p.date;
  notes = q.notes ∙ p.notes;
  stamp = q.stamp ∙ p.stamp;
  status = elim q.status [
    | inr e ↦ inr e
    | inl e ↦ elim p.status [ inl f ↦ inl (e ∙ f) | inr f ↦ inr (e ∙ f) ]
  ];
}

pub IsStep-trans : (x y z : Db) → IsStep x y → IsStep y z → IsStep x z
IsStep-trans x y z p q = record {
  books = q.books;
  kept = λ id c e n.
      let k = p.kept id c e n in
      let l = q.kept id k.after k.found (IsSameSale-draft c k.after k.same n) in
      record {
        after = l.after;
        found = l.found;
        same = IsSameSale-trans c k.after l.after k.same l.same;
        lines = l.lines ∙ k.lines;
      };
}

-- One card was written, and no line of another card.
pub record IsCardWrite (id : ℕ) (c c' : SalesCard) (db db' : Db) : Type 0 where
  pub found : lookup id db.sales_cards ≡ some c
  pub here : lookup id db'.sales_cards ≡ some c'
  pub elsewhere : (k : ℕ) → (id == k) ≡ false → lookup k db'.sales_cards ≡ lookup k db.sales_cards
  pub good : IsCard c'
  pub next : db'.next_id ≡ db.next_id
  pub same : is_draft c.status ≡ false → IsSameSale c c'
  pub lines_here :
      is_draft c.status ≡ false → items_of id db'.sales_card_items ≡ items_of id db.sales_card_items
  pub lines_elsewhere :
      (k : ℕ) → (id == k) ≡ false → items_of k db'.sales_card_items ≡ items_of k db.sales_card_items

same_card :
    (id k : ℕ) (c d : SalesCard) (db : Db)
    → (id == k) ≡ true
    → lookup id db.sales_cards ≡ some c
    → lookup k db.sales_cards ≡ some d
    → d ≡ c
same_card id k c d db s e f = ground (arith, ==_iff id k, s, e, f)

pub IsCardWrite-IsStep :
    (id : ℕ) (c c' : SalesCard) (db db' : Db)
    → IsCardWrite id c c' db db'
    → IsBooks db
    → IsStep db db'
IsCardWrite-IsStep id c c' db db' w h = record {
  books = record {
    rows = λ k d e. elim (Bool-cases (id == k)) [
      | inr n ↦ h.rows k d (sym (w.elsewhere k n) ∙ e)
      | inl s ↦ let q : d ≡ c' = same_card id k c' d db' s w.here e in rw q w.good
    ];
    fresh = λ k le. elim (Bool-cases (id == k)) [
      | inr n ↦ w.elsewhere k n ∙ h.fresh k (rw (sym w.next) le)
      | inl s ↦ absurd (ground (arith, ==_iff id k, s, w.found, h.fresh k (rw (sym w.next) le)))
    ];
  };
  kept = λ k d e n. elim (Bool-cases (id == k)) [
    | inr m ↦ record {
      after = d;
      found = w.elsewhere k m ∙ e;
      same = IsSameSale-refl d;
      lines = w.lines_elsewhere k m;
    }
    | inl s ↦
        let q : d ≡ c = same_card id k c d db s w.found e in
        let i : id ≡ k = (==_iff id k).0 s in
        let n' : is_draft c.status ≡ false = ground (arith, n, q) in
        record {
          after = c';
          found = ap (λ x. lookup x db'.sales_cards) (sym i) ∙ w.here;
          same = rw q (w.same n');
          lines = ground (arith, i, w.lines_here n');
        }
  ];
}
