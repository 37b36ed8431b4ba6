-- ===== src/Jobs/Complete/Lines.antt =====
-- How the statements on the stack of a completion can end.
use serv_grid.Common.{
  ℕ, ◌≡◌, refl, ◌⊎◌, inl, inr, Any, at_head, in_tail, Any-map, List, [], ◌∷◌, Text, arith, All,
  Table,
}
use serv_grid.Store.Rows.{CustomerProduct}
use serv_grid.Store.Db.{Db}
use serv_grid.Store.Tx.{app, Failure, map_db_refusal}
use serv_grid.Store.Steps.{Ran, went, refused}
use serv_grid.Jobs.Complete.Stack.{
  StackChangeUpsert, find_unit, new_unit, lock_active_unit_by_serial,
}
use serv_grid.Shared.Errors.{validation_failed}
use serv_grid.Jobs.Complete.{apply_stack}
use serv_grid.Jobs.Complete.Faults.{
  UnitFault, Elsewhere, Elsewhere-insert, Elsewhere-refresh, find_unit-Elsewhere,
}
use serv_grid.Jobs.Complete.Frame.{
  Agrees, Agrees-refl, Agrees-trans, Agrees-of, KeepsLines, KeepsLines-refl, KeepsLines-trans,
  added, refreshed, upsert_unit-Ran, Upserted, unit_added, unit_refreshed,
}
use serv_grid.Jobs.Complete.Standing.{Stands, Stands-insert, Stands-refresh, Stands-new}

module _ (lower : Text → Text) where
  -- Every unit that the changes name stands at the customer's site.
  abbrev pub AllStand : List StackChangeUpsert → Table CustomerProduct → Type 0
  AllStand l t = All (λ s. Stands lower s.serial_number s.customer_id t) l

  -- A change of the stack.
  pub data Changed (s : StackChangeUpsert) (db db' : Db) : Type 0 where
    changed :
        Agrees db db'
        → KeepsLines db db'
        → Stands lower s.serial_number s.customer_id db'.customer_products
        → ((serial : Text) (customer : ℕ)
            → Stands lower serial customer db.customer_products
            → Stands lower serial customer db'.customer_products)
        → ((serial : Text)
            → Elsewhere lower serial s.customer_id db'.customer_products
            → Elsewhere lower serial s.customer_id db.customer_products)
        → Changed s db db'

  Upserted-Changed :
      (s : StackChangeUpsert) (db db' : Db)
      → Upserted s (find_unit lower s.serial_number db.customer_products) db db'
      → Changed s db db'
  Upserted-Changed s db db' (unit_added n p) = rw p (
      changed (Agrees-of db (added s db) refl refl refl refl refl refl (omega arith))
        (record { services = refl; parts = refl })
        (Stands-new lower db.next_id s db.customer_products n)
        (λ serial customer h.
          Stands-insert lower serial customer db.next_id (new_unit s) db.customer_products h)
        (λ serial h. Elsewhere-insert lower serial db.next_id s db.customer_products h))
  Upserted-Changed s db db' (unit_refreshed k u e same p) = rw p (
      changed (Agrees-of db (refreshed s k db) refl refl refl refl refl refl (omega arith))
        (record { services = refl; parts = refl })
        (Stands-refresh lower s.serial_number s.customer_id k s db.customer_products
          (record { key = k; unit = u; found = e; at_site = same }))
        (λ serial customer h. Stands-refresh lower serial customer k s db.customer_products h)
        (λ serial h. Elsewhere-refresh lower serial s.customer_id k s db.customer_products h))

  -- After the changes every unit that they name stands at the customer's site, and every unit
  -- that stood at a site stands there.
  pub record Stacked (l : List StackChangeUpsert) (db db' : Db) : Type 0 where
    pub frame : Agrees db db'
    pub lines : KeepsLines db db'
    pub named : AllStand l db'.customer_products
    pub others :
        (serial : Text) (customer : ℕ)
        → Stands lower serial customer db.customer_products
        → Stands lower serial customer db'.customer_products
    pub fine : All (λ s. ¬ UnitFault db.products s) l

  Stacked-cons :
      (s : StackChangeUpsert) (l : List StackChangeUpsert) (x y z : Db)
      → Changed s x y
      → ¬ UnitFault x.products s
      → Stacked l y z
      → Stacked (s ∷ l) x z
  Stacked-cons s l x y z (changed f g n o b) fine r = record {
    frame = Agrees-trans x y z f r.frame;
    lines = KeepsLines-trans x y z g r.lines;
    named = (r.others s.serial_number s.customer_id n, r.named);
    others = λ serial customer h. r.others serial customer (o serial customer h);
    fine = (fine, rw f.products at r.fine);
  }

  -- The changes are refused for a fault of one, or for a unit of one that stands elsewhere.
  abbrev pub StackWhy : ℕ → List StackChangeUpsert → Db → Failure → Type 0
  StackWhy customer l db f =
      (f ≡ app validation_failed)
      × Any
          (λ s.
            UnitFault db.products s ⊎ Elsewhere lower s.serial_number customer db.customer_products)
          l

  StackWhy-back :
      (customer : ℕ) (s : StackChangeUpsert) (l : List StackChangeUpsert) (x y : Db) (f : Failure)
      → s.customer_id ≡ customer
      → Changed s x y
      → StackWhy customer l y f
      → StackWhy customer (s ∷ l) x f
  StackWhy-back customer s l x y f same (changed a g n o b) (r, any) = (
    r,
    in_tail (
        Any-map
          (λ c w. elim w [
            | inl u ↦ inl (rw a.products at u)
            | inr e ↦ inr (rw same at (b c.serial_number (rw same e)))
          ])
          any),
  )

  pub apply_stack-Ran :
      (customer : ℕ) (l : List StackChangeUpsert) (db : Db)
      → All (λ s. s.customer_id ≡ customer) l
      → Ran (apply_stack lower l db) (StackWhy customer l db) (Stacked l db)
  unfolding apply_stack lock_active_unit_by_serial
  apply_stack-Ran customer [] db same = went db refl (record {
    frame = Agrees-refl db;
    lines = KeepsLines-refl db;
    named = tt;
    others = λ serial customer h. h;
    fine = tt;
  })
  apply_stack-Ran customer (s ∷ l) db (same, sames) =
      let existing = find_unit lower s.serial_number db.customer_products in
      elim (upsert_unit-Ran s existing db) [
        | refused e db' q (r, inl g) ↦ refused e db' (ground (arith, q)) (r, at_head (inl g))
        | refused e db' q (r, inr (k, u, found, n)) ↦ refused e db' (ground (arith, q)) (
          r,
          at_head (
              inr (
                find_unit-Elsewhere lower s.serial_number customer k u db.customer_products found
                  (rw same at n))),
        )
        | went mid q (u, n) ↦
            let c = Upserted-Changed s db mid u in
            elim (apply_stack-Ran customer l mid sames) [
              | refused e db' p r ↦
                  refused e db' (ground (arith, q, p))
                    (StackWhy-back customer s l db mid (map_db_refusal e) same c r)
              | went db' p r ↦ went db' (ground (arith, q, p)) (Stacked-cons s l db mid db' c n r)
            ]
      ]
