-- ===== src/Jobs/Complete/Standing.antt =====
-- Where a unit stands after the stack changes of a completion.
use serv_grid.Common.{
  ℕ, ◌≡◌, refl, ◌∙◌, inl, inr, true, ◌==◌, none, some, [], ◌∷◌, Text, Table, same_text_iff, arith,
  update, insert, Bool-cases,
}
use serv_grid.Store.Rows.{CustomerProduct}
use serv_grid.Jobs.Complete.Stack.{StackChangeUpsert, is_unit, find_unit, new_unit, refreshed_unit}

module _ (lower : Text → Text) where
  -- The active unit with the serial, if there is one, and whose site it stands at.
  pub record Stands (serial : Text) (customer : ℕ) (t : Table CustomerProduct) : Type 0 where
    pub key : ℕ
    pub unit : CustomerProduct
    pub found : find_unit lower serial t ≡ some (key, unit)
    pub at_site : unit.customer_id ≡ customer

  found-insert :
      (serial : Text) (k i : ℕ) (u w : CustomerProduct) (t : Table CustomerProduct)
      → find_unit lower serial t ≡ some (i, w)
      → find_unit lower serial (insert k u t) ≡ some (i, w)
  unfolding find_unit insert
  found-insert serial k i u w [] h = ground (arith, h)
  found-insert serial k i u w ((j, v) ∷ t) h = elim (Bool-cases (is_unit lower serial v)) [
    | inl a ↦ ground (arith, a, h)
    | inr a ↦ ground (arith, a, h, found-insert serial k i u w t)
  ]

  new-insert :
      (serial : Text) (k : ℕ) (u : CustomerProduct) (t : Table CustomerProduct)
      → find_unit lower serial t ≡ none
      → is_unit lower serial u ≡ true
      → find_unit lower serial (insert k u t) ≡ some (k, u)
  unfolding find_unit insert
  new-insert serial k u [] h a = ground (arith, a)
  new-insert serial k u ((j, v) ∷ t) h a = elim (Bool-cases (is_unit lower serial v)) [
    | inl b ↦ absurd (ground (arith, b, h))
    | inr b ↦ ground (arith, a, b, h, new-insert serial k u t)
  ]

  -- A refreshed unit keeps its serial, its site and its being active.
  found-refresh :
      (serial : Text) (k i : ℕ) (s : StackChangeUpsert) (w : CustomerProduct)
      (t : Table CustomerProduct)
      → find_unit lower serial t ≡ some (i, w)
      → (w' : CustomerProduct) × (find_unit lower serial (update k (refreshed_unit s) t)
          ≡ some (i, w'))
        × (w'.customer_id ≡ w.customer_id)
  unfolding find_unit update
  found-refresh serial k i s w [] h = absurd (ground (arith, h))
  found-refresh serial k i s w ((j, v) ∷ t) h = elim (Bool-cases (is_unit lower serial v)) [
    | inl a ↦ elim (Bool-cases (j == k)) [
      | inl b ↦ (refreshed_unit s v, ground (arith, a, b, h), ground (arith, a, h))
      | inr b ↦ (v, ground (arith, a, b, h), ground (arith, a, h))
    ]
    | inr a ↦ elim (Bool-cases (j == k)) [
      | inl b ↦ (w, ground (arith, a, b, h), refl)
      | inr b ↦
          let (w', p, q) = found-refresh serial k i s w t (ground (arith, a, h)) in
          (w', ground (arith, a, b, p), q)
    ]
  ]

  pub Stands-insert :
      (serial : Text) (customer k : ℕ) (u : CustomerProduct) (t : Table CustomerProduct)
      → Stands serial customer t
      → Stands serial customer (insert k u t)
  Stands-insert serial customer k u t h = record {
    key = h.key;
    unit = h.unit;
    found = found-insert serial k h.key u h.unit t h.found;
    at_site = h.at_site;
  }

  pub Stands-refresh :
      (serial : Text) (customer k : ℕ) (s : StackChangeUpsert) (t : Table CustomerProduct)
      → Stands serial customer t
      → Stands serial customer (update k (refreshed_unit s) t)
  Stands-refresh serial customer k s t h =
      let (w, p, q) = found-refresh serial k h.key s h.unit t h.found in
      record { key = h.key; unit = w; found = p; at_site = q ∙ h.at_site }

  pub Stands-new :
      (k : ℕ) (s : StackChangeUpsert) (t : Table CustomerProduct)
      → find_unit lower s.serial_number t ≡ none
      → Stands s.serial_number s.customer_id (insert k (new_unit s) t)
  Stands-new k s t h = record {
    key = k;
    unit = new_unit s;
    found =
        new-insert s.serial_number k (new_unit s) t h
          (ground (arith, same_text_iff (lower s.serial_number) (lower s.serial_number)));
    at_site = refl;
  }
