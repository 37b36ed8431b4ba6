-- ===== src/Sales/Discounts.antt =====
-- The price that the service computes against the CHECK of migration 019.
use serv_grid.Common.{
  ℕ, ◌+◌, ◌-◌, ◌*◌, ◌/◌, ◌%◌, if◌then◌else◌, ltb, ltb→lt, ltb→le, sym, Bool-cases, ◌≡◌, inl, inr,
  true, some, Text, arith, ==_refl, Option-cases,
}
use serv_grid.Sales.Pricing.{
  stored, resolve_sale_item, discounted_unit_price, discounted_paise, to_hundredths,
}
use serv_grid.Sales.Rounding.{
  ResolveOutcome, resolve_sale_item-ResolveOutcome, to_hundredths-price_text,
}
use serv_grid.Sales.Items.{explains_price, round_quotient}
use serv_grid.Sales.Doors.{SaleLine, item_row}

-- The half-up rounding of the service is the rounding of SQL.
discounted_paise-round :
    (list pct : ℕ) → discounted_paise list pct ≡ round_quotient (list * (10000 - pct)) 10000
unfolding discounted_paise round_quotient
discounted_paise-round list pct = rounds (list * (10000 - pct))
  where
    rounds :
        (n : ℕ)
        → (n + 5000) / 10000 ≡ (if ltb (2 * (n % 10000)) 10000 then n / 10000 else n / 10000 + 1)
    rounds n = elim (Bool-cases (ltb (2 * (n % 10000)) 10000)) [
      | inl a ↦ rw a (omega (arith, ltb→lt (2 * (n % 10000)) 10000 a))
      | inr a ↦ rw a (omega (arith, ltb→le (2 * (n % 10000)) 10000 a))
    ]

discounted_hundredths :
    (list pct : Text)
    → to_hundredths (discounted_unit_price list pct)
      ≡ discounted_paise (to_hundredths list) (to_hundredths pct)
unfolding discounted_unit_price
discounted_hundredths list pct =
    to_hundredths-price_text (discounted_paise (to_hundredths list) (to_hundredths pct))

-- The row of a line that resolveSaleItems let through satisfies the CHECK that ties its price to
-- its list price and percentage, whatever price was sent beside them.
pub resolve_sale_item-explains_price :
    (id n : ℕ) (line : SaleLine) (price : Text)
    → resolve_sale_item line.prices ≡ stored (some price)
    → explains_price (item_row id n line (to_hundredths price)) ≡ true
unfolding resolve_sale_item
resolve_sale_item-explains_price id n line price e =
    elim (resolve_sale_item-ResolveOutcome line.prices) [
      | ResolveOutcome.typed (inl a) q ↦ ground (arith, a)
      | ResolveOutcome.typed (inr a) q ↦ elim (Option-cases line.prices.list_price) [
        | inl b ↦ ground (arith, b)
        | inr (list, b) ↦ ground (arith, a, b)
      ]
      | ResolveOutcome.computed list pct l d s q ↦
          let same : price ≡ discounted_unit_price list pct = ground (arith, e, q) in
          let paise = discounted_hundredths list pct in
          ground (
            arith,
            l,
            d,
            same,
            paise,
            sym (discounted_paise-round (to_hundredths list) (to_hundredths pct)),
            ==_refl (discounted_paise (to_hundredths list) (to_hundredths pct)),
          )
      | ResolveOutcome.refused list pct sent l d u n q ↦ absurd (ground (arith, e, q))
    ]
