-- ===== src/Sales/Pricing.antt =====
-- toHundredths, discountedUnitPrice and resolveSaleItems of modules/sales/service.ts. A BigInt is a
-- natural number here: the schema admits no negative amount and no percentage above 100.
use serv_grid.Common.{
  ℕ, ◌+◌, ◌-◌, ◌*◌, ◌/◌, ◌%◌, true, false, Option, none, some, [], ◌∷◌, ◌++◌, Text, decimal,
  parse_int, pad_start, ◌==◌, if◌then◌else◌,
}

-- value.split('.')[0]
unfoldable pub before_dot : Text → Text
before_dot [] = []
before_dot (c ∷ t) = if c == b'.' then [] else c ∷ before_dot t

-- value.split('.')[1], or '' when there is no dot
unfoldable pub after_dot : Text → Text
unfolding before_dot
after_dot [] = []
after_dot (c ∷ t) = if c == b'.' then before_dot t else after_dot t

-- `${fraction}00`.slice(0, 2)
abbrev pub two_places : Text → Text
two_places (a ∷ b ∷ t) = a ∷ b ∷ []
two_places (a ∷ []) = a ∷ b'0' ∷ []
two_places [] = b'0' ∷ b'0' ∷ []

unfoldable pub to_hundredths : Text → ℕ
unfolding before_dot after_dot
to_hundredths value = parse_int (before_dot value) * 100 + parse_int (two_places (after_dot value))

-- The paise of the discounted price.
unfoldable pub discounted_paise : ℕ → ℕ → ℕ
discounted_paise list pct = (list * (10000 - pct) + 5000) / 10000

-- `${paise / 100n}.${(paise % 100n).toString().padStart(2, '0')}`
unfoldable pub price_text : ℕ → Text
price_text paise = decimal (paise / 100) ++ (b'.' ∷ pad_start 2 (decimal (paise % 100)))

unfoldable pub discounted_unit_price : Text → Text → Text
unfolding discounted_paise price_text to_hundredths
discounted_unit_price list_price discount_pct =
    price_text (discounted_paise (to_hundredths list_price) (to_hundredths discount_pct))

-- The prices of a line as they are sent; the schema asks for a unit price, or for the other two.
pub record SaleItemInput : Type 0 where
  pub unit_price : Option Text
  pub list_price : Option Text
  pub discount_pct : Option Text

-- What a line is stored with, or the refusal VALIDATION_FAILED. `item.unitPrice!` of an absent
-- price is undefined, which the first field keeps.
pub data Resolved : Type 0 where
  stored : Option Text → Resolved
  disagrees : Resolved

abbrev agreed : Option Text → Text → Resolved
agreed none price = stored (some price)
agreed (some sent) price = elim (to_hundredths sent == to_hundredths price) [
  | true ↦ stored (some price)
  | false ↦ disagrees
]

unfoldable pub resolve_sale_item : SaleItemInput → Resolved
unfolding discounted_unit_price
resolve_sale_item item = elim item.list_price [
  | none ↦ stored item.unit_price
  | some list ↦ elim item.discount_pct [
    | none ↦ stored item.unit_price
    | some pct ↦ agreed item.unit_price (discounted_unit_price list pct)
  ]
]
