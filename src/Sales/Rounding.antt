-- ===== src/Sales/Rounding.antt =====
-- The stored price is the list price less the discount, rounded half up to the paisa.
use serv_grid.Common.{
  ℕ, ◌+◌, ◌-◌, ◌*◌, ◌/◌, ◌%◌, ◌≤◌, ◌<◌, ◌≡◌, refl, sym, ◌∙◌, ◌⊎◌, inl, inr, true, none, some, [],
  ◌∷◌, ◌++◌, arith, Text, decimal, parse_int, pad_start, pad_two, parse_int-pad_start, all_digits,
  all_digits-pad_start, ◌==◌, ==_iff, zeros, Bool-cases, Option-cases, ◌≢◌,
}
use native.Mathlib.Nat.{mul-le-mul_left}
use serv_grid.Sales.Pricing.{
  before_dot, after_dot, two_places, to_hundredths, discounted_paise, price_text,
  discounted_unit_price, SaleItemInput, stored, disagrees, resolve_sale_item,
}

before_dot-digits : (s t : Text) → all_digits s ≡ true → before_dot (s ++ (b'.' ∷ t)) ≡ s
unfolding before_dot all_digits
before_dot-digits [] t h = refl
before_dot-digits (c ∷ s) t h = ground (arith, before_dot-digits s t)

after_dot-digits : (s t : Text) → all_digits s ≡ true → after_dot (s ++ (b'.' ∷ t)) ≡ before_dot t
unfolding after_dot all_digits
after_dot-digits [] t h = refl
after_dot-digits (c ∷ s) t h = ground (arith, after_dot-digits s t)

before_dot-only : (s : Text) → all_digits s ≡ true → before_dot s ≡ s
unfolding before_dot all_digits
before_dot-only [] h = refl
before_dot-only (c ∷ s) h = ground (arith, before_dot-only s)

pad_none : (s : Text) → pad_start 0 s ≡ s
unfolding pad_start zeros
pad_none s = ground arith

all_digits-decimal : (n : ℕ) → all_digits (decimal n) ≡ true
all_digits-decimal n = rw (sym (pad_none (decimal n))) (all_digits-pad_start 0 n)

parse_int-decimal : (n : ℕ) → parse_int (decimal n) ≡ n
parse_int-decimal n = rw (sym (pad_none (decimal n))) (parse_int-pad_start 0 n)

two_places-pad : (n : ℕ) → n < 100 → two_places (pad_start 2 (decimal n)) ≡ pad_start 2 (decimal n)
two_places-pad n h = rw (pad_two n h) refl

-- A printed price reads back to its paise.
pub to_hundredths-price_text : (p : ℕ) → to_hundredths (price_text p) ≡ p
unfolding to_hundredths price_text
to_hundredths-price_text p =
    let low : p % 100 < 100 = omega arith in
    let front =
      before_dot-digits (decimal (p / 100)) (pad_start 2 (decimal (p % 100)))
        (all_digits-decimal (p / 100)) in
    let back =
      after_dot-digits (decimal (p / 100)) (pad_start 2 (decimal (p % 100)))
        (all_digits-decimal (p / 100))
      ∙ before_dot-only (pad_start 2 (decimal (p % 100))) (all_digits-pad_start 2 (p % 100)) in
    rw
      (
        front,
        back,
        two_places-pad (p % 100) low,
        parse_int-decimal (p / 100),
        parse_int-pad_start 2 (p % 100),
      )
      (omega arith)

product : (l d : ℕ) → l * (10000 - d) ≤ l * 10000
product l d = mul-le-mul_left l (omega arith)

-- The arithmetic of the rounding.
rounding :
    (l d : ℕ)
    → d ≤ 10000
    → (10000 * discounted_paise l d ≤ l * (10000 - d) + 5000)
      × (l * (10000 - d) + 5000 < 10000 * discounted_paise l d + 10000)
      × (discounted_paise l d ≤ l)
unfolding discounted_paise
rounding l d h = (omega arith, omega arith, omega (arith, product l d))

-- For a percentage up to 100.00, the stored price p of a list price and a percentage, all read in
-- hundredths, is within half a paisa of list × (10000 − pct) / 10000, the half going up, and is at
-- most the list price.
pub discounted_unit_price_lem :
    (list pct : Text)
    → to_hundredths pct ≤ 10000
    → (10000 * to_hundredths (discounted_unit_price list pct)
        ≤ to_hundredths list * (10000 - to_hundredths pct) + 5000)
      × (to_hundredths list * (10000 - to_hundredths pct) + 5000
          < 10000 * to_hundredths (discounted_unit_price list pct) + 10000)
      × (to_hundredths (discounted_unit_price list pct) ≤ to_hundredths list)
unfolding discounted_unit_price
discounted_unit_price_lem list pct h =
    let l = to_hundredths list in
    let d = to_hundredths pct in
    rw (to_hundredths-price_text (discounted_paise l d)) (rounding l d h)

-- How a line's price is resolved.
pub data ResolveOutcome (item : SaleItemInput) : Type 0 where
  typed :
      (item.list_price ≡ none) ⊎ (item.discount_pct ≡ none)
      → resolve_sale_item item ≡ stored item.unit_price
      → ResolveOutcome item
  computed :
      (list pct : Text)
      → item.list_price ≡ some list
      → item.discount_pct ≡ some pct
      → (item.unit_price ≡ none)
        ⊎ (sent : Text) × (item.unit_price ≡ some sent)
          × (to_hundredths sent ≡ to_hundredths (discounted_unit_price list pct))
      → resolve_sale_item item ≡ stored (some (discounted_unit_price list pct))
      → ResolveOutcome item
  refused :
      (list pct sent : Text)
      → item.list_price ≡ some list
      → item.discount_pct ≡ some pct
      → item.unit_price ≡ some sent
      → to_hundredths sent ≢ to_hundredths (discounted_unit_price list pct)
      → resolve_sale_item item ≡ disagrees
      → ResolveOutcome item

-- A line keeps the price that was sent unless it has both a list price and a percentage; then it
-- is stored at the price that these give, and a price that was sent beside them and differs from
-- it by a paisa or more is refused.
pub resolve_sale_item-ResolveOutcome : (item : SaleItemInput) → ResolveOutcome item
unfolding resolve_sale_item
resolve_sale_item-ResolveOutcome item = elim (Option-cases item.list_price) [
  | inl n ↦ typed (inl n) (ground arith)
  | inr (list, l) ↦ elim (Option-cases item.discount_pct) [
    | inl n ↦ typed (inr n) (ground arith)
    | inr (pct, d) ↦ elim (Option-cases item.unit_price) [
      | inl n ↦ computed list pct l d (inl n) (ground arith)
      | inr (sent, u) ↦
          elim (Bool-cases (to_hundredths sent == to_hundredths (discounted_unit_price list pct))) [
            | inl same ↦ computed list pct l d (inr (sent, u, (==_iff _ _).0 same)) (ground arith)
            | inr differs ↦
                refused list pct sent l d u
                  (ground (
                    arith,
                    ==_iff (to_hundredths sent) (to_hundredths (discounted_unit_price list pct)),
                  ))
                  (ground arith)
          ]
    ]
  ]
]
