-- ===== src/Shared/Sequence/RoundTrip.antt =====
-- A formatted number parses back, so two numbers are spelled alike only if they are the same.
use serv_grid.Common.{
  Text, ℕ, ◌+◌, ◌/◌, ◌%◌, ◌≤◌, ◌≡◌, refl, true, some, [], ◌∷◌, ◌++◌, arith, length, leb, ==_refl,
  decimal, pad_start, pad_two, parse_int, parse_int-pad_start, all_digits-pad_start,
  le-length-pad_start, is_digit, parse_int_from,
}
use serv_grid.Shared.Sequence.{
  SequenceScope, job, sale, payment, contract, NumberPrefix, jc, sl, pm, amc, prefix_for_scope,
  prefix_text, format_fiscal_year, format_business_number, strip, parse_rest, parse_business_number,
  number_text,
}

-- The four digits of a fiscal year.
abbrev fiscal_text : ℕ → Text
fiscal_text fy =
    (48 + fy / 10) ∷ (48 + fy % 10) ∷ (48 + (fy + 1) % 100 / 10) ∷ (48 + (fy + 1) % 100 % 10) ∷ []

format_fiscal_year_lem : (fy : ℕ) → fy ≤ 99 → format_fiscal_year fy ≡ some (fiscal_text fy)
unfolding format_fiscal_year
format_fiscal_year_lem fy h =
    rw (pad_two fy (omega arith), pad_two ((fy + 1) % 100) (omega arith)) (ground arith)

digit : (d : ℕ) → d ≤ 9 → is_digit (48 + d) ≡ true
digit d h = ground arith

two_digits : (n : ℕ) → n ≤ 99 → parse_int ((48 + n / 10) ∷ (48 + n % 10) ∷ []) ≡ n
unfolding parse_int_from
two_digits n h = omega arith

long_enough : (n : ℕ) → leb 5 (length (pad_start 5 (decimal n))) ≡ true
long_enough n = ground (arith, le-length-pad_start 5 (decimal n))

-- The tail of a formatted number parses to its parts.
parse_rest_lem :
    (p : NumberPrefix) (fy n : ℕ)
    → fy ≤ 99
    → parse_rest p (fiscal_text fy ++ (b'-' ∷ pad_start 5 (decimal n)))
      ≡ some (record { prefix = p; fiscal_year = fy; value = n })
unfolding parse_rest
parse_rest_lem p fy n h =
    rw
      (
        digit (fy / 10) (omega arith),
        digit (fy % 10) (omega arith),
        digit ((fy + 1) % 100 / 10) (omega arith),
        digit ((fy + 1) % 100 % 10) (omega arith),
        long_enough n,
        all_digits-pad_start 5 n,
        two_digits fy h,
        two_digits ((fy + 1) % 100) (omega arith),
        ==_refl ((fy + 1) % 100),
        parse_int-pad_start 5 n,
      )
      refl

parse-number_text :
    (s : SequenceScope) (fy n : ℕ)
    → fy ≤ 99
    → parse_business_number (number_text (prefix_for_scope s) (fiscal_text fy) n)
      ≡ some (record { prefix = prefix_for_scope s; fiscal_year = fy; value = n })
unfolding parse_business_number prefix_for_scope prefix_text strip
parse-number_text job fy n h = parse_rest_lem jc fy n h
parse-number_text sale fy n h = parse_rest_lem sl fy n h
parse-number_text payment fy n h = parse_rest_lem pm fy n h
parse-number_text contract fy n h = parse_rest_lem amc fy n h

-- For a two-digit fiscal year every scope and value have a number, and it parses back to the
-- scope's prefix, the fiscal year and the value.
pub parse-format :
    (s : SequenceScope) (fy n : ℕ)
    → fy ≤ 99
    → (t : Text) × (format_business_number s fy n ≡ some t)
      × (parse_business_number t
          ≡ some (record { prefix = prefix_for_scope s; fiscal_year = fy; value = n }))
unfolding format_business_number
parse-format s fy n h = (
  number_text (prefix_for_scope s) (fiscal_text fy) n,
  rw (format_fiscal_year_lem fy h),
  parse-number_text s fy n h,
)

pub prefix_for_scope_injective :
    (s s' : SequenceScope) → prefix_for_scope s ≡ prefix_for_scope s' → s ≡ s'
unfolding prefix_for_scope
prefix_for_scope_injective s s' e = ground arith

-- Two numbers that are spelled alike have the same scope, fiscal year and value.
pub format_injective :
    (s s' : SequenceScope) (fy fy' n n' : ℕ) {t : Text}
    → fy ≤ 99
    → fy' ≤ 99
    → format_business_number s fy n ≡ some t
    → format_business_number s' fy' n' ≡ some t
    → (s ≡ s') × (fy ≡ fy') × (n ≡ n')
format_injective s s' fy fy' n n' h h' e e' =
    let (u, p, q) = parse-format s fy n h in
    let (u', p', q') = parse-format s' fy' n' h' in ground (arith, prefix_for_scope_injective s s')
