-- ===== src/Common/Texts/Decimal.antt =====
-- `String(n)` and `Number.parseInt(s, 10)` on natural numbers, and `padStart(w, '0')`.
use Prim.Native.Nat.{ℕ, zero, suc, ◌+◌, ◌-◌, ◌*◌, ◌/◌, ◌%◌, ◌<◌, ◌≤◌}
use mathlib.Core.Bool.{Bool, true, ◌&&◌}
use mathlib.Core.List.{List, [], ◌∷◌, ◌++◌}
use mathlib.Core.Path.{◌≡◌, refl, ◌∙◌, ap}
use native.Mathlib.Omega.{arith}
use serv_grid.Common.Tests.{leb, ltb, if◌then◌else◌, Bool-cases, ltb→le}
use mathlib.Core.Logic.{inl, inr}
use serv_grid.Common.Lists.{length, length-append}

abbrev pub is_digit : ℕ → Bool
is_digit c = leb b'0' c && leb c b'9'

unfoldable pub all_digits : List ℕ → Bool
all_digits [] = true
all_digits (c ∷ s) = is_digit c && all_digits s

-- The digits of n before `acc`; fuel above n is enough.
digits_onto : ℕ → ℕ → List ℕ → List ℕ
digits_onto zero n acc = acc
digits_onto (suc fuel) n acc =
    let rest = digits_onto fuel (n / 10) ((48 + n % 10) ∷ acc) in
    if ltb n 10 then (48 + n) ∷ acc else rest

unfoldable pub decimal : ℕ → List ℕ
unfolding digits_onto
decimal n = digits_onto (suc n) n []

unfoldable pub parse_int_from : ℕ → List ℕ → ℕ
parse_int_from acc [] = acc
parse_int_from acc (c ∷ s) = parse_int_from (acc * 10 + (c - 48)) s

abbrev pub parse_int : List ℕ → ℕ
parse_int = parse_int_from 0

unfoldable pub zeros : ℕ → List ℕ
zeros zero = []
zeros (suc k) = b'0' ∷ zeros k

unfoldable pub pad_start : ℕ → List ℕ → List ℕ
unfolding zeros
pad_start width s = zeros (width - length s) ++ s

parse_int-digits_onto :
    (fuel n : ℕ) (acc : List ℕ)
    → n < fuel
    → parse_int (digits_onto fuel n acc) ≡ parse_int_from n acc
unfolding digits_onto parse_int_from
parse_int-digits_onto zero n acc h = absurd (omega arith)
parse_int-digits_onto (suc fuel) n acc h = elim (Bool-cases (ltb n 10)) [
  | inl small ↦ rw small (ap (λ k. parse_int_from k acc) (omega arith))
  | inr big ↦ rw big (
      parse_int-digits_onto fuel (n / 10) ((48 + n % 10) ∷ acc) (omega (arith, ltb→le n 10 big))
      ∙ ap (λ k. parse_int_from k acc) (omega arith))
]

parse_int-zeros : (k : ℕ) (s : List ℕ) → parse_int (zeros k ++ s) ≡ parse_int s
unfolding zeros parse_int_from
parse_int-zeros zero s = refl
parse_int-zeros (suc k) s = parse_int-zeros k s

-- Reading a printed number, padded or not, gives the number.
pub parse_int-pad_start : (w n : ℕ) → parse_int (pad_start w (decimal n)) ≡ n
unfolding pad_start decimal
parse_int-pad_start w n =
    parse_int-zeros _ _
    ∙ parse_int-digits_onto (suc n) n [] (omega arith)
    ∙ unfold parse_int_from in refl

all_digits-digits_onto :
    (fuel n : ℕ) (acc : List ℕ) → all_digits acc ≡ true → all_digits (digits_onto fuel n acc) ≡ true
unfolding digits_onto all_digits
all_digits-digits_onto zero n acc h = h
all_digits-digits_onto (suc fuel) n acc h =
    ground (arith, all_digits-digits_onto fuel (n / 10) ((48 + n % 10) ∷ acc))

all_digits-zeros : (k : ℕ) (s : List ℕ) → all_digits s ≡ true → all_digits (zeros k ++ s) ≡ true
unfolding zeros all_digits
all_digits-zeros zero s h = h
all_digits-zeros (suc k) s h = ground (arith, all_digits-zeros k s h)

pub all_digits-pad_start : (w n : ℕ) → all_digits (pad_start w (decimal n)) ≡ true
unfolding pad_start decimal
all_digits-pad_start w n =
    all_digits-zeros _ _ (all_digits-digits_onto (suc n) n [] (unfold all_digits in refl))

length-zeros : (k : ℕ) → length (zeros k) ≡ k
unfolding zeros
length-zeros zero = refl
length-zeros (suc k) = ap suc (length-zeros k)

pub le-length-pad_start : (w : ℕ) (s : List ℕ) → w ≤ length (pad_start w s)
unfolding pad_start
le-length-pad_start w s =
    omega (arith, length-append (zeros (w - length s)) s, length-zeros (w - length s))

-- A number below 100 has two digits when it is padded to two.
pub pad_two : (n : ℕ) → n < 100 → pad_start 2 (decimal n) ≡ (48 + n / 10) ∷ (48 + n % 10) ∷ []
unfolding pad_start decimal digits_onto
pad_two zero h = refl
pad_two (suc m) h = elim (Bool-cases (ltb (suc m) 10)) [
  | inl small ↦ rw small (ground arith)
  | inr big ↦ rw big (ground arith)
]
