-- ===== src/Shared/Sequence.antt =====
-- packages/shared/src/sequence.ts: business numbers such as `JC-2627-00042`.
pub mod RoundTrip
use serv_grid.Common.{
  Text, ℕ, ◌+◌, ◌%◌, Bool, true, false, ◌&&◌, Option, none, some, List, [], ◌∷◌, ◌++◌, length, ◌==◌,
  ltb, leb, if◌then◌else◌, codes, is_digit, all_digits, decimal, pad_start, parse_int,
}

pub data NumberPrefix : Type 0 where
  jc sl pm amc : NumberPrefix

pub data SequenceScope : Type 0 where
  job sale payment contract : SequenceScope

abbrev pub sequence_width : ℕ
sequence_width = 5

-- PREFIX_BY_SCOPE
unfoldable pub prefix_for_scope : SequenceScope → NumberPrefix
prefix_for_scope job = jc
prefix_for_scope sale = sl
prefix_for_scope payment = pm
prefix_for_scope contract = amc

unfoldable pub prefix_text : NumberPrefix → Text
prefix_text jc = codes "JC"
prefix_text sl = codes "SL"
prefix_text pm = codes "PM"
prefix_text amc = codes "AMC"

-- `none` stands for the RangeError.
unfoldable pub format_fiscal_year : ℕ → Option Text
format_fiscal_year fiscal_year =
    if ltb 99 fiscal_year
    then none
    else some (pad_start 2 (decimal fiscal_year) ++ pad_start 2 (decimal ((fiscal_year + 1) % 100)))

abbrev number_text : NumberPrefix → Text → ℕ → Text
number_text p fiscal value =
    prefix_text p ++ (b'-' ∷ (fiscal ++ (b'-' ∷ pad_start sequence_width (decimal value))))

abbrev with_fiscal : NumberPrefix → ℕ → Option Text → Option Text
with_fiscal p value none = none
with_fiscal p value (some fiscal) = some (number_text p fiscal value)

unfoldable pub format_business_number : SequenceScope → ℕ → ℕ → Option Text
format_business_number scope fiscal_year value =
    with_fiscal (prefix_for_scope scope) value (format_fiscal_year fiscal_year)

pub record ParsedBusinessNumber : Type 0 where
  pub prefix : NumberPrefix
  pub fiscal_year : ℕ
  pub value : ℕ

-- The text after a literal, where it begins with it.
unfoldable pub strip : Text → Text → Option Text
strip [] s = some s
strip (a ∷ l) [] = none
strip (a ∷ l) (c ∷ s) = if a == c then strip l s else none

-- What NUMBER_RE holds behind the prefix, `(\d{4})-(\d{5,})$` with its dash.
unfoldable pub parse_rest : NumberPrefix → Text → Option ParsedBusinessNumber
parse_rest p (s1 ∷ s2 ∷ e1 ∷ e2 ∷ dash ∷ v) =
    if is_digit s1
      && is_digit s2
      && is_digit e1
      && is_digit e2
      && dash == b'-'
      && leb sequence_width (length v)
      && all_digits v
    then (let start = parse_int (s1 ∷ s2 ∷ []) in
        if parse_int (e1 ∷ e2 ∷ []) == (start + 1) % 100
        then some (record { prefix = p; fiscal_year = start; value = parse_int v })
        else none)
    else none
parse_rest p _ = none

abbrev after :
    NumberPrefix → Option Text → Option ParsedBusinessNumber → Option ParsedBusinessNumber
after p (some rest) otherwise = parse_rest p rest
after p none otherwise = otherwise

-- `raw` is never null here: a missing number is `none` at the caller.
unfoldable pub parse_business_number : Text → Option ParsedBusinessNumber
parse_business_number raw = after jc (strip (codes "JC-") raw) (
    after sl (strip (codes "SL-") raw)
      (after pm (strip (codes "PM-") raw) (after amc (strip (codes "AMC-") raw) none)))
