-- ===== src/Api/Sequences.antt =====
-- apps/api/src/lib/sequences.ts, and next_in_sequence of migration 004.
pub mod Distinct
use serv_grid.Common.{
  ℕ, suc, ◌+◌, ◌≤◌, ◌<◌, ◌≡◌, refl, Bool, true, false, Option, none, some, List, [], ◌∷◌, ◌++◌,
  Text, codes, same_text, same_text_iff, if◌then◌else◌, get_or, arith,
}
use serv_grid.Shared.Sequence.{
  SequenceScope, job, sale, payment, contract, format_fiscal_year, format_business_number,
}
use serv_grid.Store.Db.{Db}
use serv_grid.Store.Tx.{M, ok, err, fault, Result, ◌>>=◌, pure}
use serv_grid.Api.Clock.{Env, fiscal_year_for}

abbrev pub Counters : Type 0
Counters = List (Text × ℕ)

-- INSERT … ON CONFLICT (scope) DO UPDATE SET current_value = s.current_value + 1
unfoldable pub bump : Text → Counters → Counters
bump scope [] = (scope, 1) ∷ []
bump scope ((s, n) ∷ t) = if same_text s scope then (s, n + 1) ∷ t else (s, n) ∷ bump scope t

-- The last value that a scope gave out, 0 before the first.
unfoldable pub current_value : Text → Counters → ℕ
current_value scope [] = 0
current_value scope ((s, n) ∷ t) = if same_text s scope then n else current_value scope t

-- RETURNING current_value
unfoldable pub next_in_sequence : Text → M ℕ
unfolding bump current_value
next_in_sequence scope db =
    let t = bump scope db.sequences in (ok (current_value scope t), record db { sequences = t })

abbrev pub scope_text : SequenceScope → Text
scope_text job = codes "job"
scope_text sale = codes "sale"
scope_text payment = codes "payment"
scope_text contract = codes "contract"

-- `${scope}:${formatFiscalYear(fiscalYear)}`; the RangeError cannot be met, see fiscal_year_for.
unfoldable pub scope_key : SequenceScope → ℕ → Text
scope_key scope fiscal_year =
    scope_text scope ++ (b':' ∷ get_or (format_fiscal_year fiscal_year) [])

abbrev or_fault : {A : Type 0} → Option A → M A
or_fault none db = (err fault, db)
or_fault (some a) db = (ok a, db)

unfoldable pub allocate_number : Env → SequenceScope → M Text
unfolding next_in_sequence scope_key
allocate_number env scope = do
  let fiscal_year = fiscal_year_for env env.now
  value ← next_in_sequence (scope_key scope fiscal_year)
  or_fault (format_business_number scope fiscal_year value)
