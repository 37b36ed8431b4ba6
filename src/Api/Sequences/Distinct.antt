-- ===== src/Api/Sequences/Distinct.antt =====
-- Every allocation succeeds, and no number is given out twice.
use serv_grid.Common.{
  ℕ, suc, ◌≤◌, ◌≡◌, ◌≢◌, refl, some, List, [], ◌∷◌, Text, same_text, same_text_iff, if◌then◌else◌,
  All, arith,
}
use serv_grid.Shared.Sequence.{SequenceScope, format_business_number}
use serv_grid.Shared.Sequence.RoundTrip.{parse-format, format_injective}
use serv_grid.Store.Db.{Db}
use serv_grid.Store.Tx.{Result, ok}
use serv_grid.Api.Clock.{Env, fiscal_year_for}
use serv_grid.Api.Sequences.{Counters, bump, current_value, scope_key, allocate_number}

pub current_value-bump :
    (k s : Text) (t : Counters)
    → current_value s (bump k t)
      ≡ (if same_text k s then suc (current_value k t) else current_value s t)
unfolding current_value bump
current_value-bump k s [] = ground arith
current_value-bump k s ((j, n) ∷ t) =
    ground
      (arith, current_value-bump k s t, same_text_iff j k, same_text_iff j s, same_text_iff k s)

current_value-bump_self :
    (k : Text) (t : Counters) → current_value k (bump k t) ≡ suc (current_value k t)
current_value-bump_self k t = ground (arith, current_value-bump k k t, same_text_iff k k)

le-current_value-bump : (k s : Text) (t : Counters) → current_value s t ≤ current_value s (bump k t)
le-current_value-bump k s t = ground (arith, current_value-bump k s t, same_text_iff k s)

fiscal_year_for_le : (env : Env) (at : ℕ) → fiscal_year_for env at ≤ 99
unfolding fiscal_year_for
fiscal_year_for_le env at = omega arith

abbrev pub key_of : Env → SequenceScope → Text
key_of env s = scope_key s (fiscal_year_for env env.now)

-- The value of the number that an allocation gives out.
abbrev pub next_value : Env → SequenceScope → Db → ℕ
next_value env s db = suc (current_value (key_of env s) db.sequences)

-- An allocation gives the formatted successor of its counter, and changes nothing but the counters.
pub allocate_number_lem :
    (env : Env) (s : SequenceScope) (db : Db)
    → (t : Text) × (format_business_number s (fiscal_year_for env env.now) (next_value env s db)
        ≡ some t)
      × (allocate_number env s db
          ≡ (ok t, record db { sequences = bump (key_of env s) db.sequences }))
unfolding allocate_number
allocate_number_lem env s db =
    let (t, e, back) =
      parse-format s (fiscal_year_for env env.now) (next_value env s db)
        (fiscal_year_for_le env env.now) in
    (t, e, rw (current_value-bump_self (key_of env s) db.sequences, e))

abbrev pub Request : Type 0
Request = Env × SequenceScope

-- What a sequence of allocations answers, at any instants and for any scopes.
unfoldable pub issue : List Request → Db → List (Result Text)
issue [] db = []
issue ((env, s) ∷ rest) db = let (r, db') = allocate_number env s db in r ∷ issue rest db'

-- No two answers are the same, and each is a number.
abbrev pub AreDistinct : List (Result Text) → Type 0
AreDistinct [] = Unit
AreDistinct (r ∷ rs) = ((t : Text) × (r ≡ ok t)) × All (λ r'. r ≢ r') rs × AreDistinct rs

counters-step :
    (env : Env) (s : SequenceScope) (db : Db) (k : Text)
    → current_value k db.sequences ≤ current_value k (allocate_number env s db).1.sequences
counters-step env s db k =
    rw (allocate_number_lem env s db).2 (le-current_value-bump (key_of env s) k db.sequences)

not_again :
    (env : Env) (s s' : SequenceScope) (fy n : ℕ) (t : Text) (db : Db)
    → fy ≤ 99
    → format_business_number s fy n ≡ some t
    → n ≤ current_value (scope_key s fy) db.sequences
    → ok t ≢ (allocate_number env s' db).0
not_again env s s' fy n t db h e p same =
    let (t', e', step) = allocate_number_lem env s' db in
    ground (
      arith,
      step,
      format_injective s s' fy (fiscal_year_for env env.now) n (next_value env s' db) {t = t} h
          (fiscal_year_for_le env env.now) e,
    )

-- A number whose counter has passed its value is not given out again.
later_differ :
    (s : SequenceScope) (fy n : ℕ) (t : Text) (l : List Request) (db : Db)
    → fy ≤ 99
    → format_business_number s fy n ≡ some t
    → n ≤ current_value (scope_key s fy) db.sequences
    → All (λ r. ok t ≢ r) (issue l db)
unfolding issue
later_differ s fy n t [] db h e p = tt
later_differ s fy n t ((env, s') ∷ l) db h e p = (
  not_again env s s' fy n t db h e p,
  later_differ s fy n t l (allocate_number env s' db).1 h e
      (omega (arith, counters-step env s' db (scope_key s fy))),
)

-- Whatever is asked for, in whatever order and at whatever instants, every allocation succeeds
-- and no two of them give the same number.
pub issue-AreDistinct : (l : List Request) (db : Db) → AreDistinct (issue l db)
unfolding issue
issue-AreDistinct [] db = tt
issue-AreDistinct ((env, s) ∷ l) db =
    let (t, e, step) = allocate_number_lem env s db in
    rw step (
      (t, refl),
      later_differ s (fiscal_year_for env env.now) (next_value env s db) t l _
          (fiscal_year_for_le env env.now) e
          (omega (arith, current_value-bump_self (key_of env s) db.sequences)),
      issue-AreDistinct l _,
    )
