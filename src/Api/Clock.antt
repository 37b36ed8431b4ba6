-- ===== src/Api/Clock.antt =====
-- The clock and the calendar of a request: `Date.now()`, `business_date` (migration
-- 001) and the date helpers of jobs/service.ts. A request reads the clock once.
use serv_grid.Common.{ℕ, ◌+◌, ◌-◌, ◌*◌, ◌/◌, ◌%◌, ◌≤◌, ◌≡◌, ◌↔◌, leb, if◌then◌else◌, arith}

-- `now` is the instant of the request; `utc_year` and `utc_month` (January is 0) are the
-- JavaScript Date's getUTCFullYear and getUTCMonth. They are code of the platform.
pub record Env : Type 0 where
  pub now : ℕ
  pub utc_year : ℕ → ℕ
  pub utc_month : ℕ → ℕ

abbrev pub day_ms : ℕ
day_ms = 86400000

-- IST is UTC+05:30.
abbrev pub ist_offset_ms : ℕ
ist_offset_ms = 19800000

unfoldable pub business_date : ℕ → ℕ
business_date ts = (ts + ist_offset_ms) / day_ms

unfoldable pub ist_today : Env → ℕ
unfolding business_date
ist_today env = business_date env.now

-- The instant at which an IST day begins; days are counted from the epoch, and day 0 began before it.
unfoldable pub ist_midnight : ℕ → ℕ
ist_midnight date = date * day_ms - ist_offset_ms

-- For every day after day 0, midnight falls on the day, and an instant belongs to an earlier day
-- exactly when it is before that midnight.
pub business_date-ist_midnight :
    (d t : ℕ)
    → 1 ≤ d
    → (business_date (ist_midnight d) ≡ d) × ((t + 1 ≤ ist_midnight d) ↔ (business_date t + 1 ≤ d))
unfolding business_date ist_midnight
business_date-ist_midnight d t h = (omega arith, ((λ k. omega arith), λ k. omega arith))

-- The fiscal year of the business date: it starts in April.
unfoldable pub fiscal_year_for : Env → ℕ → ℕ
fiscal_year_for env at =
    let ist = at + ist_offset_ms in
    let year = env.utc_year ist in (if leb 3 (env.utc_month ist) then year else year - 1) % 100
