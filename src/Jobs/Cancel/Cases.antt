-- ===== src/Jobs/Cancel/Cases.antt =====
-- The cases that a cancel request distinguishes.
use serv_grid.Common.{
  ℕ, ◌≡◌, refl, ◌⊎◌, inl, inr, true, false, Option, none, some, arith, lookup, Option-cases,
  Bool-cases, ltb,
}
use serv_grid.Shared.Permissions.{Role, sales_rep}
use serv_grid.Shared.Status.{
  JobStatus, unassigned, assigned, en_route, in_progress, completed, cancelled,
}
use serv_grid.Store.Rows.{JobCard}
use serv_grid.Store.Db.{Db}
use serv_grid.Api.Clock.{Env, ist_today}
use serv_grid.Jobs.Repo.{is_closed}
use serv_grid.Jobs.Cards.{is_sales_rep}
use serv_grid.Jobs.Sound.{IsSound, IsCoherent}
use serv_grid.Jobs.Cancel.Successor.{IsAhead}

-- A job that can still be cancelled: it is open and somebody has it.
pub data Cancellable : JobStatus → Type 0 where
  waiting : Cancellable assigned
  on_the_road : Cancellable en_route
  on_site : Cancellable in_progress

pub data Closed : JobStatus → Type 0 where
  was_completed : Closed completed
  was_cancelled : Closed cancelled

pub Closed-cases :
    (s : JobStatus)
    → Closed s × (is_closed s ≡ true) ⊎ ((s ≡ unassigned) ⊎ Cancellable s) × (is_closed s ≡ false)
Closed-cases unassigned = inr (inl refl, refl)
Closed-cases assigned = inr (inr waiting, refl)
Closed-cases en_route = inr (inr on_the_road, refl)
Closed-cases in_progress = inr (inr on_site, refl)
Closed-cases completed = inl (was_completed, refl)
Closed-cases cancelled = inl (was_cancelled, refl)

pub Cancellable-IsCoherent :
    (s : JobStatus) (j : JobCard) (at : ℕ)
    → Cancellable s
    → j.status ≡ s
    → IsCoherent j
    → IsCoherent (record j { status = cancelled; closed_at = some at })
Cancellable-IsCoherent assigned j at h e c = record {
  assignment = ground (arith, c);
  closing = refl;
}
Cancellable-IsCoherent en_route j at h e c = record {
  assignment = ground (arith, c);
  closing = refl;
}
Cancellable-IsCoherent in_progress j at h e c = record {
  assignment = ground (arith, c);
  closing = refl;
}
Cancellable-IsCoherent unassigned j at h e c = elim h [ ]
Cancellable-IsCoherent completed j at h e c = elim h [ ]
Cancellable-IsCoherent cancelled j at h e c = elim h [ ]

-- A job that is not closed has no cancellation row.
pub no_row :
    (db : Db) (id : ℕ) (j : JobCard)
    → IsSound db
    → lookup id db.job_cards ≡ some j
    → is_closed j.status ≡ false
    → lookup id db.job_cancellations ≡ none
no_row db id j sound e o = elim (Option-cases (lookup id db.job_cancellations)) [
  | inl n ↦ n
  | inr (c, k) ↦ let (j', e', s) = sound.cancellation_closed id c k in ground arith
]

pub rep_of : (r : Role) → is_sales_rep r ≡ true → r ≡ sales_rep
rep_of r h = ground arith

pub IsAhead-cases :
    (env : Env) (o : Option ℕ)
    → IsAhead env o
      ⊎ ¬ IsAhead env o × (day : ℕ) × (o ≡ some day) × (ltb day (ist_today env) ≡ true)
IsAhead-cases env none = inl tt
IsAhead-cases env (some day) = elim (Bool-cases (ltb day (ist_today env))) [
  | inl t ↦ inr ((λ f. ground arith), day, refl, t)
  | inr f ↦ inl f
]
