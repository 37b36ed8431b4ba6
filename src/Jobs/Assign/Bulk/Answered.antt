-- ===== src/Jobs/Assign/Bulk/Answered.antt =====
-- Every entry of a bulk assignment has its result: `outcomes.get(entry.id)!` is never undefined.
use serv_grid.Common.{
  ℕ, ◌≡◌, refl, ◌∙◌, ap, ◌⊎◌, inl, inr, false, some, map, ==_iff, List, [], ◌∷◌, All, arith, Table,
  lookup, is_none, ltb, Bool-cases, ==_refl, Option-cases, ◌==◌,
}
use serv_grid.Store.Events.{Source}
use serv_grid.Store.Db.{Db}
use serv_grid.Api.Clock.{Env}
use serv_grid.Jobs.Cards.{Actor}
use serv_grid.Shared.Permissions.{owner, dispatcher}
use serv_grid.Store.Rows.{Employee}
use serv_grid.Store.Tx.{ok}
use serv_grid.Jobs.Lookups.{AssignmentPush, find_active_technician}
use serv_grid.Jobs.Sound.{IsSound}
use serv_grid.Jobs.Assign.Bulk.{
  BulkEntry, BulkAssignOutcome, given, kept, lock_order, place, outcome_for, set_before,
  bulk_assign,
}
use serv_grid.Jobs.Assign.Bulk.Outcome.{
  Turn, no_job, stale, on_site_or_closed, handed_over, Turns, no_more, turn, BulkOutcome,
  bulk_assign-BulkOutcome,
}

-- The entry has an outcome in the table.
abbrev pub HasResult : Table BulkAssignOutcome → BulkEntry → Type 0
HasResult t e = is_none (outcome_for t e) ≡ false

All-place :
    (P : BulkEntry → Type 0) (e : BulkEntry) (l : List BulkEntry)
    → All P (place e l)
    → P e × All P l
unfolding place
All-place P e [] h = (h.0, tt)
All-place P e (d ∷ l) h = elim (Bool-cases (ltb d.id e.id)) [
  | inr n ↦ rw n at h
  | inl y ↦
      let k : P d × All P (place e l) = rw y at h in
      let (p, q) = All-place P e l k.1 in (p, (k.0, q))
]

All-lock_order : (P : BulkEntry → Type 0) (l : List BulkEntry) → All P (lock_order l) → All P l
unfolding lock_order
All-lock_order P [] h = tt
All-lock_order P (e ∷ l) h =
    let (p, q) = All-place P e (lock_order l) h in (p, All-lock_order P l q)

-- A later turn keeps the results there are, and sets one for its own entry.
HasResult-set_before :
    (e d : BulkEntry) (o : BulkAssignOutcome) (t : Table BulkAssignOutcome)
    → HasResult t d
    → HasResult (set_before e.id o t) d
unfolding lookup
HasResult-set_before e d o t h = elim (Option-cases (lookup e.id t)) [
  | inl n ↦ elim (Bool-cases (e.id == d.id)) [ inl same ↦ ground arith | inr other ↦ ground arith ]
  | inr (p, q) ↦ ground arith
]

HasResult-set_before_self :
    (e : BulkEntry) (o : BulkAssignOutcome) (t : Table BulkAssignOutcome)
    → HasResult (set_before e.id o t) e
unfolding lookup
HasResult-set_before_self e o t = elim (Option-cases (lookup e.id t)) [
  | inl n ↦ ground (arith, ==_refl e.id)
  | inr (p, q) ↦ ground arith
]

All-set_before :
    (e : BulkEntry) (o : BulkAssignOutcome) (t : Table BulkAssignOutcome) (l : List BulkEntry)
    → All (HasResult t) l
    → All (HasResult (set_before e.id o t)) l
All-set_before e o t [] h = tt
All-set_before e o t (d ∷ l) h = (HasResult-set_before e d o t h.0, All-set_before e o t l h.1)

abbrev pub id_of : BulkAssignOutcome → ℕ
id_of (given id number card) = id
id_of (kept id number code) = id

-- The outcome under a key is about that job.
abbrev IsKeyed : Table BulkAssignOutcome → Type 0
IsKeyed t = (k : ℕ) (o : BulkAssignOutcome) → lookup k t ≡ some o → id_of o ≡ k

IsKeyed-set_before :
    (i : ℕ) (o : BulkAssignOutcome) (t : Table BulkAssignOutcome)
    → id_of o ≡ i
    → IsKeyed t
    → IsKeyed (set_before i o t)
unfolding lookup
IsKeyed-set_before i o t same h k p e = elim (Option-cases (lookup i t)) [
  | inr (q, f) ↦ h k p (ground (arith, e, f))
  | inl n ↦ elim (Bool-cases (i == k)) [
    | inl s ↦ ground (arith, e, n, s, same, ==_iff i k)
    | inr s ↦ h k p (ground (arith, e, n, s))
  ]
]

module _ {env : Env} {actor : Actor} {chosen : ℕ} {source : Source} where
  Turn-id :
      {e : BulkEntry} {db db' : Db} {o : BulkAssignOutcome} {w : List AssignmentPush}
      → Turn env actor chosen source e db o w db'
      → id_of o ≡ e.id
  Turn-id (no_job n) = refl
  Turn-id (stale j f n) = refl
  Turn-id (on_site_or_closed j f v n) = refl
  Turn-id (handed_over j c f v a) = refl

  Turns-HasResult :
      {l : List BulkEntry} {db db' : Db} {t : Table BulkAssignOutcome} {w : List AssignmentPush}
      → Turns env actor chosen source l db t w db'
      → IsKeyed t × All (HasResult t) l
  unfolding lookup
  Turns-HasResult no_more = (λ k o e. ground (arith, e), tt)
  Turns-HasResult (turn {e = e} {l = l} {o = o} {t = t} h r) =
      let (keyed, rest) = Turns-HasResult r in
      (
        IsKeyed-set_before e.id o t (Turn-id h) keyed,
        (HasResult-set_before_self e o t, All-set_before e o t l rest),
      )

-- The outcomes that the loop set for the entries.
picked :
    (t : Table BulkAssignOutcome) (l : List BulkEntry)
    → IsKeyed t
    → All (HasResult t) l
    → (rs : List BulkAssignOutcome) × (map (outcome_for t) l ≡ map some rs)
      × (map id_of rs ≡ map (λ e. e.id) l)
picked t [] keyed h = ([], refl, refl)
picked t (e ∷ l) keyed (k, h) = elim (Option-cases (lookup e.id t)) [
  | inl n ↦ absurd (ground (arith, n, k))
  | inr (o, f) ↦
      let (rs, p, q) = picked t l keyed h in
      (o ∷ rs, ground (arith, f, p), ground (arith, q, keyed e.id o f))
]

-- In a sound database, of the office and for an active technician, a bulk assignment answers, and
-- its results are one outcome for each entry, in the order of the entries and under the entry's
-- id: none is undefined, in whatever order the entries were sent and if an id was sent twice.
pub bulk_assign-answers_all :
    (env : Env) (actor : Actor) (chosen : ℕ) (source : Source) (entries : List BulkEntry) (db : Db)
    (who : Employee)
    → IsSound db
    → (actor.role ≡ owner) ⊎ (actor.role ≡ dispatcher)
    → find_active_technician chosen db ≡ some who
    → (rs : List BulkAssignOutcome) × (w : List AssignmentPush) × (db' : Db) × (bulk_assign env
          actor entries chosen source db
        ≡ (ok (map some rs, w), db'))
      × (map id_of rs ≡ map (λ e. e.id) entries)
bulk_assign-answers_all env actor chosen source entries db who sound office known =
    elim (bulk_assign-BulkOutcome env actor chosen source entries db sound) [
      | BulkOutcome.not_office n p ↦ absurd (ground (arith, n, office))
      | BulkOutcome.no_technician _ n p ↦ absurd (ground (arith, n, known))
      | BulkOutcome.ran w t ws db' o k turns p h ↦
          let (keyed, all) = Turns-HasResult turns in
          let (rs, q, ids) = picked t entries keyed (All-lock_order (HasResult t) entries all) in
          (rs, ws, db', p ∙ ap (λ x. (ok (x, ws), db')) q, ids)
    ]
