-- ===== src/Shared/Status/Graph.antt =====
-- The transition graph of status.ts as a relation, and what can be reached along it.
use serv_grid.Common.{◌≡◌, refl, ◌↔◌, ◌⊎◌, inl, inr, true, false, arith}
use serv_grid.Shared.Status.{
  JobStatus, unassigned, assigned, en_route, in_progress, completed, cancelled, can_transition,
  is_terminal_job_status,
}

pub data Open : JobStatus → Type 0 where
  unassigned_open : Open unassigned
  assigned_open : Open assigned
  en_route_open : Open en_route
  in_progress_open : Open in_progress

-- One constructor for each row of the table in the comment above ALLOWED_TRANSITIONS.
pub data Move : JobStatus → JobStatus → Type 0 where
  assign : Move unassigned assigned
  set_off : Move assigned en_route
  start : Move assigned in_progress
  reassign : Move assigned assigned
  recall : Move en_route assigned
  arrive : Move en_route in_progress
  finish : Move in_progress completed
  cancel : {s : JobStatus} → Open s → Move s cancelled

ruleset rows = (
  assign, set_off, start, reassign, recall, arrive, finish, cancel, unassigned_open, assigned_open,
  en_route_open, in_progress_open,
)

-- canTransition answers true exactly for the moves of the graph Move.
pub can_transition_iff : (s t : JobStatus) → (can_transition s t ≡ true) ↔ Move s t
unfolding can_transition
can_transition_iff s t = (sound s t, complete)
  where
    sound : (s t : JobStatus) → can_transition s t ≡ true → Move s t
    sound s t h = grind (arith, rows)

    complete : {s t : JobStatus} → Move s t → can_transition s t ≡ true
    complete assign = refl
    complete set_off = refl
    complete start = refl
    complete reassign = refl
    complete recall = refl
    complete arrive = refl
    complete finish = refl
    complete (cancel unassigned_open) = refl
    complete (cancel assigned_open) = refl
    complete (cancel en_route_open) = refl
    complete (cancel in_progress_open) = refl

-- Paths of transitions that the code allows.
pub data Reaches : JobStatus → JobStatus → Type 0 where
  here : {s : JobStatus} → Reaches s s
  then : {s t u : JobStatus} → can_transition s t ≡ true → Reaches t u → Reaches s u

moving : {s t u : JobStatus} → Move s t → Reaches t u → Reaches s u
moving {s} {t} m r = then ((can_transition_iff s t).1 m) r

terminal_stuck : {s t : JobStatus} → is_terminal_job_status s ≡ true → Reaches s t → t ≡ s
unfolding is_terminal_job_status
terminal_stuck h here = refl
terminal_stuck {s} h (then {t = t} m r) = absurd (no_move ((can_transition_iff s t).0 m) h)
  where
    no_move : {s u : JobStatus} → Move s u → is_terminal_job_status s ≡ true → ⊥
    no_move assign e = cc
    no_move set_off e = cc
    no_move start e = cc
    no_move reassign e = cc
    no_move recall e = cc
    no_move arrive e = cc
    no_move finish e = cc
    no_move (cancel unassigned_open) e = cc
    no_move (cancel assigned_open) e = cc
    no_move (cancel en_route_open) e = cc
    no_move (cancel in_progress_open) e = cc

-- Of a status s from which a path of transitions that canTransition
-- allows leads to t: s is terminal and t is s itself, or
-- s is not terminal and paths lead from it to both closures.
pub closes_or_stuck :
    (s t : JobStatus)
    → Reaches s t
    → (is_terminal_job_status s ≡ true) × (t ≡ s)
      ⊎ (is_terminal_job_status s ≡ false) × Reaches s completed × Reaches s cancelled
unfolding is_terminal_job_status
closes_or_stuck completed t r = inl (refl, terminal_stuck refl r)
closes_or_stuck cancelled t r = inl (refl, terminal_stuck refl r)
closes_or_stuck unassigned t r =
    inr (refl, search (here, moving, rows), search (here, moving, rows))
closes_or_stuck assigned t r = inr (refl, search (here, moving, rows), search (here, moving, rows))
closes_or_stuck en_route t r = inr (refl, search (here, moving, rows), search (here, moving, rows))
closes_or_stuck in_progress t r =
    inr (refl, search (here, moving, rows), search (here, moving, rows))
