-- ===== src/Jobs/Rules.antt =====
-- The rules of modules/jobs/service.ts that several doors share.
use serv_grid.Common.{
  ℕ, ◌-◌, ◌*◌, Bool, true, false, ◌&&◌, ◌||◌, List, [], ◌∷◌, ltb, if◌then◌else◌, is_id, not,
}
use serv_grid.Shared.Status.{JobStatus, assigned, en_route, in_progress, same_status}
use serv_grid.Shared.Permissions.{Role, owner, dispatcher, technician}
use serv_grid.Store.Rows.{JobCard}
use serv_grid.Store.Events.{Payload, no_payload, clamped}
use serv_grid.Jobs.Cards.{Actor}

abbrev pub is_technician : Role → Bool
is_technician technician = true
is_technician _ = false

-- actor.role === 'technician' || actor.role === 'owner'
abbrev pub in_field : Role → Bool
in_field technician = true
in_field owner = true
in_field _ = false

-- actor.role === 'dispatcher' || actor.role === 'owner'
abbrev pub in_office : Role → Bool
in_office dispatcher = true
in_office owner = true
in_office _ = false

abbrev pub is_owner : Role → Bool
is_owner owner = true
is_owner _ = false

-- actor.role === 'technician' && job.assigned_to !== actor.id
abbrev pub out_of_reach : Actor → JobCard → Bool
out_of_reach actor job = is_technician actor.role && not (is_id job.assigned_to actor.id)

-- STATUS_MOVES
abbrev pub status_moves : List (JobStatus × JobStatus)
status_moves = (assigned, en_route) ∷ (assigned, in_progress) ∷ (en_route, in_progress) ∷ []

-- STATUS_MOVES.some(…)
abbrev pub some_move : List (JobStatus × JobStatus) → JobStatus → JobStatus → Bool
some_move [] from to = false
some_move ((f, t) ∷ l) from to = same_status f from && same_status t to || some_move l from to

abbrev pub occurred_at_max_age_ms : ℕ
occurred_at_max_age_ms = 14 * 86400000

-- The recorded instant, and whether a bound bit. An instant is not negative, so the floor
-- stopping at 0 decides no comparison differently.
unfoldable pub clamp_occurred_at : ℕ → ℕ → ℕ × Bool
clamp_occurred_at sent now =
    let floor = now - occurred_at_max_age_ms in
    if ltb now sent || ltb sent floor
    then (if ltb now sent then now else floor, true)
    else (sent, false)

abbrev pub clamp_payload : ℕ → ℕ × Bool → Payload
clamp_payload sent (recorded, true) = clamped sent recorded
clamp_payload sent (recorded, false) = no_payload
