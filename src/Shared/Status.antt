-- ===== src/Shared/Status.antt =====
-- packages/shared/src/status.ts: the job status machine.
pub mod Graph
use serv_grid.Common.{Bool, true, false, List, [], ◌∷◌, ◌||◌}

pub data JobStatus : Type 0 where
  unassigned assigned en_route in_progress completed cancelled : JobStatus

pub JobStatus-discrete : Discrete JobStatus
JobStatus-discrete = hlevel

-- `a === b`
abbrev pub same_status : JobStatus → JobStatus → Bool
same_status unassigned unassigned = true
same_status assigned assigned = true
same_status en_route en_route = true
same_status in_progress in_progress = true
same_status completed completed = true
same_status cancelled cancelled = true
same_status _ _ = false

abbrev includes : List JobStatus → JobStatus → Bool
includes [] to = false
includes (s ∷ l) to = same_status s to || includes l to

-- ALLOWED_TRANSITIONS
unfoldable pub allowed_transitions : JobStatus → List JobStatus
allowed_transitions unassigned = assigned ∷ cancelled ∷ []
allowed_transitions assigned = assigned ∷ en_route ∷ in_progress ∷ cancelled ∷ []
allowed_transitions en_route = assigned ∷ in_progress ∷ cancelled ∷ []
allowed_transitions in_progress = completed ∷ cancelled ∷ []
allowed_transitions completed = []
allowed_transitions cancelled = []

unfoldable pub can_transition : JobStatus → JobStatus → Bool
unfolding allowed_transitions
can_transition from to = includes (allowed_transitions from) to

abbrev is_empty : List JobStatus → Bool
is_empty [] = true
is_empty (s ∷ l) = false

unfoldable pub is_terminal_job_status : JobStatus → Bool
unfolding allowed_transitions
is_terminal_job_status s = is_empty (allowed_transitions s)
