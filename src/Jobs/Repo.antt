-- ===== src/Jobs/Repo.antt =====
-- modules/jobs/repo.ts: the statements that the services run on the jobs tables, with the
-- constraints of migrations 007 and 024 and the touch trigger of migration 001.
use serv_grid.Common.{
  ℕ, suc, Bool, true, false, not, ◌&&◌, Option, none, some, [], ◌∷◌, ◌++◌, ◌||◌, Text, Table,
  same_text, lookup, insert, update, is_none, ◌==◌, ltb,
}
use serv_grid.Shared.Status.{JobStatus, unassigned, assigned, completed, cancelled}
use serv_grid.Store.Rows.{
  JobCard, JobCompletion, CollectionMode, none_owed, JobCancellation, CancellationReason, other,
  Priority,
}
use serv_grid.Store.Events.{JobEvent}
use serv_grid.Store.Tx.{
  M, ◌>>=◌, ◌>>◌, pure, gets, modify, refuse_if, check_violation, unique_violation,
  numeric_value_out_of_range, job_assignment_coherent, job_closed_coherent,
  completion_discount_bounded, completion_discount_justified, completion_mode_coherent,
  job_completions_latlng_paired, job_completions_pkey, job_cancellations_pkey,
  job_cancellations_other_justified, job_cards_job_number_unique, no_constraint,
}

abbrev pub is_closed : JobStatus → Bool
is_closed completed = true
is_closed cancelled = true
is_closed _ = false

abbrev pub is_unassigned : JobStatus → Bool
is_unassigned unassigned = true
is_unassigned _ = false

-- job_assignment_coherent
abbrev pub assignment_ok : JobStatus → Option ℕ → Bool
assignment_ok unassigned a = is_none a
assignment_ok _ a = not (is_none a)

-- job_closed_coherent
abbrev pub closed_ok : JobStatus → Option ℕ → Bool
closed_ok s none = not (is_closed s)
closed_ok s (some t) = is_closed s

-- SELECT … FROM job_cards WHERE id = $1 FOR UPDATE. All the lock queries read this row.
unfoldable pub lock_job : ℕ → M (Option JobCard)
lock_job id = gets (λ db. lookup id db.job_cards)

-- The row that an UPDATE leaves: the trigger bumps the version.
abbrev pub touched : (JobCard → JobCard) → JobCard → JobCard
touched f j = record (f j) { version = suc j.version }

abbrev write_row : ℕ → (JobCard → JobCard) → Option JobCard → M (Unit {0})
write_row id f none = pure tt
write_row id f (some j) = do
  refuse_if (not (assignment_ok (f j).status (f j).assigned_to)) check_violation
      job_assignment_coherent
  refuse_if (not (closed_ok (f j).status (f j).closed_at)) check_violation job_closed_coherent
  modify (λ db. record db { job_cards = update id (touched f) db.job_cards })

-- UPDATE job_cards SET … WHERE id = $1, under the two CHECKs
unfoldable pub update_job : ℕ → (JobCard → JobCard) → M (Unit {0})
update_job id f = do row ← gets (λ db. lookup id db.job_cards); write_row id f row

unfoldable pub update_job_status : ℕ → JobStatus → M (Unit {0})
unfolding update_job
update_job_status id to = update_job id (λ j. record j { status = to })

unfoldable pub complete_job_card : ℕ → ℕ → M (Unit {0})
unfolding update_job
complete_job_card id at = update_job id (λ j. record j { status = completed; closed_at = some at })

unfoldable pub cancel_job_card : ℕ → ℕ → M (Unit {0})
unfolding update_job
cancel_job_card id at = update_job id (λ j. record j { status = cancelled; closed_at = some at })

unfoldable pub reschedule_job_card : ℕ → ℕ → M (Unit {0})
unfolding update_job
reschedule_job_card id at = update_job id (λ j. record j { scheduled_for = some at })

unfoldable pub assign_job_card : ℕ → ℕ → ℕ → ℕ → M (Unit {0})
unfolding update_job
assign_job_card id technician by at = update_job id (λ j. record j {
  status = assigned;
  assigned_to = some technician;
  assigned_by = some by;
  assigned_at = some at;
})

unfoldable pub insert_job_event : JobEvent → M (Unit {0})
insert_job_event e = modify (λ db. record db { job_events = db.job_events ++ (e ∷ []) })

pub record JobCardInsert : Type 0 where
  pub job_number : Text
  pub customer_id : ℕ
  pub service_id : ℕ
  pub customer_product_id : Option ℕ
  pub title : Text
  pub description : Option Text
  pub priority : Priority
  pub scheduled_for : Option ℕ
  pub contact_name : Option Text
  pub contact_phone : Option Text
  pub created_by : ℕ
  pub contract_id : Option ℕ

-- The row of an INSERT: unassigned, open, at version 1.
abbrev pub new_job : JobCardInsert → JobCard
new_job s = record {
  job_number = s.job_number;
  customer_id = s.customer_id;
  service_id = s.service_id;
  customer_product_id = s.customer_product_id;
  contract_id = s.contract_id;
  title = s.title;
  description = s.description;
  priority = s.priority;
  status = unassigned;
  assigned_to = none;
  assigned_by = none;
  assigned_at = none;
  scheduled_for = s.scheduled_for;
  contact_name = s.contact_name;
  contact_phone = s.contact_phone;
  created_by = s.created_by;
  closed_at = none;
  version = 1;
}

-- UNIQUE (job_number)
unfoldable pub job_number_taken : Text → Table JobCard → Bool
job_number_taken number [] = false
job_number_taken number ((k, j) ∷ t) =
    let rest = job_number_taken number t in same_text j.job_number number || rest

unfoldable pub insert_job_card : JobCardInsert → M ℕ
unfolding job_number_taken
insert_job_card s = do
  taken ← gets (λ db. job_number_taken s.job_number db.job_cards)
  refuse_if taken unique_violation job_cards_job_number_unique
  id ← gets (λ db. db.next_id)
  modify (λ db. record db {
    job_cards = insert db.next_id (new_job s) db.job_cards;
    next_id = suc db.next_id;
  })
  pure id

abbrev pub is_other : CancellationReason → Bool
is_other other = true
is_other _ = false

unfoldable pub insert_cancellation : ℕ → JobCancellation → M (Unit {0})
insert_cancellation id c = do
  refuse_if (is_other c.reason_code && is_none c.reason_note) check_violation
      job_cancellations_other_justified
  existing ← gets (λ db. lookup id db.job_cancellations)
  refuse_if (not (is_none existing)) unique_violation job_cancellations_pkey
  modify (λ db. record db { job_cancellations = insert id c db.job_cancellations })

-- The first value, in hundredths, that numeric(12,2) does not hold.
abbrev pub numeric_12_2_limit : ℕ
numeric_12_2_limit = 1000000000000

abbrev pub is_none_owed : CollectionMode → Bool
is_none_owed none_owed = true
is_none_owed _ = false

-- The CHECKs of job_completions; the two amounts are never negative here.
unfoldable pub check_completion : JobCompletion → M (Unit {0})
check_completion c = do
  refuse_if (not (ltb c.cost numeric_12_2_limit)) numeric_value_out_of_range no_constraint
  refuse_if (not (ltb c.discount_amount numeric_12_2_limit)) numeric_value_out_of_range
      no_constraint
  refuse_if (ltb c.cost c.discount_amount) check_violation completion_discount_bounded
  refuse_if (not (c.discount_amount == 0) && is_none c.discount_reason) check_violation
      completion_discount_justified
  refuse_if (not (c.cost == c.discount_amount) && is_none_owed c.collection_mode) check_violation
      completion_mode_coherent
  refuse_if (not (is_none c.latitude) && is_none c.longitude) check_violation
      job_completions_latlng_paired
  refuse_if (is_none c.latitude && not (is_none c.longitude)) check_violation
      job_completions_latlng_paired

unfoldable pub insert_completion : ℕ → JobCompletion → M (Unit {0})
unfolding check_completion
insert_completion id c = do
  check_completion c
  existing ← gets (λ db. lookup id db.job_completions)
  refuse_if (not (is_none existing)) unique_violation job_completions_pkey
  modify (λ db. record db { job_completions = insert id c db.job_completions })
