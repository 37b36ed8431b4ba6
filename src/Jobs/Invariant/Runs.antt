-- ===== src/Jobs/Invariant/Runs.antt =====
-- The cancel door, and every run of requests to the jobs service.
use serv_grid.Common.{
  ℕ, ◌≡◌, refl, inl, inr, Option, none, some, List, [], ◌∷◌, arith, lookup, Text,
  lookup-insert-cases,
}
use serv_grid.Shared.Status.{
  JobStatus, unassigned, assigned, en_route, in_progress, completed, cancelled,
}
use serv_grid.Store.Rows.{JobCard, Customer}
use serv_grid.Store.Events.{Source}
use serv_grid.Store.Db.{Db}
use serv_grid.Api.Clock.{Env}
use serv_grid.Jobs.Cards.{Actor}
use serv_grid.Jobs.Sound.{IsSound}
use serv_grid.Jobs.Sound.Writes.{IsWrite-IsSound, IsInsert-IsSound}
use serv_grid.Jobs.Status.{change_status}
use serv_grid.Jobs.Assign.{assign_job}
use serv_grid.Jobs.Reschedule.{reschedule_job}
use serv_grid.Jobs.Create.{JobCreate, create_job}
use serv_grid.Jobs.Cancel.{
  CancelInput, cancel_job, cancellation_row, successor_insert, successor_contract,
}
use serv_grid.Jobs.Cancel.Successor.{raised, successor_id, lookup-raised}
use serv_grid.Jobs.Cancel.Cases.{Cancellable, Cancellable-IsCoherent}
use serv_grid.Jobs.Cancel.Outcome.{CancelOutcome, cancel_job-CancelOutcome}
use serv_grid.Jobs.Assign.Bulk.{BulkEntry, bulk_assign}
use serv_grid.Jobs.Assign.Bulk.Outcome.{bulk_assign-IsSound}
use serv_grid.Jobs.Complete.{CompletionInput, complete_job}
use serv_grid.Jobs.Invariant.Complete.{complete_job-IsSound}
use serv_grid.Jobs.Amend.{AmendInput, amend_completion}
use serv_grid.Jobs.Invariant.Amend.{amend_completion-IsSound}
use serv_grid.Jobs.Invariant.{
  change_status-IsSound, assign_job-IsSound, reschedule_job-IsSound, create_job-IsSound,
}

Cancellable-open : (s : JobStatus) → Cancellable s → s ≡ completed → ⊥
Cancellable-open assigned h e = ground arith
Cancellable-open en_route h e = ground arith
Cancellable-open in_progress h e = ground arith
Cancellable-open unassigned h e = elim h [ ]
Cancellable-open completed h e = elim h [ ]
Cancellable-open cancelled h e = elim h [ ]

raised-IsSound :
    (env : Env) (actor : Actor) (id : ℕ) (j : JobCard) (c : Customer) (source : Source)
    (o : Option ℕ) (n : Text) (db : Db)
    → lookup j.customer_id db.customers ≡ some c
    → IsSound db
    → IsSound (raised env actor id j source o n db)
raised-IsSound env actor id j c source none n db k sound = sound
raised-IsSound env actor id j c source (some day) n db k sound =
    IsInsert-IsSound {s = successor_insert actor j day (successor_contract day j.contract_id db) n}
      {c = c}
      (record {
        known = k;
        cards = refl;
        customers = refl;
        next = refl;
        completions = refl;
        cancellations = refl;
      })
      sound

-- A cancel request leaves a sound database sound.
pub cancel_job-IsSound :
    (env : Env) (actor : Actor) (id : ℕ) (input : CancelInput) (source : Source) (db : Db)
    → IsSound db
    → IsSound (cancel_job env actor id input source db).1
cancel_job-IsSound env actor id input source db sound =
    elim (cancel_job-CancelOutcome env actor id input source db sound) [
      | CancelOutcome.no_job _ p ↦ rw p sound
      | CancelOutcome.stranger _ _ _ _ p ↦ rw p sound
      | CancelOutcome.already_closed _ _ _ p ↦ rw p sound
      | CancelOutcome.day_gone _ _ _ p ↦ rw p sound
      | CancelOutcome.unjustified _ _ _ p ↦ rw p sound
      | CancelOutcome.nobody_has_it _ _ _ p ↦ rw p sound
      | CancelOutcome.number_in_use _ _ _ _ _ _ _ p ↦ rw p sound
      | CancelOutcome.no_card _ p ↦ rw p sound
      | CancelOutcome.called_off j c n h can ahead k num free _ p ↦
          let (d, known) = sound.customer_known id j h.found in
          let db' = raised env actor id j source input.reschedule_to n db in
          let row = cancellation_row env actor input (successor_id input.reschedule_to db) in
          rw p (
            IsWrite-IsSound {f = λ r. record r { status = cancelled; closed_at = some env.now }}
              {db = db'}
              (record {
                found = lookup-raised env actor id j source input.reschedule_to n db id j h.found;
                good =
                    Cancellable-IsCoherent j.status j env.now can refl
                      (sound.coherent id j h.found);
                same_customer = refl;
                stays_completed = λ e. absurd (Cancellable-open j.status can e);
                stays_cancelled = λ e. refl;
                cards = refl;
                customers = refl;
                next = refl;
                completions = λ i k e. inl e;
                cancellations = λ i k e.
                    elim (lookup-insert-cases id i row k db'.job_cancellations e) [
                      | inl old ↦ inl old
                      | inr new ↦ inr (new, refl)
                    ];
              })
              (raised-IsSound env actor id j d source input.reschedule_to n db known sound))
    ]

-- A request to a door that writes job_cards.
pub data JobsRequest : Type 0 where
  status_request : Env → Actor → ℕ → JobStatus → ℕ → Source → JobsRequest
  assign_request : Env → Actor → ℕ → ℕ → ℕ → Source → JobsRequest
  reschedule_request : Env → Actor → ℕ → ℕ → ℕ → Source → JobsRequest
  create_request : Env → Actor → JobCreate → Source → JobsRequest
  cancel_request : Env → Actor → ℕ → CancelInput → Source → JobsRequest
  amend_request : Env → Actor → ℕ → AmendInput → Source → JobsRequest
  complete_request : (Text → Text) → Env → Actor → ℕ → CompletionInput → Source → JobsRequest
  bulk_request : Env → Actor → List BulkEntry → ℕ → Source → JobsRequest

-- The database after the request, whatever it answered.
abbrev pub serve : JobsRequest → Db → Db
serve (status_request env actor id to at source) db = (change_status env actor id to at source db).1
serve (assign_request env actor id employee if_match source) db =
    (assign_job env actor id employee if_match source db).1
serve (reschedule_request env actor id if_match at source) db =
    (reschedule_job env actor id if_match at source db).1
serve (create_request env actor input source) db = (create_job env actor input source db).1
serve (cancel_request env actor id input source) db = (cancel_job env actor id input source db).1
serve (amend_request env actor id input source) db =
    (amend_completion env actor id input source db).1
serve (complete_request lower env actor id input source) db =
    (complete_job lower env actor id input source db).1
serve (bulk_request env actor entries employee source) db =
    (bulk_assign env actor entries employee source db).1

unfoldable pub serve_all : List JobsRequest → Db → Db
serve_all [] db = db
serve_all (r ∷ l) db = serve_all l (serve r db)

serve-IsSound : (r : JobsRequest) (db : Db) → IsSound db → IsSound (serve r db)
serve-IsSound (status_request env actor id to at source) db h =
    change_status-IsSound env actor id to at source db h
serve-IsSound (assign_request env actor id employee if_match source) db h =
    assign_job-IsSound env actor id employee if_match source db h
serve-IsSound (reschedule_request env actor id if_match at source) db h =
    reschedule_job-IsSound env actor id if_match at source db h
serve-IsSound (create_request env actor input source) db h =
    create_job-IsSound env actor input source db h
serve-IsSound (cancel_request env actor id input source) db h =
    cancel_job-IsSound env actor id input source db h
serve-IsSound (amend_request env actor id input source) db h =
    amend_completion-IsSound env actor id input source db h
serve-IsSound (complete_request lower env actor id input source) db h =
    complete_job-IsSound lower env actor id input source db h
serve-IsSound (bulk_request env actor entries employee source) db h =
    bulk_assign-IsSound env actor employee source entries db h

-- After any sequence of status, assign, bulk assign, reschedule, create, complete, cancel and amend
-- requests, by any actors and at any instants, a database that was sound is sound: every row
-- satisfies the two CHECKs and has its customer, a closure row belongs to a job closed that way,
-- and next_id is unused.
pub serve_all-IsSound : (l : List JobsRequest) (db : Db) → IsSound db → IsSound (serve_all l db)
unfolding serve_all
serve_all-IsSound [] db h = h
serve_all-IsSound (r ∷ l) db h = serve_all-IsSound l (serve r db) (serve-IsSound r db h)
