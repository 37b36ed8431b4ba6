-- ===== src/Jobs/Assign/Bulk/Outcome.antt =====
-- What a bulk assignment does: one step for each job in lock order, none of which fails the others.
use serv_grid.Common.{
  ℕ, ◌≡◌, ◌≢◌, refl, ◌⊎◌, inl, inr, true, Option, none, some, List, [], ◌∷◌, ◌++◌, arith, lookup,
  map, Table, Option-cases, Bool-cases,
}
use serv_grid.Shared.Errors.{
  forbidden, not_found, validation_failed, version_conflict, illegal_transition,
}
use serv_grid.Shared.Permissions.{owner, dispatcher, technician, sales_rep}
use serv_grid.Store.Rows.{JobCard, Customer, Employee}
use serv_grid.Store.Events.{Source}
use serv_grid.Store.Db.{Db}
use serv_grid.Store.Tx.{Result, ok, err, app, with_transaction}
use serv_grid.Api.Clock.{Env}
use serv_grid.Jobs.Repo.{lock_job}
use serv_grid.Jobs.Cards.{Actor}
use serv_grid.Jobs.Rules.{in_office}
use serv_grid.Jobs.Lookups.{AssignmentPush, find_active_technician}
use serv_grid.Jobs.Sound.{IsSound}
use serv_grid.Jobs.Assign.{wake_of}
use serv_grid.Jobs.Assign.Outcome.{
  Assignable, Verdict, assignment_refusal-Verdict, assigned_db, new_card, give_job_lem,
}
use serv_grid.Jobs.Invariant.{assigned_db-IsSound}
use serv_grid.Jobs.Assign.Bulk.{
  BulkEntry, BulkAssignOutcome, given, kept, bulk_entry, bulk_loop, bulk_assign, lock_order,
  outcome_for, set_before,
}

module _ (env : Env) (actor : Actor) (chosen : ℕ) (source : Source) where
  -- One turn of the loop: the outcome that it sets, the pushes that it adds and the database.
  pub data Turn (e : BulkEntry) (db : Db)
      : BulkAssignOutcome → List AssignmentPush → Db → Type 0 where
    no_job : lookup e.id db.job_cards ≡ none → Turn e db (kept e.id [] not_found) [] db
    stale :
        (j : JobCard)
        → lookup e.id db.job_cards ≡ some j
        → j.version ≢ e.if_match
        → Turn e db (kept e.id j.job_number version_conflict) [] db
    on_site_or_closed :
        (j : JobCard)
        → lookup e.id db.job_cards ≡ some j
        → j.version ≡ e.if_match
        → ¬ Assignable j.status
        → Turn e db (kept e.id j.job_number illegal_transition) [] db
    handed_over :
        (j : JobCard) (c : Customer)
        → lookup e.id db.job_cards ≡ some j
        → j.version ≡ e.if_match
        → Assignable j.status
        → Turn e db
            (given e.id j.job_number (new_card env actor e.id chosen e.if_match source db j c))
            (wake_of e.id j chosen (new_card env actor e.id chosen e.if_match source db j c) ∷ [])
            (assigned_db env actor e.id chosen e.if_match source db j)

  -- The turns, one after the other: the table of outcomes, the pushes and the last database.
  pub data Turns
      : List BulkEntry → Db → Table BulkAssignOutcome → List AssignmentPush → Db → Type 0 where
    no_more : {db : Db} → Turns [] db [] [] db
    turn :
        {e : BulkEntry} {l : List BulkEntry} {db db' db'' : Db} {o : BulkAssignOutcome}
        {w ws : List AssignmentPush} {t : Table BulkAssignOutcome}
        → Turn e db o w db'
        → Turns l db' t ws db''
        → Turns (e ∷ l) db (set_before e.id o t) (w ++ ws) db''

  -- A turn that was taken, with what it answers.
  record Taken (e : BulkEntry) (db : Db) : Type 0 where
    outcome : BulkAssignOutcome
    wakes : List AssignmentPush
    after : Db
    took : Turn e db outcome wakes after
    runs : bulk_entry env actor chosen source e db ≡ (ok (outcome, wakes), after)
    sound : IsSound after

  take_turn : (e : BulkEntry) (db : Db) → in_office actor.role ≡ true → IsSound db → Taken e db
  unfolding bulk_entry lock_job
  take_turn e db office sound = elim (Option-cases (lookup e.id db.job_cards)) [
    | inl gone ↦ record {
      outcome = kept e.id [] not_found;
      wakes = [];
      after = db;
      took = no_job gone;
      runs = ground (arith, gone);
      sound = sound;
    }
    | inr (j, found) ↦ elim (assignment_refusal-Verdict j e.if_match) [
      | Verdict.stale n r ↦ record {
        outcome = kept e.id j.job_number version_conflict;
        wakes = [];
        after = db;
        took = stale j found n;
        runs = ground (arith, found, r);
        sound = sound;
      }
      | Verdict.on_site_or_closed v n r ↦ record {
        outcome = kept e.id j.job_number illegal_transition;
        wakes = [];
        after = db;
        took = on_site_or_closed j found v n;
        runs = ground (arith, found, r);
        sound = sound;
      }
      | Verdict.assignable v a r ↦
          let (c, known) = sound.customer_known e.id j found in
          let card = new_card env actor e.id chosen e.if_match source db j c in
          record {
            outcome = given e.id j.job_number card;
            wakes = wake_of e.id j chosen card ∷ [];
            after = assigned_db env actor e.id chosen e.if_match source db j;
            took = handed_over j c found v a;
            runs = ground (
              arith,
              found,
              r,
              give_job_lem env actor e.id chosen e.if_match source db j c office found a
                  (sound.coherent e.id j found) known,
            );
            sound = assigned_db-IsSound env actor e.id chosen e.if_match source db j sound found a;
          }
    ]
  ]

  -- A loop that ran to its end.
  record Ran (l : List BulkEntry) (db : Db) : Type 0 where
    outcomes : Table BulkAssignOutcome
    wakes : List AssignmentPush
    after : Db
    turns : Turns l db outcomes wakes after
    runs : bulk_loop env actor chosen source l db ≡ (ok (outcomes, wakes), after)
    sound : IsSound after

  run_loop : (l : List BulkEntry) (db : Db) → in_office actor.role ≡ true → IsSound db → Ran l db
  unfolding bulk_loop
  run_loop [] db office sound = record {
    outcomes = [];
    wakes = [];
    after = db;
    turns = no_more;
    runs = refl;
    sound = sound;
  }
  run_loop (e ∷ l) db office sound =
      let t = take_turn e db office sound in
      let r = run_loop l t.after office t.sound in
      record {
        outcomes = set_before e.id t.outcome r.outcomes;
        wakes = t.wakes ++ r.wakes;
        after = r.after;
        turns = turn t.took r.turns;
        runs = ground (arith, t.runs, r.runs);
        sound = r.sound;
      }

  module _ (entries : List BulkEntry) (db : Db) where
    abbrev pub bulk_answer : Result (List (Option BulkAssignOutcome) × List AssignmentPush) × Db
    bulk_answer = bulk_assign env actor entries chosen source db

    -- How a request can end.
    pub data BulkOutcome : Type 0 where
      not_office :
          (actor.role ≡ technician) ⊎ (actor.role ≡ sales_rep)
          → bulk_answer ≡ (err (app forbidden), db)
          → BulkOutcome
      no_technician :
          (actor.role ≡ owner) ⊎ (actor.role ≡ dispatcher)
          → find_active_technician chosen db ≡ none
          → bulk_answer ≡ (err (app validation_failed), db)
          → BulkOutcome
      ran :
          (who : Employee) (t : Table BulkAssignOutcome) (w : List AssignmentPush) (db' : Db)
          → (actor.role ≡ owner) ⊎ (actor.role ≡ dispatcher)
          → find_active_technician chosen db ≡ some who
          → Turns (lock_order entries) db t w db'
          → bulk_answer ≡ (ok (map (outcome_for t) entries, w), db')
          → IsSound db'
          → BulkOutcome

    -- In a sound database a bulk assignment answers FORBIDDEN outside the office and
    -- VALIDATION_FAILED for nobody who is an active technician, both with the database as it was,
    -- or it takes one turn for each entry in lock order, each of which refuses its job with
    -- NOT_FOUND, VERSION_CONFLICT or ILLEGAL_TRANSITION and changes nothing, or assigns it; it
    -- answers with the outcomes in the order of the entries and leaves the database sound.
    pub bulk_assign-BulkOutcome : IsSound db → BulkOutcome
    unfolding bulk_assign with_transaction
    bulk_assign-BulkOutcome sound = elim (Bool-cases (in_office actor.role)) [
      | inr field ↦ not_office (ground arith) (ground arith)
      | inl office ↦ elim (Option-cases (find_active_technician chosen db)) [
        | inl gone ↦ no_technician (ground arith) gone (ground arith)
        | inr (e, te) ↦
            let r = run_loop (lock_order entries) db office sound in
            ran e r.outcomes r.wakes r.after (ground arith) te r.turns
              (ground (arith, office, te, r.runs)) r.sound
      ]
    ]

    -- A bulk assignment leaves a sound database sound.
    pub bulk_assign-IsSound : IsSound db → IsSound bulk_answer.1
    bulk_assign-IsSound sound = elim (bulk_assign-BulkOutcome sound) [
      | BulkOutcome.not_office _ p ↦ rw p sound
      | BulkOutcome.no_technician _ _ p ↦ rw p sound
      | BulkOutcome.ran _ _ _ _ _ _ _ p h ↦ rw p h
    ]
