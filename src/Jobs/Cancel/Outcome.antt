-- ===== src/Jobs/Cancel/Outcome.antt =====
-- What a cancel request answers, on every branch, what it writes and whom it wakes.
use serv_grid.Common.{
  ℕ, suc, ◌≡◌, ◌≢◌, refl, ◌⊎◌, inl, inr, Bool, true, false, not, ◌&&◌, Option, none, some, List,
  ◌++◌, [], ◌∷◌, arith, lookup, update, insert, Option-cases, Bool-cases, Text, is_none,
}
use serv_grid.Shared.Errors.{
  forbidden, not_found, out_of_scope, job_already_closed, validation_failed, duplicate_entity,
}
use serv_grid.Shared.Permissions.{technician, sales_rep}
use serv_grid.Shared.Status.{unassigned, cancelled}
use serv_grid.Store.Rows.{JobCard, Customer}
use serv_grid.Store.Events.{Source}
use serv_grid.Store.Db.{Db}
use serv_grid.Store.Tx.{
  Result, ok, err, app, pg, with_transaction, map_db_refusal, mapping_refusals_ok, unique_violation,
  job_cards_job_number_unique,
}
use serv_grid.Api.Clock.{Env}
use serv_grid.Jobs.Repo.{
  lock_job, is_closed, is_other, cancel_job_card, insert_cancellation, touched, update_job,
}
use serv_grid.Jobs.Cards.{Actor, Card, project, is_sales_rep, read_back_card}
use serv_grid.Jobs.Rules.{out_of_reach}
use serv_grid.Jobs.Lookups.{AssignmentPush}
use serv_grid.Jobs.Sound.{
  IsSound, IsCoherent, update_job_ok, lookup-update_self, read_back_card_lem,
}
use serv_grid.Jobs.Cancel.{
  CancelInput, cancel_job, cancel_body, cancel_event, cancellation_row, cancel_wake,
  raise_successor,
}
use serv_grid.Jobs.Cancel.Successor.{
  IsAhead, IsNextNumber, IsTaken, IsFree, successor_id, raised, raise_successor_lem, lookup-raised,
  customers-raised, job_cancellations-raised,
}
use serv_grid.Jobs.Cancel.Cases.{
  Cancellable, Closed, Closed-cases, Cancellable-IsCoherent, no_row, rep_of, IsAhead-cases,
}

module _ (env : Env) (actor : Actor) (id : ℕ) (input : CancelInput) (source : Source)
    (db : Db) where
  abbrev pub cancel_answer : Result (Card × List AssignmentPush) × Db
  cancel_answer = cancel_job env actor id input source db

  -- The row is there, and a technician has it himself.
  pub record InReach (j : JobCard) : Type 0 where
    pub found : lookup id db.job_cards ≡ some j
    pub near : out_of_reach actor j ≡ false

  -- `other` comes with a note.
  abbrev pub is_justified : Bool
  is_justified = not (is_other input.reason_code && is_none input.reason_note)

  abbrev close_it : JobCard → JobCard
  close_it j = record j { status = cancelled; closed_at = some env.now }

  abbrev successor : Option ℕ
  successor = successor_id input.reschedule_to db

  -- After the successor was raised: the row, the cancellation and the event.
  abbrev pub cancelled_db : JobCard → Text → Db
  cancelled_db j n =
      let db' = raised env actor id j source input.reschedule_to n db in
      record db' {
        job_cards = update id (touched close_it) db'.job_cards;
        job_cancellations =
            insert id
              (record {
                cancelled_by = actor.id;
                cancelled_at = env.now;
                reason_code = input.reason_code;
                reason_note = input.reason_note;
                replacement_job_id = successor;
              })
              db'.job_cancellations;
        job_events = db'.job_events ++ (cancel_event env actor id j input successor source ∷ []);
      }

  abbrev pub cancelled_card : JobCard → Customer → Text → Card
  cancelled_card j c n =
      project env actor.role id (cancelled_db j n)
        (record j { status = cancelled; closed_at = some env.now; version = suc j.version }, c)

  -- How a request can end.
  pub data CancelOutcome : Type 0 where
    no_job :
        lookup id db.job_cards ≡ none → cancel_answer ≡ (err (app not_found), db) → CancelOutcome
    stranger :
        (j : JobCard)
        → lookup id db.job_cards ≡ some j
        → actor.role ≡ technician
        → j.assigned_to ≢ some actor.id
        → cancel_answer ≡ (err (app out_of_scope), db)
        → CancelOutcome
    already_closed :
        (j : JobCard)
        → InReach j
        → Closed j.status
        → cancel_answer ≡ (err (app job_already_closed), db)
        → CancelOutcome
    day_gone :
        (j : JobCard)
        → InReach j
        → ¬ IsAhead env input.reschedule_to
        → cancel_answer ≡ (err (app validation_failed), db)
        → CancelOutcome
    unjustified :
        (j : JobCard)
        → InReach j
        → is_justified ≡ false
        → cancel_answer ≡ (err (app validation_failed), db)
        → CancelOutcome
    number_in_use :
        (j : JobCard) (n : Text)
        → InReach j
        → is_closed j.status ≡ false
        → IsAhead env input.reschedule_to
        → IsNextNumber env input.reschedule_to n db
        → IsTaken input.reschedule_to n db
        → cancel_answer ≡ (err (app duplicate_entity), db)
        → CancelOutcome
    nobody_has_it :
        (j : JobCard)
        → InReach j
        → j.status ≡ unassigned
        → cancel_answer ≡ (err (app validation_failed), db)
        → CancelOutcome
    no_card : actor.role ≡ sales_rep → cancel_answer ≡ (err (app forbidden), db) → CancelOutcome
    called_off :
        (j : JobCard) (c : Customer) (n : Text)
        → InReach j
        → Cancellable j.status
        → IsAhead env input.reschedule_to
        → is_justified ≡ true
        → IsNextNumber env input.reschedule_to n db
        → IsFree input.reschedule_to n db
        → actor.role ≢ sales_rep
        → cancel_answer
          ≡ (ok (cancelled_card j c n, cancel_wake id j j.assigned_to), cancelled_db j n)
        → CancelOutcome

  body_lem :
      (j : JobCard) (n : Text)
      → InReach j
      → is_closed j.status ≡ false
      → IsCoherent (close_it j)
      → is_justified ≡ true
      → lookup id db.job_cancellations ≡ none
      → raise_successor env actor id j source input.reschedule_to db
        ≡ (ok successor, raised env actor id j source input.reschedule_to n db)
      → cancel_body env actor id input source db
        ≡ (ok (cancel_wake id j j.assigned_to), cancelled_db j n)
  unfolding cancel_body lock_job insert_cancellation cancel_job_card
  body_lem j n h o k u e r =
      let db' = raised env actor id j source input.reschedule_to n db in
      ground (
        arith,
        h.found,
        h.near,
        r,
        update_job_ok id close_it j
            (record db' {
              job_cancellations =
                  insert id (cancellation_row env actor input successor) db'.job_cancellations;
            })
            (lookup-raised env actor id j source input.reschedule_to n db id j h.found) k,
        job_cancellations-raised env actor id j source input.reschedule_to n db,
      )

  refusal_lem :
      (j : JobCard) (n : Text)
      → InReach j
      → is_closed j.status ≡ false
      → lookup id db.job_cancellations ≡ none
      → raise_successor env actor id j source input.reschedule_to db
        ≡ (ok successor, raised env actor id j source input.reschedule_to n db)
      → (is_justified ≡ false) ⊎ (j.status ≡ unassigned) × (j.assigned_to ≡ none)
      → cancel_answer ≡ (err (app validation_failed), db)
  unfolding cancel_job with_transaction cancel_body lock_job insert_cancellation cancel_job_card
      update_job map_db_refusal
  refusal_lem j n h o u r (inl k) = ground (
    arith,
    h.found,
    h.near,
    r,
    k,
    job_cancellations-raised env actor id j source input.reschedule_to n db,
  )
  refusal_lem j n h o u r (inr (st, a)) = elim (Bool-cases is_justified) [
    | inr k ↦ ground (
      arith,
      h.found,
      h.near,
      r,
      k,
      job_cancellations-raised env actor id j source input.reschedule_to n db,
    )
    | inl k ↦ ground (
      arith,
      h.found,
      h.near,
      r,
      k,
      lookup-raised env actor id j source input.reschedule_to n db id j h.found,
      job_cancellations-raised env actor id j source input.reschedule_to n db,
    )
  ]

  taken_lem :
      (j : JobCard) (mid : Db)
      → InReach j
      → is_closed j.status ≡ false
      → raise_successor env actor id j source input.reschedule_to db
        ≡ (err (pg unique_violation job_cards_job_number_unique), mid)
      → cancel_answer ≡ (err (app duplicate_entity), db)
  unfolding cancel_job with_transaction cancel_body lock_job map_db_refusal
  taken_lem j mid h o r = ground (arith, h.found, h.near, o, r)

  card_lem :
      (j : JobCard) (c : Customer) (n : Text)
      → InReach j
      → lookup j.customer_id db.customers ≡ some c
      → is_sales_rep actor.role ≡ false
      → cancel_body env actor id input source db
        ≡ (ok (cancel_wake id j j.assigned_to), cancelled_db j n)
      → cancel_answer
        ≡ (ok (cancelled_card j c n, cancel_wake id j j.assigned_to), cancelled_db j n)
  unfolding cancel_job with_transaction
  card_lem j c n h k f b =
      let db' = raised env actor id j source input.reschedule_to n db in
      let row = lookup-raised env actor id j source input.reschedule_to n db id j h.found in
      ground (
        arith,
        mapping_refusals_ok (cancel_body env actor id input source) db b,
        read_back_card_lem env actor id
            (record j { status = cancelled; closed_at = some env.now; version = suc j.version }) c
            (cancelled_db j n) f (lookup-update_self id (touched close_it) j db' row)
            (rw (customers-raised env actor id j source input.reschedule_to n db) k),
      )

  rep_lem :
      (j : JobCard) (n : Text)
      → actor.role ≡ sales_rep
      → cancel_body env actor id input source db
        ≡ (ok (cancel_wake id j j.assigned_to), cancelled_db j n)
      → cancel_answer ≡ (err (app forbidden), db)
  unfolding cancel_job with_transaction read_back_card
  rep_lem j n r b = ground (arith, mapping_refusals_ok (cancel_body env actor id input source) db b)

  -- A job in reach that is open, its successor raised.
  closing_lem :
      (j : JobCard) (n : Text)
      → IsSound db
      → InReach j
      → is_closed j.status ≡ false
      → (j.status ≡ unassigned) ⊎ Cancellable j.status
      → IsAhead env input.reschedule_to
      → IsNextNumber env input.reschedule_to n db
      → IsFree input.reschedule_to n db
      → raise_successor env actor id j source input.reschedule_to db
        ≡ (ok successor, raised env actor id j source input.reschedule_to n db)
      → CancelOutcome
  closing_lem j n sound h o st ahead num free r =
      let u = no_row db id j sound h.found o in
      let coherent = sound.coherent id j h.found in
      elim st [
        | inl q ↦
            nobody_has_it j h q
              (refusal_lem j n h o u r (inr (q, ground (arith, q, coherent.assignment))))
        | inr can ↦ elim (Bool-cases is_justified) [
          | inr k ↦ unjustified j h k (refusal_lem j n h o u r (inl k))
          | inl k ↦
              let (c, known) = sound.customer_known id j h.found in
              let b =
                body_lem j n h o (Cancellable-IsCoherent j.status j env.now can refl coherent) k u
                  r in
              elim (Bool-cases (is_sales_rep actor.role)) [
                | inl rep ↦ let r = rep_of actor.role rep in no_card r (rep_lem j n r b)
                | inr card ↦
                    called_off j c n h can ahead k num free (ground (arith, card))
                      (card_lem j c n h known card b)
              ]
        ]
      ]

  -- A job in reach that is open.
  open_lem :
      (j : JobCard)
      → IsSound db
      → InReach j
      → is_closed j.status ≡ false
      → (j.status ≡ unassigned) ⊎ Cancellable j.status
      → CancelOutcome
  unfolding cancel_job with_transaction cancel_body lock_job raise_successor map_db_refusal
  open_lem j sound h o st = elim (IsAhead-cases env input.reschedule_to) [
    | inr (gone, day, e, t) ↦ day_gone j h gone (ground (arith, h.found, h.near))
    | inl ahead ↦
        let (n, num, r) = raise_successor_lem env actor id j source input.reschedule_to db ahead in
        elim r [
          | inl (free, r) ↦ closing_lem j n sound h o st ahead num free r
          | inr (t, r) ↦ number_in_use j n h o ahead num t (taken_lem j _ h o r)
        ]
  ]

  pub cancel_job-CancelOutcome : IsSound db → CancelOutcome
  unfolding cancel_job with_transaction cancel_body lock_job map_db_refusal
  cancel_job-CancelOutcome sound = elim (Option-cases (lookup id db.job_cards)) [
    | inl gone ↦ no_job gone (ground arith)
    | inr (j, e) ↦ elim (Bool-cases (out_of_reach actor j)) [
      | inl far ↦ stranger j e (ground arith) (ground arith) (ground arith)
      | inr near ↦
          let h : InReach j = record { found = e; near = near } in
          elim (Closed-cases j.status) [
            | inl (k, o) ↦ already_closed j h k (ground arith)
            | inr (st, o) ↦ open_lem j sound h o st
          ]
    ]
  ]
