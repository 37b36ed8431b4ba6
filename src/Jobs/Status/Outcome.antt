-- ===== src/Jobs/Status/Outcome.antt =====
-- What a status request answers, on every branch, and what it writes.
use serv_grid.Common.{
  ℕ, suc, ◌≡◌, ◌≢◌, refl, ◌⊎◌, inl, inr, Bool, true, false, not, ◌||◌, none, some, ◌++◌, [], ◌∷◌,
  arith, lookup, update, Option-cases, Bool-cases,
}
use serv_grid.Shared.Errors.{forbidden, not_found, out_of_scope, illegal_transition}
use serv_grid.Shared.Permissions.{owner, dispatcher, technician, sales_rep}
use serv_grid.Shared.Status.{JobStatus, assigned, en_route, in_progress, can_transition}
use serv_grid.Store.Rows.{JobCard, Customer}
use serv_grid.Store.Events.{Source}
use serv_grid.Store.Db.{Db}
use serv_grid.Store.Tx.{Result, ok, err, app, with_transaction}
use serv_grid.Api.Clock.{Env}
use serv_grid.Jobs.Repo.{touched}
use serv_grid.Jobs.Cards.{Actor, Card, project}
use serv_grid.Jobs.Rules.{in_field, out_of_reach, some_move, status_moves}
use serv_grid.Jobs.Sound.{
  IsSound, IsCoherent, update_job_status_ok, lookup-update_self, find_card_lem,
}
use serv_grid.Jobs.Status.{change_status, status_event}

-- The stepper's moves.
abbrev pub Step : JobStatus → JobStatus → Type 0
Step assigned en_route = Unit
Step assigned in_progress = Unit
Step en_route in_progress = Unit
Step _ _ = ⊥

refused : JobStatus → JobStatus → Bool
unfolding can_transition
refused s t = not (some_move status_moves s t) || not (can_transition s t)

Step-cases :
    (s t : JobStatus) → Step s t × (refused s t ≡ false) ⊎ ¬ Step s t × (refused s t ≡ true)
unfolding refused
Step-cases assigned en_route = inl (tt, refl)
Step-cases assigned in_progress = inl (tt, refl)
Step-cases en_route in_progress = inl (tt, refl)
Step-cases _ _ = inr (λ h. h, refl)

-- A step leaves from and arrives at an open, assigned status.
pub Step-IsCoherent :
    (s t : JobStatus) (j : JobCard)
    → Step s t
    → j.status ≡ s
    → IsCoherent j
    → IsCoherent (record j { status = t })
Step-IsCoherent assigned en_route j h e c = record {
  assignment = ground (arith, c);
  closing = ground (arith, c);
}
Step-IsCoherent assigned in_progress j h e c = record {
  assignment = ground (arith, c);
  closing = ground (arith, c);
}
Step-IsCoherent en_route in_progress j h e c = record {
  assignment = ground (arith, c);
  closing = ground (arith, c);
}
Step-IsCoherent _ _ j h e c = absurd h

module _ (env : Env) (actor : Actor) (id : ℕ) (to : JobStatus) (at : ℕ) (source : Source)
    (db : Db) where
  -- The row is there and the actor may reach it.
  pub record Reached (j : JobCard) : Type 0 where
    pub found : lookup id db.job_cards ≡ some j
    pub in_scope :
        (actor.role ≡ owner) ⊎ (actor.role ≡ technician) × (j.assigned_to ≡ some actor.id)

  -- The database after the move: the row's status and version, and one event.
  abbrev pub moved : JobCard → Db
  moved j = record db {
    job_cards = update id (touched (λ r. record r { status = to })) db.job_cards;
    job_events = db.job_events ++ (status_event env actor id j.status to at source ∷ []);
  }

  abbrev pub answer : Result Card × Db
  answer = change_status env actor id to at source db

  -- How a request can end.
  pub data Outcome : Type 0 where
    not_field :
        (actor.role ≡ dispatcher) ⊎ (actor.role ≡ sales_rep)
        → answer ≡ (err (app forbidden), db)
        → Outcome
    missing : lookup id db.job_cards ≡ none → answer ≡ (err (app not_found), db) → Outcome
    stranger :
        (j : JobCard)
        → lookup id db.job_cards ≡ some j
        → actor.role ≡ technician
        → j.assigned_to ≢ some actor.id
        → answer ≡ (err (app out_of_scope), db)
        → Outcome
    illegal :
        (j : JobCard)
        → Reached j
        → ¬ Step j.status to
        → answer ≡ (err (app illegal_transition), db)
        → Outcome
    done :
        (j : JobCard) (c : Customer)
        → Reached j
        → Step j.status to
        → answer ≡ (
          ok (
              project env actor.role id
                (moved j)
                (record j { status = to; version = suc j.version }, c)),
          moved j,
        )
        → Outcome

  accepted :
      (j : JobCard) (c : Customer)
      → Reached j
      → refused j.status to ≡ false
      → IsCoherent (record j { status = to })
      → lookup j.customer_id db.customers ≡ some c
      → answer ≡ (
        ok (
            project env actor.role id
              (moved j)
              (record j { status = to; version = suc j.version }, c)),
        moved j,
      )
  unfolding change_status refused with_transaction
  accepted j c h a k e = ground (
    arith,
    h,
    update_job_status_ok id to j db,
    find_card_lem env actor.role id (record j { status = to; version = suc j.version }) c (moved j),
    lookup-update_self id (touched (λ r. record r { status = to })) j db,
  )

  in_reach :
      (j : JobCard)
      → lookup id db.job_cards ≡ some j
      → in_field actor.role ≡ true
      → out_of_reach actor j ≡ false
      → Reached j
  in_reach j e f o = record { found = e; in_scope = ground arith }

  -- In a sound database a status request ends in one of the five ways of Outcome: FORBIDDEN for
  -- a role outside the field, NOT_FOUND, OUT_OF_SCOPE for another technician's job,
  -- ILLEGAL_TRANSITION for a move that the stepper does not carry, each with the database as it
  -- was, or the move with its event and the card.
  pub change_status-Outcome : IsSound db → Outcome
  unfolding change_status refused with_transaction
  change_status-Outcome sound = elim (Bool-cases (in_field actor.role)) [
    | inr office ↦ not_field (ground arith) (ground arith)
    | inl field ↦ elim (Option-cases (lookup id db.job_cards)) [
      | inl gone ↦ missing gone (ground arith)
      | inr (j, e) ↦ elim (Bool-cases (out_of_reach actor j)) [
        | inl far ↦ stranger j e (ground arith) (ground arith) (ground arith)
        | inr near ↦ elim (Step-cases j.status to) [
          | inr (n, r) ↦ illegal j (in_reach j e field near) n (ground arith)
          | inl (st, a) ↦
              let (c, k) = sound.customer_known id j e in
              done j c (in_reach j e field near) st (
                accepted j c (in_reach j e field near) a
                  (Step-IsCoherent j.status to j st refl (sound.coherent id j e)) k)
        ]
      ]
    ]
  ]
