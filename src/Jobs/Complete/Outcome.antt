-- ===== src/Jobs/Complete/Outcome.antt =====
-- What a completion answers, on every branch, and what it writes.
use serv_grid.Common.{
  ℕ, suc, ◌≡◌, ◌≢◌, refl, ◌∙◌, ap, ◌⊎◌, inl, inr, true, false, none, some, List, [], ◌∷◌, Text,
  arith, lookup, Option-cases, Bool-cases, All,
}
use serv_grid.Shared.Errors.{
  forbidden, not_found, out_of_scope, illegal_transition, job_already_closed, validation_failed,
}
use serv_grid.Shared.Permissions.{owner, dispatcher, technician, sales_rep}
use serv_grid.Shared.Status.{unassigned}
use serv_grid.Store.Rows.{JobCard, Customer, Service}
use serv_grid.Store.Events.{Source}
use serv_grid.Store.Db.{Db}
use serv_grid.Store.Tx.{
  Result, ok, err, app, Failure, with_transaction, map_db_refusal, mapping_refusals_ok,
}
use serv_grid.Store.Steps.{went, refused}
use serv_grid.Api.Clock.{Env}
use serv_grid.Jobs.Repo.{lock_job, is_closed, is_unassigned, touched}
use serv_grid.Jobs.Cards.{Actor, Card, project}
use serv_grid.Jobs.Rules.{in_field, out_of_reach}
use serv_grid.Jobs.Lookups.{find_active_service}
use serv_grid.Jobs.Sound.{IsSound, find_card_lem, lookup-update_self}
use serv_grid.Jobs.Amend.Outcome.{figures_ok}
use serv_grid.Jobs.Complete.{
  CompletionInput, complete_job, complete_body, completion_row, find_services, distinct_ids,
}
use serv_grid.Jobs.Complete.Body.{
  Filed, LinesWhy, closed, closed-IsCoherent, open-no_completion, complete_body-Ran,
  complete_body_err, stamp,
}

-- Does the active catalogue have the service?
abbrev pub IsKnown : Db → ℕ → Type 0
IsKnown db k = (s : Service) × (find_active_service k db ≡ some s)

find_services-cases :
    (ids : List ℕ) (db : Db)
    → All (IsKnown db) ids × ((l : List (ℕ × Service)) × (find_services ids db ≡ (ok l, db)))
      ⊎ ¬ All (IsKnown db) ids × (find_services ids db ≡ (err (app validation_failed), db))
unfolding find_services
find_services-cases [] db = inl (tt, ([], refl))
find_services-cases (k ∷ l) db = elim (Option-cases (find_active_service k db)) [
  | inl n ↦ inr (λ h. ground (arith, n, h.0.1), ground (arith, n))
  | inr (s, e) ↦ elim (find_services-cases l db) [
    | inl (known, (rest, q)) ↦ inl (((s, e), known), ((k, s) ∷ rest, ground (arith, e, q)))
    | inr (n, q) ↦ inr (λ h. n h.1, ground (arith, e, q))
  ]
]

module _ (lower : Text → Text) (env : Env) (actor : Actor) (id : ℕ) (input : CompletionInput)
    (source : Source) (db : Db) where
  abbrev pub complete_answer : Result Card × Db
  complete_answer = complete_job lower env actor id input source db

  abbrev pub AllKnown : Type 0
  AllKnown = All (IsKnown db) (distinct_ids input.service_ids)

  -- The actor may complete the job, and every service is in the catalogue.
  pub record Admitted (j : JobCard) : Type 0 where
    pub found : lookup id db.job_cards ≡ some j
    pub services : AllKnown
    pub in_scope :
        (actor.role ≡ owner) ⊎ (actor.role ≡ technician) × (j.assigned_to ≡ some actor.id)

  -- How a completion can end.
  pub data CompleteOutcome : Type 0 where
    not_field :
        (actor.role ≡ dispatcher) ⊎ (actor.role ≡ sales_rep)
        → complete_answer ≡ (err (app forbidden), db)
        → CompleteOutcome
    unknown_service :
        (actor.role ≡ owner) ⊎ (actor.role ≡ technician)
        → ¬ AllKnown
        → complete_answer ≡ (err (app validation_failed), db)
        → CompleteOutcome
    no_job :
        (actor.role ≡ owner) ⊎ (actor.role ≡ technician)
        → AllKnown
        → lookup id db.job_cards ≡ none
        → complete_answer ≡ (err (app not_found), db)
        → CompleteOutcome
    stranger :
        (j : JobCard)
        → AllKnown
        → lookup id db.job_cards ≡ some j
        → actor.role ≡ technician
        → j.assigned_to ≢ some actor.id
        → complete_answer ≡ (err (app out_of_scope), db)
        → CompleteOutcome
    already_closed :
        (j : JobCard)
        → Admitted j
        → is_closed j.status ≡ true
        → complete_answer ≡ (err (app job_already_closed), db)
        → CompleteOutcome
    nobody_on_site :
        (j : JobCard)
        → Admitted j
        → j.status ≡ unassigned
        → complete_answer ≡ (err (app illegal_transition), db)
        → CompleteOutcome
    bad_figures :
        (j : JobCard)
        → Admitted j
        → figures_ok (completion_row env actor input) ≡ false
        → complete_answer ≡ (err (app validation_failed), db)
        → CompleteOutcome
    lines_refused :
        (j : JobCard)
        → Admitted j
        → is_closed j.status ≡ false
        → is_unassigned j.status ≡ false
        → figures_ok (completion_row env actor input) ≡ true
        → (f : Failure) → LinesWhy lower env actor id input source j db f
        → complete_answer ≡ (err f, db)
        → CompleteOutcome
    filed :
        (j : JobCard) (c : Customer) (services : List (ℕ × Service)) (db' : Db)
        → Admitted j
        → find_services (distinct_ids input.service_ids) db ≡ (ok services, db)
        → is_closed j.status ≡ false
        → is_unassigned j.status ≡ false
        → figures_ok (completion_row env actor input) ≡ true
        → Filed lower env actor id input source j db services db'
        → complete_answer ≡ (
          ok (
              project env actor.role id db'
                (record (closed (stamp env input) j) { version = suc j.version }, c)),
          db',
        )
        → CompleteOutcome

  admit :
      (j : JobCard)
      → lookup id db.job_cards ≡ some j
      → AllKnown
      → in_field actor.role ≡ true
      → out_of_reach actor j ≡ false
      → Admitted j
  admit j e s f o = record { found = e; services = s; in_scope = ground arith }

  unfiled :
      (j : JobCard) (services : List (ℕ × Service)) (e : Failure) (db' : Db)
      → in_field actor.role ≡ true
      → find_services (distinct_ids input.service_ids) db ≡ (ok services, db)
      → lookup id db.job_cards ≡ some j
      → out_of_reach actor j ≡ false
      → is_closed j.status ≡ false
      → is_unassigned j.status ≡ false
      → complete_body lower env actor id input source j services db ≡ (err e, db')
      → complete_answer ≡ (err (map_db_refusal e), db)
  unfolding complete_job with_transaction lock_job
  unfiled j services e db' f s l r c u b = ground (arith, f, s, l, r, c, u, b)

  Filed-ok :
      (j : JobCard) (c : Customer) (services : List (ℕ × Service)) (db' : Db)
      → in_field actor.role ≡ true
      → find_services (distinct_ids input.service_ids) db ≡ (ok services, db)
      → lookup id db.job_cards ≡ some j
      → lookup j.customer_id db.customers ≡ some c
      → out_of_reach actor j ≡ false
      → is_closed j.status ≡ false
      → is_unassigned j.status ≡ false
      → complete_body lower env actor id input source j services db ≡ (ok tt, db')
      → Filed lower env actor id input source j db services db'
      → (d : Customer) × (complete_answer ≡ (
        ok (
            project env actor.role id db'
              (record (closed (stamp env input) j) { version = suc j.version }, d)),
        db',
      ))
  unfolding complete_job with_transaction lock_job
  Filed-ok j c services db' f s l k r o u b h =
      let (d, known) = h.customers j.customer_id c k in
      let row = record (closed (stamp env input) j) { version = suc j.version } in
      let there : lookup id db'.job_cards ≡ some row =
        ap (lookup id) h.cards
        ∙ lookup-update_self id (touched (closed (stamp env input))) j db l in
      (
        d,
        ground (
          arith,
          f,
          s,
          l,
          r,
          o,
          u,
          mapping_refusals_ok (complete_body lower env actor id input source j services) db b,
          find_card_lem env actor.role id row d db' there known,
        ),
      )

  open_job :
      (j : JobCard) (services : List (ℕ × Service))
      → IsSound db
      → in_field actor.role ≡ true
      → AllKnown
      → find_services (distinct_ids input.service_ids) db ≡ (ok services, db)
      → lookup id db.job_cards ≡ some j
      → out_of_reach actor j ≡ false
      → is_closed j.status ≡ false
      → is_unassigned j.status ≡ false
      → CompleteOutcome
  open_job j services sound f known s l r o u =
      let a = admit j l known f r in
      let row = completion_row env actor input in
      elim (Bool-cases (figures_ok row)) [
        | inr bad ↦
            let (e, b, m) = complete_body_err lower env actor id input source j db services bad in
            bad_figures j a bad (unfiled j services e db f s l r o u b ∙ ap (λ x. (err x, db)) m)
        | inl good ↦
            let (c, k) = sound.customer_known id j l in
            elim (complete_body-Ran lower env actor id input source j db services good
              (open-no_completion id j db sound l o) l
              (closed-IsCoherent j.status j (stamp env input) refl o u (sound.coherent id j l))) [
                | refused e db' b m ↦
                    lines_refused j a o u good (map_db_refusal e) m
                      (unfiled j services e db' f s l r o u b)
                | went db' b h ↦
                    let (d, q) = Filed-ok j c services db' f s l k r o u b h in
                    filed j d services db' a s o u good h q
              ]
      ]

  pub complete_job-CompleteOutcome : IsSound db → CompleteOutcome
  unfolding complete_job with_transaction lock_job
  complete_job-CompleteOutcome sound = elim (Bool-cases (in_field actor.role)) [
    | inr n ↦ not_field (ground arith) (ground arith)
    | inl f ↦ elim (find_services-cases (distinct_ids input.service_ids) db) [
      | inr (n, q) ↦ unknown_service (ground arith) n (ground (arith, q))
      | inl (known, (services, q)) ↦ elim (Option-cases (lookup id db.job_cards)) [
        | inl gone ↦ no_job (ground arith) known gone (ground (arith, q))
        | inr (j, e) ↦ elim (Bool-cases (out_of_reach actor j)) [
          | inl far ↦ stranger j known e (ground arith) (ground arith) (ground (arith, q))
          | inr near ↦ elim (Bool-cases (is_closed j.status)) [
            | inl c ↦ already_closed j (admit j e known f near) c (ground (arith, q))
            | inr o ↦ elim (Bool-cases (is_unassigned j.status)) [
              | inl u ↦
                  nobody_on_site j (admit j e known f near) (ground (arith, u)) (ground (arith, q))
              | inr u ↦ open_job j services sound f known q e near o u
            ]
          ]
        ]
      ]
    ]
  ]
