-- ===== src/Jobs/Complete/Body.antt =====
-- How the steps of a completion inside the `try` can end.
use serv_grid.Common.{
  ℕ, get_or, ◌≤◌, ◌≡◌, refl, sym, ◌∙◌, ap, All, inl, inr, true, false, none, some, List, [], ◌∷◌,
  ◌++◌, Text, arith, lookup, update, insert, Option-cases,
}
use serv_grid.Shared.Status.{
  JobStatus, unassigned, assigned, en_route, in_progress, completed, cancelled,
}
use serv_grid.Store.Rows.{none_owed, JobCard, JobCompletion, Customer, Service}
use serv_grid.Store.Events.{Source}
use serv_grid.Store.Db.{Db}
use serv_grid.Shared.Errors.{validation_failed}
use serv_grid.Store.Tx.{ok, err, app, Failure, map_db_refusal}
use serv_grid.Store.Steps.{Ran, went, refused}
use serv_grid.Api.Clock.{Env}
use serv_grid.Jobs.Repo.{
  touched, is_closed, is_unassigned, insert_completion, complete_job_card, insert_job_event,
}
use serv_grid.Jobs.Cards.{Actor}
use serv_grid.Jobs.Rules.{clamp_occurred_at}
use serv_grid.Jobs.Sound.{IsSound, IsCoherent, update_job_ok}
use serv_grid.Jobs.Amend.Outcome.{figures_ok, check_completion_ok, check_completion_err}
use serv_grid.Jobs.Complete.{
  CompletionInput, JobStackChange, completion_row, completion_event, complete_body, service_lines,
  part_lines, upserts, register_pin,
}
use serv_grid.Jobs.Complete.Stack.{insert_completion_services}
use serv_grid.Jobs.Complete.Faults.{
  UnitFault, PartFault, Cause, services_there, parts_there, bad_unit, bad_part,
}
use serv_grid.Jobs.Complete.Frame.{Agrees, Agrees-trans, with_lines}
use serv_grid.Jobs.Complete.Parts.{
  insert_completion_services-Ran, insert_completion_parts-Ran, register_pin-Ran,
}
use serv_grid.Jobs.Complete.Lines.{AllStand, apply_stack-Ran}

-- The card that the completion leaves.
abbrev pub closed : ℕ → JobCard → JobCard
closed at j = record j { status = completed; closed_at = some at }

pub closed-IsCoherent :
    (s : JobStatus) (j : JobCard) (at : ℕ)
    → j.status ≡ s
    → is_closed s ≡ false
    → is_unassigned s ≡ false
    → IsCoherent j
    → IsCoherent (closed at j)
closed-IsCoherent assigned j at e c u h = record { assignment = ground (arith, h); closing = refl }
closed-IsCoherent en_route j at e c u h = record { assignment = ground (arith, h); closing = refl }
closed-IsCoherent in_progress j at e c u h = record {
  assignment = ground (arith, h);
  closing = refl;
}
closed-IsCoherent unassigned j at e c u h = ground (arith, u)
closed-IsCoherent completed j at e c u h = ground (arith, c)
closed-IsCoherent cancelled j at e c u h = ground (arith, c)

-- A job that is open has no completion.
pub open-no_completion :
    (id : ℕ) (j : JobCard) (db : Db)
    → IsSound db
    → lookup id db.job_cards ≡ some j
    → is_closed j.status ≡ false
    → lookup id db.job_completions ≡ none
open-no_completion id j db sound e o = elim (Option-cases (lookup id db.job_completions)) [
  | inl n ↦ n
  | inr (c, k) ↦ let (i, f, st) = sound.completion_closed id c k in ground (arith, e, f, st, o)
]

pub insert_completion_ok :
    (id : ℕ) (c : JobCompletion) (db : Db)
    → figures_ok c ≡ true
    → lookup id db.job_completions ≡ none
    → insert_completion id c db
      ≡ (ok tt, record db { job_completions = insert id c db.job_completions })
unfolding insert_completion
insert_completion_ok id c db f n = ground (arith, n, check_completion_ok c db f)

abbrev pub stamp : Env → CompletionInput → ℕ
stamp env input = (clamp_occurred_at input.completed_at env.now).0

-- The completion as it was reported: by the actor, at the clamped instant, what was not sent at its
-- default.
abbrev pub report_row : Env → Actor → CompletionInput → JobCompletion
report_row env actor input = record {
  completed_by = actor.id;
  completed_at = stamp env input;
  work_summary = input.work_summary;
  cost = get_or input.cost 0;
  discount_amount = get_or input.discount_amount 0;
  discount_reason = input.discount_reason;
  collection_mode = get_or input.collection_mode none_owed;
  payment_reference = input.payment_reference;
  customer_signed = get_or input.customer_signed false;
  latitude = input.latitude;
  longitude = input.longitude;
  version = 1;
}

completion_row-report :
    (env : Env) (actor : Actor) (input : CompletionInput)
    → completion_row env actor input ≡ report_row env actor input
unfolding completion_row
completion_row-report env actor input = refl

module _ (lower : Text → Text) (env : Env) (actor : Actor) (id : ℕ) (input : CompletionInput)
    (source : Source) (job : JobCard) (db : Db) where
  -- What a completion that went through has written.
  pub record Filed (services : List (ℕ × Service)) (db' : Db) : Type 0 where
    pub cards : db'.job_cards ≡ update id (touched (closed (stamp env input))) db.job_cards
    pub completions :
        db'.job_completions ≡ insert id (report_row env actor input) db.job_completions
    pub cancellations : db'.job_cancellations ≡ db.job_cancellations
    pub events :
        db'.job_events
        ≡ db.job_events ++ (completion_event env actor id job.status input source ∷ [])
    pub products : db'.products ≡ db.products
    pub next : db.next_id ≤ db'.next_id
    pub customers :
        (i : ℕ) (c : Customer)
        → lookup i db.customers ≡ some c
        → (c' : Customer) × (lookup i db'.customers ≡ some c')
    pub units :
        AllStand lower
          (upserts actor id job (stamp env input) input.stack_changes)
          db'.customer_products
    pub units_fine :
        All
          (λ s. ¬ UnitFault db.products s)
          (upserts actor id job (stamp env input) input.stack_changes)
    pub parts_fine : All (λ p. ¬ PartFault db.products p) (part_lines 0 input.parts)
    pub service_rows :
        db'.completion_services ≡ with_lines id (service_lines 0 services) db.completion_services
    pub part_rows :
        db'.completion_parts ≡ with_lines id (part_lines 0 input.parts) db.completion_parts

  abbrev with_completion : Db
  with_completion = record db {
    job_completions = insert id (completion_row env actor input) db.job_completions;
  }

  abbrev with_closure : Db → Db
  with_closure mid = record mid {
    job_cards = update id (touched (closed (stamp env input))) mid.job_cards;
    job_events = mid.job_events ++ (completion_event env actor id job.status input source ∷ []);
  }

  -- Why the lines and units of the request are refused.
  abbrev pub LinesWhy : Failure → Type 0
  LinesWhy =
      Cause lower id job.customer_id (upserts actor id job (stamp env input) input.stack_changes)
        (part_lines 0 input.parts) db

  Filed-of :
      (services : List (ℕ × Service)) (mid db' : Db)
      → Agrees with_completion mid
      → Agrees (with_closure mid) db'
      → AllStand lower
          (upserts actor id job (stamp env input) input.stack_changes)
          db'.customer_products
      → All
          (λ s. ¬ UnitFault db.products s)
          (upserts actor id job (stamp env input) input.stack_changes)
      → All (λ p. ¬ PartFault db.products p) (part_lines 0 input.parts)
      → db'.completion_services ≡ with_lines id (service_lines 0 services) db.completion_services
      → db'.completion_parts ≡ with_lines id (part_lines 0 input.parts) db.completion_parts
      → Filed services db'
  Filed-of services mid db' p q s uf pf sl pl = record {
    cards = q.cards ∙ ap (update id (touched (closed (stamp env input)))) p.cards;
    completions =
        q.completions
        ∙ (p.completions
            ∙ ap (λ c. insert id c db.job_completions) (completion_row-report env actor input));
    cancellations = q.cancellations ∙ p.cancellations;
    events =
        q.events
        ∙ ap (λ l. l ++ (completion_event env actor id job.status input source ∷ [])) p.events;
    products = q.products ∙ p.products;
    next = omega (arith, p.next, q.next);
    customers = λ i c e. let (d, f) = p.customers i c e in q.customers i d f;
    units = s;
    units_fine = uf;
    parts_fine = pf;
    service_rows = sl;
    part_rows = pl;
  }

  close_ok :
      (mid : Db)
      → lookup id mid.job_cards ≡ some job
      → IsCoherent (closed (stamp env input) job)
      → complete_job_card id (stamp env input) mid ≡ (
        ok tt,
        record mid { job_cards = update id (touched (closed (stamp env input))) mid.job_cards },
      )
  unfolding complete_job_card
  close_ok mid e h = update_job_ok id (closed (stamp env input)) job mid e h

  upserts-customer :
      (at : ℕ) (l : List JobStackChange)
      → All (λ s. s.customer_id ≡ job.customer_id) (upserts actor id job at l)
  unfolding upserts
  upserts-customer at [] = tt
  upserts-customer at (c ∷ l) = (refl, upserts-customer at l)

  after_close :
      (services : List (ℕ × Service)) (mid : Db)
      → Agrees with_completion mid
      → figures_ok (completion_row env actor input) ≡ true
      → lookup id db.job_completions ≡ none
      → lookup id db.job_cards ≡ some job
      → IsCoherent (closed (stamp env input) job)
      → (x : Db)
      → insert_completion_services id (service_lines 0 services) with_completion ≡ (ok tt, x)
      → register_pin job.customer_id input.latitude input.longitude x ≡ (ok tt, mid)
      → mid.customer_products ≡ db.customer_products
      → mid.completion_services ≡ with_lines id (service_lines 0 services) db.completion_services
      → mid.completion_parts ≡ db.completion_parts
      → Ran
          (complete_body lower env actor id input source job services db)
          LinesWhy
          (Filed services)
  unfolding complete_body insert_job_event
  after_close services mid p f n e c x q r cp sl pl =
      let closed_ok = close_ok mid (ap (lookup id) p.cards ∙ e) c in
      let entered = insert_completion_ok id (completion_row env actor input) db f n in
      elim (apply_stack-Ran lower job.customer_id
        (upserts actor id job (stamp env input) input.stack_changes) (with_closure mid)
        (upserts-customer (stamp env input) input.stack_changes)) [
          | refused w db' s (t, a) ↦
              refused w db' (ground (arith, entered, q, r, closed_ok, s))
                (rw t (bad_unit (rw (p.products, cp) at a)))
          | went stacked s t ↦
              elim (insert_completion_parts-Ran id (part_lines 0 input.parts) stacked) [
                | refused w db' u (inl (v, a)) ↦
                    refused w db' (ground (arith, entered, q, r, closed_ok, s, u))
                      (rw v (bad_part (rw (t.frame.products, p.products) at a)))
                | refused w db' u (inr (v, (l, a))) ↦
                    refused w db' (ground (arith, entered, q, r, closed_ok, s, u))
                      (rw v (parts_there l (sym (ap (lookup id) (t.lines.parts ∙ pl)) ∙ a)))
                | went db' u (v, same, ks, kp, pf) ↦
                    went db' (ground (arith, entered, q, r, closed_ok, s, u)) (
                      Filed-of services mid db' p
                        (Agrees-trans (with_closure mid) stacked db' t.frame v) (rw same t.named)
                        (rw p.products at t.fine) (rw (t.frame.products, p.products) at pf)
                        (ks ∙ t.lines.services ∙ sl)
                        (kp ∙ ap (with_lines id (part_lines 0 input.parts)) (t.lines.parts ∙ pl)))
              ]
        ]

  -- Steps 2 to 6 of a completion of an open job in the field, its figures within the CHECKs.
  pub complete_body-Ran :
      (services : List (ℕ × Service))
      → figures_ok (completion_row env actor input) ≡ true
      → lookup id db.job_completions ≡ none
      → lookup id db.job_cards ≡ some job
      → IsCoherent (closed (stamp env input) job)
      → Ran
          (complete_body lower env actor id input source job services db)
          LinesWhy
          (Filed services)
  unfolding complete_body
  complete_body-Ran services f n e c =
      let entered = insert_completion_ok id (completion_row env actor input) db f n in
      elim (insert_completion_services-Ran id (service_lines 0 services) with_completion) [
        | refused w db' q (t, (l, a)) ↦
            refused w db' (ground (arith, entered, q)) (rw t (services_there l a))
        | went x q (p, cp, sl, pl) ↦
            elim (register_pin-Ran job.customer_id input.latitude input.longitude x) [
              | refused w db' r t ↦ absurd t
              | went mid r (a, k) ↦
                  after_close services mid (Agrees-trans with_completion x mid p a) f n e c x q r
                    (k.units ∙ cp) (k.services ∙ sl) (k.parts ∙ pl)
            ]
      ]

  -- The CHECKs of job_completions refuse the figures.
  pub complete_body_err :
      (services : List (ℕ × Service))
      → figures_ok (completion_row env actor input) ≡ false
      → (e : Failure) × (complete_body lower env actor id input source job services db
          ≡ (err e, db))
        × (map_db_refusal e ≡ app validation_failed)
  unfolding complete_body insert_completion
  complete_body_err services f =
      let (e, q, r) = check_completion_err (completion_row env actor input) db f in
      (e, ground (arith, q), r)
