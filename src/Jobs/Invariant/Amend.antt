-- ===== src/Jobs/Invariant/Amend.antt =====
-- The amendment of a completion leaves a sound database sound.
use serv_grid.Common.{
  ℕ, ◌≡◌, sym, ap, ◌∙◌, some, arith, lookup, update, lookup-update, Option-cases, inl, inr,
  Bool-cases,
}
use serv_grid.Store.Rows.{JobCompletion}
use serv_grid.Store.Events.{Source}
use serv_grid.Store.Db.{Db}
use serv_grid.Api.Clock.{Env}
use serv_grid.Jobs.Cards.{Actor}
use serv_grid.Jobs.Sound.{IsSound}
use serv_grid.Jobs.Amend.{AmendInput, amend_completion, sets_nothing}
use serv_grid.Jobs.Amend.Outcome.{
  rewritten, AmendOutcome, amend_completion-AmendOutcome, amended_db,
}

-- A completion after the UPDATE has one before it.
before :
    (id i : ℕ) (f : JobCompletion → JobCompletion) (c : JobCompletion) (db : Db)
    → lookup i (update id f db.job_completions) ≡ some c
    → (o : JobCompletion) × (lookup i db.job_completions ≡ some o)
before id i f c db e = elim (Option-cases (lookup i db.job_completions)) [
  | inr found ↦ found
  | inl n ↦ absurd (ground (arith, lookup-update id i f db.job_completions))
]

-- The completions after an amendment are those before it, in closed jobs still.
kept-IsSound :
    (db db' : Db)
    → db'.job_cards ≡ db.job_cards
    → db'.customers ≡ db.customers
    → db'.job_cancellations ≡ db.job_cancellations
    → db'.next_id ≡ db.next_id
    → ((i : ℕ) (c : JobCompletion)
        → lookup i db'.job_completions ≡ some c
        → (o : JobCompletion) × (lookup i db.job_completions ≡ some o))
    → IsSound db
    → IsSound db'
kept-IsSound db db' cards customers cancellations next completions sound = record {
  coherent = λ i j e. sound.coherent i j (rw (sym cards) e);
  customer_known = λ i j e.
      let (c, known) = sound.customer_known i j (rw (sym cards) e) in (c, rw customers known);
  completion_closed = λ i c e.
      let (o, old) = completions i c e in
      let (j, found, st) = sound.completion_closed i o old in (j, rw cards found, st);
  cancellation_closed = λ i c e.
      let (j, found, st) = sound.cancellation_closed i c (rw (sym cancellations) e) in
      (j, rw cards found, st);
  fresh = λ i h. rw cards (sound.fresh i (rw (sym next) h));
}

written-IsSound :
    (env : Env) (actor : Actor) (id : ℕ) (input : AmendInput) (source : Source) (db : Db)
    (c : JobCompletion)
    → IsSound db
    → IsSound (amended_db env actor id input source db c)
written-IsSound env actor id input source db c sound =
    let db' = amended_db env actor id input source db c in
    elim (Bool-cases (sets_nothing input)) [
      | inl s ↦
          let same : db'.job_completions ≡ db.job_completions = ground arith in
          kept-IsSound db db' (ground arith) (ground arith) (ground arith) (ground arith)
            (λ i k e. (k, ap (lookup i) (sym same) ∙ e)) sound
      | inr s ↦
          let table : db'.job_completions
              ≡ update id (rewritten input.cost input.discount_amount input.discount_reason)
                  db.job_completions =
            ground arith in
          kept-IsSound db db' (ground arith) (ground arith) (ground arith) (ground arith)
            (λ i k e.
              before id i (rewritten input.cost input.discount_amount input.discount_reason) k db
                (ap (lookup i) (sym table) ∙ e))
            sound
    ]

-- An amendment of a completion leaves a sound database sound.
pub amend_completion-IsSound :
    (env : Env) (actor : Actor) (id : ℕ) (input : AmendInput) (source : Source) (db : Db)
    → IsSound db
    → IsSound (amend_completion env actor id input source db).1
amend_completion-IsSound env actor id input source db sound =
    elim (amend_completion-AmendOutcome env actor id input source db sound) [
      | AmendOutcome.not_owner _ p ↦ rw p sound
      | AmendOutcome.no_completion _ _ p ↦ rw p sound
      | AmendOutcome.day_confirmed _ _ _ _ p ↦ rw p sound
      | AmendOutcome.bad_figures _ _ _ _ _ _ p ↦ rw p sound
      | AmendOutcome.amended_it c j k _ _ _ _ _ _ p ↦
          rw p (written-IsSound env actor id input source db c sound)
    ]
