-- ===== src/Jobs/Invariant/Complete.antt =====
-- A completion leaves a sound database sound.
use serv_grid.Common.{
  ℕ, ◌≡◌, refl, sym, ◌∙◌, ap, inl, inr, some, false, Text, List, arith, lookup, insert, update,
  lookup-insert-cases, [], ◌∷◌, ◌++◌,
}
use serv_grid.Store.Rows.{JobCard, Service}
use serv_grid.Store.Events.{Source}
use serv_grid.Store.Db.{Db}
use serv_grid.Api.Clock.{Env}
use serv_grid.Jobs.Repo.{is_closed, touched}
use serv_grid.Jobs.Cards.{Actor}
use serv_grid.Jobs.Sound.{IsSound, IsCoherent}
use serv_grid.Jobs.Sound.Writes.{IsWrite-IsSound}
use serv_grid.Jobs.Complete.{CompletionInput, complete_job, completion_event}
use serv_grid.Jobs.Complete.Frame.{Agrees}
use serv_grid.Jobs.Complete.Body.{report_row, Filed, closed, closed-IsCoherent, stamp}
use serv_grid.Jobs.Complete.Outcome.{CompleteOutcome, complete_job-CompleteOutcome}

Agrees-IsSound : (x y : Db) → Agrees x y → IsSound x → IsSound y
Agrees-IsSound x y a sound = record {
  coherent = λ i j e. sound.coherent i j (ap (lookup i) (sym a.cards) ∙ e);
  customer_known = λ i j e.
      let (c, known) = sound.customer_known i j (ap (lookup i) (sym a.cards) ∙ e) in
      a.customers j.customer_id c known;
  completion_closed = λ i c e.
      let (j, found, st) = sound.completion_closed i c (ap (lookup i) (sym a.completions) ∙ e) in
      (j, ap (lookup i) a.cards ∙ found, st);
  cancellation_closed = λ i c e.
      let (j, found, st) =
        sound.cancellation_closed i c (ap (lookup i) (sym a.cancellations) ∙ e) in
      (j, ap (lookup i) a.cards ∙ found, st);
  fresh = λ i h. ap (lookup i) a.cards ∙ sound.fresh i (omega (arith, a.next, h));
}

module _ (lower : Text → Text) (env : Env) (actor : Actor) (id : ℕ) (input : CompletionInput)
    (source : Source) (db : Db) where
  -- The jobs tables of a completion that went through.
  abbrev base : JobCard → Db
  base j = record db {
    job_cards = update id (touched (closed (stamp env input))) db.job_cards;
    job_completions = insert id (report_row env actor input) db.job_completions;
    job_events = db.job_events ++ (completion_event env actor id j.status input source ∷ []);
  }

  base-IsSound :
      (j : JobCard)
      → lookup id db.job_cards ≡ some j
      → IsCoherent (closed (stamp env input) j)
      → is_closed j.status ≡ false
      → IsSound db
      → IsSound (base j)
  base-IsSound j e good still sound =
      IsWrite-IsSound {f = closed (stamp env input)} {db = db}
        (record {
          found = e;
          good = good;
          same_customer = refl;
          stays_completed = λ s. refl;
          stays_cancelled = λ s. absurd (ground (arith, s, still));
          cards = refl;
          customers = refl;
          next = refl;
          completions = λ i k f.
              elim (lookup-insert-cases id i (report_row env actor input) k db.job_completions f) [
                | inl old ↦ inl old
                | inr new ↦ inr (new, refl)
              ];
          cancellations = λ i k f. inl f;
        })
        sound

  Filed-IsSound :
      (j : JobCard) (services : List (ℕ × Service)) (db' : Db)
      → lookup id db.job_cards ≡ some j
      → IsCoherent (closed (stamp env input) j)
      → is_closed j.status ≡ false
      → Filed lower env actor id input source j db services db'
      → IsSound db
      → IsSound db'
  Filed-IsSound j services db' e good still h sound =
      Agrees-IsSound (base j) db'
        (record {
          cards = h.cards;
          completions = h.completions;
          cancellations = h.cancellations;
          events = h.events;
          products = h.products;
          next = h.next;
          customers = h.customers;
        })
        (base-IsSound j e good still sound)

  -- A completion leaves a sound database sound.
  pub complete_job-IsSound :
      IsSound db → IsSound (complete_job lower env actor id input source db).1
  complete_job-IsSound sound =
      elim (complete_job-CompleteOutcome lower env actor id input source db sound) [
        | CompleteOutcome.not_field _ p ↦ rw p sound
        | CompleteOutcome.unknown_service _ _ p ↦ rw p sound
        | CompleteOutcome.no_job _ _ _ p ↦ rw p sound
        | CompleteOutcome.stranger _ _ _ _ _ p ↦ rw p sound
        | CompleteOutcome.already_closed _ _ _ p ↦ rw p sound
        | CompleteOutcome.nobody_on_site _ _ _ p ↦ rw p sound
        | CompleteOutcome.bad_figures _ _ _ p ↦ rw p sound
        | CompleteOutcome.lines_refused _ _ _ _ _ _ _ p ↦ rw p sound
        | CompleteOutcome.filed j c services db' a _ still u _ h p ↦ rw p (
            Filed-IsSound j services db' a.found
              (closed-IsCoherent j.status j (stamp env input) refl still u
                (sound.coherent id j a.found))
              still h sound)
      ]
