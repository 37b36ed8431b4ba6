-- ===== src/Jobs/Sound/Writes.antt =====
-- The writes of the jobs service keep the database sound.
use serv_grid.Common.{
  ℕ, suc, ◌≤◌, ◌≡◌, refl, sym, ◌∙◌, ap, ◌⊎◌, inl, inr, true, false, ◌==◌, none, some, arith, lookup,
  update, insert, lookup-update, lookup-insert, ==_iff, Bool-cases, Option-cases,
}
use serv_grid.Shared.Status.{JobStatus, completed, cancelled}
use serv_grid.Store.Rows.{JobCard, JobCompletion, JobCancellation, Customer}
use serv_grid.Store.Db.{Db}
use serv_grid.Jobs.Repo.{touched, JobCardInsert, new_job}
use serv_grid.Jobs.Sound.{IsSound, IsCoherent}

-- One row was written, and the closure rows that came with it are the row's own.
pub record IsWrite (id : ℕ) (f : JobCard → JobCard) (j : JobCard) (db db' : Db) : Type 0 where
  pub found : lookup id db.job_cards ≡ some j
  pub good : IsCoherent (f j)
  pub same_customer : (f j).customer_id ≡ j.customer_id
  pub stays_completed : j.status ≡ completed → (f j).status ≡ completed
  pub stays_cancelled : j.status ≡ cancelled → (f j).status ≡ cancelled
  pub cards : db'.job_cards ≡ update id (touched f) db.job_cards
  pub customers : db'.customers ≡ db.customers
  pub next : db'.next_id ≡ db.next_id
  pub completions :
      (i : ℕ) (c : JobCompletion)
      → lookup i db'.job_completions ≡ some c
      → (lookup i db.job_completions ≡ some c) ⊎ (i ≡ id) × ((f j).status ≡ completed)
  pub cancellations :
      (i : ℕ) (c : JobCancellation)
      → lookup i db'.job_cancellations ≡ some c
      → (lookup i db.job_cancellations ≡ some c) ⊎ (i ≡ id) × ((f j).status ≡ cancelled)

module _ {id : ℕ} {f : JobCard → JobCard} {j : JobCard} {db db' : Db}
    (w : IsWrite id f j db db') where
  -- The row that was written, and the others.
  here : lookup id db'.job_cards ≡ some (touched f j)
  here = rw w.cards (ground (arith, w.found, lookup-update id id (touched f) db.job_cards))

  elsewhere : (i : ℕ) → (id == i) ≡ false → lookup i db'.job_cards ≡ lookup i db.job_cards
  elsewhere i n = rw w.cards (ground (arith, n, lookup-update id i (touched f) db.job_cards))

  -- A row of the new table is a row of the old one, or it is the row that was written.
  pub row-cases :
      (i : ℕ) (k : JobCard)
      → lookup i db'.job_cards ≡ some k
      → (lookup i db.job_cards ≡ some k) ⊎ (i ≡ id) × (k ≡ touched f j)
  row-cases i k e = elim (Bool-cases (id == i)) [
    | inr n ↦ inl (sym (elsewhere i n) ∙ e)
    | inl s ↦ inr (ground (arith, ==_iff id i, s), ground (arith, ==_iff id i, s, here, e))
  ]

  same_row : (i : ℕ) (k : JobCard) → (id == i) ≡ true → lookup i db.job_cards ≡ some k → k ≡ j
  same_row i k s e = ground (arith, ==_iff id i, s, e, w.found)

  here_at : (i : ℕ) → (id == i) ≡ true → lookup i db'.job_cards ≡ some (touched f j)
  here_at i s = ground (arith, ==_iff id i, s, here)

  closed_row :
      (s : JobStatus) (i : ℕ) (k : JobCard)
      → (j.status ≡ s → (f j).status ≡ s)
      → lookup i db.job_cards ≡ some k
      → k.status ≡ s
      → (k' : JobCard) × (lookup i db'.job_cards ≡ some k') × (k'.status ≡ s)
  closed_row s i k keep e st = elim (Bool-cases (id == i)) [
    | inr n ↦ (k, elsewhere i n ∙ e, st)
    | inl same ↦
        (touched f j, here_at i same, keep (ap (λ r. r.status) (sym (same_row i k same e)) ∙ st))
  ]

  at_id :
      (s : JobStatus) (i : ℕ)
      → i ≡ id
      → (f j).status ≡ s
      → (k' : JobCard) × (lookup i db'.job_cards ≡ some k') × (k'.status ≡ s)
  at_id s i p st = (touched f j, ground (arith, p, here), st)

  absent : (i : ℕ) → lookup i db.job_cards ≡ none → lookup i db'.job_cards ≡ none
  absent i e = elim (Bool-cases (id == i)) [
    | inr n ↦ elsewhere i n ∙ e
    | inl s ↦ ground (arith, ==_iff id i, s, w.found, e)
  ]

  pub IsWrite-IsSound : IsSound db → IsSound db'
  IsWrite-IsSound sound = record {
    coherent = λ i k e. elim (row-cases i k e) [
      | inl old ↦ sound.coherent i k old
      | inr (p, q) ↦ record { assignment = rw q w.good.assignment; closing = rw q w.good.closing }
    ];
    customer_known = λ i k e. elim (row-cases i k e) [
      | inl old ↦ let (c, known) = sound.customer_known i k old in (c, rw w.customers known)
      | inr (p, q) ↦
          let (c, known) = sound.customer_known id j w.found in
          (c, rw (q, w.customers, w.same_customer) known)
    ];
    completion_closed = λ i c e. elim (w.completions i c e) [
      | inl old ↦
          let (k, kl, st) = sound.completion_closed i c old in
          closed_row completed i k w.stays_completed kl st
      | inr (p, st) ↦ at_id completed i p st
    ];
    cancellation_closed = λ i c e. elim (w.cancellations i c e) [
      | inl old ↦
          let (k, kl, st) = sound.cancellation_closed i c old in
          closed_row cancelled i k w.stays_cancelled kl st
      | inr (p, st) ↦ at_id cancelled i p st
    ];
    fresh = λ i h. absent i (sound.fresh i (rw (sym w.next) h));
  }

-- An insert under the next id.
pub record IsInsert (s : JobCardInsert) (c : Customer) (db db' : Db) : Type 0 where
  pub known : lookup s.customer_id db.customers ≡ some c
  pub cards : db'.job_cards ≡ insert db.next_id (new_job s) db.job_cards
  pub customers : db'.customers ≡ db.customers
  pub next : db'.next_id ≡ suc db.next_id
  pub completions : db'.job_completions ≡ db.job_completions
  pub cancellations : db'.job_cancellations ≡ db.job_cancellations

module _ {s : JobCardInsert} {c : Customer} {db db' : Db} (w : IsInsert s c db db') where
  kept : (i : ℕ) (k : JobCard) → lookup i db.job_cards ≡ some k → lookup i db'.job_cards ≡ some k
  kept i k e = rw w.cards (ground (arith, e, lookup-insert db.next_id i (new_job s) db.job_cards))

  added-cases :
      (i : ℕ) (k : JobCard)
      → lookup i db'.job_cards ≡ some k
      → (lookup i db.job_cards ≡ some k) ⊎ (k ≡ new_job s)
  added-cases i k e = elim (Option-cases (lookup i db.job_cards)) [
    | inr (k', old) ↦ inl (old ∙ (sym (kept i k' old) ∙ e))
    | inl n ↦
        let row : lookup i (insert db.next_id (new_job s) db.job_cards) ≡ some k =
          rw (sym w.cards) e in
        inr (ground (arith, n, row, lookup-insert db.next_id i (new_job s) db.job_cards))
  ]

  later : (i : ℕ) → IsSound db → suc db.next_id ≤ i → lookup i db'.job_cards ≡ none
  later i sound h = rw w.cards (
      ground (
        arith,
        h,
        sound.fresh i (omega (arith, h)),
        ==_iff db.next_id i,
        lookup-insert db.next_id i (new_job s) db.job_cards,
      ))

  pub IsInsert-IsSound : IsSound db → IsSound db'
  IsInsert-IsSound sound = record {
    coherent = λ i k e. elim (added-cases i k e) [
      | inl old ↦ sound.coherent i k old
      | inr q ↦ record { assignment = rw q refl; closing = rw q refl }
    ];
    customer_known = λ i k e. elim (added-cases i k e) [
      | inl old ↦ let (d, known) = sound.customer_known i k old in (d, rw w.customers known)
      | inr q ↦ (c, rw (q, w.customers) w.known)
    ];
    completion_closed = λ i d e.
        let (k, kl, st) = sound.completion_closed i d (rw (sym w.completions) e) in
        (k, kept i k kl, st);
    cancellation_closed = λ i d e.
        let (k, kl, st) = sound.cancellation_closed i d (rw (sym w.cancellations) e) in
        (k, kept i k kl, st);
    fresh = λ i h. later i sound (rw (sym w.next) h);
  }
