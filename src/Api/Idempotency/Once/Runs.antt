-- ===== src/Api/Idempotency/Once/Runs.antt =====
-- The guard's promises, after every sequence of turns.
use serv_grid.Common.{
  ℕ, suc, ◌+◌, ◌<◌, ◌≡◌, refl, sym, ◌∙◌, ◌⊎◌, inl, inr, true, false, none, some, List, [], ◌∷◌,
  Text, arith, length, ltb, Bool-cases, ==_iff, ◌==◌,
}
use mathlib.Core.Path.{subst}
use serv_grid.Api.Idempotency.{Slot, GuardedRequest, Phase, working, replayed, prune_expired}
use serv_grid.Api.Idempotency.Schedule.{
  World, Move, Turn, request_turn, prune_turn, turn, run, held, commits, set_phase, unused,
  pruned_answer, move,
}
use serv_grid.Api.Idempotency.Effects.{move-Effect}
use serv_grid.Api.Idempotency.Once.{Given, Fits, IsGuarded, Carries-Fits}
use serv_grid.Api.Idempotency.Once.Kept.{Good, Effect-Good}

module _ (requests : ℕ → GuardedRequest) where
  unused-IsGuarded : IsGuarded requests unused
  unused-IsGuarded = record {
    once = refl;
    row_answer = λ k status body e r. absurd (ground (arith, e));
    row_lock = λ k t e l. absurd (ground (arith, e));
    fits = λ i. tt;
    alone = λ i j t e f. absurd (ground (arith, e));
  }

  same_id : (i j : ℕ) → (i == j) ≡ true → i ≡ j
  same_id i j e = (==_iff i j).0 e

  here_or_other :
      (phases : ℕ → Phase) (i j : ℕ) (p : Phase)
      → (i ≡ j) × (set_phase phases i p j ≡ p)
        ⊎ ((i == j) ≡ false) × (set_phase phases i p j ≡ phases j)
  here_or_other phases i j p = elim (Bool-cases (i == j)) [
    | inl e ↦ inl (same_id i j e, ground (arith, e))
    | inr e ↦ inr (e, ground (arith, e))
  ]

  moved-Fits :
      (w : World) (i j now : ℕ) (p : Phase) (s : Slot) (l : List (ℕ × (ℕ × Text)))
      → IsGuarded requests w
      → Good requests w i now p s l
      → Fits requests now s l j (set_phase w.phases i p j)
  moved-Fits w i j now p s l h g = elim (here_or_other w.phases i j p) [
    | inl (e, q) ↦
        subst (λ x. Fits requests now s l j x) (sym q)
          (subst (λ x. Fits requests now s l x p) e g.here)
    | inr (n, q) ↦
        subst (λ x. Fits requests now s l j x) (sym q)
          (Carries-Fits requests w.clock now w.slot s w.applied l j (w.phases j) g.carry (h.fits j))
  ]

  -- A token given out now is held by nobody else.
  newer :
      (w : World) (j now t : ℕ)
      → IsGuarded requests w
      → w.clock < now
      → w.phases j ≡ working t
      → t ≡ now
      → ⊥
  newer w j now t h lt e q =
      let f = subst (λ x. Fits requests w.clock w.slot w.applied j x) e (h.fits j) in
      omega (arith, f.0, lt, q)

  moved_alone :
      (w : World) (i now : ℕ) (p : Phase) (s : Slot) (l : List (ℕ × (ℕ × Text)))
      → IsGuarded requests w
      → w.clock < now
      → Good requests w i now p s l
      → (j k t : ℕ) → set_phase w.phases i p j ≡ working t
      → set_phase w.phases i p k ≡ working t
      → j ≡ k
  moved_alone w i now p s l h lt g j k t a b = elim (here_or_other w.phases i j p) [
    | inl (e, q) ↦ elim (here_or_other w.phases i k p) [
      | inl (f, r) ↦ sym e ∙ f
      | inr (n, r) ↦ elim (g.token t (sym q ∙ a)) [
        | inl fresh ↦ absurd (newer w k now t h lt (sym r ∙ b) fresh)
        | inr old ↦ sym e ∙ h.alone i k t old (sym r ∙ b)
      ]
    ]
    | inr (m, q) ↦ elim (here_or_other w.phases i k p) [
      | inl (f, r) ↦ elim (g.token t (sym r ∙ b)) [
        | inl fresh ↦ absurd (newer w j now t h lt (sym q ∙ a) fresh)
        | inr old ↦ h.alone j i t (sym q ∙ a) old ∙ f
      ]
      | inr (n, r) ↦ h.alone j k t (sym q ∙ a) (sym r ∙ b)
    ]
  ]

  request_turn-IsGuarded :
      (i wait : ℕ) (m : Move) (w : World)
      → IsGuarded requests w
      → IsGuarded requests (turn requests (request_turn i m wait) w)
  unfolding turn
  request_turn-IsGuarded i wait m w h =
      let now = w.clock + suc wait in
      let after = move m now (requests i) (w.phases i) w.slot in
      let g =
        Effect-Good requests w i now h (omega arith) after
          (move-Effect m now (requests i) (w.phases i) w.slot) in
      record {
        once = g.count;
        row_answer = g.answer;
        row_lock = g.lock;
        fits = λ j.
            moved-Fits w i j now after.0 after.1 (commits i (w.phases i) after.0 w.applied) h g;
        alone =
            moved_alone w i now after.0 after.1 (commits i (w.phases i) after.0 w.applied) h
              (omega arith) g;
      }

  pruned-cases :
      (now : ℕ) (slot : Slot) → (prune_expired now slot ≡ slot) ⊎ (prune_expired now slot ≡ none)
  unfolding prune_expired
  pruned-cases now none = inl refl
  pruned-cases now (some k) = elim (Bool-cases (ltb k.expires_at now)) [
    | inl e ↦ inr (ground (arith, e))
    | inr e ↦ inl (ground (arith, e))
  ]

  kept_answer : (slot : Slot) → pruned_answer slot slot ≡ 0
  kept_answer none = refl
  kept_answer (some k) = refl

  abbrev after_prune : World → ℕ → Slot → World
  after_prune w now s = record w {
    slot = s;
    clock = now;
    forgotten = w.forgotten + pruned_answer w.slot s;
  }

  pruned_none :
      (w : World) (now : ℕ)
      → w.clock < now
      → IsGuarded requests w
      → IsGuarded requests (after_prune w now none)
  pruned_none w now lt h = record {
    once = ground (arith, h.once);
    row_answer = λ k status body e r. absurd (ground (arith, e));
    row_lock = λ k t e l. absurd (ground (arith, e));
    fits = λ j.
        Carries-Fits requests w.clock now w.slot none w.applied w.applied j (w.phases j)
          (record {
            clocks = omega (arith, lt);
            matches = λ t x le m k e. absurd (ground (arith, e));
            grows = λ x m. m;
          })
          (h.fits j);
    alone = h.alone;
  }

  pruned_same :
      (w : World) (now : ℕ)
      → w.clock < now
      → IsGuarded requests w
      → IsGuarded requests (after_prune w now w.slot)
  pruned_same w now lt h = record {
    once = omega (arith, h.once, kept_answer w.slot);
    row_answer = h.row_answer;
    row_lock = λ k t e l. omega (arith, h.row_lock k t e l, lt);
    fits = λ j.
        Carries-Fits requests w.clock now w.slot w.slot w.applied w.applied j (w.phases j)
          (record { clocks = omega (arith, lt); matches = λ t x le m. m; grows = λ x m. m })
          (h.fits j);
    alone = h.alone;
  }

  prune_turn-IsGuarded :
      (wait : ℕ) (w : World)
      → IsGuarded requests w
      → IsGuarded requests (turn requests (prune_turn wait) w)
  unfolding turn
  prune_turn-IsGuarded wait w h =
      let now = w.clock + suc wait in
      elim (pruned-cases now w.slot) [
        | inl e ↦
            subst (λ s. IsGuarded requests (after_prune w now s)) (sym e)
              (pruned_same w now (omega arith) h)
        | inr e ↦
            subst (λ s. IsGuarded requests (after_prune w now s)) (sym e)
              (pruned_none w now (omega arith) h)
      ]

  run-keeps :
      (l : List Turn) (w : World) → IsGuarded requests w → IsGuarded requests (run requests l w)
  unfolding run
  run-keeps [] w h = h
  run-keeps (request_turn i m wait ∷ l) w h =
      run-keeps l (turn requests (request_turn i m wait) w) (request_turn-IsGuarded i wait m w h)
  run-keeps (prune_turn wait ∷ l) w h =
      run-keeps l (turn requests (prune_turn wait) w) (prune_turn-IsGuarded wait w h)

  -- After any interleaving of requests with one key of one employee, with crashes, aborts, stale
  -- claims and prunes among them, and whatever their bodies, the number of requests whose rows
  -- were committed is the number of responses that the prune deleted, plus one when the row holds
  -- a response: until the prune forgets a response, at most one request takes effect.
  pub run-exactly_once :
      (l : List Turn)
      → length (run requests l unused).applied
        ≡ (run requests l unused).forgotten + held (run requests l unused).slot
  run-exactly_once l = (run-keeps l unused unused-IsGuarded).once

  -- After any interleaving, a request that was answered from the stored response got the response
  -- of a request with the same body hash whose rows were committed.
  pub run-replay_lem :
      (l : List Turn) (i status : ℕ) (body : Text)
      → (run requests l unused).phases i ≡ replayed status body
      → Given requests (run requests l unused).applied status body (requests i).request_hash
  run-replay_lem l i status body e =
      let w = run requests l unused in
      subst (λ x. Fits requests w.clock w.slot w.applied i x) e
        ((run-keeps l unused unused-IsGuarded).fits i)
