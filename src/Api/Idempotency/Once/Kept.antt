-- ===== src/Api/Idempotency/Once/Kept.antt =====
-- The guard's invariant is kept by every turn.
use serv_grid.Common.{
  ℕ, ◌+◌, ◌≤◌, ◌<◌, ◌≡◌, refl, ◌∙◌, ◌⊎◌, inl, inr, Option, none, some, List, ◌∷◌, Text, arith,
  length,
}
use mathlib.Core.Path.{subst}
use serv_grid.Api.Idempotency.{
  KeyRow, Slot, GuardedRequest, Phase, taking_over, working, replayed, answered, rolled_back,
  claimed_row,
}
use serv_grid.Api.Idempotency.Schedule.{World, held, commits}
use serv_grid.Api.Idempotency.Effects.{
  IsIdle, IsLocked, Effect, stays, idles, saw_stale, replays, claims, takes_over, commits_it,
  releases,
}
use serv_grid.Api.Idempotency.Once.{
  In, first, later, Given, Fits, IsGuarded, Carries, Carries-Fits, idle-Fits, idle-IsQuiet,
  commits-quiet, commits-same,
}

module _ (requests : ℕ → GuardedRequest) (w : World) (i now : ℕ) where
  -- What the world must be after a move of request `i` for the invariant to hold again.
  pub record Good (p' : Phase) (s' : Slot) (l' : List (ℕ × (ℕ × Text))) : Type 0 where
    pub carry : Carries w.clock now w.slot s' w.applied l'
    pub here : Fits requests now s' l' i p'
    pub count : length l' ≡ w.forgotten + held s'
    pub answer :
        (k : KeyRow) (status : ℕ) (body : Text)
        → s' ≡ some k
        → k.response ≡ some (status, body)
        → Given requests l' status body k.request_hash
    pub lock : (k : KeyRow) (t : ℕ) → s' ≡ some k → k.locked_at ≡ some t → t ≤ now
    pub token : (t : ℕ) → p' ≡ working t → (t ≡ now) ⊎ (w.phases i ≡ working t)

  module _ (h : IsGuarded requests w) (lt : w.clock < now) where
    same_world : Carries w.clock now w.slot w.slot w.applied w.applied
    same_world = record { clocks = omega (arith, lt); matches = λ t x le m. m; grows = λ x m. m }

    same_slot :
        (p' : Phase)
        → Fits requests now w.slot w.applied i p'
        → ((t : ℕ) → p' ≡ working t → w.phases i ≡ working t)
        → Good p' w.slot w.applied
    same_slot p' f t = record {
      carry = same_world;
      here = f;
      count = h.once;
      answer = h.row_answer;
      lock = λ k u e l. omega (arith, lt, h.row_lock k u e l);
      token = λ u e. inr (t u e);
    }

    Good-stays : Good (w.phases i) w.slot w.applied
    Good-stays =
        same_slot (w.phases i)
          (Carries-Fits requests w.clock now w.slot w.slot w.applied w.applied i (w.phases i)
            same_world (h.fits i))
          (λ t e. e)

    idle-not_working : (p : Phase) (t : ℕ) → IsIdle p → p ≡ working t → ⊥
    idle-not_working p t a e = subst (λ x. IsIdle x) e a

    Good-idle : (p' : Phase) → IsIdle p' → Good p' w.slot w.applied
    Good-idle p' a =
        same_slot p' (idle-Fits requests now w.slot w.applied i p' a)
          (λ t e. absurd (idle-not_working p' t a e))

    open_slot :
        (w.slot ≡ none) ⊎ ((k : KeyRow) × (w.slot ≡ some k) × (k.response ≡ none)) → held w.slot ≡ 0
    open_slot (inl e) = ground (arith, e)
    open_slot (inr (k, e, r)) = ground (arith, e, r)

    -- A row that was locked now matches no older token.
    new_row :
        (k : KeyRow)
        → k.response ≡ none
        → k.locked_at ≡ some now
        → k.request_hash ≡ (requests i).request_hash
        → held w.slot ≡ 0
        → Good (working now) (some k) w.applied
    new_row k r l e o = record {
      carry = record {
        clocks = omega (arith, lt);
        matches = λ t x le m u a b c. absurd (ground (arith, lt, le, l, a, c));
        grows = λ x m. m;
      };
      here = (omega arith, λ u a b c. ground (arith, a, e));
      count = ground (arith, h.once, o, r);
      answer = λ u status body a b. absurd (ground (arith, a, b, r));
      lock = λ u t a b. ground (arith, a, b, l);
      token = λ t a. inl (ground (arith, a));
    }

    Good-stale :
        (k : KeyRow)
        → w.slot ≡ some k
        → k.request_hash ≡ (requests i).request_hash
        → (o : Option ℕ) → k.locked_at ≡ o
        → Good (taking_over o) w.slot w.applied
    Good-stale k e same none l = same_slot (taking_over none) tt (λ t a. ground (arith, a))
    Good-stale k e same (some t) l =
        let le = h.row_lock k t e l in
        same_slot (taking_over (some t))
          (omega (arith, le, lt), λ u a b c. ground (arith, a, e, same)) (λ u a. ground (arith, a))

    Good-replay :
        (k : KeyRow) (status : ℕ) (body : Text)
        → w.slot ≡ some k
        → k.request_hash ≡ (requests i).request_hash
        → k.response ≡ some (status, body)
        → Good (replayed status body) w.slot w.applied
    Good-replay k status body e same r =
        let (j, m, q) = h.row_answer k status body e r in
        same_slot (replayed status body) (j, m, q ∙ same) (λ t a. ground (arith, a))

    locked_match :
        (t : ℕ) (k : KeyRow) (p : Phase)
        → w.phases i ≡ p
        → (p ≡ working t) ⊎ (p ≡ taking_over (some t))
        → IsLocked w.slot t k
        → k.request_hash ≡ (requests i).request_hash
    locked_match t k p e (inl a) x =
        let f = subst (λ y. Fits requests w.clock w.slot w.applied i y) (e ∙ a) (h.fits i) in
        f.1 k x.there x.waiting x.lock
    locked_match t k p e (inr a) x =
        let f = subst (λ y. Fits requests w.clock w.slot w.applied i y) (e ∙ a) (h.fits i) in
        f.1 k x.there x.waiting x.lock

    Good-commit :
        (t status : ℕ) (body : Text) (k : KeyRow)
        → w.phases i ≡ working t
        → IsLocked w.slot t k
        → Good
            (answered status body)
            (some (record k { response = some (status, body); locked_at = none }))
            ((i, (status, body)) ∷ w.applied)
    Good-commit t status body k e x =
        let same = locked_match t k (w.phases i) refl (inl e) x in
        record {
          carry = record {
            clocks = omega (arith, lt);
            matches = λ u y le m v a b c. absurd (ground (arith, a, b));
            grows = λ y m. later (i, (status, body)) w.applied m;
          };
          here = first w.applied;
          count = ground (arith, h.once, x.there, x.waiting);
          answer = λ u s b a c.
              let same_response : (status, body) ≡ (s, b) = ground (arith, a, c) in
              (
                i,
                subst (λ y. In (i, y) ((i, (status, body)) ∷ w.applied)) same_response
                    (first w.applied),
                ground (arith, a, same),
              );
          lock = λ u v a b. absurd (ground (arith, a, b));
          token = λ u a. absurd (ground (arith, a));
        }

    Good-release : (t : ℕ) (k : KeyRow) → IsLocked w.slot t k → Good rolled_back none w.applied
    Good-release t k x = record {
      carry = record {
        clocks = omega (arith, lt);
        matches = λ u y le m v a b c. absurd (ground (arith, a));
        grows = λ y m. m;
      };
      here = tt;
      count = ground (arith, h.once, x.there, x.waiting);
      answer = λ u s b a c. absurd (ground (arith, a));
      lock = λ u v a b. absurd (ground (arith, a));
      token = λ u a. absurd (ground (arith, a));
    }

    -- Every effect leads to a good world.
    pub Effect-Good :
        (after : Phase × Slot)
        → Effect now (requests i) (w.phases i) w.slot after
        → Good after.0 after.1 (commits i (w.phases i) after.0 w.applied)
    Effect-Good after (stays e) = rw (e, commits-same i (w.phases i) w.applied) Good-stays
    Effect-Good after (idles p' a e) =
        rw (e, commits-quiet i (w.phases i) p' w.applied (idle-IsQuiet p' a)) (Good-idle p' a)
    Effect-Good after (saw_stale k e same q) =
        rw (q, commits-quiet i (w.phases i) (taking_over k.locked_at) w.applied tt)
          (Good-stale k e same k.locked_at refl)
    Effect-Good after (replays k status body e same r q) =
        rw (q, commits-quiet i (w.phases i) (replayed status body) w.applied tt)
          (Good-replay k status body e same r)
    Effect-Good after (claims o q) =
        rw (q, commits-quiet i (w.phases i) (working now) w.applied tt)
          (new_row (claimed_row now (requests i)) refl refl refl (open_slot o))
    Effect-Good after (takes_over t k p x q) =
        rw (q, commits-quiet i (w.phases i) (working now) w.applied tt)
          (new_row (record k { locked_at = some now }) x.waiting refl
            (locked_match t k (w.phases i) refl (inr p) x)
            (open_slot (inr (k, x.there, x.waiting))))
    Effect-Good after (commits_it t status body k p x q) =
        rw (q, p) (Good-commit t status body k p x)
    Effect-Good after (releases t k p x q) =
        rw (q, commits-quiet i (w.phases i) rolled_back w.applied tt) (Good-release t k x)
