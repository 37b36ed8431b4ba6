-- ===== src/Api/Idempotency/Effects.antt =====
-- What a move can do to the row and to the request that makes it.
use serv_grid.Common.{
  ℕ, ◌≡◌, refl, ◌⊎◌, inl, inr, true, false, ◌&&◌, Option, none, some, Text, same_text,
  same_text_iff, is_none, is_id, ltb, arith, Bool-cases, Option-cases, ==_iff,
}
use serv_grid.Shared.Errors.{idempotency_in_flight, idempotency_key_reused}
use serv_grid.Api.Idempotency.{
  KeyRow, Slot, GuardedRequest, Phase, arriving, claim_lost, claim_again, taking_over, working,
  replayed, answered, turned_away, rolled_back, claim, reclaim, release_claim, store_response,
  resolve, settle, claimed_row, is_in_flight, begin_or, commit_if,
}
use serv_grid.Api.Idempotency.Schedule.{
  Move, claim_key, read_row, take_over, respond, abort, crash, move,
}

-- A phase that holds no token and has no response.
abbrev pub IsIdle : Phase → Type 0
IsIdle (working t) = ⊥
IsIdle (taking_over t) = ⊥
IsIdle (replayed s b) = ⊥
IsIdle (answered s b) = ⊥
IsIdle _ = Unit

-- The row is there, unanswered, and locked with the token.
pub record IsLocked (slot : Slot) (token : ℕ) (k : KeyRow) : Type 0 where
  pub there : slot ≡ some k
  pub waiting : k.response ≡ none
  pub lock : k.locked_at ≡ some token

pub data Effect (now : ℕ) (r : GuardedRequest) (p : Phase) (slot : Slot) (after : Phase × Slot)
    : Type 0 where
  -- the phase did not change, and neither did the row
  stays : after ≡ (p, slot) → Effect now r p slot after
  -- the request waits, was refused or was rolled back; the row is as it was
  idles : (p' : Phase) → IsIdle p' → after ≡ (p', slot) → Effect now r p slot after
  -- it read a stale row of the same body
  saw_stale :
      (k : KeyRow)
      → slot ≡ some k
      → k.request_hash ≡ r.request_hash
      → after ≡ (taking_over k.locked_at, slot)
      → Effect now r p slot after
  -- it read a response to the same body
  replays :
      (k : KeyRow) (status : ℕ) (body : Text)
      → slot ≡ some k
      → k.request_hash ≡ r.request_hash
      → k.response ≡ some (status, body)
      → after ≡ (replayed status body, slot)
      → Effect now r p slot after
  -- a new claim, over no row or one without a response
  claims :
      (slot ≡ none) ⊎ ((k : KeyRow) × (slot ≡ some k) × (k.response ≡ none))
      → after ≡ (working now, some (claimed_row now r))
      → Effect now r p slot after
  -- the stale claim that it read, taken over
  takes_over :
      (token : ℕ) (k : KeyRow)
      → p ≡ taking_over (some token)
      → IsLocked slot token k
      → after ≡ (working now, some (record k { locked_at = some now }))
      → Effect now r p slot after
  -- its response, stored over its own claim
  commits_it :
      (token status : ℕ) (body : Text) (k : KeyRow)
      → p ≡ working token
      → IsLocked slot token k
      → after ≡ (
        answered status body,
        some (record k { response = some (status, body); locked_at = none }),
      )
      → Effect now r p slot after
  -- its own claim, deleted
  releases :
      (token : ℕ) (k : KeyRow)
      → p ≡ working token
      → IsLocked slot token k
      → after ≡ (rolled_back, none)
      → Effect now r p slot after

lock-cases :
    (k : KeyRow) (token : ℕ)
    → ((is_none k.response && is_id k.locked_at token) ≡ false) ⊎ IsLocked (some k) token k
lock-cases k token = elim (Bool-cases (is_none k.response && is_id k.locked_at token)) [
  | inr n ↦ inl n
  | inl y ↦ elim (Option-cases k.locked_at) [
    | inl n ↦ absurd (ground (arith, y, n))
    | inr (t, e) ↦ inr (record {
      there = refl;
      waiting = ground (arith, y);
      lock = ground (arith, y, e, ==_iff t token);
    })
  ]
]

locked-test :
    (k : KeyRow) (token : ℕ)
    → IsLocked (some k) token k
    → (is_none k.response && is_id k.locked_at token) ≡ true
locked-test k token h = ground (arith, h.waiting, h.lock, ==_iff token token)

claim-Effect :
    (now : ℕ) (r : GuardedRequest) (p q : Phase) (slot : Slot)
    → IsIdle q
    → Effect now r p slot (begin_or q (claim now r slot))
unfolding claim
claim-Effect now r p q none i = claims (inl refl) refl
claim-Effect now r p q (some k) i = elim (Bool-cases (ltb k.expires_at now && is_none k.response)) [
  | inl y ↦ claims (inr (k, refl, ground (arith, y))) (ground (arith, y))
  | inr n ↦ idles q i (ground (arith, n))
]

reclaim-Effect :
    (now : ℕ) (r : GuardedRequest) (seen : Option ℕ) (slot : Slot)
    → Effect now r
        (taking_over seen)
        slot
        (begin_or (turned_away idempotency_in_flight) (reclaim now seen slot))
unfolding reclaim
reclaim-Effect now r none slot = idles (turned_away idempotency_in_flight) tt refl
reclaim-Effect now r (some token) none = idles (turned_away idempotency_in_flight) tt refl
reclaim-Effect now r (some token) (some k) = elim (lock-cases k token) [
  | inl n ↦ idles (turned_away idempotency_in_flight) tt (ground (arith, n))
  | inr h ↦ takes_over token k refl h (ground (arith, locked-test k token h))
]

release-Effect :
    (now : ℕ) (r : GuardedRequest) (token : ℕ) (slot : Slot)
    → Effect now r (working token) slot (rolled_back, release_claim token slot)
unfolding release_claim
release-Effect now r token none = idles rolled_back tt refl
release-Effect now r token (some k) = elim (lock-cases k token) [
  | inl n ↦ idles rolled_back tt (ground (arith, n))
  | inr h ↦ releases token k refl h (ground (arith, locked-test k token h))
]

store-Effect :
    (now : ℕ) (r : GuardedRequest) (token status : ℕ) (body : Text) (slot : Slot)
    → Effect now r
        (working token)
        slot
        (commit_if status body (store_response status body token slot))
unfolding store_response
store-Effect now r token status body none = idles (turned_away idempotency_in_flight) tt refl
store-Effect now r token status body (some k) = elim (lock-cases k token) [
  | inl n ↦ idles (turned_away idempotency_in_flight) tt (ground (arith, n))
  | inr h ↦ commits_it token status body k refl h (ground (arith, locked-test k token h))
]

resolve-Effect :
    (now : ℕ) (r : GuardedRequest) (p : Phase) (slot : Slot)
    → Effect now r p slot (resolve now r slot, slot)
unfolding resolve
resolve-Effect now r p none = idles claim_again tt refl
resolve-Effect now r p (some k) = elim (Bool-cases (same_text k.request_hash r.request_hash)) [
  | inr n ↦ idles (turned_away idempotency_key_reused) tt (ground (arith, n))
  | inl y ↦
      let same = (same_text_iff k.request_hash r.request_hash).0 y in
      elim (Option-cases k.response) [
        | inr ((status, body), e) ↦ replays k status body refl same e (ground (arith, y, e))
        | inl e ↦ elim (Bool-cases (is_in_flight now k.locked_at)) [
          | inl f ↦ idles (turned_away idempotency_in_flight) tt (ground (arith, y, e, f))
          | inr f ↦ saw_stale k refl same (ground (arith, y, e, f))
        ]
      ]
]

settle-Effect :
    (now : ℕ) (r : GuardedRequest) (token status : ℕ) (body : Text) (slot : Slot)
    → Effect now r (working token) slot (settle status body token slot)
unfolding settle
settle-Effect now r token status body slot = elim (Bool-cases (ltb status 400)) [
  | inl y ↦ rw y (store-Effect now r token status body slot)
  | inr n ↦ rw n (release-Effect now r token slot)
]

-- Every move, in every phase, has one of the effects.
pub move-Effect :
    (m : Move) (now : ℕ) (r : GuardedRequest) (p : Phase) (slot : Slot)
    → Effect now r p slot (move m now r p slot)
unfolding move
move-Effect claim_key now r arriving slot = claim-Effect now r arriving claim_lost slot tt
move-Effect claim_key now r claim_again slot =
    claim-Effect now r claim_again (turned_away idempotency_in_flight) slot tt
move-Effect read_row now r claim_lost slot = resolve-Effect now r claim_lost slot
move-Effect take_over now r (taking_over seen) slot = reclaim-Effect now r seen slot
move-Effect (respond status body) now r (working token) slot =
    settle-Effect now r token status body slot
move-Effect abort now r (working token) slot = release-Effect now r token slot
move-Effect crash now r (working token) slot = idles rolled_back tt refl
move-Effect _ now r p slot = stays refl
