-- ===== src/Api/Idempotency.antt =====
-- plugins/idempotency.ts: the guard of one key of one employee. Instants are microseconds, as the
-- database keeps them, and the token of a claim is its `locked_at`.
pub mod Schedule
pub mod Effects
pub mod Once
pub mod Recovery
use serv_grid.Common.{
  ℕ, ◌+◌, ◌-◌, ◌/◌, Bool, true, false, not, ◌&&◌, Option, none, some, Text, same_text, is_none,
  is_id, ltb, if◌then◌else◌, ◌==◌, ◌*◌,
}
use serv_grid.Shared.Errors.{ErrorCode, idempotency_in_flight, idempotency_key_reused}

-- A row of idempotency_keys. `response_status` and `response_body` are written together.
pub record KeyRow : Type 0 where
  pub endpoint : Text
  pub request_hash : Text
  pub response : Option (ℕ × Text)
  pub locked_at : Option ℕ
  pub expires_at : ℕ

-- The row WHERE employee_id = $1 AND key = $2.
abbrev pub Slot : Type 0
Slot = Option KeyRow

-- What the guard knows of a request: its endpoint and the hash of its body.
pub record GuardedRequest : Type 0 where
  pub endpoint : Text
  pub request_hash : Text

-- interval '30 days'
abbrev pub thirty_days : ℕ
thirty_days = 2592000000000

abbrev pub in_flight_window_seconds : ℕ
in_flight_window_seconds = 30

abbrev pub claimed_row : ℕ → GuardedRequest → KeyRow
claimed_row now r = record {
  endpoint = r.endpoint;
  request_hash = r.request_hash;
  response = none;
  locked_at = some now;
  expires_at = now + thirty_days;
}

-- CLAIM_SQL: an INSERT, or the takeover of an expired row without a response.
unfoldable pub claim : ℕ → GuardedRequest → Slot → Option ℕ × Slot
claim now r none = (some now, some (claimed_row now r))
claim now r (some k) =
    if ltb k.expires_at now && is_none k.response
    then (some now, some (claimed_row now r))
    else (none, some k)

-- RECLAIM_SQL: the row must carry the `locked_at` that was read.
unfoldable pub reclaim : ℕ → Option ℕ → Slot → Option ℕ × Slot
reclaim now (some token) (some k) =
    if is_none k.response && is_id k.locked_at token
    then (some now, some (record k { locked_at = some now }))
    else (none, some k)
reclaim now _ slot = (none, slot)

-- STORE_RESPONSE_SQL: was the row there, and the row after it.
unfoldable pub store_response : ℕ → Text → ℕ → Slot → Bool × Slot
store_response status body token none = (false, none)
store_response status body token (some k) =
    if is_none k.response && is_id k.locked_at token
    then (true, some (record k { response = some (status, body); locked_at = none }))
    else (false, some k)

-- RELEASE_CLAIM_SQL
unfoldable pub release_claim : ℕ → Slot → Slot
release_claim token none = none
release_claim token (some k) =
    if is_none k.response && is_id k.locked_at token then none else some k

-- pruneExpiredKeys, on this row
unfoldable pub prune_expired : ℕ → Slot → Slot
prune_expired now none = none
prune_expired now (some k) = if ltb k.expires_at now then none else some k

-- Where a request stands.
pub data Phase : Type 0 where
  arriving : Phase
  -- the claim found a live row
  claim_lost : Phase
  -- the row was gone when it was read
  claim_again : Phase
  -- the row was stale, with this `locked_at`
  taking_over : Option ℕ → Phase
  -- the handler runs in the request's transaction, under this token
  working : ℕ → Phase
  -- the stored response was sent
  replayed : ℕ → Text → Phase
  -- the transaction committed with this response
  answered : ℕ → Text → Phase
  -- the guard refused the request
  turned_away : ErrorCode → Phase
  -- rolled back, after a response of 400 or more, an abort or a crash
  rolled_back : Phase

-- `lockedAt !== null && Date.now() - lockedAt.getTime() < IN_FLIGHT_WINDOW_SECONDS * 1000`
unfoldable pub is_in_flight : ℕ → Option ℕ → Bool
is_in_flight now none = false
is_in_flight now (some at) = ltb (now / 1000 - at / 1000) (in_flight_window_seconds * 1000)

-- What idempotencyPreHandler does with the row that it read after a lost claim.
unfoldable pub resolve : ℕ → GuardedRequest → Slot → Phase
unfolding is_in_flight
resolve now r none = claim_again
resolve now r (some k) = elim (same_text k.request_hash r.request_hash) [
  | false ↦ turned_away idempotency_key_reused
  | true ↦ elim k.response [
    | some (status, body) ↦ replayed status body
    | none ↦
        if is_in_flight now k.locked_at
        then turned_away idempotency_in_flight
        else taking_over k.locked_at
  ]
]

-- A claim that wins begins the work; one that loses goes on to `otherwise`.
abbrev pub begin_or : Phase → Option ℕ × Slot → Phase × Slot
begin_or otherwise (some token, slot) = (working token, slot)
begin_or otherwise (none, slot) = (otherwise, slot)

-- The transaction commits only when the response was stored.
abbrev pub commit_if : ℕ → Text → Bool × Slot → Phase × Slot
commit_if status body (true, slot) = (answered status body, slot)
commit_if status body (false, slot) = (turned_away idempotency_in_flight, slot)

-- settle: a response under 400 is stored and committed, any other frees the key.
unfoldable pub settle : ℕ → Text → ℕ → Slot → Phase × Slot
unfolding store_response release_claim
settle status body token slot =
    if ltb status 400
    then commit_if status body (store_response status body token slot)
    else (rolled_back, release_claim token slot)
