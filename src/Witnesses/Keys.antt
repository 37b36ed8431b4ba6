-- ===== src/Witnesses/Keys.antt =====
-- Witnesses of the promises of the idempotency guard.
use serv_grid.Common.{
  ℕ, ◌+◌, ◌≡◌, refl, none, some, List, [], ◌∷◌, codes, arith, length, ◌⊎◌, same_text, ◌≢◌,
}
use serv_grid.Shared.Errors.{idempotency_key_reused}
use serv_grid.Api.Idempotency.{
  KeyRow, GuardedRequest, replayed, answered, turned_away, claim, resolve, settle, store_response,
}
use serv_grid.Api.Idempotency.Schedule.{
  World, Turn, request_turn, claim_key, read_row, respond, run, turn, move, unused, held,
}
use serv_grid.Api.Idempotency.Once.{Given}
use serv_grid.Api.Idempotency.Once.Runs.{run-exactly_once, run-replay_lem}
use serv_grid.Api.Idempotency.Recovery.{At, retry, retry-replay_lem, retry-recovers}

-- Every request sends the same body.
abbrev queued : ℕ → GuardedRequest
queued i = record { endpoint = codes "POST /v1/jobs"; request_hash = codes "9f86" }

-- Request 1 arrives while request 0 works, and again after it has answered.
abbrev doubled : List Turn
doubled =
    request_turn 0 claim_key 0
    ∷ request_turn 1 claim_key 5
    ∷ request_turn 0 (respond 201 (codes "made")) 900
    ∷ request_turn 1 read_row 3
    ∷ []

run-exactly_once_example :
    length (run queued doubled unused).applied
    ≡ (run queued doubled unused).forgotten + held (run queued doubled unused).slot
run-exactly_once_example = run-exactly_once queued doubled

doubled_replays : (run queued doubled unused).phases 1 ≡ replayed 201 (codes "made")
unfolding run turn move claim resolve settle store_response same_text
doubled_replays = refl

run-replay_example :
    Given queued (run queued doubled unused).applied 201 (codes "made") (codes "9f86")
run-replay_example = run-replay_lem queued doubled 1 201 (codes "made") doubled_replays

abbrev stored : KeyRow
stored = record {
  endpoint = codes "POST /v1/jobs";
  request_hash = codes "9f86";
  response = some (201, codes "made");
  locked_at = none;
  expires_at = 2592000000001;
}

abbrev dead : KeyRow
dead = record stored { response = none; locked_at = some 1 }

abbrev with_row : KeyRow → World
with_row k = record unused { slot = some k; clock = 50 }

retry-replay_example :
    ((stored.request_hash ≡ codes "9f86")
      × At
          (run queued (retry 4 7 201 (codes "other")) (with_row stored))
          4
          (replayed 201 (codes "made"))
          (some stored))
    ⊎ ((stored.request_hash ≢ codes "9f86")
        × At
            (run queued (retry 4 7 201 (codes "other")) (with_row stored))
            4
            (turned_away idempotency_key_reused)
            (some stored))
retry-replay_example =
    retry-replay_lem queued 4 (with_row stored) stored 7 201 201 (codes "made") (codes "other")
      (record { phase = refl; row = refl }) refl

retry-recovers_example :
    (after : KeyRow) × At
      (run queued (retry 4 30000000 201 (codes "made")) (with_row dead))
      4
      (answered 201 (codes "made"))
      (some after)
    × (after.response ≡ some (201, codes "made"))
    × (after.request_hash ≡ codes "9f86")
retry-recovers_example =
    retry-recovers queued 4 (with_row dead) dead 30000000 201 1 (codes "made")
      (record { phase = refl; row = refl }) refl refl refl (omega arith) (omega arith)
