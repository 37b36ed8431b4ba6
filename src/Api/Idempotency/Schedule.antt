-- ===== src/Api/Idempotency/Schedule.antt =====
-- Requests with the same key of the same employee, interleaved in any order.
use serv_grid.Common.{ℕ, suc, ◌+◌, none, some, List, [], ◌∷◌, Text, ◌==◌, if◌then◌else◌}
use serv_grid.Shared.Errors.{idempotency_in_flight}
use serv_grid.Api.Idempotency.{
  Slot, GuardedRequest, Phase, arriving, claim_lost, claim_again, taking_over, working, answered,
  turned_away, rolled_back, claim, reclaim, release_claim, prune_expired, resolve, begin_or, settle,
}

-- What a request does next, each one statement on the row or none.
pub data Move : Type 0 where
  -- CLAIM_SQL, the first time or after the row was gone
  claim_key : Move
  -- FETCH_SQL
  read_row : Move
  -- RECLAIM_SQL
  take_over : Move
  -- the handler has rendered a response
  respond : ℕ → Text → Move
  -- the client is gone, or BEGIN failed
  abort : Move
  -- the process dies, or the release fails and is logged
  crash : Move

-- One move of a request at the instant `now`; a move that its phase does not allow does nothing.
unfoldable pub move : Move → ℕ → GuardedRequest → Phase → Slot → Phase × Slot
unfolding claim reclaim settle release_claim resolve
move claim_key now r arriving slot = begin_or claim_lost (claim now r slot)
move claim_key now r claim_again slot =
    begin_or (turned_away idempotency_in_flight) (claim now r slot)
move read_row now r claim_lost slot = (resolve now r slot, slot)
move take_over now r (taking_over seen) slot =
    begin_or (turned_away idempotency_in_flight) (reclaim now seen slot)
move (respond status body) now r (working token) slot = settle status body token slot
move abort now r (working token) slot = (rolled_back, release_claim token slot)
move crash now r (working token) slot = (rolled_back, slot)
move _ now r phase slot = (phase, slot)

-- A turn of one request, or of the nightly prune, some microseconds after the last.
pub data Turn : Type 0 where
  request_turn : ℕ → Move → ℕ → Turn
  prune_turn : ℕ → Turn

pub record World : Type 0 where
  pub slot : Slot
  -- the instant of the last turn
  pub clock : ℕ
  pub phases : ℕ → Phase
  -- the requests whose rows were committed, with their responses, the last first
  pub applied : List (ℕ × (ℕ × Text))
  -- the pruned rows that held a response
  pub forgotten : ℕ

abbrev pub set_phase : (ℕ → Phase) → ℕ → Phase → ℕ → Phase
set_phase phases i p j = if i == j then p else phases j

-- A request that goes from its work to an answer has committed its rows.
abbrev pub commits : ℕ → Phase → Phase → List (ℕ × (ℕ × Text)) → List (ℕ × (ℕ × Text))
commits i (working token) (answered status body) l = (i, (status, body)) ∷ l
commits i _ _ l = l

abbrev pub held : Slot → ℕ
held none = 0
held (some k) = elim k.response [ none ↦ 0 | some r ↦ 1 ]

abbrev pub pruned_answer : Slot → Slot → ℕ
pruned_answer before none = held before
pruned_answer before (some k) = 0

module _ (requests : ℕ → GuardedRequest) where
  unfoldable pub turn : Turn → World → World
  unfolding move prune_expired
  turn (request_turn i m wait) w =
      let now = w.clock + suc wait in
      let after = move m now (requests i) (w.phases i) w.slot in
      record {
        slot = after.1;
        clock = now;
        phases = set_phase w.phases i after.0;
        applied = commits i (w.phases i) after.0 w.applied;
        forgotten = w.forgotten;
      }
  turn (prune_turn wait) w =
      let now = w.clock + suc wait in
      let after = prune_expired now w.slot in
      record {
        slot = after;
        clock = now;
        phases = w.phases;
        applied = w.applied;
        forgotten = w.forgotten + pruned_answer w.slot after;
      }

  unfoldable pub run : List Turn → World → World
  unfolding turn
  run [] w = w
  run (t ∷ l) w = run l (turn t w)

-- Nobody has used the key.
abbrev pub unused : World
unused = record { slot = none; clock = 0; phases = λ i. arriving; applied = []; forgotten = 0 }
