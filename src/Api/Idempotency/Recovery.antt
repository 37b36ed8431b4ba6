-- ===== src/Api/Idempotency/Recovery.antt =====
-- A retry of a request ends: with the stored response, or by taking over a claim that died.
use serv_grid.Common.{
  ℕ, suc, ◌+◌, ◌/◌, ◌≤◌, ◌<◌, ◌≡◌, ◌≢◌, refl, ◌⊎◌, inl, inr, true, false, none, some, List, [], ◌∷◌,
  Text, arith, ltb, Bool-cases, ==_refl, same_text, same_text_iff, ◌-◌,
}
use serv_grid.Shared.Errors.{idempotency_key_reused}
use serv_grid.Api.Idempotency.{
  KeyRow, Slot, GuardedRequest, Phase, arriving, claim_lost, taking_over, working, replayed,
  answered, turned_away, claim, reclaim, resolve, settle, store_response, is_in_flight, thirty_days,
}
use serv_grid.Api.Idempotency.Schedule.{
  World, Move, claim_key, read_row, take_over, respond, move, Turn, request_turn, turn, run,
}

-- Where request `i` and the row stand.
pub record At (w : World) (i : ℕ) (p : Phase) (s : Slot) : Type 0 where
  pub phase : w.phases i ≡ p
  pub row : w.slot ≡ s

-- A retry that nobody interrupts: claim, read, take over if it must, and respond.
abbrev pub retry : ℕ → ℕ → ℕ → Text → List Turn
retry i wait status body =
    request_turn i claim_key wait
    ∷ request_turn i read_row 0
    ∷ request_turn i take_over 0
    ∷ request_turn i (respond status body) 0
    ∷ []

module _ (requests : ℕ → GuardedRequest) (i : ℕ) where
  At-turn :
      (w : World) (m : Move) (wait : ℕ) (p p' : Phase) (s s' : Slot)
      → At w i p s
      → move m (w.clock + suc wait) (requests i) p s ≡ (p', s')
      → At (turn requests (request_turn i m wait) w) i p' s'
  unfolding turn
  At-turn w m wait p p' s s' h e = record {
    phase = ground (arith, h.phase, h.row, e, ==_refl i);
    row = ground (arith, h.phase, h.row, e);
  }

  turn_clock :
      (w : World) (m : Move) (wait : ℕ)
      → (turn requests (request_turn i m wait) w).clock ≡ w.clock + suc wait
  unfolding turn
  turn_clock w m wait = refl

  -- Four turns of the request.
  four :
      (w : World) (wait status : ℕ) (body : Text) (p q r : Phase) (s0 s1 s2 s3 s4 : Slot)
      (a : Phase)
      → At w i arriving s0
      → move claim_key (w.clock + suc wait) (requests i) arriving s0 ≡ (p, s1)
      → move read_row (w.clock + suc wait + 1) (requests i) p s1 ≡ (q, s2)
      → move take_over (w.clock + suc wait + 1 + 1) (requests i) q s2 ≡ (r, s3)
      → move (respond status body) (w.clock + suc wait + 1 + 1 + 1) (requests i) r s3 ≡ (a, s4)
      → At (run requests (retry i wait status body) w) i a s4
  unfolding run
  four w wait status body p q r s0 s1 s2 s3 s4 a h e0 e1 e2 e3 =
      let w1 = turn requests (request_turn i claim_key wait) w in
      let w2 = turn requests (request_turn i read_row 0) w1 in
      let w3 = turn requests (request_turn i take_over 0) w2 in
      let c1 = turn_clock w claim_key wait in
      let c2 = turn_clock w1 read_row 0 in
      let c3 = turn_clock w2 take_over 0 in
      let h1 = At-turn w claim_key wait arriving p s0 s1 h e0 in
      let h2 = At-turn w1 read_row 0 p q s1 s2 h1 (rw c1 e1) in
      let h3 = At-turn w2 take_over 0 q r s2 s3 h2 (rw (c2, c1) e2) in
      At-turn w3 (respond status body) 0 r a s3 s4 h3 (rw (c3, c2, c1) e3)

  -- Once the row holds a response, a new request with the same body hash gets that response, and
  -- one with another body hash is refused with IDEMPOTENCY_KEY_REUSED, at any instant before the
  -- prune; the row stays as it is, whatever its handler would have responded.
  pub retry-replay_lem :
      (w : World) (k : KeyRow) (wait status code : ℕ) (body text : Text)
      → At w i arriving (some k)
      → k.response ≡ some (status, body)
      → ((k.request_hash ≡ (requests i).request_hash)
          × At (run requests (retry i wait code text) w) i (replayed status body) (some k))
        ⊎ ((k.request_hash ≢ (requests i).request_hash)
            × At
                (run requests (retry i wait code text) w)
                i
                (turned_away idempotency_key_reused)
                (some k))
  unfolding move claim resolve
  retry-replay_lem w k wait status code body text h e =
      let r = requests i in
      elim (Bool-cases (same_text k.request_hash r.request_hash)) [
        | inl y ↦ inl (
          (same_text_iff k.request_hash r.request_hash).0 y,
          four w wait code text claim_lost (replayed status body) (replayed status body) (some k)
              (some k) (some k) (some k) (some k) (replayed status body) h (ground (arith, e))
              (ground (arith, e, y)) refl refl,
        )
        | inr n ↦ inr (
          ground (arith, n, same_text_iff k.request_hash r.request_hash),
          four w wait code text claim_lost (turned_away idempotency_key_reused)
              (turned_away idempotency_key_reused) (some k) (some k) (some k) (some k) (some k)
              (turned_away idempotency_key_reused) h (ground (arith, e)) (ground (arith, e, n)) refl
              refl,
        )
      ]

  -- The row after the takeover and the response.
  abbrev pub answered_row : KeyRow → ℕ → Text → KeyRow
  answered_row k status body = record k { response = some (status, body); locked_at = none }

  settle_ok :
      (k : KeyRow) (token status : ℕ) (body : Text)
      → k.response ≡ none
      → k.locked_at ≡ some token
      → ltb status 400 ≡ true
      → settle status body token (some k)
        ≡ (answered status body, some (answered_row k status body))
  unfolding settle store_response
  settle_ok k token status body r l s = ground (arith, r, l, s, ==_refl token)

  -- The claim's owner died: the row is unanswered and was locked 30 seconds ago or more. A new
  -- request with the same body hash, whose handler responds with a status under 400, commits, and
  -- the row holds its response.
  pub retry-recovers :
      (w : World) (k : KeyRow) (wait status locked : ℕ) (body : Text)
      → At w i arriving (some k)
      → k.response ≡ none
      → k.locked_at ≡ some locked
      → k.request_hash ≡ (requests i).request_hash
      → locked + 30000000 ≤ w.clock + wait
      → status < 400
      → (after : KeyRow) × At
          (run requests (retry i wait status body) w)
          i
          (answered status body)
          (some after)
        × (after.response ≡ some (status, body))
        × (after.request_hash ≡ (requests i).request_hash)
  unfolding move claim resolve reclaim is_in_flight
  retry-recovers w k wait status locked body h none_yet lock same old good =
      let r = requests i in
      let below : ltb status 400 ≡ true = ground (arith, good) in
      let now = w.clock + suc wait in
      let taken = now + 1 + 1 in
      let matches : same_text k.request_hash r.request_hash ≡ true =
        (same_text_iff k.request_hash r.request_hash).1 same in
      elim (Bool-cases (ltb k.expires_at now)) [
        | inl late ↦
            let fresh : KeyRow = record {
              endpoint = r.endpoint;
              request_hash = r.request_hash;
              response = none;
              locked_at = some now;
              expires_at = now + thirty_days;
            } in
            (
              answered_row fresh status body,
              four w wait status body (working now) (working now) (working now) (some k)
                  (some fresh) (some fresh) (some fresh) (some (answered_row fresh status body))
                  (answered status body) h (ground (arith, late, none_yet)) refl refl
                  (settle_ok fresh now status body refl refl below),
              refl,
              refl,
            )
        | inr live ↦
            let mine : KeyRow = record k { locked_at = some taken } in
            let stale : ltb ((now + 1) / 1000 - locked / 1000) 30000 ≡ false =
              ground (arith, old) in
            (
              answered_row mine status body,
              four w wait status body claim_lost (taking_over (some locked)) (working taken)
                  (some k) (some k) (some k) (some mine) (some (answered_row mine status body))
                  (answered status body) h (ground (arith, live))
                  (ground (arith, none_yet, lock, matches, stale))
                  (ground (arith, none_yet, lock, ==_refl locked))
                  (settle_ok mine taken status body none_yet refl below),
              refl,
              same,
            )
      ]
