-- ===== src/Api/Idempotency/Once.antt =====
-- What the guard promises over every interleaving of requests with one key.
pub mod Kept
pub mod Runs
use serv_grid.Common.{
  ℕ, suc, ◌+◌, ◌≤◌, ◌<◌, ◌≡◌, refl, sym, ◌∙◌, ap, ◌⊎◌, inl, inr, Bool, true, false, Option, none,
  some, List, [], ◌∷◌, Text, arith, length,
}
use serv_grid.Api.Idempotency.{
  KeyRow, Slot, GuardedRequest, Phase, arriving, claim_lost, claim_again, taking_over, working,
  replayed, answered, turned_away, rolled_back,
}
use serv_grid.Api.Idempotency.Schedule.{World, held, commits}
use serv_grid.Api.Idempotency.Effects.{IsIdle}

-- One of the committed requests with its response.
pub data In (x : ℕ × (ℕ × Text)) : List (ℕ × (ℕ × Text)) → Type 0 where
  first : (l : List (ℕ × (ℕ × Text))) → In x (x ∷ l)
  later : (y : ℕ × (ℕ × Text)) (l : List (ℕ × (ℕ × Text))) → In x l → In x (y ∷ l)

-- If the row waits under the token, it is a claim of a request with this body.
abbrev pub Match : Slot → ℕ → Text → Type 0
Match slot token h =
    (k : KeyRow) → slot ≡ some k → k.response ≡ none → k.locked_at ≡ some token → k.request_hash ≡ h

-- The response was committed by a request with this body.
abbrev pub Given : (ℕ → GuardedRequest) → List (ℕ × (ℕ × Text)) → ℕ → Text → Text → Type 0
Given requests l status body h =
    (j : ℕ) × In (j, (status, body)) l × ((requests j).request_hash ≡ h)

-- What a request's phase says of the world.
abbrev pub Fits : (ℕ → GuardedRequest) → ℕ → Slot → List (ℕ × (ℕ × Text)) → ℕ → Phase → Type 0
Fits requests clock slot l i (working t) = (t ≤ clock) × Match slot t (requests i).request_hash
Fits requests clock slot l i (taking_over (some t)) =
    (t ≤ clock) × Match slot t (requests i).request_hash
Fits requests clock slot l i (replayed status body) =
    Given requests l status body (requests i).request_hash
Fits requests clock slot l i (answered status body) = In (i, (status, body)) l
Fits requests clock slot l i _ = Unit

pub record IsGuarded (requests : ℕ → GuardedRequest) (w : World) : Type 0 where
  pub once : length w.applied ≡ w.forgotten + held w.slot
  pub row_answer :
      (k : KeyRow) (status : ℕ) (body : Text)
      → w.slot ≡ some k
      → k.response ≡ some (status, body)
      → Given requests w.applied status body k.request_hash
  pub row_lock : (k : KeyRow) (t : ℕ) → w.slot ≡ some k → k.locked_at ≡ some t → t ≤ w.clock
  pub fits : (i : ℕ) → Fits requests w.clock w.slot w.applied i (w.phases i)
  -- two requests never hold one token
  pub alone : (i j t : ℕ) → w.phases i ≡ working t → w.phases j ≡ working t → i ≡ j

-- What a turn may do to what other requests rely on.
pub record Carries (clock clock' : ℕ) (slot slot' : Slot) (l l' : List (ℕ × (ℕ × Text)))
    : Type 0 where
  pub clocks : clock ≤ clock'
  pub matches : (t : ℕ) (h : Text) → t ≤ clock → Match slot t h → Match slot' t h
  pub grows : (x : ℕ × (ℕ × Text)) → In x l → In x l'

pub Carries-Fits :
    (requests : ℕ → GuardedRequest) (clock clock' : ℕ) (slot slot' : Slot)
    (l l' : List (ℕ × (ℕ × Text))) (i : ℕ) (p : Phase)
    → Carries clock clock' slot slot' l l'
    → Fits requests clock slot l i p
    → Fits requests clock' slot' l' i p
Carries-Fits requests clock clock' slot slot' l l' i (working t) c (le, m) =
    (omega (arith, le, c.clocks), c.matches t (requests i).request_hash le m)
Carries-Fits requests clock clock' slot slot' l l' i (taking_over (some t)) c (le, m) =
    (omega (arith, le, c.clocks), c.matches t (requests i).request_hash le m)
Carries-Fits requests clock clock' slot slot' l l' i (taking_over none) c f = tt
Carries-Fits requests clock clock' slot slot' l l' i (replayed s b) c (j, m, e) =
    (j, c.grows (j, (s, b)) m, e)
Carries-Fits requests clock clock' slot slot' l l' i (answered s b) c m = c.grows (i, (s, b)) m
Carries-Fits requests clock clock' slot slot' l l' i arriving c f = tt
Carries-Fits requests clock clock' slot slot' l l' i claim_lost c f = tt
Carries-Fits requests clock clock' slot slot' l l' i claim_again c f = tt
Carries-Fits requests clock clock' slot slot' l l' i (turned_away e) c f = tt
Carries-Fits requests clock clock' slot slot' l l' i rolled_back c f = tt

-- An idle phase needs nothing, and commits nothing.
pub idle-Fits :
    (requests : ℕ → GuardedRequest) (clock : ℕ) (slot : Slot) (l : List (ℕ × (ℕ × Text))) (i : ℕ)
    (p : Phase)
    → IsIdle p
    → Fits requests clock slot l i p
idle-Fits requests clock slot l i (working t) h = absurd h
idle-Fits requests clock slot l i (taking_over t) h = absurd h
idle-Fits requests clock slot l i (replayed s b) h = absurd h
idle-Fits requests clock slot l i (answered s b) h = absurd h
idle-Fits requests clock slot l i _ h = tt

abbrev pub IsQuiet : Phase → Type 0
IsQuiet (answered s b) = ⊥
IsQuiet _ = Unit

pub idle-IsQuiet : (p : Phase) → IsIdle p → IsQuiet p
idle-IsQuiet (answered s b) h = h
idle-IsQuiet _ h = tt

pub commits-quiet :
    (i : ℕ) (p p' : Phase) (l : List (ℕ × (ℕ × Text))) → IsQuiet p' → commits i p p' l ≡ l
commits-quiet i (working t) (answered s b) l h = absurd h
commits-quiet i _ _ l h = refl

pub commits-same : (i : ℕ) (p : Phase) (l : List (ℕ × (ℕ × Text))) → commits i p p l ≡ l
commits-same i (working t) l = refl
commits-same i _ l = refl
