-- ===== src/Api/Limiter.antt =====
-- lib/rate-limit.ts: the sliding-window limiter, with its map of hits as an association list in
-- insertion order.
pub mod Map
pub mod Window
use serv_grid.Common.{
  ℕ, suc, ◌-◌, Bool, true, false, ◌&&◌, Option, none, some, get_or, List, [], ◌∷◌, ◌++◌, Text,
  same_text, length, ltb, leb, if◌then◌else◌,
}

pub record SlidingWindowOptions : Type 0 where
  pub limit : ℕ
  pub window_ms : ℕ
  pub max_keys : Option ℕ

abbrev pub default_max_keys : ℕ
default_max_keys = 10000

-- Map<string, number[]>
abbrev pub Hits : Type 0
Hits = List (Text × List ℕ)

-- hits.get(key)
unfoldable pub get_hits : Text → Hits → Option (List ℕ)
get_hits key [] = none
get_hits key ((k, v) ∷ m) =
    let rest = get_hits key m in elim (same_text k key) [ true ↦ some v | false ↦ rest ]

-- hits.set(key, v)
unfoldable pub set_hits : Text → List ℕ → Hits → Hits
set_hits key v [] = (key, v) ∷ []
set_hits key v ((k, u) ∷ m) =
    let rest = set_hits key v m in
    elim (same_text k key) [ true ↦ (k, v) ∷ m | false ↦ (k, u) ∷ rest ]

-- timestamps.filter((t) => now - t < windowMs)
unfoldable pub alive : ℕ → ℕ → List ℕ → List ℕ
alive window now [] = []
alive window now (t ∷ l) =
    let rest = alive window now l in elim (ltb (now - t) window) [ true ↦ t ∷ rest | false ↦ rest ]

-- The sweep: keys with no hit left are deleted, the others keep their live hits.
abbrev pub keep_alive : Text → List ℕ → Hits → Hits
keep_alive k [] rest = rest
keep_alive k (t ∷ l) rest = (k, t ∷ l) ∷ rest

unfoldable pub sweep : ℕ → ℕ → Hits → Hits
unfolding alive
sweep window now [] = []
sweep window now ((k, v) ∷ m) =
    let rest = sweep window now m in keep_alive k (alive window now v) rest

-- One hit for the key: is it within the limit, and the map after it.
unfoldable pub take : SlidingWindowOptions → ℕ → Text → Hits → Bool × Hits
unfolding get_hits set_hits alive sweep
take options now key hits =
    let swept =
      if ltb (get_or options.max_keys default_max_keys) (length hits)
      then sweep options.window_ms now hits
      else hits in
    let recent = alive options.window_ms now (get_or (get_hits key swept) []) ++ (now ∷ []) in
    (leb (length recent) options.limit, set_hits key recent swept)

-- The answers to a sequence of calls, each with its key and the instant of Date.now().
unfoldable pub take_all : SlidingWindowOptions → List (Text × ℕ) → Hits → List Bool
unfolding take
take_all options [] hits = []
take_all options ((key, now) ∷ calls) hits =
    let (answer, after) = take options now key hits in answer ∷ take_all options calls after
