-- ===== src/Witnesses/Limits.antt =====
-- Witnesses of the rate limiter.
use serv_grid.Common.{ℕ, ◌≡◌, some, List, [], ◌∷◌, codes, Text, arith}
use serv_grid.Api.Limiter.{SlidingWindowOptions, take_all}
use serv_grid.Api.Limiter.Window.{promised, take_all-promised}

-- One hit a minute for each key; the map is swept once it holds two keys.
abbrev login : SlidingWindowOptions
login = record { limit = 1; window_ms = 60000; max_keys = some 1 }

abbrev attempts : List (Text × ℕ)
attempts =
    (codes "ravi", 5) ∷ (codes "meera", 900) ∷ (codes "ravi", 1000) ∷ (codes "ravi", 70000) ∷ []

take_all_example : take_all login attempts [] ≡ promised login [] attempts
take_all_example =
    take_all-promised login attempts (omega arith, (omega arith, (omega arith, (omega arith, tt))))
