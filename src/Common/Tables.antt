-- ===== src/Common/Tables.antt =====
-- A database table as an association list from primary keys to rows, in insertion order.
use Prim.Native.Nat.{ℕ}
use mathlib.Core.Path.{◌≡◌, refl}
use mathlib.Core.Option.{Option, none, some}
use mathlib.Core.Logic.{◌⊎◌, inl, inr}
use mathlib.Core.List.{List, [], ◌∷◌}
use native.Mathlib.Omega.{arith}
use serv_grid.Common.Tests.{◌==◌, if◌then◌else◌, Bool-cases, Option-cases, ==_iff}

abbrev pub Table {ℓ} : Type ℓ → Type ℓ
Table V = List (ℕ × V)

module _ {ℓ} {V : Type ℓ} where
  -- SELECT … WHERE id = k
  unfoldable pub lookup : ℕ → Table V → Option V
  lookup k [] = none
  lookup k ((j, v) ∷ t) = if j == k then some v else lookup k t

  -- UPDATE … WHERE id = k, the row's new value computed from its old one
  unfoldable pub update : ℕ → (V → V) → Table V → Table V
  update k f [] = []
  update k f ((j, v) ∷ t) = if j == k then (j, f v) ∷ t else (j, v) ∷ update k f t

  -- INSERT of a row under the key k
  unfoldable pub insert : ℕ → V → Table V → Table V
  insert k v [] = (k, v) ∷ []
  insert k v (e ∷ t) = e ∷ insert k v t

  abbrev pub map_row : (V → V) → Option V → Option V
  map_row f none = none
  map_row f (some v) = some (f v)

  abbrev pub or_row : Option V → Option V → Option V
  or_row none o = o
  or_row (some v) o = some v

  pub lookup-update :
      (k j : ℕ) (f : V → V) (t : Table V)
      → lookup j (update k f t) ≡ (if k == j then map_row f (lookup j t) else lookup j t)
  unfolding lookup update
  lookup-update k j f [] = ground arith
  lookup-update k j f ((i, v) ∷ t) = ground (arith, lookup-update k j f t)

  pub lookup-insert :
      (k j : ℕ) (v : V) (t : Table V)
      → lookup j (insert k v t) ≡ or_row (lookup j t) (if k == j then some v else none)
  unfolding lookup insert
  lookup-insert k j v [] = refl
  lookup-insert k j v ((i, w) ∷ t) = ground (arith, lookup-insert k j v t)

  -- A row after an INSERT was there before, or it is the one inserted.
  pub lookup-insert-cases :
      (k j : ℕ) (v w : V) (t : Table V)
      → lookup j (insert k v t) ≡ some w
      → (lookup j t ≡ some w) ⊎ (j ≡ k)
  lookup-insert-cases k j v w t e = elim (Bool-cases (k == j)) [
    | inl s ↦ inr (ground (arith, ==_iff k j, s))
    | inr n ↦ elim (Option-cases (lookup j t)) [
      | inl g ↦ absurd (ground (arith, lookup-insert k j v t))
      | inr (u, h) ↦ inl (ground (arith, lookup-insert k j v t))
    ]
  ]

pub ruleset table_laws = (lookup-update, lookup-insert)
