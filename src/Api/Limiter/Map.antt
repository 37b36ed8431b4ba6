-- ===== src/Api/Limiter/Map.antt =====
-- The laws of the limiter's map: each key stands once, and a sweep loses no hit that counts.
use serv_grid.Common.{
  ℕ, ◌≤◌, ◌≡◌, refl, sym, ◌∙◌, ap, inl, inr, true, false, none, some, get_or, List, [], ◌∷◌, ◌++◌,
  Text, same_text, same_text_iff, arith, if◌then◌else◌, Bool-cases,
}
use serv_grid.Api.Limiter.{Hits, get_hits, set_hits, alive, keep_alive, sweep}

-- Each key stands once in the map.
abbrev pub DistinctKeys : Hits → Type 0
DistinctKeys [] = Unit
DistinctKeys ((k, v) ∷ m) = (get_hits k m ≡ none) × DistinctKeys m

pub alive-alive :
    (window early late : ℕ) (l : List ℕ)
    → early ≤ late
    → alive window late (alive window early l) ≡ alive window late l
unfolding alive
alive-alive window early late [] h = refl
alive-alive window early late (t ∷ l) h = ground (arith, h, alive-alive window early late l h)

pub alive-append :
    (window now : ℕ) (l r : List ℕ)
    → alive window now (l ++ r) ≡ alive window now l ++ alive window now r
unfolding alive
alive-append window now [] r = refl
alive-append window now (t ∷ l) r = ground (arith, alive-append window now l r)

pub get-set :
    (key j : Text) (v : List ℕ) (m : Hits)
    → get_hits j (set_hits key v m) ≡ (if same_text key j then some v else get_hits j m)
unfolding get_hits set_hits
get-set key j v [] = ground arith
get-set key j v ((k, u) ∷ m) =
    ground (arith, get-set key j v m, same_text_iff k key, same_text_iff k j, same_text_iff key j)

set_hits-absent :
    (key k : Text) (v : List ℕ) (m : Hits)
    → same_text k key ≡ false
    → get_hits k m ≡ none
    → get_hits k (set_hits key v m) ≡ none
set_hits-absent key k v m e n =
    ground (arith, get-set key k v m, same_text_iff key k, same_text_iff k key, e, n)

pub set_hits-DistinctKeys :
    (key : Text) (v : List ℕ) (m : Hits) → DistinctKeys m → DistinctKeys (set_hits key v m)
unfolding set_hits get_hits
set_hits-DistinctKeys key v [] d = (refl, tt)
set_hits-DistinctKeys key v ((k, u) ∷ m) d = elim (Bool-cases (same_text k key)) [
  | inl e ↦ rw (DistinctKeys, e) d
  | inr e ↦
      rw (DistinctKeys, e) (set_hits-absent key k v m e d.0, set_hits-DistinctKeys key v m d.1)
]

-- The hits that the map holds for a key.
abbrev pub hits_of : Text → Hits → List ℕ
hits_of key m = get_or (get_hits key m) []

keep_alive-absent :
    (j k : Text) (l : List ℕ) (m : Hits)
    → same_text j k ≡ false
    → get_hits k m ≡ none
    → get_hits k (keep_alive j l m) ≡ none
unfolding get_hits
keep_alive-absent j k [] m e n = n
keep_alive-absent j k (t ∷ l) m e n = ground (arith, e, n)

keep_alive-DistinctKeys :
    (j : Text) (l : List ℕ) (m : Hits)
    → get_hits j m ≡ none
    → DistinctKeys m
    → DistinctKeys (keep_alive j l m)
keep_alive-DistinctKeys j [] m n d = d
keep_alive-DistinctKeys j (t ∷ l) m n d = (n, d)

keep_alive-here :
    (j key : Text) (l : List ℕ) (m : Hits)
    → same_text j key ≡ true
    → get_hits j m ≡ none
    → hits_of key (keep_alive j l m) ≡ l
unfolding get_hits
keep_alive-here j key [] m e n =
    let same : j ≡ key = (same_text_iff j key).0 e in
    let gone : get_hits key m ≡ none = rw (sym same) n in ap (λ o. get_or o []) gone
keep_alive-here j key (t ∷ l) m e n = ground (arith, e)

keep_alive-other :
    (j key : Text) (l : List ℕ) (m : Hits)
    → same_text j key ≡ false
    → hits_of key (keep_alive j l m) ≡ hits_of key m
unfolding get_hits
keep_alive-other j key [] m e = refl
keep_alive-other j key (t ∷ l) m e = ground (arith, e)

sweep-absent :
    (window now : ℕ) (k : Text) (m : Hits)
    → get_hits k m ≡ none
    → get_hits k (sweep window now m) ≡ none
unfolding sweep get_hits
sweep-absent window now k [] n = refl
sweep-absent window now k ((j, v) ∷ m) n = elim (Bool-cases (same_text j k)) [
  | inl e ↦ absurd (ground (arith, e, n))
  | inr e ↦
      keep_alive-absent j k (alive window now v) (sweep window now m) e
        (sweep-absent window now k m (ground (arith, e, n)))
]

pub sweep-DistinctKeys :
    (window now : ℕ) (m : Hits) → DistinctKeys m → DistinctKeys (sweep window now m)
unfolding sweep
sweep-DistinctKeys window now [] d = tt
sweep-DistinctKeys window now ((j, v) ∷ m) d =
    keep_alive-DistinctKeys j (alive window now v) (sweep window now m)
      (sweep-absent window now j m d.0) (sweep-DistinctKeys window now m d.1)

-- A sweep loses no hit that a later call counts.
pub sweep-alive :
    (window now late : ℕ) (key : Text) (m : Hits)
    → now ≤ late
    → DistinctKeys m
    → alive window late (hits_of key (sweep window now m)) ≡ alive window late (hits_of key m)
unfolding sweep get_hits
sweep-alive window now late key [] h d = refl
sweep-alive window now late key ((j, v) ∷ m) h d =
    let rest = sweep window now m in
    elim (Bool-cases (same_text j key)) [
      | inl e ↦
          ap (alive window late)
            (keep_alive-here j key (alive window now v) rest e (sweep-absent window now j m d.0))
          ∙ alive-alive window now late v h
          ∙ ground (arith, e)
      | inr e ↦
          ap (alive window late) (keep_alive-other j key (alive window now v) rest e)
          ∙ sweep-alive window now late key m h d.1
          ∙ ground (arith, e)
    ]
