-- ===== src/Api/Limiter/Window.antt =====
-- The limiter against its promise: a hit is within the limit when the hits of its key in the
-- window before it, counted over the whole history, are fewer than the limit.
use serv_grid.Common.{
  ℕ, ◌≤◌, ◌≡◌, refl, sym, ◌∙◌, ap, inl, inr, Bool, true, false, get_or, List, [], ◌∷◌, ◌++◌, Text,
  same_text, same_text_iff, length, ltb, leb, arith, if◌then◌else◌, Bool-cases, length-append,
}
use serv_grid.Api.Limiter.{
  SlidingWindowOptions, Hits, default_max_keys, get_hits, set_hits, alive, sweep, take, take_all,
}
use serv_grid.Api.Limiter.Map.{
  DistinctKeys, alive-alive, alive-append, get-set, set_hits-DistinctKeys, sweep-DistinctKeys,
  sweep-alive, hits_of,
}

-- The instants of the hits of a key, in order.
unfoldable pub times_of : Text → List (Text × ℕ) → List ℕ
times_of key [] = []
times_of key ((k, t) ∷ past) =
    let rest = times_of key past in elim (same_text k key) [ true ↦ t ∷ rest | false ↦ rest ]

-- The promised answers, from the history alone.
unfoldable pub promised : SlidingWindowOptions → List (Text × ℕ) → List (Text × ℕ) → List Bool
unfolding times_of
promised options past [] = []
promised options past ((key, now) ∷ calls) =
    let rest = promised options (past ++ ((key, now) ∷ [])) calls in
    ltb (length (alive options.window_ms now (times_of key past))) options.limit ∷ rest

-- Does no instant come before `last` or before one earlier in the list?
abbrev pub InOrder : ℕ → List (Text × ℕ) → Type 0
InOrder last [] = Unit
InOrder last ((key, now) ∷ calls) = (last ≤ now) × InOrder now calls

pub times_of-append :
    (key : Text) (l r : List (Text × ℕ)) → times_of key (l ++ r) ≡ times_of key l ++ times_of key r
unfolding times_of
times_of-append key [] r = refl
times_of-append key ((k, t) ∷ l) r = ground (arith, times_of-append key l r)

-- The map holds, for each key, the hits that a call from now on counts.
record Holds (window : ℕ) (past : List (Text × ℕ)) (last : ℕ) (m : Hits) : Type 0 where
  distinct : DistinctKeys m
  same :
      (key : Text) (late : ℕ)
      → last ≤ late
      → alive window late (hits_of key m) ≡ alive window late (times_of key past)

swept-Holds :
    (window now last : ℕ) (b : Bool) (past : List (Text × ℕ)) (m : Hits)
    → last ≤ now
    → Holds window past last m
    → Holds window past now (if b then sweep window now m else m)
swept-Holds window now last true past m le h = record {
  distinct = sweep-DistinctKeys window now m h.distinct;
  same = λ key late l.
      sweep-alive window now late key m l h.distinct ∙ h.same key late (omega (arith, le, l));
}
swept-Holds window now last false past m le h = record {
  distinct = h.distinct;
  same = λ key late l. h.same key late (omega (arith, le, l));
}

hits_of-set :
    (key j : Text) (v : List ℕ) (m : Hits)
    → hits_of j (set_hits key v m) ≡ (if same_text key j then v else hits_of j m)
hits_of-set key j v m = ground (arith, get-set key j v m)

times_of-snoc :
    (key j : Text) (now : ℕ) (past : List (Text × ℕ))
    → times_of j (past ++ ((key, now) ∷ []))
      ≡ (if same_text key j then times_of j past ++ (now ∷ []) else times_of j past ++ [])
unfolding times_of
times_of-snoc key j now past = elim (Bool-cases (same_text key j)) [
  | inl e ↦ times_of-append j past ((key, now) ∷ []) ∙ ground (arith, e)
  | inr e ↦ times_of-append j past ((key, now) ∷ []) ∙ ground (arith, e)
]

same_answers : {x y : Bool} {l r : List Bool} → x ≡ y → l ≡ r → x ∷ l ≡ y ∷ r
same_answers p q = ground (arith, p, q)

-- The hit itself is the last of the list that is measured.
within :
    (l r : List ℕ) (now limit : ℕ)
    → l ≡ r
    → leb (length (l ++ (now ∷ []))) limit ≡ ltb (length r) limit
within l r now limit e = rw e (ground (arith, length-append r (now ∷ [])))

append-nil : (l : List ℕ) → l ++ [] ≡ l
append-nil [] = refl
append-nil (t ∷ l) = ap (λ r. t ∷ r) (append-nil l)

module _ (options : SlidingWindowOptions) where
  swept : ℕ → Hits → Hits
  swept now m =
      if ltb (get_or options.max_keys default_max_keys) (length m)
      then sweep options.window_ms now m
      else m

  recent : ℕ → Text → Hits → List ℕ
  recent now key m = alive options.window_ms now (hits_of key m) ++ (now ∷ [])

  took-Holds :
      (now : ℕ) (key : Text) (past : List (Text × ℕ)) (m : Hits)
      → Holds options.window_ms past now m
      → Holds options.window_ms (past ++ ((key, now) ∷ [])) now (set_hits key (recent now key m) m)
  unfolding recent
  took-Holds now key past m h = record {
    distinct = set_hits-DistinctKeys key (recent now key m) m h.distinct;
    same = λ j late l. elim (Bool-cases (same_text key j)) [
      | inl e ↦
          let w = options.window_ms in
          let mine : hits_of j (set_hits key (recent now key m) m) ≡ recent now key m =
            ground (arith, hits_of-set key j (recent now key m) m, e) in
          let theirs : times_of j (past ++ ((key, now) ∷ [])) ≡ times_of key past ++ (now ∷ []) =
            ground (arith, times_of-snoc key j now past, e, (same_text_iff key j).0 e) in
          ap (alive w late) mine
          ∙ alive-append w late (alive w now (hits_of key m)) (now ∷ [])
          ∙ ap (λ r. r ++ alive w late (now ∷ []))
              (alive-alive w now late (hits_of key m) l ∙ h.same key late l)
          ∙ sym (alive-append w late (times_of key past) (now ∷ []))
          ∙ ap (alive w late) (sym theirs)
      | inr e ↦ ground (
        arith,
        hits_of-set key j (recent now key m) m,
        times_of-snoc key j now past,
        e,
        h.same j late l,
        append-nil (times_of j past),
      )
    ];
  }

  take_all-Holds :
      (calls past : List (Text × ℕ)) (last : ℕ) (m : Hits)
      → InOrder last calls
      → Holds options.window_ms past last m
      → take_all options calls m ≡ promised options past calls
  unfolding take_all promised take swept recent
  take_all-Holds [] past last m o h = refl
  take_all-Holds ((key, now) ∷ calls) past last m o h =
      let b = ltb (get_or options.max_keys default_max_keys) (length m) in
      let here = swept-Holds options.window_ms now last b past m o.0 h in
      let rest =
        take_all-Holds calls (past ++ ((key, now) ∷ [])) now
          (set_hits key (recent now key (swept now m)) (swept now m)) o.1
          (took-Holds now key past (swept now m) here) in
      let counted = here.same key now (omega arith) in
      same_answers
        (within (alive options.window_ms now (hits_of key (swept now m)))
          (alive options.window_ms now (times_of key past)) now options.limit counted)
        rest

  -- For calls whose instants never go back, the limiter answers each with whether the hits of its
  -- key that are younger than the window, over the whole history, are fewer than the limit:
  -- neither the pruning of a key's list nor the sweep of the map changes an answer.
  pub take_all-promised :
      (calls : List (Text × ℕ))
      → InOrder 0 calls
      → take_all options calls [] ≡ promised options [] calls
  unfolding get_hits times_of
  take_all-promised calls o =
      take_all-Holds calls [] 0 [] o (record { distinct = tt; same = λ key late l. refl })
