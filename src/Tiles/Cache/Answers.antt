-- ===== src/Tiles/Cache/Answers.antt =====
-- What the tile cache answers, against the history of its calls.
use orc_mesh.Prelude.{
  ℕ, zero, suc, ◌+◌, ◌≡◌, refl, sym, ◌∙◌, Option, none, some, List, [], ◌∷◌, arith, drop,
  if◌then◌else◌, Bool-cases, Option-cases, inl, inr,
}
use orc_mesh.Prelude.Dict.{
  Eq, Dict, lookup, insert, remove, IsDistinct, lookup-insert, lookup-remove, lookup-append,
  IsDistinct-insert,
}
use orc_mesh.Tiles.Cache.{
  TileCache, new_cache, evict, move_to_end, get, put, Call, getting, putting, call, calls,
}
use orc_mesh.Tiles.Cache.Bounds.{IsCache, IsDistinct-move_to_end, call-IsCache, new_cache-IsCache}

module _ {ℓ κ} {K : Type ℓ} {V : Type κ} ⦃e : Eq K⦄ where
  -- the last value that was put under a key, `before` if there is none
  abbrev pub last_put : K → List (Call K V) → Option V → Option V
  last_put key [] before = before
  last_put key (getting k ∷ rest) before = last_put key rest before
  last_put key (putting k v ∷ rest) before =
      last_put key rest (if e.beq k key then some v else before)

  -- how many of the calls read
  abbrev pub reads : List (Call K V) → ℕ
  reads [] = 0
  reads (getting k ∷ rest) = suc (reads rest)
  reads (putting k v ∷ rest) = reads rest

  lookup_of_drop :
      (key : K) (v : V) (n : ℕ) (d : Dict K V)
      → IsDistinct d
      → lookup key (drop n d) ≡ some v
      → lookup key d ≡ some v
  unfolding lookup
  lookup_of_drop key v zero d di h = h
  lookup_of_drop key v (suc n) [] di h = h
  lookup_of_drop key v (suc n) ((k, w) ∷ d) di h =
      ground (arith, lookup_of_drop key v n d di.1 h, di.0, e.beq_iff k key)

  lookup-move_to_end :
      (key other : K) (v : V) (d : Dict K V)
      → IsDistinct d
      → lookup other (move_to_end key v d) ≡ (if e.beq key other then some v else lookup other d)
  unfolding move_to_end lookup
  lookup-move_to_end key other v d di = ground (
    arith,
    lookup-append other (remove key d) ((key, v) ∷ []),
    lookup-remove key other d di,
    e.beq_iff key other,
  )

  pub get_answer : (key : K) (c : TileCache K V) → (get key c).1 ≡ lookup key c.entries
  unfolding get
  get_answer key c = ground arith

  -- what stands in the cache after a read stood there before
  pub lookup-get :
      (key other : K) (v : V) (c : TileCache K V)
      → IsCache c
      → lookup other (get key c).0.entries ≡ some v
      → lookup other c.entries ≡ some v
  unfolding get
  lookup-get key other v c h p = elim (Option-cases (lookup key c.entries)) [
    | inl absent ↦ rw (absent, get) at p
    | inr (w, present) ↦
        let moved : lookup other (move_to_end key w c.entries) ≡ some v = rw (present, get) at p in
        ground (
          arith,
          lookup-move_to_end key other w c.entries h.distinct,
          e.beq_iff key other,
          moved,
          present,
        )
  ]

  -- what stands in the cache after a write was written, or stood there before
  pub lookup-put :
      (key other : K) (w v : V) (c : TileCache K V)
      → IsCache c
      → lookup other (put key w c).entries ≡ some v
      → (if e.beq key other then some w else lookup other c.entries) ≡ some v
  unfolding put evict
  lookup-put key other w v c h p =
      let stored = IsDistinct-insert key w c.entries h.distinct in
      let before = lookup_of_drop other v _ _ (IsDistinct-move_to_end key w _ stored) p in
      ground (
        arith,
        lookup-move_to_end key other w (insert key w c.entries) stored,
        lookup-insert key other w c.entries,
        before,
      )

  calls_agree :
      (key : K) (v : V) (cs : List (Call K V)) (c : TileCache K V) (before : Option V)
      → IsCache c
      → ((u : V) → lookup key c.entries ≡ some u → before ≡ some u)
      → lookup key (calls cs c).entries ≡ some v
      → last_put key cs before ≡ some v
  unfolding calls
  calls_agree key v [] c before h agree p = agree v p
  calls_agree key v (getting k ∷ cs) c before h agree p =
      calls_agree key v cs _ before (call-IsCache (getting k) c h)
        (unfold call in λ u q. agree u (lookup-get k key u c h q)) p
  calls_agree key v (putting k w ∷ cs) c before h agree p =
      calls_agree key v cs _ _ (call-IsCache (putting k w) c h)
        (unfold call in λ u q. by_key u (lookup-put k key w u c h q)) p
    where
      by_key :
          (u : V)
          → (if e.beq k key then some w else lookup key c.entries) ≡ some u
          → (if e.beq k key then some w else before) ≡ some u
      by_key u q = elim (Bool-cases (e.beq k key)) [
        | inl same ↦ rw same (rw same at q)
        | inr other ↦ rw other (agree u (rw other at q))
      ]

  -- After any calls on a new cache, if `get` finds a value under a key, it is the value that was last
  -- put there.
  pub get-calls :
      (capacity : ℕ) (cs : List (Call K V)) (key : K) (v : V)
      → (get key (calls cs (new_cache capacity))).1 ≡ some v
      → last_put key cs none ≡ some v
  get-calls capacity cs key v p =
      calls_agree key v cs (new_cache capacity) none (new_cache-IsCache capacity)
        (unfold new_cache lookup in λ u q. cc)
        (sym (get_answer key (calls cs (new_cache capacity))) ∙ p)

  counted-get :
      (key : K) (c : TileCache K V)
      → (get key c).0.hits + (get key c).0.misses ≡ suc (c.hits + c.misses)
  unfolding get
  counted-get key c = ground arith

  counted-calls :
      (cs : List (Call K V)) (c : TileCache K V)
      → (calls cs c).hits + (calls cs c).misses ≡ c.hits + c.misses + reads cs
  unfolding calls
  counted-calls [] c = omega arith
  counted-calls (getting k ∷ cs) c =
      let one : (call (getting k) c).hits + (call (getting k) c).misses ≡ suc (c.hits + c.misses) =
        unfold call in counted-get k c in
      omega (arith, counted-calls cs (call (getting k) c), one)
  counted-calls (putting k w ∷ cs) c =
      let same : (call (putting k w) c).hits + (call (putting k w) c).misses ≡ c.hits + c.misses =
        unfold call put in refl in
      omega (arith, counted-calls cs (call (putting k w) c), same)

  calls-valid : (cs : List (Call K V)) (c : TileCache K V) → IsCache c → IsCache (calls cs c)
  unfolding calls
  calls-valid [] c h = h
  calls-valid (one ∷ cs) c h = calls-valid cs (call one c) (call-IsCache one c h)

  -- After any calls on a new cache, its keys are distinct and no more than its capacity, which is
  -- positive, and its hits and misses add up to the number of reads.
  pub calls-IsCache :
      (capacity : ℕ) (cs : List (Call K V))
      → let c : TileCache K V = calls cs (new_cache capacity) in
        IsCache c × (c.hits + c.misses ≡ reads cs)
  calls-IsCache capacity cs = (
    calls-valid cs (new_cache capacity) (new_cache-IsCache capacity),
    unfold new_cache in omega (arith, counted-calls cs (new_cache capacity)),
  )
