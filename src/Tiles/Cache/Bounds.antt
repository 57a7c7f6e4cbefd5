-- ===== src/Tiles/Cache/Bounds.antt =====
-- What holds of the tile cache after every operation, and what it answers.
use orc_mesh.Prelude.{
  ℕ, ◌+◌, ◌-◌, ◌≤◌, ◌<◌, ◌≡◌, refl, ap, true, none, [], ◌∷◌, ◌++◌, arith, length, length-append,
  length-drop, if◌then◌else◌, Bool-cases, Option-cases, inl, inr, is_some,
}
use orc_mesh.Prelude.Dict.{
  Eq, Dict, lookup, insert, remove, IsDistinct, lookup-remove, lookup-append, IsDistinct-insert,
  IsDistinct-remove, IsDistinct-drop, beq_refl,
}
use orc_mesh.Tiles.Cache.{TileCache, new_cache, Call, getting, putting, call, move_to_end, get, put}

module _ {ℓ κ} {K : Type ℓ} {V : Type κ} ⦃e : Eq K⦄ where
  pub record IsCache (c : TileCache K V) : Type κ where
    pub distinct : IsDistinct c.entries
    pub bounded : length c.entries ≤ c.capacity
    pub positive : 0 < c.capacity

  length-remove :
      (key : K) (d : Dict K V)
      → length (remove key d) + (if is_some (lookup key d) then 1 else 0) ≡ length d
  unfolding remove lookup
  length-remove key [] = omega arith
  length-remove key ((k, v) ∷ d) = ground (arith, length-remove key d)

  pub length-remove-le : (key : K) (d : Dict K V) → length (remove key d) ≤ length d
  length-remove-le key d = omega (arith, length-remove key d)

  IsDistinct-append_new :
      (key : K) (v : V) (d : Dict K V)
      → lookup key d ≡ none
      → IsDistinct d
      → IsDistinct (d ++ (key, v) ∷ [])
  unfolding lookup
  IsDistinct-append_new key v [] fresh di = (refl, tt)
  IsDistinct-append_new key v ((k, w) ∷ d) fresh di = (
    ground (arith, lookup-append k d ((key, v) ∷ []), e.beq_iff k key, e.beq_iff key k, di.0),
    IsDistinct-append_new key v d (ground arith) di.1,
  )

  pub lookup-remove_self :
      (key : K) (d : Dict K V) → IsDistinct d → lookup key (remove key d) ≡ none
  lookup-remove_self key d di = simp (lookup-remove key key d di, beq_refl)

  pub IsDistinct-move_to_end :
      (key : K) (v : V) (d : Dict K V) → IsDistinct d → IsDistinct (move_to_end key v d)
  unfolding move_to_end
  IsDistinct-move_to_end key v d di =
      IsDistinct-append_new key v (remove key d) (lookup-remove_self key d di)
        (IsDistinct-remove key d di)

  length-move_to_end :
      (key : K) (v : V) (d : Dict K V)
      → is_some (lookup key d) ≡ true
      → length (move_to_end key v d) ≡ length d
  unfolding move_to_end
  length-move_to_end key v d h =
      ground (arith, length-remove key d, length-append (remove key d) ((key, v) ∷ []))

  -- Reading keeps the invariant.
  pub get-IsCache : (key : K) (c : TileCache K V) → IsCache c → IsCache (get key c).0
  unfolding get
  get-IsCache key c h = elim (Option-cases (lookup key c.entries)) [
    | inl absent ↦
        rw (absent, get)
          (record { distinct = h.distinct; bounded = h.bounded; positive = h.positive })
    | inr (v, present) ↦
        rw (present, get)
          (record {
            distinct = IsDistinct-move_to_end key v c.entries h.distinct;
            bounded =
                omega (arith, length-move_to_end key v c.entries (ap is_some present), h.bounded);
            positive = h.positive;
          })
  ]

  -- Writing keeps the invariant: keys stay distinct, and there are never more than `capacity` tiles.
  pub put-IsCache : (key : K) (v : V) (c : TileCache K V) → IsCache c → IsCache (put key v c)
  unfolding put
  put-IsCache key v c h =
      let moved : Dict K V = move_to_end key v (insert key v c.entries) in
      record {
        distinct =
            IsDistinct-drop _ moved
              (IsDistinct-move_to_end key v _ (IsDistinct-insert key v c.entries h.distinct));
        bounded = omega (arith, length-drop (length moved - c.capacity) moved);
        positive = h.positive;
      }

  pub remove-insert : (key : K) (v : V) (d : Dict K V) → remove key (insert key v d) ≡ remove key d
  unfolding remove insert
  remove-insert key v [] = rw (beq_refl key)
  remove-insert key v ((k, w) ∷ d) = elim (Bool-cases (e.beq k key)) [
    | inl same ↦ rw (same, same)
    | inr other ↦ rw (other, other) (ap (λ (r : Dict K V). (k, w) ∷ r) (remove-insert key v d))
  ]

  -- Any call keeps the invariant.
  pub call-IsCache : (one : Call K V) (c : TileCache K V) → IsCache c → IsCache (call one c)
  unfolding call
  call-IsCache (getting key) c h = get-IsCache key c h
  call-IsCache (putting key v) c h = put-IsCache key v c h

  pub new_cache-IsCache : (capacity : ℕ) → IsCache (new_cache {K = K} {V = V} capacity)
  unfolding new_cache
  new_cache-IsCache capacity = record {
    distinct = tt;
    bounded = omega arith;
    positive = omega arith;
  }
