-- ===== src/Tiles/Pack/Order.antt =====
-- The candidates for a tile: which they are, and which comes first.
use orc_mesh.Prelude.{
  ◌+◌, ◌≡◌, refl, sym, ap, ◌∙◌, Bool, true, false, not, ◌&&◌, ◌||◌, Option, none, some, List, [],
  ◌∷◌, ◌++◌, arith, keep, length, length-append, All, All-append, Bool-cases, Option-cases, inl,
  inr,
}
use orc_mesh.Prelude.Int.{ℤ, ltb_ℤ, ◌≤ℤ◌}
use orc_mesh.Tiles.Pack.{
  Bounds, OrcMapsPack, Tile, leb_ℤ, in_zoom, overlaps, inside, first_of, or_first, covers, contains,
  pack_for, packs_for,
}

abbrev pub head {ℓ} : {A : Type ℓ} → List A → Option A
head [] = none
head (a ∷ as') = some a

head-append {ℓ} : {A : Type ℓ} → (xs ys : List A) → head (xs ++ ys) ≡ or_first (head xs) (head ys)
unfolding or_first
head-append [] ys = refl
head-append (x ∷ xs) ys = refl

head-keep {ℓ} :
    {A : Type ℓ} → (test : A → Bool) (xs : List A) → head (keep test xs) ≡ first_of test xs
unfolding first_of
head-keep test [] = refl
head-keep test (x ∷ xs) = elim (Bool-cases (test x)) [
  | inl holds ↦ rw holds refl
  | inr fails ↦ rw fails (head-keep test xs)
]

-- an extent with its ends in order
pub record IsExtent (b : Bounds) : Type 0 where
  pub west_east : b.west ≤ℤ b.east
  pub south_north : b.south ≤ℤ b.north

both : (a b : Bool) → (a && b) ≡ true → (a ≡ true) × (b ≡ true)
both true b h = (refl, h)
both false b h = cc

leb_ℤ→le : (a b : ℤ) → leb_ℤ a b ≡ true → a ≤ℤ b
leb_ℤ→le a b h = ground (arith, h)

not_lt : (a b c : ℤ) → a ≤ℤ b → b ≤ℤ c → ltb_ℤ c a ≡ false
not_lt a b c h k = let le : a ≤ℤ c = omega (arith, h, k) in ground (arith, le)

inside-overlaps :
    (tile : Bounds) (o : Option Bounds)
    → IsExtent tile
    → inside tile o ≡ true
    → overlaps tile o ≡ true
unfolding inside overlaps
inside-overlaps tile none h e = cc
inside-overlaps tile (some b) h e =
    let (w, rest) =
      both (leb_ℤ b.west tile.west)
        (leb_ℤ tile.east b.east && (leb_ℤ b.south tile.south && leb_ℤ tile.north b.north)) e in
    let (ea, rest') =
      both (leb_ℤ tile.east b.east) (leb_ℤ b.south tile.south && leb_ℤ tile.north b.north) rest in
    let (so, nn) = both (leb_ℤ b.south tile.south) (leb_ℤ tile.north b.north) rest' in
    let a = not_lt b.west tile.west tile.east (leb_ℤ→le b.west tile.west w) h.west_east in
    let c = not_lt tile.west tile.east b.east h.west_east (leb_ℤ→le tile.east b.east ea) in
    let d = not_lt b.south tile.south tile.north (leb_ℤ→le b.south tile.south so) h.south_north in
    let f = not_lt tile.south tile.north b.north h.south_north (leb_ℤ→le tile.north b.north nn) in
    joined _ _ _ _ a c d f
  where
    joined :
        (p q r s : Bool)
        → p ≡ false
        → q ≡ false
        → r ≡ false
        → s ≡ false
        → not (p || (q || (r || s))) ≡ true
    joined p q r s a c d f = rw (a, c, d, f) refl

-- a test that fails throughout does not decide which element is the first for another
first_of-none {ℓ} :
    {A : Type ℓ}
    → (c v : A → Bool) (xs : List A) → first_of c xs ≡ none
    → first_of v xs ≡ first_of (λ a. not (c a) && v a) xs
unfolding first_of
first_of-none c v [] e = refl
first_of-none c v (x ∷ xs) e = elim (Bool-cases (c x)) [
  | inl holds ↦ absurd (ground arith)
  | inr fails ↦
      let later = first_of-none c v xs (rw fails at e) in
      elim (Bool-cases (v x)) [
        | inl here ↦ rw (fails, here) refl
        | inr there ↦ rw (fails, there) later
      ]
]

first_of-or_first {ℓ} :
    {A : Type ℓ}
    → (c v : A → Bool) (xs : List A)
    → or_first (first_of c xs) (first_of v xs)
      ≡ or_first (first_of c xs) (first_of (λ a. not (c a) && v a) xs)
unfolding or_first
first_of-or_first c v xs = elim (Option-cases (first_of c xs)) [
  | inl nowhere ↦ rw nowhere (first_of-none c v xs nowhere)
  | inr (x, found) ↦ rw found refl
]

All-of_keep {ℓ} :
    {A : Type ℓ}
    → (test : A → Bool) (P : A → Type 0) (xs : List A) → ((a : A) → test a ≡ true → P a)
    → All P (keep test xs)
All-of_keep test P [] h = tt
All-of_keep test P (x ∷ xs) h = elim (Bool-cases (test x)) [
  | inl holds ↦ rw holds (h x holds, All-of_keep test P xs h)
  | inr fails ↦ rw fails (All-of_keep test P xs h)
]

-- splitting by a test, where the rest is what also passes a weaker one
length-split {ℓ} :
    {A : Type ℓ}
    → (c v : A → Bool) (xs : List A) → ((a : A) → c a ≡ true → v a ≡ true)
    → length (keep c xs) + length (keep (λ a. not (c a) && v a) xs) ≡ length (keep v xs)
length-split c v [] h = omega arith
length-split c v (x ∷ xs) h = elim (Bool-cases (c x)) [
  | inl holds ↦ let also = h x holds in rw (holds, also) (omega (arith, length-split c v xs h))
  | inr fails ↦ elim (Bool-cases (v x)) [
    | inl here ↦ rw (fails, here) (omega (arith, length-split c v xs h))
    | inr there ↦ rw (fails, there) (length-split c v xs h)
  ]
]

module _ (tile_bounds : Tile → Bounds) where
  -- `pack_for`, which is written on its own, gives the first candidate of `packs_for`.
  pub pack_for-packs_for :
      (packs : List OrcMapsPack) (t : Tile)
      → pack_for tile_bounds packs t ≡ head (packs_for tile_bounds packs t)
  unfolding pack_for packs_for
  pack_for-packs_for packs t =
      first_of-or_first (contains tile_bounds t) (covers tile_bounds t) packs
      ∙ sym (
          head-append (keep (contains tile_bounds t) packs) _
          ∙ ap
              (λ (o : Option OrcMapsPack).
                or_first o (
                  head
                    (keep (λ p. not (contains tile_bounds t p) && covers tile_bounds t p) packs)))
              (head-keep (contains tile_bounds t) packs)
          ∙ ap (or_first (first_of (contains tile_bounds t) packs))
              (head-keep (λ p. not (contains tile_bounds t p) && covers tile_bounds t p) packs))

  -- where tiles have their ends in order, a pack that contains a tile covers it
  contains-covers :
      (t : Tile) (p : OrcMapsPack)
      → IsExtent (tile_bounds t)
      → contains tile_bounds t p ≡ true
      → covers tile_bounds t p ≡ true
  unfolding contains covers
  contains-covers t p h e =
      let within : inside (tile_bounds t) p.bounds ≡ true = ground (arith, e) in
      let zoom : in_zoom p t ≡ true = ground (arith, e) in
      rw (zoom, inside-overlaps (tile_bounds t) p.bounds h within) refl

  -- Where a tile's west edge is not east of its east edge, nor its south edge north of its north edge,
  -- every candidate covers the tile, and there are as many candidates as packs that cover it.
  pub packs_for-covers :
      (packs : List OrcMapsPack) (t : Tile)
      → IsExtent (tile_bounds t)
      → All (λ p. covers tile_bounds t p ≡ true) (packs_for tile_bounds packs t)
        × (length (packs_for tile_bounds packs t) ≡ length (keep (covers tile_bounds t) packs))
  unfolding packs_for
  packs_for-covers packs t h = (
    All-append (λ p. covers tile_bounds t p ≡ true) (keep (contains tile_bounds t) packs) _
        (All-of_keep (contains tile_bounds t) _ packs (λ p. contains-covers t p h))
        (All-of_keep (λ p. not (contains tile_bounds t p) && covers tile_bounds t p) _ packs
          (λ p e. ground (arith, e))),
    length-append (keep (contains tile_bounds t) packs) _
        ∙ length-split (contains tile_bounds t) (covers tile_bounds t) packs
            (λ p. contains-covers t p h),
  )
