-- ===== src/Tiles/Pack.antt =====
-- `OrcMapsPack` of src/meshchat/services/orcmaps.py, and which pack serves a tile. A degree is an
-- integer count of one fixed small fraction (a float is a whole multiple of 2⁻¹⁰⁷⁴), so a comparison
-- is exact. `tile_bounds_deg`, which goes through the floating-point functions of `math`, is a
-- parameter.
pub mod Order
use orc_mesh.Prelude.{
  ℕ, Bool, true, false, not, ◌&&◌, ◌||◌, Option, none, some, List, [], ◌∷◌, ◌++◌, keep,
  if◌then◌else◌,
}
use orc_mesh.Prelude.Int.{ℤ, pos, ltb_ℤ}
use orc_mesh.Prelude.Text.{Text}

-- the extent of a tile, or the bounds of a pack
pub record Bounds : Type 0 where
  pub west : ℤ
  pub south : ℤ
  pub east : ℤ
  pub north : ℤ

-- the fields that the tile server reads
pub record OrcMapsPack : Type 0 where
  pub stem : Text
  pub pmtiles : Text
  pub min_zoom : ℤ
  pub max_zoom : ℤ
  pub bounds : Option Bounds

pub record Tile : Type 0 where
  pub z : ℕ
  pub x : ℕ
  pub y : ℕ

abbrev pub leb_ℤ : ℤ → ℤ → Bool
leb_ℤ a b = not (ltb_ℤ b a)

unfoldable pub in_zoom : OrcMapsPack → Tile → Bool
in_zoom p t = leb_ℤ p.min_zoom (pos t.z) && leb_ℤ (pos t.z) p.max_zoom

-- the tile and the bounds meet
unfoldable pub overlaps : Bounds → Option Bounds → Bool
overlaps tile none = true
overlaps tile (some b) = not (
    ltb_ℤ tile.east b.west
    || (ltb_ℤ b.east tile.west || (ltb_ℤ tile.north b.south || ltb_ℤ b.north tile.south)))

-- the tile lies within the bounds
unfoldable pub inside : Bounds → Option Bounds → Bool
inside tile none = false
inside tile (some b) =
    leb_ℤ b.west tile.west
    && (leb_ℤ tile.east b.east && (leb_ℤ b.south tile.south && leb_ℤ tile.north b.north))

module _ {ℓ} {A : Type ℓ} where
  -- `for p in packs: if test(p): return p`
  unfoldable pub first_of : (A → Bool) → List A → Option A
  first_of test [] = none
  first_of test (a ∷ as') = if test a then some a else first_of test as'

or_first {ℓ} : {A : Type ℓ} → Option A → Option A → Option A
or_first none b = b
or_first (some a) b = some a

module _ (tile_bounds : Tile → Bounds) where
  -- OrcMapsPack.covers
  unfoldable pub covers : Tile → OrcMapsPack → Bool
  covers t p = in_zoom p t && overlaps (tile_bounds t) p.bounds

  -- OrcMapsPack.contains
  unfoldable pub contains : Tile → OrcMapsPack → Bool
  contains t p = in_zoom p t && inside (tile_bounds t) p.bounds

  -- TileServer.pack_for
  unfoldable pub pack_for : List OrcMapsPack → Tile → Option OrcMapsPack
  unfolding or_first
  pack_for packs t = or_first (first_of (contains t) packs) (first_of (covers t) packs)

  -- TileServer.packs_for; a pack of the list is in `containing` exactly when it contains the tile
  unfoldable pub packs_for : List OrcMapsPack → Tile → List OrcMapsPack
  packs_for packs t = keep (contains t) packs ++ keep (λ p. not (contains t p) && covers t p) packs
