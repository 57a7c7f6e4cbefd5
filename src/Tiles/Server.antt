-- ===== src/Tiles/Server.antt =====
-- `TileServer` of src/meshchat/services/orcmaps.py: which bytes answer a tile. The command-line tool
-- that draws a tile of a pack is a parameter, as are zlib's `compress` and `crc32`; so the model is of
-- a tool that gives the same answer for the same tile, pack, size and style.
pub mod Stems
pub mod Uncached
pub mod Serving
use orc_mesh.Prelude.{
  ℕ, zero, suc, ◌+◌, ◌*◌, ◌/◌, ◌%◌, ◌≡◌, ◌↔◌, refl, Bool, true, false, ◌&&◌, ◌||◌, not, Option,
  none, some, List, [], ◌∷◌, ◌++◌, arith, ◌==◌, take, drop, length, if◌then◌else◌,
}
use orc_mesh.Prelude.Text.{Text, codes, text_eq, text_eq_iff}
use orc_mesh.Prelude.Dict.{Eq}
use orc_mesh.Tiles.Cache.{TileCache, new_cache, clear, get, put}
use orc_mesh.Tiles.Pack.{Bounds, OrcMapsPack, Tile, packs_for}
use orc_mesh.Tiles.Ppm.{Ppm, parse_ppm_p6, is_empty_render}

abbrev pub Bytes : Type 0
Bytes = List ℕ

-- (pack.stem, z, x, y, self.size, self.style)
pub data TileKey : Type 0 where
  tile_key : Text → ℕ → ℕ → ℕ → ℕ → Option Text → TileKey

unfoldable pub eq_style : Option Text → Option Text → Bool
eq_style none none = true
eq_style (some a) (some b) = text_eq a b
eq_style none (some b) = false
eq_style (some a) none = false

unfoldable pub eq_tile_key : TileKey → TileKey → Bool
unfolding eq_style
eq_tile_key (tile_key s z x y n t) (tile_key s' z' x' y' n' t') =
    text_eq s s' && (z == z' && (x == x' && (y == y' && (n == n' && eq_style t t'))))

pub eq_style_iff : (a b : Option Text) → (eq_style a b ≡ true) ↔ (a ≡ b)
unfolding eq_style
eq_style_iff none none = (λ h. refl, λ h. refl)
eq_style_iff none (some b) = (λ h. cc, λ h. cc)
eq_style_iff (some a) none = (λ h. cc, λ h. cc)
eq_style_iff (some a) (some b) = (λ h. cc ((text_eq_iff a b).0 h), λ h. (text_eq_iff a b).1 (cc))

pub eq_tile_key_iff : (a b : TileKey) → (eq_tile_key a b ≡ true) ↔ (a ≡ b)
unfolding eq_tile_key
eq_tile_key_iff (tile_key s z x y n t) (tile_key s' z' x' y' n' t') = (
  λ h. ground (arith, text_eq_iff s s', eq_style_iff t t'),
  λ h. ground (arith, text_eq_iff s s', eq_style_iff t t'),
)

instance unfoldable pub tile_key_eq : Eq TileKey
unfolding eq_tile_key
tile_key_eq = record { beq = eq_tile_key; beq_iff = eq_tile_key_iff }

-- what the cache holds under a key: a tile, or the marker _NO_DATA
pub data Cached : Type 0 where
  png : Bytes → Cached
  no_data : Cached

-- the outcomes of OrcMapsError: no candidate, no candidate rendered, an error of the tool, and an image
-- that cannot be parsed
pub data TileError : Type 0 where
  no_pack_covers no_pack_rendered : Tile → TileError
  tool_failed : Text → TileError
  bad_image : TileError

pub data Answer : Type 0 where
  tile_bytes : Bytes → Answer
  raised : TileError → Answer

-- the tool's answer
pub data Drawn : Type 0 where
  ppm : Bytes → Drawn
  tool_error : Text → Drawn

pub record TileServer : Type 0 where
  pub packs : List OrcMapsPack
  pub style : Option Text
  pub size : ℕ
  pub cache : TileCache TileKey Cached

-- TileServer(tools, packs), None where it raises
unfoldable pub new_server : List OrcMapsPack → Option Text → ℕ → ℕ → Option TileServer
new_server [] style size capacity = none
new_server (p ∷ packs) style size capacity =
    some (record { packs = p ∷ packs; style = style; size = size; cache = new_cache capacity })

-- TileServer.set_style
unfoldable pub set_style : Option Text → TileServer → TileServer
unfolding eq_style
set_style style s =
    if eq_style style s.style then s else record s { style = style; cache = clear s.cache }

pub data Request : Type 0 where
  ask : Tile → Request
  toggle : Option Text → Request

-- struct.pack(">I", n), for n below 2³²
unfoldable pub pack_u32 : ℕ → Bytes
pack_u32 n = n / 16_777_216 % 256 ∷ n / 65_536 % 256 ∷ n / 256 % 256 ∷ n % 256 ∷ []

-- a filter byte before each scanline
unfoldable pub scanlines : ℕ → ℕ → Bytes → Bytes
scanlines stride zero pixels = []
scanlines stride (suc rows) pixels =
    0 ∷ take stride pixels ++ scanlines stride rows (drop stride pixels)

module _ (compress : Bytes → Bytes) (crc32 : Bytes → ℕ) where
  -- _png_chunk
  unfoldable pub png_chunk : Bytes → Bytes → Bytes
  png_chunk tag body = pack_u32 (length body) ++ (tag ++ (body ++ pack_u32 (crc32 (tag ++ body))))

  unfoldable pub png_of : Ppm → Bytes
  png_of p =
      (137 ∷ 80 ∷ 78 ∷ 71 ∷ 13 ∷ 10 ∷ 26 ∷ 10 ∷ [])
      ++ (png_chunk (codes "IHDR")
            (pack_u32 p.width ++ (pack_u32 p.height ++ (8 ∷ 2 ∷ 0 ∷ 0 ∷ 0 ∷ [])))
          ++ (png_chunk (codes "IDAT") (compress (scanlines (p.width * 3) p.height p.pixels))
              ++ png_chunk (codes "IEND") []))

  -- _ppm_to_png, None where the parser raises
  unfoldable pub ppm_to_png : Bytes → Option Bytes
  ppm_to_png data_bytes = elim (parse_ppm_p6 data_bytes) [ none ↦ none | some p ↦ some (png_of p) ]

abbrev pub is_last {ℓ} : {A : Type ℓ} → List A → Bool
is_last [] = true
is_last (x ∷ xs) = false

abbrev pub Cache : Type 0
Cache = TileCache TileKey Cached

abbrev pub key_for : ℕ → Option Text → Tile → OrcMapsPack → TileKey
key_for size style t pack = tile_key pack.stem t.z t.x t.y size style

-- a drawn tile that is kept
unfoldable pub store_png : TileKey → Option Bytes → Cache → Cache × Answer
store_png key none c = (c, raised bad_image)
store_png key (some bytes) c = (put key (png bytes) c, tile_bytes bytes)

module _ (tile_bounds : Tile → Bounds) (draw : OrcMapsPack → Tile → ℕ → Option Text → Drawn)
    (to_png : Bytes → Option Bytes) where
  -- after the tool has drawn, `last` if no candidate is left, and `later` for the next one
  unfoldable pub after_draw :
      TileKey → Bool → (Cache → Cache × Answer) → Drawn → Cache → Cache × Answer
  after_draw key last later (tool_error e) c = (c, raised (tool_failed e))
  after_draw key last later (ppm bytes) c =
      if last || not (is_empty_render bytes)
      then store_png key (to_png bytes) c
      else later (put key no_data c)

  unfoldable pub after_get :
      TileKey → Bool → (Cache → Cache × Answer) → Drawn → Option Cached → Cache → Cache × Answer
  after_get key last later drawn none c = after_draw key last later drawn c
  after_get key last later drawn (some no_data) c = later c
  after_get key last later drawn (some (png bytes)) c = (c, tile_bytes bytes)

  -- the loop of TileServer.render over the candidates
  unfoldable pub render_from : ℕ → Option Text → Tile → List OrcMapsPack → Cache → Cache × Answer
  render_from size style t [] c = (c, raised (no_pack_rendered t))
  render_from size style t (pack ∷ rest) c =
      let key = key_for size style t pack in
      let (c', found) = get key c in
      let later = render_from size style t rest in
      after_get key (is_last rest) later (draw pack t size style) found c'

  unfoldable pub render_among : Tile → List OrcMapsPack → TileServer → TileServer × Answer
  render_among t [] s = (s, raised (no_pack_covers t))
  render_among t (pack ∷ rest) s =
      let (c, answer) = render_from s.size s.style t (pack ∷ rest) s.cache in
      (record s { cache = c }, answer)

  -- TileServer.render
  unfoldable pub render : Tile → TileServer → TileServer × Answer
  render t s = render_among t (packs_for tile_bounds s.packs t) s

  -- a tile is asked for, or the theme is toggled
  unfoldable pub serve : List Request → TileServer → List Answer
  serve [] s = []
  serve (ask t ∷ requests) s = let (s', answer) = render t s in answer ∷ serve requests s'
  serve (toggle style ∷ requests) s = serve requests (set_style style s)
