-- ===== src/Tiles/Handler.antt =====
-- `do_GET` of the request handler in src/meshchat/services/orcmaps.py: the path of a URL, without its
-- query, to the tile server. The headers and the body of the status page are left out.
pub mod InRange
use orc_mesh.Prelude.{
  ℕ, ◌-◌, ◌^◌, Bool, true, false, ◌&&◌, Option, none, some, List, [], ◌∷◌, ◌==◌, ltb, leb, length,
  take, drop, if◌then◌else◌,
}
use orc_mesh.Prelude.Int.{ℤ, pos, negsuc}
use orc_mesh.Prelude.Text.{Text, codes, text_eq, contains, parse_int}
use orc_mesh.Tiles.Pack.{Bounds, OrcMapsPack, Tile}
use orc_mesh.Tiles.Server.{
  Bytes, Drawn, TileError, no_pack_covers, no_pack_rendered, tool_failed, bad_image, Answer,
  tile_bytes, raised, TileServer, render,
}

abbrev slash : ℕ
slash = b'/'

lstrip_slash : Text → Text
lstrip_slash [] = []
lstrip_slash (c ∷ s) = if c == slash then lstrip_slash s else c ∷ s

cons_unless_last : ℕ → Text → Text
cons_unless_last c [] = if c == slash then [] else c ∷ []
cons_unless_last c (d ∷ s) = c ∷ d ∷ s

rstrip_slash : Text → Text
unfolding cons_unless_last
rstrip_slash [] = []
rstrip_slash (c ∷ s) = cons_unless_last c (rstrip_slash s)

-- path.strip("/")
unfoldable pub strip_slash : Text → Text
unfolding lstrip_slash rstrip_slash
strip_slash s = rstrip_slash (lstrip_slash s)

on_first : ℕ → List Text → List Text
on_first c [] = (c ∷ []) ∷ []
on_first c (word ∷ words) = (c ∷ word) ∷ words

-- s.split("/")
unfoldable pub split_slash : Text → List Text
unfolding on_first
split_slash [] = [] ∷ []
split_slash (c ∷ s) =
    let words = split_slash s in if c == slash then [] ∷ words else on_first c words

-- the text before ".png", None where it does not end so
unfoldable pub before_png : Text → Option Text
before_png s =
    let n = length s - 4 in
    if leb 4 (length s) && text_eq (drop n s) (codes ".png") then some (take n s) else none

-- what is sent
pub data Response : Type 0 where
  status_page not_found bad_coordinates out_of_range no_pack_here render_failed : Response
  tile_png : Bytes → Response

unfoldable pub response_of : Answer → Response
response_of (tile_bytes bytes) = tile_png bytes
response_of (raised (no_pack_covers t)) = no_pack_here
response_of (raised (no_pack_rendered t)) = render_failed
response_of (raised (tool_failed message)) =
    if contains (codes "No pack covers") message then no_pack_here else render_failed
response_of (raised bad_image) = render_failed

module _ (tile_bounds : Tile → Bounds) (draw : OrcMapsPack → Tile → ℕ → Option Text → Drawn)
    (to_png : Bytes → Option Bytes) where
  -- the coordinates are integers
  unfoldable pub get_tile : ℤ → ℤ → ℤ → TileServer → TileServer × Response
  get_tile (pos z) (pos x) (pos y) s =
      if leb z 31 && (ltb x (2 ^ z) && ltb y (2 ^ z))
      then (let (s', answer) = render tile_bounds draw to_png (record { z = z; x = x; y = y }) s in
          (s', response_of answer))
      else (s, out_of_range)
  get_tile (pos z) (pos x) (negsuc y) s = (s, out_of_range)
  get_tile (pos z) (negsuc x) y s = (s, out_of_range)
  get_tile (negsuc z) x y s = (s, out_of_range)

  -- the coordinates are what `int` makes of the segments, None where it raises
  unfoldable pub get_parsed : Option ℤ → Option ℤ → Option ℤ → TileServer → TileServer × Response
  get_parsed none x y s = (s, bad_coordinates)
  get_parsed (some z) none y s = (s, bad_coordinates)
  get_parsed (some z) (some x) none s = (s, bad_coordinates)
  get_parsed (some z) (some x) (some y) s = get_tile z x y s

  unfoldable pub get_named : Text → Text → Option Text → TileServer → TileServer × Response
  get_named z x none s = (s, not_found)
  get_named z x (some y) s = get_parsed (parse_int z) (parse_int x) (parse_int y) s

  unfoldable pub get_parts : List Text → TileServer → TileServer × Response
  get_parts (root ∷ z ∷ x ∷ y ∷ []) s =
      if text_eq root (codes "tiles") then get_named z x (before_png y) s else (s, not_found)
  get_parts _ s = (s, not_found)

  -- do_GET
  unfoldable pub do_get : Text → TileServer → TileServer × Response
  do_get path s =
      if text_eq path (codes "/status")
      then (s, status_page)
      else get_parts (split_slash (strip_slash path)) s
