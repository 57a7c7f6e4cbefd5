-- ===== src/Tiles/Handler/InRange.antt =====
-- The requests for a tile that the handler answers with an image, in src/meshchat/services/orcmaps.py.
use orc_mesh.Prelude.{
  ℕ, ◌^◌, ◌≡◌, ◌≤◌, ◌<◌, refl, ap, inl, inr, ◌&&◌, Option, none, some, List, [], ◌∷◌, arith, ltb,
  leb, Bool-cases,
}
use orc_mesh.Prelude.Int.{ℤ, pos, negsuc}
use orc_mesh.Prelude.Text.{Text, codes, text_eq, text_eq_iff, contains, parse_int}
use orc_mesh.Tiles.Pack.{Bounds, OrcMapsPack, Tile}
use orc_mesh.Tiles.Server.{
  Bytes, Drawn, no_pack_covers, no_pack_rendered, tool_failed, bad_image, Answer, tile_bytes,
  raised, TileServer, render,
}
use orc_mesh.Tiles.Handler.{
  split_slash, strip_slash, before_png, Response, status_page, not_found, out_of_range,
  no_pack_here, render_failed, tile_png, response_of, get_tile, get_parsed, get_named, get_parts,
  do_get,
}

-- a tile is sent only for the renderer's bytes
response_of-tile :
    (answer : Answer) (bytes : Bytes)
    → response_of answer ≡ tile_png bytes
    → answer ≡ tile_bytes bytes
unfolding response_of
response_of-tile (tile_bytes b) bytes e = cc
response_of-tile (raised (no_pack_covers t)) bytes e = cc
response_of-tile (raised (no_pack_rendered t)) bytes e = cc
response_of-tile (raised (tool_failed message)) bytes e =
    elim (Bool-cases (contains (codes "No pack covers") message)) [
      | inl covers ↦ absurd (let q : no_pack_here ≡ tile_png bytes = rw covers at e in cc)
      | inr other ↦ absurd (let q : render_failed ≡ tile_png bytes = rw other at e in cc)
    ]
response_of-tile (raised bad_image) bytes e = cc

module _ (tile_bounds : Tile → Bounds) (draw : OrcMapsPack → Tile → ℕ → Option Text → Drawn)
    (to_png : Bytes → Option Bytes) (s : TileServer) (bytes : Bytes) where
  -- The coordinates are those of a tile in range, and its rendering is what was sent.
  IsRendered : Option ℤ → Option ℤ → Option ℤ → TileServer × Response → Type 0
  IsRendered z x y (s', response) =
      (t : Tile) × (z ≡ some (pos t.z))
      × (x ≡ some (pos t.x))
      × (y ≡ some (pos t.y))
      × (t.z ≤ 31)
      × (t.x < 2 ^ t.z)
      × (t.y < 2 ^ t.z)
      × (render tile_bounds draw to_png t s ≡ (s', tile_bytes bytes))

  -- The segments are "tiles", two numbers and a number before ".png", with the above for these.
  pub IsAsked : List Text → TileServer × Response → Type 0
  IsAsked parts result =
      (z x y name : Text) × (parts ≡ codes "tiles" ∷ z ∷ x ∷ name ∷ [])
      × (before_png name ≡ some y)
      × IsRendered (parse_int z) (parse_int x) (parse_int y) result

  get_tile-IsRendered :
      (z x y : ℤ)
      → (get_tile tile_bounds draw to_png z x y s).1 ≡ tile_png bytes
      → IsRendered (some z) (some x) (some y) (get_tile tile_bounds draw to_png z x y s)
  unfolding get_tile IsRendered
  get_tile-IsRendered (pos z) (pos x) (negsuc y) e = cc
  get_tile-IsRendered (pos z) (negsuc x) y e = cc
  get_tile-IsRendered (negsuc z) x y e = cc
  get_tile-IsRendered (pos z) (pos x) (pos y) e =
      let t : Tile = record { z = z; x = x; y = y } in
      let (s', answer) = render tile_bounds draw to_png t s in
      elim (Bool-cases (leb z 31 && (ltb x (2 ^ z) && ltb y (2 ^ z)))) [
        | inl within ↦
            (let sent : response_of answer ≡ tile_png bytes = rw within at e in
              rw within (
                t,
                refl,
                refl,
                refl,
                ground (arith),
                ground (arith),
                ground (arith),
                ap (λ a. (s', a)) (response_of-tile answer bytes sent),
              ))
        | inr beyond ↦ absurd (let q : out_of_range ≡ tile_png bytes = rw beyond at e in cc)
      ]

  get_parsed-IsRendered :
      (z x y : Option ℤ)
      → (get_parsed tile_bounds draw to_png z x y s).1 ≡ tile_png bytes
      → IsRendered z x y (get_parsed tile_bounds draw to_png z x y s)
  unfolding get_parsed
  get_parsed-IsRendered none x y e = cc
  get_parsed-IsRendered (some z) none y e = cc
  get_parsed-IsRendered (some z) (some x) none e = cc
  get_parsed-IsRendered (some z) (some x) (some y) e = get_tile-IsRendered z x y e

  get_named-IsAsked :
      (z x name : Text) (o : Option Text)
      → before_png name ≡ o
      → (get_named tile_bounds draw to_png z x o s).1 ≡ tile_png bytes
      → IsAsked (codes "tiles" ∷ z ∷ x ∷ name ∷ []) (get_named tile_bounds draw to_png z x o s)
  unfolding get_named IsAsked
  get_named-IsAsked z x name none named e = cc
  get_named-IsAsked z x name (some y) named e = (
    z,
    x,
    y,
    name,
    refl,
    named,
    get_parsed-IsRendered (parse_int z) (parse_int x) (parse_int y) e,
  )

  get_parts-IsAsked :
      (parts : List Text)
      → (get_parts tile_bounds draw to_png parts s).1 ≡ tile_png bytes
      → IsAsked parts (get_parts tile_bounds draw to_png parts s)
  unfolding get_parts
  get_parts-IsAsked [] e = cc
  get_parts-IsAsked (a ∷ []) e = cc
  get_parts-IsAsked (a ∷ b ∷ []) e = cc
  get_parts-IsAsked (a ∷ b ∷ c ∷ []) e = cc
  get_parts-IsAsked (a ∷ b ∷ c ∷ d ∷ f ∷ rest) e = cc
  get_parts-IsAsked (root ∷ z ∷ x ∷ y ∷ []) e = elim (Bool-cases (text_eq root (codes "tiles"))) [
    | inl tiles ↦
        rw (tiles, (text_eq_iff root (codes "tiles")).0 tiles)
          (get_named-IsAsked z x y (before_png y) refl (rw tiles at e))
    | inr other ↦ absurd (let q : not_found ≡ tile_png bytes = rw other at e in cc)
  ]

  -- When `do_get` sends tile bytes, the path without slashes at its ends has four segments,
  -- "tiles", z, x and y with ".png", which `parse_int` reads as coordinates of a tile with z at most 31
  -- and x and y below 2 ^ z; the bytes are what `render` answers for that tile, and the server's next
  -- state is the one that `render` leaves.
  pub do_get-IsAsked :
      (path : Text)
      → (do_get tile_bounds draw to_png path s).1 ≡ tile_png bytes
      → IsAsked (split_slash (strip_slash path)) (do_get tile_bounds draw to_png path s)
  unfolding do_get
  do_get-IsAsked path e = elim (Bool-cases (text_eq path (codes "/status"))) [
    | inl status ↦ absurd (let q : status_page ≡ tile_png bytes = rw status at e in cc)
    | inr other ↦ rw other (get_parts-IsAsked (split_slash (strip_slash path)) (rw other at e))
  ]
