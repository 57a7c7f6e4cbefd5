-- ===== src/Examples/Serving.antt =====
-- The theorems on the tile cache, the packs and the supervisor, at concrete inputs.
use orc_mesh.Prelude.{
  ◌*◌, All, keep, length, take, drop, ℕ, ◌+◌, ◌≡◌, ◌≢◌, refl, true, false, Option, none, some, List,
  [], ◌∷◌, String, arith,
}
use orc_mesh.Prelude.Int.{pos, negsuc}
use orc_mesh.Prelude.Text.{Text, codes}
use orc_mesh.Prelude.Dict.{nat_eq, lookup, insert, remove}
use orc_mesh.Supervisor.{
  Action, connect_tcp, ConnectionProfile, Supervisor, cancel, timeout, error_occurred,
  connection_lost, tcp_timeout, tcp_refused, enter_reconnecting, new_supervisor, run, put_profile,
  load_profile, Settings,
}
use orc_mesh.Supervisor.Outage.{lost_connection, failed_retries, expected_calls, over_tcp}
use orc_mesh.Supervisor.Retries.{Inv, run_lem, run-cancel}
use orc_mesh.Supervisor.Settings.{load_profile-put_profile}
use orc_mesh.Tiles.Cache.{
  TileCache, new_cache, get, put, Call, getting, putting, call, calls, move_to_end,
}
use orc_mesh.Tiles.Cache.Bounds.{IsCache}
use orc_mesh.Tiles.Cache.Answers.{last_put, get-calls, calls-IsCache}
use orc_mesh.Tiles.Cache.Recency.{get-put}
use orc_mesh.Tiles.Ppm.{
  Ppm, out_of_fuel, and_value, skip_spaces, read_digits, read_header, image_of, parse_ppm_p6,
  copies, bytes_eq, flat, is_empty_render,
}
use orc_mesh.Tiles.Ppm.Flat.{IsImage, is_empty_render_lem}
use orc_mesh.Tiles.Ppm.Fuel.{read_header_fuel}
use orc_mesh.Tiles.Pack.{Bounds, OrcMapsPack, Tile, pack_for, packs_for, covers}
use orc_mesh.Tiles.Pack.Order.{head, IsExtent, pack_for-packs_for, packs_for-covers}

abbrev profile : ConnectionProfile
profile = record {
  transport = codes "tcp";
  ble_address = [];
  tcp_host = codes "node.local";
  tcp_port = pos 4403;
  serial_port = [];
}

abbrev connected_once : Supervisor
connected_once = record {
  store = [];
  profile = some profile;
  attempt = 0;
  was_connected = true;
  active = false;
  timer = none;
}

abbrev reconnection : Action
reconnection = connect_tcp profile.tcp_host profile.tcp_port

lost_connection_example :
    let after =
      run
        (error_occurred connection_lost ∷ failed_retries (tcp_timeout ∷ tcp_refused ∷ []))
        connected_once in
    (after.0.active ≡ true)
    × (after.0.attempt ≡ 2)
    × (after.0.timer ≡ some 15_000)
    × (after.1
        ≡ enter_reconnecting 1 ∷ expected_calls reconnection 0 (tcp_timeout ∷ tcp_refused ∷ []))
lost_connection_example =
    lost_connection profile reconnection (tcp_timeout ∷ tcp_refused ∷ []) connected_once
      (over_tcp refl) refl refl refl

run_lem_example : Inv (run (error_occurred connection_lost ∷ timeout ∷ []) (new_supervisor [])).0
run_lem_example = run_lem (error_occurred connection_lost ∷ timeout ∷ []) []

run-cancel_example :
    (run (cancel ∷ error_occurred connection_lost ∷ timeout ∷ []) connected_once).1 ≡ []
run-cancel_example =
    run-cancel (error_occurred connection_lost ∷ timeout ∷ []) connected_once (refl, (refl, tt))

abbrev old_settings : Settings
old_settings = ("connection.transport", codes "ble") ∷ []

has_transport : profile.transport ≢ []
has_transport e = cc

load_profile-put_profile_example : load_profile (put_profile profile old_settings) ≡ some profile
load_profile-put_profile_example = load_profile-put_profile profile old_settings has_transport

abbrev some_calls : List (Call ℕ String)
some_calls = putting 1 "a" ∷ putting 2 "b" ∷ getting 1 ∷ putting 1 "c" ∷ []

found_c : (get 1 (calls some_calls (new_cache 2))).1 ≡ some "c"
unfolding get calls new_cache put lookup insert remove move_to_end call
found_c = refl

get-calls_example : last_put 1 some_calls none ≡ some "c"
get-calls_example = get-calls 2 some_calls 1 "c" found_c

calls-IsCache_example :
    let c : TileCache ℕ String = calls some_calls (new_cache 2) in
    IsCache c × (c.hits + c.misses ≡ 1)
calls-IsCache_example = calls-IsCache 2 some_calls

abbrev empty_cache : TileCache ℕ String
empty_cache = record { capacity = 2; entries = []; hits = 0; misses = 0 }

empty_cache-IsCache : IsCache empty_cache
empty_cache-IsCache = record { distinct = tt; bounded = omega arith; positive = omega arith }

get-put_example : (get 1 (calls (putting 2 "b" ∷ []) (put 1 "a" empty_cache))).1 ≡ some "a"
get-put_example =
    get-put 1 "a" (putting 2 "b" ∷ []) empty_cache empty_cache-IsCache (refl, tt) (omega arith)

-- every tile is taken to be the square from -10 to 10
abbrev square : Tile → Bounds
square t = record { west = negsuc 9; south = negsuc 9; east = pos 10; north = pos 10 }

abbrev pack : Text → Option Bounds → OrcMapsPack
pack stem bounds = record {
  stem = stem;
  pmtiles = stem;
  min_zoom = pos 0;
  max_zoom = pos 14;
  bounds = bounds;
}

abbrev packs : List OrcMapsPack
packs =
    pack (codes "city") (some (record { west = pos 0; south = pos 0; east = pos 1; north = pos 1 }))
    ∷ pack (codes "world")
        (some (record { west = negsuc 179; south = negsuc 84; east = pos 180; north = pos 85 }))
    ∷ []

abbrev tile : Tile
tile = record { z = 2; x = 1; y = 1 }

pack_for-packs_for_example : pack_for square packs tile ≡ head (packs_for square packs tile)
pack_for-packs_for_example = pack_for-packs_for square packs tile

square-IsExtent : IsExtent (square tile)
square-IsExtent = record { west_east = omega arith; south_north = omega arith }

packs_for-covers_example :
    All (λ p. covers square tile p ≡ true) (packs_for square packs tile)
    × (length (packs_for square packs tile) ≡ length (keep (covers square tile) packs))
packs_for-covers_example = packs_for-covers square packs tile square-IsExtent

-- "P6 1 2 255", and two pixels of one colour
abbrev flat_image : List ℕ
flat_image = 80 ∷ 54 ∷ 32 ∷ 49 ∷ 32 ∷ 50 ∷ 32 ∷ 50 ∷ 53 ∷ 53 ∷ 10 ∷ 7 ∷ 8 ∷ 9 ∷ 7 ∷ 8 ∷ 9 ∷ []

flat_image_empty : is_empty_render flat_image ≡ true
unfolding is_empty_render parse_ppm_p6 read_header and_value skip_spaces read_digits image_of flat
    copies bytes_eq
flat_image_empty = refl

is_empty_render_lem_example :
    (p : Ppm) × (parse_ppm_p6 flat_image ≡ some p)
    × IsImage p
    × (p.pixels ≡ copies (p.width * p.height) (take 3 p.pixels))
is_empty_render_lem_example = is_empty_render_lem flat_image flat_image_empty

read_header_fuel_example :
    (read_header 16 3 (drop 2 flat_image) ≢ out_of_fuel)
    × (read_header 16 3 (drop 2 flat_image) ≡ read_header 100 3 (drop 2 flat_image))
read_header_fuel_example = read_header_fuel 16 100 3 (drop 2 flat_image) (omega arith) (omega arith)
