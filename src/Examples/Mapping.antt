-- ===== src/Examples/Mapping.antt =====
-- The theorems on the schema, the tile server and the packet analysis, at concrete inputs.
use orc_mesh.Prelude.{
  ℕ, ◌+◌, ◌≡◌, ◌≤◌, refl, ◌⊎◌, true, false, Option, none, some, List, [], ◌∷◌, str_eq, arith, keep,
  is_some,
}
use orc_mesh.Prelude.Int.{pos, negsuc}
use orc_mesh.Prelude.Text.{Text, codes, parse_int}
use orc_mesh.Prelude.Dict.{lookup, nat_eq, string_eq}
use orc_mesh.Model.Packet.{NetworkPacket}
use orc_mesh.Radio.Airtime.{ModemParams}
use orc_mesh.Analytics.Intel.{Analysis, new_analysis, observe_all, analysed_packets, total_airtime}
use orc_mesh.Analytics.Intel.Sums.{sum_of, is_from, is_attributed}
use orc_mesh.Analytics.Intel.Account.{IsAccount, ticks_of_packet, observe_all-IsAccount}
use orc_mesh.Store.Schema.{Schema, Refusals, apply_schema}
use orc_mesh.Store.Schema.Keeping.{Keeps, apply_schema-Keeps}
use orc_mesh.Store.Schema.Added.{IsConsistent}
use orc_mesh.Store.Schema.Complete.{apply_schema-IsConsistent}
use orc_mesh.Tiles.Cache.{new_cache, get, move_to_end}
use orc_mesh.Tiles.Pack.{
  Bounds, OrcMapsPack, Tile, packs_for, contains, in_zoom, inside, covers, overlaps,
}
use orc_mesh.Tiles.Server.{
  Bytes, Drawn, ppm, TileServer, new_server, Request, ask, toggle, serve, render, render_among,
  render_from, after_get, tile_key, png, tile_key_eq, eq_tile_key, eq_style,
}
use orc_mesh.Tiles.Server.Stems.{IsStemmed, Differs}
use orc_mesh.Tiles.Handler.{
  tile_png, out_of_range, response_of, do_get, strip_slash, split_slash, get_parts, before_png,
  get_named, get_parsed, get_tile,
}
use orc_mesh.Tiles.Handler.InRange.{IsAsked, do_get-IsAsked}
use orc_mesh.Tiles.Server.Uncached.{uncached}
use orc_mesh.Tiles.Server.Serving.{serve-uncached}

-- a database of the first release, where one of the later columns cannot be added
abbrev refused : Refusals
refused = record {
  creates = λ name. false;
  alters = λ c. str_eq c "rf_count";
  stamps = λ n. false;
  reads = false;
  indexes = false;
}

abbrev old_schema : Schema
old_schema = record { user_version = 0; tables = ("messages", "rowid" ∷ "status" ∷ []) ∷ [] }

old_schema-IsConsistent : IsConsistent old_schema
unfolding IsConsistent
old_schema-IsConsistent = (λ e. absurd (omega arith), λ e. absurd (omega arith))

apply_schema-Keeps_example : Keeps old_schema (apply_schema refused true old_schema).0
apply_schema-Keeps_example = apply_schema-Keeps refused true old_schema

apply_schema-IsConsistent_example :
    let (end, error) = apply_schema refused true old_schema in
    IsConsistent end × ((is_some error ≡ true) ⊎ (2 ≤ end.user_version))
apply_schema-IsConsistent_example =
    apply_schema-IsConsistent refused true old_schema old_schema-IsConsistent

-- every tile is taken to be the square from -10 to 10
abbrev square : Tile → Bounds
square t = record { west = negsuc 9; south = negsuc 9; east = pos 10; north = pos 10 }

abbrev pack : Text → OrcMapsPack
pack stem = record {
  stem = stem;
  pmtiles = stem;
  min_zoom = pos 0;
  max_zoom = pos 14;
  bounds = none;
}

abbrev packs : List OrcMapsPack
packs = pack (codes "city") ∷ pack (codes "world") ∷ []

packs-IsStemmed : IsStemmed packs
unfolding IsStemmed Differs
packs-IsStemmed = ((λ e. cc, tt), (tt, tt))

-- "P6 1 2 255", and two pixels of one colour: nothing is drawn
abbrev flat_image : Bytes
flat_image = 80 ∷ 54 ∷ 32 ∷ 49 ∷ 32 ∷ 50 ∷ 32 ∷ 50 ∷ 53 ∷ 53 ∷ 10 ∷ 7 ∷ 8 ∷ 9 ∷ 7 ∷ 8 ∷ 9 ∷ []

abbrev draw : OrcMapsPack → Tile → ℕ → Option Text → Drawn
draw p t size style = ppm flat_image

abbrev server : TileServer
server = record {
  packs = packs;
  style = none;
  size = 256;
  cache = record { capacity = 2; entries = []; hits = 0; misses = 0 };
}

abbrev requests : List Request
requests =
    ask (record { z = 2; x = 1; y = 1 })
    ∷ ask (record { z = 2; x = 1; y = 1 })
    ∷ toggle (some (codes "dark"))
    ∷ ask (record { z = 15; x = 1; y = 1 })
    ∷ []

server_new : new_server packs none 256 2 ≡ some server
unfolding new_server new_cache
server_new = refl

serve-uncached_example :
    serve square draw some requests server ≡ uncached square draw some packs 256 none requests
serve-uncached_example =
    serve-uncached square draw some packs 256 packs-IsStemmed none 2 requests server server_new

-- a server that has one tile, asked for it and for one beyond the edge of the map
abbrev warm : TileServer
warm = record server {
  cache = record {
    capacity = 2;
    entries = (tile_key (codes "city") 1 1 0 256 none, png flat_image) ∷ [];
    hits = 0;
    misses = 0;
  };
}

sent : (do_get square draw some (codes "/tiles/1/1/0.png") warm).1 ≡ tile_png flat_image
unfolding do_get strip_slash split_slash get_parts before_png get_named get_parsed parse_int
    get_tile response_of render render_among packs_for contains in_zoom inside covers overlaps
    render_from after_get get lookup move_to_end tile_key_eq eq_tile_key eq_style
sent = refl

do_get-IsAsked_example :
    IsAsked square draw some warm flat_image
      (split_slash (strip_slash (codes "/tiles/1/1/0.png")))
      (do_get square draw some (codes "/tiles/1/1/0.png") warm)
do_get-IsAsked_example =
    do_get-IsAsked square draw some warm flat_image (codes "/tiles/1/1/0.png") sent

beyond_edge : (do_get square draw some (codes "/tiles/1/2/0.png") warm).1 ≡ out_of_range
unfolding do_get strip_slash split_slash get_parts before_png get_named get_parsed parse_int
    get_tile
beyond_edge = refl

abbrev wide : ModemParams
wide = record {
  spreading_factor = 11;
  bandwidth_hz = 250_000;
  coding_rate = 1;
  preamble_symbols = 16;
  explicit_header = true;
  crc = true;
}

abbrev received : NetworkPacket
received = record {
  session_id = codes "s";
  observed_at = 9;
  rx_time = some 8;
  sender_num = some 7;
  sender_id = none;
  destination_num = some 4_294_967_295;
  packet_id = some 1;
  channel_index = 0;
  portnum = some (pos 1);
  portnum_name = codes "TEXT_MESSAGE_APP";
  text = some (codes "hi");
  payload_size = some 2;
  rx_snr = some (negsuc 3);
  rx_rssi = none;
  hop_start = some 3;
  hop_limit = some 3;
  hops_used = some 0;
  via_mqtt = some false;
  transport_mechanism = none;
  pki_encrypted = none;
  want_ack = some true;
  priority = none;
  raw_metadata = none;
}

abbrev traffic : List NetworkPacket
traffic =
    received ∷ record received { sender_num = none } ∷ record received { payload_size = none } ∷ []

observe_all-IsAccount_example :
    (s : Analysis) × (observe_all (7 ∷ []) wide traffic new_analysis ≡ some s)
    × ((num : ℕ)
        → IsAccount wide (lookup num s.accumulators) (keep (λ p. is_from num p.sender_num) traffic))
    × (analysed_packets s + s.unattributed ≡ 3)
    × (total_airtime s
        ≡ sum_of (ticks_of_packet wide) (keep (λ p. is_attributed p.sender_num) traffic))
observe_all-IsAccount_example =
    observe_all-IsAccount (7 ∷ []) wide (omega arith) (omega arith) traffic
