-- ===== src/Tiles/Server/Serving.antt =====
-- Whole sequences of requests to the tile server of src/meshchat/services/orcmaps.py.
use orc_mesh.Prelude.{
  ℕ, ◌≡◌, refl, sym, ap, ◌∙◌, inl, inr, Option, none, some, List, [], ◌∷◌, arith, Bool-cases,
}
use mathlib.Core.Path.{subst}
use orc_mesh.Prelude.Text.{Text}
use orc_mesh.Prelude.Dict.{lookup}
use orc_mesh.Tiles.Cache.{new_cache, clear}
use orc_mesh.Tiles.Cache.Bounds.{IsCache, new_cache-IsCache}
use orc_mesh.Tiles.Pack.{Bounds, OrcMapsPack, Tile, packs_for}
use orc_mesh.Tiles.Server.{
  Bytes, tile_key_eq, Answer, Drawn, TileServer, new_server, set_style, eq_style, eq_style_iff,
  Request, ask, toggle, Cache, render_from, render_among, render, serve,
}
use orc_mesh.Tiles.Server.Stems.{IsStemmed, IsStemmed-packs_for}
use orc_mesh.Tiles.Server.Uncached.{
  uncached_among, uncached, IsTrue, IsGood, IsAnswer, IsServer, render_from-IsAnswer,
}

module _ (tile_bounds : Tile → Bounds) (draw : OrcMapsPack → Tile → ℕ → Option Text → Drawn)
    (to_png : Bytes → Option Bytes) (packs : List OrcMapsPack) (size : ℕ) where
  abbrev Good : Cache → Type 0
  Good = IsGood tile_bounds draw to_png packs size

  empty-IsGood : (c : Cache) → IsCache c → c.entries ≡ [] → Good c
  unfolding IsGood IsTrue lookup
  empty-IsGood c h e = (h, λ t style pack rest at_it v p. let q : none ≡ some v = rw e at p in cc)

  clear-IsGood : (c : Cache) → Good c → Good (clear c)
  unfolding IsGood clear
  clear-IsGood c (h, true_of) =
      empty-IsGood (clear c)
        (record { distinct = tt; bounded = omega arith; positive = h.positive }) refl

  -- A request leaves a good server of the same packs and style, with the uncached answer.
  IsServed : Option Text → Answer → TileServer × Answer → Type 0
  IsServed style a (s, answer) =
      IsServer tile_bounds draw to_png packs size s × (s.style ≡ style) × (answer ≡ a)

  set_style-IsServer :
      (style : Option Text) (s : TileServer)
      → IsServer tile_bounds draw to_png packs size s
      → IsServer tile_bounds draw to_png packs size (set_style style s)
        × ((set_style style s).style ≡ style)
  unfolding set_style IsServer
  set_style-IsServer style s (p, n, good) = elim (Bool-cases (eq_style style s.style)) [
    | inl same ↦ rw same ((p, n, good), sym ((eq_style_iff style s.style).0 same))
    | inr other ↦ rw other ((p, n, clear-IsGood s.cache good), refl)
  ]

  new_server-IsServer :
      (ps : List OrcMapsPack) (style : Option Text) (capacity : ℕ) (s : TileServer)
      → ps ≡ packs
      → new_server ps style size capacity ≡ some s
      → IsServer tile_bounds draw to_png packs size s × (s.style ≡ style)
  unfolding new_server IsServer
  new_server-IsServer [] style capacity s same e = absurd (let q : none ≡ some s = e in cc)
  new_server-IsServer (p ∷ ps) style capacity s same e =
      let fresh : TileServer = record {
        packs = p ∷ ps;
        style = style;
        size = size;
        cache = new_cache capacity;
      } in
      let built : some fresh ≡ some s = e in
      let is_s : fresh ≡ s = cc in
      let good : Good (new_cache capacity) =
        empty-IsGood (new_cache capacity) (new_cache-IsCache capacity) (unfold new_cache in refl) in
      let whole : IsServer tile_bounds draw to_png packs size fresh × (fresh.style ≡ style) =
        ((same, refl, good), refl) in
      subst (λ (x : TileServer). IsServer tile_bounds draw to_png packs size x × (x.style ≡ style))
        is_s whole

  module _ (stemmed : IsStemmed packs) where
    render_among-IsServed :
        (t : Tile) (candidates : List OrcMapsPack) (s : TileServer)
        → packs_for tile_bounds packs t ≡ candidates
        → IsServer tile_bounds draw to_png packs size s
        → IsServed s.style
            (uncached_among tile_bounds draw to_png size s.style t candidates)
            (render_among tile_bounds draw to_png t candidates s)
    unfolding render_among uncached_among IsServed IsServer IsAnswer
    render_among-IsServed t [] s e h = (h, refl, refl)
    render_among-IsServed t (pack ∷ rest) s e (p, n, good) =
        let (good', a) =
          render_from-IsAnswer tile_bounds draw to_png packs size
            (λ t. IsStemmed-packs_for tile_bounds packs t stemmed) s.style t (pack ∷ rest)
            (λ q r at_it. rw e at_it) s.cache good in
        let sized =
          ap (λ m. render_from tile_bounds draw to_png m s.style t (pack ∷ rest) s.cache) n in
        ((p, n, rw sized good'), refl, rw sized a)

    serve-uncached_from_good :
        (requests : List Request) (s : TileServer)
        → IsServer tile_bounds draw to_png packs size s
        → serve tile_bounds draw to_png requests s
          ≡ uncached tile_bounds draw to_png packs size s.style requests
    unfolding serve uncached render IsServed
    serve-uncached_from_good [] s h = refl
    serve-uncached_from_good (ask t ∷ requests) s h =
        let candidates : List OrcMapsPack = packs_for tile_bounds packs t in
        let packs_eq : s.packs ≡ packs = unfold IsServer in h.0 in
        let same =
          ap (λ ps. render_among tile_bounds draw to_png t (packs_for tile_bounds ps t) s)
            packs_eq in
        let (h', st, a) = render_among-IsServed t candidates s refl h in
        let s' = (render_among tile_bounds draw to_png t candidates s).0 in
        rw (same, a)
          (ap (λ r. uncached_among tile_bounds draw to_png size s.style t candidates ∷ r)
            (serve-uncached_from_good requests s' h'
              ∙ ap (λ st. uncached tile_bounds draw to_png packs size st requests) st))
    serve-uncached_from_good (toggle style ∷ requests) s h =
        let (h', st) = set_style-IsServer style s h in
        serve-uncached_from_good requests (set_style style s) h'
        ∙ ap (λ st. uncached tile_bounds draw to_png packs size st requests) st

    -- A new server of packs with distinct stems answers any sequence of requests, theme toggles between
    -- them included, with what a server without a cache answers: for each tile the first candidate that
    -- draws something, else the last candidate's drawing, or the error. So no tile of another style, of
    -- another pack, or that was evicted and drawn again, is ever served wrongly.
    pub serve-uncached :
        (style : Option Text) (capacity : ℕ) (requests : List Request) (s : TileServer)
        → new_server packs style size capacity ≡ some s
        → serve tile_bounds draw to_png requests s
          ≡ uncached tile_bounds draw to_png packs size style requests
    serve-uncached style capacity requests s e =
        let (h, st) = new_server-IsServer packs style capacity s refl e in
        serve-uncached_from_good requests s h
        ∙ ap (λ st. uncached tile_bounds draw to_png packs size st requests) st
