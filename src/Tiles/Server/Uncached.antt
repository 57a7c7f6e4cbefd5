-- ===== src/Tiles/Server/Uncached.antt =====
-- The tile server of src/meshchat/services/orcmaps.py against one without a cache.
use orc_mesh.Prelude.{
  ℕ, ◌≡◌, refl, sym, ap, ◌∙◌, inl, inr, Bool, true, false, ◌||◌, not, Option, none, some, List, [],
  ◌∷◌, Bool-cases, Option-cases, if◌then◌else◌,
}
use orc_mesh.Prelude.Text.{Text}
use orc_mesh.Prelude.Dict.{lookup}
use orc_mesh.Tiles.Cache.{get, put}
use orc_mesh.Tiles.Cache.Bounds.{IsCache, get-IsCache, put-IsCache}
use orc_mesh.Tiles.Cache.Answers.{get_answer, lookup-get, lookup-put}
use orc_mesh.Tiles.Pack.{Bounds, OrcMapsPack, Tile, packs_for}
use orc_mesh.Tiles.Ppm.{is_empty_render}
use orc_mesh.Tiles.Server.Stems.{IsStemmed, At, At-unique}
use orc_mesh.Tiles.Server.{
  Bytes, TileKey, tile_key, tile_key_eq, eq_tile_key, eq_tile_key_iff, Cached, png, no_data,
  no_pack_covers, no_pack_rendered, tool_failed, bad_image, Answer, tile_bytes, raised, Drawn, ppm,
  tool_error, TileServer, Request, ask, toggle, is_last, Cache, key_for, store_png, after_draw,
  after_get, render_from,
}

key_stem : TileKey → Text
key_stem (tile_key s z x y n t) = s

key_z : TileKey → ℕ
key_z (tile_key s z x y n t) = z

key_x : TileKey → ℕ
key_x (tile_key s z x y n t) = x

key_y : TileKey → ℕ
key_y (tile_key s z x y n t) = y

key_style : TileKey → Option Text
key_style (tile_key s z x y n t) = t

module _ (tile_bounds : Tile → Bounds) (draw : OrcMapsPack → Tile → ℕ → Option Text → Drawn)
    (to_png : Bytes → Option Bytes) where
  -- the answer of a server without a cache
  unfoldable pub answer_of : Option Bytes → Answer
  answer_of none = raised bad_image
  answer_of (some bytes) = tile_bytes bytes

  unfoldable pub drawn_answer : Bool → Answer → Drawn → Answer
  drawn_answer last later (tool_error e) = raised (tool_failed e)
  drawn_answer last later (ppm bytes) =
      if last || not (is_empty_render bytes) then answer_of (to_png bytes) else later

  -- the first candidate that draws something, else the last one's drawing
  unfoldable pub uncached_from : ℕ → Option Text → Tile → List OrcMapsPack → Answer
  uncached_from size style t [] = raised (no_pack_rendered t)
  uncached_from size style t (pack ∷ rest) =
      drawn_answer (is_last rest) (uncached_from size style t rest) (draw pack t size style)

  unfoldable pub uncached_among : ℕ → Option Text → Tile → List OrcMapsPack → Answer
  uncached_among size style t [] = raised (no_pack_covers t)
  uncached_among size style t (pack ∷ rest) = uncached_from size style t (pack ∷ rest)

  -- the answers to some requests
  unfoldable pub uncached : List OrcMapsPack → ℕ → Option Text → List Request → List Answer
  uncached packs size style [] = []
  uncached packs size style (ask t ∷ requests) =
      uncached_among size style t (packs_for tile_bounds packs t)
      ∷ uncached packs size style requests
  uncached packs size style (toggle style' ∷ requests) = uncached packs size style' requests

  -- What a cached value says of the tool's drawing.
  unfoldable pub Holds : Drawn → Bool → Cached → Type 0
  Holds drawn last (png out) =
      (bytes : Bytes) × (drawn ≡ ppm bytes)
      × ((last || not (is_empty_render bytes)) ≡ true)
      × (to_png bytes ≡ some out)
  Holds drawn last no_data =
      (bytes : Bytes) × (drawn ≡ ppm bytes) × ((last || not (is_empty_render bytes)) ≡ false)

  module _ (packs : List OrcMapsPack) (size : ℕ) where
    -- Every value of the cache is what the tool says.
    unfoldable pub IsTrue : Cache → Type 0
    IsTrue c =
        (t : Tile) (style : Option Text) (pack : OrcMapsPack) (rest : List OrcMapsPack)
        → At pack rest (packs_for tile_bounds packs t)
        → (v : Cached) → lookup (key_for size style t pack) c.entries ≡ some v
        → Holds (draw pack t size style) (is_last rest) v

    unfoldable pub IsGood : Cache → Type 0
    IsGood c = IsCache c × IsTrue c

    unfoldable pub IsAnswer : Answer → Cache × Answer → Type 0
    IsAnswer a (c, answer) = IsGood c × (answer ≡ a)

    after_draw-IsAnswer :
        (key : TileKey) (last : Bool) (later : Cache → Cache × Answer) (a : Answer) (drawn : Drawn)
        (c : Cache)
        → IsGood c
        → ((v : Cached) → Holds drawn last v → IsGood (put key v c))
        → ((c : Cache) → IsGood c → IsAnswer a (later c))
        → IsAnswer
            (drawn_answer last a drawn)
            (after_draw tile_bounds draw to_png key last later drawn c)
    unfolding after_draw drawn_answer IsAnswer Holds store_png answer_of
    after_draw-IsAnswer key last later a (tool_error e) c good puts laters = (good, refl)
    after_draw-IsAnswer key last later a (ppm bytes) c good puts laters =
        elim (Bool-cases (last || not (is_empty_render bytes))) [
          | inl kept ↦ elim (Option-cases (to_png bytes)) [
            | inl bad ↦ rw (kept, bad) (good, refl)
            | inr (out, fine) ↦ rw (kept, fine) (puts (png out) (bytes, refl, kept, fine), refl)
          ]
          | inr skipped ↦
              rw skipped (laters (put key no_data c) (puts no_data (bytes, refl, skipped)))
        ]

    after_get-IsAnswer :
        (key : TileKey) (last : Bool) (later : Cache → Cache × Answer) (a : Answer) (drawn : Drawn)
        (found : Option Cached) (c : Cache)
        → IsGood c
        → ((v : Cached) → found ≡ some v → Holds drawn last v)
        → ((v : Cached) → Holds drawn last v → IsGood (put key v c))
        → ((c : Cache) → IsGood c → IsAnswer a (later c))
        → IsAnswer
            (drawn_answer last a drawn)
            (after_get tile_bounds draw to_png key last later drawn found c)
    unfolding after_get drawn_answer IsAnswer answer_of Holds
    after_get-IsAnswer key last later a drawn none c good finds puts laters =
        after_draw-IsAnswer key last later a drawn c good puts laters
    after_get-IsAnswer key last later a drawn (some no_data) c good finds puts laters =
        let (bytes, d, empty) = finds no_data refl in rw (d, empty) (laters c good)
    after_get-IsAnswer key last later a drawn (some (png out)) c good finds puts laters =
        let (bytes, d, kept, o) = finds (png out) refl in rw (d, kept, o) (good, refl)

    get-IsGood : (key : TileKey) (c : Cache) → IsGood c → IsGood (get key c).0
    unfolding IsGood IsTrue
    get-IsGood key c (h, true_of) = (
      get-IsCache key c h,
      λ t style pack rest at_it v p.
          true_of t style pack rest at_it v (lookup-get key (key_for size style t pack) v c h p),
    )

    put-IsGood :
        ((t : Tile) → IsStemmed (packs_for tile_bounds packs t))
        → (t : Tile) (style : Option Text) (pack : OrcMapsPack) (rest : List OrcMapsPack)
        → At pack rest (packs_for tile_bounds packs t)
        → (c : Cache) → IsGood c
        → (v : Cached) → Holds (draw pack t size style) (is_last rest) v
        → IsGood (put (key_for size style t pack) v c)
    unfolding IsGood IsTrue key_stem key_z key_x key_y key_style tile_key_eq
    put-IsGood stemmed t style pack rest at_it c (h, true_of) v holds = (
      put-IsCache (key_for size style t pack) v c h,
      λ t' style' pack' rest' at' v' p.
          let q =
            lookup-put (key_for size style t pack) (key_for size style' t' pack') v v' c h p in
          elim (Bool-cases
            (eq_tile_key (key_for size style t pack) (key_for size style' t' pack'))) [
              | inr other ↦ true_of t' style' pack' rest' at' v' (rw other at q)
              | inl same ↦
                  let keys =
                    (eq_tile_key_iff (key_for size style t pack) (key_for size style' t' pack')).0
                      same in
                  let value : some v ≡ some v' = rw same at q in
                  let tiles : t ≡ t' = rw (ap key_z keys, ap key_x keys, ap key_y keys) refl in
                  let here : At pack rest (packs_for tile_bounds packs t') = rw tiles at at_it in
                  let (packs_eq, rests) =
                    At-unique pack pack' rest rest' (packs_for tile_bounds packs t') (stemmed t')
                      here at' (ap key_stem keys) in
                  let moved : Holds (draw pack' t' size style') (is_last rest') v =
                    rw (packs_eq, tiles, ap key_style keys, rests) at holds in
                  let values : v ≡ v' = cc in rw values at moved
            ],
    )

    pub render_from-IsAnswer :
        ((t : Tile) → IsStemmed (packs_for tile_bounds packs t))
        → (style : Option Text) (t : Tile) (candidates : List OrcMapsPack)
        → ((pack : OrcMapsPack) (rest : List OrcMapsPack)
            → At pack rest candidates
            → At pack rest (packs_for tile_bounds packs t))
        → (c : Cache) → IsGood c
        → IsAnswer
            (uncached_from size style t candidates)
            (render_from tile_bounds draw to_png size style t candidates c)
    unfolding render_from uncached_from IsAnswer At
    render_from-IsAnswer stemmed style t [] within c good = (good, refl)
    render_from-IsAnswer stemmed style t (pack ∷ rest) within c good =
        let key : TileKey = key_for size style t pack in
        let here = within pack rest (inl (refl, refl)) in
        let after : IsGood (get key c).0 = get-IsGood key c good in
        after_get-IsAnswer key (is_last rest)
          (render_from tile_bounds draw to_png size style t rest) (uncached_from size style t rest)
          (draw pack t size style) (get key c).1 (get key c).0 after
          (λ v p.
            unfold IsGood IsTrue in good.1 t style pack rest here v (sym (get_answer key c) ∙ p))
          (put-IsGood stemmed t style pack rest here (get key c).0 after)
          (render_from-IsAnswer stemmed style t rest (λ p r at_it. within p r (inr at_it)))

    -- A server of these packs whose cache is good.
    unfoldable pub IsServer : TileServer → Type 0
    IsServer s = (s.packs ≡ packs) × (s.size ≡ size) × IsGood s.cache
