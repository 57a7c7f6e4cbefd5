-- ===== src/Tiles/Server/Stems.antt =====
-- Packs of distinct stems, in src/meshchat/services/orcmaps.py: what tells the entries of the tile
-- server's cache apart.
use orc_mesh.Prelude.{
  ◌≡◌, ◌≢◌, sym, ap, ◌∙◌, ◌⊎◌, inl, inr, Bool, ◌&&◌, not, List, [], ◌∷◌, ◌++◌, keep, All,
  All-append, All-keep, Bool-cases,
}
use orc_mesh.Tiles.Pack.{Bounds, OrcMapsPack, Tile, packs_for, contains, covers}

-- No pack of a list has the stem of this one.
unfoldable pub Differs : OrcMapsPack → List OrcMapsPack → Type 0
Differs p = All (λ q. q.stem ≢ p.stem)

-- No two packs of a list share a stem.
unfoldable pub IsStemmed : List OrcMapsPack → Type 0
IsStemmed [] = Unit
IsStemmed (p ∷ ps) = Differs p ps × IsStemmed ps

-- A pack of a list, with the packs after it.
unfoldable pub At : OrcMapsPack → List OrcMapsPack → List OrcMapsPack → Type 0
At pack rest [] = ⊥
At pack rest (p ∷ ps) = ((pack ≡ p) × (rest ≡ ps)) ⊎ At pack rest ps

pub At-Differs :
    (p pack : OrcMapsPack) (rest ps : List OrcMapsPack)
    → Differs p ps
    → At pack rest ps
    → pack.stem ≢ p.stem
unfolding Differs At
At-Differs p pack rest [] d at_it = absurd at_it
At-Differs p pack rest (q ∷ ps) d (inl (e, f)) = rw e d.0
At-Differs p pack rest (q ∷ ps) d (inr later) = At-Differs p pack rest ps d.1 later

pub At-unique :
    (a b : OrcMapsPack) (as' bs ps : List OrcMapsPack)
    → IsStemmed ps
    → At a as' ps
    → At b bs ps
    → a.stem ≡ b.stem
    → (a ≡ b) × (as' ≡ bs)
unfolding IsStemmed At
At-unique a b as' bs [] h x y e = absurd x
At-unique a b as' bs (p ∷ ps) h (inl (e, f)) (inl (g, k)) s = (e ∙ sym g, f ∙ sym k)
At-unique a b as' bs (p ∷ ps) h (inl (e, f)) (inr y) s =
    absurd (At-Differs p b bs ps h.0 y (sym s ∙ ap (λ q. q.stem) e))
At-unique a b as' bs (p ∷ ps) h (inr x) (inl (g, k)) s =
    absurd (At-Differs p a as' ps h.0 x (s ∙ ap (λ q. q.stem) g))
At-unique a b as' bs (p ∷ ps) h (inr x) (inr y) s = At-unique a b as' bs ps h.1 x y s

Differs-insert :
    (x p : OrcMapsPack) (xs ys : List OrcMapsPack)
    → p.stem ≢ x.stem
    → Differs x (xs ++ ys)
    → Differs x (xs ++ p ∷ ys)
unfolding Differs
Differs-insert x p [] ys d h = (d, h)
Differs-insert x p (q ∷ xs) ys d h = (h.0, Differs-insert x p xs ys d h.1)

IsStemmed-insert :
    (p : OrcMapsPack) (xs ys : List OrcMapsPack)
    → IsStemmed (xs ++ ys)
    → Differs p (xs ++ ys)
    → IsStemmed (xs ++ p ∷ ys)
unfolding IsStemmed Differs
IsStemmed-insert p [] ys h d = (d, h)
IsStemmed-insert p (x ∷ xs) ys h d =
    (Differs-insert x p xs ys (λ e. d.0 (sym e)) h.0, IsStemmed-insert p xs ys h.1 d.1)

-- The packs that pass a test, followed by others that do not.
IsStemmed-keep :
    (f g : OrcMapsPack → Bool) (ps : List OrcMapsPack)
    → IsStemmed ps
    → IsStemmed (keep f ps ++ keep (λ p. not (f p) && g p) ps)
unfolding IsStemmed Differs
IsStemmed-keep f g [] h = tt
IsStemmed-keep f g (p ∷ ps) h =
    let later : List OrcMapsPack = keep (λ p. not (f p) && g p) ps in
    let differs : Differs p (keep f ps ++ later) =
      All-append _ (keep f ps) later (All-keep _ f ps h.0) (All-keep _ _ ps h.0) in
    let rest = IsStemmed-keep f g ps h.1 in
    elim (Bool-cases (f p)) [
      | inl first ↦ rw first (differs, rest)
      | inr not_first ↦ elim (Bool-cases (g p)) [
        | inl second ↦ rw (not_first, second) (IsStemmed-insert p (keep f ps) later rest differs)
        | inr neither ↦ rw (not_first, neither) rest
      ]
    ]

pub IsStemmed-packs_for :
    (tile_bounds : Tile → Bounds) (packs : List OrcMapsPack) (t : Tile)
    → IsStemmed packs
    → IsStemmed (packs_for tile_bounds packs t)
unfolding packs_for
IsStemmed-packs_for tile_bounds packs t h =
    IsStemmed-keep (contains tile_bounds t) (covers tile_bounds t) packs h
