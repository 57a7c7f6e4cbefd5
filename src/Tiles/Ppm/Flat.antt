-- ===== src/Tiles/Ppm/Flat.antt =====
-- What the parser of images accepts, and what an empty render is.
use orc_mesh.Prelude.{
  ℕ, suc, ◌*◌, ◌<◌, ◌≡◌, refl, sym, ap, ◌∙◌, true, ◌||◌, Option, none, some, List, [], ◌∷◌, arith,
  ◌==◌, ==_iff, ltb, length, take, take_all, Bool-cases, inl, inr,
}
use orc_mesh.Tiles.Ppm.{
  Ppm, Header, numbers, malformed, out_of_fuel, read_header, image_of, image_if, after_magic,
  parse_rest, parse_ppm_p6, copies, bytes_eq, flat, is_empty_render,
}

-- an image with a size, and three bytes for each of its pixels
pub record IsImage (p : Ppm) : Type 0 where
  pub wide : 0 < p.width
  pub high : 0 < p.height
  pub full : length p.pixels ≡ p.width * p.height * 3

image_of-IsImage : (values rest : List ℕ) (p : Ppm) → image_of (values, rest) ≡ some p → IsImage p
unfolding image_of
image_of-IsImage [] rest p e = cc
image_of-IsImage (w ∷ []) rest p e = cc
image_of-IsImage (w ∷ h ∷ []) rest p e = cc
image_of-IsImage (w ∷ h ∷ m ∷ []) rest p e = ground (arith, e)
image_of-IsImage (w ∷ h ∷ m ∷ x ∷ xs) rest p e = cc

bytes_eq→eq : (xs ys : List ℕ) → bytes_eq xs ys ≡ true → xs ≡ ys
unfolding bytes_eq
bytes_eq→eq [] [] e = refl
bytes_eq→eq [] (b ∷ ys) e = cc
bytes_eq→eq (a ∷ xs) [] e = cc
bytes_eq→eq (a ∷ xs) (b ∷ ys) e = elim (Bool-cases (a == b)) [
  | inl same ↦
      ap (λ (l : List ℕ). a ∷ l) (bytes_eq→eq xs ys (rw same at e))
      ∙ ap (λ (c : ℕ). c ∷ ys) ((==_iff a b).0 same)
  | inr differs ↦ absurd (ground arith)
]

image_if-IsImage : (h : Header) (p : Ppm) → image_if h ≡ some p → IsImage p
unfolding image_if
image_if-IsImage (numbers values rest) p e = image_of-IsImage values rest p e
image_if-IsImage malformed p e = cc
image_if-IsImage out_of_fuel p e = cc

parse_rest-IsImage : (o : Option (List ℕ)) (p : Ppm) → parse_rest o ≡ some p → IsImage p
unfolding parse_rest
parse_rest-IsImage none p e = cc
parse_rest-IsImage (some rest) p e = image_if-IsImage (read_header (suc (length rest)) 3 rest) p e

parse_ppm_p6-IsImage : (bytes : List ℕ) (p : Ppm) → parse_ppm_p6 bytes ≡ some p → IsImage p
unfolding parse_ppm_p6
parse_ppm_p6-IsImage bytes p e = parse_rest-IsImage (after_magic bytes) p e

flat_pixels :
    (p : Ppm)
    → IsImage p
    → flat (some p) ≡ true
    → p.pixels ≡ copies (p.width * p.height) (take 3 p.pixels)
unfolding flat
flat_pixels p h e =
    sym (take_all (p.width * p.height * 3) p.pixels (omega (arith, h.full)))
    ∙ bytes_eq→eq (take (p.width * p.height * 3) p.pixels)
        (copies (p.width * p.height) (take 3 p.pixels))
        (elim (Bool-cases (p.width * p.height == 0 || ltb (length p.pixels) 3)) [
          | inl small ↦ absurd (ground arith)
          | inr large ↦ rw large at e
        ])

empty_of :
    (o : Option Ppm)
    → ((p : Ppm) → o ≡ some p → IsImage p)
    → flat o ≡ true
    → (p : Ppm) × (o ≡ some p)
      × IsImage p
      × (p.pixels ≡ copies (p.width * p.height) (take 3 p.pixels))
unfolding flat
empty_of none h e = cc
empty_of (some p) h e = (p, refl, h p refl, flat_pixels p (h p refl) e)

-- A render that counts as empty is an image of positive size, with three bytes for each pixel, all of
-- whose pixels are the first one; so data that is no such image is never taken for an empty render.
pub is_empty_render_lem :
    (bytes : List ℕ)
    → is_empty_render bytes ≡ true
    → (p : Ppm) × (parse_ppm_p6 bytes ≡ some p)
      × IsImage p
      × (p.pixels ≡ copies (p.width * p.height) (take 3 p.pixels))
unfolding is_empty_render
is_empty_render_lem bytes e = empty_of (parse_ppm_p6 bytes) (parse_ppm_p6-IsImage bytes) e
