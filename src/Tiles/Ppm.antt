-- ===== src/Tiles/Ppm.antt =====
-- `_parse_ppm_p6` and `is_empty_render` of src/meshchat/services/orcmaps.py. A position in the data is
-- the list of the bytes from there on; the inner loops follow it, and the header's loop is on fuel, of
-- which one more than the number of bytes is enough: every round takes at least one.
pub mod Flat
pub mod Fuel
use orc_mesh.Prelude.{
  ℕ, zero, suc, ◌+◌, ◌-◌, ◌*◌, Bool, true, false, ◌&&◌, ◌||◌, Option, none, some, List, [], ◌∷◌,
  ◌++◌, ◌==◌, leb, ltb, length, take, drop, if◌then◌else◌,
}

-- bytes.isspace
abbrev pub is_space : ℕ → Bool
is_space b = b == 32 || (leb 9 b && leb b 13)

-- bytes.isdigit
abbrev pub is_digit : ℕ → Bool
is_digit b = leb 48 b && leb b 57

unfoldable pub skip_spaces : List ℕ → List ℕ
skip_spaces [] = []
skip_spaces (b ∷ bs) = if is_space b then skip_spaces bs else b ∷ bs

-- up to the newline
unfoldable pub skip_comment : List ℕ → List ℕ
skip_comment [] = []
skip_comment (b ∷ bs) = if b == 10 then b ∷ bs else skip_comment bs

-- the number that the digits at the start give, continuing `n`, and what follows them
unfoldable pub read_digits : ℕ → List ℕ → ℕ × List ℕ
read_digits n [] = (n, [])
read_digits n (b ∷ bs) = if is_digit b then read_digits (n * 10 + (b - 48)) bs else (n, b ∷ bs)

starts_with_digit : List ℕ → Bool
starts_with_digit [] = false
starts_with_digit (b ∷ bs) = is_digit b

starts_with_hash : List ℕ → Bool
starts_with_hash [] = false
starts_with_hash (b ∷ bs) = b == 35

-- the end of the loop over the header: its numbers with what follows them, or an OrcMapsError; and no
-- end, within the fuel
pub data Header : Type 0 where
  numbers : List ℕ → List ℕ → Header
  malformed out_of_fuel : Header

unfoldable pub and_value : ℕ → Header → Header
and_value n (numbers values rest) = numbers (n ∷ values) rest
and_value n malformed = malformed
and_value n out_of_fuel = out_of_fuel

-- the loop that reads `left` more numbers
unfoldable pub read_header : ℕ → ℕ → List ℕ → Header
unfolding starts_with_digit starts_with_hash and_value
read_header fuel zero bs = numbers [] bs
read_header zero (suc left) bs = out_of_fuel
read_header (suc fuel) (suc left) bs =
    let start = skip_spaces bs in
    let (n, after) = read_digits 0 start in
    let past_comment = read_header fuel (suc left) (skip_comment start) in
    let later = read_header fuel left after in
    if starts_with_hash start
    then past_comment
    else if starts_with_digit start
    then and_value n later
    else malformed

pub record Ppm : Type 0 where
  pub width : ℕ
  pub height : ℕ
  pub pixels : List ℕ

-- the checks after the header; the byte after maxval is skipped
unfoldable pub image_of : List ℕ × List ℕ → Option Ppm
image_of ((width ∷ height ∷ maxval ∷ []), rest) =
    let expected = width * height * 3 in
    let pixels = take expected (drop 1 rest) in
    if maxval == 255 && (ltb 0 width && (ltb 0 height && length pixels == expected))
    then some (record { width = width; height = height; pixels = pixels })
    else none
image_of (values, rest) = none

image_if : Header → Option Ppm
unfolding image_of
image_if (numbers values rest) = image_of (values, rest)
image_if malformed = none
image_if out_of_fuel = none

-- data.startswith(b"P6"), with what follows
abbrev after_magic : List ℕ → Option (List ℕ)
after_magic [] = none
after_magic (p ∷ []) = none
after_magic (p ∷ six ∷ rest) = if p == 80 && six == 54 then some rest else none

parse_rest : Option (List ℕ) → Option Ppm
unfolding image_if
parse_rest none = none
parse_rest (some rest) = image_if (read_header (suc (length rest)) 3 rest)

-- _parse_ppm_p6; None is an OrcMapsError
unfoldable pub parse_ppm_p6 : List ℕ → Option Ppm
unfolding parse_rest
parse_ppm_p6 bytes = parse_rest (after_magic bytes)

-- the list of `n` copies
unfoldable pub copies : ℕ → List ℕ → List ℕ
copies zero xs = []
copies (suc n) xs = xs ++ copies n xs

unfoldable pub bytes_eq : List ℕ → List ℕ → Bool
bytes_eq [] [] = true
bytes_eq [] (b ∷ ys) = false
bytes_eq (a ∷ xs) [] = false
bytes_eq (a ∷ xs) (b ∷ ys) = a == b && bytes_eq xs ys

-- the checks for no pixels are never met: the parser refuses such an image
unfoldable pub flat : Option Ppm → Bool
unfolding copies bytes_eq
flat none = false
flat (some p) =
    let pixels = p.width * p.height in
    if pixels == 0 || ltb (length p.pixels) 3
    then false
    else bytes_eq (take (pixels * 3) p.pixels) (copies pixels (take 3 p.pixels))

-- is_empty_render
unfoldable pub is_empty_render : List ℕ → Bool
unfolding flat
is_empty_render bytes = flat (parse_ppm_p6 bytes)
