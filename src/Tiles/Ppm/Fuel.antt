-- ===== src/Tiles/Ppm/Fuel.antt =====
-- The fuel of the loop over an image's header.
use orc_mesh.Prelude.{
  ℕ, zero, suc, ◌+◌, ◌-◌, ◌*◌, ◌≤◌, ◌<◌, ◌≡◌, ◌≢◌, refl, ap, true, false, List, [], ◌∷◌, arith,
  ◌==◌, length, Bool-cases, inl, inr,
}
use orc_mesh.Tiles.Ppm.{
  is_space, is_digit, skip_spaces, skip_comment, read_digits, read_header, starts_with_hash,
  starts_with_digit, and_value, Header, numbers, malformed, out_of_fuel,
}

length-skip_spaces : (bs : List ℕ) → length (skip_spaces bs) ≤ length bs
unfolding skip_spaces
length-skip_spaces [] = omega arith
length-skip_spaces (b ∷ bs) = elim (Bool-cases (is_space b)) [
  | inl space ↦ rw space (omega (arith, length-skip_spaces bs))
  | inr other ↦ rw other (omega arith)
]

length-skip_comment : (bs : List ℕ) → length (skip_comment bs) ≤ length bs
unfolding skip_comment
length-skip_comment [] = omega arith
length-skip_comment (b ∷ bs) = elim (Bool-cases (b == 10)) [
  | inl newline ↦ rw newline (omega arith)
  | inr other ↦ rw other (omega (arith, length-skip_comment bs))
]

length-read_digits : (n : ℕ) (bs : List ℕ) → length (read_digits n bs).1 ≤ length bs
unfolding read_digits
length-read_digits n [] = omega arith
length-read_digits n (b ∷ bs) = elim (Bool-cases (is_digit b)) [
  | inl digit ↦ rw digit (omega (arith, length-read_digits (n * 10 + (b - 48)) bs))
  | inr other ↦ rw other (omega arith)
]

comment_shorter : (bs : List ℕ) → starts_with_hash bs ≡ true → length (skip_comment bs) < length bs
unfolding starts_with_hash skip_comment
comment_shorter [] h = cc
comment_shorter (b ∷ bs) h =
    let other : (b == 10) ≡ false = ground arith in rw other (omega (arith, length-skip_comment bs))

digits_shorter :
    (n : ℕ) (bs : List ℕ) → starts_with_digit bs ≡ true → length (read_digits n bs).1 < length bs
unfolding starts_with_digit read_digits
digits_shorter n [] h = cc
digits_shorter n (b ∷ bs) h = rw h (omega (arith, length-read_digits (n * 10 + (b - 48)) bs))

-- more fuel than bytes changes nothing
read_header_same :
    (fuel more left : ℕ) (bs : List ℕ)
    → length bs < fuel
    → length bs < more
    → read_header fuel left bs ≡ read_header more left bs
unfolding read_header and_value
read_header_same fuel more zero bs h k = refl
read_header_same zero more (suc left) bs h k = absurd (omega arith)
read_header_same (suc fuel) zero (suc left) bs h k = absurd (omega arith)
read_header_same (suc fuel) (suc more) (suc left) bs h k =
    elim (Bool-cases (starts_with_hash (skip_spaces bs))) [
      | inl hash ↦ rw hash (
          let shorter = comment_shorter (skip_spaces bs) hash in
          read_header_same fuel more (suc left) (skip_comment (skip_spaces bs))
            (omega (arith, shorter, length-skip_spaces bs))
            (omega (arith, shorter, length-skip_spaces bs)))
      | inr plain ↦ rw plain (elim (Bool-cases (starts_with_digit (skip_spaces bs))) [
        | inl digit ↦ rw digit (
            let shorter = digits_shorter 0 (skip_spaces bs) digit in
            ap (and_value (read_digits 0 (skip_spaces bs)).0) (
              read_header_same fuel more left (read_digits 0 (skip_spaces bs)).1
                (omega (arith, shorter, length-skip_spaces bs))
                (omega (arith, shorter, length-skip_spaces bs))))
        | inr other ↦ rw other refl
      ])
    ]

and_value-ends : (n : ℕ) (h : Header) → h ≢ out_of_fuel → and_value n h ≢ out_of_fuel
unfolding and_value
and_value-ends n (numbers values rest) ends e = cc
and_value-ends n malformed ends e = cc
and_value-ends n out_of_fuel ends e = ends refl

read_header-ends :
    (fuel left : ℕ) (bs : List ℕ) → length bs < fuel → read_header fuel left bs ≢ out_of_fuel
unfolding read_header
read_header-ends fuel zero bs h = λ e. cc
read_header-ends zero (suc left) bs h = absurd (omega arith)
read_header-ends (suc fuel) (suc left) bs h =
    let start : List ℕ = skip_spaces bs in
    let (n, after) = read_digits 0 start in
    elim (Bool-cases (starts_with_hash start)) [
      | inl hash ↦ rw hash (
          read_header-ends fuel (suc left) (skip_comment start)
            (omega (arith, comment_shorter start hash, length-skip_spaces bs)))
      | inr plain ↦ elim (Bool-cases (starts_with_digit start)) [
        | inl digit ↦
            rw (plain, digit)
              (and_value-ends n (read_header fuel left after) (
                read_header-ends fuel left after
                  (omega (arith, digits_shorter 0 start digit, length-skip_spaces bs))))
        | inr other ↦ rw (plain, other) (λ e. cc)
      ]
    ]

-- The loop over the header ends: with more fuel than bytes, as the parser gives it, it never runs out,
-- whatever the bytes, so it has read its numbers or has found the header malformed; and any other amount
-- above the number of bytes gives the same.
pub read_header_fuel :
    (fuel more left : ℕ) (bs : List ℕ)
    → length bs < fuel
    → length bs < more
    → (read_header fuel left bs ≢ out_of_fuel)
      × (read_header fuel left bs ≡ read_header more left bs)
read_header_fuel fuel more left bs h k =
    (read_header-ends fuel left bs h, read_header_same fuel more left bs h k)
