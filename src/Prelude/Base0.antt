-- ===== src/Prelude/Base0.antt =====
-- Python's `int(text, 0)` on ASCII: a sign, a prefix 0x, 0o or 0b, digits with single underscores; a
-- decimal numeral with a leading zero must be zero.
use orc_mesh.Prelude.{
  ℕ, zero, suc, ◌+◌, ◌-◌, ◌*◌, ◌≡◌, refl, Bool, true, false, ◌&&◌, ◌||◌, Option, none, some, [],
  ◌∷◌, ltb, leb, ◌==◌, if◌then◌else◌,
}
use orc_mesh.Prelude.Int.{ℤ, pos, negsuc}
use orc_mesh.Prelude.Text.{Text, codes, is_digit, strip}

-- the value of a digit; 99 for what is none
digit_value : ℕ → ℕ
digit_value c =
    if is_digit c
    then c - 48
    else if leb 97 c && leb c 122
    then c - 87
    else if leb 65 c && leb c 90
    then c - 55
    else 99

digits_in : ℕ → Bool → ℕ → Text → Option ℕ
unfolding digit_value
digits_in base after_digit acc [] = if after_digit then some acc else none
digits_in base after_digit acc (c ∷ s) =
    let is_in = ltb (digit_value c) base in
    let next = digits_in base is_in (if is_in then acc * base + digit_value c else acc) s in
    if is_in || (c == b'_' && after_digit) then next else none

-- an underscore may follow the prefix, a digit must
prefixed : ℕ → Text → Option ℕ
unfolding digits_in
prefixed base [] = none
prefixed base (c ∷ s) = digits_in base true 0 (c ∷ s)

only_zero : Option ℕ → Option ℕ
only_zero none = none
only_zero (some zero) = some 0
only_zero (some (suc n)) = none

unsigned : Text → Option ℕ
unfolding prefixed only_zero
unsigned [] = none
unsigned (c ∷ []) = digits_in 10 false 0 (c ∷ [])
unsigned (c ∷ d ∷ s) =
    if c == 48
    then (if d == b'x' || d == b'X'
        then prefixed 16 s
        else if d == b'o' || d == b'O'
        then prefixed 8 s
        else if d == b'b' || d == b'B'
        then prefixed 2 s
        else only_zero (digits_in 10 false 0 (c ∷ d ∷ s)))
    else digits_in 10 false 0 (c ∷ d ∷ s)

as_pos : Option ℕ → Option ℤ
as_pos none = none
as_pos (some n) = some (pos n)

as_neg : Option ℕ → Option ℤ
as_neg none = none
as_neg (some zero) = some (pos 0)
as_neg (some (suc n)) = some (negsuc n)

signed : Text → Option ℤ
unfolding unsigned as_pos as_neg
signed [] = none
signed (c ∷ s) =
    if c == b'-'
    then as_neg (unsigned s)
    else if c == b'+'
    then as_pos (unsigned s)
    else as_pos (unsigned (c ∷ s))

unfoldable pub parse_int0 : Text → Option ℤ
unfolding signed
parse_int0 s = signed (strip s)

hex : parse_int0 (codes " 0x1_f ") ≡ some (pos 31)
unfolding parse_int0 strip
hex = refl

leading_zero : parse_int0 (codes "010") ≡ none
unfolding parse_int0 strip
leading_zero = refl

negative : parse_int0 (codes "-67") ≡ some (negsuc 66)
unfolding parse_int0 strip
negative = refl
