-- ===== src/Prelude/Text.antt =====
-- Text as the list of its code points, where the program walks, prints or parses it: Python's `str`
-- and `int` on the decimal numerals of ASCII, `strip`, `lower` and `in`.
use Prim.Native.Char.{code}
use orc_mesh.Prelude.{
  ℕ, zero, suc, ◌+◌, ◌-◌, ◌*◌, ◌/◌, ◌%◌, ◌<◌, ◌≡◌, ◌↔◌, refl, ap, ◌∙◌, Bool, true, false, ◌&&◌,
  ◌||◌, Option, none, some, List, [], ◌∷◌, ◌++◌, String, arith, ltb, leb, ◌==◌, if◌then◌else◌, All,
  All-append, All-map, Bool-cases, inl, inr,
}
use orc_mesh.Prelude.Int.{ℤ, pos, negsuc}

abbrev pub Text : Type 0
Text = List ℕ

abbrev pub codes : String → Text
codes String.[] = []
codes (String.◌∷◌ c s) = code c ∷ codes s

abbrev pub text_eq : Text → Text → Bool
text_eq [] [] = true
text_eq [] (d ∷ t) = false
text_eq (c ∷ s) [] = false
text_eq (c ∷ s) (d ∷ t) = c == d && text_eq s t

pub text_eq_iff : (s t : Text) → (text_eq s t ≡ true) ↔ (s ≡ t)
text_eq_iff [] [] = (λ h. refl, λ h. refl)
text_eq_iff [] (d ∷ t) = (λ h. cc, λ h. cc)
text_eq_iff (c ∷ s) [] = (λ h. cc, λ h. cc)
text_eq_iff (c ∷ s) (d ∷ t) =
    (λ h. ground (arith, text_eq_iff s t), λ h. ground (arith, text_eq_iff s t))

-- `a or b` for a text that may be None: the empty text is falsy too
abbrev pub text_or : Option Text → Text → Text
text_or none t = t
text_or (some []) t = t
text_or (some (c ∷ s)) t = c ∷ s

abbrev pub is_digit : ℕ → Bool
is_digit c = leb 48 c && leb c 57

-- str.isspace on ASCII
abbrev pub is_space : ℕ → Bool
is_space c = (leb 9 c && leb c 13) || (leb 28 c && leb c 32)

unfoldable pub lower : Text → Text
lower [] = []
lower (c ∷ s) = (if leb 65 c && leb c 90 then c + 32 else c) ∷ lower s

unfoldable pub starts_with : Text → Text → Bool
starts_with [] s = true
starts_with (c ∷ t) [] = false
starts_with (c ∷ t) (d ∷ s) = c == d && starts_with t s

-- `t in s`
unfoldable pub contains : Text → Text → Bool
unfolding starts_with
contains t [] = starts_with t []
contains t (c ∷ s) = starts_with t (c ∷ s) || contains t s

lstrip : Text → Text
lstrip [] = []
lstrip (c ∷ s) = if is_space c then lstrip s else c ∷ s

keep_unless_blank : ℕ → Text → Text
keep_unless_blank c [] = if is_space c then [] else c ∷ []
keep_unless_blank c (d ∷ s) = c ∷ d ∷ s

rstrip : Text → Text
unfolding keep_unless_blank
rstrip [] = []
rstrip (c ∷ s) = keep_unless_blank c (rstrip s)

unfoldable pub strip : Text → Text
unfolding lstrip rstrip
strip s = rstrip (lstrip s)

-- The digits of a numeral, an underscore between two of them allowed.
digits_from : Bool → ℕ → Text → Option ℕ
digits_from after_digit acc [] = if after_digit then some acc else none
digits_from after_digit acc (c ∷ s) =
    let next = digits_from (is_digit c) (if is_digit c then acc * 10 + (c - 48) else acc) s in
    if is_digit c || (c == b'_' && after_digit) then next else none

as_pos : Option ℕ → Option ℤ
as_pos none = none
as_pos (some n) = some (pos n)

as_neg : Option ℕ → Option ℤ
as_neg none = none
as_neg (some zero) = some (pos 0)
as_neg (some (suc n)) = some (negsuc n)

signed : Text → Option ℤ
unfolding digits_from as_pos as_neg
signed [] = none
signed (c ∷ s) =
    if c == b'-'
    then as_neg (digits_from false 0 s)
    else if c == b'+'
    then as_pos (digits_from false 0 s)
    else as_pos (digits_from false 0 (c ∷ s))

-- int(text); None where it raises ValueError
unfoldable pub parse_int : Text → Option ℤ
unfolding signed strip
parse_int s = signed (strip s)

show_fuel : ℕ → ℕ → Text
show_fuel zero n = []
show_fuel (suc f) n =
    let front = show_fuel f (n / 10) in
    if ltb n 10 then (48 + n) ∷ [] else front ++ (48 + n % 10) ∷ []

-- str(n)
unfoldable pub show_ℕ : ℕ → Text
unfolding show_fuel
show_ℕ n = show_fuel (suc n) n

unfoldable pub show_ℤ : ℤ → Text
unfolding show_ℕ
show_ℤ (pos n) = show_ℕ n
show_ℤ (negsuc n) = b'-' ∷ show_ℕ (suc n)

abbrev IsDigit : ℕ → Type 0
IsDigit c = is_digit c ≡ true

show_fuel-IsDigit : (f n : ℕ) → All IsDigit (show_fuel f n)
unfolding show_fuel
show_fuel-IsDigit zero n = tt
show_fuel-IsDigit (suc f) n = elim (Bool-cases (ltb n 10)) [
  | inl small ↦ rw small (ground arith, tt)
  | inr big ↦ rw big (
      All-append IsDigit (show_fuel f (n / 10)) _ (show_fuel-IsDigit f (n / 10)) (ground arith, tt))
]

-- a last digit is read after the others
digits_from-append :
    (s : Text) (after_digit : Bool) (acc n d : ℕ)
    → digits_from after_digit acc s ≡ some n
    → d < 10
    → digits_from after_digit acc (s ++ (48 + d) ∷ []) ≡ some (n * 10 + d)
unfolding digits_from
digits_from-append [] true acc n d h lt = ground arith
digits_from-append [] false acc n d h lt = cc
digits_from-append (c ∷ s) after_digit acc n d h lt =
    ground (
      arith,
      digits_from-append s (is_digit c) (if is_digit c then acc * 10 + (c - 48) else acc) n d,
    )

digits_from-show_fuel : (f n : ℕ) → n < f → digits_from false 0 (show_fuel f n) ≡ some n
unfolding show_fuel
digits_from-show_fuel zero n h = absurd (omega arith)
digits_from-show_fuel (suc f) n h = elim (Bool-cases (ltb n 10)) [
  | inl small ↦ rw small (unfold digits_from in ground arith)
  | inr big ↦ rw big (
      digits_from-append (show_fuel f (n / 10)) false 0 (n / 10) (n % 10)
        (digits_from-show_fuel f (n / 10) (ground arith)) (omega arith)
      ∙ ap some (omega arith))
]

abbrev NotSpace : ℕ → Type 0
NotSpace c = is_space c ≡ false

lstrip_none : (s : Text) → All NotSpace s → lstrip s ≡ s
unfolding lstrip
lstrip_none [] h = refl
lstrip_none (c ∷ s) h = rw h.0

keep_unless_blank_lem : (c : ℕ) (s : Text) → NotSpace c → keep_unless_blank c s ≡ c ∷ s
unfolding keep_unless_blank
keep_unless_blank_lem c [] h = rw h
keep_unless_blank_lem c (d ∷ s) h = refl

rstrip_none : (s : Text) → All NotSpace s → rstrip s ≡ s
unfolding rstrip
rstrip_none [] h = refl
rstrip_none (c ∷ s) h = rw (rstrip_none s h.1) (keep_unless_blank_lem c s h.0)

strip_none : (s : Text) → All NotSpace s → strip s ≡ s
unfolding strip
strip_none s h = rw (lstrip_none s h) (rstrip_none s h)

digit-NotSpace : (c : ℕ) → IsDigit c → NotSpace c
digit-NotSpace c h = ground arith

-- a numeral does not begin with a sign
signed_digits :
    (s : Text) (n : ℕ) → All IsDigit s → digits_from false 0 s ≡ some n → signed s ≡ some (pos n)
unfolding signed
signed_digits [] n h e = unfold digits_from in cc e
signed_digits (c ∷ s) n h e =
    let minus : (c == b'-') ≡ false = ground arith in
    let plus : (c == b'+') ≡ false = ground arith in rw (minus, plus, e)

-- Parsing the printed form of an integer gives the integer.
pub parse_int-show_ℤ : (z : ℤ) → parse_int (show_ℤ z) ≡ some z
unfolding parse_int show_ℤ
parse_int-show_ℤ (pos n) =
    ap signed (strip_none (show_ℕ n) (All-map _ digit-NotSpace (show_fuel-IsDigit (suc n) n)))
    ∙ signed_digits (show_ℕ n) n (show_fuel-IsDigit (suc n) n)
        (digits_from-show_fuel (suc n) n (omega arith))
parse_int-show_ℤ (negsuc n) =
    ap signed (
      strip_none (b'-' ∷ show_ℕ (suc n))
        (refl, All-map _ digit-NotSpace (show_fuel-IsDigit (suc (suc n)) (suc n))))
    ∙ ap as_neg (digits_from-show_fuel (suc (suc n)) (suc n) (omega arith))

-- No printed integer is the empty text.
pub text_or-show_ℤ : (z : ℤ) (t : Text) → text_or (some (show_ℤ z)) t ≡ show_ℤ z
unfolding show_ℤ
text_or-show_ℤ (pos n) t = nonempty (show_ℕ n) (digits_from-show_fuel (suc n) n (omega arith))
  where
    nonempty : (s : Text) → digits_from false 0 s ≡ some n → text_or (some s) t ≡ s
    nonempty [] e = unfold digits_from in cc e
    nonempty (c ∷ s) e = refl
text_or-show_ℤ (negsuc n) t = refl
