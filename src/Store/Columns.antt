-- ===== src/Store/Columns.antt =====
-- Values of SQLite's columns, where NULL is None: the order of texts, COALESCE (`or_else`) and the
-- scalar MAX, which is NULL where an argument is.
use orc_mesh.Prelude.{
  ℕ, ◌≡◌, refl, Bool, true, false, ◌&&◌, ◌||◌, Option, none, some, [], ◌∷◌, arith, ltb, ◌==◌,
  if◌then◌else◌,
}
use orc_mesh.Prelude.Text.{Text}

-- the collation BINARY: the order of the code points
unfoldable pub leb_text : Text → Text → Bool
leb_text [] t = true
leb_text (c ∷ s) [] = false
leb_text (c ∷ s) (d ∷ t) = ltb c d || (c == d && leb_text s t)

pub leb_text_refl : (s : Text) → leb_text s s ≡ true
unfolding leb_text
leb_text_refl [] = refl
leb_text_refl (c ∷ s) = ground (arith, leb_text_refl s)

pub leb_text_trans :
    (s t u : Text) → leb_text s t ≡ true → leb_text t u ≡ true → leb_text s u ≡ true
unfolding leb_text
leb_text_trans [] t u h k = refl
leb_text_trans (c ∷ s) [] u h k = ground arith
leb_text_trans (c ∷ s) (d ∷ t) [] h k = ground arith
leb_text_trans (c ∷ s) (d ∷ t) (e ∷ u) h k = ground (arith, leb_text_trans s t u)

pub leb_text_total : (s t : Text) → leb_text s t ≡ false → leb_text t s ≡ true
unfolding leb_text
leb_text_total [] t h = ground arith
leb_text_total (c ∷ s) [] h = refl
leb_text_total (c ∷ s) (d ∷ t) h = ground (arith, leb_text_total s t)

pub leb_text_antisym : (s t : Text) → leb_text s t ≡ true → leb_text t s ≡ true → s ≡ t
unfolding leb_text
leb_text_antisym [] [] h k = refl
leb_text_antisym [] (d ∷ t) h k = ground arith
leb_text_antisym (c ∷ s) [] h k = ground arith
leb_text_antisym (c ∷ s) (d ∷ t) h k = ground (arith, leb_text_antisym s t)

-- the scalar MAX(a, b)
unfoldable pub sql_max {ℓ} : {A : Type ℓ} → (A → A → Bool) → Option A → Option A → Option A
sql_max le none b = none
sql_max le (some a) none = none
sql_max le (some a) (some b) = if le a b then some b else some a

-- new IS NOT NULL AND (stored IS NULL OR new >= stored)
unfoldable pub is_as_new : Option Text → Option Text → Bool
is_as_new none stored = false
is_as_new (some new) none = true
is_as_new (some new) (some stored) = leb_text stored new

-- int(flag), None where the flag is
unfoldable pub int_of_flag : Option Bool → Option ℕ
int_of_flag none = none
int_of_flag (some true) = some 1
int_of_flag (some false) = some 0

-- bool(column), None where the column is
unfoldable pub flag_of_int : Option ℕ → Option Bool
flag_of_int none = none
flag_of_int (some n) = some (ltb 0 n)

pub flag_of_int-int_of_flag : (flag : Option Bool) → flag_of_int (int_of_flag flag) ≡ flag
unfolding flag_of_int int_of_flag
flag_of_int-int_of_flag none = refl
flag_of_int-int_of_flag (some true) = refl
flag_of_int-int_of_flag (some false) = refl
