-- ===== src/Prelude/Latest.antt =====
-- The last elements of a list, for a deque with `maxlen`.
use orc_mesh.Prelude.{
  ℕ, zero, suc, ◌+◌, ◌-◌, ◌≤◌, ◌≡◌, refl, sym, ap, ◌∙◌, List, [], ◌∷◌, ◌++◌, arith, length, drop,
  length-append, length-drop, drop-append,
}

module _ {ℓ} {A : Type ℓ} where
  abbrev pub latest : ℕ → List A → List A
  latest max xs = drop (length xs - max) xs

  pub length-latest : (max : ℕ) (xs : List A) → length (latest max xs) ≤ max
  length-latest max xs = omega (arith, length-drop (length xs - max) xs)

  pub latest_all : (max : ℕ) (xs : List A) → length xs ≤ max → latest max xs ≡ xs
  latest_all max xs h = let z : length xs - max ≡ 0 = omega arith in rw z refl

  drop_nil : (n : ℕ) → drop {A = A} n [] ≡ []
  drop_nil zero = refl
  drop_nil (suc n) = refl

  drop-drop : (m n : ℕ) (xs : List A) → drop m (drop n xs) ≡ drop (n + m) xs
  drop-drop m zero xs = let z : 0 + m ≡ m = omega arith in rw z refl
  drop-drop m (suc n) [] = drop_nil m ∙ sym (drop_nil (suc n + m))
  drop-drop m (suc n) (x ∷ xs) =
      let z : suc n + m ≡ suc (n + m) = omega arith in rw z (drop-drop m n xs)

  -- keeping the last of a list first makes no difference to what is kept after more elements
  pub latest-append :
      (max : ℕ) (xs ys : List A) → latest max (latest max xs ++ ys) ≡ latest max (xs ++ ys)
  latest-append max xs ys =
      ap (latest max) (sym (drop-append n xs ys (omega arith)))
      ∙ drop-drop (length (drop n (xs ++ ys)) - max) n (xs ++ ys)
      ∙ ap (λ (k : ℕ). drop k (xs ++ ys)) same
    where
      n : ℕ
      n = length xs - max

      same : n + (length (drop n (xs ++ ys)) - max) ≡ length (xs ++ ys) - max
      same = omega (arith, length-drop n (xs ++ ys), length-append xs ys)
