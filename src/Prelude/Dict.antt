-- ===== src/Prelude/Dict.antt =====
-- Python's `dict` and `OrderedDict`: pairs in insertion order. Writing a present key keeps its
-- place; a new key goes to the end.
use Prim.Native.Nat.{ℕ}
use orc_mesh.Prelude.{
  ◌≡◌, refl, ◌↔◌, inl, inr, Bool, true, Option, none, some, List, [], ◌∷◌, ◌++◌, String, arith,
  str_eq, eq_iff, drop, zero, suc, if◌then◌else◌, Bool-cases, ==_iff,
}
use orc_mesh.Prelude.{◌==◌ as nat_beq}
use orc_mesh.Prelude.Text.{Text, text_eq, text_eq_iff}

pub record Eq {ℓ} (A : Type ℓ) : Type ℓ where
  pub beq : A → A → Bool
  pub beq_iff : (a b : A) → (beq a b ≡ true) ↔ (a ≡ b)

instance abbrev pub nat_eq : Eq ℕ
nat_eq = record { beq = nat_beq; beq_iff = ==_iff }

instance abbrev pub string_eq : Eq String
string_eq = record { beq = str_eq; beq_iff = eq_iff }

instance abbrev pub text_key_eq : Eq Text
text_key_eq = record { beq = text_eq; beq_iff = text_eq_iff }

abbrev pub Dict {ℓ κ} : Type ℓ → Type κ → Type (ℓ ⊔ κ)
Dict K V = List (K × V)

module _ {ℓ} {K : Type ℓ} ⦃e : Eq K⦄ where
  pub beq_refl : (k : K) → e.beq k k ≡ true
  beq_refl k = (e.beq_iff k k).1 refl

  module _ {κ} {V : Type κ} where
    -- d.get(k)
    unfoldable pub lookup : K → Dict K V → Option V
    lookup k [] = none
    lookup k ((j, v) ∷ d) = if e.beq j k then some v else lookup k d

    -- d[k] = v
    unfoldable pub insert : K → V → Dict K V → Dict K V
    insert k v [] = (k, v) ∷ []
    insert k v ((j, w) ∷ d) = if e.beq j k then (j, v) ∷ d else (j, w) ∷ insert k v d

    -- d.pop(k, None)
    unfoldable pub remove : K → Dict K V → Dict K V
    remove k [] = []
    remove k ((j, w) ∷ d) = if e.beq j k then d else (j, w) ∷ remove k d

    -- No key occurs twice.
    abbrev pub IsDistinct : Dict K V → Type κ
    IsDistinct [] = Unit
    IsDistinct ((k, v) ∷ d) = (lookup k d ≡ none) × IsDistinct d

    pub lookup-insert :
        (k j : K) (v : V) (d : Dict K V)
        → lookup j (insert k v d) ≡ (if e.beq k j then some v else lookup j d)
    unfolding lookup insert
    lookup-insert k j v [] = refl
    lookup-insert k j v ((i, w) ∷ d) =
        ground (arith, e.beq_iff k j, e.beq_iff i k, e.beq_iff i j, lookup-insert k j v d)

    pub lookup-append :
        (k : K) (d f : Dict K V)
        → lookup k (d ++ f) ≡ elim (lookup k d) [ none ↦ lookup k f | some v ↦ some v ]
    unfolding lookup
    lookup-append k [] f = refl
    lookup-append k ((j, w) ∷ d) f = ground (arith, lookup-append k d f)

    -- A new key goes to the end.
    pub insert_absent :
        (k : K) (v : V) (d : Dict K V) → lookup k d ≡ none → insert k v d ≡ d ++ (k, v) ∷ []
    unfolding lookup insert
    insert_absent k v [] h = refl
    insert_absent k v ((j, w) ∷ d) h = ground (arith, insert_absent k v d)

    pub lookup-remove :
        (k j : K) (d : Dict K V)
        → IsDistinct d
        → lookup j (remove k d) ≡ (if e.beq k j then none else lookup j d)
    unfolding lookup remove
    lookup-remove k j [] h = ground arith
    lookup-remove k j ((i, w) ∷ d) h =
        ground (arith, e.beq_iff k j, e.beq_iff i k, e.beq_iff i j, lookup-remove k j d h.1)

    pub IsDistinct-insert :
        (k : K) (v : V) (d : Dict K V) → IsDistinct d → IsDistinct (insert k v d)
    unfolding insert lookup
    IsDistinct-insert k v [] h = (refl, tt)
    IsDistinct-insert k v ((j, w) ∷ d) h = elim (Bool-cases (e.beq j k)) [
      | inl same ↦ rw same h
      | inr other ↦ rw other (
        ground (arith, lookup-insert k j v d, e.beq_iff j k, e.beq_iff k j),
        IsDistinct-insert k v d h.1,
      )
    ]

    pub IsDistinct-remove : (k : K) (d : Dict K V) → IsDistinct d → IsDistinct (remove k d)
    unfolding remove
    IsDistinct-remove k [] h = h
    IsDistinct-remove k ((j, w) ∷ d) h = elim (Bool-cases (e.beq j k)) [
      | inl same ↦ rw same h.1
      | inr other ↦
          rw other (ground (arith, lookup-remove k j d h.1, h.0), IsDistinct-remove k d h.1)
    ]

    pub IsDistinct-drop : (n : ℕ) (d : Dict K V) → IsDistinct d → IsDistinct (drop n d)
    IsDistinct-drop zero d h = h
    IsDistinct-drop (suc n) [] h = h
    IsDistinct-drop (suc n) ((j, w) ∷ d) h = IsDistinct-drop n d h.1
