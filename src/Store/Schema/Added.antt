-- ===== src/Store/Schema/Added.antt =====
-- The columns that the statements of src/meshchat/database/schema.py add, and the version that they keep.
use mathlib.Core.Path.{subst}
use orc_mesh.Prelude.{
  ℕ, ◌≡◌, ◌≤◌, refl, sym, ◌∙◌, inl, inr, true, false, Option, none, some, List, [], ◌∷◌, ◌++◌,
  String, arith, str_eq, Bool-cases, Option-cases, All, All-map, ◌||◌, ap,
}
use orc_mesh.Prelude.Dict.{Dict, lookup, lookup-insert, beq_refl, string_eq}
use orc_mesh.Store.Schema.{
  Schema, has, unless_there, create_table, create_tables, columns_of, Run, then_next, Refusals,
  add_to, add_column, add_missing, Migration, migrate_v1, migrate_v2,
}
use orc_mesh.Store.Schema.Keeping.{Keeps, add_column-Keeps, add_missing-Keeps}

-- the columns of a table, none where it is not there
unfoldable pub columns_in : String → Schema → List String
columns_in table s = columns_of (lookup table s.tables)

-- The table has all columns of a migration.
unfoldable pub HasAll : Migration → Schema → Type 0
HasAll m s = All (λ c. has c (columns_in m.table s) ≡ true) m.columns

has-append :
    (c : String) (cols extra : List String) → has c cols ≡ true → has c (cols ++ extra) ≡ true
unfolding has
has-append c [] extra h = absurd (ground arith)
has-append c (d ∷ cols) extra h = elim (Bool-cases (str_eq c d)) [
  | inl same ↦ rw same refl
  | inr other ↦ rw other (has-append c cols extra (rw other at h))
]

has-last : (c : String) (cols : List String) → has c (cols ++ c ∷ []) ≡ true
unfolding has
has-last c [] = rw (beq_refl c) refl
has-last c (d ∷ cols) = elim (Bool-cases (str_eq c d)) [
  | inl same ↦ rw same refl
  | inr other ↦ rw other (has-last c cols)
]

has-Keeps :
    (c table : String) (s s' : Schema)
    → Keeps s s'
    → has c (columns_in table s) ≡ true
    → has c (columns_in table s') ≡ true
unfolding columns_in Keeps
has-Keeps c table s s' keeps h = elim (Option-cases (lookup table s.tables)) [
  | inl absent ↦ absurd (
      let q : has c (columns_of none) ≡ true = rw absent at h in
      unfold has columns_of in ground (arith, q))
  | inr (cols, present) ↦
      let (extra, later) = keeps table cols present in
      let old : has c cols ≡ true = (unfold columns_of in rw present at h) in
      rw later (unfold columns_of in has-append c cols extra old)
]

pub HasAll-Keeps : (m : Migration) (s s' : Schema) → Keeps s s' → HasAll m s → HasAll m s'
unfolding HasAll
HasAll-Keeps m s s' keeps h = All-map m.columns (λ c. has-Keeps c m.table s s' keeps) h

-- The version stands for the columns of the migrations up to it.
unfoldable pub IsConsistent : Schema → Type 0
IsConsistent s =
    (1 ≤ s.user_version → HasAll migrate_v1 s) × (2 ≤ s.user_version → HasAll migrate_v2 s)

-- Nothing was lost and the version is as it was.
unfoldable pub IsGrown : Schema → Schema → Type 0
IsGrown s t = Keeps s t × (t.user_version ≡ s.user_version)

pub IsConsistent-IsGrown : (s t : Schema) → IsGrown s t → IsConsistent s → IsConsistent t
unfolding IsConsistent IsGrown
IsConsistent-IsGrown s t (keeps, same) (one, two) = (
  λ e. HasAll-Keeps migrate_v1 s t keeps (one (rw same at e)),
  λ e. HasAll-Keeps migrate_v2 s t keeps (two (rw same at e)),
)

unfoldable pub version : Run → ℕ
version (s, ok) = s.user_version

then_next-version :
    (n : ℕ) (r : Run) (f : Schema → Run)
    → version r ≡ n
    → ((t : Schema) → version (f t) ≡ t.user_version)
    → version (then_next r f) ≡ n
unfolding then_next version
then_next-version n (t, false) f h k = h
then_next-version n (t, true) f h k = k t ∙ h

-- A sequence that did not raise ran its second part.
then_next_ok :
    (r : Run) (f : Schema → Run) → (then_next r f).1 ≡ true → (r.1 ≡ true) × (then_next r f ≡ f r.0)
unfolding then_next
then_next_ok (t, false) f h = cc
then_next_ok (t, true) f h = (refl, refl)

module _ (refused : Refusals) where
  unless_there-user_version :
      (name : String) (cols : List String) (there : Option (List String)) (s : Schema)
      → (unless_there refused name cols there s).user_version ≡ s.user_version
  unfolding unless_there
  unless_there-user_version name cols none s = refl
  unless_there-user_version name cols (some old) s = refl

  pub create_tables-version :
      (ts : Dict String (List String)) (s : Schema)
      → version (create_tables refused ts s) ≡ s.user_version
  unfolding create_tables create_table version
  create_tables-version [] s = refl
  create_tables-version ((name, cols) ∷ ts) s =
      then_next-version s.user_version (create_table refused name cols s) (create_tables refused ts)
        (elim (Bool-cases (refused.creates name)) [
          | inl bad ↦ rw bad refl
          | inr fine ↦ rw fine (unless_there-user_version name cols (lookup name s.tables) s)
        ])
        (create_tables-version ts)

  add_to-version :
      (table c : String) (there : Option (List String)) (s : Schema)
      → version (add_to refused table c there s) ≡ s.user_version
  unfolding add_to version
  add_to-version table c none s = refl
  add_to-version table c (some cols) s = elim (Bool-cases (refused.alters c || has c cols)) [
    | inl bad ↦ rw bad refl
    | inr fine ↦ rw fine refl
  ]

  pub add_missing-version :
      (table : String) (before cs : List String) (s : Schema)
      → version (add_missing refused table before cs s) ≡ s.user_version
  unfolding add_missing add_column version
  add_missing-version table before [] s = refl
  add_missing-version table before (c ∷ cs) s = elim (Bool-cases (has c before)) [
    | inl there ↦ rw there (add_missing-version table before cs s)
    | inr missing ↦ rw missing (
        then_next-version s.user_version (add_column refused table c s)
          (add_missing refused table before cs) (add_to-version table c (lookup table s.tables) s)
          (add_missing-version table before cs))
  ]

  add_to-has :
      (table c : String) (there : Option (List String)) (s : Schema)
      → (add_to refused table c there s).1 ≡ true
      → has c (columns_in table (add_to refused table c there s).0) ≡ true
  unfolding add_to columns_in columns_of
  add_to-has table c none s e = cc
  add_to-has table c (some cols) s e = elim (Bool-cases (refused.alters c || has c cols)) [
    | inl bad ↦ absurd (let q : false ≡ true = rw bad at e in cc)
    | inr fine ↦
        rw (fine, lookup-insert table table (cols ++ c ∷ []) s.tables, beq_refl table)
          (has-last c cols)
  ]

  unfoldable pub AreIn : String → List String → Run → Type 0
  AreIn table cs r = All (λ c. has c (columns_in table r.0) ≡ true) cs

  -- Where the columns at the start are still there, all are there at the end.
  pub add_missing-has :
      (table : String) (before cs : List String) (s : Schema)
      → ((c : String) → has c before ≡ true → has c (columns_in table s) ≡ true)
      → (add_missing refused table before cs s).1 ≡ true
      → AreIn table cs (add_missing refused table before cs s)
  unfolding AreIn
  add_missing-has table before [] s h e = tt
  add_missing-has table before (c ∷ cs) s h e = elim (Bool-cases (has c before)) [
    | inl there ↦
        let rest : Run = add_missing refused table before cs s in
        let same : add_missing refused table before (c ∷ cs) s ≡ rest =
          unfold add_missing in rw there refl in
        subst (AreIn table (c ∷ cs)) (sym same) (
          has-Keeps c table s rest.0 (add_missing-Keeps refused table before cs s) (h c there),
          add_missing-has table before cs s h (rw same at e),
        )
    | inr missing ↦
        let added : Run = add_column refused table c s in
        let rest : Run = add_missing refused table before cs added.0 in
        let both : add_missing refused table before (c ∷ cs) s
            ≡ then_next added (add_missing refused table before cs) =
          unfold add_missing in rw missing refl in
        let (ok, same) = then_next_ok added (add_missing refused table before cs) (rw both at e) in
        let keeps = add_column-Keeps refused table c s in
        subst (AreIn table (c ∷ cs)) (sym (both ∙ same)) (
          has-Keeps c table added.0 rest.0 (add_missing-Keeps refused table before cs added.0)
              (unfold add_column in add_to-has table c (lookup table s.tables) s ok),
          add_missing-has table before cs added.0 (λ d k. has-Keeps d table s added.0 keeps (h d k))
              (sym (ap (λ (x : Run). x.1) (both ∙ same)) ∙ e),
        )
  ]
