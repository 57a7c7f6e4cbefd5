-- ===== src/Store/Schema/Keeping.antt =====
-- What no run of the migrations of src/meshchat/database/schema.py undoes.
use orc_mesh.Prelude.{
  ◌≡◌, refl, sym, ap, ◌∙◌, inl, inr, Bool, true, false, ◌||◌, Option, none, some, List, [], ◌∷◌,
  ◌++◌, String, append-nil, append_assoc, Bool-cases, ℕ, both_branches,
}
use orc_mesh.Prelude.Dict.{Dict, lookup, insert, lookup-insert, string_eq}
use orc_mesh.Store.Schema.{
  Schema, has, schema_tables, unless_there, create_table, create_tables, columns_of, Run, then_next,
  Refusals, sqlite_error, add_to, add_column, add_missing, Migration, SchemaError, End, migrate,
  stamp, migrate_and_stamp, continue, run_pending, pending, checked, run_if_any, run_migrations,
  index, apply_schema,
}

-- Every table is there still, its columns first and in their order.
unfoldable pub Keeps : Schema → Schema → Type 0
Keeps s s' =
    (table : String) (cols : List String)
    → lookup table s.tables ≡ some cols
    → (extra : List String) × (lookup table s'.tables ≡ some (cols ++ extra))

pub Keeps-refl : (s : Schema) → Keeps s s
unfolding Keeps
Keeps-refl s table cols e = ([], e ∙ ap some (sym (append-nil cols)))

pub Keeps-trans : (a b c : Schema) → Keeps a b → Keeps b c → Keeps a c
unfolding Keeps
Keeps-trans a b c h k table cols e =
    let (x, e') = h table cols e in
    let (y, e'') = k table (cols ++ x) e' in (x ++ y, e'' ∙ ap some (append_assoc cols x y))

-- a table whose columns grow at the end
Keeps-insert :
    (s : Schema) (name : String) (cols : List String)
    → ((old : List String)
        → lookup name s.tables ≡ some old
        → (extra : List String) × (cols ≡ old ++ extra))
    → Keeps s (record s { tables = insert name cols s.tables })
unfolding Keeps
Keeps-insert s name cols grows table old e = elim (Bool-cases (string_eq.beq name table)) [
  | inl same ↦
      let this : name ≡ table = (string_eq.beq_iff name table).0 same in
      let (x, g) = grows old (ap (λ n. lookup n s.tables) this ∙ e) in
      (x, rw (lookup-insert name table cols s.tables, same, g) refl)
  | inr other ↦ ([], rw (lookup-insert name table cols s.tables, other, append-nil old) e)
]

pub then_next-Keeps :
    (s : Schema) (r : Run) (f : Schema → Run)
    → Keeps s r.0
    → ((t : Schema) → Keeps t (f t).0)
    → Keeps s (then_next r f).0
unfolding then_next
then_next-Keeps s (t, false) f h k = h
then_next-Keeps s (t, true) f h k = Keeps-trans s t (f t).0 h (k t)

module _ (refused : Refusals) where
  unless_there-Keeps :
      (name : String) (cols : List String) (there : Option (List String)) (s : Schema)
      → lookup name s.tables ≡ there
      → Keeps s (unless_there refused name cols there s)
  unfolding unless_there
  unless_there-Keeps name cols none s absent =
      Keeps-insert s name cols (λ old e. let q : none ≡ some old = sym absent ∙ e in cc)
  unless_there-Keeps name cols (some old) s present = Keeps-refl s

  create_table-Keeps :
      (name : String) (cols : List String) (s : Schema)
      → Keeps s (create_table refused name cols s).0
  unfolding create_table
  create_table-Keeps name cols s = elim (Bool-cases (refused.creates name)) [
    | inl bad ↦ rw bad (Keeps-refl s)
    | inr fine ↦ rw fine (unless_there-Keeps name cols (lookup name s.tables) s refl)
  ]

  pub create_tables-Keeps :
      (ts : Dict String (List String)) (s : Schema) → Keeps s (create_tables refused ts s).0
  unfolding create_tables
  create_tables-Keeps [] s = Keeps-refl s
  create_tables-Keeps ((name, cols) ∷ ts) s =
      then_next-Keeps s (create_table refused name cols s) (create_tables refused ts)
        (create_table-Keeps name cols s) (create_tables-Keeps ts)

  add_to-Keeps :
      (table c : String) (there : Option (List String)) (s : Schema)
      → lookup table s.tables ≡ there
      → Keeps s (add_to refused table c there s).0
  unfolding add_to
  add_to-Keeps table c none s e = Keeps-refl s
  add_to-Keeps table c (some cols) s there = elim (Bool-cases (refused.alters c || has c cols)) [
    | inl bad ↦ rw bad (Keeps-refl s)
    | inr fine ↦ rw fine (
        Keeps-insert s table (cols ++ c ∷ []) (λ old f.
          let q : some cols ≡ some old = sym there ∙ f in
          let r : cols ≡ old = cc in (c ∷ [], ap (λ (x : List String). x ++ c ∷ []) r)))
  ]

  pub add_column-Keeps : (table c : String) (s : Schema) → Keeps s (add_column refused table c s).0
  unfolding add_column
  add_column-Keeps table c s = add_to-Keeps table c (lookup table s.tables) s refl

  pub add_missing-Keeps :
      (table : String) (before cs : List String) (s : Schema)
      → Keeps s (add_missing refused table before cs s).0
  unfolding add_missing
  add_missing-Keeps table before [] s = Keeps-refl s
  add_missing-Keeps table before (c ∷ cs) s = elim (Bool-cases (has c before)) [
    | inl there ↦ rw there (add_missing-Keeps table before cs s)
    | inr missing ↦ rw missing (
        then_next-Keeps s (add_column refused table c s) (add_missing refused table before cs)
          (add_column-Keeps table c s) (add_missing-Keeps table before cs))
  ]

  pub migrate-Keeps : (m : Migration) (s : Schema) → Keeps s (migrate refused m s).0
  unfolding migrate
  migrate-Keeps m s = add_missing-Keeps m.table (columns_of (lookup m.table s.tables)) m.columns s

  pub stamp-Keeps : (version : ℕ) (s : Schema) → Keeps s (stamp refused version s).0
  unfolding stamp Keeps
  stamp-Keeps version s = elim (Bool-cases (refused.stamps version)) [
    | inl bad ↦ rw bad (Keeps-refl s)
    | inr fine ↦ rw fine (Keeps-refl s)
  ]

  continue-Keeps :
      (s : Schema) (error : SchemaError) (later : Schema → End) (r : Run)
      → Keeps s r.0
      → ((t : Schema) → Keeps t (later t).0)
      → Keeps s (continue refused error later r).0
  unfolding continue
  continue-Keeps s error later (t, false) h k = h
  continue-Keeps s error later (t, true) h k = Keeps-trans s t (later t).0 h (k t)

  run_pending-Keeps : (ms : List Migration) (s : Schema) → Keeps s (run_pending refused ms s).0
  unfolding run_pending migrate_and_stamp
  run_pending-Keeps [] s = Keeps-refl s
  run_pending-Keeps (m ∷ ms) s =
      continue-Keeps s _ (run_pending refused ms) (migrate_and_stamp refused m s)
        (then_next-Keeps s (migrate refused m s) (stamp refused m.version) (migrate-Keeps m s)
          (stamp-Keeps m.version))
        (run_pending-Keeps ms)

  checked-Keeps :
      (intact : Bool) (s : Schema) (t : End) → Keeps s t.0 → Keeps s (checked refused intact t).0
  unfolding checked
  checked-Keeps intact s (t, some e) h = h
  checked-Keeps true s (t, none) h = h
  checked-Keeps false s (t, none) h = h

  run_if_any-Keeps :
      (intact : Bool) (ms : List Migration) (s : Schema)
      → Keeps s (run_if_any refused intact ms s).0
  unfolding run_if_any
  run_if_any-Keeps intact [] s = Keeps-refl s
  run_if_any-Keeps intact (m ∷ ms) s =
      checked-Keeps intact s (run_pending refused (m ∷ ms) s) (run_pending-Keeps (m ∷ ms) s)

  run_migrations-Keeps : (intact : Bool) (s : Schema) → Keeps s (run_migrations refused intact s).0
  unfolding run_migrations
  run_migrations-Keeps intact s =
      both_branches (λ (t : End). Keeps s t.0) refused.reads (s, some sqlite_error)
        (run_if_any refused intact (pending refused s.user_version) s) (Keeps-refl s)
        (run_if_any-Keeps intact (pending refused s.user_version) s)

  index-Keeps : (s : Schema) (t : End) → Keeps s t.0 → Keeps s (index refused t).0
  unfolding index
  index-Keeps s (t, some e) h = h
  index-Keeps s (t, none) h =
      both_branches (λ (t : End). Keeps s t.0) refused.indexes (t, some sqlite_error) (t, none) h h

  -- Whatever statements are refused, in the middle of a migration too, and whether an error is raised or
  -- not, no table loses a column or changes their order: what a database had comes first in what it has
  -- after `apply_schema`.
  pub apply_schema-Keeps : (intact : Bool) (s : Schema) → Keeps s (apply_schema refused intact s).0
  unfolding apply_schema
  apply_schema-Keeps intact s = index-Keeps s _ (
      continue-Keeps s _ (run_migrations refused intact) (create_tables refused schema_tables s)
        (create_tables-Keeps schema_tables s) (run_migrations-Keeps intact))
