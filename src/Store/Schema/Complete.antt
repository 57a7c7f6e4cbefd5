-- ===== src/Store/Schema/Complete.antt =====
-- What the migrations of src/meshchat/database/schema.py achieve.
use orc_mesh.Prelude.{
  ℕ, zero, suc, ◌≡◌, ◌≤◌, refl, ◌⊎◌, inl, inr, is_some, Bool, true, false, none, some, List, [],
  ◌∷◌, String, arith, ltb-false, Bool-cases, both_branches,
}
use orc_mesh.Prelude.Dict.{lookup, string_eq}
use orc_mesh.Store.Schema.{
  Schema, schema_tables, create_tables, columns_of, Run, then_next, Refusals, Migration, migrate_v1,
  migrate_v2, migrations, sqlite_error, migration_failed, End, migrate, stamp, migrate_and_stamp,
  continue, run_pending, pending, checked, run_if_any, run_migrations, index, apply_schema,
}
use orc_mesh.Store.Schema.Keeping.{Keeps, create_tables-Keeps, migrate-Keeps}
use orc_mesh.Store.Schema.Added.{
  columns_in, HasAll, HasAll-Keeps, IsConsistent, IsGrown, IsConsistent-IsGrown, version, AreIn,
  create_tables-version, add_missing-version, add_missing-has,
}

module _ (refused : Refusals) where
  -- What a migration with its stamp leaves: the table has its columns and the version is its own, or
  -- nothing was lost and the version is as it was.
  IsStep : Migration → Schema → Run → Type 0
  IsStep m s r =
      Keeps s r.0
      × (r.1 ≡ true → HasAll m r.0 × (r.0.user_version ≡ m.version))
      × (r.1 ≡ false → IsGrown s r.0)

  stamp-IsStep :
      (m : Migration) (s : Schema) (r : Run)
      → IsGrown s r.0
      → (r.1 ≡ true → HasAll m r.0)
      → IsStep m s (then_next r (stamp refused m.version))
  unfolding then_next stamp IsStep IsGrown
  stamp-IsStep m s (t, false) h k = (h.0, λ e. absurd (cc), λ e. h)
  stamp-IsStep m s (t, true) h k = elim (Bool-cases (refused.stamps m.version)) [
    | inl bad ↦ rw bad (h.0, λ e. absurd (cc), λ e. h)
    | inr fine ↦
        rw fine
          (unfold Keeps in h.0, λ e. (unfold HasAll columns_in in k refl, refl), λ e. absurd (cc))
  ]

  migrate_and_stamp-IsStep :
      (m : Migration) (s : Schema) → IsStep m s (migrate_and_stamp refused m s)
  unfolding migrate_and_stamp migrate IsGrown HasAll AreIn columns_in version
  migrate_and_stamp-IsStep m s =
      let before : List String = columns_of (lookup m.table s.tables) in
      stamp-IsStep m s (migrate refused m s)
        (migrate-Keeps refused m s, add_missing-version refused m.table before m.columns s)
        (add_missing-has refused m.table before m.columns s (λ c h. h))

  -- A consistent database, of the current version where no error was raised.
  IsMigrated : End → Type 0
  IsMigrated (s, error) = IsConsistent s × (error ≡ none → 2 ≤ s.user_version)

  continue_v2 :
      (s : Schema) (r : Run)
      → IsConsistent s
      → HasAll migrate_v1 s
      → IsStep migrate_v2 s r
      → IsMigrated (continue refused (migration_failed 2) (run_pending refused []) r)
  unfolding continue run_pending IsMigrated IsConsistent IsStep migrate_v2
  continue_v2 s (t, false) h one step = (IsConsistent-IsGrown s t (step.2 refl) h, λ e. absurd (cc))
  continue_v2 s (t, true) h one step =
      let (two, stamped) = step.1 refl in
      ((λ e. HasAll-Keeps migrate_v1 s t step.0 one, λ e. two), λ e. omega (arith, stamped))

  run_v2 :
      (s : Schema)
      → IsConsistent s
      → HasAll migrate_v1 s
      → IsMigrated (run_pending refused (migrate_v2 ∷ []) s)
  unfolding run_pending migrate_v2
  run_v2 s h one =
      continue_v2 s (migrate_and_stamp refused migrate_v2 s) h one
        (migrate_and_stamp-IsStep migrate_v2 s)

  continue_v1 :
      (s : Schema) (r : Run)
      → IsConsistent s
      → IsStep migrate_v1 s r
      → IsMigrated (continue refused (migration_failed 1) (run_pending refused (migrate_v2 ∷ [])) r)
  unfolding continue IsMigrated IsConsistent IsStep migrate_v1
  continue_v1 s (t, false) h step = (IsConsistent-IsGrown s t (step.2 refl) h, λ e. absurd (cc))
  continue_v1 s (t, true) h step =
      let (one, stamped) = step.1 refl in
      run_v2 t (λ e. one, λ e. absurd (omega (arith, stamped))) one

  run_v1 :
      (s : Schema)
      → IsConsistent s
      → IsMigrated (run_pending refused (migrate_v1 ∷ migrate_v2 ∷ []) s)
  unfolding run_pending migrate_v1
  run_v1 s h =
      continue_v1 s (migrate_and_stamp refused migrate_v1 s) h
        (migrate_and_stamp-IsStep migrate_v1 s)

  checked-IsMigrated :
      (intact : Bool) (t : End) → IsMigrated t → IsMigrated (checked refused intact t)
  unfolding checked IsMigrated
  checked-IsMigrated intact (s, some error) h = h
  checked-IsMigrated true (s, none) h = h
  checked-IsMigrated false (s, none) h = (h.0, λ e. absurd (cc))

  nothing_pending : (n : ℕ) → pending refused (suc (suc n)) ≡ []
  unfolding pending migrations migrate_v1 migrate_v2
  nothing_pending n =
      rw (ltb-false (suc (suc n)) 1 (omega arith), ltb-false (suc (suc n)) 2 (omega arith)) refl

  run_if_any-IsMigrated :
      (intact : Bool) (s : Schema) (n : ℕ)
      → s.user_version ≡ n
      → IsConsistent s
      → IsMigrated (run_if_any refused intact (pending refused n) s)
  unfolding run_if_any pending migrations IsMigrated migrate_v1 migrate_v2
  run_if_any-IsMigrated intact s zero e h = checked-IsMigrated intact _ (run_v1 s h)
  run_if_any-IsMigrated intact s (suc zero) e h =
      checked-IsMigrated intact _ (run_v2 s h (unfold IsConsistent in h.0 (omega (arith, e))))
  run_if_any-IsMigrated intact s (suc (suc n)) e h =
      rw (nothing_pending n) (h, λ none_raised. omega (arith, e))

  run_migrations-IsMigrated :
      (intact : Bool) (s : Schema) → IsConsistent s → IsMigrated (run_migrations refused intact s)
  unfolding run_migrations IsMigrated
  run_migrations-IsMigrated intact s h =
      both_branches IsMigrated refused.reads (s, some sqlite_error)
        (run_if_any refused intact (pending refused s.user_version) s) (h, λ e. absurd (cc))
        (run_if_any-IsMigrated intact s s.user_version refl h)

  created-IsMigrated :
      (intact : Bool) (s : Schema) (r : Run)
      → IsConsistent s
      → IsGrown s r.0
      → IsMigrated (continue refused sqlite_error (run_migrations refused intact) r)
  unfolding continue IsMigrated
  created-IsMigrated intact s (t, false) h grown =
      (IsConsistent-IsGrown s t grown h, λ e. absurd (cc))
  created-IsMigrated intact s (t, true) h grown =
      run_migrations-IsMigrated intact t (IsConsistent-IsGrown s t grown h)

  index-IsMigrated : (t : End) → IsMigrated t → IsMigrated (index refused t)
  unfolding index IsMigrated
  index-IsMigrated (s, some error) h = h
  index-IsMigrated (s, none) h =
      both_branches IsMigrated refused.indexes (s, some sqlite_error) (s, none)
        (h.0, λ e. absurd (cc)) h

  raised_or_current :
      (t : End) → IsMigrated t → IsConsistent t.0 × ((is_some t.1 ≡ true) ⊎ (2 ≤ t.0.user_version))
  unfolding IsMigrated
  raised_or_current (s, none) (h, current) = (h, inr (current refl))
  raised_or_current (s, some error) (h, current) = (h, inl refl)

  -- A database whose version is not ahead of its columns, as a new one, an old one or one that an
  -- interrupted upgrade left, has that property after `apply_schema`, whatever statements are refused,
  -- though a migration that fails keeps the columns that it has added: version 1 stands for the message
  -- columns of the first migration, version 2 for the node columns of the second one too. And an error
  -- is raised, or the version is at least the current one, 2.
  pub apply_schema-IsConsistent :
      (intact : Bool) (s : Schema)
      → IsConsistent s
      → let (end, error) = apply_schema refused intact s in
        IsConsistent end × ((is_some error ≡ true) ⊎ (2 ≤ end.user_version))
  unfolding apply_schema IsGrown version
  apply_schema-IsConsistent intact s h =
      let created : Run = create_tables refused schema_tables s in
      raised_or_current (apply_schema refused intact s) (
        index-IsMigrated (continue refused sqlite_error (run_migrations refused intact) created) (
          created-IsMigrated intact s created h (
            create_tables-Keeps refused schema_tables s,
            create_tables-version refused schema_tables s,
          )))
