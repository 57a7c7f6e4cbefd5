-- ===== src/Ingest/Pipeline/Seed/Merging.antt =====
-- What seeding does to the snapshots and to the store.
use orc_mesh.Prelude.{
  ℕ, ◌≤◌, ◌≡◌, refl, ap, ◌∙◌, max, Option, none, some, List, [], ◌∷◌, arith, ◌==◌, ==_iff, or_else,
  Bool-cases, Option-cases, inl, inr,
}
use orc_mesh.Prelude.Text.{Text}
use orc_mesh.Prelude.Dict.{Dict, lookup, insert, lookup-insert, nat_eq, beq_refl}
use orc_mesh.Model.Node.{NodeSnapshot, new_node}
use orc_mesh.Ingest.Raw.{or_text}
use orc_mesh.Ingest.Nodes.{Nodes, node_or}
use orc_mesh.Ingest.Nodes.Heard.{heard_from, count_of-insert, packet_count-node_or}
use orc_mesh.Ingest.Pipeline.{node_updated}
use orc_mesh.Ingest.Pipeline.Seed.{
  NodeRow, PositionRow, merge_row, seed_row, seed_from_store, emit_row_position, position_of,
}

or_text_twice : (a b : Option Text) → or_text a (or_text a b) ≡ or_text a b
unfolding or_text
or_text_twice none b = refl
or_text_twice (some []) b = refl
or_text_twice (some (c ∷ s)) b = refl

or_else_twice {ℓ} : {A : Type ℓ} → (a b : Option A) → or_else (or_else a b) b ≡ or_else a b
or_else_twice none none = refl
or_else_twice none (some b) = refl
or_else_twice (some a) b = refl

max_twice : (a b : ℕ) → max (max a b) b ≡ max a b
max_twice a b = omega arith

module _ (fromisoformat : Text → Option ℕ) where
  merge_row_twice :
      (row : NodeRow) (node : NodeSnapshot)
      → merge_row fromisoformat row (merge_row fromisoformat row node)
        ≡ merge_row fromisoformat row node
  unfolding merge_row
  merge_row_twice row node = simp (or_text_twice, or_else_twice, max_twice)

  insert_twice :
      (num : ℕ) (node : NodeSnapshot) (nodes : Nodes)
      → insert num node (insert num node nodes) ≡ insert num node nodes
  unfolding insert
  insert_twice num node [] = rw (beq_refl num) refl
  insert_twice num node ((j, other) ∷ nodes) = elim (Bool-cases (j == num)) [
    | inl same ↦ rw (same, same) refl
    | inr differs ↦
        rw (differs, differs) (ap (λ (r : Nodes). (j, other) ∷ r) (insert_twice num node nodes))
  ]

  lookup_of_insert :
      (num : ℕ) (node : NodeSnapshot) (nodes : Nodes)
      → lookup num (insert num node nodes) ≡ some node
  lookup_of_insert num node nodes = rw (lookup-insert num num node nodes, beq_refl num) refl

  seed_row_unknown :
      (now : ℕ) (positions : Dict ℕ PositionRow) (row : NodeRow) (nodes : Nodes)
      → row.node_num ≡ none
      → seed_row fromisoformat now positions row nodes ≡ (nodes, [])
  unfolding seed_row
  seed_row_unknown now positions row nodes unknown = rw (unknown, seed_row) refl

  -- the snapshot that a row leaves
  abbrev seeded : ℕ → NodeRow → Nodes → NodeSnapshot
  seeded num row nodes = merge_row fromisoformat row (node_or (new_node num) (lookup num nodes))

  seed_row_known :
      (now : ℕ) (positions : Dict ℕ PositionRow) (row : NodeRow) (nodes : Nodes) (num : ℕ)
      → row.node_num ≡ some num
      → seed_row fromisoformat now positions row nodes ≡ (
        insert num (seeded num row nodes) nodes,
        node_updated (seeded num row nodes)
            ∷ emit_row_position fromisoformat
                (position_of fromisoformat num now (lookup num positions)),
      )
  unfolding seed_row merge_row
  seed_row_known now positions row nodes num known = rw (known, seed_row) refl

  seeded_twice :
      (num : ℕ) (row : NodeRow) (nodes : Nodes)
      → seeded num row (insert num (seeded num row nodes) nodes) ≡ seeded num row nodes
  unfolding node_or
  seeded_twice num row nodes = rw (lookup_of_insert num _ nodes) (merge_row_twice row _)

  -- Seeding from the same row a second time, at the same or another time, changes no snapshot, and
  -- announces what the first seeding would have announced at the time of the second.
  pub seed_row_twice :
      (first second : ℕ) (positions : Dict ℕ PositionRow) (row : NodeRow) (nodes : Nodes)
      → let once = (seed_row fromisoformat first positions row nodes).0 in
        seed_row fromisoformat second positions row once
        ≡ (once, (seed_row fromisoformat second positions row nodes).1)
  seed_row_twice first second positions row nodes = elim (Option-cases row.node_num) [
    | inl unknown ↦ rw (seed_row_unknown first positions row nodes unknown) (
        seed_row_unknown second positions row nodes unknown
        ∙ rw (seed_row_unknown second positions row nodes unknown) refl)
    | inr (num, known) ↦ rw (seed_row_known first positions row nodes num known) (
        seed_row_known second positions row _ num known
        ∙ rw
            (
              seeded_twice num row nodes,
              insert_twice num (seeded num row nodes) nodes,
              seed_row_known second positions row nodes num known,
            )
            refl)
  ]

  heard_from-seed_row :
      (now : ℕ) (positions : Dict ℕ PositionRow) (row : NodeRow) (nodes : Nodes) (j : ℕ)
      → heard_from j nodes ≤ heard_from j (seed_row fromisoformat now positions row nodes).0
  unfolding seed_row merge_row
  heard_from-seed_row now positions row nodes j = elim (Option-cases row.node_num) [
    | inl unknown ↦ rw (unknown, seed_row) (omega arith)
    | inr (num, known) ↦
        rw (known, seed_row)
          (elim (Bool-cases (num == j)) [
            | inl same ↦
                rw (count_of-insert num j _ nodes, same)
                  (omega (
                    arith,
                    packet_count-node_or (new_node num) (lookup num nodes)
                        (unfold new_node in refl),
                    ap (λ (k : ℕ). heard_from k nodes) ((==_iff num j).0 same),
                  ))
            | inr differs ↦ rw (count_of-insert num j _ nodes, differs) (omega arith)
          ])
  ]

  -- Seeding from the store never lowers the packet count of a node, whatever the rows say.
  pub heard_from-seed_from_store :
      (now : ℕ) (positions : Dict ℕ PositionRow) (rows : List NodeRow) (nodes : Nodes) (j : ℕ)
      → heard_from j nodes ≤ heard_from j (seed_from_store fromisoformat now positions rows nodes).0
  unfolding seed_from_store
  heard_from-seed_from_store now positions [] nodes j = omega arith
  heard_from-seed_from_store now positions (row ∷ rows) nodes j = omega (
    arith,
    heard_from-seed_row now positions row nodes j,
    heard_from-seed_from_store now positions rows (seed_row fromisoformat now positions row nodes).0
        j,
  )
