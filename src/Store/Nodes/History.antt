-- ===== src/Store/Nodes/History.antt =====
-- What a row of the table of nodes holds after a history of writes (_write_node of
-- src/meshchat/services/monitor_store.py).
use orc_mesh.Prelude.{
  ℕ, ◌≡◌, refl, ap, ◌∙◌, inl, inr, max, true, false, Option, none, some, List, [], ◌∷◌, arith, leb,
  Bool-cases, All, All-map, keep, ◌==◌, ==_iff, Any, Any-map, or_else, if◌then◌else◌,
}
use orc_mesh.Prelude.Int.{ℤ}
use orc_mesh.Prelude.Text.{Text}
use orc_mesh.Prelude.Dict.{lookup, lookup-insert, nat_eq}
use orc_mesh.Model.Node.{NodeSnapshot}
use orc_mesh.Ingest.Pipeline.Seed.{NodeRow}
use orc_mesh.Store.Columns.{
  leb_text, leb_text_antisym, leb_text_refl, leb_text_trans, leb_text_total, sql_max, is_as_new,
}
use orc_mesh.Store.Tables.{Database, dt_str}
use orc_mesh.Store.Nodes.{upsert_row, upserted, node_row, write_node}

-- a time that is not after a column's
pub NotAfter : Option Text → Option Text → Type 0
NotAfter none column = Unit
NotAfter (some t) none = ⊥
NotAfter (some t) (some u) = leb_text t u ≡ true

NotAfter-trans : (a b c : Option Text) → NotAfter a b → NotAfter b c → NotAfter a c
unfolding NotAfter
NotAfter-trans none b c h k = tt
NotAfter-trans (some s) none c h k = elim h [ ]
NotAfter-trans (some s) (some t) none h k = elim k [ ]
NotAfter-trans (some s) (some t) (some u) h k = leb_text_trans s t u h k

new_heard : Option Text → Option Text → Option Text
new_heard new stored = or_else (sql_max leb_text new stored) (or_else new stored)

-- Where the new row is taken_heard, its time is the row's, and is not before the stored one.
taken_heard :
    (new stored : Option Text)
    → is_as_new new stored ≡ true
    → (new_heard new stored ≡ new) × NotAfter stored new
unfolding is_as_new new_heard sql_max NotAfter
taken_heard none stored h = ground arith
taken_heard (some t) none h = (refl, tt)
taken_heard (some t) (some u) h = elim (Bool-cases (leb_text t u)) [
  | inl below ↦ rw below (rw (leb_text_antisym t u below h) (refl, leb_text_refl u))
  | inr above ↦ rw above (refl, h)
]

kept_heard :
    (new stored : Option Text)
    → is_as_new new stored ≡ false
    → (new_heard new stored ≡ stored) × NotAfter new stored
unfolding is_as_new new_heard sql_max NotAfter
kept_heard none none h = (refl, tt)
kept_heard none (some u) h = (refl, tt)
kept_heard (some t) none h = ground arith
kept_heard (some t) (some u) h = let k = leb_text_total u t h in rw k (refl, refl)

NotAfter-refl : (a : Option Text) → NotAfter a a
unfolding NotAfter
NotAfter-refl none = tt
NotAfter-refl (some t) = leb_text_refl t

-- the greatest value over some snapshots
pub peak : (NodeSnapshot → ℕ) → List NodeSnapshot → ℕ
peak count [] = 0
peak count (w ∷ ws) = max (count w) (peak count ws)

peak_one :
    (count : NodeSnapshot → ℕ) (w : NodeSnapshot) → some (count w) ≡ some (peak count (w ∷ []))
unfolding peak
peak_one count w = ap some (omega arith)

peak_step :
    (count : NodeSnapshot → ℕ) (w : NodeSnapshot) (ws : List NodeSnapshot) (c : Option ℕ)
    → c ≡ some (peak count ws)
    → sql_max leb (some (count w)) c ≡ some (peak count (w ∷ ws))
unfolding peak sql_max
peak_step count w ws c h = rw h (ground arith)

module _ (isoformat : ℤ → Text) where
  -- The columns `last_*` of a row are those of a snapshot, all from the same one.
  pub IsHeard : NodeRow → NodeSnapshot → Type 0
  IsHeard row node =
      let offered = node_row isoformat node in
      (row.last_heard ≡ offered.last_heard)
      × (row.last_snr ≡ node.last_snr)
      × (row.last_rssi ≡ node.last_rssi)
      × (row.last_hops_used ≡ node.last_hops_used)
      × (row.last_hop_start ≡ node.last_hop_start)
      × (row.last_via_mqtt ≡ node.last_via_mqtt)

  -- A row as a history of writes leaves it, the newest first: each counter is the greatest that was
  -- written, the columns `last_*` are all of one write, and no write was heard after it.
  pub IsHistory : NodeRow → List NodeSnapshot → Type 0
  IsHistory row ws =
      (row.packet_count ≡ some (peak (λ w. w.packet_count) ws))
      × (row.text_count ≡ some (peak (λ w. w.text_count) ws))
      × (row.rf_count ≡ some (peak (λ w. w.rf_count) ws))
      × (row.via_mqtt_count ≡ some (peak (λ w. w.via_mqtt_count) ws))
      × (row.position_count ≡ some (peak (λ w. w.position_count) ws))
      × (row.telemetry_count ≡ some (peak (λ w. w.telemetry_count) ws))
      × Any (IsHeard row) ws
      × All (λ w. NotAfter (dt_str isoformat w.last_heard) row.last_heard) ws

  IsHistory-node_row : (w : NodeSnapshot) → IsHistory (node_row isoformat w) (w ∷ [])
  unfolding node_row IsHeard IsHistory
  IsHistory-node_row w = (
    (peak_one (λ w. w.packet_count) w),
    (peak_one (λ w. w.text_count) w),
    (peak_one (λ w. w.rf_count) w),
    (peak_one (λ w. w.via_mqtt_count) w),
    (peak_one (λ w. w.position_count) w),
    (peak_one (λ w. w.telemetry_count) w),
    inl (refl, refl, refl, refl, refl, refl),
    (NotAfter-refl (dt_str isoformat w.last_heard), tt),
  )

  IsHeard-step :
      (w : NodeSnapshot) (row : NodeRow) (ws : List NodeSnapshot)
      → Any (IsHeard row) ws
      → Any (IsHeard (upsert_row (node_row isoformat w) row)) (w ∷ ws)
  unfolding IsHeard upsert_row node_row new_heard
  IsHeard-step w row ws heard =
      let new : Option Text = dt_str isoformat w.last_heard in
      elim (Bool-cases (is_as_new new row.last_heard)) [
        | inl newer ↦
            inl (rw newer ((taken_heard new row.last_heard newer).0, refl, refl, refl, refl, refl))
        | inr older ↦ inr (
            Any-map ws
              (λ x (a, b, c, d, e, f).
                rw older ((kept_heard new row.last_heard older).0 ∙ a, b, c, d, e, f))
              heard)
      ]

  before_step :
      (w : NodeSnapshot) (row : NodeRow) (ws : List NodeSnapshot)
      → All (λ w. NotAfter (dt_str isoformat w.last_heard) row.last_heard) ws
      → All
          (λ x.
            NotAfter
              (dt_str isoformat x.last_heard)
              (new_heard (dt_str isoformat w.last_heard) row.last_heard))
          (w ∷ ws)
  before_step w row ws before =
      let new : Option Text = dt_str isoformat w.last_heard in
      elim (Bool-cases (is_as_new new row.last_heard)) [
        | inl newer ↦
            let (now, after) = taken_heard new row.last_heard newer in
            (
              rw now (NotAfter-refl new),
              All-map ws
                  (λ x h.
                    rw now
                      (NotAfter-trans (dt_str isoformat x.last_heard) row.last_heard new h after))
                  before,
            )
        | inr older ↦
            let (now, after) = kept_heard new row.last_heard older in
            (rw now after, All-map ws (λ x h. rw now h) before)
      ]

  IsHistory-upsert_row :
      (w : NodeSnapshot) (row : NodeRow) (ws : List NodeSnapshot)
      → IsHistory row ws
      → IsHistory (upsert_row (node_row isoformat w) row) (w ∷ ws)
  unfolding IsHistory node_row upsert_row new_heard
  IsHistory-upsert_row w row ws (p, t, r, v, o, l, heard, before) = (
    peak_step (λ w. w.packet_count) w ws row.packet_count p,
    peak_step (λ w. w.text_count) w ws row.text_count t,
    peak_step (λ w. w.rf_count) w ws row.rf_count r,
    peak_step (λ w. w.via_mqtt_count) w ws row.via_mqtt_count v,
    peak_step (λ w. w.position_count) w ws row.position_count o,
    peak_step (λ w. w.telemetry_count) w ws row.telemetry_count l,
    IsHeard-step w row ws heard,
    before_step w row ws before,
  )

  -- the writes of a history, the newest first
  pub write_nodes : List NodeSnapshot → Database → Database
  write_nodes [] db = db
  write_nodes (w ∷ ws) db = write_node isoformat w (write_nodes ws db)

  -- what the table has for a node after a history of its writes
  pub IsStored : Option NodeRow → List NodeSnapshot → Type 0
  IsStored none ws = ws ≡ []
  IsStored (some row) ws = IsHistory row ws

  IsStored-upserted :
      (w : NodeSnapshot) (stored : Option NodeRow) (ws : List NodeSnapshot)
      → IsStored stored ws
      → IsHistory (upserted (node_row isoformat w) stored) (w ∷ ws)
  unfolding IsStored upserted
  IsStored-upserted w none ws h = rw h (IsHistory-node_row w)
  IsStored-upserted w (some row) ws h = IsHistory-upsert_row w row ws h

  lookup-write_node :
      (num : ℕ) (w : NodeSnapshot) (db : Database)
      → lookup num (write_node isoformat w db).nodes ≡ (
          if w.node_num == num
          then some (upserted (node_row isoformat w) (lookup w.node_num db.nodes))
          else lookup num db.nodes)
  unfolding write_node
  lookup-write_node num w db =
      lookup-insert w.node_num num (upserted (node_row isoformat w) (lookup w.node_num db.nodes))
        db.nodes

  -- After any writes of any nodes to a table without node `num`, it has a row for `num` just when
  -- `num` was written, and then: every counter of the row is the greatest that was written for `num`;
  -- its `last_heard` and the signal, hop and transport columns are all from one and the same write;
  -- and no write of `num` was heard later than that.
  pub write_nodes-IsStored :
      (num : ℕ) (ws : List NodeSnapshot) (db : Database)
      → lookup num db.nodes ≡ none
      → IsStored (lookup num (write_nodes ws db).nodes) (keep (λ w. w.node_num == num) ws)
  unfolding write_nodes IsStored
  write_nodes-IsStored num [] db h = rw h refl
  write_nodes-IsStored num (w ∷ ws) db h =
      let before = write_nodes-IsStored num ws db h in
      elim (Bool-cases (w.node_num == num)) [
        | inl same ↦
            let this : lookup w.node_num (write_nodes ws db).nodes
                ≡ lookup num (write_nodes ws db).nodes =
              ap (λ n. lookup n (write_nodes ws db).nodes) ((==_iff w.node_num num).0 same) in
            rw (lookup-write_node num w (write_nodes ws db), same, this)
              (IsStored-upserted w (lookup num (write_nodes ws db).nodes)
                (keep (λ w. w.node_num == num) ws) before)
        | inr other ↦ rw (lookup-write_node num w (write_nodes ws db), other) before
      ]
