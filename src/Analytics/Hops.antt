-- ===== src/Analytics/Hops.antt =====
-- src/meshchat/analytics/hop_metrics.py. A fraction of hops is the pair of its two numbers, so that a
-- comparison with 0.25, 0.50, 0.75 or 1.0 is exact: `h / s < 1 / 4` is `4 * h < s`.
use orc_mesh.Prelude.{
  ℕ, ◌+◌, ◌-◌, ◌*◌, ◌<◌, ◌≡◌, ◌↔◌, refl, Bool, true, false, Option, none, some, arith, ltb, ◌==◌,
  if◌then◌else◌,
}
use orc_mesh.Model.Packet.{is_direct_rf}

unfoldable pub compute_hops_used : Option ℕ → Option ℕ → Option ℕ
compute_hops_used none hop_limit = none
compute_hops_used (some hop_start) none = none
compute_hops_used (some hop_start) (some hop_limit) =
    if hop_start == 0
    then none
    else if ltb hop_start hop_limit
    then none
    else some (hop_start - hop_limit)

-- the fraction `hops_used / hop_start`, as numerator and denominator
unfoldable pub percent_hops_used : Option ℕ → Option ℕ → Option (ℕ × ℕ)
percent_hops_used none hop_start = none
percent_hops_used (some hops_used) none = none
percent_hops_used (some hops_used) (some hop_start) =
    if hop_start == 0 then none else some (hops_used, hop_start)

-- the display buckets
pub data Bucket : Type 0 where
  unknown percent_0 percent_1_24 percent_25_49 percent_50_74 percent_75_99 percent_100 : Bucket

unfoldable pub hop_efficiency_bucket : Option (ℕ × ℕ) → Bucket
hop_efficiency_bucket none = unknown
hop_efficiency_bucket (some (h, s)) =
    if h == 0
    then percent_0
    else if ltb (4 * h) s
    then percent_1_24
    else if ltb (2 * h) s
    then percent_25_49
    else if ltb (4 * h) (3 * s)
    then percent_50_74
    else if ltb h s
    then percent_75_99
    else percent_100

-- With both fields known, the hops used are `hops` exactly when hop_start is not 0 and is the sum of
-- the limit and `hops`; so a limit above hop_start gives none.
compute_hops_used_iff :
    (hop_start hop_limit hops : ℕ)
    → (compute_hops_used (some hop_start) (some hop_limit) ≡ some hops)
      ↔ ((0 < hop_start) × (hop_limit + hops ≡ hop_start))
unfolding compute_hops_used
compute_hops_used_iff hop_start hop_limit hops = (λ h. ground arith, λ h. ground arith)

-- A packet with these fields is direct RF exactly when the limit has not been lowered from a positive
-- start and the packet is not known to have come over MQTT.
is_direct_rf-compute_hops_used :
    (hop_start hop_limit : ℕ) (via_mqtt : Option Bool)
    → (is_direct_rf (compute_hops_used (some hop_start) (some hop_limit)) (some hop_start) via_mqtt
        ≡ true)
      ↔ ((0 < hop_start) × (hop_limit ≡ hop_start) × ¬ (via_mqtt ≡ some true))
unfolding compute_hops_used is_direct_rf
is_direct_rf-compute_hops_used hop_start hop_limit none =
    (λ h. (ground arith, ground arith, λ e. cc), λ h. ground arith)
is_direct_rf-compute_hops_used hop_start hop_limit (some true) =
    (λ h. ground arith, λ h. absurd (h.2 refl))
is_direct_rf-compute_hops_used hop_start hop_limit (some false) =
    (λ h. (ground arith, ground arith, λ e. cc), λ h. ground arith)

-- With both fields of a packet known, it falls in the last bucket exactly when hop_start is not 0 and
-- the limit has come down to 0: the whole allowance is used up.
hop_efficiency_bucket_full :
    (hop_start hop_limit : ℕ)
    → (hop_efficiency_bucket
          (percent_hops_used (compute_hops_used (some hop_start) (some hop_limit)) (some hop_start))
        ≡ percent_100)
      ↔ ((0 < hop_start) × (hop_limit ≡ 0))
unfolding hop_efficiency_bucket percent_hops_used compute_hops_used
hop_efficiency_bucket_full hop_start hop_limit = (λ h. ground arith, λ h. ground arith)
