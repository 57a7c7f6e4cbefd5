-- ===== src/Analytics/Intel/Account.antt =====
-- What src/meshchat/analytics/packet_intel.py counts, against the packets.
use orc_mesh.Prelude.{
  ℕ, suc, ◌+◌, ◌≡◌, ◌<◌, refl, ap, inl, inr, Bool, Option, none, some, List, [], ◌∷◌, arith, length,
  keep, Bool-cases, if◌then◌else◌,
}
use orc_mesh.Prelude.Dict.{lookup, nat_eq}
use orc_mesh.Model.Packet.{NetworkPacket, packet_is_direct, is_true}
use orc_mesh.Radio.Airtime.{ModemParams}
use orc_mesh.Radio.Airtime.Symbols.{airtime_mono}
use orc_mesh.Ingest.Pipeline.Seed.{or_0}
use orc_mesh.Analytics.Intel.{
  Accumulator, new_accumulator, is_unsized, one_if, size_airtime, is_mqtt, is_relayed, tally,
  Analysis, new_analysis, attribute, observe_packet, and_analysis, observe_all, sum_over,
  analysed_packets, total_airtime,
}
use orc_mesh.Analytics.Intel.Sums.{
  of, sum_of, is_from, is_attributed, and_analysis_lem, observe_all-sum,
}

-- The measure of every packet is 1, or that of some packets.
sum_of_ones : (ps : List NetworkPacket) → sum_of (λ p. 1) ps ≡ length ps
unfolding sum_of
sum_of_ones [] = refl
sum_of_ones (p ∷ ps) = omega (arith, sum_of_ones ps)

sum_of-one_if :
    (b : NetworkPacket → Bool) (ps : List NetworkPacket)
    → sum_of (λ p. one_if (b p)) ps ≡ length (keep b ps)
unfolding sum_of
sum_of-one_if b [] = refl
sum_of-one_if b (p ∷ ps) = elim (Bool-cases (b p)) [
  | inl kept ↦ rw kept (omega (arith, sum_of-one_if b ps))
  | inr out ↦ rw out (omega (arith, sum_of-one_if b ps))
]

-- A packet is direct, by MQTT or relayed, and one of these only.
one_way :
    (p : NetworkPacket)
    → one_if (packet_is_direct p) + one_if (is_mqtt p) + one_if (is_relayed p) ≡ 1
unfolding is_mqtt is_relayed
one_way p = elim (Bool-cases (packet_is_direct p)) [
  | inl direct ↦ rw direct (omega arith)
  | inr other ↦ elim (Bool-cases (is_true p.via_mqtt)) [
    | inl mqtt ↦ rw (other, mqtt) (omega arith)
    | inr relayed ↦ rw (other, relayed) (omega arith)
  ]
]

-- the airtime of a packet in ticks, 0 where the packet has no size
pub ticks_of_packet : ModemParams → NetworkPacket → ℕ
ticks_of_packet params p = or_0 (size_airtime params p.payload_size)

-- What the analysis says of the packets `mine` of one node.
pub IsAccount : ModemParams → Option Accumulator → List NetworkPacket → Type 0
IsAccount params row mine =
    (of (λ r. r.packets) row ≡ length mine)
    × (of (λ r. r.direct) row ≡ length (keep packet_is_direct mine))
    × (of (λ r. r.direct + r.via_mqtt + r.relayed) row ≡ length mine)
    × (of (λ r. r.unsized) row ≡ length (keep (λ p. is_unsized p.payload_size) mine))
    × (of (λ r. r.airtime_ticks) row ≡ sum_of (ticks_of_packet params) mine)

unattributed_of : Option Analysis → ℕ
unattributed_of none = 0
unattributed_of (some s) = s.unattributed

module _ (known : List ℕ) (params : ModemParams) (wide : 2 < params.spreading_factor)
    (positive : 0 < params.bandwidth_hz) where
  size_airtime-some : (size : Option ℕ) → (ticks : ℕ) × (size_airtime params size ≡ some ticks)
  unfolding size_airtime
  size_airtime-some none = (0, refl)
  size_airtime-some (some n) =
      let (a, b, first, second, le) = airtime_mono n n params wide positive (omega arith) in
      (a, first)

  observe_packet-some :
      (p : NetworkPacket) (sender : Option ℕ) (s : Analysis)
      → (s' : Analysis) × (observe_packet known params p sender s ≡ some s')
  unfolding observe_packet attribute
  observe_packet-some p none s = (_, refl)
  observe_packet-some p (some num) s =
      let (ticks, e) = size_airtime-some p.payload_size in rw e (_, refl)

  observe_all-some :
      (ps : List NetworkPacket) (s : Analysis)
      → (s' : Analysis) × (observe_all known params ps s ≡ some s')
  unfolding observe_all and_analysis
  observe_all-some [] s = (s, refl)
  observe_all-some (p ∷ ps) s =
      let (t, e) = observe_packet-some p p.sender_num s in rw e (observe_all-some ps t)

  observe_packet-unattributed :
      (p : NetworkPacket) (sender : Option ℕ) (s s' : Analysis)
      → observe_packet known params p sender s ≡ some s'
      → s'.unattributed ≡ s.unattributed + (if is_attributed sender then 0 else 1)
  unfolding observe_packet attribute is_attributed unattributed_of
  observe_packet-unattributed p none s s' h =
      let u : suc s.unattributed ≡ s'.unattributed = ap unattributed_of h in omega (arith, u)
  observe_packet-unattributed p (some num) s s' h =
      let (ticks, e) = size_airtime-some p.payload_size in
      let q : attribute known p num (some ticks) s ≡ some s' = rw e at h in
      let u : s.unattributed ≡ s'.unattributed = ap unattributed_of q in omega (arith, u)

  observe_all-unattributed :
      (ps : List NetworkPacket) (s s' : Analysis)
      → observe_all known params ps s ≡ some s'
      → s'.unattributed + length (keep (λ p. is_attributed p.sender_num) ps)
        ≡ s.unattributed + length ps
  unfolding observe_all unattributed_of
  observe_all-unattributed [] s s' h =
      let u : s.unattributed ≡ s'.unattributed = ap unattributed_of h in omega (arith, u)
  observe_all-unattributed (p ∷ ps) s s' h =
      let (t, first, rest) =
        and_analysis_lem (observe_packet known params p p.sender_num s)
          (observe_all known params ps) s' h in
      let one = observe_packet-unattributed p p.sender_num s t first in
      let more = observe_all-unattributed ps t s' rest in
      elim (Bool-cases (is_attributed p.sender_num)) [
        | inl sent ↦
            let step : t.unattributed ≡ s.unattributed + 0 = rw sent at one in
            rw sent (omega (arith, step, more))
        | inr unsent ↦
            let step : t.unattributed ≡ s.unattributed + 1 = rw unsent at one in
            rw unsent (omega (arith, step, more))
      ]

  -- With a spreading factor above 2 and a bandwidth above 0, so with every preset, the analysis of any
  -- packets ends without an error. For every node it has counted the node's packets, those of them that came directly, those
  -- without a size, and the airtime of the others; the direct ones, the ones by MQTT and the relayed
  -- ones add up to the node's packets. Over all nodes, the packets analysed and the ones without a
  -- sender are all packets, and the total airtime is that of the packets with a sender.
  pub observe_all-IsAccount :
      (ps : List NetworkPacket)
      → (s : Analysis) × (observe_all known params ps new_analysis ≡ some s)
        × ((num : ℕ)
            → IsAccount params
                (lookup num s.accumulators)
                (keep (λ p. is_from num p.sender_num) ps))
        × (analysed_packets s + s.unattributed ≡ length ps)
        × (total_airtime s
            ≡ sum_of (ticks_of_packet params) (keep (λ p. is_attributed p.sender_num) ps))
  unfolding IsAccount new_analysis analysed_packets total_airtime lookup of sum_over tally
      new_accumulator
  observe_all-IsAccount ps =
      let (s, e) = observe_all-some ps new_analysis in
      let attributed : List NetworkPacket = keep (λ p. is_attributed p.sender_num) ps in
      let (packets, analysed) =
        observe_all-sum known params (λ r. r.packets) (λ p. 1) refl (λ k p ticks r h. omega arith)
          ps new_analysis s e in
      let (direct, _) =
        observe_all-sum known params (λ r. r.direct) (λ p. one_if (packet_is_direct p)) refl
          (λ k p ticks r h. refl) ps new_analysis s e in
      let (ways, _) =
        observe_all-sum known params (λ r. r.direct + r.via_mqtt + r.relayed) (λ p. 1) refl
          (λ k p ticks r h. omega (arith, one_way p)) ps new_analysis s e in
      let (unsized, _) =
        observe_all-sum known params (λ r. r.unsized) (λ p. one_if (is_unsized p.payload_size)) refl
          (λ k p ticks r h. refl) ps new_analysis s e in
      let (ticks, airtimes) =
        observe_all-sum known params (λ r. r.airtime_ticks) (ticks_of_packet params) refl
          (λ k p ticks r h. unfold ticks_of_packet in rw h refl) ps new_analysis s e in
      (
        s,
        e,
        λ num.
            let mine : List NetworkPacket = keep (λ p. is_from num p.sender_num) ps in
            (
              omega (arith, packets num, sum_of_ones mine),
              omega (arith, direct num, sum_of-one_if packet_is_direct mine),
              omega (arith, ways num, sum_of_ones mine),
              omega (arith, unsized num, sum_of-one_if (λ p. is_unsized p.payload_size) mine),
              omega (arith, ticks num),
            ),
        omega
            (arith, analysed, sum_of_ones attributed, observe_all-unattributed ps new_analysis s e),
        omega (arith, airtimes),
      )
