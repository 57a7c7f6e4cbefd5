-- ===== src/Analytics/Intel/Sums.antt =====
-- Sums over the packets that src/meshchat/analytics/packet_intel.py analyses.
use mathlib.Core.Path.{subst}
use orc_mesh.Prelude.{
  ℕ, suc, ◌+◌, ◌≡◌, refl, ap, ◌∙◌, inl, inr, Bool, true, false, Option, none, some, List, [], ◌∷◌,
  arith, ◌==◌, ==_iff, keep, Bool-cases, if◌then◌else◌,
}
use orc_mesh.Prelude.Dict.{Dict, lookup, insert, lookup-insert, nat_eq}
use orc_mesh.Model.Packet.{NetworkPacket}
use orc_mesh.Radio.Airtime.{ModemParams}
use orc_mesh.Analytics.Intel.{
  Accumulator, new_accumulator, accumulator_or_new, is_unsized, one_if, size_airtime, tally,
  Analysis, is_known, attribute, observe_packet, and_analysis, observe_all, sum_over, bump,
}

-- a measure of a record that may be missing
unfoldable pub of : (Accumulator → ℕ) → Option Accumulator → ℕ
of f none = 0
of f (some r) = f r

-- the sum of a measure over some packets
unfoldable pub sum_of : (NetworkPacket → ℕ) → List NetworkPacket → ℕ
sum_of g [] = 0
sum_of g (p ∷ ps) = g p + sum_of g ps

-- the packet is from a node
unfoldable pub is_from : ℕ → Option ℕ → Bool
is_from num none = false
is_from num (some sender) = sender == num

unfoldable pub is_attributed : Option ℕ → Bool
is_attributed none = false
is_attributed (some sender) = true

sum_over-insert :
    (f : Accumulator → ℕ) (num : ℕ) (r : Accumulator) (d : Dict ℕ Accumulator)
    → sum_over f (insert num r d) + of f (lookup num d) ≡ sum_over f d + f r
unfolding sum_over insert lookup of
sum_over-insert f num r [] = omega arith
sum_over-insert f num r ((k, q) ∷ d) = elim (Bool-cases (k == num)) [
  | inl same ↦ rw same (omega arith)
  | inr other ↦ rw other (omega (arith, sum_over-insert f num r d))
]

pub and_analysis_lem :
    (o : Option Analysis) (k : Analysis → Option Analysis) (s' : Analysis)
    → and_analysis o k ≡ some s'
    → (s : Analysis) × (o ≡ some s) × (k s ≡ some s')
unfolding and_analysis
and_analysis_lem none k s' e = absurd (let q : none ≡ some s' = e in cc)
and_analysis_lem (some s) k s' e = (s, refl, e)

-- A measure that each packet raises by its own.
module _ (known : List ℕ) (params : ModemParams) (f : Accumulator → ℕ) (g : NetworkPacket → ℕ)
    (start : f new_accumulator ≡ 0)
    (step : (k : Bool) (p : NetworkPacket) (ticks : ℕ) (r : Accumulator)
      → size_airtime params p.payload_size ≡ some ticks
      → f (tally k p ticks r) ≡ f r + g p) where
  of-accumulator_or_new : (o : Option Accumulator) → f (accumulator_or_new o) ≡ of f o
  unfolding accumulator_or_new of
  of-accumulator_or_new none = start
  of-accumulator_or_new (some r) = refl

  -- one packet
  IsRaised : NetworkPacket → Option ℕ → Analysis → Analysis → Type 0
  IsRaised p sender s s' =
      ((num : ℕ)
        → of f (lookup num s'.accumulators)
          ≡ of f (lookup num s.accumulators) + (if is_from num sender then g p else 0))
      × (sum_over f s'.accumulators
          ≡ sum_over f s.accumulators + (if is_attributed sender then g p else 0))

  attribute-IsRaised :
      (p : NetworkPacket) (num : ℕ) (ticks : Option ℕ) (s s' : Analysis)
      → size_airtime params p.payload_size ≡ ticks
      → attribute known p num ticks s ≡ some s'
      → IsRaised p (some num) s s'
  unfolding attribute IsRaised is_from is_attributed of
  attribute-IsRaised p num none s s' e h = absurd (let q : none ≡ some s' = h in cc)
  attribute-IsRaised p num (some ticks) s s' e h =
      let old : Option Accumulator = lookup num s.accumulators in
      let r : Accumulator = tally (is_known num known) p ticks (accumulator_or_new old) in
      let raised : f r ≡ of f old + g p =
        step (is_known num known) p ticks (accumulator_or_new old) e
        ∙ ap (λ n. n + g p) (of-accumulator_or_new old) in
      let end : Analysis = record s {
        accumulators = insert num r s.accumulators;
        unsized_packets = s.unsized_packets + one_if (is_unsized p.payload_size);
        portnum_totals = bump p.portnum_name s.portnum_totals;
      } in
      let q : some end ≡ some s' = h in
      let same : end ≡ s' = cc in
      subst (IsRaised p (some num) s) same (
        λ other. elim (Bool-cases (num == other)) [
          | inl hit ↦
              let moved : lookup num s.accumulators ≡ lookup other s.accumulators =
                ap (λ n. lookup n s.accumulators) ((==_iff num other).0 hit) in
              rw (lookup-insert num other r s.accumulators, hit, ← moved) raised
          | inr miss ↦ rw (lookup-insert num other r s.accumulators, miss) (omega arith)
        ],
        omega (arith, sum_over-insert f num r s.accumulators, raised),
      )

  observe_packet-IsRaised :
      (p : NetworkPacket) (sender : Option ℕ) (s s' : Analysis)
      → observe_packet known params p sender s ≡ some s'
      → IsRaised p sender s s'
  unfolding observe_packet
  observe_packet-IsRaised p none s s' h =
      let end : Analysis = record s { unattributed = suc s.unattributed } in
      let q : some end ≡ some s' = h in
      let same : end ≡ s' = cc in
      subst (IsRaised p none s) same
        (unfold IsRaised is_from is_attributed in (λ num. omega arith, omega arith))
  observe_packet-IsRaised p (some num) s s' h =
      attribute-IsRaised p num (size_airtime params p.payload_size) s s' refl h

  sum_of-keep :
      (b : NetworkPacket → Bool) (p : NetworkPacket) (ps : List NetworkPacket)
      → sum_of g (keep b (p ∷ ps)) ≡ (if b p then g p else 0) + sum_of g (keep b ps)
  unfolding sum_of
  sum_of-keep b p ps = elim (Bool-cases (b p)) [
    | inl kept ↦ rw kept refl
    | inr out ↦ rw out (omega arith)
  ]

  -- The measures of the packets add up, node by node and in all.
  pub observe_all-sum :
      (ps : List NetworkPacket) (s s' : Analysis)
      → observe_all known params ps s ≡ some s'
      → ((num : ℕ)
          → of f (lookup num s'.accumulators)
            ≡ of f (lookup num s.accumulators) + sum_of g (keep (λ p. is_from num p.sender_num) ps))
        × (sum_over f s'.accumulators
            ≡ sum_over f s.accumulators + sum_of g (keep (λ p. is_attributed p.sender_num) ps))
  unfolding observe_all sum_of IsRaised
  observe_all-sum [] s s' h =
      let q : some s ≡ some s' = h in
      let same : s ≡ s' = cc in rw same (λ num. omega arith, omega arith)
  observe_all-sum (p ∷ ps) s s' h =
      let (t, first, rest) =
        and_analysis_lem (observe_packet known params p p.sender_num s)
          (observe_all known params ps) s' h in
      let (one, all) = observe_packet-IsRaised p p.sender_num s t first in
      let (ones, alls) = observe_all-sum ps t s' rest in
      (
        λ num. ones num ∙ omega (arith, one num, sum_of-keep (λ p. is_from num p.sender_num) p ps),
        alls ∙ omega (arith, all, sum_of-keep (λ p. is_attributed p.sender_num) p ps),
      )
