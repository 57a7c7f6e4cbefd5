-- ===== src/Analytics/Intel.antt =====
-- `analyse_packets` of src/meshchat/analytics/packet_intel.py: what the packets of a window say about
-- each node. Airtimes are in the ticks of `Radio.Airtime`, where the code adds floats. The labels, the
-- signal statistics and the final ranking are left out.
pub mod Sums
pub mod Account
use orc_mesh.Prelude.{
  ℕ, suc, ◌+◌, ◌-◌, ◌*◌, ◌/◌, Bool, true, false, ◌||◌, not, Option, none, some, List, [], ◌∷◌, ◌++◌,
  ◌==◌, ltb, leb, length, take, drop, if◌then◌else◌,
}
use orc_mesh.Prelude.Int.{ℤ, pos, negsuc, ◌+ℤ◌, ◌-ℤ◌, ltb_ℤ}
use orc_mesh.Prelude.Text.{Text}
use orc_mesh.Prelude.Dict.{Dict, lookup, insert, nat_eq, text_key_eq}
use orc_mesh.Model.Packet.{NetworkPacket, packet_is_direct, is_true}
use orc_mesh.Radio.Airtime.{ModemParams, airtime}

-- collections.Counter
abbrev pub Counter : Type 0
Counter = Dict Text ℕ

unfoldable pub bumped : Option ℕ → ℕ
bumped none = 1
bumped (some n) = suc n

-- counter[key] += 1
unfoldable pub bump : Text → Counter → Counter
bump k counter = insert k (bumped (lookup k counter)) counter

pub record Accumulator : Type 0 where
  pub packets : ℕ
  pub airtime_ticks : ℕ
  pub direct : ℕ
  pub relayed : ℕ
  pub via_mqtt : ℕ
  pub snr : List ℤ
  pub rssi : List ℤ
  pub snr_samples : List (ℕ × ℤ)
  pub portnums : Counter
  pub first_seen : Option ℕ
  pub last_heard : Option ℕ
  pub unfamiliar : Bool
  pub unsized : ℕ

unfoldable pub new_accumulator : Accumulator
new_accumulator = record {
  packets = 0;
  airtime_ticks = 0;
  direct = 0;
  relayed = 0;
  via_mqtt = 0;
  snr = [];
  rssi = [];
  snr_samples = [];
  portnums = [];
  first_seen = none;
  last_heard = none;
  unfamiliar = false;
  unsized = 0;
}

-- accumulators.setdefault(num, _Accumulator())
unfoldable pub accumulator_or_new : Option Accumulator → Accumulator
accumulator_or_new none = new_accumulator
accumulator_or_new (some r) = r

unfoldable pub is_unsized : Option ℕ → Bool
is_unsized none = true
is_unsized (some n) = false

abbrev pub one_if : Bool → ℕ
one_if true = 1
one_if false = 0

-- the airtime that a packet adds, None where airtime_seconds raises
unfoldable pub size_airtime : ModemParams → Option ℕ → Option ℕ
size_airtime params none = some 0
size_airtime params (some n) = airtime n params

abbrev appended {ℓ} : {A : Type ℓ} → Option A → List A → List A
appended none xs = xs
appended (some a) xs = xs ++ a ∷ []

abbrev sampled : ℕ → Option ℤ → List (ℕ × ℤ) → List (ℕ × ℤ)
sampled t none xs = xs
sampled t (some a) xs = xs ++ (t, a) ∷ []

-- if first_seen is None or when < first_seen
abbrev earliest : ℕ → Option ℕ → Option ℕ
earliest t none = some t
earliest t (some u) = some (if ltb t u then t else u)

-- if last_heard is None or when > last_heard
abbrev newest : ℕ → Option ℕ → Option ℕ
newest t none = some t
newest t (some u) = some (if ltb u t then t else u)

-- how a packet came: direct, else by MQTT, else relayed
unfoldable pub is_mqtt : NetworkPacket → Bool
is_mqtt p = if packet_is_direct p then false else is_true p.via_mqtt

unfoldable pub is_relayed : NetworkPacket → Bool
is_relayed p = if packet_is_direct p then false else not (is_true p.via_mqtt)

-- what a packet does to its sender's record
unfoldable pub tally : Bool → NetworkPacket → ℕ → Accumulator → Accumulator
tally known p ticks r = record r {
  packets = suc r.packets;
  portnums = bump p.portnum_name r.portnums;
  unsized = r.unsized + one_if (is_unsized p.payload_size);
  airtime_ticks = r.airtime_ticks + ticks;
  direct = r.direct + one_if (packet_is_direct p);
  via_mqtt = r.via_mqtt + one_if (is_mqtt p);
  relayed = r.relayed + one_if (is_relayed p);
  snr = appended p.rx_snr r.snr;
  snr_samples = sampled p.observed_at p.rx_snr r.snr_samples;
  rssi = appended p.rx_rssi r.rssi;
  first_seen = earliest p.observed_at r.first_seen;
  last_heard = newest p.observed_at r.last_heard;
  unfamiliar = not known || r.unfamiliar;
}

pub record Analysis : Type 0 where
  pub accumulators : Dict ℕ Accumulator
  pub unattributed : ℕ
  pub unsized_packets : ℕ
  pub portnum_totals : Counter

unfoldable pub new_analysis : Analysis
new_analysis = record {
  accumulators = [];
  unattributed = 0;
  unsized_packets = 0;
  portnum_totals = [];
}

-- num in known
unfoldable pub is_known : ℕ → List ℕ → Bool
is_known num [] = false
is_known num (k ∷ known) = num == k || is_known num known

-- a packet of a sender, once its airtime is known
unfoldable pub attribute : List ℕ → NetworkPacket → ℕ → Option ℕ → Analysis → Option Analysis
attribute known p num none s = none
attribute known p num (some ticks) s = some (record s {
  accumulators =
      insert num
        (tally (is_known num known) p ticks (accumulator_or_new (lookup num s.accumulators)))
        s.accumulators;
  unsized_packets = s.unsized_packets + one_if (is_unsized p.payload_size);
  portnum_totals = bump p.portnum_name s.portnum_totals;
})

-- the loop body, by the packet's sender
unfoldable pub observe_packet :
    List ℕ → ModemParams → NetworkPacket → Option ℕ → Analysis → Option Analysis
observe_packet known params p none s = some (record s { unattributed = suc s.unattributed })
observe_packet known params p (some num) s =
    attribute known p num (size_airtime params p.payload_size) s

unfoldable pub and_analysis : Option Analysis → (Analysis → Option Analysis) → Option Analysis
and_analysis none f = none
and_analysis (some s) f = f s

-- the loop over the packets; None where airtime_seconds raises
unfoldable pub observe_all : List ℕ → ModemParams → List NetworkPacket → Analysis → Option Analysis
observe_all known params [] s = some s
observe_all known params (p ∷ ps) s =
    and_analysis (observe_packet known params p p.sender_num s) (observe_all known params ps)

-- the sum of a measure over the accumulators
unfoldable pub sum_over : (Accumulator → ℕ) → Dict ℕ Accumulator → ℕ
sum_over f [] = 0
sum_over f ((num, r) ∷ d) = f r + sum_over f d

-- analysed_packets
unfoldable pub analysed_packets : Analysis → ℕ
analysed_packets s = sum_over (λ (r : Accumulator). r.packets) s.accumulators

-- total_airtime_s
unfoldable pub total_airtime : Analysis → ℕ
total_airtime s = sum_over (λ (r : Accumulator). r.airtime_ticks) s.accumulators
