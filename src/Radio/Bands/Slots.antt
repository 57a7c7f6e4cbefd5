-- ===== src/Radio/Bands/Slots.antt =====
-- Where the slots of a band lie.
use native.Mathlib.Nat.{mod-lt, div-mul-le_self, mul-le-mul_right}
use orc_mesh.Prelude.{ℕ, suc, ◌+◌, ◌*◌, ◌/◌, ◌≤◌, ◌<◌, arith}
use orc_mesh.Prelude.Int.{ℤ, pos, negsuc}
use orc_mesh.Radio.Bands.{BandRange, span, slots_of, mod_count, slot_center}

mod_count-lt : (n : ℤ) (count : ℕ) → 0 < count → mod_count n count < count
unfolding mod_count
mod_count-lt (pos n) count h = mod-lt n h
mod_count-lt (negsuc n) count h = omega (arith, mod-lt n h)

slots_of-positive : (b : BandRange) (bandwidth : ℕ) → 0 < bandwidth → 0 < slots_of b bandwidth
unfolding slots_of
slots_of-positive b bandwidth h = ground arith

-- the slots of a band that has room for one take no more than the band
slots_fit :
    (b : BandRange) (bandwidth : ℕ)
    → 0 < bandwidth
    → bandwidth ≤ span b
    → slots_of b bandwidth * bandwidth ≤ span b
unfolding slots_of
slots_fit b bandwidth h room = grind (arith, div-mul-le_self (span b) bandwidth)

slot_fits :
    (b : BandRange) (bandwidth : ℕ) (n : ℤ)
    → 0 < bandwidth
    → bandwidth ≤ span b
    → mod_count n (slots_of b bandwidth) * bandwidth + bandwidth ≤ span b
slot_fits b bandwidth n h room =
    let slot : suc (mod_count n (slots_of b bandwidth)) ≤ slots_of b bandwidth =
      omega (arith, mod_count-lt n (slots_of b bandwidth) (slots_of-positive b bandwidth h)) in
    grind (arith, mul-le-mul_right bandwidth slot, slots_fit b bandwidth h room)

-- Where a band has room for a slot, every channel number, negative ones included, has its slot
-- within the band: half the bandwidth on both sides of the centre stays between the band's ends.
pub slot_center-inside :
    (b : BandRange) (bandwidth : ℕ) (n : ℤ)
    → 0 < bandwidth
    → bandwidth ≤ span b
    → (b.start_hz + bandwidth / 2 ≤ slot_center b bandwidth n)
      × (slot_center b bandwidth n + bandwidth / 2 ≤ b.end_hz)
unfolding slot_center
slot_center-inside b bandwidth n h room =
    let fits = slot_fits b bandwidth n h room in (omega arith, omega (arith, fits))

-- Channel numbers with different slots have centres at least one bandwidth apart.
slot_center-apart :
    (b : BandRange) (bandwidth : ℕ) (m n : ℤ)
    → mod_count m (slots_of b bandwidth) < mod_count n (slots_of b bandwidth)
    → slot_center b bandwidth m + bandwidth ≤ slot_center b bandwidth n
unfolding slot_center
slot_center-apart b bandwidth m n h =
    let next : suc (mod_count m (slots_of b bandwidth)) ≤ mod_count n (slots_of b bandwidth) =
      omega arith in
    grind (arith, mul-le-mul_right bandwidth next)
