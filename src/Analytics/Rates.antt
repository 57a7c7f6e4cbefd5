-- ===== src/Analytics/Rates.antt =====
-- src/meshchat/analytics/rolling_rates.py. Times are milliseconds of the monotonic clock, so the
-- windows of 60.0 and 3600.0 seconds are 60000 and 3600000. `t <= now - window` is written with the
-- window on the left, since `-` stops at 0.
pub mod Exact
use orc_mesh.Prelude.{ℕ, ◌+◌, Bool, List, [], ◌∷◌, ◌++◌, leb, length, if◌then◌else◌}

pub record RollingRate : Type 0 where
  pub window : ℕ
  pub timestamps : List ℕ

-- RollingRate(window_seconds)
unfoldable pub new_rate : ℕ → RollingRate
new_rate window = record { window = window; timestamps = [] }

unfoldable pub prune : ℕ → ℕ → List ℕ → List ℕ
prune window now [] = []
prune window now (t ∷ ts) = if leb (t + window) now then prune window now ts else t ∷ ts

-- RollingRate.record
unfoldable pub record_event : ℕ → RollingRate → RollingRate
record_event ts r = record r { timestamps = prune r.window ts (r.timestamps ++ ts ∷ []) }

-- RollingRate.count: the events are pruned on the way
unfoldable pub count : ℕ → RollingRate → RollingRate × ℕ
count now r =
    let kept = prune r.window now r.timestamps in (record r { timestamps = kept }, length kept)

-- RollingRate.reset
unfoldable pub reset : RollingRate → RollingRate
reset r = record r { timestamps = [] }

pub record DualRateTracker : Type 0 where
  pub per_min : RollingRate
  pub per_hour : RollingRate

abbrev pub minute : ℕ
minute = 60_000

abbrev pub hour : ℕ
hour = 3_600_000

unfoldable pub new_tracker : DualRateTracker
new_tracker = record { per_min = new_rate minute; per_hour = new_rate hour }

-- DualRateTracker.record
unfoldable pub record_dual : ℕ → DualRateTracker → DualRateTracker
record_dual ts d = record {
  per_min = record_event ts d.per_min;
  per_hour = record_event ts d.per_hour;
}

-- DualRateTracker.reset
unfoldable pub reset_dual : DualRateTracker → DualRateTracker
reset_dual d = record { per_min = reset d.per_min; per_hour = reset d.per_hour }

-- the properties `per_minute` and `per_hour`, read at one time
unfoldable pub per_minute_hour : ℕ → DualRateTracker → DualRateTracker × ℕ × ℕ
per_minute_hour now d =
    let (m, n) = count now d.per_min in
    let (h, k) = count now d.per_hour in (record { per_min = m; per_hour = h }, n, k)

-- The calls of `record` for events at the given times.
unfoldable pub record_all : List ℕ → DualRateTracker → DualRateTracker
record_all [] d = d
record_all (t ∷ ts) d = record_all ts (record_dual t d)
