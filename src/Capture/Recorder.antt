-- ===== src/Capture/Recorder.antt =====
-- `IqRecorder` of src/meshchat/services/iq_recorder.py. The open file is the list of bytes written to
-- it; a failing `handle.write` is the environment's choice, passed as a flag (True: it raises
-- OSError). The receiver settings, which `write` does not read, are left out of the state.
pub mod Stream
use orc_mesh.Prelude.{
  ℕ, zero, suc, ◌+◌, ◌-◌, ◌*◌, ◌/◌, ◌%◌, Bool, true, false, Option, none, some, List, [], ◌∷◌, ◌++◌,
  leb, ltb, ◌==◌, length, take, if◌then◌else◌,
}

abbrev pub bytes_per_sample : ℕ
bytes_per_sample = 2

pub record IqRecorder : Type 0 where
  pub max_bytes : Option ℕ
  pub samples : ℕ
  pub truncated : Bool
  pub closed : Bool
  pub file : List ℕ

-- what a call raises
pub data CaptureError : Type 0 where
  recorder_closed recording_failed : CaptureError

unfoldable pub open_recorder : Option ℕ → IqRecorder
open_recorder max_bytes = record {
  max_bytes = max_bytes;
  samples = 0;
  truncated = false;
  closed = false;
  file = [];
}

abbrev pub bytes_written : IqRecorder → ℕ
bytes_written r = r.samples * bytes_per_sample

-- data[: len(data) - 1] where the length is odd
unfoldable pub aligned : List ℕ → List ℕ
aligned bytes =
    if length bytes % bytes_per_sample == 0 then bytes else take (length bytes - 1) bytes

-- handle.write(data) and the update of the sample count
unfoldable pub store_bytes : Bool → List ℕ → IqRecorder → IqRecorder × Option CaptureError
store_bytes true bytes r = (record r { closed = true }, some recording_failed)
store_bytes false bytes r = (
  record r { file = r.file ++ bytes; samples = r.samples + length bytes / bytes_per_sample },
  none,
)

-- a chunk that crosses the limit is cut at a whole sample
unfoldable pub store_cut : Bool → List ℕ → IqRecorder → IqRecorder × Option CaptureError
store_cut fails [] r = (record r { truncated = true }, none)
store_cut fails (b ∷ bytes) r = store_bytes fails (b ∷ bytes) (record r { truncated = true })

-- the size limit, for a chunk that is aligned and not empty
unfoldable pub store_limited :
    Bool → List ℕ → Option ℕ → IqRecorder → IqRecorder × Option CaptureError
unfolding store_bytes store_cut
store_limited fails bytes none r = store_bytes fails bytes r
store_limited fails bytes (some max_bytes) r =
    let remaining = max_bytes - bytes_written r in
    if leb max_bytes (bytes_written r)
    then (record r { truncated = true }, none)
    else if ltb remaining (length bytes)
    then store_cut fails (take (remaining - remaining % bytes_per_sample) bytes) r
    else store_bytes fails bytes r

-- the early returns for an empty chunk, before and after the alignment, are one: an aligned chunk is
-- empty where the chunk is
unfoldable pub store_aligned : Bool → List ℕ → IqRecorder → IqRecorder × Option CaptureError
unfolding store_limited
store_aligned fails [] r = (r, none)
store_aligned fails (b ∷ bytes) r = store_limited fails (b ∷ bytes) r.max_bytes r

-- IqRecorder.write
unfoldable pub write : Bool → List ℕ → IqRecorder → IqRecorder × Option CaptureError
unfolding store_aligned aligned
write fails raw r =
    if r.closed
    then (r, some recorder_closed)
    else if r.truncated
    then (r, none)
    else store_aligned fails (aligned raw) r

-- IqRecorder.close: the state afterwards
unfoldable pub close : IqRecorder → IqRecorder
close r = record r { closed = true }

-- A stream of chunks, each written with no I/O error.
unfoldable pub write_all : List (List ℕ) → IqRecorder → IqRecorder
write_all [] r = r
write_all (raw ∷ chunks) r = write_all chunks (write false raw r).0
