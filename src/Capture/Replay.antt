-- ===== src/Capture/Replay.antt =====
-- `iter_capture_chunks` of src/meshchat/services/iq_recorder.py: reading a capture file back. The
-- handle is what is left of the file; the loop is on fuel, and None is running out of it.
pub mod Whole
use orc_mesh.Prelude.{
  ℕ, zero, suc, ◌+◌, ◌-◌, ◌%◌, max, Bool, true, false, Option, none, some, List, [], ◌∷◌, ◌++◌,
  ◌==◌, length, take, drop, if◌then◌else◌,
}
use orc_mesh.Capture.Recorder.{bytes_per_sample, aligned}

-- max(BYTES_PER_SAMPLE, chunk_bytes - (chunk_bytes % BYTES_PER_SAMPLE))
unfoldable pub chunk_size : ℕ → ℕ
chunk_size chunk_bytes = max bytes_per_sample (chunk_bytes - chunk_bytes % bytes_per_sample)

-- `yield chunk`, before the chunks that the rest of the loop yields
unfoldable pub and_then : List ℕ → Option (List (List ℕ)) → Option (List (List ℕ))
and_then chunk none = none
and_then chunk (some chunks) = some (chunk ∷ chunks)

-- an empty chunk, before or after the alignment, ends the loop
unfoldable pub yield_chunk : List ℕ → Option (List (List ℕ)) → Option (List (List ℕ))
unfolding and_then
yield_chunk [] rest = some []
yield_chunk (b ∷ chunk) rest = and_then (b ∷ chunk) rest

unfoldable pub chunks_from : ℕ → ℕ → List ℕ → Option (List (List ℕ))
unfolding yield_chunk aligned
chunks_from zero size handle = none
chunks_from (suc fuel) size handle =
    let rest = chunks_from fuel size (drop size handle) in
    yield_chunk (aligned (take size handle)) rest

-- iter_capture_chunks(path, chunk_bytes)
unfoldable pub iter_capture_chunks : ℕ → ℕ → List ℕ → Option (List (List ℕ))
iter_capture_chunks fuel chunk_bytes file = chunks_from fuel (chunk_size chunk_bytes) file
