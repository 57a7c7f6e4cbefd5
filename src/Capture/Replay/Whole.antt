-- ===== src/Capture/Replay/Whole.antt =====
-- A capture is read back whole.
use mathlib.Core.List.{append-nil}
use orc_mesh.Prelude.{
  ℕ, zero, suc, ◌+◌, ◌-◌, ◌%◌, ◌≤◌, ◌<◌, ◌≡◌, refl, sym, ap, ◌∙◌, Option, some, List, [], ◌∷◌, ◌++◌,
  arith, ◌==◌, ==_iff, leb, leb→le, length, length-append, take, drop, take-append,
  take-append-drop, length-take, length-drop, take_all, All, Bool-cases, inl, inr,
}
use orc_mesh.Capture.Recorder.{aligned}
use orc_mesh.Capture.Recorder.Stream.{even-aligned}
use orc_mesh.Capture.Replay.{chunk_size, and_then, yield_chunk, chunks_from, iter_capture_chunks}

abbrev pub joined : List (List ℕ) → List ℕ
joined [] = []
joined (chunk ∷ chunks) = chunk ++ joined chunks

-- What a chunk is: whole samples, at least one, and no more than the size.
abbrev pub IsChunk : ℕ → List ℕ → Type 0
IsChunk size chunk = (length chunk % 2 ≡ 0) × (0 < length chunk) × (length chunk ≤ size)

-- the chunks that are read
record IsRead (size : ℕ) (handle : List ℕ) (o : Option (List (List ℕ))) : Type 0 where
  chunks : List (List ℕ)
  produced : o ≡ some chunks
  whole : joined chunks ≡ aligned handle
  each : All (IsChunk size) chunks

length-aligned : (bytes : List ℕ) → length (aligned bytes) ≡ length bytes - length bytes % 2
unfolding aligned
length-aligned bytes = elim (Bool-cases (length bytes % 2 == 0)) [
  | inl even ↦ rw even (omega (arith, (==_iff (length bytes % 2) 0).0 even))
  | inr odd ↦ rw odd (grind (arith, length-take (length bytes - 1) bytes))
]

aligned_as_take : (bytes : List ℕ) → aligned bytes ≡ take (length bytes - length bytes % 2) bytes
unfolding aligned
aligned_as_take bytes = elim (Bool-cases (length bytes % 2 == 0)) [
  | inl even ↦
      rw even (sym (take_all _ bytes (omega (arith, (==_iff (length bytes % 2) 0).0 even))))
  | inr odd ↦ let one : length bytes % 2 ≡ 1 = grind arith in rw (odd, one) refl
]

aligned_even : (bytes : List ℕ) → length bytes % 2 ≡ 0 → aligned bytes ≡ bytes
aligned_even bytes even = aligned_as_take bytes ∙ take_all _ bytes (omega (arith, even))

aligned-append : (xs ys : List ℕ) → length xs % 2 ≡ 0 → aligned (xs ++ ys) ≡ xs ++ aligned ys
aligned-append xs ys even =
    aligned_as_take (xs ++ ys)
    ∙ take-append n xs ys
    ∙ ap (λ (l : List ℕ). l ++ take (n - length xs) ys) (take_all n xs (omega (arith, total, even)))
    ∙ ap (λ (k : ℕ). xs ++ take k ys) rest
    ∙ ap (λ (l : List ℕ). xs ++ l) (sym (aligned_as_take ys))
  where
    n : ℕ
    n = length (xs ++ ys) - length (xs ++ ys) % 2

    total : length (xs ++ ys) ≡ length xs + length ys
    total = length-append xs ys

    rest : n - length xs ≡ length ys - length ys % 2
    rest = omega (arith, total, even)

nil_of_length : (xs : List ℕ) → length xs ≡ 0 → xs ≡ []
nil_of_length [] h = refl
nil_of_length (x ∷ xs) h = absurd (omega (arith, h))

-- one read and what is left of the file
aligned_split :
    (size : ℕ) (handle : List ℕ)
    → size % 2 ≡ 0
    → aligned (take size handle) ++ aligned (drop size handle) ≡ aligned handle
aligned_split size handle even = elim (Bool-cases (leb size (length handle))) [
  | inl enough ↦
      let full : length (take size handle) % 2 ≡ 0 =
        let n : length (take size handle) ≡ size =
          omega (arith, length-take size handle, leb→le _ _ enough) in
        rw n even in
      ap (λ (l : List ℕ). l ++ aligned (drop size handle)) (aligned_even (take size handle) full)
      ∙ sym (aligned-append (take size handle) (drop size handle) full)
      ∙ ap aligned (take-append-drop size handle)
  | inr short ↦
      let less : length handle ≤ size = ground arith in
      let over : drop size handle ≡ [] =
        nil_of_length (drop size handle) (omega (arith, length-drop size handle)) in
      rw (over, take_all size handle less) (unfold aligned in append-nil (aligned handle))
]

yield_chunk-IsRead :
    (size : ℕ) (handle chunk : List ℕ) (rest : Option (List (List ℕ)))
    → size % 2 ≡ 0
    → 2 ≤ size
    → aligned (take size handle) ≡ chunk
    → (0 < length handle → IsRead size (drop size handle) rest)
    → IsRead size handle (yield_chunk chunk rest)
unfolding yield_chunk
yield_chunk-IsRead size handle [] rest even large e ih = record {
  chunks = [];
  produced = refl;
  whole = sym (nil_of_length (aligned handle) none_left);
  each = tt;
}
  where
    none_left : length (aligned handle) ≡ 0
    none_left = omega (
      arith,
      length-aligned handle,
      length-aligned (take size handle),
      length-take size handle,
      ap length e,
    )
yield_chunk-IsRead size handle (b ∷ chunk) rest even large e ih =
    let some_left : 0 < length handle =
      omega (arith, length-aligned (take size handle), length-take size handle, ap length e) in
    let r = ih some_left in
    record {
      chunks = (b ∷ chunk) ∷ r.chunks;
      produced = rw r.produced (unfold and_then in refl);
      whole =
          ap (λ (l : List ℕ). l ++ joined r.chunks) (sym e)
          ∙ ap (λ (l : List ℕ). aligned (take size handle) ++ l) r.whole
          ∙ aligned_split size handle even;
      each = (
        (
          sym (ap (λ (l : List ℕ). length l % 2) e) ∙ even-aligned (take size handle),
          omega arith,
          omega (arith, ap length e, length-aligned (take size handle), length-take size handle),
        ),
        r.each,
      );
    }

chunks_from-IsRead :
    (fuel size : ℕ) (handle : List ℕ)
    → length handle < fuel
    → size % 2 ≡ 0
    → 2 ≤ size
    → IsRead size handle (chunks_from fuel size handle)
unfolding chunks_from
chunks_from-IsRead zero size handle enough even large = absurd (omega arith)
chunks_from-IsRead (suc fuel) size handle enough even large =
    yield_chunk-IsRead size handle (aligned (take size handle))
      (chunks_from fuel size (drop size handle)) even large refl
      (λ some_left.
        chunks_from-IsRead fuel size (drop size handle) (omega (arith, length-drop size handle))
          even large)

-- With more fuel than the file has bytes, reading ends, and yields chunks of whole samples, none empty
-- and none above the size, that together are the file without the last byte of an odd length. This is
-- so for any requested size, 0, 1 and odd ones included.
pub iter_capture_chunks_lem :
    (fuel chunk_bytes : ℕ) (file : List ℕ)
    → length file < fuel
    → (chunks : List (List ℕ)) × (iter_capture_chunks fuel chunk_bytes file ≡ some chunks)
      × (joined chunks ≡ aligned file)
      × All (IsChunk (chunk_size chunk_bytes)) chunks
unfolding iter_capture_chunks
iter_capture_chunks_lem fuel chunk_bytes file enough =
    let r = chunks_from-IsRead fuel (chunk_size chunk_bytes) file enough even large in
    (r.chunks, r.produced, r.whole, r.each)
  where
    even : chunk_size chunk_bytes % 2 ≡ 0
    even = unfold chunk_size in omega arith

    large : 2 ≤ chunk_size chunk_bytes
    large = unfold chunk_size in omega arith
