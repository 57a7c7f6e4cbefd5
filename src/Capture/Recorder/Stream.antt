-- ===== src/Capture/Recorder/Stream.antt =====
-- What stands in the file after a stream of chunks.
use mathlib.Core.List.{append-nil, append_assoc}
use orc_mesh.Prelude.{
  ℕ, ◌+◌, ◌-◌, ◌*◌, ◌%◌, ◌≤◌, ◌<◌, ◌≡◌, refl, sym, ap, ◌∙◌, Bool, true, false, Option, none, some,
  List, [], ◌∷◌, ◌++◌, arith, leb, ltb, ◌==◌, length, take, length-append, length-take, take_all,
  take-append, Bool-cases, inl, inr, lt→ltb, ltb→lt, leb→le, ltb-false,
}
use orc_mesh.Capture.Recorder.{
  IqRecorder, open_recorder, aligned, store_bytes, store_cut, store_limited, store_aligned, write,
  write_all, bytes_written,
}

-- The stream as the recorder takes it: every chunk without its odd byte.
pub stream : List (List ℕ) → List ℕ
stream [] = []
stream (raw ∷ chunks) = aligned raw ++ stream chunks

-- The whole samples that fit in the limit.
abbrev pub cut : Option ℕ → List ℕ → List ℕ
cut none bytes = bytes
cut (some max_bytes) bytes = take (max_bytes - max_bytes % 2) bytes

-- The stream is longer than the limit allows.
abbrev pub exceeds : Option ℕ → List ℕ → Bool
exceeds none bytes = false
exceeds (some max_bytes) bytes = ltb max_bytes (length bytes)

pub even-aligned : (raw : List ℕ) → length (aligned raw) % 2 ≡ 0
unfolding aligned
even-aligned raw = elim (Bool-cases (length raw % 2 == 0)) [
  | inl even ↦ rw even (ground arith)
  | inr odd ↦ rw odd (omega (arith, length-take (length raw - 1) raw, is_odd odd))
]
  where
    is_odd : (length raw % 2 == 0) ≡ false → length raw % 2 ≡ 1
    is_odd h = ground arith

-- The recorder after the bytes `seen` of an aligned stream.
record Records (max_bytes : Option ℕ) (seen : List ℕ) (r : IqRecorder) : Type 0 where
  limit : r.max_bytes ≡ max_bytes
  is_open : r.closed ≡ false
  even : length seen % 2 ≡ 0
  file : r.file ≡ cut max_bytes seen
  samples : r.samples * 2 ≡ length r.file
  truncated : r.truncated ≡ exceeds max_bytes seen

-- the first bytes are kept, and the limit cuts the rest
take-append_within :
    (n k : ℕ) (xs ys : List ℕ)
    → length xs ≤ n
    → n - length xs ≡ k
    → take n (xs ++ ys) ≡ xs ++ take k ys
take-append_within n k xs ys h e =
    take-append n xs ys
    ∙ ap (λ (l : List ℕ). l ++ take (n - length xs) ys) (take_all n xs h)
    ∙ ap (λ (j : ℕ). xs ++ take j ys) e

take-append_beyond : (n : ℕ) (xs ys : List ℕ) → n ≤ length xs → take n (xs ++ ys) ≡ take n xs
take-append_beyond n xs ys h =
    let e : n - length xs ≡ 0 = omega arith in
    take-append n xs ys ∙ ap (λ (j : ℕ). take n xs ++ take j ys) e ∙ append-nil (take n xs)

even_sum : (xs ys : List ℕ) → length xs % 2 ≡ 0 → length ys % 2 ≡ 0 → length (xs ++ ys) % 2 ≡ 0
even_sum xs ys p q = omega (arith, length-append xs ys)

-- a recorder that is not cut off holds the whole stream, and it fits
module _ (max_bytes : ℕ) (seen : List ℕ) (r : IqRecorder)
    (records : Records (some max_bytes) seen r) (going : r.truncated ≡ false) where
  seen_fits : length seen ≤ max_bytes - max_bytes % 2
  seen_fits =
      let h : ltb max_bytes (length seen) ≡ false = sym records.truncated ∙ going in
      let k : length seen ≤ max_bytes = ground arith in omega (arith, records.even)

  file_is_seen : r.file ≡ seen
  file_is_seen = records.file ∙ take_all (max_bytes - max_bytes % 2) seen seen_fits

  written : r.samples * 2 ≡ length seen
  written = records.samples ∙ ap length file_is_seen

  module _ (b : ℕ) (bytes : List ℕ) (even : length (b ∷ bytes) % 2 ≡ 0) where
    at_limit :
        max_bytes ≤ r.samples * 2
        → Records (some max_bytes) (seen ++ b ∷ bytes) (record r { truncated = true })
    at_limit h = record {
      limit = records.limit;
      is_open = records.is_open;
      even = even_sum seen (b ∷ bytes) records.even even;
      file =
          records.file
          ∙ sym (
              take-append_beyond (max_bytes - max_bytes % 2) seen (b ∷ bytes)
                (omega (arith, written)));
      samples = records.samples;
      truncated =
          sym (lt→ltb _ _ (omega (arith, written, seen_fits, length-append seen (b ∷ bytes))));
    }

    cut_size : ℕ
    cut_size = (max_bytes - r.samples * 2) - (max_bytes - r.samples * 2) % 2

    cut_file : r.file ++ take cut_size (b ∷ bytes) ≡ cut (some max_bytes) (seen ++ b ∷ bytes)
    unfolding cut_size
    cut_file =
        ap (λ (l : List ℕ). l ++ take cut_size (b ∷ bytes)) file_is_seen
        ∙ sym (
            take-append_within (max_bytes - max_bytes % 2) cut_size seen (b ∷ bytes) seen_fits
              (omega (arith, written, records.even)))

    crossed :
        (piece : List ℕ)
        → length piece % 2 ≡ 0
        → r.file ++ piece ≡ cut (some max_bytes) (seen ++ b ∷ bytes)
        → max_bytes < length (seen ++ b ∷ bytes)
        → Records (some max_bytes) (seen ++ b ∷ bytes) (store_cut false piece r).0
    unfolding store_cut store_bytes
    crossed [] whole shape over = record {
      limit = records.limit;
      is_open = records.is_open;
      even = even_sum seen (b ∷ bytes) records.even even;
      file = sym (append-nil r.file) ∙ shape;
      samples = records.samples;
      truncated = sym (lt→ltb _ _ over);
    }
    crossed (c ∷ piece) whole shape over = record {
      limit = records.limit;
      is_open = records.is_open;
      even = even_sum seen (b ∷ bytes) records.even even;
      file = shape;
      samples = omega (arith, length-append r.file (c ∷ piece), records.samples, whole);
      truncated = sym (lt→ltb _ _ over);
    }

    crossing :
        max_bytes - r.samples * 2 < length (b ∷ bytes)
        → Records
            (some max_bytes)
            (seen ++ b ∷ bytes)
            (store_cut false (take cut_size (b ∷ bytes)) r).0
    unfolding cut_size
    crossing h =
        crossed (take cut_size (b ∷ bytes)) (omega (arith, length-take cut_size (b ∷ bytes), even))
          cut_file (omega (arith, length-append seen (b ∷ bytes), written))

    fitting :
        length (b ∷ bytes) ≤ max_bytes - r.samples * 2
        → Records (some max_bytes) (seen ++ b ∷ bytes) (store_bytes false (b ∷ bytes) r).0
    unfolding store_bytes
    fitting h = record {
      limit = records.limit;
      is_open = records.is_open;
      even = even_sum seen (b ∷ bytes) records.even even;
      file =
          ap (λ (l : List ℕ). l ++ b ∷ bytes) file_is_seen
          ∙ sym
              (take_all _ (seen ++ b ∷ bytes) (omega (arith, whole, written, records.even, even)));
      samples = omega (arith, length-append r.file (b ∷ bytes), records.samples, even);
      truncated = going ∙ sym (ltb-false _ _ (omega (arith, whole, written, seen_fits)));
    }
      where
        whole : length (seen ++ b ∷ bytes) ≡ length seen + length (b ∷ bytes)
        whole = length-append seen (b ∷ bytes)

Records-store_limited :
    (max_bytes : Option ℕ) (seen : List ℕ) (r : IqRecorder) (b : ℕ) (bytes : List ℕ)
    → length (b ∷ bytes) % 2 ≡ 0
    → r.truncated ≡ false
    → Records max_bytes seen r
    → Records max_bytes (seen ++ b ∷ bytes) (store_limited false (b ∷ bytes) max_bytes r).0
unfolding store_limited cut_size
Records-store_limited none seen r b bytes even going records = record {
  limit = records.limit;
  is_open = records.is_open;
  even = even_sum seen (b ∷ bytes) records.even even;
  file = ap (λ (l : List ℕ). l ++ b ∷ bytes) records.file;
  samples = omega (arith, length-append r.file (b ∷ bytes), records.samples, even);
  truncated = going;
}
Records-store_limited (some max_bytes) seen r b bytes even going records =
    elim (Bool-cases (leb max_bytes (bytes_written r))) [
      | inl full ↦ rw full (at_limit max_bytes seen r records going b bytes even (leb→le _ _ full))
      | inr room ↦
          rw room (elim (Bool-cases (ltb (max_bytes - bytes_written r) (length (b ∷ bytes)))) [
            | inl over ↦
                rw over (crossing max_bytes seen r records going b bytes even (ltb→lt _ _ over))
            | inr fits ↦
                rw fits (fitting max_bytes seen r records going b bytes even (ground arith))
          ])
    ]

Records-store_aligned :
    (max_bytes : Option ℕ) (seen : List ℕ) (r : IqRecorder) (bytes : List ℕ)
    → length bytes % 2 ≡ 0
    → r.truncated ≡ false
    → Records max_bytes seen r
    → Records max_bytes (seen ++ bytes) (store_aligned false bytes r).0
unfolding store_aligned
Records-store_aligned max_bytes seen r [] even going records = rw append-nil records
Records-store_aligned max_bytes seen r (b ∷ bytes) even going records =
    simp records.limit (Records-store_limited max_bytes seen r b bytes even going records)

-- a recorder that is cut off stays as it is, and the file still has the first bytes of the stream
Records-past :
    (max_bytes : Option ℕ) (seen bytes : List ℕ) (r : IqRecorder)
    → length bytes % 2 ≡ 0
    → r.truncated ≡ true
    → Records max_bytes seen r
    → Records max_bytes (seen ++ bytes) r
Records-past none seen bytes r even over records = cc (records.truncated, over)
Records-past (some max_bytes) seen bytes r even over records = record {
  limit = records.limit;
  is_open = records.is_open;
  even = even_sum seen bytes records.even even;
  file =
      records.file
      ∙ sym (take-append_beyond (max_bytes - max_bytes % 2) seen bytes (omega (arith, beyond)));
  samples = records.samples;
  truncated = over ∙ sym (lt→ltb _ _ (omega (arith, beyond, length-append seen bytes)));
}
  where
    beyond : max_bytes < length seen
    beyond = ltb→lt _ _ (sym records.truncated ∙ over)

Records-write :
    (max_bytes : Option ℕ) (seen raw : List ℕ) (r : IqRecorder)
    → Records max_bytes seen r
    → Records max_bytes (seen ++ aligned raw) (write false raw r).0
unfolding write
Records-write max_bytes seen raw r records = simp records.is_open (elim (Bool-cases r.truncated) [
  | inl over ↦
      simp over (Records-past max_bytes seen (aligned raw) r (even-aligned raw) over records)
  | inr going ↦
      simp going
        (Records-store_aligned max_bytes seen r (aligned raw) (even-aligned raw) going records)
])

Records-write_all :
    (max_bytes : Option ℕ) (seen : List ℕ) (chunks : List (List ℕ)) (r : IqRecorder)
    → Records max_bytes seen r
    → Records max_bytes (seen ++ stream chunks) (write_all chunks r)
unfolding write_all stream
Records-write_all max_bytes seen [] r records = rw append-nil records
Records-write_all max_bytes seen (raw ∷ chunks) r records =
    rw (← append_assoc seen (aligned raw) (stream chunks)) (
      Records-write_all max_bytes (seen ++ aligned raw) chunks (write false raw r).0
        (Records-write max_bytes seen raw r records))

Records-open_recorder : (max_bytes : Option ℕ) → Records max_bytes [] (open_recorder max_bytes)
unfolding open_recorder
Records-open_recorder none = record {
  limit = refl;
  is_open = refl;
  even = refl;
  file = refl;
  samples = refl;
  truncated = refl;
}
Records-open_recorder (some max_bytes) = record {
  limit = refl;
  is_open = refl;
  even = refl;
  file = sym (take_all _ [] (omega arith));
  samples = refl;
  truncated = ground arith;
}

-- After any chunks, written with no I/O error, the file holds the stream of their whole samples, cut
-- at the last whole sample within the size limit; the sample count is half the file's length; and
-- `truncated` is set exactly when the stream is longer than the limit.
pub write_all_lem :
    (max_bytes : Option ℕ) (chunks : List (List ℕ))
    → ((write_all chunks (open_recorder max_bytes)).file ≡ cut max_bytes (stream chunks))
      × ((write_all chunks (open_recorder max_bytes)).samples * 2
          ≡ length (write_all chunks (open_recorder max_bytes)).file)
      × ((write_all chunks (open_recorder max_bytes)).truncated ≡ exceeds max_bytes (stream chunks))
write_all_lem max_bytes chunks =
    let records =
      Records-write_all max_bytes [] chunks (open_recorder max_bytes)
        (Records-open_recorder max_bytes) in
    (records.file, records.samples, records.truncated)
