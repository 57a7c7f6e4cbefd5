-- ===== src/Analytics/Rates/Exact.antt =====
-- A rolling rate counts exactly the events of its window.
use mathlib.Core.List.{append_assoc, append-nil}
use orc_mesh.Prelude.{
  ℕ, ◌+◌, ◌≤◌, ◌≡◌, refl, sym, ap, ◌∙◌, Bool, true, List, [], ◌∷◌, ◌++◌, arith, ltb, leb, length,
  keep, keep-All, All, All-append, All-map, All-keep, Bool-cases, inl, inr,
}
use orc_mesh.Analytics.Rates.{
  new_rate, prune, record_event, count, DualRateTracker, new_tracker, record_dual, record_all,
  per_minute_hour, minute, hour,
}

-- The event at `t` lies in the window that ends at `now`.
abbrev pub in_window : ℕ → ℕ → ℕ → Bool
in_window window now t = ltb now (t + window)

-- The reference: how many events of the whole history lie in the window.
pub events_in : ℕ → ℕ → List ℕ → ℕ
events_in window now history = length (keep (in_window window now) history)

-- Times that do not go back, and start at `b` or later.
abbrev pub IsFrom : ℕ → List ℕ → Type 0
IsFrom b [] = Unit
IsFrom b (t ∷ ts) = (b ≤ t) × IsFrom t ts

IsFrom-le : (b t : ℕ) (ts : List ℕ) → b ≤ t → IsFrom t ts → IsFrom b ts
IsFrom-le b t [] h f = tt
IsFrom-le b t (u ∷ ts) h f = (omega arith, f.1)

All-IsFrom : (b : ℕ) (ts : List ℕ) → IsFrom b ts → All (λ t. b ≤ t) ts
All-IsFrom b [] f = tt
All-IsFrom b (t ∷ ts) f = (f.0, All-IsFrom b ts (IsFrom-le b t ts f.0 f.1))

prune-eq-keep :
    (window now b : ℕ) (ts : List ℕ)
    → IsFrom b ts
    → prune window now ts ≡ keep (in_window window now) ts
unfolding prune
prune-eq-keep window now b [] f = refl
prune-eq-keep window now b (t ∷ ts) f = elim (Bool-cases (leb (t + window) now)) [
  | inl old ↦ ground (arith, prune-eq-keep window now t ts f.1)
  | inr new ↦
      let inside : ltb now (t + window) ≡ true = ground arith in
      rw (new, inside)
        (ap (λ (r : List ℕ). t ∷ r)
          (sym (
            keep-All (in_window window now) ts
              (All-map ts (λ u le. ground arith) (All-IsFrom t ts f.1)))))
]

IsFrom-keep : (p : ℕ → Bool) (b : ℕ) (ts : List ℕ) → IsFrom b ts → IsFrom b (keep p ts)
IsFrom-keep p b [] f = tt
IsFrom-keep p b (t ∷ ts) f = elim (Bool-cases (p t)) [
  | inl yes' ↦ rw yes' (f.0, IsFrom-keep p t ts f.1)
  | inr no' ↦ rw no' (IsFrom-keep p b ts (IsFrom-le b t ts f.0 f.1))
]

keep-append : (p : ℕ → Bool) (xs ys : List ℕ) → keep p (xs ++ ys) ≡ keep p xs ++ keep p ys
keep-append p [] ys = refl
keep-append p (x ∷ xs) ys = ground (arith, keep-append p xs ys)

-- what has left the window at one time is outside it later
keep-keep :
    (window before now : ℕ) (ts : List ℕ)
    → before ≤ now
    → keep (in_window window now) (keep (in_window window before) ts)
      ≡ keep (in_window window now) ts
keep-keep window before now [] le = refl
keep-keep window before now (t ∷ ts) le = ground (arith, keep-keep window before now ts le)

-- history so far, in order, and no later than `last`
record Tracks (window last : ℕ) (history : List ℕ) (kept : List ℕ) : Type 0 where
  ordered : IsFrom 0 history
  past : All (λ t. t ≤ last) history
  exact : kept ≡ keep (in_window window last) history

IsFrom-append :
    (b t : ℕ) (ts : List ℕ) → b ≤ t → IsFrom b ts → All (λ u. u ≤ t) ts → IsFrom b (ts ++ t ∷ [])
IsFrom-append b t [] h f p = (h, tt)
IsFrom-append b t (u ∷ ts) h f p = (f.0, IsFrom-append u t ts p.0 f.1 p.1)

Tracks-prune :
    (window last now : ℕ) (history kept : List ℕ)
    → last ≤ now
    → Tracks window last history kept
    → prune window now kept ≡ keep (in_window window now) history
Tracks-prune window last now history kept le t = rw t.exact (
    prune-eq-keep window now 0 _ (IsFrom-keep _ 0 history t.ordered)
    ∙ keep-keep window last now history le)

Tracks-step :
    (window last now : ℕ) (history kept : List ℕ)
    → last ≤ now
    → Tracks window last history kept
    → Tracks window now (history ++ now ∷ []) (prune window now (kept ++ now ∷ []))
Tracks-step window last now history kept le t = record {
  ordered = IsFrom-append 0 now history (omega arith) t.ordered earlier;
  past = All-append (λ u. u ≤ now) history (now ∷ []) earlier (omega arith, tt);
  exact =
      ap (λ (l : List ℕ). prune window now (l ++ now ∷ [])) t.exact
      ∙ prune-eq-keep window now 0 _
          (IsFrom-append 0 now _ (omega arith) (IsFrom-keep _ 0 history t.ordered) kept_earlier)
      ∙ keep-append (in_window window now) (keep (in_window window last) history) (now ∷ [])
      ∙ ap (λ (l : List ℕ). l ++ keep (in_window window now) (now ∷ []))
          (keep-keep window last now history le)
      ∙ sym (keep-append (in_window window now) history (now ∷ []));
}
  where
    earlier : All (λ u. u ≤ now) history
    earlier = All-map history (λ u h. omega arith) t.past

    kept_earlier : All (λ u. u ≤ now) (keep (in_window window last) history)
    kept_earlier = All-keep (λ u. u ≤ now) (in_window window last) history earlier

-- one rate of the tracker, through a run of calls
after_events : ℕ → List ℕ → List ℕ → List ℕ
after_events window [] kept = kept
after_events window (t ∷ ts) kept = after_events window ts (prune window t (kept ++ t ∷ []))

after_events_exact :
    (window last now : ℕ) (history kept ts : List ℕ)
    → last ≤ now
    → Tracks window last history kept
    → IsFrom last ts
    → All (λ t. t ≤ now) ts
    → prune window now (after_events window ts kept) ≡ keep (in_window window now) (history ++ ts)
unfolding after_events
after_events_exact window last now history kept [] le t f p =
    Tracks-prune window last now history kept le t
    ∙ ap (keep (in_window window now)) (sym (append-nil history))
after_events_exact window last now history kept (u ∷ ts) le t f p =
    after_events_exact window u now (history ++ u ∷ []) (prune window u (kept ++ u ∷ [])) ts p.0
      (Tracks-step window last u history kept f.0 t) f.1 p.1
    ∙ ap (keep (in_window window now)) (append_assoc history (u ∷ []) ts)

record_all-eq :
    (ts : List ℕ) (d : DualRateTracker)
    → record_all ts d ≡ record {
      per_min = record d.per_min {
        timestamps = after_events d.per_min.window ts d.per_min.timestamps;
      };
      per_hour = record d.per_hour {
        timestamps = after_events d.per_hour.window ts d.per_hour.timestamps;
      };
    }
unfolding record_all record_dual record_event after_events
record_all-eq [] d = refl
record_all-eq (t ∷ ts) d = record_all-eq ts (record_dual t d)

-- After events at times that do not go back, both rates read at `now` count exactly the recorded
-- events of the last minute and of the last hour.
pub per_minute_hour_exact :
    (ts : List ℕ) (now : ℕ)
    → IsFrom 0 ts
    → All (λ t. t ≤ now) ts
    → ((per_minute_hour now (record_all ts new_tracker)).1 ≡ events_in minute now ts)
      × ((per_minute_hour now (record_all ts new_tracker)).2 ≡ events_in hour now ts)
unfolding per_minute_hour count new_tracker new_rate events_in
per_minute_hour_exact ts now f p =
    rw (record_all-eq ts new_tracker) (ap length (exact minute), ap length (exact hour))
  where
    start : (window : ℕ) → Tracks window 0 [] []
    start window = record { ordered = tt; past = tt; exact = refl }

    exact :
        (window : ℕ) → prune window now (after_events window ts []) ≡ keep (in_window window now) ts
    exact window = after_events_exact window 0 now [] [] ts (omega arith) (start window) f p
