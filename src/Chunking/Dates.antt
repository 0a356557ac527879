-- ===== src/Chunking/Dates.antt =====
-- The windows of a range of days cover it without gap or overlap, and the ones of a range of times
-- never come to an end.
use bormo_stats.Base.{
  ℕ, zero, suc, length, ◌+◌, ◌-◌, ◌*◌, ◌≤◌, ◌<◌, ◌≡◌, refl, Bool, true, false, ap, min, max, Option,
  none, some, List, [], ◌∷◌, leb, if◌then◌else◌, arith,
}
use bormo_stats.Chunking.Defs.{date_loop, date_chunks, datetime_loop, datetime_chunks}

-- The windows start at the one day, each follows the one before, none is longer than a chunk, and
-- they end with the other day.
abbrev pub Tiles : ℕ → ℕ → ℕ → List (ℕ × ℕ) → Type 0
Tiles size from end [] = end < from
Tiles size from end ((a, b) ∷ rest) =
    (a ≡ from) × (a ≤ b) × (b ≤ end) × (b < a + size) × Tiles size (b + 1) end rest

leb_lem : (a b : ℕ) → (leb a b ≡ true → a ≤ b) × (leb a b ≡ false → b < a)
leb_lem a b = (λ h. ground arith, λ h. ground arith)

date_loop-Tiles :
    (fuel size current end : ℕ)
    → 0 < size
    → suc end ≤ current + fuel
    → Tiles size current end (date_loop fuel size current end)
unfolding date_loop
date_loop-Tiles zero size current end h k = ground arith
date_loop-Tiles (suc fuel) size current end h k =
    let chunk_end = min (current + (size - 1)) end in
    by_flag (leb current end) (date_loop fuel size (chunk_end + 1) end) (leb_lem current end)
      (λ e. date_loop-Tiles fuel size (chunk_end + 1) end h (room e))
  where
    by_flag :
        (b : Bool) (rest : List (ℕ × ℕ))
        → (b ≡ true → current ≤ end) × (b ≡ false → end < current)
        → (current ≤ end → Tiles size (min (current + (size - 1)) end + 1) end rest)
        → Tiles size current end
            (if b then (current, min (current + (size - 1)) end) ∷ rest else [])
    by_flag false rest (_, past) ih = past refl
    by_flag true rest (within, _) ih =
        let e = within refl in (refl, ground arith, ground arith, ground arith, ih e)

    room : current ≤ end → suc end ≤ min (current + (size - 1)) end + 1 + fuel
    room e = ground arith

-- The windows of `date_chunks` tile the days from the first to the last one, both included: the
-- first window starts on the first day, each other one on the day after the one before, the last
-- ends on the last day, and none has more days than the chunk length, where a length below one
-- counts as one. A range that ends before it starts has no windows.
pub date_chunks-Tiles :
    (start end chunk_days : ℕ)
    → Tiles (max 1 chunk_days) start end (date_chunks start end chunk_days)
unfolding date_chunks
date_chunks-Tiles start end chunk_days =
    date_loop-Tiles (suc end - start) (max 1 chunk_days) start end (ground arith) (ground arith)

turns_lem :
    (turns step current target : ℕ)
    → current ≤ target
    → (length (datetime_loop turns step current target).0 ≡ turns)
      × ((from : ℕ) × ((datetime_loop turns step current target).1 ≡ some from))
unfolding datetime_loop
turns_lem zero step current target h = (refl, (current, refl))
turns_lem (suc turns) step current target h =
    by_flag (leb current target) (datetime_loop turns step chunk_end target) flag
      (turns_lem turns step chunk_end target (ground arith))
  where
    chunk_end : ℕ
    chunk_end = min (current + step) target

    flag : leb current target ≡ true
    flag = ground arith

    by_flag :
        (b : Bool) (next : List (ℕ × ℕ) × Option ℕ)
        → b ≡ true
        → (length next.0 ≡ turns) × ((from : ℕ) × (next.1 ≡ some from))
        → let now : List (ℕ × ℕ) × Option ℕ =
            if b then ((current, chunk_end) ∷ next.0, next.1) else ([], none) in
          (length now.0 ≡ suc turns) × ((from : ℕ) × (now.1 ≡ some from))
    by_flag true next e (count, from) = (ap suc count, from)
    by_flag false next e h' = cc

-- `datetime_chunks` never ends on a range that is not empty: after any number of turns it has
-- yielded as many windows and goes on.
pub datetime_chunks_diverge :
    (turns start end chunk_hours : ℕ)
    → start ≤ end
    → (length (datetime_chunks turns start end chunk_hours).0 ≡ turns)
      × ((from : ℕ) × ((datetime_chunks turns start end chunk_hours).1 ≡ some from))
unfolding datetime_chunks
datetime_chunks_diverge turns start end chunk_hours h =
    turns_lem turns (3600000000 * max 1 chunk_hours) start end h
