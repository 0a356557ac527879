-- ===== src/Chunking/Defs.antt =====
-- `date_chunks` and `datetime_chunks`.
use bormo_stats.Base.{
  ℕ, zero, suc, ◌+◌, ◌-◌, ◌*◌, min, max, Option, none, some, List, [], ◌∷◌, leb, if◌then◌else◌,
}

-- the loop of `date_chunks`; the fuel bounds its turns
unfoldable pub date_loop : ℕ → ℕ → ℕ → ℕ → List (ℕ × ℕ)
date_loop zero safe_chunk current end = []
date_loop (suc fuel) safe_chunk current end =
    let chunk_end = min (current + (safe_chunk - 1)) end in
    let rest = date_loop fuel safe_chunk (chunk_end + 1) end in
    if leb current end then (current, chunk_end) ∷ rest else []

-- `date_chunks`: each window takes one day of the range at least.
unfoldable pub date_chunks : ℕ → ℕ → ℕ → List (ℕ × ℕ)
unfolding date_loop
date_chunks start end chunk_days = date_loop (suc end - start) (max 1 chunk_days) start end

-- What the loop of `datetime_chunks` has yielded after a number of turns, and whether it goes on,
-- and from where.
unfoldable pub datetime_loop : ℕ → ℕ → ℕ → ℕ → List (ℕ × ℕ) × Option ℕ
datetime_loop zero step current target = ([], some current)
datetime_loop (suc turns) step current target =
    let chunk_end = min (current + step) target in
    let (rest, from) = datetime_loop turns step chunk_end target in
    if leb current target then ((current, chunk_end) ∷ rest, from) else ([], none)

-- `datetime_chunks` after a number of turns: hours of 3600 seconds
unfoldable pub datetime_chunks : ℕ → ℕ → ℕ → ℕ → List (ℕ × ℕ) × Option ℕ
unfolding datetime_loop
datetime_chunks turns start end chunk_hours =
    datetime_loop turns (3600000000 * max 1 chunk_hours) start end
