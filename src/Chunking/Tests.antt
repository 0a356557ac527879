-- ===== src/Chunking/Tests.antt =====
-- Windows of concrete ranges, and the theorems at them.
use bormo_stats.Base.{ℕ, ◌≡◌, refl, some, [], ◌∷◌, length, arith}
use bormo_stats.Chunking.Defs.{date_chunks, datetime_chunks}
use bormo_stats.Chunking.Dates.{Tiles, date_chunks-Tiles, datetime_chunks_diverge}

week_in_threes : date_chunks 10 16 3 ≡ (10, 12) ∷ (13, 15) ∷ (16, 16) ∷ []
unfolding date_chunks
week_in_threes = refl

date_chunks-Tiles_example : Tiles 3 10 16 (date_chunks 10 16 3)
date_chunks-Tiles_example = date_chunks-Tiles 10 16 3

-- After the first window of an hour, the same empty window comes again and again.
one_hour :
    datetime_chunks 3 0 3600000000 1
    ≡ ((0, 3600000000) ∷ (3600000000, 3600000000) ∷ (3600000000, 3600000000) ∷ [], some 3600000000)
unfolding datetime_chunks
one_hour = refl

datetime_chunks_diverge_example :
    (length (datetime_chunks 5 0 3600000000 1).0 ≡ 5)
    × ((from : ℕ) × ((datetime_chunks 5 0 3600000000 1).1 ≡ some from))
datetime_chunks_diverge_example = datetime_chunks_diverge 5 0 3600000000 1 (ground arith)
