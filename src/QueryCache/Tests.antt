-- ===== src/QueryCache/Tests.antt =====
-- Examples: rows are numbers, encoded as the even number below.
use bormo_stats.Base.{ℕ, ◌*◌, ◌/◌, ◌≡◌, refl, true, false, none, List, [], ◌∷◌, map, arith}
use bormo_stats.QueryCache.Defs.{Cache, Faults}
use bormo_stats.QueryCache.Refinement.{Event, query, rebuild, run, compute_all, map_encode-run}

abbrev even : ℕ → ℕ
even n = n / 2 * 2

even-even : (n : ℕ) → even (even n) ≡ even n
even-even n = omega arith

abbrev fresh : Cache ℕ
fresh = record { generation = 0; entries = λ key. none; disabled_until = 0 }

abbrev fine : Faults
fine = record { read_fails = false; write_fails = false }

abbrev broken : Faults
broken = record { read_fails = true; write_fails = true }

abbrev events : List (Event ℕ)
events =
    query "sales" 1 fine
    ∷ query "sales" 2 fine
    ∷ rebuild (λ key. 9)
    ∷ query "sales" 3 fine
    ∷ query "sales" 4 broken
    ∷ query "sales" 5 fine
    ∷ []

-- a miss, a hit, a miss, and two answers that are not encoded
answers : run even (λ rows. 10) 100 events (λ key. 5) fresh ≡ 4 ∷ 4 ∷ 8 ∷ 9 ∷ 9 ∷ []
unfolding run
answers = refl

map_encode-run_example :
    map even (run even (λ rows. 10) 100 events (λ key. 5) fresh)
    ≡ map even (compute_all even (λ rows. 10) 100 events (λ key. 5))
map_encode-run_example =
    map_encode-run even (λ rows. 10) 100 events (λ key. 5) fresh even-even (λ key g rows e. cc)
