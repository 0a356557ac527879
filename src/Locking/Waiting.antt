-- ===== src/Locking/Waiting.antt =====
-- `acquire_lock` ends, and what it hands out is a lock that was free and is now held.
use bormo_stats.Base.{
  ℕ, zero, suc, ◌<◌, ◌≤◌, ◌+◌, ◌*◌, String, ◌≡◌, refl, true, Option, none, some, arith, Bool-cases,
  inl, inr, Option-cases, leb, ◌==◌, ◌||◌,
}
use bormo_stats.Base.Results.{Result, ok, err}
use bormo_stats.Redis.{Redis}
use bormo_stats.Locking.Defs.{
  LockHandle, LockError, lock_not_acquired, acquire_loop, acquire_lock, build_lock_key,
}

module _ (redis : Redis) (clock : ℕ → ℕ) (world : ℕ → redis.Server → redis.Server) where
  open redis use {Server, get, set_nx, set_nx_free, set_nx_taken}

  -- The first reading is the start; each later round is at least half a second after the last.
  abbrev pub Ticks : Type 0
  Ticks = (clock 0 ≤ clock 1) × ((n : ℕ) → clock (suc n) + 500 ≤ clock (suc (suc n)))

  clock-le : Ticks → (n : ℕ) → clock 0 + 500 * n ≤ clock (suc n)
  clock-le t zero = omega (arith, t.0)
  clock-le t (suc n) = omega (arith, clock-le t n, t.1 n)

  -- How a call may end: with the handle of a key that was free and now holds the token, or with
  -- the error.
  abbrev pub Outcome : String → String → ℕ → Result LockError LockHandle → Server → Type 0
  Outcome key token ttl (ok h) s' =
      (h.key ≡ key)
      × (h.token ≡ token)
      × (get key s' ≡ some token)
      × ((s : Server) × (get key s ≡ none) × (s' ≡ (set_nx key token ttl s).1))
  Outcome key token ttl (err e) s' = e ≡ lock_not_acquired key

  abbrev Ends : String → String → ℕ → Option (Result LockError LockHandle × Server) → Type 0
  Ends key token ttl none = ⊥
  Ends key token ttl (some (r, s')) = Outcome key token ttl r s'

  taken_when_free :
      (key token : String) (ttl : ℕ) (s : Server)
      → 0 < ttl
      → (set_nx key token ttl s).0 ≡ true
      → (get key s ≡ none) × (get key (set_nx key token ttl s).1 ≡ some token)
  taken_when_free key token ttl s pos h = elim (Option-cases (get key s)) [
    | inl free ↦ (free, (set_nx_free key token ttl s pos free).1)
    | inr (u, held) ↦ cc (h, set_nx_taken key token u ttl s held)
  ]

  acquire_loop-Ends :
      Ticks
      → (key token : String) (ttl wait fuel n : ℕ) (s : Server) → 0 < ttl
      → fuel + n ≡ 2 * wait + 1
      → n ≤ 2 * wait
      → Ends key token ttl (acquire_loop redis clock world key token ttl wait fuel n s)
  unfolding acquire_loop
  acquire_loop-Ends t key token ttl wait zero n s pos e h = absurd (omega arith)
  acquire_loop-Ends t key token ttl wait (suc fuel) n s pos e h =
      elim (Bool-cases (set_nx key token ttl s).0) [
        | inl taken ↦
            let (free, held) = taken_when_free key token ttl s pos taken in
            simp taken (refl, refl, held, (s, free, refl))
        | inr refused ↦
            elim (Bool-cases (wait == 0 || leb (clock 0 + 1000 * wait) (clock (suc n)))) [
              | inl over ↦ simp (refused, over) refl
              | inr on ↦
                  simp (refused, on)
                    (acquire_loop-Ends t key token ttl wait fuel (suc n)
                      (world n (set_nx key token ttl s).1) pos (omega arith)
                      (ground (arith, clock-le t n)))
            ]
      ]

  -- `acquire_lock` ends after at most two rounds for each second of its wait, and one more: with a
  -- handle for the key of the source and account, taken from a server on which that key was free
  -- and now holding the token, or with LockNotAcquiredError. The clock is assumed not to run
  -- backwards and a sleep to take at least its half second; the time to live is positive.
  pub acquire_lock-ends :
      (source account_id token : String) (ttl wait : ℕ) (s : Server)
      → Ticks
      → 0 < ttl
      → (r : Result LockError LockHandle) × (s' : Server) × (acquire_lock redis clock world source
            account_id token ttl wait s
          ≡ some (r, s'))
        × Outcome (build_lock_key source account_id) token ttl r s'
  unfolding acquire_lock
  acquire_lock-ends source account_id token ttl wait s t pos = found _ (
      acquire_loop-Ends t (build_lock_key source account_id) token ttl wait (2 * wait + 1) 0 s pos
        (omega arith) (omega arith))
    where
      found :
          (o : Option (Result LockError LockHandle × Server))
          → Ends (build_lock_key source account_id) token ttl o
          → (r : Result LockError LockHandle) × (s' : Server) × (o ≡ some (r, s'))
            × Outcome (build_lock_key source account_id) token ttl r s'
      found none h = absurd h
      found (some (r, s')) h = (r, s', refl, h)
