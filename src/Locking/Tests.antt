-- ===== src/Locking/Tests.antt =====
-- Locks on a concrete server, and the theorems at them.
use bormo_stats.Base.{ℕ, ◌+◌, ◌*◌, ◌≡◌, ◌↔◌, refl, Bool, false, none, some, [], ◌∷◌, arith, eq_iff}
use bormo_stats.Base.Results.{Result, ok, err}
use bormo_stats.Redis.Table.{Table, table_redis, find, table_set}
use bormo_stats.Locking.Defs.{
  LockHandle, LockError, lock_lost, lock_not_acquired, new_handle, ensure_held, renew_lock,
  release_lock, acquire_lock, build_lock_key, lock_scope, ScopeError,
}
use bormo_stats.Locking.Exclusion.{mutual_exclusion, ensure_held-ok_iff}
use bormo_stats.Locking.Waiting.{acquire_lock-ends, Outcome}
use bormo_stats.Locking.Scope.{lock_scope-ends, ScopeEnds}
use bormo_stats.Locking.System.{System, here, next, release, lost_forever}

abbrev ours : LockHandle
ours = new_handle table_redis "lock:wb:a" "t1" 900 0

abbrev theirs : LockHandle
theirs = new_handle table_redis "lock:wb:a" "t2" 900 0

-- The other client took the key after ours ran out.
abbrev taken_over : Table
taken_over = ("lock:wb:a", "t2") ∷ []

abbrev clock : ℕ → ℕ
clock n = 500 * n

abbrev world : ℕ → Table → Table
world n s = s

-- A block that renews its lock once and returns 5.
abbrev body : LockHandle → Table → Result ℕ ℕ × LockHandle × Table
body h s = (ok 5, record h { renewals = h.renewals + 1 }, s)

waits_and_gives_up :
    acquire_lock table_redis clock world "wb" "a" "t1" 900 2 taken_over
    ≡ some (err (lock_not_acquired "lock:wb:a"), taken_over)
unfolding acquire_lock table_set
waits_and_gives_up = refl

mutual_exclusion_example : ours.token ≡ "t1"
unfolding ensure_held find
mutual_exclusion_example =
    mutual_exclusion table_redis ours (record ours { renewals = 3 }) (("lock:wb:a", "t1") ∷ []) refl
      refl refl refl refl

ensure_held-ok_iff_example :
    ((ensure_held table_redis theirs taken_over).0 ≡ ok tt)
    ↔ ((find "lock:wb:a" taken_over ≡ some "t2") × (◌≡◌ {A = Bool} false false))
ensure_held-ok_iff_example = ensure_held-ok_iff table_redis theirs taken_over refl

acquire_lock-ends_example :
    (r : Result LockError LockHandle) × (s' : Table) × (acquire_lock table_redis clock world "wb"
        "a" "t1" 900 2 taken_over
      ≡ some (r, s'))
    × Outcome table_redis clock world (build_lock_key "wb" "a") "t1" 900 r s'
acquire_lock-ends_example =
    acquire_lock-ends table_redis clock world "wb" "a" "t1" 900 2 taken_over
      (omega arith, λ n. omega arith) (omega arith)

lock_scope-ends_example :
    (r : Result (ScopeError ℕ) ℕ) × (s' : Table) × (lock_scope table_redis clock world body "wb" "a"
        "t1" 900 2 []
      ≡ some (r, s'))
    × ScopeEnds table_redis clock world body (build_lock_key "wb" "a") "t1" r s'
lock_scope-ends_example =
    lock_scope-ends table_redis clock world body "wb" "a" "t1" 900 2 []
      (omega arith, λ n. omega arith) (omega arith) (λ h s. (refl, refl))

abbrev start : System table_redis
start = record { server = taken_over; issued = "t1" ∷ "t2" ∷ [] }

lost_forever_example :
    let s = (release_lock table_redis theirs taken_over).1 in
    ((ensure_held table_redis ours s).0 ≡ err (lock_lost "lock:wb:a"))
    × ((renew_lock table_redis ours none s).0 ≡ false)
    × (release_lock table_redis ours s ≡ (false, s))
unfolding find
lost_forever_example =
    lost_forever table_redis {x = start} ours none (next here (release start theirs)) refl refl
      (λ e. ground (arith, eq_iff "t2" "t1", e))
