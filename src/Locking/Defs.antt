-- ===== src/Locking/Defs.antt =====
-- The lock handle and its operations.
use Prim.Native.String.{◌++◌ as str_append}
use bormo_stats.Base.{
  ℕ, zero, suc, ◌+◌, ◌*◌, String, Bool, true, false, ◌||◌, ◌&&◌, not, Option, none, some, leb, ◌==◌,
  str_eq, if◌then◌else◌,
}
use bormo_stats.Base.Results.{Result, ok, err}
use bormo_stats.Redis.{Redis}

pub data LockError : Type 0 where
  lock_not_acquired : String → LockError
  lock_lost : String → LockError

-- `attached` tells whether the handle has its Redis client.
pub record LockHandle : Type 0 where
  pub key : String
  pub token : String
  pub ttl_seconds : ℕ
  pub acquired_monotonic : ℕ
  pub renewals : ℕ
  pub lost : Bool
  pub attached : Bool

unfoldable pub build_lock_key : String → String → String
build_lock_key source account_id =
    str_append "lock:" (str_append source (str_append ":" account_id))

-- `stored == token`, for what GET answered
abbrev pub is_token : Option String → String → Bool
is_token none token = false
is_token (some v) token = str_eq v token

-- Truth of Python's `x or y` on an optional number.
abbrev pub or_else : Option ℕ → ℕ → ℕ
or_else none d = d
or_else (some zero) d = d
or_else (some (suc n)) d = suc n

-- What `lock_scope` raises: that the lock was not acquired, or what its block raised.
pub data ScopeError (E : Type 0) : Type 0 where
  not_acquired : LockError → ScopeError E
  raised : E → ScopeError E

module _ (redis : Redis) where
  open redis use {Server, get, set_nx, expire, del}

  -- `LockHandle.ensure_held`: the handle remembers a lost lock.
  unfoldable pub ensure_held : LockHandle → Server → Result LockError (Unit {0}) × LockHandle
  ensure_held h s =
      let gone = h.attached && not (is_token (get h.key s) h.token) in
      let lost = gone || h.lost in
      (if lost then err (lock_lost h.key) else ok tt, record h { lost = lost })

  -- The script of `renew_lock`.
  unfoldable pub renew_script : String → String → ℕ → Server → Bool × Server
  renew_script key token ttl s = if is_token (get key s) token then expire key ttl s else (false, s)

  abbrev mark_renewed : Bool → LockHandle → LockHandle
  mark_renewed renewed h =
      if renewed then record h { renewals = h.renewals + 1 } else record h { lost = true }

  unfoldable pub renew_lock : LockHandle → Option ℕ → Server → Bool × LockHandle × Server
  unfolding renew_script
  renew_lock h ttl_seconds s =
      let (renewed, s') = renew_script h.key h.token (or_else ttl_seconds h.ttl_seconds) s in
      (renewed, mark_renewed renewed h, s')

  -- `release_lock`: its script.
  unfoldable pub release_lock : LockHandle → Server → Bool × Server
  release_lock h s = if is_token (get h.key s) h.token then del h.key s else (false, s)

  -- The handle of a lock that was just taken.
  abbrev pub new_handle : String → String → ℕ → ℕ → LockHandle
  new_handle key token ttl now = record {
    key = key;
    token = token;
    ttl_seconds = ttl;
    acquired_monotonic = now;
    renewals = 0;
    lost = false;
    attached = true;
  }

  module _ (clock : ℕ → ℕ) (world : ℕ → Server → Server) where
    -- The loop of `acquire_lock`; round `n` reads the clock as reading `n + 1`. `none` means that
    -- the fuel ran out.
    unfoldable pub acquire_loop :
        String → String → ℕ → ℕ → ℕ → ℕ → Server → Option (Result LockError LockHandle × Server)
    acquire_loop key token ttl wait zero n s = none
    acquire_loop key token ttl wait (suc fuel) n s =
        let (acquired, s') = set_nx key token ttl s in
        let rest = acquire_loop key token ttl wait fuel (suc n) (world n s') in
        if acquired
        then some (ok (new_handle key token ttl (clock (suc n))), s')
        else if wait == 0 || leb (clock 0 + 1000 * wait) (clock (suc n))
        then some (err (lock_not_acquired key), s')
        else rest

    -- `acquire_lock`, with fuel for every half second of the wait and one more round.
    unfoldable pub acquire_lock :
        String → String → String → ℕ → ℕ → Server → Option (Result LockError LockHandle × Server)
    unfolding acquire_loop build_lock_key
    acquire_lock source account_id token ttl wait s =
        acquire_loop (build_lock_key source account_id) token ttl wait (2 * wait + 1) 0 s

    -- The `finally` of `lock_scope`: the lock is released however the block ended.
    unfoldable pub finally_release :
        {E A : Type 0} → Result E A × LockHandle × Server → Result (ScopeError E) A × Server
    finally_release (ok a, h, s) = (ok a, (release_lock h s).1)
    finally_release (err e, h, s) = (err (raised e), (release_lock h s).1)

    unfoldable pub scope_from :
        {E A : Type 0} (body : LockHandle → Server → Result E A × LockHandle × Server)
        → Option (Result LockError LockHandle × Server)
        → Option (Result (ScopeError E) A × Server)
    unfolding finally_release
    scope_from body none = none
    scope_from body (some (err e, s)) = some (err (not_acquired e), s)
    scope_from body (some (ok h, s)) = some (finally_release (body h s))

    -- `lock_scope`. The block and the renewal thread beside it are `body`: they run with the handle
    -- and return it, for a renewal changes its counters.
    unfoldable pub lock_scope :
        {E A : Type 0} (body : LockHandle → Server → Result E A × LockHandle × Server)
        → String
        → String
        → String
        → ℕ
        → ℕ
        → Server
        → Option (Result (ScopeError E) A × Server)
    unfolding scope_from
    lock_scope body source account_id token ttl wait s =
        scope_from body (acquire_lock source account_id token ttl wait s)
