-- ===== src/Locking/Scope.antt =====
-- `lock_scope` runs its block only with the lock, and gives up the lock however the block ends.
use bormo_stats.Base.{
  ℕ, ◌<◌, String, ◌≡◌, ◌≢◌, ◌⊎◌, inl, inr, refl, none, some, arith, eq_refl, str_eq, if◌then◌else◌,
  ◌&&◌,
}
use bormo_stats.Base.Results.{Result, ok, err}
use bormo_stats.Redis.{Redis}
use bormo_stats.Locking.Defs.{
  LockHandle, LockError, lock_not_acquired, build_lock_key, ScopeError, not_acquired, raised,
  lock_scope, scope_from, finally_release, is_token, release_lock,
}
use bormo_stats.Locking.Exclusion.{get-release_lock}
use bormo_stats.Locking.Waiting.{Ticks, acquire_lock-ends, Outcome}

abbrev pub scope_result : {E A : Type 0} → Result E A → Result (ScopeError E) A
scope_result (ok a) = ok a
scope_result (err e) = err (raised e)

module _ (redis : Redis) (clock : ℕ → ℕ) (world : ℕ → redis.Server → redis.Server) {E A : Type 0}
    (body : LockHandle → redis.Server → Result E A × LockHandle × redis.Server) where
  open redis use {Server, get}

  -- The block and the renewals leave the handle's key and token alone.
  abbrev pub KeepsHandle : Type 0
  KeepsHandle =
      (h : LockHandle) (s : Server) → ((body h s).1.key ≡ h.key) × ((body h s).1.token ≡ h.token)

  -- The block ran on `s`, with the lock, and its end was `(body h s)`; then the key was freed if it
  -- still held the token, and nothing else was touched.
  abbrev pub RanLocked : String → String → Result (ScopeError E) A → Server → Type 0
  RanLocked key token r s' =
      (h : LockHandle) × (s : Server) × (h.key ≡ key)
      × (h.token ≡ token)
      × (get key s ≡ some token)
      × (r ≡ scope_result (body h s).0)
      × (get key s' ≢ some token)
      × ((j : String)
          → get j s' ≡ (
              if is_token (get key (body h s).2) token && str_eq key j
              then none
              else get j (body h s).2))

  finally-eq :
      (out : Result E A × LockHandle × Server)
      → some (finally_release redis clock world out)
        ≡ some (scope_result out.0, (release_lock redis out.1 out.2).1)
  unfolding finally_release
  finally-eq (ok a, h, s) = refl
  finally-eq (err e, h, s) = refl

  freed :
      (key token : String) (s u : Server)
      → ((j : String)
          → get j u ≡ (if is_token (get key s) token && str_eq key j then none else get j s))
      → get key u ≢ some token
  freed key token s u h held = ground (arith, h key, eq_refl key, eq_refl token)

  ran :
      (key token : String) (h : LockHandle) (s : Server)
      → KeepsHandle
      → h.key ≡ key
      → h.token ≡ token
      → get key s ≡ some token
      → RanLocked key token
          (scope_result (body h s).0)
          (release_lock redis (body h s).1 (body h s).2).1
  ran key token h s keep k t held =
      (h, s, k, t, held, refl, freed key token (body h s).2 _ untouched, untouched)
    where
      untouched :
          (j : String)
          → get j (release_lock redis (body h s).1 (body h s).2).1 ≡ (
              if is_token (get key (body h s).2) token && str_eq key j
              then none
              else get j (body h s).2)
      untouched j = ground (arith, get-release_lock redis (body h s).1 (body h s).2 j, keep h s)

  abbrev pub ScopeEnds : String → String → Result (ScopeError E) A → Server → Type 0
  ScopeEnds key token r s' =
      (r ≡ err (not_acquired (lock_not_acquired key))) ⊎ RanLocked key token r s'

  -- `lock_scope` ends. Either it raises LockNotAcquiredError, or its block ran once, on a server on
  -- which the key held the scope's token, and gave the result or the exception; afterwards the key
  -- does not hold the token any more, a key that another token took over in the meantime keeps it,
  -- and no other key was touched by the release.
  pub lock_scope-ends :
      (source account_id token : String) (ttl wait : ℕ) (s : Server)
      → Ticks redis clock world
      → 0 < ttl
      → KeepsHandle
      → (r : Result (ScopeError E) A) × (s' : Server) × (lock_scope redis clock world body source
            account_id token ttl wait s
          ≡ some (r, s'))
        × ScopeEnds (build_lock_key source account_id) token r s'
  unfolding lock_scope
  lock_scope-ends source account_id token ttl wait s t pos keep =
      let (r, s', e, o) =
        acquire_lock-ends redis clock world source account_id token ttl wait s t pos in
      rw e (from r s' o)
    where
      from :
          (r : Result LockError LockHandle) (s' : Server)
          → Outcome redis clock world (build_lock_key source account_id) token ttl r s'
          → (q : Result (ScopeError E) A) × (u : Server) × (scope_from redis clock world body
                (some (r, s'))
              ≡ some (q, u))
            × ScopeEnds (build_lock_key source account_id) token q u
      from (err e) s' o = (err (not_acquired e), s', refl, inl (rw o))
      from (ok h) s' (k, t, held, _) =
          let out = body h s' in
          (
            scope_result out.0,
            (release_lock redis out.1 out.2).1,
            finally-eq out,
            inr (ran (build_lock_key source account_id) token h s' keep k t held),
          )
