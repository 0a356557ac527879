-- ===== src/Locking/Exclusion.antt =====
-- Who holds a lock, and what each operation does to it.
use bormo_stats.Base.{
  ℕ, ◌<◌, ◌+◌, String, ◌≡◌, ◌≢◌, ◌↔◌, refl, true, false, ◌&&◌, Option, none, some, arith, eq_iff,
  eq_refl, str_eq, if◌then◌else◌, Bool-cases, inl, inr,
}
use bormo_stats.Base.Results.{ok}
use bormo_stats.Redis.{Redis}
use bormo_stats.Locking.Defs.{LockHandle, ensure_held, renew_lock, release_lock, is_token, or_else}

module _ (redis : Redis) where
  open redis use {
    Server, get, set_nx, expire, del, expire_found, expire_get, del_self, del_other, del_found,
  }

  -- The server holds the handle's token.
  abbrev pub Holds : LockHandle → Server → Type 0
  Holds h s = get h.key s ≡ some h.token

  is_token→eq : (o : Option String) (t : String) → is_token o t ≡ true → o ≡ some t
  is_token→eq none t h = cc
  is_token→eq (some v) t h = ground (arith, eq_iff v t)

  Holds→is_token : (h : LockHandle) (s : Server) → Holds h s → is_token (get h.key s) h.token ≡ true
  Holds→is_token h s e = rw e (eq_refl h.token)

  pub is_token-false : (o : Option String) (t : String) → o ≢ some t → is_token o t ≡ false
  is_token-false none t h = refl
  is_token-false (some v) t h = ground (arith, eq_iff v t, h)

  -- An attached handle passes the check exactly when it was not marked lost and the server holds
  -- its token.
  pub ensure_held-ok_iff :
      (h : LockHandle) (s : Server)
      → h.attached ≡ true
      → ((ensure_held redis h s).0 ≡ ok tt) ↔ (Holds h s × (h.lost ≡ false))
  unfolding ensure_held
  ensure_held-ok_iff h s a = (
    (λ e. ground (arith, is_token→eq (get h.key s) h.token)),
    (λ e. ground (arith, Holds→is_token h s)),
  )

  -- Two attached handles of one key that both pass the check carry the same token.
  pub mutual_exclusion :
      (h g : LockHandle) (s : Server)
      → h.attached ≡ true
      → g.attached ≡ true
      → h.key ≡ g.key
      → (ensure_held redis h s).0 ≡ ok tt
      → (ensure_held redis g s).0 ≡ ok tt
      → h.token ≡ g.token
  mutual_exclusion h g s a b k p q =
      let x = ((ensure_held-ok_iff h s a).0 p).0 in
      let y = ((ensure_held-ok_iff g s b).0 q).0 in ground (arith, x, y)

  -- A release frees the key exactly when the handle still holds it; it never frees the lock of
  -- another token, and it touches no other key.
  pub get-release_lock :
      (h : LockHandle) (s : Server) (j : String)
      → get j (release_lock redis h s).1
        ≡ (if is_token (get h.key s) h.token && str_eq h.key j then none else get j s)
  unfolding release_lock
  get-release_lock h s j = ground (arith, eq_iff h.key j, del_self h.key s, del_other h.key s j)

  -- A renewal succeeds exactly when the server holds the token; then it counts one more renewal,
  -- otherwise it marks the handle lost. The values on the server stay as they are.
  pub renew_lock_lem :
      (h : LockHandle) (ttl : Option ℕ) (s : Server)
      → 0 < or_else ttl h.ttl_seconds
      → let (renewed, h', s') = renew_lock redis h ttl s in
        (renewed ≡ is_token (get h.key s) h.token)
        × (h' ≡ (
            if renewed then record h { renewals = h.renewals + 1 } else record h { lost = true }))
        × ((j : String) → get j s' ≡ get j s)
  unfolding renew_lock
  renew_lock_lem h ttl s pos = elim (Bool-cases (is_token (get h.key s) h.token)) [
    | inl held ↦
        simp (held, expire_found h.key h.token (or_else ttl h.ttl_seconds) s (is_token→eq _ _ held))
          (refl, refl, λ j. expire_get h.key (or_else ttl h.ttl_seconds) s j pos)
    | inr gone ↦ simp gone (refl, refl, λ j. refl)
  ]
