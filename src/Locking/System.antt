-- ===== src/Locking/System.antt =====
-- Any number of clients of one server: they take locks with fresh tokens, renew and release with
-- whatever handles they have, and time passes.
use bormo_stats.Base.{
  ℕ, ◌<◌, String, ◌≡◌, ◌≢◌, refl, true, false, Option, some, List, ◌∷◌, arith, eq_iff, elem,
  Option-cases, inl, inr,
}
use bormo_stats.Base.Results.{err}
use bormo_stats.Redis.{Redis, Lapse}
use bormo_stats.Locking.Defs.{LockHandle, lock_lost, ensure_held, renew_lock, release_lock, or_else}
use bormo_stats.Locking.Exclusion.{is_token-false, get-release_lock, renew_lock_lem}

module _ (redis : Redis) where
  open redis use {Server, get, set_nx, set_nx_free, set_nx_taken, set_nx_other}

  -- The server, and the tokens drawn so far (`uuid.uuid4` draws no token twice).
  pub record System : Type 0 where
    pub server : Server
    pub issued : List String

  pub data Step : System → System → Type 0 where
    acquire :
        (x : System) (key token : String) (ttl : ℕ)
        → 0 < ttl
        → elem token x.issued ≡ false
        → Step x (record { server = (set_nx key token ttl x.server).1; issued = token ∷ x.issued })
    renew :
        (x : System) (h : LockHandle) (ttl : Option ℕ)
        → 0 < or_else ttl h.ttl_seconds
        → Step x (record { server = (renew_lock redis h ttl x.server).2; issued = x.issued })
    release :
        (x : System) (h : LockHandle)
        → Step x (record { server = (release_lock redis h x.server).1; issued = x.issued })
    lapse :
        (x : System) (s : Server)
        → Lapse redis x.server s
        → Step x (record { server = s; issued = x.issued })

  pub data Reach (x : System) : System → Type 0 where
    here : Reach x x
    next : {y z : System} → Reach x y → Step y z → Reach x z

  -- The token was drawn, and the key does not hold it.
  pub record IsLost (key token : String) (x : System) : Type 0 where
    pub drawn : elem token x.issued ≡ true
    pub gone : get key x.server ≢ some token

  get-set_nx :
      (k key token : String) (ttl : ℕ) (s : Server) (t : String)
      → 0 < ttl
      → t ≢ token
      → get k s ≢ some t
      → get k (set_nx key token ttl s).1 ≢ some t
  get-set_nx k key token ttl s t pos ne gone = elim (Option-cases (get key s)) [
    | inl free ↦ ground (
      arith,
      eq_iff k key,
      (set_nx_free key token ttl s pos free).1,
      set_nx_other key token ttl s k,
    )
    | inr (u, held) ↦ rw (set_nx_taken key token u ttl s held) gone
  ]

  Step-IsLost : {k t : String} {x y : System} → Step x y → IsLost k t x → IsLost k t y
  Step-IsLost {k} {t} (acquire x key token ttl pos fresh) l = record {
    drawn = ground (arith, l.drawn);
    gone = get-set_nx k key token ttl x.server t pos (λ e. ground (arith, l.drawn, e)) l.gone;
  }
  Step-IsLost {k} {t} (renew x h ttl pos) l = record {
    drawn = l.drawn;
    gone = rw ((renew_lock_lem redis h ttl x.server pos).2 k) l.gone;
  }
  Step-IsLost {k} {t} (release x h) l = record {
    drawn = l.drawn;
    gone = ground (arith, get-release_lock redis h x.server k, l.gone);
  }
  Step-IsLost {k} {t} (lapse x s p) l = record {
    drawn = l.drawn;
    gone = ground (arith, p k, l.gone);
  }

  Reach-IsLost : {k t : String} {x y : System} → Reach x y → IsLost k t x → IsLost k t y
  Reach-IsLost here l = l
  Reach-IsLost (next r st) l = Step-IsLost st (Reach-IsLost r l)

  -- A lock that was lost stays lost: whatever the clients do with any handles, and however much
  -- time passes, a handle whose token was drawn and that the server does not hold never passes
  -- `ensure_held` again, nor can it be renewed, nor does its release free the key.
  pub lost_forever :
      {x y : System} (h : LockHandle) (ttl : Option ℕ)
      → Reach x y
      → h.attached ≡ true
      → elem h.token x.issued ≡ true
      → get h.key x.server ≢ some h.token
      → ((ensure_held redis h y.server).0 ≡ err (lock_lost h.key))
        × ((renew_lock redis h ttl y.server).0 ≡ false)
        × (release_lock redis h y.server ≡ (false, y.server))
  unfolding ensure_held renew_lock release_lock
  lost_forever {y = y} h ttl r a drawn gone =
      let l = Reach-IsLost r (record { drawn = drawn; gone = gone }) in
      simp (is_token-false redis (get h.key y.server) h.token l.gone, a) (refl, refl, refl)
