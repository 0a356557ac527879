-- ===== src/Redis.antt =====
-- The Redis server as the lock helpers use it: an interface with the documented behaviour of SET
-- with NX and EX, GET, EXPIRE and DEL. Keys vanish when their time to live ends; that is a step of
-- its own (`Lapse`), not part of a command.
pub mod Table
use bormo_stats.Base.{ℕ, ◌<◌, String, ◌≡◌, ◌≢◌, ◌⊎◌, Bool, true, false, Option, none, some}

pub record Redis : Type 1 where
  pub Server : Type 0
  pub get : String → Server → Option String
  -- `set(key, value, ex=ttl, nx=True)`
  pub set_nx : String → String → ℕ → Server → Bool × Server
  pub expire : String → ℕ → Server → Bool × Server
  pub del : String → Server → Bool × Server
  pub set_nx_free :
      (k v : String) (ttl : ℕ) (s : Server)
      → 0 < ttl
      → get k s ≡ none
      → ((set_nx k v ttl s).0 ≡ true) × (get k (set_nx k v ttl s).1 ≡ some v)
  pub set_nx_taken :
      (k v u : String) (ttl : ℕ) (s : Server) → get k s ≡ some u → set_nx k v ttl s ≡ (false, s)
  pub set_nx_other :
      (k v : String) (ttl : ℕ) (s : Server) (j : String)
      → j ≢ k
      → get j (set_nx k v ttl s).1 ≡ get j s
  -- EXPIRE answers 1 exactly for a key that exists, and touches no value.
  pub expire_found :
      (k v : String) (ttl : ℕ) (s : Server) → get k s ≡ some v → (expire k ttl s).0 ≡ true
  pub expire_get :
      (k : String) (ttl : ℕ) (s : Server) (j : String)
      → 0 < ttl
      → get j (expire k ttl s).1 ≡ get j s
  pub del_found : (k v : String) (s : Server) → get k s ≡ some v → (del k s).0 ≡ true
  pub del_self : (k : String) (s : Server) → get k (del k s).1 ≡ none
  pub del_other : (k : String) (s : Server) (j : String) → j ≢ k → get j (del k s).1 ≡ get j s

-- Time passes: some keys may be gone, and no value changes.
abbrev pub Lapse : (r : Redis) → r.Server → r.Server → Type 0
Lapse r s t = (k : String) → (r.get k t ≡ none) ⊎ (r.get k t ≡ r.get k s)
