-- ===== src/Redis/Table.antt =====
-- A table of keys that meets the interface, for runs at concrete states.
use bormo_stats.Base.{
  ℕ, ◌<◌, String, ◌≡◌, ◌≢◌, refl, Bool, true, false, Option, none, some, List, [], ◌∷◌, arith,
  str_eq, if◌then◌else◌, eq_iff, eq_refl,
}
use bormo_stats.Redis.{Redis}

abbrev pub Table : Type 0
Table = List (String × String)

unfoldable pub find : String → Table → Option String
find k [] = none
find k ((j, v) ∷ m) = if str_eq j k then some v else find k m

unfoldable pub remove : String → Table → Table
remove k [] = []
remove k ((j, v) ∷ m) = let rest = remove k m in if str_eq j k then rest else (j, v) ∷ rest

pub find-remove :
    (k j : String) (m : Table) → find j (remove k m) ≡ (if str_eq k j then none else find j m)
unfolding find remove
find-remove k j [] = ground arith
find-remove k j ((i, v) ∷ m) = ground (arith, find-remove k j m, eq_iff i k, eq_iff i j, eq_iff k j)

abbrev present : Option String → Bool
present none = false
present (some v) = true

unfoldable pub table_set : String → String → ℕ → Table → Bool × Table
unfolding find
table_set k v ttl m = if present (find k m) then (false, m) else (true, (k, v) ∷ m)

pub set_free :
    (k v : String) (ttl : ℕ) (m : Table)
    → 0 < ttl
    → find k m ≡ none
    → ((table_set k v ttl m).0 ≡ true) × (find k (table_set k v ttl m).1 ≡ some v)
unfolding table_set
set_free k v ttl m pos h = rw h (refl, rw eq_refl)

pub set_taken :
    (k v u : String) (ttl : ℕ) (m : Table) → find k m ≡ some u → table_set k v ttl m ≡ (false, m)
unfolding table_set
set_taken k v u ttl m h = rw h

pub set_other :
    (k v : String) (ttl : ℕ) (m : Table) (j : String)
    → j ≢ k
    → find j (table_set k v ttl m).1 ≡ find j m
unfolding table_set
set_other k v ttl m j ne = ground (arith, eq_iff k j)

pub remove_self : (k : String) (m : Table) → find k (remove k m) ≡ none
remove_self k m = simp (find-remove, eq_refl)

pub remove_other : (k : String) (m : Table) (j : String) → j ≢ k → find j (remove k m) ≡ find j m
remove_other k m j ne = ground (arith, find-remove k j m, eq_iff k j)

-- The table as a server.
abbrev pub table_redis : Redis
table_redis = record {
  Server = Table;
  get = find;
  set_nx = table_set;
  expire = λ k ttl m. (present (find k m), m);
  del = λ k m. (present (find k m), remove k m);
  set_nx_free = set_free;
  set_nx_taken = set_taken;
  set_nx_other = set_other;
  expire_found = λ k v ttl m h. rw h;
  expire_get = λ k ttl m j pos. refl;
  del_found = λ k v m h. rw h;
  del_self = remove_self;
  del_other = remove_other;
}
