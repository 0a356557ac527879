-- ===== src/QueryCache/Refinement.antt =====
-- `get_or_compute` against computing every query anew.
use bormo_stats.Base.{
  ℕ, zero, ◌≤◌, ◌≡◌, refl, ap, sym, ◌∙◌, Bool, true, false, Option, none, some, List, [], ◌∷◌, map,
  ltb, ◌==◌, ==_iff, str_eq, eq_iff, String, if◌then◌else◌, arith,
}
use bormo_stats.Base.Results.{some_injective}
use bormo_stats.QueryCache.Defs.{
  Cache, Faults, fail, store, miss, read_entry, get_or_compute, bump_generation, expire,
}

-- A query, the expiry of an entry, or new data in the warehouse, after which the generation is
-- bumped.
pub data Event (Rows : Type 0) : Type 0 where
  query : String → ℕ → Faults → Event Rows
  expiry : String → Event Rows
  rebuild : (String → Rows) → Event Rows

module _ {Rows : Type 0} (encode : Rows → Rows) (payload_size : Rows → ℕ)
    (max_entry_bytes : ℕ) where
  -- The answers with the cache, from the data of the warehouse.
  unfoldable pub run : List (Event Rows) → (String → Rows) → Cache Rows → List Rows
  unfolding get_or_compute expire bump_generation
  run [] db c = []
  run (query key now f ∷ es) db c =
      let (rows, c') = get_or_compute encode payload_size max_entry_bytes key now f (db key) c in
      rows ∷ run es db c'
  run (expiry key ∷ es) db c = run es db (expire encode payload_size max_entry_bytes key c)
  run (rebuild new ∷ es) db c = run es new (bump_generation encode payload_size max_entry_bytes c)

  -- The answers without a cache.
  unfoldable pub compute_all : List (Event Rows) → (String → Rows) → List Rows
  compute_all [] db = []
  compute_all (query key now f ∷ es) db = db key ∷ compute_all es db
  compute_all (expiry key ∷ es) db = compute_all es db
  compute_all (rebuild new ∷ es) db = compute_all es new

  -- Entries are of no later generation, and those of the present one hold the present data.
  abbrev pub IsCurrent : (String → Rows) → Cache Rows → Type 0
  IsCurrent db c =
      (key : String) (g : ℕ) (rows : Rows)
      → c.entries key ≡ some (g, rows)
      → (g ≤ c.generation) × (g ≡ c.generation → rows ≡ encode (db key))

  -- An answer that is right, and leaves the cache so.
  abbrev IsRight : (String → Rows) → String → Rows × Cache Rows → Type 0
  IsRight db key (rows, c) = (encode rows ≡ encode (db key)) × IsCurrent db c

  store-IsCurrent :
      (db : String → Rows) (key : String) (c : Cache Rows)
      → IsCurrent db c
      → IsCurrent db (store encode payload_size max_entry_bytes key (encode (db key)) c)
  unfolding store
  store-IsCurrent db key c h k g rows e = by_flag (str_eq k key) refl e
    where
      by_flag :
          (same : Bool)
          → str_eq k key ≡ same
          → (if same then some (c.generation, encode (db key)) else c.entries k) ≡ some (g, rows)
          → (g ≤ c.generation) × (g ≡ c.generation → rows ≡ encode (db k))
      by_flag true q u =
          let both = some_injective u in
          let first : c.generation ≡ g = ap (λ x. x.0) both in
          let second : encode (db key) ≡ rows = ap (λ x. x.1) both in
          let key_same : k ≡ key = (eq_iff k key).0 q in
          (omega arith, λ v. sym second ∙ ap (λ x. encode (db x)) (sym key_same))
      by_flag false q u = h k g rows u

  miss-IsRight :
      (db : String → Rows) (key : String) (now : ℕ) (write_fails : Bool) (c : Cache Rows)
      → ((r : Rows) → encode (encode r) ≡ encode r)
      → IsCurrent db c
      → IsRight db key
          (miss encode payload_size max_entry_bytes key now write_fails (encode (db key)) c)
  unfolding miss
  miss-IsRight db key now write_fails c i h =
      by_flags (ltb max_entry_bytes (payload_size (encode (db key)))) write_fails
    where
      by_flags :
          (large fails : Bool)
          → IsRight db key (
              if large
              then (encode (db key), c)
              else if fails
              then (encode (db key), fail encode payload_size max_entry_bytes now c)
              else (
                encode (db key),
                store encode payload_size max_entry_bytes key (encode (db key)) c,
              ))
      by_flags true fails = (i (db key), h)
      by_flags false true = (i (db key), h)
      by_flags false false = (i (db key), store-IsCurrent db key c h)

  entry-IsRight :
      (db : String → Rows) (key : String) (now : ℕ) (write_fails : Bool) (c : Cache Rows)
      (o : Option (ℕ × Rows))
      → ((r : Rows) → encode (encode r) ≡ encode r)
      → IsCurrent db c
      → c.entries key ≡ o
      → IsRight db key
          (read_entry encode payload_size max_entry_bytes key now write_fails (db key) c o)
  unfolding read_entry
  entry-IsRight db key now write_fails c none i h e = miss-IsRight db key now write_fails c i h
  entry-IsRight db key now write_fails c (some (g, rows)) i h e = by_flag (g == c.generation) refl
    where
      by_flag :
          (same : Bool)
          → (g == c.generation) ≡ same
          → IsRight db key (
              if same
              then (rows, c)
              else miss encode payload_size max_entry_bytes key now write_fails (encode (db key)) c)
      by_flag true q =
          let now_same : g ≡ c.generation = (==_iff g c.generation).0 q in
          (ap encode ((h key g rows e).1 now_same) ∙ i (db key), h)
      by_flag false q = miss-IsRight db key now write_fails c i h

  query-IsRight :
      (db : String → Rows) (key : String) (now : ℕ) (f : Faults) (c : Cache Rows)
      → ((r : Rows) → encode (encode r) ≡ encode r)
      → IsCurrent db c
      → IsRight db key (get_or_compute encode payload_size max_entry_bytes key now f (db key) c)
  unfolding get_or_compute
  query-IsRight db key now f c i h = by_flags (ltb now c.disabled_until) f.read_fails
    where
      by_flags :
          (off fails : Bool)
          → IsRight db key (
              if off
              then (db key, c)
              else if fails
              then (db key, fail encode payload_size max_entry_bytes now c)
              else read_entry encode payload_size max_entry_bytes key now f.write_fails
                  (db key)
                  c
                  (c.entries key))
      by_flags true fails = (refl, h)
      by_flags false true = (refl, h)
      by_flags false false = entry-IsRight db key now f.write_fails c (c.entries key) i h refl

  bumped-IsCurrent :
      (db new : String → Rows) (c : Cache Rows)
      → IsCurrent db c
      → IsCurrent new (bump_generation encode payload_size max_entry_bytes c)
  unfolding bump_generation
  bumped-IsCurrent db new c h k g rows e =
      let older = (h k g rows e).0 in (omega arith, λ v. let bad : zero ≡ 1 = omega arith in cc)

  expired-IsCurrent :
      (db : String → Rows) (key : String) (c : Cache Rows)
      → IsCurrent db c
      → IsCurrent db (expire encode payload_size max_entry_bytes key c)
  unfolding expire
  expired-IsCurrent db key c h k g rows e = by_flag (str_eq k key) e
    where
      by_flag :
          (same : Bool)
          → (if same then none else c.entries k) ≡ some (g, rows)
          → (g ≤ c.generation) × (g ≡ c.generation → rows ≡ encode (db k))
      by_flag true u = cc
      by_flag false u = h k g rows u

  -- The cache refines computing: whatever queries are asked, entries expire and data are rebuilt,
  -- and whichever reads and writes of Redis fail, each answer encodes as the answer computed from
  -- the data of its time. This holds from a cache whose entries are current, where what was encoded
  -- stays as it is, each rebuild bumps the generation, and no rebuild falls into a query.
  pub map_encode-run :
      (es : List (Event Rows)) (db : String → Rows) (c : Cache Rows)
      → ((r : Rows) → encode (encode r) ≡ encode r)
      → IsCurrent db c
      → map encode (run es db c) ≡ map encode (compute_all es db)
  unfolding run compute_all
  map_encode-run [] db c i h = refl
  map_encode-run (query key now f ∷ es) db c i h =
      let (same, h') = query-IsRight db key now f c i h in
      let c' = (get_or_compute encode payload_size max_entry_bytes key now f (db key) c).1 in
      let rest = map_encode-run es db c' i h' in rw same (ap (λ l. encode (db key) ∷ l) rest)
  map_encode-run (expiry key ∷ es) db c i h =
      map_encode-run es db (expire encode payload_size max_entry_bytes key c) i
        (expired-IsCurrent db key c h)
  map_encode-run (rebuild new ∷ es) db c i h =
      map_encode-run es new (bump_generation encode payload_size max_entry_bytes c) i
        (bumped-IsCurrent db new c h)
