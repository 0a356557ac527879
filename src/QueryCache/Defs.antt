-- ===== src/QueryCache/Defs.antt =====
-- `QueryCache.get_or_compute` and `bump_generation`. A key stands for the digest of a query and
-- its parameters; Redis holds the generation and the entries, a mapping from keys; times are whole
-- seconds. The encoder to JSON and the size of a payload are parameters.
use bormo_stats.Base.{
  ℕ, suc, ◌+◌, Bool, Option, none, some, ltb, ◌==◌, str_eq, String, if◌then◌else◌,
}

-- What the cache and Redis hold.
pub record Cache (Rows : Type 0) : Type 0 where
  pub generation : ℕ
  pub entries : String → Option (ℕ × Rows)
  pub disabled_until : ℕ

-- The errors of Redis that a call meets.
pub record Faults : Type 0 where
  pub read_fails : Bool
  pub write_fails : Bool

module _ {Rows : Type 0} (encode : Rows → Rows) (payload_size : Rows → ℕ)
    (max_entry_bytes : ℕ) where
  -- `_fail`
  abbrev pub fail : ℕ → Cache Rows → Cache Rows
  fail now c = record c { disabled_until = now + 30 }

  -- `set`
  unfoldable pub store : String → Rows → Cache Rows → Cache Rows
  store key rows c = record c {
    entries = λ k. if str_eq k key then some (c.generation, rows) else c.entries k;
  }

  unfoldable pub miss : String → ℕ → Bool → Rows → Cache Rows → Rows × Cache Rows
  unfolding store
  miss key now write_fails rows c =
      if ltb max_entry_bytes (payload_size rows)
      then (rows, c)
      else if write_fails
      then (rows, fail now c)
      else (rows, store key rows c)

  unfoldable pub read_entry :
      String → ℕ → Bool → Rows → Cache Rows → Option (ℕ × Rows) → Rows × Cache Rows
  unfolding miss
  read_entry key now write_fails computed c none = miss key now write_fails (encode computed) c
  read_entry key now write_fails computed c (some (generation, rows)) =
      if generation == c.generation then (rows, c) else miss key now write_fails (encode computed) c

  -- `get_or_compute`, with what `compute` returns
  unfoldable pub get_or_compute : String → ℕ → Faults → Rows → Cache Rows → Rows × Cache Rows
  unfolding read_entry
  get_or_compute key now f computed c =
      if ltb now c.disabled_until
      then (computed, c)
      else if f.read_fails
      then (computed, fail now c)
      else read_entry key now f.write_fails computed c (c.entries key)

  -- `bump_generation`, where Redis answers
  unfoldable pub bump_generation : Cache Rows → Cache Rows
  bump_generation c = record c { generation = suc c.generation }

  -- an entry whose time to live has passed
  unfoldable pub expire : String → Cache Rows → Cache Rows
  expire key c = record c { entries = λ k. if str_eq k key then none else c.entries k }
