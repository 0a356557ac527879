-- ===== src/Migrations/Journal.antt =====
-- The manifest, the journal of sys_schema_migrations, and the check of the one against the other.
use bormo_stats.Base.{
  ℕ, String, Bool, true, false, not, ◌&&◌, Option, none, some, List, [], ◌∷◌, ltb, str_eq,
  if◌then◌else◌,
}

-- The file's text stands for its path.
pub record Migration : Type 0 where
  pub version : String
  pub sql : List ℕ
  pub checksum : String
  pub rollback : Option (List ℕ)

-- A row of the journal table.
pub record JournalRow : Type 0 where
  pub version : String
  pub checksum : String
  pub status : String
  pub seq : ℕ
  pub error : String

-- `argMax(…, seq)` over the rows of one version.
abbrev newer : JournalRow → JournalRow → JournalRow
newer r e = if ltb e.seq r.seq then r else e

unfoldable pub upsert : JournalRow → List JournalRow → List JournalRow
upsert r [] = r ∷ []
upsert r (e ∷ es) =
    let rest = upsert r es in if str_eq r.version e.version then newer r e ∷ es else e ∷ rest

-- `load_journal`: one row for each version
unfoldable pub load_journal : List JournalRow → List JournalRow
unfolding upsert
load_journal [] = []
load_journal (r ∷ rows) = upsert r (load_journal rows)

-- `journal.get(version)`
unfoldable pub get_entry : String → List JournalRow → Option JournalRow
get_entry version [] = none
get_entry version (e ∷ es) =
    let rest = get_entry version es in if str_eq version e.version then some e else rest

abbrev pub is_applied : Option JournalRow → Bool
is_applied none = false
is_applied (some e) = str_eq e.status "applied"

-- `by_version.get(version)`; of two files with one version the later one counts.
unfoldable pub find_migration : String → List Migration → Option Migration
find_migration version [] = none
find_migration version (m ∷ ms) = elim (find_migration version ms) [
  | some n ↦ some n
  | none ↦ if str_eq version m.version then some m else none
]

-- What is wrong with an applied version: its file is missing, or differs from what was applied.
unfoldable pub is_problem : JournalRow → Option Migration → Bool
is_problem e none = true
is_problem e (some m) = not (str_eq e.checksum "") && not (str_eq e.checksum m.checksum)

-- `_check_history`: the versions with problems
unfoldable pub history_problems : List Migration → List JournalRow → List String
unfolding is_problem find_migration
history_problems manifest [] = []
history_problems manifest (e ∷ es) =
    let rest = history_problems manifest es in
    if str_eq e.status "applied" && is_problem e (find_migration e.version manifest)
    then e.version ∷ rest
    else rest
