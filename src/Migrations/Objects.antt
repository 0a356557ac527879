-- ===== src/Migrations/Objects.antt =====
-- `expected_objects` and `verify_postconditions`: the tables and columns that a migration promises,
-- and which of them are missing. The regular expressions are parameters.
use Prim.Native.String.{String}
use bormo_stats.Base.{
  ℕ, ◌≡◌, refl, Bool, true, false, ◌&&◌, ◌||◌, Option, none, some, List, [], ◌∷◌, ◌++◌, str_eq,
  elem, if◌then◌else◌, All,
}
use bormo_stats.Base.Text.{starts_with, codes, strip, lstrip}
use bormo_stats.Migrations.Statements.{split_sql_statements}
use bormo_stats.Migrations.Journal.{Migration}

-- What Python's `re` finds in a statement by the patterns of the module, and `str.upper`.
pub record Patterns : Type 0 where
  pub create_table : List ℕ → List String
  pub drop_table : List ℕ → Option String
  pub renames : List ℕ → List (String × String)
  pub add_column : List ℕ → List (String × String)
  pub upper : List ℕ → List ℕ

-- The sets of names, as lists without an order that matters.
pub record Expected : Type 0 where
  pub tables : List String
  pub columns : List (String × String)

-- `tables.discard(name)`
unfoldable pub discard : String → List String → List String
discard name [] = []
discard name (t ∷ ts) = let rest = discard name ts in if str_eq name t then rest else t ∷ rest

abbrev pub discard_match : Option String → List String → List String
discard_match none tables = tables
discard_match (some name) tables = discard name tables

-- the renames of one statement: `tables.discard(source)` also where it is not there changes nothing
unfoldable pub rename_all : List (String × String) → List String → List String
unfolding discard
rename_all [] tables = tables
rename_all ((source, target) ∷ pairs) tables = rename_all pairs (target ∷ discard source tables)

module _ (re : Patterns) where
  abbrev upper_start : List ℕ → List ℕ
  upper_start statement = re.upper (lstrip statement)

  -- one statement
  unfoldable pub replay : List ℕ → Expected → Expected
  unfolding starts_with rename_all
  replay statement x =
      let tables =
        if starts_with (codes "CREATE") (upper_start statement)
        then re.create_table statement ++ x.tables
        else if starts_with (codes "DROP TABLE") (upper_start statement)
        then discard_match (re.drop_table (strip statement)) x.tables
        else if starts_with (codes "RENAME TABLE") (upper_start statement)
        then rename_all (re.renames statement) x.tables
        else x.tables in
      record { tables = tables; columns = re.add_column statement ++ x.columns }

  unfoldable pub replay_all : List (List ℕ) → Expected → Expected
  unfolding replay
  replay_all [] x = x
  replay_all (statement ∷ rest) x = replay_all rest (replay statement x)

  abbrev objects_of : Option (List (List ℕ)) → Expected
  objects_of none = record { tables = []; columns = [] }
  objects_of (some statements) = replay_all statements (record { tables = []; columns = [] })

  -- `expected_objects`; the splitter always returns.
  unfoldable pub expected_objects : List ℕ → Expected
  unfolding replay_all
  expected_objects sql = objects_of (split_sql_statements sql)

-- whether the database has a name or a pair of names
abbrev pub has_column : List (String × String) → String × String → Bool
has_column [] c = false
has_column ((t, n) ∷ cs) (t', n') = str_eq t' t && str_eq n' n || has_column cs (t', n')

-- `tables - existing` and `columns - existing_columns`
unfoldable pub missing_tables : List String → List String → List String
missing_tables [] existing = []
missing_tables (t ∷ ts) existing =
    let rest = missing_tables ts existing in if elem t existing then rest else t ∷ rest

unfoldable pub missing_columns :
    List (String × String) → List (String × String) → List (String × String)
missing_columns [] existing = []
missing_columns (c ∷ cs) existing =
    let rest = missing_columns cs existing in if has_column existing c then rest else c ∷ rest

unfoldable pub verdict : List String → List (String × String) → Option String
verdict (t ∷ ts) columns = some "tables missing after apply"
verdict [] (c ∷ cs) = some "columns missing after apply"
verdict [] [] = none

-- `verify_postconditions`: the error's text, without the names in it
unfoldable pub verify_postconditions :
    {D : Type 0}
    → Patterns
    → (D → List String)
    → (D → List (String × String))
    → Migration
    → D
    → Option String
unfolding expected_objects missing_tables missing_columns verdict
verify_postconditions re tables columns m d =
    let x = expected_objects re m.sql in
    verdict (missing_tables x.tables (tables d)) (missing_columns x.columns (columns d))

verdict-none :
    (ts : List String) (cs : List (String × String)) → verdict ts cs ≡ none → (ts ≡ []) × (cs ≡ [])
unfolding verdict
verdict-none [] [] h = (refl, refl)
verdict-none [] (c ∷ cs) h = cc
verdict-none (t ∷ ts) cs h = cc

missing_tables-nil :
    (ts existing : List String)
    → missing_tables ts existing ≡ []
    → All (λ t. elem t existing ≡ true) ts
unfolding missing_tables
missing_tables-nil [] existing h = tt
missing_tables-nil (t ∷ ts) existing h =
    by_flag (elem t existing) refl h (missing_tables-nil ts existing)
  where
    by_flag :
        (b : Bool)
        → elem t existing ≡ b
        → (if b then missing_tables ts existing else t ∷ missing_tables ts existing) ≡ []
        → (missing_tables ts existing ≡ [] → All (λ t. elem t existing ≡ true) ts)
        → All (λ t. elem t existing ≡ true) (t ∷ ts)
    by_flag true e k ih = (e, ih k)
    by_flag false e k ih = cc

missing_columns-nil :
    (cs existing : List (String × String))
    → missing_columns cs existing ≡ []
    → All (λ c. has_column existing c ≡ true) cs
unfolding missing_columns
missing_columns-nil [] existing h = tt
missing_columns-nil (c ∷ cs) existing h =
    by_flag (has_column existing c) refl h (missing_columns-nil cs existing)
  where
    by_flag :
        (b : Bool)
        → has_column existing c ≡ b
        → (if b then missing_columns cs existing else c ∷ missing_columns cs existing) ≡ []
        → (missing_columns cs existing ≡ [] → All (λ c. has_column existing c ≡ true) cs)
        → All (λ c. has_column existing c ≡ true) (c ∷ cs)
    by_flag true e k ih = (e, ih k)
    by_flag false e k ih = cc

-- A migration passes its check only if every table and every column that it promises is there.
pub verify_postconditions_complete :
    {D : Type 0} (re : Patterns) (tables : D → List String) (columns : D → List (String × String))
    (m : Migration) (d : D)
    → verify_postconditions re tables columns m d ≡ none
    → All (λ t. elem t (tables d) ≡ true) (expected_objects re m.sql).tables
      × All (λ c. has_column (columns d) c ≡ true) (expected_objects re m.sql).columns
unfolding verify_postconditions
verify_postconditions_complete re tables columns m d h =
    let x = expected_objects re m.sql in
    let (t, c) =
      verdict-none (missing_tables x.tables (tables d)) (missing_columns x.columns (columns d)) h in
    (missing_tables-nil x.tables (tables d) t, missing_columns-nil x.columns (columns d) c)
