-- ===== src/Migrations/Runs.antt =====
-- `apply_migrations` and `rollback_migrations`. What SQL does to the database is a parameter; the
-- journal and the lock are tables of their own, which the statements of a migration leave alone.
use Prim.Native.String.{compare}
use Prim.Native.Nat.{Ordering}
use bormo_stats.Base.{
  ℕ, ◌-◌, ◌/◌, String, Bool, true, false, not, ◌&&◌, Option, none, some, List, [], ◌∷◌, reverse,
  ltb, str_eq, if◌then◌else◌,
}
use bormo_stats.Base.Results.{Result, ok, err, Exec, ◌>>=◌, ◌>>◌, pure, raise}
use bormo_stats.Migrations.Statements.{split_sql_statements}
use bormo_stats.Migrations.Journal.{
  Migration, JournalRow, load_journal, get_entry, is_applied, history_problems,
}

-- `left > right` on versions
abbrev pub str_gt : String → String → Bool
str_gt a b = elim (compare a b) [ Ordering.gt ↦ true | _ ↦ false ]

-- The warehouse: its tables, the journal with the newest row first, the lock table with the time
-- of its creation, and the clock, in nanoseconds; and the faults of the connection: what an INSERT
-- into the journal or into the lock table raises at a reading of the clock. One that raises writes
-- no row.
pub record Warehouse (D : Type 0) : Type 0 where
  pub tables : D
  pub journal : List JournalRow
  pub lock : Option ℕ
  pub now : ℕ
  pub journal_fault : ℕ → Option String
  pub lock_fault : ℕ → Option String

-- What a run raises: an error of ClickHouse, or a MigrationError.
pub data RunError : Type 0 where
  database_error : String → RunError
  lock_held : RunError
  history_mismatch : List String → RunError
  objects_missing : String → RunError
  no_target : RunError
  production : RunError
  no_rollback : List String → RunError

-- `str(exc)` of the two errors that an attempt can meet
abbrev pub error_text : RunError → String
error_text (database_error e) = e
error_text (objects_missing e) = e
error_text _ = ""

-- What the runs use of ClickHouse: a statement's effect on the tables, or its error after what it
-- changed; which of the objects that a migration promises are missing (the program
-- passes `verify_postconditions` of Objects); and the clock's next reading.
module _ {D : Type 0} (command : List ℕ → Exec D String Unit)
    (missing_objects : Migration → D → Option String) (tick : ℕ → ℕ) where
  abbrev pub Run : Type 0 → Type 0
  Run A = Exec (Warehouse D) RunError A

  -- the row of `_record`: the duration, the actor and the cut of long error texts are left out
  unfoldable pub insert_row : Migration → String → String → Warehouse D → Warehouse D
  insert_row m status error w = record w {
    journal =
        record {
          version = m.version;
          checksum = m.checksum;
          status = status;
          seq = w.now;
          error = error;
        }
        ∷ w.journal;
    now = tick w.now;
  }

  unfoldable pub insert_with : Option String → Migration → String → String → Run Unit
  unfolding insert_row
  insert_with none m status error w = (ok tt, insert_row m status error w)
  insert_with (some e) m status error w = (err (database_error e), record w { now = tick w.now })

  -- `_record`
  unfoldable pub record_status : Migration → String → String → Run Unit
  unfolding insert_with
  record_status m status error w = insert_with (w.journal_fault w.now) m status error w

  -- CREATE TABLE and then the INSERT of the holder: where the latter raises, the table stays
  unfoldable pub create_lock : Option String → Run Unit
  create_lock none w = (ok tt, record w { lock = some (w.now / 1000000000) })
  create_lock (some e) w = (err (database_error e), record w { lock = some (w.now / 1000000000) })

  -- the two attempts of `acquire_lock`: of a stale lock's table, and of the free name
  unfoldable pub acquire_lock : ℕ → Option ℕ → Run Unit
  unfolding create_lock
  acquire_lock ttl_seconds none w = create_lock (w.lock_fault w.now) w
  acquire_lock ttl_seconds (some created) w =
      if ltb ttl_seconds (w.now / 1000000000 - created)
      then create_lock (w.lock_fault w.now) w
      else (err lock_held, w)

  unfoldable pub release_lock : Warehouse D → Warehouse D
  release_lock w = record w { lock = none }

  -- `for statement in split_sql_statements(sql): client.command(statement)`
  unfoldable pub run_statements : List (List ℕ) → Exec D String Unit
  run_statements [] d = (ok tt, d)
  run_statements (statement ∷ rest) d = (command statement >> run_statements rest) d

  unfoldable pub run_sql : Option (List (List ℕ)) → Exec D String Unit
  unfolding run_statements
  run_sql none d = (err "IndexError", d)
  run_sql (some statements) d = run_statements statements d

  unfoldable pub check_objects : Option String → Exec D String Unit
  check_objects none d = (ok tt, d)
  check_objects (some missing) d = (err missing, d)

  -- an error text as the exception that it is the text of
  abbrev pub raise_as :
      (String → RunError) → Result {0, 0} String Unit × D → Result {0, 0} RunError Unit × D
  raise_as wrap (ok u, d) = (ok u, d)
  raise_as wrap (err e, d) = (err (wrap e), d)

  -- the `try` block of `_apply_one`
  unfoldable pub try_migration : Migration → Exec D RunError Unit
  unfolding run_sql check_objects
  try_migration m = (λ d. raise_as database_error (run_sql (split_sql_statements m.sql) d)) >> λ d.
      raise_as objects_missing (check_objects (missing_objects m d) d)

  -- what follows the `try` block: a failure is recorded and raised again
  unfoldable pub settle : Migration → Result {0, 0} RunError Unit × D → Run Unit
  unfolding record_status
  settle m (ok _, d) w = record_status m "applied" "" (record w { tables = d })
  settle m (err x, d) w =
      (record_status m "failed" (error_text x) >> raise x) (record w { tables = d })

  -- `_apply_one`
  unfoldable pub apply_one : Migration → Run Unit
  unfolding record_status settle try_migration
  apply_one m =
      record_status m "started" "" >> λ started. settle m (try_migration m started.tables) started

  unfoldable pub reaches_target : Option String → Migration → Bool
  reaches_target none m = false
  reaches_target (some target) m = str_gt m.version target

  -- an applied version: a row without a checksum, of the time before the journal, is completed
  unfoldable pub baseline : Migration → Option JournalRow → Run Unit
  unfolding record_status
  baseline m none w = (ok tt, w)
  baseline m (some e) w =
      if str_eq e.checksum "" then record_status m "applied" "" w else (ok tt, w)

  -- one turn of the loop of `apply_migrations`, where `rest` are the later turns: the flags tell
  -- whether the version is applied already and whether it lies after the target
  unfoldable pub next_version :
      Bool → Bool → Migration → Option JournalRow → Run (List String) → Run (List String)
  unfolding apply_one baseline
  next_version true reached m entry rest w = (baseline m entry >> rest) w
  next_version false true m entry rest w = (ok [], w)
  next_version false false m entry rest w =
      (apply_one m >> (rest >>= λ applied. pure (m.version ∷ applied))) w

  -- the loop over the manifest; `journal` is what was loaded before it
  unfoldable pub apply_loop : Option String → List JournalRow → List Migration → Run (List String)
  unfolding next_version reaches_target
  apply_loop target journal [] w = (ok [], w)
  apply_loop target journal (m ∷ ms) w =
      let entry = get_entry m.version journal in
      next_version (is_applied entry) (reaches_target target m) m entry
        (apply_loop target journal ms) w

  unfoldable pub no_problems : List String → Run Unit
  no_problems [] w = (ok tt, w)
  no_problems (p ∷ ps) w = (err (history_mismatch (p ∷ ps)), w)

  -- what `apply_migrations` does while it holds the lock
  unfoldable pub apply_locked : Option String → List Migration → Run (List String)
  unfolding apply_loop no_problems
  apply_locked target manifest w =
      let journal = load_journal w.journal in
      (no_problems (history_problems manifest journal) >> apply_loop target journal manifest) w

  -- the `try` and `finally` around the work under the lock
  unfoldable pub finally_release :
      {A : Type 0}
      → Run A
      → Result {0, 0} RunError Unit × Warehouse D
      → Result RunError A × Warehouse D
  unfolding release_lock
  finally_release work (err e, w) = (err e, w)
  finally_release work (ok _, w) = let (r, w') = work w in (r, release_lock w')

  unfoldable pub with_lock : {A : Type 0} → ℕ → Run A → Run A
  unfolding acquire_lock finally_release
  with_lock ttl_seconds work w = finally_release work (acquire_lock ttl_seconds w.lock w)

  -- `apply_migrations`
  unfoldable pub apply_migrations : Option String → ℕ → List Migration → Run (List String)
  unfolding with_lock apply_locked
  apply_migrations target ttl_seconds manifest =
      with_lock ttl_seconds (apply_locked target manifest)

  -- the versions that `rollback_migrations` reverts, in the manifest's order
  unfoldable pub later_applied : String → List JournalRow → List Migration → List Migration
  later_applied target journal [] = []
  later_applied target journal (m ∷ ms) =
      let rest = later_applied target journal ms in
      if str_gt m.version target && is_applied (get_entry m.version journal) then m ∷ rest else rest

  unfoldable pub without_script : List Migration → List String
  without_script [] = []
  without_script (m ∷ ms) =
      let rest = without_script ms in
      elim m.rollback [ none ↦ m.version ∷ rest | some script ↦ rest ]

  unfoldable pub revert_with :
      Migration
      → Warehouse D
      → Result {0, 0} String Unit × D
      → Result {0, 0} RunError Unit × Warehouse D
  unfolding record_status
  revert_with m w (ok _, d) = record_status m "rolled_back" "" (record w { tables = d })
  revert_with m w (err e, d) = (err (database_error e), record w { tables = d })

  -- one turn of the loop of `rollback_migrations`; a missing script is an AssertionError
  unfoldable pub revert_one : Migration → Option (List ℕ) → Run Unit
  unfolding revert_with run_sql
  revert_one m none w = (err (database_error "AssertionError"), w)
  revert_one m (some script) w = revert_with m w (run_sql (split_sql_statements script) w.tables)

  unfoldable pub revert_loop : List Migration → Run (List String)
  unfolding revert_one
  revert_loop [] w = (ok [], w)
  revert_loop (m ∷ ms) w =
      (revert_one m m.rollback >> (revert_loop ms >>= λ reverted. pure (m.version ∷ reverted))) w

  unfoldable pub require_scripts : List String → Run Unit
  require_scripts [] w = (ok tt, w)
  require_scripts (v ∷ vs) w = (err (no_rollback (v ∷ vs)), w)

  -- what `rollback_migrations` does while it holds the lock
  unfoldable pub rollback_locked : String → List Migration → Run (List String)
  unfolding no_problems later_applied without_script require_scripts revert_loop
  rollback_locked target manifest w =
      let journal = load_journal w.journal in
      let to_revert = later_applied target journal (reverse manifest) in
      (no_problems (history_problems manifest journal)
          >> (require_scripts (without_script to_revert) >> revert_loop to_revert))
        w

  -- `rollback_migrations`; `is_production` is whether APP_ENV, stripped and case-folded, is one of
  -- PRODUCTION_ENVS.
  unfoldable pub rollback_migrations : String → Bool → Bool → ℕ → List Migration → Run (List String)
  unfolding with_lock rollback_locked
  rollback_migrations target is_production allow_production ttl_seconds manifest w =
      if str_eq target ""
      then (err no_target, w)
      else if is_production && not allow_production
      then (err production, w)
      else with_lock ttl_seconds (rollback_locked target manifest) w
