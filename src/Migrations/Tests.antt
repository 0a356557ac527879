-- ===== src/Migrations/Tests.antt =====
-- Texts and runs at concrete inputs, and the theorems at them.
use bormo_stats.Base.{
  if◌then◌else◌, ℕ, suc, ◌<◌, ◌==◌, String, ◌≡◌, refl, ◌⊎◌, true, false, Option, none, some, List,
  [], ◌∷◌, arith,
}
use bormo_stats.Base.Results.{ok, err, Exec}
use bormo_stats.Base.Text.{codes_eq, codes, strip}
use bormo_stats.Migrations.Statements.{split_sql_statements, scan, start}
use bormo_stats.Migrations.Splitting.{
  is_closed, ends_in_dash, split_sql_statements-append, split_sql_statements-skips_comments,
}
use bormo_stats.Migrations.Journal.{
  Migration, load_journal, get_entry, find_migration, is_problem, history_problems,
}
use bormo_stats.Migrations.Objects.{Patterns, verify_postconditions, expected_objects}
use bormo_stats.Migrations.Runs.{
  Warehouse, lock_held, database_error, apply_one, apply_locked, apply_migrations,
  rollback_migrations,
}
use bormo_stats.Migrations.Applying.{
  Keeps, IsWorked, IsBlocked, IsLeftLocked, apply_migrations-releases_lock,
}
use bormo_stats.Migrations.Attempt.{IsSettled, apply_one-IsSettled}
use bormo_stats.Migrations.Success.{IsAllApplied, apply_migrations-IsAllApplied}
use bormo_stats.Migrations.Drift.{HasDrift, IsAborted, drift_aborts}

two_statements :
    split_sql_statements (codes "SELECT ';' -- a; b\n; DROP x")
    ≡ some (codes "SELECT ';'" ∷ codes "DROP x" ∷ [])
unfolding split_sql_statements strip
two_statements = refl

quoted : split_sql_statements (codes "SELECT '--;'") ≡ some (codes "SELECT '--;'" ∷ [])
unfolding split_sql_statements strip
quoted = refl

one_quoted : split_sql_statements (codes "A ';'") ≡ some (codes "A ';'" ∷ [])
unfolding split_sql_statements strip
one_quoted = refl

one_plain : split_sql_statements (codes " B") ≡ some (codes "B" ∷ [])
unfolding split_sql_statements strip
one_plain = refl

closed : is_closed (codes "A ';'") ≡ true
unfolding is_closed scan
closed = refl

split_sql_statements-append_example :
    split_sql_statements (codes "A ';'; B") ≡ some (codes "A ';'" ∷ codes "B" ∷ [])
split_sql_statements-append_example =
    split_sql_statements-append (codes "A ';'") (codes " B") (codes "A ';'" ∷ []) (codes "B" ∷ [])
      closed one_quoted one_plain

no_dash : ends_in_dash (scan (codes "A ';'") start) ≡ false
unfolding scan
no_dash = refl

split_sql_statements-skips_comments_example :
    split_sql_statements (codes "A ';'-- it's\nB") ≡ split_sql_statements (codes "A ';'\nB")
split_sql_statements-skips_comments_example =
    split_sql_statements-skips_comments (codes "A ';'") (codes " it's") (codes "B") closed no_dash
      (refl, (refl, (refl, (refl, (refl, tt)))))

-- The tables count the statements that ran; a statement "F" fails.
abbrev command : List ℕ → Exec ℕ String Unit
command statement d = elim statement [
  | [] ↦ (ok tt, d)
  | c ∷ cs ↦ if c == 70 then (err "failed", d) else (ok tt, suc d)
]

abbrev missing_objects : Migration → ℕ → Option String
missing_objects m d = none

abbrev tick : ℕ → ℕ
tick n = suc n

tick_forward : (n : ℕ) → n < tick n
tick_forward n = ground arith

abbrev first : Migration
first = record { version = "0001"; sql = codes "A; B"; checksum = "c1"; rollback = none }

abbrev second : Migration
second = record { version = "0002"; sql = codes "C"; checksum = "c2"; rollback = none }

abbrev manifest : List Migration
manifest = first ∷ second ∷ []

abbrev empty : Warehouse ℕ
empty = record {
  tables = 0;
  journal = [];
  lock = none;
  now = 5000000000;
  journal_fault = λ n. none;
  lock_fault = λ n. none;
}

both_applied :
    (apply_migrations command missing_objects tick none 1800 manifest empty).0
    ≡ ok ("0001" ∷ "0002" ∷ [])
unfolding apply_migrations apply_locked strip split_sql_statements load_journal get_entry
    history_problems
both_applied = refl

abbrev after_both : Warehouse ℕ
after_both = (apply_migrations command missing_objects tick none 1800 manifest empty).1

apply_migrations-IsAllApplied_example :
    IsAllApplied command missing_objects tick tick_forward manifest after_both
    × Keeps command missing_objects tick empty after_both
apply_migrations-IsAllApplied_example =
    apply_migrations-IsAllApplied command missing_objects tick tick_forward 1800 manifest empty
      ("0001" ∷ "0002" ∷ []) tt both_applied

apply_one-IsSettled_example :
    IsSettled command missing_objects tick tick_forward first empty
      (apply_one command missing_objects tick first empty)
apply_one-IsSettled_example =
    apply_one-IsSettled command missing_objects tick tick_forward first empty tt

apply_migrations-releases_lock_example :
    (IsBlocked command missing_objects tick 1800 none 5000000000
      × (apply_migrations command missing_objects tick none 1800 manifest empty
          ≡ (err lock_held, empty)))
    ⊎ (IsLeftLocked command missing_objects tick empty
          (apply_migrations command missing_objects tick none 1800 manifest empty)
        ⊎ (IsWorked command missing_objects tick
              (apply_locked command missing_objects tick none manifest)
              empty
              (apply_migrations command missing_objects tick none 1800 manifest empty)
            × (after_both.lock ≡ none)))
apply_migrations-releases_lock_example =
    apply_migrations-releases_lock command missing_objects tick none 1800 manifest empty

-- The row that should say "applied" cannot be written: the version keeps the status "started".
stays_started :
    (apply_one command missing_objects tick first
      (record empty { journal_fault = λ n. if n == 5000000001 then some "timeout" else none })).0
    ≡ err (database_error "timeout")
unfolding apply_one strip split_sql_statements
stays_started = refl

-- The INSERT into the lock table fails: the lock stays.
left_locked :
    apply_migrations command missing_objects tick none 1800 manifest
      (record empty { lock_fault = λ n. some "timeout" })
    ≡ (
      err (database_error "timeout"),
      record empty { lock_fault = λ n. some "timeout"; lock = some 5 },
    )
unfolding apply_migrations
left_locked = refl

-- The first version was applied from another text.
abbrev drifted : Warehouse ℕ
drifted = record {
  tables = 2;
  journal =
      record { version = "0001"; checksum = "c0"; status = "applied"; seq = 7; error = "" } ∷ [];
  lock = none;
  now = 5000000000;
  journal_fault = λ n. none;
  lock_fault = λ n. none;
}

has_drift : HasDrift manifest drifted.journal
unfolding load_journal get_entry find_migration is_problem
has_drift = (
  "0001",
  record { version = "0001"; checksum = "c0"; status = "applied"; seq = 7; error = "" },
  refl,
  refl,
  refl,
)

drift_aborts_example :
    IsAborted command missing_objects tick drifted
      (apply_migrations command missing_objects tick none 1800 manifest drifted)
    × IsAborted command missing_objects tick drifted
        (rollback_migrations command missing_objects tick "0000" false false 1800 manifest drifted)
drift_aborts_example =
    drift_aborts command missing_objects tick manifest drifted none "0000" false false 1800
      has_drift

-- Patterns that read the letter after "CREATE TABLE " as a table.
abbrev patterns : Patterns
patterns = record {
  create_table = λ s. if codes_eq s (codes "CREATE TABLE a") then "a" ∷ [] else "b" ∷ [];
  drop_table = λ s. some "b";
  renames = λ s. [];
  add_column = λ s. [];
  upper = λ s. s;
}

abbrev creates : Migration
creates = record {
  version = "0003";
  sql = codes "CREATE TABLE a; CREATE TABLE b; DROP TABLE b";
  checksum = "c3";
  rollback = none;
}

only_a : (expected_objects patterns creates.sql).tables ≡ "a" ∷ []
unfolding expected_objects split_sql_statements strip codes_eq
only_a = refl

a_exists : verify_postconditions patterns (λ (d : ℕ). "z" ∷ "a" ∷ []) (λ d. []) creates 0 ≡ none
unfolding verify_postconditions split_sql_statements strip codes_eq
a_exists = refl
