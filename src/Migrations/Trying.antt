-- ===== src/Migrations/Trying.antt =====
-- The `try` block of `_apply_one`: what it does to the tables, and what it raises.
use bormo_stats.Base.{ℕ, String, ◌≡◌, refl, ◌⊎◌, inl, inr, Option, none, some, List}
use bormo_stats.Base.Results.{Result, ok, err, Exec, ◌>>◌}
use bormo_stats.Migrations.Statements.{split_sql_statements}
use bormo_stats.Migrations.Journal.{Migration}
use bormo_stats.Migrations.Runs.{
  RunError, database_error, objects_missing, run_statements, run_sql, check_objects, raise_as,
  try_migration,
}

module _ {D : Type 0} (command : List ℕ → Exec D String Unit)
    (missing_objects : Migration → D → Option String) (tick : ℕ → ℕ) where
  -- All statements ran, with this effect on the tables, and the promised objects are there.
  abbrev pub IsMigrated : Migration → D → D → Type 0
  IsMigrated m d d' =
      (statements : List (List ℕ)) × (split_sql_statements m.sql ≡ some statements)
      × (run_statements command missing_objects tick statements d ≡ (ok tt, d'))
      × (missing_objects m d' ≡ none)

  -- The error is the splitter's, or that of the statement that failed, after the effect of those
  -- before it; or all statements ran and it names the objects that are missing.
  abbrev pub IsFailure : Migration → D → D → RunError → Type 0
  IsFailure m d d' x =
      ((split_sql_statements m.sql ≡ none) × (x ≡ database_error "IndexError") × (d' ≡ d))
      ⊎ ((statements : List (List ℕ)) × (split_sql_statements m.sql ≡ some statements)
          × (((e : String) × (run_statements command missing_objects tick statements d
                  ≡ (err e, d'))
                × (x ≡ database_error e))
              ⊎ ((e : String) × (run_statements command missing_objects tick statements d
                    ≡ (ok tt, d'))
                  × (missing_objects m d' ≡ some e)
                  × (x ≡ objects_missing e))))

  abbrev pub IsTried : Migration → D → Result {0, 0} RunError Unit × D → Type 0
  IsTried m d (ok u, d') = IsMigrated m d d'
  IsTried m d (err x, d') = IsFailure m d d' x

  pub tried_lem :
      (m : Migration) (d : D) → IsTried m d (try_migration command missing_objects tick m d)
  unfolding try_migration run_sql check_objects
  tried_lem m d = by_split (split_sql_statements m.sql) refl
    where
      after_check :
          (statements : List (List ℕ)) (d' : D) (missing : Option String)
          → split_sql_statements m.sql ≡ some statements
          → run_statements command missing_objects tick statements d ≡ (ok tt, d')
          → missing_objects m d' ≡ missing
          → IsTried m d (
              raise_as command missing_objects tick objects_missing
                (check_objects command missing_objects tick missing d'))
      after_check statements d' none s r e = (statements, s, r, e)
      after_check statements d' (some x) s r e = inr (statements, s, inr (x, r, e, refl))

      after_run :
          (statements : List (List ℕ)) (end : Result {0, 0} String Unit × D)
          → split_sql_statements m.sql ≡ some statements
          → run_statements command missing_objects tick statements d ≡ end
          → IsTried m d (
              ((λ s. raise_as command missing_objects tick database_error end) >> λ d'.
              raise_as command missing_objects tick objects_missing
                (check_objects command missing_objects tick (missing_objects m d') d'))
                d)
      after_run statements (ok u, d') s r =
          after_check statements d' (missing_objects m d') s r refl
      after_run statements (err e, d') s r = inr (statements, s, inl (e, r, refl))

      by_split :
          (split : Option (List (List ℕ)))
          → split_sql_statements m.sql ≡ split
          → IsTried m d (
              ((λ s.
                    raise_as command missing_objects tick database_error
                      (run_sql command missing_objects tick split s))
                  >> λ d'.
                      raise_as command missing_objects tick objects_missing
                        (check_objects command missing_objects tick (missing_objects m d') d'))
                d)
      by_split none s = inl (s, refl, refl)
      by_split (some statements) s =
          after_run statements (run_statements command missing_objects tick statements d) s refl
