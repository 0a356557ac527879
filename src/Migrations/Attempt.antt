-- ===== src/Migrations/Attempt.antt =====
-- `_apply_one`: how an attempt to apply one migration ends, and what the journal says then.
use bormo_stats.Base.{
  ℕ, ◌<◌, String, ◌≡◌, refl, ◌⊎◌, inl, inr, Bool, true, false, Option, none, some, List, str_eq,
  if◌then◌else◌, arith, eq_refl,
}
use bormo_stats.Base.Results.{Result, ok, err, Exec, ◌>>◌, raise}
use bormo_stats.Migrations.Journal.{Migration, JournalRow, is_applied}
use bormo_stats.Migrations.Runs.{
  Warehouse, RunError, database_error, error_text, insert_row, insert_with, record_status,
  try_migration, settle, apply_one, baseline,
}
use bormo_stats.Migrations.Latest.{recorded, get-insert_row, insert_row-AllBefore, later_rows}
use bormo_stats.Migrations.Applying.{entry_of, IsClocked, Keeps}
use bormo_stats.Migrations.Trying.{IsMigrated, IsFailure, IsTried, tried_lem}

module _ {D : Type 0} (command : List ℕ → Exec D String Unit)
    (missing_objects : Migration → D → Option String) (tick : ℕ → ℕ)
    (forward : (n : ℕ) → n < tick n) where
  abbrev IsTimed : Warehouse D → Type 0
  IsTimed w = IsClocked command missing_objects tick w

  abbrev IsKept : Warehouse D → Warehouse D → Type 0
  IsKept w w' = Keeps command missing_objects tick w w'

  abbrev entry : String → Warehouse D → Option JournalRow
  entry v w = entry_of command missing_objects tick v w

  abbrev inserted : Migration → String → String → Warehouse D → Warehouse D
  inserted m status error w = insert_row command missing_objects tick m status error w

  abbrev waited : Warehouse D → Warehouse D
  waited w = record w { now = tick w.now }

  waited-IsTimed : (w : Warehouse D) → IsTimed w → IsTimed (waited w)
  waited-IsTimed w h = later_rows w.now (tick w.now) w.journal (forward w.now) h

  inserted-IsTimed :
      (m : Migration) (status error : String) (w : Warehouse D)
      → IsTimed w
      → IsTimed (inserted m status error w)
  inserted-IsTimed m status error w h =
      insert_row-AllBefore command missing_objects tick m status error w forward h

  inserted_now :
      (m : Migration) (status error : String) (w : Warehouse D)
      → IsTimed w
      → entry m.version (inserted m status error w)
        ≡ some (recorded command missing_objects tick m status error w)
  inserted_now m status error w h = ground (
    arith,
    get-insert_row command missing_objects tick m status error w m.version h,
    eq_refl m.version,
  )

  applied_now :
      (m : Migration) (w : Warehouse D)
      → IsTimed w
      → is_applied (entry m.version (inserted m "applied" "" w)) ≡ true
  applied_now m w h = ground (
    arith,
    get-insert_row command missing_objects tick m "applied" "" w m.version h,
    eq_refl m.version,
  )

  applied-IsKept :
      (m : Migration) (w : Warehouse D) → IsTimed w → IsKept w (inserted m "applied" "" w)
  applied-IsKept m w h v k =
      ground (arith, get-insert_row command missing_objects tick m "applied" "" w v h, k)

  -- A baseline row takes the status "applied" from no version.
  pub baseline_lem :
      (m : Migration) (e : Option JournalRow) (w : Warehouse D)
      → IsTimed w
      → let end = baseline command missing_objects tick m e w in IsTimed end.1 × IsKept w end.1
  unfolding baseline record_status insert_with
  baseline_lem m none w h = (h, λ v k. k)
  baseline_lem m (some e) w h = by_flag (str_eq e.checksum "") (w.journal_fault w.now)
    where
      by_flag :
          (b : Bool) (fault : Option String)
          → let end =
              if b
              then insert_with command missing_objects tick fault m "applied" "" w
              else (ok tt, w) in
            IsTimed end.1 × IsKept w end.1
      by_flag true none = (inserted-IsTimed m "applied" "" w h, applied-IsKept m w h)
      by_flag true (some x) = (waited-IsTimed w h, λ v k. k)
      by_flag false fault = (h, λ v k. k)

  -- The attempt succeeded, and its version has the status "applied", which no version lost.
  abbrev pub IsApplied :
      Migration → Warehouse D → Result {0, 0} RunError Unit × Warehouse D → Type 0
  IsApplied m w end =
      (end.0 ≡ ok tt)
      × IsMigrated command missing_objects tick m w.tables end.1.tables
      × IsKept w end.1
      × (is_applied (entry m.version end.1) ≡ true)

  -- The attempt failed and raised its error, and its version has the status "failed" with the
  -- error's text.
  abbrev pub IsFailed : Migration → Warehouse D → Result {0, 0} RunError Unit × Warehouse D → Type 0
  IsFailed m w end =
      (x : RunError) × (end.0 ≡ err x)
      × IsFailure command missing_objects tick m w.tables end.1.tables x
      × ((row : JournalRow) × (entry m.version end.1 ≡ some row)
          × (row.status ≡ "failed")
          × (row.error ≡ error_text x))

  -- A row could not be written, and its error was raised: either the first one, and nothing was
  -- done, or the last one, and the version has the status "started".
  abbrev pub IsUnrecorded :
      Migration → Warehouse D → Result {0, 0} RunError Unit × Warehouse D → Type 0
  IsUnrecorded m w end =
      (n : ℕ) × (e : String) × (w.journal_fault n ≡ some e)
      × (end.0 ≡ err (database_error e))
      × (((end.1.tables ≡ w.tables) × (end.1.journal ≡ w.journal))
          ⊎ ((row : JournalRow) × (entry m.version end.1 ≡ some row) × (row.status ≡ "started")))

  abbrev pub IsSettled :
      Migration → Warehouse D → Result {0, 0} RunError Unit × Warehouse D → Type 0
  IsSettled m w end =
      IsTimed end.1 × (IsApplied m w end ⊎ (IsFailed m w end ⊎ IsUnrecorded m w end))

  -- Between the two records of an attempt, whatever its statements did to the tables.
  abbrev attempt : Migration → Warehouse D → D → Warehouse D
  attempt m w d = record (inserted m "started" "" w) { tables = d }

  attempt_then_applied-IsKept :
      (m : Migration) (w : Warehouse D) (d : D)
      → IsTimed w
      → IsKept w (inserted m "applied" "" (attempt m w d))
  attempt_then_applied-IsKept m w d h v k = ground (
    arith,
    get-insert_row command missing_objects tick m "applied" "" (attempt m w d) v
        (inserted-IsTimed m "started" "" w h),
    get-insert_row command missing_objects tick m "started" "" w v h,
    k,
  )

  unrecorded_end :
      (m : Migration) (w : Warehouse D) (d : D) (e : String)
      → IsTimed w
      → w.journal_fault (tick w.now) ≡ some e
      → IsSettled m w (err (database_error e), waited (attempt m w d))
  unrecorded_end m w d e h f = (
    waited-IsTimed (attempt m w d) (inserted-IsTimed m "started" "" w h),
    inr (
        inr (
          tick w.now,
          e,
          f,
          refl,
          inr (
            recorded command missing_objects tick m "started" "" w,
            inserted_now m "started" "" w h,
            refl,
          ),
        )),
  )

  settle-IsSettled :
      (m : Migration) (w : Warehouse D) (end : Result {0, 0} RunError Unit × D)
      → IsTimed w
      → IsTried command missing_objects tick m w.tables end
      → IsSettled m w (settle command missing_objects tick m end (inserted m "started" "" w))
  unfolding settle record_status insert_row insert_with
  settle-IsSettled m w (ok u, d) h tried = by_fault (w.journal_fault (tick w.now)) refl
    where
      clocked : IsTimed (attempt m w d)
      clocked = inserted-IsTimed m "started" "" w h

      by_fault :
          (fault : Option String)
          → w.journal_fault (tick w.now) ≡ fault
          → IsSettled m w
              (insert_with command missing_objects tick fault m "applied" "" (attempt m w d))
      by_fault none f = (
        inserted-IsTimed m "applied" "" (attempt m w d) clocked,
        inl (
          refl,
          tried,
          attempt_then_applied-IsKept m w d h,
          applied_now m (attempt m w d) clocked,
        ),
      )
      by_fault (some e) f = unrecorded_end m w d e h f
  settle-IsSettled m w (err x, d) h tried = by_fault (w.journal_fault (tick w.now)) refl
    where
      clocked : IsTimed (attempt m w d)
      clocked = inserted-IsTimed m "started" "" w h

      by_fault :
          (fault : Option String)
          → w.journal_fault (tick w.now) ≡ fault
          → IsSettled m w (
              (insert_with command missing_objects tick fault m "failed" (error_text x) >> raise x)
                (attempt m w d))
      by_fault none f = (
        inserted-IsTimed m "failed" (error_text x) (attempt m w d) clocked,
        inr (
            inl (
              x,
              refl,
              tried,
              (
                recorded command missing_objects tick m "failed" (error_text x) (attempt m w d),
                inserted_now m "failed" (error_text x) (attempt m w d) clocked,
                refl,
                refl,
              ),
            )),
      )
      by_fault (some e) f = unrecorded_end m w d e h f

  -- An attempt to apply a migration has one of three ends. All its statements ran, the objects that
  -- it promises are there, it succeeds, and its version has the status "applied", which no other
  -- version lost. Or a statement failed, after the effect of those before it, or the splitter did,
  -- or a promised object is missing after all of them: it raises this error, and its version has
  -- the status "failed" with the error's text. Or an INSERT into the journal raised, and so does
  -- the attempt: with nothing done where it was the first one, and with the status "started" where
  -- it was the last. This holds where the journal's rows were numbered in the past of the clock
  -- and the clock goes forward with every row; the rows stay numbered so.
  pub apply_one-IsSettled :
      (m : Migration) (w : Warehouse D)
      → IsTimed w
      → IsSettled m w (apply_one command missing_objects tick m w)
  unfolding apply_one record_status insert_with insert_row
  apply_one-IsSettled m w h = by_fault (w.journal_fault w.now) refl
    where
      by_fault :
          (fault : Option String)
          → w.journal_fault w.now ≡ fault
          → IsSettled m w (
              (insert_with command missing_objects tick fault m "started" "" >> λ started.
              settle command missing_objects tick m
                (try_migration command missing_objects tick m started.tables)
                started)
                w)
      by_fault none f =
          settle-IsSettled m w (try_migration command missing_objects tick m w.tables) h
            (tried_lem command missing_objects tick m w.tables)
      by_fault (some e) f = (waited-IsTimed w h, inr (inr (w.now, e, f, refl, inl (refl, refl))))
