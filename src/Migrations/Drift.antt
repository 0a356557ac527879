-- ===== src/Migrations/Drift.antt =====
-- A file that differs from what was applied, or is gone, stops every run before it does anything.
use bormo_stats.Base.{
  ℕ, ◌-◌, ◌/◌, ltb, String, ◌≡◌, refl, ap, ◌∙◌, Bool, true, false, not, ◌&&◌, Option, none, some,
  List, [], ◌∷◌, str_eq, if◌then◌else◌, eq_iff, reverse,
}
use bormo_stats.Base.Results.{Result, ok, err, Exec, ◌>>◌}
use bormo_stats.Migrations.Journal.{
  Migration, JournalRow, load_journal, get_entry, find_migration, is_problem, history_problems,
}
use bormo_stats.Migrations.Runs.{
  Warehouse, RunError, lock_held, no_target, production, release_lock, apply_loop, later_applied,
  without_script, require_scripts, revert_loop, create_lock, acquire_lock, no_problems,
  apply_locked, finally_release, with_lock, apply_migrations, rollback_locked, rollback_migrations,
}

-- The manifest disagrees with what the journal says was applied.
abbrev pub HasDrift : List Migration → List JournalRow → Type 0
HasDrift manifest rows =
    (v : String) × (e : JournalRow) × (get_entry v (load_journal rows) ≡ some e)
    × (e.status ≡ "applied")
    × (is_problem e (find_migration e.version manifest) ≡ true)

abbrev is_nil : List String → Bool
is_nil [] = true
is_nil (p ∷ ps) = false

contradiction :
    (f e : JournalRow) (manifest : List Migration)
    → some f ≡ some e
    → str_eq e.status "applied" ≡ true
    → is_problem e (find_migration e.version manifest) ≡ true
    → (str_eq f.status "applied" && is_problem f (find_migration f.version manifest)) ≡ false
    → ⊥
contradiction f e manifest g s k b = cc

problems_of_drift :
    (manifest : List Migration) (es : List JournalRow) (v : String) (e : JournalRow)
    → get_entry v es ≡ some e
    → str_eq e.status "applied" ≡ true
    → is_problem e (find_migration e.version manifest) ≡ true
    → is_nil (history_problems manifest es) ≡ false
unfolding history_problems get_entry
problems_of_drift manifest [] v e h s k = cc
problems_of_drift manifest (f ∷ es) v e h s k =
    by_flags (str_eq v f.version) h
      (str_eq f.status "applied" && is_problem f (find_migration f.version manifest)) refl
      (problems_of_drift manifest es v e)
  where
    by_flags :
        (found : Bool)
        → (if found then some f else get_entry v es) ≡ some e
        → (bad : Bool)
        → (str_eq f.status "applied" && is_problem f (find_migration f.version manifest)) ≡ bad
        → (get_entry v es ≡ some e
            → str_eq e.status "applied" ≡ true
            → is_problem e (find_migration e.version manifest) ≡ true
            → is_nil (history_problems manifest es) ≡ false)
        → is_nil
            (if bad then f.version ∷ history_problems manifest es else history_problems manifest es)
          ≡ false
    by_flags found g true b ih = refl
    by_flags false g false b ih = ih g s k
    by_flags true g false b ih = elim (contradiction f e manifest g s k b) [ ]

module _ {D : Type 0} (command : List ℕ → Exec D String Unit)
    (missing_objects : Migration → D → Option String) (tick : ℕ → ℕ) where
  abbrev pub is_error : {A : Type 0} → Result RunError A → Bool
  is_error (ok a) = false
  is_error (err e) = true

  -- Nothing but the lock may have changed, and an error was raised.
  abbrev pub IsAborted : {A : Type 0} → Warehouse D → Result RunError A × Warehouse D → Type 0
  IsAborted {A} w end =
      (is_error end.0 ≡ true) × (end.1.tables ≡ w.tables) × (end.1.journal ≡ w.journal)

  create_lock-IsAborted :
      {A : Type 0} (work : Warehouse D → Result RunError A × Warehouse D) (w : Warehouse D)
      (fault : Option String)
      → ((v : Warehouse D) → v.journal ≡ w.journal → v.tables ≡ w.tables → IsAborted w (work v))
      → IsAborted w (
          finally_release command missing_objects tick work
            (create_lock command missing_objects tick fault w))
  unfolding finally_release create_lock release_lock
  create_lock-IsAborted work w none h = h (record w { lock = some (w.now / 1000000000) }) refl refl
  create_lock-IsAborted work w (some e) h = (refl, refl, refl)

  with_lock-IsAborted :
      {A : Type 0} (ttl_seconds : ℕ) (work : Warehouse D → Result RunError A × Warehouse D)
      (lock : Option ℕ) (w : Warehouse D)
      → ((v : Warehouse D) → v.journal ≡ w.journal → v.tables ≡ w.tables → IsAborted w (work v))
      → IsAborted w (
          finally_release command missing_objects tick work
            (acquire_lock command missing_objects tick ttl_seconds lock w))
  unfolding finally_release acquire_lock
  with_lock-IsAborted ttl_seconds work none w h =
      create_lock-IsAborted work w (w.lock_fault w.now) h
  with_lock-IsAborted ttl_seconds work (some created) w h =
      by_flag (ltb ttl_seconds (w.now / 1000000000 - created))
    where
      by_flag :
          (stale : Bool)
          → IsAborted w (
              finally_release command missing_objects tick work (
                if stale
                then create_lock command missing_objects tick (w.lock_fault w.now) w
                else (err lock_held, w)))
      by_flag true = create_lock-IsAborted work w (w.lock_fault w.now) h
      by_flag false = (refl, refl, refl)

  no_problems-IsAborted :
      {A : Type 0} (problems : List String) (work : Warehouse D → Result RunError A × Warehouse D)
      (w v : Warehouse D)
      → is_nil problems ≡ false
      → v.journal ≡ w.journal
      → v.tables ≡ w.tables
      → IsAborted w ((no_problems command missing_objects tick problems >> work) v)
  unfolding no_problems
  no_problems-IsAborted [] work w v h j t = cc
  no_problems-IsAborted (p ∷ ps) work w v h j t = (refl, t, j)

  drift_problems :
      (manifest : List Migration) (w v : Warehouse D)
      → HasDrift manifest w.journal
      → v.journal ≡ w.journal
      → is_nil (history_problems manifest (load_journal v.journal)) ≡ false
  drift_problems manifest w v (x, e, found, applied, problem) j =
      ap (λ rows. is_nil (history_problems manifest (load_journal rows))) j
      ∙ problems_of_drift manifest (load_journal w.journal) x e found
          ((eq_iff e.status "applied").1 applied) problem

  -- One branch that only raises, and another one.
  if-IsAborted :
      {A : Type 0} (w : Warehouse D) (e : RunError) (end : Result RunError A × Warehouse D)
      (b : Bool)
      → IsAborted w end
      → IsAborted w (if b then (err e, w) else end)
  if-IsAborted w e end true k = (refl, refl, refl)
  if-IsAborted w e end false k = k

  -- If a version that the journal has as applied is missing on disk, or its file has another
  -- checksum than the recorded one, then apply and rollback both raise and leave the tables and the
  -- journal as they are.
  pub drift_aborts :
      (manifest : List Migration) (w : Warehouse D) (target : Option String)
      (rollback_target : String) (is_production allow_production : Bool) (ttl_seconds : ℕ)
      → HasDrift manifest w.journal
      → IsAborted w (apply_migrations command missing_objects tick target ttl_seconds manifest w)
        × IsAborted w (
            rollback_migrations command missing_objects tick rollback_target is_production
              allow_production ttl_seconds manifest w)
  unfolding apply_migrations rollback_migrations with_lock apply_locked rollback_locked
  drift_aborts manifest w target rollback_target is_production allow_production ttl_seconds drift =
      (
        with_lock-IsAborted ttl_seconds (apply_locked command missing_objects tick target manifest)
            w.lock w
            λ v j t.
              no_problems-IsAborted (history_problems manifest (load_journal v.journal))
                (apply_loop command missing_objects tick target (load_journal v.journal) manifest) w
                v (drift_problems manifest w v drift j) j t,
        if-IsAborted w no_target _ (str_eq rollback_target "") (
            if-IsAborted w production _ (is_production && not allow_production) (
              with_lock-IsAborted ttl_seconds
                (rollback_locked command missing_objects tick rollback_target manifest) w.lock w
                λ v j t.
                  let to_revert =
                    later_applied command missing_objects tick rollback_target
                      (load_journal v.journal) (reverse manifest) in
                  no_problems-IsAborted (history_problems manifest (load_journal v.journal))
                    (require_scripts command missing_objects tick
                        (without_script command missing_objects tick to_revert)
                      >> revert_loop command missing_objects tick to_revert)
                    w v (drift_problems manifest w v drift j) j t)),
      )
