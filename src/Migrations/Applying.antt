-- ===== src/Migrations/Applying.antt =====
-- Runs of `apply_migrations`: what a run finds and leaves of the lock, and what the journal says of
-- a version.
use bormo_stats.Base.{
  ℕ, ◌-◌, ◌/◌, String, ◌≡◌, refl, ap, ◌⊎◌, inl, inr, Bool, true, false, Option, none, some, List,
  ltb, if◌then◌else◌,
}
use bormo_stats.Base.Results.{Result, err, Exec}
use bormo_stats.Migrations.Journal.{Migration, JournalRow, load_journal, get_entry, is_applied}
use bormo_stats.Migrations.Runs.{
  Warehouse, RunError, database_error, lock_held, create_lock, acquire_lock, release_lock,
  apply_locked, finally_release, with_lock, apply_migrations,
}
use bormo_stats.Migrations.Latest.{AllBefore}

module _ {D : Type 0} (command : List ℕ → Exec D String Unit)
    (missing_objects : Migration → D → Option String) (tick : ℕ → ℕ) where
  -- the latest status of a version
  abbrev pub entry_of : String → Warehouse D → Option JournalRow
  entry_of v w = get_entry v (load_journal w.journal)

  abbrev pub IsClocked : Warehouse D → Type 0
  IsClocked w = AllBefore w.now w.journal

  -- The warehouse with the lock taken.
  abbrev pub locked : Warehouse D → Warehouse D
  locked w = record w { lock = some (w.now / 1000000000) }

  -- The work was done under the lock, which was dropped afterwards.
  abbrev pub IsWorked :
      {A : Type 0}
      → (Warehouse D → Result RunError A × Warehouse D)
      → Warehouse D
      → Result RunError A × Warehouse D
      → Type 0
  IsWorked work w end =
      (end.0 ≡ (work (locked w)).0)
      × (end.1 ≡ release_lock command missing_objects tick (work (locked w)).1)

  -- Another run holds a lock that is not older than the limit.
  abbrev pub IsBlocked : ℕ → Option ℕ → ℕ → Type 0
  IsBlocked ttl_seconds lock now =
      (created : ℕ) × (lock ≡ some created) × (ltb ttl_seconds (now / 1000000000 - created) ≡ false)

  -- The INSERT into the new lock table raised: the table stays, and nothing else changed.
  abbrev pub IsLeftLocked : {A : Type 0} → Warehouse D → Result RunError A × Warehouse D → Type 0
  IsLeftLocked w end =
      (e : String) × (w.lock_fault w.now ≡ some e) × (end ≡ (err (database_error e), locked w))

  created_lem :
      {A : Type 0} (work : Warehouse D → Result RunError A × Warehouse D) (w : Warehouse D)
      (fault : Option String)
      → w.lock_fault w.now ≡ fault
      → let end =
          finally_release command missing_objects tick work
            (create_lock command missing_objects tick fault w) in
        IsLeftLocked w end ⊎ IsWorked work w end
  unfolding finally_release create_lock
  created_lem work w none e = inr (refl, refl)
  created_lem work w (some x) e = inl (x, e, refl)

  finally_release_lem :
      {A : Type 0} (ttl_seconds : ℕ) (work : Warehouse D → Result RunError A × Warehouse D)
      (lock : Option ℕ) (w : Warehouse D)
      → let end =
          finally_release command missing_objects tick work
            (acquire_lock command missing_objects tick ttl_seconds lock w) in
        (IsBlocked ttl_seconds lock w.now × (end ≡ (err lock_held, w)))
        ⊎ (IsLeftLocked w end ⊎ IsWorked work w end)
  unfolding finally_release acquire_lock
  finally_release_lem ttl_seconds work none w = inr (created_lem work w (w.lock_fault w.now) refl)
  finally_release_lem ttl_seconds work (some created) w =
      by_flag (ltb ttl_seconds (w.now / 1000000000 - created)) refl
    where
      by_flag :
          (stale : Bool)
          → ltb ttl_seconds (w.now / 1000000000 - created) ≡ stale
          → let end = finally_release command missing_objects tick work (
              if stale
              then create_lock command missing_objects tick (w.lock_fault w.now) w
              else (err lock_held, w)) in
            (IsBlocked ttl_seconds (some created) w.now × (end ≡ (err lock_held, w)))
            ⊎ (IsLeftLocked w end ⊎ IsWorked work w end)
      by_flag true e = inr (created_lem work w (w.lock_fault w.now) refl)
      by_flag false e = inl ((created, refl, e), refl)

  -- A run has one of three ends. It finds a lock that another run took no longer ago than the
  -- limit, raises and changes nothing; or the INSERT into the lock table that it created raises, and
  -- so does the run, which leaves that table in place and changes nothing else; or it works under
  -- the lock and drops it at its end, also where the work raises. CREATE and DROP of the lock table
  -- are taken to succeed.
  pub apply_migrations-releases_lock :
      (target : Option String) (ttl_seconds : ℕ) (manifest : List Migration) (w : Warehouse D)
      → let end = apply_migrations command missing_objects tick target ttl_seconds manifest w in
        (IsBlocked ttl_seconds w.lock w.now × (end ≡ (err lock_held, w)))
        ⊎ (IsLeftLocked w end
            ⊎ (IsWorked (apply_locked command missing_objects tick target manifest) w end
                × (end.1.lock ≡ none)))
  unfolding apply_migrations with_lock release_lock
  apply_migrations-releases_lock target ttl_seconds manifest w =
      elim (finally_release_lem ttl_seconds
        (apply_locked command missing_objects tick target manifest) w.lock w) [
          | inl h ↦ inl h
          | inr (inl h) ↦ inr (inl h)
          | inr (inr h) ↦ inr (inr (h, ap (λ v. v.lock) h.1))
        ]

  -- Every version that is applied in the one warehouse is applied in the other.
  abbrev pub Keeps : Warehouse D → Warehouse D → Type 0
  Keeps w w' = (v : String) → is_applied (entry_of v w) ≡ true → is_applied (entry_of v w') ≡ true
