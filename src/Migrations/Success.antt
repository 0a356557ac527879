-- ===== src/Migrations/Success.antt =====
-- A run that succeeds without a target leaves every version of the manifest applied.
use mathlib.Core.Path.{subst}
use bormo_stats.Base.{
  ℕ, ◌<◌, String, ◌≡◌, refl, ap, sym, ◌∙◌, inl, inr, Bool, true, false, Option, none, List, [], ◌∷◌,
  All,
}
use bormo_stats.Base.Results.{Result, ok, err, Exec, ◌>>=◌, ◌>>◌, pure}
use bormo_stats.Migrations.Journal.{
  Migration, JournalRow, load_journal, get_entry, is_applied, history_problems,
}
use bormo_stats.Migrations.Runs.{
  Warehouse, RunError, release_lock, apply_one, baseline, reaches_target, next_version, apply_loop,
  no_problems, apply_locked, apply_migrations,
}
use bormo_stats.Migrations.Applying.{
  entry_of, IsClocked, Keeps, locked, apply_migrations-releases_lock,
}
use bormo_stats.Migrations.Attempt.{baseline_lem, IsSettled, apply_one-IsSettled}

module _ {D : Type 0} (command : List ℕ → Exec D String Unit)
    (missing_objects : Migration → D → Option String) (tick : ℕ → ℕ)
    (forward : (n : ℕ) → n < tick n) where
  abbrev pub IsAllApplied : List Migration → Warehouse D → Type 0
  IsAllApplied ms w =
      All (λ m. is_applied (entry_of command missing_objects tick m.version w) ≡ true) ms

  abbrev IsTimed : Warehouse D → Type 0
  IsTimed w = IsClocked command missing_objects tick w

  abbrev IsKept : Warehouse D → Warehouse D → Type 0
  IsKept w w' = Keeps command missing_objects tick w w'

  -- If the run succeeds, the versions are applied, and no other one lost that status.
  abbrev IsGood :
      Warehouse D → List Migration → Result RunError (List String) × Warehouse D → Type 0
  IsGood w ms end =
      (applied : List String) → end.0 ≡ ok applied → IsAllApplied ms end.1 × IsKept w end.1

  add_first :
      (m : Migration) (ms : List Migration) (w v : Warehouse D)
      (end : Result RunError (List String) × Warehouse D)
      → IsKept w v
      → is_applied (entry_of command missing_objects tick m.version v) ≡ true
      → IsGood v ms end
      → IsGood w (m ∷ ms) (((λ s. end) >>= λ applied. pure (m.version ∷ applied)) v)
  add_first m ms w v (ok rest, u) keeps now good applied e =
      let (all, keep) = good rest refl in ((keep m.version now, all), λ x k. keep x (keeps x k))
  add_first m ms w v (err x, u) keeps now good applied e = cc

  then_rest :
      (m : Migration) (ms : List Migration) (w : Warehouse D)
      (rest : Warehouse D → Result RunError (List String) × Warehouse D)
      (first : Result {0, 0} RunError Unit × Warehouse D)
      → ((v : Warehouse D) → IsTimed v → IsKept w v → IsGood v ms (rest v))
      → IsSettled command missing_objects tick forward m w first
      → IsGood w (m ∷ ms) (((λ s. first) >> (rest >>= λ applied. pure (m.version ∷ applied))) w)
  then_rest m ms w rest (ok x, v) ih (clocked, inl (_, _, keeps, now)) applied e =
      add_first m ms w v (rest v) keeps now (ih v clocked keeps) applied e
  then_rest m ms w rest (ok x, v) ih (clocked, inr (inl (_, raised, _, _))) applied e = cc
  then_rest m ms w rest (ok x, v) ih (clocked, inr (inr (_, _, _, raised, _))) applied e = cc
  then_rest m ms w rest (err x, v) ih settled applied e = cc

  -- After a baseline row, or none.
  then_skip :
      (m : Migration) (ms : List Migration) (w : Warehouse D)
      (rest : Warehouse D → Result RunError (List String) × Warehouse D)
      (first : Result {0, 0} RunError Unit × Warehouse D)
      → is_applied (entry_of command missing_objects tick m.version w) ≡ true
      → ((v : Warehouse D) → IsTimed v → IsKept w v → IsGood v ms (rest v))
      → IsTimed first.1 × IsKept w first.1
      → IsGood w (m ∷ ms) (((λ s. first) >> rest) w)
  then_skip m ms w rest (ok x, v) known ih (clocked, keeps) applied e =
      let (all, keep) = ih v clocked keeps applied e in
      ((keep m.version (keeps m.version known), all), λ x k. keep x (keeps x k))
  then_skip m ms w rest (err x, v) known ih kept applied e = cc

  next_version-IsGood :
      (done : Bool) (m : Migration) (ms : List Migration) (entry : Option JournalRow)
      (w : Warehouse D) (rest : Warehouse D → Result RunError (List String) × Warehouse D)
      → IsTimed w
      → (done ≡ true → is_applied (entry_of command missing_objects tick m.version w) ≡ true)
      → ((v : Warehouse D) → IsTimed v → IsKept w v → IsGood v ms (rest v))
      → IsGood w (m ∷ ms) (next_version command missing_objects tick done false m entry rest w)
  unfolding next_version
  next_version-IsGood true m ms entry w rest clocked known ih applied e =
      then_skip m ms w rest (baseline command missing_objects tick m entry w) (known refl) ih
        (baseline_lem command missing_objects tick forward m entry w clocked) applied e
  next_version-IsGood false m ms entry w rest clocked known ih applied e =
      then_rest m ms w rest (apply_one command missing_objects tick m w) ih
        (apply_one-IsSettled command missing_objects tick forward m w clocked) applied e

  apply_loop-IsGood :
      (journal : List JournalRow) (ms : List Migration) (w : Warehouse D)
      → IsTimed w
      → ((v : String)
          → is_applied (get_entry v journal) ≡ true
          → is_applied (entry_of command missing_objects tick v w) ≡ true)
      → IsGood w ms (apply_loop command missing_objects tick none journal ms w)
  unfolding apply_loop reaches_target
  apply_loop-IsGood journal [] w clocked loaded applied e = (tt, λ x k. k)
  apply_loop-IsGood journal (m ∷ ms) w clocked loaded applied e =
      next_version-IsGood (is_applied (get_entry m.version journal)) m ms
        (get_entry m.version journal) w (apply_loop command missing_objects tick none journal ms)
        clocked (loaded m.version)
        (λ v clocked' keeps. apply_loop-IsGood journal ms v clocked' λ x k. keeps x (loaded x k))
        applied e

  locked_lem :
      (problems : List String) (manifest : List Migration) (w : Warehouse D)
      → IsTimed w
      → IsGood w manifest (
          (no_problems command missing_objects tick problems
              >> apply_loop command missing_objects tick none (load_journal w.journal) manifest)
            w)
  unfolding no_problems
  locked_lem [] manifest w clocked applied e =
      apply_loop-IsGood (load_journal w.journal) manifest w clocked (λ v k. k) applied e
  locked_lem (p ∷ ps) manifest w clocked applied e = cc

  err_not_ok :
      {x : RunError} {a : List String} → ◌≡◌ {A = Result RunError (List String)} (err x) (ok a) → ⊥
  err_not_ok e = cc

  -- A run without a target that succeeds leaves every version of the manifest with "applied" as the
  -- journal's latest status, and takes that status from no version: where the journal's rows were
  -- numbered in the past of the clock, and the clock goes forward with every row.
  pub apply_migrations-IsAllApplied :
      (ttl_seconds : ℕ) (manifest : List Migration) (w : Warehouse D) (applied : List String)
      → IsTimed w
      → (apply_migrations command missing_objects tick none ttl_seconds manifest w).0 ≡ ok applied
      → let end = (apply_migrations command missing_objects tick none ttl_seconds manifest w).1 in
        IsAllApplied manifest end × IsKept w end
  unfolding apply_locked release_lock
  apply_migrations-IsAllApplied ttl_seconds manifest w applied clocked e =
      elim (apply_migrations-releases_lock command missing_objects tick none ttl_seconds manifest
        w) [
          | inl (_, blocked) ↦ elim (err_not_ok (sym (ap (λ p. p.0) blocked) ∙ e)) [ ]
          | inr (inl (_, _, left)) ↦ elim (err_not_ok (sym (ap (λ p. p.0) left) ∙ e)) [ ]
          | inr (inr ((r, after), _)) ↦
              subst (λ v. IsAllApplied manifest v × IsKept w v) (sym after)
                (locked_lem (history_problems manifest (load_journal w.journal)) manifest
                  (locked command missing_objects tick w) clocked applied (sym r ∙ e))
        ]
