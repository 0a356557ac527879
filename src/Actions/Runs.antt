-- ===== src/Actions/Runs.antt =====
-- Whole histories: any number of attempts, with any faults, over one ledger.
use bormo_stats.Base.{
  ◌+◌, ◌≤◌, ◌<◌, String, ◌≡◌, refl, sym, ap, true, false, List, [], ◌∷◌, ◌++◌, arith, none, some,
  All, append-nil, append_assoc, ◌∙◌,
}
use bormo_stats.Base.Results.{ok}
use bormo_stats.Actions.Settings.{actions_enabled}
use bormo_stats.Actions.Rows.{
  Status, Row, ActionResult, Platform, idempotency_key, already_recorded,
}
use bormo_stats.Actions.Defs.{
  written, World, make_row, Attempt, execute_live, execute_with, execute_new, execute_keyed,
  execute_action,
}
use bormo_stats.Actions.Ledger.{
  open_call-recorded, closed_marker-free, IsConsistent, unrefused_of, calls_of, pendings, failures,
}
use bormo_stats.Actions.Execute.{
  IsQuiet, execute_action-quiet, execute_action-IsConsistent, recorded-repeat,
}
use bormo_stats.Actions.Append.{ledger-execute_action}

abbrev pub empty_world : {E Num : Type 0} → World E Num
empty_world = record { ledger = []; calls = [] }

module _ {E Num : Type 0} (p : Platform Num) where
  -- The attempts one after another; an exception ends its own attempt only.
  unfoldable pub run : List (Attempt E Num) → World E Num → World E Num
  run [] w = w
  run (t ∷ ts) w = run ts (execute_action p t w).1

  run-IsConsistent :
      (k : String) (ts : List (Attempt E Num)) (w : World E Num)
      → IsConsistent k w
      → IsConsistent k (run ts w)
  unfolding run
  run-IsConsistent k [] w c = c
  run-IsConsistent k (t ∷ ts) w c =
      run-IsConsistent k ts (execute_action p t w).1 (execute_action-IsConsistent p k t w c)

  -- Over any history, with any database faults and any replies, at most one call with a given
  -- idempotency key was accepted or raised out of its executor. A call that its executor reports
  -- as failed (`ok=False`), as the clients report a timeout too, is not counted: its key may be
  -- tried again.
  pub at_most_one_unrefused :
      (k : String) (ts : List (Attempt E Num)) → unrefused_of k (run ts empty_world) ≤ 1
  at_most_one_unrefused k ts = (run-IsConsistent k ts empty_world (omega arith)).single

  -- Over any history no call reaches the marketplace without its own `pending` row, and every
  -- `failed` row belongs to a call that its executor reported as failed.
  pub two_phase :
      (k : String) (ts : List (Attempt E Num))
      → let w = run ts empty_world in
        (calls_of k w ≤ pendings k w) × (failures k w + unrefused_of k w ≤ calls_of k w)
  two_phase k ts = let c = run-IsConsistent k ts empty_world (omega arith) in (c.marked, c.closed)

  -- A history of dry runs, of attempts under the kill switch and of attempts with no executor
  -- leaves the marketplace untouched.
  pub run-quiet :
      (ts : List (Attempt E Num)) (w : World E Num) → All IsQuiet ts → (run ts w).calls ≡ w.calls
  unfolding run
  run-quiet [] w q = refl
  run-quiet (t ∷ ts) w q =
      run-quiet ts (execute_action p t w).1 q.1 ∙ execute_action-quiet p t w q.0

  -- After any history in which some call with the attempt's key has no `failed` row, the attempt is
  -- skipped, where its query of the ledger works: nothing is called and nothing is written. Such a
  -- call was accepted, or raised, or its worker died before it wrote a row, whatever the reply. A
  -- call that was reported as failed, and whose `failed` row was written, is not covered.
  pub open_call_skipped :
      (ts : List (Attempt E Num)) (t : Attempt E Num)
      → t.query_fault ≡ none
      → failures (idempotency_key p t.action t.day) (run ts empty_world)
        < calls_of (idempotency_key p t.action t.day) (run ts empty_world)
      → execute_action p t (run ts empty_world) ≡ (ok Status.skipped_duplicate, run ts empty_world)
  unfolding execute_action
  open_call_skipped ts t q h =
      let key = idempotency_key p t.action t.day in
      let w = run ts empty_world in
      recorded-repeat t key w q
        (open_call-recorded key w (run-IsConsistent key ts empty_world (omega arith)) h)

  -- The ledger is append-only: every history extends it.
  pub ledger-run :
      (ts : List (Attempt E Num)) (w : World E Num)
      → (rows : List (Row Num)) × ((run ts w).ledger ≡ w.ledger ++ rows)
  unfolding run
  ledger-run [] w = ([], sym (append-nil _))
  ledger-run (t ∷ ts) w =
      let (old, e) = ledger-execute_action p t w in
      let (new, f) = ledger-run ts (execute_action p t w).1 in
      (old ++ new, f ∙ ap (λ l. l ++ new) e ∙ append_assoc w.ledger old new)

  refused_writes :
      (t : Attempt E Num) (r : ActionResult) (key : String) (w : World E Num)
      → t.marker_fault ≡ written
      → t.record_fault ≡ written
      → r.ok ≡ false
      → execute_live t key (ok r) w ≡ (
        ok Status.failed,
        record {
          ledger =
              (w.ledger ++ make_row t.marker_id t.marker_time t.action key Status.pending none ∷ [])
              ++ make_row t.record_id t.record_time t.action key Status.failed (some r) ∷ [];
          calls = w.calls ++ record { key = key; reply = ok r } ∷ [];
        },
      )
  unfolding execute_live
  refused_writes t r key w m n refused = simp (m, n, refused)

  -- A live change that its executor reports as failed, with the switch on and both rows written, ends as
  -- `failed` and leaves its key free, after any history that had left it free: it may be retried.
  pub refused-retry :
      (ts : List (Attempt E Num)) (t : Attempt E Num) (r : ActionResult)
      → t.query_fault ≡ none
      → t.marker_fault ≡ written
      → t.record_fault ≡ written
      → t.executor ≡ some (ok r)
      → r.ok ≡ false
      → t.action.dry_run ≡ false
      → actions_enabled t.enabled_setting ≡ true
      → already_recorded (run ts empty_world).ledger (idempotency_key p t.action t.day) ≡ false
      → let (reply, w) = execute_action p t (run ts empty_world) in
        (reply ≡ ok Status.failed)
        × (already_recorded w.ledger (idempotency_key p t.action t.day) ≡ false)
  unfolding execute_action execute_keyed execute_new execute_with
  refused-retry ts t r q m n x refused live on free =
      let key = idempotency_key p t.action t.day in
      let w = run ts empty_world in
      simp (q, free, live, on, x, refused_writes t r key w m n refused)
        (
          refl,
          closed_marker-free t r key w (run-IsConsistent key ts empty_world (omega arith)) free,
        )
