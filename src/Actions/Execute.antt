-- ===== src/Actions/Execute.antt =====
-- What one `execute_action` does: which changes reach the marketplace, what a repeat returns, and
-- what is appended to the ledger.
use bormo_stats.Base.{
  String, ◌≡◌, true, false, arith, if◌then◌else◌, Option, none, some, eq_iff, eq_refl, inl, inr,
  ◌⊎◌,
}
use bormo_stats.Base.Results.{Result, ok, err, ◌>>◌}
use bormo_stats.Actions.Settings.{actions_enabled}
use bormo_stats.Actions.Rows.{
  Status, Row, ActionResult, Platform, idempotency_key, is_done, already_recorded,
}
use bormo_stats.Actions.Defs.{
  Fault, written, lost, lost_answer, World, insert, make_row, Attempt, finish, call_and_finish,
  execute_live, execute_with, execute_new, execute_keyed, execute_action,
}
use bormo_stats.Actions.Ledger.{
  IsConsistent, count_status-write, unrecorded_lem, execute_new-IsConsistent,
}

-- A change that must not reach the marketplace.
abbrev pub IsQuiet : {E Num : Type 0} → Attempt E Num → Type 0
IsQuiet t =
    (t.action.dry_run ≡ true) ⊎ (actions_enabled t.enabled_setting ≡ false) ⊎ (t.executor ≡ none)

module _ {E Num : Type 0} where
  finish-calls :
      (t : Attempt E Num) (key : String) (s : Status) (r : Option ActionResult) (w : World E Num)
      → (finish t key s r w).1.calls ≡ w.calls
  unfolding finish
  finish-calls t key s r w = ground arith

  execute_new-calls :
      (t : Attempt E Num) (key : String) (w : World E Num)
      → IsQuiet t
      → (execute_new t key w).1.calls ≡ w.calls
  unfolding execute_new execute_with
  execute_new-calls t key w (inl h) = simp h (finish-calls t key Status.simulated none w)
  execute_new-calls t key w (inr (inl h)) = ground (
    arith,
    finish-calls t key Status.simulated none w,
    finish-calls t key Status.blocked_kill_switch none w,
  )
  execute_new-calls t key w (inr (inr h)) = ground (
    arith,
    finish-calls t key Status.simulated none w,
    finish-calls t key Status.blocked_kill_switch none w,
    finish-calls t key Status.unsupported none w,
  )

  -- A dry-run change, one under the kill switch and one without an executor never reach the
  -- marketplace, whatever the database does.
  pub execute_action-quiet :
      (p : Platform Num) (t : Attempt E Num) (w : World E Num)
      → IsQuiet t
      → (execute_action p t w).1.calls ≡ w.calls
  unfolding execute_action
  execute_action-quiet p t w q =
      ground (arith, execute_new-calls t (idempotency_key p t.action t.day) w q)

  execute_keyed-IsConsistent :
      (k : String) (t : Attempt E Num) (key : String) (w : World E Num)
      → IsConsistent k w
      → IsConsistent k (execute_keyed t key w).1
  unfolding execute_keyed
  execute_keyed-IsConsistent k t key w c =
      ground (arith, eq_iff key k, unrecorded_lem k w, execute_new-IsConsistent k t key w)

  pub execute_action-IsConsistent :
      (p : Platform Num) (k : String) (t : Attempt E Num) (w : World E Num)
      → IsConsistent k w
      → IsConsistent k (execute_action p t w).1
  unfolding execute_action
  execute_action-IsConsistent p k t w c =
      execute_keyed-IsConsistent k t (idempotency_key p t.action t.day) w c

  pub recorded-repeat :
      (t : Attempt E Num) (key : String) (w : World E Num)
      → t.query_fault ≡ none
      → already_recorded w.ledger key ≡ true
      → execute_keyed t key w ≡ (ok Status.skipped_duplicate, w)
  unfolding execute_keyed
  recorded-repeat t key w q h = ground arith

  finish-recorded :
      (t : Attempt E Num) (key : String) (s s' : Status) (r : Option ActionResult) (w : World E Num)
      → is_done s ≡ true
      → (finish t key s r w).0 ≡ ok s'
      → already_recorded (finish t key s r w).1.ledger key ≡ true
  unfolding finish already_recorded
  finish-recorded t key s s' none w d e =
      let row = make_row t.record_id t.record_time t.action key s none in
      ground (arith, eq_refl key, count_status-write is_done key w.ledger row)
  finish-recorded t key s s' (some r) w d e =
      let row = make_row t.record_id t.record_time t.action key s (some r) in
      ground (arith, eq_refl key, count_status-write is_done key w.ledger row)

  -- The status that a step returns is the one that it was given.
  finish-status :
      (t : Attempt E Num) (key : String) (s s' : Status) (r : Option ActionResult) (w : World E Num)
      → (finish t key s r w).0 ≡ ok s'
      → s ≡ s'
  unfolding finish
  finish-status t key s s' r w e = ground arith

  finish_done :
      (t : Attempt E Num) (key : String) (s s' : Status) (r : Option ActionResult) (w : World E Num)
      → is_done s' ≡ true
      → (finish t key s r w).0 ≡ ok s'
      → already_recorded (finish t key s r w).1.ledger key ≡ true
  finish_done t key s s' r w d e =
      finish-recorded t key s s' r w (rw (finish-status t key s s' r w e) d) e

  live_done :
      (t : Attempt E Num) (key : String) (s : Status) (reply : Result E ActionResult)
      (w : World E Num)
      → is_done s ≡ true
      → (execute_live t key reply w).0 ≡ ok s
      → already_recorded (execute_live t key reply w).1.ledger key ≡ true
  unfolding execute_live
  live_done t key s reply w d = from t.marker_fault reply
    where
      marker : Row Num
      marker = make_row t.marker_id t.marker_time t.action key Status.pending none

      from :
          (f : Fault E) (y : Result E ActionResult)
          → ((insert f marker >> call_and_finish t key y) w).0 ≡ ok s
          → already_recorded ((insert f marker >> call_and_finish t key y) w).1.ledger key ≡ true
      from written (ok r) e =
          finish_done t key (if r.ok then Status.applied else Status.failed) s (some r) _ d e
      from written (err x) e = cc
      from (lost x) y e = cc
      from (lost_answer x) y e = cc

  new_done :
      (t : Attempt E Num) (key : String) (s : Status) (w : World E Num)
      → is_done s ≡ true
      → (execute_new t key w).0 ≡ ok s
      → already_recorded (execute_new t key w).1.ledger key ≡ true
  unfolding execute_new
  new_done t key s w d = ground (
    arith,
    finish_done t key Status.simulated s none w d,
    finish_done t key Status.blocked_kill_switch s none w d,
    executed t.executor,
  )
    where
      executed :
          (x : Option (Result E ActionResult))
          → (execute_with t key x w).0 ≡ ok s
          → already_recorded (execute_with t key x w).1.ledger key ≡ true
      executed none = finish_done t key Status.unsupported s none w d
      executed (some reply) = live_done t key s reply w d

  keyed_done :
      (t : Attempt E Num) (key : String) (s : Status) (w : World E Num)
      → is_done s ≡ true
      → (execute_keyed t key w).0 ≡ ok s
      → already_recorded (execute_keyed t key w).1.ledger key ≡ true
  unfolding execute_keyed
  keyed_done t key s w d e = ground (arith, new_done t key s w d)

  -- Once a change was simulated, blocked or applied, a repeat with its key is skipped and changes
  -- neither the ledger nor the marketplace.
  pub execute_action-repeat :
      (p : Platform Num) (t u : Attempt E Num) (s : Status) (w : World E Num)
      → is_done s ≡ true
      → (execute_action p t w).0 ≡ ok s
      → u.query_fault ≡ none
      → idempotency_key p u.action u.day ≡ idempotency_key p t.action t.day
      → execute_action p u (execute_action p t w).1
        ≡ (ok Status.skipped_duplicate, (execute_action p t w).1)
  unfolding execute_action
  execute_action-repeat p t u s w d e q k = simp k (
      recorded-repeat u (idempotency_key p t.action t.day)
        (execute_keyed t (idempotency_key p t.action t.day) w).1 q
        (keyed_done t (idempotency_key p t.action t.day) s w d e))
