-- ===== src/Actions/Defs.antt =====
-- `execute_action`: one planned change against the ledger and the marketplace.
use bormo_stats.Base.{ℕ, String, Bool, not, Option, none, some, List, [], ◌∷◌, ◌++◌, if◌then◌else◌}
use bormo_stats.Base.Results.{Result, ok, err, Exec, ◌>>=◌, ◌>>◌, pure}
use bormo_stats.Actions.Settings.{actions_enabled}
use bormo_stats.Actions.Rows.{
  Status, ActionResult, PlannedAction, Platform, idempotency_key, Row, already_recorded,
}

-- How one insert goes: it is written, it raises with nothing written, or it raises although the
-- row was written (a lost answer).
pub data Fault (E : Type 0) : Type 0 where
  written : Fault E
  lost : E → Fault E
  lost_answer : E → Fault E

-- A call that reached the marketplace: the key of its action, and the reply or the exception.
pub record MarketplaceCall (E : Type 0) : Type 0 where
  pub key : String
  pub reply : Result E ActionResult

pub record World (E Num : Type 0) : Type 0 where
  pub ledger : List (Row Num)
  pub calls : List (MarketplaceCall E)

-- What one attempt meets: the clock, the fresh row ids, the environment variable, the fate of its
-- database calls, and what its executor would get (`none` where there is no executor).
pub record Attempt (E Num : Type 0) : Type 0 where
  pub action : PlannedAction Num
  pub day : String
  pub marker_id : String
  pub marker_time : ℕ
  pub record_id : String
  pub record_time : ℕ
  pub enabled_setting : Option String
  pub query_fault : Option E
  pub marker_fault : Fault E
  pub record_fault : Fault E
  pub executor : Option (Result E ActionResult)

-- The row that `_record` builds.
unfoldable pub make_row :
    {Num : Type 0}
    → String
    → ℕ
    → PlannedAction Num
    → String
    → Status
    → Option ActionResult
    → Row Num
make_row id now action key status none = record {
  action_id = id;
  action = action;
  status = status;
  response_status = 0;
  response_body = "";
  idempotency_key = key;
  created_at = now;
}
make_row id now action key status (some r) = record {
  action_id = id;
  action = action;
  status = status;
  response_status = r.status_code;
  response_body = r.body;
  idempotency_key = key;
  created_at = now;
}

module _ {E Num : Type 0} where
  -- `_record`: one INSERT
  unfoldable pub insert : Fault E → Row Num → Exec (World E Num) E (Unit {0})
  insert written row w = (ok tt, record w { ledger = w.ledger ++ row ∷ [] })
  insert (lost e) row w = (err e, w)
  insert (lost_answer e) row w = (err e, record w { ledger = w.ledger ++ row ∷ [] })

  unfoldable pub query_recorded : Option E → String → Exec (World E Num) E Bool
  query_recorded none key w = (ok (already_recorded w.ledger key), w)
  query_recorded (some e) key w = (err e, w)

  -- `executor()`: the call reaches the marketplace whatever becomes of its answer.
  unfoldable pub call : String → Result E ActionResult → Exec (World E Num) E ActionResult
  call key reply w =
      (reply, record w { calls = w.calls ++ record { key = key; reply = reply } ∷ [] })

  -- the last `_record` and the returned status
  unfoldable pub finish :
      Attempt E Num → String → Status → Option ActionResult → Exec (World E Num) E Status
  unfolding insert make_row
  finish t key status result = do
    insert t.record_fault (make_row t.record_id t.record_time t.action key status result)
    pure status

  -- the status of a reply, and its row
  unfoldable pub call_and_finish :
      Attempt E Num → String → Result E ActionResult → Exec (World E Num) E Status
  unfolding call finish
  call_and_finish t key reply = do
    result ← call key reply
    finish t key (if result.ok then Status.applied else Status.failed) (some result)

  -- the branch that calls the marketplace, behind its `pending` marker
  unfoldable pub execute_live :
      Attempt E Num → String → Result E ActionResult → Exec (World E Num) E Status
  unfolding insert make_row call_and_finish
  execute_live t key reply = do
    insert t.marker_fault (make_row t.marker_id t.marker_time t.action key Status.pending none)
    call_and_finish t key reply

  unfoldable pub execute_with :
      Attempt E Num → String → Option (Result E ActionResult) → Exec (World E Num) E Status
  unfolding finish execute_live
  execute_with t key none = finish t key Status.unsupported none
  execute_with t key (some reply) = execute_live t key reply

  -- the branches of a change that is not recorded yet
  unfoldable pub execute_new : Attempt E Num → String → Exec (World E Num) E Status
  unfolding finish execute_with
  execute_new t key =
      if t.action.dry_run
      then finish t key Status.simulated none
      else if not (actions_enabled t.enabled_setting)
      then finish t key Status.blocked_kill_switch none
      else execute_with t key t.executor

  unfoldable pub execute_keyed : Attempt E Num → String → Exec (World E Num) E Status
  unfolding query_recorded execute_new
  execute_keyed t key = do
    recorded ← query_recorded t.query_fault key
    if recorded then pure Status.skipped_duplicate else execute_new t key

  unfoldable pub execute_action : Platform Num → Attempt E Num → Exec (World E Num) E Status
  unfolding execute_keyed
  execute_action p t = execute_keyed t (idempotency_key p t.action t.day)
