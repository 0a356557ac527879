-- ===== src/Actions/Tests.antt =====
-- Runs of the ledger at concrete attempts, and the theorems at them.
use bormo_stats.Base.{
  ℕ, ◌+◌, ◌≤◌, String, ◌≡◌, refl, true, false, inl, inr, Option, none, some, List, [], ◌∷◌, arith,
}
use bormo_stats.Base.Results.{Result, ok, err}
use bormo_stats.Actions.Settings.{actions_enabled, max_actions_per_run}
use bormo_stats.Actions.Rows.{
  Status, ActionResult, PlannedAction, Platform, idempotency_key, already_recorded,
}
use bormo_stats.Actions.Defs.{written, lost, Attempt, execute_action}
use bormo_stats.Actions.Ledger.{unrefused_of, calls_of, pendings, failures}
use bormo_stats.Actions.Execute.{execute_action-repeat}
use bormo_stats.Actions.Runs.{
  empty_world, run, at_most_one_unrefused, two_phase, run-quiet, open_call_skipped,
}

-- Prices in whole rubles, and a hash that is the text itself.
abbrev platform : Platform ℕ
platform = record { format_2 = λ n. "price"; sha256 = λ s. s }

abbrev change : PlannedAction ℕ
change = record {
  organization_id = "org";
  source = "repricer";
  rule_id = "r1";
  marketplace = "wb";
  account_id = "a";
  target_type = "price";
  target_id = "42";
  before_value = some 100;
  after_value = 110;
  dry_run = false;
}

abbrev attempt : Option (Result ℕ ActionResult) → Attempt ℕ ℕ
attempt executor = record {
  action = change;
  day = "2026-01-31";
  marker_id = "id1";
  marker_time = 10;
  record_id = "id2";
  record_time = 11;
  enabled_setting = some "true";
  query_fault = none;
  marker_fault = written;
  record_fault = written;
  executor = executor;
}

abbrev accepted : ActionResult
accepted = record { ok = true; status_code = 200; body = "{}" }

abbrev refused : ActionResult
refused = record { ok = false; status_code = 409; body = "busy" }

-- The key of all these attempts.
abbrev key : String
key = idempotency_key platform change "2026-01-31"

-- Refused, then accepted with the last row lost, then tried again.
abbrev history : List (Attempt ℕ ℕ)
history =
    attempt (some (ok refused))
    ∷ record (attempt (some (ok accepted))) { record_fault = lost 7 }
    ∷ attempt (some (ok accepted))
    ∷ []

setting_reads : max_actions_per_run (some " 1_2 ") ≡ 12
unfolding max_actions_per_run
setting_reads = refl

setting_negative : max_actions_per_run (some "-5") ≡ 1
unfolding max_actions_per_run
setting_negative = refl

-- The long s folds to s, so this text turns the switch on, as in Python.
switch_folds : actions_enabled (some " Yeſ ") ≡ true
unfolding actions_enabled
switch_folds = refl

at_most_one_unrefused_example : unrefused_of key (run platform history empty_world) ≤ 1
at_most_one_unrefused_example = at_most_one_unrefused platform key history

two_phase_example :
    let w = run platform history empty_world in
    (calls_of key w ≤ pendings key w) × (failures key w + unrefused_of key w ≤ calls_of key w)
two_phase_example = two_phase platform key history

run-quiet_example :
    (run platform
      (record (attempt (some (ok accepted))) { enabled_setting = none } ∷ [])
      empty_world).calls
    ≡ []
unfolding actions_enabled
run-quiet_example =
    run-quiet platform (record (attempt (some (ok accepted))) { enabled_setting = none } ∷ [])
      empty_world (inr (inl refl), tt)

open_call_skipped_example :
    execute_action platform (attempt none) (run platform (attempt (some (err 3)) ∷ []) empty_world)
    ≡ (ok Status.skipped_duplicate, run platform (attempt (some (err 3)) ∷ []) empty_world)
unfolding run execute_action already_recorded actions_enabled idempotency_key
open_call_skipped_example =
    open_call_skipped platform (attempt (some (err 3)) ∷ []) (attempt none) refl (omega arith)

execute_action-repeat_example :
    execute_action platform
      (attempt none)
      (execute_action platform (attempt (some (ok accepted))) empty_world).1
    ≡ (
      ok Status.skipped_duplicate,
      (execute_action platform (attempt (some (ok accepted))) empty_world).1,
    )
unfolding execute_action actions_enabled already_recorded
execute_action-repeat_example =
    execute_action-repeat platform (attempt (some (ok accepted))) (attempt none) Status.applied
      empty_world refl refl refl refl
