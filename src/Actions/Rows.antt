-- ===== src/Actions/Rows.antt =====
-- What a planned change holds, the rows of `sys_marketplace_actions`, and the counts over them.
use Prim.Native.String.{◌++◌ as str_append}
use bormo_stats.Base.{
  ℕ, String, Bool, true, false, ◌&&◌, ◌||◌, Option, List, [], ◌∷◌, if◌then◌else◌, str_eq, ltb,
  count_if,
}

-- The statuses that the ledger holds, and the one that a skipped change returns.
pub data Status : Type 0 where
  simulated blocked_kill_switch pending applied confirmed failed unsupported : Status
  skipped_duplicate : Status

-- `collectors.marketplace_actions.ActionResult`
pub record ActionResult : Type 0 where
  pub ok : Bool
  pub status_code : ℕ
  pub body : String

-- The values (prices and bids) are floats of the type `Num`.
pub record PlannedAction (Num : Type 0) : Type 0 where
  pub organization_id : String
  pub source : String
  pub rule_id : String
  pub marketplace : String
  pub account_id : String
  pub target_type : String
  pub target_id : String
  pub before_value : Option Num
  pub after_value : Num
  pub dry_run : Bool

-- `"|".join(parts)`
unfoldable pub join_bar : List String → String
join_bar [] = ""
join_bar (s ∷ []) = s
join_bar (s ∷ t ∷ ts) = str_append s (str_append "|" (join_bar (t ∷ ts)))

-- The platform's part of the key: `f"{value:.2f}"` and the hexadecimal SHA-256 of a text.
pub record Platform (Num : Type 0) : Type 0 where
  pub format_2 : Num → String
  pub sha256 : String → String

-- `PlannedAction.idempotency_key`, on the UTC day
unfoldable pub idempotency_key : {Num : Type 0} → Platform Num → PlannedAction Num → String → String
unfolding join_bar
idempotency_key p a day = p.sha256 (
    join_bar (
      a.source
      ∷ a.rule_id
      ∷ a.marketplace
      ∷ a.account_id
      ∷ a.target_type
      ∷ a.target_id
      ∷ p.format_2 a.after_value
      ∷ (if a.dry_run then "dry" else "live")
      ∷ day
      ∷ []))

-- One row; the response columns are the reply's, or 0 and "".
pub record Row (Num : Type 0) : Type 0 where
  pub action_id : String
  pub action : PlannedAction Num
  pub status : Status
  pub response_status : ℕ
  pub response_body : String
  pub idempotency_key : String
  pub created_at : ℕ

abbrev pub is_pending : Status → Bool
is_pending Status.pending = true
is_pending _ = false

abbrev pub is_failed : Status → Bool
is_failed Status.failed = true
is_failed _ = false

-- the statuses of the query's `done` array
abbrev pub is_done : Status → Bool
is_done Status.simulated = true
is_done Status.blocked_kill_switch = true
is_done Status.applied = true
is_done Status.confirmed = true
is_done _ = false

module _ {Num : Type 0} where
  -- `countIf(…) … WHERE idempotency_key = {key}`
  abbrev pub count_status : (Status → Bool) → String → List (Row Num) → ℕ
  count_status p key rows = count_if (λ r. str_eq r.idempotency_key key && p r.status) rows

  -- `_already_recorded`: the query's answer
  unfoldable pub already_recorded : List (Row Num) → String → Bool
  already_recorded rows key =
      ltb 0 (count_status is_done key rows)
      || ltb (count_status is_failed key rows) (count_status is_pending key rows)
