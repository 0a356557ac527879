-- ===== src/Actions/Append.antt =====
-- The ledger of marketplace writes is append-only.
use bormo_stats.Base.{
  String, ◌≡◌, refl, sym, ◌∙◌, List, [], ◌∷◌, ◌++◌, arith, if◌then◌else◌, Option, none, some,
  Option-cases, Bool-cases, inl, inr, append-nil, append_assoc,
}
use bormo_stats.Base.Results.{Result, ok, err, ◌>>◌}
use bormo_stats.Actions.Settings.{actions_enabled}
use bormo_stats.Actions.Rows.{
  Status, Row, ActionResult, Platform, idempotency_key, already_recorded,
}
use bormo_stats.Actions.Defs.{
  Fault, written, lost, lost_answer, World, insert, make_row, Attempt, finish, call_and_finish,
  execute_live, execute_with, execute_new, execute_keyed, execute_action,
}

module _ {E Num : Type 0} where
  -- The rows that the parts of an attempt write.
  abbrev pub Extends : World E Num → World E Num → Type 0
  Extends w w' = (rows : List (Row Num)) × (w'.ledger ≡ w.ledger ++ rows)

  Extends-refl : (w : World E Num) → Extends w w
  Extends-refl w = ([], sym (append-nil w.ledger))

  insert-Extends : (f : Fault E) (row : Row Num) (w : World E Num) → Extends w (insert f row w).1
  unfolding insert
  insert-Extends written row w = (row ∷ [], refl)
  insert-Extends (lost e) row w = Extends-refl w
  insert-Extends (lost_answer e) row w = (row ∷ [], refl)

  finish-state :
      (t : Attempt E Num) (key : String) (s : Status) (r : Option ActionResult) (w : World E Num)
      → (finish t key s r w).1
        ≡ (insert t.record_fault (make_row t.record_id t.record_time t.action key s r) w).1
  unfolding finish
  finish-state t key s r w = ground arith

  finish-Extends :
      (t : Attempt E Num) (key : String) (s : Status) (r : Option ActionResult) (w : World E Num)
      → Extends w (finish t key s r w).1
  finish-Extends t key s r w = rw finish-state (insert-Extends t.record_fault _ w)

  live-Extends :
      (t : Attempt E Num) (key : String) (reply : Result E ActionResult) (w : World E Num)
      → Extends w (execute_live t key reply w).1
  unfolding execute_live
  live-Extends t key reply w = from t.marker_fault reply
    where
      marker : Row Num
      marker = make_row t.marker_id t.marker_time t.action key Status.pending none

      from :
          (f : Fault E) (y : Result E ActionResult)
          → Extends w ((insert f marker >> call_and_finish t key y) w).1
      from written (ok r) =
          let (rows, e) =
            finish-Extends t key (if r.ok then Status.applied else Status.failed) (some r) (record {
              ledger = w.ledger ++ marker ∷ [];
              calls = w.calls ++ record { key = key; reply = ok r } ∷ [];
            }) in
          (marker ∷ rows, e ∙ append_assoc w.ledger (marker ∷ []) rows)
      from written (err x) = (marker ∷ [], refl)
      from (lost x) y = Extends-refl w
      from (lost_answer x) y = (marker ∷ [], refl)

  new-Extends :
      (t : Attempt E Num) (key : String) (w : World E Num) → Extends w (execute_new t key w).1
  unfolding execute_new
  new-Extends t key w = elim (Bool-cases t.action.dry_run) [
    | inl dry ↦ simp dry (finish-Extends t key Status.simulated none w)
    | inr live ↦ elim (Bool-cases (actions_enabled t.enabled_setting)) [
      | inl on ↦ simp (live, on) (executed t.executor)
      | inr off ↦ simp (live, off) (finish-Extends t key Status.blocked_kill_switch none w)
    ]
  ]
    where
      executed : (x : Option (Result E ActionResult)) → Extends w (execute_with t key x w).1
      executed none = finish-Extends t key Status.unsupported none w
      executed (some reply) = live-Extends t key reply w

  keyed-Extends :
      (t : Attempt E Num) (key : String) (w : World E Num) → Extends w (execute_keyed t key w).1
  unfolding execute_keyed
  keyed-Extends t key w = elim (Option-cases t.query_fault) [
    | inl none_raised ↦ elim (Bool-cases (already_recorded w.ledger key)) [
      | inl old ↦ simp (none_raised, old) (Extends-refl w)
      | inr new ↦ simp (none_raised, new) (new-Extends t key w)
    ]
    | inr (e, raised) ↦ simp raised (Extends-refl w)
  ]

  -- An attempt only appends to the ledger.
  pub ledger-execute_action :
      (p : Platform Num) (t : Attempt E Num) (w : World E Num) → Extends w (execute_action p t w).1
  unfolding execute_action
  ledger-execute_action p t w = keyed-Extends t (idempotency_key p t.action t.day) w
