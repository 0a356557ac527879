-- ===== src/Actions/Ledger.antt =====
-- The counts that the ledger and the log of calls keep of one key, and how an insert and a call
-- move them.
use bormo_stats.Base.{
  ℕ, ◌+◌, ◌≤◌, ◌<◌, String, ◌≡◌, Bool, true, false, not, ◌&&◌, ◌||◌, List, [], ◌∷◌, ◌++◌, arith,
  str_eq, if◌then◌else◌, count_if, count_if-append, Option, Bool-cases, inl, inr, none, some,
  eq_refl,
}
use bormo_stats.Base.Results.{Result, ok, err, ◌>>◌}
use bormo_stats.Actions.Rows.{
  Status, Row, ActionResult, is_pending, is_failed, is_done, count_status, already_recorded,
}
use bormo_stats.Actions.Defs.{
  Fault, written, lost, lost_answer, World, insert, make_row, Attempt, finish, execute_live,
  call_and_finish, execute_with, execute_new,
}

-- A call whose executor reports a failure (`ok=False`). The clients also report a timeout so.
abbrev pub is_refused : {E : Type 0} → Result E ActionResult → Bool
is_refused (ok r) = not r.ok
is_refused (err e) = false

-- A new row counts for its own key only.
pub count_status-write :
    {Num : Type 0} (p : Status → Bool) (k : String) (rows : List (Row Num)) (row : Row Num)
    → count_status p k (rows ++ row ∷ [])
      ≡ count_status p k rows + (if str_eq row.idempotency_key k && p row.status then 1 else 0)
count_status-write p k rows row = rw count_if-append (omega arith)

module _ {E Num : Type 0} where
  -- all calls that reached the marketplace with the key
  abbrev pub calls_of : String → World E Num → ℕ
  calls_of k w = count_if (λ c. str_eq c.key k) w.calls

  -- those that were not reported as failed: accepted, or raised out of the executor
  abbrev pub unrefused_of : String → World E Num → ℕ
  unrefused_of k w = count_if (λ c. str_eq c.key k && not (is_refused c.reply)) w.calls

  abbrev pub pendings : String → World E Num → ℕ
  pendings k w = count_status is_pending k w.ledger

  abbrev pub failures : String → World E Num → ℕ
  failures k w = count_status is_failed k w.ledger

  -- What holds of one key between two attempts: every call has its marker, every `failed` row its
  -- call that was reported as failed, and at most one call was not reported so.
  pub record IsConsistent (k : String) (w : World E Num) : Type 0 where
    pub marked : calls_of k w ≤ pendings k w
    pub closed : failures k w + unrefused_of k w ≤ calls_of k w
    pub single : unrefused_of k w ≤ 1

  -- A row that is neither a marker nor a failure, or that belongs to another key, changes nothing.
  write-IsConsistent :
      (k : String) (w : World E Num) (row : Row Num)
      → str_eq row.idempotency_key k && (is_pending row.status || is_failed row.status) ≡ false
      → IsConsistent k w
      → IsConsistent k (record w { ledger = w.ledger ++ row ∷ [] })
  write-IsConsistent k w row h c = ground (
    arith,
    count_status-write is_pending k w.ledger row,
    count_status-write is_failed k w.ledger row,
  )

  finish-IsConsistent :
      (k : String) (t : Attempt E Num) (key : String) (s : Status) (r : Option ActionResult)
      (w : World E Num)
      → str_eq key k && (is_pending s || is_failed s) ≡ false
      → IsConsistent k w
      → IsConsistent k (finish t key s r w).1
  unfolding finish
  finish-IsConsistent k t key s none w h c =
      ground
        (arith, write-IsConsistent k w (make_row t.record_id t.record_time t.action key s none))
  finish-IsConsistent k t key s (some r) w h c =
      ground
        (arith, write-IsConsistent k w (make_row t.record_id t.record_time t.action key s (some r)))

  -- The row of a call that was reported as failed closes that call.
  finish_failed-IsConsistent :
      (k : String) (t : Attempt E Num) (key : String) (r : ActionResult) (w : World E Num)
      → failures k w + unrefused_of k w + (if str_eq key k then 1 else 0) ≤ calls_of k w
      → IsConsistent k w
      → IsConsistent k (finish t key Status.failed (some r) w).1
  unfolding finish
  finish_failed-IsConsistent k t key r w h c =
      let row = make_row t.record_id t.record_time t.action key Status.failed (some r) in
      ground (
        arith,
        count_status-write is_pending k w.ledger row,
        count_status-write is_failed k w.ledger row,
      )

  abbrev log : String → Result E ActionResult → World E Num → World E Num
  log key reply w = record w { calls = w.calls ++ record { key = key; reply = reply } ∷ [] }

  calls_of-log :
      (k key : String) (reply : Result E ActionResult) (w : World E Num)
      → calls_of k (log key reply w) ≡ calls_of k w + (if str_eq key k then 1 else 0)
  calls_of-log k key reply w = rw count_if-append (omega arith)

  unrefused_of-log :
      (k key : String) (reply : Result E ActionResult) (w : World E Num)
      → unrefused_of k (log key reply w)
        ≡ unrefused_of k w + (if str_eq key k && not (is_refused reply) then 1 else 0)
  unrefused_of-log k key reply w = rw count_if-append (omega arith)

  call_and_finish-IsConsistent :
      (k : String) (t : Attempt E Num) (key : String) (reply : Result E ActionResult)
      (w : World E Num)
      → (if str_eq key k then unrefused_of k w else 0) ≡ 0
      → calls_of k w + (if str_eq key k then 1 else 0) ≤ pendings k w
      → IsConsistent k w
      → IsConsistent k (call_and_finish t key reply w).1
  unfolding call_and_finish
  call_and_finish-IsConsistent k t key (err e) w h m c =
      ground (arith, calls_of-log k key (err e) w, unrefused_of-log k key (err e) w)
  call_and_finish-IsConsistent k t key (ok r) w h m c = elim (Bool-cases r.ok) [
    | inl accepted ↦ simp accepted (
        finish-IsConsistent k t key Status.applied (some r) (log key (ok r) w) (ground arith)
          logged)
    | inr refused ↦ simp refused (
        finish_failed-IsConsistent k t key r (log key (ok r) w)
          (ground (arith, calls_of-log k key (ok r) w, unrefused_of-log k key (ok r) w)) logged)
  ]
    where
      logged : IsConsistent k (log key (ok r) w)
      logged = ground (arith, calls_of-log k key (ok r) w, unrefused_of-log k key (ok r) w)

  execute_live-IsConsistent :
      (k : String) (t : Attempt E Num) (key : String) (reply : Result E ActionResult)
      (w : World E Num)
      → (if str_eq key k then unrefused_of k w else 0) ≡ 0
      → IsConsistent k w
      → IsConsistent k (execute_live t key reply w).1
  unfolding execute_live
  execute_live-IsConsistent k t key reply w h c = from t.marker_fault
    where
      marker : Row Num
      marker = make_row t.marker_id t.marker_time t.action key Status.pending none

      marked : IsConsistent k (record w { ledger = w.ledger ++ marker ∷ [] })
      marked = ground (
        arith,
        count_status-write is_pending k w.ledger marker,
        count_status-write is_failed k w.ledger marker,
      )

      from : (f : Fault E) → IsConsistent k ((insert f marker >> call_and_finish t key reply) w).1
      from written =
          call_and_finish-IsConsistent k t key reply (record w { ledger = w.ledger ++ marker ∷ [] })
            (ground arith) (ground (arith, count_status-write is_pending k w.ledger marker)) marked
      from (lost e) = c
      from (lost_answer e) = marked

  -- A key that the ledger does not hold yet had no call but those reported as failed.
  pub unrecorded_lem :
      (k : String) (w : World E Num)
      → already_recorded w.ledger k ≡ false
      → IsConsistent k w
      → unrefused_of k w ≡ 0
  unfolding already_recorded
  unrecorded_lem k w h c = ground arith

  pub execute_new-IsConsistent :
      (k : String) (t : Attempt E Num) (key : String) (w : World E Num)
      → (if str_eq key k then unrefused_of k w else 0) ≡ 0
      → IsConsistent k w
      → IsConsistent k (execute_new t key w).1
  unfolding execute_new
  execute_new-IsConsistent k t key w h c = ground (
    arith,
    finish-IsConsistent k t key Status.simulated none w,
    finish-IsConsistent k t key Status.blocked_kill_switch none w,
    executed t.executor,
  )
    where
      executed : (x : Option (Result E ActionResult)) → IsConsistent k (execute_with t key x w).1
      executed none = finish-IsConsistent k t key Status.unsupported none w (ground arith) c
      executed (some reply) = execute_live-IsConsistent k t key reply w h c

  -- The marker of a call without a `failed` row is still open.
  pub open_call-recorded :
      (k : String) (w : World E Num)
      → IsConsistent k w
      → failures k w < calls_of k w
      → already_recorded w.ledger k ≡ true
  unfolding already_recorded
  open_call-recorded k w c h = ground arith

  -- A marker with its `failed` row leaves a free key free.
  pub closed_marker-free :
      (t : Attempt E Num) (r : ActionResult) (k : String) (w : World E Num)
      → IsConsistent k w
      → already_recorded w.ledger k ≡ false
      → already_recorded
          ((w.ledger ++ make_row t.marker_id t.marker_time t.action k Status.pending none ∷ [])
            ++ make_row t.record_id t.record_time t.action k Status.failed (some r) ∷ [])
          k
        ≡ false
  unfolding already_recorded make_row
  closed_marker-free t r k w c h =
      let marker = make_row t.marker_id t.marker_time t.action k Status.pending none in
      let row = make_row t.record_id t.record_time t.action k Status.failed (some r) in
      let rows = w.ledger ++ marker ∷ [] in
      ground (
        arith,
        eq_refl k,
        count_status-write is_done k w.ledger marker,
        count_status-write is_done k rows row,
        count_status-write is_pending k w.ledger marker,
        count_status-write is_pending k rows row,
        count_status-write is_failed k w.ledger marker,
        count_status-write is_failed k rows row,
      )
