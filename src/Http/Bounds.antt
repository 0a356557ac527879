-- ===== src/Http/Bounds.antt =====
-- A whole request: how it ends, how many requests it sends, and what it does to the circuit.
use bormo_stats.Base.{
  ℕ, zero, suc, ◌+◌, ◌≤◌, ◌<◌, String, ◌≡◌, refl, Bool, false, ◌||◌, Option, none, some, List, [],
  arith, length,
}
use bormo_stats.Base.Results.{err}
use bormo_stats.Http.Circuit.{Config, Client, check_circuit}
use bormo_stats.Http.Request.{
  circuit_open, Exchange, Attempt, stop, again, attempt_once, Done, request_loop, request,
  add_sleep, prepend,
}
use bormo_stats.Http.Breaker.{Effect, RaisesOnError, attempt-Effect, AttemptEffect}

sleeps_lt : (d : Option ℕ) (ds : List ℕ) (n : ℕ) → length ds < n → length (add_sleep d ds) < suc n
sleeps_lt none ds n h = omega arith
sleeps_lt (some x) ds n h = omega arith

module _ {Json : Type 0} (raises_for_status : ℕ → Bool) (uniform : ℕ → ℕ) (marketplace : String)
    (cfg : Config) (net : ℕ → Exchange Json) where
  -- An attempt that the circuit lets through acts as on the client after the check.
  attempt_checked :
      (x : Exchange Json) (attempt : ℕ) (c c' : Client)
      → check_circuit x.now c ≡ some c'
      → (c'.open_until ≡ none)
        × (attempt_once raises_for_status uniform marketplace cfg x attempt c
            ≡ attempt_once raises_for_status uniform marketplace cfg x attempt c')
  unfolding attempt_once check_circuit
  attempt_checked x attempt c c' h = ground arith

  abbrev LoopEffect : Client → ℕ → Done Json → Type 0
  LoopEffect c left r =
      (1 ≤ r.sent) × (r.sent ≤ left) × (length r.sleeps < r.sent) × Effect cfg c r.result r.client

  abbrev loop_from : Client → ℕ → ℕ → Bool → Attempt Json → Done Json
  loop_from c left attempt seen a = elim a [
    | stop n r c' ↦ record { result = r; client = c'; sent = n; sleeps = [] }
    | again d e c' ↦ prepend d (
        request_loop raises_for_status uniform marketplace cfg net left (suc attempt) (seen || e)
          c')
  ]

  abbrev run_attempt : ℕ → Client → Attempt Json
  run_attempt attempt c =
      attempt_once raises_for_status uniform marketplace cfg (net attempt) attempt c

  attempt_of :
      (attempt : ℕ) (c : Client)
      → RaisesOnError raises_for_status
      → c.open_until ≡ none
      → AttemptEffect raises_for_status uniform marketplace cfg c attempt (run_attempt attempt c)
  attempt_of attempt c raises h =
      attempt-Effect raises_for_status uniform marketplace cfg (net attempt).now (net attempt).later
        attempt (net attempt).reply c raises h

  -- One attempt, and then the rest of the loop if another follows.
  loop_from-Effect :
      (left attempt : ℕ) (seen : Bool) (c : Client) (a : Attempt Json)
      → AttemptEffect raises_for_status uniform marketplace cfg c attempt a
      → (attempt < cfg.max_attempts
          → (s : Bool)
          → LoopEffect c left
              (request_loop raises_for_status uniform marketplace cfg net left (suc attempt) s c))
      → LoopEffect c (suc left) (loop_from c left attempt seen a)
  loop_from-Effect left attempt seen c (stop n r c') (one, eff) rest =
      (omega arith, omega arith, omega arith, eff)
  loop_from-Effect left attempt seen c (again d s c') (same, more) rest = rw same (
      let (a, b, l, eff) = rest more (seen || s) in
      (omega arith, omega arith, sleeps_lt d _ _ l, eff))

  loop-Effect :
      (left attempt : ℕ) (seen : Bool) (c : Client)
      → RaisesOnError raises_for_status
      → c.open_until ≡ none
      → attempt + left ≡ cfg.max_attempts
      → LoopEffect c
          (suc left)
          (request_loop raises_for_status uniform marketplace cfg net (suc left) attempt seen c)
  unfolding request_loop attempt_once
  loop-Effect zero attempt seen c raises h e =
      loop_from-Effect 0 attempt seen c (run_attempt attempt c) (attempt_of attempt c raises h)
        (λ more. absurd (omega arith))
  loop-Effect (suc left) attempt seen c raises h e =
      loop_from-Effect (suc left) attempt seen c (run_attempt attempt c)
        (attempt_of attempt c raises h)
        (λ more s. loop-Effect left (suc attempt) s c raises h (omega arith))

  abbrev pub do_request : Client → Done Json
  do_request c = request raises_for_status uniform marketplace cfg net c

  -- While the circuit is open, a request sends nothing, sleeps not at all, leaves the client as it
  -- is and raises CircuitOpenError.
  pub open_circuit-blocks :
      (c : Client) (t : ℕ)
      → c.closed ≡ false
      → 1 ≤ cfg.max_attempts
      → c.open_until ≡ some t
      → (net 1).now < t
      → do_request c ≡ record { result = err circuit_open; client = c; sent = 0; sleeps = [] }
  unfolding request request_loop attempt_once check_circuit
  open_circuit-blocks c t live pos h early = simp live (blocked cfg.max_attempts pos)
    where
      blocked :
          (left : ℕ)
          → 1 ≤ left
          → request_loop raises_for_status uniform marketplace cfg net left 1 false c
            ≡ record { result = err circuit_open; client = c; sent = 0; sleeps = [] }
      blocked zero p = absurd (omega arith)
      blocked (suc left) p = ground arith

  -- A request that the circuit lets through sends at least one and at most `max_attempts` requests,
  -- sleeps less often than it sends, and ends with the effect on the circuit that `Effect` states
  -- for its result: a success closes it, a failure is counted once however many attempts were made.
  pub request-Effect :
      (c c' : Client)
      → RaisesOnError raises_for_status
      → c.closed ≡ false
      → 1 ≤ cfg.max_attempts
      → check_circuit (net 1).now c ≡ some c'
      → LoopEffect c' cfg.max_attempts (do_request c)
  unfolding request request_loop
  request-Effect c c' raises live pos h = simp live (through cfg.max_attempts refl pos)
    where
      through :
          (left : ℕ)
          → left ≡ cfg.max_attempts
          → 1 ≤ left
          → LoopEffect c' left
              (request_loop raises_for_status uniform marketplace cfg net left 1 false c)
      through zero e p = absurd (omega arith)
      through (suc left) e p =
          let (closed, same) = attempt_checked (net 1) 1 c c' h in
          rw (same, request_loop) (loop-Effect left 1 false c' raises closed (omega arith))
