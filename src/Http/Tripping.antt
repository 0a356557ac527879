-- ===== src/Http/Tripping.antt =====
-- The circuit over many requests: what opens it, and what never does.
use bormo_stats.Base.{
  ℕ, zero, suc, ◌+◌, ◌≤◌, ◌<◌, String, ◌≡◌, ◌⊎◌, Bool, true, false, ◌||◌, Option, none, List, [],
  ◌∷◌, leb, arith, length, All,
}
use bormo_stats.Base.Results.{Result, err}
use bormo_stats.Http.Circuit.{Config, Client, check_circuit, record_success, record_failure}
use bormo_stats.Http.Request.{
  HttpError, transport_error, http_status, Reply, response, Exchange, Attempt, stop, again,
  attempt_once, Done, request_loop, request, prepend,
}
use bormo_stats.Http.Breaker.{Effect, Counted, RaisesOnError, is_open}
use bormo_stats.Http.Bounds.{request-Effect}

-- A circuit that is open was tripped by enough failures.
abbrev pub IsTripped : Config → Client → Type 0
IsTripped cfg c = (c.open_until ≡ none) ⊎ (cfg.circuit_failure_threshold ≤ c.failure_count)

module _ {Json : Type 0} (raises_for_status : ℕ → Bool) (uniform : ℕ → ℕ) (marketplace : String)
    (cfg : Config) where
  abbrev AttemptKeeps : (Client → Type 0) → Attempt Json → Type 0
  AttemptKeeps P (stop n r c) = P c
  AttemptKeeps P (again d e c) = P c

  abbrev attempt_with : Exchange Json → ℕ → Client → Attempt Json
  attempt_with x attempt c = attempt_once raises_for_status uniform marketplace cfg x attempt c

  abbrev loop_with : (ℕ → Exchange Json) → ℕ → ℕ → Bool → Client → Done Json
  loop_with net left attempt seen c =
      request_loop raises_for_status uniform marketplace cfg net left attempt seen c

  abbrev after : (ℕ → Exchange Json) → ℕ → ℕ → Bool → Attempt Json → Done Json
  after net left attempt seen a = elim a [
    | stop n r c ↦ record { result = r; client = c; sent = n; sleeps = [] }
    | again d e c ↦ prepend d (loop_with net left (suc attempt) (seen || e) c)
  ]

  attempt_keeps :
      (P : Client → Type 0) (net : ℕ → Exchange Json) (left attempt : ℕ) (seen : Bool)
      (a : Attempt Json)
      → AttemptKeeps P a
      → ((s : Bool) (c : Client) → P c → P (loop_with net left (suc attempt) s c).client)
      → P (after net left attempt seen a).client
  attempt_keeps P net left attempt seen (stop n r c) k rest = k
  attempt_keeps P net left attempt seen (again d e c) k rest = rest (seen || e) c k

  -- What every attempt keeps, the loop keeps.
  loop_keeps :
      (P : Client → Type 0)
      → ((x : Exchange Json) (attempt : ℕ) (c : Client)
          → P c
          → AttemptKeeps P (attempt_with x attempt c))
      → (net : ℕ → Exchange Json) (left attempt : ℕ) (seen : Bool) (c : Client) → P c
      → P (request_loop raises_for_status uniform marketplace cfg net left attempt seen c).client
  unfolding request_loop
  loop_keeps P keep net zero attempt seen c h = h
  loop_keeps P keep net (suc left) attempt seen c h =
      attempt_keeps P net left attempt seen (attempt_with (net attempt) attempt c)
        (keep (net attempt) attempt c h) (λ s d k. loop_keeps P keep net left (suc attempt) s d k)

  abbrev do_request : (ℕ → Exchange Json) → Client → Done Json
  do_request net c = request raises_for_status uniform marketplace cfg net c

  IsTripped-attempt :
      (x : Exchange Json) (attempt : ℕ) (c : Client)
      → IsTripped cfg c
      → AttemptKeeps (IsTripped cfg) (attempt_with x attempt c)
  unfolding attempt_once check_circuit record_success record_failure
  IsTripped-attempt x attempt c h = ground arith

  closed_attempt :
      (x : Exchange Json) (attempt : ℕ) (c : Client)
      → c.closed ≡ false
      → AttemptKeeps (λ d. d.closed ≡ false) (attempt_with x attempt c)
  unfolding attempt_once check_circuit record_success record_failure
  closed_attempt x attempt c h = ground arith

  -- Every request, however it ends, keeps the breaker consistent: an open circuit has as many
  -- failures as the threshold.
  pub request-IsTripped :
      (net : ℕ → Exchange Json) (c : Client)
      → IsTripped cfg c
      → IsTripped cfg (do_request net c).client
  unfolding request
  request-IsTripped net c h =
      ground (arith, loop_keeps (IsTripped cfg) IsTripped-attempt net cfg.max_attempts 1 false c h)

  request-closed :
      (net : ℕ → Exchange Json) (c : Client)
      → c.closed ≡ false
      → (do_request net c).client.closed ≡ false
  unfolding request
  request-closed net c h =
      ground
        (arith, loop_keeps (λ d. d.closed ≡ false) closed_attempt net cfg.max_attempts 1 false c h)

  -- Requests one after another, on one client.
  unfoldable pub run_requests : List (ℕ → Exchange Json) → Client → Client
  run_requests [] c = c
  run_requests (net ∷ nets) c = run_requests nets (do_request net c).client

  -- The request failed on the network or by its status.
  abbrev pub IsFailure : Result HttpError (Option Json) → Type 0
  IsFailure (err transport_error) = Unit
  IsFailure (err (http_status s)) = Unit
  IsFailure _ = ⊥

  abbrev pub AllFail : List (ℕ → Exchange Json) → Client → Type 0
  AllFail [] c = Unit
  AllFail (net ∷ nets) c =
      IsFailure (do_request net c).result × AllFail nets (do_request net c).client

  failure_counts :
      (net : ℕ → Exchange Json) (c : Client)
      → RaisesOnError raises_for_status
      → 1 ≤ cfg.max_attempts
      → c.closed ≡ false
      → c.open_until ≡ none
      → IsFailure (do_request net c).result
      → Counted cfg c (do_request net c).client
  failure_counts net c raises pos live off f =
      from (do_request net c).result f
        (request-Effect raises_for_status uniform marketplace cfg net c c raises live pos
          (unfold check_circuit in rw off)).3
    where
      from :
          (r : Result HttpError (Option Json))
          → IsFailure r
          → Effect cfg c r (do_request net c).client
          → Counted cfg c (do_request net c).client
      from (err transport_error) h e = e
      from (err (http_status s)) h e = e
      from _ h e = absurd h

  -- The first answer has a success status, a body, and no JSON in it.
  abbrev pub IsUndecodable : Reply Json → Type 0
  IsUndecodable (response r) =
      (200 ≤ r.status_code) × (r.status_code ≤ 299) × (r.has_content ≡ true) × (r.json ≡ none)
  IsUndecodable _ = ⊥

  abbrev pub AllUndecodable : List (ℕ → Exchange Json) → Type 0
  AllUndecodable nets = All (λ net. IsUndecodable (net 1).reply) nets

  undecodable-closed :
      (net : ℕ → Exchange Json) (c : Client)
      → 1 ≤ cfg.max_attempts
      → 1 < cfg.circuit_failure_threshold
      → c.closed ≡ false
      → c.open_until ≡ none
      → IsUndecodable (net 1).reply
      → (do_request net c).client.open_until ≡ none
  unfolding request request_loop attempt_once check_circuit record_success record_failure
  undecodable-closed net c pos high live off u = simp live (from cfg.max_attempts pos)
    where
      from : (left : ℕ) → 1 ≤ left → (loop_with net left 1 false c).client.open_until ≡ none
      from zero p = absurd (omega arith)
      from (suc left) p = ground arith

  -- Requests that fail one after another count one each: below the threshold the circuit stays
  -- closed, and the request that reaches it opens it.
  pub failures_trip :
      (nets : List (ℕ → Exchange Json)) (c : Client)
      → RaisesOnError raises_for_status
      → 1 ≤ cfg.max_attempts
      → c.closed ≡ false
      → c.open_until ≡ none
      → c.failure_count < cfg.circuit_failure_threshold
      → c.failure_count + length nets ≤ cfg.circuit_failure_threshold
      → AllFail nets c
      → ((run_requests nets c).failure_count ≡ c.failure_count + length nets)
        × (is_open (run_requests nets c).open_until
            ≡ leb cfg.circuit_failure_threshold (c.failure_count + length nets))
  unfolding run_requests
  failures_trip [] c raises pos live off low few fails = ground arith
  failures_trip (net ∷ []) c raises pos live off low few (f, _) =
      let counted = failure_counts net c raises pos live off f in ground arith
  failures_trip (net ∷ m ∷ nets) c raises pos live off low few (f, fs) =
      let counted = failure_counts net c raises pos live off f in
      let c' = (do_request net c).client in
      let closed : c'.open_until ≡ none = ground arith in
      let rest =
        failures_trip (m ∷ nets) c' raises pos (request-closed net c live) closed (omega arith)
          (omega arith) fs in
      ground (arith, rest)

  -- Requests whose first answer has a success status and a body that is no JSON never open a closed
  -- circuit whose threshold is above one, however many of them follow one another: each success
  -- resets the count before the failure is counted.
  pub undecodable_never_opens :
      (nets : List (ℕ → Exchange Json)) (c : Client)
      → 1 ≤ cfg.max_attempts
      → 1 < cfg.circuit_failure_threshold
      → c.closed ≡ false
      → c.open_until ≡ none
      → AllUndecodable nets
      → (run_requests nets c).open_until ≡ none
  unfolding run_requests
  undecodable_never_opens [] c pos high live off u = off
  undecodable_never_opens (net ∷ nets) c pos high live off (u, us) =
      undecodable_never_opens nets (do_request net c).client pos high (request-closed net c live)
        (undecodable-closed net c pos high live off u) us
