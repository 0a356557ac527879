-- ===== src/Http/Breaker.antt =====
-- What one attempt, and a whole request, do to the circuit.
use bormo_stats.Base.{
  ℕ, ◌+◌, ◌<◌, String, ◌≡◌, ◌⊎◌, Bool, true, false, Option, none, some, leb, arith,
}
use bormo_stats.Base.Results.{Result, ok, err}
use bormo_stats.Http.Circuit.{Config, Client, check_circuit, record_success, record_failure}
use bormo_stats.Http.Request.{
  HttpError, client_closed, circuit_open, transport_error, value_error, other_error,
  unexpected_state, http_status, Reply, response, Attempt, stop, again, attempt_once,
}

abbrev pub is_open : Option ℕ → Bool
is_open none = false
is_open (some t) = true

-- One failure more than `c`, and the circuit opened exactly if that reaches the threshold.
abbrev pub Counted : Config → Client → Client → Type 0
Counted cfg c c' =
    (c'.failure_count ≡ c.failure_count + 1)
    × (is_open c'.open_until ≡ leb cfg.circuit_failure_threshold (c.failure_count + 1))

-- What a request that went through the check on the closed circuit `c` leaves behind, by result.
-- A body that is no JSON counts as one failure after the success has reset the count.
abbrev pub Effect :
    {Json : Type 0} → Config → Client → Result HttpError (Option Json) → Client → Type 0
Effect cfg c (ok j) c' = (c'.failure_count ≡ 0) × (c'.open_until ≡ none)
Effect cfg c (err transport_error) c' = Counted cfg c c'
Effect cfg c (err (http_status s)) c' = Counted cfg c c'
Effect cfg c (err value_error) c' =
    Counted cfg c c' ⊎ Counted cfg (record c { failure_count = 0 }) c'
Effect cfg c (err other_error) c' = c' ≡ c
Effect cfg c (err client_closed) c' = ⊥
Effect cfg c (err circuit_open) c' = ⊥
Effect cfg c (err unexpected_state) c' = ⊥

-- `raise_for_status` raises for every status but the successes, as httpx documents.
abbrev pub RaisesOnError : (ℕ → Bool) → Type 0
RaisesOnError raises = (s : ℕ) → (s < 200) ⊎ (299 < s) → raises s ≡ true

module _ {Json : Type 0} (raises_for_status : ℕ → Bool) (uniform : ℕ → ℕ) (marketplace : String)
    (cfg : Config) where
  abbrev pub AttemptEffect : Client → ℕ → Attempt Json → Type 0
  AttemptEffect c attempt (stop n r c') = (n ≡ 1) × Effect cfg c r c'
  AttemptEffect c attempt (again d e c') = (c' ≡ c) × (attempt < cfg.max_attempts)

  pub attempt-Effect :
      (now later attempt : ℕ) (reply : Reply Json) (c : Client)
      → RaisesOnError raises_for_status
      → c.open_until ≡ none
      → AttemptEffect c attempt (
          attempt_once raises_for_status uniform marketplace cfg
            (record { now = now; reply = reply; later = later })
            attempt
            c)
  unfolding attempt_once check_circuit record_success record_failure
  attempt-Effect now later attempt (response r) c raises h = ground (arith, raises r.status_code)
  attempt-Effect now later attempt _ c raises h = ground arith
