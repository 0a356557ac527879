-- ===== src/Http/Tests.antt =====
-- Requests against concrete answers, and the theorems at them.
use bormo_stats.Base.{
  ℕ, ◌+◌, ◌*◌, ◌/◌, ◌≤◌, ◌<◌, ◌≡◌, refl, Bool, true, false, not, ◌&&◌, Option, none, some, [], ◌∷◌,
  leb, arith, length,
}
use bormo_stats.Base.Results.{err}
use bormo_stats.Http.Retry.{retry_delay, exponential_jitter_delay, is_market}
use bormo_stats.Http.Circuit.{
  Config, make_config, Client, new_client, check_circuit, record_success, record_failure,
}
use bormo_stats.Http.Request.{
  http_status, Reply, response, request_error, Exchange, attempt_once, request_loop, request,
}
use bormo_stats.Http.Breaker.{Effect, RaisesOnError, is_open}
use bormo_stats.Http.Bounds.{request-Effect}
use bormo_stats.Http.Tripping.{run_requests, failures_trip, undecodable_never_opens}

abbrev raises : ℕ → Bool
raises s = not (leb 200 s && leb s 299)

raises-RaisesOnError : RaisesOnError raises
raises-RaisesOnError s h = ground arith

abbrev half : ℕ → ℕ
half b = b / 2

abbrev config : Config
config = record { max_attempts = 3; circuit_failure_threshold = 2; circuit_reset_seconds = 60 }

abbrev answer : ℕ → Bool → Option ℕ → Reply ℕ
answer status content json =
    response
      (record { status_code = status; has_content = content; json = json; wb_retry_delay = none })

-- Every attempt meets the same reply, one second apart.
abbrev steady : Reply ℕ → ℕ → Exchange ℕ
steady r n = record { now = 1000 * n; reply = r; later = 1000 * n + 500 }

abbrev open_client : Client
open_client = record { failure_count = 2; open_until = some 90000; closed = false }

config_of_zero :
    make_config 0 2 60
    ≡ record { max_attempts = 1; circuit_failure_threshold = 2; circuit_reset_seconds = 60 }
unfolding make_config
config_of_zero = refl

retries_then_fails :
    request raises half "wb" config (steady (answer 503 true none)) new_client ≡ record {
      result = err (http_status 503);
      client = record { failure_count = 1; open_until = none; closed = false };
      sent = 3;
      sleeps = 1125 ∷ 2250 ∷ [];
    }
unfolding request request_loop attempt_once check_circuit record_failure record_success retry_delay
    exponential_jitter_delay is_market
retries_then_fails = refl

request-Effect_example :
    let r = request raises half "wb" config (steady request_error) new_client in
    (1 ≤ r.sent)
    × (r.sent ≤ 3)
    × (length r.sleeps < r.sent)
    × Effect config new_client r.result r.client
unfolding check_circuit
request-Effect_example =
    request-Effect raises half "wb" config (steady request_error) new_client new_client
      raises-RaisesOnError refl (omega arith) refl

failures_trip_example :
    let c =
      run_requests raises half "wb" config
        (steady request_error ∷ steady (answer 404 true none) ∷ [])
        new_client in
    (c.failure_count ≡ 2) × (is_open c.open_until ≡ true)
unfolding request request_loop attempt_once check_circuit record_failure record_success retry_delay
    exponential_jitter_delay is_market
failures_trip_example =
    failures_trip raises half "wb" config
      (steady request_error ∷ steady (answer 404 true none) ∷ []) new_client raises-RaisesOnError
      (omega arith) refl refl (omega arith) (omega arith) (tt, (tt, tt))

undecodable_never_opens_example :
    (run_requests raises half "wb" config
      (steady (answer 200 true none)
        ∷ steady (answer 200 true none)
        ∷ steady (answer 200 true none)
        ∷ [])
      new_client).open_until
    ≡ none
undecodable_never_opens_example =
    undecodable_never_opens raises half "wb" config
      (steady (answer 200 true none)
        ∷ steady (answer 200 true none)
        ∷ steady (answer 200 true none)
        ∷ [])
      new_client (omega arith) (omega arith) refl refl (ground arith)
