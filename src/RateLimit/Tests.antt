-- ===== src/RateLimit/Tests.antt =====
-- Requests of concrete clients, and the theorems at them.
use bormo_stats.Base.{
  ◌+◌, ◌-◌, ◌*◌, ◌≤◌, String, ◌≡◌, ◌≢◌, refl, ap, str_eq, true, false, [], ◌∷◌, arith,
}
use bormo_stats.RateLimit.Defs.{unit, TokenBucket, new_bucket, ClientBuckets, Limiter, dispatch}
use bormo_stats.RateLimit.Bucket.{admitted, admitted-le}

-- Two a minute: two at once, the third half a minute later.
two_a_minute : (admitted (0 ∷ 1 ∷ 2 ∷ 30000002 ∷ []) (new_bucket 0 2)).0 ≡ 3
unfolding admitted new_bucket
two_a_minute = refl

admitted-le_example :
    unit * (admitted (90000000 ∷ 90000001 ∷ 90000002 ∷ 120000002 ∷ []) (new_bucket 0 2)).0
    ≤ unit * 2 + 2 * (120000002 - 90000000)
unfolding new_bucket
admitted-le_example =
    admitted-le (new_bucket 0 2) 90000000 (90000001 ∷ 90000002 ∷ 120000002 ∷ [])
      (ground arith, (ground arith, (ground arith, tt)))

abbrev used_up : TokenBucket
used_up = record { burst = 2; tokens = 0; last_refill = 0 }

abbrev clients : ClientBuckets
clients = record {
  burst = 2;
  max_clients = 3;
  buckets = ("10.0.0.1", used_up) ∷ ("10.0.0.2", used_up) ∷ [];
}

different : false ≡ true → ⊥
different e = cc

other_client : ◌≢◌ {A = String} "10.0.0.2" "10.0.0.1"
other_client e = elim (different (ap (λ s. str_eq s "10.0.0.1") e)) [ ]

abbrev limiter : Limiter
limiter = record { public_buckets = clients; admin_buckets = clients; login_buckets = clients }

-- The used-up public bucket refuses; the health check is never limited.
refused : (dispatch 5 "/api/v1/kpi" "10.0.0.1" limiter).0 ≡ false
unfolding dispatch
refused = refl

exempt : dispatch 5 "/health/live" "10.0.0.1" limiter ≡ (true, limiter)
unfolding dispatch
exempt = refl
