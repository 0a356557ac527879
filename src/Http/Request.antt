-- ===== src/Http/Request.antt =====
-- `_request`: one logical request, with up to `max_attempts` attempts.
use bormo_stats.Base.{
  ℕ, zero, suc, String, Bool, true, false, ◌&&◌, ◌||◌, Option, none, some, List, [], ◌∷◌, ltb, leb,
  if◌then◌else◌,
}
use bormo_stats.Base.Results.{Result, ok, err}
use bormo_stats.Http.Retry.{Response, retry_delay, exponential_jitter_delay}
use bormo_stats.Http.Circuit.{Config, Client, check_circuit, record_success, record_failure}

pub data HttpError : Type 0 where
  client_closed circuit_open transport_error value_error other_error unexpected_state : HttpError
  http_status : ℕ → HttpError

-- What `httpx.Client.request` does: an answer, an `httpx.RequestError`, a ValueError, or any other
-- exception.
pub data Reply (Json : Type 0) : Type 0 where
  response : Response Json → Reply Json
  request_error raises_value_error raises_other : Reply Json

-- One attempt as the client meets it: the clock at the check of the circuit and at the recording
-- of a failure, and the reply.
pub record Exchange (Json : Type 0) : Type 0 where
  pub now : ℕ
  pub reply : Reply Json
  pub later : ℕ

-- How an attempt ends: with the request's result, or with another attempt; and how
-- many requests it sent (one, when another attempt follows).
pub data Attempt (Json : Type 0) : Type 0 where
  stop : ℕ → Result HttpError (Option Json) → Client → Attempt Json
  again : Option ℕ → Bool → Client → Attempt Json

-- What a request did: its result, the client after it, the requests it sent and its sleeps.
pub record Done (Json : Type 0) : Type 0 where
  pub result : Result HttpError (Option Json)
  pub client : Client
  pub sent : ℕ
  pub sleeps : List ℕ

abbrev pub add_sleep : Option ℕ → List ℕ → List ℕ
add_sleep none ds = ds
add_sleep (some d) ds = d ∷ ds

abbrev pub prepend : {Json : Type 0} → Option ℕ → Done Json → Done Json
prepend d r = record r { sent = suc r.sent; sleeps = add_sleep d r.sleeps }

-- `raises_for_status status` tells whether `response.raise_for_status()` raises.
module _ {Json : Type 0} (raises_for_status : ℕ → Bool) (uniform : ℕ → ℕ) (marketplace : String)
    (cfg : Config) where
  abbrev is_success : Response Json → Bool
  is_success r = leb 200 r.status_code && leb r.status_code 299

  -- `return response.json() if response.content else None`
  decode : ℕ → Client → Bool → Option Json → Attempt Json
  decode later c false j = stop 1 (ok none) c
  decode later c true (some j) = stop 1 (ok (some j)) c
  decode later c true none = stop 1 (err value_error) (record_failure cfg later c)

  -- an answer that is not retried
  fail_fast : ℕ → Client → Response Json → Attempt Json
  fail_fast later c r =
      if raises_for_status r.status_code
      then stop 1 (err (http_status r.status_code)) (record_failure cfg later c)
      else again none false (record_failure cfg later c)

  retry_or_fail : ℕ → ℕ → Client → Response Json → Option ℕ → Attempt Json
  unfolding fail_fast
  retry_or_fail later attempt c r none = fail_fast later c r
  retry_or_fail later attempt c r (some d) =
      if ltb attempt cfg.max_attempts then again (some d) false c else fail_fast later c r

  handle : ℕ → ℕ → Client → Reply Json → Attempt Json
  unfolding decode retry_or_fail
  handle later attempt c (response r) =
      if is_success r
      then decode later (record_success c) r.has_content r.json
      else retry_or_fail later attempt c r (retry_delay uniform marketplace r attempt)
  handle later attempt c request_error =
      if ltb attempt cfg.max_attempts
      then again (some (exponential_jitter_delay uniform attempt)) true c
      else stop 1 (err transport_error) (record_failure cfg later c)
  handle later attempt c raises_value_error = stop 1 (err value_error) (record_failure cfg later c)
  handle later attempt c raises_other = stop 1 (err other_error) c

  attempt_from : Exchange Json → ℕ → Client → Option Client → Attempt Json
  unfolding handle
  attempt_from x attempt c none = stop 0 (err circuit_open) c
  attempt_from x attempt c (some c') = handle x.later attempt c' x.reply

  -- the body of the loop
  unfoldable pub attempt_once : Exchange Json → ℕ → Client → Attempt Json
  unfolding attempt_from
  attempt_once x attempt c = attempt_from x attempt c (check_circuit x.now c)

  -- the loop; `seen` tells whether an earlier attempt ended in a RequestError
  unfoldable pub request_loop : (ℕ → Exchange Json) → ℕ → ℕ → Bool → Client → Done Json
  request_loop net zero attempt seen c = record {
    result = err (if seen then transport_error else unexpected_state);
    client = c;
    sent = 0;
    sleeps = [];
  }
  request_loop net (suc left) attempt seen c = elim (attempt_once (net attempt) attempt c) [
    | stop n r c' ↦ record { result = r; client = c'; sent = n; sleeps = [] }
    | again d e c' ↦ prepend d (request_loop net left (suc attempt) (seen || e) c')
  ]

  unfoldable pub request : (ℕ → Exchange Json) → Client → Done Json
  unfolding request_loop
  request net c =
      if c.closed
      then record { result = err client_closed; client = c; sent = 0; sleeps = [] }
      else request_loop net cfg.max_attempts 1 false c
