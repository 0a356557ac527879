-- ===== src/Http/Retry.antt =====
-- The delays before a retry, and which answers are retried.
use Prim.Native.Nat.{◌^◌}
use bormo_stats.Base.{
  ℕ, ◌+◌, ◌-◌, ◌*◌, ◌/◌, ◌≤◌, min, max, String, Bool, ◌&&◌, ◌||◌, Option, none, some, map, arith,
  leb, ◌==◌, if◌then◌else◌,
}
use bormo_stats.Base.Text.{codes, codes_eq}

-- `text.lower()` of one code point, as far as it yields the letters w, b, y and m.
lower_code : ℕ → ℕ
lower_code c = if leb 65 c && leb c 90 then c + 32 else c

-- `marketplace.lower() == name`
unfoldable pub is_market : String → String → Bool
unfolding lower_code codes_eq
is_market marketplace name = codes_eq (map lower_code (codes marketplace)) (codes name)

-- An answer: its status, whether it has a body, what `response.json()` gives (`none` where it
-- raises ValueError), and what `wb_retry_delay_seconds` reads from its headers.
pub record Response (Json : Type 0) : Type 0 where
  pub status_code : ℕ
  pub has_content : Bool
  pub json : Option Json
  pub wb_retry_delay : Option ℕ

-- `exponential_jitter_delay_seconds` with its default base of one second and cap of thirty;
-- `uniform b` is what `random.uniform(0, b)` gives.
unfoldable pub exponential_jitter_delay : (ℕ → ℕ) → ℕ → ℕ
exponential_jitter_delay uniform attempt =
    let exponential = min 30000 (1000 * 2 ^ (max 1 attempt - 1)) in
    min 30000 (exponential + uniform (max 100 (exponential / 4)))

-- Every delay lies between the exponential step and the cap.
pub exponential_jitter_delay-bounds :
    (uniform : ℕ → ℕ) (attempt : ℕ)
    → (min 30000 (1000 * 2 ^ (max 1 attempt - 1)) ≤ exponential_jitter_delay uniform attempt)
      × (exponential_jitter_delay uniform attempt ≤ 30000)
unfolding exponential_jitter_delay
exponential_jitter_delay-bounds uniform attempt = omega arith

-- The delay of a WB answer: the one from its headers, if it has one.
pub wb_or_jitter : (ℕ → ℕ) → ℕ → Option ℕ → ℕ
wb_or_jitter uniform attempt none = exponential_jitter_delay uniform attempt
wb_or_jitter uniform attempt (some d) = d

module _ {Json : Type 0} (uniform : ℕ → ℕ) (marketplace : String) where
  abbrev is_server_error : Response Json → Bool
  is_server_error r = leb 500 r.status_code && leb r.status_code 599

  abbrev is_throttled : Response Json → Bool
  is_throttled r = r.status_code == 429 || r.status_code == 420 && is_market marketplace "ym"

  -- `_retry_delay`: `none` where the answer is not retried.
  unfoldable pub retry_delay : Response Json → ℕ → Option ℕ
  unfolding wb_or_jitter
  retry_delay r attempt =
      if is_throttled r
      then (if is_market marketplace "wb"
          then some (wb_or_jitter uniform attempt r.wb_retry_delay)
          else some (exponential_jitter_delay uniform attempt))
      else if is_server_error r
      then some (exponential_jitter_delay uniform attempt)
      else none
