-- ===== src/RateLimit/Bucket.antt =====
-- How many requests a bucket lets through.
use bormo_stats.Base.{
  ℕ, suc, ◌+◌, ◌-◌, ◌*◌, ◌≤◌, ◌≡◌, ap, sym, ◌∙◌, Bool, true, false, List, [], ◌∷◌, if◌then◌else◌,
  arith,
}
use native.Mathlib.Nat.{mul-add}
use bormo_stats.RateLimit.Defs.{unit, TokenBucket, consume}

-- Requests at the times of the list, one after another: how many are let through.
unfoldable pub admitted : List ℕ → TokenBucket → ℕ × TokenBucket
unfolding consume
admitted [] b = (0, b)
admitted (now ∷ times) b =
    let (allowed, b') = consume now b in
    let (n, b'') = admitted times b' in ((if allowed then suc n else n), b'')

-- The clock does not go back.
abbrev pub IsForward : ℕ → List ℕ → Type 0
IsForward from [] = Unit
IsForward from (t ∷ ts) = (from ≤ t) × IsForward t ts

abbrev pub last_of : ℕ → List ℕ → ℕ
last_of from [] = from
last_of from (t ∷ ts) = last_of t ts

consume_from :
    (now : ℕ) (b : TokenBucket) (from burst : ℕ)
    → b.last_refill ≡ from
    → b.burst ≡ burst
    → from ≤ now
    → ((if (consume now b).0 then unit else 0) + (consume now b).1.tokens
        ≤ b.tokens + burst * (now - from))
      × ((consume now b).1.last_refill ≡ now)
      × ((consume now b).1.burst ≡ burst)
unfolding consume
consume_from now b from burst e f h = ground arith

elapsed_sum :
    (burst from now last : ℕ)
    → from ≤ now
    → now ≤ last
    → burst * (now - from) + burst * (last - now) ≡ burst * (last - from)
elapsed_sum burst from now last h k =
    sym (mul-add burst (now - from) (last - now)) ∙ ap (λ n. burst * n) (ground arith)

last_of_ge : (from : ℕ) (times : List ℕ) → IsForward from times → from ≤ last_of from times
last_of_ge from [] h = ground arith
last_of_ge from (t ∷ ts) h = ground (arith, last_of_ge t ts h.1)

one_more :
    (allowed : Bool) (n before left tokens a c e : ℕ)
    → (if allowed then unit else 0) + left ≤ tokens + a
    → unit * n + before ≤ left + c
    → a + c ≡ e
    → unit * (if allowed then suc n else n) + before ≤ tokens + e
one_more true n before left tokens a c e h k l = omega (arith, h, k, l)
one_more false n before left tokens a c e h k l = omega (arith, h, k, l)

admitted_lem :
    (times : List ℕ) (b : TokenBucket) (from burst : ℕ)
    → b.last_refill ≡ from
    → b.burst ≡ burst
    → IsForward from times
    → unit * (admitted times b).0 + (admitted times b).1.tokens
      ≤ b.tokens + burst * (last_of from times - from)
unfolding admitted
admitted_lem [] b from burst e f h = ground arith
admitted_lem (t ∷ ts) b from burst e f h =
    let b' = (consume t b).1 in
    let (spent, at, same) = consume_from t b from burst e f h.0 in
    one_more (consume t b).0 (admitted ts b').0 (admitted ts b').1.tokens b'.tokens b.tokens
      (burst * (t - from)) (burst * (last_of t ts - t)) (burst * (last_of t ts - from)) spent
      (admitted_lem ts b' t burst at same h.1)
      (elapsed_sum burst from t (last_of t ts) h.0 (last_of_ge t ts h.1))

-- The first request of a stretch finds at most a full bucket.
consume_capped :
    (now : ℕ) (b : TokenBucket)
    → ((if (consume now b).0 then unit else 0) + (consume now b).1.tokens ≤ unit * b.burst)
      × ((consume now b).1.last_refill ≡ now)
      × ((consume now b).1.burst ≡ b.burst)
unfolding consume
consume_capped now b = ground arith

one_first :
    (allowed : Bool) (n before left c e : ℕ)
    → (if allowed then unit else 0) + left ≤ e
    → unit * n + before ≤ left + c
    → unit * (if allowed then suc n else n) ≤ e + c
one_first true n before left c e h k = omega (arith, h, k)
one_first false n before left c e h k = omega (arith, h, k)

-- In any stretch of requests, whatever the bucket holds before it and however long it was idle, a
-- bucket lets through at most its burst and what flows in between the first and the last request of
-- the stretch, which is the burst in sixty seconds: in units of which `unit` are one request and
-- `burst` flow in per microsecond. The clock must not go back.
pub admitted-le :
    (b : TokenBucket) (first : ℕ) (times : List ℕ)
    → IsForward first times
    → unit * (admitted (first ∷ times) b).0
      ≤ unit * b.burst + b.burst * (last_of first times - first)
unfolding admitted
admitted-le b first times h =
    let b' = (consume first b).1 in
    let (spent, at, same) = consume_capped first b in
    one_first (consume first b).0 (admitted times b').0 (admitted times b').1.tokens b'.tokens
      (b.burst * (last_of first times - first)) (unit * b.burst) spent
      (admitted_lem times b' first b.burst at same h)
