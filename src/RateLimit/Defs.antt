-- ===== src/RateLimit/Defs.antt =====
-- `TokenBucket`, `ClientBuckets` and the middleware's choice of buckets.
use bormo_stats.Base.{
  ℕ, ◌+◌, ◌-◌, ◌*◌, min, String, Bool, true, false, ◌||◌, Option, none, some, List, [], ◌∷◌, ◌++◌,
  length, ltb, leb, str_eq, elem, if◌then◌else◌,
}
use bormo_stats.Base.Text.{starts_with, codes}

abbrev pub unit : ℕ
unit = 60000000

pub record TokenBucket : Type 0 where
  pub burst : ℕ
  pub tokens : ℕ
  pub last_refill : ℕ

-- `TokenBucket(rate, burst)`
unfoldable pub new_bucket : ℕ → ℕ → TokenBucket
new_bucket now burst = record { burst = burst; tokens = unit * burst; last_refill = now }

abbrev pub refilled : ℕ → TokenBucket → ℕ
refilled now b = min (unit * b.burst) (b.tokens + b.burst * (now - b.last_refill))

-- `consume` of one token: whether it was there. The monotonic clock does not go back.
unfoldable pub consume : ℕ → TokenBucket → Bool × TokenBucket
consume now b =
    if leb unit (refilled now b)
    then (true, record b { tokens = refilled now b - unit; last_refill = now })
    else (false, record b { tokens = refilled now b; last_refill = now })

-- the OrderedDict, with the client seen last at the end
abbrev pub Buckets : Type 0
Buckets = List (String × TokenBucket)

pub record ClientBuckets : Type 0 where
  pub burst : ℕ
  pub max_clients : ℕ
  pub buckets : Buckets

unfoldable pub get_bucket : String → Buckets → Option TokenBucket
get_bucket client [] = none
get_bucket client ((c, b) ∷ bs) =
    let rest = get_bucket client bs in if str_eq client c then some b else rest

-- `del` of one key
unfoldable pub without : String → Buckets → Buckets
without client [] = []
without client ((c, b) ∷ bs) =
    let rest = without client bs in if str_eq client c then rest else (c, b) ∷ rest

-- `popitem(last=False)` where there are too many
unfoldable pub evict : ℕ → Buckets → Buckets
evict max_clients [] = []
evict max_clients (cb ∷ bs) = if ltb max_clients (length (cb ∷ bs)) then bs else cb ∷ bs

-- `ClientBuckets.consume`: the bucket found or made is at the end, and one token is asked of it.
-- A bucket that is evicted at once (with no room at all) is used all the same.
unfoldable pub consume_for : ℕ → String → Option TokenBucket → ClientBuckets → Bool × ClientBuckets
unfolding consume new_bucket without evict
consume_for now client none cs =
    let (allowed, b) = consume now (new_bucket now cs.burst) in
    (allowed, record cs { buckets = evict cs.max_clients (cs.buckets ++ ((client, b) ∷ [])) })
consume_for now client (some b) cs =
    let (allowed, b') = consume now b in
    (allowed, record cs { buckets = without client cs.buckets ++ ((client, b') ∷ []) })

unfoldable pub client_consume : ℕ → String → ClientBuckets → Bool × ClientBuckets
unfolding consume_for get_bucket
client_consume now client cs = consume_for now client (get_bucket client cs.buckets) cs

-- The three sets of buckets of `setup_rate_limiter`.
pub record Limiter : Type 0 where
  pub public_buckets : ClientBuckets
  pub admin_buckets : ClientBuckets
  pub login_buckets : ClientBuckets

abbrev is_exempt : String → Bool
is_exempt path =
    elem path ("/" ∷ "/health" ∷ "/ready" ∷ "/metrics" ∷ [])
    || starts_with (codes "/health/") (codes path)
    || starts_with (codes "/ui/") (codes path)

abbrev is_admin : String → Bool
is_admin path =
    starts_with (codes "/api/v1/admin") (codes path)
    || starts_with (codes "/api/v1/organizations") (codes path)
    || starts_with (codes "/api/v1/integrations") (codes path)

-- `dispatch`: whether the request is passed on; otherwise the answer is 429. The login path is no
-- admin path, so the tests can be asked in this order.
unfoldable pub dispatch : ℕ → String → String → Limiter → Bool × Limiter
unfolding starts_with client_consume
dispatch now path client l =
    if is_exempt path
    then (true, l)
    else if str_eq path "/api/v1/auth/login"
    then (let (allowed, cs) = client_consume now client l.login_buckets in
        (allowed, record l { login_buckets = cs }))
    else if is_admin path
    then (let (allowed, cs) = client_consume now client l.admin_buckets in
        (allowed, record l { admin_buckets = cs }))
    else (let (allowed, cs) = client_consume now client l.public_buckets in
        (allowed, record l { public_buckets = cs }))
