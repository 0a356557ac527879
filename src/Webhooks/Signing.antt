-- ===== src/Webhooks/Signing.antt =====
-- common/webhooks.py: signatures, the delays of retries and the choice of subscriptions. The digest
-- and the text of a number are the libraries'. Times are whole seconds.
use bormo_stats.Base.{
  ℕ, zero, suc, ◌+◌, ◌-◌, ◌*◌, ◌≤◌, ◌≡◌, ◌⊎◌, inl, inr, ◌≢◌, All, ◌∙◌, refl, sym, Bool, true, false,
  ◌||◌, List, [], ◌∷◌, ◌++◌, ltb, min, if◌then◌else◌, arith,
}
use bormo_stats.Base.Text.{codes, codes_eq, codes_eq_refl, codes_eq_sound}
use bormo_stats.Webhooks.Targets.{Text, is_listed}

-- `hmac.new(secret, message, sha256).hexdigest()` and `str` of a number
pub record Digest : Type 0 where
  pub hmac : Text → Text → Text
  pub str : ℕ → Text

-- `compute_signature`
unfoldable pub compute_signature : Digest → Text → ℕ → Text → Text
compute_signature d secret timestamp body =
    codes "v1=" ++ d.hmac secret (d.str timestamp ++ 46 ∷ body)

-- `abs(current - timestamp)`
abbrev pub distance : ℕ → ℕ → ℕ
distance a b = (a - b) + (b - a)

-- `verify_signature`
unfoldable pub verify_signature : Digest → Text → ℕ → Text → Text → ℕ → ℕ → Bool
unfolding compute_signature codes_eq
verify_signature d secret timestamp body signature tolerance_seconds now =
    if ltb tolerance_seconds (distance now timestamp)
    then false
    else codes_eq (compute_signature d secret timestamp body) signature

unfoldable pub power_of_two : ℕ → ℕ
power_of_two zero = 1
power_of_two (suc n) = 2 * power_of_two n

-- `retry_delay_seconds`
unfoldable pub retry_delay_seconds : ℕ → ℕ
unfolding power_of_two
retry_delay_seconds attempt = min 3600 (30 * power_of_two (attempt - 1))

-- `subscription_matches`
unfoldable pub subscription_matches : List Text → Text → Bool
unfolding is_listed
subscription_matches events event_type = is_listed (codes "*") events || is_listed event_type events

-- The decimal text of a number has no dot, and two numbers have two texts.
abbrev pub IsDecimal : Digest → Type 0
IsDecimal d = ((n : ℕ) → All (λ c. c ≢ 46) (d.str n)) × ((m n : ℕ) → d.str m ≡ d.str n → m ≡ n)

-- The two texts differ, and their digests under the secret do not.
abbrev pub IsCollision : Digest → Text → Text → Text → Type 0
IsCollision d secret a b = (a ≢ b) × (d.hmac secret a ≡ d.hmac secret b)

-- A text without a dot ends at the first dot.
first_dot :
    (x y a b : Text)
    → All (λ c. c ≢ 46) x
    → All (λ c. c ≢ 46) y
    → x ++ 46 ∷ a ≡ y ++ 46 ∷ b
    → (x ≡ y) × (a ≡ b)
first_dot [] [] a b h k e = (refl, cc)
first_dot [] (d ∷ y) a b h k e = let same : d ≡ 46 = cc in elim (k.0 same) [ ]
first_dot (c ∷ x) [] a b h k e = let same : c ≡ 46 = cc in elim (h.0 same) [ ]
first_dot (c ∷ x) (d ∷ y) a b h k e =
    let tails : x ++ 46 ∷ a ≡ y ++ 46 ∷ b = cc in
    let (same, rest) = first_dot x y a b h.1 k.1 tails in (cc, rest)

accepted_lem :
    (d : Digest) (secret : Text) (timestamp : ℕ) (body signature : Text) (tolerance now : ℕ)
    → verify_signature d secret timestamp body signature tolerance now ≡ true
    → (distance now timestamp ≤ tolerance) × (signature ≡ compute_signature d secret timestamp body)
unfolding verify_signature
accepted_lem d secret timestamp body signature tolerance now =
    by_flag (ltb tolerance (distance now timestamp)) refl
  where
    by_flag :
        (over : Bool)
        → ltb tolerance (distance now timestamp) ≡ over
        → (if over then false else codes_eq (compute_signature d secret timestamp body) signature)
          ≡ true
        → (distance now timestamp ≤ tolerance)
          × (signature ≡ compute_signature d secret timestamp body)
    by_flag true e h = cc
    by_flag false e h =
        (ground arith, sym (codes_eq_sound (compute_signature d secret timestamp body) signature h))

-- Equal signatures are equal digests of the two messages.
equal_digests :
    (d : Digest) (secret : Text) (t t' : ℕ) (body body' : Text)
    → compute_signature d secret t body ≡ compute_signature d secret t' body'
    → d.hmac secret (d.str t ++ 46 ∷ body) ≡ d.hmac secret (d.str t' ++ 46 ∷ body')
unfolding compute_signature
equal_digests d secret t t' body body' e = cc

-- A signature binds the timestamp and the body: if a receiver accepts one signature, under one
-- secret, for two requests, then both timestamps are within the tolerance of the receiver's clock,
-- and either timestamps and bodies are the same, or the two signed texts (the timestamp, a dot and
-- the body) are a collision of the digest. Numbers are written without a dot, and two numbers have
-- two texts.
pub verify_signature_binds :
    (d : Digest) (secret : Text) (t t' : ℕ) (body body' signature : Text) (tolerance now now' : ℕ)
    → IsDecimal d
    → verify_signature d secret t body signature tolerance now ≡ true
    → verify_signature d secret t' body' signature tolerance now' ≡ true
    → (distance now t ≤ tolerance)
      × (distance now' t' ≤ tolerance)
      × (((t ≡ t') × (body ≡ body'))
          ⊎ IsCollision d secret (d.str t ++ 46 ∷ body) (d.str t' ++ 46 ∷ body'))
verify_signature_binds d secret t t' body body' signature tolerance now now' decimal v v' =
    let (close, made) = accepted_lem d secret t body signature tolerance now v in
    let (close', made') = accepted_lem d secret t' body' signature tolerance now' v' in
    (
      close,
      close',
      by_flag (codes_eq (d.str t ++ 46 ∷ body) (d.str t' ++ 46 ∷ body')) refl
          (equal_digests d secret t t' body body' (sym made ∙ made')),
    )
  where
    by_flag :
        (same : Bool)
        → codes_eq (d.str t ++ 46 ∷ body) (d.str t' ++ 46 ∷ body') ≡ same
        → d.hmac secret (d.str t ++ 46 ∷ body) ≡ d.hmac secret (d.str t' ++ 46 ∷ body')
        → ((t ≡ t') × (body ≡ body'))
          ⊎ IsCollision d secret (d.str t ++ 46 ∷ body) (d.str t' ++ 46 ∷ body')
    by_flag true e h =
        let (stamps, bodies) =
          first_dot (d.str t) (d.str t') body body' (decimal.0 t) (decimal.0 t')
            (codes_eq_sound (d.str t ++ 46 ∷ body) (d.str t' ++ 46 ∷ body') e) in
        inl (decimal.1 t t' stamps, bodies)
    by_flag false e h = inr (
      (λ same.
          let yes : codes_eq (d.str t ++ 46 ∷ body) (d.str t' ++ 46 ∷ body') ≡ true =
            rw same (codes_eq_refl (d.str t' ++ 46 ∷ body')) in
          cc),
      h,
    )
