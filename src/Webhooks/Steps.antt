-- ===== src/Webhooks/Steps.antt =====
-- One attempt of `deliver_to_subscription`: it is the last one, or it is tried again.
use bormo_stats.Base.{
  ℕ, ◌+◌, ◌<◌, ◌≡◌, refl, ◌⊎◌, inl, inr, Bool, true, false, ◌&&◌, Option, none, some, ltb, leb,
  if◌then◌else◌, arith,
}
use bormo_stats.Base.Results.{Result, ok, err}
use bormo_stats.Webhooks.Targets.{
  Text, Network, UrlError, empty_or_long, bad_scheme, has_credentials, no_host, invalid_port,
  internal_name, unresolved, not_public, value_error, ResolvedTarget, validate_outbound_url,
}
use bormo_stats.Webhooks.Signing.{Digest, retry_delay_seconds}
use bormo_stats.Webhooks.Delivery.{
  Subscription, Status, delivered, failed, blocked, skipped, dead_letter, retrying, Outcome,
  retryable, success, Post, Surroundings, max_delivery_attempts, outcome_of, post_to, send_signed,
  LogRow, Attempt, logged, retry_later, after_send, deliver_active, deliver_found,
}

-- A status after which nothing is sent any more.
abbrev pub is_final : Status → Bool
is_final delivered = true
is_final failed = false
is_final blocked = true
is_final skipped = true
is_final dead_letter = true
is_final retrying = false

-- The work of the attempt raises before its row is there: `send_task` does, where an attempt below
-- the limit is to be tried again; or the insert of the row does; or `send_signed` ends in a
-- ValueError, for an active subscription with a readable secret whose URL has an address that
-- `ip_address` cannot read.
abbrev pub IsRaised : Network → Bool → Surroundings → ℕ → Type 0
IsRaised n allow w k =
    ((w.send_fails ≡ true) × (k < 6) × (retryable (outcome_of w.response) ≡ true))
    ⊎ (w.log_fails ≡ true)
    ⊎ ((s : Subscription) × (secret : Text) × (w.subscription ≡ some s)
        × (s.is_active ≡ true)
        × (w.secret ≡ some secret)
        × (validate_outbound_url n allow s.endpoint_url ≡ err value_error))

-- A row with this number, a final status and no retry announced.
abbrev pub IsFinalRow : ℕ → LogRow → Type 0
IsFinalRow k r = (r.attempt ≡ k) × (is_final r.status ≡ true) × (r.next_retry_at ≡ none)

-- A row with this number, the status of a retry and the time at which it is due.
abbrev pub IsRetryRow : ℕ → ℕ → LogRow → Type 0
IsRetryRow k now r =
    (r.attempt ≡ k)
    × (r.status ≡ retrying)
    × (r.success ≡ false)
    × (r.next_retry_at ≡ some (now + retry_delay_seconds k))

-- The last attempt: nothing is queued, and there is a final row unless something raised.
abbrev pub IsLast : Network → Bool → Surroundings → ℕ → Attempt → Type 0
IsLast n allow w k a =
    (a.next ≡ none) × (IsRaised n allow w k ⊎ ((r : LogRow) × (a.row ≡ some r) × IsFinalRow k r))

-- An attempt that is tried again after the delay for its number: there is a row of the retry unless
-- the insert of it raised.
abbrev pub IsRetried : Surroundings → ℕ → Attempt → Type 0
IsRetried w k a =
    (a.next ≡ some (retry_delay_seconds k))
    × ((w.log_fails ≡ true) ⊎ ((r : LogRow) × (a.row ≡ some r) × IsRetryRow k w.now r))

module _ (n : Network) (allow : Bool) where
  logged-IsLast :
      (w : Surroundings) (k : ℕ) (o : Outcome) (post : Option Post)
      → is_final o.status ≡ true
      → IsLast n allow w k (logged w k o post)
  logged-IsLast w k o post f = (refl, by_fault w.log_fails refl)
    where
      row : LogRow
      row = record {
        attempt = k;
        status = o.status;
        response_status = o.response_status;
        success = success o;
        next_retry_at = none;
      }

      by_fault :
          (b : Bool)
          → w.log_fails ≡ b
          → IsRaised n allow w k
            ⊎ ((r : LogRow) × ((if b then none else some row) ≡ some r) × IsFinalRow k r)
      by_fault true e = inl (inr (inl e))
      by_fault false e = inr (row, refl, (refl, f, refl))

  -- An attempt is the last one or tried again, the latter only below the limit.
  abbrev pub IsStep : Surroundings → ℕ → Attempt → Type 0
  IsStep w k a = IsLast n allow w k a ⊎ (IsRetried w k a × (k < 6))

  retry-IsStep :
      (w : Surroundings) (k : ℕ) (o : Outcome) (post : Option Post)
      → k < 6
      → retryable (outcome_of w.response) ≡ true
      → IsStep w k (retry_later w k o post)
  unfolding retry_later retry_delay_seconds
  retry-IsStep w k o post below again = by_fault w.send_fails w.log_fails refl refl
    where
      row : LogRow
      row = record {
        attempt = k;
        status = retrying;
        response_status = o.response_status;
        success = false;
        next_retry_at = some (w.now + retry_delay_seconds k);
      }

      by_fault :
          (unsent unlogged : Bool)
          → w.send_fails ≡ unsent
          → w.log_fails ≡ unlogged
          → IsStep w k (
              if unsent then record { row = none; post = post; next = none } else record {
                row = if unlogged then none else some row;
                post = post;
                next = some (retry_delay_seconds k);
              })
      by_fault true unlogged e f = inl (refl, inl (inl (e, below, again)))
      by_fault false true e f = inr ((refl, inl f), below)
      by_fault false false e f = inr ((refl, inr (row, refl, (refl, refl, refl, refl))), below)

  -- An outcome that `send_signed` gives: one to try again is that of the response.
  abbrev IsSent : Option ℕ → Outcome → Type 0
  IsSent response o =
      ((is_final o.status ≡ true) × (retryable o ≡ false))
      ⊎ ((retryable o ≡ true) × (retryable (outcome_of response) ≡ true))

  sent_lem :
      (w : Surroundings) (k : ℕ) (o : Outcome) (post : Option Post)
      → IsSent w.response o
      → IsStep w k (after_send w k (some (o, post)))
  unfolding after_send
  sent_lem w k o post h = by_flags (retryable o) (ltb k max_delivery_attempts) refl refl h
    where
      by_flags :
          (again below : Bool)
          → retryable o ≡ again
          → ltb k max_delivery_attempts ≡ below
          → IsSent w.response o
          → IsStep w k (
              if again && below
              then retry_later w k o post
              else if again
              then logged w k (record o { status = dead_letter }) post
              else logged w k o post)
      by_flags true true e l (inl f) = cc
      by_flags true true e l (inr f) = retry-IsStep w k o post (ground arith) f.1
      by_flags true false e l x =
          inl (logged-IsLast w k (record o { status = dead_letter }) post refl)
      by_flags false below e l (inl f) = inl (logged-IsLast w k o post f.0)
      by_flags false below e l (inr f) = cc

  final_or_again :
      (response : Option ℕ)
      → let o = outcome_of response in
        ((is_final o.status ≡ true) × (retryable o ≡ false)) ⊎ (retryable o ≡ true)
  final_or_again none = inr refl
  final_or_again (some code) = by_flag (leb 200 code && ltb code 300)
    where
      by_flag :
          (fine : Bool)
          → let o : Outcome = record {
            status = if fine then delivered else failed;
            response_status = code;
          } in
            ((is_final o.status ≡ true) × (retryable o ≡ false)) ⊎ (retryable o ≡ true)
      by_flag true = inl (refl, refl)
      by_flag false = inr refl

  outcome_of-IsSent : (response : Option ℕ) → IsSent response (outcome_of response)
  outcome_of-IsSent response = elim (final_or_again response) [ inl h ↦ inl h | inr h ↦ inr (h, h) ]

  crashed-IsLast :
      (k : ℕ) (w : Surroundings) (s : Subscription) (secret : Text)
      → w.subscription ≡ some s
      → s.is_active ≡ true
      → w.secret ≡ some secret
      → validate_outbound_url n allow s.endpoint_url ≡ err value_error
      → IsLast n allow w k (after_send w k none)
  unfolding after_send
  crashed-IsLast k w s secret e a x v = (refl, inl (inr (inr (s, secret, e, a, x, v))))

  post-IsStep :
      (k : ℕ) (d : Digest) (secret body : Text) (w : Surroundings) (s : Subscription)
      (r : Result UrlError ResolvedTarget)
      → w.subscription ≡ some s
      → s.is_active ≡ true
      → w.secret ≡ some secret
      → validate_outbound_url n allow s.endpoint_url ≡ r
      → IsStep w k (after_send w k (post_to d secret body w r))
  unfolding post_to
  post-IsStep k d secret body w s (ok target) e a x v =
      sent_lem w k (outcome_of w.response) _ (outcome_of-IsSent w.response)
  post-IsStep k d secret body w s (err value_error) e a x v =
      inl (crashed-IsLast k w s secret e a x v)
  post-IsStep k d secret body w s (err empty_or_long) e a x v =
      sent_lem w k _ none (inl (refl, refl))
  post-IsStep k d secret body w s (err bad_scheme) e a x v = sent_lem w k _ none (inl (refl, refl))
  post-IsStep k d secret body w s (err has_credentials) e a x v =
      sent_lem w k _ none (inl (refl, refl))
  post-IsStep k d secret body w s (err no_host) e a x v = sent_lem w k _ none (inl (refl, refl))
  post-IsStep k d secret body w s (err invalid_port) e a x v =
      sent_lem w k _ none (inl (refl, refl))
  post-IsStep k d secret body w s (err internal_name) e a x v =
      sent_lem w k _ none (inl (refl, refl))
  post-IsStep k d secret body w s (err unresolved) e a x v = sent_lem w k _ none (inl (refl, refl))
  post-IsStep k d secret body w s (err (not_public raw)) e a x v =
      sent_lem w k _ none (inl (refl, refl))

  active-IsStep :
      (d : Digest) (body : Text) (k : ℕ) (w : Surroundings) (s : Subscription)
      (secret : Option Text)
      → w.subscription ≡ some s
      → s.is_active ≡ true
      → w.secret ≡ secret
      → IsStep w k (deliver_active n d allow body k w s secret)
  unfolding deliver_active send_signed
  active-IsStep d body k w s none e a x =
      inl (logged-IsLast w k (record { status = dead_letter; response_status = 0 }) none refl)
  active-IsStep d body k w s (some secret) e a x =
      post-IsStep k d secret body w s (validate_outbound_url n allow s.endpoint_url) e a x refl

  pub found-IsStep :
      (d : Digest) (body : Text) (k : ℕ) (w : Surroundings) (o : Option Subscription)
      → w.subscription ≡ o
      → IsStep w k (deliver_found n d allow body k w o)
  unfolding deliver_found
  found-IsStep d body k w none e =
      inl (logged-IsLast w k (record { status = skipped; response_status = 0 }) none refl)
  found-IsStep d body k w (some s) e = by_flag s.is_active refl
    where
      by_flag :
          (active : Bool)
          → s.is_active ≡ active
          → IsStep w k (
              if active
              then deliver_active n d allow body k w s w.secret
              else logged w k (record { status = skipped; response_status = 0 }) none)
      by_flag true a = active-IsStep d body k w s w.secret e a refl
      by_flag false a =
          inl (logged-IsLast w k (record { status = skipped; response_status = 0 }) none refl)
