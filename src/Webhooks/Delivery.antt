-- ===== src/Webhooks/Delivery.antt =====
-- workers/app/tasks/webhooks.py: one attempt to deliver an event, and the tasks that an event
-- queues. What the database, the decryption, the clock and the receiver answer are inputs.
use bormo_stats.Base.{
  ℕ, zero, suc, ◌+◌, Bool, true, false, not, ◌&&◌, ◌||◌, Option, none, some, List, [], ◌∷◌, ltb,
  leb, if◌then◌else◌,
}
use bormo_stats.Base.Results.{Result, ok, err}
use bormo_stats.Webhooks.Targets.{
  Text, Network, UrlError, value_error, ResolvedTarget, validate_outbound_url,
}
use bormo_stats.Webhooks.Signing.{
  Digest, compute_signature, retry_delay_seconds, subscription_matches,
}

pub record Subscription : Type 0 where
  pub subscription_id : Text
  pub endpoint_url : Text
  pub events : List Text
  pub is_active : Bool

pub data Status : Type 0 where
  delivered : Status
  failed : Status
  blocked : Status
  skipped : Status
  dead_letter : Status
  retrying : Status

-- `DeliveryOutcome`
pub record Outcome : Type 0 where
  pub status : Status
  pub response_status : ℕ

abbrev pub success : Outcome → Bool
success o = elim o.status [ delivered ↦ true | _ ↦ false ]

abbrev pub retryable : Outcome → Bool
retryable o = elim o.status [ failed ↦ true | _ ↦ false ]

-- A request that was sent: the address that it is pinned to, its timestamp and signature.
pub record Post : Type 0 where
  pub url : Text
  pub pinned : Option Text
  pub timestamp : ℕ
  pub signature : Text

-- What one attempt meets: the row of the subscription, its secret where it can be decrypted, the
-- clock, the status of the response, or none where the connection failed, and whether `send_task`
-- or the insert of the row raises.
pub record Surroundings : Type 0 where
  pub subscription : Option Subscription
  pub secret : Option Text
  pub now : ℕ
  pub response : Option ℕ
  pub send_fails : Bool
  pub log_fails : Bool

abbrev pub max_delivery_attempts : ℕ
max_delivery_attempts = 6

abbrev pub first_address : List Text → Option Text
first_address [] = none
first_address (a ∷ rest) = some a

abbrev pub outcome_of : Option ℕ → Outcome
outcome_of none = record { status = failed; response_status = 0 }
outcome_of (some code) = record {
  status = if leb 200 code && ltb code 300 then delivered else failed;
  response_status = code;
}

-- The end of `send_signed`: the outcome and the request, or an exception that is no UnsafeUrlError.
unfoldable pub post_to :
    Digest
    → Text
    → Text
    → Surroundings
    → Result UrlError ResolvedTarget
    → Option (Outcome × Option Post)
unfolding compute_signature
post_to d secret body w (err value_error) = none
post_to d secret body w (err x) = some (record { status = blocked; response_status = 0 }, none)
post_to d secret body w (ok target) = some (
  outcome_of w.response,
  some (record {
    url = target.url;
    pinned = first_address target.addresses;
    timestamp = w.now;
    signature = compute_signature d secret w.now body;
  }),
)

-- `send_signed`
unfoldable pub send_signed :
    Network
    → Digest
    → Bool
    → Subscription
    → Text
    → Text
    → Surroundings
    → Option (Outcome × Option Post)
unfolding validate_outbound_url post_to
send_signed n d allow_private s secret body w =
    post_to d secret body w (validate_outbound_url n allow_private s.endpoint_url)

-- A row of webhook_logs.
pub record LogRow : Type 0 where
  pub attempt : ℕ
  pub status : Status
  pub response_status : ℕ
  pub success : Bool
  pub next_retry_at : Option ℕ

-- What an attempt leaves: its row, the request that it sent, and the delay of the next attempt.
-- Where the task raises before it, there is no row.
pub record Attempt : Type 0 where
  pub row : Option LogRow
  pub post : Option Post
  pub next : Option ℕ

-- `_log_attempt`: the row, unless the insert raises
abbrev pub log_attempt : Surroundings → ℕ → Outcome → Option ℕ → Option LogRow
log_attempt w attempt o next_retry_at =
    if w.log_fails
    then none
    else some (record {
      attempt = attempt;
      status = o.status;
      response_status = o.response_status;
      success = success o;
      next_retry_at = next_retry_at;
    })

abbrev pub logged : Surroundings → ℕ → Outcome → Option Post → Attempt
logged w attempt o post = record { row = log_attempt w attempt o none; post = post; next = none }

-- a retry is queued, and then the attempt is logged
unfoldable pub retry_later : Surroundings → ℕ → Outcome → Option Post → Attempt
unfolding retry_delay_seconds
retry_later w attempt o post =
    if w.send_fails then record { row = none; post = post; next = none } else record {
      row =
          log_attempt w attempt (record o { status = retrying })
            (some (w.now + retry_delay_seconds attempt));
      post = post;
      next = some (retry_delay_seconds attempt);
    }

unfoldable pub after_send : Surroundings → ℕ → Option (Outcome × Option Post) → Attempt
unfolding retry_later
after_send w attempt none = record { row = none; post = none; next = none }
after_send w attempt (some (o, post)) =
    if retryable o && ltb attempt max_delivery_attempts
    then retry_later w attempt o post
    else if retryable o
    then logged w attempt (record o { status = dead_letter }) post
    else logged w attempt o post

unfoldable pub deliver_active :
    Network → Digest → Bool → Text → ℕ → Surroundings → Subscription → Option Text → Attempt
unfolding send_signed after_send
deliver_active n d allow_private body attempt w s none =
    logged w attempt (record { status = dead_letter; response_status = 0 }) none
deliver_active n d allow_private body attempt w s (some secret) =
    after_send w attempt (send_signed n d allow_private s secret body w)

unfoldable pub deliver_found :
    Network → Digest → Bool → Text → ℕ → Surroundings → Option Subscription → Attempt
unfolding deliver_active
deliver_found n d allow_private body attempt w none =
    logged w attempt (record { status = skipped; response_status = 0 }) none
deliver_found n d allow_private body attempt w (some s) =
    if s.is_active
    then deliver_active n d allow_private body attempt w s w.secret
    else logged w attempt (record { status = skipped; response_status = 0 }) none

-- `deliver_to_subscription`
unfoldable pub deliver_to_subscription : Network → Digest → Bool → Text → ℕ → Surroundings → Attempt
unfolding deliver_found
deliver_to_subscription n d allow_private body attempt w =
    deliver_found n d allow_private body attempt w w.subscription

-- The attempts of a delivery, one after another while a retry is queued.
unfoldable pub deliveries :
    Network → Digest → Bool → Text → ℕ → ℕ → (ℕ → Surroundings) → List Attempt
unfolding deliver_to_subscription
deliveries n d allow_private body zero attempt world = []
deliveries n d allow_private body (suc fuel) attempt world =
    let a = deliver_to_subscription n d allow_private body attempt (world attempt) in
    let rest = deliveries n d allow_private body fuel (attempt + 1) world in
    a ∷ elim a.next [ none ↦ [] | some delay ↦ rest ]

-- `dispatch_event`: the subscriptions for which a delivery is queued
unfoldable pub dispatch_event : Text → List Subscription → List Text
unfolding subscription_matches
dispatch_event event_type [] = []
dispatch_event event_type (s ∷ rest) =
    let others = dispatch_event event_type rest in
    if not s.is_active || not (subscription_matches s.events event_type)
    then others
    else s.subscription_id ∷ others
