-- ===== src/Webhooks/Pinning.antt =====
-- `send_signed`: where requests go, and what signs them.
use bormo_stats.Base.{◌≡◌, ◌≢◌, refl, ap, true, false, Option, none, some, List, [], ◌∷◌, All}
use bormo_stats.Base.Text.{strip}
use bormo_stats.Base.Results.{Result, ok, err, some_injective}
use mathlib.Core.Path.{subst}
use bormo_stats.Webhooks.Targets.{
  Text, Network, UrlError, empty_or_long, bad_scheme, has_credentials, no_host, invalid_port,
  internal_name, unresolved, not_public, value_error, ResolvedTarget, validate_outbound_url,
}
use bormo_stats.Webhooks.Public.{IsPublic, IsResolver, validate_outbound_url-IsSafe}
use bormo_stats.Webhooks.Signing.{Digest, compute_signature}
use bormo_stats.Webhooks.Delivery.{
  Subscription, blocked, Outcome, Post, Surroundings, first_address, post_to, send_signed,
}

first-IsPublic :
    (n : Network) (addresses : List Text)
    → All (IsPublic n) addresses
    → addresses ≢ []
    → (a : Text) × (first_address addresses ≡ some a) × IsPublic n a
first-IsPublic n [] h f = elim (f refl) [ ]
first-IsPublic n (b ∷ rest) (h, hs) f = (b, refl, h)

-- What is guaranteed of a request.
abbrev pub IsSafePost : Network → Digest → Subscription → Text → Text → Post → Type 0
IsSafePost n d s secret body p =
    (p.url ≡ strip s.endpoint_url)
    × ((a : Text) × (p.pinned ≡ some a) × IsPublic n a)
    × (p.signature ≡ compute_signature d secret p.timestamp body)

abbrev refused : Outcome
refused = record { status = blocked; response_status = 0 }

no_post :
    (b o : Outcome) (p : Post)
    → ◌≡◌ {A = Option (Outcome × Option Post)} (some (b, none)) (some (o, some p))
    → true ≡ false
no_post b o p h =
    let wrong : ◌≡◌ {A = Option Post} none (some p) = ap (λ x. x.1) (some_injective h) in cc

post-IsSafePost :
    (n : Network) (d : Digest) (s : Subscription) (secret body : Text) (w : Surroundings)
    (r : Result UrlError ResolvedTarget) (o : Outcome) (p : Post)
    → IsResolver n
    → validate_outbound_url n false s.endpoint_url ≡ r
    → post_to d secret body w r ≡ some (o, some p)
    → IsSafePost n d s secret body p
unfolding post_to
post-IsSafePost n d s secret body w (ok target) o p f v h =
    let (u, _, public, filled) = validate_outbound_url-IsSafe n s.endpoint_url target v in
    let sent : Post = record {
      url = target.url;
      pinned = first_address target.addresses;
      timestamp = w.now;
      signature = compute_signature d secret w.now body;
    } in
    let same : sent ≡ p = some_injective (ap (λ x. x.1) (some_injective h)) in
    subst (IsSafePost n d s secret body) same
      (u, first-IsPublic n target.addresses public (filled f), refl)
post-IsSafePost n d s secret body w (err value_error) o p f v h = cc
post-IsSafePost n d s secret body w (err empty_or_long) o p f v h =
    let wrong : true ≡ false = no_post refused o p h in cc
post-IsSafePost n d s secret body w (err bad_scheme) o p f v h =
    let wrong : true ≡ false = no_post refused o p h in cc
post-IsSafePost n d s secret body w (err has_credentials) o p f v h =
    let wrong : true ≡ false = no_post refused o p h in cc
post-IsSafePost n d s secret body w (err no_host) o p f v h =
    let wrong : true ≡ false = no_post refused o p h in cc
post-IsSafePost n d s secret body w (err invalid_port) o p f v h =
    let wrong : true ≡ false = no_post refused o p h in cc
post-IsSafePost n d s secret body w (err internal_name) o p f v h =
    let wrong : true ≡ false = no_post refused o p h in cc
post-IsSafePost n d s secret body w (err unresolved) o p f v h =
    let wrong : true ≡ false = no_post refused o p h in cc
post-IsSafePost n d s secret body w (err (not_public raw)) o p f v h =
    let wrong : true ≡ false = no_post refused o p h in cc

-- A request that `send_signed` sends outside development goes to the subscription's URL, is pinned
-- to an address, and a public one, and carries the signature of its body at its timestamp; where
-- `getaddrinfo` never returns an empty list.
pub send_signed-IsSafePost :
    (n : Network) (d : Digest) (s : Subscription) (secret body : Text) (w : Surroundings)
    (o : Outcome) (p : Post)
    → IsResolver n
    → send_signed n d false s secret body w ≡ some (o, some p)
    → IsSafePost n d s secret body p
unfolding send_signed
send_signed-IsSafePost n d s secret body w o p f h =
    post-IsSafePost n d s secret body w (validate_outbound_url n false s.endpoint_url) o p f refl h
