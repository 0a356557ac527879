-- ===== src/Webhooks/Tests.antt =====
-- Examples: a receiver that fails until the third attempt, and the URLs of a public and a private
-- address.
use bormo_stats.Base.{
  ℕ, ◌≤◌, ◌≡◌, ◌⊎◌, ◌+◌, ◌++◌, arith, refl, true, false, none, some, [], ◌∷◌, length, if◌then◌else◌,
  ltb,
}
use bormo_stats.Base.Text.{codes, codes_eq}
use bormo_stats.Base.Results.{ok, err}
use bormo_stats.Webhooks.Targets.{
  Address, v4, Network, not_public, ResolvedTarget, validate_outbound_url,
}
use bormo_stats.Webhooks.Signing.{
  Digest, compute_signature, verify_signature, IsDecimal, IsCollision, verify_signature_binds,
}
use bormo_stats.Webhooks.Delivery.{
  Subscription, Surroundings, delivered, Post, post_to, send_signed, deliveries, dispatch_event,
}
use bormo_stats.Webhooks.Attempts.{IsChain, deliveries-ends}
use bormo_stats.Webhooks.Pinning.{IsSafePost, send_signed-IsSafePost}

abbrev public_address : Address
public_address =
    v4 (record {
      is_global = true;
      is_multicast = false;
      is_reserved = false;
      is_link_local = false;
    })

abbrev private_address : Address
private_address =
    v4 (record {
      is_global = false;
      is_multicast = false;
      is_reserved = false;
      is_link_local = false;
    })

-- Every URL names the host "a", with the address 8.8.8.8 or 10.0.0.1.
abbrev network : Address → Network
network a = record {
  urlsplit = λ url. record {
    scheme = codes "https";
    username = [];
    password = [];
    hostname = codes "a.";
    port = some none;
  };
  lower = λ s. s;
  ip_address = λ s. if codes_eq s (codes "a") then none else some (s, a);
  getaddrinfo = λ host port. some (codes "1.1.1.1" ∷ []);
}

abbrev digest : Digest
digest = record { hmac = λ secret message. message; str = λ n. (n + 47) ∷ [] }

abbrev hook : Subscription
hook = record {
  subscription_id = codes "s";
  endpoint_url = codes "https://a";
  events = codes "*" ∷ [];
  is_active = true;
}

abbrev target : ResolvedTarget
target = record {
  url = codes "https://a";
  scheme = codes "https";
  host = codes "a";
  port = 443;
  addresses = codes "1.1.1.1" ∷ [];
}

private_is_refused :
    validate_outbound_url (network private_address) false (codes "https://a")
    ≡ err (not_public (codes "1.1.1.1"))
unfolding validate_outbound_url
private_is_refused = refl

public_is_accepted :
    validate_outbound_url (network public_address) false (codes "https://a") ≡ ok target
unfolding validate_outbound_url
public_is_accepted = refl

digits-IsDecimal : IsDecimal digest
digits-IsDecimal = (λ n. ((λ e. absurd (omega (arith, e))), tt), λ m n e. ground (arith, e))

abbrev stamp : ℕ
stamp = 100

verify_signature_binds_example :
    (50 ≤ 300)
    × (10 ≤ 300)
    × (((stamp ≡ stamp) × (codes "b" ≡ codes "b"))
        ⊎ IsCollision digest
            (codes "k")
            (digest.str 100 ++ 46 ∷ codes "b")
            (digest.str 100 ++ 46 ∷ codes "b"))
unfolding verify_signature compute_signature codes_eq
verify_signature_binds_example =
    verify_signature_binds digest (codes "k") 100 100 (codes "b") (codes "b")
      (compute_signature digest (codes "k") 100 (codes "b")) 300 150 110 digits-IsDecimal refl refl

abbrev world : ℕ → Surroundings
world k = record {
  subscription = some hook;
  secret = some (codes "k");
  now = k;
  response = if ltb k 3 then none else some 204;
  send_fails = false;
  log_fails = false;
}

deliveries-ends_example :
    IsChain
      (network public_address)
      false
      world
      1
      (deliveries (network public_address) digest false (codes "b") 6 1 world)
    × (length (deliveries (network public_address) digest false (codes "b") 6 1 world) ≤ 6)
deliveries-ends_example = deliveries-ends (network public_address) false digest (codes "b") world

abbrev post : Post
post = record {
  url = codes "https://a";
  pinned = some (codes "1.1.1.1");
  timestamp = 3;
  signature = compute_signature digest (codes "k") 3 (codes "b");
}

send_signed-IsSafePost_example :
    IsSafePost (network public_address) digest hook (codes "k") (codes "b") post
unfolding send_signed validate_outbound_url post_to
send_signed-IsSafePost_example =
    send_signed-IsSafePost (network public_address) digest hook (codes "k") (codes "b") (world 3)
      (record { status = delivered; response_status = 204 }) post (λ host port e. cc) refl

dispatched :
    dispatch_event (codes "webhook.test") (hook ∷ record hook { is_active = false } ∷ [])
    ≡ codes "s" ∷ []
unfolding dispatch_event
dispatched = refl
