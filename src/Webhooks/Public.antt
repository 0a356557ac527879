-- ===== src/Webhooks/Public.antt =====
-- `validate_outbound_url`: the addresses of a target.
use mathlib.Core.Path.{subst}
use bormo_stats.Base.{
  ℕ, ◌≡◌, ◌≢◌, ◌∙◌, refl, sym, Bool, true, false, not, ◌||◌, Option, none, some, List, [], ◌∷◌, ltb,
  length, if◌then◌else◌, All,
}
use bormo_stats.Base.Text.{codes, codes_eq, strip}
use bormo_stats.Base.Results.{Result, ok, err, ok_injective}
use bormo_stats.Webhooks.Targets.{
  Text, Address, is_public, UrlParts, Network, UrlError, empty_or_long, bad_scheme, has_credentials,
  no_host, internal_name, not_public, ResolvedTarget, is_blank, rstrip_dots, is_internal, distinct,
  resolve_host, is_listed, find_addresses, check_address, check_addresses, checked_target,
  build_target, port_of, with_port, is_allowed, check_parts, validate_outbound_url,
}

-- An address that `ip_address` reads and `_is_public` accepts.
abbrev pub IsPublic : Network → Text → Type 0
IsPublic n raw = (a : Text × Address) × (n.ip_address raw ≡ some a) × (is_public a.1 ≡ true)

-- `getaddrinfo` raises where it finds nothing, and never returns an empty list.
abbrev pub IsResolver : Network → Type 0
IsResolver n = (host : Text) (port : ℕ) → n.getaddrinfo host port ≢ some []

-- What is guaranteed of a target.
abbrev pub IsSafe : Network → Text → ResolvedTarget → Type 0
IsSafe n url t =
    (t.url ≡ strip url)
    × (codes_eq t.scheme (codes "https") ≡ true)
    × All (IsPublic n) t.addresses
    × (IsResolver n → t.addresses ≢ [])

one-IsPublic :
    (n : Network) (raw : Text) (o : Option (Text × Address)) (rest : Result {0, 0} UrlError Unit)
    → n.ip_address raw ≡ o
    → check_address raw o rest ≡ ok tt
    → IsPublic n raw × (rest ≡ ok tt)
unfolding check_address
one-IsPublic n raw none rest e h = cc
one-IsPublic n raw (some (literal, a)) rest e h = by_flag (is_public a) refl h
  where
    by_flag :
        (b : Bool)
        → is_public a ≡ b
        → (if b then rest else err (not_public raw)) ≡ ok tt
        → IsPublic n raw × (rest ≡ ok tt)
    by_flag true p q = (((literal, a), e, p), q)
    by_flag false p q = cc

addresses-IsPublic :
    (n : Network) (addresses : List Text)
    → check_addresses n addresses ≡ ok tt
    → All (IsPublic n) addresses
unfolding check_addresses
addresses-IsPublic n [] h = tt
addresses-IsPublic n (a ∷ rest) h =
    let (first, others) = one-IsPublic n a (n.ip_address a) (check_addresses n rest) refl h in
    (first, addresses-IsPublic n rest others)

resolved-filled :
    (o : Option (List Text)) (addresses : List Text)
    → o ≢ some []
    → resolve_host o ≡ ok addresses
    → addresses ≢ []
unfolding resolve_host distinct is_listed
resolved-filled none addresses f h e = cc
resolved-filled (some []) addresses f h e = f refl
resolved-filled (some (a ∷ rest)) addresses f h e =
    let wrong : a ∷ distinct (a ∷ []) rest ≡ [] = ok_injective h ∙ e in cc

-- A literal address stands for itself, and a name has one address at least.
find_addresses-filled :
    (n : Network) (host : Text) (port : ℕ) (o : Option (Text × Address)) (addresses : List Text)
    → IsResolver n
    → find_addresses n false host port o ≡ ok addresses
    → addresses ≢ []
unfolding find_addresses
find_addresses-filled n host port (some (literal, a)) addresses f h =
    λ e. let wrong : literal ∷ [] ≡ [] = ok_injective h ∙ e in cc
find_addresses-filled n host port none addresses f h = by_flag (is_internal host) h
  where
    by_flag :
        (internal : Bool)
        → (if internal then err internal_name else resolve_host (n.getaddrinfo host port))
          ≡ ok addresses
        → addresses ≢ []
    by_flag true q = λ e. cc
    by_flag false q = resolved-filled (n.getaddrinfo host port) addresses (f host port) q

checked-fields :
    (t u : ResolvedTarget) (r : Result {0, 0} UrlError Unit)
    → checked_target t r ≡ ok u
    → (t ≡ u) × (r ≡ ok tt)
unfolding checked_target
checked-fields t u (err x) h = cc
checked-fields t u (ok v) h = (ok_injective h, refl)

build-IsSafe :
    (n : Network) (url scheme host : Text) (port : ℕ) (found : Result UrlError (List Text))
    (t : ResolvedTarget)
    → codes_eq scheme (codes "https") ≡ true
    → (IsResolver n → (addresses : List Text) → found ≡ ok addresses → addresses ≢ [])
    → build_target n false (strip url) scheme host port found ≡ ok t
    → IsSafe n url t
unfolding build_target
build-IsSafe n url scheme host port (err x) t s f h = cc
build-IsSafe n url scheme host port (ok addresses) t s f h =
    let (same, checked) =
      checked-fields
        (record {
          url = strip url;
          scheme = scheme;
          host = host;
          port = port;
          addresses = addresses;
        })
        t (check_addresses n addresses) h in
    subst (IsSafe n url) same
      (refl, s, addresses-IsPublic n addresses checked, λ r. f r addresses refl)

port-IsSafe :
    (n : Network) (url scheme host : Text) (port : Option (Option ℕ)) (t : ResolvedTarget)
    → codes_eq scheme (codes "https") ≡ true
    → with_port n false (strip url) scheme host port ≡ ok t
    → IsSafe n url t
unfolding with_port
port-IsSafe n url scheme host none t s h = cc
port-IsSafe n url scheme host (some port) t s h =
    build-IsSafe n url scheme host (port_of scheme port)
      (find_addresses n false host (port_of scheme port) (n.ip_address host)) t s
      (λ r addresses.
        find_addresses-filled n host (port_of scheme port) (n.ip_address host) addresses r)
      h

https_only : (scheme : Text) → is_allowed false scheme ≡ codes_eq scheme (codes "https")
unfolding is_allowed
https_only scheme = by_flag (codes_eq scheme (codes "https"))
  where
    by_flag : (b : Bool) → (b || false) ≡ b
    by_flag true = refl
    by_flag false = refl

parts-IsSafe :
    (n : Network) (url : Text) (parts : UrlParts) (t : ResolvedTarget)
    → check_parts n false (strip url) parts ≡ ok t
    → IsSafe n url t
unfolding check_parts
parts-IsSafe n url parts t h =
    by_flags (is_allowed false (n.lower parts.scheme))
      (not (is_blank parts.username) || not (is_blank parts.password))
      (is_blank (n.lower (rstrip_dots parts.hostname))) (https_only (n.lower parts.scheme)) h
  where
    by_flags :
        (https named hostless : Bool)
        → https ≡ codes_eq (n.lower parts.scheme) (codes "https")
        → (if not https
            then err bad_scheme
            else if named
            then err has_credentials
            else if hostless
            then err no_host
            else with_port n false
                (strip url)
                (n.lower parts.scheme)
                (n.lower (rstrip_dots parts.hostname))
                parts.port)
          ≡ ok t
        → IsSafe n url t
    by_flags true false false e q =
        port-IsSafe n url (n.lower parts.scheme) (n.lower (rstrip_dots parts.hostname)) parts.port t
          (sym e) q
    by_flags true false true e q = cc
    by_flags true true hostless e q = cc
    by_flags false named hostless e q = cc

-- A URL that `validate_outbound_url` accepts without `allow_private` uses https, and every address
-- that the target was resolved to, or that it names itself, is public; the target's URL is the
-- text that was validated, and there is an address where `getaddrinfo` returns no empty list.
pub validate_outbound_url-IsSafe :
    (n : Network) (url : Text) (t : ResolvedTarget)
    → validate_outbound_url n false url ≡ ok t
    → IsSafe n url t
unfolding validate_outbound_url
validate_outbound_url-IsSafe n url t h = by_flag (is_blank url || ltb 2048 (length url)) h
  where
    by_flag :
        (bad : Bool)
        → (if bad
            then err empty_or_long
            else check_parts n false (strip url) (n.urlsplit (strip url)))
          ≡ ok t
        → IsSafe n url t
    by_flag true q = cc
    by_flag false q = parts-IsSafe n url (n.urlsplit (strip url)) t q
