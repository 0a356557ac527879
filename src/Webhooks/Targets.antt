-- ===== src/Webhooks/Targets.antt =====
-- common/url_safety.py. What it calls of urllib, socket and ipaddress is an interface.
use bormo_stats.Base.{
  ℕ, Bool, true, false, not, ◌&&◌, ◌||◌, Option, none, some, List, [], ◌∷◌, reverse, ltb, ◌==◌,
  length, if◌then◌else◌,
}
use bormo_stats.Base.Text.{codes, codes_eq, strip, starts_with}
use bormo_stats.Base.Results.{Result, ok, err}

abbrev pub Text : Type 0
Text = List ℕ

-- What `ipaddress` says of an address.
pub record Properties : Type 0 where
  pub is_global : Bool
  pub is_multicast : Bool
  pub is_reserved : Bool
  pub is_link_local : Bool

-- `IPv4Address` and `IPv6Address`; the latter may hold a mapped IPv4 address.
pub data Address : Type 0 where
  v4 : Properties → Address
  v6 : Properties → Option Properties → Address

abbrev pub is_routable : Properties → Bool
is_routable p = p.is_global && not (p.is_multicast || p.is_reserved || p.is_link_local)

-- `_is_public`
unfoldable pub is_public : Address → Bool
is_public (v4 p) = is_routable p
is_public (v6 p (some mapped)) = is_routable mapped
is_public (v6 p none) = is_routable p

-- What `urlsplit` finds; a part that is missing is empty, and a port that is no number a failure.
pub record UrlParts : Type 0 where
  pub scheme : Text
  pub username : Text
  pub password : Text
  pub hostname : Text
  pub port : Option (Option ℕ)

-- The functions of the libraries; `ip_address` gives the address as `str` writes it too, and a
-- ValueError or a gaierror is `none`.
pub record Network : Type 0 where
  pub urlsplit : Text → UrlParts
  pub lower : Text → Text
  pub ip_address : Text → Option (Text × Address)
  pub getaddrinfo : Text → ℕ → Option (List Text)

-- The raises of UnsafeUrlError, and the ValueError of `ip_address`.
pub data UrlError : Type 0 where
  empty_or_long : UrlError
  bad_scheme : UrlError
  has_credentials : UrlError
  no_host : UrlError
  invalid_port : UrlError
  internal_name : UrlError
  unresolved : UrlError
  not_public : Text → UrlError
  value_error : UrlError

pub record ResolvedTarget : Type 0 where
  pub url : Text
  pub scheme : Text
  pub host : Text
  pub port : ℕ
  pub addresses : List Text

abbrev pub is_blank : Text → Bool
is_blank [] = true
is_blank (c ∷ s) = false

-- `rstrip(".")`
unfoldable pub lstrip_dots : Text → Text
lstrip_dots [] = []
lstrip_dots (c ∷ s) = let rest = lstrip_dots s in if c == 46 then rest else c ∷ s

abbrev pub rstrip_dots : Text → Text
rstrip_dots s = reverse (lstrip_dots (reverse s))

abbrev pub ends_with : Text → Text → Bool
ends_with suffix s = starts_with (reverse suffix) (reverse s)

unfoldable pub is_internal : Text → Bool
unfolding codes_eq starts_with
is_internal host =
    codes_eq host (codes "localhost")
    || ends_with (codes ".localhost") host
    || ends_with (codes ".local") host
    || ends_with (codes ".internal") host

-- `dict.fromkeys`: each address once, in order
unfoldable pub is_listed : Text → List Text → Bool
unfolding codes_eq
is_listed a [] = false
is_listed a (b ∷ bs) = codes_eq a b || is_listed a bs

unfoldable pub distinct : List Text → List Text → List Text
unfolding is_listed
distinct seen [] = []
distinct seen (a ∷ bs) =
    let rest = distinct (a ∷ seen) bs in if is_listed a seen then rest else a ∷ rest

-- `resolve_host`
unfoldable pub resolve_host : Option (List Text) → Result UrlError (List Text)
unfolding distinct
resolve_host none = err unresolved
resolve_host (some infos) = ok (distinct [] infos)

-- a literal address stands for itself; a name is resolved
unfoldable pub find_addresses :
    Network → Bool → Text → ℕ → Option (Text × Address) → Result UrlError (List Text)
unfolding is_internal resolve_host
find_addresses n allow_private host port (some (literal, a)) = ok (literal ∷ [])
find_addresses n allow_private host port none =
    if not allow_private && is_internal host
    then err internal_name
    else resolve_host (n.getaddrinfo host port)

unfoldable pub check_address :
    Text → Option (Text × Address) → Result {0, 0} UrlError Unit → Result {0, 0} UrlError Unit
unfolding is_public
check_address raw none rest = err value_error
check_address raw (some (literal, a)) rest = if is_public a then rest else err (not_public raw)

unfoldable pub check_addresses : Network → List Text → Result {0, 0} UrlError Unit
unfolding check_address
check_addresses n [] = ok tt
check_addresses n (a ∷ rest) = check_address a (n.ip_address a) (check_addresses n rest)

unfoldable pub checked_target :
    ResolvedTarget → Result {0, 0} UrlError Unit → Result UrlError ResolvedTarget
checked_target t (err x) = err x
checked_target t (ok u) = ok t

unfoldable pub build_target :
    Network
    → Bool
    → Text
    → Text
    → Text
    → ℕ
    → Result UrlError (List Text)
    → Result UrlError ResolvedTarget
unfolding check_addresses checked_target
build_target n allow_private url scheme host port (err x) = err x
build_target n allow_private url scheme host port (ok addresses) =
    checked_target
      (record { url = url; scheme = scheme; host = host; port = port; addresses = addresses })
      (if allow_private then ok tt else check_addresses n addresses)

-- the port that is written, or the scheme's
unfoldable pub default_port : Text → ℕ
unfolding codes_eq
default_port scheme = if codes_eq scheme (codes "https") then 443 else 80

unfoldable pub port_of : Text → Option ℕ → ℕ
unfolding default_port
port_of scheme (some port) = if port == 0 then default_port scheme else port
port_of scheme none = default_port scheme

unfoldable pub with_port :
    Network → Bool → Text → Text → Text → Option (Option ℕ) → Result UrlError ResolvedTarget
unfolding find_addresses build_target port_of
with_port n allow_private url scheme host none = err invalid_port
with_port n allow_private url scheme host (some port) =
    build_target n allow_private url scheme host (port_of scheme port)
      (find_addresses n allow_private host (port_of scheme port) (n.ip_address host))

unfoldable pub is_allowed : Bool → Text → Bool
unfolding codes_eq
is_allowed allow_private scheme =
    codes_eq scheme (codes "https") || allow_private && codes_eq scheme (codes "http")

unfoldable pub check_parts : Network → Bool → Text → UrlParts → Result UrlError ResolvedTarget
unfolding is_allowed lstrip_dots with_port
check_parts n allow_private url parts =
    if not (is_allowed allow_private (n.lower parts.scheme))
    then err bad_scheme
    else if not (is_blank parts.username) || not (is_blank parts.password)
    then err has_credentials
    else if is_blank (n.lower (rstrip_dots parts.hostname))
    then err no_host
    else with_port n allow_private url (n.lower parts.scheme) (n.lower (rstrip_dots parts.hostname))
        parts.port

-- `validate_outbound_url`, with `resolve=True`
unfoldable pub validate_outbound_url : Network → Bool → Text → Result UrlError ResolvedTarget
unfolding strip check_parts
validate_outbound_url n allow_private url =
    if is_blank url || ltb 2048 (length url)
    then err empty_or_long
    else check_parts n allow_private (strip url) (n.urlsplit (strip url))
