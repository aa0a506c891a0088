-- ===== src/Security/Ssrf.antt =====
-- `check_webhook_url` of voclyp/security.py. The parts of a URL (`urlsplit`), the addresses that a
-- host resolves to (`socket.getaddrinfo`) and the classes of an address (`ipaddress`) come from
-- Python's library, so they are arguments.
use voclyp_dev.Prelude.{
  ℕ, zero, String, ◌≡◌, refl, Bool, true, false, not, ◌&&◌, ◌||◌, Option, none, some, List, [], ◌∷◌,
  arith, if◌then◌else◌, str_eq, eq_iff, All,
}

-- the result of `urlsplit`
pub record UrlParts : Type 0 where
  pub scheme : String
  pub hostname : Option String
  pub port : Option ℕ
  pub username : Option String
  pub password : Option String

-- the classes of an `ipaddress` object
pub record Address : Type 0 where
  pub is_private : Bool
  pub is_loopback : Bool
  pub is_link_local : Bool
  pub is_reserved : Bool
  pub is_multicast : Bool
  pub is_unspecified : Bool

pub data UrlCheck : Type 0 where
  url_ok bad_scheme missing_host has_credentials unresolved non_public : UrlCheck

-- the condition of the loop over the resolved addresses
abbrev pub internal : Address → Bool
internal ip =
    ip.is_private || ip.is_loopback || ip.is_link_local || ip.is_reserved || ip.is_multicast
    || ip.is_unspecified

-- a missing text and an empty one are both falsy
pub truthy : Option String → Bool
truthy none = false
truthy (some s) = not (str_eq s "")

check_addresses : List Address → UrlCheck
check_addresses [] = url_ok
check_addresses (ip ∷ ips) =
    let rest = check_addresses ips in if internal ip then non_public else rest

-- `parts.port or 443`
abbrev pub port_of : Option ℕ → ℕ
port_of none = 443
port_of (some zero) = 443
port_of (some n) = n

abbrev pub host_of : Option String → String
host_of none = ""
host_of (some h) = h

allowed_scheme : Bool → String → Bool
allowed_scheme allow_insecure scheme =
    str_eq scheme "https" || (allow_insecure && str_eq scheme "http")

check_resolved : Option (List Address) → UrlCheck
check_resolved none = unresolved
check_resolved (some ips) = check_addresses ips

unfoldable pub check_webhook_url : (String → ℕ → Option (List Address)) → Bool → UrlParts → UrlCheck
unfolding check_resolved check_addresses allowed_scheme truthy
check_webhook_url getaddrinfo allow_insecure parts =
    if str_eq parts.scheme "log"
    then url_ok
    else if not (allowed_scheme allow_insecure parts.scheme)
    then bad_scheme
    else if not (truthy parts.hostname)
    then missing_host
    else if truthy parts.username || truthy parts.password
    then has_credentials
    else check_resolved (getaddrinfo (host_of parts.hostname) (port_of parts.port))

check_addresses-public :
    (ips : List Address) → check_addresses ips ≡ url_ok → All (λ ip. internal ip ≡ false) ips
unfolding check_addresses
check_addresses-public [] h = tt
check_addresses-public (ip ∷ ips) h = (ground arith, check_addresses-public ips (ground arith))

check_resolved-public :
    (o : Option (List Address))
    → check_resolved o ≡ url_ok
    → (ips : List Address) × (o ≡ some ips) × All (λ ip. internal ip ≡ false) ips
unfolding check_resolved
check_resolved-public none h = cc
check_resolved-public (some ips) h = (ips, refl, check_addresses-public ips h)

-- A URL that passes, and is not the `log://` sink, has an allowed scheme, a host and no credentials,
-- and its host resolves to addresses of which none is internal; without `allow_insecure` the
-- scheme is https.
pub checked_url-public :
    (getaddrinfo : String → ℕ → Option (List Address)) (parts : UrlParts)
    → str_eq parts.scheme "log" ≡ false
    → check_webhook_url getaddrinfo false parts ≡ url_ok
    → (parts.scheme ≡ "https")
      × (truthy parts.hostname ≡ true)
      × (truthy parts.username ≡ false)
      × (truthy parts.password ≡ false)
      × ((ips : List Address) × (getaddrinfo (host_of parts.hostname) (port_of parts.port)
            ≡ some ips)
          × All (λ ip. internal ip ≡ false) ips)
unfolding check_webhook_url
checked_url-public getaddrinfo parts sink h =
    let answer = getaddrinfo (host_of parts.hostname) (port_of parts.port) in
    let resolved : check_resolved answer ≡ url_ok = ground arith in
    (
      ground (arith, eq_iff parts.scheme "https"),
      ground arith,
      ground arith,
      ground arith,
      check_resolved-public answer resolved,
    )
