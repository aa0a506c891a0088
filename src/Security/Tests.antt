-- ===== src/Security/Tests.antt =====
-- The hash chain and the URL check (voclyp/security.py) on concrete texts. The digest here keeps
-- every character and moves it above the separator.
use voclyp_dev.Prelude.{
  ℕ, ◌+◌, String, ◌≡◌, refl, true, false, Option, none, some, List, [], ◌∷◌, ◌++◌, map, All, Text,
}
use voclyp_dev.Security.HashChain.{separator, chain_hash, chain_hash-shift}
use voclyp_dev.Security.Ssrf.{
  UrlParts, Address, UrlCheck, url_ok, truthy, internal, host_of, port_of, check_webhook_url,
  checked_url-public,
}

abbrev digest : Text → Text
digest t = map (λ c. c + 32) t

abbrev previous : Text
previous = 48 ∷ []

abbrev entry : List Text
entry = (97 ∷ []) ∷ (98 ∷ []) ∷ []

chain_hash-shift_example :
    chain_hash digest (48 ∷ []) ((97 ∷ [] ++ separator ∷ 98 ∷ []) ∷ (99 ∷ []) ∷ [])
    ≡ chain_hash digest (48 ∷ []) ((97 ∷ []) ∷ (98 ∷ [] ++ separator ∷ 99 ∷ []) ∷ [])
chain_hash-shift_example = chain_hash-shift digest (48 ∷ []) (97 ∷ []) (98 ∷ []) (99 ∷ []) []

abbrev public_address : Address
public_address = record {
  is_private = false;
  is_loopback = false;
  is_link_local = false;
  is_reserved = false;
  is_multicast = false;
  is_unspecified = false;
}

abbrev loopback : Address
loopback = record public_address { is_private = true; is_loopback = true }

abbrev resolve : String → ℕ → Option (List Address)
resolve host port = some (public_address ∷ [])

abbrev hook : UrlParts
hook = record {
  scheme = "https";
  hostname = some "crm.example";
  port = none;
  username = none;
  password = none;
}

passes : check_webhook_url resolve false hook ≡ url_ok
unfolding check_webhook_url
passes = refl

turned_away :
    check_webhook_url (λ host port. some (public_address ∷ loopback ∷ [])) false hook
    ≡ UrlCheck.non_public
unfolding check_webhook_url
turned_away = refl

checked_url-public_example :
    (hook.scheme ≡ "https")
    × (truthy hook.hostname ≡ true)
    × (truthy hook.username ≡ false)
    × (truthy hook.password ≡ false)
    × ((ips : List Address) × (resolve (host_of hook.hostname) (port_of hook.port) ≡ some ips)
        × All (λ ip. internal ip ≡ false) ips)
checked_url-public_example = checked_url-public resolve hook refl passes
