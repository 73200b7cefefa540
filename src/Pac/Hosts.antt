-- ===== src/Pac/Hosts.antt =====
-- src/proxylib/pac/_functions.py: the builtins on hosts and addresses. A resolved address stays an
-- address here, where the code writes it out and reads it again.
use proxylib.Prelude.{
  ℕ, ◌-◌, ◌<◌, ◌≡◌, refl, Bool, true, false, not, Option, none, some, keep, length, arith, ltb, eqb,
  if◌then◌else◌, is_some, is_nil,
}
use proxylib.Python.Text.{Text, text, has_char, ends_with, cut, ◌==◌}
use proxylib.Python.Dict
use proxylib.Python.Dict.{Dict, Lawful, get-set, text-Lawful}
use proxylib.Python.Ip.{Address, Network, v4, v6, net4, net6, ip_address, ip_network, in_network}
use proxylib.Pac.Timed.{cached_at, cached_at-set}
use proxylib.Net.{Netimps, resolve_ip, resolve_all}

unfoldable pub is_plain_host_name : Text → Bool
is_plain_host_name host = not (has_char b'.' host)

unfoldable pub dns_domain_is : Text → Text → Bool
dns_domain_is host domain = ends_with host domain

unfoldable pub dns_domain_levels : Text → ℕ
dns_domain_levels host = length (keep (eqb b'.') host)

unfoldable pub local_host_or_domain_is : Text → Text → Bool
local_host_or_domain_is host hostdom =
    if is_plain_host_name host
    then (elim (cut (text ".") hostdom) [ none ↦ hostdom | some (bare, _) ↦ bare ]) == host
    else hostdom == host

-- `_dns_cache`
abbrev pub DnsCache : Type 0
DnsCache = Dict Text (ℕ × Option Address)

positive : (t now ttl : ℕ) → now - t < ttl → ltb 0 ttl ≡ true
positive t now ttl h = ground (arith, h)

module _ ⦃net : Netimps⦄ where
  -- `dnsResolve(host, cache_ttl=ttl)`; a `ttl` of `None` is 0
  unfoldable pub dns_resolve : ℕ → ℕ → Text → DnsCache → Option Address × DnsCache
  dns_resolve now ttl host cache = elim (cached_at now ttl host cache) [
    | some a ↦ (a, cache)
    | none ↦
        let found = resolve_ip host (some false) in
        (found, if ltb 0 ttl then Dict.set ◌==◌ cache host (now, found) else cache)
  ]

  unfoldable pub is_resolvable : Text → Bool
  is_resolvable host = is_some (resolve_ip host (some false))

  unfoldable pub is_resolvable_ex : Text → Bool
  is_resolvable_ex host = not (is_nil (resolve_all host))

  unfoldable pub in_some_network : Option Address → Option Network → Bool
  in_some_network (some a) (some n) = in_network a n
  in_some_network _ _ = false

  -- `isInNet`
  unfoldable pub is_in_net : ℕ → Text → Text → Text → DnsCache → Bool × DnsCache
  is_in_net now host pattern mask cache = elim (ip_address host) [
    | some a ↦ (in_some_network (some a) (ip_network pattern mask), cache)
    | none ↦
        let (found, cache') = dns_resolve now 30 host cache in
        (in_some_network found (ip_network pattern mask), cache')
  ]

  -- `ip_network(prefix, strict=False)` of one text: an address alone is a network of its own
  unfoldable pub network_of : Text → Option Network
  network_of prefix = elim (cut (text "/") prefix) [
    | some (a, bits) ↦ ip_network a bits
    | none ↦ elim (ip_address prefix) [
      | none ↦ none
      | some (v4 n) ↦ some (net4 n 32)
      | some (v6 n _) ↦ some (net6 n 128)
    ]
  ]

  -- `isInNetEx`
  unfoldable pub is_in_net_ex : Text → Text → Bool
  is_in_net_ex address prefix = in_some_network (ip_address address) (network_of prefix)

  dns_resolve_miss :
      (t ttl : ℕ) (host : Text) (cache : DnsCache)
      → cached_at t ttl host cache ≡ none
      → ltb 0 ttl ≡ true
      → dns_resolve t ttl host cache
        ≡ (resolve_ip host (some false), Dict.set ◌==◌ cache host (t, resolve_ip host (some false)))
  unfolding dns_resolve resolve_ip Dict.set
  dns_resolve_miss t ttl host cache miss keeps = rw (miss, keeps, dns_resolve) refl

  dns_resolve_hit :
      (now ttl : ℕ) (host : Text) (cache : DnsCache) (a : Option Address)
      → cached_at now ttl host cache ≡ some a
      → dns_resolve now ttl host cache ≡ (a, cache)
  unfolding dns_resolve
  dns_resolve_hit now ttl host cache a hit = rw (hit, dns_resolve) refl

  -- A name resolved at the time `t` is not resolved again while the answer is fresh: whatever the
  -- resolver says then, the answer is the first one, also where the first one was a failure.
  pub dns_resolve-again :
      (t now ttl : ℕ) (host : Text) (cache : DnsCache)
      → cached_at t ttl host cache ≡ none
      → now - t < ttl
      → dns_resolve now ttl host (dns_resolve t ttl host cache).1
        ≡ (resolve_ip host (some false), (dns_resolve t ttl host cache).1)
  dns_resolve-again t now ttl host cache miss soon =
      rw (dns_resolve_miss t ttl host cache miss (positive t now ttl soon)) (
        dns_resolve_hit now ttl host _ (resolve_ip host (some false))
          (cached_at-set t now ttl host (resolve_ip host (some false)) cache soon))
