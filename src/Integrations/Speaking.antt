-- ===== src/Integrations/Speaking.antt =====
-- src/proxylib/integrations/urllib.py and aiohttp.py: the proxies that each client is given.
use proxylib.Prelude.{
  ℕ, ◌≡◌, refl, ap, Bool, false, not, ◌&&◌, ◌||◌, Option, none, some, ◌++◌, arith, if◌then◌else◌,
  is_nil, keep,
}
use proxylib.Python.Exec.{ok, raise, unsupported_proxy_error}
use proxylib.Python.Text.{Text, text, lower, ◌==◌}
use proxylib.Python.Url.{SplitResult, urlsplit}
use proxylib.Net.{Netimps}
use proxylib.Proxy.{Proxy, is_gateway, is_socks}
use proxylib.Lookup.{Proxies, ProxyMap, lookup}
use proxylib.Health.{is_bad}
use proxylib.Health.Ordering.{order_by_health-keep}
use proxylib.Integrations.{
  refused_entry, usable, usable-keep, no_gateway_or_socks, leaks_header, urllib_reason,
}
use proxylib.Integrations.Failover.{raised, Client, send_answer}
use proxylib.Integrations.Aiohttp.{
  Aiohttp, Arguments, routed_entries, sender, is_tunnelled, kept_for, send_usable, routed,
}
use proxylib.Integrations.Urllib.{Urllib, Request, open_entry, open_answer, resolve}

-- an entry that aiohttp cannot use
abbrev pub cannot_speak : Option Proxy → Bool
cannot_speak none = false
cannot_speak (some p) = is_gateway p || is_socks p.scheme

reason_of :
    (url : Text) (e : Option Proxy) → refused_entry no_gateway_or_socks url e ≡ ok (cannot_speak e)
unfolding refused_entry no_gateway_or_socks
reason_of url none = refl
reason_of url (some p) = refl

module _ {S E R : Type 0} ⦃net : Netimps⦄ (aiohttp : Aiohttp S E R) where
  -- Where there are entries, from the map, the argument or the environment, aiohttp is offered all of
  -- them but the gateways and the SOCKS proxies, in order and with failover, and never one of those; and
  -- the request raises `UnsupportedProxyError`, with nothing sent, when no other is left.
  pub routed-speaks :
      (decides trust_env failover : Bool) (ttl : ℕ) (m : ProxyMap (Client S)) (url : Text)
      (args : Arguments) (c : Client S) (entries : Proxies) (parts : SplitResult)
      → urlsplit url ≡ ok parts
      → (routed_entries aiohttp decides trust_env m url args.proxy c).0 ≡ ok (some entries)
      → routed aiohttp false decides trust_env failover ttl m url args c ≡ (
          let c' = (routed_entries aiohttp decides trust_env m url args.proxy c).1 in
          let kept = keep (λ e. not (cannot_speak e)) entries in
          if not (is_nil entries) && is_nil kept
          then (raised unsupported_proxy_error, c')
          else send_answer (sender aiohttp failover ttl (is_tunnelled parts) args) kept c')
  unfolding routed send_usable kept_for
  routed-speaks decides trust_env failover ttl m url args c entries parts split found =
      rw (routed, found) (rw (send_usable, kept_for, kept_cases) (ground (arith, split)))
    where
      kept_cases : usable no_gateway_or_socks url entries ≡ (
          if not (is_nil entries) && is_nil (keep (λ e. not (cannot_speak e)) entries)
          then raise unsupported_proxy_error
          else ok (keep (λ e. not (cannot_speak e)) entries))
      kept_cases = usable-keep cannot_speak no_gateway_or_socks url entries (reason_of url)

-- an entry that urllib cannot use for a URL of the scheme
abbrev pub cannot_open : Text → Option Proxy → Bool
cannot_open scheme none = false
cannot_open scheme (some p) =
    not (is_gateway p) && (is_socks p.scheme || (lower scheme == text "https" && leaks_header p))

urllib_reason_of :
    (url : Text) (parts : SplitResult) (e : Option Proxy)
    → urlsplit url ≡ ok parts
    → refused_entry urllib_reason url e ≡ ok (cannot_open parts.scheme e)
unfolding refused_entry urllib_reason
urllib_reason_of url parts none split = refl
urllib_reason_of url parts (some p) split = rw split (ground arith)

module _ {S B : Type 0} ⦃net : Netimps⦄ (urllib : Urllib) where
  -- For a URL that the map answers, urllib is given the first entry in the order of health among those
  -- it can use: gateways, and proxies that are not SOCKS and, for an https URL, have no headers that
  -- would go through the tunnel. With entries and none of those, the error is `UnsupportedProxyError`.
  pub resolve-picks :
      (clock : S → ℕ) (m : ProxyMap (Client S)) (req : Request B) (c : Client S) (entries : Proxies)
      (parts : SplitResult)
      → urlsplit req.full_url ≡ ok parts
      → (lookup m req.full_url c).0 ≡ ok entries
      → (resolve urllib clock m req c).0 ≡ (
          let c' = (lookup m req.full_url c).1 in
          let kept = keep (λ e. not (cannot_open parts.scheme e)) entries in
          if not (is_nil entries) && is_nil kept
          then raise unsupported_proxy_error
          else open_entry urllib req (
              keep (λ e. not (is_bad (clock c'.rest) c'.breaker e)) kept
              ++ keep (is_bad (clock c'.rest) c'.breaker) kept))
  unfolding resolve open_answer
  resolve-picks clock m req c entries parts split found =
      rw (resolve, found)
        (rw (open_answer, kept_cases)
          (ground (
            arith,
            ap (open_entry urllib req) (
                order_by_health-keep (clock (lookup m req.full_url c).1.rest)
                  (lookup m req.full_url c).1.breaker
                  (keep (λ e. not (cannot_open parts.scheme e)) entries)),
          )))
    where
      kept_cases : usable urllib_reason req.full_url entries ≡ (
          if not (is_nil entries) && is_nil (keep (λ e. not (cannot_open parts.scheme e)) entries)
          then raise unsupported_proxy_error
          else ok (keep (λ e. not (cannot_open parts.scheme e)) entries))
      kept_cases =
          usable-keep (cannot_open parts.scheme) urllib_reason req.full_url entries
            (λ e. urllib_reason_of req.full_url parts e split)
