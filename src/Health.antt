-- ===== src/Health.antt =====
-- src/proxylib/_net.py: the proxies that failed a probe (`_circuit_breaker`), and the choices made by
-- them. A time is a number of clock ticks, read once where the code reads the clock once; `probe` is
-- what `netimps.tcp_check` answers for a host and a port during one call.
pub mod Ordering
pub mod Probing
use proxylib.Prelude.{
  ℕ, zero, suc, ◌+◌, Bool, true, false, not, ◌&&◌, ◌||◌, Option, none, some, List, [], ◌∷◌, ◌++◌,
  ltb, eqb, if◌then◌else◌, or_else,
}
use proxylib.Python.Exec.{Result, ok, raise, no_reachable_proxy_error, Exec}
use proxylib.Python.Text.{Text, ◌==◌}
use proxylib.Python.Dict.{Dict, get, set}
use proxylib.Net.{Netimps, default_port}
use proxylib.Proxy.{Proxy}

-- the keys of the breaker, and its entries: until when a proxy is skipped
abbrev pub same_endpoint : Text × ℕ → Text × ℕ → Bool
same_endpoint (h, p) (k, q) = h == k && eqb p q

abbrev pub Breaker : Type 0
Breaker = Dict (Text × ℕ) ℕ

-- `until is not None and now < until`
unfoldable pub is_skipped : ℕ → Breaker → Text × ℕ → Bool
is_skipped now breaker k = elim (get same_endpoint breaker k) [ none ↦ false | some t ↦ ltb now t ]

-- `a or b` of two ports
abbrev pub port_or : Option ℕ → Option ℕ → Option ℕ
port_or (some (suc n)) other = some (suc n)
port_or _ other = other

module _ ⦃net : Netimps⦄ where
  unfoldable pub health_key : Proxy → Text × ℕ
  health_key p = (p.host, or_else (port_or p.port (default_port p.scheme)) 0)

  -- `mark_bad(proxy, ttl=ttl)` at the time `now`
  unfoldable pub mark_bad : Option Proxy → ℕ → ℕ → Breaker → Breaker
  mark_bad none ttl now breaker = breaker
  mark_bad (some p) ttl now breaker =
      if ltb 0 ttl then set same_endpoint breaker (health_key p) (now + ttl) else breaker

  unfoldable pub is_bad : ℕ → Breaker → Option Proxy → Bool
  is_bad now breaker none = false
  is_bad now breaker (some p) = is_skipped now breaker (health_key p)

  -- the loop of `order_by_health`, over the lists `good` and `bad`
  unfoldable pub order_from :
      ℕ
      → Breaker
      → List (Option Proxy)
      → List (Option Proxy)
      → List (Option Proxy)
      → List (Option Proxy)
  order_from now breaker good bad [] = good ++ bad
  order_from now breaker good bad (e ∷ es) =
      let to_bad = order_from now breaker good (bad ++ e ∷ []) es in
      let to_good = order_from now breaker (good ++ e ∷ []) bad es in
      if is_bad now breaker e then to_bad else to_good

  unfoldable pub order_by_health : ℕ → Breaker → List (Option Proxy) → List (Option Proxy)
  order_by_health now breaker es = order_from now breaker [] [] es

  -- `proxy.port or default_port(proxy.scheme)`, where `if not port` does not skip the proxy
  abbrev pub nonzero : Option ℕ → Option ℕ
  nonzero (some (suc n)) = some (suc n)
  nonzero _ = none

  unfoldable pub probe_port : Proxy → Option ℕ
  probe_port p = nonzero (port_or p.port (default_port p.scheme))

  -- `if circuit_breaker_ttl:` and the writes that it guards
  unfoldable pub note_failure : ℕ → ℕ → Text × ℕ → Breaker → Breaker
  note_failure now ttl k breaker =
      if ltb 0 ttl then set same_endpoint breaker k (now + ttl) else breaker

  module _ (probe : Text → ℕ → Bool) (now ttl : ℕ) where
    -- `first_working_proxy(proxies, circuit_breaker_ttl=ttl)`; a `ttl` of `None` is 0
    unfoldable pub first_working_proxy : List (Option Proxy) → Exec Breaker (Option Proxy)
    first_working_proxy [] breaker = (raise no_reachable_proxy_error, breaker)
    first_working_proxy (none ∷ es) breaker = (ok none, breaker)
    first_working_proxy (some p ∷ es) breaker = elim (probe_port p) [
      | none ↦ first_working_proxy es breaker
      | some n ↦
          let skipped = first_working_proxy es breaker in
          let failed = first_working_proxy es (note_failure now ttl (p.host, n) breaker) in
          if ltb 0 ttl && is_skipped now breaker (p.host, n)
          then skipped
          else if probe p.host n
          then (ok (some p), breaker)
          else failed
    ]
