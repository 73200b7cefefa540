-- ===== src/Integrations/Aiohttp.antt =====
-- src/proxylib/integrations/aiohttp.py: `_routed`, which chooses the proxy of one aiohttp request. The
-- session that sends it, the headers that it takes and its exceptions are arguments, like the proxies
-- and the `NO_PROXY` test that urllib reads from the environment.
pub mod Session
use proxylib.Prelude.{
  ℕ, Bool, true, false, not, ◌||◌, Option, none, some, List, [], ◌∷◌, if◌then◌else◌, keep,
}
use proxylib.Python.Exec.{Result, ok, raise, key_error, is_a, ◌>>=◌, Exec}
use proxylib.Python.Text.{Text, text, lower, ◌==◌}
use proxylib.Python.Dict.{Dict}
use proxylib.Python.Url.{SplitResult, urlsplit, hostname}
use proxylib.Net.{Netimps}
use proxylib.Proxy.{Proxy, uri}
use proxylib.Lookup.{Proxies, ProxyMap, lookup, str, Answer, one, normalise, is_chain}
use proxylib.Integrations.{env_chain, usable, no_gateway_or_socks}
use proxylib.Integrations.Failover.{
  Outcome, Reply, replied, raised, Client, Sender, left, send_answer,
}

abbrev pub Headers : Type 0
Headers = List (Text × Text)

-- `CIMultiDict.__setitem__`: the first header of the name gets the value, the others go
unfoldable pub ci_set : Headers → Text → Text → Headers
ci_set [] name value = (name, value) ∷ []
ci_set (h ∷ hs) name value =
    let others = h ∷ ci_set hs name value in
    if lower h.0 == lower name
    then (name, value) ∷ keep (λ g. not (lower g.0 == lower name)) hs
    else others

-- `_merged`
unfoldable pub merged : Headers → Headers → Headers
merged headers [] = headers
merged headers ((name, value) ∷ extra) = merged (ci_set headers name value) extra

-- the keyword arguments of `send`; a plain proxy argument goes on as given
pub record Arguments : Type 0 where
  pub proxy : Option Answer
  pub proxy_headers : Headers
  pub headers : Headers

-- aiohttp, for one request
pub record Aiohttp (S E R : Type 0) : Type 0 where
  pub send : Arguments → S → Outcome E R × S
  pub is_failover_error : E → Bool
  pub monotonic : S → ℕ
  -- `getproxies_environment()` and `proxy_bypass`
  pub environment : Dict Text Text
  pub proxy_bypass : Text → Bool

unfoldable pub is_tunnelled : SplitResult → Bool
is_tunnelled parts = lower parts.scheme == text "https" || lower parts.scheme == text "wss"

module _ ⦃net : Netimps⦄ where
  -- the body of the loop, for a URL that aiohttp tunnels or not
  unfoldable pub arguments_for : Bool → Arguments → Option Proxy → Arguments
  arguments_for tunnelled args none = record args { proxy = none }
  arguments_for tunnelled args (some p) =
      if tunnelled
      then record args {
        proxy = some (one (str (uri p)));
        proxy_headers = merged args.proxy_headers p.headers;
      }
      else record args { proxy = some (one (str (uri p))); headers = merged args.headers p.headers }

-- the entries that aiohttp can use, and the parts of the URL
unfoldable pub kept_for : Text → Proxies → Result (Proxies × SplitResult)
kept_for url entries = do
  kept ← usable no_gateway_or_socks url entries
  parts ← urlsplit url
  ok (kept, parts)

module _ {S E R : Type 0} ⦃net : Netimps⦄ (aiohttp : Aiohttp S E R) where
  -- `parts.hostname and proxy_bypass(parts.hostname)`
  is_bypassed : Option Text → Bool
  is_bypassed none = false
  is_bypassed (some host) = aiohttp.proxy_bypass host

  -- `_env_entries`
  unfoldable pub env_entries : Text → Result (Option Proxies)
  unfolding is_bypassed
  env_entries url = do
    parts ← urlsplit url
    elim (env_chain aiohttp.environment (lower parts.scheme)) [
      | none ↦ ok none
      | some value ↦
          if is_bypassed (hostname parts)
          then ok none
          else (do es ← normalise (one (str value)); ok (some es))
    ]

  -- `entries` of a `proxy` argument that is not `None`
  unfoldable pub given_entries : Answer → Result (Option Proxies)
  given_entries (one (str s)) =
      if not (is_chain s) then ok none else (do es ← normalise (one (str s)); ok (some es))
  given_entries value = do es ← normalise value; ok (some es)

  -- `await _env_entries(url)`, with `trust_env`
  env_if : Bool → Text → Result (Option Proxies)
  env_if trust_env url = if trust_env then env_entries url else ok none

  -- `decides`: `getattr(proxymap, "decides", True)`
  unfoldable pub map_entries :
      Bool → Bool → ProxyMap (Client S) → Text → Exec (Client S) (Option Proxies)
  unfolding env_if
  map_entries false trust_env m url c = (env_if trust_env url, c)
  map_entries true trust_env m url c = elim (lookup m url c).0 [
    | ok es ↦ (ok (some es), (lookup m url c).1)
    | raise e ↦ ((if is_a e key_error then env_if trust_env url else raise e), (lookup m url c).1)
  ]

  unfoldable pub routed_entries :
      Bool → Bool → ProxyMap (Client S) → Text → Option Answer → Exec (Client S) (Option Proxies)
  routed_entries decides trust_env m url none c = map_entries decides trust_env m url c
  routed_entries decides trust_env m url (some value) c = (given_entries value, c)

  abbrev pub sender : Bool → ℕ → Bool → Arguments → Sender S E R
  sender failover bad_proxy_ttl tunnelled args = record {
    attempt = λ entry. aiohttp.send (arguments_for tunnelled args entry);
    clock = aiohttp.monotonic;
    fails_over = aiohttp.is_failover_error;
    failover = failover;
    ttl = bad_proxy_ttl;
  }

  unfoldable pub send_as_given : Arguments → Client S → Reply E R × Client S
  send_as_given args c = let (o, s) = aiohttp.send args c.rest in (replied o, left s c)

  unfoldable pub send_usable :
      Bool → ℕ → Text → Arguments → Proxies → Client S → Reply E R × Client S
  unfolding kept_for
  send_usable failover bad_proxy_ttl url args entries c = elim (kept_for url entries) [
    | raise e ↦ (raised e, c)
    | ok (kept, parts) ↦
        send_answer (sender failover bad_proxy_ttl (is_tunnelled parts) args) kept c
  ]

  -- `_routed`; `routed` is `_ROUTED.get()`
  unfoldable pub routed :
      Bool
      → Bool
      → Bool
      → Bool
      → ℕ
      → ProxyMap (Client S)
      → Text
      → Arguments
      → Client S
      → Reply E R × Client S
  routed already decides trust_env failover bad_proxy_ttl m url args c =
      let found = routed_entries decides trust_env m url args.proxy c in
      if already then send_as_given args c else elim found.0 [
        | raise e ↦ (raised e, found.1)
        | ok entries ↦ elim entries [
          | none ↦ send_as_given args found.1
          | some es ↦ send_usable failover bad_proxy_ttl url args es found.1
        ]
      ]
