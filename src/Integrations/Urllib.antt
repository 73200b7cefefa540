-- ===== src/Integrations/Urllib.antt =====
-- src/proxylib/integrations/urllib.py: `ProxyMapHandler._resolve` and `_open_gateway`, up to the call of
-- urllib's own handler. What urllib reads of the environment and of the OS is an argument.
use proxylib.Prelude.{ℕ, Bool, not, ◌&&◌, none, some, List, [], ◌∷◌, if◌then◌else◌, keep}
use proxylib.Python.Exec.{Result, ok, raise, key_error, lookup_error, os_error, is_a, ◌>>=◌, Exec}
use proxylib.Python.Text.{Text, text, lower, is_empty, ◌==◌}
use proxylib.Python.Dict
use proxylib.Python.Dict.{Dict}
use proxylib.Net.{Netimps}
use proxylib.Proxy.{Proxy, is_gateway, gateway_url, uri}
use proxylib.Lookup.{Proxies, ProxyMap, lookup, str, one, normalise, is_chain}
use proxylib.Health.{order_by_health}
use proxylib.Integrations.{gateway_headers, urllib_reason, usable}
use proxylib.Integrations.Failover.{Client}

abbrev pub Headers : Type 0
Headers = Dict Text Text

-- `urllib.request.Request`, less what it hands on unchanged; `kind` is its `type`
pub record Request (B : Type 0) : Type 0 where
  pub full_url : Text
  pub kind : Text
  pub host : Text
  pub headers : Headers
  pub unredirected : Headers
  pub body : B

-- what `_resolve` does: nothing (another handler sends the request), `proxy_open` of the request, or the
-- HTTP(S) handler's `open` of a request to a gateway, whose response gets the target's URL
pub data Resolved (B : Type 0) : Type 0 where
  not_proxied : Resolved B
  proxy_open : Request B → Text → Resolved B
  gateway_open : Request B → Text → Resolved B

-- urllib, and the machine: `getproxies()`, `proxy_bypass`, `str.capitalize` of a header's name, the
-- scheme and the host of a URL as its `Request` has them, and the schemes the opener has a handler for
pub record Urllib : Type 0 where
  pub getproxies : Dict Text Text
  pub proxy_bypass : Text → Bool
  pub capitalize : Text → Text
  pub type_of : Text → Text
  pub host_of : Text → Text
  pub has_handler : Text → Bool
  pub b64 : Text → Text

module _ (urllib : Urllib) where
  -- the loops of `add_unredirected_header`
  unfoldable pub add_unredirected : List (Text × Text) → Headers → Headers
  add_unredirected [] hs = hs
  add_unredirected ((name, value) ∷ more) hs =
      add_unredirected more (Dict.set ◌==◌ hs (urllib.capitalize name) value)

module _ {B : Type 0} ⦃net : Netimps⦄ (urllib : Urllib) where
  to_gateway : Request B → Proxy → Text → Request B
  to_gateway req gateway url = record {
    full_url = url;
    kind = urllib.type_of url;
    host = urllib.host_of url;
    headers = req.headers;
    unredirected =
        add_unredirected urllib (gateway_headers urllib.b64 gateway)
          (keep (λ h. not (lower h.0 == text "host")) req.unredirected);
    body = req.body;
  }

  -- `_open_gateway`
  unfoldable pub open_gateway : Request B → Proxy → Result (Resolved B)
  unfolding to_gateway
  open_gateway req gateway = do
    url ← gateway_url gateway req.full_url
    let sent = to_gateway req gateway url
    if urllib.has_handler sent.kind then ok (gateway_open sent req.full_url) else raise os_error

  -- the rest of `_resolve` for the first entry in the order of health
  unfoldable pub open_entry : Request B → Proxies → Result (Resolved B)
  open_entry req [] = raise lookup_error
  open_entry req (none ∷ es) = ok not_proxied
  open_entry req (some p ∷ es) =
      if is_gateway p
      then open_gateway req p
      else ok (
          proxy_open
            (record req { unredirected = add_unredirected urllib p.headers req.unredirected })
            (uri p))

module _ {S B : Type 0} ⦃net : Netimps⦄ (urllib : Urllib) where
  unfoldable pub open_answer : ℕ → Request B → Proxies → Client S → Result (Resolved B)
  open_answer now req entries c = do
    kept ← usable urllib_reason req.full_url entries
    open_entry urllib req (order_by_health now c.breaker kept)

  -- the handler of `KeyError`
  unfoldable pub open_fallback : ℕ → Request B → Client S → Result (Resolved B)
  open_fallback now req c = elim (Dict.get ◌==◌ urllib.getproxies req.kind) [
    | none ↦ ok not_proxied
    | some fallback ↦
        if is_empty fallback
        then ok not_proxied
        else if not (is_chain fallback)
        then ok (proxy_open req fallback)
        else if not (is_empty req.host) && urllib.proxy_bypass req.host
        then ok not_proxied
        else (do es ← normalise (one (str fallback)); open_answer now req es c)
  ]

  -- `_resolve`, where `clock` reads the clock
  unfoldable pub resolve : (S → ℕ) → ProxyMap (Client S) → Request B → Exec (Client S) (Resolved B)
  resolve clock m req c =
      let c' = (lookup m req.full_url c).1 in
      elim (lookup m req.full_url c).0 [
        | ok entries ↦ (open_answer (clock c'.rest) req entries c', c')
        | raise e ↦
            ((if is_a e key_error then open_fallback (clock c'.rest) req c' else raise e), c')
      ]
