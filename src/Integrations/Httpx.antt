-- ===== src/Integrations/Httpx.antt =====
-- src/proxylib/integrations/httpx.py: the inner transports, the request that is sent for an entry, and
-- `ProxyTransport.handle_request`. httpx is not in the repository: its transports, its URLs and its
-- exceptions are arguments. A transport stands for what `factory` returned.
pub mod Closing
use proxylib.Prelude.{
  ℕ, Bool, true, false, not, ◌&&◌, Option, none, some, List, [], ◌∷◌, ◌++◌, if◌then◌else◌, is_nil,
  keep,
}
use proxylib.Python.Exec.{Error, ok, raise}
use proxylib.Python.Text.{Text, text, lower, ◌==◌}
use proxylib.Python.Dict
use proxylib.Python.Dict.{Dict}
use proxylib.Net.{Netimps}
use proxylib.Proxy.{Proxy, is_gateway, gateway_url, uri}
use proxylib.Proxy.Key.{same_headers}
use proxylib.Lookup.{ProxyMap}
use proxylib.Integrations.{gateway_headers}
use proxylib.Integrations.Failover.{Outcome, responded, failed, Reply, Client, Sender, send_on_map}

abbrev pub Headers : Type 0
Headers = List (Text × Text)

-- the keys of `_by_proxy`; `none` for DIRECT and for gateways
abbrev pub TransportKey : Type 0
TransportKey = Option (Text × Headers)

unfoldable pub same_transport_key : TransportKey → TransportKey → Bool
same_transport_key none none = true
same_transport_key (some (u, hs)) (some (v, ks)) = u == v && same_headers hs ks
same_transport_key _ _ = false

-- what `factory` gets: no proxy, a proxy URL, or `httpx.Proxy(uri, headers=…)`
pub data Target : Type 0 where
  no_proxy : Target
  proxy_url : Text → Target
  proxy_with : Text → Dict Text Text → Target

-- `httpx.Request`, less what it hands on unchanged
pub record Request (B : Type 0) : Type 0 where
  pub method : Text
  pub url : Text
  pub headers : Headers
  pub body : B

-- the transport object, and the rest of the program's state
pub record Transports (T S : Type 0) : Type 0 where
  pub by_proxy : Dict TransportKey T
  pub rest : S

-- httpx, and the factory of the inner transports with its keyword arguments
pub record Httpx (S T B E R : Type 0) : Type 0 where
  pub factory : Target → Outcome E T
  pub send_on : T → Request B → S → Outcome E R × S
  -- `httpx.URL(text)`: its text and its `netloc`
  pub parse_url : Text → Outcome E (Text × Text)
  -- `isinstance(exc, failover_errors)`, and an exception of this library
  pub is_failover_error : E → Bool
  pub own_error : Error → E
  pub monotonic : S → ℕ
  pub b64 : Text → Text

-- `by_proxy.values()`
abbrev pub values : {T : Type 0} → Dict TransportKey T → List T
values [] = []
values ((k, t) ∷ d) = t ∷ values d

-- `dict(headers)`: of two equal names the first place and the last value
unfoldable pub dict_from : Dict Text Text → Headers → Dict Text Text
dict_from d [] = d
dict_from d ((name, value) ∷ more) = dict_from (Dict.set ◌==◌ d name value) more

module _ ⦃net : Netimps⦄ where
  unfoldable pub key_of : Option Proxy → TransportKey
  key_of none = none
  key_of (some p) = if is_gateway p then none else some (uri p, p.headers)

  unfoldable pub target_of : Option Proxy → Target
  target_of none = no_proxy
  target_of (some p) =
      if is_gateway p
      then no_proxy
      else if not (is_nil p.headers)
      then proxy_with (uri p) (dict_from [] p.headers)
      else proxy_url (uri p)

module _ {S T B E R : Type 0} ⦃net : Netimps⦄ (httpx : Httpx S T B E R) where
  -- `_Transports.get`
  unfoldable pub get : Option Proxy → Dict TransportKey T → Outcome E T × Dict TransportKey T
  get entry by_proxy = elim (Dict.get same_transport_key by_proxy (key_of entry)) [
    | some transport ↦ (responded transport, by_proxy)
    | none ↦ elim (httpx.factory (target_of entry)) [
      | failed x ↦ (failed x, by_proxy)
      | responded transport ↦
          (responded transport, Dict.set same_transport_key by_proxy (key_of entry) transport)
    ]
  ]

  -- `_Transports.pop_all`
  unfoldable pub pop_all : Dict TransportKey T → List T × Dict TransportKey T
  pop_all by_proxy = (values by_proxy, [])

  gateway_request : Request B → Proxy → Text × Text → Request B
  gateway_request request gateway (url, netloc) = record request {
    url = url;
    headers =
        (text "Host", netloc)
        ∷ (keep (λ h. not (lower h.0 == text "host")) request.headers
            ++ gateway_headers httpx.b64 gateway);
  }

  unfoldable pub outgoing : Request B → Option Proxy → Outcome E (Request B)
  unfolding gateway_request
  outgoing request none = responded request
  outgoing request (some p) =
      if not (is_gateway p) then responded request else elim (gateway_url p request.url) [
        | raise e ↦ failed (httpx.own_error e)
        | ok url ↦ elim (httpx.parse_url url) [
          | failed x ↦ failed x
          | responded parts ↦ responded (gateway_request request p parts)
        ]
      ]

  -- `self._transports.get(entry).handle_request(outgoing(request, entry))`
  handle_on : T → Outcome E (Request B) → S → Outcome E R × S
  handle_on transport (failed x) s = (failed x, s)
  handle_on transport (responded request) s = httpx.send_on transport request s

  unfoldable pub attempt : Request B → Option Proxy → Transports T S → Outcome E R × Transports T S
  unfolding handle_on
  attempt request entry s =
      let by_proxy = (get entry s.by_proxy).1 in
      elim (get entry s.by_proxy).0 [
        | failed x ↦ (failed x, record s { by_proxy = by_proxy })
        | responded transport ↦
            let (o, rest) = handle_on transport (outgoing request entry) s.rest in
            (o, record { by_proxy = by_proxy; rest = rest })
      ]

  -- `ProxyTransport` with its options, for one request
  abbrev pub sender : Bool → ℕ → Request B → Sender (Transports T S) E R
  sender failover bad_proxy_ttl request = record {
    attempt = attempt request;
    clock = λ s. httpx.monotonic s.rest;
    fails_over = httpx.is_failover_error;
    failover = failover;
    ttl = bad_proxy_ttl;
  }

  -- `ProxyTransport.handle_request`, and the asynchronous one
  unfoldable pub handle_request :
      Bool
      → ℕ
      → ProxyMap (Client (Transports T S))
      → Request B
      → Client (Transports T S)
      → Reply E R × Client (Transports T S)
  handle_request failover bad_proxy_ttl m request =
      send_on_map (sender failover bad_proxy_ttl request) m request.url
