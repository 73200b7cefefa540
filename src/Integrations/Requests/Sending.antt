-- ===== src/Integrations/Requests/Sending.antt =====
-- src/proxylib/integrations/requests.py: what the adapter's own send is called with for an entry, and
-- `send`.
use proxylib.Prelude.{
  ℕ, Bool, true, false, Option, none, some, List, [], ◌∷◌, ◌++◌, if◌then◌else◌, is_nil, is_some,
}
use proxylib.Python.Exec.{Result, ok, raise, key_error, is_a, Exec}
use proxylib.Python.Text.{Text, text, ◌==◌}
use proxylib.Python.Dict
use proxylib.Python.Url.{urlsplit, hostname}
use proxylib.Net.{Netimps}
use proxylib.Proxy.{Proxy, is_gateway, gateway_url, uri}
use proxylib.Lookup.{ProxyMap}
use proxylib.Integrations.{gateway_headers, dict_getitem}
use proxylib.Integrations.Failover.{
  Outcome, responded, failed, Reply, replied, raised, Client, Sender, send_answer,
}
use proxylib.Integrations.Requests.{
  Request, Response, Given, mapping, proxy_dict, ours, given, Call, Requests, Found, set_headers,
  failed_before_sending, present, entries,
}

-- the rest of `send`, where the statement before it gave `r`
unfoldable pub or_raise :
    {S E R A : Type 0}
    → Result A × Client S
    → (A → Client S → Reply E R × Client S)
    → Reply E R × Client S
or_raise (raise e, c) f = (raised e, c)
or_raise (ok a, c) f = f a c

-- `response.request = request; response.url = request.url`
unfoldable pub as_target :
    {B E P : Type 0} → Request B → Outcome E (Response B P) → Outcome E (Response B P)
as_target request (failed x) = failed x
as_target request (responded response) =
    responded (record response { request = request; url = request.url })

module _ {S B E P : Type 0} ⦃net : Netimps⦄ (requests : Requests S B E P) where
  unfoldable pub gateway_call : Request B → Proxy → Text → Call S B
  gateway_call request gateway url = record {
    request = record request {
      url = url;
      headers = set_headers request.headers (gateway_headers requests.b64 gateway);
    };
    proxies = [];
    chosen = none;
  }

  unfoldable pub send_to_gateway : Request B → Proxy → S → Outcome E (Response B P) × S
  unfolding gateway_call as_target
  send_to_gateway request gateway s = elim (gateway_url gateway request.url) [
    | raise e ↦ (failed (requests.own_error e), s)
    | ok url ↦
        let (o, s') = requests.base (gateway_call request gateway url) s in
        (as_target request o, s')
  ]

  chosen_for : Option Proxy → Option (Text × List (Text × Text))
  chosen_for none = none
  chosen_for (some p) =
      if is_nil p.headers then none else some (requests.prepend_http (uri p), p.headers)

  uri_of : Option Proxy → Option Text
  uri_of none = none
  uri_of (some p) = some (uri p)

  unfoldable pub proxied_call : Request B → Given S → Text → Bool → Option Proxy → Call S B
  unfolding chosen_for uri_of
  proxied_call request proxies key ours_first entry = record {
    request = request;
    proxies =
        if ours_first
        then ours key (uri_of entry) ∷ given proxies ∷ []
        else given proxies ∷ ours key (uri_of entry) ∷ [];
    chosen = chosen_for entry;
  }

  -- the `try` of the loop
  unfoldable pub attempt :
      Request B → Given S → Text → Bool → Option Proxy → S → Outcome E (Response B P) × S
  attempt request proxies key ours_first none s =
      requests.base (proxied_call request proxies key ours_first none) s
  attempt request proxies key ours_first (some p) s =
      if is_gateway p
      then send_to_gateway request p s
      else requests.base (proxied_call request proxies key ours_first (some p)) s

  -- `base(request, **kwargs)`, where requests decides
  unfoldable pub pass_on : Request B → Given S → Client S → Reply E (Response B P) × Client S
  pass_on request proxies c =
      let (o, s) =
        requests.base (record { request = request; proxies = given proxies ∷ []; chosen = none })
          c.rest in
      (replied o, record c { rest = s })

  -- `getattr(proxies, "get", …)(key) is not None`
  unfoldable pub has_entry : Given S → Text → Exec (Client S) Bool
  has_entry (mapping d) key c = (ok (is_some (present (Dict.get ◌==◌ d key))), c)
  has_entry (proxy_dict pm) key c = elim (dict_getitem pm key c).0 [
    | ok _ ↦ (ok true, (dict_getitem pm key c).1)
    | raise e ↦ ((if is_a e key_error then ok false else raise e), (dict_getitem pm key c).1)
  ]

  abbrev pub sender : Bool → ℕ → Request B → Given S → Text → Bool → Sender S E (Response B P)
  sender failover bad_proxy_ttl request proxies key ours_first = record {
    attempt = attempt request proxies key ours_first;
    clock = requests.monotonic;
    fails_over = λ x. failed_before_sending (requests.caught x);
    failover = failover;
    ttl = bad_proxy_ttl;
  }

  unfoldable pub send_found :
      Bool → ℕ → Request B → Given S → Text → Found → Client S → Reply E (Response B P) × Client S
  unfolding or_raise
  send_found failover bad_proxy_ttl request proxies key none c = pass_on request proxies c
  send_found failover bad_proxy_ttl request proxies key (some (answer, true)) c =
      send_answer (sender failover bad_proxy_ttl request proxies key true) answer c
  send_found failover bad_proxy_ttl request proxies key (some (answer, false)) c =
      or_raise (has_entry proxies key c) (λ there c.
        if there
        then pass_on request proxies c
        else send_answer (sender failover bad_proxy_ttl request proxies key false) answer c)

  unfoldable pub send_to_host :
      Bool
      → ℕ
      → Bool
      → Option (Bool × Given S)
      → ProxyMap (Client S)
      → Request B
      → Given S
      → Text
      → Option Text
      → Client S
      → Reply E (Response B P) × Client S
  send_to_host failover bad_proxy_ttl patched caller m request proxies scheme none c =
      pass_on request proxies c
  send_to_host failover bad_proxy_ttl patched caller m request proxies scheme (some host) c =
      or_raise (entries requests m request.url patched caller proxies c)
        (send_found failover bad_proxy_ttl request proxies (scheme ++ (text "://" ++ host)))

  -- `send(base, request, kwargs, proxymap, failover=…, bad_proxy_ttl=…, patched=…)`
  unfoldable pub send :
      Bool
      → ℕ
      → Bool
      → Option (Bool × Given S)
      → ProxyMap (Client S)
      → Request B
      → Given S
      → Client S
      → Reply E (Response B P) × Client S
  unfolding send_to_host or_raise
  send failover bad_proxy_ttl patched caller m request proxies c =
      or_raise (urlsplit request.url, c)
        (λ parts.
          send_to_host failover bad_proxy_ttl patched caller m request proxies parts.scheme
            (hostname parts))
