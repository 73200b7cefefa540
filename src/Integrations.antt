-- ===== src/Integrations.antt =====
-- src/proxylib/integrations/_support.py and dict.py: which entries of an answer a client can use, and
-- the mapping from request URLs to proxy URLs. The adapters of the clients are not modelled.
pub mod Failover
pub mod Settling
pub mod Httpx
pub mod Isolation
pub mod Serving
pub mod Requests
pub mod Aiohttp
pub mod Urllib
pub mod Speaking
use proxylib.Prelude.{
  ◌≡◌, refl, Bool, true, false, not, ◌&&◌, ◌||◌, Option, none, some, [], ◌∷◌, arith, if◌then◌else◌,
  any, keep, is_nil, or_else, List, ◌++◌,
}
use proxylib.Python.Exec.{
  Result, ok, raise, key_error, value_error, lookup_error, unsupported_proxy_error, is_a, ◌>>=◌,
  Exec,
}
use proxylib.Python.Text.{Text, text, lower, is_empty, ◌==◌}
use proxylib.Python.Dict
use proxylib.Python.Dict.{Dict}
use proxylib.Python.Url.{urlsplit}
use proxylib.Net.{Netimps}
use proxylib.Proxy.{Proxy, is_gateway, is_socks, uri}
use proxylib.Lookup.{Proxies, ProxyMap, lookup, is_chain}

-- `Reason`: whether the client cannot use the proxy for the URL
abbrev pub Reason : Type 0
Reason = Proxy → Text → Result Bool

unfoldable pub refused_entry : Reason → Text → Option Proxy → Result Bool
refused_entry reason url none = ok false
refused_entry reason url (some p) = reason p url

-- the loop of `usable`: the entries kept, and whether any was refused
unfoldable pub sift : Reason → Text → Proxies → Result (Proxies × Bool)
sift reason url [] = ok ([], false)
sift reason url (e ∷ es) = do
  bad ← refused_entry reason url e
  (kept, refused) ← sift reason url es
  ok (if bad then (kept, true) else (e ∷ kept, refused))

unfoldable pub usable : Reason → Text → Proxies → Result Proxies
usable reason url entries = do
  (kept, refused) ← sift reason url entries
  if refused && is_nil kept then raise unsupported_proxy_error else ok kept

unfoldable pub no_gateway_or_socks : Reason
no_gateway_or_socks p url = ok (is_gateway p || is_socks p.scheme)

unfoldable pub leaks_header : Proxy → Bool
leaks_header p = any (λ h. not (lower h.0 == text "proxy-authorization")) p.headers

unfoldable pub urllib_reason : Reason
urllib_reason p url =
    if is_gateway p
    then ok false
    else if is_socks p.scheme
    then ok true
    else (do parts ← urlsplit url; ok (lower parts.scheme == text "https" && leaks_header p))

unfoldable pub proxy_url_reason : Reason
proxy_url_reason p url = ok (is_gateway p || not (is_nil p.headers))

-- `env_chain`, where `env` is what `getproxies_environment()` gives
unfoldable pub env_chain : Dict Text Text → Text → Option Text
env_chain env scheme = elim (Dict.get ◌==◌ env scheme) [
  | none ↦ none
  | some value ↦ if not (is_empty value) && is_chain value then some value else none
]

-- `gateway_headers`; `b64 t`: the base64 text of `t` in UTF-8
unfoldable pub gateway_headers : (Text → Text) → Proxy → List (Text × Text)
gateway_headers b64 gateway = elim gateway.username [
  | none ↦ gateway.headers
  | some user ↦
      if any (λ h. lower h.0 == text "proxy-authorization") gateway.headers
      then gateway.headers
      else gateway.headers
        ++ (
          text "Proxy-Authorization",
          text "Basic " ++ b64 (user ++ (text ":" ++ or_else gateway.password [])),
        )
          ∷ []
]

-- `except ValueError: raise KeyError`
unfoldable pub value_as_key_error : Result Proxies → Result Proxies
value_as_key_error (ok ps) = ok ps
value_as_key_error (raise e) = if is_a e value_error then raise key_error else raise e

module _ ⦃net : Netimps⦄ where
  -- `….[0]`, and what `ProxyDict.__getitem__` makes of it
  unfoldable pub first_uri : Proxies → Result Text
  first_uri [] = raise lookup_error
  first_uri (none ∷ ps) = raise key_error
  first_uri (some p ∷ ps) = ok (uri p)

  answer_uri : Text → Result Proxies → Result Text
  answer_uri url r = do
    entries ← value_as_key_error r
    kept ← usable proxy_url_reason url entries
    first_uri kept

module _ {S : Type 0} ⦃net : Netimps⦄ where
  -- `ProxyDict(m)[url]`
  unfoldable pub dict_getitem : ProxyMap S → Text → Exec S Text
  unfolding answer_uri
  dict_getitem m url s = elim (urlsplit url) [
    | raise e ↦ (raise e, s)
    | ok parts ↦
        if is_empty parts.scheme || is_empty parts.netloc
        then (raise key_error, s)
        else (answer_uri url (lookup m url s).0, (lookup m url s).1)
  ]

sift-keep :
    (bad : Option Proxy → Bool) (reason : Reason) (url : Text) (entries : Proxies)
    → ((e : Option Proxy) → refused_entry reason url e ≡ ok (bad e))
    → sift reason url entries ≡ ok (keep (λ e. not (bad e)) entries, any bad entries)
unfolding sift
sift-keep bad reason url [] h = refl
sift-keep bad reason url (e ∷ es) h = rw (h e, sift-keep bad reason url es h) (ground arith)

-- For a reason that never fails, `usable` gives the entries that the client can use, all of them and
-- in order, and raises `UnsupportedProxyError` exactly when there are entries and none can be used.
pub usable-keep :
    (bad : Option Proxy → Bool) (reason : Reason) (url : Text) (entries : Proxies)
    → ((e : Option Proxy) → refused_entry reason url e ≡ ok (bad e))
    → usable reason url entries ≡ (
        if not (is_nil entries) && is_nil (keep (λ e. not (bad e)) entries)
        then raise unsupported_proxy_error
        else ok (keep (λ e. not (bad e)) entries))
unfolding usable
usable-keep bad reason url entries h =
    rw (sift-keep bad reason url entries h) (none_left bad entries)
  where
    none_left :
        (bad : Option Proxy → Bool) (entries : Proxies)
        → (if any bad entries && is_nil (keep (λ e. not (bad e)) entries)
            then raise unsupported_proxy_error
            else ok (keep (λ e. not (bad e)) entries))
          ≡ (if not (is_nil entries) && is_nil (keep (λ e. not (bad e)) entries)
              then raise unsupported_proxy_error
              else ok (keep (λ e. not (bad e)) entries))
    none_left bad [] = refl
    none_left bad (e ∷ es) = ground arith
