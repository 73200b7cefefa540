-- ===== src/SystemConfig/Settings.antt =====
-- src/proxylib/system/_config.py: how one setting of an OS names a proxy, and the Windows list of them.
use proxylib.Prelude.{
  ℕ, Bool, ◌||◌, Option, none, some, List, [], ◌∷◌, ◌++◌, map, eqb, if◌then◌else◌,
}
use proxylib.Python.Exec.{Result, ok, raise}
use proxylib.Python.Text.{
  Text, text, lower, strip, lstrip, rstrip, is_empty, is_number, int, cut, rcut, words, has_char,
  ◌==◌,
}
use proxylib.Python.Dict
use proxylib.Python.Dict.{Dict}
use proxylib.Net.{Netimps, join_host}
use proxylib.Proxy.{Proxy}
use proxylib.Proxy.Parse.{parse}

-- `return Proxy.parse(…)`, with the handler of `ProxyParseError`
unfoldable pub parsed : Result Proxy → Option Proxy
parsed (ok p) = some p
parsed (raise e) = none

-- `proxy_from(value, scheme)`; a value of `None` is empty
unfoldable pub proxy_from : Text → Text → Option Proxy
proxy_from value scheme =
    let trimmed = rstrip (eqb b'/') (strip value) in
    if is_empty trimmed then none else elim (cut (text "://") trimmed) [
      | none ↦ parsed (parse (scheme ++ (text "://" ++ trimmed)))
      | some (given, rest) ↦ parsed (
          parse
            ((if lower given == text "socks" then scheme else lower given) ++ (text "://" ++ rest)))
    ]

-- a port setting, as the text that `str` gives of it
port_of : Text → Option ℕ
port_of s = if is_number (strip s) then some (int (strip s)) else none

-- `bare.strip("[]")`
unbracketed : Text → Text
unbracketed s = rstrip (λ c. has_char c (text "[]")) (lstrip (λ c. has_char c (text "[]")) s)

module _ ⦃net : Netimps⦄ where
  -- `proxy_at(host, port, scheme)`; `None` is empty
  unfoldable pub proxy_at : Text → Text → Text → Option Proxy
  unfolding port_of unbracketed
  proxy_at host port scheme =
      if is_empty (strip host) then none else elim (rcut (text "://") (strip host)) [
        | none ↦ proxy_from (join_host (unbracketed (strip host)) (port_of port)) scheme
        | some (prefix, bare) ↦
            proxy_from (prefix ++ (text "://" ++ join_host (unbracketed bare) (port_of port)))
              scheme
      ]

-- `if proxy is not None: proxies.setdefault(key, proxy)` for the three schemes
unfoldable pub default_all : Option Proxy → Dict Text Proxy → Dict Text Proxy
default_all none proxies = proxies
default_all (some p) proxies =
    Dict.setdefault ◌==◌
      (Dict.setdefault ◌==◌ (Dict.setdefault ◌==◌ proxies (text "http") p) (text "https") p)
      (text "ftp") p

unfoldable pub set_proxy : Text → Option Proxy → Dict Text Proxy → Dict Text Proxy
set_proxy key none proxies = proxies
set_proxy key (some p) proxies = Dict.set ◌==◌ proxies key p

unfoldable pub is_protocol : Text → Bool
is_protocol s = s == text "http" || s == text "https" || s == text "ftp" || s == text "socks"

unfoldable pub read_token : Text → Text → Dict Text Proxy → Dict Text Proxy
unfolding is_protocol
read_token socks_scheme token proxies = elim (cut (text "=") token) [
  | none ↦ default_all (proxy_from token (text "http")) proxies
  | some (given, server) ↦
      let protocol = lower (strip given) in
      if is_protocol protocol
      then set_proxy protocol
          (proxy_from server (if protocol == text "socks" then socks_scheme else text "http"))
          proxies
      else proxies
]

unfoldable pub read_tokens : Text → List Text → Dict Text Proxy → Dict Text Proxy
read_tokens socks_scheme [] proxies = proxies
read_tokens socks_scheme (token ∷ tokens) proxies =
    read_tokens socks_scheme tokens (read_token socks_scheme token proxies)

-- `parse_proxy_list(text, socks_scheme)`
unfoldable pub parse_proxy_list : Text → Text → Dict Text Proxy
parse_proxy_list s socks_scheme =
    read_tokens socks_scheme (words (map (λ c. if eqb c b';' then 32 else c) s)) []
