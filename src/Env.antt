-- ===== src/Env.antt =====
-- src/proxylib/env.py: the proxy environment variables.
pub mod Reading
use proxylib.Prelude.{
  ℕ, ◌-◌, Bool, true, false, not, ◌&&◌, ◌||◌, Option, none, some, List, [], ◌∷◌, ◌++◌,
  if◌then◌else◌, length, take, map,
}
use proxylib.Python.Exec.{Result, ok, raise, key_error, proxy_parse_error, ◌>>=◌, Exec, continue}
use proxylib.Python.Text.{Text, text, lower, is_empty, ends_with, ◌==◌}
use proxylib.Python.Dict
use proxylib.Python.Dict.{Dict}
use proxylib.Python.Url.{SplitResult, urlsplit}
use proxylib.Net.{Netimps}
use proxylib.Proxy.{Proxy}
use proxylib.Lookup.{Proxies, ProxyMap, lookup}
use proxylib.BypassRules
use proxylib.BypassRules.{BypassRules, Source, absent, whole, matches}
use proxylib.Source.{Src, source_text, source_proxy, from_source}

-- `_SCHEME_FALLBACK.get(scheme)`
unfoldable pub fallback_scheme : Text → Option Text
fallback_scheme scheme =
    if scheme == text "ws"
    then some (text "http")
    else if scheme == text "wss"
    then some (text "https")
    else none

-- what `_read_env` gathers
pub record Variables : Type 0 where
  pub proxies : Dict Text Text
  pub no_proxy : Option Text

-- the name without "_proxy"
abbrev pub scheme_of : Text → Text
scheme_of key = take (length key - 6) key

-- one round of the inner loop of `_read_env`
unfoldable pub read_variable : Bool → Bool → Bool → Text × Text → Variables → Variables
read_variable cgi insensitive lowercase_pass (name, value) vars =
    let key = lower name in
    let same_pass = if lowercase_pass then name == key else not (name == key) in
    if not same_pass || not (ends_with key (text "_proxy"))
    then vars
    else if key == text "no_proxy"
    then record vars { no_proxy = some value }
    else if cgi && (key == text "http_proxy" && (not lowercase_pass || insensitive))
    then vars
    else record vars { proxies = Dict.set ◌==◌ vars.proxies (scheme_of key) value }

-- the inner loop
unfoldable pub read_pass : Bool → Bool → Bool → Dict Text Text → Variables → Variables
read_pass cgi insensitive lowercase_pass [] vars = vars
read_pass cgi insensitive lowercase_pass (item ∷ env) vars =
    read_pass cgi insensitive lowercase_pass env
      (read_variable cgi insensitive lowercase_pass item vars)

-- `_read_env(env)`; `insensitive` says that `env` is the environment of a Windows process
unfoldable pub read_env : Bool → Dict Text Text → Variables
read_env insensitive env =
    let cgi = Dict.has ◌==◌ env (text "REQUEST_METHOD") in
    read_pass cgi insensitive true env
      (read_pass cgi insensitive false env (record { proxies = []; no_proxy = none }))

unfoldable pub request_scheme : Text → Result Text
request_scheme url = do
  parts ← urlsplit url
  if is_empty parts.scheme || is_empty parts.netloc
      then raise proxy_parse_error
      else ok (lower parts.scheme)

-- a value of `proxies`, of the environment or given
pub data Setting : Type 0 where
  setting : Text → Setting
  given_proxy : Proxy → Setting

pub record EnvProxyConfig (S : Type 0) : Type 0 where
  pub proxies : Dict Text Setting
  pub no_proxy : BypassRules
  pub maps : Dict Text (ProxyMap S)

-- `bool(v)`: a `Proxy` is true
abbrev pub is_set : Setting → Bool
is_set (setting s) = not (is_empty s)
is_set (given_proxy p) = true

-- `merged.update(…)`
unfoldable pub merge : Dict Text Setting → Dict Text Setting → Dict Text Setting
merge base [] = base
merge base ((k, v) ∷ more) = merge (Dict.set ◌==◌ base (lower k) v) more

unfoldable pub only_set : Dict Text Setting → Dict Text Setting
only_set [] = []
only_set ((k, v) ∷ d) = let rest = only_set d in if is_set v then (k, v) ∷ rest else rest

module _ {S : Type 0} ⦃net : Netimps⦄ (pac : Text → ProxyMap S) where
  abbrev src_of : Setting → Src S
  src_of (setting s) = source_text s
  src_of (given_proxy p) = source_proxy p

  -- `_maps`
  unfoldable pub make_maps : Dict Text Setting → Result (Dict Text (ProxyMap S))
  make_maps [] = ok []
  make_maps ((k, v) ∷ d) = do m ← from_source pac (src_of v); rest ← make_maps d; ok ((k, m) ∷ rest)

  -- the rules of the argument `no_proxy`, else those of the environment
  abbrev rules_or : Option BypassRules → Option Text → Result BypassRules
  rules_or (some rules) env = ok rules
  rules_or none none = BypassRules.parse absent (text "no_proxy") false
  rules_or none (some s) = BypassRules.parse (whole s) (text "no_proxy") false

  -- `EnvProxyConfig(env, proxies=proxies, no_proxy=rules)`
  unfoldable pub env_config :
      Bool → Dict Text Text → Dict Text Setting → Option BypassRules → Result (EnvProxyConfig S)
  env_config insensitive env proxies rules = do
    let vars = read_env insensitive env
    let chosen = only_set (merge (map (λ e. (e.0, setting e.1)) vars.proxies) proxies)
    no_proxy ← rules_or rules vars.no_proxy
    maps ← make_maps chosen
    ok (record { proxies = chosen; no_proxy = no_proxy; maps = maps })

abbrev pub keys_for : Text → List Text
keys_for scheme = elim (fallback_scheme scheme) [
  | none ↦ scheme ∷ text "all" ∷ []
  | some other ↦ scheme ∷ other ∷ text "all" ∷ []
]

module _ {S : Type 0} ⦃net : Netimps⦄ where
  -- the first of the keys that has a map
  unfoldable pub map_for : Dict Text (ProxyMap S) → List Text → Option (ProxyMap S)
  map_for maps [] = none
  map_for maps (k ∷ ks) = elim (Dict.get ◌==◌ maps k) [ some m ↦ some m | none ↦ map_for maps ks ]

  unfoldable pub env_lookup_scheme : EnvProxyConfig S → Text → Text → Exec S Proxies
  env_lookup_scheme config url scheme s =
      if matches config.no_proxy url
      then (ok (none ∷ []), s)
      else elim (map_for config.maps (keys_for scheme)) [
        | none ↦ (raise key_error, s)
        | some m ↦ lookup m url s
      ]

  -- `EnvProxyConfig.__getitem__`
  unfoldable pub env_lookup : EnvProxyConfig S → Text → Exec S Proxies
  env_lookup config url s = continue (request_scheme url) (env_lookup_scheme config url) s
