-- ===== src/System/Windows.antt =====
-- src/proxylib/system/_nt.py: the Internet Options as settings, WinHTTP's proxy list, and
-- `WinHTTPProxyMap.__getitem__`. The calls of WinHTTP are arguments: `read_ie` reads the options (it may
-- raise `OSError`) and `query` is `_query_proxy_for_url`, both with the state of the machine.
use proxylib.Prelude.{
  ℕ, Bool, true, false, not, ◌||◌, Option, none, some, List, [], ◌∷◌, eqb, if◌then◌else◌, is_nil,
  is_some, keep, map, or_else,
}
use proxylib.Python.Exec.{Result, ok, raise, key_error, os_error, is_a, ◌>>=◌, Exec, bind, continue}
use proxylib.Python.Text.{Text, text, lower, strip, cut, is_empty, nonempty, words, ◌==◌}
use proxylib.Python.Url.{urlsplit}
use proxylib.Net.{Netimps}
use proxylib.Proxy.{Proxy}
use proxylib.Proxy.Parse
use proxylib.Lookup.{Proxies, lookup}
use proxylib.BypassRules.{whole, parse}
use proxylib.SystemConfig.{direct, configured, ProxyConfig, empty_config, manual_map}
use proxylib.SystemConfig.Settings.{parse_proxy_list}

-- `_IEProxySettings`
pub record IeProxySettings : Type 0 where
  pub auto_detect : Bool
  pub auto_config_url : Option Text
  pub proxy : Option Text
  pub proxy_bypass : Option Text

module _ ⦃net : Netimps⦄ where
  -- `config_from_settings`
  unfoldable pub config_from_ie : IeProxySettings → Result ProxyConfig
  config_from_ie settings = do
    let proxies = parse_proxy_list (or_else settings.proxy []) (text "socks4")
    let pac_url = nonempty (or_else settings.auto_config_url [])
    rules ← parse (whole (or_else settings.proxy_bypass [])) (text "wininet") false
    ok (record empty_config {
      source = text "windows";
      state =
          if settings.auto_detect || is_some pac_url || not (is_nil proxies)
          then configured
          else direct;
      auto_detect = settings.auto_detect;
      pac_url = pac_url;
      proxies = proxies;
      bypass = rules;
    })

  -- `read_config`, from what reading the options came to
  unfoldable pub windows_config : Result (Option IeProxySettings) → Result (Option ProxyConfig)
  windows_config (raise e) = if is_a e os_error then ok none else raise e
  windows_config (ok none) = ok none
  windows_config (ok (some ie)) = do c ← config_from_ie ie; ok (some c)

-- the entries of a WinHTTP proxy list: the protocol, `""` where there is none, and the server
unfoldable pub list_entries : List Text → List (Text × Text)
list_entries [] = []
list_entries (token ∷ tokens) =
    let rest = list_entries tokens in
    let (protocol, server) = or_else (cut (text "=") token) ([], token) in
    if is_empty server then rest else (lower (strip protocol), server) ∷ rest

unfoldable pub selected_for : (Text → Bool) → List (Text × Text) → List Text
selected_for wanted entries = map (λ e. e.1) (keep (λ e. wanted e.0) entries)

unfoldable pub parse_all : List Text → Result (List Proxy)
parse_all [] = ok []
parse_all (server ∷ servers) = do p ← Parse.parse server; ps ← parse_all servers; ok (p ∷ ps)

-- the first selection that is not empty
unfoldable pub choose_servers : Text → List (Text × Text) → List Text
choose_servers scheme entries =
    let own = selected_for (λ p. p == scheme || is_empty p) entries in
    let http = selected_for (λ p. p == text "http") entries in
    let https = selected_for (λ p. p == text "https") entries in
    if not (is_nil own) then own else if not (is_nil http) then http else https

-- `_resolve_for_scheme`
unfoldable pub resolve_for_scheme : Text → Text → Result (List Proxy)
resolve_for_scheme url proxy_list = do
  parts ← urlsplit url
  parse_all (
      choose_servers parts.scheme
        (list_entries (words (map (λ c. if eqb c b';' then 32 else c) proxy_list))))

-- what `_query_proxy_for_url` returns: the proxy list of a call that worked, or the error
pub data Queried : Type 0 where
  worked : Option Text → Queried
  refused : ℕ → Queried

-- `_ERROR_WINHTTP_LOGIN_FAILURE`
abbrev pub login_failure : ℕ
login_failure = 12015

abbrev pub is_login_failure : Queried → Bool
is_login_failure (worked proxy) = false
is_login_failure (refused code) = eqb code login_failure

-- `tuple(…) or (None,)`
unfoldable pub listed_or_direct : List Proxy → Proxies
listed_or_direct [] = none ∷ []
listed_or_direct (p ∷ ps) = map some (p ∷ ps)

-- the answer of a call that worked
unfoldable pub queried_answer : Text → Option Text → Result Proxies
queried_answer url proxy =
    let list = or_else proxy [] in
    if is_empty list
    then ok (none ∷ [])
    else (do ps ← resolve_for_scheme url list; ok (listed_or_direct ps))

module _ {S : Type 0} ⦃net : Netimps⦄ where
  -- `manual_map(config.proxies, config.bypass)[url]`, or DIRECT
  unfoldable pub manual_lookup : Option IeProxySettings → Text → Exec S Proxies
  manual_lookup none url s = (ok (none ∷ []), s)
  manual_lookup (some ie) url s =
      continue (config_from_ie ie) (λ c. lookup (manual_map c.proxies c.bypass) url) s

  module _ (read_ie : Exec S (Option IeProxySettings))
      (query : Text → Bool → Text → Bool → S → Queried × S) where
    -- the call, and the retry with `fAutoLogonIfChallenged`
    unfoldable pub query_twice : Text → Bool → Text → S → Queried × S
    query_twice url auto_detect auto_config_url s =
        let (r, s') = query url auto_detect auto_config_url false s in
        let again = query url auto_detect auto_config_url true s' in
        if is_login_failure r then again else (r, s')

    unfoldable pub winhttp_answer : Text → Option IeProxySettings → Queried × S → Result Proxies × S
    winhttp_answer url ie (worked proxy, s) = (queried_answer url proxy, s)
    winhttp_answer url ie (refused code, s) = manual_lookup ie url s

    unfoldable pub winhttp_ask : Text → Option IeProxySettings → Exec S Proxies
    winhttp_ask url none s = manual_lookup none url s
    winhttp_ask url (some ie) s =
        let auto_config_url = or_else ie.auto_config_url [] in
        let queried =
          winhttp_answer url (some ie) (query_twice url ie.auto_detect auto_config_url s) in
        if ie.auto_detect || not (is_empty auto_config_url)
        then queried
        else manual_lookup (some ie) url s

    -- `WinHTTPProxyMap.__getitem__`; `is_open`: the session is not closed
    unfoldable pub winhttp_getitem : Bool → Text → Exec S Proxies
    winhttp_getitem false url s = (raise key_error, s)
    winhttp_getitem true url s = bind read_ie (λ ie. winhttp_ask url ie) s
