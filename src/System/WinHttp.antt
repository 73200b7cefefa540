-- ===== src/System/WinHttp.antt =====
-- src/proxylib/system/_nt.py: what the program asks WinHTTP for, and what it must free: the strings of
-- `_read_ie_proxy_config` and `_query_proxy_for_url`, and the session of a `WinHTTPProxyMap`. WinHTTP
-- itself is an argument, `WinHttp`; System/Windows is what the answers are made into.
pub mod Freeing
pub mod Releasing
use proxylib.Prelude.{
  ℕ, ◌+◌, Bool, true, false, not, Option, none, some, List, [], ◌∷◌, if◌then◌else◌,
}
use proxylib.Python.Exec.{Result, ok, raise, key_error, os_error, Exec}
use proxylib.Python.Text.{Text, nonempty, is_empty}
use proxylib.Net.{Netimps}
use proxylib.Lookup.{Proxies}
use proxylib.System.Owned.{Owned, acquire, release, Use, use_all}
use proxylib.System.Windows.{IeProxySettings, Queried, worked, refused, winhttp_getitem}

-- `_WinHttpAutoProxyOptions`; `dwFlags` and `dwAutoDetectFlags` are numbers, their bits added
pub record AutoProxyOptions : Type 0 where
  pub flags : ℕ
  pub auto_detect_flags : ℕ
  pub auto_config_url : Option Text
  pub auto_logon : Bool

-- `_WinHttpProxyInfo`: its strings, `none` for NULL
pub record ProxyInfo : Type 0 where
  pub proxy : Option Text
  pub proxy_bypass : Option Text

-- winhttp.dll and the thread's last error; the settings have `none` for NULL
pub record WinHttp (S : Type 0) : Type 0 where
  pub is_windows : Bool
  pub get_ie_proxy_config : S → Option IeProxySettings × S
  pub open_session : S → Bool × S
  pub set_timeouts : ℕ → ℕ → S → S
  pub close_handle : ℕ → S → S
  pub get_proxy_for_url : ℕ → Text → AutoProxyOptions → S → Option ProxyInfo × S
  pub set_last_error : ℕ → S → S
  pub get_last_error : S → ℕ

-- a string that WinHTTP allocates, by its pointer
unfoldable pub allocate : {S : Type 0} → Option Text → Owned S → Option (ℕ × Text) × Owned S
allocate none w = (none, w)
allocate (some t) w = let (pointer, w') = acquire w in (some (pointer, t), w')

-- `_wstring_at`
unfoldable pub wstring_at : Option (ℕ × Text) → Option Text
wstring_at none = none
wstring_at (some (pointer, t)) = some t

-- `GlobalFree`, which NULL leaves as it is
unfoldable pub global_free : {S : Type 0} → Option (ℕ × Text) → Owned S → Owned S
global_free none w = w
global_free (some (pointer, t)) w = release pointer w

abbrev pub settings_of :
    Bool → Option (ℕ × Text) → Option (ℕ × Text) → Option (ℕ × Text) → IeProxySettings
settings_of auto_detect url proxy bypass = record {
  auto_detect = auto_detect;
  auto_config_url = wstring_at url;
  proxy = wstring_at proxy;
  proxy_bypass = wstring_at bypass;
}

-- the settings that were read, when their strings are freed
unfoldable pub read_settings :
    {S : Type 0} → Option IeProxySettings → Exec (Owned S) (Option IeProxySettings)
read_settings none w = (ok none, w)
read_settings (some cfg) w =
    let (url, w1) = allocate cfg.auto_config_url w in
    let (proxy, w2) = allocate cfg.proxy w1 in
    let (bypass, w3) = allocate cfg.proxy_bypass w2 in
    let settings = settings_of cfg.auto_detect url proxy bypass in
    (ok (some settings), global_free bypass (global_free proxy (global_free url w3)))

-- the answer of a call that worked, when its strings are freed
unfoldable pub read_info : {S : Type 0} → ProxyInfo → Owned S → Queried × Owned S
read_info info w =
    let (proxy, w1) = allocate info.proxy w in
    let (bypass, w2) = allocate info.proxy_bypass w1 in
    (worked (wstring_at proxy), global_free bypass (global_free proxy w2))

-- the bits `_WINHTTP_AUTOPROXY_AUTO_DETECT` and `_WINHTTP_AUTOPROXY_CONFIG_URL`, and those of DHCP and DNS
unfoldable pub options_for : Bool → Text → Bool → AutoProxyOptions
options_for auto_detect auto_config_url auto_logon = record {
  flags = (if auto_detect then 1 else 0) + (if is_empty auto_config_url then 0 else 2);
  auto_detect_flags = if auto_detect then 1 + 2 else 0;
  auto_config_url = nonempty auto_config_url;
  auto_logon = auto_logon;
}

-- `_SESSION_TIMEOUT_MS`
abbrev pub session_timeout_ms : ℕ
session_timeout_ms = 10000

module _ {S : Type 0} (win : WinHttp S) where
  -- `_read_ie_proxy_config`
  unfoldable pub read_ie_proxy_config : Exec (Owned S) (Option IeProxySettings)
  read_ie_proxy_config w =
      let (cfg, s) = win.get_ie_proxy_config w.rest in
      if win.is_windows then read_settings cfg (record w { rest = s }) else (raise os_error, w)

  -- what `_query_proxy_for_url` returns for the answer of `WinHttpGetProxyForUrl`
  unfoldable pub query_result : Option ProxyInfo → Owned S → Queried × Owned S
  query_result none w = (refused (win.get_last_error w.rest), w)
  query_result (some info) w = read_info info w

  -- `_query_proxy_for_url`, where the libraries are loaded
  unfoldable pub query_proxy_for_url : ℕ → Text → Bool → Text → Bool → Owned S → Queried × Owned S
  query_proxy_for_url session url auto_detect auto_config_url auto_logon w =
      let options = options_for auto_detect auto_config_url auto_logon in
      let (answer, s) = win.get_proxy_for_url session url options (win.set_last_error 0 w.rest) in
      query_result answer (record w { rest = s })

  -- `WinHTTPProxyMap.__init__`: the session, where WinHTTP opens one
  unfoldable pub init : Exec (Owned S) (Option ℕ)
  init w =
      let (opened, s) = win.open_session w.rest in
      let (session, w') = acquire (record w { rest = s }) in
      let timed = record w' { rest = win.set_timeouts session session_timeout_ms s } in
      if not win.is_windows
      then (raise os_error, w)
      else if opened
      then (ok (some session), timed)
      else (ok none, record w { rest = s })

  -- `close`: the session that is left, which is none
  unfoldable pub close : Option ℕ → Owned S → Option ℕ × Owned S
  close none w = (none, w)
  close (some session) w =
      (none, release session (record w { rest = win.close_handle session w.rest }))

  module _ ⦃net : Netimps⦄ where
    -- `WinHTTPProxyMap.__getitem__`
    unfoldable pub getitem : Option ℕ → Text → Exec (Owned S) Proxies
    getitem none url w = (raise key_error, w)
    getitem (some session) url w =
        winhttp_getitem read_ie_proxy_config (query_proxy_for_url session) true url w

    -- a lookup as a use of the map
    unfoldable pub look : Text → Option ℕ → Owned S → Option ℕ × Owned S
    look url session w = (session, (getitem session url w).1)

    -- the uses of a map, and `__del__`, which closes what was opened
    unfoldable pub use_up : List Use → Result (Option ℕ) → Owned S → Owned S
    use_up uses (raise e) w = w
    use_up uses (ok session) w =
        let (session', w') = use_all look close uses session w in (close session' w').1

    -- a map from its making to its end
    unfoldable pub lifetime : List Use → Owned S → Owned S
    lifetime uses w = let (made, w') = init w in use_up uses made w'
