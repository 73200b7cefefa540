-- ===== src/System.antt =====
-- src/proxylib/system/__init__.py and system/_posix/: which settings count, the KDE reader, and the
-- map a program should use. The other readers and the OS's own resolvers are arguments.
pub mod Scutil
pub mod Gsettings
pub mod WinHttp
pub mod LibProxy
pub mod Windows
pub mod NetworkManager
pub mod Posix
pub mod Consistent
pub mod Asking
pub mod Deciding
pub mod Resolvers
pub mod Owned
pub mod References
pub mod Dbus
use proxylib.Prelude.{
  ◌≡◌, Bool, true, false, not, Option, none, some, List, [], ◌∷◌, ◌++◌, map, if◌then◌else◌, any,
  keep, is_nil, or_else,
}
use proxylib.Python.Exec.{Error, Result, ok, raise, key_error, is_a, ◌>>=◌}
use proxylib.Python.Text.{Text, text, strip, lower, is_empty, words, split, ◌==◌}
use proxylib.Python.Dict
use proxylib.Python.Dict.{Dict}
use proxylib.Net.{Netimps}
use proxylib.Proxy.{Proxy}
use proxylib.Lookup.{ProxyMap, lookup, chain_map}
use proxylib.Lookup.Chains.{lookup-chain_map}
use proxylib.BypassRules.{BypassRules, items, parse}
use proxylib.Env.{read_env}
use proxylib.Wrappers.{bypass}
use proxylib.SystemConfig.{direct, configured, unset, ProxyConfig, empty_config, direct_map}
use proxylib.SystemConfig.Settings.{proxy_from, set_proxy}
use proxylib.SystemConfig.Deferring.{
  chain_lookup-decides, AlwaysDecides, direct_map-decides, bypass-decides,
}

-- `_setting` of a section of kioslaverc: "scheme://host port" with a colon for the space
unfoldable pub kde_setting : Dict Text Text → Text → Text
kde_setting section key = elim (words (or_else (Dict.get ◌==◌ section key) [])) [
  | [] ↦ []
  | first ∷ rest ↦ elim rest [ [] ↦ first | second ∷ _ ↦ first ++ (text ":" ++ second) ]
]

unfoldable pub kde_proxies : Dict Text Text → Dict Text Proxy
kde_proxies section =
    set_proxy (text "socks") (proxy_from (kde_setting section (text "socksproxy")) (text "socks5"))
      (set_proxy (text "ftp") (proxy_from (kde_setting section (text "ftpproxy")) (text "http")) (
        set_proxy (text "https")
          (proxy_from (kde_setting section (text "httpsproxy")) (text "http"))
          (set_proxy (text "http")
            (proxy_from (kde_setting section (text "httpproxy")) (text "http")) [])))

unfoldable pub kde_config : ProxyConfig
kde_config = record empty_config { source = text "kde" }

unfoldable pub field_of : Dict Text Text → Text → Text → Text
field_of section key default = strip (or_else (Dict.get ◌==◌ section key) default)

module _ ⦃net : Netimps⦄ where
  -- the rules of the manual settings, and the settings
  unfoldable pub kde_rules : Dict Text Text → Result BypassRules
  kde_rules section =
      parse
        (items (
          keep (λ h. not (is_empty h))
            (map strip (split b',' (or_else (Dict.get ◌==◌ section (text "noproxyfor")) [])))))
        (text "kde")
        (lower (field_of section (text "reversedexception") (text "false")) == text "true")

  unfoldable pub kde_manual : Dict Text Text → Result ProxyConfig
  kde_manual section = do
    rules ← kde_rules section
    ok (record kde_config {
      state = if is_nil (kde_proxies section) then direct else configured;
      proxies = kde_proxies section;
      bypass = rules;
    })

  -- `_kde.read_config`, from the section that was read
  unfoldable pub kde_read_config : Option (Dict Text Text) → Result (Option ProxyConfig)
  kde_read_config none = ok none
  kde_read_config (some section) =
      let proxy_type = field_of section (text "proxytype") (text "0") in
      let pac_url = field_of section (text "proxy config script") [] in
      if proxy_type == text "0"
      then ok (some (record kde_config { state = direct }))
      else if proxy_type == text "3"
      then ok (some (record kde_config { state = configured; auto_detect = true }))
      else if proxy_type == text "2"
      then ok (
          if is_empty pac_url
          then none
          else some (record kde_config { state = configured; pac_url = some pac_url }))
      else if proxy_type == text "1"
      then (do c ← kde_manual section; ok (some c))
      else ok none

abbrev pub is_configured : ProxyConfig → Bool
is_configured c = elim c.state [ configured ↦ true | direct ↦ false | unset ↦ false ]

-- the loop of `read_config`, over what the readers give; `first` is the first settings so far
unfoldable pub pick_config : Option ProxyConfig → List (Option ProxyConfig) → Option ProxyConfig
pick_config first [] = first
pick_config first (none ∷ cs) = pick_config first cs
pick_config first (some c ∷ cs) =
    let rest = pick_config (some (or_else first c)) cs in if is_configured c then some c else rest

-- `_has_proxy_variable`
unfoldable pub has_proxy_variable : Bool → Dict Text Text → Bool
has_proxy_variable insensitive env =
    any (λ e. not (is_empty e.1)) (read_env insensitive env).proxies

module _ {S : Type 0} ⦃net : Netimps⦄ where
  -- `auto_proxy`, from the map of the environment, the OS's resolver and the map of its settings
  unfoldable pub auto_proxy :
      Bool → ProxyMap S → Option (ProxyMap S) → ProxyMap S → Option BypassRules → ProxyMap S
  auto_proxy has_variable env_map resolver fallback no_proxy =
      let chosen =
        (if has_variable
          then chain_map (env_map ∷ direct_map ∷ [])
          else elim resolver [ none ↦ fallback | some r ↦ chain_map (r ∷ fallback ∷ []) ]) in
      elim no_proxy [ none ↦ chosen | some rules ↦ bypass rules chosen ]

  last_decides :
      (first last : ProxyMap S)
      → AlwaysDecides (lookup last)
      → AlwaysDecides (lookup (chain_map (first ∷ last ∷ [])))
  last_decides first last dec url s e h =
      chain_lookup-decides (first ∷ []) last dec url s e
        (rw (lookup-chain_map (first ∷ last ∷ []) url s) at h)

  -- The map that a program should use never has no opinion, where the map of the OS's settings does not:
  -- with or without proxy variables, an OS resolver and rules of its own, an exception of a lookup is not a
  -- `KeyError`, whatever the environment's map and the resolver do.
  pub auto_proxy-decides :
      (has_variable : Bool) (env_map : ProxyMap S) (resolver : Option (ProxyMap S))
      (fallback : ProxyMap S) (no_proxy : Option BypassRules) (url : Text) (s : S) (e : Error)
      → AlwaysDecides (lookup fallback)
      → (lookup (auto_proxy has_variable env_map resolver fallback no_proxy) url s).0 ≡ raise e
      → is_a e key_error ≡ false
  unfolding auto_proxy
  auto_proxy-decides true env_map resolver fallback none url s e dec h =
      last_decides env_map direct_map direct_map-decides url s e h
  auto_proxy-decides true env_map resolver fallback (some rules) url s e dec h =
      bypass-decides rules _ (last_decides env_map direct_map direct_map-decides) url s e h
  auto_proxy-decides false env_map none fallback none url s e dec h = dec url s e h
  auto_proxy-decides false env_map none fallback (some rules) url s e dec h =
      bypass-decides rules fallback dec url s e h
  auto_proxy-decides false env_map (some r) fallback none url s e dec h =
      last_decides r fallback dec url s e h
  auto_proxy-decides false env_map (some r) fallback (some rules) url s e dec h =
      bypass-decides rules _ (last_decides r fallback dec) url s e h
