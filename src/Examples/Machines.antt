-- ===== src/Examples/Machines.antt =====
-- The settings and the resolvers of an OS, at concrete inputs.
use proxylib.Prelude.{ℕ, ◌≡◌, refl, Bool, true, false, Option, none, some, List, [], ◌∷◌}
use proxylib.Python.Exec.{ok, raise, key_error}
use proxylib.Python.Text.{Text, text, ends_with, lstrip, rstrip, is_space, ◌==◌}
use proxylib.Python.Dict
use proxylib.Python.Dict.{Dict}
use proxylib.SystemConfig.{ProxyConfig, configured, empty_config}
use proxylib.System.{is_configured, kde_read_config}
use proxylib.System.Gsettings.{
  Machine, list_recursively, fresh_listing, listing_of, gsettings_get, gsettings_config,
  config_for_mode, base_schema, without_suffix,
}
use proxylib.System.NetworkManager.{nm_read_config, nm_config, method_of, stripped_at, script_of}
use proxylib.System.Posix.{posix_read_config, read_first, readers}
use proxylib.System.Consistent.{has_source, posix_read_config-Consistent}
use proxylib.System.Windows.{IeProxySettings, Queried, refused, winhttp_getitem}
use proxylib.Samples.{offline}

abbrev dump : List Text
dump =
    text "<dictionary> {"
    ∷ text "  ExceptionsList : <array> {"
    ∷ text "    0 : *.local"
    ∷ text "  }"
    ∷ text "  HTTPEnable : 1"
    ∷ text "}"
    ∷ []

-- a machine whose clock counts the programs run, without gsettings
abbrev no_gsettings : Text → ℕ → Option (List Text) × ℕ
no_gsettings schema s = (none, s)

abbrev bare : Machine ℕ
bare = record { cache = []; rest = 5 }

abbrev nmcli_auto : Dict Text Text
nmcli_auto = (text "method", text "auto") ∷ (text "pac-url", text "http://x/p") ∷ []

abbrev nm_settings : ProxyConfig
nm_settings = record empty_config {
  source = text "networkmanager";
  state = configured;
  pac_url = some (text "http://x/p");
}

nm_read :
    (posix_read_config (λ s. s) no_gsettings none (some nmcli_auto) none bare).0
    ≡ ok (some nm_settings)
unfolding posix_read_config read_first readers gsettings_config config_for_mode gsettings_get ◌==◌
    base_schema without_suffix ends_with Dict.get list_recursively fresh_listing listing_of Dict.set
    kde_read_config nm_read_config nm_config method_of stripped_at script_of lstrip rstrip is_space
nm_read = refl

posix_read_config-Consistent_example : is_configured nm_settings ≡ has_source nm_settings
posix_read_config-Consistent_example =
    posix_read_config-Consistent (λ s. s) no_gsettings none (some nmcli_auto) none bare nm_settings
      nm_read

bare_stale : fresh_listing (λ s. s) (text "a") bare ≡ none
unfolding fresh_listing Dict.get
bare_stale = refl

-- WinHTTP, where each call fails
abbrev ie : IeProxySettings
ie = record { auto_detect = true; auto_config_url = none; proxy = none; proxy_bypass = none }

abbrev failing : Text → Bool → Text → Bool → ℕ → Queried × ℕ
failing url auto_detect auto_config_url auto_logon s = (refused 12180, s)

closed_session :
    (winhttp_getitem (λ s. (ok (some ie), s)) failing false (text "http://x") 5).0 ≡ raise key_error
unfolding winhttp_getitem
closed_session = refl
