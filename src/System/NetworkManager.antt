-- ===== src/System/NetworkManager.antt =====
-- src/proxylib/system/_posix/_networkmanager.py: the settings that nmcli prints for each active
-- connection, and the settings they make. What nmcli prints is an argument; reading over D-Bus is one
-- too, as the settings it gives.
use proxylib.Prelude.{
  Bool, not, ◌&&◌, ◌||◌, Option, none, some, List, [], ◌∷◌, if◌then◌else◌, keep, map, or_else,
  is_some,
}
use proxylib.Python.Text.{Text, text, strip, is_empty, nonempty, contains, ◌==◌}
use proxylib.Python.Dict
use proxylib.Python.Dict.{Dict}
use proxylib.SystemConfig.{configured, ProxyConfig, empty_config}

-- the settings of one connection, from its three fields; fewer are passed over
unfoldable pub connection_settings : List Text → Option (Dict Text Text)
connection_settings [] = none
connection_settings (m ∷ []) = none
connection_settings (m ∷ u ∷ []) = none
connection_settings (m ∷ u ∷ s ∷ more) =
    some ((text "method", strip m) ∷ (text "pac-url", strip u) ∷ (text "pac-script", strip s) ∷ [])

unfoldable pub method_of : Dict Text Text → Text
method_of settings = or_else (Dict.get ◌==◌ settings (text "method")) []

-- `settings["method"] not in ("", "none")`
unfoldable pub is_chosen : Dict Text Text → Bool
is_chosen settings = not (is_empty (method_of settings)) && not (method_of settings == text "none")

-- the loop over the active connections; `first` is the first settings so far, which are never empty
unfoldable pub pick_connection :
    (Text → List Text) → Option (Dict Text Text) → List Text → Option (Dict Text Text)
pick_connection fields first [] = first
pick_connection fields first (uuid ∷ uuids) =
    let passed = pick_connection fields first uuids in
    elim (connection_settings (fields uuid)) [
      | none ↦ passed
      | some settings ↦
          let later = pick_connection fields (some (or_else first settings)) uuids in
          if is_chosen settings then some settings else later
    ]

-- `_proxy_settings_via_nmcli`: whether nmcli is installed, its lines for the active connections, and
-- those for one of them
unfoldable pub nmcli_settings : Bool → List Text → (Text → List Text) → Option (Dict Text Text)
nmcli_settings installed active fields =
    if not installed
    then none
    else pick_connection fields none (keep (λ u. not (is_empty u)) (map strip active))

-- `settings.get(key, "").strip() or None`
unfoldable pub stripped_at : Dict Text Text → Text → Option Text
stripped_at settings key = nonempty (strip (or_else (Dict.get ◌==◌ settings key) []))

unfoldable pub script_of : Option Text → Option Text
script_of none = none
script_of (some script) = if contains script (text "FindProxyForURL") then some script else none

-- `config_from_settings`
unfoldable pub nm_config : Dict Text Text → Option ProxyConfig
nm_config settings =
    let pac_url = stripped_at settings (text "pac-url") in
    let pac_script = script_of (stripped_at settings (text "pac-script")) in
    if not (method_of settings == text "auto")
    then none
    else some (record empty_config {
      source = text "networkmanager";
      state = configured;
      auto_detect = not (is_some pac_url || is_some pac_script);
      pac_url = pac_url;
      pac_script = pac_script;
    })

-- `read_config`: nmcli, or else D-Bus
unfoldable pub nm_read_config :
    Option (Dict Text Text) → Option (Dict Text Text) → Option ProxyConfig
nm_read_config (some []) none = none
nm_read_config none none = none
nm_read_config none (some []) = none
nm_read_config (some []) (some []) = none
nm_read_config none (some (e ∷ es)) = nm_config (e ∷ es)
nm_read_config (some []) (some (e ∷ es)) = nm_config (e ∷ es)
nm_read_config (some (e ∷ es)) other = nm_config (e ∷ es)
