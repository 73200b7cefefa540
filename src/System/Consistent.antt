-- ===== src/System/Consistent.antt =====
-- The settings that the readers of src/proxylib/system/ give: whether their state says what they hold.
use proxylib.Prelude.{
  ℕ, ◌≡◌, refl, ◌∙◌, ap, subst, Bool, true, false, not, ◌||◌, Option, none, some, List, [], ◌∷◌,
  arith, if◌then◌else◌, is_nil, is_some, is_some, or_else, All, Bool-cases, Option-cases, inl, inr,
}
use proxylib.Python.Exec.{os_error, is_a, Result, ok, raise, ◌>>=◌, Result-cases}
use proxylib.Python.Text.{Text, text, is_empty, ◌==◌}
use proxylib.Python.Dict.{Dict}
use proxylib.Net.{Netimps}
use proxylib.Proxy.{Proxy}
use proxylib.BypassRules.{whole, items, parse}
use proxylib.SystemConfig.{ProxyConfig}
use proxylib.System.{is_configured, kde_config, kde_rules, kde_manual, kde_read_config, field_of}
use proxylib.System.Scutil.{
  Fields, empty, field, scutil_proxies, scutil_pac_url, scutil_rules, scutil_config,
  config_from_scutil,
}
use proxylib.System.Windows.{IeProxySettings, config_from_ie, windows_config}
use proxylib.System.NetworkManager.{method_of, nm_config, nm_read_config}
use proxylib.System.Gsettings.{
  Machine, gsettings_config, string_list, gsettings_manual, config_for_mode,
}
use proxylib.System.Posix.{Reader, read_first, readers, posix_read_config}

-- something to ask is switched on: auto-detection, a PAC or a proxy
abbrev pub has_source : ProxyConfig → Bool
has_source c = c.auto_detect || is_some c.pac_url || is_some c.pac_script || not (is_nil c.proxies)

abbrev pub Consistent : ProxyConfig → Type 0
Consistent c = is_configured c ≡ has_source c

abbrev pub ConsistentOption : Option ProxyConfig → Type 0
ConsistentOption none = Unit
ConsistentOption (some c) = Consistent c

abbrev pub ConsistentResult : Result (Option ProxyConfig) → Type 0
ConsistentResult (raise e) = Unit
ConsistentResult (ok found) = ConsistentOption found

ConsistentResult-if :
    (b : Bool) (p q : Result (Option ProxyConfig))
    → ConsistentResult p
    → ConsistentResult q
    → ConsistentResult (if b then p else q)
ConsistentResult-if true p q hp hq = hp
ConsistentResult-if false p q hp hq = hq

ConsistentOption-or_else :
    (first : Option ProxyConfig) (c : ProxyConfig)
    → ConsistentOption first
    → Consistent c
    → Consistent (or_else first c)
ConsistentOption-or_else none c f h = h
ConsistentOption-or_else (some d) c f h = f

module _ ⦃net : Netimps⦄ where
  nm_config-Consistent : (settings : Dict Text Text) → ConsistentOption (nm_config settings)
  unfolding nm_config
  nm_config-Consistent settings = elim (Bool-cases (method_of settings == text "auto")) [
    | inl auto ↦ rw (nm_config, auto) (ground arith)
    | inr other ↦ rw (nm_config, other) tt
  ]

  nm_read_config-Consistent :
      (nmcli dbus : Option (Dict Text Text)) → ConsistentOption (nm_read_config nmcli dbus)
  unfolding nm_read_config
  nm_read_config-Consistent none none = tt
  nm_read_config-Consistent none (some []) = tt
  nm_read_config-Consistent none (some (e ∷ es)) = nm_config-Consistent (e ∷ es)
  nm_read_config-Consistent (some []) none = tt
  nm_read_config-Consistent (some []) (some []) = tt
  nm_read_config-Consistent (some []) (some (e ∷ es)) = nm_config-Consistent (e ∷ es)
  nm_read_config-Consistent (some (e ∷ es)) dbus = nm_config-Consistent (e ∷ es)

  kde_manual-Consistent :
      (section : Dict Text Text) → ConsistentResult (do c ← kde_manual section; ok (some c))
  unfolding kde_manual kde_config
  kde_manual-Consistent section = elim (Result-cases (kde_rules section)) [
    | inl (rules, e) ↦ rw (kde_manual, e) (ground arith)
    | inr (x, e) ↦ rw (kde_manual, e) tt
  ]

  abbrev kde_type : Dict Text Text → Text
  kde_type section = field_of section (text "proxytype") (text "0")

  kde-Consistent : (section : Option (Dict Text Text)) → ConsistentResult (kde_read_config section)
  unfolding kde_read_config kde_config
  kde-Consistent none = tt
  kde-Consistent (some section) = elim (Bool-cases (kde_type section == text "0")) [
    | inl e ↦ rw (kde_read_config, e) refl
    | inr e0 ↦ elim (Bool-cases (kde_type section == text "3")) [
      | inl e ↦ rw (kde_read_config, e0, e) refl
      | inr e3 ↦ elim (Bool-cases (kde_type section == text "2")) [
        | inl e ↦ elim (Bool-cases (is_empty (field_of section (text "proxy config script") []))) [
          | inl blank ↦ rw (kde_read_config, e0, e3, e, blank) tt
          | inr given ↦ rw (kde_read_config, e0, e3, e, given) refl
        ]
        | inr e2 ↦ elim (Bool-cases (kde_type section == text "1")) [
          | inl e ↦ rw (kde_read_config, e0, e3, e2, e) (kde_manual-Consistent section)
          | inr e ↦ rw (kde_read_config, e0, e3, e2, e) tt
        ]
      ]
    ]
  ]

  scutil-Consistent : (settings : Fields) → ConsistentResult (config_from_scutil settings)
  unfolding config_from_scutil scutil_config
  scutil-Consistent empty = tt
  scutil-Consistent (field k v fs) = elim (Result-cases (scutil_proxies (field k v fs))) [
    | inr (x, e) ↦ rw (config_from_scutil, e) tt
    | inl (proxies, p) ↦ elim (Result-cases (scutil_pac_url (field k v fs))) [
      | inr (x, e) ↦ rw (config_from_scutil, p, e) tt
      | inl (pac_url, u) ↦ elim (Result-cases (scutil_rules (field k v fs))) [
        | inr (x, e) ↦ rw (config_from_scutil, p, u, e) tt
        | inl (rules, r) ↦ rw (config_from_scutil, p, u, r) (ground arith)
      ]
    ]
  ]

  windows-Consistent :
      (found : Result (Option IeProxySettings)) → ConsistentResult (windows_config found)
  unfolding windows_config config_from_ie
  windows-Consistent (raise e) = ConsistentResult-if (is_a e os_error) (ok none) (raise e) tt tt
  windows-Consistent (ok none) = tt
  windows-Consistent (ok (some ie)) =
      elim (Result-cases (parse (whole (or_else ie.proxy_bypass [])) (text "wininet") false)) [
        | inr (x, e) ↦ rw (windows_config, config_from_ie, e) tt
        | inl (rules, e) ↦ rw (windows_config, config_from_ie, e) (ground arith)
      ]

  gsettings_manual-Consistent :
      (source : Text) (proxies : Dict Text Proxy) (hosts : Text)
      → ConsistentResult (gsettings_manual source proxies hosts)
  unfolding gsettings_manual
  gsettings_manual-Consistent source proxies hosts =
      elim (Result-cases (parse (items (string_list hosts)) (text "gsettings") false)) [
        | inr (x, e) ↦ rw (gsettings_manual, e) tt
        | inl (rules, e) ↦ rw (gsettings_manual, e) (ground arith)
      ]

module _ {S : Type 0} ⦃net : Netimps⦄ (clock : S → ℕ)
    (run : Text → S → Option (List Text) × S) where
  config_for_mode-Consistent :
      (schema source : Text) (mode : Option Text) (m : Machine S)
      → ConsistentResult (config_for_mode clock run schema source mode m).0
  unfolding config_for_mode
  config_for_mode-Consistent schema source none m = tt
  config_for_mode-Consistent schema source (some mode) m = elim (Bool-cases (mode == text "none")) [
    | inl e ↦ rw (config_for_mode, e) refl
    | inr e0 ↦ elim (Bool-cases (mode == text "auto")) [
      | inl e ↦ rw (config_for_mode, e0, e) (ground arith)
      | inr e1 ↦ elim (Bool-cases (mode == text "manual")) [
        | inl e ↦ rw (config_for_mode, e0, e1, e) (gsettings_manual-Consistent _ _ _)
        | inr e ↦ rw (config_for_mode, e0, e1, e) tt
      ]
    ]
  ]

module _ {S : Type 0} where
  abbrev ConsistentReader : Reader S → Type 0
  ConsistentReader reader = (s : S) → ConsistentResult (reader s).0

  read_first-Consistent :
      (first : Option ProxyConfig) (rs : List (Reader S)) (s : S)
      → ConsistentOption first
      → All ConsistentReader rs
      → ConsistentResult (read_first first rs s).0
  unfolding read_first
  read_first-Consistent first [] s f all_ok = f
  read_first-Consistent first (reader ∷ rs) s f (here, later) = elim (Result-cases (reader s).0) [
    | inr (x, e) ↦ rw (read_first, e) tt
    | inl (found, e) ↦ elim (Option-cases found) [
      | inl n ↦ rw (read_first, e, n) (read_first-Consistent first rs (reader s).1 f later)
      | inr (c, n) ↦
          let this : Consistent c = subst ConsistentResult (e ∙ ap ok n) (here s) in
          elim (Bool-cases (is_configured c)) [
            | inl yes' ↦ rw (read_first, e, n, yes') this
            | inr other ↦
                rw (read_first, e, n, other)
                  (read_first-Consistent (some (or_else first c)) rs (reader s).1
                    (ConsistentOption-or_else first c f this) later)
          ]
    ]
  ]

module _ {S : Type 0} ⦃net : Netimps⦄ where
  -- The settings that a POSIX desktop gives, from whichever source, say what they hold: their state is
  -- "configured" exactly when auto-detection, a PAC or at least one proxy is switched on.
  pub posix_read_config-Consistent :
      (clock : S → ℕ) (run : Text → S → Option (List Text) × S)
      (kde nmcli dbus : Option (Dict Text Text)) (m : Machine S) (c : ProxyConfig)
      → (posix_read_config clock run kde nmcli dbus m).0 ≡ ok (some c)
      → is_configured c ≡ has_source c
  unfolding posix_read_config readers gsettings_config
  posix_read_config-Consistent clock run kde nmcli dbus m c h = subst ConsistentResult h (
      read_first-Consistent none _ m tt (
        (λ s. config_for_mode-Consistent clock run _ _ _ _),
        (
          (λ s. config_for_mode-Consistent clock run _ _ _ _),
          ((λ s. kde-Consistent kde), ((λ s. nm_read_config-Consistent nmcli dbus), tt)),
        ),
      ))
