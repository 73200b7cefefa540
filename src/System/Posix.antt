-- ===== src/System/Posix.antt =====
-- src/proxylib/system/_posix/__init__.py: the readers of the desktops' settings, in turn. A reader is
-- run only when none before it has a proxy configured.
use proxylib.Prelude.{Option, none, some, List, [], ◌∷◌, if◌then◌else◌, or_else}
use proxylib.Python.Exec.{ok, raise, Exec}
use proxylib.Python.Text.{Text, text}
use proxylib.Python.Dict.{Dict}
use proxylib.Prelude.{ℕ}
use proxylib.Net.{Netimps}
use proxylib.SystemConfig.{ProxyConfig}
use proxylib.System.{is_configured, kde_read_config}
use proxylib.System.Gsettings.{Machine, gsettings_config}
use proxylib.System.NetworkManager.{nm_read_config}

abbrev pub Reader : Type 0 → Type 0
Reader S = Exec S (Option ProxyConfig)

-- the loop of `read_config`; `first` is the first settings so far
unfoldable pub read_first : {S : Type 0} → Option ProxyConfig → List (Reader S) → Reader S
read_first first [] s = (ok first, s)
read_first first (reader ∷ readers) s =
    let s' = (reader s).1 in
    let passed = read_first first readers s' in
    elim (reader s).0 [
      | raise e ↦ (raise e, s')
      | ok found ↦ elim found [
        | none ↦ passed
        | some c ↦
            let later = read_first (some (or_else first c)) readers s' in
            if is_configured c then (ok (some c), s') else later
      ]
    ]

module _ {S : Type 0} ⦃net : Netimps⦄ where
  -- `_readers`: what reading kioslaverc, nmcli and D-Bus give are arguments
  unfoldable pub readers :
      (S → ℕ)
      → (Text → S → Option (List Text) × S)
      → Option (Dict Text Text)
      → Option (Dict Text Text)
      → Option (Dict Text Text)
      → List (Reader (Machine S))
  readers clock run kde nmcli dbus =
      gsettings_config clock run (text "org.gnome.system.proxy") (text "gnome")
      ∷ gsettings_config clock run (text "org.mate.system.proxy") (text "mate")
      ∷ (λ m. (kde_read_config kde, m))
      ∷ (λ m. (ok (nm_read_config nmcli dbus), m))
      ∷ []

  -- `read_config`
  unfoldable pub posix_read_config :
      (S → ℕ)
      → (Text → S → Option (List Text) × S)
      → Option (Dict Text Text)
      → Option (Dict Text Text)
      → Option (Dict Text Text)
      → Reader (Machine S)
  posix_read_config clock run kde nmcli dbus = read_first none (readers clock run kde nmcli dbus)
