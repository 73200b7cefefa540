-- ===== src/System/Gsettings.antt =====
-- src/proxylib/system/_posix/_gsettings.py: the listing of a schema, kept for `_CACHE_TTL` seconds, and
-- the settings of GNOME and MATE. Running `gsettings` and reading the clock are arguments.
use proxylib.Prelude.{
  ℕ, ◌-◌, Bool, false, not, ◌&&◌, Option, none, some, List, [], ◌∷◌, ◌++◌, ltb, if◌then◌else◌,
  is_nil, is_some, or_else, keep, map, length, drop, take,
}
use proxylib.Python.Exec.{Result, ok, ◌>>=◌, Exec}
use proxylib.Python.Text.{
  Text, text, strip, lstrip, rstrip, starts_with, ends_with, has_char, is_empty, nonempty, split,
  first_word, ◌==◌,
}
use proxylib.Python.Dict
use proxylib.Python.Dict.{Dict}
use proxylib.Net.{Netimps}
use proxylib.Proxy.{Proxy}
use proxylib.BypassRules.{items, parse}
use proxylib.SystemConfig.{direct, configured, ProxyConfig, empty_config}
use proxylib.SystemConfig.Settings.{proxy_at, set_proxy}

abbrev pub same_setting : Text × Text → Text × Text → Bool
same_setting (a, b) (c, d) = a == c && b == d

-- the values of a listing, by schema and key, and `_recursive_cache`
abbrev pub Listing : Type 0
Listing = Dict (Text × Text) Text

pub record Machine (S : Type 0) : Type 0 where
  pub cache : Dict Text (ℕ × Listing)
  pub rest : S

abbrev pub cache_ttl : ℕ
cache_ttl = 10

unfoldable pub without_suffix : Text → Text → Option Text
without_suffix s suffix =
    if ends_with s suffix then some (take (length s - length suffix) s) else none

-- `_base_schema`
unfoldable pub base_schema : Text → Text
base_schema schema = elim (without_suffix schema (text ".https")) [
  | some base ↦ base
  | none ↦ elim (without_suffix schema (text ".http")) [
    | some base ↦ base
    | none ↦ elim (without_suffix schema (text ".ftp")) [
      | some base ↦ base
      | none ↦ or_else (without_suffix schema (text ".socks")) schema
    ]
  ]
]

-- `text.strip(chars)`
abbrev strip_chars : Text → Text → Text
strip_chars chars s = rstrip (λ c. has_char c chars) (lstrip (λ c. has_char c chars) s)

-- the loop of `_parse_gsettings_recursive`, over the lines of the output
unfoldable pub parse_listing : Listing → List Text → Listing
parse_listing values [] = values
parse_listing values (line ∷ lines) =
    let (schema, tail) = first_word (strip line) in
    let (key, value) = first_word tail in
    let stored =
      parse_listing
        (Dict.set same_setting values (schema, key) (strip_chars (text "'") (strip value))) lines in
    let skipped = parse_listing values lines in if is_empty value then skipped else stored

-- `{**values, **child_values}`
unfoldable pub merge_listing : Listing → Listing → Listing
merge_listing values [] = values
merge_listing values ((k, v) ∷ child) = merge_listing (Dict.set same_setting values k v) child

unfoldable pub listing_of : Option (List Text) → Listing
listing_of none = []
listing_of (some lines) = parse_listing [] lines

-- the entry of the cache, while it is fresh
unfoldable pub fresh_listing : {S : Type 0} → (S → ℕ) → Text → Machine S → Option Listing
fresh_listing clock schema m = elim (Dict.get ◌==◌ m.cache schema) [
  | none ↦ none
  | some (at, values) ↦ if ltb (clock m.rest - at) cache_ttl then some values else none
]

module _ {S : Type 0} (clock : S → ℕ) (run : Text → S → Option (List Text) × S) where
  abbrev keep_listing : Text → Listing → S → Dict Text (ℕ × Listing) → Machine S
  keep_listing schema values s cache = record {
    cache = Dict.set ◌==◌ cache schema (clock s, values);
    rest = s;
  }

  -- `_gsettings_list_recursively`; `run schema` runs `gsettings list-recursively schema`
  unfoldable pub list_recursively : Text → Machine S → Listing × Machine S
  list_recursively schema m = elim (fresh_listing clock schema m) [
    | some values ↦ (values, m)
    | none ↦
        let (output, s) = run schema m.rest in
        (listing_of output, keep_listing schema (listing_of output) s m.cache)
  ]

  -- the values with those of a child schema that the listing left out
  with_child : Text → Text → Listing → Machine S → Listing × Machine S
  with_child base schema values m =
      let (child, m') = list_recursively schema m in
      let merged = merge_listing values child in
      if is_nil child then (values, m') else (merged, keep_listing base merged m'.rest m'.cache)

  -- `_gsettings_get`
  unfoldable pub gsettings_get : Text → Text → Machine S → Option Text × Machine S
  unfolding with_child
  gsettings_get schema key m =
      let base = base_schema schema in
      let (values, m') = list_recursively base m in
      let (all_values, m'') = with_child base schema values m' in
      if not (schema == base) && not (Dict.has same_setting values (schema, key))
      then (Dict.get same_setting all_values (schema, key), m'')
      else (Dict.get same_setting values (schema, key), m')

-- `_string_list`; `None` is empty
unfoldable pub string_list : Text → List Text
string_list value =
    let trimmed = strip value in
    let bare = if starts_with trimmed (text "@as ") then drop 4 trimmed else trimmed in
    keep (λ item. not (is_empty item))
      (map (strip_chars (text " '\"")) (split b',' (strip_chars (text "[]") bare)))

module _ ⦃net : Netimps⦄ where
  -- the settings of the mode "manual"
  unfoldable pub gsettings_manual : Text → Dict Text Proxy → Text → Result (Option ProxyConfig)
  gsettings_manual source proxies hosts = do
    rules ← parse (items (string_list hosts)) (text "gsettings") false
    ok (
        some (record empty_config {
          source = source;
          state = if is_nil proxies then direct else configured;
          proxies = proxies;
          bypass = rules;
        }))

module _ {S : Type 0} ⦃net : Netimps⦄ (clock : S → ℕ)
    (run : Text → S → Option (List Text) × S) where
  abbrev value_at : Text → Text → Machine S → Text × Machine S
  value_at schema key m =
      let (value, m') = gsettings_get clock run schema key m in (or_else value [], m')

  -- one turn of the loop over `_MANUAL`
  unfoldable pub manual_proxy :
      Text → Text → Text → Dict Text Proxy × Machine S → Dict Text Proxy × Machine S
  manual_proxy schema key scheme (proxies, m) =
      let child = schema ++ (text "." ++ key) in
      let (host, m1) = value_at child (text "host") m in
      let (port, m2) = value_at child (text "port") m1 in
      (set_proxy key (proxy_at host port scheme) proxies, m2)

  unfoldable pub manual_proxies : Text → Machine S → Dict Text Proxy × Machine S
  manual_proxies schema m = manual_proxy schema (text "socks") (text "socks5") (
      manual_proxy schema (text "ftp") (text "http") (
        manual_proxy schema (text "https") (text "http")
          (manual_proxy schema (text "http") (text "http") ([], m))))

  -- the settings for a mode, and the state that reading them leaves
  unfoldable pub config_for_mode : Text → Text → Option Text → Exec (Machine S) (Option ProxyConfig)
  config_for_mode schema source none m = (ok none, m)
  config_for_mode schema source (some mode) m =
      let (url, m1) = value_at schema (text "autoconfig-url") m in
      let pac_url = nonempty (strip url) in
      let (proxies, m2) = manual_proxies schema m in
      let (hosts, m3) = value_at schema (text "ignore-hosts") m2 in
      if mode == text "none"
      then (ok (some (record empty_config { source = source; state = direct })), m)
      else if mode == text "auto"
      then (
        ok (
            some (record empty_config {
              source = source;
              state = configured;
              auto_detect = not (is_some pac_url);
              pac_url = pac_url;
            })),
        m1,
      )
      else if mode == text "manual"
      then (gsettings_manual source proxies hosts, m3)
      else (ok none, m)

  -- `read_config(schema, source)`
  unfoldable pub gsettings_config : Text → Text → Exec (Machine S) (Option ProxyConfig)
  gsettings_config schema source m =
      let (mode, m') = gsettings_get clock run schema (text "mode") m in
      config_for_mode schema source mode m'
