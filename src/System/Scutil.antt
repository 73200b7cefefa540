-- ===== src/System/Scutil.antt =====
-- src/proxylib/system/_darwin.py: the text that `scutil --proxy` prints, and the settings it gives. The
-- lines are those of the text, with their white space at the end taken off. A block where the code
-- expects a text is an `AttributeError`, which its text methods raise.
pub mod Reading
use proxylib.Prelude.{
  ℕ, zero, suc, ◌-◌, eqb, Bool, true, false, not, ◌&&◌, ◌||◌, Option, none, some, List, [], ◌∷◌,
  ◌++◌, if◌then◌else◌, leb, is_nil, is_some, length,
}
use proxylib.Python.Exec.{
  Result, ok, raise, attribute_error, value_error, runtime_error, ◌>>=◌, ◌>>◌, refuse_if,
}
use proxylib.Python.Text.{
  Text, text, strip, cut, ends_with, is_empty, is_number, int, nonempty, ◌==◌,
}
use proxylib.Python.Dict.{Dict}
use proxylib.Net.{Netimps}
use proxylib.Proxy.{Proxy}
use proxylib.BypassRules.{BypassRules, items, parse}
use proxylib.SystemConfig.{direct, configured, ProxyConfig, empty_config}
use proxylib.SystemConfig.Settings.{proxy_at, set_proxy}

-- What a block holds: a text, a dictionary, or an array, with the keys that its items were sorted by.
mutual
  pub data Value : Type 0 where
    leaf : Text → Value
    dictionary : Fields → Value
    array : Fields → Value

  pub data Fields : Type 0 where
    empty : Fields
    field : Text → Value → Fields → Fields

-- `result[key] = value`
unfoldable pub set_field : Fields → Text → Value → Fields
set_field empty k v = field k v empty
set_field (field j w fs) k v =
    let later = field j w (set_field fs k v) in if j == k then field j v fs else later

unfoldable pub get_field : Fields → Text → Option Value
get_field empty k = none
get_field (field j w fs) k = let later = get_field fs k in if j == k then some w else later

-- `all(k.isdigit() for k in value)`
unfoldable pub all_numbered : Fields → Bool
all_numbered empty = true
all_numbered (field k v fs) = is_number k && all_numbered fs

-- `sorted(value, key=int)`, which keeps the order of equal keys
unfoldable pub insert_field : Text → Value → Fields → Fields
insert_field k v empty = field k v empty
insert_field k v (field j w fs) =
    let later = field j w (insert_field k v fs) in
    if leb (int k) (int j) then field k v (field j w fs) else later

unfoldable pub sort_fields : Fields → Fields
sort_fields empty = empty
sort_fields (field k v fs) = insert_field k v (sort_fields fs)

-- the most digits of an `int(…)`, `sys.int_info.default_max_str_digits`
abbrev pub max_str_digits : ℕ
max_str_digits = 4300

-- `int(k)` of each key, as `sorted` asks for it
unfoldable pub read_keys : Fields → Result (Unit {0})
read_keys empty = ok tt
read_keys (field k v fs) =
    refuse_if (not (is_number k && leb (length k) max_str_digits)) value_error >> read_keys fs

-- the value of a block that follows `rest`
unfoldable pub block_value : Text → Fields → Result Value
block_value rest fs =
    if rest == text "<array> {" && all_numbered fs
    then read_keys fs >> ok (array (sort_fields fs))
    else ok (dictionary fs)

unfoldable pub opens_block : Text → Bool
opens_block rest = rest == text "<dictionary> {" || rest == text "<array> {"

-- `_parse_scutil_block`, from the lines at `pos`, over what `result` holds: the fields and the lines
-- that are left. The fuel is for the lines; `none` is its end. `depth` is how many calls of itself Python
-- lets it be in; one more is a `RecursionError`, which is a `RuntimeError`.
unfoldable pub parse_block : ℕ → ℕ → Fields → List Text → Option (Result (Fields × List Text))
parse_block fuel depth result [] = some (ok (result, []))
parse_block zero depth result (line ∷ lines) = none
parse_block (suc fuel) depth result (line ∷ lines) =
    let skipped = parse_block fuel depth result lines in
    if strip line == text "}"
    then some (ok (result, lines))
    else elim (cut (text ":") (strip line)) [
      | none ↦ skipped
      | some (key, rest) ↦
          let stored =
            parse_block fuel depth (set_field result (strip key) (leaf (strip rest))) lines in
          let inner = parse_block fuel (depth - 1) empty lines in
          if not (opens_block (strip rest))
          then stored
          else if eqb depth 0
          then some (raise runtime_error)
          else elim inner [
            | none ↦ none
            | some parsed ↦ elim parsed [
              | raise e ↦ some (raise e)
              | ok (fields, left) ↦ elim (block_value (strip rest) fields) [
                | raise e ↦ some (raise e)
                | ok value ↦ parse_block fuel depth (set_field result (strip key) value) left
              ]
            ]
          ]
    ]

-- the lines after the first that ends with "<dictionary> {", or all of them
unfoldable pub lines_from : List Text → List Text → List Text
lines_from all_lines [] = all_lines
lines_from all_lines (line ∷ lines) =
    let later = lines_from all_lines lines in
    if ends_with (strip line) (text "<dictionary> {") then lines else later

-- `_read_scutil_proxy`, from the lines of its output
unfoldable pub read_scutil : ℕ → Option (List Text) → Option (Result Fields)
read_scutil depth none = some (ok empty)
read_scutil depth (some lines) =
    elim (parse_block (length lines) depth empty (lines_from lines lines)) [
      | none ↦ none
      | some parsed ↦ elim parsed [
        | raise e ↦ some (raise e)
        | ok (fields, left) ↦ some (ok fields)
      ]
    ]

-- `settings.get(key)` where a text is expected; `None` is empty
unfoldable pub text_at : Fields → Text → Result Text
text_at settings key = elim (get_field settings key) [
  | none ↦ ok []
  | some value ↦ elim value [
    | leaf t ↦ ok t
    | dictionary fs ↦ raise attribute_error
    | array fs ↦ raise attribute_error
  ]
]

-- `settings.get(key) == "1"`
unfoldable pub enabled : Fields → Text → Bool
enabled settings key = elim (get_field settings key) [
  | none ↦ false
  | some value ↦ elim value [ leaf t ↦ t == text "1" | dictionary fs ↦ false | array fs ↦ false ]
]

unfoldable pub leaves : Fields → Result (List Text)
leaves empty = ok []
leaves (field k (leaf t) fs) = do ts ← leaves fs; ok (t ∷ ts)
leaves (field k v fs) = raise attribute_error

-- the entries of `ExceptionsList`, when it is a list
unfoldable pub exceptions_of : Fields → Result (List Text)
exceptions_of settings = elim (get_field settings (text "ExceptionsList")) [
  | none ↦ ok []
  | some value ↦ elim value [ leaf t ↦ ok [] | dictionary fs ↦ ok [] | array fs ↦ leaves fs ]
]

module _ ⦃net : Netimps⦄ where
  -- one turn of the loop over `_MANUAL`
  unfoldable pub manual_entry :
      Fields → Text → Text → Text → Dict Text Proxy → Result (Dict Text Proxy)
  manual_entry settings prefix key scheme proxies =
      if not (enabled settings (prefix ++ text "Enable")) then ok proxies else (do
        host ← text_at settings (prefix ++ text "Proxy")
        port ← text_at settings (prefix ++ text "Port")
        ok (set_proxy key (proxy_at host port scheme) proxies))

  unfoldable pub scutil_proxies : Fields → Result (Dict Text Proxy)
  scutil_proxies settings = do
    http ← manual_entry settings (text "HTTP") (text "http") (text "http") []
    https ← manual_entry settings (text "HTTPS") (text "https") (text "http") http
    ftp ← manual_entry settings (text "FTP") (text "ftp") (text "http") https
    manual_entry settings (text "SOCKS") (text "socks") (text "socks5") ftp

  unfoldable pub scutil_pac_url : Fields → Result Text
  scutil_pac_url settings =
      if enabled settings (text "ProxyAutoConfigEnable")
      then text_at settings (text "ProxyAutoConfigURLString")
      else ok []

  -- `BypassRules.parse(exceptions, dialect="macos")`
  unfoldable pub scutil_rules : Fields → Result BypassRules
  scutil_rules settings = do
    exceptions ← exceptions_of settings
    parse
        (items (
          exceptions
          ++ (if enabled settings (text "ExcludeSimpleHostnames")
              then text "<local>" ∷ []
              else [])))
        (text "macos") false

  unfoldable pub scutil_config : Bool → Dict Text Proxy → Text → BypassRules → ProxyConfig
  scutil_config auto_detect proxies pac_url rules = record empty_config {
    source = text "macos";
    state =
        if auto_detect || is_some (nonempty pac_url) || not (is_nil proxies)
        then configured
        else direct;
    auto_detect = auto_detect;
    pac_url = nonempty pac_url;
    proxies = proxies;
    bypass = rules;
  }

  -- `config_from_scutil`
  unfoldable pub config_from_scutil : Fields → Result (Option ProxyConfig)
  config_from_scutil empty = ok none
  config_from_scutil (field k v fs) = do
    proxies ← scutil_proxies (field k v fs)
    pac_url ← scutil_pac_url (field k v fs)
    rules ← scutil_rules (field k v fs)
    ok (
        some (
          scutil_config (enabled (field k v fs) (text "ProxyAutoDiscoveryEnable")) proxies pac_url
            rules))
