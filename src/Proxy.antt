-- ===== src/Proxy.antt =====
-- src/proxylib/proxy.py: the class `Proxy`. An attribute that is `None` is `none`; the invariant of
-- the constructor and the laws of equality are in the modules below.
pub mod Key
pub mod Valid
pub mod Parse
pub mod Reading
pub mod Headers
use proxylib.Prelude.{
  ℕ, zero, suc, ◌+◌, ◌-◌, ◌/◌, ◌%◌, Bool, true, false, not, ◌&&◌, ◌||◌, Option, none, some, List,
  [], ◌∷◌, ◌++◌, map, ltb, leb, eqb, if◌then◌else◌, all, any, is_nil, or_else, drop,
}
use proxylib.Python.Exec.{Result, ok, raise, proxy_parse_error, value_error, ◌>>=◌, ◌>>◌, refuse_if}
use proxylib.Python.Text.{
  Text, text, lower, is_empty, nonempty, starts_with, has_char, is_digit, join, ◌==◌,
}
use proxylib.Python.Quote.{quote}
use proxylib.Net.{Netimps, join_host}

pub record Proxy : Type 0 where
  pub scheme : Text
  pub host : Text
  pub port : Option ℕ
  pub username : Option Text
  pub password : Option Text
  pub path : Option Text
  pub headers : List (Text × Text)

-- `_SCHEME_ALIASES`
unfoldable pub alias : Text → Text
alias scheme =
    if scheme == text "proxy"
    then text "http"
    else if scheme == text "socks"
    then text "socks4"
    else scheme

-- `scheme in _GATEWAY_SCHEMES`, and `scheme.startswith(_GATEWAY_PREFIX)`
unfoldable pub is_gateway_scheme : Text → Bool
is_gateway_scheme scheme = scheme == text "prefix+http" || scheme == text "prefix+https"

unfoldable pub has_gateway_prefix : Text → Bool
has_gateway_prefix scheme = starts_with scheme (text "prefix+")

unfoldable pub is_socks : Text → Bool
is_socks scheme = starts_with scheme (text "socks")

-- `_TOKEN`: one or more RFC 9110 token characters
is_token_char : ℕ → Bool
is_token_char c =
    is_digit c
    || (leb b'a' c && leb c b'z')
    || (leb b'A' c && leb c b'Z')
    || has_char c (text "!#$%&'*+.^_`|~-")

unfoldable pub is_token : Text → Bool
unfolding is_token_char
is_token s = not (is_empty s) && all is_token_char s

unfoldable pub header_ok : Text × Text → Bool
header_ok (name, value) = is_token name && not (any (λ c. eqb c 13 || eqb c 10 || eqb c 0) value)

unfoldable pub port_ok : Option ℕ → Bool
port_ok none = true
port_ok (some n) = ltb 0 n && ltb n 65536

-- an absolute path with no query
unfoldable pub absolute_path : Text → Bool
absolute_path p = starts_with p (text "/") && not (has_char b'?' p || has_char b'#' p)

-- `x or None` of an optional text, and `path or "/"`
abbrev pub given : Option Text → Option Text
given none = none
given (some s) = nonempty s

-- the `path` that the constructor keeps
unfoldable pub check_path : Text → Option Text → Result (Option Text)
check_path scheme path =
    if is_gateway_scheme scheme
    then (do
      refuse_if (not (absolute_path (or_else (given path) (text "/")))) proxy_parse_error
      ok (some (or_else (given path) (text "/"))))
    else if has_gateway_prefix scheme
    then raise proxy_parse_error
    else if or_else (given path) (text "/") == text "/"
    then ok none
    else raise proxy_parse_error

-- `Proxy(scheme, host, port, username, password, path=path, headers=headers)`
unfoldable pub init :
    Text
    → Text
    → Option ℕ
    → Option Text
    → Option Text
    → Option Text
    → List (Text × Text)
    → Result Proxy
init scheme host port username password path headers = do
  let canonical = alias (lower scheme)
  refuse_if (is_empty canonical) proxy_parse_error
  refuse_if (is_empty host) proxy_parse_error
  refuse_if (not (port_ok port)) proxy_parse_error
  kept ← check_path canonical path
  refuse_if (not (all header_ok headers)) proxy_parse_error
  refuse_if (not (is_nil headers) && is_socks canonical) proxy_parse_error
  ok (record {
    scheme = canonical;
    host = lower host;
    port = port;
    username = given username;
    password = given password;
    path = kept;
    headers = headers;
  })

-- `__reduce__` and `_rebuild`: what unpickling a proxy calls
unfoldable pub rebuild : Proxy → Result Proxy
rebuild p = init p.scheme p.host p.port p.username p.password p.path p.headers

abbrev pub is_gateway : Proxy → Bool
is_gateway p = elim p.path [ none ↦ false | some _ ↦ true ]

module _ ⦃net : Netimps⦄ where
  unfoldable pub url : Proxy → Text
  url p = p.scheme ++ (text "://" ++ (join_host p.host p.port ++ or_else p.path []))

  -- "user[:password]@"
  credentials : Text → Option Text → Text
  credentials user none = quote user ++ text "@"
  credentials user (some pass) = quote user ++ (text ":" ++ (quote pass ++ text "@"))

  unfoldable pub uri : Proxy → Text
  unfolding url credentials
  uri p = elim p.username [
    | none ↦ url p
    | some user ↦
        p.scheme
        ++ (text "://"
            ++ (credentials user p.password ++ (join_host p.host p.port ++ or_else p.path [])))
  ]

  unfoldable pub gateway_url : Proxy → Text → Result Text
  gateway_url p target = elim p.path [
    | none ↦ raise value_error
    | some path ↦
        ok (drop 7 p.scheme ++ (text "://" ++ (join_host p.host p.port ++ (path ++ target))))
  ]
