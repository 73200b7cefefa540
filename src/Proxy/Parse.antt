-- ===== src/Proxy/Parse.antt =====
-- `Proxy.parse` and `Proxy.parse_pac_result` of src/proxylib/proxy.py.
use proxylib.Prelude.{
  ℕ, Bool, not, ◌&&◌, ◌||◌, Option, none, some, List, [], ◌∷◌, ◌++◌, if◌then◌else◌,
}
use proxylib.Python.Exec.{
  Result, ok, raise, proxy_parse_error, value_error, is_a, ◌>>=◌, ◌>>◌, refuse_if,
}
use proxylib.Python.Text.{
  Text, text, lower, upper, strip, is_empty, starts_with, contains, split, first_word, ◌==◌,
}
use proxylib.Python.Url.{SplitResult, urlsplit, hostname, port, userinfo}
use proxylib.Python.Quote.{unquote}
use proxylib.Net.{Netimps, split_host_port}
use proxylib.Proxy.{Proxy, has_gateway_prefix, init}

-- `unquote(x) if x else None`
unfoldable pub unquoted : Option Text → Option Text
unquoted none = none
unquoted (some []) = none
unquoted (some (c ∷ s)) = some (unquote (c ∷ s))

-- the two statements of the `try`: a `ValueError` of either is a `ProxyParseError`
unfoldable pub split_url : Text → Result (SplitResult × Option ℕ)
split_url s = do parts ← urlsplit s; number ← port parts; ok (parts, number)

abbrev pub as_parse_error {ℓ} : {A : Type ℓ} → Result A → Result A
as_parse_error (ok a) = ok a
as_parse_error (raise e) = raise (if is_a e value_error then proxy_parse_error else e)

unfoldable pub plain_path : Text → Bool
plain_path path = is_empty path || path == text "/"

unfoldable pub from_parts : SplitResult → Option ℕ → Result Proxy
unfolding unquoted plain_path
from_parts parts number = do
  let gateway = has_gateway_prefix (lower parts.scheme)
  refuse_if
      (not (is_empty parts.query)
        || not (is_empty parts.fragment)
        || (not (plain_path parts.path) && not gateway))
      proxy_parse_error
  elim (hostname parts) [
    | none ↦ raise proxy_parse_error
    | some host ↦
        init parts.scheme host number (unquoted (userinfo parts).0) (unquoted (userinfo parts).1)
          (if gateway then some parts.path else none) []
  ]

-- the text with white space off its ends, and with a scheme
unfoldable pub full_url : Text → Text
full_url s = if contains (strip s) (text "://") then strip s else text "http://" ++ strip s

unfoldable pub parse : Text → Result Proxy
parse s = do (parts, number) ← as_parse_error (split_url (full_url s)); from_parts parts number

-- `_PAC_KEYWORDS`
unfoldable pub pac_scheme : Text → Option Text
pac_scheme keyword =
    if keyword == text "PROXY" || keyword == text "HTTP"
    then some (text "http")
    else if keyword == text "HTTPS"
    then some (text "https")
    else if keyword == text "SOCKS" || keyword == text "SOCKS4"
    then some (text "socks4")
    else if keyword == text "SOCKS5"
    then some (text "socks5")
    else none

-- What one entry of a PAC result comes to: a blank entry is skipped, an unusable one is dropped
-- (and named in the warning).
pub data Entry : Type 0 where
  blank : Entry
  usable : Option Proxy → Entry
  dropped : Entry

-- `except ProxyParseError: dropped.append(entry)`
abbrev pub or_dropped : Result Proxy → Result Entry
or_dropped (ok p) = ok (usable (some p))
or_dropped (raise e) = if is_a e proxy_parse_error then ok dropped else raise e

-- `PREFIX <URL>`
unfoldable pub read_prefix : Text → Result Entry
read_prefix rest =
    let target = strip rest in
    if starts_with (lower target) (text "http://") || starts_with (lower target) (text "https://")
    then or_dropped (parse (text "prefix+" ++ target))
    else ok dropped

-- `tuple(entries) or (None,)`
abbrev pub or_direct : List (Option Proxy) → List (Option Proxy)
or_direct [] = none ∷ []
or_direct (p ∷ ps) = p ∷ ps

-- `entries` and `dropped`
abbrev pub Entries : Type 0
Entries = List (Option Proxy) × List Text

unfoldable pub add_entry : Entry → Text → Entries → Entries
add_entry blank entry rest = rest
add_entry (usable p) entry rest = (p ∷ rest.0, rest.1)
add_entry dropped entry rest = (rest.0, entry ∷ rest.1)

module _ ⦃net : Netimps⦄ where
  unfoldable pub read_host_port : Text → Text → Result Entry
  read_host_port scheme rest =
      if is_empty (strip rest) then ok dropped else elim (split_host_port (strip rest)) [
        | none ↦ ok dropped
        | some ([], _) ↦ ok dropped
        | some (c ∷ host, number) ↦ or_dropped (init scheme (c ∷ host) number none none none [])
      ]

  unfoldable pub read_keyword : Text → Text → Result Entry
  read_keyword keyword rest =
      if keyword == text "DIRECT"
      then ok (usable none)
      else if keyword == text "PREFIX"
      then read_prefix rest
      else elim (pac_scheme keyword) [
        | none ↦ ok dropped
        | some scheme ↦ read_host_port scheme rest
      ]

  -- one round of the loop
  unfoldable pub read_entry : Text → Result Entry
  read_entry raw =
      if is_empty (strip raw)
      then ok blank
      else read_keyword (upper (first_word (strip raw)).0) (first_word (strip raw)).1

  -- the loop: the usable entries in order, and the dropped ones
  unfoldable pub read_entries : List Text → Result Entries
  unfolding add_entry
  read_entries [] = ok ([], [])
  read_entries (raw ∷ raws) = do
    entry ← read_entry raw
    rest ← read_entries raws
    ok (add_entry entry (strip raw) rest)

  unfoldable pub parse_pac_result : Text → Result (List (Option Proxy))
  parse_pac_result s = do (kept, bad) ← read_entries (split b';' s); ok (or_direct kept)
