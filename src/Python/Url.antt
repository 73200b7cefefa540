-- ===== src/Python/Url.antt =====
-- `urllib.parse`: `urlsplit` and the properties of its result, for ASCII text.
use proxylib.Prelude.{
  ℕ, Bool, true, false, not, ◌&&◌, ◌||◌, Option, none, some, [], ◌∷◌, ◌++◌, leb, eqb, if◌then◌else◌,
  keep, all,
}
use proxylib.Python.Exec.{Result, ok, raise, value_error}
use proxylib.Python.Text.{
  Text, text, is_digit, is_number, int, lower, lstrip, starts_with, cut, rcut, has_char, is_empty,
  nonempty,
}
use proxylib.Python.Ip.{parse_v6}

pub record SplitResult : Type 0 where
  pub scheme : Text
  pub netloc : Text
  pub path : Text
  pub query : Text
  pub fragment : Text

is_letter : ℕ → Bool
is_letter c = (leb b'a' c && leb c b'z') || (leb b'A' c && leb c b'Z')

is_scheme_char : ℕ → Bool
unfolding is_letter
is_scheme_char c = is_letter c || is_digit c || eqb c b'+' || eqb c b'-' || eqb c b'.'

starts_with_letter : Text → Bool
starts_with_letter [] = false
starts_with_letter (c ∷ s) = is_letter c

-- what `urlsplit` drops before it reads: leading controls and spaces, and tabs and line ends anywhere
clean : Text → Text
clean s = keep (λ c. not (eqb c 9 || eqb c 10 || eqb c 13)) (lstrip (λ c. leb c 32) s)

-- the scheme in lower case, and the rest
scheme_of : Text → Text × Text
scheme_of s = elim (cut (text ":") s) [
  | none ↦ ([], s)
  | some (head, rest) ↦
      if starts_with_letter head && all is_scheme_char head then (lower head, rest) else ([], s)
]

-- `_splitnetloc`: up to the first "/", "?" or "#"
until_delim : Text → Text × Text
until_delim [] = ([], [])
until_delim (c ∷ s) =
    let more : Text × Text = (c ∷ (until_delim s).0, (until_delim s).1) in
    if eqb c b'/' || eqb c b'?' || eqb c b'#' then ([], c ∷ s) else more

split_netloc : Text → Text × Text
split_netloc (x ∷ y ∷ s) = if eqb x b'/' && eqb y b'/' then until_delim s else ([], x ∷ y ∷ s)
split_netloc s = ([], s)

before : Text → Text → Text
before sep s = elim (cut sep s) [ none ↦ s | some (a, _) ↦ a ]

after : Text → Text → Text
after sep s = elim (cut sep s) [ none ↦ [] | some (_, b) ↦ b ]

-- `netloc.rpartition("@")[2]`
host_part : Text → Text
host_part netloc = elim (rcut (text "@") netloc) [ none ↦ netloc | some (_, b) ↦ b ]

is_hex : ℕ → Bool
is_hex c = is_digit c || (leb b'a' c && leb c b'f') || (leb b'A' c && leb c b'F')

-- an address that IPv6 brackets may hold: IPv6, or "v" hex digits "." text
bracketed_ok : Text → Bool
bracketed_ok [] = false
bracketed_ok (c ∷ s) =
    if eqb c b'v'
    then elim (cut (text ".") s) [
      | none ↦ false
      | some (a, b) ↦ not (is_empty a) && all is_hex a && not (is_empty b)
    ]
    else elim (parse_v6 (c ∷ s)) [ none ↦ false | some _ ↦ true ]

brackets_ok : Text → Bool
brackets_ok netloc = elim (cut (text "[") (host_part netloc)) [
  | none ↦ bracketed_ok (before (text ":") (host_part netloc))
  | some (lead, inner) ↦
      is_empty lead
      && bracketed_ok (before (text "]") inner)
      && (is_empty (after (text "]") inner) || starts_with (after (text "]") inner) (text ":"))
]

netloc_ok : Text → Bool
netloc_ok netloc =
    let opened = has_char b'[' netloc in
    let closed = has_char b']' netloc in
    if opened && closed then brackets_ok netloc else not (opened || closed)

unfoldable pub urlsplit : Text → Result SplitResult
unfolding is_letter is_scheme_char starts_with_letter clean scheme_of until_delim split_netloc
    before after host_part is_hex bracketed_ok brackets_ok netloc_ok
urlsplit url =
    let (scheme, rest) = scheme_of (clean url) in
    let (netloc, tail) = split_netloc rest in
    let front = before (text "#") tail in
    if netloc_ok netloc
    then ok (record {
      scheme = scheme;
      netloc = netloc;
      path = before (text "?") front;
      query = after (text "?") front;
      fragment = after (text "#") tail;
    })
    else raise value_error

-- `_hostinfo`: the host, and the text after its port's colon
host_info : Text → Text × Text
unfolding host_part before after
host_info netloc = elim (cut (text "[") (host_part netloc)) [
  | none ↦ (before (text ":") (host_part netloc), after (text ":") (host_part netloc))
  | some (_, inner) ↦ (before (text "]") inner, after (text ":") (after (text "]") inner))
]

-- `.hostname`: in lower case, but for an IPv6 zone
unfoldable pub hostname : SplitResult → Option Text
unfolding host_info
hostname parts = nonempty (elim (cut (text "%") (host_info parts.netloc).0) [
  | none ↦ lower (host_info parts.netloc).0
  | some (a, zone) ↦ lower a ++ b'%' ∷ zone
])

-- `.port`
unfoldable pub port : SplitResult → Result (Option ℕ)
unfolding host_info
port parts =
    let digits = (host_info parts.netloc).1 in
    if is_empty digits
    then ok none
    else if is_number digits && leb (int digits) 65535
    then ok (some (int digits))
    else raise value_error

-- `.username` and `.password`
unfoldable pub userinfo : SplitResult → Option Text × Option Text
userinfo parts = elim (rcut (text "@") parts.netloc) [
  | none ↦ (none, none)
  | some (info, _) ↦ elim (cut (text ":") info) [
    | none ↦ (some info, none)
    | some (user, pass) ↦ (some user, some pass)
  ]
]
