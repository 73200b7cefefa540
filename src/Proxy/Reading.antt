-- ===== src/Proxy/Reading.antt =====
-- src/proxylib/proxy.py: what `Proxy.parse` and `Proxy.parse_pac_result` can give.
use proxylib.Prelude.{
  ℕ, ◌≡◌, refl, ◌≢◌, Bool, true, false, ◌||◌, Option, none, some, List, [], ◌∷◌, ◌++◌, arith,
  if◌then◌else◌, Bool-cases, inl, inr, All,
}
use proxylib.Python.Exec.{
  Error, Result, ok, raise, proxy_parse_error, value_error, is_a, ◌>>=◌, ◌>>◌, refuse_if,
  Result-cases,
}
use proxylib.Python.Text.{
  Text, text, ◌==◌, strip, is_empty, split, upper, first_word, starts_with, lower,
}
use proxylib.Python.Url.{SplitResult, urlsplit, port, hostname, userinfo}
use proxylib.Net.{Netimps, split_host_port}
use proxylib.Proxy.{Proxy, alias, check_path, init, has_gateway_prefix}
use proxylib.Proxy.Valid.{IsValid, init-IsValid}
use proxylib.Proxy.Parse.{
  split_url, from_parts, full_url, unquoted, parse, Entry, blank, usable, dropped, or_dropped,
  read_prefix, read_host_port, read_keyword, read_entry, add_entry, Entries, read_entries,
  or_direct, parse_pac_result, pac_scheme,
}

-- A result of the wanted kind, or a parse error.
abbrev pub Reads : (Proxy → Type 0) → Result Proxy → Type 0
Reads P (ok p) = P p
Reads P (raise e) = e ≡ proxy_parse_error

check_path_error :
    (scheme : Text) (path : Option Text) (e : Error)
    → check_path scheme path ≡ raise e
    → e ≡ proxy_parse_error
unfolding check_path
check_path_error scheme path e h = ground arith

pub init_error :
    (scheme host : Text) (number : Option ℕ) (username password path : Option Text)
    (headers : List (Text × Text)) (e : Error)
    → init scheme host number username password path headers ≡ raise e
    → e ≡ proxy_parse_error
unfolding init
init_error scheme host number username password path headers e h =
    ground (arith, check_path_error (alias (lower scheme)) path e)

pub init-Reads :
    (scheme host : Text) (number : Option ℕ) (username password path : Option Text)
    (headers : List (Text × Text))
    → Reads IsValid (init scheme host number username password path headers)
init-Reads scheme host number username password path headers =
    elim (Result-cases (init scheme host number username password path headers)) [
      | inl (p, e) ↦ rw e (init-IsValid scheme host number username password path headers e)
      | inr (x, e) ↦ rw e (init_error scheme host number username password path headers x e)
    ]

refuse_if-Reads :
    (P : Proxy → Type 0) (b : Bool) (k : Result Proxy)
    → Reads P k
    → Reads P (refuse_if b proxy_parse_error >> k)
refuse_if-Reads P true k h = refl
refuse_if-Reads P false k h = h

host_cases-Reads :
    (P : Proxy → Type 0) (o : Option Text) (k : Text → Result Proxy)
    → ((host : Text) → Reads P (k host))
    → Reads P (elim o [ none ↦ raise proxy_parse_error | some host ↦ k host ])
host_cases-Reads P none k h = refl
host_cases-Reads P (some host) k h = h host

from_parts-Reads :
    (parts : SplitResult) (number : Option ℕ) → Reads IsValid (from_parts parts number)
unfolding from_parts
from_parts-Reads parts number = refuse_if-Reads IsValid _ _ (
    host_cases-Reads IsValid (hostname parts) _ (λ host.
      init-Reads parts.scheme host number (unquoted (userinfo parts).0)
        (unquoted (userinfo parts).1)
        (if has_gateway_prefix (lower parts.scheme) then some parts.path else none) []))

pub urlsplit_error : (s : Text) (e : Error) → urlsplit s ≡ raise e → e ≡ value_error
unfolding urlsplit
urlsplit_error s e h = ground arith

port_error : (parts : SplitResult) (e : Error) → port parts ≡ raise e → e ≡ value_error
unfolding port
port_error parts e h = ground arith

split_url_error : (s : Text) (e : Error) → split_url s ≡ raise e → e ≡ value_error
unfolding split_url
split_url_error s e h = elim (Result-cases (urlsplit s)) [
  | inl (parts, u) ↦ ground (arith, u, port_error parts e)
  | inr (x, u) ↦ ground (arith, u, urlsplit_error s x)
]

is_a-value_error : is_a value_error value_error ≡ true
unfolding is_a
is_a-value_error = refl

pub is_a-parse_error : is_a proxy_parse_error proxy_parse_error ≡ true
unfolding is_a
is_a-parse_error = refl

-- Reading any text as a proxy URL gives a valid proxy or a `ProxyParseError`, nothing else.
pub parse-Reads : (s : Text) → Reads IsValid (parse s)
unfolding parse
parse-Reads s = elim (Result-cases (split_url (full_url s))) [
  | inl (r, e) ↦ rw e (from_parts-Reads r.0 r.1)
  | inr (x, e) ↦ rw e (rw (split_url_error (full_url s) x e) (rw is_a-value_error refl))
]

abbrev ReadsEntry : Result Entry → Type 0
ReadsEntry (ok (usable (some p))) = IsValid p
ReadsEntry (ok _) = Unit {0}
ReadsEntry (raise e) = ⊥

or_dropped-ReadsEntry : (r : Result Proxy) → Reads IsValid r → ReadsEntry (or_dropped r)
or_dropped-ReadsEntry (ok p) v = v
or_dropped-ReadsEntry (raise e) v = rw v (rw is_a-parse_error tt)

read_prefix-ReadsEntry : (rest : Text) → ReadsEntry (read_prefix rest)
unfolding read_prefix
read_prefix-ReadsEntry rest =
    let http = starts_with (lower (strip rest)) (text "http://") in
    let https = starts_with (lower (strip rest)) (text "https://") in
    elim (Bool-cases (http || https)) [
      | inl e ↦ rw e (
          or_dropped-ReadsEntry (parse (text "prefix+" ++ strip rest))
            (parse-Reads (text "prefix+" ++ strip rest)))
      | inr e ↦ rw e tt
    ]

abbrev pub ValidEntry : Option Proxy → Type 0
ValidEntry none = Unit {0}
ValidEntry (some p) = IsValid p

abbrev ReadsEntries : Result Entries → Type 0
ReadsEntries (ok rest) = All ValidEntry rest.0
ReadsEntries (raise e) = ⊥

module _ ⦃net : Netimps⦄ where
  host_port-ReadsEntry :
      (scheme : Text) (o : Option (Text × Option ℕ))
      → ReadsEntry (elim o [
        | none ↦ ok dropped
        | some ([], _) ↦ ok dropped
        | some (c ∷ host, number) ↦ or_dropped (init scheme (c ∷ host) number none none none [])
      ])
  host_port-ReadsEntry scheme none = tt
  host_port-ReadsEntry scheme (some ([], n)) = tt
  host_port-ReadsEntry scheme (some (c ∷ host, n)) =
      or_dropped-ReadsEntry _ (init-Reads scheme (c ∷ host) n none none none [])

  read_host_port-ReadsEntry : (scheme rest : Text) → ReadsEntry (read_host_port scheme rest)
  unfolding read_host_port
  read_host_port-ReadsEntry scheme rest = elim (Bool-cases (is_empty (strip rest))) [
    | inl e ↦ rw e tt
    | inr e ↦ rw e (host_port-ReadsEntry scheme (split_host_port (strip rest)))
  ]

  scheme_cases-ReadsEntry :
      (o : Option Text) (rest : Text)
      → ReadsEntry (elim o [ none ↦ ok dropped | some scheme ↦ read_host_port scheme rest ])
  scheme_cases-ReadsEntry none rest = tt
  scheme_cases-ReadsEntry (some scheme) rest = read_host_port-ReadsEntry scheme rest

  read_keyword-ReadsEntry : (keyword rest : Text) → ReadsEntry (read_keyword keyword rest)
  unfolding read_keyword
  read_keyword-ReadsEntry keyword rest = elim (Bool-cases (keyword == text "DIRECT")) [
    | inl e ↦ rw e tt
    | inr e ↦ rw e (elim (Bool-cases (keyword == text "PREFIX")) [
      | inl f ↦ rw f (read_prefix-ReadsEntry rest)
      | inr f ↦ rw f (scheme_cases-ReadsEntry (pac_scheme keyword) rest)
    ])
  ]

  read_entry-ReadsEntry : (raw : Text) → ReadsEntry (read_entry raw)
  unfolding read_entry
  read_entry-ReadsEntry raw = elim (Bool-cases (is_empty (strip raw))) [
    | inl e ↦ rw e tt
    | inr e ↦
        rw e (read_keyword-ReadsEntry (upper (first_word (strip raw)).0) (first_word (strip raw)).1)
  ]

  add_entry-Valid :
      (r : Result Entry) (raw : Text) (rs : Result Entries)
      → ReadsEntry r
      → ReadsEntries rs
      → ReadsEntries (r >>= λ e. rs >>= λ rest. ok (add_entry e raw rest))
  unfolding add_entry
  add_entry-Valid (ok blank) raw (ok rest) v vs = vs
  add_entry-Valid (ok (usable none)) raw (ok rest) v vs = (tt, vs)
  add_entry-Valid (ok (usable (some p))) raw (ok rest) v vs = (v, vs)
  add_entry-Valid (ok dropped) raw (ok rest) v vs = vs
  add_entry-Valid (ok e) raw (raise x) v vs = absurd vs
  add_entry-Valid (raise x) raw rs v vs = absurd v

  read_entries-Valid : (raws : List Text) → ReadsEntries (read_entries raws)
  unfolding read_entries
  read_entries-Valid [] = tt
  read_entries-Valid (raw ∷ raws) =
      add_entry-Valid (read_entry raw) (strip raw) (read_entries raws) (read_entry-ReadsEntry raw)
        (read_entries-Valid raws)

  or_direct-Valid :
      (r : Result Entries)
      → ReadsEntries r
      → (ps : List (Option Proxy)) × ((r >>= λ rest. ok (or_direct rest.0)) ≡ ok ps)
        × (ps ≢ [])
        × All ValidEntry ps
  or_direct-Valid (ok ([], bad)) v = (none ∷ [], refl, λ e. cc, (tt, tt))
  or_direct-Valid (ok (p ∷ ps, bad)) v = (p ∷ ps, refl, λ e. cc, v)
  or_direct-Valid (raise e) v = absurd v

  -- Whatever text a PAC returns, reading it as a result raises nothing: it gives a list that is not
  -- empty, whose entries are DIRECT or valid proxies.
  pub parse_pac_result_total :
      (s : Text)
      → (ps : List (Option Proxy)) × (parse_pac_result s ≡ ok ps) × (ps ≢ []) × All ValidEntry ps
  unfolding parse_pac_result
  parse_pac_result_total s =
      or_direct-Valid (read_entries (split b';' s)) (read_entries-Valid (split b';' s))
