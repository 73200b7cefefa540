-- ===== src/Lookup.antt =====
-- src/proxylib/proxy.py: the answers of a proxy map, `lookup`, and the maps `SimpleProxyMap` and
-- `ChainProxyMap`. A proxy map is an object with a state of its own: its `__getitem__` is a function
-- on the state `S` of the whole program.
pub mod Laws
pub mod Chains
use proxylib.Prelude.{
  ℕ, zero, suc, Bool, true, false, not, ◌&&◌, ◌||◌, Option, none, some, List, [], ◌∷◌, ◌++◌, map,
  if◌then◌else◌, keep,
}
use proxylib.Python.Exec.{
  Error, Result, ok, raise, key_error, type_error, is_a, ◌>>=◌, Exec, bind, lift, continue,
}
use proxylib.Python.Text.{
  Text, text, lower, upper, strip, lstrip, is_space, is_empty, nonempty, starts_with, has_char,
  contains, ◌==◌,
}
use proxylib.Python.Url.{SplitResult, urlsplit, hostname}
use proxylib.Net.{Netimps}
use proxylib.Proxy.{Proxy, init, given}
use proxylib.Proxy.Parse.{parse, parse_pac_result, or_direct}

-- One value that names proxies: `None`, a `Proxy`, a string, an object with a `url` attribute (and
-- `username` and `password`), or anything else.
pub data Item : Type 0 where
  nothing : Item
  proxy : Proxy → Item
  str : Text → Item
  object : Text → Option Text → Option Text → Item
  other : Item

-- What `proxymap[url]` may return: one value, or an iterable of them that is not `bytes` or a mapping.
pub data Answer : Type 0 where
  one : Item → Answer
  many : List Item → Answer

abbrev pub Proxies : Type 0
Proxies = List (Option Proxy)

-- the text up to the first white space or ";"
keyword_of : Text → Text
keyword_of [] = []
keyword_of (c ∷ s) =
    let rest = c ∷ keyword_of s in if is_space c || has_char c (text ";") then [] else rest

-- `_PAC_RESULT.match(s)`: white space, a keyword in any case, then white space, ";" or the end
unfoldable pub is_pac_result : Text → Bool
unfolding keyword_of
is_pac_result s =
    let word = upper (keyword_of (lstrip is_space s)) in
    word == text "DIRECT"
    || word == text "PROXY"
    || word == text "HTTP"
    || word == text "HTTPS"
    || word == text "SOCKS"
    || word == text "SOCKS4"
    || word == text "SOCKS5"
    || word == text "PREFIX"

-- a client's setting that the client cannot read itself
unfoldable pub is_chain : Text → Bool
is_chain s = has_char b';' s || is_pac_result s || starts_with (lower (strip s)) (text "prefix+")

unfoldable pub with_attribute_credentials : Proxy → Option Text → Option Text → Result Proxy
with_attribute_credentials p username password = elim p.username [
  | some _ ↦ ok p
  | none ↦ elim (given username) [
    | none ↦ ok p
    | some user ↦ init p.scheme p.host p.port (some user) password p.path p.headers
  ]
]

-- the comprehension of `_normalise_one` over the proxies of an object's `url`
unfoldable pub credit_all : Option Text → Option Text → Proxies → Result Proxies
credit_all username password [] = ok []
credit_all username password (none ∷ ps) = do
  rest ← credit_all username password ps
  ok (none ∷ rest)
credit_all username password (some p ∷ ps) = do
  q ← with_attribute_credentials p username password
  rest ← credit_all username password ps
  ok (some q ∷ rest)

module _ ⦃net : Netimps⦄ where
  unfoldable pub parse_text : Text → Result Proxies
  parse_text s =
      if is_empty (strip s)
      then ok (none ∷ [])
      else if is_pac_result s
      then parse_pac_result s
      else (do p ← parse s; ok (some p ∷ []))

  unfoldable pub normalise_one : Item → Result Proxies
  normalise_one nothing = ok (none ∷ [])
  normalise_one (proxy p) = ok (some p ∷ [])
  normalise_one (str s) = parse_text s
  normalise_one (object url username password) = do
    ps ← parse_text url
    credit_all username password ps
  normalise_one other = raise type_error

  -- the loop of `_normalise`
  unfoldable pub normalise_all : List Item → Result Proxies
  normalise_all [] = ok []
  normalise_all (item ∷ items) = do
    ps ← normalise_one item
    rest ← normalise_all items
    ok (ps ++ rest)

  unfoldable pub normalise : Answer → Result Proxies
  normalise (one item) = normalise_one item
  normalise (many items) = do ps ← normalise_all items; ok (or_direct ps)

-- A proxy map over the state `S`. Only a `Mapping` is asked whether it has a key.
pub record ProxyMap (S : Type 0) : Type 0 where
  pub getitem : Text → Exec S Answer
  pub is_mapping : Bool
  pub has_key : Text → S → Bool

-- `_requests_keys`: what `requests` asks a mapping, the most specific first
unfoldable pub requests_keys : Text → Result (List Text)
requests_keys url = do
  parts ← urlsplit url
  ok (
      keep (λ k. not (is_empty k))
        (elim (hostname parts) [
          | none ↦ parts.scheme ∷ text "all" ∷ []
          | some host ↦
              (parts.scheme ++ (text "://" ++ host))
              ∷ parts.scheme
              ∷ (text "all://" ++ host)
              ∷ text "all"
              ∷ []
        ]))

module _ {S : Type 0} where
  -- the `for … else` of `lookup`: the first key that the mapping has
  unfoldable pub ask_keys : ProxyMap S → List Text → Exec S Answer
  ask_keys m [] s = (raise key_error, s)
  ask_keys m (k ∷ ks) s =
      let rest = ask_keys m ks s in if m.has_key k s then m.getitem k s else rest

  -- the handler of `except KeyError`
  unfoldable pub ask_again : ProxyMap S → Text → Exec S Answer
  ask_again m url s =
      if m.is_mapping then continue (requests_keys url) (ask_keys m) s else (raise key_error, s)

  unfoldable pub answer_for : ProxyMap S → Text → Result Answer → Exec S Answer
  answer_for m url (ok a) s = (ok a, s)
  answer_for m url (raise e) s = if is_a e key_error then ask_again m url s else (raise e, s)

  module _ ⦃net : Netimps⦄ where
    unfoldable pub lookup : ProxyMap S → Text → Exec S Proxies
    lookup m url s =
        let (r, s') = m.getitem url s in bind (answer_for m url r) (λ a. lift (normalise a)) s'

    -- `except KeyError: continue`
    unfoldable pub or_next : Result Proxies → Exec S Proxies → Exec S Proxies
    or_next (ok ps) next s = (ok ps, s)
    or_next (raise e) next s = if is_a e key_error then next s else (raise e, s)

    -- the loop of `ChainProxyMap.__getitem__`
    unfoldable pub chain_lookup : List (ProxyMap S) → Text → Exec S Proxies
    chain_lookup [] url s = (raise key_error, s)
    chain_lookup (m ∷ ms) url s =
        or_next (lookup m url s).0 (chain_lookup ms url) (lookup m url s).1

-- A map whose `__getitem__` returns a tuple of `Proxy | None`, as the maps of this library do.
abbrev pub item_of : Option Proxy → Item
item_of none = nothing
item_of (some p) = proxy p

unfoldable pub own_map : {S : Type 0} → (Text → Exec S Proxies) → ProxyMap S
own_map f = record {
  getitem = λ url. bind (f url) (λ ps. lift (ok (many (map item_of ps))));
  is_mapping = false;
  has_key = λ k s. false;
}

-- `SimpleProxyMap(answer)`, and its `__getitem__`
unfoldable pub simple_map : {S : Type 0} → ⦃net : Netimps⦄ → Answer → Result (ProxyMap S)
simple_map answer = do ps ← normalise answer; ok (own_map (λ url. lift (ok ps)))

unfoldable pub chain_map : {S : Type 0} → ⦃net : Netimps⦄ → List (ProxyMap S) → ProxyMap S
chain_map ms = own_map (chain_lookup ms)
