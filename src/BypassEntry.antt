-- ===== src/BypassEntry.antt =====
-- src/proxylib/bypass.py: the kinds of rule, each a function on the request's target there and a
-- constructor here, and how one entry of a bypass list is read.
use proxylib.Prelude.{
  ℕ, zero, suc, ◌-◌, Bool, true, false, not, ◌&&◌, ◌||◌, Option, none, some, List, [], ◌∷◌, ◌++◌,
  ltb, eqb, if◌then◌else◌, any, all, length, drop,
}
use proxylib.Python.Exec.{ok, raise, ◌>>=◌}
use proxylib.Python.Text.{
  Text, text, lower, lstrip, rstrip, is_empty, is_number, int, starts_with, ends_with, has_char,
  cut, rcut, split, join, ◌==◌,
}
use proxylib.Python.Ip.{
  Address, Network, net4, net6, ip_address, ip_network, in_network, same_address,
}
use proxylib.Python.Url.{SplitResult, urlsplit, hostname, port}
use proxylib.Net.{
  Netimps, split_host_port, resolve_ip, is_link_scoped, local_networks, default_port,
}
use proxylib.Glob.{glob_match}

-- `_Target`
pub record Target : Type 0 where
  pub scheme : Text
  pub host : Text
  pub port : Option ℕ

pub data Rule : Type 0 where
  exact : Text → Option ℕ → Rule
  suffix : Text → Option ℕ → Rule
  glob_rule : Text → Option ℕ → Rule
  cidr : Network → Option ℕ → Rule
  address_rule : Address → Option ℕ → Rule
  local subnet everything : Rule

pub data Dialect : Type 0 where
  no_proxy wininet macos gsettings kde : Dialect

unfoldable pub ip_of : Text → Option Address
ip_of host = ip_address (elim (cut (text "%") host) [ none ↦ host | some (a, _) ↦ a ])

padding : ℕ → List Text
padding zero = []
padding (suc n) = text "0" ∷ padding n

-- `_network`: an abbreviated IPv4 address is filled up with zeros
unfoldable pub network : Text → Option Network
unfolding padding
network s =
    let (address, prefix) =
      (let r : Text × Text = elim (cut (text "/") s) [ none ↦ (s, []) | some (a, b) ↦ (a, b) ] in
        r) in
    let octets = split b'.' address in
    if ltb (length octets) 4 && all is_number octets
    then ip_network (join (text ".") (octets ++ padding (4 - length octets))) prefix
    else ip_network address prefix

unfoldable pub port_ok : Option ℕ → Target → Bool
port_ok none t = true
port_ok (some want) t = elim t.port [ none ↦ false | some p ↦ eqb want p ]

abbrev pub holds_address : (Address → Bool) → Text → Bool
holds_address p host = elim (ip_of host) [ none ↦ false | some a ↦ p a ]

unfoldable pub is_local : Target → Bool
is_local t = not (has_char b'.' t.host) && elim (ip_of t.host) [ none ↦ true | some _ ↦ false ]

unfoldable pub is_loopback : Target → Bool
is_loopback t =
    t.host == text "localhost"
    || ends_with t.host (text ".localhost")
    || holds_address (λ a. in_network a (net4 2130706432 8) || in_network a (net6 1 128)) t.host

module _ ⦃net : Netimps⦄ where
  unfoldable pub is_subnet : Target → Bool
  is_subnet t = elim (resolve_ip t.host none) [
    | none ↦ false
    | some a ↦ is_link_scoped a || any (in_network a) local_networks
  ]

  -- what the function that a rule is there does
  unfoldable pub applies : Rule → Target → Bool
  applies (exact host want) t = t.host == host && port_ok want t
  applies (suffix domain want) t =
      (t.host == domain || ends_with t.host (text "." ++ domain)) && port_ok want t
  applies (glob_rule pattern want) t = glob_match pattern t.host && port_ok want t
  applies (cidr n want) t = holds_address (λ a. in_network a n) t.host && port_ok want t
  applies (address_rule b want) t = holds_address (λ a. same_address a b) t.host && port_ok want t
  applies local t = is_local t
  applies subnet t = is_subnet t
  applies everything t = true

  -- `_split_port`
  unfoldable pub split_port : Text → Option (Text × Option ℕ)
  split_port entry =
      if has_char b'*' entry || has_char b'?' entry
      then elim (rcut (text ":") entry) [
        | none ↦ some (entry, none)
        | some (host, digits) ↦
            if is_number digits && not (is_empty host)
            then some (host, some (int digits))
            else some (entry, none)
      ]
      else split_host_port entry

  -- `_target`, of a URL whose host and port can be read
  unfoldable pub target_of : SplitResult → Option ℕ → Option Target
  target_of parts number = elim (hostname parts) [
    | none ↦ none
    | some host ↦ some (record {
      scheme = lower parts.scheme;
      host = host;
      port = elim number [ none ↦ default_port (lower parts.scheme) | some n ↦ some n ];
    })
  ]

  -- `except ValueError: return None`
  unfoldable pub target : Text → Option Target
  target url = elim (do parts ← urlsplit url; number ← port parts; ok (target_of parts number)) [
    | ok t ↦ t
    | raise e ↦ none
  ]

unfoldable pub strip_scheme : Text → Text
strip_scheme entry = elim (cut (text "://") entry) [
  | none ↦ entry
  | some (_, rest) ↦ rstrip (eqb b'/') rest
]

-- `dialect in ("no_proxy", "kde")`
abbrev pub by_domain : Dialect → Bool
by_domain no_proxy = true
by_domain kde = true
by_domain _ = false

-- the last part of `_parse_entry`, from the lower-case host
unfoldable pub host_rule : Dialect → Text → Option ℕ → Rule
host_rule dialect host want =
    let rest = drop 2 host in
    if starts_with host (text "*.") && not (has_char b'*' rest) && not (has_char b'?' rest)
    then suffix rest want
    else if has_char b'*' host || has_char b'?' host
    then glob_rule host want
    else if starts_with host (text ".")
    then suffix (lstrip (eqb b'.') host) want
    else elim (ip_of host) [
      | some a ↦ address_rule a want
      | none ↦ if by_domain dialect then suffix host want else exact host want
    ]

module _ ⦃net : Netimps⦄ where
  unfoldable pub parse_entry : Text → Dialect → Option Rule
  parse_entry entry dialect =
      let token = lower entry in
      if token == text "*"
      then some everything
      else if token == text "<local>"
      then some local
      else if token == text "<subnet>"
      then some subnet
      else if has_char b'/' (strip_scheme entry)
      then elim (network (strip_scheme entry)) [ none ↦ none | some n ↦ some (cidr n none) ]
      else elim (split_port (strip_scheme entry)) [
        | none ↦ none
        | some ([], _) ↦ none
        | some (c ∷ host, want) ↦ some (host_rule dialect (lower (c ∷ host)) want)
      ]
