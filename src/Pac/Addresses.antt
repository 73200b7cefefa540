-- ===== src/Pac/Addresses.antt =====
-- src/proxylib/pac/_functions.py: the builtins that write addresses out. How Python writes an address is an
-- argument, `str_of`; so is the machine's name.
pub mod Sorting
pub mod Distinct
use proxylib.Prelude.{
  ℕ, Bool, true, false, not, ◌&&◌, ◌||◌, Option, none, some, List, [], ◌∷◌, ◌++◌, ltb, leb, eqb,
  if◌then◌else◌, map, keep, any, all,
}
use proxylib.Python.Exec.{Error, Result, ok, raise, value_error, type_error}
use proxylib.Python.Text.{Text, text, split, strip, is_empty, join, ◌==◌}
use proxylib.Python.Ip.{Address, v4, v6, ip_address, to_int}
use proxylib.Proxy.Key.{text_le}
use proxylib.Net.{Netimps, resolve_ip, resolve_all}

unfoldable pub is_in : Text → List Text → Bool
is_in s ss = any (λ t. t == s) ss

module _ ⦃net : Netimps⦄ (str_of : Address → Text) where
  -- the loop of `dnsResolveEx`, over what it has seen
  unfoldable pub collect : List Text → List Address → List Text
  collect seen [] = seen
  collect seen (a ∷ more) =
      collect (if is_in (str_of a) seen then seen else seen ++ str_of a ∷ []) more

  unfoldable pub dns_resolve_ex : Text → Text
  dns_resolve_ex host = join (text "; ") (collect [] (resolve_all host))

  unfoldable pub my_ip_address : Text → Text
  my_ip_address hostname = elim (resolve_ip hostname (some false)) [
    | some ip ↦ str_of ip
    | none ↦ text "127.0.0.1"
  ]

  unfoldable pub my_ip_address_ex : Text → Text
  my_ip_address_ex hostname =
      let found = dns_resolve_ex hostname in
      if is_empty found then my_ip_address hostname else found

-- `convert_addr`
unfoldable pub convert_addr : Text → Result ℕ
convert_addr ipaddr = elim (ip_address ipaddr) [ none ↦ raise value_error | some a ↦ ok (to_int a) ]

-- the addresses of a list
unfoldable pub listed : Text → List Text
listed s = keep (λ a. not (is_empty a)) (map strip (split b';' s))

-- `addrs.sort(key=…)`, which keeps the order of equal keys
module _ {A : Type 0} (le : A → A → Bool) where
  unfoldable pub insert : A → List A → List A
  insert x [] = x ∷ []
  insert x (y ∷ ys) = let rest = insert x ys in if le x y then x ∷ y ∷ ys else y ∷ rest

  unfoldable pub sort : List A → List A
  sort [] = []
  sort (x ∷ xs) = insert x (sort xs)

-- `a <= b` of two addresses of one version, as sorting asks it: not `b < a`
unfoldable pub address_le : Address → Address → Bool
address_le a b = leb (to_int a) (to_int b)

-- the addresses with their keys; `none` is the `ValueError` of a key
unfoldable pub keyed : List Text → Option (List (Text × Address))
keyed [] = some []
keyed (s ∷ ss) = elim (ip_address s) [
  | none ↦ none
  | some a ↦ elim (keyed ss) [ none ↦ none | some rest ↦ some ((s, a) ∷ rest) ]
]

unfoldable pub is_v4 : Address → Bool
is_v4 (v4 n) = true
is_v4 (v6 n scope) = false

-- comparing an IPv4 with an IPv6 address is a `TypeError`, and a sort compares some pair of the two
-- kinds where both are there
unfoldable pub sort_keyed : List (Text × Address) → Result (List Text)
sort_keyed ks =
    if any (λ k. is_v4 k.1) ks && any (λ k. not (is_v4 k.1)) ks
    then raise type_error
    else ok (map (λ k. k.0) (sort (λ j k. address_le j.1 k.1) ks))

unfoldable pub sort_addresses : List Text → Result (List Text)
sort_addresses addrs = elim (keyed addrs) [
  | none ↦ ok (sort text_le addrs)
  | some ks ↦ sort_keyed ks
]

-- `sortIpAddressList`
unfoldable pub sort_ip_address_list : Text → Result Text
sort_ip_address_list ip_address_list = elim (sort_addresses (listed ip_address_list)) [
  | raise e ↦ raise e
  | ok addrs ↦ ok (join (text "; ") addrs)
]
