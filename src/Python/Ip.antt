-- ===== src/Python/Ip.antt =====
-- The `ipaddress` module: `ip_address`, `ip_network(…, strict=False)` and `address in network`.
use proxylib.Prelude.{
  ℕ, zero, suc, ◌+◌, ◌-◌, ◌*◌, ◌/◌, ◌%◌, ◌^◌, Bool, false, not, ◌&&◌, ◌||◌, Option, none, some,
  List, [], ◌∷◌, ◌++◌, ltb, leb, eqb, if◌then◌else◌, length, take, drop,
}
use proxylib.Python.Text.{
  Text, text, is_digit, is_number, int, split, cut, has_char, is_empty, ◌==◌,
}

-- the integer; an IPv6 address has its scope too, empty where it has none
pub data Address : Type 0 where
  v4 : ℕ → Address
  v6 : ℕ → Text → Address

pub data Network : Type 0 where
  net4 : ℕ → ℕ → Network
  net6 : ℕ → ℕ → Network

octet : Text → Option ℕ
octet s =
    if is_number s
      && leb (length s) 3
      && (s == text "0" || not (eqb (elim s [ [] ↦ 0 | c ∷ _ ↦ c ]) b'0'))
      && leb (int s) 255
    then some (int s)
    else none

four : Option ℕ → Option ℕ → Option ℕ → Option ℕ → Option ℕ
four (some a) (some b) (some c) (some d) = some (a * 16777216 + b * 65536 + c * 256 + d)
four _ _ _ _ = none

quad : List Text → Option ℕ
quad (a ∷ b ∷ c ∷ d ∷ []) = four (octet a) (octet b) (octet c) (octet d)
quad _ = none

-- `IPv4Address(s)`
unfoldable pub parse_v4 : Text → Option ℕ
unfolding octet four quad
parse_v4 s = quad (split b'.' s)

hex_digit : ℕ → Option ℕ
hex_digit c =
    if is_digit c
    then some (c - b'0')
    else if leb b'a' c && leb c b'f'
    then some (c - 87)
    else if leb b'A' c && leb c b'F'
    then some (c - 55)
    else none

hextet_from : ℕ → Text → Option ℕ
hextet_from n [] = some n
hextet_from n (c ∷ s) = elim (hex_digit c) [ none ↦ none | some d ↦ hextet_from (n * 16 + d) s ]

hextet : Text → Option ℕ
hextet s = if is_empty s || ltb 4 (length s) then none else hextet_from 0 s

hextets : ℕ → List Text → Option ℕ
hextets n [] = some n
hextets n (s ∷ ss) = elim (hextet s) [ none ↦ none | some d ↦ hextets (n * 65536 + d) ss ]

-- the position of the one empty part that is not at an end; `none` where there are two
skip_at : ℕ → Option ℕ → List Text → Option (Option ℕ)
skip_at i found [] = some found
skip_at i found (s ∷ []) = some found
skip_at i found (s ∷ t ∷ ss) =
    let onward = skip_at (i + 1) found (t ∷ ss) in
    let here : Option (Option ℕ) = elim found [
      | none ↦ skip_at (i + 1) (some i) (t ∷ ss)
      | some _ ↦ none
    ] in
    if is_empty s && ltb 0 i then here else onward

last : List Text → Text
last [] = []
last (s ∷ []) = s
last (s ∷ t ∷ ss) = last (t ∷ ss)

first : List Text → Text
first [] = []
first (s ∷ _) = s

hex_text : ℕ → ℕ → Text
hex_text zero n = []
hex_text (suc k) n =
    hex_text k (n / 16) ++ (if ltb (n % 16) 10 then n % 16 + b'0' else n % 16 + 87) ∷ []

-- an IPv4 address in the last part stands for two parts
expand_v4 : List Text → Option (List Text)
expand_v4 parts =
    if has_char b'.' (last parts)
    then elim (parse_v4 (last parts)) [
      | none ↦ none
      | some n ↦
          some
            (take (length parts - 1) parts ++ hex_text 4 (n / 65536) ∷ hex_text 4 (n % 65536) ∷ [])
    ]
    else some parts

both : ℕ → Option ℕ → Option ℕ → Option ℕ
both width (some hi) (some lo) = some (hi * 2 ^ width + lo)
both width _ _ = none

place : List Text → Option ℕ → Option ℕ
place parts none =
    if eqb (length parts) 8 && not (is_empty (first parts)) && not (is_empty (last parts))
    then hextets 0 parts
    else none
place parts (some i) =
    let hi = if is_empty (first parts) then i - 1 else i in
    let below = length parts - i - 1 in
    let lo = if is_empty (last parts) then below - 1 else below in
    if (is_empty (first parts) && ltb 0 hi)
      || (is_empty (last parts) && ltb 0 lo)
      || leb 8 (hi + lo)
    then none
    else both (16 * lo) (hextets 0 (take hi parts)) (hextets 0 (drop (length parts - lo) parts))

groups : List Text → Option ℕ
groups parts =
    if leb 3 (length parts)
    then elim (expand_v4 parts) [
      | none ↦ none
      | some ps ↦
          if ltb 9 (length ps)
          then none
          else elim (skip_at 0 none ps) [ none ↦ none | some skip ↦ place ps skip ]
    ]
    else none

-- `IPv6Address(s)`, the scope after a "%"
unfoldable pub parse_v6 : Text → Option (ℕ × Text)
unfolding hex_digit hextet_from hextet hextets skip_at last first hex_text expand_v4 both place
    groups parse_v4
parse_v6 s = elim (cut (text "%") s) [
  | none ↦ elim (groups (split b':' s)) [ none ↦ none | some n ↦ some (n, []) ]
  | some (addr, scope) ↦
      if is_empty scope || has_char b'%' scope
      then none
      else elim (groups (split b':' addr)) [ none ↦ none | some n ↦ some (n, scope) ]
]

-- `ip_address(s)`, `none` for `ValueError`
unfoldable pub ip_address : Text → Option Address
unfolding parse_v4 parse_v6
ip_address s = elim (parse_v4 s) [
  | some n ↦ some (v4 n)
  | none ↦ elim (parse_v6 s) [ none ↦ none | some (n, scope) ↦ some (v6 n scope) ]
]

-- the prefix length of a contiguous mask of `width` bits
prefix_of_mask : ℕ → ℕ → ℕ → Option ℕ
prefix_of_mask width n zero = if eqb n 0 then some 0 else none
prefix_of_mask width n (suc p) =
    let rest = prefix_of_mask width n p in
    if eqb n (2 ^ width - 2 ^ (width - suc p)) then some (suc p) else rest

prefix_number : ℕ → Text → Option ℕ
prefix_number width s = if is_number s && leb (int s) width then some (int s) else none

-- a netmask, or else a host mask
mask_prefix : ℕ → Option ℕ
mask_prefix n = elim (prefix_of_mask 32 n 32) [
  | some p ↦ some p
  | none ↦ prefix_of_mask 32 (2 ^ 32 - 1 - n) 32
]

prefix_v4 : Text → Option ℕ
prefix_v4 s = elim (prefix_number 32 s) [
  | some p ↦ some p
  | none ↦ elim (parse_v4 s) [ none ↦ none | some n ↦ mask_prefix n ]
]

masked : ℕ → ℕ → ℕ → ℕ
masked width n p = n / 2 ^ (width - p) * 2 ^ (width - p)

-- `ip_network(f"{address}/{prefix}", strict=False)`
unfoldable pub ip_network : Text → Text → Option Network
unfolding prefix_of_mask prefix_number mask_prefix prefix_v4 masked parse_v4 parse_v6
ip_network address prefix =
    if has_char b'/' address || has_char b'/' prefix then none else elim (parse_v4 address) [
      | some n ↦ elim (prefix_v4 prefix) [ none ↦ none | some p ↦ some (net4 (masked 32 n p) p) ]
      | none ↦ elim (parse_v6 address) [
        | none ↦ none
        | some (n, _) ↦ elim (prefix_number 128 prefix) [
          | none ↦ none
          | some p ↦ some (net6 (masked 128 n p) p)
        ]
      ]
    ]

-- `address in network`
unfoldable pub in_network : Address → Network → Bool
in_network (v4 n) (net4 b p) = eqb (n / 2 ^ (32 - p)) (b / 2 ^ (32 - p))
in_network (v6 n _) (net6 b p) = eqb (n / 2 ^ (128 - p)) (b / 2 ^ (128 - p))
in_network _ _ = false

-- `a == b` of two addresses
unfoldable pub same_address : Address → Address → Bool
same_address (v4 a) (v4 b) = eqb a b
same_address (v6 a s) (v6 b t) = eqb a b && s == t
same_address _ _ = false

-- `int(address)`
abbrev pub to_int : Address → ℕ
to_int (v4 n) = n
to_int (v6 n _) = n
