-- ===== src/Python/Text.antt =====
-- Python's `str`, as its list of code points. Case and white space are those of ASCII.
use Prim.Native.Char.{code}
use proxylib.Prelude.{
  ℕ, ◌+◌, ◌-◌, ◌*◌, ◌≡◌, refl, ◌↔◌, Bool, true, false, ◌&&◌, ◌||◌, Option, none, some, List, [],
  ◌∷◌, ◌++◌, map, arith, leb, eqb, eqb_iff, if◌then◌else◌, length, drop, any, all, String,
}

abbrev pub Text : Type 0
Text = List ℕ

-- the code points of a literal
abbrev pub text : String → Text
text String.[] = []
text (String.◌∷◌ c s) = code c ∷ text s

infix 50 ◌==◌
unfoldable pub ◌==◌ : Text → Text → Bool
[] == [] = true
[] == (_ ∷ _) = false
(_ ∷ _) == [] = false
(a ∷ s) == (b ∷ t) = eqb a b && s == t

pub ==_iff : (s t : Text) → ((s == t) ≡ true) ↔ (s ≡ t)
unfolding ◌==◌
==_iff [] [] = (λ _. refl, λ _. refl)
==_iff [] (b ∷ t) = (λ h. cc, λ h. cc)
==_iff (a ∷ s) [] = (λ h. cc, λ h. cc)
==_iff (a ∷ s) (b ∷ t) = (
  λ h. ground (arith, (==_iff s t).0, eqb_iff a b),
  λ h. ground (arith, (==_iff s t).1, eqb_iff a b),
)

pub ==_refl : (s : Text) → (s == s) ≡ true
==_refl s = (==_iff s s).1 refl

-- `str.isspace` of one character
unfoldable pub is_space : ℕ → Bool
is_space c = (leb 9 c && leb c 13) || (leb 28 c && leb c 32)

unfoldable pub is_digit : ℕ → Bool
is_digit c = leb b'0' c && leb c b'9'

unfoldable pub lower_char : ℕ → ℕ
lower_char c = if leb b'A' c && leb c b'Z' then c + 32 else c

unfoldable pub upper_char : ℕ → ℕ
upper_char c = if leb b'a' c && leb c b'z' then c - 32 else c

abbrev pub lower : Text → Text
lower s = map lower_char s

abbrev pub upper : Text → Text
upper s = map upper_char s

-- `s.lstrip(chars)` and `s.rstrip(chars)`, the characters given by a test
unfoldable pub lstrip : (ℕ → Bool) → Text → Text
lstrip p [] = []
lstrip p (c ∷ s) = let rest = lstrip p s in if p c then rest else c ∷ s

unfoldable pub rstrip : (ℕ → Bool) → Text → Text
rstrip p [] = []
rstrip p (c ∷ s) = elim (rstrip p s) [ [] ↦ if p c then [] else c ∷ [] | d ∷ r ↦ c ∷ d ∷ r ]

abbrev pub strip : Text → Text
strip s = rstrip is_space (lstrip is_space s)

unfoldable pub starts_with : Text → Text → Bool
starts_with s [] = true
starts_with [] (_ ∷ _) = false
starts_with (c ∷ s) (d ∷ t) = eqb c d && starts_with s t

unfoldable pub ends_with : Text → Text → Bool
ends_with [] t = [] == t
ends_with (c ∷ s) t = (c ∷ s) == t || ends_with s t

-- `c in s` for one character
abbrev pub has_char : ℕ → Text → Bool
has_char c s = any (eqb c) s

-- `s.partition(sep)`: the parts around the first `sep`, `none` where it is absent
unfoldable pub cut : Text → Text → Option (Text × Text)
cut sep [] = if starts_with [] sep then some ([], []) else none
cut sep (c ∷ s) =
    let later : Option (Text × Text) = elim (cut sep s) [
      | none ↦ none
      | some (a, b) ↦ some (c ∷ a, b)
    ] in
    if starts_with (c ∷ s) sep then some ([], drop (length sep) (c ∷ s)) else later

-- `s.rpartition(sep)`: the parts around the last `sep`
unfoldable pub rcut : Text → Text → Option (Text × Text)
rcut sep [] = if starts_with [] sep then some ([], []) else none
rcut sep (c ∷ s) = elim (rcut sep s) [
  | some (a, b) ↦ some (c ∷ a, b)
  | none ↦ if starts_with (c ∷ s) sep then some ([], drop (length sep) (c ∷ s)) else none
]

abbrev pub contains : Text → Text → Bool
contains s t = elim (cut t s) [ none ↦ false | some _ ↦ true ]

-- `s.split(c)`, which is never empty
abbrev push_head : ℕ → List Text → List Text
push_head c [] = (c ∷ []) ∷ []
push_head c (w ∷ ws) = (c ∷ w) ∷ ws

unfoldable pub split : ℕ → Text → List Text
split sep [] = [] ∷ []
split sep (c ∷ s) = let rest = split sep s in if eqb c sep then [] ∷ rest else push_head c rest

-- `s.split()`: the runs of characters that are not separators
unfoldable pub runs : (ℕ → Bool) → Text → Text → List Text
runs p [] [] = []
runs p (d ∷ cur) [] = (d ∷ cur) ∷ []
runs p [] (c ∷ s) = if p c then runs p [] s else runs p (c ∷ []) s
runs p (d ∷ cur) (c ∷ s) =
    let closed = (d ∷ cur) ∷ runs p [] s in
    let longer = runs p (d ∷ cur ++ c ∷ []) s in if p c then closed else longer

abbrev pub words : Text → List Text
words s = runs is_space [] s

-- `s.split(None, 1)` of a text with no white space before it: the first word and the rest
unfoldable pub first_word : Text → Text × Text
first_word [] = ([], [])
first_word (c ∷ s) =
    let stop : Text × Text = ([], lstrip is_space s) in
    let more : Text × Text = (c ∷ (first_word s).0, (first_word s).1) in
    if is_space c then stop else more

unfoldable pub join : Text → List Text → Text
join sep [] = []
join sep (w ∷ []) = w
join sep (w ∷ v ∷ ws) = w ++ sep ++ join sep (v ∷ ws)

-- `s.isdigit()`, and `int(s)` of such a text
abbrev pub is_number : Text → Bool
is_number [] = false
is_number (c ∷ s) = all is_digit (c ∷ s)

unfoldable pub number_from : ℕ → Text → ℕ
number_from n [] = n
number_from n (c ∷ s) = number_from (n * 10 + (c - b'0')) s

abbrev pub int : Text → ℕ
int s = number_from 0 s

-- `bool(s)`, and `s or None`
abbrev pub is_empty : Text → Bool
is_empty [] = true
is_empty (_ ∷ _) = false

abbrev pub nonempty : Text → Option Text
nonempty [] = none
nonempty (c ∷ s) = some (c ∷ s)
