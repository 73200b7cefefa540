-- ===== src/Python/Quote.antt =====
-- `urllib.parse.quote(s, safe="")` and `unquote`, of ASCII text.
use proxylib.Prelude.{
  ℕ, ◌+◌, ◌-◌, ◌*◌, ◌/◌, ◌%◌, ◌<◌, ◌≡◌, Bool, true, false, ◌&&◌, ◌||◌, Option, none, some, [], ◌∷◌,
  ltb, leb, eqb, if◌then◌else◌, arith,
}
use proxylib.Python.Text.{Text, is_digit}

hex_upper : ℕ → ℕ
hex_upper d = if ltb d 10 then d + b'0' else d + 55

-- letters, digits and "_.-~"
unreserved : ℕ → Bool
unreserved c =
    is_digit c
    || (leb b'a' c && leb c b'z')
    || (leb b'A' c && leb c b'Z')
    || eqb c b'_'
    || eqb c b'.'
    || eqb c b'-'
    || eqb c b'~'

unfoldable pub quote : Text → Text
unfolding hex_upper unreserved
quote [] = []
quote (c ∷ s) =
    let rest = quote s in
    if unreserved c then c ∷ rest else b'%' ∷ hex_upper (c / 16) ∷ hex_upper (c % 16) ∷ rest

hex_value : ℕ → Option ℕ
hex_value c =
    if leb b'0' c && leb c b'9'
    then some (c - b'0')
    else if leb b'A' c && leb c b'F'
    then some (c - 55)
    else if leb b'a' c && leb c b'f'
    then some (c - 87)
    else none

escaped : ℕ → ℕ → ℕ → Option ℕ
escaped c a b =
    if eqb c b'%'
    then elim (hex_value a) [
      | none ↦ none
      | some x ↦ elim (hex_value b) [ none ↦ none | some y ↦ some (x * 16 + y) ]
    ]
    else none

unfoldable pub unquote : Text → Text
unfolding hex_value escaped
unquote (c ∷ a ∷ b ∷ s) = elim (escaped c a b) [
  | some x ↦ x ∷ unquote s
  | none ↦ c ∷ unquote (a ∷ b ∷ s)
]
unquote s = s

hex_value-hex_upper : (d : ℕ) → d < 16 → hex_value (hex_upper d) ≡ some d
unfolding hex_value hex_upper
hex_value-hex_upper d h = ground arith

unreserved-ne-percent : (c : ℕ) → unreserved c ≡ true → eqb c b'%' ≡ false
unfolding unreserved is_digit
unreserved-ne-percent c h = ground arith
