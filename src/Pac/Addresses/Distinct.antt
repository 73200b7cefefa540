-- ===== src/Pac/Addresses/Distinct.antt =====
-- src/proxylib/pac/_functions.py: the addresses that `dnsResolveEx` writes.
use proxylib.Prelude.{
  ◌≡◌, refl, ◌∙◌, subst, Bool, true, false, ◌||◌, List, [], ◌∷◌, ◌++◌, map, arith, any-append,
  Bool-cases, inl, inr,
}
use proxylib.Python.Text.{Text, ◌==◌, ==_iff}
use proxylib.Python.Ip.{Address}
use proxylib.Net.{Netimps}
use proxylib.Pac.Addresses.{is_in, collect}

-- no text stands twice
abbrev pub Distinct : List Text → Type 0
Distinct [] = Unit {0}
Distinct (s ∷ ss) = (is_in s ss ≡ false) × Distinct ss

Distinct-append :
    (seen : List Text) (s : Text) → Distinct seen → is_in s seen ≡ false → Distinct (seen ++ s ∷ [])
unfolding is_in
Distinct-append [] s d h = (refl, tt)
Distinct-append (t ∷ seen) s (absent, d) h = (
  any-append (λ u. u == t) seen (s ∷ []) ∙ ground (arith, absent, h, ==_iff s t, ==_iff t s),
  Distinct-append seen s d (ground (arith, h)),
)

-- a text that was seen adds nothing
again :
    (a s : Text) (seen : List Text) (b : Bool)
    → is_in a seen ≡ true
    → (is_in s seen || b) ≡ (is_in s seen || (a == s || b))
again a s seen b e = elim (Bool-cases (a == s)) [
  | inr q ↦ rw q refl
  | inl q ↦
      let there : is_in s seen ≡ true = subst (λ t. is_in t seen ≡ true) ((==_iff a s).0 q) e in
      rw (q, there) refl
]

module _ ⦃net : Netimps⦄ (str_of : Address → Text) where
  collect-Distinct :
      (found : List Address) (seen : List Text)
      → Distinct seen
      → Distinct (collect str_of seen found)
  unfolding collect
  collect-Distinct [] seen d = d
  collect-Distinct (a ∷ found) seen d = elim (Bool-cases (is_in (str_of a) seen)) [
    | inl e ↦ rw e (collect-Distinct found seen d)
    | inr e ↦ rw e (collect-Distinct found _ (Distinct-append seen (str_of a) d e))
  ]

  is_in-collect :
      (found : List Address) (seen : List Text) (s : Text)
      → is_in s (collect str_of seen found) ≡ (is_in s seen || is_in s (map str_of found))
  unfolding collect is_in
  is_in-collect [] seen s = ground arith
  is_in-collect (a ∷ found) seen s = elim (Bool-cases (is_in (str_of a) seen)) [
    | inl e ↦
        rw e (is_in-collect found seen s ∙ again (str_of a) s seen (is_in s (map str_of found)) e)
    | inr e ↦ rw e (
        is_in-collect found (seen ++ str_of a ∷ []) s
        ∙ rw (any-append (λ u. u == s) seen (str_of a ∷ [])) (ground arith))
  ]

  -- `dnsResolveEx` writes each address that the resolver gives, and no other, and none twice.
  pub collect-once :
      (found : List Address)
      → Distinct (collect str_of [] found)
        × ((s : Text) → is_in s (collect str_of [] found) ≡ is_in s (map str_of found))
  unfolding is_in
  collect-once found = (collect-Distinct found [] tt, λ s. is_in-collect found [] s)
