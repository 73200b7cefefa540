-- ===== src/Lookup/Laws.antt =====
-- What `lookup` promises of any map's answer, and how chains behave.
use proxylib.Prelude.{
  ◌≡◌, refl, ◌≢◌, true, false, Option, none, some, List, [], ◌∷◌, arith, Option-cases, inl, inr,
  ◌⊎◌,
}
use proxylib.Python.Exec.{
  Error, ok, raise, key_error, type_error, proxylib_error, proxy_parse_error, is_a, Result-cases,
  >>=-ok,
}
use proxylib.Python.Text.{Text}
use proxylib.Net.{Netimps}
use proxylib.Proxy.{Proxy, given}
use proxylib.Proxy.Parse.{parse, or_direct}
use proxylib.Proxy.Reading.{parse_pac_result_total, parse-Reads, init_error}
use proxylib.Lookup.{
  Item, nothing, proxy, str, object, other, Answer, one, many, Proxies, parse_text,
  with_attribute_credentials, credit_all, normalise_one, normalise_all, normalise,
}

-- `KeyError` is the only class here that an `except KeyError` catches.
pub key_error_only : (e : Error) → is_a e key_error ≡ true → e ≡ key_error
unfolding is_a
key_error_only e h = ground arith

-- No exception of proxylib's own is caught by `except KeyError`.
pub proxylib_error-not-key_error :
    (e : Error) → is_a e proxylib_error ≡ true → is_a e key_error ≡ false
unfolding is_a
proxylib_error-not-key_error e h = ground arith

credit_all-ne-nil :
    (u w : Option Text) (ps qs : Proxies) → ps ≢ [] → credit_all u w ps ≡ ok qs → qs ≢ []
unfolding credit_all
credit_all-ne-nil u w [] qs h e = absurd (h refl)
credit_all-ne-nil u w (none ∷ ps) qs h e = λ z. ground arith
credit_all-ne-nil u w (some p ∷ ps) qs h e = λ z. ground arith

or_direct-ne-nil : (ps : Proxies) → or_direct ps ≢ []
or_direct-ne-nil [] = λ e. cc
or_direct-ne-nil (p ∷ ps) = λ e. cc

-- Classes that are no `KeyError`: what reading an answer may raise.
abbrev pub IsUnreadable : Error → Type 0
IsUnreadable e = (e ≡ proxy_parse_error) ⊎ (e ≡ type_error)

credentials_error :
    (p : Proxy) (u w : Option Text) (e : Error)
    → with_attribute_credentials p u w ≡ raise e
    → e ≡ proxy_parse_error
unfolding with_attribute_credentials
credentials_error p u w e h = elim (Option-cases (given u)) [
  | inl g ↦ ground (arith, g)
  | inr (user, g) ↦
      ground (arith, g, init_error p.scheme p.host p.port (some user) w p.path p.headers e)
]

credit_all_error :
    (u w : Option Text) (ps : Proxies) (e : Error)
    → credit_all u w ps ≡ raise e
    → e ≡ proxy_parse_error
unfolding credit_all
credit_all_error u w [] e h = cc
credit_all_error u w (none ∷ ps) e h = ground (arith, credit_all_error u w ps e)
credit_all_error u w (some p ∷ ps) e h =
    ground (arith, credentials_error p u w e, credit_all_error u w ps e)

parse_error : (s : Text) (e : Error) → parse s ≡ raise e → e ≡ proxy_parse_error
parse_error s e h = rw h at (parse-Reads s)

module _ ⦃net : Netimps⦄ where
  parse_text-ne-nil : (s : Text) (ps : Proxies) → parse_text s ≡ ok ps → ps ≢ []
  unfolding parse_text
  parse_text-ne-nil s ps e =
      let (qs, q, ne, _) = parse_pac_result_total s in λ z. ground (arith, q, ne)

  parse_text_error : (s : Text) (e : Error) → parse_text s ≡ raise e → e ≡ proxy_parse_error
  unfolding parse_text
  parse_text_error s e h =
      let (qs, q, ne, _) = parse_pac_result_total s in ground (arith, q, parse_error s e)

  normalise_one-ne-nil : (x : Item) (ps : Proxies) → normalise_one x ≡ ok ps → ps ≢ []
  unfolding normalise_one
  normalise_one-ne-nil nothing ps e = λ z. ground arith
  normalise_one-ne-nil (proxy p) ps e = λ z. ground arith
  normalise_one-ne-nil (str s) ps e = parse_text-ne-nil s ps e
  normalise_one-ne-nil (object url u w) ps e =
      let (qs, q, c) = >>=-ok (parse_text url) (credit_all u w) e in
      credit_all-ne-nil u w qs ps (parse_text-ne-nil url qs q) c
  normalise_one-ne-nil other ps e = λ z. cc

  normalise_one_error : (x : Item) (e : Error) → normalise_one x ≡ raise e → IsUnreadable e
  unfolding normalise_one
  normalise_one_error nothing e h = cc
  normalise_one_error (proxy p) e h = cc
  normalise_one_error (str s) e h = inl (parse_text_error s e h)
  normalise_one_error (object url u w) e h = elim (Result-cases (parse_text url)) [
    | inl (ps, q) ↦ inl (credit_all_error u w ps e (rw q at h))
    | inr (x, q) ↦ inl (parse_text_error url e (ground (arith, q)))
  ]
  normalise_one_error other e h = inr (ground arith)

  normalise_all_error : (xs : List Item) (e : Error) → normalise_all xs ≡ raise e → IsUnreadable e
  unfolding normalise_all
  normalise_all_error [] e h = cc
  normalise_all_error (x ∷ xs) e h =
      ground (arith, normalise_one_error x e, normalise_all_error xs e)

  -- The proxies read from an answer are never the empty list.
  pub normalise-ne-nil : (a : Answer) (ps : Proxies) → normalise a ≡ ok ps → ps ≢ []
  unfolding normalise
  normalise-ne-nil (one x) ps e = normalise_one-ne-nil x ps e
  normalise-ne-nil (many xs) ps e =
      let (qs, q, c) = >>=-ok (normalise_all xs) (λ qs. ok (or_direct qs)) e in
      λ z. ground (arith, c, or_direct-ne-nil qs)

  -- An answer that cannot be read raises `ProxyParseError` or `TypeError`.
  pub normalise_error : (a : Answer) (e : Error) → normalise a ≡ raise e → IsUnreadable e
  unfolding normalise
  normalise_error (one x) e h = normalise_one_error x e h
  normalise_error (many xs) e h = ground (arith, normalise_all_error xs e)
